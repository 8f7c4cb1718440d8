-- ===== src/Start/Service.antt =====
-- The service as a client sees it over HTTP: what the configured server does with the requests on its
-- storage nodes.
use webstore.Base.{
  ℕ, zero, suc, ◌-◌, ◌≡◌, refl, Option, none, some, List, [], ◌∷◌, ◌++◌, arith, length, drop,
  length-append, drop-append, Bool-cases, inl, inr, ap, ◌∙◌, subst, sym,
}
use webstore.Base.Int.{to_unsigned}
use webstore.Base.Bytes.{Bytes, text, starts_with}
use webstore.Redis.{Redis}
use webstore.Server.{State, WsRt}
use webstore.Node.{node, hashlen}
use webstore.Config.{nodecfg}
use webstore.Searest.{
  Srn, Sri, NodeCallback, searest_new, searest_set_internal_select, searest_set_addr_cb,
}
use webstore.Searest.Nodes.{
  searest_node_find, find_from, update_at, searest_node_set_access, searest_node_len,
  searest_node_is_disabled,
}
use webstore.Searest.Request.{process_request, on_node, after_cb}
use webstore.Start.{add_nodes, callback, instance_of, limiting, SrvOpts}
use webstore.Start.Routes.{
  Size, s128, s160, s224, s256, s384, s512, bits, alg, root_of, Finds, storage_route, config_route,
}

on_node-Finds :
    {R : Redis} (now : ℕ) (ws : Sri R) (rt : WsRt) (s : State R) (o : Option (ℕ × Srn R))
    (cb : NodeCallback R) (len : ℕ)
    → Finds o cb len
    → (i : ℕ) × (on_node now ws rt s o
        ≡ after_cb now i ws (cb (drop len s.ri.url) (s.ri.urllen - len) rt s))
unfolding on_node searest_node_is_disabled searest_node_len
on_node-Finds now ws rt s none cb len f = absurd f
on_node-Finds now ws rt s (some (i, n)) cb len f = (i, rw (f.2, f.1, f.0))

pub length-root : (size : Size) → length (root_of size) ≡ 11
unfolding root_of text
length-root s128 = refl
length-root s160 = refl
length-root s224 = refl
length-root s256 = refl
length-root s384 = refl
length-root s512 = refl

-- the callback of a storage node
abbrev pub storage : {R : Redis} → Size → NodeCallback R
storage size = callback (node (alg size) (hashlen (bits size)))

-- Every URL below a storage root goes to the callback of its size.
abbrev pub Routed : {R : Redis} → Sri R → Type 0
Routed ws =
    (size : Size) (token : Bytes)
    → Finds (searest_node_find (root_of size ++ token) ws.nodelist) (storage size) 11

find_from-touch :
    {R : Redis} (k now i : ℕ) (url : Bytes) (nodes : List (Srn R)) (cb : NodeCallback R) (len : ℕ)
    → Finds (find_from k url nodes) cb len
    → Finds (find_from k url (update_at i (searest_node_set_access now) nodes)) cb len
unfolding find_from update_at searest_node_set_access
find_from-touch k now i url [] cb len f = f
find_from-touch k now zero url (n ∷ ns) cb len f = elim (Bool-cases (starts_with url n.root)) [
  | inl hit ↦ rw hit (rw hit at f)
  | inr miss ↦ rw miss (rw miss at f)
]
find_from-touch k now (suc i) url (n ∷ ns) cb len f = elim (Bool-cases (starts_with url n.root)) [
  | inl hit ↦ rw hit (rw hit at f)
  | inr miss ↦ rw miss (find_from-touch (suc k) now i url ns cb len (rw miss at f))
]

pub Routed-touch :
    {R : Redis} (now i : ℕ) (ws : Sri R)
    → Routed ws
    → Routed (record ws { nodelist = update_at i (searest_node_set_access now) ws.nodelist })
unfolding searest_node_find
Routed-touch now i ws routed size token =
    find_from-touch 0 now i (root_of size ++ token) ws.nodelist (storage size) 11
      (routed size token)

pub instance_of-nodes :
    {R : Redis} (rt : WsRt) (so : SrvOpts)
    → (instance_of {R = R} rt so).nodelist
      ≡ (add_nodes (searest_new 11 139 (to_unsigned 64 so.max_post_data_size))).nodelist
unfolding instance_of searest_set_internal_select searest_set_addr_cb
instance_of-nodes rt so = elim (Bool-cases so.use_threads) [
  | inl threads ↦ elim (Bool-cases (limiting rt)) [
    | inl on ↦ rw (threads, on)
    | inr off ↦ rw (threads, off)
  ]
  | inr single ↦ elim (Bool-cases (limiting rt)) [
    | inl on ↦ rw (single, on)
    | inr off ↦ rw (single, off)
  ]
]

-- The configured server is so, whatever the options and the environment are.
pub instance_of-Routed : (R : Redis) (rt : WsRt) (so : SrvOpts) → Routed {R = R} (instance_of rt so)
instance_of-Routed R rt so size token = rw (instance_of-nodes rt so) (
    storage_route (searest_new 11 139 (to_unsigned 64 so.max_post_data_size)) size token
      (unfold searest_new in refl))

-- A request that finds a node is answered by its callback on what follows the node's root.
pub process-Finds :
    {R : Redis} (now : ℕ) (ws : Sri R) (rt : WsRt) (s : State R) (root rest : Bytes)
    (cb : NodeCallback R)
    → Finds (searest_node_find (root ++ rest) ws.nodelist) cb (length root)
    → s.ri.url ≡ root ++ rest
    → s.ri.urllen ≡ length (root ++ rest)
    → (i : ℕ) × (process_request now ws rt s ≡ after_cb now i ws (cb rest (length rest) rt s))
unfolding process_request
process-Finds now ws rt s root rest cb found url len =
    let (i, e) =
      on_node-Finds now ws rt s (searest_node_find s.ri.url ws.nodelist) cb (length root) route in
    (i, e ∙ ap (λ (t : Bytes × ℕ). after_cb now i ws (cb t.0 t.1 rt s)) bare)
  where
    route : Finds (searest_node_find s.ri.url ws.nodelist) cb (length root)
    route = rw url found

    tail : drop (length root) s.ri.url ≡ rest
    tail = rw url (drop-append root rest)

    tail_len : s.ri.urllen - length root ≡ length rest
    tail_len = omega (arith, len, length-append {0} root rest)

    bare :
        ◌≡◌ {A = Bytes × ℕ}
          (drop (length root) s.ri.url, s.ri.urllen - length root)
          (rest, length rest)
    bare i = (tail i, tail_len i)

-- a storage node is found under its root
pub Routed-Finds :
    {R : Redis} (ws : Sri R) (size : Size) (token : Bytes)
    → Routed ws
    → Finds
        (searest_node_find (root_of size ++ token) ws.nodelist)
        (storage size)
        (length (root_of size))
Routed-Finds ws size token routed =
    subst (λ n. Finds (searest_node_find (root_of size ++ token) ws.nodelist) (storage size) n)
      (sym (length-root size)) (routed size token)

pub length-config : length (text "/config/") ≡ 8
unfolding text
length-config = refl

-- and the configuration node under its own
pub instance_of-config :
    (R : Redis) (rt : WsRt) (so : SrvOpts) (option : Bytes)
    → Finds
        (searest_node_find (text "/config/" ++ option) (instance_of {R = R} rt so).nodelist)
        (callback nodecfg)
        (length (text "/config/"))
instance_of-config R rt so option =
    subst
      (λ n.
        Finds (searest_node_find (text "/config/" ++ option) (instance_of {R = R} rt so).nodelist)
          (callback nodecfg) n)
      (sym length-config)
      (rw (instance_of-nodes {R = R} rt so) (
        config_route {R = R} (searest_new 11 139 (to_unsigned 64 so.max_post_data_size)) option
          (unfold searest_new in refl)))
