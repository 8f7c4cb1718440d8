-- ===== src/Node/Refine.antt =====
-- The storage nodes of src/webstore_node.c against the store that they promise.
use webstore.Base.{
  ℕ, ◌≤◌, ◌≡◌, refl, ap, subst, sym, ◌∙◌, Bool, true, false, ◌&&◌, Option, none, some, List, [],
  ◌∷◌, ◌==◌, if◌then◌else◌, Bool-cases, Option-cases, inl, inr, arith,
}
use webstore.Base.Int.{truth}
use webstore.Base.Bytes.{Bytes, bytes_eq, c_str, text}
use webstore.Redis.{Redis, IsRedis, is_some}
use webstore.Server.{WsRt, State, Returns, Returns-bind, Returns-weaken, log_add_to}
use webstore.Alphabet.{Z85_validate, c_str-validated}
use webstore.Node.{node, get, post, method_get, method_post, method_not_allowed}
use webstore.Node.Store.{ValidRt, kept}
use webstore.Node.Post.{accepts, rejection, key_of, Posted, post_stores, post_rejected}
use webstore.Node.Get.{asks, Gotten, get_returns, get_rejected}
use webstore.Node.Session.{next, got_value, got_nothing}
use webstore.Node.Promise.{
  Table, Ask, Response, erase, promise_read, promise_write, promise, promise_all, serve, serve_all,
}

-- tokens of at most 255 characters
abbrev pub AllShort : List Ask → Type 0
AllShort [] = Unit
AllShort (a ∷ more) = (a.req.urllen ≤ 255) × AllShort more

module _ {R : Redis} (laws : IsRedis R) where
  open laws use {alive, find}

  -- The server holds the table: Redis works, its lock is free, no shutdown is under way, the live
  -- keys are those of the table, and their texts have no NUL.
  pub record Represents (t : Table) (s : State R) : Type 0 where
    pub live : alive s.srv.db ≡ true
    pub free : s.srv.locked ≡ false
    pub up : s.srv.shutdown ≡ false
    pub keys : (k : Bytes) → find s.srv.db k ≡ t k
    pub plain : (k v : Bytes) → t k ≡ some v → c_str v ≡ v

  -- what a call must leave, by what the store promises
  abbrev Agrees : Response × Table → Bytes × State R → Type 0
  Agrees p r = ((r.0, r.1.ri.return_code) ≡ p.0) × Represents p.1 r.1

  module _ (rt : WsRt) (valid : ValidRt rt) where
    not_erased :
        (b : Bool) (o : Option Bytes) (v : Bytes) → (if b then none else o) ≡ some v → o ≡ some v
    not_erased true o v e = absurd (cc)
    not_erased false o v e = e

    Gotten-Represents :
        (a : Ask) (t : Table) (s : State R) (r : Bytes × State R)
        → Represents t s
        → Gotten laws (truth rt.bar) a.req (next a.ri s) r
        → Represents (erase (truth rt.bar) (key_of a.req) t) r.1
    Gotten-Represents a t s r rep h = record {
      live = h.3;
      free = h.2;
      up = h.5 ∙ rep.up;
      keys = λ k.
          h.4 k
          ∙ ap (λ (o : Option Bytes). if truth rt.bar && bytes_eq (key_of a.req) k then none else o)
              (rep.keys k);
      plain =
          λ k v e. rep.plain k v (not_erased (truth rt.bar && bytes_eq (key_of a.req) k) (t k) v e);
    }

    pair : {A B : Type 0} {a a' : A} {b b' : B} → a ≡ a' → b ≡ b' → ◌≡◌ {A = A × B} (a, b) (a', b')
    pair e f = rw (e, f)

    get-Agrees :
        (a : Ask) (t : Table) (s : State R)
        → a.req.urllen ≤ 255
        → asks a.req ≡ true
        → Represents t s
        → Returns
            (get a.req rt (next a.ri s))
            (Agrees (promise_read (truth rt.bar) (key_of a.req) t))
    unfolding promise_read
    get-Agrees a t s short passed rep =
        Returns-weaken (get a.req rt (next a.ri s))
          (get_returns laws a.req rt (next a.ri s) short passed rep.live rep.free)
          λ r h. elim (Option-cases (t (key_of a.req))) [
            | inl e ↦
                let g =
                  got_nothing laws (truth rt.bar) a.req (next a.ri s) r h
                    (rep.keys (key_of a.req) ∙ e) in
                rw (promise_read, e) (pair g.0 g.1, Gotten-Represents a t s r rep h)
            | inr (v, e) ↦
                let g =
                  got_value laws (truth rt.bar) a.req (next a.ri s) r v h
                    (rep.keys (key_of a.req) ∙ e) in
                rw (promise_read, e)
                  (pair (g.0 ∙ rep.plain (key_of a.req) v e) g.1, Gotten-Represents a t s r rep h)
          ]

    Posted-Agrees :
        (b : Bool) (a : Ask) (t : Table) (s : State R) (r : Bytes × State R)
        → Represents t s
        → accepts a.req a.ri.post_data ≡ true
        → (truth rt.immutable && is_some (t (key_of a.req))) ≡ b
        → Posted laws b a.req (next a.ri s) r
        → Agrees (promise_write (truth rt.immutable) (key_of a.req) a.ri.post_data t) r
    unfolding promise_write
    Posted-Agrees true a t s r rep passed e h =
        rw (promise_write, e)
          (
            pair h.0 h.1,
            record {
              live = h.3;
              free = h.2;
              up = h.5 ∙ rep.up;
              keys = λ k. h.4 k ∙ rep.keys k;
              plain = rep.plain;
            },
          )
    Posted-Agrees false a t s r rep passed e h =
        rw (promise_write, e)
          (
            pair h.0 h.1,
            record {
              live = h.3;
              free = h.2;
              up = h.5 ∙ rep.up;
              keys = λ k.
                  h.4 k
                  ∙ ap
                      (λ (o : Option Bytes).
                        if bytes_eq (key_of a.req) k then some a.ri.post_data else o)
                      (rep.keys k);
              plain = λ k. stays (bytes_eq (key_of a.req) k) k;
            },
          )
      where
        valid_data : Z85_validate a.ri.post_data ≡ 0
        valid_data = ground arith

        stays :
            (c : Bool) (k v : Bytes)
            → (if c then some a.ri.post_data else t k) ≡ some v
            → c_str v ≡ v
        stays true k v f =
            subst (λ (o : Option Bytes). elim o [ none ↦ Unit | some w ↦ c_str w ≡ w ]) f
              (c_str-validated a.ri.post_data valid_data)
        stays false k v f = rep.plain k v f

    post-Agrees :
        (a : Ask) (t : Table) (s : State R)
        → a.req.urllen ≤ 255
        → accepts a.req a.ri.post_data ≡ true
        → Represents t s
        → Returns
            (post a.req rt (next a.ri s))
            (Agrees (promise_write (truth rt.immutable) (key_of a.req) a.ri.post_data t))
    post-Agrees a t s short passed rep =
        Returns-weaken (post a.req rt (next a.ri s))
          (post_stores laws a.req rt (next a.ri s) short passed valid rep.live rep.free)
          λ r h.
            Posted-Agrees (kept laws rt (key_of a.req) (next a.ri s)) a t s r rep passed
              (ap (λ (o : Option Bytes). truth rt.immutable && is_some o)
                (sym (rep.keys (key_of a.req))))
              h

    rejected-Agrees :
        (a : Ask) (t : Table) (s : State R) (page : Bytes) (code : ℕ)
        → Represents t s
        → Agrees
            ((page, code), t)
            (page, record (next a.ri s) { ri = record a.ri { return_code = code } })
    rejected-Agrees a t s page code rep = (
      refl,
      record { live = rep.live; free = rep.free; up = rep.up; keys = rep.keys; plain = rep.plain },
    )

    node-Agrees :
        (a : Ask) (t : Table) (s : State R)
        → a.req.urllen ≤ 255
        → Represents t s
        → Returns
            (node a.req.type a.req.hashlen a.req.url a.req.urllen rt (next a.ri s))
            (Agrees (promise (truth rt.immutable) (truth rt.bar) a t))
    unfolding node promise method_not_allowed log_add_to
    node-Agrees a t s short rep = simp rep.up (elim (Bool-cases (a.ri.method_type == method_get)) [
      | inl is_get ↦ rw is_get (elim (Bool-cases (asks a.req)) [
        | inl passed ↦ rw passed (get-Agrees a t s short passed rep)
        | inr refused ↦
            rw (refused, get_rejected a.req rt (next a.ri s) short refused)
              (rejected-Agrees a t s (text "malformed request") 400 rep)
      ])
      | inr other ↦ rw other (elim (Bool-cases (a.ri.method_type == method_post)) [
        | inl is_post ↦ rw is_post (elim (Bool-cases (accepts a.req a.ri.post_data)) [
          | inl passed ↦ rw passed (post-Agrees a t s short passed rep)
          | inr refused ↦
              rw (refused, post_rejected a.req rt (next a.ri s) short refused)
                (rejected-Agrees a t s (rejection a.req a.ri.post_data) 400 rep)
        ])
        | inr neither ↦ rw neither (
          refl,
          record {
            live = rep.live;
            free = rep.free;
            up = refl;
            keys = rep.keys;
            plain = rep.plain;
          },
        )
      ])
    ])

    serve-Agrees :
        (a : Ask) (t : Table) (s : State R)
        → a.req.urllen ≤ 255
        → Represents t s
        → Returns (serve rt a s) λ r.
          (r.0 ≡ (promise (truth rt.immutable) (truth rt.bar) a t).0)
          × Represents (promise (truth rt.immutable) (truth rt.bar) a t).1 r.1
    unfolding serve
    serve-Agrees a t s short rep =
        Returns-bind (node a.req.type a.req.hashlen a.req.url a.req.urllen rt) _ (next a.ri s) _
          (node-Agrees a t s short rep)

    -- The storage nodes implement the store: whatever requests arrive one after another on a server
    -- that holds a table, each is answered with the page and the code that the store promises, and
    -- the server holds the store's table afterwards. Tokens have at most 255 characters, Redis
    -- works, its lock is free, no shutdown is under way, and EXPIRATION is no negative number.
    pub serve_refines :
        (requests : List Ask) (t : Table) (s : State R)
        → AllShort requests
        → Represents t s
        → Returns (serve_all rt requests s) λ r.
          (r.0 ≡ (promise_all (truth rt.immutable) (truth rt.bar) requests t).0)
          × Represents (promise_all (truth rt.immutable) (truth rt.bar) requests t).1 r.1
    unfolding serve_all promise_all
    serve_refines [] t s short rep = (refl, rep)
    serve_refines (a ∷ more) t s short rep = Returns-bind (serve rt a) _ s _ (
        Returns-weaken (serve rt a s) (serve-Agrees a t s short.0 rep) λ r h.
          Returns-bind (serve_all rt more) _ r.1 _ (
            Returns-weaken (serve_all rt more r.1)
              (serve_refines more (promise (truth rt.immutable) (truth rt.bar) a t).1 r.1 short.1
                h.1)
              λ q k. (rw (h.0, k.0), k.1)))
