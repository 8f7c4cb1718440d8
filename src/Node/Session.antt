-- ===== src/Node/Session.antt =====
-- Several requests in a row on one server: what a client stores and gets back.
use webstore.Base.{
  ◌≤◌, ◌≡◌, Bool, true, false, ◌&&◌, Option, none, some, if◌then◌else◌, ◌∙◌, ap, subst, arith,
}
use webstore.Base.Int.{truth}
use webstore.Base.Bytes.{Bytes, bytes_eq_refl, c_str, text}
use webstore.Redis.{Redis, IsRedis, is_some}
use webstore.Server.{WsRt, Srci, State, Returns, Returns-weaken}
use webstore.Alphabet.{Z85_validate, c_str-validated}
use webstore.Node.{WsReq, get, post}
use webstore.Node.Post.{accepts, key_of, Posted, post_stores}
use webstore.Node.Store.{ValidRt, kept}
use webstore.Node.Get.{asks, Gotten, get_returns}

-- the next request on the server that the last one left
abbrev pub next : {R : Redis} → Srci → State R → State R
next ri s = record { ri = ri; srv = s.srv }

data_valid : (req : WsReq) (data_ : Bytes) → accepts req data_ ≡ true → Z85_validate data_ ≡ 0
data_valid req data_ h = ground arith

module _ {R : Redis} (laws : IsRedis R) where
  open laws use {alive, find}

  -- what a GET says of a key that holds `v`, and of one that holds nothing
  pub got_value :
      (bar : Bool) (req : WsReq) (s : State R) (q : Bytes × State R) (v : Bytes)
      → Gotten laws bar req s q
      → find s.srv.db (key_of req) ≡ some v
      → (q.0 ≡ c_str v) × (q.1.ri.return_code ≡ 200)
  got_value bar req s q v g e = (
    g.0 ∙ ap (λ (o : Option Bytes). elim o [ none ↦ text "not found" | some w ↦ c_str w ]) e,
    g.1 ∙ ap (λ (o : Option Bytes). if is_some o then 200 else 404) e,
  )

  pub got_nothing :
      (bar : Bool) (req : WsReq) (s : State R) (q : Bytes × State R)
      → Gotten laws bar req s q
      → find s.srv.db (key_of req) ≡ none
      → (q.0 ≡ text "not found") × (q.1.ri.return_code ≡ 404)
  got_nothing bar req s q g e = (
    g.0 ∙ ap (λ (o : Option Bytes). elim o [ none ↦ text "not found" | some w ↦ c_str w ]) e,
    g.1 ∙ ap (λ (o : Option Bytes). if is_some o then 200 else 404) e,
  )

  pub stored :
      (req : WsReq) (s : State R) (r : Bytes × State R)
      → Posted laws false req s r
      → find r.1.srv.db (key_of req) ≡ some s.ri.post_data
  stored req s r h =
      h.4 (key_of req)
      ∙ ap (λ (b : Bool). if b then some s.ri.post_data else find s.srv.db (key_of req))
          (bytes_eq_refl (key_of req))

  -- A message that passes the checks of POST is what the next GET of its token returns, byte for
  -- byte, with 200, in whatever case the token is written. Tokens have at most 255 characters,
  -- Redis works and its lock is free, EXPIRATION is no negative number, and it is not the case that
  -- IMMUTABLE is set and the key was taken before.
  pub post_then_get :
      (p g : WsReq) (rt : WsRt) (s : State R) (ri : Srci)
      → p.urllen ≤ 255
      → accepts p s.ri.post_data ≡ true
      → ValidRt rt
      → alive s.srv.db ≡ true
      → s.srv.locked ≡ false
      → kept laws rt (key_of p) s ≡ false
      → g.urllen ≤ 255
      → asks g ≡ true
      → key_of g ≡ key_of p
      → Returns (post p rt s) λ r.
        Returns (get g rt (next ri r.1)) λ q. (q.0 ≡ s.ri.post_data) × (q.1.ri.return_code ≡ 200)
  post_then_get p g rt s ri short passed v live free fresh short' asked same =
      Returns-weaken (post p rt s)
        (subst (λ b. Returns (post p rt s) (Posted laws b p s)) fresh
          (post_stores laws p rt s short passed v live free))
        (λ r h.
          Returns-weaken (get g rt (next ri r.1))
            (get_returns laws g rt (next ri r.1) short' asked h.3 h.2)
            (λ q w.
              let (page, code) =
                got_value (truth rt.bar) g (next ri r.1) q s.ri.post_data w
                  (ap (find r.1.srv.db) same ∙ stored p s r h) in
              (page ∙ c_str-validated s.ri.post_data (data_valid p s.ri.post_data passed), code)))

  -- With BAR set, a stored message is returned with 200 by one GET only: the next GET of the same
  -- token, from any client, is answered 404. The token passes the checks of GET and has at most 255
  -- characters; Redis works and its lock is free.
  pub burn_after_reading :
      (g : WsReq) (rt : WsRt) (s : State R) (ri : Srci) (v : Bytes)
      → g.urllen ≤ 255
      → asks g ≡ true
      → alive s.srv.db ≡ true
      → s.srv.locked ≡ false
      → truth rt.bar ≡ true
      → find s.srv.db (key_of g) ≡ some v
      → Returns (get g rt s) λ r.
        (r.0 ≡ c_str v)
        × (r.1.ri.return_code ≡ 200)
        × Returns
            (get g rt (next ri r.1))
            λ q. (q.0 ≡ text "not found") × (q.1.ri.return_code ≡ 404)
  burn_after_reading g rt s ri v short asked live free burn e =
      Returns-weaken (get g rt s) (burning s live free) (λ r h.
        let first = got_value true g s r v h e in
        (
          first.0,
          first.1,
          Returns-weaken (get g rt (next ri r.1)) (burning (next ri r.1) h.3 h.2)
              (λ q w. got_nothing true g (next ri r.1) q w (gone r h)),
        ))
    where
      burning :
          (t : State R)
          → alive t.srv.db ≡ true
          → t.srv.locked ≡ false
          → Returns (get g rt t) (Gotten laws true g t)
      burning t live' free' =
          subst (λ b. Returns (get g rt t) (Gotten laws b g t)) burn
            (get_returns laws g rt t short asked live' free')

      gone : (r : Bytes × State R) → Gotten laws true g s r → find r.1.srv.db (key_of g) ≡ none
      gone r h =
          h.4 (key_of g)
          ∙ ap (λ (b : Bool). if true && b then none else find s.srv.db (key_of g))
              (bytes_eq_refl (key_of g))

  -- With IMMUTABLE set, a POST that passes the checks under a taken token is answered 304, and a
  -- GET still returns the message that was there before, up to its first NUL, with 200. Tokens have
  -- at most 255 characters, Redis works and its lock is free, and EXPIRATION is no negative number.
  pub immutable_keeps :
      (p g : WsReq) (rt : WsRt) (s : State R) (ri : Srci) (v : Bytes)
      → p.urllen ≤ 255
      → accepts p s.ri.post_data ≡ true
      → ValidRt rt
      → alive s.srv.db ≡ true
      → s.srv.locked ≡ false
      → truth rt.immutable ≡ true
      → find s.srv.db (key_of p) ≡ some v
      → g.urllen ≤ 255
      → asks g ≡ true
      → key_of g ≡ key_of p
      → Returns (post p rt s) λ r.
        (r.1.ri.return_code ≡ 304)
        × Returns (get g rt (next ri r.1)) λ q. (q.0 ≡ c_str v) × (q.1.ri.return_code ≡ 200)
  immutable_keeps p g rt s ri v short passed valid live free imm e short' asked same =
      Returns-weaken (post p rt s)
        (subst (λ b. Returns (post p rt s) (Posted laws b p s)) taken
          (post_stores laws p rt s short passed valid live free))
        (λ r h. (
          h.1,
          Returns-weaken (get g rt (next ri r.1))
              (get_returns laws g rt (next ri r.1) short' asked h.3 h.2)
              (λ q w.
                got_value (truth rt.bar) g (next ri r.1) q v w
                  (ap (find r.1.srv.db) same ∙ h.4 (key_of p) ∙ e)),
        ))
    where
      taken : kept laws rt (key_of p) s ≡ true
      taken = ap (λ (b : Bool). b && is_some (find s.srv.db (key_of p))) imm ∙ ap is_some e
