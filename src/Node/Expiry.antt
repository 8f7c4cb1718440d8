-- ===== src/Node/Expiry.antt =====
-- How long a message is kept (EXPIRATION, src/webstore_node.c, do_redis_post).
use webstore.Base.{
  ℕ, zero, suc, ◌≤◌, ◌≡◌, refl, ap, sym, subst, ◌∙◌, Bool, true, false, ◌||◌, none, some, ltb, leb,
  ◌==◌, if◌then◌else◌, arith,
}
use webstore.Base.Int.{pos, truth}
use webstore.Base.Bytes.{Bytes, bytes_eq_refl, c_str, text}
use webstore.Redis.{Redis, IsRedis}
use webstore.Redis.Clock.{IsTimed, wait, wait_alive, wait-for_ever, wait-expires, seconds_of}
use webstore.Server.{WsRt, Srci, State, Returns, Returns-weaken, Returns-both, log_add_to}
use webstore.Alphabet.{Z85_validate, c_str-validated}
use webstore.Node.{WsReq, get, post, answer_post}
use webstore.Node.Post.{accepts, key_of, Posted, post_stores, post_alive}
use webstore.Node.Store.{kept, after_set, expiry_of, expiry_valid, set_command-eq}
use webstore.Node.Get.{asks, get_returns}
use webstore.Node.Session.{got_value, got_nothing, stored}

answer_post-db :
    {R : Redis} (req : WsReq) (t : State R)
    → Returns (answer_post req 0 t) (λ r. r.1.srv.db ≡ t.srv.db)
unfolding answer_post log_add_to
answer_post-db req t = refl

expiring : (e : ℕ) → expiry_of (suc e) ≡ some (pos (suc e))
expiring e = ground arith

-- whether a message is still there after `n` seconds
abbrev pub lives : ℕ → ℕ → Bool
lives expiration n = expiration == 0 || ltb n expiration

lives-suc : (e n : ℕ) → lives (suc e) n ≡ leb n e
lives-suc e n = ground arith

module _ {R : Redis} (laws : IsRedis R) (timed : IsTimed laws) where
  open laws use {alive, find}
  open timed use {left, left-set}

  -- the server some seconds later, with the next request
  abbrev pub seconds_later : ℕ → Srci → State R → State R
  seconds_later n ri s = record { ri = ri; srv = record s.srv { db = wait laws timed n s.srv.db } }

  left-after_set :
      (rt : WsRt) (e : ℕ) (key v : Bytes) (s : State R)
      → rt.expiration ≡ pos e
      → alive s.srv.db ≡ true
      → kept laws rt key s ≡ false
      → left (after_set laws rt key v s) key ≡ seconds_of (expiry_of e)
  left-after_set rt e key v s exp live new =
      subst (λ c. left (R.command c s.srv.db).1 key ≡ seconds_of (expiry_of e))
        (sym (set_command-eq rt e key v exp))
        (left-set s.srv.db key v (expiry_of e) (truth rt.immutable) key live (expiry_valid e)
          ∙ rw (new, bytes_eq_refl key))

  post-left :
      (p : WsReq) (rt : WsRt) (s : State R) (e : ℕ)
      → p.urllen ≤ 255
      → accepts p s.ri.post_data ≡ true
      → rt.expiration ≡ pos e
      → alive s.srv.db ≡ true
      → s.srv.locked ≡ false
      → kept laws rt (key_of p) s ≡ false
      → Returns (post p rt s) (λ r. left r.1.srv.db (key_of p) ≡ seconds_of (expiry_of e))
  post-left p rt s e short passed exp live free new =
      rw (post_alive laws p rt s short passed (e, exp) live free, new)
        (Returns-weaken
          (answer_post p 0 (record s {
            srv = record s.srv { db = after_set laws rt (key_of p) s.ri.post_data s };
          }))
          (answer_post-db p (record s {
            srv = record s.srv { db = after_set laws rt (key_of p) s.ri.post_data s };
          }))
          (λ r same.
            ap (λ d. left d (key_of p)) same
            ∙ left-after_set rt e (key_of p) s.ri.post_data s exp live new))

  wait-lives :
      (n e : ℕ) (d : R.Db) (k v : Bytes)
      → left d k ≡ seconds_of (expiry_of e)
      → find d k ≡ some v
      → find (wait laws timed n d) k ≡ (if lives e n then some v else none)
  wait-lives n zero d k v ttl there = wait-for_ever laws timed n d k ttl ∙ there
  wait-lives n (suc e) d k v ttl there =
      wait-expires laws timed n e d k (ttl ∙ ap seconds_of (expiring e)) ∙ rw (there, lives-suc e n)

  -- What the GET says of a message that was stored, by whether it is still there.
  abbrev pub Says : Bool → Bytes → Bytes × State R → Type 0
  Says b v q =
      (q.0 ≡ (if b then v else text "not found")) × (q.1.ri.return_code ≡ (if b then 200 else 404))

  get-Says :
      (b : Bool) (g : WsReq) (rt : WsRt) (t : State R) (v : Bytes)
      → g.urllen ≤ 255
      → asks g ≡ true
      → alive t.srv.db ≡ true
      → t.srv.locked ≡ false
      → c_str v ≡ v
      → find t.srv.db (key_of g) ≡ (if b then some v else none)
      → Returns (get g rt t) (Says b v)
  get-Says true g rt t v short asked live free plain there =
      Returns-weaken (get g rt t) (get_returns laws g rt t short asked live free) (λ q h.
        let said = got_value laws (truth rt.bar) g t q v h there in (said.0 ∙ plain, said.1))
  get-Says false g rt t v short asked live free plain gone =
      Returns-weaken (get g rt t) (get_returns laws g rt t short asked live free)
        (λ q h. got_nothing laws (truth rt.bar) g t q h gone)

  -- A message that passes the checks of POST is returned by a GET of its token, byte for byte and
  -- with 200, as long as fewer than EXPIRATION seconds have passed with no command in between, and
  -- for ever if EXPIRATION is 0; after that the GET is answered 404. Tokens have at most 255
  -- characters, Redis works, with time and expiry as documented, and its lock is free, and it is not
  -- the case that IMMUTABLE is set and the key was taken before.
  pub post_expires :
      (p g : WsReq) (rt : WsRt) (s : State R) (ri : Srci) (expiration n : ℕ)
      → p.urllen ≤ 255
      → accepts p s.ri.post_data ≡ true
      → rt.expiration ≡ pos expiration
      → alive s.srv.db ≡ true
      → s.srv.locked ≡ false
      → kept laws rt (key_of p) s ≡ false
      → g.urllen ≤ 255
      → asks g ≡ true
      → key_of g ≡ key_of p
      → Returns (post p rt s) λ r.
        Returns (get g rt (seconds_later n ri r.1)) (Says (lives expiration n) s.ri.post_data)
  post_expires p g rt s ri e n short passed exp live free new short' asked same =
      Returns-weaken (post p rt s)
        (Returns-both (post p rt s) (Posted laws false p s)
          (λ r. left r.1.srv.db (key_of p) ≡ seconds_of (expiry_of e))
          (subst (λ b. Returns (post p rt s) (Posted laws b p s)) new
            (post_stores laws p rt s short passed (e, exp) live free))
          (post-left p rt s e short passed exp live free new))
        (λ r h.
          get-Says (lives e n) g rt (seconds_later n ri r.1) s.ri.post_data short' asked
            (wait_alive laws timed n r.1.srv.db ∙ h.0.3) h.0.2
            (c_str-validated s.ri.post_data valid)
            (ap (find (wait laws timed n r.1.srv.db)) same
              ∙ wait-lives n e r.1.srv.db (key_of p) s.ri.post_data h.1 (stored laws p s r h.0)))
    where
      valid : Z85_validate s.ri.post_data ≡ 0
      valid = ground arith
