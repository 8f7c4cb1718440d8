-- ===== src/Node/Post.antt =====
-- What POST does, on every branch.
use webstore.Base.{
  ◌≤◌, ◌≡◌, refl, Bool, true, false, not, ◌&&◌, some, arith, ltb, leb, ◌==◌, if◌then◌else◌, length,
  take, map, Bool-cases, inl, inr, ◌∙◌, sym, subst,
}
use webstore.Base.Int.{truth}
use webstore.Base.Bytes.{Bytes, bytes_eq, text, to_lower}
use webstore.Redis.{Redis, IsRedis}
use webstore.Server.{WsRt, State, log_add_to, done, Returns, ◌>>=◌}
use webstore.Alphabet.{Z85_validate, c_str-validated}
use webstore.Token.{convert_hash-short, hex_prefix}
use webstore.Node.{WsReq, do_redis_post, post, answer_post}
use webstore.Node.Store.{
  do_redis_post-alive, expiry_of, expiry_valid, ValidRt, after_set, kept, set_command-eq,
}

-- The checks of POST before it talks to Redis, each an independent condition.
abbrev pub accepts : WsReq → Bytes → Bool
accepts req data_ =
    req.urllen == req.hashlen
    && leb 5 (length data_)
    && Z85_validate data_ == 0
    && hex_prefix req.urllen req.url

-- the key that a token stands for
abbrev pub key_of : WsReq → Bytes
key_of req = map to_lower (take req.urllen req.url)

abbrev pub bad_request : {R : Redis} → State R → State R
bad_request s = record s { ri = record s.ri { return_code = 400 } }

-- the page of the first check that fails
abbrev pub rejection : WsReq → Bytes → Bytes
rejection req data_ =
    if not (req.urllen == req.hashlen)
    then text "malformed request - invalid url"
    else if ltb (length data_) 5
    then text "malformed request - invalid length"
    else if not (Z85_validate data_ == 0)
    then text "malformed request - invalid Z85"
    else text "malformed request - invalid token"

-- A POST that fails a check, with a token of at most 255 characters, is answered 400 with the
-- message of the first check that fails, and nothing else of the state changes: no command reaches
-- Redis, and nothing is logged.
pub post_rejected :
    {R : Redis} (req : WsReq) (rt : WsRt) (s : State R)
    → req.urllen ≤ 255
    → accepts req s.ri.post_data ≡ false
    → post req rt s ≡ done (rejection req s.ri.post_data, bad_request s)
unfolding post
post_rejected req rt s short refused = elim (Bool-cases (req.urllen == req.hashlen)) [
  | inr url ↦ rw url
  | inl url ↦ rw url (elim (Bool-cases (ltb (length s.ri.post_data) 5)) [
    | inl small ↦ rw small
    | inr size ↦ rw size (elim (Bool-cases (Z85_validate s.ri.post_data == 0)) [
      | inr z85 ↦ rw z85
      | inl z85 ↦
          rw (z85, not, ◌>>=◌, convert_hash-short req.url req.urllen s short, not_hex url size z85)
    ])
  ])
]
  where
    not_hex :
        (req.urllen == req.hashlen) ≡ true
        → ltb (length s.ri.post_data) 5 ≡ false
        → (Z85_validate s.ri.post_data == 0) ≡ true
        → hex_prefix req.urllen req.url ≡ false
    not_hex url size z85 = ground arith

-- A POST that passes the checks is answered by what `do_redis_post` gives under the token's key.
pub post_accepted :
    {R : Redis} (req : WsReq) (rt : WsRt) (s : State R)
    → req.urllen ≤ 255
    → accepts req s.ri.post_data ≡ true
    → post req rt s ≡ (do_redis_post rt (key_of req) s.ri.post_data >>= answer_post req) s
unfolding post
post_accepted req rt s short passed =
    rw (url, size, z85, not, ◌>>=◌, convert_hash-short req.url req.urllen s short, hex)
  where
    url : (req.urllen == req.hashlen) ≡ true
    url = ground arith

    size : ltb (length s.ri.post_data) 5 ≡ false
    size = ground arith

    z85 : (Z85_validate s.ri.post_data == 0) ≡ true
    z85 = ground arith

    hex : hex_prefix req.urllen req.url ≡ true
    hex = ground arith

module _ {R : Redis} (laws : IsRedis R) where
  open laws use {alive, find, set_alive, find-set}

  pub post_alive :
      (req : WsReq) (rt : WsRt) (s : State R)
      → req.urllen ≤ 255
      → accepts req s.ri.post_data ≡ true
      → ValidRt rt
      → alive s.srv.db ≡ true
      → s.srv.locked ≡ false
      → post req rt s
        ≡ answer_post req (if kept laws rt (key_of req) s then 304 else 0) (record s {
          srv = record s.srv { db = after_set laws rt (key_of req) s.ri.post_data s };
        })
  post_alive req rt s short passed v live free =
      post_accepted req rt s short passed
      ∙ rw (
        ◌>>=◌,
        do_redis_post-alive laws rt (key_of req) s.ri.post_data s v live free,
        c_str-validated s.ri.post_data valid,
      )
    where
      valid : Z85_validate s.ri.post_data ≡ 0
      valid = ground arith

  alive-after_set :
      (rt : WsRt) (key data_ : Bytes) (s : State R)
      → alive s.srv.db ≡ true
      → ValidRt rt
      → alive (after_set laws rt key data_ s) ≡ true
  alive-after_set rt key data_ s live (n, e) =
      subst (λ c. alive (R.command c s.srv.db).1 ≡ true) (sym (set_command-eq rt n key data_ e))
        (set_alive s.srv.db key data_ (expiry_of n) (truth rt.immutable) live)

  find-after_set :
      (rt : WsRt) (key data_ : Bytes) (s : State R)
      → ValidRt rt
      → alive s.srv.db ≡ true
      → (k : Bytes)
      → find (after_set laws rt key data_ s) k ≡ (
          if kept laws rt key s
          then find s.srv.db k
          else if bytes_eq key k
          then some data_
          else find s.srv.db k)
  find-after_set rt key data_ s (n, e) live k =
      subst
        (λ c. find (R.command c s.srv.db).1 k ≡ (
          if kept laws rt key s
          then find s.srv.db k
          else if bytes_eq key k
          then some data_
          else find s.srv.db k))
        (sym (set_command-eq rt n key data_ e))
        (find-set s.srv.db key data_ (expiry_of n) (truth rt.immutable) k live (expiry_valid n))

  -- What a POST leaves, by whether the key was kept: the page, the code, the lock, every
  -- key, and whether a shutdown was asked for.
  abbrev pub Posted : Bool → WsReq → State R → Bytes × State R → Type 0
  Posted b req s r =
      (r.0 ≡ (if b then text "object immutable - not modified" else text "ok"))
      × (r.1.ri.return_code ≡ (if b then 304 else 200))
      × (r.1.srv.locked ≡ false)
      × (alive r.1.srv.db ≡ true)
      × ((k : Bytes)
          → find r.1.srv.db k ≡ (
              if b
              then find s.srv.db k
              else if bytes_eq (key_of req) k
              then some s.ri.post_data
              else find s.srv.db k))
      × (r.1.srv.shutdown ≡ s.srv.shutdown)

  answer_post-Posted :
      (b : Bool) (req : WsReq) (s : State R) (d : R.Db)
      → s.srv.locked ≡ false
      → alive d ≡ true
      → ((k : Bytes)
          → find d k ≡ (
              if b
              then find s.srv.db k
              else if bytes_eq (key_of req) k
              then some s.ri.post_data
              else find s.srv.db k))
      → Returns
          (answer_post req (if b then 304 else 0) (record s { srv = record s.srv { db = d } }))
          (Posted b req s)
  unfolding answer_post log_add_to
  answer_post-Posted true req s d free live keys = (refl, refl, free, live, keys, refl)
  answer_post-Posted false req s d free live keys = (refl, refl, free, live, keys, refl)

  -- A POST that passes the checks is answered 200, the data is stored under the token's key, and no
  -- other key changes; but with IMMUTABLE set and the key taken it is 304, and no key changes.
  -- Redis stays alive, the lock is free again, and the shutdown flag is as before. The token has at
  -- most 255 characters, Redis works and its lock is free, and EXPIRATION is no negative number.
  pub post_stores :
      (req : WsReq) (rt : WsRt) (s : State R)
      → req.urllen ≤ 255
      → accepts req s.ri.post_data ≡ true
      → ValidRt rt
      → alive s.srv.db ≡ true
      → s.srv.locked ≡ false
      → Returns (post req rt s) (Posted (kept laws rt (key_of req) s) req s)
  post_stores req rt s short passed v live free =
      rw (post_alive req rt s short passed v live free) (
        answer_post-Posted (kept laws rt (key_of req) s) req s _ free
          (alive-after_set rt (key_of req) s.ri.post_data s live v)
          (find-after_set rt (key_of req) s.ri.post_data s v live))
