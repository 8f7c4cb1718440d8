-- ===== src/Node/Get.antt =====
-- What GET does, on every branch.
use webstore.Base.{
  ◌≤◌, ◌≡◌, refl, Bool, true, false, not, ◌&&◌, none, some, arith, ◌==◌, if◌then◌else◌, Bool-cases,
  inl, inr, Option-cases,
}
use webstore.Base.Int.{truth}
use webstore.Base.Bytes.{Bytes, bytes_eq, bytes_eq→eq, c_str, text}
use webstore.Redis.{Redis, IsRedis, is_some}
use webstore.Server.{WsRt, State, log_add_to, done, Returns, ◌>>=◌}
use webstore.Token.{hex_prefix, convert_hash-short}
use webstore.Node.{WsReq, get, get_with}
use webstore.Node.Post.{key_of, bad_request}

-- the checks of GET before it talks to Redis
abbrev pub asks : WsReq → Bool
asks req = req.urllen == req.hashlen && hex_prefix req.urllen req.url

-- A GET that fails a check, with a token of at most 255 characters, is answered 400 with "malformed
-- request", and nothing else of the state changes.
pub get_rejected :
    {R : Redis} (req : WsReq) (rt : WsRt) (s : State R)
    → req.urllen ≤ 255
    → asks req ≡ false
    → get req rt s ≡ done (text "malformed request", bad_request s)
unfolding get
get_rejected req rt s short refused = elim (Bool-cases (req.urllen == req.hashlen)) [
  | inr url ↦ rw url
  | inl url ↦ rw (url, not, ◌>>=◌, convert_hash-short req.url req.urllen s short, not_hex url)
]
  where
    not_hex : (req.urllen == req.hashlen) ≡ true → hex_prefix req.urllen req.url ≡ false
    not_hex url = ground arith

pub get_accepted :
    {R : Redis} (req : WsReq) (rt : WsRt) (s : State R)
    → req.urllen ≤ 255
    → asks req ≡ true
    → get req rt s ≡ get_with req rt (some (key_of req)) s
unfolding get
get_accepted req rt s short passed =
    rw (url, not, ◌>>=◌, convert_hash-short req.url req.urllen s short, hex)
  where
    url : (req.urllen == req.hashlen) ≡ true
    url = ground arith

    hex : hex_prefix req.urllen req.url ≡ true
    hex = ground arith

module _ {R : Redis} (laws : IsRedis R) where
  open laws use {alive, find, get_lem, del_alive, find-del}

  -- What a GET leaves: the stored text and 200, or 404; with BAR, the key of a stored text is gone.
  abbrev pub Gotten : Bool → WsReq → State R → Bytes × State R → Type 0
  Gotten bar req s r =
      (r.0 ≡ elim (find s.srv.db (key_of req)) [ none ↦ text "not found" | some v ↦ c_str v ])
      × (r.1.ri.return_code ≡ (if is_some (find s.srv.db (key_of req)) then 200 else 404))
      × (r.1.srv.locked ≡ false)
      × (alive r.1.srv.db ≡ true)
      × ((k : Bytes)
          → find r.1.srv.db k ≡ (if bar && bytes_eq (key_of req) k then none else find s.srv.db k))
      × (r.1.srv.shutdown ≡ s.srv.shutdown)

  -- removing a key that is not there
  absent :
      (d : R.Db) (key k : Bytes) (b : Bool)
      → find d key ≡ none
      → find d k ≡ (if b && bytes_eq key k then none else find d k)
  absent d key k false e = refl
  absent d key k true e = elim (Bool-cases (bytes_eq key k)) [
    | inl q ↦ rw q (cc (bytes_eq→eq key k q, e))
    | inr q ↦ rw q
  ]

  module _ (req : WsReq) (rt : WsRt) (s : State R) (live : alive s.srv.db ≡ true)
      (free : s.srv.locked ≡ false) where
    get_with-absent :
        find s.srv.db (key_of req) ≡ none
        → Returns (get_with req rt (some (key_of req)) s) (Gotten (truth rt.bar) req s)
    unfolding get_with log_add_to
    get_with-absent e = elim (Bool-cases rt.multithreaded) [
      | inl many ↦
          rw (many, free, get_lem s.srv.db (key_of req) live, e)
            (rw e, rw e, refl, live, λ k. absent s.srv.db (key_of req) k (truth rt.bar) e, refl)
      | inr one ↦
          rw (one, get_lem s.srv.db (key_of req) live, e)
            (rw e, rw e, free, live, λ k. absent s.srv.db (key_of req) k (truth rt.bar) e, refl)
    ]

    get_with-keep :
        (v : Bytes)
        → find s.srv.db (key_of req) ≡ some v
        → truth rt.bar ≡ false
        → Returns (get_with req rt (some (key_of req)) s) (Gotten false req s)
    unfolding get_with log_add_to
    get_with-keep v e keep = elim (Bool-cases rt.multithreaded) [
      | inl many ↦
          rw (many, free, get_lem s.srv.db (key_of req) live, e, keep)
            (rw e, rw e, refl, live, λ k. refl, refl)
      | inr one ↦
          rw (one, get_lem s.srv.db (key_of req) live, e, keep)
            (rw e, rw e, free, live, λ k. refl, refl)
    ]

    get_with-burn :
        (v : Bytes)
        → find s.srv.db (key_of req) ≡ some v
        → truth rt.bar ≡ true
        → Returns (get_with req rt (some (key_of req)) s) (Gotten true req s)
    unfolding get_with log_add_to
    get_with-burn v e burn = elim (Bool-cases rt.multithreaded) [
      | inl many ↦
          rw (many, free, get_lem s.srv.db (key_of req) live, e, burn)
            (
              rw e,
              rw e,
              refl,
              del_alive s.srv.db (key_of req) live,
              λ k. find-del s.srv.db (key_of req) k live,
              refl,
            )
      | inr one ↦
          rw (one, get_lem s.srv.db (key_of req) live, e, burn)
            (
              rw e,
              rw e,
              free,
              del_alive s.srv.db (key_of req) live,
              λ k. find-del s.srv.db (key_of req) k live,
              refl,
            )
    ]

  -- A GET of a well-formed token of at most 255 characters, on a Redis that works and with the lock
  -- free, returns what is stored under its key, up to the first NUL, with 200, or 404 if nothing
  -- is. Without BAR no key changes; with BAR exactly the key that was asked for is gone afterwards.
  -- Redis stays alive, the lock is free again, and the shutdown flag is as before.
  pub get_returns :
      (req : WsReq) (rt : WsRt) (s : State R)
      → req.urllen ≤ 255
      → asks req ≡ true
      → alive s.srv.db ≡ true
      → s.srv.locked ≡ false
      → Returns (get req rt s) (Gotten (truth rt.bar) req s)
  get_returns req rt s short passed live free =
      rw (get_accepted req rt s short passed) (elim (Option-cases (find s.srv.db (key_of req))) [
        | inl e ↦ get_with-absent req rt s live free e
        | inr (v, e) ↦ elim (Bool-cases (truth rt.bar)) [
          | inl burn ↦ rw burn (get_with-burn req rt s live free v e burn)
          | inr keep ↦ rw keep (get_with-keep req rt s live free v e keep)
        ]
      ])
