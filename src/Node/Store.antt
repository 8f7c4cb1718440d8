-- ===== src/Node/Store.antt =====
-- The one command of a POST (src/webstore_node.c, do_redis_post): its reply, and what it leaves.
use webstore.Base.{
  ℕ, zero, suc, ◌≡◌, refl, Bool, true, false, ◌&&◌, Option, none, some, arith, ltb, if◌then◌else◌,
  Bool-cases, inl, inr, ◌∙◌,
}
use webstore.Base.Int.{ℤ, pos, truth}
use webstore.Base.Bytes.{Bytes, c_str, starts_with, text}
use webstore.Redis.{
  Redis, IsRedis, ValidExpiry, is_some, set, Reply, nil, status, reply, lost, ErrorKind,
}
use webstore.Server.{WsRt, State, log_add_to, done, Returns}
use webstore.Node.{do_redis_post, set_command, post_err}

-- the expiry of a server: none, or a positive number of seconds
abbrev pub ValidRt : WsRt → Type 0
ValidRt rt = (n : ℕ) × (rt.expiration ≡ pos n)

abbrev pub expiry_of : ℕ → Option ℤ
expiry_of n = if ltb 0 n then some (pos n) else none

pub set_command-eq :
    (rt : WsRt) (n : ℕ) (k v : Bytes)
    → rt.expiration ≡ pos n
    → set_command rt k v ≡ set k v (expiry_of n) (truth rt.immutable)
unfolding set_command
set_command-eq rt n k v e = rw e (ground arith)

ltb-suc : (n : ℕ) → ltb 0 (suc n) ≡ true
ltb-suc n = ground arith

pub expiry_valid : (n : ℕ) → ValidExpiry (expiry_of n)
expiry_valid zero = tt
expiry_valid (suc n) = rw (ltb-suc n) (omega arith)

ok_status : starts_with (text "OK") (text "OK") ≡ true
unfolding starts_with text
ok_status = refl

post_err-nil : post_err nil ≡ 304
unfolding post_err
post_err-nil = refl

post_err-ok : post_err (status (text "OK")) ≡ 0
unfolding post_err
post_err-ok = rw ok_status

-- `do_redis_post` gives the code of the reply, and leaves the database after SET and nothing else.
pub do_redis_post-reply :
    {R : Redis} (rt : WsRt) (key data_ : Bytes) (s : State R) (r : Reply)
    → s.srv.locked ≡ false
    → (R.command (set_command rt key (c_str data_)) s.srv.db).0 ≡ reply r
    → do_redis_post rt key data_ s
      ≡ done (
        post_err r,
        record s {
          srv = record s.srv { db = (R.command (set_command rt key (c_str data_)) s.srv.db).1 };
        },
      )
unfolding do_redis_post
do_redis_post-reply rt key data_ s r free said = elim (Bool-cases rt.multithreaded) [
  | inl many ↦ rw (many, free, said)
  | inr one ↦ rw (one, said)
]

module _ {R : Redis} (laws : IsRedis R) where
  open laws use {alive, find, set_reply}

  abbrev pub kept : WsRt → Bytes → State R → Bool
  kept rt key s = truth rt.immutable && is_some (find s.srv.db key)

  abbrev pub after_set : WsRt → Bytes → Bytes → State R → R.Db
  after_set rt key v s = (R.command (set_command rt key v) s.srv.db).1

  pub do_redis_post-alive :
      (rt : WsRt) (key data_ : Bytes) (s : State R)
      → ValidRt rt
      → alive s.srv.db ≡ true
      → s.srv.locked ≡ false
      → do_redis_post rt key data_ s
        ≡ done (
          (if kept rt key s then 304 else 0),
          record s { srv = record s.srv { db = after_set rt key (c_str data_) s } },
        )
  do_redis_post-alive rt key data_ s (n, e) live free = elim (Bool-cases (kept rt key s)) [
    | inl old ↦
        rw old (do_redis_post-reply rt key data_ s nil free (said n e ∙ rw old) ∙ rw post_err-nil)
    | inr new ↦ rw new (
        do_redis_post-reply rt key data_ s (status (text "OK")) free (said n e ∙ rw new)
        ∙ rw post_err-ok)
  ]
    where
      said :
          (n : ℕ)
          → rt.expiration ≡ pos n
          → (R.command (set_command rt key (c_str data_)) s.srv.db).0
            ≡ reply (if kept rt key s then nil else status (text "OK"))
      said n e = rw (set_command-eq rt n key (c_str data_) e) (
          set_reply s.srv.db key (c_str data_) (expiry_of n) (truth rt.immutable) live
            (expiry_valid n))

pub do_redis_post-lost :
    {R : Redis} (rt : WsRt) (key data_ : Bytes) (s : State R) (kind : ErrorKind) (errstr : Bytes)
    → s.srv.locked ≡ false
    → (R.command (set_command rt key (c_str data_)) s.srv.db).0 ≡ lost kind errstr
    → Returns (do_redis_post rt key data_ s) λ r.
      (r.0 ≡ 503)
      × (r.1.ri ≡ s.ri)
      × (r.1.srv.locked ≡ false)
      × (r.1.srv.shutdown ≡ true)
      × (r.1.srv.redis_error ≡ true)
unfolding do_redis_post log_add_to
do_redis_post-lost rt key data_ s kind errstr free gone = elim (Bool-cases rt.multithreaded) [
  | inl many ↦ rw (many, free, gone) (refl, refl, refl, refl, refl)
  | inr one ↦ rw (one, gone) (refl, refl, free, refl, refl)
]
