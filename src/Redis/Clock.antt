-- ===== src/Redis/Clock.antt =====
-- Time in the Redis service: the keys that SET gave an expiry are gone when their seconds are over.
-- Like IsRedis this is documented behaviour of a service that is not part of the repository.
use webstore.Base.{
  ℕ, zero, suc, ◌-◌, ◌≡◌, refl, ap, ◌∙◌, Bool, true, false, ◌&&◌, Option, none, some, leb, leb→le,
  if◌then◌else◌, arith, Bool-cases, inl, inr,
}
use webstore.Base.Int.{ℤ, pos, negsuc}
use webstore.Base.Bytes.{Bytes, bytes_eq, text}
use webstore.Redis.{Redis, IsRedis, ValidExpiry, is_some, set, incr, reply, integer}

-- the seconds of EX
abbrev pub seconds_of : Option ℤ → Option ℕ
seconds_of none = none
seconds_of (some (pos n)) = some n
seconds_of (some (negsuc n)) = none

-- the time to live is over with the next second, and what is left of it after that
abbrev pub over : Option ℕ → Bool
over none = false
over (some n) = leb n 1

abbrev pub less : Option ℕ → Option ℕ
less none = none
less (some n) = if leb n 1 then none else some (n - 1)

-- `second` is a second in which no command comes, `left` the time to live of a key, if it has one.
-- SET gives the key the expiry of EX, or none; INCR keeps it, but a key that INCR makes has none.
pub record IsTimed {R : Redis} (laws : IsRedis R) : Type 0 where
  pub second : R.Db → R.Db
  pub left : R.Db → Bytes → Option ℕ
  pub alive_second : (d : R.Db) → laws.alive (second d) ≡ laws.alive d
  pub find-second :
      (d : R.Db) (k : Bytes)
      → laws.find (second d) k ≡ (if over (left d k) then none else laws.find d k)
  pub left-second : (d : R.Db) (k : Bytes) → left (second d) k ≡ less (left d k)
  pub left-set :
      (d : R.Db) (k v : Bytes) (ex : Option ℤ) (nx : Bool) (j : Bytes)
      → laws.alive d ≡ true
      → ValidExpiry ex
      → left (R.command (set k v ex nx) d).1 j ≡ (
          if nx && is_some (laws.find d k)
          then left d j
          else if bytes_eq k j
          then seconds_of ex
          else left d j)
  pub left-incr :
      (d : R.Db) (k j : Bytes)
      → laws.alive d ≡ true
      → is_some (laws.find d k) ≡ true
      → left (R.command (incr k) d).1 j ≡ left d j
  pub incr_new :
      (d : R.Db) (k : Bytes)
      → laws.alive d ≡ true
      → laws.find d k ≡ none
      → ((R.command (incr k) d).0 ≡ reply (integer (pos 1)))
        × (laws.find (R.command (incr k) d).1 k ≡ some (text "1"))
        × (left (R.command (incr k) d).1 k ≡ none)

none_past : (t : ℕ) → leb 0 t ≡ true
none_past t = ground arith

all_past : (n : ℕ) → leb (suc n) 0 ≡ false
all_past n = ground arith

one_less : (n t : ℕ) → leb (suc n) (suc t) ≡ leb n t
one_less n t = ground arith

not_over : (t : ℕ) → over (some (suc (suc t))) ≡ false
not_over t = ground arith

less-suc : (t : ℕ) → less (some (suc (suc t))) ≡ some (suc t)
less-suc t = elim (Bool-cases (leb (suc (suc t)) 1)) [
  | inl early ↦ absurd (omega (arith, leb→le _ _ early))
  | inr late ↦ rw late (ap some (pred t))
]
  where
    pred : (t : ℕ) → suc (suc t) - 1 ≡ suc t
    pred t = omega arith

module _ {R : Redis} (laws : IsRedis R) (timed : IsTimed laws) where
  open laws use {alive, find}
  open timed use {second, left, alive_second, find-second, left-second}

  -- `n` seconds with no command
  unfoldable pub wait : ℕ → R.Db → R.Db
  wait zero d = d
  wait (suc n) d = wait n (second d)

  pub wait_alive : (n : ℕ) (d : R.Db) → alive (wait n d) ≡ alive d
  unfolding wait
  wait_alive zero d = refl
  wait_alive (suc n) d = wait_alive n (second d) ∙ alive_second d

  -- a key with no expiry stays
  pub wait-for_ever :
      (n : ℕ) (d : R.Db) (k : Bytes) → left d k ≡ none → find (wait n d) k ≡ find d k
  unfolding wait
  wait-for_ever zero d k e = refl
  wait-for_ever (suc n) d k e =
      wait-for_ever n (second d) k (left-second d k ∙ ap less e) ∙ find-second d k ∙ rw e

  -- a key that is not there does not come
  pub wait-gone : (n : ℕ) (d : R.Db) (k : Bytes) → find d k ≡ none → find (wait n d) k ≡ none
  unfolding wait
  wait-gone zero d k e = e
  wait-gone (suc n) d k e =
      wait-gone n (second d) k (find-second d k ∙ rw e (either (over (left d k))))
    where
      either : (b : Bool) → ◌≡◌ {A = Option Bytes} (if b then none else none) none
      either true = refl
      either false = refl

  -- a key with an expiry is there until its seconds are over
  pub wait-expires :
      (n t : ℕ) (d : R.Db) (k : Bytes)
      → left d k ≡ some (suc t)
      → find (wait n d) k ≡ (if leb n t then find d k else none)
  unfolding wait
  wait-expires zero t d k e = rw (none_past t)
  wait-expires (suc n) zero d k e =
      wait-for_ever n (second d) k (left-second d k ∙ ap less e)
      ∙ find-second d k
      ∙ rw (e, all_past n)
  wait-expires (suc n) (suc t) d k e =
      wait-expires n t (second d) k (left-second d k ∙ ap less e ∙ less-suc t)
      ∙ rw (find-second d k, e, not_over t, one_less n t)
