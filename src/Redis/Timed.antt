-- ===== src/Redis/Timed.antt =====
-- The Redis in a list with a clock: each key with its seconds to live. It shows that what `IsTimed` asks
-- for can be had.
use webstore.Base.{
  ℕ, ◌≡◌, refl, ap, sym, ◌∙◌, Bool, true, false, not, ◌&&◌, Option, none, some, List, [], ◌∷◌,
  if◌then◌else◌, arith, Bool-cases, Option-cases, inl, inr,
}
use webstore.Base.Int.{ℤ, pos}
use webstore.Base.Bytes.{Bytes, bytes_eq, bytes_eq→eq, bytes_eq_refl, text}
use webstore.Redis.{
  Redis, IsRedis, Command, set, get, del, incr, Answer, reply, integer, ValidExpiry, is_some, found,
}
use webstore.Redis.Mem.{
  Mem, mem_redis_laws, mem_alive, mem_find, lookup, run, incr_present, incr_new_law,
}
use webstore.Redis.Clock.{seconds_of, over, less, IsTimed}

-- the keys, and the seconds of those that are there
abbrev pub Timed : Type 0
Timed = Mem × (Bytes → Option ℕ)

touch : Command → Mem → (Bytes → Option ℕ) → Bytes → Option ℕ
touch (get k) m l j = l j
touch (set k v ex nx) m l j =
    if nx && is_some (lookup k m.keys) then l j else if bytes_eq k j then seconds_of ex else l j
touch (del k) m l j = l j
touch (incr k) m l j = if bytes_eq k j && not (is_some (lookup k m.keys)) then none else l j

unfoldable pub timed_run : Command → Timed → Answer × Timed
unfolding touch
timed_run c (m, l) = let r = run c m in (r.0, (r.1, touch c m l))

abbrev pub timed_redis : Redis
timed_redis = record { Db = Timed; command = timed_run }

expire : (Bytes → Option ℕ) → List (Bytes × Bytes) → List (Bytes × Bytes)
expire l [] = []
expire l ((j, v) ∷ m) = let rest = expire l m in if over (l j) then rest else (j, v) ∷ rest

lookup-expire :
    (l : Bytes → Option ℕ) (k : Bytes) (m : List (Bytes × Bytes))
    → lookup k (expire l m) ≡ (if over (l k) then none else lookup k m)
unfolding lookup expire
lookup-expire l k [] = ground arith
lookup-expire l k ((j, v) ∷ m) = elim (Bool-cases (bytes_eq j k)) [
  | inl same ↦ ground (arith, lookup-expire l k m, ap (λ i. over (l i)) (bytes_eq→eq j k same))
  | inr other ↦ ground (arith, lookup-expire l k m)
]

get_timed :
    (d : Timed) (k : Bytes)
    → mem_redis_laws.alive d.0 ≡ true
    → timed_run (get k) d ≡ (reply (found (mem_redis_laws.find d.0 k)), d)
unfolding timed_run touch
get_timed d k live = ap with_clock (mem_redis_laws.get_lem d.0 k live)
  where
    with_clock : Answer × Mem → Answer × Timed
    with_clock r = (r.0, (r.1, d.1))

-- it is a Redis
pub timed_redis_laws : IsRedis timed_redis
unfolding timed_run
timed_redis_laws = record {
  alive = λ d. mem_redis_laws.alive d.0;
  find = λ d. mem_redis_laws.find d.0;
  get_lem = λ d k live. get_timed d k live;
  set_reply = λ d. mem_redis_laws.set_reply d.0;
  set_alive = λ d. mem_redis_laws.set_alive d.0;
  find-set = λ d. mem_redis_laws.find-set d.0;
  del_alive = λ d. mem_redis_laws.del_alive d.0;
  find-del = λ d. mem_redis_laws.find-del d.0;
  incr_lem = λ d. mem_redis_laws.incr_lem d.0;
  incr_alive = λ d. mem_redis_laws.incr_alive d.0;
  find-incr = λ d. mem_redis_laws.find-incr d.0;
}

module _ (m : Mem) (k : Bytes) where
  up : mem_redis_laws.alive m ≡ true → m.up ≡ true
  up live = sym (mem_alive m) ∙ live

  set_lookup :
      (v : Bytes) (ex : Option ℤ) (nx : Bool) (j : Bytes)
      → mem_redis_laws.alive m ≡ true
      → ValidExpiry ex
      → lookup j (run (set k v ex nx) m).1.keys ≡ (
          if nx && is_some (lookup k m.keys)
          then lookup j m.keys
          else if bytes_eq k j
          then some v
          else lookup j m.keys)
  set_lookup v ex nx j live valid =
      sym (mem_find (run (set k v ex nx) m).1 j)
      ∙ mem_redis_laws.find-set m k v ex nx j live valid
      ∙ rw (mem_find m k, mem_find m j)

  -- what SET leaves of the seconds of the keys that are there
  set_left :
      (v : Bytes) (ex : Option ℤ) (nx : Bool) (j : Bytes) (l : Bytes → Option ℕ)
      → mem_redis_laws.alive m ≡ true
      → ValidExpiry ex
      → (if is_some (lookup j (run (set k v ex nx) m).1.keys)
          then if nx && is_some (lookup k m.keys)
            then l j
            else if bytes_eq k j
            then seconds_of ex
            else l j
          else none)
        ≡ (if nx && is_some (mem_redis_laws.find m k)
            then if is_some (lookup j m.keys) then l j else none
            else if bytes_eq k j
            then seconds_of ex
            else if is_some (lookup j m.keys)
            then l j
            else none)
  set_left v ex nx j l live valid =
      rw (set_lookup v ex nx j live valid, mem_find m k)
        (elim (Bool-cases (nx && is_some (lookup k m.keys))) [
          | inl kept ↦ rw kept
          | inr fresh ↦
              rw fresh
                (elim (Bool-cases (bytes_eq k j)) [ inl same ↦ rw same | inr other ↦ rw other ])
        ])

second_find :
    (m : Mem) (k : Bytes) (l : Bytes → Option ℕ)
    → mem_redis_laws.find (record m { keys = expire l m.keys }) k ≡ (
        if over (if is_some (lookup k m.keys) then l k else none)
        then none
        else mem_redis_laws.find m k)
second_find m k l =
    rw (mem_find (record m { keys = expire l m.keys }) k, mem_find m k, lookup-expire l k m.keys)
      (elim (Option-cases (lookup k m.keys)) [
        | inl gone ↦ rw gone (same_none (over (l k)))
        | inr (v, there) ↦ rw there
      ])
  where
    same_none : (b : Bool) → ◌≡◌ {A = Option Bytes} (if b then none else none) none
    same_none true = refl
    same_none false = refl

second_left :
    (m : Mem) (k : Bytes) (l : Bytes → Option ℕ)
    → (if is_some (lookup k (expire l m.keys)) then less (l k) else none)
      ≡ less (if is_some (lookup k m.keys) then l k else none)
second_left m k l = rw (lookup-expire l k m.keys) (elim (Option-cases (lookup k m.keys)) [
  | inl gone ↦ rw gone (ends (over (l k)) (less (l k)))
  | inr (v, there) ↦ rw there (runs_out v (l k))
])
  where
    ends :
        (b : Bool) (o : Option ℕ) → (if is_some (if b then none else none) then o else none) ≡ none
    ends true o = refl
    ends false o = refl

    runs_out :
        (v : Bytes) (o : Option ℕ)
        → (if is_some (if over o then none else some v) then less o else none) ≡ less o
    runs_out v none = refl
    runs_out v (some n) = ground arith

incr_left :
    (m : Mem) (k j : Bytes) (l : Bytes → Option ℕ)
    → mem_redis_laws.alive m ≡ true
    → is_some (mem_redis_laws.find m k) ≡ true
    → (if is_some (lookup j (run (incr k) m).1.keys)
        then if bytes_eq k j && not (is_some (lookup k m.keys)) then none else l j
        else none)
      ≡ (if is_some (lookup j m.keys) then l j else none)
incr_left m k j l live there = rw (incr_present m k j (up m k live) here, here) (ground arith)
  where
    here : is_some (lookup k m.keys) ≡ true
    here = sym (ap is_some (mem_find m k)) ∙ there

incr_made :
    (m : Mem) (k : Bytes) (l : Bytes → Option ℕ)
    → mem_redis_laws.alive m ≡ true
    → mem_redis_laws.find m k ≡ none
    → ((timed_run (incr k) (m, l)).0 ≡ reply (integer (pos 1)))
      × (mem_redis_laws.find (run (incr k) m).1 k ≡ some (text "1"))
      × ((if is_some (lookup k (run (incr k) m).1.keys)
            then if bytes_eq k k && not (is_some (lookup k m.keys)) then none else l k
            else none)
          ≡ none)
unfolding timed_run
incr_made m k l live new =
    let made = incr_new_law m k (up m k live) (sym (mem_find m k) ∙ new) in
    (
      made.0,
      mem_find (run (incr k) m).1 k ∙ made.1,
      rw (made.1, bytes_eq_refl k, sym (mem_find m k), new),
    )

-- with a clock
pub timed_redis_IsTimed : IsTimed timed_redis_laws
unfolding timed_redis_laws timed_run touch
timed_redis_IsTimed = record {
  second = λ d. (record d.0 { keys = expire d.1 d.0.keys }, λ k. less (d.1 k));
  left = λ d k. if is_some (lookup k d.0.keys) then d.1 k else none;
  alive_second = λ d. mem_alive (record d.0 { keys = expire d.1 d.0.keys }) ∙ sym (mem_alive d.0);
  find-second = λ d k. second_find d.0 k d.1;
  left-second = λ d k. second_left d.0 k d.1;
  left-set = λ d k v ex nx j live valid. set_left d.0 k v ex nx j d.1 live valid;
  left-incr = λ d k j live there. incr_left d.0 k j d.1 live there;
  incr_new = λ d k live new. incr_made d.0 k d.1 live new;
}

pub timed_alive : (d : Timed) → timed_redis_laws.alive d ≡ d.0.up
unfolding timed_redis_laws
timed_alive d = mem_alive d.0

pub timed_find : (d : Timed) (k : Bytes) → timed_redis_laws.find d k ≡ lookup k d.0.keys
unfolding timed_redis_laws
timed_find d k = mem_find d.0 k

pub timed_left :
    (d : Timed) (k : Bytes)
    → timed_redis_IsTimed.left d k ≡ (if is_some (lookup k d.0.keys) then d.1 k else none)
unfolding timed_redis_IsTimed
timed_left d k = refl
