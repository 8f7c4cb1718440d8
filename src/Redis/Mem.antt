-- ===== src/Redis/Mem.antt =====
-- A Redis of its own: the live keys in a list, and whether the connection works. It shows that what
-- `IsRedis` asks for can be had, and it runs in the tests. `down` is what a broken connection says.
use webstore.Base.{
  ℕ, ◌+◌, ◌<◌, ◌≡◌, refl, Bool, true, ◌&&◌, Option, none, some, List, [], ◌∷◌, arith, if◌then◌else◌,
  Bool-cases, inl, inr, ◌∙◌, ◌^◌, ap, sym,
}
use webstore.Base.Int.{ℤ, pos, negsuc}
use webstore.Base.Bytes.{Bytes, bytes_eq, bytes_eq_iff, bytes_eq_refl, bytes_eq→eq, text}
use webstore.Base.Decimal.{decimal, atol, atol-decimal}
use webstore.Redis.{
  Command, set, get, del, incr, integer, nil, status, error, Answer, reply, lost, err_eof, Redis,
  found, is_some, ValidExpiry, IsRedis,
}

pub record Mem : Type 0 where
  pub up : Bool
  pub keys : List (Bytes × Bytes)

unfoldable pub lookup : Bytes → List (Bytes × Bytes) → Option Bytes
lookup k [] = none
lookup k ((j, v) ∷ m) = if bytes_eq j k then some v else lookup k m

without : Bytes → List (Bytes × Bytes) → List (Bytes × Bytes)
without k [] = []
without k ((j, v) ∷ m) = let rest = without k m in if bytes_eq j k then rest else (j, v) ∷ rest

lookup-without :
    (k j : Bytes) (m : List (Bytes × Bytes))
    → lookup j (without k m) ≡ (if bytes_eq k j then none else lookup j m)
unfolding lookup without
lookup-without k j [] = ground arith
lookup-without k j ((i, v) ∷ m) =
    ground (arith, lookup-without k j m, bytes_eq_iff i k, bytes_eq_iff i j, bytes_eq_iff k j)

put : Bytes → Bytes → List (Bytes × Bytes) → List (Bytes × Bytes)
put k v m = (k, v) ∷ without k m

lookup-put :
    (k j v : Bytes) (m : List (Bytes × Bytes))
    → lookup j (put k v m) ≡ (if bytes_eq k j then some v else lookup j m)
unfolding put lookup
lookup-put k j v m = ground (arith, lookup-without k j m)

-- INCR reads a number in the value
incremented : Bytes → Bytes → Mem → ℤ → Answer × Mem
incremented k v m (pos n) =
    (reply (integer (pos (n + 1))), record m { keys = put k (decimal (n + 1)) m.keys })
incremented k v m (negsuc n) = (reply (error (text "ERR value is not an integer")), m)

incr_found : Bytes → Mem → Option Bytes → Answer × Mem
unfolding incremented
incr_found k m none = (reply (integer (pos 1)), record m { keys = put k (decimal 1) m.keys })
incr_found k m (some v) = incremented k v m (atol v)

run_up : Command → Mem → Answer × Mem
unfolding incr_found put lookup without
run_up (get k) m = (reply (found (lookup k m.keys)), m)
run_up (set k v ex nx) m =
    if nx && is_some (lookup k m.keys)
    then (reply nil, m)
    else (reply (status (text "OK")), record m { keys = put k v m.keys })
run_up (del k) m = (
  reply (integer (if is_some (lookup k m.keys) then pos 1 else pos 0)),
  record m { keys = without k m.keys },
)
run_up (incr k) m = incr_found k m (lookup k m.keys)

unfoldable pub run : Command → Mem → Answer × Mem
unfolding run_up
run c m = if m.up then run_up c m else (lost err_eof (text "Server closed the connection"), m)

abbrev pub mem_redis : Redis
mem_redis = record { Db = Mem; command = run }

run-live : (c : Command) (m : Mem) → m.up ≡ true → run c m ≡ run_up c m
unfolding run
run-live c m h = rw h

get-run : (m : Mem) (k : Bytes) → m.up ≡ true → run (get k) m ≡ (reply (found (lookup k m.keys)), m)
get-run m k h = run-live (get k) m h ∙ (unfold run_up in refl)

find_in : Mem → Bytes → Option Bytes
find_in m k = lookup k m.keys

-- One clause of `IsRedis` for each lemma.
module _ (m : Mem) (k : Bytes) (live : m.up ≡ true) where
  get_law : run (get k) m ≡ (reply (found (find_in m k)), m)
  unfolding run find_in
  get_law = rw live

  set_reply_law :
      (v : Bytes) (ex : Option ℤ) (nx : Bool)
      → ValidExpiry ex
      → (run (set k v ex nx) m).0
        ≡ reply (if nx && is_some (find_in m k) then nil else status (text "OK"))
  unfolding run find_in
  set_reply_law v ex nx valid = rw live (ground arith)

  set_alive_law : (v : Bytes) (ex : Option ℤ) (nx : Bool) → (run (set k v ex nx) m).1.up ≡ true
  unfolding run find_in
  set_alive_law v ex nx = rw live (ground arith)

  set_find_law :
      (v : Bytes) (ex : Option ℤ) (nx : Bool) (j : Bytes)
      → ValidExpiry ex
      → find_in (run (set k v ex nx) m).1 j ≡ (
          if nx && is_some (find_in m k)
          then find_in m j
          else if bytes_eq k j
          then some v
          else find_in m j)
  unfolding find_in run
  set_find_law v ex nx j valid = rw live (elim (Bool-cases (nx && is_some (lookup k m.keys))) [
    | inl kept ↦ rw kept
    | inr fresh ↦ rw fresh (lookup-put k j v m.keys)
  ])

  del_alive_law : (run (del k) m).1.up ≡ true
  unfolding run
  del_alive_law = rw live

  del_find_law :
      (j : Bytes) → find_in (run (del k) m).1 j ≡ (if bytes_eq k j then none else find_in m j)
  unfolding find_in run
  del_find_law j = rw live (lookup-without k j m.keys)

  incr_law :
      (n : ℕ)
      → n + 1 < 2 ^ 63
      → find_in m k ≡ some (decimal n)
      → run (incr k) m
        ≡ (reply (integer (pos (n + 1))), record m { keys = put k (decimal (n + 1)) m.keys })
  unfolding find_in run
  incr_law n small e = rw (live, e, atol-decimal n (omega arith))

  incr_alive_law : (run (incr k) m).1.up ≡ true
  unfolding run
  incr_alive_law =
      ap (λ (a : Answer × Mem). a.1.up) (run-live (incr k) m live) ∙ up_after (lookup k m.keys)
    where
      up_number : (v : Bytes) (i : ℤ) → (incremented k v m i).1.up ≡ true
      up_number v (pos n) = live
      up_number v (negsuc n) = live

      up_after : (o : Option Bytes) → (incr_found k m o).1.up ≡ true
      up_after none = live
      up_after (some v) = up_number v (atol v)

incr_find_law :
    (m : Mem) (k : Bytes) (n : ℕ) (j : Bytes)
    → m.up ≡ true
    → n + 1 < 2 ^ 63
    → find_in m k ≡ some (decimal n)
    → find_in (run (incr k) m).1 j ≡ (if bytes_eq k j then some (decimal (n + 1)) else find_in m j)
incr_find_law m k n j live small e =
    ap (λ (a : Answer × Mem). find_in a.1 j) (incr_law m k live n small e)
    ∙ (unfold find_in in lookup-put k j (decimal (n + 1)) m.keys)

one : decimal 1 ≡ text "1"
unfolding text decimal
one = refl

-- INCR of a key that is not there makes it, with the value 1.
pub incr_new_law :
    (m : Mem) (k : Bytes)
    → m.up ≡ true
    → lookup k m.keys ≡ none
    → ((run (incr k) m).0 ≡ reply (integer (pos 1)))
      × (lookup k (run (incr k) m).1.keys ≡ some (text "1"))
unfolding run
incr_new_law m k live new = rw (live, new) (refl, found_now)
  where
    found_now : lookup k (put k (decimal 1) m.keys) ≡ some (text "1")
    found_now = lookup-put k k (decimal 1) m.keys ∙ rw (bytes_eq_refl k, one)

present :
    (m : Mem) (k j v : Bytes)
    → is_some (lookup k m.keys) ≡ true
    → is_some (lookup j (put k v m.keys)) ≡ is_some (lookup j m.keys)
present m k j v there = ap is_some (lookup-put k j v m.keys) ∙ elim (Bool-cases (bytes_eq k j)) [
  | inl same ↦ rw (same, sym (ap (λ i. is_some (lookup i m.keys)) (bytes_eq→eq k j same)), there)
  | inr other ↦ rw other
]

-- After INCR of a key that is there, no key has come or gone.
pub incr_present :
    (m : Mem) (k j : Bytes)
    → m.up ≡ true
    → is_some (lookup k m.keys) ≡ true
    → is_some (lookup j (run (incr k) m).1.keys) ≡ is_some (lookup j m.keys)
unfolding run_up
incr_present m k j live there =
    ap (λ (a : Answer × Mem). is_some (lookup j a.1.keys)) (run-live (incr k) m live)
    ∙ by_value (lookup k m.keys) there
  where
    by_number :
        (v : Bytes) (i : ℤ)
        → is_some (lookup j (incremented k v m i).1.keys) ≡ is_some (lookup j m.keys)
    by_number v (pos n) = present m k j (decimal (n + 1)) there
    by_number v (negsuc n) = refl

    by_value :
        (o : Option Bytes)
        → is_some o ≡ true
        → is_some (lookup j (incr_found k m o).1.keys) ≡ is_some (lookup j m.keys)
    by_value none e = absurd (cc)
    by_value (some v) e = by_number v (atol v)

-- The list is a Redis, that is live while the connection is up, with the keys that are in the list.
pub mem_IsRedis :
    (laws : IsRedis mem_redis) × ((m : Mem) → laws.alive m ≡ m.up)
    × ((m : Mem) (k : Bytes) → laws.find m k ≡ lookup k m.keys)
unfolding find_in
mem_IsRedis = (
  record {
    alive = λ m. m.up;
    find = find_in;
    get_lem = get_law;
    set_reply = λ d k v ex nx live valid. set_reply_law d k live v ex nx valid;
    set_alive = λ d k v ex nx live. set_alive_law d k live v ex nx;
    find-set = λ d k v ex nx j live valid. set_find_law d k live v ex nx j valid;
    del_alive = del_alive_law;
    find-del = λ d k j live. del_find_law d k live j;
    incr_lem = λ d k n live small e. ap (λ (a : Answer × Mem). a.0) (incr_law d k live n small e);
    incr_alive = incr_alive_law;
    find-incr = λ d k n j live small e. incr_find_law d k n j live small e;
  },
  λ m. refl,
  λ m k. refl,
)

abbrev pub mem_redis_laws : IsRedis mem_redis
mem_redis_laws = mem_IsRedis.0

pub mem_alive : (m : Mem) → mem_redis_laws.alive m ≡ m.up
mem_alive = mem_IsRedis.1

pub mem_find : (m : Mem) (k : Bytes) → mem_redis_laws.find m k ≡ lookup k m.keys
mem_find = mem_IsRedis.2
