-- ===== src/Memory.antt =====
-- Memory as C programs use it: blocks at addresses, calloc and strdup, free, and what goes wrong
-- with a pointer to nothing. It stands for the part of the C library that src/searest_nodelist.c,
-- src/searest.c and src/compression.c call.
use webstore.Base.{
  ℕ, suc, ◌≤◌, ◌<◌, ◌≡◌, refl, false, Option, none, some, arith, ◌==◌, if◌then◌else◌,
}

abbrev pub Ptr : Type 0
Ptr = ℕ

abbrev pub null : Ptr
null = 0

-- The blocks that are allocated. `next` is the address of the next one: allocation succeeds, and no
-- address comes back after it was freed, so a dangling pointer never finds a block by chance.
pub record Heap (C : Type 0) : Type 0 where
  pub next : Ptr
  pub at : Ptr → Option C

-- a run that ends, that uses memory it must not, or whose loop has run out of rounds
pub data Run (C A : Type 0) : Type 0 where
  ok : A → Heap C → Run C A
  fault : Run C A
  out_of_fuel : Run C A

abbrev pub Cmd : Type 0 → Type 0 → Type 0
Cmd C A = Heap C → Run C A

module _ {C : Type 0} where
  unfoldable pub write : Heap C → Ptr → Option C → Heap C
  write h p c = record h { at = λ a. if a == p then c else h.at a }

  abbrev pub give : {A : Type 0} → A → Cmd C A
  give a h = ok a h

  abbrev pub and_then : {A B : Type 0} → Run C A → (A → Cmd C B) → Run C B
  and_then (ok a h) k = k a h
  and_then fault k = fault
  and_then out_of_fuel k = out_of_fuel

  infixl 5 ◌>>=◌ ◌>>◌
  abbrev pub ◌>>=◌ : {A B : Type 0} → Cmd C A → (A → Cmd C B) → Cmd C B
  m >>= k = λ h. and_then (m h) k

  abbrev pub ◌>>◌ : {B : Type 0} → Cmd C (Unit {0}) → Cmd C B → Cmd C B
  m >> k = m >>= λ _. k

  unfoldable pub with_new : Heap C → C → Heap C
  unfolding write
  with_new h c = record (write h h.next (some c)) { next = suc h.next }

  pub write_same : (h : Heap C) (p : Ptr) (c : Option C) → (write h p c).at p ≡ c
  unfolding write
  write_same h p c = ground arith

  pub write_other :
      (h : Heap C) (p a : Ptr) (c : Option C) → (a == p) ≡ false → (write h p c).at a ≡ h.at a
  unfolding write
  write_other h p a c apart = ground (arith, apart)

  pub with_new_same : (h : Heap C) (c : C) → (with_new h c).at h.next ≡ some c
  unfolding with_new write
  with_new_same h c = ground arith

  pub with_new_other :
      (h : Heap C) (a : Ptr) (c : C) → (a == h.next) ≡ false → (with_new h c).at a ≡ h.at a
  unfolding with_new write
  with_new_other h a c apart = ground (arith, apart)

  -- calloc, or strdup: a new block with its first content
  unfoldable pub alloc : C → Cmd C Ptr
  unfolding with_new
  alloc c h = ok h.next (with_new h c)

  unfoldable pub load : Ptr → Cmd C C
  load p h = elim (h.at p) [ none ↦ fault | some c ↦ ok c h ]

  unfoldable pub store : Ptr → C → Cmd C (Unit {0})
  unfolding write
  store p c h = elim (h.at p) [ none ↦ fault | some old ↦ ok tt (write h p (some c)) ]

  -- free(NULL) does nothing
  unfoldable pub free : Ptr → Cmd C (Unit {0})
  unfolding write
  free p h =
      if p == null
      then ok tt h
      else elim (h.at p) [ none ↦ fault | some old ↦ ok tt (write h p none) ]

  pub store-ok :
      (h : Heap C) (p : Ptr) (old c : C)
      → h.at p ≡ some old
      → store p c h ≡ ok tt (write h p (some c))
  unfolding store
  store-ok h p old c e = rw (store, e) refl

  pub free-ok :
      (h : Heap C) (p : Ptr) (c : C)
      → (p == null) ≡ false
      → h.at p ≡ some c
      → free p h ≡ ok tt (write h p none)
  unfolding free
  free-ok h p c p_null e = rw (p_null, e) refl

  -- addresses from `next` on hold no block
  pub record IsHeap (h : Heap C) : Type 0 where
    pub next_pos : 0 < h.next
    pub fresh : (a : Ptr) → h.next ≤ a → h.at a ≡ none

  -- total correctness: no fault, enough rounds, and a postcondition
  abbrev pub Ends : {A : Type 0} → Run C A → (A → Heap C → Type 0) → Type 0
  Ends (ok a h) P = P a h
  Ends fault P = ⊥
  Ends out_of_fuel P = ⊥

  pub Ends-bind :
      {A B : Type 0} (r : Run C A) (k : A → Cmd C B) (P : A → Heap C → Type 0)
      (Q : B → Heap C → Type 0)
      → Ends r P
      → ((a : A) (h : Heap C) → P a h → Ends (k a h) Q)
      → Ends (and_then r k) Q
  Ends-bind (ok a h) k P Q e next = next a h e
  Ends-bind fault k P Q e next = elim e [ ]
  Ends-bind out_of_fuel k P Q e next = elim e [ ]

  pub Ends-weaken :
      {A : Type 0} (r : Run C A) (P Q : A → Heap C → Type 0)
      → Ends r P
      → ((a : A) (h : Heap C) → P a h → Q a h)
      → Ends r Q
  Ends-weaken (ok a h) P Q e weaken = weaken a h e
  Ends-weaken fault P Q e weaken = elim e [ ]
  Ends-weaken out_of_fuel P Q e weaken = elim e [ ]

  pub write-IsHeap :
      (h : Heap C) (p : Ptr) (c old : C)
      → IsHeap h
      → h.at p ≡ some old
      → IsHeap (write h p (some c))
  unfolding write
  write-IsHeap h p c old good held = record {
    next_pos = good.next_pos;
    fresh = λ a le. ground (arith, good.fresh a);
  }

  pub free-IsHeap : (h : Heap C) (p : Ptr) → IsHeap h → IsHeap (write h p none)
  unfolding write
  free-IsHeap h p good = record {
    next_pos = good.next_pos;
    fresh = λ a le. ground (arith, good.fresh a);
  }

  pub alloc-IsHeap : (h : Heap C) (c : C) → IsHeap h → IsHeap (with_new h c)
  unfolding with_new
  alloc-IsHeap h c good = record {
    next_pos = omega arith;
    fresh = λ a le. ground (arith, good.fresh a);
  }
