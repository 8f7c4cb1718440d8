-- ===== src/Searest/Slots.antt =====
-- The slots of the last durations of a node, in a build with SRNODECHRONOMETRY (src/searest_nodelist.c).
use webstore.Base.{
  ℕ, zero, suc, ◌+◌, ◌%◌, ◌^◌, ◌<◌, ◌≤◌, ◌-◌, ◌≡◌, refl, ap, ◌∙◌, true, false, Option, none, some,
  ltb, ◌==◌, if◌then◌else◌, Bool-cases, inl, inr, arith,
}
use webstore.Searest.Stats.{
  Durations, timeslots, no_durations, set_slot, stored, searest_node_save_time, total,
}

-- the durations `dur 0`, `dur 1`, ... of `n` calls saved in turn
unfoldable pub saves : (ℕ → ℕ) → ℕ → Option Durations
unfolding searest_node_save_time
saves dur zero = some no_durations
saves dur (suc n) = elim (saves dur n) [ none ↦ none | some d ↦ searest_node_save_time (dur n) d ]

-- the sum of `k` durations from the one of number `s` on
unfoldable pub sum_from : (ℕ → ℕ) → ℕ → ℕ → ℕ
sum_from dur s zero = 0
sum_from dur s (suc k) = sum_from dur s k + dur (s + k)

sum_from-suc : (dur : ℕ → ℕ) (s k : ℕ) → sum_from dur s (suc k) ≡ sum_from dur s k + dur (s + k)
unfolding sum_from
sum_from-suc dur s k = refl

zero_add : (n : ℕ) → 0 + n ≡ n
zero_add n = omega arith

-- one duration further
sum_from-shift : (dur : ℕ → ℕ) (s k : ℕ) → sum_from dur (suc s) k + dur s ≡ sum_from dur s (suc k)
unfolding sum_from
sum_from-shift dur s zero = omega (arith, ap dur (same s))
  where
    same : (s : ℕ) → s ≡ s + 0
    same s = omega arith
sum_from-shift dur s (suc k) = omega (arith, sum_from-shift dur s k, ap dur (across s k))
  where
    across : (s k : ℕ) → suc s + k ≡ s + suc k
    across s k = omega arith

total-set_slot :
    (da : ℕ → ℕ) (i x k : ℕ)
    → total k (set_slot da i x) + (if ltb i k then da i else 0)
      ≡ total k da + (if ltb i k then x else 0)
unfolding total
total-set_slot da i x zero = ground arith
total-set_slot da i x (suc k) = elim (Bool-cases (k == i)) [
  | inl here ↦ rw here (ground (arith, total-set_slot da i x k, ap da (same k i here)))
  | inr there ↦ rw there (ground (arith, total-set_slot da i x k))
]
  where
    same : (k i : ℕ) → (k == i) ≡ true → k ≡ i
    same k i e = ground arith

-- After `n` saves: each slot holds the latest of its durations, and the others are still 0.
pub record Saved (dur : ℕ → ℕ) (n : ℕ) (d : Durations) : Type 0 where
  pub counted : d.dai ≡ n
  pub ready : d.statsready ≡ ltb timeslots n
  pub latest : (k : ℕ) → k < n → n ≤ k + timeslots → d.da (k % timeslots) ≡ dur k
  pub unused : (i : ℕ) → n ≤ i → d.da i ≡ 0
  pub sum :
      total timeslots d.da
      ≡ (if ltb n timeslots then sum_from dur 0 n else sum_from dur (n - timeslots) timeslots)

pub save-stored :
    (x : ℕ) (d : Durations) → d.dai + 1 < 2 ^ 31 → searest_node_save_time x d ≡ some (stored x d)
unfolding searest_node_save_time
save-stored x d small = rw fits
  where
    fits : ltb (d.dai + 1) (2 ^ 31) ≡ true
    fits = ground arith

stored-latest :
    (dur : ℕ → ℕ) (n : ℕ) (d : Durations) (k : ℕ)
    → Saved dur n d
    → k < suc n
    → suc n ≤ k + timeslots
    → set_slot d.da (n % timeslots) (dur n) (k % timeslots) ≡ dur k
stored-latest dur n d k h below near = elim (Bool-cases (k == n)) [
  | inl last ↦ rw (at_slot last) (ap dur (same last))
  | inr before ↦ rw (off_slot before) (h.latest k (omega (arith, older before)) (omega arith))
]
  where
    same : (k == n) ≡ true → n ≡ k
    same e = ground arith

    at_slot : (k == n) ≡ true → (k % timeslots == n % timeslots) ≡ true
    at_slot e = ground arith

    older : (k == n) ≡ false → k < n
    older e = ground arith

    off_slot : (k == n) ≡ false → (k % timeslots == n % timeslots) ≡ false
    off_slot e = ground (arith, older e)

stored-unused :
    (dur : ℕ → ℕ) (n : ℕ) (d : Durations) (i : ℕ)
    → Saved dur n d
    → suc n ≤ i
    → set_slot d.da (n % timeslots) (dur n) i ≡ 0
stored-unused dur n d i h far = rw other (h.unused i (omega arith))
  where
    other : (i == (n % timeslots)) ≡ false
    other = ground arith

stored-sum :
    (dur : ℕ → ℕ) (n : ℕ) (d : Durations)
    → Saved dur n d
    → total timeslots (set_slot d.da (n % timeslots) (dur n)) ≡ (
        if ltb (suc n) timeslots
        then sum_from dur 0 (suc n)
        else sum_from dur (suc n - timeslots) timeslots)
stored-sum dur n d h = elim (Bool-cases (ltb n timeslots)) [
  | inl filling ↦ elim (Bool-cases (ltb (suc n) timeslots)) [
    | inl room ↦ rw room (longer filling)
    | inr last ↦ rw last (longer filling ∙ whole filling last)
  ]
  | inr full ↦ rw (still full) (moves full)
]
  where
    grown :
        total timeslots (set_slot d.da (n % timeslots) (dur n)) + d.da (n % timeslots)
        ≡ total timeslots d.da + dur n
    grown = ground (arith, total-set_slot d.da (n % timeslots) (dur n) timeslots)

    summed : ltb n timeslots ≡ true → total timeslots d.da ≡ sum_from dur 0 n
    summed e = h.sum ∙ rw e

    summed_window :
        ltb n timeslots ≡ false → total timeslots d.da ≡ sum_from dur (n - timeslots) timeslots
    summed_window e = h.sum ∙ rw e

    short : ltb n timeslots ≡ true → n ≤ n % timeslots
    short e = ground arith

    longer :
        ltb n timeslots ≡ true
        → total timeslots (set_slot d.da (n % timeslots) (dur n)) ≡ sum_from dur 0 (suc n)
    longer e = omega (
      arith,
      grown,
      summed e,
      h.unused (n % timeslots) (short e),
      sum_from-suc dur 0 n,
      ap dur (zero_add n),
    )

    one_short : ltb n timeslots ≡ true → ltb (suc n) timeslots ≡ false → suc n ≡ timeslots
    one_short e f = ground arith

    from_start :
        ltb n timeslots ≡ true → ltb (suc n) timeslots ≡ false → ◌≡◌ {A = ℕ} 0 (suc n - timeslots)
    from_start e f = omega (arith, one_short e f)

    whole :
        ltb n timeslots ≡ true
        → ltb (suc n) timeslots ≡ false
        → sum_from dur 0 (suc n) ≡ sum_from dur (suc n - timeslots) timeslots
    whole e f =
        ap (sum_from dur 0) (one_short e f) ∙ ap (λ s. sum_from dur s timeslots) (from_start e f)

    still : ltb n timeslots ≡ false → ltb (suc n) timeslots ≡ false
    still e = ground arith

    long : ltb n timeslots ≡ false → timeslots ≤ n
    long e = ground arith

    oldest : ltb n timeslots ≡ false → d.da (n % timeslots) ≡ dur (n - timeslots)
    oldest e =
        ap d.da (omega (arith, long e))
        ∙ h.latest (n - timeslots) (omega (arith, long e)) (omega (arith, long e))

    moves :
        ltb n timeslots ≡ false
        → total timeslots (set_slot d.da (n % timeslots) (dur n))
          ≡ sum_from dur (suc n - timeslots) timeslots
    moves e = omega (
      arith,
      grown,
      summed_window e,
      oldest e,
      sum_from-shift dur (n - timeslots) timeslots,
      sum_from-suc dur (n - timeslots) timeslots,
      ap dur (back e),
      ap (λ s. sum_from dur s timeslots) (next e),
    )
      where
        back : ltb n timeslots ≡ false → (n - timeslots) + timeslots ≡ n
        back f = omega (arith, long f)

        next : ltb n timeslots ≡ false → suc (n - timeslots) ≡ suc n - timeslots
        next f = omega (arith, long f)

pub stored-Saved :
    (dur : ℕ → ℕ) (n : ℕ) (d : Durations) → Saved dur n d → Saved dur (suc n) (stored (dur n) d)
stored-Saved dur n d h = simp h.counted (record {
  counted = omega arith;
  ready = rw h.ready (ground arith);
  latest = λ k below near. stored-latest dur n d k h below near;
  unused = λ i far. stored-unused dur n d i h far;
  sum = stored-sum dur n d h;
})
