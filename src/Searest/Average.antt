-- ===== src/Searest/Average.antt =====
-- The average that a node shows, in a build with SRNODECHRONOMETRY (src/searest_nodelist.c).
use webstore.Base.{
  ℕ, zero, suc, ◌/◌, ◌^◌, ◌<◌, ◌-◌, ◌≡◌, refl, ap, sym, ◌∙◌, true, false, some, ltb, if◌then◌else◌,
  Bool-cases, inl, inr, arith,
}
use webstore.Searest.Stats.{Durations, timeslots, no_durations, stored, total, average}
use webstore.Searest.Slots.{saves, sum_from, Saved, save-stored, stored-Saved}

total-zero : (k : ℕ) → total k (λ i. 0) ≡ 0
unfolding total
total-zero zero = refl
total-zero (suc k) = omega (arith, total-zero k)

sum_from-zero : (dur : ℕ → ℕ) (s : ℕ) → sum_from dur s 0 ≡ 0
unfolding sum_from
sum_from-zero dur s = refl

saves-Saved :
    (dur : ℕ → ℕ) (n : ℕ) → n < 2 ^ 31 → (d : Durations) × (saves dur n ≡ some d) × Saved dur n d
unfolding saves
saves-Saved dur zero small = (
  no_durations,
  refl,
  record {
    counted = refl;
    ready = refl;
    latest = λ k below near. absurd (omega arith);
    unused = λ i far. refl;
    sum = total-zero timeslots ∙ sym (sum_from-zero dur 0);
  },
)
saves-Saved dur (suc n) small =
    let (d, e, h) = saves-Saved dur n (omega arith) in
    (
      stored (dur n) d,
      rw (e, save-stored (dur n) d (omega (arith, h.counted))),
      stored-Saved dur n d h,
    )

Saved-average :
    (dur : ℕ → ℕ) (n : ℕ) (d : Durations)
    → sum_from dur (n - timeslots) timeslots < 2 ^ 64
    → Saved dur n d
    → average d
      ≡ (if ltb timeslots n then sum_from dur (n - timeslots) timeslots / timeslots else 0)
unfolding average
Saved-average dur n d fits h = elim (Bool-cases (ltb timeslots n)) [
  | inr few ↦ rw (h.ready, few)
  | inl enough ↦ rw (h.ready, enough) (ap (λ s. s / timeslots) (omega (arith, whole enough, fits)))
]
  where
    many : ltb timeslots n ≡ true → ltb n timeslots ≡ false
    many e = ground arith

    whole : ltb timeslots n ≡ true → total timeslots d.da ≡ sum_from dur (n - timeslots) timeslots
    whole e = h.sum ∙ rw (many e)

-- After `n` saves, fewer than 2 ^ 31, the average that a node shows is that of its last 100 durations,
-- rounded down, if there are more than 100 and the last 100 add up to less than 2 ^ 64; with at most
-- 100 durations it is 0.
pub saves-average :
    (dur : ℕ → ℕ) (n : ℕ)
    → n < 2 ^ 31
    → sum_from dur (n - timeslots) timeslots < 2 ^ 64
    → (d : Durations) × (saves dur n ≡ some d)
      × (average d
          ≡ (if ltb timeslots n then sum_from dur (n - timeslots) timeslots / timeslots else 0))
saves-average dur n small fits =
    let (d, e, h) = saves-Saved dur n small in (d, e, Saved-average dur n d fits h)
