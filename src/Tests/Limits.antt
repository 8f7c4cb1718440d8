-- ===== src/Tests/Limits.antt =====
-- The average of many calls.
use webstore.Base.{◌≡◌, arith, some, ltb, ◌-◌, ◌/◌, if◌then◌else◌}
use webstore.Searest.Stats.{Durations, timeslots, average}
use webstore.Searest.Slots.{saves, sum_from}
use webstore.Searest.Average.{saves-average}

-- 150 calls of 0, 1, 2, ... nanoseconds
saves-average_example :
    (d : Durations) × (saves (λ k. k) 150 ≡ some d)
    × (average d ≡ (
        if ltb timeslots 150 then sum_from (λ k. k) (150 - timeslots) timeslots / timeslots else 0))
unfolding sum_from
saves-average_example = saves-average (λ k. k) 150 (omega arith) (omega arith)
