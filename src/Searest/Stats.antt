-- ===== src/Searest/Stats.antt =====
-- The durations of a node's calls, in a build with SRNODECHRONOMETRY: searest_node_save_time and
-- searest_node_get_avg_duration of src/searest_nodelist.c, and print_avg_nodecb_time of
-- src/webstore_uhd.c. A duration is what chron_stop gives, nanoseconds of a clock that does not go back.
use webstore.Base.{
  ℕ, zero, suc, ◌+◌, ◌/◌, ◌%◌, ◌^◌, Bool, false, ◌&&◌, ◌||◌, Option, none, some, List, [], ◌∷◌,
  ◌++◌, ltb, ◌==◌, if◌then◌else◌,
}
use webstore.Base.Int.{ℤ, pos, negsuc, ltb_ℤ}
use webstore.Base.Bytes.{Bytes, text}
use webstore.Base.Decimal.{decimal_ℤ}
use webstore.Redis.{Redis}
use webstore.Searest.{Srn}
use webstore.Searest.Nodes.{searest_node_find}

abbrev pub timeslots : ℕ
timeslots = 100

-- dai, da and statsready of srn_t
pub record Durations : Type 0 where
  pub dai : ℕ
  pub da : ℕ → ℕ
  pub statsready : Bool

-- calloc
abbrev pub no_durations : Durations
no_durations = record { dai = 0; da = λ i. 0; statsready = false }

abbrev pub set_slot : (ℕ → ℕ) → ℕ → ℕ → ℕ → ℕ
set_slot da i duration j = if j == i then duration else da j

-- the durations after one more, in the slot of `dai`
abbrev pub stored : ℕ → Durations → Durations
stored duration n = record {
  dai = n.dai + 1;
  da = set_slot n.da (n.dai % timeslots) duration;
  statsready = n.statsready || (ltb 1 (n.dai + 1) && n.dai % timeslots == 0);
}

-- none is the overflow of the int `dai`, which C leaves undefined
unfoldable pub searest_node_save_time : ℕ → Durations → Option Durations
searest_node_save_time duration n =
    if ltb (n.dai + 1) (2 ^ 31) then some (stored duration n) else none

-- for(i=0; i<k; i++) { total += n->da[i]; }, before the unsigned long wraps
unfoldable pub total : ℕ → (ℕ → ℕ) → ℕ
total zero da = 0
total (suc k) da = total k da + da k

unfoldable pub average : Durations → ℕ
unfolding total
average n = (if n.statsready then total timeslots n.da % 2 ^ 64 else 0) / timeslots

-- `stats` holds the durations of the node at each place of the list
unfoldable pub searest_node_get_avg_duration :
    {R : Redis} → List (Srn R) → (ℕ → Durations) → Bytes → ℤ
unfolding average
searest_node_get_avg_duration nodes stats rootname = elim (searest_node_find rootname nodes) [
  | none ↦ negsuc 0
  | some (i, n) ↦ pos (average (stats i))
]

-- printf("%3s: %ldns\n", label, avg), of a label of three characters
print_avg : Bytes → ℤ → Bytes
print_avg label avg =
    if ltb_ℤ (pos 0) avg
    then label ++ (text ": " ++ (decimal_ℤ avg ++ (text "ns" ++ 10 ∷ [])))
    else []

-- none is a g_srv that is NULL
print_avg_nodecb_time : {R : Redis} → Option (List (Srn R)) → (ℕ → Durations) → Bytes
unfolding print_avg searest_node_get_avg_duration
print_avg_nodecb_time none stats = []
print_avg_nodecb_time (some nodes) stats =
    print_avg (text "128") (searest_node_get_avg_duration nodes stats (text "/store/128/"))
    ++ (print_avg (text "160") (searest_node_get_avg_duration nodes stats (text "/store/160/"))
        ++ (print_avg (text "224") (searest_node_get_avg_duration nodes stats (text "/store/224/"))
            ++ (print_avg (text "256")
                  (searest_node_get_avg_duration nodes stats (text "/store/256/"))
                ++ (print_avg (text "384")
                      (searest_node_get_avg_duration nodes stats (text "/store/384/"))
                    ++ print_avg (text "512")
                        (searest_node_get_avg_duration nodes stats (text "/store/512/"))))))
