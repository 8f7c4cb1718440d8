-- ===== src/Tests/Log.antt =====
-- Two threads that log, the first a line, the second a line of no known level and another.
use webstore.Base.{ℕ, zero, suc, ◌≡◌, refl, true, false, List, [], ◌∷◌, ◌++◌}
use webstore.Base.Bytes.{Bytes, text}
use webstore.Server.{level_str}
use webstore.Threads.System.{update}
use webstore.Log.{
  Entry, Log, Caller, outside, inside, interrupted, pieces, log_prints, skip, lock, print, unlock,
  interrupt, LogReach, here, later, log_start,
}
use webstore.Log.Mutex.{lines}
use webstore.Log.Lines.{printing, of_caller, lines_whole}
use webstore.Log.Stuck.{interrupted-for_ever}

abbrev info_line : Entry
info_line = record { level = 1; timestamp = text "0"; message = text "a" }

abbrev no_line : Entry
no_line = record { level = 9; timestamp = text "0"; message = text "b" }

abbrev error_line : Entry
error_line = record { level = 3; timestamp = text "1"; message = text "c" }

abbrev calls : ℕ → List Entry
calls zero = info_line ∷ []
calls (suc zero) = no_line ∷ error_line ∷ []
calls _ = []

abbrev head : Bytes
head = text "0" ++ text " " ++ text "INF" ++ text " "

abbrev begin : Log
begin = log_start true (text "-") calls

abbrev caller : List Entry → List Bytes → Caller
caller todo ps = record { todo = todo; spot = inside ps }

abbrev log_at : Bytes → (ℕ → Caller) → Log
log_at file callers = record {
  opened = true;
  locked = true;
  file = file;
  callers = callers;
  written = (0, info_line) ∷ [];
}

abbrev c0 : ℕ → Caller
c0 i = record { todo = calls i; spot = outside }

abbrev c1 : ℕ → Caller
c1 = update c0 0 (caller [] (head ∷ text "a" ∷ text "\n" ∷ []))

abbrev c2 : ℕ → Caller
c2 = update c1 0 (caller [] (text "a" ∷ text "\n" ∷ []))

abbrev c3 : ℕ → Caller
c3 = update c2 1 (record { todo = error_line ∷ []; spot = outside })

to_printed : LogReach begin (log_at (text "-" ++ head) c2)
unfolding log_start log_prints pieces level_str update text
to_printed =
    later _ (log_at (text "-" ++ head) c2) 0
      (later _ (log_at (text "-") c1) 0 here (lock info_line [] _ refl refl refl))
      (print [] head _ refl)

to_header : LogReach begin (log_at (text "-" ++ head) c3)
unfolding log_start log_prints pieces level_str update text
to_header = later _ _ 1 to_printed (skip no_line (error_line ∷ []) refl refl)

abbrev c4 : ℕ → Caller
c4 = update c3 0 (caller [] (text "\n" ∷ []))

abbrev c5 : ℕ → Caller
c5 = update c4 0 (caller [] [])

abbrev after_unlock : Log
after_unlock = record {
  opened = true;
  locked = false;
  file = ((text "-" ++ head) ++ text "a") ++ text "\n";
  callers = update c5 0 (record { todo = []; spot = outside });
  written = (0, info_line) ∷ [];
}

to_unlock : LogReach begin after_unlock
unfolding log_start log_prints pieces level_str update text
to_unlock =
    later _ _ 0
      (later _ (log_at (((text "-" ++ head) ++ text "a") ++ text "\n") c5) 0
        (later _ (log_at ((text "-" ++ head) ++ text "a") c4) 0 to_header
          (print [] (text "a") _ refl))
        (print [] (text "\n") [] refl))
      (unlock [] refl)

lines_whole_example :
    (after_unlock.locked ≡ false → after_unlock.file ≡ text "-" ++ lines after_unlock.written)
    × ((j : ℕ)
        → of_caller j after_unlock.written ++ printing true (after_unlock.callers j).todo
          ≡ printing true (calls j))
lines_whole_example = lines_whole true (text "-") calls after_unlock to_unlock

abbrev c_caught : ℕ → Caller
c_caught = update c2 0 (record { todo = []; spot = interrupted (text "a" ∷ text "\n" ∷ []) })

abbrev caught : Log
caught = log_at (text "-" ++ head) c_caught

to_caught : LogReach begin caught
unfolding update
to_caught = later _ caught 0 to_printed (interrupt [] (text "a" ∷ text "\n" ∷ []) refl)

abbrev after_skip : Log
after_skip =
    log_at (text "-" ++ head)
      (update c_caught 1 (record { todo = error_line ∷ []; spot = outside }))

to_skip : LogReach caught after_skip
unfolding log_prints pieces level_str update
to_skip = later _ after_skip 1 here (skip no_line (error_line ∷ []) refl refl)

interrupted-for_ever_example :
    (after_skip.callers 0 ≡ record { todo = []; spot = interrupted (text "a" ∷ text "\n" ∷ []) })
    × (after_skip.locked ≡ true)
    × (after_skip.file ≡ text "-" ++ head)
unfolding update
interrupted-for_ever_example =
    interrupted-for_ever true (text "-") calls caught after_skip 0 [] (text "a" ∷ text "\n" ∷ [])
      to_caught refl to_skip
