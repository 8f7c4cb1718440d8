-- ===== src/Log/Lines.antt =====
-- What the file of the log holds, whatever the order in which the threads run (log_add of
-- src/webstore_log.c).
use webstore.Base.{
  ==-refl, ℕ, ◌≡◌, refl, ap, ◌∙◌, Bool, false, Option, none, some, List, [], ◌∷◌, ◌++◌,
  append_assoc, ◌==◌, if◌then◌else◌, Bool-cases, inl, inr, arith,
}
use webstore.Base.Bytes.{Bytes}
use webstore.Threads.System.{update, update_all}
use webstore.Base.{clash}
use webstore.Log.{
  Entry, Log, Caller, log_prints, LogStep, skip, lock, print, unlock, interrupt, resume, LogReach,
  here, later, log_start,
}
use webstore.Log.Mutex.{Printing, free, held, Reach-Printing, start-Printing, lines}

-- the calls that print: those of a known level, if there is a file
add_if : Option (List Bytes) → Entry → List Entry → List Entry
add_if none e rest = rest
add_if (some ps) e rest = e ∷ rest

unfoldable pub printing : Bool → List Entry → List Entry
unfolding add_if
printing opened [] = []
printing opened (e ∷ es) = add_if (log_prints opened e) e (printing opened es)

-- the calls of one thread, in their order
unfoldable pub of_caller : ℕ → List (ℕ × Entry) → List Entry
of_caller j [] = []
of_caller j (r ∷ rs) = let rest = of_caller j rs in if r.0 == j then r.1 ∷ rest else rest

-- what thread `j` has written, and what it has still to write
unfoldable pub all_of : ℕ → Log → List Entry
unfolding printing of_caller
all_of j y = of_caller j y.written ++ printing y.opened (y.callers j).todo

of_caller-mine :
    (i : ℕ) (e : Entry) (rs : List (ℕ × Entry))
    → of_caller i (rs ++ (i, e) ∷ []) ≡ of_caller i rs ++ e ∷ []
unfolding of_caller
of_caller-mine i e [] = rw (==-refl i) refl
of_caller-mine i e (r ∷ rs) = elim (Bool-cases (r.0 == i)) [
  | inl mine ↦ rw (mine, of_caller-mine i e rs) refl
  | inr theirs ↦ rw (theirs, of_caller-mine i e rs) refl
]

of_caller-other :
    (i j : ℕ) (e : Entry) (rs : List (ℕ × Entry))
    → (j ≡ i → ⊥)
    → of_caller j (rs ++ (i, e) ∷ []) ≡ of_caller j rs
unfolding of_caller
of_caller-other i j e [] other = elim (Bool-cases (i == j)) [
  | inl same ↦ absurd (other (ground arith))
  | inr differs ↦ rw differs refl
]
of_caller-other i j e (r ∷ rs) other = rw (of_caller-other i j e rs other) refl

-- a step that writes nothing, of a thread whose calls to come stay the same
same_todo :
    (y : Log) (i : ℕ) (c : Caller)
    → printing y.opened c.todo ≡ printing y.opened (y.callers i).todo
    → (j : ℕ)
    → of_caller j y.written ++ printing y.opened (update y.callers i c j).todo ≡ all_of j y
unfolding all_of
same_todo y i c e =
    update_all y.callers i c (λ j x. of_caller j y.written ++ printing y.opened x.todo ≡ all_of j y)
      (ap (λ l. of_caller i y.written ++ l) e) (λ j other. refl)

-- A step takes nothing from what the threads write, and adds nothing.
step-all_of : (y : Log) (i : ℕ) (z : Log) → LogStep i y z → (j : ℕ) → all_of j z ≡ all_of j y
unfolding all_of printing add_if
step-all_of y i _ (skip e todo at quiet) = same_todo y i _ (rw (at, quiet) refl)
step-all_of y i _ (lock e todo ps at prints open_) =
    update_all y.callers i _
      (λ j x. of_caller j (y.written ++ (i, e) ∷ []) ++ printing y.opened x.todo ≡ all_of j y)
      (rw (at, prints, of_caller-mine i e y.written)
        (append_assoc (of_caller i y.written) (e ∷ []) (printing y.opened todo)))
      (λ j other. rw (of_caller-other i j e y.written other) refl)
step-all_of y i _ (print todo p ps at) = same_todo y i _ (rw at refl)
step-all_of y i _ (unlock todo at) = same_todo y i _ (rw at refl)
step-all_of y i _ (interrupt todo ps at) = same_todo y i _ (rw at refl)
step-all_of y i _ (resume todo ps at open_) = same_todo y i _ (rw at refl)

Reach-all_of : (y z : Log) → LogReach y z → (j : ℕ) → all_of j z ≡ all_of j y
Reach-all_of y _ here j = refl
Reach-all_of y z (later w _ i way step) j = step-all_of w i z step j ∙ Reach-all_of y w way j

start-all_of :
    (opened : Bool) (before : Bytes) (calls : ℕ → List Entry) (j : ℕ)
    → all_of j (log_start opened before calls) ≡ printing opened (calls j)
unfolding all_of log_start of_caller
start-all_of opened before calls j = refl

whole_lines :
    (before : Bytes) (y : Log)
    → Printing before y
    → y.locked ≡ false
    → y.file ≡ before ++ lines y.written
whole_lines before y (free _ _ whole) open_ = whole
whole_lines before y (held _ _ locked _ _ _) open_ = clash y.locked locked open_

-- Whatever the interleaving, whenever the lock is free the file is what it was followed by whole
-- lines, one for each call that has taken the lock; and what a thread has written, with what it has
-- still to write, is at all times its calls that print, in their order.
pub lines_whole :
    (opened : Bool) (before : Bytes) (calls : ℕ → List Entry) (y : Log)
    → LogReach (log_start opened before calls) y
    → (y.locked ≡ false → y.file ≡ before ++ lines y.written)
      × ((j : ℕ)
          → of_caller j y.written ++ printing y.opened (y.callers j).todo
            ≡ printing opened (calls j))
unfolding all_of
lines_whole opened before calls y way = (
  whole_lines before y (
      Reach-Printing before (log_start opened before calls) y (start-Printing before opened calls)
        way),
  λ j. Reach-all_of (log_start opened before calls) y way j ∙ start-all_of opened before calls j,
)
