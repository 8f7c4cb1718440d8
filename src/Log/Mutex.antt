-- ===== src/Log/Mutex.antt =====
-- The mutex of the log (src/webstore_log.c): one thread prints at a time, and what it has still to
-- print completes its line.
use webstore.Base.{
  ℕ, ◌≡◌, refl, sym, ap, subst, ◌∙◌, Bool, true, false, Option, none, some, List, [], ◌∷◌, ◌++◌,
  append_assoc, append-nil, ◌==◌, Bool-cases, inl, inr, arith,
}
use webstore.Base.{clash}
use mathlib.Core.Option.{some-injective, none-ne-some}
use webstore.Base.Bytes.{Bytes, text}
use webstore.Server.{level_str}
use webstore.Threads.System.{update, update_at, update_rest, update_all}
use webstore.Log.{
  Entry, Log, Caller, Spot, outside, inside, interrupted, pieces, log_prints, LogStep, skip, lock,
  print, unlock, interrupt, resume, LogReach, here, later, log_start,
}

-- the thread is between its lock and its unlock, with this to print
abbrev pub busy : Spot → Option (List Bytes)
busy outside = none
busy (inside ps) = some ps
busy (interrupted ps) = some ps

abbrev pub join : List Bytes → Bytes
join [] = []
join (p ∷ ps) = p ++ join ps

line_at : Bytes → Bytes → Option Bytes → Bytes
line_at timestamp message none = []
line_at timestamp message (some level) =
    timestamp ++ text " " ++ level ++ text " " ++ message ++ text "\n"

-- the line of a call
unfoldable pub line : Entry → Bytes
unfolding line_at
line e = line_at e.timestamp e.message (level_str e.level)

unfoldable pub lines : List (ℕ × Entry) → Bytes
unfolding line
lines [] = []
lines (r ∷ rs) = line r.1 ++ lines rs

pub lines-append :
    (rs : List (ℕ × Entry)) (i : ℕ) (e : Entry) → lines (rs ++ (i, e) ∷ []) ≡ lines rs ++ line e
unfolding lines
lines-append [] i e = append-nil (line e)
lines-append (r ∷ rs) i e =
    rw (lines-append rs i e) (sym (append_assoc (line r.1) (lines rs) (line e)))

pub absent : {A : Type 0} {B : Type 0} (x : A) → ◌≡◌ {A = Option A} none (some x) → B
absent x e = absurd (none-ne-some x e)

line_pieces :
    (timestamp message : Bytes) (level : Option Bytes) (ps : List Bytes)
    → pieces timestamp message level ≡ some ps
    → join ps ≡ line_at timestamp message level
unfolding pieces line_at
line_pieces timestamp message none ps e = absent ps e
line_pieces timestamp message (some level) ps e =
    subst (λ o. joined o ≡ line_at timestamp message (some level)) e
      (simp (append_assoc, append-nil))
  where
    joined : Option (List Bytes) → Bytes
    joined none = []
    joined (some qs) = join qs

-- What is printed of a call is its line.
pub prints-line :
    (opened : Bool) (e : Entry) (ps : List Bytes) → log_prints opened e ≡ some ps → join ps ≡ line e
unfolding log_prints line
prints-line true e ps h = line_pieces e.timestamp e.message (level_str e.level) ps h
prints-line false e ps h = absent ps h

-- Nobody is between lock and unlock, and the file has whole lines only; or one thread is, and what it
-- has still to print makes them whole.
pub data Printing (before : Bytes) (y : Log) : Type 0 where
  free :
      y.locked ≡ false
      → ((j : ℕ) → busy (y.callers j).spot ≡ none)
      → y.file ≡ before ++ lines y.written
      → Printing before y
  held :
      (i : ℕ) (ps : List Bytes)
      → y.locked ≡ true
      → busy (y.callers i).spot ≡ some ps
      → ((j : ℕ) → (j ≡ i → ⊥) → busy (y.callers j).spot ≡ none)
      → y.file ++ join ps ≡ before ++ lines y.written
      → Printing before y

-- a busy thread is the one that holds the lock
pub holder :
    (y : Log) (i k : ℕ) (ps : List Bytes)
    → busy (y.callers i).spot ≡ some ps
    → ((j : ℕ) → (j ≡ k → ⊥) → busy (y.callers j).spot ≡ none)
    → i ≡ k
holder y i k ps e others = elim (Bool-cases (i == k)) [
  | inl same ↦ ground arith
  | inr differs ↦ absent ps (sym (others i (λ h. ground arith)) ∙ e)
]

module _ (before : Bytes) where
  -- a thread that holds the lock makes a step, and still holds it
  goes_on :
      (y : Log) (i : ℕ) (c : Caller) (ps qs : List Bytes) (file : Bytes)
      → Printing before y
      → busy (y.callers i).spot ≡ some ps
      → busy c.spot ≡ some qs
      → file ++ join qs ≡ y.file ++ join ps
      → Printing before (record y { file = file; callers = update y.callers i c })
  goes_on y i c ps qs file (free _ all _) at new same = absent ps (sym (all i) ∙ at)
  goes_on y i c ps qs file (held k rs locked its others whole) at new same =
      held i qs locked (ap (λ (x : Caller). busy x.spot) (update_at y.callers i c) ∙ new)
        (λ j other.
          ap (λ (x : Caller). busy x.spot) (update_rest y.callers i c j other)
          ∙ others j (λ e. other (e ∙ sym mine)))
        (same ∙ ap (λ p. y.file ++ join p) left_over ∙ whole)
    where
      mine : i ≡ k
      mine = holder y i k ps at others

      left_over : ps ≡ rs
      left_over = some-injective ps rs (sym at ∙ ap (λ j. busy (y.callers j).spot) mine ∙ its)

  -- a thread outside stays outside
  passes :
      (y : Log) (i : ℕ) (c : Caller)
      → Printing before y
      → busy (y.callers i).spot ≡ none
      → busy c.spot ≡ none
      → Printing before (record y { callers = update y.callers i c })
  passes y i c inv at new = passed inv
    where
      quiet :
          (P : ℕ → Type 0)
          → ((j : ℕ) → P j → busy (y.callers j).spot ≡ none)
          → (j : ℕ) → P j
          → busy (update y.callers i c j).spot ≡ none
      quiet P all =
          update_all y.callers i c (λ j x. P j → busy x.spot ≡ none) (λ _. new) (λ j other. all j)

      passed : Printing before y → Printing before (record y { callers = update y.callers i c })
      passed (free open_ all whole) = free open_ (λ j. quiet (λ _. Unit) (λ k _. all k) j tt) whole
      passed (held k rs locked its others whole) =
          held k rs locked
            (ap (λ (x : Caller). busy x.spot)
                (update_rest y.callers i c k
                  (λ e. absent rs (sym at ∙ ap (λ j. busy (y.callers j).spot) (sym e) ∙ its)))
              ∙ its)
            (quiet (λ j. j ≡ k → ⊥) others) whole

  takes :
      (y : Log) (i : ℕ) (e : Entry) (todo : List Entry) (ps : List Bytes)
      → Printing before y
      → log_prints y.opened e ≡ some ps
      → y.locked ≡ false
      → Printing before (record y {
        locked = true;
        callers = update y.callers i (record { todo = todo; spot = inside ps });
        written = y.written ++ (i, e) ∷ [];
      })
  takes y i e todo ps (held _ _ locked _ _ _) prints open_ = clash y.locked locked open_
  takes y i e todo ps (free _ all whole) prints open_ =
      held i ps refl (ap (λ (x : Caller). busy x.spot) (update_at y.callers i _))
        (λ j other. ap (λ (x : Caller). busy x.spot) (update_rest y.callers i _ j other) ∙ all j)
        (rw (whole, prints-line y.opened e ps prints, lines-append y.written i e)
          (append_assoc before (lines y.written) (line e)))

  releases :
      (y : Log) (i : ℕ) (todo : List Entry)
      → Printing before y
      → busy (y.callers i).spot ≡ some []
      → Printing before (record y {
        locked = false;
        callers = update y.callers i (record { todo = todo; spot = outside });
      })
  releases y i todo (free _ all _) at = absent [] (sym (all i) ∙ at)
  releases y i todo (held k rs locked its others whole) at =
      free refl
        (update_all y.callers i _ (λ j x. busy x.spot ≡ none) refl
          (λ j other. others j (λ e. other (e ∙ sym mine))))
        (sym (append-nil y.file) ∙ ap (λ p. y.file ++ join p) left_over ∙ whole)
    where
      mine : i ≡ k
      mine = holder y i k [] at others

      left_over : [] ≡ rs
      left_over = some-injective [] rs (sym at ∙ ap (λ j. busy (y.callers j).spot) mine ∙ its)

  pub step-Printing :
      (y : Log) (i : ℕ) (z : Log) → Printing before y → LogStep i y z → Printing before z
  step-Printing y i _ inv (skip e todo at quiet) =
      passes y i _ inv (ap (λ (x : Caller). busy x.spot) at) refl
  step-Printing y i _ inv (lock e todo ps at prints open_) = takes y i e todo ps inv prints open_
  step-Printing y i _ inv (print todo p ps at) =
      goes_on y i _ (p ∷ ps) ps (y.file ++ p) inv (ap (λ (x : Caller). busy x.spot) at) refl
        (append_assoc y.file p (join ps))
  step-Printing y i _ inv (unlock todo at) =
      releases y i todo inv (ap (λ (x : Caller). busy x.spot) at)
  step-Printing y i _ inv (interrupt todo ps at) =
      goes_on y i _ ps ps y.file inv (ap (λ (x : Caller). busy x.spot) at) refl refl
  step-Printing y i _ inv (resume todo ps at open_) =
      goes_on y i _ ps ps y.file inv (ap (λ (x : Caller). busy x.spot) at) refl refl

  pub Reach-Printing : (y z : Log) → Printing before y → LogReach y z → Printing before z
  Reach-Printing y _ inv here = inv
  Reach-Printing y z inv (later w _ i way step) =
      step-Printing w i z (Reach-Printing y w inv way) step

  pub start-Printing :
      (opened : Bool) (calls : ℕ → List Entry) → Printing before (log_start opened before calls)
  unfolding log_start lines
  start-Printing opened calls = free refl (λ j. refl) (sym (append-nil before))
