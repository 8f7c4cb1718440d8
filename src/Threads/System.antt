-- ===== src/Threads/System.antt =====
-- The steps of threads that share one Redis context (src/rai.c, src/webstore_node.c,
-- src/webstore_conn.c): any number of connections, each with one section to run under the lock.
use webstore.Base.{
  ℕ, ◌≡◌, refl, subst, Bool-cases, inl, inr, arith, Bool, true, false, Option, none, some, List, [],
  ◌∷◌, ◌==◌, if◌then◌else◌, ◌++◌,
}
use webstore.Base.Bytes.{Bytes, text}
use webstore.Redis.{Redis, ErrorKind}
use webstore.Server.{
  State, Server, LogLine, log_add_to, wslog_err, etype, redis_command, handle_redis_error,
}
use webstore.Threads.Sections.{Section, ret, call, report, note, run}

-- the effect of handle_redis_error on the process
abbrev pub lose : {R : Redis} → ErrorKind → Bytes → Server R → Server R
lose kind errstr srv = record (log_add_to wslog_err (etype kind ++ text ": " ++ errstr) srv) {
  redis_error = true;
  shutdown = true;
}

-- The next step of a section: the rest of it, and the process after the step.
unfoldable pub advance :
    {R : Redis} {A : Type 0} → Section A → Server R → Option (Section A × Server R)
unfolding log_add_to etype
advance (ret a) srv = none
advance {R} (call c next) srv =
    let answer = R.command c srv.db in some (next answer.0, record srv { db = answer.1 })
advance (report kind errstr next) srv = some (next, lose kind errstr srv)
advance (note level message next) srv = some (next, log_add_to level message srv)

-- Waiting in pthread_mutex_lock with its section to come, inside with the rest of it, or out with the result.
pub data Pc (A : Type 0) : Type 0 where
  waiting : Section A → Pc A
  inside : Section A → Pc A
  left : A → Pc A

-- `finished` records the threads that have left with their results, the latest first.
pub record System (R : Redis) (A : Type 0) : Type 0 where
  pub srv : Server R
  pub pc : ℕ → Pc A
  pub finished : List (ℕ × A)

unfoldable pub update : {A : Type 0} → (ℕ → A) → ℕ → A → ℕ → A
update f i x j = if i == j then x else f j

-- a property of all threads is kept when one of them moves
pub update_all :
    {A : Type 0} (f : ℕ → A) (i : ℕ) (x : A) (P : ℕ → A → Type 0)
    → P i x
    → ((j : ℕ) → (j ≡ i → ⊥) → P j (f j))
    → (j : ℕ) → P j (update f i x j)
unfolding update
update_all f i x P new rest j = elim (Bool-cases (i == j)) [
  | inl same ↦ rw same (subst (λ k. P k x) (ground arith) new)
  | inr other ↦ rw other (rest j (λ e. ground arith))
]

pub update_at : {A : Type 0} (f : ℕ → A) (i : ℕ) (x : A) → update f i x i ≡ x
unfolding update
update_at f i x = elim (Bool-cases (i == i)) [ inl same ↦ rw same | inr other ↦ ground arith ]

pub update_rest :
    {A : Type 0} (f : ℕ → A) (i : ℕ) (x : A) (j : ℕ) → (j ≡ i → ⊥) → update f i x j ≡ f j
unfolding update
update_rest f i x j other = elim (Bool-cases (i == j)) [
  | inl same ↦ absurd (other (ground arith))
  | inr differs ↦ rw differs
]

-- A move of thread `i`: it takes the free lock, makes a step of its section, or releases the lock.
pub data Move {R : Redis} {A : Type 0} (i : ℕ) (y : System R A) : System R A → Type 0 where
  enter :
      (section : Section A)
      → y.pc i ≡ waiting section
      → y.srv.locked ≡ false
      → Move i y
          (record y { srv = record y.srv { locked = true }; pc = update y.pc i (inside section) })
  act :
      (section next : Section A) (srv : Server R)
      → y.pc i ≡ inside section
      → advance section y.srv ≡ some (next, srv)
      → Move i y (record y { srv = srv; pc = update y.pc i (inside next) })
  leave :
      (a : A)
      → y.pc i ≡ inside (ret a)
      → Move i y (record y {
        srv = record y.srv { locked = false };
        pc = update y.pc i (left a);
        finished = (i, a) ∷ y.finished;
      })

-- A thread moves, or the rest of the program writes the log or asks the server to stop.
pub data Step {R : Redis} {A : Type 0} (y : System R A) : System R A → Type 0 where
  move : (i : ℕ) (z : System R A) → Move i y z → Step y z
  others :
      (log : Option (List LogLine)) (shutdown redis_error : Bool)
      → Step y (record y {
        srv = record y.srv { log = log; shutdown = shutdown; redis_error = redis_error };
      })

-- the states that any interleaving of the steps can reach
pub data Reach {R : Redis} {A : Type 0} (y : System R A) : System R A → Type 0 where
  here : Reach y y
  later : (z w : System R A) → Reach y z → Step z w → Reach y w

-- the start: the lock is free, and every thread has its section to run
unfoldable pub start : {R : Redis} {A : Type 0} → (ℕ → Section A) → Server R → System R A
start sections srv = record {
  srv = record srv { locked = false };
  pc = λ i. waiting (sections i);
  finished = [];
}

-- What holds of a section and the process also holds of them after a step, for `P` that a step keeps.
abbrev pub Kept :
    {R : Redis} {A : Type 0}
    → (Section A → Server R → Type 0)
    → Option (Section A × Server R)
    → Type 0
Kept P none = Unit
Kept P (some r) = P r.0 r.1

run_advanced :
    {R : Redis} {A : Type 0} (section : Section A) (s : State R)
    → Kept (λ next srv. run section s ≡ run next (record s { srv = srv })) (advance section s.srv)
unfolding advance run redis_command handle_redis_error log_add_to
run_advanced (ret a) s = tt
run_advanced (call c next) s = refl
run_advanced (report kind errstr next) s = refl
run_advanced (note level message next) s = refl

-- A step of a section is a step of `run`.
pub advance-run :
    {R : Redis} {A : Type 0} (section next : Section A) (srv : Server R) (s : State R)
    → advance section s.srv ≡ some (next, srv)
    → run section s ≡ run next (record s { srv = srv })
advance-run section next srv s e =
    subst (Kept (λ rest t. run section s ≡ run rest (record s { srv = t }))) e
      (run_advanced section s)
