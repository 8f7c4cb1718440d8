-- ===== src/Log.antt =====
-- The file of the log and its mutex (src/webstore_log.c): the calls of log_add that any number of
-- threads make, step by step, and the handlers of signals that log or flush (src/webstore.c).

pub mod Mutex
pub mod Lines
pub mod Stuck
use webstore.Base.{ℕ, ◌≡◌, Bool, true, false, Option, none, some, List, [], ◌∷◌, ◌++◌}
use webstore.Base.Bytes.{Bytes, text}
use webstore.Server.{level_str}
use webstore.Threads.System.{update}

-- A call of log_add: the level, the timestamp, which is made before the lock is taken, and the
-- message that vfprintf makes of the format and its arguments.
pub record Entry : Type 0 where
  pub level : ℕ
  pub timestamp : Bytes
  pub message : Bytes

-- what the three calls of fprintf and vfprintf print, in their order
unfoldable pub pieces : Bytes → Bytes → Option Bytes → Option (List Bytes)
pieces timestamp message none = none
pieces timestamp message (some level) =
    some ((timestamp ++ text " " ++ level ++ text " ") ∷ message ∷ text "\n" ∷ [])

-- log_add up to the lock: without a file or for an unknown level it returns; `opened` is whether
-- g_lf is set.
unfoldable pub log_prints : Bool → Entry → Option (List Bytes)
unfolding pieces
log_prints false e = none
log_prints true e = pieces e.timestamp e.message (level_str e.level)

-- Outside of log_add, or between its lock and its unlock with what is still to be printed; or a
-- signal has come in between, and its handler waits for the lock in log_add or log_flush.
pub data Spot : Type 0 where
  outside : Spot
  inside interrupted : List Bytes → Spot

-- a thread: its next calls of log_add, those of its handlers outside of log_add among them
pub record Caller : Type 0 where
  pub todo : List Entry
  pub spot : Spot

-- `written` records the calls that have taken the lock, in their order, with their threads.
pub record Log : Type 0 where
  pub opened : Bool
  pub locked : Bool
  pub file : Bytes
  pub callers : ℕ → Caller
  pub written : List (ℕ × Entry)

-- A step of thread `i`. The handler of a signal can run only once its log_add or log_flush has the
-- lock; it gives it back, and the thread goes on.
pub data LogStep (i : ℕ) (y : Log) : Log → Type 0 where
  skip :
      (e : Entry) (todo : List Entry)
      → y.callers i ≡ record { todo = e ∷ todo; spot = outside }
      → log_prints y.opened e ≡ none
      → LogStep i y
          (record y { callers = update y.callers i (record { todo = todo; spot = outside }) })
  lock :
      (e : Entry) (todo : List Entry) (ps : List Bytes)
      → y.callers i ≡ record { todo = e ∷ todo; spot = outside }
      → log_prints y.opened e ≡ some ps
      → y.locked ≡ false
      → LogStep i y (record y {
        locked = true;
        callers = update y.callers i (record { todo = todo; spot = inside ps });
        written = y.written ++ (i, e) ∷ [];
      })
  print :
      (todo : List Entry) (p : Bytes) (ps : List Bytes)
      → y.callers i ≡ record { todo = todo; spot = inside (p ∷ ps) }
      → LogStep i y (record y {
        file = y.file ++ p;
        callers = update y.callers i (record { todo = todo; spot = inside ps });
      })
  unlock :
      (todo : List Entry)
      → y.callers i ≡ record { todo = todo; spot = inside [] }
      → LogStep i y (record y {
        locked = false;
        callers = update y.callers i (record { todo = todo; spot = outside });
      })
  interrupt :
      (todo : List Entry) (ps : List Bytes)
      → y.callers i ≡ record { todo = todo; spot = inside ps }
      → LogStep i y (record y {
        callers = update y.callers i (record { todo = todo; spot = interrupted ps });
      })
  resume :
      (todo : List Entry) (ps : List Bytes)
      → y.callers i ≡ record { todo = todo; spot = interrupted ps }
      → y.locked ≡ false
      → LogStep i y
          (record y { callers = update y.callers i (record { todo = todo; spot = inside ps }) })

-- the states that any interleaving of the threads can reach
pub data LogReach (y : Log) : Log → Type 0 where
  here : LogReach y y
  later : (z w : Log) (i : ℕ) → LogReach y z → LogStep i z w → LogReach y w

-- a file with what is in it, and the calls that each thread is to make
unfoldable pub log_start : Bool → Bytes → (ℕ → List Entry) → Log
log_start opened file calls = record {
  opened = opened;
  locked = false;
  file = file;
  callers = λ i. record { todo = calls i; spot = outside };
  written = [];
}
