-- ===== src/Log/Stuck.antt =====
-- A signal that comes while its thread holds the mutex of the log, which is not recursive
-- (src/webstore_log.c; alarm_handler and sig_handler of src/webstore.c).
use webstore.Base.{
  arith, ◌==◌, Bool-cases, inl, inr, ℕ, ◌≡◌, refl, sym, ap, ◌∙◌, Bool, true, false, none, some,
  List, [], ◌∷◌,
}
use webstore.Base.Bytes.{Bytes}
use webstore.Threads.System.{update, update_rest, update_all}
use webstore.Base.{clash}
use webstore.Log.{
  Entry, Log, Caller, Spot, interrupted, LogStep, skip, lock, print, unlock, interrupt, resume,
  LogReach, here, later, log_start,
}
use webstore.Log.Mutex.{Printing, free, held, busy, absent, Reach-Printing, start-Printing, holder}

abbrev waits : Spot → Bool
waits (interrupted ps) = true
waits _ = false

module _ (i : ℕ) (todo : List Entry) (ps : List Bytes) (file : Bytes) where
  -- thread `i` waits for the lock that it holds, and the file is as it is
  record Halted (y : Log) : Type 0 where
    locked : y.locked ≡ true
    its : y.callers i ≡ record { todo = todo; spot = interrupted ps }
    others : (j : ℕ) → (j ≡ i → ⊥) → busy (y.callers j).spot ≡ none
    same : y.file ≡ file

  -- no thread is inside
  nobody :
      {A : Type 0} (y : Log) (k : ℕ) (rest : List Bytes)
      → Halted y
      → busy (y.callers k).spot ≡ some rest
      → waits (y.callers k).spot ≡ false
      → A
  nobody y k rest h its no_wait = elim (Bool-cases (k == i)) [
    | inl same ↦
        clash (waits (y.callers k).spot)
          (ap (λ j. waits (y.callers j).spot) (equal same)
            ∙ ap (λ (x : Caller). waits x.spot) h.its)
          no_wait
    | inr differs ↦ absent rest (sym (h.others k (λ e. ground arith)) ∙ its)
  ]
    where
      equal : (k == i) ≡ true → k ≡ i
      equal e = ground arith

  -- another thread returns at once from log_add
  returned :
      (y : Log) (k : ℕ) (c : Caller)
      → Halted y
      → busy (y.callers k).spot ≡ none
      → busy c.spot ≡ none
      → Halted (record y { callers = update y.callers k c })
  returned y k c h out new = record {
    locked = h.locked;
    its =
        update_rest y.callers k c i (λ e. absent ps (
          sym out
          ∙ ap (λ j. busy (y.callers j).spot) (sym e)
          ∙ ap (λ (x : Caller). busy x.spot) h.its))
        ∙ h.its;
    others =
        update_all y.callers k c (λ j x. (j ≡ i → ⊥) → busy x.spot ≡ none) (λ _. new)
          (λ j _. h.others j);
    same = h.same;
  }

  step-Halted : (y : Log) (k : ℕ) (z : Log) → Halted y → LogStep k y z → Halted z
  step-Halted y k _ h (skip e es at quiet) =
      returned y k _ h (ap (λ (x : Caller). busy x.spot) at) refl
  step-Halted y k _ h (lock e es qs at prints open_) = clash y.locked h.locked open_
  step-Halted y k _ h (print es q qs at) =
      nobody y k (q ∷ qs) h (ap (λ (x : Caller). busy x.spot) at)
        (ap (λ (x : Caller). waits x.spot) at)
  step-Halted y k _ h (unlock es at) =
      nobody y k [] h (ap (λ (x : Caller). busy x.spot) at) (ap (λ (x : Caller). waits x.spot) at)
  step-Halted y k _ h (interrupt es qs at) =
      nobody y k qs h (ap (λ (x : Caller). busy x.spot) at) (ap (λ (x : Caller). waits x.spot) at)
  step-Halted y k _ h (resume es qs at open_) = clash y.locked h.locked open_

  Reach-Halted : (y z : Log) → Halted y → LogReach y z → Halted z
  Reach-Halted y _ h here = h
  Reach-Halted y z h (later w _ k way step) = step-Halted w k z (Reach-Halted y w h way) step

  caught :
      (before : Bytes) (y : Log)
      → Printing before y
      → y.callers i ≡ record { todo = todo; spot = interrupted ps }
      → y.file ≡ file
      → Halted y
  caught before y (free _ all _) at same =
      absent ps (sym (all i) ∙ ap (λ (x : Caller). busy x.spot) at)
  caught before y (held k rs locked _ others _) at same = record {
    locked = locked;
    its = at;
    others = λ j other. others j (λ e. other (e ∙ sym mine));
    same = same;
  }
    where
      mine : i ≡ k
      mine = holder y i k ps (ap (λ (x : Caller). busy x.spot) at) others

-- Once a signal has come to a thread inside log_add and its handler waits for the lock there, then
-- whatever the threads do after that, the thread never goes on, the lock is never free, and the file
-- stays as it is.
pub interrupted-for_ever :
    (opened : Bool) (before : Bytes) (calls : ℕ → List Entry) (y z : Log) (i : ℕ)
    (todo : List Entry) (ps : List Bytes)
    → LogReach (log_start opened before calls) y
    → y.callers i ≡ record { todo = todo; spot = interrupted ps }
    → LogReach y z
    → (z.callers i ≡ record { todo = todo; spot = interrupted ps })
      × (z.locked ≡ true)
      × (z.file ≡ y.file)
interrupted-for_ever opened before calls y z i todo ps way at on =
    let h =
      Reach-Halted i todo ps y.file y z
        (caught i todo ps y.file before y
          (Reach-Printing before (log_start opened before calls) y
            (start-Printing before opened calls) way)
          at refl)
        on in
    (h.its, h.locked, h.same)
