-- ===== src/Threads/Serial.antt =====
-- The lock of src/rai.c makes the threads' sections run as if one after another.
use webstore.Base.{ℕ, ◌≡◌, refl, sym, ap, ◌∙◌, false}
use webstore.Redis.{Redis}
use webstore.Server.{Server}
use webstore.Threads.Sections.{Section}
use webstore.Threads.System.{System, inside, Reach, start}
use webstore.Threads.Turn.{in_turn}
use webstore.Threads.Invariant.{order, is_inside, free, held, Inv, start-Inv, Reach-Inv}
use webstore.Base.{clash}

module _ {R : Redis} {A : Type 0} (sections : ℕ → Section A) (srv : Server R) (y : System R A)
    (way : Reach (start sections srv) y) where
  abbrev always : Inv sections srv.db y
  always = Reach-Inv sections srv.db (start sections srv) y (start-Inv sections srv.db srv refl) way

  pub finished_results : y.finished ≡ (in_turn R sections srv.db (order y)).0
  finished_results = always.results

  -- Whenever the lock is free, the threads that have left have the results, and the database is, as
  -- if each had run its whole section by itself, one after another in the order they left, whatever
  -- the interleaving was.
  pub serializable :
      y.srv.locked ≡ false → (y.finished, y.srv.db) ≡ in_turn R sections srv.db (order y)
  serializable open_ = elim always.phase [
    | free _ _ db ↦
        ap (λ l. (l, y.srv.db)) always.results
        ∙ ap (λ e. ((in_turn R sections srv.db (order y)).0, e)) db
    | held _ locked _ _ ↦ clash y.srv.locked locked open_
  ]

  -- Two threads are never inside their sections at once.
  pub mutual_exclusion : (i j : ℕ) (s t : Section A) → y.pc i ≡ inside s → y.pc j ≡ inside t → i ≡ j
  mutual_exclusion i j s t at_i at_j = elim always.phase [
    | free _ empty _ ↦ clash (is_inside (y.pc i)) (ap is_inside at_i) (empty i)
    | held k _ only _ ↦ only i (ap is_inside at_i) ∙ sym (only j (ap is_inside at_j))
  ]
