-- ===== src/Threads/Invariant.antt =====
-- What every interleaving keeps (the lock of src/rai.c around the sections).
use webstore.Base.{
  clash, ℕ, ◌≡◌, refl, sym, ap, subst, ◌∙◌, Bool, true, false, some, List, ◌∷◌, Bool-cases, inl,
  inr, map,
}
use webstore.Redis.{Redis}
use webstore.Server.{Server, log_add_to}
use webstore.Threads.Sections.{Section, ret, call, report, note}
use webstore.Threads.System.{
  System, Pc, waiting, inside, left, Move, enter, act, leave, Step, move, others, Reach, here,
  later, start, update, update_all, update_at, advance, Kept,
}
use webstore.Threads.Turn.{exec, in_turn}

-- the threads that have left, the latest first
abbrev pub order : {R : Redis} {A : Type 0} → System R A → List ℕ
order y = map (λ r. r.0) y.finished

abbrev pub is_inside : {A : Type 0} → Pc A → Bool
is_inside (inside section) = true
is_inside _ = false

-- where a thread stands, against the section that it was given and the result of it
abbrev pub HasSection : {A : Type 0} → Section A → Pc A → Type 0
HasSection given (waiting section) = section ≡ given
HasSection given _ = Unit

-- a thread inside whose section will end so
abbrev pub Ends : (R : Redis) {A : Type 0} → A × R.Db → R.Db → Pc A → Type 0
Ends R r d (inside section) = exec R section d ≡ r
Ends R r d _ = ⊥

-- Nobody is inside, and the database is that of the sections in turn; or one thread is inside, and
-- will leave it so.
pub data Phase {R : Redis} {A : Type 0} (sections : ℕ → Section A) (d : R.Db) (y : System R A)
    : Type 0 where
  free :
      y.srv.locked ≡ false
      → ((j : ℕ) → is_inside (y.pc j) ≡ false)
      → y.srv.db ≡ (in_turn R sections d (order y)).1
      → Phase sections d y
  held :
      (i : ℕ)
      → y.srv.locked ≡ true
      → ((j : ℕ) → is_inside (y.pc j) ≡ true → j ≡ i)
      → Ends R (exec R (sections i) (in_turn R sections d (order y)).1) y.srv.db (y.pc i)
      → Phase sections d y

pub record Inv {R : Redis} {A : Type 0} (sections : ℕ → Section A) (d : R.Db) (y : System R A)
    : Type 0 where
  pub phase : Phase sections d y
  pub given : (j : ℕ) → HasSection (sections j) (y.pc j)
  pub results : y.finished ≡ (in_turn R sections d (order y)).0

exec_advanced :
    {R : Redis} {A : Type 0} (section : Section A) (srv : Server R)
    → Kept
        (λ next t. (exec R section srv.db ≡ exec R next t.db) × (t.locked ≡ srv.locked))
        (advance section srv)
unfolding advance exec log_add_to
exec_advanced (ret a) srv = tt
exec_advanced (call c next) srv = (refl, refl)
exec_advanced (report kind errstr next) srv = (refl, refl)
exec_advanced (note level message next) srv = (refl, refl)

module _ {R : Redis} {A : Type 0} (sections : ℕ → Section A) (d : R.Db) where
  pub start-Inv : (srv : Server R) → srv.db ≡ d → Inv sections d (start sections srv)
  unfolding start in_turn
  start-Inv srv e = record { phase = free refl (λ j. refl) e; given = λ j. refl; results = refl }

  enter-Inv :
      (y : System R A) (i : ℕ) (section : Section A)
      → Inv sections d y
      → y.pc i ≡ waiting section
      → y.srv.locked ≡ false
      → Inv sections d
          (record y { srv = record y.srv { locked = true }; pc = update y.pc i (inside section) })
  enter-Inv y i section inv at open_ = enters inv.phase
    where
      its : section ≡ sections i
      its = subst (HasSection (sections i)) at (inv.given i)

      enters :
          Phase sections d y
          → Inv sections d (record y {
            srv = record y.srv { locked = true };
            pc = update y.pc i (inside section);
          })
      enters (held k locked only ends) = clash y.srv.locked locked open_
      enters (free _ empty db) = record {
        phase =
            held i refl
              (update_all y.pc i (inside section) (λ j p. is_inside p ≡ true → j ≡ i) (λ _. refl)
                (λ j other h. clash (is_inside (y.pc j)) h (empty j)))
              (rw (update_at y.pc i (inside section), its, db));
        given =
            update_all y.pc i (inside section) (λ j p. HasSection (sections j) p) tt
              (λ j _. inv.given j);
        results = inv.results;
      }

  exec-Ends :
      (y : System R A) (i : ℕ) (section : Section A)
      → y.pc i ≡ inside section
      → (k : ℕ) → i ≡ k
      → Ends R (exec R (sections k) (in_turn R sections d (order y)).1) y.srv.db (y.pc k)
      → exec R section y.srv.db ≡ exec R (sections i) (in_turn R sections d (order y)).1
  exec-Ends y i section at k same e =
      subst (Ends R (exec R (sections i) (in_turn R sections d (order y)).1) y.srv.db) at (
        subst
          (λ j. Ends R (exec R (sections j) (in_turn R sections d (order y)).1) y.srv.db (y.pc j))
          (sym same) e)

  act-Inv :
      (y : System R A) (i : ℕ) (section next : Section A) (srv : Server R)
      → Inv sections d y
      → y.pc i ≡ inside section
      → advance section y.srv ≡ some (next, srv)
      → Inv sections d (record y { srv = srv; pc = update y.pc i (inside next) })
  act-Inv y i section next srv inv at step = acts inv.phase
    where
      kept : (exec R section y.srv.db ≡ exec R next srv.db) × (srv.locked ≡ y.srv.locked)
      kept =
          subst
            (Kept
              (λ rest t. (exec R section y.srv.db ≡ exec R rest t.db) × (t.locked ≡ y.srv.locked)))
            step (exec_advanced section y.srv)

      in_now : is_inside (y.pc i) ≡ true
      in_now = ap is_inside at

      acts :
          Phase sections d y
          → Inv sections d (record y { srv = srv; pc = update y.pc i (inside next) })
      acts (free _ empty db) = clash (is_inside (y.pc i)) in_now (empty i)
      acts (held k locked only ends) = record {
        phase =
            held i (kept.1 ∙ locked)
              (update_all y.pc i (inside next) (λ j p. is_inside p ≡ true → j ≡ i) (λ _. refl)
                (λ j other h. only j h ∙ sym (only i in_now)))
              (rw (update_at y.pc i (inside next))
                (sym kept.0 ∙ exec-Ends y i section at k (only i in_now) ends));
        given =
            update_all y.pc i (inside next) (λ j p. HasSection (sections j) p) tt
              (λ j _. inv.given j);
        results = inv.results;
      }

  leave-Inv :
      (y : System R A) (i : ℕ) (a : A)
      → Inv sections d y
      → y.pc i ≡ inside (ret a)
      → Inv sections d (record y {
        srv = record y.srv { locked = false };
        pc = update y.pc i (left a);
        finished = (i, a) ∷ y.finished;
      })
  unfolding in_turn exec
  leave-Inv y i a inv at = leaves inv.phase
    where
      in_now : is_inside (y.pc i) ≡ true
      in_now = ap is_inside at

      leaves :
          Phase sections d y
          → Inv sections d (record y {
            srv = record y.srv { locked = false };
            pc = update y.pc i (left a);
            finished = (i, a) ∷ y.finished;
          })
      leaves (free _ empty db) = clash (is_inside (y.pc i)) in_now (empty i)
      leaves (held k locked only ends) = record {
        phase =
            free refl
              (update_all y.pc i (left a) (λ j p. is_inside p ≡ false) refl (outside k only))
              (ap (λ r. r.1) (done_ k (only i in_now) ends));
        given =
            update_all y.pc i (left a) (λ j p. HasSection (sections j) p) tt (λ j _. inv.given j);
        results =
            ap (λ r. (i, r.0) ∷ y.finished) (done_ k (only i in_now) ends)
            ∙ ap (λ l. (i, (exec R (sections i) (in_turn R sections d (order y)).1).0) ∷ l)
                inv.results;
      }
        where
          outside :
              (k : ℕ)
              → ((j : ℕ) → is_inside (y.pc j) ≡ true → j ≡ k)
              → (j : ℕ) → (j ≡ i → ⊥)
              → is_inside (y.pc j) ≡ false
          outside k only j other = elim (Bool-cases (is_inside (y.pc j))) [
            | inl here_ ↦ absurd (other (only j here_ ∙ sym (only i in_now)))
            | inr out ↦ out
          ]

          done_ :
              (k : ℕ)
              → i ≡ k
              → Ends R (exec R (sections k) (in_turn R sections d (order y)).1) y.srv.db (y.pc k)
              → (a, y.srv.db) ≡ exec R (sections i) (in_turn R sections d (order y)).1
          done_ k same e = exec-Ends y i (ret a) at k same e

  Move-Inv :
      (y : System R A) (i : ℕ) (z : System R A) → Inv sections d y → Move i y z → Inv sections d z
  Move-Inv y i _ inv (enter section at open_) = enter-Inv y i section inv at open_
  Move-Inv y i _ inv (act section next srv at step) = act-Inv y i section next srv inv at step
  Move-Inv y i _ inv (leave a at) = leave-Inv y i a inv at

  Step-Inv : (y z : System R A) → Inv sections d y → Step y z → Inv sections d z
  Step-Inv y _ inv (move i z m) = Move-Inv y i z inv m
  Step-Inv y _ inv (others log shutdown redis_error) = record {
    phase = same inv.phase;
    given = inv.given;
    results = inv.results;
  }
    where
      same :
          Phase sections d y
          → Phase sections d (record y {
            srv = record y.srv { log = log; shutdown = shutdown; redis_error = redis_error };
          })
      same (free locked empty db) = free locked empty db
      same (held i locked only ends) = held i locked only ends

  pub Reach-Inv : (y z : System R A) → Inv sections d y → Reach y z → Inv sections d z
  Reach-Inv y _ inv here = inv
  Reach-Inv y _ inv (later z w way step) = Step-Inv z w (Reach-Inv y z inv way) step
