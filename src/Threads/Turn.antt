-- ===== src/Threads/Turn.antt =====
-- The threads of src/webstore_node.c and src/webstore_conn.c one at a time: a section run by itself,
-- and sections run in turn.
use webstore.Base.{ℕ, ◌≡◌, refl, subst, List, [], ◌∷◌}
use webstore.Redis.{Redis}
use webstore.Server.{
  State, Outcome, done, exits, hangs, Returns, redis_command, handle_redis_error, log_add_to,
}
use webstore.Threads.Sections.{run, Section, ret, call, report, note}

-- a section run by itself: its result, and the database after it
unfoldable pub exec : (R : Redis) {A : Type 0} → Section A → R.Db → A × R.Db
exec R (ret a) d = (a, d)
exec R (call c next) d = let answer = R.command c d in exec R (next answer.0) answer.1
exec R (report kind errstr next) d = exec R next d
exec R (note level message next) d = exec R next d

-- the threads of `order`, the latest first, each running its whole section by itself: their results,
-- and the database after them
unfoldable pub in_turn :
    (R : Redis) {A : Type 0} → (ℕ → Section A) → R.Db → List ℕ → List (ℕ × A) × R.Db
unfolding exec
in_turn R sections d [] = ([], d)
in_turn R sections d (i ∷ order) =
    let before = in_turn R sections d order in
    let r = exec R (sections i) before.1 in ((i, r.0) ∷ before.0, r.1)

-- A section as one thread runs it, and the section by itself.
pub run-exec :
    {R : Redis} {A : Type 0} (section : Section A) (s : State R)
    → Returns (run section s) (λ r. (r.0, r.1.srv.db) ≡ exec R section s.srv.db)
unfolding run exec redis_command handle_redis_error log_add_to
run-exec (ret a) s = refl
run-exec {R} (call c next) s =
    run-exec (next (R.command c s.srv.db).0)
      (record s { srv = record s.srv { db = (R.command c s.srv.db).1 } })
run-exec (report kind errstr next) s = run-exec next _
run-exec (note level message next) s = run-exec next _

-- What holds of the result and the database of a run holds of the section by itself.
pub exec-run :
    {R : Redis} {A : Type 0} (section : Section A) (s : State R) (P : A × R.Db → Type 0)
    → Returns (run section s) (λ r. P (r.0, r.1.srv.db))
    → P (exec R section s.srv.db)
exec-run {R} {A} section s P h = go (run section s) h (run-exec section s)
  where
    go :
        (o : Outcome (A × State R))
        → Returns o (λ r. P (r.0, r.1.srv.db))
        → Returns o (λ r. (r.0, r.1.srv.db) ≡ exec R section s.srv.db)
        → P (exec R section s.srv.db)
    go (done r) holds e = subst P e holds
    go (exits n) holds e = absurd holds
    go hangs holds e = absurd holds
