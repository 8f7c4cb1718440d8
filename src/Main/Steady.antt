-- ===== src/Main/Steady.antt =====
-- What stays as it is while the server program runs and stops (src/webstore.c, main).
use webstore.Base.{◌+◌, leb, ◌≡◌, refl, ◌∙◌, Bool, true, false, List, [], ◌∷◌, Bool-cases, inl, inr}
use webstore.Redis.{Redis}
use webstore.Server.{Server, log_add_to}
use webstore.Threads.Sections.{Section, ret, call, report, note}
use webstore.Threads.System.{lose}
use webstore.Main.{Signal, sighup, sig_handler, runs}
use webstore.Main.Program.{
  Prog, Event, signal, alarm, connection, caught, log_flush, on_alarm, complete, handle, handle_all,
  main_loop,
}

-- No handler that asks for the mutex of the log has interrupted a thread that holds it.
abbrev pub undisturbed : List Event → Bool
undisturbed [] = true
undisturbed (caught ∷ events) = false
undisturbed (_ ∷ events) = undisturbed events

complete-locked :
    {R : Redis} {A : Type 0} (section : Section A) (srv : Server R)
    → (complete section srv).locked ≡ srv.locked
unfolding complete log_add_to
complete-locked (ret a) srv = refl
complete-locked {R} (call c next) srv =
    complete-locked (next (R.command c srv.db).0) (record srv { db = (R.command c srv.db).1 })
complete-locked (report kind errstr next) srv = complete-locked next (lose kind errstr srv)
complete-locked (note level message next) srv = complete-locked next (log_add_to level message srv)

pub sig_handler-locked :
    {R : Redis} (sig : Signal) (srv : Server R) → (sig_handler sig srv).locked ≡ srv.locked
unfolding sig_handler log_add_to
sig_handler-locked sighup srv = refl
sig_handler-locked _ srv = refl

-- the lock on Redis is free, and no thread is stuck on the log
pub record Steady {R : Redis} (p : Prog R) : Type 0 where
  pub free : p.service.srv.locked ≡ false
  pub goes_on : p.stuck ≡ false

pub alarm-Steady : {R : Redis} (p : Prog R) → Steady p → Steady (on_alarm p)
unfolding on_alarm log_flush
alarm-Steady p s = elim (Bool-cases (leb 4 (p.timer.ticks + 1))) [
  | inl full ↦ rw full (record { free = s.free; goes_on = s.goes_on })
  | inr rest ↦ rw rest (record { free = s.free; goes_on = s.goes_on })
]

event-Steady :
    {R : Redis} (e : Event) (events : List Event) (p : Prog R)
    → undisturbed (e ∷ events) ≡ true
    → Steady p
    → Steady (handle e p) × (undisturbed events ≡ true)
unfolding handle
event-Steady (signal sig) events p h s =
    (record { free = sig_handler-locked sig p.service.srv ∙ s.free; goes_on = s.goes_on }, h)
event-Steady alarm events p h s = (alarm-Steady p s, h)
event-Steady (connection section) events p h s =
    (record { free = complete-locked section p.service.srv ∙ s.free; goes_on = s.goes_on }, h)
event-Steady caught events p h s = absurd (cc)

handle_all-Steady :
    {R : Redis} (events : List Event) (p : Prog R)
    → undisturbed events ≡ true
    → Steady p
    → Steady (handle_all events p)
unfolding handle_all
handle_all-Steady [] p h s = s
handle_all-Steady (e ∷ events) p h s =
    let (s', h') = event-Steady e events p h s in handle_all-Steady events (handle e p) h' s'

pub main_loop-Steady :
    {R : Redis} (events : List Event) (p : Prog R)
    → undisturbed events ≡ true
    → Steady p
    → Steady (main_loop events p).0
unfolding main_loop
main_loop-Steady [] p h s = s
main_loop-Steady (e ∷ events) p h s = elim (Bool-cases (runs p.service.srv)) [
  | inl on ↦
      let (s', h') = event-Steady e events p h s in
      rw on (main_loop-Steady events (handle e p) h' s')
  | inr off ↦ rw off (handle_all-Steady (e ∷ events) p h s)
]
