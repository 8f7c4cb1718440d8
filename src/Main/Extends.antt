-- ===== src/Main/Extends.antt =====
-- The log only grows while the program runs (src/webstore.c, main).
use webstore.Base.{
  ℕ, ◌+◌, leb, ◌≡◌, refl, ap, subst, ◌∙◌, Option, none, some, List, [], ◌∷◌, ◌++◌, append_assoc,
  append-nil, sym, Bool-cases, inl, inr,
}
use webstore.Base.Bytes.{Bytes, text}
use webstore.Redis.{Redis, ErrorKind}
use webstore.Server.{Server, LogLine, log_add_to, append_line, level_str, wslog_err, etype}
use webstore.Threads.System.{lose}
use webstore.Threads.Sections.{Section, ret, call, report, note}
use webstore.Main.{Signal, sigpipe, sig_handler, runs}
use webstore.Main.Program.{
  Prog, Event, signal, alarm, connection, caught, log_flush, handle_all, on_alarm, complete, handle,
  main_loop,
}

-- `l'` is the log `l` with more lines at its end, or there is no log in both
abbrev pub Extends : Option (List LogLine) → Option (List LogLine) → Type 0
Extends none l' = l' ≡ none
Extends (some lines) l' = (more : List LogLine) × (l' ≡ some (lines ++ more))

pub Extends-refl : (l : Option (List LogLine)) → Extends l l
Extends-refl none = refl
Extends-refl (some lines) = ([], ap some (sym (append-nil lines)))

pub Extends-trans : (a b c : Option (List LogLine)) → Extends a b → Extends b c → Extends a c
Extends-trans none b c e h = subst (λ l. Extends l c) e h
Extends-trans (some lines) b c (more, e) h =
    (more ++ (further h).0, (further h).1 ∙ ap some (append_assoc lines more (further h).0))
  where
    further : Extends b c → (rest : List LogLine) × (c ≡ some ((lines ++ more) ++ rest))
    further k = subst (λ l. Extends l c) e k

pub append_line-Extends :
    (l : Option (List LogLine)) (level : Option Bytes) (message : Bytes)
    → Extends l (append_line l level message)
unfolding append_line
append_line-Extends none level message = refl
append_line-Extends (some lines) none message = Extends-refl (some lines)
append_line-Extends (some lines) (some level) message = (_, refl)

pub log_add_to-Extends :
    {R : Redis} (level : ℕ) (message : Bytes) (srv : Server R)
    → Extends srv.log (log_add_to level message srv).log
unfolding log_add_to
log_add_to-Extends level message srv = append_line-Extends srv.log (level_str level) message

lose-Extends :
    {R : Redis} (kind : ErrorKind) (errstr : Bytes) (srv : Server R)
    → Extends srv.log (lose kind errstr srv).log
lose-Extends kind errstr srv = log_add_to-Extends wslog_err (etype kind ++ text ": " ++ errstr) srv

complete-Extends :
    {R : Redis} {A : Type 0} (section : Section A) (srv : Server R)
    → Extends srv.log (complete section srv).log
unfolding complete
complete-Extends (ret a) srv = Extends-refl srv.log
complete-Extends {R} (call c next) srv =
    complete-Extends (next (R.command c srv.db).0) (record srv { db = (R.command c srv.db).1 })
complete-Extends (report kind errstr next) srv =
    Extends-trans srv.log (lose kind errstr srv).log _ (lose-Extends kind errstr srv)
      (complete-Extends next (lose kind errstr srv))
complete-Extends (note level message next) srv =
    Extends-trans srv.log (log_add_to level message srv).log _
      (log_add_to-Extends level message srv) (complete-Extends next (log_add_to level message srv))

sig_handler-Extends :
    {R : Redis} (sig : Signal) (srv : Server R) → Extends srv.log (sig_handler sig srv).log
unfolding sig_handler
sig_handler-Extends sigpipe srv = log_add_to-Extends wslog_err (text "SIGPIPE") srv
sig_handler-Extends _ srv = Extends-refl srv.log

alarm_log : {R : Redis} (p : Prog R) → (on_alarm p).service.srv ≡ p.service.srv
unfolding on_alarm log_flush
alarm_log p = elim (Bool-cases (leb 4 (p.timer.ticks + 1))) [
  | inl full ↦ rw full
  | inr rest ↦ rw rest
]

pub handle-Extends :
    {R : Redis} (e : Event) (p : Prog R) → Extends p.service.srv.log (handle e p).service.srv.log
unfolding handle
handle-Extends (signal sig) p = sig_handler-Extends sig p.service.srv
handle-Extends alarm p = rw (alarm_log p) (Extends-refl p.service.srv.log)
handle-Extends (connection section) p = complete-Extends section p.service.srv
handle-Extends caught p = Extends-refl p.service.srv.log

pub handle_all-Extends :
    {R : Redis} (events : List Event) (p : Prog R)
    → Extends p.service.srv.log (handle_all events p).service.srv.log
unfolding handle_all
handle_all-Extends [] p = Extends-refl p.service.srv.log
handle_all-Extends (e ∷ events) p =
    Extends-trans p.service.srv.log (handle e p).service.srv.log _ (handle-Extends e p)
      (handle_all-Extends events (handle e p))

pub main_loop-Extends :
    {R : Redis} (events : List Event) (p : Prog R)
    → Extends p.service.srv.log (main_loop events p).0.service.srv.log
unfolding main_loop
main_loop-Extends [] p = Extends-refl p.service.srv.log
main_loop-Extends (e ∷ events) p = elim (Bool-cases (runs p.service.srv)) [
  | inl on ↦ rw on (
      Extends-trans p.service.srv.log (handle e p).service.srv.log _ (handle-Extends e p)
        (main_loop-Extends events (handle e p)))
  | inr off ↦ rw off (handle_all-Extends (e ∷ events) p)
]
