-- ===== src/Main/Program.antt =====
-- The server program while it runs (src/webstore.c, main, with log_open, log_flush and log_close of
-- src/webstore_log.c): the log, the events that reach the process, and the main loop.
use webstore.Base.{
  ℕ, ◌+◌, Bool, true, false, Option, none, some, List, [], ◌∷◌, leb, length, if◌then◌else◌,
}
use webstore.Base.Bytes.{Bytes}
use webstore.Redis.{Redis}
use webstore.Server.{Server, LogLine, Outcome, done, exits, log_add_to}
use webstore.Threads.Sections.{Section, ret, call, report, note}
use webstore.Threads.System.{lose}
use webstore.Start.Launch.{Service}
use webstore.Main.{Timer, alarm_handler, Signal, sig_handler, runs}

-- `synced` lines of the log are on disk; the others may be in the buffer of the file. `closed` is
-- set when the file of g_lf has been closed, and `stuck` when a thread waits for ever on the mutex of
-- the log, which it holds.
pub record Prog (R : Redis) : Type 0 where
  pub service : Service R
  pub timer : Timer
  pub synced : ℕ
  pub closed : Bool
  pub stuck : Bool

-- What reaches the process while main sleeps: a signal, the alarm of each second, or what a
-- connection's thread does to the process, its commands, reports and log lines in order. `caught` is a
-- handler that asks for the mutex of the log and has interrupted a thread that holds it.
pub data Event : Type 0 where
  signal : Signal → Event
  alarm : Event
  connection : Section (Unit {0}) → Event
  caught : Event

-- g_lf after log_open, with the lines that this run adds; `opens` is fopen's result
unfoldable pub open_log : (Bytes → Bool) → Option Bytes → Outcome (Option (List LogLine))
open_log opens none = done none
open_log opens (some logfile) = if opens logfile then done (some []) else exits 1

unfoldable pub lines_of : Option (List LogLine) → ℕ
lines_of none = 0
lines_of (some lines) = length lines

unfoldable pub log_flush : {R : Redis} → Prog R → Prog R
unfolding lines_of
log_flush p = record p { synced = lines_of p.service.srv.log }

-- fclose writes what is in the buffer; g_lf is not set back to NULL
unfoldable pub log_close : {R : Redis} → Prog R → Prog R
unfolding log_flush
log_close p = record (log_flush p) { closed = true }

-- the alarm with its flush of the log
unfoldable pub on_alarm : {R : Redis} → Prog R → Prog R
unfolding log_flush alarm_handler
on_alarm p =
    let flushed = if leb 4 (p.timer.ticks + 1) then log_flush p else p in
    record flushed { timer = alarm_handler p.timer }

-- the process after all that a section does
unfoldable pub complete : {R : Redis} {A : Type 0} → Section A → Server R → Server R
complete (ret a) srv = srv
complete {R} (call c next) srv =
    let answer = R.command c srv.db in complete (next answer.0) (record srv { db = answer.1 })
complete (report kind errstr next) srv = complete next (lose kind errstr srv)
complete (note level message next) srv = complete next (log_add_to level message srv)

unfoldable pub handle : {R : Redis} → Event → Prog R → Prog R
unfolding on_alarm complete sig_handler
handle (signal sig) p = record p {
  service = record p.service { srv = sig_handler sig p.service.srv };
}
handle alarm p = on_alarm p
handle (connection section) p = record p {
  service = record p.service { srv = complete section p.service.srv };
}
handle caught p = record p { stuck = true }

unfoldable pub handle_all : {R : Redis} → List Event → Prog R → Prog R
unfolding handle
handle_all [] p = p
handle_all (e ∷ events) p = handle_all events (handle e p)

-- while(!g_shutdown && !g_redis_error), with an event between two tests: the state, and whether the
-- loop is still waiting when the events are over. Those that come after the last test come while main
-- goes on to stop the daemon.
unfoldable pub main_loop : {R : Redis} → List Event → Prog R → Prog R × Bool
unfolding handle handle_all runs
main_loop [] p = (p, runs p.service.srv)
main_loop (e ∷ events) p =
    let rest = main_loop events (handle e p) in
    if runs p.service.srv then rest else (handle_all (e ∷ events) p, false)
