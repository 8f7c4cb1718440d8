-- ===== src/Main/Signals.antt =====
-- The log's flushes and the end of the main loop.
use webstore.Base.{ℕ, zero, suc, ◌+◌, ◌*◌, ◌/◌, ◌%◌, ◌≡◌, ◌<◌, Bool, true, false, arith, not, ◌&&◌}
use webstore.Redis.{Redis}
use webstore.Server.{Server, log_add_to}
use webstore.Main.{Timer, alarm_handler, Signal, sighup, sigpipe, other_signal, sig_handler, runs}

-- the alarm handler after `n` alarms
pub alarms : ℕ → Timer → Timer
alarms zero t = t
alarms (suc n) t = alarms n (alarm_handler t)

-- one alarm
alarm_handler-counts :
    (t : Timer)
    → t.ticks < 4
    → (4 * (alarm_handler t).flushes + (alarm_handler t).ticks ≡ 4 * t.flushes + t.ticks + 1)
      × ((alarm_handler t).ticks < 4)
unfolding alarm_handler
alarm_handler-counts t h = (ground arith, ground arith)

-- After `n` alarms, from a count of ticks below 4, the log has been flushed once for each four
-- ticks, and the timer holds the rest.
pub alarms-flushes :
    (n : ℕ) (t : Timer)
    → t.ticks < 4
    → ((alarms n t).flushes ≡ t.flushes + (t.ticks + n) / 4)
      × ((alarms n t).ticks ≡ (t.ticks + n) % 4)
unfolding alarms
alarms-flushes zero t h = omega arith
alarms-flushes (suc n) t h =
    let s = alarm_handler-counts t h in
    let ih = alarms-flushes n (alarm_handler t) s.1 in (omega (arith, s, ih), omega (arith, s, ih))

-- the signals that ask for the end
unfoldable pub stops : Signal → Bool
stops sigpipe = false
stops other_signal = false
stops _ = true

-- After its handler ran, the main loop goes on exactly if it did before and the signal is none of SIGHUP,
-- SIGINT, SIGTERM and SIGQUIT.
pub sig_handler-runs :
    {R : Redis} (sig : Signal) (srv : Server R)
    → runs (sig_handler sig srv) ≡ (runs srv && not (stops sig))
unfolding runs sig_handler stops log_add_to
sig_handler-runs sighup srv = ground arith
sig_handler-runs _ srv = ground arith
