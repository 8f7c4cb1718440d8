-- ===== src/Main/Stopped.antt =====
-- What webstore_stop leaves, whatever interrupts it that it survives (src/webstore_uhd.c).
use webstore.Base.{◌≡◌, refl, ap, Bool, true, false, Option, List, if◌then◌else◌}
use webstore.Base.Bytes.{text}
use webstore.Redis.{Redis}
use webstore.Rai.{Rai, rai_disconnect}
use webstore.Searest.{Sri, searest_stop}
use webstore.Server.{
  LogLine, Outcome, done, exits, hangs, Returns, append_line, level_str, wslog_info,
}
use webstore.Main.Program.{Prog}
use webstore.Main.Stop.{Late, next, disconnected, webstore_stop, outside_log, log_shutdown}
use webstore.Main.Steady.{Steady}
use webstore.Main.Shutdown.{calm, piped, Rests, outside_log-Rests, log_shutdown-Rests}

pub next-Returns :
    {R : Redis} {A : Type 0} (o : Outcome (Prog R)) (f : Prog R → Outcome A) (P : Prog R → Type 0)
    (Q : A → Type 0)
    → Returns o P
    → ((p : Prog R) → P p → Returns (f p) Q)
    → Returns (next o f) Q
next-Returns (done p) f P Q h k = k p h
next-Returns (exits n) f P Q h k = absurd h
next-Returns hangs f P Q h k = absurd h

abbrev pub off : Rai → Rai
off rc = record rc { has_context = false; connected = false }

disconnected-Rests :
    {R : Redis} (ws : Sri R) (rc : Rai) (log : Option (List LogLine)) (q : Prog R)
    → Rests ws rc log q
    → Returns
        (disconnected q (rai_disconnect q.service.srv.locked q.service.rc))
        (Rests ws (off rc) log)
unfolding disconnected rai_disconnect
disconnected-Rests ws rc log q r = rw r.steady.free (record {
  ws_eq = r.ws_eq;
  rc_eq = ap off r.rc_eq;
  log_eq = r.log_eq;
  steady = record { free = refl; goes_on = r.steady.goes_on };
})

unless :
    {A : Type 0} (b : Bool) (o : Outcome A) (P : A → Type 0)
    → b ≡ false
    → Returns o P
    → Returns (if b then hangs else o) P
unless b o P e h = rw e h

-- the service is stopped, with one more line in the log
pub webstore_stop-Rests :
    {R : Redis} (late : Late) (p : Prog R)
    → calm late.logging ≡ true
    → Steady p
    → Returns (webstore_stop late p) (
        Rests (searest_stop p.service.ws) (off p.service.rc) (
          append_line
            (piped late.stopping p.service.srv.log)
            (level_str wslog_info)
            (text "webstore shutdown")))
unfolding webstore_stop
webstore_stop-Rests {R} late p quiet s = unless p.stuck _ (Rests ws (off rc) log) s.goes_on (
    next-Returns {R = R} {A = Prog R} (log_shutdown late.logging before)
      (λ q. disconnected q (rai_disconnect q.service.srv.locked q.service.rc)) (Rests ws rc log)
      (Rests ws (off rc) log)
      (log_shutdown-Rests ws rc late.logging before (piped late.stopping p.service.srv.log) quiet (
        outside_log-Rests ws rc late.stopping down p.service.srv.log (record {
          ws_eq = refl;
          rc_eq = refl;
          log_eq = refl;
          steady = record { free = s.free; goes_on = s.goes_on };
        })))
      (λ q r. disconnected-Rests ws rc log q r))
  where
    ws : Sri R
    ws = searest_stop p.service.ws

    rc : Rai
    rc = p.service.rc

    down : Prog R
    down = record p { service = record p.service { ws = searest_stop p.service.ws } }

    before : Prog R
    before = outside_log late.stopping down

    log : Option (List LogLine)
    log =
        append_line (piped late.stopping p.service.srv.log) (level_str wslog_info)
          (text "webstore shutdown")
