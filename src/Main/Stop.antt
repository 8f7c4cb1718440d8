-- ===== src/Main/Stop.antt =====
-- The end of the server program (webstore_stop of src/webstore_uhd.c, log_close of
-- src/webstore_log.c, and main of src/webstore.c after its loop), with the signals and the alarms
-- that still come.
use webstore.Base.{
  ◌+◌, Bool, true, false, ◌&&◌, Option, none, some, List, [], ◌∷◌, leb, if◌then◌else◌,
}
use webstore.Base.Bytes.{text}
use webstore.Redis.{Redis}
use webstore.Rai.{Rai, rai_disconnect}
use webstore.Server.{LogLine, Outcome, done, exits, hangs, log_add_to, wslog_info}
use webstore.Searest.{searest_stop}
use webstore.Main.{Signal, sigpipe}
use webstore.Main.Program.{Prog, Event, signal, alarm, handle, log_close}

-- what still interrupts main when the daemon has stopped; a handler ends before the next one comes
pub data Interrupt : Type 0 where
  interrupt : Signal → Interrupt
  tick : Interrupt

abbrev pub event_of : Interrupt → Event
event_of (interrupt sig) = signal sig
event_of tick = alarm

-- When an interrupt comes: before the line on the shutdown, inside its log_add, then before log_close,
-- inside that, and after it.
pub record Late : Type 0 where
  pub stopping : List Interrupt
  pub logging : List Interrupt
  pub leaving : List Interrupt
  pub closing : List Interrupt
  pub ending : List Interrupt

unfoldable pub has_log : Option (List LogLine) → Bool
has_log none = false
has_log (some lines) = true

-- Whether the handler asks for the mutex of the log: log_add returns before it without a file, and
-- log_flush does not.
unfoldable pub asks_log : {R : Redis} → Prog R → Interrupt → Bool
unfolding has_log
asks_log p (interrupt sigpipe) = has_log p.service.srv.log
asks_log p (interrupt _) = false
asks_log p tick = leb 4 (p.timer.ticks + 1)

-- interrupts while main does not hold the mutex
unfoldable pub outside_log : {R : Redis} → List Interrupt → Prog R → Prog R
unfolding handle
outside_log [] p = p
outside_log (x ∷ xs) p = outside_log xs (handle (event_of x) p)

-- interrupts while main holds it: a handler that asks for it waits for ever
unfoldable pub inside_log : {R : Redis} → List Interrupt → Prog R → Outcome (Prog R)
unfolding handle asks_log
inside_log [] p = done p
inside_log (x ∷ xs) p =
    let rest = inside_log xs (handle (event_of x) p) in if asks_log p x then hangs else rest

abbrev pub next : {R : Redis} {A : Type 0} → Outcome (Prog R) → (Prog R → Outcome A) → Outcome A
next (done p) f = f p
next (exits n) f = exits n
next hangs f = hangs

-- log_add(WSLOG_INFO, "webstore shutdown")
unfoldable pub log_shutdown : {R : Redis} → List Interrupt → Prog R → Outcome (Prog R)
unfolding has_log inside_log outside_log log_add_to
log_shutdown during p =
    if has_log p.service.srv.log
    then inside_log during (record p {
      service = record p.service {
        srv = log_add_to wslog_info (text "webstore shutdown") p.service.srv;
      };
    })
    else done (outside_log during p)

unfoldable pub disconnected : {R : Redis} → Prog R → Outcome Rai → Outcome (Prog R)
disconnected p (done rc) = done (record p { service = record p.service { rc = rc } })
disconnected p (exits n) = exits n
disconnected p hangs = hangs

-- g_srv is there once webstore_start has returned. searest_stop waits for the daemon's threads, and so
-- for one that is stuck.
unfoldable pub webstore_stop : {R : Redis} → Late → Prog R → Outcome (Prog R)
unfolding outside_log log_shutdown disconnected
webstore_stop late p =
    if p.stuck
    then hangs
    else next
        (log_shutdown late.logging (
          outside_log late.stopping
            (record p { service = record p.service { ws = searest_stop p.service.ws } })))
        (λ q. disconnected q (rai_disconnect q.service.srv.locked q.service.rc))

-- `uses_closed` is a handler that writes or flushes the file of the log when that has been closed.
pub data Ending (R : Redis) : Type 0 where
  waiting returned : Prog R → Ending R
  uses_closed : Ending R

unfoldable pub after_close : {R : Redis} → List Interrupt → Prog R → Ending R
unfolding handle asks_log has_log
after_close [] p = returned p
after_close (x ∷ xs) p =
    let rest = after_close xs (handle (event_of x) p) in
    if asks_log p x && has_log p.service.srv.log then uses_closed else rest

-- log_close takes the mutex, and main returns
unfoldable pub close_all : {R : Redis} → Late → Prog R → Outcome (Ending R)
unfolding inside_log outside_log log_close after_close
close_all late p =
    next (inside_log late.closing (outside_log late.leaving p))
      (λ q. done (after_close late.ending (log_close q)))

unfoldable pub after_loop : {R : Redis} → Late → Prog R × Bool → Outcome (Ending R)
unfolding webstore_stop close_all
after_loop late (p, true) = done (waiting p)
after_loop late (p, false) = next (webstore_stop late p) (close_all late)
