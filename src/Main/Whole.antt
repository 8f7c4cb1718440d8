-- ===== src/Main/Whole.antt =====
-- main of src/webstore.c as a whole: the options, the log, the start, the main loop and the end.
use webstore.Base.{Bool, false, Option, none, some, List}
use webstore.Base.Bytes.{Bytes}
use webstore.Redis.{Redis}
use webstore.Server.{LogLine, Outcome, done, exits, hangs}
use webstore.Start.{SrvOpts}
use webstore.Start.Launch.{World, Service, webstore_start}
use webstore.Main.{Got, Globals, parse_args, start_options}
use webstore.Main.Program.{Event, lines_of, main_loop, open_log}
use webstore.Main.Stop.{Late, Ending, after_loop}

-- webstore_start has flushed the log
unfoldable pub with_service :
    {R : Redis} → List Event → Late → Outcome (Service R) → Outcome (Ending R)
unfolding after_loop main_loop lines_of
with_service events late (done s) = after_loop late (
    main_loop events (record {
      service = s;
      timer = record { ticks = 0; flushes = 0 };
      synced = lines_of s.srv.log;
      closed = false;
      stuck = false;
    }))
with_service events late (exits n) = exits n
with_service events late hangs = hangs

unfoldable pub with_start :
    {R : Redis}
    → World
    → R.Db
    → Option (List LogLine)
    → List Event
    → Late
    → Option SrvOpts
    → Outcome (Ending R)
unfolding with_service
with_start w db log events late none = exits 1
with_start w db log events late (some so) = with_service events late (
    webstore_start w so
      (record { db = db; locked = false; shutdown = false; redis_error = false; log = log }))

unfoldable pub with_log :
    {R : Redis}
    → World
    → R.Db
    → Globals
    → List Event
    → Late
    → Outcome (Option (List LogLine))
    → Outcome (Ending R)
unfolding with_start start_options
with_log w db g events late (done log) = with_start w db log events late (start_options g)
with_log w db g events late (exits n) = exits n
with_log w db g events late hangs = hangs

unfoldable pub with_globals :
    {R : Redis}
    → World
    → (Bytes → Bool)
    → R.Db
    → List Event
    → Late
    → Outcome Globals
    → Outcome (Ending R)
unfolding with_log open_log
with_globals w opens db events late (done g) =
    with_log w db g events late (open_log opens g.logfile)
with_globals w opens db events late (exits n) = exits n
with_globals w opens db events late hangs = hangs

-- main of webstore.c; status 0 is that it returned
unfoldable pub webstore_main :
    (R : Redis) → World → (Bytes → Bool) → R.Db → List Got → List Event → Late → Outcome (Ending R)
unfolding with_globals parse_args
webstore_main R w opens db got events late = with_globals w opens db events late (parse_args got)
