-- ===== src/Tests/Runs.antt =====
-- A run of requests against the store, and a run of the whole program.
use webstore.Base.{◌≡◌, refl, false, true, none, some, [], ◌∷◌, arith, List}
use webstore.Base.Bytes.{text}
use webstore.Redis.Mem.{mem_redis_laws, mem_alive, mem_find, lookup}
use webstore.Server.{Returns}
use webstore.Node.Promise.{Ask, Table, serve_all, promise_all}
use webstore.Node.Refine.{Represents, serve_refines}
use webstore.Threads.Sections.{ret, note}
use webstore.Main.{Got, option, Globals, initial, sigterm, sigpipe, sighup}
use webstore.Main.Program.{Event, signal, alarm, connection}
use webstore.Main.Stop.{Late, interrupt, tick}
use webstore.Main.Over.{Over}
use webstore.Tests.Data.{config, token, capital_token, req, empty, ri_of, state, message}

-- a post, two gets and another method
abbrev requests : List Ask
requests =
    record { req = req token; ri = ri_of 2 message }
    ∷ record { req = req capital_token; ri = ri_of 1 [] }
    ∷ record { req = req token; ri = ri_of 1 [] }
    ∷ record { req = req token; ri = ri_of 0 [] }
    ∷ []

abbrev nothing_stored : Table
nothing_stored k = none

holds_nothing : Represents mem_redis_laws nothing_stored (state empty [])
unfolding lookup
holds_nothing = record {
  live = mem_alive empty;
  free = refl;
  up = refl;
  keys = λ k. mem_find empty k;
  plain = λ k v e. absurd (cc);
}

serve_refines_example : Returns (serve_all (config 0 0 1) requests (state empty [])) λ r.
    (r.0 ≡ (promise_all false true requests nothing_stored).0)
    × Represents mem_redis_laws (promise_all false true requests nothing_stored).1 r.1
serve_refines_example =
    serve_refines mem_redis_laws (config 0 0 1) (0, refl) requests nothing_stored (state empty [])
      (omega arith, (omega arith, (omega arith, (omega arith, tt)))) holds_nothing

abbrev given : List Got
given = option 2 (text "80") ∷ option 4 (text "ws.log") ∷ option 5 (text "/run/redis.sock") ∷ []

abbrev accepted : Globals
accepted = record {
  so = record (initial).so { http_port = 80 };
  rsock = some (text "/run/redis.sock");
  rip = none;
  rport = 0;
  logfile = some (text "ws.log");
}

-- an alarm, a connection that logs a line, a broken pipe, and the end
abbrev happens : List Event
happens =
    alarm
    ∷ connection (note 1 (text "hello") (ret tt))
    ∷ signal sigpipe
    ∷ signal sigterm
    ∷ alarm
    ∷ []

-- an alarm while the daemon stops, signals while main logs and at the end, and a broken pipe between
abbrev late : Late
late = record {
  stopping = tick ∷ [];
  logging = interrupt sigterm ∷ [];
  leaving = interrupt sigpipe ∷ tick ∷ [];
  closing = [];
  ending = interrupt sighup ∷ [];
}
