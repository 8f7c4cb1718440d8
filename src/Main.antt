-- ===== src/Main.antt =====
-- The server program (src/webstore.c): its options, its signals and its main loop.
pub mod Options
pub mod Signals
pub mod Program
pub mod Stop
pub mod Whole
pub mod Steady
pub mod Shutdown
pub mod Stopped
pub mod Extends
pub mod Ends
pub mod Over
pub mod Life
use webstore.Base.{
  ℕ, zero, suc, ◌+◌, Bool, true, false, not, ◌&&◌, ◌||◌, Option, none, some, List, [], ◌∷◌, ◌++◌,
  ◌==◌, ltb, leb, if◌then◌else◌,
}
use webstore.Base.Int.{ℤ, pos, ltb_ℤ, to_unsigned}
use webstore.Base.Bytes.{Bytes, text}
use webstore.Base.Decimal.{atoi, atol}
use webstore.Redis.{Redis}
use webstore.Server.{Outcome, done, exits, Server, log_add_to, wslog_err}
use webstore.Start.{SrvOpts}

-- what a call of getopts gives: an unknown option, no memory, or an option's number with its argument
pub data Got : Type 0 where
  unknown : Bytes → Got
  no_memory : Got
  option : ℕ → Bytes → Got

-- g_so, g_rsock, g_rip, g_rport and g_logfile; `so.rdest` and `so.rport` are set later
pub record Globals : Type 0 where
  pub so : SrvOpts
  pub rsock : Option Bytes
  pub rip : Option Bytes
  pub rport : ℕ
  pub logfile : Option Bytes

-- memset(&g_so, 0, ...), and the default limit of 20 MiB
unfoldable pub initial : Globals
initial = record {
  so = record {
    http_ip = none;
    http_port = 0;
    use_threads = false;
    max_post_data_size = pos 20971520;
    certfile = none;
    keyfile = none;
    rdest = [];
    rport = 0;
  };
  rsock = none;
  rip = none;
  rport = 0;
  logfile = none;
}

-- strchr(args, ':'): what is before the first colon, and after it
split_colon : Bytes → Option (Bytes × Bytes)
split_colon [] = none
split_colon (c ∷ cs) =
    let rest = split_colon cs in
    if c == 58 then some ([], cs) else elim rest [ none ↦ none | some (a, b) ↦ some (c ∷ a, b) ]

set_rtcp : Option (Bytes × Bytes) → Globals → Globals
set_rtcp none g = g
set_rtcp (some (ip, port)) g = record g { rip = some ip; rport = to_unsigned 16 (atoi port) }

-- the switch on the option's number
set_option : ℕ → Bytes → Globals → Globals
unfolding set_rtcp split_colon
set_option n args g =
    if n == 1
    then record g { so = record g.so { http_ip = some args } }
    else if n == 2
    then record g { so = record g.so { http_port = to_unsigned 16 (atoi args) } }
    else if n == 3
    then record g { so = record g.so { use_threads = true } }
    else if n == 4
    then record g { logfile = some args }
    else if n == 5
    then record g { rsock = some args }
    else if n == 6
    then set_rtcp (split_colon args) g
    else if n == 7
    then record g { so = record g.so { certfile = some args } }
    else if n == 8
    then record g { so = record g.so { keyfile = some args } }
    else if n == 9
    then record g { so = record g.so { max_post_data_size = atol args } }
    else g

-- the loop over the options; an unknown option is only reported
pub read_options : List Got → Globals → Outcome Globals
unfolding set_option
read_options [] g = done g
read_options (unknown args ∷ more) g = read_options more g
read_options (no_memory ∷ more) g = exits 1
read_options (option n args ∷ more) g = read_options more (set_option n args g)

abbrev pub is_set : Option Bytes → Bool
is_set none = false
is_set (some v) = true

-- the checks after the loop; each failure ends the process
pub check_options : Globals → Outcome Globals
check_options g =
    if not (is_set g.rsock) && not (is_set g.rip)
    then exits 1
    else if is_set g.rip && g.rport == 0
    then exits 1
    else if g.so.http_port == 0
    then exits 1
    else if is_set g.so.certfile && not (is_set g.so.keyfile)
    then exits 1
    else if not (is_set g.so.certfile) && is_set g.so.keyfile
    then exits 1
    else if ltb_ℤ g.so.max_post_data_size (pos 6)
    then exits 1
    else done g

check_read : Outcome Globals → Outcome Globals
unfolding check_options
check_read (done g) = check_options g
check_read (exits n) = exits n
check_read Outcome.hangs = Outcome.hangs

unfoldable pub parse_args : List Got → Outcome Globals
unfolding read_options check_read
parse_args got = check_read (read_options got initial)

-- The options that webstore_start is called with; none is the branch that fails.
unfoldable pub start_options : Globals → Option SrvOpts
start_options g = elim g.rsock [
  | some path ↦ some (record g.so { rdest = path })
  | none ↦ elim g.rip [
    | some ip ↦ if ltb 0 g.rport then some (record g.so { rdest = ip; rport = g.rport }) else none
    | none ↦ none
  ]
]

-- g_log_sync_timer, and how often the log was flushed
pub record Timer : Type 0 where
  pub ticks : ℕ
  pub flushes : ℕ

pub alarm_handler : Timer → Timer
alarm_handler t =
    if leb 4 (t.ticks + 1)
    then record { ticks = 0; flushes = t.flushes + 1 }
    else record t { ticks = t.ticks + 1 }

pub data Signal : Type 0 where
  sighup sigint sigterm sigquit sigpipe other_signal : Signal

pub sig_handler : {R : Redis} → Signal → Server R → Server R
sig_handler sigpipe srv = log_add_to wslog_err (text "SIGPIPE") srv
sig_handler sighup srv = record srv { shutdown = true }
sig_handler sigint srv = record srv { shutdown = true }
sig_handler sigterm srv = record srv { shutdown = true }
sig_handler sigquit srv = record srv { shutdown = true }
sig_handler other_signal srv = srv

-- the test of the main loop: it goes on while this is true
pub runs : {R : Redis} → Server R → Bool
runs srv = not srv.shutdown && not srv.redis_error
