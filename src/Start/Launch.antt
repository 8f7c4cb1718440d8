-- ===== src/Start/Launch.antt =====
-- The start of the service (src/webstore_uhd.c, webstore_start): the
-- connection to Redis, the configured instance, and the daemon.
use webstore.Base.{
  ℕ, ◌≡◌, refl, Bool, true, false, not, ◌&&◌, Option, none, some, List, ◌++◌, ◌==◌, if◌then◌else◌,
  Bool-cases, inl, inr,
}
use webstore.Base.Int.{ℤ, truth}
use webstore.Base.Bytes.{Bytes, text}
use webstore.Base.Decimal.{decimal}
use webstore.Files.{FileSystem, get_file}
use webstore.Redis.{Redis}
use webstore.Server.{Server, Outcome, done, exits, Returns, log_add_to, wslog_info, WsRt}
use webstore.Rai.{Rai, Connecting, rai_connect, no_rai, context_ok, context_error, no_context}
use webstore.Searest.{Sri, SocketModel, searest_new, searest_set_https_key, searest_set_https_cert}
use webstore.Start.Service.{instance_of-nodes}
use webstore.Searest.Nodes.{searest_node_count}
use webstore.Start.{
  SrvOpts, instance_of, add_nodes, with_https, activate_https, MhdOption, searest_start, configure,
  runtime, daemon_options,
}

-- What the start depends on: the environment, the files, pthread_mutex_init, redisConnect by the
-- destination and the port, and MHD_start_daemon.
pub record World : Type 0 where
  pub getenv : Bytes → Option Bytes
  pub files : FileSystem
  pub mutex_fails : Bool
  pub connecting : Bytes → ℕ → Connecting
  pub starts : SocketModel → Bool → List MhdOption → Bool

-- g_rt with its context, g_srv, and the process's state
pub record Service (R : Redis) : Type 0 where
  pub rc : Rai
  pub rt : WsRt
  pub ws : Sri R
  pub srv : Server R

unfoldable pub started_log : {R : Redis} → SrvOpts → Server R → Server R
started_log so srv =
    log_add_to wslog_info (text "webstore started on port " ++ decimal so.http_port) srv

launch : {R : Redis} → WsRt → SrvOpts → Server R → Rai → ℕ × Sri R → Outcome (Service R)
unfolding started_log
launch rt so srv rc (z, ws) =
    if not (z == 0)
    then exits 1
    else done (record { rc = rc; rt = rt; ws = ws; srv = started_log so srv })

start_configured :
    {R : Redis} → World → SrvOpts → Server R → Rai → Option (Sri R) → Outcome (Service R)
unfolding launch
start_configured w so srv rc none = exits 1
start_configured w so srv rc (some ws) =
    launch (runtime w.getenv so) so srv rc (searest_start w.starts so.http_ip so.http_port ws)

start_connected : {R : Redis} → World → SrvOpts → Server R → ℤ × Rai → Outcome (Service R)
unfolding start_configured
start_connected w so srv (z, rc) =
    if truth z
    then exits 1
    else start_configured w so srv rc (configure w.getenv (get_file w.files) so)

pub webstore_start : {R : Redis} → World → SrvOpts → Server R → Outcome (Service R)
unfolding start_connected
webstore_start w so srv =
    start_connected w so srv (rai_connect w.mutex_fails (w.connecting so.rdest so.rport) no_rai)

-- What a service has that came up: a connected context, the configured instance with its daemon
-- running, the configuration of the options and the environment, and the start in the log.
pub record IsUp {R : Redis} (w : World) (so : SrvOpts) (srv : Server R) (s : Service R)
    : Type 0 where
  pub connected : s.rc ≡ record { has_context = true; has_mutex = true; connected = true }
  pub running : s.ws.running ≡ true
  pub configured :
      (ws : Sri R) × (configure w.getenv (get_file w.files) so ≡ some ws)
      × (s.ws ≡ record ws { running = true })
  pub runtime_eq : s.rt ≡ runtime w.getenv so
  pub logged : s.srv ≡ started_log so srv

unfoldable pub works : Connecting → Bool
works context_ok = true
works _ = false

unfoldable pub can_listen : {R : Redis} → World → SrvOpts → Option (Sri R) → Bool
can_listen w so none = false
can_listen w so (some ws) =
    w.starts ws.socket_model ws.ssl_flag (daemon_options so.http_ip so.http_port ws)

-- Redis accepts the connection, the certificate and the key can be read if both are given, and
-- libmicrohttpd starts with the configured instance.
unfoldable pub comes_up : Redis → World → SrvOpts → Bool
comes_up R w so =
    not w.mutex_fails
    && works (w.connecting so.rdest so.rport)
    && can_listen {R = R} w so (configure w.getenv (get_file w.files) so)

instance_count :
    (R : Redis) (rt : WsRt) (so : SrvOpts)
    → searest_node_count (instance_of {R = R} rt so).nodelist ≡ 7
unfolding searest_node_count add_nodes searest_new
instance_count R rt so = rw (instance_of-nodes {R = R} rt so) refl

-- the instance has its seven nodes, if there is one
abbrev HasNodes : {R : Redis} → Option (Sri R) → Type 0
HasNodes none = Unit
HasNodes (some ws) = searest_node_count ws.nodelist ≡ 7

activate-HasNodes :
    {R : Redis} (c k : Option Bytes) (ws : Sri R)
    → searest_node_count ws.nodelist ≡ 7
    → HasNodes (activate_https c k ws)
unfolding activate_https searest_set_https_key searest_set_https_cert
activate-HasNodes none k ws n = tt
activate-HasNodes (some c) none ws n = tt
activate-HasNodes (some c) (some k) ws n = n

with_https-HasNodes :
    {R : Redis} (get_file : Bytes → Option Bytes) (c k : Option Bytes) (ws : Sri R)
    → searest_node_count ws.nodelist ≡ 7
    → HasNodes (with_https get_file c k ws)
unfolding with_https
with_https-HasNodes get_file none k ws n = n
with_https-HasNodes get_file (some c) none ws n = n
with_https-HasNodes get_file (some c) (some k) ws n =
    activate-HasNodes (get_file c) (get_file k) ws n

configure-HasNodes :
    (R : Redis) (w : World) (so : SrvOpts)
    → HasNodes {R = R} (configure w.getenv (get_file w.files) so)
unfolding configure
configure-HasNodes R w so =
    with_https-HasNodes (get_file w.files) so.certfile so.keyfile
      (instance_of {R = R} (runtime w.getenv so) so) (instance_count R (runtime w.getenv so) so)

-- the context after a connection
abbrev live_rai : Rai
live_rai = record { has_context = true; has_mutex = true; connected = true }

listens :
    {R : Redis} (w : World) (so : SrvOpts) (srv : Server R) (o : Option (Sri R))
    → configure w.getenv (get_file w.files) so ≡ o
    → HasNodes o
    → (if can_listen w so o
        then Returns (start_configured w so srv live_rai o) (IsUp w so srv)
        else (start_configured w so srv live_rai o ≡ exits 1))
unfolding start_configured searest_start can_listen
listens w so srv none e n = refl
listens w so srv (some ws) e n =
    elim (Bool-cases
      (w.starts ws.socket_model ws.ssl_flag (daemon_options so.http_ip so.http_port ws))) [
        | inl up ↦
            rw (up, n)
              (record {
                connected = refl;
                running = refl;
                configured = (ws, e, refl);
                runtime_eq = refl;
                logged = refl;
              })
        | inr down ↦ rw (down, n) refl
      ]

connects :
    {R : Redis} (w : World) (so : SrvOpts) (srv : Server R) (b : Bool) (c : Connecting)
    → w.mutex_fails ≡ b
    → w.connecting so.rdest so.rport ≡ c
    → (if comes_up R w so
        then Returns (webstore_start w so srv) (IsUp w so srv)
        else (webstore_start w so srv ≡ exits 1))
unfolding comes_up webstore_start rai_connect works
connects w so srv true c e f = simp (e, f)
connects w so srv false no_context e f = simp (e, f)
connects w so srv false context_error e f = simp (e, f)
connects {R} w so srv false context_ok e f =
    simp (e, f)
      (listens w so srv (configure w.getenv (get_file w.files) so) refl (configure-HasNodes R w so))

-- The service comes up if `comes_up` says so, and otherwise the process ends with status 1.
pub webstore_start-IsUp :
    {R : Redis} (w : World) (so : SrvOpts) (srv : Server R)
    → (if comes_up R w so
        then Returns (webstore_start w so srv) (IsUp w so srv)
        else (webstore_start w so srv ≡ exits 1))
webstore_start-IsUp w so srv =
    connects w so srv w.mutex_fails (w.connecting so.rdest so.rport) refl refl
