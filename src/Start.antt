-- ===== src/Start.antt =====
-- Starting the server (src/webstore_uhd.c): the runtime configuration from the options and the
-- environment, the seven nodes, and what is asked of libmicrohttpd (searest_start of src/searest.c).
pub mod Routes
pub mod Service
pub mod Exchanges
pub mod Http
pub mod RoundTrip
pub mod Launch
pub mod Connections
pub mod Options
pub mod ConfigPage
use webstore.Base.{
  ℕ, ◌+◌, Bool, true, false, not, ◌&&◌, Option, none, some, List, [], ◌∷◌, ◌++◌, ◌==◌,
  if◌then◌else◌,
}
use webstore.Base.Int.{ℤ, pos, negsuc, ltb_ℤ, to_unsigned}
use webstore.Base.Bytes.{Bytes, text}
use webstore.Base.Decimal.{atoi, atol}
use webstore.Redis.{Redis}
use webstore.Server.{WsRt, M, ◌>>=◌, pure}
use webstore.Node.{node128, node160, node224, node256, node384, node512}
use webstore.Config.{nodecfg}
use webstore.Conn.{ws_addr_check}
use webstore.Searest.{
  NodeCallback, Sri, SocketModel, searest_new, searest_set_https_cert, searest_set_https_key,
  searest_set_internal_select, searest_set_addr_cb,
}
use webstore.Searest.Nodes.{searest_node_add, searest_node_count}

-- srv_opts_t
pub record SrvOpts : Type 0 where
  pub http_ip : Option Bytes
  pub http_port : ℕ
  pub use_threads : Bool
  pub max_post_data_size : ℤ
  pub certfile : Option Bytes
  pub keyfile : Option Bytes
  pub rdest : Bytes
  pub rport : ℕ

-- a handler that never returns NULL, as a callback
abbrev pub callback : {R : Redis} → (Bytes → ℕ → WsRt → M R Bytes) → NodeCallback R
callback f url urllen rt = f url urllen rt >>= λ page. pure (some page)

-- The nodes, in the order in which they are added.
pub add_nodes : {R : Redis} → Sri R → Sri R
unfolding searest_node_add
add_nodes ws = record ws {
  nodelist = searest_node_add (text "/store/512/") (callback node512) (
      searest_node_add (text "/store/384/") (callback node384) (
        searest_node_add (text "/store/256/") (callback node256) (
          searest_node_add (text "/store/224/") (callback node224) (
            searest_node_add (text "/store/160/") (callback node160) (
              searest_node_add (text "/store/128/") (callback node128)
                (searest_node_add (text "/config/") (callback nodecfg) ws.nodelist))))));
}

-- if(getenv(name)) { ... = atol(...); }, over a field that is 0 before
number_env : (Bytes → ℤ) → Option Bytes → ℤ
number_env parse none = pos 0
number_env parse (some v) = parse v

flag_env : Option Bytes → ℤ
flag_env none = pos 0
flag_env (some v) = pos 1

-- if(g_rt.expiration < 0) { g_rt.expiration = 0; }
not_negative : ℤ → ℤ
not_negative (pos n) = pos n
not_negative (negsuc n) = pos 0

-- g_rt after webstore_start; `getenv` reads the environment
unfoldable pub runtime : (Bytes → Option Bytes) → SrvOpts → WsRt
unfolding number_env flag_env not_negative
runtime getenv so = record {
  multithreaded = so.use_threads;
  reqperiod = number_env atoi (getenv (text "REQPERIOD"));
  reqcount = number_env atol (getenv (text "REQCOUNT"));
  max_post_data_size = so.max_post_data_size;
  expiration = not_negative (number_env atol (getenv (text "EXPIRATION")));
  immutable = flag_env (getenv (text "IMMUTABLE"));
  bar = flag_env (getenv (text "BAR"));
}

-- connection limiting is on if both numbers are positive
unfoldable pub limiting : WsRt → Bool
limiting rt = ltb_ℤ (pos 0) rt.reqperiod && ltb_ℤ (pos 0) rt.reqcount

-- activate_https, with the contents of the two files; none is a file that cannot be read, which ends
-- the process
pub activate_https : {R : Redis} → Option Bytes → Option Bytes → Sri R → Option (Sri R)
activate_https none key ws = none
activate_https (some cert) none ws = none
activate_https (some cert) (some key) ws =
    some (searest_set_https_key key (searest_set_https_cert cert ws))

unfoldable pub with_https :
    {R : Redis} → (Bytes → Option Bytes) → Option Bytes → Option Bytes → Sri R → Option (Sri R)
unfolding activate_https
with_https get_file none keyfile ws = some ws
with_https get_file (some certfile) none ws = some ws
with_https get_file (some certfile) (some keyfile) ws =
    activate_https (get_file certfile) (get_file keyfile) ws

-- g_srv before HTTPS; the limits 8+3 and 128+11 are on the URL's length
pub instance_of : {R : Redis} → WsRt → SrvOpts → Sri R
instance_of rt so =
    let ws = add_nodes (searest_new (8 + 3) (128 + 11) (to_unsigned 64 so.max_post_data_size)) in
    let ws' = if not so.use_threads then searest_set_internal_select ws else ws in
    if limiting rt then searest_set_addr_cb ws_addr_check ws' else ws'

-- the configured instance, none if the process ends
unfoldable pub configure :
    {R : Redis} → (Bytes → Option Bytes) → (Bytes → Option Bytes) → SrvOpts → Option (Sri R)
unfolding instance_of with_https
configure getenv get_file so =
    with_https get_file so.certfile so.keyfile (instance_of (runtime getenv so) so)

-- the options that searest_start gives to MHD_start_daemon
pub data MhdOption : Type 0 where
  sock_addr : Option Bytes → ℕ → MhdOption
  uri_log_callback : MhdOption
  notify_completed : MhdOption
  connection_timeout : ℤ → MhdOption
  connection_limit : ℕ → MhdOption
  https_mem_cert : Bytes → MhdOption
  https_mem_key : Bytes → MhdOption
  https_mem_trust : Bytes → MhdOption

https_options : Option Bytes → Option Bytes → Option Bytes → List MhdOption
https_options (some cert) (some key) (some ca) =
    https_mem_cert cert ∷ https_mem_key key ∷ https_mem_trust ca ∷ []
https_options (some cert) (some key) none = https_mem_cert cert ∷ https_mem_key key ∷ []
https_options (some cert) none ca = []
https_options none key ca = []

pub daemon_options : {R : Redis} → Option Bytes → ℕ → Sri R → List MhdOption
unfolding https_options
daemon_options ip4addr port ws =
    sock_addr ip4addr port
    ∷ uri_log_callback
    ∷ notify_completed
    ∷ connection_timeout ws.inactivity_timeout
    ∷ connection_limit ws.conn_limit
    ∷ https_options ws.https_cert ws.https_key ws.https_ca

-- `starts` says whether MHD_start_daemon succeeds, by the socket model, the SSL flag and the options.
pub searest_start :
    {R : Redis}
    → (SocketModel → Bool → List MhdOption → Bool)
    → Option Bytes
    → ℕ
    → Sri R
    → ℕ × Sri R
unfolding daemon_options
searest_start starts ip4addr port ws =
    if searest_node_count ws.nodelist == 0
    then (1, ws)
    else if starts ws.socket_model ws.ssl_flag (daemon_options ip4addr port ws)
    then (0, record ws { running = true })
    else (2, record ws { running = false })
