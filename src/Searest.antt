-- ===== src/Searest.antt =====
-- The REST server over libmicrohttpd: its instance and its nodes (src/searest.h), the small accessors
-- of a request and the setters of an instance (src/searest.c). `nud`, a node's own data, is always
-- NULL here, and is left to the callback. `prev` and `next` are the order of the list.
pub mod Nodes
pub mod Upload
pub mod Headers
pub mod Request
pub mod Exchange
pub mod Address
pub mod Stats
pub mod Slots
pub mod Average
pub mod Pointers
pub mod Blocks
use webstore.Base.{
  ℕ, ◌-◌, Bool, true, false, not, ◌||◌, Option, none, some, List, [], ◌==◌, if◌then◌else◌, length,
  map,
}
use webstore.Base.Int.{ℤ, pos}
use webstore.Base.Bytes.{Bytes, bytes_eq, to_lower, text}
use webstore.Redis.{Redis}
use webstore.Server.{WsRt, Srci, M}

-- SR_NODE_CALLBACK: the URL after the root and its length, the user data of the instance; none is NULL
abbrev pub NodeCallback : Redis → Type 0
NodeCallback R = Bytes → ℕ → WsRt → M R (Option Bytes)

-- SR_ADDR_CALLBACK
abbrev pub AddrCallback : Redis → Type 0
AddrCallback R = WsRt → Bytes → M R ℕ

-- srn_t, in a build without SRNODECHRONOMETRY
pub record Srn (R : Redis) : Type 0 where
  pub num : ℕ
  pub disabled : Bool
  pub root : Bytes
  pub cb : NodeCallback R
  pub last_atime : ℕ
  pub acount : ℕ

pub data SocketModel : Type 0 where
  thread_per_connection select_internally : SocketModel

-- sri_t; `running` is whether mhd_srv is set, `ssl_flag` whether it is MHD_USE_SSL
pub record Sri (R : Redis) : Type 0 where
  pub addr_cb : Option (AddrCallback R)
  pub running : Bool
  pub https_cert : Option Bytes
  pub https_key : Option Bytes
  pub https_ca : Option Bytes
  pub ssl_flag : Bool
  pub socket_model : SocketModel
  pub inactivity_timeout : ℤ
  pub conn_limit : ℕ
  pub min_url_len : ℕ
  pub max_url_len : ℕ
  pub max_content_length : ℕ
  pub nodelist : List (Srn R)

-- FD_SETSIZE is 1024.
unfoldable pub searest_new : {R : Redis} → ℕ → ℕ → ℕ → Sri R
searest_new urlmin urlmax contentmax = record {
  addr_cb = none;
  running = false;
  https_cert = none;
  https_key = none;
  https_ca = none;
  ssl_flag = false;
  socket_model = thread_per_connection;
  inactivity_timeout = pos 0;
  conn_limit = 1024 - 4;
  min_url_len = urlmin;
  max_url_len = urlmax;
  max_content_length = contentmax;
  nodelist = [];
}

unfoldable pub searest_set_https_cert : {R : Redis} → Bytes → Sri R → Sri R
searest_set_https_cert cert ws = record ws { https_cert = some cert; ssl_flag = true }

unfoldable pub searest_set_https_key : {R : Redis} → Bytes → Sri R → Sri R
searest_set_https_key key ws = record ws { https_key = some key; ssl_flag = true }

unfoldable pub searest_set_https_ca : {R : Redis} → Bytes → Sri R → Sri R
searest_set_https_ca ca ws = record ws { https_ca = some ca; ssl_flag = true }

unfoldable pub searest_set_conn_limit : {R : Redis} → ℕ → Sri R → Sri R
searest_set_conn_limit limit ws = record ws { conn_limit = limit }

unfoldable pub searest_set_inactivity_timeout : {R : Redis} → ℤ → Sri R → Sri R
searest_set_inactivity_timeout timeout ws = record ws { inactivity_timeout = timeout }

unfoldable pub searest_set_internal_select : {R : Redis} → Sri R → Sri R
searest_set_internal_select ws = record ws { socket_model = select_internally }

unfoldable pub searest_set_addr_cb : {R : Redis} → AddrCallback R → Sri R → Sri R
searest_set_addr_cb func ws = record ws { addr_cb = some func }

unfoldable pub searest_stop : {R : Redis} → Sri R → Sri R
searest_stop ws = record ws { running = false }

-- strcasecmp(a, b) == 0
same_caseless : Bytes → Bytes → Bool
same_caseless a b = bytes_eq (map to_lower a) (map to_lower b)

requests : Bytes → Option Bytes → Bool
unfolding same_caseless
requests mime none = false
requests mime (some accept) = same_caseless accept mime

unfoldable pub srci_browser_requests_text : Srci → Bool
unfolding requests
srci_browser_requests_text ri = requests (text "text/plain") ri.accept

unfoldable pub srci_browser_requests_xml : Srci → Bool
unfolding requests
srci_browser_requests_xml ri = requests (text "application/xml") ri.accept

unfoldable pub srci_browser_requests_json : Srci → Bool
unfolding requests
srci_browser_requests_json ri = requests (text "application/json") ri.accept

unfoldable pub srci_set_response_content_type : Bytes → Srci → Srci
srci_set_response_content_type ct ri = record ri { content_type = some ct }

unfoldable pub srci_set_response_allow : Bytes → Srci → Srci
srci_set_response_allow a ri = record ri { allow = some a }

unfoldable pub srci_set_response_cors : Srci → Srci
srci_set_response_cors ri = record ri { cors = true }
