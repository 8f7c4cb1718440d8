-- ===== src/Start/Connections.antt =====
-- New connections to the configured server.
use webstore.Base.{◌≡◌, some, length, if◌then◌else◌, Bool-cases, inl, inr}
use webstore.Base.Bytes.{Bytes}
use webstore.Redis.{Redis}
use webstore.Server.{WsRt, State, pure}
use webstore.Conn.{ws_addr_check}
use webstore.Searest.{searest_new, searest_set_internal_select, searest_set_addr_cb}
use webstore.Searest.Address.{Ntop, sockaddr_in, uhd_client_connect, ip_text-v4}
use webstore.Start.{SrvOpts, instance_of, limiting, add_nodes}

-- A new connection from an IPv4 client to the configured server is decided by ws_addr_check on the
-- text of its address if REQPERIOD and REQCOUNT are both positive, and is accepted unseen
-- otherwise.
pub uhd_client_connect-v4 :
    (R : Redis) (ntop : Ntop) (rt : WsRt) (so : SrvOpts) (port addr padding : Bytes) (s : State R)
    → length port ≡ 2
    → length addr ≡ 4
    → uhd_client_connect ntop (instance_of rt so) rt (some (sockaddr_in port addr padding)) s
      ≡ (if limiting rt then ws_addr_check rt (ntop.v4 addr) s else pure 1 s)
unfolding uhd_client_connect instance_of searest_new searest_set_internal_select searest_set_addr_cb
    add_nodes
uhd_client_connect-v4 R ntop rt so port addr padding s e f = elim (Bool-cases so.use_threads) [
  | inl threads ↦ elim (Bool-cases (limiting rt)) [
    | inl on ↦ rw (threads, on, ip_text-v4 ntop port addr padding e f)
    | inr off ↦ rw (threads, off)
  ]
  | inr single ↦ elim (Bool-cases (limiting rt)) [
    | inl on ↦ rw (single, on, ip_text-v4 ntop port addr padding e f)
    | inr off ↦ rw (single, off)
  ]
]
