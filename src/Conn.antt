-- ===== src/Conn.antt =====
-- Connection limiting per IP address (src/webstore_conn.c, and ws_addr_check of src/webstore_uhd.c).
-- There is no request yet when a connection is checked: the actions leave the request's record alone.
pub mod Counter
pub mod Window
pub mod Section
pub mod Renewal
use webstore.Base.{ℕ, ◌+◌, Bool, true, false, Option, none, some, ◌++◌, ◌==◌, if◌then◌else◌, not}
use webstore.Base.Int.{ℤ, pos, negsuc, ltb_ℤ, suc_ℤ}
use webstore.Base.Bytes.{Bytes, bytes_eq, text}
use webstore.Base.Decimal.{decimal_ℤ, atoi}
use webstore.Redis.{
  Redis, Command, set, get, incr, Reply, string, integer, nil, status, error, Answer, reply, lost,
}
use webstore.Server.{
  WsRt, M, ◌>>=◌, ◌>>◌, pure, when, log_add, wslog_info, rai_lock, rai_unlock, redis_command,
  handle_redis_error,
}

-- the key "IPS:%s"
unfoldable pub ips_key : Bytes → Bytes
ips_key ip = text "IPS:" ++ ip

check_saved : {R : Redis} → Answer → M R (Unit {0})
unfolding handle_redis_error
check_saved (lost kind errstr) = handle_redis_error kind errstr
check_saved (reply r) = pure tt

-- the command of save_ip
abbrev pub saving : Bytes → Bool → ℤ → Command
saving ip found reqperiod =
    if found then incr (ips_key ip) else set (ips_key ip) (text "1") (some reqperiod) false

pub save_ip : {R : Redis} → Bytes → Bool → ℤ → M R (Unit {0})
unfolding check_saved redis_command
save_ip ip found reqperiod = redis_command (saving ip found reqperiod) >>= check_saved

-- "%s new connection ... (count: %d)"
pub conn_log : Bytes → Bytes → ℤ → Bytes
conn_log ip verdict count =
    ip
    ++ (text " new connection " ++ (verdict ++ (text " (count: " ++ (decimal_ℤ count ++ text ")"))))

-- the branches of check_ip on the reply to GET
by_count : {R : Redis} → WsRt → Bytes → ℤ → M R ℕ
unfolding conn_log
by_count rt ip count =
    if ltb_ℤ count rt.reqcount
    then (do
      log_add wslog_info (conn_log ip (text "allowed") (suc_ℤ count))
      save_ip ip true rt.reqperiod
      pure 1)
    else log_add wslog_info (conn_log ip (text "denied") (suc_ℤ count)) >> pure 0

by_reply : {R : Redis} → WsRt → Bytes → Answer → M R ℕ
unfolding by_count conn_log handle_redis_error
by_reply rt ip (lost kind errstr) = handle_redis_error kind errstr >> pure 0
by_reply rt ip (reply nil) = do
  log_add wslog_info (conn_log ip (text "allowed") (pos 1))
  save_ip ip false rt.reqperiod
  pure 1
by_reply rt ip (reply (string v)) = by_count rt ip (atoi v)
by_reply rt ip (reply _) = pure 0

pub check_ip : {R : Redis} → WsRt → Bytes → M R ℕ
unfolding by_reply redis_command
check_ip rt ip = redis_command (get (ips_key ip)) >>= by_reply rt ip

pub allow_ip : {R : Redis} → WsRt → Bytes → M R ℕ
unfolding check_ip rai_lock rai_unlock
allow_ip rt ip = do
  when rt.multithreaded rai_lock
  retval ← check_ip rt ip
  when rt.multithreaded rai_unlock
  pure retval

-- SR_IP_ACCEPT is MHD_YES (1), SR_IP_DENY is MHD_NO (0).
pub ws_addr_check : {R : Redis} → WsRt → Bytes → M R ℕ
ws_addr_check rt inc_ip =
    if bytes_eq inc_ip (text "127.0.0.1")
    then pure 1
    else (do z ← allow_ip rt inc_ip; if z == 0 then pure 0 else pure 1)
