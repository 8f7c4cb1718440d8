-- ===== src/Tests/Expiry.antt =====
-- Messages and counters that expire, on a small Redis with a clock.
use webstore.Base.{◌≡◌, refl, true, false, none, some, [], ◌∷◌, arith}
use webstore.Base.Bytes.{Bytes, text, bytes_eq, is_xdigit, to_lower}
use webstore.Base.Decimal.{decimal}
use webstore.Redis.{reply, string, get as cmd_get}
use webstore.Redis.Mem.{lookup}
use webstore.Redis.Clock.{wait}
use webstore.Redis.Timed.{
  Timed, timed_redis, timed_redis_laws, timed_redis_IsTimed, timed_alive, timed_find, timed_left,
}
use webstore.Server.{State, Returns}
use webstore.Alphabet.{Z85_validate, is_Z85_digit}
use webstore.Node.{get as node_get, post}
use webstore.Node.Expiry.{post_expires, seconds_later, Says, lives}
use webstore.Conn.{ips_key}
use webstore.Conn.Section.{on_count}
use webstore.Conn.Window.{connections}
use webstore.Conn.Renewal.{pause, window_renews}
use webstore.Threads.Turn.{exec}
use webstore.Threads.Expired.{expired-for_ever}
use webstore.Tests.Data.{config, token, req, ri_of, message, empty}

abbrev new : Timed
new = (empty, λ k. none)

abbrev before : State timed_redis
before = record {
  ri = ri_of 2 message;
  srv = record { db = new; locked = false; shutdown = false; redis_error = false; log = some [] };
}

post_expires_example : Returns (post (req token) (config 30 0 0) before) λ r.
    Returns
      (node_get
        (req token)
        (config 30 0 0)
        (seconds_later timed_redis_laws timed_redis_IsTimed 45 (ri_of 1 []) r.1))
      (Says timed_redis_laws timed_redis_IsTimed (lives 30 45) message)
unfolding text is_xdigit to_lower Z85_validate is_Z85_digit
post_expires_example =
    post_expires timed_redis_laws timed_redis_IsTimed (req token) (req token) (config 30 0 0) before
      (ri_of 1 []) 30 45 (omega arith) refl refl (timed_alive new) refl refl (omega arith) refl refl

-- one accepted connection, and one second left
abbrev address : Bytes
address = text "10.0.0.1"

abbrev last_second : Timed
last_second = (record { up = true; keys = (ips_key address, decimal 1) ∷ [] }, λ k. some 1)

expired-for_ever_example :
    (timed_redis.command (cmd_get (ips_key address)) last_second
      ≡ (reply (string (decimal 1)), last_second))
    × ((exec timed_redis
          (on_count (config 0 0 0) address (reply (string (decimal 1))))
          (timed_redis_IsTimed.second last_second)).0
        ≡ 1)
    × (timed_redis_laws.find
          (wait timed_redis_laws timed_redis_IsTimed 1000
            (exec timed_redis
              (on_count (config 0 0 0) address (reply (string (decimal 1))))
              (timed_redis_IsTimed.second last_second)).1)
          (ips_key address)
        ≡ some (text "1"))
unfolding lookup bytes_eq text ips_key
expired-for_ever_example =
    expired-for_ever timed_redis_laws timed_redis_IsTimed (config 0 0 0) address 1 2 1000
      last_second refl (omega arith) (omega arith) (timed_alive last_second)
      (timed_find last_second (ips_key address)) (timed_left last_second (ips_key address))

window_renews_example : Returns (connections (config 0 0 0) address 5 before) λ r.
    (r.0 ≡ 2)
    × Returns
        (connections (config 0 0 0) address 4 (pause timed_redis_laws timed_redis_IsTimed 60 r.1))
        (λ t. t.0 ≡ 2)
unfolding text bytes_eq lookup
window_renews_example =
    window_renews timed_redis_laws timed_redis_IsTimed (config 0 0 0) address 59 2 refl refl
      (omega arith) (omega arith) 5 4 before refl (timed_alive new) refl
      (timed_find new (ips_key address))
