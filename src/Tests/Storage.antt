-- ===== src/Tests/Storage.antt =====
-- The storage nodes on the small server.
use webstore.Base.{◌≡◌, refl, [], arith}
use webstore.Base.Bytes.{text, c_str, bytes_eq, is_xdigit, to_lower}
use webstore.Redis.{err_eof}
use webstore.Redis.Mem.{mem_redis_laws, mem_alive, mem_find, lookup, run}
use webstore.Server.{Returns, done}
use webstore.Alphabet.{Z85_validate, is_Z85_digit}
use webstore.Node.{post, get as node_get, node}
use webstore.Node.Post.{post_rejected, bad_request}
use webstore.Node.Lock.{node_frees_lock, get_lost, post_lost, IsDown, IsFree}
use webstore.Node.Session.{post_then_get, burn_after_reading, immutable_keeps, next}
use webstore.Tests.Data.{
  config, token, capital_token, req, empty, holding, broken, ri_of, state, message, older,
}

post_then_get_example : Returns (post (req token) (config 30 0 0) (state empty message)) λ r.
    Returns
      (node_get (req capital_token) (config 30 0 0) (next (ri_of 1 []) r.1))
      λ q. (q.0 ≡ message) × (q.1.ri.return_code ≡ 200)
unfolding text is_xdigit to_lower Z85_validate is_Z85_digit
post_then_get_example =
    post_then_get mem_redis_laws (req token) (req capital_token) (config 30 0 0)
      (state empty message) (ri_of 1 []) (omega arith) refl (30, refl) (mem_alive empty) refl refl
      (omega arith) refl refl

burn_after_reading_example :
    Returns (node_get (req token) (config 0 0 1) (state (holding message) [])) λ r.
      (r.0 ≡ c_str message)
      × (r.1.ri.return_code ≡ 200)
      × Returns
          (node_get (req token) (config 0 0 1) (next (ri_of 1 []) r.1))
          λ q. (q.0 ≡ text "not found") × (q.1.ri.return_code ≡ 404)
unfolding text is_xdigit to_lower lookup bytes_eq
burn_after_reading_example =
    burn_after_reading mem_redis_laws (req token) (config 0 0 1) (state (holding message) [])
      (ri_of 1 []) message (omega arith) refl (mem_alive (holding message)) refl refl
      (mem_find (holding message) token)

immutable_keeps_example :
    Returns (post (req token) (config 0 1 0) (state (holding older) message)) λ r.
      (r.1.ri.return_code ≡ 304)
      × Returns
          (node_get (req token) (config 0 1 0) (next (ri_of 1 []) r.1))
          λ q. (q.0 ≡ c_str older) × (q.1.ri.return_code ≡ 200)
unfolding text is_xdigit to_lower lookup bytes_eq Z85_validate is_Z85_digit
immutable_keeps_example =
    immutable_keeps mem_redis_laws (req token) (req token) (config 0 1 0)
      (state (holding older) message) (ri_of 1 []) older (omega arith) refl (0, refl)
      (mem_alive (holding older)) refl refl (mem_find (holding older) token) (omega arith) refl refl

post_rejected_example :
    post (req token) (config 0 0 0) (state empty (text "Hello World"))
    ≡ done (text "malformed request - invalid Z85", bad_request (state empty (text "Hello World")))
unfolding text is_xdigit to_lower Z85_validate is_Z85_digit
post_rejected_example =
    post_rejected (req token) (config 0 0 0) (state empty (text "Hello World")) (omega arith) refl

node_frees_lock_example : Returns (node 1 32 token 32 (config 0 0 1) (state broken message)) IsFree
node_frees_lock_example =
    node_frees_lock 1 32 token 32 (config 0 0 1) (state broken message) (omega arith) refl

get_lost_example : Returns (node_get (req token) (config 0 0 0) (state broken [])) IsDown
unfolding text is_xdigit run
get_lost_example =
    get_lost (req token) (config 0 0 0) (state broken []) err_eof
      (text "Server closed the connection") (omega arith) refl refl refl

post_lost_example : Returns (post (req token) (config 0 0 0) (state broken message)) IsDown
unfolding text is_xdigit run Z85_validate is_Z85_digit
post_lost_example =
    post_lost (req token) (config 0 0 0) (state broken message) err_eof
      (text "Server closed the connection") (omega arith) refl refl refl
