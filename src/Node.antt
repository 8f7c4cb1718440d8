-- ===== src/Node.antt =====
-- The request handlers of the server (src/webstore_node.c): GET and POST of a message on the six
-- storage nodes, and the configuration node. A handler returns the page, and leaves the return code
-- in the request's record.
pub mod Store
pub mod Post
pub mod Get
pub mod Session
pub mod Section
pub mod Pages
pub mod Lock
pub mod Expiry
pub mod Promise
pub mod Refine
use webstore.Base.{
  ℕ, zero, suc, ◌+◌, ◌-◌, ◌*◌, ◌/◌, Bool, true, false, not, ◌&&◌, ◌||◌, Option, none, some, List,
  [], ◌∷◌, ◌++◌, ltb, ◌==◌, if◌then◌else◌, length, take,
}
use webstore.Base.Int.{ℤ, truth}
use webstore.Base.Bytes.{Bytes, bytes_eq, c_str, starts_with, text}
use webstore.Base.Decimal.{decimal, decimal_ℤ}
use webstore.Redis.{
  Redis, Command, set, get as cmd_get, del, Reply, string, integer, nil, status, error, Answer,
  reply, lost,
}
use webstore.Server.{
  WsRt, Srci, State, M, Outcome, ◌>>=◌, ◌>>◌, pure, when, log_add, wslog_info, wslog_warn, rai_lock,
  rai_unlock, redis_command, handle_redis_error, srci_set_return_code, client_ip_text,
}
use webstore.Alphabet.{Z85_validate}
use webstore.Token.{convert_hash}

-- wsreq_t
pub record WsReq : Type 0 where
  pub type : ℕ
  pub hashlen : ℕ
  pub url : Bytes
  pub urllen : ℕ

-- srci_set_return_code and a page
unfoldable pub respond : {R : Redis} → ℕ → Bytes → M R Bytes
unfolding srci_set_return_code
respond code page = srci_set_return_code code >> pure page

-- The reply is freed unread: a failure to delete goes unnoticed.
do_redis_del : {R : Redis} → Bytes → M R (Unit {0})
unfolding redis_command
do_redis_del hash = redis_command (del hash) >>= λ _. pure tt

-- page = strdup(reply->str) for a string
unfoldable pub page_of : Reply → Option Bytes
page_of (string v) = some (c_str v)
page_of _ = none

unfoldable pub is_page : Option Bytes → Bool
is_page none = false
is_page (some page) = true

-- `err` and `page` after the reply to GET; inl is err == 503
pub data Fetched : Type 0 where
  failed : Fetched
  fetched : Option Bytes → Fetched

pub use_get_reply : {R : Redis} → WsRt → Bytes → Answer → M R Fetched
unfolding page_of is_page do_redis_del handle_redis_error
use_get_reply rt hash (lost kind errstr) = handle_redis_error kind errstr >> pure failed
use_get_reply rt hash (reply r) =
    when (is_page (page_of r) && truth rt.bar) (do_redis_del hash) >> pure (fetched (page_of r))

-- "%s %d GET %s", cut by the 512 bytes of log_entry
get_log : Bool → Srci → ℕ → Bytes → Bytes
get_log burnt ri code url = take 511 (
    client_ip_text ri.ip
    ++ (text " "
        ++ (decimal code ++ (text " GET " ++ (url ++ (if burnt then text " BURNT" else []))))))

pub answer_get : {R : Redis} → WsReq → WsRt → Fetched → M R Bytes
unfolding respond get_log srci_set_return_code
answer_get req rt failed s = respond 503 (text "service unavailable") s
answer_get req rt (fetched none) s =
    (srci_set_return_code 404
        >> log_add wslog_info
            (client_ip_text s.ri.ip ++ (text " " ++ (decimal 404 ++ (text " GET " ++ req.url))))
        >> pure (text "not found"))
      s
answer_get req rt (fetched (some page)) s =
    (srci_set_return_code 200
        >> log_add wslog_info (get_log (truth rt.bar) s.ri 200 req.url)
        >> pure page)
      s

pub get_with : {R : Redis} → WsReq → WsRt → Option Bytes → M R Bytes
unfolding respond use_get_reply answer_get redis_command rai_lock rai_unlock
get_with req rt none = respond 400 (text "malformed request")
get_with req rt (some hash) = do
  when rt.multithreaded rai_lock
  answer ← redis_command (cmd_get hash)
  got ← use_get_reply rt hash answer
  when rt.multithreaded rai_unlock
  answer_get req rt got

pub get : {R : Redis} → WsReq → WsRt → M R Bytes
unfolding get_with respond
get req rt =
    if not (req.urllen == req.hashlen)
    then respond 400 (text "malformed request")
    else (do hash ← convert_hash req.url req.urllen; get_with req rt hash)

-- the four forms of SET
pub set_command : WsRt → Bytes → Bytes → Command
set_command rt hash datastr =
    if truth rt.expiration && truth rt.immutable
    then set hash datastr (some rt.expiration) true
    else if truth rt.expiration
    then set hash datastr (some rt.expiration) false
    else if truth rt.immutable
    then set hash datastr none true
    else set hash datastr none false

-- `err` after the reply to SET
pub post_err : Reply → ℕ
post_err (error e) = 417
post_err nil = 304
post_err (status s) = if starts_with s (text "OK") then 0 else 500
post_err _ = 500

pub use_set_reply : {R : Redis} → Answer → M R ℕ
unfolding post_err handle_redis_error
use_set_reply (lost kind errstr) = handle_redis_error kind errstr >> pure 503
use_set_reply (reply r) = pure (post_err r)

-- The data goes to redisCommand as a C string.
pub do_redis_post : {R : Redis} → WsRt → Bytes → Bytes → M R ℕ
unfolding use_set_reply redis_command rai_lock rai_unlock set_command
do_redis_post rt hash data_ = do
  when rt.multithreaded rai_lock
  answer ← redis_command (set_command rt hash (c_str data_))
  err ← use_set_reply answer
  when rt.multithreaded rai_unlock
  pure err

-- "%s %d POST %s"
post_log : Srci → ℕ → Bytes → Bytes → Bytes
post_log ri code url mark =
    client_ip_text ri.ip ++ (text " " ++ (decimal code ++ (text " POST " ++ (url ++ mark))))

post_page : {R : Redis} → WsReq → ℕ → M R Bytes
unfolding post_log
post_page req z s =
    if z == 304
    then (log_add wslog_info (post_log s.ri z req.url (text " NOTMOD"))
          >> pure (text "object immutable - not modified"))
        s
    else if z == 417
    then pure (text "redis reply error") s
    else if z == 503
    then pure (text "service unavailable") s
    else pure (text "internal server error") s

pub answer_post : {R : Redis} → WsReq → ℕ → M R Bytes
unfolding post_page srci_set_return_code post_log
answer_post req z s =
    if not (z == 0)
    then (srci_set_return_code z >> post_page req z) s
    else (srci_set_return_code 200
          >> log_add wslog_info (post_log s.ri 200 req.url [])
          >> pure (text "ok"))
        s

post_with : {R : Redis} → WsReq → WsRt → Bytes → Option Bytes → M R Bytes
unfolding respond do_redis_post answer_post
post_with req rt data_ none = respond 400 (text "malformed request - invalid token")
post_with req rt data_ (some hash) = do_redis_post rt hash data_ >>= answer_post req

pub post : {R : Redis} → WsReq → WsRt → M R Bytes
unfolding post_with respond
post req rt s =
    if not (req.urllen == req.hashlen)
    then respond 400 (text "malformed request - invalid url") s
    else if ltb (length s.ri.post_data) 5
    then respond 400 (text "malformed request - invalid length") s
    else if not (Z85_validate s.ri.post_data == 0)
    then respond 400 (text "malformed request - invalid Z85") s
    else (do hash ← convert_hash req.url req.urllen; post_with req rt s.ri.post_data hash) s

-- METHOD_GET and METHOD_POST of searest.h
abbrev pub method_get : ℕ
method_get = 1

abbrev pub method_post : ℕ
method_post = 2

unfoldable pub shutdownmsg : {R : Redis} → M R Bytes
unfolding respond
shutdownmsg = respond 503 (text "service unavailable: shutting down")

unfoldable pub method_not_allowed : {R : Redis} → M R Bytes
unfolding srci_set_return_code
method_not_allowed = srci_set_return_code 405 >> λ s.
    (log_add wslog_warn (
          client_ip_text s.ri.ip
          ++ (text " " ++ (decimal s.ri.return_code ++ text " METHOD_NOT_ALLOWED")))
        >> pure (text "method not allowed"))
      s

-- The body that node128 to node512 share; `url` is what follows the node's root.
unfoldable pub node : {R : Redis} → ℕ → ℕ → Bytes → ℕ → WsRt → M R Bytes
unfolding shutdownmsg method_not_allowed
node type hashlen url urllen rt s =
    let req : WsReq = record { type = type; hashlen = hashlen; url = url; urllen = urllen } in
    if s.srv.shutdown
    then shutdownmsg s
    else if s.ri.method_type == method_get
    then get req rt s
    else if s.ri.method_type == method_post
    then post req rt s
    else method_not_allowed s

-- HASHALG128 to HASHALG512 and HASHLEN128 to HASHLEN512 of webstore.h
abbrev pub hashlen : ℕ → ℕ
hashlen bits = bits / 8 * 2

unfoldable pub node128 : {R : Redis} → Bytes → ℕ → WsRt → M R Bytes
node128 = node 1 (hashlen 128)

unfoldable pub node160 : {R : Redis} → Bytes → ℕ → WsRt → M R Bytes
node160 = node 2 (hashlen 160)

unfoldable pub node224 : {R : Redis} → Bytes → ℕ → WsRt → M R Bytes
node224 = node 3 (hashlen 224)

unfoldable pub node256 : {R : Redis} → Bytes → ℕ → WsRt → M R Bytes
node256 = node 4 (hashlen 256)

unfoldable pub node384 : {R : Redis} → Bytes → ℕ → WsRt → M R Bytes
node384 = node 5 (hashlen 384)

unfoldable pub node512 : {R : Redis} → Bytes → ℕ → WsRt → M R Bytes
node512 = node 6 (hashlen 512)
