-- ===== src/Server.antt =====
-- What the handlers of the server share: the process's global state (webstore.c), the log
-- (webstore_log.c), the lock on the Redis context (rai.c), and the runtime configuration
-- (webstore_ops.h). A handler is an action on this state and on the request's record.
use webstore.Base.{
  ℕ, Bool, true, false, Option, none, some, List, [], ◌∷◌, ◌++◌, ◌==◌, if◌then◌else◌,
}
use webstore.Base.Int.{ℤ}
use webstore.Base.Bytes.{Bytes, text}
use webstore.Redis.{
  Redis, Command, Answer, ErrorKind, err_io, err_eof, err_protocol, err_oom, err_other, err_unknown,
}

-- wsrt_t, without the context `rc`; `multithreaded`, `immutable` and `bar` are only ever 0 or 1 or
-- tested for being 0
pub record WsRt : Type 0 where
  pub multithreaded : Bool
  pub reqperiod : ℤ
  pub reqcount : ℤ
  pub max_post_data_size : ℤ
  pub expiration : ℤ
  pub immutable : ℤ
  pub bar : ℤ

-- a line of the log after its timestamp: the level's three letters and the message
pub record LogLine : Type 0 where
  pub level : Bytes
  pub message : Bytes

-- `db` and `locked` are g_rt.rc: the context with the service behind it, and its mutex. `log` is
-- g_lf, none while no file is open.
pub record Server (R : Redis) : Type 0 where
  pub db : R.Db
  pub locked : Bool
  pub shutdown : Bool
  pub redis_error : Bool
  pub log : Option (List LogLine)

-- srci_t, one request. The pointer `post_data` with `post_data_len` is one list of that length.
pub record Srci : Type 0 where
  pub ip : Option Bytes
  pub method_type : ℕ
  pub url : Bytes
  pub urllen : ℕ
  pub accept : Option Bytes
  pub auth : Option Bytes
  pub content_length : ℕ
  pub post_data : List ℕ
  pub content_type : Option Bytes
  pub allow : Option Bytes
  pub cors : Bool
  pub return_code : ℕ
  pub return_page : Option Bytes

pub record State (R : Redis) : Type 0 where
  pub ri : Srci
  pub srv : Server R

-- A call returns, ends the process by exit(), or waits for ever on a mutex that its own thread holds.
pub data Outcome {ℓ} (A : Type ℓ) : Type ℓ where
  done : A → Outcome A
  exits : ℕ → Outcome A
  hangs : Outcome A

abbrev pub M : Redis → Type 0 → Type 0
M R A = State R → Outcome (A × State R)

infixl 5 ◌>>=◌ ◌>>◌
abbrev pub ◌>>=◌ : {R : Redis} {A B : Type 0} → M R A → (A → M R B) → M R B
◌>>=◌ m f s = elim (m s) [ done (a, s') ↦ f a s' | exits n ↦ exits n | hangs ↦ hangs ]

abbrev pub ◌>>◌ : {R : Redis} {B : Type 0} → M R (Unit {0}) → M R B → M R B
m >> k = m >>= λ _. k

abbrev pub pure : {R : Redis} {A : Type 0} → A → M R A
pure a s = done (a, s)

-- if(b) { m }
abbrev pub when : {R : Redis} → Bool → M R (Unit {0}) → M R (Unit {0})
when b m s = if b then m s else done (tt, s)

-- a change of the request's record, of the process's state
abbrev on_ri : {R : Redis} → (Srci → Srci) → M R (Unit {0})
on_ri f s = done (tt, record s { ri = f s.ri })

abbrev on_srv : {R : Redis} → (Server R → Server R) → M R (Unit {0})
on_srv f s = done (tt, record s { srv = f s.srv })

abbrev pub wslog_info : ℕ
wslog_info = 1

abbrev pub wslog_warn : ℕ
wslog_warn = 2

abbrev pub wslog_err : ℕ
wslog_err = 3

abbrev wslog_crit : ℕ
wslog_crit = 4

-- the switch of log_add on the level, in a build without DEBUG
unfoldable pub level_str : ℕ → Option Bytes
level_str level =
    if level == wslog_info
    then some (text "INF")
    else if level == wslog_warn
    then some (text "WRN")
    else if level == wslog_err
    then some (text "ERR")
    else if level == wslog_crit
    then some (text "CRT")
    else none

unfoldable pub append_line : Option (List LogLine) → Option Bytes → Bytes → Option (List LogLine)
append_line none l message = none
append_line (some lines) none message = some lines
append_line (some lines) (some level) message =
    some (lines ++ record { level = level; message = message } ∷ [])

-- the effect of log_add on the file
unfoldable pub log_add_to : {R : Redis} → ℕ → Bytes → Server R → Server R
unfolding level_str append_line
log_add_to level message srv = record srv { log = append_line srv.log (level_str level) message }

abbrev pub log_add : {R : Redis} → ℕ → Bytes → M R (Unit {0})
log_add level message = on_srv (log_add_to level message)

-- pthread_mutex_lock on g_rt.rc.rl, as its owner sees it
unfoldable pub rai_lock : {R : Redis} → M R (Unit {0})
rai_lock s =
    if s.srv.locked then hangs else done (tt, record s { srv = record s.srv { locked = true } })

unfoldable pub rai_unlock : {R : Redis} → M R (Unit {0})
rai_unlock s = done (tt, record s { srv = record s.srv { locked = false } })

-- redisCommand on g_rt.rc.c
unfoldable pub redis_command : {R : Redis} → Command → M R Answer
redis_command {R} c s =
    let answer = R.command c s.srv.db in
    done (answer.0, record s { srv = record s.srv { db = answer.1 } })

unfoldable pub etype : ErrorKind → Bytes
etype err_io = text "REDIS_ERR_IO"
etype err_eof = text "REDIS_ERR_EOF"
etype err_protocol = text "REDIS_ERR_PROTOCOL"
etype err_oom = text "REDIS_ERR_OOM"
etype err_other = text "REDIS_ERR_OTHER"
etype err_unknown = text "UNKNOWN"

-- logs the error, and asks the main loop to stop
unfoldable pub handle_redis_error : {R : Redis} → ErrorKind → Bytes → M R (Unit {0})
unfolding etype
handle_redis_error kind errstr =
    log_add wslog_err (etype kind ++ text ": " ++ errstr)
    >> on_srv (λ srv. record srv { redis_error = true; shutdown = true })

unfoldable pub srci_set_return_code : {R : Redis} → ℕ → M R (Unit {0})
srci_set_return_code code = on_ri (λ ri. record ri { return_code = code })

-- srci_get_client_ip as printf's %s shows it
abbrev pub client_ip_text : Option Bytes → Bytes
client_ip_text none = text "(null)"
client_ip_text (some ip) = ip

-- The call returns, with a result of which `P` holds.
abbrev pub Returns {ℓ} : {A : Type ℓ} → Outcome A → (A → Type 0) → Type 0
Returns (done a) P = P a
Returns (exits n) P = ⊥
Returns hangs P = ⊥

pub Returns-bind :
    {R : Redis} {A B : Type 0} (m : M R A) (f : A → M R B) (s : State R) (P : B × State R → Type 0)
    → Returns (m s) (λ r. Returns (f r.0 r.1) P)
    → Returns ((m >>= f) s) P
Returns-bind {R} {A} {B} m f s P h = go (m s) h
  where
    go :
        (o : Outcome (A × State R))
        → Returns o (λ r. Returns (f r.0 r.1) P)
        → Returns (elim o [ done (a, s') ↦ f a s' | exits n ↦ exits n | hangs ↦ hangs ]) P
    go (done r) k = k
    go (exits n) k = k
    go hangs k = k

pub Returns-weaken {ℓ} :
    {A : Type ℓ} (o : Outcome A) {P Q : A → Type 0}
    → Returns o P
    → ((a : A) → P a → Q a)
    → Returns o Q
Returns-weaken (done a) h f = f a h
Returns-weaken (exits n) h f = h
Returns-weaken hangs h f = h

pub Returns-both {ℓ} :
    {A : Type ℓ} (o : Outcome A) (P Q : A → Type 0)
    → Returns o P
    → Returns o Q
    → Returns o (λ a. P a × Q a)
Returns-both (done a) P Q h k = (h, k)
Returns-both (exits n) P Q h k = h
Returns-both hangs P Q h k = h
