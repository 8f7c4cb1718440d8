-- ===== src/Rai.antt =====
-- The life of the Redis context (src/rai.c): connect and disconnect. The lock around a command is in
-- webstore.Server.
use webstore.Base.{Bool, true, false, ◌||◌, if◌then◌else◌}
use webstore.Server.{Outcome, done, hangs}
use webstore.Base.Int.{ℤ, pos, negsuc}

-- rai_t: whether `c` is set, and `connected`; the mutex is initialised or not
pub record Rai : Type 0 where
  pub has_context : Bool
  pub has_mutex : Bool
  pub connected : Bool

-- what redisConnect or redisConnectUnix returns: no context, one with an error, one that works
pub data Connecting : Type 0 where
  no_context context_error context_ok : Connecting

-- memset(&g_rt, 0, ...)
abbrev pub no_rai : Rai
no_rai = record { has_context = false; has_mutex = false; connected = false }

connect_with : Rai → Connecting → ℤ × Rai
connect_with r no_context = (negsuc 2, record r { has_context = false; has_mutex = true })
connect_with r context_error = (negsuc 3, record r { has_context = false; has_mutex = true })
connect_with r context_ok =
    (pos 0, record { has_context = true; has_mutex = true; connected = true })

-- `mutex_fails` is pthread_mutex_init's result, `c` what the connection attempt gives.
unfoldable pub rai_connect : Bool → Connecting → Rai → ℤ × Rai
unfolding connect_with
rai_connect mutex_fails c r =
    if r.connected || r.has_context
    then (negsuc 0, r)
    else if mutex_fails
    then (negsuc 1, r)
    else connect_with r c

pub rai_is_connected : Rai → Bool
rai_is_connected r = r.connected

-- `locked` is whether the mutex is held; rai_lock then waits, and here nobody is left to release it.
unfoldable pub rai_disconnect : Bool → Rai → Outcome Rai
rai_disconnect true r = hangs
rai_disconnect false r = done (record r { has_context = false; connected = false })
