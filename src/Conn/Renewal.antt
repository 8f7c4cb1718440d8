-- ===== src/Conn/Renewal.antt =====
-- The next window of the limiter (src/webstore_conn.c): the counter of an address expires REQPERIOD
-- seconds after the first connection, and the address has its REQCOUNT connections again.
use webstore.Base.{ℕ, zero, suc, ◌^◌, ◌<◌, min, ◌≡◌, ap, ◌∙◌, true, false, none, some, leb, arith}
use webstore.Base.Int.{pos}
use webstore.Base.Bytes.{Bytes, bytes_eq, bytes_eq_refl, text}
use webstore.Redis.{Redis, IsRedis, set, incr, is_some}
use webstore.Redis.Clock.{IsTimed, wait, wait_alive, wait-expires, wait-gone}
use webstore.Server.{WsRt, State, Returns, Returns-weaken}
use webstore.Conn.{ips_key}
use webstore.Conn.Counter.{Counted}
use webstore.Conn.Window.{connections, connections-Standing, window_limit}

module _ {R : Redis} (laws : IsRedis R) (timed : IsTimed laws) where
  open laws use {alive, find}
  open timed use {left, left-set, left-incr}

  -- a counter that is there has no more than the period to live
  abbrev Dated : Bytes → ℕ → ℕ → R.Db → Type 0
  Dated ip p zero d = Unit
  Dated ip p (suc c) d = left d (ips_key ip) ≡ some p

  -- the server some seconds later
  abbrev pub pause : ℕ → State R → State R
  pause n s = record s { srv = record s.srv { db = wait laws timed n s.srv.db } }

  past : (p : ℕ) → leb (suc p) p ≡ false
  past p = ground arith

  module _ (rt : WsRt) (ip : Bytes) (p q : ℕ) (period : rt.reqperiod ≡ pos (suc p))
      (count : rt.reqcount ≡ pos q) (q_pos : 0 < q) (q_int : q < 2 ^ 31) where
    Dated-set :
        (d : R.Db)
        → alive d ≡ true
        → Dated ip
            (suc p)
            1
            (R.command (set (ips_key ip) (text "1") (some (pos (suc p))) false) d).1
    Dated-set d live =
        left-set d (ips_key ip) (text "1") (some (pos (suc p))) false (ips_key ip) live
          (omega arith)
        ∙ rw (bytes_eq_refl (ips_key ip))

    Dated-incr :
        (d : R.Db) (c : ℕ)
        → alive d ≡ true
        → Counted laws ip (suc c) d
        → Dated ip (suc p) (suc c) d
        → Dated ip (suc p) (suc (suc c)) (R.command (incr (ips_key ip)) d).1
    Dated-incr d c live counted dated =
        left-incr d (ips_key ip) (ips_key ip) live (ap is_some counted) ∙ dated

    -- once the period is over, the counter is gone
    counter_gone :
        (c : ℕ) (d : R.Db)
        → Counted laws ip c d
        → Dated ip (suc p) c d
        → find (wait laws timed (suc p) d) (ips_key ip) ≡ none
    counter_gone zero d counted dated = wait-gone laws timed (suc p) d (ips_key ip) counted
    counter_gone (suc c) d counted dated =
        wait-expires laws timed (suc p) p d (ips_key ip) dated ∙ rw (past p)

    -- After `n` connections in a row of one address other than 127.0.0.1, from a time when it has no
    -- counter, REQPERIOD seconds pass with no command, and `m` more connections follow: of each of
    -- the two rows the first REQCOUNT are accepted, and the others are denied. REQPERIOD and
    -- REQCOUNT are positive, REQCOUNT is below 2 ^ 31, Redis works, with time and expiry as
    -- documented, and its lock is free.
    pub window_renews :
        (n m : ℕ) (s : State R)
        → bytes_eq ip (text "127.0.0.1") ≡ false
        → alive s.srv.db ≡ true
        → s.srv.locked ≡ false
        → find s.srv.db (ips_key ip) ≡ none
        → Returns (connections rt ip n s) λ r.
          (r.0 ≡ min n q) × Returns (connections rt ip m (pause (suc p) r.1)) (λ t. t.0 ≡ min m q)
    window_renews n m s remote live free none_yet =
        Returns-weaken (connections rt ip n s)
          (connections-Standing laws rt ip (suc p) q period (omega arith) count q_pos q_int
            (Dated ip (suc p)) Dated-set Dated-incr n s remote live free (none_yet, tt))
          (λ r h. (
            h.0,
            window_limit laws rt ip (suc p) q period (omega arith) count q_pos q_int m
                (pause (suc p) r.1) remote (wait_alive laws timed (suc p) r.1.srv.db ∙ h.1.live)
                h.1.free (counter_gone h.1.counter.0 r.1.srv.db h.1.counter.2.0 h.1.counter.2.1),
          ))
