-- ===== src/Conn/Window.antt =====
-- The window of the limiter: how many connections of one address are accepted before its counter
-- expires.
use webstore.Base.{
  ℕ, zero, suc, ◌+◌, ◌-◌, ◌^◌, ◌≤◌, ◌<◌, min, ◌≡◌, true, false, none, some, arith, ltb,
  if◌then◌else◌,
}
use webstore.Base.Int.{pos}
use webstore.Base.Bytes.{Bytes, bytes_eq, text}
use webstore.Redis.{Redis, IsRedis, set, incr}
use webstore.Server.{WsRt, State, M, ◌>>=◌, pure, Returns, Returns-bind, Returns-weaken}
use webstore.Conn.{ips_key, ws_addr_check}
use webstore.Conn.Counter.{Counted, Held, addr_check-Checked}

-- `n` connections of one address in a row, and how many of them are accepted
pub connections : {R : Redis} → WsRt → Bytes → ℕ → M R ℕ
connections rt ip zero = pure 0
connections rt ip (suc n) = do z ← ws_addr_check rt ip; more ← connections rt ip n; pure (z + more)

zero_min : (m : ℕ) → 0 ≡ min 0 m
zero_min m = omega arith

module _ {R : Redis} (laws : IsRedis R) where
  open laws use {alive, find}

  -- `Extra` is what else is known of the counter, and kept by the two commands that change it.
  module _ (rt : WsRt) (ip : Bytes) (p q : ℕ) (period : rt.reqperiod ≡ pos p) (p_pos : 0 < p)
      (count : rt.reqcount ≡ pos q) (q_pos : 0 < q) (q_int : q < 2 ^ 31) (Extra : ℕ → R.Db → Type 0)
      (extra_set : (d : R.Db)
        → alive d ≡ true
        → Extra 1 (R.command (set (ips_key ip) (text "1") (some (pos p)) false) d).1)
      (extra_incr : (d : R.Db) (c : ℕ)
        → alive d ≡ true
        → Counted laws ip (suc c) d
        → Extra (suc c) d
        → Extra (suc (suc c)) (R.command (incr (ips_key ip)) d).1) where
    abbrev Kept : ℕ → R.Db → Type 0
    Kept = Held laws rt ip p q period p_pos count q_pos q_int Extra extra_set extra_incr

    next_le : (c : ℕ) → c ≤ q → (if ltb c q then suc c else c) ≤ q
    next_le c h = ground arith

    -- what `n` connections in a row are worth from a count `c`
    window_step :
        (c n : ℕ)
        → c ≤ q
        → (if ltb c q then 1 else 0) + min n (q - (if ltb c q then suc c else c))
          ≡ min (suc n) (q - c)
    window_step c n h = ground arith

    -- the state between connections
    pub record Standing (t : State R) : Type 0 where
      pub live : alive t.srv.db ≡ true
      pub free : t.srv.locked ≡ false
      pub counter : (c : ℕ) × (c ≤ q) × Kept c t.srv.db

    connections-accepted :
        (n c : ℕ) (s : State R)
        → bytes_eq ip (text "127.0.0.1") ≡ false
        → alive s.srv.db ≡ true
        → s.srv.locked ≡ false
        → Kept c s.srv.db
        → c ≤ q
        → Returns (connections rt ip n s) (λ r. (r.0 ≡ min n (q - c)) × Standing r.1)
    unfolding connections
    connections-accepted zero c s remote live free counted h =
        (zero_min (q - c), record { live = live; free = free; counter = (c, h, counted) })
    connections-accepted (suc n) c s remote live free counted h =
        Returns-bind (ws_addr_check rt ip) _ s _ (
          Returns-weaken (ws_addr_check rt ip s)
            (addr_check-Checked laws rt ip p q period p_pos count q_pos q_int Extra extra_set
              extra_incr c s remote live free counted h)
            (λ r k. Returns-bind (connections rt ip n) _ r.1 _ (
              Returns-weaken (connections rt ip n r.1)
                (connections-accepted n (if ltb c q then suc c else c) r.1 remote k.3 k.2 k.1
                  (next_le c h))
                (λ t e. (total r.0 t.0 k.0 e.0, e.1)))))
      where
        total :
            (x y : ℕ)
            → x ≡ (if ltb c q then 1 else 0)
            → y ≡ min n (q - (if ltb c q then suc c else c))
            → x + y ≡ min (suc n) (q - c)
        total x y e f = omega (arith, window_step c n h, e, f)

    -- from a time when the address has no counter
    pub connections-Standing :
        (n : ℕ) (s : State R)
        → bytes_eq ip (text "127.0.0.1") ≡ false
        → alive s.srv.db ≡ true
        → s.srv.locked ≡ false
        → Kept 0 s.srv.db
        → Returns (connections rt ip n s) (λ r. (r.0 ≡ min n q) × Standing r.1)
    connections-Standing n s remote live free none_yet =
        Returns-weaken (connections rt ip n s)
          (connections-accepted n 0 s remote live free none_yet (omega arith))
          (λ r e. (omega (arith, e.0), e.1))

  -- Of `n` connections in a row of one address other than 127.0.0.1, from a time when it has no
  -- counter and while the counter does not expire, the first REQCOUNT are accepted and the others
  -- are denied. REQPERIOD and REQCOUNT are positive, REQCOUNT is below 2 ^ 31, Redis works and its
  -- lock is free.
  pub window_limit :
      (rt : WsRt) (ip : Bytes) (p q : ℕ)
      → rt.reqperiod ≡ pos p
      → 0 < p
      → rt.reqcount ≡ pos q
      → 0 < q
      → q < 2 ^ 31
      → (n : ℕ) (s : State R) → bytes_eq ip (text "127.0.0.1") ≡ false
      → alive s.srv.db ≡ true
      → s.srv.locked ≡ false
      → find s.srv.db (ips_key ip) ≡ none
      → Returns (connections rt ip n s) (λ r. r.0 ≡ min n q)
  window_limit rt ip p q period p_pos count q_pos q_int n s remote live free none_yet =
      Returns-weaken (connections rt ip n s)
        (connections-Standing rt ip p q period p_pos count q_pos q_int (λ c d. Unit) (λ d e. tt)
          (λ d c e f g. tt) n s remote live free (none_yet, tt))
        (λ r e. e.0)
