-- ===== src/Conn/Counter.antt =====
-- What the check of one address does with its counter (src/webstore_conn.c), from `c` accepted
-- connections in the window.
use webstore.Base.{
  ℕ, zero, suc, ◌^◌, ◌≤◌, ◌<◌, ◌≡◌, refl, Bool, true, false, none, some, arith, ltb, ◌==◌,
  if◌then◌else◌, Bool-cases, inl, inr, ◌∙◌,
}
use native.Mathlib.Numerals.{add-one}
use webstore.Base.Int.{pos, ltb_ℤ}
use webstore.Base.Bytes.{Bytes, bytes_eq, bytes_eq_refl, text}
use webstore.Base.Decimal.{decimal, atoi-decimal}
use webstore.Redis.{Redis, IsRedis, set, incr}
use webstore.Server.{WsRt, State, ◌>>=◌, pure, log_add_to, Returns, Returns-bind, Returns-weaken}
use webstore.Conn.{ips_key, save_ip, check_ip, allow_ip, ws_addr_check}

ltb_pos : (a b : ℕ) → ltb_ℤ (pos a) (pos b) ≡ ltb a b
ltb_pos a b = ground arith

first : (q : ℕ) → 0 < q → ltb 0 q ≡ true
first q h = ground arith

-- "1" is the count 1
one : text "1" ≡ decimal 1
unfolding text decimal
one = refl

module _ {R : Redis} (laws : IsRedis R) where
  open laws use {
    alive, find, get_lem, set_reply, set_alive, find-set, incr_lem, incr_alive, find-incr,
  }

  -- what the limiter has stored of an address after `c` accepted connections
  abbrev pub Counted : Bytes → ℕ → R.Db → Type 0
  Counted ip zero d = find d (ips_key ip) ≡ none
  Counted ip (suc c) d = find d (ips_key ip) ≡ some (decimal (suc c))

  -- `Extra` is what else is known of the counter, and kept by the two commands that change it.
  module _ (rt : WsRt) (ip : Bytes) (p q : ℕ) (period : rt.reqperiod ≡ pos p) (p_pos : 0 < p)
      (count : rt.reqcount ≡ pos q) (q_pos : 0 < q) (q_int : q < 2 ^ 31) (Extra : ℕ → R.Db → Type 0)
      (extra_set : (d : R.Db)
        → alive d ≡ true
        → Extra 1 (R.command (set (ips_key ip) (text "1") (some (pos p)) false) d).1)
      (extra_incr : (d : R.Db) (c : ℕ)
        → alive d ≡ true
        → Counted ip (suc c) d
        → Extra (suc c) d
        → Extra (suc (suc c)) (R.command (incr (ips_key ip)) d).1) where
    abbrev pub Held : ℕ → R.Db → Type 0
    Held c d = Counted ip c d × Extra c d

    -- What a check leaves: the verdict of the count `c`, the next count, the lock free, Redis alive.
    abbrev pub Checked : ℕ → ℕ × State R → Type 0
    Checked c r =
        (r.0 ≡ (if ltb c q then 1 else 0))
        × Held (if ltb c q then suc c else c) r.1.srv.db
        × (r.1.srv.locked ≡ false)
        × (alive r.1.srv.db ≡ true)

    pub check_ip-Checked :
        (c : ℕ) (s : State R) (b : Bool)
        → alive s.srv.db ≡ true
        → s.srv.locked ≡ b
        → Held c s.srv.db
        → c ≤ q
        → Returns (check_ip rt ip s) λ r.
          (r.0 ≡ (if ltb c q then 1 else 0))
          × Held (if ltb c q then suc c else c) r.1.srv.db
          × (r.1.srv.locked ≡ b)
          × (alive r.1.srv.db ≡ true)
    unfolding check_ip log_add_to save_ip
    check_ip-Checked zero s b live held counted h =
        rw
          (
            get_lem s.srv.db (ips_key ip) live,
            counted.0,
            first q q_pos,
            period,
            ◌>>=◌,
            set_reply s.srv.db (ips_key ip) (text "1") (some (pos p)) false live p_pos,
          )
          (
            refl,
            (
              find-set s.srv.db (ips_key ip) (text "1") (some (pos p)) false (ips_key ip) live p_pos
                  ∙ rw (bytes_eq_refl, one),
              extra_set s.srv.db live,
            ),
            held,
            set_alive s.srv.db (ips_key ip) (text "1") (some (pos p)) false live,
          )
    check_ip-Checked (suc c) s b live held counted h = elim (Bool-cases (ltb (suc c) q)) [
      | inl room ↦
          rw
            (
              get_lem s.srv.db (ips_key ip) live,
              counted.0,
              atoi-decimal (suc c) (omega arith),
              count,
              ltb_pos (suc c) q,
              room,
              ◌>>=◌,
              incr_lem s.srv.db (ips_key ip) (suc c) live (ground arith) counted.0,
            )
            (
              refl,
              (
                find-incr s.srv.db (ips_key ip) (suc c) (ips_key ip) live (ground arith) counted.0
                    ∙ rw (bytes_eq_refl, add-one),
                extra_incr s.srv.db c live counted.0 counted.1,
              ),
              held,
              incr_alive s.srv.db (ips_key ip) live,
            )
      | inr full ↦
          rw
            (
              get_lem s.srv.db (ips_key ip) live,
              counted.0,
              atoi-decimal (suc c) (omega arith),
              count,
              ltb_pos (suc c) q,
              full,
            )
            (refl, counted, held, live)
    ]

    -- One connection of an address that has been accepted `c` times in the window: it is accepted
    -- exactly if `c` is below REQCOUNT, and then counted; the lock is free again.
    allow_ip-Checked :
        (c : ℕ) (s : State R)
        → alive s.srv.db ≡ true
        → s.srv.locked ≡ false
        → Held c s.srv.db
        → c ≤ q
        → Returns (allow_ip rt ip s) (Checked c)
    unfolding allow_ip
    allow_ip-Checked c s live free counted h = elim (Bool-cases rt.multithreaded) [
      | inl many ↦
          rw (many, free)
            (Returns-bind (check_ip rt ip) _ (record s { srv = record s.srv { locked = true } }) _
              (Returns-weaken (check_ip rt ip (record s { srv = record s.srv { locked = true } }))
                (check_ip-Checked c (record s { srv = record s.srv { locked = true } }) true live
                  refl counted h)
                (λ r k. (k.0, k.1, refl, k.3))))
      | inr one ↦ rw one (
          Returns-bind (check_ip rt ip) _ s _ (
            Returns-weaken (check_ip rt ip s) (check_ip-Checked c s false live free counted h)
              (λ r k. k)))
    ]

    pub addr_check-Checked :
        (c : ℕ) (s : State R)
        → bytes_eq ip (text "127.0.0.1") ≡ false
        → alive s.srv.db ≡ true
        → s.srv.locked ≡ false
        → Held c s.srv.db
        → c ≤ q
        → Returns (ws_addr_check rt ip s) (Checked c)
    unfolding ws_addr_check
    addr_check-Checked c s remote live free counted h =
        rw (remote, ◌>>=◌)
          (Returns-bind (allow_ip rt ip) _ s _
            (Returns-weaken (allow_ip rt ip s) (allow_ip-Checked c s live free counted h) back))
      where
        zero_verdict :
            (z : ℕ)
            → (z == 0) ≡ true
            → z ≡ (if ltb c q then 1 else 0)
            → ◌≡◌ {A = ℕ} 0 (if ltb c q then 1 else 0)
        zero_verdict z e h' = ground arith

        one_verdict :
            (z : ℕ)
            → (z == 0) ≡ false
            → z ≡ (if ltb c q then 1 else 0)
            → ◌≡◌ {A = ℕ} 1 (if ltb c q then 1 else 0)
        one_verdict z e h' = ground arith

        back :
            (r : ℕ × State R)
            → Checked c r
            → Returns ((if r.0 == 0 then pure 0 else pure 1) r.1) (Checked c)
        back r k = elim (Bool-cases (r.0 == 0)) [
          | inl zero' ↦ rw zero' (zero_verdict r.0 zero' k.0, k.1, k.2, k.3)
          | inr more ↦ rw more (one_verdict r.0 more k.0, k.1, k.2, k.3)
        ]
