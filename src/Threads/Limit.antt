-- ===== src/Threads/Limit.antt =====
-- The limiter of src/webstore_conn.c when the connections of one address are checked by threads that
-- interleave.
use webstore.Base.{
  ℕ, suc, ◌+◌, ◌^◌, ◌≤◌, ◌<◌, min, ◌≡◌, refl, subst, ap, ◌∙◌, true, none, List, [], ◌∷◌, arith, ltb,
  if◌then◌else◌, length, length-map,
}
use webstore.Base.Int.{pos}
use webstore.Base.Bytes.{Bytes}
use webstore.Redis.{Redis, IsRedis}
use webstore.Server.{WsRt, State, Returns, Returns-weaken}
use webstore.Conn.{ips_key, check_ip}
use webstore.Conn.Counter.{Counted, check_ip-Checked}
use webstore.Conn.Section.{check_section, check_ip-section}
use webstore.Threads.System.{System, Reach, start}
use webstore.Threads.Turn.{exec, exec-run, in_turn}
use webstore.Threads.Invariant.{order}
use webstore.Threads.Serial.{finished_results}

-- how many of the threads that have left were told to accept: a verdict is 1 or 0
unfoldable pub verdicts : List (ℕ × ℕ) → ℕ
verdicts [] = 0
verdicts (r ∷ rest) = r.1 + verdicts rest

module _ {R : Redis} (laws : IsRedis R) where
  open laws use {alive, find}

  module _ (rt : WsRt) (ip : Bytes) (p q : ℕ) (period : rt.reqperiod ≡ pos p) (p_pos : 0 < p)
      (count : rt.reqcount ≡ pos q) (q_pos : 0 < q) (q_int : q < 2 ^ 31) (s : State R) where
    -- the check by itself, of an address accepted `c` times
    check-exec :
        (c : ℕ) (d : R.Db)
        → alive d ≡ true
        → Counted laws ip c d
        → c ≤ q
        → ((exec R (check_section rt ip) d).0 ≡ (if ltb c q then 1 else 0))
          × Counted laws ip (if ltb c q then suc c else c) (exec R (check_section rt ip) d).1
          × (alive (exec R (check_section rt ip) d).1 ≡ true)
    check-exec c d live counted h =
        exec-run (check_section rt ip) (record s { srv = record s.srv { db = d } })
          (λ r.
            (r.0 ≡ (if ltb c q then 1 else 0))
            × Counted laws ip (if ltb c q then suc c else c) r.1
            × (alive r.1 ≡ true))
          (subst
            (λ o. Returns o (λ r.
              (r.0 ≡ (if ltb c q then 1 else 0))
              × Counted laws ip (if ltb c q then suc c else c) r.1.srv.db
              × (alive r.1.srv.db ≡ true)))
            (check_ip-section rt ip (record s { srv = record s.srv { db = d } }))
            (Returns-weaken (check_ip rt ip (record s { srv = record s.srv { db = d } }))
              (check_ip-Checked laws rt ip p q period p_pos count q_pos q_int (λ n e. Unit)
                (λ e live'. tt) (λ e n live' number extra. tt) c
                (record s { srv = record s.srv { db = d } }) s.srv.locked live refl (counted, tt) h)
              (λ r k. (k.0, k.1.0, k.3))))

    zero_min : (m : ℕ) → 0 ≡ min 0 m
    zero_min m = omega arith

    next_min : (n : ℕ) → (if ltb (min n q) q then suc (min n q) else min n q) ≡ min (suc n) q
    next_min n = ground arith

    counted_up :
        (n x v : ℕ) → x ≡ (if ltb (min n q) q then 1 else 0) → v ≡ min n q → x + v ≡ min (suc n) q
    counted_up n x v e f = ground arith

    -- the checks of `threads` in turn
    in_turn-accepts :
        (d : R.Db) (threads : List ℕ)
        → alive d ≡ true
        → find d (ips_key ip) ≡ none
        → (verdicts (in_turn R (λ _. check_section rt ip) d threads).0 ≡ min (length threads) q)
          × Counted laws ip
              (min (length threads) q)
              (in_turn R (λ _. check_section rt ip) d threads).1
          × (alive (in_turn R (λ _. check_section rt ip) d threads).1 ≡ true)
    unfolding in_turn verdicts
    in_turn-accepts d [] live fresh =
        (zero_min q, subst (λ c. Counted laws ip c d) (zero_min q) fresh, live)
    in_turn-accepts d (i ∷ threads) live fresh =
        let before = in_turn-accepts d threads live fresh in
        let mine = check-exec (min (length threads) q) _ before.2 before.1 (omega arith) in
        (
          counted_up (length threads) _ _ mine.0 before.0,
          subst
              (λ c.
                Counted laws ip c
                  (exec R (check_section rt ip)
                    (in_turn R (λ _. check_section rt ip) d threads).1).1)
              (next_min (length threads)) mine.1,
          mine.2,
        )

    -- Whatever the interleaving of the threads that check one address, from a time when it has no
    -- counter and while the counter does not expire: of those that have left, REQCOUNT were told to
    -- accept, or all if they are fewer. REQPERIOD and REQCOUNT are positive, REQCOUNT is below
    -- 2 ^ 31, and Redis works.
    pub threads_limit :
        (y : System R ℕ)
        → Reach (start (λ _. check_section rt ip) s.srv) y
        → alive s.srv.db ≡ true
        → find s.srv.db (ips_key ip) ≡ none
        → verdicts y.finished ≡ min (length y.finished) q
    threads_limit y way live fresh =
        ap verdicts (finished_results (λ _. check_section rt ip) s.srv y way)
        ∙ (in_turn-accepts s.srv.db (order y) live fresh).0
        ∙ rw (length-map (λ r. r.0) y.finished)
