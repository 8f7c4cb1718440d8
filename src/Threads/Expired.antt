-- ===== src/Threads/Expired.antt =====
-- The limiter of src/webstore_conn.c when a counter expires while it is being checked, between the
-- GET of check_ip and the INCR of save_ip.
use webstore.Base.{ℕ, ◌^◌, ◌<◌, ◌≡◌, ap, ◌∙◌, true, none, some, arith}
use webstore.Base.Int.{pos, ltb_ℤ}
use webstore.Base.Bytes.{Bytes, text}
use webstore.Base.Decimal.{decimal, atoi, atoi-decimal}
use webstore.Redis.{Redis, IsRedis, reply, string, integer, get as cmd_get, incr}
use webstore.Redis.Clock.{IsTimed, wait, wait-for_ever}
use webstore.Server.{WsRt}
use webstore.Conn.{ips_key}
use webstore.Conn.Section.{on_count, count_in, on_saved}
use webstore.Threads.Turn.{exec}

module _ {R : Redis} (laws : IsRedis R) (timed : IsTimed laws) where
  open laws use {alive, find, get_lem}
  open timed use {second, left, alive_second, find-second, incr_new}

  counted_in :
      (rt : WsRt) (ip : Bytes) (c q : ℕ)
      → rt.reqcount ≡ pos q
      → c < q
      → c < 2 ^ 31
      → ltb_ℤ (atoi (decimal c)) rt.reqcount ≡ true
  counted_in rt ip c q count room small = rw (atoi-decimal c small, count) (ground arith)

  -- the rest of the check once GET has said `c`, on a database where the counter is gone
  rest-exec :
      (rt : WsRt) (ip : Bytes) (c q : ℕ) (d : R.Db)
      → rt.reqcount ≡ pos q
      → c < q
      → c < 2 ^ 31
      → alive d ≡ true
      → find d (ips_key ip) ≡ none
      → exec R (on_count rt ip (reply (string (decimal c)))) d
        ≡ (1, (R.command (incr (ips_key ip)) d).1)
  unfolding exec on_count count_in on_saved
  rest-exec rt ip c q d count room small live gone =
      rw (exec, counted_in rt ip c q count room small, (incr_new d (ips_key ip) live gone).0)

  -- An address was accepted `c` times, fewer than REQCOUNT and than 2 ^ 31, and its counter has one
  -- second to live: GET says `c`. If the second passes before the rest of the check, the connection is
  -- accepted, and the address has a counter of 1 that never expires: however many seconds pass with no
  -- command, it is still there. Redis works, with time and expiry as documented.
  pub expired-for_ever :
      (rt : WsRt) (ip : Bytes) (c q n : ℕ) (d : R.Db)
      → rt.reqcount ≡ pos q
      → c < q
      → c < 2 ^ 31
      → alive d ≡ true
      → find d (ips_key ip) ≡ some (decimal c)
      → left d (ips_key ip) ≡ some 1
      → (R.command (cmd_get (ips_key ip)) d ≡ (reply (string (decimal c)), d))
        × ((exec R (on_count rt ip (reply (string (decimal c)))) (second d)).0 ≡ 1)
        × (find
              (wait laws timed n
                (exec R (on_count rt ip (reply (string (decimal c)))) (second d)).1)
              (ips_key ip)
            ≡ some (text "1"))
  expired-for_ever rt ip c q n d count room small live counted ttl = (
    get_lem d (ips_key ip) live ∙ rw counted,
    ap (λ r. r.0) ran,
    ap (λ r. find (wait laws timed n r.1) (ips_key ip)) ran
        ∙ wait-for_ever laws timed n (R.command (incr (ips_key ip)) (second d)).1 (ips_key ip)
            made.2
        ∙ made.1,
  )
    where
      live_after : alive (second d) ≡ true
      live_after = alive_second d ∙ live

      gone : find (second d) (ips_key ip) ≡ none
      gone = find-second d (ips_key ip) ∙ rw ttl

      made :
          ((R.command (incr (ips_key ip)) (second d)).0 ≡ reply (integer (pos 1)))
          × (find (R.command (incr (ips_key ip)) (second d)).1 (ips_key ip) ≡ some (text "1"))
          × (left (R.command (incr (ips_key ip)) (second d)).1 (ips_key ip) ≡ none)
      made = incr_new (second d) (ips_key ip) live_after gone

      ran :
          exec R (on_count rt ip (reply (string (decimal c)))) (second d)
          ≡ (1, (R.command (incr (ips_key ip)) (second d)).1)
      ran = rest-exec rt ip c q (second d) count room small live_after gone
