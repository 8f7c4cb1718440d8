-- ===== src/Tests/Threads.antt =====
-- Two threads that ask for one token with BAR set, and threads of one address at the limiter.
use webstore.Base.{ℕ, ◌≡◌, refl, false, true, none, some, [], ◌∷◌, min, length, arith}
use webstore.Base.Bytes.{text, c_str, bytes_eq}
use webstore.Base.Int.{pos}
use webstore.Redis.{del, reply, string, nil}
use webstore.Redis.Mem.{Mem, mem_redis, mem_redis_laws, mem_alive, mem_find, lookup, run}
use webstore.Server.{Server, WsRt, log_add_to, wslog_info}
use webstore.Node.{Fetched, fetched, page_of, is_page}
use webstore.Node.Section.{get_section, on_get_reply, burn_or_keep}
use webstore.Conn.{ips_key, saving, conn_log}
use webstore.Conn.Section.{check_section, on_count, on_saved}
use webstore.Threads.Sections.{Section, ret, call}
use webstore.Threads.System.{
  System, inside, left, enter, act, leave, move, Reach, here, later, start, update, advance,
}
use webstore.Threads.Turn.{in_turn}
use webstore.Threads.Invariant.{order}
use webstore.Threads.Serial.{serializable}
use webstore.Threads.Limit.{verdicts, threads_limit}
use webstore.Threads.Burn.{read_once, threads_read_once}
use webstore.Tests.Data.{config, token, server, holding, empty, message, state}

abbrev burning : WsRt
burning = config 0 0 1

abbrev ask : Section Fetched
ask = get_section burning token

abbrev Two : Type 0
Two = System mem_redis Fetched

abbrev entered : ℕ → Section Fetched → Two → Two
entered i section y = record y {
  srv = record y.srv { locked = true };
  pc = update y.pc i (inside section);
}

abbrev acted : ℕ → Section Fetched → Mem → Two → Two
acted i next m y = record y { srv = record y.srv { db = m }; pc = update y.pc i (inside next) }

abbrev gone : ℕ → Fetched → Two → Two
gone i a y = record y {
  srv = record y.srv { locked = false };
  pc = update y.pc i (left a);
  finished = (i, a) ∷ y.finished;
}

-- thread 1 gets in, reads, removes and leaves
abbrev after_del : Mem
after_del = (mem_redis.command (del token) (holding message)).1

abbrev first : Two
first = start (λ _. ask) (server (holding message))

abbrev inside_1 : Two
inside_1 = entered 1 ask first

abbrev read_1 : Two
read_1 = acted 1 (on_get_reply burning token (reply (string message))) (holding message) inside_1

abbrev burnt_1 : Two
burnt_1 = acted 1 (ret (fetched (some (c_str message)))) after_del read_1

abbrev gone_1 : Two
gone_1 = gone 1 (fetched (some (c_str message))) burnt_1

-- then thread 0 finds nothing
abbrev inside_0 : Two
inside_0 = entered 0 ask gone_1

abbrev read_0 : Two
read_0 = acted 0 (ret (fetched none)) after_del inside_0

abbrev gone_0 : Two
gone_0 = gone 0 (fetched none) read_0

way_1 : Reach first gone_1
unfolding update advance get_section on_get_reply burn_or_keep page_of is_page start lookup bytes_eq
    text run
way_1 =
    later burnt_1 gone_1
      (later read_1 burnt_1
        (later inside_1 read_1 (later first inside_1 here (move 1 inside_1 (enter ask refl refl))) (
          move 1 read_1
            (act ask (on_get_reply burning token (reply (string message))) read_1.srv refl refl)))
        (move 1 burnt_1 (
          act (on_get_reply burning token (reply (string message)))
            (ret (fetched (some (c_str message)))) burnt_1.srv refl refl)))
      (move 1 gone_1 (leave (fetched (some (c_str message))) refl))

way_0 : Reach first gone_0
unfolding update advance get_section on_get_reply burn_or_keep page_of is_page start lookup bytes_eq
    text run
way_0 =
    later read_0 gone_0
      (later inside_0 read_0 (later gone_1 inside_0 way_1 (move 0 inside_0 (enter ask refl refl)))
        (move 0 read_0 (act ask (ret (fetched none)) read_0.srv refl refl)))
      (move 0 gone_0 (leave (fetched none) refl))

serializable_example :
    (gone_0.finished, gone_0.srv.db) ≡ in_turn mem_redis (λ _. ask) (holding message) (order gone_0)
serializable_example = serializable (λ _. ask) (server (holding message)) gone_0 way_0 refl

threads_read_once_example : gone_0.finished ≡ read_once (c_str message) (order gone_0)
unfolding text lookup bytes_eq
threads_read_once_example =
    threads_read_once mem_redis_laws burning token refl (server (holding message)) gone_0 message
      way_0 (mem_alive (holding message)) (mem_find (holding message) token)

-- one thread at the limiter
abbrev checked : Section ℕ
checked = check_section (config 0 0 0) (text "10.0.0.1")

abbrev replied : Section ℕ
replied = on_count (config 0 0 0) (text "10.0.0.1") (reply nil)

abbrev noted : Section ℕ
noted = call (saving (text "10.0.0.1") false (pos 60)) on_saved

abbrev One : Type 0
One = System mem_redis ℕ

abbrev at_check : One
at_check = start (λ _. checked) (server empty)

abbrev in_check : One
in_check = record at_check {
  srv = record at_check.srv { locked = true };
  pc = update at_check.pc 0 (inside checked);
}

abbrev moved : Section ℕ → Server mem_redis → One → One
moved next srv y = record y { srv = srv; pc = update y.pc 0 (inside next) }

abbrev got_reply : One
got_reply = moved replied in_check.srv in_check

abbrev got_noted : One
got_noted =
    moved noted
      (log_add_to wslog_info (conn_log (text "10.0.0.1") (text "allowed") (pos 1)) got_reply.srv)
      got_reply

abbrev got_saved : One
got_saved =
    moved (ret 1)
      (record got_noted.srv {
        db = (mem_redis.command (saving (text "10.0.0.1") false (pos 60)) empty).1;
      })
      got_noted

abbrev out_of_check : One
out_of_check = record got_saved {
  srv = record got_saved.srv { locked = false };
  pc = update got_saved.pc 0 (left 1);
  finished = (0, 1) ∷ [];
}

way_out : Reach at_check out_of_check
unfolding update advance check_section on_count on_saved start lookup bytes_eq text run
way_out =
    later got_saved out_of_check
      (later got_noted got_saved
        (later got_reply got_noted
          (later in_check got_reply
            (later at_check in_check here (move 0 in_check (enter checked refl refl)))
            (move 0 got_reply (act checked replied got_reply.srv refl refl)))
          (move 0 got_noted (act replied noted got_noted.srv refl refl)))
        (move 0 got_saved (act noted (ret 1) got_saved.srv refl refl)))
      (move 0 out_of_check (leave 1 refl))

threads_limit_example : verdicts out_of_check.finished ≡ min (length out_of_check.finished) 2
unfolding text lookup bytes_eq
threads_limit_example =
    threads_limit mem_redis_laws (config 0 0 0) (text "10.0.0.1") 60 2 refl (omega arith) refl
      (omega arith) (omega arith) (state empty []) out_of_check way_out (mem_alive empty)
      (mem_find empty (ips_key (text "10.0.0.1")))
