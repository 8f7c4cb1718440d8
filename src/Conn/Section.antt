-- ===== src/Conn/Section.antt =====
-- What the check of an address does under the lock (src/webstore_conn.c, check_ip and save_ip), as a
-- section.
use webstore.Base.{ℕ, ◌≡◌, refl, sym, Bool, true, false, if◌then◌else◌, Bool-cases, inl, inr}
use webstore.Base.Int.{ℤ, pos, ltb_ℤ, suc_ℤ}
use webstore.Base.Bytes.{Bytes, text}
use webstore.Base.Decimal.{atoi}
use webstore.Redis.{Redis, get as cmd_get, string, nil, integer, status, error, Answer, reply, lost}
use webstore.Server.{WsRt, State, pure, ◌>>=◌, wslog_info, log_add_to, ◌>>◌, redis_command}
use webstore.Conn.{
  ips_key, saving, conn_log, check_ip, allow_ip, by_count, by_reply, save_ip, check_saved,
}
use webstore.Threads.Sections.{Section, ret, call, report, note, run, guarded}

-- check_ip, with save_ip at its end
unfoldable pub on_saved : Answer → Section ℕ
on_saved (lost kind errstr) = report kind errstr (ret 1)
on_saved (reply r) = ret 1

unfoldable pub count_in : WsRt → Bytes → ℤ → Section ℕ
unfolding on_saved
count_in rt ip count =
    if ltb_ℤ count rt.reqcount
    then note wslog_info (conn_log ip (text "allowed") (suc_ℤ count))
        (call (saving ip true rt.reqperiod) on_saved)
    else note wslog_info (conn_log ip (text "denied") (suc_ℤ count)) (ret 0)

unfoldable pub on_count : WsRt → Bytes → Answer → Section ℕ
unfolding count_in on_saved
on_count rt ip (lost kind errstr) = report kind errstr (ret 0)
on_count rt ip (reply nil) =
    note wslog_info (conn_log ip (text "allowed") (pos 1))
      (call (saving ip false rt.reqperiod) on_saved)
on_count rt ip (reply (string v)) = count_in rt ip (atoi v)
on_count rt ip (reply _) = ret 0

unfoldable pub check_section : WsRt → Bytes → Section ℕ
unfolding on_count
check_section rt ip = call (cmd_get (ips_key ip)) (on_count rt ip)

by_saved :
    {R : Redis} (answer : Answer) (s : State R)
    → (check_saved answer >>= λ _. pure 1) s ≡ run (on_saved answer) s
unfolding check_saved on_saved run
by_saved (lost kind errstr) s = refl
by_saved (reply r) s = refl

by_saving :
    {R : Redis} (rt : WsRt) (ip : Bytes) (found : Bool) (s : State R)
    → (save_ip ip found rt.reqperiod >> pure 1) s
      ≡ run (call (saving ip found rt.reqperiod) on_saved) s
unfolding save_ip run redis_command
by_saving {R} rt ip found s = rw (
  ◌>>=◌,
  sym (
      by_saved {R = R} (R.command (saving ip found rt.reqperiod) s.srv.db).0 (record s {
        srv = record s.srv { db = (R.command (saving ip found rt.reqperiod) s.srv.db).1 };
      })),
)

by_count_in :
    {R : Redis} (rt : WsRt) (ip : Bytes) (count : ℤ) (s : State R)
    → by_count rt ip count s ≡ run (count_in rt ip count) s
unfolding by_count count_in run
by_count_in {R} rt ip count s = elim (Bool-cases (ltb_ℤ count rt.reqcount)) [
  | inl room ↦ rw room (
      by_saving rt ip true (record s {
        srv = log_add_to wslog_info (conn_log ip (text "allowed") (suc_ℤ count)) s.srv;
      }))
  | inr full ↦ rw full
]

by_on_count :
    {R : Redis} (rt : WsRt) (ip : Bytes) (answer : Answer) (s : State R)
    → by_reply rt ip answer s ≡ run (on_count rt ip answer) s
unfolding by_reply on_count run
by_on_count rt ip (lost kind errstr) s = refl
by_on_count rt ip (reply nil) s =
    by_saving rt ip false
      (record s { srv = log_add_to wslog_info (conn_log ip (text "allowed") (pos 1)) s.srv })
by_on_count rt ip (reply (string v)) s = by_count_in rt ip (atoi v) s
by_on_count rt ip (reply (integer i)) s = refl
by_on_count rt ip (reply (status e)) s = refl
by_on_count rt ip (reply (error e)) s = refl

pub check_ip-section :
    {R : Redis} (rt : WsRt) (ip : Bytes) (s : State R)
    → check_ip rt ip s ≡ run (check_section rt ip) s
unfolding check_section check_ip run
check_ip-section {R} rt ip s = rw (◌>>=◌, by_on_count {R = R} rt ip)

-- The check of an address is its section under the lock.
pub allow_ip-section :
    {R : Redis} (rt : WsRt) (ip : Bytes) (s : State R)
    → allow_ip rt ip s ≡ guarded rt (check_section rt ip) s
unfolding allow_ip guarded check_section check_ip run
allow_ip-section {R} rt ip s = elim (Bool-cases rt.multithreaded) [
  | inr one ↦ rw (one, ◌>>=◌, by_on_count {R = R} rt ip)
  | inl many ↦ elim (Bool-cases s.srv.locked) [
    | inl held ↦ rw (many, held)
    | inr free ↦ rw (many, free, ◌>>=◌, by_on_count {R = R} rt ip)
  ]
]
