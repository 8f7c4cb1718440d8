-- ===== src/Node/Section.antt =====
-- What GET and POST do under the lock (src/webstore_node.c, get and do_redis_post), as sections.
use webstore.Base.{
  ℕ, ◌≡◌, refl, Bool, true, false, ◌&&◌, Option, some, if◌then◌else◌, Bool-cases, inl, inr,
}
use webstore.Base.Int.{truth}
use webstore.Base.Bytes.{Bytes, c_str}
use webstore.Redis.{Redis, get as cmd_get, del, Answer, reply, lost}
use webstore.Server.{
  WsRt, State, Outcome, done, exits, hangs, ◌>>=◌, ◌>>◌, pure, when, M, rai_unlock,
}
use webstore.Node.{
  Fetched, failed, fetched, page_of, is_page, use_get_reply, use_set_reply, get_with, answer_get,
  WsReq, set_command, post_err, do_redis_post, do_redis_del,
}
use webstore.Threads.Sections.{Section, ret, call, report, run, guarded}

-- get
unfoldable pub burn_or_keep : WsRt → Bytes → Option Bytes → Section Fetched
burn_or_keep rt hash page =
    if is_page page && truth rt.bar
    then call (del hash) (λ answer. ret (fetched page))
    else ret (fetched page)

unfoldable pub on_get_reply : WsRt → Bytes → Answer → Section Fetched
unfolding burn_or_keep
on_get_reply rt hash (lost kind errstr) = report kind errstr (ret failed)
on_get_reply rt hash (reply r) = burn_or_keep rt hash (page_of r)

unfoldable pub get_section : WsRt → Bytes → Section Fetched
unfolding on_get_reply
get_section rt hash = call (cmd_get hash) (on_get_reply rt hash)

-- do_redis_post
on_set_reply : Answer → Section ℕ
on_set_reply (lost kind errstr) = report kind errstr (ret 503)
on_set_reply (reply r) = ret (post_err r)

unfoldable pub post_section : WsRt → Bytes → Bytes → Section ℕ
unfolding on_set_reply
post_section rt hash data_ = call (set_command rt hash (c_str data_)) on_set_reply

by_get_reply :
    {R : Redis} (rt : WsRt) (hash : Bytes) (answer : Answer) (s : State R)
    → use_get_reply rt hash answer s ≡ run (on_get_reply rt hash answer) s
unfolding use_get_reply on_get_reply run burn_or_keep do_redis_del
by_get_reply rt hash (lost kind errstr) s = refl
by_get_reply rt hash (reply r) s = elim (Bool-cases (is_page (page_of r) && truth rt.bar)) [
  | inl burn ↦ rw burn
  | inr keep ↦ rw keep
]

by_set_reply :
    {R : Redis} (answer : Answer) (s : State R)
    → use_set_reply answer s ≡ run (on_set_reply answer) s
unfolding use_set_reply on_set_reply run
by_set_reply (lost kind errstr) s = refl
by_set_reply (reply r) s = refl

-- the answer is made after the lock is released
then_answer :
    {R : Redis} (req : WsReq) (rt : WsRt) (m : M R Fetched) (s : State R)
    → (m >>= λ got. when rt.multithreaded rai_unlock >> answer_get req rt got) s
      ≡ ((m >>= λ got. when rt.multithreaded rai_unlock >> pure got) >>= answer_get req rt) s
unfolding rai_unlock
then_answer {R} req rt m s = go (m s) rt.multithreaded
  where
    go :
        (o : Outcome (Fetched × State R)) (b : Bool)
        → ((λ _. o) >>= λ got. when b rai_unlock >> answer_get req rt got) s
          ≡ ((λ _. o) >>= (λ got. when b rai_unlock >> pure got) >>= answer_get req rt) s
    go (done r) true = refl
    go (done r) false = refl
    go (exits n) b = refl
    go hangs b = refl

-- GET of a converted token is its section under the lock, and the answer after it.
pub get_with-section :
    {R : Redis} (req : WsReq) (rt : WsRt) (hash : Bytes) (s : State R)
    → get_with req rt (some hash) s ≡ (guarded rt (get_section rt hash) >>= answer_get req rt) s
unfolding get_with guarded get_section run
get_with-section {R} req rt hash s = elim (Bool-cases rt.multithreaded) [
  | inr one ↦
      rw (one, ◌>>=◌, by_get_reply {R = R} rt hash)
        (then_answer req rt (run (on_get_reply rt hash (R.command (cmd_get hash) s.srv.db).0)) _)
  | inl many ↦ elim (Bool-cases s.srv.locked) [
    | inl held ↦ rw (many, held)
    | inr free ↦
        rw (many, free, ◌>>=◌, by_get_reply {R = R} rt hash)
          (then_answer req rt (run (on_get_reply rt hash (R.command (cmd_get hash) s.srv.db).0)) _)
  ]
]

-- The command of POST is its section under the lock.
pub do_redis_post-section :
    {R : Redis} (rt : WsRt) (hash data_ : Bytes) (s : State R)
    → do_redis_post rt hash data_ s ≡ guarded rt (post_section rt hash data_) s
unfolding do_redis_post guarded post_section run
do_redis_post-section {R} rt hash data_ s = elim (Bool-cases rt.multithreaded) [
  | inr one ↦ rw (one, ◌>>=◌, by_set_reply {R = R})
  | inl many ↦ elim (Bool-cases s.srv.locked) [
    | inl held ↦ rw (many, held)
    | inr free ↦ rw (many, free, ◌>>=◌, by_set_reply {R = R})
  ]
]
