-- ===== src/Threads/Sections.antt =====
-- What a thread does between rai_lock and rai_unlock of src/rai.c, command by command.
use webstore.Base.{ℕ}
use webstore.Base.Bytes.{Bytes}
use webstore.Redis.{Redis, Command, Answer, ErrorKind}
use webstore.Server.{
  WsRt, M, ◌>>=◌, ◌>>◌, pure, when, log_add, rai_lock, rai_unlock, redis_command,
  handle_redis_error,
}

-- A section ends, sends a command and goes on by its answer, reports a lost connection, or logs.
pub data Section (A : Type 0) : Type 0 where
  ret : A → Section A
  call : Command → (Answer → Section A) → Section A
  report : ErrorKind → Bytes → Section A → Section A
  note : ℕ → Bytes → Section A → Section A

-- a section as one thread runs it
unfoldable pub run : {R : Redis} {A : Type 0} → Section A → M R A
run (ret a) = pure a
run (call c next) = redis_command c >>= λ answer. run (next answer)
run (report kind errstr next) = handle_redis_error kind errstr >> run next
run (note level message next) = log_add level message >> run next

-- if(rt->multithreaded) { rai_lock(rc); } ... if(rt->multithreaded) { rai_unlock(rc); }
unfoldable pub guarded : {R : Redis} {A : Type 0} → WsRt → Section A → M R A
unfolding run rai_lock rai_unlock
guarded rt section = do
  when rt.multithreaded rai_lock
  a ← run section
  when rt.multithreaded rai_unlock
  pure a
