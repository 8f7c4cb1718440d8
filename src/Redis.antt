-- ===== src/Redis.antt =====
-- The Redis service behind hiredis (rai.h includes <hiredis/hiredis.h>), which is not part of the
-- repository: a parameter. `redisCommand` is a transition of an abstract database that gives a reply,
-- or NULL with an error in the context. `IsRedis` states the documented effect of the four commands
-- that the server sends, of a connection that works and with no key expiring in between.
pub mod Mem
pub mod Clock
pub mod Timed
use webstore.Base.{
  ℕ, ◌+◌, ◌^◌, ◌<◌, ◌≡◌, Bool, true, false, ◌&&◌, Option, none, some, if◌then◌else◌,
}
use webstore.Base.Int.{ℤ, pos}
use webstore.Base.Bytes.{Bytes, bytes_eq, text}
use webstore.Base.Decimal.{decimal}

-- `SET key value [EX seconds] [NX]`, `GET key`, `DEL key`, `INCR key`. A `%s` in the format of
-- redisCommand is one argument, whatever it holds.
pub data Command : Type 0 where
  set : Bytes → Bytes → Option ℤ → Bool → Command
  get : Bytes → Command
  del : Bytes → Command
  incr : Bytes → Command

-- reply->type, with reply->str or reply->integer
pub data Reply : Type 0 where
  string : Bytes → Reply
  integer : ℤ → Reply
  nil : Reply
  status : Bytes → Reply
  error : Bytes → Reply

-- rc->c->err
pub data ErrorKind : Type 0 where
  err_io err_eof err_protocol err_oom err_other err_unknown : ErrorKind

-- what redisCommand returns; `lost` is NULL, with the context's error and its text
pub data Answer : Type 0 where
  reply : Reply → Answer
  lost : ErrorKind → Bytes → Answer

pub record Redis : Type 1 where
  pub Db : Type 0
  pub command : Command → Db → Answer × Db

-- the reply to GET
abbrev pub found : Option Bytes → Reply
found none = nil
found (some v) = string v

abbrev pub is_some : Option Bytes → Bool
is_some none = false
is_some (some v) = true

-- the argument of EX is a positive number of seconds
abbrev pub ValidExpiry : Option ℤ → Type 0
ValidExpiry none = Unit
ValidExpiry (some (pos n)) = 0 < n
ValidExpiry (some i) = ⊥

-- Of a database `d` with a working connection: `find d` holds the live keys. GET returns the value
-- or nil and changes nothing; SET stores the value and says OK, but with NX of a live key it changes
-- nothing and returns nil; DEL removes the key; INCR of a live decimal number adds one to it.
pub record IsRedis (R : Redis) : Type 0 where
  pub alive : R.Db → Bool
  pub find : R.Db → Bytes → Option Bytes
  pub get_lem :
      (d : R.Db) (k : Bytes) → alive d ≡ true → R.command (get k) d ≡ (reply (found (find d k)), d)
  pub set_reply :
      (d : R.Db) (k v : Bytes) (ex : Option ℤ) (nx : Bool)
      → alive d ≡ true
      → ValidExpiry ex
      → (R.command (set k v ex nx) d).0
        ≡ reply (if nx && is_some (find d k) then nil else status (text "OK"))
  pub set_alive :
      (d : R.Db) (k v : Bytes) (ex : Option ℤ) (nx : Bool)
      → alive d ≡ true
      → alive (R.command (set k v ex nx) d).1 ≡ true
  pub find-set :
      (d : R.Db) (k v : Bytes) (ex : Option ℤ) (nx : Bool) (j : Bytes)
      → alive d ≡ true
      → ValidExpiry ex
      → find (R.command (set k v ex nx) d).1 j
        ≡ (if nx && is_some (find d k) then find d j else if bytes_eq k j then some v else find d j)
  pub del_alive : (d : R.Db) (k : Bytes) → alive d ≡ true → alive (R.command (del k) d).1 ≡ true
  pub find-del :
      (d : R.Db) (k j : Bytes)
      → alive d ≡ true
      → find (R.command (del k) d).1 j ≡ (if bytes_eq k j then none else find d j)
  pub incr_lem :
      (d : R.Db) (k : Bytes) (n : ℕ)
      → alive d ≡ true
      → n + 1 < 2 ^ 63
      → find d k ≡ some (decimal n)
      → (R.command (incr k) d).0 ≡ reply (integer (pos (n + 1)))
  pub incr_alive : (d : R.Db) (k : Bytes) → alive d ≡ true → alive (R.command (incr k) d).1 ≡ true
  pub find-incr :
      (d : R.Db) (k : Bytes) (n : ℕ) (j : Bytes)
      → alive d ≡ true
      → n + 1 < 2 ^ 63
      → find d k ≡ some (decimal n)
      → find (R.command (incr k) d).1 j
        ≡ (if bytes_eq k j then some (decimal (n + 1)) else find d j)
