-- ===== src/Tests/Data.antt =====
-- A small server: its configurations, its Redis, requests and records.
use webstore.Base.{ℕ, true, false, none, some, [], ◌∷◌}
use webstore.Base.Int.{pos}
use webstore.Base.Bytes.{Bytes, text}
use webstore.Redis.Mem.{Mem, mem_redis}
use webstore.Server.{WsRt, Srci, Server, State}
use webstore.Node.{WsReq}
use webstore.Start.{SrvOpts}
use webstore.Searest.Upload.{Connection}
use webstore.Searest.Request.{Response}

-- EXPIRATION, IMMUTABLE and BAR given
abbrev pub config : ℕ → ℕ → ℕ → WsRt
config expiration immutable bar = record {
  multithreaded = true;
  reqperiod = pos 60;
  reqcount = pos 2;
  max_post_data_size = pos 1000;
  expiration = pos expiration;
  immutable = pos immutable;
  bar = pos bar;
}

abbrev pub token : Bytes
token = text "0123456789abcdef0123456789abcdef"

abbrev pub capital_token : Bytes
capital_token = text "0123456789ABCDEF0123456789ABCDEF"

abbrev pub req : Bytes → WsReq
req url = record { type = 1; hashlen = 32; url = url; urllen = 32 }

abbrev pub server : Mem → Server mem_redis
server m = record { db = m; locked = false; shutdown = false; redis_error = false; log = some [] }

abbrev pub empty : Mem
empty = record { up = true; keys = [] }

abbrev pub holding : Bytes → Mem
holding v = record { up = true; keys = (token, v) ∷ [] }

abbrev pub broken : Mem
broken = record { up = false; keys = [] }

abbrev pub ri_of : ℕ → Bytes → Srci
ri_of method data_ = record {
  ip = some (text "10.0.0.1");
  method_type = method;
  url = [];
  urllen = 0;
  accept = none;
  auth = none;
  content_length = 0;
  post_data = data_;
  content_type = none;
  allow = none;
  cors = false;
  return_code = 0;
  return_page = none;
}

abbrev pub state : Mem → Bytes → State mem_redis
state m data_ = record { ri = ri_of 2 data_; srv = server m }

abbrev pub message : Bytes
message = text "HelloWorld"

abbrev pub older : Bytes
older = text "nm=QNzv"

-- a server that was told to stop
abbrev pub stopping : State mem_redis
stopping = record { ri = ri_of 1 []; srv = record (server empty) { shutdown = true } }

-- the options of the server, a client that announces nothing, and a connection that takes responses
abbrev pub options : SrvOpts
options = record {
  http_ip = none;
  http_port = 80;
  use_threads = true;
  max_post_data_size = pos 1000;
  certfile = none;
  keyfile = none;
  rdest = text "127.0.0.1";
  rport = 6379;
}

abbrev pub silent : Connection
silent = record { client_ip = none; header = λ name. none }

abbrev pub queued : Response → ℕ
queued r = 1
