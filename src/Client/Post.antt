-- ===== src/Client/Post.antt =====
-- The program that posts a message (src/ws_post.c).
use webstore.Base.{
  ℕ, zero, suc, ◌≡◌, arith, take-length, Bool, true, false, not, ◌&&◌, Option, none, some, List, [],
  ◌∷◌, ltb, ◌==◌, if◌then◌else◌, length, take,
}
use webstore.Base.Int.{ℤ, pos, negsuc, pos_part, to_unsigned, ltb_ℤ, truth}
use webstore.Base.Bytes.{Bytes, c_str}
use webstore.Base.Decimal.{atoi}
use webstore.Files.{FileSystem, file_size, get_file, regular, get_file-whole}
use webstore.Server.{Outcome, done, exits, hangs}
use webstore.Main.{Got, unknown, no_memory, option, is_set}
use webstore.Client.Url.{create_url, valid_token}
use webstore.Client.Curl.{CurlResp, no_resp, Network, ws_curl_post}
use webstore.Client.Token.{Gcrypt, create_token, ws_gcinit}
use webstore.Client.Codec.{Z85, Miniz, encode_msg}

-- g_host to g_secure and g_comp, as the options leave them; the verbosity is only about printing
pub record PostOpts : Type 0 where
  pub host : Option Bytes
  pub port : ℕ
  pub algorithm : ℤ
  pub filename : Option Bytes
  pub message : Option Bytes
  pub token : Option Bytes
  pub secure : Bool
  pub comp : Bool

abbrev pub no_opts : PostOpts
no_opts = record {
  host = none;
  port = 0;
  algorithm = pos 0;
  filename = none;
  message = none;
  token = none;
  secure = false;
  comp = false;
}

set_post_option : ℕ → Bytes → PostOpts → PostOpts
set_post_option n args o =
    if n == 1
    then record o { host = some args }
    else if n == 2
    then record o { port = to_unsigned 16 (atoi args) }
    else if n == 3
    then record o { algorithm = atoi args }
    else if n == 4
    then record o { filename = some args }
    else if n == 5
    then record o { message = some args }
    else if n == 6
    then record o { token = some args }
    else if n == 7
    then record o { secure = true }
    else if n == 8
    then record o { comp = true }
    else o

unfoldable pub read_post_options : List Got → PostOpts → Outcome PostOpts
unfolding set_post_option
read_post_options [] o = done o
read_post_options (unknown args ∷ more) o = read_post_options more o
read_post_options (no_memory ∷ more) o = exits 1
read_post_options (option n args ∷ more) o = read_post_options more (set_post_option n args o)

-- a token of its own, valid and with no algorithm, or an algorithm from 1 to 6
unfoldable pub token_choice : Option Bytes → ℤ → Bool
token_choice (some token) algorithm = valid_token token && not (truth algorithm)
token_choice none algorithm = not (ltb_ℤ algorithm (pos 1)) && not (ltb_ℤ (pos 6) algorithm)

load_size : ℤ → Option Bytes → Outcome Bytes
load_size (negsuc n) data_ = exits 1
load_size (pos zero) data_ = exits 1
load_size (pos (suc n)) none = exits 1
load_size (pos (suc n)) (some data_) = done (take (suc n) data_)

-- g_message and g_msglen, as the bytes of the message
load_message : FileSystem → Option Bytes → Option Bytes → Outcome Bytes
unfolding load_size
load_message w (some filename) (some msg) = exits 1
load_message w none none = exits 1
load_message w (some filename) none = load_size (file_size w filename) (get_file w filename)
load_message w none (some msg) = if ltb (length (c_str msg)) 1 then exits 1 else done (c_str msg)

-- the checks after the loop, and the message
pub check_post : FileSystem → PostOpts → Outcome Bytes
unfolding token_choice load_message
check_post w o =
    if not (is_set o.host)
    then exits 1
    else if o.port == 0
    then exits 1
    else if not (token_choice o.token o.algorithm)
    then exits 1
    else load_message w o.filename o.message

load_file :
    (size : ℤ) (c : ℕ) (cs : Bytes)
    → size ≡ pos (length (c ∷ cs))
    → load_size size (some (c ∷ cs)) ≡ done (c ∷ cs)
unfolding load_size
load_file size c cs e = rw (e, take-length (length (c ∷ cs)) (c ∷ cs) (omega arith))

-- With a host, a port, an accepted choice of the token, and a file for the message, the message is the
-- content of the file, byte for byte, if that is a regular file that is not empty and has the size that
-- stat says.
pub check_post-file :
    (w : FileSystem) (o : PostOpts) (host filename : Bytes) (c : ℕ) (cs : Bytes)
    → o.host ≡ some host
    → (o.port == 0) ≡ false
    → token_choice o.token o.algorithm ≡ true
    → o.filename ≡ some filename
    → o.message ≡ none
    → w.stat filename ≡ regular (length (c ∷ cs))
    → w.open_read filename ≡ some (c ∷ cs)
    → check_post w o ≡ done (c ∷ cs)
unfolding check_post load_message
check_post-file w o host filename c cs h p t f m stat content =
    simp (h, p, t, f, m, get_file-whole w filename c cs stat content)
      (load_file (file_size w filename) c cs (unfold file_size in rw stat))

-- 0 if the server answered 200
unfoldable pub post_result : ℕ × CurlResp → ℕ
post_result (curlerr, resp) =
    if not (curlerr == 0) then 1 else if resp.http_code == 200 then 0 else 1

unfoldable pub post_msg : Network → Bytes → Bytes → ℕ
unfolding post_result
post_msg net url z85block = post_result (ws_curl_post net url no_resp (c_str z85block))

post_to : Network → Bytes → Bytes → Option Bytes → Option Bytes
post_to net z85block token none = none
post_to net z85block token (some url) = if post_msg net url z85block == 0 then some token else none

post_as : Network → Bytes → ℕ → Bool → Bytes → Option Bytes → Option Bytes
unfolding post_to
post_as net host port secure z85block none = none
post_as net host port secure z85block (some token) =
    post_to net z85block token (create_url host port token secure)

chosen_token : Gcrypt → PostOpts → Bytes → Option Bytes → Option Bytes
chosen_token g o msg (some token) = some token
chosen_token g o msg none = create_token g (pos_part o.algorithm) msg

post_block : Gcrypt → Network → Bytes → PostOpts → Bytes → Option Bytes → Option Bytes
unfolding post_as chosen_token
post_block g net host o msg none = none
post_block g net host o msg (some z85block) =
    post_as net host o.port o.secure z85block (chosen_token g o msg o.token)

-- the token of the message that was posted, none after any error
unfoldable pub encode_msg_and_post :
    Z85 → Miniz → Gcrypt → Network → Bytes → PostOpts → Bytes → Option Bytes
unfolding post_block
encode_msg_and_post z mz g net host o msg = post_block g net host o msg (encode_msg z mz o.comp msg)

post_status : Option Bytes → ℕ × Option Bytes
post_status (some token) = (0, some token)
post_status none = (1, none)

with_message :
    Z85
    → Miniz
    → Gcrypt
    → Network
    → PostOpts
    → Option Bytes
    → Outcome Bytes
    → Outcome (ℕ × Option Bytes)
unfolding post_status
with_message z mz g net o host (exits n) = exits n
with_message z mz g net o host hangs = hangs
with_message z mz g net o none (done m) = exits 1
with_message z mz g net o (some host) (done m) =
    done (post_status (encode_msg_and_post z mz g net host o m))

with_options :
    FileSystem → Z85 → Miniz → Gcrypt → Network → Outcome PostOpts → Outcome (ℕ × Option Bytes)
unfolding with_message
with_options w z mz g net (exits n) = exits n
with_options w z mz g net hangs = hangs
with_options w z mz g net (done o) = with_message z mz g net o o.host (check_post w o)

-- main: its status, and the token that is printed; first, whether libgcrypt is new enough
unfoldable pub ws_post :
    Bool → FileSystem → Z85 → Miniz → Gcrypt → Network → List Got → Outcome (ℕ × Option Bytes)
unfolding with_options ws_gcinit
ws_post new_enough w z mz g net got =
    if not ((ws_gcinit new_enough).0 == 0)
    then done (1, none)
    else with_options w z mz g net (read_post_options got no_opts)
