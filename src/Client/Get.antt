-- ===== src/Client/Get.antt =====
-- The programs that get a message and the configuration (src/ws_get.c and src/ws_cfg.c).
use webstore.Base.{
  ℕ, ◌≡◌, Bool, true, false, not, Option, none, some, List, [], ◌∷◌, ◌==◌, if◌then◌else◌,
  Bool-cases, inl, inr, ap,
}
use webstore.Base.Int.{to_unsigned}
use webstore.Base.Bytes.{Bytes, c_str}
use webstore.Base.Decimal.{atoi}
use webstore.Server.{Outcome, done, exits, hangs}
use webstore.Main.{Got, unknown, no_memory, option}
use webstore.Client.Url.{create_url, create_config_url}
use webstore.Client.Curl.{
  CurlResp, no_resp, page_bytes, Network, http_get, responded, ws_curl, ws_curl_get,
  save_all-flatten,
}
use webstore.Client.Codec.{Z85, Miniz, page_data}
use webstore.Searest.Upload.{flatten}

-- g_host to g_secure
pub record GetOpts : Type 0 where
  pub host : Option Bytes
  pub port : ℕ
  pub token : Option Bytes
  pub filename : Option Bytes
  pub secure : Bool

abbrev pub no_get_opts : GetOpts
no_get_opts = record { host = none; port = 0; token = none; filename = none; secure = false }

set_get_option : ℕ → Bytes → GetOpts → GetOpts
set_get_option n args o =
    if n == 1
    then record o { host = some args }
    else if n == 2
    then record o { port = to_unsigned 16 (atoi args) }
    else if n == 3
    then record o { token = some args }
    else if n == 4
    then record o { filename = some args }
    else if n == 5
    then record o { secure = true }
    else o

unfoldable pub read_get_options : List Got → GetOpts → Outcome GetOpts
unfolding set_get_option
read_get_options [] o = done o
read_get_options (unknown args ∷ more) o = read_get_options more o
read_get_options (no_memory ∷ more) o = exits 1
read_get_options (option n args ∷ more) o = read_get_options more (set_get_option n args o)

-- what a program leaves: nothing, a text on the standard output, or a file with its contents
pub data Output : Type 0 where
  nothing : Output
  printed : Bytes → Output
  saved : Bytes → Bytes → Output

-- fwrite to the file, if fopen works, or printf("%s", data)
pub show_data : (Bytes → Bool) → Option Bytes → Bytes → Output
show_data opens none data_ = printed (c_str data_)
show_data opens (some f) data_ = if opens f then saved f data_ else nothing

show_decoded : (Bytes → Bool) → Option Bytes → Option Bytes → Output
unfolding show_data
show_decoded opens filename none = nothing
show_decoded opens filename (some data_) = show_data opens filename data_

handle_page : Z85 → Miniz → (Bytes → Bool) → Option Bytes → Bytes → Output
unfolding show_decoded
handle_page z mz opens filename page = show_decoded opens filename (page_data z mz page)

-- the end of both mains: the status and the output
after_get : (Bytes → Output) → ℕ × CurlResp → ℕ × Output
after_get show (z, resp) =
    if not (z == 0)
    then (1, nothing)
    else if not (resp.http_code == 200)
    then (1, nothing)
    else (0, show (page_bytes resp.page))

pub get_from : Network → (Bytes → Output) → Option Bytes → ℕ × Output
unfolding after_get
get_from net show none = (1, nothing)
get_from net show (some url) = after_get show (ws_curl_get net url no_resp)

-- the request of ws_get, after its options
pub get_message : Z85 → Miniz → (Bytes → Bool) → Network → GetOpts → Bytes → Bytes → ℕ × Output
unfolding get_from
get_message z mz opens net o host token =
    get_from net (handle_page z mz opens o.filename) (create_url host o.port token o.secure)

checked_get :
    Z85
    → Miniz
    → (Bytes → Bool)
    → Network
    → GetOpts
    → Option Bytes
    → Option Bytes
    → Outcome (ℕ × Output)
checked_get z mz opens net o none token = exits 1
checked_get z mz opens net o (some host) none = exits 1
checked_get z mz opens net o (some host) (some token) =
    if o.port == 0 then exits 1 else done (get_message z mz opens net o host token)

run_get : Z85 → Miniz → (Bytes → Bool) → Network → Outcome GetOpts → Outcome (ℕ × Output)
unfolding checked_get
run_get z mz opens net (exits n) = exits n
run_get z mz opens net hangs = hangs
run_get z mz opens net (done o) = checked_get z mz opens net o o.host o.token

-- main of ws_get.c
unfoldable pub ws_get : Z85 → Miniz → (Bytes → Bool) → Network → List Got → Outcome (ℕ × Output)
unfolding run_get
ws_get z mz opens net got = run_get z mz opens net (read_get_options got no_get_opts)

-- main of ws_cfg.c after its options: the page is printed as it is
unfoldable pub get_config : Network → Bytes → ℕ → Bool → ℕ × Output
unfolding get_from
get_config net host port secure =
    get_from net (λ page. printed (c_str page)) (some (create_config_url host port secure))

-- the page of a response, whatever its pieces are
pub get_from-responded :
    (net : Network) (show : Bytes → Output) (url : Bytes) (pieces : List Bytes) (code : ℕ)
    → net (http_get url) ≡ responded pieces code
    → get_from net show (some url)
      ≡ (if code == 200 then (0, show (flatten pieces)) else (1, nothing))
unfolding get_from ws_curl_get ws_curl
get_from-responded net show url pieces code e = elim (Bool-cases (code == 200)) [
  | inl ok ↦ rw (e, ok) (ap (λ p. (0, show p)) (save_all-flatten pieces no_resp).0)
  | inr other ↦ rw (e, other)
]
