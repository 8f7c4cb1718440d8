-- ===== src/Client/Config.antt =====
-- The program that shows the server's configuration (src/ws_cfg.c).
use webstore.Base.{
  ℕ, ◌≡◌, Bool, true, false, not, Option, none, some, List, [], ◌∷◌, ◌==◌, if◌then◌else◌,
  Option-cases, ◌&&◌, arith, inl, inr, ap,
}
use webstore.Base.Int.{to_unsigned}
use webstore.Base.Bytes.{Bytes, c_str}
use webstore.Base.Decimal.{atoi}
use webstore.Server.{Outcome, done, exits, hangs}
use webstore.Main.{Got, unknown, no_memory, option, is_set}
use webstore.Client.Url.{create_config_url}
use webstore.Client.Curl.{Network, http_get, responded}
use webstore.Client.Get.{Output, nothing, printed, get_config, get_from-responded}
use webstore.Searest.Upload.{flatten}

-- g_host, g_port and g_secure
pub record CfgOpts : Type 0 where
  pub host : Option Bytes
  pub port : ℕ
  pub secure : Bool

abbrev pub no_cfg_opts : CfgOpts
no_cfg_opts = record { host = none; port = 0; secure = false }

set_cfg_option : ℕ → Bytes → CfgOpts → CfgOpts
set_cfg_option n args o =
    if n == 1
    then record o { host = some args }
    else if n == 2
    then record o { port = to_unsigned 16 (atoi args) }
    else if n == 3
    then record o { secure = true }
    else o

unfoldable pub read_cfg_options : List Got → CfgOpts → Outcome CfgOpts
unfolding set_cfg_option
read_cfg_options [] o = done o
read_cfg_options (unknown args ∷ more) o = read_cfg_options more o
read_cfg_options (no_memory ∷ more) o = exits 1
read_cfg_options (option n args ∷ more) o = read_cfg_options more (set_cfg_option n args o)

-- the checks after the loop, and main after them
checked_cfg : Network → CfgOpts → Option Bytes → Outcome (ℕ × Output)
unfolding get_config
checked_cfg net o none = exits 1
checked_cfg net o (some host) =
    if o.port == 0 then exits 1 else done (get_config net host o.port o.secure)

run_cfg : Network → Outcome CfgOpts → Outcome (ℕ × Output)
unfolding checked_cfg
run_cfg net (exits n) = exits n
run_cfg net hangs = hangs
run_cfg net (done o) = checked_cfg net o o.host

-- main of ws_cfg.c
pub ws_cfg : Network → List Got → Outcome (ℕ × Output)
unfolding run_cfg
ws_cfg net got = run_cfg net (read_cfg_options got no_cfg_opts)

-- With a host and a port, ws_cfg asks for /config/all, and if there is a response, in any pieces, it
-- prints the page with status 0 if the code is 200, and else nothing, with status 1.
pub ws_cfg-shows :
    (net : Network) (got : List Got) (o : CfgOpts) (host : Bytes) (pieces : List Bytes) (code : ℕ)
    → read_cfg_options got no_cfg_opts ≡ done o
    → o.host ≡ some host
    → (o.port == 0) ≡ false
    → net (http_get (create_config_url host o.port o.secure)) ≡ responded pieces code
    → ws_cfg net got
      ≡ done (if code == 200 then (0, printed (c_str (flatten pieces))) else (1, nothing))
unfolding ws_cfg run_cfg checked_cfg get_config
ws_cfg-shows net got o host pieces code read has port said =
    rw (read, run_cfg, has, checked_cfg, port)
      (ap done (
        get_from-responded net (λ page. printed (c_str page))
          (create_config_url host o.port o.secure) pieces code said))

-- Without a host, or without a port, nothing is asked and the status is 1.
pub ws_cfg-refuses :
    (net : Network) (got : List Got) (o : CfgOpts)
    → read_cfg_options got no_cfg_opts ≡ done o
    → (is_set o.host && not (o.port == 0)) ≡ false
    → ws_cfg net got ≡ exits 1
unfolding ws_cfg run_cfg checked_cfg
ws_cfg-refuses net got o read bad =
    rw (read, run_cfg)
      (elim (Option-cases o.host) [
        | inl no_host ↦ rw no_host
        | inr (host, has) ↦ rw (has, checked_cfg, no_port host has)
      ])
  where
    no_port : (host : Bytes) → o.host ≡ some host → (o.port == 0) ≡ true
    no_port host has = ground arith
