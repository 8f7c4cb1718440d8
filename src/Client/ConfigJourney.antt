-- ===== src/Client/ConfigJourney.antt =====
-- The configuration from the server to the screen: what ws_cfg prints of the page that the configured
-- server answers (src/ws_cfg.c, src/webstore_node.c).
use webstore.Base.{
  ℕ, zero, suc, ◌+◌, ◌/◌, ◌%◌, ◌≤◌, ◌≡◌, refl, ◌∙◌, Bool, true, false, none, some, List, [], ◌∷◌,
  ◌++◌, arith, ltb, leb, ◌==◌, if◌then◌else◌, length, length-append, all, take-length, Bool-cases,
  inl, inr,
}
use webstore.Base.Int.{ℤ, pos, negsuc}
use webstore.Base.Bytes.{Bytes, text, bytes_eq, bytes_eq_refl, c_str, c_str_id}
use webstore.Base.Decimal.{decimal, decimal_fuel, decimal_ℤ}
use webstore.Redis.{Redis}
use webstore.Server.{Server, WsRt, Returns, Returns-weaken, done}
use webstore.Main.{Got}
use webstore.Config.{
  wanted, any_wanted, maxuploadsize_line, expiration_line, immutable_line, bar_line,
}
use webstore.Config.Page.{FitsLong, lines}
use webstore.Searest.Upload.{Connection, flatten}
use webstore.Searest.Request.{Response}
use webstore.Searest.Exchange.{exchange}
use webstore.Start.{SrvOpts, instance_of}
use webstore.Start.ConfigPage.{config_answered}
use webstore.Client.Url.{origin, create_config_url}
use webstore.Client.Curl.{Network, http_get, http_post, responded, failed}
use webstore.Client.Get.{printed}
use webstore.Client.Config.{CfgOpts, no_cfg_opts, read_cfg_options, ws_cfg, ws_cfg-shows}

-- A page has no NUL in it.
abbrev no_nul : Bytes → Bool
no_nul s = all (λ c. leb 1 c) s

no_nul-append : (s t : Bytes) → no_nul s ≡ true → no_nul t ≡ true → no_nul (s ++ t) ≡ true
no_nul-append [] t h k = k
no_nul-append (c ∷ s) t h k = ground (arith, no_nul-append s t)

no_nul-decimal_fuel : (f n : ℕ) → no_nul (decimal_fuel f n) ≡ true
unfolding decimal_fuel
no_nul-decimal_fuel zero n = refl
no_nul-decimal_fuel (suc f) n = elim (Bool-cases (ltb n 10)) [
  | inl low ↦ rw low (ground arith)
  | inr high ↦ rw high (
      no_nul-append (decimal_fuel f (n / 10)) ((48 + n % 10) ∷ []) (no_nul-decimal_fuel f (n / 10))
        (ground arith))
]

no_nul-decimal_ℤ : (i : ℤ) → no_nul (decimal_ℤ i) ≡ true
unfolding decimal_ℤ decimal
no_nul-decimal_ℤ (pos n) = no_nul-decimal_fuel (suc n) n
no_nul-decimal_ℤ (negsuc n) = no_nul-decimal_fuel (suc (suc n)) (suc n)

no_nul_value : (i : ℤ) (rest : Bytes) → no_nul rest ≡ true → no_nul (decimal_ℤ i ++ rest) ≡ true
no_nul_value i rest h = no_nul-append (decimal_ℤ i) rest (no_nul-decimal_ℤ i) h

no_nul-lines : (rt : WsRt) → no_nul (lines (wanted (text "all")) rt) ≡ true
unfolding wanted text bytes_eq maxuploadsize_line expiration_line immutable_line bar_line
no_nul-lines rt =
    no_nul-append (decimal_ℤ rt.max_post_data_size ++ (text " bytes" ++ 10 ∷ [])) _
      (no_nul_value rt.max_post_data_size _ refl)
      (no_nul-append (decimal_ℤ rt.expiration ++ (text " seconds" ++ 10 ∷ [])) _
        (no_nul_value rt.expiration _ refl)
        (no_nul-append (decimal_ℤ rt.immutable ++ 10 ∷ []) _ (no_nul_value rt.immutable _ refl)
          (no_nul_value rt.bar _ refl)))

-- libcurl with a server at `at` whose answer to a GET of `path` is `resp`, in the pieces of `cut`
pub serves : Bytes → Bytes → (Bytes → List Bytes) → Response → Network
serves at path cut resp (http_get url) =
    if bytes_eq url (at ++ path) then responded (cut resp.body) resp.code else failed []
serves at path cut resp (http_post url data_) = failed []

module _ (o : CfgOpts) (host : Bytes) (cut : Bytes → List Bytes) (resp : Response)
    (short : length (origin host o.port o.secure) ≤ 1900) where
  net : Network
  net = serves (origin host o.port o.secure) (text "/config/all") cut resp

  asked :
      net (http_get (create_config_url host o.port o.secure)) ≡ responded (cut resp.body) resp.code
  unfolding net serves create_config_url text
  asked =
      rw
        (
          take-length 2047 (origin host o.port o.secure ++ text "/config/all")
              (omega (arith, length-append {0} (origin host o.port o.secure) (text "/config/all"))),
          bytes_eq_refl (origin host o.port o.secure ++ text "/config/all"),
        )
        refl

  shown :
      (page : Bytes) (got : List Got)
      → read_cfg_options got no_cfg_opts ≡ done o
      → o.host ≡ some host
      → (o.port == 0) ≡ false
      → ((page' : Bytes) → flatten (cut page') ≡ page')
      → resp.code ≡ 200
      → resp.body ≡ page
      → c_str page ≡ page
      → ws_cfg net got ≡ done (0, printed page)
  shown page got read has port joins code body whole =
      ws_cfg-shows net got o host (cut resp.body) resp.code read has port asked
      ∙ rw (code, joins resp.body, body, whole) refl

-- ws_cfg, given a host of at most 1900 characters with its protocol and port, asks the configured
-- server, with no shutdown under way, for its configuration, and no upload is announced. It prints the
-- four lines of the configuration, whole and in order, with status 0, in whatever pieces the page
-- arrives. The values of the configuration are within the range of a C long.
pub ws_cfg_prints :
    {R : Redis} (now : ℕ) (queue : Response → ℕ) (conn : Connection) (rt : WsRt) (so : SrvOpts)
    (srv : Server R) (got : List Got) (o : CfgOpts) (host : Bytes) (cut : Bytes → List Bytes)
    → FitsLong rt
    → conn.header (text "Content-Length") ≡ none
    → srv.shutdown ≡ false
    → read_cfg_options got no_cfg_opts ≡ done o
    → o.host ≡ some host
    → (o.port == 0) ≡ false
    → length (origin host o.port o.secure) ≤ 1900
    → ((page : Bytes) → flatten (cut page) ≡ page)
    → Returns
        (exchange now queue conn (instance_of rt so) rt (text "/config/all") (text "GET") [] srv)
        (λ c.
          (resp : Response) × (c.response ≡ some resp)
          × (ws_cfg (serves (origin host o.port o.secure) (text "/config/all") cut resp) got
              ≡ done (0, printed (lines (wanted (text "all")) rt))))
unfolding wanted any_wanted text bytes_eq net
ws_cfg_prints {R} now queue conn rt so srv got o host cut fits silent up read has port short joins =
    Returns-weaken
      (exchange now queue conn (instance_of rt so) rt (text "/config/all") (text "GET") [] srv)
      (config_answered now queue conn rt so (text "all") srv fits (omega arith) (omega arith) silent
        up)
      (λ c answer.
        let (resp, sent, code, body) = answer in
        (
          resp,
          sent,
          shown o host cut resp short (lines (wanted (text "all")) rt) got read has port joins code
              (body ∙ whole) whole,
        ))
  where
    whole : c_str (lines (wanted (text "all")) rt) ≡ lines (wanted (text "all")) rt
    whole = c_str_id (lines (wanted (text "all")) rt) (no_nul-lines rt)
