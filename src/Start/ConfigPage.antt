-- ===== src/Start/ConfigPage.antt =====
-- The configuration page over HTTP, from the configured server to ws_cfg (src/webstore_uhd.c,
-- src/searest.c, src/webstore_node.c and src/ws_cfg.c).
use webstore.Base.{
  ℕ, ◌≤◌, ◌≡◌, ◌==◌, refl, false, none, [], ◌∷◌, ◌++◌, arith, length, length-append, take,
  if◌then◌else◌, Bool-cases, inl, inr, ap,
}
use webstore.Base.Bytes.{Bytes, text, c_str}
use webstore.Redis.{Redis}
use webstore.Server.{Server, State, WsRt, Returns, Returns-weaken}
use webstore.Config.{nodecfg, wanted, any_wanted}
use webstore.Config.Page.{FitsLong, lines, nodecfg_page}
use webstore.Searest.Upload.{Connection, length_of}
use webstore.Searest.Request.{Response}
use webstore.Searest.Exchange.{exchange}
use webstore.Start.{SrvOpts, instance_of}
use webstore.Start.Service.{instance_of-config, length-config}
use webstore.Start.Exchanges.{Answers, called_with, answers, exchange-Finds, get_method}
use webstore.Start.RoundTrip.{instance_of-Limits}

-- what the page must be, and its code
abbrev pub config_page : WsRt → Bytes → Bytes
config_page rt option =
    if any_wanted (wanted option)
    then lines (wanted option) rt
    else take 511 (text "Unknown Config Option: " ++ (option ++ 10 ∷ []))

abbrev pub config_code : Bytes → ℕ
config_code option = if any_wanted (wanted option) then 200 else 404

-- what the configuration node leaves
abbrev Configured : {R : Redis} → WsRt → Bytes → Bytes × State R → Type 0
Configured rt option r = (r.0 ≡ config_page rt option) × (r.1.ri.return_code ≡ config_code option)

nodecfg-Configured :
    {R : Redis} (rt : WsRt) (fits : FitsLong rt) (option : Bytes) (s : State R)
    → s.srv.shutdown ≡ false
    → s.ri.method_type ≡ 1
    → Returns (nodecfg option (length option) rt s) (Configured rt option)
nodecfg-Configured rt fits option s up get = elim (Bool-cases (any_wanted (wanted option))) [
  | inl known ↦
      rw (nodecfg_page rt fits option (length option) s up get, known) (rw known, rw known)
  | inr unknown ↦
      rw (nodecfg_page rt fits option (length option) s up get, unknown) (rw unknown, rw unknown)
]

code-nonzero : (option : Bytes) → (config_code option == 0) ≡ false
code-nonzero option = ground arith

-- A GET of an option below /config/, of 3 to 131 characters, on the configured server with no
-- shutdown under way and no upload announced, is answered 200 with the lines that are wanted, whole
-- and in order, or 404 with a page that names the option, up to the first NUL. The values of the
-- configuration are within the range of a C long.
pub config_answered :
    {R : Redis} (now : ℕ) (queue : Response → ℕ) (conn : Connection) (rt : WsRt) (so : SrvOpts)
    (option : Bytes) (srv : Server R)
    → FitsLong rt
    → 3 ≤ length option
    → length option ≤ 131
    → conn.header (text "Content-Length") ≡ none
    → srv.shutdown ≡ false
    → Returns
        (exchange now queue conn
          (instance_of rt so)
          rt
          (text "/config/" ++ option)
          (text "GET")
          []
          srv)
        (λ c. Answers c (config_code option) (c_str (config_page rt option)))
unfolding length_of
config_answered {R} now queue conn rt so option srv fits long short silent up =
    let l = instance_of-Limits R rt so in
    let (i, h) =
      exchange-Finds now queue conn (instance_of rt so) rt nodecfg (text "/config/") option
        (text "GET") 1 [] srv (Configured rt option) (instance_of-config R rt so option)
        (omega (arith, l.shortest, length-append {0} (text "/config/") option, length-config))
        (omega (arith, l.longest, length-append {0} (text "/config/") option, length-config))
        (omega (arith, get_method.1)) (omega (arith, get_method.1)) get_method.0
        (ap length_of silent) (omega arith)
        (nodecfg-Configured rt fits option (called_with conn (text "/config/" ++ option) 1 [] srv)
          up refl) in
    Returns-weaken
      (exchange now queue conn (instance_of rt so) rt (text "/config/" ++ option) (text "GET") []
        srv)
      h
      (λ c sent.
        answers now i (instance_of rt so) c (Configured rt option) (config_code option)
          (config_page rt option) (c_str (config_page rt option)) sent sent.1.0 sent.1.1
          (code-nonzero option) refl)
