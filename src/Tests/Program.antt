-- ===== src/Tests/Program.antt =====
-- The alphabet, tokens, options, signals, the configuration page and the clients.
use webstore.Base.{◌≡◌, refl, none, some, List, [], ◌∷◌, ◌++◌, arith, all, if◌then◌else◌, take}
use webstore.Base.Bytes.{text}
use webstore.Server.{done}
use webstore.Alphabet.{base85, elem, Z85_validate, Z85_validate-all}
use webstore.Config.{nodecfg, wanted, any_wanted}
use webstore.Config.Page.{nodecfg_page, FitsLong, lines}
use webstore.Main.{Got, option, Globals, initial}
use webstore.Tests.Data.{config, empty, server, ri_of}

Z85_validate-all_example :
    Z85_validate (text "a b") ≡ (if all (λ c. elem c base85) (text "a b") then 0 else 1)
unfolding text
Z85_validate-all_example = Z85_validate-all (text "a b") refl

abbrev pub fits_long : FitsLong (config 30 1 0)
fits_long = record {
  max_post_data_size = (omega arith, omega arith);
  expiration = (omega arith, omega arith);
  immutable = (omega arith, omega arith);
  bar = (omega arith, omega arith);
}

nodecfg_page_example :
    nodecfg (text "all") 3 (config 30 1 0) (record { ri = ri_of 1 []; srv = server empty }) ≡ (
      if any_wanted (wanted (text "all"))
      then done (
        lines (wanted (text "all")) (config 30 1 0),
        record { ri = record (ri_of 1 []) { return_code = 200 }; srv = server empty },
      )
      else done (
        take 511 (text "Unknown Config Option: " ++ (text "all" ++ 10 ∷ [])),
        record { ri = record (ri_of 1 []) { return_code = 404 }; srv = server empty },
      ))
nodecfg_page_example =
    nodecfg_page (config 30 1 0) fits_long (text "all") 3
      (record { ri = ri_of 1 []; srv = server empty }) refl refl

abbrev given : List Got
given = option 2 (text "80") ∷ option 5 (text "/run/redis.sock") ∷ []

abbrev accepted : Globals
accepted = record {
  so = record (initial).so { http_port = 80 };
  rsock = some (text "/run/redis.sock");
  rip = none;
  rport = 0;
  logfile = none;
}
