-- ===== src/Tests/Service.antt =====
-- The start of the small server, and connections to it.
use webstore.Base.{◌≡◌, refl, true, false, none, some, [], ◌∷◌, ◌++◌, if◌then◌else◌}
use webstore.Redis.Mem.{mem_redis}
use webstore.Server.{Returns, exits}
use webstore.Files.{no_entry}
use webstore.Rai.{context_ok}
use webstore.Searest.{Sri}
use webstore.Searest.Address.{Ntop, sockaddr_in6, uhd_client_connect, uhd_client_connect-v6}
use webstore.Start.{instance_of}
use webstore.Start.Launch.{World, IsUp, comes_up, webstore_start, webstore_start-IsUp}
use webstore.Tests.Data.{config, options, server, empty}

abbrev pub world : World
world = record {
  getenv = λ name. none;
  files = record { stat = λ path. no_entry; open_read = λ path. none };
  mutex_fails = false;
  connecting = λ dest port. context_ok;
  starts = λ model ssl opts. true;
}

webstore_start-IsUp_example :
    if comes_up mem_redis world options
    then Returns (webstore_start world options (server empty)) (IsUp world options (server empty))
    else (webstore_start world options (server empty) ≡ exits 1)
webstore_start-IsUp_example = webstore_start-IsUp world options (server empty)

-- addresses shown as their bytes
abbrev raw : Ntop
raw = record { v4 = λ b. b; v6 = λ b. b }

abbrev limited : Sri mem_redis
limited = instance_of (config 0 0 0) options

uhd_client_connect-v6_example :
    uhd_client_connect raw limited (config 0 0 0) (
      some (
        sockaddr_in6
          (1 ∷ 2 ∷ [])
          (0 ∷ 0 ∷ 0 ∷ 0 ∷ [])
          ((32 ∷ 1 ∷ 13 ∷ 184 ∷ 0 ∷ 0 ∷ 0 ∷ 0 ∷ 0 ∷ 0 ∷ 0 ∷ 0 ∷ []) ++ (0 ∷ 0 ∷ 0 ∷ 1 ∷ []))
          []))
    ≡ uhd_client_connect raw limited (config 0 0 0) (
        some (
          sockaddr_in6
            (3 ∷ 4 ∷ [])
            (0 ∷ 0 ∷ 0 ∷ 0 ∷ [])
            ((32 ∷ 1 ∷ 13 ∷ 184 ∷ 0 ∷ 0 ∷ 0 ∷ 0 ∷ 0 ∷ 0 ∷ 0 ∷ 0 ∷ []) ++ (0 ∷ 0 ∷ 0 ∷ 2 ∷ []))
            []))
uhd_client_connect-v6_example =
    uhd_client_connect-v6 raw limited (config 0 0 0) (1 ∷ 2 ∷ []) (3 ∷ 4 ∷ []) (0 ∷ 0 ∷ 0 ∷ 0 ∷ [])
      (32 ∷ 1 ∷ 13 ∷ 184 ∷ 0 ∷ 0 ∷ 0 ∷ 0 ∷ 0 ∷ 0 ∷ 0 ∷ 0 ∷ []) (0 ∷ 0 ∷ 0 ∷ 1 ∷ [])
      (0 ∷ 0 ∷ 0 ∷ 2 ∷ []) [] [] refl refl refl refl
