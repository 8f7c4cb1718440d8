-- ===== src/Tests/Clients.antt =====
-- The clients, with a Z85 library, a miniz and a libgcrypt that show what is asked of them can be had.
use webstore.Tests.Libraries.{
  unary, unary_all, unary_encode, unary_z85, unary_z85-IsZ85, header_miniz, header_miniz-IsMiniz,
}
use webstore.Base.{
  take, drop, append-nil, ℕ, zero, suc, ◌/◌, ◌≡◌, refl, ap, true, false, none, some, List, [], ◌∷◌,
  ◌++◌, arith, length, all, ltb, leb, if◌then◌else◌,
}
use webstore.Base.Bytes.{Bytes, text, bytes_eq}
use webstore.Base.Decimal.{decimal, atoi}
use webstore.Redis.Mem.{mem_redis_laws, mem_alive}
use webstore.Server.{Returns, done}
use webstore.Alphabet.{Z85_validate}
use webstore.Searest.Upload.{Connection}
use webstore.Searest.Exchange.{exchange}
use webstore.Start.{instance_of}
use webstore.Start.Routes.{s256, bits, alg, root_of}
use webstore.Start.Exchanges.{Answers}
use webstore.Client.Url.{origin}
use webstore.Client.Token.{Gcrypt, IsGcrypt, create_token, gen_hash}
use webstore.Client.Codec.{encode_msg, page_data, page_data-encode_msg, packed}
use webstore.Client.Journey.{message_journey}
use webstore.Tests.Program.{fits_long}
use webstore.Main.{Got, option}
use webstore.Config.{wanted}
use webstore.Config.Page.{lines}
use webstore.Searest.Request.{Response}
use webstore.Client.Config.{CfgOpts, read_cfg_options, ws_cfg}
use webstore.Client.Get.{printed}
use webstore.Client.ConfigJourney.{serves, ws_cfg_prints}
use webstore.Tests.Data.{config, server, empty, options, silent, queued}

abbrev pieces : List Bytes
pieces = text "o" ∷ text "k" ∷ []

pub zeros : ℕ → Bytes
zeros zero = []
zeros (suc n) = 0 ∷ zeros n

length-zeros : (n : ℕ) → length (zeros n) ≡ n
unfolding zeros
length-zeros zero = refl
length-zeros (suc n) = ap suc (length-zeros n)

zeros_bytes : (n : ℕ) → all (λ b. ltb b 256) (zeros n) ≡ true
unfolding zeros
zeros_bytes zero = refl
zeros_bytes (suc n) = zeros_bytes n

-- a libgcrypt whose digests are all zero
abbrev pub zero_gcrypt : Gcrypt
zero_gcrypt = record { md_open = λ size. true; digest = λ size msg. zeros (bits size / 8) }

pub zero_gcrypt-IsGcrypt : IsGcrypt zero_gcrypt
zero_gcrypt-IsGcrypt = record {
  length-digest = λ size msg. length-zeros (bits size / 8);
  digest_bytes = λ size msg. zeros_bytes (bits size / 8);
}

page_data-encode_msg_example :
    (e : Bytes) × (encode_msg unary_z85 header_miniz true (text "Hello") ≡ some e)
    × (page_data unary_z85 header_miniz e ≡ some (text "Hello"))
    × (leb 5 (length e) ≡ true)
    × (Z85_validate e ≡ 0)
unfolding text
page_data-encode_msg_example =
    page_data-encode_msg unary_z85 unary_z85-IsZ85 header_miniz header_miniz-IsMiniz true
      (text "Hello") (omega arith) refl

abbrev pub small_block : Bytes
small_block = 48 ∷ 48 ∷ 48 ∷ 48 ∷ 48 ∷ 48 ∷ 48 ∷ 48 ∷ 49 ∷ 49 ∷ []

-- a client that announces the ten bytes of the block, whose token is that of the message 3, 0
abbrev announcing_ten : Connection
announcing_ten = record {
  client_ip = some (text "10.0.0.1");
  header = λ name. if bytes_eq name (text "Content-Length") then some (text "10") else none;
}

abbrev zero_token : Bytes
zero_token = gen_hash (zeros 32)

message_journey_example :
    Returns
      (exchange 7 queued announcing_ten
        (instance_of (config 0 0 0) options)
        (config 0 0 0)
        (root_of s256 ++ zero_token)
        (text "POST")
        (small_block ∷ [])
        (server empty))
      λ c.
        Answers c 200 (text "ok")
        × Returns
            (exchange 8 queued silent c.ws
              (config 0 0 0)
              (root_of s256 ++ zero_token)
              (text "GET")
              []
              c.srv)
            (λ d.
              (page : Bytes) × Answers d 200 page
              × (page_data unary_z85 header_miniz page ≡ some (3 ∷ 0 ∷ [])))
unfolding text bytes_eq decimal encode_msg packed unary_encode unary_all unary create_token bits alg
message_journey_example =
    message_journey mem_redis_laws unary_z85 unary_z85-IsZ85 header_miniz header_miniz-IsMiniz
      zero_gcrypt zero_gcrypt-IsGcrypt queued (config 0 0 0) options s256 7 8 announcing_ten silent
      false (3 ∷ 0 ∷ []) zero_token (small_block ∷ []) (server empty) (omega arith) refl refl refl
      refl refl (omega arith) (omega arith) refl (0, refl) (mem_alive empty) refl refl refl

abbrev cfg_args : List Got
cfg_args = option 1 (text "localhost") ∷ option 2 (text "8080") ∷ []

abbrev cfg_opts : CfgOpts
cfg_opts = record { host = some (text "localhost"); port = 8080; secure = false }

-- the page in two pieces
abbrev halved : Bytes → List Bytes
halved page = take 20 page ∷ drop 20 page ∷ []

halves_join : (n : ℕ) (page : Bytes) → take n page ++ (drop n page ++ []) ≡ page
halves_join zero page = append-nil page
halves_join (suc n) [] = refl
halves_join (suc n) (c ∷ page) = ap (λ rest. c ∷ rest) (halves_join n page)

ws_cfg_prints_example :
    Returns
      (exchange 7 queued silent
        (instance_of (config 30 1 0) options)
        (config 30 1 0)
        (text "/config/all")
        (text "GET")
        []
        (server empty))
      (λ c.
        (resp : Response) × (c.response ≡ some resp)
        × (ws_cfg (serves (text "http://localhost:8080") (text "/config/all") halved resp) cfg_args
            ≡ done (0, printed (lines (wanted (text "all")) (config 30 1 0)))))
unfolding text origin decimal read_cfg_options atoi
ws_cfg_prints_example =
    ws_cfg_prints 7 queued silent (config 30 1 0) options (server empty) cfg_args cfg_opts
      (text "localhost") halved fits_long refl refl refl refl refl (omega arith) (halves_join 20)
