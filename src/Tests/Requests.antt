-- ===== src/Tests/Requests.antt =====
-- Whole requests on the small server.
use webstore.Base.{ℕ, refl, none, some, List, [], ◌∷◌, ◌++◌, arith, if◌then◌else◌}
use webstore.Base.Bytes.{Bytes, text, c_str, bytes_eq, is_xdigit, to_lower}
use webstore.Base.Decimal.{decimal, atol}
use webstore.Redis.Mem.{mem_redis, mem_redis_laws, mem_alive}
use webstore.Server.{Returns, Srci}
use webstore.Alphabet.{Z85_validate, is_Z85_digit}
use webstore.Node.{node}
use webstore.Searest.{Sri, searest_new}
use webstore.Searest.Nodes.{searest_node_find}
use webstore.Searest.Upload.{Connection, gather, start_request, flatten, length_of, method_of}
use webstore.Searest.Headers.{started_ri}
use webstore.Searest.Exchange.{started, piece, Ongoing-IsOngoing, IsOngoing, exchange}
use webstore.Start.{instance_of, add_nodes, callback}
use webstore.Start.Routes.{s128, s256, bits, alg, root_of, Finds, storage_route}
use webstore.Start.Exchanges.{Answers}
use webstore.Start.RoundTrip.{http_round_trip}
use webstore.Start.ConfigPage.{config_answered, config_page, config_code}
use webstore.Tests.Program.{fits_long}
use webstore.Tests.Data.{
  options, silent, queued, config, token, capital_token, server, empty, ri_of,
}

-- a client that announces ten bytes
abbrev pub announcing : Connection
announcing = record {
  client_ip = some (text "10.0.0.1");
  header = λ name. if bytes_eq name (text "Content-Length") then some (text "10") else none;
}

abbrev pub halves : List Bytes
halves = text "Hello" ∷ text "World" ∷ []

http_round_trip_example :
    Returns
      (exchange 7 queued announcing
        (instance_of (config 0 0 0) options)
        (config 0 0 0)
        (root_of s128 ++ token)
        (text "POST")
        halves
        (server empty))
      λ c.
        Answers c 200 (text "ok")
        × Returns
            (exchange 8 queued silent c.ws
              (config 0 0 0)
              (root_of s128 ++ capital_token)
              (text "GET")
              []
              c.srv)
            (λ d. Answers d 200 (flatten halves))
unfolding text bytes_eq is_xdigit to_lower Z85_validate is_Z85_digit decimal bits
http_round_trip_example =
    http_round_trip mem_redis_laws queued (config 0 0 0) options s128 7 8 announcing silent token
      capital_token halves (server empty) refl refl refl refl (omega arith) (omega arith) refl
      (0, refl) (mem_alive empty) refl refl refl

-- a record of a request that announced `n` bytes and has none yet
abbrev announced : ℕ → Srci
announced n = record (ri_of 2 []) { content_length = n }

abbrev small : Sri mem_redis
small = searest_new 11 139 1000

abbrev url : Bytes
url = root_of s128 ++ token

-- the request after one piece
Ongoing-IsOngoing_example :
    IsOngoing small url
      (text "POST")
      (record (started_ri announcing url 2) { post_data = [] ++ text "Hello" })
unfolding text bytes_eq start_request searest_new root_of length_of atol method_of gather
Ongoing-IsOngoing_example =
    Ongoing-IsOngoing small announcing url (text "POST") (piece (text "Hello") (started refl) refl)

storage_route_example :
    Finds
      (searest_node_find (root_of s256 ++ token) (add_nodes small).nodelist)
      (callback (node 4 64))
      11
unfolding bits alg searest_new
storage_route_example = storage_route small s256 token refl

config_answered_example :
    Returns
      (exchange 7 queued silent
        (instance_of (config 30 1 0) options)
        (config 30 1 0)
        (text "/config/" ++ text "all")
        (text "GET")
        []
        (server empty))
      (λ c. Answers c (config_code (text "all")) (c_str (config_page (config 30 1 0) (text "all"))))
unfolding text
config_answered_example =
    config_answered 7 queued silent (config 30 1 0) options (text "all") (server empty) fits_long
      (omega arith) (omega arith) refl refl
