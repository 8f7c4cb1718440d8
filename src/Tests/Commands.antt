-- ===== src/Tests/Commands.antt =====
-- Runs of ws_post and ws_get (src/ws_post.c, src/ws_get.c), with the libraries of webstore.Tests.Libraries.
use webstore.Tests.Libraries.{unary_z85, unary_z85-IsZ85, header_miniz, header_miniz-IsMiniz}
use webstore.Base.{◌≡◌, refl, true, false, none, some, [], ◌∷◌, ◌++◌, arith, if◌then◌else◌}
use webstore.Base.Int.{pos}
use webstore.Base.Bytes.{Bytes, text, bytes_eq}
use webstore.Base.Decimal.{decimal}
use webstore.Server.{done}
use webstore.Node.Post.{accepts}
use webstore.Start.Routes.{s256, alg, root_of}
use webstore.Start.Http.{req_of}
use webstore.Client.Curl.{Network, http_post, responded}
use webstore.Client.Url.{origin}
use webstore.Client.Codec.{page_data}
use webstore.Files.{FileSystem, regular, no_entry}
use webstore.Client.Post.{
  check_post, check_post-file, token_choice, PostOpts, no_opts, encode_msg_and_post,
}
use webstore.Client.Request.{encode_msg_and_post-request, says_ok}
use webstore.Tests.Clients.{zero_gcrypt, zero_gcrypt-IsGcrypt}

abbrev post_opts : PostOpts
post_opts = record no_opts { port = 8080; algorithm = pos 4 }

abbrev answering : Network
answering r = responded (text "ok" ∷ []) 200

encode_msg_and_post-request_example :
    (t : Bytes) × (e : Bytes) × (accepts (req_of s256 t) e ≡ true)
    × (page_data unary_z85 header_miniz e ≡ some (text "Hello"))
    × (encode_msg_and_post unary_z85 header_miniz zero_gcrypt answering
          (text "localhost")
          post_opts
          (text "Hello")
        ≡ (if says_ok (
              answering (http_post (origin (text "localhost") 8080 false ++ (root_of s256 ++ t)) e))
            then some t
            else none))
unfolding text alg origin decimal
encode_msg_and_post-request_example =
    encode_msg_and_post-request unary_z85 unary_z85-IsZ85 header_miniz header_miniz-IsMiniz
      zero_gcrypt zero_gcrypt-IsGcrypt answering (text "localhost") post_opts s256 (text "Hello")
      refl refl refl (omega arith) (omega arith) refl

-- one file, "m", that holds "Hello"
abbrev one_file : FileSystem
one_file = record {
  stat = λ path. if bytes_eq path (text "m") then regular 5 else no_entry;
  open_read = λ path. if bytes_eq path (text "m") then some (text "Hello") else none;
}

abbrev file_opts : PostOpts
file_opts = record no_opts {
  host = some (text "localhost");
  port = 8080;
  algorithm = pos 4;
  filename = some (text "m");
}

check_post-file_example : check_post one_file file_opts ≡ done (text "Hello")
unfolding text bytes_eq token_choice
check_post-file_example =
    check_post-file one_file file_opts (text "localhost") (text "m") 72 (text "ello") refl refl refl
      refl refl refl refl
