-- ===== src/Client/Request.antt =====
-- The request that ws_post makes of a message (src/ws_post.c).
use webstore.Base.{
  ◌≤◌, ◌≡◌, refl, Bool, true, false, none, some, ◌++◌, arith, leb, ◌==◌, if◌then◌else◌, length,
}
use webstore.Base.Int.{pos}
use webstore.Base.Bytes.{Bytes}
use webstore.Client.Url.{create_url-root, origin}
use webstore.Client.Curl.{
  no_resp, Network, http_post, Transfer, no_handle, failed, responded, ws_curl, ws_curl_post,
}
use webstore.Client.Token.{Gcrypt, IsGcrypt, create_token-asks}
use webstore.Client.Codec.{Z85, IsZ85, Miniz, IsMiniz, comes_back, page_data, page_data-encode_msg}
use webstore.Alphabet.{Z85_validate, c_str-validated}
use webstore.Node.{hashlen}
use webstore.Node.Get.{asks}
use webstore.Node.Post.{accepts}
use webstore.Start.Routes.{Size, bits, alg, root_of}
use webstore.Start.Http.{req_of}
use webstore.Client.Post.{PostOpts, encode_msg_and_post, post_msg, post_result}

-- the server's answer is 200
abbrev pub says_ok : Transfer → Bool
says_ok (responded pieces code) = code == 200
says_ok _ = false

post_result-says_ok : (t : Transfer) → (post_result (ws_curl t no_resp) == 0) ≡ says_ok t
unfolding post_result ws_curl
post_result-says_ok no_handle = refl
post_result-says_ok (failed pieces) = refl
post_result-says_ok (responded pieces code) = ground arith

post_msg-says_ok :
    (net : Network) (url e : Bytes)
    → Z85_validate e ≡ 0
    → (post_msg net url e == 0) ≡ says_ok (net (http_post url e))
unfolding post_msg ws_curl_post
post_msg-says_ok net url e valid =
    rw (c_str-validated e valid) (post_result-says_ok (net (http_post url e)))

-- the server's checks of a block and a token
pub accepted_block :
    (size : Size) (token e : Bytes)
    → asks (req_of size token) ≡ true
    → leb 5 (length e) ≡ true
    → Z85_validate e ≡ 0
    → accepts (req_of size token) e ≡ true
accepted_block size token e asked long valid = ground arith

asked_hashlen :
    (size : Size) (token : Bytes)
    → asks (req_of size token) ≡ true
    → length token ≡ hashlen (bits size)
asked_hashlen size token h = ground arith

-- A message that is not empty and comes back, posted under an algorithm that libgcrypt knows to an
-- origin of at most 1900 characters, is posted as a block to the URL of a token on the server: the
-- server takes the block under that token, and from the block a client gets the message back. The
-- program gives the token exactly if the answer is 200. The Z85 library, miniz and libgcrypt keep
-- their laws.
pub encode_msg_and_post-request :
    (z : Z85) (zlaws : IsZ85 z) (mz : Miniz) (mlaws : IsMiniz mz) (g : Gcrypt) (glaws : IsGcrypt g)
    (net : Network) (host : Bytes) (o : PostOpts) (size : Size) (m : Bytes)
    → o.token ≡ none
    → o.algorithm ≡ pos (alg size)
    → g.md_open size ≡ true
    → length (origin host o.port o.secure) ≤ 1900
    → 1 ≤ length m
    → comes_back mz o.comp m ≡ true
    → (token : Bytes) × (e : Bytes) × (accepts (req_of size token) e ≡ true)
      × (page_data z mz e ≡ some m)
      × (encode_msg_and_post z mz g net host o m ≡ (
          if says_ok (net (http_post (origin host o.port o.secure ++ (root_of size ++ token)) e))
          then some token
          else none))
unfolding encode_msg_and_post
encode_msg_and_post-request z zlaws mz mlaws g glaws net host o size m own algo opens short full
      ok =
    let (e, is_e, back, long, valid) = page_data-encode_msg z zlaws mz mlaws o.comp m full ok in
    let (token, is_token, asked, key) = create_token-asks g glaws size m opens in
    let url =
      create_url-root host o.port o.secure size token (asked_hashlen size token asked) short in
    (
      token,
      e,
      accepted_block size token e asked long valid,
      back,
      rw (
        is_e,
        own,
        algo,
        is_token,
        url.1,
        post_msg-says_ok net (origin host o.port o.secure ++ (root_of size ++ token)) e valid,
      ),
    )
