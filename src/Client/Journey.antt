-- ===== src/Client/Journey.antt =====
-- A message from one client to another: posted by ws_post to the configured server, and got by ws_get.
use webstore.Base.{
  ℕ, ◌≤◌, ◌<◌, ◌^◌, ◌≡◌, refl, Bool, true, false, Option, none, some, List, [], ◌++◌, length, leb,
  ◌∙◌, ap, sym, subst,
}
use webstore.Base.Bytes.{Bytes, text}
use webstore.Base.Int.{to_unsigned}
use webstore.Base.Decimal.{decimal}
use webstore.Redis.{Redis, IsRedis}
use webstore.Server.{Server, WsRt, Returns, Returns-weaken}
use webstore.Alphabet.{Z85_validate}
use webstore.Node.Get.{asks}
use webstore.Node.Post.{key_of}
use webstore.Node.Store.{ValidRt, kept}
use webstore.Searest.Upload.{Connection, flatten}
use webstore.Searest.Request.{Response}
use webstore.Searest.Exchange.{exchange}
use webstore.Start.{SrvOpts, instance_of}
use webstore.Start.Routes.{Size, alg, root_of}
use webstore.Start.Exchanges.{Answers, called_with}
use webstore.Start.Http.{req_of}
use webstore.Start.RoundTrip.{http_round_trip}
use webstore.Client.Token.{Gcrypt, IsGcrypt, create_token, create_token-asks}
use webstore.Client.Codec.{
  Z85, IsZ85, Miniz, IsMiniz, encode_msg, comes_back, page_data, page_data-encode_msg,
}
use webstore.Client.Request.{accepted_block}

the_value : {A : Type 0} {a b : A} {o : Option A} → o ≡ some a → o ≡ some b → a ≡ b
the_value {A} {a} e f = ap (λ (o : Option A). elim o [ none ↦ a | some x ↦ x ]) (sym e ∙ f)

-- the token that the client makes is one that the node takes
token_asks :
    (g : Gcrypt) (laws : IsGcrypt g) (size : Size) (m token : Bytes)
    → g.md_open size ≡ true
    → create_token g (alg size) m ≡ some token
    → asks (req_of size token) ≡ true
token_asks g laws size m token opens e =
    let (t, is_t, asked, key) = create_token-asks g laws size m opens in
    subst (λ (x : Bytes). asks (req_of size x) ≡ true) (the_value is_t e) asked

-- the block that the client makes is one that the server takes, and holds the message
block_good :
    (z : Z85) (zlaws : IsZ85 z) (mz : Miniz) (mlaws : IsMiniz mz) (comp : Bool) (m e : Bytes)
    → 1 ≤ length m
    → comes_back mz comp m ≡ true
    → encode_msg z mz comp m ≡ some e
    → (page_data z mz e ≡ some m) × (leb 5 (length e) ≡ true) × (Z85_validate e ≡ 0)
block_good z zlaws mz mlaws comp m e full ok is_e =
    let (b, is_b, back, long, good) = page_data-encode_msg z zlaws mz mlaws comp m full ok in
    subst
      (λ (x : Bytes).
        (page_data z mz x ≡ some m) × (leb 5 (length x) ≡ true) × (Z85_validate x ≡ 0))
      (the_value is_b is_e) (back, long, good)

-- A message is encoded, compressed or not, and posted under the token made of it to the configured
-- server, in any pieces: the response is 200 "ok". A GET of the token is then answered 200 with a
-- page from which ws_get has the message again, byte for byte. The Z85 library, miniz and libgcrypt
-- keep their laws, and libgcrypt knows the algorithm. The message is not empty and one that comes
-- back; the block has its length announced, below 2 ^ 63 and within the server's limit, and the GET
-- announces none. Redis works and its lock is free, EXPIRATION is no negative number, no shutdown
-- is under way, and IMMUTABLE does not protect an older message.
pub message_journey :
    {R : Redis} (laws : IsRedis R) (z : Z85) (zlaws : IsZ85 z) (mz : Miniz) (mlaws : IsMiniz mz)
    (g : Gcrypt) (glaws : IsGcrypt g) (queue : Response → ℕ) (rt : WsRt) (so : SrvOpts)
    (size : Size) (now now' : ℕ) (conn conn' : Connection) (comp : Bool) (m token : Bytes)
    (pieces : List Bytes) (srv : Server R)
    → 1 ≤ length m
    → comes_back mz comp m ≡ true
    → encode_msg z mz comp m ≡ some (flatten pieces)
    → g.md_open size ≡ true
    → create_token g (alg size) m ≡ some token
    → conn.header (text "Content-Length") ≡ some (decimal (length (flatten pieces)))
    → length (flatten pieces) < 2 ^ 63
    → length (flatten pieces) ≤ to_unsigned 64 so.max_post_data_size
    → conn'.header (text "Content-Length") ≡ none
    → ValidRt rt
    → laws.alive srv.db ≡ true
    → srv.locked ≡ false
    → srv.shutdown ≡ false
    → kept laws rt
        (key_of (req_of size token))
        (called_with conn (root_of size ++ token) 2 pieces srv)
      ≡ false
    → Returns
        (exchange now queue conn
          (instance_of rt so)
          rt
          (root_of size ++ token)
          (text "POST")
          pieces
          srv)
        λ c.
          Answers c 200 (text "ok")
          × Returns
              (exchange now' queue conn' c.ws rt (root_of size ++ token) (text "GET") [] c.srv)
              (λ d. (page : Bytes) × Answers d 200 page × (page_data z mz page ≡ some m))
message_journey laws z zlaws mz mlaws g glaws queue rt so size now now' conn conn' comp m token
      pieces srv full ok is_e opens is_token announced small fits silent valid live free up new =
    let asked = token_asks g glaws size m token opens is_token in
    let (back, long, good) = block_good z zlaws mz mlaws comp m (flatten pieces) full ok is_e in
    Returns-weaken
      (exchange now queue conn (instance_of rt so) rt (root_of size ++ token) (text "POST") pieces
        srv)
      (http_round_trip laws queue rt so size now now' conn conn' token token pieces srv
        (accepted_block size token (flatten pieces) asked long good) asked refl announced small fits
        silent valid live free up new)
      (λ c both. (
        both.0,
        Returns-weaken
            (exchange now' queue conn' c.ws rt (root_of size ++ token) (text "GET") [] c.srv) both.1
            (λ d answer. (flatten pieces, answer, back)),
      ))
