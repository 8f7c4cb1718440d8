-- ===== src/Start/Http.antt =====
-- A message over HTTP: the exchange, the storage node's handler and Redis together.
use webstore.Base.{
  ℕ, ◌≤◌, ◌≡◌, refl, true, false, none, some, List, [], ◌++◌, arith, length, ap, ◌∙◌, subst,
}
use webstore.Base.Int.{truth}
use webstore.Base.Bytes.{Bytes, text, c_str}
use webstore.Redis.{Redis, IsRedis}
use webstore.Server.{State, Server, WsRt, Returns, Returns-weaken}
use webstore.Alphabet.{Z85_validate}
use webstore.Node.{node, hashlen, WsReq, get, post}
use webstore.Node.Post.{accepts, key_of, Posted, post_stores}
use webstore.Node.Store.{ValidRt, kept}
use webstore.Node.Get.{asks, Gotten, get_returns}
use webstore.Node.Session.{got_value, stored}
use webstore.Searest.{Sri}
use webstore.Searest.Upload.{Connection, flatten, length_of, method_of}
use webstore.Searest.Request.{Response}
use webstore.Searest.Exchange.{exchange}
use webstore.Start.Routes.{Size, bits, alg, root_of}
use webstore.Start.Service.{Routed, Routed-Finds}
use webstore.Start.Exchanges.{
  Answers, called_with, Sent, answers, exchange-Finds, get_method, post_method,
}

-- the token's request, as the node sees it
abbrev pub req_of : Size → Bytes → WsReq
req_of size token = record {
  type = alg size;
  hashlen = hashlen (bits size);
  url = token;
  urllen = length token;
}

node-get :
    {R : Redis} (size : Size) (token : Bytes) (rt : WsRt) (s : State R)
    → s.srv.shutdown ≡ false
    → s.ri.method_type ≡ 1
    → node (alg size) (hashlen (bits size)) token (length token) rt s ≡ get (req_of size token) rt s
unfolding node
node-get size token rt s up m = rw (up, m)

node-post :
    {R : Redis} (size : Size) (token : Bytes) (rt : WsRt) (s : State R)
    → s.srv.shutdown ≡ false
    → s.ri.method_type ≡ 2
    → node (alg size) (hashlen (bits size)) token (length token) rt s
      ≡ post (req_of size token) rt s
unfolding node
node-post size token rt s up m = rw (up, m)

-- an exchange on a token, from the outcome of its node
exchange-storage :
    {R : Redis} (now : ℕ) (queue : Response → ℕ) (conn : Connection) (ws : Sri R) (rt : WsRt)
    (size : Size) (token method : Bytes) (m : ℕ) (pieces : List Bytes) (srv : Server R)
    (P : Bytes × State R → Type 0)
    → Routed ws
    → ws.min_url_len ≤ length (root_of size ++ token)
    → length (root_of size ++ token) ≤ ws.max_url_len
    → 3 ≤ length method
    → length method ≤ 7
    → method_of method ≡ some m
    → length_of (conn.header (text "Content-Length")) ≡ length (flatten pieces)
    → length (flatten pieces) ≤ ws.max_content_length
    → Returns
        (node
          (alg size)
          (hashlen (bits size))
          token
          (length token)
          rt
          (called_with conn (root_of size ++ token) m pieces srv))
        P
    → (i : ℕ) × Returns
        (exchange now queue conn ws rt (root_of size ++ token) method pieces srv)
        (Sent now i ws P)
exchange-storage now queue conn ws rt size token method m pieces srv P routed =
    exchange-Finds now queue conn ws rt (node (alg size) (hashlen (bits size))) (root_of size) token
      method m pieces srv P (Routed-Finds ws size token routed)

module _ {R : Redis} (laws : IsRedis R) (queue : Response → ℕ) (rt : WsRt) (size : Size) where
  -- An HTTP request in bounds: routed, and with a URL that the instance takes.
  abbrev pub Takes : Sri R → Bytes → Type 0
  Takes ws token =
      Routed ws
      × (ws.min_url_len ≤ length (root_of size ++ token))
      × (length (root_of size ++ token) ≤ ws.max_url_len)

  pub http_get :
      (now : ℕ) (conn : Connection) (ws : Sri R) (token v : Bytes) (srv : Server R)
      → Takes ws token
      → length token ≤ 255
      → asks (req_of size token) ≡ true
      → conn.header (text "Content-Length") ≡ none
      → laws.alive srv.db ≡ true
      → srv.locked ≡ false
      → srv.shutdown ≡ false
      → laws.find srv.db (key_of (req_of size token)) ≡ some v
      → c_str v ≡ v
      → Returns
          (exchange now queue conn ws rt (root_of size ++ token) (text "GET") [] srv)
          (λ d. Answers d 200 v)
  unfolding length_of
  http_get now conn ws token v srv takes tok asked silent live free up stored whole =
      let s = called_with conn (root_of size ++ token) 1 [] srv in
      let (i, h) =
        exchange-storage now queue conn ws rt size token (text "GET") 1 [] srv
          (Gotten laws (truth rt.bar) (req_of size token) s) takes.0 takes.1 takes.2
          (omega (arith, get_method.1)) (omega (arith, get_method.1)) get_method.0
          (ap length_of silent) (omega arith)
          (rw (node-get size token rt s up refl)
            (get_returns laws (req_of size token) rt s tok asked live free)) in
      Returns-weaken (exchange now queue conn ws rt (root_of size ++ token) (text "GET") [] srv) h
        (λ d sent.
          let got = got_value laws (truth rt.bar) (req_of size token) s sent.0 v sent.1 stored in
          answers now i ws d _ 200 v v sent (got.0 ∙ whole) got.1 refl whole)

  -- the upload of an accepted request passes the validation, and its token has the node's length
  pub accepted_data :
      (token data_ : Bytes) → accepts (req_of size token) data_ ≡ true → Z85_validate data_ ≡ 0
  accepted_data token data_ h = ground arith

  pub http_post :
      (now : ℕ) (conn : Connection) (ws : Sri R) (token : Bytes) (pieces : List Bytes)
      (srv : Server R)
      → Takes ws token
      → length token ≤ 255
      → accepts (req_of size token) (flatten pieces) ≡ true
      → length_of (conn.header (text "Content-Length")) ≡ length (flatten pieces)
      → length (flatten pieces) ≤ ws.max_content_length
      → ValidRt rt
      → laws.alive srv.db ≡ true
      → srv.locked ≡ false
      → srv.shutdown ≡ false
      → kept laws rt
          (key_of (req_of size token))
          (called_with conn (root_of size ++ token) 2 pieces srv)
        ≡ false
      → (i : ℕ) × Returns
          (exchange now queue conn ws rt (root_of size ++ token) (text "POST") pieces srv)
          (Sent now i ws (
            Posted laws false
              (req_of size token)
              (called_with conn (root_of size ++ token) 2 pieces srv)))
  http_post now conn ws token pieces srv takes tok passed announced fits valid live free up new =
      let s = called_with conn (root_of size ++ token) 2 pieces srv in
      exchange-storage now queue conn ws rt size token (text "POST") 2 pieces srv
        (Posted laws false (req_of size token) s) takes.0 takes.1 takes.2
        (omega (arith, post_method.1)) (omega (arith, post_method.1)) post_method.0 announced fits
        (rw (node-post size token rt s up refl) (
          subst (λ b. Returns (post (req_of size token) rt s) (Posted laws b (req_of size token) s))
            new (post_stores laws (req_of size token) rt s tok passed valid live free)))
