-- ===== src/Start/RoundTrip.antt =====
-- What a message posted to the configured server is worth: the next GET returns it.
use webstore.Base.{
  ℕ, ◌^◌, ◌≤◌, ◌<◌, ◌≡◌, refl, true, false, none, some, List, [], ◌++◌, arith, length,
  length-append, Bool-cases, inl, inr, ap, ◌∙◌, sym, subst,
}
use webstore.Base.Int.{to_unsigned}
use webstore.Base.Bytes.{Bytes, text}
use webstore.Base.Decimal.{decimal, atol-decimal}
use webstore.Redis.{Redis, IsRedis}
use webstore.Server.{Server, WsRt, Returns, Returns-weaken}
use webstore.Alphabet.{c_str-validated}
use webstore.Node.{hashlen}
use webstore.Node.Post.{accepts, key_of}
use webstore.Node.Store.{ValidRt, kept}
use webstore.Node.Get.{asks}
use webstore.Node.Session.{stored}
use webstore.Searest.{Sri, searest_new, searest_set_internal_select, searest_set_addr_cb}
use webstore.Searest.Upload.{Connection, flatten, length_of}
use webstore.Searest.Request.{Response}
use webstore.Searest.Exchange.{exchange}
use webstore.Start.{SrvOpts, instance_of, limiting, add_nodes}
use webstore.Start.Routes.{Size, s128, s160, s224, s256, s384, s512, bits, root_of}
use webstore.Start.Service.{instance_of-Routed, Routed-touch, length-root}
use webstore.Start.Exchanges.{Answers, called_with, touched, answers, ok_text}
use webstore.Start.Http.{req_of, Takes, http_get, http_post, accepted_data}

hashlen-le : (size : Size) → hashlen (bits size) ≤ 128
unfolding bits
hashlen-le s128 = omega arith
hashlen-le s160 = omega arith
hashlen-le s224 = omega arith
hashlen-le s256 = omega arith
hashlen-le s384 = omega arith
hashlen-le s512 = omega arith

pub record Limits {R : Redis} (ws : Sri R) (so : SrvOpts) : Type 0 where
  pub shortest : ws.min_url_len ≡ 11
  pub longest : ws.max_url_len ≡ 139
  pub largest : ws.max_content_length ≡ to_unsigned 64 so.max_post_data_size

pub instance_of-Limits :
    (R : Redis) (rt : WsRt) (so : SrvOpts) → Limits {R = R} (instance_of rt so) so
unfolding instance_of searest_new searest_set_internal_select searest_set_addr_cb add_nodes
instance_of-Limits R rt so = elim (Bool-cases so.use_threads) [
  | inl threads ↦ elim (Bool-cases (limiting rt)) [
    | inl on ↦ rw (threads, on) (record { shortest = refl; longest = refl; largest = refl })
    | inr off ↦ rw (threads, off) (record { shortest = refl; longest = refl; largest = refl })
  ]
  | inr single ↦ elim (Bool-cases (limiting rt)) [
    | inl on ↦ rw (single, on) (record { shortest = refl; longest = refl; largest = refl })
    | inr off ↦ rw (single, off) (record { shortest = refl; longest = refl; largest = refl })
  ]
]

-- a Content-Length header that printf wrote
length_of-decimal : (n : ℕ) → n < 2 ^ 63 → length_of (some (decimal n)) ≡ n
unfolding length_of
length_of-decimal n h = rw (atol-decimal n h) (omega arith)

asked_length :
    (size : Size) (token : Bytes)
    → asks (req_of size token) ≡ true
    → length token ≡ hashlen (bits size)
asked_length size token h = ground arith

accepted_asks :
    (size : Size) (token data_ : Bytes)
    → accepts (req_of size token) data_ ≡ true
    → asks (req_of size token) ≡ true
accepted_asks size token data_ h = ground arith

module _ {R : Redis} (laws : IsRedis R) (queue : Response → ℕ) (rt : WsRt) (so : SrvOpts)
    (size : Size) where
  Takes-instance :
      (token : Bytes)
      → length token ≡ hashlen (bits size)
      → Takes laws queue rt size (instance_of rt so) token
  Takes-instance token e =
      let l = instance_of-Limits R rt so in
      (
        instance_of-Routed R rt so,
        omega (arith, l.shortest, length-append {0} (root_of size) token, length-root size),
        omega (
          arith,
          l.longest,
          e,
          hashlen-le size,
          length-append {0} (root_of size) token,
          length-root size,
        ),
      )

  Takes-touched :
      (now i : ℕ) (ws : Sri R) (token : Bytes)
      → Takes laws queue rt size ws token
      → Takes laws queue rt size (touched now i ws) token
  Takes-touched now i ws token t = (Routed-touch now i ws t.0, t.1, t.2)

  -- A client POSTs at least five Z85 digits under a token of hex digits, of the node's length, to a
  -- storage node of the configured server, in any pieces, with the length announced, below 2 ^ 63
  -- and within the limit: the response is 200 "ok". A GET without a Content-Length, of the same
  -- token in upper or lower case, is then answered 200 with the message, byte for byte. Redis works
  -- and its lock is free, EXPIRATION is no negative number, no shutdown is under way, and IMMUTABLE
  -- does not protect an older message.
  pub http_round_trip :
      (now now' : ℕ) (conn conn' : Connection) (token token' : Bytes) (pieces : List Bytes)
      (srv : Server R)
      → accepts (req_of size token) (flatten pieces) ≡ true
      → asks (req_of size token') ≡ true
      → key_of (req_of size token') ≡ key_of (req_of size token)
      → conn.header (text "Content-Length") ≡ some (decimal (length (flatten pieces)))
      → length (flatten pieces) < 2 ^ 63
      → length (flatten pieces) ≤ to_unsigned 64 so.max_post_data_size
      → conn'.header (text "Content-Length") ≡ none
      → ValidRt rt
      → laws.alive srv.db ≡ true
      → srv.locked ≡ false
      → srv.shutdown ≡ false
      → kept laws rt
          (key_of (req_of size token))
          (called_with conn (root_of size ++ token) 2 pieces srv)
        ≡ false
      → Returns
          (exchange now queue conn
            (instance_of rt so)
            rt
            (root_of size ++ token)
            (text "POST")
            pieces
            srv)
          λ c.
            Answers c 200 (text "ok")
            × Returns
                (exchange now' queue conn' c.ws rt (root_of size ++ token') (text "GET") [] c.srv)
                (λ d. Answers d 200 (flatten pieces))
  http_round_trip now now' conn conn' token token' pieces srv passed asked same announced small fits
        silent valid live free up new =
      let ws : Sri R = instance_of rt so in
      let len = asked_length size token (accepted_asks size token (flatten pieces) passed) in
      let (i, h) =
        http_post laws queue rt size now conn ws token pieces srv (Takes-instance token len)
          (omega (arith, len, hashlen-le size)) passed
          (ap length_of announced ∙ length_of-decimal (length (flatten pieces)) small)
          (omega (arith, (instance_of-Limits R rt so).largest)) valid live free up new in
      Returns-weaken
        (exchange now queue conn ws rt (root_of size ++ token) (text "POST") pieces srv) h
        (λ c sent. (
          answers now i ws c _ 200 (text "ok") (text "ok") sent sent.1.0 sent.1.1 refl ok_text,
          subst
              (λ w.
                Returns
                  (exchange now' queue conn' w rt (root_of size ++ token') (text "GET") [] c.srv)
                  (λ d. Answers d 200 (flatten pieces)))
              (sym sent.4)
              (subst
                (λ v.
                  Returns
                    (exchange now' queue conn' (touched now i ws) rt (root_of size ++ token')
                      (text "GET") [] v)
                    (λ d. Answers d 200 (flatten pieces)))
                (sym sent.3)
                (http_get laws queue rt size now' conn' (touched now i ws) token' (flatten pieces)
                  sent.0.1.srv
                  (Takes-touched now i ws token'
                    (Takes-instance token' (asked_length size token' asked)))
                  (omega (arith, asked_length size token' asked, hashlen-le size)) asked silent
                  sent.1.3 sent.1.2 (sent.1.5 ∙ up)
                  (ap (laws.find sent.0.1.srv.db) same
                    ∙ stored laws (req_of size token)
                        (called_with conn (root_of size ++ token) 2 pieces srv) sent.0 sent.1)
                  (c_str-validated (flatten pieces)
                    (accepted_data laws queue rt size token (flatten pieces) passed)))),
        ))
