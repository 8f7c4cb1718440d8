-- ===== src/Searest/Blocks/Start.antt =====
-- The call with the headers, in memory (src/searest.c, uhd_request_started), against start_request.
use webstore.Base.{
  ℕ, ◌≡◌, refl, sym, subst, ◌∙◌, Bool, true, false, Option, none, some, arith, ltb, if◌then◌else◌,
  length, Bool-cases, inl, inr,
}
use webstore.Base.Bytes.{Bytes, text}
use webstore.Redis.{Redis}
use webstore.Server.{Srci}
use webstore.Searest.{Sri}
use webstore.Searest.Upload.{
  Connection, mhd_yes, mhd_no, method_of, length_of, start_request, with_method, with_headers,
  fresh,
}
use webstore.Memory.{Ptr, null, Heap, write, Ends, Ends-bind, Ends-weaken}
use webstore.Searest.Blocks.{
  ip, url, accept, auth, return_page, code, ReqCell, ReqBlock, req, blank, dup, set_method,
  announce, headers_into, start_into, fields,
}
use webstore.Searest.Blocks.Owns.{Owns, numbers-Owns, load_req-ok}
use webstore.Memory.{store-ok}
use webstore.Searest.Blocks.Assign.{Only, dup-Owns}

ret_of : Option ℕ → ℕ
ret_of none = mhd_no
ret_of (some m) = mhd_yes

-- the verdict on the length and the method, and the length that the record keeps
with_method-ret :
    (b : Bool) (ri : Srci) (m : Option ℕ)
    → ((if b then (mhd_no, ri) else with_method ri m).0 ≡ (if b then mhd_no else ret_of m))
      × ((if b then (mhd_no, ri) else with_method ri m).1.content_length ≡ ri.content_length)
unfolding with_method ret_of
with_method-ret true ri m = (refl, refl)
with_method-ret false ri none = (refl, refl)
with_method-ret false ri (some m) = (refl, refl)

module _ (h0 : Heap ReqBlock) (ri : Ptr) where
  -- What a call leaves of the record: the verdict, the length announced, no upload and no page yet.
  abbrev pub Early : ℕ → ℕ → ℕ → Heap ReqBlock → Type 0
  Early ret announced z g =
      (c : ReqCell) × (z ≡ ret)
      × (c.content_length ≡ announced)
      × (c.post_data_len ≡ 0)
      × (c.ptr return_page ≡ null)
      × Owns h0 fields ri c g

  set_method-Early :
      (m : Option ℕ) (c : ReqCell) (h : Heap ReqBlock)
      → Owns h0 fields ri c h
      → c.post_data_len ≡ 0
      → c.ptr return_page ≡ null
      → Ends (set_method m ri h) (Early (ret_of m) c.content_length)
  unfolding set_method ret_of
  set_method-Early none c h o empty no_page = (c, refl, refl, empty, no_page, o)
  set_method-Early (some m) c h o empty no_page =
      rw
        (
          load_req-ok h ri c o.at_ri,
          store-ok h ri (req c) (req (record c { method_type = m })) o.at_ri,
        )
        (
          record c { method_type = m },
          refl,
          refl,
          empty,
          no_page,
          numbers-Owns h0 ri c m c.content_length c.post_data_len h o,
        )

  announce-Early :
      {R : Redis} (ws : Sri R) (header : Option Bytes) (method : Bytes) (c : ReqCell)
      (h : Heap ReqBlock)
      → Owns h0 fields ri c h
      → c.content_length ≡ 0
      → c.post_data_len ≡ 0
      → c.ptr return_page ≡ null
      → Ends (announce ws header method ri h) (
          Early
            (if ltb ws.max_content_length (length_of header)
              then mhd_no
              else ret_of (method_of method))
            (length_of header))
  unfolding announce length_of
  announce-Early ws none method c h o zero' empty no_page = rw (never ws.max_content_length) (
      subst (λ l. Ends (set_method (method_of method) ri h) (Early (ret_of (method_of method)) l))
        zero' (set_method-Early (method_of method) c h o empty no_page))
    where
      never : (n : ℕ) → ltb n 0 ≡ false
      never n = ground arith
  announce-Early ws (some header) method c h o zero' empty no_page =
      rw (load_req-ok h ri c o.at_ri, store-ok h ri (req c) (req c') o.at_ri)
        (elim (Bool-cases (ltb ws.max_content_length (length_of (some header)))) [
          | inl long ↦ rw long (c', refl, refl, empty, no_page, o')
          | inr fits ↦ rw fits (set_method-Early (method_of method) c' _ o' empty no_page)
        ])
    where
      c' : ReqCell
      c' = record c { content_length = length_of (some header) }

      o' : Owns h0 fields ri c' (write h ri (some (req c')))
      o' = numbers-Owns h0 ri c c.method_type (length_of (some header)) c.post_data_len h o

  headers-Early :
      {R : Redis} (ws : Sri R) (conn : Connection) (method : Bytes) (c : ReqCell)
      (h : Heap ReqBlock)
      → Owns h0 fields ri c h
      → Only url blank c
      → Ends (headers_into ws conn method ri h) (
          Early
            (if ltb ws.max_content_length (length_of (conn.header (text "Content-Length")))
              then mhd_no
              else ret_of (method_of method))
            (length_of (conn.header (text "Content-Length"))))
  unfolding headers_into code
  headers-Early ws conn method c h o only =
      Ends-bind (dup ip conn.client_ip ri h) _ _ _
        (dup-Owns h0 ri c ip conn.client_ip h o (only.others ip refl))
        (λ u1 h1 s1.
          Ends-bind (dup accept (conn.header (text "Accept")) ri h1) _ _ _
            (dup-Owns h0 ri s1.0 accept (conn.header (text "Accept")) h1 s1.2
              (s1.1.others accept refl ∙ only.others accept refl))
            (λ u2 h2 s2.
              Ends-bind (dup auth (conn.header (text "Authorization")) ri h2) _ _ _
                (dup-Owns h0 ri s2.0 auth (conn.header (text "Authorization")) h2 s2.2
                  (s2.1.others auth refl ∙ s1.1.others auth refl ∙ only.others auth refl))
                (λ u3 h3 s3.
                  announce-Early ws (conn.header (text "Content-Length")) method s3.0 h3 s3.2
                    (s3.1.content_length ∙ s2.1.content_length ∙ s1.1.content_length
                      ∙ only.content_length)
                    (s3.1.post_data_len ∙ s2.1.post_data_len ∙ s1.1.post_data_len
                      ∙ only.post_data_len)
                    (s3.1.others return_page refl
                      ∙ s2.1.others return_page refl
                      ∙ s1.1.others return_page refl
                      ∙ only.others return_page refl))))

  -- The call with the headers gives the verdict of start_request, and leaves the request with what it
  -- has made.
  pub start_into-Early :
      {R : Redis} (ws : Sri R) (conn : Connection) (uri method : Bytes) (h : Heap ReqBlock)
      → Owns h0 fields ri blank h
      → Ends (start_into ws conn uri method ri h) (
          Early
            (start_request ws conn uri method).0
            (start_request ws conn uri method).1.content_length)
  unfolding start_into start_request with_headers fresh code
  start_into-Early ws conn uri method h o =
      Ends-bind (dup url (some uri) ri h) _ _ _ (dup-Owns h0 ri blank url (some uri) h o refl)
        (λ u g (c, only, o').
          let away : Early mhd_no 0 mhd_no g =
            (c, refl, only.content_length, only.post_data_len, only.others return_page refl, o') in
          elim (Bool-cases (ltb (length uri) ws.min_url_len)) [
            | inl short ↦ rw short away
            | inr a ↦ elim (Bool-cases (ltb ws.max_url_len (length uri))) [
              | inl long ↦ rw (a, long) away
              | inr b ↦ elim (Bool-cases (ltb (length method) 3)) [
                | inl less ↦ rw (a, b, less) away
                | inr d ↦ elim (Bool-cases (ltb 7 (length method))) [
                  | inl more ↦ rw (a, b, d, more) away
                  | inr e ↦
                      rw (a, b, d, e)
                        (Ends-weaken (headers_into ws conn method ri g) _ _
                          (headers-Early ws conn method c g o' only)
                          (λ z g' it.
                            (it.0, it.1 ∙ sym verdict.0, it.2 ∙ sym verdict.1, it.3, it.4, it.5)))
                ]
              ]
            ]
          ])
    where
      announced : Bool
      announced = ltb ws.max_content_length (length_of (conn.header (text "Content-Length")))

      verdict :
          ((if announced
              then (mhd_no, with_headers conn (fresh uri))
              else with_method (with_headers conn (fresh uri)) (method_of method)).0
            ≡ (if announced then mhd_no else ret_of (method_of method)))
          × ((if announced
                then (mhd_no, with_headers conn (fresh uri))
                else with_method
                    (with_headers conn (fresh uri))
                    (method_of method)).1.content_length
              ≡ length_of (conn.header (text "Content-Length")))
      verdict = with_method-ret (announced) (with_headers conn (fresh uri)) (method_of method)
