-- ===== src/Searest/Upload.antt =====
-- The request's record and the gathering of its upload (src/searest.c, uhd_request_started up to
-- process_request). libmicrohttpd calls with the headers first, then with each piece of the upload.
use webstore.Base.{
  ℕ, ◌+◌, ◌≤◌, ◌<◌, ◌≡◌, refl, true, false, Option, none, some, List, [], ◌∷◌, ◌++◌, append_assoc,
  append-nil, arith, ltb, leb, ◌==◌, if◌then◌else◌, length, length-append, Bool-cases, inl, inr,
  ◌∙◌, leb→le,
}
use webstore.Base.Int.{to_unsigned}
use webstore.Base.Bytes.{Bytes, bytes_eq, text}
use webstore.Base.Decimal.{atol}
use webstore.Redis.{Redis}
use webstore.Server.{Srci}
use webstore.Searest.{Sri}

-- what libmicrohttpd knows of a connection: the client's address as text, and the headers
pub record Connection : Type 0 where
  pub client_ip : Option Bytes
  pub header : Bytes → Option Bytes

-- MHD_YES and MHD_NO
abbrev pub mhd_yes : ℕ
mhd_yes = 1

abbrev pub mhd_no : ℕ
mhd_no = 0

-- The methods that the server knows, as METHOD_GET to METHOD_OPT.
unfoldable pub method_of : Bytes → Option ℕ
method_of method =
    if bytes_eq method (text "GET")
    then some 1
    else if bytes_eq method (text "POST")
    then some 2
    else if bytes_eq method (text "PUT")
    then some 3
    else if bytes_eq method (text "DELETE")
    then some 4
    else if bytes_eq method (text "OPTIONS")
    then some 5
    else none

-- calloc(1, sizeof(srci_t)), with the URL
unfoldable pub fresh : Bytes → Srci
fresh url = record {
  ip = none;
  method_type = 0;
  url = url;
  urllen = length url;
  accept = none;
  auth = none;
  content_length = 0;
  post_data = [];
  content_type = none;
  allow = none;
  cors = false;
  return_code = 0;
  return_page = none;
}

-- (size_t)atol(content_length_header), 0 without the header
unfoldable pub length_of : Option Bytes → ℕ
length_of none = 0
length_of (some header) = to_unsigned 64 (atol header)

unfoldable pub with_method : Srci → Option ℕ → ℕ × Srci
with_method ri none = (mhd_no, ri)
with_method ri (some m) = (mhd_yes, record ri { method_type = m })

-- the record with the client's address and the three headers
unfoldable pub with_headers : Connection → Srci → Srci
unfolding length_of
with_headers conn ri = record ri {
  ip = conn.client_ip;
  accept = conn.header (text "Accept");
  auth = conn.header (text "Authorization");
  content_length = length_of (conn.header (text "Content-Length"));
}

-- The call with the headers: the verdict, and the record that *con_cls points to from then on.
unfoldable pub start_request : {R : Redis} → Sri R → Connection → Bytes → Bytes → ℕ × Srci
unfolding fresh with_headers with_method
start_request ws conn url method =
    let ri = with_headers conn (fresh url) in
    if ltb (length url) ws.min_url_len
    then (mhd_no, fresh url)
    else if ltb ws.max_url_len (length url)
    then (mhd_no, fresh url)
    else if ltb (length method) 3
    then (mhd_no, fresh url)
    else if ltb 7 (length method)
    then (mhd_no, fresh url)
    else if ltb ws.max_content_length ri.content_length
    then (mhd_no, ri)
    else with_method ri (method_of method)

-- A call with a piece of the upload: it is added to the buffer, if it fits the announced length.
unfoldable pub gather : Bytes → Srci → ℕ × Srci
gather upload_data ri =
    let newbufsize = length ri.post_data + length upload_data in
    if ltb ri.content_length newbufsize
    then (mhd_no, ri)
    else (mhd_yes, record ri { post_data = ri.post_data ++ upload_data })

pub lt_of_leb : (a b : ℕ) → leb a b ≡ false → b < a
lt_of_leb a b h = ground arith

-- All the pieces of an upload in turn, until one is refused.
unfoldable pub gather_all : List Bytes → Srci → ℕ × Srci
gather_all [] ri = (mhd_yes, ri)
gather_all (piece ∷ more) ri =
    let (ret, ri') = gather piece ri in
    let rest = gather_all more ri' in if ret == mhd_no then (mhd_no, ri') else rest

abbrev pub flatten : List Bytes → Bytes
flatten [] = []
flatten (piece ∷ more) = piece ++ flatten more

abbrev gathered : Bytes → Srci → Srci
gathered piece ri = record ri { post_data = ri.post_data ++ piece }

pub gather-fits :
    (piece : Bytes) (ri : Srci)
    → length ri.post_data + length piece ≤ ri.content_length
    → gather piece ri ≡ (mhd_yes, gathered piece ri)
unfolding gather
gather-fits piece ri h = rw room
  where
    room : ltb ri.content_length (length ri.post_data + length piece) ≡ false
    room = ground arith

pub gather-overflows :
    (piece : Bytes) (ri : Srci)
    → ri.content_length < length ri.post_data + length piece
    → gather piece ri ≡ (mhd_no, ri)
unfolding gather
gather-overflows piece ri h = rw full
  where
    full : ltb ri.content_length (length ri.post_data + length piece) ≡ true
    full = ground arith

-- An upload whose pieces together fit the announced length is gathered whole and in order, however
-- it is cut; nothing else of the record changes.
pub gather_all-fits :
    (pieces : List Bytes) (ri : Srci)
    → length ri.post_data + length (flatten pieces) ≤ ri.content_length
    → gather_all pieces ri ≡ (mhd_yes, record ri { post_data = ri.post_data ++ flatten pieces })
unfolding gather_all
gather_all-fits [] ri h = rw append-nil
gather_all-fits (piece ∷ more) ri h =
    rw (gather-fits piece ri (omega (arith, length-append {0} piece (flatten more)))) (
      gather_all-fits more (gathered piece ri) (
        omega (arith, length-append {0} piece (flatten more), length-append {0} ri.post_data piece))
      ∙ rw (append_assoc ri.post_data piece (flatten more)))

-- An upload whose pieces do not fit the announced length is refused at some piece, and what was
-- gathered until then fits it.
pub gather_all-overflows :
    (pieces : List Bytes) (ri : Srci)
    → length ri.post_data ≤ ri.content_length
    → ri.content_length < length ri.post_data + length (flatten pieces)
    → ((gather_all pieces ri).0 ≡ mhd_no)
      × (length (gather_all pieces ri).1.post_data ≤ ri.content_length)
unfolding gather_all
gather_all-overflows [] ri h over = absurd (omega arith)
gather_all-overflows (piece ∷ more) ri h over =
    elim (Bool-cases (leb (length ri.post_data + length piece) ri.content_length)) [
      | inl room ↦ rw (gather-fits piece ri (leb→le _ _ room)) (
          gather_all-overflows more (gathered piece ri)
            (omega (arith, leb→le _ _ room, length-append {0} ri.post_data piece))
            (omega (
              arith,
              length-append {0} piece (flatten more),
              length-append {0} ri.post_data piece,
              over,
            )))
      | inr full ↦ rw (gather-overflows piece ri (lt_of_leb _ _ full)) (refl, h)
    ]
