-- ===== src/Client/Curl.antt =====
-- The transfers (src/curl_ops.c). libcurl is a parameter: it hands the body over in pieces, and says
-- whether the transfer worked and what the response code was.
use webstore.Base.{
  ℕ, ◌+◌, ◌≡◌, Option, none, some, List, [], ◌∷◌, ◌++◌, append_assoc, append-nil, sym, arith,
  length, length-append, ◌∙◌,
}
use webstore.Base.Bytes.{Bytes}
use webstore.Searest.Upload.{flatten}

-- curlresp_t
pub record CurlResp : Type 0 where
  pub bytecount : ℕ
  pub page : Option Bytes
  pub http_code : ℕ

-- memset(&resp, 0, sizeof(curlresp_t))
abbrev pub no_resp : CurlResp
no_resp = record { bytecount = 0; page = none; http_code = 0 }

abbrev pub page_bytes : Option Bytes → Bytes
page_bytes none = []
page_bytes (some p) = p

-- appends a piece; the page is kept without the NUL behind it
save_response : Bytes → CurlResp → CurlResp
save_response ptr r = record r {
  page = some (page_bytes r.page ++ ptr);
  bytecount = r.bytecount + length ptr;
}

pub save_all : List Bytes → CurlResp → CurlResp
unfolding save_response
save_all [] r = r
save_all (piece ∷ more) r = save_all more (save_response piece r)

-- what curl_easy_init and curl_easy_perform do: no handle, a failure after some pieces, or a response
pub data Transfer : Type 0 where
  no_handle : Transfer
  failed : List Bytes → Transfer
  responded : List Bytes → ℕ → Transfer

-- The end of ws_curl_get and of ws_curl_post: the result, and the response.
unfoldable pub ws_curl : Transfer → CurlResp → ℕ × CurlResp
unfolding save_all
ws_curl no_handle r = (1, r)
ws_curl (failed pieces) r = (2, record (save_all pieces r) { page = none })
ws_curl (responded pieces code) r = (0, record (save_all pieces r) { http_code = code })

-- the request that is made; a GET has no data
pub data HttpRequest : Type 0 where
  http_get : Bytes → HttpRequest
  http_post : Bytes → Bytes → HttpRequest

abbrev pub Network : Type 0
Network = HttpRequest → Transfer

unfoldable pub ws_curl_get : Network → Bytes → CurlResp → ℕ × CurlResp
ws_curl_get net url r = ws_curl (net (http_get url)) r

unfoldable pub ws_curl_post : Network → Bytes → CurlResp → Bytes → ℕ × CurlResp
ws_curl_post net url r post = ws_curl (net (http_post url post)) r

-- After any pieces of a response, the page is the page before with the pieces behind it in order,
-- and the count has grown by their length.
pub save_all-flatten :
    (pieces : List Bytes) (r : CurlResp)
    → (page_bytes (save_all pieces r).page ≡ page_bytes r.page ++ flatten pieces)
      × ((save_all pieces r).bytecount ≡ r.bytecount + length (flatten pieces))
unfolding save_all
save_all-flatten [] r = (sym (append-nil (page_bytes r.page)), omega arith)
save_all-flatten (piece ∷ more) r =
    let (page, count) = save_all-flatten more (save_response piece r) in
    (
      page ∙ (unfold save_response in append_assoc (page_bytes r.page) piece (flatten more)),
      count ∙ (unfold save_response in omega (arith, length-append {0} piece (flatten more))),
    )
