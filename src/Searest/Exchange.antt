-- ===== src/Searest/Exchange.antt =====
-- The calls of one request in their order: the record between calls, and the whole exchange.
use webstore.Base.{
  ℕ, ◌+◌, ◌≤◌, ◌≡◌, false, none, some, List, [], ◌++◌, arith, ltb, ◌==◌, if◌then◌else◌, length,
  length-append, Bool-cases, inl, inr, ap, ◌∙◌, sym, subst, leb, leb→le,
}
use webstore.Base.Bytes.{Bytes}
use webstore.Redis.{Redis}
use webstore.Server.{Srci, Server, WsRt, Outcome}
use webstore.Searest.{Sri}
use webstore.Searest.Upload.{
  Connection, start_request, gather, gather_all, gather_all-fits, gather-fits, gather-overflows,
  lt_of_leb, flatten, mhd_yes, mhd_no, method_of,
}
use webstore.Searest.Headers.{IsStarted, start_request-IsStarted}
use webstore.Searest.Request.{
  Called, Response, uhd_request_started, process_request, answer_processed, quiet,
}

-- The records that *con_cls can point to while a request is going on: libmicrohttpd makes another
-- call only after MHD_YES.
pub data Ongoing {R : Redis} (ws : Sri R) (conn : Connection) (url method : Bytes)
    : Srci → Type 0 where
  started :
      {ri : Srci} → start_request ws conn url method ≡ (mhd_yes, ri) → Ongoing ws conn url method ri
  piece :
      {ri ri' : Srci} (upload_data : Bytes)
      → Ongoing ws conn url method ri
      → gather upload_data ri ≡ (mhd_yes, ri')
      → Ongoing ws conn url method ri'

-- Between calls the buffer fits the announced length, which fits the instance's limit; the URL is
-- within the bounds, and the method is a known one.
pub record IsOngoing {R : Redis} (ws : Sri R) (url method : Bytes) (ri : Srci) : Type 0 where
  pub url_eq : ri.url ≡ url
  pub urllen_eq : ri.urllen ≡ length url
  pub long_enough : ws.min_url_len ≤ ri.urllen
  pub short_enough : ri.urllen ≤ ws.max_url_len
  pub buffer_fits : length ri.post_data ≤ ri.content_length
  pub length_bound : ri.content_length ≤ ws.max_content_length
  pub method_known : method_of method ≡ some ri.method_type

first_call :
    {R : Redis} (ws : Sri R) (url method : Bytes) (x : ℕ × Srci) (ri : Srci)
    → (x.0 ≡ mhd_yes → IsStarted ws url method x.1)
    → x ≡ (mhd_yes, ri)
    → IsOngoing ws url method ri
first_call ws url method x ri good e =
    let s = subst_started (good (ap (λ (z : ℕ × Srci). z.0) e)) in
    record {
      url_eq = s.url_eq;
      urllen_eq = s.urllen_eq;
      long_enough = s.long_enough;
      short_enough = s.short_enough;
      buffer_fits = omega (arith, ap length s.nothing_yet);
      length_bound = s.length_bound;
      method_known = s.method_known;
    }
  where
    subst_started : IsStarted ws url method x.1 → IsStarted ws url method ri
    subst_started = subst (IsStarted ws url method) (ap (λ (z : ℕ × Srci). z.1) e)

gather-IsOngoing :
    {R : Redis} (ws : Sri R) (url method d : Bytes) (ri ri' : Srci)
    → IsOngoing ws url method ri
    → gather d ri ≡ (mhd_yes, ri')
    → IsOngoing ws url method ri'
gather-IsOngoing ws url method d ri ri' v e =
    elim (Bool-cases (leb (length ri.post_data + length d) ri.content_length)) [
      | inl room ↦
          subst (IsOngoing ws url method)
            (ap (λ (z : ℕ × Srci). z.1) (sym (gather-fits d ri (leb→le _ _ room)) ∙ e))
            (record {
              url_eq = v.url_eq;
              urllen_eq = v.urllen_eq;
              long_enough = v.long_enough;
              short_enough = v.short_enough;
              buffer_fits = omega (arith, leb→le _ _ room, length-append {0} ri.post_data d);
              length_bound = v.length_bound;
              method_known = v.method_known;
            })
      | inr full ↦ absurd (
          impossible
            (ap (λ (z : ℕ × Srci). z.0) (sym (gather-overflows d ri (lt_of_leb _ _ full)) ∙ e)))
    ]
  where
    impossible : ◌≡◌ {A = ℕ} 0 1 → ⊥
    impossible h = omega arith

-- After the headers of a request were let through, and after any pieces that were, the buffer fits
-- the announced length, which fits the instance's limit, the URL is the request's and within the
-- bounds, and the method is a known one.
pub Ongoing-IsOngoing :
    {R : Redis} (ws : Sri R) (conn : Connection) (url method : Bytes) {ri : Srci}
    → Ongoing ws conn url method ri
    → IsOngoing ws url method ri
Ongoing-IsOngoing ws conn url method (started {ri = ri} e) =
    first_call ws url method (start_request ws conn url method) ri
      (start_request-IsStarted ws conn url method) e
Ongoing-IsOngoing ws conn url method (piece {ri = ri} {ri' = ri'} d o e) =
    gather-IsOngoing ws url method d ri ri' (Ongoing-IsOngoing ws conn url method o) e

-- The call with no data, for a request whose buffer has the announced length and no more: the request
-- is processed and answered.
last_call_complete :
    {R : Redis} (now : ℕ) (queue : Response → ℕ) (conn : Connection) (ws : Sri R) (rt : WsRt)
    (url method : Bytes) (ri : Srci) (srv : Server R)
    → length ri.post_data ≡ ri.content_length
    → uhd_request_started now queue conn ws rt url method [] (some ri) srv
      ≡ answer_processed queue (process_request now ws rt (record { ri = ri; srv = srv }))
unfolding uhd_request_started
last_call_complete now queue conn ws rt url method ri srv e = rw whole
  where
    whole : ltb (length ri.post_data) ri.content_length ≡ false
    whole = ground arith

-- The calls of one request: the headers, every piece of the upload, and the last call; it ends early
-- when a call says MHD_NO.
pub exchange :
    {R : Redis}
    → ℕ
    → (Response → ℕ)
    → Connection
    → Sri R
    → WsRt
    → Bytes
    → Bytes
    → List Bytes
    → Server R
    → Outcome (Called R)
exchange now queue conn ws rt url method pieces srv =
    let (ret, ri) = start_request ws conn url method in
    let (ret', ri') = gather_all pieces ri in
    if ret == mhd_no
    then uhd_request_started now queue conn ws rt url method [] none srv
    else if ret' == mhd_no
    then quiet ws srv (ret', ri')
    else uhd_request_started now queue conn ws rt url method [] (some ri') srv

-- A request whose headers are let through, with an upload of the announced length in any pieces, is
-- processed and answered with exactly that upload in its buffer.
pub exchange-processes :
    {R : Redis} (now : ℕ) (queue : Response → ℕ) (conn : Connection) (ws : Sri R) (rt : WsRt)
    (url method : Bytes) (pieces : List Bytes) (srv : Server R) (ri : Srci)
    → start_request ws conn url method ≡ (mhd_yes, ri)
    → ri.content_length ≡ length (flatten pieces)
    → exchange now queue conn ws rt url method pieces srv
      ≡ answer_processed queue (
          process_request now ws rt
            (record { ri = record ri { post_data = flatten pieces }; srv = srv }))
unfolding exchange
exchange-processes now queue conn ws rt url method pieces srv ri e fits =
    rw (e, all_gathered)
      (last_call_complete now queue conn ws rt url method (record ri { post_data = flatten pieces })
        srv (sym fits))
  where
    good : IsStarted ws url method (start_request ws conn url method).1
    good = start_request-IsStarted ws conn url method (ap (λ (z : ℕ × Srci). z.0) e)

    nothing : ri.post_data ≡ []
    nothing = subst (λ (x : Srci). x.post_data ≡ []) (ap (λ (z : ℕ × Srci). z.1) e) good.nothing_yet

    all_gathered : gather_all pieces ri ≡ (mhd_yes, record ri { post_data = flatten pieces })
    all_gathered =
        gather_all-fits pieces ri (omega (arith, ap length nothing, fits))
        ∙ ap (λ (d : Bytes). (mhd_yes, record ri { post_data = d ++ flatten pieces })) nothing
