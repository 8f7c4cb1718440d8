-- ===== src/Searest/Headers.antt =====
-- The first call of a request, with its headers (src/searest.c, uhd_request_started).
use webstore.Base.{
  ℕ, ◌≤◌, ◌≡◌, refl, Bool, true, false, Option, none, some, [], arith, ltb, if◌then◌else◌, length,
}
use webstore.Base.Bytes.{Bytes, text}
use webstore.Redis.{Redis}
use webstore.Server.{Srci}
use webstore.Searest.{Sri}
use webstore.Searest.Upload.{
  Connection, fresh, length_of, method_of, mhd_no, mhd_yes, start_request, with_headers,
  with_method,
}

-- What the record of an accepted request has: a URL within the instance's bounds, an announced length
-- within its limit, a known method, and an empty buffer.
pub record IsStarted {R : Redis} (ws : Sri R) (url method : Bytes) (ri : Srci) : Type 0 where
  pub url_eq : ri.url ≡ url
  pub urllen_eq : ri.urllen ≡ length url
  pub long_enough : ws.min_url_len ≤ ri.urllen
  pub short_enough : ri.urllen ≤ ws.max_url_len
  pub length_bound : ri.content_length ≤ ws.max_content_length
  pub method_known : method_of method ≡ some ri.method_type
  pub nothing_yet : ri.post_data ≡ []
  pub no_code : ri.return_code ≡ 0

with_method-yes :
    {R : Redis} (ws : Sri R) (url method : Bytes) (ri : Srci) (o : Option ℕ)
    → method_of method ≡ o
    → (with_method ri o).0 ≡ mhd_yes
    → ri.url ≡ url
    → ri.urllen ≡ length url
    → ws.min_url_len ≤ ri.urllen
    → ri.urllen ≤ ws.max_url_len
    → ri.content_length ≤ ws.max_content_length
    → ri.post_data ≡ []
    → ri.return_code ≡ 0
    → IsStarted ws url method (with_method ri o).1
unfolding with_method
with_method-yes ws url method ri none e yes' a b c d f g h = absurd (omega arith)
with_method-yes ws url method ri (some m) e yes' a b c d f g h = record {
  url_eq = a;
  urllen_eq = b;
  long_enough = c;
  short_enough = d;
  length_bound = f;
  method_known = e;
  nothing_yet = g;
  no_code = h;
}

not_ltb : (a b : ℕ) → ltb a b ≡ false → b ≤ a
not_ltb a b h = ground arith

-- a guard that lets a request through
passed :
    (P : ℕ × Srci → Type 0) (b : Bool) (ri : Srci) (x : ℕ × Srci)
    → (b ≡ false → x.0 ≡ mhd_yes → P x)
    → (if b then (mhd_no, ri) else x).0 ≡ mhd_yes
    → P (if b then (mhd_no, ri) else x)
passed P true ri x f h = absurd (omega arith)
passed P false ri x f h = f refl h

-- A request that the first call lets through has a URL within the instance's bounds, an announced
-- length within its limit, a known method, an empty buffer, and no return code.
pub start_request-IsStarted :
    {R : Redis} (ws : Sri R) (conn : Connection) (url method : Bytes)
    → (start_request ws conn url method).0 ≡ mhd_yes
    → IsStarted ws url method (start_request ws conn url method).1
unfolding start_request
start_request-IsStarted ws conn url method =
    passed Good (ltb (length url) ws.min_url_len) (fresh url) _ λ above.
      passed Good (ltb ws.max_url_len (length url)) (fresh url) _ λ below.
        passed Good (ltb (length method) 3) (fresh url) _ λ _.
          passed Good (ltb 7 (length method)) (fresh url) _ λ _.
            passed Good (ltb ws.max_content_length ri.content_length) ri _ λ fits ok.
              with_method-yes ws url method ri (method_of method) refl ok refl refl
                (not_ltb _ _ above) (not_ltb _ _ below) (not_ltb _ _ fits) refl refl
  where
    Good : ℕ × Srci → Type 0
    Good z = IsStarted ws url method z.1

    ri : Srci
    ri = with_headers conn (fresh url)

-- The record of a request that is let through.
abbrev pub started_ri : Connection → Bytes → ℕ → Srci
started_ri conn url m = record (with_headers conn (fresh url)) { method_type = m }

ltb_of_le : (a b : ℕ) → a ≤ b → ltb b a ≡ false
ltb_of_le a b h = ground arith

pub start_request-accepts :
    {R : Redis} (ws : Sri R) (conn : Connection) (url method : Bytes) (m : ℕ)
    → ws.min_url_len ≤ length url
    → length url ≤ ws.max_url_len
    → 3 ≤ length method
    → length method ≤ 7
    → method_of method ≡ some m
    → length_of (conn.header (text "Content-Length")) ≤ ws.max_content_length
    → start_request ws conn url method ≡ (mhd_yes, started_ri conn url m)
unfolding start_request
start_request-accepts ws conn url method m a b c d e f =
    rw (ltb_of_le _ _ a, ltb_of_le _ _ b, ltb_of_le _ _ c, ltb_of_le _ _ d, ltb_of_le _ _ f, e)
