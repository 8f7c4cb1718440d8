-- ===== src/Start/Exchanges.antt =====
-- An HTTP exchange from end to end: the request's calls, the node that is found and its handler.
use webstore.Base.{ℕ, ◌≤◌, ◌≡◌, refl, false, some, List, ◌++◌, arith, ◌==◌, length, ap, ◌∙◌}
use webstore.Base.Bytes.{Bytes, text, c_str, bytes_eq}
use webstore.Redis.{Redis}
use webstore.Server.{Srci, State, M, Server, WsRt, Outcome, done, exits, hangs, Returns}
use webstore.Searest.{Sri}
use webstore.Searest.Nodes.{searest_node_find, update_at, searest_node_set_access}
use webstore.Searest.Upload.{Connection, flatten, length_of, with_headers, fresh, method_of}
use webstore.Searest.Headers.{start_request-accepts, started_ri}
use webstore.Searest.Request.{after_cb, Called, Response, response_of, final_code, answer_processed}
use webstore.Searest.Exchange.{exchange, exchange-processes}
use webstore.Start.Routes.{Finds}
use webstore.Start.{callback}
use webstore.Start.Service.{process-Finds}

-- the response that was queued
abbrev pub Answers : {R : Redis} → Called R → ℕ → Bytes → Type 0
Answers c code body =
    (resp : Response) × (c.response ≡ some resp) × (resp.code ≡ code) × (resp.body ≡ body)

-- what an access leaves of the instance
abbrev pub touched : {R : Redis} → ℕ → ℕ → Sri R → Sri R
touched now i ws = record ws { nodelist = update_at i (searest_node_set_access now) ws.nodelist }

-- the record that is answered from
abbrev sent_ri : {R : Redis} → Bytes × State R → Srci
sent_ri r = record r.1.ri { return_code = final_code r.1.ri.return_code; return_page = some r.0 }

-- the result of the last call, from what the handler leaves
abbrev pub Sent : {R : Redis} → ℕ → ℕ → Sri R → (Bytes × State R → Type 0) → Called R → Type 0
Sent {R} now i ws P c =
    (r : Bytes × State R) × P r
    × (c.response ≡ some (response_of (sent_ri r) r.0))
    × (c.srv ≡ r.1.srv)
    × (c.ws ≡ touched now i ws)

answer-callback :
    {R : Redis} (now i : ℕ) (queue : Response → ℕ) (ws : Sri R) (rt : WsRt) (s : State R)
    (f : Bytes → ℕ → WsRt → M R Bytes) (rest : Bytes) (P : Bytes × State R → Type 0)
    → Returns (f rest (length rest) rt s) P
    → Returns
        (answer_processed queue (after_cb now i ws (callback f rest (length rest) rt s)))
        (Sent now i ws P)
unfolding answer_processed after_cb
answer-callback {R} now i queue ws rt s f rest P h = go (f rest (length rest) rt s) h
  where
    go :
        (o : Outcome (Bytes × State R))
        → Returns o P
        → Returns
            (answer_processed queue (
              after_cb now i ws (elim o [
                | done (page, s') ↦ done (some page, s')
                | exits n ↦ exits n
                | hangs ↦ hangs
              ])))
            (Sent now i ws P)
    go (done r) k = (r, k, refl, refl, refl)
    go (exits n) k = k
    go hangs k = k

-- the record and the state that the handler is called with
abbrev pub called_with : {R : Redis} → Connection → Bytes → ℕ → List Bytes → Server R → State R
called_with conn url m pieces srv = record {
  ri = record (started_ri conn url m) { post_data = flatten pieces };
  srv = srv;
}

-- the outcome of a whole exchange that finds a node, from that of the node's handler
pub exchange-Finds :
    {R : Redis} (now : ℕ) (queue : Response → ℕ) (conn : Connection) (ws : Sri R) (rt : WsRt)
    (f : Bytes → ℕ → WsRt → M R Bytes) (root rest method : Bytes) (m : ℕ) (pieces : List Bytes)
    (srv : Server R) (P : Bytes × State R → Type 0)
    → Finds (searest_node_find (root ++ rest) ws.nodelist) (callback f) (length root)
    → ws.min_url_len ≤ length (root ++ rest)
    → length (root ++ rest) ≤ ws.max_url_len
    → 3 ≤ length method
    → length method ≤ 7
    → method_of method ≡ some m
    → length_of (conn.header (text "Content-Length")) ≡ length (flatten pieces)
    → length (flatten pieces) ≤ ws.max_content_length
    → Returns (f rest (length rest) rt (called_with conn (root ++ rest) m pieces srv)) P
    → (i : ℕ) × Returns
        (exchange now queue conn ws rt (root ++ rest) method pieces srv)
        (Sent now i ws P)
unfolding with_headers fresh
exchange-Finds now queue conn ws rt f root rest method m pieces srv P found long short m3 m7 known
      announced fits h =
    let (i, e) =
      process-Finds now ws rt (called_with conn (root ++ rest) m pieces srv) root rest (callback f)
        found refl refl in
    (
      i,
      rw
          (exchange-processes now queue conn ws rt (root ++ rest) method pieces srv
              (started_ri conn (root ++ rest) m)
              (start_request-accepts ws conn (root ++ rest) method m long short m3 m7 known
                (omega arith))
              announced
            ∙ ap (answer_processed queue) e)
          (answer-callback now i queue ws rt (called_with conn (root ++ rest) m pieces srv) f rest P
            h),
    )

pub ok_text : c_str (text "ok") ≡ text "ok"
unfolding c_str text
ok_text = refl

pub get_method : (method_of (text "GET") ≡ some 1) × (length (text "GET") ≡ 3)
unfolding method_of text bytes_eq
get_method = (refl, refl)

pub post_method : (method_of (text "POST") ≡ some 2) × (length (text "POST") ≡ 4)
unfolding method_of text bytes_eq
post_method = (refl, refl)

-- what a response says, from what the handler left
pub answers :
    {R : Redis} (now i : ℕ) (ws : Sri R) (c : Called R) (P : Bytes × State R → Type 0) (code : ℕ)
    (page body : Bytes)
    → (sent : Sent now i ws P c) → sent.0.0 ≡ page
    → sent.0.1.ri.return_code ≡ code
    → (code == 0) ≡ false
    → c_str page ≡ body
    → Answers c code body
unfolding response_of final_code
answers now i ws c P code page body (r, p, e, f, g) same_page same_code real cut =
    (response_of (sent_ri r) r.0, e, ap final_code same_code ∙ rw real, ap c_str same_page ∙ cut)
