-- ===== src/Searest/Request.antt =====
-- One request from its first call to its answer (src/searest.c, process_request, uhd_request_started
-- and uhd_request_completed).
use webstore.Base.{ℕ, ◌-◌, Bool, Option, none, some, ltb, ◌==◌, if◌then◌else◌, length, drop}
use webstore.Base.Bytes.{Bytes, c_str, text}
use webstore.Redis.{Redis}
use webstore.Server.{Srci, State, Server, WsRt, Outcome, done, exits, hangs}
use webstore.Searest.{Sri, Srn}
use webstore.Searest.Nodes.{
  searest_node_find, update_at, searest_node_len, searest_node_set_access, searest_node_is_disabled,
}
use webstore.Searest.Upload.{Connection, start_request, gather, mhd_no}

-- what is handed to MHD_queue_response
pub record Response : Type 0 where
  pub code : ℕ
  pub body : Bytes
  pub content_type : Option Bytes
  pub allow : Option Bytes
  pub cors : Bool

-- the page, the instance and the state after a request was processed
pub record Processed (R : Redis) : Type 0 where
  pub page : Option Bytes
  pub ws : Sri R
  pub state : State R

refuse : {R : Redis} → Sri R → State R → ℕ → Bytes → Outcome (Processed R)
refuse ws s code page = done (record {
  page = some page;
  ws = ws;
  state = record s { ri = record s.ri { return_code = code; return_page = some page } };
})

-- after the callback: the page is kept in the record, and the access is counted
unfoldable pub after_cb :
    {R : Redis} → ℕ → ℕ → Sri R → Outcome (Option Bytes × State R) → Outcome (Processed R)
unfolding update_at searest_node_set_access
after_cb now i ws (done (page, s)) = done (record {
  page = page;
  ws = record ws { nodelist = update_at i (searest_node_set_access now) ws.nodelist };
  state = record s { ri = record s.ri { return_page = page } };
})
after_cb now i ws (exits n) = exits n
after_cb now i ws hangs = hangs

unfoldable pub on_node :
    {R : Redis} → ℕ → Sri R → WsRt → State R → Option (ℕ × Srn R) → Outcome (Processed R)
unfolding refuse after_cb searest_node_is_disabled searest_node_len
on_node now ws rt s none = refuse ws s 404 (text "node not found")
on_node now ws rt s (some (i, n)) =
    if searest_node_is_disabled n
    then refuse ws s 503 (text "node not enabled")
    else after_cb now i ws
        (n.cb (drop (searest_node_len n) s.ri.url) (s.ri.urllen - searest_node_len n) rt s)

-- `now` is what time(NULL) says at the end, `rt` the instance's user data.
unfoldable pub process_request : {R : Redis} → ℕ → Sri R → WsRt → State R → Outcome (Processed R)
unfolding on_node
process_request now ws rt s = on_node now ws rt s (searest_node_find s.ri.url ws.nodelist)

-- What a call of the handler leaves: its result, *con_cls, the response that was queued.
pub record Called (R : Redis) : Type 0 where
  pub ret : ℕ
  pub con_cls : Option Srci
  pub response : Option Response
  pub ws : Sri R
  pub srv : Server R

pub quiet : {R : Redis} → Sri R → Server R → ℕ × Srci → Outcome (Called R)
quiet ws srv (ret, ri) =
    done (record { ret = ret; con_cls = some ri; response = none; ws = ws; srv = srv })

-- a return code that was never set becomes 200
unfoldable pub final_code : ℕ → ℕ
final_code code = if code == 0 then 200 else code

unfoldable pub response_of : Srci → Bytes → Response
response_of ri page = record {
  code = ri.return_code;
  body = c_str page;
  content_type = ri.content_type;
  allow = ri.allow;
  cors = ri.cors;
}

answered : {R : Redis} → (Response → ℕ) → Processed R → Called R
unfolding response_of final_code
answered queue p = elim p.page [
  | none ↦ record {
    ret = mhd_no;
    con_cls = some p.state.ri;
    response = none;
    ws = p.ws;
    srv = p.state.srv;
  }
  | some page ↦
      let ri : Srci = record p.state.ri { return_code = final_code p.state.ri.return_code } in
      record {
        ret = queue (response_of ri page);
        con_cls = some ri;
        response = some (response_of ri page);
        ws = p.ws;
        srv = p.state.srv;
      }
]

unfoldable pub answer_processed :
    {R : Redis} → (Response → ℕ) → Outcome (Processed R) → Outcome (Called R)
unfolding answered
answer_processed queue (done p) = done (answered queue p)
answer_processed queue (exits n) = exits n
answer_processed queue hangs = hangs

-- a call for a request that has its record
later_call :
    {R : Redis} → ℕ → (Response → ℕ) → Sri R → WsRt → Bytes → Srci → Server R → Outcome (Called R)
unfolding quiet answer_processed process_request gather
later_call now queue ws rt upload_data ri srv =
    if ltb 0 (length upload_data)
    then quiet ws srv (gather upload_data ri)
    else if ltb (length ri.post_data) ri.content_length
    then quiet ws srv (mhd_no, ri)
    else answer_processed queue (process_request now ws rt (record { ri = ri; srv = srv }))

-- The access handler. `queue` is MHD_queue_response on this connection; an absent upload is empty.
unfoldable pub uhd_request_started :
    {R : Redis}
    → ℕ
    → (Response → ℕ)
    → Connection
    → Sri R
    → WsRt
    → Bytes
    → Bytes
    → Bytes
    → Option Srci
    → Server R
    → Outcome (Called R)
unfolding later_call quiet start_request
uhd_request_started now queue conn ws rt url method upload_data none srv =
    quiet ws srv (start_request ws conn url method)
uhd_request_started now queue conn ws rt url method upload_data (some ri) srv =
    later_call now queue ws rt upload_data ri srv

-- frees the record
unfoldable pub uhd_request_completed : Option Srci → Option Srci
uhd_request_completed con_cls = none
