-- ===== src/Searest/Blocks.antt =====
-- The memory of one request (src/searest.c): the record that *con_cls points to and the strings that
-- it points to, from uhd_request_started to uhd_request_completed. Searest/Request has the same calls
-- with the strings in the record.
pub mod Owns
pub mod Renew
pub mod Assign
pub mod Completed
pub mod Start
pub mod Gather
pub mod Request
pub mod Scratch
use webstore.Base.{
  ℕ, ◌+◌, ◌≡◌, Bool, true, false, Option, none, some, List, [], ◌∷◌, ◌++◌, ltb, ◌==◌, if◌then◌else◌,
  length,
}
use webstore.Base.Bytes.{Bytes, text}
use webstore.Redis.{Redis}
use webstore.Searest.{Sri}
use webstore.Searest.Upload.{Connection, mhd_yes, mhd_no, method_of, length_of}
use webstore.Memory.{Ptr, null, Cmd, fault, give, ◌>>=◌, ◌>>◌, alloc, load, store, free}

-- the pointers of srci_t
pub data Field : Type 0 where
  ip url accept auth post_data content_type allow return_page : Field

unfoldable pub code : Field → ℕ
code ip = 0
code url = 1
code accept = 2
code auth = 3
code post_data = 4
code content_type = 5
code allow = 6
code return_page = 7

-- srci_t, with what each pointer points to, and the numbers that its calls use
pub record ReqCell : Type 0 where
  pub ptr : Field → Ptr
  pub method_type : ℕ
  pub content_length : ℕ
  pub post_data_len : ℕ

pub data ReqBlock : Type 0 where
  req : ReqCell → ReqBlock
  chars : Bytes → ReqBlock

as_req : ReqBlock → Cmd ReqBlock ReqCell
as_req (req c) = give c
as_req (chars s) = λ h. fault

as_chars : ReqBlock → Cmd ReqBlock Bytes
as_chars (chars s) = give s
as_chars (req c) = λ h. fault

unfoldable pub load_req : Ptr → Cmd ReqBlock ReqCell
unfolding as_req
load_req p = do b ← load p; as_req b

unfoldable pub load_chars : Ptr → Cmd ReqBlock Bytes
unfolding as_chars
load_chars p = do b ← load p; as_chars b

unfoldable pub set_ptr : (Field → Ptr) → Field → Ptr → Field → Ptr
unfolding code
set_ptr ptr f q g = if code f == code g then q else ptr g

-- ri->f = q
unfoldable pub assign : Field → Ptr → Ptr → Cmd ReqBlock (Unit {0})
unfolding set_ptr
assign f q ri = do c ← load_req ri; store ri (req (record c { ptr = set_ptr c.ptr f q }))

-- ri->f = strdup(s), and nothing for a header that is not there
unfoldable pub dup : Field → Option Bytes → Ptr → Cmd ReqBlock (Unit {0})
unfolding assign
dup f none ri = give tt
dup f (some s) ri = do q ← alloc (chars s); assign f q ri

-- the method, or MHD_NO for one that is not known
unfoldable pub set_method : Option ℕ → Ptr → Cmd ReqBlock ℕ
set_method none ri = give mhd_no
set_method (some m) ri = do
  c ← load_req ri
  store ri (req (record c { method_type = m }))
  give mhd_yes

unfoldable pub announce : {R : Redis} → Sri R → Option Bytes → Bytes → Ptr → Cmd ReqBlock ℕ
unfolding set_method
announce ws none method ri = set_method (method_of method) ri
announce ws (some header) method ri = do
  c ← load_req ri
  store ri (req (record c { content_length = length_of (some header) }))
  if ltb ws.max_content_length (length_of (some header))
      then give mhd_no
      else set_method (method_of method) ri

-- the client's address and the headers
unfoldable pub headers_into : {R : Redis} → Sri R → Connection → Bytes → Ptr → Cmd ReqBlock ℕ
unfolding dup announce
headers_into ws conn method ri = do
  dup ip conn.client_ip ri
  dup accept (conn.header (text "Accept")) ri
  dup auth (conn.header (text "Authorization")) ri
  announce ws (conn.header (text "Content-Length")) method ri

-- the call with the headers, after calloc
unfoldable pub start_into : {R : Redis} → Sri R → Connection → Bytes → Bytes → Ptr → Cmd ReqBlock ℕ
unfolding dup headers_into
start_into ws conn uri method ri = do
  dup url (some uri) ri
  if ltb (length uri) ws.min_url_len
      then give mhd_no
      else if ltb ws.max_url_len (length uri)
      then give mhd_no
      else if ltb (length method) 3
      then give mhd_no
      else if ltb 7 (length method)
      then give mhd_no
      else headers_into ws conn method ri

abbrev pub blank : ReqCell
blank = record { ptr = λ f. null; method_type = 0; content_length = 0; post_data_len = 0 }

-- the content of a buffer, which is NULL before the first piece
unfoldable pub old_chars : Ptr → Cmd ReqBlock Bytes
old_chars p = if p == null then give [] else load_chars p

-- A call with a piece of the upload. realloc makes a new block and frees the old one.
unfoldable pub gather_into : Bytes → Ptr → Cmd ReqBlock ℕ
unfolding assign old_chars
gather_into upload_data ri = do
  c ← load_req ri
  if ltb c.content_length (c.post_data_len + length upload_data) then give mhd_no else do
    old ← old_chars (c.ptr post_data)
    new ← alloc (chars (old ++ upload_data))
    free (c.ptr post_data)
    assign post_data new ri
    c' ← load_req ri
    store ri (req (record c' { post_data_len = c'.post_data_len + length upload_data }))
    give mhd_yes

unfoldable pub gather_pieces : List Bytes → Ptr → Cmd ReqBlock ℕ
unfolding gather_into
gather_pieces [] ri = give mhd_yes
gather_pieces (piece ∷ more) ri = do
  ret ← gather_into piece ri
  if ret == mhd_no then give mhd_no else gather_pieces more ri

-- The call with no data: `handler` is the node's callback, `queued` what MHD_queue_response says.
unfoldable pub answer_from : ℕ → Cmd ReqBlock Ptr → Ptr → Cmd ReqBlock ℕ
unfolding assign
answer_from queued handler ri = do
  c ← load_req ri
  if ltb c.post_data_len c.content_length then give mhd_no else do
    page ← handler
    assign return_page page ri
    give (if page == null then mhd_no else queued)

-- if(ri->f) { free(ri->f); }, field by field
unfoldable pub free_fields : List Field → Ptr → Cmd ReqBlock (Unit {0})
free_fields [] ri = give tt
free_fields (f ∷ fs) ri = do c ← load_req ri; free (c.ptr f); free_fields fs ri

abbrev pub fields : List Field
fields = ip ∷ url ∷ accept ∷ auth ∷ post_data ∷ content_type ∷ allow ∷ return_page ∷ []

-- uhd_request_completed on a request that has its record
unfoldable pub completed : Ptr → Cmd ReqBlock (Unit {0})
unfolding free_fields
completed ri = free_fields fields ri >> free ri

-- the calls between the first and the last, as long as none says MHD_NO
unfoldable pub calls_on :
    {R : Redis}
    → Sri R
    → Connection
    → Bytes
    → Bytes
    → List Bytes
    → ℕ
    → Cmd ReqBlock Ptr
    → Ptr
    → Cmd ReqBlock ℕ
unfolding start_into gather_pieces answer_from
calls_on ws conn uri method pieces queued handler ri = do
  ret ← start_into ws conn uri method ri
  if ret == mhd_no then give mhd_no else do
    ret' ← gather_pieces pieces ri
    if ret' == mhd_no then give mhd_no else answer_from queued handler ri

-- a request from its first call to uhd_request_completed
unfoldable pub request :
    {R : Redis}
    → Sri R
    → Connection
    → Bytes
    → Bytes
    → List Bytes
    → ℕ
    → Cmd ReqBlock Ptr
    → Cmd ReqBlock ℕ
unfolding calls_on completed
request ws conn uri method pieces queued handler = do
  ri ← alloc (req blank)
  ret ← calls_on ws conn uri method pieces queued handler ri
  completed ri
  give ret
