-- ===== src/Node/Promise.antt =====
-- The store that the storage nodes of src/webstore_node.c promise: a table of texts by key, with reads
-- that burn and writes that may be refused; and the nodes serving requests one after another.
use webstore.Base.{ℕ, Bool, ◌&&◌, Option, none, some, List, [], ◌∷◌, ◌==◌, if◌then◌else◌}
use webstore.Base.Bytes.{Bytes, bytes_eq, text}
use webstore.Redis.{Redis, is_some}
use webstore.Server.{WsRt, Srci, M, done, ◌>>=◌, pure}
use webstore.Node.{WsReq, node, method_get, method_post}
use webstore.Node.Post.{accepts, rejection, key_of}
use webstore.Node.Get.{asks}
use webstore.Node.Session.{next}

-- what is stored under each key
abbrev pub Table : Type 0
Table = Bytes → Option Bytes

-- a request at a storage node: the node, the token in the URL and the request's record
pub record Ask : Type 0 where
  pub req : WsReq
  pub ri : Srci

-- a page with its code
abbrev pub Response : Type 0
Response = Bytes × ℕ

abbrev pub put : Bytes → Bytes → Table → Table
put key v t k = if bytes_eq key k then some v else t k

abbrev pub erase : Bool → Bytes → Table → Table
erase bar key t k = if bar && bytes_eq key k then none else t k

-- The store: a read answers with the text, and with `bar` takes it away; a write is refused with
-- `immutable` if the key is taken.
unfoldable pub promise_read : Bool → Bytes → Table → Response × Table
promise_read bar key t = elim (t key) [
  | none ↦ ((text "not found", 404), erase bar key t)
  | some v ↦ ((v, 200), erase bar key t)
]

unfoldable pub promise_write : Bool → Bytes → Bytes → Table → Response × Table
promise_write immutable key v t =
    if immutable && is_some (t key)
    then ((text "object immutable - not modified", 304), t)
    else ((text "ok", 200), put key v t)

unfoldable pub promise : Bool → Bool → Ask → Table → Response × Table
unfolding promise_read promise_write
promise immutable bar a t =
    if a.ri.method_type == method_get
    then if asks a.req
      then promise_read bar (key_of a.req) t
      else ((text "malformed request", 400), t)
    else if a.ri.method_type == method_post
    then if accepts a.req a.ri.post_data
      then promise_write immutable (key_of a.req) a.ri.post_data t
      else ((rejection a.req a.ri.post_data, 400), t)
    else ((text "method not allowed", 405), t)

unfoldable pub promise_all : Bool → Bool → List Ask → Table → List Response × Table
unfolding promise
promise_all immutable bar [] t = ([], t)
promise_all immutable bar (a ∷ more) t =
    let first = promise immutable bar a t in
    let rest = promise_all immutable bar more first.1 in (first.0 ∷ rest.0, rest.1)

-- the server, one request after another
unfoldable pub serve : {R : Redis} → WsRt → Ask → M R Response
serve rt a s =
    (node a.req.type a.req.hashlen a.req.url a.req.urllen rt >>= λ page t.
    done ((page, t.ri.return_code), t))
      (next a.ri s)

unfoldable pub serve_all : {R : Redis} → WsRt → List Ask → M R (List Response)
unfolding serve
serve_all rt [] = pure []
serve_all rt (a ∷ more) = do first ← serve rt a; rest ← serve_all rt more; pure (first ∷ rest)
