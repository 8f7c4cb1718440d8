-- ===== src/Searest/Blocks/Request.antt =====
-- A whole request in memory, from its first call to uhd_request_completed (src/searest.c).
use webstore.Base.{
  ℕ, ◌≡◌, refl, sym, ◌∙◌, Bool, true, false, Option, none, some, List, arith, ltb, ◌==◌,
  if◌then◌else◌, not, length, Bool-cases, inl, inr,
}
use webstore.Base.Bytes.{Bytes}
use webstore.Redis.{Redis}
use webstore.Server.{Srci}
use webstore.Searest.{Sri}
use webstore.Searest.Upload.{
  Connection, mhd_no, gather_all, start_request, with_headers, with_method, fresh, method_of,
}
use webstore.Memory.{
  Ptr, null, Heap, Cmd, with_new, with_new_same, with_new_other, alloc, alloc-IsHeap, IsHeap, Ends,
  Ends-bind,
}
use webstore.Searest.Blocks.{
  return_page, ReqCell, ReqBlock, req, blank, assign, start_into, gather_pieces, answer_from,
  completed, calls_on, request, fields,
}
use webstore.Searest.Blocks.Owns.{Owns, load_req-ok}
use webstore.Searest.Blocks.Assign.{Brought, assign-Owns}
use webstore.Searest.Blocks.Completed.{completed-restores}
use webstore.Searest.Blocks.Start.{start_into-Early}
use webstore.Searest.Blocks.Gather.{gather_pieces-Stage}

-- A callback that makes a page, or none: it takes no other memory and gives back none.
abbrev pub MakesPage : Bool → Cmd ReqBlock Ptr → Type 0
MakesPage page handler =
    (h : Heap ReqBlock)
    → IsHeap h
    → Ends (handler h) (λ q g. ((q == null) ≡ not page) × Brought h q g)

-- no upload yet
record NoUpload (x : ℕ × Srci) : Type 0 where
  empty : length x.1.post_data ≡ 0

either_empty : (b : Bool) (x y : ℕ × Srci) → NoUpload x → NoUpload y → NoUpload (if b then x else y)
either_empty true x y e e' = e
either_empty false x y e e' = e'

method_empty : (m : Option ℕ) (r : Srci) → length r.post_data ≡ 0 → NoUpload (with_method r m)
unfolding with_method
method_empty none r e = record { empty = e }
method_empty (some m) r e = record { empty = e }

start-NoUpload :
    {R : Redis} (ws : Sri R) (conn : Connection) (uri method : Bytes)
    → NoUpload (start_request ws conn uri method)
unfolding start_request with_headers fresh
start-NoUpload ws conn uri method = either_empty (ltb (length uri) ws.min_url_len) _ _ away (
    either_empty (ltb ws.max_url_len (length uri)) _ _ away (
      either_empty (ltb (length method) 3) _ _ away (
        either_empty (ltb 7 (length method)) _ _ away (
          either_empty (ltb ws.max_content_length (with_headers conn (fresh uri)).content_length)
            (mhd_no, with_headers conn (fresh uri)) _ (record { empty = refl })
            (method_empty (method_of method) (with_headers conn (fresh uri)) refl)))))
  where
    away : NoUpload (mhd_no, fresh uri)
    away = record { empty = refl }

-- the verdict of the last call, on the upload that was gathered
unfoldable pub last_verdict : ℕ → Bool → Srci → ℕ
last_verdict queued page r =
    if ltb (length r.post_data) r.content_length then mhd_no else if page then queued else mhd_no

-- the verdict of the calls together, by the functions of Searest/Upload
unfoldable pub verdict : ℕ → Bool → List Bytes → ℕ × Srci → ℕ
unfolding last_verdict
verdict queued page pieces (ret, r) =
    let (ret', r') = gather_all pieces r in
    let last = last_verdict queued page r' in
    if ret == mhd_no then mhd_no else if ret' == mhd_no then mhd_no else last

flip :
    (page : Bool) (queued : ℕ)
    → (if not page then mhd_no else queued) ≡ (if page then queued else mhd_no)
flip true queued = refl
flip false queued = refl

module _ (h0 : Heap ReqBlock) (ri : Ptr) where
  abbrev Ended : ℕ → ℕ → Heap ReqBlock → Type 0
  Ended ret z g = (z ≡ ret) × ((c : ReqCell) × Owns h0 fields ri c g)

  answer_from-Ended :
      (queued : ℕ) (page : Bool) (handler : Cmd ReqBlock Ptr) (r : Srci) (c : ReqCell)
      (h : Heap ReqBlock)
      → MakesPage page handler
      → Owns h0 fields ri c h
      → c.content_length ≡ r.content_length
      → c.post_data_len ≡ length r.post_data
      → c.ptr return_page ≡ null
      → Ends (answer_from queued handler ri h) (Ended (last_verdict queued page r))
  unfolding answer_from last_verdict
  answer_from-Ended queued page handler r c h makes o l n no_page =
      elim (Bool-cases (ltb c.post_data_len c.content_length)) [
        | inl short ↦ rw (load_req-ok h ri c o.at_ri, sym same ∙ short, short) (refl, (c, o))
        | inr whole ↦
            rw (load_req-ok h ri c o.at_ri, sym same ∙ whole, whole)
              (Ends-bind (handler h) _ _ _ (makes h o.good) (λ q h1 it.
                Ends-bind (assign return_page q ri h1) _ _ _
                  (assign-Owns h0 ri c return_page q h h1 o it.1 no_page)
                  (λ u g o'. (rw it.0 (flip page queued), (_, o')))))
      ]
    where
      same : ltb c.post_data_len c.content_length ≡ ltb (length r.post_data) r.content_length
      same = rw (l, n) refl

  calls_on-Ended :
      {R : Redis} (ws : Sri R) (conn : Connection) (uri method : Bytes) (pieces : List Bytes)
      (queued : ℕ) (page : Bool) (handler : Cmd ReqBlock Ptr) (h : Heap ReqBlock)
      → MakesPage page handler
      → Owns h0 fields ri blank h
      → Ends
          (calls_on ws conn uri method pieces queued handler ri h)
          (Ended (verdict queued page pieces (start_request ws conn uri method)))
  unfolding calls_on verdict
  calls_on-Ended ws conn uri method pieces queued page handler h makes o =
      Ends-bind (start_into ws conn uri method ri h) _ _ _
        (start_into-Early h0 ri ws conn uri method h o)
        (λ z g (c, e, l, n, no_page, o1).
          elim (Bool-cases ((start_request ws conn uri method).0 == mhd_no)) [
            | inl refused ↦ rw (e, refused) (refl, (c, o1))
            | inr go ↦
                rw (e, go)
                  (Ends-bind (gather_pieces pieces ri g) _ _ _
                    (gather_pieces-Stage h0 ri pieces (start_request ws conn uri method).1 c g o1 l
                      (n ∙ sym (start-NoUpload ws conn uri method).empty) no_page)
                    (λ z' g' (c', e', l', n', no_page', o2).
                      elim (Bool-cases
                        ((gather_all pieces (start_request ws conn uri method).1).0 == mhd_no)) [
                          | inl refused ↦ rw (e', refused) (refl, (c', o2))
                          | inr go' ↦
                              rw (e', go')
                                (answer_from-Ended queued page handler
                                  (gather_all pieces (start_request ws conn uri method).1).1 c' g'
                                  makes o2 l' n' no_page')
                        ]))
          ])

-- a record with nothing in it
start-Owns :
    (h0 : Heap ReqBlock) → IsHeap h0 → Owns h0 fields h0.next blank (with_new h0 (req blank))
start-Owns h0 good = record {
  good = alloc-IsHeap h0 (req blank) good;
  ri_null = ground (arith, good.next_pos);
  at_ri = with_new_same h0 (req blank);
  mine = good.fresh h0.next (omega arith);
  held = λ f i e. absurd (ground (arith, e));
  distinct = λ f g i i' e. absurd (ground (arith, e));
  new = λ f i e. absurd (ground (arith, e));
  apart = λ f i e. absurd (ground (arith, e));
  spared = λ a far others. with_new_other h0 a (req blank) far;
}

-- Whatever the URL, the method, the headers and the pieces of the upload are, the calls of a request
-- use no memory that they must not, and give the verdict that start_request, gather and the page
-- give; and after uhd_request_completed memory is as it was before the request: all that it took is
-- freed, each block once, also if it was turned away in between. The callback makes a page in new
-- memory, or none, and leaves the rest as it is.
pub request_frees :
    {R : Redis} (h0 : Heap ReqBlock) (ws : Sri R) (conn : Connection) (uri method : Bytes)
    (pieces : List Bytes) (queued : ℕ) (page : Bool) (handler : Cmd ReqBlock Ptr)
    → IsHeap h0
    → MakesPage page handler
    → Ends (request ws conn uri method pieces queued handler h0) (λ z g.
      (z ≡ verdict queued page pieces (start_request ws conn uri method))
      × ((a : Ptr) → g.at a ≡ h0.at a))
unfolding request alloc
request_frees h0 ws conn uri method pieces queued page handler good makes =
    Ends-bind (calls_on ws conn uri method pieces queued handler h0.next (with_new h0 (req blank)))
      _ _ _
      (calls_on-Ended h0 h0.next ws conn uri method pieces queued page handler _ makes
        (start-Owns h0 good))
      (λ z h it.
        Ends-bind (completed h0.next h) _ _ _ (completed-restores h0 h0.next it.1.0 h it.1.1)
          (λ u g restored. (it.0, restored)))
