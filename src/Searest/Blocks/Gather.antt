-- ===== src/Searest/Blocks/Gather.antt =====
-- The calls with the pieces of an upload, in memory (src/searest.c, uhd_request_started), against
-- gather.
use webstore.Base.{
  ℕ, ◌+◌, ◌≡◌, refl, sym, ◌∙◌, true, false, some, List, [], ◌∷◌, ◌++◌, arith, ltb, ◌==◌, length,
  length-append, Bool-cases, inl, inr,
}
use webstore.Base.Bytes.{Bytes}
use webstore.Server.{Srci}
use webstore.Searest.Upload.{mhd_yes, mhd_no, gather, gather_all}
use webstore.Memory.{Ptr, null, Heap, ok, write, with_new, alloc, Ends, Ends-bind, Ends-weaken}
use webstore.Searest.Blocks.{
  post_data, return_page, code, set_ptr, ReqCell, ReqBlock, req, chars, old_chars, gather_into,
  gather_pieces, fields,
}
use webstore.Searest.Blocks.Owns.{
  Owns, numbers-Owns, all_listed, load_req-ok, load_chars-ok, assign-ok,
}
use webstore.Memory.{store-ok}
use webstore.Searest.Blocks.Assign.{
  freed, free-freed, alloc-Brought, old_held, still_at_ri, brought-Owns,
}

old_chars-ok :
    (p : Ptr) (h : Heap ReqBlock)
    → ((p == null) ≡ false → (s : Bytes) × (h.at p ≡ some (chars s)))
    → (s : Bytes) × (old_chars p h ≡ ok s h)
unfolding old_chars
old_chars-ok p h held = elim (Bool-cases (p == null)) [
  | inl empty ↦ ([], rw empty refl)
  | inr full ↦ let it = held full in (it.0, rw (full, load_chars-ok h p it.0 it.1) refl)
]

module _ (h0 : Heap ReqBlock) (ri : Ptr) where
  -- The request stands in memory as a call has left it: the verdict, the lengths, and no page yet.
  abbrev pub Stage : ℕ × Srci → ℕ → Heap ReqBlock → Type 0
  Stage r z g =
      (c : ReqCell) × (z ≡ r.0)
      × (c.content_length ≡ r.1.content_length)
      × (c.post_data_len ≡ length r.1.post_data)
      × (c.ptr return_page ≡ null)
      × Owns h0 fields ri c g

  -- a piece that fits
  gather-room :
      (d : Bytes) (c : ReqCell) (h : Heap ReqBlock)
      → Owns h0 fields ri c h
      → ltb c.content_length (c.post_data_len + length d) ≡ false
      → Ends (gather_into d ri h) (λ z g.
        (q : Ptr) × (z ≡ mhd_yes)
        × Owns h0 fields ri
            (record c {
              ptr = set_ptr c.ptr post_data q;
              post_data_len = c.post_data_len + length d;
            })
            g)
  unfolding gather_into alloc
  gather-room d c h o room =
      let old = old_chars-ok (c.ptr post_data) h (o.held post_data (all_listed post_data)) in
      let h1 = with_new h (chars (old.0 ++ d)) in
      let b = alloc-Brought (old.0 ++ d) h o.good in
      let at = still_at_ri h0 ri c post_data h.next h h1 o b in
      let o1 = brought-Owns h0 ri c post_data h.next h h1 o b in
      let c1 : ReqCell = record c { ptr = set_ptr c.ptr post_data h.next } in
      let h2 = write (freed (c.ptr post_data) h1) ri (some (req c1)) in
      rw
        (
          load_req-ok h ri c o.at_ri,
          room,
          old.1,
          free-freed (c.ptr post_data) h1 (old_held h0 ri c post_data h.next h h1 o b),
          assign-ok post_data h.next ri c (freed (c.ptr post_data) h1) at,
          load_req-ok h2 ri c1 o1.at_ri,
          store-ok h2 ri (req c1)
              (req (record c {
                ptr = set_ptr c.ptr post_data h.next;
                post_data_len = c.post_data_len + length d;
              }))
              o1.at_ri,
        )
        (
          h.next,
          refl,
          numbers-Owns h0 ri c1 c.method_type c.content_length (c.post_data_len + length d) h2 o1,
        )

  gather-full :
      (d : Bytes) (c : ReqCell) (h : Heap ReqBlock)
      → Owns h0 fields ri c h
      → ltb c.content_length (c.post_data_len + length d) ≡ true
      → gather_into d ri h ≡ ok mhd_no h
  unfolding gather_into
  gather-full d c h o full = rw (load_req-ok h ri c o.at_ri, full) refl

  gather_into-Stage :
      (d : Bytes) (r : Srci) (c : ReqCell) (h : Heap ReqBlock)
      → Owns h0 fields ri c h
      → c.content_length ≡ r.content_length
      → c.post_data_len ≡ length r.post_data
      → c.ptr return_page ≡ null
      → Ends (gather_into d ri h) (Stage (gather d r))
  unfolding gather code set_ptr
  gather_into-Stage d r c h o l n no_page =
      elim (Bool-cases (ltb c.content_length (c.post_data_len + length d))) [
        | inl full ↦ rw (sym same ∙ full, gather-full d c h o full) (c, refl, l, n, no_page, o)
        | inr room ↦ rw (sym same ∙ room) (
            Ends-weaken (gather_into d ri h) _ _ (gather-room d c h o room) (λ z g it. (
              record c {
                ptr = set_ptr c.ptr post_data it.0;
                post_data_len = c.post_data_len + length d;
              },
              it.1,
              l,
              omega (arith, n, length-append r.post_data d),
              no_page,
              it.2,
            )))
      ]
    where
      same :
          ltb c.content_length (c.post_data_len + length d)
          ≡ ltb r.content_length (length r.post_data + length d)
      same = rw (l, n) refl

  pub gather_pieces-Stage :
      (pieces : List Bytes) (r : Srci) (c : ReqCell) (h : Heap ReqBlock)
      → Owns h0 fields ri c h
      → c.content_length ≡ r.content_length
      → c.post_data_len ≡ length r.post_data
      → c.ptr return_page ≡ null
      → Ends (gather_pieces pieces ri h) (Stage (gather_all pieces r))
  unfolding gather_pieces gather_all
  gather_pieces-Stage [] r c h o l n no_page = (c, refl, l, n, no_page, o)
  gather_pieces-Stage (piece ∷ more) r c h o l n no_page =
      Ends-bind (gather_into piece ri h) _ _ _ (gather_into-Stage piece r c h o l n no_page)
        (λ z g (c', e, l', n', no_page', o'). elim (Bool-cases ((gather piece r).0 == mhd_no)) [
          | inl stop ↦ rw (e, stop) (c', refl, l', n', no_page', o')
          | inr go ↦ rw (e, go) (gather_pieces-Stage more (gather piece r).1 c' g o' l' n' no_page')
        ])
