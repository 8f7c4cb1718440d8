-- ===== src/Searest/Blocks/Owns.antt =====
-- What a request owns in memory, from its first call to its end (src/searest.c).
use webstore.Base.{
  ℕ, zero, suc, ◌≡◌, refl, sym, ap, ◌∙◌, Bool, true, false, ◌||◌, none, some, List, [], ◌∷◌, arith,
  ◌==◌,
}
use webstore.Base.Bytes.{Bytes}
use webstore.Memory.{
  Ptr, null, Heap, ok, ◌>>=◌, write, write_same, write_other, store-ok, load, IsHeap, write-IsHeap,
}
use webstore.Searest.Blocks.{
  Field, ip, url, accept, auth, post_data, content_type, allow, return_page, code, ReqCell,
  ReqBlock, req, chars, as_req, as_chars, load_req, load_chars, set_ptr, assign, fields,
}

abbrev pub listed : Field → List Field → Bool
listed f [] = false
listed f (g ∷ fs) = (code f == code g) || listed f fs

pub all_listed : (f : Field) → listed f fields ≡ true
unfolding code
all_listed ip = refl
all_listed url = refl
all_listed accept = refl
all_listed auth = refl
all_listed post_data = refl
all_listed content_type = refl
all_listed allow = refl
all_listed return_page = refl

decode : ℕ → Field
decode zero = ip
decode (suc zero) = url
decode (suc (suc zero)) = accept
decode (suc (suc (suc zero))) = auth
decode (suc (suc (suc (suc zero)))) = post_data
decode (suc (suc (suc (suc (suc zero))))) = content_type
decode (suc (suc (suc (suc (suc (suc zero)))))) = allow
decode _ = return_page

decode-code : (f : Field) → decode (code f) ≡ f
unfolding decode code
decode-code ip = refl
decode-code url = refl
decode-code accept = refl
decode-code auth = refl
decode-code post_data = refl
decode-code content_type = refl
decode-code allow = refl
decode-code return_page = refl

pub same_field : (f g : Field) → (code f == code g) ≡ true → f ≡ g
same_field f g e = sym (decode-code f) ∙ ap decode (equal (code f) (code g) e) ∙ decode-code g
  where
    equal : (a b : ℕ) → (a == b) ≡ true → a ≡ b
    equal a b h = ground arith

-- The record is in memory, and the fields of `fs` that are not NULL point to strings, each to one of
-- its own; these blocks were free in `h0`, and all else is as in `h0`.
pub record Owns (h0 : Heap ReqBlock) (fs : List Field) (ri : Ptr) (c : ReqCell) (h : Heap ReqBlock)
    : Type 0 where
  pub good : IsHeap h
  pub ri_null : (ri == null) ≡ false
  pub at_ri : h.at ri ≡ some (req c)
  pub mine : h0.at ri ≡ none
  pub held :
      (f : Field)
      → listed f fs ≡ true
      → (c.ptr f == null) ≡ false
      → (s : Bytes) × (h.at (c.ptr f) ≡ some (chars s))
  pub distinct :
      (f g : Field)
      → listed f fs ≡ true
      → listed g fs ≡ true
      → (c.ptr f == null) ≡ false
      → (code f == code g) ≡ false
      → (c.ptr f == c.ptr g) ≡ false
  pub new : (f : Field) → listed f fs ≡ true → (c.ptr f == null) ≡ false → h0.at (c.ptr f) ≡ none
  pub apart : (f : Field) → listed f fs ≡ true → (c.ptr f == null) ≡ false → (c.ptr f == ri) ≡ false
  pub spared :
      (a : Ptr)
      → (a == ri) ≡ false
      → ((f : Field) → listed f fs ≡ true → (c.ptr f == null) ≡ false → (a == c.ptr f) ≡ false)
      → h.at a ≡ h0.at a

pub load_req-ok :
    (h : Heap ReqBlock) (p : Ptr) (c : ReqCell) → h.at p ≡ some (req c) → load_req p h ≡ ok c h
unfolding load_req load as_req
load_req-ok h p c e = rw (load_req, ◌>>=◌, load, e) refl

pub load_chars-ok :
    (h : Heap ReqBlock) (p : Ptr) (s : Bytes) → h.at p ≡ some (chars s) → load_chars p h ≡ ok s h
unfolding load_chars load as_chars
load_chars-ok h p s e = rw (load_chars, ◌>>=◌, load, e) refl

pub assign-ok :
    (f : Field) (q ri : Ptr) (c : ReqCell) (h : Heap ReqBlock)
    → h.at ri ≡ some (req c)
    → assign f q ri h ≡ ok tt (write h ri (some (req (record c { ptr = set_ptr c.ptr f q }))))
unfolding assign
assign-ok f q ri c h e = rw (load_req-ok h ri c e, store-ok h ri (req c) _ e) refl

module _ (h0 : Heap ReqBlock) (ri : Ptr) where
  -- numbers of the record change, and no pointer
  pub numbers-Owns :
      (c : ReqCell) (m l n : ℕ) (h : Heap ReqBlock)
      → Owns h0 fields ri c h
      → Owns h0 fields ri
          (record { ptr = c.ptr; method_type = m; content_length = l; post_data_len = n })
          (write h ri (
            some (
              req
                (record { ptr = c.ptr; method_type = m; content_length = l; post_data_len = n }))))
  numbers-Owns c m l n h o = record {
    good = write-IsHeap h ri _ (req c) o.good o.at_ri;
    ri_null = o.ri_null;
    at_ri = write_same h ri _;
    mine = o.mine;
    held = λ f i e.
        let it = o.held f i e in (it.0, write_other h ri (c.ptr f) _ (o.apart f i e) ∙ it.1);
    distinct = o.distinct;
    new = o.new;
    apart = o.apart;
    spared = λ a far others. write_other h ri a _ far ∙ o.spared a far others;
  }

  -- What a heap is like after `ri->f = q` with a block `q` that was free, or NULL, where the string
  -- that `f` pointed to before is freed.
  pub record Renewed (c : ReqCell) (f : Field) (q : Ptr) (h g : Heap ReqBlock) : Type 0 where
    pub good : IsHeap g
    pub at_ri : g.at ri ≡ some (req (record c { ptr = set_ptr c.ptr f q }))
    pub q_held : (q == null) ≡ false → (s : Bytes) × (g.at q ≡ some (chars s))
    pub q_new : (q == null) ≡ false → h.at q ≡ none
    pub gone : (c.ptr f == null) ≡ false → g.at (c.ptr f) ≡ none
    pub same :
        (a : Ptr)
        → (a == ri) ≡ false
        → ((q == null) ≡ false → (a == q) ≡ false)
        → ((c.ptr f == null) ≡ false → (a == c.ptr f) ≡ false)
        → g.at a ≡ h.at a
