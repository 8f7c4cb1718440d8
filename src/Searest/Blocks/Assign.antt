-- ===== src/Searest/Blocks/Assign.antt =====
-- ri->f = strdup(...), a larger buffer, and a page, on what a request owns (src/searest.c).
use webstore.Base.{
  ◌≡◌, refl, subst, ◌∙◌, false, Option, none, some, arith, ◌==◌, if◌then◌else◌, Bool-cases, inl,
  inr, ==-sym,
}
use webstore.Base.Bytes.{Bytes}
use webstore.Memory.{
  Ptr, null, Heap, ok, write, write_same, write_other, with_new, with_new_same, with_new_other,
  alloc, free, IsHeap, write-IsHeap, free-IsHeap, alloc-IsHeap, Ends, Ends-weaken,
}
use webstore.Searest.Blocks.{
  Field, code, ReqCell, ReqBlock, req, chars, set_ptr, assign, dup, fields,
}
use webstore.Searest.Blocks.Owns.{Owns, all_listed, assign-ok}
use webstore.Searest.Blocks.Renew.{renew-Owns}

-- `h1` is `h` with a new string at `q`, or the same if `q` is NULL.
pub record Brought (h : Heap ReqBlock) (q : Ptr) (h1 : Heap ReqBlock) : Type 0 where
  pub good : IsHeap h1
  pub q_held : (q == null) ≡ false → (s : Bytes) × (h1.at q ≡ some (chars s))
  pub q_new : (q == null) ≡ false → h.at q ≡ none
  pub same : (a : Ptr) → ((q == null) ≡ false → (a == q) ≡ false) → h1.at a ≡ h.at a

pub alloc-Brought :
    (s : Bytes) (h : Heap ReqBlock) → IsHeap h → Brought h h.next (with_new h (chars s))
alloc-Brought s h good = record {
  good = alloc-IsHeap h (chars s) good;
  q_held = λ e. (s, with_new_same h (chars s));
  q_new = λ e. good.fresh h.next (omega arith);
  same = λ a off. with_new_other h a (chars s) (off (ground (arith, good.next_pos)));
}

-- memory after free(p)
unfoldable pub freed : Ptr → Heap ReqBlock → Heap ReqBlock
freed p h = if p == null then h else write h p none

pub freed_other :
    (p a : Ptr) (h : Heap ReqBlock)
    → ((p == null) ≡ false → (a == p) ≡ false)
    → (freed p h).at a ≡ h.at a
unfolding freed
freed_other p a h off = elim (Bool-cases (p == null)) [
  | inl empty ↦ rw empty refl
  | inr full ↦ rw full (write_other h p a none (off full))
]

pub freed_same : (p : Ptr) (h : Heap ReqBlock) → (p == null) ≡ false → (freed p h).at p ≡ none
unfolding freed
freed_same p h full = rw full (write_same h p none)

freed-null : (p : Ptr) (h : Heap ReqBlock) → p ≡ null → freed p h ≡ h
unfolding freed
freed-null p h e = rw e refl

pub freed-IsHeap : (p : Ptr) (h : Heap ReqBlock) → IsHeap h → IsHeap (freed p h)
unfolding freed
freed-IsHeap p h good = elim (Bool-cases (p == null)) [
  | inl empty ↦ rw empty good
  | inr full ↦ rw full (free-IsHeap h p good)
]

pub free-freed :
    (p : Ptr) (h : Heap ReqBlock)
    → ((p == null) ≡ false → (s : Bytes) × (h.at p ≡ some (chars s)))
    → free p h ≡ ok tt (freed p h)
unfolding free freed
free-freed p h held = elim (Bool-cases (p == null)) [
  | inl empty ↦ rw empty refl
  | inr full ↦ rw (full, (held full).1) refl
]

module _ (h0 : Heap ReqBlock) (ri : Ptr) (c : ReqCell) (f : Field) (q : Ptr) (h h1 : Heap ReqBlock)
    (o : Owns h0 fields ri c h) (b : Brought h q h1) where
  q_far : (q == null) ≡ false → (ri == q) ≡ false
  q_far e = ground (arith, b.q_new e, o.at_ri)

  old_far : (c.ptr f == null) ≡ false → (ri == c.ptr f) ≡ false
  old_far e = ==-sym (c.ptr f) ri ∙ o.apart f (all_listed f) e

  q_old : (q == null) ≡ false → (c.ptr f == null) ≡ false → (q == c.ptr f) ≡ false
  q_old e e' = let it = o.held f (all_listed f) e' in ground (arith, b.q_new e, it.1)

  pub old_held : (c.ptr f == null) ≡ false → (s : Bytes) × (h1.at (c.ptr f) ≡ some (chars s))
  old_held e =
      let it = o.held f (all_listed f) e in
      (it.0, b.same (c.ptr f) (λ e'. ==-sym q (c.ptr f) ∙ q_old e' e) ∙ it.1)

  pub still_at_ri : (freed (c.ptr f) h1).at ri ≡ some (req c)
  still_at_ri = freed_other (c.ptr f) ri h1 old_far ∙ b.same ri q_far ∙ o.at_ri

  -- the old string freed, and the pointer set to the new one
  pub brought-Owns :
      Owns h0 fields ri
        (record c { ptr = set_ptr c.ptr f q })
        (write (freed (c.ptr f) h1) ri (some (req (record c { ptr = set_ptr c.ptr f q }))))
  brought-Owns = renew-Owns h0 ri c f q h _ o (record {
    good =
        write-IsHeap (freed (c.ptr f) h1) ri _ (req c) (freed-IsHeap (c.ptr f) h1 b.good)
          still_at_ri;
    at_ri = write_same (freed (c.ptr f) h1) ri _;
    q_held = λ e.
        let it = b.q_held e in
        (
          it.0,
          write_other (freed (c.ptr f) h1) ri q _ (==-sym ri q ∙ q_far e)
              ∙ freed_other (c.ptr f) q h1 (q_old e)
              ∙ it.1,
        );
    q_new = b.q_new;
    gone = λ e.
        write_other (freed (c.ptr f) h1) ri (c.ptr f) _ (o.apart f (all_listed f) e)
        ∙ freed_same (c.ptr f) h1 e;
    same = λ a far off old.
        write_other (freed (c.ptr f) h1) ri a _ far ∙ freed_other (c.ptr f) a h1 old ∙ b.same a off;
  })

-- Nothing but one pointer of the record has changed.
pub record Only (f : Field) (c c' : ReqCell) : Type 0 where
  pub others : (k : Field) → (code f == code k) ≡ false → c'.ptr k ≡ c.ptr k
  pub content_length : c'.content_length ≡ c.content_length
  pub post_data_len : c'.post_data_len ≡ c.post_data_len

pub set-Only : (f : Field) (q : Ptr) (c : ReqCell) → Only f c (record c { ptr = set_ptr c.ptr f q })
unfolding set_ptr
set-Only f q c = record { others = λ k e. rw e refl; content_length = refl; post_data_len = refl }

module _ (h0 : Heap ReqBlock) (ri : Ptr) where
  -- a field that was NULL gets a string that was just made, or stays NULL
  pub assign-Owns :
      (c : ReqCell) (f : Field) (q : Ptr) (h h1 : Heap ReqBlock)
      → Owns h0 fields ri c h
      → Brought h q h1
      → c.ptr f ≡ null
      → Ends (assign f q ri h1) (λ u g. Owns h0 fields ri (record c { ptr = set_ptr c.ptr f q }) g)
  assign-Owns c f q h h1 o b empty = rw (assign-ok f q ri c h1 at) (
      subst
        (λ x.
          Owns h0 fields ri (record c { ptr = set_ptr c.ptr f q })
            (write x ri (some (req (record c { ptr = set_ptr c.ptr f q })))))
        (freed-null (c.ptr f) h1 empty) (brought-Owns h0 ri c f q h h1 o b))
    where
      at : h1.at ri ≡ some (req c)
      at =
          subst (λ (x : Heap ReqBlock). x.at ri ≡ some (req c)) (freed-null (c.ptr f) h1 empty)
            (still_at_ri h0 ri c f q h h1 o b)

  pub dup-Owns :
      (c : ReqCell) (f : Field) (s : Option Bytes) (h : Heap ReqBlock)
      → Owns h0 fields ri c h
      → c.ptr f ≡ null
      → Ends (dup f s ri h) (λ u g. (c' : ReqCell) × Only f c c' × Owns h0 fields ri c' g)
  unfolding dup alloc
  dup-Owns c f none h o empty =
      (c, record { others = λ k e. refl; content_length = refl; post_data_len = refl }, o)
  dup-Owns c f (some s) h o empty =
      Ends-weaken (assign f h.next ri (with_new h (chars s))) _ _
        (assign-Owns c f h.next h (with_new h (chars s)) o (alloc-Brought s h o.good) empty)
        (λ u g o'. (record c { ptr = set_ptr c.ptr f h.next }, set-Only f h.next c, o'))
