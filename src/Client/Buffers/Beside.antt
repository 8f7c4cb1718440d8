-- ===== src/Client/Buffers/Beside.antt =====
-- An md_t and its buffer while other blocks are made, changed and freed (src/compression.c).
use webstore.Base.{
  true, ◌≡◌, refl, sym, ap, ◌∙◌, Bool, false, Option, none, some, arith, ◌==◌, Bool-cases, inl, inr,
  ==-sym,
}
use webstore.Base.Bytes.{Bytes}
use webstore.Memory.{
  Ptr, null, Heap, write, write_same, write_other, with_new, with_new_same, with_new_other,
  alloc-IsHeap, IsHeap,
}
use webstore.Client.Buffers.{MzBlock, buf, Buffer, Held, equal}

-- the next block, made beside an md_t and its buffer
module _ (h : Heap MzBlock) (side : Bool) (g : Heap MzBlock) (p : Ptr) (o : Option Bytes)
    (x : MzBlock) (it : Held h side p o g) where
  off_next : (a : Ptr) (y : MzBlock) → g.at a ≡ some y → (a == g.next) ≡ false
  off_next a y e = ground (arith, e, it.good.fresh a)

  grow-Buffer :
      (o' : Option Bytes)
      → Buffer h g p it.q o'
      → Buffer (write h g.next (some x)) (with_new g x) p it.q o'
  grow-Buffer none e = e
  grow-Buffer (some s) (full, apart, (n, at_q, room), fresh) =
      let far = off_next it.q (buf n true s) at_q in
      (
        full,
        apart,
        (n, with_new_other g it.q x far ∙ at_q, room),
        write_other h g.next it.q (some x) far ∙ fresh,
      )

  pub grow : (it1 : Held (write h g.next (some x)) side p o (with_new g x)) × (it1.q ≡ it.q)
  grow = (
    record {
      good = alloc-IsHeap g x it.good;
      q = it.q;
      p_null = it.p_null;
      at_p = with_new_other g p x far_p ∙ it.at_p;
      mine = write_other h g.next p (some x) far_p ∙ it.mine;
      buffer = grow-Buffer o it.buffer;
      same = λ a far off. elim (Bool-cases (a == g.next)) [
        | inl here ↦
            ap (with_new g x).at (equal a g.next here)
            ∙ with_new_same g x
            ∙ sym (write_same h g.next (some x))
            ∙ ap (write h g.next (some x)).at (sym (equal a g.next here))
        | inr there ↦
            with_new_other g a x there
            ∙ it.same a far off
            ∙ sym (write_other h g.next a (some x) there)
      ];
    },
    refl,
  )
    where
      far_p : (p == g.next) ≡ false
      far_p = off_next p _ it.at_p

  pub next_full : (g.next == null) ≡ false
  next_full = ground (arith, it.good.next_pos)

  next_off_q :
      (o' : Option Bytes) → Buffer h g p it.q o' → (it.q == null) ≡ false → (g.next == it.q) ≡ false
  next_off_q none e full = absurd (ground (arith, e, full))
  next_off_q (some s) (full', apart, (n, at_q, room), fresh) full =
      ==-sym it.q g.next ∙ off_next it.q (buf n true s) at_q

  -- the address of the next block is free in `h` too
  pub next_free : h.at g.next ≡ none
  next_free =
      sym (it.same g.next (==-sym p g.next ∙ off_next p _ it.at_p) (next_off_q o it.buffer))
      ∙ it.good.fresh g.next (omega arith)

-- another block changes, or is freed, while an md_t is held
module _ (h g : Heap MzBlock) (side : Bool) (p a : Ptr) (o : Option Bytes) (y : MzBlock)
    (at_a : h.at a ≡ some y) (it : Held h side p o g) (c : Option MzBlock) where
  p_off : (p == a) ≡ false
  p_off = ground (arith, it.mine, at_a)

  q_off : (o' : Option Bytes) → Buffer h g p it.q o' → (it.q == null) ≡ false → (it.q == a) ≡ false
  q_off none e full = absurd (ground (arith, e, full))
  q_off (some s) (full', apart, at_q, fresh) full = ground (arith, fresh, at_a)

  pub still : g.at a ≡ some y
  still = it.same a (==-sym p a ∙ p_off) (λ full. ==-sym it.q a ∙ q_off o it.buffer full) ∙ at_a

  changed-Buffer :
      (o' : Option Bytes) → Buffer h g p it.q o' → Buffer (write h a c) (write g a c) p it.q o'
  changed-Buffer none e = e
  changed-Buffer (some s) (full, apart, (n, at_q, room), fresh) =
      let far = q_off (some s) (full, apart, (n, at_q, room), fresh) full in
      (
        full,
        apart,
        (n, write_other g a it.q c far ∙ at_q, room),
        write_other h a it.q c far ∙ fresh,
      )

  pub changed-Held :
      IsHeap (write g a c) → (it1 : Held (write h a c) side p o (write g a c)) × (it1.q ≡ it.q)
  changed-Held good = (
    record {
      good = good;
      q = it.q;
      p_null = it.p_null;
      at_p = write_other g a p c p_off ∙ it.at_p;
      mine = write_other h a p c p_off ∙ it.mine;
      buffer = changed-Buffer o it.buffer;
      same = λ b far off. elim (Bool-cases (b == a)) [
        | inl here ↦
            ap (write g a c).at (equal b a here)
            ∙ write_same g a c
            ∙ sym (write_same h a c)
            ∙ ap (write h a c).at (sym (equal b a here))
        | inr there ↦
            write_other g a b c there ∙ it.same b far off ∙ sym (write_other h a b c there)
      ];
    },
    refl,
  )
