-- ===== src/Searest/Blocks/Renew.antt =====
-- A field of the request's record that gets another string (src/searest.c).
use webstore.Base.{
  not, ==-refl, ◌≡◌, sym, ap, subst, ◌∙◌, false, ◌||◌, none, some, arith, ◌==◌, if◌then◌else◌,
  Bool-cases, inl, inr, ==-sym,
}
use webstore.Base.Bytes.{Bytes}
use webstore.Memory.{Ptr, null, Heap}
use webstore.Searest.Blocks.{Field, code, ReqCell, ReqBlock, req, chars, set_ptr, fields}
use webstore.Searest.Blocks.Owns.{all_listed, same_field, Owns, Renewed}

module _ (h0 : Heap ReqBlock) (ri : Ptr) where
  clash_at :
      (h : Heap ReqBlock) (a b : Ptr) (x : ReqBlock)
      → h.at a ≡ none
      → h.at b ≡ some x
      → (a == b) ≡ false
  clash_at h a b x e e' = ground (arith, e, e')

  module _ (c : ReqCell) (f : Field) (q : Ptr) (h g : Heap ReqBlock) (o : Owns h0 fields ri c h)
      (r : Renewed h0 ri c f q h g) where
    q_apart : (q == null) ≡ false → (q == ri) ≡ false
    q_apart e = clash_at h q ri (req c) (r.q_new e) o.at_ri

    q_other : (k : Field) → (q == null) ≡ false → (c.ptr k == null) ≡ false → (q == c.ptr k) ≡ false
    q_other k e e' =
        let it = o.held k (all_listed k) e' in clash_at h q (c.ptr k) (chars it.0) (r.q_new e) it.1

    kept :
        (k : Field)
        → (code f == code k) ≡ false
        → (c.ptr k == null) ≡ false
        → g.at (c.ptr k) ≡ h.at (c.ptr k)
    kept k other e =
        r.same (c.ptr k) (o.apart k (all_listed k) e) (λ e'. ==-sym q (c.ptr k) ∙ q_other k e' e)
          (λ e'. ==-sym (c.ptr f) (c.ptr k) ∙ o.distinct f k (all_listed f) (all_listed k) e' other)

    held :
        (k : Field)
        → (set_ptr c.ptr f q k == null) ≡ false
        → (s : Bytes) × (g.at (set_ptr c.ptr f q k) ≡ some (chars s))
    unfolding set_ptr
    held k = elim (Bool-cases (code f == code k)) [
      | inl same ↦ rw same r.q_held
      | inr other ↦
          rw other (λ e. let it = o.held k (all_listed k) e in (it.0, kept k other e ∙ it.1))
    ]

    new_one : (q == null) ≡ false → h0.at q ≡ none
    new_one e = sym (o.spared q (q_apart e) (λ k i e'. q_other k e e')) ∙ r.q_new e

    new : (k : Field) → (set_ptr c.ptr f q k == null) ≡ false → h0.at (set_ptr c.ptr f q k) ≡ none
    unfolding set_ptr
    new k = elim (Bool-cases (code f == code k)) [
      | inl same ↦ rw same new_one
      | inr other ↦ rw other (λ e. o.new k (all_listed k) e)
    ]

    apart :
        (k : Field) → (set_ptr c.ptr f q k == null) ≡ false → (set_ptr c.ptr f q k == ri) ≡ false
    unfolding set_ptr
    apart k = elim (Bool-cases (code f == code k)) [
      | inl same ↦ rw same q_apart
      | inr other ↦ rw other (λ e. o.apart k (all_listed k) e)
    ]

    q_differs : (k : Field) → (q == null) ≡ false → (q == c.ptr k) ≡ false
    q_differs k e = elim (Bool-cases (c.ptr k == null)) [
      | inl empty ↦ ground (arith, e, empty)
      | inr full ↦ q_other k e full
    ]

    differs_q : (k : Field) → (c.ptr k == null) ≡ false → (c.ptr k == q) ≡ false
    differs_q k e = elim (Bool-cases (q == null)) [
      | inl empty ↦ ground (arith, e, empty)
      | inr full ↦ ==-sym q (c.ptr k) ∙ q_other k full e
    ]

    distinct :
        (j k : Field)
        → (set_ptr c.ptr f q j == null) ≡ false
        → (code j == code k) ≡ false
        → (set_ptr c.ptr f q j == set_ptr c.ptr f q k) ≡ false
    unfolding set_ptr
    distinct j k e differ = elim (Bool-cases (code f == code j)) [
      | inl at_j ↦ elim (Bool-cases (code f == code k)) [
        | inl at_k ↦ absurd (ground (arith, differ, at_j, at_k))
        | inr off_k ↦
            rw (at_j, off_k)
              (q_differs k (subst (λ b. ((if b then q else c.ptr j) == null) ≡ false) at_j e))
      ]
      | inr off_j ↦ elim (Bool-cases (code f == code k)) [
        | inl at_k ↦
            rw (off_j, at_k)
              (differs_q j (subst (λ b. ((if b then q else c.ptr j) == null) ≡ false) off_j e))
        | inr off_k ↦
            rw (off_j, off_k)
              (o.distinct j k (all_listed j) (all_listed k)
                (subst (λ b. ((if b then q else c.ptr j) == null) ≡ false) off_j e) differ)
      ]
    ]

    -- an address that no field points to any more is not the new one
    off_q :
        (a : Ptr)
        → ((k : Field) → (set_ptr c.ptr f q k == null) ≡ false → (a == set_ptr c.ptr f q k) ≡ false)
        → (q == null) ≡ false
        → (a == q) ≡ false
    unfolding set_ptr
    off_q a others =
        subst
          (λ b.
            ((if b then q else c.ptr f) == null) ≡ false
            → (a == (if b then q else c.ptr f)) ≡ false)
          (==-refl (code f)) (others f)

    spared :
        (a : Ptr)
        → (a == ri) ≡ false
        → ((k : Field) → (set_ptr c.ptr f q k == null) ≡ false → (a == set_ptr c.ptr f q k) ≡ false)
        → g.at a ≡ h0.at a
    unfolding set_ptr
    spared a far others = elim (Bool-cases ((c.ptr f == null) || not (a == c.ptr f))) [
      | inl elsewhere ↦
          r.same a far (off_q a others) (λ e. ground (arith, e, elsewhere))
          ∙ o.spared a far (λ k i e. elim (Bool-cases (code f == code k)) [
            | inl at_k ↦
                subst (λ j. (c.ptr j == null) ≡ false → (a == c.ptr j) ≡ false)
                  (same_field f k at_k) (λ e'. ground (arith, e', elsewhere)) e
            | inr off_k ↦
                subst
                  (λ b.
                    ((if b then q else c.ptr k) == null) ≡ false
                    → (a == (if b then q else c.ptr k)) ≡ false)
                  off_k (others k) e
          ])
      | inr freed ↦
          ap g.at (old a freed)
          ∙ r.gone (was a freed)
          ∙ sym (o.new f (all_listed f) (was a freed))
          ∙ ap h0.at (sym (old a freed))
    ]
      where
        old : (a : Ptr) → ((c.ptr f == null) || not (a == c.ptr f)) ≡ false → a ≡ c.ptr f
        old a e = ground (arith, e)

        was :
            (a : Ptr)
            → ((c.ptr f == null) || not (a == c.ptr f)) ≡ false
            → (c.ptr f == null) ≡ false
        was a e = ground (arith, e)

    pub renew-Owns : Owns h0 fields ri (record c { ptr = set_ptr c.ptr f q }) g
    renew-Owns = record {
      good = r.good;
      ri_null = o.ri_null;
      at_ri = r.at_ri;
      mine = o.mine;
      held = λ k i e. held k e;
      distinct = λ j k i i' e differ. distinct j k e differ;
      new = λ k i e. new k e;
      apart = λ k i e. apart k e;
      spared = λ a far others. spared a far (λ k. others k (all_listed k));
    }
