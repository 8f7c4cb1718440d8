-- ===== src/Searest/Blocks/Completed.antt =====
-- The end of a request: uhd_request_completed frees all that it owns (src/searest.c).
use webstore.Base.{
  not, ◌≡◌, refl, sym, ap, subst, ◌∙◌, true, false, ◌||◌, none, List, [], ◌∷◌, arith, ◌==◌,
  Bool-cases, inl, inr, ==-sym,
}
use webstore.Base.{clash}
use webstore.Memory.{Ptr, null, Heap, write_other, free, Ends, Ends-bind}
use webstore.Searest.Blocks.{Field, code, ReqCell, ReqBlock, free_fields, fields, completed}
use webstore.Searest.Blocks.Owns.{Owns, listed, same_field, load_req-ok}
use webstore.Searest.Blocks.Assign.{freed, freed_other, freed_same, freed-IsHeap, free-freed}

module _ (h0 : Heap ReqBlock) (ri : Ptr) (c : ReqCell) where
  -- no field comes twice
  abbrev Apart : List Field → Type 0
  Apart [] = Unit
  Apart (f ∷ fs) = (listed f fs ≡ false) × Apart fs

  first : (f : Field) (fs : List Field) → listed f (f ∷ fs) ≡ true
  first f fs = ground arith

  rest : (k f : Field) (fs : List Field) → listed k fs ≡ true → listed k (f ∷ fs) ≡ true
  rest k f fs i = ground (arith, i)

  -- a field that is still to come is another one
  differs :
      (k f : Field) (fs : List Field)
      → listed f fs ≡ false
      → listed k fs ≡ true
      → (code f == code k) ≡ false
  differs k f fs out i = elim (Bool-cases (code f == code k)) [
    | inl same ↦
        absurd (clash (listed k fs) i (subst (λ j. listed j fs ≡ false) (same_field f k same) out))
    | inr other ↦ other
  ]

  -- the first field freed
  free_one :
      (f : Field) (fs : List Field) (h : Heap ReqBlock)
      → listed f fs ≡ false
      → Owns h0 (f ∷ fs) ri c h
      → Owns h0 fs ri c (freed (c.ptr f) h)
  free_one f fs h out o = record {
    good = freed-IsHeap (c.ptr f) h o.good;
    ri_null = o.ri_null;
    at_ri =
        freed_other (c.ptr f) ri h (λ e. ==-sym (c.ptr f) ri ∙ o.apart f (first f fs) e) ∙ o.at_ri;
    mine = o.mine;
    held = λ k i e.
        let it = o.held k (rest k f fs i) e in
        (
          it.0,
          freed_other (c.ptr f) (c.ptr k) h (λ e'.
                ==-sym (c.ptr f) (c.ptr k)
                ∙ o.distinct f k (first f fs) (rest k f fs i) e' (differs k f fs out i))
              ∙ it.1,
        );
    distinct = λ j k i i'. o.distinct j k (rest j f fs i) (rest k f fs i');
    new = λ k i. o.new k (rest k f fs i);
    apart = λ k i. o.apart k (rest k f fs i);
    spared = λ a far others. elim (Bool-cases ((c.ptr f == null) || not (a == c.ptr f))) [
      | inl elsewhere ↦
          freed_other (c.ptr f) a h (λ e. ground (arith, e, elsewhere))
          ∙ o.spared a far (λ k i e. elim (Bool-cases (code f == code k)) [
            | inl same ↦
                subst (λ j. (c.ptr j == null) ≡ false → (a == c.ptr j) ≡ false)
                  (same_field f k same) (λ e'. ground (arith, e', elsewhere)) e
            | inr other ↦ others k (below k other i) e
          ])
      | inr gone ↦
          ap (freed (c.ptr f) h).at (old a gone)
          ∙ freed_same (c.ptr f) h (was a gone)
          ∙ sym (o.new f (first f fs) (was a gone))
          ∙ ap h0.at (sym (old a gone))
    ];
  }
    where
      old : (a : Ptr) → ((c.ptr f == null) || not (a == c.ptr f)) ≡ false → a ≡ c.ptr f
      old a e = ground (arith, e)

      was :
          (a : Ptr) → ((c.ptr f == null) || not (a == c.ptr f)) ≡ false → (c.ptr f == null) ≡ false
      was a e = ground (arith, e)

      below :
          (k : Field) → (code f == code k) ≡ false → listed k (f ∷ fs) ≡ true → listed k fs ≡ true
      below k other i = ground (arith, i, ==-sym (code f) (code k), other)

  free_fields-Owns :
      (fs : List Field) (h : Heap ReqBlock)
      → Apart fs
      → Owns h0 fs ri c h
      → Ends (free_fields fs ri h) (λ u g. Owns h0 [] ri c g)
  unfolding free_fields
  free_fields-Owns [] h apart o = o
  free_fields-Owns (f ∷ fs) h apart o =
      rw (load_req-ok h ri c o.at_ri, free-freed (c.ptr f) h (o.held f (first f fs)))
        (free_fields-Owns fs (freed (c.ptr f) h) apart.1 (free_one f fs h apart.0 o))

  Apart-fields : Apart fields
  unfolding code
  Apart-fields = (refl, (refl, (refl, (refl, (refl, (refl, (refl, (refl, tt))))))))

  -- Every block that the request owned is free again, and all else is as it was before the request.
  pub completed-restores :
      (h : Heap ReqBlock)
      → Owns h0 fields ri c h
      → Ends (completed ri h) (λ u g. (a : Ptr) → g.at a ≡ h0.at a)
  unfolding completed free
  completed-restores h o =
      Ends-bind (free_fields fields ri h) _ _ _ (free_fields-Owns fields h Apart-fields o)
        (λ u g o'.
          rw (o'.ri_null, o'.at_ri)
            (λ a. elim (Bool-cases (a == ri)) [
              | inl at_ri ↦ rw at_ri (sym o'.mine ∙ ap h0.at (sym (equal a at_ri)))
              | inr far ↦
                  write_other g ri a none far ∙ o'.spared a far (λ f i. absurd (ground arith))
            ]))
    where
      equal : (a : Ptr) → (a == ri) ≡ true → a ≡ ri
      equal a e = ground (arith, e)
