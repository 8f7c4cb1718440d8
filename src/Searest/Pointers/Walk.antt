-- ===== src/Searest/Pointers/Walk.antt =====
-- The walks that find a node or count them, and the changes of a node that was found
-- (src/searest_nodelist.c), against the same functions on a list.
use webstore.Base.{
  ℕ, zero, suc, ◌+◌, ◌<◌, ◌≡◌, refl, ap, ◌∙◌, true, false, Option, none, some, [], ◌∷◌, arith, ◌==◌,
  Bool-cases, inl, inr, length,
}
use webstore.Base.Bytes.{Bytes, starts_with}
use webstore.Redis.{Redis}
use webstore.Searest.{Srn}
use webstore.Searest.Nodes.{find_from, update_at, last_num}
use webstore.Memory.{Ptr, null, Heap, ok, write, Ends, Ends-weaken}
use webstore.Searest.Pointers.{SrnCell, Block, node, node_find, node_count}
use webstore.Searest.Pointers.Chain.{
  Cells, has, nodes_of, cell, Chain, nil, cons, load_node-ok, load_str-ok, frame,
}

module _ {R : Redis} where
  -- the `i`th node is `n`, at `p`; the first one counts as the `j`th
  pub data At (p : Ptr) (n : Srn R) (i : ℕ) : ℕ → Cells R → Type 0 where
    first : {r : Ptr} {xs : Cells R} → At p n i i ((p, r, n) ∷ xs)
    later :
        {j : ℕ} {x : Ptr × Ptr × Srn R} {xs : Cells R} → At p n i (suc j) xs → At p n i j (x ∷ xs)

  -- what a search answers, as a pointer
  abbrev pub Found : ℕ → Cells R → Option (ℕ × Srn R) → Ptr → Type 0
  Found j xs none p = p ≡ null
  Found j xs (some (i, n)) p = At p n i j xs

  Found-later :
      (j : ℕ) (x : Ptr × Ptr × Srn R) (xs : Cells R) (o : Option (ℕ × Srn R)) (p : Ptr)
      → Found (suc j) xs o p
      → Found j (x ∷ xs) o p
  Found-later j x xs none p e = e
  Found-later j x xs (some (i, n)) p e = later e

  pub node_find-Found :
      (k j : ℕ) {h : Heap (Block R)} {prev p : Ptr} {xs : Cells R} (url : Bytes)
      → Chain h prev p xs
      → length xs < k
      → Ends (node_find k url p h) (λ q g. (g ≡ h) × Found j xs (find_from j url (nodes_of xs)) q)
  unfolding node_find find_from
  node_find-Found zero j url s fuel = absurd (omega arith)
  node_find-Found (suc k) j url nil fuel = (refl, refl)
  node_find-Found (suc k) j {h} url (cons {p = p} {r = r} {q = q} {n = n} {xs = xs} e s) fuel =
      elim (Bool-cases (starts_with url n.root)) [
        | inl hit ↦
            rw (e.p_null, load_node-ok h p _ e.p_holds, load_str-ok h r _ e.r_holds, hit)
              (refl, first)
        | inr miss ↦
            rw (e.p_null, load_node-ok h p _ e.p_holds, load_str-ok h r _ e.r_holds, miss)
              (Ends-weaken (node_find k url q h) _ _ (node_find-Found k (suc j) url s (omega arith))
                (λ a g e'.
                  (e'.0, Found-later j (p, r, n) xs (find_from (suc j) url (nodes_of xs)) a e'.1)))
      ]

  pub node_count-last :
      (k retval : ℕ) {h : Heap (Block R)} {prev p : Ptr} {xs : Cells R}
      → Chain h prev p xs
      → length xs < k
      → node_count k retval p h ≡ ok (last_num retval (nodes_of xs)) h
  unfolding node_count last_num
  node_count-last zero retval s fuel = absurd (omega arith)
  node_count-last (suc k) retval nil fuel = refl
  node_count-last (suc k) retval {h} (cons {p = p} e s) fuel =
      rw (e.p_null, load_node-ok h p _ e.p_holds) (node_count-last k _ s (omega arith))

  -- the cells with a change of the `k`th node
  unfoldable pub change_at : ℕ → (Srn R → Srn R) → Cells R → Cells R
  change_at k f [] = []
  change_at zero f ((p, r, n) ∷ xs) = (p, r, f n) ∷ xs
  change_at (suc k) f (x ∷ xs) = x ∷ change_at k f xs

  pub nodes_of-change :
      (k : ℕ) (f : Srn R → Srn R) (xs : Cells R)
      → nodes_of (change_at k f xs) ≡ update_at k f (nodes_of xs)
  unfolding change_at update_at
  nodes_of-change zero f [] = refl
  nodes_of-change (suc k) f [] = refl
  nodes_of-change zero f (x ∷ xs) = refl
  nodes_of-change (suc k) f (x ∷ xs) = ap (λ l. x.2 ∷ l) (nodes_of-change k f xs)

  pub has-change :
      (k : ℕ) (f : Srn R → Srn R) (a : Ptr) (xs : Cells R) → has a (change_at k f xs) ≡ has a xs
  unfolding change_at
  has-change zero f a [] = refl
  has-change (suc k) f a [] = refl
  has-change zero f a (x ∷ xs) = refl
  has-change (suc k) f a (x ∷ xs) = rw (has-change k f a xs) refl

  -- A change of a cell in memory that is a change of the node: it leaves the pointers and the root.
  pub record Changes (f : Srn R → Srn R) (F : SrnCell R → SrnCell R) : Type 0 where
    pub same_root : (n : Srn R) → (f n).root ≡ n.root
    pub in_cell : (n : Srn R) (r next prev : Ptr) → F (cell r n next prev) ≡ cell r (f n) next prev

  -- The node at `p` can be read, and written back with a change.
  pub At-change :
      (f : Srn R → Srn R) (F : SrnCell R → SrnCell R)
      → Changes f F
      → {p : Ptr} {n : Srn R} {i j : ℕ} {h : Heap (Block R)} {prev head : Ptr} {xs : Cells R}
      → At p n i j xs
      → Chain h prev head xs
      → (c : SrnCell R) × (h.at p ≡ some (node c))
        × ((p == null) ≡ false)
        × (has p xs ≡ true)
        × (c.disabled ≡ n.disabled)
        × ((k : ℕ) × (i ≡ j + k)
            × Chain (write h p (some (node (F c)))) prev head (change_at k f xs))
  unfolding change_at write
  At-change f F same {p = p} {h = h} first (cons {prev = prev} {r = r} {q = q} {n = n} e s) = (
    cell r n q prev,
    e.p_holds,
    e.p_null,
    ground arith,
    refl,
    (
      zero,
      omega arith,
      cons
          (record {
            p_null = e.p_null;
            r_null = e.r_null;
            apart = e.apart;
            p_out = e.p_out;
            r_out = e.r_out;
            p_holds = ground (arith, same.in_cell n r q prev);
            r_holds = rw same.same_root (ground (arith, e.apart, e.r_holds));
          })
          (frame s (λ a i. ground (arith, e.p_out))),
    ),
  )
  At-change f F same {p = p} {h = h} {prev = b} (later {x = x} {xs = xs} a) (cons {q = q} e s) =
      let it = At-change f F same a s in
      let k = it.5.0 in
      (
        it.0,
        it.1,
        it.2,
        ground (arith, it.3),
        it.4,
        (
          suc k,
          omega (arith, it.5.1),
          cons
              (record {
                p_null = e.p_null;
                r_null = e.r_null;
                apart = e.apart;
                p_out = has-change k f x.0 xs ∙ e.p_out;
                r_out = has-change k f x.1 xs ∙ e.r_out;
                p_holds = ground (arith, e.p_out, e.p_holds, it.3);
                r_holds = ground (arith, e.r_out, e.r_holds, it.3);
              })
              it.5.2,
        ),
      )
