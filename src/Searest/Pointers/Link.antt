-- ===== src/Searest/Pointers/Link.antt =====
-- A list in memory with a new node behind its last one (searest_node_add of
-- src/searest_nodelist.c).
use webstore.Base.{
  ℕ, zero, suc, ◌<◌, ◌≡◌, refl, ap, ◌∙◌, true, false, ◌||◌, some, [], ◌∷◌, ◌++◌, arith, ◌==◌,
  length,
}
use webstore.Redis.{Redis}
use webstore.Searest.{Srn}
use webstore.Searest.Nodes.{last_num}
use webstore.Memory.{Ptr, null, Heap, ok}
use webstore.Searest.Pointers.{SrnCell, Block, node, node_last}
use webstore.Searest.Pointers.Chain.{
  Cells, has, nodes_of, cell, Placed, Chain, nil, cons, load_node-ok,
}

module _ {R : Redis} where
  unfoldable pub last_from : Ptr → Cells R → Ptr
  last_from p [] = p
  last_from p ((q, r, n) ∷ xs) = last_from q xs

  pub node_last-from :
      (k : ℕ) {h : Heap (Block R)} {prev p : Ptr} {x : Ptr × Ptr × Srn R} {xs : Cells R}
      → Chain h prev p (x ∷ xs)
      → length xs < k
      → node_last k p h ≡ ok (last_from p xs) h
  unfolding node_last last_from
  node_last-from zero s fuel = absurd (omega arith)
  node_last-from (suc k) {h} (cons {p = p} e nil) fuel = rw (load_node-ok h p _ e.p_holds) refl
  node_last-from (suc k) {h} (cons {p = p} e (cons e' s)) fuel =
      rw (load_node-ok h p _ e.p_holds, e'.p_null) (node_last-from k (cons e' s) (omega arith))

  pub has-append : (a : Ptr) (xs ys : Cells R) → has a (xs ++ ys) ≡ (has a xs || has a ys)
  has-append a [] ys = refl
  has-append a (x ∷ xs) ys = ground (arith, has-append a xs ys)

  pub nodes_of-append :
      (xs : Cells R) (p r : Ptr) (n : Srn R)
      → nodes_of (xs ++ (p, r, n) ∷ []) ≡ nodes_of xs ++ n ∷ []
  nodes_of-append [] p r n = refl
  nodes_of-append (x ∷ xs) p r n = ap (λ l. x.2 ∷ l) (nodes_of-append xs p r n)

  out_after :
      (a new s : Ptr) (m : Srn R) (xs : Cells R)
      → has a xs ≡ false
      → has a ((new, s, m) ∷ []) ≡ false
      → has a (xs ++ (new, s, m) ∷ []) ≡ false
  out_after a new s m xs out apart = ground (arith, has-append a xs ((new, s, m) ∷ []), out, apart)

  differs :
      (p new s r : Ptr) (n : Srn R) (xs : Cells R) (m : Srn R)
      → has new ((p, r, n) ∷ xs) ≡ false
      → has s ((p, r, n) ∷ xs) ≡ false
      → has p ((new, s, m) ∷ []) ≡ false
  differs p new s r n xs m new_out s_out = ground arith

  r_differs :
      (p new s r : Ptr) (n : Srn R) (xs : Cells R) (m : Srn R)
      → has new ((p, r, n) ∷ xs) ≡ false
      → has s ((p, r, n) ∷ xs) ≡ false
      → has r ((new, s, m) ∷ []) ≡ false
  r_differs p new s r n xs m new_out s_out = ground arith

  pub other : (a l : Ptr) (xs : Cells R) → has a xs ≡ false → has l xs ≡ true → (a == l) ≡ false
  other a l xs out in_xs = ground arith

  -- Memory `g` is `h` with the new node behind the last one, whose cell is `c`.
  pub record Linked (h g : Heap (Block R)) (l : Ptr) (c : SrnCell R) (new s : Ptr) (m : Srn R)
      (xs : Cells R) : Type 0 where
    pub linked : g.at l ≡ some (node (record c { next = new }))
    pub same : (a : Ptr) → has a xs ≡ true → (a == l) ≡ false → g.at a ≡ h.at a
    pub placed : Placed g l null new s m []
    pub new_out : has new xs ≡ false
    pub s_out : has s xs ≡ false

  -- The cell of the last node, which has the last number; and what linking a node behind it makes.
  pub last_cell :
      {h : Heap (Block R)} {prev p : Ptr} {x : Ptr × Ptr × Srn R} {xs : Cells R} (d : ℕ)
      → Chain h prev p (x ∷ xs)
      → (c : SrnCell R) × (h.at (last_from p xs) ≡ some (node c))
        × (c.num ≡ last_num d (nodes_of (x ∷ xs)))
        × ((last_from p xs == null) ≡ false)
        × (has (last_from p xs) (x ∷ xs) ≡ true)
        × ((g : Heap (Block R)) (new s : Ptr) (m : Srn R)
            → Linked h g (last_from p xs) c new s m (x ∷ xs)
            → Chain g prev p (x ∷ xs ++ (new, s, m) ∷ []))
  unfolding last_from last_num
  last_cell {h} {prev = b} d (cons {p = p} {r = r} {n = n} e nil) = (
    cell r n null b,
    e.p_holds,
    refl,
    e.p_null,
    ground arith,
    λ g new s m it.
        cons
          (record {
            p_null = e.p_null;
            r_null = e.r_null;
            apart = e.apart;
            p_out = differs p new s r n [] m it.new_out it.s_out;
            r_out = r_differs p new s r n [] m it.new_out it.s_out;
            p_holds = it.linked;
            r_holds = it.same r (ground arith) e.apart ∙ e.r_holds;
          })
          (cons it.placed nil),
  )
  last_cell {h} {prev = b} d (cons {p = p} {r = r} {q = q} {n = n} {xs = zs} e (cons e' s')) =
      let it = last_cell n.num (cons e' s') in
      (
        it.0,
        it.1,
        it.2,
        it.3,
        ground (arith, it.4),
        λ g new s m li.
            let placed = li.placed in
            cons
              (record {
                p_null = e.p_null;
                r_null = e.r_null;
                apart = e.apart;
                p_out =
                    out_after p new s m zs e.p_out (differs p new s r n zs m li.new_out li.s_out);
                r_out =
                    out_after r new s m zs e.r_out (r_differs p new s r n zs m li.new_out li.s_out);
                p_holds = li.same p (ground arith) (other p _ zs e.p_out it.4) ∙ e.p_holds;
                r_holds = li.same r (ground arith) (other r _ zs e.r_out it.4) ∙ e.r_holds;
              })
              (it.5 g new s m (record {
                linked = li.linked;
                same = λ a i. li.same a (ground (arith, i));
                placed = li.placed;
                new_out = ground (arith, li.new_out);
                s_out = ground (arith, li.s_out);
              })),
      )
