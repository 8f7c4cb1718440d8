-- ===== src/Searest/Pointers/Destroy.antt =====
-- The end of the list: searest_node_destroy_all (src/searest_nodelist.c).
use webstore.Base.{
  ℕ, zero, suc, ◌<◌, ◌≡◌, refl, ◌∙◌, true, false, none, some, ◌∷◌, arith, if◌then◌else◌, length,
  ==-sym,
}
use webstore.Redis.{Redis}
use webstore.Searest.{Srn}
use webstore.Memory.{Ptr, Heap, write, write_other, free-ok, Ends, Ends-weaken}
use webstore.Searest.Pointers.{Block, node, str, node_destroy_all}
use webstore.Searest.Pointers.Chain.{Cells, has, cell, Chain, nil, cons, load_node-ok, frame}

module _ {R : Redis} where
  -- All that is gone are the blocks of the chain, and all of them are.
  abbrev pub Gone : Cells R → Heap (Block R) → Heap (Block R) → Type 0
  Gone xs h g = (a : Ptr) → g.at a ≡ (if has a xs then none else h.at a)

  Gone-both :
      (h g : Heap (Block R)) (p r : Ptr) (n : Srn R) (xs : Cells R)
      → Gone xs (write (write h r none) p none) g
      → Gone ((p, r, n) ∷ xs) h g
  unfolding write
  Gone-both h g p r n xs gone a = ground (arith, gone a)

  spares :
      (h : Heap (Block R)) (p r : Ptr) (xs : Cells R)
      → has p xs ≡ false
      → has r xs ≡ false
      → (a : Ptr) → has a xs ≡ true
      → (write (write h r none) p none).at a ≡ h.at a
  unfolding write
  spares h p r xs p_out r_out a i = ground (arith, p_out, r_out, i)

  pub node_destroy_all-Gone :
      (k : ℕ) {h : Heap (Block R)} {prev p : Ptr} {xs : Cells R}
      → Chain h prev p xs
      → length xs < k
      → Ends (node_destroy_all k p h) (λ u g. Gone xs h g)
  unfolding node_destroy_all
  node_destroy_all-Gone zero s fuel = absurd (omega arith)
  node_destroy_all-Gone (suc k) nil fuel = λ a. refl
  node_destroy_all-Gone (suc k) {h} {prev = b} (cons {p = p} {r = r} {q = q} {n = n} {xs = xs} e s)
        fuel =
      rw
        (
          e.p_null,
          load_node-ok h p (cell r n q b) e.p_holds,
          free-ok h r (str n.root) e.r_null e.r_holds,
          load_node-ok (write h r none) p (cell r n q b) still,
          free-ok (write h r none) p (node (cell r n q b)) e.p_null still,
        )
        (Ends-weaken (node_destroy_all k q (write (write h r none) p none)) _ _
          (node_destroy_all-Gone k (frame s (spares h p r xs e.p_out e.r_out)) (omega arith))
          (λ u g gone. Gone-both h g p r n xs gone))
    where
      still : (write h r none).at p ≡ some (node (cell r n q b))
      still = write_other h r p none (==-sym r p ∙ e.apart) ∙ e.p_holds
