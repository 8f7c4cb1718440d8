-- ===== src/Searest/Pointers/Refine.antt =====
-- The list with its pointers does what the list of Searest/Nodes does, and gives all its memory back
-- (src/searest_nodelist.c).
use webstore.Base.{
  ℕ, zero, suc, ◌+◌, ◌≤◌, ◌<◌, ◌≡◌, refl, sym, ap, ◌∙◌, Bool, true, false, Option, none, some, List,
  [], ◌∷◌, arith, Bool-cases, inl, inr, length, length-append,
}
use webstore.Redis.{Redis}
use webstore.Searest.{Srn}
use webstore.Searest.Nodes.{
  searest_node_find, update_at, searest_node_set_access, disabled_on, set_disabled,
  searest_node_set_disabled, searest_node_set_enabled, searest_node_is_disabled, searest_node_add,
}
use webstore.Memory.{Ptr, null, Heap, IsHeap, Ends, Ends-bind}
use webstore.Searest.Pointers.{Block, node_destroy_all}
use webstore.Searest.Pointers.Chain.{has, nil}
use webstore.Searest.Pointers.Destroy.{Gone, node_destroy_all-Gone}
use webstore.Searest.Pointers.Ops.{
  ListOp, add, disable, enable, visit, count, run_op, run_ops, visited_on, on_list, on_lists,
  lifetime,
}
use webstore.Searest.Pointers.Stands.{Stands, rounds, run_op-Did}

module _ {R : Redis} where
  length-update_at :
      (i : ℕ) (f : Srn R → Srn R) (nodes : List (Srn R))
      → length (update_at i f nodes) ≡ length nodes
  unfolding update_at
  length-update_at i f [] = refl
  length-update_at zero f (n ∷ ns) = refl
  length-update_at (suc i) f (n ∷ ns) = ap suc (length-update_at i f ns)

  disabled-longer :
      (b : Bool) (nodes : List (Srn R)) (o : Option (ℕ × Srn R))
      → length (disabled_on b nodes o).1 ≤ suc (length nodes)
  unfolding disabled_on
  disabled-longer b nodes none = omega arith
  disabled-longer b nodes (some (i, n)) =
      omega (arith, length-update_at i (λ m. record m { disabled = b }) nodes)

  visited_on-longer :
      (now : ℕ) (nodes : List (Srn R)) (o : Option (ℕ × Srn R))
      → length (visited_on now nodes o).1 ≤ suc (length nodes)
  unfolding visited_on
  visited_on-longer now nodes none = omega arith
  visited_on-longer now nodes (some (i, n)) = elim (Bool-cases (searest_node_is_disabled n)) [
    | inl off ↦ rw off (omega arith)
    | inr on ↦ rw on (omega (arith, length-update_at i (searest_node_set_access now) nodes))
  ]

  longer : (op : ListOp R) (nodes : List (Srn R)) → length (on_list op nodes).1 ≤ suc (length nodes)
  unfolding on_list set_disabled searest_node_set_disabled searest_node_set_enabled searest_node_add
  longer (add rootname func) nodes = omega (arith, length-append nodes (_ ∷ []))
  longer (disable rootname) nodes = disabled-longer true nodes (searest_node_find rootname nodes)
  longer (enable rootname) nodes = disabled-longer false nodes (searest_node_find rootname nodes)
  longer (visit url now) nodes = visited_on-longer now nodes (searest_node_find url nodes)
  longer count nodes = omega arith

  all_longer :
      (ops : List (ListOp R)) (nodes : List (Srn R))
      → length (on_lists ops nodes).1 ≤ length nodes + length ops
  unfolding on_lists
  all_longer [] nodes = omega arith
  all_longer (op ∷ ops) nodes = omega (arith, all_longer ops (on_list op nodes).1, longer op nodes)

  module _ (h0 : Heap (Block R)) where
    run_ops-Did :
        (k : ℕ) (ops : List (ListOp R)) (nodes : List (Srn R)) (p : Ptr) (h : Heap (Block R))
        → Stands h0 nodes p h
        → length nodes + length ops < k
        → Ends
            (run_ops k ops p h)
            (λ r g. (r.0 ≡ (on_lists ops nodes).0) × Stands h0 (on_lists ops nodes).1 r.1 g)
    unfolding run_ops on_lists
    run_ops-Did k [] nodes p h st fuel = (refl, st)
    run_ops-Did k (op ∷ ops) nodes p h st fuel =
        Ends-bind (run_op k op p h) _ _ _ (run_op-Did h0 k op nodes p h st (omega arith))
          (λ r g did.
            Ends-bind (run_ops k ops r.1 g) _ _ _
              (run_ops-Did k ops (on_list op nodes).1 r.1 g did.1 (omega (arith, longer op nodes)))
              (λ rest g' it. (rw (did.0, it.0) refl, it.1)))

    start-Stands : IsHeap h0 → Stands h0 [] null h0
    start-Stands good = record {
      good = good;
      cells = [];
      chain = nil;
      same_nodes = refl;
      spared = λ a out. refl;
      fresh = λ a i. absurd (ground arith);
    }

    -- Whatever is done with the list of an instance from its first node on, the walks over the
    -- pointers end, use no memory that they must not, and answer what the list of Searest/Nodes
    -- answers; and memory then holds that list, its blocks new and all others as they were.
    pub nodelist_refines :
        (ops : List (ListOp R))
        → IsHeap h0
        → Ends
            (run_ops (suc (length ops)) ops null h0)
            (λ r g. (r.0 ≡ (on_lists ops []).0) × Stands h0 (on_lists ops []).1 r.1 g)
    nodelist_refines ops good =
        run_ops-Did (suc (length ops)) ops [] null h0 (start-Stands good) (omega arith)

    restored :
        (nodes : List (Srn R)) (p : Ptr) (h g : Heap (Block R)) (st : Stands h0 nodes p h)
        → Gone st.cells h g
        → (a : Ptr) → g.at a ≡ h0.at a
    restored nodes p h g st gone a = elim (Bool-cases (has a st.cells)) [
      | inl mine ↦ gone a ∙ rw mine (sym (st.fresh a mine))
      | inr out ↦ gone a ∙ rw out (st.spared a out)
    ]

    -- Whatever is done with the list in between, searest_node_destroy_all at its end frees every
    -- block that it took, each once, and no other: memory is as it was before the first node.
    pub nodelist_frees :
        (ops : List (ListOp R))
        → IsHeap h0
        → Ends
            (lifetime ops h0)
            (λ zs g. (zs ≡ (on_lists ops []).0) × ((a : Ptr) → g.at a ≡ h0.at a))
    unfolding lifetime
    nodelist_frees ops good =
        Ends-bind (run_ops (suc (length ops)) ops null h0) _ _ _ (nodelist_refines ops good)
          (λ r h it.
            Ends-bind (node_destroy_all (suc (length ops)) r.1 h) _ _ _
              (node_destroy_all-Gone (suc (length ops)) it.1.chain (
                rounds (on_lists ops []).1 _ it.1.cells it.1.same_nodes
                  (omega (arith, all_longer ops []))))
              (λ u g gone. (it.0, restored (on_lists ops []).1 r.1 h g it.1 gone)))
