-- ===== src/Searest/Pointers/Stands.antt =====
-- One operation on the list with its pointers against the same one on the list of Searest/Nodes
-- (src/searest_nodelist.c).
use webstore.Base.{
  ℕ, ◌+◌, ◌%◌, ◌^◌, ◌<◌, ◌≡◌, refl, sym, ap, subst, ◌∙◌, Bool, true, false, Option, none, some,
  List, [], ◌∷◌, arith, ◌==◌, if◌then◌else◌, Bool-cases, inl, inr, length,
}
use webstore.Base.Bytes.{Bytes}
use webstore.Redis.{Redis}
use webstore.Searest.{Srn, NodeCallback}
use webstore.Searest.Nodes.{
  find_from, searest_node_find, update_at, searest_node_set_access, disabled_on, set_disabled,
  searest_node_set_disabled, searest_node_set_enabled, searest_node_is_disabled, searest_node_count,
  searest_node_add,
}
use webstore.Memory.{
  Ptr, null, Heap, ok, give, ◌>>=◌, ◌>>◌, store, write, IsHeap, write-IsHeap, Ends, Ends-bind,
  Ends-weaken,
}
use webstore.Searest.Pointers.{
  SrnCell, Block, node, load_node, node_find, node_set_access, node_set_disabled, node_add,
}
use webstore.Searest.Pointers.Chain.{Cells, has, nodes_of, Chain, load_node-ok}
use webstore.Memory.{store-ok}
use webstore.Searest.Pointers.Walk.{
  At, Found, node_find-Found, node_count-last, change_at, nodes_of-change, has-change, Changes,
  At-change,
}
use webstore.Searest.Pointers.Add.{node_add-Added}
use webstore.Searest.Pointers.Ops.{
  ListOp, add, disable, enable, visit, count, visited, run_op, visited_on, on_list,
}

module _ {R : Redis} where
  length-nodes_of : (xs : Cells R) → length (nodes_of xs) ≡ length xs
  length-nodes_of [] = refl
  length-nodes_of (x ∷ xs) = omega (arith, length-nodes_of xs)

  -- Memory holds the list of the nodes from `head`, in blocks that were free in `h0`, and all else is
  -- as in `h0`.
  pub record Stands (h0 : Heap (Block R)) (nodes : List (Srn R)) (head : Ptr) (h : Heap (Block R))
      : Type 0 where
    pub good : IsHeap h
    pub cells : Cells R
    pub chain : Chain h null head cells
    pub same_nodes : nodes_of cells ≡ nodes
    pub spared : (a : Ptr) → has a cells ≡ false → h.at a ≡ h0.at a
    pub fresh : (a : Ptr) → has a cells ≡ true → h0.at a ≡ none

  pub rounds :
      (nodes : List (Srn R)) (k : ℕ) (xs : Cells R)
      → nodes_of xs ≡ nodes
      → length nodes < k
      → length xs < k
  rounds nodes k xs e h = omega (arith, length-nodes_of xs, ap length e)

  module _ (h0 : Heap (Block R)) where
    add-Stands :
        (k : ℕ) (rootname : Bytes) (func : NodeCallback R) (nodes : List (Srn R)) (p : Ptr)
        (h : Heap (Block R))
        → Stands h0 nodes p h
        → length nodes < k
        → Ends (node_add k rootname func p h) (Stands h0 (searest_node_add rootname func nodes))
    add-Stands k rootname func nodes p h st fuel =
        Ends-weaken (node_add k rootname func p h) _ _
          (node_add-Added k rootname func st.good st.chain
            (rounds nodes k st.cells st.same_nodes fuel))
          (λ q g it. record {
            good = it.good;
            cells = it.cells;
            chain = it.chain;
            same_nodes = it.same_nodes ∙ ap (searest_node_add rootname func) st.same_nodes;
            spared = λ a out. it.spared a out ∙ st.spared a (it.kept a out);
            fresh = λ a i. elim (Bool-cases (has a st.cells)) [
              | inl old ↦ st.fresh a old
              | inr new ↦ sym (st.spared a new) ∙ it.grown a i new
            ];
          })

    -- a search that finds its node in the memory
    find-Stands :
        (k : ℕ) (url : Bytes) (nodes : List (Srn R)) (p : Ptr) (h : Heap (Block R))
        (st : Stands h0 nodes p h)
        → length nodes < k
        → Ends
            (node_find k url p h)
            (λ q g. (g ≡ h) × Found 0 st.cells (searest_node_find url nodes) q)
    unfolding searest_node_find
    find-Stands k url nodes p h st fuel =
        Ends-weaken (node_find k url p h) _ _
          (node_find-Found k 0 url st.chain (rounds nodes k st.cells st.same_nodes fuel))
          (λ q g it. (it.0, subst (λ l. Found 0 st.cells (find_from 0 url l) q) st.same_nodes it.1))

    -- a node that was found can be read, and written back with a change
    change-Stands :
        (f : Srn R → Srn R) (F : SrnCell R → SrnCell R)
        → Changes f F
        → (nodes : List (Srn R)) (head p : Ptr) (n : Srn R) (i : ℕ) (h : Heap (Block R))
          (st : Stands h0 nodes head h)
        → At p n i 0 st.cells
        → (c : SrnCell R) × (h.at p ≡ some (node c))
          × ((p == null) ≡ false)
          × (c.disabled ≡ n.disabled)
          × Stands h0 (update_at i f nodes) head (write h p (some (node (F c))))
    unfolding write
    change-Stands f F same nodes head p n i h st at =
        let it = At-change f F same at st.chain in
        let k = it.5.0 in
        (
          it.0,
          it.1,
          it.2,
          it.4,
          record {
            good = write-IsHeap h p (node (F it.0)) (node it.0) st.good it.1;
            cells = change_at k f st.cells;
            chain = it.5.2;
            same_nodes =
                nodes_of-change k f st.cells
                ∙ ap (update_at k f) st.same_nodes
                ∙ ap (λ j. update_at j f nodes) (omega (arith, it.5.1));
            spared = λ a out. ground (arith, has-change k f a st.cells, out, it.3, st.spared a);
            fresh = λ a i'. st.fresh a (sym (has-change k f a st.cells) ∙ i');
          },
        )

    -- what an operation answers, and what it leaves
    abbrev pub Did : ℕ × List (Srn R) → ℕ × Ptr → Heap (Block R) → Type 0
    Did answer r g = (r.0 ≡ answer.0) × Stands h0 answer.1 r.1 g

    disabling :
        (b : Bool)
        → Changes {R = R} (λ n. record n { disabled = b }) (λ c. record c { disabled = b })
    disabling b = record { same_root = λ n. refl; in_cell = λ n r next prev. refl }

    accessing :
        (now : ℕ)
        → Changes {R = R}
            (searest_node_set_access now)
            (λ c. record c { last_atime = now; acount = (c.acount + 1) % 2 ^ 64 })
    unfolding searest_node_set_access
    accessing now = record { same_root = λ n. refl; in_cell = λ n r next prev. refl }

    access-ok :
        (now : ℕ) (q : Ptr) (c : SrnCell R) (h : Heap (Block R))
        → h.at q ≡ some (node c)
        → node_set_access now q h
          ≡ ok tt (
              write h q
                (some (node (record c { last_atime = now; acount = (c.acount + 1) % 2 ^ 64 }))))
    unfolding node_set_access
    access-ok now q c h e = rw (load_node-ok h q c e, store-ok h q (node c) _ e) refl

    -- setting or clearing the flag of what was found
    disabled-Did :
        (b : Bool) (nodes : List (Srn R)) (head : Ptr) (h : Heap (Block R))
        (st : Stands h0 nodes head h) (o : Option (ℕ × Srn R)) (q : Ptr)
        → Found 0 st.cells o q
        → Ends
            ((if q == null
                then give 1
                else do c ← load_node q; store q (node (record c { disabled = b })); give 0)
              h)
            (λ z g. Did (disabled_on b nodes o) (z, head) g)
    unfolding disabled_on
    disabled-Did b nodes head h st none q e = rw e (refl, st)
    disabled-Did b nodes head h st (some (i, n)) q at =
        let it = change-Stands _ _ (disabling b) nodes head q n i h st at in
        rw
          (
            it.2,
            load_node-ok h q it.0 it.1,
            store-ok h q (node it.0) (node (record it.0 { disabled = b })) it.1,
          )
          (refl, it.4)

    set_disabled-Did :
        (b : Bool) (k : ℕ) (rootname : Bytes) (nodes : List (Srn R)) (p : Ptr) (h : Heap (Block R))
        → Stands h0 nodes p h
        → length nodes < k
        → Ends
            (node_set_disabled b k rootname p h)
            (λ z g. Did (set_disabled b rootname nodes) (z, p) g)
    unfolding node_set_disabled set_disabled
    set_disabled-Did b k rootname nodes p h st fuel =
        Ends-bind (node_find k rootname p h) _ _ _ (find-Stands k rootname nodes p h st fuel)
          (λ q g e. rw e.0 (disabled-Did b nodes p h st (searest_node_find rootname nodes) q e.1))

    visited-Did :
        (now : ℕ) (nodes : List (Srn R)) (head : Ptr) (h : Heap (Block R))
        (st : Stands h0 nodes head h) (o : Option (ℕ × Srn R)) (q : Ptr)
        → Found 0 st.cells o q
        → Ends (visited now head q h) (Did (visited_on now nodes o))
    unfolding visited visited_on searest_node_is_disabled
    visited-Did now nodes head h st none q e = rw e (refl, st)
    visited-Did now nodes head h st (some (i, n)) q at =
        let it = change-Stands _ _ (accessing now) nodes head q n i h st at in
        elim (Bool-cases n.disabled) [
          | inl off ↦ rw (it.2, load_node-ok h q it.0 it.1, it.3, off) (refl, st)
          | inr on ↦
              rw (it.2, load_node-ok h q it.0 it.1, it.3, on, access-ok now q it.0 h it.1)
                (refl, it.4)
        ]

    pub run_op-Did :
        (k : ℕ) (op : ListOp R) (nodes : List (Srn R)) (p : Ptr) (h : Heap (Block R))
        → Stands h0 nodes p h
        → length nodes < k
        → Ends (run_op k op p h) (Did (on_list op nodes))
    unfolding run_op on_list searest_node_set_disabled searest_node_set_enabled searest_node_count
    run_op-Did k (add rootname func) nodes p h st fuel =
        Ends-bind (node_add k rootname func p h) _ _ _
          (add-Stands k rootname func nodes p h st fuel) (λ q g it. (refl, it))
    run_op-Did k (disable rootname) nodes p h st fuel =
        Ends-bind (node_set_disabled true k rootname p h) _ _ _
          (set_disabled-Did true k rootname nodes p h st fuel) (λ z g it. it)
    run_op-Did k (enable rootname) nodes p h st fuel =
        Ends-bind (node_set_disabled false k rootname p h) _ _ _
          (set_disabled-Did false k rootname nodes p h st fuel) (λ z g it. it)
    run_op-Did k (visit url now) nodes p h st fuel =
        Ends-bind (node_find k url p h) _ _ _ (find-Stands k url nodes p h st fuel)
          (λ q g e. rw e.0 (visited-Did now nodes p h st (searest_node_find url nodes) q e.1))
    run_op-Did k count nodes p h st fuel =
        rw
          (node_count-last k 0 st.chain (rounds nodes k st.cells st.same_nodes fuel), st.same_nodes)
          (refl, st)
