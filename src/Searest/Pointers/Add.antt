-- ===== src/Searest/Pointers/Add.antt =====
-- searest_node_add with its pointers (src/searest_nodelist.c), against the same function on a list.
use webstore.Base.{
  ℕ, ◌+◌, ◌%◌, ◌^◌, ◌<◌, ◌≡◌, refl, sym, ◌∙◌, true, false, some, [], ◌∷◌, ◌++◌, arith, ◌==◌, length,
  ==-sym,
}
use webstore.Base.Bytes.{Bytes}
use webstore.Redis.{Redis}
use webstore.Searest.{Srn, NodeCallback}
use webstore.Searest.Nodes.{last_num, searest_node_add}
use webstore.Memory.{
  Ptr, null, Heap, ok, write, write_same, write_other, with_new, with_new_same, with_new_other,
  alloc, IsHeap, Ends,
}
use webstore.Searest.Pointers.{SrnCell, Block, node, str, zeroed, number, fill, node_add}
use webstore.Searest.Pointers.Link.{other, last_from, node_last-from, last_cell, Linked}
use webstore.Searest.Pointers.Added.{Added, first_heap, first-Added, linked_heap, Linked-Added}
use webstore.Searest.Pointers.Chain.{
  Cells, has, nodes_of, Chain, nil, cons, load_node-ok, not-mem_of_none,
}
use webstore.Memory.{store-ok}

module _ {R : Redis} where
  head_null :
      {h : Heap (Block R)} {prev p : Ptr} {x : Ptr × Ptr × Srn R} {xs : Cells R}
      → Chain h prev p (x ∷ xs)
      → (p == null) ≡ false
  head_null (cons e s) = e.p_null

  number-linked :
      (h : Heap (Block R)) (l new : Ptr) (c z : SrnCell R)
      → h.at l ≡ some (node c)
      → h.at new ≡ some (node z)
      → (new == l) ≡ false
      → (l == null) ≡ false
      → number l new h
        ≡ ok tt (
            write
              (write
                (write h l (some (node (record c { next = new }))))
                new
                (some (node (record z { prev = l }))))
              new
              (some (node (record z { prev = l; num = (c.num + 1) % 2 ^ 32 }))))
  unfolding number
  number-linked h l new c z at_l at_new apart l_null =
      rw
        (
          l_null,
          load_node-ok h l c at_l,
          store-ok h l (node c) (node (record c { next = new })) at_l,
          load_node-ok h1 new z at_new1,
          store-ok h1 new (node z) (node (record z { prev = l })) at_new1,
          load_node-ok h2 new (record z { prev = l }) at_new2,
          load_node-ok h2 l (record c { next = new }) at_l2,
          store-ok h2 new (node (record z { prev = l }))
              (node (record z { prev = l; num = (c.num + 1) % 2 ^ 32 })) at_new2,
        )
        refl
    where
      h1 : Heap (Block R)
      h1 = write h l (some (node (record c { next = new })))

      h2 : Heap (Block R)
      h2 = write h1 new (some (node (record z { prev = l })))

      at_new1 : h1.at new ≡ some (node z)
      at_new1 = write_other h l new _ apart ∙ at_new

      at_new2 : h2.at new ≡ some (node (record z { prev = l }))
      at_new2 = write_same h1 new _

      at_l2 : h2.at l ≡ some (node (record c { next = new }))
      at_l2 = write_other h1 new l _ (==-sym new l ∙ apart) ∙ write_same h l _

  number-first :
      (h : Heap (Block R)) (new : Ptr) (z : SrnCell R)
      → h.at new ≡ some (node z)
      → number null new h ≡ ok tt (write h new (some (node (record z { num = 1 }))))
  unfolding number
  number-first h new z at_new =
      rw (load_node-ok h new z at_new, store-ok h new (node z) _ at_new) refl

  fill-ok :
      (h : Heap (Block R)) (rootname : Bytes) (func : NodeCallback R) (new : Ptr) (z : SrnCell R)
      → h.at new ≡ some (node z)
      → (new == h.next) ≡ false
      → fill rootname func new h
        ≡ ok tt (
            write
              (with_new h (str rootname))
              new
              (some (node (record z { root = h.next; cb = some func }))))
  unfolding fill alloc
  fill-ok h rootname func new z at_new apart =
      rw (load_node-ok h1 new z at_new1, store-ok h1 new (node z) _ at_new1) refl
    where
      h1 : Heap (Block R)
      h1 = with_new h (str rootname)

      at_new1 : h1.at new ≡ some (node z)
      at_new1 = with_new_other h new (str rootname) apart ∙ at_new

  pub node_add-Added :
      (k : ℕ) (rootname : Bytes) (func : NodeCallback R) {h : Heap (Block R)} {p : Ptr}
      {xs : Cells R}
      → IsHeap h
      → Chain h null p xs
      → length xs < k
      → Ends
          (node_add k rootname func p h)
          (Added h xs (searest_node_add rootname func (nodes_of xs)))
  unfolding node_add alloc searest_node_add last_num first_heap linked_heap
  node_add-Added k rootname func {h} {xs = []} good nil fuel =
      rw
        (
          number-first h1 h.next zeroed (with_new_same h (node zeroed)),
          fill-ok h2 rootname func h.next (record zeroed { num = 1 }) (write_same h1 h.next _)
              (ground arith),
        )
        (first-Added rootname func h good)
    where
      h1 : Heap (Block R)
      h1 = with_new h (node zeroed)

      h2 : Heap (Block R)
      h2 = write h1 h.next (some (node (record zeroed { num = 1 })))
  node_add-Added k rootname func {h} {p = p} {xs = x ∷ xs} good s fuel =
      rw
        (
          head_null s,
          node_last-from k s (omega arith),
          number-linked h1 l h.next c zeroed (with_new_other h l (node zeroed) far ∙ it.1)
              (with_new_same h (node zeroed)) apart it.3,
          fill-ok (write h2 h.next (some (node z))) rootname func h.next z
              (write_same h2 h.next (some (node z))) (ground arith),
          sym it.2,
        )
        (Linked-Added rootname func l c good s it.1 it.4 it.5)
    where
      l : Ptr
      l = last_from p xs

      it :
          (c : SrnCell R) × (h.at l ≡ some (node c))
          × (c.num ≡ last_num 0 (nodes_of (x ∷ xs)))
          × ((l == null) ≡ false)
          × (has l (x ∷ xs) ≡ true)
          × ((g : Heap (Block R)) (new s : Ptr) (m : Srn R)
              → Linked h g l c new s m (x ∷ xs)
              → Chain g null p (x ∷ xs ++ (new, s, m) ∷ []))
      it = last_cell 0 s

      c : SrnCell R
      c = it.0

      apart : (h.next == l) ≡ false
      apart =
          other h.next l (x ∷ xs) (not-mem_of_none h.next s (good.fresh h.next (omega arith))) it.4

      far : (l == h.next) ≡ false
      far = ==-sym h.next l ∙ apart

      z : SrnCell R
      z = record zeroed { prev = l; num = (c.num + 1) % 2 ^ 32 }

      h1 : Heap (Block R)
      h1 = with_new h (node zeroed)

      h2 : Heap (Block R)
      h2 =
          write (write h1 l (some (node (record c { next = h.next })))) h.next
            (some (node (record zeroed { prev = l })))
