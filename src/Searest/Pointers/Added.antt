-- ===== src/Searest/Pointers/Added.antt =====
-- What an addition leaves in memory (searest_node_add of src/searest_nodelist.c).
use webstore.Base.{
  ℕ, suc, ◌+◌, ◌%◌, ◌^◌, ◌≡◌, refl, true, false, none, some, List, [], ◌∷◌, ◌++◌, arith, ◌==◌,
}
use webstore.Base.Bytes.{Bytes}
use webstore.Redis.{Redis}
use webstore.Searest.{Srn, NodeCallback}
use webstore.Memory.{Ptr, null, Heap, write, with_new, IsHeap}
use webstore.Searest.Pointers.{SrnCell, Block, node, str, zeroed}
use webstore.Searest.Pointers.Chain.{Cells, has, nodes_of, cell, Chain, nil, cons, not-mem_of_none}
use webstore.Searest.Pointers.Link.{has-append, nodes_of-append, other, Linked}

module _ {R : Redis} where
  -- What an addition does: the list has the new node, the blocks of the chain are the old ones and
  -- new ones, and all else is as it was.
  pub record Added (h : Heap (Block R)) (xs : Cells R) (nodes : List (Srn R)) (q : Ptr)
      (g : Heap (Block R)) : Type 0 where
    pub good : IsHeap g
    pub cells : Cells R
    pub chain : Chain g null q cells
    pub same_nodes : nodes_of cells ≡ nodes
    pub spared : (a : Ptr) → has a cells ≡ false → g.at a ≡ h.at a
    pub kept : (a : Ptr) → has a cells ≡ false → has a xs ≡ false
    pub grown : (a : Ptr) → has a cells ≡ true → has a xs ≡ false → h.at a ≡ none

  -- the new node, as searest_node_add makes it
  abbrev pub new_node : Bytes → NodeCallback R → ℕ → Srn R
  new_node rootname func num = record {
    num = num;
    disabled = false;
    root = rootname;
    cb = func;
    last_atime = 0;
    acount = 0;
  }

  -- memory after the first node, after another one
  unfoldable pub first_heap : Heap (Block R) → Bytes → NodeCallback R → Heap (Block R)
  first_heap h rootname func =
      write
        (with_new
          (write (with_new h (node zeroed)) h.next (some (node (record zeroed { num = 1 }))))
          (str rootname))
        h.next (some (node (cell (suc h.next) (new_node rootname func 1) null null)))

  pub first-Added :
      (rootname : Bytes) (func : NodeCallback R) (h : Heap (Block R))
      → IsHeap h
      → Added h [] (new_node rootname func 1 ∷ []) h.next (first_heap h rootname func)
  unfolding first_heap write with_new
  first-Added rootname func h good = record {
    good = record { next_pos = omega arith; fresh = λ a le. ground (arith, good.fresh a) };
    cells = (h.next, suc h.next, new_node rootname func 1) ∷ [];
    chain =
        cons
          (record {
            p_null = ground (arith, good.next_pos);
            r_null = ground arith;
            apart = ground arith;
            p_out = refl;
            r_out = refl;
            p_holds = ground arith;
            r_holds = ground arith;
          })
          nil;
    same_nodes = refl;
    spared = λ a out. ground (arith, out);
    kept = λ a out. refl;
    grown = λ a i out. ground (arith, i, good.fresh a);
  }

  unfoldable pub linked_heap :
      Heap (Block R) → Ptr → SrnCell R → Bytes → NodeCallback R → Heap (Block R)
  linked_heap h l c rootname func =
      let new = h.next in
      let z : SrnCell R = record zeroed { prev = l; num = (c.num + 1) % 2 ^ 32 } in
      write
        (with_new
          (write
            (write (write (with_new h (node zeroed)) l (some (node (record c { next = new })))) new
              (some (node (record zeroed { prev = l }))))
            new (some (node z)))
          (str rootname))
        new (some (node (record z { root = suc new; cb = some func })))

  pub Linked-Added :
      (rootname : Bytes) (func : NodeCallback R) {h : Heap (Block R)} {p : Ptr}
      {x : Ptr × Ptr × Srn R} {xs : Cells R} (l : Ptr) (c : SrnCell R)
      → IsHeap h
      → Chain h null p (x ∷ xs)
      → h.at l ≡ some (node c)
      → has l (x ∷ xs) ≡ true
      → ((g : Heap (Block R)) (new s : Ptr) (m : Srn R)
          → Linked h g l c new s m (x ∷ xs)
          → Chain g null p (x ∷ xs ++ (new, s, m) ∷ []))
      → Added h
          (x ∷ xs)
          (nodes_of (x ∷ xs) ++ new_node rootname func ((c.num + 1) % 2 ^ 32) ∷ [])
          p
          (linked_heap h l c rootname func)
  unfolding linked_heap write with_new
  Linked-Added rootname func {h} {x = x} {xs = xs} l c good s at_l l_in link = record {
    good = record { next_pos = omega arith; fresh = λ a le. ground (arith, good.fresh a, at_l) };
    cells = (x ∷ xs) ++ (h.next, suc h.next, m) ∷ [];
    chain = link _ h.next (suc h.next) m (record {
      linked = ground (arith, apart_l, s_apart);
      same = λ a i far.
          ground
            (arith, far, other h.next a (x ∷ xs) new_out i, other (suc h.next) a (x ∷ xs) s_out i);
      placed = record {
        p_null = ground (arith, good.next_pos);
        r_null = ground arith;
        apart = ground arith;
        p_out = refl;
        r_out = refl;
        p_holds = ground arith;
        r_holds = ground arith;
      };
      new_out = new_out;
      s_out = s_out;
    });
    same_nodes = nodes_of-append (x ∷ xs) h.next (suc h.next) m;
    spared = λ a out.
        (let o = has-append a (x ∷ xs) ((h.next, suc h.next, m) ∷ []) in
          ground (arith, o, out, l_in));
    kept = λ a out.
        (let o = has-append a (x ∷ xs) ((h.next, suc h.next, m) ∷ []) in ground (arith, o, out));
    grown = λ a i out.
        (let o = has-append a (x ∷ xs) ((h.next, suc h.next, m) ∷ []) in
          ground (arith, o, i, out, good.fresh a));
  }
    where
      m : Srn R
      m = new_node rootname func ((c.num + 1) % 2 ^ 32)

      new_out : has h.next (x ∷ xs) ≡ false
      new_out = not-mem_of_none h.next s (good.fresh h.next (omega arith))

      s_out : has (suc h.next) (x ∷ xs) ≡ false
      s_out = not-mem_of_none (suc h.next) s (good.fresh (suc h.next) (omega arith))

      apart_l : (h.next == l) ≡ false
      apart_l = other h.next l (x ∷ xs) new_out l_in

      s_apart : (suc h.next == l) ≡ false
      s_apart = other (suc h.next) l (x ∷ xs) s_out l_in
