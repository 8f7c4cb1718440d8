-- ===== src/Searest/Pointers/Chain.antt =====
-- What a list of nodes is in memory (src/searest_nodelist.c).
use webstore.Base.{◌≡◌, refl, Bool, true, false, ◌||◌, none, some, List, [], ◌∷◌, arith, ◌==◌}
use webstore.Base.Bytes.{Bytes}
use webstore.Redis.{Redis}
use webstore.Searest.{Srn}
use webstore.Memory.{Ptr, null, Heap, ok, ◌>>=◌, load}
use webstore.Searest.Pointers.{SrnCell, Block, node, str, load_node, load_str, as_node, as_str}

-- a node's address, the address of its root, and the node
abbrev pub Cells : Redis → Type 0
Cells R = List (Ptr × Ptr × Srn R)

module _ {R : Redis} where
  abbrev pub has : Ptr → Cells R → Bool
  has a [] = false
  has a ((p, r, n) ∷ xs) = (a == p) || (a == r) || has a xs

  abbrev pub nodes_of : Cells R → List (Srn R)
  nodes_of [] = []
  nodes_of ((p, r, n) ∷ xs) = n ∷ nodes_of xs

  -- a node as it lies in memory, with the addresses of its root and its neighbours
  abbrev pub cell : Ptr → Srn R → Ptr → Ptr → SrnCell R
  cell r n next prev = record {
    num = n.num;
    disabled = n.disabled;
    root = r;
    cb = some n.cb;
    last_atime = n.last_atime;
    acount = n.acount;
    next = next;
    prev = prev;
  }

  -- a node and its root are in memory, at two addresses that are not NULL and in use for no other
  pub record Placed (h : Heap (Block R)) (prev next p r : Ptr) (n : Srn R) (xs : Cells R)
      : Type 0 where
    pub p_null : (p == null) ≡ false
    pub r_null : (r == null) ≡ false
    pub apart : (r == p) ≡ false
    pub p_out : has p xs ≡ false
    pub r_out : has r xs ≡ false
    pub p_holds : h.at p ≡ some (node (cell r n next prev))
    pub r_holds : h.at r ≡ some (str n.root)

  -- from `p` the `next` pointers lead through the nodes to NULL, and the `prev` pointers back to `prev`
  pub data Chain (h : Heap (Block R)) : Ptr → Ptr → Cells R → Type 0 where
    nil : {prev : Ptr} → Chain h prev null []
    cons :
        {prev p r q : Ptr} {n : Srn R} {xs : Cells R}
        → Placed h prev q p r n xs
        → Chain h p q xs
        → Chain h prev p ((p, r, n) ∷ xs)

  pub load_node-ok :
      (h : Heap (Block R)) (p : Ptr) (c : SrnCell R)
      → h.at p ≡ some (node c)
      → load_node p h ≡ ok c h
  unfolding load_node load as_node
  load_node-ok h p c e = rw (load_node, ◌>>=◌, load, e) refl

  pub load_str-ok :
      (h : Heap (Block R)) (p : Ptr) (s : Bytes) → h.at p ≡ some (str s) → load_str p h ≡ ok s h
  unfolding load_str load as_str
  load_str-ok h p s e = rw (load_str, ◌>>=◌, load, e) refl

  -- a chain stays when its own addresses are spared
  pub frame :
      {h g : Heap (Block R)} {prev p : Ptr} {xs : Cells R}
      → Chain h prev p xs
      → ((a : Ptr) → has a xs ≡ true → g.at a ≡ h.at a)
      → Chain g prev p xs
  frame nil same = nil
  frame (cons {p = p} {r = r} e s) same =
      cons
        (record {
          p_null = e.p_null;
          r_null = e.r_null;
          apart = e.apart;
          p_out = e.p_out;
          r_out = e.r_out;
          p_holds = ground (arith, same p, e.p_holds);
          r_holds = ground (arith, same r, e.r_holds);
        })
        (frame s (λ a i. same a (ground arith)))

  pub not-mem_of_none :
      {h : Heap (Block R)} {prev p : Ptr} {xs : Cells R} (a : Ptr)
      → Chain h prev p xs
      → h.at a ≡ none
      → has a xs ≡ false
  not-mem_of_none a nil unused = refl
  not-mem_of_none a (cons e s) unused =
      ground (arith, e.p_holds, e.r_holds, not-mem_of_none a s unused)
