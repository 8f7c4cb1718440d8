-- ===== src/Client/Buffers/Leaves.antt =====
-- What encode_msg, decode_msg and inflate_msg hand to their caller, a block in memory of its own or NULL
-- (src/ws_post.c, src/ws_get.c).
use webstore.Base.{
  ℕ, ◌≤◌, ◌<◌, true, length, ◌≡◌, refl, sym, ap, ◌∙◌, Bool, false, Option, none, some, [], arith,
  ◌==◌, Bool-cases, inl, inr,
}
use webstore.Base.Bytes.{Bytes}
use webstore.Memory.{
  Ptr, null, Heap, Cmd, ◌>>=◌, ◌>>◌, give, write, write_same, write_other, with_new, with_new_same,
  alloc, ok, write-IsHeap, free, free-ok, free-IsHeap, alloc-IsHeap, IsHeap, Ends, Ends-bind,
}
use webstore.Client.Buffers.{MzBlock, buf, put, put-ok, end_at, end_at-ok, free_in, Held, equal}
use webstore.Client.Buffers.Free.{free_in-restores}
use webstore.Client.Buffers.Beside.{grow, next_full, next_free, changed-Held}

abbrev pub block_of : Option Bytes → Bytes
block_of none = []
block_of (some e) = e

pub block_fits :
    (n : ℕ) (o : Option Bytes) → ((e : Bytes) → o ≡ some e → length e < n) → length (block_of o) ≤ n
block_fits n none fits = omega arith
block_fits n (some e) fits = omega (arith, fits e refl)

-- the block, ended by a NUL, if Z85_encode_with_padding or Z85_decode_with_padding has written to it,
-- and NULL otherwise
unfoldable pub hand_out : Ptr → Option Bytes → Cmd MzBlock Ptr
hand_out block none = free block >> give null
hand_out block (some e) = end_at block (length e) >> give block

-- Memory has the block of `data_` at `q`, a string that its NUL ends within the size, and is `h`
-- otherwise; without one it is `h`.
abbrev pub Leaves : Heap MzBlock → Option Bytes → Ptr → Heap MzBlock → Type 0
Leaves h none q g = (q ≡ null) × IsHeap g × ((a : Ptr) → g.at a ≡ h.at a)
Leaves h (some e) q g =
    ((q == null) ≡ false)
    × IsHeap g
    × (h.at q ≡ none)
    × ((n : ℕ) × (length e < n) × ((a : Ptr) → g.at a ≡ (write h q (some (buf n true e))).at a))

-- two memories that agree at each address leave the same
pub Leaves-same :
    (h h0 : Heap MzBlock) (o : Option Bytes) (q : Ptr) (g : Heap MzBlock)
    → ((a : Ptr) → h.at a ≡ h0.at a)
    → Leaves h o q g
    → Leaves h0 o q g
unfolding write
Leaves-same h h0 none q g agree (e, good, same) = (e, good, λ a. same a ∙ agree a)
Leaves-same h h0 (some e) q g agree (full, good, fresh, (n, room, same)) =
    (full, good, sym (agree q) ∙ fresh, (n, room, λ a. ground (arith, same a, agree a)))

written_over :
    (h g : Heap MzBlock) (block : Ptr) (x y : MzBlock)
    → ((a : Ptr) → g.at a ≡ (write h block (some y)).at a)
    → (a : Ptr) → (write g block (some x)).at a ≡ (write h block (some x)).at a
unfolding write
written_over h g block x y same a = ground (arith, same a)

pub written_twice :
    (h : Heap MzBlock) (x y : MzBlock) (a : Ptr)
    → (write (with_new h x) h.next (some y)).at a ≡ (write h h.next (some y)).at a
unfolding write with_new
written_twice h x y a = ground arith

pub hand_out-Leaves :
    (h g : Heap MzBlock) (block : Ptr) (o : Option Bytes) (n : ℕ) (b : Bool)
    → IsHeap g
    → (block == null) ≡ false
    → h.at block ≡ none
    → ((e : Bytes) → o ≡ some e → length e < n)
    → ((a : Ptr) → g.at a ≡ (write h block (some (buf n b (block_of o)))).at a)
    → Ends (hand_out block o g) (Leaves h o)
unfolding hand_out block_of
hand_out-Leaves h g block (some e) n b good full fresh room same =
    let here = same block ∙ write_same h block (some (buf n b e)) in
    rw (end_at-ok g block n b e here (room e refl)) (
      full,
      write-IsHeap g block (buf n true e) (buf n b e) good here,
      fresh,
      (n, room e refl, written_over h g block (buf n true e) (buf n b e) same),
    )
hand_out-Leaves h g block none n b good full fresh room same =
    rw (free-ok g block (buf n b []) full (same block ∙ write_same h block (some (buf n b [])))) (
      refl,
      free-IsHeap g block good,
      λ a. elim (Bool-cases (a == block)) [
        | inl here ↦
            ap (write g block none).at (equal a block here)
            ∙ write_same g block none
            ∙ sym fresh
            ∙ ap h.at (sym (equal a block here))
        | inr there ↦ write_other g block a none there ∙ same a ∙ write_other h block a _ there
      ],
    )

-- In every memory with the md_t, whose buffer is at `q`, `read_it` reads `s`.
abbrev pub Reads : Bool → Ptr → Ptr → Option Bytes → Cmd MzBlock Bytes → Bytes → Type 0
Reads side p q o read_it s =
    (h g : Heap MzBlock) (it : Held h side p o g) → it.q ≡ q → read_it g ≡ ok s g

module _ (h : Heap MzBlock) (side : Bool) (g : Heap MzBlock) (p : Ptr) (o : Option Bytes)
    (it : Held h side p o g) (n : ℕ) (b : Bool) (t : Bytes) where
  -- memory with the next block, empty, and then filled
  filled : Heap MzBlock
  filled = write (with_new g (buf n b [])) g.next (some (buf n b t))

  filled-IsHeap : IsHeap filled
  unfolding filled
  filled-IsHeap =
      write-IsHeap (with_new g (buf n b [])) g.next (buf n b t) (buf n b [])
        (alloc-IsHeap g (buf n b []) it.good) (with_new_same g (buf n b []))

  filled-Held :
      Held (write (write h g.next (some (buf n b []))) g.next (some (buf n b t))) side p o filled
  unfolding filled
  filled-Held =
      (changed-Held (write h g.next (some (buf n b []))) (with_new g (buf n b [])) side p g.next o
        (buf n b []) (write_same h g.next (some (buf n b []))) (grow h side g p o (buf n b []) it).0
        (some (buf n b t)) filled-IsHeap).0

  filled_twice :
      (a : Ptr)
      → (write (write h g.next (some (buf n b []))) g.next (some (buf n b t))).at a
        ≡ (write h g.next (some (buf n b t))).at a
  unfolding write
  filled_twice a = ground arith

-- A block of `n` bytes is made and filled with what is read, the md_t freed, and the block handed out by
-- `hand`.
pub filled-Leaves :
    (h : Heap MzBlock) (side : Bool) (g : Heap MzBlock) (p : Ptr) (o : Option Bytes)
    (it : Held h side p o g) (n : ℕ) (b : Bool) (read_it : Cmd MzBlock Bytes) (s : Bytes)
    (f : Bytes → Option Bytes) (hand : Ptr → Option Bytes → Cmd MzBlock Ptr)
    → Reads side p it.q o read_it s
    → length (block_of (f s)) ≤ n
    → ((g' : Heap MzBlock)
        → IsHeap g'
        → (g.next == null) ≡ false
        → h.at g.next ≡ none
        → ((a : Ptr) → g'.at a ≡ (write h g.next (some (buf n b (block_of (f s))))).at a)
        → Ends (hand g.next (f s) g') (Leaves h (f s)))
    → Ends
        ((do
          block ← alloc (buf n b [])
          s' ← read_it
          put block (block_of (f s'))
          free_in p
          hand block (f s'))
          g)
        (Leaves h (f s))
unfolding alloc filled
filled-Leaves h side g p o it n b read_it s f hand reads room handed =
    rw
      (
        reads (write h g.next (some (buf n b []))) (with_new g (buf n b []))
            (grow h side g p o (buf n b []) it).0 (grow h side g p o (buf n b []) it).1,
        put-ok (with_new g (buf n b [])) g.next n b [] (with_new_same g (buf n b []))
            (block_of (f s)) room,
      )
      (Ends-bind (free_in p (filled h side g p o it n b t)) _ _ _
        (free_in-restores (write (write h g.next (some (buf n b []))) g.next (some (buf n b t)))
          side p o (filled h side g p o it n b t) (filled-Held h side g p o it n b t))
        (λ u g' restored.
          handed g' restored.0 (next_full h side g p o (buf n b []) it)
            (next_free h side g p o (buf n b []) it)
            (λ a. restored.1 a ∙ filled_twice h side g p o it n b t a)))
  where
    t : Bytes
    t = block_of (f s)
