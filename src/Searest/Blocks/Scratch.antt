-- ===== src/Searest/Blocks/Scratch.antt =====
-- What a page callback takes while it makes its page: a string that it frees before it ends, and the
-- page (the callbacks of src/searest.h).
use webstore.Base.{
  ◌≡◌, refl, sym, ap, ◌∙◌, Bool, true, false, none, some, arith, ◌==◌, Bool-cases, inl, inr, ==-sym,
}
use webstore.Base.Bytes.{Bytes}
use webstore.Base.{clash}
use webstore.Memory.{
  Ptr, null, Heap, ok, Cmd, ◌>>=◌, ◌>>◌, give, write, write_same, write_other, with_new,
  with_new_same, with_new_other, alloc, free, free-ok, free-IsHeap, alloc-IsHeap, IsHeap, Ends,
  Ends-bind,
}
use webstore.Searest.Blocks.{ReqBlock, chars}
use webstore.Searest.Blocks.Assign.{Brought, alloc-Brought}
use webstore.Searest.Blocks.Request.{MakesPage}

pub alloc-MakesPage : (s : Bytes) → MakesPage true (alloc (chars s))
unfolding alloc
alloc-MakesPage s h good = (ground (arith, good.next_pos), alloc-Brought s h good)

pub nothing-Brought : (h : Heap ReqBlock) → IsHeap h → Brought h null h
nothing-Brought h good = record {
  good = good;
  q_held = λ e. absurd (ground (arith, e));
  q_new = λ e. absurd (ground (arith, e));
  same = λ a far. refl;
}

-- a string that is freed before the page is handed out
pub scratch-Brought :
    (s : Bytes) (h : Heap ReqBlock) (q : Ptr) (g : Heap ReqBlock)
    → IsHeap h
    → Brought (with_new h (chars s)) q g
    → (free h.next g ≡ ok tt (write g h.next none)) × Brought h q (write g h.next none)
scratch-Brought s h q g good b = (
  freed_it,
  record {
    good = free-IsHeap g h.next b.good;
    q_held = λ e. let it = b.q_held e in (it.0, write_other g h.next q none (off e) ∙ it.1);
    q_new = λ e. sym (with_new_other h q (chars s) (off e)) ∙ b.q_new e;
    same = λ a far. elim (Bool-cases (a == h.next)) [
      | inl here ↦
          ap (write g h.next none).at (equal a here)
          ∙ write_same g h.next none
          ∙ sym (good.fresh h.next (omega arith))
          ∙ ap h.at (sym (equal a here))
      | inr there ↦
          write_other g h.next a none there ∙ b.same a far ∙ with_new_other h a (chars s) there
    ];
  },
)
  where
    off : (q == null) ≡ false → (q == h.next) ≡ false
    off e = ground (arith, b.q_new e, with_new_same h (chars s))

    at : g.at h.next ≡ some (chars s)
    at = b.same h.next (λ e. ==-sym q h.next ∙ off e) ∙ with_new_same h (chars s)

    freed_it : free h.next g ≡ ok tt (write g h.next none)
    freed_it = free-ok g h.next (chars s) (ground (arith, good.next_pos)) at

    equal : (a : Ptr) → (a == h.next) ≡ true → a ≡ h.next
    equal a e = ground (arith, e)

pub scratch-MakesPage :
    (b : Bool) (s : Bytes) (k : Cmd ReqBlock Ptr)
    → MakesPage b k
    → MakesPage b (alloc (chars s) >>= λ p. k >>= λ q. free p >> give q)
unfolding alloc
scratch-MakesPage b s k makes h good =
    Ends-bind (k (with_new h (chars s))) _ _ _
      (makes (with_new h (chars s)) (alloc-IsHeap h (chars s) good))
      (λ q g it. let done = scratch-Brought s h q g good it.1 in rw done.0 (it.0, done.1))

-- nothing was brought, and then a page is
pub then_page :
    (s : Bytes) (h : Heap ReqBlock) (q : Ptr) (g : Heap ReqBlock)
    → (q == null) ≡ true
    → Brought h q g
    → Ends (alloc (chars s) g) (λ p g'. ((p == null) ≡ false) × Brought h p g')
unfolding alloc
then_page s h q g empty b =
    let new = alloc-Brought s g b.good in
    (
      ground (arith, b.good.next_pos),
      record {
        good = new.good;
        q_held = new.q_held;
        q_new = λ e. sym (as_before g.next) ∙ new.q_new e;
        same = λ a far. new.same a far ∙ as_before a;
      },
    )
  where
    as_before : (a : Ptr) → g.at a ≡ h.at a
    as_before a = b.same a (λ e. absurd (clash (q == null) empty e))
