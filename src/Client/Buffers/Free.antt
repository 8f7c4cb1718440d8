-- ===== src/Client/Buffers/Free.antt =====
-- mza_free gives back the md_t and its buffer (src/compression.c).
use webstore.Base.{
  ℕ, zero, suc, ◌≤◌, ◌≡◌, refl, sym, ap, subst, ◌∙◌, Bool, true, false, Option, none, some, arith,
  ◌==◌, length, Bool-cases, inl, inr, ==-sym,
}
use webstore.Base.Bytes.{Bytes}
use webstore.Memory.{
  Ptr, null, Heap, ok, ◌>>◌, write, write_same, write_other, store, store-ok, free, free-ok,
  write-IsHeap, free-IsHeap, IsHeap, Ends, Ends-bind,
}
use webstore.Client.Buffers.{
  MzBlock, md, buf, with_buffer, zeros, wipe, free_in, Buffer, Held, equal, load_md-ok, load_buf-ok,
  put-ok,
}

length-zeros : (n : ℕ) → length (zeros n) ≡ n
length-zeros zero = refl
length-zeros (suc n) = ap suc (length-zeros n)

-- the buffer wiped and freed
wipe-ok :
    (g : Heap MzBlock) (q : Ptr) (n : ℕ) (s : Bytes)
    → (q == null) ≡ false
    → g.at q ≡ some (buf n true s)
    → length s ≤ n
    → wipe q g ≡ ok tt (write (write g q (some (buf n true (zeros (length s))))) q none)
unfolding wipe
wipe-ok g q n s q_null e room =
    rw
      (
        q_null,
        load_buf-ok g q n true s e,
        put-ok g q n true s e (zeros (length s)) (rw (length-zeros (length s)) room),
        free-ok (write g q (some (buf n true (zeros (length s))))) q (buf n true (zeros (length s)))
            q_null (write_same g q (some (buf n true (zeros (length s))))),
      )
      refl

module _ (h0 : Heap MzBlock) (side : Bool) (p : Ptr) (data_ : Option Bytes) where
  -- Memory is `h0` but for the md_t at `p`, whose buffer is gone.
  record Emptied (q : Ptr) (g : Heap MzBlock) : Type 0 where
    good : IsHeap g
    at_p : g.at p ≡ some (with_buffer side q)
    same : (a : Ptr) → (a == p) ≡ false → g.at a ≡ h0.at a

  wipe-Emptied :
      (o : Option Bytes) (g : Heap MzBlock) (it : Held h0 side p data_ g)
      → Buffer h0 g p it.q o
      → Ends (wipe it.q g) (λ u g'. Emptied it.q g')
  unfolding wipe
  wipe-Emptied none g it empty =
      subst (λ q. Ends (wipe q g) (λ u g'. Emptied it.q g')) (sym empty) nothing
    where
      nothing : Ends (wipe null g) (λ u g'. Emptied it.q g')
      nothing = record {
        good = it.good;
        at_p = it.at_p;
        same = λ a far. it.same a far (λ e. absurd (ground (arith, e, empty)));
      }
  wipe-Emptied (some s) g it (full, apart, (n, at_q, room), fresh) =
      rw (wipe-ok g it.q n s full at_q room) (record {
        good =
            free-IsHeap g1 it.q
              (write-IsHeap g it.q (buf n true (zeros (length s))) (buf n true s) it.good at_q);
        at_p =
            write_other g1 it.q p none (==-sym it.q p ∙ apart)
            ∙ write_other g it.q p _ (==-sym it.q p ∙ apart)
            ∙ it.at_p;
        same = λ a far. elim (Bool-cases (a == it.q)) [
          | inl here ↦
              ap (write g1 it.q none).at (equal a it.q here)
              ∙ write_same g1 it.q none
              ∙ sym fresh
              ∙ ap h0.at (sym (equal a it.q here))
          | inr there ↦
              write_other g1 it.q a none there
              ∙ write_other g it.q a _ there
              ∙ it.same a far (λ e. there)
        ];
      })
    where
      g1 : Heap MzBlock
      g1 = write g it.q (some (buf n true (zeros (length s))))

  -- mza_free after the buffer
  free_rest :
      (q : Ptr) (g : Heap MzBlock)
      → (p == null) ≡ false
      → h0.at p ≡ none
      → Emptied q g
      → Ends
          ((store p (md null null) >> free p) g)
          (λ u g'. IsHeap g' × ((a : Ptr) → g'.at a ≡ h0.at a))
  free_rest q g p_null mine it =
      rw
        (
          store-ok g p (with_buffer side q) (md null null) it.at_p,
          free-ok g1 p (md null null) p_null (write_same g p (some (md null null))),
        )
        (
          free-IsHeap g1 p (write-IsHeap g p (md null null) (with_buffer side q) it.good it.at_p),
          λ a. elim (Bool-cases (a == p)) [
            | inl here ↦
                ap (write g1 p none).at (equal a p here)
                ∙ write_same g1 p none
                ∙ sym mine
                ∙ ap h0.at (sym (equal a p here))
            | inr there ↦
                write_other g1 p a none there ∙ write_other g p a _ there ∙ it.same a there
          ],
        )
    where
      g1 : Heap MzBlock
      g1 = write g p (some (md null null))

pub free_in-restores :
    (h0 : Heap MzBlock) (side : Bool) (p : Ptr) (data_ : Option Bytes) (g : Heap MzBlock)
    → Held h0 side p data_ g
    → Ends (free_in p g) (λ u g'. IsHeap g' × ((a : Ptr) → g'.at a ≡ h0.at a))
unfolding free_in wipe
free_in-restores h0 true p data_ g it =
    rw (it.p_null, load_md-ok g p null it.q it.at_p)
      (Ends-bind (wipe it.q g) _ _ _ (wipe-Emptied h0 true p data_ data_ g it it.buffer)
        (λ u g' e. free_rest h0 true p data_ it.q g' it.p_null it.mine e))
free_in-restores h0 false p data_ g it =
    rw (it.p_null, load_md-ok g p it.q null it.at_p)
      (Ends-bind (wipe it.q g) _ _ _ (wipe-Emptied h0 false p data_ data_ g it it.buffer)
        (λ u g' e. free_rest h0 false p data_ it.q g' it.p_null it.mine e))
