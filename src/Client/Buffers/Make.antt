-- ===== src/Client/Buffers/Make.antt =====
-- What mza_squash and mza_restore leave: an md_t with its buffer (src/compression.c).
use webstore.Base.{ℕ, suc, ◌≡◌, refl, Bool, true, Option, none, some, [], arith, ◌≤◌, length}
use webstore.Base.Bytes.{Bytes}
use webstore.Memory.{null, Heap, write, with_new, alloc, store-ok, free-ok, IsHeap, Ends}
use webstore.Client.Buffers.{MzBlock, md, buf, with_buffer, put-ok, finish, make, Held}

module _ (h : Heap MzBlock) (good : IsHeap h) (side : Bool) (size : ℕ) where
  -- memory after the two allocations, and after the pointer is set
  two : Heap MzBlock
  two = with_new (with_new h (md null null)) (buf size true [])

  set_two : Heap MzBlock
  unfolding two
  set_two = write two h.next (some (with_buffer side (suc h.next)))

  set_two-IsHeap : IsHeap set_two
  unfolding set_two two with_new write
  set_two-IsHeap = record { next_pos = omega arith; fresh = λ a le. ground (arith, good.fresh a) }

  at_second : set_two.at (suc h.next) ≡ some (buf size true [])
  unfolding set_two two with_new write
  at_second = ground arith

  at_first : two.at h.next ≡ some (md null null)
  unfolding two with_new write
  at_first = ground arith

  at_set : (write set_two (suc h.next) none).at h.next ≡ some (with_buffer side (suc h.next))
  unfolding set_two two with_new write
  at_set = ground arith

  some-Held :
      (s : Bytes)
      → length s ≤ size
      → Held h side h.next (some s) (write set_two (suc h.next) (some (buf size true s)))
  unfolding set_two two with_new write
  some-Held s fits = record {
    good = record { next_pos = omega arith; fresh = λ a le. ground (arith, good.fresh a) };
    q = suc h.next;
    p_null = ground (arith, good.next_pos);
    at_p = ground arith;
    mine = good.fresh h.next (omega arith);
    buffer = (
      ground arith,
      ground arith,
      (size, ground arith, fits),
      good.fresh (suc h.next) (omega arith),
    );
    same = λ a far off. ground (arith, far, off);
  }

  none-Held :
      Held h side h.next none
        (write (write set_two (suc h.next) none) h.next (some (with_buffer side null)))
  unfolding set_two two with_new write
  none-Held = record {
    good = record { next_pos = omega arith; fresh = λ a le. ground (arith, good.fresh a) };
    q = null;
    p_null = ground (arith, good.next_pos);
    at_p = ground arith;
    mine = good.fresh h.next (omega arith);
    buffer = refl;
    same = λ a far off. ground (arith, far, good.fresh (suc h.next));
  }

  pub make-Held :
      (result : Option Bytes)
      → ((s : Bytes) → result ≡ some s → length s ≤ size)
      → Ends (make side size result h) (λ p g. (p ≡ h.next) × Held h side p result g)
  unfolding make finish alloc set_two two
  make-Held (some s) fits =
      rw
        (
          store-ok two h.next (md null null) (with_buffer side (suc h.next)) at_first,
          put-ok set_two (suc h.next) size true [] at_second s (fits s refl),
        )
        (refl, some-Held s (fits s refl))
  make-Held none fits =
      rw
        (
          store-ok two h.next (md null null) (with_buffer side (suc h.next)) at_first,
          free-ok set_two (suc h.next) (buf size true []) (ground arith) at_second,
          store-ok (write set_two (suc h.next) none) h.next (with_buffer side (suc h.next))
              (with_buffer side null) at_set,
        )
        (refl, none-Held)
