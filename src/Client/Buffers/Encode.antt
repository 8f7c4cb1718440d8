-- ===== src/Client/Buffers/Encode.antt =====
-- encode_msg with its buffers (src/ws_post.c): the compressed message and the block.
use webstore.Base.{
  ℕ, ◌+◌, ◌<◌, ◌≡◌, refl, Bool, true, false, Option, ltb, length, ◌&&◌, [], Bool-cases, inl, inr,
  none, some, arith, ◌==◌, if◌then◌else◌,
}
use webstore.Base.Bytes.{Bytes}
use webstore.Memory.{
  Ptr, null, Heap, ok, Cmd, ◌>>=◌, ◌>>◌, give, write, with_new, with_new_same, write-IsHeap, alloc,
  alloc-IsHeap, IsHeap, Ends, Ends-bind,
}
use webstore.Client.Codec.{Z85, Miniz, mza_squash, shorter, packed, encode_msg}
use webstore.Client.Buffers.{
  MzBlock, buf, load_md, load_buf, make, squash_in, free_in, Held, put, put-ok, Bounds, IsBounded,
  load_md-ok, load_buf-ok,
}
use webstore.Client.Buffers.Make.{make-Held}
use webstore.Client.Buffers.Leaves.{
  block_of, hand_out, Leaves, hand_out-Leaves, written_twice, block_fits, Reads, filled-Leaves,
}

-- msg and len: the compressed message, if there is one and it is shorter, or none for the caller's
chosen : Ptr → Bytes → Cmd MzBlock (Option Ptr × ℕ)
chosen p msg = if p == null then give (none, length msg) else do
  m ← load_md p
  if m.1 == null then give (none, length msg) else do
    c ← load_buf m.1
    give (
        if ltb 0 (length c) && ltb (length c) (length msg)
        then (some m.1, length c)
        else (none, length msg))

read_from : Bytes → Option Ptr → Cmd MzBlock Bytes
read_from msg none = give msg
read_from msg (some q) = load_buf q

unfoldable pub encode_in : Z85 → Miniz → Bounds → Bool → Bytes → Cmd MzBlock Ptr
unfolding chosen read_from hand_out block_of
encode_in z mz b g_comp msg = do
  p ← (if g_comp then squash_in mz b msg else give null)
  source ← chosen p msg
  z85block ← alloc (buf (1 + b.encode_bound source.1) false [])
  s ← read_from msg source.0
  put z85block (block_of (z.encode_with_padding s))
  free_in p
  hand_out z85block (z.encode_with_padding s)

-- the source is there, also later, and holds what the encoding should take
chosen-Reads :
    (h g : Heap MzBlock) (p : Ptr) (msg : Bytes) (o : Option Bytes) (it : Held h true p o g)
    → (source : Option Ptr) × (chosen p msg g ≡ ok (source, length (shorter msg o)) g)
      × Reads true p it.q o (read_from msg source) (shorter msg o)
unfolding chosen shorter read_from
chosen-Reads h g p msg none it =
    (none, rw (it.p_null, load_md-ok g p null it.q it.at_p, it.buffer) refl, λ h' g' it' e. refl)
chosen-Reads h g p msg (some c) it =
    let loaded = load_buf-ok g it.q it.buffer.2.0 true c it.buffer.2.1 in
    elim (Bool-cases (ltb 0 (length c) && ltb (length c) (length msg))) [
      | inl used ↦ (
        some it.q,
        rw (it.p_null, load_md-ok g p null it.q it.at_p, it.buffer.0, loaded, used) refl,
        λ h' g' it' e.
            rw (← e, load_buf-ok g' it'.q it'.buffer.2.0 true c it'.buffer.2.1, used) refl,
      )
      | inr unused ↦ (
        none,
        rw (it.p_null, load_md-ok g p null it.q it.at_p, it.buffer.0, loaded, unused) refl,
        λ h' g' it' e. rw unused refl,
      )
    ]

-- what is encoded fits the block, with its NUL
encoded_fits :
    (z : Z85) (mz : Miniz) (b : Bounds) (laws : IsBounded z mz b) (s e : Bytes)
    → z.encode_with_padding s ≡ some e
    → length e < 1 + b.encode_bound (length s)
encoded_fits z mz b laws s e is_e = omega (arith, laws.encode_fits s e is_e)

-- Encoding a message, compressed or not, uses no memory that it must not, and writes within the sizes
-- that it asked for; it leaves the block that encode_msg gives, ended by a NUL, in new memory, or none
-- if that gives none, and has given back all else. What the Z85 library and miniz write fits their
-- bounds.
pub encode_in-Leaves :
    (z : Z85) (mz : Miniz) (b : Bounds) (laws : IsBounded z mz b) (g_comp : Bool) (msg : Bytes)
    (h : Heap MzBlock)
    → IsHeap h
    → Ends (encode_in z mz b g_comp msg h) (Leaves h (encode_msg z mz g_comp msg))
unfolding encode_in encode_msg packed mza_squash squash_in alloc free_in read_from
encode_in-Leaves z mz b laws false msg h good =
    rw
      (put-ok (with_new h (buf n false [])) h.next n false [] (with_new_same h (buf n false []))
        (block_of o) (block_fits n o (encoded_fits z mz b laws msg)))
      (hand_out-Leaves h
        (write (with_new h (buf n false [])) h.next (some (buf n false (block_of o)))) h.next o n
        false
        (write-IsHeap (with_new h (buf n false [])) h.next (buf n false (block_of o))
          (buf n false []) (alloc-IsHeap h (buf n false []) good)
          (with_new_same h (buf n false [])))
        (ground (arith, good.next_pos)) (good.fresh h.next (omega arith))
        (encoded_fits z mz b laws msg)
        (written_twice h (buf n false []) (buf n false (block_of o))))
  where
    n : ℕ
    n = 1 + b.encode_bound (length msg)

    o : Option Bytes
    o = z.encode_with_padding msg
encode_in-Leaves z mz b laws true msg h good =
    Ends-bind (make true (b.compress_bound (length msg)) (mz.compress msg) h) _ _ _
      (make-Held h good true (b.compress_bound (length msg)) (mz.compress msg)
        (laws.compress_fits msg))
      (λ p g made.
        let (source, e, reads) = chosen-Reads h g p msg (mz.compress msg) made.1 in
        rw e (
          filled-Leaves h true g p (mz.compress msg) made.1 n false (read_from msg source) s
            z.encode_with_padding hand_out reads
            (block_fits n (z.encode_with_padding s) (encoded_fits z mz b laws s))
            (λ g' good' full fresh same.
              hand_out-Leaves h g' g.next (z.encode_with_padding s) n false good' full fresh
                (encoded_fits z mz b laws s) same)))
  where
    s : Bytes
    s = shorter msg (mz.compress msg)

    n : ℕ
    n = 1 + b.encode_bound (length s)
