-- ===== src/Tests/Buffers.antt =====
-- A message that is compressed, encoded, decoded and shown, in an empty memory.
use webstore.Base.{
  ℕ, ◌≤◌, ◌≡◌, refl, subst, true, Option, none, some, [], ◌∷◌, arith, leb, length, if◌then◌else◌,
  Bool-cases, inl, inr,
}
use webstore.Base.Bytes.{Bytes}
use webstore.Memory.{Heap, IsHeap, Ends}
use webstore.Client.Codec.{Z85, Miniz, encode_msg, packed, shorter, mza_squash}
use webstore.Client.Buffers.{MzBlock, Bounds, IsBounded}
use webstore.Client.Buffers.Leaves.{Leaves}
use webstore.Client.Buffers.Encode.{encode_in, encode_in-Leaves}

abbrev no_blocks : Heap MzBlock
no_blocks = record { next = 1; at = λ a. none }

no_blocks-IsHeap : IsHeap no_blocks
no_blocks-IsHeap = record { next_pos = omega arith; fresh = λ a le. refl }

-- a stream of seven bytes that stands for one message
abbrev stream : Bytes
stream = 120 ∷ 1 ∷ 0 ∷ 0 ∷ 0 ∷ 0 ∷ 9 ∷ []

abbrev hello : Bytes
hello = 72 ∷ 101 ∷ 108 ∷ 108 ∷ 111 ∷ 44 ∷ 32 ∷ 72 ∷ 101 ∷ 108 ∷ 108 ∷ 111 ∷ 33 ∷ []

abbrev one_miniz : Miniz
one_miniz = record {
  compress = λ m. some stream;
  uncompress = λ size c. if leb 13 size then some hello else none;
}

-- an encoding that changes nothing
abbrev same_z85 : Z85
same_z85 = record { encode_with_padding = λ m. some m; decode_with_padding = λ e. some e }

abbrev their_bounds : Bounds
their_bounds = record {
  encode_bound = λ n. n;
  decode_bound = λ e. length e;
  compress_bound = λ n. 7;
  decodes = λ e. true;
}

length-value : (a b : Bytes) (n : ℕ) → some a ≡ some b → length a ≤ n → length b ≤ n
length-value a b n e h =
    subst (λ (o : Option Bytes). elim o [ none ↦ Unit | some x ↦ (length x ≤ n) ]) e h

uncompress_fits : (size : ℕ) (c m : Bytes) → one_miniz.uncompress size c ≡ some m → length m ≤ size
uncompress_fits size c m e = elim (Bool-cases (leb 13 size)) [
  | inl room ↦ length-value hello m size (rw room at e) (ground arith)
  | inr small ↦ absurd (none_some (rw small at e))
]
  where
    none_some : none ≡ some m → ⊥
    none_some h = cc

their_bounds-IsBounded : IsBounded same_z85 one_miniz their_bounds
their_bounds-IsBounded = record {
  encode_fits = λ m e h. length-value m e (length m) h (omega arith);
  decode_fits = λ e m h. length-value e m (length e) h (omega arith);
  compress_fits = λ m c h. length-value stream c 7 h (omega arith);
  uncompress_fits = uncompress_fits;
}

encode_in-Leaves_example :
    Ends
      (encode_in same_z85 one_miniz their_bounds true hello no_blocks)
      (Leaves no_blocks (some stream))
unfolding encode_msg packed shorter mza_squash
encode_in-Leaves_example =
    encode_in-Leaves same_z85 one_miniz their_bounds their_bounds-IsBounded true hello no_blocks
      no_blocks-IsHeap
