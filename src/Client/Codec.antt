-- ===== src/Client/Codec.antt =====
-- What a message becomes on its way (encode_msg of src/ws_post.c, decode_msg and inflate_msg of
-- src/ws_get.c, src/compression.c), in a build with MINIZ_COMPRESSION. The Z85 library and miniz are
-- parameters.
use webstore.Base.{
  ℕ, ◌*◌, ◌≤◌, ◌≡◌, refl, Bool, true, false, not, ◌&&◌, Option, none, some, ◌∷◌, arith, ltb, leb,
  ◌==◌, if◌then◌else◌, length, all, Bool-cases, Option-cases, inl, inr, ◌∙◌, sym, leb→le,
}
use webstore.Base.Bytes.{Bytes}
use webstore.Alphabet.{elem, base85, Z85_validate, Z85_validate-all}

-- Z85_encode_with_padding and Z85_decode_with_padding; none is a result of no bytes
pub record Z85 : Type 0 where
  pub encode_with_padding : Bytes → Option Bytes
  pub decode_with_padding : Bytes → Option Bytes

-- A message that is not empty is encoded in digits of the alphabet, a digit for the padding and five
-- for each four bytes; the decoding is the message.
pub record IsZ85 (z : Z85) : Type 0 where
  pub encoded : (m : Bytes) → 1 ≤ length m → (e : Bytes) × (z.encode_with_padding m ≡ some e)
  pub length-encoded : (m e : Bytes) → z.encode_with_padding m ≡ some e → 6 ≤ length e
  pub digits : (m e : Bytes) → z.encode_with_padding m ≡ some e → all (λ c. elem c base85) e ≡ true
  pub bytes : (m e : Bytes) → z.encode_with_padding m ≡ some e → all (λ c. ltb c 256) e ≡ true
  pub decode-encode :
      (m e : Bytes) → z.encode_with_padding m ≡ some e → z.decode_with_padding e ≡ some m

-- mz_compress into a buffer of mz_compressBound, and mz_uncompress into one of a given size; none is
-- any result but Z_OK
pub record Miniz : Type 0 where
  pub compress : Bytes → Option Bytes
  pub uncompress : ℕ → Bytes → Option Bytes

abbrev pub starts_zlib : Bytes → Bool
starts_zlib (a ∷ b ∷ rest) = a == 120 && b == 1
starts_zlib _ = false

-- A compressed message is a zlib stream, with its header of two bytes and its checksum of four, and
-- uncompresses into any buffer that the message fits.
pub record IsMiniz (mz : Miniz) : Type 0 where
  pub header : (m c : Bytes) → mz.compress m ≡ some c → starts_zlib c ≡ true
  pub length-compress : (m c : Bytes) → mz.compress m ≡ some c → 7 ≤ length c
  pub uncompress-compress :
      (m c : Bytes) (size : ℕ)
      → mz.compress m ≡ some c
      → length m ≤ size
      → mz.uncompress size c ≡ some m

unfoldable pub mza_squash : Miniz → Bytes → Option Bytes
mza_squash mz data_ = mz.compress data_

-- without an original length the buffer is ten times the compressed length
unfoldable pub mza_restore : Miniz → Bytes → ℕ → Option Bytes
mza_restore mz comp_str orig_len =
    mz.uncompress (if ltb 0 orig_len then orig_len else 10 * length comp_str) comp_str

-- the compressed message, if that is asked for, and shorter
unfoldable pub shorter : Bytes → Option Bytes → Bytes
shorter msg none = msg
shorter msg (some comp) =
    if ltb 0 (length comp) && ltb (length comp) (length msg) then comp else msg

unfoldable pub packed : Miniz → Bool → Bytes → Bytes
unfolding mza_squash shorter
packed mz g_comp msg = if g_comp then shorter msg (mza_squash mz msg) else msg

unfoldable pub encode_msg : Z85 → Miniz → Bool → Bytes → Option Bytes
encode_msg z mz g_comp msg = z.encode_with_padding (packed mz g_comp msg)

unfoldable pub decode_msg : Z85 → Bytes → Option Bytes
decode_msg z msg = z.decode_with_padding msg

unfoldable pub not_empty : Option Bytes → Option Bytes
not_empty none = none
not_empty (some d) = if length d == 0 then none else some d

unfoldable pub inflate_msg : Miniz → Bytes → Option Bytes
unfolding mza_restore not_empty
inflate_msg mz pack = not_empty (mza_restore mz pack 0)

-- (bytes > 6) && (data[0] == 0x78) && (data[1] == 0x01)
abbrev pub looks_packed : Bytes → Bool
looks_packed data_ = ltb 6 (length data_) && starts_zlib data_

unfoldable pub unpacked : Miniz → Option Bytes → Option Bytes
unpacked mz none = none
unpacked mz (some data_) = if looks_packed data_ then inflate_msg mz data_ else some data_

-- the data that handle_page writes or prints
unfoldable pub page_data : Z85 → Miniz → Bytes → Option Bytes
unfolding unpacked decode_msg
page_data z mz page = unpacked mz (decode_msg z page)

abbrev fits_buffer : Bytes → Option Bytes → Bool
fits_buffer m none = not (looks_packed m)
fits_buffer m (some c) =
    if ltb 0 (length c) && ltb (length c) (length m)
    then leb (length m) (10 * length c)
    else not (looks_packed m)

-- The messages that come back: a message that is sent compressed is at most ten times as long as its
-- compression, and one that is sent as it is does not begin like a compressed one.
abbrev pub comes_back : Miniz → Bool → Bytes → Bool
comes_back mz g_comp m = if g_comp then fits_buffer m (mz.compress m) else not (looks_packed m)

plain : (mz : Miniz) (m : Bytes) → not (looks_packed m) ≡ true → unpacked mz (some m) ≡ some m
unfolding unpacked
plain mz m h = rw (unlike (looks_packed m) h)
  where
    unlike : (b : Bool) → not b ≡ true → b ≡ false
    unlike true h' = sym h'
    unlike false h' = refl

inflated :
    (mz : Miniz) (laws : IsMiniz mz) (m c : Bytes)
    → mz.compress m ≡ some c
    → 1 ≤ length m
    → leb (length m) (10 * length c) ≡ true
    → unpacked mz (some c) ≡ some m
unfolding unpacked inflate_msg mza_restore not_empty
inflated mz laws m c e h fits =
    rw (looks, laws.uncompress-compress m c (10 * length c) e (leb→le _ _ fits), some_bytes)
  where
    looks : looks_packed c ≡ true
    looks = ground (arith, laws.header m c e, laws.length-compress m c e)

    some_bytes : (length m == 0) ≡ false
    some_bytes = ground arith

unpacked-packed :
    (mz : Miniz) (laws : IsMiniz mz) (g_comp : Bool) (m : Bytes)
    → 1 ≤ length m
    → comes_back mz g_comp m ≡ true
    → (unpacked mz (some (packed mz g_comp m)) ≡ some m) × (1 ≤ length (packed mz g_comp m))
unfolding packed shorter mza_squash
unpacked-packed mz laws false m h ok = (plain mz m ok, h)
unpacked-packed mz laws true m h ok = elim (Option-cases (mz.compress m)) [
  | inl e ↦ rw e (plain mz m (rw e at ok), h)
  | inr (c, e) ↦ rw e (smaller c e (rw e at ok))
]
  where
    smaller :
        (c : Bytes)
        → mz.compress m ≡ some c
        → fits_buffer m (some c) ≡ true
        → (unpacked mz (some (shorter m (some c))) ≡ some m) × (1 ≤ length (shorter m (some c)))
    smaller c e ok' = elim (Bool-cases (ltb 0 (length c) && ltb (length c) (length m))) [
      | inl used ↦
          rw used
            (inflated mz laws m c e h (rw used at ok'), ground (arith, laws.length-compress m c e))
      | inr unused ↦ rw unused (plain mz m (rw unused at ok'), h)
    ]

-- A message that is not empty and comes back is encoded, and the encoding is one that the server
-- takes: at least five bytes, all of them Z85 digits. Decoded and, if need be, inflated, it is the
-- message again, byte for byte. A message comes back if it is sent compressed and is at most ten
-- times as long as its compression, or if it is sent as it is and does not begin like a compressed
-- one; the Z85 library and miniz keep their laws.
pub page_data-encode_msg :
    (z : Z85) (zlaws : IsZ85 z) (mz : Miniz) (mlaws : IsMiniz mz) (g_comp : Bool) (m : Bytes)
    → 1 ≤ length m
    → comes_back mz g_comp m ≡ true
    → (e : Bytes) × (encode_msg z mz g_comp m ≡ some e)
      × (page_data z mz e ≡ some m)
      × (leb 5 (length e) ≡ true)
      × (Z85_validate e ≡ 0)
unfolding encode_msg page_data decode_msg
page_data-encode_msg z zlaws mz mlaws g_comp m h ok =
    let (back, len) = unpacked-packed mz mlaws g_comp m h ok in
    let (e, is_e) = zlaws.encoded (packed mz g_comp m) len in
    (
      e,
      is_e,
      rw (zlaws.decode-encode _ e is_e) back,
      ground (arith, zlaws.length-encoded _ e is_e),
      Z85_validate-all e (zlaws.bytes _ e is_e) ∙ rw (zlaws.digits _ e is_e),
    )
