-- ===== src/Client/Buffers.antt =====
-- The memory of a compressed message: mza_squash, mza_restore and mza_free (src/compression.c).
pub mod Make
pub mod Free
pub mod Beside
pub mod Leaves
pub mod Encode
pub mod Decode
use webstore.Base.{
  ℕ, zero, suc, ◌*◌, ◌<◌, ◌≡◌, refl, sym, ap, subst, ◌∙◌, Bool, true, false, ◌&&◌, Option, none,
  some, List, [], ◌∷◌, arith, ltb, leb, ◌≤◌, ◌||◌, ◌==◌, if◌then◌else◌, length, Bool-cases,
  Option-cases, inl, inr, ==-sym,
}
use webstore.Base.Bytes.{Bytes}
use webstore.Memory.{
  Ptr, null, Heap, Run, ok, Cmd, fault, ◌>>=◌, ◌>>◌, give, write, write_same, write_other, with_new,
  with_new_same, with_new_other, alloc, load, store, store-ok, free, free-ok, write-IsHeap,
  free-IsHeap, alloc-IsHeap, IsHeap, Ends, Ends-bind, Ends-weaken,
}
use webstore.Client.Codec.{Z85, Miniz}

-- md_t, whose `err` is not read again; or a buffer with its size, the bytes that were written to it, and
-- whether a NUL follows these, which is so after calloc
pub data MzBlock : Type 0 where
  md : Ptr → Ptr → MzBlock
  buf : ℕ → Bool → Bytes → MzBlock

-- Z85_encode_with_padding_bound, Z85_decode_with_padding_bound and mz_compressBound, and whether
-- Z85_decode_with_padding returns for a page; its assertions end the process for others
pub record Bounds : Type 0 where
  pub encode_bound : ℕ → ℕ
  pub decode_bound : Bytes → ℕ
  pub compress_bound : ℕ → ℕ
  pub decodes : Bytes → Bool

-- What is encoded, decoded or compressed fits the bound, and mz_uncompress keeps to the size it is given.
pub record IsBounded (z : Z85) (mz : Miniz) (b : Bounds) : Type 0 where
  pub encode_fits :
      (m e : Bytes) → z.encode_with_padding m ≡ some e → length e ≤ b.encode_bound (length m)
  pub decode_fits : (e m : Bytes) → z.decode_with_padding e ≡ some m → length m ≤ b.decode_bound e
  pub compress_fits :
      (m c : Bytes) → mz.compress m ≡ some c → length c ≤ b.compress_bound (length m)
  pub uncompress_fits : (size : ℕ) (c m : Bytes) → mz.uncompress size c ≡ some m → length m ≤ size

as_md : MzBlock → Cmd MzBlock (Ptr × Ptr)
as_md (md orig_data comp_data) = give (orig_data, comp_data)
as_md (buf n e s) = λ h. fault

as_buf : MzBlock → Cmd MzBlock Bytes
as_buf (buf n e s) = give s
as_buf (md orig_data comp_data) = λ h. fault

pub load_md : Ptr → Cmd MzBlock (Ptr × Ptr)
unfolding as_md
load_md p = do b ← load p; as_md b

pub load_buf : Ptr → Cmd MzBlock Bytes
unfolding as_buf
load_buf p = do b ← load p; as_buf b

as_str : MzBlock → Cmd MzBlock Bytes
as_str (buf n e s) = if e && ltb (length s) n then give s else (λ h. fault)
as_str (md orig_data comp_data) = λ h. fault

-- the string, up to its NUL
pub load_str : Ptr → Cmd MzBlock Bytes
unfolding as_str
load_str p = do b ← load p; as_str b

fill : Ptr → Bytes → MzBlock → Cmd MzBlock (Unit {0})
fill q s (buf n e old) = if leb (length s) n then store q (buf n e s) else (λ h. fault)
fill q s (md orig_data comp_data) = λ h. fault

-- bytes from the start of the buffer, within its size
pub put : Ptr → Bytes → Cmd MzBlock (Unit {0})
unfolding fill
put q s = do b ← load q; fill q s b

close : Ptr → ℕ → MzBlock → Cmd MzBlock (Unit {0})
close q k (buf n e s) = if ltb k n then store q (buf n (e || (k == length s)) s) else (λ h. fault)
close q k (md orig_data comp_data) = λ h. fault

-- q[k] = 0, within its size
pub end_at : Ptr → ℕ → Cmd MzBlock (Unit {0})
unfolding close
end_at q k = do b ← load q; close q k b

-- an md_t with a buffer in `comp_data`, as mza_squash makes it, or in `orig_data`, as mza_restore does
abbrev pub with_buffer : Bool → Ptr → MzBlock
with_buffer true q = md null q
with_buffer false q = md q null

-- the buffer after mz_compress or mz_uncompress, which `result` is; it is freed if that failed
pub finish : Bool → Ptr → Ptr → Option Bytes → Cmd MzBlock Ptr
unfolding put
finish side p q (some s) = do put q s; give p
finish side p q none = do free q; store p (with_buffer side null); give p

-- `size` is the buffer's
unfoldable pub make : Bool → ℕ → Option Bytes → Cmd MzBlock Ptr
unfolding finish
make side size result = do
  p ← alloc (md null null)
  q ← alloc (buf size true [])
  store p (with_buffer side q)
  finish side p q result

unfoldable pub squash_in : Miniz → Bounds → Bytes → Cmd MzBlock Ptr
unfolding make
squash_in mz b msg = make true (b.compress_bound (length msg)) (mz.compress msg)

abbrev pub restored_size : Bytes → ℕ → ℕ
restored_size comp_str orig_len = if ltb 0 orig_len then orig_len else 10 * length comp_str

unfoldable pub restore_in : Miniz → Bytes → ℕ → Cmd MzBlock Ptr
unfolding make
restore_in mz comp_str orig_len =
    make false (restored_size comp_str orig_len)
      (mz.uncompress (restored_size comp_str orig_len) comp_str)

abbrev pub zeros : ℕ → Bytes
zeros zero = []
zeros (suc n) = 0 ∷ zeros n

-- memset(q, 0, len); free(q)
pub wipe : Ptr → Cmd MzBlock (Unit {0})
unfolding put
wipe q = if q == null then give tt else do s ← load_buf q; put q (zeros (length s)); free q

unfoldable pub free_in : Ptr → Cmd MzBlock (Unit {0})
unfolding wipe
free_in p =
    if p == null
    then give tt
    else do m ← load_md p; wipe m.0; wipe m.1; store p (md null null); free p

pub load_md-ok :
    (h : Heap MzBlock) (p a b : Ptr) → h.at p ≡ some (md a b) → load_md p h ≡ ok (a, b) h
unfolding load_md load as_md
load_md-ok h p a b e = rw (load_md, ◌>>=◌, load, e) refl

lt_ltb : (a b : ℕ) → a < b → ltb a b ≡ true
lt_ltb a b h = ground arith

le_leb : (a b : ℕ) → a ≤ b → leb a b ≡ true
le_leb a b h = ground arith

module _ (h : Heap MzBlock) (p : Ptr) (n : ℕ) (b : Bool) (s : Bytes)
    (e : h.at p ≡ some (buf n b s)) where
  pub load_buf-ok : load_buf p h ≡ ok s h
  unfolding load_buf load as_buf
  load_buf-ok = rw (load_buf, ◌>>=◌, load, e) refl

  pub load_str-ok : b ≡ true → length s < n → load_str p h ≡ ok s h
  unfolding load_str load as_str
  load_str-ok ended room = rw (load_str, ◌>>=◌, load, e, ended, lt_ltb (length s) n room) refl

  pub put-ok : (t : Bytes) → length t ≤ n → put p t h ≡ ok tt (write h p (some (buf n b t)))
  unfolding put load fill
  put-ok t room =
      rw (put, ◌>>=◌, load, e, le_leb (length t) n room) (store-ok h p (buf n b s) (buf n b t) e)

  pub end_at-ok : length s < n → end_at p (length s) h ≡ ok tt (write h p (some (buf n true s)))
  unfolding end_at load close
  end_at-ok room =
      rw (end_at, ◌>>=◌, load, e, lt_ltb (length s) n room, ended)
        (store-ok h p (buf n b s) (buf n true s) e)
    where
      ended : (b || (length s == length s)) ≡ true
      ended = ground arith

-- `q` is a buffer of its own with the data, or NULL if there is none
abbrev pub Buffer : Heap MzBlock → Heap MzBlock → Ptr → Ptr → Option Bytes → Type 0
Buffer h0 g p q none = q ≡ null
Buffer h0 g p q (some s) =
    ((q == null) ≡ false)
    × ((q == p) ≡ false)
    × ((n : ℕ) × (g.at q ≡ some (buf n true s)) × (length s ≤ n))
    × (h0.at q ≡ none)

-- Memory `g` is `h0` with an md_t at `p` and its buffer.
pub record Held (h0 : Heap MzBlock) (side : Bool) (p : Ptr) (data_ : Option Bytes)
    (g : Heap MzBlock) : Type 0 where
  good : IsHeap g
  q : Ptr
  p_null : (p == null) ≡ false
  at_p : g.at p ≡ some (with_buffer side q)
  mine : h0.at p ≡ none
  buffer : Buffer h0 g p q data_
  same : (a : Ptr) → (a == p) ≡ false → ((q == null) ≡ false → (a == q) ≡ false) → g.at a ≡ h0.at a

pub equal : (a b : Ptr) → (a == b) ≡ true → a ≡ b
equal a b e = ground (arith, e)
