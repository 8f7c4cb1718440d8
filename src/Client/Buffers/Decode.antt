-- ===== src/Client/Buffers/Decode.antt =====
-- decode_msg, inflate_msg and handle_page with their buffers (src/ws_get.c).
use webstore.Base.{
  ℕ, ◌+◌, Bool, true, ◌≡◌, false, Option, none, some, [], ◌==◌, if◌then◌else◌, length,
}
use webstore.Base.Bytes.{Bytes}
use webstore.Memory.{Ptr, null, Heap, Cmd, ◌>>=◌, ◌>>◌, give, fault, alloc, free, IsHeap}
use webstore.Client.Codec.{Z85, Miniz, looks_packed}
use webstore.Client.Buffers.{
  MzBlock, buf, load_md, load_buf, restore_in, free_in, put, load_str, Bounds,
}
use webstore.Client.Buffers.Leaves.{block_of, hand_out, Leaves}

-- Z85_decode_with_padding; an assertion that fails ends the process, and counts as a fault
decoded : Z85 → Bounds → Bytes → Cmd MzBlock (Option Bytes)
decoded z b msg = if b.decodes msg then give (z.decode_with_padding msg) else (λ h. fault)

-- decode_msg; the result of no bytes is none
decode_in : Z85 → Bounds → Bytes → Cmd MzBlock Ptr
unfolding decoded
decode_in z b msg = do
  dec ← alloc (buf (1 + b.decode_bound msg) false [])
  o ← decoded z b msg
  put dec (block_of o)
  hand_out dec o

-- mz->orig_data and mz->orig_len, if it is there and not empty
restored : Ptr → Cmd MzBlock (Option (Ptr × ℕ))
restored p = do
  m ← load_md p
  if m.0 == null
      then give none
      else do s ← load_buf m.0; give (if length s == 0 then none else some (m.0, length s))

copy_out : Ptr → Option (Ptr × ℕ) → Cmd MzBlock Ptr
copy_out p none = free_in p >> give null
copy_out p (some (q, bytes)) = do
  data_ ← alloc (buf (bytes + 1) true [])
  s ← load_buf q
  put data_ s
  free_in p
  give data_

inflate_in : Miniz → Ptr → Cmd MzBlock Ptr
unfolding restored copy_out
inflate_in mz pack = do
  s ← load_buf pack
  p ← restore_in mz s 0
  free pack
  o ← restored p
  copy_out p o

-- The data that is written to the file, or printed as a string, and freed.
put_out : Bool → Ptr → Cmd MzBlock (Option Bytes)
put_out to_file data_ = do
  s ← (if to_file then load_buf data_ else load_str data_)
  free data_
  give (some s)

put_in : Bool → Ptr → Cmd MzBlock (Option Bytes)
unfolding put_out
put_in to_file d = if d == null then give none else put_out to_file d

-- handle_page after decode_msg
unpack_in : Miniz → Bool → Ptr → Cmd MzBlock (Option Bytes)
unfolding inflate_in put_out put_in
unpack_in mz to_file data_ = if data_ == null then give none else do
  s ← load_buf data_
  if looks_packed s then (do d ← inflate_in mz data_; put_in to_file d) else put_out to_file data_

-- handle_page up to what it writes
unfoldable pub show_in : Z85 → Miniz → Bounds → Bool → Bytes → Cmd MzBlock (Option Bytes)
unfolding decode_in unpack_in
show_in z mz b to_file page = do data_ ← decode_in z b page; unpack_in mz to_file data_

-- the memory is as it was, and `o` is what has been shown
abbrev pub Shown : Heap MzBlock → Option Bytes → Option Bytes → Heap MzBlock → Type 0
Shown h want o g = (o ≡ want) × IsHeap g × ((a : Ptr) → g.at a ≡ h.at a)
