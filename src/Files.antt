-- ===== src/Files.antt =====
-- Reading a file (src/futils.c). The file system is a parameter: what stat says of a path, and what can
-- be read of it once it is open.
use webstore.Base.{
  ℕ, zero, suc, ◌≡◌, true, Option, none, some, ◌∷◌, arith, length, take, take-length, leb,
  if◌then◌else◌, ◌∙◌, ap,
}
use webstore.Base.Int.{ℤ, pos, negsuc}
use webstore.Base.Bytes.{Bytes}

-- stat_ret and st_mode; a regular file has a size
pub data Stat : Type 0 where
  no_entry stat_error not_regular : Stat
  regular : ℕ → Stat

pub record FileSystem : Type 0 where
  pub stat : Bytes → Stat
  pub open_read : Bytes → Option Bytes

size_of_stat : Stat → ℤ
size_of_stat no_entry = negsuc 0
size_of_stat stat_error = negsuc 1
size_of_stat not_regular = negsuc 2
size_of_stat (regular size) = pos size

unfoldable pub file_size : FileSystem → Bytes → ℤ
unfolding size_of_stat
file_size fs path = size_of_stat (fs.stat path)

-- fread(data, size, 1, f) == 1
read_whole : ℕ → Option Bytes → Option Bytes
read_whole size none = none
read_whole size (some content) =
    if leb size (length content) then some (take size content) else none

get_sized : ℤ → Option Bytes → Option Bytes
unfolding read_whole
get_sized (negsuc n) content = none
get_sized (pos zero) content = none
get_sized (pos (suc n)) content = read_whole (suc n) content

pub get_file : FileSystem → Bytes → Option Bytes
unfolding get_sized
get_file fs path = get_sized (file_size fs path) (fs.open_read path)

le_leb : (n : ℕ) → leb n n ≡ true
le_leb n = ground arith

read_sized :
    (size : ℤ) (c : ℕ) (cs : Bytes)
    → size ≡ pos (length (c ∷ cs))
    → get_sized size (some (c ∷ cs)) ≡ some (c ∷ cs)
unfolding get_sized
read_sized size c cs e =
    rw (e, le_leb (length (c ∷ cs)), take-length (length (c ∷ cs)) (c ∷ cs) (omega arith))

-- A regular file that is not empty, and whose size is as stat says, is read whole.
pub get_file-whole :
    (fs : FileSystem) (path : Bytes) (c : ℕ) (cs : Bytes)
    → fs.stat path ≡ regular (length (c ∷ cs))
    → fs.open_read path ≡ some (c ∷ cs)
    → get_file fs path ≡ some (c ∷ cs)
unfolding get_file file_size
get_file-whole fs path c cs e f =
    ap (get_sized (size_of_stat (fs.stat path))) f
    ∙ read_sized (size_of_stat (fs.stat path)) c cs (ap size_of_stat e)
