-- ===== src/Base/Int.antt =====
-- The signed integers of C's `int` and `long`, as mathematical integers; a conversion that wraps is
-- written out where the code makes it.
use Prim.Native.Nat.{ℕ, suc, ◌+◌, ◌-◌, ◌%◌, ◌^◌}
use mathlib.Core.Bool.{Bool, true}
use webstore.Base.Tests.{ltb, if◌then◌else◌}

-- `negsuc n` is -(n + 1).
pub data ℤ : Type 0 where
  pos : ℕ → ℤ
  negsuc : ℕ → ℤ

abbrev pub pos_part : ℤ → ℕ
pos_part (pos n) = n
pos_part (negsuc n) = 0

abbrev pub neg_part : ℤ → ℕ
neg_part (pos n) = 0
neg_part (negsuc n) = suc n

abbrev pub ltb_ℤ : ℤ → ℤ → Bool
ltb_ℤ a b = ltb (pos_part a + neg_part b) (pos_part b + neg_part a)

-- the truth of an integer in a C condition
abbrev pub truth : ℤ → Bool
truth (pos n) = ltb 0 n
truth (negsuc n) = true

-- the value modulo 2 ^ w, as an unsigned integer of w bits
abbrev pub to_unsigned : ℕ → ℤ → ℕ
to_unsigned w (pos n) = n % 2 ^ w
to_unsigned w (negsuc n) = 2 ^ w - 1 - n % 2 ^ w

-- the value modulo 2 ^ (v + 1), as a signed integer of v + 1 bits
abbrev pub to_signed : ℕ → ℤ → ℤ
to_signed v i =
    let u = to_unsigned (v + 1) i in if ltb u (2 ^ v) then pos u else negsuc (2 ^ (v + 1) - 1 - u)

-- i + 1
abbrev pub suc_ℤ : ℤ → ℤ
suc_ℤ (pos n) = pos (n + 1)
suc_ℤ (negsuc n) = if ltb 0 n then negsuc (n - 1) else pos 0
