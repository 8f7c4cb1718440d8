-- ===== src/Base/Decimal.antt =====
-- `%d` and `%ld` of printf, and `atoi` and `atol`: decimal numbers as byte strings.
use Prim.Native.Nat.{ℕ, zero, suc, ◌+◌, ◌-◌, ◌*◌, ◌/◌, ◌%◌, ◌^◌, ◌<◌, ◌≤◌}
use mathlib.Core.Path.{◌≡◌, refl, ◌∙◌}
use mathlib.Core.Logic.{inl, inr}
use mathlib.Core.Bool.{true}
use mathlib.Core.List.{[], ◌∷◌, ◌++◌, append_assoc, append-nil}
use native.Mathlib.Omega.{arith}
use native.Mathlib.Nat.{pow-suc}
use webstore.Base.Lists.{length, length-append}
use webstore.Base.Tests.{ltb, leb, ◌==◌, if◌then◌else◌, Bool-cases}
use webstore.Base.Int.{ℤ, pos, negsuc, pos_part, neg_part, to_signed}
use webstore.Base.Bytes.{Bytes, is_digit, is_space}

-- the digits of `n`, for fuel above `n`
unfoldable pub decimal_fuel : ℕ → ℕ → Bytes
decimal_fuel zero n = []
decimal_fuel (suc f) n =
    let rest = decimal_fuel f (n / 10) ++ ((48 + n % 10) ∷ []) in
    if ltb n 10 then (48 + n) ∷ [] else rest

unfoldable pub decimal : ℕ → Bytes
unfolding decimal_fuel
decimal n = decimal_fuel (suc n) n

unfoldable pub decimal_ℤ : ℤ → Bytes
unfolding decimal
decimal_ℤ (pos n) = decimal n
decimal_ℤ (negsuc n) = 45 ∷ decimal (suc n)

-- the value of the digits in front, after `acc`
read_digits : ℕ → Bytes → ℕ
unfolding is_digit
read_digits acc [] = acc
read_digits acc (c ∷ cs) =
    let more = read_digits (acc * 10 + (c - 48)) cs in if is_digit c then more else acc

skip_spaces : Bytes → Bytes
unfolding is_space
skip_spaces [] = []
skip_spaces (c ∷ cs) = if is_space c then skip_spaces cs else c ∷ cs

-- a magnitude held to the range of `long`, as strtol does
clamp_pos : ℕ → ℤ
clamp_pos n = if ltb n (2 ^ 63) then pos n else pos (2 ^ 63 - 1)

clamp_neg : ℕ → ℤ
clamp_neg n =
    if n == 0 then pos 0 else if leb n (2 ^ 63) then negsuc (n - 1) else negsuc (2 ^ 63 - 1)

signed_number : Bytes → ℤ
unfolding read_digits clamp_pos clamp_neg
signed_number [] = pos 0
signed_number (c ∷ cs) =
    if c == 45
    then clamp_neg (read_digits 0 cs)
    else if c == 43
    then clamp_pos (read_digits 0 cs)
    else clamp_pos (read_digits 0 (c ∷ cs))

-- atol(s) is strtol(s, NULL, 10)
unfoldable pub atol : Bytes → ℤ
unfolding signed_number skip_spaces
atol s = signed_number (skip_spaces s)

-- atoi(s) is the same number cut to 32 bits
unfoldable pub atoi : Bytes → ℤ
unfolding atol
atoi s = to_signed 31 (atol s)

read_digits-decimal_fuel :
    (f n : ℕ) (rest : Bytes) → n < f → read_digits 0 (decimal_fuel f n ++ rest) ≡ read_digits n rest
unfolding read_digits decimal_fuel
read_digits-decimal_fuel zero n rest h = elim h [ ]
read_digits-decimal_fuel (suc f) n rest h = elim (Bool-cases (ltb n 10)) [
  | inl low ↦ rw low (ground arith)
  | inr high ↦
      rw (high, append_assoc) (read_digits-decimal_fuel f (n / 10) _ (ground arith) ∙ ground arith)
]

read_digits-decimal : (n : ℕ) → read_digits 0 (decimal n) ≡ n
unfolding decimal read_digits
read_digits-decimal n =
    rw (← append-nil (decimal_fuel (suc n) n)) (read_digits-decimal_fuel (suc n) n [] (omega arith))

-- a number begins with a digit
decimal_fuel_head :
    (f n : ℕ) → n < f → (c : ℕ) × (cs : Bytes) × (decimal_fuel f n ≡ c ∷ cs) × (is_digit c ≡ true)
unfolding decimal_fuel is_digit
decimal_fuel_head zero n h = elim h [ ]
decimal_fuel_head (suc f) n h = elim (Bool-cases (ltb n 10)) [
  | inl low ↦ (48 + n, [], rw low, ground arith)
  | inr high ↦
      let (c, cs, e, d) = decimal_fuel_head f (n / 10) (ground arith) in
      (c, cs ++ ((48 + n % 10) ∷ []), rw (high, e), d)
]

signed_number-digit :
    (c : ℕ) (cs : Bytes)
    → is_digit c ≡ true
    → signed_number (c ∷ cs) ≡ clamp_pos (read_digits 0 (c ∷ cs))
unfolding signed_number is_digit
signed_number-digit c cs h = ground arith

skip_spaces-digit : (c : ℕ) (cs : Bytes) → is_digit c ≡ true → skip_spaces (c ∷ cs) ≡ c ∷ cs
unfolding skip_spaces is_digit is_space
skip_spaces-digit c cs h = ground arith

signed_number-decimal : (n : ℕ) → signed_number (skip_spaces (decimal n)) ≡ clamp_pos n
unfolding decimal
signed_number-decimal n =
    let (c, cs, e, d) = decimal_fuel_head (suc n) n (omega arith) in
    rw (e, skip_spaces-digit c cs d, signed_number-digit c cs d, ← e, read_digits-decimal n)

-- `atol` reads back what `%ld` prints of a number in its range.
pub atol-decimal : (n : ℕ) → n < 2 ^ 63 → atol (decimal n) ≡ pos n
unfolding atol
atol-decimal n h = signed_number-decimal n ∙ (unfold clamp_pos in ground arith)

-- `atoi` reads back what `%d` prints of a number in its range.
pub atoi-decimal : (n : ℕ) → n < 2 ^ 31 → atoi (decimal n) ≡ pos n
unfolding atoi
atoi-decimal n h = rw (atol-decimal n (omega arith)) (ground arith)

atol_tests :
    (atol (32 ∷ 45 ∷ 49 ∷ 50 ∷ 120 ∷ []) ≡ negsuc 11)
    × (atol (48 ∷ 55 ∷ []) ≡ pos 7)
    × (decimal 1050 ≡ 49 ∷ 48 ∷ 53 ∷ 48 ∷ [])
unfolding atol read_digits decimal clamp_neg clamp_pos is_digit is_space
atol_tests = (refl, refl, refl)

tens : (k : ℕ) → 10 ^ suc k ≡ 10 * 10 ^ k
tens k = rw pow-suc (omega arith)

length-decimal_fuel : (f n k : ℕ) → n < 10 ^ suc k → length (decimal_fuel f n) ≤ suc k
unfolding decimal_fuel
length-decimal_fuel zero n k h = omega arith
length-decimal_fuel (suc f) n k h = elim (Bool-cases (ltb n 10)) [
  | inl low ↦ rw low (omega arith)
  | inr high ↦ rw high (shorter (length-decimal_fuel f (n / 10)) k h (ground arith))
]
  where
    shorter :
        ((j : ℕ) → n / 10 < 10 ^ suc j → length (decimal_fuel f (n / 10)) ≤ suc j)
        → (j : ℕ) → n < 10 ^ suc j
        → 10 ≤ n
        → length (decimal_fuel f (n / 10) ++ ((48 + n % 10) ∷ [])) ≤ suc j
    shorter ih zero small big = absurd (omega arith)
    shorter ih (suc j) small big = omega (
      arith,
      ih j (omega (arith, tens (suc j))),
      length-append {0} (decimal_fuel f (n / 10)) ((48 + n % 10) ∷ []),
    )

-- A number below 2 ^ 64 prints in twenty digits at most.
length-decimal : (n : ℕ) → n < 2 ^ 64 → length (decimal n) ≤ 20
unfolding decimal
length-decimal n h = length-decimal_fuel (suc n) n 19 (omega arith)

pub length-decimal_ℤ :
    (i : ℤ) → pos_part i < 2 ^ 63 → neg_part i ≤ 2 ^ 63 → length (decimal_ℤ i) ≤ 21
unfolding decimal_ℤ
length-decimal_ℤ (pos n) h k = omega (arith, length-decimal n (omega arith))
length-decimal_ℤ (negsuc n) h k = omega (arith, length-decimal (suc n) (omega arith))
