-- ===== src/Alphabet.antt =====
-- The Z85 alphabet and the validation of an upload (src/webstore_node.c, base85, is_Z85_digit and
-- Z85_validate).
use webstore.Base.{
  ℕ, zero, suc, ◌+◌, ◌≤◌, ◌<◌, ◌≡◌, refl, subst, Bool, Bool-cases, inl, inr, true, false, ◌&&◌,
  ◌||◌, [], ◌∷◌, arith, ltb, ◌==◌, if◌then◌else◌, all,
}
use webstore.Base.Bytes.{Bytes, text, is_alnum, c_str}

-- "0123456789abcdefghij..." in the order of the source
unfoldable pub base85 : Bytes
unfolding text
base85 =
    text "0123456789abcdefghijklmnopqrstuvwxyzABCDEFGHIJKLMNOPQRSTUVWXYZ.-:+=^!/*?&<>()[]{}@%$#"

get_or : Bytes → ℕ → ℕ
get_or [] i = 0
get_or (x ∷ xs) zero = x
get_or (x ∷ xs) (suc i) = get_or xs i

-- for(i=first; ...; i++) { if(digit == base85[i]) return 1; } for `rounds` rounds
search_from : ℕ → ℕ → ℕ → ℕ
unfolding base85 get_or
search_from digit i zero = 0
search_from digit i (suc rounds) =
    let next = search_from digit (suc i) rounds in if digit == get_or base85 i then 1 else next

unfoldable pub is_Z85_digit : ℕ → ℕ
unfolding search_from is_alnum
is_Z85_digit digit = if is_alnum digit then 1 else search_from digit 62 23

-- Returns 1 at the first byte that is no digit, 0 if there is none.
unfoldable pub Z85_validate : Bytes → ℕ
Z85_validate [] = 0
Z85_validate (c ∷ cs) = if is_Z85_digit c == 0 then 1 else Z85_validate cs

-- the alphabet as a set, on its own: some entry of the table equals `c`
abbrev pub elem : ℕ → Bytes → Bool
elem c [] = false
elem c (x ∷ xs) = c == x || elem c xs

-- a test of `count` numbers in a row, from `first` on
every_from : ℕ → ℕ → (ℕ → Bool) → Bool
every_from first zero test = true
every_from first (suc count) test = test first && every_from (suc first) count test

every_from-at :
    (first count : ℕ) (test : ℕ → Bool) (c : ℕ)
    → first ≤ c
    → c < first + count
    → every_from first count test ≡ true
    → test c ≡ true
unfolding every_from
every_from-at first zero test c low high h = absurd (omega arith)
every_from-at first (suc count) test c low high h = elim (Bool-cases (first == c)) [
  | inl here ↦ head here
  | inr later ↦ every_from-at (suc first) count test c (ground arith) (omega arith) rest
]
  where
    now : test first ≡ true
    now = ground arith

    equal : (first == c) ≡ true → first ≡ c
    equal here = ground arith

    head : (first == c) ≡ true → test c ≡ true
    head here = subst (λ n. test n ≡ true) (equal here) now

    rest : every_from (suc first) count test ≡ true
    rest = ground arith

same : Bool → ℕ → Bool
same true n = n == 1
same false n = n == 0

digit_table : every_from 0 256 (λ c. same (elem c base85) (is_Z85_digit c)) ≡ true
unfolding every_from same base85 is_Z85_digit
digit_table = refl

same_sound : (b : Bool) (n : ℕ) → same b n ≡ true → n ≡ (if b then 1 else 0)
unfolding same
same_sound true n h = ground arith
same_sound false n h = ground arith

-- `isalnum` and the loop over the last 23 entries together are membership in the whole table.
is_Z85_digit-elem : (c : ℕ) → c < 256 → is_Z85_digit c ≡ (if elem c base85 then 1 else 0)
is_Z85_digit-elem c h =
    same_sound (elem c base85) (is_Z85_digit c) (
      every_from-at 0 256 (λ x. same (elem x base85) (is_Z85_digit x)) c (omega arith) h
        digit_table)

-- The validation of a list of bytes gives 0 if every byte of it is in the alphabet, and 1
-- otherwise.
pub Z85_validate-all :
    (data_ : Bytes)
    → all (λ c. ltb c 256) data_ ≡ true
    → Z85_validate data_ ≡ (if all (λ c. elem c base85) data_ then 0 else 1)
unfolding Z85_validate
Z85_validate-all [] h = refl
Z85_validate-all (c ∷ cs) h = ground (arith, is_Z85_digit-elem c, Z85_validate-all cs)

nul_not_digit : is_Z85_digit 0 ≡ 0
unfolding is_Z85_digit
nul_not_digit = refl

not_digit→pos : (c : ℕ) → (is_Z85_digit c == 0) ≡ false → (c == 0) ≡ false
not_digit→pos c h = ground (arith, nul_not_digit)

-- What passes has no NUL in it, so as a C string it is whole.
pub c_str-validated : (data_ : Bytes) → Z85_validate data_ ≡ 0 → c_str data_ ≡ data_
unfolding Z85_validate c_str
c_str-validated [] h = refl
c_str-validated (c ∷ cs) h = ground (arith, not_digit→pos c, c_str-validated cs)
