-- ===== src/Token.antt =====
-- The token in a URL: hex digits, turned to lower case (src/webstore_node.c, convert_hash).
use webstore.Base.{
  ℕ, zero, suc, ◌≤◌, ◌≡◌, Bool, true, false, ◌&&◌, Option, none, some, [], ◌∷◌, map, arith, ltb,
  ◌==◌, if◌then◌else◌, length, take, all,
}
use webstore.Base.Bytes.{Bytes, is_xdigit, to_lower, is_upper}
use webstore.Redis.{Redis}
use webstore.Server.{M, exits, done, State}

-- The loop over input[0] to input[len - 1]. A string that ends before shows its NUL, no hex digit.
unfoldable pub convert_loop : ℕ → Bytes → Option Bytes
convert_loop zero input = some []
convert_loop (suc n) [] = none
convert_loop (suc n) (c ∷ cs) =
    if is_xdigit c
    then elim (convert_loop n cs) [ none ↦ none | some rest ↦ some (to_lower c ∷ rest) ]
    else none

-- newhash[256] holds 255 characters and a NUL.
pub convert_hash : {R : Redis} → Bytes → ℕ → M R (Option Bytes)
unfolding convert_loop
convert_hash input len s = if ltb 255 len then exits 1 else done (convert_loop len input, s)

-- the first `n` characters are there and are hex digits
abbrev pub hex_prefix : ℕ → Bytes → Bool
hex_prefix n cs = all is_xdigit (take n cs) && length (take n cs) == n

-- The loop of convert_hash succeeds exactly if there are as many characters as asked for and all
-- are hex digits, and gives them in lower case.
pub convert_loop_lem :
    (n : ℕ) (input : Bytes)
    → convert_loop n input
      ≡ (if hex_prefix n input then some (map to_lower (take n input)) else none)
unfolding convert_loop
convert_loop_lem zero input = ground arith
convert_loop_lem (suc n) [] = ground arith
convert_loop_lem (suc n) (c ∷ cs) = ground (arith, convert_loop_lem n cs)

-- a hex digit as the stored key has it
abbrev pub is_key_char : ℕ → Bool
is_key_char c = is_xdigit c && ltb c 103 && (if is_upper c then false else true)

to_lower-key : (c : ℕ) → is_xdigit c ≡ true → is_key_char (to_lower c) ≡ true
unfolding is_xdigit to_lower
to_lower-key c h = ground arith

to_lower_idem : (c : ℕ) → to_lower (to_lower c) ≡ to_lower c
unfolding to_lower
to_lower_idem c = ground arith

-- A converted token has the asked length, and consists of hex digits with no capitals.
pub convert_loop-key :
    (n : ℕ) (input key : Bytes)
    → convert_loop n input ≡ some key
    → (length key ≡ n) × (all is_key_char key ≡ true)
unfolding convert_loop
convert_loop-key zero input key h = ground arith
convert_loop-key (suc n) [] key h = cc
convert_loop-key (suc n) (c ∷ cs) [] h = ground arith
convert_loop-key (suc n) (c ∷ cs) (k ∷ ks) h =
    ground (arith, to_lower-key c, convert_loop-key n cs ks)

-- The call of convert_hash on a token that fits its buffer.
pub convert_hash-short :
    {R : Redis} (input : Bytes) (len : ℕ) (s : State R)
    → len ≤ 255
    → convert_hash input len s
      ≡ done ((if hex_prefix len input then some (map to_lower (take len input)) else none), s)
unfolding convert_hash
convert_hash-short input len s h = rw (not_long, convert_loop_lem)
  where
    not_long : ltb 255 len ≡ false
    not_long = ground arith
