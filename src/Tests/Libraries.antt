-- ===== src/Tests/Libraries.antt =====
-- A small Z85 library and a small miniz that keep the laws asked of them.
use webstore.Base.{
  ℕ, zero, suc, ◌+◌, ◌≤◌, ◌≡◌, refl, ap, subst, ◌∙◌, Bool, true, Option, none, some, [], ◌∷◌, arith,
  length, all, ltb, leb, ◌==◌, if◌then◌else◌, drop,
}
use webstore.Base.Bytes.{Bytes}
use webstore.Alphabet.{elem, base85}
use webstore.Client.Codec.{Z85, IsZ85, Miniz, IsMiniz, starts_zlib}

-- a byte as so many digits 0 and a digit 1
unfoldable pub unary : ℕ → Bytes → Bytes
unary zero rest = 49 ∷ rest
unary (suc n) rest = 48 ∷ unary n rest

unfoldable pub unary_all : Bytes → Bytes
unfolding unary
unary_all [] = []
unary_all (b ∷ bs) = unary b (unary_all bs)

unfoldable pub counted : ℕ → Bytes → Bytes
counted n [] = []
counted n (c ∷ cs) = if c == 49 then n ∷ counted 0 cs else counted (suc n) cs

counted-unary : (k n : ℕ) (rest : Bytes) → counted k (unary n rest) ≡ (k + n) ∷ counted 0 rest
unfolding counted unary
counted-unary k zero rest = ap (λ x. x ∷ counted 0 rest) (omega arith)
counted-unary k (suc n) rest =
    counted-unary (suc k) n rest ∙ ap (λ x. x ∷ counted 0 rest) (omega arith)

counted-unary_all : (m : Bytes) → counted 0 (unary_all m) ≡ m
unfolding unary_all counted
counted-unary_all [] = refl
counted-unary_all (b ∷ bs) =
    counted-unary 0 b (unary_all bs)
    ∙ ap (λ x. x ∷ counted 0 (unary_all bs)) (zero_add b)
    ∙ ap (λ x. b ∷ x) (counted-unary_all bs)
  where
    zero_add : (n : ℕ) → 0 + n ≡ n
    zero_add n = omega arith

elem_digits : (elem 48 base85 ≡ true) × (elem 49 base85 ≡ true)
unfolding base85
elem_digits = (refl, refl)

unary_digits :
    (n : ℕ) (rest : Bytes) (p : ℕ → Bool)
    → p 48 ≡ true
    → p 49 ≡ true
    → all p rest ≡ true
    → all p (unary n rest) ≡ true
unfolding unary
unary_digits zero rest p h k r = rw (k, r)
unary_digits (suc n) rest p h k r = rw h (unary_digits n rest p h k r)

unary_all_digits :
    (m : Bytes) (p : ℕ → Bool) → p 48 ≡ true → p 49 ≡ true → all p (unary_all m) ≡ true
unfolding unary_all
unary_all_digits [] p h k = refl
unary_all_digits (b ∷ bs) p h k = unary_digits b (unary_all bs) p h k (unary_all_digits bs p h k)

length-unary : (n : ℕ) (rest : Bytes) → 1 ≤ length (unary n rest)
unfolding unary
length-unary zero rest = omega arith
length-unary (suc n) rest = omega arith

abbrev pub encoded : Bytes → Bytes
encoded m = 48 ∷ 48 ∷ 48 ∷ 48 ∷ 48 ∷ unary_all m

unfoldable pub unary_encode : Bytes → Option Bytes
unary_encode [] = none
unary_encode (b ∷ bs) = some (encoded (b ∷ bs))

abbrev pub unary_z85 : Z85
unary_z85 = record {
  encode_with_padding = unary_encode;
  decode_with_padding = λ e. some (counted 0 (drop 5 e));
}

value_eq : {a b : Bytes} → some a ≡ some b → a ≡ b
value_eq {a} e = ap (λ (o : Option Bytes). elim o [ none ↦ a | some x ↦ x ]) e

is_encoded : (m e : Bytes) → unary_encode m ≡ some e → (encoded m ≡ e) × (6 ≤ length e)
unfolding unary_encode unary_all
is_encoded [] e h = absurd (cc)
is_encoded (b ∷ bs) e h = (
  value_eq h,
  subst (λ x. 6 ≤ length x) (value_eq h) (omega (arith, length-unary b (unary_all bs))),
)

encodes : (m : Bytes) → 1 ≤ length m → (e : Bytes) × (unary_encode m ≡ some e)
unfolding unary_encode
encodes [] h = absurd (omega arith)
encodes (b ∷ bs) h = (encoded (b ∷ bs), refl)

encoded_digits : (m : Bytes) (p : ℕ → Bool) → p 48 ≡ true → p 49 ≡ true → all p (encoded m) ≡ true
encoded_digits m p h k = rw h (unary_all_digits m p h k)

pub unary_z85-IsZ85 : IsZ85 unary_z85
unary_z85-IsZ85 = record {
  encoded = encodes;
  length-encoded = λ m e h. (is_encoded m e h).1;
  digits = λ m e h.
      subst (λ x. all (λ c. elem c base85) x ≡ true) (is_encoded m e h).0
        (encoded_digits m (λ c. elem c base85) elem_digits.0 elem_digits.1);
  bytes = λ m e h.
      subst (λ x. all (λ c. ltb c 256) x ≡ true) (is_encoded m e h).0
        (encoded_digits m (λ c. ltb c 256) refl refl);
  decode-encode = λ m e h.
      subst (λ x. some (counted 0 (drop 5 x)) ≡ some m) (is_encoded m e h).0
        (ap some (counted-unary_all m));
}

-- a miniz that only puts a header before the message
abbrev pub header_miniz : Miniz
header_miniz = record {
  compress = λ m. some (120 ∷ 1 ∷ 0 ∷ 0 ∷ 0 ∷ 0 ∷ 0 ∷ m);
  uncompress = λ size c. if leb (length (drop 7 c)) size then some (drop 7 c) else none;
}

le_leb : (a b : ℕ) → a ≤ b → leb a b ≡ true
le_leb a b h = ground arith

pub header_miniz-IsMiniz : IsMiniz header_miniz
header_miniz-IsMiniz = record {
  header = λ m c h. subst (λ x. starts_zlib x ≡ true) (value_eq h) refl;
  length-compress = λ m c h. subst (λ x. 7 ≤ length x) (value_eq h) (omega arith);
  uncompress-compress = λ m c size h fits.
      subst (λ x. (if leb (length (drop 7 x)) size then some (drop 7 x) else none) ≡ some m)
        (value_eq h) (rw (le_leb (length m) size fits) refl);
}
