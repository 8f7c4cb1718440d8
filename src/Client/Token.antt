-- ===== src/Client/Token.antt =====
-- The token of a message (src/gchash.c). libgcrypt is a parameter.
use webstore.Base.{
  ℕ, ◌+◌, ◌*◌, ◌/◌, ◌%◌, ◌<◌, ◌≡◌, refl, Bool, true, false, Option, none, some, List, [], ◌∷◌,
  arith, ltb, ◌==◌, if◌then◌else◌, length, all, ◌∙◌, ap, map, take, take-length,
}
use webstore.Base.Bytes.{Bytes, is_xdigit, to_lower}
use webstore.Node.{hashlen}
use webstore.Node.Get.{asks}
use webstore.Node.Post.{key_of}
use webstore.Start.Routes.{Size, s128, s160, s224, s256, s384, s512, bits, alg}
use webstore.Start.Http.{req_of}

-- GCRY_MD_MD5 to GCRY_MD_SHA512, named by the size of their digests
pub record Gcrypt : Type 0 where
  pub md_open : Size → Bool
  pub digest : Size → Bytes → Bytes

-- gcry_md_get_algo_dlen is the size in bytes, and a digest has that length.
pub record IsGcrypt (g : Gcrypt) : Type 0 where
  pub length-digest : (size : Size) (msg : Bytes) → length (g.digest size msg) ≡ bits size / 8
  pub digest_bytes : (size : Size) (msg : Bytes) → all (λ b. ltb b 256) (g.digest size msg) ≡ true

-- a digit of "%02x"
hex_digit : ℕ → ℕ
hex_digit n = if ltb n 10 then 48 + n else 87 + n

pub gen_hash : Bytes → Bytes
unfolding hex_digit
gen_hash [] = []
gen_hash (b ∷ bs) = hex_digit (b / 16) ∷ hex_digit (b % 16) ∷ gen_hash bs

-- the switch on the algorithm's number
size_of : ℕ → Option Size
size_of n =
    if n == 1
    then some s128
    else if n == 2
    then some s160
    else if n == 3
    then some s224
    else if n == 4
    then some s256
    else if n == 5
    then some s384
    else if n == 6
    then some s512
    else none

token_with : Gcrypt → Bytes → Option Size → Option Bytes
unfolding gen_hash
token_with g msg none = none
token_with g msg (some size) = if g.md_open size then some (gen_hash (g.digest size msg)) else none

unfoldable pub create_token : Gcrypt → ℕ → Bytes → Option Bytes
unfolding token_with size_of
create_token g n msg = token_with g msg (size_of n)

-- the commands that gcry_control is given, in a build without FIPS mode; gchash.h asks for secure
-- memory, of a size in bytes
pub data GcryCommand : Type 0 where
  suspend_secmem_warn : GcryCommand
  init_secmem : ℕ → GcryCommand
  resume_secmem_warn : GcryCommand
  initialization_finished : GcryCommand

-- the result and the commands, where the check of the version finds one that is new enough or does not
unfoldable pub ws_gcinit : Bool → ℕ × List GcryCommand
ws_gcinit false = (1, [])
ws_gcinit true =
    (0, suspend_secmem_warn ∷ init_secmem 65536 ∷ resume_secmem_warn ∷ initialization_finished ∷ [])

hex_digit-key :
    (n : ℕ) → n < 16 → (is_xdigit (hex_digit n) ≡ true) × (to_lower (hex_digit n) ≡ hex_digit n)
unfolding hex_digit is_xdigit to_lower
hex_digit-key n h = (ground arith, ground arith)

length-gen_hash : (d : Bytes) → length (gen_hash d) ≡ 2 * length d
unfolding gen_hash
length-gen_hash [] = omega arith
length-gen_hash (b ∷ bs) = omega (arith, length-gen_hash bs)

gen_hash-xdigits : (d : Bytes) → all (λ b. ltb b 256) d ≡ true → all is_xdigit (gen_hash d) ≡ true
unfolding gen_hash
gen_hash-xdigits [] h = refl
gen_hash-xdigits (b ∷ bs) h =
    ground (arith, hex_digit-key (b / 16), hex_digit-key (b % 16), gen_hash-xdigits bs)

gen_hash-lower :
    (d : Bytes) → all (λ b. ltb b 256) d ≡ true → map to_lower (gen_hash d) ≡ gen_hash d
unfolding gen_hash
gen_hash-lower [] h = refl
gen_hash-lower (b ∷ bs) h =
    ground (arith, hex_digit-key (b / 16), hex_digit-key (b % 16), gen_hash-lower bs)

two_eighths : (size : Size) → 2 * (bits size / 8) ≡ hashlen (bits size)
unfolding bits
two_eighths s128 = refl
two_eighths s160 = refl
two_eighths s224 = refl
two_eighths s256 = refl
two_eighths s384 = refl
two_eighths s512 = refl

size_of-alg : (size : Size) → size_of (alg size) ≡ some size
unfolding size_of alg
size_of-alg s128 = refl
size_of-alg s160 = refl
size_of-alg s224 = refl
size_of-alg s256 = refl
size_of-alg s384 = refl
size_of-alg s512 = refl

-- what a token must be to be asked for under a size, and to be its own key
hex_token :
    (size : Size) (t : Bytes)
    → length t ≡ hashlen (bits size)
    → all is_xdigit t ≡ true
    → map to_lower t ≡ t
    → (asks (req_of size t) ≡ true) × (key_of (req_of size t) ≡ t)
hex_token size t len digits lower = (rw whole (ground arith), ap (map to_lower) whole ∙ lower)
  where
    whole : take (length t) t ≡ t
    whole = take-length (length t) t (omega arith)

-- The token of a message, in a size that libgcrypt knows and with digests of the documented length,
-- is made; a storage node of that size takes it, and stores under the token itself.
pub create_token-asks :
    (g : Gcrypt) (laws : IsGcrypt g) (size : Size) (msg : Bytes)
    → g.md_open size ≡ true
    → (t : Bytes) × (create_token g (alg size) msg ≡ some t)
      × (asks (req_of size t) ≡ true)
      × (key_of (req_of size t) ≡ t)
unfolding create_token token_with
create_token-asks g laws size msg opens =
    let t = gen_hash (g.digest size msg) in
    let bytes = laws.digest_bytes size msg in
    let (asked, key) =
      hex_token size t
        (length-gen_hash (g.digest size msg)
          ∙ ap (λ n. 2 * n) (laws.length-digest size msg)
          ∙ two_eighths size)
        (gen_hash-xdigits (g.digest size msg) bytes) (gen_hash-lower (g.digest size msg) bytes) in
    (t, rw (size_of-alg size, opens), asked, key)
