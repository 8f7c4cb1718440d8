-- ===== src/Client/Url.antt =====
-- The URL of a token, and of the configuration page (src/webstore_url.h; valid_token of src/ws_post.c;
-- create_url of src/ws_cfg.c).
use webstore.Base.{
  ℕ, ◌≤◌, ◌≡◌, refl, Bool, true, Option, none, some, ◌++◌, arith, ◌||◌, ◌==◌, if◌then◌else◌, length,
  take, take-length, ap, length-append,
}
use webstore.Base.Bytes.{Bytes, text}
use webstore.Base.Decimal.{decimal}
use webstore.Node.{hashlen}
use webstore.Start.Routes.{Size, s128, s160, s224, s256, s384, s512, bits, root_of}

-- the switch on strlen(token)
node_name : ℕ → Option Bytes
node_name len =
    if len == hashlen 128
    then some (text "128")
    else if len == hashlen 160
    then some (text "160")
    else if len == hashlen 224
    then some (text "224")
    else if len == hashlen 256
    then some (text "256")
    else if len == hashlen 384
    then some (text "384")
    else if len == hashlen 512
    then some (text "512")
    else none

proto : Bool → Bytes
proto secure = if secure then text "https" else text "http"

-- "%s://%s:%u"
unfoldable pub origin : Bytes → ℕ → Bool → Bytes
unfolding proto
origin host port secure = proto secure ++ (text "://" ++ (host ++ (text ":" ++ decimal port)))

url_on : Bytes → Bytes → Option Bytes → Option Bytes
url_on at token none = none
url_on at token (some node) =
    some (take 2047 (at ++ (text "/store/" ++ (node ++ (text "/" ++ token)))))

-- `url` holds 2047 characters and a NUL.
pub create_url : Bytes → ℕ → Bytes → Bool → Option Bytes
unfolding url_on
create_url host port token secure =
    url_on (origin host port secure) token (node_name (length token))

pub valid_token : Bytes → Bool
valid_token token =
    length token == hashlen 128
    || length token == hashlen 160
    || length token == hashlen 224
    || length token == hashlen 256
    || length token == hashlen 384
    || length token == hashlen 512

-- create_url of ws_cfg.c
unfoldable pub create_config_url : Bytes → ℕ → Bool → Bytes
create_config_url host port secure = take 2047 (origin host port secure ++ text "/config/all")

fits :
    (at rest : Bytes)
    → length at ≤ 1900
    → length rest ≤ 147
    → some (take 2047 (at ++ rest)) ≡ some (at ++ rest)
fits at rest h k =
    ap some (take-length 2047 (at ++ rest) (omega (arith, length-append {0} at rest)))

-- A token of a node's length is a valid token, and its URL is the node's root with the token on the
-- server's origin, if the origin has at most 1900 characters.
pub create_url-root :
    (host : Bytes) (port : ℕ) (secure : Bool) (size : Size) (token : Bytes)
    → length token ≡ hashlen (bits size)
    → length (origin host port secure) ≤ 1900
    → (valid_token token ≡ true)
      × (create_url host port token secure
          ≡ some (origin host port secure ++ (root_of size ++ token)))
unfolding valid_token create_url node_name root_of bits text
create_url-root host port secure s128 token e short =
    rw e (refl, fits (origin host port secure) (root_of s128 ++ token) short (omega (arith, e)))
create_url-root host port secure s160 token e short =
    rw e (refl, fits (origin host port secure) (root_of s160 ++ token) short (omega (arith, e)))
create_url-root host port secure s224 token e short =
    rw e (refl, fits (origin host port secure) (root_of s224 ++ token) short (omega (arith, e)))
create_url-root host port secure s256 token e short =
    rw e (refl, fits (origin host port secure) (root_of s256 ++ token) short (omega (arith, e)))
create_url-root host port secure s384 token e short =
    rw e (refl, fits (origin host port secure) (root_of s384 ++ token) short (omega (arith, e)))
create_url-root host port secure s512 token e short =
    rw e (refl, fits (origin host port secure) (root_of s512 ++ token) short (omega (arith, e)))
