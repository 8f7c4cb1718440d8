-- ===== src/Start/Routes.antt =====
-- Which node answers which URL.
use webstore.Base.{ℕ, ◌≡◌, refl, false, Option, none, some, [], ◌++◌, length}
use webstore.Base.Bytes.{Bytes, text, starts_with}
use webstore.Redis.{Redis}
use webstore.Node.{node, hashlen, node128, node160, node224, node256, node384, node512}
use webstore.Config.{nodecfg}
use webstore.Searest.{Srn, Sri, NodeCallback}
use webstore.Searest.Nodes.{searest_node_find}
use webstore.Start.{add_nodes, callback}

-- the storage sizes of the server, and their algorithm numbers
pub data Size : Type 0 where
  s128 s160 s224 s256 s384 s512 : Size

unfoldable pub bits : Size → ℕ
bits s128 = 128
bits s160 = 160
bits s224 = 224
bits s256 = 256
bits s384 = 384
bits s512 = 512

unfoldable pub alg : Size → ℕ
alg s128 = 1
alg s160 = 2
alg s224 = 3
alg s256 = 4
alg s384 = 5
alg s512 = 6

unfoldable pub root_of : Size → Bytes
root_of s128 = text "/store/128/"
root_of s160 = text "/store/160/"
root_of s224 = text "/store/224/"
root_of s256 = text "/store/256/"
root_of s384 = text "/store/384/"
root_of s512 = text "/store/512/"

-- the node that a search finds: its callback and the length of its root
abbrev pub Finds : {R : Redis} → Option (ℕ × Srn R) → NodeCallback R → ℕ → Type 0
Finds none cb len = ⊥
Finds (some (i, n)) cb len = (n.cb ≡ cb) × (length n.root ≡ len) × (n.disabled ≡ false)

-- On an instance with the seven nodes added and no others, every URL below a storage root goes to
-- the handler of that size, whatever the token is, although the first match is taken; the node is
-- enabled, and its root is 11 characters long.
pub storage_route :
    {R : Redis} (ws : Sri R) (size : Size) (token : Bytes)
    → ws.nodelist ≡ []
    → Finds
        (searest_node_find (root_of size ++ token) (add_nodes ws).nodelist)
        (callback (node (alg size) (hashlen (bits size))))
        11
unfolding add_nodes searest_node_find text starts_with root_of bits alg node128 node160 node224
    node256 node384 node512
storage_route ws s128 token e = rw e (refl, refl, refl)
storage_route ws s160 token e = rw e (refl, refl, refl)
storage_route ws s224 token e = rw e (refl, refl, refl)
storage_route ws s256 token e = rw e (refl, refl, refl)
storage_route ws s384 token e = rw e (refl, refl, refl)
storage_route ws s512 token e = rw e (refl, refl, refl)

-- On an instance with the seven nodes added and no others, a URL below /config/ goes to the
-- configuration node, which is enabled and has a root of 8 characters.
pub config_route :
    {R : Redis} (ws : Sri R) (option : Bytes)
    → ws.nodelist ≡ []
    → Finds
        (searest_node_find (text "/config/" ++ option) (add_nodes ws).nodelist)
        (callback nodecfg)
        8
unfolding add_nodes searest_node_find text starts_with
config_route ws option e = rw e (refl, refl, refl)
