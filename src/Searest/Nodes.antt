-- ===== src/Searest/Nodes.antt =====
-- The list of nodes (src/searest_nodelist.c). A pointer to a node is its place in the list. The mutex
-- around each walk is not modelled: no walk calls out while it holds it.
use webstore.Base.{
  ℕ, zero, suc, ◌+◌, ◌%◌, ◌^◌, ◌≡◌, refl, Bool, true, false, Option, none, some, List, [], ◌∷◌,
  ◌++◌, arith, if◌then◌else◌, length, Bool-cases, inl, inr, ap, ◌∙◌,
}
use webstore.Base.Bytes.{Bytes, starts_with}
use webstore.Redis.{Redis}
use webstore.Searest.{Srn, NodeCallback}

module _ {R : Redis} where
  -- strncmp(rootname, cursor->root, strlen(cursor->root)) == 0, in the order of the list
  unfoldable pub find_from : ℕ → Bytes → List (Srn R) → Option (ℕ × Srn R)
  find_from i rootname [] = none
  find_from i rootname (n ∷ ns) =
      if starts_with rootname n.root then some (i, n) else find_from (suc i) rootname ns

  unfoldable pub searest_node_find : Bytes → List (Srn R) → Option (ℕ × Srn R)
  unfolding find_from
  searest_node_find rootname nodes = find_from 0 rootname nodes

  unfoldable pub update_at : ℕ → (Srn R → Srn R) → List (Srn R) → List (Srn R)
  update_at i f [] = []
  update_at zero f (n ∷ ns) = f n ∷ ns
  update_at (suc i) f (n ∷ ns) = n ∷ update_at i f ns

  unfoldable pub searest_node_len : Srn R → ℕ
  searest_node_len n = length n.root

  -- `now` is time(NULL); `acount` is an unsigned long
  unfoldable pub searest_node_set_access : ℕ → Srn R → Srn R
  searest_node_set_access now n = record n { last_atime = now; acount = (n.acount + 1) % 2 ^ 64 }

  -- the flag of the node that was found
  unfoldable pub disabled_on : Bool → List (Srn R) → Option (ℕ × Srn R) → ℕ × List (Srn R)
  unfolding update_at
  disabled_on b nodes none = (1, nodes)
  disabled_on b nodes (some (i, n)) = (0, update_at i (λ m. record m { disabled = b }) nodes)

  unfoldable pub set_disabled : Bool → Bytes → List (Srn R) → ℕ × List (Srn R)
  unfolding disabled_on searest_node_find
  set_disabled b rootname nodes = disabled_on b nodes (searest_node_find rootname nodes)

  unfoldable pub searest_node_set_disabled : Bytes → List (Srn R) → ℕ × List (Srn R)
  unfolding set_disabled
  searest_node_set_disabled = set_disabled true

  unfoldable pub searest_node_set_enabled : Bytes → List (Srn R) → ℕ × List (Srn R)
  unfolding set_disabled
  searest_node_set_enabled = set_disabled false

  unfoldable pub searest_node_is_disabled : Srn R → Bool
  searest_node_is_disabled n = n.disabled

  -- the walk of searest_node_count: the number in the last node; `unsigned int`
  unfoldable pub last_num : ℕ → List (Srn R) → ℕ
  last_num retval [] = retval
  last_num retval (n ∷ ns) = last_num n.num ns

  unfoldable pub searest_node_count : List (Srn R) → ℕ
  unfolding last_num
  searest_node_count nodes = last_num 0 nodes

  -- a new node goes to the end, and is numbered after the one before it
  unfoldable pub searest_node_add : Bytes → NodeCallback R → List (Srn R) → List (Srn R)
  unfolding last_num
  searest_node_add rootname func nodes =
      nodes
      ++ record {
        num = (last_num 0 nodes + 1) % 2 ^ 32;
        disabled = false;
        root = rootname;
        cb = func;
        last_atime = 0;
        acount = 0;
      }
        ∷ []

  -- nodes numbered from `k` on
  abbrev pub NumberedFrom : ℕ → List (Srn R) → Type 0
  NumberedFrom k [] = Unit
  NumberedFrom k (n ∷ ns) = (n.num ≡ k % 2 ^ 32) × NumberedFrom (suc k) ns

  last_num-numbered :
      (k : ℕ) (nodes : List (Srn R))
      → NumberedFrom (suc k) nodes
      → last_num (k % 2 ^ 32) nodes ≡ (k + length nodes) % 2 ^ 32
  unfolding last_num
  last_num-numbered k [] h = omega arith
  last_num-numbered k (n ∷ ns) h =
      ap (λ (r : ℕ). last_num r ns) h.0 ∙ last_num-numbered (suc k) ns h.1 ∙ omega arith

  -- For a list that is numbered from 1, `searest_node_count` is the length modulo 2 ^ 32.
  count-length :
      (nodes : List (Srn R))
      → NumberedFrom 1 nodes
      → searest_node_count nodes ≡ length nodes % 2 ^ 32
  unfolding searest_node_count
  count-length nodes h = last_num-numbered 0 nodes h ∙ omega arith

  NumberedFrom-append :
      (k : ℕ) (nodes : List (Srn R)) (n : Srn R)
      → NumberedFrom k nodes
      → n.num ≡ (k + length nodes) % 2 ^ 32
      → NumberedFrom k (nodes ++ n ∷ [])
  NumberedFrom-append k [] n h e = (e ∙ omega arith, tt)
  NumberedFrom-append k (m ∷ ns) n h e =
      (h.0, NumberedFrom-append (suc k) ns n h.1 (e ∙ omega arith))

  -- A node that is added to a list numbered from 1 continues the numbering, whatever the length (the
  -- numbers wrap at 2 ^ 32).
  pub add-Numbered :
      (rootname : Bytes) (func : NodeCallback R) (nodes : List (Srn R))
      → NumberedFrom 1 nodes
      → NumberedFrom 1 (searest_node_add rootname func nodes)
  unfolding searest_node_add
  add-Numbered rootname func nodes h =
      NumberedFrom-append 1 nodes _ h
        (wrap (last_num 0 nodes) (length nodes) (last_num-numbered 0 nodes h ∙ omega arith))
    where
      wrap : (x l : ℕ) → x ≡ l % 2 ^ 32 → (x + 1) % 2 ^ 32 ≡ (1 + l) % 2 ^ 32
      wrap x l e = omega arith

  -- no node of the list has a root that begins `url`
  abbrev NoneMatches : Bytes → List (Srn R) → Type 0
  NoneMatches url [] = Unit
  NoneMatches url (n ∷ ns) = (starts_with url n.root ≡ false) × NoneMatches url ns

  -- what a search from place `k` finds: the first match, in a list split around it, or no match at all
  abbrev pub FindSpec : ℕ → Bytes → List (Srn R) → Option (ℕ × Srn R) → Type 0
  FindSpec k url nodes none = NoneMatches url nodes
  FindSpec k url nodes (some (i, n)) =
      (before : List (Srn R)) × (after : List (Srn R)) × (nodes ≡ before ++ n ∷ after)
      × (k + length before ≡ i)
      × (starts_with url n.root ≡ true)
      × NoneMatches url before

  extend :
      (k : ℕ) (url : Bytes) (m : Srn R) (ns : List (Srn R)) (o : Option (ℕ × Srn R))
      → starts_with url m.root ≡ false
      → FindSpec (suc k) url ns o
      → FindSpec k url (m ∷ ns) o
  extend k url m ns none no_match h = (no_match, h)
  extend k url m ns (some (i, n)) no_match h =
      (m ∷ h.0, h.1, ap (λ l. m ∷ l) h.2, (let e = h.3 in omega arith), h.4, (no_match, h.5))

  find_from_lem :
      (k : ℕ) (url : Bytes) (nodes : List (Srn R)) → FindSpec k url nodes (find_from k url nodes)
  unfolding find_from
  find_from_lem k url [] = tt
  find_from_lem k url (m ∷ ns) = elim (Bool-cases (starts_with url m.root)) [
    | inl hit ↦ rw hit ([], ns, refl, omega arith, hit, tt)
    | inr miss ↦
        rw miss (extend k url m ns (find_from (suc k) url ns) miss (find_from_lem (suc k) url ns))
  ]

  -- The search gives the first node whose root begins the URL, with its place in the list; if it
  -- gives none, no root begins the URL.
  pub searest_node_find-FindSpec :
      (url : Bytes) (nodes : List (Srn R)) → FindSpec 0 url nodes (searest_node_find url nodes)
  unfolding searest_node_find
  searest_node_find-FindSpec url nodes = find_from_lem 0 url nodes
