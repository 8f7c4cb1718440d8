-- ===== src/Searest/Pointers.antt =====
-- The list of nodes with its pointers (src/searest_nodelist.c): each function as it walks and changes
-- the memory. A walk is given a number of rounds. Searest/Nodes has the same functions on a list.
pub mod Chain
pub mod Walk
pub mod Link
pub mod Added
pub mod Add
pub mod Destroy
pub mod Ops
pub mod Stands
pub mod Refine
use webstore.Base.{
  ℕ, zero, suc, ◌+◌, ◌%◌, ◌^◌, Bool, true, false, Option, none, some, ◌==◌, if◌then◌else◌,
}
use webstore.Base.Bytes.{Bytes, starts_with}
use webstore.Redis.{Redis}
use webstore.Searest.{NodeCallback}
use webstore.Memory.{
  Ptr, null, Cmd, fault, out_of_fuel, give, ◌>>=◌, ◌>>◌, alloc, load, store, free,
}

-- srn_t in memory, with `root`, `next` and `prev` as pointers, and `cb` NULL when it was not set yet
pub record SrnCell (R : Redis) : Type 0 where
  pub num : ℕ
  pub disabled : Bool
  pub root : Ptr
  pub cb : Option (NodeCallback R)
  pub last_atime : ℕ
  pub acount : ℕ
  pub next : Ptr
  pub prev : Ptr

pub data Block (R : Redis) : Type 0 where
  node : SrnCell R → Block R
  str : Bytes → Block R

module _ {R : Redis} where
  as_node : Block R → Cmd (Block R) (SrnCell R)
  as_node (node c) = give c
  as_node (str s) = λ h. fault

  as_str : Block R → Cmd (Block R) Bytes
  as_str (str s) = give s
  as_str (node c) = λ h. fault

  unfoldable pub load_node : Ptr → Cmd (Block R) (SrnCell R)
  unfolding as_node
  load_node p = do b ← load p; as_node b

  unfoldable pub load_str : Ptr → Cmd (Block R) Bytes
  unfolding as_str
  load_str p = do b ← load p; as_str b

  -- calloc(1, sizeof(srn_t))
  abbrev pub zeroed : SrnCell R
  zeroed = record {
    num = 0;
    disabled = false;
    root = null;
    cb = none;
    last_atime = 0;
    acount = 0;
    next = null;
    prev = null;
  }

  unfoldable pub node_find : ℕ → Bytes → Ptr → Cmd (Block R) Ptr
  node_find zero rootname cursor = λ h. out_of_fuel
  node_find (suc k) rootname cursor = if cursor == null then give null else do
    c ← load_node cursor
    root ← load_str c.root
    if starts_with rootname root then give cursor else node_find k rootname c.next

  unfoldable pub node_set_access : ℕ → Ptr → Cmd (Block R) (Unit {0})
  node_set_access now n = do
    c ← load_node n
    store n (node (record c { last_atime = now; acount = (c.acount + 1) % 2 ^ 64 }))

  -- searest_node_set_disabled and searest_node_set_enabled
  unfoldable pub node_set_disabled : Bool → ℕ → Bytes → Ptr → Cmd (Block R) ℕ
  node_set_disabled b k rootname head = do
    n ← node_find k rootname head
    if n == null
        then give 1
        else do c ← load_node n; store n (node (record c { disabled = b })); give 0

  unfoldable pub node_count : ℕ → ℕ → Ptr → Cmd (Block R) ℕ
  node_count zero retval cursor = λ h. out_of_fuel
  node_count (suc k) retval cursor =
      if cursor == null then give retval else do c ← load_node cursor; node_count k c.num c.next

  -- while(cursor->next) cursor = cursor->next
  unfoldable pub node_last : ℕ → Ptr → Cmd (Block R) Ptr
  node_last zero cursor = λ h. out_of_fuel
  node_last (suc k) cursor = do
    c ← load_node cursor
    if c.next == null then give cursor else node_last k c.next

  -- cursor->num of the first node, or of one that was linked behind its `prev`
  unfoldable pub number : Ptr → Ptr → Cmd (Block R) (Unit {0})
  number last new =
      if last == null then (do c ← load_node new; store new (node (record c { num = 1 }))) else do
        l ← load_node last
        store last (node (record l { next = new }))
        c ← load_node new
        store new (node (record c { prev = last }))
        c' ← load_node new
        p ← load_node c'.prev
        store new (node (record c' { num = (p.num + 1) % 2 ^ 32 }))

  unfoldable pub fill : Bytes → NodeCallback R → Ptr → Cmd (Block R) (Unit {0})
  fill rootname func cursor = do
    root ← alloc (str rootname)
    c ← load_node cursor
    store cursor (node (record c { root = root; cb = some func }))

  -- The head of the list afterwards; rootname and func are not NULL.
  unfoldable pub node_add : ℕ → Bytes → NodeCallback R → Ptr → Cmd (Block R) Ptr
  node_add k rootname func head =
      if head == null
      then (do new ← alloc (node zeroed); number null new; fill rootname func new; give new)
      else do
        last ← node_last k head
        new ← alloc (node zeroed)
        number last new
        fill rootname func new
        give head

  unfoldable pub node_destroy_all : ℕ → Ptr → Cmd (Block R) (Unit {0})
  node_destroy_all zero cursor = λ h. out_of_fuel
  node_destroy_all (suc k) cursor = if cursor == null then give tt else do
    c ← load_node cursor
    free c.root
    c' ← load_node cursor
    free cursor
    node_destroy_all k c'.next
