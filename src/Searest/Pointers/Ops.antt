-- ===== src/Searest/Pointers/Ops.antt =====
-- What a server does with its list of nodes, with pointers and on a list: searest_node_add,
-- searest_node_set_disabled, searest_node_set_enabled and searest_node_count of
-- src/searest_nodelist.c, and a request of src/searest.c (process_request).
use webstore.Base.{
  ℕ, suc, true, false, Option, none, some, List, [], ◌∷◌, ◌==◌, if◌then◌else◌, length,
}
use webstore.Base.Bytes.{Bytes}
use webstore.Redis.{Redis}
use webstore.Searest.{Srn, NodeCallback}
use webstore.Searest.Nodes.{
  searest_node_find, update_at, searest_node_set_access, searest_node_set_disabled,
  searest_node_set_enabled, searest_node_is_disabled, searest_node_count, searest_node_add,
}
use webstore.Memory.{Ptr, null, Cmd, give, ◌>>=◌, ◌>>◌}
use webstore.Searest.Pointers.{
  Block, load_node, node_find, node_set_access, node_set_disabled, node_count, node_add,
  node_destroy_all,
}

-- `visit` is what process_request does with the list for a URL, at a time.
pub data ListOp (R : Redis) : Type 0 where
  add : Bytes → NodeCallback R → ListOp R
  disable enable : Bytes → ListOp R
  visit : Bytes → ℕ → ListOp R
  count : ListOp R

module _ {R : Redis} where
  unfoldable pub visited : ℕ → Ptr → Ptr → Cmd (Block R) (ℕ × Ptr)
  unfolding node_set_access
  visited now head n = if n == null then give (404, head) else do
    c ← load_node n
    if c.disabled then give (503, head) else do node_set_access now n; give (200, head)

  -- the result, and the head of the list afterwards
  unfoldable pub run_op : ℕ → ListOp R → Ptr → Cmd (Block R) (ℕ × Ptr)
  unfolding visited
  run_op k (add rootname func) head = do head' ← node_add k rootname func head; give (0, head')
  run_op k (disable rootname) head = do z ← node_set_disabled true k rootname head; give (z, head)
  run_op k (enable rootname) head = do z ← node_set_disabled false k rootname head; give (z, head)
  run_op k (visit url now) head = do n ← node_find k url head; visited now head n
  run_op k count head = do z ← node_count k 0 head; give (z, head)

  unfoldable pub run_ops : ℕ → List (ListOp R) → Ptr → Cmd (Block R) (List ℕ × Ptr)
  run_ops k [] head = give ([], head)
  run_ops k (op ∷ ops) head = do
    r ← run_op k op head
    rest ← run_ops k ops r.1
    give (r.0 ∷ rest.0, rest.1)

  unfoldable pub visited_on : ℕ → List (Srn R) → Option (ℕ × Srn R) → ℕ × List (Srn R)
  visited_on now nodes none = (404, nodes)
  visited_on now nodes (some (i, n)) =
      if searest_node_is_disabled n
      then (503, nodes)
      else (200, update_at i (searest_node_set_access now) nodes)

  unfoldable pub on_list : ListOp R → List (Srn R) → ℕ × List (Srn R)
  unfolding visited_on
  on_list (add rootname func) nodes = (0, searest_node_add rootname func nodes)
  on_list (disable rootname) nodes = searest_node_set_disabled rootname nodes
  on_list (enable rootname) nodes = searest_node_set_enabled rootname nodes
  on_list (visit url now) nodes = visited_on now nodes (searest_node_find url nodes)
  on_list count nodes = (searest_node_count nodes, nodes)

  unfoldable pub on_lists : List (ListOp R) → List (Srn R) → List ℕ × List (Srn R)
  on_lists [] nodes = ([], nodes)
  on_lists (op ∷ ops) nodes =
      let r = on_list op nodes in let rest = on_lists ops r.1 in (r.0 ∷ rest.0, rest.1)

  -- a list from its first node to its end, with enough rounds for its walks
  unfoldable pub lifetime : List (ListOp R) → Cmd (Block R) (List ℕ)
  unfolding run_ops
  lifetime ops = do
    r ← run_ops (suc (length ops)) ops null
    node_destroy_all (suc (length ops)) r.1
    give r.0
