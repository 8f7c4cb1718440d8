-- ===== src/Tests/Pointers.antt =====
-- A list of two nodes in an empty memory.
use webstore.Base.{◌≡◌, refl, none, List, [], ◌∷◌, arith}
use webstore.Base.Bytes.{text, starts_with}
use webstore.Redis.Mem.{mem_redis}
use webstore.Searest.Nodes.{
  searest_node_add, searest_node_set_disabled, set_disabled, disabled_on, searest_node_find,
  searest_node_is_disabled, searest_node_set_access, searest_node_count, last_num, find_from,
  update_at,
}
use webstore.Memory.{Ptr, null, Heap, IsHeap, Ends}
use webstore.Config.{nodecfg}
use webstore.Node.{node128}
use webstore.Start.{callback}
use webstore.Searest.Pointers.{Block}
use webstore.Searest.Pointers.Ops.{
  ListOp, add, disable, visit, count, run_ops, on_lists, lifetime, on_list, visited_on,
}
use webstore.Searest.Pointers.Stands.{Stands}
use webstore.Searest.Pointers.Refine.{nodelist_refines, nodelist_frees}

abbrev no_memory : Heap (Block mem_redis)
no_memory = record { next = 1; at = λ a. none }

no_memory-IsHeap : IsHeap no_memory
no_memory-IsHeap = record { next_pos = omega arith; fresh = λ a le. refl }

abbrev ops : List (ListOp mem_redis)
ops =
    add (text "/a/") (callback nodecfg)
    ∷ add (text "/b/") (callback node128)
    ∷ visit (text "/b/x") 7
    ∷ disable (text "/b/")
    ∷ visit (text "/b/x") 8
    ∷ visit (text "/c/x") 9
    ∷ count
    ∷ []

nodelist_refines_example : Ends (run_ops 8 ops null no_memory) (λ r g.
    (r.0 ≡ 0 ∷ 0 ∷ 200 ∷ 0 ∷ 503 ∷ 404 ∷ 2 ∷ []) × Stands no_memory (on_lists ops []).1 r.1 g)
unfolding on_lists on_list searest_node_add searest_node_set_disabled set_disabled disabled_on
    searest_node_find searest_node_is_disabled searest_node_set_access searest_node_count visited_on
    last_num find_from starts_with update_at text
nodelist_refines_example = nodelist_refines no_memory ops no_memory-IsHeap

nodelist_frees_example :
    Ends
      (lifetime ops no_memory)
      (λ zs g. (zs ≡ 0 ∷ 0 ∷ 200 ∷ 0 ∷ 503 ∷ 404 ∷ 2 ∷ []) × ((a : Ptr) → g.at a ≡ none))
unfolding on_lists on_list searest_node_add searest_node_set_disabled set_disabled disabled_on
    searest_node_find searest_node_is_disabled searest_node_set_access searest_node_count visited_on
    last_num find_from starts_with update_at text
nodelist_frees_example = nodelist_frees no_memory ops no_memory-IsHeap
