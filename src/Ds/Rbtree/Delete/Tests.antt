-- ===== src/Ds/Rbtree/Delete/Tests.antt =====
-- Runs of `rbtree_delete`, and the theorems at small trees.
use my_resource.Base.{ℕ, ◌≡◌, refl, some, [], ◌∷◌, arith}
use my_resource.Ds.Rbtree.Delete.Total.{taken, rb_delete_red-Erased}
use my_resource.Base.Fault.{Gives, ok, fault, Holds}
use my_resource.Ds.Entry.{DataNode, all_mallocs}
use my_resource.Ds.Rbtree.{
  position, Color, red, black, Tree, leaf, node, rooted, search_node, search_from, linked, r_rotate,
  plug,
}
use my_resource.Ds.Rbtree.Entries.{to_list}
use my_resource.Ds.Rbtree.Insert.{insert}
use my_resource.Ds.Rbtree.Delete.{
  removed, delete, remove, delete_fixup, delete_loop, delete_rounds, nodes, fix_step, fix_child,
  fix_left, fix_right, fix_bench, cut, leftmost,
}
use my_resource.Ds.Rbtree.Delete.Refine.{Erased, rb_delete-refines}
use my_resource.Ds.Rbtree.Delete.Empty.{delete-insert_fault}

abbrev entry : ℕ → DataNode
entry k = record { key = k; value_size = 1; value = k ∷ [] }

abbrev tip : Color → ℕ → Tree
tip c k = node c leaf (entry k) leaf

-- Three black nodes. The brother on the right turns red, the one on the left does not.
abbrev three : Tree
three = node black (tip black 1) (entry 2) (tip black 3)

delete_left_run :
    delete (rooted three) 1 ≡ ok (removed (rooted (node black leaf (entry 2) (tip red 3))))
unfolding delete search_node search_from remove delete_fixup delete_loop delete_rounds nodes
    fix_step fix_child fix_left cut plug linked
delete_left_run = refl

delete_right_run :
    delete (rooted three) 3 ≡ ok (removed (rooted (node black (tip black 1) (entry 2) leaf)))
unfolding delete search_node search_from remove delete_fixup delete_loop delete_rounds nodes
    fix_step fix_child fix_right cut plug linked
delete_right_run = refl

-- The brother has one red child: it is the wrong one that turns black, and 1 stays red.
delete_bent_run :
    delete (rooted (node black (node black (tip red 1) (entry 2) leaf) (entry 3) (tip black 4))) 4
    ≡ ok (removed (rooted (node black (tip red 1) (entry 2) (node black leaf (entry 3) leaf))))
unfolding delete search_node search_from remove delete_fixup delete_loop delete_rounds nodes
    fix_step fix_child fix_right cut plug linked r_rotate
delete_bent_run = refl

-- The successor 4 takes the place of 2.
delete_lifted_run :
    delete (rooted (node black (tip black 1) (entry 2) (node black (tip red 4) (entry 5) leaf))) 2
    ≡ ok (removed (rooted (node black (tip black 1) (entry 4) (node black leaf (entry 5) leaf))))
unfolding delete search_node search_from remove fix_bench leftmost plug linked
delete_lifted_run = refl

rb_delete-refines_example : Holds (Erased (rooted three) 2) (delete (rooted three) 2)
rb_delete-refines_example = rb_delete-refines (rooted three) 2 (unfold to_list in omega arith)

delete_last_run : delete (rooted (tip black 7)) 7 ≡ ok (removed (rooted leaf))
unfolding delete search_node search_from remove delete_fixup delete_loop delete_rounds fix_step cut
    plug linked
delete_last_run = refl

delete-insert_fault_example : insert all_mallocs (rooted leaf) (entry 3) ≡ fault
delete-insert_fault_example =
    delete-insert_fault (rooted (tip black 7)) (rooted leaf) 7 (entry 3) delete_last_run
      (unfold to_list in refl)

-- The red successor 4 of 2.
abbrev high : Tree
high = node black (tip black 1) (entry 2) (node black (tip red 4) (entry 5) leaf)

root_run :
    search_node (rooted high) 2
    ≡ some (position [] black (tip black 1) (entry 2) (node black (tip red 4) (entry 5) leaf))
unfolding search_node search_from
root_run = refl

rb_delete_red-Erased_example : Gives (Erased (rooted high) 2) (delete (rooted high) 2)
rb_delete_red-Erased_example =
    rb_delete_red-Erased high 2
      (position [] black (tip black 1) (entry 2) (node black (tip red 4) (entry 5) leaf))
      (unfold to_list in omega arith) root_run (unfold taken leftmost in refl)
