-- ===== src/Ds/Tests.antt =====
-- Runs of the trees on small inputs, and the theorems at them.
use my_resource.Base.{ℕ, ◌≡◌, refl, List, [], ◌∷◌, arith}
use my_resource.Base.Fault.{Run, ok, fault, ◌>>=◌, Holds, Gives}
use mathlib.Core.List.{Perm}
use my_resource.Ds.Entry.{DataNode, copy_node, all_mallocs}
use my_resource.Ds.SortedMap
use my_resource.Ds.SortedMap.{IsSorted, find, erase, found, missing}
use my_resource.Ds.Stree
use my_resource.Ds.Stree.Paths
use my_resource.Ds.Stree.Refine
use my_resource.Ds.Rbtree
use my_resource.Ds.Rbtree.Entries
use my_resource.Ds.Rbtree.Insert
use my_resource.Ds.Rbtree.Levels
use my_resource.Ds.Rbtree.Walks.{level_order}
use my_resource.Ds.Rbtree.Insert.Refine as RbInsert

abbrev entry : ℕ → DataNode
entry k = record { key = k; value_size = 1; value = k ∷ [] }

-- 5 with the children 2 and 8, and 9 below 8
abbrev small : Stree.Tree
small =
    Stree.node (Stree.node Stree.leaf (entry 2) Stree.leaf) (entry 5)
      (Stree.node Stree.leaf (entry 8) (Stree.node Stree.leaf (entry 9) Stree.leaf))

small_keys : Stree.Paths.to_list small ≡ entry 2 ∷ entry 5 ∷ entry 8 ∷ entry 9 ∷ []
unfolding Stree.Paths.to_list
small_keys = refl

small-IsOrdered : Stree.Refine.IsOrdered small
unfolding Stree.Paths.to_list
small-IsOrdered = omega arith

insert-refines_example :
    (t' : Stree.Tree) × (Stree.insert all_mallocs small (entry 6)
      ≡ ok (missing (find 6 (Stree.Paths.to_list small)), t'))
    × (Stree.Paths.to_list t' ≡ SortedMap.insert (copy_node (entry 6)) (Stree.Paths.to_list small))
    × Stree.Refine.IsOrdered t'
insert-refines_example = Stree.Refine.insert-refines small (entry 6) small-IsOrdered

delete-refines_example :
    (t' : Stree.Tree) × (Stree.delete small 5 ≡ ok (found (find 5 (Stree.Paths.to_list small)), t'))
    × (Stree.Paths.to_list t' ≡ erase 5 (Stree.Paths.to_list small))
    × Stree.Refine.IsOrdered t'
unfolding Stree.Paths.only_right
delete-refines_example = Stree.Refine.delete-refines small 5 small-IsOrdered refl

-- Insertions one after the other.
abbrev insert_all : List ℕ → Rbtree.Root → Run Rbtree.Root
insert_all [] root = ok root
insert_all (k ∷ ks) root =
    Rbtree.Insert.insert all_mallocs root (entry k) >>= λ r. insert_all ks r.1

-- The thirteenth of these keys goes through a NULL link of the leaf.
insert_crash :
    insert_all (4 ∷ 79 ∷ 7 ∷ 41 ∷ 22 ∷ 56 ∷ 17 ∷ 82 ∷ 74 ∷ 10 ∷ 15 ∷ 61 ∷ 49 ∷ []) Rbtree.null
    ≡ fault
unfolding Insert.insert Insert.fixup_loop Insert.step Insert.step_red Insert.reshape Insert.climb
    Insert.turn
insert_crash = refl

rb_insert-refines_example :
    Holds
      (RbInsert.Inserted Rbtree.null (copy_node (entry 3)))
      (Insert.insert all_mallocs Rbtree.null (entry 3))
rb_insert-refines_example = RbInsert.rb_insert-refines Rbtree.null (entry 3) tt

-- Three nodes on two levels.
abbrev levels : Rbtree.Tree
levels =
    Rbtree.node Rbtree.black (Rbtree.node Rbtree.red Rbtree.leaf (entry 1) Rbtree.leaf) (entry 2)
      (Rbtree.node Rbtree.red Rbtree.leaf (entry 3) Rbtree.leaf)

levels_run : level_order 29 0 (levels ∷ []) ≡ ok (entry 2 ∷ entry 1 ∷ entry 3 ∷ [])
unfolding level_order
levels_run = refl

level_order-perm_example :
    Gives (λ printed. Perm printed (Rbtree.Entries.to_list levels)) (level_order 29 0 (levels ∷ []))
level_order-perm_example = Levels.level_order-perm levels (λ e. cc) ((tt, tt), (tt, tt))
