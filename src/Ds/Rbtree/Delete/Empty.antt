-- ===== src/Ds/Rbtree/Delete/Empty.antt =====
-- A tree that a deletion leaves without an entry.
use my_resource.Base.{
  ℕ, ◌≡◌, refl, Option, none, some, List, [], ◌∷◌, ◌++◌, Bool-cases, inl, inr, if◌then◌else◌,
}
use mathlib.Core.Path.{subst}
use my_resource.Base.Fault.{Run, ok, fault, out_of_fuel, ◌>>=◌}
use my_resource.Ds.Entry.{DataNode, all_mallocs}
use my_resource.Ds.Rbtree.{Tree, leaf, node, Root, null, rooted, Position, linked, search_node}
use my_resource.Ds.Rbtree.Entries.{to_list, entries}
use my_resource.Ds.Rbtree.Insert.{insert, link_and_fix, place_root}
use my_resource.Ds.Rbtree.Delete.{remove, Outcome, missed, removed, delete}

-- A deletion never leaves NULL as the root.
IsRooted : Run Outcome → Type 0
IsRooted (ok (removed null)) = ⊥
IsRooted (ok (removed (rooted t))) = Unit
IsRooted (ok missed) = Unit
IsRooted fault = Unit
IsRooted out_of_fuel = Unit

rooted-IsRooted : (m : Run Tree) → IsRooted (m >>= λ t. ok (removed (rooted t)))
unfolding IsRooted
rooted-IsRooted (ok t) = tt
rooted-IsRooted fault = tt
rooted-IsRooted out_of_fuel = tt

found-IsRooted :
    (o : Option Position)
    → IsRooted (elim o [
      | none ↦ ok missed
      | some n ↦
          if linked n.path n.entry.key
          then (remove n.path n.color n.left n.entry n.right >>= λ t. ok (removed (rooted t)))
          else fault
    ])
unfolding IsRooted
found-IsRooted none = tt
found-IsRooted (some n) = elim (Bool-cases (linked n.path n.entry.key)) [
  | inl h ↦ rw h (rooted-IsRooted (remove n.path n.color n.left n.entry n.right))
  | inr h ↦ rw h tt
]

delete-IsRooted : (root : Root) (k : ℕ) → IsRooted (delete root k)
unfolding delete
delete-IsRooted root k = found-IsRooted (search_node root k)

some_entry : (xs ys : List DataNode) (d : DataNode) → xs ++ d ∷ ys ≡ [] → ⊥
some_entry [] ys d e = cc
some_entry (x ∷ xs) ys d e = cc

empty-fault :
    (root : Root) (d : DataNode)
    → IsRooted (ok (removed root))
    → entries root ≡ []
    → insert all_mallocs root d ≡ fault
unfolding insert link_and_fix place_root IsRooted to_list
empty-fault null d h e = absurd h
empty-fault (rooted leaf) d h e = refl
empty-fault (rooted (node c l x r)) d h e = absurd (some_entry (to_list l) (to_list r) x e)

-- If rbtree_delete leaves no entry, the root points to the static leaf, and an insertion after it,
-- with memory given, goes through the NULL link of the leaf to its data.
pub delete-insert_fault :
    (root root' : Root) (k : ℕ) (d : DataNode)
    → delete root k ≡ ok (removed root')
    → entries root' ≡ []
    → insert all_mallocs root' d ≡ fault
delete-insert_fault root root' k d e n =
    empty-fault root' d (subst IsRooted e (delete-IsRooted root k)) n
