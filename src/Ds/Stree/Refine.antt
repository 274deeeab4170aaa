-- ===== src/Ds/Stree/Refine.antt =====
-- The operations of stree.c against the map of `SortedMap`, for trees whose keys are in order.
use my_resource.Base.{
  ℕ, ◌≡◌, refl, sym, ap, ◌∙◌, Option, none, some, List, [], ◌∷◌, ◌++◌, append_assoc, arith, true,
  false, Option-cases, inl, inr,
}
use mathlib.Core.List.{append-nil}
use my_resource.Base.Fault.{ok, fault}
use my_resource.Ds.Entry.{DataNode, success, copy_node, all_mallocs}
use my_resource.Ds.SortedMap
use my_resource.Ds.SortedMap.{
  Below, Above, IsSorted, IsSplit, split, join, find, erase, erase_at, find_left, find_at,
  find_right, insert_left, insert_right, erase_absent, erase-IsSorted, Below-back, Below-front,
  found, missing,
}
use my_resource.Ds.Stree.{
  Tree, leaf, node, Frame, in_left, in_right, Locus, plug, attach, insert, search_from, search_node,
  search, replacement, lift_successor, relink, delete,
}
use my_resource.Ds.Stree.Paths.{
  to_list, before, after, to_list-plug, plug-search_from, leftmost-to_list, is_lonely, only_right,
  is_lonely-search_from, search_from-only_right,
}

abbrev pub IsOrdered : Tree → Type 0
IsOrdered t = IsSorted (to_list t)

abbrev pub entry_of : Option Locus → Option DataNode
entry_of none = none
entry_of (some c) = some c.entry

search_from-find :
    (p : List Frame) (t : Tree) (k : ℕ)
    → IsOrdered t
    → entry_of (search_from p t k) ≡ find k (to_list t)
unfolding search_from to_list find
search_from-find p leaf k s = refl
search_from-find p (node l d r) k s =
    let c = split (to_list l) d (to_list r) s in
    ground (
      arith,
      search_from-find (in_left d r ∷ p) l k c.front,
      search_from-find (in_right l d ∷ p) r k c.back,
      find_left k (to_list l) d (to_list r),
      find_at (to_list l) d (to_list r) c.below,
      find_right k (to_list l) d (to_list r) c.below,
      c.above,
    )

-- In an ordered tree `stree_search` returns the entry that the map holds at the key, and -1 exactly
-- if it holds none.
pub search-find : (t : Tree) (k : ℕ) → IsOrdered t → search t k ≡ find k (to_list t)
unfolding search search_node
search-find t k s = ground (arith, search_from-find [] t k s)

attach_lem :
    (t : Tree) (n : DataNode)
    → IsOrdered t
    → ((attach t n).0 ≡ missing (find n.key (to_list t)))
      × (to_list (attach t n).1 ≡ SortedMap.insert n (to_list t))
unfolding attach to_list SortedMap.insert SortedMap.find
attach_lem leaf n s = (refl, refl)
attach_lem (node l d r) n s =
    let c = split (to_list l) d (to_list r) s in
    ground (
      arith,
      attach_lem l n c.front,
      attach_lem r n c.back,
      find_left n.key (to_list l) d (to_list r),
      find_at (to_list l) d (to_list r) c.below,
      find_right n.key (to_list l) d (to_list r) c.below,
      insert_left n (to_list l) d (to_list r),
      insert_right n (to_list l) d (to_list r) c.below,
      SortedMap.insert_present n (to_list l ++ d ∷ to_list r) d s,
      c.above,
    )

-- When memory is given, `stree_insert` on an ordered tree returns 0 and adds a copy of the entry if
-- the key is new, and returns -1 and leaves the entries as they are if it is there already.
pub insert-refines :
    (t : Tree) (d : DataNode)
    → IsOrdered t
    → (t' : Tree) × (insert all_mallocs t d ≡ ok (missing (find d.key (to_list t)), t'))
      × (to_list t' ≡ SortedMap.insert (copy_node d) (to_list t))
      × IsOrdered t'
unfolding insert copy_node
insert-refines t d s =
    let (code, entries) = attach_lem t (copy_node d) s in
    (
      (attach t (copy_node d)).1,
      ap (λ c. ok (c, (attach t (copy_node d)).1)) code,
      entries,
      rw entries (SortedMap.insert-IsSorted (copy_node d) (to_list t) s),
    )

replacement-to_list : (l : Tree) (r : Tree) → to_list (replacement l r) ≡ to_list l ++ to_list r
unfolding replacement lift_successor to_list
replacement-to_list leaf r = refl
replacement-to_list (node a d b) leaf = sym (append-nil _)
replacement-to_list (node a d b) (node leaf e rr) = refl
replacement-to_list (node a d b) (node (node x f y) e rr) =
    ap (λ m. (to_list a ++ d ∷ to_list b) ++ m) (leftmost-to_list (node x f y) e rr)

-- The entries of the tree round a position, cut at the position's own.
Locus-to_list :
    (t : Tree) (k : ℕ) (c : Locus)
    → search_node t k ≡ some c
    → (to_list t ≡ (before c.path ++ to_list c.left) ++ c.entry ∷ (to_list c.right ++ after c.path))
      × (c.entry.key ≡ k)
unfolding search_node to_list plug
Locus-to_list t k c h =
    let (whole, key) = plug-search_from [] t k c h in
    (
      ap to_list (sym whole)
          ∙ to_list-plug c.path (node c.left c.entry c.right)
          ∙ simp append_assoc,
      key,
    )

relink-plug :
    (p : List Frame) (k : ℕ) (x : Tree)
    → is_lonely p ≡ false
    → Below k (before p)
    → relink p k x ≡ ok (plug p x)
unfolding relink plug before to_list
relink-plug [] k x h b = refl
relink-plug (in_left d r ∷ p) k x h b = refl
relink-plug (in_right leaf d ∷ p) k x h b = cc
relink-plug (in_right (node a e y) d ∷ p) k x h b =
    let inner = Below-back k (before p) _ b in
    let at = (Below-back k (to_list a) _ (Below-front k (to_list a ++ e ∷ to_list y) _ inner)).0 in
    ground arith

delete_present :
    (t : Tree) (k : ℕ) (c : Locus)
    → IsOrdered t
    → search_node t k ≡ some c
    → is_lonely c.path ≡ false
    → let t' = plug c.path (replacement c.left c.right) in
      (delete t k ≡ ok (success, t')) × (to_list t' ≡ erase k (to_list t))
unfolding delete
delete_present t k c s e h =
    let (whole, key) = Locus-to_list t k c e in
    let front = before c.path ++ to_list c.left in
    let cut = split front c.entry (to_list c.right ++ after c.path) (rw whole at s) in
    let low = Below-front k (before c.path) (to_list c.left) (rw key at cut.below) in
    (
      rw (e, delete, relink-plug c.path k (replacement c.left c.right) h low) refl,
      to_list-plug c.path (replacement c.left c.right)
          ∙ rw (replacement-to_list c.left c.right, whole, ← key)
              (rw (erase_at front c.entry (to_list c.right ++ after c.path) cut.below)
                (simp append_assoc)),
    )

-- On an ordered tree whose node to delete is not the right child of a node with no left child,
-- `stree_delete` ends, returns 0 exactly if the key was there, and removes its entry and no other.
pub delete-refines :
    (t : Tree) (k : ℕ)
    → IsOrdered t
    → only_right false t k ≡ false
    → (t' : Tree) × (delete t k ≡ ok (found (find k (to_list t)), t'))
      × (to_list t' ≡ erase k (to_list t))
      × IsOrdered t'
unfolding delete search
delete-refines t k s h = elim (Option-cases (search_node t k)) [
  | inl e ↦
      let gone : find k (to_list t) ≡ none = rw (← search-find t k s) (rw (e, search)) in
      (t, rw (e, delete, gone) refl, sym (erase_absent k (to_list t) gone), s)
  | inr (c, e) ↦
      let (run, entries) = delete_present t k c s e (is_lonely-search_from [] t k c e ∙ h) in
      let here : some c.entry ≡ find k (to_list t) = rw (← search-find t k s) (rw (e, search)) in
      (
        plug c.path (replacement c.left c.right),
        run ∙ ap (λ o. ok (found o, plug c.path (replacement c.left c.right))) here,
        entries,
        rw entries (erase-IsSorted k (to_list t) s),
      )
]

relink_lonely : (p : List Frame) (k : ℕ) (x : Tree) → is_lonely p ≡ true → relink p k x ≡ fault
unfolding relink
relink_lonely [] k x h = cc
relink_lonely (in_left d r ∷ p) k x h = cc
relink_lonely (in_right leaf d ∷ p) k x h = refl
relink_lonely (in_right (node a e b) d ∷ p) k x h = cc

-- If the node to delete is the right child of a node that has no left child, `stree_delete` reads
-- the key of that missing child through NULL, whatever the rest of the tree is.
pub delete-fault : (t : Tree) (k : ℕ) → only_right false t k ≡ true → delete t k ≡ fault
unfolding delete
delete-fault t k h = elim (Option-cases (search_node t k)) [
  | inl e ↦ absurd (search_from-only_right [] false t k h e)
  | inr (c, e) ↦ rw (
    e,
    delete,
    relink_lonely c.path k (replacement c.left c.right) (is_lonely-search_from [] t k c e ∙ h),
  )
]
