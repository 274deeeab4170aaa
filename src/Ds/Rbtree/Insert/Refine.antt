-- ===== src/Ds/Rbtree/Insert/Refine.antt =====
-- `rbtree_insert` against the map of `SortedMap`.
use my_resource.Base.{
  ◌≡◌, refl, sym, ap, ◌∙◌, Option, none, some, List, [], ◌∷◌, ◌++◌, append_assoc, compare-cases,
  inl, inr, ◌<◌,
}
use mathlib.Core.List.{append-nil}
use my_resource.Base.Fault.{ok, ◌>>=◌, Holds, Holds->>=}
use my_resource.Ds.Entry.{DataNode, Status, success, error, copy_node, all_mallocs}
use my_resource.Ds.SortedMap
use my_resource.Ds.SortedMap.{
  IsSorted, IsSplit, split, join, insert_present, find, find_left, find_at, find_right, insert_left,
  insert_right, missing,
}
use my_resource.Ds.Rbtree.{
  Color, red, black, Tree, leaf, node, Root, null, rooted, Frame, in_left, in_right, Position, plug,
  subtree,
}
use my_resource.Ds.Rbtree.Entries.{
  to_list, entries, before, after, to_list-plug, to_list-paint, whole, plug-cong,
}
use my_resource.Ds.Rbtree.Insert.{fixup_from, insert_fixup, place, place_root, link_and_fix, insert}
use my_resource.Ds.Rbtree.Insert.Rounds.{fixup_loop-rounds}

fixup_from-whole :
    (p : List Frame) (n : Position)
    → IsSorted (whole n)
    → Holds (λ n'. whole n' ≡ whole n) (fixup_from p n)
unfolding fixup_from
fixup_from-whole [] n s = refl
fixup_from-whole (f ∷ []) n s = refl
fixup_from-whole (f ∷ g ∷ p) n s = fixup_loop-rounds _ n s

insert_fixup-whole :
    (n : Position) → IsSorted (whole n) → Holds (λ t. to_list t ≡ whole n) (insert_fixup n)
unfolding insert_fixup
insert_fixup-whole n s =
    let start = record n { color = red } in
    let same : whole start ≡ whole n = plug-cong n.path _ _ (unfold to_list in refl) in
    Holds->>= _ _ (fixup_from start.path start) _ (fixup_from-whole start.path start (rw same s))
      λ n' e. to_list-paint black (plug n'.path (subtree n')) ∙ e ∙ same

Placed-here :
    (x : Color) (l : Tree) (d : DataNode) (r : Tree) (new : DataNode)
    → IsSplit (to_list l) d (to_list r)
    → new.key ≡ d.key
    → (missing (find new.key (to_list (node x l d r))) ≡ error)
      × (SortedMap.insert new (to_list (node x l d r)) ≡ to_list (node x l d r))
unfolding to_list
Placed-here x l d r new c h =
    let hit : find new.key (to_list l ++ d ∷ to_list r) ≡ some d =
      rw h (find_at (to_list l) d (to_list r) c.below) in
    (
      rw hit refl,
      insert_present new (to_list l ++ d ∷ to_list r) d (join (to_list l) d (to_list r) c) hit,
    )

-- What `place` finds: the key, or the place where the new entry belongs.
abbrev Placed : List Frame → Tree → DataNode → Option Position → Type 0
Placed p t new none =
    (missing (find new.key (to_list t)) ≡ error) × (SortedMap.insert new (to_list t) ≡ to_list t)
Placed p t new (some n) =
    (missing (find new.key (to_list t)) ≡ success)
    × (whole n ≡ before p ++ (SortedMap.insert new (to_list t) ++ after p))

module _ (p : List Frame) (x : Color) (l : Tree) (d : DataNode) (r : Tree) (new : DataNode) where
  Placed-left :
      (spot : Option Position)
      → Placed (in_left x d r ∷ p) l new spot
      → IsSplit (to_list l) d (to_list r)
      → new.key < d.key
      → Placed p (node x l d r) new spot
  unfolding to_list after before
  Placed-left none (code, same) c h =
      rw
        (
          find_left new.key (to_list l) d (to_list r) h c.above,
          insert_left new (to_list l) d (to_list r) h,
        )
        (code, ap (λ m. m ++ d ∷ to_list r) same)
  Placed-left (some n) (code, same) c h =
      rw
        (
          find_left new.key (to_list l) d (to_list r) h c.above,
          insert_left new (to_list l) d (to_list r) h,
        )
        (code, same ∙ ap (λ m. before p ++ m) (sym (append_assoc _ (d ∷ to_list r) (after p))))

  Placed-right :
      (spot : Option Position)
      → Placed (in_right x l d ∷ p) r new spot
      → IsSplit (to_list l) d (to_list r)
      → d.key < new.key
      → Placed p (node x l d r) new spot
  unfolding to_list after before
  Placed-right none (code, same) c h =
      rw
        (
          find_right new.key (to_list l) d (to_list r) c.below h,
          insert_right new (to_list l) d (to_list r) c.below h,
        )
        (code, ap (λ m. to_list l ++ d ∷ m) same)
  Placed-right (some n) (code, same) c h =
      rw
        (
          find_right new.key (to_list l) d (to_list r) c.below h,
          insert_right new (to_list l) d (to_list r) c.below h,
        )
        (code, same ∙ simp append_assoc)

place-Placed :
    (p : List Frame) (t : Tree) (new : DataNode)
    → IsSorted (to_list t)
    → Placed p t new (place p t new)
unfolding place find SortedMap.insert
place-Placed p leaf new s = (unfold to_list in refl, to_list-plug p _ ∙ unfold to_list in refl)
place-Placed p (node x l d r) new s =
    let c = split (to_list l) d (to_list r) (unfold to_list in s) in
    elim (compare-cases new.key d.key) [
      | inl (e, h) ↦
          rw (e, place)
            (Placed-left p x l d r new _ (place-Placed (in_left x d r ∷ p) l new c.front) c h)
      | inr (inl (e, h)) ↦ rw (e, place) (Placed-here x l d r new c h)
      | inr (inr (e, h)) ↦
          rw (e, place)
            (Placed-right p x l d r new _ (place-Placed (in_right x l d ∷ p) r new c.back) c h)
    ]

abbrev RootPlaced : Root → DataNode → Option Position → Type 0
RootPlaced root new none =
    (missing (find new.key (entries root)) ≡ error)
    × (SortedMap.insert new (entries root) ≡ entries root)
RootPlaced root new (some n) =
    (missing (find new.key (entries root)) ≡ success)
    × (whole n ≡ SortedMap.insert new (entries root))

Placed-top :
    (t : Tree) (new : DataNode) (spot : Option Position)
    → Placed [] t new spot
    → RootPlaced (rooted t) new spot
unfolding before after
Placed-top t new none h = h
Placed-top t new (some n) (code, same) = (code, same ∙ append-nil _)

place_root-RootPlaced :
    (root : Root) (new : DataNode)
    → IsSorted (entries root)
    → Holds (RootPlaced root new) (place_root root new)
unfolding place_root
place_root-RootPlaced null new s = unfold find SortedMap.insert to_list plug in (refl, refl)
place_root-RootPlaced (rooted leaf) new s = tt
place_root-RootPlaced (rooted (node c l d r)) new s =
    Placed-top (node c l d r) new _ (place-Placed [] (node c l d r) new s)

-- The status and the entries after an insertion.
abbrev pub Inserted : Root → DataNode → Status × Root → Type 0
Inserted root new (code, root') =
    (code ≡ missing (find new.key (entries root)))
    × (entries root' ≡ SortedMap.insert new (entries root))

finish :
    (root : Root) (new : DataNode) (spot : Option Position)
    → IsSorted (entries root)
    → RootPlaced root new spot
    → Holds (Inserted root new) (elim spot [
      | none ↦ ok (error, root)
      | some n ↦ insert_fixup n >>= λ t. ok (success, rooted t)
    ])
finish root new none s (code, same) = (sym code, sym same)
finish root new (some n) s (code, same) =
    Holds->>= _ _ (insert_fixup n) _
      (insert_fixup-whole n (rw same (SortedMap.insert-IsSorted new (entries root) s)))
      λ t e. (sym code, e ∙ same)

-- When memory is given, `rbtree_insert` on a tree whose keys are in order ends, and what it returns,
-- unless it goes through a NULL link, is 0 with a copy of the entry added if the key is new, and -1
-- with the entries as they were if it is there already.
pub rb_insert-refines :
    (root : Root) (d : DataNode)
    → IsSorted (entries root)
    → Holds (Inserted root (copy_node d)) (insert all_mallocs root d)
unfolding insert link_and_fix
rb_insert-refines root d s =
    Holds->>= _ _ (place_root root (copy_node d)) _ (place_root-RootPlaced root (copy_node d) s)
      λ spot h. finish root (copy_node d) spot s h
