-- ===== src/Ds/Rbtree/Delete/Refine.antt =====
-- `rbtree_delete` against the map of `SortedMap`.
use my_resource.Base.{
  ℕ, ◌≡◌, ◌≢◌, refl, sym, ap, ◌∙◌, Option, none, some, List, [], ◌∷◌, compare-cases, inl, inr,
  if◌then◌else◌,
}
use mathlib.Core.Path.{subst}
use my_resource.Base.Fault.{ok, fault, ◌>>=◌, Holds, Holds->>=, Holds-if}
use my_resource.Ds.Entry.{DataNode}
use my_resource.Ds.SortedMap.{IsSorted, split, find, erase, erase_at, erase-IsSorted}
use my_resource.Ds.Rbtree.{
  Tree, leaf, node, Root, null, rooted, Frame, in_left, in_right, Position, plug, linked,
  search_from, search_node,
}
use my_resource.Ds.Rbtree.Entries.{to_list, entries, whole, entry_of, search_from-find}
use my_resource.Ds.Rbtree.Delete.{remove, Outcome, missed, removed, delete}
use my_resource.Ds.Rbtree.Delete.Unlink.{Without, Without-from, Removes, remove-Removes}

-- What the search finds.
abbrev Reached : List Frame → Tree → ℕ → Option Position → Type 0
Reached p t k none = Unit
Reached p t k (some n) = (whole n ≡ to_list (plug p t)) × (n.entry.key ≡ k)

search_from-Reached : (p : List Frame) (t : Tree) (k : ℕ) → Reached p t k (search_from p t k)
unfolding search_from plug
search_from-Reached p leaf k = tt
search_from-Reached p (node c l d r) k = elim (compare-cases k d.key) [
  | inl (e, h) ↦ rw (e, search_from) (search_from-Reached (in_left c d r ∷ p) l k)
  | inr (inl (e, h)) ↦ rw (e, search_from) (refl, sym h)
  | inr (inr (e, h)) ↦ rw (e, search_from) (search_from-Reached (in_right c l d ∷ p) r k)
]

-- The map after a deletion: as it was if the key was missing.
abbrev pub Erased : Root → ℕ → Outcome → Type 0
Erased root k missed = find k (entries root) ≡ none
Erased root k (removed root') =
    (find k (entries root) ≢ none)
    × (entries root' ≡ erase k (entries root))
    × IsSorted (entries root')

Without-erase :
    (d : DataNode) (xs ys : List DataNode) → IsSorted xs → Without d xs ys → ys ≡ erase d.key xs
Without-erase d xs ys s h =
    let cuts = split h.front d h.back (subst IsSorted h.whole_list s) in
    h.rest ∙ sym (erase_at h.front d h.back cuts.below) ∙ ap (λ l. erase d.key l) (sym h.whole_list)

erased :
    (root : Root) (k : ℕ) (o : Option Position)
    → IsSorted (entries root)
    → entry_of o ≡ find k (entries root)
    → ((n : Position) → o ≡ some n → (whole n ≡ entries root) × (n.entry.key ≡ k))
    → Holds (Erased root k) (elim o [
      | none ↦ ok missed
      | some n ↦
          if linked n.path n.entry.key
          then (remove n.path n.color n.left n.entry n.right >>= λ t. ok (removed (rooted t)))
          else fault
    ])
erased root k none s f r = sym f
erased root k (some n) s f r =
    let (same, key) = r n refl in
    Holds-if (Erased root k) (linked n.path n.entry.key) _ _
      (Holds->>= _ _ (remove n.path n.color n.left n.entry n.right) _
        (remove-Removes n.path n.color n.left n.entry n.right)
        λ t h.
          let out =
            Without-from n.entry (whole n) (entries root) (to_list t) (sym same)
              (unfold Removes in h) in
          let gone : to_list t ≡ erase k (entries root) =
            Without-erase n.entry (entries root) (to_list t) s out
            ∙ ap (λ j. erase j (entries root)) key in
          ((λ e. cc), gone, subst IsSorted (sym gone) (erase-IsSorted k (entries root) s)))
      tt

pub reached-some :
    (t : Tree) (k : ℕ) (n : Position)
    → search_from [] t k ≡ some n
    → (whole n ≡ to_list t) × (n.entry.key ≡ k)
reached-some t k n e = unfold plug in subst (Reached [] t k) e (search_from-Reached [] t k)

-- On a tree whose keys are in order, or a NULL root, rbtree_delete ends within the rounds of the
-- model; unless it goes through a NULL link, it returns -1 if the key is not there, and otherwise
-- takes its entry out of the ordered map and no other, and leaves the keys in order.
pub rb_delete-refines :
    (root : Root) (k : ℕ) → IsSorted (entries root) → Holds (Erased root k) (delete root k)
unfolding delete search_node
rb_delete-refines null k s = unfold find in refl
rb_delete-refines (rooted t) k s =
    erased (rooted t) k (search_from [] t k) s (search_from-find [] t k s) (reached-some t k)
