-- ===== src/Ds/Rbtree/Insert.antt =====
-- `rbtree_insert` and `_rbtree_insert_fixup`.
pub mod Rounds
pub mod Refine
use my_resource.Base.{
  ℕ, zero, suc, ◌+◌, ◌*◌, compare, Ordering, Bool, true, false, Option, none, some, List, [], ◌∷◌,
  ltb, ◌==◌, if◌then◌else◌, length,
}
use my_resource.Base.Fault.{Run, ok, fault, out_of_fuel, ◌>>=◌}
use my_resource.Ds.Entry.{DataNode, Mallocs, Status, success, error, copy_node}
use my_resource.Ds.Rbtree.{
  Color, red, black, Tree, leaf, node, Root, null, rooted, Frame, in_left, in_right, Position, plug,
  subtree, is_red, paint, frame_is_red, paint_frame, sibling, paint_sibling, parent, linked,
  l_rotate, r_rotate,
}

-- Which of the two loops runs, by the side on which the father hung when the fix up began.
pub data Side : Type 0 where
  left_loop right_loop : Side

-- The test for a left child: no right sibling, or the key of the left child.
abbrev pub looks_left : ℕ → Frame → Bool
looks_left k (in_left c d r) = true
looks_left k (in_right c leaf d) = false
looks_left k (in_right c (node _ _ e _) d) = e.key == k

-- The test for a right child.
abbrev pub looks_right : ℕ → Frame → Bool
looks_right k (in_right c l d) = true
looks_right k (in_left c d leaf) = false
looks_right k (in_left c d (node _ _ e _)) = e.key == k

-- `_rbtree_r_rotate` at the grandparent, seen from the node: its path afterwards. If the father is
-- the right child, the node's uncle is lifted.
unfoldable pub r_rotate_above : Frame → Frame → List Frame → Run (List Frame)
unfolding linked
r_rotate_above (in_left c d x) (in_left g e s) p =
    if linked p e.key then ok (in_left c d (node g x e s) ∷ p) else fault
r_rotate_above (in_right c l d) (in_left g e s) p =
    if linked p e.key then ok (in_left g e s ∷ in_right c l d ∷ p) else fault
r_rotate_above f (in_right g leaf e) p = fault
r_rotate_above f (in_right g (node c a d b) e) p =
    if linked p e.key then ok (f ∷ in_right g b e ∷ in_right c a d ∷ p) else fault

unfoldable pub l_rotate_above : Frame → Frame → List Frame → Run (List Frame)
unfolding linked
l_rotate_above (in_right c l d) (in_right g s e) p =
    if linked p e.key then ok (in_right c (node g s e l) d ∷ p) else fault
l_rotate_above (in_left c d x) (in_right g s e) p =
    if linked p e.key then ok (in_right g s e ∷ in_left c d x ∷ p) else fault
l_rotate_above f (in_left g e leaf) p = fault
l_rotate_above f (in_left g e (node c a d b)) p =
    if linked p e.key then ok (f ∷ in_left g e a ∷ in_left c d b ∷ p) else fault

-- The loop ends, or goes on with another node.
pub data Next : Type 0 where
  done : Next
  again : Position → Next

-- case 1: the grandparent turns red, its children black, and it is the next node.
unfoldable pub recolor : Frame → Frame → List Frame → Position → Next
recolor f g p n =
    let father = parent (paint_frame black f) [] (subtree n) in
    again (parent (paint_frame red (paint_sibling black g)) p (subtree father))

-- Both loops set these two colors before they rotate the grandparent.
unfoldable pub turn : Side → Frame → Frame → List Frame → Position → Run Next
unfolding r_rotate_above l_rotate_above
turn left_loop f g p n = r_rotate_above (paint_frame black f) (paint_frame red g) p >>= λ p'.
    ok (again (record n { path = p' }))
turn right_loop f g p n = l_rotate_above (paint_frame black f) (paint_frame red g) p >>= λ p'.
    ok (again (record n { path = p' }))

-- The father is the next node, and is rotated below this one.
unfoldable pub climb : Side → Frame → List Frame → Position → Run Next
unfolding l_rotate r_rotate
climb left_loop f p n = l_rotate (parent f p (subtree n)) >>= λ n'. ok (again n')
climb right_loop f p n = r_rotate (parent f p (subtree n)) >>= λ n'. ok (again n')

unfoldable pub reshape : Side → Frame → Frame → List Frame → Position → Run Next
reshape left_loop f g p n =
    if looks_right n.entry.key f then climb left_loop f (g ∷ p) n else turn left_loop f g p n
reshape right_loop f g p n =
    if looks_right n.entry.key f then turn right_loop f g p n else climb right_loop f (g ∷ p) n

-- A red root as father has the leaf as its parent, whose children are NULL.
unfoldable pub step_red : Side → Frame → List Frame → Position → Run Next
unfolding recolor
step_red side f [] n = fault
step_red side f (g ∷ p) n =
    if is_red (sibling g) then ok (recolor f g p n) else reshape side f g p n

-- One round of a loop.
unfoldable pub step : Side → List Frame → Position → Run Next
step side [] n = ok done
step side (f ∷ p) n = if frame_is_red f then step_red side f p n else ok done

unfoldable pub fixup_loop : ℕ → Side → Position → Run Position
fixup_loop zero side n = out_of_fuel
fixup_loop (suc fuel) side n =
    step side n.path n >>= λ next. elim next [ done ↦ ok n | again n' ↦ fixup_loop fuel side n' ]

abbrev pub rounds : List Frame → ℕ
rounds p = 2 * length p + 4

-- The choice of the loop, if the node has a grandparent.
unfoldable pub fixup_from : List Frame → Position → Run Position
fixup_from [] n = ok n
fixup_from (f ∷ []) n = ok n
fixup_from (f ∷ g ∷ p) n =
    let father = parent f (g ∷ p) (subtree n) in
    let side = if looks_left father.entry.key g then left_loop else right_loop in
    fixup_loop (rounds n.path) side n

unfoldable pub insert_fixup : Position → Run Tree
unfolding fixup_from plug
insert_fixup n =
    let start = record n { color = red } in
    fixup_from start.path start >>= λ n'. ok (paint black (plug n'.path (subtree n')))

-- Where the new node goes below a node; `none` if its key is there.
unfoldable pub place : List Frame → Tree → DataNode → Option Position
place p leaf new = some (record { path = p; color = red; left = leaf; entry = new; right = leaf })
place p (node c l d r) new = elim (compare new.key d.key) [
  | Ordering.lt ↦ place (in_left c d r ∷ p) l new
  | Ordering.gt ↦ place (in_right c l d ∷ p) r new
  | Ordering.eq ↦ none
]

-- A root that points to the leaf has no data to compare with.
unfoldable pub place_root : Root → DataNode → Run (Option Position)
unfolding place
place_root null new = ok (place [] leaf new)
place_root (rooted leaf) new = fault
place_root (rooted (node c l d r)) new = ok (place [] (node c l d r) new)

unfoldable pub link_and_fix : Root → DataNode → Run (Status × Root)
unfolding place_root insert_fixup
link_and_fix root new = place_root root new >>= λ spot. elim spot [
  | none ↦ ok (error, root)
  | some n ↦ insert_fixup n >>= λ t. ok (success, rooted t)
]

unfoldable pub insert : Mallocs → Root → DataNode → Run (Status × Root)
unfolding link_and_fix copy_node
insert m root d =
    if m.node
    then (if m.data_node
        then (if m.value then link_and_fix root (copy_node d) else fault)
        else ok (error, root))
    else ok (error, root)
