-- ===== src/Ds/Rbtree/Delete.antt =====
-- `rbtree_delete`, `_rbtree_successor` and `_rbtree_delete_fixup`.
pub mod Turned
pub mod Rounds
pub mod Unlink
pub mod Refine
pub mod Empty
pub mod Total
mod Tests
use my_resource.Base.{
  ℕ, zero, suc, ◌+◌, ◌*◌, Bool, true, false, ◌&&◌, Option, none, some, List, [], ◌∷◌, ◌++◌, ◌==◌,
  if◌then◌else◌,
}
use my_resource.Base.Fault.{Run, ok, fault, out_of_fuel, ◌>>=◌}
use my_resource.Ds.Entry.{DataNode}
use my_resource.Ds.Rbtree.{
  Color, red, black, Tree, leaf, node, Root, rooted, Frame, in_left, in_right, Position, position,
  plug, subtree, is_red, paint, linked, l_rotate, r_rotate, search_node,
}

-- A step from a node down to a child.
pub data Side : Type 0 where
  left right : Side

-- `rbtree_self` of the fix up, and the way from it down to the node that the fix up began at.
pub record Spot : Type 0 where
  pub path : List Frame
  pub self : Tree
  pub way : List Side

abbrev pub spot : List Frame → Tree → List Side → Spot
spot p t w = record { path = p; self = t; way = w }

-- The loop ends, by its condition or by `break`, or goes on.
pub data Next : Type 0 where
  stop again : Spot → Next

-- Where a rotation of the father leaves a left or a right child.
abbrev pub left_of : Position → List Side → Spot
left_of n w = spot (in_left n.color n.entry n.right ∷ n.path) n.left w

abbrev pub right_of : Position → List Side → Spot
right_of n w = spot (in_right n.color n.left n.entry ∷ n.path) n.right w

-- The brother after its own rotation is the node above it.
abbrev pub lifted : Position → Run Tree
lifted n = elim n.path [ [] ↦ fault | f ∷ p ↦ ok (plug (f ∷ []) (subtree n)) ]

abbrev pub is_leaf : Tree → Bool
is_leaf leaf = true
is_leaf (node c l d r) = false

-- The test of case 3, in both halves: a right child that is black and no leaf.
abbrev pub bends : Tree → Bool
bends t = if is_leaf t then false else (if is_red t then false else true)

abbrev pub both_black : Tree → Tree → Bool
both_black l r = if is_red l then false else (if is_red r then false else true)

-- A node and its right child get their colors in case 4.
abbrev pub paint_pair : Color → Tree → Tree
paint_pair c leaf = leaf
paint_pair c (node _ l d r) = node c l d (paint black r)

-- case 3 of the first half.
unfoldable pub straighten_left : List Frame → Tree → Run Tree
unfolding r_rotate
straighten_left p leaf = fault
straighten_left p (node c l d r) =
    if bends r
    then (r_rotate (position p red (paint black l) d r) >>= λ n. lifted n)
    else ok (node c l d r)

-- The first half of the loop, for a left child: the colors of the father, its data, the brother.
unfoldable pub fix_left : Color → DataNode → Tree → List Frame → Spot → Run Next
unfolding straighten_left l_rotate
fix_left c d leaf p s = fault
fix_left c d (node red bl e br) p s =
    l_rotate (position p red s.self d (node black bl e br)) >>= λ n. ok (again (left_of n s.way))
fix_left c d (node black bl e br) p s =
    if both_black bl br
    then ok (again (spot p (node c s.self d (node red bl e br)) (left ∷ s.way)))
    else straighten_left (in_right c s.self d ∷ p) (node black bl e br) >>= λ brother.
        l_rotate (position p black s.self d (paint_pair c brother)) >>= λ n.
        ok (stop (left_of n s.way))

-- The second half, for a right child. In case 2 the brother keeps its color: the pointer to it is
-- set to NULL. After case 3 the pointer leads to the node itself, which gets the colors of case 4.
unfoldable pub fix_right : Color → Tree → DataNode → List Frame → Spot → Run Next
unfolding l_rotate r_rotate
fix_right c leaf d p s = fault
fix_right c (node red bl e br) d p s =
    r_rotate (position p red (node black bl e br) d s.self) >>= λ n. ok (again (right_of n s.way))
fix_right c (node black bl e br) d p s =
    if both_black bl br
    then ok (again (spot p (node c (node black bl e br) d s.self) (right ∷ s.way)))
    else (if bends br
        then (l_rotate (position (in_left c d s.self ∷ p) red (paint black bl) e br) >>= λ n.
            lifted n >>= λ brother.
            r_rotate (position p black brother d (paint_pair c s.self)) >>= λ m.
            ok (stop (right_of m s.way)))
        else (r_rotate (position p black (paint_pair c (node black bl e br)) d s.self) >>= λ n.
            ok (stop (right_of n s.way))))

-- The half is chosen by the key of the father's left child, which the leaf does not have. To take a
-- right child for the left one would leave no tree, and counts as a fault too.
unfoldable pub fix_child : Frame → List Frame → ℕ → Spot → Run Next
unfolding fix_left fix_right
fix_child (in_left c d r) p k s = fix_left c d r p s
fix_child (in_right c leaf d) p k s = fault
fix_child (in_right c (node x bl e br) d) p k s =
    if e.key == k then fault else fix_right c (node x bl e br) d p s

-- One round: the condition of the loop, and its body.
unfoldable pub fix_step : List Frame → Tree → Spot → Run Next
unfolding fix_child
fix_step [] t s = ok (stop s)
fix_step (f ∷ p) leaf s = ok (stop s)
fix_step (f ∷ p) (node red l d r) s = ok (stop s)
fix_step (f ∷ p) (node black l d r) s = fix_child f p d.key s

unfoldable pub delete_loop : ℕ → Spot → Run Spot
delete_loop zero s = out_of_fuel
delete_loop (suc fuel) s = fix_step s.path s.self s >>= λ next. elim next [
  | stop s' ↦ ok s'
  | again s' ↦ delete_loop fuel s'
]

unfoldable pub nodes : Tree → ℕ
nodes leaf = 0
nodes (node c l d r) = 1 + nodes l + nodes r

-- The rounds of the model: twice the nodes beside the path, and its length, and one.
unfoldable pub delete_rounds : List Frame → ℕ
unfolding nodes
delete_rounds [] = 1
delete_rounds (in_left c d r ∷ p) = 2 * nodes r + 1 + delete_rounds p
delete_rounds (in_right c l d ∷ p) = 2 * nodes l + 1 + delete_rounds p

unfoldable pub delete_fixup : Spot → Run Spot
unfolding delete_loop delete_rounds
delete_fixup s =
    delete_loop (delete_rounds s.path) s >>= λ s'. ok (record s' { self = paint black s'.self })

-- The leaf in the place of the node that a way leads to.
unfoldable pub cut : List Side → Tree → Tree
cut [] t = leaf
cut (s ∷ w) leaf = leaf
cut (left ∷ w) (node c l d r) = node c (cut w l) d r
cut (right ∷ w) (node c l d r) = node c l d (cut w r)

-- The node that takes the place of the removed one, or what is left of it, is fixed up if the color
-- taken out is black.
unfoldable pub fix_bench : Color → List Frame → Tree → Run Tree
unfolding delete_fixup
fix_bench red p bench = ok (plug p bench)
fix_bench black p bench = delete_fixup (spot p bench []) >>= λ s. ok (plug s.path s.self)

-- `_rbtree_successor`, from the right child on.
unfoldable pub leftmost : List Frame → Color → Tree → DataNode → Tree → Position
leftmost p c leaf d r = position p c leaf d r
leftmost p c (node x l e m) d r = leftmost (in_left c d r ∷ p) x l e m

-- The three cases of `rbtree_delete`, the first one in its three parts.
unfoldable pub remove : List Frame → Color → Tree → DataNode → Tree → Run Tree
unfolding delete_fixup fix_bench cut leftmost
remove p c leaf d leaf =
    delete_fixup (spot p (node c leaf d leaf) []) >>= λ s. ok (plug s.path (cut s.way s.self))
remove p c leaf d (node x l e r) = fix_bench c p (node x l e r)
remove p c (node x l e r) d leaf = fix_bench c p (node x l e r)
remove p c (node x l e r) d (node y leaf g m) = fix_bench c p (node y (node x l e r) g m)
remove p c (node x l e r) d (node y (node z a h b) g m) =
    let s = leftmost (in_left y g m ∷ []) z a h b in
    fix_bench s.color (s.path ++ in_right c (node x l e r) s.entry ∷ p) s.right

-- What `rbtree_delete` leaves: with -1 the tree as it was; else it returns no value.
pub data Outcome : Type 0 where
  missed : Outcome
  removed : Root → Outcome

unfoldable pub delete : Root → ℕ → Run Outcome
unfolding remove linked
delete root k = elim (search_node root k) [
  | none ↦ ok missed
  | some n ↦
      if linked n.path n.entry.key
      then (remove n.path n.color n.left n.entry n.right >>= λ t. ok (removed (rooted t)))
      else fault
]
