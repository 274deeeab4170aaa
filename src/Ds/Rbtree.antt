-- ===== src/Ds/Rbtree.antt =====
-- The red-black tree of fram/module/ds/src/rbtree.c. As in `Stree`, a pointer to a node is a
-- position whose path holds what the `parent` links lead to; the static node `_rb_leaf_node`, whose
-- own links and data are NULL, is the constructor `leaf`.
pub mod Entries
pub mod Insert
pub mod Delete
pub mod Walks
pub mod Levels
use my_resource.Base.{
  ℕ, ◌+◌, compare, Ordering, Bool, true, false, Option, none, some, List, [], ◌∷◌, ltb, ◌==◌,
  if◌then◌else◌,
}
use my_resource.Base.Fault.{Run, ok, fault}
use my_resource.Ds.Entry.{DataNode}

pub data Color : Type 0 where
  red black : Color

pub data Tree : Type 0 where
  leaf : Tree
  node : Color → Tree → DataNode → Tree → Tree

-- What a root pointer holds: NULL, as `rbtree_init` leaves it, or a tree.
pub data Root : Type 0 where
  null : Root
  rooted : Tree → Root

-- One step to the parent: its color, its data, and its other child.
pub data Frame : Type 0 where
  in_left : Color → DataNode → Tree → Frame
  in_right : Color → Tree → DataNode → Frame

-- A node that is no leaf, in its tree.
pub record Position : Type 0 where
  pub path : List Frame
  pub color : Color
  pub left : Tree
  pub entry : DataNode
  pub right : Tree

abbrev pub position : List Frame → Color → Tree → DataNode → Tree → Position
position p c l d r = record { path = p; color = c; left = l; entry = d; right = r }

unfoldable pub plug : List Frame → Tree → Tree
plug [] t = t
plug (in_left c d r ∷ p) t = plug p (node c t d r)
plug (in_right c l d ∷ p) t = plug p (node c l d t)

abbrev pub subtree : Position → Tree
subtree n = node n.color n.left n.entry n.right

-- `RB_IS_RED`: the leaf is black.
abbrev pub is_red : Tree → Bool
is_red leaf = false
is_red (node red l d r) = true
is_red (node black l d r) = false

abbrev pub paint : Color → Tree → Tree
paint c leaf = leaf
paint c (node _ l d r) = node c l d r

abbrev pub frame_is_red : Frame → Bool
frame_is_red (in_left red d r) = true
frame_is_red (in_left black d r) = false
frame_is_red (in_right red l d) = true
frame_is_red (in_right black l d) = false

abbrev pub paint_frame : Color → Frame → Frame
paint_frame c (in_left _ d r) = in_left c d r
paint_frame c (in_right _ l d) = in_right c l d

abbrev pub sibling : Frame → Tree
sibling (in_left c d r) = r
sibling (in_right c l d) = l

abbrev pub paint_sibling : Color → Frame → Frame
paint_sibling k (in_left c d r) = in_left c d (paint k r)
paint_sibling k (in_right c l d) = in_right c (paint k l) d

-- `node->parent`.
abbrev pub parent : Frame → List Frame → Tree → Position
parent (in_left c d r) p t = position p c t d r
parent (in_right c l d) p t = position p c l d t

-- `RB_PARENT_LR` chooses the parent's link by comparing the keys: it is the link to the node.
unfoldable pub linked : List Frame → ℕ → Bool
linked [] k = true
linked (in_left c d r ∷ p) k = ltb k d.key
linked (in_right c l d ∷ p) k = if ltb k d.key then false else true

-- The node is one level lower afterwards. To lift a leaf is to go through its NULL links; to write
-- to the wrong link of the parent would leave no tree, and counts as a fault too.
unfoldable pub l_rotate : Position → Run Position
unfolding linked
l_rotate n = elim n.right [
  | leaf ↦ fault
  | node c a e b ↦
      if linked n.path n.entry.key
      then ok (record n { path = in_left c e b ∷ n.path; right = a })
      else fault
]

unfoldable pub r_rotate : Position → Run Position
unfolding linked
r_rotate n = elim n.left [
  | leaf ↦ fault
  | node c a e b ↦
      if linked n.path n.entry.key
      then ok (record n { path = in_right c a e ∷ n.path; left = b })
      else fault
]

-- The loop of `_rbtree_search`; `none` is the pointer -1.
unfoldable pub search_from : List Frame → Tree → ℕ → Option Position
search_from p leaf k = none
search_from p (node c l d r) k = elim (compare k d.key) [
  | Ordering.eq ↦ some (position p c l d r)
  | Ordering.lt ↦ search_from (in_left c d r ∷ p) l k
  | Ordering.gt ↦ search_from (in_right c l d ∷ p) r k
]

unfoldable pub search_node : Root → ℕ → Option Position
unfolding search_from
search_node null k = none
search_node (rooted t) k = search_from [] t k

unfoldable pub search : Root → ℕ → Option DataNode
unfolding search_node
search root k = elim (search_node root k) [ none ↦ none | some n ↦ some n.entry ]
