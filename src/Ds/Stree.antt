-- ===== src/Ds/Stree.antt =====
-- The binary search tree of fram/module/ds/src/stree.c. A tree is the data type `Tree`; a pointer to
-- one of its nodes is a `Locus`, whose path holds what the node's `parent` links lead to, so that
-- following `parent` is taking the path's first frame and writing a child link is `plug`.
pub mod Paths
pub mod Refine
pub mod Walks
use my_resource.Base.{
  ℕ, ◌+◌, compare, Ordering, Bool, true, false, Option, none, some, List, [], ◌∷◌, ◌++◌, ◌==◌,
  if◌then◌else◌,
}
use my_resource.Base.Fault.{Run, ok, fault, ◌>>=◌}
use my_resource.Ds.Entry.{DataNode, Mallocs, Status, success, error, copy_node}

-- `leaf` is a NULL child.
pub data Tree : Type 0 where
  leaf : Tree
  node : Tree → DataNode → Tree → Tree

-- One step to the parent: which child the node is, the parent's data, and the other child.
pub data Frame : Type 0 where
  in_left : DataNode → Tree → Frame
  in_right : Tree → DataNode → Frame

pub record Locus : Type 0 where
  pub path : List Frame
  pub left : Tree
  pub entry : DataNode
  pub right : Tree

-- The whole tree round a position.
unfoldable pub plug : List Frame → Tree → Tree
plug [] t = t
plug (in_left d r ∷ p) t = plug p (node t d r)
plug (in_right l d ∷ p) t = plug p (node l d t)

-- The `while (1)` of `stree_insert`, and its case of an empty root.
unfoldable pub attach : Tree → DataNode → Status × Tree
attach leaf new = (success, node leaf new leaf)
attach (node l d r) new = elim (compare new.key d.key) [
  | Ordering.lt ↦ let (s, l') = attach l new in (s, node l' d r)
  | Ordering.gt ↦ let (s, r') = attach r new in (s, node l d r')
  | Ordering.eq ↦ (error, node l d r)
]

-- `memset` runs over the value's block before the block is compared with NULL.
unfoldable pub insert : Mallocs → Tree → DataNode → Run (Status × Tree)
unfolding attach copy_node
insert m t d =
    if m.node
    then (if m.data_node
        then (if m.value then ok (attach t (copy_node d)) else fault)
        else ok (error, t))
    else ok (error, t)

unfoldable pub search_from : List Frame → Tree → ℕ → Option Locus
search_from p leaf k = none
search_from p (node l d r) k = elim (compare k d.key) [
  | Ordering.eq ↦ some (record { path = p; left = l; entry = d; right = r })
  | Ordering.lt ↦ search_from (in_left d r ∷ p) l k
  | Ordering.gt ↦ search_from (in_right l d ∷ p) r k
]

-- `none` is the pointer -1.
unfoldable pub search_node : Tree → ℕ → Option Locus
unfolding search_from
search_node t k = search_from [] t k

unfoldable pub search : Tree → ℕ → Option DataNode
unfolding search_node
search t k = elim (search_node t k) [ none ↦ none | some c ↦ some c.entry ]

unfoldable pub leftmost : List Frame → Tree → DataNode → Tree → Locus
leftmost p leaf d r = record { path = p; left = leaf; entry = d; right = r }
leftmost p (node a e b) d r = leftmost (in_left d r ∷ p) a e b

-- `_stree_successor_node`: `none` is the pointer -1 for a NULL argument, `some none` is NULL.
unfoldable pub successor_node : Tree → Option (Option Locus)
unfolding leftmost
successor_node leaf = none
successor_node (node l d leaf) = some none
successor_node (node l d (node a e b)) = some (some (leftmost [] a e b))

-- What takes the place of a node that has both children.
unfoldable pub lift_successor : Tree → Tree → DataNode → Tree → Tree
unfolding leftmost plug
lift_successor l leaf d r = node l d r
lift_successor l (node a e b) d r =
    let s = leftmost [] (node a e b) d r in node l s.entry (plug s.path s.right)

-- What is written to the link of the parent.
unfoldable pub replacement : Tree → Tree → Tree
unfolding lift_successor
replacement leaf r = r
replacement (node a d b) leaf = node a d b
replacement (node a d b) (node rl e rr) = lift_successor (node a d b) rl e rr

-- The parent's link to the node is found by comparing keys with the parent's left child, which may
-- be NULL. A write to the wrong link would leave the freed node in the tree.
unfoldable pub relink : List Frame → ℕ → Tree → Run Tree
unfolding plug
relink [] k t = ok t
relink (in_left d r ∷ p) k t = ok (plug p (node t d r))
relink (in_right leaf d ∷ p) k t = fault
relink (in_right (node a e b) d ∷ p) k t =
    if e.key == k then fault else ok (plug p (node (node a e b) d t))

unfoldable pub delete : Tree → ℕ → Run (Status × Tree)
unfolding search_node relink replacement
delete t k = elim (search_node t k) [
  | none ↦ ok (error, t)
  | some c ↦ relink c.path k (replacement c.left c.right) >>= λ t'. ok (success, t')
]

-- The nodes in the order in which they are freed.
unfoldable pub destroy : Tree → List DataNode
destroy leaf = []
destroy (node l d r) = destroy l ++ destroy r ++ d ∷ []

-- `*num`, and the nodes that were printed.
pub record Walk : Type 0 where
  pub num : ℕ
  pub printed : List DataNode

unfoldable pub visit : DataNode → Walk → Walk
visit d w = record { num = w.num + 1; printed = w.printed ++ d ∷ [] }

unfoldable pub dlr : Tree → Walk → Walk
dlr leaf w = w
dlr (node l d r) w = dlr r (dlr l (visit d w))

unfoldable pub ldr : Tree → Walk → Walk
ldr leaf w = w
ldr (node l d r) w = ldr r (visit d (ldr l w))

unfoldable pub lrd : Tree → Walk → Walk
lrd leaf w = w
lrd (node l d r) w = visit d (lrd r (lrd l w))
