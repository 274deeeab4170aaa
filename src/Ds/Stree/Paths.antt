-- ===== src/Ds/Stree/Paths.antt =====
-- A tree read as the list of its entries, and what a position in it stands for.
use my_resource.Base.{
  ℕ, ◌≡◌, ◌≢◌, refl, sym, ◌∙◌, none, some, List, [], ◌∷◌, ◌++◌, append_assoc, arith, Bool, true,
  false, compare, Ordering,
}
use mathlib.Core.List.{append-nil}
use my_resource.Ds.Entry.{DataNode}
use my_resource.Ds.Stree.{
  Tree, leaf, node, Frame, in_left, in_right, Locus, plug, search_from, leftmost,
}

unfoldable pub to_list : Tree → List DataNode
to_list leaf = []
to_list (node l d r) = to_list l ++ d ∷ to_list r

-- What stands before a position, and behind it.
unfoldable pub before : List Frame → List DataNode
before [] = []
before (in_left d r ∷ p) = before p
before (in_right l d ∷ p) = before p ++ (to_list l ++ d ∷ [])

unfoldable pub after : List Frame → List DataNode
after [] = []
after (in_left d r ∷ p) = d ∷ (to_list r ++ after p)
after (in_right l d ∷ p) = after p

pub to_list-plug :
    (p : List Frame) (t : Tree) → to_list (plug p t) ≡ before p ++ (to_list t ++ after p)
unfolding plug to_list before after
to_list-plug [] t = sym (append-nil (to_list t))
to_list-plug (in_left d r ∷ p) t = rw (to_list-plug p (node t d r), append_assoc)
to_list-plug (in_right l d ∷ p) t = simp (to_list-plug p (node l d t), append_assoc)

-- A search leaves the tree as it is, and finds the key.
pub plug-search_from :
    (p : List Frame) (t : Tree) (k : ℕ) (c : Locus)
    → search_from p t k ≡ some c
    → (plug c.path (node c.left c.entry c.right) ≡ plug p t) × (c.entry.key ≡ k)
unfolding search_from plug
plug-search_from p leaf k c h = cc
plug-search_from p (node l d r) k c h =
    ground
      (arith, plug-search_from (in_left d r ∷ p) l k c, plug-search_from (in_right l d ∷ p) r k c)

-- The leftmost entry comes first.
pub to_list-leftmost :
    (p : List Frame) (l : Tree) (d : DataNode) (r : Tree)
    → let s = leftmost p l d r in
      s.entry ∷ (to_list s.right ++ after s.path) ≡ to_list l ++ (d ∷ to_list r) ++ after p
unfolding leftmost to_list after
to_list-leftmost p leaf d r = refl
to_list-leftmost p (node a e b) d r = to_list-leftmost (in_left d r ∷ p) a e b ∙ simp append_assoc

pub before-leftmost :
    (p : List Frame) (l : Tree) (d : DataNode) (r : Tree)
    → before (leftmost p l d r).path ≡ before p
unfolding leftmost before
before-leftmost p leaf d r = refl
before-leftmost p (node a e b) d r = before-leftmost (in_left d r ∷ p) a e b

-- The successor in a subtree, and what is left of the subtree without it.
pub leftmost-to_list :
    (l : Tree) (d : DataNode) (r : Tree)
    → let s = leftmost [] l d r in
      s.entry ∷ to_list (plug s.path s.right) ≡ to_list l ++ d ∷ to_list r
unfolding before after
leftmost-to_list l d r =
    let s = leftmost [] l d r in
    rw (to_list-plug s.path s.right, before-leftmost [] l d r)
      (to_list-leftmost [] l d r ∙ append-nil _)

abbrev pub is_leaf : Tree → Bool
is_leaf leaf = true
is_leaf (node l d r) = false

-- The position is the right child of a node that has no left child.
abbrev pub is_lonely : List Frame → Bool
is_lonely [] = false
is_lonely (in_left d r ∷ p) = false
is_lonely (in_right l d ∷ p) = is_leaf l

-- The node with this key is the right child of a node that has no left child; `lonely` says so of
-- the root.
unfoldable pub only_right : Bool → Tree → ℕ → Bool
only_right lonely leaf k = false
only_right lonely (node l d r) k = elim (compare k d.key) [
  | Ordering.eq ↦ lonely
  | Ordering.lt ↦ only_right false l k
  | Ordering.gt ↦ only_right (is_leaf l) r k
]

pub is_lonely-search_from :
    (p : List Frame) (t : Tree) (k : ℕ) (c : Locus)
    → search_from p t k ≡ some c
    → is_lonely c.path ≡ only_right (is_lonely p) t k
unfolding search_from only_right
is_lonely-search_from p leaf k c h = cc
is_lonely-search_from p (node l d r) k c h = ground (
  arith,
  is_lonely-search_from (in_left d r ∷ p) l k c,
  is_lonely-search_from (in_right l d ∷ p) r k c,
)

pub search_from-only_right :
    (p : List Frame) (lonely : Bool) (t : Tree) (k : ℕ)
    → only_right lonely t k ≡ true
    → search_from p t k ≢ none
unfolding search_from only_right
search_from-only_right p lonely leaf k h = cc
search_from-only_right p lonely (node l d r) k h = ground (
  arith,
  search_from-only_right (in_left d r ∷ p) false l k,
  search_from-only_right (in_right l d ∷ p) (is_leaf l) r k,
)
