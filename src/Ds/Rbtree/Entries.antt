-- ===== src/Ds/Rbtree/Entries.antt =====
-- A red-black tree read as the list of its entries.
use my_resource.Base.{
  ℕ, ◌≡◌, refl, sym, Option, none, some, List, [], ◌∷◌, ◌++◌, append_assoc, arith, Bool-cases, inl,
  inr,
}
use my_resource.Base.Fault.{Holds}
use mathlib.Core.List.{append-nil}
use my_resource.Ds.Entry.{DataNode}
use my_resource.Ds.SortedMap.{IsSorted, split, find, find_left, find_at, find_right}
use my_resource.Ds.Rbtree.{
  Color, Tree, leaf, node, Root, null, rooted, Frame, in_left, in_right, Position, position, plug,
  subtree, paint, search_from, search_node, search, linked, l_rotate, r_rotate,
}

unfoldable pub to_list : Tree → List DataNode
to_list leaf = []
to_list (node c l d r) = to_list l ++ d ∷ to_list r

abbrev pub entries : Root → List DataNode
entries null = []
entries (rooted t) = to_list t

unfoldable pub before : List Frame → List DataNode
before [] = []
before (in_left c d r ∷ p) = before p
before (in_right c l d ∷ p) = before p ++ (to_list l ++ d ∷ [])

unfoldable pub after : List Frame → List DataNode
after [] = []
after (in_left c d r ∷ p) = d ∷ (to_list r ++ after p)
after (in_right c l d ∷ p) = after p

pub to_list-plug :
    (p : List Frame) (t : Tree) → to_list (plug p t) ≡ before p ++ (to_list t ++ after p)
unfolding plug to_list before after
to_list-plug [] t = sym (append-nil (to_list t))
to_list-plug (in_left c d r ∷ p) t = rw (to_list-plug p (node c t d r), append_assoc)
to_list-plug (in_right c l d ∷ p) t = simp (to_list-plug p (node c l d t), append_assoc)

pub to_list-paint : (c : Color) (t : Tree) → to_list (paint c t) ≡ to_list t
unfolding to_list
to_list-paint c leaf = refl
to_list-paint c (node k l d r) = refl

abbrev pub entry_of : Option Position → Option DataNode
entry_of none = none
entry_of (some n) = some n.entry

pub search_from-find :
    (p : List Frame) (t : Tree) (k : ℕ)
    → IsSorted (to_list t)
    → entry_of (search_from p t k) ≡ find k (to_list t)
unfolding search_from to_list find
search_from-find p leaf k s = refl
search_from-find p (node x l d r) k s =
    let c = split (to_list l) d (to_list r) s in
    ground (
      arith,
      search_from-find (in_left x d r ∷ p) l k c.front,
      search_from-find (in_right x l d ∷ p) r k c.back,
      find_left k (to_list l) d (to_list r),
      find_at (to_list l) d (to_list r) c.below,
      find_right k (to_list l) d (to_list r) c.below,
      c.above,
    )

-- In a tree whose keys are in order `rbtree_search` returns the entry that the map holds at the
-- key, and -1 exactly if it holds none; so it does at a root that is NULL.
pub rb_search-find :
    (root : Root) (k : ℕ) → IsSorted (entries root) → search root k ≡ find k (entries root)
unfolding search search_node find
rb_search-find null k s = refl
rb_search-find (rooted t) k s = ground (arith, search_from-find [] t k s)

-- The entries of the whole tree round a position.
abbrev pub whole : Position → List DataNode
whole n = to_list (plug n.path (subtree n))

pub plug-cong :
    (p : List Frame) (t u : Tree) → to_list t ≡ to_list u → to_list (plug p t) ≡ to_list (plug p u)
plug-cong p t u e = rw (to_list-plug p t, to_list-plug p u, e) refl

-- Rotations keep the entries and their order, and leave the node where its left or right link was.
pub l_rotate-whole :
    (p : List Frame) (c : Color) (l : Tree) (d : DataNode) (r : Tree)
    → Holds
        (λ n'.
          (whole n' ≡ whole (position p c l d r))
          × ((k : Color) × (e : DataNode) × (b : Tree) × (n'.path ≡ in_left k e b ∷ p))
          × (n'.entry ≡ d))
        (l_rotate (position p c l d r))
unfolding l_rotate plug
l_rotate-whole p c l d leaf = tt
l_rotate-whole p c l d (node k a e b) = elim (Bool-cases (linked p d.key)) [
  | inl h ↦ rw h (
    plug-cong p (node k (node c l d a) e b) (node c l d (node k a e b))
        (unfold to_list in append_assoc (to_list l) (d ∷ to_list a) (e ∷ to_list b)),
    (k, e, b, refl),
    refl,
  )
  | inr h ↦ rw h tt
]

pub r_rotate-whole :
    (p : List Frame) (c : Color) (l : Tree) (d : DataNode) (r : Tree)
    → Holds
        (λ n'.
          (whole n' ≡ whole (position p c l d r))
          × ((k : Color) × (a : Tree) × (e : DataNode) × (n'.path ≡ in_right k a e ∷ p))
          × (n'.entry ≡ d))
        (r_rotate (position p c l d r))
unfolding r_rotate plug
r_rotate-whole p c leaf d r = tt
r_rotate-whole p c (node k a e b) d r = elim (Bool-cases (linked p d.key)) [
  | inl h ↦ rw h (
    plug-cong p (node k a e (node c b d r)) (node c (node k a e b) d r)
        (unfold to_list in sym (append_assoc (to_list a) (e ∷ to_list b) (d ∷ to_list r))),
    (k, a, e, refl),
    refl,
  )
  | inr h ↦ rw h tt
]
