-- ===== src/Ds/Rbtree/Delete/Turned.antt =====
-- What the rotations and the changes of color in the fix up of a deletion do to the entries.
use my_resource.Base.{
  ◌≡◌, refl, sym, ap, ◌∙◌, List, [], ◌∷◌, ◌++◌, append_assoc, Bool-cases, inl, inr,
}
use my_resource.Base.Fault.{Run, ◌>>=◌, Holds}
use my_resource.Ds.Entry.{DataNode}
use my_resource.Ds.Rbtree.{
  Color, black, Tree, leaf, node, Frame, in_left, in_right, Position, position, plug, paint, linked,
  l_rotate, r_rotate,
}
use my_resource.Ds.Rbtree.Entries.{to_list, to_list-paint}
use my_resource.Ds.Rbtree.Delete.{Side, left, right, Spot, paint_pair}

-- What goes on after a rotation that lifts a node, if it does not fault.
pub l_rotate-then {ℓ} :
    {B : Type ℓ} (Q : B → Type 0) (f : Position → Run B) (p : List Frame) (c : Color) (l : Tree)
    (d : DataNode) (k : Color) (a : Tree) (e : DataNode) (b : Tree)
    → Holds Q (f (position (in_left k e b ∷ p) c l d a))
    → Holds Q (l_rotate (position p c l d (node k a e b)) >>= f)
unfolding l_rotate
l_rotate-then Q f p c l d k a e b h = elim (Bool-cases (linked p d.key)) [
  | inl g ↦ rw g h
  | inr g ↦ rw g tt
]

pub r_rotate-then {ℓ} :
    {B : Type ℓ} (Q : B → Type 0) (f : Position → Run B) (p : List Frame) (c : Color) (k : Color)
    (a : Tree) (e : DataNode) (b : Tree) (d : DataNode) (r : Tree)
    → Holds Q (f (position (in_right k a e ∷ p) c b d r))
    → Holds Q (r_rotate (position p c (node k a e b) d r) >>= f)
unfolding r_rotate
r_rotate-then Q f p c k a e b d r h = elim (Bool-cases (linked p d.key)) [
  | inl g ↦ rw g h
  | inr g ↦ rw g tt
]

-- The way leads to a node with this entry and without children.
abbrev pub Leads : List Side → Tree → DataNode → Type 0
Leads w leaf d = ⊥
Leads [] (node c leaf e leaf) d = e ≡ d
Leads [] (node c l e r) d = ⊥
Leads (left ∷ w) (node c l e r) d = Leads w l d
Leads (right ∷ w) (node c l e r) d = Leads w r d

-- The entries of the whole tree round a spot.
abbrev pub around : Spot → List DataNode
around s = to_list (plug s.path s.self)

pub Leads-paint :
    (w : List Side) (c : Color) (t : Tree) (d : DataNode) → Leads w t d → Leads w (paint c t) d
Leads-paint w c leaf d h = absurd h
Leads-paint [] c (node x leaf e leaf) d h = h
Leads-paint [] c (node x leaf e (node _ _ _ _)) d h = absurd h
Leads-paint [] c (node x (node _ _ _ _) e r) d h = absurd h
Leads-paint (left ∷ w) c (node x l e r) d h = h
Leads-paint (right ∷ w) c (node x l e r) d h = h

pub Leads-paint_pair :
    (w : List Side) (c : Color) (t : Tree) (d : DataNode) → Leads w t d → Leads w (paint_pair c t) d
Leads-paint_pair w c leaf d h = absurd h
Leads-paint_pair [] c (node x leaf e leaf) d h = h
Leads-paint_pair [] c (node x leaf e (node _ _ _ _)) d h = absurd h
Leads-paint_pair [] c (node x (node _ _ _ _) e r) d h = absurd h
Leads-paint_pair (left ∷ w) c (node x l e r) d h = h
Leads-paint_pair (right ∷ w) c (node x l e r) d h = Leads-paint w black r d h

pub to_list-paint_pair : (c : Color) (t : Tree) → to_list (paint_pair c t) ≡ to_list t
unfolding to_list
to_list-paint_pair c leaf = refl
to_list-paint_pair c (node x l d r) = ap (λ m. to_list l ++ d ∷ m) (to_list-paint black r)

-- The brother after case 3 is a node, with the entries that it had.
unfoldable pub IsLifted : Tree → Tree → Type 0
IsLifted t leaf = ⊥
IsLifted t (node c l d r) = to_list (node c l d r) ≡ to_list t

pub rotated :
    (c k c' k' : Color) (l : Tree) (d : DataNode) (a : Tree) (e : DataNode) (b : Tree)
    → to_list (node k (node c l d a) e b) ≡ to_list (node c' l d (node k' a e b))
unfolding to_list
rotated c k c' k' l d a e b = append_assoc (to_list l) (d ∷ to_list a) (e ∷ to_list b)

pub painted :
    (c c' : Color) (l : Tree) (d : DataNode) (r : Tree)
    → to_list (node c l d (paint black r)) ≡ to_list (node c' l d r)
unfolding to_list
painted c c' l d r = ap (λ m. to_list l ++ d ∷ m) (to_list-paint black r)

-- The brother after case 3 of the second half.
pub painted_left :
    (x c : Color) (l : Tree) (d : DataNode) (a : Tree) (e : DataNode) (b : Tree)
    → to_list (node x (node c (paint black l) d a) e b) ≡ to_list (node black l d (node x a e b))
unfolding to_list
painted_left x c l d a e b =
    append_assoc (to_list (paint black l)) (d ∷ to_list a) (e ∷ to_list b)
    ∙ ap (λ m. m ++ d ∷ (to_list a ++ e ∷ to_list b)) (to_list-paint black l)

-- The same after case 4, in each half.
pub rotated_left :
    (c c' : Color) (t : Tree) (d : DataNode) (k : Color) (a : Tree) (g : DataNode) (b r : Tree)
    → to_list (node k a g b) ≡ to_list r
    → to_list (node c (node black t d a) g (paint black b)) ≡ to_list (node c' t d r)
unfolding to_list
rotated_left c c' t d k a g b r h =
    append_assoc (to_list t) (d ∷ to_list a) (g ∷ to_list (paint black b))
    ∙ ap (λ m. to_list t ++ d ∷ m) (ap (λ m. to_list a ++ g ∷ m) (to_list-paint black b) ∙ h)

pub rotated_right :
    (x y c' k : Color) (a : Tree) (g : DataNode) (b l : Tree) (d : DataNode) (t t' : Tree)
    → to_list (node k a g b) ≡ to_list l
    → to_list t' ≡ to_list t
    → to_list (node x a g (node y b d t')) ≡ to_list (node c' l d t)
unfolding to_list
rotated_right x y c' k a g b l d t t' h e =
    sym (append_assoc (to_list a) (g ∷ to_list b) (d ∷ to_list t'))
    ∙ ap (λ m. m ++ d ∷ to_list t') h
    ∙ ap (λ m. to_list l ++ d ∷ m) e
