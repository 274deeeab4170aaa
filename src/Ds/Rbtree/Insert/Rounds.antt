-- ===== src/Ds/Rbtree/Insert/Rounds.antt =====
-- Each round of the fix up of an insertion keeps the entries, and there are enough rounds.
use my_resource.Base.{
  ℕ, zero, suc, ◌+◌, ◌*◌, ◌<◌, ◌≤◌, ◌≡◌, refl, sym, ◌∙◌, Bool, true, false, List, [], ◌∷◌, ◌++◌,
  append_assoc, arith, length, if◌then◌else◌, Bool-cases, inl, inr,
}
use mathlib.Core.Path.{subst}
use my_resource.Base.Fault.{Run, ok, ◌>>=◌, Holds, Holds->>=, Holds-mono}
use my_resource.Ds.Entry.{DataNode}
use my_resource.Ds.SortedMap.{IsSorted, split, Above-back, IsSorted-back, IsSorted-front}
use my_resource.Ds.Rbtree.{
  Color, red, black, Tree, leaf, node, Frame, in_left, in_right, Position, position, plug, subtree,
  is_red, frame_is_red, paint_frame, sibling, linked, l_rotate, r_rotate,
}
use my_resource.Ds.Rbtree.Entries.{
  to_list, before, after, to_list-plug, to_list-paint, whole, plug-cong, l_rotate-whole,
  r_rotate-whole,
}
use my_resource.Ds.Rbtree.Insert.{
  Side, left_loop, right_loop, looks_right, r_rotate_above, l_rotate_above, Next, done, again,
  recolor, turn, climb, reshape, step_red, step, fixup_loop, rounds,
}

-- What is left to do from a node, in rounds.
climbs : Side → Frame → ℕ → Bool
climbs left_loop f k = looks_right k f
climbs right_loop f k = if looks_right k f then false else true

cost_at : Side → List Frame → ℕ → ℕ
cost_at side [] k = 1
cost_at side (f ∷ p) k =
    if frame_is_red f then (if climbs side f k then 2 * length p + 5 else 2 * length p + 4) else 1

cost : Side → Position → ℕ
unfolding cost_at
cost side n = cost_at side n.path n.entry.key

cost_at_pos : (side : Side) (p : List Frame) (k : ℕ) → 0 < cost_at side p k
unfolding cost_at
cost_at_pos side [] k = omega arith
cost_at_pos side (f ∷ p) k = ground arith

cost_pos : (side : Side) (n : Position) → 0 < cost side n
unfolding cost
cost_pos side n = cost_at_pos side n.path n.entry.key

cost_at_le : (side : Side) (p : List Frame) (k : ℕ) → cost_at side p k < 2 * length p + 4
unfolding cost_at
cost_at_le side [] k = omega arith
cost_at_le side (f ∷ p) k = ground arith

-- In a tree whose keys are in order, the test for a right child is exact.
keys_apart :
    (p : List Frame) (x c : Color) (l : Tree) (d : DataNode) (r : Tree) (e : DataNode) (y : Color)
    (bl : Tree) (g : DataNode) (br : Tree)
    → IsSorted (to_list (plug p (node x (node c l d r) e (node y bl g br))))
    → d.key < g.key
keys_apart p x c l d r e y bl g br s =
    let inner = node x (node c l d r) e (node y bl g br) in
    let middle : IsSorted (to_list inner) =
      IsSorted-front (to_list inner) (after p)
        (IsSorted-back (before p) _ (rw (to_list-plug p inner) at s)) in
    let flat : IsSorted (to_list l ++ d ∷ (to_list r ++ e ∷ (to_list bl ++ g ∷ to_list br))) =
      unfold to_list in (rw append_assoc at middle) in
    let high = (split (to_list l) d _ flat).above in
    (Above-back d.key (to_list bl) _ (Above-back d.key (to_list r) _ high).1).0

looks_right-in_left :
    (p : List Frame) (x : Color) (e : DataNode) (b : Tree) (n : Position)
    → n.path ≡ in_left x e b ∷ p
    → IsSorted (whole n)
    → looks_right n.entry.key (in_left x e b) ≡ false
unfolding plug
looks_right-in_left p x e leaf n h s = refl
looks_right-in_left p x e (node y bl g br) n h s =
    let at : IsSorted (to_list (plug (in_left x e (node y bl g br) ∷ p) (subtree n))) = rw h at s in
    let apart = keys_apart p x n.color n.left n.entry n.right e y bl g br at in ground arith

-- A round keeps the entries, and the next node costs less.
abbrev Keeps : Side → Position → Next → Type 0
Keeps side n done = Unit
Keeps side n (again n') = (whole n' ≡ whole n) × (cost side n' < cost side n)

module _ (side : Side) (p : List Frame) (c : Color) (l : Tree) (d : DataNode) (r : Tree) where
  recolor-whole :
      (f g : Frame)
      → let n = position (f ∷ g ∷ p) c l d r in
        (n' : Position) × (recolor f g p n ≡ again n') × (n'.path ≡ p) × (whole n' ≡ whole n)
  unfolding recolor plug to_list
  recolor-whole (in_left x e s) (in_left y g t) =
      (_, refl, refl, plug-cong p _ _ (rw (to_list-paint black t) refl))
  recolor-whole (in_left x e s) (in_right y t g) =
      (_, refl, refl, plug-cong p _ _ (rw (to_list-paint black t) refl))
  recolor-whole (in_right x s e) (in_left y g t) =
      (_, refl, refl, plug-cong p _ _ (rw (to_list-paint black t) refl))
  recolor-whole (in_right x s e) (in_right y t g) =
      (_, refl, refl, plug-cong p _ _ (rw (to_list-paint black t) refl))

  recolor-Keeps :
      (f g : Frame)
      → frame_is_red f ≡ true
      → let n = position (f ∷ g ∷ p) c l d r in Keeps side n (recolor f g p n)
  unfolding cost cost_at
  recolor-Keeps f g h =
      let (n', e, path, same) = recolor-whole f g in
      rw e (same, rw path (ground (arith, cost_at_le side p n'.entry.key)))

-- After the rotation of the father the node is on the other side, and the next round does not climb.
rotated_left :
    (n : Position) (q : List Frame) (x : Color) (l : Tree) (e : DataNode) (r : Tree)
    → IsSorted (whole n)
    → whole (position q x l e r) ≡ whole n
    → cost left_loop n ≡ 2 * length q + 5
    → Holds (Keeps left_loop n) (l_rotate (position q x l e r) >>= λ n'. ok (again n'))
unfolding cost cost_at climbs
rotated_left n q x l e r s w h =
    Holds->>= _ _ (l_rotate (position q x l e r)) _ (l_rotate-whole q x l e r)
      λ n' (same, (y, e', b, path), entry).
        let test = looks_right-in_left q y e' b n' path (rw (same ∙ w) s) in
        (same ∙ w, rw path (ground (arith, test)))

rotated_right :
    (n : Position) (q : List Frame) (x : Color) (l : Tree) (e : DataNode) (r : Tree)
    → whole (position q x l e r) ≡ whole n
    → cost right_loop n ≡ 2 * length q + 5
    → Holds (Keeps right_loop n) (r_rotate (position q x l e r) >>= λ n'. ok (again n'))
unfolding cost cost_at climbs
rotated_right n q x l e r w h =
    Holds->>= _ _ (r_rotate (position q x l e r)) _ (r_rotate-whole q x l e r)
      λ n' (same, (y, a, e', path), entry). (same ∙ w, rw path (ground arith))

climb-Keeps :
    (side : Side) (q : List Frame) (n : Position) (f : Frame)
    → n.path ≡ f ∷ q
    → frame_is_red f ≡ true
    → climbs side f n.entry.key ≡ true
    → IsSorted (whole n)
    → Holds (Keeps side n) (climb side f q n)
unfolding climb cost cost_at plug climbs
climb-Keeps left_loop q n (in_left x e t) path h u s =
    rotated_left n q x (subtree n) e t s (rw path refl) (rw path (ground arith))
climb-Keeps left_loop q n (in_right x t e) path h u s =
    rotated_left n q x t e (subtree n) s (rw path refl) (rw path (ground arith))
climb-Keeps right_loop q n (in_left x e t) path h u s =
    rotated_right n q x (subtree n) e t (rw path refl) (rw path (ground arith))
climb-Keeps right_loop q n (in_right x t e) path h u s = cc

-- Turning the grandparent keeps the entries, and leaves the node a black father.
abbrev Turned : List Frame → Tree → List Frame → Type 0
Turned path t p' =
    (to_list (plug p' t) ≡ to_list (plug path t))
    × ((h : Frame) × (q : List Frame) × (p' ≡ h ∷ q) × (frame_is_red h ≡ false))

r_rotate_above-Turned :
    (x : Color) (d : DataNode) (u : Tree) (g : Frame) (p : List Frame) (t : Tree)
    → Holds
        (Turned (in_left x d u ∷ g ∷ p) t)
        (r_rotate_above (in_left black d u) (paint_frame red g) p)
unfolding r_rotate_above plug to_list
r_rotate_above-Turned x d u (in_left y e s) p t = elim (Bool-cases (linked p e.key)) [
  | inl h ↦ rw h (
    plug-cong p _ _ (sym (append_assoc (to_list t) (d ∷ to_list u) (e ∷ to_list s))),
    (_, _, refl, refl),
  )
  | inr h ↦ rw h tt
]
r_rotate_above-Turned x d u (in_right y leaf e) p t = tt
r_rotate_above-Turned x d u (in_right y (node k a m b) e) p t = elim (Bool-cases (linked p e.key)) [
  | inl h ↦
      rw h (plug-cong p _ _ (sym (append_assoc (to_list a) (m ∷ to_list b) _)), (_, _, refl, refl))
  | inr h ↦ rw h tt
]

l_rotate_above-Turned :
    (x : Color) (u : Tree) (d : DataNode) (g : Frame) (p : List Frame) (t : Tree)
    → Holds
        (Turned (in_right x u d ∷ g ∷ p) t)
        (l_rotate_above (in_right black u d) (paint_frame red g) p)
unfolding l_rotate_above plug to_list
l_rotate_above-Turned x u d (in_right y s e) p t = elim (Bool-cases (linked p e.key)) [
  | inl h ↦ rw h (
    plug-cong p _ _ (append_assoc (to_list s) (e ∷ to_list u) (d ∷ to_list t)),
    (_, _, refl, refl),
  )
  | inr h ↦ rw h tt
]
l_rotate_above-Turned x u d (in_left y e leaf) p t = tt
l_rotate_above-Turned x u d (in_left y e (node k a m b)) p t = elim (Bool-cases (linked p e.key)) [
  | inl h ↦
      rw h (plug-cong p _ _ (append_assoc _ (e ∷ to_list a) (m ∷ to_list b)), (_, _, refl, refl))
  | inr h ↦ rw h tt
]

-- A node with a black father costs one round.
turned :
    (side : Side) (n : Position) (m : Run (List Frame))
    → 1 < cost side n
    → Holds (Turned n.path (subtree n)) m
    → Holds (Keeps side n) (m >>= λ p'. ok (again (record n { path = p' })))
unfolding cost cost_at
turned side n m more h =
    Holds->>= _ _ m _ h λ p' (same, (f, q, path, dark)). (same, rw path (ground arith))

turn-Keeps :
    (side : Side) (p : List Frame) (n : Position) (f g : Frame)
    → n.path ≡ f ∷ g ∷ p
    → frame_is_red f ≡ true
    → climbs side f n.entry.key ≡ false
    → IsSorted (whole n)
    → Holds (Keeps side n) (turn side f g p n)
unfolding turn climbs cost cost_at
turn-Keeps left_loop p n (in_left x e t) g path h u s =
    turned left_loop n _ (rw path (ground arith)) (rw path (r_rotate_above-Turned x e t g p _))
turn-Keeps left_loop p n (in_right x t e) g path h u s = cc
turn-Keeps right_loop p n (in_right x t e) g path h u s =
    turned right_loop n _ (rw path (ground arith)) (rw path (l_rotate_above-Turned x t e g p _))
turn-Keeps right_loop p n (in_left x e t) g path h u s =
    absurd (ground (arith, looks_right-in_left (g ∷ p) x e t n path s))

reshape-Keeps :
    (side : Side) (p : List Frame) (n : Position) (f g : Frame)
    → n.path ≡ f ∷ g ∷ p
    → frame_is_red f ≡ true
    → IsSorted (whole n)
    → Holds (Keeps side n) (reshape side f g p n)
unfolding reshape climbs
reshape-Keeps left_loop p n f g path h s = elim (Bool-cases (looks_right n.entry.key f)) [
  | inl u ↦ rw u (climb-Keeps left_loop (g ∷ p) n f path h u s)
  | inr u ↦ rw u (turn-Keeps left_loop p n f g path h u s)
]
reshape-Keeps right_loop p n f g path h s = elim (Bool-cases (looks_right n.entry.key f)) [
  | inl u ↦ rw u (turn-Keeps right_loop p n f g path h (rw u refl) s)
  | inr u ↦ rw u (climb-Keeps right_loop (g ∷ p) n f path h (rw u refl) s)
]

step_red-Keeps :
    (side : Side) (p : List Frame) (n : Position) (f : Frame)
    → n.path ≡ f ∷ p
    → frame_is_red f ≡ true
    → IsSorted (whole n)
    → Holds (Keeps side n) (step_red side f p n)
unfolding step_red
step_red-Keeps side [] n f path h s = tt
step_red-Keeps side (g ∷ p) n f path h s = elim (Bool-cases (is_red (sibling g))) [
  | inl u ↦ rw u (
      subst (λ q. Keeps side (record n { path = q }) (recolor f g p (record n { path = q })))
        (sym path) (recolor-Keeps side p n.color n.left n.entry n.right f g h))
  | inr u ↦ rw u (reshape-Keeps side p n f g path h s)
]

step-Keeps :
    (side : Side) (path : List Frame) (n : Position)
    → n.path ≡ path
    → IsSorted (whole n)
    → Holds (Keeps side n) (step side path n)
unfolding step
step-Keeps side [] n e s = tt
step-Keeps side (f ∷ p) n e s = elim (Bool-cases (frame_is_red f)) [
  | inl u ↦ rw u (step_red-Keeps side p n f e u s)
  | inr u ↦ rw u tt
]

fixup_loop-whole :
    (fuel : ℕ) (side : Side) (n : Position)
    → cost side n ≤ fuel
    → IsSorted (whole n)
    → Holds (λ n'. whole n' ≡ whole n) (fixup_loop fuel side n)
unfolding fixup_loop
fixup_loop-whole zero side n h s = absurd (omega (arith, cost_pos side n))
fixup_loop-whole (suc fuel) side n h s =
    Holds->>= (Keeps side n) _ (step side n.path n) _ (step-Keeps side n.path n refl s) (elim [
      | done ↦ λ k. refl
      | again n' ↦ λ (same, less).
          Holds-mono _ _ (fixup_loop fuel side n')
            (fixup_loop-whole fuel side n' (omega arith) (rw same s)) (λ a e. e ∙ same)
    ])

-- The rounds that the model allows are enough for either loop.
pub fixup_loop-rounds :
    (side : Side) (n : Position)
    → IsSorted (whole n)
    → Holds (λ n'. whole n' ≡ whole n) (fixup_loop (rounds n.path) side n)
unfolding cost
fixup_loop-rounds side n s =
    fixup_loop-whole (rounds n.path) side n (omega (arith, cost_at_le side n.path n.entry.key)) s
