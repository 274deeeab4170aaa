-- ===== src/Ds/Rbtree/Delete/Rounds.antt =====
-- Each round of the fix up of a deletion keeps the entries, and there are enough rounds.
use my_resource.Base.{ℕ, zero, suc, ◌<◌, ◌≤◌, ◌≡◌, refl, sym, ◌∙◌, List, [], ◌∷◌, arith, ◌==◌}
use my_resource.Base.Fault.{ok, ◌>>=◌, Holds, Holds->>=, Holds-mono, Holds-if}
use my_resource.Ds.Entry.{DataNode}
use my_resource.Ds.Rbtree.{
  Color, red, black, Tree, leaf, node, Frame, in_left, in_right, position, plug, paint, l_rotate,
  r_rotate,
}
use my_resource.Ds.Rbtree.Entries.{to_list, to_list-paint, plug-cong}
use my_resource.Ds.Rbtree.Delete.{
  Side, Spot, spot, Next, stop, again, left_of, right_of, lifted, bends, both_black, paint_pair,
  straighten_left, fix_left, fix_right, fix_child, fix_step, delete_loop, nodes, delete_rounds,
  delete_fixup,
}
use my_resource.Ds.Rbtree.Delete.Turned.{
  l_rotate-then, r_rotate-then, Leads, around, Leads-paint, Leads-paint_pair, to_list-paint_pair,
  IsLifted, rotated, painted, painted_left, rotated_left, rotated_right,
}

-- What a round keeps: the entries, and the node that the way leads to.
pub record Keeps (s s' : Spot) : Type 0 where
  pub same : around s' ≡ around s
  pub leads : (d : DataNode) → Leads s.way s.self d → Leads s'.way s'.self d

abbrev Kept : Spot → Next → Type 0
Kept s (stop s') = Keeps s s'
Kept s (again s') = Keeps s s' × delete_rounds s'.path < delete_rounds s.path

straighten_left-IsLifted :
    (p : List Frame) (c : Color) (l : Tree) (d : DataNode) (r : Tree)
    → Holds (IsLifted (node c l d r)) (straighten_left p (node c l d r))
unfolding straighten_left IsLifted
straighten_left-IsLifted p c l d r =
    Holds-if (IsLifted (node c l d r)) (bends r) _ _ (turned l) refl
  where
    turned :
        (l' : Tree)
        → Holds
            (IsLifted (node c l' d r))
            (r_rotate (position p red (paint black l') d r) >>= λ n. lifted n)
    turned leaf = unfold r_rotate in tt
    turned (node x a e b) =
        r_rotate-then (IsLifted (node c (node x a e b) d r)) lifted p red black a e b d r
          (unfold plug in sym (rotated x c black red a e b d r))

fix_left-Kept :
    (c : Color) (d : DataNode) (r : Tree) (p : List Frame) (t : Tree) (w : List Side)
    → Holds (Kept (spot (in_left c d r ∷ p) t w)) (fix_left c d r p (spot (in_left c d r ∷ p) t w))
unfolding fix_left delete_rounds nodes plug IsLifted
fix_left-Kept c d leaf p t w = tt
fix_left-Kept c d (node red bl e br) p t w =
    l_rotate-then (Kept (spot (in_left c d (node red bl e br) ∷ p) t w)) _ p red t d black bl e br (
      record {
        same =
            plug-cong p (node black (node red t d bl) e br) (node c t d (node red bl e br))
              (rotated red black c red t d bl e br);
        leads = λ x h. h;
      },
      omega arith,
    )
fix_left-Kept c d (node black bl e br) p t w =
    Holds-if (Kept (spot (in_left c d (node black bl e br) ∷ p) t w)) (both_black bl br) _ _
      (
        record {
          same =
              plug-cong p (node c t d (node red bl e br)) (node c t d (node black bl e br))
                (unfold to_list in refl);
          leads = λ x h. h;
        },
        omega arith,
      )
      (Holds->>= _ _ (straighten_left (in_right c t d ∷ p) (node black bl e br)) _
        (straighten_left-IsLifted (in_right c t d ∷ p) black bl e br) ending)
  where
    ending :
        (brother : Tree)
        → IsLifted (node black bl e br) brother
        → Holds (Kept (spot (in_left c d (node black bl e br) ∷ p) t w)) (
            l_rotate (position p black t d (paint_pair c brother)) >>= λ n. ok (stop (left_of n w)))
    ending leaf h = absurd h
    ending (node x a g b) h =
        l_rotate-then (Kept (spot (in_left c d (node black bl e br) ∷ p) t w)) _ p black t d c a g
          (paint black b)
          (record {
            same =
                plug-cong p (node c (node black t d a) g (paint black b))
                  (node c t d (node black bl e br))
                  (rotated_left c c t d x a g b (node black bl e br) h);
            leads = λ x h. h;
          })

fix_right-Kept :
    (c : Color) (l : Tree) (d : DataNode) (p : List Frame) (t : Tree) (w : List Side)
    → Holds
        (Kept (spot (in_right c l d ∷ p) t w))
        (fix_right c l d p (spot (in_right c l d ∷ p) t w))
unfolding fix_right delete_rounds nodes plug
fix_right-Kept c leaf d p t w = tt
fix_right-Kept c (node red bl e br) d p t w =
    r_rotate-then (Kept (spot (in_right c (node red bl e br) d ∷ p) t w)) _ p red black bl e br d t
      (
        record {
          same =
              plug-cong p (node black bl e (node red br d t)) (node c (node red bl e br) d t)
                (rotated_right black red c red bl e br (node red bl e br) d t t refl refl);
          leads = λ x h. h;
        },
        omega arith,
      )
fix_right-Kept c (node black bl e br) d p t w =
    Holds-if (Kept s) (both_black bl br) _ _ (record { same = refl; leads = λ x h. h }, omega arith)
      (Holds-if (Kept s) (bends br) _ _ (bent br) (
        r_rotate-then (Kept s) _ p black c bl e (paint black br) d t (record {
          same =
              plug-cong p (node c bl e (node black (paint black br) d t))
                (node c (node black bl e br) d t)
                (rotated_right c black c black bl e (paint black br) (node black bl e br) d t t
                  (painted black black bl e br) refl);
          leads = λ x h. h;
        })))
  where
    s : Spot
    s = spot (in_right c (node black bl e br) d ∷ p) t w

    bent :
        (br' : Tree)
        → Holds (Kept (spot (in_right c (node black bl e br') d ∷ p) t w)) (
            l_rotate (position (in_left c d t ∷ p) red (paint black bl) e br') >>= λ n.
            lifted n >>= λ brother. r_rotate (position p black brother d (paint_pair c t)) >>= λ m.
            ok (stop (right_of m w)))
    bent leaf = unfold l_rotate in tt
    bent (node x a g b) =
        l_rotate-then (Kept (spot (in_right c (node black bl e (node x a g b)) d ∷ p) t w)) _
          (in_left c d t ∷ p) red (paint black bl) e x a g b
          (r_rotate-then (Kept (spot (in_right c (node black bl e (node x a g b)) d ∷ p) t w)) _ p
            black x (node red (paint black bl) e a) g b d (paint_pair c t)
            (record {
              same =
                  plug-cong p
                    (node x (node red (paint black bl) e a) g (node black b d (paint_pair c t)))
                    (node c (node black bl e (node x a g b)) d t)
                    (rotated_right x black c x (node red (paint black bl) e a) g b
                      (node black bl e (node x a g b)) d t (paint_pair c t)
                      (painted_left x red bl e a g b) (to_list-paint_pair c t));
              leads = λ y h. Leads-paint_pair w c t y h;
            }))

fix_step-Kept :
    (p : List Frame) (t : Tree) (w : List Side)
    → Holds (Kept (spot p t w)) (fix_step p t (spot p t w))
unfolding fix_step fix_child
fix_step-Kept [] t w = record { same = refl; leads = λ d h. h }
fix_step-Kept (f ∷ p) leaf w = record { same = refl; leads = λ d h. h }
fix_step-Kept (f ∷ p) (node red l d r) w = record { same = refl; leads = λ x h. h }
fix_step-Kept (in_left c e b ∷ p) (node black l d r) w = fix_left-Kept c e b p (node black l d r) w
fix_step-Kept (in_right c leaf e ∷ p) (node black l d r) w = tt
fix_step-Kept (in_right c (node x bl g br) e ∷ p) (node black l d r) w =
    Holds-if (Kept (spot (in_right c (node x bl g br) e ∷ p) (node black l d r) w)) (g.key == d.key)
      _ _ tt (fix_right-Kept c (node x bl g br) e p (node black l d r) w)

pub delete_rounds-pos : (p : List Frame) → 0 < delete_rounds p
unfolding delete_rounds
delete_rounds-pos [] = omega arith
delete_rounds-pos (in_left c d r ∷ p) = omega arith
delete_rounds-pos (in_right c l d ∷ p) = omega arith

Keeps-then : (s s' s'' : Spot) → Keeps s s' → Keeps s' s'' → Keeps s s''
Keeps-then s s' s'' h k = record { same = k.same ∙ h.same; leads = λ d l. k.leads d (h.leads d l) }

after_step :
    (fuel : ℕ) (s : Spot) (n : Next)
    → delete_rounds s.path ≤ suc fuel
    → Kept s n
    → ((s' : Spot) → delete_rounds s'.path ≤ fuel → Holds (Keeps s') (delete_loop fuel s'))
    → Holds (Keeps s) (elim n [ stop s' ↦ ok s' | again s' ↦ delete_loop fuel s' ])
after_step fuel s (stop s') h k go = k
after_step fuel s (again s') h k go =
    Holds-mono (Keeps s') (Keeps s) (delete_loop fuel s') (go s' (omega (arith, k.1)))
      λ r g. Keeps-then s s' r k.0 g

delete_loop-Keeps :
    (fuel : ℕ) (s : Spot) → delete_rounds s.path ≤ fuel → Holds (Keeps s) (delete_loop fuel s)
unfolding delete_loop
delete_loop-Keeps zero s h = absurd (omega (arith, delete_rounds-pos s.path))
delete_loop-Keeps (suc fuel) s h =
    Holds->>= (Kept s) (Keeps s) (fix_step s.path s.self s) _ (fix_step-Kept s.path s.self s.way)
      λ n k. after_step fuel s n h k λ s' l. delete_loop-Keeps fuel s' l

paint-Keeps : (c : Color) (s : Spot) → Keeps s (record s { self = paint c s.self })
paint-Keeps c s = record {
  same = plug-cong s.path (paint c s.self) s.self (to_list-paint c s.self);
  leads = λ d h. Leads-paint s.way c s.self d h;
}

-- The fix up of a deletion ends within its rounds, at every tree.
pub delete_fixup-Keeps : (s : Spot) → Holds (Keeps s) (delete_fixup s)
unfolding delete_fixup
delete_fixup-Keeps s =
    Holds->>= (Keeps s) (Keeps s) (delete_loop (delete_rounds s.path) s) _
      (delete_loop-Keeps (delete_rounds s.path) s (omega arith))
      λ s' h. Keeps-then s s' _ h (paint-Keeps black s')
