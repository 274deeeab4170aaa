-- ===== src/Ds/Stree/Walks.antt =====
-- The three walks of stree.c and the order in which it frees the nodes.
use my_resource.Base.{
  ◌+◌, ◌≡◌, refl, sym, List, [], ◌∷◌, ◌++◌, append_assoc, arith, length, length-append,
}
use mathlib.Core.List.{Perm, perm_middle, perm_append_singleton, append-nil}
use mathlib.Core.List.Perm
use my_resource.Ds.Entry.{DataNode}
use my_resource.Ds.Stree.{Tree, leaf, node, Walk, visit, dlr, ldr, lrd, destroy}
use my_resource.Ds.Stree.Paths.{to_list}

preorder : Tree → List DataNode
preorder leaf = []
preorder (node l d r) = d ∷ (preorder l ++ preorder r)

postorder : Tree → List DataNode
postorder leaf = []
postorder (node l d r) = postorder l ++ (postorder r ++ d ∷ [])

-- A walk that has also visited these nodes.
unfoldable pub walked : Walk → List DataNode → Walk
walked w xs = record { num = w.num + length xs; printed = w.printed ++ xs }

walked-walked : (w : Walk) (xs ys : List DataNode) → walked (walked w xs) ys ≡ walked w (xs ++ ys)
unfolding walked
walked-walked w xs ys = λ i. record {
  num =
      (let e : (w.num + length xs) + length ys ≡ w.num + length (xs ++ ys) =
            omega (arith, length-append xs ys) in
          e)
        i;
  printed = append_assoc w.printed xs ys i;
}

visit-walked : (w : Walk) (d : DataNode) → visit d w ≡ walked w (d ∷ [])
unfolding visit walked
visit-walked w d = refl

walked_nil : (w : Walk) → w ≡ walked w []
unfolding walked
walked_nil w = λ i. record {
  num = (let e : w.num ≡ w.num + 0 = omega arith in e) i;
  printed = sym (append-nil w.printed) i;
}

dlr-walked : (t : Tree) (w : Walk) → dlr t w ≡ walked w (preorder t)
unfolding dlr preorder
dlr-walked leaf w = walked_nil w
dlr-walked (node l d r) w = simp (dlr-walked l, dlr-walked r, visit-walked, walked-walked)

-- The in-order walk prints the entries in the order of the keys and adds their number to `num`.
pub ldr-to_list : (t : Tree) (w : Walk) → ldr t w ≡ walked w (to_list t)
unfolding ldr to_list
ldr-to_list leaf w = walked_nil w
ldr-to_list (node l d r) w =
    simp (ldr-to_list l, ldr-to_list r, visit-walked, walked-walked, append_assoc)

lrd-walked : (t : Tree) (w : Walk) → lrd t w ≡ walked w (postorder t)
unfolding lrd postorder
lrd-walked leaf w = walked_nil w
lrd-walked (node l d r) w =
    simp (lrd-walked l, lrd-walked r, visit-walked, walked-walked, append_assoc)

destroy-postorder : (t : Tree) → destroy t ≡ postorder t
unfolding destroy postorder
destroy-postorder leaf = refl
destroy-postorder (node l d r) = rw (destroy-postorder l, destroy-postorder r, append_assoc)

preorder-perm : (t : Tree) → Perm (preorder t) (to_list t)
unfolding preorder to_list
preorder-perm leaf = Perm.refl []
preorder-perm (node l d r) =
    Perm.trans (Perm.cons d (Perm.append (preorder-perm l) (preorder-perm r)))
      (Perm.symm (perm_middle (to_list l) (to_list r)))

postorder-perm : (t : Tree) → Perm (postorder t) (to_list t)
unfolding postorder to_list
postorder-perm leaf = Perm.refl []
postorder-perm (node l d r) =
    Perm.append (postorder-perm l)
      (Perm.trans (perm_append_singleton d (postorder r)) (Perm.cons d (postorder-perm r)))

abbrev pub no_walk : Walk
no_walk = record { num = 0; printed = [] }

-- The pre-order and the post-order walk visit each node exactly once and count them, and
-- `stree_destory` frees each node exactly once.
pub walks-perm :
    (t : Tree)
    → Perm (dlr t no_walk).printed (to_list t)
      × Perm (lrd t no_walk).printed (to_list t)
      × Perm (destroy t) (to_list t)
      × ((dlr t no_walk).num ≡ length (dlr t no_walk).printed)
      × ((lrd t no_walk).num ≡ length (lrd t no_walk).printed)
unfolding walked
walks-perm t = (
  rw (dlr-walked t no_walk) (preorder-perm t),
  rw (lrd-walked t no_walk) (postorder-perm t),
  rw (destroy-postorder t) (postorder-perm t),
  rw (dlr-walked t no_walk) (omega arith),
  rw (lrd-walked t no_walk) (omega arith),
)
