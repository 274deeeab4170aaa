-- ===== src/Ds/Rbtree/Delete/Total.antt =====
-- A deletion that takes no black node out returns.
use my_resource.Base.{ℕ, zero, suc, ◌<◌, ◌≡◌, refl, sym, true, some, List, [], ◌∷◌, ◌++◌, arith}
use mathlib.Core.Path.{subst}
use my_resource.Base.Fault.{ok, Holds, Gives}
use my_resource.Ds.Entry.{DataNode}
use my_resource.Ds.SortedMap.{
  IsSorted, split, IsSorted-back, IsSorted-front, Above-back, Below-back,
}
use my_resource.Ds.Rbtree.{
  Color, red, black, Tree, leaf, node, rooted, Frame, in_left, in_right, Position, plug, linked,
  search_from, search_node,
}
use my_resource.Ds.Rbtree.Entries.{to_list, before, after, to_list-plug}
use my_resource.Ds.Rbtree.Delete.{
  Side, spot, delete_loop, delete_rounds, delete_fixup, fix_step, fix_bench, cut, leftmost, remove,
  removed, delete,
}
use my_resource.Ds.Rbtree.Delete.Rounds.{delete_rounds-pos}
use my_resource.Ds.Rbtree.Delete.Refine.{Erased, rb_delete-refines, reached-some}

-- The color that a deletion of the node takes out of the tree: that of the node, or of its successor.
unfoldable pub taken : Color → Tree → Tree → Color
taken c leaf r = c
taken c (node x l e m) leaf = c
taken c (node x l e m) (node y leaf g n) = c
taken c (node x l e m) (node y (node z a h b) g n) = (leftmost (in_left y g n ∷ []) z a h b).color

red_stops :
    (fuel : ℕ) (p : List Frame) (l : Tree) (d : DataNode) (r : Tree) (w : List Side)
    → 0 < fuel
    → delete_loop fuel (spot p (node red l d r) w) ≡ ok (spot p (node red l d r) w)
unfolding delete_loop fix_step
red_stops zero p l d r w h = absurd (omega arith)
red_stops (suc fuel) [] l d r w h = refl
red_stops (suc fuel) (f ∷ p) l d r w h = refl

fix_bench-red :
    (c : Color) (p : List Frame) (bench : Tree) → c ≡ red → fix_bench c p bench ≡ ok (plug p bench)
unfolding fix_bench
fix_bench-red red p bench e = refl
fix_bench-red black p bench e = cc

remove-red :
    (p : List Frame) (c : Color) (l : Tree) (d : DataNode) (r : Tree)
    → taken c l r ≡ red
    → (t : Tree) × (remove p c l d r ≡ ok t)
unfolding remove taken delete_fixup cut
remove-red p black leaf d leaf e = cc
remove-red p red leaf d leaf e =
    (plug p leaf, rw (red_stops (delete_rounds p) p leaf d leaf [] (delete_rounds-pos p)) refl)
remove-red p c leaf d (node x l g r) e = (_, fix_bench-red c p (node x l g r) e)
remove-red p c (node x l g r) d leaf e = (_, fix_bench-red c p (node x l g r) e)
remove-red p c (node x l g r) d (node y leaf h m) e =
    (_, fix_bench-red c p (node y (node x l g r) h m) e)
remove-red p c (node x l g r) d (node y (node z a h b) i m) e =
    let s = leftmost (in_left y i m ∷ []) z a h b in
    (_, fix_bench-red s.color (s.path ++ in_right c (node x l g r) s.entry ∷ p) s.right e)

-- The entries below a node are in order with it.
middle-IsSorted : (p : List Frame) (t : Tree) → IsSorted (to_list (plug p t)) → IsSorted (to_list t)
middle-IsSorted p t s =
    IsSorted-front (to_list t) (after p)
      (IsSorted-back (before p) (to_list t ++ after p) (rw (to_list-plug p t) at s))

-- In a tree whose keys are in order, RB_PARENT_LR leads to the link to the node.
linked-IsSorted :
    (p : List Frame) (c : Color) (l : Tree) (d : DataNode) (r : Tree)
    → IsSorted (to_list (plug p (node c l d r)))
    → linked p d.key ≡ true
unfolding linked plug to_list
linked-IsSorted [] c l d r s = refl
linked-IsSorted (in_left x e m ∷ p) c l d r s =
    let own = middle-IsSorted p (node x (node c l d r) e m) s in
    let low = (split (to_list (node c l d r)) e (to_list m) own).below in
    let (h, _) = Below-back e.key (to_list l) (d ∷ to_list r) low in ground arith
linked-IsSorted (in_right x m e ∷ p) c l d r s =
    let own = middle-IsSorted p (node x m e (node c l d r)) s in
    let high = (split (to_list m) e (to_list (node c l d r)) own).above in
    let (h, _) = Above-back e.key (to_list l) (d ∷ to_list r) high in ground arith

-- On a tree whose keys are in order, if the key is there and the color taken out with it is red,
-- rbtree_delete does not go through a NULL link: it ends, takes the entry out and no other, and leaves
-- the keys in order.
pub rb_delete_red-Erased :
    (t : Tree) (k : ℕ) (n : Position)
    → IsSorted (to_list t)
    → search_node (rooted t) k ≡ some n
    → taken n.color n.left n.right ≡ red
    → Gives (Erased (rooted t) k) (delete (rooted t) k)
unfolding delete search_node
rb_delete_red-Erased t k n s e c =
    let at = reached-some t k n e in
    let link =
      linked-IsSorted n.path n.color n.left n.entry n.right (subst IsSorted (sym at.0) s) in
    let (u, out) = remove-red n.path n.color n.left n.entry n.right c in
    let found : search_from [] t k ≡ some n = e in
    let run : delete (rooted t) k ≡ ok (removed (rooted u)) =
      rw (delete, search_node, found, link, out) refl in
    subst (Gives (Erased (rooted t) k)) (sym run)
      (subst (Holds (Erased (rooted t) k)) run (rb_delete-refines (rooted t) k s))
