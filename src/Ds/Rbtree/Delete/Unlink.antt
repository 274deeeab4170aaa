-- ===== src/Ds/Rbtree/Delete/Unlink.antt =====
-- What the cases of `rbtree_delete` leave of the entries of a tree.
use my_resource.Base.{◌≡◌, refl, sym, ap, ◌∙◌, List, [], ◌∷◌, ◌++◌, append_assoc}
use mathlib.Core.List.{append-nil}
use my_resource.Base.Fault.{Holds, Holds->>=, Holds-mono}
use my_resource.Ds.Entry.{DataNode}
use my_resource.Ds.Rbtree.{Color, red, black, Tree, leaf, node, Frame, in_left, in_right, plug}
use my_resource.Ds.Rbtree.Entries.{to_list, before, to_list-plug}
use my_resource.Ds.Rbtree.Delete.{
  Side, left, right, spot, delete_fixup, cut, fix_bench, leftmost, remove,
}
use my_resource.Ds.Rbtree.Delete.Rounds.{delete_fixup-Keeps}
use my_resource.Ds.Rbtree.Delete.Turned.{Leads}

-- A list with one place less.
pub record Without (d : DataNode) (xs ys : List DataNode) : Type 0 where
  pub front : List DataNode
  pub back : List DataNode
  pub whole_list : xs ≡ front ++ d ∷ back
  pub rest : ys ≡ front ++ back

-- Taking the node out that the way leads to takes its entry out.
cut-Without :
    (w : List Side) (t : Tree) (d : DataNode)
    → Leads w t d
    → Without d (to_list t) (to_list (cut w t))
unfolding cut to_list
cut-Without w leaf d h = absurd h
cut-Without [] (node c leaf e leaf) d h = record {
  front = [];
  back = [];
  whole_list = ap (λ x. x ∷ []) h;
  rest = refl;
}
cut-Without [] (node c leaf e (node _ _ _ _)) d h = absurd h
cut-Without [] (node c (node _ _ _ _) e r) d h = absurd h
cut-Without (left ∷ w) (node c l e r) d h =
    let i = cut-Without w l d h in
    record {
      front = i.front;
      back = i.back ++ e ∷ to_list r;
      whole_list =
          ap (λ m. m ++ e ∷ to_list r) i.whole_list
          ∙ append_assoc i.front (d ∷ i.back) (e ∷ to_list r);
      rest = ap (λ m. m ++ e ∷ to_list r) i.rest ∙ append_assoc i.front i.back (e ∷ to_list r);
    }
cut-Without (right ∷ w) (node c l e r) d h =
    let i = cut-Without w r d h in
    record {
      front = to_list l ++ e ∷ i.front;
      back = i.back;
      whole_list =
          ap (λ m. to_list l ++ e ∷ m) i.whole_list
          ∙ sym (append_assoc (to_list l) (e ∷ i.front) (d ∷ i.back));
      rest =
          ap (λ m. to_list l ++ e ∷ m) i.rest ∙ sym (append_assoc (to_list l) (e ∷ i.front) i.back);
    }

-- So it does in the tree around.
plug-Without :
    (p : List Frame) (t u : Tree) (d : DataNode)
    → Without d (to_list t) (to_list u)
    → Without d (to_list (plug p t)) (to_list (plug p u))
unfolding plug to_list
plug-Without [] t u d h = h
plug-Without (in_left c e r ∷ p) t u d h = plug-Without p (node c t e r) (node c u e r) d (record {
  front = h.front;
  back = h.back ++ e ∷ to_list r;
  whole_list =
      ap (λ m. m ++ e ∷ to_list r) h.whole_list ∙ append_assoc h.front (d ∷ h.back) (e ∷ to_list r);
  rest = ap (λ m. m ++ e ∷ to_list r) h.rest ∙ append_assoc h.front h.back (e ∷ to_list r);
})
plug-Without (in_right c l e ∷ p) t u d h = plug-Without p (node c l e t) (node c l e u) d (record {
  front = to_list l ++ e ∷ h.front;
  back = h.back;
  whole_list =
      ap (λ m. to_list l ++ e ∷ m) h.whole_list
      ∙ sym (append_assoc (to_list l) (e ∷ h.front) (d ∷ h.back));
  rest = ap (λ m. to_list l ++ e ∷ m) h.rest ∙ sym (append_assoc (to_list l) (e ∷ h.front) h.back);
})

unfoldable pub Removes : List Frame → Tree → DataNode → Tree → Type 0
Removes p t d u = Without d (to_list (plug p t)) (to_list u)

fix_bench-same :
    (c : Color) (p : List Frame) (bench : Tree)
    → Holds (λ u. to_list u ≡ to_list (plug p bench)) (fix_bench c p bench)
unfolding fix_bench
fix_bench-same red p bench = refl
fix_bench-same black p bench =
    Holds->>= _ _ (delete_fixup (spot p bench [])) _ (delete_fixup-Keeps (spot p bench []))
      λ s h. h.same

-- If the bench in its place has the entries but one, so has the tree after the fix up.
fix_bench-Removes :
    (c : Color) (p q : List Frame) (t bench : Tree) (d : DataNode)
    → Without d (to_list (plug p t)) (to_list (plug q bench))
    → Holds (Removes p t d) (fix_bench c q bench)
unfolding Removes
fix_bench-Removes c p q t bench d h =
    Holds-mono _ _ (fix_bench c q bench) (fix_bench-same c q bench)
      λ u e. record { front = h.front; back = h.back; whole_list = h.whole_list; rest = e ∙ h.rest }

pub Without-from :
    (d : DataNode) (xs xs' ys : List DataNode) → xs' ≡ xs → Without d xs ys → Without d xs' ys
Without-from d xs xs' ys e h = record {
  front = h.front;
  back = h.back;
  whole_list = e ∙ h.whole_list;
  rest = h.rest;
}

plug-append : (q p : List Frame) (t : Tree) → plug (q ++ p) t ≡ plug p (plug q t)
unfolding plug
plug-append [] p t = refl
plug-append (in_left c d r ∷ q) p t = plug-append q p (node c t d r)
plug-append (in_right c l d ∷ q) p t = plug-append q p (node c l d t)

-- Along left links, the node at the end is the first of all, and its right child takes its place.
leftmost-to_list :
    (p : List Frame) (c : Color) (l : Tree) (d : DataNode) (r : Tree)
    → before p ≡ []
    → to_list (plug p (node c l d r))
      ≡ (leftmost p c l d r).entry
        ∷ to_list (plug (leftmost p c l d r).path (leftmost p c l d r).right)
unfolding leftmost plug before
leftmost-to_list p c leaf d r e =
    rw (to_list-plug p (node c leaf d r), to_list-plug p r, e) (unfold to_list in refl)
leftmost-to_list p c (node x l e m) d r h = leftmost-to_list (in_left c d r ∷ p) x l e m h

pub remove-Removes :
    (p : List Frame) (c : Color) (l : Tree) (d : DataNode) (r : Tree)
    → Holds (Removes p (node c l d r) d) (remove p c l d r)
unfolding remove
remove-Removes p c leaf d leaf =
    let s = spot p (node c leaf d leaf) [] in
    Holds->>= _ _ (delete_fixup s) _ (delete_fixup-Keeps s) λ s' h.
      unfold Removes in
      Without-from d _ _ _ (sym h.same) (
        plug-Without s'.path s'.self (cut s'.way s'.self) d
          (cut-Without s'.way s'.self d (h.leads d refl)))
remove-Removes p c leaf d (node x l e r) = fix_bench-Removes c p p _ (node x l e r) d (
    plug-Without p (node c leaf d (node x l e r)) (node x l e r) d (
      unfold to_list in
      record { front = []; back = to_list (node x l e r); whole_list = refl; rest = refl }))
remove-Removes p c (node x l e r) d leaf = fix_bench-Removes c p p _ (node x l e r) d (
    plug-Without p (node c (node x l e r) d leaf) (node x l e r) d (
      unfold to_list in
      record {
        front = to_list (node x l e r);
        back = [];
        whole_list = refl;
        rest = sym (append-nil (to_list (node x l e r)));
      }))
remove-Removes p c (node x l e r) d (node y leaf g m) =
    fix_bench-Removes c p p _ (node y (node x l e r) g m) d (
      plug-Without p (node c (node x l e r) d (node y leaf g m)) (node y (node x l e r) g m) d (
        unfold to_list in
        record {
          front = to_list (node x l e r);
          back = g ∷ to_list m;
          whole_list = refl;
          rest = refl;
        }))
remove-Removes p c (node x l e r) d (node y (node z a h b) g m) =
    let lower = node x l e r in
    let s = leftmost (in_left y g m ∷ []) z a h b in
    let upper = plug s.path s.right in
    let up : to_list (node y (node z a h b) g m) ≡ s.entry ∷ to_list upper =
      unfold plug before in leftmost-to_list (in_left y g m ∷ []) z a h b refl in
    fix_bench-Removes s.color p (s.path ++ in_right c lower s.entry ∷ p) _ s.right d (
      rw (plug-append s.path (in_right c lower s.entry ∷ p) s.right) (
        unfold plug in
        plug-Without p (node c lower d (node y (node z a h b) g m)) (node c lower s.entry upper) d (
          unfold to_list in
          record {
            front = to_list lower;
            back = to_list (node y (node z a h b) g m);
            whole_list = refl;
            rest = ap (λ k. to_list lower ++ k) (sym up);
          })))
