-- ===== src/Public/RList/Move.antt =====
-- What the calls that take a node out of a circular list, or put it elsewhere, make of the list.
use my_resource.Base.{ℕ, ◌≡◌, refl, sym, true, false, List, [], ◌∷◌, ◌++◌, arith}
use mathlib.Core.List.{append-nil}
use my_resource.Base.Fault.{Gives}
use my_resource.Public.RList.{update, Store, remove, replace, replace_del, move_head, move_tail}
use my_resource.Public.RList.Chain.{Fresh, Live-update, Fresh-split, Fresh-append, update_same}
use my_resource.Public.RList.Writes.{
  next_of-live, prev_of-live, del-linked_out, remove-linked_out, replace-swapped,
}
use my_resource.Public.RList.Rings.{
  Ring, linked_out, swapped, Ring-linked_out, Ring-rotate, Ring-swapped,
}
use my_resource.Public.RList.Aside.{Ring-alone_out}
use my_resource.Public.RList.Insert.{add-front, add-back, Ring-next, Ring-prev}

-- What is left of a ring without one of its nodes.
module _ (s : Store) (h a : ℕ) (xs ys : List ℕ) (r : Ring s h (xs ++ a ∷ ys)) where
  Ring-without : (zs : List ℕ) → Ring s a (zs ++ h ∷ xs) → Ring (linked_out a s) h (xs ++ zs)
  Ring-without [] t = rw (append-nil xs) (Ring-linked_out s a h xs t)
  Ring-without (z ∷ zs) t =
      Ring-rotate (linked_out a s) z h zs xs (Ring-linked_out s a z (zs ++ h ∷ xs) t)

  seen : Ring s a (ys ++ h ∷ xs)
  seen = Ring-rotate s h a xs ys r

  left_over : Ring (linked_out a s) h (xs ++ ys)
  left_over = Ring-without ys seen

  away : Fresh a (h ∷ xs ++ ys)
  away =
      let f = Fresh-split a ys (h ∷ xs) (seen.distinct.0) in (f.1.0, Fresh-append a xs ys f.1.1 f.0)

  here : s.live a ≡ true
  here = seen.live.0

  prev_live : s.live (s.prev a) ≡ true
  prev_live = (Ring-prev s a (ys ++ h ∷ xs) seen).0

  next_live : s.live (s.next a) ≡ true
  next_live = (Ring-next s a (ys ++ h ∷ xs) seen).0

  remove-Ring :
      Gives (λ t. Ring t h (xs ++ ys) × (t.live a ≡ false) × (t.content ≡ s.content)) (remove a s)
  remove-Ring =
      let left = left_over in
      rw (remove-linked_out a s here prev_live next_live) (
        record {
          live = Live-update s.live a false (h ∷ xs ++ ys) away left.live;
          distinct = left.distinct;
          chain = left.chain;
          closed = left.closed;
          back = left.back;
        },
        update_same s.live a false,
        refl,
      )

  move_head-Ring : Gives (λ t. Ring t h (a ∷ xs ++ ys) × (t.content ≡ s.content)) (move_head a h s)
  unfolding move_head
  move_head-Ring =
      rw
        (
          prev_of-live a s here,
          next_of-live a s here,
          del-linked_out a s prev_live next_live,
          next_of-live h (linked_out a s) left_over.live.0,
        )
        (add-front (linked_out a s) h a (xs ++ ys) left_over here away)

  move_tail-Ring :
      Gives (λ t. Ring t h ((xs ++ ys) ++ a ∷ []) × (t.content ≡ s.content)) (move_tail a h s)
  unfolding move_tail
  move_tail-Ring =
      rw
        (
          prev_of-live a s here,
          next_of-live a s here,
          del-linked_out a s prev_live next_live,
          prev_of-live h (linked_out a s) left_over.live.0,
        )
        (add-back (linked_out a s) h a (xs ++ ys) left_over here away)

  -- On a circular list with a node among its nodes, RList_del takes the node out and frees it, and
  -- Rlist_move_head and Rlist_move_tail put it in front of the other nodes, so behind the head, or
  -- behind them, so in front of the head, the other way round than their comments say; the other nodes
  -- stay in their order, the data stays, and no call goes through a pointer to no node.
  pub move-Ring :
      Gives (λ t. Ring t h (xs ++ ys) × (t.live a ≡ false) × (t.content ≡ s.content)) (remove a s)
      × Gives (λ t. Ring t h (a ∷ xs ++ ys) × (t.content ≡ s.content)) (move_head a h s)
      × Gives (λ t. Ring t h ((xs ++ ys) ++ a ∷ []) × (t.content ≡ s.content)) (move_tail a h s)
  move-Ring = (remove-Ring, move_head-Ring, move_tail-Ring)

-- `old` is left in a ring of its own, or freed.
module _ (s : Store) (old new : ℕ) (xs : List ℕ) (r : Ring s old xs) (l : s.live new ≡ true)
    (f : Fresh new (old ∷ xs)) where
  live_before : s.live (update s.prev (s.next old) new old) ≡ true
  live_before = ground (arith, l, (Ring-prev s old xs r).0)

  replace-Ring :
      Gives (λ t. Ring t new xs × Ring t old [] × (t.content ≡ s.content)) (replace old new s)
  replace-Ring =
      let (one, other) = Ring-swapped s old new xs r l f in
      rw (replace-swapped old new s r.live.0 l (Ring-next s old xs r).0 live_before)
        (one, other, refl)

  replace_del-Ring :
      Gives
        (λ t. Ring t new xs × (t.live old ≡ false) × (t.content ≡ s.content))
        (replace_del old new s)
  unfolding replace_del
  replace_del-Ring =
      let (one, other) = Ring-swapped s old new xs r l f in
      let t = swapped old new s in
      rw
        (
          replace-swapped old new s r.live.0 l (Ring-next s old xs r).0 live_before,
          remove-linked_out old t other.live.0 (Ring-prev t old [] other).0
              (Ring-next t old [] other).0,
        )
        (
          Ring-alone_out t new old xs one other (((λ e. f.0 (sym e)), r.distinct.0)),
          update_same s.live old false,
          refl,
        )

  -- Rlist_replace puts a node that is in no list in the place of a node of a circular list, and
  -- leaves the old one as a list of its own; Rlist_replace_del frees it instead.
  pub exchange-Ring :
      Gives (λ t. Ring t new xs × Ring t old [] × (t.content ≡ s.content)) (replace old new s)
      × Gives
          (λ t. Ring t new xs × (t.live old ≡ false) × (t.content ≡ s.content))
          (replace_del old new s)
  exchange-Ring = (replace-Ring, replace_del-Ring)
