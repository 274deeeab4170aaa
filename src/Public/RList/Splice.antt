-- ===== src/Public/RList/Splice.antt =====
-- Two circular lists put together, and the tests of one.
use my_resource.Base.{ℕ, ◌≡◌, refl, Bool, true, false, List, [], ◌∷◌, ◌++◌, arith}
use mathlib.Core.List.{append-nil}
use my_resource.Base.Fault.{ok, Gives}
use my_resource.Public.RList.{
  update, Store, is_empty, is_last, splice, splice_head, splice_tail, init_list_head,
}
use my_resource.Public.RList.Chain.{
  Fresh, Live-last, last, Apart, Apart-cons, Fresh-append, Fresh-split, update_same,
}
use my_resource.Public.RList.Rings.{Ring, linked_in, Ring-linked_in, Ring-rotate}
use my_resource.Public.RList.Back.{Ring-linked_in_back}
use my_resource.Public.RList.Aside.{Ring-relinked}
use my_resource.Public.RList.Writes.{
  next_of-live, prev_of-live, set_next-live, set_prev-live, init_list_head-live,
}
use my_resource.Public.RList.Insert.{Ring-next, Ring-prev}

abbrev pub no_nodes : List ℕ → Bool
no_nodes [] = true
no_nodes (x ∷ xs) = false

-- Rlist_empty of the head of a list says whether the list has no node but the head.
is_empty-Ring : (s : Store) (h : ℕ) (xs : List ℕ) → Ring s h xs → is_empty h s ≡ ok (no_nodes xs)
unfolding is_empty
is_empty-Ring s h [] r =
    let closed = r.closed in
    let back = r.back in
    rw (next_of-live h s r.live.0, prev_of-live h s r.live.0, closed, back) (ground arith)
is_empty-Ring s h (x ∷ xs) r =
    let hx = r.distinct.0.0 in
    rw (next_of-live h s r.live.0, prev_of-live h s r.live.0, r.chain.0) (ground arith)

splice-linked_in :
    (s : Store) (a x before behind : ℕ) (xs : List ℕ)
    → Ring s a (x ∷ xs)
    → s.live before ≡ true
    → s.live behind ≡ true
    → splice a before behind s ≡ ok (linked_in x (last x xs) before behind s)
unfolding splice
splice-linked_in s a x before behind xs r l m =
    let end = last x xs in
    let e = Live-last s.live x xs r.live.1 in
    let s1 = record s { prev = update s.prev x before } in
    let s2 = record s1 { next = update s.next before x } in
    let s3 = record s2 { next = update s2.next end behind } in
    rw
      (
        next_of-live a s r.live.0,
        prev_of-live a s r.live.0,
        r.chain.0,
        r.back,
        set_prev-live x s r.live.1.0 before,
        set_next-live before s1 l x,
        set_next-live end s2 e behind,
        set_prev-live behind s3 m end,
      )
      refl

-- A head whose nodes went to another list.
emptied :
    (s : Store) (h a : ℕ) (zs : List ℕ)
    → Ring s h zs
    → Fresh a (h ∷ zs)
    → s.live a ≡ true
    → (t : Store) × (init_list_head a s ≡ ok t)
      × Ring t h zs
      × Ring t a []
      × (t.content ≡ s.content)
emptied s h a zs r f l = (
  record s { next = update s.next a a; prev = update s.prev a a },
  init_list_head-live a s l,
  Ring-relinked s h a zs r f a a,
  record {
    live = (l, tt);
    distinct = (tt, tt);
    chain = tt;
    closed = update_same s.next a a;
    back = update_same s.prev a a;
  },
  refl,
)

-- The nodes behind `h` are `zs` now, and those of `a` are gone.
abbrev pub Spliced : Store → ℕ → ℕ → List ℕ → Store → Type 0
Spliced s h a zs t = Ring t h zs × Ring t a [] × (t.content ≡ s.content)

-- Rlist_splice_head moves the nodes of the first list to the front of the second.
splice_head-Ring :
    (s : Store) (h a : ℕ) (xs ys : List ℕ)
    → Ring s a xs
    → Ring s h ys
    → Apart (h ∷ ys) (a ∷ xs)
    → Gives (Spliced s h a (xs ++ ys)) (splice_head a h s)
unfolding splice_head
splice_head-Ring s h a [] ys one other apart = rw (is_empty-Ring s a [] one) (other, one, refl)
splice_head-Ring s h a (x ∷ xs) ys one other apart =
    let (f, away) = Apart-cons a (h ∷ ys) (x ∷ xs) apart in
    let live = (Ring-next s h ys other).0 in
    let t = linked_in x (last x xs) h (s.next h) s in
    let ring = Ring-linked_in s h x xs ys other one.live.1 one.distinct.1 one.chain.2 away in
    let fresh : Fresh a (h ∷ x ∷ xs ++ ys) = (f.0, Fresh-append a (x ∷ xs) ys one.distinct.0 f.1) in
    let (u, e, full, empty, same) = emptied t h a (x ∷ xs ++ ys) ring fresh one.live.0 in
    rw
      (
        is_empty-Ring s a (x ∷ xs) one,
        next_of-live h s other.live.0,
        splice-linked_in s a x h (s.next h) xs one other.live.0 live,
        e,
      )
      (full, empty, same)

-- Rlist_splice_tail moves them to its end.
splice_tail-Ring :
    (s : Store) (h a : ℕ) (xs ys : List ℕ)
    → Ring s a xs
    → Ring s h ys
    → Apart (h ∷ ys) (a ∷ xs)
    → Gives (Spliced s h a (ys ++ xs)) (splice_tail a h s)
unfolding splice_tail
splice_tail-Ring s h a [] ys one other apart =
    rw (is_empty-Ring s a [] one, append-nil ys) (other, one, refl)
splice_tail-Ring s h a (x ∷ xs) ys one other apart =
    let (f, away) = Apart-cons a (h ∷ ys) (x ∷ xs) apart in
    let live = (Ring-prev s h ys other).0 in
    let t = linked_in x (last x xs) (s.prev h) h s in
    let ring = Ring-linked_in_back s h x xs ys other one.live.1 one.distinct.1 one.chain.2 away in
    let fresh : Fresh a (h ∷ ys ++ x ∷ xs) = (f.0, Fresh-append a ys (x ∷ xs) f.1 one.distinct.0) in
    let (u, e, full, empty, same) = emptied t h a (ys ++ x ∷ xs) ring fresh one.live.0 in
    rw
      (
        is_empty-Ring s a (x ∷ xs) one,
        prev_of-live h s other.live.0,
        splice-linked_in s a x (s.prev h) h xs one live other.live.0,
        e,
      )
      (full, empty, same)

-- Rlist_is_last says of a node of a list whether it is the last.
is_last-Ring :
    (s : Store) (h a : ℕ) (xs ys : List ℕ)
    → Ring s h (xs ++ a ∷ ys)
    → is_last a h s ≡ ok (no_nodes ys)
unfolding is_last
is_last-Ring s h a xs [] r =
    let t = Ring-rotate s h a xs [] r in rw (next_of-live a s t.live.0, t.chain.0) (ground arith)
is_last-Ring s h a xs (y ∷ ys) r =
    let t = Ring-rotate s h a xs (y ∷ ys) r in
    let d = Fresh-split y ys (h ∷ xs) t.distinct.1.0 in
    let yh = d.1.0 in rw (next_of-live a s t.live.0, t.chain.0) (ground arith)

-- For two circular lists without a common node, Rlist_splice_head moves the nodes of the first behind
-- the head of the second, and Rlist_splice_tail in front of it, to its end, in their order, the other
-- way round than their comments say; both leave the first empty; Rlist_empty says of its head whether it was empty before.
pub splice-Ring :
    (s : Store) (h a : ℕ) (xs ys : List ℕ)
    → Ring s a xs
    → Ring s h ys
    → Apart (h ∷ ys) (a ∷ xs)
    → Gives (Spliced s h a (xs ++ ys)) (splice_head a h s)
      × Gives (Spliced s h a (ys ++ xs)) (splice_tail a h s)
      × (is_empty a s ≡ ok (no_nodes xs))
splice-Ring s h a xs ys one other apart = (
  splice_head-Ring s h a xs ys one other apart,
  splice_tail-Ring s h a xs ys one other apart,
  is_empty-Ring s a xs one,
)
