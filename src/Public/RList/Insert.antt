-- ===== src/Public/RList/Insert.antt =====
-- What an insertion makes of a circular list.
use my_resource.Base.{
  ℕ, ◌≡◌, ◌≢◌, refl, ap, ◌∙◌, true, Option, some, List, [], ◌∷◌, ◌++◌, take, map, arith,
}
use my_resource.Base.Fault.{Gives, Gives-mono}
use my_resource.Public.RList.{update, Store, add, add_head, add_tail, build_dlist}
use my_resource.Public.RList.Writes.{init_list_head-live, next_of-live, prev_of-live, add-linked_in}
use my_resource.Public.RList.Chain.{
  Fresh, Fresh-last, Live-last, Apart, Apart-add, Apart-nil, update_other, update_same,
}
use my_resource.Public.RList.Rings.{Ring, Ring-linked_in}
use my_resource.Public.RList.Aside.{Ring-aside}
use my_resource.Public.RList.Back.{Ring-linked_in_back}

-- What the nodes of a ring hold.
abbrev pub contents : Store → List ℕ → List (Option (List ℕ))
contents s xs = map s.content xs

contents-update :
    (f : ℕ → Option (List ℕ)) (a : ℕ) (v : Option (List ℕ)) (xs : List ℕ)
    → Fresh a xs
    → map (update f a v) xs ≡ map f xs
contents-update f a v [] h = refl
contents-update f a v (x ∷ xs) h = rw (update_other f a x v h.0, contents-update f a v xs h.1) refl

-- The nodes next to `h` are in memory, and no node aside of the ring.
pub Ring-next :
    (s : Store) (h : ℕ) (xs : List ℕ)
    → Ring s h xs
    → (s.live (s.next h) ≡ true) × ((a : ℕ) → Fresh a (h ∷ xs) → a ≢ s.next h)
Ring-next s h [] r = (rw (r.closed) r.live.0, λ a f. rw (r.closed) f.0)
Ring-next s h (x ∷ xs) r = (rw (r.chain.0) r.live.1.0, λ a f. rw (r.chain.0) f.1.0)

pub Ring-prev :
    (s : Store) (h : ℕ) (xs : List ℕ)
    → Ring s h xs
    → (s.live (s.prev h) ≡ true) × ((a : ℕ) → Fresh a (h ∷ xs) → a ≢ s.prev h)
Ring-prev s h xs r =
    (rw (r.back) (Live-last s.live h xs r.live), λ a f. rw (r.back) (Fresh-last a h xs f.0 f.1))

-- `__Rlist_add` puts a node that is not in the ring behind `h`, or before it.
module _ (s : Store) (h a : ℕ) (xs : List ℕ) (r : Ring s h xs) (l : s.live a ≡ true)
    (f : Fresh a (h ∷ xs)) where
  apart : Apart (h ∷ xs) (a ∷ [])
  apart = Apart-add a [] (h ∷ xs) f (Apart-nil (h ∷ xs))

  pub add-front : Gives (λ t. Ring t h (a ∷ xs) × (t.content ≡ s.content)) (add a h (s.next h) s)
  add-front =
      let (live, other) = Ring-next s h xs r in
      rw (add-linked_in a h (s.next h) s l r.live.0 live f.0 (other a f))
        (Ring-linked_in s h a [] xs r (l, tt) (tt, tt) tt apart, refl)

  pub add-back :
      Gives (λ t. Ring t h (xs ++ a ∷ []) × (t.content ≡ s.content)) (add a (s.prev h) h s)
  add-back =
      let (live, other) = Ring-prev s h xs r in
      rw (add-linked_in a (s.prev h) h s l live r.live.0 (other a f) f.0)
        (Ring-linked_in_back s h a [] xs r (l, tt) (tt, tt) tt apart, refl)

-- The bytes that a new node holds, in front of or behind those of the other nodes.
contents_front :
    (f g : ℕ → Option (List ℕ)) (a : ℕ) (v : Option (List ℕ)) (xs : List ℕ)
    → Fresh a xs
    → g ≡ update f a v
    → map g (a ∷ xs) ≡ v ∷ map f xs
contents_front f g a v xs h e =
    ap (λ k. map k (a ∷ xs)) e ∙ ground (arith, contents-update f a v xs h, update_same f a v)

contents_back :
    (f g : ℕ → Option (List ℕ)) (a : ℕ) (v : Option (List ℕ)) (xs : List ℕ)
    → Fresh a xs
    → g ≡ update f a v
    → map g (xs ++ a ∷ []) ≡ map f xs ++ v ∷ []
contents_back f g a v [] h e = contents_front f g a v [] h e
contents_back f g a v (x ∷ xs) h e =
    let here : g x ≡ f x = ap (λ k. k x) e ∙ update_other f a x v h.0 in
    rw (here, contents_back f g a v xs h.1 e) refl

-- When memory is given for a node that is not in the list, the list then begins with it.
add_head-Ring :
    (s : Store) (h a : ℕ) (xs bytes : List ℕ)
    → Ring s h xs
    → Fresh a (h ∷ xs)
    → Gives
        (λ t. Ring t h (a ∷ xs) × (contents t (a ∷ xs) ≡ some (take 1 bytes) ∷ contents s xs))
        (add_head h (some a) true bytes s)
unfolding add_head build_dlist
add_head-Ring s h a xs bytes r f =
    let v = some (take 1 bytes) in
    let t = record s { live = update s.live a true; content = update s.content a v } in
    let t' = record t { next = update s.next a a; prev = update s.prev a a } in
    let ring = Ring-aside s h a xs r f a a t.content in
    let l = update_same s.live a true in
    rw (init_list_head-live a t l, next_of-live h t' ring.live.0)
      (Gives-mono (λ u. Ring u h (a ∷ xs) × (u.content ≡ t.content))
        (λ u. Ring u h (a ∷ xs) × (contents u (a ∷ xs) ≡ v ∷ contents s xs))
        (add a h (t'.next h) t') (add-front t' h a xs ring l f)
        (λ u p. (p.0, contents_front s.content u.content a v xs f.1 p.1)))

-- Or ends with it.
add_tail-Ring :
    (s : Store) (h a : ℕ) (xs bytes : List ℕ)
    → Ring s h xs
    → Fresh a (h ∷ xs)
    → Gives
        (λ t.
          Ring t h (xs ++ a ∷ [])
          × (contents t (xs ++ a ∷ []) ≡ contents s xs ++ some (take 1 bytes) ∷ []))
        (add_tail h (some a) true bytes s)
unfolding add_tail
add_tail-Ring s h a xs bytes r f =
    let v = some (take 1 bytes) in
    let t = record s {
      live = update s.live a true;
      next = update s.next a 0;
      prev = update s.prev a 0;
      content = update s.content a v;
    } in
    let ring = Ring-aside s h a xs r f 0 0 t.content in
    rw (prev_of-live h t ring.live.0) (
      Gives-mono (λ u. Ring u h (xs ++ a ∷ []) × (u.content ≡ t.content))
        (λ u. Ring u h (xs ++ a ∷ []) × (contents u (xs ++ a ∷ []) ≡ contents s xs ++ v ∷ []))
        (add a (t.prev h) h t) (add-back t h a xs ring (update_same s.live a true) f)
        (λ u p. (p.0, contents_back s.content u.content a v xs f.1 p.1)))

-- RList_add_head and RList_add_tail, given memory for a node that is not in a circular list, return
-- without a fault; the list then begins, or ends, with the new node, the other nodes stay in their
-- order and keep their data, and the new node holds a copy of the first byte of the data alone.
pub insert-Ring :
    (s : Store) (h a : ℕ) (xs bytes : List ℕ)
    → Ring s h xs
    → Fresh a (h ∷ xs)
    → Gives
        (λ t. Ring t h (a ∷ xs) × (contents t (a ∷ xs) ≡ some (take 1 bytes) ∷ contents s xs))
        (add_head h (some a) true bytes s)
      × Gives
          (λ t.
            Ring t h (xs ++ a ∷ [])
            × (contents t (xs ++ a ∷ []) ≡ contents s xs ++ some (take 1 bytes) ∷ []))
          (add_tail h (some a) true bytes s)
insert-Ring s h a xs bytes r f =
    (add_head-Ring s h a xs bytes r f, add_tail-Ring s h a xs bytes r f)
