-- ===== src/Public/RList/Writes.antt =====
-- The reads and writes at addresses that hold a node, and the calls made of them.
use my_resource.Base.{ℕ, ◌≡◌, ◌≢◌, refl, sym, true, false, arith}
use mathlib.Core.Path.{fun_ext}
use my_resource.Base.Fault.{ok}
use my_resource.Public.RList.{
  update, Store, add, del, free, remove, replace, init_list_head, next_of, prev_of, set_next,
  set_prev,
}
use my_resource.Public.RList.Rings.{linked_in, linked_out, swapped}

module _ (a : ℕ) (s : Store) (h : s.live a ≡ true) where
  pub next_of-live : next_of a s ≡ ok (s.next a)
  unfolding next_of
  next_of-live = rw h refl

  pub prev_of-live : prev_of a s ≡ ok (s.prev a)
  unfolding prev_of
  prev_of-live = rw h refl

  pub set_next-live : (b : ℕ) → set_next a b s ≡ ok (record s { next = update s.next a b })
  unfolding set_next
  set_next-live b = rw h refl

  pub set_prev-live : (b : ℕ) → set_prev a b s ≡ ok (record s { prev = update s.prev a b })
  unfolding set_prev
  set_prev-live b = rw h refl

pub init_list_head-live :
    (a : ℕ) (s : Store)
    → s.live a ≡ true
    → init_list_head a s ≡ ok (record s { next = update s.next a a; prev = update s.prev a a })
unfolding init_list_head
init_list_head-live a s h =
    rw (set_next-live a s h a, set_prev-live a (record s { next = update s.next a a }) h a) refl

update_comm {ℓ} :
    {A : Type ℓ} (f : ℕ → A) (a b : ℕ) (v w : A)
    → a ≢ b
    → update (update f a v) b w ≡ update (update f b w) a v
update_comm f a b v w h = fun_ext λ c. ground arith

module _ (new before behind : ℕ) (s : Store) (k : s.live new ≡ true) (l : s.live before ≡ true)
    (m : s.live behind ≡ true) where
  pub add-linked_in :
      new ≢ before → new ≢ behind → add new before behind s ≡ ok (linked_in new new before behind s)
  unfolding add
  add-linked_in h g =
      let s1 = record s { prev = update s.prev behind new } in
      let s2 = record s1 { next = update s.next new behind } in
      let s3 = record s2 { prev = update s1.prev new before } in
      rw
        (
          update_comm s.next before new new behind (λ e. h (sym e)),
          update_comm s.prev new behind before new g,
          set_prev-live behind s m new,
          set_next-live new s1 k behind,
          set_prev-live new s2 k before,
          set_next-live before s3 l new,
        )
        refl

pub del-linked_out :
    (x : ℕ) (s : Store)
    → s.live (s.prev x) ≡ true
    → s.live (s.next x) ≡ true
    → del (s.prev x) (s.next x) s ≡ ok (linked_out x s)
unfolding del
del-linked_out x s l m =
    let s1 = record s { prev = update s.prev (s.next x) (s.prev x) } in
    rw (set_prev-live (s.next x) s m (s.prev x), set_next-live (s.prev x) s1 l (s.next x)) refl

pub remove-linked_out :
    (x : ℕ) (s : Store)
    → s.live x ≡ true
    → s.live (s.prev x) ≡ true
    → s.live (s.next x) ≡ true
    → remove x s ≡ ok (record (linked_out x s) { live = update s.live x false })
unfolding remove free
remove-linked_out x s k l m =
    rw (prev_of-live x s k, next_of-live x s k, del-linked_out x s l m, k) refl

pub replace-swapped :
    (old new : ℕ) (s : Store)
    → s.live old ≡ true
    → s.live new ≡ true
    → s.live (s.next old) ≡ true
    → s.live (update s.prev (s.next old) new old) ≡ true
    → replace old new s ≡ ok (swapped old new s)
unfolding replace
replace-swapped old new s k l m h =
    let behind = s.next old in
    let before = update s.prev behind new old in
    let s1 = record s { next = update s.next new behind } in
    let s2 = record s1 { prev = update s.prev behind new } in
    let s3 = record s2 { prev = update s2.prev new before } in
    let s4 = record s3 { next = update s3.next before new } in
    rw
      (
        next_of-live old s k,
        set_next-live new s l behind,
        set_prev-live behind s1 m new,
        prev_of-live old s2 k,
        set_prev-live new s2 l before,
        set_next-live before s3 h new,
        init_list_head-live old s4 k,
      )
      refl
