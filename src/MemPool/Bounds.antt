-- ===== src/MemPool/Bounds.antt =====
-- What the fields of a page say of each other, and where its free part begins.
use my_resource.Base.{
  ℕ, zero, suc, ◌+◌, ◌-◌, ◌*◌, ◌%◌, ◌^◌, ◌<◌, ◌≤◌, ◌≡◌, ◌↔◌, refl, sym, ap, ◌∙◌, Bool, true, false,
  Option, none, some, List, [], ◌∷◌, ◌++◌, arith, leb, length, Bool-cases, inl, inr,
}
use mathlib.Core.Path.{subst}
use my_resource.MemPool.{
  Block, Pool, Pointer, null, in_page, block_header, fresh, carved, place, advance, align,
  alloc_block, alloc_large, pnalloc, mem_pool_init, page_size_default,
}
use my_resource.MemPool.Pages.{pages_of, advance-append}
use my_resource.MemPool.Reach.{Step, aligned, unaligned, Reach, here, next, palloc-pnalloc}

-- `pfree` has moved from 1600 by 8 bytes for each unit that is no longer free.
pub record IsSound (b : Block) : Type 0 where
  pub room : b.free ≤ 8152
  pub offset : b.pfree ≡ 1600 + 8 * (8152 - b.free)

abbrev pub AllSound : List Block → Type 0
AllSound [] = Unit
AllSound (b ∷ bs) = IsSound b × AllSound bs

pub record IsValid (pool : Pool) : Type 0 where
  pub sized : pool.page_size ≡ page_size_default
  pub sound : AllSound (pages_of pool)

fresh-IsSound : IsSound (fresh page_size_default)
unfolding fresh
fresh-IsSound = record { room = omega arith; offset = omega arith }

carved-IsSound : (size : ℕ) (b : Block) → size ≤ b.free → IsSound b → IsSound (carved size b)
carved-IsSound size b h v =
    let room = v.room in
    let less : (b.free + 2 ^ 32 - size) % 2 ^ 32 ≡ b.free - size = omega arith in
    record { room = omega arith; offset = omega (arith, v.offset) }

place-AllSound :
    (given : Bool) (size : ℕ) (bs : List Block)
    → size < 8152
    → AllSound bs
    → AllSound (place given page_size_default size bs).1
unfolding place
place-AllSound true size [] h a =
    (carved-IsSound size (fresh page_size_default) (unfold fresh in omega arith) fresh-IsSound, tt)
place-AllSound false size [] h a = tt
place-AllSound given size (b ∷ bs) h a = elim (Bool-cases (leb size b.free)) [
  | inl e ↦ rw e (carved-IsSound size b (ground arith) a.0, a.1)
  | inr e ↦
      rw e (record { room = a.0.room; offset = a.0.offset }, place-AllSound given size bs h a.1)
]

AllSound-append : (bs cs : List Block) → AllSound bs → AllSound cs → AllSound (bs ++ cs)
AllSound-append [] cs a c = c
AllSound-append (b ∷ bs) cs a c = (a.0, AllSound-append bs cs a.1 c)

AllSound-left : (bs cs : List Block) → AllSound (bs ++ cs) → AllSound bs
AllSound-left [] cs a = tt
AllSound-left (b ∷ bs) cs a = (a.0, AllSound-left bs cs a.1)

AllSound-right : (bs cs : List Block) → AllSound (bs ++ cs) → AllSound cs
AllSound-right [] cs a = a
AllSound-right (b ∷ bs) cs a = AllSound-right bs cs a.1

finish-AllSound :
    (pool : Pool) (pages : List Block) (p : Option (ℕ × ℕ)) (n : ℕ)
    → AllSound (pool.before ++ pages)
    → pool.page_size ≡ page_size_default
    → IsValid
        (elim p as (λ _. Pointer × Pool) [
          | none ↦ (null, record pool { live = pages })
          | some (k, o) ↦ (
            in_page (length pool.before + k) o,
            record pool {
              page_num = n;
              before = (advance pool.before pages).0;
              live = (advance pool.before pages).1;
            },
          )
        ]).1
finish-AllSound pool pages none n h e = record { sized = e; sound = h }
finish-AllSound pool pages (some (k, o)) n h e = record {
  sized = e;
  sound = subst AllSound (sym (advance-append pool.before pages)) h;
}

alloc_block-IsValid :
    (given : Bool) (pool : Pool) (size : ℕ)
    → size < 8152
    → IsValid pool
    → IsValid (alloc_block given pool size).1
unfolding alloc_block
alloc_block-IsValid given pool size h v =
    let placed : AllSound (place given pool.page_size size pool.live).1 =
      rw (v.sized)
        (place-AllSound given size pool.live h (AllSound-right pool.before pool.live v.sound)) in
    finish-AllSound pool (place given pool.page_size size pool.live).1
      (place given pool.page_size size pool.live).0 _
      (AllSound-append pool.before (place given pool.page_size size pool.live).1
        (AllSound-left pool.before pool.live v.sound) placed)
      v.sized

alloc_large-IsValid :
    (given : Bool) (pool : Pool) (size : ℕ) → IsValid pool → IsValid (alloc_large given pool size).1
unfolding alloc_large
alloc_large-IsValid true pool size v = record { sized = v.sized; sound = v.sound }
alloc_large-IsValid false pool size v = v

pnalloc-IsValid :
    (given : Bool) (pool : Pool) (size : ℕ) → IsValid pool → IsValid (pnalloc given pool size).1
unfolding pnalloc
pnalloc-IsValid given pool size v = elim (Bool-cases (leb (pool.page_size - block_header) size)) [
  | inl h ↦ rw h (alloc_large-IsValid given pool size v)
  | inr h ↦
      let sized = v.sized in
      let small : size < 8152 = ground arith in rw h (alloc_block-IsValid given pool size small v)
]

Step-IsValid : {p q : Pool} → Step p q → IsValid p → IsValid q
Step-IsValid {p} (aligned given size e) v =
    subst IsValid (sym (ap (λ r. r.1) (palloc-pnalloc given p size)) ∙ e)
      (pnalloc-IsValid given p (align size) v)
Step-IsValid {p} (unaligned given size e) v = subst IsValid e (pnalloc-IsValid given p size v)

abbrev pub IfAny {ℓ} : {A : Type ℓ} → (A → Type 0) → Option A → Type 0
IfAny P none = Unit
IfAny P (some a) = P a

init-IsValid : (raw pool : Pool) → mem_pool_init true raw ≡ some pool → IsValid pool
unfolding mem_pool_init
init-IsValid raw pool e =
    subst (IfAny IsValid) e (record { sized = refl; sound = (fresh-IsSound, tt) })

reach-IsValid : {p q : Pool} → Reach p q → IsValid p → IsValid q
reach-IsValid here v = v
reach-IsValid (next r s) v = Step-IsValid s (reach-IsValid r v)

-- The page with this number.
abbrev pub page_at : ℕ → List Block → Option Block
page_at j [] = none
page_at zero (b ∷ bs) = some b
page_at (suc j) (b ∷ bs) = page_at j bs

AllSound-page_at :
    (j : ℕ) (bs : List Block) (b : Block) → AllSound bs → page_at j bs ≡ some b → IsSound b
AllSound-page_at j [] b a h = cc
AllSound-page_at zero (c ∷ cs) b a h = subst (IfAny IsSound) h a.0
AllSound-page_at (suc j) (c ∷ cs) b a h = AllSound-page_at j cs b a.1 h

-- In every page of a pool that any sequence of requests leaves after `mem_pool_init`, at most 8152
-- units are free, and `pfree` is 1600 bytes from the page's start and 8 more for each unit given
-- out; so once 824 units are given out it is not in the page any more.
pub reach-IsSound :
    (raw pool q : Pool)
    → mem_pool_init true raw ≡ some pool
    → Reach pool q
    → (j : ℕ) (b : Block) → page_at j (pages_of q) ≡ some b
    → (b.free ≤ 8152)
      × (b.pfree ≡ 1600 + 8 * (8152 - b.free))
      × (page_size_default ≤ b.pfree ↔ b.free + 824 ≤ 8152)
reach-IsSound raw pool q e r j b h =
    let v = AllSound-page_at j (pages_of q) b (reach-IsValid r (init-IsValid raw pool e)).sound h in
    let room = v.room in
    let offset = v.offset in (room, offset, ((λ out. omega arith), λ used. omega arith))
