-- ===== src/MemPool/Counts.antt =====
-- The number of the pages of a pool, and the pages that `mem_pool_destory` frees.
use my_resource.Base.{
  ℕ, suc, ◌+◌, ◌-◌, ◌%◌, ◌^◌, ◌≤◌, ◌≡◌, refl, sym, ap, ◌∙◌, Bool, true, false, Option, none, some,
  List, [], ◌∷◌, arith, leb, length, length-append, Bool-cases, inl, inr,
}
use mathlib.Core.Path.{subst}
use my_resource.MemPool.{
  Block, Pool, Pointer, null, in_page, block_header, later, place, advance, align, alloc_block,
  alloc_large, pnalloc, mem_pool_init,
}
use my_resource.MemPool.Pages.{pages_of, advance-append}
use my_resource.MemPool.Reach.{Step, aligned, unaligned, Reach, here, next, palloc-pnalloc}
use my_resource.MemPool.Bounds.{IfAny}
use my_resource.MemPool.Release.{
  freed_all, large_block, mem_pool_destory, pages_freed, freed_all-page, freed_all-large_block,
}

-- The pool counts its pages, in 32 bits.
abbrev Counted : Pool → Type 0
Counted p = p.page_num ≡ length (pages_of p) % 2 ^ 32

length-place :
    (given : Bool) (page_size size : ℕ) (bs : List Block)
    → length bs ≤ length (place given page_size size bs).1
unfolding place
length-place true ps size [] = omega arith
length-place false ps size [] = omega arith
length-place given ps size (b ∷ bs) = ground (arith, length-place given ps size bs)

later-none : (p : Option (ℕ × ℕ)) → later p ≡ none → p ≡ none
later-none none e = refl
later-none (some (k, o)) e = cc

-- A request that gets no block adds no page.
length-place_same :
    (given : Bool) (page_size size : ℕ) (bs : List Block)
    → (place given page_size size bs).0 ≡ none
    → length (place given page_size size bs).1 ≡ length bs
unfolding place
length-place_same true ps size [] e = cc
length-place_same false ps size [] e = refl
length-place_same given ps size (b ∷ bs) e = elim (Bool-cases (leb size b.free)) [
  | inl h ↦ rw h refl
  | inr h ↦ rw h (
      ap suc
        (length-place_same given ps size bs (later-none (place given ps size bs).0 (rw h at e))))
]

finish-Counted :
    (pool : Pool) (pages : List Block) (p : Option (ℕ × ℕ))
    → length pool.live ≤ length pages
    → (p ≡ none → length pages ≡ length pool.live)
    → Counted pool
    → Counted
        (elim p as (λ _. Pointer × Pool) [
          | none ↦ (null, record pool { live = pages })
          | some (k, o) ↦ (
            in_page (length pool.before + k) o,
            record pool {
              page_num = (pool.page_num + (length pages - length pool.live)) % 2 ^ 32;
              before = (advance pool.before pages).0;
              live = (advance pool.before pages).1;
            },
          )
        ]).1
finish-Counted pool pages none more same c =
    omega
      (arith, c, same refl, length-append pool.before pages, length-append pool.before pool.live)
finish-Counted pool pages (some (k, o)) more same c =
    rw (advance-append pool.before pages)
      (omega (arith, c, length-append pool.before pages, length-append pool.before pool.live))

alloc_block-Counted :
    (given : Bool) (pool : Pool) (size : ℕ) → Counted pool → Counted (alloc_block given pool size).1
unfolding alloc_block
alloc_block-Counted given pool size c =
    finish-Counted pool (place given pool.page_size size pool.live).1
      (place given pool.page_size size pool.live).0
      (length-place given pool.page_size size pool.live)
      (length-place_same given pool.page_size size pool.live) c

alloc_large-Counted :
    (given : Bool) (pool : Pool) (size : ℕ) → Counted pool → Counted (alloc_large given pool size).1
unfolding alloc_large
alloc_large-Counted true pool size c = c
alloc_large-Counted false pool size c = c

pnalloc-Counted :
    (given : Bool) (pool : Pool) (size : ℕ) → Counted pool → Counted (pnalloc given pool size).1
unfolding pnalloc
pnalloc-Counted given pool size c = elim (Bool-cases (leb (pool.page_size - block_header) size)) [
  | inl h ↦ rw h (alloc_large-Counted given pool size c)
  | inr h ↦ rw h (alloc_block-Counted given pool size c)
]

Step-Counted : {p q : Pool} → Step p q → Counted p → Counted q
Step-Counted {p} (aligned given size e) c =
    subst Counted (sym (ap (λ r. r.1) (palloc-pnalloc given p size)) ∙ e)
      (pnalloc-Counted given p (align size) c)
Step-Counted {p} (unaligned given size e) c = subst Counted e (pnalloc-Counted given p size c)

reach-Counted : {p q : Pool} → Reach p q → Counted p → Counted q
reach-Counted here c = c
reach-Counted (next r s) c = Step-Counted s (reach-Counted r c)

init-Counted : (raw pool : Pool) → mem_pool_init true raw ≡ some pool → Counted pool
unfolding mem_pool_init
init-Counted raw pool e = subst (IfAny Counted) e (omega arith)

-- After `mem_pool_init` and any sequence of requests, mem_pool_destory frees as many pages as
-- page_num says, in 32 bits, and leaves a head with no page, no large block and a page_num of 0.
pub reach-destory :
    (raw pool q : Pool)
    → mem_pool_init true raw ≡ some pool
    → Reach pool q
    → (q.page_num ≡ pages_freed (mem_pool_destory q).1 % 2 ^ 32)
      × (pages_of (mem_pool_destory q).0 ≡ [])
      × ((mem_pool_destory q).0.large ≡ [])
      × ((mem_pool_destory q).0.page_num ≡ 0)
unfolding mem_pool_destory
reach-destory raw pool q e r = (counted, refl, refl, refl)
  where
    counted : q.page_num ≡ pages_freed (mem_pool_destory q).1 % 2 ^ 32
    counted = omega (
      arith,
      reach-Counted r (init-Counted raw pool e),
      freed_all-page 0 (pages_of q) (freed_all large_block 0 q.large),
      freed_all-large_block 0 q.large,
    )
