-- ===== src/MemPool/Reach.antt =====
-- Sequences of requests to a pool.
use my_resource.Base.{
  ℕ, zero, suc, ◌+◌, ◌-◌, ◌*◌, ◌≤◌, ◌≡◌, refl, sym, ap, ◌∙◌, Bool, true, false, Option, none, some,
  List, [], ◌∷◌, ◌++◌, arith, leb, length, Bool-cases, inl, inr,
}
use mathlib.Core.Path.{subst}
use my_resource.MemPool.{
  Block, Pool, Pointer, null, in_page, in_large, block_header, fresh, place, advance, align,
  alloc_block, alloc_large, palloc, pnalloc,
}
use my_resource.MemPool.Pages.{next_free, pages_of, advance-append, InPage, alloc_block-InPage}

-- A request, with memory from `malloc` or without.
pub data Step : Pool → Pool → Type 0 where
  aligned : {p q : Pool} (given : Bool) (size : ℕ) → (palloc given p size).1 ≡ q → Step p q
  unaligned : {p q : Pool} (given : Bool) (size : ℕ) → (pnalloc given p size).1 ≡ q → Step p q

pub data Reach (p : Pool) : Pool → Type 0 where
  here : Reach p p
  next : {q r : Pool} → Reach p q → Step q r → Reach p r

-- In no page does the first free byte move back.
abbrev pub Grows : List Block → List Block → Type 0
Grows bs bs' = (j : ℕ) → next_free bs j ≤ next_free bs' j

place-Grows :
    (given : Bool) (page size : ℕ) (bs : List Block) → Grows bs (place given page size bs).1
unfolding place next_free fresh
place-Grows true page size [] zero = omega arith
place-Grows true page size [] (suc j) = omega arith
place-Grows false page size [] j = omega arith
place-Grows given page size (b ∷ bs) zero = ground arith
place-Grows given page size (b ∷ bs) (suc j) = ground (arith, place-Grows given page size bs j)

behind-Grows : (before bs bs' : List Block) → Grows bs bs' → Grows (before ++ bs) (before ++ bs')
unfolding next_free
behind-Grows [] bs bs' h j = h j
behind-Grows (b ∷ before) bs bs' h zero = omega arith
behind-Grows (b ∷ before) bs bs' h (suc j) = behind-Grows before bs bs' h j

finish-Grows :
    (pool : Pool) (pages : List Block) (p : Option (ℕ × ℕ)) (n : ℕ)
    → Grows pool.live pages
    → Grows (pages_of pool) (
        pages_of
          (elim p as (λ _. Pointer × Pool) [
            | none ↦ (null, record pool { live = pages })
            | some (k, o) ↦ (
              in_page (length pool.before + k) o,
              record pool {
                page_num = n;
                before = (advance pool.before pages).0;
                live = (advance pool.before pages).1;
              },
            )
          ]).1)
finish-Grows pool pages none n h = behind-Grows pool.before pool.live pages h
finish-Grows pool pages (some (k, o)) n h =
    rw (advance-append pool.before pages) (behind-Grows pool.before pool.live pages h)

alloc_block-Grows :
    (given : Bool) (pool : Pool) (size : ℕ)
    → Grows (pages_of pool) (pages_of (alloc_block given pool size).1)
unfolding alloc_block
alloc_block-Grows given pool size =
    finish-Grows pool (place given pool.page_size size pool.live).1
      (place given pool.page_size size pool.live).0 _
      (place-Grows given pool.page_size size pool.live)

alloc_large-Grows :
    (given : Bool) (pool : Pool) (size : ℕ)
    → Grows (pages_of pool) (pages_of (alloc_large given pool size).1)
unfolding alloc_large
alloc_large-Grows true pool size j = omega arith
alloc_large-Grows false pool size j = omega arith

pnalloc-Grows :
    (given : Bool) (pool : Pool) (size : ℕ)
    → Grows (pages_of pool) (pages_of (pnalloc given pool size).1)
unfolding pnalloc
pnalloc-Grows given pool size = elim (Bool-cases (leb (pool.page_size - block_header) size)) [
  | inl h ↦ rw h (alloc_large-Grows given pool size)
  | inr h ↦ rw h (alloc_block-Grows given pool size)
]

pub palloc-pnalloc :
    (given : Bool) (pool : Pool) (size : ℕ)
    → palloc given pool size ≡ pnalloc given pool (align size)
unfolding palloc pnalloc
palloc-pnalloc given pool size = refl

Step-Grows : {p q : Pool} → Step p q → Grows (pages_of p) (pages_of q)
Step-Grows {p} (aligned given size e) =
    subst (λ r. Grows (pages_of p) (pages_of r))
      (sym (ap (λ r. r.1) (palloc-pnalloc given p size)) ∙ e) (pnalloc-Grows given p (align size))
Step-Grows {p} (unaligned given size e) =
    subst (λ r. Grows (pages_of p) (pages_of r)) e (pnalloc-Grows given p size)

pub reach-Grows : {p q : Pool} → Reach p q → Grows (pages_of p) (pages_of q)
reach-Grows here j = omega arith
reach-Grows (next r s) j = omega (arith, reach-Grows r j, Step-Grows s j)

-- Two results that are addresses in one page lie `8 * n` bytes apart at least.
abbrev pub Apart : ℕ → Pointer × Pool → Pointer × Pool → Type 0
Apart n (in_page k o, _) (in_page k' o', _) = k ≡ k' → o + 8 * n ≤ o'
Apart n r r' = Unit

pub apart :
    (p q : Pool) (n m : ℕ) (r r' : Pointer × Pool)
    → InPage p n r
    → Grows (pages_of r.1) (pages_of q)
    → InPage q m r'
    → Apart n r r'
apart p q n m (in_page k o, p') (in_page k' o', q') h g h' = λ e.
    let end : next_free (pages_of p') k ≡ o + 8 * n = ground (arith, h.moved k) in
    let start : next_free (pages_of q) k ≡ o' = ap (next_free (pages_of q)) e ∙ sym h'.address in
    omega (arith, g k)
apart p q n m (null, p') r' h g h' = tt
apart p q n m (in_large _ _, p') r' h g h' = tt
apart p q n m (in_page _ _, p') (null, q') h g h' = tt
apart p q n m (in_page _ _, p') (in_large _ _, q') h g h' = tt

-- After a block of `n` units, any sequence of requests, with memory or without, and then a block of
-- `m` units with memory for a new page, the second block, if it is in the same page, starts behind
-- the `8 * n` bytes from the start of the first.
pub reach-Apart :
    (p q : Pool) (n m : ℕ)
    → Reach (alloc_block true p n).1 q
    → Apart n (alloc_block true p n) (alloc_block true q m)
reach-Apart p q n m r =
    apart p q n m (alloc_block true p n) (alloc_block true q m) (alloc_block-InPage p n)
      (reach-Grows r) (alloc_block-InPage q m)
