-- ===== src/MemPool/Release.antt =====
-- How a pool is emptied and given up: `mem_pool_reset` and `mem_pool_destory` of
-- fram/module/mempool/src/mem_pool.c.
use my_resource.Base.{
  ℕ, suc, ◌+◌, ◌<◌, ◌≡◌, refl, sym, ap, true, List, [], ◌∷◌, ◌++◌, arith, length,
}
use mathlib.Core.Path.{subst}
use my_resource.Base.Fault.{Run, ok, fault, ◌>>=◌, Gives}
use my_resource.MemPool.{Block, Pool, alloc_block}
use my_resource.MemPool.Pages.{pages_of, alloc_block-InPage}
use my_resource.MemPool.Reach.{Reach, Apart, apart, reach-Grows, Grows}

-- What is handed to `free`: a page or a large block, by its number.
pub data Freed : Type 0 where
  page : ℕ → Freed
  large_block : ℕ → Freed

-- A loop that frees all that a list holds, in its order.
unfoldable pub freed_all {ℓ} : {A : Type ℓ} → (ℕ → Freed) → ℕ → List A → List Freed
freed_all make i [] = []
freed_all make i (a ∷ rest) = make i ∷ freed_all make (suc i) rest

-- The loop of `mem_pool_reset` over the pages. It runs as long as there is no page, and so writes to
-- the null pointer where there is none, and does nothing where there is one.
unfoldable pub reset_pages : List Block → Run (List Block)
reset_pages [] = fault
reset_pages (b ∷ bs) = ok (b ∷ bs)

-- `mem_pool_reset`. The list of the large blocks keeps those that are freed.
unfoldable pub mem_pool_reset : Pool → Run (Pool × List Freed)
unfolding freed_all reset_pages
mem_pool_reset pool = reset_pages (pool.before ++ pool.live) >>= λ pages.
    ok (record pool { before = []; live = pages }, freed_all large_block 0 pool.large)

-- `mem_pool_destory`.
unfoldable pub mem_pool_destory : Pool → Pool × List Freed
unfolding freed_all
mem_pool_destory pool = (
  record { page_size = 0; page_num = 0; before = []; live = []; large = [] },
  freed_all page 0 (pool.before ++ pool.live) ++ freed_all large_block 0 pool.large,
)

-- How many pages are among what is freed.
abbrev pub pages_freed : List Freed → ℕ
pages_freed [] = 0
pages_freed (page i ∷ rest) = suc (pages_freed rest)
pages_freed (large_block i ∷ rest) = pages_freed rest

pub freed_all-page :
    (i : ℕ) (bs : List Block) (rest : List Freed)
    → pages_freed (freed_all page i bs ++ rest) ≡ length bs + pages_freed rest
unfolding freed_all
freed_all-page i [] rest = omega arith
freed_all-page i (b ∷ bs) rest = omega (arith, freed_all-page (suc i) bs rest)

pub freed_all-large_block : (i : ℕ) (ls : List ℕ) → pages_freed (freed_all large_block i ls) ≡ 0
unfolding freed_all
freed_all-large_block i [] = refl
freed_all-large_block i (l ∷ ls) = freed_all-large_block (suc i) ls

-- The pool `r` and what is freed, as they come from the pool `q`: a block of `m` units is apart from
-- the block of `n` units that `p` gave, and the large blocks are freed now and once more at the end.
abbrev pub Emptied : Pool → Pool → ℕ → ℕ → Pool × List Freed → Type 0
Emptied p q n m (r, freed) =
    Apart n (alloc_block true p n) (alloc_block true r m)
    × (freed ≡ freed_all large_block 0 q.large)
    × ((mem_pool_destory r).1 ≡ freed_all page 0 (pages_of q) ++ freed)

after_reset :
    (p q : Pool) (n m : ℕ) (pages : List Block)
    → pages ≡ pages_of q
    → 0 < length pages
    → Grows (pages_of (alloc_block true p n).1) (pages_of q)
    → Gives (Emptied p q n m) (
        reset_pages pages >>= λ pages.
        ok (record q { before = []; live = pages }, freed_all large_block 0 q.large))
unfolding reset_pages mem_pool_destory
after_reset p q n m [] e h g = absurd (omega arith)
after_reset p q n m (b ∷ bs) e h g =
    let q' : Pool = record q { before = []; live = b ∷ bs } in
    (
      apart p q' n m (alloc_block true p n) (alloc_block true q' m) (alloc_block-InPage p n)
          (subst (Grows (pages_of (alloc_block true p n).1)) (sym e) g) (alloc_block-InPage q' m),
      refl,
      ap (λ l. freed_all page 0 l ++ freed_all large_block 0 q.large) e,
    )

-- After a block of `n` units, any sequence of requests, and then mem_pool_reset of a pool that has a
-- page: it succeeds, frees the large blocks, and gives back nothing of the pages. A block of `m` units
-- after it, with memory for a new page, if it is in the same page as the first, starts behind the
-- `8 * n` bytes of the first; and mem_pool_destory then frees every page, and the same large blocks
-- again.
pub reset-Apart :
    (p q : Pool) (n m : ℕ)
    → 0 < length (pages_of q)
    → Reach (alloc_block true p n).1 q
    → Gives (Emptied p q n m) (mem_pool_reset q)
unfolding mem_pool_reset mem_pool_destory reset_pages
reset-Apart p q n m some_page r = after_reset p q n m (pages_of q) refl some_page (reach-Grows r)
