-- ===== src/MemPool.antt =====
-- The pool of fram/module/mempool/src/mem_pool.c: how it is made and how it gives out memory; how it
-- is emptied and given up is in Release. An address in a page is a number of bytes from the page's
-- start, for a machine where `long` has 8 bytes, and so `pfree`,
-- which points to `long`, moves by 8 bytes for each unit that is added to it.
pub mod Pages
pub mod Reach
pub mod Bounds
pub mod Release
pub mod Counts
mod Tests
use my_resource.Base.{
  ℕ, zero, suc, ◌+◌, ◌-◌, ◌*◌, ◌/◌, ◌%◌, ◌^◌, Bool, true, false, Option, none, some, List, [], ◌∷◌,
  ◌++◌, leb, ltb, if◌then◌else◌, length,
}

-- `struct _MEM_POOL_BLOCK` less its links.
pub record Block : Type 0 where
  pub count : ℕ
  pub free : ℕ
  pub fail_num : ℕ
  pub pfree : ℕ

-- `struct MEM_POOL_HEAD`: the pages before `page_current`, and those from it on; the sizes of the
-- large blocks.
pub record Pool : Type 0 where
  pub page_size : ℕ
  pub page_num : ℕ
  pub before : List Block
  pub live : List Block
  pub large : List ℕ

-- NULL, an address in a page, or one in a large block; the pages and the blocks are counted from 0.
pub data Pointer : Type 0 where
  null : Pointer
  in_page : ℕ → ℕ → Pointer
  in_large : ℕ → ℕ → Pointer

abbrev pub page_size_default : ℕ
page_size_default = 8 * 1024

-- `MEM_ALIGN` in 32 bits.
unfoldable pub align : ℕ → ℕ
align n = (n + 7) % 2 ^ 32 / 8 * 8

-- MEM_ALIGN(sizeof(struct _MEM_POOL_BLOCK)), which is also the size, and that of the large header.
abbrev pub block_header : ℕ
block_header = 40

abbrev pub large_header : ℕ
large_header = 16

-- A page as `mem_pool_init` and `_mem_pool_alloc_block` make it. The header's size is added to a
-- pointer to headers.
unfoldable pub fresh : ℕ → Block
fresh size = record {
  count = 0;
  free = size - block_header;
  fail_num = 0;
  pfree = block_header * block_header;
}

-- The code of `mem_pool_init`, and the pool.
unfoldable pub mem_pool_init : Bool → Pool → Option Pool
unfolding fresh
mem_pool_init given pool =
    if given
    then some (record {
      page_size = page_size_default;
      page_num = 1;
      before = [];
      live = fresh page_size_default ∷ [];
      large = [];
    })
    else none

abbrev pub failed : Block → Block
failed b = record b { fail_num = (b.fail_num + 1) % 2 ^ 32 }

abbrev pub carved : ℕ → Block → Block
carved size b = record b {
  count = (b.count + 1) % 2 ^ 32;
  free = (b.free + 2 ^ 32 - size) % 2 ^ 32;
  pfree = b.pfree + 8 * size;
}

abbrev pub later : Option (ℕ × ℕ) → Option (ℕ × ℕ)
later none = none
later (some (k, o)) = some (suc k, o)

-- The first and the last part of `_mem_pool_alloc_block`, over the pages from `page_current` on: the
-- first page with room, or else a new one behind the last, gives the block. `none` is NULL.
unfoldable pub place : Bool → ℕ → ℕ → List Block → Option (ℕ × ℕ) × List Block
unfolding fresh
place given page_size size [] =
    if given
    then (some (0, (fresh page_size).pfree), carved size (fresh page_size) ∷ [])
    else (none, [])
place given page_size size (b ∷ bs) =
    let (p, rest) = place given page_size size bs in
    if leb size b.free then (some (0, b.pfree), carved size b ∷ bs) else (later p, failed b ∷ rest)

-- The middle part: `page_current` goes on over the pages that have failed eight times, but not
-- beyond the last. It reads no field that the last part writes.
unfoldable pub advance : List Block → List Block → List Block × List Block
advance before [] = (before, [])
advance before (b ∷ []) = (before, b ∷ [])
advance before (b ∷ c ∷ bs) =
    let next = advance (before ++ b ∷ []) (c ∷ bs) in
    if ltb b.fail_num 8 then (before, b ∷ c ∷ bs) else next

-- `_mem_pool_alloc_block`. Without memory for a new page, `page_current` stays.
unfoldable pub alloc_block : Bool → Pool → ℕ → Pointer × Pool
unfolding place advance
alloc_block given pool size =
    let (p, pages) = place given pool.page_size size pool.live in
    let (before, live) = advance pool.before pages in
    elim p [
      | none ↦ (null, record pool { live = pages })
      | some (k, o) ↦ (
        in_page (length pool.before + k) o,
        record pool {
          page_num = (pool.page_num + (length pages - length pool.live)) % 2 ^ 32;
          before = before;
          live = live;
        },
      )
    ]

-- `_mem_pool_alloc_large`: the new block is the last one. The pointer that it returns is a `long`
-- pointer, moved by the size of the header.
unfoldable pub alloc_large : Bool → Pool → ℕ → Pointer × Pool
alloc_large given pool size =
    if given
    then (
      in_large (length pool.large) (8 * large_header),
      record pool { large = pool.large ++ (size + large_header) % 2 ^ 32 ∷ [] },
    )
    else (null, pool)

unfoldable pub palloc : Bool → Pool → ℕ → Pointer × Pool
unfolding alloc_large alloc_block align
palloc given pool size =
    if leb (pool.page_size - block_header) (align size)
    then alloc_large given pool (align size)
    else alloc_block given pool (align size)

unfoldable pub pnalloc : Bool → Pool → ℕ → Pointer × Pool
unfolding alloc_large alloc_block
pnalloc given pool size =
    if leb (pool.page_size - block_header) size
    then alloc_large given pool size
    else alloc_block given pool size
