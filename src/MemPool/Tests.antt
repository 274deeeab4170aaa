-- ===== src/MemPool/Tests.antt =====
-- Runs of the pool, and the theorems at small inputs.
use my_resource.Base.{◌+◌, ◌-◌, ◌*◌, ◌≤◌, ◌≡◌, ◌↔◌, refl, true, some, [], ◌∷◌}
use my_resource.MemPool.{
  Block, Pool, page_size_default, mem_pool_init, alloc_block, place, advance, fresh, pnalloc,
  in_page,
}
use my_resource.MemPool.Reach.{Reach, here, next, unaligned, Apart, reach-Apart}
use my_resource.MemPool.Bounds.{reach-IsSound}
use my_resource.MemPool.Release.{
  mem_pool_reset, mem_pool_destory, page, large_block, freed_all, reset_pages,
}
use my_resource.Base.Fault.{ok}

abbrev raw : Pool
raw = record { page_size = 0; page_num = 0; before = []; live = []; large = [] }

abbrev new_page : Block
new_page = record { count = 0; free = 8152; fail_num = 0; pfree = 1600 }

abbrev new_pool : Pool
new_pool = record { page_size = 8192; page_num = 1; before = []; live = new_page ∷ []; large = [] }

init_run : mem_pool_init true raw ≡ some new_pool
unfolding mem_pool_init fresh
init_run = refl

abbrev used_page : Block
used_page = record { count = 1; free = 7152; fail_num = 0; pfree = 9600 }

abbrev used_pool : Pool
used_pool = record {
  page_size = 8192;
  page_num = 1;
  before = [];
  live = used_page ∷ [];
  large = [];
}

alloc_run : alloc_block true new_pool 1000 ≡ (in_page 0 1600, used_pool)
unfolding alloc_block place advance
alloc_run = refl

pnalloc_run : (pnalloc true new_pool 1000).1 ≡ used_pool
unfolding pnalloc alloc_block place advance
pnalloc_run = refl

reached : Reach new_pool used_pool
reached = next here (unaligned true 1000 pnalloc_run)

reach-IsSound_example :
    (used_page.free ≤ 8152)
    × (used_page.pfree ≡ 1600 + 8 * (8152 - used_page.free))
    × (page_size_default ≤ used_page.pfree ↔ used_page.free + 824 ≤ 8152)
reach-IsSound_example = reach-IsSound raw new_pool used_pool init_run reached 0 used_page refl

again : Reach (alloc_block true new_pool 1000).1 (alloc_block true new_pool 1000).1
again = here

reach-Apart_example :
    Apart 1000
      (alloc_block true new_pool 1000)
      (alloc_block true (alloc_block true new_pool 1000).1 16)
reach-Apart_example = reach-Apart new_pool (alloc_block true new_pool 1000).1 1000 16 again

-- A pool with a large block. The reset frees it and leaves the rest as it was.
abbrev large_pool : Pool
large_pool = record used_pool { large = 9016 ∷ [] }

reset_run : mem_pool_reset large_pool ≡ ok (large_pool, large_block 0 ∷ [])
unfolding mem_pool_reset reset_pages freed_all
reset_run = refl

destory_run : (mem_pool_destory large_pool).1 ≡ page 0 ∷ large_block 0 ∷ []
unfolding mem_pool_destory freed_all
destory_run = refl
