-- ===== src/Ipc/Sort.antt =====
-- `_shm_ssort` of fram/module/ipc/src/blockshm.c, over the records of a block, and in Quick `_shm_qsort`,
-- which calls it. The data of the block is a whole number of records, or the code would take a last
-- record that ends where the data does, and tear the others. `rank` is the number that stands in the index field of a record, so that `memcmp` of
-- two fields compares it.
pub mod Selection
pub mod Quick
mod Tests
use my_resource.Base.{ℕ, zero, suc, ◌+◌, ◌-◌, List, [], ◌∷◌, ltb, if◌then◌else◌, length}
use my_resource.Ipc.Rows.{Row, row, swap}

module _ (rank : Row → ℕ) where
  -- The inner loop, over `n` records from index `p` on; the index of the first greatest record.
  unfoldable pub max_from : ℕ → ℕ → ℕ → List Row → ℕ
  max_from zero p max xs = max
  max_from (suc n) p max xs =
      max_from n (p + 1) (if ltb (rank (row xs max)) (rank (row xs p)) then p else max) xs

  -- The outer loop, while `hi` is above the first record.
  unfoldable pub ssort_from : ℕ → List Row → List Row
  unfolding max_from
  ssort_from zero xs = xs
  ssort_from (suc hi) xs = ssort_from hi (swap xs (max_from (suc hi) 1 0 xs) (suc hi))

  unfoldable pub ssort : List Row → List Row
  unfolding ssort_from
  ssort xs = ssort_from (length xs - 1) xs
