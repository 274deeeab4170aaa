-- ===== src/Ipc/Shm/OrderTests.antt =====
-- A block sorted in its segment, and the theorem at this input.
use my_resource.Base.{
  ℕ, ◌-◌, ◌≡◌, refl, length, take, drop, true, false, some, List, [], ◌∷◌, arith,
}
use mathlib.Core.List.{Perm}
use my_resource.Base.Fault.{ok, Gives}
use my_resource.Ipc.Bytes.{number_from}
use my_resource.Ipc.Rows.{Row, row, swap}
use my_resource.Ipc.Sort.Selection.{IsSorted}
use my_resource.Ipc.Shm.{Block, Segment, System, returned, failed, head_size}
use my_resource.Ipc.Shm.Query.{rank, block_rows}
use my_resource.Ipc.Shm.Order.{sort_block, shm_qsort}
use my_resource.Ipc.Shm.Sorting.{sort_block-IsSorted}

-- Three records of two bytes, with the index in the second.
abbrev letters : List ℕ
letters = 5 ∷ 3 ∷ 5 ∷ 2 ∷ 7 ∷ 1 ∷ []

abbrev stored : Block
stored = record {
  name = 97 ∷ [];
  sortflag = false;
  num = 3;
  condoffset = 1;
  condlen = 1;
  pstart = 20;
  pend = 26;
  recsize = 2;
}

abbrev filled : Segment
filled = record {
  size = 300;
  fsize = 210;
  pin_head = 26;
  pin_tail = 236;
  bytes = letters;
  blocks = stored ∷ [];
}

abbrev system : System
system = record { key = 7; attaches = true; given = true }

sort_run :
    shm_qsort system (some filled) (97 ∷ [])
    ≡ ok (
      returned 0,
      some (record filled {
        bytes = 7 ∷ 1 ∷ 5 ∷ 2 ∷ 5 ∷ 3 ∷ [];
        blocks = record stored { sortflag = true } ∷ [];
      }),
    )
unfolding shm_qsort number_from row swap
sort_run = refl

unknown_run : shm_qsort system (some filled) (98 ∷ []) ≡ ok (failed, some filled)
unfolding shm_qsort
unknown_run = refl

sort_block-IsSorted_example :
    (xs : List Row) × (block_rows filled stored ≡ ok xs)
    × Gives
        (λ t.
          (ys : List Row) × (block_rows t stored ≡ ok ys)
          × IsSorted (rank stored) ys
          × Perm ys xs
          × (length t.bytes ≡ length letters)
          × (take (stored.pstart - head_size) t.bytes ≡ take (stored.pstart - head_size) letters)
          × (drop (stored.pend - head_size) t.bytes ≡ drop (stored.pend - head_size) letters))
        (sort_block filled stored)
sort_block-IsSorted_example =
    sort_block-IsSorted filled stored (omega arith) refl (omega arith) (omega arith) (omega arith)
      (omega arith)
