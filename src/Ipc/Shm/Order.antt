-- ===== src/Ipc/Shm/Order.antt =====
-- `shm_qsort` and `shm_qsort_safe` of blockshm.c.
use my_resource.Base.{
  ℕ, ◌+◌, ◌-◌, ◌*◌, Bool, true, ◌||◌, Option, none, some, List, [], ◌∷◌, ◌++◌, take, drop, ltb,
  ◌&&◌, ◌==◌, if◌then◌else◌,
}
use my_resource.Base.Fault.{Run, ok, fault, ◌>>=◌}
use my_resource.Ipc.Rows.{Row}
use my_resource.Ipc.Sort.Quick.{qsort}
use my_resource.Ipc.Shm.{
  Str, Block, Segment, System, Ret, failed, head_size, opened, block_info, set_block,
}
use my_resource.Ipc.Shm.Query.{rank, block_rows, field_inside}
use my_resource.Ipc.Shm.Safe.{Lock, entered, stopped, enter}

abbrev pub joined : List Row → List ℕ
joined [] = []
joined (r ∷ rs) = r ++ joined rs

-- `_shm_qsort` on a block. `_shm_ssort` takes the last record to end where the data does, and would
-- tear the records of data that is no whole number of them; an index field that ends behind its record
-- is compared with bytes of the next one. Here both are a fault.
unfoldable pub sort_block : Segment → Block → Run Segment
unfolding block_rows qsort field_inside
sort_block s b =
    if ltb b.num 2 || b.recsize == 0
    then ok s
    else if b.pend == b.pstart + b.num * b.recsize && field_inside b
    then (block_rows s b >>= λ xs. qsort (rank b) xs >>= λ ys. ok (record s {
      bytes =
          take (b.pstart - head_size) s.bytes ++ (joined ys ++ drop (b.pend - head_size) s.bytes);
    }))
    else fault

-- The sort, and the flag in the description.
unfoldable pub sort_named : Bool → Segment → Str → Run (Ret × Option Segment)
unfolding sort_block block_info set_block
sort_named given s name = block_info given s (some name) >>= λ info. elim info.1 [
  | none ↦ ok (failed, some s)
  | some b ↦ sort_block s b >>= λ t.
      let (r, u) = set_block t (record b { sortflag = true }) in ok (r, some u)
]

unfoldable pub shm_qsort : System → Option Segment → Str → Run (Ret × Option Segment)
unfolding opened sort_named
shm_qsort sys seg name = elim (opened sys seg) [
  | none ↦ ok (failed, seg)
  | some s ↦ sort_named sys.given s name
]

unfoldable pub shm_qsort_safe : System → Lock → Option Segment → Str → Run (Ret × Option Segment)
unfolding enter sort_named
shm_qsort_safe sys l seg name = elim (enter sys l seg) [
  | stopped r ↦ ok (r, seg)
  | entered s ↦ sort_named sys.given s name
]
