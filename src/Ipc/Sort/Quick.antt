-- ===== src/Ipc/Sort/Quick.antt =====
-- `_shm_qsort` of fram/module/ipc/src/blockshm.c over the records of a block whose data is a whole
-- number of records. A pointer to a record is its index. The first argument of a loop over records is
-- the number of rounds that its bound leaves.
mod Rounds
mod Part
mod Middle
mod Pending
mod Cuts
mod Step
pub mod Sorted
use my_resource.Base.{
  ℕ, zero, suc, ◌+◌, ◌-◌, ◌/◌, Bool, ◌&&◌, List, [], ◌∷◌, ltb, leb, ◌==◌, if◌then◌else◌, length,
}
use my_resource.Base.Fault.{Run, ok, fault, out_of_fuel, ◌>>=◌}
use my_resource.Ipc.Rows.{Row, row, swap}
use my_resource.Ipc.Sort.{ssort}

-- CUTOFF and STKSIZ, where a pointer has 8 bytes.
abbrev pub cutoff : ℕ
cutoff = 8

abbrev pub stack_size : ℕ
stack_size = 62

-- The variables of the loop that parts the records from `lo` to `hi`.
pub record Guys : Type 0 where
  pub rows : List Row
  pub mid : ℕ
  pub loguy : ℕ
  pub higuy : ℕ

-- `lostk` and `histk` up to `stkptr`.
abbrev pub Stack : Type 0
Stack = List (ℕ × ℕ)

-- A push on a full stack is a write behind the arrays.
abbrev pub push : Bool → ℕ × ℕ → Stack → Run Stack
push wanted p stack =
    if wanted then (if ltb (length stack) stack_size then ok (p ∷ stack) else fault) else ok stack

abbrev pub pop : (List Row → ℕ → ℕ → Stack → Run (List Row)) → List Row → Stack → Run (List Row)
pop rec xs [] = ok xs
pop rec xs ((lo, hi) ∷ stack) = rec xs lo hi stack

module _ (rank : Row → ℕ) where
  -- Two records are exchanged if the first has the greater index field.
  unfoldable pub order : ℕ → ℕ → List Row → List Row
  order a b xs = if ltb (rank (row xs b)) (rank (row xs a)) then swap xs a b else xs

  unfoldable pub median : ℕ → ℕ → ℕ → List Row → List Row
  unfolding order
  median lo mid hi xs = order mid hi (order lo hi (order lo mid xs))

  -- `loguy` moves on below `end` while the records are not greater than the one in the middle.
  unfoldable pub up : ℕ → List Row → ℕ → ℕ → ℕ → ℕ
  up zero xs mid end i = i + 1
  up (suc k) xs mid end i =
      let rest = up k xs mid end (i + 1) in
      if ltb (i + 1) end && leb (rank (row xs (i + 1))) (rank (row xs mid)) then rest else i + 1

  -- `higuy` moves back above the middle while the records are greater.
  unfoldable pub down : ℕ → List Row → ℕ → ℕ → ℕ
  down zero xs mid i = i - 1
  down (suc k) xs mid i =
      let rest = down k xs mid (i - 1) in
      if ltb mid (i - 1) && ltb (rank (row xs mid)) (rank (row xs (i - 1))) then rest else i - 1

  -- `higuy` moves back above `start` while the records are equal.
  unfoldable pub down_equal : ℕ → List Row → ℕ → ℕ → ℕ → ℕ
  down_equal zero xs mid start i = i - 1
  down_equal (suc k) xs mid start i =
      let rest = down_equal k xs mid start (i - 1) in
      if ltb start (i - 1) && rank (row xs (i - 1)) == rank (row xs mid) then rest else i - 1

  -- The two loops over `loguy`.
  unfoldable pub next_lo : List Row → ℕ → ℕ → ℕ → ℕ
  unfolding up
  next_lo xs mid hi i =
      let first = if ltb i mid then up (mid - i) xs mid mid i else i in
      if leb mid first then up (hi + 1 - first) xs mid (hi + 1) first else first

  unfoldable pub part : ℕ → ℕ → Guys → Run Guys
  unfolding next_lo down
  part zero hi g = out_of_fuel
  part (suc fuel) hi g =
      let l = next_lo g.rows g.mid hi g.loguy in
      let h = down (g.higuy - g.mid) g.rows g.mid g.higuy in
      let rest = part fuel hi (record {
        rows = swap g.rows l h;
        mid = if g.mid == h then l else g.mid;
        loguy = l;
        higuy = h;
      }) in
      if ltb h l then ok (record g { loguy = l; higuy = h }) else rest

  -- `higuy` behind the records that are equal to the one in the middle.
  unfoldable pub skip_equal : ℕ → Guys → ℕ
  unfolding down_equal
  skip_equal lo g =
      let first = g.higuy + 1 in
      let second =
        if ltb g.mid first then down_equal (first - g.mid) g.rows g.mid g.mid first else first in
      if leb second g.mid then down_equal (second - lo) g.rows g.mid lo second else second

  -- The label `recurse` for a part that is not small. `rec` is the jump to `recurse` with `lo`, `hi` and
  -- the stack. The larger part is pushed, if it has two records, and the smaller one is next.
  unfoldable pub split :
      (List Row → ℕ → ℕ → Stack → Run (List Row)) → ℕ → ℕ → Stack → Guys → ℕ → Run (List Row)
  split rec lo hi stack g h =
      if leb (hi + lo) (h + g.loguy)
      then (push (ltb lo h) (lo, h) stack >>= λ st.
          if ltb g.loguy hi then rec g.rows g.loguy hi st else pop rec g.rows st)
      else (push (ltb g.loguy hi) (g.loguy, hi) stack >>= λ st.
          if ltb lo h then rec g.rows lo h st else pop rec g.rows st)

  -- The records parted at the middle one.
  unfoldable pub parted : ℕ → ℕ → List Row → Run Guys
  unfolding median part
  parted lo hi xs =
      let mid = lo + (hi - lo + 1) / 2 in
      part (hi + 2) hi (record { rows = median lo mid hi xs; mid = mid; loguy = lo; higuy = hi })

  -- The label `recurse`. A small part is given to `_shm_ssort`, which sorts the whole block.
  unfoldable pub qsort_from : ℕ → List Row → ℕ → ℕ → Stack → Run (List Row)
  unfolding ssort parted skip_equal split
  qsort_from zero xs lo hi stack = out_of_fuel
  qsort_from (suc fuel) xs lo hi stack =
      let small = pop (qsort_from fuel) (ssort rank xs) stack in
      let large =
        parted lo hi xs >>= λ g. split (qsort_from fuel) lo hi stack g (skip_equal lo g) in
      if leb (hi - lo + 1) cutoff then small else large

  unfoldable pub qsort : List Row → Run (List Row)
  unfolding qsort_from
  qsort xs = if ltb (length xs) 2 then ok xs else qsort_from (length xs + 1) xs 0 (length xs - 1) []
