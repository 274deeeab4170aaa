-- ===== src/Ipc/Shm/Search.antt =====
-- `shm_bsearch` finds a record of a sorted block, if there is one.
use my_resource.Base.{
  ℕ, zero, suc, ◌+◌, ◌-◌, ◌/◌, ◌<◌, ◌≤◌, ◌≡◌, ◌≢◌, sym, inl, inr, Bool-cases, compare-cases, Option,
  none, some, List, arith, length, ltb,
}
use my_resource.Base.Fault.{Run, ok, fault, out_of_fuel}
use my_resource.Ipc.Rows.{Row, row}
use my_resource.Ipc.Sort.Selection.{IsSorted}
use my_resource.Ipc.Shm.Query.{bsearch_from, bsearch}

module _ (rank : Row → ℕ) (key : ℕ) (xs : List Row) where
  -- No record from `lo` up to `hi` has the key.
  abbrev pub Absent : ℕ → ℕ → Type 0
  Absent lo hi = (i : ℕ) → lo ≤ i → i < hi → rank (row xs i) ≢ key

  -- The search returns a record with the key, or there is none.
  abbrev pub Searched : ℕ → ℕ → Run (Option ℕ) → Type 0
  Searched lo hi (ok (some i)) = (i < length xs) × (rank (row xs i) ≡ key)
  Searched lo hi (ok none) = Absent lo hi
  Searched lo hi fault = ⊥
  Searched lo hi out_of_fuel = ⊥

  widen_left :
      (lo mid hi : ℕ) (run : Run (Option ℕ))
      → IsSorted rank xs
      → hi ≤ length xs
      → mid < hi
      → key < rank (row xs mid)
      → Searched lo mid run
      → Searched lo hi run
  widen_left lo mid hi (ok (some i)) sorted fits inside less found = found
  widen_left lo mid hi (ok none) sorted fits inside less absent =
      λ i low high e. ground (arith, absent i low, sorted mid i)
  widen_left lo mid hi fault sorted fits inside less found = found
  widen_left lo mid hi out_of_fuel sorted fits inside less found = found

  widen_right :
      (lo mid hi : ℕ) (run : Run (Option ℕ))
      → IsSorted rank xs
      → hi ≤ length xs
      → mid < hi
      → rank (row xs mid) < key
      → Searched (mid + 1) hi run
      → Searched lo hi run
  widen_right lo mid hi (ok (some i)) sorted fits inside more found = found
  widen_right lo mid hi (ok none) sorted fits inside more absent =
      λ i low high e. ground (arith, absent i, sorted i mid)
  widen_right lo mid hi fault sorted fits inside more found = found
  widen_right lo mid hi out_of_fuel sorted fits inside more found = found

  bsearch_from-Searched :
      (fuel lo hi : ℕ)
      → IsSorted rank xs
      → hi ≤ length xs
      → hi - lo < fuel
      → Searched lo hi (bsearch_from fuel rank key xs lo hi)
  unfolding bsearch_from
  bsearch_from-Searched zero lo hi sorted fits enough = absurd (omega arith)
  bsearch_from-Searched (suc fuel) lo hi sorted fits enough =
      let mid = lo + (hi - lo) / 2 in
      elim (Bool-cases (ltb lo hi)) [
        | inr done ↦ rw done (λ i low high e. ground arith)
        | inl more ↦
            let inside : mid < hi = ground arith in
            rw more (elim (compare-cases key (rank (row xs mid))) [
              | inl less ↦ rw less.0 (
                  widen_left lo mid hi _ sorted fits inside less.1
                    (bsearch_from-Searched fuel lo mid sorted (omega arith) (omega arith)))
              | inr (inl same) ↦ rw same.0 (omega arith, sym same.1)
              | inr (inr greater) ↦ rw greater.0 (
                  widen_right lo mid hi _ sorted fits inside greater.1
                    (bsearch_from-Searched fuel (mid + 1) hi sorted fits (omega arith)))
            ])
      ]

  -- On a sorted block whose index field ends inside of the record `shm_bsearch` ends, and returns a record of the block with the key, or NULL, and
  -- not the -1 of its comment, only if no record has the key.
  pub bsearch-Searched : IsSorted rank xs → Searched 0 (length xs) (bsearch rank key xs)
  unfolding bsearch
  bsearch-Searched sorted =
      bsearch_from-Searched (length xs + 1) 0 (length xs) sorted (omega arith) (omega arith)
