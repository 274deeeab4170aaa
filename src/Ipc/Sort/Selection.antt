-- ===== src/Ipc/Sort/Selection.antt =====
-- The selection sort leaves the records in order, and only moves them.
use my_resource.Base.{
  ℕ, zero, suc, ◌+◌, ◌-◌, ◌<◌, ◌≤◌, ◌≡◌, refl, List, [], ◌∷◌, arith, length, ltb, if◌then◌else◌,
}
use mathlib.Core.List.{Perm}
use mathlib.Core.List.Perm
use my_resource.Ipc.Rows.{Row, row, swap, length-swap, row-swap, swap-perm}
use my_resource.Ipc.Sort.{max_from, ssort_from, ssort}

module _ (rank : Row → ℕ) where
  -- Records stand in the order of their ranks.
  abbrev pub IsSorted : List Row → Type 0
  IsSorted xs = (i j : ℕ) → i ≤ j → j < length xs → rank (row xs i) ≤ rank (row xs j)

  max_from-lt : (n p max : ℕ) (xs : List Row) → max < p → max_from rank n p max xs < p + n
  unfolding max_from
  max_from-lt zero p max xs h = omega arith
  max_from-lt (suc n) p max xs h =
      ground (arith, max_from-lt n (p + 1) p xs, max_from-lt n (p + 1) max xs)

  max_from-le :
      (n p max : ℕ) (xs : List Row)
      → ((q : ℕ) → q < p → rank (row xs q) ≤ rank (row xs max))
      → (q : ℕ) → q < p + n
      → rank (row xs q) ≤ rank (row xs (max_from rank n p max xs))
  unfolding max_from
  max_from-le zero p max xs h q lt = h q (omega arith)
  max_from-le (suc n) p max xs h q lt =
      max_from-le n (p + 1) (if ltb (rank (row xs max)) (rank (row xs p)) then p else max) xs
        (λ r lt'. ground (arith, h r, h p)) q (omega arith)

  -- The records behind `hi` are in their places.
  abbrev Placed : ℕ → List Row → Type 0
  Placed hi xs = (i j : ℕ) → i ≤ j → hi < j → j < length xs → rank (row xs i) ≤ rank (row xs j)

  round-Placed :
      (hi : ℕ) (xs : List Row)
      → suc hi < length xs
      → Placed (suc hi) xs
      → Placed hi (swap xs (max_from rank (suc hi) 1 0 xs) (suc hi))
  round-Placed hi xs fits placed i j ij lo len =
      let top : max_from rank (suc hi) 1 0 xs < suc (suc hi) =
        omega (arith, max_from-lt (suc hi) 1 0 xs (omega arith)) in
      moved (max_from rank (suc hi) 1 0 xs) top
        (λ q lt. max_from-le (suc hi) 1 0 xs first q (omega arith)) i j ij lo
        (omega (arith, length-swap xs (max_from rank (suc hi) 1 0 xs) (suc hi)))
    where
      first : (q : ℕ) → q < 1 → rank (row xs q) ≤ rank (row xs 0)
      first zero lt = omega arith
      first (suc q) lt = absurd (omega arith)

      moved :
          (m : ℕ)
          → m < suc (suc hi)
          → ((q : ℕ) → q < suc (suc hi) → rank (row xs q) ≤ rank (row xs m))
          → (i j : ℕ) → i ≤ j
          → hi < j
          → j < length xs
          → rank (row (swap xs m (suc hi)) i) ≤ rank (row (swap xs m (suc hi)) j)
      moved m small greatest i j ij lo len =
          let inside : m < length xs = omega arith in
          rw (row-swap xs m (suc hi) inside fits i, row-swap xs m (suc hi) inside fits j)
            (ground
              (arith, greatest i, greatest (suc hi), placed i j, placed m j, placed (suc hi) j))

  ssort_from-Placed :
      (hi : ℕ) (xs : List Row) → hi < length xs → Placed hi xs → Placed 0 (ssort_from rank hi xs)
  unfolding ssort_from
  ssort_from-Placed zero xs fits placed = placed
  ssort_from-Placed (suc hi) xs fits placed =
      ssort_from-Placed hi (swap xs (max_from rank (suc hi) 1 0 xs) (suc hi))
        (omega (arith, length-swap xs (max_from rank (suc hi) 1 0 xs) (suc hi)))
        (round-Placed hi xs fits placed)

  pub length-ssort_from : (hi : ℕ) (xs : List Row) → length (ssort_from rank hi xs) ≡ length xs
  unfolding ssort_from
  length-ssort_from zero xs = refl
  length-ssort_from (suc hi) xs = omega (
    arith,
    length-ssort_from hi (swap xs (max_from rank (suc hi) 1 0 xs) (suc hi)),
    length-swap xs (max_from rank (suc hi) 1 0 xs) (suc hi),
  )

  ssort_from-perm : (hi : ℕ) (xs : List Row) → hi < length xs → Perm (ssort_from rank hi xs) xs
  unfolding ssort_from
  ssort_from-perm zero xs fits = Perm.refl xs
  ssort_from-perm (suc hi) xs fits =
      let m = max_from rank (suc hi) 1 0 xs in
      let top : max_from rank (suc hi) 1 0 xs < suc (suc hi) =
        omega (arith, max_from-lt (suc hi) 1 0 xs (omega arith)) in
      Perm.trans
        (ssort_from-perm hi (swap xs m (suc hi)) (omega (arith, length-swap xs m (suc hi))))
        (swap-perm xs m (suc hi) (omega arith) fits)

  -- `_shm_ssort` puts the records of a block in the order of the index field, and keeps them all.
  pub ssort-IsSorted : (xs : List Row) → IsSorted (ssort rank xs) × Perm (ssort rank xs) xs
  unfolding ssort ssort_from
  ssort-IsSorted [] = ((λ i j ij len. absurd (omega arith)), Perm.refl [])
  ssort-IsSorted (x ∷ xs) =
      let last : suc (length xs) - 1 ≡ length xs = omega arith in
      rw last (in_order, ssort_from-perm (length xs) (x ∷ xs) (omega arith))
    where
      in_order : IsSorted (ssort_from rank (length xs) (x ∷ xs))
      in_order zero zero ij len = omega arith
      in_order (suc i) zero ij len = absurd (omega arith)
      in_order i (suc j) ij len =
          ssort_from-Placed (length xs) (x ∷ xs) (omega arith)
            (λ a b ab lo fit. absurd (omega arith)) i (suc j) ij (omega arith) len
