-- ===== src/Ipc/Sort/Quick/Sorted.antt =====
-- `_shm_qsort` sorts a block.
use my_resource.Base.{
  ℕ, zero, suc, ◌+◌, ◌-◌, ◌^◌, ◌<◌, ◌≤◌, ◌≡◌, refl, ◌∙◌, inl, inr, Bool-cases, List, [], ◌∷◌, ltb,
  leb, arith, length,
}
use mathlib.Core.List.{Perm}
use mathlib.Core.List.Perm
use my_resource.Base.Fault.{Gives, Gives->>=}
use my_resource.Ipc.Rows.{Row}
use my_resource.Ipc.Sort.{ssort}
use my_resource.Ipc.Sort.Selection.{IsSorted, ssort-IsSorted, length-ssort_from}
use my_resource.Ipc.Sort.Quick.{Stack, stack_size, cutoff, parted, skip_equal, qsort_from, qsort}
use my_resource.Ipc.Sort.Quick.Rounds.{skip_equal-Skipped}
use my_resource.Ipc.Sort.Quick.Part.{Parted}
use my_resource.Ipc.Sort.Quick.Middle.{parted-Parted}
use my_resource.Ipc.Sort.Quick.Pending.{total, Inv, Same, Same-Kept}
use my_resource.Ipc.Sort.Quick.Step.{Sorted, pop-Gives, no_part, split-Gives}

module _ (rank : Row → ℕ) (start : List Row) (small : length start < 2 ^ stack_size) where
  length-ssort : (xs : List Row) → length (ssort rank xs) ≡ length xs
  unfolding ssort
  length-ssort xs = length-ssort_from rank (length xs - 1) xs

  qsort_from-Gives :
      (fuel : ℕ) (xs : List Row) (lo hi : ℕ) (ps : Stack)
      → Inv rank start ((lo, hi) ∷ ps) xs
      → total ((lo, hi) ∷ ps) < fuel
      → Gives (Sorted rank start small) (qsort_from rank fuel xs lo hi ps)
  unfolding qsort_from
  qsort_from-Gives zero xs lo hi ps inv enough = absurd (omega arith)
  qsort_from-Gives (suc fuel) xs lo hi ps inv enough =
      let wide = inv.fits.0 in
      let inside = inv.fits.1 in
      elim (Bool-cases (leb (hi - lo + 1) cutoff)) [
        | inl few ↦
            let sorted = ssort-IsSorted rank xs in
            rw few (
              pop-Gives rank start small fuel (qsort_from rank fuel) (qsort_from-Gives fuel) ps
                (ssort rank xs)
                (no_part rank start small lo hi ps xs (ssort rank xs) inv
                  (Perm.trans sorted.1 inv.perm) (length-ssort xs ∙ inv.long)
                  (λ i j ij len. inl (sorted.0 i j ij len)))
                (omega arith))
        | inr many ↦
            let large : lo + 2 < hi = ground arith in
            rw many (
              Gives->>= (λ r. Parted rank lo hi r × Same rank start ((lo, hi) ∷ ps) r.rows)
                (Sorted rank start small) (parted rank lo hi xs) _
                (parted-Parted rank lo hi (Same rank start ((lo, hi) ∷ ps))
                  (Same-Kept rank start lo hi ps inv.disjoint.0) xs large (omega (arith, inv.long))
                  (inv.ordered, inv.perm, inv.long))
                (λ g r.
                  split-Gives rank start small fuel (qsort_from rank fuel) (qsort_from-Gives fuel)
                    lo hi ps xs inv enough g (skip_equal rank lo g) r.0
                    (skip_equal-Skipped rank lo g r.0.before r.0.behind) r.1))
      ]

-- At first the whole block is to be sorted.
start_Inv :
    (rank : Row → ℕ) (xs : List Row) → 2 ≤ length xs → Inv rank xs ((0, length xs - 1) ∷ []) xs
start_Inv rank xs many = record {
  ordered = λ i j ij len. inr (inl (omega arith, omega arith));
  disjoint = (tt, tt);
  fits = (omega arith, omega arith, tt);
  deep = (omega arith, tt);
  perm = Perm.refl xs;
  long = refl;
}

-- `_shm_qsort` sorts every block whose data is a whole number of records, fewer than 2 ^ 62, with an
-- index field that ends inside of the record: it ends, its stack does not overflow, and what it leaves
-- is the same records in the order of the index field.
pub qsort-IsSorted :
    (rank : Row → ℕ) (xs : List Row)
    → length xs < 2 ^ stack_size
    → Gives (λ ys. IsSorted rank ys × Perm ys xs) (qsort rank xs)
unfolding qsort
qsort-IsSorted rank xs small = elim (Bool-cases (ltb (length xs) 2)) [
  | inl short ↦ rw short (
    (λ i j ij len.
        let few : length xs < 2 = ground arith in
        let e : i ≡ j = omega arith in rw e (omega arith)),
    Perm.refl xs,
  )
  | inr long ↦
      let many : 2 ≤ length xs = ground arith in
      rw long (
        qsort_from-Gives rank xs small (length xs + 1) xs 0 (length xs - 1) []
          (start_Inv rank xs many) (omega arith))
]
