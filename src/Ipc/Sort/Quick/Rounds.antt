-- ===== src/Ipc/Sort/Quick/Rounds.antt =====
-- Where the loops of `_shm_qsort` over records stop, and what they have passed.
use my_resource.Base.{
  ℕ, zero, suc, ◌+◌, ◌-◌, ◌<◌, ◌≤◌, ◌≡◌, ◌≢◌, inl, inr, true, ◌&&◌, List, ltb, leb, ◌==◌, arith,
  Bool-cases,
}
use my_resource.Ipc.Rows.{Row, row}
use my_resource.Ipc.Sort.Quick.{Guys, up, down, down_equal, next_lo, skip_equal}

module _ (rank : Row → ℕ) (xs : List Row) (mid : ℕ) where
  -- The records strictly between two indices.
  abbrev pub NotAbove : ℕ → ℕ → Type 0
  NotAbove a b = (q : ℕ) → a < q → q < b → rank (row xs q) ≤ rank (row xs mid)

  abbrev pub NotBelow : ℕ → ℕ → Type 0
  NotBelow a b = (q : ℕ) → a < q → q < b → rank (row xs mid) ≤ rank (row xs q)

  abbrev pub Equal : ℕ → ℕ → Type 0
  Equal a b = (q : ℕ) → a < q → q < b → rank (row xs q) ≡ rank (row xs mid)

  -- `up` stops at `l`.
  abbrev pub Up : ℕ → ℕ → ℕ → Type 0
  Up end i l = (i < l) × (l ≤ end) × NotAbove i l × (l < end → rank (row xs mid) < rank (row xs l))

  pub up-Up : (k end i : ℕ) → end ≤ k + i → i < end → Up end i (up rank k xs mid end i)
  unfolding up
  up-Up zero end i enough h = absurd (omega arith)
  up-Up (suc k) end i enough h =
      elim (Bool-cases (ltb (i + 1) end && leb (rank (row xs (i + 1))) (rank (row xs mid)))) [
        | inl more ↦
            let inside : i + 1 < end = ground arith in
            let low : rank (row xs (i + 1)) ≤ rank (row xs mid) = ground arith in
            let rest = up-Up k end (i + 1) (omega arith) inside in
            rw more (omega arith, rest.1, (λ q a b. ground (arith, rest.2 q)), rest.3)
        | inr done ↦
            rw done
              (omega arith, omega arith, (λ q a b. absurd (omega arith)), (λ lt. ground arith))
      ]

  -- `down` stops at `l`.
  abbrev pub Down : ℕ → ℕ → Type 0
  Down i l = (mid ≤ l) × (l < i) × NotBelow l i × (mid < l → rank (row xs l) ≤ rank (row xs mid))

  pub down-Down : (k i : ℕ) → i ≤ k + mid → mid < i → Down i (down rank k xs mid i)
  unfolding down
  down-Down zero i enough h = absurd (omega arith)
  down-Down (suc k) i enough h =
      elim (Bool-cases (ltb mid (i - 1) && ltb (rank (row xs mid)) (rank (row xs (i - 1))))) [
        | inl more ↦
            let inside : mid < i - 1 = ground arith in
            let high : rank (row xs mid) < rank (row xs (i - 1)) = ground arith in
            let rest = down-Down k (i - 1) (omega arith) inside in
            rw more (rest.0, omega arith, (λ q a b. ground (arith, rest.2 q)), rest.3)
        | inr done ↦
            rw done
              (omega arith, omega arith, (λ q a b. absurd (omega arith)), (λ lt. ground arith))
      ]

  -- `down_equal` stops at `l`.
  abbrev pub DownEqual : ℕ → ℕ → ℕ → Type 0
  DownEqual start i l = (start ≤ l) × (l < i) × Equal l i

  pub down_equal-DownEqual :
      (k start i : ℕ)
      → i ≤ k + start
      → start < i
      → DownEqual start i (down_equal rank k xs mid start i)
  unfolding down_equal
  down_equal-DownEqual zero start i enough h = absurd (omega arith)
  down_equal-DownEqual (suc k) start i enough h =
      elim (Bool-cases (ltb start (i - 1) && rank (row xs (i - 1)) == rank (row xs mid))) [
        | inl more ↦
            let inside : start < i - 1 = ground arith in
            let same : rank (row xs (i - 1)) ≡ rank (row xs mid) = ground arith in
            let rest = down_equal-DownEqual k start (i - 1) (omega arith) inside in
            rw more (rest.0, omega arith, λ q a b. ground (arith, rest.2 q))
        | inr done ↦ rw done (omega arith, omega arith, λ q a b. absurd (omega arith))
      ]

  -- `next_lo` stops at `l`, which is not the middle.
  abbrev pub NextLo : ℕ → ℕ → ℕ → Type 0
  NextLo hi i l =
      (i < l)
      × (l ≤ hi + 1)
      × (l ≢ mid)
      × NotAbove i l
      × (l ≤ hi → rank (row xs mid) < rank (row xs l))

  behind-NextLo :
      (hi i first : ℕ)
      → mid ≤ first
      → first ≤ hi
      → i ≤ first
      → ((q : ℕ) → i < q → q < first + 1 → rank (row xs q) ≤ rank (row xs mid))
      → NextLo hi i (up rank (hi + 1 - first) xs mid (hi + 1) first)
  behind-NextLo hi i first above fits from passed =
      let (far, inside, low, high) =
        up-Up (hi + 1 - first) (hi + 1) first (omega arith) (omega arith) in
      (
        omega arith,
        inside,
        omega arith,
        λ q a b. ground (arith, low q, passed q),
        λ lt. high (omega arith),
      )

  pub next_lo-NextLo : (hi i : ℕ) → i ≤ hi → mid ≤ hi → NextLo hi i (next_lo rank xs mid hi i)
  unfolding next_lo
  next_lo-NextLo hi i fits inside = elim (Bool-cases (ltb i mid)) [
    | inr above ↦
        let over : leb mid i ≡ true = ground arith in
        rw (above, over)
          (behind-NextLo hi i i (ground arith) fits (omega arith) (λ q a b. absurd (omega arith)))
    | inl below ↦
        let first = up rank (mid - i) xs mid mid i in
        let (far, under, low, high) = up-Up (mid - i) mid i (omega arith) (ground arith) in
        elim (Bool-cases (leb mid first)) [
          | inl over ↦
              rw (below, over)
                (behind-NextLo hi i first (ground arith) (omega arith) (omega arith)
                  (λ q a b. ground (arith, low q)))
          | inr short ↦
              let less : first < mid = ground arith in
              rw (below, short) (far, omega arith, omega arith, low, λ lt. high less)
        ]
  ]

-- `skip_equal` stops at `l`.
module _ (rank : Row → ℕ) where
  abbrev pub Skipped : ℕ → Guys → ℕ → Type 0
  Skipped lo g l = (lo ≤ l) × (l ≤ g.higuy) × Equal rank g.rows g.mid l (g.higuy + 1)

  pub skip_equal-Skipped :
      (lo : ℕ) (g : Guys) → lo < g.mid → g.mid ≤ g.higuy → Skipped lo g (skip_equal rank lo g)
  unfolding skip_equal
  skip_equal-Skipped lo g before behind =
      let first = g.higuy + 1 in
      let above : ltb g.mid first ≡ true = ground arith in
      let second = down_equal rank (first - g.mid) g.rows g.mid g.mid first in
      let (from, under, same) =
        down_equal-DownEqual rank g.rows g.mid (first - g.mid) g.mid first (omega arith)
          (omega arith) in
      elim (Bool-cases (leb second g.mid)) [
        | inr stays ↦ rw (above, stays) (omega arith, omega arith, same)
        | inl goes ↦
            let at : second ≤ g.mid = ground arith in
            let (from', under', same') =
              down_equal-DownEqual rank g.rows g.mid (second - lo) lo second (omega arith)
                (omega arith) in
            rw (above, goes) (from', omega arith, λ q a b. ground (arith, same q, same' q))
      ]
