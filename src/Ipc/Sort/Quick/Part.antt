-- ===== src/Ipc/Sort/Quick/Part.antt =====
-- The loop that parts the records from `lo` to `hi` at the one in the middle.
use my_resource.Base.{
  ℕ, zero, suc, ◌+◌, ◌-◌, ◌<◌, ◌≤◌, ◌≡◌, ◌≢◌, ◌⊎◌, refl, inl, inr, List, ltb, ◌==◌, if◌then◌else◌,
  arith, Bool-cases, length,
}
use my_resource.Base.Fault.{Gives}
use my_resource.Ipc.Rows.{Row, row, swap, row-swap, length-swap}
use my_resource.Ipc.Sort.Quick.{Guys, down, next_lo, order, part}
use my_resource.Ipc.Sort.Quick.Rounds.{NextLo, next_lo-NextLo, Down, down-Down}

module _ (rank : Row → ℕ) (lo hi : ℕ) where
  -- Between two rounds of the loop.
  pub record Between (g : Guys) : Type 0 where
    pub starts : lo ≤ g.loguy
    pub meets : g.loguy ≤ hi
    pub fits : g.higuy ≤ hi
    pub before : lo < g.mid
    pub behind : g.mid < g.higuy
    pub inside : hi < length g.rows
    pub lower : (q : ℕ) → lo ≤ q → q ≤ g.loguy → rank (row g.rows q) ≤ rank (row g.rows g.mid)
    pub upper : (q : ℕ) → g.higuy ≤ q → q ≤ hi → rank (row g.rows g.mid) ≤ rank (row g.rows q)

  -- Behind the loop: below `loguy` no record is greater than the middle one, and above `higuy` none is
  -- less.
  pub record Parted (g : Guys) : Type 0 where
    pub starts : lo < g.loguy
    pub meets : g.loguy ≤ hi + 1
    pub fits : g.higuy < hi
    pub crossed : g.higuy < g.loguy
    pub before : lo < g.mid
    pub behind : g.mid ≤ g.higuy
    pub inside : hi < length g.rows
    pub lower : (q : ℕ) → lo ≤ q → q < g.loguy → rank (row g.rows q) ≤ rank (row g.rows g.mid)
    pub upper : (q : ℕ) → g.higuy < q → q ≤ hi → rank (row g.rows g.mid) ≤ rank (row g.rows q)

  module _ (g : Guys) (b : Between g) (l h : ℕ) (n : NextLo rank g.rows g.mid hi g.loguy l)
      (d : Down rank g.rows g.mid g.higuy h) where
    crossed-Parted : h < l → Parted (record g { loguy = l; higuy = h })
    crossed-Parted lt =
        let starts = b.starts in
        let fits = b.fits in
        let (n0, n1, n2, n3, n4) = n in
        let (d0, d1, d2, d3) = d in
        record {
          starts = omega arith;
          meets = n1;
          fits = omega arith;
          crossed = lt;
          before = b.before;
          behind = d0;
          inside = b.inside;
          lower = λ q from to. ground (arith, b.lower q, n3 q);
          upper = λ q from to. ground (arith, b.upper q, d2 q);
        }

    -- The round that exchanges two records.
    abbrev moved : Guys
    moved = record {
      rows = swap g.rows l h;
      mid = if g.mid == h then l else g.mid;
      loguy = l;
      higuy = h;
    }

    -- The middle one stays the middle one.
    moved_mid : l ≤ h → rank (row moved.rows moved.mid) ≡ rank (row g.rows g.mid)
    moved_mid le =
        let starts = b.starts in
        let fits = b.fits in
        let before = b.before in
        let inside = b.inside in
        let (n0, n1, n2, n3, n4) = n in
        let (d0, d1, d2, d3) = d in
        let at = λ (q : ℕ). row-swap g.rows l h (omega arith) (omega arith) q in
        elim (Bool-cases (g.mid == h)) [
          | inl same ↦ rw same (ground (arith, at l))
          | inr other ↦ rw other (ground (arith, at g.mid))
        ]

    moved-Between : l ≤ h → Between moved
    moved-Between le =
        let starts = b.starts in
        let fits = b.fits in
        let before = b.before in
        let inside = b.inside in
        let (n0, n1, n2, n3, n4) = n in
        let (d0, d1, d2, d3) = d in
        let at = λ (q : ℕ). row-swap g.rows l h (omega arith) (omega arith) q in
        record {
          starts = omega arith;
          meets = omega arith;
          fits = omega arith;
          before = ground arith;
          behind = ground arith;
          inside = omega (arith, length-swap g.rows l h);
          lower = λ q from to. rw (moved_mid le) (ground (arith, at q, b.lower q, n3 q));
          upper = λ q from to. rw (moved_mid le) (ground (arith, at q, b.upper q, d2 q));
        }

  -- What swaps between `lo` and `hi` keep.
  abbrev pub Kept : (List Row → Type 0) → Type 0
  Kept P =
      (xs : List Row) (a b : ℕ)
      → lo ≤ a
      → a ≤ hi
      → lo ≤ b
      → b ≤ hi
      → hi < length xs
      → P xs
      → P (swap xs a b)

  module _ (P : List Row → Type 0) (keep : Kept P) where
    -- The loop ends, since `higuy` falls.
    pub part-Parted :
        (fuel : ℕ) (g : Guys)
        → g.higuy < fuel
        → Between g
        → P g.rows
        → Gives (λ r. Parted r × P r.rows) (part rank fuel hi g)
    unfolding part
    part-Parted zero g enough b p = absurd (omega arith)
    part-Parted (suc fuel) g enough b p =
        let starts = b.starts in
        let fits = b.fits in
        let behind = b.behind in
        let before = b.before in
        let l = next_lo rank g.rows g.mid hi g.loguy in
        let h = down rank (g.higuy - g.mid) g.rows g.mid g.higuy in
        let n = next_lo-NextLo rank g.rows g.mid hi g.loguy b.meets (omega arith) in
        let d = down-Down rank g.rows g.mid (g.higuy - g.mid) g.higuy (omega arith) behind in
        let far = n.0 in
        let back = d.1 in
        let over = d.0 in
        elim (Bool-cases (ltb h l)) [
          | inl done ↦ rw done (crossed-Parted g b l h n d (ground arith), p)
          | inr more ↦
              let le : l ≤ h = ground arith in
              rw more (
                part-Parted fuel (moved g b l h n d) (omega arith) (moved-Between g b l h n d le) (
                  keep g.rows l h (omega arith) (omega arith) (omega arith) (omega arith) b.inside
                    p))
        ]

  -- Two records in order.
  pub order_pair :
      (a b : ℕ) (xs : List Row)
      → a ≢ b
      → a < length xs
      → b < length xs
      → (rank (row (order rank a b xs) a) ≤ rank (row (order rank a b xs) b))
        × (rank (row (order rank a b xs) a) ≤ rank (row xs a))
        × ((rank (row (order rank a b xs) a) ≡ rank (row xs a))
            ⊎ (rank (row (order rank a b xs) a) ≡ rank (row xs b)))
  unfolding order
  order_pair a b xs differ fit_a fit_b =
      let at_a = row-swap xs a b fit_a fit_b a in
      let at_b = row-swap xs a b fit_a fit_b b in
      elim (Bool-cases (ltb (rank (row xs b)) (rank (row xs a)))) [
        | inl more ↦ rw more (ground arith, ground arith, inr (ground arith))
        | inr stays ↦ rw stays (ground arith, ground arith, inl refl)
      ]

  pub order_other :
      (a b : ℕ) (xs : List Row) (q : ℕ)
      → a < length xs
      → b < length xs
      → q ≢ a
      → q ≢ b
      → row (order rank a b xs) q ≡ row xs q
  unfolding order
  order_other a b xs q fit_a fit_b x y = ground (arith, row-swap xs a b fit_a fit_b q)

  pub length-order : (a b : ℕ) (xs : List Row) → length (order rank a b xs) ≡ length xs
  unfolding order
  length-order a b xs = ground (arith, length-swap xs a b)
