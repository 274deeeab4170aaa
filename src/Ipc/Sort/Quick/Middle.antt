-- ===== src/Ipc/Sort/Quick/Middle.antt =====
-- The records from `lo` to `hi` are parted at a middle one that is neither the least nor the greatest
-- of three.
use my_resource.Base.{
  ℕ, ◌+◌, ◌-◌, ◌/◌, ◌<◌, ◌≤◌, ◌≡◌, ap, inl, inr, Bool-cases, List, ltb, arith, length,
}
use my_resource.Base.Fault.{Gives}
use my_resource.Ipc.Rows.{Row, row}
use my_resource.Ipc.Sort.Quick.{order, median, parted}
use my_resource.Ipc.Sort.Quick.Part.{
  Between, Parted, Kept, part-Parted, order_pair, order_other, length-order,
}

module _ (rank : Row → ℕ) (lo hi : ℕ) where
  order-Kept :
      (P : List Row → Type 0)
      → Kept rank lo hi P
      → (a b : ℕ) (xs : List Row) → lo ≤ a
      → a ≤ hi
      → lo ≤ b
      → b ≤ hi
      → hi < length xs
      → P xs
      → P (order rank a b xs)
  unfolding order
  order-Kept P keep a b xs la ah lb bh fit p =
      elim (Bool-cases (ltb (rank (row xs b)) (rank (row xs a)))) [
        | inl more ↦ rw more (keep xs a b la ah lb bh fit p)
        | inr stays ↦ rw stays p
      ]

  module _ (mid : ℕ) (xs : List Row) (above : lo < mid) (below : mid < hi)
      (fit : hi < length xs) where
    abbrev first : List Row
    first = order rank lo mid xs

    abbrev second : List Row
    second = order rank lo hi first

    abbrev third : List Row
    third = order rank mid hi second

    lengths : (length first ≡ length xs) × (length second ≡ length xs) × (length third ≡ length xs)
    lengths = omega (
      arith,
      length-order rank lo hi lo mid xs,
      length-order rank lo hi lo hi first,
      length-order rank lo hi mid hi second,
    )

    third_order :
        (rank (row third lo) ≤ rank (row third mid)) × (rank (row third mid) ≤ rank (row third hi))
    third_order =
        let (e1, e2, e3) = lengths in
        let (a0, a1, a2) =
          order_pair rank lo hi lo mid xs (omega arith) (omega arith) (omega arith) in
        let (b0, b1, b2) =
          order_pair rank lo hi lo hi first (omega arith) (omega arith) (omega arith) in
        let (c0, c1, c2) =
          order_pair rank lo hi mid hi second (omega arith) (omega arith) (omega arith) in
        let same_lo =
          order_other rank lo hi mid hi second lo (omega arith) (omega arith) (omega arith)
            (omega arith) in
        let same_mid =
          order_other rank lo hi lo hi first mid (omega arith) (omega arith) (omega arith)
            (omega arith) in
        let lo_eq = ap rank same_lo in
        let mid_eq = ap rank same_mid in (elim c2 [ inl e ↦ omega arith | inr e ↦ omega arith ], c0)

    start-Between : Between rank lo hi (record { rows = third; mid = mid; loguy = lo; higuy = hi })
    start-Between =
        let (e1, e2, e3) = lengths in
        let (left, right) = third_order in
        record {
          starts = omega arith;
          meets = omega arith;
          fits = omega arith;
          before = above;
          behind = below;
          inside = omega arith;
          lower = λ q from to. let e : q ≡ lo = omega arith in rw e left;
          upper = λ q from to. let e : q ≡ hi = omega arith in rw e right;
        }

    third-Kept : (P : List Row → Type 0) → Kept rank lo hi P → P xs → P third
    third-Kept P keep p =
        let (e1, e2, e3) = lengths in
        order-Kept P keep mid hi second (omega arith) (omega arith) (omega arith) (omega arith)
          (omega arith)
          (order-Kept P keep lo hi first (omega arith) (omega arith) (omega arith) (omega arith)
            (omega arith)
            (order-Kept P keep lo mid xs (omega arith) (omega arith) (omega arith) (omega arith) fit
              p))

  -- A part of more than two records is parted.
  pub parted-Parted :
      (P : List Row → Type 0)
      → Kept rank lo hi P
      → (xs : List Row) → lo + 2 < hi
      → hi < length xs
      → P xs
      → Gives (λ r. Parted rank lo hi r × P r.rows) (parted rank lo hi xs)
  unfolding parted median
  parted-Parted P keep xs large fit p =
      let mid = lo + (hi - lo + 1) / 2 in
      let above : lo < mid = omega arith in
      let below : mid < hi = omega arith in
      part-Parted rank lo hi P keep (hi + 2) _ (omega arith) (start-Between mid xs above below fit)
        (third-Kept mid xs above below fit P keep p)
