-- ===== src/Ipc/Sort/Quick/Cuts.antt =====
-- What is left to be sorted behind the loops of `_shm_qsort`.
use my_resource.Base.{ℕ, suc, ◌*◌, ◌^◌, ◌<◌, ◌≤◌, ◌≡◌, ◌⊎◌, inl, inr, List, ◌∷◌, arith, length}
use native.Mathlib.Decide.{dec_lt}
use native.Mathlib.Nat.{pow-le-pow_right, mul-le-mul_right, pow-suc}
use my_resource.Ipc.Rows.{Row, row}
use my_resource.Ipc.Sort.Quick.{Guys, Stack}
use my_resource.Ipc.Sort.Quick.Rounds.{Skipped}
use my_resource.Ipc.Sort.Quick.Part.{Parted}
use my_resource.Ipc.Sort.Quick.Pending.{Within, Ordered}

halved : (a b p n : ℕ) → 2 * a ≤ b → b * p ≤ n → a * (p * 2) ≤ n
halved a b p n h k =
    let double : a * (p * 2) ≡ (2 * a) * p = grind arith in omega (arith, mul-le-mul_right p h)

-- One part more below it, and half as long.
pub deeper : (a b k n : ℕ) → 2 * a ≤ b → b * 2 ^ k ≤ n → a * 2 ^ suc k ≤ n
deeper a b k n h d = rw (pow-suc 2 k) (halved a b (2 ^ k) n h d)

pub shorter : (a b p n : ℕ) → a ≤ b → b * p ≤ n → a * p ≤ n
shorter a b p n h k = grind arith

-- A part of some length lies not too deep.
pub shallow : (size k t n : ℕ) → 0 < size → size * 2 ^ k ≤ n → n < 2 ^ t → k < t
shallow size k t n pos deep small = elim (dec_lt k t) [
  | yes less ↦ less
  | no deeper ↦
      let power : 2 ^ t ≤ 2 ^ k = pow-le-pow_right (omega arith) (omega arith) in
      let once : 1 * 2 ^ k ≤ size * 2 ^ k = mul-le-mul_right (2 ^ k) pos in absurd (omega arith)
]

-- The records from `lo` to `hi` behind the loops: those up to `h`, and those from `l` on.
module _ (rank : Row → ℕ) (lo hi h : ℕ) (ps : Stack) (g : Guys) where
  unfoldable pub Cut : Type 0
  Cut =
      (i j : ℕ)
      → i ≤ j
      → j < length g.rows
      → (rank (row g.rows i) ≤ rank (row g.rows j))
        ⊎ (((lo ≤ i) × (j ≤ h)) ⊎ (((g.loguy ≤ i) × (j ≤ hi)) ⊎ Within i j ps))

  pub cut-Ordered :
      Parted rank lo hi g → Skipped rank lo g h → Ordered rank ((lo, hi) ∷ ps) g.rows → Cut
  unfolding Cut
  cut-Ordered p s ordered i j ij len = elim (ordered i j ij len) [
    | inl le ↦ inl le
    | inr (inr w) ↦ inr (inr (inr w))
    | inr (inl (from, to)) ↦ elim (dec_lt h j) [
      | no below ↦ inr (inl (from, omega arith))
      | yes above ↦ elim (dec_lt i g.loguy) [
        | no over ↦ inr (inr (inl (omega arith, to)))
        | yes under ↦ inl (elim (dec_lt g.higuy j) [
          | yes far ↦ omega (arith, p.lower i from under, p.upper j far to)
          | no near ↦ omega (arith, p.lower i from under, s.2 j above (omega arith))
        ])
      ]
    ]
  ]

  -- The parts that are left, in the three ways they are pending.
  pub upper_first : Cut → Ordered rank ((g.loguy, hi) ∷ (lo, h) ∷ ps) g.rows
  unfolding Cut
  upper_first cut i j ij len = elim (cut i j ij len) [
    | inl le ↦ inl le
    | inr (inl w) ↦ inr (inr (inl w))
    | inr (inr (inl w)) ↦ inr (inl w)
    | inr (inr (inr w)) ↦ inr (inr (inr w))
  ]

  pub lower_first : Cut → Ordered rank ((lo, h) ∷ (g.loguy, hi) ∷ ps) g.rows
  unfolding Cut
  lower_first cut i j ij len = elim (cut i j ij len) [
    | inl le ↦ inl le
    | inr (inl w) ↦ inr (inl w)
    | inr (inr (inl w)) ↦ inr (inr (inl w))
    | inr (inr (inr w)) ↦ inr (inr (inr w))
  ]

-- A part of at most one record is in order.
pub drop_first :
    (rank : Row → ℕ) (a b : ℕ) (ps : Stack) (xs : List Row)
    → b ≤ a
    → Ordered rank ((a, b) ∷ ps) xs
    → Ordered rank ps xs
drop_first rank a b ps xs short ordered i j ij len = elim (ordered i j ij len) [
  | inl le ↦ inl le
  | inr (inl (from, to)) ↦ let e : i ≡ j = omega arith in inl (rw e (omega arith))
  | inr (inr w) ↦ inr w
]

pub drop_second :
    (rank : Row → ℕ) (p : ℕ × ℕ) (a b : ℕ) (ps : Stack) (xs : List Row)
    → b ≤ a
    → Ordered rank (p ∷ (a, b) ∷ ps) xs
    → Ordered rank (p ∷ ps) xs
drop_second rank p a b ps xs short ordered i j ij len = elim (ordered i j ij len) [
  | inl le ↦ inl le
  | inr (inl w) ↦ inr (inl w)
  | inr (inr (inl (from, to))) ↦ let e : i ≡ j = omega arith in inl (rw e (omega arith))
  | inr (inr (inr w)) ↦ inr (inr w)
]
