-- ===== src/Ipc/Sort/Quick/Pending.antt =====
-- The parts of the block that are still to be sorted: the current one and those on the stack.
use my_resource.Base.{
  ℕ, ◌+◌, ◌-◌, ◌*◌, ◌^◌, ◌<◌, ◌≤◌, ◌≡◌, ◌⊎◌, inl, inr, List, [], ◌∷◌, ◌==◌, if◌then◌else◌, arith,
  length,
}
use mathlib.Core.List.{Perm}
use mathlib.Core.List.Perm
use my_resource.Ipc.Rows.{Row, row, swap, row-swap, length-swap, swap-perm}
use my_resource.Ipc.Sort.Quick.{Stack}
use my_resource.Ipc.Sort.Quick.Part.{Kept}

-- Two records lie in one part.
abbrev pub Within : ℕ → ℕ → Stack → Type 0
Within i j [] = ⊥
Within i j ((a, b) ∷ ps) = ((a ≤ i) × (j ≤ b)) ⊎ Within i j ps

-- No part meets the records from `lo` to `hi`.
abbrev pub Apart : ℕ → ℕ → Stack → Type 0
Apart lo hi [] = Unit
Apart lo hi ((a, b) ∷ ps) = (b < lo ⊎ hi < a) × Apart lo hi ps

abbrev pub Disjoint : Stack → Type 0
Disjoint [] = Unit
Disjoint ((a, b) ∷ ps) = Apart a b ps × Disjoint ps

abbrev pub Fits : ℕ → Stack → Type 0
Fits n [] = Unit
Fits n ((a, b) ∷ ps) = (a < b) × (b < n) × Fits n ps

-- A part is no longer than the block halved as often as there are parts below it.
abbrev pub Deep : ℕ → Stack → Type 0
Deep n [] = Unit
Deep n ((a, b) ∷ ps) = ((b + 1 - a) * 2 ^ length ps ≤ n) × Deep n ps

abbrev pub total : Stack → ℕ
total [] = 0
total ((a, b) ∷ ps) = (b - a) + total ps

pub Apart-Within :
    (lo hi x i j : ℕ) (ps : Stack)
    → Apart lo hi ps
    → i ≤ x
    → x ≤ j
    → lo ≤ x
    → x ≤ hi
    → Within i j ps
    → ⊥
Apart-Within lo hi x i j [] apart a b c d w = w
Apart-Within lo hi x i j ((e, f) ∷ ps) apart a b c d (inl w) = elim apart.0 [
  | inl g ↦ omega arith
  | inr g ↦ omega arith
]
Apart-Within lo hi x i j ((e, f) ∷ ps) apart a b c d (inr w) =
    Apart-Within lo hi x i j ps apart.1 a b c d w

pub Apart-mono :
    (lo hi lo' hi' : ℕ) (ps : Stack) → Apart lo hi ps → lo ≤ lo' → hi' ≤ hi → Apart lo' hi' ps
Apart-mono lo hi lo' hi' [] apart a b = tt
Apart-mono lo hi lo' hi' ((e, f) ∷ ps) apart a b = (
  elim apart.0 [ inl g ↦ inl (omega arith) | inr g ↦ inr (omega arith) ],
  Apart-mono lo hi lo' hi' ps apart.1 a b,
)

module _ (rank : Row → ℕ) where
  -- Two records are in order, or in one part.
  abbrev pub Ordered : Stack → List Row → Type 0
  Ordered ps xs =
      (i j : ℕ) → i ≤ j → j < length xs → (rank (row xs i) ≤ rank (row xs j)) ⊎ Within i j ps

  -- Exchanges within the current part keep that.
  swap-Ordered :
      (lo hi : ℕ) (ps : Stack) (xs : List Row) (a b : ℕ)
      → Apart lo hi ps
      → lo ≤ a
      → a ≤ hi
      → lo ≤ b
      → b ≤ hi
      → hi < length xs
      → Ordered ((lo, hi) ∷ ps) xs
      → Ordered ((lo, hi) ∷ ps) (swap xs a b)
  swap-Ordered lo hi ps xs a b apart la ah lb bh fit ordered i j ij len =
      moved (if b == i then a else if a == i then b else i)
        (if b == j then a else if a == j then b else j)
        (ground (arith, row-swap xs a b (omega arith) (omega arith) i))
        (ground (arith, row-swap xs a b (omega arith) (omega arith) j)) (ground arith)
        (ground arith) (omega (arith, length-swap xs a b))
    where
      moved :
          (i' j' : ℕ)
          → row (swap xs a b) i ≡ row xs i'
          → row (swap xs a b) j ≡ row xs j'
          → ((lo ≤ i) × (i ≤ hi) × (lo ≤ i') × (i' ≤ hi)) ⊎ ((i' ≡ i) × (i < lo ⊎ hi < i))
          → ((lo ≤ j) × (j ≤ hi) × (lo ≤ j') × (j' ≤ hi)) ⊎ ((j' ≡ j) × (j < lo ⊎ hi < j))
          → j < length xs
          → (rank (row (swap xs a b) i) ≤ rank (row (swap xs a b) j)) ⊎ Within i j ((lo, hi) ∷ ps)
      moved i' j' at_i at_j (inl x) (inl y) fit_j = inr (inl (x.0, y.1))
      moved i' j' at_i at_j (inl x) (inr y) fit_j =
          let behind : hi < j = elim y.1 [ inl f ↦ absurd (omega arith) | inr f ↦ f ] in
          elim (ordered i' j (omega arith) fit_j) [
            | inl le ↦ inl (rw (at_i, at_j, y.0) le)
            | inr (inl w) ↦ absurd (omega arith)
            | inr (inr w) ↦ absurd (
                Apart-Within lo hi i' i' j ps apart (omega arith) (omega arith) (omega arith)
                  (omega arith) w)
          ]
      moved i' j' at_i at_j (inr x) (inl y) fit_j =
          let before : i < lo = elim x.1 [ inl f ↦ f | inr f ↦ absurd (omega arith) ] in
          elim (ordered i j' (omega arith) (omega arith)) [
            | inl le ↦ inl (rw (at_i, at_j, x.0) le)
            | inr (inl w) ↦ absurd (omega arith)
            | inr (inr w) ↦ absurd (
                Apart-Within lo hi j' i j' ps apart (omega arith) (omega arith) (omega arith)
                  (omega arith) w)
          ]
      moved i' j' at_i at_j (inr x) (inr y) fit_j = elim (ordered i j ij fit_j) [
        | inl le ↦ inl (rw (at_i, at_j, x.0, y.0) le)
        | inr w ↦ inr w
      ]

  -- The state at the label `recurse` and at a pop: what was sorted is the block `start`.
  pub record Inv (start : List Row) (ps : Stack) (xs : List Row) : Type 0 where
    pub ordered : Ordered ps xs
    pub disjoint : Disjoint ps
    pub fits : Fits (length start) ps
    pub deep : Deep (length start) ps
    pub perm : Perm xs start
    pub long : length xs ≡ length start

  -- What the exchanges in the current part keep of it.
  abbrev pub Same : List Row → Stack → List Row → Type 0
  Same start ps xs = Ordered ps xs × Perm xs start × (length xs ≡ length start)

  pub Same-Kept :
      (start : List Row) (lo hi : ℕ) (ps : Stack)
      → Apart lo hi ps
      → Kept rank lo hi (Same start ((lo, hi) ∷ ps))
  Same-Kept start lo hi ps apart xs a b la ah lb bh fit p = (
    swap-Ordered lo hi ps xs a b apart la ah lb bh fit p.0,
    Perm.trans (swap-perm xs a b (omega arith) (omega arith)) p.1,
    omega (arith, length-swap xs a b, p.2),
  )
