-- ===== src/Ipc/Rows.antt =====
-- An array of records, each the list of its bytes.
use my_resource.Base.{
  ℕ, zero, suc, ◌<◌, ◌≡◌, List, [], ◌∷◌, arith, Bool, length, set, length-set, ◌==◌, if◌then◌else◌,
}
use mathlib.Core.List.{Perm}
use mathlib.Core.List.Perm

abbrev pub Row : Type 0
Row = List ℕ

unfoldable pub row : List Row → ℕ → Row
row [] i = []
row (x ∷ xs) zero = x
row (x ∷ xs) (suc i) = row xs i

-- The records that pass a test, in order.
unfoldable pub matching : (Row → Bool) → List Row → List Row
matching p [] = []
matching p (x ∷ xs) = let rest = matching p xs in if p x then x ∷ rest else rest

-- `swap` of blockshm.c, on two whole records.
unfoldable pub swap : List Row → ℕ → ℕ → List Row
swap xs i j = set (set xs i (row xs j)) j (row xs i)

pub length-swap : (xs : List Row) (i j : ℕ) → length (swap xs i j) ≡ length xs
unfolding swap
length-swap xs i j =
    omega (arith, length-set (set xs i (row xs j)) j (row xs i), length-set xs i (row xs j))

row-set :
    (xs : List Row) (i j : ℕ) (v : Row)
    → i < length xs
    → row (set xs i v) j ≡ (if i == j then v else row xs j)
unfolding row
row-set [] i j v h = absurd (omega arith)
row-set (x ∷ xs) zero zero v h = ground arith
row-set (x ∷ xs) zero (suc j) v h = ground arith
row-set (x ∷ xs) (suc i) zero v h = ground arith
row-set (x ∷ xs) (suc i) (suc j) v h = ground (arith, row-set xs i j v)

exchange-perm :
    (xs : List Row) (i : ℕ) (v : Row) → i < length xs → Perm (row xs i ∷ set xs i v) (v ∷ xs)
unfolding row
exchange-perm [] i v h = absurd (omega arith)
exchange-perm (x ∷ xs) zero v h = Perm.swap v x xs
exchange-perm (x ∷ xs) (suc i) v h =
    Perm.trans (Perm.swap x _ _)
      (Perm.trans (Perm.cons x (exchange-perm xs i v (omega arith))) (Perm.swap v x xs))

module _ (xs : List Row) (i j : ℕ) (below_i : i < length xs) (below_j : j < length xs) where
  fits : j < length (set xs i (row xs j))
  fits = omega (arith, length-set xs i (row xs j))

  pub row-swap :
      (k : ℕ)
      → row (swap xs i j) k ≡ (if j == k then row xs i else if i == k then row xs j else row xs k)
  unfolding swap
  row-swap k =
      rw (row-set (set xs i (row xs j)) j k (row xs i) fits, row-set xs i k (row xs j) below_i)

  pub swap-perm : Perm (swap xs i j) xs
  unfolding swap
  swap-perm =
      let kept : row (set xs i (row xs j)) j ≡ row xs j =
        ground (arith, row-set xs i j (row xs j)) in
      Perm.cons_inv (
        Perm.trans (rw kept at (exchange-perm (set xs i (row xs j)) j (row xs i) fits))
          (exchange-perm xs i (row xs j) below_i))
