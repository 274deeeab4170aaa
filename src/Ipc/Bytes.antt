-- ===== src/Ipc/Bytes.antt =====
-- Runs of bytes as `memcmp` of the C library compares them, and as numbers.
use my_resource.Base.{ℕ, ◌+◌, ◌*◌, ◌<◌, ◌≡◌, List, [], ◌∷◌, arith, length, compare, Ordering}

-- The first byte that differs decides.
unfoldable pub memcmp : List ℕ → List ℕ → Ordering
memcmp [] bs = Ordering.eq
memcmp (a ∷ as') [] = Ordering.eq
memcmp (a ∷ as') (b ∷ bs) =
    let rest = memcmp as' bs in
    elim (compare a b) [
      | Ordering.lt ↦ Ordering.lt
      | Ordering.gt ↦ Ordering.gt
      | Ordering.eq ↦ rest
    ]

-- The bytes as the digits of a number to the base 256, behind those of `n`.
unfoldable pub number_from : ℕ → List ℕ → ℕ
number_from n [] = n
number_from n (b ∷ bs) = number_from (n * 256 + b) bs

abbrev pub number : List ℕ → ℕ
number = number_from 0

abbrev pub AreBytes : List ℕ → Type 0
AreBytes [] = Unit
AreBytes (b ∷ bs) = (b < 256) × AreBytes bs

number_from-lt :
    (m n : ℕ) (as' bs : List ℕ)
    → length as' ≡ length bs
    → AreBytes as'
    → AreBytes bs
    → m < n
    → number_from m as' < number_from n bs
unfolding number_from
number_from-lt m n [] [] e p q h = h
number_from-lt m n [] (b ∷ bs) e p q h = absurd (omega arith)
number_from-lt m n (a ∷ as') [] e p q h = absurd (omega arith)
number_from-lt m n (a ∷ as') (b ∷ bs) e p q h =
    number_from-lt (m * 256 + a) (n * 256 + b) as' bs (omega arith) p.1 q.1 (omega arith)

memcmp_from :
    (n : ℕ) (as' bs : List ℕ)
    → length as' ≡ length bs
    → AreBytes as'
    → AreBytes bs
    → memcmp as' bs ≡ compare (number_from n as') (number_from n bs)
unfolding memcmp number_from
memcmp_from n [] [] e p q = ground arith
memcmp_from n [] (b ∷ bs) e p q = absurd (omega arith)
memcmp_from n (a ∷ as') [] e p q = absurd (omega arith)
memcmp_from n (a ∷ as') (b ∷ bs) e p q =
    let same : length as' ≡ length bs = omega arith in
    ground (
      arith,
      number_from-lt (n * 256 + a) (n * 256 + b) as' bs same p.1 q.1,
      number_from-lt (n * 256 + b) (n * 256 + a) bs as' (omega arith) q.1 p.1,
      memcmp_from (n * 256 + a) as' bs same p.1 q.1,
    )

-- On two runs of bytes of one length, `memcmp` compares the numbers that they stand for.
pub memcmp_lem :
    (as' bs : List ℕ)
    → length as' ≡ length bs
    → AreBytes as'
    → AreBytes bs
    → memcmp as' bs ≡ compare (number as') (number bs)
memcmp_lem as' bs = memcmp_from 0 as' bs
