-- ===== src/Ipc/ArrShm/Blocks.antt =====
-- Where the blocks of an array lie, and how many of them are not in use.
use my_resource.Base.{
  ℕ, zero, suc, ◌+◌, ◌*◌, ◌≤◌, ◌<◌, ◌≡◌, ◌≢◌, ◌⊎◌, inl, inr, refl, ap, ◌∙◌, Bool, true, false, List,
  length, arith, ltb, Bool-cases,
}
use my_resource.Base.Fault.{Gives, Gives-mono}
use my_resource.Ipc.ArrShm.{dirty_at, block_assert, first_free}

-- The offset of a block behind the offset of the first.
abbrev pub offset : ℕ → ℕ → ℕ → ℕ
offset p single zero = p
offset p single (suc i) = offset (p + single) single i

pub offset-le : (p single i : ℕ) → p ≤ offset p single i
offset-le p single zero = omega arith
offset-le p single (suc i) = omega (arith, offset-le (p + single) single i)

pub offset-lt : (p single i j : ℕ) → i < j → offset p single i + single ≤ offset p single j
offset-lt p single i zero h = absurd (omega arith)
offset-lt p single zero (suc j) h = offset-le (p + single) single j
offset-lt p single (suc i) (suc j) h = offset-lt (p + single) single i j (omega arith)

pub offset_lem : (p single i : ℕ) → offset p single i ≡ p + i * single
offset_lem p single zero = grind arith
offset_lem p single (suc i) = grind (arith, offset_lem (p + single) single i)

pub offset_suc : (p single i : ℕ) → offset p single (suc i) ≡ offset p single i + single
offset_suc p single zero = refl
offset_suc p single (suc i) = offset_suc (p + single) single i

-- Two different blocks do not meet.
pub offset-apart :
    (single i j : ℕ)
    → i ≢ j
    → (offset 0 single i + single ≤ offset 0 single j)
      ⊎ (offset 0 single j + single ≤ offset 0 single i)
offset-apart single i j h = ground (arith, offset-lt 0 single i j, offset-lt 0 single j i)

abbrev pub one_if_free : Bool → ℕ
one_if_free true = 0
one_if_free false = 1

-- How many of `n` blocks are not in use.
abbrev pub free_from : ℕ → ℕ → ℕ → List ℕ → ℕ
free_from zero single p mem = 0
free_from (suc n) single p mem = one_if_free (dirty_at mem p) + free_from n single (p + single) mem

-- The loop of `ArrShmInsert` ends at a block that is not in use, if there is one.
pub first_free-offset :
    (n single p : ℕ) (mem : List ℕ)
    → 8 ≤ single
    → offset p single n ≤ length mem
    → 0 < free_from n single p mem
    → Gives
        (λ q. (i : ℕ) × (i < n) × (q ≡ offset p single i) × (dirty_at mem q ≡ false))
        (first_free n single p mem)
unfolding first_free block_assert
first_free-offset zero single p mem h room some_free = absurd (omega arith)
first_free-offset (suc n) single p mem h room some_free =
    let behind = offset-le (p + single) single n in
    let none_here : dirty_at mem p ≡ true → one_if_free (dirty_at mem p) ≡ 0 = λ e. rw e refl in
    let inside : ltb (length mem) (p + 8) ≡ false = ground arith in
    rw inside (elim (Bool-cases (dirty_at mem p)) [
      | inl e ↦ rw e (
          Gives-mono
            (λ q. (i : ℕ) × (i < n) × (q ≡ offset (p + single) single i) × (dirty_at mem q ≡ false))
            (λ q. (i : ℕ) × (i < suc n) × (q ≡ offset p single i) × (dirty_at mem q ≡ false))
            (first_free n single (p + single) mem)
            (first_free-offset n single (p + single) mem h room
              (omega (arith, none_here e, some_free)))
            (λ q (i, l, at, free). (suc i, omega arith, at, free)))
      | inr e ↦ rw e (zero, omega arith, refl, e)
    ])

module _ (mem mem' : List ℕ) where
  abbrev pub Same : ℕ → Type 0
  Same q = dirty_at mem' q ≡ dirty_at mem q

  free_from-Same :
      (n single p : ℕ)
      → ((j : ℕ) → j < n → Same (offset p single j))
      → free_from n single p mem ≡ free_from n single p mem'
  free_from-Same zero single p h = refl
  free_from-Same (suc n) single p h = rw (h 0 (omega arith)) (
      ap (λ k. one_if_free (dirty_at mem p) + k)
        (free_from-Same n single (p + single) (λ j l. h (suc j) (omega arith))))

  -- One block is in use in `mem'` and not in `mem`, and the others are as they were.
  pub free_from-taken :
      (n single p i : ℕ)
      → i < n
      → dirty_at mem (offset p single i) ≡ false
      → dirty_at mem' (offset p single i) ≡ true
      → ((j : ℕ) → j < n → j ≢ i → Same (offset p single j))
      → free_from n single p mem ≡ suc (free_from n single p mem')
  free_from-taken zero single p i l e e' h = absurd (omega arith)
  free_from-taken (suc n) single p zero l e e' h =
      rw (e, e')
        (ap (λ k. 1 + k)
            (free_from-Same n single (p + single) (λ j m. h (suc j) (omega arith) (omega arith)))
          ∙ omega arith)
  free_from-taken (suc n) single p (suc i) l e e' h = rw (h 0 (omega arith) (omega arith)) (
      omega (
        arith,
        free_from-taken n single (p + single) i (omega arith) e e'
            (λ j m d. h (suc j) (omega arith) (omega arith)),
      ))
