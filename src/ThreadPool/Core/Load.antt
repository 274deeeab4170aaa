-- ===== src/ThreadPool/Core/Load.antt =====
-- What successive checks of the load do to the size of the pool.
use my_resource.Base.{
  ℕ, zero, suc, ◌-◌, ◌*◌, ◌/◌, ◌≡◌, ◌≤◌, ◌<◌, ◌⊎◌, inl, inr, refl, sym, Bool, true, false, ◌==◌,
  ltb, leb, arith, Bool-cases,
}
use mathlib.Core.Path.{subst}
use my_resource.Base.Fault.{Run, ok, Gives, Gives->>=, Gives-if_true, Gives-if_false, ◌>>=◌}
use my_resource.ThreadPool.Core.{
  Pool, Start, ℤ, pos, negsuc, check, load_cal, adjust, change, new_silver,
}

-- So many checks one after the other.
abbrev pub checks : (ℕ → Start) → (ℕ → Bool) → ℕ → Pool → Run Pool
checks start ended zero p = ok p
checks start ended (suc n) p = check start ended p >>= checks start ended n

change-small : (z : ℤ) (size : ℕ) → size < 5 → change z size ≡ pos 0
change-small (pos n) size h =
    let none : size / 5 ≡ 0 = omega arith in
    elim (Bool-cases (ltb 5 n)) [ inl e ↦ rw (e, none) refl | inr e ↦ rw e refl ]
change-small (negsuc n) size h =
    let none : size / 5 ≡ 0 = omega arith in
    elim (Bool-cases (ltb 5 (suc n))) [ inl e ↦ rw (e, none) refl | inr e ↦ rw e refl ]

-- Only `loadsilver` may differ.
abbrev pub Still : Pool → Pool → Type 0
Still p q = q ≡ record p { loadsilver = q.loadsilver }

abbrev IsStuck : Pool → Type 0
IsStuck p = (0 < p.cursize) × ((p.cursize < 5) ⊎ (p.cursize ≡ p.maxsize))

load_cal-Still : (p : Pool) → IsStuck p → Gives (λ r. (r.0 ≡ pos 0) × Still p r.1) (load_cal p)
unfolding load_cal
load_cal-Still p (h, stuck) =
    let nonzero : p.cursize == 0 ≡ false = ground arith in
    Gives-if_false _ _ _ nonzero (elim (Bool-cases (p.cursize == p.maxsize)) [
      | inl e ↦ Gives-if_true _ _ _ e (refl, refl)
      | inr e ↦ Gives-if_false _ _ _ e (
        change-small (new_silver ((p.cursize - p.available) * 100 / p.cursize) p) p.cursize
            (elim stuck [ inl k ↦ k | inr k ↦ absurd (ground arith) ]),
        refl,
      )
    ])

module _ (start : ℕ → Start) (ended : ℕ → Bool) where
  check-Still : (p : Pool) → IsStuck p → Gives (Still p) (check start ended p)
  unfolding check adjust
  check-Still p h =
      Gives->>= (λ r. (r.0 ≡ pos 0) × Still p r.1) (Still p) (load_cal p)
        (λ r. adjust start ended r.0 r.1) (load_cal-Still p h)
        (λ (z, q) (e, same). subst (λ y. Gives (Still p) (adjust start ended y q)) (sym e) same)

  -- A pool of at least one worker and fewer than five, or of maxsize workers and not none, keeps its size and its workers through
  -- any number of checks of the load, however high or low the load is.
  pub checks-Still :
      (n : ℕ) (p : Pool)
      → 0 < p.cursize
      → (p.cursize < 5) ⊎ (p.cursize ≡ p.maxsize)
      → Gives (Still p) (checks start ended n p)
  checks-Still zero p h stuck = refl
  checks-Still (suc n) p h stuck =
      Gives->>= (Still p) (Still p) (check start ended p) (checks start ended n)
        (check-Still p (h, stuck))
        (λ q e.
          subst (λ x. Gives (Still p) (checks start ended n x)) (sym e)
            (checks-Still n (record p { loadsilver = q.loadsilver }) h stuck))

-- The share of the workers that are at work, in hundredths, is at hload or above.
abbrev pub IsHigh : Pool → Type 0
IsHigh p = p.hload ≤ (p.cursize - p.available) * 100 / p.cursize

abbrev pub at : Pool → ℕ → Pool
at p n = record p { loadsilver = pos n }

module _ (p : Pool) (some_workers : 0 < p.cursize) (below : p.cursize < p.maxsize)
    (high : IsHigh p) where
  pub load_cal-high :
      (n : ℕ) → load_cal (at p n) ≡ ok (change (pos (suc n)) p.cursize, at p (suc n))
  unfolding load_cal
  load_cal-high n =
      let nonzero : p.cursize == 0 ≡ false = ground arith in
      let not_full : p.cursize == p.maxsize ≡ false = ground arith in
      let over : leb p.hload ((p.cursize - p.available) * 100 / p.cursize) ≡ true =
        let h = high in ground arith in
      rw (nonzero, not_full, over) refl

  module _ (start : ℕ → Start) (ended : ℕ → Bool) where
    pub check-high : (n : ℕ) → n < 5 → check start ended (at p n) ≡ ok (at p (suc n))
    unfolding check adjust
    check-high n h =
        let few : ltb 5 (suc n) ≡ false = ground arith in rw (load_cal-high n, few) refl
