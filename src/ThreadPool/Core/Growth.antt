-- ===== src/ThreadPool/Core/Growth.antt =====
-- How a pool with a high load grows.
use my_resource.Base.{
  ℕ, zero, suc, ◌+◌, ◌-◌, ◌/◌, ◌≡◌, ◌≤◌, ◌<◌, inl, inr, refl, sym, ap, ◌∙◌, Bool, true, false, ◌++◌,
  [], ◌∷◌, ltb, if◌then◌else◌, arith, Bool-cases,
}
use mathlib.Core.Path.{subst}
use my_resource.Base.Fault.{ok, Gives, Gives->>=, Gives-if_false}
use my_resource.ThreadPool.Core.{
  Pool, Start, registered, worker_of, ready, pos, check, adjust, size_ctl, create_worker, attempt,
}
use my_resource.ThreadPool.Core.Load.{checks, IsHigh, at, load_cal-high, check-high}
use my_resource.ThreadPool.Core.Resize.{⊖-ge}

-- The size to which the pool is to grow: by a fifth, up to maxsize.
abbrev pub target : Pool → ℕ
target p =
    if ltb p.maxsize (p.cursize + p.cursize / 5) then p.maxsize else p.cursize + p.cursize / 5

module _ (start : ℕ → Start) (ended : ℕ → Bool) (tid : ℕ → ℕ)
    (all : (i : ℕ) → start i ≡ registered (tid i)) where
  create_worker-all : (n : ℕ) (p : Pool) → (create_worker start n p).1.cursize ≡ p.cursize + n
  unfolding create_worker attempt
  create_worker-all zero p = omega arith
  create_worker-all (suc n) p = rw (all n) (
      create_worker-all n (record p {
        cursize = p.cursize + 1;
        available = p.available + 1;
        workers = p.workers ++ worker_of (tid n) ready ∷ [];
      })
      ∙ omega arith)

  size_ctl-all :
      (n : ℕ) (p : Pool)
      → p.cursize + n ≤ p.maxsize
      → Gives (λ r. r.1.cursize ≡ p.cursize + n) (size_ctl start ended (pos n) p)
  unfolding size_ctl
  size_ctl-all zero p h = omega arith
  size_ctl-all (suc n) p h =
      let fits : ltb p.maxsize (p.cursize + suc n) ≡ false = ground arith in
      Gives-if_false _ _ _ fits (create_worker-all (suc n) p)

  adjust-all :
      (n : ℕ) (p : Pool)
      → p.cursize ≤ p.maxsize
      → Gives
          (λ q. q.cursize ≡ (if ltb p.maxsize (p.cursize + n) then p.maxsize else p.cursize + n))
          (adjust start ended (pos n) p)
  unfolding adjust
  adjust-all zero p h = ground arith
  adjust-all (suc n) p h = elim (Bool-cases (ltb p.maxsize (p.cursize + suc n))) [
    | inl e ↦
        rw (e, ⊖-ge p.maxsize p.cursize h)
          (Gives->>= (λ r. r.1.cursize ≡ p.cursize + (p.maxsize - p.cursize))
            (λ q. q.cursize ≡ p.maxsize) (size_ctl start ended (pos (p.maxsize - p.cursize)) p)
            (λ r. ok (record r.1 { loadsilver = pos 0 }))
            (size_ctl-all (p.maxsize - p.cursize) p (omega arith)) (λ r x. omega (arith, x)))
    | inr e ↦ rw e (
        Gives->>= (λ r. r.1.cursize ≡ p.cursize + suc n) (λ q. q.cursize ≡ p.cursize + suc n)
          (size_ctl start ended (pos (suc n)) p) (λ r. ok (record r.1 { loadsilver = pos 0 }))
          (size_ctl-all (suc n) p (ground arith)) (λ r x. x))
  ]

  module _ (p : Pool) (some_workers : 0 < p.cursize) (below : p.cursize < p.maxsize)
      (high : IsHigh p) where
    check-target : (n : ℕ) → n ≡ 5 → Gives (λ q. q.cursize ≡ target p) (check start ended (at p n))
    unfolding check
    check-target n e =
        let many : ltb 5 (suc n) ≡ true = ground arith in
        rw (load_cal-high p some_workers below high n, many)
          (adjust-all (p.cursize / 5) (at p (suc n)) (omega arith))

    rounds :
        (k n : ℕ)
        → n + k ≡ 5
        → Gives (λ q. q.cursize ≡ target p) (checks start ended (suc k) (at p n))
    rounds zero n e =
        Gives->>= (λ q. q.cursize ≡ target p) (λ q. q.cursize ≡ target p)
          (check start ended (at p n)) (checks start ended 0) (check-target n (omega arith))
          (λ q h. h)
    rounds (suc k) n e =
        rw (check-high p some_workers below high start ended n (omega arith))
          (rounds k (suc n) (omega arith))

    counts : (k n : ℕ) → n + k ≡ 5 → checks start ended k (at p n) ≡ ok (at p 5)
    counts zero n e = ap (λ i. ok (at p i)) (omega arith)
    counts (suc k) n e =
        rw (check-high p some_workers below high start ended n (omega arith))
          (counts k (suc n) (omega arith))

  -- A pool with workers and below maxsize, whose load is at hload or above and whose loadsilver is 0,
  -- grows at the sixth check of the load by a fifth, up to maxsize, if every thread that is started
  -- registers; the five checks before only count.
  pub checks-target :
      (p : Pool)
      → 0 < p.cursize
      → p.cursize < p.maxsize
      → IsHigh p
      → p.loadsilver ≡ pos 0
      → (checks start ended 5 p ≡ ok (record p { loadsilver = pos 5 }))
        × Gives (λ q. q.cursize ≡ target p) (checks start ended 6 p)
  checks-target p h below high e =
      let same : p ≡ at p 0 = ap (λ z. record p { loadsilver = z }) e in
      (
        subst (λ q. checks start ended 5 q ≡ ok (record p { loadsilver = pos 5 })) (sym same)
            (counts p h below high 5 0 refl),
        subst (λ q. Gives (λ r. r.cursize ≡ target p) (checks start ended 6 q)) (sym same)
            (rounds p h below high 5 0 refl),
      )
