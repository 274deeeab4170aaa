-- ===== src/ThreadPool/Core/Resize.antt =====
-- What a change of the size leaves, as the monitor asks for it and as a command does.
use my_resource.Base.{
  ℕ, zero, suc, ◌+◌, ◌-◌, ◌*◌, ◌/◌, ◌≡◌, ◌≤◌, ◌<◌, ◌⊎◌, inl, inr, refl, ap, ◌∙◌, Bool, true, false,
  some, ◌==◌, ltb, if◌then◌else◌, arith, Bool-cases, compare-cases,
}
use mathlib.Core.Path.{subst}
use my_resource.Base.Fault.{ok, Gives, Gives-mono, Gives->>=, Gives-if_true, Gives-if_false, ◌>>=◌}
use my_resource.ThreadPool.Core.{
  Pool, Start, ℤ, pos, negsuc, ◌⊖◌, shrink, size_ctl, adjust, check, load_cal, new_silver,
}
use my_resource.ThreadPool.Core.Count.{IsBalanced, create_worker-Grown, Shrunk, shrink-Shrunk}

pub ⊖-ge : (a b : ℕ) → b ≤ a → a ⊖ b ≡ pos (a - b)
⊖-ge a zero h = ap pos (omega arith)
⊖-ge zero (suc b) h = absurd (omega arith)
⊖-ge (suc a) (suc b) h = ⊖-ge a b (omega arith) ∙ ap pos (omega arith)

⊖-lt : (a b : ℕ) → a < b → a ⊖ b ≡ negsuc (b - a - 1)
⊖-lt a zero h = absurd (omega arith)
⊖-lt zero (suc b) h = ap negsuc (omega arith)
⊖-lt (suc a) (suc b) h = ⊖-lt a b (omega arith) ∙ ap negsuc (omega arith)

-- How much larger or smaller the pool is.
abbrev pub Sized : ℤ → Pool → Pool → Type 0
Sized (pos n) p q = (p.cursize ≤ q.cursize) × ((q.cursize ≡ p.cursize) ⊎ (q.cursize ≤ p.maxsize))
Sized (negsuc n) p q = (q.cursize ≡ p.cursize) ⊎ (q.cursize + suc n ≡ p.cursize)

abbrev pub SameLimits : Pool → Pool → Type 0
SameLimits p q = (q.maxsize ≡ p.maxsize) × (q.minsize ≡ p.minsize)

abbrev pub Resized : ℤ → Pool → Pool → Type 0
Resized z p q = IsBalanced q × SameLimits p q × Sized z p q

pub size_ctl-Resized :
    (start : ℕ → Start) (ended : ℕ → Bool) (z : ℤ) (p : Pool)
    → IsBalanced p
    → Gives (λ r. Resized z p r.1) (size_ctl start ended z p)
unfolding size_ctl
size_ctl-Resized start ended (pos zero) p v = (v, (refl, refl), (omega arith, inl refl))
size_ctl-Resized start ended (pos (suc n)) p v =
    elim (Bool-cases (ltb p.maxsize (p.cursize + suc n))) [
      | inl e ↦ Gives-if_true _ _ _ e (v, (refl, refl), (omega arith, inl refl))
      | inr e ↦
          let (g, l, c, hi, lo, u) = create_worker-Grown start (suc n) p v in
          let fits : p.cursize + suc n ≤ p.maxsize = ground arith in
          Gives-if_false _ _ _ e (u, (hi, lo), (omega arith, inr (omega arith)))
    ]
size_ctl-Resized start ended (negsuc n) p v = elim (Bool-cases (ltb p.available (suc n))) [
  | inl e ↦ Gives-if_true _ _ _ e (v, (refl, refl), inl refl)
  | inr e ↦
      let enough : suc n ≤ p.available = ground arith in
      let waiting = v.waiting in
      let counted = v.counted in
      Gives-if_false _ _ _ e (
        Gives->>= (Shrunk (suc n) p.workers p) (λ r. Resized (negsuc n) p r.1)
          (shrink ended (suc n) p.workers p)
          (λ r. ok (some (suc n - r.1), record r.2 { workers = r.0 }))
          (shrink-Shrunk ended (suc n) p.workers p (omega arith) enough (omega arith))
          (λ (kept, left, u) (z, i, b, x, y, hi, lo).
            (record { waiting = omega arith; counted = omega arith }, (hi, lo), inr y)))
]

-- Between its limits.
abbrev pub IsWithin : Pool → Type 0
IsWithin p = (p.minsize ≤ p.cursize) × (p.cursize ≤ p.maxsize)

abbrev pub Kept : Pool → Pool → Type 0
Kept p q = IsBalanced q × SameLimits p q × (IsWithin p → IsWithin q)

-- The monitor asks for no size that is above the greatest or below the least.
grown-IsWithin :
    (b : Bool) (n : ℕ) (p q : Pool)
    → SameLimits p q
    → Sized (if b then p.maxsize ⊖ p.cursize else pos (suc n)) p q
    → IsWithin p
    → IsWithin q
grown-IsWithin true n p q (hi, lo) s (l, h) =
    let (more, most) = subst (λ z. Sized z p q) (⊖-ge p.maxsize p.cursize h) s in
    (omega arith, elim most [ inl e ↦ omega arith | inr e ↦ omega arith ])
grown-IsWithin false n p q (hi, lo) s (l, h) =
    (omega (arith, s.0), elim s.1 [ inl e ↦ omega arith | inr e ↦ omega arith ])

shrunk-IsWithin :
    (b : Bool) (n : ℕ) (p q : Pool)
    → ltb p.cursize (p.minsize + suc n) ≡ b
    → SameLimits p q
    → Sized (if b then p.minsize ⊖ p.cursize else negsuc n) p q
    → IsWithin p
    → IsWithin q
shrunk-IsWithin true n p q e (hi, lo) s (l, h) = elim (compare-cases p.minsize p.cursize) [
  | inl (_, lt) ↦ elim (subst (λ z. Sized z p q) (⊖-lt p.minsize p.cursize lt) s) [
    | inl k ↦ (omega arith, omega arith)
    | inr k ↦ (omega arith, omega arith)
  ]
  | inr (inl (_, eq)) ↦
      let (more, most) = subst (λ z. Sized z p q) (⊖-ge p.minsize p.cursize (omega arith)) s in
      (omega arith, elim most [ inl k ↦ omega arith | inr k ↦ omega arith ])
  | inr (inr (_, gt)) ↦ absurd (omega arith)
]
shrunk-IsWithin false n p q e (hi, lo) s (l, h) =
    let room : p.minsize + suc n ≤ p.cursize = ground arith in
    elim s [ inl k ↦ (omega arith, omega arith) | inr k ↦ (omega arith, omega arith) ]

-- `loadsilver` is no part of the balance.
reset-IsBalanced : (p : Pool) (z : ℤ) → IsBalanced p → IsBalanced (record p { loadsilver = z })
reset-IsBalanced p z v = record { waiting = v.waiting; counted = v.counted }

module _ (start : ℕ → Start) (ended : ℕ → Bool) where
  resized-Kept :
      (z : ℤ) (p : Pool)
      → IsBalanced p
      → ((q : Pool) → SameLimits p q → Sized z p q → IsWithin p → IsWithin q)
      → Gives (Kept p) (size_ctl start ended z p >>= λ r. ok (record r.1 { loadsilver = pos 0 }))
  resized-Kept z p v h =
      Gives->>= (λ r. Resized z p r.1) (Kept p) (size_ctl start ended z p)
        (λ r. ok (record r.1 { loadsilver = pos 0 })) (size_ctl-Resized start ended z p v)
        (λ r (u, same, s). (reset-IsBalanced r.1 (pos 0) u, same, h r.1 same s))

  adjust-Kept : (z : ℤ) (p : Pool) → IsBalanced p → Gives (Kept p) (adjust start ended z p)
  unfolding adjust
  adjust-Kept (pos zero) p v = (v, (refl, refl), λ w. w)
  adjust-Kept (pos (suc n)) p v =
      resized-Kept
        (if ltb p.maxsize (p.cursize + suc n) then p.maxsize ⊖ p.cursize else pos (suc n)) p v
        (grown-IsWithin (ltb p.maxsize (p.cursize + suc n)) n p)
  adjust-Kept (negsuc n) p v =
      resized-Kept (if ltb p.cursize (p.minsize + suc n) then p.minsize ⊖ p.cursize else negsuc n) p
        v (λ q. shrunk-IsWithin (ltb p.cursize (p.minsize + suc n)) n p q refl)

  -- What Tpool_loadcal leaves, unless it divides by zero.
  load_cal-Loaded :
      (p : Pool)
      → IsBalanced p
      → 0 < p.cursize
      → Gives (λ r. IsBalanced r.1 × (r.1.cursize ≡ p.cursize) × SameLimits p r.1) (load_cal p)
  unfolding load_cal
  load_cal-Loaded p v h =
      let silver = new_silver ((p.cursize - p.available) * 100 / p.cursize) p in
      let nonzero : p.cursize == 0 ≡ false = ground arith in
      Gives-if_false _ _ _ nonzero (elim (Bool-cases (p.cursize == p.maxsize)) [
        | inl e ↦ Gives-if_true _ _ _ e (v, refl, (refl, refl))
        | inr e ↦ Gives-if_false _ _ _ e (reset-IsBalanced p silver v, refl, (refl, refl))
      ])

  pub check-Kept : (p : Pool) → IsBalanced p → 0 < p.cursize → Gives (Kept p) (check start ended p)
  unfolding check
  check-Kept p v h =
      Gives->>= (λ r. IsBalanced r.1 × (r.1.cursize ≡ p.cursize) × SameLimits p r.1) (Kept p)
        (load_cal p) (λ r. adjust start ended r.0 r.1) (load_cal-Loaded p v h)
        (λ (z, q) (u, size, (hi, lo)).
          Gives-mono (Kept q) (Kept p) (adjust start ended z q) (adjust-Kept z q u)
            (λ t (w, (hi', lo'), keeps). (
              w,
              (omega arith, omega arith),
              λ (l, k).
                  let (l', k') = keeps (omega arith, omega arith) in (omega arith, omega arith),
            )))
