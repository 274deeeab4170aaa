-- ===== src/ThreadPool/Core/Steps.antt =====
-- What the pool's counters say through any sequence of events.
use my_resource.Base.{
  ℕ, zero, suc, ◌+◌, ◌*◌, ◌^◌, ◌<◌, ◌≡◌, ◌⊎◌, inl, inr, refl, Bool, true, false, Option, none, some,
  List, [], ◌∷◌, ◌==◌, set, get_elem?, arith, Bool-cases,
}
use my_resource.Base.Fault.{
  Run, ok, fault, Gives, Gives-mono, Gives->>=, Gives-if_true, Gives-if_false,
}
use my_resource.ThreadPool.WorkerList.{Worker}
use my_resource.ThreadPool.Core.{
  Pool, Start, ready, busy, Event, timed_out, command, begins, finishes, registers, pos, negsuc,
  begin, finish, handle, size_ctl, check, load_cal,
}
use my_resource.ThreadPool.Core.Count.{count, one_if, IsBalanced, lower-pos}
use my_resource.ThreadPool.Core.Resize.{Resized, size_ctl-Resized, Kept, check-Kept}

count-set :
    (status : ℕ) (ws : List Worker) (i : ℕ) (w v : Worker)
    → get_elem? ws i ≡ some w
    → count status (set ws i v) + one_if (w.status == status)
      ≡ count status ws + one_if (v.status == status)
count-set status [] i w v e = absurd (cc)
count-set status (x ∷ xs) zero w v e = let same : x ≡ w = ground (arith, e) in rw same (omega arith)
count-set status (x ∷ xs) (suc i) w v e = omega (arith, count-set status xs i w v e)

begin-IsBalanced :
    (o : Option Worker) (i : ℕ) (p : Pool)
    → get_elem? p.workers i ≡ o
    → IsBalanced p
    → Gives IsBalanced (begin o i p)
unfolding begin
begin-IsBalanced none i p e v = v
begin-IsBalanced (some w) i p e v = elim (Bool-cases (w.status == ready)) [
  | inr k ↦ Gives-if_false _ _ _ k v
  | inl k ↦
      let waiting = v.waiting in
      let counted = v.counted in
      let not_busy : w.status == busy ≡ false = ground arith in
      let one : one_if (w.status == ready) ≡ 1 = rw k refl in
      let none_busy : one_if (w.status == busy) ≡ 0 = rw not_busy refl in
      let w' = record w { status = busy } in
      let r = count-set ready p.workers i w w' e in
      let b = count-set busy p.workers i w w' e in
      Gives-if_true _ _ _ k (
        rw (lower-pos p.available (omega (arith, r, one))) (record {
          waiting = omega (arith, r, one);
          counted = omega (arith, r, b, one, none_busy);
        }))
]

finish-IsBalanced :
    (o : Option Worker) (i : ℕ) (p : Pool)
    → get_elem? p.workers i ≡ o
    → IsBalanced p
    → IsBalanced (finish o i p)
unfolding finish
finish-IsBalanced none i p e v = v
finish-IsBalanced (some w) i p e v = elim (Bool-cases (w.status == busy)) [
  | inr k ↦ rw k v
  | inl k ↦
      let waiting = v.waiting in
      let counted = v.counted in
      let not_ready : w.status == ready ≡ false = ground arith in
      let one : one_if (w.status == busy) ≡ 1 = rw k refl in
      let none_ready : one_if (w.status == ready) ≡ 0 = rw not_ready refl in
      let w' = record w { status = ready } in
      let r = count-set ready p.workers i w w' e in
      let b = count-set busy p.workers i w w' e in
      rw k (record {
        waiting = omega (arith, r, none_ready);
        counted = omega (arith, r, b, one, none_ready);
      })
]

-- The load of a pool without workers.
load_cal-empty : (p : Pool) → p.cursize == 0 ≡ true → load_cal p ≡ fault
unfolding load_cal
load_cal-empty p e = rw e refl

check-empty :
    (start : ℕ → Start) (ended : ℕ → Bool) (p : Pool)
    → p.cursize == 0 ≡ true
    → check start ended p ≡ fault
unfolding check
check-empty start ended p e = rw (load_cal-empty p e) refl

-- No thread registers after its creator has given up, and what is computed from the sizes of the pool
-- is in the range of an `int`.
abbrev pub IsRegular : Event → Pool → Type 0
IsRegular timed_out p = p.minsize + 100 * p.cursize < 2 ^ 31
IsRegular (command (pos n)) p = p.cursize + n < 2 ^ 31
IsRegular (command (negsuc n)) p = Unit
IsRegular (begins i) p = Unit
IsRegular (finishes i) p = Unit
IsRegular (registers i) p = ⊥

-- An event leaves a balanced pool, or it is a check of the load of a pool without workers.
abbrev pub Handled : Event → Pool → Run Pool → Type 0
Handled event p run = Gives IsBalanced run ⊎ ((event ≡ timed_out) × (p.cursize ≡ 0) × (run ≡ fault))

module _ (start : ℕ → Start) (ended : ℕ → Bool) where
  pub handle-Handled :
      (event : Event) (p : Pool)
      → IsRegular event p
      → IsBalanced p
      → Handled event p (handle start ended event p)
  unfolding handle
  handle-Handled timed_out p g v = elim (Bool-cases (p.cursize == 0)) [
    | inl e ↦ inr (refl, ground arith, check-empty start ended p e)
    | inr e ↦ inl (
        Gives-mono (Kept p) IsBalanced (check start ended p)
          (check-Kept start ended p v (ground arith)) (λ q k. k.0))
  ]
  handle-Handled (command z) p g v = inl (
      Gives->>= (λ r. Resized z p r.1) IsBalanced (size_ctl start ended z p) (λ r. ok r.1)
        (size_ctl-Resized start ended z p v) (λ r k. k.0))
  handle-Handled (begins i) p g v = inl (begin-IsBalanced (get_elem? p.workers i) i p refl v)
  handle-Handled (finishes i) p g v = inl (finish-IsBalanced (get_elem? p.workers i) i p refl v)
  handle-Handled (registers i) p g v = absurd g

-- Any regular events in any order, whatever threads start and whatever cancelled threads end in time.
pub data Reach (p : Pool) : Pool → Type 0 where
  here : Reach p p
  next :
      (start : ℕ → Start) (ended : ℕ → Bool) (event : Event) {q r : Pool}
      → Reach p q
      → IsRegular event q
      → handle start ended event q ≡ ok r
      → Reach p r
