-- ===== src/ThreadPool/Core/Count.antt =====
-- The workers by their status, and what the changes of the pool do to their numbers.
use my_resource.Base.{
  ℕ, zero, suc, ◌+◌, ◌-◌, ◌≡◌, ◌≤◌, ◌<◌, inl, inr, refl, ap, Bool, true, false, List, [], ◌∷◌, ◌++◌,
  ◌==◌, arith, Bool-cases,
}
use my_resource.Base.Fault.{ok, Gives, Gives-mono, Gives->>=, Gives-if_true, Gives-if_false}
use my_resource.ThreadPool.WorkerList.{Worker, Code}
use my_resource.ThreadPool.Core.{
  Pool, Start, refused, unregistered, registered, ready, busy, worker_of, in_error, attempt,
  be_free, create_worker, shrink, cancel_worker, lower,
}

abbrev pub one_if : Bool → ℕ
one_if true = 1
one_if false = 0

abbrev pub count : ℕ → List Worker → ℕ
count status [] = 0
count status (w ∷ ws) = one_if (w.status == status) + count status ws

-- `available` is the number of workers that wait, and `cursize` that of those and of those at work.
pub record IsBalanced (p : Pool) : Type 0 where
  pub waiting : p.available ≡ count ready p.workers
  pub counted : p.cursize ≡ count ready p.workers + count busy p.workers

count-append :
    (status : ℕ) (xs ys : List Worker) → count status (xs ++ ys) ≡ count status xs + count status ys
count-append status [] ys = omega arith
count-append status (x ∷ xs) ys = omega (arith, count-append status xs ys)

-- The pool has grown by some workers, at most `n`.
abbrev pub Grown : ℕ → Pool → Pool → Type 0
Grown n p q =
    (g : ℕ) × (g ≤ n)
    × (q.cursize ≡ p.cursize + g)
    × (q.maxsize ≡ p.maxsize)
    × (q.minsize ≡ p.minsize)
    × IsBalanced q

attempt-Grown :
    (s : Start) (n : ℕ) (rest : Pool → Code × Pool) (p : Pool)
    → IsBalanced p
    → ((q : Pool) → IsBalanced q → Grown n q (rest q).1)
    → Grown (suc n) p (attempt s rest p).1
unfolding attempt
attempt-Grown refused n rest p v h = (0, omega arith, omega arith, refl, refl, v)
attempt-Grown (unregistered tid) n rest p v h =
    let waiting = v.waiting in
    let counted = v.counted in
    let w = worker_of tid in_error in
    let same = count-append ready p.workers (w ∷ []) in
    (
      0,
      omega arith,
      omega arith,
      refl,
      refl,
      record {
        waiting = omega (arith, same);
        counted = omega (arith, same, count-append busy p.workers (w ∷ []));
      },
    )
attempt-Grown (registered tid) n rest p v h =
    let waiting = v.waiting in
    let counted = v.counted in
    let w = worker_of tid ready in
    let more = count-append ready p.workers (w ∷ []) in
    let q = record p {
      cursize = p.cursize + 1;
      available = p.available + 1;
      workers = p.workers ++ w ∷ [];
    } in
    let balanced : IsBalanced q = record {
      waiting = omega (arith, more);
      counted = omega (arith, more, count-append busy p.workers (w ∷ []));
    } in
    let (g, l, c, hi, lo, u) = h q balanced in (suc g, omega arith, omega arith, hi, lo, u)

pub create_worker-Grown :
    (start : ℕ → Start) (n : ℕ) (p : Pool) → IsBalanced p → Grown n p (create_worker start n p).1
unfolding create_worker
create_worker-Grown start zero p v = (0, omega arith, omega arith, refl, refl, v)
create_worker-Grown start (suc n) p v =
    attempt-Grown (start n) n (create_worker start n) p v (create_worker-Grown start n)

-- The loop of `_Tpool_sizectl` takes as many workers as it is to take, if they wait.
abbrev pub Shrunk : ℕ → List Worker → Pool → List Worker × ℕ × Pool → Type 0
Shrunk n ws p r =
    (r.1 ≡ 0)
    × (count ready r.0 + n ≡ count ready ws)
    × (count busy r.0 ≡ count busy ws)
    × (r.2.available + n ≡ p.available)
    × (r.2.cursize + n ≡ p.cursize)
    × (r.2.maxsize ≡ p.maxsize)
    × (r.2.minsize ≡ p.minsize)

pub lower-pos : (n : ℕ) → 0 < n → lower n ≡ ok (n - 1)
unfolding lower
lower-pos zero h = absurd (omega arith)
lower-pos (suc n) h = ap ok (omega arith)

-- A worker that waited is no longer counted.
cancel_worker-be_free :
    (ended : Bool) (p : Pool)
    → 0 < p.cursize
    → 0 < p.available
    → Gives
        (λ r. r.2 ≡ record p { cursize = p.cursize - 1; available = p.available - 1 })
        (cancel_worker ended be_free p)
unfolding cancel_worker
cancel_worker-be_free ended p c a = rw (lower-pos p.cursize c, lower-pos p.available a) refl

pub shrink-Shrunk :
    (ended : ℕ → Bool) (n : ℕ) (ws : List Worker) (p : Pool)
    → n ≤ count ready ws
    → n ≤ p.available
    → n ≤ p.cursize
    → Gives (Shrunk n ws p) (shrink ended n ws p)
unfolding shrink
shrink-Shrunk ended zero ws p h a c =
    (refl, omega arith, refl, omega arith, omega arith, refl, refl)
shrink-Shrunk ended (suc n) [] p h a c = absurd (omega arith)
shrink-Shrunk ended (suc n) (w ∷ ws) p h a c = elim (Bool-cases (w.status == ready)) [
  | inl e ↦
      let q = record p { cursize = p.cursize - 1; available = p.available - 1 } in
      let not_busy : w.status == busy ≡ false = ground arith in
      let one : one_if (w.status == ready) ≡ 1 = rw e refl in
      let none_busy : one_if (w.status == busy) ≡ 0 = rw not_busy refl in
      Gives-if_true _ _ _ e (
        Gives->>= (λ r. r.2 ≡ q) (Shrunk (suc n) (w ∷ ws) p)
          (cancel_worker (ended w.thread_id) be_free p) (λ r. shrink ended n ws r.2)
          (cancel_worker-be_free (ended w.thread_id) p (omega arith) (omega arith))
          (λ r at. rw at (
            Gives-mono (Shrunk n ws q) (Shrunk (suc n) (w ∷ ws) p) (shrink ended n ws q)
              (shrink-Shrunk ended n ws q (omega arith) (omega arith) (omega arith))
              (λ (kept, left, u) (z, i, b, x, y, hi, lo).
                (z, omega arith, omega arith, omega arith, omega arith, hi, lo)))))
  | inr e ↦
      let none_ready : one_if (w.status == ready) ≡ 0 = rw e refl in
      Gives-if_false _ _ _ e (
        Gives->>= (Shrunk (suc n) ws p) (Shrunk (suc n) (w ∷ ws) p) (shrink ended (suc n) ws p)
          (λ r. ok (w ∷ r.0, r.1, r.2)) (shrink-Shrunk ended (suc n) ws p (omega arith) a c)
          (λ (kept, left, u) (z, i, b, x, y, hi, lo). (z, omega arith, omega arith, x, y, hi, lo)))
]
