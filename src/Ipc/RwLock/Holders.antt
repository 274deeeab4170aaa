-- ===== src/Ipc/RwLock/Holders.antt =====
-- The first semaphore is always with one holder: the semaphore itself, a writer, or a reader that
-- passes.
use my_resource.Base.{
  ℕ, zero, suc, ◌+◌, ◌<◌, ◌≤◌, ◌≡◌, refl, ◌∙◌, some, List, [], ◌∷◌, arith, set, replicate,
  get_elem?, Option-cases, inl, inr, ◌⊎◌,
}
use my_resource.Ipc.RwLock.{
  Semaphores, Phase, idle, locking, writing, unlocking, entering, passing, Process, Event, w_locked,
  w_unlock, r_locked, r_unlock, go, time_out, move, State, rw_lock_create, step, Reach, here, next,
}

abbrev pub holds : Phase → ℕ
holds writing = 1
holds passing = 1
holds idle = 0
holds locking = 0
holds unlocking = 0
holds entering = 0

holds-cases : (phase : Phase) → (holds phase ≡ 1) ⊎ (holds phase ≡ 0)
holds-cases writing = inl refl
holds-cases passing = inl refl
holds-cases idle = inr refl
holds-cases locking = inr refl
holds-cases unlocking = inr refl
holds-cases entering = inr refl

unfoldable pub holders : List Process → ℕ
holders [] = 0
holders (p ∷ ps) = holds p.phase + holders ps

pub holders-set :
    (ps : List Process) (i : ℕ) (p q : Process)
    → get_elem? ps i ≡ some p
    → holders (set ps i q) + holds p.phase ≡ holders ps + holds q.phase
unfolding holders
holders-set [] i p q e = absurd (cc)
holders-set (x ∷ xs) zero p q e = let same : x ≡ p = cc in rw same (omega arith)
holders-set (x ∷ xs) (suc i) p q e = omega (arith, holders-set xs i p q e)

-- A move passes the semaphore on.
move-holds :
    (event : Event) (phase : Phase) (m : Semaphores) (n : ℕ) (m' : Semaphores) (q : Process)
    → move event phase m n ≡ some (m', q)
    → m'.sem0 + holds q.phase ≡ m.sem0 + holds phase
unfolding move
move-holds w_locked phase m n m' q e = ground arith
move-holds w_unlock phase m n m' q e = ground arith
move-holds r_locked phase m n m' q e = ground arith
move-holds r_unlock phase m n m' q e = ground arith
move-holds go phase m n m' q e = ground arith
move-holds time_out phase m n m' q e = ground arith

-- A step is a move of one process.
pub step-cases :
    (i : ℕ) (event : Event) (s t : State)
    → step i event s ≡ some t
    → (p : Process) × (q : Process) × (m : Semaphores) × (get_elem? s.procs i ≡ some p)
      × (move event p.phase s.sems p.reads ≡ some (m, q))
      × (t ≡ record { sems = m; procs = set s.procs i q })
unfolding step
step-cases i event s t e = elim (Option-cases (get_elem? s.procs i)) [
  | inl none_there ↦ absurd (ground (arith, none_there))
  | inr (p, there) ↦ elim (Option-cases (move event p.phase s.sems p.reads)) [
    | inl stuck ↦ absurd (ground (arith, there, stuck))
    | inr ((m, q), moved) ↦ (p, q, m, there, moved, ground (arith, there, moved))
  ]
]

pub step-holders :
    (i : ℕ) (event : Event) (s t : State)
    → step i event s ≡ some t
    → t.sems.sem0 + holders t.procs ≡ s.sems.sem0 + holders s.procs
step-holders i event s t e =
    let (p, q, m, there, moved, after) = step-cases i event s t e in
    rw after (
      omega
        (arith, holders-set s.procs i p q there, move-holds event p.phase s.sems p.reads m q moved))

holders-replicate : (n : ℕ) → holders (replicate n (record { phase = idle; reads = 0 })) ≡ 0
unfolding holders
holders-replicate zero = refl
holders-replicate (suc n) = omega (arith, holders-replicate n)

pub Reach-holders :
    (n : ℕ) (s : State) → Reach (rw_lock_create n) s → s.sems.sem0 + holders s.procs ≡ 1
unfolding rw_lock_create
Reach-holders n s here = omega (arith, holders-replicate n)
Reach-holders n s (next i event {t} r e) = step-holders i event t s e ∙ Reach-holders n t r

holders-one :
    (ps : List Process) (i : ℕ) (p : Process) → get_elem? ps i ≡ some p → holds p.phase ≤ holders ps
unfolding holders
holders-one [] i p e = absurd (cc)
holders-one (x ∷ xs) zero p e = let same : x ≡ p = cc in rw same (omega arith)
holders-one (x ∷ xs) (suc i) p e = omega (arith, holders-one xs i p e)

-- If some process holds, there is one.
pub holder-cases :
    (ps : List Process)
    → 0 < holders ps
    → (i : ℕ) × (p : Process) × (get_elem? ps i ≡ some p) × (holds p.phase ≡ 1)
unfolding holders
holder-cases [] h = absurd (omega arith)
holder-cases (x ∷ xs) h = elim (holds-cases x.phase) [
  | inl holding ↦ (0, x, refl, holding)
  | inr free_hand ↦ let (i, p, e, f) = holder-cases xs (omega arith) in (suc i, p, e, f)
]

-- Two processes that hold count twice.
pub holders-two :
    (ps : List Process) (i j : ℕ) (p q : Process)
    → i < j
    → get_elem? ps i ≡ some p
    → get_elem? ps j ≡ some q
    → holds p.phase + holds q.phase ≤ holders ps
unfolding holders
holders-two [] i j p q lt e f = absurd (cc)
holders-two (x ∷ xs) zero zero p q lt e f = absurd (omega arith)
holders-two (x ∷ xs) zero (suc j) p q lt e f =
    let same : x ≡ p = cc in rw same (omega (arith, holders-one xs j q f))
holders-two (x ∷ xs) (suc i) zero p q lt e f = absurd (omega arith)
holders-two (x ∷ xs) (suc i) (suc j) p q lt e f =
    omega (arith, holders-two xs i j p q (omega arith) e f)
