-- ===== src/Ipc/RwLock/Runs.antt =====
-- Steps put together: what one process can do while the others wait.
use my_resource.Base.{
  ℕ, suc, ◌+◌, ◌≡◌, ◌≢◌, refl, ◌∙◌, some, arith, set, get_elem?, get_elem?-set, inl, inr,
  compare-cases,
}
use my_resource.Ipc.RwLock.{
  Semaphores, Phase, idle, locking, writing, unlocking, entering, passing, Process, Event, w_locked,
  w_unlock, r_locked, go, grab_nowait, move, State, step, Reach, here, next,
}
use my_resource.Ipc.RwLock.Holders.{holds, holders, holder-cases}

-- A run from `s` to `t` that leaves every process but `i` alone.
pub record Run (s : State) (i : ℕ) (t : State) : Type 0 where
  pub reach : Reach s t
  pub others : (j : ℕ) → j ≢ i → get_elem? t.procs j ≡ get_elem? s.procs j

pub stay : (s : State) (i : ℕ) → Run s i s
stay s i = record { reach = here; others = λ j differ. refl }

-- One more step of the process.
pub then_move :
    (s u : State) (i : ℕ) (event : Event) (p : Process) (m : Semaphores) (q : Process)
    → Run s i u
    → get_elem? u.procs i ≡ some p
    → move event p.phase u.sems p.reads ≡ some (m, q)
    → Run s i (record { sems = m; procs = set u.procs i q })
      × (get_elem? (set u.procs i q) i ≡ some q)
unfolding step
then_move s u i event p m q r there moved = (
  record {
    reach = next i event r.reach (rw (there, step, moved) refl);
    others = λ j differ. ground (arith, get_elem?-set u.procs i j p q there, r.others j differ);
  },
  ground (arith, get_elem?-set u.procs i i p q there),
)

-- The steps of the lock functions where they do not wait.
module _ (m : Semaphores) (n : ℕ) where
  begin_read :
      move r_locked idle m n
      ≡ some (record m { sem1 = grab_nowait m.sem1 }, record { phase = entering; reads = n })
  unfolding move
  begin_read = refl

  take_zero :
      m.sem0 ≡ 1
      → move go entering m n ≡ some (record m { sem0 = 0 }, record { phase = passing; reads = n })
  unfolding move
  take_zero e = ground arith

  give_zero :
      move go passing m n
      ≡ some (record m { sem0 = m.sem0 + 1 }, record { phase = idle; reads = suc n })
  unfolding move
  give_zero = refl

  pub begin_write :
      (k : ℕ)
      → m.sem1 ≡ suc k
      → move w_locked idle m n ≡ some (record m { sem1 = k }, record { phase = locking; reads = n })
  unfolding move
  begin_write k e = ground arith

  pub take_write :
      m.sem0 ≡ 1
      → move go locking m n ≡ some (record m { sem0 = 0 }, record { phase = writing; reads = n })
  unfolding move
  take_write e = ground arith

  end_write :
      move w_unlock writing m n
      ≡ some (record m { sem0 = m.sem0 + 1 }, record { phase = unlocking; reads = n })
  unfolding move
  end_write = refl

-- A process that is in no lock function gets through `vipc_sem_Rlocked` while nobody holds the first
-- semaphore.
pub reads_in :
    (s u : State) (i n : ℕ)
    → Run s i u
    → get_elem? u.procs i ≡ some (record { phase = idle; reads = n })
    → u.sems.sem0 ≡ 1
    → (t : State) × Run s i t
      × (get_elem? t.procs i ≡ some (record { phase = idle; reads = suc n }))
      × (t.sems ≡ record { sem0 = 1; sem1 = grab_nowait u.sems.sem1 })
reads_in s u i n r there e =
    let (r1, there1) = then_move s u i r_locked _ _ _ r there (begin_read u.sems n) in
    let (r2, there2) =
      then_move s _ i go _ _ _ r1 there1
        (take_zero (record u.sems { sem1 = grab_nowait u.sems.sem1 }) n e) in
    let (r3, there3) =
      then_move s _ i go _ _ _ r2 there2
        (give_zero (record { sem0 = 0; sem1 = grab_nowait u.sems.sem1 }) n) in
    (_, r3, there3, refl)

-- Whoever holds the first semaphore can give it back in one step.
give_back :
    (phase : Phase) (m : Semaphores) (n : ℕ)
    → holds phase ≡ 1
    → m.sem0 ≡ 0
    → (event : Event) × (q : Process) × (move event phase m n ≡ some (record m { sem0 = 1 }, q))
unfolding move
give_back writing m n h e = (w_unlock, record { phase = unlocking; reads = n }, ground arith)
give_back passing m n h e = (go, record { phase = idle; reads = suc n }, ground arith)
give_back idle m n h e = absurd (omega arith)
give_back locking m n h e = absurd (omega arith)
give_back unlocking m n h e = absurd (omega arith)
give_back entering m n h e = absurd (omega arith)

-- The processes that do not hold it stay as they are.
abbrev pub Kept : State → State → Type 0
Kept s t =
    (j : ℕ) (p : Process)
    → get_elem? s.procs j ≡ some p
    → holds p.phase ≡ 0
    → get_elem? t.procs j ≡ some p

apart :
    (s : State) (i j : ℕ) (p r : Process)
    → j ≡ i
    → get_elem? s.procs i ≡ some p
    → get_elem? s.procs j ≡ some r
    → holds p.phase ≡ 1
    → holds r.phase ≡ 0
    → ⊥
apart s i j p r same there e holding f =
    let equal : r ≡ p = cc in let none_held : holds p.phase ≡ 0 = rw equal at f in omega arith

-- The first semaphore can be made free.
pub released :
    (s : State)
    → s.sems.sem0 + holders s.procs ≡ 1
    → (t : State) × Reach s t × (t.sems ≡ record s.sems { sem0 = 1 }) × Kept s t
released s one = elim (compare-cases s.sems.sem0 1) [
  | inl less ↦
      let (i, p, there, holding) = holder-cases s.procs (omega arith) in
      let (event, q, moved) = give_back p.phase s.sems p.reads holding (omega arith) in
      let (run, _) = then_move s s i event p _ q (stay s i) there moved in
      (
        _,
        run.reach,
        refl,
        λ j r e f. run.others j (λ same. apart s i j p r same there e holding f) ∙ e,
      )
  | inr (inl same) ↦ (s, here, ground arith, λ j p e f. e)
  | inr (inr greater) ↦ absurd (omega arith)
]

pub Reach-trans : {s t u : State} → Reach s t → Reach t u → Reach s u
Reach-trans r here = r
Reach-trans r (next i event q e) = next i event (Reach-trans r q) e
