-- ===== src/Ipc/RwLock/Writers.antt =====
-- At most one process writes.
use my_resource.Base.{ℕ, ◌≡◌, some, arith, get_elem?, compare-cases, inl, inr}
use my_resource.Ipc.RwLock.{writing, Process, State, rw_lock_create, Reach}
use my_resource.Ipc.RwLock.Holders.{holds, Reach-holders, holders-two}

-- In every state that any number of processes reach by calls of the lock functions, of which each
-- unlocks only what it holds and calls nothing but `vipc_sem_Wunlock` while it has the lock as a writer,
-- whatever waits end by TIMEOUT, at most one process is between `vipc_sem_Wlocked` and `vipc_sem_Wunlock`.
pub Reach-one_writer :
    (n : ℕ) (s : State)
    → Reach (rw_lock_create n) s
    → (i j : ℕ) (p q : Process) → get_elem? s.procs i ≡ some p
    → get_elem? s.procs j ≡ some q
    → p.phase ≡ writing
    → q.phase ≡ writing
    → i ≡ j
Reach-one_writer n s r i j p q e f w v =
    let all = Reach-holders n s r in
    let one : holds p.phase ≡ 1 = rw w in
    let other : holds q.phase ≡ 1 = rw v in
    elim (compare-cases i j) [
      | inl less ↦ absurd (omega (arith, holders-two s.procs i j p q less.1 e f))
      | inr (inl same) ↦ same.1
      | inr (inr greater) ↦ absurd (omega (arith, holders-two s.procs j i q p greater.1 f e))
    ]
