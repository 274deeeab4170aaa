-- ===== src/Ipc/RwLock.antt =====
-- The lock for readers and writers of fram/module/ipc/src/ipcsem.c: a set of two semaphores, both 1
-- at first, and a count of its own in each process. Each operation on a semaphore is one step, since
-- the system makes it at once, so a call of a lock function is as many steps as it has such operations.
mod Holders
mod Runs
pub mod Writers
pub mod Readers
mod Tests
use my_resource.Base.{
  ℕ, zero, suc, ◌+◌, ◌≡◌, Option, none, some, List, Bool, true, false, set, replicate, get_elem?,
  ◌==◌, if◌then◌else◌,
}

-- The values of the two semaphores.
pub record Semaphores : Type 0 where
  pub sem0 : ℕ
  pub sem1 : ℕ

-- `vipc_sem_grab_masksig` on the value of a semaphore: `none` while the call waits.
unfoldable pub grab : ℕ → Option ℕ
grab zero = none
grab (suc n) = some n

-- `vipc_sem_grab_nowait`, whose result NORESOURCE the lock takes for success.
unfoldable pub grab_nowait : ℕ → ℕ
grab_nowait zero = zero
grab_nowait (suc n) = n

-- `vipc_sem_free`.
abbrev pub free : ℕ → ℕ
free n = n + 1

-- Where a process is in the lock functions: in none of them, between the two operations of
-- `vipc_sem_Wlocked`, behind it, between the two of `vipc_sem_Wunlock`, or behind the first or the
-- second operation of `vipc_sem_Rlocked`.
pub data Phase : Type 0 where
  idle : Phase
  locking : Phase
  writing : Phase
  unlocking : Phase
  entering : Phase
  passing : Phase

-- `reads` is the static variable `iRnum`.
pub record Process : Type 0 where
  pub phase : Phase
  pub reads : ℕ

-- A call of a lock function, its next operation, or the end of its wait by TIMEOUT. A process unlocks
-- only what it holds, and one that has the lock as a writer calls `vipc_sem_Wunlock` and nothing else.
pub data Event : Type 0 where
  w_locked : Event
  w_unlock : Event
  r_locked : Event
  r_unlock : Event
  go : Event
  time_out : Event

abbrev at : Phase → ℕ → Process
at phase reads = record { phase = phase; reads = reads }

-- `vipc_sem_Runlock`, which a process calls only after `vipc_sem_Rlocked`.
unfoldable pub leave : Semaphores → ℕ → Option (Semaphores × Process)
leave m zero = none
leave m (suc n) =
    some
      ((if n == 0 then record m { sem1 = free m.sem1 } else m), record { phase = idle; reads = n })

-- What an event does to the semaphores and the process; `none` if it cannot happen now. A wait that
-- ends by TIMEOUT gives back nothing.
unfoldable pub move : Event → Phase → Semaphores → ℕ → Option (Semaphores × Process)
unfolding grab grab_nowait leave
move w_locked idle m n = elim (grab m.sem1) [
  | none ↦ none
  | some k ↦ some (record m { sem1 = k }, at locking n)
]
move go locking m n = elim (grab m.sem0) [
  | none ↦ none
  | some k ↦ some (record m { sem0 = k }, at writing n)
]
move time_out locking m n = some (m, at idle n)
move w_unlock writing m n = some (record m { sem0 = free m.sem0 }, at unlocking n)
move go unlocking m n = some (record m { sem1 = free m.sem1 }, at idle n)
move r_locked idle m n = some (record m { sem1 = grab_nowait m.sem1 }, at entering n)
move go entering m n = elim (grab m.sem0) [
  | none ↦ none
  | some k ↦ some (record m { sem0 = k }, at passing n)
]
move time_out entering m n = some (m, at idle n)
move go passing m n = some (record m { sem0 = free m.sem0 }, at idle (suc n))
move r_unlock idle m n = leave m n
move event phase m n = none

pub record State : Type 0 where
  pub sems : Semaphores
  pub procs : List Process

-- `vipc_sem_RWlock_create`, and processes that have not called it.
unfoldable pub rw_lock_create : ℕ → State
rw_lock_create n = record {
  sems = record { sem0 = 1; sem1 = 1 };
  procs = replicate n (record { phase = idle; reads = 0 });
}

-- The event at process `i`.
unfoldable pub step : ℕ → Event → State → Option State
unfolding move
step i event s = elim (get_elem? s.procs i) [
  | none ↦ none
  | some p ↦ elim (move event p.phase s.sems p.reads) [
    | none ↦ none
    | some (m, q) ↦ some (record { sems = m; procs = set s.procs i q })
  ]
]

-- Any events at any of the processes, in any order.
pub data Reach (s : State) : State → Type 0 where
  here : Reach s s
  next : (i : ℕ) (event : Event) {t u : State} → Reach s t → step i event t ≡ some u → Reach s u
