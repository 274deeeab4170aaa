-- ===== src/ThreadPool/Core/Tests.antt =====
-- Runs and concrete uses of what is proved of the size of the thread pool.
use my_resource.Base.{ℕ, ◌+◌, ◌≡◌, refl, inl, Bool, true, some, List, [], ◌∷◌, ◌++◌, arith}
use my_resource.Base.Fault.{ok, fault, Gives}
use my_resource.ThreadPool.WorkerList.{Worker}
use my_resource.ThreadPool.Core.{
  Pool, Start, registered, ready, busy, worker_of, pos, negsuc, timed_out, size_ctl, handle,
  register, registers, in_error,
}
use my_resource.ThreadPool.Core.Load.{checks, Still, checks-Still}
use my_resource.ThreadPool.Core.Growth.{target, checks-target}

abbrev workers_of : ℕ → List Worker
workers_of status =
    worker_of 1 status ∷ worker_of 2 status ∷ worker_of 3 status ∷ worker_of 4 status ∷ []

-- Five workers, all at work.
abbrev loaded : Pool
loaded = record {
  maxsize = 128;
  minsize = 1;
  hload = 80;
  lload = 20;
  cursize = 5;
  available = 0;
  loadsilver = pos 0;
  workers = workers_of busy ++ worker_of 5 busy ∷ [];
}

-- The default four, which all wait.
abbrev default : Pool
default = record loaded { cursize = 4; available = 4; workers = workers_of ready }

abbrev emptied : Pool
emptied = record default { cursize = 0; available = 0; workers = [] }

abbrev all_start : ℕ → Start
all_start i = registered (i + 10)

abbrev all_end : ℕ → Bool
all_end tid = true

-- A command may take all workers away, and the next check divides by zero.
shrink_run : size_ctl all_start all_end (negsuc 3) default ≡ ok (some 4, emptied)
unfolding size_ctl
shrink_run = refl

empty_run : handle all_start all_end timed_out emptied ≡ fault
unfolding handle
empty_run = refl

-- A thread that registers late waits, and nothing counts it.
late_run :
    handle all_start all_end (registers 0) (record emptied { workers = worker_of 9 in_error ∷ [] })
    ≡ ok (record emptied { workers = worker_of 9 ready ∷ [] })
unfolding handle register
late_run = refl

checks-Still_example : Gives (Still default) (checks all_start all_end 100 default)
checks-Still_example = checks-Still all_start all_end 100 default (omega arith) (inl (omega arith))

checks-target_example :
    (checks all_start all_end 5 loaded ≡ ok (record loaded { loadsilver = pos 5 }))
    × Gives (λ q. q.cursize ≡ target loaded) (checks all_start all_end 6 loaded)
checks-target_example =
    checks-target all_start all_end (λ i. i + 10) (λ i. refl) loaded (omega arith) (omega arith)
      (omega arith) refl
