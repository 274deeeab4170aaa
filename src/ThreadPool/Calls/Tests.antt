-- ===== src/ThreadPool/Calls/Tests.antt =====
-- Runs of the calls, and the theorems at a pool of two workers.
use my_resource.Base.{ℕ, ◌+◌, ◌≡◌, refl, Bool, true, some, [], ◌∷◌}
use my_resource.Base.Fault.{ok, fault}
use my_resource.ThreadPool.WorkerList.{success}
use my_resource.ThreadPool.Core.{
  ℤ, pos, negsuc, Pool, Start, registered, refused, size_ctl, create_worker, attempt, shrink,
  cancel_worker, lower, worker_of, busy,
}
use my_resource.ThreadPool.Core as Core
use my_resource.ThreadPool.Calls.{
  idle, state, nothing, calls_size, calls_end, takes, reports, returns, gives_up, move, moves, call,
  take, carry_out, report, return, cancel_all, destroy_pool, exited, unavailable,
}
use my_resource.ThreadPool.Calls.Create.{Attr, filled, with_attr, create}
use my_resource.ThreadPool.Calls.Turns.{fresh}
use my_resource.ThreadPool.Calls.Sized.{gives_up-fault}
use my_resource.ThreadPool.Calls.Created.{Ready, create-Ready}

abbrev starts : ℕ → Start
starts n = registered (n + 10)

abbrev ends : ℕ → Bool
ends n = true

abbrev raw : Pool
raw = record {
  maxsize = 0;
  minsize = 0;
  hload = 0;
  lload = 0;
  cursize = 0;
  available = 0;
  loadsilver = pos 0;
  workers = [];
}

-- One worker waits and one works.
abbrev pool : Pool
pool = record {
  maxsize = 8;
  minsize = 1;
  hload = 80;
  lload = 20;
  cursize = 2;
  available = 1;
  loadsilver = pos 0;
  workers = worker_of 4 Core.ready ∷ worker_of 5 busy ∷ [];
}

abbrev larger : Pool
larger = record pool {
  cursize = 3;
  available = 2;
  workers = worker_of 4 Core.ready ∷ worker_of 5 busy ∷ worker_of 10 Core.ready ∷ [];
}

grow_run : size_ctl starts ends (pos 1) pool ≡ ok (some 0, larger)
unfolding size_ctl create_worker attempt
grow_run = refl

call_run :
    moves starts ends (calls_size (pos 1) ∷ takes ∷ reports ∷ returns ∷ []) (fresh pool)
    ≡ ok (fresh larger)
unfolding moves move call take carry_out report return size_ctl create_worker attempt
call_run = refl

-- The pool after Tpool_destroy.
end_run :
    moves starts ends (calls_end ∷ takes ∷ reports ∷ returns ∷ []) (fresh pool)
    ≡ ok (
        state
          (record pool { cursize = 0; available = 0; workers = [] })
          unavailable
          nothing
          (some success)
          exited
          idle)
unfolding moves move call take carry_out report return destroy_pool cancel_all cancel_worker lower
end_run = refl

gives_up-fault_example :
    (moves starts ends (calls_size (pos 1) ∷ gives_up ∷ takes ∷ []) (fresh pool) ≡ fault)
    × (moves starts ends
          (calls_size (pos 1)
            ∷ takes
            ∷ gives_up
            ∷ reports
            ∷ calls_size (pos 2)
            ∷ returns
            ∷ takes
            ∷ [])
          (fresh pool)
        ≡ fault)
gives_up-fault_example = gives_up-fault starts ends pool (pos 2) (pos 1) (some 0, larger) grow_run

abbrev attr : Attr
attr = record {
  maxsize = pos 2;
  minsize = pos 0;
  defsize = pos 3;
  hload = pos 0;
  lload = pos 10;
  autoflag = pos 0;
  frequency = pos 0;
  overtime = pos 0;
}

-- Three workers in a pool for two.
create_run : (create starts true true attr raw).2.cursize ≡ 3
unfolding create filled with_attr create_worker attempt
create_run = refl

create-Ready_example : Ready 2 0 3 (create starts true true attr raw)
create-Ready_example = create-Ready starts true true attr raw 2 0 3 refl refl refl refl refl
