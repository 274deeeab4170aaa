-- ===== src/ThreadPool/Calls.antt =====
-- The calls of a program on the thread pool, fram/module/threadpool/src/Tpool.c, and the monitor of
-- Tpoolcore.c that carries them out. One thread of the program makes the calls, one after the other.
-- A step is what a thread does while it holds a lock, from one wait to the next; the monitor keeps
-- `olock` from the end of its wait until it has cleared the command, so that a caller cannot hand
-- over the next one before.
pub mod Returned
pub mod Turns
pub mod Sized
pub mod Create
pub mod Created
pub mod Ended
mod Tests
use my_resource.Base.{
  ℕ, zero, suc, ◌+◌, Bool, true, false, ◌&&◌, Option, none, some, List, [], ◌∷◌, leb, ◌==◌,
  if◌then◌else◌,
}
use my_resource.Base.Fault.{Run, ok, fault, ◌>>=◌}
use my_resource.ThreadPool.WorkerList.{Worker, Code, success, error}
use my_resource.ThreadPool.Core.{
  ℤ, pos, negsuc, Pool, Start, create_worker, cancel_worker, size_ctl, Event, timed_out, command,
  begins, finishes, registers, handle,
}

-- TPOOL_INIT, TPOOL_READY, TPOOL_UNAVAILABLE.
pub data Status : Type 0 where
  init ready unavailable : Status

-- The number that `command.iargs` points to: on the heap, or freed.
pub data Cell : Type 0 where
  live : ℤ → Cell
  freed : Cell

-- `command.command`, with `command.iargs` where it is read.
pub data Order : Type 0 where
  nothing destroy : Order
  resize : Cell → Order

-- The monitor waits for a command, has carried one out but not reported it, or has ended.
pub data Monitor : Type 0 where
  waiting exited : Monitor
  working : Code → Monitor

-- The program is in no call, or waits in `Tpool_sizectl` or in `Tpool_destroy`.
pub data Caller : Type 0 where
  idle asks_size asks_end : Caller

-- `TPOOL`, with `command.result`, where TPOOL_RETNONE is `none`, and where the two threads are.
pub record State : Type 0 where
  pub pool : Pool
  pub status : Status
  pub order : Order
  pub result : Option Code
  pub monitor : Monitor
  pub caller : Caller

abbrev pub state : Pool → Status → Order → Option Code → Monitor → Caller → State
state p st o r m c = record {
  pool = p;
  status = st;
  order = o;
  result = r;
  monitor = m;
  caller = c;
}

-- The loop of `_Tpool_destroy`.
unfoldable pub cancel_all : (ℕ → Bool) → List Worker → Pool → Run Pool
unfolding cancel_worker
cancel_all ended [] p = ok p
cancel_all ended (w ∷ ws) p =
    cancel_worker (ended w.thread_id) w.status p >>= λ r. cancel_all ended ws r.2

-- `_Tpool_destroy`, less the event queue.
unfoldable pub destroy_pool : (ℕ → Bool) → Pool → Run Pool
unfolding cancel_all
destroy_pool ended p = cancel_all ended p.workers p >>= λ q. ok (record q { workers = [] })

abbrev pub code_of : Option ℕ → Code
code_of none = error
code_of (some n) = success

-- What the monitor does with a command. To read the number that the caller has freed is a fault.
unfoldable pub carry_out : (ℕ → Start) → (ℕ → Bool) → Order → State → Run State
unfolding destroy_pool size_ctl
carry_out start ended nothing s = ok s
carry_out start ended destroy s = destroy_pool ended s.pool >>= λ p.
    ok (record s { pool = p; status = unavailable; monitor = working success })
carry_out start ended (resize freed) s = fault
carry_out start ended (resize (live z)) s = size_ctl start ended z s.pool >>= λ r.
    ok (record s { pool = r.1; monitor = working (code_of r.0) })

-- Having reported the end of the pool the monitor ends too.
abbrev pub next_wait : Order → Monitor
next_wait destroy = exited
next_wait nothing = waiting
next_wait (resize c) = waiting

abbrev pub free_cell : Order → Order
free_cell nothing = nothing
free_cell destroy = destroy
free_cell (resize c) = resize freed

-- The end of `Tpool_sizectl`, whether a result has come or the time is over.
abbrev pub leave : State → State
leave s = record s { result = none; order = free_cell s.order; caller = idle }

-- `Tpool_sizectl` and `Tpool_destroy` up to their wait. On a pool that is not ready they return.
unfoldable pub call : Order → Caller → State → State
call o c s = elim s.caller [
  | asks_size ↦ s
  | asks_end ↦ s
  | idle ↦ elim s.status [
    | init ↦ s
    | unavailable ↦ s
    | ready ↦ elim s.monitor [
      | waiting ↦ record s { order = o; caller = c }
      | working k ↦ s
      | exited ↦ s
    ]
  ]
]

unfoldable pub take : (ℕ → Start) → (ℕ → Bool) → State → Run State
unfolding carry_out
take start ended s = elim s.monitor [
  | waiting ↦ carry_out start ended s.order s
  | working c ↦ ok s
  | exited ↦ ok s
]

unfoldable pub report : State → State
report s = elim s.monitor [
  | waiting ↦ s
  | working c ↦ record s { result = some c; order = nothing; monitor = next_wait s.order }
  | exited ↦ s
]

-- The wait of a call ends: by a result, or by the time.
unfoldable pub return : State → State
return s = elim s.result [
  | none ↦ s
  | some c ↦ elim s.caller [
    | idle ↦ s
    | asks_size ↦ leave s
    | asks_end ↦ record s { caller = idle }
  ]
]

unfoldable pub give_up : State → State
give_up s = elim s.caller [ idle ↦ s | asks_size ↦ leave s | asks_end ↦ record s { caller = idle } ]

-- What happens in the pool besides: a check of the load while the monitor waits, and the workers.
unfoldable pub inside : (ℕ → Start) → (ℕ → Bool) → Event → State → Run State
unfolding handle
inside start ended timed_out s = elim s.monitor [
  | waiting ↦ handle start ended timed_out s.pool >>= λ p. ok (record s { pool = p })
  | working c ↦ ok s
  | exited ↦ ok s
]
inside start ended (command z) s = ok s
inside start ended (begins i) s =
    handle start ended (begins i) s.pool >>= λ p. ok (record s { pool = p })
inside start ended (finishes i) s =
    handle start ended (finishes i) s.pool >>= λ p. ok (record s { pool = p })
inside start ended (registers i) s =
    handle start ended (registers i) s.pool >>= λ p. ok (record s { pool = p })

pub data Move : Type 0 where
  calls_size : ℤ → Move
  calls_end takes reports returns gives_up : Move
  happens : Event → Move

-- A move that is not possible changes nothing.
unfoldable pub move : (ℕ → Start) → (ℕ → Bool) → Move → State → Run State
unfolding call take report return give_up inside
move start ended (calls_size z) s = ok (call (resize (live z)) asks_size s)
move start ended calls_end s = ok (call destroy asks_end s)
move start ended takes s = take start ended s
move start ended reports s = ok (report s)
move start ended returns s = ok (return s)
move start ended gives_up s = ok (give_up s)
move start ended (happens e) s = inside start ended e s

unfoldable pub moves : (ℕ → Start) → (ℕ → Bool) → List Move → State → Run State
unfolding move
moves start ended [] s = ok s
moves start ended (m ∷ ms) s = move start ended m s >>= λ t. moves start ended ms t
