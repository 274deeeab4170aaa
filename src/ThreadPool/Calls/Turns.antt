-- ===== src/ThreadPool/Calls/Turns.antt =====
-- The program and the monitor take turns, as long as no call gives up.
use my_resource.Base.{ℕ, ◌≡◌, Bool, true, false, Option, none, some}
use my_resource.Base.Fault.{ok}
use my_resource.ThreadPool.WorkerList.{Code}
use my_resource.ThreadPool.Core.{ℤ, Pool, Start, command}
use my_resource.ThreadPool.Core.Count.{IsBalanced}
use my_resource.ThreadPool.Core.Steps.{IsRegular}
use my_resource.ThreadPool.Calls.{
  Status, ready, unavailable, live, freed, Order, nothing, destroy, resize, Monitor, waiting,
  working, exited, Caller, idle, asks_size, asks_end, State, state, Move, calls_size, calls_end,
  takes, reports, returns, gives_up, happens, move,
}

-- Whose turn it is. The number of a command is there until the call has its result.
pub data Turn : Status → Order → Option Code → Monitor → Caller → Type 0 where
  free : Turn ready nothing none waiting idle
  size_asked : (z : ℤ) → Turn ready (resize (live z)) none waiting asks_size
  size_done : (z : ℤ) (c : Code) → Turn ready (resize (live z)) none (working c) asks_size
  size_told : (c : Code) → Turn ready nothing (some c) waiting asks_size
  end_asked : Turn ready destroy none waiting asks_end
  end_done : (c : Code) → Turn unavailable destroy none (working c) asks_end
  end_told : (c : Code) → Turn unavailable nothing (some c) exited asks_end
  over : (c : Code) → Turn unavailable nothing (some c) exited idle

pub record InTurn (s : State) : Type 0 where
  pub turn : Turn s.status s.order s.result s.monitor s.caller
  pub balanced : s.status ≡ ready → IsBalanced s.pool

-- No call gives up, no thread registers after its creator has given up, and what is computed from the
-- sizes of the pool is in the range of an `int`.
abbrev pub IsAllowed : Move → State → Type 0
IsAllowed (calls_size z) s = Unit
IsAllowed calls_end s = Unit
IsAllowed takes s = (z : ℤ) → s.order ≡ resize (live z) → IsRegular (command z) s.pool
IsAllowed reports s = Unit
IsAllowed returns s = Unit
IsAllowed gives_up s = ⊥
IsAllowed (happens e) s = IsRegular e s.pool

-- Allowed moves in any order. A run ends where a step is a fault.
pub data Reach (s : State) : State → Type 0 where
  here : Reach s s
  next :
      (start : ℕ → Start) (ended : ℕ → Bool) (m : Move) {q r : State}
      → Reach s q
      → IsAllowed m q
      → move start ended m q ≡ ok r
      → Reach s r

has_freed : Order → Bool
has_freed nothing = false
has_freed destroy = false
has_freed (resize (live z)) = false
has_freed (resize freed) = true

-- A ready pool, no call, no command and no result.
abbrev pub fresh : Pool → State
fresh p = state p ready nothing none waiting idle
