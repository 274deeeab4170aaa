-- ===== src/ThreadPool/EventQueue.antt =====
-- The event queue of fram/module/threadpool/src/Tpoolevent.c. The list and its count change under the
-- mutex, so each call is one step. The status is read before, under its own lock: a clear that falls
-- between the two is not among the steps.
pub mod Steps
use my_resource.Base.{
  ℕ, ◌+◌, ◌-◌, Bool, true, false, Option, none, some, List, [], ◌∷◌, ◌==◌, if◌then◌else◌,
}
use my_resource.Base.Fault.{Run, ok, fault, ◌>>=◌}
use my_resource.ThreadPool.EventList.{Task}
use my_resource.ThreadPool.EventList

-- TPOOL_EQINIT, TPOOL_EQREADY and TPOLL_EQUNAVAILABLE.
pub data Status : Type 0 where
  init ready unavailable : Status

abbrev pub is_ready : Status → Bool
is_ready init = false
is_ready ready = true
is_ready unavailable = false

-- `TPOOLEQ` less its locks. `num` is an `int` that stays below 2 ^ 31, one for each task in memory.
pub record Queue : Type 0 where
  pub num : ℕ
  pub status : Status
  pub elist : List Task

-- SUCCESS and SYSERROR.
pub data Code : Type 0 where
  success error : Code

-- What `Tpool_popevt` does: NULL, a wait for the condition, or a task.
pub data Popped : Type 0 where
  refused : Popped
  waits : Popped
  event : Task → Popped

unfoldable pub evt_q_init : Queue
evt_q_init = record { num = 0; status = ready; elist = [] }

unfoldable pub add_evt : Bool → Queue → Task → Run (Code × Queue)
unfolding EventList.add
add_evt given q t =
    if is_ready q.status
    then (EventList.add given q.elist t
        >>= (λ l. ok (success, record q { num = q.num + 1; elist = l })))
    else ok (error, q)

-- `Tpool_popevt` once it holds the mutex, and each time the condition wakes it. The list may be NULL
-- while `num` is not 0 only if they disagree; then NULL is returned.
unfoldable pub pop_locked : Queue → Popped × Queue
unfolding EventList.pop
pop_locked q = if q.num == 0 then (waits, q) else elim (EventList.pop q.elist) [
  | none ↦ (refused, record q { num = q.num - 1 })
  | some (t, rest) ↦ (event t, record q { num = q.num - 1; elist = rest })
]

unfoldable pub pop_evt : Queue → Popped × Queue
unfolding pop_locked
pop_evt q = if is_ready q.status then pop_locked q else (refused, q)

-- The tasks are freed; `num` and the pointer to them stay. The number of tasks freed comes first.
unfoldable pub clr_evt : Queue → ℕ × Queue
unfolding EventList.destroy
clr_evt q =
    if is_ready q.status
    then (EventList.destroy q.elist, record q { status = unavailable })
    else (0, q)
