-- ===== src/ThreadPool/Tests.antt =====
-- Runs of the lists and of the event queue, and the theorems at small inputs.
use my_resource.Base.{◌≡◌, refl, true, List, [], ◌∷◌, ◌++◌, arith}
use mathlib.Core.List.{Perm}
use my_resource.Base.Fault.{ok}
use my_resource.ThreadPool.EventList.{Task}
use my_resource.ThreadPool.EventList
use my_resource.ThreadPool.EventList.Order.{ahead, behind, IsQueue, add-order}
use my_resource.ThreadPool.EventQueue.{Queue, evt_q_init, ready, success, add_evt, pop_evt}
use my_resource.ThreadPool.EventQueue.Steps.{Reach, here, next, add_step, PopResult, reach-pop_evt}
use my_resource.ThreadPool.WorkerList.{Worker}
use my_resource.ThreadPool.WorkerList

abbrev tasks : List Task
tasks = record { job = 1; priority = 2 } ∷ record { job = 2; priority = 5 } ∷ []

abbrev task : Task
task = record { job = 3; priority = 2 }

add_run :
    EventList.add true tasks task
    ≡ ok (record { job = 1; priority = 2 } ∷ task ∷ record { job = 2; priority = 5 } ∷ [])
unfolding EventList.add EventList.insert_after
add_run = refl

add-order_example :
    (EventList.add true tasks task
      ≡ ok (ahead task.priority tasks ++ task ∷ behind task.priority tasks))
    × IsQueue (ahead task.priority tasks ++ task ∷ behind task.priority tasks)
    × Perm (ahead task.priority tasks ++ task ∷ behind task.priority tasks) (task ∷ tasks)
add-order_example = add-order tasks task ((omega arith, tt), (tt, tt))

abbrev one : Queue
one = record { num = 1; status = ready; elist = task ∷ [] }

added : add_evt true evt_q_init task ≡ ok (success, one)
unfolding add_evt evt_q_init EventList.add
added = refl

reached : Reach evt_q_init one
reached = next here (add_step task added)

reach-pop_evt_example : PopResult one (pop_evt one)
reach-pop_evt_example = reach-pop_evt reached refl

abbrev workers : List Worker
workers =
    record { thread_id = 7; role = 2; status = 1 }
    ∷ record { thread_id = 8; role = 2; status = 1 }
    ∷ record { thread_id = 7; role = 1; status = 3 }
    ∷ []

-- `WorkerListInsert` into the empty list returns SUCCESS and inserts nothing.
insert_empty :
    WorkerList.insert [] (record { thread_id = 7; role = 2; status = 1 }) []
    ≡ (WorkerList.success, [])
unfolding WorkerList.insert
insert_empty = refl
