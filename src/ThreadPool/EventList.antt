-- ===== src/ThreadPool/EventList.antt =====
-- The circular list of fram/module/threadpool/src/eventlist.c, from its head on; the head's `prev`
-- is the last task. NULL is the empty list.
pub mod Order
use my_resource.Base.{
  ℕ, ◌+◌, Bool, true, false, Option, none, some, List, [], ◌∷◌, leb, if◌then◌else◌,
}
use my_resource.Base.Fault.{Run, ok, fault}

-- `ETASK`. `job` stands for the function, its argument and its status, which the list only copies;
-- `priority` is the `int` plus 2 ^ 31, so that the order is the same.
pub record Task : Type 0 where
  pub job : ℕ
  pub priority : ℕ

-- The loop of `EventListADD`, from the last task back to the head: the list with the new task
-- behind the first one that it meets with a priority not above; `none` if it meets none.
unfoldable pub insert_after : List Task → Task → Option (List Task)
insert_after [] t = none
insert_after (x ∷ xs) t = elim (insert_after xs t) [
  | some rest ↦ some (x ∷ rest)
  | none ↦ if leb x.priority t.priority then some (x ∷ t ∷ xs) else none
]

-- `given` is what `Malloc` returns; `memset` runs over NULL.
unfoldable pub add : Bool → List Task → Task → Run (List Task)
unfolding insert_after
add given [] t = if given then ok (t ∷ []) else fault
add given (x ∷ xs) t =
    if given
    then ok (elim (insert_after (x ∷ xs) t) [ some rest ↦ rest | none ↦ t ∷ x ∷ xs ])
    else fault

-- The task, and the list without it.
unfoldable pub pop : List Task → Option (Task × List Task)
pop [] = none
pop (x ∷ xs) = some (x, xs)

-- The number of tasks that were freed.
unfoldable pub destroy : List Task → ℕ
destroy [] = 0
destroy (x ∷ xs) = destroy xs + 1
