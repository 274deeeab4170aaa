-- ===== src/ThreadPool/WorkerList.antt =====
-- The list of workers of fram/module/threadpool/src/workerlist.c, from its head on; NULL is the
-- empty list.
pub mod Laws
use my_resource.Base.{
  ℕ, ◌+◌, Bool, true, false, Option, none, some, List, [], ◌∷◌, ◌++◌, ◌==◌, if◌then◌else◌,
}

-- SUCCESS and SYSERROR.
pub data Code : Type 0 where
  success error : Code

-- `TWORKER` less its locks. A thread id is a number; `role` is MONITOR or WORKER and `status` one of
-- the WORKER... constants.
pub record Worker : Type 0 where
  pub thread_id : ℕ
  pub role : ℕ
  pub status : ℕ

unfoldable pub destroy : List Worker → ℕ
destroy [] = 0
destroy (w ∷ ws) = destroy ws + 1

-- `given` is what `Malloc` returns.
unfoldable pub add : Bool → List Worker → Worker → Code × List Worker
add given ws w = if given then (success, ws ++ w ∷ []) else (error, ws)

-- `WorkerListInsert`: the worker comes with the workers behind it; in an empty list only the
-- function's own parameter changes.
unfoldable pub insert : List Worker → Worker → List Worker → Code × List Worker
insert [] w behind = (success, [])
insert (x ∷ xs) w behind = (success, x ∷ xs ++ w ∷ behind)

-- The number of workers that were freed, and the list.
unfoldable pub del : List Worker → ℕ → ℕ × List Worker
del [] tid = (0, [])
del (w ∷ ws) tid =
    let rest = del ws tid in
    if w.thread_id == tid then (rest.0 + 1, rest.1) else (rest.0, w ∷ rest.1)

unfoldable pub get_worker_by_id : List Worker → ℕ → Option Worker
get_worker_by_id [] tid = none
get_worker_by_id (w ∷ ws) tid =
    let rest = get_worker_by_id ws tid in if w.thread_id == tid then some w else rest
