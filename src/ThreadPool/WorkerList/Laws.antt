-- ===== src/ThreadPool/WorkerList/Laws.antt =====
-- What the operations on the list of workers mean for a lookup.
use my_resource.Base.{
  ℕ, ◌+◌, ◌≡◌, refl, Bool, true, false, ◌&&◌, Option, none, some, List, [], ◌∷◌, arith, ◌==◌,
  if◌then◌else◌, length, Bool-cases, inl, inr,
}
use my_resource.ThreadPool.WorkerList.{Worker, add, del, get_worker_by_id}

-- `WorkerListDEL` returns how many workers it removed, leaves none with the thread id, and leaves
-- every other thread id as it was for a lookup.
pub del-get_worker :
    (ws : List Worker) (tid : ℕ)
    → ((del ws tid).0 + length (del ws tid).1 ≡ length ws)
      × ((j : ℕ)
          → get_worker_by_id (del ws tid).1 j ≡ (if tid == j then none else get_worker_by_id ws j))
unfolding del get_worker_by_id
del-get_worker [] tid = (omega arith, λ j. ground arith)
del-get_worker (w ∷ ws) tid =
    let (count, ih) = del-get_worker ws tid in (ground arith, λ j. ground (arith, ih j))

-- After a successful `WorkerListADD`, a lookup of a thread id gives the worker that was there before,
-- or else the new one; if `Malloc` fails, SYSERROR is returned and the list stays.
pub add-get_worker :
    (given : Bool) (ws : List Worker) (w : Worker) (j : ℕ)
    → get_worker_by_id (add given ws w).1 j ≡ elim (get_worker_by_id ws j) [
      | some x ↦ some x
      | none ↦ if given && w.thread_id == j then some w else none
    ]
unfolding add get_worker_by_id
add-get_worker true [] w j = refl
add-get_worker true (x ∷ xs) w j = elim (Bool-cases (x.thread_id == j)) [
  | inl h ↦ rw h refl
  | inr h ↦ rw h (add-get_worker true xs w j)
]
add-get_worker false ws w j = unchanged (get_worker_by_id ws j)
  where
    unchanged :
        (o : Option Worker)
        → o ≡ elim o [ some x ↦ some x | none ↦ if false && w.thread_id == j then some w else none ]
    unchanged none = refl
    unchanged (some x) = refl
