-- ===== src/ThreadPool/Calls/Ended.antt =====
-- What `_Tpool_destroy` does to the counters of a pool.
use my_resource.Base.{ℕ, ◌+◌, ◌≡◌, ◌⊎◌, refl, Bool, List, [], ◌∷◌, ◌==◌, arith, inl, inr}
use my_resource.Base.Fault.{Gives, Gives->>=}
use my_resource.ThreadPool.WorkerList.{Worker}
use my_resource.ThreadPool.Core.{Pool, ready, busy, cancel_worker}
use my_resource.ThreadPool.Core.Count.{count, one_if, IsBalanced, lower-pos}
use my_resource.ThreadPool.Calls.{cancel_all, destroy_pool}

-- Every worker waits or works.
abbrev pub AllUp : List Worker → Type 0
AllUp [] = Unit
AllUp (w ∷ ws) = (w.status ≡ ready ⊎ w.status ≡ busy) × AllUp ws

-- The counters are those of these workers.
Counts : List Worker → Pool → Type 0
Counts ws p = (p.available ≡ count ready ws) × (p.cursize ≡ count ready ws + count busy ws)

cancel_one :
    (ended : Bool) (w : Worker) (ws : List Worker) (p : Pool)
    → (w.status ≡ ready ⊎ w.status ≡ busy)
    → Counts (w ∷ ws) p
    → Gives (λ r. Counts ws r.2) (cancel_worker ended w.status p)
unfolding Counts cancel_worker
cancel_one ended w ws p (inl e) (a, c) =
    let one : one_if (w.status == ready) ≡ 1 = rw e refl in
    let none_busy : one_if (w.status == busy) ≡ 0 = rw e refl in
    rw e (
      rw (lower-pos p.cursize (omega arith), lower-pos p.available (omega arith))
        (omega arith, omega arith))
cancel_one ended w ws p (inr e) (a, c) =
    let none_ready : one_if (w.status == ready) ≡ 0 = rw e refl in
    let one : one_if (w.status == busy) ≡ 1 = rw e refl in
    rw e (rw (lower-pos p.cursize (omega arith)) (omega arith, omega arith))

cancel_all-Counts :
    (ended : ℕ → Bool) (ws : List Worker) (p : Pool)
    → AllUp ws
    → Counts ws p
    → Gives (Counts []) (cancel_all ended ws p)
unfolding cancel_all
cancel_all-Counts ended [] p u c = c
cancel_all-Counts ended (w ∷ ws) p (h, u) c =
    Gives->>= _ _ (cancel_worker (ended w.thread_id) w.status p) _
      (cancel_one (ended w.thread_id) w ws p h c) λ r k. cancel_all-Counts ended ws r.2 u k

-- _Tpool_destroy on a pool with balanced counters, whose workers all wait or work, counts every worker
-- off exactly once: both counters end at 0, and no worker is left in the list.
pub destroy_pool-empty :
    (ended : ℕ → Bool) (p : Pool)
    → IsBalanced p
    → AllUp p.workers
    → Gives (λ q. (q.cursize ≡ 0) × (q.available ≡ 0) × (q.workers ≡ [])) (destroy_pool ended p)
unfolding destroy_pool Counts
destroy_pool-empty ended p v u =
    Gives->>= _ _ (cancel_all ended p.workers p) _
      (cancel_all-Counts ended p.workers p u (v.waiting, v.counted)) λ q (a, c). (c, a, refl)
