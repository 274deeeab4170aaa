-- ===== src/ThreadPool/Core.antt =====
-- The size of the thread pool: fram/module/threadpool/src/Tpoolcore.c. What the monitor thread does
-- between two waits is one event, and so is a change of a worker's status, which it makes under the
-- locks of the pool; a worker that moves while the monitor cancels it is not among the events.
pub mod Count
pub mod Resize
pub mod Steps
pub mod Load
pub mod Growth
mod Tests
use my_resource.Base.{
  ℕ, zero, suc, ◌+◌, ◌-◌, ◌*◌, ◌/◌, Bool, true, false, ◌||◌, Option, none, some, List, [], ◌∷◌,
  ◌++◌, leb, ltb, ◌==◌, if◌then◌else◌, set, get_elem?,
}
use my_resource.Base.Fault.{Run, ok, fault, ◌>>=◌}
use my_resource.ThreadPool.WorkerList.{Worker, Code, success, error}

-- An `int` that may be negative.
pub data ℤ : Type 0 where
  pos : ℕ → ℤ
  negsuc : ℕ → ℤ

infixl 20 ◌⊖◌
abbrev pub ◌⊖◌ : ℕ → ℕ → ℤ
a ⊖ zero = pos a
zero ⊖ suc b = negsuc b
suc a ⊖ suc b = a ⊖ b

-- WORKER and the WORKER... constants of workerlist.h.
abbrev pub worker : ℕ
worker = 2

abbrev pub ready : ℕ
ready = 1

abbrev pub in_error : ℕ
in_error = 2

abbrev pub busy : ℕ
busy = 3

abbrev pub dead : ℕ
dead = 4

abbrev pub be_free : ℕ
be_free = 6

-- `TPOOL` less its locks, its event queue, its command and `rate`, which only `Tpool_loadcal` reads,
-- with the attributes that control its size. `workers` are those behind the head of the list, which
-- is the monitor and never ready.
pub record Pool : Type 0 where
  pub maxsize : ℕ
  pub minsize : ℕ
  pub hload : ℕ
  pub lload : ℕ
  pub cursize : ℕ
  pub available : ℕ
  pub loadsilver : ℤ
  pub workers : List Worker

-- How the creation of a worker ends: `Malloc` or `pthread_create` fails, the thread does not
-- register before the creator gives up, or it does.
pub data Start : Type 0 where
  refused : Start
  unregistered : ℕ → Start
  registered : ℕ → Start

abbrev pub worker_of : ℕ → ℕ → Worker
worker_of tid status = record { thread_id = tid; role = worker; status = status }

-- One turn of the loop of `Tpool_createworker`, with the turns behind it. A worker whose thread does
-- not register in time stays in the list; its thread may still do so, which is the event `registers`.
unfoldable pub attempt : Start → (Pool → Code × Pool) → Pool → Code × Pool
attempt refused rest p = (error, p)
attempt (unregistered tid) rest p =
    (error, record p { workers = p.workers ++ worker_of tid in_error ∷ [] })
attempt (registered tid) rest p = rest (record p {
  cursize = p.cursize + 1;
  available = p.available + 1;
  workers = p.workers ++ worker_of tid ready ∷ [];
})

unfoldable pub create_worker : (ℕ → Start) → ℕ → Pool → Code × Pool
unfolding attempt
create_worker start zero p = (success, p)
create_worker start (suc n) p = attempt (start n) (create_worker start n) p

-- The counters are natural numbers. The `int` of the code goes below 0 where this is a fault, at which
-- the model stops; a pool whose counters are the numbers of its workers does not come there by the
-- events below.
unfoldable pub lower : ℕ → Run ℕ
lower zero = fault
lower (suc n) = ok n

-- `Tpool_cancelworker` of a worker with the status: what it returns, the status then, and the pool.
-- `ended` says whether the thread ends before the canceller gives up.
unfoldable pub cancel_worker : Bool → ℕ → Pool → Run (Code × ℕ × Pool)
unfolding lower
cancel_worker ended status p =
    if status == dead
    then ok (success, status, p)
    else (lower p.cursize >>= λ c.
        (if status == ready || status == be_free then lower p.available else ok p.available)
        >>= λ a. ok (
          (if ended then success else error),
          (if ended then dead else in_error),
          record p { cursize = c; available = a },
        ))

-- The loop of `_Tpool_sizectl` that shrinks the pool, with the number of workers still to go: the
-- workers that are kept, and that number in the end. What `Tpool_cancelworker` returns is not looked
-- at, and `WorkerListDEL` takes out the worker, whose thread id no other has.
unfoldable pub shrink : (ℕ → Bool) → ℕ → List Worker → Pool → Run (List Worker × ℕ × Pool)
unfolding cancel_worker
shrink ended zero ws p = ok (ws, zero, p)
shrink ended (suc n) [] p = ok ([], suc n, p)
shrink ended (suc n) (w ∷ ws) p =
    if w.status == ready
    then (cancel_worker (ended w.thread_id) be_free p >>= λ r. shrink ended n ws r.2)
    else (shrink ended (suc n) ws p >>= λ r. ok (w ∷ r.0, r.1, r.2))

-- `_Tpool_sizectl`: `none` is SYSERROR. The sum of `cursize` and the size is that of the code as long
-- as an `int` holds it.
unfoldable pub size_ctl : (ℕ → Start) → (ℕ → Bool) → ℤ → Pool → Run (Option ℕ × Pool)
unfolding create_worker shrink
size_ctl start ended (pos zero) p = ok (none, p)
size_ctl start ended (pos (suc n)) p =
    if ltb p.maxsize (p.cursize + suc n)
    then ok (none, p)
    else (let (code, q) = create_worker start (suc n) p in
        ok (elim code [ success ↦ some 0 | error ↦ none ], q))
size_ctl start ended (negsuc n) p =
    if ltb p.available (suc n)
    then ok (none, p)
    else (shrink ended (suc n) p.workers p >>= λ r.
        ok (some (suc n - r.1), record r.2 { workers = r.0 }))

-- `loadsilver` when the load is high, and when it is low.
abbrev pub higher : ℤ → ℤ
higher (pos n) = pos (suc n)
higher (negsuc n) = pos 1

abbrev pub falling : ℤ → ℤ
falling (pos n) = negsuc 0
falling (negsuc n) = negsuc (suc n)

abbrev pub new_silver : ℕ → Pool → ℤ
new_silver rate p =
    if leb p.hload rate
    then higher p.loadsilver
    else if leb rate p.lload
    then falling p.loadsilver
    else p.loadsilver

-- What `Tpool_loadcal` returns at a `loadsilver`.
abbrev pub change : ℤ → ℕ → ℤ
change (pos n) size = if ltb 5 n then pos (size / 5) else pos 0
change (negsuc n) size = if ltb 5 (suc n) then 0 ⊖ size / 5 else pos 0

-- `Tpool_loadcal`. Without workers it divides by zero. `available` is at most `cursize`, or the load
-- is negative and as low as 0.
unfoldable pub load_cal : Pool → Run (ℤ × Pool)
load_cal p =
    if p.cursize == 0
    then fault
    else (let silver = new_silver ((p.cursize - p.available) * 100 / p.cursize) p in
        if p.cursize == p.maxsize
        then ok (pos 0, p)
        else ok (change silver p.cursize, record p { loadsilver = silver }))

-- The part of `Tpool_monitor` for a wait that ends by ETIMEDOUT, once `Tpool_loadcal` has returned.
unfoldable pub adjust : (ℕ → Start) → (ℕ → Bool) → ℤ → Pool → Run Pool
unfolding size_ctl
adjust start ended (pos zero) p = ok p
adjust start ended (pos (suc n)) p =
    size_ctl start ended
      (if ltb p.maxsize (p.cursize + suc n) then p.maxsize ⊖ p.cursize else pos (suc n)) p
    >>= λ r. ok (record r.1 { loadsilver = pos 0 })
adjust start ended (negsuc n) p =
    size_ctl start ended
      (if ltb p.cursize (p.minsize + suc n) then p.minsize ⊖ p.cursize else negsuc n) p
    >>= λ r. ok (record r.1 { loadsilver = pos 0 })

unfoldable pub check : (ℕ → Start) → (ℕ → Bool) → Pool → Run Pool
unfolding load_cal adjust
check start ended p = load_cal p >>= λ r. adjust start ended r.0 r.1

-- The statuses that `Tpool_task` sets around the task, with the counter; nothing happens to a worker
-- that does not wait, or is not at work.
unfoldable pub begin : Option Worker → ℕ → Pool → Run Pool
unfolding lower
begin none i p = ok p
begin (some w) i p =
    if w.status == ready
    then (lower p.available >>= λ a.
        ok (record p { available = a; workers = set p.workers i (record w { status = busy }) }))
    else ok p

unfoldable pub finish : Option Worker → ℕ → Pool → Pool
finish none i p = p
finish (some w) i p =
    if w.status == busy
    then record p {
      available = p.available + 1;
      workers = set p.workers i (record w { status = ready });
    }
    else p

-- A thread registers after its creator has given up: the worker waits, and nothing counts it.
unfoldable pub register : Option Worker → ℕ → Pool → Pool
register none i p = p
register (some w) i p =
    if w.status == in_error
    then record p { workers = set p.workers i (record w { status = ready }) }
    else p

-- A check of the load, a command TPOOL_SIZECTL, a worker that begins a task or ends it, and a thread
-- that registers late.
pub data Event : Type 0 where
  timed_out : Event
  command : ℤ → Event
  begins : ℕ → Event
  finishes : ℕ → Event
  registers : ℕ → Event

unfoldable pub handle : (ℕ → Start) → (ℕ → Bool) → Event → Pool → Run Pool
unfolding check size_ctl begin finish register
handle start ended timed_out p = check start ended p
handle start ended (command size) p = size_ctl start ended size p >>= λ r. ok r.1
handle start ended (begins i) p = begin (get_elem? p.workers i) i p
handle start ended (finishes i) p = ok (finish (get_elem? p.workers i) i p)
handle start ended (registers i) p = ok (register (get_elem? p.workers i) i p)
