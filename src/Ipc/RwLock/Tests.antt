-- ===== src/Ipc/RwLock/Tests.antt =====
-- Runs of the lock, and the theorems at small inputs.
use my_resource.Base.{ℕ, ◌≡◌, refl, none, some, [], ◌∷◌, arith, get_elem?}
use my_resource.Ipc.RwLock.{
  idle, locking, writing, Process, w_locked, go, time_out, State, rw_lock_create, step, Reach, here,
  next,
}
use my_resource.Ipc.RwLock.Writers.{Reach-one_writer}
use my_resource.Ipc.RwLock.Readers.{Reach-reader_enters, Reach-reader_meets_writer}

abbrev resting : Process
resting = record { phase = idle; reads = 0 }

abbrev two : State
two = record { sems = record { sem0 = 1; sem1 = 1 }; procs = resting ∷ resting ∷ [] }

abbrev half : State
half = record {
  sems = record { sem0 = 1; sem1 = 0 };
  procs = record { phase = locking; reads = 0 } ∷ resting ∷ [];
}

abbrev written : State
written = record {
  sems = record { sem0 = 0; sem1 = 0 };
  procs = record { phase = writing; reads = 0 } ∷ resting ∷ [];
}

create_run : rw_lock_create 2 ≡ two
unfolding rw_lock_create
create_run = refl

first_step : step 0 w_locked (rw_lock_create 2) ≡ some half
unfolding step rw_lock_create
first_step = refl

second_step : step 0 go half ≡ some written
unfolding step
second_step = refl

reached : Reach (rw_lock_create 2) written
reached = next 0 go (next 0 w_locked here first_step) second_step

Reach-one_writer_example : ◌≡◌ {A = ℕ} 0 0
Reach-one_writer_example =
    Reach-one_writer 2 written reached 0 0 (record { phase = writing; reads = 0 })
      (record { phase = writing; reads = 0 }) refl refl refl refl

Reach-reader_enters_example :
    (t : State) × Reach written t
    × (get_elem? t.procs 1 ≡ some (record { phase = idle; reads = 1 }))
Reach-reader_enters_example = Reach-reader_enters 2 written reached 1 0 refl

abbrev start : State
start = rw_lock_create 2

first_rests : get_elem? start.procs 0 ≡ some resting
unfolding rw_lock_create
first_rests = refl

second_rests : get_elem? start.procs 1 ≡ some resting
unfolding rw_lock_create
second_rests = refl

one_left : start.sems.sem1 ≡ 1
unfolding rw_lock_create
one_left = refl

Reach-reader_meets_writer_example :
    (t : State) × Reach start t
    × (get_elem? t.procs 0 ≡ some (record { phase = writing; reads = 0 }))
    × (get_elem? t.procs 1 ≡ some (record { phase = idle; reads = 1 }))
Reach-reader_meets_writer_example =
    Reach-reader_meets_writer 2 start here 0 1 0 0 0 (omega arith) first_rests second_rests one_left

-- A writer whose second wait ends by TIMEOUT keeps the second semaphore: no writer gets in behind it.
time_out_run : step 0 time_out half ≡ some (record half { procs = resting ∷ resting ∷ [] })
unfolding step
time_out_run = refl

shut_out : step 1 w_locked (record half { procs = resting ∷ resting ∷ [] }) ≡ none
unfolding step
shut_out = refl
