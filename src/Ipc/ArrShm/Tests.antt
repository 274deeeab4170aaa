-- ===== src/Ipc/ArrShm/Tests.antt =====
-- Runs and concrete uses of what is proved of the arrays in shared memory.
use my_resource.Base.{ℕ, ◌≡◌, refl, inl, true, some, List, [], ◌∷◌, ◌++◌, replicate, arith}
use my_resource.Base.Fault.{ok, Gives}
use my_resource.Ipc.ArrShm.{Arr, success, clean, dirty, created, format, insert, delete}
use my_resource.Ipc.ArrShm.Blocks.{free_from}
use my_resource.Ipc.ArrShm.Insert.{IsArray, Outcome, insert-Outcome}
use my_resource.Ipc.ArrShm.Overrun.{Overrun, insert-Overrun}
use my_resource.Ipc.ArrShm.Create.{Attr, System, create, get_attr, create-Reach}
use my_resource.Ipc.ArrShm.Reach.{here, inserted}

-- A segment of 100 bytes behind the head, and the same with three blocks of 32 bytes.
abbrev segment : Arr
segment = created 140 (replicate 100 7)

abbrev slot : List ℕ → List ℕ
slot flag = flag ++ replicate 24 0

abbrev formatted : Arr
formatted = record {
  total_size = 100;
  single_block_size = 32;
  total_block_num = 3;
  unuse_block_num = 3;
  init_flag = true;
  mem = slot clean ++ slot clean ++ slot clean ++ replicate 4 0;
}

abbrev one_in : Arr
one_in = record formatted {
  unuse_block_num = 2;
  mem = (dirty ++ 4 ∷ 5 ∷ replicate 22 0) ++ slot clean ++ slot clean ++ replicate 4 0;
}

format_run : format true true 24 segment ≡ ok (success, formatted)
unfolding format created
format_run = refl

insert_run : insert true (4 ∷ 5 ∷ []) formatted ≡ ok (success, one_in)
unfolding insert
insert_run = refl

delete_run :
    delete 0 one_in
    ≡ ok (record formatted {
      mem = (clean ++ 4 ∷ 5 ∷ replicate 22 0) ++ slot clean ++ slot clean ++ replicate 4 0;
    })
unfolding delete
delete_run = refl

formatted-IsArray : IsArray formatted
formatted-IsArray = record {
  formatted = refl;
  wide = omega arith;
  room = omega arith;
  counted = refl;
}

insert-Outcome_example : Gives (Outcome formatted (4 ∷ 5 ∷ [])) (insert true (4 ∷ 5 ∷ []) formatted)
insert-Outcome_example = insert-Outcome formatted (4 ∷ 5 ∷ []) formatted-IsArray (inl (omega arith))

-- The same blocks in a segment that goes on behind them.
abbrev longer : Arr
longer = record formatted { mem = formatted.mem ++ replicate 4 0 }

longer-IsArray : IsArray longer
longer-IsArray = record { formatted = refl; wide = omega arith; room = omega arith; counted = refl }

insert-Overrun_example :
    Gives (Overrun longer (replicate 32 9)) (insert true (replicate 32 9) longer)
insert-Overrun_example =
    insert-Overrun longer (replicate 32 9) longer-IsArray (omega arith) (omega arith) (omega arith)
      (omega arith)

-- A structure as a program fills it in, and the segment that is made for it.
abbrev attr : Attr
attr = record {
  totalsize = 140;
  blocksize = 24;
  stat = 0;
  shmftokpath = 47 ∷ [];
  shmkey = 5;
  shmmode = 0;
  shmid = 0;
  semftokpath = [];
  semkey = 0;
  semmode = 384;
  semid = 0;
}

abbrev attr_ready : Attr
attr_ready = record attr { stat = 2; shmmode = 438; shmid = 8; semkey = 77; semid = 3 }

abbrev works : System
works = record { lock = some 3; segment = some 8; attaches = true; detaches = true }

create_run : create (λ path. 77) works (replicate 100 7) attr ≡ (success, attr_ready, some segment)
unfolding create
create_run = refl

-- The descriptor of the segment is not kept.
get_attr_run :
    get_attr (λ path. 77) works attr
    ≡ (success, record attr { stat = 1; shmmode = 438; semkey = 77; semid = 3 })
unfolding get_attr
get_attr_run = refl

create-Reach_example :
    one_in.unuse_block_num ≡ free_from one_in.total_block_num one_in.single_block_size 0 one_in.mem
create-Reach_example =
    create-Reach (λ path. 77) works (replicate 100 7) attr attr_ready success success true segment
      formatted one_in (omega arith) (omega arith) (omega arith) (omega arith) create_run format_run
      (inserted (4 ∷ 5 ∷ []) success here (omega arith) insert_run)
