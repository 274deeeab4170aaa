-- ===== src/Ipc/ArrShm/Create.antt =====
-- How an array in shared memory comes into being: `ArrShmCreate` and `ArrShmGetAttr`. What the system
-- calls and the lock of ipcsem.c return is an argument.
use my_resource.Base.{
  ℕ, ◌+◌, ◌^◌, ◌≡◌, ◌≤◌, ◌<◌, sym, Bool, true, false, Option, none, some, List, ◌==◌, if◌then◌else◌,
  length, arith,
}
use mathlib.Core.Path.{subst}
use my_resource.Base.Fault.{ok}
use my_resource.Ipc.ArrShm.{Arr, Code, success, error, head_size, created, format}
use my_resource.Ipc.ArrShm.Blocks.{free_from}
use my_resource.Ipc.ArrShm.Reach.{Reach, format-Reach}

-- SHMINIT and SHMREADY; a structure that was never used has another number.
abbrev pub shminit : ℕ
shminit = 1

abbrev pub shmready : ℕ
shmready = 2

-- `ARRSHMATTR`. The paths are without the byte 0 at their end.
pub record Attr : Type 0 where
  pub totalsize : ℕ
  pub blocksize : ℕ
  pub stat : ℕ
  pub shmftokpath : List ℕ
  pub shmkey : ℕ
  pub shmmode : ℕ
  pub shmid : ℕ
  pub semftokpath : List ℕ
  pub semkey : ℕ
  pub semmode : ℕ
  pub semid : ℕ

-- The descriptors that the lock and the segment get, and whether `shmat` and `shmdt` succeed.
pub record System : Type 0 where
  pub lock : Option ℕ
  pub segment : Option ℕ
  pub attaches : Bool
  pub detaches : Bool

-- 0666
abbrev pub default_mode : ℕ
default_mode = 438

abbrev pub key_of : (List ℕ → ℕ) → List ℕ → ℕ → ℕ
key_of ftok path key = if length path == 0 then ftok path else key

abbrev pub mode_of : ℕ → ℕ
mode_of mode = if mode == 0 then default_mode else mode

-- The keys and the modes, as both functions set them.
unfoldable pub prepared : (List ℕ → ℕ) → Attr → Attr
prepared ftok a = record a {
  stat = shminit;
  shmkey = key_of ftok a.shmftokpath a.shmkey;
  semkey = key_of ftok a.semftokpath a.semkey;
  shmmode = mode_of a.shmmode;
  semmode = mode_of a.semmode;
}

-- `ArrShmCreate`: `mem` is what the new segment holds behind the head. The array is `none` while its
-- head is not written. `_vipc_shm_create` refuses the size 0.
unfoldable pub create : (List ℕ → ℕ) → System → List ℕ → Attr → Code × Attr × Option Arr
unfolding prepared created
create ftok sys mem attr =
    if attr.stat == shmready
    then (success, attr, none)
    else (let a = prepared ftok attr in
        elim sys.lock [
          | none ↦ (error, a, none)
          | some lock ↦
              let b = record a { semid = lock } in
              elim (if b.totalsize == 0 then none else sys.segment) [
                | none ↦ (error, b, none)
                | some id ↦
                    let c = record b { shmid = id } in
                    if sys.attaches
                    then (let s = created c.totalsize mem in
                        if sys.detaches
                        then (success, record c { stat = shmready }, some s)
                        else (error, c, some s))
                    else (error, c, none)
              ]
        ])

-- `ArrShmGetAttr`. The descriptor of the segment is not kept, nor is SHMREADY set.
unfoldable pub get_attr : (List ℕ → ℕ) → System → Attr → Code × Attr
unfolding prepared
get_attr ftok sys attr =
    if attr.stat == shmready
    then (success, attr)
    else (let a = prepared ftok attr in
        elim sys.lock [
          | none ↦ (error, a)
          | some lock ↦
              let b = record a { semid = lock } in
              elim sys.segment [ none ↦ (error, b) | some id ↦ (success, b) ]
        ])

abbrev system : Option ℕ → Option ℕ → Bool → Bool → System
system lock segment attaches detaches = record {
  lock = lock;
  segment = segment;
  attaches = attaches;
  detaches = detaches;
}

-- The head that is written is that of a new array.
create-created :
    (ftok : List ℕ → ℕ) (lock segment : Option ℕ) (attaches detaches : Bool) (mem : List ℕ)
    (a b : Attr) (code : Code) (s : Arr)
    → create ftok (system lock segment attaches detaches) mem a ≡ (code, b, some s)
    → s ≡ created a.totalsize mem
unfolding create prepared
create-created ftok none segment at dt mem a b code s e = ground arith
create-created ftok (some l) none at dt mem a b code s e = ground arith
create-created ftok (some l) (some g) false dt mem a b code s e = ground arith
create-created ftok (some l) (some g) true false mem a b code s e = ground arith
create-created ftok (some l) (some g) true true mem a b code s e = ground arith

total_size-le :
    (size : ℕ) (mem : List ℕ)
    → 40 ≤ size
    → size < 2 ^ 63
    → length mem + 40 ≡ size
    → (created size mem).total_size ≤ length mem
unfolding created
total_size-le size mem h k e = omega arith

-- Whatever ArrShmCreate writes into a new segment of 40 bytes or more, whatever blocksize below
-- 2 ^ 63 - 8 ArrShmFormat is then given, and whatever data is inserted and whatever blocks in use are deleted
-- after it: UnUseBlockNum is the number of blocks that are not in use, if data always leaves room for
-- the flag of its block.
pub create-Reach :
    (ftok : List ℕ → ℕ) (sys : System) (mem : List ℕ) (a b : Attr) (code code' : Code)
    (closes : Bool) (s t u : Arr)
    → head_size ≤ a.totalsize
    → a.totalsize < 2 ^ 63
    → length mem + head_size ≡ a.totalsize
    → b.blocksize + 8 < 2 ^ 63
    → create ftok sys mem a ≡ (code, b, some s)
    → format true closes b.blocksize s ≡ ok (code', t)
    → Reach t u
    → u.unuse_block_num ≡ free_from u.total_block_num u.single_block_size 0 u.mem
unfolding created
create-Reach ftok sys mem a b code code' closes s t u h k long small e f r =
    let same =
      create-created ftok sys.lock sys.segment sys.attaches sys.detaches mem a b code s e in
    let room : s.total_size ≤ length s.mem =
      subst (λ x. x.total_size ≤ length x.mem) (sym same)
        (total_size-le a.totalsize mem h k long) in
    format-Reach closes b.blocksize s t u code' small room f r
