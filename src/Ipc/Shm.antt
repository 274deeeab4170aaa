-- ===== src/Ipc/Shm.antt =====
-- The blocks of data in a shared memory segment: fram/module/ipc/src/blockshm.c. The segment is its
-- head, the bytes of data behind the head, and the descriptions of the blocks, which lie from
-- `pin_tail` to the end, the newest first. A read of data outside the bytes of data is a fault.
pub mod Query
pub mod Layout
pub mod Contents
pub mod Places
pub mod RoundTrip
pub mod Search
pub mod Ends
pub mod Returns
pub mod Safe
pub mod Update
pub mod Order
pub mod Sorting
mod Tests
mod OrderTests
use my_resource.Base.{
  ℕ, zero, suc, ◌+◌, ◌-◌, ◌*◌, ◌/◌, ◌%◌, ◌^◌, Bool, true, false, ◌&&◌, ◌||◌, Option, none, some,
  List, [], ◌∷◌, ◌++◌, leb, ltb, ◌==◌, if◌then◌else◌, length, take, drop,
}
use mathlib.Core.List.{reverse, filter}
use my_resource.Base.Fault.{Run, ok, fault, out_of_fuel, ◌>>=◌}
use my_resource.Ipc.Bytes.{number}
use my_resource.Ipc.Rows.{Row, row}

abbrev pub Str : Type 0
Str = List ℕ

abbrev pub same_name : Str → Str → Bool
same_name [] [] = true
same_name [] (b ∷ bs) = false
same_name (a ∷ as') [] = false
same_name (a ∷ as') (b ∷ bs) = a == b && same_name as' bs

-- sizeof(struct shm_head) and sizeof(struct shm_block), where `time_t` has 8 bytes.
abbrev pub head_size : ℕ
head_size = 20

abbrev pub block_size : ℕ
block_size = 64

-- `struct shm_block` less `dirtyflg` and `modytime`, which nothing reads.
pub record Block : Type 0 where
  pub name : Str
  pub sortflag : Bool
  pub num : ℕ
  pub condoffset : ℕ
  pub condlen : ℕ
  pub pstart : ℕ
  pub pend : ℕ
  pub recsize : ℕ

-- `struct shm_head`, whose `blocknum` is the number of descriptions, and the rest of the segment:
-- `bytes` are those from the head to `pin_head`. An `int` is its bit pattern.
pub record Segment : Type 0 where
  pub size : ℕ
  pub fsize : ℕ
  pub pin_head : ℕ
  pub pin_tail : ℕ
  pub bytes : List ℕ
  pub blocks : List Block

-- What the calls of the system do: whether the key names a segment is the segment itself; `attaches`
-- is for `shmat`, `given` for `Malloc` and `Realloc`.
pub record System : Type 0 where
  pub key : ℕ
  pub attaches : Bool
  pub given : Bool

-- -1, the wait that ends by TIMEOUT, or a value that is not negative.
pub data Ret : Type 0 where
  failed : Ret
  timeout : Ret
  returned : ℕ → Ret

-- An `int` as a `size_t`.
unfoldable pub widen : ℕ → ℕ
widen n = if ltb n (2 ^ 31) then n else n + (2 ^ 64 - 2 ^ 32)

-- `_vipc_shm_getid` and `_vipc_shm_open`, behind the test of the key.
unfoldable pub opened : System → Option Segment → Option Segment
opened sys none = none
opened sys (some s) = if sys.key == 0 then none else if sys.attaches then some s else none

-- What `shm_init` writes into a new segment.
unfoldable pub init_segment : ℕ → Segment
init_segment size = record {
  size = size;
  fsize = (size + 2 ^ 32 - head_size) % 2 ^ 32;
  pin_head = head_size;
  pin_tail = size;
  bytes = [];
  blocks = [];
}

-- `creates` is for `shmget`, which fails if the key has a segment. A segment that cannot be
-- attached is removed again.
unfoldable pub shm_init : Bool → System → ℕ → ℕ → Option Segment → Ret × Option Segment
unfolding init_segment
shm_init creates sys size mode (some s) = (failed, some s)
shm_init creates sys size mode none =
    if sys.key == 0 || size == 0 || mode == 0
    then (failed, none)
    else if creates && sys.attaches
    then (returned 0, some (init_segment size))
    else (failed, none)

-- The loop from the end of the segment down: the oldest block first.
unfoldable pub find_block : List Block → Str → Option Block
find_block [] name = none
find_block (b ∷ bs) name =
    let rest = find_block bs name in
    elim rest [ some c ↦ some c | none ↦ if same_name b.name name then some b else none ]

-- The loop of `shm_select` from `pin_tail` up: the newest block first.
unfoldable pub find_newest : List Block → Str → Option Block
find_newest [] name = none
find_newest (b ∷ bs) name =
    let rest = find_newest bs name in if same_name b.name name then some b else rest

-- `shm_getblockinfo` on an attached segment. `none` for the name is NULL; then the first read is
-- behind the end of the segment.
unfoldable pub block_info : Bool → Segment → Option Str → Run (Ret × Option Block)
unfolding find_block
block_info given s (some name) = elim (find_block s.blocks name) [
  | none ↦ ok (failed, none)
  | some b ↦ if given then ok (returned 1, some b) else ok (failed, none)
]
block_info given s none = elim s.blocks [
  | [] ↦ ok (failed, none)
  | b ∷ bs ↦ if given then fault else ok (failed, none)
]

unfoldable pub shm_getblockinfo : System → Option Segment → Option Str → Run (Ret × Option Block)
unfolding opened block_info
shm_getblockinfo sys seg name = elim (opened sys seg) [
  | none ↦ ok (failed, none)
  | some s ↦ block_info sys.given s name
]

-- The write of a description over the one that `find_block` finds.
unfoldable pub replace_block : List Block → Block → Option (List Block)
replace_block [] c = none
replace_block (b ∷ bs) c =
    let rest = replace_block bs c in
    elim rest [
      | some ds ↦ some (b ∷ ds)
      | none ↦ if same_name b.name c.name then some (c ∷ bs) else none
    ]

unfoldable pub set_block : Segment → Block → Ret × Segment
unfolding replace_block
set_block s c = elim (replace_block s.blocks c) [
  | none ↦ (failed, s)
  | some bs ↦ (returned 0, record s { blocks = bs })
]

-- `none` for the description is NULL.
unfoldable pub shm_setblockinfo : System → Option Segment → Option Block → Ret × Option Segment
unfolding opened set_block
shm_setblockinfo sys seg none = (failed, seg)
shm_setblockinfo sys seg (some c) = elim (opened sys seg) [
  | none ↦ (failed, seg)
  | some s ↦ let (r, s') = set_block s c in (r, some s')
]

-- `_shm_upload` on an attached segment; `data` is not NULL and its length is an `int`. The name is
-- copied into 20 bytes by `strcpy`, and the bytes between the data and the descriptions are written:
-- a name that is too long, or data or a description beyond these bytes, is a fault. The test of the
-- name goes by `shm_getblockinfo`, which also fails without memory.
unfoldable pub upload : Bool → Segment → List ℕ → ℕ → ℕ → ℕ → Str → Run (Ret × Segment)
unfolding widen block_info
upload given s bytes sublen condoffset condlen name =
    if length bytes == 0 || sublen == 0
    then ok (failed, s)
    else if ltb (widen s.fsize) (length bytes + block_size)
    then ok (failed, s)
    else elim (block_info given s (some name)) [
      | ok (returned _, _) ↦ ok (failed, s)
      | ok (_, _) ↦
          if leb 20 (length name)
          then fault
          else if ltb s.pin_tail (s.pin_head + length bytes + block_size)
          then fault
          else ok (
            returned 0,
            record s {
              fsize = (s.fsize + 2 ^ 32 - (length bytes + block_size)) % 2 ^ 32;
              pin_head = s.pin_head + length bytes;
              pin_tail = s.pin_tail - block_size;
              bytes = s.bytes ++ bytes;
              blocks =
                  record {
                    name = name;
                    sortflag = false;
                    num = length bytes / sublen;
                    condoffset = condoffset;
                    condlen = condlen;
                    pstart = s.pin_head;
                    pend = s.pin_head + length bytes;
                    recsize = sublen;
                  }
                  ∷ s.blocks;
            },
          )
      | _ ↦ fault
    ]

unfoldable pub shm_upload :
    System → Option Segment → List ℕ → ℕ → ℕ → ℕ → Str → Run (Ret × Option Segment)
unfolding opened upload
shm_upload sys seg bytes sublen condoffset condlen name =
    if length bytes == 0 || sublen == 0 then ok (failed, seg) else elim (opened sys seg) [
      | none ↦ ok (failed, seg)
      | some s ↦ upload sys.given s bytes sublen condoffset condlen name >>= λ r. ok (r.0, some r.1)
    ]
