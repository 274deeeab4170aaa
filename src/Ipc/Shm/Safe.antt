-- ===== src/Ipc/Shm/Safe.antt =====
-- The functions of blockshm.c that take the lock, `shm_init_safe` to `shm_select_safe`, with
-- `shm_destroy` and `shm_getshminfo`. What other processes do is in the result of the wait.
pub mod Agree
use my_resource.Base.{
  ℕ, Bool, true, false, ◌&&◌, ◌||◌, Option, none, some, List, [], length, ◌==◌, if◌then◌else◌,
}
use mathlib.Core.Bool.{not}
use my_resource.Base.Fault.{Run, ok, fault, ◌>>=◌}
use my_resource.Ipc.Rows.{Row}
use my_resource.Ipc.Shm.{
  Str, Block, Segment, System, Ret, failed, timeout, returned, opened, init_segment, block_info,
  upload,
}
use my_resource.Ipc.Shm.Query.{download, select}

-- What `vipc_sem_Wlocked` or `vipc_sem_Rlocked` returns: 0, TIMEOUT or -1.
pub data Wait : Type 0 where
  locked : Wait
  timed_out : Wait
  refused : Wait

-- `present` is whether the key has the semaphores of a lock.
pub record Lock : Type 0 where
  pub present : Bool
  pub wait : Wait

-- The attached segment, with the lock held, or what the function returns.
pub data Entry : Type 0 where
  entered : Segment → Entry
  stopped : Ret → Entry

unfoldable pub waited : Wait → Segment → Entry
waited locked s = entered s
waited timed_out s = stopped timeout
waited refused s = stopped failed

-- The segment and the lock are looked up, the segment is attached, and the lock waited for.
unfoldable pub enter : System → Lock → Option Segment → Entry
unfolding opened waited
enter sys l seg =
    if l.present
    then elim (opened sys seg) [ none ↦ stopped failed | some s ↦ waited l.wait s ]
    else stopped failed

-- In a segment just made the head is zeros.
abbrev pub raw_segment : Segment
raw_segment = record { size = 0; fsize = 0; pin_head = 0; pin_tail = 0; bytes = []; blocks = [] }

-- `creates` is for `shmget`, `creates_lock` for `semget`, which fails if the key has semaphores. The
-- last part of the result is whether the key has a lock then.
unfoldable pub shm_init_safe :
    Bool → Bool → System → Lock → ℕ → ℕ → Option Segment → Ret × Option Segment × Bool
unfolding init_segment
shm_init_safe creates creates_lock sys l size mode (some s) = (failed, some s, l.present)
shm_init_safe creates creates_lock sys l size mode none =
    if sys.key == 0 || size == 0 || mode == 0
    then (failed, none, l.present)
    else if not creates
    then (failed, none, l.present)
    else if l.present || not creates_lock
    then (failed, none, l.present)
    else if sys.attaches
    then (returned 0, some (init_segment size), true)
    else (failed, some raw_segment, false)

-- `removes` is for `shmctl`, `removes_lock` for `semctl`.
unfoldable pub shm_destroy : Bool → System → Option Segment → Ret × Option Segment
shm_destroy removes sys none = (failed, none)
shm_destroy removes sys (some s) =
    if sys.key == 0
    then (failed, some s)
    else if removes
    then (returned 0, none)
    else (failed, some s)

-- Both are removed, whether the other removal fails or not, by `|`.
abbrev removed : Bool → Bool → Segment → Wait → Ret × Option Segment × Bool
removed removes removes_lock s locked = (
  (if removes && removes_lock then returned 0 else failed),
  (if removes then none else some s),
  not removes_lock,
)
removed removes removes_lock s timed_out = (timeout, some s, true)
removed removes removes_lock s refused = (failed, some s, true)

unfoldable pub shm_destroy_safe :
    Bool → Bool → System → Lock → Option Segment → Ret × Option Segment × Bool
shm_destroy_safe removes removes_lock sys l none = (failed, none, l.present)
shm_destroy_safe removes removes_lock sys l (some s) =
    if sys.key == 0 || not l.present
    then (failed, some s, l.present)
    else removed removes removes_lock s l.wait

-- `struct shm_head`.
pub record Head : Type 0 where
  pub size : ℕ
  pub fsize : ℕ
  pub pin_head : ℕ
  pub pin_tail : ℕ
  pub blocknum : ℕ

unfoldable pub head_of : Segment → Head
head_of s = record {
  size = s.size;
  fsize = s.fsize;
  pin_head = s.pin_head;
  pin_tail = s.pin_tail;
  blocknum = length s.blocks;
}

unfoldable pub shm_getshminfo : System → Option Segment → Ret × Option Head
unfolding opened head_of
shm_getshminfo sys seg = elim (opened sys seg) [
  | none ↦ (failed, none)
  | some s ↦ if sys.given then (returned 0, some (head_of s)) else (failed, none)
]

-- Here memory is taken before the lock.
unfoldable pub shm_getshminfo_safe : System → Lock → Option Segment → Ret × Option Head
unfolding enter head_of
shm_getshminfo_safe sys l seg =
    if sys.given
    then elim (enter sys l seg) [
      | stopped r ↦ (r, none)
      | entered s ↦ (returned 0, some (head_of s))
    ]
    else (failed, none)

unfoldable pub shm_getblockinfo_safe :
    System → Lock → Option Segment → Option Str → Run (Ret × Option Block)
unfolding enter block_info
shm_getblockinfo_safe sys l seg name = elim (enter sys l seg) [
  | stopped r ↦ ok (r, none)
  | entered s ↦ block_info sys.given s name
]

-- The guard lets NULL through and nothing else; then the name in the description is read, for the
-- comparison with a block or for the message that there is none.
unfoldable pub shm_setblockinfo_safe :
    System → Lock → Option Segment → Option Block → Run (Ret × Option Segment)
unfolding enter
shm_setblockinfo_safe sys l seg (some c) = ok (failed, seg)
shm_setblockinfo_safe sys l seg none = elim (enter sys l seg) [
  | stopped r ↦ ok (r, seg)
  | entered s ↦ fault
]

unfoldable pub shm_upload_safe :
    System → Lock → Option Segment → List ℕ → ℕ → ℕ → ℕ → Str → Run (Ret × Option Segment)
unfolding enter upload
shm_upload_safe sys l seg bytes sublen condoffset condlen name =
    if length bytes == 0 || sublen == 0 then ok (failed, seg) else elim (enter sys l seg) [
      | stopped r ↦ ok (r, seg)
      | entered s ↦
          upload sys.given s bytes sublen condoffset condlen name >>= λ r. ok (r.0, some r.1)
    ]

-- Unlike `shm_download`, this returns 0 if no record of a sorted block has the index.
unfoldable pub shm_download_safe :
    System → Lock → Option Segment → Option Row → Str → Run (Ret × List Row)
unfolding enter download
shm_download_safe sys l seg c name = elim (enter sys l seg) [
  | stopped r ↦ ok (r, [])
  | entered s ↦ download sys.given (returned 0) s c name
]

unfoldable pub shm_select_safe :
    System → Lock → Option Segment → Option Row → Str → Run (Ret × List Row)
unfolding enter select
shm_select_safe sys l seg c name = elim (enter sys l seg) [
  | stopped r ↦ ok (r, [])
  | entered s ↦ select sys.given s c name
]
