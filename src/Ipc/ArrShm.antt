-- ===== src/Ipc/ArrShm.antt =====
-- The array of blocks of one size in a shared memory segment: fram/module/ipc/src/arrshm.c and the
-- macros of fram/module/ipc/inc/arrshm.h. A block is a `long` that says whether it is in use, and the
-- data behind it. A read or a write outside the segment is a fault. The calls of a test or of a macro
-- on an attached segment are here without the attachment.
pub mod Memory
pub mod Blocks
pub mod Insert
pub mod Overrun
pub mod Reach
pub mod Create
mod Tests
use my_resource.Base.{
  ℕ, zero, suc, ◌+◌, ◌-◌, ◌*◌, ◌/◌, ◌%◌, ◌^◌, Bool, true, false, Option, none, some, List, [], ◌∷◌,
  leb, ltb, ◌==◌, ◌||◌, if◌then◌else◌, length, take, drop, replicate,
}
use my_resource.Base.Fault.{Run, ok, fault, ◌>>=◌}

-- SUCCESS and SYSERROR.
pub data Code : Type 0 where
  success error : Code

-- The bytes of a C object written over those of the memory from an offset on.
unfoldable pub over : List ℕ → List ℕ → List ℕ
over [] mem = mem
over (b ∷ bs) [] = []
over (b ∷ bs) (m ∷ mem) = b ∷ over bs mem

unfoldable pub put : ℕ → List ℕ → List ℕ → List ℕ
unfolding over
put zero bs mem = over bs mem
put (suc p) bs [] = []
put (suc p) bs (m ∷ mem) = m ∷ put p bs mem

-- `memcpy` to an offset.
unfoldable pub memcpy : ℕ → List ℕ → List ℕ → Run (List ℕ)
unfolding put
memcpy p bs mem = if ltb (length mem) (p + length bs) then fault else ok (put p bs mem)

-- A `long` of this machine as its 8 bytes, the lowest first.
abbrev pub long_value : List ℕ → ℕ
long_value [] = 0
long_value (b ∷ bs) = b + 256 * long_value bs

-- CLEAN and DIRTY as the bytes of a `long`.
abbrev pub clean : List ℕ
clean = 2 ∷ replicate 7 0

abbrev pub dirty : List ℕ
dirty = 1 ∷ replicate 7 0

-- Whether the `long` at an offset is DIRTY: `ArrShmBlockAssert` with that flag.
abbrev pub dirty_at : List ℕ → ℕ → Bool
dirty_at mem p = long_value (take 8 (drop p mem)) == 1

unfoldable pub block_assert : List ℕ → ℕ → Run Bool
block_assert mem p = if ltb (length mem) (p + 8) then fault else ok (dirty_at mem p)

-- `ARRSHM` and the bytes behind it. `total_size` is the bit pattern of the `long`, the others are
-- not negative.
pub record Arr : Type 0 where
  pub total_size : ℕ
  pub single_block_size : ℕ
  pub total_block_num : ℕ
  pub unuse_block_num : ℕ
  pub init_flag : Bool
  pub mem : List ℕ

-- sizeof(ARRSHM)
abbrev pub head_size : ℕ
head_size = 40

-- The head that `ArrShmCreate` writes into a segment of `size` bytes.
unfoldable pub created : ℕ → List ℕ → Arr
created size mem = record {
  total_size = (size + 2 ^ 64 - head_size) % 2 ^ 64;
  single_block_size = 0;
  total_block_num = 0;
  unuse_block_num = 0;
  init_flag = false;
  mem = mem;
}

-- The sum is a `size_t`.
unfoldable pub block_size_of : ℕ → ℕ
block_size_of blocksize =
    if blocksize / 8 == 0 then (blocksize / 8 + 1) * 8 + 8 else (blocksize + 8) % 2 ^ 64

-- `ArrShmForeach` with the assignment of `ArrShmFormat`, from an offset on.
unfoldable pub mark_clean : ℕ → ℕ → ℕ → List ℕ → Run (List ℕ)
unfolding memcpy
mark_clean zero single p mem = ok mem
mark_clean (suc n) single p mem = memcpy p clean mem >>= mark_clean n single (p + single)

-- `ArrShmFormat`. `opens` and `closes` say whether `shmat` and `shmdt` succeed. A size of a block that
-- is 0 divides by zero; one that is negative as a `long` is outside of the model, and a fault too.
unfoldable pub format : Bool → Bool → ℕ → Arr → Run (Code × Arr)
unfolding block_size_of mark_clean
format opens closes blocksize s =
    if opens
    then (let single = block_size_of blocksize in
        let n = s.total_size / single in
        if ltb (length s.mem) s.total_size || (single == 0 || leb (2 ^ 63) single)
        then fault
        else (mark_clean n single 0 (put 0 (replicate s.total_size 0) s.mem) >>= λ mem. ok (
          (if closes then success else error),
          record s {
            single_block_size = single;
            total_block_num = n;
            unuse_block_num = n;
            init_flag = true;
            mem = mem;
          },
        )))
    else ok (error, s)

-- The loop of `ArrShmInsert`: the offset of the first block that is not in use, or of the end.
unfoldable pub first_free : ℕ → ℕ → ℕ → List ℕ → Run ℕ
unfolding block_assert
first_free zero single p mem = ok p
first_free (suc n) single p mem =
    let rest = first_free n single (p + single) mem in
    block_assert mem p >>= λ used. if used then rest else ok p

-- `ArrShmInsert`
unfoldable pub insert : Bool → List ℕ → Arr → Run (Code × Arr)
unfolding first_free memcpy
insert opens bytes s =
    if opens
    then (if s.init_flag
        then (if s.unuse_block_num == 0
            then ok (error, s)
            else if ltb s.single_block_size (length bytes)
            then ok (error, s)
            else (first_free s.total_block_num s.single_block_size 0 s.mem >>= λ p.
                memcpy (p + 8) bytes s.mem >>= memcpy p dirty >>= λ mem.
                ok (success, record s { unuse_block_num = s.unuse_block_num - 1; mem = mem })))
        else ok (error, s))
    else ok (error, s)

-- `ArrShmDelete` of the block at an offset.
unfoldable pub delete : ℕ → Arr → Run Arr
unfolding memcpy
delete p s = memcpy p clean s.mem >>= λ mem.
    ok (record s { unuse_block_num = s.unuse_block_num + 1; mem = mem })

-- The data that `ArrShmGetData` points to, in a block of the array.
abbrev pub get_data : Arr → ℕ → List ℕ
get_data s p = take (s.single_block_size - 8) (drop (p + 8) s.mem)

-- `ArrShmGetInfo`. The segment is attached at `at`, and `out` is the address of the caller's
-- structure; it is `out` that is passed to `shmdt`, which fails where nothing is attached. The
-- addresses that stay attached are returned.
unfoldable pub get_info : Bool → ℕ → ℕ → Arr → Code × Option Arr × List ℕ
get_info opens at out s =
    if opens
    then (if out == at then (success, some s, []) else (error, some s, at ∷ []))
    else (error, none, [])
