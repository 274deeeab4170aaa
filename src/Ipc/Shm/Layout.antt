-- ===== src/Ipc/Shm/Layout.antt =====
-- The layout of a segment: the data of the blocks lies behind the head without gaps, the oldest
-- first, and the free bytes are those between the data and the descriptions.
use my_resource.Base.{
  ℕ, ◌+◌, ◌-◌, ◌*◌, ◌/◌, ◌%◌, ◌^◌, ◌<◌, ◌≤◌, ◌≡◌, ◌⊎◌, refl, Bool, false, List, [], ◌∷◌, ◌++◌,
  arith, length, length-append,
}
use my_resource.Base.Fault.{Run, ok}
use my_resource.Ipc.Shm.{
  Str, Block, Segment, Ret, failed, returned, head_size, block_size, init_segment,
}

-- The data of the blocks ends at `end`; the records of a block lie within it.
abbrev pub Tiled : ℕ → List Block → Type 0
Tiled end [] = end ≡ head_size
Tiled end (b ∷ bs) =
    (b.pend ≡ end) × (b.pstart + b.num * b.recsize ≤ b.pend) × (0 < b.recsize) × Tiled b.pstart bs

pub record IsValid (s : Segment) : Type 0 where
  pub small : s.size < 2 ^ 31
  pub data_end : head_size + length s.bytes ≡ s.pin_head
  pub gap : s.pin_head + s.fsize ≡ s.pin_tail
  pub tail : s.pin_tail + block_size * length s.blocks ≡ s.size
  pub tiled : Tiled s.pin_head s.blocks

-- `shm_init` makes a segment with a valid layout if the head fits into it.
pub init_segment-IsValid :
    (size : ℕ) → head_size ≤ size → size < 2 ^ 31 → IsValid (init_segment size)
unfolding init_segment
init_segment-IsValid size h small = record {
  small = small;
  data_end = omega arith;
  gap = omega arith;
  tail = omega arith;
  tiled = refl;
}

-- The description and the segment that an upload makes.
abbrev pub new_block : Segment → List ℕ → ℕ → ℕ → ℕ → Str → Block
new_block s bytes sublen condoffset condlen name = record {
  name = name;
  sortflag = false;
  num = length bytes / sublen;
  condoffset = condoffset;
  condlen = condlen;
  pstart = s.pin_head;
  pend = s.pin_head + length bytes;
  recsize = sublen;
}

abbrev pub extended : Segment → List ℕ → Block → Segment
extended s bytes b = record s {
  fsize = (s.fsize + 2 ^ 32 - (length bytes + block_size)) % 2 ^ 32;
  pin_head = s.pin_head + length bytes;
  pin_tail = s.pin_tail - block_size;
  bytes = s.bytes ++ bytes;
  blocks = b ∷ s.blocks;
}

pub div-mul-le : (a b : ℕ) → 0 < b → a / b * b ≤ a
div-mul-le a b h = grind arith

pub extended-IsValid :
    (s : Segment) (bytes : List ℕ) (sublen condoffset condlen : ℕ) (name : Str)
    → IsValid s
    → 0 < sublen
    → length bytes + block_size ≤ s.fsize
    → IsValid (extended s bytes (new_block s bytes sublen condoffset condlen name))
extended-IsValid s bytes sublen condoffset condlen name v pos room =
    let small = v.small in
    let data_end = v.data_end in
    let gap = v.gap in
    let tail = v.tail in
    record {
      small = small;
      data_end = omega (arith, length-append s.bytes bytes);
      gap = omega arith;
      tail = omega arith;
      tiled = (refl, omega (arith, div-mul-le (length bytes) sublen pos), pos, v.tiled);
    }

-- What an upload does, in the order of its tests.
abbrev pub Uploaded : Bool → Segment → List ℕ → ℕ → ℕ → ℕ → Str → Run (Ret × Segment) → Type 0
Uploaded given s bytes sublen condoffset condlen name run =
    (run ≡ ok (failed, s))
    ⊎ ((length bytes + block_size ≤ s.fsize)
        × (run
            ≡ ok (returned 0, extended s bytes (new_block s bytes sublen condoffset condlen name))))
