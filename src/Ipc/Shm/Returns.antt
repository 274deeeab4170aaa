-- ===== src/Ipc/Shm/Returns.antt =====
-- A download or a selection from a segment ends, and its result is the number of records that it
-- hands out.
use my_resource.Base.{
  ℕ, zero, suc, ◌+◌, ◌-◌, ◌*◌, ◌<◌, ◌≤◌, ◌≡◌, refl, sym, ap, inl, inr, Bool, true, false,
  Bool-cases, Option-cases, Option, none, some, List, [], ◌∷◌, arith, length, leb, ◌==◌,
  length-replicate, drop,
}
use my_resource.Base.Fault.{Holds, Holds-if, Holds->>=, Holds-mono}
use my_resource.Ipc.Rows.{Row, row, matching}
use my_resource.Ipc.Shm.{
  Str, Block, Segment, Ret, failed, timeout, returned, head_size, find_block, find_newest,
  block_info, same_name,
}
use my_resource.Ipc.Shm.Query.{
  chunks, block_rows, rank, collected, index_only, field_inside, indexed, masked, download_block,
  download, select_block, select,
}
use my_resource.Ipc.Shm.Layout.{Tiled, IsValid}
use my_resource.Ipc.Shm.Places.{find_block-Tiled}
use my_resource.Ipc.Shm.Ends.{Copies, sorted_rows-Copies}

-- -1 comes with no records; any other value is their number.
abbrev pub Counted : Ret × List Row → Type 0
Counted (failed, rows) = rows ≡ []
Counted (timeout, rows) = ⊥
Counted (returned n, rows) = n ≡ length rows

pub length-chunks : (n w : ℕ) (bs : List ℕ) → length (chunks n w bs) ≡ n
length-chunks zero w bs = refl
length-chunks (suc n) w bs = ap suc (length-chunks n w (drop w bs))

-- A read of the records of a block is a fault, or hands out their number.
abbrev Read : Segment → Block → List Row → Type 0
Read s b xs = (length xs ≡ b.num) × (b.pstart + length xs * b.recsize ≤ head_size + length s.bytes)

block_rows-Read : (s : Segment) (b : Block) → Holds (Read s b) (block_rows s b)
unfolding block_rows
block_rows-Read s b = elim (Bool-cases (leb head_size b.pstart)) [
  | inr low ↦ rw low tt
  | inl low ↦ elim (Bool-cases (leb (b.pstart + b.num * b.recsize) (head_size + length s.bytes))) [
    | inr high ↦ rw (low, high) tt
    | inl high ↦
        let fits : b.pstart + b.num * b.recsize ≤ head_size + length s.bytes = ground arith in
        let many = length-chunks b.num b.recsize (drop (b.pstart - head_size) s.bytes) in
        rw (low, high) (many, rw many fits)
  ]
]

Copies-Counted :
    (rank : Row → ℕ) (key : ℕ) (xs : List Row) (absent : Ret)
    → Counted (absent, [])
    → (r : Ret × List Row) → Copies rank key xs absent r
    → Counted r
Copies-Counted rank key xs absent h (r, rows) (inl e) = rw (e.0, e.1) h
Copies-Counted rank key xs absent h (r, rows) (inr (n, i, fits, same, e, f)) =
    rw (e, f) (sym (length-replicate n (row xs i)))

collected-Counted : (given : Bool) (xs : List Row) → Holds Counted (collected given xs)
unfolding collected
collected-Counted given [] = refl
collected-Counted true (x ∷ xs) = omega arith
collected-Counted false (x ∷ xs) = tt

module _ (given : Bool) (absent : Ret) (s : Segment) (b : Block) (step : 0 < b.recsize)
    (empty : Counted (absent, [])) where
  indexed-Counted :
      (xs : List Row) (c : Row) → Read s b xs → Holds Counted (indexed given absent s b xs c)
  indexed-Counted xs c read =
      Holds-if Counted b.sortflag _ _
        (Holds-mono (Copies (rank b) (rank b c) xs absent) Counted _
          (sorted_rows-Copies s b (rank b c) step given absent xs read.1)
          (Copies-Counted (rank b) (rank b c) xs absent empty))
        (collected-Counted given (matching _ xs))

  download_block-Counted : (c : Option Row) → Holds Counted (download_block given absent s b c)
  unfolding download_block
  download_block-Counted none = Holds-if Counted (b.recsize * b.num == 0) _ _ refl (
      Holds->>= (Read s b) Counted (block_rows s b) _ (block_rows-Read s b) (λ xs read. sym read.0))
  download_block-Counted (some c) =
      Holds-if Counted (field_inside b) _ _
        (Holds-if Counted (index_only b c) _ _
          (Holds->>= (Read s b) Counted (block_rows s b) _ (block_rows-Read s b)
            (λ xs read. indexed-Counted xs c read))
          refl)
        tt

module _ (given : Bool) (s : Segment) (b : Block) (step : 0 < b.recsize) where
  select_block-Counted : (c : Option Row) → Holds Counted (select_block given s b c)
  unfolding select_block
  select_block-Counted none =
      Holds-if Counted given _ _
        (Holds->>= (Read s b) Counted (block_rows s b) _ (block_rows-Read s b)
          (λ xs read. sym read.0))
        refl
  select_block-Counted (some c) =
      Holds->>= (Read s b) Counted (block_rows s b) _ (block_rows-Read s b) (λ xs read.
        Holds-if Counted (field_inside b) _ _
          (Holds-if Counted (index_only b c) _ _
            (indexed-Counted given (returned 0) s b step refl xs c read)
            (collected-Counted given (matching (λ r. masked r c) xs)))
          tt)

find_newest-Tiled :
    (end : ℕ) (bs : List Block) (name : Str) (b : Block)
    → Tiled end bs
    → find_newest bs name ≡ some b
    → 0 < b.recsize
unfolding find_newest
find_newest-Tiled end [] name b t e = absurd (cc)
find_newest-Tiled end (c ∷ bs) name b t e = elim (Bool-cases (same_name c.name name)) [
  | inl same ↦ let found : c ≡ b = ground (arith, same) in rw (← found) t.2
  | inr other ↦ find_newest-Tiled c.pstart bs name b t.3 (ground (arith, other))
]

-- On a segment with a valid layout every download ends or faults, whatever memory is given and
-- whether its block is sorted or not; it returns -1 with no records, or the number of the records that
-- it hands out. That is so whichever of the two values, -1 or 0, stands for an index that no record
-- has.
pub download-Counted :
    (given : Bool) (absent : Ret) (s : Segment) (c : Option Row) (name : Str)
    → IsValid s
    → Counted (absent, [])
    → Holds Counted (download given absent s c name)
unfolding download
download-Counted given absent s c name v empty = elim (Option-cases (find_block s.blocks name)) [
  | inl e ↦ rw (e, block_info) refl
  | inr (b, e) ↦
      let step = (find_block-Tiled s.pin_head s.blocks name b v.tiled e).2 in
      rw (e, block_info)
        (elim (Bool-cases given) [
          | inl allowed ↦ rw allowed (download_block-Counted given absent s b step empty c)
          | inr refused ↦ rw refused refl
        ])
]

-- On a segment with a valid layout every selection ends or faults, whatever memory is given and
-- whether its block is sorted or not; it returns -1 with no records, or the number of the records that
-- it hands out.
pub select-Counted :
    (given : Bool) (s : Segment) (c : Option Row) (name : Str)
    → IsValid s
    → Holds Counted (select given s c name)
unfolding select
select-Counted given s c name v = elim (Option-cases (find_newest s.blocks name)) [
  | inl e ↦ rw (e, Holds, select) refl
  | inr (b, e) ↦
      rw (e, Holds, select)
        (select_block-Counted given s b (find_newest-Tiled s.pin_head s.blocks name b v.tiled e) c)
]
