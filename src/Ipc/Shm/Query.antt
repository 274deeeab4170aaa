-- ===== src/Ipc/Shm/Query.antt =====
-- The reads of blockshm.c: `shm_download`, `shm_select` and what they call.
use my_resource.Base.{
  ℕ, zero, suc, ◌+◌, ◌-◌, ◌*◌, ◌/◌, Bool, true, false, ◌&&◌, Option, none, some, List, [], ◌∷◌, leb,
  ltb, ◌==◌, if◌then◌else◌, length, take, drop, replicate, compare, Ordering,
}
use mathlib.Core.Bool.{not}
use my_resource.Base.Fault.{Run, ok, fault, out_of_fuel, ◌>>=◌}
use my_resource.Ipc.Bytes.{number}
use my_resource.Ipc.Rows.{Row, row, matching}
use my_resource.Ipc.Shm.{
  Str, Block, Segment, System, Ret, failed, returned, head_size, opened, find_newest, block_info,
}

-- `cmpnull` finds no byte but 0.
unfoldable pub all_null : List ℕ → Bool
all_null [] = true
all_null (b ∷ bs) = if b == 0 then all_null bs else false

-- `cmp`: where the condition has a byte other than 0, the record has the same one.
unfoldable pub masked : Row → Row → Bool
masked r [] = true
masked [] (c ∷ cs) = true
masked (b ∷ bs) (c ∷ cs) =
    let rest = masked bs cs in if c == 0 then rest else if b == c then rest else false

-- Whether the index field ends inside of the record.
unfoldable pub field_inside : Block → Bool
field_inside b = leb (b.condoffset + b.condlen) b.recsize

-- The index field of a record, which ends inside of it, and the number that `memcmp` compares.
abbrev pub field : Block → Row → List ℕ
field b r = take b.condlen (drop b.condoffset r)

abbrev pub rank : Block → Row → ℕ
rank b r = number (field b r)

-- The test of the functions: the condition has bytes in the index field and nowhere else. It is a
-- record of the block.
unfoldable pub index_only : Block → Row → Bool
unfolding all_null
index_only b c =
    not (all_null (field b c))
    && all_null (take b.condoffset c)
    && all_null (take (b.recsize - b.condoffset - b.condlen) (drop (b.condoffset + b.condlen) c))

-- `n` records of `w` bytes.
abbrev pub chunks : ℕ → ℕ → List ℕ → List Row
chunks zero w bs = []
chunks (suc n) w bs = take w bs ∷ chunks n w (drop w bs)

unfoldable pub block_rows : Segment → Block → Run (List Row)
block_rows s b =
    if leb head_size b.pstart && leb (b.pstart + b.num * b.recsize) (head_size + length s.bytes)
    then ok (chunks b.num b.recsize (drop (b.pstart - head_size) s.bytes))
    else fault

-- The loop of `shm_bsearch` between `lo` and `hi`.
unfoldable pub bsearch_from : ℕ → (Row → ℕ) → ℕ → List Row → ℕ → ℕ → Run (Option ℕ)
bsearch_from zero rank key xs lo hi = out_of_fuel
bsearch_from (suc fuel) rank key xs lo hi =
    let mid = lo + (hi - lo) / 2 in
    let left = bsearch_from fuel rank key xs lo mid in
    let right = bsearch_from fuel rank key xs (mid + 1) hi in
    if ltb lo hi
    then elim (compare key (rank (row xs mid))) [
      | Ordering.lt ↦ left
      | Ordering.gt ↦ right
      | Ordering.eq ↦ ok (some mid)
    ]
    else ok none

-- The index of the record that it returns.
unfoldable pub bsearch : (Row → ℕ) → ℕ → List Row → Run (Option ℕ)
unfolding bsearch_from
bsearch rank key xs = bsearch_from (length xs + 1) rank key xs 0 (length xs)

-- The index field of what lies at `pos`, a record of some block or not.
unfoldable pub field_at : Segment → Block → ℕ → Run ℕ
field_at s b pos =
    let at = pos + b.condoffset in
    if leb head_size at && leb (at + b.condlen) (head_size + length s.bytes)
    then ok (number (take b.condlen (drop (at - head_size) s.bytes)))
    else fault

-- How often the first of the two loops around the record at `pos` goes round, and the second, from
-- the record at `pos` on. Neither stops at the bounds of the block.
unfoldable pub count_before : ℕ → Segment → Block → ℕ → ℕ → Run ℕ
unfolding field_at
count_before zero s b key pos = out_of_fuel
count_before (suc fuel) s b key pos =
    let rest = count_before fuel s b key (pos - b.recsize) >>= λ n. ok (n + 1) in
    if ltb pos b.recsize
    then fault
    else field_at s b (pos - b.recsize) >>= λ k. if k == key then rest else ok 0

unfoldable pub count_behind : ℕ → Segment → Block → ℕ → ℕ → Run ℕ
unfolding field_at
count_behind zero s b key pos = out_of_fuel
count_behind (suc fuel) s b key pos =
    let rest = count_behind fuel s b key (pos + b.recsize) >>= λ n. ok (n + 1) in
    field_at s b pos >>= λ k. if k == key then rest else ok 0

-- The loops around the record that the search has found. Each round copies that record, and not the
-- one that it has tested. `absent` is what the function returns if none was found.
unfoldable pub neighbours :
    Bool → Ret → Segment → Block → List Row → ℕ → Option ℕ → Run (Ret × List Row)
unfolding count_before count_behind
neighbours given absent s b xs key none = ok (absent, [])
neighbours given absent s b xs key (some i) =
    let fuel = head_size + length s.bytes + 1 in
    let pos = b.pstart + i * b.recsize in
    if given
    then (count_before fuel s b key pos >>= λ before.
        count_behind fuel s b key (pos + b.recsize) >>= λ behind.
        ok (returned (1 + before + behind), replicate (1 + before + behind) (row xs i)))
    else fault

-- The read of a sorted block. The callers come here only if the index field ends inside of the record.
unfoldable pub sorted_rows : Bool → Ret → Segment → Block → List Row → ℕ → Run (Ret × List Row)
unfolding bsearch neighbours
sorted_rows given absent s b xs key = bsearch (rank b) key xs >>= neighbours given absent s b xs key

-- The records that a loop has copied into memory from `Realloc`, whose result is not tested.
unfoldable pub collected : Bool → List Row → Run (Ret × List Row)
collected given [] = ok (returned 0, [])
collected given (x ∷ xs) = if given then ok (returned (length xs + 1), x ∷ xs) else fault

abbrev pub indexed : Bool → Ret → Segment → Block → List Row → Row → Run (Ret × List Row)
indexed given absent s b xs c =
    if b.sortflag
    then sorted_rows given absent s b xs (rank b c)
    else collected given (matching (λ r. rank b r == rank b c) xs)

-- `shm_download` on an attached segment, with the block's description. No bytes cannot be read. The
-- condition is one record long: an index field that ends behind it is read behind the end of the
-- condition, which is a fault.
unfoldable pub download_block : Bool → Ret → Segment → Block → Option Row → Run (Ret × List Row)
unfolding block_rows sorted_rows collected index_only field_inside
download_block given absent s b none =
    if b.recsize * b.num == 0
    then ok (failed, [])
    else block_rows s b >>= λ xs. ok (returned b.num, xs)
download_block given absent s b (some c) =
    if field_inside b
    then if index_only b c
      then (block_rows s b >>= λ xs. indexed given absent s b xs c)
      else ok (failed, [])
    else fault

unfoldable pub download : Bool → Ret → Segment → Option Row → Str → Run (Ret × List Row)
unfolding download_block block_info
download given absent s c name = block_info given s (some name) >>= λ info. elim info.1 [
  | none ↦ ok (failed, [])
  | some b ↦ download_block given absent s b c
]

unfoldable pub shm_download : System → Option Segment → Option Row → Str → Run (Ret × List Row)
unfolding download opened
shm_download sys seg c name = elim (opened sys seg) [
  | none ↦ ok (failed, [])
  | some s ↦ download sys.given failed s c name
]

-- `shm_select` on an attached segment.
unfoldable pub select_block : Bool → Segment → Block → Option Row → Run (Ret × List Row)
unfolding block_rows sorted_rows collected index_only field_inside masked
select_block given s b none =
    if given then (block_rows s b >>= λ xs. ok (returned b.num, xs)) else ok (failed, [])
select_block given s b (some c) = block_rows s b >>= λ xs.
    if field_inside b
    then if index_only b c
      then indexed given (returned 0) s b xs c
      else collected given (matching (λ r. masked r c) xs)
    else fault

unfoldable pub select : Bool → Segment → Option Row → Str → Run (Ret × List Row)
unfolding select_block find_newest
select given s c name = elim (find_newest s.blocks name) [
  | none ↦ ok (failed, [])
  | some b ↦ select_block given s b c
]

unfoldable pub shm_select : System → Option Segment → Option Row → Str → Run (Ret × List Row)
unfolding select opened
shm_select sys seg c name = elim (opened sys seg) [
  | none ↦ ok (failed, [])
  | some s ↦ select sys.given s c name
]
