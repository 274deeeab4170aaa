-- ===== src/Ipc/Shm/Sorting.antt =====
-- What the sort of a block, in blockshm.c, leaves in the segment.
use my_resource.Base.{
  ℕ, zero, suc, ◌+◌, ◌-◌, ◌*◌, ◌<◌, ◌≤◌, ◌≡◌, refl, sym, ap, ◌∙◌, List, [], ◌∷◌, ◌++◌, append_assoc,
  arith, length, take, drop, take-append, take_all, leb, ltb, ◌==◌, ◌^◌, true, false, Bool-cases,
  drop-append_length, length-drop, length-drop_le, length-append, length-take_le, inl, inr,
}
use mathlib.Core.List.{Mem, not-mem-nil, mem-cons, mem-cons_self, mem-cons_of_mem, Perm}
use mathlib.Core.List.Perm
use mathlib.Core.List
use mathlib.Core.Nat as M
use mathlib.Core.Logic.Or
use my_resource.Ipc.Rows.{Row}
use my_resource.Base.Fault.{ok, Gives, Gives->>=}
use my_resource.Ipc.Sort.Quick.{stack_size, qsort}
use my_resource.Ipc.Sort.Quick.Sorted.{qsort-IsSorted}
use my_resource.Ipc.Sort.Selection.{IsSorted}
use my_resource.Ipc.Shm.{Block, Segment, head_size}
use my_resource.Ipc.Shm.Query.{chunks, block_rows, rank, field_inside}
use my_resource.Ipc.Shm.Returns.{length-chunks}
use my_resource.Ipc.Shm.Order.{joined, sort_block}

-- Every record has the length of a record.
abbrev Sized : ℕ → List Row → Type 0
Sized w xs = (x : Row) → Mem x xs → length x ≡ w

take-append_exact : (w : ℕ) (xs ys : List ℕ) → length xs ≡ w → take w (xs ++ ys) ≡ xs
take-append_exact w xs ys e = rw (← e) (take-append (length xs) xs ys (omega arith) ∙ take_all xs)

drop-append_exact : (w : ℕ) (xs ys : List ℕ) → length xs ≡ w → drop w (xs ++ ys) ≡ ys
drop-append_exact w xs ys e = rw (← e) (drop-append_length xs ys)

chunks-joined :
    (w : ℕ) (ys : List Row) (rest : List ℕ)
    → Sized w ys
    → chunks (length ys) w (joined ys ++ rest) ≡ ys
chunks-joined w [] rest sized = refl
chunks-joined w (y ∷ ys) rest sized =
    let long : length y ≡ w = sized y mem-cons_self in
    let others : Sized w ys = λ x m. sized x (mem-cons_of_mem y m) in
    rw (
      append_assoc y (joined ys) rest,
      take-append_exact w y (joined ys ++ rest) long,
      drop-append_exact w y (joined ys ++ rest) long,
      chunks-joined w ys rest others,
    )

length-joined : (w : ℕ) (ys : List Row) → Sized w ys → length (joined ys) ≡ length ys * w
length-joined w [] sized = grind arith
length-joined w (y ∷ ys) sized =
    let long : length y ≡ w = sized y mem-cons_self in
    let others = length-joined w ys (λ x m. sized x (mem-cons_of_mem y m)) in
    let more : suc (length ys) * w ≡ w + length ys * w = grind arith in
    omega (arith, length-append y (joined ys))

-- The length of a list by the library's numbers.
native : M.ℕ → ℕ
native M.zero = 0
native (M.suc n) = suc (native n)

length-native : (xs : List Row) → length xs ≡ native (List.length xs)
unfolding native
length-native [] = refl
length-native (x ∷ xs) = ap suc (length-native xs)

length-perm : (xs ys : List Row) → Perm xs ys → length xs ≡ length ys
length-perm xs ys p = length-native xs ∙ ap native (Perm.length-eq p) ∙ sym (length-native ys)

chunks-Sized : (n w : ℕ) (bs : List ℕ) → n * w ≤ length bs → Sized w (chunks n w bs)
chunks-Sized zero w bs fits x m = absurd (not-mem-nil m)
chunks-Sized (suc n) w bs fits x m =
    let split : suc n * w ≡ w + n * w = grind arith in
    let rest : n * w ≤ length (drop w bs) = elim (length-drop w bs) [
      | inl e ↦ omega arith
      | inr e ↦ omega arith
    ] in
    Or.elim (hlevel) (mem-cons.0 m) (λ e. rw e (length-take_le w bs (omega arith)))
      (chunks-Sized n w (drop w bs) rest x)

module _ (s : Segment) (b : Block) (low : head_size ≤ b.pstart)
    (last : b.pend ≡ b.pstart + b.num * b.recsize) (inside : b.pend ≤ head_size + length s.bytes)
    (step : 0 < b.recsize) where
  abbrev before : List ℕ
  before = take (b.pstart - head_size) s.bytes

  abbrev after : List ℕ
  after = drop (b.pend - head_size) s.bytes

  abbrev rows : List Row
  rows = chunks b.num b.recsize (drop (b.pstart - head_size) s.bytes)

  -- The segment with other records in the block.
  abbrev rewritten : List Row → Segment
  rewritten ys = record s { bytes = before ++ (joined ys ++ after) }

  rows_read : block_rows s b ≡ ok rows
  unfolding block_rows
  rows_read =
      let from : leb head_size b.pstart ≡ true = ground arith in
      let to : leb (b.pstart + b.num * b.recsize) (head_size + length s.bytes) ≡ true =
        ground arith in
      rw (from, to) refl

  rows-Sized : Sized b.recsize rows
  rows-Sized =
      chunks-Sized b.num b.recsize (drop (b.pstart - head_size) s.bytes)
        (elim (length-drop (b.pstart - head_size) s.bytes) [
          | inl e ↦ omega arith
          | inr e ↦ omega arith
        ])

  module _ (ys : List Row) (p : Perm ys rows) where
    ys-Sized : Sized b.recsize ys
    ys-Sized x m = rows-Sized x ((Perm.mem_iff p).0 m)

    many : length ys ≡ b.num
    many =
        length-perm ys rows p ∙ length-chunks b.num b.recsize (drop (b.pstart - head_size) s.bytes)

    short : length before ≡ b.pstart - head_size
    short = length-take_le (b.pstart - head_size) s.bytes (omega arith)

    same_length : length (rewritten ys).bytes ≡ length s.bytes
    same_length =
        let rest : length after + (b.pend - head_size) ≡ length s.bytes =
          length-drop_le (b.pend - head_size) s.bytes (omega arith) in
        let size : length (joined ys) ≡ b.num * b.recsize =
          length-joined b.recsize ys ys-Sized ∙ ap (λ n. n * b.recsize) many in
        omega
          (arith, short, length-append before (joined ys ++ after), length-append (joined ys) after)

    rewritten_rows : block_rows (rewritten ys) b ≡ ok ys
    unfolding block_rows
    rewritten_rows =
        let from : leb head_size b.pstart ≡ true = ground arith in
        let to : leb (b.pstart + b.num * b.recsize)
              (head_size + length (before ++ (joined ys ++ after)))
            ≡ true =
          ground (arith, same_length) in
        rw (from, to, drop-append_exact (b.pstart - head_size) before (joined ys ++ after) short)
          (ap ok (rw (← many) (chunks-joined b.recsize ys after ys-Sized)))

  -- What a sort leaves.
  abbrev Left : Segment → Type 0
  Left t =
      (ys : List Row) × (block_rows t b ≡ ok ys)
      × IsSorted (rank b) ys
      × Perm ys rows
      × (length t.bytes ≡ length s.bytes)
      × (take (b.pstart - head_size) t.bytes ≡ take (b.pstart - head_size) s.bytes)
      × (drop (b.pend - head_size) t.bytes ≡ drop (b.pend - head_size) s.bytes)

  rewritten-Left : (ys : List Row) → IsSorted (rank b) ys × Perm ys rows → Left (rewritten ys)
  rewritten-Left ys (sorted, p) =
      let size : length (joined ys) ≡ b.num * b.recsize =
        length-joined b.recsize ys (ys-Sized ys p) ∙ ap (λ n. n * b.recsize) (many ys p) in
      let front : length (before ++ joined ys) ≡ b.pend - head_size =
        omega (arith, length-append before (joined ys), short ys p) in
      (
        ys,
        rewritten_rows ys p,
        sorted,
        p,
        same_length ys p,
        take-append_exact (b.pstart - head_size) before (joined ys ++ after) (short ys p),
        rw (← append_assoc before (joined ys) after)
            (drop-append_exact (b.pend - head_size) (before ++ joined ys) after front),
      )

  short-Left : b.num < 2 → Left s
  short-Left few =
      let one : length rows ≡ b.num =
        length-chunks b.num b.recsize (drop (b.pstart - head_size) s.bytes) in
      (
        rows,
        rows_read,
        (λ i j ij len. let e : i ≡ j = omega arith in rw e (omega arith)),
        Perm.refl rows,
        refl,
        refl,
        refl,
      )

  -- A sort of a block with a whole number of records, fewer than 2 ^ 62, whose index field ends inside
  -- of the record, and that lies among the data, ends and leaves in the block the same records in the order of their index field, as `shm_bsearch` wants
  -- them; the data in front of the block and behind it, and the length of the data, stay as they were.
  pub sort_block-IsSorted :
      b.num < 2 ^ stack_size
      → b.condoffset + b.condlen ≤ b.recsize
      → (xs : List Row) × (block_rows s b ≡ ok xs)
        × Gives
            (λ t.
              (ys : List Row) × (block_rows t b ≡ ok ys)
              × IsSorted (rank b) ys
              × Perm ys xs
              × (length t.bytes ≡ length s.bytes)
              × (take (b.pstart - head_size) t.bytes ≡ take (b.pstart - head_size) s.bytes)
              × (drop (b.pend - head_size) t.bytes ≡ drop (b.pend - head_size) s.bytes))
            (sort_block s b)
  unfolding sort_block field_inside
  sort_block-IsSorted small narrow = (
    rows,
    rows_read,
    elim (Bool-cases (ltb b.num 2)) [
      | inl few ↦ rw few (short-Left (ground arith))
      | inr two ↦
          let wide : b.recsize == 0 ≡ false = ground arith in
          let whole : b.pend == b.pstart + b.num * b.recsize ≡ true = ground arith in
          let field : leb (b.condoffset + b.condlen) b.recsize ≡ true = ground arith in
          let fewer : length rows < 2 ^ stack_size =
            rw (length-chunks b.num b.recsize (drop (b.pstart - head_size) s.bytes)) small in
          rw (two, wide, whole, field, rows_read)
            (Gives->>= (λ ys. IsSorted (rank b) ys × Perm ys rows) Left (qsort (rank b) rows) _
              (qsort-IsSorted (rank b) rows fewer) rewritten-Left)
    ],
  )
