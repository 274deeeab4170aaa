-- ===== src/Ipc/ArrShm/Insert.antt =====
-- What `ArrShmInsert` does to an array.
use my_resource.Base.{
  ℕ, suc, ◌+◌, ◌-◌, ◌≤◌, ◌<◌, ◌≡◌, ◌≢◌, ◌⊎◌, inl, inr, refl, sym, ap, ◌∙◌, Bool, true, false, List,
  length, take, drop, arith, ltb, ◌==◌, Bool-cases,
}
use my_resource.Base.Fault.{ok, Gives, Gives-mono, Gives->>=, Gives-if_true, Gives-if_false, ◌>>=◌}
use my_resource.Ipc.ArrShm.{
  Arr, Code, success, error, dirty, dirty_at, first_free, insert, memcpy, put, long_value,
}
use my_resource.Ipc.ArrShm.Memory.{length-put, take-drop-put_apart, take-drop-put_same}
use my_resource.Ipc.ArrShm.Blocks.{
  offset, offset-lt, offset-apart, free_from, first_free-offset, free_from-taken,
}

-- An array that is formatted, whose blocks lie in the segment, and whose count is that of the blocks
-- that are not in use.
pub record IsArray (s : Arr) : Type 0 where
  pub formatted : s.init_flag ≡ true
  pub wide : 8 ≤ s.single_block_size
  pub room : offset 0 s.single_block_size s.total_block_num ≤ length s.mem
  pub counted : s.unuse_block_num ≡ free_from s.total_block_num s.single_block_size 0 s.mem

abbrev pub block : Arr → ℕ → List ℕ
block s i = take s.single_block_size (drop (offset 0 s.single_block_size i) s.mem)

abbrev pub is_dirty : Arr → ℕ → Bool
is_dirty s i = dirty_at s.mem (offset 0 s.single_block_size i)

-- A block that was not in use is in use and holds the data, and the other blocks are as they were.
abbrev pub Inserted : Arr → List ℕ → Arr → Type 0
Inserted s bytes t =
    (i : ℕ) × (i < s.total_block_num)
    × (is_dirty s i ≡ false)
    × (is_dirty t i ≡ true)
    × (take (length bytes) (drop (offset 0 s.single_block_size i + 8) t.mem) ≡ bytes)
    × ((j : ℕ) → j < s.total_block_num → j ≢ i → block t j ≡ block s j)
    × (s.unuse_block_num ≡ suc t.unuse_block_num)

-- The memory after the two writes of an insertion.
abbrev pub filled : ℕ → List ℕ → List ℕ → List ℕ
filled q bytes mem = put q dirty (put (q + 8) bytes mem)

module _ (q : ℕ) (bytes mem : List ℕ) (h : q + 8 + length bytes ≤ length mem) where
  filled-dirty : dirty_at (filled q bytes mem) q ≡ true
  filled-dirty =
      ap (λ l. long_value l == 1)
        (take-drop-put_same q dirty (put (q + 8) bytes mem)
          (omega (arith, length-put (q + 8) bytes mem)))

  pub filled-data : take (length bytes) (drop (q + 8) (filled q bytes mem)) ≡ bytes
  filled-data =
      take-drop-put_apart (length bytes) (q + 8) q dirty (put (q + 8) bytes mem) (inr (omega arith))
      ∙ take-drop-put_same (q + 8) bytes mem h

  filled-apart :
      (k r : ℕ)
      → (r + k ≤ q) ⊎ (q + 8 + length bytes ≤ r)
      → take k (drop r (filled q bytes mem)) ≡ take k (drop r mem)
  filled-apart k r d =
      take-drop-put_apart k r q dirty (put (q + 8) bytes mem)
        (elim d [ inl e ↦ inl e | inr e ↦ inr (omega arith) ])
      ∙ take-drop-put_apart k r (q + 8) bytes mem
          (elim d [ inl e ↦ inl (omega arith) | inr e ↦ inr e ])

  pub writes : memcpy (q + 8) bytes mem >>= memcpy q dirty ≡ ok (filled q bytes mem)
  unfolding memcpy
  writes =
      let one : ltb (length mem) (q + 8 + length bytes) ≡ false = ground arith in
      let two : ltb (length (put (q + 8) bytes mem)) (q + 8) ≡ false =
        ground (arith, length-put (q + 8) bytes mem) in
      rw (one, two) refl

-- What the caller sees of an insertion.
abbrev pub Outcome : Arr → List ℕ → Code × Arr → Type 0
Outcome s bytes r =
    ((r ≡ (error, s)) × ((s.unuse_block_num ≡ 0) ⊎ (s.single_block_size < length bytes)))
    ⊎ ((r.0 ≡ success) × Inserted s bytes r.1 × IsArray r.1)

module _ (s : Arr) (bytes : List ℕ) (v : IsArray s)
    (fits : length bytes + 8 ≤ s.single_block_size) where
  abbrev after : ℕ → Arr
  after q = record s { unuse_block_num = s.unuse_block_num - 1; mem = filled q bytes s.mem }

  module _ (i : ℕ) (l : i < s.total_block_num) where
    abbrev here : ℕ
    here = offset 0 s.single_block_size i

    inside : here + 8 + length bytes ≤ length s.mem
    inside =
        let room = v.room in omega (arith, offset-lt 0 s.single_block_size i s.total_block_num l)

    other :
        (k j : ℕ)
        → k ≤ s.single_block_size
        → j ≢ i
        → take k (drop (offset 0 s.single_block_size j) (filled here bytes s.mem))
          ≡ take k (drop (offset 0 s.single_block_size j) s.mem)
    other k j h d =
        filled-apart here bytes s.mem inside k (offset 0 s.single_block_size j)
          (elim (offset-apart s.single_block_size i j (λ e. d (sym e))) [
            | inl e ↦ inr (omega arith)
            | inr e ↦ inl (omega arith)
          ])

    after-Inserted :
        is_dirty s i ≡ false
        → 0 < s.unuse_block_num
        → Inserted s bytes (after here) × IsArray (after here)
    after-Inserted free some_free =
        let wide = v.wide in
        let counted = v.counted in
        let used = filled-dirty here bytes s.mem inside in
        (
          (
            i,
            l,
            free,
            used,
            filled-data here bytes s.mem inside,
            (λ j m d. other s.single_block_size j (omega arith) d),
            omega arith,
          ),
          record {
            formatted = v.formatted;
            wide = v.wide;
            room =
                rw
                  (
                    length-put here dirty (put (here + 8) bytes s.mem),
                    length-put (here + 8) bytes s.mem,
                  )
                  (v.room);
            counted = omega (
              arith,
              free_from-taken s.mem (filled here bytes s.mem) s.total_block_num s.single_block_size
                  0 i l free used (λ j m d. ap (λ b. long_value b == 1) (other 8 j wide d)),
            );
          },
        )

  insert_fits :
      0 < s.unuse_block_num
      → Gives (λ r. (r.0 ≡ success) × Inserted s bytes r.1 × IsArray r.1) (insert true bytes s)
  unfolding insert
  insert_fits some_free =
      let counted = v.counted in
      let nonzero : s.unuse_block_num == 0 ≡ false = ground arith in
      let short : ltb s.single_block_size (length bytes) ≡ false = ground arith in
      Gives-if_true _ _ _ v.formatted (
        Gives-if_false _ _ _ nonzero (
          Gives-if_false _ _ _ short (
            Gives->>=
              (λ q.
                (i : ℕ) × (i < s.total_block_num)
                × (q ≡ offset 0 s.single_block_size i)
                × (dirty_at s.mem q ≡ false))
              (λ r. (r.0 ≡ success) × Inserted s bytes r.1 × IsArray r.1)
              (first_free s.total_block_num s.single_block_size 0 s.mem)
              (λ p. memcpy (p + 8) bytes s.mem >>= memcpy p dirty >>= λ mem.
                ok (success, record s { unuse_block_num = s.unuse_block_num - 1; mem = mem }))
              (first_free-offset s.total_block_num s.single_block_size 0 s.mem v.wide v.room
                (omega arith))
              (λ q (i, l, at, free).
                rw (at, writes (here i l) bytes s.mem (inside i l))
                  (let both = after-Inserted i l (rw (sym at) free) some_free in
                    (refl, both.0, both.1))))))

insert_refused :
    (s : Arr) (bytes : List ℕ)
    → IsArray s
    → (s.unuse_block_num ≡ 0) ⊎ (s.single_block_size < length bytes)
    → insert true bytes s ≡ ok (error, s)
unfolding insert
insert_refused s bytes v (inl e) = let formatted = v.formatted in simp (formatted, e) refl
insert_refused s bytes v (inr h) =
    let long : ltb s.single_block_size (length bytes) ≡ true = ground arith in
    let formatted = v.formatted in
    elim (Bool-cases (s.unuse_block_num == 0)) [
      | inl e ↦ simp (formatted, e) refl
      | inr e ↦ simp (formatted, e, long) refl
    ]

-- On a formatted array `ArrShmInsert` puts data that leaves room for the flag of its block into a
-- block that was not in use, and changes no other block.
pub insert-Outcome :
    (s : Arr) (bytes : List ℕ)
    → IsArray s
    → (length bytes + 8 ≤ s.single_block_size) ⊎ (s.single_block_size < length bytes)
    → Gives (Outcome s bytes) (insert true bytes s)
insert-Outcome s bytes v h = elim (Bool-cases (s.unuse_block_num == 0)) [
  | inl e ↦ rw (insert_refused s bytes v (inl (ground arith))) (inl (refl, inl (ground arith)))
  | inr e ↦ elim h [
    | inl fits ↦
        Gives-mono (λ r. (r.0 ≡ success) × Inserted s bytes r.1 × IsArray r.1) (Outcome s bytes)
          (insert true bytes s) (insert_fits s bytes v fits (ground arith)) (λ r p. inr p)
    | inr long ↦ rw (insert_refused s bytes v (inr long)) (inl (refl, inr long))
  ]
]
