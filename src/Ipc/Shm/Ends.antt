-- ===== src/Ipc/Shm/Ends.antt =====
-- A read of a block ends, sorted or not, although its loops do not stop at the block's bounds.
use my_resource.Base.{
  ℕ, zero, suc, ◌+◌, ◌-◌, ◌*◌, ◌/◌, ◌<◌, ◌≤◌, ◌≡◌, ◌⊎◌, refl, sym, inl, inr, Bool, Bool-cases,
  compare-cases, Option, none, some, List, [], arith, length, ltb, leb, ◌==◌, if◌then◌else◌,
  replicate, take, drop,
}
use my_resource.Base.Fault.{Run, ok, fault, ◌>>=◌, Holds, Holds->>=}
use my_resource.Ipc.Bytes.{number}
use my_resource.Ipc.Rows.{Row, row}
use my_resource.Ipc.Shm.{Block, Segment, Ret, returned, head_size}
use my_resource.Ipc.Shm.Query.{
  bsearch_from, bsearch, field_at, count_before, count_behind, neighbours, sorted_rows, rank,
}

-- The run does not use up its fuel.
abbrev pub Ends {ℓ} : {A : Type ℓ} → Run A → Type 0
Ends run = Holds (λ _. Unit) run

module _ (rank : Row → ℕ) (key : ℕ) (xs : List Row) where
  -- What the search returns is a record with the key.
  abbrev Found : Option ℕ → Type 0
  Found none = Unit
  Found (some i) = (i < length xs) × (rank (row xs i) ≡ key)

  -- No records, and `absent`, or copies of one record with the key, and their number.
  abbrev pub Copies : Ret → Ret × List Row → Type 0
  Copies absent (r, rows) =
      ((r ≡ absent) × (rows ≡ []))
      ⊎ ((n i : ℕ) × (i < length xs)
          × (rank (row xs i) ≡ key)
          × (r ≡ returned n)
          × (rows ≡ replicate n (row xs i)))

  bsearch_from-Ends :
      (fuel lo hi : ℕ)
      → hi ≤ length xs
      → hi - lo < fuel
      → Holds Found (bsearch_from fuel rank key xs lo hi)
  unfolding bsearch_from
  bsearch_from-Ends zero lo hi fits enough = absurd (omega arith)
  bsearch_from-Ends (suc fuel) lo hi fits enough =
      let mid = lo + (hi - lo) / 2 in
      elim (Bool-cases (ltb lo hi)) [
        | inr done ↦ rw done tt
        | inl more ↦
            let inside : mid < hi = ground arith in
            rw more (elim (compare-cases key (rank (row xs mid))) [
              | inl less ↦ rw less.0 (bsearch_from-Ends fuel lo mid (omega arith) (omega arith))
              | inr (inl same) ↦ rw same.0 (omega arith, sym same.1)
              | inr (inr greater) ↦
                  rw greater.0 (bsearch_from-Ends fuel (mid + 1) hi fits (omega arith))
            ])
      ]

  bsearch-Ends : Holds Found (bsearch rank key xs)
  unfolding bsearch
  bsearch-Ends = bsearch_from-Ends (length xs + 1) 0 (length xs) (omega arith) (omega arith)

-- A read lies among the data, or is a fault.
field_at-cases :
    (s : Segment) (b : Block) (pos : ℕ)
    → (field_at s b pos ≡ fault)
      ⊎ ((k : ℕ) × (field_at s b pos ≡ ok k) × (pos ≤ head_size + length s.bytes))
unfolding field_at
field_at-cases s b pos =
    let at = pos + b.condoffset in
    elim (Bool-cases (leb head_size at)) [
      | inr low ↦ inl (rw low refl)
      | inl low ↦ elim (Bool-cases (leb (at + b.condlen) (head_size + length s.bytes))) [
        | inr high ↦ inl (rw (low, high) refl)
        | inl high ↦ inr (
          number (take b.condlen (drop (at - head_size) s.bytes)),
          rw (low, high) refl,
          ground arith,
        )
      ]
    ]

Ends->>= : (m : Run ℕ) (f : ℕ → Run ℕ) → Ends m → ((n : ℕ) → Ends (f n)) → Ends (m >>= f)
Ends->>= m f h next = Holds->>= (λ _. Unit) (λ _. Unit) m f h (λ n _. next n)

-- One more round, if the record has the key.
round-Ends :
    (k key : ℕ) (rest : Run ℕ)
    → Ends rest
    → Ends (if k == key then rest >>= (λ n. ok (n + 1)) else ok 0)
round-Ends k key rest h = elim (Bool-cases (k == key)) [
  | inl same ↦ rw same (Ends->>= rest (λ n. ok (n + 1)) h (λ n. tt))
  | inr other ↦ rw other tt
]

module _ (s : Segment) (b : Block) (key : ℕ) (step : 0 < b.recsize) where
  count_before-Ends : (fuel pos : ℕ) → pos < fuel → Ends (count_before fuel s b key pos)
  unfolding count_before
  count_before-Ends zero pos h = absurd (omega arith)
  count_before-Ends (suc fuel) pos h =
      let rest =
        λ (wide : b.recsize ≤ pos). count_before-Ends fuel (pos - b.recsize) (omega arith) in
      elim (Bool-cases (ltb pos b.recsize)) [
        | inl short ↦ rw short tt
        | inr wide ↦ rw wide (elim (field_at-cases s b (pos - b.recsize)) [
          | inl e ↦ rw e tt
          | inr (k, e, _) ↦ rw e (round-Ends k key _ (rest (ground arith)))
        ])
      ]

  count_behind-Ends :
      (fuel pos : ℕ)
      → 0 < fuel
      → head_size + length s.bytes + 1 < fuel + pos
      → Ends (count_behind fuel s b key pos)
  unfolding count_behind
  count_behind-Ends zero pos some_left h = absurd (omega arith)
  count_behind-Ends (suc fuel) pos some_left h = elim (field_at-cases s b pos) [
    | inl e ↦ rw e tt
    | inr (k, e, inside) ↦
        rw e (
          round-Ends k key _ (count_behind-Ends fuel (pos + b.recsize) (omega arith) (omega arith)))
  ]

  inside_of :
      (xs : List Row) (i : ℕ)
      → b.pstart + length xs * b.recsize ≤ head_size + length s.bytes
      → i < length xs
      → b.pstart + i * b.recsize < head_size + length s.bytes + 1
  inside_of xs i fits h = grind arith

  module _ (given : Bool) (absent : Ret) (xs : List Row)
      (fits : b.pstart + length xs * b.recsize ≤ head_size + length s.bytes) where
    found-Copies :
        (found : Option ℕ)
        → Found (rank b) key xs found
        → Holds (Copies (rank b) key xs absent) (neighbours given absent s b xs key found)
    unfolding neighbours
    found-Copies none h = inl (refl, refl)
    found-Copies (some i) h =
        let fuel = head_size + length s.bytes + 1 in
        let pos = b.pstart + i * b.recsize in
        let before = count_before-Ends fuel pos (inside_of xs i fits h.0) in
        let behind = count_behind-Ends fuel (pos + b.recsize) (omega arith) (omega arith) in
        elim (Bool-cases given) [
          | inr refused ↦ rw refused tt
          | inl allowed ↦ rw allowed (
              Holds->>= (λ _. Unit) (Copies (rank b) key xs absent) (count_before fuel s b key pos)
                _ before
                (λ m _.
                  Holds->>= (λ _. Unit) (Copies (rank b) key xs absent)
                    (count_behind fuel s b key (pos + b.recsize)) _ behind
                    (λ n _. inr (1 + m + n, i, h.0, h.1, refl, refl))))
        ]

    -- The read of a sorted block, whose records have at least one byte and lie in front of the end of
    -- the data, ends or faults, although its loops do not stop at the block's bounds. What it returns
    -- is the value for no record and no records, or the number of copies of one record with the key:
    -- not the records around it that have the key too.
    pub sorted_rows-Copies :
        Holds (Copies (rank b) key xs absent) (sorted_rows given absent s b xs key)
    unfolding sorted_rows
    sorted_rows-Copies =
        Holds->>= (Found (rank b) key xs) (Copies (rank b) key xs absent) (bsearch (rank b) key xs)
          _ (bsearch-Ends (rank b) key xs) found-Copies
