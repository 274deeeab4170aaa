-- ===== src/Ipc/Shm/Places.antt =====
-- Where the records of a block lie, and that data put behind them leaves them as they are.
use my_resource.Base.{
  ℕ, zero, suc, ◌+◌, ◌-◌, ◌*◌, ◌/◌, ◌<◌, ◌≤◌, ◌≡◌, refl, ap, true, some, List, [], ◌∷◌, ◌++◌, arith,
  length, length-append, leb, Option-cases, inl, inr, drop, drop-append, take-append, length-drop,
}
use my_resource.Base.Fault.{ok}
use my_resource.Ipc.Rows.{Row}
use my_resource.Ipc.Shm.{Str, same_name, Block, Segment, returned, head_size, find_block}
use my_resource.Ipc.Shm.Query.{chunks, block_rows, collected}
use my_resource.Ipc.Shm.Layout.{Tiled}
use my_resource.Ipc.Shm.Contents.{Tiled-le}

pub div-pos : (a b : ℕ) → 0 < b → b ≤ a → 0 < b * (a / b)
div-pos a b h k = grind arith

pub chunks-append :
    (n w : ℕ) (xs ys : List ℕ) → n * w ≤ length xs → chunks n w (xs ++ ys) ≡ chunks n w xs
chunks-append zero w xs ys h = refl
chunks-append (suc n) w xs ys h =
    let split : suc n * w ≡ w + n * w = grind arith in
    let first : w ≤ length xs = omega arith in
    let rest : n * w ≤ length (drop w xs) = elim (length-drop w xs) [
      | inl e ↦ omega arith
      | inr e ↦ omega arith
    ] in
    rw (take-append w xs ys first, drop-append w xs ys first, chunks-append n w (drop w xs) ys rest)
      refl

pub same_name_refl : (a : Str) → same_name a a ≡ true
same_name_refl [] = refl
same_name_refl (a ∷ as') = ground (arith, same_name_refl as')

-- The records of a block that a name finds lie among the data.
pub find_block-Tiled :
    (end : ℕ) (bs : List Block) (other : Str) (b : Block)
    → Tiled end bs
    → find_block bs other ≡ some b
    → (head_size ≤ b.pstart) × (b.pstart + b.num * b.recsize ≤ end) × (0 < b.recsize)
unfolding find_block
find_block-Tiled end [] other b t e = absurd (cc)
find_block-Tiled end (c ∷ bs) other b t e = elim (Option-cases (find_block bs other)) [
  | inr (d, f) ↦
      let same : d ≡ b = ground (arith, f) in
      let inside = find_block-Tiled c.pstart bs other d t.3 f in
      let last = t.0 in let long = t.1 in let step = t.2 in rw (← same) (omega arith)
  | inl f ↦
      let same : c ≡ b = ground (arith, f) in
      let low = Tiled-le c.pstart bs t.3 in
      let last = t.0 in let long = t.1 in let step = t.2 in rw (← same) (omega arith)
]

-- What `block_rows` reads is there, and stays when data is put behind.
pub block_rows-append :
    (s t : Segment) (b : Block) (ys : List ℕ)
    → t.bytes ≡ s.bytes ++ ys
    → head_size ≤ b.pstart
    → b.pstart + b.num * b.recsize ≤ head_size + length s.bytes
    → block_rows t b ≡ block_rows s b
unfolding block_rows
block_rows-append s t b ys e low high =
    let before : leb head_size b.pstart ≡ true = ground arith in
    let inside : leb (b.pstart + b.num * b.recsize) (head_size + length s.bytes) ≡ true =
      ground arith in
    let inside' : leb (b.pstart + b.num * b.recsize) (head_size + length (s.bytes ++ ys)) ≡ true =
      ground (arith, length-append s.bytes ys) in
    let left : b.num * b.recsize ≤ length (drop (b.pstart - head_size) s.bytes) =
      elim (length-drop (b.pstart - head_size) s.bytes) [
        | inl f ↦ omega arith
        | inr f ↦ omega arith
      ] in
    rw (
      e,
      before,
      inside,
      inside',
      drop-append (b.pstart - head_size) s.bytes ys (omega arith),
      chunks-append b.num b.recsize (drop (b.pstart - head_size) s.bytes) ys left,
    )

pub collected_given : (xs : List Row) → collected true xs ≡ ok (returned (length xs), xs)
unfolding collected
collected_given [] = refl
collected_given (x ∷ xs) = ap (λ n. ok (returned n, x ∷ xs)) (omega arith)
