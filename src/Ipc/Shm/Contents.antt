-- ===== src/Ipc/Shm/Contents.antt =====
-- A segment as the names and the data of its blocks, and what an upload does to it.
use my_resource.Base.{
  ℕ, ◌+◌, ◌-◌, ◌<◌, ◌≤◌, ◌≡◌, ◌⊎◌, inl, inr, refl, true, false, none, some, List, [], ◌∷◌, ◌++◌,
  arith, length, leb, ltb, ◌==◌, Bool-cases, Option-cases, take, drop, drop-append, take-append,
  drop-append_length, take_all, length-drop,
}
use my_resource.Base.Fault.{ok}
use my_resource.Ipc.Shm.{
  Str, Block, Segment, Ret, failed, timeout, returned, head_size, block_size, widen, find_block,
  upload,
}
use my_resource.Ipc.Shm.Layout.{Tiled, IsValid, new_block, extended, extended-IsValid}

abbrev pub data_of : List ℕ → Block → List ℕ
data_of bytes b = take (b.pend - b.pstart) (drop (b.pstart - head_size) bytes)

abbrev pub contents_of : List ℕ → List Block → List (Str × List ℕ)
contents_of bytes [] = []
contents_of bytes (b ∷ bs) = (b.name, data_of bytes b) ∷ contents_of bytes bs

-- The blocks, the newest first.
abbrev pub contents : Segment → List (Str × List ℕ)
contents s = contents_of s.bytes s.blocks

pub Tiled-le : (end : ℕ) (bs : List Block) → Tiled end bs → head_size ≤ end
Tiled-le end [] t = omega arith
Tiled-le end (b ∷ bs) t = omega (arith, Tiled-le b.pstart bs t.3)

take-drop-append :
    (n m : ℕ) (xs ys : List ℕ) → m + n ≤ length xs → take n (drop m (xs ++ ys)) ≡ take n (drop m xs)
take-drop-append n m xs ys h = rw (drop-append m xs ys (omega arith)) (
    take-append n (drop m xs) ys
      (elim (length-drop m xs) [ inl e ↦ omega arith | inr e ↦ omega arith ]))

contents-append :
    (xs ys : List ℕ) (end : ℕ) (bs : List Block)
    → Tiled end bs
    → end ≤ head_size + length xs
    → contents_of (xs ++ ys) bs ≡ contents_of xs bs
contents-append xs ys end [] t h = refl
contents-append xs ys end (b ∷ bs) t h =
    let start = Tiled-le b.pstart bs t.3 in
    let last = t.0 in
    let inside = t.1 in
    rw (
      take-drop-append (b.pend - b.pstart) (b.pstart - head_size) xs ys (omega arith),
      contents-append xs ys b.pstart bs t.3 (omega arith),
    )

extended-contents :
    (s : Segment) (bytes : List ℕ) (sublen condoffset condlen : ℕ) (name : Str)
    → IsValid s
    → contents (extended s bytes (new_block s bytes sublen condoffset condlen name))
      ≡ (name, bytes) ∷ contents s
extended-contents s bytes sublen condoffset condlen name v =
    let data_end = v.data_end in
    let at : s.pin_head - head_size ≡ length s.bytes = omega arith in
    let long : s.pin_head + length bytes - s.pin_head ≡ length bytes = omega arith in
    rw (
      at,
      long,
      drop-append_length s.bytes bytes,
      take_all bytes,
      contents-append s.bytes bytes s.pin_head s.blocks v.tiled (omega arith),
    )

-- No block has the name: the scan finds none.
abbrev pub Unused : Str → Segment → Type 0
Unused name s = find_block s.blocks name ≡ none

-- What a caller can tell of an upload, when memory is given.
abbrev pub Refines : Segment → List ℕ → Str → Ret × Segment → Type 0
Refines s bytes name (failed, s') =
    (s' ≡ s)
    × ((length bytes ≡ 0)
        ⊎ (s.fsize < length bytes + block_size ⊎ (b : Block) × (find_block s.blocks name ≡ some b)))
Refines s bytes name (timeout, s') = ⊥
Refines s bytes name (returned n, s') =
    (n ≡ 0)
    × (0 < length bytes)
    × Unused name s
    × (s'.fsize + length bytes + block_size ≡ s.fsize)
    × (contents s' ≡ (name, bytes) ∷ contents s)

module _ (s : Segment) (bytes : List ℕ) (sublen condoffset condlen : ℕ) (name : Str) (v : IsValid s)
    (short : length name < 20) where
  narrow : widen s.fsize ≡ s.fsize
  unfolding widen
  narrow = let small = v.small in let gap = v.gap in let tail = v.tail in ground arith

  upload_full :
      0 < length bytes
      → 0 < sublen
      → s.fsize < length bytes + block_size
      → upload true s bytes sublen condoffset condlen name ≡ ok (failed, s)
  unfolding upload
  upload_full some_bytes pos h =
      let given : length bytes == 0 ≡ false = ground arith in
      let wide : sublen == 0 ≡ false = ground arith in
      let full : ltb s.fsize (length bytes + block_size) ≡ true = ground arith in
      rw (given, wide, narrow, full) refl

  upload_empty :
      length bytes ≡ 0 → upload true s bytes sublen condoffset condlen name ≡ ok (failed, s)
  unfolding upload
  upload_empty e = let none_given : length bytes == 0 ≡ true = ground arith in rw none_given refl

  upload_used :
      0 < length bytes
      → 0 < sublen
      → (b : Block) → find_block s.blocks name ≡ some b
      → upload true s bytes sublen condoffset condlen name ≡ ok (failed, s)
  unfolding upload
  upload_used some_bytes pos b e =
      let given : length bytes == 0 ≡ false = ground arith in
      let wide : sublen == 0 ≡ false = ground arith in
      rw (given, wide, narrow, e)
        (elim (Bool-cases (ltb s.fsize (length bytes + block_size))) [
          | inl h ↦ rw h refl
          | inr h ↦ rw h refl
        ])

  pub upload_new :
      0 < length bytes
      → 0 < sublen
      → length bytes + block_size ≤ s.fsize
      → Unused name s
      → upload true s bytes sublen condoffset condlen name
        ≡ ok (returned 0, extended s bytes (new_block s bytes sublen condoffset condlen name))
  unfolding upload
  upload_new some_bytes pos h e =
      let given : length bytes == 0 ≡ false = ground arith in
      let wide : sublen == 0 ≡ false = ground arith in
      let gap = v.gap in
      let room : ltb s.fsize (length bytes + block_size) ≡ false = ground arith in
      let fits : leb 20 (length name) ≡ false = ground arith in
      let apart : ltb s.pin_tail (s.pin_head + length bytes + block_size) ≡ false = ground arith in
      rw (given, wide, narrow, room, e, fits, apart) refl

  -- On a segment with a valid layout, with memory given, a name that fits and records of at least one
  -- byte, `_shm_upload` returns -1 and changes nothing exactly if there is no data, or no room, or a
  -- block has the name; otherwise it returns 0, the blocks are the new one with its data and the old ones with
  -- theirs, and the free bytes are fewer by the data and the description. The layout stays valid.
  pub upload-Refines :
      0 < sublen
      → (r : Ret × Segment) × (upload true s bytes sublen condoffset condlen name ≡ ok r)
        × Refines s bytes name r
        × IsValid r.1
  upload-Refines pos = elim (Bool-cases (length bytes == 0)) [
    | inl none_given ↦
        let nothing : length bytes ≡ 0 = ground arith in
        ((failed, s), upload_empty nothing, (refl, inl nothing), v)
    | inr given ↦
        let some_bytes : 0 < length bytes = ground arith in
        elim (Option-cases (find_block s.blocks name)) [
          | inr (b, e) ↦ ((failed, s), upload_used some_bytes pos b e, (refl, inr (inr (b, e))), v)
          | inl e ↦ elim (Bool-cases (ltb s.fsize (length bytes + block_size))) [
            | inl h ↦
                let full : s.fsize < length bytes + block_size = ground arith in
                ((failed, s), upload_full some_bytes pos full, (refl, inr (inl full)), v)
            | inr h ↦
                let room : length bytes + block_size ≤ s.fsize = ground arith in
                let small = v.small in
                let gap = v.gap in
                let tail = v.tail in
                (
                  (returned 0, extended s bytes (new_block s bytes sublen condoffset condlen name)),
                  upload_new some_bytes pos room e,
                  (
                    refl,
                    some_bytes,
                    e,
                    omega arith,
                    extended-contents s bytes sublen condoffset condlen name v,
                  ),
                  extended-IsValid s bytes sublen condoffset condlen name v pos room,
                )
          ]
        ]
  ]
