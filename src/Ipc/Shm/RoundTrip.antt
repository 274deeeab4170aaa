-- ===== src/Ipc/Shm/RoundTrip.antt =====
-- What is uploaded is what a download returns.
use my_resource.Base.{
  ℕ, ◌+◌, ◌-◌, ◌*◌, ◌/◌, ◌<◌, ◌≤◌, ◌≡◌, refl, sym, ◌∙◌, true, false, Option, none, some, List, [],
  ◌++◌, arith, length, length-append, leb, ◌==◌, Option-cases, inl, inr, drop-append_length,
}
use my_resource.Base.Fault.{ok}
use my_resource.Ipc.Rows.{Row, matching}
use my_resource.Ipc.Shm.{
  Str, same_name, Block, Segment, failed, returned, head_size, block_size, find_block, block_info,
  upload,
}
use my_resource.Ipc.Shm.Query.{
  chunks, block_rows, rank, index_only, field_inside, download_block, download,
}
use my_resource.Ipc.Shm.Layout.{IsValid, new_block, extended, div-mul-le}
use my_resource.Ipc.Shm.Contents.{Unused, upload_new}
use my_resource.Ipc.Shm.Places.{
  div-pos, same_name_refl, find_block-Tiled, block_rows-append, collected_given,
}

module _ (s : Segment) (c : Option Row) (name : Str) where
  download-none : find_block s.blocks name ≡ none → download true failed s c name ≡ ok (failed, [])
  unfolding download block_info
  download-none e = rw (e, download, block_info) refl

  download-some :
      (b : Block)
      → find_block s.blocks name ≡ some b
      → download true failed s c name ≡ download_block true failed s b c
  unfolding download block_info
  download-some b e = rw (e, download, block_info) refl

same_rows :
    (s t : Segment) (b : Block)
    → block_rows t b ≡ block_rows s b
    → download_block true failed t b none ≡ download_block true failed s b none
unfolding download_block
same_rows s t b e = rw e refl

module _ (s : Segment) (bytes : List ℕ) (sublen condoffset condlen : ℕ) (name : Str) (v : IsValid s)
    (pos : 0 < sublen) where
  abbrev new : Block
  new = new_block s bytes sublen condoffset condlen name

  new_rows :
      block_rows (extended s bytes new) new ≡ ok (chunks (length bytes / sublen) sublen bytes)
  unfolding block_rows
  new_rows =
      let data_end = v.data_end in
      let at : s.pin_head - head_size ≡ length s.bytes = omega arith in
      let low : leb head_size s.pin_head ≡ true = ground arith in
      let high : leb (s.pin_head + length bytes / sublen * sublen)
            (head_size + length (s.bytes ++ bytes))
          ≡ true =
        ground (arith, length-append s.bytes bytes, div-mul-le (length bytes) sublen pos) in
      rw (low, high, at, drop-append_length s.bytes bytes) refl

  -- The new block is the one that its name finds.
  new_found : Unused name s → find_block (extended s bytes new).blocks name ≡ some new
  unfolding find_block
  new_found e = rw (e, same_name_refl name) refl

  download_all :
      Unused name s
      → sublen ≤ length bytes
      → download true failed (extended s bytes new) none name
        ≡ ok (returned (length bytes / sublen), chunks (length bytes / sublen) sublen bytes)
  unfolding download block_info download_block
  download_all e long =
      let some_rows : sublen * (length bytes / sublen) == 0 ≡ false =
        ground (arith, div-pos (length bytes) sublen pos long) in
      rw (new_found e, some_rows, new_rows) refl

  download-matching :
      Unused name s
      → condoffset + condlen ≤ sublen
      → (c : Row) → index_only new c ≡ true
      → download true failed (extended s bytes new) (some c) name
        ≡ ok (
          returned (
              length (
                matching
                  (λ r. rank new r == rank new c)
                  (chunks (length bytes / sublen) sublen bytes))),
          matching (λ r. rank new r == rank new c) (chunks (length bytes / sublen) sublen bytes),
        )
  unfolding download block_info download_block field_inside
  download-matching e narrow c good =
      let field : leb (condoffset + condlen) sublen ≡ true = ground arith in
      rw (new_found e, field, good, new_rows) (collected_given (matching _ _))

  other_found :
      (other : Str)
      → same_name name other ≡ false
      → find_block (extended s bytes new).blocks other ≡ find_block s.blocks other
  unfolding find_block
  other_found other differ = elim (Option-cases (find_block s.blocks other)) [
    | inl e ↦ rw (e, differ) refl
    | inr (b, e) ↦ rw e refl
  ]

  download_other :
      (other : Str)
      → same_name name other ≡ false
      → download true failed (extended s bytes new) none other ≡ download true failed s none other
  download_other other differ = elim (Option-cases (find_block s.blocks other)) [
    | inl e ↦
        download-none (extended s bytes new) none other (other_found other differ ∙ e)
        ∙ sym (download-none s none other e)
    | inr (b, e) ↦
        let data_end = v.data_end in
        let place = find_block-Tiled s.pin_head s.blocks other b v.tiled e in
        download-some (extended s bytes new) none other b (other_found other differ ∙ e)
        ∙ same_rows s (extended s bytes new) b
            (block_rows-append s (extended s bytes new) b bytes refl place.0 (omega arith))
        ∙ sym (download-some s none other b e)
  ]

  -- What is uploaded is what a download returns. On a segment with a valid layout, with memory given,
  -- a name that fits and that no block has, room for the data and its description, records of at least
  -- one byte whose index field ends inside of them, and data of at least one record, `_shm_upload`
  -- returns 0; then a download of the name without a condition returns all the records, in order; a
  -- download of it by a condition on the index alone returns exactly the records with that index, in
  -- order, and their number; and a download without a condition of any other name returns what it
  -- returned before.
  pub upload-download :
      length name < 20
      → length bytes + block_size ≤ s.fsize
      → Unused name s
      → condoffset + condlen ≤ sublen
      → sublen ≤ length bytes
      → (c : Row) → index_only new c ≡ true
      → (other : Str) → same_name name other ≡ false
      → (t : Segment) × (upload true s bytes sublen condoffset condlen name ≡ ok (returned 0, t))
        × (download true failed t none name
            ≡ ok (returned (length bytes / sublen), chunks (length bytes / sublen) sublen bytes))
        × (download true failed t (some c) name
            ≡ ok (
              returned (
                  length (
                    matching
                      (λ r. rank new r == rank new c)
                      (chunks (length bytes / sublen) sublen bytes))),
              matching
                  (λ r. rank new r == rank new c)
                  (chunks (length bytes / sublen) sublen bytes),
            ))
        × (download true failed t none other ≡ download true failed s none other)
  upload-download short room e narrow long c good other differ = (
    extended s bytes new,
    upload_new s bytes sublen condoffset condlen name v short (omega arith) pos room e,
    download_all e long,
    download-matching e narrow c good,
    download_other other differ,
  )
