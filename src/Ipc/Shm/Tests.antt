-- ===== src/Ipc/Shm/Tests.antt =====
-- Runs of the shared memory functions, and the theorems at small inputs.
use my_resource.Base.{
  false, ℕ, zero, suc, ◌==◌, ◌≡◌, refl, length, true, none, some, List, [], ◌∷◌, arith,
}
use my_resource.Base.Fault.{ok, fault, Holds}
use my_resource.Ipc.Bytes.{number_from}
use my_resource.Ipc.Rows.{Row, row, matching}
use my_resource.Ipc.Sort.Selection.{IsSorted}
use my_resource.Ipc.Shm.{
  System, Str, Block, Segment, Ret, failed, returned, init_segment, upload, find_block,
}
use my_resource.Ipc.Shm.Query.{rank, bsearch, sorted_rows, download, index_only}
use my_resource.Ipc.Shm.Layout.{IsValid, init_segment-IsValid, new_block}
use my_resource.Ipc.Shm.Contents.{Refines, upload-Refines}
use my_resource.Ipc.Shm.RoundTrip.{upload-download}
use my_resource.Ipc.Shm.Search.{Searched, bsearch-Searched}
use my_resource.Ipc.Shm.Ends.{Copies, sorted_rows-Copies}
use my_resource.Ipc.Shm.Safe.{Lock, locked, raw_segment, shm_init_safe, shm_destroy_safe}
use my_resource.Ipc.Shm.Returns.{Counted, download-Counted}

abbrev empty : Segment
empty = record { size = 300; fsize = 280; pin_head = 20; pin_tail = 300; bytes = []; blocks = [] }

init_run : init_segment 300 ≡ empty
unfolding init_segment
init_run = refl

-- Three records of two bytes, with the index in the first; the key 5 is there twice.
abbrev letters : List ℕ
letters = 5 ∷ 1 ∷ 5 ∷ 2 ∷ 7 ∷ 3 ∷ []

abbrev first_name : Str
first_name = 97 ∷ []

abbrev records : List Row
records = (5 ∷ 1 ∷ []) ∷ (5 ∷ 2 ∷ []) ∷ (7 ∷ 3 ∷ []) ∷ []

abbrev condition : Row
condition = 5 ∷ 0 ∷ []

abbrev stored : Block
stored = record {
  name = first_name;
  sortflag = true;
  num = 3;
  condoffset = 0;
  condlen = 1;
  pstart = 20;
  pend = 26;
  recsize = 2;
}

abbrev filled : Segment
filled = record {
  size = 300;
  fsize = 210;
  pin_head = 26;
  pin_tail = 236;
  bytes = letters;
  blocks = stored ∷ [];
}

filled-IsValid : IsValid filled
filled-IsValid = record {
  small = omega arith;
  data_end = omega arith;
  gap = omega arith;
  tail = omega arith;
  tiled = (refl, omega arith, omega arith, refl);
}

empty-IsValid : IsValid empty
empty-IsValid = rw init_run at (init_segment-IsValid 300 (omega arith) (omega arith))

upload-Refines_example :
    (r : Ret × Segment) × (upload true empty letters 2 0 1 first_name ≡ ok r)
    × Refines empty letters first_name r
    × IsValid r.1
upload-Refines_example =
    upload-Refines empty letters 2 0 1 first_name empty-IsValid (omega arith) (omega arith)

abbrev fresh : Block
fresh = new_block empty letters 2 0 1 first_name

condition_good : index_only fresh condition ≡ true
unfolding index_only
condition_good = refl

unused : find_block empty.blocks first_name ≡ none
unfolding find_block
unused = refl

upload-download_example :
    (t : Segment) × (upload true empty letters 2 0 1 first_name ≡ ok (returned 0, t))
    × (download true failed t none first_name ≡ ok (returned 3, records))
    × (download true failed t (some condition) first_name
        ≡ ok (
          returned (length (matching (λ r. rank fresh r == rank fresh condition) records)),
          matching (λ r. rank fresh r == rank fresh condition) records,
        ))
    × (download true failed t none (98 ∷ []) ≡ download true failed empty none (98 ∷ []))
upload-download_example =
    upload-download empty letters 2 0 1 first_name empty-IsValid (omega arith) (omega arith)
      (omega arith) unused (omega arith) (omega arith) condition condition_good (98 ∷ []) refl

matching_run :
    matching (λ r. rank fresh r == rank fresh condition) records ≡ (5 ∷ 1 ∷ []) ∷ (5 ∷ 2 ∷ []) ∷ []
unfolding matching number_from
matching_run = refl

records-IsSorted : IsSorted (rank stored) records
unfolding row number_from
records-IsSorted zero zero ij len = omega arith
records-IsSorted zero (suc zero) ij len = omega arith
records-IsSorted zero (suc (suc zero)) ij len = omega arith
records-IsSorted (suc zero) (suc zero) ij len = omega arith
records-IsSorted (suc zero) (suc (suc zero)) ij len = omega arith
records-IsSorted (suc (suc zero)) (suc (suc zero)) ij len = omega arith
records-IsSorted (suc (suc (suc i))) j ij len = absurd (omega arith)
records-IsSorted i (suc (suc (suc j))) ij len = absurd (omega arith)
records-IsSorted (suc i) zero ij len = absurd (omega arith)
records-IsSorted (suc (suc i)) (suc zero) ij len = absurd (omega arith)

bsearch-Searched_example : Searched (rank stored) 6 records 0 3 (bsearch (rank stored) 6 records)
bsearch-Searched_example = bsearch-Searched (rank stored) 6 records records-IsSorted

sorted_rows-Copies_example :
    Holds (Copies (rank stored) 5 records failed) (sorted_rows true failed filled stored records 5)
sorted_rows-Copies_example =
    sorted_rows-Copies filled stored 5 (omega arith) true failed records (omega arith)

-- The record that is found is the second, and the first has the key too: the count goes on to what
-- lies before the block.
outside_run : sorted_rows true failed filled stored records 5 ≡ fault
unfolding sorted_rows row number_from
outside_run = refl

-- A key that one record has, at the end of the data.
behind_run : sorted_rows true failed filled stored records 7 ≡ fault
unfolding sorted_rows row number_from
behind_run = refl

download-Counted_example : Holds Counted (download true failed filled none first_name)
download-Counted_example = download-Counted true failed filled none first_name filled-IsValid refl

abbrev system : System
system = record { key = 7; attaches = true; given = true }

abbrev got : Lock
got = record { present = true; wait = locked }

-- A segment that is made but cannot be attached stays, with a head of zeros.
abandoned_run :
    shm_init_safe true true
      (record system { attaches = false })
      (record got { present = false })
      300
      438
      none
    ≡ (failed, some raw_segment, false)
unfolding shm_init_safe
abandoned_run = refl

destroy_run : shm_destroy_safe true true system got (some filled) ≡ (returned 0, none, false)
unfolding shm_destroy_safe
destroy_run = refl
