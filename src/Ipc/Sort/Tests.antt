-- ===== src/Ipc/Sort/Tests.antt =====
-- A block sorted by the byte at the front of its records, and the theorems at small inputs.
use my_resource.Base.{◌≡◌, refl, List, [], ◌∷◌, arith}
use mathlib.Core.List.{Perm}
use my_resource.Ipc.Bytes.{number, number_from}
use my_resource.Ipc.Rows.{Row, row, swap}
use my_resource.Ipc.Sort.{ssort}
use my_resource.Ipc.Sort.Quick.{qsort}
use my_resource.Base.Fault.{ok, Gives}
use my_resource.Ipc.Sort.Quick.Sorted.{qsort-IsSorted}
use my_resource.Ipc.Sort.Selection.{IsSorted}

abbrev rows : List Row
rows = (7 ∷ 1 ∷ []) ∷ (2 ∷ 2 ∷ []) ∷ (5 ∷ 3 ∷ []) ∷ []

ssort_run : ssort number rows ≡ (2 ∷ 2 ∷ []) ∷ (5 ∷ 3 ∷ []) ∷ (7 ∷ 1 ∷ []) ∷ []
unfolding ssort number_from row swap
ssort_run = refl

-- Ten records, more than a small part has.
qsort_run :
    qsort number (
      (9 ∷ [])
      ∷ (3 ∷ [])
      ∷ (7 ∷ [])
      ∷ (1 ∷ [])
      ∷ (3 ∷ [])
      ∷ (8 ∷ [])
      ∷ (2 ∷ [])
      ∷ (6 ∷ [])
      ∷ (5 ∷ [])
      ∷ (4 ∷ [])
      ∷ [])
    ≡ ok (
        (1 ∷ [])
        ∷ (2 ∷ [])
        ∷ (3 ∷ [])
        ∷ (3 ∷ [])
        ∷ (4 ∷ [])
        ∷ (5 ∷ [])
        ∷ (6 ∷ [])
        ∷ (7 ∷ [])
        ∷ (8 ∷ [])
        ∷ (9 ∷ [])
        ∷ [])
unfolding qsort number_from row swap
qsort_run = refl

qsort-IsSorted_example : Gives (λ ys. IsSorted number ys × Perm ys rows) (qsort number rows)
qsort-IsSorted_example = qsort-IsSorted number rows (omega arith)
