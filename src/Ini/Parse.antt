-- ===== src/Ini/Parse.antt =====
-- `LoadINI` of fram/module/ini/src/parserINI.c.
use my_resource.Base.{
  ℕ, zero, suc, ◌||◌, Option, none, some, List, [], ◌∷◌, ◌++◌, ◌==◌, if◌then◌else◌, length, take,
}
use my_resource.Base.Fault.{Run, ok, fault, ◌>>=◌}
use my_resource.Ini.{Str, Item, Section, stored_value}

abbrev pub newline : ℕ
newline = 10

-- INI_MAXLINE less the NUL.
abbrev pub max_line : ℕ
max_line = 1023

-- `fgets`: up to `room` bytes, and not beyond a newline; then the rest of the file.
unfoldable pub fgets : ℕ → Str → Str × Str
fgets zero file = ([], file)
fgets (suc room) [] = ([], [])
fgets (suc room) (b ∷ bs) =
    if b == newline then (b ∷ [], bs) else let (line, rest) = fgets room bs in (b ∷ line, rest)

-- The lines that `fgets` returns, with as many rounds as the file has bytes.
unfoldable pub lines_of : ℕ → Str → List Str
lines_of zero file = []
lines_of (suc n) [] = []
lines_of (suc n) (b ∷ bs) = let (line, rest) = fgets max_line (b ∷ bs) in line ∷ lines_of n rest

-- A buffer as a C string, which ends in front of the first byte 0.
unfoldable pub c_string : Str → Str
c_string [] = []
c_string (b ∷ bs) = let rest = c_string bs in if b == 0 then [] else b ∷ rest

-- `strchr`: what stands before the first such byte, and behind it.
unfoldable pub cut_at : ℕ → Str → Option (Str × Str)
cut_at c [] = none
cut_at c (b ∷ bs) =
    let rest = cut_at c bs in
    if b == c
    then some ([], bs)
    else elim rest [ none ↦ none | some (front, back) ↦ some (b ∷ front, back) ]

-- The item goes to the section that was added last, which is the last one.
unfoldable pub add_to_last : List Section → Item → List Section
add_to_last [] item = []
add_to_last (s ∷ []) item = record s { child = s.child ++ item ∷ [] } ∷ []
add_to_last (s ∷ t ∷ ss) item = s ∷ add_to_last (t ∷ ss) item

-- NULL for a line that does not parse, or the sections so far.
pub data Next : Type 0 where
  reject : Next
  accept : List Section → Next

unfoldable pub section_line : List Section → Str → Next
section_line sections rest = elim (cut_at b']' rest) [
  | none ↦ reject
  | some (name, behind) ↦ accept (sections ++ record { name = name; child = [] } ∷ [])
]

-- The value is what stands behind the `=`, less one byte. With no byte there the length is computed
-- as -1 in an unsigned type, and `memcpy` runs out of its buffers.
unfoldable pub item_line : List Section → Str → Run Next
item_line sections line = elim (cut_at b'=' line) [
  | none ↦ ok reject
  | some (key, behind) ↦ elim behind [
    | [] ↦ fault
    | b ∷ bs ↦ ok (
        accept (
          add_to_last sections
            (record { key = key; value = stored_value (take (length bs) (b ∷ bs)) })))
  ]
]

-- One round of the loop over the lines, when memory is given, on the line as a C string.
unfoldable pub parse_line : List Section → Str → Run Next
parse_line sections [] = ok (accept sections)
parse_line sections (b ∷ bs) =
    if b == newline || b == b'#'
    then ok (accept sections)
    else if b == b'['
    then ok (section_line sections bs)
    else elim sections [ [] ↦ ok (accept []) | s ∷ ss ↦ item_line (s ∷ ss) (b ∷ bs) ]

unfoldable pub parse_lines : List Str → List Section → Run (List Section)
unfolding c_string
parse_lines [] sections = ok sections
parse_lines (l ∷ ls) sections = parse_line sections (c_string l) >>= λ next. elim next [
  | reject ↦ ok []
  | accept sections' ↦ parse_lines ls sections'
]

-- `none` is a file that cannot be read. Memory is given. An empty list is the pointer NULL.
unfoldable pub load_ini : Option Str → Run (List Section)
load_ini none = ok []
load_ini (some file) = parse_lines (lines_of (length file) file) []
