-- ===== src/Ini/RoundTrip.antt =====
-- A file written from sections is read back as those sections.
use my_resource.Base.{
  ℕ, ◌+◌, ◌<◌, ◌≡◌, ◌≢◌, refl, ap, ◌∙◌, Option, none, some, List, [], ◌∷◌, ◌++◌, append_assoc,
  arith, length, length-append, take,
}
use mathlib.Core.List.{append-nil}
use my_resource.Base.Fault.{ok}
use my_resource.Ini.{Str, Item, Section, stored_value}
use my_resource.Ini.Parse.{
  newline, max_line, c_string, cut_at, add_to_last, accept, section_line, item_line, parse_line,
  parse_lines, load_ini,
}
use my_resource.Ini.Lines.{
  Lacks, value_text, item_text, head_text, item_texts, texts, file_of, ended, print_ini, AllLines,
  lines_of-file_of,
}

cut_at-append :
    (c : ℕ) (front back : Str) → Lacks c front → cut_at c (front ++ c ∷ back) ≡ some (front, back)
unfolding cut_at
cut_at-append c [] back h = ground arith
cut_at-append c (b ∷ bs) back h = ground (arith, cut_at-append c bs back h.1)

add_to_last-append :
    (pre : List Section) (name : Str) (items : List Item) (i : Item)
    → add_to_last (pre ++ record { name = name; child = items } ∷ []) i
      ≡ pre ++ record { name = name; child = items ++ i ∷ [] } ∷ []
unfolding add_to_last
add_to_last-append [] name items i = refl
add_to_last-append (s ∷ []) name items i = refl
add_to_last-append (s ∷ t ∷ pre) name items i =
    ap (λ l. s ∷ l) (add_to_last-append (t ∷ pre) name items i)

-- What may stand in a file: the names that the parser can tell apart, in lines that fit.
abbrev pub StartsPlain : Str → Type 0
StartsPlain [] = Unit
StartsPlain (b ∷ bs) = (b ≢ newline) × (b ≢ b'#') × (b ≢ b'[')

abbrev pub HasText : Option Str → Type 0
HasText none = Unit
HasText (some []) = ⊥
HasText (some (b ∷ bs)) = Unit

pub record IsItem (i : Item) : Type 0 where
  pub plain : StartsPlain i.key
  pub key_bytes : Lacks 0 i.key
  pub value_bytes : Lacks 0 (value_text i.value)
  pub key_line : Lacks newline i.key
  pub key_text : Lacks b'=' i.key
  pub value_line : Lacks newline (value_text i.value)
  pub value_kept : HasText i.value
  pub fits : length i.key + 1 + length (value_text i.value) < max_line

abbrev pub AllItems : List Item → Type 0
AllItems [] = Unit
AllItems (i ∷ is) = IsItem i × AllItems is

pub record IsSection (s : Section) : Type 0 where
  pub name_bytes : Lacks 0 s.name
  pub name_line : Lacks newline s.name
  pub name_text : Lacks b']' s.name
  pub fits : length s.name + 2 < max_line
  pub items : AllItems s.child

abbrev pub AllSections : List Section → Type 0
AllSections [] = Unit
AllSections (s ∷ ss) = IsSection s × AllSections ss

Lacks-append : (c : ℕ) (xs ys : Str) → Lacks c xs → Lacks c ys → Lacks c (xs ++ ys)
Lacks-append c [] ys h k = k
Lacks-append c (x ∷ xs) ys h k = (h.0, Lacks-append c xs ys h.1 k)

c_string-same : (xs : Str) → Lacks 0 xs → c_string xs ≡ xs
unfolding c_string
c_string-same [] h = refl
c_string-same (x ∷ xs) h = ground (arith, c_string-same xs h.1, h.0)

stored_value-text : (v : Option Str) → HasText v → stored_value (value_text v) ≡ v
stored_value-text none h = refl
stored_value-text (some []) h = absurd h
stored_value-text (some (b ∷ bs)) h = refl

take-init : (c b : ℕ) (bs : Str) → take (length (bs ++ c ∷ [])) (b ∷ (bs ++ c ∷ [])) ≡ b ∷ bs
take-init c b [] = refl
take-init c b (x ∷ bs) = ap (λ l. b ∷ l) (take-init c x bs)

-- `item_line` behind the `=`: all but the newline.
item_line-behind :
    (sections : List Section) (key v : Str)
    → Lacks b'=' key
    → item_line sections (key ++ b'=' ∷ (v ++ newline ∷ []))
      ≡ ok (accept (add_to_last sections (record { key = key; value = stored_value v })))
unfolding item_line
item_line-behind sections key [] h = rw (cut_at-append b'=' key (newline ∷ []) h, item_line) refl
item_line-behind sections key (b ∷ bs) h =
    rw (cut_at-append b'=' key (b ∷ (bs ++ newline ∷ [])) h, item_line, take-init) refl

-- The text of an item, with its newline, is an item line.
parse_line-plain :
    (s : Section) (ss : List Section) (key rest : Str)
    → StartsPlain key
    → parse_line (s ∷ ss) (key ++ b'=' ∷ rest) ≡ item_line (s ∷ ss) (key ++ b'=' ∷ rest)
unfolding parse_line
parse_line-plain s ss [] rest h = ground arith
parse_line-plain s ss (b ∷ bs) rest h = ground arith

abbrev NonEmpty : List Section → Type 0
NonEmpty [] = ⊥
NonEmpty (s ∷ ss) = Unit

NonEmpty-append : (pre : List Section) (s : Section) → NonEmpty (pre ++ s ∷ [])
NonEmpty-append [] s = tt
NonEmpty-append (x ∷ pre) s = tt

parse_line-item :
    (sections : List Section) (i : Item)
    → NonEmpty sections
    → IsItem i
    → parse_line sections (item_text i ++ newline ∷ []) ≡ ok (accept (add_to_last sections i))
unfolding item_text
parse_line-item [] i n h = absurd n
parse_line-item (s ∷ ss) i n h =
    rw (append_assoc i.key (b'=' ∷ value_text i.value) (newline ∷ [])) (
      parse_line-plain s ss i.key (value_text i.value ++ newline ∷ []) h.plain
      ∙ item_line-behind (s ∷ ss) i.key (value_text i.value) h.key_text
      ∙ ap (λ v. ok (accept (add_to_last (s ∷ ss) (record { key = i.key; value = v }))))
          (stored_value-text i.value h.value_kept))

parse_line-head :
    (sections : List Section) (s : Section)
    → IsSection s
    → parse_line sections (head_text s ++ newline ∷ [])
      ≡ ok (accept (sections ++ record { name = s.name; child = [] } ∷ []))
unfolding parse_line section_line head_text
parse_line-head sections s h =
    rw
      (
        append_assoc s.name (b']' ∷ []) (newline ∷ []),
        cut_at-append b']' s.name (newline ∷ []) h.name_text,
        section_line,
      )
      refl

item-c_string :
    (i : Item) → IsItem i → c_string (item_text i ++ newline ∷ []) ≡ item_text i ++ newline ∷ []
unfolding item_text
item-c_string i h = c_string-same ((i.key ++ b'=' ∷ value_text i.value) ++ newline ∷ []) (
    Lacks-append 0 (i.key ++ b'=' ∷ value_text i.value) (newline ∷ [])
      (Lacks-append 0 i.key (b'=' ∷ value_text i.value) h.key_bytes (omega arith, h.value_bytes))
      (omega arith))

head-c_string :
    (s : Section)
    → IsSection s
    → c_string (head_text s ++ newline ∷ []) ≡ head_text s ++ newline ∷ []
unfolding head_text
head-c_string s h = c_string-same (b'[' ∷ (s.name ++ b']' ∷ []) ++ newline ∷ []) (
  omega arith,
  Lacks-append 0 (s.name ++ b']' ∷ []) (newline ∷ [])
      (Lacks-append 0 s.name (b']' ∷ []) h.name_bytes (omega arith)) (omega arith),
)

ended-append : (xs ys : List Str) → ended (xs ++ ys) ≡ ended xs ++ ended ys
unfolding ended
ended-append [] ys = refl
ended-append (x ∷ xs) ys = ap (λ l. (x ++ newline ∷ []) ∷ l) (ended-append xs ys)

parse_lines-items :
    (is : List Item) (pre : List Section) (name : Str) (have : List Item) (more : List Str)
    → AllItems is
    → parse_lines (ended (item_texts is) ++ more) (pre ++ record { name = name; child = have } ∷ [])
      ≡ parse_lines more (pre ++ record { name = name; child = have ++ is } ∷ [])
unfolding parse_lines ended item_texts
parse_lines-items [] pre name have more h = rw (append-nil have) refl
parse_lines-items (i ∷ is) pre name have more h =
    rw
      (
        item-c_string i h.0,
        parse_line-item (pre ++ record { name = name; child = have } ∷ []) i (NonEmpty-append pre _)
            h.0,
        add_to_last-append pre name have i,
      )
      (parse_lines-items is pre name (have ++ i ∷ []) more h.1
        ∙ rw (append_assoc have (i ∷ []) is) refl)

parse_lines-texts :
    (sections pre : List Section)
    → AllSections sections
    → parse_lines (ended (texts sections)) pre ≡ ok (pre ++ sections)
unfolding parse_lines ended texts
parse_lines-texts [] pre h = rw (append-nil pre) refl
parse_lines-texts (s ∷ ss) pre h =
    rw (head-c_string s h.0, parse_line-head pre s h.0)
      (ap (λ ls. parse_lines ls (pre ++ record { name = s.name; child = [] } ∷ []))
          (ended-append (item_texts s.child) (texts ss))
        ∙ parse_lines-items s.child pre s.name [] (ended (texts ss)) h.0.items
        ∙ parse_lines-texts ss (pre ++ s ∷ []) h.1
        ∙ ap ok (append_assoc pre (s ∷ []) ss))

AllLines-append : (xs ys : List Str) → AllLines xs → AllLines ys → AllLines (xs ++ ys)
AllLines-append [] ys h k = k
AllLines-append (x ∷ xs) ys h k = (h.0, AllLines-append xs ys h.1 k)

AllLines-items : (is : List Item) → AllItems is → AllLines (item_texts is)
unfolding item_texts item_text
AllLines-items [] h = tt
AllLines-items (i ∷ is) h = (
  (
    Lacks-append newline i.key (b'=' ∷ value_text i.value) h.0.key_line
        (omega arith, h.0.value_line),
    omega (arith, length-append i.key (b'=' ∷ value_text i.value), h.0.fits),
  ),
  AllLines-items is h.1,
)

AllLines-texts : (sections : List Section) → AllSections sections → AllLines (texts sections)
unfolding texts head_text
AllLines-texts [] h = tt
AllLines-texts (s ∷ ss) h = (
  (
    (omega arith, Lacks-append newline s.name (b']' ∷ []) h.0.name_line (omega arith)),
    omega (arith, length-append s.name (b']' ∷ []), h.0.fits),
  ),
  AllLines-append (item_texts s.child) (texts ss) (AllLines-items s.child h.0.items)
      (AllLines-texts ss h.1),
)

-- `LoadINI` reads a file written from sections as these sections, in order and with all their
-- items, if the names and values are C strings that keep out of the syntax and each line fits the
-- buffer.
pub load_ini-print_ini :
    (sections : List Section)
    → AllSections sections
    → load_ini (some (print_ini sections)) ≡ ok sections
unfolding load_ini print_ini
load_ini-print_ini sections h =
    rw
      (lines_of-file_of (length (file_of (texts sections))) (texts sections)
        (AllLines-texts sections h) (omega arith))
      (parse_lines-texts sections [] h)
