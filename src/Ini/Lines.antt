-- ===== src/Ini/Lines.antt =====
-- The lines of a file that is written from sections, as `fgets` returns them.
use my_resource.Base.{
  ℕ, zero, suc, ◌≤◌, ◌<◌, ◌≡◌, ◌≢◌, refl, ap, ◌∙◌, Option, none, some, List, [], ◌∷◌, ◌++◌, arith,
  length, length-append,
}
use my_resource.Ini.{Str, Item, Section}
use my_resource.Ini.Parse.{newline, max_line, fgets, lines_of}

abbrev pub Lacks : ℕ → Str → Type 0
Lacks c [] = Unit
Lacks c (b ∷ bs) = (b ≢ c) × Lacks c bs

abbrev pub value_text : Option Str → Str
value_text none = []
value_text (some v) = v

-- The lines without their newline.
unfoldable pub item_text : Item → Str
item_text i = i.key ++ b'=' ∷ value_text i.value

unfoldable pub head_text : Section → Str
head_text s = b'[' ∷ (s.name ++ b']' ∷ [])

unfoldable pub item_texts : List Item → List Str
unfolding item_text
item_texts [] = []
item_texts (i ∷ is) = item_text i ∷ item_texts is

unfoldable pub texts : List Section → List Str
unfolding head_text item_texts
texts [] = []
texts (s ∷ ss) = head_text s ∷ (item_texts s.child ++ texts ss)

unfoldable pub file_of : List Str → Str
file_of [] = []
file_of (l ∷ ls) = l ++ newline ∷ file_of ls

unfoldable pub ended : List Str → List Str
ended [] = []
ended (l ∷ ls) = (l ++ newline ∷ []) ∷ ended ls

-- The file that is written for these sections.
unfoldable pub print_ini : List Section → Str
unfolding texts file_of
print_ini sections = file_of (texts sections)

abbrev pub IsLine : Str → Type 0
IsLine l = Lacks newline l × (length l < max_line)

abbrev pub AllLines : List Str → Type 0
AllLines [] = Unit
AllLines (l ∷ ls) = IsLine l × AllLines ls

fgets-line :
    (room : ℕ) (l rest : Str)
    → Lacks newline l
    → length l < room
    → fgets room (l ++ newline ∷ rest) ≡ (l ++ newline ∷ [], rest)
unfolding fgets
fgets-line zero l rest h n = absurd (omega arith)
fgets-line (suc room) [] rest h n = refl
fgets-line (suc room) (b ∷ bs) rest h n = ground (arith, fgets-line room bs rest h.1)

lines_of-fgets :
    (n : ℕ) (l rest : Str)
    → Lacks newline l
    → length l < max_line
    → lines_of (suc n) (l ++ newline ∷ rest) ≡ (l ++ newline ∷ []) ∷ lines_of n rest
unfolding lines_of
lines_of-fgets n [] rest h e = rw (fgets-line max_line [] rest h e) refl
lines_of-fgets n (b ∷ bs) rest h e = rw (fgets-line max_line (b ∷ bs) rest h e) refl

pub lines_of-file_of :
    (n : ℕ) (ls : List Str)
    → AllLines ls
    → length (file_of ls) ≤ n
    → lines_of n (file_of ls) ≡ ended ls
unfolding lines_of file_of ended
lines_of-file_of zero [] h e = refl
lines_of-file_of zero (l ∷ ls) h e = absurd (omega (arith, length-append l (newline ∷ file_of ls)))
lines_of-file_of (suc n) [] h e = refl
lines_of-file_of (suc n) (l ∷ ls) h e =
    lines_of-fgets n l (file_of ls) h.0.0 h.0.1
    ∙ ap (λ m. (l ++ newline ∷ []) ∷ m)
        (lines_of-file_of n ls h.1 (omega (arith, length-append l (newline ∷ file_of ls))))
