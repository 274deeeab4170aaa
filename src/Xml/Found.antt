-- ===== src/Xml/Found.antt =====
-- What a search in a document finds: the nodes with the key or the attribute, in the order of the
-- document, as far as the array goes.
use my_resource.Base.{
  ℕ, zero, suc, ◌-◌, ◌≤◌, ◌≡◌, refl, sym, ap, ◌∙◌, Bool, true, false, Option, none, some, List, [],
  ◌∷◌, ◌++◌, length, length-append, take, arith, if◌then◌else◌, Bool-cases, inl, inr,
}
use mathlib.Core.Path.{subst}
use my_resource.Base.Fault.{Gives}
use my_resource.Ini.{Str, str_eq}
use my_resource.Xml.{
  Fields, Node, null, node, Search, enter_node, and_then, find_key, has_attr, find_attr, list_len,
  listed, get_list_by_key, get_list_by_attr,
}
use my_resource.Xml.Fills.{
  Fills, Fills-append, Fills-null, Fills-full, Fills-enter_node, step-Fills, has_room, found_at,
  room_at,
}

-- The nodes with the key, less those below another one.
unfoldable pub with_key : Str → Node → List Node
with_key name null = []
with_key name (node f child next) =
    if str_eq name f.key
    then node f child next ∷ with_key name next
    else with_key name child ++ with_key name next

-- The nodes with the attribute.
unfoldable pub with_attr : Str → Option Str → Node → List Node
with_attr name value null = []
with_attr name value (node f child next) =
    (if has_attr name value f then node f child next ∷ [] else [])
    ++ with_attr name value child
    ++ with_attr name value next

-- What the mode KEY returns says whether all the nodes are in the array.
pub record Outcome (ms found : List Node) (room : ℕ) (s : Search) : Type 0 where
  pub fills : Fills ms found room s
  pub stopped : s.failed ≡ true → room ≤ length ms
  pub complete : s.failed ≡ false → length ms ≤ room

and_then-Outcome :
    (ms ns found : List Node) (room : ℕ) (s t : Search)
    → Outcome ms found room s
    → Outcome ns s.found s.room t
    → Outcome (ms ++ ns) found room (and_then s t)
and_then-Outcome ms ns found room s t h k = elim (Bool-cases s.failed) [
  | inl e ↦
      let over = h.stopped e in
      let left = h.fills.left in
      let long = length-append ms ns in
      let same : and_then s t ≡ s = ap (λ b. if b then s else t) e in
      subst (Outcome (ms ++ ns) found room) (sym same) (record {
        fills = Fills-append ms ns found room s s h.fills (Fills-full ns s (omega arith));
        stopped = λ f. omega arith;
        complete = λ f. cc;
      })
  | inr e ↦
      let fit = h.complete e in
      let left = h.fills.left in
      let long = length-append ms ns in
      let same : and_then s t ≡ t = ap (λ b. if b then s else t) e in
      subst (Outcome (ms ++ ns) found room) (sym same) (record {
        fills = Fills-append ms ns found room s t h.fills k.fills;
        stopped = λ f. omega (arith, k.stopped f);
        complete = λ f. omega (arith, k.complete f);
      })
]

enter_node-Outcome :
    (x : Node) (ms found : List Node) (room : ℕ) (s : Search)
    → Outcome ms (enter_node x found) room s
    → Outcome (x ∷ ms) found (suc room) s
enter_node-Outcome x ms found room s h = record {
  fills = Fills-enter_node x ms found room s h.fills;
  stopped = λ e. omega (arith, h.stopped e);
  complete = λ e. omega (arith, h.complete e);
}

-- With no room, nothing is entered and -1 is returned.
full-Outcome :
    (ms found : List Node) → Outcome ms found 0 (record { failed = true; found = found; room = 0 })
full-Outcome ms found = record {
  fills = Fills-full ms (record { failed = true; found = found; room = 0 }) refl;
  stopped = λ e. omega arith;
  complete = λ e. cc;
}

find_key-Outcome :
    (name : Str) (t : Node) (found : List Node) (room : ℕ)
    → Outcome (with_key name t) found room (find_key name t found room)
unfolding find_key with_key
find_key-Outcome name null found room = record {
  fills = Fills-null found room;
  stopped = λ e. cc;
  complete = λ e. omega arith;
}
find_key-Outcome name (node f child next) found zero =
    full-Outcome (with_key name (node f child next)) found
find_key-Outcome name (node f child next) found (suc room) = elim (Bool-cases (str_eq name f.key)) [
  | inl h ↦ rw h (
      enter_node-Outcome (node f child next) (with_key name next) found room _
        (find_key-Outcome name next (enter_node (node f child next) found) room))
  | inr h ↦
      let below = find_key name child found (suc room) in
      rw h (
        and_then-Outcome (with_key name child) (with_key name next) found (suc room) below _
          (find_key-Outcome name child found (suc room))
          (find_key-Outcome name next below.found below.room))
]

find_attr-Fills :
    (name : Str) (value : Option Str) (t : Node) (found : List Node) (room : ℕ)
    → Fills (with_attr name value t) found room (find_attr name value t found room)
unfolding find_attr with_attr
find_attr-Fills name value null found room = Fills-null found room
find_attr-Fills name value (node f child next) found zero =
    Fills-full (with_attr name value (node f child next))
      (record { failed = true; found = found; room = 0 }) refl
find_attr-Fills name value (node f child next) found (suc room) =
    let hit = has_attr name value f in
    let x = node f child next in
    let below = find_attr name value child (found_at hit x found) (room_at hit room) in
    step-Fills hit x (with_attr name value child) (with_attr name value next) found room below _
      (find_attr-Fills name value child (found_at hit x found) (room_at hit room))
      (find_attr-Fills name value next below.found below.room)

-- A search for an attribute in an array of two entries or more never fails.
find_attr-failed :
    (name : Str) (value : Option Str) (t : Node) (found : List Node) (room : ℕ)
    → (find_attr name value t found (suc (suc room))).failed ≡ false
unfolding find_attr
find_attr-failed name value null found room = refl
find_attr-failed name value (node f child next) found room =
    elim (Bool-cases (has_attr name value f)) [
      | inl h ↦ rw h (rw (has_room room) refl)
      | inr h ↦ rw h (rw (has_room (suc room)) refl)
    ]

length-take_left : (n : ℕ) (ms : List Node) → n - (n - length ms) ≡ length (take n ms)
length-take_left zero ms = omega arith
length-take_left (suc n) [] = omega arith
length-take_left (suc n) (m ∷ ms) = let ih = length-take_left n ms in omega arith

take_enough : (n : ℕ) (ms : List Node) → length ms ≤ n → take n ms ≡ ms
take_enough zero [] h = refl
take_enough (suc n) [] h = refl
take_enough zero (m ∷ ms) h = absurd (omega arith)
take_enough (suc n) (m ∷ ms) h = ap (λ l. m ∷ l) (take_enough n ms (omega arith))

-- What xmlGetListByKey gives: a number of nodes, or -1, and what is in the array.
abbrev pub Listed : List Node → Option ℕ × List Node → Type 0
Listed ms (code, found) =
    (found ≡ take list_len ms)
    × (code ≡ none → list_len ≤ length ms)
    × ((n : ℕ) → code ≡ some n → (n ≡ length ms) × (found ≡ ms))

listed-Listed :
    (ms : List Node) (failed : Bool) (found : List Node) (room : ℕ)
    → Outcome ms [] list_len (record { failed = failed; found = found; room = room })
    → Listed ms (listed (record { failed = failed; found = found; room = room }))
unfolding listed
listed-Listed ms true found room h = (h.fills.entered, (λ e. h.stopped refl), λ n e. cc)
listed-Listed ms false found room h = (
  h.fills.entered,
  (λ e. cc),
  λ n e.
      let fit = h.complete refl in
      (ground (arith, h.fills.left), h.fills.entered ∙ take_enough list_len ms fit),
)

-- On a document, xmlGetListByKey succeeds with the number of the nodes with the key that lie below no
-- other one, and has entered all of them, but not those nested in them, in the order of the document; or it returns -1, there are
-- 1024 of them or more, and it has entered the first 1024.
pub get_list_by_key-Listed :
    (f : Fields) (child next : Node) (key : Str)
    → Gives (Listed (with_key key (node f child next))) (get_list_by_key (node f child next) key)
unfolding get_list_by_key
get_list_by_key-Listed f child next key =
    let s = find_key key (node f child next) [] list_len in
    listed-Listed (with_key key (node f child next)) s.failed s.found s.room
      (find_key-Outcome key (node f child next) [] list_len)

-- On a document, xmlGetListByAttr enters the nodes with the attribute in the order of the document,
-- the first 1024 if there are more, and always returns how many it has entered: that some are left
-- out is not reported.
pub get_list_by_attr-Entered :
    (f : Fields) (child next : Node) (name : Str) (value : Option Str)
    → Gives
        (λ (r : Option ℕ × List Node).
          (r.1 ≡ take list_len (with_attr name value (node f child next)))
          × (r.0 ≡ some (length r.1)))
        (get_list_by_attr (node f child next) name value)
unfolding get_list_by_attr listed
get_list_by_attr-Entered f child next name value =
    let s = find_attr name value (node f child next) [] list_len in
    let ms = with_attr name value (node f child next) in
    let fills = find_attr-Fills name value (node f child next) [] list_len in
    let count : list_len - s.room ≡ length s.found =
      ap (λ n. list_len - n) fills.left
      ∙ length-take_left list_len ms
      ∙ ap (λ l. length l) (sym fills.entered) in
    (
      fills.entered,
      ap (λ b. if b then none else some (list_len - s.room))
            (find_attr-failed name value (node f child next) [] 1022)
          ∙ ap some count,
    )
