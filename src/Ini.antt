-- ===== src/Ini.antt =====
-- The lists of fram/module/ini/src/itemlist.c and sectionlist.c. A linked list is a list of its
-- nodes, and NULL is the empty one; a C string is the list of its bytes before the NUL.
pub mod Lines
pub mod Lists
pub mod Parse
pub mod RoundTrip
mod Tests
use my_resource.Base.{
  ℕ, zero, suc, ◌+◌, Bool, true, false, ◌&&◌, Option, none, some, List, [], ◌∷◌, ◌++◌, ◌==◌,
  if◌then◌else◌,
}
use my_resource.Base.Fault.{Run, ok, fault}

abbrev pub Str : Type 0
Str = List ℕ

-- `!strcmp(a, b)`.
unfoldable pub str_eq : Str → Str → Bool
str_eq [] [] = true
str_eq [] (b ∷ bs) = false
str_eq (a ∷ as') [] = false
str_eq (a ∷ as') (b ∷ bs) = a == b && str_eq as' bs

-- `INIITEM`; a value is NULL if it is empty.
pub record Item : Type 0 where
  pub key : Str
  pub value : Option Str

-- `INISEC`.
pub record Section : Type 0 where
  pub name : Str
  pub child : List Item

-- SUCCESS and SYSERROR.
pub data Status : Type 0 where
  success error : Status

-- What the calls of `Malloc` in `ItemADD` return: true for memory.
pub record ItemMallocs : Type 0 where
  pub node : Bool
  pub key : Bool
  pub value : Bool

abbrev pub stored_value : Str → Option Str
stored_value [] = none
stored_value (b ∷ bs) = some (b ∷ bs)

abbrev pub is_empty : Str → Bool
is_empty [] = true
is_empty (b ∷ bs) = false

-- When there is no memory for the value, the node is freed before its key is read from it.
unfoldable pub item_add : ItemMallocs → List Item → Str → Str → Run (Status × List Item)
item_add m items key value =
    let added = items ++ record { key = key; value = stored_value value } ∷ [] in
    if m.node
    then (if m.key
        then (if is_empty value
            then ok (success, added)
            else if m.value
            then ok (success, added)
            else fault)
        else ok (error, items))
    else ok (error, items)

-- The number of nodes that were removed, and the list without them.
unfoldable pub item_del : List Item → Str → ℕ × List Item
unfolding str_eq
item_del [] key = (0, [])
item_del (x ∷ xs) key =
    let (n, rest) = item_del xs key in if str_eq x.key key then (n + 1, rest) else (n, x ∷ rest)

unfoldable pub get_item_by_key : List Item → Str → Option Item
unfolding str_eq
get_item_by_key [] key = none
get_item_by_key (x ∷ xs) key = if str_eq x.key key then some x else get_item_by_key xs key

-- The number of nodes that were freed; `*head` is NULL afterwards.
unfoldable pub item_destroy : List Item → ℕ × List Item
item_destroy [] = (0, [])
item_destroy (x ∷ xs) = let (n, rest) = item_destroy xs in (n + 1, rest)

-- `none` is the pointer -1; otherwise the new section is the last one.
unfoldable pub section_add : Bool → Bool → List Section → Str → Option (List Section)
section_add node_given name_given sections name =
    if node_given && name_given
    then some (sections ++ record { name = name; child = [] } ∷ [])
    else none

unfoldable pub section_item_add : ItemMallocs → Section → Str → Str → Run (Status × Section)
unfolding item_add
section_item_add m s key value = elim (item_add m s.child key value) [
  | ok r ↦ ok (r.0, record s { child = r.1 })
  | _ ↦ fault
]

unfoldable pub section_del : List Section → Str → ℕ × List Section
unfolding str_eq
section_del [] name = (0, [])
section_del (s ∷ ss) name =
    let (n, rest) = section_del ss name in
    if str_eq s.name name then (n + 1, rest) else (n, s ∷ rest)

unfoldable pub get_section_by_name : List Section → Str → Option Section
unfolding str_eq
get_section_by_name [] name = none
get_section_by_name (s ∷ ss) name =
    if str_eq s.name name then some s else get_section_by_name ss name

-- The number of sections that were freed. `*head` keeps its value here, unlike `ItemDestroy`'s.
unfoldable pub section_destroy : List Section → ℕ
section_destroy [] = 0
section_destroy (s ∷ ss) = section_destroy ss + 1

-- `GetSectionItem` of parserINI.c.
unfoldable pub get_section_item : List Section → Str → Str → Option Item
unfolding get_section_by_name get_item_by_key
get_section_item sections name key = elim (get_section_by_name sections name) [
  | none ↦ none
  | some s ↦ get_item_by_key s.child key
]
