-- ===== src/Ini/Lists.antt =====
-- Laws of the item and section lists.
use my_resource.Base.{
  ◌+◌, ◌≡◌, refl, ◌∙◌, true, Option, none, some, List, [], ◌∷◌, ◌++◌, arith, if◌then◌else◌, length,
}
use my_resource.Base.Fault.{ok}
use my_resource.Ini.{
  Str, str_eq, Item, Section, success, ItemMallocs, stored_value, item_add, item_del,
  get_item_by_key, section_del, get_section_by_name,
}

pub str_eq_refl : (a : Str) → str_eq a a ≡ true
unfolding str_eq
str_eq_refl [] = refl
str_eq_refl (a ∷ as') = ground (arith, str_eq_refl as')

pub str_eq-eq : (a b : Str) → str_eq a b ≡ true → a ≡ b
unfolding str_eq
str_eq-eq [] [] h = refl
str_eq-eq [] (b ∷ bs) h = cc
str_eq-eq (a ∷ as') [] h = cc
str_eq-eq (a ∷ as') (b ∷ bs) h = ground (arith, str_eq-eq as' bs)

-- `ItemDEL` returns how many nodes it removed, leaves none with the key, and leaves every other
-- key as it was for a lookup.
pub item_del-get :
    (items : List Item) (key : Str)
    → ((item_del items key).0 + length (item_del items key).1 ≡ length items)
      × ((j : Str)
          → get_item_by_key (item_del items key).1 j
            ≡ (if str_eq key j then none else get_item_by_key items j))
unfolding item_del get_item_by_key
item_del-get [] key = (omega arith, λ j. ground arith)
item_del-get (x ∷ xs) key =
    let (count, ih) = item_del-get xs key in
    (
      ground arith,
      λ j. ground (
        arith,
        ih j,
        str_eq-eq x.key key,
        str_eq-eq x.key j,
        str_eq-eq key j,
        str_eq_refl key,
        str_eq_refl j,
      ),
    )

-- `SectionDEL` returns how many sections it removed, leaves none with the name, and leaves every
-- other name as it was for a lookup.
pub section_del-get :
    (sections : List Section) (name : Str)
    → ((section_del sections name).0 + length (section_del sections name).1 ≡ length sections)
      × ((j : Str)
          → get_section_by_name (section_del sections name).1 j
            ≡ (if str_eq name j then none else get_section_by_name sections j))
unfolding section_del get_section_by_name
section_del-get [] name = (omega arith, λ j. ground arith)
section_del-get (x ∷ xs) name =
    let (count, ih) = section_del-get xs name in
    (
      ground arith,
      λ j. ground (
        arith,
        ih j,
        str_eq-eq x.name name,
        str_eq-eq x.name j,
        str_eq-eq name j,
        str_eq_refl name,
        str_eq_refl j,
      ),
    )

abbrev pub or_else {ℓ} : {A : Type ℓ} → Option A → Option A → Option A
or_else none b = b
or_else (some a) b = some a

get_item-append :
    (xs ys : List Item) (j : Str)
    → get_item_by_key (xs ++ ys) j ≡ or_else (get_item_by_key xs j) (get_item_by_key ys j)
unfolding get_item_by_key
get_item-append [] ys j = refl
get_item-append (x ∷ xs) ys j = ground (arith, get_item-append xs ys j)

abbrev pub all_given : ItemMallocs
all_given = record { node = true; key = true; value = true }

-- With memory given, `ItemADD` returns SUCCESS; a lookup of its key then finds the new value only if
-- the key was not there before, and every other lookup finds what it found.
pub item_add-get :
    (items : List Item) (key value : Str)
    → (items' : List Item) × (item_add all_given items key value ≡ ok (success, items'))
      × ((j : Str)
          → get_item_by_key items' j
            ≡ or_else (get_item_by_key items j) (
                if str_eq key j
                then some (record { key = key; value = stored_value value })
                else none))
unfolding item_add
item_add-get items key value = (
  items ++ record { key = key; value = stored_value value } ∷ [],
  ground arith,
  λ j. get_item-append items _ j ∙ unfold get_item_by_key in refl,
)
