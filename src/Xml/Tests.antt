-- ===== src/Xml/Tests.antt =====
-- Runs and concrete uses of what is proved of the search in a document.
use my_resource.Base.{◌≡◌, refl, Option, none, some, List, [], ◌∷◌, ℕ, length, take}
use my_resource.Base.Fault.{ok, Gives}
use my_resource.Ini.{Str, str_eq}
use my_resource.Xml.{
  Fields, Node, null, node, find_key, find_attr, has_attr, list_len, listed, get_list_by_key,
  get_list_by_attr,
}
use my_resource.Xml.Found.{
  with_key, with_attr, Listed, get_list_by_key-Listed, get_list_by_attr-Entered,
}

abbrev fields : Str → Str → Fields
fields key value = record {
  node_type = 3;
  attr_name = b'i' ∷ [];
  attr_value = value;
  key = key;
  value = [];
}

-- `b` with the child `a`, and behind it `a` with a child `a`.
abbrev inner : Node
inner = node (fields (b'a' ∷ []) (b'1' ∷ [])) null null

abbrev behind : Node
behind = node (fields (b'a' ∷ []) (b'2' ∷ [])) inner null

abbrev document : Node
document = node (fields (b'b' ∷ []) (b'2' ∷ [])) inner behind

key_run : get_list_by_key document (b'a' ∷ []) ≡ ok (some 2, inner ∷ behind ∷ [])
unfolding get_list_by_key listed find_key str_eq
key_run = refl

attr_run :
    get_list_by_attr document (b'i' ∷ []) (some (b'2' ∷ [])) ≡ ok (some 2, document ∷ behind ∷ [])
unfolding get_list_by_attr listed find_attr has_attr str_eq
attr_run = refl

get_list_by_key-Listed_example :
    Gives (Listed (with_key (b'a' ∷ []) document)) (get_list_by_key document (b'a' ∷ []))
get_list_by_key-Listed_example =
    get_list_by_key-Listed (fields (b'b' ∷ []) (b'2' ∷ [])) inner behind (b'a' ∷ [])

get_list_by_attr-Entered_example :
    Gives
      (λ (r : Option ℕ × List Node).
        (r.1 ≡ take list_len (with_attr (b'i' ∷ []) none document)) × (r.0 ≡ some (length r.1)))
      (get_list_by_attr document (b'i' ∷ []) none)
get_list_by_attr-Entered_example =
    get_list_by_attr-Entered (fields (b'b' ∷ []) (b'2' ∷ [])) inner behind (b'i' ∷ []) none
