-- ===== src/Xml.antt =====
-- The search for nodes in a document: `xmlFindNode` and the calls that list what it finds, of
-- fram/module/xml/xmlList.c. A pointer to a node is the node with all that hangs on it.
pub mod Fills
pub mod Found
mod Tests
use my_resource.Base.{
  ℕ, zero, suc, ◌-◌, Bool, true, false, ◌&&◌, Option, none, some, List, [], ◌∷◌, ◌++◌, ◌==◌,
  if◌then◌else◌,
}
use my_resource.Base.Fault.{Run, ok, fault}
use my_resource.Ini.{Str, str_eq}

-- `XmlList` less its links.
pub record Fields : Type 0 where
  pub node_type : ℕ
  pub attr_name : Str
  pub attr_value : Str
  pub key : Str
  pub value : Str

-- NULL, or a node with its `pchild` and its `pnext`.
pub data Node : Type 0 where
  null : Node
  node : Fields → Node → Node → Node

-- Whether -1 is returned, the entries of the array that are written, and how many are left.
pub record Search : Type 0 where
  pub failed : Bool
  pub found : List Node
  pub room : ℕ

-- A node that is entered in the array.
abbrev pub enter_node : Node → List Node → List Node
enter_node t found = found ++ t ∷ []

-- A search that stops once -1 is returned.
abbrev pub and_then : Search → Search → Search
and_then first second = if first.failed then first else second

-- `xmlFindNode` with the mode KEY, behind the test of its caller that the pointer is not NULL. The
-- children of a node with the key are passed over.
unfoldable pub find_key : Str → Node → List Node → ℕ → Search
find_key name null found room = record { failed = false; found = found; room = room }
find_key name (node f child next) found zero = record { failed = true; found = found; room = 0 }
find_key name (node f child next) found (suc room) =
    let behind = find_key name next (enter_node (node f child next) found) room in
    let below = find_key name child found (suc room) in
    let after = find_key name next below.found below.room in
    if str_eq name f.key then behind else and_then below after

-- The test of the mode ATTR: the value is not looked at if NULL is given for it.
unfoldable pub has_attr : Str → Option Str → Fields → Bool
has_attr name none f = str_eq name f.attr_name
has_attr name (some value) f = str_eq name f.attr_name && str_eq value f.attr_value

-- `xmlFindNode` with the mode ATTR. What the calls for the child and the next node return is not
-- looked at.
unfoldable pub find_attr : Str → Option Str → Node → List Node → ℕ → Search
unfolding has_attr
find_attr name value null found room = record { failed = false; found = found; room = room }
find_attr name value (node f child next) found zero = record {
  failed = true;
  found = found;
  room = 0;
}
find_attr name value (node f child next) found (suc room) =
    let hit = has_attr name value f in
    let found' = if hit then enter_node (node f child next) found else found in
    let room' = if hit then room else suc room in
    let below = find_attr name value child found' room' in
    let after = find_attr name value next below.found below.room in
    if room' == 0
    then record { failed = true; found = found'; room = 0 }
    else record { failed = false; found = after.found; room = after.room }

-- LISTLEN
abbrev pub list_len : ℕ
list_len = 1024

-- What `xmlGetListByKey` and `xmlGetListByAttr` return, -1 as `none`, and what they write to the array.
unfoldable pub listed : Search → Option ℕ × List Node
listed s = (if s.failed then none else some (list_len - s.room), s.found)

unfoldable pub get_list_by_key : Node → Str → Run (Option ℕ × List Node)
unfolding listed find_key
get_list_by_key null key = fault
get_list_by_key (node f child next) key = ok (listed (find_key key (node f child next) [] list_len))

unfoldable pub get_list_by_attr : Node → Str → Option Str → Run (Option ℕ × List Node)
unfolding listed find_attr
get_list_by_attr null name value = fault
get_list_by_attr (node f child next) name value =
    ok (listed (find_attr name value (node f child next) [] list_len))
