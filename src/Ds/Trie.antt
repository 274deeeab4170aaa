-- ===== src/Ds/Trie.antt =====
-- The word tree of fram/module/ds/src/trietree.c. The array of child pointers is a function from
-- offsets, `null` is the NULL pointer, and a pointer to a node is a position with the path to it.
pub mod Search
pub mod Insert
pub mod Update
pub mod Counts
pub mod Erase
pub mod Delete
pub mod Reach
pub mod Unknown
mod Tests
use my_resource.Base.{
  ℕ, zero, suc, ◌+◌, ◌-◌, ◌*◌, ◌%◌, ◌^◌, Bool, true, false, ◌&&◌, Option, none, some, List, [], ◌∷◌,
  ◌++◌, leb, ◌==◌, if◌then◌else◌, length, take, replicate,
}
use my_resource.Base.Fault.{Run, ok, fault, ◌>>=◌}

-- The fields of `TT_NODE` but the links; `none` is the data pointer NULL.
pub record Info : Type 0 where
  pub level : ℕ
  pub parent_offset : ℕ
  pub count : ℕ
  pub datalen : ℕ
  pub block : Option (List ℕ)

pub data Trie : Type 0 where
  null : Trie
  node : Info → (ℕ → Trie) → Trie

-- `TT_ROOT`.
pub record Root : Type 0 where
  pub count : ℕ
  pub top : Trie

abbrev pub trietree_init : Root
trietree_init = record { count = 0; top = null }

abbrev pub update : (ℕ → Trie) → ℕ → Trie → ℕ → Trie
update slots o t i = if i == o then t else slots i

-- 0, SYSERR and UNKNOWKEY.
pub data Code : Type 0 where
  success syserr unknown_key : Code

abbrev pub dict_num : ℕ
dict_num = 62

-- `none` is the value -1, which is negative as the `int` that every caller makes of it.
unfoldable pub slot_offset : ℕ → Option ℕ
slot_offset c =
    if leb b'a' c && leb c b'z'
    then some (c - b'a')
    else if leb b'A' c && leb c b'Z'
    then some (c - b'A' + 26)
    else if leb b'0' c && leb c b'9'
    then some (c - b'0' + 26 + 26)
    else none

-- The offset that every round of a loop over the key computes: `pkey` never moves, so it is that
-- of the first character. At the end of an empty key stands 0, which has none.
unfoldable pub key_offset : List ℕ → Option ℕ
unfolding slot_offset
key_offset [] = none
key_offset (c ∷ cs) = slot_offset c

-- A node as `_trietree_malloc` and the lines behind it leave it.
abbrev pub fresh_info : ℕ → ℕ → Info
fresh_info level offset = record {
  level = level;
  parent_offset = offset;
  count = 0;
  datalen = 0;
  block = none;
}

abbrev pub no_slots : ℕ → Trie
no_slots i = null

abbrev pub is_null : Trie → Bool
is_null null = true
is_null (node i s) = false

-- One `parent` link: the parent's fields and links, and the offset of the child in them.
pub record Frame : Type 0 where
  pub info : Info
  pub slots : ℕ → Trie
  pub offset : ℕ

pub record Position : Type 0 where
  pub path : List Frame
  pub info : Info
  pub slots : ℕ → Trie

-- NULL, the pointer -2, or a node.
pub data Found : Type 0 where
  missing : Found
  unknown : Found
  found : Position → Found

-- The loop of `trietree_search`, over the characters left.
unfoldable pub walk : ℕ → Option ℕ → List Frame → Info → (ℕ → Trie) → Found
walk zero o p i s = elim i.block [
  | none ↦ missing
  | some b ↦ found (record { path = p; info = i; slots = s })
]
walk (suc n) none p i s = unknown
walk (suc n) (some o) p i s = elim (s o) [
  | null ↦ missing
  | node j t ↦ walk n (some o) (record { info = i; slots = s; offset = o } ∷ p) j t
]

unfoldable pub search : Root → List ℕ → Found
unfolding walk key_offset
search root key = elim root.top [
  | null ↦ missing
  | node i s ↦ walk (length key) (key_offset key) [] i s
]

-- `datalen` up to the next multiple of four, and four more if it is one, as an `unsigned int`.
unfoldable pub padded : ℕ → ℕ
padded n = (n + (4 - n % 4)) % 2 ^ 32

-- What `trietree_insert` does at the last node. All bytes of the padded block are read from the
-- caller's data. `blocks` is how many more blocks `malloc` gives; `memset` runs over NULL.
-- `malloc` of 0 bytes gives a pointer.
unfoldable pub copy_data : ℕ → ℕ → List ℕ → Info → Run Info
unfolding padded
copy_data blocks zero bytes i = ok (record i { datalen = 0 })
copy_data zero (suc n) bytes i = fault
copy_data (suc blocks) (suc n) bytes i =
    ok (record i { datalen = suc n; block = some (take (padded (suc n)) bytes) })

-- `data_len` is an `unsigned long`, and `datalen` an `unsigned int`.
unfoldable pub store : ℕ → ℕ → List ℕ → Info → Run Info
unfolding copy_data
store blocks n bytes i = copy_data blocks (n % 2 ^ 32) bytes i

unfoldable pub attach : Info → (ℕ → Trie) → ℕ → Code × Trie → Code × Trie
attach i s o (code, child) = (code, node i (update s o child))

-- The loop of `trietree_insert`, over the characters left, from a node on.
unfoldable pub insert_walk :
    ℕ → ℕ → Option ℕ → ℕ → ℕ → List ℕ → Info → (ℕ → Trie) → Run (Code × Trie)
unfolding store attach
insert_walk blocks zero o level n bytes i s =
    store blocks n bytes i >>= λ i'. ok (success, node i' s)
insert_walk blocks (suc k) none level n bytes i s = ok (unknown_key, node i s)
insert_walk blocks (suc k) (some o) level n bytes i s =
    let below = λ (b : ℕ) (j : Info) (t : ℕ → Trie). insert_walk b k (some o) level n bytes j t in
    elim (s o) [
      | node j t ↦ below blocks j t >>= λ r. ok (attach i s o r)
      | null ↦ elim blocks [
        | zero ↦ ok (syserr, node i s)
        | suc b ↦ below b (fresh_info (level + 1) o) no_slots >>= λ r.
            ok (attach (record i { count = i.count + 1 }) s o r)
      ]
    ]

-- `root->count` counts the calls that succeed. The characters are looked at after the first node
-- has been made.
unfoldable pub finish : Root → Code × Trie → Code × Root
finish root (success, t) = (success, record { count = (root.count + 1) % 2 ^ 32; top = t })
finish root (syserr, t) = (syserr, record root { top = t })
finish root (unknown_key, t) = (unknown_key, record root { top = t })

unfoldable pub insert : ℕ → Root → List ℕ → List ℕ → ℕ → Run (Code × Root)
unfolding insert_walk key_offset finish
insert blocks root key bytes n = elim root.top [
  | node i s ↦ insert_walk blocks (length key) (key_offset key) i.level n bytes i s >>= λ r.
      ok (finish root r)
  | null ↦ elim blocks [
    | zero ↦ ok (syserr, root)
    | suc b ↦
        insert_walk b (length key) (key_offset key) 1 n bytes (fresh_info 1 0) no_slots >>= λ r.
        ok (finish root r)
  ]
]

-- The links from a position back to the first node, with this child in place.
unfoldable pub plug : List Frame → Trie → Trie
plug [] t = t
plug (f ∷ p) t = plug p (node f.info (update f.slots f.offset t))

-- The loop of `trietree_delete`: a node with no data and no child is freed, and its parent is next.
unfoldable pub prune : List Frame → Info → (ℕ → Trie) → Trie
unfolding plug
prune [] i s = node i s
prune (f ∷ p) i s =
    let up =
      prune p (record f.info { count = (f.info.count + (2 ^ 32 - 1)) % 2 ^ 32 })
        (update f.slots i.parent_offset null) in
    let stay = plug (f ∷ p) (node i s) in
    elim i.block [ some b ↦ stay | none ↦ if i.count == 0 then up else stay ]

-- The pointer -2 is not NULL, and is followed.
unfoldable pub delete : Root → List ℕ → Run (Code × Root)
unfolding search prune
delete root key = elim (search root key) [
  | missing ↦ ok (syserr, root)
  | unknown ↦ fault
  | found n ↦ ok (
    success,
    record {
      count = (root.count + (2 ^ 32 - 1)) % 2 ^ 32;
      top = prune n.path (record n.info { block = none }) n.slots;
    },
  )
]

-- Every block that is given holds the padded number of bytes, and `datalen` of them are copied, which
-- is a write behind the block where that number is 0 for a greater one.
unfoldable pub update_data : Bool → Root → List ℕ → List ℕ → ℕ → Run (Code × Root)
unfolding search plug padded
update_data given root key bytes n = elim (search root key) [
  | missing ↦ ok (syserr, root)
  | unknown ↦ fault
  | found c ↦
      if given && leb (n % 2 ^ 32) (padded (n % 2 ^ 32))
      then ok (
        success,
        record root {
          top = plug c.path (
              node
                (record c.info {
                  datalen = n % 2 ^ 32;
                  block = some (take (n % 2 ^ 32) bytes ++ replicate (4 - n % 4) 0);
                })
                c.slots);
        },
      )
      else fault
]

abbrev block_list : Option (List ℕ) → List (List ℕ)
block_list none = []
block_list (some b) = b ∷ []

from_last : ℕ → (ℕ → List (List ℕ)) → List (List ℕ)
from_last zero f = []
from_last (suc n) f = f n ++ from_last n f

-- The blocks of data in the order in which they are freed: the slots from the last to the first.
unfoldable pub destroy : Trie → List (List ℕ)
unfolding from_last
destroy null = []
destroy (node i s) =
    let below = λ (o : ℕ). destroy (s o) in from_last dict_num below ++ block_list i.block
