-- ===== src/Ds/Trie/Search.antt =====
-- What a search of the word tree depends on, and the bounds of the offsets.
use my_resource.Base.{
  ℕ, zero, suc, ◌<◌, ◌≡◌, refl, Option, none, some, List, [], ◌∷◌, arith, length,
}
use my_resource.Ds.Trie.{
  Info, Trie, null, node, Root, dict_num, slot_offset, key_offset, Frame, Found, missing, unknown,
  found, walk, search,
}

-- The data that follows `m` links with the same offset.
unfoldable pub data_at : Trie → ℕ → ℕ → Option (List ℕ)
data_at null o m = none
data_at (node i s) o zero = i.block
data_at (node i s) o (suc m) = data_at (s o) o m

abbrev pub data_of : Found → Option (List ℕ)
data_of missing = none
data_of unknown = none
data_of (found n) = n.info.block

walk-data_at :
    (m o : ℕ) (p : List Frame) (i : Info) (s : ℕ → Trie)
    → data_of (walk m (some o) p i s) ≡ data_at (node i s) o m
unfolding walk data_at
walk-data_at zero o p i s = ground arith
walk-data_at (suc m) o p i s = go (s o) (walk-data_at m o)
  where
    go :
        (t : Trie)
        → ((p : List Frame) (j : Info) (s' : ℕ → Trie)
            → data_of (walk m (some o) p j s') ≡ data_at (node j s') o m)
        → data_of (elim t [
          | null ↦ missing
          | node j t' ↦ walk m (some o) (record { info = i; slots = s; offset = o } ∷ p) j t'
        ])
          ≡ data_at t o m
    go null ih = refl
    go (node j t') ih = ih _ j t'

pub search-data_at :
    (root : Root) (key : List ℕ) (o : ℕ)
    → key_offset key ≡ some o
    → data_of (search root key) ≡ data_at root.top o (length key)
unfolding search data_at
search-data_at root key o h = go root.top
  where
    go :
        (t : Trie)
        → data_of (elim t [ null ↦ missing | node i s ↦ walk (length key) (key_offset key) [] i s ])
          ≡ data_at t o (length key)
    go null = refl
    go (node i s) = rw h (walk-data_at (length key) o [] i s)

-- A character of the alphabet has an offset inside the array, and no other character has that one.
pub slot_offset-injective :
    (c c' o : ℕ) → slot_offset c ≡ some o → slot_offset c' ≡ some o → (o < dict_num) × (c ≡ c')
unfolding slot_offset
slot_offset-injective c c' o h h' = (ground arith, ground arith)
