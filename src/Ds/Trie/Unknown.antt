-- ===== src/Ds/Trie/Unknown.antt =====
-- Keys that begin with a character outside of the alphabet.
use my_resource.Base.{ℕ, ◌≡◌, refl, Bool, none, List, ◌∷◌}
use my_resource.Base.Fault.{ok, fault}
use my_resource.Ds.Trie.{
  Info, Trie, node, Root, unknown_key, unknown, slot_offset, key_offset, walk, search, insert_walk,
  finish, insert, delete, update_data,
}

abbrev root_of : ℕ → Info → (ℕ → Trie) → Root
root_of n i s = record { count = n; top = node i s }

-- On a tree with a first node, for a key that begins with a character outside of the alphabet,
-- `trietree_insert` returns UNKNOWKEY and leaves the tree as it was, `trietree_search` returns the
-- pointer -2, and `trietree_delete` and `trietree_update` follow that pointer.
pub unknown_key_lem :
    (n : ℕ) (i : Info) (s : ℕ → Trie) (c : ℕ) (cs : List ℕ)
    → slot_offset c ≡ none
    → ((blocks : ℕ) (bytes : List ℕ) (m : ℕ)
        → insert blocks (root_of n i s) (c ∷ cs) bytes m ≡ ok (unknown_key, root_of n i s))
      × (search (root_of n i s) (c ∷ cs) ≡ unknown)
      × (delete (root_of n i s) (c ∷ cs) ≡ fault)
      × ((given : Bool) (bytes : List ℕ) (m : ℕ)
          → update_data given (root_of n i s) (c ∷ cs) bytes m ≡ fault)
unfolding insert search delete update_data key_offset walk insert_walk finish
unknown_key_lem n i s c cs h = (
  (λ blocks bytes m. rw h refl),
  rw h refl,
  rw (h, delete) refl,
  λ given bytes m. rw (h, update_data) refl,
)
