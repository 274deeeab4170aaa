-- ===== src/Ds/Trie/Tests.antt =====
-- The theorems on the word tree at small inputs.
use my_resource.Base.{
  none, Bool-cases, inl, inr, ◌==◌, ℕ, ◌≡◌, refl, some, List, [], ◌∷◌, arith, take,
}
use my_resource.Base.Fault.{ok}
use my_resource.Ds.Trie.{
  trietree_init, Info, Info, Root, null, node, fresh_info, no_slots, success, slot_offset,
  key_offset, insert, padded, dict_num,
}
use my_resource.Ds.Trie
use my_resource.Ds.Trie.Counts.{children, HangsAt, Counted}
use my_resource.Ds.Trie.{unknown_key, unknown}
use my_resource.Ds.Trie.Reach.{Reach, here, next, inserts, reach-Counted}
use my_resource.Ds.Trie.Delete.{Removed, delete-search}
use my_resource.Ds.Trie.Insert.{Written, insert-search}

abbrev empty : Root
empty = record { count = 0; top = null }

abbrev one_node : Root
one_node = record { count = 0; top = node (fresh_info 1 0) no_slots }

offset_of_b : key_offset (b'b' ∷ b'c' ∷ []) ≡ some 1
unfolding key_offset
offset_of_b = refl

abbrev bytes : List ℕ
bytes = 5 ∷ 6 ∷ 7 ∷ 8 ∷ []

insert-search_example :
    (root' : Root) × (insert 9 one_node (b'b' ∷ b'c' ∷ []) bytes 3 ≡ ok (success, root'))
    × Written one_node (b'b' ∷ b'c' ∷ []) 1 (take (padded 3) bytes) root'
insert-search_example =
    insert-search 9 one_node (b'b' ∷ b'c' ∷ []) bytes 2 1 offset_of_b (omega arith) (omega arith)

abbrev capital : ℕ
capital = b'Z'

offset_of_capital : slot_offset capital ≡ some 51
unfolding slot_offset
offset_of_capital = refl

abbrev second_info : Info
second_info = record {
  level = 2;
  parent_offset = 1;
  count = 0;
  datalen = 1;
  block = some (9 ∷ 9 ∷ 9 ∷ 9 ∷ []);
}

abbrev second : Trie.Trie
second = node second_info no_slots

-- A tree with data at the node of `b`, and the same with other data.
abbrev small : Root
small = record {
  count = 1;
  top =
      node (record { level = 1; parent_offset = 0; count = 1; datalen = 0; block = none })
        (Trie.update no_slots 1 second);
}

b_offset : key_offset (b'b' ∷ []) ≡ some 1
unfolding key_offset
b_offset = refl

leaf-Counted : (i : Info) → i.count ≡ 0 → Counted (node i no_slots)
unfolding Counted children
leaf-Counted i e = (e, (λ o. tt), λ o. tt)

small-Counted : Counted small.top
unfolding Counted children
small-Counted = (refl, hang, below)
  where
    hang : (o : ℕ) → HangsAt o (Trie.update no_slots 1 second o)
    hang o = elim (Bool-cases (o == 1)) [
      | inl h ↦ let at : 1 ≡ o = ground arith in rw h at
      | inr h ↦ rw h tt
    ]

    below : (o : ℕ) → Counted (Trie.update no_slots 1 second o)
    below o = elim (Bool-cases (o == 1)) [
      | inl h ↦ rw h (leaf-Counted second_info refl)
      | inr h ↦ rw h tt
    ]

delete-search_example :
    Removed small (b'b' ∷ []) 1 (Trie.delete small (b'b' ∷ [])) (Trie.search small (b'b' ∷ []))
delete-search_example = delete-search small (b'b' ∷ []) 1 b_offset small-Counted

small_run : Trie.insert 9 trietree_init (b'b' ∷ []) (9 ∷ 9 ∷ 9 ∷ 9 ∷ []) 1 ≡ ok (success, small)
unfolding Trie.insert Trie.insert_walk Trie.store Trie.copy_data Trie.attach Trie.finish key_offset
    Trie.padded
small_run = refl

small_reached : Reach trietree_init small
small_reached = next here (inserts 9 (b'b' ∷ []) (9 ∷ 9 ∷ 9 ∷ 9 ∷ []) 1 small_run)

reach-Counted_example : Counted small.top
reach-Counted_example = reach-Counted small_reached

no_offset : slot_offset b'-' ≡ none
unfolding slot_offset
no_offset = refl
