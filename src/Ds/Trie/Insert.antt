-- ===== src/Ds/Trie/Insert.antt =====
-- What an insertion changes for every search, and that keys with the same first character and the
-- same length share one node.
use my_resource.Base.{
  ℕ, zero, suc, ◌+◌, ◌%◌, ◌^◌, ◌≤◌, ◌<◌, ◌≡◌, refl, sym, ap, Bool, ◌&&◌, some, List, [], ◌∷◌, arith,
  ◌==◌, if◌then◌else◌, length, take,
}
use native.Mathlib.Decide.{ℕ_discrete}
use my_resource.Base.Fault.{ok}
use my_resource.Ds.Trie.{
  Info, Trie, null, node, Root, update, success, key_offset, fresh_info, no_slots, search, padded,
  copy_data, store, attach, insert_walk, finish, insert,
}
use my_resource.Ds.Trie.Search.{data_at, data_of, search-data_at}

-- The last node of the walk, and the ones below: the data that is stored there.
abbrev pub hits : ℕ → ℕ → ℕ → ℕ → Bool
hits k o m o' = if m == 0 then k == 0 else m == k && o' == o

-- The data at every place after a store `k` links down.
abbrev pub Stored : Trie → ℕ → ℕ → List ℕ → Trie → Type 0
Stored t k o b t' =
    (m o' : ℕ) → data_at t' o' m ≡ (if hits k o m o' then some b else data_at t o' m)

fresh-data_at : (l o o' m : ℕ) → data_at (node (fresh_info l o) no_slots) o' m ≡ data_at null o' m
unfolding data_at
fresh-data_at l o o' zero = refl
fresh-data_at l o o' (suc m) = refl

pub child-Stored :
    (o : ℕ) (b : List ℕ) (k : ℕ) (i j : Info) (s : ℕ → Trie) (t t' : Trie)
    → i.block ≡ j.block
    → ((m : ℕ) → data_at t o m ≡ data_at (s o) o m)
    → Stored t k o b t'
    → Stored (node i s) (suc k) o b (node j (update s o t'))
unfolding data_at
child-Stored o b k i j s t t' e same h zero o' = ground arith
child-Stored o b k i j s t t' e same h (suc m) o' = elim (ℕ_discrete o' o) [
  | yes q ↦ rw q (ground (arith, h m o, same m))
  | no q ↦ ground arith
]

module _ (o level n : ℕ) (bytes : List ℕ) (narrow : suc n + 4 < 2 ^ 32) where
  block : List ℕ
  block = take (padded (suc n)) bytes

  store_lem :
      (b : ℕ) (i : Info)
      → store (suc b) (suc n) bytes i ≡ ok (record i { datalen = suc n; block = some block })
  unfolding store copy_data block
  store_lem b i = let same : suc n % 2 ^ 32 ≡ suc n = omega arith in rw same refl

  insert_walk-Stored :
      (k blocks : ℕ) (i : Info) (s : ℕ → Trie)
      → k + 1 ≤ blocks
      → (t : Trie) × (insert_walk blocks k (some o) level (suc n) bytes i s ≡ ok (success, t))
        × Stored (node i s) k o block t
  unfolding insert_walk data_at attach
  insert_walk-Stored zero zero i s h = absurd (omega arith)
  insert_walk-Stored zero (suc b) i s h = (
    node (record i { datalen = suc n; block = some block }) s,
    rw (insert_walk, store_lem b i) refl,
    unfold block in elim [ zero ↦ λ o'. refl | suc m ↦ λ o'. ground arith ],
  )
  insert_walk-Stored (suc k) zero i s h = absurd (omega arith)
  insert_walk-Stored (suc k) (suc b) i s h = go (s o) refl (insert_walk-Stored k)
    where
      go :
          (c : Trie)
          → s o ≡ c
          → ((blocks : ℕ) (i : Info) (s : ℕ → Trie)
              → k + 1 ≤ blocks
              → (t : Trie) × (insert_walk blocks k (some o) level (suc n) bytes i s
                  ≡ ok (success, t))
                × Stored (node i s) k o block t)
          → (t : Trie) × (insert_walk (suc b) (suc k) (some o) level (suc n) bytes i s
              ≡ ok (success, t))
            × Stored (node i s) (suc k) o block t
      go null e ih =
          let (t', run, stored) = ih b (fresh_info (level + 1) o) no_slots (omega arith) in
          (
            node (record i { count = i.count + 1 }) (update s o t'),
            rw (e, insert_walk, run) refl,
            child-Stored o block k i (record i { count = i.count + 1 }) s
                (node (fresh_info (level + 1) o) no_slots) t' refl
                (λ m. rw e (fresh-data_at (level + 1) o o m)) stored,
          )
      go (node j t) e ih =
          let (t', run, stored) = ih (suc b) j t (omega arith) in
          (
            node i (update s o t'),
            rw (e, insert_walk, run) refl,
            child-Stored o block k i i s (node j t) t' refl (λ m. ap (λ c. data_at c o m) (sym e))
                stored,
          )

pub length-key_offset : (key : List ℕ) (o : ℕ) → key_offset key ≡ some o → 0 < length key
unfolding key_offset
length-key_offset [] o h = cc
length-key_offset (c ∷ cs) o h = omega arith

-- What every search reads after a store at the node of `key`.
abbrev pub Written : Root → List ℕ → ℕ → List ℕ → Root → Type 0
Written root key o b root' =
    (key' : List ℕ) (o' : ℕ)
    → key_offset key' ≡ some o'
    → data_of (search root' key')
      ≡ (if length key' == length key && o' == o then some b else data_of (search root key'))

pub Stored-Written :
    (root root' : Root) (key : List ℕ) (o : ℕ) (t : Trie) (b : List ℕ)
    → ((o' m : ℕ) → data_at root.top o' m ≡ data_at t o' m)
    → Stored t (length key) o b root'.top
    → Written root key o b root'
Stored-Written root root' key o t b same h key' o' e =
    let long = length-key_offset key' o' e in
    rw (search-data_at root' key' o' e, search-data_at root key' o' e, same o' (length key'))
      (ground (arith, h (length key') o'))

-- With a valid first character and enough memory, `trietree_insert` of at least one byte and fewer
-- than 2 ^ 32 - 4, whose padded number an `unsigned int` holds, returns 0, and afterwards a search for any key of the same length and the same first character, whatever its
-- other characters are, finds the new data, and a search for any other key with a valid first
-- character what it found before.
pub insert-search :
    (blocks : ℕ) (root : Root) (key bytes : List ℕ) (n o : ℕ)
    → key_offset key ≡ some o
    → length key + 2 ≤ blocks
    → suc n + 4 < 2 ^ 32
    → (root' : Root) × (insert blocks root key bytes (suc n) ≡ ok (success, root'))
      × Written root key o (take (padded (suc n)) bytes) root'
unfolding insert finish block
insert-search zero root key bytes n o h enough narrow = absurd (omega arith)
insert-search (suc b) root key bytes n o h enough narrow = go root.top refl
  where
    go :
        (t : Trie)
        → root.top ≡ t
        → (root' : Root) × (insert (suc b) root key bytes (suc n) ≡ ok (success, root'))
          × Written root key o (take (padded (suc n)) bytes) root'
    go null e =
        let (t', run, stored) =
          insert_walk-Stored o 1 n bytes narrow (length key) b (fresh_info 1 0) no_slots
            (omega arith) in
        (
          record { count = (root.count + 1) % 2 ^ 32; top = t' },
          rw (e, insert, h, run) refl,
          Stored-Written root _ key o (node (fresh_info 1 0) no_slots) _
              (λ o' m. rw e (sym (fresh-data_at 1 0 o' m))) stored,
        )
    go (node i s) e =
        let (t', run, stored) =
          insert_walk-Stored o i.level n bytes narrow (length key) (suc b) i s (omega arith) in
        (
          record { count = (root.count + 1) % 2 ^ 32; top = t' },
          rw (e, insert, h, run) refl,
          Stored-Written root _ key o (node i s) _ (λ o' m. ap (λ c. data_at c o' m) e) stored,
        )
