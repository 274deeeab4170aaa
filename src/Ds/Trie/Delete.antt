-- ===== src/Ds/Trie/Delete.antt =====
-- What a deletion does to every search, on a tree whose counts are right.
use my_resource.Base.{
  ℕ, ◌+◌, ◌-◌, ◌%◌, ◌^◌, ◌<◌, ◌≡◌, refl, sym, ◌∙◌, ◌&&◌, ◌⊎◌, none, some, List, [], ◌∷◌, arith,
  ◌==◌, if◌then◌else◌, length, inl, inr,
}
use mathlib.Core.Path.{subst}
use my_resource.Base.Fault.{Run, ok, fault}
use my_resource.Ds.Trie.{
  Info, Trie, null, node, Root, dict_num, Code, success, syserr, key_offset, Position, Found,
  missing, unknown, found, walk, search, plug, prune, delete,
}
use my_resource.Ds.Trie.Search.{data_of, search-data_at, slot_offset-injective}
use my_resource.Ds.Trie.Insert.{length-key_offset}
use my_resource.Ds.Trie.Erase.{Erased, Deleted, walk-Deleted}
use my_resource.Ds.Trie.Counts.{Counted}

pub key_offset-lt : (key : List ℕ) (o : ℕ) → key_offset key ≡ some o → o < dict_num
unfolding key_offset
key_offset-lt [] o h = cc
key_offset-lt (c ∷ cs) o h = (slot_offset-injective c c o h h).0

-- What every search reads after a deletion.
abbrev pub Gone : Root → List ℕ → ℕ → Root → Type 0
Gone root key o root' =
    (key' : List ℕ) (o' : ℕ)
    → key_offset key' ≡ some o'
    → data_of (search root' key')
      ≡ (if length key' == length key && o' == o then none else data_of (search root key'))

Erased-Gone :
    (root root' : Root) (key : List ℕ) (o : ℕ) (t : Trie)
    → root.top ≡ t
    → Erased t (length key) o root'.top
    → Gone root key o root'
Erased-Gone root root' key o t e h key' o' f =
    let long = length-key_offset key' o' f in
    rw (search-data_at root' key' o' f, search-data_at root key' o' f, e)
      (ground (arith, h (length key') o'))

-- What `trietree_delete` returns after a search with this result.
abbrev pub Removed : Root → List ℕ → ℕ → Run (Code × Root) → Found → Type 0
Removed root key o run missing = run ≡ ok (syserr, root)
Removed root key o run unknown = ⊥
Removed root key o run (found c) =
    (root' : Root) × (run ≡ ok (success, root')) × Counted root'.top × Gone root key o root'

-- With a valid first character, on a tree in which each node counts its children and each child
-- knows its slot, `trietree_delete` returns -1 and changes nothing if a search for the key returns
-- NULL; otherwise it returns 0, and afterwards a search for any key of the same length and the same
-- first character finds nothing, and a search for any other key with a valid first character what it
-- found before, so that no node with data is freed; and each node counts its children again.
pub delete-search :
    (root : Root) (key : List ℕ) (o : ℕ)
    → key_offset key ≡ some o
    → Counted root.top
    → Removed root key o (delete root key) (search root key)
unfolding delete search
delete-search root key o h v = go root.top refl v
  where
    left : Position → Root
    left n = record {
      count = (root.count + (2 ^ 32 - 1)) % 2 ^ 32;
      top = prune n.path (record n.info { block = none }) n.slots;
    }

    after : Found → Run (Code × Root)
    after f = elim f [
      | missing ↦ ok (syserr, root)
      | unknown ↦ fault
      | found n ↦ ok (success, left n)
    ]

    whole_top :
        (i : Info) (s : ℕ → Trie) (w : Trie)
        → (w ≡ plug [] (node i s)) ⊎ (w ≡ prune [] i s)
        → w ≡ node i s
    whole_top i s w (inl e) = e ∙ unfold plug in refl
    whole_top i s w (inr e) = e ∙ unfold prune in refl

    from :
        (i : Info) (s : ℕ → Trie) (f : Found)
        → root.top ≡ node i s
        → Deleted (length key) o [] i s f
        → Removed root key o (after f) f
    from i s missing e d = refl
    from i s unknown e d = d
    from i s (found c) e d = (
      left c,
      refl,
      subst Counted (sym (whole_top d.info d.slots _ d.reached)) d.valid,
      Erased-Gone root (left c) key o (node i s) e (
          subst (Erased (node i s) (length key) o) (sym (whole_top d.info d.slots _ d.reached))
            d.erased),
    )

    go :
        (t : Trie)
        → root.top ≡ t
        → Counted t
        → Removed root key o
            (after
              (elim t [ null ↦ missing | node i s ↦ walk (length key) (key_offset key) [] i s ]))
            (elim t [ null ↦ missing | node i s ↦ walk (length key) (key_offset key) [] i s ])
    go null e v = refl
    go (node i s) e v =
        rw h (from i s _ e (walk-Deleted o (key_offset-lt key o h) (length key) [] i s v))
