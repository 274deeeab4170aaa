-- ===== src/Ds/Trie/Update.antt =====
-- What an update of the data does to every search.
use my_resource.Base.{
  ℕ, zero, suc, ◌+◌, ◌^◌, ◌<◌, leb, if◌then◌else◌, ◌-◌, ◌%◌, ◌≡◌, refl, sym, ap, true, Option, none,
  some, List, [], ◌∷◌, ◌++◌, arith, length, take, replicate,
}
use my_resource.Base.Fault.{Run, ok, fault}
use my_resource.Ds.Trie.{
  Info, Trie, null, node, Root, update, Code, success, syserr, key_offset, Frame, Found, missing,
  unknown, found, walk, search, plug, padded, update_data,
}
use my_resource.Ds.Trie.Search.{data_at}
use my_resource.Ds.Trie.Insert.{Stored, child-Stored, Written, Stored-Written}

-- The node that a walk finds, with other data in it, put back on its path.
abbrev Replaced : ℕ → List ℕ → Trie → ℕ → ℕ → List Frame → Found → Type 0
Replaced n b t k o p missing = Unit
Replaced n b t k o p unknown = ⊥
Replaced n b t k o p (found c) =
    (t' : Trie) × (plug c.path (node (record c.info { datalen = n; block = some b }) c.slots)
      ≡ plug p t')
    × Stored t k o b t'

module _ (n o : ℕ) (b : List ℕ) where
  here-Replaced :
      (p : List Frame) (i : Info) (s : ℕ → Trie)
      → Stored (node i s) 0 o b (node (record i { datalen = n; block = some b }) s)
  unfolding data_at
  here-Replaced p i s zero o' = refl
  here-Replaced p i s (suc m) o' = ground arith

  up-Replaced :
      (k : ℕ) (p : List Frame) (i : Info) (s : ℕ → Trie) (t : Trie) (f : Found)
      → s o ≡ t
      → Replaced n b t k o (record { info = i; slots = s; offset = o } ∷ p) f
      → Replaced n b (node i s) (suc k) o p f
  unfolding plug
  up-Replaced k p i s t missing e h = tt
  up-Replaced k p i s t unknown e h = h
  up-Replaced k p i s t (found c) e (t', whole, stored) = (
    node i (update s o t'),
    whole,
    child-Stored o b k i i s t t' refl (λ m. ap (λ c. data_at c o m) (sym e)) stored,
  )

  walk-Replaced :
      (k : ℕ) (p : List Frame) (i : Info) (s : ℕ → Trie)
      → Replaced n b (node i s) k o p (walk k (some o) p i s)
  unfolding walk
  walk-Replaced zero p i s = at_end i.block
    where
      at_end :
          (x : Option (List ℕ))
          → Replaced n b (node i s) 0 o p (elim x [
            | none ↦ missing
            | some _ ↦ found (record { path = p; info = i; slots = s })
          ])
      at_end none = tt
      at_end (some _) = (_, refl, here-Replaced p i s)
  walk-Replaced (suc k) p i s = go (s o) refl (walk-Replaced k)
    where
      go :
          (t : Trie)
          → s o ≡ t
          → ((p : List Frame) (i : Info) (s : ℕ → Trie)
              → Replaced n b (node i s) k o p (walk k (some o) p i s))
          → Replaced n b (node i s) (suc k) o p (elim t [
            | null ↦ missing
            | node j u ↦ walk k (some o) (record { info = i; slots = s; offset = o } ∷ p) j u
          ])
      go null e ih = tt
      go (node j u) e ih =
          up-Replaced k p i s (node j u) _ e
            (ih (record { info = i; slots = s; offset = o } ∷ p) j u)

search-Replaced :
    (n o : ℕ) (b : List ℕ) (root : Root) (key : List ℕ)
    → key_offset key ≡ some o
    → Replaced n b root.top (length key) o [] (search root key)
unfolding search
search-Replaced n o b root key h = go root.top
  where
    go :
        (t : Trie)
        → Replaced n b t
            (length key)
            o
            []
            (elim t [ null ↦ missing | node i s ↦ walk (length key) (key_offset key) [] i s ])
    go null = tt
    go (node i s) = rw h (walk-Replaced n o b (length key) [] i s)

-- What the function returns after a search with this result, when memory is given.
abbrev pub Updated : Root → List ℕ → ℕ → List ℕ → Run (Code × Root) → Found → Type 0
Updated root key o b run missing = run ≡ ok (syserr, root)
Updated root key o b run unknown = ⊥
Updated root key o b run (found c) =
    (root' : Root) × (run ≡ ok (success, root')) × Written root key o b root'

-- With a valid first character, memory given and fewer than 2 ^ 32 - 4 bytes, `trietree_update` returns -1 and changes nothing if
-- a search for the key returns NULL; otherwise it returns 0, and afterwards a search for any key of
-- the same length and the same first character finds the first `n` bytes of the new data, padded
-- with zeros, and a search for any other key with a valid first character what it found before.
pub update-search :
    (root : Root) (key bytes : List ℕ) (n o : ℕ)
    → key_offset key ≡ some o
    → n + 4 < 2 ^ 32
    → Updated root key o
        (take n bytes ++ replicate (4 - n % 4) 0)
        (update_data true root key bytes n)
        (search root key)
unfolding update_data plug padded
update-search root key bytes n o h narrow =
    go (search root key) (search-Replaced n o (take n bytes ++ replicate (4 - n % 4) 0) root key h)
  where
    same : n % 2 ^ 32 ≡ n
    same = omega arith

    fits : leb (n % 2 ^ 32) ((n % 2 ^ 32 + (4 - n % 2 ^ 32 % 4)) % 2 ^ 32) ≡ true
    fits = ground (arith, same)

    go :
        (f : Found)
        → Replaced n (take n bytes ++ replicate (4 - n % 4) 0) root.top (length key) o [] f
        → Updated root key o
            (take n bytes ++ replicate (4 - n % 4) 0)
            (elim f [
              | missing ↦ ok (syserr, root)
              | unknown ↦ fault
              | found c ↦
                  if leb (n % 2 ^ 32) ((n % 2 ^ 32 + (4 - n % 2 ^ 32 % 4)) % 2 ^ 32)
                  then ok (
                    success,
                    record root {
                      top = plug c.path (
                          node
                            (record c.info {
                              datalen = n % 2 ^ 32;
                              block = some (take (n % 2 ^ 32) bytes ++ replicate (4 - n % 4) 0);
                            })
                            c.slots);
                    },
                  )
                  else fault
            ])
            f
    go missing r = refl
    go unknown r = r
    go (found c) (t', whole, stored) = (
      record root { top = t' },
      rw (fits, same, whole) refl,
      Stored-Written root (record root { top = t' }) key o root.top _ (λ o' m. refl) stored,
    )
