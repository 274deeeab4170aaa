-- ===== src/Ds/Trie/Reach.antt =====
-- Sequences of insertions and deletions: each node counts its children and each child knows its slot.
use my_resource.Base.{
  ◌%◌, ◌^◌, ℕ, zero, suc, ◌+◌, ◌<◌, ◌≡◌, refl, sym, ap, ◌∙◌, Option, none, some, List, arith,
  length,
}
use mathlib.Core.Path.{subst}
use my_resource.Base.Fault.{Run, ok, ◌>>=◌, Holds, Holds->>=}
use my_resource.Ds.Trie.{
  Info, Trie, null, node, Root, dict_num, Code, success, syserr, unknown_key, key_offset, Found,
  missing, unknown, found, fresh_info, no_slots, search, copy_data, store, attach, insert_walk,
  finish, insert, delete, trietree_init,
}
use my_resource.Ds.Trie.Counts.{
  weight, children, HangsAt, Counted, Counted-keep, Counted-replace, Counted-grow, Counted-hangs,
  Counted-child,
}
use my_resource.Ds.Trie.Delete.{key_offset-lt, Removed, delete-search}

fresh-Counted : (level o : ℕ) → Counted (node (fresh_info level o) no_slots)
unfolding Counted children
fresh-Counted level o = (refl, (λ q. tt), λ q. tt)

-- The node is still there, in the same slot of its parent.
abbrev Kept : ℕ → Trie → Type 0
Kept o null = ⊥
Kept o (node j u) = (j.parent_offset ≡ o) × Counted (node j u)

Kept-weight : (o : ℕ) (t : Trie) → Kept o t → weight t ≡ 1
Kept-weight o null h = absurd h
Kept-weight o (node j u) h = refl

Kept-hangs : (o : ℕ) (t : Trie) → Kept o t → HangsAt o t
Kept-hangs o null h = absurd h
Kept-hangs o (node j u) h = h.0

Kept-Counted : (o : ℕ) (t : Trie) → Kept o t → Counted t
Kept-Counted o null h = absurd h
Kept-Counted o (node j u) h = h.1

abbrev KeptBy : ℕ → Code × Trie → Type 0
KeptBy o r = Kept o r.1

module _ (o : ℕ) (low : o < dict_num) (level : ℕ) (bytes : List ℕ) where
  copy_data-Kept :
      (blocks n : ℕ) (i : Info) (s : ℕ → Trie)
      → Counted (node i s)
      → Holds
          (KeptBy i.parent_offset)
          (copy_data blocks n bytes i >>= λ i'. ok (success, node i' s))
  unfolding copy_data
  copy_data-Kept blocks zero i s v = (refl, Counted-keep i (record i { datalen = 0 }) s v refl)
  copy_data-Kept zero (suc n) i s v = tt
  copy_data-Kept (suc blocks) (suc n) i s v = (refl, Counted-keep i _ s v refl)

  store-Kept :
      (blocks n : ℕ) (i : Info) (s : ℕ → Trie)
      → Counted (node i s)
      → Holds (KeptBy i.parent_offset) (store blocks n bytes i >>= λ i'. ok (success, node i' s))
  unfolding store
  store-Kept blocks n i s v = copy_data-Kept blocks (n % 2 ^ 32) i s v

  attach-Kept :
      (i : Info) (s : ℕ → Trie) (r : Code × Trie)
      → Counted (node i s)
      → weight (s o) ≡ 1
      → Kept o r.1
      → Kept i.parent_offset (attach i s o r).1
  unfolding attach
  attach-Kept i s (code, t) v w k = (
    refl,
    Counted-replace i s o t low v (w ∙ sym (Kept-weight o t k)) (Kept-hangs o t k)
        (Kept-Counted o t k),
  )

  grow-Kept :
      (i : Info) (s : ℕ → Trie) (r : Code × Trie)
      → Counted (node i s)
      → weight (s o) ≡ 0
      → Kept o r.1
      → Kept i.parent_offset (attach (record i { count = i.count + 1 }) s o r).1
  unfolding attach
  grow-Kept i s (code, t) v w k = (
    refl,
    Counted-grow i s o t low v w (Kept-weight o t k) (Kept-hangs o t k) (Kept-Counted o t k),
  )

  insert_walk-Kept :
      (n k blocks : ℕ) (i : Info) (s : ℕ → Trie)
      → Counted (node i s)
      → Holds (KeptBy i.parent_offset) (insert_walk blocks k (some o) level n bytes i s)
  unfolding insert_walk
  insert_walk-Kept n zero blocks i s v = store-Kept blocks n i s v
  insert_walk-Kept n (suc k) blocks i s v =
      go blocks (s o) refl (Counted-hangs i s v o) (Counted-child i s v o) (insert_walk-Kept n k)
    where
      go :
          (blocks : ℕ) (t : Trie)
          → s o ≡ t
          → HangsAt o t
          → Counted t
          → ((blocks : ℕ) (i : Info) (s : ℕ → Trie)
              → Counted (node i s)
              → Holds (KeptBy i.parent_offset) (insert_walk blocks k (some o) level n bytes i s))
          → Holds (KeptBy i.parent_offset) (elim t [
            | node j u ↦
                insert_walk blocks k (some o) level n bytes j u >>= λ r. ok (attach i s o r)
            | null ↦ elim blocks [
              | zero ↦ ok (syserr, node i s)
              | suc b ↦
                  insert_walk b k (some o) level n bytes (fresh_info (level + 1) o) no_slots
                  >>= λ r. ok (attach (record i { count = i.count + 1 }) s o r)
            ]
          ])
      go blocks (node j u) e at w ih =
          Holds->>= (KeptBy j.parent_offset) (KeptBy i.parent_offset) _ _ (ih blocks j u w)
            (λ r h. attach-Kept i s r v (ap weight e) (subst (λ q. Kept q r.1) at h))
      go zero null e at w ih = (refl, v)
      go (suc b) null e at w ih =
          Holds->>= (KeptBy o) (KeptBy i.parent_offset) _ _
            (ih b (fresh_info (level + 1) o) no_slots (fresh-Counted (level + 1) o))
            (λ r h. grow-Kept i s r v (ap weight e) h)

abbrev CountedRoot : Code × Root → Type 0
CountedRoot r = Counted r.1.top

finish-CountedRoot :
    (q : ℕ) (root : Root) (r : Code × Trie) → KeptBy q r → CountedRoot (finish root r)
unfolding finish
finish-CountedRoot q root (success, t) k = Kept-Counted q t k
finish-CountedRoot q root (syserr, t) k = Kept-Counted q t k
finish-CountedRoot q root (unknown_key, t) k = Kept-Counted q t k

-- A walk with any offset, or none.
walk-Kept :
    (x : Option ℕ) (k blocks level n : ℕ) (bytes : List ℕ) (i : Info) (s : ℕ → Trie)
    → ((o : ℕ) → x ≡ some o → o < dict_num)
    → Counted (node i s)
    → Holds (KeptBy i.parent_offset) (insert_walk blocks k x level n bytes i s)
walk-Kept (some o) k blocks level n bytes i s low v =
    insert_walk-Kept o (low o refl) level bytes n k blocks i s v
walk-Kept none zero blocks level n bytes i s low v =
    unfold insert_walk in store-Kept 0 (omega arith) level bytes blocks n i s v
walk-Kept none (suc k) blocks level n bytes i s low v = unfold insert_walk in (refl, v)

insert-CountedRoot :
    (blocks : ℕ) (root : Root) (key bytes : List ℕ) (n : ℕ)
    → Counted root.top
    → Holds CountedRoot (insert blocks root key bytes n)
unfolding insert
insert-CountedRoot blocks root key bytes n v = go blocks root.top refl
  where
    low : (o : ℕ) → key_offset key ≡ some o → o < dict_num
    low o h = key_offset-lt key o h

    go :
        (blocks : ℕ) (t : Trie)
        → root.top ≡ t
        → Holds CountedRoot (elim t [
          | node i s ↦ insert_walk blocks (length key) (key_offset key) i.level n bytes i s >>= λ r.
              ok (finish root r)
          | null ↦ elim blocks [
            | zero ↦ ok (syserr, root)
            | suc b ↦
                insert_walk b (length key) (key_offset key) 1 n bytes (fresh_info 1 0) no_slots
                >>= λ r. ok (finish root r)
          ]
        ])
    go blocks (node i s) e =
        Holds->>= (KeptBy i.parent_offset) CountedRoot _ _
          (walk-Kept (key_offset key) (length key) blocks i.level n bytes i s low
            (subst Counted e v))
          (λ r h. finish-CountedRoot i.parent_offset root r h)
    go zero null e = v
    go (suc b) null e =
        Holds->>= (KeptBy 0) CountedRoot _ _
          (walk-Kept (key_offset key) (length key) b 1 n bytes (fresh_info 1 0) no_slots low
            (fresh-Counted 1 0))
          (λ r h. finish-CountedRoot 0 root r h)

Removed-CountedRoot :
    (root : Root) (key : List ℕ) (o : ℕ) (run : Run (Code × Root)) (f : Found)
    → Counted root.top
    → Removed root key o run f
    → Holds CountedRoot run
Removed-CountedRoot root key o run missing v e = subst (Holds CountedRoot) (sym e) v
Removed-CountedRoot root key o run unknown v e = absurd e
Removed-CountedRoot root key o run (found c) v (root', e, counted, _) =
    subst (Holds CountedRoot) (sym e) counted

-- A call that returns; the key of a deletion has a valid first character.
pub data Step : Root → Root → Type 0 where
  inserts :
      {p q : Root} (blocks : ℕ) (key bytes : List ℕ) (n : ℕ) {c : Code}
      → insert blocks p key bytes n ≡ ok (c, q)
      → Step p q
  deletes :
      {p q : Root} (key : List ℕ) (o : ℕ) {c : Code}
      → key_offset key ≡ some o
      → delete p key ≡ ok (c, q)
      → Step p q

pub data Reach (p : Root) : Root → Type 0 where
  here : Reach p p
  next : {q r : Root} → Reach p q → Step q r → Reach p r

Step-Counted : {p q : Root} → Step p q → Counted p.top → Counted q.top
Step-Counted {p} (inserts blocks key bytes n e) v =
    subst (Holds CountedRoot) e (insert-CountedRoot blocks p key bytes n v)
Step-Counted {p} (deletes key o h e) v =
    subst (Holds CountedRoot) e
      (Removed-CountedRoot p key o (delete p key) (search p key) v (delete-search p key o h v))

-- From `trietree_init` on, any sequence of calls of `trietree_insert`, with any keys and whether
-- memory is given or not, and of `trietree_delete` with keys whose first character is valid, as long
-- as each returns, leaves a tree in which each node counts its children and each child knows its
-- slot.
pub reach-Counted : {root : Root} → Reach trietree_init root → Counted root.top
reach-Counted here = unfold Counted in tt
reach-Counted (next r s) = Step-Counted s (reach-Counted r)
