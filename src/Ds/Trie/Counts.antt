-- ===== src/Ds/Trie/Counts.antt =====
-- Trees in which each node counts its children and each child knows its slot.
use my_resource.Base.{
  ◌==◌, true, false, Bool-cases, inl, inr, sym, ◌∙◌, ◌-◌, ◌%◌, ◌^◌, ℕ, zero, suc, ◌+◌, ◌<◌, ◌≤◌,
  ◌≡◌, refl, true, false, arith, ◌==◌,
}
use mathlib.Core.Path.{subst}
use native.Mathlib.Decide.{ℕ_discrete}
use my_resource.Ds.Trie.{Info, Trie, null, node, update, dict_num}

abbrev pub weight : Trie → ℕ
weight null = 0
weight (node i s) = 1

-- How many of the first `n` slots are not NULL.
unfoldable pub children : ℕ → (ℕ → Trie) → ℕ
children zero s = 0
children (suc n) s = children n s + weight (s n)

children_above :
    (n o : ℕ) (s : ℕ → Trie) (t : Trie) → n ≤ o → children n (update s o t) ≡ children n s
unfolding children
children_above zero o s t h = refl
children_above (suc n) o s t h =
    let other : (n == o) ≡ false = ground arith in
    rw (children_above n o s t (omega arith), other) refl

pub children-update :
    (n o : ℕ) (s : ℕ → Trie) (t : Trie)
    → o < n
    → children n (update s o t) + weight (s o) ≡ children n s + weight t
unfolding children
children-update zero o s t h = absurd (omega arith)
children-update (suc n) o s t h = elim (ℕ_discrete n o) [
  | yes e ↦
      let same : (n == o) ≡ true = ground arith in
      rw (children_above n o s t (omega arith), same, e) (omega arith)
  | no e ↦
      let other : (n == o) ≡ false = ground arith in
      let rest = children-update n o s t (ground arith) in rw other (omega arith)
]

pub children_none : (n o : ℕ) (s : ℕ → Trie) → o < n → children n s ≡ 0 → weight (s o) ≡ 0
unfolding children
children_none zero o s h e = absurd (omega arith)
children_none (suc n) o s h e = elim (ℕ_discrete n o) [
  | yes q ↦ rw⁻¹ q (omega arith)
  | no q ↦ children_none n o s (ground arith) (omega arith)
]

weight_le : (t : Trie) → weight t ≤ 1
weight_le null = omega arith
weight_le (node i s) = omega arith

pub children_le : (n : ℕ) (s : ℕ → Trie) → children n s ≤ n
unfolding children
children_le zero s = omega arith
children_le (suc n) s = omega (arith, children_le n s, weight_le (s n))

abbrev pub HangsAt : ℕ → Trie → Type 0
HangsAt o null = Unit
HangsAt o (node i s) = i.parent_offset ≡ o

-- Every node counts its children, and each child knows its slot.
unfoldable pub Counted : Trie → Type 0
Counted null = Unit
Counted (node i s) =
    (i.count ≡ children dict_num s) × ((o : ℕ) → HangsAt o (s o)) × ((o : ℕ) → Counted (s o))

Counted-update :
    (i : Info) (s : ℕ → Trie) (o : ℕ) (t : Trie)
    → i.count ≡ children dict_num (update s o t)
    → HangsAt o t
    → Counted t
    → ((q : ℕ) → HangsAt q (s q))
    → ((q : ℕ) → Counted (s q))
    → Counted (node i (update s o t))
unfolding Counted
Counted-update i s o t e at v hang below = (e, hangs, holds)
  where
    hangs : (q : ℕ) → HangsAt q (update s o t q)
    hangs q = elim (ℕ_discrete q o) [
      | yes r ↦
          let same : (q == o) ≡ true = ground arith in rw same (subst (λ x. HangsAt x t) (sym r) at)
      | no r ↦ let other : (q == o) ≡ false = ground arith in rw other (hang q)
    ]

    holds : (q : ℕ) → Counted (update s o t q)
    holds q = elim (Bool-cases (q == o)) [ inl r ↦ rw r v | inr r ↦ rw r (below q) ]

pub Counted-keep :
    (i j : Info) (s : ℕ → Trie) → Counted (node i s) → j.count ≡ i.count → Counted (node j s)
unfolding Counted
Counted-keep i j s (c, hang, below) e = (e ∙ c, hang, below)

-- A child takes the place of another one.
pub Counted-replace :
    (i : Info) (s : ℕ → Trie) (o : ℕ) (t : Trie)
    → o < dict_num
    → Counted (node i s)
    → weight (s o) ≡ weight t
    → HangsAt o t
    → Counted t
    → Counted (node i (update s o t))
unfolding Counted
Counted-replace i s o t low (c, hang, below) w at v =
    let moved = children-update dict_num o s t low in
    Counted-update i s o t (omega arith) at v hang below

-- A child is added.
pub Counted-grow :
    (i : Info) (s : ℕ → Trie) (o : ℕ) (t : Trie)
    → o < dict_num
    → Counted (node i s)
    → weight (s o) ≡ 0
    → weight t ≡ 1
    → HangsAt o t
    → Counted t
    → Counted (node (record i { count = i.count + 1 }) (update s o t))
unfolding Counted
Counted-grow i s o t low (c, hang, below) w w' at v =
    let moved = children-update dict_num o s t low in
    Counted-update (record i { count = i.count + 1 }) s o t (omega arith) at v hang below

-- A child is removed.
pub Counted-shrink :
    (i : Info) (s : ℕ → Trie) (o : ℕ)
    → o < dict_num
    → Counted (node i s)
    → weight (s o) ≡ 1
    → Counted (node (record i { count = (i.count + (2 ^ 32 - 1)) % 2 ^ 32 }) (update s o null))
unfolding Counted
Counted-shrink i s o low (c, hang, below) w =
    let moved = children-update dict_num o s null low in
    let few = children_le dict_num s in
    Counted-update (record i { count = (i.count + (2 ^ 32 - 1)) % 2 ^ 32 }) s o null (omega arith)
      tt tt hang below

pub Counted-count : (i : Info) (s : ℕ → Trie) → Counted (node i s) → i.count ≡ children dict_num s
unfolding Counted
Counted-count i s v = v.0

pub Counted-hangs : (i : Info) (s : ℕ → Trie) → Counted (node i s) → (o : ℕ) → HangsAt o (s o)
unfolding Counted
Counted-hangs i s v o = v.1 o

pub Counted-child : (i : Info) (s : ℕ → Trie) → Counted (node i s) → (o : ℕ) → Counted (s o)
unfolding Counted
Counted-child i s v o = v.2 o
