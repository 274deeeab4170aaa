-- ===== src/Ds/Trie/Erase.antt =====
-- The data that is left below a node after a deletion has gone up from the node that it found.
use my_resource.Base.{
  ℕ, zero, suc, ◌+◌, ◌-◌, ◌%◌, ◌^◌, ◌<◌, ◌≡◌, refl, sym, ap, ◌∙◌, ◌⊎◌, Option, none, some, List,
  ◌∷◌, arith, ◌==◌, if◌then◌else◌, Bool-cases, inl, inr,
}
use mathlib.Core.Path.{subst}
use native.Mathlib.Decide.{ℕ_discrete}
use my_resource.Ds.Trie.{
  Info, Trie, null, node, update, dict_num, Frame, Found, missing, unknown, found, walk, plug,
  prune,
}
use my_resource.Ds.Trie.Search.{data_at}
use my_resource.Ds.Trie.Insert.{hits}
use my_resource.Ds.Trie.Counts.{
  weight, children, children_none, HangsAt, Counted, Counted-keep, Counted-replace, Counted-shrink,
  Counted-count, Counted-hangs, Counted-child,
}

-- The data at every place after the data `k` links down has gone.
abbrev pub Erased : Trie → ℕ → ℕ → Trie → Type 0
Erased t k o t' = (m o' : ℕ) → data_at t' o' m ≡ (if hits k o m o' then none else data_at t o' m)

child-Erased :
    (o k : ℕ) (i j : Info) (s : ℕ → Trie) (t' : Trie)
    → i.block ≡ j.block
    → ((m : ℕ) → data_at t' o m ≡ (if hits k o m o then none else data_at (s o) o m))
    → Erased (node i s) (suc k) o (node j (update s o t'))
unfolding data_at
child-Erased o k i j s t' e h zero o' = ground arith
child-Erased o k i j s t' e h (suc m) o' = elim (ℕ_discrete o' o) [
  | yes q ↦ rw q (ground (arith, h m))
  | no q ↦ ground arith
]

-- A node that `trietree_delete` has reached on its way up, or at which it stopped.
pub record Left (k o : ℕ) (p : List Frame) (i : Info) (s : ℕ → Trie) (whole : Trie) : Type 0 where
  pub info : Info
  pub slots : ℕ → Trie
  pub reached : (whole ≡ plug p (node info slots)) ⊎ (whole ≡ prune p info slots)
  pub valid : Counted (node info slots)
  pub hangs : info.parent_offset ≡ i.parent_offset
  pub erased : Erased (node i s) k o (node info slots)

abbrev pub Deleted : ℕ → ℕ → List Frame → Info → (ℕ → Trie) → Found → Type 0
Deleted k o p i s missing = Unit
Deleted k o p i s unknown = ⊥
Deleted k o p i s (found c) = Left k o p i s (prune c.path (record c.info { block = none }) c.slots)

weight_null : (t : Trie) → weight t ≡ 0 → t ≡ null
weight_null null h = refl
weight_null (node i s) h = absurd (omega arith)

null-data_at : (o m : ℕ) → data_at null o m ≡ none
unfolding data_at
null-data_at o zero = refl
null-data_at o (suc m) = refl

empty-data_at :
    (i : Info) (s : ℕ → Trie) (o m : ℕ)
    → i.block ≡ none
    → children dict_num s ≡ 0
    → o < dict_num
    → data_at (node i s) o m ≡ data_at null o m
unfolding data_at
empty-data_at i s o zero b z low = b
empty-data_at i s o (suc m) b z low =
    ap (λ t. data_at t o m) (weight_null (s o) (children_none dict_num o s low z))
    ∙ null-data_at o m

module _ (o : ℕ) (low : o < dict_num) where
  here-Left :
      (p : List Frame) (i : Info) (s : ℕ → Trie)
      → Counted (node i s)
      → Left 0 o p i s (prune p (record i { block = none }) s)
  here-Left p i s e = record {
    info = record i { block = none };
    slots = s;
    reached = inr refl;
    valid = Counted-keep i (record i { block = none }) s e refl;
    hangs = refl;
    erased = gone;
  }
    where
      gone : Erased (node i s) 0 o (node (record i { block = none }) s)
      gone zero o' = unfold data_at in refl
      gone (suc m) o' = unfold data_at in ground arith

  -- The node stays, below its parent.
  stay-Left :
      (k : ℕ) (p : List Frame) (i : Info) (s : ℕ → Trie) (j : Info) (u : ℕ → Trie) (j' : Info)
      (u' : ℕ → Trie)
      → s o ≡ node j u
      → Counted (node i s)
      → j'.parent_offset ≡ o
      → Counted (node j' u')
      → Erased (node j u) k o (node j' u')
      → Left (suc k) o p i s (plug p (node i (update s o (node j' u'))))
  stay-Left k p i s j u j' u' e c at v h = record {
    info = i;
    slots = update s o (node j' u');
    reached = inl refl;
    valid = Counted-replace i s o (node j' u') low c (ap weight e) at v;
    hangs = refl;
    erased =
        child-Erased o k i i s (node j' u') refl
          (λ m. h m o ∙ ap (λ t. if hits k o m o then none else data_at t o m) (sym e));
  }

  -- The node is freed, and its parent is next.
  free-Left :
      (k : ℕ) (p : List Frame) (i : Info) (s : ℕ → Trie) (j : Info) (u : ℕ → Trie) (j' : Info)
      (u' : ℕ → Trie)
      → s o ≡ node j u
      → Counted (node i s)
      → j'.block ≡ none
      → children dict_num u' ≡ 0
      → Erased (node j u) k o (node j' u')
      → Left
          (suc k)
          o
          p
          i
          s
          (prune p (record i { count = (i.count + (2 ^ 32 - 1)) % 2 ^ 32 }) (update s o null))
  free-Left k p i s j u j' u' e c b z h = record {
    info = record i { count = (i.count + (2 ^ 32 - 1)) % 2 ^ 32 };
    slots = update s o null;
    reached = inr refl;
    valid = Counted-shrink i s o low c (ap weight e);
    hangs = refl;
    erased =
        child-Erased o k i (record i { count = (i.count + (2 ^ 32 - 1)) % 2 ^ 32 }) s null refl
          (λ m.
            sym (empty-data_at j' u' o m b z low)
            ∙ h m o
            ∙ ap (λ t. if hits k o m o then none else data_at t o m) (sym e));
  }

  -- One link further up.
  up-Left :
      (k : ℕ) (p : List Frame) (i : Info) (s : ℕ → Trie) (j : Info) (u : ℕ → Trie) (whole : Trie)
      → s o ≡ node j u
      → Counted (node i s)
      → j.parent_offset ≡ o
      → Left k o (record { info = i; slots = s; offset = o } ∷ p) j u whole
      → Left (suc k) o p i s whole
  unfolding prune plug
  up-Left k p i s j u whole e c at l = elim l.reached [
    | inl r ↦
        subst (Left (suc k) o p i s) (sym r)
          (stay-Left k p i s j u l.info l.slots e c (l.hangs ∙ at) l.valid l.erased)
    | inr r ↦
        subst (Left (suc k) o p i s) (sym r) (pruned l.info l.slots l.valid (l.hangs ∙ at) l.erased)
  ]
    where
      pruned :
          (j' : Info) (u' : ℕ → Trie)
          → Counted (node j' u')
          → j'.parent_offset ≡ o
          → Erased (node j u) k o (node j' u')
          → Left (suc k) o p i s (prune (record { info = i; slots = s; offset = o } ∷ p) j' u')
      pruned j' u' cc h er = tested j'.block refl
        where
          freed : ℕ → Trie
          freed q =
              prune p (record i { count = (i.count + (2 ^ 32 - 1)) % 2 ^ 32 }) (update s q null)

          tested :
              (x : Option (List ℕ))
              → j'.block ≡ x
              → Left (suc k) o p i s (elim x [
                | some b ↦ plug p (node i (update s o (node j' u')))
                | none ↦
                    if j'.count == 0
                    then freed j'.parent_offset
                    else plug p (node i (update s o (node j' u')))
              ])
          tested (some b) q = stay-Left k p i s j u j' u' e c h cc er
          tested none q = elim (Bool-cases (j'.count == 0)) [
            | inl z ↦
                let childless : children dict_num u' ≡ 0 =
                  sym (Counted-count j' u' cc) ∙ (ground arith) in
                rw z (
                  subst (λ v. Left (suc k) o p i s (freed v)) (sym h)
                    (free-Left k p i s j u j' u' e c q childless er))
            | inr z ↦ rw z (stay-Left k p i s j u j' u' e c h cc er)
          ]

  pub walk-Deleted :
      (k : ℕ) (p : List Frame) (i : Info) (s : ℕ → Trie)
      → Counted (node i s)
      → Deleted k o p i s (walk k (some o) p i s)
  unfolding walk
  walk-Deleted zero p i s v = at_end i.block
    where
      at_end :
          (x : Option (List ℕ))
          → Deleted 0 o p i s (elim x [
            | none ↦ missing
            | some _ ↦ found (record { path = p; info = i; slots = s })
          ])
      at_end none = tt
      at_end (some _) = here-Left p i s v
  walk-Deleted (suc k) p i s c =
      go (s o) refl (Counted-hangs i s c o) (Counted-child i s c o) (walk-Deleted k)
    where
      lifted :
          (j : Info) (u : ℕ → Trie) (f : Found)
          → s o ≡ node j u
          → j.parent_offset ≡ o
          → Deleted k o (record { info = i; slots = s; offset = o } ∷ p) j u f
          → Deleted (suc k) o p i s f
      lifted j u missing e at h = tt
      lifted j u unknown e at h = h
      lifted j u (found d) e at h = up-Left k p i s j u _ e c at h

      go :
          (t : Trie)
          → s o ≡ t
          → HangsAt o t
          → Counted t
          → ((p : List Frame) (i : Info) (s : ℕ → Trie)
              → Counted (node i s)
              → Deleted k o p i s (walk k (some o) p i s))
          → Deleted (suc k) o p i s (elim t [
            | null ↦ missing
            | node j u ↦ walk k (some o) (record { info = i; slots = s; offset = o } ∷ p) j u
          ])
      go null e at v ih = tt
      go (node j u) e at v ih =
          lifted j u _ e at (ih (record { info = i; slots = s; offset = o } ∷ p) j u v)
