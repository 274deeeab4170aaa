-- ===== src/Ds/Rbtree/Levels.antt =====
-- What LevelOrder prints.
use my_resource.Base.{
  ℕ, zero, suc, ◌+◌, ◌*◌, ◌/◌, ◌%◌, ◌^◌, ◌≤◌, ◌<◌, ◌≡◌, ◌≢◌, refl, List, [], ◌∷◌, ◌++◌, ltb, length,
  arith, append_assoc, false,
}
use mathlib.Core.Path.{subst}
use native.Mathlib.Nat.{pow-suc}
use mathlib.Core.List.{Perm, perm_middle, perm_append_comm, append-nil}
use mathlib.Core.List.Perm
use my_resource.Base.Fault.{Run, ok, Gives, Gives-mono, Gives->>=, Gives-if_false}
use my_resource.Ds.Entry.{DataNode}
use my_resource.Ds.Rbtree.{Tree, leaf, node}
use my_resource.Ds.Rbtree.Entries.{to_list}
use my_resource.Ds.Rbtree.Walks.{kid, children, heads, slots, go_on, level_order}

-- The tree has at most so many levels.
abbrev pub Below : ℕ → Tree → Type 0
Below h leaf = Unit
Below zero (node c l d r) = ⊥
Below (suc h) (node c l d r) = Below h l × Below h r

abbrev AllBelow : ℕ → List Tree → Type 0
AllBelow h [] = Unit
AllBelow h (t ∷ ts) = Below h t × AllBelow h ts

-- There are nodes on a level, and no leaf.
abbrev AllNodes : List Tree → Type 0
AllNodes [] = Unit
AllNodes (leaf ∷ ts) = ⊥
AllNodes (node c l d r ∷ ts) = AllNodes ts

kid-AllNodes : (t : Tree) (ts : List Tree) → AllNodes ts → AllNodes (kid t ts)
kid-AllNodes leaf ts a = a
kid-AllNodes (node c l d r) ts a = a

children-AllNodes : (ts : List Tree) → AllNodes (children ts)
unfolding children
children-AllNodes [] = tt
children-AllNodes (leaf ∷ ts) = children-AllNodes ts
children-AllNodes (node c l d r ∷ ts) =
    kid-AllNodes l (kid r (children ts)) (kid-AllNodes r (children ts) (children-AllNodes ts))

-- What is printed of a level.
top_of : List Tree → List DataNode
top_of [] = []
top_of (leaf ∷ ts) = top_of ts
top_of (node c l d r ∷ ts) = d ∷ top_of ts

heads_lem : (ts : List Tree) → AllNodes ts → heads ts ≡ ok (top_of ts)
unfolding heads top_of
heads_lem [] a = refl
heads_lem (leaf ∷ ts) a = absurd a
heads_lem (node c l d r ∷ ts) a = rw (heads_lem ts a) refl

entries_of : List Tree → List DataNode
entries_of [] = []
entries_of (t ∷ ts) = to_list t ++ entries_of ts

kid-AllBelow :
    (h : ℕ) (t : Tree) (ts : List Tree) → Below h t → AllBelow h ts → AllBelow h (kid t ts)
kid-AllBelow h leaf ts b bs = bs
kid-AllBelow h (node c l d r) ts b bs = (b, bs)

children-AllBelow : (h : ℕ) (ts : List Tree) → AllBelow (suc h) ts → AllBelow h (children ts)
unfolding children
children-AllBelow h [] b = tt
children-AllBelow h (leaf ∷ ts) b = children-AllBelow h ts b.1
children-AllBelow h (node c l d r ∷ ts) b =
    kid-AllBelow h l (kid r (children ts)) b.0.0
      (kid-AllBelow h r (children ts) b.0.1 (children-AllBelow h ts b.1))

children_none : (ts : List Tree) → AllBelow zero ts → children ts ≡ []
unfolding children
children_none [] b = refl
children_none (leaf ∷ ts) b = children_none ts b.1
children_none (node c l d r ∷ ts) b = absurd b.0

length-kid : (t : Tree) (ts : List Tree) → length (kid t ts) ≤ suc (length ts)
length-kid leaf ts = omega arith
length-kid (node c l d r) ts = omega arith

length-children : (ts : List Tree) → length (children ts) ≤ 2 * length ts
unfolding children
length-children [] = omega arith
length-children (leaf ∷ ts) = omega (arith, length-children ts)
length-children (node c l d r ∷ ts) =
    omega
      (arith, length-children ts, length-kid l (kid r (children ts)), length-kid r (children ts))

pow_two-le : (i j : ℕ) → i ≤ j → 2 ^ i ≤ 2 ^ j
pow_two-le zero zero h = omega arith
pow_two-le (suc i) zero h = absurd (omega arith)
pow_two-le zero (suc j) h = omega (arith, pow-suc 2 j, pow_two-le zero j (omega arith))
pow_two-le (suc i) (suc j) h = omega (arith, pow-suc 2 i, pow-suc 2 j, pow_two-le i j (omega arith))

fits : (x : ℕ) → x ≤ 2 ^ 28 → 8 * (x + 1) % 2 ^ 32 / 8 ≡ x + 1
fits x h = omega arith

slots_lem : (level : ℕ) → level ≤ 28 → slots level ≡ 2 ^ level + 1
unfolding slots
slots_lem level h = fits (2 ^ level) (pow_two-le level 28 h)

kid-entries : (t : Tree) (ts : List Tree) → entries_of (kid t ts) ≡ to_list t ++ entries_of ts
unfolding to_list entries_of
kid-entries leaf ts = refl
kid-entries (node c l d r) ts = refl

-- Some nodes go in front of those between them.
regroup :
    (d : DataNode) (hs ls rs cs es : List DataNode)
    → Perm (hs ++ cs) es
    → Perm (d ∷ (hs ++ (ls ++ (rs ++ cs)))) (ls ++ (d ∷ (rs ++ es)))
regroup d hs ls rs cs es p =
    let front : Perm (hs ++ (ls ++ rs)) ((ls ++ rs) ++ hs) = perm_append_comm hs (ls ++ rs) in
    let moved : Perm (hs ++ (ls ++ (rs ++ cs))) (ls ++ (rs ++ (hs ++ cs))) =
      let q = Perm.append_right cs front in simp append_assoc at q in
    Perm.trans (Perm.cons d (Perm.trans moved (Perm.append_left ls (Perm.append_left rs p))))
      (Perm.symm (perm_middle ls (rs ++ es)))

-- The nodes of a level and of the levels below it.
level-perm : (ts : List Tree) → Perm (top_of ts ++ entries_of (children ts)) (entries_of ts)
unfolding top_of children entries_of to_list
level-perm [] = Perm.refl []
level-perm (leaf ∷ ts) = level-perm ts
level-perm (node c l d r ∷ ts) =
    let p =
      regroup d (top_of ts) (to_list l) (to_list r) (entries_of (children ts)) (entries_of ts)
        (level-perm ts) in
    simp (kid-entries l (kid r (children ts)), kid-entries r (children ts), append_assoc) p

go_on-perm :
    (rest : List Tree → Run (List DataNode)) (level : ℕ) (us : List Tree)
    → length us ≤ 2 ^ level
    → level ≤ 28
    → Gives (λ printed. Perm printed (entries_of us)) (rest us)
    → Gives (λ printed. Perm printed (entries_of us)) (go_on rest level us)
unfolding go_on entries_of
go_on-perm rest level [] few low h = Perm.refl []
go_on-perm rest level (u ∷ us) few low h =
    let room = slots_lem level low in
    let inside : ltb (slots level) (length (u ∷ us) + 1) ≡ false = ground arith in
    Gives-if_false _ _ _ inside h

levels-perm :
    (n level h : ℕ) (ts : List Tree)
    → AllNodes ts
    → AllBelow h ts
    → h < n
    → level + h ≤ 28
    → length ts ≤ 2 ^ level
    → Gives (λ printed. Perm printed (entries_of ts)) (level_order n level ts)
unfolding level_order go_on entries_of
levels-perm zero level h ts a b l low few = absurd (omega arith)
levels-perm (suc n) level zero ts a b l low few =
    let none = children_none ts b in
    let whole =
      subst (λ us. Perm (top_of ts ++ entries_of us) (entries_of ts)) none (level-perm ts) in
    rw (none, heads_lem ts a) whole
levels-perm (suc n) level (suc h) ts a b l low few =
    let wide : length (children ts) ≤ 2 ^ suc level =
      omega (arith, length-children ts, pow-suc 2 level) in
    rw (heads_lem ts a) (
      Gives->>= (λ printed. Perm printed (entries_of (children ts)))
        (λ printed. Perm printed (entries_of ts))
        (go_on (level_order n (suc level)) (suc level) (children ts))
        (λ printed. ok (top_of ts ++ printed))
        (go_on-perm (level_order n (suc level)) (suc level) (children ts) wide (omega arith) (
          levels-perm n (suc level) h (children ts) (children-AllNodes ts)
            (children-AllBelow h ts b) (omega arith) (omega arith) wide))
        (λ printed p. Perm.trans (Perm.append_left (top_of ts) p) (level-perm ts)))

-- LevelOrder of a tree of at least one node and at most 28 levels, when memory is given, ends, prints each node exactly once, and never writes or
-- reads behind the array of a level, whose size is computed in 32 bits.
pub level_order-perm :
    (t : Tree)
    → t ≢ leaf
    → Below 28 t
    → Gives (λ printed. Perm printed (to_list t)) (level_order 29 0 (t ∷ []))
unfolding entries_of
level_order-perm leaf some_node b = absurd (some_node refl)
level_order-perm (node c l d r) some_node b =
    let t = node c l d r in
    Gives-mono (λ printed. Perm printed (entries_of (t ∷ []))) (λ printed. Perm printed (to_list t))
      (level_order 29 0 (t ∷ []))
      (levels-perm 29 0 28 (t ∷ []) tt (b, tt) (omega arith) (omega arith) (omega arith))
      (λ printed p. subst (Perm printed) (append-nil (to_list t)) p)
