-- ===== src/Public/RList/Chain.antt =====
-- Chains of nodes, and what a write does to them.
use my_resource.Base.{ℕ, ◌≡◌, ◌≢◌, refl, sym, Bool, true, List, [], ◌∷◌, ◌++◌, arith}
use my_resource.Public.RList.{update}

abbrev pub Fresh : ℕ → List ℕ → Type 0
Fresh a [] = Unit
Fresh a (x ∷ xs) = (a ≢ x) × Fresh a xs

abbrev pub Distinct : List ℕ → Type 0
Distinct [] = Unit
Distinct (x ∷ xs) = Fresh x xs × Distinct xs

abbrev pub Live : (ℕ → Bool) → List ℕ → Type 0
Live live [] = Unit
Live live (x ∷ xs) = (live x ≡ true) × Live live xs

-- The links from `a` through the nodes, forth and back.
abbrev pub Chain : (ℕ → ℕ) → (ℕ → ℕ) → ℕ → List ℕ → Type 0
Chain next prev a [] = Unit
Chain next prev a (x ∷ xs) = (next a ≡ x) × (prev x ≡ a) × Chain next prev x xs

abbrev pub last : ℕ → List ℕ → ℕ
last a [] = a
last a (x ∷ xs) = last x xs

pub Fresh-last : (c a : ℕ) (xs : List ℕ) → c ≢ a → Fresh c xs → c ≢ last a xs
Fresh-last c a [] h f = h
Fresh-last c a (x ∷ xs) h f = Fresh-last c x xs f.0 f.1

pub update_other {ℓ} : {A : Type ℓ} (f : ℕ → A) (a b : ℕ) (v : A) → a ≢ b → update f a v b ≡ f b
update_other f a b v h = ground arith

pub update_same {ℓ} : {A : Type ℓ} (f : ℕ → A) (a : ℕ) (v : A) → update f a v a ≡ v
update_same f a v = ground arith

module _ (next prev : ℕ → ℕ) where
  pub Chain-update_next :
      (c v a : ℕ) (xs : List ℕ)
      → c ≢ a
      → Fresh c xs
      → Chain next prev a xs
      → Chain (update next c v) prev a xs
  Chain-update_next c v a [] h f ch = tt
  Chain-update_next c v a (x ∷ xs) h f ch =
      (ground arith, ch.1, Chain-update_next c v x xs f.0 f.1 ch.2)

  pub Chain-update_prev :
      (c v a : ℕ) (xs : List ℕ)
      → Fresh c xs
      → Chain next prev a xs
      → Chain next (update prev c v) a xs
  Chain-update_prev c v a [] f ch = tt
  Chain-update_prev c v a (x ∷ xs) f ch = (ch.0, ground arith, Chain-update_prev c v x xs f.1 ch.2)

  -- The next of the last node is no link of the chain.
  pub Chain-update-last :
      (v a : ℕ) (xs : List ℕ)
      → Distinct (a ∷ xs)
      → Chain next prev a xs
      → Chain (update next (last a xs) v) prev a xs
  Chain-update-last v a [] d ch = tt
  Chain-update-last v a (x ∷ xs) d ch =
      let other = Fresh-last a x xs d.0.0 d.0.1 in
      (ground arith, ch.1, Chain-update-last v x xs d.1 ch.2)

  pub Chain-append :
      (a b : ℕ) (xs ys : List ℕ)
      → Chain next prev a xs
      → next (last a xs) ≡ b
      → prev b ≡ last a xs
      → Chain next prev b ys
      → Chain next prev a (xs ++ b ∷ ys)
  Chain-append a b [] ys c e g d = (e, g, d)
  Chain-append a b (x ∷ xs) ys c e g d = (c.0, c.1, Chain-append x b xs ys c.2 e g d)

  pub Chain-split :
      (a b : ℕ) (xs ys : List ℕ)
      → Chain next prev a (xs ++ b ∷ ys)
      → Chain next prev a xs × (next (last a xs) ≡ b) × (prev b ≡ last a xs) × Chain next prev b ys
  Chain-split a b [] ys c = (tt, c.0, c.1, c.2)
  Chain-split a b (x ∷ xs) ys c =
      let rest = Chain-split x b xs ys c.2 in ((c.0, c.1, rest.0), rest.1, rest.2, rest.3)

pub last-append : (a b : ℕ) (xs ys : List ℕ) → last a (xs ++ b ∷ ys) ≡ last b ys
last-append a b [] ys = refl
last-append a b (x ∷ xs) ys = last-append x b xs ys

pub Fresh-append : (c : ℕ) (xs ys : List ℕ) → Fresh c xs → Fresh c ys → Fresh c (xs ++ ys)
Fresh-append c [] ys f g = g
Fresh-append c (x ∷ xs) ys f g = (f.0, Fresh-append c xs ys f.1 g)

pub Fresh-split : (c : ℕ) (xs ys : List ℕ) → Fresh c (xs ++ ys) → Fresh c xs × Fresh c ys
Fresh-split c [] ys f = (tt, f)
Fresh-split c (x ∷ xs) ys f = let rest = Fresh-split c xs ys f.1 in ((f.0, rest.0), rest.1)

pub Live-append :
    (live : ℕ → Bool) (xs ys : List ℕ) → Live live xs → Live live ys → Live live (xs ++ ys)
Live-append live [] ys f g = g
Live-append live (x ∷ xs) ys f g = (f.0, Live-append live xs ys f.1 g)

pub Live-split :
    (live : ℕ → Bool) (xs ys : List ℕ) → Live live (xs ++ ys) → Live live xs × Live live ys
Live-split live [] ys f = (tt, f)
Live-split live (x ∷ xs) ys f = let rest = Live-split live xs ys f.1 in ((f.0, rest.0), rest.1)

pub Live-last :
    (live : ℕ → Bool) (a : ℕ) (xs : List ℕ) → Live live (a ∷ xs) → live (last a xs) ≡ true
Live-last live a [] h = h.0
Live-last live a (x ∷ xs) h = Live-last live x xs h.1

pub Live-update-true :
    (live : ℕ → Bool) (c : ℕ) (xs : List ℕ) → Live live xs → Live (update live c true) xs
Live-update-true live c [] h = tt
Live-update-true live c (x ∷ xs) h = (ground arith, Live-update-true live c xs h.1)

pub Live-update :
    (live : ℕ → Bool) (c : ℕ) (v : Bool) (xs : List ℕ)
    → Fresh c xs
    → Live live xs
    → Live (update live c v) xs
Live-update live c v [] f h = tt
Live-update live c v (x ∷ xs) f h = (ground arith, Live-update live c v xs f.1 h.1)

pub Distinct-split :
    (b : ℕ) (xs ys : List ℕ) → Distinct (xs ++ b ∷ ys) → Distinct xs × Distinct (b ∷ ys)
Distinct-split b [] ys d = (tt, d)
Distinct-split b (x ∷ xs) ys d =
    let rest = Distinct-split b xs ys d.1 in
    let f = Fresh-split x xs (b ∷ ys) d.0 in ((f.0, rest.0), rest.1)

-- Every node of the first list is other than those of the second.
abbrev pub Apart : List ℕ → List ℕ → Type 0
Apart [] ys = Unit
Apart (x ∷ xs) ys = Fresh x ys × Apart xs ys

pub Distinct-Apart : (xs ys : List ℕ) → Distinct (xs ++ ys) → Apart xs ys
Distinct-Apart [] ys d = tt
Distinct-Apart (x ∷ xs) ys d = let f = Fresh-split x xs ys d.0 in (f.1, Distinct-Apart xs ys d.1)

pub Distinct-append :
    (xs ys : List ℕ) → Distinct xs → Distinct ys → Apart xs ys → Distinct (xs ++ ys)
Distinct-append [] ys d e p = e
Distinct-append (x ∷ xs) ys d e p = (Fresh-append x xs ys d.0 p.0, Distinct-append xs ys d.1 e p.1)

pub Apart-cons : (b : ℕ) (xs ys : List ℕ) → Apart xs (b ∷ ys) → Fresh b xs × Apart xs ys
Apart-cons b [] ys p = (tt, tt)
Apart-cons b (x ∷ xs) ys p =
    let rest = Apart-cons b xs ys p.1 in (((λ e. p.0.0 (sym e)), rest.0), (p.0.1, rest.1))

pub Apart-nil : (xs : List ℕ) → Apart xs []
Apart-nil [] = tt
Apart-nil (x ∷ xs) = (tt, Apart-nil xs)

pub Apart-add : (x : ℕ) (xs ys : List ℕ) → Fresh x ys → Apart ys xs → Apart ys (x ∷ xs)
Apart-add x xs [] f p = tt
Apart-add x xs (y ∷ ys) f p = (((λ e. f.0 (sym e)), p.0), Apart-add x xs ys f.1 p.1)

pub Apart-sym : (xs ys : List ℕ) → Apart xs ys → Apart ys xs
Apart-sym [] ys p = Apart-nil ys
Apart-sym (x ∷ xs) ys p = Apart-add x xs ys p.0 (Apart-sym xs ys p.1)

pub Apart-last : (a : ℕ) (xs ys : List ℕ) → Apart (a ∷ xs) ys → Fresh (last a xs) ys
Apart-last a [] ys p = p.0
Apart-last a (x ∷ xs) ys p = Apart-last x xs ys p.1
