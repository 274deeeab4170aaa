-- ===== src/Public/RList/Back.antt =====
-- A ring seen from its last node, so that nodes can be put in at the end.
use my_resource.Base.{ℕ, ◌≡◌, refl, sym, ap, List, [], ◌∷◌, ◌++◌, append_assoc, ◌∙◌}
use mathlib.Core.List.{append-nil}
use mathlib.Core.Path.{subst}
use my_resource.Public.RList.{Store}
use my_resource.Public.RList.Chain.{Fresh, Distinct, Live, Chain, last, Apart}
use my_resource.Public.RList.Rings.{Ring, linked_in, Ring-linked_in, Ring-rotate}

-- All nodes but the last.
abbrev pub front : ℕ → List ℕ → List ℕ
front h [] = []
front h (x ∷ xs) = h ∷ front x xs

pub front-last : (h : ℕ) (xs : List ℕ) → front h xs ++ last h xs ∷ [] ≡ h ∷ xs
front-last h [] = refl
front-last h (x ∷ xs) = ap (λ l. h ∷ l) (front-last x xs)

pub Ring-last : (s : Store) (h : ℕ) (xs : List ℕ) → Ring s h xs → Ring s (last h xs) (front h xs)
Ring-last s h [] r = r
Ring-last s h (x ∷ xs) r = Ring-rotate s h (last x xs) (front x xs) [] (rw (front-last x xs) r)

Fresh-front : (c h : ℕ) (xs : List ℕ) → Fresh c (h ∷ xs) → Fresh c (last h xs ∷ front h xs)
Fresh-front c h [] f = f
Fresh-front c h (x ∷ xs) f = let rest = Fresh-front c x xs f.1 in (rest.0, (f.0, rest.1))

Apart-front : (h : ℕ) (xs ys : List ℕ) → Apart (h ∷ xs) ys → Apart (last h xs ∷ front h xs) ys
Apart-front h [] ys p = p
Apart-front h (x ∷ xs) ys p = let rest = Apart-front x xs ys p.1 in (rest.0, (p.0, rest.1))

-- From the last node back to the first.
pub Ring-turn :
    (s : Store) (h : ℕ) (ws ys : List ℕ)
    → Ring s (last h ys) (ws ++ front h ys)
    → Ring s h (ys ++ ws)
Ring-turn s h ws [] r = rw (sym (append-nil ws)) r
Ring-turn s h ws (y ∷ ys) r =
    let split : front y ys ++ last y ys ∷ ws ≡ (front y ys ++ last y ys ∷ []) ++ ws =
      simp append_assoc in
    let whole : front y ys ++ last y ys ∷ ws ≡ (y ∷ ys) ++ ws =
      split ∙ ap (λ l. l ++ ws) (front-last y ys) in
    rw (sym whole) (Ring-rotate s (last y ys) h ws (front y ys) r)

module _ (s : Store) (h x : ℕ) (xs ys : List ℕ) where
  pub Ring-linked_in_back :
      Ring s h ys
      → Live s.live (x ∷ xs)
      → Distinct (x ∷ xs)
      → Chain s.next s.prev x xs
      → Apart (h ∷ ys) (x ∷ xs)
      → Ring (linked_in x (last x xs) (s.prev h) h s) h (ys ++ x ∷ xs)
  Ring-linked_in_back r l d c apart =
      let t : ℕ → Store = λ b. linked_in x (last x xs) (last h ys) b s in
      let whole : Ring (t (s.next (last h ys))) (last h ys) (x ∷ xs ++ front h ys) =
        Ring-linked_in s (last h ys) x xs (front h ys) (Ring-last s h ys r) l d c
          (Apart-front h ys (x ∷ xs) apart) in
      rw (r.back) (
        Ring-turn (t h) h (x ∷ xs) ys
          (subst (λ b. Ring (t b) (last h ys) (x ∷ xs ++ front h ys)) r.closed whole))
