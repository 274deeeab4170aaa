-- ===== src/Xml/Fills.antt =====
-- The array of the nodes that a search has found, and the room that is left in it.
use my_resource.Base.{
  ℕ, zero, suc, ◌-◌, ◌≡◌, refl, sym, ap, ◌∙◌, Bool, true, false, List, [], ◌∷◌, ◌++◌, append_assoc,
  length, length-append, take, arith, ◌==◌, if◌then◌else◌,
}
use my_resource.Xml.{Node, Search, enter_node}

-- The array takes as many of the nodes `ms` as there is room for.
pub record Fills (ms found : List Node) (room : ℕ) (s : Search) : Type 0 where
  pub entered : s.found ≡ found ++ take room ms
  pub left : s.room ≡ room - length ms

take_none : (n : ℕ) → take {A = Node} n [] ≡ []
take_none zero = refl
take_none (suc n) = refl

append_none : (xs : List Node) → xs ++ [] ≡ xs
append_none [] = refl
append_none (x ∷ xs) = ap (λ l. x ∷ l) (append_none xs)

take-split : (n : ℕ) (xs ys : List Node) → take n (xs ++ ys) ≡ take n xs ++ take (n - length xs) ys
take-split zero [] ys = refl
take-split (suc n) [] ys =
    let left : suc n ≡ suc n - length {A = Node} [] = omega arith in ap (λ k. take k ys) left
take-split zero (x ∷ xs) ys =
    let full : 0 ≡ 0 - length (x ∷ xs) = omega arith in ap (λ k. take k ys) full
take-split (suc n) (x ∷ xs) ys =
    let left : n - length xs ≡ suc n - length (x ∷ xs) = omega arith in
    ap (λ l. x ∷ l) (take-split n xs ys ∙ ap (λ k. take n xs ++ take k ys) left)

-- One search after another.
pub Fills-append :
    (ms ns found : List Node) (room : ℕ) (s t : Search)
    → Fills ms found room s
    → Fills ns s.found s.room t
    → Fills (ms ++ ns) found room t
Fills-append ms ns found room s t h k =
    let places : take s.room ns ≡ take (room - length ms) ns = ap (λ n. take n ns) h.left in
    record {
      entered =
          k.entered
          ∙ ap (λ l. l ++ take s.room ns) h.entered
          ∙ append_assoc found (take room ms) (take s.room ns)
          ∙ ap (λ l. found ++ (take room ms ++ l)) places
          ∙ ap (λ l. found ++ l) (sym (take-split room ms ns));
      left = omega (arith, h.left, k.left, length-append ms ns);
    }

pub Fills-null :
    (found : List Node) (room : ℕ)
    → Fills [] found room (record { failed = false; found = found; room = room })
Fills-null found room = record {
  entered = sym (ap (λ l. found ++ l) (take_none room) ∙ append_none found);
  left = omega arith;
}

-- An array without room stays as it is.
pub Fills-full : (ms : List Node) (s : Search) → s.room ≡ 0 → Fills ms s.found s.room s
Fills-full ms s e = record {
  entered = sym (ap (λ n. s.found ++ take n ms) e ∙ append_none s.found);
  left = omega (arith, e);
}

-- A node that is entered, and a search for the others.
pub Fills-enter_node :
    (x : Node) (ms found : List Node) (room : ℕ) (s : Search)
    → Fills ms (enter_node x found) room s
    → Fills (x ∷ ms) found (suc room) s
Fills-enter_node x ms found room s h = record {
  entered = h.entered ∙ append_assoc found (x ∷ []) (take room ms);
  left = omega (arith, h.left);
}

-- Whether -1 is returned does not matter to the array.
Fills-again :
    (failed : Bool) (ms found : List Node) (room : ℕ) (s : Search)
    → Fills ms found room s
    → Fills ms found room (record { failed = failed; found = s.found; room = s.room })
Fills-again failed ms found room s h = record { entered = h.entered; left = h.left }

-- One node of a search for an attribute, before the search below it and behind it.
abbrev pub found_at : Bool → Node → List Node → List Node
found_at hit x found = if hit then enter_node x found else found

abbrev pub room_at : Bool → ℕ → ℕ
room_at hit room = if hit then room else suc room

pub has_room : (n : ℕ) → (suc n == 0) ≡ false
has_room n = ground arith

pub step-Fills :
    (hit : Bool) (x : Node) (ms ns found : List Node) (room : ℕ) (s t : Search)
    → Fills ms (found_at hit x found) (room_at hit room) s
    → Fills ns s.found s.room t
    → Fills ((if hit then x ∷ [] else []) ++ ms ++ ns) found (suc room) (
        if room_at hit room == 0
        then record { failed = true; found = found_at hit x found; room = 0 }
        else record { failed = false; found = t.found; room = t.room })
step-Fills true x ms ns found zero s t h k =
    Fills-enter_node x (ms ++ ns) found 0 _
      (Fills-full (ms ++ ns) (record { failed = true; found = enter_node x found; room = 0 }) refl)
step-Fills true x ms ns found (suc room) s t h k = rw (has_room room) (
    Fills-enter_node x (ms ++ ns) found (suc room) _ (
      Fills-again false (ms ++ ns) (enter_node x found) (suc room) t
        (Fills-append ms ns (enter_node x found) (suc room) s t h k)))
step-Fills false x ms ns found room s t h k =
    rw (has_room room) (
      Fills-again false (ms ++ ns) found (suc room) t (Fills-append ms ns found (suc room) s t h k))
