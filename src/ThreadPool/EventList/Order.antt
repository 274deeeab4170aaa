-- ===== src/ThreadPool/EventList/Order.antt =====
-- The list is in the order of the priorities, and tasks of one priority in the order of arrival.
use my_resource.Base.{
  ℕ, ◌+◌, ◌≤◌, ◌<◌, ◌≡◌, refl, ap, true, false, Option, none, some, List, [], ◌∷◌, ◌++◌, arith, leb,
  if◌then◌else◌, length, Bool-cases, inl, inr,
}
use mathlib.Core.List.{Perm, perm_middle}
use mathlib.Core.List.Perm
use my_resource.Base.Fault.{ok}
use my_resource.ThreadPool.EventList.{Task, insert_after, add}

-- Tasks that run before a new task of this priority, and those that run after it.
unfoldable pub ahead : ℕ → List Task → List Task
ahead k [] = []
ahead k (x ∷ xs) = if leb x.priority k then x ∷ ahead k xs else ahead k xs

unfoldable pub behind : ℕ → List Task → List Task
behind k [] = []
behind k (x ∷ xs) = if leb x.priority k then behind k xs else x ∷ behind k xs

abbrev pub AtLeast : ℕ → List Task → Type 0
AtLeast k [] = Unit
AtLeast k (x ∷ xs) = (k ≤ x.priority) × AtLeast k xs

abbrev pub IsQueue : List Task → Type 0
IsQueue [] = Unit
IsQueue (x ∷ xs) = AtLeast x.priority xs × IsQueue xs

AtLeast-mono : (j k : ℕ) (xs : List Task) → j ≤ k → AtLeast k xs → AtLeast j xs
AtLeast-mono j k [] h a = tt
AtLeast-mono j k (x ∷ xs) h a = (omega arith, AtLeast-mono j k xs h a.1)

ahead_none : (k : ℕ) (xs : List Task) (j : ℕ) → k < j → AtLeast j xs → ahead k xs ≡ []
unfolding ahead
ahead_none k [] j h a = refl
ahead_none k (x ∷ xs) j h a = ground (arith, ahead_none k xs j h a.1)

behind_all : (k : ℕ) (xs : List Task) (j : ℕ) → k < j → AtLeast j xs → behind k xs ≡ xs
unfolding behind
behind_all k [] j h a = refl
behind_all k (x ∷ xs) j h a = ground (arith, behind_all k xs j h a.1)

-- What the scan returns in a list that is in order.
abbrev Scanned : List Task → Task → Option (List Task) → Type 0
Scanned xs t none = (ahead t.priority xs ≡ []) × (behind t.priority xs ≡ xs)
Scanned xs t (some ys) =
    (ys ≡ ahead t.priority xs ++ t ∷ behind t.priority xs)
    × ((j : ℕ) → AtLeast j xs → j ≤ t.priority)

scan_step :
    (x : Task) (xs : List Task) (t : Task) (o : Option (List Task))
    → AtLeast x.priority xs
    → Scanned xs t o
    → Scanned (x ∷ xs) t (elim o [
      | some rest ↦ some (x ∷ rest)
      | none ↦ if leb x.priority t.priority then some (x ∷ t ∷ xs) else none
    ])
unfolding ahead behind
scan_step x xs t (some ys) a (e, low) =
    let first = low x.priority a in (ground arith, λ j b. low j b.1)
scan_step x xs t none a (e, f) = elim (Bool-cases (leb x.priority t.priority)) [
  | inl h ↦ rw (h, h) (rw (e, f) refl, λ j b. ground arith)
  | inr h ↦ rw (h, h) (e, ap (λ l. x ∷ l) f)
]

insert_after-Scanned : (xs : List Task) (t : Task) → IsQueue xs → Scanned xs t (insert_after xs t)
unfolding insert_after
insert_after-Scanned [] t q = unfold ahead behind in (refl, refl)
insert_after-Scanned (x ∷ xs) t q =
    scan_step x xs t (insert_after xs t) q.0 (insert_after-Scanned xs t q.1)

finish :
    (x : Task) (xs : List Task) (t : Task) (o : Option (List Task))
    → Scanned (x ∷ xs) t o
    → elim o [ some rest ↦ rest | none ↦ t ∷ x ∷ xs ]
      ≡ ahead t.priority (x ∷ xs) ++ t ∷ behind t.priority (x ∷ xs)
finish x xs t none (e, f) = rw (e, f) refl
finish x xs t (some ys) (e, low) = e

-- What the list is after `EventListADD`.
abbrev pub inserted : List Task → Task → List Task
inserted xs t = ahead t.priority xs ++ t ∷ behind t.priority xs

pub add-inserted : (xs : List Task) (t : Task) → IsQueue xs → add true xs t ≡ ok (inserted xs t)
unfolding add
add-inserted [] t q = unfold ahead behind in refl
add-inserted (x ∷ xs) t q =
    ap ok (finish x xs t (insert_after (x ∷ xs) t) (insert_after-Scanned (x ∷ xs) t q))

-- In a list in order, a task that comes after the new one has all the others behind it.
cut :
    (x : Task) (xs : List Task) (t : Task)
    → AtLeast x.priority xs
    → leb x.priority t.priority ≡ false
    → ahead t.priority (x ∷ xs) ++ t ∷ behind t.priority (x ∷ xs) ≡ t ∷ x ∷ xs
unfolding ahead behind
cut x xs t a h =
    let less : t.priority < x.priority = ground arith in
    rw h (
      rw (ahead_none t.priority xs x.priority less a, behind_all t.priority xs x.priority less a)
        refl)

keep :
    (x : Task) (xs : List Task) (t : Task)
    → leb x.priority t.priority ≡ true
    → ahead t.priority (x ∷ xs) ++ t ∷ behind t.priority (x ∷ xs)
      ≡ x ∷ (ahead t.priority xs ++ t ∷ behind t.priority xs)
unfolding ahead behind
keep x xs t h = rw h refl

AtLeast-ahead :
    (j : ℕ) (t : Task) (xs : List Task)
    → IsQueue xs
    → j ≤ t.priority
    → AtLeast j xs
    → AtLeast j (ahead t.priority xs ++ t ∷ behind t.priority xs)
AtLeast-ahead j t [] q h a = unfold ahead behind in (h, tt)
AtLeast-ahead j t (x ∷ xs) q h a = elim (Bool-cases (leb x.priority t.priority)) [
  | inl u ↦ rw (keep x xs t u) (a.0, AtLeast-ahead j t xs q.1 h a.1)
  | inr u ↦ rw (cut x xs t q.0 u) (h, a)
]

-- The list that `EventListADD` leaves is in order again.
pub inserted-IsQueue :
    (xs : List Task) (t : Task)
    → IsQueue xs
    → IsQueue (ahead t.priority xs ++ t ∷ behind t.priority xs)
inserted-IsQueue [] t q = unfold ahead behind in (tt, tt)
inserted-IsQueue (x ∷ xs) t q = elim (Bool-cases (leb x.priority t.priority)) [
  | inl u ↦
      rw (keep x xs t u)
        (AtLeast-ahead x.priority t xs q.1 (ground arith) q.0, inserted-IsQueue xs t q.1)
  | inr u ↦
      rw (cut x xs t q.0 u)
        ((ground arith, AtLeast-mono t.priority x.priority xs (ground arith) q.0), q)
]

partition-perm : (k : ℕ) (xs : List Task) → Perm (ahead k xs ++ behind k xs) xs
unfolding ahead behind
partition-perm k [] = Perm.refl []
partition-perm k (x ∷ xs) = elim (Bool-cases (leb x.priority k)) [
  | inl u ↦ rw u (Perm.cons x (partition-perm k xs))
  | inr u ↦
      rw u (Perm.trans (perm_middle (ahead k xs) (behind k xs)) (Perm.cons x (partition-perm k xs)))
]

-- Nothing is lost and nothing else gets in.
inserted-perm :
    (xs : List Task) (t : Task) → Perm (ahead t.priority xs ++ t ∷ behind t.priority xs) (t ∷ xs)
inserted-perm xs t =
    Perm.trans (perm_middle (ahead t.priority xs) (behind t.priority xs))
      (Perm.cons t (partition-perm t.priority xs))

pub length-ahead-behind :
    (k : ℕ) (xs : List Task) → length (ahead k xs) + length (behind k xs) ≡ length xs
unfolding ahead behind
length-ahead-behind k [] = omega arith
length-ahead-behind k (x ∷ xs) = ground (arith, length-ahead-behind k xs)

-- When memory is given and the list is in the order of the priorities, `EventListADD` puts the task
-- behind all tasks of its priority and of lower ones and before all others; the list is in order
-- again, tasks of equal priority stay in the order of arrival, and no other task comes or goes.
pub add-order :
    (xs : List Task) (t : Task)
    → IsQueue xs
    → (add true xs t ≡ ok (ahead t.priority xs ++ t ∷ behind t.priority xs))
      × IsQueue (ahead t.priority xs ++ t ∷ behind t.priority xs)
      × Perm (ahead t.priority xs ++ t ∷ behind t.priority xs) (t ∷ xs)
add-order xs t q = (add-inserted xs t q, inserted-IsQueue xs t q, inserted-perm xs t)
