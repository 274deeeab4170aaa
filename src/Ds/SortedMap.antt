-- ===== src/Ds/SortedMap.antt =====
-- What the search trees promise: a finite map, as the list of its entries in the order of the keys.
use my_resource.Base.{
  ℕ, ◌<◌, compare, Ordering, ◌≡◌, refl, Option, none, some, List, [], ◌∷◌, ◌++◌, arith, ◌==◌,
  if◌then◌else◌,
}
use my_resource.Ds.Entry.{DataNode, Status, success, error}

-- What a deletion returns, and what an insertion does: 0 if the key was there, or if it was not.
abbrev pub found : Option DataNode → Status
found none = error
found (some _) = success

abbrev pub missing : Option DataNode → Status
missing none = success
missing (some _) = error

abbrev pub Below : ℕ → List DataNode → Type 0
Below k [] = Unit
Below k (x ∷ xs) = (x.key < k) × Below k xs

abbrev pub Above : ℕ → List DataNode → Type 0
Above k [] = Unit
Above k (x ∷ xs) = (k < x.key) × Above k xs

abbrev pub IsSorted : List DataNode → Type 0
IsSorted [] = Unit
IsSorted (x ∷ xs) = Above x.key xs × IsSorted xs

unfoldable pub find : ℕ → List DataNode → Option DataNode
find k [] = none
find k (x ∷ xs) = if x.key == k then some x else find k xs

-- An entry whose key is present is dropped.
unfoldable pub insert : DataNode → List DataNode → List DataNode
insert d [] = d ∷ []
insert d (x ∷ xs) = elim (compare d.key x.key) [
  | Ordering.lt ↦ d ∷ x ∷ xs
  | Ordering.eq ↦ x ∷ xs
  | Ordering.gt ↦ x ∷ insert d xs
]

unfoldable pub erase : ℕ → List DataNode → List DataNode
erase k [] = []
erase k (x ∷ xs) = if x.key == k then xs else x ∷ erase k xs

pub Above-mono : (j k : ℕ) (xs : List DataNode) → j < k → Above k xs → Above j xs
Above-mono j k [] h a = tt
Above-mono j k (x ∷ xs) h a = (omega arith, Above-mono j k xs h a.1)

Above-append : (k : ℕ) (xs ys : List DataNode) → Above k xs → Above k ys → Above k (xs ++ ys)
Above-append k [] ys a b = b
Above-append k (x ∷ xs) ys a b = (a.0, Above-append k xs ys a.1 b)

pub Above-front : (k : ℕ) (xs ys : List DataNode) → Above k (xs ++ ys) → Above k xs
Above-front k [] ys a = tt
Above-front k (x ∷ xs) ys a = (a.0, Above-front k xs ys a.1)

pub Above-back : (k : ℕ) (xs ys : List DataNode) → Above k (xs ++ ys) → Above k ys
Above-back k [] ys a = a
Above-back k (x ∷ xs) ys a = Above-back k xs ys a.1

pub Below-back : (k : ℕ) (xs ys : List DataNode) → Below k (xs ++ ys) → Below k ys
Below-back k [] ys b = b
Below-back k (x ∷ xs) ys b = Below-back k xs ys b.1

pub Below-front : (k : ℕ) (xs ys : List DataNode) → Below k (xs ++ ys) → Below k xs
Below-front k [] ys b = tt
Below-front k (x ∷ xs) ys b = (b.0, Below-front k xs ys b.1)

pub IsSorted-back : (xs ys : List DataNode) → IsSorted (xs ++ ys) → IsSorted ys
IsSorted-back [] ys s = s
IsSorted-back (x ∷ xs) ys s = IsSorted-back xs ys s.1

pub IsSorted-front : (xs ys : List DataNode) → IsSorted (xs ++ ys) → IsSorted xs
IsSorted-front [] ys s = tt
IsSorted-front (x ∷ xs) ys s = (Above-front x.key xs ys s.0, IsSorted-front xs ys s.1)

-- A list that is sorted, cut at one of its entries.
pub record IsSplit (xs : List DataNode) (d : DataNode) (ys : List DataNode) : Type 0 where
  pub front : IsSorted xs
  pub below : Below d.key xs
  pub above : Above d.key ys
  pub back : IsSorted ys

pub split :
    (xs : List DataNode) (d : DataNode) (ys : List DataNode)
    → IsSorted (xs ++ d ∷ ys)
    → IsSplit xs d ys
split [] d ys s = record { front = tt; below = tt; above = s.0; back = s.1 }
split (x ∷ xs) d ys s =
    let rest = split xs d ys s.1 in
    record {
      front = (Above-front x.key xs (d ∷ ys) s.0, rest.front);
      below = ((Above-back x.key xs (d ∷ ys) s.0).0, rest.below);
      above = rest.above;
      back = rest.back;
    }

pub join :
    (xs : List DataNode) (d : DataNode) (ys : List DataNode)
    → IsSplit xs d ys
    → IsSorted (xs ++ d ∷ ys)
join [] d ys s = (s.above, s.back)
join (x ∷ xs) d ys s = (
  Above-append x.key xs (d ∷ ys) s.front.0 (s.below.0, Above-mono _ _ ys s.below.0 s.above),
  join xs d ys (record { front = s.front.1; below = s.below.1; above = s.above; back = s.back }),
)

pub find-Above : (k : ℕ) (xs : List DataNode) → Above k xs → find k xs ≡ none
unfolding find
find-Above k [] a = refl
find-Above k (x ∷ xs) a = ground (arith, find-Above k xs a.1)

pub find-Below : (k : ℕ) (xs ys : List DataNode) → Below k xs → find k (xs ++ ys) ≡ find k ys
unfolding find
find-Below k [] ys b = refl
find-Below k (x ∷ xs) ys b = ground (arith, find-Below k xs ys b.1)

-- How `find`, `insert` and `erase` act on a split list.
pub find_left :
    (k : ℕ) (xs : List DataNode) (d : DataNode) (ys : List DataNode)
    → k < d.key
    → Above d.key ys
    → find k (xs ++ d ∷ ys) ≡ find k xs
unfolding find
find_left k [] d ys h a = ground (arith, find-Above k ys (Above-mono _ _ ys h a))
find_left k (x ∷ xs) d ys h a = ground (arith, find_left k xs d ys h a)

pub find_at :
    (xs : List DataNode) (d : DataNode) (ys : List DataNode)
    → Below d.key xs
    → find d.key (xs ++ d ∷ ys) ≡ some d
unfolding find
find_at [] d ys b = ground arith
find_at (x ∷ xs) d ys b = ground (arith, find_at xs d ys b.1)

pub find_right :
    (k : ℕ) (xs : List DataNode) (d : DataNode) (ys : List DataNode)
    → Below d.key xs
    → d.key < k
    → find k (xs ++ d ∷ ys) ≡ find k ys
unfolding find
find_right k [] d ys b h = ground arith
find_right k (x ∷ xs) d ys b h = ground (arith, find_right k xs d ys b.1 h)

pub insert_left :
    (n : DataNode) (xs : List DataNode) (d : DataNode) (ys : List DataNode)
    → n.key < d.key
    → insert n (xs ++ d ∷ ys) ≡ insert n xs ++ d ∷ ys
unfolding insert
insert_left n [] d ys h = ground arith
insert_left n (x ∷ xs) d ys h = ground (arith, insert_left n xs d ys h)

pub insert_right :
    (n : DataNode) (xs : List DataNode) (d : DataNode) (ys : List DataNode)
    → Below d.key xs
    → d.key < n.key
    → insert n (xs ++ d ∷ ys) ≡ xs ++ d ∷ insert n ys
unfolding insert
insert_right n [] d ys b h = ground arith
insert_right n (x ∷ xs) d ys b h = ground (arith, insert_right n xs d ys b.1 h)

pub erase_at :
    (xs : List DataNode) (d : DataNode) (ys : List DataNode)
    → Below d.key xs
    → erase d.key (xs ++ d ∷ ys) ≡ xs ++ ys
unfolding erase
erase_at [] d ys b = ground arith
erase_at (x ∷ xs) d ys b = ground (arith, erase_at xs d ys b.1)

-- The laws of the map.
Above-insert :
    (k : ℕ) (n : DataNode) (xs : List DataNode) → k < n.key → Above k xs → Above k (insert n xs)
unfolding insert
Above-insert k n [] h a = (h, tt)
Above-insert k n (x ∷ xs) h a = ground (arith, Above-insert k n xs h a.1)

pub insert-IsSorted : (n : DataNode) (xs : List DataNode) → IsSorted xs → IsSorted (insert n xs)
unfolding insert
insert-IsSorted n [] s = (tt, tt)
insert-IsSorted n (x ∷ xs) s =
    ground (arith, insert-IsSorted n xs s.1, Above-insert x.key n xs, Above-mono n.key x.key xs)

Above-erase : (j k : ℕ) (xs : List DataNode) → Above j xs → Above j (erase k xs)
unfolding erase
Above-erase j k [] a = tt
Above-erase j k (x ∷ xs) a = ground (arith, Above-erase j k xs a.1)

pub erase-IsSorted : (k : ℕ) (xs : List DataNode) → IsSorted xs → IsSorted (erase k xs)
unfolding erase
erase-IsSorted k [] s = tt
erase-IsSorted k (x ∷ xs) s = ground (arith, erase-IsSorted k xs s.1, Above-erase x.key k xs s.0)

pub find-insert :
    (j : ℕ) (n : DataNode) (xs : List DataNode)
    → IsSorted xs
    → find n.key xs ≡ none
    → find j (insert n xs) ≡ (if n.key == j then some n else find j xs)
unfolding find insert
find-insert j n [] s h = refl
find-insert j n (x ∷ xs) s h = ground (arith, find-insert j n xs s.1)

pub find-erase :
    (j k : ℕ) (xs : List DataNode)
    → IsSorted xs
    → find j (erase k xs) ≡ (if k == j then none else find j xs)
unfolding find erase
find-erase j k [] s = ground arith
find-erase j k (x ∷ xs) s = ground (arith, find-erase j k xs s.1, find-Above x.key xs s.0)

pub erase_absent : (k : ℕ) (xs : List DataNode) → find k xs ≡ none → erase k xs ≡ xs
unfolding find erase
erase_absent k [] h = refl
erase_absent k (x ∷ xs) h = ground (arith, erase_absent k xs)

pub insert_present :
    (n : DataNode) (xs : List DataNode) (d : DataNode)
    → IsSorted xs
    → find n.key xs ≡ some d
    → insert n xs ≡ xs
unfolding find insert
insert_present n [] d s h = cc
insert_present n (x ∷ xs) d s h =
    ground (arith, insert_present n xs d s.1, find-Above n.key xs, Above-mono n.key x.key xs)

pub find-key : (k : ℕ) (xs : List DataNode) (d : DataNode) → find k xs ≡ some d → d.key ≡ k
unfolding find
find-key k [] d h = cc
find-key k (x ∷ xs) d h = ground (arith, find-key k xs d)
