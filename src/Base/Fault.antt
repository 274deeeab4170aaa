-- ===== src/Base/Fault.antt =====
-- A run of code that may dereference a pointer that it must not, or, in the model of a loop, may
-- use up its fuel.
use my_resource.Base.Tests.{if◌then◌else◌}
use mathlib.Core.Bool.{Bool, true, false}
use mathlib.Core.Path.{◌≡◌}

pub data Run {ℓ} (A : Type ℓ) : Type ℓ where
  ok : A → Run A
  fault : Run A
  out_of_fuel : Run A

infixl 5 ◌>>=◌
abbrev pub ◌>>=◌ {ℓ κ} : {A : Type ℓ} {B : Type κ} → Run A → (A → Run B) → Run B
ok a >>= f = f a
fault >>= f = fault
out_of_fuel >>= f = out_of_fuel

-- The run ends within its fuel, and what it returns, if it does not fault, satisfies `P`.
abbrev pub Holds {ℓ} : {A : Type ℓ} → (A → Type 0) → Run A → Type 0
Holds P (ok a) = P a
Holds P fault = Unit
Holds P out_of_fuel = ⊥

pub Holds->>= {ℓ κ} :
    {A : Type ℓ} {B : Type κ} (P : A → Type 0) (Q : B → Type 0) (m : Run A) (f : A → Run B)
    → Holds P m
    → ((a : A) → P a → Holds Q (f a))
    → Holds Q (m >>= f)
Holds->>= P Q (ok a) f h next = next a h
Holds->>= P Q fault f h next = tt
Holds->>= P Q out_of_fuel f h next = absurd h

pub Holds-mono {ℓ} :
    {A : Type ℓ} (P Q : A → Type 0) (m : Run A) → Holds P m → ((a : A) → P a → Q a) → Holds Q m
Holds-mono P Q (ok a) h weaken = weaken a h
Holds-mono P Q fault h weaken = tt
Holds-mono P Q out_of_fuel h weaken = h

pub Holds-if {ℓ} :
    {A : Type ℓ} (P : A → Type 0) (test : Bool) (m n : Run A)
    → Holds P m
    → Holds P n
    → Holds P (if test then m else n)
Holds-if P true m n h k = h
Holds-if P false m n h k = k

-- The run returns, and what it returns satisfies `P`.
abbrev pub Gives {ℓ} : {A : Type ℓ} → (A → Type 0) → Run A → Type 0
Gives P (ok a) = P a
Gives P fault = ⊥
Gives P out_of_fuel = ⊥

pub Gives->>= {ℓ κ} :
    {A : Type ℓ} {B : Type κ} (P : A → Type 0) (Q : B → Type 0) (m : Run A) (f : A → Run B)
    → Gives P m
    → ((a : A) → P a → Gives Q (f a))
    → Gives Q (m >>= f)
Gives->>= P Q (ok a) f h next = next a h
Gives->>= P Q fault f h next = absurd h
Gives->>= P Q out_of_fuel f h next = absurd h

pub Gives-mono {ℓ} :
    {A : Type ℓ} (P Q : A → Type 0) (m : Run A) → Gives P m → ((a : A) → P a → Q a) → Gives Q m
Gives-mono P Q (ok a) h weaken = weaken a h
Gives-mono P Q fault h weaken = h
Gives-mono P Q out_of_fuel h weaken = h

pub Gives-if_true {ℓ} :
    {A : Type ℓ} (P : A → Type 0) {test : Bool} (m n : Run A)
    → test ≡ true
    → Gives P m
    → Gives P (if test then m else n)
Gives-if_true P m n e h = rw e h

pub Gives-if_false {ℓ} :
    {A : Type ℓ} (P : A → Type 0) {test : Bool} (m n : Run A)
    → test ≡ false
    → Gives P n
    → Gives P (if test then m else n)
Gives-if_false P m n e h = rw e h
