-- ===== src/ThreadPool/Calls/Returned.antt =====
-- What holds of the runs that return.
use my_resource.Base.Fault.{Run, ok, fault, out_of_fuel, ◌>>=◌, Gives}

-- What holds after a run that returns.
unfoldable pub IfOk {ℓ} : {A : Type ℓ} → (A → Type 0) → Run A → Type 0
IfOk P (ok a) = P a
IfOk P fault = Unit
IfOk P out_of_fuel = Unit

pub IfOk->>= {ℓ κ} :
    {A : Type ℓ} {B : Type κ} (P : A → Type 0) (Q : B → Type 0) (m : Run A) (f : A → Run B)
    → IfOk P m
    → ((a : A) → P a → IfOk Q (f a))
    → IfOk Q (m >>= f)
unfolding IfOk
IfOk->>= P Q (ok a) f h next = next a h
IfOk->>= P Q fault f h next = tt
IfOk->>= P Q out_of_fuel f h next = tt

pub Gives-IfOk {ℓ} : {A : Type ℓ} (P : A → Type 0) (m : Run A) → Gives P m → IfOk P m
unfolding IfOk
Gives-IfOk P (ok a) h = h
Gives-IfOk P fault h = tt
Gives-IfOk P out_of_fuel h = tt

pub IfOk-Unit {ℓ} : {A : Type ℓ} (m : Run A) → IfOk (λ a. Unit) m
unfolding IfOk
IfOk-Unit (ok a) = tt
IfOk-Unit fault = tt
IfOk-Unit out_of_fuel = tt

pub IfOk-mono {ℓ} :
    {A : Type ℓ} (P Q : A → Type 0) (m : Run A) → ((a : A) → P a → Q a) → IfOk P m → IfOk Q m
unfolding IfOk
IfOk-mono P Q (ok a) f h = f a h
IfOk-mono P Q fault f h = tt
IfOk-mono P Q out_of_fuel f h = tt
