-- ===== src/ThreadPool/Calls/Sized.antt =====
-- What a call of `Tpool_sizectl` comes to, with and without a timeout.
use my_resource.Base.{ℕ, ◌≡◌, refl, Bool, Option, [], ◌∷◌}
use my_resource.Base.Fault.{Run, ok, fault, out_of_fuel, Gives}
use my_resource.ThreadPool.Core.{ℤ, Pool, Start, size_ctl}
use my_resource.ThreadPool.Core.Count.{IsBalanced}
use my_resource.ThreadPool.Core.Resize.{size_ctl-Resized}
use my_resource.ThreadPool.Calls.{
  carry_out, call, take, report, return, give_up, calls_size, takes, reports, returns, gives_up,
  move, moves,
}
use my_resource.ThreadPool.Calls.Turns.{fresh}

-- If a call of Tpool_sizectl gives up before the monitor takes its command, the monitor reads the
-- freed number. If it gives up while the monitor works, the result of its command stays behind: the
-- next call returns at once, and the monitor reads its freed number.
pub gives_up-fault :
    (start : ℕ → Start) (ended : ℕ → Bool) (p : Pool) (y z : ℤ) (r : Option ℕ × Pool)
    → size_ctl start ended z p ≡ ok r
    → (moves start ended (calls_size z ∷ gives_up ∷ takes ∷ []) (fresh p) ≡ fault)
      × (moves start ended
            (calls_size z ∷ takes ∷ gives_up ∷ reports ∷ calls_size y ∷ returns ∷ takes ∷ [])
            (fresh p)
          ≡ fault)
unfolding moves move call take carry_out give_up report return
gives_up-fault start ended p y z r e = (refl, rw e refl)

Gives-result {ℓ} : {A : Type ℓ} (P : A → Type 0) (m : Run A) → Gives P m → (a : A) × (m ≡ ok a)
Gives-result P (ok a) h = (a, refl)
Gives-result P fault h = absurd h
Gives-result P out_of_fuel h = absurd h

-- A call of Tpool_sizectl on a ready pool without a command, as long as it does not give up, ends with
-- the pool that _Tpool_sizectl leaves, ready for the next call.
pub calls-size_ctl :
    (start : ℕ → Start) (ended : ℕ → Bool) (p : Pool) (z : ℤ)
    → IsBalanced p
    → (r : Option ℕ × Pool) × (size_ctl start ended z p ≡ ok r)
      × (moves start ended (calls_size z ∷ takes ∷ reports ∷ returns ∷ []) (fresh p)
          ≡ ok (fresh r.1))
unfolding moves move call take carry_out report return
calls-size_ctl start ended p z v =
    let (r, e) = Gives-result _ (size_ctl start ended z p) (size_ctl-Resized start ended z p v) in
    (r, e, rw e refl)
