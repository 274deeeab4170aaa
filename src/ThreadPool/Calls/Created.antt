-- ===== src/ThreadPool/Calls/Created.antt =====
-- The pool that `Tpool_create` makes.
use my_resource.Base.{
  ℕ, zero, suc, ◌+◌, ◌≡◌, refl, ◌∙◌, Bool, true, false, ◌&&◌, [], arith, Bool-cases, inl, inr,
  if◌then◌else◌,
}
use my_resource.ThreadPool.WorkerList.{Code, success, error}
use my_resource.ThreadPool.Core.{
  pos, Pool, Start, refused, unregistered, registered, attempt, create_worker,
}
use my_resource.ThreadPool.Core.Count.{IsBalanced, create_worker-Grown}
use my_resource.ThreadPool.Calls.{Status, init, ready, unavailable}
use my_resource.ThreadPool.Calls.Create.{
  Attr, is_rate, or_default, turns, filled, with_attr, create,
}

attempt-success :
    (s : Start) (n : ℕ) (rest : Pool → Code × Pool) (p : Pool)
    → ((q : Pool) → (rest q).0 ≡ success → (rest q).1.cursize ≡ q.cursize + n)
    → (attempt s rest p).0 ≡ success
    → (attempt s rest p).1.cursize ≡ p.cursize + suc n
unfolding attempt
attempt-success refused n rest p h e = cc
attempt-success (unregistered tid) n rest p h e = cc
attempt-success (registered tid) n rest p h e = omega (arith, h _ e)

create_worker-success :
    (start : ℕ → Start) (n : ℕ) (p : Pool)
    → (create_worker start n p).0 ≡ success
    → (create_worker start n p).1.cursize ≡ p.cursize + n
unfolding create_worker
create_worker-success start zero p e = omega arith
create_worker-success start (suc n) p e =
    attempt-success (start n) n (create_worker start n) p (create_worker-success start n) e

-- What a call of Tpool_create that succeeds leaves.
abbrev pub Ready : ℕ → ℕ → ℕ → Code × Status × Pool → Type 0
Ready hi lo n (error, st, p) = Unit
Ready hi lo n (success, st, p) =
    (st ≡ ready)
    × IsBalanced p
    × (p.cursize ≡ or_default 4 n)
    × (p.maxsize ≡ or_default 128 hi)
    × (p.minsize ≡ or_default 1 lo)

started-Ready :
    (hi lo n : ℕ) (in_time : Bool) (q : Pool) (c : Code) (r : Pool)
    → (c ≡ success
        → IsBalanced r
          × (r.cursize ≡ or_default 4 n)
          × (r.maxsize ≡ or_default 128 hi)
          × (r.minsize ≡ or_default 1 lo))
    → Ready hi lo n (
        if in_time
        then elim c as (λ _. Code × Status × Pool) [
          | success ↦ (success, ready, r)
          | error ↦ (error, unavailable, record r { workers = [] })
        ]
        else (error, init, q))
started-Ready hi lo n true q success r h =
    let (b, c, most, least) = h refl in (refl, b, c, most, least)
started-Ready hi lo n true q error r h = tt
started-Ready hi lo n false q c r h = tt

-- Tpool_create on a zeroed pool, with sizes that are not negative, if it succeeds, makes a ready pool
-- with as many workers as defsize says, or 4 if it is 0, with the limits of the attributes, or 128 and
-- 1 where they are 0, and with balanced counters, whatever maxsize and minsize are.
pub create-Ready :
    (start : ℕ → Start) (thread in_time : Bool) (a : Attr) (p : Pool) (hi lo n : ℕ)
    → a.maxsize ≡ pos hi
    → a.minsize ≡ pos lo
    → a.defsize ≡ pos n
    → p.cursize ≡ 0
    → p.available ≡ 0
    → Ready hi lo n (create start thread in_time a p)
unfolding create with_attr filled
create-Ready start thread in_time a p hi lo n at_most at_least many c v =
    elim (Bool-cases (is_rate a.hload && is_rate a.lload)) [
      | inr h ↦ rw h tt
      | inl h ↦ rw h (made thread)
    ]
  where
    q : Pool
    q = with_attr (filled a) p

    m : ℕ
    m = turns (filled a).defsize

    made :
        (thread' : Bool)
        → Ready hi lo n (
            if thread'
            then (let (code, r) = create_worker start m q in
                if in_time
                then elim code as (λ _. Code × Status × Pool) [
                  | success ↦ (success, ready, r)
                  | error ↦ (error, unavailable, record r { workers = [] })
                ]
                else (error, init, q))
            else (error, init, q))
    made false = tt
    made true =
        let (g, l, s, most, least, b) =
          create_worker-Grown start m q (record { waiting = v; counted = omega (arith, c) }) in
        let size : m ≡ or_default 4 n = rw many refl in
        started-Ready hi lo n in_time q (create_worker start m q).0 (create_worker start m q).1 λ e.
          (
            b,
            create_worker-success start m q e ∙ omega (arith, c, size),
            most ∙ rw at_most refl,
            least ∙ rw at_least refl,
          )
