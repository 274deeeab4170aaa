-- ===== src/ThreadPool/EventQueue/Steps.antt =====
-- Sequences of calls by any threads: `num` counts the tasks, the list is in order, and a task that
-- is popped is one of lowest priority.
use my_resource.Base.{
  ℕ, ◌+◌, ◌≡◌, refl, sym, ap, ◌∙◌, true, false, List, [], ◌∷◌, ◌++◌, arith, length, length-append,
  Bool-cases, Option-cases, inl, inr, ◌==◌,
}
use mathlib.Core.Path.{subst}
use mathlib.Core.Bool.{false≢true}
use my_resource.Base.Fault.{ok, Holds}
use my_resource.ThreadPool.EventList.{Task, pop}
use my_resource.ThreadPool.EventList.Order.{
  ahead, behind, IsQueue, AtLeast, add-inserted, inserted-IsQueue, length-ahead-behind,
}
use my_resource.ThreadPool.EventQueue.{
  Status, is_ready, Queue, Code, success, Popped, refused, waits, event, evt_q_init, add_evt,
  pop_locked, pop_evt, clr_evt,
}

-- While the queue is ready, what its fields say of each other.
pub record IsValid (q : Queue) : Type 0 where
  pub counted : q.num ≡ length q.elist
  pub ordered : IsQueue q.elist

-- A call by some thread; memory is given. A thread that waited in `Tpool_popevt` is woken while the
-- queue is ready.
pub data Step : Queue → Queue → Type 0 where
  add_step :
      {q : Queue} (t : Task) {c : Code} {q' : Queue} → add_evt true q t ≡ ok (c, q') → Step q q'
  pop_step : {q : Queue} {q' : Queue} → (pop_evt q).1 ≡ q' → Step q q'
  wake_step :
      {q : Queue} {q' : Queue} → is_ready q.status ≡ true → (pop_locked q).1 ≡ q' → Step q q'
  clr_step : {q : Queue} {q' : Queue} → (clr_evt q).1 ≡ q' → Step q q'

pub data Reach (q : Queue) : Queue → Type 0 where
  here : Reach q q
  next : {u v : Queue} → Reach q u → Step u v → Reach q v

-- The fields agree as long as the queue is ready.
abbrev pub Sound : Queue → Type 0
Sound q = is_ready q.status ≡ true → IsValid q

add_evt-ok :
    (q : Queue) (t : Task)
    → IsValid q
    → is_ready q.status ≡ true
    → add_evt true q t
      ≡ ok (
        success,
        record q {
          num = q.num + 1;
          elist = ahead t.priority q.elist ++ t ∷ behind t.priority q.elist;
        },
      )
unfolding add_evt
add_evt-ok q t v h = rw (h, add-inserted q.elist t v.ordered) refl

length-added :
    (t : Task) (xs : List Task)
    → length (ahead t.priority xs ++ t ∷ behind t.priority xs) ≡ length xs + 1
length-added t xs =
    let parts = length-ahead-behind t.priority xs in
    rw (length-append (ahead t.priority xs) (t ∷ behind t.priority xs)) (omega arith)

add_evt-IsValid :
    (q : Queue) (t : Task)
    → IsValid q
    → IsValid (record q {
      num = q.num + 1;
      elist = ahead t.priority q.elist ++ t ∷ behind t.priority q.elist;
    })
add_evt-IsValid q t v = record {
  counted = ap (λ n. n + 1) v.counted ∙ sym (length-added t q.elist);
  ordered = inserted-IsQueue q.elist t v.ordered;
}

-- A queue that is ready and whose fields agree, after `Tpool_popevt` has the mutex: it waits exactly
-- if there is no task; otherwise it returns the first task, which has the lowest priority.
abbrev pub PopResult : Queue → Popped × Queue → Type 0
PopResult q (refused, r) = ⊥
PopResult q (waits, r) = (q.elist ≡ []) × (r ≡ q)
PopResult q (event t, r) =
    (q.elist ≡ t ∷ r.elist) × AtLeast t.priority r.elist × (r.status ≡ q.status) × IsValid r

popped :
    (n : ℕ) (s : Status) (xs : List Task)
    → n ≡ length xs
    → IsQueue xs
    → PopResult
        (record { num = n; status = s; elist = xs })
        (pop_locked (record { num = n; status = s; elist = xs }))
unfolding pop_locked pop
popped n s [] e o = rw e (refl, refl)
popped n s (t ∷ rest) e o =
    let some_left : (n == 0) ≡ false = ground arith in
    rw some_left (refl, o.0, refl, record { counted = omega arith; ordered = o.1 })

-- On a ready queue whose fields agree, `Tpool_popevt` waits exactly if the list is empty; otherwise
-- it returns the first task, no task left has a lower priority value, and the fields agree again.
pub pop_evt-PopResult : (q : Queue) → IsValid q → is_ready q.status ≡ true → PopResult q (pop_evt q)
unfolding pop_evt
pop_evt-PopResult q v h = rw h (popped q.num q.status q.elist v.counted v.ordered)

pop_locked-status : (q : Queue) → (pop_locked q).1.status ≡ q.status
unfolding pop_locked pop
pop_locked-status q = elim (Bool-cases (q.num == 0)) [
  | inl h ↦ rw h refl
  | inr h ↦ rw h (elim (Option-cases (pop q.elist)) [ inl e ↦ rw e refl | inr (x, e) ↦ rw e refl ])
]

result-IsValid : (q : Queue) (r : Popped × Queue) → PopResult q r → IsValid q → IsValid r.1
result-IsValid q (refused, r) h v = absurd h
result-IsValid q (waits, r) (e, f) v = subst IsValid (sym f) v
result-IsValid q (event t, r) (_, _, _, left) v = left

pop_locked-IsValid : (q : Queue) → IsValid q → IsValid (pop_locked q).1
pop_locked-IsValid q v =
    result-IsValid q (pop_locked q) (popped q.num q.status q.elist v.counted v.ordered) v

add_evt-Sound : (q : Queue) (t : Task) → Sound q → Holds (λ r. Sound r.1) (add_evt true q t)
add_evt-Sound q t v = elim (Bool-cases (is_ready q.status)) [
  | inl h ↦ rw (add_evt-ok q t (v h) h) (λ r. add_evt-IsValid q t (v h))
  | inr h ↦ unfold add_evt in rw h v
]

pop_locked-Sound : (q : Queue) → Sound q → Sound (pop_locked q).1
pop_locked-Sound q v h = pop_locked-IsValid q (v (sym (ap is_ready (pop_locked-status q)) ∙ h))

pop_evt-Sound : (q : Queue) → Sound q → Sound (pop_evt q).1
pop_evt-Sound q v = elim (Bool-cases (is_ready q.status)) [
  | inl h ↦ unfold pop_evt in rw h (pop_locked-Sound q v)
  | inr h ↦ unfold pop_evt in rw h v
]

clr_evt-Sound : (q : Queue) → Sound q → Sound (clr_evt q).1
clr_evt-Sound q v = elim (Bool-cases (is_ready q.status)) [
  | inl h ↦ unfold clr_evt in rw h (λ r. absurd (false≢true r))
  | inr h ↦ unfold clr_evt in rw h v
]

Step-Sound : {q q' : Queue} → Step q q' → Sound q → Sound q'
Step-Sound {q} (add_step t e) v = subst (Holds (λ r. Sound r.1)) e (add_evt-Sound q t v)
Step-Sound {q} (pop_step e) v = subst Sound e (pop_evt-Sound q v)
Step-Sound {q} (wake_step _ e) v = subst Sound e (pop_locked-Sound q v)
Step-Sound {q} (clr_step e) v = subst Sound e (clr_evt-Sound q v)

init-Sound : Sound evt_q_init
init-Sound h = unfold evt_q_init in record { counted = refl; ordered = tt }

-- After any sequence of calls from `Tpool_evtQinit` on, while the queue is ready `num` is the number
-- of tasks in the list and the list is in the order of the priorities.
pub reach-IsValid : {q : Queue} → Reach evt_q_init q → is_ready q.status ≡ true → IsValid q
reach-IsValid here h = init-Sound h
reach-IsValid (next r s) h = Step-Sound s (reach-IsValid r) h

-- After any sequence of calls from `Tpool_evtQinit` on, memory given, `Tpool_popevt` on a ready
-- queue waits exactly if there is no task; otherwise it returns the first task, no task left has a
-- lower priority value, and `num` still counts the tasks.
pub reach-pop_evt :
    {q : Queue} → Reach evt_q_init q → is_ready q.status ≡ true → PopResult q (pop_evt q)
reach-pop_evt {q} r h = pop_evt-PopResult q (reach-IsValid r h) h
