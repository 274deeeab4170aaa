-- ===== src/Ipc/RwLock/Readers.antt =====
-- Who gets into the lock, and who is not kept out.
use my_resource.Base.{ℕ, suc, ◌≡◌, ◌≢◌, refl, sym, ap, ◌∙◌, some, set, get_elem?}
use my_resource.Ipc.RwLock.{idle, locking, writing, w_locked, go, State, rw_lock_create, Reach}
use my_resource.Ipc.RwLock.Holders.{Reach-holders}
use my_resource.Ipc.RwLock.Runs.{
  stay, then_move, reads_in, begin_write, take_write, released, Reach-trans,
}

module _ (n : ℕ) (s : State) (r : Reach (rw_lock_create n) s) where
  -- No reader is shut out. From every state that processes reach by calls of the lock functions, of
  -- which each unlocks only what it holds and calls nothing but `vipc_sem_Wunlock` while it has the lock
  -- as a writer, whatever waits end by TIMEOUT, a process that is in none of them can get through `vipc_sem_Rlocked`:
  -- some steps later its count of reads is one more.
  pub Reach-reader_enters :
      (i reads : ℕ)
      → get_elem? s.procs i ≡ some (record { phase = idle; reads = reads })
      → (t : State) × Reach s t
        × (get_elem? t.procs i ≡ some (record { phase = idle; reads = suc reads }))
  Reach-reader_enters i reads there =
      let (u, run, free_now, kept) = released s (Reach-holders n s r) in
      let still = kept i (record { phase = idle; reads = reads }) there refl in
      let (t, entered, inside, _) =
        reads_in u u i reads (stay u i) still (ap (λ m. m.sem0) free_now) in
      (t, Reach-trans run entered.reach, inside)

  -- A writer can get in while nobody has the second semaphore. From every state that processes reach
  -- in which its value is not 0, a process that is in no lock function can get through
  -- `vipc_sem_Wlocked`; then the first semaphore is taken.
  pub Reach-writer_enters :
      (i reads k : ℕ)
      → get_elem? s.procs i ≡ some (record { phase = idle; reads = reads })
      → s.sems.sem1 ≡ suc k
      → (t : State) × Reach s t
        × (get_elem? t.procs i ≡ some (record { phase = writing; reads = reads }))
        × (t.sems ≡ record { sem0 = 0; sem1 = k })
  Reach-writer_enters i reads k there some_left =
      let (u, run, free_now, kept) = released s (Reach-holders n s r) in
      let still = kept i (record { phase = idle; reads = reads }) there refl in
      let left : u.sems.sem1 ≡ suc k = ap (λ m. m.sem1) free_now ∙ some_left in
      let (r1, there1) =
        then_move u u i w_locked _ _ _ (stay u i) still (begin_write u.sems reads k left) in
      let (r2, there2) =
        then_move u _ i go _ _ _ r1 there1
          (take_write (record u.sems { sem1 = k }) reads (ap (λ m. m.sem0) free_now)) in
      (_, Reach-trans run r2.reach, there2, refl)

  -- The lock does not keep readers and writers apart. From every state that processes reach by calls of
  -- the lock functions, of which each unlocks only what it holds and calls nothing but
  -- `vipc_sem_Wunlock` while it has the lock as a writer, in which the second semaphore is not 0 and two
  -- processes are in no lock function, steps lead to a state in which one of them is behind
  -- `vipc_sem_Wlocked` and the other behind `vipc_sem_Rlocked`: the reader comes between the two
  -- operations of the writer.
  pub Reach-reader_meets_writer :
      (i j a b k : ℕ)
      → i ≢ j
      → get_elem? s.procs i ≡ some (record { phase = idle; reads = a })
      → get_elem? s.procs j ≡ some (record { phase = idle; reads = b })
      → s.sems.sem1 ≡ suc k
      → (t : State) × Reach s t
        × (get_elem? t.procs i ≡ some (record { phase = writing; reads = a }))
        × (get_elem? t.procs j ≡ some (record { phase = idle; reads = suc b }))
  Reach-reader_meets_writer i j a b k differ there_i there_j some_left =
      let (u, run, free_now, kept) = released s (Reach-holders n s r) in
      let still_i = kept i (record { phase = idle; reads = a }) there_i refl in
      let still_j = kept j (record { phase = idle; reads = b }) there_j refl in
      let left : u.sems.sem1 ≡ suc k = ap (λ m. m.sem1) free_now ∙ some_left in
      let (r1, there1) =
        then_move u u i w_locked _ _ _ (stay u i) still_i (begin_write u.sems a k left) in
      let u1 : State = record {
        sems = record u.sems { sem1 = k };
        procs = set u.procs i (record { phase = locking; reads = a });
      } in
      let (v, r2, inside, sems) =
        reads_in u1 u1 j b (stay u1 j) (r1.others j (λ e. differ (sym e)) ∙ still_j)
          (ap (λ m. m.sem0) free_now) in
      let (r3, there3) =
        then_move v v i go (record { phase = locking; reads = a }) _ _ (stay v i)
          (r2.others i differ ∙ there1) (take_write v.sems a (ap (λ m. m.sem0) sems)) in
      (
        _,
        Reach-trans run (Reach-trans r1.reach (Reach-trans r2.reach r3.reach)),
        there3,
        r3.others j (λ e. differ (sym e)) ∙ inside,
      )
