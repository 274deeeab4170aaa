-- ===== src/Ipc/Sort/Quick/Step.antt =====
-- One round of `_shm_qsort`, behind the loops: the jump to `recurse` or the pop keeps the invariant.
use my_resource.Base.{
  ℕ, suc, ◌+◌, ◌-◌, ◌*◌, ◌^◌, ◌<◌, ◌≤◌, ◌≡◌, ◌⊎◌, inl, inr, true, Bool-cases, List, [], ◌∷◌, ltb,
  leb, if◌then◌else◌, arith, length,
}
use mathlib.Core.List.{Perm}
use my_resource.Base.Fault.{Run, ◌>>=◌, Gives}
use my_resource.Ipc.Rows.{Row}
use my_resource.Ipc.Sort.Selection.{IsSorted}
use my_resource.Ipc.Sort.Quick.{Guys, Stack, stack_size, push, pop, split}
use my_resource.Ipc.Sort.Quick.Rounds.{Skipped}
use my_resource.Ipc.Sort.Quick.Part.{Parted}
use my_resource.Ipc.Sort.Quick.Pending.{Apart-mono, total, Ordered, Inv, Same}
use my_resource.Ipc.Sort.Quick.Cuts.{
  deeper, shorter, shallow, Cut, cut-Ordered, upper_first, lower_first, drop_first, drop_second,
}

module _ (rank : Row → ℕ) (start : List Row) (small : length start < 2 ^ stack_size) where
  abbrev pub Sorted : List Row → Type 0
  Sorted ys = IsSorted rank ys × Perm ys start

  -- The jump to `recurse` with so much fuel.
  abbrev pub Handles : ℕ → (List Row → ℕ → ℕ → Stack → Run (List Row)) → Type 0
  Handles fuel rec =
      (xs : List Row) (lo hi : ℕ) (ps : Stack)
      → Inv rank start ((lo, hi) ∷ ps) xs
      → total ((lo, hi) ∷ ps) < fuel
      → Gives Sorted (rec xs lo hi ps)

  pub pop-Gives :
      (fuel : ℕ) (rec : List Row → ℕ → ℕ → Stack → Run (List Row))
      → Handles fuel rec
      → (ps : Stack) (xs : List Row) → Inv rank start ps xs
      → total ps < fuel
      → Gives Sorted (pop rec xs ps)
  pop-Gives fuel rec handles [] xs inv enough =
      ((λ i j ij len. elim (inv.ordered i j ij len) [ inl le ↦ le | inr w ↦ absurd w ]), inv.perm)
  pop-Gives fuel rec handles ((a, b) ∷ ps) xs inv enough = handles xs a b ps inv enough

  module _ (lo hi : ℕ) (ps : Stack) (xs ys : List Row) (inv : Inv rank start ((lo, hi) ∷ ps) xs)
      (perm : Perm ys start) (long : length ys ≡ length start) where
    pub no_part : Ordered rank ps ys → Inv rank start ps ys
    no_part ordered = record {
      ordered = ordered;
      disjoint = inv.disjoint.1;
      fits = inv.fits.2;
      deep = inv.deep.1;
      perm = perm;
      long = long;
    }

    one_part :
        (a b : ℕ)
        → lo ≤ a
        → a < b
        → b ≤ hi
        → Ordered rank ((a, b) ∷ ps) ys
        → Inv rank start ((a, b) ∷ ps) ys
    one_part a b from some_left to ordered =
        let inside = inv.fits.1 in
        record {
          ordered = ordered;
          disjoint = (Apart-mono lo hi a b ps inv.disjoint.0 from to, inv.disjoint.1);
          fits = (some_left, omega arith, inv.fits.2);
          deep = (
            shorter (b + 1 - a) (hi + 1 - lo) (2 ^ length ps) (length start) (omega arith)
                inv.deep.0,
            inv.deep.1,
          );
          perm = perm;
          long = long;
        }

    two_parts :
        (a b c d : ℕ)
        → lo ≤ a
        → a < b
        → b ≤ hi
        → lo ≤ c
        → c < d
        → d ≤ hi
        → (d < a ⊎ b < c)
        → 2 * (b + 1 - a) ≤ hi + 1 - lo
        → Ordered rank ((a, b) ∷ (c, d) ∷ ps) ys
        → Inv rank start ((a, b) ∷ (c, d) ∷ ps) ys
    two_parts a b c d from some_left to from' some_left' to' apart half ordered =
        let inside = inv.fits.1 in
        record {
          ordered = ordered;
          disjoint = (
            (apart, Apart-mono lo hi a b ps inv.disjoint.0 from to),
            (Apart-mono lo hi c d ps inv.disjoint.0 from' to', inv.disjoint.1),
          );
          fits = (some_left, omega arith, (some_left', omega arith, inv.fits.2));
          deep = (
            deeper (b + 1 - a) (hi + 1 - lo) (length ps) (length start) half inv.deep.0,
            (
              shorter (d + 1 - c) (hi + 1 - lo) (2 ^ length ps) (length start) (omega arith)
                  inv.deep.0,
              inv.deep.1,
            ),
          );
          perm = perm;
          long = long;
        }

  module _ (fuel : ℕ) (rec : List Row → ℕ → ℕ → Stack → Run (List Row)) (handles : Handles fuel rec)
      (lo hi : ℕ) (ps : Stack) (xs : List Row) (inv : Inv rank start ((lo, hi) ∷ ps) xs)
      (enough : total ((lo, hi) ∷ ps) < suc fuel) (g : Guys) (h : ℕ) (p : Parted rank lo hi g)
      (s : Skipped rank lo g h) (same : Same rank start ((lo, hi) ∷ ps) g.rows) where
    cut : Cut rank lo hi h ps g
    cut = cut-Ordered rank lo hi h ps g p s same.0

    room : ltb (length ps) stack_size ≡ true
    room =
        let wide = inv.fits.0 in
        ground (
          arith,
          shallow (hi + 1 - lo) (length ps) stack_size (length start) (omega arith) inv.deep.0
              small,
        )

    -- One part is pushed, if it has two records, and the other, half as long at most, is next.
    branch-Gives :
        (a b c d : ℕ)
        → lo ≤ a
        → b ≤ hi
        → lo ≤ c
        → d ≤ hi
        → (d < a ⊎ b < c)
        → 2 * (b + 1 - a) ≤ hi + 1 - lo
        → (b - a) + (d - c) < hi - lo
        → Ordered rank ((a, b) ∷ (c, d) ∷ ps) g.rows
        → Gives Sorted (
            push (ltb c d) (c, d) ps >>= λ st.
            if ltb a b then rec g.rows a b st else pop rec g.rows st)
    branch-Gives a b c d from to from' to' apart half fewer both = elim (Bool-cases (ltb c d)) [
      | inl pushed ↦
          let pushed_lt : c < d = ground arith in
          elim (Bool-cases (ltb a b)) [
            | inl next ↦
                let next_lt : a < b = ground arith in
                rw (pushed, room, next)
                  (handles g.rows a b ((c, d) ∷ ps)
                    (two_parts lo hi ps xs g.rows inv same.1 same.2 a b c d from next_lt to from'
                      pushed_lt to' apart half both)
                    (omega arith))
            | inr short ↦
                rw (pushed, room, short)
                  (pop-Gives fuel rec handles ((c, d) ∷ ps) g.rows
                    (one_part lo hi ps xs g.rows inv same.1 same.2 c d from' pushed_lt to'
                      (drop_first rank a b ((c, d) ∷ ps) g.rows (ground arith) both))
                    (omega arith))
          ]
      | inr kept ↦
          let only = drop_second rank (a, b) c d ps g.rows (ground arith) both in
          elim (Bool-cases (ltb a b)) [
            | inl next ↦
                let next_lt : a < b = ground arith in
                rw (kept, next)
                  (handles g.rows a b ps
                    (one_part lo hi ps xs g.rows inv same.1 same.2 a b from next_lt to only)
                    (omega arith))
            | inr short ↦
                rw (kept, short)
                  (pop-Gives fuel rec handles ps g.rows
                    (no_part lo hi ps xs g.rows inv same.1 same.2
                      (drop_first rank a b ps g.rows (ground arith) only))
                    (omega arith))
          ]
    ]

    pub split-Gives : Gives Sorted (split rank rec lo hi ps g h)
    unfolding split
    split-Gives =
        let wide = inv.fits.0 in
        let starts = p.starts in
        let meets = p.meets in
        let fits = p.fits in
        let crossed = p.crossed in
        let (s0, s1, s2) = s in
        elim (Bool-cases (leb (hi + lo) (h + g.loguy))) [
          | inl larger ↦
              let share : hi + lo ≤ h + g.loguy = ground arith in
              rw larger (
                branch-Gives g.loguy hi lo h (omega arith) (omega arith) (omega arith) (omega arith)
                  (inl (omega arith)) (omega arith) (omega arith)
                  (upper_first rank lo hi h ps g cut))
          | inr larger ↦
              let share : h + g.loguy < hi + lo = ground arith in
              rw larger (
                branch-Gives lo h g.loguy hi (omega arith) (omega arith) (omega arith) (omega arith)
                  (inr (omega arith)) (omega arith) (omega arith)
                  (lower_first rank lo hi h ps g cut))
        ]
