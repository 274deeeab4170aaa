-- ===== src/Ipc/ArrShm/Overrun.antt =====
-- Data that `ArrShmInsert` takes although it is too long for its block.
use my_resource.Base.{
  ℕ, zero, suc, ◌+◌, ◌-◌, ◌≤◌, ◌<◌, ◌≡◌, refl, sym, ap, ◌∙◌, true, false, List, [], ◌∷◌, length,
  take, drop, arith, ltb, ◌==◌,
}
use mathlib.Core.Path.{subst}
use my_resource.Base.Fault.{ok, Gives, Gives->>=, Gives-if_true, Gives-if_false, ◌>>=◌}
use my_resource.Ipc.ArrShm.{Arr, Code, success, dirty, dirty_at, first_free, insert, memcpy}
use my_resource.Ipc.ArrShm.Blocks.{offset, offset_suc, offset-lt, first_free-offset}
use my_resource.Ipc.ArrShm.Insert.{IsArray, is_dirty, filled, filled-data, writes}

drop-take : (m n k : ℕ) (xs : List ℕ) → k ≡ m + n → drop m (take k xs) ≡ take n (drop m xs)
drop-take zero n k xs e = ap (λ l. take l xs) (omega arith)
drop-take (suc m) n zero xs e = absurd (omega arith)
drop-take (suc m) zero (suc k) [] e = refl
drop-take (suc m) (suc n) (suc k) [] e = refl
drop-take (suc m) n (suc k) (x ∷ xs) e = drop-take m n k xs (omega arith)

drop-drop : (m n k : ℕ) (xs : List ℕ) → k ≡ n + m → drop m (drop n xs) ≡ drop k xs
drop-drop m zero k xs e = ap (λ l. drop l xs) (omega arith)
drop-drop m (suc n) zero xs e = absurd (omega arith)
drop-drop zero (suc n) (suc k) [] e = refl
drop-drop (suc m) (suc n) (suc k) [] e = refl
drop-drop m (suc n) (suc k) (x ∷ xs) e = drop-drop m n k xs (omega arith)

-- The end of what lies at an offset.
tail_at :
    (q m n : ℕ) (bytes mem : List ℕ)
    → take (m + n) (drop q mem) ≡ bytes
    → take n (drop (q + m) mem) ≡ drop m bytes
tail_at q m n bytes mem e =
    ap (take n) (sym (drop-drop m q (q + m) mem refl))
    ∙ sym (drop-take m n (m + n) (drop q mem) refl)
    ∙ ap (drop m) e

-- The flag of the block behind a block that was not in use holds the last bytes of the data.
abbrev pub Overrun : Arr → List ℕ → Code × Arr → Type 0
Overrun s bytes r =
    (r.0 ≡ success)
    × (i : ℕ) × (i < s.total_block_num)
    × (is_dirty s i ≡ false)
    × (take (length bytes + 8 - s.single_block_size)
          (drop (offset 0 s.single_block_size (suc i)) r.1.mem)
        ≡ drop (s.single_block_size - 8) bytes)

-- ArrShmInsert takes data that is longer than the room behind the flag, up to the size of the block,
-- returns SUCCESS, and writes what does not fit over the flag of the next block, or over what is
-- behind the last, if the segment goes on for 8 bytes there.
pub insert-Overrun :
    (s : Arr) (bytes : List ℕ)
    → IsArray s
    → 0 < s.unuse_block_num
    → s.single_block_size < length bytes + 8
    → length bytes ≤ s.single_block_size
    → offset 0 s.single_block_size s.total_block_num + 8 ≤ length s.mem
    → Gives (Overrun s bytes) (insert true bytes s)
unfolding insert
insert-Overrun s bytes v some_free long short room =
    let counted = v.counted in
    let wide = v.wide in
    let single = s.single_block_size in
    let nonzero : s.unuse_block_num == 0 ≡ false = ground arith in
    let accepted : ltb single (length bytes) ≡ false = ground arith in
    Gives-if_true _ _ _ v.formatted (
      Gives-if_false _ _ _ nonzero (
        Gives-if_false _ _ _ accepted (
          Gives->>=
            (λ q.
              (i : ℕ) × (i < s.total_block_num)
              × (q ≡ offset 0 single i)
              × (dirty_at s.mem q ≡ false))
            (Overrun s bytes) (first_free s.total_block_num single 0 s.mem)
            (λ p. memcpy (p + 8) bytes s.mem >>= memcpy p dirty >>= λ mem.
              ok (success, record s { unuse_block_num = s.unuse_block_num - 1; mem = mem }))
            (first_free-offset s.total_block_num single 0 s.mem wide v.room (omega arith))
            (λ q (i, l, at, free).
              let inside : offset 0 single i + 8 + length bytes ≤ length s.mem =
                omega (arith, offset-lt 0 single i s.total_block_num l) in
              let next : offset 0 single i + 8 + (single - 8) ≡ offset 0 single (suc i) =
                sym (offset_suc 0 single i ∙ omega arith) in
              let whole : length bytes ≡ single - 8 + (length bytes + 8 - single) = omega arith in
              let mem = filled (offset 0 single i) bytes s.mem in
              let behind =
                subst (λ q. take (length bytes + 8 - single) (drop q mem) ≡ drop (single - 8) bytes)
                  next
                  (tail_at (offset 0 single i + 8) (single - 8) (length bytes + 8 - single) bytes
                    mem
                    (subst (λ k. take k (drop (offset 0 single i + 8) mem) ≡ bytes) whole
                      (filled-data (offset 0 single i) bytes s.mem inside))) in
              rw (at, writes (offset 0 single i) bytes s.mem inside)
                (refl, i, l, rw (sym at) free, behind)))))
