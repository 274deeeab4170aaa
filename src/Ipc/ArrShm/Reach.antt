-- ===== src/Ipc/ArrShm/Reach.antt =====
-- Arrays from `ArrShmFormat` on, through insertions and deletions.
use my_resource.Base.{
  ℕ, zero, suc, ◌+◌, ◌/◌, ◌≤◌, ◌<◌, ◌≡◌, ◌≢◌, inl, inr, refl, sym, ap, ◌∙◌, Bool, true, false, List,
  length, arith, ltb, leb, ◌||◌, ◌%◌, ◌^◌, ◌==◌, if◌then◌else◌, replicate,
}
use mathlib.Core.Path.{subst}
use my_resource.Base.Fault.{ok, Gives, Gives-mono, Gives->>=, Gives-if_false}
use my_resource.Ipc.ArrShm.{
  Arr, Code, success, error, clean, dirty_at, insert, delete, format, block_size_of, mark_clean,
  memcpy, put, long_value,
}
use my_resource.Ipc.Shm.Layout.{div-mul-le}
use my_resource.Ipc.ArrShm.Memory.{length-put, take-drop-put_apart, take-drop-put_same}
use my_resource.Ipc.ArrShm.Blocks.{
  offset, offset_lem, offset-le, offset-lt, offset-apart, free_from, free_from-taken,
}
use my_resource.Ipc.ArrShm.Insert.{IsArray, Outcome, is_dirty, insert-Outcome}

put-clean : (p : ℕ) (mem : List ℕ) → p + 8 ≤ length mem → dirty_at (put p clean mem) p ≡ false
put-clean p mem h = ap (λ l. long_value l == 1) (take-drop-put_same p clean mem h)

-- The memory when the loop of `ArrShmFormat` is done with `n` blocks.
abbrev Marked : ℕ → ℕ → ℕ → List ℕ → List ℕ → Type 0
Marked n single p mem mem' =
    (length mem' ≡ length mem)
    × (free_from n single p mem' ≡ n)
    × ((r : ℕ) → r + 8 ≤ p → dirty_at mem' r ≡ dirty_at mem r)

mark_clean-Marked :
    (n single p : ℕ) (mem : List ℕ)
    → 8 ≤ single
    → offset p single n ≤ length mem
    → Gives (Marked n single p mem) (mark_clean n single p mem)
unfolding mark_clean memcpy
mark_clean-Marked zero single p mem w h = (refl, refl, λ r l. refl)
mark_clean-Marked (suc n) single p mem w h =
    let behind = offset-le (p + single) single n in
    let inside : ltb (length mem) (p + 8) ≡ false = ground arith in
    let m1 = put p clean mem in
    rw inside (
      Gives-mono (Marked n single (p + single) m1) (Marked (suc n) single p mem)
        (mark_clean n single (p + single) m1)
        (mark_clean-Marked n single (p + single) m1 w (rw (length-put p clean mem) h))
        (λ mem' (long, free, same).
          let here : dirty_at mem' p ≡ false =
            same p (omega arith) ∙ put-clean p mem (omega arith) in
          (
            long ∙ length-put p clean mem,
            rw (here, free) (omega arith),
            (λ r l.
                same r (omega arith)
                ∙ ap (λ b. long_value b == 1) (take-drop-put_apart 8 r p clean mem (inl l))),
          )))

block_size_of-ge :
    (blocksize : ℕ)
    → blocksize + 8 < 2 ^ 63
    → (16 ≤ block_size_of blocksize) × (block_size_of blocksize < 2 ^ 63)
unfolding block_size_of
block_size_of-ge b small =
    let same : (b + 8) % 2 ^ 64 ≡ b + 8 = omega arith in
    (ground (arith, same), ground (arith, same))

abbrev Formatted : ℕ → Code × Arr → Type 0
Formatted blocksize r =
    IsArray r.1
    × (r.1.unuse_block_num ≡ r.1.total_block_num)
    × (r.1.single_block_size ≡ block_size_of blocksize)

format-IsArray :
    (closes : Bool) (blocksize : ℕ) (s : Arr)
    → blocksize + 8 < 2 ^ 63
    → s.total_size ≤ length s.mem
    → Gives (Formatted blocksize) (format true closes blocksize s)
unfolding format
format-IsArray closes b s small h =
    let single = block_size_of b in
    let n = s.total_size / single in
    let (wide, narrow) = block_size_of-ge b small in
    let fits = div-mul-le s.total_size single (omega arith) in
    let zeros = put 0 (replicate s.total_size 0) s.mem in
    let long = length-put 0 (replicate s.total_size 0) s.mem in
    let room : offset 0 single n ≤ length zeros = omega (arith, offset_lem 0 single n) in
    let inside : ltb (length s.mem) s.total_size ≡ false = ground arith in
    let some_size : single == 0 ≡ false = ground arith in
    let long_size : leb (2 ^ 63) single ≡ false = ground arith in
    let sound : ltb (length s.mem) s.total_size || (single == 0 || leb (2 ^ 63) single) ≡ false =
      rw (inside, some_size, long_size) refl in
    Gives-if_false _ _ _ sound (
      Gives->>= (Marked n single 0 zeros) (Formatted b) (mark_clean n single 0 zeros)
        (λ mem. ok (
          (if closes then success else error),
          record s {
            single_block_size = single;
            total_block_num = n;
            unuse_block_num = n;
            init_flag = true;
            mem = mem;
          },
        ))
        (mark_clean-Marked n single 0 zeros (omega arith) room)
        (λ mem (same, free, _). (
          record {
            formatted = refl;
            wide = omega arith;
            room = omega (arith, room);
            counted = sym free;
          },
          refl,
          refl,
        )))

-- Insertions, of data that leaves room for the flag, and deletions of blocks that are in use.
pub data Reach (s : Arr) : Arr → Type 0 where
  here : Reach s s
  inserted :
      {t u : Arr} (bytes : List ℕ) (code : Code)
      → Reach s t
      → length bytes + 8 ≤ t.single_block_size
      → insert true bytes t ≡ ok (code, u)
      → Reach s u
  deleted :
      {t u : Arr} (i : ℕ)
      → Reach s t
      → i < t.total_block_num
      → is_dirty t i ≡ true
      → delete (offset 0 t.single_block_size i) t ≡ ok u
      → Reach s u

module _ (t : Arr) (i : ℕ) (v : IsArray t) (l : i < t.total_block_num)
    (used : is_dirty t i ≡ true) where
  abbrev at : ℕ
  at = offset 0 t.single_block_size i

  abbrev freed : List ℕ
  freed = put at clean t.mem

  inside : at + 8 ≤ length t.mem
  inside =
      let wide = v.wide in
      let room = v.room in omega (arith, offset-lt 0 t.single_block_size i t.total_block_num l)

  other :
      (j : ℕ)
      → j ≢ i
      → dirty_at t.mem (offset 0 t.single_block_size j)
        ≡ dirty_at freed (offset 0 t.single_block_size j)
  other j d =
      let wide = v.wide in
      ap (λ b. long_value b == 1)
        (sym (
          take-drop-put_apart 8 (offset 0 t.single_block_size j) at clean t.mem
            (elim (offset-apart t.single_block_size i j (λ e. d (sym e))) [
              | inl e ↦ inr (omega arith)
              | inr e ↦ inl (omega arith)
            ])))

  delete-IsArray : Gives IsArray (delete at t)
  unfolding delete memcpy
  delete-IsArray =
      let counted = v.counted in
      let fits : ltb (length t.mem) (at + 8) ≡ false = let inside' = inside in ground arith in
      rw fits (record {
        formatted = v.formatted;
        wide = v.wide;
        room = rw (length-put at clean t.mem) v.room;
        counted = omega (
          arith,
          free_from-taken freed t.mem t.total_block_num t.single_block_size 0 i l
              (put-clean at t.mem inside) used (λ j m d. other j d),
        );
      })

inserted-IsArray :
    (t u : Arr) (bytes : List ℕ) (code : Code)
    → IsArray t
    → length bytes + 8 ≤ t.single_block_size
    → insert true bytes t ≡ ok (code, u)
    → IsArray u
inserted-IsArray t u bytes code v fits e =
    elim (subst (Gives (Outcome t bytes)) e (insert-Outcome t bytes v (inl fits))) [
      | inl p ↦ rw (ap (λ r. r.1) (p.0)) v
      | inr p ↦ p.2
    ]

Reach-IsArray : (s t : Arr) → IsArray s → Reach s t → IsArray t
Reach-IsArray s w v here = v
Reach-IsArray s w v (inserted {t} bytes code r fits e) =
    inserted-IsArray t w bytes code (Reach-IsArray s t v r) fits e
Reach-IsArray s w v (deleted {t} i r l used e) =
    subst (Gives IsArray) e (delete-IsArray t i (Reach-IsArray s t v r) l used)

-- From ArrShmFormat with a blocksize below 2 ^ 63 - 8 on, whatever data is inserted and whatever blocks in use are deleted,
-- UnUseBlockNum is the number of blocks that are not in use, if data always leaves room for the flag
-- of its block and the array lies in its segment.
pub format-Reach :
    (closes : Bool) (blocksize : ℕ) (s t u : Arr) (code : Code)
    → blocksize + 8 < 2 ^ 63
    → s.total_size ≤ length s.mem
    → format true closes blocksize s ≡ ok (code, t)
    → Reach t u
    → u.unuse_block_num ≡ free_from u.total_block_num u.single_block_size 0 u.mem
format-Reach closes b s t u code small h e r =
    (Reach-IsArray t u (subst (Gives (Formatted b)) e (format-IsArray closes b s small h)).0
      r).counted
