-- ===== src/MemPool/Pages.antt =====
-- Where the blocks of a page lie.
use my_resource.Base.{
  ℕ, zero, suc, ◌+◌, ◌-◌, ◌*◌, ◌%◌, ◌^◌, ◌≡◌, refl, ◌∙◌, true, Option, none, some, List, [], ◌∷◌,
  ◌++◌, arith, leb, ltb, ◌==◌, if◌then◌else◌, length, Bool-cases, inl, inr, append_assoc,
}
use mathlib.Core.Path.{subst}
use my_resource.MemPool.{
  Block, Pool, Pointer, null, in_page, in_large, fresh, failed, carved, later, place, advance,
  alloc_block,
}

-- The first byte of the page with this number that is not given out; of a page not yet made, that of
-- a new one.
unfoldable pub next_free : List Block → ℕ → ℕ
next_free [] j = 1600
next_free (b ∷ bs) zero = b.pfree
next_free (b ∷ bs) (suc j) = next_free bs j

-- What handing out a block changes.
pub record Given (size : ℕ) (pages : List Block) (k o : ℕ) (pages' : List Block) : Type 0 where
  pub address : o ≡ next_free pages k
  pub moved : (j : ℕ) → next_free pages' j ≡ (if j == k then o + 8 * size else next_free pages j)

abbrev pub Placed : ℕ → List Block → Option (ℕ × ℕ) × List Block → Type 0
Placed size pages (none, pages') = ⊥
Placed size pages (some (k, o), pages') = Given size pages k o pages'

later-Placed :
    (size : ℕ) (b : Block) (bs : List Block) (r : Option (ℕ × ℕ) × List Block)
    → Placed size bs r
    → Placed size (b ∷ bs) (later r.0, failed b ∷ r.1)
unfolding next_free
later-Placed size b bs (none, rest) h = absurd h
later-Placed size b bs (some (k, o), rest) h = record { address = h.address; moved = moved_later }
  where
    moved_later :
        (j : ℕ)
        → next_free (failed b ∷ rest) j
          ≡ (if j == suc k then o + 8 * size else next_free (b ∷ bs) j)
    moved_later zero = ground arith
    moved_later (suc j) = ground (arith, h.moved j)

new-Placed : (page_size size : ℕ) → Given size [] 0 1600 (carved size (fresh page_size) ∷ [])
unfolding next_free fresh
new-Placed page_size size = record { address = refl; moved = moved_new }
  where
    moved_new :
        (j : ℕ)
        → next_free (carved size (fresh page_size) ∷ []) j
          ≡ (if j == 0 then 1600 + 8 * size else next_free [] j)
    moved_new zero = ground arith
    moved_new (suc j) = ground arith

here-Placed :
    (size : ℕ) (b : Block) (bs : List Block) → Given size (b ∷ bs) 0 b.pfree (carved size b ∷ bs)
unfolding next_free
here-Placed size b bs = record { address = refl; moved = moved_here }
  where
    moved_here :
        (j : ℕ)
        → next_free (carved size b ∷ bs) j
          ≡ (if j == 0 then b.pfree + 8 * size else next_free (b ∷ bs) j)
    moved_here zero = ground arith
    moved_here (suc j) = ground arith

place-Placed :
    (page_size size : ℕ) (bs : List Block) → Placed size bs (place true page_size size bs)
unfolding place fresh
place-Placed page_size size [] = new-Placed page_size size
place-Placed page_size size (b ∷ bs) = elim (Bool-cases (leb size b.free)) [
  | inl h ↦ rw h (here-Placed size b bs)
  | inr h ↦
      rw h (later-Placed size b bs (place true page_size size bs) (place-Placed page_size size bs))
]

-- The pages before `page_current` and those from it on.
abbrev pub pages_of : Pool → List Block
pages_of pool = pool.before ++ pool.live

pub advance-append :
    (before live : List Block) → (advance before live).0 ++ (advance before live).1 ≡ before ++ live
unfolding advance
advance-append before [] = refl
advance-append before (b ∷ []) = refl
advance-append before (b ∷ c ∷ bs) = elim (Bool-cases (ltb b.fail_num 8)) [
  | inl h ↦ rw h refl
  | inr h ↦
      rw h (advance-append (before ++ b ∷ []) (c ∷ bs) ∙ append_assoc before (b ∷ []) (c ∷ bs))
]

behind-Given :
    (size : ℕ) (before pages : List Block) (k o i : ℕ) (pages' : List Block)
    → Given size pages k o pages'
    → i ≡ length before + k
    → Given size (before ++ pages) i o (before ++ pages')
unfolding next_free
behind-Given size [] pages k o i pages' h e =
    let same : k ≡ i = omega arith in subst (λ n. Given size pages n o pages') same h
behind-Given size (b ∷ bs) pages k o zero pages' h e = absurd (omega arith)
behind-Given size (b ∷ bs) pages k o (suc i) pages' h e =
    let g = behind-Given size bs pages k o i pages' h (omega arith) in
    record { address = g.address; moved = shifted g }
  where
    shifted :
        Given size (bs ++ pages) i o (bs ++ pages')
        → (j : ℕ)
        → next_free (b ∷ bs ++ pages') j
          ≡ (if j == suc i then o + 8 * size else next_free (b ∷ bs ++ pages) j)
    shifted g zero = ground arith
    shifted g (suc j) = ground (arith, g.moved j)

-- A request for a block in a page, with memory for a new page: the pages before and after it.
abbrev pub InPage : Pool → ℕ → Pointer × Pool → Type 0
InPage pool size (null, pool') = ⊥
InPage pool size (in_large i o, pool') = ⊥
InPage pool size (in_page k o, pool') = Given size (pages_of pool) k o (pages_of pool')

finish-InPage :
    (pool : Pool) (size : ℕ) (r : Option (ℕ × ℕ) × List Block)
    → Placed size pool.live r
    → InPage pool size (elim r.0 [
      | none ↦ (null, record pool { live = r.1 })
      | some (k, o) ↦ (
        in_page (length pool.before + k) o,
        record pool {
          page_num = (pool.page_num + (length r.1 - length pool.live)) % 2 ^ 32;
          before = (advance pool.before r.1).0;
          live = (advance pool.before r.1).1;
        },
      )
    ])
finish-InPage pool size (none, pages) h = absurd h
finish-InPage pool size (some (k, o), pages) h =
    rw (advance-append pool.before pages)
      (behind-Given size pool.before pool.live k o (length pool.before + k) pages h refl)

-- With memory for a new page, `_mem_pool_alloc_block` returns the first free byte of a page, which
-- then moves on by eight times the size; in every other page it stays where it is.
pub alloc_block-InPage : (pool : Pool) (size : ℕ) → InPage pool size (alloc_block true pool size)
unfolding alloc_block
alloc_block-InPage pool size =
    finish-InPage pool size (place true pool.page_size size pool.live)
      (place-Placed pool.page_size size pool.live)
