-- ===== src/Ipc/Shm/Update.antt =====
-- What `shm_setblockinfo` writes is what `shm_getblockinfo` reads.
use my_resource.Base.{
  suc, ◌≡◌, refl, ap, ◌⊎◌, inl, inr, true, false, Bool-cases, Option-cases, Option, none, some,
  List, [], ◌∷◌, arith, length,
}
use my_resource.Base.Fault.{ok}
use my_resource.Ipc.Shm.{
  Str, same_name, Block, Segment, failed, returned, find_block, block_info, replace_block,
  set_block,
}
use my_resource.Ipc.Shm.Places.{same_name_refl}

same_name_eq : (a b : Str) → same_name a b ≡ true → a ≡ b
same_name_eq [] [] e = refl
same_name_eq [] (y ∷ b) e = absurd (cc)
same_name_eq (x ∷ a) [] e = absurd (cc)
same_name_eq (x ∷ a) (y ∷ b) e = ground (arith, same_name_eq a b)

module _ (c : Block) (other : Str) (differ : same_name c.name other ≡ false) where
  -- What a write leaves behind.
  abbrev Replaced : List Block → Option (List Block) → Type 0
  Replaced bs none = find_block bs c.name ≡ none
  Replaced bs (some ds) =
      (find_block ds c.name ≡ some c)
      × (find_block ds other ≡ find_block bs other)
      × (length ds ≡ length bs)

  replace_block-Replaced : (bs : List Block) → Replaced bs (replace_block bs c)
  unfolding replace_block find_block
  replace_block-Replaced [] = refl
  replace_block-Replaced (b ∷ bs) = elim (Option-cases (replace_block bs c)) [
    | inr (ds, e) ↦
        let rest : Replaced bs (some ds) = rw e at (replace_block-Replaced bs) in
        rw e (rw rest.0 refl, rw rest.1 refl, ap suc rest.2)
    | inl e ↦
        let rest : Replaced bs none = rw e at (replace_block-Replaced bs) in
        elim (Bool-cases (same_name b.name c.name)) [
          | inr no_match ↦ rw (e, no_match) (rw (rest, no_match) refl)
          | inl matches ↦
              let apart : same_name b.name other ≡ false =
                rw (same_name_eq b.name c.name matches) differ in
              rw (e, matches)
                (
                  rw (rest, same_name_refl c.name) refl,
                  elim (Option-cases (find_block bs other)) [
                    | inl f ↦ rw (find_block, f, differ, apart) refl
                    | inr (d, f) ↦ rw (find_block, f) refl
                  ],
                  refl,
                )
        ]
  ]

  -- `shm_setblockinfo` returns -1 and changes nothing if no block has the name of the description;
  -- otherwise it returns 0, `shm_getblockinfo` returns the new description for that name and for any
  -- other name what it returned before, and the data and the number of blocks stay as they were.
  pub set_block-block_info :
      (s : Segment)
      → ((set_block s c ≡ (failed, s)) × (block_info true s (some c.name) ≡ ok (failed, none)))
        ⊎ ((t : Segment) × (set_block s c ≡ (returned 0, t))
            × (block_info true t (some c.name) ≡ ok (returned 1, some c))
            × (block_info true t (some other) ≡ block_info true s (some other))
            × (t.bytes ≡ s.bytes)
            × (length t.blocks ≡ length s.blocks))
  unfolding set_block block_info
  set_block-block_info s = elim (Option-cases (replace_block s.blocks c)) [
    | inl e ↦
        let rest : Replaced s.blocks none = rw e at (replace_block-Replaced s.blocks) in
        inl (rw (set_block, e) refl, rw (block_info, rest) refl)
    | inr (ds, e) ↦
        let rest : Replaced s.blocks (some ds) = rw e at (replace_block-Replaced s.blocks) in
        inr (
          record s { blocks = ds },
          rw (set_block, e) refl,
          rw (block_info, rest.0) refl,
          rw (block_info, rest.1) refl,
          refl,
          rest.2,
        )
  ]
