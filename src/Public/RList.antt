-- ===== src/Public/RList.antt =====
-- The circular lists of fram/module/public/src/rlist.c: nodes at addresses, each with the address of
-- the node behind it and of the one before it. A read or a write at an address that holds no node is
-- a fault.
pub mod Chain
pub mod Rings
pub mod Aside
pub mod Back
pub mod Splice
pub mod Writes
pub mod Insert
pub mod Move
use my_resource.Base.{
  ℕ, Bool, true, false, ◌&&◌, Option, none, some, List, ◌==◌, if◌then◌else◌, take,
}
use my_resource.Base.Fault.{Run, ok, fault, ◌>>=◌}

abbrev pub update {ℓ} : {A : Type ℓ} → (ℕ → A) → ℕ → A → ℕ → A
update f a v b = if a == b then v else f b

-- The nodes in memory: `live` says whether an address holds one, `next` and `prev` are its two
-- pointers, and `content` is what the DList around it points to, if there is one.
pub record Store : Type 0 where
  pub live : ℕ → Bool
  pub next : ℕ → ℕ
  pub prev : ℕ → ℕ
  pub content : ℕ → Option (List ℕ)

-- `a->next` and `a->prev`, and the writes to them.
unfoldable pub next_of : ℕ → Store → Run ℕ
next_of a s = if s.live a then ok (s.next a) else fault

unfoldable pub prev_of : ℕ → Store → Run ℕ
prev_of a s = if s.live a then ok (s.prev a) else fault

unfoldable pub set_next : ℕ → ℕ → Store → Run Store
set_next a b s = if s.live a then ok (record s { next = update s.next a b }) else fault

unfoldable pub set_prev : ℕ → ℕ → Store → Run Store
set_prev a b s = if s.live a then ok (record s { prev = update s.prev a b }) else fault

-- `free` of the DList around a node.
unfoldable pub free : ℕ → Store → Run Store
free a s = if s.live a then ok (record s { live = update s.live a false }) else fault

-- `__Rlist_add`
unfoldable pub add : ℕ → ℕ → ℕ → Store → Run Store
unfolding set_next set_prev
add new before behind s =
    set_prev behind new s >>= set_next new behind >>= set_prev new before >>= set_next before new

-- `__Rlist_del`
unfoldable pub del : ℕ → ℕ → Store → Run Store
unfolding set_next set_prev
del before behind s = set_prev behind before s >>= set_next before behind

unfoldable pub init_list_head : ℕ → Store → Run Store
unfolding set_next set_prev
init_list_head a s = set_next a a s >>= set_prev a a

-- `Build_Dlist`: the address of the list node in the DList that `malloc` gives, or `none`, whether
-- it gives the data too, and the bytes behind `data`. `sizeof(*data)` is 1, since `data` is a
-- `void*`. A NULL from `malloc` goes to `memset` or `memcpy`.
unfoldable pub build_dlist : Option ℕ → Bool → List ℕ → Store → Run Store
unfolding init_list_head
build_dlist none given bytes s = fault
build_dlist (some a) given bytes s =
    if given
    then init_list_head a (record s {
      live = update s.live a true;
      content = update s.content a (some (take 1 bytes));
    })
    else fault

unfoldable pub add_head : ℕ → Option ℕ → Bool → List ℕ → Store → Run Store
unfolding build_dlist next_of add
add_head head none given bytes s = fault
add_head head (some a) given bytes s =
    build_dlist (some a) given bytes s >>= λ t. next_of head t >>= λ behind. add a head behind t

-- The links of the new node are not set before `__Rlist_add` sets them.
unfoldable pub add_tail : ℕ → Option ℕ → Bool → List ℕ → Store → Run Store
unfolding prev_of add
add_tail head none given bytes s = fault
add_tail head (some a) given bytes s =
    if given
    then (let t = record s {
      live = update s.live a true;
      next = update s.next a 0;
      prev = update s.prev a 0;
      content = update s.content a (some (take 1 bytes));
    } in
        prev_of head t >>= λ before. add a before head t)
    else fault

-- `RList_del`
unfoldable pub remove : ℕ → Store → Run Store
unfolding next_of prev_of del free
remove a s = prev_of a s >>= λ before. next_of a s >>= λ behind. del before behind s >>= free a

-- `Rlist_replace`
unfoldable pub replace : ℕ → ℕ → Store → Run Store
unfolding next_of prev_of set_next set_prev init_list_head
replace old new s = next_of old s >>= λ behind.
    set_next new behind s >>= set_prev behind new >>= λ t.
    prev_of old t >>= λ before. set_prev new before t >>= set_next before new >>= init_list_head old

-- `Rlist_replace_del`
unfoldable pub replace_del : ℕ → ℕ → Store → Run Store
unfolding replace remove
replace_del old new s = replace old new s >>= remove old

-- `Rlist_move_head`
unfoldable pub move_head : ℕ → ℕ → Store → Run Store
unfolding next_of prev_of del add
move_head a head s = prev_of a s >>= λ before. next_of a s >>= λ behind.
    del before behind s >>= λ t. next_of head t >>= λ first. add a head first t

-- `Rlist_move_tail`
unfoldable pub move_tail : ℕ → ℕ → Store → Run Store
unfolding next_of prev_of del add
move_tail a head s = prev_of a s >>= λ before. next_of a s >>= λ behind.
    del before behind s >>= λ t. prev_of head t >>= λ last. add a last head t

unfoldable pub is_last : ℕ → ℕ → Store → Run Bool
unfolding next_of
is_last a head s = next_of a s >>= λ behind. ok (behind == head)

unfoldable pub is_empty : ℕ → Store → Run Bool
unfolding next_of prev_of
is_empty head s = next_of head s >>= λ behind.
    prev_of head s >>= λ before. ok (behind == head && behind == before)

-- `__Rlist_splice`
unfoldable pub splice : ℕ → ℕ → ℕ → Store → Run Store
unfolding next_of prev_of set_next set_prev
splice a before behind s = next_of a s >>= λ first. prev_of a s >>= λ last.
    set_prev first before s
    >>= set_next before first
    >>= set_next last behind
    >>= set_prev behind last

unfoldable pub splice_head : ℕ → ℕ → Store → Run Store
unfolding next_of is_empty splice init_list_head
splice_head a head s = is_empty a s >>= λ empty.
    if empty
    then ok s
    else (next_of head s >>= λ behind. splice a head behind s >>= init_list_head a)

unfoldable pub splice_tail : ℕ → ℕ → Store → Run Store
unfolding prev_of is_empty splice init_list_head
splice_tail a head s = is_empty a s >>= λ empty.
    if empty
    then ok s
    else (prev_of head s >>= λ before. splice a before head s >>= init_list_head a)
