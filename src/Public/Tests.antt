-- ===== src/Public/Tests.antt =====
-- Runs and concrete uses of what is proved of circular lists.
use my_resource.Base.{◌≡◌, refl, true, false, some, [], ◌∷◌, ◌==◌, ◌||◌, arith}
use my_resource.Base.Fault.{ok, Gives}
use my_resource.Public.RList.{
  update, Store, is_empty, add_head, add_tail, remove, move_head, move_tail, splice_head,
  splice_tail,
}
use my_resource.Public.RList.Rings.{Ring}
use my_resource.Public.RList.Insert.{contents, insert-Ring}
use my_resource.Public.RList.Move.{move-Ring}
use my_resource.Public.RList.Splice.{Spliced, splice-Ring}

-- The heads 1 and 2; behind 1 the nodes 5 and 6, behind 2 the node 7; and the node 9 in no list.
abbrev lists : Store
lists = record {
  live = λ a. a == 1 || (a == 2 || (a == 5 || (a == 6 || (a == 7 || a == 9))));
  next = update (update (update (update (update (λ a. a) 1 5) 5 6) 6 1) 2 7) 7 2;
  prev = update (update (update (update (update (λ a. a) 1 6) 6 5) 5 1) 2 7) 7 2;
  content = λ a. some (a ∷ []);
}

first : Ring lists 1 (5 ∷ 6 ∷ [])
first = record {
  live = (refl, (refl, (refl, tt)));
  distinct = ((ground arith, (ground arith, tt)), ((ground arith, tt), (tt, tt)));
  chain = (refl, refl, (refl, refl, tt));
  closed = refl;
  back = refl;
}

second : Ring lists 2 (7 ∷ [])
second = record {
  live = (refl, (refl, tt));
  distinct = ((ground arith, tt), (tt, tt));
  chain = (refl, refl, tt);
  closed = refl;
  back = refl;
}

insert-Ring_example :
    Gives
      (λ t.
        Ring t 1 (3 ∷ 5 ∷ 6 ∷ [])
        × (contents t (3 ∷ 5 ∷ 6 ∷ []) ≡ some (42 ∷ []) ∷ some (5 ∷ []) ∷ some (6 ∷ []) ∷ []))
      (add_head 1 (some 3) true (42 ∷ 43 ∷ []) lists)
    × Gives
        (λ t.
          Ring t 1 (5 ∷ 6 ∷ 3 ∷ [])
          × (contents t (5 ∷ 6 ∷ 3 ∷ []) ≡ some (5 ∷ []) ∷ some (6 ∷ []) ∷ some (42 ∷ []) ∷ []))
        (add_tail 1 (some 3) true (42 ∷ 43 ∷ []) lists)
insert-Ring_example =
    insert-Ring lists 1 3 (5 ∷ 6 ∷ []) (42 ∷ 43 ∷ []) first
      (ground arith, (ground arith, (ground arith, tt)))

move-Ring_example :
    Gives
      (λ t. Ring t 1 (6 ∷ []) × (t.live 5 ≡ false) × (t.content ≡ lists.content))
      (remove 5 lists)
    × Gives (λ t. Ring t 1 (5 ∷ 6 ∷ []) × (t.content ≡ lists.content)) (move_head 5 1 lists)
    × Gives (λ t. Ring t 1 (6 ∷ 5 ∷ []) × (t.content ≡ lists.content)) (move_tail 5 1 lists)
move-Ring_example = move-Ring lists 1 5 [] (6 ∷ []) first

splice-Ring_example :
    Gives (Spliced lists 1 2 (7 ∷ 5 ∷ 6 ∷ [])) (splice_head 2 1 lists)
    × Gives (Spliced lists 1 2 (5 ∷ 6 ∷ 7 ∷ [])) (splice_tail 2 1 lists)
    × (is_empty 2 lists ≡ ok false)
splice-Ring_example = splice-Ring lists 1 2 (7 ∷ []) (5 ∷ 6 ∷ []) second first (
  (ground arith, (ground arith, tt)),
  ((ground arith, (ground arith, tt)), ((ground arith, (ground arith, tt)), tt)),
)
