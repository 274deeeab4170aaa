-- ===== src/Public/RList/Aside.antt =====
-- A ring and a node that is not in it.
use my_resource.Base.{ℕ, true, false, Option, List, [], ◌∷◌, arith}
use my_resource.Public.RList.{update, Store}
use my_resource.Public.RList.Chain.{
  Fresh, Fresh-last, Chain-update_next, Chain-update_prev, Live-update, Live-update-true,
}
use my_resource.Public.RList.Rings.{Ring, linked_out}

module _ (s : Store) (h a : ℕ) (xs : List ℕ) (r : Ring s h xs) (f : Fresh a (h ∷ xs)) where
  pub Ring-relinked :
      (v w : ℕ) → Ring (record s { next = update s.next a v; prev = update s.prev a w }) h xs
  Ring-relinked v w =
      let closed = r.closed in
      let back = r.back in
      let al = Fresh-last a h xs f.0 f.1 in
      let ah = f.0 in
      record {
        live = r.live;
        distinct = r.distinct;
        chain =
            Chain-update_prev (update s.next a v) s.prev a w h xs f.1
              (Chain-update_next s.next s.prev a v h xs f.0 f.1 r.chain);
        closed = ground arith;
        back = ground arith;
      }

  pub Ring-freed : Ring (record s { live = update s.live a false }) h xs
  Ring-freed = record {
    live = Live-update s.live a false (h ∷ xs) f r.live;
    distinct = r.distinct;
    chain = r.chain;
    closed = r.closed;
    back = r.back;
  }

  -- The node is written by its malloc and what follows it.
  pub Ring-aside :
      (v w : ℕ) (content : ℕ → Option (List ℕ))
      → Ring
          (record {
            live = update s.live a true;
            next = update s.next a v;
            prev = update s.prev a w;
            content = content;
          })
          h
          xs
  Ring-aside v w content =
      let t = Ring-relinked v w in
      record {
        live = Live-update-true s.live a (h ∷ xs) r.live;
        distinct = t.distinct;
        chain = t.chain;
        closed = t.closed;
        back = t.back;
      }

-- A node in a ring of its own goes.
pub Ring-alone_out :
    (s : Store) (h a : ℕ) (xs : List ℕ)
    → Ring s h xs
    → Ring s a []
    → Fresh a (h ∷ xs)
    → Ring (record (linked_out a s) { live = update s.live a false }) h xs
Ring-alone_out s h a xs r alone f =
    rw (alone.closed, alone.back)
      (Ring-freed (record s { next = update s.next a a; prev = update s.prev a a }) h a xs
        (Ring-relinked s h a xs r f a a) f)
