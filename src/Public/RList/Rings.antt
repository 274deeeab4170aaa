-- ===== src/Public/RList/Rings.antt =====
-- Circular lists as rings of nodes: where a ring begins does not matter, and a chain of nodes can be
-- put into it, and a node taken out of it.
use my_resource.Base.{ℕ, ◌≡◌, true, List, [], ◌∷◌, ◌++◌, arith}
use mathlib.Core.List.{append-nil}
use my_resource.Public.RList.{update, Store}
use my_resource.Public.RList.Chain.{
  Fresh, Distinct, Live, Chain, last, Fresh-last, Chain-update_next, Chain-update_prev,
  Chain-update-last, Chain-append, Chain-split, last-append, Fresh-append, Live-append, Live-split,
  Distinct-split, Apart, Distinct-Apart, Distinct-append, Apart-sym, Apart-last,
}

-- From the node `h` the pointers lead through the nodes `xs` and back to `h`, in both directions.
pub record Ring (s : Store) (h : ℕ) (xs : List ℕ) : Type 0 where
  pub live : Live s.live (h ∷ xs)
  pub distinct : Distinct (h ∷ xs)
  pub chain : Chain s.next s.prev h xs
  pub closed : s.next (last h xs) ≡ h
  pub back : s.prev h ≡ last h xs

-- The store with the nodes from `first` to `end` linked in between two nodes.
abbrev pub linked_in : ℕ → ℕ → ℕ → ℕ → Store → Store
linked_in first end before behind s = record s {
  next = update (update s.next before first) end behind;
  prev = update (update s.prev first before) behind end;
}

pub Ring-rotate :
    (s : Store) (h x : ℕ) (xs ys : List ℕ) → Ring s h (xs ++ x ∷ ys) → Ring s x (ys ++ h ∷ xs)
Ring-rotate s h x xs ys r =
    let c = Chain-split s.next s.prev h x xs ys r.chain in
    let e = last-append h x xs ys in
    let d = Distinct-split x (h ∷ xs) ys r.distinct in
    let l = Live-split s.live (h ∷ xs) (x ∷ ys) r.live in
    let apart = Apart-sym (h ∷ xs) (x ∷ ys) (Distinct-Apart (h ∷ xs) (x ∷ ys) r.distinct) in
    let closed = r.closed in
    let back = r.back in
    record {
      live = Live-append s.live (x ∷ ys) (h ∷ xs) l.1 l.0;
      distinct = Distinct-append (x ∷ ys) (h ∷ xs) d.1 d.0 apart;
      chain =
          Chain-append s.next s.prev x h ys xs c.3 (ground (arith, e, closed))
            (ground (arith, e, back)) c.0;
      closed = rw (last-append x h ys xs) c.1;
      back = rw (last-append x h ys xs) c.2;
    }

module _ (s : Store) (h x : ℕ) (xs : List ℕ) where
  abbrev end : ℕ
  end = last x xs

  module _ (behind : ℕ) (c : Chain s.next s.prev x xs) (d : Distinct (x ∷ xs))
      (f : Fresh h (x ∷ xs)) (g : Fresh behind xs) where
    Chain-linked_in : Chain (linked_in x end h behind s).next (linked_in x end h behind s).prev x xs
    Chain-linked_in =
        let n = update s.next h x in
        let p = update s.prev x h in
        Chain-update_prev (update n end behind) p behind end x xs g (
          Chain-update_prev (update n end behind) s.prev x h x xs d.0 (
            Chain-update-last n s.prev behind x xs d
              (Chain-update_next s.next s.prev h x x xs f.0 f.1 c)))

  -- A chain of nodes that are not in the ring becomes its part behind `h`.
  pub Ring-linked_in :
      (ys : List ℕ)
      → Ring s h ys
      → Live s.live (x ∷ xs)
      → Distinct (x ∷ xs)
      → Chain s.next s.prev x xs
      → Apart (h ∷ ys) (x ∷ xs)
      → Ring (linked_in x (last x xs) h (s.next h) s) h (x ∷ xs ++ ys)
  Ring-linked_in [] r l d c apart =
      let closed = r.closed in
      let hl = Fresh-last h x xs apart.0.0 apart.0.1 in
      let hx = apart.0.0 in
      rw (append-nil xs) (record {
        live = (r.live.0, l);
        distinct = (apart.0, d);
        chain = (
          ground arith,
          ground arith,
          Chain-linked_in (s.next h) c d apart.0 (rw closed apart.0.1),
        );
        closed = ground arith;
        back = ground arith;
      })
  Ring-linked_in (y ∷ ys) r l d c apart =
      let closed = r.closed in
      let back = r.back in
      let c0 = r.chain.0 in
      let c1 = r.chain.1 in
      let hx = apart.0.0 in
      let yx = apart.1.0.0 in
      let hl = Fresh-last h x xs apart.0.0 apart.0.1 in
      let yl = Fresh-last y x xs apart.1.0.0 apart.1.0.1 in
      let hy = r.distinct.0.0 in
      let n = update s.next h x in
      let p = update s.prev x h in
      let away = Apart-sym (y ∷ ys) (x ∷ xs) apart.1 in
      let last_h = Fresh-last h y ys r.distinct.0.0 r.distinct.0.1 in
      let lx : Fresh (last x xs) (y ∷ ys) = Apart-last x xs (y ∷ ys) away in
      let xy : Fresh x ys = away.0.1 in
      let last_l = Fresh-last (last x xs) y ys lx.0 lx.1 in
      let rest =
        Chain-update_prev n s.prev x h y ys xy
          (Chain-update_next s.next s.prev h x y ys r.distinct.0.0 r.distinct.0.1 r.chain.2) in
      let tail =
        Chain-update_prev (update n (last x xs) y) p y (last x xs) y ys r.distinct.1.0
          (Chain-update_next n p (last x xs) y y ys lx.0 lx.1 rest) in
      record {
        live = (r.live.0, Live-append s.live (x ∷ xs) (y ∷ ys) l r.live.1);
        distinct = (
          Fresh-append h (x ∷ xs) (y ∷ ys) apart.0 r.distinct.0,
          Distinct-append (x ∷ xs) (y ∷ ys) d r.distinct.1 (Apart-sym (y ∷ ys) (x ∷ xs) apart.1),
        );
        chain = (
          ground arith,
          ground arith,
          Chain-append (linked_in x (last x xs) h (s.next h) s).next
              (linked_in x (last x xs) h (s.next h) s).prev x y xs ys
              (Chain-linked_in (s.next h) c d apart.0 (rw c0 apart.1.0.1)) (ground arith)
              (ground arith) (rw c0 tail),
        );
        closed = ground (arith, last-append x y xs ys);
        back = ground (arith, last-append x y xs ys);
      }

-- The nodes around `x` linked to each other.
abbrev pub linked_out : ℕ → Store → Store
linked_out x s = record s {
  next = update s.next (s.prev x) (s.next x);
  prev = update s.prev (s.next x) (s.prev x);
}

pub Ring-linked_out :
    (s : Store) (x h : ℕ) (xs : List ℕ) → Ring s x (h ∷ xs) → Ring (linked_out x s) h xs
Ring-linked_out s x h xs r =
    let back = r.back in
    let c0 = r.chain.0 in
    record {
      live = r.live.1;
      distinct = r.distinct.1;
      chain =
          rw (c0, back)
            (Chain-update_prev (update s.next (last h xs) h) s.prev h (last h xs) h xs
              r.distinct.1.0 (Chain-update-last s.next s.prev h h xs r.distinct.1 r.chain.2));
      closed = ground arith;
      back = ground arith;
    }

-- `new` in the place of `old`, which is left in a ring of its own.
abbrev pub swapped : ℕ → ℕ → Store → Store
swapped old new s =
    let behind = s.next old in
    let before = update s.prev behind new old in
    record s {
      next = update (update (update s.next new behind) before new) old old;
      prev = update (update (update s.prev behind new) new before) old old;
    }

pub Ring-swapped :
    (s : Store) (old new : ℕ) (xs : List ℕ)
    → Ring s old xs
    → s.live new ≡ true
    → Fresh new (old ∷ xs)
    → Ring (swapped old new s) new xs × Ring (swapped old new s) old []
Ring-swapped s old new [] r l f =
    let closed = r.closed in
    let on = f.0 in
    (
      record {
        live = (l, tt);
        distinct = (tt, tt);
        chain = tt;
        closed = ground arith;
        back = ground arith;
      },
      record {
        live = r.live;
        distinct = (tt, tt);
        chain = tt;
        closed = ground arith;
        back = ground arith;
      },
    )
Ring-swapped s old new (x ∷ xs) r l f =
    let closed = r.closed in
    let back = r.back in
    let on = f.0 in
    let xn = f.1.0 in
    let c0 = r.chain.0 in
    let c1 = r.chain.1 in
    let ox = r.distinct.0.0 in
    let nl = Fresh-last new x xs f.1.0 f.1.1 in
    let ol = Fresh-last old x xs r.distinct.0.0 r.distinct.0.1 in
    let before : update s.prev (s.next old) new old ≡ last x xs = ground arith in
    let n1 = update s.next new x in
    let n2 = update n1 (last x xs) new in
    let n3 = update n2 old old in
    let p1 = update s.prev x new in
    let p2 = update p1 new (last x xs) in
    let chain = Chain-update_prev n3 p2 old old x xs r.distinct.0.1 (
      Chain-update_prev n3 p1 new (last x xs) x xs f.1.1 (
        Chain-update_prev n3 s.prev x new x xs r.distinct.1.0 (
          Chain-update_next n2 s.prev old old x xs r.distinct.0.0 r.distinct.0.1 (
            Chain-update-last n1 s.prev new x xs r.distinct.1
              (Chain-update_next s.next s.prev new x x xs f.1.0 f.1.1 r.chain.2))))) in
    rw (before, c0)
      (
        record {
          live = (l, r.live.1);
          distinct = (f.1, r.distinct.1);
          chain = (ground arith, ground arith, chain);
          closed = ground arith;
          back = ground arith;
        },
        record {
          live = (r.live.0, tt);
          distinct = (tt, tt);
          chain = tt;
          closed = ground arith;
          back = ground arith;
        },
      )
