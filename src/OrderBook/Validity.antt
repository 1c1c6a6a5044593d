-- ===== src/OrderBook/Validity.antt =====
-- The representation invariant of the book: index and queues point at each other.
use trade_surveillance_engin.Prelude.{
  ℕ, suc, ◌≡◌, refl, ap, subst, ◌⊎◌, none, some, arith, Text, text_eq, Double, IsTotal, find, put,
  erase, Option-cases, List, inl, inr, ℤ,
}
use trade_surveillance_engin.Fix.{Side, buy, sell, Order}
use trade_surveillance_engin.OrderBook.{
  RestingOrder, IndexEntry, OrderBook, make_book, levels_for, set_levels, queue, deref, get_node,
  PriceLevels, OrderQueue, place, resting_of, entry_of, assign, amend_in_place, stamped,
}
use trade_surveillance_engin.OrderBook.Queues.{
  Distinct, QueueChanged, Distinct-append, Distinct-erase_node, Distinct-set_node,
}
use trade_surveillance_engin.OrderBook.Links.{
  IsLinked, add-IsLinked, remove-IsLinked, rename-IsLinked, keep-IsLinked, same-IsLinked,
}
use trade_surveillance_engin.OrderBook.Levels.{
  AreOrdered, put_level-AreOrdered, drop_node-AreOrdered, is_empty-append, is_empty-set_node,
}
use trade_surveillance_engin.OrderBook.Places.{
  unlinked, queue-place, queue-unlinked, queue-assign, deref-place, deref-unlinked, deref-assign,
}

module _ {F : Type 0} ⦃d : Double F⦄ where
  -- Index and queues point at each other, no address stands twice in a queue, and the levels of
  -- both sides ascend and are not empty.
  pub record IsValid (b : OrderBook F) : Type 0 where
    pub linked : IsLinked b.order_index (deref b) b.next_node
    pub distinct : (s : Side) (p : F) → Distinct (queue b s p)
    pub ordered : (s : Side) → AreOrdered (levels_for b s)

  no_order : (i : Text) (e : IndexEntry F) → deref (make_book i) e ≡ none
  unfolding make_book deref queue find get_node
  no_order i e = ground arith

  pub make_book-IsValid : (i : Text) → IsValid (make_book {F = F} i)
  unfolding make_book queue find
  make_book-IsValid i = record {
    linked = record {
      indexed = λ k e h. cc;
      listed = λ e r h. cc (no_order i e);
      fresh = λ e r h. cc (no_order i e);
    };
    distinct =
        λ s p. elim s as (λ s. Distinct (queue (make_book {F = F} i) s p)) [ buy ↦ tt | sell ↦ tt ];
    ordered = λ s. elim s as (λ s. AreOrdered (levels_for (make_book {F = F} i) s)) [
      | buy ↦ tt
      | sell ↦ tt
    ];
  }

  -- The new node's place is vacant.
  pub deref-entry_of : (b : OrderBook F) (o : Order F) → IsValid b → deref b (entry_of b o) ≡ none
  deref-entry_of b o v = elim (Option-cases (deref b (entry_of b o))) [
    | inl e ↦ e
    | inr (r, e) ↦ absurd (omega (arith, v.linked.fresh (entry_of b o) r e))
  ]

  levels-set_levels :
      (b : OrderBook F) (s s' : Side) (m : PriceLevels F)
      → AreOrdered m
      → ((s : Side) → AreOrdered (levels_for b s))
      → AreOrdered (levels_for (set_levels b s m) s')
  levels-set_levels b buy buy m h o = h
  levels-set_levels b buy sell m h o = o sell
  levels-set_levels b sell buy m h o = o buy
  levels-set_levels b sell sell m h o = h

  -- Index, clock and allocator are no part of the levels.
  levels-reindexed :
      (b : OrderBook F) (i : List (Text × IndexEntry F)) (n : ℕ) (s : Side)
      → levels_for (record b { order_index = i; next_node = n }) s ≡ levels_for b s
  levels-reindexed b i n buy = refl
  levels-reindexed b i n sell = refl

  pub queue-reindexed :
      (b : OrderBook F) (i : List (Text × IndexEntry F)) (n : ℕ) (s : Side) (p : F)
      → queue (record b { order_index = i; next_node = n }) s p ≡ queue b s p
  unfolding queue
  queue-reindexed b i n buy p = refl
  queue-reindexed b i n sell p = refl

  index-set_levels :
      (b : OrderBook F) (s : Side) (m : PriceLevels F)
      → (set_levels b s m).order_index ≡ b.order_index
  index-set_levels b buy m = refl
  index-set_levels b sell m = refl

  next-set_levels :
      (b : OrderBook F) (s : Side) (m : PriceLevels F) → (set_levels b s m).next_node ≡ b.next_node
  next-set_levels b buy m = refl
  next-set_levels b sell m = refl

  levels-stamped :
      (b : OrderBook F) (ts : ℤ) (s : Side) → levels_for (stamped b ts) s ≡ levels_for b s
  levels-stamped b ts buy = refl
  levels-stamped b ts sell = refl

  pub queue-stamped :
      (b : OrderBook F) (ts : ℤ) (s : Side) (p : F) → queue (stamped b ts) s p ≡ queue b s p
  unfolding queue
  queue-stamped b ts buy p = refl
  queue-stamped b ts sell p = refl

  pub stamped-IsValid : (b : OrderBook F) (ts : ℤ) → IsValid b → IsValid (stamped b ts)
  unfolding deref
  stamped-IsValid b ts v = record {
    linked =
        same-IsLinked b.order_index (deref b) (deref (stamped b ts)) b.next_node b.next_node
          (λ f. rw (queue-stamped b ts f.side f.price)) refl v.linked;
    distinct = λ s p. rw (queue-stamped b ts s p) (v.distinct s p);
    ordered = λ s. rw (levels-stamped b ts s) (v.ordered s);
  }

module _ {F : Type 0} ⦃d : Double F⦄ ⦃t : IsTotal F⦄ where
  changed-Distinct :
      (b b' : OrderBook F) (s : Side) (p : F) (q : OrderQueue)
      → QueueChanged b b' s p q
      → Distinct q
      → ((s : Side) (p : F) → Distinct (queue b s p))
      → (s' : Side) (p' : F) → Distinct (queue b' s' p')
  changed-Distinct b b' s p q change made old s' p' = rw (change s' p') (ground (arith, old s' p'))

  pub place-IsValid :
      (b : OrderBook F) (o : Order F)
      → IsValid b
      → find text_eq o.order_id b.order_index ≡ none
      → IsValid (place b o)
  unfolding place deref
  place-IsValid b o v absent = record {
    linked =
        add-IsLinked b.order_index (deref b) (deref (place b o)) b.next_node (suc b.next_node)
          v.linked (entry_of b o) (resting_of o) absent (deref-entry_of b o v) (omega arith)
          (omega arith) (λ f. deref-place b o f (deref-entry_of b o v));
    distinct =
        changed-Distinct b (place b o) o.side o.price _ (queue-place b o)
          (Distinct-append (queue b o.side o.price) _ (deref-entry_of b o v)
            (v.distinct o.side o.price))
          v.distinct;
    ordered = λ s. rw (levels-reindexed (set_levels b o.side _) _ _ s) (
        levels-set_levels b o.side s _
          (put_level-AreOrdered o.price _ (levels_for b o.side)
            (is_empty-append (queue b o.side o.price) _) (v.ordered o.side))
          v.ordered);
  }

  pub unlinked-IsValid :
      (b : OrderBook F) (k : Text) (e : IndexEntry F)
      → IsValid b
      → find text_eq k b.order_index ≡ some e
      → IsValid (unlinked b k e)
  unfolding unlinked
  unlinked-IsValid b k e v present = record {
    linked =
        let (r, here, id) = v.linked.indexed k e present in
        same-IsLinked _ _ _ b.next_node _ (λ f. refl) (next-set_levels b e.side _)
          (rw (← id) (
            remove-IsLinked b.order_index (deref b) (deref (unlinked b r.order_id e)) b.next_node
              b.next_node v.linked e r (v.linked.listed e r here)
              (λ f. deref-unlinked b r.order_id e f (v.distinct e.side e.price))));
    distinct =
        changed-Distinct b (unlinked b k e) e.side e.price _ (queue-unlinked b k e)
          (Distinct-erase_node e.it _ (v.distinct e.side e.price)) v.distinct;
    ordered = λ s. rw (levels-reindexed (set_levels b e.side _) _ _ s) (
        levels-set_levels b e.side s _
          (drop_node-AreOrdered e.price e.it _ (levels_for b e.side) (v.ordered e.side)) v.ordered);
  }

  -- `reassigned` is the book after a change of one resting order, in the index too.
  assign-levels :
      (b : OrderBook F) (e : IndexEntry F) (r r' : RestingOrder)
      → deref b e ≡ some r
      → IsValid b
      → ((s : Side) → AreOrdered (levels_for (assign b e r') s))
        × ((s : Side) (p : F) → Distinct (queue (assign b e r') s p))
  unfolding assign deref
  assign-levels b e r r' here v = (
    λ s.
        levels-set_levels b e.side s _
          (put_level-AreOrdered e.price _ (levels_for b e.side)
            (is_empty-set_node e.it r' (queue b e.side e.price) (λ h. cc)) (v.ordered e.side))
          v.ordered,
    changed-Distinct b (assign b e r') e.side e.price _ (queue-assign b e r')
        (Distinct-set_node e.it r' _ (v.distinct e.side e.price)) v.distinct,
  )

  pub index-assign :
      (b : OrderBook F) (e : IndexEntry F) (r : RestingOrder)
      → (assign b e r).order_index ≡ b.order_index
  unfolding assign
  index-assign b e r = index-set_levels b e.side _

  next-assign :
      (b : OrderBook F) (e : IndexEntry F) (r : RestingOrder)
      → (assign b e r).next_node ≡ b.next_node
  unfolding assign
  next-assign b e r = next-set_levels b e.side _

  -- An execution changes the quantity alone.
  pub assign-IsValid :
      (b : OrderBook F) (e : IndexEntry F) (r r' : RestingOrder)
      → deref b e ≡ some r
      → r'.order_id ≡ r.order_id
      → IsValid b
      → IsValid (assign b e r')
  unfolding assign
  assign-IsValid b e r r' here same v =
      let (ordered', distinct') = assign-levels b e r r' here v in
      record {
        linked = rw (index-set_levels b e.side _) (
            same-IsLinked _ _ _ b.next_node _ (λ f. refl) (next-set_levels b e.side _)
              (keep-IsLinked b.order_index (deref b) (deref (assign b e r')) b.next_node v.linked e
                r r' (v.linked.listed e r here) same (λ f. deref-assign b e f r' (λ h. cc))));
        distinct = distinct';
        ordered = ordered';
      }

  -- A priority-retaining amend: the resting order takes a new id, which no other order has.
  pub amend_in_place-IsValid :
      (b : OrderBook F) (o : Order F) (e : IndexEntry F) (r : RestingOrder)
      → deref b e ≡ some r
      → r.order_id ≡ o.orig_order_id
      → (find text_eq o.order_id b.order_index ≡ none) ⊎ (o.order_id ≡ o.orig_order_id)
      → IsValid b
      → IsValid (amend_in_place b o e r)
  unfolding amend_in_place deref
  amend_in_place-IsValid b o e r here id free v =
      let r' : RestingOrder = record r { qty = o.qty; order_id = o.order_id } in
      let (ordered', distinct') = assign-levels b e r r' here v in
      record {
        linked =
            same-IsLinked _ (deref (assign b e r')) (deref (amend_in_place b o e r)) b.next_node _
              (λ f.
                ap (λ q. get_node f.it q)
                  (queue-reindexed (assign b e r')
                    (put text_eq o.order_id e (erase text_eq o.orig_order_id b.order_index))
                    (assign b e r').next_node f.side f.price))
              (next-assign b e r')
              (subst
                (λ k.
                  IsLinked (put text_eq o.order_id e (erase text_eq k b.order_index))
                    (deref (assign b e r')) b.next_node)
                id
                (rename-IsLinked b.order_index (deref b) (deref (assign b e r')) b.next_node
                  v.linked e r r' (v.linked.listed e r here) (rw id free)
                  (λ f. deref-assign b e f r' (λ h. cc))));
        distinct = λ s p. rw (queue-reindexed (assign b e r') _ _ s p) (distinct' s p);
        ordered = λ s. rw (levels-reindexed (assign b e r') _ _ s) (ordered' s);
      }
