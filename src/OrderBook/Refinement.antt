-- ===== src/OrderBook/Refinement.antt =====
-- Each call of the book does what the specification of `Priority` says to every list of orders.
use trade_surveillance_engin.Prelude.{
  ◌≡◌, refl, sym, ◌∙◌, ap, ◌≢◌, none, some, true, false, ◌&&◌, if◌then◌else◌, arith, Text, ℤ,
  text_eq, text_eq_iff, Double, IsTotal, same_price, find, put, erase, find-erase, Option-cases,
  inl, inr, ◌⊎◌, Bool-cases, ltb_ℤ, ◌-ℤ◌, is_zero, List, [], ◌∷◌, ◌++◌,
}
use trade_surveillance_engin.Fix.{
  Side, side_eq, Order, Execution, OrderStatus, new, cancelled, replaced,
}
use trade_surveillance_engin.OrderBook.{
  RestingOrder, IndexEntry, OrderBook, applied, threw, duplicate_order_id, execution_not_resting,
  overfill, deref, queue, resting_of, place, assign, insert_new, cancel, reinsert, amend_in_place,
  replace, loses_priority, fill, stamped, apply_order, apply_execution, dispatch,
}
use trade_surveillance_engin.OrderBook.Places.{unlinked, remove_resting_lem}
use trade_surveillance_engin.OrderBook.Validity.{
  IsValid, stamped-IsValid, assign-IsValid, index-assign, queue-stamped, queue-reindexed,
}
use trade_surveillance_engin.OrderBook.Soundness.{entry_order, IsFreshAmend}
use trade_surveillance_engin.OrderBook.Priority.{
  orders, resting_orders, without, updated, without_lacking, queue-absent, orders-unlinked,
  orders-assign, orders-place,
}

without-updated :
    (k : Text) (f : RestingOrder → RestingOrder) (l : List RestingOrder)
    → ((r : RestingOrder) → (f r).order_id ≡ r.order_id)
    → without k (updated k f l) ≡ without k l
unfolding without updated
without-updated k f [] h = refl
without-updated k f (r ∷ l) h = ground (arith, h r, without-updated k f l h)

module _ {F : Type 0} ⦃d : Double F⦄ where
  orders-stamped :
      (b : OrderBook F) (ts : ℤ) (s : Side) (p : F) → orders (stamped b ts) s p ≡ orders b s p
  unfolding orders
  orders-stamped b ts s p = rw (queue-stamped b ts s p)

  pub deref-stamped :
      (b : OrderBook F) (ts : ℤ) (e : IndexEntry F) → deref (stamped b ts) e ≡ deref b e
  unfolding deref
  deref-stamped b ts e = rw (queue-stamped b ts e.side e.price)

  -- An order of this book's instrument is stamped and goes to its handler.
  pub apply_order_lem :
      (b : OrderBook F) (o : Order F) (s : OrderStatus)
      → o.instrument_id ≡ b.instrument_id
      → o.status ≡ s
      → apply_order b o ≡ dispatch s (stamped b o.timestamp_ns) o
  unfolding apply_order
  apply_order_lem b o s ours is =
      rw ((text_eq_iff o.instrument_id b.instrument_id).1 ours)
        (ap (λ s'. dispatch s' (stamped b o.timestamp_ns) o) is)

module _ {F : Type 0} ⦃d : Double F⦄ ⦃t : IsTotal F⦄ where
  cancel_refines :
      (b : OrderBook F) (k : Text)
      → IsValid b
      → ((cancel b k).1 ≡ applied)
        × ((s : Side) (p : F) → orders (cancel b k).0 s p ≡ without k (orders b s p))
  unfolding cancel orders
  cancel_refines b k v = elim (Option-cases (find text_eq k b.order_index)) [
    | inl absent ↦ (
      rw (absent, cancel),
      λ s p.
          rw (absent, cancel)
            (sym (without_lacking k (queue b s p) (queue-absent b k s p v absent))),
    )
    | inr (e, present) ↦
        let (r, here, id) = entry_order b k e v present in
        let gone = remove_resting_lem b k e (λ h. cc) in
        (
          rw (present, cancel, gone),
          λ s p. rw (present, cancel, gone) (orders-unlinked b k e v present s p),
        )
  ]

  -- In a valid book a Cancel of its instrument always succeeds: it takes the order named by
  -- `orig_order_id` out of its queue, changes nothing if there is no such order, and keeps the priority of
  -- all other orders.
  pub apply_cancel_refines :
      (b : OrderBook F) (o : Order F)
      → IsValid b
      → o.instrument_id ≡ b.instrument_id
      → o.status ≡ cancelled
      → ((apply_order b o).1 ≡ applied)
        × ((s : Side) (p : F)
            → orders (apply_order b o).0 s p ≡ without o.orig_order_id (orders b s p))
  unfolding dispatch
  apply_cancel_refines b o v ours is =
      let (done, change) = cancel_refines _ o.orig_order_id (stamped-IsValid b o.timestamp_ns v) in
      rw (apply_order_lem b o cancelled ours is) (
        done,
        λ s p. change s p ∙ ap (without o.orig_order_id) (orders-stamped b o.timestamp_ns s p),
      )

  -- In a valid book a New of its instrument is refused exactly if an order of its id rests, and then moves
  -- no order; otherwise it is the last at its side and price, and no other queue changes.
  pub apply_new_refines :
      (b : OrderBook F) (o : Order F)
      → IsValid b
      → o.instrument_id ≡ b.instrument_id
      → o.status ≡ new
      → ((find text_eq o.order_id b.order_index ≡ none)
          × ((apply_order b o).1 ≡ applied)
          × ((s : Side) (p : F)
              → orders (apply_order b o).0 s p ≡ (
                  if side_eq o.side s && same_price o.price p
                  then orders b s p ++ resting_of o ∷ []
                  else orders b s p)))
        ⊎ ((find text_eq o.order_id b.order_index ≢ none)
            × ((apply_order b o).1 ≡ threw duplicate_order_id)
            × ((s : Side) (p : F) → orders (apply_order b o).0 s p ≡ orders b s p))
  unfolding dispatch insert_new
  apply_new_refines b o v ours is =
      let ts = o.timestamp_ns in
      rw (apply_order_lem b o new ours is)
        (elim (Option-cases (find text_eq o.order_id b.order_index)) [
          | inl absent ↦ inl (
            absent,
            rw (absent, insert_new),
            λ s p.
                rw (absent, insert_new)
                  (rw (orders-place (stamped b ts) o s p, orders-stamped b ts s p)),
          )
          | inr (e, present) ↦ inr (
            (λ h. cc),
            rw (present, insert_new),
            λ s p. rw (present, insert_new) (orders-stamped b ts s p),
          )
        ])

  -- In a valid book of the execution's instrument, a fill within the resting quantity always succeeds: what
  -- is left stays where it was in its queue, nothing left leaves the book, and no other order moves.
  pub apply_execution_refines :
      (b : OrderBook F) (x : Execution F) (e : IndexEntry F) (r : RestingOrder)
      → IsValid b
      → x.instrument_id ≡ b.instrument_id
      → find text_eq x.order_id b.order_index ≡ some e
      → deref b e ≡ some r
      → ltb_ℤ r.qty x.qty ≡ false
      → let left = r.qty -ℤ x.qty in
        ((apply_execution b x).1 ≡ applied)
        × ((s : Side) (p : F)
            → orders (apply_execution b x).0 s p ≡ (
                if is_zero left
                then without x.order_id (orders b s p)
                else updated x.order_id (λ y. record y { qty = left }) (orders b s p)))
  unfolding apply_execution fill
  apply_execution_refines b x e r v ours present here under =
      let left = r.qty -ℤ x.qty in
      let b1 = stamped b x.timestamp_ns in
      let v1 = stamped-IsValid b x.timestamp_ns v in
      let r' : RestingOrder = record r { qty = left } in
      let f : RestingOrder → RestingOrder = λ y. record y { qty = left } in
      let here1 : deref b1 e ≡ some r = deref-stamped b x.timestamp_ns e ∙ here in
      let v2 = assign-IsValid b1 e r r' here1 refl v1 in
      let present2 : find text_eq x.order_id (assign b1 e r').order_index ≡ some e =
        rw (index-assign b1 e r') present in
      rw ((text_eq_iff x.instrument_id b.instrument_id).1 ours, fill, present, here1, under)
        (elim (Bool-cases (is_zero left)) [
          | inl done ↦
              let b2 = assign b1 e r' in
              let (r2, here2, id2) = entry_order b2 x.order_id e v2 present2 in
              let gone = remove_resting_lem b2 x.order_id e (λ h. cc) in
              rw (done, gone)
                (
                  refl,
                  λ s p.
                      orders-unlinked b2 x.order_id e v2 present2 s p
                      ∙ ap (without x.order_id)
                          (orders-assign b1 x.order_id e r r' f v1 present here1 refl s p)
                      ∙ without-updated x.order_id f (orders b1 s p) (λ y. refl)
                      ∙ ap (without x.order_id) (orders-stamped b x.timestamp_ns s p),
                )
          | inr more ↦ rw more (
            refl,
            λ s p.
                orders-assign b1 x.order_id e r r' f v1 present here1 refl s p
                ∙ ap (updated x.order_id f) (orders-stamped b x.timestamp_ns s p),
          )
        ])

  -- In a valid book of the execution's instrument, an execution that names no resting order, or exceeds its
  -- quantity, throws and moves no order.
  pub apply_execution_refused :
      (b : OrderBook F) (x : Execution F)
      → IsValid b
      → x.instrument_id ≡ b.instrument_id
      → ((find text_eq x.order_id b.order_index ≡ none)
          → ((apply_execution b x).1 ≡ threw execution_not_resting)
            × ((s : Side) (p : F) → orders (apply_execution b x).0 s p ≡ orders b s p))
        × ((e : IndexEntry F) (r : RestingOrder)
            → find text_eq x.order_id b.order_index ≡ some e
            → deref b e ≡ some r
            → ltb_ℤ r.qty x.qty ≡ true
            → ((apply_execution b x).1 ≡ threw overfill)
              × ((s : Side) (p : F) → orders (apply_execution b x).0 s p ≡ orders b s p))
  unfolding apply_execution fill
  apply_execution_refused b x v ours =
      let same = (text_eq_iff x.instrument_id b.instrument_id).1 ours in
      rw same (
        (λ absent. rw (fill, absent) (refl, orders-stamped b x.timestamp_ns)),
        λ e r present here over.
            let here1 : deref (stamped b x.timestamp_ns) e ≡ some r =
              deref-stamped b x.timestamp_ns e ∙ here in
            rw (fill, present, here1, over) (refl, orders-stamped b x.timestamp_ns),
      )

  -- In a valid book of the order's instrument, a Replace at the same price that does not raise the quantity
  -- always succeeds: the order keeps its place in its queue, with the new quantity and id, and no other order
  -- changes.
  pub replace_keeps_priority :
      (b : OrderBook F) (o : Order F) (e : IndexEntry F) (r : RestingOrder)
      → IsValid b
      → o.instrument_id ≡ b.instrument_id
      → o.status ≡ replaced
      → find text_eq o.orig_order_id b.order_index ≡ some e
      → deref b e ≡ some r
      → loses_priority o e r ≡ false
      → ((apply_order b o).1 ≡ applied)
        × ((s : Side) (p : F)
            → orders (apply_order b o).0 s p
              ≡ updated o.orig_order_id
                  (λ y. record y { qty = o.qty; order_id = o.order_id })
                  (orders b s p))
  unfolding dispatch replace amend_in_place orders
  replace_keeps_priority b o e r v ours is present here kept =
      let ts = o.timestamp_ns in
      let b1 = stamped b ts in
      let f : RestingOrder → RestingOrder = λ y. record y { qty = o.qty; order_id = o.order_id } in
      let here1 : deref b1 e ≡ some r = deref-stamped b ts e ∙ here in
      rw (apply_order_lem b o replaced ours is, replace, present, here1, kept)
        (
          refl,
          λ s p.
              ap resting_orders (
                queue-reindexed (assign b1 e (f r))
                  (put text_eq o.order_id e (erase text_eq o.orig_order_id b.order_index))
                  (assign b1 e (f r)).next_node s p)
              ∙ orders-assign b1 o.orig_order_id e r (f r) f (stamped-IsValid b ts v) present here1
                  refl s p
              ∙ ap (updated o.orig_order_id f) (orders-stamped b ts s p),
        )

  insert_new-absent :
      (b : OrderBook F) (o : Order F)
      → find text_eq o.order_id b.order_index ≡ none
      → insert_new b o ≡ (place b o, applied)
  unfolding insert_new
  insert_new-absent b o absent = rw (insert_new, absent)

  find-unlinked :
      (b : OrderBook F) (k j : Text) (e : IndexEntry F)
      → (find text_eq j b.order_index ≡ none) ⊎ (j ≡ k)
      → find text_eq j (unlinked b k e).order_index ≡ none
  unfolding unlinked
  find-unlinked b k j e free =
      ground (arith, find-erase text_eq text_eq_iff k j b.order_index, text_eq_iff k j)

  -- A priority-losing amend is a removal and an insertion.
  replace-moved :
      (b : OrderBook F) (o : Order F) (e : IndexEntry F) (r : RestingOrder)
      → find text_eq o.orig_order_id b.order_index ≡ some e
      → deref b e ≡ some r
      → loses_priority o e r ≡ true
      → IsFreshAmend b o
      → replace b o ≡ (place (unlinked b o.orig_order_id e) (record o { status = new }), applied)
  unfolding replace reinsert
  replace-moved b o e r present here lost free =
      rw (replace, present, here, lost)
        (ap (λ x. reinsert x o) (remove_resting_lem b o.orig_order_id e (λ h. cc))
          ∙ insert_new-absent (unlinked b o.orig_order_id e) (record o { status = new })
              (find-unlinked b o.orig_order_id o.order_id e free))

  -- In a valid book of the order's instrument, a Replace to another price or a larger quantity, whose new id
  -- no other resting order has, always succeeds: the order leaves its queue and is the last at the new side and price.
  pub replace_loses_priority :
      (b : OrderBook F) (o : Order F) (e : IndexEntry F) (r : RestingOrder)
      → IsValid b
      → o.instrument_id ≡ b.instrument_id
      → o.status ≡ replaced
      → find text_eq o.orig_order_id b.order_index ≡ some e
      → deref b e ≡ some r
      → loses_priority o e r ≡ true
      → IsFreshAmend b o
      → ((apply_order b o).1 ≡ applied)
        × ((s : Side) (p : F)
            → orders (apply_order b o).0 s p ≡ (
                if side_eq o.side s && same_price o.price p
                then without o.orig_order_id (orders b s p) ++ resting_of o ∷ []
                else without o.orig_order_id (orders b s p)))
  unfolding dispatch
  replace_loses_priority b o e r v ours is present here lost free =
      let ts = o.timestamp_ns in
      let b1 = stamped b ts in
      let moved = replace-moved b1 o e r present (deref-stamped b ts e ∙ here) lost free in
      rw (apply_order_lem b o replaced ours is, moved)
        (
          refl,
          λ s p.
              orders-place (unlinked b1 o.orig_order_id e) (record o { status = new }) s p
              ∙ rw (
                orders-unlinked b1 o.orig_order_id e (stamped-IsValid b ts v) present s p,
                orders-stamped b ts s p,
              ),
        )
