-- ===== src/OrderBook/Instrument.antt =====
-- What no call changes: the instrument of the book. And the sequence number, which counts the calls.
use trade_surveillance_engin.Prelude.{
  ℕ, ◌+◌, ◌%◌, ◌^◌, ◌≡◌, ◌≢◌, refl, ◌∙◌, ap, false, arith, Text, text_eq, text_eq_iff, Double, find,
  Option-cases, Bool-cases, inl, inr, ltb_ℤ, is_zero, ◌-ℤ◌,
}
use trade_surveillance_engin.Fix.{
  Side, buy, sell, Order, Execution, OrderStatus, new, cancelled, replaced,
}
use trade_surveillance_engin.OrderBook.{
  RestingOrder, IndexEntry, OrderBook, PriceLevels, Outcome, applied, threw, undefined,
  instrument_mismatch, set_levels, deref, assign, place, insert_new, remove_resting, cancel,
  reinsert, amend_in_place, replace, loses_priority, dispatch, apply_order, fill, apply_execution,
  stamped,
}

text_ne : (a b : Text) → text_eq a b ≡ false → a ≢ b
text_ne a b h k = ground (arith, h, text_eq_iff a b)

module _ {F : Type 0} ⦃d : Double F⦄ where
  -- Instrument and sequence number of a book.
  abbrev pub label : OrderBook F → Text × ℕ
  label b = (b.instrument_id, b.sequence)

  label-set_levels :
      (b : OrderBook F) (s : Side) (m : PriceLevels F) → label (set_levels b s m) ≡ label b
  label-set_levels b buy m = refl
  label-set_levels b sell m = refl

  label-insert_new : (b : OrderBook F) (o : Order F) → label (insert_new b o).0 ≡ label b
  unfolding insert_new place
  label-insert_new b o = ground (arith, label-set_levels b o.side)

  label-remove_resting :
      (b : OrderBook F) (k : Text) (e : IndexEntry F) → label (remove_resting b k e).0 ≡ label b
  unfolding remove_resting
  label-remove_resting b k e = ground (arith, label-set_levels b e.side)

  label-cancel : (b : OrderBook F) (k : Text) → label (cancel b k).0 ≡ label b
  unfolding cancel
  label-cancel b k = ground (arith, label-remove_resting b k)

  label-assign :
      (b : OrderBook F) (e : IndexEntry F) (r : RestingOrder) → label (assign b e r) ≡ label b
  unfolding assign
  label-assign b e r = label-set_levels b e.side _

  label-reinsert : (p : OrderBook F × Outcome) (o : Order F) → label (reinsert p o).0 ≡ label p.0
  unfolding reinsert
  label-reinsert (b, applied) o = label-insert_new b (record o { status = new })
  label-reinsert (b, threw e) o = refl
  label-reinsert (b, undefined) o = refl

  label-amend_in_place :
      (b : OrderBook F) (o : Order F) (e : IndexEntry F) (r : RestingOrder)
      → label (amend_in_place b o e r) ≡ label b
  unfolding amend_in_place
  label-amend_in_place b o e r = label-assign b e _

  label-replace : (b : OrderBook F) (o : Order F) → label (replace b o).0 ≡ label b
  unfolding replace
  label-replace b o = elim (Option-cases (find text_eq o.orig_order_id b.order_index)) [
    | inl h ↦ rw (h, replace) refl
    | inr (e, h) ↦ elim (Option-cases (deref b e)) [
      | inl h' ↦ rw (h, replace, h') refl
      | inr (r, h') ↦ elim (Bool-cases (loses_priority o e r)) [
        | inl l ↦
            rw (h, replace, h', l)
              (label-reinsert (remove_resting b o.orig_order_id e) o ∙ label-remove_resting b _ e)
        | inr l ↦ rw (h, replace, h', l) (label-amend_in_place b o e r)
      ]
    ]
  ]

  label-dispatch :
      (s : OrderStatus) (b : OrderBook F) (o : Order F) → label (dispatch s b o).0 ≡ label b
  unfolding dispatch
  label-dispatch new b o = label-insert_new b o
  label-dispatch cancelled b o = label-cancel b o.orig_order_id
  label-dispatch replaced b o = label-replace b o

  label-fill : (b : OrderBook F) (x : Execution F) → label (fill b x).0 ≡ label b
  unfolding fill
  label-fill b x = elim (Option-cases (find text_eq x.order_id b.order_index)) [
    | inl h ↦ rw (h, fill) refl
    | inr (e, h) ↦ elim (Option-cases (deref b e)) [
      | inl h' ↦ rw (h, fill, h') refl
      | inr (r, h') ↦
          let b' = assign b e (record r { qty = r.qty -ℤ x.qty }) in
          elim (Bool-cases (ltb_ℤ r.qty x.qty)) [
            | inl over ↦ rw (h, fill, h', over) refl
            | inr under ↦ elim (Bool-cases (is_zero (r.qty -ℤ x.qty))) [
              | inl l ↦
                  rw (h, fill, h', under, l)
                    (label-remove_resting b' x.order_id e ∙ label-assign b e _)
              | inr l ↦ rw (h, fill, h', under, l) (label-assign b e _)
            ]
          ]
    ]
  ]

  -- The call refused the event for its instrument.
  abbrev pub Mismatch : OrderBook F × Outcome → Type 0
  Mismatch x = x.1 ≡ threw instrument_mismatch

  insert_new-no-Mismatch : (b : OrderBook F) (o : Order F) → ¬ (Mismatch (insert_new b o))
  unfolding insert_new
  insert_new-no-Mismatch b o h = ground arith

  remove_resting-no-Mismatch :
      (b : OrderBook F) (k : Text) (e : IndexEntry F) → ¬ (Mismatch (remove_resting b k e))
  unfolding remove_resting
  remove_resting-no-Mismatch b k e h = ground arith

  reinsert-no-Mismatch :
      (x : OrderBook F × Outcome) (o : Order F) → ¬ (Mismatch x) → ¬ (Mismatch (reinsert x o))
  unfolding reinsert
  reinsert-no-Mismatch (b, applied) o k = insert_new-no-Mismatch b (record o { status = new })
  reinsert-no-Mismatch (b, threw e) o k = k
  reinsert-no-Mismatch (b, undefined) o k = k

  replace-no-Mismatch : (b : OrderBook F) (o : Order F) → ¬ (Mismatch (replace b o))
  unfolding replace
  replace-no-Mismatch b o h = elim (Option-cases (find text_eq o.orig_order_id b.order_index)) [
    | inl absent ↦ ground (arith, absent)
    | inr (e, present) ↦ ground (
      arith,
      present,
      reinsert-no-Mismatch (remove_resting b o.orig_order_id e) o
          (remove_resting-no-Mismatch b o.orig_order_id e),
    )
  ]

  dispatch-no-Mismatch :
      (s : OrderStatus) (b : OrderBook F) (o : Order F) → ¬ (Mismatch (dispatch s b o))
  unfolding dispatch cancel
  dispatch-no-Mismatch new b o h = insert_new-no-Mismatch b o h
  dispatch-no-Mismatch cancelled b o h =
      elim (Option-cases (find text_eq o.orig_order_id b.order_index)) [
        | inl absent ↦ ground (arith, absent)
        | inr (e, present) ↦ ground (arith, present, remove_resting-no-Mismatch b o.orig_order_id e)
      ]
  dispatch-no-Mismatch replaced b o h = replace-no-Mismatch b o h

  fill-no-Mismatch : (b : OrderBook F) (x : Execution F) → ¬ (Mismatch (fill b x))
  unfolding fill
  fill-no-Mismatch b x h = elim (Option-cases (find text_eq x.order_id b.order_index)) [
    | inl absent ↦ ground (arith, absent)
    | inr (e, present) ↦ ground (
      arith,
      present,
      λ (r : RestingOrder). remove_resting-no-Mismatch (assign b e r) x.order_id e,
    )
  ]

  -- An event of the book's instrument is counted, modulo 2^64, and never refused for its instrument.
  -- Any other leaves the book as it was and is refused.
  pub data Counts (b : OrderBook F) (id : Text) (result : OrderBook F × Outcome) : Type 0 where
    counted :
        id ≡ b.instrument_id
        → result.0.instrument_id ≡ b.instrument_id
        → result.0.sequence ≡ (b.sequence + 1) % 2 ^ 64
        → ¬ (Mismatch result)
        → Counts b id result
    refused :
        id ≢ b.instrument_id
        → result.0 ≡ b
        → result.1 ≡ threw instrument_mismatch
        → Counts b id result

  -- On an order of the book's instrument `apply(Order)` keeps the instrument, adds one to the sequence
  -- number modulo 2^64, whatever the outcome, and does not refuse it for its instrument; any other
  -- order it refuses, with no change.
  pub apply_order-Counts :
      (b : OrderBook F) (o : Order F) → Counts b o.instrument_id (apply_order b o)
  unfolding apply_order
  apply_order-Counts b o = elim (Bool-cases (text_eq o.instrument_id b.instrument_id)) [
    | inl h ↦
        let s = stamped b o.timestamp_ns in
        let l = label-dispatch o.status s o in
        rw h (
          counted ((text_eq_iff _ _).0 h) (ap (λ x. x.0) l) (ap (λ x. x.1) l)
            (dispatch-no-Mismatch o.status s o))
    | inr h ↦ rw h (refused (text_ne _ _ h) refl refl)
  ]

  -- On an execution of the book's instrument `apply(Execution)` keeps the instrument, adds one to the
  -- sequence number modulo 2^64, whatever the outcome, and does not refuse it for its instrument; any
  -- other execution it refuses, with no change.
  pub apply_execution-Counts :
      (b : OrderBook F) (x : Execution F) → Counts b x.instrument_id (apply_execution b x)
  unfolding apply_execution
  apply_execution-Counts b x = elim (Bool-cases (text_eq x.instrument_id b.instrument_id)) [
    | inl h ↦
        let s = stamped b x.timestamp_ns in
        let l = label-fill s x in
        rw h (
          counted ((text_eq_iff _ _).0 h) (ap (λ y. y.0) l) (ap (λ y. y.1) l)
            (fill-no-Mismatch s x))
    | inr h ↦ rw h (refused (text_ne _ _ h) refl refl)
  ]
