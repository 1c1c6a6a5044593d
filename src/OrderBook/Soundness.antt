-- ===== src/OrderBook/Soundness.antt =====
-- Every call of the book keeps its invariant and runs into no undefined behaviour.
use trade_surveillance_engin.Prelude.{
  ◌≡◌, refl, ◌≢◌, ◌⊎◌, none, some, Text, text_eq, Double, IsTotal, find, Option-cases, inl, inr,
  Bool-cases, ltb_ℤ, ◌-ℤ◌, is_zero,
}
use trade_surveillance_engin.Fix.{Order, Execution, OrderStatus, new, cancelled, replaced}
use trade_surveillance_engin.OrderBook.{
  RestingOrder, IndexEntry, OrderBook, Outcome, applied, threw, undefined, deref, assign,
  insert_new, remove_resting, cancel, reinsert, replace, loses_priority, dispatch, apply_order,
  fill, apply_execution, stamped,
}
use trade_surveillance_engin.OrderBook.Places.{remove_resting_lem}
use trade_surveillance_engin.OrderBook.Validity.{
  IsValid, place-IsValid, unlinked-IsValid, assign-IsValid, amend_in_place-IsValid, stamped-IsValid,
  index-assign,
}

module _ {F : Type 0} ⦃d : Double F⦄ where
  -- A call ends in a valid book, and not in undefined behaviour.
  abbrev pub IsSound : OrderBook F × Outcome → Type 0
  IsSound (b, o) = IsValid b × (o ≢ undefined)

  -- The new id of an amend is not that of another resting order.
  abbrev pub IsFreshAmend : OrderBook F → Order F → Type 0
  IsFreshAmend b o = (find text_eq o.order_id b.order_index ≡ none) ⊎ (o.order_id ≡ o.orig_order_id)

module _ {F : Type 0} ⦃d : Double F⦄ ⦃t : IsTotal F⦄ where
  -- What an entry of a valid book's index leads to.
  pub entry_order :
      (b : OrderBook F) (k : Text) (e : IndexEntry F)
      → IsValid b
      → find text_eq k b.order_index ≡ some e
      → (r : RestingOrder) × (deref b e ≡ some r) × (r.order_id ≡ k)
  entry_order b k e v h = v.linked.indexed k e h

  insert_new-IsSound : (b : OrderBook F) (o : Order F) → IsValid b → IsSound (insert_new b o)
  unfolding insert_new
  insert_new-IsSound b o v = elim (Option-cases (find text_eq o.order_id b.order_index)) [
    | inl absent ↦ rw (absent, insert_new) (place-IsValid b o v absent, λ h. cc)
    | inr (e, present) ↦ rw (present, insert_new) (v, λ h. cc)
  ]

  remove_resting-IsSound :
      (b : OrderBook F) (k : Text) (e : IndexEntry F)
      → IsValid b
      → find text_eq k b.order_index ≡ some e
      → IsSound (remove_resting b k e)
  remove_resting-IsSound b k e v present =
      let (r, here, id) = entry_order b k e v present in
      rw (remove_resting_lem b k e (λ h. cc)) (unlinked-IsValid b k e v present, λ h. cc)

  cancel-IsSound : (b : OrderBook F) (k : Text) → IsValid b → IsSound (cancel b k)
  unfolding cancel
  cancel-IsSound b k v = elim (Option-cases (find text_eq k b.order_index)) [
    | inl absent ↦ rw (absent, cancel) (v, λ h. cc)
    | inr (e, present) ↦ rw (present, cancel) (remove_resting-IsSound b k e v present)
  ]

  reinsert-IsSound : (x : OrderBook F × Outcome) (o : Order F) → IsSound x → IsSound (reinsert x o)
  unfolding reinsert
  reinsert-IsSound (b, applied) o v = insert_new-IsSound b (record o { status = new }) v.0
  reinsert-IsSound (b, threw e) o v = v
  reinsert-IsSound (b, undefined) o v = absurd (v.1 refl)

  replace-IsSound :
      (b : OrderBook F) (o : Order F) → IsValid b → IsFreshAmend b o → IsSound (replace b o)
  unfolding replace
  replace-IsSound b o v free = elim (Option-cases (find text_eq o.orig_order_id b.order_index)) [
    | inl absent ↦ rw (absent, replace) (v, λ h. cc)
    | inr (e, present) ↦
        let (r, here, id) = entry_order b o.orig_order_id e v present in
        elim (Bool-cases (loses_priority o e r)) [
          | inl lost ↦
              rw (present, replace, here, lost)
                (reinsert-IsSound _ o (remove_resting-IsSound b o.orig_order_id e v present))
          | inr kept ↦
              rw (present, replace, here, kept)
                (amend_in_place-IsValid b o e r here id free v, λ h. cc)
        ]
  ]

  -- The execution of a resting order: less quantity, or none left.
  fill-IsSound : (b : OrderBook F) (x : Execution F) → IsValid b → IsSound (fill b x)
  unfolding fill
  fill-IsSound b x v = elim (Option-cases (find text_eq x.order_id b.order_index)) [
    | inl absent ↦ rw (absent, fill) (v, λ h. cc)
    | inr (e, present) ↦
        let (r, here, id) = entry_order b x.order_id e v present in
        let b' = assign b e (record r { qty = r.qty -ℤ x.qty }) in
        let v' = assign-IsValid b e r (record r { qty = r.qty -ℤ x.qty }) here refl v in
        elim (Bool-cases (ltb_ℤ r.qty x.qty)) [
          | inl over ↦ rw (present, fill, here, over) (v, λ h. cc)
          | inr under ↦ elim (Bool-cases (is_zero (r.qty -ℤ x.qty))) [
            | inl done ↦
                rw (present, fill, here, under, done)
                  (remove_resting-IsSound b' x.order_id e v'
                    (rw (index-assign b e (record r { qty = r.qty -ℤ x.qty })) present))
            | inr more ↦ rw (present, fill, here, under, more) (v', λ h. cc)
          ]
        ]
  ]

  -- From a valid book, `apply(Execution)` ends in a valid book and never in undefined behaviour.
  pub apply_execution-IsSound :
      (b : OrderBook F) (x : Execution F) → IsValid b → IsSound (apply_execution b x)
  unfolding apply_execution
  apply_execution-IsSound b x v = elim (Bool-cases (text_eq x.instrument_id b.instrument_id)) [
    | inl ours ↦ rw ours (fill-IsSound _ x (stamped-IsValid b x.timestamp_ns v))
    | inr other ↦ rw other (v, λ h. cc)
  ]

  -- From a valid book, `apply(Order)` ends in a valid book and never in undefined behaviour, where a
  -- Replace does not take the id of another resting order.
  pub apply_order-IsSound :
      (b : OrderBook F) (o : Order F)
      → IsValid b
      → (o.status ≡ replaced → IsFreshAmend b o)
      → IsSound (apply_order b o)
  unfolding apply_order dispatch
  apply_order-IsSound b o v free = elim (Bool-cases (text_eq o.instrument_id b.instrument_id)) [
    | inl ours ↦ rw ours (by_status o.status refl)
    | inr other ↦ rw other (v, λ h. cc)
  ]
    where
      by_status :
          (s : OrderStatus) → o.status ≡ s → IsSound (dispatch s (stamped b o.timestamp_ns) o)
      by_status new h = insert_new-IsSound _ o (stamped-IsValid b o.timestamp_ns v)
      by_status cancelled h = cancel-IsSound _ o.orig_order_id (stamped-IsValid b o.timestamp_ns v)
      by_status replaced h = replace-IsSound _ o (stamped-IsValid b o.timestamp_ns v) (free h)
