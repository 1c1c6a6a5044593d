-- ===== src/OrderBook/TakenId.antt =====
-- The one hole in the invariant: a priority-retaining Replace does not check its new id.
use trade_surveillance_engin.Prelude.{
  ◌≡◌, refl, ◌∙◌, ap, ◌≢◌, some, false, arith, text_eq, text_eq_iff, Double, IsTotal, find, put,
  erase, find-put,
}
use trade_surveillance_engin.Fix.{Order, replaced}
use trade_surveillance_engin.OrderBook.{
  RestingOrder, IndexEntry, OrderBook, applied, deref, assign, get_node, amend_in_place, replace,
  loses_priority, stamped, apply_order, dispatch,
}
use trade_surveillance_engin.OrderBook.Places.{same_entry_iff, deref-assign}
use trade_surveillance_engin.OrderBook.Validity.{IsValid, queue-reindexed}
use trade_surveillance_engin.OrderBook.Soundness.{entry_order}
use trade_surveillance_engin.OrderBook.Refinement.{apply_order_lem, deref-stamped}

module _ {F : Type 0} ⦃d : Double F⦄ ⦃t : IsTotal F⦄ where
  deref-amend :
      (b : OrderBook F) (o : Order F) (e f : IndexEntry F) (r : RestingOrder)
      → deref b e ≡ some r
      → e ≢ f
      → deref (amend_in_place b o e r) f ≡ deref b f
  unfolding deref amend_in_place
  deref-amend b o e f r here apart =
      let r' : RestingOrder = record r { qty = o.qty; order_id = o.order_id } in
      ap (get_node f.it) (
        queue-reindexed (assign b e r')
          (put text_eq o.order_id e (erase text_eq o.orig_order_id b.order_index))
          (assign b e r').next_node f.side f.price)
      ∙ deref-assign b e f r' (λ h. cc)
      ∙ ground (arith, same_entry_iff e f)

  -- A priority-retaining Replace whose new id another resting order has is accepted. That other order
  -- still rests in its queue, but the id now leads to the amended one, and the book is no longer valid.
  pub replace_taken_id :
      (b : OrderBook F) (o : Order F) (e f : IndexEntry F) (r g : RestingOrder)
      → IsValid b
      → o.instrument_id ≡ b.instrument_id
      → o.status ≡ replaced
      → find text_eq o.orig_order_id b.order_index ≡ some e
      → deref b e ≡ some r
      → loses_priority o e r ≡ false
      → find text_eq o.order_id b.order_index ≡ some f
      → deref b f ≡ some g
      → o.order_id ≢ o.orig_order_id
      → ((apply_order b o).1 ≡ applied)
        × (find text_eq o.order_id (apply_order b o).0.order_index ≡ some e)
        × (deref (apply_order b o).0 f ≡ some g)
        × (¬ (IsValid (apply_order b o).0))
  unfolding dispatch replace amend_in_place
  replace_taken_id b o e f r g v ours is present here kept taken there differ =
      let ts = o.timestamp_ns in
      let b1 = stamped b ts in
      let here1 : deref b1 e ≡ some r = deref-stamped b ts e ∙ here in
      let (r0, at_e, id_e) = entry_order b o.orig_order_id e v present in
      let (g0, at_f, id_f) = entry_order b o.order_id f v taken in
      let apart : e ≢ f = λ h. differ (cc) in
      let b2 = amend_in_place b1 o e r in
      let leads : find text_eq o.order_id b2.order_index ≡ some e = ground (
        arith,
        find-put text_eq text_eq_iff o.order_id o.order_id e
            (erase text_eq o.orig_order_id b.order_index),
        text_eq_iff o.order_id o.order_id,
      ) in
      let stays : deref b2 f ≡ some g =
        deref-amend b1 o e f r here1 apart ∙ deref-stamped b ts f ∙ there in
      rw (apply_order_lem b o replaced ours is, replace, present, here1, kept)
        (
          refl,
          leads,
          stays,
          λ w. apart (ground (arith, w.linked.listed f g stays, leads, id_f, at_f, there)),
        )
