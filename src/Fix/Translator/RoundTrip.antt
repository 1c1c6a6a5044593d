-- ===== src/Fix/Translator/RoundTrip.antt =====
-- What a message keeps of an order or an execution.
use trade_surveillance_engin.Prelude.{◌≡◌, refl, ℤ, pos, some, [], Double}
use trade_surveillance_engin.Fix.{
  Side, buy, sell, OrderType, limit, market, new, cancelled, Order, Execution,
}
use trade_surveillance_engin.Fix.Translator.{
  Quickfix, IsQuickfix, side_to_fix, side_from_fix, order_type_to_fix, order_type_from_fix,
  split_time, to_transact_time, from_transact_time, to_new_order_single, from_new_order_single,
  to_order_cancel_request, from_order_cancel_request, to_execution_report, from_execution_report,
}
use trade_surveillance_engin.Fix.Translator.Time.{split_time_lem}

side_back : (s : Side) → side_from_fix (side_to_fix s) ≡ some s
unfolding side_from_fix
side_back buy = refl
side_back sell = refl

order_type_back : (t : OrderType) → order_type_from_fix (order_type_to_fix t) ≡ some t
unfolding order_type_from_fix
order_type_back limit = refl
order_type_back market = refl

module _ {F : Type 0} ⦃d : Double F⦄ (q : Quickfix F) (llround : F → ℤ) (lib : IsQuickfix q) where
  open lib use {get_set, get-add_group, group_none, group_set, group_add, time_t_lem, fraction_lem}

  -- The quantity and the price survive as the text of a number.
  pub record IsSendable (price : F) (qty : ℤ) : Type 0 where
    pub price_kept : q.written price ≡ price
    pub qty_kept : llround (q.written (d.of_int qty)) ≡ qty

  time_back :
      (t : ℤ) → from_transact_time q llround (q.make_time (split_time t).0 (split_time t).1) ≡ t
  unfolding from_transact_time
  time_back t =
      let (n, nanos, small, whole) = split_time_lem t in
      rw (nanos, time_t_lem (split_time t).0 n small, fraction_lem (split_time t).0 n small) whole

  new_order_single_back :
      (o : Order F)
      → IsSendable o.price o.qty
      → from_new_order_single q llround (to_new_order_single q llround o)
        ≡ some (record o { status = new; orig_order_id = [] })
  unfolding from_new_order_single to_new_order_single to_transact_time
  new_order_single_back o h =
      simp (get_set, side_back, order_type_back, time_back, h.price_kept, h.qty_kept)

  order_cancel_request_back :
      (o : Order F)
      → llround (q.written (d.of_int o.qty)) ≡ o.qty
      → from_order_cancel_request q llround (to_order_cancel_request q llround o)
        ≡ some (record o {
          status = cancelled;
          price = d.of_int (pos 0);
          order_type = limit;
          venue = [];
        })
  unfolding from_order_cancel_request to_order_cancel_request to_transact_time
  order_cancel_request_back o h = simp (get_set, side_back, time_back, h)

  -- Where QuickFIX keeps the fields of a message and the nanoseconds of a time, and a price and a quantity
  -- survive as the text of a number: the NewOrderSingle of an order is read back as the order, the time to the
  -- nanosecond, also before 1970, with the status New and an empty original id, whatever it had. The
  -- OrderCancelRequest of an order is read back as the order with the status Cancelled, the price 0, the type
  -- Limit and no venue.
  pub from_order-to_order :
      (o : Order F)
      → IsSendable o.price o.qty
      → (from_new_order_single q llround (to_new_order_single q llround o)
          ≡ some (record o { status = new; orig_order_id = [] }))
        × (from_order_cancel_request q llround (to_order_cancel_request q llround o)
            ≡ some (record o {
              status = cancelled;
              price = d.of_int (pos 0);
              order_type = limit;
              venue = [];
            }))
  from_order-to_order o h = (new_order_single_back o h, order_cancel_request_back o h.qty_kept)

  -- Where QuickFIX keeps the fields of a message, its first group and the nanoseconds of a time, and the price
  -- and the quantity survive as the text of a number: the ExecutionReport of an execution is read back as the
  -- execution, the counterparty in its group included.
  pub from_execution_report-to_execution_report :
      (x : Execution F)
      → IsSendable x.price x.qty
      → from_execution_report q llround (to_execution_report q llround x) ≡ some x
  unfolding from_execution_report to_execution_report to_transact_time
  from_execution_report-to_execution_report x h = simp (
    get_set, get-add_group, group_add, group_set, group_none, side_back, time_back, h.price_kept,
    h.qty_kept,
  )
