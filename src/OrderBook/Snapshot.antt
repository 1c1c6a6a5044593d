-- ===== src/OrderBook/Snapshot.antt =====
-- cpp/orderbook/depth_snapshot.hpp and the queries of cpp/orderbook/order_book.cpp.
use trade_surveillance_engin.Prelude.{
  ℕ, ℤ, pos, ◌+ℤ◌, map, reverse, length, Text, find, Double, same_price, Option, none, some, List,
  [], ◌∷◌,
}
use trade_surveillance_engin.Fix.{Side, buy, sell}
use trade_surveillance_engin.OrderBook.{OrderQueue, PriceLevels, OrderBook, levels_for}

pub record RestingOrderSummary : Type 0 where
  pub order_id : Text
  pub account_id : Text
  pub qty : ℤ

pub record PriceLevel (F : Type 0) : Type 0 where
  pub price : F
  pub total_qty : ℤ
  pub orders : List RestingOrderSummary

pub record DepthSnapshot (F : Type 0) : Type 0 where
  pub instrument_id : Text
  pub sequence : ℕ
  pub last_event_timestamp_ns : ℤ
  pub bids : List (PriceLevel F)
  pub asks : List (PriceLevel F)

unfoldable pub add_qty : ℤ → OrderQueue → ℤ
add_qty total [] = total
add_qty total (x ∷ q) = add_qty (total +ℤ x.resting.qty) q

unfoldable pub summaries : OrderQueue → List RestingOrderSummary
summaries [] = []
summaries (x ∷ q) =
    record { order_id = x.resting.order_id; account_id = x.resting.account_id; qty = x.resting.qty }
    ∷ summaries q

unfoldable pub level_summary : {F : Type 0} → F × OrderQueue → PriceLevel F
unfolding summaries add_qty
level_summary (price, q) = record {
  price = price;
  total_qty = add_qty (pos 0) q;
  orders = summaries q;
}

unfoldable pub snapshot : {F : Type 0} → OrderBook F → DepthSnapshot F
unfolding level_summary
snapshot b = record {
  instrument_id = b.instrument_id;
  sequence = b.sequence;
  last_event_timestamp_ns = b.last_event_timestamp_ns;
  bids = map level_summary (reverse b.bids);
  asks = map level_summary b.asks;
}

-- The last and the first key of a std::map.
unfoldable pub last_key : {F : Type 0} → PriceLevels F → Option F
last_key [] = none
last_key ((p, q) ∷ []) = some p
last_key (x ∷ y ∷ m) = last_key (y ∷ m)

unfoldable pub first_key : {F : Type 0} → PriceLevels F → Option F
first_key [] = none
first_key ((p, q) ∷ m) = some p

unfoldable pub best_price : {F : Type 0} → OrderBook F → Side → Option F
unfolding last_key first_key
best_price b buy = last_key b.bids
best_price b sell = first_key b.asks

module _ {F : Type 0} ⦃d : Double F⦄ where
  unfoldable pub qty_at_price : OrderBook F → Side → F → ℤ
  unfolding add_qty
  qty_at_price b s p = elim (find same_price p (levels_for b s)) [
    | none ↦ pos 0
    | some q ↦ add_qty (pos 0) q
  ]

  unfoldable pub order_count_at_price : OrderBook F → Side → F → ℕ
  order_count_at_price b s p = elim (find same_price p (levels_for b s)) [
    | none ↦ 0
    | some q ↦ length q
  ]
