-- ===== src/Detectors/Spoofing/Tests.antt =====
-- A tracked order and its cancel.
use trade_surveillance_engin.Prelude.{ℕ, ◌≡◌, refl, none, [], ◌∷◌, codes, text_eq, find, pos}
use trade_surveillance_engin.Ticks.{ticks, new_order}
use trade_surveillance_engin.Fix.{buy, Order, cancelled}
use trade_surveillance_engin.OrderBook.{make_book}
use trade_surveillance_engin.Detectors.Spoofing.{SpoofingLayeringConfig, TrackedOrder, Tracking}
use trade_surveillance_engin.Detectors.Spoofing.Scoring.{handle_cancel}
use trade_surveillance_engin.Detectors.Spoofing.Verdicts.{handle_cancel-Spoofed}

abbrev config : SpoofingLayeringConfig ℕ
config = record {
  alert_threshold = 0;
  slow_time_in_book_ns = pos 5;
  min_opposite_price_move = 1;
  layering_saturation_count = pos 3;
  layering_bonus_weight = 1;
  density_window_ns = pos 30;
}

abbrev placed : TrackedOrder ℕ
placed = record {
  account_id = codes "acct";
  instrument_id = codes "AAPL";
  side = buy;
  remaining_qty = pos 10;
  placed_ts = pos 4;
  depth_ratio_at_placement = 1;
  opposite_best_at_placement = none;
}

abbrev tracking : Tracking ℕ
tracking = record {
  tracked = (codes "A", placed) ∷ [];
  ambient_by_instrument_side = [];
  concurrent_count_by_key = (codes "acct|AAPL|B", pos 1) ∷ [];
}

abbrev cancel_a : Order ℕ
cancel_a = record (new_order (codes "C") 0) { status = cancelled; orig_order_id = codes "A" }

handle_cancel-Spoofed_example :
    find text_eq
      (codes "A")
      (handle_cancel config tracking (make_book (codes "AAPL")) cancel_a).0.tracked
    ≡ none
handle_cancel-Spoofed_example =
    (handle_cancel-Spoofed config tracking (make_book (codes "AAPL")) cancel_a refl).1
