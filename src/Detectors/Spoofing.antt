-- ===== src/Detectors/Spoofing.antt =====
-- cpp/detectors/spoofing_layering_detector.hpp and .cpp: what the detector tracks of the orders that
-- rest, and what each event does to it. Spoofing/Scoring.antt has the score of a cancelled order.
pub mod Scoring
pub mod Verdicts
mod Tests
use trade_surveillance_engin.Prelude.{
  ℕ, Bool, true, false, List, [], ◌∷◌, ◌++◌, Text, codes, text_eq, find, put, erase, or_else, not,
  ◌&&◌, Option, none, some, ℤ, pos, ◌+ℤ◌, ◌-ℤ◌, abs, ltb_ℤ, leb_ℤ, Double, same_price,
  if◌then◌else◌,
}
use trade_surveillance_engin.Fix.{Side, buy, sell, Order, Execution}
use trade_surveillance_engin.OrderBook.{OrderBook}
use trade_surveillance_engin.OrderBook.Snapshot.{best_price, qty_at_price}

pub record SpoofingLayeringConfig (F : Type 0) : Type 0 where
  pub alert_threshold : F
  pub slow_time_in_book_ns : ℤ
  pub min_opposite_price_move : F
  pub layering_saturation_count : ℤ
  pub layering_bonus_weight : F
  pub density_window_ns : ℤ

pub record TrackedOrder (F : Type 0) : Type 0 where
  pub account_id : Text
  pub instrument_id : Text
  pub side : Side
  pub remaining_qty : ℤ
  pub placed_ts : ℤ
  pub depth_ratio_at_placement : F
  pub opposite_best_at_placement : Option F

pub record ConcurrentSample : Type 0 where
  pub timestamp_ns : ℤ
  pub account_id : Text
  pub concurrent_count : ℤ

pub record AmbientTracker (F : Type 0) : Type 0 where
  pub recent_move_timestamps : List ℤ
  pub recent_concurrent_samples : List ConcurrentSample
  pub last_best_price : Option F

pub record Tracking (F : Type 0) : Type 0 where
  pub tracked : List (Text × TrackedOrder F)
  pub ambient_by_instrument_side : List (Text × AmbientTracker F)
  pub concurrent_count_by_key : List (Text × ℤ)

abbrev pub opposite_of : Side → Side
opposite_of buy = sell
opposite_of sell = buy

abbrev side_letter : Side → Text
side_letter buy = codes "B"
side_letter sell = codes "S"

abbrev pub concurrency_key : Text → Text → Side → Text
concurrency_key account_id instrument_id side =
    account_id ++ codes "|" ++ instrument_id ++ codes "|" ++ side_letter side

abbrev pub instrument_side_key : Text → Side → Text
instrument_side_key instrument_id side = instrument_id ++ codes "|" ++ side_letter side

-- `remove_if` of what is further from now than a window
unfoldable pub prune_by {ℓ} : {A : Type ℓ} → (A → ℤ) → ℤ → ℤ → List A → List A
unfolding ◌-ℤ◌
prune_by time_of window now [] = []
prune_by time_of window now (x ∷ xs) =
    if ltb_ℤ window (abs (now -ℤ time_of x))
    then prune_by time_of window now xs
    else x ∷ prune_by time_of window now xs

abbrev pub no_ambient : {F : Type 0} → AmbientTracker F
no_ambient = record {
  recent_move_timestamps = [];
  recent_concurrent_samples = [];
  last_best_price = none;
}

abbrev pub ambient_at : {F : Type 0} → Tracking F → Text → AmbientTracker F
ambient_at t key = or_else (find text_eq key t.ambient_by_instrument_side) no_ambient

-- `--count_it->second <= 0`, then erase
unfoldable pub decrement : List (Text × ℤ) → Text → List (Text × ℤ)
decrement counts key = elim (find text_eq key counts) [
  | none ↦ counts
  | some n ↦
      if leb_ℤ (n -ℤ pos 1) (pos 0)
      then erase text_eq key counts
      else put text_eq key (n -ℤ pos 1) counts
]

module _ {F : Type 0} ⦃d : Double F⦄ where
  abbrev pub has_moved : Option F → Option F → Bool
  has_moved (some last) (some now) = not (same_price now last)
  has_moved _ _ = false

  abbrev latest : Option F → Option F → Option F
  latest last none = last
  latest last (some now) = some now

  -- One turn of the loop over the sides.
  unfoldable pub update_tracker : ℤ → AmbientTracker F → Option F → ℤ → AmbientTracker F
  unfolding prune_by
  update_tracker window tracker price event_ts =
      let moves =
        if has_moved tracker.last_best_price price
        then tracker.recent_move_timestamps ++ event_ts ∷ []
        else tracker.recent_move_timestamps in
      record {
        recent_move_timestamps = prune_by (λ ts. ts) window event_ts moves;
        recent_concurrent_samples =
            prune_by (λ s. s.timestamp_ns) window event_ts tracker.recent_concurrent_samples;
        last_best_price = latest tracker.last_best_price price;
      }

  unfoldable pub update_side : ℤ → Tracking F → OrderBook F → Text → ℤ → Side → Tracking F
  unfolding update_tracker
  update_side window t b instrument_id event_ts side =
      let key = instrument_side_key instrument_id side in
      record t {
        ambient_by_instrument_side =
            put text_eq key (update_tracker window (ambient_at t key) (best_price b side) event_ts)
              t.ambient_by_instrument_side;
      }

  unfoldable pub update_ambient : ℤ → Tracking F → OrderBook F → Text → ℤ → Tracking F
  unfolding update_side
  update_ambient window t b instrument_id event_ts =
      update_side window (update_side window t b instrument_id event_ts buy) b instrument_id
        event_ts sell

  abbrev pub tracked_of : OrderBook F → Order F → TrackedOrder F
  tracked_of b o =
      let level_qty = qty_at_price b o.side o.price in
      record {
        account_id = o.account_id;
        instrument_id = o.instrument_id;
        side = o.side;
        remaining_qty = o.qty;
        placed_ts = o.timestamp_ns;
        depth_ratio_at_placement =
            if ltb_ℤ (pos 0) level_qty
            then d.div (d.of_int o.qty) (d.of_int level_qty)
            else d.of_int (pos 0);
        opposite_best_at_placement = best_price b (opposite_of o.side);
      }

  abbrev pub key_of_tracked : TrackedOrder F → Text
  key_of_tracked x = concurrency_key x.account_id x.instrument_id x.side

  abbrev pub count_at : Tracking F → Text → ℤ
  count_at t key = or_else (find text_eq key t.concurrent_count_by_key) (pos 0)

  unfoldable pub track_new : Tracking F → OrderBook F → Order F → Tracking F
  track_new t b o =
      let x = tracked_of b o in
      let new_count = count_at t (key_of_tracked x) +ℤ pos 1 in
      let ambient_key = instrument_side_key o.instrument_id o.side in
      let tracker = ambient_at t ambient_key in
      let sample : ConcurrentSample = record {
        timestamp_ns = o.timestamp_ns;
        account_id = o.account_id;
        concurrent_count = new_count;
      } in
      record {
        tracked = put text_eq o.order_id x t.tracked;
        concurrent_count_by_key =
            put text_eq (key_of_tracked x) new_count t.concurrent_count_by_key;
        ambient_by_instrument_side =
            put text_eq ambient_key
              (record tracker {
                recent_concurrent_samples = tracker.recent_concurrent_samples ++ sample ∷ [];
              })
              t.ambient_by_instrument_side;
      }

  unfoldable pub erase_tracked : Tracking F → Text → Option (TrackedOrder F) × Tracking F
  unfolding decrement
  erase_tracked t order_id = elim (find text_eq order_id t.tracked) [
    | none ↦ (none, t)
    | some x ↦ (
      some x,
      record t {
        tracked = erase text_eq order_id t.tracked;
        concurrent_count_by_key = decrement t.concurrent_count_by_key (key_of_tracked x);
      },
    )
  ]

  unfoldable pub handle_replace : Tracking F → OrderBook F → Order F → Tracking F
  unfolding erase_tracked track_new
  handle_replace t b o = track_new (erase_tracked t o.orig_order_id).1 b o

  unfoldable pub handle_execution : Tracking F → Execution F → Tracking F
  unfolding erase_tracked
  handle_execution t x = elim (find text_eq x.order_id t.tracked) [
    | none ↦ t
    | some o ↦
        let left = o.remaining_qty -ℤ x.qty in
        let t = record t {
          tracked = put text_eq x.order_id (record o { remaining_qty = left }) t.tracked;
        } in
        if leb_ℤ left (pos 0) then (erase_tracked t x.order_id).1 else t
  ]

  unfoldable pub count_concurrent : Tracking F → Text → Text → Side → ℤ
  count_concurrent t account_id instrument_id side =
      count_at t (concurrency_key account_id instrument_id side)
