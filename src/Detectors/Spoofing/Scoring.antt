-- ===== src/Detectors/Spoofing/Scoring.antt =====
-- cpp/detectors/spoofing_layering_detector.cpp: the score of a cancelled order, and `evaluate`.
use trade_surveillance_engin.Prelude.{
  ℕ, ◌+◌, Bool, true, false, List, [], ◌∷◌, ◌++◌, Text, codes, text_eq, find, Option, none, some, ℤ,
  pos, ◌-ℤ◌, ltb, ltb_ℤ, Double, clamp, length, if◌then◌else◌,
}
use trade_surveillance_engin.Fix.{
  Side, buy, sell, Order, Event, order, execution, new, cancelled, replaced,
}
use trade_surveillance_engin.OrderBook.{OrderBook}
use trade_surveillance_engin.OrderBook.Snapshot.{best_price}
use trade_surveillance_engin.Detectors.{Alert, to_int64}
use trade_surveillance_engin.Detectors.Spoofing.{
  SpoofingLayeringConfig, TrackedOrder, ConcurrentSample, Tracking, opposite_of,
  instrument_side_key, update_ambient, track_new, erase_tracked, handle_replace, handle_execution,
  count_concurrent,
}

module _ {F : Type 0} ⦃d : Double F⦄ where
  abbrev pub zero_score : F
  zero_score = d.of_int (pos 0)

  abbrev pub one_score : F
  one_score = d.of_int (pos 1)

  abbrev pub unit_clamp : F → F
  unit_clamp v = clamp v zero_score one_score

  -- The sum and the number of the samples of other accounts.
  unfoldable pub other_samples : Text → List ConcurrentSample → F → ℕ → F × ℕ
  other_samples account_id [] sum count = (sum, count)
  other_samples account_id (s ∷ samples) sum count =
      if text_eq s.account_id account_id
      then other_samples account_id samples sum count
      else other_samples account_id samples (d.add sum (d.of_int s.concurrent_count)) (count + 1)

  unfoldable pub typical_concurrent : Tracking F → TrackedOrder F → F
  unfolding other_samples
  typical_concurrent t x =
      elim (find text_eq (instrument_side_key x.instrument_id x.side)
        t.ambient_by_instrument_side) [
          | none ↦ zero_score
          | some tracker ↦
              let (sum, count) =
                other_samples x.account_id tracker.recent_concurrent_samples zero_score 0 in
              if ltb 0 count then d.div sum (d.of_int (pos count)) else zero_score
        ]

module _ {F : Type 0} ⦃d : Double F⦄ (config : SpoofingLayeringConfig F) where
  unfoldable pub speed_score : ℤ → F
  speed_score time_in_book =
      if ltb_ℤ (pos 0) config.slow_time_in_book_ns
      then unit_clamp
          (d.sub one_score (d.div (d.of_int time_in_book) (d.of_int config.slow_time_in_book_ns)))
      else zero_score

  -- `-x` is zero less `x`, of which only comparisons are taken.
  unfoldable pub moved_favorably : Side → Option F → Option F → Bool
  moved_favorably side none now = false
  moved_favorably side (some placed) none = false
  moved_favorably buy (some placed) (some now) =
      d.le config.min_opposite_price_move (d.sub now placed)
  moved_favorably sell (some placed) (some now) =
      d.le (d.sub now placed) (d.sub zero_score config.min_opposite_price_move)

  abbrev pub seconds : ℤ → F
  seconds ns = d.div (d.of_int ns) (d.of_int (pos 1_000_000_000))

  abbrev pub shorter : F → F → F
  shorter dwell cap = if d.lt cap dwell then cap else dwell

  unfoldable pub recent_move_rate : Tracking F → TrackedOrder F → F
  recent_move_rate t x =
      elim (find text_eq (instrument_side_key x.instrument_id (opposite_of x.side))
        t.ambient_by_instrument_side) [
          | none ↦ zero_score
          | some tracker ↦
              if ltb_ℤ (pos 0) config.density_window_ns
              then d.div (d.of_int (pos (length tracker.recent_move_timestamps)))
                  (seconds config.density_window_ns)
              else zero_score
        ]

  unfoldable pub move_score : Tracking F → TrackedOrder F → ℤ → Bool → F
  unfolding recent_move_rate
  move_score t x time_in_book false = zero_score
  move_score t x time_in_book true = unit_clamp (
      d.sub one_score (
        d.mul (recent_move_rate t x)
          (shorter (seconds time_in_book) (seconds config.slow_time_in_book_ns))))

  unfoldable pub layering_score : ℤ → F → F
  layering_score concurrent typical =
      if ltb_ℤ (pos 0) config.layering_saturation_count
      then unit_clamp
          (d.div (d.sub (d.of_int concurrent) typical) (d.of_int config.layering_saturation_count))
      else zero_score

  unfoldable pub combined_score : F → F → F → F → F
  combined_score depth speed move layering =
      let primary = d.div (d.add (d.add depth speed) move) (d.of_int (pos 3)) in
      unit_clamp (d.add primary (d.mul config.layering_bonus_weight layering))

  abbrev pub has_moved_favorably : OrderBook F → TrackedOrder F → Bool
  has_moved_favorably b x =
      moved_favorably x.side x.opposite_best_at_placement (best_price b (opposite_of x.side))

  abbrev pub time_in_book : Order F → TrackedOrder F → ℤ
  time_in_book o x = o.timestamp_ns -ℤ x.placed_ts

  abbrev pub layering_of : Tracking F → TrackedOrder F → F
  layering_of t x =
      layering_score (count_concurrent t x.account_id x.instrument_id x.side)
        (typical_concurrent t x)

  unfoldable pub cancel_score : Tracking F → OrderBook F → Order F → TrackedOrder F → F
  unfolding combined_score speed_score move_score moved_favorably layering_score typical_concurrent
      count_concurrent
  cancel_score t b o x =
      combined_score (unit_clamp x.depth_ratio_at_placement) (speed_score (time_in_book o x))
        (move_score t x (time_in_book o x) (has_moved_favorably b x)) (layering_of t x)

  abbrev pub alert_for : Tracking F → OrderBook F → Order F → TrackedOrder F → Alert F
  alert_for t b o x = record {
    detector_name = codes "SpoofingLayeringDetector";
    score = cancel_score t b o x;
    instrument_id = x.instrument_id;
    account_ids = x.account_id ∷ [];
    order_ids = o.orig_order_id ∷ [];
    window_start_ns = x.placed_ts;
    window_end_ns = o.timestamp_ns;
    evidence =
        codes "depth_ratio="
        ++ d.print (unit_clamp x.depth_ratio_at_placement)
        ++ codes " speed="
        ++ d.print (speed_score (time_in_book o x))
        ++ codes " opposite_price_moved_favorably="
        ++ (if has_moved_favorably b x then codes "true" else codes "false")
        ++ codes " move_score="
        ++ d.print (move_score t x (time_in_book o x) (has_moved_favorably b x))
        ++ codes " concurrent_same_side_orders="
        ++ d.print_int (count_concurrent t x.account_id x.instrument_id x.side)
        ++ codes " typical_concurrent="
        ++ d.print (typical_concurrent t x)
        ++ codes " layering_score="
        ++ d.print (layering_of t x)
        ++ codes " time_in_book_ns="
        ++ d.print_int (time_in_book o x);
    model_version = none;
    book_snapshot_sequence = some (to_int64 b.sequence);
  }

  unfoldable pub score_cancel : Tracking F → OrderBook F → Order F → TrackedOrder F → List (Alert F)
  unfolding cancel_score
  score_cancel t b o x =
      if d.lt (cancel_score t b o x) config.alert_threshold then [] else alert_for t b o x ∷ []

  -- A cancel before the placement belongs to another life of the id.
  unfoldable pub judge_cancel :
      Option (TrackedOrder F) × Tracking F → OrderBook F → Order F → Tracking F × List (Alert F)
  unfolding score_cancel
  judge_cancel (none, t) b o = (t, [])
  judge_cancel (some x, t) b o =
      if ltb_ℤ o.timestamp_ns x.placed_ts then (t, []) else (t, score_cancel t b o x)

  unfoldable pub handle_cancel : Tracking F → OrderBook F → Order F → Tracking F × List (Alert F)
  unfolding judge_cancel erase_tracked
  handle_cancel t b o = judge_cancel (erase_tracked t o.orig_order_id) b o

  unfoldable pub evaluate : Tracking F → OrderBook F → Event F → Tracking F × List (Alert F)
  unfolding update_ambient track_new handle_cancel handle_replace handle_execution
  evaluate t b (order o) =
      let t = update_ambient config.density_window_ns t b o.instrument_id o.timestamp_ns in
      elim o.status [
        | new ↦ (track_new t b o, [])
        | cancelled ↦ handle_cancel t b o
        | replaced ↦ (handle_replace t b o, [])
      ]
  evaluate t b (execution x) =
      let t = update_ambient config.density_window_ns t b x.instrument_id x.timestamp_ns in
      (handle_execution t x, [])
