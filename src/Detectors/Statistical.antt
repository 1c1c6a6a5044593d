-- ===== src/Detectors/Statistical.antt =====
-- cpp/detectors/statistical_baseline_detector.hpp and .cpp: a z-score of the order quantity against the
-- running mean and variance of the same account and instrument (Welford's recurrence).
pub mod History
use trade_surveillance_engin.Prelude.{
  ℕ, ◌+◌, ◌-◌, ltb_ℤ, ◌≤ℤ◌, In, In-cons, In-nil, subst, ap, ◌≡◌, true, false, List, [], ◌∷◌, ◌++◌,
  Text, codes, text_eq, find, put, or_else, not, none, some, ℤ, pos, Double, clamp, clamp_bounds,
  if◌then◌else◌, arith, ltb, inl, inr, Bool-cases,
}
use trade_surveillance_engin.Fix.{Order, Event, order, execution, new}
use trade_surveillance_engin.OrderBook.{OrderBook}
use trade_surveillance_engin.Detectors.{Alert, to_int64}
use trade_surveillance_engin.Detectors.Accounts.{AccountRegistry}

pub record StatisticalBaselineConfig (F : Type 0) : Type 0 where
  pub z_score_threshold : F
  pub min_sample_count : ℤ

pub record RunningStats (F : Type 0) : Type 0 where
  pub count : ℕ
  pub mean : F
  pub m2 : F

abbrev pub StatsByKey : Type 0 → Type 0
StatsByKey F = List (Text × RunningStats F)

module _ {F : Type 0} ⦃d : Double F⦄ where
  abbrev pub no_stats : RunningStats F
  no_stats = record { count = 0; mean = d.of_int (pos 0); m2 = d.of_int (pos 0) }

  unfoldable pub update : RunningStats F → F → RunningStats F
  update stats value =
      let count = stats.count + 1 in
      let delta = d.sub value stats.mean in
      let mean = d.add stats.mean (d.div delta (d.of_int (pos count))) in
      let delta2 = d.sub value mean in
      record { count = count; mean = mean; m2 = d.add stats.m2 (d.mul delta delta2) }

  unfoldable pub sample_variance : RunningStats F → F
  sample_variance stats =
      if ltb 1 stats.count
      then d.div stats.m2 (d.of_int (pos (stats.count - 1)))
      else d.of_int (pos 0)

  abbrev pub key_of : Order F → Text
  key_of o = o.account_id ++ codes "|" ++ o.instrument_id

module _ {F : Type 0} ⦃d : Double F⦄ (config : StatisticalBaselineConfig F) where
  -- 2.0 * z_score_threshold
  abbrev pub full_scale : F
  full_scale = d.mul (d.of_int (pos 2)) config.z_score_threshold

  unfoldable pub score_of : F → F
  score_of z = clamp (d.div (d.abs z) full_scale) (d.of_int (pos 0)) (d.of_int (pos 1))

  abbrev pub alert_for : Order F → RunningStats F → F → F → ℤ → Alert F
  unfolding score_of
  alert_for o stats stddev z sequence = record {
    detector_name = codes "StatisticalBaselineDetector";
    score = score_of z;
    instrument_id = o.instrument_id;
    account_ids = o.account_id ∷ [];
    order_ids = o.order_id ∷ [];
    window_start_ns = o.timestamp_ns;
    window_end_ns = o.timestamp_ns;
    evidence =
        codes "order qty="
        ++ d.print_int o.qty
        ++ codes " z="
        ++ d.print z
        ++ codes " against running mean="
        ++ d.print stats.mean
        ++ codes " stddev="
        ++ d.print stddev
        ++ codes " (n="
        ++ d.print_int (pos stats.count)
        ++ codes ")";
    model_version = none;
    book_snapshot_sequence = some sequence;
  }

  -- The alerts of an order against the statistics as they stood before it.
  unfoldable pub score_order : Order F → RunningStats F → ℤ → List (Alert F)
  unfolding sample_variance score_of
  score_order o stats sequence =
      if ltb_ℤ (pos stats.count) config.min_sample_count
      then []
      else (let stddev = d.sqrt (sample_variance stats) in
          if not (d.lt (d.of_int (pos 0)) stddev)
          then []
          else (let z = d.div (d.sub (d.of_int o.qty) stats.mean) stddev in
              if d.le config.z_score_threshold (d.abs z)
              then alert_for o stats stddev z sequence ∷ []
              else []))

  unfoldable pub evaluate :
      StatsByKey F → OrderBook F → Event F → AccountRegistry → StatsByKey F × List (Alert F)
  unfolding score_order update
  evaluate s b (execution x) accounts = (s, [])
  evaluate s b (order o) accounts = elim o.status [
    | new ↦
        let stats = or_else (find text_eq (key_of o) s) no_stats in
        (
          put text_eq (key_of o) (update stats (d.of_int o.qty)) s,
          score_order o stats (to_int64 b.sequence),
        )
    | _ ↦ (s, [])
  ]
