-- ===== src/Harness/Anomaly.antt =====
-- cpp/harness/evaluation.cpp, the scores of MlAnomalyDetector: an alert stands for a window of an account on an
-- instrument. std::sort and std::lower_bound are those of a list of int64_t in order.
pub mod Windows
use trade_surveillance_engin.Prelude.{
  ℕ, ◌&&◌, not, ℤ, ◌-ℤ◌, leb_ℤ, ltb_ℤ, Text, codes, text_eq, find, put, or_else, Bool, true, false,
  List, [], ◌∷◌, ◌++◌, map, Option, none, some, if◌then◌else◌, Double, stable_sort,
}
use trade_surveillance_engin.Detectors.{Alert}
use trade_surveillance_engin.Simulator.{baseline, pattern_eq, SimulatedOrder, SimulationOutput}
use trade_surveillance_engin.Harness.{ConfusionMatrix, bump}

-- `abuse_order_timestamps_by_key`
abbrev pub MlAnomalyGroundTruth : Type 0
MlAnomalyGroundTruth = List (Text × List ℤ)

abbrev pub window_key : Text → Text → Text
window_key account_id instrument_id = account_id ++ codes "|" ++ instrument_id

unfoldable pub sort_each : MlAnomalyGroundTruth → MlAnomalyGroundTruth
sort_each [] = []
sort_each ((key, timestamps) ∷ truth) = (key, stable_sort (λ t. t) timestamps) ∷ sort_each truth

module _ {F : Type 0} where
  abbrev pub order_key : SimulatedOrder F → Text
  order_key o = window_key o.account_id o.instrument_id

  -- The body of the loop over the orders.
  unfoldable pub add_one : SimulatedOrder F → MlAnomalyGroundTruth → MlAnomalyGroundTruth
  add_one o truth =
      if pattern_eq o.ground_truth_label.pattern baseline
      then truth
      else put text_eq (order_key o)
          (or_else (find text_eq (order_key o) truth) [] ++ o.timestamp_ns ∷ []) truth

  unfoldable pub add_abuse : List (SimulatedOrder F) → MlAnomalyGroundTruth → MlAnomalyGroundTruth
  add_abuse [] truth = truth
  add_abuse (o ∷ orders) truth = add_abuse orders (add_one o truth)

  unfoldable pub build_ml_anomaly_ground_truth : SimulationOutput F → MlAnomalyGroundTruth
  build_ml_anomaly_ground_truth s = sort_each (add_abuse s.orders [])

-- std::lower_bound: the first timestamp that is not below a bound
unfoldable pub lower_bound : ℤ → List ℤ → Option ℤ
lower_bound lo [] = none
lower_bound lo (t ∷ ts) = if ltb_ℤ t lo then lower_bound lo ts else some t

-- `first_in_range != end && *first_in_range <= window_hi`
abbrev pub at_most : Option ℤ → ℤ → Bool
at_most none hi = false
at_most (some t) hi = leb_ℤ t hi

abbrev pub some_between : Option (List ℤ) → ℤ → ℤ → Bool
some_between none lo hi = false
some_between (some ts) lo hi = at_most (lower_bound lo ts) hi

abbrev pub window_of : MlAnomalyGroundTruth → List Text → Text → ℤ → ℤ → Bool
window_of truth [] instrument_id lo hi = false
window_of truth (a ∷ more) instrument_id lo hi =
    some_between (find text_eq (window_key a instrument_id) truth) lo hi

unfoldable pub ml_anomaly_window_is_positive :
    {F : Type 0} → MlAnomalyGroundTruth → Alert F → ℤ → Bool
ml_anomaly_window_is_positive truth alert window_duration_ns =
    window_of truth alert.account_ids alert.instrument_id
      (alert.window_start_ns -ℤ window_duration_ns) alert.window_start_ns

module _ {F : Type 0} ⦃d : Double F⦄ where
  unfoldable pub compute_ml_anomaly_confusion_matrix :
      List (Alert F) → F → MlAnomalyGroundTruth → ℤ → ConfusionMatrix → ConfusionMatrix
  compute_ml_anomaly_confusion_matrix [] score_threshold truth window_duration_ns matrix = matrix
  compute_ml_anomaly_confusion_matrix (a ∷ alerts) score_threshold truth window_duration_ns matrix =
      compute_ml_anomaly_confusion_matrix alerts score_threshold truth window_duration_ns (
        if not (text_eq a.detector_name (codes "MlAnomalyDetector"))
        then matrix
        else (let positive = ml_anomaly_window_is_positive truth a window_duration_ns in
            let predicted = d.le score_threshold a.score in
            if predicted && positive
            then record matrix { tp = bump matrix.tp }
            else if predicted && not positive
            then record matrix { fp = bump matrix.fp }
            else if not predicted && positive
            then record matrix { fn = bump matrix.fn }
            else record matrix { tn = bump matrix.tn }))

  unfoldable pub ml_anomaly_threshold_sweep :
      List (Alert F) → MlAnomalyGroundTruth → ℤ → List F → List (F × ConfusionMatrix)
  ml_anomaly_threshold_sweep alerts truth window_duration_ns [] = []
  ml_anomaly_threshold_sweep alerts truth window_duration_ns (threshold ∷ thresholds) =
      (
        threshold,
        compute_ml_anomaly_confusion_matrix alerts threshold truth window_duration_ns
            (record { tp = 0; fp = 0; fn = 0; tn = 0 }),
      )
      ∷ ml_anomaly_threshold_sweep alerts truth window_duration_ns thresholds
