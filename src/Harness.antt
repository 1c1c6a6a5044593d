-- ===== src/Harness.antt =====
-- cpp/harness/evaluation.hpp and .cpp: how the alerts of a detector are scored against the labels of a
-- synthetic session. A std::unordered_set of ids is a list without repetition, a std::unordered_map an
-- association list; no result depends on their order. An exception is `none`.
pub mod Sets
pub mod Predicted
pub mod Partition
pub mod Labels
mod Abuse
pub mod Simulated
pub mod Replay
pub mod Anomaly
mod Tests
use trade_surveillance_engin.Prelude.{
  ℕ, ◌+◌, ◌%◌, ◌^◌, Text, codes, text_eq, find, put, or_else, Bool, true, false, not, ◌&&◌, List,
  [], ◌∷◌, Option, none, some, if◌then◌else◌, Double,
}
use trade_surveillance_engin.Fix.{OrderStatus, new, cancelled, replaced}
use trade_surveillance_engin.Detectors.{Alert}
use trade_surveillance_engin.Simulator.{
  AbusePattern, baseline, wash_trade, spoofing_layering, marking_the_close, front_running,
  pattern_eq, SimulatedOrder, SimulatedExecution, SimulationOutput,
}
use trade_surveillance_engin.Harness.Sets.{contains, insert, insert_all}

pub record ConfusionMatrix : Type 0 where
  pub tp : ℕ
  pub fp : ℕ
  pub fn : ℕ
  pub tn : ℕ

pub record DetectorUniverse : Type 0 where
  pub event_ids : List Text
  pub ids_by_pattern : List (AbusePattern × List Text)

pub record Universes : Type 0 where
  pub new_orders : DetectorUniverse
  pub cancel_orders : DetectorUniverse
  pub executions : DetectorUniverse

-- `positive_ids_for`, and what `operator[]` finds
unfoldable pub positive_ids_for : DetectorUniverse → AbusePattern → List Text
positive_ids_for u pattern = or_else (find pattern_eq pattern u.ids_by_pattern) []

-- The two insertions of a record's id.
unfoldable pub add_id : DetectorUniverse → AbusePattern → Text → DetectorUniverse
unfolding insert positive_ids_for
add_id u pattern id = record {
  event_ids = insert id u.event_ids;
  ids_by_pattern = put pattern_eq pattern (insert id (positive_ids_for u pattern)) u.ids_by_pattern;
}

module _ {F : Type 0} where
  unfoldable pub add_orders : List (SimulatedOrder F) → Universes → Universes
  unfolding add_id
  add_orders [] u = u
  add_orders (o ∷ orders) u = add_orders orders (elim o.status [
    | new ↦ record u { new_orders = add_id u.new_orders o.ground_truth_label.pattern o.order_id }
    | cancelled ↦ record u {
      cancel_orders = add_id u.cancel_orders o.ground_truth_label.pattern o.order_id;
    }
    | replaced ↦ u
  ])

  unfoldable pub add_executions : List (SimulatedExecution F) → Universes → Universes
  unfolding add_id
  add_executions [] u = u
  add_executions (x ∷ executions) u =
      add_executions executions
        (record u { executions = add_id u.executions x.ground_truth_label.pattern x.trade_id })

abbrev pub empty_universe : DetectorUniverse
empty_universe = record { event_ids = []; ids_by_pattern = [] }

unfoldable pub build_universes : {F : Type 0} → SimulationOutput F → Universes
unfolding add_orders add_executions
build_universes simulation = add_executions simulation.executions (
    add_orders simulation.orders (record {
      new_orders = empty_universe;
      cancel_orders = empty_universe;
      executions = empty_universe;
    }))

-- The loop of `any_abuse_ids`.
unfoldable pub union_abuse : List (AbusePattern × List Text) → List Text → List Text
unfolding insert_all
union_abuse [] result = result
union_abuse ((pattern, ids) ∷ rest) result =
    union_abuse rest (if pattern_eq pattern baseline then result else insert_all ids result)

unfoldable pub any_abuse_ids : DetectorUniverse → List Text
unfolding union_abuse
any_abuse_ids u = union_abuse u.ids_by_pattern []

-- The ids of one alert that are in the universe.
unfoldable pub add_known : List Text → List Text → List Text → List Text
unfolding insert
add_known universe_ids [] predicted = predicted
add_known universe_ids (id ∷ ids) predicted =
    add_known universe_ids ids (if contains id universe_ids then insert id predicted else predicted)

module _ {F : Type 0} ⦃d : Double F⦄ where
  -- The loop over the alerts.
  unfoldable pub predict : Text → F → List Text → List (Alert F) → List Text → List Text
  unfolding add_known
  predict detector_name score_threshold universe_ids [] predicted = predicted
  predict detector_name score_threshold universe_ids (a ∷ alerts) predicted =
      predict detector_name score_threshold universe_ids alerts (
        if not (text_eq a.detector_name detector_name)
        then predicted
        else if d.lt a.score score_threshold
        then predicted
        else add_known universe_ids a.order_ids predicted)

-- uint64_t increment
abbrev pub bump : ℕ → ℕ
bump n = (n + 1) % 2 ^ 64

unfoldable pub count_predicted : List Text → List Text → ConfusionMatrix → ConfusionMatrix
count_predicted positive_ids [] matrix = matrix
count_predicted positive_ids (id ∷ ids) matrix = count_predicted positive_ids ids (
    if contains id positive_ids
    then record matrix { tp = bump matrix.tp }
    else record matrix { fp = bump matrix.fp })

unfoldable pub count_missed : List Text → List Text → ConfusionMatrix → ConfusionMatrix
count_missed predicted [] matrix = matrix
count_missed predicted (id ∷ ids) matrix =
    count_missed predicted ids
      (if contains id predicted then matrix else record matrix { fn = bump matrix.fn })

unfoldable pub count_rest : List Text → List Text → List Text → ConfusionMatrix → ConfusionMatrix
count_rest positive_ids predicted [] matrix = matrix
count_rest positive_ids predicted (id ∷ ids) matrix = count_rest positive_ids predicted ids (
    if not (contains id positive_ids) && not (contains id predicted)
    then record matrix { tn = bump matrix.tn }
    else matrix)

module _ {F : Type 0} ⦃d : Double F⦄ where
  unfoldable pub compute_confusion_matrix :
      List (Alert F) → Text → F → List Text → List Text → ConfusionMatrix
  unfolding predict count_predicted count_missed count_rest
  compute_confusion_matrix alerts detector_name score_threshold universe_ids positive_ids =
      let predicted = predict detector_name score_threshold universe_ids alerts [] in
      count_rest positive_ids predicted universe_ids (
        count_missed predicted positive_ids
          (count_predicted positive_ids predicted (record { tp = 0; fp = 0; fn = 0; tn = 0 })))

  unfoldable pub threshold_sweep :
      List (Alert F) → Text → List Text → List Text → List F → List (F × ConfusionMatrix)
  unfolding compute_confusion_matrix
  threshold_sweep alerts detector_name universe_ids positive_ids [] = []
  threshold_sweep alerts detector_name universe_ids positive_ids (threshold ∷ thresholds) =
      (threshold, compute_confusion_matrix alerts detector_name threshold universe_ids positive_ids)
      ∷ threshold_sweep alerts detector_name universe_ids positive_ids thresholds

-- pattern_aware_detector_specs
abbrev pub pattern_aware_detector_specs : List (Text × AbusePattern)
pattern_aware_detector_specs =
    (codes "WashTradeDetector", wash_trade)
    ∷ (codes "SpoofingLayeringDetector", spoofing_layering)
    ∷ (codes "MarkingTheCloseDetector", marking_the_close)
    ∷ (codes "FrontRunningDetector", front_running)
    ∷ []

pub data UniverseKind : Type 0 where
  new_order_kind cancel_order_kind execution_kind : UniverseKind

unfoldable pub detector_universe_kind : Text → Option UniverseKind
detector_universe_kind detector_name =
    if text_eq detector_name (codes "WashTradeDetector")
    then some execution_kind
    else if text_eq detector_name (codes "SpoofingLayeringDetector")
    then some cancel_order_kind
    else if text_eq detector_name (codes "MarkingTheCloseDetector")
    then some execution_kind
    else if text_eq detector_name (codes "FrontRunningDetector")
    then some new_order_kind
    else if text_eq detector_name (codes "StatisticalBaselineDetector")
    then some new_order_kind
    else none

unfoldable pub select_universe : Universes → UniverseKind → DetectorUniverse
select_universe u new_order_kind = u.new_orders
select_universe u cancel_order_kind = u.cancel_orders
select_universe u execution_kind = u.executions
