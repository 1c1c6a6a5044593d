-- ===== src/Harness/Tests.antt =====
-- A session of two new orders, one of them abuse, and an alert that names both and a foreign id.
use trade_surveillance_engin.Prelude.{
  In, ℤ, ◌-ℤ◌, ◌≤ℤ◌, ◌↔◌, true, ℕ, ◌≡◌, refl, Text, codes, text_eq, find, put, ◌&&◌, List, [], ◌∷◌,
  none, some, pos, arith, length,
}
use trade_surveillance_engin.Ticks.{ticks}
use trade_surveillance_engin.Fix.{buy, limit, new}
use trade_surveillance_engin.Detectors.{Alert}
use trade_surveillance_engin.Simulator.{
  AbusePattern, baseline, front_running, SimulatedOrder, SimulationOutput,
}
use trade_surveillance_engin.Harness.{
  positive_ids_for, add_id, add_orders, add_executions, build_universes, any_abuse_ids, add_known,
  count_predicted, count_missed, count_rest, predict, compute_confusion_matrix,
  detector_universe_kind, new_order_kind, execution_kind, select_universe,
}
use trade_surveillance_engin.Harness.Anomaly.{
  window_key, build_ml_anomaly_ground_truth, ml_anomaly_window_is_positive,
}
use trade_surveillance_engin.Harness.Anomaly.Windows.{IsAbuse, ml_anomaly_window_is_positive_iff}
use trade_surveillance_engin.Harness.Sets.{contains, insert}
use trade_surveillance_engin.Harness.Predicted.{any_names}
use trade_surveillance_engin.Harness.Partition.{IsPartition}
use trade_surveillance_engin.Harness.Simulated.{is_labelled, is_abusive, simulated-IsPartition}

abbrev placed : Text → AbusePattern → SimulatedOrder ℕ
placed id pattern = record {
  order_id = id;
  account_id = codes "acct";
  instrument_id = codes "AAPL";
  side = buy;
  price = 100;
  qty = pos 5;
  order_type = limit;
  timestamp_ns = pos 1;
  status = new;
  venue = [];
  ground_truth_label = record { pattern = pattern; scenario_id = []; severity = 0 };
}

abbrev session : SimulationOutput ℕ
session = record {
  instruments = [];
  accounts = [];
  orders = placed (codes "A") front_running ∷ placed (codes "B") baseline ∷ [];
  executions = [];
}

abbrev raised : List (Alert ℕ)
raised =
    record {
      detector_name = codes "FrontRunningDetector";
      score = 7;
      instrument_id = codes "AAPL";
      account_ids = [];
      order_ids = codes "A" ∷ codes "X" ∷ codes "B" ∷ [];
      window_start_ns = pos 0;
      window_end_ns = pos 0;
      evidence = [];
      model_version = none;
      book_snapshot_sequence = none;
    }
    ∷ []

abbrev two_ids : List Text
two_ids = codes "A" ∷ codes "B" ∷ []

abbrev one_id : List Text
one_id = codes "A" ∷ []

scored :
    compute_confusion_matrix raised (codes "FrontRunningDetector") 5 two_ids one_id
    ≡ record { tp = 1; fp = 1; fn = 0; tn = 0 }
unfolding compute_confusion_matrix predict add_known insert count_predicted count_missed count_rest
    text_eq
scored = refl

wash_trade_kind : detector_universe_kind (codes "WashTradeDetector") ≡ some execution_kind
unfolding detector_universe_kind text_eq
wash_trade_kind = refl

session_size : length (select_universe (build_universes session) new_order_kind).event_ids ≡ 2
unfolding select_universe build_universes add_orders add_executions add_id positive_ids_for insert
    text_eq find put
session_size = refl

simulated-IsPartition_example :
    let u = select_universe (build_universes session) new_order_kind in
    let q = predict (codes "FrontRunningDetector") 5 u.event_ids raised [] in
    ((x : Text)
      → contains x (positive_ids_for u front_running)
        ≡ is_labelled session new_order_kind front_running x)
    × ((x : Text) → contains x (any_abuse_ids u) ≡ is_abusive session new_order_kind x)
    × ((x : Text)
        → contains x q
          ≡ (any_names (codes "FrontRunningDetector") 5 x raised && contains x u.event_ids))
    × IsPartition
        (compute_confusion_matrix raised
          (codes "FrontRunningDetector")
          5
          u.event_ids
          (positive_ids_for u front_running))
        u.event_ids
        (positive_ids_for u front_running)
        q
    × IsPartition
        (compute_confusion_matrix raised
          (codes "FrontRunningDetector")
          5
          u.event_ids
          (any_abuse_ids u))
        u.event_ids
        (any_abuse_ids u)
        q
simulated-IsPartition_example =
    simulated-IsPartition session new_order_kind front_running raised (codes "FrontRunningDetector")
      5 (omega (arith, session_size))

-- An alert for the account of the session.
abbrev window_alert : Alert ℕ
window_alert = record {
  detector_name = codes "MlAnomalyDetector";
  score = 7;
  instrument_id = codes "AAPL";
  account_ids = codes "acct" ∷ [];
  order_ids = [];
  window_start_ns = pos 60;
  window_end_ns = pos 60;
  evidence = [];
  model_version = none;
  book_snapshot_sequence = none;
}

ml_anomaly_window_is_positive_iff_example :
    (ml_anomaly_window_is_positive (build_ml_anomaly_ground_truth session) window_alert (pos 60)
      ≡ true)
    ↔ ((t : ℤ) × (pos 60 -ℤ pos 60 ≤ℤ t)
        × (t ≤ℤ pos 60)
        × ((o : SimulatedOrder ℕ) × In o session.orders
            × IsAbuse (window_key (codes "acct") (codes "AAPL")) t o))
ml_anomaly_window_is_positive_iff_example =
    ml_anomaly_window_is_positive_iff session window_alert (codes "acct") [] (pos 60) refl
