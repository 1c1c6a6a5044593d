-- ===== src/Harness/Simulated.antt =====
-- The scores of a detector's alerts over a whole simulated session.
use trade_surveillance_engin.Prelude.{
  ◌^◌, ◌<◌, ◌≡◌, sym, ◌∙◌, ap, subst, Text, find, Bool, ◌&&◌, ◌||◌, List, [], length, arith, Double,
}
use trade_surveillance_engin.Detectors.{Alert}
use trade_surveillance_engin.Simulator.{AbusePattern, SimulationOutput}
use trade_surveillance_engin.Harness.{
  Universes, positive_ids_for, add_orders, empty_universe, build_universes, any_abuse_ids,
  union_abuse, predict, compute_confusion_matrix, UniverseKind, new_order_kind, cancel_order_kind,
  execution_kind, select_universe,
}
use trade_surveillance_engin.Harness.Sets.{contains}
use trade_surveillance_engin.Harness.Predicted.{any_names, contains-predict}
use trade_surveillance_engin.Harness.Partition.{IsPartition, compute_confusion_matrix-IsPartition}
use trade_surveillance_engin.Harness.Abuse.{
  any_abusive_order, any_abusive_execution, any_abuse_ids-add_orders, any_abuse_ids-add_executions,
}
use trade_surveillance_engin.Harness.Labels.{
  IsLabelled, Entries-find, union_abuse_lem, is_new, is_cancelled, any_order, any_execution,
  add_orders_lem, add_executions_lem, add_orders-IsLabelled, add_executions-IsLabelled,
}

abbrev none_yet : Universes
none_yet = record {
  new_orders = empty_universe;
  cancel_orders = empty_universe;
  executions = empty_universe;
}

empty-IsLabelled : IsLabelled empty_universe
empty-IsLabelled = record { ids = tt; entries = tt }

module _ {F : Type 0} where
  build_universes-IsLabelled :
      (simulation : SimulationOutput F) (kind : UniverseKind)
      → IsLabelled (select_universe (build_universes simulation) kind)
  unfolding build_universes select_universe
  build_universes-IsLabelled s new_order_kind =
      let (a, b) = add_orders-IsLabelled s.orders none_yet empty-IsLabelled empty-IsLabelled in
      let (same, _, _) =
        add_executions_lem s.executions (add_orders s.orders none_yet) AbusePattern.baseline [] in
      subst IsLabelled (sym same) a
  build_universes-IsLabelled s cancel_order_kind =
      let (a, b) = add_orders-IsLabelled s.orders none_yet empty-IsLabelled empty-IsLabelled in
      let (_, same, _) =
        add_executions_lem s.executions (add_orders s.orders none_yet) AbusePattern.baseline [] in
      subst IsLabelled (sym same) b
  build_universes-IsLabelled s execution_kind =
      let (_, _, same) = add_orders_lem s.orders none_yet AbusePattern.baseline [] in
      add_executions-IsLabelled s.executions (add_orders s.orders none_yet)
        (subst IsLabelled (sym same) empty-IsLabelled)

  -- What an id is positive for, told from the events: a new order, a cancelled one or an execution with this
  -- label.
  abbrev pub is_labelled : SimulationOutput F → UniverseKind → AbusePattern → Text → Bool
  is_labelled s new_order_kind pattern x = any_order is_new pattern x s.orders
  is_labelled s cancel_order_kind pattern x = any_order is_cancelled pattern x s.orders
  is_labelled s execution_kind pattern x = any_execution pattern x s.executions

  positive_ids-labels :
      (s : SimulationOutput F) (kind : UniverseKind) (pattern : AbusePattern) (x : Text)
      → contains x (positive_ids_for (select_universe (build_universes s) kind) pattern)
        ≡ is_labelled s kind pattern x
  unfolding build_universes select_universe positive_ids_for find
  positive_ids-labels s new_order_kind q x =
      let (a, _, _) = add_orders_lem s.orders none_yet q x in
      let (same, _, _) = add_executions_lem s.executions (add_orders s.orders none_yet) q x in
      ap (λ u. contains x (positive_ids_for u q)) same ∙ ground (arith, a)
  positive_ids-labels s cancel_order_kind q x =
      let (_, b, _) = add_orders_lem s.orders none_yet q x in
      let (_, same, _) = add_executions_lem s.executions (add_orders s.orders none_yet) q x in
      ap (λ u. contains x (positive_ids_for u q)) same ∙ ground (arith, b)
  positive_ids-labels s execution_kind q x =
      let (_, _, same) = add_orders_lem s.orders none_yet q x in
      let (_, _, c) = add_executions_lem s.executions (add_orders s.orders none_yet) q x in
      c
      ∙ ap (λ u. any_execution q x s.executions || contains x (positive_ids_for u q)) same
      ∙ ground arith

  -- A label other than the one of ordinary flow.
  abbrev pub is_abusive : SimulationOutput F → UniverseKind → Text → Bool
  is_abusive s new_order_kind x = any_abusive_order is_new x s.orders
  is_abusive s cancel_order_kind x = any_abusive_order is_cancelled x s.orders
  is_abusive s execution_kind x = any_abusive_execution x s.executions

  any_abuse_ids-labels :
      (s : SimulationOutput F) (kind : UniverseKind) (x : Text)
      → contains x (any_abuse_ids (select_universe (build_universes s) kind)) ≡ is_abusive s kind x
  unfolding build_universes select_universe any_abuse_ids union_abuse
  any_abuse_ids-labels s new_order_kind x =
      let (a, _) = any_abuse_ids-add_orders s.orders none_yet x in
      let (same, _, _) =
        add_executions_lem s.executions (add_orders s.orders none_yet) AbusePattern.baseline x in
      ap (λ u. contains x (any_abuse_ids u)) same ∙ ground (arith, a)
  any_abuse_ids-labels s cancel_order_kind x =
      let (_, b) = any_abuse_ids-add_orders s.orders none_yet x in
      let (_, same, _) =
        add_executions_lem s.executions (add_orders s.orders none_yet) AbusePattern.baseline x in
      ap (λ u. contains x (any_abuse_ids u)) same ∙ ground (arith, b)
  any_abuse_ids-labels s execution_kind x =
      let (_, _, same) = add_orders_lem s.orders none_yet AbusePattern.baseline x in
      any_abuse_ids-add_executions s.executions (add_orders s.orders none_yet) x
      ∙ ap (λ u. any_abusive_execution x s.executions || contains x (any_abuse_ids u)) same
      ∙ ground arith

module _ {F : Type 0} ⦃d : Double F⦄ where
  -- For every simulated session, detector name, threshold, universe of it with fewer than 2^64 ids, and
  -- pattern: an id is positive for the pattern if an event of that universe has it with that label, is one of
  -- the ids of any abuse if an event has it with a label other than the baseline's, and is predicted if it is
  -- in the universe and an alert of the detector at or above the threshold (or with no order to it) names it.
  -- The matrix splits the predicted ids into tp and fp, the positive ones into tp and fn, and all ids of the
  -- universe into the four. So does the matrix for the ids of any abuse.
  pub simulated-IsPartition :
      (s : SimulationOutput F) (kind : UniverseKind) (pattern : AbusePattern)
      (alerts : List (Alert F)) (detector_name : Text) (score_threshold : F)
      → length (select_universe (build_universes s) kind).event_ids < 2 ^ 64
      → let u = select_universe (build_universes s) kind in
        let q = predict detector_name score_threshold u.event_ids alerts [] in
        ((x : Text) → contains x (positive_ids_for u pattern) ≡ is_labelled s kind pattern x)
        × ((x : Text) → contains x (any_abuse_ids u) ≡ is_abusive s kind x)
        × ((x : Text)
            → contains x q
              ≡ (any_names detector_name score_threshold x alerts && contains x u.event_ids))
        × IsPartition
            (compute_confusion_matrix alerts detector_name score_threshold u.event_ids
              (positive_ids_for u pattern))
            u.event_ids
            (positive_ids_for u pattern)
            q
        × IsPartition
            (compute_confusion_matrix alerts detector_name score_threshold u.event_ids
              (any_abuse_ids u))
            u.event_ids
            (any_abuse_ids u)
            q
  unfolding positive_ids_for any_abuse_ids
  simulated-IsPartition s kind pattern alerts name thr small =
      let u = select_universe (build_universes s) kind in
      let v = build_universes-IsLabelled s kind in
      let (set, within) = Entries-find u.event_ids pattern u.ids_by_pattern v.entries in
      let (abuse_set, abuse_within) =
        union_abuse_lem u.event_ids u.ids_by_pattern [] v.entries tt (λ x h. cc) in
      (
        λ x. positive_ids-labels s kind pattern x,
        λ x. any_abuse_ids-labels s kind x,
        λ x. contains-predict name thr x u.event_ids alerts,
        compute_confusion_matrix-IsPartition alerts name thr u.event_ids
            (positive_ids_for u pattern) v.ids set within small,
        compute_confusion_matrix-IsPartition alerts name thr u.event_ids (any_abuse_ids u) v.ids
            abuse_set abuse_within small,
      )
