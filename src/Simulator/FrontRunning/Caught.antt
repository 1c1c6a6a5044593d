-- ===== src/Simulator/FrontRunning/Caught.antt =====
-- cpp/simulator/abuse/front_running.cpp against cpp/detectors/front_running_detector.cpp.
use trade_surveillance_engin.Prelude.{
  ◌∙◌, find, or_else, text_eq, ◌≡◌, ◌≢◌, refl, sym, ℤ, pos, +ℤ_parts, ◌≤ℤ◌, Text, [], some, Double,
  true, false, arith, In, subst,
}
use trade_surveillance_engin.Fix.{new, Order, order}
use trade_surveillance_engin.OrderBook.{OrderBook}
use trade_surveillance_engin.Detectors.{to_int64}
use trade_surveillance_engin.Detectors.Accounts.{AccountRegistry, is_related, is_related_lem}
use trade_surveillance_engin.Detectors.FrontRunning.{
  FrontRunningConfig, RecentOrders, recent_of, evaluate, alert_for, key_for, handle_new,
}
use trade_surveillance_engin.Detectors.FrontRunning.Reactions.{
  Reacts, recorded, alerts_iff_Reacts, window_after_new,
}
use trade_surveillance_engin.Simulator.{Instrument, Account}
use trade_surveillance_engin.Simulator.Draws.{Draws, IsDraws, Gen}
use trade_surveillance_engin.Simulator.Scenario.{ScenarioOutput}
use trade_surveillance_engin.Simulator.FrontRunning.{generate_front_running_scenario}
use trade_surveillance_engin.Harness.Replay.{to_fix_order}
use trade_surveillance_engin.Simulator.FrontRunning.Generated.{IsFrontRun, generated}

-- A new order that reacts to the one before it on its instrument and side is reported against it.
reaction_fires :
    {F : Type 0} ⦃d : Double F⦄ (config : FrontRunningConfig F) (accounts : AccountRegistry)
    (s : RecentOrders) (b b' : OrderBook F) (o p : Order F)
    → o.status ≡ new
    → p.status ≡ new
    → o.instrument_id ≡ p.instrument_id
    → o.side ≡ p.side
    → Reacts config accounts p (recent_of o)
    → let s' = (evaluate config s b (order o) accounts).0 in
      In
        (alert_for config p (recent_of o) (to_int64 b'.sequence))
        (evaluate config s' b' (order p) accounts).1
unfolding evaluate
reaction_fires config accounts s b b' o p new_o new_p instrument side reacts =
    let (s', _) = handle_new config s o accounts (to_int64 b.sequence) in
    let keys : key_for o.instrument_id o.side ≡ key_for p.instrument_id p.side =
      rw (instrument, side) refl in
    let held : In (recent_of o) (recorded config accounts p s') =
      subst (λ k. In (recent_of o) (or_else (find text_eq k s') [])) keys
        (window_after_new config accounts o s (to_int64 b.sequence)).0 in
    rw (new_o, new_p)
      ((alerts_iff_Reacts config accounts p s' (to_int64 b'.sequence)).1 (recent_of o) held reacts)

-- The configuration reaches the sizes and the delays that the scenario draws.
pub record Watches {F : Type 0} ⦃d : Double F⦄ (config : FrontRunningConfig F) : Type 0 where
  pub threshold : config.min_large_qty_threshold ≤ℤ pos 1000
  pub lookback : pos 150_000_000 ≤ℤ config.lookback_window_ns
  pub ratio :
      (large small : ℤ)
      → pos 1000 ≤ℤ large
      → small ≤ℤ pos 500
      → d.lt (d.mul (d.of_int large) config.max_leader_to_large_size_ratio) (d.of_int small) ≡ false

front_run-Reacts :
    {F : Type 0} ⦃d : Double F⦄ (config : FrontRunningConfig F)
    → Watches config
    → (accounts : AccountRegistry) (a b : Account) → a.account_id ≢ b.account_id
    → is_related accounts a.account_id b.account_id ≡ true
    → (out : ScenarioOutput F) (w : IsFrontRun a b out)
    → Reacts config accounts (to_fix_order w.related) (recent_of (to_fix_order w.client))
unfolding to_fix_order
front_run-Reacts config watches accounts a b distinct related out w = record {
  other = rw (w.client_is, w.related_is) distinct;
  related =
      rw (w.client_is, w.related_is)
        (sym (is_related_lem accounts a.account_id b.account_id).1 ∙ related);
  large = omega (arith, watches.threshold, w.large.0);
  small = watches.ratio w.client.qty w.related.qty w.large.0 w.small.1;
  after = omega (arith, w.after, +ℤ_parts w.client.timestamp_ns (pos 20_000_000));
  within = omega (
    arith,
    w.soon,
    watches.lookback,
    +ℤ_parts w.client.timestamp_ns (pos 150_000_000),
    +ℤ_parts w.client.timestamp_ns config.lookback_window_ns,
  );
}

-- For two distinct related accounts, and a configuration whose threshold is at most 1000, whose window is
-- at least 150 ms, and whose ratio lets 500 pass beside 1000, the front running scenario ends from every
-- state. It makes a new order of the first account, of 1000 to 4000, and 20 to 150 ms after it a new order of
-- the second one on the same instrument and side, of 100 to 500, whose fill is at least 10 ms before that of
-- the first; every execution is on an order of the output. Given the first order and then the second, as the
-- replay translates them, the front running detector, whatever it recorded before, reports the second
-- order against the first.
pub generate_front_running_scenario-IsCaught :
    {F : Type 0} ⦃d : Double F⦄ (q : Draws F)
    → IsDraws q
    → (config : FrontRunningConfig F) → Watches config
    → (accounts : AccountRegistry) (a b : Account) → a.account_id ≢ b.account_id
    → is_related accounts a.account_id b.account_id ≡ true
    → (scenario_id : Text) (i : Instrument F) (base_price : F) (anchor_time_ns : ℤ) (severity : F)
      (venue : Text) (g : Gen q.Rng)
    → (out : ScenarioOutput F) × (g' : Gen q.Rng) × (generate_front_running_scenario q scenario_id i
          a b base_price anchor_time_ns severity venue g
        ≡ some (out, g'))
      × (w : IsFrontRun a b out) × ((s : RecentOrders) (book book' : OrderBook F)
          → let large = to_fix_order w.client in
            let small = to_fix_order w.related in
            let s' = (evaluate config s book (order large) accounts).0 in
            In
              (alert_for config small (recent_of large) (to_int64 book'.sequence))
              (evaluate config s' book' (order small) accounts).1)
unfolding to_fix_order
generate_front_running_scenario-IsCaught q lib config watches accounts a b distinct related
      scenario_id i base anchor severity venue g =
    let (out, g', e, w) = (generated q lib scenario_id i a b base anchor severity venue).made g in
    (
      out,
      g',
      e,
      w,
      λ s book book'.
          reaction_fires config accounts s book book' (to_fix_order w.client)
            (to_fix_order w.related) (rw w.client_new refl) (rw w.related_new refl) w.one_instrument
            w.one_side (front_run-Reacts config watches accounts a b distinct related out w),
    )
