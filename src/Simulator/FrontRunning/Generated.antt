-- ===== src/Simulator/FrontRunning/Generated.antt =====
-- The orders and executions of cpp/simulator/abuse/front_running.cpp.
use trade_surveillance_engin.Prelude.{
  ℕ, ◌*◌, ◌≡◌, refl, ℤ, pos, negsuc, ◌+ℤ◌, +ℤ_parts, ◌≤ℤ◌, times, max_ℤ, Text, List, [], ◌∷◌,
  Double, arith, here, there,
}
use trade_surveillance_engin.Fix.{Side, new}
use trade_surveillance_engin.Simulator.{
  GroundTruthLabel, SimulatedOrder, SimulatedExecution, Instrument, Account,
}
use trade_surveillance_engin.Simulator.Draws.{Draws, IsDraws}
use trade_surveillance_engin.Simulator.Draws.Makes.{
  Makes, Any, Makes-bind, Makes-returning, Makes-double, Makes-int64, Makes-order_id,
  Makes-trade_id, Makes-if,
}
use trade_surveillance_engin.Simulator.Scenario.{ScenarioOutput, IsBacked, BackedBy-cons}
use trade_surveillance_engin.Simulator.FrontRunning.{reversal, generate_front_running_scenario}

-- A large order of `a`, then, 20 to 150 ms later, a smaller one of `b` on the same side, which is filled at
-- least 10 ms before the first one is.
pub record IsFrontRun {F : Type 0} (a b : Account) (out : ScenarioOutput F) : Type 0 where
  pub client : SimulatedOrder F
  pub related : SimulatedOrder F
  pub later_orders : List (SimulatedOrder F)
  pub related_fill : SimulatedExecution F
  pub client_fill : SimulatedExecution F
  pub later_executions : List (SimulatedExecution F)
  pub all_orders : out.orders ≡ client ∷ related ∷ later_orders
  pub all_executions : out.executions ≡ related_fill ∷ client_fill ∷ later_executions
  pub client_is : client.account_id ≡ a.account_id
  pub related_is : related.account_id ≡ b.account_id
  pub client_new : client.status ≡ new
  pub related_new : related.status ≡ new
  pub one_instrument : client.instrument_id ≡ related.instrument_id
  pub one_side : client.side ≡ related.side
  pub large : (pos 1000 ≤ℤ client.qty) × (client.qty ≤ℤ pos 4000)
  pub small : (pos 100 ≤ℤ related.qty) × (related.qty ≤ℤ pos 500)
  pub after : client.timestamp_ns +ℤ pos 20_000_000 ≤ℤ related.timestamp_ns
  pub soon : related.timestamp_ns ≤ℤ client.timestamp_ns +ℤ pos 150_000_000
  pub all_backed : IsBacked out
  pub fills_client : client_fill.order_id ≡ client.order_id
  pub fills_related : related_fill.order_id ≡ related.order_id
  pub ahead : related_fill.timestamp_ns +ℤ pos 10_000_000 ≤ℤ client_fill.timestamp_ns

hundreds :
    (m k : ℕ) (n : ℤ)
    → pos m ≤ℤ n
    → n ≤ℤ pos k
    → (pos (m * 100) ≤ℤ times n 100) × (times n 100 ≤ℤ pos (k * 100))
hundreds m k (pos n) h h' = (omega arith, omega arith)
hundreds m k (negsuc n) h h' = absurd (omega arith)

after_lem :
    (t r : ℤ)
    → pos 20_000_000 ≤ℤ r
    → r ≤ℤ pos 150_000_000
    → (t +ℤ pos 20_000_000 ≤ℤ t +ℤ r) × (t +ℤ r ≤ℤ t +ℤ pos 150_000_000)
after_lem t r h h' =
    ground (arith, +ℤ_parts t r, +ℤ_parts t (pos 20_000_000), +ℤ_parts t (pos 150_000_000))

ahead_lem :
    (t r f m : ℤ) → ((t +ℤ r) +ℤ f) +ℤ pos 10_000_000 ≤ℤ t +ℤ max_ℤ ((r +ℤ f) +ℤ pos 10_000_000) m
ahead_lem t r f m =
    let k = (r +ℤ f) +ℤ pos 10_000_000 in
    let most : k ≤ℤ max_ℤ k m = ground arith in
    omega (
      arith,
      most,
      +ℤ_parts t r,
      +ℤ_parts (t +ℤ r) f,
      +ℤ_parts ((t +ℤ r) +ℤ f) (pos 10_000_000),
      +ℤ_parts r f,
      +ℤ_parts (r +ℤ f) (pos 10_000_000),
      +ℤ_parts t (max_ℤ k m),
    )

IsBacked-alone :
    {F : Type 0} (o : SimulatedOrder F) (x : SimulatedExecution F)
    → o.order_id ≡ x.order_id
    → IsBacked (record { orders = o ∷ []; executions = x ∷ [] })
IsBacked-alone o x e = record { backed = ((o, here, e), tt) }

module _ {F : Type 0} ⦃d : Double F⦄ (q : Draws F) (lib : IsDraws q) where
  reversed :
      (label : GroundTruthLabel F) (i : Instrument F) (a : Account) (side : Side) (price : F)
      (qty t : ℤ) (venue : Text)
      → Makes IsBacked (reversal q label i a side price qty t venue)
  unfolding reversal
  reversed label i a side price qty t venue =
      Makes-bind _ _ _ (Makes-int64 q lib (pos 1) (pos 2) (omega arith)) λ n _.
        Makes-bind Any _ _ Makes-order_id λ id _.
          Makes-bind _ _ _ (Makes-int64 q lib (pos 50_000_000) (pos 500_000_000) (omega arith))
            λ s _. Makes-bind Any _ _ Makes-trade_id λ id' _.
              Makes-bind _ _ _ (Makes-int64 q lib (pos 10_000_000) (pos 100_000_000) (omega arith))
                λ s' _. Makes-returning _ (IsBacked-alone _ _ refl)

  pub generated :
      (scenario_id : Text) (i : Instrument F) (a b : Account) (base_price : F) (anchor_time_ns : ℤ)
      (severity : F) (venue : Text)
      → Makes (IsFrontRun a b) (
          generate_front_running_scenario q scenario_id i a b base_price anchor_time_ns severity
            venue)
  unfolding generate_front_running_scenario
  generated scenario_id i a b base_price anchor severity venue =
      Makes-bind Any _ _ (Makes-double q _ _) λ u _.
        Makes-bind _ _ _ (Makes-int64 q lib (pos 10) (pos 40) (omega arith)) λ m hm.
          Makes-bind _ _ _ (Makes-int64 q lib (pos 1) (pos 5) (omega arith)) λ n hn.
            Makes-bind _ _ _ (Makes-int64 q lib (pos 20_000_000) (pos 150_000_000) (omega arith))
              λ r hr.
                Makes-bind _ _ _
                  (Makes-int64 q lib (pos 10_000_000) (pos 100_000_000) (omega arith))
                  λ f hf.
                    Makes-bind _ _ _ (Makes-int64 q lib (pos 0) (pos 500_000_000) (omega arith))
                      λ jitter _.
                        Makes-bind _ _ _ (Makes-int64 q lib (pos 1) (pos 3) (omega arith)) λ slip _.
                          Makes-bind Any _ _ Makes-order_id λ id_client _.
                            Makes-bind Any _ _ Makes-order_id λ id_related _.
                              Makes-bind Any _ _ Makes-trade_id λ trade_related _.
                                Makes-bind Any _ _ Makes-trade_id λ trade_client _.
                                  Makes-bind IsBacked _ _
                                    (Makes-if (d.le (q.decimal 5 1) severity)
                                      (reversed _ _ _ _ _ _ _ _)
                                      (Makes-returning _ (record { backed = tt })))
                                    λ last hl. Makes-returning _ (record {
                                      client = _;
                                      related = _;
                                      later_orders = last.orders;
                                      related_fill = _;
                                      client_fill = _;
                                      later_executions = last.executions;
                                      all_orders = refl;
                                      all_executions = refl;
                                      client_is = refl;
                                      related_is = refl;
                                      client_new = refl;
                                      related_new = refl;
                                      one_instrument = refl;
                                      one_side = refl;
                                      large = hundreds 10 40 m hm.0 hm.1;
                                      small = hundreds 1 5 n hn.0 hn.1;
                                      after = (after_lem anchor r hr.0 hr.1).0;
                                      soon = (after_lem anchor r hr.0 hr.1).1;
                                      all_backed = record {
                                        backed = (
                                          (_, there here, refl),
                                          (
                                            (_, here, refl),
                                            BackedBy-cons _ _ _ (BackedBy-cons _ _ _ hl.backed),
                                          ),
                                        );
                                      };
                                      fills_client = refl;
                                      fills_related = refl;
                                      ahead = ahead_lem anchor r f _;
                                    })
