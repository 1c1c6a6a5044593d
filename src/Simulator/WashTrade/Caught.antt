-- ===== src/Simulator/WashTrade/Caught.antt =====
-- cpp/simulator/abuse/wash_trade.cpp against cpp/detectors/wash_trade_detector.cpp.
use trade_surveillance_engin.Prelude.{
  here, there, ◌≡◌, ◌≢◌, inl, inr, refl, sym, ◌∙◌, ℤ, pos, negsuc, ◌≤ℤ◌, times, max_ℤ, min_ℤ, Text,
  [], ◌∷◌, some, if◌then◌else◌, Double, All, Bool, true, false, arith,
}
use trade_surveillance_engin.Fix.{Side, buy, sell, Execution, execution}
use trade_surveillance_engin.OrderBook.{OrderBook}
use trade_surveillance_engin.Detectors.Accounts.{
  AccountRegistry, is_related, is_related_iff, is_related_lem,
}
use trade_surveillance_engin.Detectors.WashTrade.{evaluate, alert_for, fires_iff_related}
use trade_surveillance_engin.Simulator.{
  wash_trade, SimulatedOrder, SimulatedExecution, Instrument, Account,
}
use trade_surveillance_engin.Simulator.Draws.{Draws, IsDraws, Gen}
use trade_surveillance_engin.Simulator.Draws.Makes.{
  Makes, Any, Makes-bind, Makes-returning, Makes-double, Makes-int64, Makes-order_id,
  Makes-trade_id,
}
use trade_surveillance_engin.Simulator.Scenario.{ScenarioOutput, IsBacked}
use trade_surveillance_engin.Simulator.WashTrade.{generate_wash_trade_scenario}
use trade_surveillance_engin.Harness.Replay.{to_fix_execution}

-- `a` and `b` trade one quantity with each other, on two opposite orders that allow it.
pub record IsWashed {F : Type 0} (a b : Account) (out : ScenarioOutput F) : Type 0 where
  pub order_a : SimulatedOrder F
  pub order_b : SimulatedOrder F
  pub execution_a : SimulatedExecution F
  pub execution_b : SimulatedExecution F
  pub both_orders : out.orders ≡ order_a ∷ order_b ∷ []
  pub both_executions : out.executions ≡ execution_a ∷ execution_b ∷ []
  pub owner_a : order_a.account_id ≡ a.account_id
  pub owner_b : order_b.account_id ≡ b.account_id
  pub trades_a : execution_a.account_id ≡ a.account_id
  pub trades_b : execution_b.account_id ≡ b.account_id
  pub opposite : order_a.side ≢ order_b.side
  pub fills_a : execution_a.order_id ≡ order_a.order_id
  pub fills_b : execution_b.order_id ≡ order_b.order_id
  pub crossed_a : execution_a.counterparty_account_id ≡ b.account_id
  pub crossed_b : execution_b.counterparty_account_id ≡ a.account_id
  pub same_qty : execution_a.qty ≡ execution_b.qty
  pub traded : pos 1 ≤ℤ execution_a.qty
  pub within_a : execution_a.qty ≤ℤ order_a.qty
  pub within_b : execution_a.qty ≤ℤ order_b.qty
  pub both_backed : IsBacked out
  pub labels :
      All (λ (o : SimulatedOrder F). o.ground_truth_label.pattern ≡ wash_trade) out.orders
      × All (λ (x : SimulatedExecution F). x.ground_truth_label.pattern ≡ wash_trade) out.executions

times_pos : (n : ℤ) → pos 2 ≤ℤ n → pos 1 ≤ℤ times n 100
times_pos (pos n) h = omega arith
times_pos (negsuc n) h = absurd (omega arith)

filled_lem :
    (n m : ℤ)
    → pos 1 ≤ℤ n
    → (pos 1 ≤ℤ min_ℤ n (max_ℤ (pos 1) m))
      × (min_ℤ n (max_ℤ (pos 1) m) ≤ℤ n)
      × (min_ℤ n (max_ℤ (pos 1) m) ≤ℤ max_ℤ (pos 1) m)
filled_lem n m h = ground arith

opposite_sides : (b : Bool) → (if b then buy else sell) ≢ (if b then sell else buy)
opposite_sides true e = cc
opposite_sides false e = cc

module _ {F : Type 0} ⦃d : Double F⦄ (q : Draws F) (lib : IsDraws q) where
  -- the quantity of the second leg before the bound
  abbrev rounded : ℤ → F → ℤ
  rounded n noise = q.llround (d.mul (d.of_int (times n 100)) (d.add (d.of_int (pos 1)) noise))

  pub generated :
      (scenario_id : Text) (i : Instrument F) (a b : Account) (base_price : F) (anchor_time_ns : ℤ)
      (severity : F) (venue : Text)
      → Makes (IsWashed a b) (
          generate_wash_trade_scenario q scenario_id i a b base_price anchor_time_ns severity venue)
  unfolding generate_wash_trade_scenario
  generated scenario_id i a b base_price anchor_time_ns severity venue =
      Makes-bind Any _ _ (Makes-double q _ _) λ u _.
        Makes-bind _ _ _ (Makes-int64 q lib (pos 2) (pos 20) (omega arith)) λ n hn.
          Makes-bind _ _ _ (Makes-int64 q lib (pos 0) (pos 500_000_000) (omega arith)) λ jitter _.
            Makes-bind Any _ _ (Makes-double q _ _) λ noise _.
              Makes-bind Any _ _ (Makes-double q _ _) λ ticks _.
                Makes-bind Any _ _ Makes-order_id λ id_a _.
                  Makes-bind Any _ _ Makes-order_id λ id_b _.
                    Makes-bind _ _ _
                      (Makes-int64 q lib (pos 10_000_000) (pos 200_000_000) (omega arith))
                      λ delay _. Makes-bind Any _ _ Makes-trade_id λ trade_a _.
                        Makes-bind Any _ _ Makes-trade_id λ trade_b _. Makes-returning _ (record {
                          order_a = _;
                          order_b = _;
                          execution_a = _;
                          execution_b = _;
                          both_orders = refl;
                          both_executions = refl;
                          owner_a = refl;
                          owner_b = refl;
                          trades_a = refl;
                          trades_b = refl;
                          opposite = opposite_sides (d.lt u (q.decimal 5 1));
                          fills_a = refl;
                          fills_b = refl;
                          crossed_a = refl;
                          crossed_b = refl;
                          same_qty = refl;
                          traded =
                              (filled_lem (times n 100) (rounded n noise) (times_pos n hn.0)).0;
                          within_a =
                              (filled_lem (times n 100) (rounded n noise) (times_pos n hn.0)).1;
                          within_b =
                              (filled_lem (times n 100) (rounded n noise) (times_pos n hn.0)).2;
                          both_backed = record {
                            backed = ((_, here, refl), ((_, there here, refl), tt));
                          };
                          labels = ((refl, (refl, tt)), (refl, (refl, tt)));
                        })

related_fires :
    {F : Type 0} ⦃d : Double F⦄ (accounts : AccountRegistry) (book : OrderBook F) (x : Execution F)
    → x.counterparty_account_id ≢ []
    → is_related accounts x.account_id x.counterparty_account_id ≡ true
    → evaluate book (execution x) accounts ≡ alert_for book x ∷ []
related_fires accounts book x named r =
    let relation = (is_related_iff accounts x.account_id x.counterparty_account_id).0 r in
    elim (fires_iff_related book x accounts) [
      | inl (e, _, _) ↦ e
      | inr (_, never) ↦ absurd (never named relation)
    ]

-- For accounts with an id that are related, the wash trade scenario ends from every state. It makes two
-- opposite orders, one of each account, and one execution of each, with the other account as its
-- counterparty and one quantity, at least 1 and at most that of either order; all carry a wash trade
-- label. On each execution, as the replay translates it, the wash trade detector raises its one alert.
pub generate_wash_trade_scenario-IsCaught :
    {F : Type 0} ⦃d : Double F⦄ (q : Draws F)
    → IsDraws q
    → (accounts : AccountRegistry) (a b : Account) → a.account_id ≢ []
    → b.account_id ≢ []
    → is_related accounts a.account_id b.account_id ≡ true
    → (scenario_id : Text) (i : Instrument F) (base_price : F) (anchor_time_ns : ℤ) (severity : F)
      (venue : Text) (g : Gen q.Rng)
    → (out : ScenarioOutput F) × (g' : Gen q.Rng) × (generate_wash_trade_scenario q scenario_id i a
          b base_price anchor_time_ns severity venue g
        ≡ some (out, g'))
      × IsWashed a b out
      × ((book : OrderBook F) (side : Side)
          → All
              (λ x.
                let f = to_fix_execution x side in
                evaluate book (execution f) accounts ≡ alert_for book f ∷ [])
              out.executions)
unfolding to_fix_execution
generate_wash_trade_scenario-IsCaught q lib accounts a b named_a named_b related scenario_id i base
      anchor severity venue g =
    let (out, g', e, w) = (generated q lib scenario_id i a b base anchor severity venue).made g in
    (
      out,
      g',
      e,
      w,
      λ book side. rw w.both_executions (
        related_fires accounts book (to_fix_execution w.execution_a side) (rw w.crossed_a named_b)
            (rw (w.trades_a, w.crossed_a) related),
        (
          related_fires accounts book (to_fix_execution w.execution_b side) (rw w.crossed_b named_a)
              (rw (w.trades_b, w.crossed_b)
                (sym (is_related_lem accounts a.account_id b.account_id).1 ∙ related)),
          tt,
        ),
      ),
    )
