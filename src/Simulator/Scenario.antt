-- ===== src/Simulator/Scenario.antt =====
-- What the scenario generators of cpp/simulator/abuse/ share: their output, and the orders and executions that
-- they fill in field by field.
use trade_surveillance_engin.Prelude.{
  ◌++◌, All-append, In-append_left, In-append_right, All-imp, there, ◌∷◌, ◌≡◌, All, In, ℤ, Text,
  codes, List, Double,
}
use trade_surveillance_engin.Fix.{Side, limit, new}
use trade_surveillance_engin.Simulator.{
  GroundTruthLabel, SimulatedOrder, SimulatedExecution, Instrument, Account,
}
use trade_surveillance_engin.Simulator.Draws.{Draws}

pub record ScenarioOutput (F : Type 0) : Type 0 where
  pub orders : List (SimulatedOrder F)
  pub executions : List (SimulatedExecution F)

-- Every execution is on one of the orders.
abbrev pub BackedBy : {F : Type 0} → List (SimulatedOrder F) → List (SimulatedExecution F) → Type 0
BackedBy {F} orders executions =
    All
      (λ (x : SimulatedExecution F).
        (o : SimulatedOrder F) × In o orders × (o.order_id ≡ x.order_id))
      executions

pub record IsBacked {F : Type 0} (out : ScenarioOutput F) : Type 0 where
  pub backed : BackedBy out.orders out.executions

pub BackedBy-cons :
    {F : Type 0} (o : SimulatedOrder F) (orders : List (SimulatedOrder F))
    (executions : List (SimulatedExecution F))
    → BackedBy orders executions
    → BackedBy (o ∷ orders) executions
BackedBy-cons o orders executions h = All-imp executions (λ x (o', i, e). (o', there i, e)) h

pub BackedBy-append :
    {F : Type 0} (os ps : List (SimulatedOrder F)) (xs ys : List (SimulatedExecution F))
    → BackedBy os xs
    → BackedBy ps ys
    → BackedBy (os ++ ps) (xs ++ ys)
BackedBy-append os ps xs ys h k =
    All-append _ xs ys (All-imp xs (λ x (o, i, e). (o, In-append_left os ps i, e)) h)
      (All-imp ys (λ x (o, i, e). (o, In-append_right os ps i, e)) k)

-- std::round(price / tick_size) * tick_size
abbrev pub on_tick : {F : Type 0} ⦃d : Double F⦄ → Draws F → F → F → F
on_tick ⦃d⦄ q price tick_size = d.mul (q.round (d.div price tick_size)) tick_size

-- kSyntheticCounterparty
abbrev pub synthetic_counterparty : Text
synthetic_counterparty = codes "MKT-COUNTERPARTY"

module _ {F : Type 0} (label : GroundTruthLabel F) (instrument : Instrument F) (venue : Text) where
  -- a new limit order: id, account, side, price, quantity and time
  abbrev pub limit_order : Text → Account → Side → F → ℤ → ℤ → SimulatedOrder F
  limit_order id account side price qty timestamp_ns = record {
    order_id = id;
    account_id = account.account_id;
    instrument_id = instrument.instrument_id;
    side = side;
    price = price;
    qty = qty;
    order_type = limit;
    timestamp_ns = timestamp_ns;
    status = new;
    venue = venue;
    ground_truth_label = label;
  }

  -- an execution of an account on an order: id, price, quantity, time and counterparty
  abbrev pub fill_of : Text → SimulatedOrder F → F → ℤ → ℤ → Text → SimulatedExecution F
  fill_of id order price qty timestamp_ns counterparty = record {
    trade_id = id;
    order_id = order.order_id;
    account_id = order.account_id;
    instrument_id = instrument.instrument_id;
    price = price;
    qty = qty;
    timestamp_ns = timestamp_ns;
    counterparty_account_id = counterparty;
    venue = venue;
    ground_truth_label = label;
  }
