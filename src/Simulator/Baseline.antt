-- ===== src/Simulator/Baseline.antt =====
-- cpp/simulator/baseline_generator.{hpp,cpp}: the ordinary flow of orders. The loop over the arrivals takes
-- fuel; without it, and on an empty vector, the result is `none`.
pub mod Relations
pub mod Backed
pub mod Ends
use trade_surveillance_engin.Prelude.{
  ℕ, zero, suc, ℤ, pos, ◌+ℤ◌, leb_ℤ, max_ℤ, quotient, Text, codes, text_eq, is_empty, find, put,
  or_else, Bool, true, false, not, ◌&&◌, ◌||◌, List, [], ◌∷◌, ◌++◌, Option, none, some,
  if◌then◌else◌, Double,
}
use trade_surveillance_engin.Fix.{Side, buy, sell, OrderType, limit, market, new, cancelled}
use trade_surveillance_engin.Detectors.Accounts.{contains}
use trade_surveillance_engin.Simulator.{
  SimulatedOrder, SimulatedExecution, Instrument, Account, default_label,
}
use trade_surveillance_engin.Simulator.Draws.{
  Draws, M, ◌>>=◌, returning, failing, uniform_double, uniform_int64, poisson_interarrival_ns,
  sample_from_percentiles, pick_random, next_order_id, next_trade_id,
}
use trade_surveillance_engin.Simulator.Universe.{reference_price}

pub record BaselineConfig (F : Type 0) : Type 0 where
  pub orders_per_second : F
  pub start_time_ns : ℤ
  pub end_time_ns : ℤ

pub record BaselineOutput (F : Type 0) : Type 0 where
  pub orders : List (SimulatedOrder F)
  pub executions : List (SimulatedExecution F)

-- kVenue
abbrev pub venue_name : Text
venue_name = codes "SIM"

unfoldable pub accounts_related : Account → Account → Bool
unfolding contains
accounts_related a b =
    if text_eq a.account_id b.account_id
    then true
    else if not (is_empty a.beneficial_owner_id)
        && text_eq a.beneficial_owner_id b.beneficial_owner_id
    then true
    else if contains b.account_id a.linked_account_ids
    then true
    else contains a.account_id b.linked_account_ids

module _ {F : Type 0} ⦃d : Double F⦄ (q : Draws F) where
  -- kTradeSizePercentiles, after its first point
  abbrev trade_sizes : List (F × ℤ)
  trade_sizes =
      (q.decimal 10 2, pos 1)
      ∷ (q.decimal 25 2, pos 4)
      ∷ (q.decimal 50 2, pos 20)
      ∷ (q.decimal 75 2, pos 50)
      ∷ (q.decimal 90 2, pos 100)
      ∷ (q.decimal 99 2, pos 460)
      ∷ (d.of_int (pos 1), pos 460)
      ∷ []

  -- kPriceMoveMagnitudePercentiles, after its first point
  abbrev price_moves : List (F × ℤ)
  price_moves =
      (q.decimal 10 2, pos 0)
      ∷ (q.decimal 25 2, pos 0)
      ∷ (q.decimal 50 2, pos 0)
      ∷ (q.decimal 75 2, pos 1)
      ∷ (q.decimal 90 2, pos 4)
      ∷ (q.decimal 99 2, pos 28)
      ∷ (d.of_int (pos 1), pos 28)
      ∷ []

  -- kSpreadOffsetPercentiles, after its first point
  abbrev spread_offsets : List (F × ℤ)
  spread_offsets =
      (q.decimal 10 2, pos 0)
      ∷ (q.decimal 25 2, pos 1)
      ∷ (q.decimal 50 2, pos 1)
      ∷ (q.decimal 75 2, pos 2)
      ∷ (q.decimal 90 2, pos 3)
      ∷ (q.decimal 99 2, pos 10)
      ∷ (d.of_int (pos 1), pos 10)
      ∷ []

  abbrev round_to_tick : F → F → F
  round_to_tick price tick_size =
      if d.le tick_size (d.of_int (pos 0))
      then price
      else d.mul (q.round (d.div price tick_size)) tick_size

  abbrev unit_draw : M q.Rng F
  unit_draw = uniform_double q (d.of_int (pos 0)) (d.of_int (pos 1))

  abbrev half_draw : F → Bool
  half_draw u = d.lt u (q.decimal 5 1)

  -- The redraws of a counterparty that is related to the account.
  unfoldable pub redraw : ℕ → List Account → Account → Account → M q.Rng Account
  redraw zero accounts account counterparty = returning counterparty
  redraw (suc attempts) accounts account counterparty =
      elim (accounts_related counterparty account) [
        | true ↦ do other ← pick_random q accounts; redraw attempts accounts account other
        | false ↦ returning counterparty
      ]

  -- A fill of the order for a quantity.
  unfoldable pub fill_order :
      List Account → Account → SimulatedOrder F → ℤ → M q.Rng (SimulatedExecution F)
  fill_order accounts account order qty = do
    fill_delay_ns ← uniform_int64 q (pos 10_000_000) (pos 2_000_000_000)
    first ← pick_random q accounts
    counterparty ← redraw 5 accounts account first
    id ← next_trade_id
    returning (record {
      trade_id = id;
      order_id = order.order_id;
      account_id = order.account_id;
      instrument_id = order.instrument_id;
      price = order.price;
      qty = qty;
      timestamp_ns = order.timestamp_ns +ℤ fill_delay_ns;
      counterparty_account_id = counterparty.account_id;
      venue = venue_name;
      ground_truth_label = default_label;
    })

  -- What happens to a placed order: the orders and executions that follow it.
  unfoldable pub outcome_of :
      List Account → Account → SimulatedOrder F → F → M q.Rng (BaselineOutput F)
  outcome_of accounts account order outcome =
      if d.lt outcome (q.decimal 60 2)
      then (do
        x ← fill_order accounts account order order.qty
        returning (record { orders = []; executions = x ∷ [] }))
      else if d.lt outcome (q.decimal 75 2)
      then (do
        x ← fill_order accounts account order (max_ℤ (pos 1) (quotient order.qty 2))
        returning (record { orders = []; executions = x ∷ [] }))
      else if d.lt outcome (q.decimal 90 2)
      then (do
        dwell_ns ← uniform_int64 q (pos 500_000_000) (pos 30_000_000_000)
        let cancel = record order {
          status = cancelled;
          timestamp_ns = order.timestamp_ns +ℤ dwell_ns;
        }
        returning (record { orders = cancel ∷ []; executions = [] }))
      else returning (record { orders = []; executions = [] })

  -- `mid_price`; a missing instrument has the price zero.
  abbrev pub Mids : Type 0
  Mids = List (Text × F)

  unfoldable pub initial_mids : Mids → List (Instrument F) → Mids
  unfolding reference_price
  initial_mids mids [] = mids
  initial_mids mids (i ∷ instruments) =
      initial_mids (put text_eq i.instrument_id (reference_price q i) mids) instruments

  -- One arrival, at the time `t`.
  unfoldable pub arrive :
      List (Instrument F) → List Account → ℤ → Mids → M q.Rng (Mids × BaselineOutput F)
  arrive instruments accounts t mid_price = do
    instrument ← pick_random q instruments
    account ← pick_random q accounts
    let old = or_else (find text_eq instrument.instrument_id mid_price) (d.of_int (pos 0))
    move_ticks ← sample_from_percentiles q (d.of_int (pos 0), pos 0) price_moves
    sign ← unit_draw
    let move_sign = if half_draw sign then q.neg (d.of_int (pos 1)) else d.of_int (pos 1)
    let moved = d.add old (d.mul (d.mul move_sign (d.of_int move_ticks)) instrument.tick_size)
    let mid = if d.lt instrument.tick_size moved then moved else instrument.tick_size
    u ← unit_draw
    let side = if half_draw u then buy else sell
    offset_ticks ← sample_from_percentiles q (d.of_int (pos 0), pos 0) spread_offsets
    let side_sign = if half_draw u then q.neg (d.of_int (pos 1)) else d.of_int (pos 1)
    let price =
        round_to_tick
          (d.add mid (d.mul (d.mul side_sign (d.of_int offset_ticks)) instrument.tick_size))
          instrument.tick_size
    qty ← sample_from_percentiles q (d.of_int (pos 0), pos 1) trade_sizes
    v ← unit_draw
    let order_type = if d.lt v (q.decimal 1 1) then market else limit
    id ← next_order_id
    let order : SimulatedOrder F = record {
      order_id = id;
      account_id = account.account_id;
      instrument_id = instrument.instrument_id;
      side = side;
      price = price;
      qty = qty;
      order_type = order_type;
      timestamp_ns = t;
      status = new;
      venue = venue_name;
      ground_truth_label = default_label;
    }
    outcome ← unit_draw
    after ← outcome_of accounts account order outcome
    returning (
      put text_eq instrument.instrument_id mid mid_price,
      record { orders = order ∷ after.orders; executions = after.executions },
    )

  unfoldable pub arrivals :
      ℕ
      → BaselineConfig F
      → List (Instrument F)
      → List Account
      → ℤ
      → Mids
      → M q.Rng (BaselineOutput F)
  arrivals zero config instruments accounts t mid_price = failing
  arrivals (suc fuel) config instruments accounts t mid_price = do
    gap ← poisson_interarrival_ns q config.orders_per_second
    elim (leb_ℤ config.end_time_ns (t +ℤ gap)) [
      | true ↦ returning (record { orders = []; executions = [] })
      | false ↦ do
        one ← arrive instruments accounts (t +ℤ gap) mid_price
        rest ← arrivals fuel config instruments accounts (t +ℤ gap) one.0
        returning (record {
          orders = one.1.orders ++ rest.orders;
          executions = one.1.executions ++ rest.executions;
        })
    ]

  unfoldable pub generate_baseline_flow :
      ℕ → BaselineConfig F → List (Instrument F) → List Account → M q.Rng (BaselineOutput F)
  generate_baseline_flow fuel config [] accounts =
      returning (record { orders = []; executions = [] })
  generate_baseline_flow fuel config (i ∷ more) [] =
      returning (record { orders = []; executions = [] })
  generate_baseline_flow fuel config (i ∷ more) (a ∷ others) =
      arrivals fuel config (i ∷ more) (a ∷ others) config.start_time_ns (initial_mids [] (i ∷ more))
