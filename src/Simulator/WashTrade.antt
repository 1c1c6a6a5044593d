-- ===== src/Simulator/WashTrade.antt =====
-- cpp/simulator/abuse/wash_trade.{hpp,cpp}: two linked accounts that trade with each other.
pub mod Caught
use trade_surveillance_engin.Prelude.{
  ℤ, pos, ◌+ℤ◌, times, max_ℤ, min_ℤ, Text, List, [], ◌∷◌, Option, none, some, if◌then◌else◌, Double,
}
use trade_surveillance_engin.Fix.{Side, buy, sell, limit, new}
use trade_surveillance_engin.Simulator.{
  wash_trade, GroundTruthLabel, SimulatedOrder, SimulatedExecution, Instrument, Account,
}
use trade_surveillance_engin.Simulator.Scenario.{ScenarioOutput, on_tick, limit_order, fill_of}
use trade_surveillance_engin.Simulator.Draws.{
  Draws, M, ◌>>=◌, returning, uniform_double, uniform_int64, lerp, next_order_id, next_trade_id,
}

module _ {F : Type 0} ⦃d : Double F⦄ (q : Draws F) where
  abbrev whole : ℤ → F
  whole n = d.of_int n

  unfoldable pub generate_wash_trade_scenario :
      Text → Instrument F → Account → Account → F → ℤ → F → Text → M q.Rng (ScenarioOutput F)
  unfolding uniform_double uniform_int64 next_order_id next_trade_id
  generate_wash_trade_scenario scenario_id instrument account_a account_b base_price anchor_time_ns
        severity venue =
      do
        let label : GroundTruthLabel F = record {
          pattern = wash_trade;
          scenario_id = scenario_id;
          severity = severity;
        }
        u ← uniform_double q (whole (pos 0)) (whole (pos 1))
        let a_buys = d.lt u (q.decimal 5 1)
        let side_a = if a_buys then buy else sell
        let side_b = if a_buys then sell else buy
        n ← uniform_int64 q (pos 2) (pos 20)
        let qty_a = times n 100
        let qty_noise_frac = lerp q (q.decimal 20 2) (whole (pos 0)) severity
        let price_noise_ticks = lerp q (whole (pos 3)) (whole (pos 0)) severity
        jitter ← uniform_int64 q (pos 0) (pos 500_000_000)
        let leg_gap_ns =
            q.truncate (lerp q (whole (pos 30_000_000_000)) (whole (pos 200_000_000)) severity)
            +ℤ jitter
        noise ← uniform_double q (q.neg qty_noise_frac) qty_noise_frac
        let qty_b = max_ℤ (pos 1) (q.llround (d.mul (whole qty_a) (d.add (whole (pos 1)) noise)))
        let price_a = on_tick q base_price instrument.tick_size
        ticks ← uniform_double q (q.neg price_noise_ticks) price_noise_ticks
        let price_b = d.add price_a (d.mul ticks instrument.tick_size)
        order_a_id ← next_order_id
        let order_a =
            limit_order label instrument venue order_a_id account_a side_a price_a qty_a
              anchor_time_ns
        order_b_id ← next_order_id
        let order_b =
            limit_order label instrument venue order_b_id account_b side_b price_b qty_b
              (anchor_time_ns +ℤ leg_gap_ns)
        delay ← uniform_int64 q (pos 10_000_000) (pos 200_000_000)
        let trade_time_ns = order_b.timestamp_ns +ℤ delay
        let filled_qty = min_ℤ qty_a qty_b
        trade_a_id ← next_trade_id
        let execution_a =
            fill_of label instrument venue trade_a_id order_a price_a filled_qty trade_time_ns
              account_b.account_id
        trade_b_id ← next_trade_id
        let execution_b =
            fill_of label instrument venue trade_b_id order_b price_a filled_qty trade_time_ns
              account_a.account_id
        returning (record {
          orders = order_a ∷ order_b ∷ [];
          executions = execution_a ∷ execution_b ∷ [];
        })
