-- ===== src/Simulator/FrontRunning.antt =====
-- cpp/simulator/abuse/front_running.{hpp,cpp}: an account that trades just after the large order of a related
-- one, and before its fill.
pub mod Generated
pub mod Caught
use trade_surveillance_engin.Prelude.{
  ℤ, pos, ◌+ℤ◌, times, max_ℤ, Text, List, [], ◌∷◌, ◌++◌, Option, none, some, if◌then◌else◌, Double,
  Bool, true, false,
}
use trade_surveillance_engin.Fix.{Side, buy, sell}
use trade_surveillance_engin.Simulator.{
  front_running, GroundTruthLabel, SimulatedOrder, SimulatedExecution, Instrument, Account,
}
use trade_surveillance_engin.Simulator.Draws.{
  Draws, M, ◌>>=◌, returning, uniform_double, uniform_int64, lerp, next_order_id, next_trade_id,
}
use trade_surveillance_engin.Simulator.Scenario.{
  ScenarioOutput, on_tick, synthetic_counterparty, limit_order, fill_of,
}

abbrev pub opposite : Side → Side
opposite buy = sell
opposite sell = buy

module _ {F : Type 0} ⦃d : Double F⦄ (q : Draws F) where
  abbrev direction_sign : Side → F
  direction_sign buy = d.of_int (pos 1)
  direction_sign sell = q.neg (d.of_int (pos 1))

  -- The reversal of the related account, after the fill of the client at `client_fill_ts`.
  unfoldable pub reversal :
      GroundTruthLabel F
      → Instrument F
      → Account
      → Side
      → F
      → ℤ
      → ℤ
      → Text
      → M q.Rng (ScenarioOutput F)
  reversal label instrument account_related side client_price qty_related client_fill_ts venue = do
    reversal_ticks ← uniform_int64 q (pos 1) (pos 2)
    let reversal_price =
        d.add client_price
          (d.mul (d.mul (direction_sign side) instrument.tick_size) (d.of_int reversal_ticks))
    reversal_order_id ← next_order_id
    placement_delay ← uniform_int64 q (pos 50_000_000) (pos 500_000_000)
    let reversal_order =
        limit_order label instrument venue reversal_order_id account_related (opposite side)
          reversal_price qty_related (client_fill_ts +ℤ placement_delay)
    reversal_trade_id ← next_trade_id
    fill_delay ← uniform_int64 q (pos 10_000_000) (pos 100_000_000)
    let reversal_execution =
        fill_of label instrument venue reversal_trade_id reversal_order reversal_price qty_related
          (reversal_order.timestamp_ns +ℤ fill_delay) synthetic_counterparty
    returning (record { orders = reversal_order ∷ []; executions = reversal_execution ∷ [] })

  unfoldable pub generate_front_running_scenario :
      Text → Instrument F → Account → Account → F → ℤ → F → Text → M q.Rng (ScenarioOutput F)
  generate_front_running_scenario scenario_id instrument account_client account_related base_price
        anchor_time_ns severity venue =
      do
        let label : GroundTruthLabel F = record {
          pattern = front_running;
          scenario_id = scenario_id;
          severity = severity;
        }
        u ← uniform_double q (d.of_int (pos 0)) (d.of_int (pos 1))
        let side = if d.lt u (q.decimal 5 1) then buy else sell
        let reference_price_rounded = on_tick q base_price instrument.tick_size
        n_client ← uniform_int64 q (pos 10) (pos 40)
        let qty_client = times n_client 100
        n_related ← uniform_int64 q (pos 1) (pos 5)
        let qty_related = times n_related 100
        reaction_delay_ns ← uniform_int64 q (pos 20_000_000) (pos 150_000_000)
        related_fill_delay_ns ← uniform_int64 q (pos 10_000_000) (pos 100_000_000)
        let min_lead_ns = (reaction_delay_ns +ℤ related_fill_delay_ns) +ℤ pos 10_000_000
        lead_jitter ← uniform_int64 q (pos 0) (pos 500_000_000)
        let front_run_lead_ns = max_ℤ min_lead_ns (
            q.truncate
              (lerp q (d.of_int (pos 20_000_000_000)) (d.of_int (pos 300_000_000)) severity)
            +ℤ lead_jitter)
        slip_ticks ← uniform_int64 q (pos 1) (pos 3)
        let related_price = reference_price_rounded
        let client_price =
            d.add reference_price_rounded
              (d.mul (d.mul (direction_sign side) (d.of_int slip_ticks)) instrument.tick_size)
        client_order_id ← next_order_id
        let client_order =
            limit_order label instrument venue client_order_id account_client side client_price
              qty_client anchor_time_ns
        related_order_id ← next_order_id
        let related_order =
            limit_order label instrument venue related_order_id account_related side related_price
              qty_related (anchor_time_ns +ℤ reaction_delay_ns)
        related_trade_id ← next_trade_id
        let related_execution =
            fill_of label instrument venue related_trade_id related_order related_price qty_related
              (related_order.timestamp_ns +ℤ related_fill_delay_ns) synthetic_counterparty
        let client_fill_ts = anchor_time_ns +ℤ front_run_lead_ns
        client_trade_id ← next_trade_id
        let client_execution =
            fill_of label instrument venue client_trade_id client_order client_price qty_client
              client_fill_ts synthetic_counterparty
        last ←
            (if d.le (q.decimal 5 1) severity
              then reversal label instrument account_related side client_price qty_related
                  client_fill_ts venue
              else returning (record { orders = []; executions = [] }))
        returning (record {
          orders = client_order ∷ related_order ∷ last.orders;
          executions = related_execution ∷ client_execution ∷ last.executions;
        })
