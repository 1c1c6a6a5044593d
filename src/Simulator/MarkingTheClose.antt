-- ===== src/Simulator/MarkingTheClose.antt =====
-- cpp/simulator/abuse/marking_the_close.{hpp,cpp}: trades in one direction that crowd before the close. An int is
-- an integer without bounds.
pub mod Backed
use trade_surveillance_engin.Prelude.{
  ℕ, zero, suc, ◌+◌, ◌%◌, ◌^◌, ◌==◌, ltb, ℤ, pos, pos_part, ◌+ℤ◌, ◌-ℤ◌, max_ℤ, min_ℤ, Text, List,
  [], ◌∷◌, length, get_elem?, Option, none, some, if◌then◌else◌, Double,
}
use trade_surveillance_engin.Fix.{Side, buy, sell}
use trade_surveillance_engin.Simulator.{
  marking_the_close, GroundTruthLabel, SimulatedOrder, SimulatedExecution, Instrument, Account,
}
use trade_surveillance_engin.Simulator.Draws.{
  Draws, M, ◌>>=◌, returning, failing, element, uniform_double, uniform_int64, lerp, next_order_id,
  next_trade_id,
}
use trade_surveillance_engin.Simulator.Scenario.{
  ScenarioOutput, on_tick, synthetic_counterparty, limit_order, fill_of,
}

-- The locals that the loop over the trades reads.
pub record Closing (F : Type 0) : Type 0 where
  pub label : GroundTruthLabel F
  pub instrument : Instrument F
  pub accounts : List Account
  pub accounts_used : ℕ
  pub num_trades : ℤ
  pub window_ns : F
  pub window_start : ℤ
  pub close_time : ℤ
  pub reference_price_rounded : F
  pub direction_sign : F
  pub step_ticks : F
  pub side : Side
  pub qty_per_trade : ℤ
  pub venue : Text

-- `accounts[i % accounts_used]`; a remainder by zero, or an index out of range, is undefined behaviour.
abbrev pub account_at : List Account → ℕ → ℕ → Option Account
account_at accounts i used = if used == 0 then none else get_elem? accounts (i % used)

module _ {F : Type 0} ⦃d : Double F⦄ (q : Draws F) where
  -- One round of the loop, the round `i`.
  unfoldable pub close_trade : Closing F → ℕ → M q.Rng (SimulatedOrder F × SimulatedExecution F)
  close_trade c i = do
    let frac = d.div (d.of_int (pos (i + 1))) (d.of_int c.num_trades)
    back ←
        uniform_int64 q (pos 0) (
          q.truncate (d.div c.window_ns (d.mul (d.of_int (pos 2)) (d.of_int c.num_trades)))
          +ℤ pos 1)
    let ts =
        min_ℤ ((c.window_start +ℤ q.truncate (d.mul frac c.window_ns)) -ℤ back)
          (c.close_time -ℤ pos 1_000_000)
    account ← element (account_at c.accounts i c.accounts_used)
    let price = d.add c.reference_price_rounded (
        d.mul (d.mul (d.mul c.direction_sign (d.of_int (pos (i + 1)))) c.step_ticks)
          c.instrument.tick_size)
    order_id ← next_order_id
    let order =
        limit_order c.label c.instrument c.venue order_id account c.side price c.qty_per_trade ts
    trade_id ← next_trade_id
    delay ← uniform_int64 q (pos 1_000_000) (pos 20_000_000)
    returning (
      order,
      fill_of c.label c.instrument c.venue trade_id order price c.qty_per_trade (ts +ℤ delay)
          synthetic_counterparty,
    )

  -- The loop: so many rounds, from the round `i` on.
  unfoldable pub close_trades : ℕ → Closing F → ℕ → M q.Rng (ScenarioOutput F)
  close_trades zero c i = returning (record { orders = []; executions = [] })
  close_trades (suc rounds) c i = do
    one ← close_trade c i
    rest ← close_trades rounds c (i + 1)
    returning (record { orders = one.0 ∷ rest.orders; executions = one.1 ∷ rest.executions })

  abbrev pub larger : F → F → F
  larger a b = if d.lt a b then b else a

  -- `static_cast<size_t>` of a double, and the bound by the accounts
  abbrev pub accounts_used_for : F → List Account → ℕ
  accounts_used_for severity accounts =
      let used =
        pos_part (
          q.truncate (
            larger (d.of_int (pos 1))
              (q.round (lerp q (d.of_int (pos 2)) (d.of_int (pos 1)) severity))))
        % 2 ^ 64 in
      if ltb (length accounts) used then length accounts else used

  unfoldable pub generate_marking_the_close_scenario :
      Text → Instrument F → List Account → F → F → F → ℤ → Text → M q.Rng (ScenarioOutput F)
  generate_marking_the_close_scenario scenario_id instrument [] base_price severity
        orders_per_second instrument_count venue =
      returning (record { orders = []; executions = [] })
  generate_marking_the_close_scenario scenario_id instrument (first ∷ others) base_price severity
        orders_per_second instrument_count venue =
      do
        let accounts = first ∷ others
        let label : GroundTruthLabel F = record {
          pattern = marking_the_close;
          scenario_id = scenario_id;
          severity = severity;
        }
        let window_ns =
            lerp q (d.of_int (pos 300_000_000_000)) (d.of_int (pos 8_000_000_000)) severity
        let num_trades = pos 3 +ℤ q.llround (d.mul severity (d.of_int (pos 7)))
        let step_ticks = lerp q (q.decimal 5 1) (d.of_int (pos 4)) severity
        let instruments_for_rate = d.of_int (max_ℤ (pos 1) instrument_count)
        let expected_ambient_qty =
            d.mul
              (d.mul (d.mul (d.div orders_per_second instruments_for_rate) (q.decimal 75 2))
                (q.decimal 4795 2))
              (d.of_int (pos 300))
        let target_share = lerp q (q.decimal 15 2) (q.decimal 65 2) severity
        let total_scenario_qty =
            d.mul (d.div target_share (d.sub (d.of_int (pos 1)) target_share)) expected_ambient_qty
        u ← uniform_double q (d.of_int (pos 0)) (d.of_int (pos 1))
        let push_up = d.lt u (q.decimal 5 1)
        let close_time = instrument.session_close_ns
        let closing : Closing F = record {
          label = label;
          instrument = instrument;
          accounts = accounts;
          accounts_used = accounts_used_for severity accounts;
          num_trades = num_trades;
          window_ns = window_ns;
          window_start = close_time -ℤ q.truncate window_ns;
          close_time = close_time;
          reference_price_rounded = on_tick q base_price instrument.tick_size;
          direction_sign = if push_up then d.of_int (pos 1) else q.neg (d.of_int (pos 1));
          step_ticks = step_ticks;
          side = if push_up then buy else sell;
          qty_per_trade =
              max_ℤ (pos 1) (q.llround (d.div total_scenario_qty (d.of_int num_trades)));
          venue = venue;
        }
        close_trades (pos_part num_trades) closing 0
