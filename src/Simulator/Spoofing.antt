-- ===== src/Simulator/Spoofing.antt =====
-- cpp/simulator/abuse/spoofing_layering.{hpp,cpp}: layers of orders on one side that are cancelled after an order
-- on the other side has traded. An int is an integer without bounds.
pub mod Cancelled
use trade_surveillance_engin.Prelude.{
  ℕ, zero, suc, ◌+◌, ◌*◌, ℤ, pos, negsuc, pos_part, ◌+ℤ◌, ◌-ℤ◌, leb_ℤ, times, max_ℤ, quotient, Text,
  List, [], ◌∷◌, ◌++◌, Option, none, some, if◌then◌else◌, Double, Bool, true, false,
}
use trade_surveillance_engin.Fix.{Side, buy, sell, cancelled}
use trade_surveillance_engin.Simulator.{
  spoofing_layering, GroundTruthLabel, SimulatedOrder, SimulatedExecution, Instrument, Account,
  default_label,
}
use trade_surveillance_engin.Simulator.Draws.{
  Draws, M, ◌>>=◌, returning, failing, element, uniform_double, uniform_int64, lerp, next_order_id,
  next_trade_id,
}
use trade_surveillance_engin.Simulator.Scenario.{
  ScenarioOutput, on_tick, synthetic_counterparty, limit_order, fill_of,
}

-- kSpeedScoreAnchorNs
abbrev speed_score_anchor_ns : ℤ
speed_score_anchor_ns = pos 5_000_000_000

-- kLayerStaggerNs
abbrev layer_stagger_ns : ℕ
layer_stagger_ns = 20_000_000

-- `layers.back()`, undefined on an empty vector
abbrev pub last_of : {A : Type 0} → List A → Option A
last_of [] = none
last_of (x ∷ []) = some x
last_of (x ∷ y ∷ ys) = last_of (y ∷ ys)

-- The locals that the loops read.
pub record Layering (F : Type 0) : Type 0 where
  pub label : GroundTruthLabel F
  pub instrument : Instrument F
  pub account : Account
  pub venue : Text
  pub anchor_time_ns : ℤ
  pub reference_price_rounded : F
  pub away_sign : F
  pub side_spoof : Side
  pub side_genuine : Side
  pub layer_qty : ℤ
  pub dwell_ns : ℤ
  pub cancel_cluster_jitter_ns : ℤ

module _ {F : Type 0} ⦃d : Double F⦄ (q : Draws F) where
  abbrev whole : ℕ → F
  whole n = d.of_int (pos n)

  -- kAnchorSafeZoneTicks
  abbrev safe_zone_ticks : F
  safe_zone_ticks = whole 8

  -- The loop that places the layers: so many, from the layer `i` on.
  unfoldable pub place_layers : ℕ → Layering F → ℕ → M q.Rng (List (SimulatedOrder F))
  place_layers zero c i = returning []
  place_layers (suc rounds) c i = do
    id ← next_order_id
    let price =
        d.add c.reference_price_rounded
          (d.mul (d.mul c.away_sign (d.add safe_zone_ticks (whole (i + 1)))) c.instrument.tick_size)
    let layer =
        limit_order c.label c.instrument c.venue id c.account c.side_spoof price c.layer_qty
          (c.anchor_time_ns +ℤ pos (i * layer_stagger_ns))
    rest ← place_layers rounds c (i + 1)
    returning (layer ∷ rest)

  -- The loop that cancels them.
  unfoldable pub cancel_layers :
      Layering F → ℤ → List (SimulatedOrder F) → M q.Rng (List (SimulatedOrder F))
  cancel_layers c cancel_anchor_ts [] = returning []
  cancel_layers c cancel_anchor_ts (layer ∷ layers) = do
    let half = quotient c.cancel_cluster_jitter_ns 2
    jitter ← uniform_int64 q (pos 0 -ℤ half) half
    let cancel = record layer {
      status = cancelled;
      timestamp_ns = max_ℤ (layer.timestamp_ns +ℤ pos 1_000_000) (cancel_anchor_ts +ℤ jitter);
    }
    rest ← cancel_layers c cancel_anchor_ts layers
    returning (cancel ∷ rest)

  -- An order that stands for the market, at an offset from the reference price.
  abbrev anchor : Layering F → Text → F → ℤ → SimulatedOrder F
  anchor c id price timestamp_ns =
      record (limit_order default_label c.instrument c.venue id c.account c.side_genuine price
        (pos 300) timestamp_ns) { account_id = synthetic_counterparty }

  -- When the dominant anchor is withdrawn: after the last layer, and then before the first cancel.
  abbrev pub anchor_move_ts : Layering F → ℤ → ℤ
  anchor_move_ts c last_layer_ts =
      let cancel_anchor_ts = c.anchor_time_ns +ℤ c.dwell_ns in
      let earliest = cancel_anchor_ts -ℤ quotient c.cancel_cluster_jitter_ns 2 in
      let middle = c.anchor_time_ns +ℤ quotient c.dwell_ns 2 in
      let later = if leb_ℤ middle last_layer_ts then last_layer_ts +ℤ pos 1_000_000 else middle in
      if leb_ℤ earliest later then earliest -ℤ pos 1_000_000 else later

  -- The scenario after its parameters are drawn.
  unfoldable pub spoof : ℕ → Layering F → M q.Rng (ScenarioOutput F)
  spoof num_layers c = do
    layers ← place_layers num_layers c 0
    dominant_id ← next_order_id
    let dominant =
        anchor c dominant_id
          (d.add c.reference_price_rounded
            (d.mul (d.mul c.away_sign (d.sub safe_zone_ticks (whole 1))) c.instrument.tick_size))
          c.anchor_time_ns
    back ← element (last_of layers)
    let move_ts = anchor_move_ts c back.timestamp_ns
    let dominant_cancel = record dominant { status = cancelled; timestamp_ns = move_ts }
    fallback_id ← next_order_id
    let fallback =
        anchor c fallback_id
          (d.sub c.reference_price_rounded
            (d.mul (d.mul c.away_sign (whole 1)) c.instrument.tick_size))
          (move_ts +ℤ pos 1_000_000)
    lead ← uniform_int64 q (pos 50_000_000) (pos 300_000_000)
    let early_ts = (c.anchor_time_ns +ℤ c.dwell_ns) -ℤ lead
    let genuine_ts =
        if leb_ℤ early_ts back.timestamp_ns then back.timestamp_ns +ℤ pos 10_000_000 else early_ts
    genuine_id ← next_order_id
    n ← uniform_int64 q (pos 1) (pos 5)
    let genuine =
        limit_order c.label c.instrument c.venue genuine_id c.account c.side_genuine
          (d.sub c.reference_price_rounded (d.mul c.away_sign c.instrument.tick_size)) (times n 100)
          genuine_ts
    trade_id ← next_trade_id
    delay ← uniform_int64 q (pos 10_000_000) (pos 100_000_000)
    let execution =
        fill_of c.label c.instrument c.venue trade_id genuine genuine.price genuine.qty
          (genuine_ts +ℤ delay) synthetic_counterparty
    cancels ← cancel_layers c (c.anchor_time_ns +ℤ c.dwell_ns) layers
    returning (record {
      orders = layers ++ (dominant ∷ dominant_cancel ∷ fallback ∷ genuine ∷ cancels);
      executions = execution ∷ [];
    })

  unfoldable pub generate_spoofing_layering_scenario :
      Text → Instrument F → Account → F → ℤ → F → Text → M q.Rng (ScenarioOutput F)
  generate_spoofing_layering_scenario scenario_id instrument account base_price anchor_time_ns
        severity venue =
      do
        let num_layers = pos 3 +ℤ q.llround (d.mul severity (whole 3))
        let qty_multiplier = lerp q (q.decimal 15 1) (whole 10) severity
        n ← uniform_int64 q (pos 2) (pos 10)
        let layer_qty = q.llround (d.mul (d.of_int (times n 100)) qty_multiplier)
        dwell_jitter ← uniform_int64 q (negsuc 499_999_999) (pos 500_000_000)
        let dwell_ns =
            q.truncate (
              lerp q (d.mul (q.decimal 18 1) (d.of_int speed_score_anchor_ns))
                (d.mul (q.decimal 2 1) (d.of_int speed_score_anchor_ns)) severity)
            +ℤ dwell_jitter
        u ← uniform_double q (whole 0) (whole 1)
        let spoof_sells = d.lt u (q.decimal 5 1)
        spoof (pos_part num_layers) (record {
          label = record {
            pattern = spoofing_layering;
            scenario_id = scenario_id;
            severity = severity;
          };
          instrument = instrument;
          account = account;
          venue = venue;
          anchor_time_ns = anchor_time_ns;
          reference_price_rounded = on_tick q base_price instrument.tick_size;
          away_sign = if spoof_sells then whole 1 else q.neg (whole 1);
          side_spoof = if spoof_sells then sell else buy;
          side_genuine = if spoof_sells then buy else sell;
          layer_qty = layer_qty;
          dwell_ns = dwell_ns;
          cancel_cluster_jitter_ns =
              q.truncate (lerp q (whole 5_000_000_000) (whole 50_000_000) severity);
        })
