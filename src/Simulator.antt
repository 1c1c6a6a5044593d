-- ===== src/Simulator.antt =====
-- cpp/simulator/types.hpp and .cpp: the labelled events of a synthetic session. Its Side, OrderType and
-- OrderStatus have the constructors of those of cpp/fix/types.hpp, and are taken to be those.
pub mod Draws
pub mod Universe
pub mod Baseline
pub mod Accounts
pub mod Scenario
pub mod WashTrade
pub mod FrontRunning
pub mod MarkingTheClose
pub mod Spoofing
pub mod Session
mod Tests
use trade_surveillance_engin.Prelude.{
  Text, codes, text_eq, Option, none, some, if◌then◌else◌, ◌≡◌, ℤ, pos, Bool, true, false, List, [],
  ◌↔◌, arith, Double,
}
use trade_surveillance_engin.Fix.{Side, OrderType, OrderStatus}

pub data AssetClass : Type 0 where
  equity fx fixed_income : AssetClass

pub data EntityType : Type 0 where
  client proprietary : EntityType

pub data AbusePattern : Type 0 where
  baseline wash_trade spoofing_layering marking_the_close front_running : AbusePattern

pub record GroundTruthLabel (F : Type 0) : Type 0 where
  pub pattern : AbusePattern
  pub scenario_id : Text
  pub severity : F

pub record SimulatedOrder (F : Type 0) : Type 0 where
  pub order_id : Text
  pub account_id : Text
  pub instrument_id : Text
  pub side : Side
  pub price : F
  pub qty : ℤ
  pub order_type : OrderType
  pub timestamp_ns : ℤ
  pub status : OrderStatus
  pub venue : Text
  pub ground_truth_label : GroundTruthLabel F

pub record SimulatedExecution (F : Type 0) : Type 0 where
  pub trade_id : Text
  pub order_id : Text
  pub account_id : Text
  pub instrument_id : Text
  pub price : F
  pub qty : ℤ
  pub timestamp_ns : ℤ
  pub counterparty_account_id : Text
  pub venue : Text
  pub ground_truth_label : GroundTruthLabel F

pub record Instrument (F : Type 0) : Type 0 where
  pub instrument_id : Text
  pub symbol : Text
  pub asset_class : AssetClass
  pub tick_size : F
  pub avg_daily_volume : ℤ
  pub session_close_ns : ℤ

pub record Account : Type 0 where
  pub account_id : Text
  pub beneficial_owner_id : Text
  pub entity_type : EntityType
  pub linked_account_ids : List Text

pub record SimulationOutput (F : Type 0) : Type 0 where
  pub instruments : List (Instrument F)
  pub accounts : List Account
  pub orders : List (SimulatedOrder F)
  pub executions : List (SimulatedExecution F)

abbrev pub pattern_eq : AbusePattern → AbusePattern → Bool
pattern_eq baseline baseline = true
pattern_eq wash_trade wash_trade = true
pattern_eq spoofing_layering spoofing_layering = true
pattern_eq marking_the_close marking_the_close = true
pattern_eq front_running front_running = true
pattern_eq _ _ = false

pub pattern_eq_iff : (p q : AbusePattern) → (pattern_eq p q ≡ true) ↔ (p ≡ q)
pattern_eq_iff p q = ground arith

unfoldable pub asset_class_to_string : AssetClass → Text
asset_class_to_string equity = codes "Equity"
asset_class_to_string fx = codes "FX"
asset_class_to_string fixed_income = codes "FixedIncome"

unfoldable pub entity_type_to_string : EntityType → Text
entity_type_to_string client = codes "Client"
entity_type_to_string proprietary = codes "Proprietary"

unfoldable pub abuse_pattern_to_string : AbusePattern → Text
abuse_pattern_to_string baseline = codes "Baseline"
abuse_pattern_to_string wash_trade = codes "WashTrade"
abuse_pattern_to_string spoofing_layering = codes "SpoofingLayering"
abuse_pattern_to_string marking_the_close = codes "MarkingTheClose"
abuse_pattern_to_string front_running = codes "FrontRunning"

unfoldable pub abuse_pattern_from_string : Text → Option AbusePattern
abuse_pattern_from_string value =
    if text_eq value (codes "Baseline")
    then some baseline
    else if text_eq value (codes "WashTrade")
    then some wash_trade
    else if text_eq value (codes "SpoofingLayering")
    then some spoofing_layering
    else if text_eq value (codes "MarkingTheClose")
    then some marking_the_close
    else if text_eq value (codes "FrontRunning")
    then some front_running
    else none

-- GroundTruthLabel{}
abbrev pub default_label : {F : Type 0} ⦃d : Double F⦄ → GroundTruthLabel F
default_label ⦃d⦄ = record { pattern = baseline; scenario_id = []; severity = d.of_int (pos 0) }

abbrev pub strip_order_label : {F : Type 0} ⦃d : Double F⦄ → SimulatedOrder F → SimulatedOrder F
strip_order_label o = record o { ground_truth_label = default_label }

abbrev pub strip_execution_label :
    {F : Type 0} ⦃d : Double F⦄ → SimulatedExecution F → SimulatedExecution F
strip_execution_label x = record x { ground_truth_label = default_label }
