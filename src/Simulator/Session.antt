-- ===== src/Simulator/Session.antt =====
-- cpp/simulator/simulator.{hpp,cpp}: a whole session. The baseline flow and the scenarios draw from generators of
-- their own and share the generators of ids. `fuel` bounds the arrivals of the baseline flow.
pub mod Backed
pub mod Replayed
mod Tests
use trade_surveillance_engin.Prelude.{
  ℕ, zero, suc, ◌%◌, ◌^◌, ℤ, pos, pos_part, ◌+ℤ◌, ◌-ℤ◌, max_ℤ, Text, codes, List, [], ◌∷◌, ◌++◌,
  Option, none, some, Double, stable_sort,
}
use Prim.Native.Nat.{bit_xor}
use trade_surveillance_engin.Simulator.{
  Instrument, Account, SimulatedOrder, SimulatedExecution, SimulationOutput,
}
use trade_surveillance_engin.Simulator.Draws.{
  Draws, M, ◌>>=◌, returning, IdGenerator, next, Gen, uniform_int64, pick_random,
}
use trade_surveillance_engin.Simulator.Scenario.{ScenarioOutput}
use trade_surveillance_engin.Simulator.Universe.{build_instrument_universe, reference_price}
use trade_surveillance_engin.Simulator.Accounts.{
  AccountRegistry, make_registry, random_independent, random_linked_pair,
}
use trade_surveillance_engin.Simulator.Baseline.{
  BaselineConfig, BaselineOutput, generate_baseline_flow, venue_name,
}
use trade_surveillance_engin.Simulator.WashTrade.{generate_wash_trade_scenario}
use trade_surveillance_engin.Simulator.Spoofing.{generate_spoofing_layering_scenario}
use trade_surveillance_engin.Simulator.MarkingTheClose.{generate_marking_the_close_scenario}
use trade_surveillance_engin.Simulator.FrontRunning.{generate_front_running_scenario}

pub record AbusePatternConfig (F : Type 0) : Type 0 where
  pub count : ℤ
  pub severity : F

pub record SimulatorConfig (F : Type 0) : Type 0 where
  pub random_seed : ℕ
  pub session_start_ns : ℤ
  pub session_duration_ns : ℤ
  pub num_equity_instruments : ℤ
  pub num_fx_instruments : ℤ
  pub num_fixed_income_instruments : ℤ
  pub baseline_orders_per_second : F
  pub num_independent_accounts : ℤ
  pub num_linked_account_pairs : ℤ
  pub wash_trade : AbusePatternConfig F
  pub spoofing_layering : AbusePatternConfig F
  pub marking_the_close : AbusePatternConfig F
  pub front_running : AbusePatternConfig F

-- 0x9E3779B97F4A7C15
abbrev pub abuse_salt : ℕ
abuse_salt = 11_400_714_819_323_198_485

-- kScenarioMarginNs
abbrev scenario_margin_ns : ℤ
scenario_margin_ns = pos 300_000_000_000

abbrev pub ids_of : Text → IdGenerator
ids_of prefix = record { prefix = prefix; counter = 1 }

abbrev pub nothing : {F : Type 0} → ScenarioOutput F
nothing = record { orders = []; executions = [] }

abbrev pub append : {F : Type 0} → ScenarioOutput F → ScenarioOutput F → ScenarioOutput F
append a b = record { orders = a.orders ++ b.orders; executions = a.executions ++ b.executions }

module _ {F : Type 0} ⦃d : Double F⦄ (q : Draws F) where
  -- A loop over the scenarios of one kind, each with the next scenario id.
  unfoldable pub inject :
      ℕ → IdGenerator → (Text → M q.Rng (ScenarioOutput F)) → M q.Rng (ScenarioOutput F)
  inject zero ids scenario = returning nothing
  inject (suc n) ids scenario = do
    one ← scenario (next ids).0
    rest ← inject n (next ids).1 scenario
    returning (append one rest)

  module _ (config : SimulatorConfig F) (instruments : List (Instrument F))
      (registry : AccountRegistry) (session_end_ns : ℤ) where
    abbrev random_anchor : M q.Rng ℤ
    random_anchor =
        uniform_int64 q config.session_start_ns
          (max_ℤ config.session_start_ns (session_end_ns -ℤ scenario_margin_ns))

    -- The bodies of the four loops.
    unfoldable pub one_wash_trade : Text → M q.Rng (ScenarioOutput F)
    one_wash_trade scenario_id = do
      instrument ← pick_random q instruments
      pair ← random_linked_pair q registry
      anchor ← random_anchor
      generate_wash_trade_scenario q scenario_id instrument pair.0 pair.1
          (reference_price q instrument) anchor config.wash_trade.severity venue_name

    unfoldable pub one_spoofing : Text → M q.Rng (ScenarioOutput F)
    one_spoofing scenario_id = do
      instrument ← pick_random q instruments
      account ← random_independent q registry
      anchor ← random_anchor
      generate_spoofing_layering_scenario q scenario_id instrument account
          (reference_price q instrument) anchor config.spoofing_layering.severity venue_name

    unfoldable pub one_marking_the_close : Text → M q.Rng (ScenarioOutput F)
    one_marking_the_close scenario_id = do
      instrument ← pick_random q instruments
      pair ← random_linked_pair q registry
      generate_marking_the_close_scenario q scenario_id instrument (pair.0 ∷ pair.1 ∷ [])
          (reference_price q instrument) config.marking_the_close.severity
          config.baseline_orders_per_second
          ((config.num_equity_instruments +ℤ config.num_fx_instruments)
            +ℤ config.num_fixed_income_instruments)
          venue_name

    unfoldable pub one_front_running : Text → M q.Rng (ScenarioOutput F)
    one_front_running scenario_id = do
      instrument ← pick_random q instruments
      pair ← random_linked_pair q registry
      anchor ← random_anchor
      generate_front_running_scenario q scenario_id instrument pair.0 pair.1
          (reference_price q instrument) anchor config.front_running.severity venue_name

    unfoldable pub inject_all : M q.Rng (ScenarioOutput F)
    inject_all = do
      wash ← inject (pos_part config.wash_trade.count) (ids_of (codes "SCN-WASH")) one_wash_trade
      spoof ←
          inject (pos_part config.spoofing_layering.count) (ids_of (codes "SCN-SPOOF")) one_spoofing
      mtc ←
          inject (pos_part config.marking_the_close.count) (ids_of (codes "SCN-MTC"))
            one_marking_the_close
      fr ← inject (pos_part config.front_running.count) (ids_of (codes "SCN-FR")) one_front_running
      returning (append wash (append spoof (append mtc fr)))

  abbrev pub registry_of : SimulatorConfig F → AccountRegistry
  registry_of config = make_registry (record {
    num_independent_accounts = config.num_independent_accounts;
    num_linked_pairs = config.num_linked_account_pairs;
  })

  abbrev pub universe_of : SimulatorConfig F → List (Instrument F)
  universe_of config = build_instrument_universe q (record {
    num_equity = config.num_equity_instruments;
    num_fx = config.num_fx_instruments;
    num_fixed_income = config.num_fixed_income_instruments;
    session_close_ns = config.session_start_ns +ℤ config.session_duration_ns;
  })

  -- The end of the session: the parts together, each sorted by time.
  unfoldable pub assemble :
      SimulatorConfig F → BaselineOutput F → ScenarioOutput F → SimulationOutput F
  assemble config baseline abuse = record {
    instruments = universe_of config;
    accounts = (registry_of config).accounts;
    orders =
        stable_sort (λ (o : SimulatedOrder F). o.timestamp_ns) (baseline.orders ++ abuse.orders);
    executions =
        stable_sort (λ (x : SimulatedExecution F). x.timestamp_ns)
          (baseline.executions ++ abuse.executions);
  }

  -- The scenarios go on with the ids of the baseline flow and with draws of their own.
  unfoldable pub with_abuse :
      SimulatorConfig F → BaselineOutput F × Gen q.Rng → Option (SimulationOutput F)
  with_abuse config (baseline, g) =
      elim (inject_all config (universe_of config) (registry_of config)
        (config.session_start_ns +ℤ config.session_duration_ns)
        (record g { rng = q.seeded (bit_xor config.random_seed abuse_salt) })) [
          | none ↦ none
          | some (abuse, _) ↦ some (assemble config baseline abuse)
        ]

  abbrev pub baseline_of : SimulatorConfig F → BaselineConfig F
  baseline_of config = record {
    orders_per_second = config.baseline_orders_per_second;
    start_time_ns = config.session_start_ns;
    end_time_ns = config.session_start_ns +ℤ config.session_duration_ns;
  }

  abbrev pub start_of : SimulatorConfig F → Gen q.Rng
  start_of config = record {
    rng = q.seeded config.random_seed;
    order_id_gen = ids_of (codes "ORD");
    trade_id_gen = ids_of (codes "EXE");
  }

  unfoldable pub generate_simulation : ℕ → SimulatorConfig F → Option (SimulationOutput F)
  generate_simulation fuel config =
      elim (generate_baseline_flow q fuel (baseline_of config) (universe_of config)
        (registry_of config).accounts (start_of config)) [
          | none ↦ none
          | some made ↦ with_abuse config made
        ]
