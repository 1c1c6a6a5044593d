-- ===== src/Simulator/Tests.antt =====
-- Scenarios of the simulator with draws that take the lower bound.
use trade_surveillance_engin.Prelude.{
  In, false, text_eq_iff, find, put, ℕ, ◌+◌, ◌≡◌, ◌≢◌, refl, pos, Text, codes, text_eq, true, some,
  [], ◌∷◌, All, arith,
}
use trade_surveillance_engin.Ticks.{ticks}
use trade_surveillance_engin.Fix.{Side, order, execution}
use trade_surveillance_engin.OrderBook.{OrderBook}
use trade_surveillance_engin.Detectors.Accounts.{
  AccountRegistry, is_related, same_beneficial_owner, are_linked,
}
use trade_surveillance_engin.Detectors.{to_int64}
use trade_surveillance_engin.Detectors.FrontRunning.{FrontRunningConfig, RecentOrders, recent_of}
use trade_surveillance_engin.Detectors.FrontRunning as FrontRunning
use trade_surveillance_engin.Detectors.WashTrade.{evaluate, alert_for}
use trade_surveillance_engin.Simulator.{equity, client, Instrument, Account}
use trade_surveillance_engin.Simulator.Draws.{Draws, IsDraws, Gen}
use trade_surveillance_engin.Simulator.Scenario.{ScenarioOutput}
use trade_surveillance_engin.Simulator.FrontRunning.{generate_front_running_scenario}
use trade_surveillance_engin.Simulator.FrontRunning.Generated.{IsFrontRun}
use trade_surveillance_engin.Simulator.FrontRunning.Caught.{
  Watches, generate_front_running_scenario-IsCaught,
}
use trade_surveillance_engin.Simulator.Accounts.{
  AccountRegistryConfig, make_registry, random_linked_pair,
}
use trade_surveillance_engin.Simulator.Accounts.Construction.{IsCounts}
use trade_surveillance_engin.Simulator.Accounts.Pairs.{IsPair, random_linked_pair-IsPair}
use trade_surveillance_engin.Simulator.WashTrade.{generate_wash_trade_scenario}
use trade_surveillance_engin.Simulator.WashTrade.Caught.{
  IsWashed, generate_wash_trade_scenario-IsCaught,
}
use trade_surveillance_engin.Harness.Replay.{to_fix_order, to_fix_execution, add_all}

-- Draws that count how many were taken.
abbrev lowest : Draws ℕ
lowest = record {
  Rng = ℕ;
  seeded = λ seed. seed;
  real = λ lo hi r. (lo, r + 1);
  int_between = λ lo hi r. (lo, r + 1);
  index_below = λ n r. (0, r + 1);
  exponential = λ rate r. (rate, r + 1);
  round = λ x. x;
  llround = λ x. pos x;
  truncate = λ x. pos x;
  neg = λ x. x;
  decimal = λ n p. n;
  hash = λ t. 0;
}

lowest-IsDraws : IsDraws lowest
lowest-IsDraws = record {
  int_low = λ lo hi r h. omega arith;
  int_high = λ lo hi r h. omega arith;
  index_low = λ n r h. h;
}

abbrev apple : Instrument ℕ
apple = record {
  instrument_id = codes "AAPL";
  symbol = codes "AAPL";
  asset_class = equity;
  tick_size = 1;
  avg_daily_volume = pos 1000;
  session_close_ns = pos 57_600;
}

abbrev one_owner : Text → Account
one_owner id = record {
  account_id = id;
  beneficial_owner_id = codes "OWNER-1";
  entity_type = client;
  linked_account_ids = [];
}

abbrev first : Account
first = one_owner (codes "A1")

abbrev second : Account
second = one_owner (codes "A2")

abbrev registered : AccountRegistry
registered = add_all [] (first ∷ second ∷ [])

abbrev start : Gen ℕ
start = record {
  rng = 0;
  order_id_gen = record { prefix = codes "ORD"; counter = 1 };
  trade_id_gen = record { prefix = codes "TRD"; counter = 1 };
}

one_owner_related : is_related registered (codes "A1") (codes "A2") ≡ true
unfolding is_related add_all same_beneficial_owner are_linked text_eq find put
one_owner_related = refl

abbrev Caught : (out : ScenarioOutput ℕ) → AccountRegistry → Type 0
Caught out accounts =
    (book : OrderBook ℕ) (side : Side)
    → All
        (λ x.
          let f = to_fix_execution x side in
          evaluate book (execution f) accounts ≡ alert_for book f ∷ [])
        out.executions

generate_wash_trade_scenario-IsCaught_example :
    (out : ScenarioOutput ℕ) × (g' : Gen ℕ) × (generate_wash_trade_scenario lowest
        (codes "WT-1")
        apple
        first
        second
        100
        (pos 5)
        0
        (codes "XNAS")
        start
      ≡ some (out, g'))
    × IsWashed first second out
    × Caught out registered
generate_wash_trade_scenario-IsCaught_example =
    generate_wash_trade_scenario-IsCaught lowest lowest-IsDraws registered first second (λ e. cc)
      (λ e. cc) one_owner_related (codes "WT-1") apple 100 (pos 5) 0 (codes "XNAS") start

abbrev config : FrontRunningConfig ℕ
config = record {
  lookback_window_ns = pos 2_000_000_000;
  min_large_qty_threshold = pos 1000;
  max_leader_to_large_size_ratio = 1;
}

config-Watches : Watches config
config-Watches = record {
  threshold = omega arith;
  lookback = omega arith;
  ratio = λ large small h h'. ground arith;
}

owners_apart : codes "A1" ≢ codes "A2"
unfolding text_eq
owners_apart e =
    let different : text_eq (codes "A1") (codes "A2") ≡ false = refl in
    let same = (text_eq_iff (codes "A1") (codes "A2")).1 e in cc

generate_front_running_scenario-IsCaught_example :
    (out : ScenarioOutput ℕ) × (g' : Gen ℕ) × (generate_front_running_scenario lowest
        (codes "FR-1")
        apple
        first
        second
        100
        (pos 5)
        0
        (codes "XNAS")
        start
      ≡ some (out, g'))
    × (w : IsFrontRun first second out) × ((s : RecentOrders) (book book' : OrderBook ℕ)
        → let large = to_fix_order w.client in
          let small = to_fix_order w.related in
          let s' = (FrontRunning.evaluate config s book (order large) registered).0 in
          In
            (FrontRunning.alert_for config small (recent_of large) (to_int64 book'.sequence))
            (FrontRunning.evaluate config s' book' (order small) registered).1)
generate_front_running_scenario-IsCaught_example =
    generate_front_running_scenario-IsCaught lowest lowest-IsDraws config config-Watches registered
      first second owners_apart one_owner_related (codes "FR-1") apple 100 (pos 5) 0 (codes "XNAS")
      start

abbrev accounts_config : AccountRegistryConfig
accounts_config = record { num_independent_accounts = pos 40; num_linked_pairs = pos 8 }

accounts_config-IsCounts : IsCounts accounts_config
accounts_config-IsCounts = record { independent = omega arith; linked = omega arith }

random_linked_pair-IsPair_example :
    (pair : Account × Account) × (g' : Gen ℕ) × (random_linked_pair lowest
        (make_registry accounts_config)
        start
      ≡ some (pair, g'))
    × IsPair (make_registry accounts_config).accounts pair
random_linked_pair-IsPair_example =
    random_linked_pair-IsPair lowest lowest-IsDraws accounts_config accounts_config-IsCounts
      (omega arith) start
