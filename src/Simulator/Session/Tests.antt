-- ===== src/Simulator/Session/Tests.antt =====
-- A session of one second at one order a second, with a scenario of each kind.
use trade_surveillance_engin.Prelude.{
  ◌+ℤ◌, ℕ, ◌+◌, ◌≡◌, refl, pos, ltb, if◌then◌else◌, codes, List, [], ◌∷◌, some, In, here, there,
  IsSorted, arith,
}
use trade_surveillance_engin.Ticks.{ticks}
use trade_surveillance_engin.Fix.{Event}
use trade_surveillance_engin.Detectors.Accounts.{is_related}
use trade_surveillance_engin.Simulator.{
  SimulatedOrder, SimulatedExecution, SimulationOutput, client, proprietary, Account,
}
use trade_surveillance_engin.Simulator.Draws.{Draws, IsDraws, next, id_text}
use trade_surveillance_engin.Codec.Decimal.{digits}
use trade_surveillance_engin.Simulator.Baseline.Ends.{IsForward, stalls}
use trade_surveillance_engin.Simulator.Scenario.{BackedBy}
use trade_surveillance_engin.Simulator.Accounts.{
  AccountRegistryConfig, make_registry, account_of, times_over, add_linked_pair,
}
use trade_surveillance_engin.Simulator.Accounts.Construction.{IsCounts}
use trade_surveillance_engin.Simulator.Baseline.{accounts_related}
use trade_surveillance_engin.Simulator.Baseline.Relations.{accounts_related-is_related}
use trade_surveillance_engin.Simulator.MarkingTheClose.Backed.{IsCast}
use trade_surveillance_engin.Simulator.Universe.{build_instrument_universe, first_of}
use trade_surveillance_engin.Simulator.Session.{
  AbusePatternConfig, SimulatorConfig, generate_simulation,
}
use trade_surveillance_engin.Simulator.Session.Backed.{IsSession}
use trade_surveillance_engin.Simulator.Session.Replayed.{stalls_in, generate_simulation-IsReplayed}
use trade_surveillance_engin.Harness.Replay.{to_ingestion_events, add_all}
use trade_surveillance_engin.Harness.Replay.Merged.{event_time}

-- Draws of the lower bound; a cast stays in the range of int64_t.
abbrev low : Draws ℕ
low = record {
  Rng = ℕ;
  seeded = λ seed. seed;
  real = λ lo hi r. (lo, r + 1);
  int_between = λ lo hi r. (lo, r + 1);
  index_below = λ n r. (0, r + 1);
  exponential = λ rate r. (rate, r + 1);
  round = λ x. x;
  llround = λ x. pos x;
  truncate = λ x. pos (if ltb x 4_611_686_018_427_387_904 then x else 1);
  neg = λ x. x;
  decimal = λ n p. n;
  hash = λ t. 0;
}

abbrev one_each : AbusePatternConfig ℕ
one_each = record { count = pos 1; severity = 1 }

abbrev config : SimulatorConfig ℕ
config = record {
  random_seed = 42;
  session_start_ns = pos 0;
  session_duration_ns = pos 1_000_000_000;
  num_equity_instruments = pos 1;
  num_fx_instruments = pos 0;
  num_fixed_income_instruments = pos 0;
  baseline_orders_per_second = 1;
  num_independent_accounts = pos 1;
  num_linked_account_pairs = pos 1;
  wash_trade = one_each;
  spoofing_layering = one_each;
  marking_the_close = one_each;
  front_running = one_each;
}

low-IsDraws : IsDraws low
low-IsDraws = record {
  int_low = λ lo hi r h. omega arith;
  int_high = λ lo hi r h. omega arith;
  index_low = λ n r h. h;
}

low-IsCast : IsCast low 1
low-IsCast = record { one = λ h. ground arith; int64 = ground arith }

low-IsForward : IsForward low 1
low-IsForward = record { forward = λ g. omega arith }

config-IsSession : IsSession low config
unfolding build_instrument_universe first_of ◌+ℤ◌
config-IsSession = record {
  draws = low-IsDraws;
  casts = low-IsCast;
  ahead = low-IsForward;
  counts = record { independent = omega arith; linked = omega arith };
  some_instrument = omega arith;
  some_account = omega arith;
  some_pair = omega arith;
  some_layer = omega arith;
}

-- The first gap is as long as the session.
no_stalls : stalls_in low 1_000_000_000 config ≡ 0
unfolding stalls ◌+ℤ◌
no_stalls = refl

generate_simulation-IsReplayed_example :
    (s : SimulationOutput ℕ) × (events : List (Event ℕ)) × (generate_simulation low 1_000_000_000
        config
      ≡ some s)
    × IsSorted (λ (o : SimulatedOrder ℕ). o.timestamp_ns) s.orders
    × IsSorted (λ (x : SimulatedExecution ℕ). x.timestamp_ns) s.executions
    × BackedBy s.orders s.executions
    × (to_ingestion_events s ≡ some events)
    × IsSorted event_time events
unfolding ◌+ℤ◌
generate_simulation-IsReplayed_example =
    generate_simulation-IsReplayed low config config-IsSession 1_000_000_000 (omega arith)
      (rw no_stalls (omega arith))

abbrev two_accounts : AccountRegistryConfig
two_accounts = record { num_independent_accounts = pos 0; num_linked_pairs = pos 1 }

two_accounts-IsCounts : IsCounts two_accounts
two_accounts-IsCounts = record { independent = omega arith; linked = omega arith }

-- The client and the proprietary account of the pair.
abbrev client_account : Account
client_account =
    account_of (codes "ACC-000001") (codes "OWN-000001") client (codes "ACC-000002" ∷ [])

abbrev related_account : Account
related_account =
    account_of (codes "ACC-000002") (codes "OWN-000001") proprietary (codes "ACC-000001" ∷ [])

the_accounts : (make_registry two_accounts).accounts ≡ client_account ∷ related_account ∷ []
unfolding make_registry times_over add_linked_pair next id_text digits
the_accounts = refl

client-In : In client_account (make_registry two_accounts).accounts
client-In = rw the_accounts here

related-In : In related_account (make_registry two_accounts).accounts
related-In = rw the_accounts (there here)

accounts_related-is_related_example :
    accounts_related client_account related_account
    ≡ is_related
        (add_all [] (make_registry two_accounts).accounts)
        (codes "ACC-000001")
        (codes "ACC-000002")
accounts_related-is_related_example =
    accounts_related-is_related two_accounts two_accounts-IsCounts client_account related_account
      client-In related-In
