-- ===== src/Simulator/Session/Replayed.antt =====
-- cpp/simulator/simulator.cpp, followed by the replay of its session.
use trade_surveillance_engin.Prelude.{
  ℕ, ℤ, int_laws, ◌<◌, ◌≡◌, refl, sym, pos, ◌+ℤ◌, ◌≤ℤ◌, Text, text_eq, text_eq_refl, List, [], ◌∷◌,
  ◌++◌, Option, none, some, Double, All, All-imp, In, here, there, stable_sort, stable_sort-All,
  stable_sort-IsSorted, In-stable_sort, IsSorted, Bool-cases, inl, inr, if◌then◌else◌,
}
use trade_surveillance_engin.Fix.{Side, Event}
use trade_surveillance_engin.Simulator.{SimulatedOrder, SimulatedExecution, SimulationOutput}
use trade_surveillance_engin.Simulator.Draws.{Gen, Draws}
use trade_surveillance_engin.Simulator.Scenario.{BackedBy, BackedBy-append}
use Prim.Native.Nat.{bit_xor}
use trade_surveillance_engin.Simulator.Baseline.{BaselineOutput, initial_mids}
use trade_surveillance_engin.Simulator.Baseline.Backed.{IsBaseline}
use trade_surveillance_engin.Simulator.Baseline.Ends.{stalls, generate_baseline_flow-Ends}
use trade_surveillance_engin.Simulator.Session.{
  abuse_salt, baseline_of, start_of, SimulatorConfig, registry_of, universe_of, assemble,
  with_abuse, generate_simulation,
}
use trade_surveillance_engin.Simulator.Session.Backed.{IsSession, inject_all-Makes}
use trade_surveillance_engin.Harness.Replay.{to_ingestion_events}
use trade_surveillance_engin.Harness.Replay.Merged.{
  event_time, last_side, IsPlaced, to_ingestion_events_lem,
}

module _ {F : Type 0} where
  last_side-some :
      (id : Text) (orders : List (SimulatedOrder F)) (s : Side)
      → (t : Side) × (last_side id orders (some s) ≡ some t)
  last_side-some id [] s = (s, refl)
  last_side-some id (o ∷ orders) s = elim (Bool-cases (text_eq o.order_id id)) [
    | inl hit ↦ rw hit (last_side-some id orders o.side)
    | inr miss ↦ rw miss (last_side-some id orders s)
  ]

  -- An order of the list has its id placed.
  last_side-In :
      (o : SimulatedOrder F) (orders : List (SimulatedOrder F)) (side : Option Side)
      → In o orders
      → (t : Side) × (last_side o.order_id orders side ≡ some t)
  last_side-In o [] side i = elim i [ ]
  last_side-In o (p ∷ orders) side here =
      rw (text_eq_refl o.order_id) (last_side-some o.order_id orders o.side)
  last_side-In o (p ∷ orders) side (there i) =
      last_side-In o orders (if text_eq p.order_id o.order_id then some p.side else side) i

  BackedBy-IsPlaced :
      (orders : List (SimulatedOrder F)) (executions : List (SimulatedExecution F))
      → BackedBy orders executions
      → All (IsPlaced orders) executions
  BackedBy-IsPlaced orders executions h =
      All-imp executions (λ x (o, i, e). rw (sym e) (last_side-In o orders none i)) h

  BackedBy-sorted :
      (orders : List (SimulatedOrder F)) (executions : List (SimulatedExecution F))
      → BackedBy orders executions
      → BackedBy
          (stable_sort (λ (o : SimulatedOrder F). o.timestamp_ns) orders)
          (stable_sort (λ (x : SimulatedExecution F). x.timestamp_ns) executions)
  BackedBy-sorted orders executions h =
      stable_sort-All (λ (x : SimulatedExecution F). x.timestamp_ns) _ executions
        (All-imp executions (λ x (o, i, e). (o, In-stable_sort _ orders i, e)) h)

later :
    (start duration stalled rounds : ℤ)
    → duration +ℤ stalled ≤ℤ rounds
    → (start +ℤ duration) +ℤ stalled ≤ℤ start +ℤ rounds
later start duration stalled rounds h = grind (int_laws)

module _ {F : Type 0} ⦃d : Double F⦄ (q : Draws F) where
  with_abuse-Makes :
      (config : SimulatorConfig F)
      → IsSession q config
      → (baseline : BaselineOutput F) (g : Gen q.Rng) → IsBaseline baseline
      → (s : SimulationOutput F) × (with_abuse q config (baseline, g) ≡ some s)
        × IsSorted (λ (o : SimulatedOrder F). o.timestamp_ns) s.orders
        × IsSorted (λ (x : SimulatedExecution F). x.timestamp_ns) s.executions
        × BackedBy s.orders s.executions
  unfolding with_abuse assemble
  with_abuse-Makes config ok baseline g h =
      let end = config.session_start_ns +ℤ config.session_duration_ns in
      let (abuse, _, e, k) =
        (inject_all-Makes q config ok end).made
          (record g { rng = q.seeded (bit_xor config.random_seed abuse_salt) }) in
      (
        assemble q config baseline abuse,
        rw (e, with_abuse) refl,
        stable_sort-IsSorted _ (baseline.orders ++ abuse.orders),
        stable_sort-IsSorted _ (baseline.executions ++ abuse.executions),
        BackedBy-sorted (baseline.orders ++ abuse.orders) (baseline.executions ++ abuse.executions)
            (BackedBy-append baseline.orders abuse.orders baseline.executions abuse.executions
              h.backed k.backed),
      )

  -- How many of the gaps that the session draws between arrivals are rounded to zero nanoseconds, in as many
  -- rounds as there is fuel.
  abbrev pub stalls_in : ℕ → SimulatorConfig F → ℕ
  stalls_in fuel config =
      stalls q fuel (baseline_of q config) (universe_of q config) (registry_of q config).accounts
        config.session_start_ns (initial_mids q [] (universe_of q config)) (start_of q config)

  -- Where integers and indices are drawn within their bounds, the number of accounts that the severity of
  -- marking the close asks for is cast in range, no gap between arrivals is negative, the counts of accounts
  -- and pairs are ints, there is an instrument, an independent account and a linked pair, and the severity of
  -- spoofing leaves a layer: with fuel for each nanosecond of the session and each of its gaps that is rounded
  -- to zero, and for one round at least, the session is made. Its orders and its executions are in order of
  -- time, and every execution is on one of its orders. Its replay then looks up no missing order: it succeeds,
  -- with the events in order of time.
  pub generate_simulation-IsReplayed :
      (config : SimulatorConfig F)
      → IsSession q config
      → (fuel : ℕ) → 0 < fuel
      → config.session_duration_ns +ℤ pos (stalls_in fuel config) ≤ℤ pos fuel
      → (s : SimulationOutput F) × (events : List (Event F)) × (generate_simulation q fuel config
          ≡ some s)
        × IsSorted (λ (o : SimulatedOrder F). o.timestamp_ns) s.orders
        × IsSorted (λ (x : SimulatedExecution F). x.timestamp_ns) s.executions
        × BackedBy s.orders s.executions
        × (to_ingestion_events s ≡ some events)
        × IsSorted event_time events
  unfolding generate_simulation
  generate_simulation-IsReplayed config ok fuel some_fuel enough =
      let n = pos (stalls_in fuel config) in
      let enough' : (config.session_start_ns +ℤ config.session_duration_ns) +ℤ n
          ≤ℤ config.session_start_ns +ℤ pos fuel =
        later config.session_start_ns config.session_duration_ns n (pos fuel) enough in
      let (baseline, g, e, h) =
        (generate_baseline_flow-Ends q ok.draws (baseline_of q config) ok.ahead fuel
          (universe_of q config) (registry_of q config).accounts (start_of q config) some_fuel
          enough').ended in
      let (s, e', in_order, in_order', backed) = with_abuse-Makes config ok baseline g h in
      let (events, replayed, merged, _) =
        to_ingestion_events_lem s (BackedBy-IsPlaced s.orders s.executions backed) in
      (s, events, rw (e, generate_simulation) e', in_order, in_order', backed, replayed, merged)
