-- ===== src/Harness/Replay/Tests.antt =====
-- A session of an order and its execution, replayed.
use trade_surveillance_engin.Prelude.{
  ℕ, ◌*◌, ◌≤◌, ◌<◌, ◌≡◌, ◌⊎◌, refl, pos, ℤ, codes, text_eq, some, List, [], ◌∷◌, ◌++◌, map, arith,
  IsSorted, at_key, All,
}
use trade_surveillance_engin.Ticks.{ticks, ticks_IsTotal}
use trade_surveillance_engin.Fix.{sell, limit, new, Event, order}
use trade_surveillance_engin.RingBuffer.{Ring, make_ring}
use trade_surveillance_engin.Consumer.Interleaving.{System, Reaches, stopped}
use trade_surveillance_engin.Consumer.Interleaving.NoLoss.{opening}
use trade_surveillance_engin.Simulator.{
  SimulationOutput, SimulatedOrder, SimulatedExecution, default_label,
}
use trade_surveillance_engin.Harness.Replay.{
  to_fix_order, to_ingestion_events, ring_buffer_capacity_for,
}
use trade_surveillance_engin.Harness.Replay.Merged.{
  event_time, sided, IsPlaced, to_ingestion_events_lem,
}
use trade_surveillance_engin.Harness.Replay.Capacity.{replay_drops_none}

abbrev offer : SimulatedOrder ℕ
offer = record {
  order_id = codes "O";
  account_id = codes "acct";
  instrument_id = codes "AAPL";
  side = sell;
  price = 100;
  qty = pos 5;
  order_type = limit;
  timestamp_ns = pos 4;
  status = new;
  venue = [];
  ground_truth_label = default_label;
}

abbrev trade : SimulatedExecution ℕ
trade = record {
  trade_id = codes "T";
  order_id = codes "O";
  account_id = codes "acct";
  instrument_id = codes "AAPL";
  price = 100;
  qty = pos 5;
  timestamp_ns = pos 4;
  counterparty_account_id = codes "other";
  venue = [];
  ground_truth_label = default_label;
}

abbrev session : SimulationOutput ℕ
session = record { instruments = []; accounts = []; orders = offer ∷ []; executions = trade ∷ [] }

session-IsPlaced : All (IsPlaced session.orders) session.executions
unfolding text_eq
session-IsPlaced = ((sell, refl), tt)

to_ingestion_events_lem_example :
    (events : List (Event ℕ)) × (to_ingestion_events session ≡ some events)
    × IsSorted event_time events
    × ((t : ℤ)
        → at_key event_time t events
          ≡ map (λ o. order (to_fix_order o)) (at_key (λ o. o.timestamp_ns) t session.orders)
            ++ map (sided session.orders) (at_key (λ x. x.timestamp_ns) t session.executions))
to_ingestion_events_lem_example = to_ingestion_events_lem session session-IsPlaced

-- 1025 events need the next power of two.
doubled_once : ring_buffer_capacity_for 2 1025 ≡ some 2048
unfolding ring_buffer_capacity_for
doubled_once = refl

replay_drops_none_example :
    (c : ℕ) × (r : Ring ℕ) × (ring_buffer_capacity_for 54 1025 ≡ some c)
    × (make_ring 0 c ≡ some r)
    × (1025 ≤ c)
    × ((c ≡ 1024) ⊎ (c < 2 * 1025))
    × ((t : System ℕ)
        → Reaches (opening r) t
        → t.queue.tail ≤ 1025
        → (t.queue.dropped ≡ 0) × (t.phase ≡ stopped → t.processed ≡ t.queue.tail))
replay_drops_none_example = replay_drops_none 0 1025 (omega arith)
