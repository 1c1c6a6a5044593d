-- ===== src/Harness/Replay.antt =====
-- cpp/harness/replay_runner.cpp: a simulated session as the events of the live data model. An item of the
-- merge refers to its order or execution in place of its index. An exception is `none`.
pub mod Merged
pub mod Capacity
mod Tests
use trade_surveillance_engin.Prelude.{
  ℕ, zero, suc, ◌+◌, ◌*◌, ◌%◌, ◌^◌, ltb, ℤ, Text, text_eq, find, put, Bool, true, false, List, [],
  ◌∷◌, ◌++◌, map, length, Option, none, some, ◌>>=◌, if◌then◌else◌, stable_sort,
}
use trade_surveillance_engin.Fix.{
  Side, OrderStatus, new, cancelled, replaced, Order, Execution, Event, order, execution,
}
use trade_surveillance_engin.Detectors.Accounts.{Entity, AccountRegistry, add}
use trade_surveillance_engin.Simulator.{
  SimulatedOrder, SimulatedExecution, SimulationOutput, Instrument, Account, entity_type_to_string,
}

-- Cancelled stays so, and any other status is New.
abbrev pub fix_status : OrderStatus → OrderStatus
fix_status cancelled = cancelled
fix_status new = new
fix_status replaced = new

-- `ring_buffer_capacity_for`, with size_t doubling; `fuel` bounds the rounds of its loop.
unfoldable pub double_until : ℕ → ℕ → ℕ → Option ℕ
double_until zero n capacity = none
double_until (suc fuel) n capacity = elim (ltb capacity n) [
  | true ↦ double_until fuel n ((capacity * 2) % 2 ^ 64)
  | false ↦ some capacity
]

unfoldable pub ring_buffer_capacity_for : ℕ → ℕ → Option ℕ
unfolding double_until
ring_buffer_capacity_for fuel n = double_until fuel n 1024

unfoldable pub to_entity : Account → Entity
unfolding entity_type_to_string
to_entity account = record {
  account_id = account.account_id;
  beneficial_owner_id = account.beneficial_owner_id;
  entity_type = entity_type_to_string account.entity_type;
  linked_account_ids = account.linked_account_ids;
}

-- The loop that registers the accounts of the session.
unfoldable pub add_all : AccountRegistry → List Account → AccountRegistry
unfolding add to_entity
add_all registry [] = registry
add_all registry (account ∷ accounts) = add_all (add registry (to_entity account)) accounts

pub data Item (F : Type 0) : Type 0 where
  order_item : SimulatedOrder F → Item F
  execution_item : SimulatedExecution F → Item F

module _ {F : Type 0} where
  unfoldable pub to_fix_order : SimulatedOrder F → Order F
  to_fix_order o = record {
    order_id = o.order_id;
    account_id = o.account_id;
    instrument_id = o.instrument_id;
    side = o.side;
    price = o.price;
    qty = o.qty;
    order_type = o.order_type;
    timestamp_ns = o.timestamp_ns;
    status = fix_status o.status;
    venue = o.venue;
    orig_order_id = o.order_id;
  }

  unfoldable pub to_fix_execution : SimulatedExecution F → Side → Execution F
  to_fix_execution x side = record {
    trade_id = x.trade_id;
    order_id = x.order_id;
    account_id = x.account_id;
    instrument_id = x.instrument_id;
    side = side;
    price = x.price;
    qty = x.qty;
    timestamp_ns = x.timestamp_ns;
    counterparty_account_id = x.counterparty_account_id;
    venue = x.venue;
  }

  -- side_by_order_id: a later order of the same id overwrites.
  unfoldable pub sides_of : List (SimulatedOrder F) → List (Text × Side) → List (Text × Side)
  sides_of [] sides = sides
  sides_of (o ∷ orders) sides = sides_of orders (put text_eq o.order_id o.side sides)

  abbrev pub item_time : Item F → ℤ
  item_time (order_item o) = o.timestamp_ns
  item_time (execution_item x) = x.timestamp_ns

  unfoldable pub to_event : List (Text × Side) → Item F → Option (Event F)
  unfolding to_fix_order to_fix_execution
  to_event sides (order_item o) = some (order (to_fix_order o))
  to_event sides (execution_item x) =
      find text_eq x.order_id sides >>= λ side. some (execution (to_fix_execution x side))

  unfoldable pub to_events : List (Text × Side) → List (Item F) → Option (List (Event F))
  unfolding to_event
  to_events sides [] = some []
  to_events sides (item ∷ items) = do
    event ← to_event sides item
    events ← to_events sides items
    some (event ∷ events)

  unfoldable pub items_of : SimulationOutput F → List (Item F)
  items_of s = map order_item s.orders ++ map execution_item s.executions

  unfoldable pub to_ingestion_events : SimulationOutput F → Option (List (Event F))
  unfolding sides_of to_events items_of
  to_ingestion_events s = to_events (sides_of s.orders []) (stable_sort item_time (items_of s))
