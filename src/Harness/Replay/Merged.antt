-- ===== src/Harness/Replay/Merged.antt =====
-- The order in which a session's events are replayed, and the ring that holds them.
use trade_surveillance_engin.Prelude.{
  ◌≡◌, refl, sym, ◌∙◌, ap, ℤ, Text, text_eq, text_eq_iff, find, put, find-put, List, [], ◌∷◌, ◌++◌,
  map, Option, none, some, if◌then◌else◌, stable_sort, IsSorted, at_key, at_key-stable_sort,
  at_key-append, at_key-map, stable_sort-IsSorted, IsSorted-map, subst, ap₂, fun_ext, map-append,
  stable_sort-All, All, All-append, All-map, or_else,
}
use trade_surveillance_engin.Fix.{Side, buy, Event, order, execution}
use trade_surveillance_engin.Simulator.{SimulatedOrder, SimulatedExecution, SimulationOutput}
use trade_surveillance_engin.Harness.Replay.{
  to_fix_order, to_fix_execution, sides_of, Item, order_item, execution_item, item_time, to_event,
  to_events, items_of, to_ingestion_events,
}

module _ {F : Type 0} where
  abbrev pub event_time : Event F → ℤ
  event_time (order o) = o.timestamp_ns
  event_time (execution x) = x.timestamp_ns

  -- The side of the last order of an id.
  abbrev pub last_side : Text → List (SimulatedOrder F) → Option Side → Option Side
  last_side id [] side = side
  last_side id (o ∷ orders) side =
      last_side id orders (if text_eq o.order_id id then some o.side else side)

  -- An execution as an event, with the side of its order.
  abbrev pub sided : List (SimulatedOrder F) → SimulatedExecution F → Event F
  sided orders x = execution (to_fix_execution x (or_else (last_side x.order_id orders none) buy))

  abbrev pub IsPlaced : List (SimulatedOrder F) → SimulatedExecution F → Type 0
  IsPlaced orders x = (s : Side) × (last_side x.order_id orders none ≡ some s)

  find-sides_of :
      (id : Text) (orders : List (SimulatedOrder F)) (sides : List (Text × Side))
      → find text_eq id (sides_of orders sides) ≡ last_side id orders (find text_eq id sides)
  unfolding sides_of
  find-sides_of id [] sides = refl
  find-sides_of id (o ∷ orders) sides =
      find-sides_of id orders (put text_eq o.order_id o.side sides)
      ∙ ap (last_side id orders) (find-put text_eq text_eq_iff o.order_id id o.side sides)

  -- The event of an item, where an execution has its order's side.
  abbrev event_of : List (SimulatedOrder F) → Item F → Event F
  event_of orders (order_item o) = order (to_fix_order o)
  event_of orders (execution_item x) = sided orders x

  abbrev Placed : List (SimulatedOrder F) → Item F → Type 0
  Placed orders (order_item o) = Unit
  Placed orders (execution_item x) = IsPlaced orders x

  to_event_lem :
      (orders : List (SimulatedOrder F)) (i : Item F)
      → Placed orders i
      → to_event (sides_of orders []) i ≡ some (event_of orders i)
  unfolding to_event find
  to_event_lem orders (order_item o) h = refl
  to_event_lem orders (execution_item x) (s, e) = rw (find-sides_of x.order_id orders [], e) refl

  to_events_lem :
      (orders : List (SimulatedOrder F)) (items : List (Item F))
      → All (Placed orders) items
      → to_events (sides_of orders []) items ≡ some (map (event_of orders) items)
  unfolding to_events
  to_events_lem orders [] h = refl
  to_events_lem orders (i ∷ items) (h, hs) =
      rw (to_event_lem orders i h, to_events_lem orders items hs) refl

  event_time-event_of :
      (orders : List (SimulatedOrder F)) (i : Item F) → event_time (event_of orders i) ≡ item_time i
  unfolding to_fix_order to_fix_execution
  event_time-event_of orders (order_item o) = refl
  event_time-event_of orders (execution_item x) = refl

  same_time : (orders : List (SimulatedOrder F)) → (λ i. event_time (event_of orders i)) ≡ item_time
  same_time orders = fun_ext (event_time-event_of orders)

  -- What stands at a time among the items.
  at_key-items_of :
      (s : SimulationOutput F) (t : ℤ)
      → map (event_of s.orders) (at_key item_time t (items_of s))
        ≡ map (λ o. order (to_fix_order o)) (at_key (λ o. o.timestamp_ns) t s.orders)
          ++ map (sided s.orders) (at_key (λ x. x.timestamp_ns) t s.executions)
  unfolding items_of
  at_key-items_of s t =
      ap (map (event_of s.orders)) (
        at_key-append item_time t (map order_item s.orders) (map execution_item s.executions)
        ∙ ap₂ ◌++◌ (at_key-map item_time order_item t s.orders)
            (at_key-map item_time execution_item t s.executions))
      ∙ map-append (event_of s.orders) (map order_item (at_key (λ o. o.timestamp_ns) t s.orders))
          (map execution_item (at_key (λ x. x.timestamp_ns) t s.executions))
      ∙ ap₂ ◌++◌ (map_orders (at_key (λ o. o.timestamp_ns) t s.orders))
          (map_executions (at_key (λ x. x.timestamp_ns) t s.executions))
    where
      map_orders :
          (os : List (SimulatedOrder F))
          → map (event_of s.orders) (map order_item os) ≡ map (λ o. order (to_fix_order o)) os
      map_orders [] = refl
      map_orders (o ∷ os) = ap (λ es. order (to_fix_order o) ∷ es) (map_orders os)

      map_executions :
          (xs : List (SimulatedExecution F))
          → map (event_of s.orders) (map execution_item xs) ≡ map (sided s.orders) xs
      map_executions [] = refl
      map_executions (x ∷ xs) = ap (λ es. sided s.orders x ∷ es) (map_executions xs)

  items-Placed :
      (s : SimulationOutput F)
      → All (IsPlaced s.orders) s.executions
      → All (Placed s.orders) (items_of s)
  unfolding items_of
  items-Placed s placed =
      All-append (Placed s.orders) (map order_item s.orders) (map execution_item s.executions)
        (All-map (Placed s.orders) order_item s.orders (orders_placed s.orders))
        (All-map (Placed s.orders) execution_item s.executions placed)
    where
      orders_placed : (os : List (SimulatedOrder F)) → All (λ (o : SimulatedOrder F). Unit {0}) os
      orders_placed [] = tt
      orders_placed (o ∷ os) = (tt, orders_placed os)

  -- A session in which the order of every execution is among the orders is always replayed: its events are
  -- in the order of their time stamps, and those of one time are that time's orders, then that time's
  -- executions, each in the session's order. An order stays Cancelled or becomes New, and an execution takes
  -- the side of the last order with its order id.
  pub to_ingestion_events_lem :
      (s : SimulationOutput F)
      → All (IsPlaced s.orders) s.executions
      → (events : List (Event F)) × (to_ingestion_events s ≡ some events)
        × IsSorted event_time events
        × ((t : ℤ)
            → at_key event_time t events
              ≡ map (λ o. order (to_fix_order o)) (at_key (λ o. o.timestamp_ns) t s.orders)
                ++ map (sided s.orders) (at_key (λ x. x.timestamp_ns) t s.executions))
  unfolding to_ingestion_events
  to_ingestion_events_lem s placed =
      let items = stable_sort item_time (items_of s) in
      let kept = stable_sort-All item_time (Placed s.orders) (items_of s) (items-Placed s placed) in
      (
        map (event_of s.orders) items,
        to_events_lem s.orders items kept,
        IsSorted-map event_time (event_of s.orders) items (
            subst (λ k. IsSorted k items) (sym (same_time s.orders))
              (stable_sort-IsSorted item_time (items_of s))),
        λ t.
            at_key-map event_time (event_of s.orders) t items
            ∙ ap (λ k. map (event_of s.orders) (at_key k t items)) (same_time s.orders)
            ∙ ap (map (event_of s.orders)) (at_key-stable_sort item_time t (items_of s))
            ∙ at_key-items_of s t,
      )
