-- ===== src/OrderBook.antt =====
-- cpp/orderbook/order_book.hpp and cpp/orderbook/order_book.cpp: one instrument's price-time book.
-- A std::list node is a `Node`: its `id` stands for its address, and an OrderQueue::iterator is
-- such an address. A method returns the new book and how the call ended; a throw keeps the changes
-- that the code made before it.
pub mod Queues
pub mod Places
pub mod Links
pub mod Levels
pub mod Validity
pub mod Soundness
pub mod Priority
pub mod Refinement
pub mod Instrument
pub mod Snapshot
pub mod Depth
pub mod TakenId
mod Tests
use trade_surveillance_engin.Prelude.{
  ℕ, suc, ◌+◌, ◌%◌, ◌^◌, ℤ, pos, ltb_ℤ, is_zero, ◌-ℤ◌, ◌+ℤ◌, map, reverse, length, Text, is_empty,
  text_eq, find, put, erase, or_else, Double, same_price, Bool, not, ◌||◌, ◌==◌, Option, none, some,
  List, [], ◌∷◌, ◌++◌, if◌then◌else◌,
}
use trade_surveillance_engin.Fix.{
  Side, buy, sell, Order, Execution, OrderStatus, new, cancelled, replaced,
}

pub record RestingOrder : Type 0 where
  pub order_id : Text
  pub account_id : Text
  pub side : Side
  pub qty : ℤ
  pub timestamp_ns : ℤ

pub record Node : Type 0 where
  pub id : ℕ
  pub resting : RestingOrder

abbrev pub OrderQueue : Type 0
OrderQueue = List Node

-- Ascending by price.
abbrev pub PriceLevels : Type 0 → Type 0
PriceLevels F = List (F × OrderQueue)

pub record IndexEntry (F : Type 0) : Type 0 where
  pub side : Side
  pub price : F
  pub it : ℕ

-- `next_node` is the allocator's: the next address that no node has had.
pub record OrderBook (F : Type 0) : Type 0 where
  pub instrument_id : Text
  pub bids : PriceLevels F
  pub asks : PriceLevels F
  pub order_index : List (Text × IndexEntry F)
  pub sequence : ℕ
  pub last_event_timestamp_ns : ℤ
  pub next_node : ℕ

-- What a call of `apply` throws, by its message.
pub data Error : Type 0 where
  instrument_mismatch duplicate_order_id replace_not_resting execution_not_resting overfill : Error

-- `undefined` is undefined behaviour: a dangling iterator, or the end of a map.
pub data Outcome : Type 0 where
  applied : Outcome
  threw : Error → Outcome
  undefined : Outcome

-- The list operations at an address.
unfoldable pub get_node : ℕ → OrderQueue → Option RestingOrder
get_node n [] = none
get_node n (x ∷ q) = if x.id == n then some x.resting else get_node n q

unfoldable pub erase_node : ℕ → OrderQueue → OrderQueue
erase_node n [] = []
erase_node n (x ∷ q) = if x.id == n then q else x ∷ erase_node n q

unfoldable pub set_node : ℕ → RestingOrder → OrderQueue → OrderQueue
set_node n r [] = []
set_node n r (x ∷ q) = if x.id == n then record x { resting = r } ∷ q else x ∷ set_node n r q

unfoldable pub make_book : {F : Type 0} → Text → OrderBook F
make_book instrument_id = record {
  instrument_id = instrument_id;
  bids = [];
  asks = [];
  order_index = [];
  sequence = 0;
  last_event_timestamp_ns = pos 0;
  next_node = 0;
}

abbrev pub levels_for : {F : Type 0} → OrderBook F → Side → PriceLevels F
levels_for b buy = b.bids
levels_for b sell = b.asks

abbrev pub set_levels : {F : Type 0} → OrderBook F → Side → PriceLevels F → OrderBook F
set_levels b buy levels = record b { bids = levels }
set_levels b sell levels = record b { asks = levels }

module _ {F : Type 0} ⦃d : Double F⦄ where
  -- `levels[price] = queue` in a std::map: the level keeps its key, and a new one goes in order.
  unfoldable pub put_level : F → OrderQueue → PriceLevels F → PriceLevels F
  put_level p q [] = (p, q) ∷ []
  put_level p q ((p', q') ∷ m) =
      if d.lt p p'
      then (p, q) ∷ (p', q') ∷ m
      else if d.lt p' p
      then (p', q') ∷ put_level p q m
      else (p', q) ∷ m

  -- The queue at a price, empty where there is no level.
  unfoldable pub queue : OrderBook F → Side → F → OrderQueue
  queue b s p = or_else (find same_price p (levels_for b s)) []

  -- `*it`
  unfoldable pub deref : OrderBook F → IndexEntry F → Option RestingOrder
  unfolding queue
  deref b e = get_node e.it (queue b e.side e.price)

  abbrev pub resting_of : Order F → RestingOrder
  resting_of o = record {
    order_id = o.order_id;
    account_id = o.account_id;
    side = o.side;
    qty = o.qty;
    timestamp_ns = o.timestamp_ns;
  }

  abbrev pub entry_of : OrderBook F → Order F → IndexEntry F
  entry_of b o = record { side = o.side; price = o.price; it = b.next_node }

  -- `push_back` on the order's level, which is created if absent, and the index entry
  unfoldable pub place : OrderBook F → Order F → OrderBook F
  unfolding queue
  place b o =
      let node : Node = record { id = b.next_node; resting = resting_of o } in
      let levels = put_level o.price (queue b o.side o.price ++ node ∷ []) (levels_for b o.side) in
      record (set_levels b o.side levels) {
        order_index = put text_eq o.order_id (entry_of b o) b.order_index;
        next_node = suc b.next_node;
      }

  unfoldable pub insert_new : OrderBook F → Order F → OrderBook F × Outcome
  unfolding place
  insert_new b o = elim (find text_eq o.order_id b.order_index) [
    | some e ↦ (b, threw duplicate_order_id)
    | none ↦ (place b o, applied)
  ]

  -- The level without a node, or no level if that empties it.
  unfoldable pub drop_node : F → ℕ → OrderQueue → PriceLevels F → PriceLevels F
  drop_node p n q levels =
      let rest = erase_node n q in
      if is_empty rest then erase same_price p levels else put_level p rest levels

  unfoldable pub remove_resting : OrderBook F → Text → IndexEntry F → OrderBook F × Outcome
  unfolding drop_node
  remove_resting b k e = elim (find same_price e.price (levels_for b e.side)) [
    | none ↦ (b, undefined)
    | some q ↦ elim (get_node e.it q) [
      | none ↦ (b, undefined)
      | some r ↦ (
        record (set_levels b e.side (drop_node e.price e.it q (levels_for b e.side))) {
          order_index = erase text_eq k b.order_index;
        },
        applied,
      )
    ]
  ]

  unfoldable pub cancel : OrderBook F → Text → OrderBook F × Outcome
  unfolding remove_resting
  cancel b target = elim (find text_eq target b.order_index) [
    | none ↦ (b, applied)
    | some e ↦ remove_resting b target e
  ]

  -- `*it = r`
  unfoldable pub assign : OrderBook F → IndexEntry F → RestingOrder → OrderBook F
  unfolding queue
  assign b e r =
      set_levels b e.side
        (put_level e.price (set_node e.it r (queue b e.side e.price)) (levels_for b e.side))

  abbrev pub loses_priority : Order F → IndexEntry F → RestingOrder → Bool
  loses_priority o e r = not (same_price o.price e.price) || ltb_ℤ r.qty o.qty

  unfoldable pub reinsert : OrderBook F × Outcome → Order F → OrderBook F × Outcome
  unfolding insert_new
  reinsert (b, applied) o = insert_new b (record o { status = new })
  reinsert (b, threw e) o = (b, threw e)
  reinsert (b, undefined) o = (b, undefined)

  unfoldable pub amend_in_place : OrderBook F → Order F → IndexEntry F → RestingOrder → OrderBook F
  unfolding assign
  amend_in_place b o e r = record (assign b e (record r { qty = o.qty; order_id = o.order_id })) {
    order_index = put text_eq o.order_id e (erase text_eq o.orig_order_id b.order_index);
  }

  unfoldable pub replace : OrderBook F → Order F → OrderBook F × Outcome
  unfolding deref remove_resting reinsert amend_in_place
  replace b o = elim (find text_eq o.orig_order_id b.order_index) [
    | none ↦ (b, threw replace_not_resting)
    | some e ↦ elim (deref b e) [
      | none ↦ (b, undefined)
      | some r ↦
          if loses_priority o e r
          then reinsert (remove_resting b o.orig_order_id e) o
          else (amend_in_place b o e r, applied)
    ]
  ]

  -- uint64_t
  abbrev pub stamped : OrderBook F → ℤ → OrderBook F
  stamped b ts = record b { sequence = (b.sequence + 1) % 2 ^ 64; last_event_timestamp_ns = ts }

  unfoldable pub dispatch : OrderStatus → OrderBook F → Order F → OrderBook F × Outcome
  unfolding insert_new cancel replace
  dispatch new b o = insert_new b o
  dispatch cancelled b o = cancel b o.orig_order_id
  dispatch replaced b o = replace b o

  unfoldable pub apply_order : OrderBook F → Order F → OrderBook F × Outcome
  unfolding dispatch
  apply_order b o =
      if text_eq o.instrument_id b.instrument_id
      then dispatch o.status (stamped b o.timestamp_ns) o
      else (b, threw instrument_mismatch)

  unfoldable pub fill : OrderBook F → Execution F → OrderBook F × Outcome
  unfolding deref assign remove_resting
  fill b x = elim (find text_eq x.order_id b.order_index) [
    | none ↦ (b, threw execution_not_resting)
    | some e ↦ elim (deref b e) [
      | none ↦ (b, undefined)
      | some r ↦
          if ltb_ℤ r.qty x.qty
          then (b, threw overfill)
          else (let left = r.qty -ℤ x.qty in
              let b' = assign b e (record r { qty = left }) in
              if is_zero left then remove_resting b' x.order_id e else (b', applied))
    ]
  ]

  unfoldable pub apply_execution : OrderBook F → Execution F → OrderBook F × Outcome
  unfolding fill
  apply_execution b x =
      if text_eq x.instrument_id b.instrument_id
      then fill (stamped b x.timestamp_ns) x
      else (b, threw instrument_mismatch)
