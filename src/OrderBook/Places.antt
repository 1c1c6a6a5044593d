-- ===== src/OrderBook/Places.antt =====
-- Where the iterators of the index lead: what each change of the book does to every place of it.
use trade_surveillance_engin.Prelude.{
  ◌≡◌, ◌≢◌, ◌↔◌, none, some, ◌∷◌, [], ◌++◌, Bool, true, ◌&&◌, ◌==◌, if◌then◌else◌, arith, Text,
  text_eq, Double, IsTotal, same_price, same_price_iff, erase,
}
use trade_surveillance_engin.Fix.{buy, sell, Order, side_eq}
use trade_surveillance_engin.OrderBook.{
  RestingOrder, Node, IndexEntry, OrderBook, applied, levels_for, set_levels, get_node, erase_node,
  set_node, queue, deref, place, resting_of, entry_of, drop_node, assign, remove_resting,
}
use trade_surveillance_engin.OrderBook.Queues.{
  Distinct, get_node-append, get_node-erase_node, get_node-set_node, QueueChanged, queue-put_level,
  queue-drop_node,
}

module _ {F : Type 0} ⦃d : Double F⦄ where
  abbrev pub same_entry : IndexEntry F → IndexEntry F → Bool
  same_entry e f = side_eq e.side f.side && same_price e.price f.price && e.it == f.it

  -- The book after `remove_resting` of a place that holds an order.
  unfoldable pub unlinked : OrderBook F → Text → IndexEntry F → OrderBook F
  unfolding queue
  unlinked b k e =
      let levels = drop_node e.price e.it (queue b e.side e.price) (levels_for b e.side) in
      record (set_levels b e.side levels) { order_index = erase text_eq k b.order_index }

  pub remove_resting_lem :
      (b : OrderBook F) (k : Text) (e : IndexEntry F)
      → deref b e ≢ none
      → remove_resting b k e ≡ (unlinked b k e, applied)
  unfolding remove_resting unlinked deref queue get_node
  remove_resting_lem b k e h = ground arith

module _ {F : Type 0} ⦃d : Double F⦄ ⦃t : IsTotal F⦄ where
  pub same_entry_iff : (e f : IndexEntry F) → (same_entry e f ≡ true) ↔ (e ≡ f)
  same_entry_iff e f = (same_of, same_to)
    where
      same_of : same_entry e f ≡ true → e ≡ f
      same_of h = ground (arith, same_price_iff e.price f.price)

      same_to : e ≡ f → same_entry e f ≡ true
      same_to h = ground (arith, same_price_iff e.price f.price)

  pub queue-place :
      (b : OrderBook F) (o : Order F)
      → let node : Node = record { id = b.next_node; resting = resting_of o } in
        QueueChanged b (place b o) o.side o.price (queue b o.side o.price ++ node ∷ [])
  unfolding place queue
  queue-place b o buy p = queue-put_level b o.side o.price _ buy p
  queue-place b o sell p = queue-put_level b o.side o.price _ sell p

  pub queue-unlinked :
      (b : OrderBook F) (k : Text) (e : IndexEntry F)
      → QueueChanged b (unlinked b k e) e.side e.price (erase_node e.it (queue b e.side e.price))
  unfolding unlinked queue
  queue-unlinked b k e buy p = queue-drop_node b e.side e.price e.it _ buy p
  queue-unlinked b k e sell p = queue-drop_node b e.side e.price e.it _ sell p

  pub queue-assign :
      (b : OrderBook F) (e : IndexEntry F) (r : RestingOrder)
      → QueueChanged b (assign b e r) e.side e.price (set_node e.it r (queue b e.side e.price))
  unfolding assign
  queue-assign b e r = queue-put_level b e.side e.price (set_node e.it r (queue b e.side e.price))

  -- A new node is where its index entry says, and moves no other.
  pub deref-place :
      (b : OrderBook F) (o : Order F) (f : IndexEntry F)
      → deref b (entry_of b o) ≡ none
      → deref (place b o) f
        ≡ (if same_entry (entry_of b o) f then some (resting_of o) else deref b f)
  unfolding deref
  deref-place b o f h = rw (queue-place b o f.side f.price) (
      ground (
        arith,
        same_price_iff o.price f.price,
        get_node-append f.it (queue b o.side o.price)
            (record { id = b.next_node; resting = resting_of o }),
      ))

  pub deref-unlinked :
      (b : OrderBook F) (k : Text) (e f : IndexEntry F)
      → Distinct (queue b e.side e.price)
      → deref (unlinked b k e) f ≡ (if same_entry e f then none else deref b f)
  unfolding deref
  deref-unlinked b k e f h = rw (queue-unlinked b k e f.side f.price) (
      ground (
        arith,
        same_price_iff e.price f.price,
        get_node-erase_node e.it f.it (queue b e.side e.price),
      ))

  pub deref-assign :
      (b : OrderBook F) (e f : IndexEntry F) (r : RestingOrder)
      → deref b e ≢ none
      → deref (assign b e r) f ≡ (if same_entry e f then some r else deref b f)
  unfolding deref
  deref-assign b e f r h = rw (queue-assign b e r f.side f.price) (
      ground (
        arith,
        same_price_iff e.price f.price,
        get_node-set_node e.it f.it r (queue b e.side e.price),
      ))
