-- ===== src/OrderBook/Priority.antt =====
-- The book against its specification: for each side and price a list of orders, first come first
-- served, with no index, no addresses and no levels.
use trade_surveillance_engin.Prelude.{
  ℕ, ◌≡◌, refl, sym, ◌∙◌, ap₂, none, some, false, ◌&&◌, ◌==◌, ==_iff, if◌then◌else◌, arith, Text,
  text_eq, text_eq_iff, Double, IsTotal, same_price, same_price_iff, find, inl, inr, Bool-cases,
  List, [], ◌∷◌, ◌++◌, map,
}
use mathlib.Core.List.{map-append}
use trade_surveillance_engin.Fix.{Side, side_eq, Order}
use trade_surveillance_engin.OrderBook.{
  RestingOrder, Node, OrderQueue, IndexEntry, OrderBook, deref, queue, get_node, erase_node,
  set_node, resting_of, place, assign,
}
use trade_surveillance_engin.OrderBook.Queues.{Distinct, QueueChanged}
use trade_surveillance_engin.OrderBook.Places.{unlinked, queue-place, queue-unlinked, queue-assign}
use trade_surveillance_engin.OrderBook.Validity.{IsValid}
use trade_surveillance_engin.OrderBook.Soundness.{entry_order}

-- The specification's operations on one list of orders.
unfoldable pub without : Text → List RestingOrder → List RestingOrder
without k [] = []
without k (r ∷ l) = if text_eq r.order_id k then without k l else r ∷ without k l

unfoldable pub updated :
    Text → (RestingOrder → RestingOrder) → List RestingOrder → List RestingOrder
updated k f [] = []
updated k f (r ∷ l) = (if text_eq r.order_id k then f r else r) ∷ updated k f l

-- The node `n` of a queue is the one whose order has the id `k`.
abbrev Marks : Text → ℕ → OrderQueue → Type 0
Marks k n [] = Unit {0}
Marks k n (x ∷ q) = (text_eq x.resting.order_id k ≡ (x.id == n)) × Marks k n q

abbrev pub Lacks : Text → OrderQueue → Type 0
Lacks k [] = Unit {0}
Lacks k (x ∷ q) = (text_eq x.resting.order_id k ≡ false) × Lacks k q

abbrev pub resting_orders : OrderQueue → List RestingOrder
resting_orders q = map (λ (x : Node). x.resting) q

pub without_lacking :
    (k : Text) (q : OrderQueue) → Lacks k q → without k (resting_orders q) ≡ resting_orders q
unfolding without
without_lacking k [] h = refl
without_lacking k (x ∷ q) h = ground (arith, without_lacking k q h.1)

updated_lacking :
    (k : Text) (f : RestingOrder → RestingOrder) (q : OrderQueue)
    → Lacks k q
    → updated k f (resting_orders q) ≡ resting_orders q
unfolding updated
updated_lacking k f [] h = refl
updated_lacking k f (x ∷ q) h = ground (arith, updated_lacking k f q h.1)

Marks-Lacks : (k : Text) (n : ℕ) (q : OrderQueue) → get_node n q ≡ none → Marks k n q → Lacks k q
unfolding get_node
Marks-Lacks k n [] h m = tt
Marks-Lacks k n (x ∷ q) h m = ground (arith, Marks-Lacks k n q)

without-erase_node :
    (k : Text) (n : ℕ) (q : OrderQueue)
    → Distinct q
    → Marks k n q
    → resting_orders (erase_node n q) ≡ without k (resting_orders q)
unfolding without erase_node
without-erase_node k n [] t m = refl
without-erase_node k n (x ∷ q) t m = elim (Bool-cases (x.id == n)) [
  | inl hit ↦ ground (arith, hit, without_lacking k q, Marks-Lacks k n q, ==_iff x.id n)
  | inr miss ↦ ground (arith, miss, without-erase_node k n q t.1 m.1)
]

updated-set_node :
    (k : Text) (n : ℕ) (r' : RestingOrder) (f : RestingOrder → RestingOrder) (q : OrderQueue)
    → Distinct q
    → Marks k n q
    → ((r : RestingOrder) → get_node n q ≡ some r → f r ≡ r')
    → resting_orders (set_node n r' q) ≡ updated k f (resting_orders q)
unfolding updated set_node get_node
updated-set_node k n r' f [] t m h = refl
updated-set_node k n r' f (x ∷ q) t m h = elim (Bool-cases (x.id == n)) [
  | inl hit ↦
      ground (arith, hit, updated_lacking k f q, Marks-Lacks k n q, ==_iff x.id n, h x.resting)
  | inr miss ↦ ground (arith, miss, updated-set_node k n r' f q t.1 m.1 (λ r g. h r (rw miss g)))
]

-- What holds of every order that an address leads to holds all along the queue.
Marks-of_nodes :
    (k : Text) (n : ℕ) (q : OrderQueue)
    → Distinct q
    → ((m : ℕ) (r : RestingOrder) → get_node m q ≡ some r → text_eq r.order_id k ≡ (m == n))
    → Marks k n q
unfolding get_node
Marks-of_nodes k n [] t h = tt
Marks-of_nodes k n (x ∷ q) t h = (
  h x.id x.resting (ground arith),
  Marks-of_nodes k n q t.1 (λ m r g. h m r (ground (arith, ==_iff x.id m))),
)

Lacks-of_nodes :
    (k : Text) (q : OrderQueue)
    → Distinct q
    → ((m : ℕ) (r : RestingOrder) → get_node m q ≡ some r → text_eq r.order_id k ≡ false)
    → Lacks k q
unfolding get_node
Lacks-of_nodes k [] t h = tt
Lacks-of_nodes k (x ∷ q) t h = (
  h x.id x.resting (ground arith),
  Lacks-of_nodes k q t.1 (λ m r g. h m r (ground (arith, ==_iff x.id m))),
)

module _ {F : Type 0} ⦃d : Double F⦄ where
  -- The specification's view of a book: who rests at a price, in order of priority.
  unfoldable pub orders : OrderBook F → Side → F → List RestingOrder
  orders b s p = resting_orders (queue b s p)

module _ {F : Type 0} ⦃d : Double F⦄ ⦃t : IsTotal F⦄ where
  -- An id rests at the place of its index entry.
  queue-Marks :
      (b : OrderBook F) (k : Text) (e : IndexEntry F)
      → IsValid b
      → find text_eq k b.order_index ≡ some e
      → Marks k e.it (queue b e.side e.price)
  unfolding deref
  queue-Marks b k e v present =
      Marks-of_nodes k e.it (queue b e.side e.price) (v.distinct e.side e.price) λ m r g.
        let f : IndexEntry F = record e { it = m } in
        let (r', here, id) = entry_order b k e v present in
        ground
          (arith, v.linked.listed f r g, present, here, id, text_eq_iff r.order_id k, ==_iff m e.it)

  -- and nowhere else.
  queue-Lacks :
      (b : OrderBook F) (k : Text) (e : IndexEntry F) (s : Side) (p : F)
      → IsValid b
      → find text_eq k b.order_index ≡ some e
      → side_eq e.side s && same_price e.price p ≡ false
      → Lacks k (queue b s p)
  unfolding deref
  queue-Lacks b k e s p v present apart = Lacks-of_nodes k (queue b s p) (v.distinct s p) λ m r g.
      let f : IndexEntry F = record { side = s; price = p; it = m } in
      ground
        (arith, v.linked.listed f r g, present, text_eq_iff r.order_id k, same_price_iff e.price p)

  -- An id that is not in the index rests nowhere.
  pub queue-absent :
      (b : OrderBook F) (k : Text) (s : Side) (p : F)
      → IsValid b
      → find text_eq k b.order_index ≡ none
      → Lacks k (queue b s p)
  unfolding deref
  queue-absent b k s p v absent = Lacks-of_nodes k (queue b s p) (v.distinct s p) λ m r g.
      let f : IndexEntry F = record { side = s; price = p; it = m } in
      ground (arith, v.linked.listed f r g, absent, text_eq_iff r.order_id k)

  -- A change of the one queue where an id rests is a change of every queue by the same function.
  orders-changed :
      (b b' : OrderBook F) (k : Text) (e : IndexEntry F) (q' : OrderQueue)
      (g : List RestingOrder → List RestingOrder)
      → IsValid b
      → find text_eq k b.order_index ≡ some e
      → QueueChanged b b' e.side e.price q'
      → resting_orders q' ≡ g (resting_orders (queue b e.side e.price))
      → ((q : OrderQueue) → Lacks k q → g (resting_orders q) ≡ resting_orders q)
      → (s : Side) (p : F) → orders b' s p ≡ g (orders b s p)
  unfolding orders
  orders-changed b b' k e q' g v present change here elsewhere s p =
      rw (change s p) (elim (Bool-cases (side_eq e.side s && same_price e.price p)) [
        | inl yes_here ↦ rw yes_here (
            here
            ∙ ap₂ (λ s' p'. g (resting_orders (queue b s' p'))) (ground (arith, yes_here))
                (ground (arith, yes_here, same_price_iff e.price p)))
        | inr apart ↦
            rw apart (sym (elsewhere (queue b s p) (queue-Lacks b k e s p v present apart)))
      ])

  -- Removal takes one order out of its queue, and leaves the order of all others.
  pub orders-unlinked :
      (b : OrderBook F) (k : Text) (e : IndexEntry F)
      → IsValid b
      → find text_eq k b.order_index ≡ some e
      → (s : Side) (p : F) → orders (unlinked b k e) s p ≡ without k (orders b s p)
  orders-unlinked b k e v present =
      orders-changed b (unlinked b k e) k e _ (without k) v present (queue-unlinked b k e)
        (without-erase_node k e.it _ (v.distinct e.side e.price) (queue-Marks b k e v present))
        (without_lacking k)

  -- An assignment to an order changes it where it stands.
  pub orders-assign :
      (b : OrderBook F) (k : Text) (e : IndexEntry F) (r r' : RestingOrder)
      (f : RestingOrder → RestingOrder)
      → IsValid b
      → find text_eq k b.order_index ≡ some e
      → deref b e ≡ some r
      → f r ≡ r'
      → (s : Side) (p : F) → orders (assign b e r') s p ≡ updated k f (orders b s p)
  unfolding deref
  orders-assign b k e r r' f v present here made =
      orders-changed b (assign b e r') k e _ (updated k f) v present (queue-assign b e r')
        (updated-set_node k e.it r' f _ (v.distinct e.side e.price) (queue-Marks b k e v present)
          (λ x g. ground (arith, here, g, made)))
        (updated_lacking k f)

  -- A new order is the last at its price, and no other queue changes.
  pub orders-place :
      (b : OrderBook F) (o : Order F) (s : Side) (p : F)
      → orders (place b o) s p ≡ (
          if side_eq o.side s && same_price o.price p
          then orders b s p ++ resting_of o ∷ []
          else orders b s p)
  unfolding orders
  orders-place b o s p =
      rw (queue-place b o s p) (elim (Bool-cases (side_eq o.side s && same_price o.price p)) [
        | inl here ↦
            let es : o.side ≡ s = ground (arith, here) in
            let ep : o.price ≡ p = ground (arith, here, same_price_iff o.price p) in
            rw (here, ← es, ← ep) (map-append _ (queue b o.side o.price) _)
        | inr apart ↦ rw apart
      ])
