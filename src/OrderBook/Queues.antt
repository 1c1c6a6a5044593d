-- ===== src/OrderBook/Queues.antt =====
-- The std::map and std::list operations of the book: what each does to the queue at every price.
use trade_surveillance_engin.Prelude.{
  ℕ, ◌≡◌, refl, ◌≢◌, none, some, [], ◌∷◌, ◌++◌, ◌&&◌, ◌==◌, if◌then◌else◌, arith, Double, IsTotal,
  same_price, same_price_iff, find, find-erase, or_else,
}
use trade_surveillance_engin.Fix.{Side, buy, sell, side_eq}
use trade_surveillance_engin.OrderBook.{
  RestingOrder, Node, OrderQueue, PriceLevels, OrderBook, levels_for, set_levels, get_node,
  erase_node, set_node, put_level, queue, drop_node,
}

-- No address stands twice in a list.
abbrev pub Distinct : OrderQueue → Type 0
Distinct [] = Unit {0}
Distinct (x ∷ q) = (get_node x.id q ≡ none) × Distinct q

pub get_node-append :
    (n : ℕ) (q : OrderQueue) (x : Node)
    → get_node x.id q ≡ none
    → get_node n (q ++ x ∷ []) ≡ (if x.id == n then some x.resting else get_node n q)
unfolding get_node
get_node-append n [] x h = refl
get_node-append n (y ∷ q) x h = ground (arith, get_node-append n q x)

pub get_node-erase_node :
    (n m : ℕ) (q : OrderQueue)
    → Distinct q
    → get_node m (erase_node n q) ≡ (if n == m then none else get_node m q)
unfolding get_node erase_node
get_node-erase_node n m [] h = ground arith
get_node-erase_node n m (y ∷ q) h = ground (arith, get_node-erase_node n m q h.1)

pub get_node-set_node :
    (n m : ℕ) (r : RestingOrder) (q : OrderQueue)
    → get_node n q ≢ none
    → get_node m (set_node n r q) ≡ (if n == m then some r else get_node m q)
unfolding get_node set_node
get_node-set_node n m r [] h = absurd (h refl)
get_node-set_node n m r (y ∷ q) h = ground (arith, get_node-set_node n m r q)

get_node_absent-erase_node :
    (n m : ℕ) (q : OrderQueue) → get_node m q ≡ none → get_node m (erase_node n q) ≡ none
unfolding get_node erase_node
get_node_absent-erase_node n m [] h = refl
get_node_absent-erase_node n m (y ∷ q) h = ground (arith, get_node_absent-erase_node n m q)

get_node_absent-set_node :
    (n m : ℕ) (r : RestingOrder) (q : OrderQueue)
    → get_node m q ≡ none
    → get_node m (set_node n r q) ≡ none
unfolding get_node set_node
get_node_absent-set_node n m r [] h = refl
get_node_absent-set_node n m r (y ∷ q) h = ground (arith, get_node_absent-set_node n m r q)

pub Distinct-append :
    (q : OrderQueue) (x : Node) → get_node x.id q ≡ none → Distinct q → Distinct (q ++ x ∷ [])
unfolding get_node
Distinct-append [] x h t = (refl, tt)
Distinct-append (y ∷ q) x h t = ground (arith, get_node-append y.id q x, Distinct-append q x)

pub Distinct-erase_node : (n : ℕ) (q : OrderQueue) → Distinct q → Distinct (erase_node n q)
unfolding erase_node
Distinct-erase_node n [] t = tt
Distinct-erase_node n (y ∷ q) t =
    ground (arith, get_node_absent-erase_node n y.id q, Distinct-erase_node n q t.1)

pub Distinct-set_node :
    (n : ℕ) (r : RestingOrder) (q : OrderQueue) → Distinct q → Distinct (set_node n r q)
unfolding set_node
Distinct-set_node n r [] t = tt
Distinct-set_node n r (y ∷ q) t =
    ground (arith, get_node_absent-set_node n y.id r q, Distinct-set_node n r q t.1)

module _ {F : Type 0} ⦃d : Double F⦄ ⦃t : IsTotal F⦄ where
  pub find-put_level :
      (p p' : F) (q : OrderQueue) (m : PriceLevels F)
      → find same_price p' (put_level p q m)
        ≡ (if same_price p p' then some q else find same_price p' m)
  unfolding find put_level
  find-put_level p p' q [] = refl
  find-put_level p p' q ((i, w) ∷ m) = ground (
    arith,
    same_price_iff p p',
    same_price_iff i p,
    same_price_iff i p',
    d.lt_irrefl p,
    find-put_level p p' q m,
  )

  -- One queue changes, and the others stay.
  abbrev pub QueueChanged : OrderBook F → OrderBook F → Side → F → OrderQueue → Type 0
  QueueChanged b b' s p q =
      (s' : Side) (p' : F)
      → queue b' s' p' ≡ (if side_eq s s' && same_price p p' then q else queue b s' p')

  pub queue-put_level :
      (b : OrderBook F) (s : Side) (p : F) (q : OrderQueue)
      → QueueChanged b (set_levels b s (put_level p q (levels_for b s))) s p q
  unfolding queue
  queue-put_level b buy p q buy p' = ground (arith, find-put_level p p' q b.bids)
  queue-put_level b buy p q sell p' = refl
  queue-put_level b sell p q buy p' = refl
  queue-put_level b sell p q sell p' = ground (arith, find-put_level p p' q b.asks)

  find-drop_node :
      (p p' : F) (n : ℕ) (q : OrderQueue) (m : PriceLevels F)
      → or_else (find same_price p' (drop_node p n q m)) []
        ≡ (if same_price p p' then erase_node n q else or_else (find same_price p' m) [])
  unfolding drop_node
  find-drop_node p p' n q m =
      ground
        (arith, find-put_level p p' (erase_node n q) m, find-erase same_price same_price_iff p p' m)

  pub queue-drop_node :
      (b : OrderBook F) (s : Side) (p : F) (n : ℕ) (q : OrderQueue)
      → QueueChanged b (set_levels b s (drop_node p n q (levels_for b s))) s p (erase_node n q)
  unfolding queue
  queue-drop_node b buy p n q buy p' = find-drop_node p p' n q b.bids
  queue-drop_node b buy p n q sell p' = refl
  queue-drop_node b sell p n q buy p' = refl
  queue-drop_node b sell p n q sell p' = find-drop_node p p' n q b.asks
