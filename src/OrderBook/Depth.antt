-- ===== src/OrderBook/Depth.antt =====
-- The read-only queries: best price, quantities at a price, and the depth snapshot.
use trade_surveillance_engin.Prelude.{
  ◌≡◌, refl, sym, ◌∙◌, subst, ◌≢◌, inl, inr, Option, none, some, Option-cases, Bool-cases, Bool,
  true, false, arith, Double, IsTotal, same_price, same_price_iff, find, or_else, List, [], ◌∷◌,
  map, reverse, length, length-map, ℤ, pos, ◌+ℤ◌, int_laws,
}
use trade_surveillance_engin.Fix.{Side, buy, sell}
use trade_surveillance_engin.OrderBook.{
  RestingOrder, OrderQueue, PriceLevels, OrderBook, levels_for, queue,
}
use trade_surveillance_engin.OrderBook.Snapshot.{
  RestingOrderSummary, PriceLevel, add_qty, summaries, level_summary, snapshot, last_key, first_key,
  best_price, qty_at_price, order_count_at_price,
}
use trade_surveillance_engin.OrderBook.Levels.{Above, AreOrdered}
use trade_surveillance_engin.OrderBook.Validity.{IsValid}
use trade_surveillance_engin.OrderBook.Priority.{orders, resting_orders}

module _ {F : Type 0} ⦃d : Double F⦄ where
  -- `p` is better than `q` for a side: higher for a buyer, lower for a seller.
  abbrev pub is_better : Side → F → F → Bool
  is_better buy p q = d.lt q p
  is_better sell p q = d.lt p q

  -- What `best_price` may return: no price if no order rests on the side, or a price where one rests
  -- that no price with a resting order betters.
  abbrev pub IsBest : OrderBook F → Side → Option F → Type 0
  IsBest b s none = (p : F) → queue b s p ≡ []
  IsBest b s (some best) =
      (queue b s best ≢ []) × ((p : F) → queue b s p ≢ [] → is_better s p best ≡ false)

module _ {F : Type 0} ⦃d : Double F⦄ ⦃t : IsTotal F⦄ where
  -- A price above which all levels are has no level itself.
  Above-find :
      (p : F) (m : PriceLevels F) (p' : F)
      → d.lt p p' ≡ false
      → Above p m
      → or_else (find same_price p' m) [] ≡ []
  unfolding find
  Above-find p [] p' h a = refl
  Above-find p ((i, q) ∷ m) p' h a = ground (arith, Above-find p m p' h a.1, same_price_iff i p')

  first_key-best :
      (p : F) (q : OrderQueue) (m : PriceLevels F) (p' : F)
      → AreOrdered ((p, q) ∷ m)
      → or_else (find same_price p' ((p, q) ∷ m)) [] ≢ []
      → d.lt p' p ≡ false
  unfolding find
  first_key-best p q m p' o h = elim (Bool-cases (d.lt p' p)) [
    | inl below ↦ absurd (
        h (
          ground (
            arith,
            below,
            same_price_iff p p',
            d.lt_irrefl p,
            d.lt_trans p p' p,
            Above-find p m p',
          )))
    | inr above ↦ above
  ]

  last_key-Above :
      (i best : F) (m : PriceLevels F) → Above i m → last_key m ≡ some best → d.lt i best ≡ true
  unfolding last_key
  last_key-Above i best [] a h = cc
  last_key-Above i best ((p, q) ∷ []) a h = ground arith
  last_key-Above i best (x ∷ y ∷ m) a h = last_key-Above i best (y ∷ m) a.1 h

  -- The last key of an ordered map has a queue, and no key with one is above it.
  last_key-best :
      (m : PriceLevels F) (best : F)
      → AreOrdered m
      → last_key m ≡ some best
      → (or_else (find same_price best m) [] ≢ [])
        × ((p : F) → or_else (find same_price p m) [] ≢ [] → d.lt best p ≡ false)
  unfolding find last_key
  last_key-best [] best o h = cc
  last_key-best ((i, q) ∷ []) best o h = (
    λ e. ground (arith, same_price_iff i best),
    λ p g. ground (arith, same_price_iff i p, d.lt_irrefl p),
  )
  last_key-best ((i, q) ∷ y ∷ m) best o h =
      let (found, least) = last_key-best (y ∷ m) best o.2 h in
      let above = last_key-Above i best (y ∷ m) o.1 h in
      (
        λ e. found (ground (arith, above, same_price_iff i best)),
        λ p g. elim (Bool-cases (same_price i p)) [
          | inl same ↦
              ground (arith, above, same, same_price_iff i p, d.lt_irrefl i, d.lt_trans i best i)
          | inr other ↦ least p (λ e. g (rw other e))
        ],
      )

  last_key-none : (m : PriceLevels F) → last_key m ≡ none → m ≡ []
  unfolding last_key
  last_key-none [] h = refl
  last_key-none ((i, q) ∷ []) h = cc
  last_key-none (x ∷ y ∷ m) h = cc (last_key-none (y ∷ m) h)

  -- In a valid book `best_price` of a side is the highest bid or the lowest ask at which an order
  -- rests, and no price exactly if no order rests on that side.
  pub best_price_lem : (b : OrderBook F) (s : Side) → IsValid b → IsBest b s (best_price b s)
  unfolding best_price queue find
  best_price_lem b buy v = elim (Option-cases (last_key b.bids)) [
    | inl e ↦ rw e (λ p. rw (last_key-none b.bids e))
    | inr (best, e) ↦ rw e (last_key-best b.bids best (v.ordered buy) e)
  ]
  best_price_lem b sell v = asks_best b.asks refl
    where
      asks_best : (m : PriceLevels F) → b.asks ≡ m → IsBest b sell (first_key m)
      asks_best [] e = λ p. rw e refl
      asks_best ((i, q) ∷ m) e =
          let o : AreOrdered ((i, q) ∷ m) = subst AreOrdered e (v.ordered sell) in
          (
            λ h.
                let h' : or_else (find same_price i ((i, q) ∷ m)) [] ≡ [] = rw e at h in
                ground (arith, h', o.0, same_price_iff i i),
            λ p g. first_key-best i q m p o (λ h. g (rw e h)),
          )

pub sum_qty : List RestingOrder → ℤ
sum_qty [] = pos 0
sum_qty (r ∷ l) = r.qty +ℤ sum_qty l

pub sum_summaries : List RestingOrderSummary → ℤ
sum_summaries [] = pos 0
sum_summaries (r ∷ l) = r.qty +ℤ sum_summaries l

add_qty-sum_qty :
    (total : ℤ) (q : OrderQueue) → add_qty total q ≡ total +ℤ sum_qty (resting_orders q)
unfolding add_qty sum_qty
add_qty-sum_qty total [] = omega (int_laws)
add_qty-sum_qty total (x ∷ q) = add_qty-sum_qty (total +ℤ x.resting.qty) q ∙ omega (int_laws)

add_qty-sum_summaries :
    (total : ℤ) (q : OrderQueue) → add_qty total q ≡ total +ℤ sum_summaries (summaries q)
unfolding add_qty sum_summaries summaries
add_qty-sum_summaries total [] = omega (int_laws)
add_qty-sum_summaries total (x ∷ q) =
    add_qty-sum_summaries (total +ℤ x.resting.qty) q ∙ omega (int_laws)

zero_add : (a : ℤ) → pos 0 +ℤ a ≡ a
zero_add a = omega (int_laws)

module _ {F : Type 0} ⦃d : Double F⦄ where
  -- `qty_at_price` and `order_count_at_price` are the sum and the number of the orders that rest at a
  -- price, zero where there is no level.
  pub depth_at_price :
      (b : OrderBook F) (s : Side) (p : F)
      → (qty_at_price b s p ≡ sum_qty (orders b s p))
        × (order_count_at_price b s p ≡ length (orders b s p))
  unfolding qty_at_price order_count_at_price orders queue sum_qty
  depth_at_price b s p = elim (Option-cases (find same_price p (levels_for b s))) [
    | inl e ↦ (rw (e, qty_at_price), rw (e, order_count_at_price))
    | inr (q, e) ↦ (
      rw (e, qty_at_price) (add_qty-sum_qty (pos 0) q ∙ zero_add _),
      rw (e, order_count_at_price) (sym (length-map q _)),
    )
  ]

-- Every level's `total_qty` is the sum of the quantities that the level lists.
abbrev pub Totals : {F : Type 0} → List (PriceLevel F) → Type 0
Totals [] = Unit {0}
Totals (l ∷ ls) = (l.total_qty ≡ sum_summaries l.orders) × Totals ls

level_summaries-Totals : {F : Type 0} (m : PriceLevels F) → Totals (map level_summary m)
unfolding level_summary
level_summaries-Totals [] = tt
level_summaries-Totals ((p, q) ∷ m) =
    (add_qty-sum_summaries (pos 0) q ∙ zero_add _, level_summaries-Totals m)

-- In a snapshot, on both sides, the denormalised `total_qty` of each level is the sum of the
-- quantities of the orders that the level lists.
pub snapshot-Totals :
    {F : Type 0} (b : OrderBook F) → Totals (snapshot b).bids × Totals (snapshot b).asks
unfolding snapshot
snapshot-Totals b = (level_summaries-Totals (reverse b.bids), level_summaries-Totals b.asks)
