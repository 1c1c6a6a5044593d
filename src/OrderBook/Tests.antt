-- ===== src/OrderBook/Tests.antt =====
-- The book on a small run, and its theorems at that run. Prices are whole ticks.
use trade_surveillance_engin.Prelude.{
  ℕ, ◌≡◌, refl, ◌≢◌, inl, ◌⊎◌, ◌+ℤ◌, some, none, if◌then◌else◌, ◌&&◌, arith, Text, codes, text_eq,
  find, put, pos, ◌-ℤ◌, same_price, [], ◌∷◌, ◌++◌,
}
use trade_surveillance_engin.Ticks.{ticks, ticks_IsTotal, new_order, fill_a}
use trade_surveillance_engin.Fix.{Side, buy, side_eq, Order, cancelled, replaced}
use trade_surveillance_engin.OrderBook.{
  IndexEntry, OrderBook, applied, threw, duplicate_order_id, overfill, make_book, deref, queue,
  put_level, get_node, apply_order, apply_execution, resting_of,
}
use trade_surveillance_engin.OrderBook.Snapshot.{best_price, qty_at_price}
use trade_surveillance_engin.OrderBook.Validity.{IsValid, make_book-IsValid}
use trade_surveillance_engin.OrderBook.Soundness.{
  IsSound, apply_order-IsSound, apply_execution-IsSound,
}
use trade_surveillance_engin.OrderBook.Priority.{orders, without, updated}
use trade_surveillance_engin.OrderBook.Refinement.{
  apply_cancel_refines, apply_new_refines, apply_execution_refines, apply_execution_refused,
  replace_keeps_priority, replace_loses_priority,
}
use trade_surveillance_engin.OrderBook.Depth.{IsBest, best_price_lem}
use trade_surveillance_engin.OrderBook.TakenId.{replace_taken_id}

abbrev first : Order ℕ
first = new_order (codes "A") 10

abbrev second : Order ℕ
second = new_order (codes "B") 5

-- Two bids at one price, the older one first.
two_bids : OrderBook ℕ
two_bids = (apply_order (apply_order (make_book (codes "AAPL")) first).0 second).0

two_bids-IsValid : IsValid two_bids
unfolding two_bids
two_bids-IsValid =
    (apply_order-IsSound _ second
      (apply_order-IsSound _ first (make_book-IsValid (codes "AAPL")) (λ h. cc)).0 (λ h. cc)).0

abbrev at_a : IndexEntry ℕ
at_a = record { side = buy; price = 100; it = 0 }

abbrev at_b : IndexEntry ℕ
at_b = record { side = buy; price = 100; it = 1 }

find-a : find text_eq (codes "A") two_bids.order_index ≡ some at_a
unfolding two_bids apply_order find put text_eq make_book put_level
find-a = refl

find-b : find text_eq (codes "B") two_bids.order_index ≡ some at_b
unfolding two_bids apply_order find put text_eq make_book put_level
find-b = refl

deref-a : deref two_bids at_a ≡ some (resting_of first)
unfolding two_bids apply_order find put text_eq make_book put_level deref get_node
deref-a = refl

deref-b : deref two_bids at_b ≡ some (resting_of second)
unfolding two_bids apply_order find put text_eq make_book put_level deref get_node
deref-b = refl

abbrev amend : Text → ℕ → Order ℕ
amend id qty = record (new_order id qty) { status = replaced; orig_order_id = codes "A" }

ours_two_bids : codes "AAPL" ≡ two_bids.instrument_id
unfolding two_bids apply_order find put text_eq make_book put_level
ours_two_bids = refl

abbrev cancel_a : Order ℕ
cancel_a = record (amend (codes "C") 0) { status = cancelled }

apply_order-IsSound_example : IsSound (apply_order two_bids (amend (codes "C") 4))
unfolding two_bids apply_order find put text_eq make_book put_level
apply_order-IsSound_example =
    apply_order-IsSound two_bids (amend (codes "C") 4) two_bids-IsValid (λ h. inl refl)

apply_execution-IsSound_example : IsSound (apply_execution two_bids (fill_a 10))
apply_execution-IsSound_example = apply_execution-IsSound two_bids (fill_a 10) two_bids-IsValid

apply_cancel_refines_example :
    orders (apply_order two_bids cancel_a).0 buy 100 ≡ resting_of second ∷ []
unfolding two_bids apply_order find put text_eq make_book put_level orders queue without
apply_cancel_refines_example =
    (apply_cancel_refines two_bids cancel_a two_bids-IsValid ours_two_bids refl).1 buy 100

apply_new_refines_example :
    ((find text_eq (codes "A") two_bids.order_index ≡ none)
      × ((apply_order two_bids first).1 ≡ applied)
      × ((s : Side) (p : ℕ)
          → orders (apply_order two_bids first).0 s p ≡ (
              if side_eq buy s && same_price 100 p
              then orders two_bids s p ++ resting_of first ∷ []
              else orders two_bids s p)))
    ⊎ ((find text_eq (codes "A") two_bids.order_index ≢ none)
        × ((apply_order two_bids first).1 ≡ threw duplicate_order_id)
        × ((s : Side) (p : ℕ) → orders (apply_order two_bids first).0 s p ≡ orders two_bids s p))
apply_new_refines_example = apply_new_refines two_bids first two_bids-IsValid ours_two_bids refl

-- A partial fill of the older order keeps it in front.
apply_execution_refines_example :
    orders (apply_execution two_bids (fill_a 4)).0 buy 100
    ≡ record (resting_of first) { qty = pos 6 } ∷ resting_of second ∷ []
unfolding two_bids apply_order find put text_eq make_book put_level orders queue updated without
    ◌-ℤ◌
apply_execution_refines_example =
    (apply_execution_refines two_bids (fill_a 4) at_a (resting_of first) two_bids-IsValid
        ours_two_bids find-a deref-a refl).1
      buy 100

apply_execution_refused_example : (apply_execution two_bids (fill_a 11)).1 ≡ threw overfill
apply_execution_refused_example =
    ((apply_execution_refused two_bids (fill_a 11) two_bids-IsValid ours_two_bids).1 at_a
      (resting_of first) find-a deref-a refl).0

replace_keeps_priority_example :
    orders (apply_order two_bids (amend (codes "C") 4)).0 buy 100
    ≡ record (resting_of first) { qty = pos 4; order_id = codes "C" } ∷ resting_of second ∷ []
unfolding two_bids apply_order find put text_eq make_book put_level orders queue updated
replace_keeps_priority_example =
    (replace_keeps_priority two_bids (amend (codes "C") 4) at_a (resting_of first) two_bids-IsValid
        ours_two_bids refl find-a deref-a refl).1
      buy 100

replace_loses_priority_example :
    orders (apply_order two_bids (amend (codes "C") 20)).0 buy 100
    ≡ resting_of second ∷ resting_of (amend (codes "C") 20) ∷ []
unfolding two_bids apply_order find put text_eq make_book put_level orders queue without
replace_loses_priority_example =
    (replace_loses_priority two_bids (amend (codes "C") 20) at_a (resting_of first) two_bids-IsValid
        ours_two_bids refl find-a deref-a refl (inl refl)).1
      buy 100

best_price_lem_example : IsBest two_bids buy (best_price two_bids buy)
best_price_lem_example = best_price_lem two_bids buy two_bids-IsValid

replace_taken_id_example : ¬ (IsValid (apply_order two_bids (amend (codes "B") 4)).0)
replace_taken_id_example =
    (replace_taken_id two_bids (amend (codes "B") 4) at_a at_b (resting_of first)
      (resting_of second) two_bids-IsValid ours_two_bids refl find-a deref-a refl find-b deref-b
      (λ h. ground arith)).3

two_bids_depth : qty_at_price two_bids buy 100 ≡ pos 15
unfolding two_bids apply_order find put text_eq make_book put_level qty_at_price ◌+ℤ◌
two_bids_depth = refl

overfill_refused : (apply_execution two_bids (fill_a 11)).1 ≡ threw overfill
unfolding two_bids apply_execution apply_order find put text_eq make_book put_level get_node deref
overfill_refused = refl
