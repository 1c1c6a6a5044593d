-- ===== src/OrderBook/Levels.antt =====
-- The price levels as a std::map keeps them: keys ascending, and by the book's care none empty.
use trade_surveillance_engin.Prelude.{
  ℕ, ◌≡◌, refl, ◌≢◌, none, ◌∷◌, [], ◌++◌, true, false, arith, Double, same_price, erase, is_empty,
}
use trade_surveillance_engin.OrderBook.{
  Node, RestingOrder, OrderQueue, PriceLevels, put_level, drop_node, get_node, set_node, erase_node,
}

module _ {F : Type 0} ⦃d : Double F⦄ where
  -- Every key is above a price.
  abbrev pub Above : F → PriceLevels F → Type 0
  Above p [] = Unit {0}
  Above p ((p', q) ∷ m) = (d.lt p p' ≡ true) × Above p m

  abbrev pub AreOrdered : PriceLevels F → Type 0
  AreOrdered [] = Unit {0}
  AreOrdered ((p, q) ∷ m) = (is_empty q ≡ false) × Above p m × AreOrdered m

  Above-trans : (p p' : F) (m : PriceLevels F) → d.lt p p' ≡ true → Above p' m → Above p m
  Above-trans p p' [] h a = tt
  Above-trans p p' ((i, q) ∷ m) h a = (d.lt_trans p p' i h a.0, Above-trans p p' m h a.1)

  put_level-Above :
      (p i : F) (q : OrderQueue) (m : PriceLevels F)
      → d.lt i p ≡ true
      → Above i m
      → Above i (put_level p q m)
  unfolding put_level
  put_level-Above p i q [] h a = (h, tt)
  put_level-Above p i q ((p', q') ∷ m) h a = ground (arith, put_level-Above p i q m)

  erase-Above : (p i : F) (m : PriceLevels F) → Above i m → Above i (erase same_price p m)
  unfolding erase
  erase-Above p i [] a = tt
  erase-Above p i ((p', q') ∷ m) a = ground (arith, erase-Above p i m a.1)

  pub put_level-AreOrdered :
      (p : F) (q : OrderQueue) (m : PriceLevels F)
      → is_empty q ≡ false
      → AreOrdered m
      → AreOrdered (put_level p q m)
  unfolding put_level
  put_level-AreOrdered p q [] h o = (h, tt, tt)
  put_level-AreOrdered p q ((p', q') ∷ m) h o =
      ground (arith, Above-trans p p' m, put_level-Above p p' q m, put_level-AreOrdered p q m h o.2)

  erase-AreOrdered : (p : F) (m : PriceLevels F) → AreOrdered m → AreOrdered (erase same_price p m)
  unfolding erase
  erase-AreOrdered p [] o = tt
  erase-AreOrdered p ((p', q') ∷ m) o =
      ground (arith, erase-Above p p' m o.1, erase-AreOrdered p m o.2)

  pub drop_node-AreOrdered :
      (p : F) (n : ℕ) (q : OrderQueue) (m : PriceLevels F)
      → AreOrdered m
      → AreOrdered (drop_node p n q m)
  unfolding drop_node
  drop_node-AreOrdered p n q m o =
      ground (arith, put_level-AreOrdered p (erase_node n q) m, erase-AreOrdered p m o)

pub is_empty-append : (q : OrderQueue) (x : Node) → is_empty (q ++ x ∷ []) ≡ false
is_empty-append [] x = refl
is_empty-append (y ∷ q) x = refl

pub is_empty-set_node :
    (n : ℕ) (r : RestingOrder) (q : OrderQueue)
    → get_node n q ≢ none
    → is_empty (set_node n r q) ≡ false
unfolding get_node set_node
is_empty-set_node n r [] h = absurd (h refl)
is_empty-set_node n r (y ∷ q) h = ground arith
