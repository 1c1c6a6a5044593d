-- ===== src/Simulator/Spoofing/Cancelled.antt =====
-- The layers of cpp/simulator/abuse/spoofing_layering.cpp and their cancels.
use trade_surveillance_engin.Prelude.{
  ℕ, zero, suc, ◌+◌, ◌<◌, ◌≡◌, ◌≢◌, refl, ◌∙◌, sym, ap, ℤ, pos, ◌+ℤ◌, ◌-ℤ◌, +ℤ_parts, ◌≤ℤ◌, ◌<ℤ◌,
  leb_ℤ, max_ℤ, Text, List, [], ◌∷◌, ◌++◌, some, Double, arith, All, All-imp, here, there,
  In-append_right, Bool, true, false, if◌then◌else◌,
}
use trade_surveillance_engin.Fix.{buy, sell, cancelled}
use trade_surveillance_engin.Simulator.{SimulatedOrder, SimulatedExecution, Instrument, Account}
use trade_surveillance_engin.Simulator.Draws.{Draws}
use trade_surveillance_engin.Simulator.Draws.Makes.{
  Makes, Any, Makes-bind, Makes-returning, Makes-integer, Makes-double, Makes-order_id,
  Makes-trade_id, Makes-element,
}
use trade_surveillance_engin.Simulator.Scenario.{ScenarioOutput, BackedBy}
use trade_surveillance_engin.Simulator.Accounts.Construction.{at_least}
use trade_surveillance_engin.Simulator.Spoofing.{
  Layering, last_of, place_layers, cancel_layers, spoof, generate_spoofing_layering_scenario,
}

-- `c` is the cancel of `l`: the same order, at least a millisecond later.
record Cancels {F : Type 0} (l c : SimulatedOrder F) : Type 0 where
  same_id : c.order_id ≡ l.order_id
  same_account : c.account_id ≡ l.account_id
  is_cancel : c.status ≡ cancelled
  later : l.timestamp_ns +ℤ pos 1_000_000 ≤ℤ c.timestamp_ns

-- One cancel for each layer, in order.
data Withdrawn {F : Type 0} : List (SimulatedOrder F) → List (SimulatedOrder F) → Type 0 where
  none_left : Withdrawn [] []
  one_more :
      {l c : SimulatedOrder F} {ls cs : List (SimulatedOrder F)}
      → Cancels l c
      → Withdrawn ls cs
      → Withdrawn (l ∷ ls) (c ∷ cs)

-- Layers on one side, then an order and its trade on the other side, then the cancels.
pub record IsSpoof {F : Type 0} (account : Text) (out : ScenarioOutput F) : Type 0 where
  layers : List (SimulatedOrder F)
  last : SimulatedOrder F
  market : List (SimulatedOrder F)
  genuine : SimulatedOrder F
  trade : SimulatedExecution F
  cancels : List (SimulatedOrder F)
  all_orders : out.orders ≡ layers ++ (market ++ (genuine ∷ cancels))
  all_executions : out.executions ≡ trade ∷ []
  ends_with : last_of layers ≡ some last
  one_account : All (λ (l : SimulatedOrder F). l.account_id ≡ account) layers
  against : All (λ (l : SimulatedOrder F). l.side ≢ genuine.side) layers
  own : genuine.account_id ≡ account
  after : last.timestamp_ns <ℤ genuine.timestamp_ns
  fills : trade.order_id ≡ genuine.order_id
  all_cancelled : Withdrawn layers cancels
  pub backed : BackedBy out.orders out.executions

last_of-cons : {A : Type 0} (x : A) (xs : List A) → (y : A) × (last_of (x ∷ xs) ≡ some y)
last_of-cons x [] = (x, refl)
last_of-cons x (y ∷ ys) = last_of-cons y ys

later_of_two : (a b : ℤ) → a ≤ℤ max_ℤ a b
later_of_two a b = ground arith

pushed_back : (t e : ℤ) → t <ℤ (if leb_ℤ e t then t +ℤ pos 10_000_000 else e)
pushed_back t e = ground (arith, +ℤ_parts t (pos 10_000_000))

-- What holds of the layers as they are placed.
record IsLayers {F : Type 0} (c : Layering F) (layers : List (SimulatedOrder F)) : Type 0 where
  of_account : All (λ (l : SimulatedOrder F). l.account_id ≡ c.account.account_id) layers
  on_side : All (λ (l : SimulatedOrder F). l.side ≡ c.side_spoof) layers

module _ {F : Type 0} ⦃d : Double F⦄ (q : Draws F) where
  place_layers-Makes :
      (rounds : ℕ) (c : Layering F) (i : ℕ) → Makes (IsLayers c) (place_layers q rounds c i)
  unfolding place_layers
  place_layers-Makes zero c i = Makes-returning _ (record { of_account = tt; on_side = tt })
  place_layers-Makes (suc rounds) c i = Makes-bind Any _ _ Makes-order_id λ id _.
      Makes-bind _ _ _ (place_layers-Makes rounds c (i + 1)) λ rest h.
        Makes-returning _
          (record { of_account = (refl, h.of_account); on_side = (refl, h.on_side) })

  -- at least one layer
  placed_last :
      (rounds : ℕ) (c : Layering F)
      → 0 < rounds
      → Makes
          (λ ls. IsLayers c ls × ((y : SimulatedOrder F) × (last_of ls ≡ some y)))
          (place_layers q rounds c 0)
  unfolding place_layers
  placed_last zero c h = absurd (omega arith)
  placed_last (suc rounds) c h = Makes-bind Any _ _ Makes-order_id λ id _.
      Makes-bind _ _ _ (place_layers-Makes rounds c (0 + 1)) λ rest h. Makes-returning _ (
        record { of_account = (refl, h.of_account); on_side = (refl, h.on_side) },
        last_of-cons _ rest,
      )

  cancel_layers-Makes :
      (c : Layering F) (t : ℤ) (layers : List (SimulatedOrder F))
      → Makes (Withdrawn layers) (cancel_layers q c t layers)
  unfolding cancel_layers
  cancel_layers-Makes c t [] = Makes-returning _ none_left
  cancel_layers-Makes c t (l ∷ layers) = Makes-bind Any _ _ (Makes-integer q _ _) λ jitter _.
      Makes-bind _ _ _ (cancel_layers-Makes c t layers) λ rest h. Makes-returning _ (
        one_more
          (record {
            same_id = refl;
            same_account = refl;
            is_cancel = refl;
            later = later_of_two (l.timestamp_ns +ℤ pos 1_000_000) (t +ℤ jitter);
          })
          h)

  spoof-Makes :
      (rounds : ℕ) (c : Layering F)
      → 0 < rounds
      → c.side_spoof ≢ c.side_genuine
      → Makes (IsSpoof c.account.account_id) (spoof q rounds c)
  unfolding spoof
  spoof-Makes rounds c some_layer sides =
      Makes-bind _ _ _ (placed_last rounds c some_layer) λ layers h.
        let (placed, (y, ends)) = h in
        Makes-bind Any _ _ Makes-order_id λ dominant_id _.
          Makes-bind _ _ _ (Makes-element _ y ends) λ back same.
            Makes-bind Any _ _ Makes-order_id λ fallback_id _.
              Makes-bind Any _ _ (Makes-integer q _ _) λ lead _.
                Makes-bind Any _ _ Makes-order_id λ genuine_id _.
                  Makes-bind Any _ _ (Makes-integer q _ _) λ n _.
                    Makes-bind Any _ _ Makes-trade_id λ trade_id _.
                      Makes-bind Any _ _ (Makes-integer q _ _) λ delay _.
                        Makes-bind _ _ _ (cancel_layers-Makes c _ layers) λ cancels k.
                          Makes-returning _ (record {
                            layers = layers;
                            last = back;
                            market = _ ∷ _ ∷ _ ∷ [];
                            genuine = _;
                            trade = _;
                            cancels = cancels;
                            all_orders = refl;
                            all_executions = refl;
                            ends_with = ends ∙ ap some same;
                            one_account = placed.of_account;
                            against = All-imp layers (λ l e f. sides (sym e ∙ f)) placed.on_side;
                            own = refl;
                            after =
                                pushed_back back.timestamp_ns
                                  ((c.anchor_time_ns +ℤ c.dwell_ns) -ℤ lead);
                            fills = refl;
                            all_cancelled = k;
                            backed = (
                              (_, In-append_right layers _ (there (there (there here))), refl),
                              tt,
                            );
                          })

  two_sides : (b : Bool) → (if b then sell else buy) ≢ (if b then buy else sell)
  two_sides true e = cc
  two_sides false e = cc

  pub generated :
      (scenario_id : Text) (i : Instrument F) (a : Account) (base_price : F) (anchor_time_ns : ℤ)
      (severity : F) (venue : Text)
      → pos 1 ≤ℤ pos 3 +ℤ q.llround (d.mul severity (d.of_int (pos 3)))
      → Makes (IsSpoof a.account_id) (
          generate_spoofing_layering_scenario q scenario_id i a base_price anchor_time_ns severity
            venue)
  unfolding generate_spoofing_layering_scenario
  generated scenario_id i a base_price anchor_time_ns severity venue some_layer =
      Makes-bind Any _ _ (Makes-integer q _ _) λ n _.
        Makes-bind Any _ _ (Makes-integer q _ _) λ jitter _.
          Makes-bind Any _ _ (Makes-double q _ _)
            λ u _. spoof-Makes _ _ (at_least _ some_layer) (two_sides (d.lt u (q.decimal 5 1)))
