-- ===== src/Simulator/Baseline/Backed.antt =====
-- The loop over the arrivals in cpp/simulator/baseline_generator.cpp, and the orders of its executions.
use trade_surveillance_engin.Prelude.{
  ℕ, zero, suc, ◌<◌, ◌≡◌, refl, ℤ, Bool-cases, inl, inr, List, [], ◌∷◌, length, All, All-imp,
  Double, here,
}
use trade_surveillance_engin.Simulator.{SimulatedOrder, SimulatedExecution, Instrument, Account}
use trade_surveillance_engin.Simulator.Draws.{Draws, IsDraws}
use trade_surveillance_engin.Simulator.Draws.Makes.{
  Makes, Any, Makes-bind, Makes-returning, Makes-if, Makes-pick, Makes-integer, Makes-double,
  Makes-percentiles, Makes-order_id, Makes-trade_id,
}
use trade_surveillance_engin.Simulator.Scenario.{BackedBy}
use trade_surveillance_engin.Simulator.Baseline.{
  accounts_related, redraw, fill_order, outcome_of, Mids, arrive, BaselineOutput,
}

pub record IsBaseline {F : Type 0} (out : BaselineOutput F) : Type 0 where
  pub backed : BackedBy out.orders out.executions

record Follows {F : Type 0} (order : SimulatedOrder F) (out : BaselineOutput F) : Type 0 where
  follows : All (λ (x : SimulatedExecution F). order.order_id ≡ x.order_id) out.executions

Follows-one :
    {F : Type 0} (order : SimulatedOrder F) (x : SimulatedExecution F)
    → order.order_id ≡ x.order_id
    → Follows order (record { orders = []; executions = x ∷ [] })
Follows-one order x e = record { follows = (e, tt) }

Follows-none :
    {F : Type 0} (order : SimulatedOrder F) (orders : List (SimulatedOrder F))
    → Follows order (record { orders = orders; executions = [] })
Follows-none order orders = record { follows = tt }

IsBaseline-Follows :
    {F : Type 0} (order : SimulatedOrder F) (out : BaselineOutput F)
    → Follows order out
    → IsBaseline (record { orders = order ∷ out.orders; executions = out.executions })
IsBaseline-Follows order out h = record {
  backed = All-imp out.executions (λ x e. (order, here, e)) h.follows;
}

module _ {F : Type 0} ⦃d : Double F⦄ (q : Draws F) (lib : IsDraws q) (accounts : List Account)
    (some_account : 0 < length accounts) where
  redraw-Makes :
      (attempts : ℕ) (account counterparty : Account)
      → Makes Any (redraw q attempts accounts account counterparty)
  unfolding redraw
  redraw-Makes zero account counterparty = Makes-returning _ tt
  redraw-Makes (suc attempts) account counterparty =
      elim (Bool-cases (accounts_related counterparty account)) [
        | inl hit ↦
            rw (hit, redraw)
              (Makes-bind _ _ _ (Makes-pick q lib accounts some_account)
                λ other _. redraw-Makes attempts account other)
        | inr miss ↦ rw (miss, redraw) (Makes-returning _ tt)
      ]

  fill_order-Makes :
      (account : Account) (order : SimulatedOrder F) (qty : ℤ)
      → Makes (λ x. order.order_id ≡ x.order_id) (fill_order q accounts account order qty)
  unfolding fill_order
  fill_order-Makes account order qty = Makes-bind Any _ _ (Makes-integer q _ _) λ delay _.
      Makes-bind _ _ _ (Makes-pick q lib accounts some_account) λ first _.
        Makes-bind Any _ _ (redraw-Makes 5 account first)
          λ counterparty _. Makes-bind Any _ _ Makes-trade_id λ id _. Makes-returning _ refl

  outcome_of-Makes :
      (account : Account) (order : SimulatedOrder F) (outcome : F)
      → Makes (Follows order) (outcome_of q accounts account order outcome)
  unfolding outcome_of
  outcome_of-Makes account order outcome =
      Makes-if (d.lt outcome (q.decimal 60 2))
        (Makes-bind _ _ _ (fill_order-Makes account order _)
          λ x e. Makes-returning _ (Follows-one order x e))
        (Makes-if (d.lt outcome (q.decimal 75 2))
          (Makes-bind _ _ _ (fill_order-Makes account order _)
            λ x e. Makes-returning _ (Follows-one order x e))
          (Makes-if (d.lt outcome (q.decimal 90 2))
            (Makes-bind Any _ _ (Makes-integer q _ _)
              λ dwell _. Makes-returning _ (Follows-none order _))
            (Makes-returning _ (Follows-none order _))))

  module _ (instruments : List (Instrument F)) (some_instrument : 0 < length instruments) where
    pub arrive-Makes :
        (t : ℤ) (mid_price : Mids q)
        → Makes (λ one. IsBaseline one.1) (arrive q instruments accounts t mid_price)
    unfolding arrive
    arrive-Makes t mid_price =
        Makes-bind _ _ _ (Makes-pick q lib instruments some_instrument) λ instrument _.
          Makes-bind _ _ _ (Makes-pick q lib accounts some_account) λ account _.
            Makes-bind Any _ _ (Makes-percentiles q _ _) λ move _.
              Makes-bind Any _ _ (Makes-double q _ _) λ sign _.
                Makes-bind Any _ _ (Makes-double q _ _) λ u _.
                  Makes-bind Any _ _ (Makes-percentiles q _ _) λ offset _.
                    Makes-bind Any _ _ (Makes-percentiles q _ _) λ qty _.
                      Makes-bind Any _ _ (Makes-double q _ _) λ v _.
                        Makes-bind Any _ _ Makes-order_id λ id _.
                          Makes-bind Any _ _ (Makes-double q _ _) λ outcome _.
                            Makes-bind _ _ _ (outcome_of-Makes account _ outcome)
                              λ out h. Makes-returning _ (IsBaseline-Follows _ out h)
