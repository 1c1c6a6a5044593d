-- ===== src/Simulator/Session/Backed.antt =====
-- The scenarios of a session and the orders that their executions are on.
use trade_surveillance_engin.Prelude.{ℕ, zero, suc, ◌<◌, ℤ, pos, ◌+ℤ◌, ◌≤ℤ◌, Text, length, Double}
use trade_surveillance_engin.Simulator.Draws.{Draws, IsDraws, M, IdGenerator, next}
use trade_surveillance_engin.Simulator.Draws.Makes.{
  Makes, Any, Makes-bind, Makes-returning, Makes-imp, Makes-pick, Makes-integer,
}
use trade_surveillance_engin.Simulator.Scenario.{ScenarioOutput, IsBacked, BackedBy-append}
use trade_surveillance_engin.Simulator.Accounts.Construction.{IsCounts}
use trade_surveillance_engin.Simulator.Accounts.Pairs.{
  random_linked_pair-Makes, random_independent-Makes,
}
use trade_surveillance_engin.Simulator.WashTrade.Caught as WashTrade
use trade_surveillance_engin.Simulator.FrontRunning.Generated as FrontRunning
use trade_surveillance_engin.Simulator.Spoofing.Cancelled as Spoofing
use trade_surveillance_engin.Simulator.MarkingTheClose.Backed.{
  IsCast, generate_marking_the_close_scenario-Makes,
}
use trade_surveillance_engin.Simulator.Baseline.Ends.{IsForward}
use trade_surveillance_engin.Simulator.Session.{
  SimulatorConfig, append, inject, one_wash_trade, one_spoofing, one_marking_the_close,
  one_front_running, inject_all, registry_of, universe_of,
}

IsBacked-append :
    {F : Type 0} (a b : ScenarioOutput F) → IsBacked a → IsBacked b → IsBacked (append a b)
IsBacked-append a b h k = record {
  backed = BackedBy-append a.orders b.orders a.executions b.executions h.backed k.backed;
}

-- What the session asks of its parameters: the laws of the draws, a number of accounts for marking the close
-- that is cast in range, no gap between arrivals below zero, counts that an int holds, an instrument, an
-- independent account, a linked pair, and a severity of spoofing that leaves a layer.
pub record IsSession {F : Type 0} ⦃d : Double F⦄ (q : Draws F) (config : SimulatorConfig F)
    : Type 0 where
  pub draws : IsDraws q
  pub casts : IsCast q config.marking_the_close.severity
  pub ahead : IsForward q config.baseline_orders_per_second
  pub counts : IsCounts (record {
    num_independent_accounts = config.num_independent_accounts;
    num_linked_pairs = config.num_linked_account_pairs;
  })
  pub some_instrument : 0 < length (universe_of q config)
  pub some_account : pos 1 ≤ℤ config.num_independent_accounts
  pub some_pair : pos 1 ≤ℤ config.num_linked_account_pairs
  pub some_layer :
      pos 1 ≤ℤ pos 3 +ℤ q.llround (d.mul config.spoofing_layering.severity (d.of_int (pos 3)))

module _ {F : Type 0} ⦃d : Double F⦄ (q : Draws F) where
  inject-Makes :
      (n : ℕ) (ids : IdGenerator) (scenario : Text → M q.Rng (ScenarioOutput F))
      → ((id : Text) → Makes IsBacked (scenario id))
      → Makes IsBacked (inject q n ids scenario)
  unfolding inject
  inject-Makes zero ids scenario one = Makes-returning _ (record { backed = tt })
  inject-Makes (suc n) ids scenario one = Makes-bind _ _ _ (one (next ids).0) λ out h.
      Makes-bind _ _ _ (inject-Makes n (next ids).1 scenario one)
        λ rest k. Makes-returning _ (IsBacked-append out rest h k)

  module _ (config : SimulatorConfig F) (ok : IsSession q config) (session_end_ns : ℤ) where
    one_wash_trade-Makes :
        (id : Text)
        → Makes IsBacked (
            one_wash_trade q config (universe_of q config) (registry_of q config) session_end_ns id)
    unfolding one_wash_trade
    one_wash_trade-Makes id =
        Makes-bind _ _ _ (Makes-pick q ok.draws (universe_of q config) ok.some_instrument) λ i _.
          Makes-bind _ _ _ (random_linked_pair-Makes q ok.draws _ ok.counts ok.some_pair) λ pair _.
            Makes-bind Any _ _ (Makes-integer q _ _) λ anchor _.
              Makes-imp _ (λ out w. w.both_backed)
                (WashTrade.generated q ok.draws id i pair.0 pair.1 _ anchor _ _)

    one_spoofing-Makes :
        (id : Text)
        → Makes IsBacked
            (one_spoofing q config (universe_of q config) (registry_of q config) session_end_ns id)
    unfolding one_spoofing
    one_spoofing-Makes id =
        Makes-bind _ _ _ (Makes-pick q ok.draws (universe_of q config) ok.some_instrument) λ i _.
          Makes-bind _ _ _ (random_independent-Makes q ok.draws _ ok.counts ok.some_account) λ a _.
            Makes-bind Any _ _ (Makes-integer q _ _) λ anchor _.
              Makes-imp _ (λ out w. record { backed = w.backed })
                (Spoofing.generated q id i a _ anchor _ _ ok.some_layer)

    one_marking_the_close-Makes :
        (id : Text)
        → Makes IsBacked (
            one_marking_the_close q config
              (universe_of q config)
              (registry_of q config)
              session_end_ns
              id)
    unfolding one_marking_the_close
    one_marking_the_close-Makes id =
        Makes-bind _ _ _ (Makes-pick q ok.draws (universe_of q config) ok.some_instrument) λ i _.
          Makes-bind _ _ _ (random_linked_pair-Makes q ok.draws _ ok.counts ok.some_pair) λ pair _.
            Makes-imp _ (λ out w. record { backed = w.backed })
              (generate_marking_the_close_scenario-Makes q ok.draws _ ok.casts id i _ _ _ _ _)

    one_front_running-Makes :
        (id : Text)
        → Makes IsBacked (
            one_front_running q config
              (universe_of q config)
              (registry_of q config)
              session_end_ns
              id)
    unfolding one_front_running
    one_front_running-Makes id =
        Makes-bind _ _ _ (Makes-pick q ok.draws (universe_of q config) ok.some_instrument) λ i _.
          Makes-bind _ _ _ (random_linked_pair-Makes q ok.draws _ ok.counts ok.some_pair) λ pair _.
            Makes-bind Any _ _ (Makes-integer q _ _) λ anchor _.
              Makes-imp _ (λ out w. w.all_backed)
                (FrontRunning.generated q ok.draws id i pair.0 pair.1 _ anchor _ _)

    pub inject_all-Makes :
        Makes IsBacked
          (inject_all q config (universe_of q config) (registry_of q config) session_end_ns)
    unfolding inject_all
    inject_all-Makes = Makes-bind _ _ _ (inject-Makes _ _ _ one_wash_trade-Makes) λ a ha.
        Makes-bind _ _ _ (inject-Makes _ _ _ one_spoofing-Makes) λ b hb.
          Makes-bind _ _ _ (inject-Makes _ _ _ one_marking_the_close-Makes) λ c hc.
            Makes-bind _ _ _ (inject-Makes _ _ _ one_front_running-Makes) λ e he.
              Makes-returning _
                (IsBacked-append a _ ha (IsBacked-append b _ hb (IsBacked-append c e hc he)))
