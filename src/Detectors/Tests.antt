-- ===== src/Detectors/Tests.antt =====
-- The detectors' theorems at concrete runs.
use trade_surveillance_engin.Prelude.{
  ℕ, ◌≡◌, refl, ◌≢◌, ◌↔◌, ◌⊎◌, true, In, here, List, codes, text_eq, find, put, pos, ◌+ℤ◌, [], ◌∷◌,
  arith,
}
use trade_surveillance_engin.Ticks.{ticks, new_order, fill_a}
use trade_surveillance_engin.Fix.{Order, Execution, order, execution}
use trade_surveillance_engin.OrderBook.{make_book}
use trade_surveillance_engin.Detectors.Accounts.{
  Entity, AccountRegistry, Relation, add, contains, names, same_owner, same_beneficial_owner,
  are_linked, is_related, is_related_iff,
}
use trade_surveillance_engin.Detectors.WashTrade.{alert_for, evaluate, fires_iff_related}
use trade_surveillance_engin.Detectors.FrontRunning.{
  FrontRunningConfig, RecentOrder, RecentOrders, recent_of, key_for, handle_new,
  alert_for as front_alert,
}
use trade_surveillance_engin.Detectors.FrontRunning.Reactions.{
  alerts_iff_Reacts, window_after_new, recorded, Reacts,
}
use trade_surveillance_engin.Detectors.Statistical.{
  StatisticalBaselineConfig, update, sample_variance, key_of, evaluate as baseline_evaluate,
}
use trade_surveillance_engin.Detectors.Statistical.History.{
  Call, observations, run, Unusual, alert_against, alerts_iff_Unusual,
}

-- Account L declares a link to account acct, which is not registered.
abbrev leader : Entity
leader = record {
  account_id = codes "L";
  beneficial_owner_id = [];
  entity_type = [];
  linked_account_ids = codes "acct" ∷ [];
}

abbrev registry : AccountRegistry
unfolding add
registry = add [] leader

is_related_iff_example :
    (is_related registry (codes "acct") (codes "L") ≡ true)
    ↔ Relation registry (codes "acct") (codes "L")
is_related_iff_example = is_related_iff registry (codes "acct") (codes "L")

related_leader : is_related registry (codes "acct") (codes "L") ≡ true
unfolding add put find text_eq contains names same_owner same_beneficial_owner are_linked is_related
related_leader = refl

abbrev washed : Execution ℕ
washed = record (fill_a 4) { counterparty_account_id = codes "L" }

fires_iff_related_example :
    ((evaluate (make_book (codes "AAPL")) (execution washed) registry
        ≡ alert_for (make_book (codes "AAPL")) washed ∷ [])
      × (codes "L" ≢ [])
      × Relation registry (codes "acct") (codes "L"))
    ⊎ ((evaluate (make_book (codes "AAPL")) (execution washed) registry ≡ [])
        × (codes "L" ≢ [] → ¬ (Relation registry (codes "acct") (codes "L"))))
fires_iff_related_example = fires_iff_related (make_book (codes "AAPL")) washed registry

washed_fires :
    evaluate (make_book (codes "AAPL")) (execution washed) registry
    ≡ alert_for (make_book (codes "AAPL")) washed ∷ []
unfolding evaluate
washed_fires = rw related_leader

abbrev config : FrontRunningConfig ℕ
config = record {
  lookback_window_ns = pos 5;
  min_large_qty_threshold = pos 100;
  max_leader_to_large_size_ratio = 1;
}

abbrev large : RecentOrder
large = record { account_id = codes "L"; order_id = codes "B"; qty = pos 200; timestamp_ns = pos 4 }

abbrev small : Order ℕ
small = new_order (codes "A") 10

abbrev one_large : RecentOrders
one_large = (key_for small.instrument_id small.side, large ∷ []) ∷ []

large-recorded : In large (recorded config registry small one_large)
unfolding find text_eq
large-recorded = here

small-Reacts : Reacts config registry small large
unfolding ◌+ℤ◌
small-Reacts = record {
  other = λ h. cc;
  related = related_leader;
  large = omega arith;
  small = refl;
  after = omega arith;
  within = omega arith;
}

alerts_iff_Reacts_example :
    In
      (front_alert config small large (pos 1))
      (handle_new config one_large small registry (pos 1)).1
alerts_iff_Reacts_example =
    (alerts_iff_Reacts config registry small one_large (pos 1)).1 large large-recorded small-Reacts

window_after_new_example :
    In
      (recent_of small)
      (recorded config registry small (handle_new config one_large small registry (pos 1)).0)
window_after_new_example = (window_after_new config registry small one_large (pos 1)).0

abbrev baseline : StatisticalBaselineConfig ℕ
baseline = record { z_score_threshold = 2; min_sample_count = pos 2 }

-- Three orders before the one of quantity 10.
abbrev before : List (Call ℕ)
before =
    (make_book (codes "AAPL"), order (new_order (codes "P") 1), [])
    ∷ (make_book (codes "AAPL"), order (new_order (codes "Q") 2), [])
    ∷ (make_book (codes "AAPL"), order (new_order (codes "R") 3), [])
    ∷ []

prior_quantities : observations (key_of small) before ≡ pos 1 ∷ pos 2 ∷ pos 3 ∷ []
unfolding text_eq
prior_quantities = refl

small-Unusual : Unusual baseline (observations (key_of small) before) small
unfolding text_eq update sample_variance
small-Unusual = record { enough = omega arith; spread = refl; far = refl }

alerts_iff_Unusual_example :
    In
      (alert_against baseline (observations (key_of small) before) small (pos 0))
      (baseline_evaluate baseline
        (run baseline [] before)
        (make_book (codes "AAPL"))
        (order small)
        registry).1
unfolding make_book
alerts_iff_Unusual_example =
    ((alerts_iff_Unusual baseline before (make_book (codes "AAPL")) small registry refl refl).0 _).1
      (small-Unusual, refl)
