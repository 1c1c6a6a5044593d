-- ===== src/Simulator/Baseline/Relations.antt =====
-- The generator's own test for related accounts, against that of the detectors.
use trade_surveillance_engin.Prelude.{
  ◌≡◌, ap, text_eq, text_eq_iff, is_empty, find, some, [], arith, In, All-In,
}
use trade_surveillance_engin.Detectors.Accounts.{
  AccountRegistry, is_related, same_beneficial_owner, same_owner, are_linked, names,
}
use trade_surveillance_engin.Simulator.{Account}
use trade_surveillance_engin.Simulator.Accounts.{AccountRegistryConfig, make_registry}
use trade_surveillance_engin.Simulator.Accounts.Construction.{IsCounts, make_registry-Steps}
use trade_surveillance_engin.Simulator.Baseline.{accounts_related}
use trade_surveillance_engin.Harness.Replay.{to_entity, add_all}

same_tests :
    (registry : AccountRegistry) (a b : Account)
    → find text_eq a.account_id registry ≡ some (to_entity a)
    → find text_eq b.account_id registry ≡ some (to_entity b)
    → accounts_related a b ≡ is_related registry a.account_id b.account_id
unfolding accounts_related is_related same_beneficial_owner same_owner are_linked names to_entity
same_tests registry a b at_a at_b =
    rw (at_a, at_b, is_related, same_beneficial_owner, are_linked)
      (ground (
        arith,
        λ (e : a.beneficial_owner_id ≡ b.beneficial_owner_id). ap is_empty e,
        text_eq_iff a.beneficial_owner_id b.beneficial_owner_id,
      ))

-- On the accounts of a session the generator's test for related accounts and that of the detectors, whose
-- registry is filled with these accounts, give one answer.
pub accounts_related-is_related :
    (config : AccountRegistryConfig)
    → IsCounts config
    → (a b : Account) → In a (make_registry config).accounts
    → In b (make_registry config).accounts
    → accounts_related a b
      ≡ is_related (add_all [] (make_registry config).accounts) a.account_id b.account_id
accounts_related-is_related config counts a b i j =
    let accounts = (make_registry config).accounts in
    let (c, built, _, _) = make_registry-Steps config counts in
    let (_, at_a) = All-In _ accounts built.all_known.known i in
    let (_, at_b) = All-In _ accounts built.all_known.known j in
    same_tests (add_all [] accounts) a b at_a at_b
