-- ===== src/Simulator/Accounts/Pairs.antt =====
-- The draws of linked pairs and of independent accounts, against the detectors' registry.
use trade_surveillance_engin.Prelude.{
  All, All-In, subst, ℕ, ◌<◌, ◌≡◌, ◌≢◌, refl, pos, ◌≤ℤ◌, text_eq_refl, List, [], ◌∷◌, length, some,
  In, arith, true,
}
use trade_surveillance_engin.Detectors.Accounts.{is_related, is_related_iff, links_to, contains}
use trade_surveillance_engin.Simulator.{Account}
use trade_surveillance_engin.Simulator.Draws.{id_text, Draws, IsDraws, Gen}
use trade_surveillance_engin.Simulator.Draws.Makes.{
  get_elem?-below, Makes-index, Makes-element, Makes-imp, Makes, Makes-bind, Makes-returning,
}
use trade_surveillance_engin.Simulator.Accounts.Known.{acc, IsKnown, get_elem?-In}
use trade_surveillance_engin.Simulator.Accounts.Construction.{
  IsLinked, IsThere, IsBuilt, IsCounts, make_registry-Steps, at_least,
}
use trade_surveillance_engin.Simulator.Accounts.{
  AccountRegistryConfig, AccountRegistry, make_registry, random_linked_pair, random_independent,
}
use trade_surveillance_engin.Harness.Replay.{to_entity, add_all}

-- Two accounts of a session that the detectors relate.
pub record IsPair (accounts : List Account) (pair : Account × Account) : Type 0 where
  pub of_session : In pair.0 accounts × In pair.1 accounts
  pub distinct : pair.0.account_id ≢ pair.1.account_id
  pub named : (pair.0.account_id ≢ []) × (pair.1.account_id ≢ [])
  pub related : is_related (add_all [] accounts) pair.0.account_id pair.1.account_id ≡ true

acc_ne_nil : (n : ℕ) → acc n ≢ []
unfolding id_text
acc_ne_nil n e = cc

IsLinked-IsPair :
    (c : ℕ) (accounts : List Account) (indices : ℕ × ℕ)
    → IsKnown c accounts
    → (l : IsLinked accounts indices) → IsPair accounts (l.first, l.second)
unfolding to_entity contains
IsLinked-IsPair c accounts indices h l =
    let i = get_elem?-In accounts indices.0 l.first l.at_first in
    let j = get_elem?-In accounts indices.1 l.second l.at_second in
    let ((k, below, is), at) = All-In _ accounts h.known i in
    let ((k', below', is'), at') = All-In _ accounts h.known j in
    record {
      of_session = (i, j);
      distinct = l.distinct;
      named = (rw is (acc_ne_nil k), rw is' (acc_ne_nil k'));
      related = (is_related_iff (add_all [] accounts) l.first.account_id l.second.account_id).1 (
          links_to (to_entity l.first) at
            (rw l.declares (rw (text_eq_refl l.second.account_id) refl)));
    }

picks :
    {F : Type 0} (q : Draws F)
    → IsDraws q
    → (c : ℕ) (accounts : List Account) (independent : List ℕ) (pairs : List (ℕ × ℕ))
    → let r : AccountRegistry = record {
      accounts = accounts;
      independent_indices = independent;
      linked_pair_indices = pairs;
    } in
      IsBuilt c r → 0 < length pairs → Makes (IsPair accounts) (random_linked_pair q r)
unfolding random_linked_pair
picks q lib c accounts independent [] built h = absurd (omega arith)
picks q lib c accounts independent (p ∷ ps) built h =
    Makes-bind _ _ _ (Makes-index q lib (length (p ∷ ps)) h) λ n below.
      let (at, read_at, held) = get_elem?-below (p ∷ ps) n below in
      Makes-bind _ _ _ (Makes-element _ at read_at) λ indices same.
        let l : IsLinked accounts indices =
          subst (IsLinked accounts) same
            (All-In (IsLinked accounts) (p ∷ ps) built.all_linked held) in
        Makes-bind _ _ _ (Makes-element _ l.first l.at_first) λ a is.
          Makes-bind _ _ _ (Makes-element _ l.second l.at_second) λ b is'. Makes-returning _ (
            subst (λ x. IsPair accounts (x, b)) is
              (subst (λ y. IsPair accounts (l.first, y)) is'
                (IsLinked-IsPair c accounts indices built.all_known l)))

pub random_linked_pair-Makes :
    {F : Type 0} (q : Draws F)
    → IsDraws q
    → (config : AccountRegistryConfig) → IsCounts config
    → pos 1 ≤ℤ config.num_linked_pairs
    → Makes (IsPair (make_registry config).accounts) (random_linked_pair q (make_registry config))
random_linked_pair-Makes q lib config counts some_pair =
    let (c, built, many, _) = make_registry-Steps config counts in
    let r = make_registry config in
    picks q lib c r.accounts r.independent_indices r.linked_pair_indices built
      (omega (arith, many, at_least config.num_linked_pairs some_pair))

picks_single :
    {F : Type 0} (q : Draws F)
    → IsDraws q
    → (accounts : List Account) (independent : List ℕ) (pairs : List (ℕ × ℕ))
    → All (IsThere accounts) independent
    → 0 < length independent
    → Makes
        (λ a. In a accounts)
        (random_independent q (record {
          accounts = accounts;
          independent_indices = independent;
          linked_pair_indices = pairs;
        }))
unfolding random_independent
picks_single q lib accounts [] pairs all h = absurd (omega arith)
picks_single q lib accounts (i ∷ more) pairs all h =
    Makes-bind _ _ _ (Makes-index q lib (length (i ∷ more)) h) λ n below.
      let (at, read_at, held) = get_elem?-below (i ∷ more) n below in
      Makes-bind _ _ _ (Makes-element _ at read_at) λ index same.
        let (a, e) : IsThere accounts index =
          subst (IsThere accounts) same (All-In (IsThere accounts) (i ∷ more) all held) in
        Makes-imp (λ b. a ≡ b)
          (λ b f. subst (λ x. In x accounts) f (get_elem?-In accounts index a e))
          (Makes-element _ a e)

pub random_independent-Makes :
    {F : Type 0} (q : Draws F)
    → IsDraws q
    → (config : AccountRegistryConfig) → IsCounts config
    → pos 1 ≤ℤ config.num_independent_accounts
    → Makes
        (λ a. In a (make_registry config).accounts)
        (random_independent q (make_registry config))
random_independent-Makes q lib config counts some_account =
    let (c, built, _, many) = make_registry-Steps config counts in
    let r = make_registry config in
    picks_single q lib r.accounts r.independent_indices r.linked_pair_indices built.all_single
      (omega (arith, many, at_least config.num_independent_accounts some_account))

-- A session with linked pairs always has one to draw: two different accounts of the session with an id,
-- which the registry of the detectors, filled with the accounts of the session, relates.
pub random_linked_pair-IsPair :
    {F : Type 0} (q : Draws F)
    → IsDraws q
    → (config : AccountRegistryConfig) → IsCounts config
    → pos 1 ≤ℤ config.num_linked_pairs
    → (g : Gen q.Rng)
    → (pair : Account × Account) × (g' : Gen q.Rng) × (random_linked_pair q (make_registry config) g
        ≡ some (pair, g'))
      × IsPair (make_registry config).accounts pair
random_linked_pair-IsPair q lib config counts some_pair g =
    (random_linked_pair-Makes q lib config counts some_pair).made g
