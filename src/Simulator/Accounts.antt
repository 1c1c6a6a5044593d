-- ===== src/Simulator/Accounts.antt =====
-- cpp/simulator/account_registry.{hpp,cpp}: the accounts of a session, of which some are linked in pairs. An
-- index of the vectors is a natural number, and out of range the element is `none`.
pub mod Known
pub mod Construction
pub mod Pairs
use trade_surveillance_engin.Prelude.{
  ℕ, zero, suc, ◌+◌, ℤ, pos_part, Text, codes, List, [], ◌∷◌, ◌++◌, length, get_elem?, Option, none,
  some,
}
use trade_surveillance_engin.Simulator.{EntityType, client, proprietary, Account}
use trade_surveillance_engin.Simulator.Draws.{
  IdGenerator, next, Draws, M, ◌>>=◌, returning, failing, drawing, element,
}

pub record AccountRegistryConfig : Type 0 where
  pub num_independent_accounts : ℤ
  pub num_linked_pairs : ℤ

pub record AccountRegistry : Type 0 where
  pub accounts : List Account
  pub independent_indices : List ℕ
  pub linked_pair_indices : List (ℕ × ℕ)

-- What the constructor's loops pass on.
pub record Building : Type 0 where
  pub registry : AccountRegistry
  pub account_id_gen : IdGenerator
  pub owner_id_gen : IdGenerator

abbrev pub account_of : Text → Text → EntityType → List Text → Account
account_of id owner entity_type linked = record {
  account_id = id;
  beneficial_owner_id = owner;
  entity_type = entity_type;
  linked_account_ids = linked;
}

unfoldable pub add_independent : Building → Building
unfolding next
add_independent b =
    let (id, account_id_gen) = next b.account_id_gen in
    let (owner, owner_id_gen) = next b.owner_id_gen in
    let account = account_of id owner client [] in
    record {
      registry = record b.registry {
        independent_indices = b.registry.independent_indices ++ length b.registry.accounts ∷ [];
        accounts = b.registry.accounts ++ account ∷ [];
      };
      account_id_gen = account_id_gen;
      owner_id_gen = owner_id_gen;
    }

unfoldable pub add_linked_pair : Building → Building
unfolding next
add_linked_pair b =
    let (owner, owner_id_gen) = next b.owner_id_gen in
    let (client_id, account_id_gen) = next b.account_id_gen in
    let (related_id, account_id_gen') = next account_id_gen in
    let first = account_of client_id owner client (related_id ∷ []) in
    let second = account_of related_id owner proprietary (client_id ∷ []) in
    let client_index = length b.registry.accounts in
    let related_index = client_index + 1 in
    record {
      registry = record b.registry {
        accounts = (b.registry.accounts ++ first ∷ []) ++ second ∷ [];
        linked_pair_indices = b.registry.linked_pair_indices ++ (client_index, related_index) ∷ [];
      };
      account_id_gen = account_id_gen';
      owner_id_gen = owner_id_gen;
    }

-- A counted loop.
unfoldable pub times_over : {A : Type 0} → ℕ → (A → A) → A → A
times_over zero step a = a
times_over (suc n) step a = times_over n step (step a)

abbrev pub building : Building
building = record {
  registry = record { accounts = []; independent_indices = []; linked_pair_indices = [] };
  account_id_gen = record { prefix = codes "ACC"; counter = 1 };
  owner_id_gen = record { prefix = codes "OWN"; counter = 1 };
}

unfoldable pub make_registry : AccountRegistryConfig → AccountRegistry
unfolding times_over add_independent add_linked_pair
make_registry config =
    let independent =
      times_over (pos_part config.num_independent_accounts) add_independent building in
    (times_over (pos_part config.num_linked_pairs) add_linked_pair independent).registry

module _ {F : Type 0} (q : Draws F) where
  unfoldable pub random_independent : AccountRegistry → M q.Rng Account
  unfolding element
  random_independent registry = elim registry.independent_indices [
    | [] ↦ failing
    | i ∷ indices ↦ do
      n ← drawing (q.index_below (length registry.independent_indices))
      index ← element (get_elem? registry.independent_indices n)
      element (get_elem? registry.accounts index)
  ]

  unfoldable pub random_linked_pair : AccountRegistry → M q.Rng (Account × Account)
  unfolding element
  random_linked_pair registry = elim registry.linked_pair_indices [
    | [] ↦ failing
    | pair ∷ pairs ↦ do
      n ← drawing (q.index_below (length registry.linked_pair_indices))
      indices ← element (get_elem? registry.linked_pair_indices n)
      first ← element (get_elem? registry.accounts indices.0)
      second ← element (get_elem? registry.accounts indices.1)
      returning (first, second)
  ]
