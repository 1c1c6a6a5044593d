-- ===== src/Simulator/Accounts/Construction.antt =====
-- The loops of the constructor in cpp/simulator/account_registry.cpp, as steps between registries.
use trade_surveillance_engin.Prelude.{
  negsuc, ℕ, zero, suc, ◌+◌, ◌*◌, ◌≤◌, ◌<◌, ◌≡◌, ◌≢◌, refl, sym, ◌∙◌, ap, ℤ, pos, ◌≤ℤ◌, pos_part,
  codes, List, [], ◌∷◌, ◌++◌, length, get_elem?, some, All, All-append, All-imp, arith,
}
use trade_surveillance_engin.Simulator.{Account, client, proprietary}
use trade_surveillance_engin.Simulator.Draws.{IdGenerator, next}
use trade_surveillance_engin.Simulator.Accounts.Known.{
  most, acc, fresh, IsKnown, IsKnown-append, get_elem?-append, get_elem?-length,
}
use trade_surveillance_engin.Simulator.Accounts.{
  AccountRegistryConfig, AccountRegistry, Building, building, account_of, add_independent,
  add_linked_pair, times_over, make_registry,
}

-- The accounts at two indices; the first declares the second, which is another one.
pub record IsLinked (accounts : List Account) (indices : ℕ × ℕ) : Type 0 where
  pub first : Account
  pub second : Account
  pub at_first : get_elem? accounts indices.0 ≡ some first
  pub at_second : get_elem? accounts indices.1 ≡ some second
  pub declares : first.linked_account_ids ≡ second.account_id ∷ []
  pub distinct : first.account_id ≢ second.account_id

IsLinked-append :
    (xs ys : List Account) (indices : ℕ × ℕ) → IsLinked xs indices → IsLinked (xs ++ ys) indices
IsLinked-append xs ys indices h = record {
  first = h.first;
  second = h.second;
  at_first = get_elem?-append xs ys indices.0 h.first h.at_first;
  at_second = get_elem?-append xs ys indices.1 h.second h.at_second;
  declares = h.declares;
  distinct = h.distinct;
}

-- An account at an index.
abbrev pub IsThere : List Account → ℕ → Type 0
IsThere accounts i = (a : Account) × (get_elem? accounts i ≡ some a)

IsThere-append : (xs ys : List Account) (i : ℕ) → IsThere xs i → IsThere (xs ++ ys) i
IsThere-append xs ys i (a, e) = (a, get_elem?-append xs ys i a e)

pub record IsBuilt (c : ℕ) (registry : AccountRegistry) : Type 0 where
  pub all_known : IsKnown c registry.accounts
  pub all_linked : All (IsLinked registry.accounts) registry.linked_pair_indices
  pub all_single : All (IsThere registry.accounts) registry.independent_indices

abbrev at_count : AccountRegistry → ℕ → IdGenerator → Building
at_count registry c owners = record {
  registry = registry;
  account_id_gen = record { prefix = codes "ACC"; counter = c };
  owner_id_gen = owners;
}

-- From a built registry to a built one, by at most `bound` ids, `singles` independent accounts and
-- `pairs` pairs.
record Steps (bound singles pairs c : ℕ) (registry : AccountRegistry) (b : Building) : Type 0 where
  registry' : AccountRegistry
  counter : ℕ
  owners : IdGenerator
  is : b ≡ at_count registry' counter owners
  built : IsBuilt counter registry'
  within : counter ≤ c + bound
  more_singles :
      length registry'.independent_indices ≡ length registry.independent_indices + singles
  more : length registry'.linked_pair_indices ≡ length registry.linked_pair_indices + pairs

length-snoc : {A : Type 0} (xs : List A) (a : A) → length (xs ++ a ∷ []) ≡ length xs + 1
length-snoc [] a = refl
length-snoc (x ∷ xs) a = omega (arith, length-snoc xs a)

add_independent-Steps :
    (r : AccountRegistry) (c : ℕ) (o : IdGenerator)
    → c + 2 ≤ most
    → IsBuilt c r
    → Steps 2 1 0 c r (add_independent (at_count r c o))
unfolding add_independent next
add_independent-Steps r c o bound h =
    let y = account_of (acc c) (next o).0 client [] in
    record {
      registry' = _;
      counter = c + 1;
      owners = _;
      is = refl;
      built = record {
        all_known = IsKnown-append c r.accounts y (omega arith) refl h.all_known;
        all_linked =
            All-imp r.linked_pair_indices (λ p l. IsLinked-append r.accounts (y ∷ []) p l)
              h.all_linked;
        all_single =
            All-append _ r.independent_indices _
              (All-imp r.independent_indices (λ i l. IsThere-append r.accounts (y ∷ []) i l)
                h.all_single)
              ((y, get_elem?-length r.accounts [] y), tt);
      };
      within = omega arith;
      more_singles = length-snoc r.independent_indices _;
      more = omega arith;
    }

add_linked_pair-Steps :
    (r : AccountRegistry) (c : ℕ) (o : IdGenerator)
    → c + 2 ≤ most
    → IsBuilt c r
    → Steps 2 0 1 c r (add_linked_pair (at_count r c o))
unfolding add_linked_pair next
add_linked_pair-Steps r c o bound h =
    let x = account_of (acc c) (next o).0 client (acc (c + 1) ∷ []) in
    let y = account_of (acc (c + 1)) (next o).0 proprietary (acc c ∷ []) in
    record {
      registry' = _;
      counter = c + 1 + 1;
      owners = _;
      is = refl;
      built = record {
        all_known =
            IsKnown-append (c + 1) (r.accounts ++ x ∷ []) y (omega arith) refl
              (IsKnown-append c r.accounts x (omega arith) refl h.all_known);
        all_linked =
            All-append _ r.linked_pair_indices _
              (All-imp r.linked_pair_indices
                (λ p l.
                  IsLinked-append (r.accounts ++ x ∷ []) (y ∷ []) p
                    (IsLinked-append r.accounts (x ∷ []) p l))
                h.all_linked)
              (
                record {
                  first = x;
                  second = y;
                  at_first =
                      get_elem?-append (r.accounts ++ x ∷ []) (y ∷ []) (length r.accounts) x
                        (get_elem?-length r.accounts [] x);
                  at_second =
                      ap (get_elem? ((r.accounts ++ x ∷ []) ++ y ∷ []))
                        (sym (length-snoc r.accounts x))
                      ∙ get_elem?-length (r.accounts ++ x ∷ []) [] y;
                  declares = refl;
                  distinct = λ e.
                      fresh (c + 1) c (acc (c + 1)) (acc c) (omega arith) (omega arith) refl refl
                        (sym e);
                },
                tt,
              );
        all_single =
            All-imp r.independent_indices
              (λ i l.
                IsThere-append (r.accounts ++ x ∷ []) (y ∷ []) i
                  (IsThere-append r.accounts (x ∷ []) i l))
              h.all_single;
      };
      within = omega arith;
      more_singles = omega arith;
      more = length-snoc r.linked_pair_indices _;
    }

times_over-Steps :
    (n singles pairs : ℕ) (step : Building → Building)
    → ((r : AccountRegistry) (c : ℕ) (o : IdGenerator)
        → c + 2 ≤ most
        → IsBuilt c r
        → Steps 2 singles pairs c r (step (at_count r c o)))
    → (r : AccountRegistry) (c : ℕ) (o : IdGenerator) → c + 2 * n ≤ most
    → IsBuilt c r
    → Steps (2 * n) (singles * n) (pairs * n) c r (times_over n step (at_count r c o))
unfolding times_over
times_over-Steps zero singles pairs step one r c o bound h = record {
  registry' = r;
  counter = c;
  owners = o;
  is = refl;
  built = h;
  within = omega arith;
  more_singles = omega arith;
  more = omega arith;
}
times_over-Steps (suc n) singles pairs step one r c o bound h =
    let s = one r c o (omega arith) h in
    let t =
      times_over-Steps n singles pairs step one s.registry' s.counter s.owners
        (omega (arith, s.within)) s.built in
    record {
      registry' = t.registry';
      counter = t.counter;
      owners = t.owners;
      is = ap (times_over n step) s.is ∙ t.is;
      built = t.built;
      within = omega (arith, s.within, t.within);
      more_singles = omega (arith, s.more_singles, t.more_singles);
      more = omega (arith, s.more, t.more);
    }

-- `int` counts
pub record IsCounts (config : AccountRegistryConfig) : Type 0 where
  pub independent : config.num_independent_accounts ≤ℤ pos 2_147_483_647
  pub linked : config.num_linked_pairs ≤ℤ pos 2_147_483_647

pos_part_le : (z : ℤ) (k : ℕ) → z ≤ℤ pos k → pos_part z ≤ k
pos_part_le (pos n) k h = omega arith
pos_part_le (negsuc n) k h = omega arith

pub at_least : (z : ℤ) → pos 1 ≤ℤ z → 0 < pos_part z
at_least (pos n) h = omega arith
at_least (negsuc n) h = absurd (omega arith)

pub make_registry-Steps :
    (config : AccountRegistryConfig)
    → IsCounts config
    → (c : ℕ) × IsBuilt c (make_registry config)
      × (length (make_registry config).linked_pair_indices ≡ pos_part config.num_linked_pairs)
      × (length (make_registry config).independent_indices
          ≡ pos_part config.num_independent_accounts)
unfolding make_registry
make_registry-Steps config counts =
    let n = pos_part config.num_independent_accounts in
    let m = pos_part config.num_linked_pairs in
    let n_below : n ≤ 2_147_483_647 = pos_part_le _ _ counts.independent in
    let m_below : m ≤ 2_147_483_647 = pos_part_le _ _ counts.linked in
    let s =
      times_over-Steps n 1 0 add_independent add_independent-Steps building.registry 1
        building.owner_id_gen (omega arith)
        (record { all_known = record { known = tt }; all_linked = tt; all_single = tt }) in
    let t =
      times_over-Steps m 0 1 add_linked_pair add_linked_pair-Steps s.registry' s.counter s.owners
        (omega (arith, s.within)) s.built in
    let e =
      ap (λ b. (times_over m add_linked_pair b).registry) s.is
      ∙ ap (λ (b : Building). b.registry) t.is in
    (
      t.counter,
      rw e t.built,
      rw e (omega (arith, s.more, t.more)),
      rw e (omega (arith, s.more_singles, t.more_singles)),
    )
