-- ===== src/Detectors/MarkingTheClose/Groups.antt =====
-- cpp/detectors/marking_the_close_detector.cpp: the union-find over the accounts, on fuel. `none` is a
-- chain of parents longer than the fuel.
use trade_surveillance_engin.Prelude.{
  ℕ, zero, suc, true, false, List, [], ◌∷◌, ◌++◌, Text, text_eq, find, put, Option, none, some,
  ◌>>=◌, if◌then◌else◌,
}
use trade_surveillance_engin.Detectors.Accounts.{AccountRegistry, is_related, contains}

-- `group_parent_`
abbrev pub GroupParent : Type 0
GroupParent = List (Text × Text)

-- `insert` of an unordered_set
unfoldable pub insert : Text → List Text → List Text
unfolding contains
insert a l = if contains a l then l else l ++ a ∷ []

-- With path compression.
unfoldable pub find_group : ℕ → GroupParent → Text → Option (Text × GroupParent)
find_group zero parents account_id = none
find_group (suc fuel) parents account_id = elim (find text_eq account_id parents) [
  | none ↦ some (account_id, parents)
  | some parent ↦ elim (text_eq parent account_id) [
    | true ↦ some (account_id, parents)
    | false ↦ elim (find_group fuel parents parent) [
      | none ↦ none
      | some (root, parents') ↦ some (root, put text_eq account_id root parents')
    ]
  ]
]

-- The body of the `if` that joins two related accounts.
unfoldable pub join : ℕ → GroupParent → Text → Text → Option GroupParent
unfolding find_group
join fuel parents a b = find_group fuel parents a >>= λ (root_a, parents).
    find_group fuel parents b >>= λ (root_b, parents).
    some (if text_eq root_a root_b then parents else put text_eq root_a root_b parents)

unfoldable pub join_related :
    ℕ → AccountRegistry → GroupParent → Text → List Text → Option GroupParent
unfolding join
join_related fuel accounts parents account_id [] = some parents
join_related fuel accounts parents account_id (other ∷ seen) =
    (if is_related accounts account_id other
      then join fuel parents account_id other
      else some parents)
    >>= λ parents. join_related fuel accounts parents account_id seen

-- The accounts among `seen` whose group is `rep`.
unfoldable pub members_of : ℕ → GroupParent → Text → List Text → Option (List Text × GroupParent)
unfolding find_group
members_of fuel parents rep [] = some ([], parents)
members_of fuel parents rep (acc ∷ seen) = find_group fuel parents acc >>= λ (root, parents).
    members_of fuel parents rep seen >>= λ (members, parents).
    some (if text_eq root rep then acc ∷ members else members, parents)
