-- ===== src/Detectors/Accounts.antt =====
-- cpp/detectors/account_registry.hpp and cpp/detectors/account_registry.cpp: who is related to whom.
use trade_surveillance_engin.Prelude.{
  ◌≡◌, refl, Bool, true, false, ◌||◌, Option, none, some, List, [], ◌∷◌, Text, text_eq, text_eq_iff,
  is_empty, find, put, if◌then◌else◌, arith, ◌↔◌, inl, inr, Bool-cases, text_eq_refl,
}

pub record Entity : Type 0 where
  pub account_id : Text
  pub beneficial_owner_id : Text
  pub entity_type : Text
  pub linked_account_ids : List Text

abbrev pub AccountRegistry : Type 0
AccountRegistry = List (Text × Entity)

unfoldable pub add : AccountRegistry → Entity → AccountRegistry
add accounts entity = put text_eq entity.account_id entity accounts

abbrev pub lookup : AccountRegistry → Text → Option Entity
lookup accounts a = find text_eq a accounts

unfoldable pub same_owner : Option Entity → Option Entity → Bool
same_owner none _ = false
same_owner (some a) none = false
same_owner (some a) (some b) =
    if is_empty a.beneficial_owner_id || is_empty b.beneficial_owner_id
    then false
    else text_eq a.beneficial_owner_id b.beneficial_owner_id

unfoldable pub same_beneficial_owner : AccountRegistry → Text → Text → Bool
unfolding same_owner
same_beneficial_owner accounts a b = same_owner (lookup accounts a) (lookup accounts b)

-- std::find
unfoldable pub contains : Text → List Text → Bool
contains a [] = false
contains a (b ∷ l) = text_eq b a || contains a l

unfoldable pub names : Option Entity → Text → Bool
unfolding contains
names none target = false
names (some e) target = contains target e.linked_account_ids

unfoldable pub are_linked : AccountRegistry → Text → Text → Bool
unfolding names
are_linked accounts a b = names (lookup accounts a) b || names (lookup accounts b) a

unfoldable pub is_related : AccountRegistry → Text → Text → Bool
unfolding same_beneficial_owner are_linked
is_related accounts a b =
    if text_eq a b then true else (same_beneficial_owner accounts a b || are_linked accounts a b)

text_eq_comm : (s t : Text) → text_eq s t ≡ text_eq t s
text_eq_comm s t = ground (arith, text_eq_iff s t, text_eq_iff t s)

same_owner_comm : (a b : Option Entity) → same_owner a b ≡ same_owner b a
unfolding same_owner
same_owner_comm none none = refl
same_owner_comm none (some b) = refl
same_owner_comm (some a) none = refl
same_owner_comm (some a) (some b) =
    ground (arith, text_eq_comm a.beneficial_owner_id b.beneficial_owner_id)

-- The relation that the detectors ask for is reflexive, whether or not the account is registered, and
-- symmetric, also where only one of two entities declares the link.
pub is_related_lem :
    (accounts : AccountRegistry) (a b : Text)
    → (is_related accounts a a ≡ true) × (is_related accounts a b ≡ is_related accounts b a)
unfolding is_related same_beneficial_owner are_linked
is_related_lem accounts a b = (
  rw (text_eq_refl a),
  ground (arith, text_eq_comm a b, same_owner_comm (lookup accounts a) (lookup accounts b)),
)

-- What relates two accounts, on the registry's records.
pub data Relation (accounts : AccountRegistry) (a b : Text) : Type 0 where
  itself : a ≡ b → Relation accounts a b
  owned :
      (x y : Entity)
      → lookup accounts a ≡ some x
      → lookup accounts b ≡ some y
      → x.beneficial_owner_id ≡ y.beneficial_owner_id
      → is_empty x.beneficial_owner_id ≡ false
      → Relation accounts a b
  links_to :
      (x : Entity)
      → lookup accounts a ≡ some x
      → contains b x.linked_account_ids ≡ true
      → Relation accounts a b
  linked_by :
      (y : Entity)
      → lookup accounts b ≡ some y
      → contains a y.linked_account_ids ≡ true
      → Relation accounts a b

same_owner-owned :
    (accounts : AccountRegistry) (a b : Text) (x y : Option Entity)
    → lookup accounts a ≡ x
    → lookup accounts b ≡ y
    → same_owner x y ≡ true
    → Relation accounts a b
unfolding same_owner
same_owner-owned accounts a b none y ex ey h = cc
same_owner-owned accounts a b (some e) none ex ey h = cc
same_owner-owned accounts a b (some e) (some e') ex ey h =
    owned e e' ex ey (ground (arith, text_eq_iff e.beneficial_owner_id e'.beneficial_owner_id))
      (ground arith)

names-entity :
    (x : Option Entity) (target : Text)
    → names x target ≡ true
    → (e : Entity) × (x ≡ some e) × (contains target e.linked_account_ids ≡ true)
unfolding names
names-entity none target h = cc
names-entity (some e) target h = (e, refl, h)

is_related_sound :
    (accounts : AccountRegistry) (a b : Text)
    → is_related accounts a b ≡ true
    → Relation accounts a b
unfolding is_related same_beneficial_owner are_linked
is_related_sound accounts a b h =
    let x = lookup accounts a in
    let y = lookup accounts b in
    elim (Bool-cases (text_eq a b)) [
      | inl e ↦ itself ((text_eq_iff a b).0 e)
      | inr e ↦ elim (Bool-cases (same_owner x y)) [
        | inl o ↦ same_owner-owned accounts a b x y refl refl o
        | inr o ↦ elim (Bool-cases (names x b)) [
          | inl n ↦ let (u, at, is) = names-entity x b n in links_to u at is
          | inr n ↦
              let (u, at, is) = names-entity y a (ground (arith, h, e, o, n)) in linked_by u at is
        ]
      ]
    ]

is_related_complete :
    (accounts : AccountRegistry) (a b : Text)
    → Relation accounts a b
    → is_related accounts a b ≡ true
unfolding is_related same_beneficial_owner are_linked same_owner names
is_related_complete accounts a b (itself e) = rw (e, text_eq_refl b)
is_related_complete accounts a b (owned x y ex ey e h) =
    ground (arith, ex, ey, e, h, text_eq_iff x.beneficial_owner_id y.beneficial_owner_id)
is_related_complete accounts a b (links_to x ex h) = ground (arith, ex, h)
is_related_complete accounts a b (linked_by y ey h) = ground (arith, ey, h)

-- `is_related` answers true exactly for one and the same account, for two registered accounts with the
-- same owner, whose id is not empty, and where the record of either account names the other.
pub is_related_iff :
    (accounts : AccountRegistry) (a b : Text)
    → (is_related accounts a b ≡ true) ↔ Relation accounts a b
is_related_iff accounts a b = (is_related_sound accounts a b, is_related_complete accounts a b)
