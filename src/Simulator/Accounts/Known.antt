-- ===== src/Simulator/Accounts/Known.antt =====
-- The ids of the accounts of a session, and the detectors' registry that holds them.
use trade_surveillance_engin.Prelude.{
  ℕ, zero, suc, ◌+◌, ◌≤◌, ◌<◌, ◌≡◌, ◌≢◌, refl, sym, ◌∙◌, if◌then◌else◌, subst, Text, codes, text_eq,
  text_eq_iff, text_eq_refl, List, [], ◌∷◌, ◌++◌, length, get_elem?, some, find, find-put, All,
  All-append, All-imp, In, here, there, arith, false,
}
use trade_surveillance_engin.Detectors.Accounts.{Entity, add}
use trade_surveillance_engin.Simulator.{Account}
use trade_surveillance_engin.Simulator.Draws.{id_text}
use trade_surveillance_engin.Simulator.Draws.Ids.{id_text_injective}
use trade_surveillance_engin.Harness.Replay.{to_entity, add_all}

abbrev pub most : ℕ
most = 9_223_372_036_854_775_807

abbrev pub acc : ℕ → Text
acc n = id_text (codes "ACC") n

-- The accounts have ids below the counter, and the registry that they are added to finds each of them.
pub record IsKnown (c : ℕ) (accounts : List Account) : Type 0 where
  pub known :
      All
        (λ (x : Account).
          ((k : ℕ) × (k < c) × (x.account_id ≡ acc k))
          × (find text_eq x.account_id (add_all [] accounts) ≡ some (to_entity x)))
        accounts

add_all-append :
    (r : List (Text × Entity)) (xs : List Account) (y : Account)
    → add_all r (xs ++ y ∷ []) ≡ add (add_all r xs) (to_entity y)
unfolding add_all
add_all-append r [] y = refl
add_all-append r (x ∷ xs) y = add_all-append (add r (to_entity x)) xs y

find-add :
    (r : List (Text × Entity)) (y : Account) (id : Text)
    → find text_eq id (add r (to_entity y))
      ≡ (if text_eq y.account_id id then some (to_entity y) else find text_eq id r)
unfolding add to_entity
find-add r y id = find-put text_eq text_eq_iff y.account_id id (to_entity y) r

apart : (s t : Text) → s ≢ t → text_eq s t ≡ false
apart s t e = ground (arith, text_eq_iff s t, λ (h : s ≡ t). e h)

pub fresh : (c k : ℕ) (s t : Text) → c ≤ most → k < c → s ≡ acc c → t ≡ acc k → s ≢ t
fresh c k s t bound below es et e =
    let same = id_text_injective (codes "ACC") c k bound (omega arith) (sym es ∙ e ∙ et) in
    absurd (omega (arith, same))

pub IsKnown-append :
    (c : ℕ) (xs : List Account) (y : Account)
    → c ≤ most
    → y.account_id ≡ acc c
    → IsKnown c xs
    → IsKnown (c + 1) (xs ++ y ∷ [])
IsKnown-append c xs y bound e h =
    let all = add_all [] xs in
    record {
      known =
          All-append _ xs (y ∷ [])
            (All-imp xs
              (λ x ((k, below, named), at). (
                (k, omega arith, named),
                rw (add_all-append [] xs y) (
                    find-add all y x.account_id
                    ∙ rw
                        (apart y.account_id x.account_id
                          (fresh c k y.account_id x.account_id bound below e named))
                        at),
              ))
              h.known)
            (
              (
                (c, omega arith, e),
                rw (add_all-append [] xs y)
                    (find-add all y y.account_id ∙ rw (text_eq_refl y.account_id) refl),
              ),
              tt,
            );
    }

pub get_elem?-append :
    {A : Type 0} (xs ys : List A) (i : ℕ) (a : A)
    → get_elem? xs i ≡ some a
    → get_elem? (xs ++ ys) i ≡ some a
get_elem?-append [] ys i a h = cc
get_elem?-append (x ∷ xs) ys zero a h = h
get_elem?-append (x ∷ xs) ys (suc i) a h = get_elem?-append xs ys i a h

pub get_elem?-length :
    {A : Type 0} (xs ys : List A) (a : A) → get_elem? (xs ++ a ∷ ys) (length xs) ≡ some a
get_elem?-length [] ys a = refl
get_elem?-length (x ∷ xs) ys a = get_elem?-length xs ys a

pub get_elem?-In : {A : Type 0} (xs : List A) (i : ℕ) (a : A) → get_elem? xs i ≡ some a → In a xs
get_elem?-In [] i a h = cc
get_elem?-In (x ∷ xs) zero a h = let e : x ≡ a = cc in subst (λ z. In z (x ∷ xs)) e here
get_elem?-In (x ∷ xs) (suc i) a h = there (get_elem?-In xs i a h)
