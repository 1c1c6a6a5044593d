-- ===== src/Harness/Sets.antt =====
-- std::unordered_set<std::string> as a list of texts without repetition, and how many of its members pass
-- a test.
use trade_surveillance_engin.Prelude.{
  ℕ, ◌+◌, ◌≤◌, ◌≡◌, refl, sym, ◌∙◌, ap, inl, inr, Text, text_eq, text_eq_iff, text_eq_refl, Bool,
  true, false, not, ◌&&◌, ◌||◌, List, [], ◌∷◌, length, if◌then◌else◌, Bool-cases, arith,
}

-- `count(x) != 0`
abbrev pub contains : Text → List Text → Bool
contains x [] = false
contains x (y ∷ ys) = text_eq y x || contains x ys

unfoldable pub insert : Text → List Text → List Text
insert x s = if contains x s then s else x ∷ s

-- `insert(first, last)`
unfoldable pub insert_all : List Text → List Text → List Text
unfolding insert
insert_all [] s = s
insert_all (x ∷ xs) s = insert_all xs (insert x s)

abbrev pub IsSetOf : List Text → Type 0
IsSetOf [] = Unit {0}
IsSetOf (x ∷ xs) = (contains x xs ≡ false) × IsSetOf xs

abbrev pub IsWithin : List Text → List Text → Type 0
IsWithin s u = (x : Text) → contains x s ≡ true → contains x u ≡ true

abbrev pub tally : (Text → Bool) → List Text → ℕ
tally t [] = 0
tally t (x ∷ xs) = (if t x then 1 else 0) + tally t xs

pub contains-insert :
    (x y : Text) (s : List Text) → contains x (insert y s) ≡ (text_eq y x || contains x s)
unfolding insert
contains-insert x y s = elim (Bool-cases (contains y s)) [
  | inl there ↦ rw there (elim (Bool-cases (text_eq y x)) [
    | inl same ↦ rw (sym ((text_eq_iff y x).0 same)) (rw there (rw (text_eq_refl y) refl))
    | inr other ↦ rw other refl
  ])
  | inr absent ↦ rw absent refl
]

pub contains-insert_all :
    (x : Text) (xs s : List Text) → contains x (insert_all xs s) ≡ (contains x xs || contains x s)
unfolding insert_all
contains-insert_all x [] s = refl
contains-insert_all x (y ∷ ys) s =
    ground (arith, contains-insert_all x ys (insert y s), contains-insert x y s)

pub insert-IsSetOf : (x : Text) (s : List Text) → IsSetOf s → IsSetOf (insert x s)
unfolding insert
insert-IsSetOf x s v = elim (Bool-cases (contains x s)) [
  | inl there ↦ rw there v
  | inr absent ↦ rw absent (absent, v)
]

pub insert_all-IsSetOf : (xs s : List Text) → IsSetOf s → IsSetOf (insert_all xs s)
unfolding insert_all
insert_all-IsSetOf [] s v = v
insert_all-IsSetOf (x ∷ xs) s v = insert_all-IsSetOf xs (insert x s) (insert-IsSetOf x s v)

pub tally_split :
    (t : Text → Bool) (xs : List Text) → tally t xs + tally (λ x. not (t x)) xs ≡ length xs
tally_split t [] = omega arith
tally_split t (x ∷ xs) = ground (arith, tally_split t xs)

pub tally_ext :
    (f g : Text → Bool) (xs : List Text) → ((x : Text) → f x ≡ g x) → tally f xs ≡ tally g xs
tally_ext f g [] h = refl
tally_ext f g (x ∷ xs) h = rw (h x, tally_ext f g xs h) refl

tally_absent :
    (t : Text → Bool) (s : Text) (ss us : List Text)
    → contains s us ≡ false
    → tally (λ x. contains x (s ∷ ss) && t x) us ≡ tally (λ x. contains x ss && t x) us
tally_absent t s ss [] h = refl
tally_absent t s ss (u ∷ us) h =
    ground (arith, tally_absent t s ss us, text_eq_iff u s, text_eq_iff s u)

tally_first :
    (t : Text → Bool) (s u : Text) (ss us : List Text)
    → u ≡ s
    → contains u us ≡ false
    → contains s ss ≡ false
    → tally (λ x. contains x (s ∷ ss) && t x) (u ∷ us)
      ≡ (if t s then 1 else 0) + tally (λ x. contains x ss && t x) (u ∷ us)
tally_first t s u ss us at h k =
    let absent : contains u ss ≡ false = ap (λ x. contains x ss) at ∙ k in
    let same : text_eq s u ≡ true = (text_eq_iff s u).1 (sym at) in
    let here : t u ≡ t s = ap t at in
    rw (absent, same, here)
      (omega (arith, tally_absent t s ss us (ap (λ x. contains x us) (sym at) ∙ h)))

tally_once :
    (t : Text → Bool) (s : Text) (ss us : List Text)
    → IsSetOf us
    → contains s us ≡ true
    → contains s ss ≡ false
    → tally (λ x. contains x (s ∷ ss) && t x) us
      ≡ (if t s then 1 else 0) + tally (λ x. contains x ss && t x) us
tally_once t s ss [] v h k = cc
tally_once t s ss (u ∷ us) v h k = elim (Bool-cases (text_eq u s)) [
  | inl same ↦ tally_first t s u ss us ((text_eq_iff u s).0 same) v.0 k
  | inr other ↦
      ground (arith, tally_once t s ss us v.1 (rw other at h) k, text_eq_iff u s, text_eq_iff s u)
]

-- The members of a subset that pass a test, counted among those of the whole.
pub tally_within :
    (t : Text → Bool) (ss us : List Text)
    → IsSetOf ss
    → IsSetOf us
    → IsWithin ss us
    → tally t ss ≡ tally (λ x. contains x ss && t x) us
tally_within t [] us v w h = tally_none us
  where
    tally_none : (xs : List Text) → 0 ≡ tally (λ x. false) xs
    tally_none [] = refl
    tally_none (x ∷ xs) = omega (arith, tally_none xs)
tally_within t (s ∷ ss) us v w h =
    let here : contains s us ≡ true = h s (rw (text_eq_refl s) refl) in
    let rest = tally_within t ss us v.1 w (λ x k. h x (ground (arith, k))) in
    omega (arith, rest, tally_once t s ss us w here v.0)

pub tally_le :
    (f g : Text → Bool) (xs : List Text)
    → ((x : Text) → f x ≡ true → g x ≡ true)
    → tally f xs ≤ tally g xs
tally_le f g [] h = omega arith
tally_le f g (x ∷ xs) h = ground (arith, tally_le f g xs h, h x)
