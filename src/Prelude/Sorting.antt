-- ===== src/Prelude/Sorting.antt =====
-- std::stable_sort by a key of int64_t, as insertion, and what determines its result.
use trade_surveillance_engin.Prelude.Tests.{if◌then◌else◌, Bool-cases}
use trade_surveillance_engin.Prelude.Lists.{In, here, there, length}
use trade_surveillance_engin.Prelude.Int.{ℤ, ltb_ℤ, ◌≤ℤ◌}
use Prim.Native.Nat.{suc}
use mathlib.Core.Path.{◌≡◌, refl, ap, ◌∙◌}
use mathlib.Core.Logic.{inl, inr}
use mathlib.Core.Bool.{Bool, not, ◌&&◌}
use mathlib.Core.List.{List, [], ◌∷◌, ◌++◌, map}
use native.Mathlib.Omega.{arith}

abbrev pub eq_ℤ : ℤ → ℤ → Bool
eq_ℤ a b = not (ltb_ℤ a b) && not (ltb_ℤ b a)

abbrev pub All {ℓ κ} : {A : Type ℓ} → (A → Type κ) → List A → Type κ
All P [] = Unit
All P (x ∷ xs) = P x × All P xs

pub All-append {ℓ κ} :
    {A : Type ℓ} (P : A → Type κ) (xs ys : List A) → All P xs → All P ys → All P (xs ++ ys)
All-append P [] ys ps qs = qs
All-append P (x ∷ xs) ys (p, ps) qs = (p, All-append P xs ys ps qs)

pub All-imp {ℓ κ μ} :
    {A : Type ℓ} {P : A → Type κ} {Q : A → Type μ} (xs : List A)
    → ((x : A) → P x → Q x)
    → All P xs
    → All Q xs
All-imp [] f ps = tt
All-imp (x ∷ xs) f (p, ps) = (f x p, All-imp xs f ps)

pub All-In {ℓ κ} : {A : Type ℓ} (P : A → Type κ) {x : A} (xs : List A) → All P xs → In x xs → P x
All-In P [] ps i = elim i [ ]
All-In P (x ∷ xs) (p, ps) here = p
All-In P (x ∷ xs) (p, ps) (there i) = All-In P xs ps i

pub All-map {ℓ κ μ} :
    {A : Type ℓ} {B : Type κ} (P : B → Type μ) (f : A → B) (xs : List A)
    → All (λ x. P (f x)) xs
    → All P (map f xs)
All-map P f [] ps = tt
All-map P f (x ∷ xs) (p, ps) = (p, All-map P f xs ps)

module _ {A : Type 0} (key : A → ℤ) where
  -- Before the first element that is not less.
  unfoldable pub insert_sorted : A → List A → List A
  insert_sorted x [] = x ∷ []
  insert_sorted x (y ∷ ys) = if ltb_ℤ (key y) (key x) then y ∷ insert_sorted x ys else x ∷ y ∷ ys

  unfoldable pub stable_sort : List A → List A
  unfolding insert_sorted
  stable_sort [] = []
  stable_sort (x ∷ xs) = insert_sorted x (stable_sort xs)

  abbrev pub AllFrom : ℤ → List A → Type 0
  AllFrom k [] = Unit {0}
  AllFrom k (x ∷ xs) = (k ≤ℤ key x) × AllFrom k xs

  abbrev pub IsSorted : List A → Type 0
  IsSorted [] = Unit {0}
  IsSorted (x ∷ xs) = AllFrom (key x) xs × IsSorted xs

  -- The elements of one key, in their order.
  abbrev pub at_key : ℤ → List A → List A
  at_key k [] = []
  at_key k (x ∷ xs) = if eq_ℤ (key x) k then x ∷ at_key k xs else at_key k xs

  AllFrom-le : (j k : ℤ) (xs : List A) → j ≤ℤ k → AllFrom k xs → AllFrom j xs
  AllFrom-le j k [] h a = tt
  AllFrom-le j k (x ∷ xs) h a = (omega arith, AllFrom-le j k xs h a.1)

  insert_sorted-All :
      (P : A → Type 0) (x : A) (xs : List A) → P x → All P xs → All P (insert_sorted x xs)
  unfolding insert_sorted
  insert_sorted-All P x [] p ps = (p, tt)
  insert_sorted-All P x (y ∷ ys) p ps = elim (Bool-cases (ltb_ℤ (key y) (key x))) [
    | inl less ↦ rw less (ps.0, insert_sorted-All P x ys p ps.1)
    | inr not_less ↦ rw not_less (p, ps)
  ]

  pub stable_sort-All : (P : A → Type 0) (xs : List A) → All P xs → All P (stable_sort xs)
  unfolding stable_sort
  stable_sort-All P [] ps = tt
  stable_sort-All P (x ∷ xs) (p, ps) =
      insert_sorted-All P x (stable_sort xs) p (stable_sort-All P xs ps)

  In-insert_sorted_self : (x : A) (xs : List A) → In x (insert_sorted x xs)
  unfolding insert_sorted
  In-insert_sorted_self x [] = here
  In-insert_sorted_self x (y ∷ ys) =
      let rest = In-insert_sorted_self x ys in
      elim (Bool-cases (ltb_ℤ (key y) (key x))) [
        | inl less ↦ rw less (there rest)
        | inr not_less ↦ rw not_less here
      ]

  In-insert_sorted : {z : A} (x : A) (xs : List A) → In z xs → In z (insert_sorted x xs)
  unfolding insert_sorted
  In-insert_sorted x [] i = elim i [ ]
  In-insert_sorted x (y ∷ ys) here = elim (Bool-cases (ltb_ℤ (key y) (key x))) [
    | inl less ↦ rw less here
    | inr not_less ↦ rw not_less (there here)
  ]
  In-insert_sorted x (y ∷ ys) (there i) =
      let rest = In-insert_sorted x ys i in
      elim (Bool-cases (ltb_ℤ (key y) (key x))) [
        | inl less ↦ rw less (there rest)
        | inr not_less ↦ rw not_less (there (there i))
      ]

  pub In-stable_sort : {z : A} (xs : List A) → In z xs → In z (stable_sort xs)
  unfolding stable_sort
  In-stable_sort [] i = elim i [ ]
  In-stable_sort (x ∷ xs) here = In-insert_sorted_self x (stable_sort xs)
  In-stable_sort (x ∷ xs) (there i) = In-insert_sorted x (stable_sort xs) (In-stable_sort xs i)

  insert_sorted-AllFrom :
      (k : ℤ) (x : A) (xs : List A) → k ≤ℤ key x → AllFrom k xs → AllFrom k (insert_sorted x xs)
  unfolding insert_sorted
  insert_sorted-AllFrom k x [] h a = (h, tt)
  insert_sorted-AllFrom k x (y ∷ ys) h a = elim (Bool-cases (ltb_ℤ (key y) (key x))) [
    | inl less ↦ rw less (a.0, insert_sorted-AllFrom k x ys h a.1)
    | inr not_less ↦ rw not_less (h, a)
  ]

  insert_sorted-IsSorted : (x : A) (xs : List A) → IsSorted xs → IsSorted (insert_sorted x xs)
  unfolding insert_sorted
  insert_sorted-IsSorted x [] s = (tt, tt)
  insert_sorted-IsSorted x (y ∷ ys) s = elim (Bool-cases (ltb_ℤ (key y) (key x))) [
    | inl less ↦ rw less (
      insert_sorted-AllFrom (key y) x ys (ground (arith, less)) s.0,
      insert_sorted-IsSorted x ys s.1,
    )
    | inr not_less ↦
        let h : key x ≤ℤ key y = ground (arith, not_less) in
        rw not_less ((h, AllFrom-le (key x) (key y) ys h s.0), (s.0, s.1))
  ]

  pub stable_sort-IsSorted : (xs : List A) → IsSorted (stable_sort xs)
  unfolding stable_sort
  stable_sort-IsSorted [] = tt
  stable_sort-IsSorted (x ∷ xs) =
      insert_sorted-IsSorted x (stable_sort xs) (stable_sort-IsSorted xs)

  at_key-insert_sorted :
      (k : ℤ) (x : A) (xs : List A) → at_key k (insert_sorted x xs) ≡ at_key k (x ∷ xs)
  unfolding insert_sorted
  at_key-insert_sorted k x [] = refl
  at_key-insert_sorted k x (y ∷ ys) = ground (arith, at_key-insert_sorted k x ys)

  -- The sort keeps what stands at each key, in its order.
  pub at_key-stable_sort : (k : ℤ) (xs : List A) → at_key k (stable_sort xs) ≡ at_key k xs
  unfolding stable_sort
  at_key-stable_sort k [] = refl
  at_key-stable_sort k (x ∷ xs) =
      at_key-insert_sorted k x (stable_sort xs)
      ∙ ap (λ ys. if eq_ℤ (key x) k then x ∷ ys else ys) (at_key-stable_sort k xs)

  pub at_key-append : (k : ℤ) (xs ys : List A) → at_key k (xs ++ ys) ≡ at_key k xs ++ at_key k ys
  at_key-append k [] ys = refl
  at_key-append k (x ∷ xs) ys = ground (arith, at_key-append k xs ys)

  length-insert_sorted : (x : A) (xs : List A) → length (insert_sorted x xs) ≡ suc (length xs)
  unfolding insert_sorted
  length-insert_sorted x [] = refl
  length-insert_sorted x (y ∷ ys) = ground (arith, length-insert_sorted x ys)

  pub length-stable_sort : (xs : List A) → length (stable_sort xs) ≡ length xs
  unfolding stable_sort
  length-stable_sort [] = refl
  length-stable_sort (x ∷ xs) =
      length-insert_sorted x (stable_sort xs) ∙ ap suc (length-stable_sort xs)

module _ {A B : Type 0} (key : A → ℤ) (f : B → A) where
  pub at_key-map :
      (k : ℤ) (xs : List B) → at_key key k (map f xs) ≡ map f (at_key (λ x. key (f x)) k xs)
  at_key-map k [] = refl
  at_key-map k (x ∷ xs) = elim (Bool-cases (eq_ℤ (key (f x)) k)) [
    | inl same ↦ rw same (ap (λ ys. f x ∷ ys) (at_key-map k xs))
    | inr other ↦ rw other (at_key-map k xs)
  ]

  AllFrom-map : (k : ℤ) (xs : List B) → AllFrom (λ x. key (f x)) k xs → AllFrom key k (map f xs)
  AllFrom-map k [] h = tt
  AllFrom-map k (x ∷ xs) (h, hs) = (h, AllFrom-map k xs hs)

  pub IsSorted-map : (xs : List B) → IsSorted (λ x. key (f x)) xs → IsSorted key (map f xs)
  IsSorted-map [] h = tt
  IsSorted-map (x ∷ xs) (h, hs) = (AllFrom-map (key (f x)) xs h, IsSorted-map xs hs)
