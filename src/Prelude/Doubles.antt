-- ===== src/Prelude/Doubles.antt =====
-- What the code does with a `double`. The hardware's arithmetic is a parameter: a type, its
-- operations, and the laws of `<` and `<=` that hold of every double, NaN included.
use trade_surveillance_engin.Prelude.Tests.{if◌then◌else◌}
use trade_surveillance_engin.Prelude.Int.{ℤ}
use trade_surveillance_engin.Prelude.Bytes.{Text}
use mathlib.Core.Path.{◌≡◌}
use mathlib.Core.Logic.{◌↔◌}
use mathlib.Core.Bool.{Bool, true, false, not, ◌&&◌}
use native.Mathlib.Omega.{arith}

pub record Double {ℓ} (F : Type ℓ) : Type ℓ where
  pub lt : F → F → Bool
  pub le : F → F → Bool
  pub add : F → F → F
  pub sub : F → F → F
  pub mul : F → F → F
  pub div : F → F → F
  pub sqrt : F → F
  pub abs : F → F
  pub of_int : ℤ → F
  -- std::to_string
  pub print : F → Text
  pub print_int : ℤ → Text
  pub lt_irrefl : (a : F) → lt a a ≡ false
  pub lt_trans : (a b c : F) → lt a b ≡ true → lt b c ≡ true → lt a c ≡ true
  pub not_lt_of_le : (a b : F) → le a b ≡ true → lt b a ≡ false

-- A type of doubles without NaN in which the two zeros are one value: what a price is to a map.
pub record IsTotal {ℓ} (F : Type ℓ) ⦃d : Double F⦄ : Type ℓ where
  pub eq_of_not_lt : (a b : F) → d.lt a b ≡ false → d.lt b a ≡ false → a ≡ b

-- `a == b` away from NaN, and the equivalence by which std::map<double, …> finds its keys
abbrev pub same_price {ℓ} : {F : Type ℓ} ⦃d : Double F⦄ → F → F → Bool
same_price ⦃d⦄ a b = not (d.lt a b) && not (d.lt b a)

-- std::clamp
abbrev pub clamp {ℓ} : {F : Type ℓ} ⦃d : Double F⦄ → F → F → F → F
clamp ⦃d⦄ v lo hi = if d.lt v lo then lo else if d.lt hi v then hi else v

module _ {ℓ} {F : Type ℓ} ⦃d : Double F⦄ where
  pub same_price_iff : ⦃t : IsTotal F⦄ (a b : F) → (same_price a b ≡ true) ↔ (a ≡ b)
  same_price_iff ⦃t⦄ a b = (same_of, same_to)
    where
      same_of : same_price a b ≡ true → a ≡ b
      same_of h = ground (arith, t.eq_of_not_lt a b)

      same_to : a ≡ b → same_price a b ≡ true
      same_to e = rw (e, d.lt_irrefl b)

  -- A clamped value lies between the bounds.
  pub clamp_bounds :
      (v lo hi : F)
      → d.lt hi lo ≡ false
      → (d.lt (clamp v lo hi) lo ≡ false) × (d.lt hi (clamp v lo hi) ≡ false)
  clamp_bounds v lo hi h = ground (arith, d.lt_irrefl lo, d.lt_irrefl hi)
