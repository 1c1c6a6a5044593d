-- ===== src/Codec/Total.antt =====
-- The parser ends on every text.
use trade_surveillance_engin.Prelude.{
  ℕ, zero, suc, ◌≤◌, ◌<◌, ◌≡◌, ◌⊎◌, refl, Bool, true, false, [], ◌∷◌, Text, text_eq, find, codes,
  ◌==◌, Option, none, some, length, if◌then◌else◌, arith, Option-cases, Bool-cases, inl, inr,
}
use trade_surveillance_engin.Fix.{Event}
use trade_surveillance_engin.Codec.{DoubleText}
use trade_surveillance_engin.Codec.Decimal.{skip_ws}
use trade_surveillance_engin.Codec.Parser.{
  Fault, Result, ok, err, ◌>>=◌, front, peek, after, expect, scan_string, parse_raw_string,
  scan_number, number_or_fault, parse_raw_number, Fields, parse_value, parse_member, parse_members,
  parse_object, require, or_bad, missing_field, bad_value, unrecognized_type, decode_order,
  decode_execution, decode_as, decode_fields, decode,
}

-- A run that returns a value with a property, or throws.
pub data Ends {ℓ κ} {A : Type ℓ} (P : A → Type κ) : Result A → Type (ℓ ⊔ κ) where
  returns : {a : A} → P a → Ends P (ok a)
  throws : (e : Fault) → Ends P (err e)

Ends-bind {ℓ κ ℓ' κ'} :
    {A : Type ℓ} {B : Type ℓ'} {P : A → Type κ} {Q : B → Type κ'} {r : Result A} {f : A → Result B}
    → Ends P r
    → ((a : A) → P a → Ends Q (f a))
    → Ends Q (r >>= f)
Ends-bind (returns {a} h) k = k a h
Ends-bind (throws e) k = throws e

Ends-cases {ℓ κ} :
    {A : Type ℓ} {P : A → Type κ} {r : Result A}
    → Ends P r
    → ((a : A) × (r ≡ ok a)) ⊎ ((e : Fault) × (r ≡ err e))
Ends-cases (returns {a} h) = inl (a, refl)
Ends-cases (throws e) = inr (e, refl)

Ends-map {ℓ κ κ'} :
    {A : Type ℓ} {P : A → Type κ} {Q : A → Type κ'} {r : Result A}
    → ((a : A) → P a → Q a)
    → Ends P r
    → Ends Q r
Ends-map k (returns {a} h) = returns (k a h)
Ends-map k (throws e) = throws e

Ends-if {ℓ κ} :
    {A : Type ℓ} {P : A → Type κ} (b : Bool) {r s : Result A}
    → Ends P r
    → Ends P s
    → Ends P (if b then r else s)
Ends-if true h k = h
Ends-if false h k = k

-- What is left of a text is shorter, or no longer.
abbrev Left : ℕ → Text → Type 0
Left n rest = length rest ≤ n

abbrev Leaves {ℓ} : {A : Type ℓ} → ℕ → A × Text → Type 0
Leaves n x = length x.1 ≤ n

length-skip_ws : (text : Text) → length (skip_ws text) ≤ length text
unfolding skip_ws
length-skip_ws [] = omega arith
length-skip_ws (c ∷ text) = ground (arith, length-skip_ws text)

front-Ends : (text : Text) → Ends (λ x. (0 < length text) × (x.1 ≡ text)) (front text)
unfolding front
front-Ends [] = throws _
front-Ends (c ∷ rest) = returns (omega arith, refl)

length-after : (text : Text) → 0 < length text → length (after text) < length text
length-after [] h = absurd (omega arith)
length-after (c ∷ rest) h = omega arith

-- A peek leaves a character.
peek-Ends : (text : Text) → Ends (λ x. (0 < length x.1) × (length x.1 ≤ length text)) (peek text)
unfolding peek
peek-Ends text =
    Ends-map (λ x h. (rw (h.1) (h.0), rw (h.1) (length-skip_ws text))) (front-Ends (skip_ws text))

expect-Ends : (c : ℕ) (text : Text) → Ends (λ rest. length rest < length text) (expect c text)
unfolding expect
expect-Ends c text =
    Ends-bind (peek-Ends text)
      (λ x h. Ends-if (x.0 == c) (returns (omega (arith, h, length-after x.1))) (throws _))

length-scan_string : (text : Text) → length (scan_string text).1 ≤ length text
unfolding scan_string
length-scan_string [] = omega arith
length-scan_string (c ∷ []) = ground arith
length-scan_string (c ∷ d ∷ rest) =
    ground (arith, length-scan_string rest, length-scan_string (d ∷ rest))

length-scan_number : (text : Text) → length (scan_number text).1 ≤ length text
unfolding scan_number
length-scan_number [] = omega arith
length-scan_number (c ∷ rest) = ground (arith, length-scan_number rest)

parse_raw_string-Ends : (text : Text) → Ends (λ x. length x.1 < length text) (parse_raw_string text)
unfolding parse_raw_string
parse_raw_string-Ends text = Ends-bind (expect-Ends b'"' text) (λ rest h.
    Ends-bind (expect-Ends b'"' (scan_string rest).1)
      (λ rest' k. returns (omega (arith, h, k, length-scan_string rest))))

number_or_fault-Ends : (x : Text × Text) → Ends (λ y. length y.1 ≤ length x.1) (number_or_fault x)
unfolding number_or_fault
number_or_fault-Ends ([], rest) = throws _
number_or_fault-Ends (c ∷ out, rest) = returns (omega arith)

parse_raw_number-Ends : (text : Text) → Ends (λ x. length x.1 ≤ length text) (parse_raw_number text)
unfolding parse_raw_number
parse_raw_number-Ends text =
    Ends-map (λ x h. omega (arith, h, length-scan_number text))
      (number_or_fault-Ends (scan_number text))

parse_value-Ends : (text : Text) → Ends (λ x. length x.1 ≤ length text) (parse_value text)
unfolding parse_value
parse_value-Ends text = Ends-bind (peek-Ends (skip_ws text)) (λ x h.
    Ends-if (x.0 == b'"')
      (Ends-map (λ y k. omega (arith, h.1, k, length-skip_ws text)) (parse_raw_string-Ends x.1))
      (Ends-map (λ y k. omega (arith, h.1, k, length-skip_ws text)) (parse_raw_number-Ends x.1)))

parse_member-Ends :
    (fields : Fields) (text : Text)
    → Ends (λ x. length x.1 < length text) (parse_member fields text)
unfolding parse_member
parse_member-Ends fields text = Ends-bind (parse_raw_string-Ends (skip_ws text)) (λ x h.
    Ends-bind (expect-Ends b':' (skip_ws x.1)) (λ rest k. Ends-bind (parse_value-Ends rest) (λ y l.
      returns
        (omega (arith, h, k, l, length-skip_ws text, length-skip_ws x.1, length-skip_ws y.1)))))

parse_members-Ends :
    (fuel : ℕ) (fields : Fields) (text : Text)
    → length text < fuel
    → Ends (λ x. length x.1 ≤ length text) (parse_members fuel fields text)
unfolding parse_members
parse_members-Ends zero fields text h = absurd (omega arith)
parse_members-Ends (suc fuel) fields text h = Ends-bind (parse_member-Ends fields text) (λ x k.
    Ends-bind (peek-Ends x.1) (λ y l. elim (Bool-cases (y.0 == b',')) [
      | inl comma ↦ rw comma (
          Ends-map (λ z m. omega (arith, k, l, m, length-after y.1))
            (parse_members-Ends fuel x.0 (after y.1) (omega (arith, h, k, l, length-after y.1))))
      | inr other ↦ rw other (returns (omega (arith, k, l)))
    ]))

parse_object-Ends : (text : Text) → Ends (λ fields. Unit {0}) (parse_object text)
unfolding parse_object
parse_object-Ends text = Ends-bind (expect-Ends b'{' text) (λ rest h.
    Ends-bind (peek-Ends rest) (λ x k. Ends-if (x.0 == b'}') (returns tt) (
      Ends-bind (parse_members-Ends (length text) [] x.1 (omega (arith, h, k)))
        (λ y l. Ends-bind (expect-Ends b'}' y.1) (λ rest' m. returns tt)))))

-- It ends, with nothing said of the value.
abbrev Done {ℓ} : {A : Type ℓ} → Result A → Type ℓ
Done = Ends (λ a. Unit {0})

require-Done : (fields : Fields) (key : Text) → Done (require fields key)
unfolding require
require-Done fields key = elim (Option-cases (find text_eq key fields)) [
  | inl absent ↦ rw (absent, require) (throws (missing_field key))
  | inr (value, there) ↦ rw (there, require) (returns tt)
]

or_bad-Done {ℓ} : {A : Type ℓ} (o : Option A) → Done (or_bad o)
or_bad-Done none = throws bad_value
or_bad-Done (some a) = returns tt

-- A field, and a field that is converted.
field {ℓ} :
    {B : Type ℓ} {f : Text → Result B} (fields : Fields) (key : Text)
    → ((v : Text) → Done (f v))
    → Done (require fields key >>= f)
field fields key k = Ends-bind (require-Done fields key) (λ v h. k v)

converted {ℓ} :
    {A B : Type ℓ} {f : A → Result B} (o : Option A)
    → ((a : A) → Done (f a))
    → Done (or_bad o >>= f)
converted o k = Ends-bind (or_bad-Done o) (λ a h. k a)

module _ {F : Type 0} (t : DoubleText F) where
  decode_order-Done : (fields : Fields) → Done (decode_order t fields)
  unfolding decode_order
  decode_order-Done fields = field fields _ λ a. field fields _ λ b. field fields _ λ c.
      field fields _ λ u. converted _ λ d. field fields _ λ v. converted _ λ e. field fields _ λ w.
        converted _ λ f. field fields _ λ x. converted _ λ g. field fields _ λ y. converted _ λ h.
          field fields _ λ z. converted _ λ i. field fields _ λ j. field fields _ λ k. returns tt

  decode_execution-Done : (fields : Fields) → Done (decode_execution t fields)
  unfolding decode_execution
  decode_execution-Done fields = field fields _ λ a. field fields _ λ b. field fields _ λ c.
      field fields _ λ d. field fields _ λ u. converted _ λ e. field fields _ λ v. converted _ λ f.
        field fields _ λ w. converted _ λ g.
          field fields _ λ x. converted _ λ h. field fields _ λ i. field fields _ λ j. returns tt

  decode-Done : (json : Text) → Done (decode t json)
  unfolding decode decode_fields decode_as
  decode-Done json = Ends-bind (parse_object-Ends json) λ fields h. field fields _ λ type.
      Ends-if (text_eq type (codes "order")) (decode_order-Done fields) (
        Ends-if (text_eq type (codes "execution")) (decode_execution-Done fields)
          (throws unrecognized_type))

  -- On every text `decode` returns an event or throws: its loop ends within as many turns as the text has
  -- characters.
  pub decode_ends :
      (json : Text)
      → ((e : Event F) × (decode t json ≡ ok e)) ⊎ ((e : Fault) × (decode t json ≡ err e))
  decode_ends json = Ends-cases (decode-Done json)
