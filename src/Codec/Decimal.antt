-- ===== src/Codec/Decimal.antt =====
-- int64_t in decimal: what `oss << n` writes and std::stoll reads.
use trade_surveillance_engin.Prelude.{
  ℕ, zero, suc, ◌+◌, ◌-◌, ◌*◌, ◌/◌, ◌%◌, ◌≤◌, ◌<◌, ◌≡◌, ◌≢◌, ◌∙◌, refl, Bool, true, false, ◌&&◌,
  ◌||◌, Option, none, some, [], ◌∷◌, Text, ltb, leb, ◌==◌, if◌then◌else◌, ℤ, pos, negsuc,
  Bool-cases, inl, inr, arith,
}

-- `fuel` bounds the number of digits.
unfoldable pub digits : ℕ → ℕ → Text → Text
digits zero n rest = rest
digits (suc fuel) n rest = elim (ltb n 10) [
  | true ↦ (48 + n) ∷ rest
  | false ↦ digits fuel (n / 10) ((48 + n % 10) ∷ rest)
]

-- Twenty digits are enough for 64 bits.
unfoldable pub print_int : ℤ → Text
print_int (pos n) = digits 20 n []
print_int (negsuc n) = b'-' ∷ digits 20 (n + 1) []

abbrev pub is_digit : ℕ → Bool
is_digit c = leb 48 c && leb c 57

-- std::isspace
abbrev pub is_space : ℕ → Bool
is_space c = c == 32 || (leb 9 c && leb c 13)

unfoldable pub skip_ws : Text → Text
skip_ws [] = []
skip_ws (c ∷ rest) = if is_space c then skip_ws rest else c ∷ rest

unfoldable pub read_digits : ℕ → Text → ℕ
read_digits n [] = n
read_digits n (c ∷ rest) = elim (is_digit c) [
  | true ↦ read_digits (n * 10 + (c - 48)) rest
  | false ↦ n
]

abbrev starts_number : Text → Bool
starts_number [] = false
starts_number (c ∷ rest) = is_digit c

-- Out of the range of int64_t, std::stoll throws.
unfoldable pub in_range : Bool → ℕ → Option ℤ
in_range false n = if leb n 9_223_372_036_854_775_807 then some (pos n) else none
in_range true zero = some (pos 0)
in_range true (suc n) = if leb n 9_223_372_036_854_775_807 then some (negsuc n) else none

unfoldable pub read_unsigned : Bool → Text → Option ℤ
unfolding read_digits in_range
read_unsigned negative text =
    if starts_number text then in_range negative (read_digits 0 text) else none

unfoldable pub read_signed : Text → Option ℤ
unfolding read_unsigned
read_signed [] = none
read_signed (c ∷ rest) =
    if c == b'-'
    then read_unsigned true rest
    else if c == b'+'
    then read_unsigned false rest
    else read_unsigned false (c ∷ rest)

unfoldable pub read_int : Text → Option ℤ
unfolding skip_ws read_signed
read_int text = read_signed (skip_ws text)

abbrev pub IsInt64 : ℤ → Type 0
IsInt64 (pos n) = n ≤ 9_223_372_036_854_775_807
IsInt64 (negsuc n) = n ≤ 9_223_372_036_854_775_807

abbrev pub power : ℕ → ℕ
power zero = 1
power (suc n) = 10 * power n

read_digits-digit :
    (n d : ℕ) (rest : Text)
    → d < 10
    → read_digits n ((48 + d) ∷ rest) ≡ read_digits (n * 10 + d) rest
unfolding read_digits
read_digits-digit n d rest h =
    let e : 48 + d - 48 ≡ d = omega arith in
    let t : is_digit (48 + d) ≡ true = ground arith in rw (t, read_digits, e) refl

-- Reading goes on behind the digits with the number that they write.
pub read_digits-digits :
    (fuel n : ℕ) (rest : Text)
    → n < power (suc fuel)
    → read_digits 0 (digits (suc fuel) n rest) ≡ read_digits n rest
unfolding digits
read_digits-digits zero n rest h =
    let small : ltb n 10 ≡ true = ground arith in
    let e : 0 * 10 + n ≡ n = omega arith in
    rw (small, digits) (rw e at (read_digits-digit 0 n rest (omega arith)))
read_digits-digits (suc fuel) n rest h = elim (Bool-cases (ltb n 10)) [
  | inl small ↦
      let e : 0 * 10 + n ≡ n = omega arith in
      rw (small, digits) (rw e at (read_digits-digit 0 n rest (ground arith)))
  | inr large ↦
      let e : n / 10 * 10 + n % 10 ≡ n = omega arith in
      rw (large, digits)
        (read_digits-digits fuel (n / 10) ((48 + n % 10) ∷ rest) (omega arith)
          ∙ (rw e at (read_digits-digit (n / 10) (n % 10) rest (omega arith))))
]

-- What may stand in a number of the wire format.
abbrev pub is_number_char : ℕ → Bool
is_number_char c = is_digit c || c == b'-' || c == b'+' || c == b'.' || c == b'e' || c == b'E'

abbrev pub AllNumber : Text → Type 0
AllNumber [] = Unit {0}
AllNumber (c ∷ rest) = (is_number_char c ≡ true) × AllNumber rest

abbrev pub IsNumber : Text → Type 0
IsNumber text = (text ≢ []) × AllNumber text

digit_char : (d : ℕ) → d < 10 → (is_digit (48 + d) ≡ true) × (is_number_char (48 + d) ≡ true)
digit_char d h = (ground arith, ground arith)

-- The digits begin with a digit and add nothing but digits.
digits_lem :
    (fuel n : ℕ) (rest : Text)
    → AllNumber rest
    → AllNumber (digits (suc fuel) n rest) × (starts_number (digits (suc fuel) n rest) ≡ true)
unfolding digits
digits_lem zero n rest h = elim (Bool-cases (ltb n 10)) [
  | inl small ↦
      let (digit, char) = digit_char n (ground arith) in rw (small, digits) ((char, h), digit)
  | inr large ↦
      let (digit, char) = digit_char (n % 10) (omega arith) in rw (large, digits) ((char, h), digit)
]
digits_lem (suc fuel) n rest h = elim (Bool-cases (ltb n 10)) [
  | inl small ↦
      let (digit, char) = digit_char n (ground arith) in rw (small, digits) ((char, h), digit)
  | inr large ↦
      let (digit, char) = digit_char (n % 10) (omega arith) in
      rw (large, digits) (digits_lem fuel (n / 10) ((48 + n % 10) ∷ rest) (char, h))
]

starts_ne_nil : (text : Text) → starts_number text ≡ true → text ≢ []
starts_ne_nil [] h e = cc
starts_ne_nil (c ∷ text) h e = cc

pub print_int-IsNumber : (n : ℤ) → IsNumber (print_int n)
unfolding print_int
print_int-IsNumber (pos n) =
    let (all, first) = digits_lem 19 n [] tt in (starts_ne_nil _ first, all)
print_int-IsNumber (negsuc n) =
    let (all, first) = digits_lem 19 (n + 1) [] tt in (λ e. cc, (refl, all))

read_unsigned-digits :
    (negative : Bool) (n : ℕ)
    → n ≤ 9_223_372_036_854_775_808
    → read_unsigned negative (digits 20 n []) ≡ in_range negative n
unfolding read_unsigned
read_unsigned-digits negative n h =
    let (all, first) = digits_lem 19 n [] tt in
    rw (first, read_unsigned)
      (rw (read_digits-digits 19 n [] (omega arith)) (unfold read_digits in refl))

-- The first character of digits is neither a space nor a sign.
read_int-digits :
    (text : Text) → starts_number text ≡ true → read_int text ≡ read_unsigned false text
unfolding read_int
read_int-digits [] h = cc
read_int-digits (c ∷ text) h = ground arith

read_int-minus : (text : Text) → read_int (b'-' ∷ text) ≡ read_unsigned true text
unfolding read_int
read_int-minus text = refl

in_range-negsuc : (n : ℕ) → IsInt64 (negsuc n) → in_range true (n + 1) ≡ some (negsuc n)
unfolding in_range
in_range-negsuc n h = let e : n + 1 ≡ suc n = omega arith in rw (e, in_range) (ground arith)

-- Every int64_t that is written is read back.
pub read_int-print_int : (n : ℤ) → IsInt64 n → read_int (print_int n) ≡ some n
unfolding print_int in_range
read_int-print_int (pos n) h =
    let (all, first) = digits_lem 19 n [] tt in
    read_int-digits (digits 20 n []) first
    ∙ read_unsigned-digits false n (omega arith)
    ∙ ground arith
read_int-print_int (negsuc n) h =
    read_int-minus (digits 20 (n + 1) [])
    ∙ read_unsigned-digits true (n + 1) (omega arith)
    ∙ in_range-negsuc n h
