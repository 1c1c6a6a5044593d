-- ===== src/Codec/Members.antt =====
-- What `encode` writes as a list of members, and how the parser reads one of them.
use trade_surveillance_engin.Prelude.{
  ℕ, ◌≡◌, refl, ◌∙◌, ap, true, false, [], ◌∷◌, ◌++◌, append_assoc, Text, ◌==◌, Bool-cases, ==_iff,
  inl, inr, arith,
}
use trade_surveillance_engin.Codec.{escape_char, escape_json}
use trade_surveillance_engin.Codec.Decimal.{is_number_char, is_space, skip_ws, IsNumber, AllNumber}
use trade_surveillance_engin.Codec.Parser.{
  ok, peek, expect, unescape, push, scan_string, parse_raw_string, scan_number, number_or_fault,
  parse_raw_number, parse_value, front,
}

scan_string-plain :
    (c : ℕ) (rest : Text)
    → (c == b'"') ≡ false
    → (c == b'\\') ≡ false
    → scan_string (c ∷ rest) ≡ push c (scan_string rest)
unfolding scan_string unescape
scan_string-plain c [] h k = ground arith
scan_string-plain c (d ∷ rest) h k = ground arith

scan_string-escape_char :
    (c : ℕ) (rest : Text) → scan_string (escape_char c ++ rest) ≡ push c (scan_string rest)
unfolding escape_char scan_string unescape
scan_string-escape_char c rest = elim (Bool-cases (c == b'"')) [
  | inl quote ↦ rw ((==_iff c b'"').0 quote) refl
  | inr h ↦ elim (Bool-cases (c == b'\\')) [
    | inl backslash ↦ rw ((==_iff c b'\\').0 backslash) refl
    | inr k ↦ elim (Bool-cases (c == b'\n')) [
      | inl line ↦ rw ((==_iff c b'\n').0 line) refl
      | inr l ↦ rw (h, escape_char, k, l) (scan_string-plain c rest h k)
    ]
  ]
]

scan_string-escape_json :
    (v rest : Text) → scan_string (escape_json v ++ b'"' ∷ rest) ≡ (v, b'"' ∷ rest)
unfolding escape_json
scan_string-escape_json [] [] = unfold scan_string in refl
scan_string-escape_json [] (c ∷ rest) = unfold scan_string in refl
scan_string-escape_json (c ∷ v) rest = rw append_assoc (
    scan_string-escape_char c (escape_json v ++ b'"' ∷ rest)
    ∙ ap (push c) (scan_string-escape_json v rest))

pub expect_lem : (c : ℕ) (rest : Text) → is_space c ≡ false → expect c (c ∷ rest) ≡ ok rest
unfolding expect peek front skip_ws
expect_lem c rest h = ground (arith, h)

pub peek_lem : (c : ℕ) (rest : Text) → is_space c ≡ false → peek (c ∷ rest) ≡ ok (c, c ∷ rest)
unfolding peek front skip_ws
peek_lem c rest h = ground (arith, h)

pub skip_ws_lem : (c : ℕ) (rest : Text) → is_space c ≡ false → skip_ws (c ∷ rest) ≡ c ∷ rest
unfolding skip_ws
skip_ws_lem c rest h = ground (arith, h)

-- Every text, escaped and quoted, is read back.
pub parse_raw_string-escape_json :
    (v rest : Text) → parse_raw_string (b'"' ∷ (escape_json v ++ b'"' ∷ rest)) ≡ ok (v, rest)
unfolding parse_raw_string
parse_raw_string-escape_json v rest =
    rw
      (
        expect_lem b'"' (escape_json v ++ b'"' ∷ rest) refl,
        parse_raw_string,
        scan_string-escape_json v rest,
        expect_lem b'"' rest refl,
      )
      refl

scan_number-number :
    (n : Text) (c : ℕ) (rest : Text)
    → AllNumber n
    → is_number_char c ≡ false
    → scan_number (n ++ c ∷ rest) ≡ (n, c ∷ rest)
unfolding scan_number
scan_number-number [] c rest h k = rw (k, scan_number)
scan_number-number (d ∷ n) c rest h k =
    rw (h.0, scan_number) (ap (push d) (scan_number-number n c rest h.1 k))

parse_raw_number-number :
    (n : Text) (c : ℕ) (rest : Text)
    → IsNumber n
    → is_number_char c ≡ false
    → parse_raw_number (n ++ c ∷ rest) ≡ ok (n, c ∷ rest)
unfolding parse_raw_number number_or_fault
parse_raw_number-number [] c rest h k = absurd (h.0 refl)
parse_raw_number-number (d ∷ n) c rest h k =
    rw (scan_number-number (d ∷ n) c rest h.1 k, parse_raw_number) refl

-- A value as text, read back where a comma or the closing brace follows.
abbrev pub Reads : Text → Text → Type 0
Reads raw value =
    (c : ℕ) (rest : Text)
    → is_number_char c ≡ false
    → parse_value (raw ++ c ∷ rest) ≡ ok (value, c ∷ rest)

pub Reads-string : (v : Text) → Reads (b'"' ∷ (escape_json v ++ b'"' ∷ [])) v
unfolding parse_value
Reads-string v c rest h =
    let s = escape_json v ++ b'"' ∷ c ∷ rest in
    let e : (b'"' ∷ (escape_json v ++ b'"' ∷ [])) ++ c ∷ rest ≡ b'"' ∷ s =
      ap (λ u. b'"' ∷ u) (append_assoc (escape_json v) (b'"' ∷ []) (c ∷ rest)) in
    rw (e, skip_ws_lem b'"' s refl, parse_value, peek_lem b'"' s refl)
      (parse_raw_string-escape_json v (c ∷ rest))

not_space : (c : ℕ) → is_number_char c ≡ true → (is_space c ≡ false) × ((c == b'"') ≡ false)
not_space c h = (ground arith, ground arith)

pub Reads-number : (n : Text) → IsNumber n → Reads n n
unfolding parse_value
Reads-number [] h c rest k = absurd (h.0 refl)
Reads-number (d ∷ n) h c rest k =
    let (space, quote) = not_space d h.1.0 in
    rw (skip_ws_lem d (n ++ c ∷ rest) space, parse_value, peek_lem d (n ++ c ∷ rest) space, quote)
      (parse_raw_number-number (d ∷ n) c rest h k)
