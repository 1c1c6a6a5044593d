-- ===== src/Codec/RoundTrip.antt =====
-- What was encoded is decoded.
use trade_surveillance_engin.Prelude.{
  ℕ, zero, suc, ◌<◌, ◌≡◌, refl, ◌∙◌, ap, false, List, [], ◌∷◌, ◌++◌, append_assoc, Text, text_eq,
  put, length, length-append, arith,
}
use trade_surveillance_engin.Codec.{escape_json, write_key}
use trade_surveillance_engin.Codec.Decimal.{is_number_char, is_space}
use trade_surveillance_engin.Codec.Parser.{
  ok, peek, Fields, parse_member, parse_members, parse_object,
}
use trade_surveillance_engin.Codec.Members.{
  Reads, parse_raw_string-escape_json, expect_lem, peek_lem, skip_ws_lem,
}

-- A member: its key, which needs no escape, its value and the text of its value.
pub record Member : Type 0 where
  pub key : Text
  pub raw : Text
  pub value : Text
  pub plain : escape_json key ≡ key
  pub reads : Reads raw value

abbrev key_text : Member → Text
key_text m = write_key m.key

-- A member, and what comes behind it.
abbrev pub joined : Member → Text → Text
joined m more = write_key m.key ++ (m.raw ++ more)

abbrev pub print_members : Member → List Member → Text
print_members m [] = joined m []
print_members m (n ∷ ms) = joined m (b',' ∷ print_members n ms)

abbrev pub store : Fields → Member → List Member → Fields
store fields m [] = put text_eq m.key m.value fields
store fields m (n ∷ ms) = store (put text_eq m.key m.value fields) n ms

joined_lem :
    (m : Member) (more : Text)
    → joined m more ≡ b'"' ∷ (escape_json m.key ++ b'"' ∷ b':' ∷ (m.raw ++ more))
joined_lem m more =
    rw m.plain (ap (λ u. b'"' ∷ u) (append_assoc m.key (b'"' ∷ b':' ∷ []) (m.raw ++ more)))

parse_member-joined :
    (fields : Fields) (m : Member) (c : ℕ) (rest : Text)
    → is_number_char c ≡ false
    → is_space c ≡ false
    → parse_member fields (joined m (c ∷ rest)) ≡ ok (put text_eq m.key m.value fields, c ∷ rest)
unfolding parse_member
parse_member-joined fields m c rest h k =
    let tail = b':' ∷ (m.raw ++ c ∷ rest) in
    rw
      (
        joined_lem m (c ∷ rest),
        parse_member,
        skip_ws_lem b'"' (escape_json m.key ++ b'"' ∷ tail) refl,
        parse_raw_string-escape_json m.key tail,
        skip_ws_lem b':' (m.raw ++ c ∷ rest) refl,
        expect_lem b':' (m.raw ++ c ∷ rest) refl,
        m.reads c rest h,
        skip_ws_lem c rest k,
      )
      refl

joined-append : (m : Member) (more rest : Text) → joined m more ++ rest ≡ joined m (more ++ rest)
joined-append m more rest =
    append_assoc (write_key m.key) (m.raw ++ more) rest
    ∙ ap (λ u. write_key m.key ++ u) (append_assoc m.raw more rest)

-- Fuel for the number of members is enough.
parse_members-print_members :
    (fuel : ℕ) (fields : Fields) (m : Member) (ms : List Member) (rest : Text)
    → length ms < fuel
    → parse_members fuel fields (print_members m ms ++ b'}' ∷ rest)
      ≡ ok (store fields m ms, b'}' ∷ rest)
unfolding parse_members
parse_members-print_members zero fields m ms rest h = absurd (omega arith)
parse_members-print_members (suc fuel) fields m [] rest h =
    rw
      (
        joined-append m [] (b'}' ∷ rest),
        parse_members,
        parse_member-joined fields m b'}' rest refl refl,
        peek_lem b'}' rest refl,
      )
      refl
parse_members-print_members (suc fuel) fields m (n ∷ ms) rest h =
    let more = print_members n ms ++ b'}' ∷ rest in
    rw
      (
        joined-append m (b',' ∷ print_members n ms) (b'}' ∷ rest),
        parse_members,
        parse_member-joined fields m b',' more refl refl,
        peek_lem b',' more refl,
      )
      (parse_members-print_members fuel (put text_eq m.key m.value fields) n ms rest (omega arith))

first_peek :
    (m : Member) (ms : List Member) (rest : Text)
    → peek (print_members m ms ++ rest) ≡ ok (b'"', print_members m ms ++ rest)
first_peek m [] rest = peek_lem b'"' _ refl
first_peek m (n ∷ ms) rest = peek_lem b'"' _ refl

length-print_members : (m : Member) (ms : List Member) → length ms < length (print_members m ms)
length-print_members m [] = omega arith
length-print_members m (n ∷ ms) = omega (
  arith,
  length-print_members n ms,
  length-append (write_key m.key) (m.raw ++ b',' ∷ print_members n ms),
  length-append m.raw (b',' ∷ print_members n ms),
)

-- The parser returns the members of an object that was printed.
pub parse_object-print_members :
    (m : Member) (ms : List Member)
    → parse_object (b'{' ∷ (print_members m ms ++ b'}' ∷ [])) ≡ ok (store [] m ms)
unfolding parse_object
parse_object-print_members m ms =
    let text = print_members m ms ++ b'}' ∷ [] in
    let enough : length ms < length (b'{' ∷ text) =
      omega (arith, length-print_members m ms, length-append (print_members m ms) (b'}' ∷ [])) in
    rw
      (
        expect_lem b'{' text refl,
        parse_object,
        first_peek m ms (b'}' ∷ []),
        parse_members-print_members (length (b'{' ∷ text)) [] m ms [] enough,
        expect_lem b'}' [] refl,
      )
      refl
