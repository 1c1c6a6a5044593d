-- ===== src/Codec/Parser.antt =====
-- cpp/ingestion/event_codec.cpp: FlatJsonParser and `decode`. A parser takes the text from `pos_` on and
-- returns what is left of it. The loop over the members takes fuel.
use trade_surveillance_engin.Prelude.{
  ℕ, zero, suc, true, false, List, [], ◌∷◌, Text, codes, text_eq, find, put, ◌==◌, Option, none,
  some, length, if◌then◌else◌,
}
use trade_surveillance_engin.Fix.{
  Event, order, execution, side_from_string, order_type_from_string, order_status_from_string,
}
use trade_surveillance_engin.Codec.{DoubleText}
use trade_surveillance_engin.Codec.Decimal.{is_number_char, skip_ws, read_int}

-- What is thrown. `bad_value` is a number or a name that is refused.
pub data Fault : Type 0 where
  unexpected_end expected_number unrecognized_type bad_value : Fault
  expected : ℕ → Fault
  missing_field : Text → Fault

pub data Result {ℓ} (A : Type ℓ) : Type ℓ where
  ok : A → Result A
  err : Fault → Result A
  out_of_fuel : Result A

infixl 5 ◌>>=◌
abbrev pub ◌>>=◌ {ℓ κ} : {A : Type ℓ} {B : Type κ} → Result A → (A → Result B) → Result B
(ok a) >>= f = f a
(err e) >>= f = err e
out_of_fuel >>= f = out_of_fuel

-- The character behind the spaces, left in the text.
unfoldable pub front : Text → Result (ℕ × Text)
front [] = err unexpected_end
front (c ∷ rest) = ok (c, c ∷ rest)

unfoldable pub peek : Text → Result (ℕ × Text)
unfolding front skip_ws
peek text = front (skip_ws text)

abbrev pub after : Text → Text
after [] = []
after (c ∷ rest) = rest

unfoldable pub expect : ℕ → Text → Result Text
unfolding peek
expect c text = do (d, rest) ← peek text; if d == c then ok (after rest) else err (expected c)

-- What an escape of two characters stands for.
unfoldable pub unescape : ℕ → ℕ → Option ℕ
unescape c next =
    if c == b'\\'
    then (if next == b'"'
        then some b'"'
        else if next == b'\\'
        then some b'\\'
        else if next == b'n'
        then some b'\n'
        else none)
    else none

abbrev pub push : ℕ → Text × Text → Text × Text
push c (out, rest) = (c ∷ out, rest)

-- The loop up to the closing quote, which is left.
unfoldable pub scan_string : Text → Text × Text
unfolding unescape
scan_string [] = ([], [])
scan_string (c ∷ []) = elim (c == b'"') [ true ↦ ([], c ∷ []) | false ↦ (c ∷ [], []) ]
scan_string (c ∷ next ∷ rest) = elim (c == b'"') [
  | true ↦ ([], c ∷ next ∷ rest)
  | false ↦ elim (unescape c next) [
    | some d ↦ push d (scan_string rest)
    | none ↦ push c (scan_string (next ∷ rest))
  ]
]

unfoldable pub parse_raw_string : Text → Result (Text × Text)
parse_raw_string text = do
  rest ← expect b'"' text
  let (out, rest) = scan_string rest
  rest ← expect b'"' rest
  ok (out, rest)

unfoldable pub scan_number : Text → Text × Text
scan_number [] = ([], [])
scan_number (c ∷ rest) = elim (is_number_char c) [
  | true ↦ push c (scan_number rest)
  | false ↦ ([], c ∷ rest)
]

unfoldable pub number_or_fault : Text × Text → Result (Text × Text)
number_or_fault ([], rest) = err expected_number
number_or_fault (c ∷ out, rest) = ok (c ∷ out, rest)

unfoldable pub parse_raw_number : Text → Result (Text × Text)
parse_raw_number text = number_or_fault (scan_number text)

abbrev pub Fields : Type 0
Fields = List (Text × Text)

unfoldable pub parse_value : Text → Result (Text × Text)
parse_value text = do
  (c, rest) ← peek (skip_ws text)
  if c == b'"' then parse_raw_string rest else parse_raw_number rest

-- One turn of the loop: a member is stored.
unfoldable pub parse_member : Fields → Text → Result (Fields × Text)
parse_member fields text = do
  (key, rest) ← parse_raw_string (skip_ws text)
  rest ← expect b':' (skip_ws rest)
  (value, rest) ← parse_value rest
  ok (put text_eq key value fields, skip_ws rest)

unfoldable pub parse_members : ℕ → Fields → Text → Result (Fields × Text)
parse_members zero fields text = out_of_fuel
parse_members (suc fuel) fields text = do
  (fields, rest) ← parse_member fields text
  (c, rest) ← peek rest
  elim (c == b',') [ true ↦ parse_members fuel fields (after rest) | false ↦ ok (fields, rest) ]

-- Each turn takes characters of the text.
unfoldable pub parse_object : Text → Result Fields
parse_object text = do
  rest ← expect b'{' text
  (c, rest) ← peek rest
  if c == b'}' then ok [] else do
    (fields, rest) ← parse_members (length text) [] rest
    rest ← expect b'}' rest
    ok fields

unfoldable pub require : Fields → Text → Result Text
require fields key = elim (find text_eq key fields) [
  | none ↦ err (missing_field key)
  | some value ↦ ok value
]

abbrev pub or_bad {ℓ} : {A : Type ℓ} → Option A → Result A
or_bad none = err bad_value
or_bad (some a) = ok a

module _ {F : Type 0} (t : DoubleText F) where
  unfoldable pub decode_order : Fields → Result (Event F)
  unfolding require
  decode_order fields = do
    order_id ← require fields (codes "order_id")
    account_id ← require fields (codes "account_id")
    instrument_id ← require fields (codes "instrument_id")
    side ← or_bad (side_from_string (← require fields (codes "side")))
    price ← or_bad (t.read (← require fields (codes "price")))
    qty ← or_bad (read_int (← require fields (codes "qty")))
    order_type ← or_bad (order_type_from_string (← require fields (codes "order_type")))
    timestamp_ns ← or_bad (read_int (← require fields (codes "timestamp_ns")))
    status ← or_bad (order_status_from_string (← require fields (codes "status")))
    venue ← require fields (codes "venue")
    orig_order_id ← require fields (codes "orig_order_id")
    ok (
        order (record {
          order_id = order_id;
          account_id = account_id;
          instrument_id = instrument_id;
          side = side;
          price = price;
          qty = qty;
          order_type = order_type;
          timestamp_ns = timestamp_ns;
          status = status;
          venue = venue;
          orig_order_id = orig_order_id;
        }))

  unfoldable pub decode_execution : Fields → Result (Event F)
  unfolding require
  decode_execution fields = do
    trade_id ← require fields (codes "trade_id")
    order_id ← require fields (codes "order_id")
    account_id ← require fields (codes "account_id")
    instrument_id ← require fields (codes "instrument_id")
    side ← or_bad (side_from_string (← require fields (codes "side")))
    price ← or_bad (t.read (← require fields (codes "price")))
    qty ← or_bad (read_int (← require fields (codes "qty")))
    timestamp_ns ← or_bad (read_int (← require fields (codes "timestamp_ns")))
    counterparty_account_id ← require fields (codes "counterparty_account_id")
    venue ← require fields (codes "venue")
    ok (
        execution (record {
          trade_id = trade_id;
          order_id = order_id;
          account_id = account_id;
          instrument_id = instrument_id;
          side = side;
          price = price;
          qty = qty;
          timestamp_ns = timestamp_ns;
          counterparty_account_id = counterparty_account_id;
          venue = venue;
        }))

  unfoldable pub decode_as : Text → Fields → Result (Event F)
  unfolding decode_order decode_execution
  decode_as type fields =
      if text_eq type (codes "order")
      then decode_order fields
      else if text_eq type (codes "execution")
      then decode_execution fields
      else err unrecognized_type

  unfoldable pub decode_fields : Fields → Result (Event F)
  unfolding require decode_as
  decode_fields fields = do type ← require fields (codes "type"); decode_as type fields

  unfoldable pub decode : Text → Result (Event F)
  decode json = do fields ← parse_object json; decode_fields fields
