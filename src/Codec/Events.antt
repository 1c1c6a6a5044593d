-- ===== src/Codec/Events.antt =====
-- An event as the members that `encode` writes, and what `decode` makes of them.
use trade_surveillance_engin.Prelude.{
  ◌≡◌, refl, ◌∙◌, true, false, List, [], ◌∷◌, ◌++◌, append_assoc, append-nil, Text, codes, text_eq,
  find, put, some,
}
use trade_surveillance_engin.Fix.{
  Order, Execution, Event, order, execution, side_to_string, order_type_to_string,
  order_status_to_string,
}
use trade_surveillance_engin.Fix.Names.{
  side_from_string-to_string, order_type_from_string-to_string, order_status_from_string-to_string,
}
use trade_surveillance_engin.Codec.{
  DoubleText, escape_json, escape_char, write_key, write_string_field, write_number, encode_order,
  encode_execution, encode_body, encode,
}
use trade_surveillance_engin.Codec.Decimal.{
  IsNumber, IsInt64, print_int, print_int-IsNumber, read_int-print_int,
}
use trade_surveillance_engin.Codec.Parser.{
  ok, require, decode_order, decode_execution, decode_as, decode_fields, decode,
}
use trade_surveillance_engin.Codec.Members.{Reads-string, Reads-number}
use trade_surveillance_engin.Codec.RoundTrip.{
  Member, joined, print_members, store, parse_object-print_members,
}

abbrev string_member : (key value : Text) → escape_json key ≡ key → Member
string_member key value h = record {
  key = key;
  raw = b'"' ∷ (escape_json value ++ b'"' ∷ []);
  value = value;
  plain = h;
  reads = Reads-string value;
}

abbrev number_member : (key number : Text) → escape_json key ≡ key → IsNumber number → Member
number_member key number h n = record {
  key = key;
  raw = number;
  value = number;
  plain = h;
  reads = Reads-number number n;
}

string_field :
    (key value : Text) {more more' : Text} (h : escape_json key ≡ key)
    → more ≡ more'
    → write_string_field key value true ++ more ≡ joined (string_member key value h) (b',' ∷ more')
string_field key value {more} {more'} h e =
    rw e (append_assoc (write_key key) _ more' ∙ simp append_assoc)

last_field :
    (key value : Text) (h : escape_json key ≡ key)
    → write_string_field key value false ≡ joined (string_member key value h) []
last_field key value h = simp append-nil

number_field :
    (key number : Text) {more more' : Text} (h : escape_json key ≡ key) (n : IsNumber number)
    → more ≡ more'
    → write_number key number ++ more ≡ joined (number_member key number h n) (b',' ∷ more')
number_field key number {more} {more'} h n e =
    rw e (append_assoc (write_key key) _ more' ∙ simp append_assoc)

abbrev type_member : Text → Member
unfolding escape_json escape_char
type_member name = string_member (codes "type") name refl

module _ {F : Type 0} (t : DoubleText F) where
  abbrev order_members : (o : Order F) → IsNumber (t.write o.price) → List Member
  unfolding escape_json escape_char
  order_members o price =
      string_member (codes "order_id") o.order_id refl
      ∷ string_member (codes "account_id") o.account_id refl
      ∷ string_member (codes "instrument_id") o.instrument_id refl
      ∷ string_member (codes "side") (side_to_string o.side) refl
      ∷ number_member (codes "price") (t.write o.price) refl price
      ∷ number_member (codes "qty") (print_int o.qty) refl (print_int-IsNumber o.qty)
      ∷ string_member (codes "order_type") (order_type_to_string o.order_type) refl
      ∷ number_member (codes "timestamp_ns") (print_int o.timestamp_ns) refl
          (print_int-IsNumber o.timestamp_ns)
      ∷ string_member (codes "status") (order_status_to_string o.status) refl
      ∷ string_member (codes "venue") o.venue refl
      ∷ string_member (codes "orig_order_id") o.orig_order_id refl
      ∷ []

  abbrev execution_members : (x : Execution F) → IsNumber (t.write x.price) → List Member
  unfolding escape_json escape_char
  execution_members x price =
      string_member (codes "trade_id") x.trade_id refl
      ∷ string_member (codes "order_id") x.order_id refl
      ∷ string_member (codes "account_id") x.account_id refl
      ∷ string_member (codes "instrument_id") x.instrument_id refl
      ∷ string_member (codes "side") (side_to_string x.side) refl
      ∷ number_member (codes "price") (t.write x.price) refl price
      ∷ number_member (codes "qty") (print_int x.qty) refl (print_int-IsNumber x.qty)
      ∷ number_member (codes "timestamp_ns") (print_int x.timestamp_ns) refl
          (print_int-IsNumber x.timestamp_ns)
      ∷ string_member (codes "counterparty_account_id") x.counterparty_account_id refl
      ∷ string_member (codes "venue") x.venue refl
      ∷ []

  encode_order-members :
      (o : Order F) (price : IsNumber (t.write o.price))
      → encode_order t o ≡ print_members (type_member (codes "order")) (order_members o price)
  unfolding encode_order escape_json escape_char
  encode_order-members o price = string_field (codes "type") (codes "order") refl (
      string_field (codes "order_id") o.order_id refl (
        string_field (codes "account_id") o.account_id refl (
          string_field (codes "instrument_id") o.instrument_id refl (
            string_field (codes "side") (side_to_string o.side) refl (
              number_field (codes "price") (t.write o.price) refl price (
                number_field (codes "qty") (print_int o.qty) refl (print_int-IsNumber o.qty) (
                  string_field (codes "order_type") (order_type_to_string o.order_type) refl (
                    number_field (codes "timestamp_ns") (print_int o.timestamp_ns) refl
                      (print_int-IsNumber o.timestamp_ns)
                      (string_field (codes "status") (order_status_to_string o.status) refl (
                        string_field (codes "venue") o.venue refl
                          (last_field (codes "orig_order_id") o.orig_order_id refl)))))))))))

  encode_execution-members :
      (x : Execution F) (price : IsNumber (t.write x.price))
      → encode_execution t x
        ≡ print_members (type_member (codes "execution")) (execution_members x price)
  unfolding encode_execution escape_json escape_char
  encode_execution-members x price = string_field (codes "type") (codes "execution") refl (
      string_field (codes "trade_id") x.trade_id refl (
        string_field (codes "order_id") x.order_id refl (
          string_field (codes "account_id") x.account_id refl (
            string_field (codes "instrument_id") x.instrument_id refl (
              string_field (codes "side") (side_to_string x.side) refl (
                number_field (codes "price") (t.write x.price) refl price (
                  number_field (codes "qty") (print_int x.qty) refl (print_int-IsNumber x.qty) (
                    number_field (codes "timestamp_ns") (print_int x.timestamp_ns) refl
                      (print_int-IsNumber x.timestamp_ns)
                      (string_field (codes "counterparty_account_id") x.counterparty_account_id refl
                        (last_field (codes "venue") x.venue refl))))))))))

  decode_order-members :
      (o : Order F) (price : IsNumber (t.write o.price))
      → t.read (t.write o.price) ≡ some o.price
      → IsInt64 o.qty
      → IsInt64 o.timestamp_ns
      → decode_fields t (store [] (type_member (codes "order")) (order_members o price))
        ≡ ok (order o)
  unfolding escape_json escape_char decode_fields decode_as decode_order require find put text_eq
  decode_order-members o price read qty timestamp =
      rw
        (
          side_from_string-to_string o.side,
          read,
          read_int-print_int o.qty qty,
          order_type_from_string-to_string o.order_type,
          read_int-print_int o.timestamp_ns timestamp,
          order_status_from_string-to_string o.status,
        )
        refl

  decode_execution-members :
      (x : Execution F) (price : IsNumber (t.write x.price))
      → t.read (t.write x.price) ≡ some x.price
      → IsInt64 x.qty
      → IsInt64 x.timestamp_ns
      → decode_fields t (store [] (type_member (codes "execution")) (execution_members x price))
        ≡ ok (execution x)
  unfolding escape_json escape_char decode_fields decode_as decode_execution require find put
      text_eq
  decode_execution-members x price read qty timestamp =
      rw
        (
          side_from_string-to_string x.side,
          read,
          read_int-print_int x.qty qty,
          read_int-print_int x.timestamp_ns timestamp,
        )
        refl

  -- The price is finite, and the numbers are of 64 bits.
  abbrev pub IsEncodable : Event F → Type 0
  IsEncodable (order o) = (t.is_finite o.price ≡ true) × IsInt64 o.qty × IsInt64 o.timestamp_ns
  IsEncodable (execution x) = (t.is_finite x.price ≡ true) × IsInt64 x.qty × IsInt64 x.timestamp_ns

  -- `decode` of what `encode` wrote is the event again, whatever bytes its texts hold, where the price is
  -- finite and the numbers are of 64 bits.
  pub decode-encode : (e : Event F) → IsEncodable e → decode t (encode t e) ≡ ok e
  unfolding decode encode encode_body
  decode-encode (order o) (finite, qty, timestamp) =
      let price = t.write-IsNumber o.price finite in
      rw
        (
          encode_order-members o price,
          parse_object-print_members (type_member (codes "order")) (order_members o price),
        )
        (decode_order-members o price (t.read-write o.price finite) qty timestamp)
  decode-encode (execution x) (finite, qty, timestamp) =
      let price = t.write-IsNumber x.price finite in
      rw
        (
          encode_execution-members x price,
          parse_object-print_members (type_member (codes "execution")) (execution_members x price),
        )
        (decode_execution-members x price (t.read-write x.price finite) qty timestamp)
