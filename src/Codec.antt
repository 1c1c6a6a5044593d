-- ===== src/Codec.antt =====
-- cpp/ingestion/event_codec.cpp: events as lines of JSON. A price as text is a parameter: what a stream
-- of precision 17 writes and std::stod reads.
pub mod Decimal
pub mod Parser
pub mod Members
pub mod RoundTrip
pub mod Events
pub mod Total
mod Tests
use trade_surveillance_engin.Prelude.{
  ℕ, ◌≡◌, Bool, true, false, List, [], ◌∷◌, ◌++◌, Text, codes, ◌==◌, Option, none, some,
  if◌then◌else◌,
}
use trade_surveillance_engin.Fix.{
  Order, Execution, Event, order, execution, side_to_string, order_type_to_string,
  order_status_to_string,
}
use trade_surveillance_engin.Codec.Decimal.{print_int, IsNumber}

-- What the library promises of doubles as text: a finite one is written as a number, and read back.
pub record DoubleText (F : Type 0) : Type 0 where
  pub is_finite : F → Bool
  pub write : F → Text
  pub read : Text → Option F
  pub write-IsNumber : (x : F) → is_finite x ≡ true → IsNumber (write x)
  pub read-write : (x : F) → is_finite x ≡ true → read (write x) ≡ some x

unfoldable pub escape_char : ℕ → Text
escape_char c =
    if c == b'"'
    then b'\\' ∷ b'"' ∷ []
    else if c == b'\\'
    then b'\\' ∷ b'\\' ∷ []
    else if c == b'\n'
    then b'\\' ∷ b'n' ∷ []
    else c ∷ []

unfoldable pub escape_json : Text → Text
unfolding escape_char
escape_json [] = []
escape_json (c ∷ value) = escape_char c ++ escape_json value

-- `"key":`
abbrev pub write_key : Text → Text
write_key key = b'"' ∷ (key ++ b'"' ∷ b':' ∷ [])

abbrev pub comma_if : Bool → Text
comma_if comma = if comma then b',' ∷ [] else []

abbrev pub write_string_field : Text → Text → Bool → Text
write_string_field key value comma =
    write_key key ++ (b'"' ∷ (escape_json value ++ (b'"' ∷ comma_if comma)))

-- A number between its key and a comma.
abbrev pub write_number : Text → Text → Text
write_number key number = write_key key ++ (number ++ b',' ∷ [])

module _ {F : Type 0} (t : DoubleText F) where
  unfoldable pub encode_order : Order F → Text
  encode_order o =
      write_string_field (codes "type") (codes "order") true
      ++ (write_string_field (codes "order_id") o.order_id true
          ++ (write_string_field (codes "account_id") o.account_id true
              ++ (write_string_field (codes "instrument_id") o.instrument_id true
                  ++ (write_string_field (codes "side") (side_to_string o.side) true
                      ++ (write_number (codes "price") (t.write o.price)
                          ++ (write_number (codes "qty") (print_int o.qty)
                              ++ (write_string_field (codes "order_type")
                                    (order_type_to_string o.order_type) true
                                  ++ (write_number (codes "timestamp_ns") (print_int o.timestamp_ns)
                                      ++ (write_string_field (codes "status")
                                            (order_status_to_string o.status) true
                                          ++ (write_string_field (codes "venue") o.venue true
                                              ++ write_string_field (codes "orig_order_id")
                                                  o.orig_order_id false))))))))))

  unfoldable pub encode_execution : Execution F → Text
  encode_execution x =
      write_string_field (codes "type") (codes "execution") true
      ++ (write_string_field (codes "trade_id") x.trade_id true
          ++ (write_string_field (codes "order_id") x.order_id true
              ++ (write_string_field (codes "account_id") x.account_id true
                  ++ (write_string_field (codes "instrument_id") x.instrument_id true
                      ++ (write_string_field (codes "side") (side_to_string x.side) true
                          ++ (write_number (codes "price") (t.write x.price)
                              ++ (write_number (codes "qty") (print_int x.qty)
                                  ++ (write_number (codes "timestamp_ns") (print_int x.timestamp_ns)
                                      ++ (write_string_field (codes "counterparty_account_id")
                                            x.counterparty_account_id true
                                          ++ write_string_field (codes "venue") x.venue
                                              false)))))))))

  unfoldable pub encode_body : Event F → Text
  encode_body (order o) = encode_order o
  encode_body (execution x) = encode_execution x

  unfoldable pub encode : Event F → Text
  unfolding encode_body
  encode e = b'{' ∷ (encode_body e ++ b'}' ∷ [])
