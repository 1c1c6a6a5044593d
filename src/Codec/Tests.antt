-- ===== src/Codec/Tests.antt =====
-- An order with a quote and a line break in its id, through the codec. Prices are whole ticks.
use trade_surveillance_engin.Prelude.{
  ℕ, ℤ, ◌≡◌, refl, ◌⊎◌, true, leb, Option, none, some, pos, pos_part, codes, [], ◌∷◌, arith,
}
use trade_surveillance_engin.Ticks.{new_order}
use trade_surveillance_engin.Fix.{Event, order}
use trade_surveillance_engin.Codec.{DoubleText, encode}
use trade_surveillance_engin.Codec.Decimal.{
  IsNumber, skip_ws, print_int, read_int, print_int-IsNumber, read_int-print_int,
}
use trade_surveillance_engin.Codec.Parser.{
  Fault, unexpected_end, ok, err, decode, parse_object, expect, peek, front,
}
use trade_surveillance_engin.Codec.Events.{decode-encode}
use trade_surveillance_engin.Codec.Total.{decode_ends}

abbrev read_tick : Option ℤ → Option ℕ
read_tick none = none
read_tick (some n) = some (pos_part n)

tick_IsNumber : (n : ℕ) → leb n 1000 ≡ true → IsNumber (print_int (pos n))
tick_IsNumber n h = print_int-IsNumber (pos n)

tick_read : (n : ℕ) → leb n 1000 ≡ true → read_tick (read_int (print_int (pos n))) ≡ some n
tick_read n h = rw (read_int-print_int (pos n) (ground arith)) refl

abbrev tick_text : DoubleText ℕ
tick_text = record {
  is_finite = λ n. leb n 1000;
  write = λ n. print_int (pos n);
  read = λ text. read_tick (read_int text);
  write-IsNumber = tick_IsNumber;
  read-write = tick_read;
}

abbrev quoted : Event ℕ
quoted = order (new_order (b'"' ∷ b'\n' ∷ b'A' ∷ []) 10)

decode-encode_example : decode tick_text (encode tick_text quoted) ≡ ok quoted
decode-encode_example = decode-encode tick_text quoted (refl, omega arith, omega arith)

decode_ends_example :
    ((e : Event ℕ) × (decode tick_text (codes "{") ≡ ok e))
    ⊎ ((e : Fault) × (decode tick_text (codes "{") ≡ err e))
decode_ends_example = decode_ends tick_text (codes "{")

cut_short : decode tick_text (codes "{") ≡ err unexpected_end
unfolding decode parse_object expect peek front skip_ws
cut_short = refl
