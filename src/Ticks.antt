-- ===== src/Ticks.antt =====
-- Whole ticks in place of doubles, for the concrete runs of the tests: an order that meets the laws
-- of `Double` and `IsTotal`. The arithmetic is that of the natural numbers. And the events of those runs.
use trade_surveillance_engin.Prelude.{
  ℕ, ◌+◌, ◌-◌, ◌*◌, ◌/◌, ◌≡◌, true, false, arith, ltb, leb, pos_part, Double, IsTotal, [], Text,
  codes, pos,
}
use trade_surveillance_engin.Fix.{buy, Order, Execution, limit, new}

pub ltb_irrefl : (a : ℕ) → ltb a a ≡ false
ltb_irrefl a = ground arith

pub ltb_trans : (a b c : ℕ) → ltb a b ≡ true → ltb b c ≡ true → ltb a c ≡ true
ltb_trans a b c h k = ground arith

pub not-ltb_of_leb : (a b : ℕ) → leb a b ≡ true → ltb b a ≡ false
not-ltb_of_leb a b h = ground arith

instance abbrev pub ticks : Double ℕ
ticks = record {
  lt = ltb;
  le = leb;
  add = λ a b. a + b;
  sub = λ a b. a - b;
  mul = λ a b. a * b;
  div = λ a b. a / b;
  sqrt = λ a. a;
  abs = λ a. a;
  of_int = λ a. pos_part a;
  print = λ a. [];
  print_int = λ a. [];
  lt_irrefl = ltb_irrefl;
  lt_trans = ltb_trans;
  not_lt_of_le = not-ltb_of_leb;
}

pub ticks_total : (a b : ℕ) → ltb a b ≡ false → ltb b a ≡ false → a ≡ b
ticks_total a b h k = ground arith

instance abbrev pub ticks_IsTotal : IsTotal ℕ
ticks_IsTotal = record { eq_of_not_lt = ticks_total }

abbrev pub new_order : Text → ℕ → Order ℕ
new_order id qty = record {
  order_id = id;
  account_id = codes "acct";
  instrument_id = codes "AAPL";
  side = buy;
  price = 100;
  qty = pos qty;
  order_type = limit;
  timestamp_ns = pos 7;
  status = new;
  venue = [];
  orig_order_id = [];
}

abbrev pub fill_a : ℕ → Execution ℕ
fill_a qty = record {
  trade_id = codes "T";
  order_id = codes "A";
  account_id = codes "acct";
  instrument_id = codes "AAPL";
  side = buy;
  price = 100;
  qty = pos qty;
  timestamp_ns = pos 9;
  counterparty_account_id = [];
  venue = [];
}
