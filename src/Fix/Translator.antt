-- ===== src/Fix/Translator.antt =====
-- cpp/fix/message_translator.cpp: the data model to and from FIX 4.2 messages. The messages are those of the
-- QuickFIX library, a parameter: a type of messages with the setting and getting of fields by their tags. An
-- exception, of the library for a missing field or of this code, is `none`. Tags and character codes are the
-- standard's.
pub mod Time
pub mod RoundTrip
mod Tests
use trade_surveillance_engin.Prelude.{
  ℕ, zero, suc, ◌+◌, ◌-◌, ◌*◌, ◌/◌, ◌%◌, ◌==◌, ◌≡◌, ◌<◌, ltb_ℤ, quotient, remainder, times, ℤ, pos,
  negsuc, sub_ℕ, ◌+ℤ◌, ◌-ℤ◌, Text, Bool, true, false, Option, none, some, ◌>>=◌, if◌then◌else◌, [],
  Double,
}
use trade_surveillance_engin.Fix.{
  Side, buy, sell, OrderType, limit, market, new, cancelled, Order, Execution,
}

-- What a field holds: a string, a character, a number, or a FIX::UtcTimeStamp.
pub data Value (F T : Type 0) : Type 0 where
  text_value : Text → Value F T
  char_value : ℕ → Value F T
  number_value : F → Value F T
  time_value : T → Value F T

-- A number field keeps the text of its number: `written` is what is read back from it.
abbrev pub kept_value : {F T : Type 0} → (F → F) → Value F T → Value F T
kept_value written (number_value x) = number_value (written x)
kept_value written v = v

-- The library. FIX::UtcTimeStamp is made of the seconds and the nanoseconds in the second.
pub record Quickfix (F : Type 0) : Type 1 where
  pub Message : Type 0
  pub UtcTimeStamp : Type 0
  pub new_message : Message
  pub set : ℕ → Value F UtcTimeStamp → Message → Message
  pub get : ℕ → Message → Option (Value F UtcTimeStamp)
  pub add_group : Message → Message → Message
  pub get_group : Message → Option Message
  pub written : F → F
  pub make_time : ℤ → ℤ → UtcTimeStamp
  pub time_t_of : UtcTimeStamp → ℤ
  pub fraction_of : UtcTimeStamp → ℤ

-- Its documented behaviour: a field set is found again, the others are as they were, and so is the first
-- group; the parts of a time are those it was made of, with less than a second of nanoseconds.
pub record IsQuickfix {F : Type 0} (q : Quickfix F) : Type 0 where
  pub get_set :
      (t u : ℕ) (v : Value F q.UtcTimeStamp) (m : q.Message)
      → q.get t (q.set u v m) ≡ (if u == t then some (kept_value q.written v) else q.get t m)
  pub get-add_group : (t : ℕ) (g m : q.Message) → q.get t (q.add_group g m) ≡ q.get t m
  pub group_none : q.get_group q.new_message ≡ none
  pub group_set :
      (t : ℕ) (v : Value F q.UtcTimeStamp) (m : q.Message)
      → q.get_group (q.set t v m) ≡ q.get_group m
  pub group_add : (g m : q.Message) → q.get_group m ≡ none → q.get_group (q.add_group g m) ≡ some g
  pub time_t_lem : (s : ℤ) (n : ℕ) → n < 1_000_000_000 → q.time_t_of (q.make_time s (pos n)) ≡ s
  pub fraction_lem :
      (s : ℤ) (n : ℕ) → n < 1_000_000_000 → q.fraction_of (q.make_time s (pos n)) ≡ pos n

abbrev pub account_tag : ℕ
account_tag = 1

abbrev pub avg_px_tag : ℕ
avg_px_tag = 6

abbrev pub cl_ord_id_tag : ℕ
cl_ord_id_tag = 11

abbrev pub cum_qty_tag : ℕ
cum_qty_tag = 14

abbrev pub exec_id_tag : ℕ
exec_id_tag = 17

abbrev pub exec_trans_type_tag : ℕ
exec_trans_type_tag = 20

abbrev pub handl_inst_tag : ℕ
handl_inst_tag = 21

abbrev pub last_mkt_tag : ℕ
last_mkt_tag = 30

abbrev pub last_px_tag : ℕ
last_px_tag = 31

abbrev pub last_shares_tag : ℕ
last_shares_tag = 32

abbrev pub order_id_tag : ℕ
order_id_tag = 37

abbrev pub order_qty_tag : ℕ
order_qty_tag = 38

abbrev pub ord_status_tag : ℕ
ord_status_tag = 39

abbrev pub ord_type_tag : ℕ
ord_type_tag = 40

abbrev pub orig_cl_ord_id_tag : ℕ
orig_cl_ord_id_tag = 41

abbrev pub price_tag : ℕ
price_tag = 44

abbrev pub side_tag : ℕ
side_tag = 54

abbrev pub symbol_tag : ℕ
symbol_tag = 55

abbrev pub transact_time_tag : ℕ
transact_time_tag = 60

abbrev pub ex_destination_tag : ℕ
ex_destination_tag = 100

abbrev pub exec_type_tag : ℕ
exec_type_tag = 150

abbrev pub leaves_qty_tag : ℕ
leaves_qty_tag = 151

abbrev pub contra_broker_tag : ℕ
contra_broker_tag = 375

abbrev pub side_to_fix : Side → ℕ
side_to_fix buy = 49
side_to_fix sell = 50

unfoldable pub side_from_fix : ℕ → Option Side
side_from_fix value = if value == 49 then some buy else if value == 50 then some sell else none

abbrev pub order_type_to_fix : OrderType → ℕ
order_type_to_fix market = 49
order_type_to_fix limit = 50

unfoldable pub order_type_from_fix : ℕ → Option OrderType
order_type_from_fix value =
    if value == 49 then some market else if value == 50 then some limit else none

-- The whole seconds and the nanoseconds of `to_transact_time`.
unfoldable pub split_time : ℤ → ℤ × ℤ
unfolding ◌+ℤ◌ ◌-ℤ◌
split_time timestamp_ns =
    let whole_seconds = quotient timestamp_ns 1_000_000_000 in
    let nanos = remainder timestamp_ns 1_000_000_000 in
    if ltb_ℤ nanos (pos 0)
    then (whole_seconds -ℤ pos 1, nanos +ℤ pos 1_000_000_000)
    else (whole_seconds, nanos)

-- What a field of a message holds, where it is there and of its kind.
module _ {F T : Type 0} where
  abbrev pub as_text : Value F T → Option Text
  as_text (text_value x) = some x
  as_text v = none

  abbrev pub as_char : Value F T → Option ℕ
  as_char (char_value x) = some x
  as_char v = none

  abbrev pub as_number : Value F T → Option F
  as_number (number_value x) = some x
  as_number v = none

  abbrev pub as_time : Value F T → Option T
  as_time (time_value x) = some x
  as_time v = none

module _ {F : Type 0} ⦃d : Double F⦄ (q : Quickfix F) (llround : F → ℤ) where
  unfoldable pub to_transact_time : ℤ → Value F q.UtcTimeStamp
  to_transact_time timestamp_ns =
      let (whole_seconds, nanos) = split_time timestamp_ns in
      time_value (q.make_time whole_seconds nanos)

  unfoldable pub from_transact_time : q.UtcTimeStamp → ℤ
  from_transact_time value = times (q.time_t_of value) 1_000_000_000 +ℤ q.fraction_of value

  abbrev pub get_text : ℕ → q.Message → Option Text
  get_text tag m = q.get tag m >>= as_text

  abbrev pub get_char : ℕ → q.Message → Option ℕ
  get_char tag m = q.get tag m >>= as_char

  abbrev pub get_number : ℕ → q.Message → Option F
  get_number tag m = q.get tag m >>= as_number

  abbrev pub get_time : ℕ → q.Message → Option q.UtcTimeStamp
  get_time tag m = q.get tag m >>= as_time

  unfoldable pub to_new_order_single : Order F → q.Message
  unfolding to_transact_time
  to_new_order_single o = q.set ex_destination_tag (text_value o.venue) (
      q.set price_tag (number_value o.price) (
        q.set order_qty_tag (number_value (d.of_int o.qty)) (
          q.set account_tag (text_value o.account_id) (
            q.set ord_type_tag (char_value (order_type_to_fix o.order_type)) (
              q.set transact_time_tag (to_transact_time o.timestamp_ns) (
                q.set side_tag (char_value (side_to_fix o.side)) (
                  q.set symbol_tag (text_value o.instrument_id) (
                    q.set handl_inst_tag (char_value 49)
                      (q.set cl_ord_id_tag (text_value o.order_id) q.new_message)))))))))

  unfoldable pub from_new_order_single : q.Message → Option (Order F)
  unfolding side_from_fix order_type_from_fix from_transact_time
  from_new_order_single message = do
    order_id ← get_text cl_ord_id_tag message
    account_id ← get_text account_tag message
    instrument_id ← get_text symbol_tag message
    side ← side_from_fix (← get_char side_tag message)
    price ← get_number price_tag message
    qty ← get_number order_qty_tag message
    order_type ← order_type_from_fix (← get_char ord_type_tag message)
    transact_time ← get_time transact_time_tag message
    venue ← get_text ex_destination_tag message
    some (record {
      order_id = order_id;
      account_id = account_id;
      instrument_id = instrument_id;
      side = side;
      price = price;
      qty = llround qty;
      order_type = order_type;
      timestamp_ns = from_transact_time transact_time;
      status = new;
      venue = venue;
      orig_order_id = [];
    })

  unfoldable pub to_order_cancel_request : Order F → q.Message
  unfolding to_transact_time
  to_order_cancel_request o = q.set order_qty_tag (number_value (d.of_int o.qty)) (
      q.set account_tag (text_value o.account_id) (
        q.set transact_time_tag (to_transact_time o.timestamp_ns) (
          q.set side_tag (char_value (side_to_fix o.side)) (
            q.set symbol_tag (text_value o.instrument_id) (
              q.set cl_ord_id_tag (text_value o.order_id)
                (q.set orig_cl_ord_id_tag (text_value o.orig_order_id) q.new_message))))))

  -- A cancel request has no price, type or venue: they come back as the values written here.
  unfoldable pub from_order_cancel_request : q.Message → Option (Order F)
  unfolding side_from_fix from_transact_time
  from_order_cancel_request message = do
    order_id ← get_text cl_ord_id_tag message
    orig_order_id ← get_text orig_cl_ord_id_tag message
    account_id ← get_text account_tag message
    instrument_id ← get_text symbol_tag message
    side ← side_from_fix (← get_char side_tag message)
    qty ← get_number order_qty_tag message
    transact_time ← get_time transact_time_tag message
    some (record {
      order_id = order_id;
      account_id = account_id;
      instrument_id = instrument_id;
      side = side;
      price = d.of_int (pos 0);
      qty = llround qty;
      order_type = limit;
      timestamp_ns = from_transact_time transact_time;
      status = cancelled;
      venue = [];
      orig_order_id = orig_order_id;
    })

  unfoldable pub to_execution_report : Execution F → q.Message
  unfolding to_transact_time
  to_execution_report x =
      q.add_group (q.set contra_broker_tag (text_value x.counterparty_account_id) q.new_message) (
        q.set transact_time_tag (to_transact_time x.timestamp_ns) (
          q.set last_mkt_tag (text_value x.venue) (
            q.set last_px_tag (number_value x.price) (
              q.set last_shares_tag (number_value (d.of_int x.qty)) (
                q.set cl_ord_id_tag (text_value x.order_id) (
                  q.set account_tag (text_value x.account_id) (
                    q.set avg_px_tag (number_value x.price) (
                      q.set cum_qty_tag (number_value (d.of_int x.qty)) (
                        q.set leaves_qty_tag (number_value (d.of_int (pos 0))) (
                          q.set side_tag (char_value (side_to_fix x.side)) (
                            q.set symbol_tag (text_value x.instrument_id) (
                              q.set ord_status_tag (char_value 50) (
                                q.set exec_type_tag (char_value 50) (
                                  q.set exec_trans_type_tag (char_value 48) (
                                    q.set exec_id_tag (text_value x.trade_id) (
                                      q.set order_id_tag (text_value x.order_id)
                                        q.new_message))))))))))))))))

  unfoldable pub from_execution_report : q.Message → Option (Execution F)
  unfolding side_from_fix from_transact_time
  from_execution_report message = do
    trade_id ← get_text exec_id_tag message
    order_id ← get_text order_id_tag message
    account_id ← get_text account_tag message
    instrument_id ← get_text symbol_tag message
    side ← side_from_fix (← get_char side_tag message)
    price ← get_number last_px_tag message
    qty ← get_number last_shares_tag message
    transact_time ← get_time transact_time_tag message
    venue ← get_text last_mkt_tag message
    contra_group ← q.get_group message
    counterparty_account_id ← get_text contra_broker_tag contra_group
    some (record {
      trade_id = trade_id;
      order_id = order_id;
      account_id = account_id;
      instrument_id = instrument_id;
      side = side;
      price = price;
      qty = llround qty;
      timestamp_ns = from_transact_time transact_time;
      counterparty_account_id = counterparty_account_id;
      venue = venue;
    })
