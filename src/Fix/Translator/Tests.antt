-- ===== src/Fix/Translator/Tests.antt =====
-- Messages as lists of fields and groups, and an order and an execution through them.
use trade_surveillance_engin.Prelude.{
  ℕ, ◌==◌, ◌≡◌, refl, ℤ, pos, negsuc, Option, none, some, [], if◌then◌else◌, codes,
}
use trade_surveillance_engin.Ticks.{ticks, new_order, fill_a}
use trade_surveillance_engin.Fix.{Order, new, cancelled, limit}
use trade_surveillance_engin.Fix.Translator.{
  Value, kept_value, Quickfix, IsQuickfix, split_time, to_new_order_single, from_new_order_single,
  to_order_cancel_request, from_order_cancel_request, to_execution_report, from_execution_report,
}
use trade_surveillance_engin.Fix.Translator.RoundTrip.{
  IsSendable, from_order-to_order, from_execution_report-to_execution_report,
}

data Listed : Type 0 where
  empty : Listed
  field : ℕ → Value ℕ (ℤ × ℤ) → Listed → Listed
  group : Listed → Listed → Listed

abbrev find_field : ℕ → Listed → Option (Value ℕ (ℤ × ℤ))
find_field t empty = none
find_field t (field u v m) = if u == t then some (kept_value (λ x. x) v) else find_field t m
find_field t (group g m) = find_field t m

abbrev first_group : Listed → Option Listed
first_group empty = none
first_group (field u v m) = first_group m
first_group (group g m) = elim (first_group m) [ none ↦ some g | some h ↦ some h ]

abbrev listed : Quickfix ℕ
listed = record {
  Message = Listed;
  UtcTimeStamp = ℤ × ℤ;
  new_message = empty;
  set = field;
  get = find_field;
  add_group = group;
  get_group = first_group;
  written = λ x. x;
  make_time = λ s n. (s, n);
  time_t_of = λ t. t.0;
  fraction_of = λ t. t.1;
}

first_group-group : (g m : Listed) → first_group m ≡ none → first_group (group g m) ≡ some g
first_group-group g m h = rw h refl

listed_IsQuickfix : IsQuickfix listed
listed_IsQuickfix = record {
  get_set = λ t u v m. refl;
  get-add_group = λ t g m. refl;
  group_none = refl;
  group_set = λ t v m. refl;
  group_add = first_group-group;
  time_t_lem = λ s n h. refl;
  fraction_lem = λ s n h. refl;
}

abbrev whole : ℕ → ℤ
whole x = pos x

any_IsSendable : (price qty : ℕ) → IsSendable listed whole listed_IsQuickfix price (pos qty)
any_IsSendable price qty = record { price_kept = refl; qty_kept = refl }

-- Half a second before the epoch.
before_epoch : split_time (negsuc 499_999_999) ≡ (negsuc 0, pos 500_000_000)
unfolding split_time
before_epoch = refl

abbrev sent : Order ℕ
sent = record (new_order (codes "A") 10) { timestamp_ns = negsuc 4; orig_order_id = codes "O" }

from_order-to_order_example :
    (from_new_order_single listed whole (to_new_order_single listed whole sent)
      ≡ some (record sent { status = new; orig_order_id = [] }))
    × (from_order_cancel_request listed whole (to_order_cancel_request listed whole sent)
        ≡ some (record sent { status = cancelled; price = 0; order_type = limit; venue = [] }))
from_order-to_order_example =
    from_order-to_order listed whole listed_IsQuickfix sent (any_IsSendable 100 10)

from_execution_report-to_execution_report_example :
    from_execution_report listed whole (to_execution_report listed whole (fill_a 3))
    ≡ some (fill_a 3)
from_execution_report-to_execution_report_example =
    from_execution_report-to_execution_report listed whole listed_IsQuickfix (fill_a 3)
      (any_IsSendable 100 3)
