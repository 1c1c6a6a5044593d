-- ===== src/Fix/Names.antt =====
-- The names of the enumerators.
use trade_surveillance_engin.Prelude.{
  ◌≡◌, refl, ◌↔◌, some, Text, codes, text_eq, text_eq_iff, arith,
}
use trade_surveillance_engin.Fix.{
  Side, buy, sell, OrderType, limit, market, OrderStatus, new, cancelled, replaced, side_to_string,
  side_from_string, order_type_to_string, order_type_from_string, order_status_to_string,
  order_status_from_string,
}

pub side_from_string-to_string : (s : Side) → side_from_string (side_to_string s) ≡ some s
unfolding side_from_string side_to_string text_eq
side_from_string-to_string buy = refl
side_from_string-to_string sell = refl

pub order_type_from_string-to_string :
    (t : OrderType) → order_type_from_string (order_type_to_string t) ≡ some t
unfolding order_type_from_string order_type_to_string text_eq
order_type_from_string-to_string limit = refl
order_type_from_string-to_string market = refl

pub order_status_from_string-to_string :
    (s : OrderStatus) → order_status_from_string (order_status_to_string s) ≡ some s
unfolding order_status_from_string order_status_to_string text_eq
order_status_from_string-to_string new = refl
order_status_from_string-to_string cancelled = refl
order_status_from_string-to_string replaced = refl

side_of_name : (t : Text) (s : Side) → side_from_string t ≡ some s → t ≡ side_to_string s
unfolding side_from_string side_to_string
side_of_name t buy h = ground (arith, text_eq_iff t (codes "Buy"), text_eq_iff t (codes "Sell"))
side_of_name t sell h = ground (arith, text_eq_iff t (codes "Buy"), text_eq_iff t (codes "Sell"))

side_from_string_iff :
    (t : Text) (s : Side) → (side_from_string t ≡ some s) ↔ (t ≡ side_to_string s)
side_from_string_iff t s = (side_of_name t s, λ e. rw e (side_from_string-to_string s))

order_type_of_name :
    (t : Text) (s : OrderType) → order_type_from_string t ≡ some s → t ≡ order_type_to_string s
unfolding order_type_from_string order_type_to_string
order_type_of_name t limit h =
    ground (arith, text_eq_iff t (codes "Limit"), text_eq_iff t (codes "Market"))
order_type_of_name t market h =
    ground (arith, text_eq_iff t (codes "Limit"), text_eq_iff t (codes "Market"))

order_type_from_string_iff :
    (t : Text) (s : OrderType) → (order_type_from_string t ≡ some s) ↔ (t ≡ order_type_to_string s)
order_type_from_string_iff t s =
    (order_type_of_name t s, λ e. rw e (order_type_from_string-to_string s))

order_status_of_name :
    (t : Text) (s : OrderStatus)
    → order_status_from_string t ≡ some s
    → t ≡ order_status_to_string s
unfolding order_status_from_string order_status_to_string
order_status_of_name t new h = ground (
  arith,
  text_eq_iff t (codes "New"),
  text_eq_iff t (codes "Cancelled"),
  text_eq_iff t (codes "Replaced"),
)
order_status_of_name t cancelled h = ground (
  arith,
  text_eq_iff t (codes "New"),
  text_eq_iff t (codes "Cancelled"),
  text_eq_iff t (codes "Replaced"),
)
order_status_of_name t replaced h = ground (
  arith,
  text_eq_iff t (codes "New"),
  text_eq_iff t (codes "Cancelled"),
  text_eq_iff t (codes "Replaced"),
)

order_status_from_string_iff :
    (t : Text) (s : OrderStatus)
    → (order_status_from_string t ≡ some s) ↔ (t ≡ order_status_to_string s)
order_status_from_string_iff t s =
    (order_status_of_name t s, λ e. rw e (order_status_from_string-to_string s))

-- Each of the three `…_from_string` accepts exactly what `to_string` prints of a side, an order type or an
-- order status, and reads it as what was printed.
pub from_string_iff :
    (t : Text) (s : Side) (o : OrderType) (u : OrderStatus)
    → ((side_from_string t ≡ some s) ↔ (t ≡ side_to_string s))
      × ((order_type_from_string t ≡ some o) ↔ (t ≡ order_type_to_string o))
      × ((order_status_from_string t ≡ some u) ↔ (t ≡ order_status_to_string u))
from_string_iff t s o u =
    (side_from_string_iff t s, order_type_from_string_iff t o, order_status_from_string_iff t u)
