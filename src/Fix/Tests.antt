-- ===== src/Fix/Tests.antt =====
-- The names of the enumerators, at a concrete name.
use trade_surveillance_engin.Prelude.{◌≡◌, ◌↔◌, some, codes}
use trade_surveillance_engin.Fix.{
  sell, market, replaced, side_to_string, side_from_string, order_type_to_string,
  order_type_from_string, order_status_to_string, order_status_from_string,
}
use trade_surveillance_engin.Fix.Names.{from_string_iff}

from_string_iff_example :
    ((side_from_string (codes "Sell") ≡ some sell) ↔ (codes "Sell" ≡ side_to_string sell))
    × ((order_type_from_string (codes "Sell") ≡ some market)
        ↔ (codes "Sell" ≡ order_type_to_string market))
    × ((order_status_from_string (codes "Sell") ≡ some replaced)
        ↔ (codes "Sell" ≡ order_status_to_string replaced))
from_string_iff_example = from_string_iff (codes "Sell") sell market replaced
