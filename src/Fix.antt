-- ===== src/Fix.antt =====
-- cpp/fix/types.hpp and cpp/fix/types.cpp: the live data model, and the names of its enums.
-- An exception of a `…_from_string` is `none`.
pub mod Names
pub mod Translator
mod Tests
use trade_surveillance_engin.Prelude.{
  Text, codes, text_eq, Option, none, some, if◌then◌else◌, ◌≡◌, refl, ℤ, Bool, true, false,
}

pub data Side : Type 0 where
  buy sell : Side

pub data OrderType : Type 0 where
  limit market : OrderType

pub data OrderStatus : Type 0 where
  new cancelled replaced : OrderStatus

pub record Order (F : Type 0) : Type 0 where
  pub order_id : Text
  pub account_id : Text
  pub instrument_id : Text
  pub side : Side
  pub price : F
  pub qty : ℤ
  pub order_type : OrderType
  pub timestamp_ns : ℤ
  pub status : OrderStatus
  pub venue : Text
  pub orig_order_id : Text

pub record Execution (F : Type 0) : Type 0 where
  pub trade_id : Text
  pub order_id : Text
  pub account_id : Text
  pub instrument_id : Text
  pub side : Side
  pub price : F
  pub qty : ℤ
  pub timestamp_ns : ℤ
  pub counterparty_account_id : Text
  pub venue : Text

-- ingestion::IngestionEvent and detectors::DetectorEvent, the same std::variant
pub data Event (F : Type 0) : Type 0 where
  order : Order F → Event F
  execution : Execution F → Event F

abbrev pub side_eq : Side → Side → Bool
side_eq buy buy = true
side_eq sell sell = true
side_eq _ _ = false

unfoldable pub side_to_string : Side → Text
side_to_string buy = codes "Buy"
side_to_string sell = codes "Sell"

unfoldable pub order_type_to_string : OrderType → Text
order_type_to_string limit = codes "Limit"
order_type_to_string market = codes "Market"

unfoldable pub order_status_to_string : OrderStatus → Text
order_status_to_string new = codes "New"
order_status_to_string cancelled = codes "Cancelled"
order_status_to_string replaced = codes "Replaced"

unfoldable pub side_from_string : Text → Option Side
side_from_string value =
    if text_eq value (codes "Buy")
    then some buy
    else if text_eq value (codes "Sell")
    then some sell
    else none

unfoldable pub order_type_from_string : Text → Option OrderType
order_type_from_string value =
    if text_eq value (codes "Limit")
    then some limit
    else if text_eq value (codes "Market")
    then some market
    else none

unfoldable pub order_status_from_string : Text → Option OrderStatus
order_status_from_string value =
    if text_eq value (codes "New")
    then some new
    else if text_eq value (codes "Cancelled")
    then some cancelled
    else if text_eq value (codes "Replaced")
    then some replaced
    else none
