-- ===== src/Detectors.antt =====
-- cpp/detectors/alert.hpp: what a detector returns.
pub mod Accounts
pub mod WashTrade
pub mod FrontRunning
pub mod Statistical
pub mod MarkingTheClose
pub mod Spoofing
mod Tests
use trade_surveillance_engin.Prelude.{
  ℕ, ℤ, Text, List, Option, if◌then◌else◌, ltb, pos, negsuc, ◌-◌,
}

pub record Alert (F : Type 0) : Type 0 where
  pub detector_name : Text
  pub score : F
  pub instrument_id : Text
  pub account_ids : List Text
  pub order_ids : List Text
  pub window_start_ns : ℤ
  pub window_end_ns : ℤ
  pub evidence : Text
  pub model_version : Option Text
  pub book_snapshot_sequence : Option ℤ

-- uint64_t to int64_t, as two's complement
abbrev pub to_int64 : ℕ → ℤ
to_int64 n =
    if ltb n 9_223_372_036_854_775_808 then pos n else negsuc (18_446_744_073_709_551_615 - n)
