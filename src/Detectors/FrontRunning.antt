-- ===== src/Detectors/FrontRunning.antt =====
-- cpp/detectors/front_running_detector.hpp and .cpp: a small order of a related account shortly after
-- a large one on the same instrument and side.
pub mod Reactions
use trade_surveillance_engin.Prelude.{
  ◌≡◌, refl, ◌≢◌, Bool, true, false, List, [], ◌∷◌, ◌++◌, Text, codes, text_eq, text_eq_iff, find,
  put, or_else, not, ◌&&◌, ◌||◌, none, some, ℤ, pos, ◌-ℤ◌, -ℤ_parts, ◌≤ℤ◌, ltb_ℤ, abs, Double,
  if◌then◌else◌, arith, In, here, there, In-append, ◌⊎◌, inl, inr, Bool-cases, find-put,
  text_eq_refl,
}
use trade_surveillance_engin.Fix.{
  Order, Event, order, execution, Side, buy, sell, OrderStatus, new, cancelled, replaced,
}
use trade_surveillance_engin.OrderBook.{OrderBook}
use trade_surveillance_engin.Detectors.{Alert, to_int64}
use trade_surveillance_engin.Detectors.Accounts.{AccountRegistry, is_related}

pub record FrontRunningConfig (F : Type 0) : Type 0 where
  pub lookback_window_ns : ℤ
  pub min_large_qty_threshold : ℤ
  pub max_leader_to_large_size_ratio : F

pub record RecentOrder : Type 0 where
  pub account_id : Text
  pub order_id : Text
  pub qty : ℤ
  pub timestamp_ns : ℤ

-- `recent_by_key_`
abbrev pub RecentOrders : Type 0
RecentOrders = List (Text × List RecentOrder)

abbrev pub side_letter : Side → Text
side_letter buy = codes "B"
side_letter sell = codes "S"

abbrev pub key_for : Text → Side → Text
key_for instrument_id side = instrument_id ++ codes "|" ++ side_letter side

-- `remove_if` by the distance of two timestamps
unfoldable pub prune : ℤ → ℤ → List RecentOrder → List RecentOrder
unfolding ◌-ℤ◌
prune window now [] = []
prune window now (r ∷ rs) =
    if ltb_ℤ window (abs (now -ℤ r.timestamp_ns))
    then prune window now rs
    else r ∷ prune window now rs

abbrev pub recent_of : {F : Type 0} → Order F → RecentOrder
recent_of o = record {
  account_id = o.account_id;
  order_id = o.order_id;
  qty = o.qty;
  timestamp_ns = o.timestamp_ns;
}

module _ {F : Type 0} ⦃d : Double F⦄ (config : FrontRunningConfig F) where
  -- Whether the loop body reaches the alert for a recorded order.
  unfoldable pub reacts_to : AccountRegistry → Order F → RecentOrder → Bool
  reacts_to accounts o prior =
      if text_eq prior.account_id o.account_id
      then false
      else if not (is_related accounts o.account_id prior.account_id)
      then false
      else if ltb_ℤ prior.qty config.min_large_qty_threshold
      then false
      else if d.lt (d.mul (d.of_int prior.qty) config.max_leader_to_large_size_ratio)
          (d.of_int o.qty)
      then false
      else not (ltb_ℤ o.timestamp_ns prior.timestamp_ns)

  abbrev pub alert_for : Order F → RecentOrder → ℤ → Alert F
  alert_for o prior sequence = record {
    detector_name = codes "FrontRunningDetector";
    score = d.of_int (pos 1);
    instrument_id = o.instrument_id;
    account_ids = prior.account_id ∷ o.account_id ∷ [];
    order_ids = prior.order_id ∷ o.order_id ∷ [];
    window_start_ns = prior.timestamp_ns;
    window_end_ns = o.timestamp_ns;
    evidence =
        codes "related account "
        ++ o.account_id
        ++ codes " placed order "
        ++ o.order_id
        ++ codes " (qty="
        ++ d.print_int o.qty
        ++ codes ") "
        ++ d.print_int (o.timestamp_ns -ℤ prior.timestamp_ns)
        ++ codes "ns after a large same-side order "
        ++ prior.order_id
        ++ codes " (qty="
        ++ d.print_int prior.qty
        ++ codes ") from related account "
        ++ prior.account_id;
    model_version = none;
    book_snapshot_sequence = some sequence;
  }

  unfoldable pub alerts_for : AccountRegistry → Order F → ℤ → List RecentOrder → List (Alert F)
  unfolding reacts_to
  alerts_for accounts o sequence [] = []
  alerts_for accounts o sequence (prior ∷ rs) =
      if reacts_to accounts o prior
      then alert_for o prior sequence ∷ alerts_for accounts o sequence rs
      else alerts_for accounts o sequence rs

  unfoldable pub handle_new :
      RecentOrders → Order F → AccountRegistry → ℤ → RecentOrders × List (Alert F)
  unfolding prune alerts_for
  handle_new recent_by_key o accounts sequence =
      let key = key_for o.instrument_id o.side in
      let recent =
        prune config.lookback_window_ns o.timestamp_ns
          (or_else (find text_eq key recent_by_key) []) in
      (
        put text_eq key (recent ++ recent_of o ∷ []) recent_by_key,
        alerts_for accounts o sequence recent,
      )

  unfoldable pub evaluate :
      RecentOrders → OrderBook F → Event F → AccountRegistry → RecentOrders × List (Alert F)
  unfolding handle_new
  evaluate s b (execution x) accounts = (s, [])
  evaluate s b (order o) accounts = elim o.status [
    | new ↦ handle_new s o accounts (to_int64 b.sequence)
    | _ ↦ (s, [])
  ]
