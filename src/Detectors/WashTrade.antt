-- ===== src/Detectors/WashTrade.antt =====
-- cpp/detectors/wash_trade_detector.cpp: executions between related accounts. It keeps no state.
use trade_surveillance_engin.Prelude.{
  ◌≡◌, refl, ◌≢◌, true, false, List, [], ◌∷◌, ◌++◌, Text, codes, is_empty, not, none, some, pos,
  Double, if◌then◌else◌, ◌⊎◌, inl, inr, Bool-cases,
}
use trade_surveillance_engin.Fix.{Execution, Event, order, execution}
use trade_surveillance_engin.OrderBook.{OrderBook}
use trade_surveillance_engin.Detectors.{Alert, to_int64}
use trade_surveillance_engin.Detectors.Accounts.{
  AccountRegistry, is_related, is_related_iff, Relation,
}

empty_iff : (t : Text) → is_empty t ≡ true → t ≡ []
empty_iff [] h = refl
empty_iff (c ∷ t) h = cc

not_empty : (t : Text) → is_empty t ≡ false → t ≢ []
not_empty [] h e = cc
not_empty (c ∷ t) h e = cc

module _ {F : Type 0} ⦃d : Double F⦄ where
  abbrev pub alert_for : OrderBook F → Execution F → Alert F
  alert_for b x = record {
    detector_name = codes "WashTradeDetector";
    score = d.of_int (pos 1);
    instrument_id = x.instrument_id;
    account_ids = x.account_id ∷ x.counterparty_account_id ∷ [];
    order_ids = x.order_id ∷ x.trade_id ∷ [];
    window_start_ns = x.timestamp_ns;
    window_end_ns = x.timestamp_ns;
    evidence =
        codes "Execution "
        ++ x.trade_id
        ++ codes " matched account "
        ++ x.account_id
        ++ codes " against related counterparty "
        ++ x.counterparty_account_id
        ++ codes " (same beneficial owner, explicit link, or self-trade)";
    model_version = none;
    book_snapshot_sequence = some (to_int64 b.sequence);
  }

  unfoldable pub evaluate : OrderBook F → Event F → AccountRegistry → List (Alert F)
  evaluate b (order o) accounts = []
  evaluate b (execution x) accounts =
      if is_empty x.counterparty_account_id
      then []
      else if not (is_related accounts x.account_id x.counterparty_account_id)
      then []
      else alert_for b x ∷ []

  -- On an execution the detector returns its one alert exactly if the execution names a counterparty
  -- that is related to its account, and otherwise none.
  pub fires_iff_related :
      (b : OrderBook F) (x : Execution F) (accounts : AccountRegistry)
      → ((evaluate b (execution x) accounts ≡ alert_for b x ∷ [])
          × (x.counterparty_account_id ≢ [])
          × Relation accounts x.account_id x.counterparty_account_id)
        ⊎ ((evaluate b (execution x) accounts ≡ [])
            × ((x.counterparty_account_id ≢ [])
                → ¬ (Relation accounts x.account_id x.counterparty_account_id)))
  unfolding evaluate
  fires_iff_related b x accounts =
      let related = is_related_iff accounts x.account_id x.counterparty_account_id in
      elim (Bool-cases (is_empty x.counterparty_account_id)) [
        | inl e ↦ inr (rw e, λ named. absurd (named (empty_iff x.counterparty_account_id e)))
        | inr e ↦ elim (Bool-cases (is_related accounts x.account_id x.counterparty_account_id)) [
          | inl r ↦ inl (rw (e, r), λ h. not_empty x.counterparty_account_id e h, related.0 r)
          | inr r ↦ inr (rw (e, r), λ _ w. cc (related.1 w))
        ]
      ]
