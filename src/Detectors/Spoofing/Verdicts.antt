-- ===== src/Detectors/Spoofing/Verdicts.antt =====
-- What an alert of the detector rests on.
use trade_surveillance_engin.Prelude.{
  ◌≡◌, refl, inl, inr, false, [], ◌∷◌, text_eq, text_eq_iff, text_eq_refl, find, erase, find-erase,
  none, some, ◌≤ℤ◌, ltb_ℤ, Double, clamp_bounds, Bool-cases, Option-cases, In, In-cons, In-nil,
  subst, arith,
}
use trade_surveillance_engin.Fix.{Order}
use trade_surveillance_engin.OrderBook.{OrderBook}
use trade_surveillance_engin.Detectors.{Alert}
use trade_surveillance_engin.Detectors.Spoofing.{
  SpoofingLayeringConfig, TrackedOrder, Tracking, erase_tracked, decrement, key_of_tracked,
}
use trade_surveillance_engin.Detectors.Spoofing.Scoring.{
  zero_score, one_score, cancel_score, combined_score, score_cancel, judge_cancel, handle_cancel,
}

module _ {F : Type 0} ⦃d : Double F⦄ (config : SpoofingLayeringConfig F) where
  -- What an alert for a cancel says of the tracked order.
  pub record Spoofed (t : Tracking F) (o : Order F) (x : TrackedOrder F) (a : Alert F)
      : Type 0 where
    pub was_tracked : find text_eq o.orig_order_id t.tracked ≡ some x
    pub in_order : x.placed_ts ≤ℤ o.timestamp_ns
    pub reached : d.lt a.score config.alert_threshold ≡ false
    pub at_least : d.lt a.score zero_score ≡ false
    pub at_most : d.lt one_score a.score ≡ false
    pub implicated : a.order_ids ≡ o.orig_order_id ∷ []
    pub whose : a.account_ids ≡ x.account_id ∷ []

  cancel_score_bounds :
      (t : Tracking F) (b : OrderBook F) (o : Order F) (x : TrackedOrder F)
      → d.lt one_score zero_score ≡ false
      → (d.lt (cancel_score config t b o x) zero_score ≡ false)
        × (d.lt one_score (cancel_score config t b o x) ≡ false)
  unfolding cancel_score combined_score
  cancel_score_bounds t b o x unit = clamp_bounds {F = F} _ zero_score one_score unit

  score_cancel-Spoofed :
      (t t' : Tracking F) (b : OrderBook F) (o : Order F) (x : TrackedOrder F) (a : Alert F)
      → d.lt one_score zero_score ≡ false
      → find text_eq o.orig_order_id t.tracked ≡ some x
      → ltb_ℤ o.timestamp_ns x.placed_ts ≡ false
      → In a (score_cancel config t' b o x)
      → Spoofed t o x a
  unfolding score_cancel
  score_cancel-Spoofed t t' b o x a unit found later i =
      let c = cancel_score config t' b o x in
      let bounds = cancel_score_bounds t' b o x unit in
      elim (Bool-cases (d.lt c config.alert_threshold)) [
        | inl low ↦ absurd (In-nil (rw low at i))
        | inr high ↦ elim (In-cons (rw high at i)) [
          | inr j ↦ absurd (In-nil j)
          | inl e ↦ subst (Spoofed t o x) e (record {
            was_tracked = found;
            in_order = ground (arith, later);
            reached = high;
            at_least = bounds.0;
            at_most = bounds.1;
            implicated = refl;
            whose = refl;
          })
        ]
      ]

  -- How the order leaves the table.
  erased : (t : Tracking F) (o : Order F) (x : TrackedOrder F) → Tracking F
  erased t o x = record t {
    tracked = erase text_eq o.orig_order_id t.tracked;
    concurrent_count_by_key = decrement t.concurrent_count_by_key (key_of_tracked x);
  }

  untracked :
      (t : Tracking F) (o : Order F) (x : TrackedOrder F)
      → find text_eq o.orig_order_id (erased t o x).tracked ≡ none
  unfolding erased
  untracked t o x = ground (
    arith,
    find-erase text_eq text_eq_iff o.orig_order_id o.orig_order_id t.tracked,
    text_eq_refl o.orig_order_id,
  )

  -- A cancel alerts only for an order that was tracked and not placed after it, with a score that reaches
  -- the threshold and lies between 0 and 1, where 1 is not below 0. After it the order is not tracked.
  pub handle_cancel-Spoofed :
      (t : Tracking F) (b : OrderBook F) (o : Order F)
      → d.lt one_score zero_score ≡ false
      → ((a : Alert F)
          → In a (handle_cancel config t b o).1
          → (x : TrackedOrder F) × Spoofed t o x a)
        × (find text_eq o.orig_order_id (handle_cancel config t b o).0.tracked ≡ none)
  unfolding handle_cancel judge_cancel erase_tracked erased
  handle_cancel-Spoofed t b o unit = elim (Option-cases (find text_eq o.orig_order_id t.tracked)) [
    | inl absent ↦
        let e : erase_tracked t o.orig_order_id ≡ (none, t) = rw (absent, erase_tracked) refl in
        rw (e, handle_cancel) (λ a i. absurd (In-nil i), absent)
    | inr (x, found) ↦
        let e : erase_tracked t o.orig_order_id ≡ (some x, erased t o x) =
          rw (found, erase_tracked) refl in
        elim (Bool-cases (ltb_ℤ o.timestamp_ns x.placed_ts)) [
          | inl stale ↦ rw (e, handle_cancel, stale) (λ a i. absurd (In-nil i), untracked t o x)
          | inr later ↦
              rw (e, handle_cancel, later)
                (
                  λ a i. (x, score_cancel-Spoofed t (erased t o x) b o x a unit found later i),
                  untracked t o x,
                )
        ]
  ]
