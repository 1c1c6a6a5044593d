-- ===== src/Detectors/Statistical/History.antt =====
-- The statistical baseline detector over the events that it has been given.
use trade_surveillance_engin.Prelude.{
  subst, ◌≡◌, refl, ◌∙◌, ap, sym, inl, inr, ◌↔◌, Bool-cases, true, false, ◌+◌, ℤ, pos, ◌≤ℤ◌, ltb_ℤ,
  List, [], ◌∷◌, ◌++◌, length, Text, text_eq, text_eq_iff, find, find-put, or_else, In, In-cons,
  In-nil, here, Double, clamp_bounds, if◌then◌else◌, arith,
}
use trade_surveillance_engin.Fix.{
  Order, OrderStatus, new, cancelled, replaced, Event, order, execution,
}
use trade_surveillance_engin.OrderBook.{OrderBook}
use trade_surveillance_engin.Detectors.{Alert, to_int64}
use trade_surveillance_engin.Detectors.Accounts.{AccountRegistry}
use trade_surveillance_engin.Detectors.Statistical.{
  StatisticalBaselineConfig, RunningStats, StatsByKey, no_stats, update, sample_variance, key_of,
  score_of, alert_for, score_order, evaluate,
}

-- An event, with the book and the registry that it is judged by.
abbrev pub Call : Type 0 → Type 0
Call F = OrderBook F × Event F × AccountRegistry

module _ {F : Type 0} ⦃d : Double F⦄ where
  -- The quantity of a New order of the key, and of no other event.
  abbrev pub observed_in : Text → Event F → List ℤ
  observed_in k (execution x) = []
  observed_in k (order o) = elim o.status [
    | new ↦ if text_eq (key_of o) k then o.qty ∷ [] else []
    | _ ↦ []
  ]

  abbrev pub observations : Text → List (Call F) → List ℤ
  observations k [] = []
  observations k ((b, e, accounts) ∷ calls) = observed_in k e ++ observations k calls

  -- The statistics of some quantities, one after the other.
  abbrev pub stats_after : RunningStats F → List ℤ → RunningStats F
  stats_after stats [] = stats
  stats_after stats (q ∷ qs) = stats_after (update stats (d.of_int q)) qs

  stats_after-count :
      (stats : RunningStats F) (qs : List ℤ)
      → (stats_after stats qs).count ≡ stats.count + length qs
  unfolding update
  stats_after-count stats [] = omega arith
  stats_after-count stats (q ∷ qs) = omega (arith, stats_after-count (update stats (d.of_int q)) qs)

  abbrev pub stats_of : List ℤ → RunningStats F
  stats_of prior = stats_after no_stats prior

  abbrev pub stddev_of : List ℤ → F
  stddev_of prior = d.sqrt (sample_variance (stats_of prior))

  abbrev pub z_of : List ℤ → Order F → F
  z_of prior o = d.div (d.sub (d.of_int o.qty) (stats_of prior).mean) (stddev_of prior)

  abbrev pub stats_in : Text → StatsByKey F → RunningStats F
  stats_in k s = or_else (find text_eq k s) no_stats

module _ {F : Type 0} ⦃d : Double F⦄ (config : StatisticalBaselineConfig F) where
  abbrev pub run : StatsByKey F → List (Call F) → StatsByKey F
  run s [] = s
  run s ((b, e, accounts) ∷ calls) = run (evaluate config s b e accounts).0 calls

  evaluate-stats :
      (k : Text) (s : StatsByKey F) (b : OrderBook F) (e : Event F) (accounts : AccountRegistry)
      → stats_in k (evaluate config s b e accounts).0 ≡ stats_after (stats_in k s) (observed_in k e)
  unfolding evaluate
  evaluate-stats k s b (execution x) accounts = refl
  evaluate-stats k s b (order o) accounts = by_status o.status refl
    where
      by_status :
          (t : OrderStatus)
          → o.status ≡ t
          → stats_in k (evaluate config s b (order o) accounts).0
            ≡ stats_after (stats_in k s) (observed_in k (order o))
      by_status cancelled is = rw (is, evaluate) refl
      by_status replaced is = rw (is, evaluate) refl
      by_status new is =
          rw (is, evaluate)
            (ap (λ x. or_else x no_stats) (find-put text_eq text_eq_iff (key_of o) k _ s)
              ∙ elim (Bool-cases (text_eq (key_of o) k)) [
                | inl same ↦ rw same (
                    ap (λ t. update (stats_in t s) (d.of_int o.qty))
                      ((text_eq_iff (key_of o) k).0 same))
                | inr other ↦ rw other refl
              ])

  stats_after-append :
      (stats : RunningStats F) (ps qs : List ℤ)
      → stats_after stats (ps ++ qs) ≡ stats_after (stats_after stats ps) qs
  stats_after-append stats [] qs = refl
  stats_after-append stats (p ∷ ps) qs = stats_after-append (update stats (d.of_int p)) ps qs

  run-stats :
      (k : Text) (calls : List (Call F)) (s : StatsByKey F)
      → stats_in k (run s calls) ≡ stats_after (stats_in k s) (observations k calls)
  run-stats k [] s = refl
  run-stats k ((b, e, accounts) ∷ calls) s =
      run-stats k calls (evaluate config s b e accounts).0
      ∙ ap (λ stats. stats_after stats (observations k calls)) (evaluate-stats k s b e accounts)
      ∙ sym (stats_after-append (stats_in k s) (observed_in k e) (observations k calls))

  -- What the detector takes as unusual: the order against the quantities of earlier orders with its key.
  pub record Unusual (prior : List ℤ) (o : Order F) : Type 0 where
    pub enough : config.min_sample_count ≤ℤ pos (length prior)
    pub spread : d.lt (d.of_int (pos 0)) (stddev_of prior) ≡ true
    pub far : d.le config.z_score_threshold (d.abs (z_of prior o)) ≡ true

  abbrev pub alert_against : List ℤ → Order F → ℤ → Alert F
  alert_against prior o sequence =
      alert_for config o (stats_of prior) (stddev_of prior) (z_of prior o) sequence

  score_order-Unusual :
      (prior : List ℤ) (o : Order F) (sequence : ℤ) (a : Alert F)
      → In a (score_order config o (stats_of prior) sequence)
        ↔ (Unusual prior o × (a ≡ alert_against prior o sequence))
  unfolding score_order
  score_order-Unusual prior o sequence a = (sound, complete)
    where
      count : (stats_of {F = F} prior).count ≡ length prior
      count = stats_after-count no_stats prior ∙ omega arith

      sound :
          In a (score_order config o (stats_of prior) sequence)
          → Unusual prior o × (a ≡ alert_against prior o sequence)
      sound i =
          elim (Bool-cases (ltb_ℤ (pos (stats_of {F = F} prior).count) config.min_sample_count)) [
            | inl few ↦ absurd (In-nil (rw few at i))
            | inr enough ↦ elim (Bool-cases (d.lt (d.of_int (pos 0)) (stddev_of prior))) [
              | inr flat ↦ absurd (In-nil (rw (enough, flat) at i))
              | inl spread ↦
                  elim (Bool-cases (d.le config.z_score_threshold (d.abs (z_of prior o)))) [
                    | inr near ↦ absurd (In-nil (rw (enough, spread, near) at i))
                    | inl far ↦ elim (In-cons (rw (enough, spread, far) at i)) [
                      | inr j ↦ absurd (In-nil j)
                      | inl e ↦ (
                        record {
                          enough = ground (arith, enough, count);
                          spread = spread;
                          far = far;
                        },
                        sym e,
                      )
                    ]
                  ]
            ]
          ]

      complete :
          Unusual prior o × (a ≡ alert_against prior o sequence)
          → In a (score_order config o (stats_of prior) sequence)
      complete (u, same) =
          let least = u.enough in
          let enough : ltb_ℤ (pos (stats_of {F = F} prior).count) config.min_sample_count ≡ false =
            ground (arith, least, count) in
          rw (enough, u.spread, u.far, same) here

  -- A New order is scored against the quantities of the earlier orders with its key.
  evaluate-new :
      (calls : List (Call F)) (b : OrderBook F) (o : Order F) (accounts : AccountRegistry)
      → o.status ≡ new
      → (evaluate config (run [] calls) b (order o) accounts).1
        ≡ score_order config o (stats_of (observations (key_of o) calls)) (to_int64 b.sequence)
  unfolding evaluate find
  evaluate-new calls b o accounts is =
      rw (is, evaluate) refl
      ∙ ap (λ stats. score_order config o stats (to_int64 b.sequence))
          (run-stats (key_of o) calls [])

  -- Given a New order after any events, from no statistics on, and with doubles in which 0 <= 1: the detector
  -- raises an alert if and only if the earlier New orders with the order's key, the account and the
  -- instrument, are at least the minimum, the deviation of their quantities is positive, and the z-score of
  -- the order's quantity against them reaches the threshold. The alert is the one for those quantities, and
  -- its score is neither below 0 nor above 1.
  pub alerts_iff_Unusual :
      (calls : List (Call F)) (b : OrderBook F) (o : Order F) (accounts : AccountRegistry)
      → o.status ≡ new
      → d.le (d.of_int (pos 0)) (d.of_int (pos 1)) ≡ true
      → let prior = observations (key_of o) calls in
        let alert = alert_against prior o (to_int64 b.sequence) in
        ((a : Alert F)
          → In a (evaluate config (run [] calls) b (order o) accounts).1
            ↔ (Unusual prior o × (a ≡ alert)))
        × (d.lt alert.score (d.of_int (pos 0)) ≡ false)
        × (d.lt (d.of_int (pos 1)) alert.score ≡ false)
  unfolding score_of
  alerts_iff_Unusual calls b o accounts is unit =
      let prior = observations (key_of o) calls in
      let bounds = clamp_bounds _ (d.of_int (pos 0)) (d.of_int (pos 1)) (d.not_lt_of_le _ _ unit) in
      (
        λ a.
            subst
              (λ alerts.
                In a alerts ↔ (Unusual prior o × (a ≡ alert_against prior o (to_int64 b.sequence))))
              (sym (evaluate-new calls b o accounts is))
              (score_order-Unusual prior o (to_int64 b.sequence) a),
        bounds.0,
        bounds.1,
      )
