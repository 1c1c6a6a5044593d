-- ===== src/Harness/Anomaly/Windows.antt =====
-- When a scored window counts as positive.
use trade_surveillance_engin.Prelude.{
  ◌≡◌, refl, sym, ℤ, ◌-ℤ◌, ◌≤ℤ◌, ltb_ℤ, Text, text_eq, text_eq_iff, find, find-put, or_else, true,
  false, Bool-cases, inl, inr, ◌⊎◌, List, [], ◌∷◌, ◌++◌, arith, All, All-imp, All-In, In, here,
  there, In-append, In-append_left, In-append_right, In-cons, In-nil, stable_sort, stable_sort-All,
  stable_sort-IsSorted, In-stable_sort, IsSorted, AllFrom, subst, ◌↔◌,
}
use trade_surveillance_engin.Detectors.{Alert}
use trade_surveillance_engin.Simulator.{baseline, pattern_eq, SimulatedOrder, SimulationOutput}
use trade_surveillance_engin.Harness.Anomaly.{
  MlAnomalyGroundTruth, window_key, order_key, add_one, add_abuse, sort_each,
  build_ml_anomaly_ground_truth, lower_bound, at_most, some_between, ml_anomaly_window_is_positive,
}

-- A timestamp of the list from `lo` to `hi`.
abbrev Between : List ℤ → ℤ → ℤ → Type 0
Between ts lo hi = (t : ℤ) × In t ts × (lo ≤ℤ t) × (t ≤ℤ hi)

lower_bound_sound :
    (lo hi : ℤ) (ts : List ℤ) → at_most (lower_bound lo ts) hi ≡ true → Between ts lo hi
unfolding lower_bound
lower_bound_sound lo hi [] h = cc
lower_bound_sound lo hi (t ∷ ts) h = elim (Bool-cases (ltb_ℤ t lo)) [
  | inl low ↦
      let (s, i, from, to) = lower_bound_sound lo hi ts (rw low at h) in (s, there i, from, to)
  | inr fits ↦ (t, here, ground (arith, fits), ground (arith, rw fits at h))
]

AllFrom-In : (k t : ℤ) (ts : List ℤ) → AllFrom (λ s. s) k ts → In t ts → k ≤ℤ t
AllFrom-In k t [] a i = elim i [ ]
AllFrom-In k t (s ∷ ts) (h, a) here = h
AllFrom-In k t (s ∷ ts) (h, a) (there i) = AllFrom-In k t ts a i

lower_bound_complete :
    (lo hi : ℤ) (ts : List ℤ)
    → IsSorted (λ s. s) ts
    → Between ts lo hi
    → at_most (lower_bound lo ts) hi ≡ true
unfolding lower_bound
lower_bound_complete lo hi [] sorted (t, i, from, to) = elim i [ ]
lower_bound_complete lo hi (s ∷ ts) (first, sorted) (t, here, from, to) =
    let fits : ltb_ℤ s lo ≡ false = ground (arith, from) in rw fits (ground (arith, to))
lower_bound_complete lo hi (s ∷ ts) (first, sorted) (t, there i, from, to) =
    let rest = lower_bound_complete lo hi ts sorted (t, i, from, to) in
    elim (Bool-cases (ltb_ℤ s lo)) [
      | inl low ↦ rw low rest
      | inr fits ↦
          let before : s ≤ℤ t = AllFrom-In s t ts first i in rw fits (ground (arith, before, to))
    ]

All-self : (ts : List ℤ) → All (λ t. In t ts) ts
All-self [] = tt
All-self (t ∷ ts) = (here, All-imp ts (λ s i. there i) (All-self ts))

-- Sorting loses and adds none.
sorted-Between :
    (lo hi : ℤ) (ts : List ℤ)
    → (at_most (lower_bound lo (stable_sort (λ t. t) ts)) hi ≡ true) ↔ Between ts lo hi
sorted-Between lo hi ts =
    let sorted = stable_sort (λ (t : ℤ). t) ts in
    (
      λ h.
          let (t, i, from, to) = lower_bound_sound lo hi sorted h in
          (
            t,
            All-In (λ s. In s ts) sorted
                (stable_sort-All (λ (t : ℤ). t) (λ s. In s ts) ts (All-self ts)) i,
            from,
            to,
          ),
      λ (t, i, from, to).
          lower_bound_complete lo hi sorted (stable_sort-IsSorted (λ (t : ℤ). t) ts)
            (t, In-stable_sort (λ (t : ℤ). t) ts i, from, to),
    )

find-sort_each :
    (key : Text) (truth : MlAnomalyGroundTruth) (lo hi : ℤ)
    → (some_between (find text_eq key (sort_each truth)) lo hi ≡ true)
      ↔ Between (or_else (find text_eq key truth) []) lo hi
unfolding find sort_each
find-sort_each key [] lo hi = (λ h. cc, λ (t, i, _, _). elim i [ ])
find-sort_each key ((k, ts) ∷ truth) lo hi = elim (Bool-cases (text_eq k key)) [
  | inl hit ↦ rw hit (sorted-Between lo hi ts)
  | inr miss ↦ rw miss (find-sort_each key truth lo hi)
]

module _ {F : Type 0} where
  -- An abusive order of a key at a time.
  pub record IsAbuse (key : Text) (t : ℤ) (o : SimulatedOrder F) : Type 0 where
    pub abusive : pattern_eq o.ground_truth_label.pattern baseline ≡ false
    pub keyed : order_key o ≡ key
    pub timed : o.timestamp_ns ≡ t

  add_one-In :
      (key : Text) (t : ℤ) (o : SimulatedOrder F) (truth : MlAnomalyGroundTruth)
      → In t (or_else (find text_eq key (add_one o truth)) [])
        ↔ (In t (or_else (find text_eq key truth) []) ⊎ IsAbuse key t o)
  unfolding add_one
  add_one-In key t o truth = elim (Bool-cases (pattern_eq o.ground_truth_label.pattern baseline)) [
    | inl plain ↦
        rw plain (λ i. inl i, λ h. elim h [ inl i ↦ i | inr a ↦ absurd (cc (plain, a.abusive)) ])
    | inr abusive ↦
        let old = or_else (find text_eq (order_key o) truth) [] in
        rw
          (
            abusive,
            find-put text_eq text_eq_iff (order_key o) key (old ++ o.timestamp_ns ∷ []) truth,
          )
          (elim (Bool-cases (text_eq (order_key o) key)) [
            | inl hit ↦
                let e : order_key o ≡ key = (text_eq_iff (order_key o) key).0 hit in
                rw (hit, ← e)
                  (
                    λ i. elim (In-append old (o.timestamp_ns ∷ []) i) [
                      | inl j ↦ inl j
                      | inr j ↦ elim (In-cons j) [
                        | inl at ↦ inr (record { abusive = abusive; keyed = refl; timed = at })
                        | inr k ↦ absurd (In-nil k)
                      ]
                    ],
                    λ h. elim h [
                      | inl i ↦ In-append_left old (o.timestamp_ns ∷ []) i
                      | inr a ↦
                          In-append_right old (o.timestamp_ns ∷ [])
                            (subst (λ s. In s (o.timestamp_ns ∷ [])) a.timed here)
                    ],
                  )
            | inr miss ↦ rw miss (
              λ i. inl i,
              λ h. elim h [
                | inl i ↦ i
                | inr a ↦ absurd (cc (miss, (text_eq_iff (order_key o) key).1 a.keyed))
              ],
            )
          ])
  ]

  -- The timestamps that the loop collects for a key.
  find-add_abuse :
      (key : Text) (t : ℤ) (orders : List (SimulatedOrder F)) (truth : MlAnomalyGroundTruth)
      → In t (or_else (find text_eq key (add_abuse orders truth)) []) ↔ (
          In t (or_else (find text_eq key truth) [])
          ⊎ ((o : SimulatedOrder F) × In o orders × IsAbuse key t o))
  unfolding add_abuse
  find-add_abuse key t [] truth =
      (λ i. inl i, λ h. elim h [ inl i ↦ i | inr (o, i, _) ↦ absurd (In-nil i) ])
  find-add_abuse key t (o ∷ orders) truth =
      let later = find-add_abuse key t orders (add_one o truth) in
      let now = add_one-In key t o truth in
      (
        λ i. elim (later.0 i) [
          | inl j ↦ elim (now.0 j) [ inl k ↦ inl k | inr a ↦ inr (o, here, a) ]
          | inr (p, j, a) ↦ inr (p, there j, a)
        ],
        λ h. elim h [
          | inl i ↦ later.1 (inl (now.1 (inl i)))
          | inr (p, j, a) ↦ elim (In-cons j) [
            | inl e ↦ later.1 (inl (now.1 (inr (subst (λ z. IsAbuse key t z) (sym e) a))))
            | inr k ↦ later.1 (inr (p, k, a))
          ]
        ],
      )

  -- An alert that names an account counts as positive exactly if an order of the session with a label of
  -- abuse, and with the key of that account and the alert's instrument, has its time in the window that ends
  -- at the alert's time, both ends included.
  pub ml_anomaly_window_is_positive_iff :
      (s : SimulationOutput F) (alert : Alert F) (a : Text) (more : List Text) (duration : ℤ)
      → alert.account_ids ≡ a ∷ more
      → (ml_anomaly_window_is_positive (build_ml_anomaly_ground_truth s) alert duration ≡ true) ↔ (
          (t : ℤ) × (alert.window_start_ns -ℤ duration ≤ℤ t)
          × (t ≤ℤ alert.window_start_ns)
          × ((o : SimulatedOrder F) × In o s.orders
              × IsAbuse (window_key a alert.instrument_id) t o))
  unfolding ml_anomaly_window_is_positive build_ml_anomaly_ground_truth find
  ml_anomaly_window_is_positive_iff s alert a more duration named =
      let key = window_key a alert.instrument_id in
      let lo = alert.window_start_ns -ℤ duration in
      let found = find-sort_each key (add_abuse s.orders []) lo alert.window_start_ns in
      rw named (
        λ h.
            let (t, i, from, to) = found.0 h in
            elim ((find-add_abuse key t s.orders []).0 i) [
              | inl j ↦ absurd (In-nil j)
              | inr o ↦ (t, from, to, o)
            ],
        λ (t, from, to, o). found.1 (t, (find-add_abuse key t s.orders []).1 (inr o), from, to),
      )
