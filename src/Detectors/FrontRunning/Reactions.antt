-- ===== src/Detectors/FrontRunning/Reactions.antt =====
-- Which recorded orders a new order is reported against, and what the window then holds.
use trade_surveillance_engin.Prelude.{
  ◌≡◌, ◌≢◌, true, false, List, [], ◌∷◌, ◌++◌, Text, text_eq, text_eq_iff, find, put, or_else, some,
  ℤ, ◌-ℤ◌, ◌+ℤ◌, -ℤ_parts, +ℤ_parts, ◌≤ℤ◌, ltb_ℤ, abs, Double, arith, In, here, there, In-append,
  In-cons, In-nil, ◌∙◌, In-of_eq, subst, sym, In-append_right, ◌⊎◌, inl, inr, Bool-cases, find-put,
  text_eq_refl,
}
use trade_surveillance_engin.Fix.{Order}
use trade_surveillance_engin.Detectors.{Alert}
use trade_surveillance_engin.Detectors.Accounts.{AccountRegistry, is_related}
use trade_surveillance_engin.Detectors.FrontRunning.{
  FrontRunningConfig, RecentOrder, RecentOrders, key_for, prune, reacts_to, alert_for, alerts_for,
  recent_of, handle_new,
}

-- Two timestamps no more than a window apart.
abbrev pub IsNear : ℤ → ℤ → ℤ → Type 0
IsNear window s t = (s ≤ℤ t +ℤ window) × (t ≤ℤ s +ℤ window)

IsNear-of_test : (w s t : ℤ) → ltb_ℤ w (abs (s -ℤ t)) ≡ false → IsNear w s t
IsNear-of_test w s t h = ground (arith, -ℤ_parts s t, +ℤ_parts t w, +ℤ_parts s w)

test-of_IsNear : (w s t : ℤ) → IsNear w s t → ltb_ℤ w (abs (s -ℤ t)) ≡ false
test-of_IsNear w s t h = ground (arith, -ℤ_parts s t, +ℤ_parts t w, +ℤ_parts s w)

-- Pruning keeps exactly the near entries.
prune-In :
    (w now : ℤ) (r : RecentOrder) (rs : List RecentOrder)
    → In r (prune w now rs)
    → In r rs × IsNear w now r.timestamp_ns
unfolding prune
prune-In w now r [] i = elim i [ ]
prune-In w now r (x ∷ rs) i = elim (Bool-cases (ltb_ℤ w (abs (now -ℤ x.timestamp_ns)))) [
  | inl far ↦ let (j, n) = prune-In w now r rs (rw far at i) in (there j, n)
  | inr near ↦ elim (In-cons (rw near at i)) [
    | inl e ↦ (
      In-of_eq rs e,
      subst (λ (y : RecentOrder). IsNear w now y.timestamp_ns) e
          (IsNear-of_test w now x.timestamp_ns near),
    )
    | inr j ↦ let (k, n) = prune-In w now r rs j in (there k, n)
  ]
]

In-prune :
    (w now : ℤ) (r : RecentOrder) (rs : List RecentOrder)
    → In r rs
    → IsNear w now r.timestamp_ns
    → In r (prune w now rs)
unfolding prune
In-prune w now r [] i n = elim i [ ]
In-prune w now r (x ∷ rs) here n = rw (test-of_IsNear w now x.timestamp_ns n) here
In-prune w now r (x ∷ rs) (there i) n =
    let rest = In-prune w now r rs i n in
    elim (Bool-cases (ltb_ℤ w (abs (now -ℤ x.timestamp_ns)))) [
      | inl far ↦ rw far rest
      | inr near ↦ rw near (there rest)
    ]

module _ {F : Type 0} ⦃d : Double F⦄ (config : FrontRunningConfig F) (accounts : AccountRegistry)
    (o : Order F) where
  -- An order reacts to a recorded one: another, related account placed a large order, this one is
  -- small beside it, and it comes after it and within the window.
  pub record Reacts (p : RecentOrder) : Type 0 where
    pub other : p.account_id ≢ o.account_id
    pub related : is_related accounts o.account_id p.account_id ≡ true
    pub large : config.min_large_qty_threshold ≤ℤ p.qty
    pub small :
        d.lt (d.mul (d.of_int p.qty) config.max_leader_to_large_size_ratio) (d.of_int o.qty) ≡ false
    pub after : p.timestamp_ns ≤ℤ o.timestamp_ns
    pub within : o.timestamp_ns ≤ℤ p.timestamp_ns +ℤ config.lookback_window_ns

  reacts_to-Reacts :
      (p : RecentOrder)
      → reacts_to config accounts o p ≡ true
      → IsNear config.lookback_window_ns o.timestamp_ns p.timestamp_ns
      → Reacts p
  unfolding reacts_to
  reacts_to-Reacts p h n = record {
    other = λ e. ground (arith, text_eq_iff p.account_id o.account_id);
    related = ground arith;
    large = ground arith;
    small = ground arith;
    after = ground arith;
    within = n.0;
  }

  Reacts-reacts_to : (p : RecentOrder) → Reacts p → reacts_to config accounts o p ≡ true
  unfolding reacts_to
  Reacts-reacts_to p r = ground (arith, r.other, text_eq_iff p.account_id o.account_id)

  alerts_for_sound :
      (sequence : ℤ) (a : Alert F) (rs : List RecentOrder)
      → In a (alerts_for config accounts o sequence rs)
      → (p : RecentOrder) × (In p rs)
        × (reacts_to config accounts o p ≡ true)
        × (a ≡ alert_for config o p sequence)
  unfolding alerts_for
  alerts_for_sound sequence a [] i = elim i [ ]
  alerts_for_sound sequence a (x ∷ rs) i = elim (Bool-cases (reacts_to config accounts o x)) [
    | inl hit ↦ elim (In-cons (rw hit at i)) [
      | inl e ↦ (x, here, hit, sym e)
      | inr j ↦ let (p, k, r, e) = alerts_for_sound sequence a rs j in (p, there k, r, e)
    ]
    | inr miss ↦
        let (p, k, r, e) = alerts_for_sound sequence a rs (rw miss at i) in (p, there k, r, e)
  ]

  alerts_for_complete :
      (sequence : ℤ) (p : RecentOrder) (rs : List RecentOrder)
      → In p rs
      → reacts_to config accounts o p ≡ true
      → In (alert_for config o p sequence) (alerts_for config accounts o sequence rs)
  unfolding alerts_for
  alerts_for_complete sequence p [] i h = elim i [ ]
  alerts_for_complete sequence p (x ∷ rs) here h = rw h here
  alerts_for_complete sequence p (x ∷ rs) (there i) h =
      let rest = alerts_for_complete sequence p rs i h in
      elim (Bool-cases (reacts_to config accounts o x)) [
        | inl hit ↦ rw hit (there rest)
        | inr miss ↦ rw miss rest
      ]

  -- The orders that are recorded for an order's instrument and side.
  abbrev pub recorded : RecentOrders → List RecentOrder
  recorded s = or_else (find text_eq (key_for o.instrument_id o.side) s) []

  -- A New raises an alert against exactly those recorded orders that it reacts to: every alert is the
  -- alert for such an order, and every such order has its alert.
  pub alerts_iff_Reacts :
      (s : RecentOrders) (sequence : ℤ)
      → ((a : Alert F)
          → In a (handle_new config s o accounts sequence).1
          → (p : RecentOrder) × (In p (recorded s))
            × (Reacts p)
            × (a ≡ alert_for config o p sequence))
        × ((p : RecentOrder)
            → In p (recorded s)
            → Reacts p
            → In (alert_for config o p sequence) (handle_new config s o accounts sequence).1)
  unfolding handle_new
  alerts_iff_Reacts s sequence = (
    λ a i.
        let (p, j, h, e) = alerts_for_sound sequence a _ i in
        let (k, n) = prune-In config.lookback_window_ns o.timestamp_ns p (recorded s) j in
        (p, k, reacts_to-Reacts p h n, e),
    λ p i r.
        alerts_for_complete sequence p _
          (In-prune config.lookback_window_ns o.timestamp_ns p (recorded s) i (
            r.within,
            omega (
              arith,
              r.after,
              r.within,
              +ℤ_parts o.timestamp_ns config.lookback_window_ns,
              +ℤ_parts p.timestamp_ns config.lookback_window_ns,
            ),
          ))
          (Reacts-reacts_to p r),
  )

  -- After a New its instrument and side hold the order itself and, of the orders recorded before, only
  -- such as lie within the window of it in either direction; all other windows stay as they were.
  pub window_after_new :
      (s : RecentOrders) (sequence : ℤ)
      → let s' = (handle_new config s o accounts sequence).0 in
        (In (recent_of o) (recorded s'))
        × ((r : RecentOrder)
            → In r (recorded s')
            → (recent_of o ≡ r)
              ⊎ (In r (recorded s)
                  × IsNear config.lookback_window_ns o.timestamp_ns r.timestamp_ns))
        × ((k : Text) → k ≢ key_for o.instrument_id o.side → find text_eq k s' ≡ find text_eq k s)
  unfolding handle_new
  window_after_new s sequence =
      let key = key_for o.instrument_id o.side in
      let kept = prune config.lookback_window_ns o.timestamp_ns (recorded s) in
      let stored : find text_eq key (put text_eq key (kept ++ recent_of o ∷ []) s)
          ≡ some (kept ++ recent_of o ∷ []) =
        find-put text_eq text_eq_iff key key (kept ++ recent_of o ∷ []) s ∙ rw (text_eq_refl key) in
      (
        rw stored (In-append_right kept (recent_of o ∷ []) here),
        λ r i. elim (In-append kept (recent_of o ∷ []) (rw stored at i)) [
          | inl j ↦ inr (prune-In config.lookback_window_ns o.timestamp_ns r (recorded s) j)
          | inr j ↦ elim (In-cons j) [ inl e ↦ inl e | inr k ↦ absurd (In-nil k) ]
        ],
        λ k apart. ground (
          arith,
          find-put text_eq text_eq_iff key k (kept ++ recent_of o ∷ []) s,
          λ (e : k ≡ key). apart e,
          text_eq_iff key k,
        ),
      )
