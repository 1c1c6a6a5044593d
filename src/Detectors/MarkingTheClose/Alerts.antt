-- ===== src/Detectors/MarkingTheClose/Alerts.antt =====
-- When the detector alerts, and that it does so once.
use trade_surveillance_engin.Prelude.{
  ◌≡◌, refl, inl, inr, true, false, List, [], ◌∷◌, Text, text_eq, text_eq_refl, find, or_else, none,
  some, ℤ, pos, ◌≤ℤ◌, ltb_ℤ, Double, Bool-cases, ap, ◌∙◌, ◌||◌, int_laws, In, here, there, arith,
}
use trade_surveillance_engin.Detectors.{Alert}
use trade_surveillance_engin.Detectors.Accounts.{contains}
use trade_surveillance_engin.Detectors.MarkingTheClose.Marks.{
  contains-insert, volume_of, group_volume_lem,
}
use trade_surveillance_engin.Detectors.MarkingTheClose.Calls.{Later, Later-Keeps}
use trade_surveillance_engin.Detectors.MarkingTheClose.{
  MarkingTheCloseConfig, ClosingWindows, key_for, any_alerted, group_volume, mark, share_of,
  judge_total, judge,
}

any_alerted_of :
    (alerted : List Text) (i a : Text) (members : List Text)
    → In a members
    → contains (key_for i a) alerted ≡ true
    → any_alerted alerted i members ≡ true
unfolding any_alerted
any_alerted_of alerted i a [] j h = elim j [ ]
any_alerted_of alerted i a (a' ∷ members) here h = ground (arith, h)
any_alerted_of alerted i a (b ∷ members) (there j) h =
    ground (arith, any_alerted_of alerted i a members j h)

module _ {F : Type 0} ⦃d : Double F⦄ (config : MarkingTheCloseConfig F) where
  -- The group's quantity and the instrument's, as they are recorded.
  abbrev pub group_qty : ClosingWindows → Text → List Text → ℤ
  group_qty w i members = volume_of w.account_window_qty i members

  abbrev pub total_qty : ClosingWindows → Text → ℤ
  total_qty w i = or_else (find text_eq i w.total_window_qty) (pos 0)

  -- What an alert says of the windows it was raised on, and what it leaves.
  pub record Concentrated (w : ClosingWindows) (i a : Text) (members : List Text)
      (after : ClosingWindows) : Type 0 where
    pub fresh : any_alerted w.alerted i members ≡ false
    pub group : config.min_account_qty_threshold ≤ℤ group_qty w i members
    pub total : config.min_total_window_qty_threshold ≤ℤ total_qty w i
    pub share :
        d.lt
          (share_of config (group_qty w i members) (total_qty w i))
          config.concentration_threshold
        ≡ false
    pub marks :
        (k : Text) → contains k after.alerted ≡ (text_eq (key_for i a) k || contains k w.alerted)

  -- One alert, with the sums as they are recorded.
  judge_cases :
      (w : ClosingWindows) (i a : Text) (members : List Text) (ws ts seq : ℤ) (alert : Alert F)
      → (judge config w i a members ws ts seq).0 ≡ some alert
      → Concentrated w i a members (judge config w i a members ws ts seq).1
  unfolding judge judge_total mark
  judge_cases w i a members ws ts seq alert h =
      let gone = group_volume_lem w i members (pos 0) [] in
      let qty : (group_volume w i members (pos 0) []).1 ≡ group_qty w i members =
        gone.0 ∙ omega int_laws in
      let total_same : or_else
            (find text_eq i (group_volume w i members (pos 0) []).0.total_window_qty) (pos 0)
          ≡ total_qty w i =
        ap (λ m. or_else (find text_eq i m) (pos 0)) gone.2 in
      elim (Bool-cases (any_alerted w.alerted i members)) [
        | inl old ↦ cc (rw old at h)
        | inr fresh ↦
            elim (Bool-cases (ltb_ℤ (group_qty w i members) config.min_account_qty_threshold)) [
              | inl small ↦ cc (rw (fresh, qty, small) at h)
              | inr enough ↦
                  elim (Bool-cases (ltb_ℤ (total_qty w i) config.min_total_window_qty_threshold)) [
                    | inl small ↦ cc (rw (fresh, qty, enough, total_same, small) at h)
                    | inr busy ↦
                        elim (Bool-cases (
                          d.lt (share_of config (group_qty w i members) (total_qty w i))
                            config.concentration_threshold)) [
                              | inl thin ↦ cc (rw (fresh, qty, enough, total_same, busy, thin) at h)
                              | inr much ↦ record {
                                fresh = fresh;
                                group = ground (arith, enough);
                                total = ground (arith, busy);
                                share = much;
                                marks = λ k.
                                    rw (fresh, qty, enough, total_same, busy, much)
                                      (contains-insert k (key_for i a) _
                                        ∙ ap (λ l. text_eq (key_for i a) k || contains k l) gone.1);
                              }
                            ]
                  ]
            ]
      ]

  -- An alert is raised only if no member of the group has one for the instrument, and the quantities recorded
  -- for the members, the instrument's and the share of the one in the other reach their thresholds. The
  -- account is then marked, with all who were marked before and no other. However many checks of accounts and
  -- events the detector goes through after that, no group with the account gets another alert for the
  -- instrument.
  pub judge-Concentrated :
      (w : ClosingWindows) (i a : Text) (members : List Text) (ws ts seq : ℤ) (alert : Alert F)
      → (judge config w i a members ws ts seq).0 ≡ some alert
      → let after = (judge config w i a members ws ts seq).1 in
        Concentrated w i a members after
        × ((w' : ClosingWindows) (b : Text) (others : List Text) (ws' ts' seq' : ℤ)
            → Later config after w'
            → In a others
            → (judge config w' i b others ws' ts' seq').0 ≡ none)
  unfolding judge
  judge-Concentrated w i a members ws ts seq alert h =
      let c = judge_cases w i a members ws ts seq alert h in
      (
        c,
        λ w' b others ws' ts' seq' later j.
            let marked =
              Later-Keeps config _ w' later (key_for i a)
                (rw (c.marks (key_for i a)) (rw (text_eq_refl (key_for i a)) refl)) in
            rw (any_alerted_of w'.alerted i a others j marked) refl,
      )
