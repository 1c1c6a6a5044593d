-- ===== src/Detectors/MarkingTheClose/Marks.antt =====
-- The marks of the accounts that have had an alert, and the quantities recorded for a group.
use trade_surveillance_engin.Prelude.{
  ◌≡◌, refl, subst, ap, inl, inr, true, ◌||◌, List, [], ◌∷◌, ◌++◌, Text, text_eq, text_eq_iff, find,
  find-put, put, or_else, ℤ, pos, ◌+ℤ◌, Bool-cases, int_laws, arith,
}
use trade_surveillance_engin.Detectors.Accounts.{contains}
use trade_surveillance_engin.Detectors.MarkingTheClose.Groups.{insert}
use trade_surveillance_engin.Detectors.MarkingTheClose.{ClosingWindows, key_for, group_volume}

contains-append :
    (k a : Text) (l : List Text) → contains k (l ++ a ∷ []) ≡ (text_eq a k || contains k l)
unfolding contains
contains-append k a [] = refl
contains-append k a (b ∷ l) = ground (arith, contains-append k a l)

pub contains-insert :
    (k a : Text) (l : List Text) → contains k (insert a l) ≡ (text_eq a k || contains k l)
unfolding insert
contains-insert k a l = elim (Bool-cases (contains a l)) [
  | inl there ↦ elim (Bool-cases (text_eq a k)) [
    | inl same ↦
        rw (there, same) (subst (λ t. contains t l ≡ true) ((text_eq_iff a k).0 same) there)
    | inr other ↦ rw (there, other) refl
  ]
  | inr absent ↦ rw absent (contains-append k a l)
]

abbrev pub Keeps : ClosingWindows → ClosingWindows → Type 0
Keeps w w' = (k : Text) → contains k w.alerted ≡ true → contains k w'.alerted ≡ true

Keeps-same : (w w' : ClosingWindows) → w'.alerted ≡ w.alerted → Keeps w w'
Keeps-same w w' same k h = rw same h

-- What is recorded for the members of a group, added up.
abbrev pub volume_of : List (Text × ℤ) → Text → List Text → ℤ
volume_of qty i [] = pos 0
volume_of qty i (member ∷ members) =
    or_else (find text_eq (key_for i member) qty) (pos 0) +ℤ volume_of qty i members

find-own :
    (qty : List (Text × ℤ)) (k j : Text)
    → or_else (find text_eq j (put text_eq k (or_else (find text_eq k qty) (pos 0)) qty)) (pos 0)
      ≡ or_else (find text_eq j qty) (pos 0)
find-own qty k j =
    rw (find-put text_eq text_eq_iff k j (or_else (find text_eq k qty) (pos 0)) qty)
      (elim (Bool-cases (text_eq k j)) [
        | inl same ↦
            rw same (ap (λ t. or_else (find text_eq t qty) (pos 0)) ((text_eq_iff k j).0 same))
        | inr other ↦ rw other refl
      ])

volume_of-own :
    (qty : List (Text × ℤ)) (k i : Text) (members : List Text)
    → volume_of (put text_eq k (or_else (find text_eq k qty) (pos 0)) qty) i members
      ≡ volume_of qty i members
volume_of-own qty k i [] = refl
volume_of-own qty k i (m ∷ members) =
    rw (find-own qty k (key_for i m), volume_of-own qty k i members) refl

pub group_volume_lem :
    (w : ClosingWindows) (i : Text) (members : List Text) (qty : ℤ) (ids : List Text)
    → let after = group_volume w i members qty ids in
      (after.1 ≡ qty +ℤ volume_of w.account_window_qty i members)
      × (after.0.alerted ≡ w.alerted)
      × (after.0.total_window_qty ≡ w.total_window_qty)
unfolding group_volume
group_volume_lem w i [] qty ids = (omega int_laws, refl, refl)
group_volume_lem w i (m ∷ members) qty ids =
    let k = key_for i m in
    let own = or_else (find text_eq k w.account_window_qty) (pos 0) in
    let (a, b, c) =
      group_volume_lem (record w { account_window_qty = put text_eq k own w.account_window_qty }) i
        members (qty +ℤ own) (ids ++ or_else (find text_eq k w.trade_ids_by_key) []) in
    (rw (a, volume_of-own w.account_window_qty k i members) (omega int_laws), b, c)
