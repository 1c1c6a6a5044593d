-- ===== src/Detectors/MarkingTheClose/Tests.antt =====
-- The groups and the alert on small tables.
use trade_surveillance_engin.Prelude.{
  ℕ, suc, ◌≡◌, ◌≢◌, text_eq_iff, ◌↔◌, refl, inr, some, true, false, List, [], ◌∷◌, Text, codes,
  text_eq, find, pos, ◌+ℤ◌, In, here, there, arith,
}
use trade_surveillance_engin.Ticks.{ticks}
use trade_surveillance_engin.Detectors.Accounts.{contains}
use trade_surveillance_engin.Detectors.MarkingTheClose.Groups.{
  GroupParent, find_group, join, members_of,
}
use trade_surveillance_engin.Detectors.MarkingTheClose.Roots.{
  Leads, stop, step, KeepsRoots, find_group-Leads,
}
use trade_surveillance_engin.Detectors.MarkingTheClose.Merging.{
  AllLead, moved, join-Leads, members_of-Leads,
}
use trade_surveillance_engin.Detectors.MarkingTheClose.{
  MarkingTheCloseConfig, ClosingWindows, any_alerted, group_volume, judge_total, judge, alert_for,
}
use trade_surveillance_engin.Detectors.MarkingTheClose.Alerts.{judge-Concentrated}

-- A is under B, and C alone.
abbrev parents : GroupParent
parents = (codes "A", codes "B") ∷ (codes "B", codes "B") ∷ (codes "C", codes "C") ∷ []

apart : codes "B" ≢ codes "A"
unfolding text_eq
apart h = let e : false ≡ true = (text_eq_iff (codes "B") (codes "A")).1 h in cc

a-Leads : Leads parents 1 (codes "A") (codes "B")
unfolding find text_eq
a-Leads = step (codes "A") (codes "B") (codes "B") refl apart (stop (codes "B") (inr refl))

c-Leads : Leads parents 1 (codes "C") (codes "C")
unfolding find text_eq
c-Leads = stop (codes "C") (inr refl)

find_group-Leads_example :
    (parents' : GroupParent) × (find_group 2 parents (codes "A") ≡ some (codes "B", parents'))
    × KeepsRoots parents parents'
find_group-Leads_example =
    find_group-Leads parents 2 1 (codes "A") (codes "B") (omega arith) a-Leads

join-Leads_example :
    (parents' : GroupParent) × (join 2 parents (codes "A") (codes "C") ≡ some parents')
    × ((m : ℕ) (c r : Text)
        → Leads parents m c r
        → Leads parents' (suc m) c (moved (codes "B") (codes "C") r))
join-Leads_example =
    join-Leads parents 2 1 (codes "A") (codes "C") (codes "B") (codes "C") (omega arith) a-Leads
      c-Leads

abbrev seen : List Text
seen = codes "A" ∷ codes "C" ∷ []

seen_lead : AllLead parents 1 seen
seen_lead c here = (codes "B", a-Leads)
seen_lead c (there here) = (codes "C", c-Leads)
seen_lead c (there (there i)) = elim i [ ]

members_of-Leads_example :
    (members : List Text) × (parents' : GroupParent) × (members_of 2 parents (codes "B") seen
      ≡ some (members, parents'))
    × KeepsRoots parents parents'
    × ((c : Text) → In c members ↔ (In c seen × Leads parents 1 c (codes "B")))
members_of-Leads_example = members_of-Leads 2 1 (codes "B") seen parents (omega arith) seen_lead

abbrev config : MarkingTheCloseConfig ℕ
config = record {
  close_time_ns_by_instrument = (codes "X", pos 100) ∷ [];
  window_duration_ns = pos 10;
  concentration_threshold = 1;
  min_account_qty_threshold = pos 5;
  min_total_window_qty_threshold = pos 5;
}

-- All of the volume is the account's.
abbrev windows : ClosingWindows
windows = record {
  total_window_qty = (codes "X", pos 8) ∷ [];
  account_window_qty = (codes "X|A", pos 8) ∷ [];
  alerted = [];
  trade_ids_by_key = (codes "X|A", codes "T" ∷ []) ∷ [];
  group_parent = parents;
  all_accounts_seen = seen;
}

abbrev alone : List Text
alone = codes "A" ∷ []

alerts :
    (judge config windows (codes "X") (codes "A") alone (pos 90) (pos 95) (pos 1)).0
    ≡ some (
        alert_for config
          (codes "X")
          alone
          (codes "T" ∷ [])
          (pos 8)
          (pos 8)
          (pos 90)
          (pos 95)
          (pos 1))
unfolding judge judge_total any_alerted contains group_volume find text_eq ◌+ℤ◌
alerts = refl

judge-Concentrated_example : any_alerted windows.alerted (codes "X") alone ≡ false
judge-Concentrated_example =
    (judge-Concentrated config windows (codes "X") (codes "A") alone (pos 90) (pos 95) (pos 1) _
      alerts).0.fresh
