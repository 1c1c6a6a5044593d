-- ===== src/Detectors/MarkingTheClose.antt =====
-- cpp/detectors/marking_the_close_detector.hpp and .cpp: groups of related accounts with a large share
-- of the volume shortly before the close. The groups are looked up on fuel. A std::unordered_set is a list in the order of insertion,
-- where the code iterates in an unspecified order.
pub mod Groups
pub mod Roots
pub mod Merging
pub mod Marks
pub mod Calls
pub mod Alerts
mod Tests
use trade_surveillance_engin.Prelude.{
  ℕ, zero, suc, Bool, true, false, List, [], ◌∷◌, ◌++◌, Text, codes, is_empty, text_eq, find, put,
  or_else, not, ◌&&◌, ◌||◌, Option, none, some, ◌>>=◌, ℤ, pos, ◌+ℤ◌, ◌-ℤ◌, ltb_ℤ, Double, length,
  if◌then◌else◌,
}
use trade_surveillance_engin.Fix.{Execution, Event, order, execution}
use trade_surveillance_engin.OrderBook.{OrderBook}
use trade_surveillance_engin.Detectors.{Alert, to_int64}
use trade_surveillance_engin.Detectors.Accounts.{AccountRegistry, contains}
use trade_surveillance_engin.Detectors.MarkingTheClose.Groups.{
  GroupParent, insert, find_group, join_related, members_of,
}

pub record MarkingTheCloseConfig (F : Type 0) : Type 0 where
  pub close_time_ns_by_instrument : List (Text × ℤ)
  pub window_duration_ns : ℤ
  pub concentration_threshold : F
  pub min_account_qty_threshold : ℤ
  pub min_total_window_qty_threshold : ℤ

pub record ClosingWindows : Type 0 where
  pub total_window_qty : List (Text × ℤ)
  pub account_window_qty : List (Text × ℤ)
  pub alerted : List Text
  pub trade_ids_by_key : List (Text × List Text)
  pub group_parent : GroupParent
  pub all_accounts_seen : List Text

abbrev pub key_for : Text → Text → Text
key_for instrument_id account_id = instrument_id ++ codes "|" ++ account_id

unfoldable pub register_and_group :
    ℕ → ClosingWindows → Text → AccountRegistry → Option ClosingWindows
unfolding join_related contains insert
register_and_group fuel w account_id accounts =
    if contains account_id w.all_accounts_seen
    then some w
    else (join_related fuel accounts (put text_eq account_id account_id w.group_parent) account_id
          w.all_accounts_seen
        >>= λ parents. some (record w {
          group_parent = parents;
          all_accounts_seen = insert account_id w.all_accounts_seen;
        }))

unfoldable pub group_members : ℕ → ClosingWindows → Text → Option (List Text × ClosingWindows)
unfolding members_of
group_members fuel w account_id = find_group fuel w.group_parent account_id >>= λ (rep, parents).
    members_of fuel parents rep w.all_accounts_seen >>= λ (members, parents).
    some (members, record w { group_parent = parents })

-- Whether any member has an alert for the instrument.
unfoldable pub any_alerted : List Text → Text → List Text → Bool
unfolding contains
any_alerted alerted instrument_id [] = false
any_alerted alerted instrument_id (member ∷ members) =
    contains (key_for instrument_id member) alerted || any_alerted alerted instrument_id members

-- The sums over the members, and the quantities with the entries that `[]` creates.
unfoldable pub group_volume :
    ClosingWindows → Text → List Text → ℤ → List Text → ClosingWindows × ℤ × List Text
group_volume w instrument_id [] qty ids = (w, qty, ids)
group_volume w instrument_id (member ∷ members) qty ids =
    let key = key_for instrument_id member in
    let own = or_else (find text_eq key w.account_window_qty) (pos 0) in
    group_volume (record w { account_window_qty = put text_eq key own w.account_window_qty })
      instrument_id members (qty +ℤ own) (ids ++ or_else (find text_eq key w.trade_ids_by_key) [])

unfoldable pub mark : ClosingWindows → Text → Text → ClosingWindows
unfolding insert
mark w instrument_id account_id = record w {
  alerted = insert (key_for instrument_id account_id) w.alerted;
}

module _ {F : Type 0} ⦃d : Double F⦄ (config : MarkingTheCloseConfig F) where
  abbrev pub share_of : ℤ → ℤ → F
  share_of group_qty total_qty = d.div (d.of_int group_qty) (d.of_int total_qty)

  -- std::min(share, 1.0)
  abbrev pub capped : F → F
  capped share = if d.lt (d.of_int (pos 1)) share then d.of_int (pos 1) else share

  abbrev pub alert_for : Text → List Text → List Text → ℤ → ℤ → ℤ → ℤ → ℤ → Alert F
  alert_for instrument_id members ids group_qty total_qty window_start event_ts sequence = record {
    detector_name = codes "MarkingTheCloseDetector";
    score = capped (share_of group_qty total_qty);
    instrument_id = instrument_id;
    account_ids = members;
    order_ids = ids;
    window_start_ns = window_start;
    window_end_ns = event_ts;
    evidence =
        codes "account-group closing-window volume="
        ++ d.print_int group_qty
        ++ codes " / total="
        ++ d.print_int total_qty
        ++ codes " (share="
        ++ d.print (share_of group_qty total_qty)
        ++ codes ", group_size="
        ++ d.print_int (pos (length members))
        ++ codes ")";
    model_version = none;
    book_snapshot_sequence = some sequence;
  }

  -- The thresholds on a group's volume, in their order.
  unfoldable pub judge_total :
      ClosingWindows
      → Text
      → Text
      → List Text
      → List Text
      → ℤ
      → ℤ
      → ℤ
      → ℤ
      → ℤ
      → Option (Alert F) × ClosingWindows
  unfolding mark
  judge_total w instrument_id account_id members ids group_qty total_qty window_start event_ts
        sequence =
      if ltb_ℤ total_qty config.min_total_window_qty_threshold
      then (none, w)
      else if d.lt (share_of group_qty total_qty) config.concentration_threshold
      then (none, w)
      else (
        some (
            alert_for instrument_id members ids group_qty total_qty window_start event_ts sequence),
        mark w instrument_id account_id,
      )

  unfoldable pub judge :
      ClosingWindows → Text → Text → List Text → ℤ → ℤ → ℤ → Option (Alert F) × ClosingWindows
  unfolding group_volume judge_total any_alerted
  judge w instrument_id account_id members window_start event_ts sequence =
      if any_alerted w.alerted instrument_id members
      then (none, w)
      else (let (w, group_qty, ids) = group_volume w instrument_id members (pos 0) [] in
          if ltb_ℤ group_qty config.min_account_qty_threshold
          then (none, w)
          else (let total_qty = or_else (find text_eq instrument_id w.total_window_qty) (pos 0) in
              judge_total
                (record w {
                  total_window_qty = put text_eq instrument_id total_qty w.total_window_qty;
                })
                instrument_id account_id members ids group_qty total_qty window_start event_ts
                sequence))

  unfoldable pub check_account :
      ℕ
      → ClosingWindows
      → Text
      → Text
      → ℤ
      → ℤ
      → ℤ
      → AccountRegistry
      → Option (Option (Alert F) × ClosingWindows)
  unfolding register_and_group group_members judge
  check_account fuel w instrument_id account_id window_start event_ts sequence accounts =
      register_and_group fuel w account_id accounts >>= λ w.
      group_members fuel w account_id >>= λ (members, w).
      some (judge w instrument_id account_id members window_start event_ts sequence)

-- The volume of one side of an execution.
unfoldable pub add_volume : ClosingWindows → Text → Text → Text → ℤ → ClosingWindows
add_volume w instrument_id account_id trade_id qty =
    let key = key_for instrument_id account_id in
    record w {
      account_window_qty =
          put text_eq key (or_else (find text_eq key w.account_window_qty) (pos 0) +ℤ qty)
            w.account_window_qty;
      trade_ids_by_key =
          put text_eq key (or_else (find text_eq key w.trade_ids_by_key) [] ++ trade_id ∷ [])
            w.trade_ids_by_key;
    }

abbrev pub has_counterparty : {F : Type 0} → Execution F → Bool
has_counterparty x =
    not (is_empty x.counterparty_account_id) && not (text_eq x.counterparty_account_id x.account_id)

unfoldable pub record_execution : {F : Type 0} → ClosingWindows → Execution F → ClosingWindows
unfolding add_volume
record_execution w x =
    let total = or_else (find text_eq x.instrument_id w.total_window_qty) (pos 0) in
    let w = record w {
      total_window_qty = put text_eq x.instrument_id (total +ℤ x.qty) w.total_window_qty;
    } in
    let w = add_volume w x.instrument_id x.account_id x.trade_id x.qty in
    if has_counterparty x
    then add_volume w x.instrument_id x.counterparty_account_id x.trade_id x.qty
    else w

unfoldable pub alerts_of : {F : Type 0} → Option (Alert F) → List (Alert F)
alerts_of none = []
alerts_of (some a) = a ∷ []

module _ {F : Type 0} ⦃d : Double F⦄ (config : MarkingTheCloseConfig F) where
  unfoldable pub check_both :
      ℕ
      → ClosingWindows
      → Execution F
      → ℤ
      → ℤ
      → AccountRegistry
      → Option (ClosingWindows × List (Alert F))
  unfolding check_account alerts_of
  check_both fuel w x window_start sequence accounts =
      check_account config fuel w x.instrument_id x.account_id window_start x.timestamp_ns sequence
        accounts
      >>= λ (first, w).
          if has_counterparty x
          then (check_account config fuel w x.instrument_id x.counterparty_account_id window_start
                x.timestamp_ns sequence accounts
              >>= λ (second, w). some (w, alerts_of first ++ alerts_of second))
          else some (w, alerts_of first)

  unfoldable pub handle_execution :
      ℕ
      → ClosingWindows
      → Execution F
      → ℤ
      → AccountRegistry
      → Option (ClosingWindows × List (Alert F))
  unfolding record_execution check_both
  handle_execution fuel w x sequence accounts =
      elim (find text_eq x.instrument_id config.close_time_ns_by_instrument) [
        | none ↦ some (w, [])
        | some close_ts ↦
            let window_start = close_ts -ℤ config.window_duration_ns in
            if ltb_ℤ x.timestamp_ns window_start || ltb_ℤ close_ts x.timestamp_ns
            then some (w, [])
            else check_both fuel (record_execution w x) x window_start sequence accounts
      ]

  unfoldable pub evaluate :
      ℕ
      → ClosingWindows
      → OrderBook F
      → Event F
      → AccountRegistry
      → Option (ClosingWindows × List (Alert F))
  unfolding handle_execution
  evaluate fuel w b (order o) accounts = some (w, [])
  evaluate fuel w b (execution x) accounts =
      handle_execution fuel w x (to_int64 b.sequence) accounts
