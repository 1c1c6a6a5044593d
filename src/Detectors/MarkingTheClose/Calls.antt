-- ===== src/Detectors/MarkingTheClose/Calls.antt =====
-- What the calls of the detector leave of the marks.
use trade_surveillance_engin.Prelude.{
  ◌≡◌, refl, subst, inl, inr, ◌||◌, List, [], Text, text_eq, find, put, Option, none, some, ◌>>=◌,
  ℕ, ℤ, pos, ◌-ℤ◌, ltb_ℤ, Double, Bool-cases, if◌then◌else◌, arith,
}
use trade_surveillance_engin.Fix.{Execution, Event, order, execution}
use trade_surveillance_engin.OrderBook.{OrderBook}
use trade_surveillance_engin.Detectors.{Alert, to_int64}
use trade_surveillance_engin.Detectors.Accounts.{AccountRegistry, contains}
use trade_surveillance_engin.Detectors.MarkingTheClose.Groups.{
  GroupParent, find_group, join_related, members_of,
}
use trade_surveillance_engin.Detectors.MarkingTheClose.Marks.{
  contains-insert, Keeps, group_volume_lem,
}
use trade_surveillance_engin.Detectors.MarkingTheClose.{
  MarkingTheCloseConfig, ClosingWindows, key_for, register_and_group, group_members, group_volume,
  mark, judge_total, judge, check_account, add_volume, has_counterparty, record_execution,
  check_both, handle_execution, evaluate,
}

some_inj : {A : Type 0} {a b : A} → some a ≡ some b → a ≡ b
some_inj h = cc

-- What a call that may run out of fuel leads to, if it leads anywhere.
pub record OnSome {κ} {A : Type 0} (P : A → Type κ) (m : Option A) : Type κ where
  pub on : (a : A) → m ≡ some a → P a

OnSome-some {κ} : {A : Type 0} {P : A → Type κ} (a : A) → P a → OnSome P (some a)
OnSome-some {P = P} a h = record { on = λ b e. subst P (some_inj e) h }

OnSome-any : {A : Type 0} (m : Option A) → OnSome (λ a. Unit {0}) m
OnSome-any m = record { on = λ a e. tt }

OnSome-imp {κ μ} :
    {A : Type 0} {P : A → Type κ} {Q : A → Type μ} {m : Option A}
    → ((a : A) → P a → Q a)
    → OnSome P m
    → OnSome Q m
OnSome-imp f h = record { on = λ a e. f a (h.on a e) }

OnSome-bind {κ μ} :
    {A B : Type 0} (P : A → Type κ) {Q : B → Type μ} (m : Option A) (f : A → Option B)
    → OnSome P m
    → ((a : A) → P a → OnSome Q (f a))
    → OnSome Q (m >>= f)
OnSome-bind P none f h k = record { on = λ b e. cc }
OnSome-bind P (some a) f h k = k a (h.on a refl)

register_and_group-Keeps :
    (fuel : ℕ) (w : ClosingWindows) (account_id : Text) (accounts : AccountRegistry)
    → OnSome (Keeps w) (register_and_group fuel w account_id accounts)
unfolding register_and_group
register_and_group-Keeps fuel w account_id accounts =
    elim (Bool-cases (contains account_id w.all_accounts_seen)) [
      | inl seen ↦ rw seen (OnSome-some w (λ k h. h))
      | inr fresh ↦ rw fresh (
          OnSome-bind {A = GroupParent} (λ parents. Unit {0})
            (join_related fuel accounts (put text_eq account_id account_id w.group_parent)
              account_id w.all_accounts_seen)
            _ (OnSome-any _) λ parents _. OnSome-some _ (λ k h. h))
    ]

group_members-Keeps :
    (fuel : ℕ) (w : ClosingWindows) (account_id : Text)
    → OnSome (λ (r : List Text × ClosingWindows). Keeps w r.1) (group_members fuel w account_id)
unfolding group_members
group_members-Keeps fuel w account_id =
    OnSome-bind {A = Text × GroupParent} (λ found. Unit {0})
      (find_group fuel w.group_parent account_id) _ (OnSome-any _)
      λ found _.
        OnSome-bind {A = List Text × GroupParent} (λ members. Unit {0})
          (members_of fuel found.1 found.0 w.all_accounts_seen) _ (OnSome-any _)
          λ members _. OnSome-some _ (λ k h. h)

record_execution-Keeps :
    {F : Type 0} (w : ClosingWindows) (x : Execution F) → Keeps w (record_execution w x)
unfolding record_execution add_volume
record_execution-Keeps w x k h = elim (Bool-cases (has_counterparty x)) [
  | inl both ↦ rw both h
  | inr one ↦ rw one h
]

module _ {F : Type 0} ⦃d : Double F⦄ (config : MarkingTheCloseConfig F) where
  judge-Keeps :
      (w : ClosingWindows) (i a : Text) (members : List Text) (ws ts seq : ℤ)
      → Keeps w (judge config w i a members ws ts seq).1
  unfolding judge judge_total mark
  judge-Keeps w i a members ws ts seq k h =
      let (_, same, _) = group_volume_lem w i members (pos 0) [] in
      ground (
        arith,
        h,
        same,
        contains-insert k (key_for i a) (group_volume w i members (pos 0) []).0.alerted,
      )

  check_account-Keeps :
      (fuel : ℕ) (w : ClosingWindows) (i a : Text) (ws ts seq : ℤ) (accounts : AccountRegistry)
      → OnSome
          (λ (r : Option (Alert F) × ClosingWindows). Keeps w r.1)
          (check_account config fuel w i a ws ts seq accounts)
  unfolding check_account
  check_account-Keeps fuel w i a ws ts seq accounts =
      OnSome-bind (Keeps w) _ _ (register_and_group-Keeps fuel w a accounts) λ w1 h1.
        OnSome-bind (λ (r : List Text × ClosingWindows). Keeps w1 r.1) _ _
          (group_members-Keeps fuel w1 a)
          λ r h2. OnSome-some _ (λ k h. judge-Keeps r.1 i a r.0 ws ts seq k (h2 k (h1 k h)))

  check_both-Keeps :
      (fuel : ℕ) (w : ClosingWindows) (x : Execution F) (ws seq : ℤ) (accounts : AccountRegistry)
      → OnSome
          (λ (r : ClosingWindows × List (Alert F)). Keeps w r.0)
          (check_both config fuel w x ws seq accounts)
  unfolding check_both
  check_both-Keeps fuel w x ws seq accounts =
      OnSome-bind (λ (r : Option (Alert F) × ClosingWindows). Keeps w r.1) _ _
        (check_account-Keeps fuel w x.instrument_id x.account_id ws x.timestamp_ns seq accounts)
        λ first h1. elim (Bool-cases (has_counterparty x)) [
          | inl both ↦ rw both (
              OnSome-bind (λ (r : Option (Alert F) × ClosingWindows). Keeps first.1 r.1) _ _
                (check_account-Keeps fuel first.1 x.instrument_id x.counterparty_account_id ws
                  x.timestamp_ns seq accounts)
                λ second h2. OnSome-some _ (λ k h. h2 k (h1 k h)))
          | inr one ↦ rw one (OnSome-some _ h1)
        ]

  handle_execution-Keeps :
      (fuel : ℕ) (w : ClosingWindows) (x : Execution F) (seq : ℤ) (accounts : AccountRegistry)
      → OnSome
          (λ (r : ClosingWindows × List (Alert F)). Keeps w r.0)
          (handle_execution config fuel w x seq accounts)
  unfolding handle_execution
  handle_execution-Keeps fuel w x seq accounts =
      in_window (find text_eq x.instrument_id config.close_time_ns_by_instrument)
    where
      in_window :
          (close : Option ℤ)
          → OnSome
              (λ (r : ClosingWindows × List (Alert F)). Keeps w r.0)
              (elim close [
                | none ↦ some (w, [])
                | some close_ts ↦
                    let window_start = close_ts -ℤ config.window_duration_ns in
                    if ltb_ℤ x.timestamp_ns window_start || ltb_ℤ close_ts x.timestamp_ns
                    then some (w, [])
                    else check_both config fuel (record_execution w x) x window_start seq accounts
              ])
      in_window none = OnSome-some _ (λ k h. h)
      in_window (some close_ts) =
          let window_start = close_ts -ℤ config.window_duration_ns in
          elim (Bool-cases (ltb_ℤ x.timestamp_ns window_start || ltb_ℤ close_ts x.timestamp_ns)) [
            | inl outside ↦ rw outside (OnSome-some _ (λ k h. h))
            | inr inside ↦ rw inside (
                OnSome-imp (λ r later k h. later k (record_execution-Keeps w x k h))
                  (check_both-Keeps fuel (record_execution w x) x window_start seq accounts))
          ]

  -- No call of the detector takes back a mark.
  pub evaluate-Keeps :
      (fuel : ℕ) (w : ClosingWindows) (b : OrderBook F) (e : Event F) (accounts : AccountRegistry)
      → OnSome
          (λ (r : ClosingWindows × List (Alert F)). Keeps w r.0)
          (evaluate config fuel w b e accounts)
  unfolding evaluate
  evaluate-Keeps fuel w b (order o) accounts = OnSome-some _ (λ k h. h)
  evaluate-Keeps fuel w b (execution x) accounts =
      handle_execution-Keeps fuel w x (to_int64 b.sequence) accounts

  -- The windows after any further calls: what is left of an event, the check of its other account, and
  -- whole events.
  pub data Later (w : ClosingWindows) : ClosingWindows → Type 0 where
    now : Later w w
    next_check :
        (w' : ClosingWindows) (fuel : ℕ) (i a : Text) (ws ts seq : ℤ) (accounts : AccountRegistry)
        (raised : Option (Alert F)) (w'' : ClosingWindows)
        → Later w w'
        → check_account config fuel w' i a ws ts seq accounts ≡ some (raised, w'')
        → Later w w''
    next_event :
        (w' : ClosingWindows) (fuel : ℕ) (b : OrderBook F) (e : Event F)
        (accounts : AccountRegistry) (w'' : ClosingWindows) (alerts : List (Alert F))
        → Later w w'
        → evaluate config fuel w' b e accounts ≡ some (w'', alerts)
        → Later w w''

  pub Later-Keeps : (w w' : ClosingWindows) → Later w w' → Keeps w w'
  Later-Keeps w w' now k h = h
  Later-Keeps w w' (next_check v fuel i a ws ts seq accounts raised w'' before call) k h =
      (check_account-Keeps fuel v i a ws ts seq accounts).on (raised, w'') call k
        (Later-Keeps w v before k h)
  Later-Keeps w w' (next_event v fuel b e accounts w'' alerts before call) k h =
      (evaluate-Keeps fuel v b e accounts).on (w'', alerts) call k (Later-Keeps w v before k h)
