-- ===== src/Simulator/MarkingTheClose/Backed.antt =====
-- The orders and executions of cpp/simulator/abuse/marking_the_close.cpp.
use trade_surveillance_engin.Prelude.{
  negsuc, ℕ, zero, suc, ◌+◌, ◌%◌, ◌≤◌, ◌<◌, ◌^◌, ◌≡◌, refl, ℤ, pos, pos_part, ◌+ℤ◌, ◌-ℤ◌, +ℤ_parts,
  min_ℤ, ◌≤ℤ◌, Text, List, [], ◌∷◌, length, some, Double, arith, All, here, Bool-cases, inl, inr,
  ltb, if◌then◌else◌, ◌==◌, false,
}
use trade_surveillance_engin.Simulator.{SimulatedOrder, SimulatedExecution, Instrument, Account}
use trade_surveillance_engin.Simulator.Draws.{Draws, IsDraws, lerp}
use trade_surveillance_engin.Simulator.Draws.Makes.{
  Makes, Any, get_elem?-below, Makes-bind, Makes-returning, Makes-integer, Makes-int64,
  Makes-double, Makes-order_id, Makes-trade_id, Makes-element,
}
use trade_surveillance_engin.Simulator.Scenario.{ScenarioOutput, BackedBy, BackedBy-cons}
use trade_surveillance_engin.Simulator.MarkingTheClose.{
  larger, Closing, account_at, close_trade, close_trades, accounts_used_for,
  generate_marking_the_close_scenario,
}

-- An order and its execution: at least a millisecond before the close, filled in full within 20 ms.
record IsCloseTrade {F : Type 0} (close_time : ℤ) (one : SimulatedOrder F × SimulatedExecution F)
    : Type 0 where
  of_order : one.0.order_id ≡ one.1.order_id
  before_close : one.0.timestamp_ns ≤ℤ close_time -ℤ pos 1_000_000
  in_full : one.1.qty ≡ one.0.qty
  at_once :
      (one.0.timestamp_ns +ℤ pos 1_000_000 ≤ℤ one.1.timestamp_ns)
      × (one.1.timestamp_ns ≤ℤ one.0.timestamp_ns +ℤ pos 20_000_000)

pub record IsClosing {F : Type 0} (close_time : ℤ) (out : ScenarioOutput F) : Type 0 where
  pub backed : BackedBy out.orders out.executions
  pub before_close :
      All (λ (o : SimulatedOrder F). o.timestamp_ns ≤ℤ close_time -ℤ pos 1_000_000) out.orders

at_once_lem :
    (t s : ℤ)
    → pos 1_000_000 ≤ℤ s
    → s ≤ℤ pos 20_000_000
    → (t +ℤ pos 1_000_000 ≤ℤ t +ℤ s) × (t +ℤ s ≤ℤ t +ℤ pos 20_000_000)
at_once_lem t s h k =
    ground (arith, +ℤ_parts t s, +ℤ_parts t (pos 1_000_000), +ℤ_parts t (pos 20_000_000))

min_le : (a b : ℤ) → min_ℤ a b ≤ℤ b
min_le a b = ground arith

account_at-length :
    (accounts : List Account) (i used : ℕ)
    → 0 < used
    → used ≤ length accounts
    → (a : Account) × (account_at accounts i used ≡ some a)
account_at-length accounts i used some_used few =
    let below : i % used < length accounts = omega (arith) in
    let (a, e, _) = get_elem?-below accounts (i % used) below in
    let nonzero : (used == 0) ≡ false = ground arith in (a, rw nonzero e)

used_lem :
    (z : ℤ) (n : ℕ)
    → 0 < n
    → pos 1 ≤ℤ z
    → z ≤ℤ pos 9_223_372_036_854_775_807
    → let used = pos_part z % 2 ^ 64 in
      let bounded = if ltb n used then n else used in (0 < bounded) × (bounded ≤ n)
used_lem (pos z) n some_n h k = ground arith
used_lem (negsuc z) n some_n h k = absurd (omega arith)

-- The number of accounts that a severity asks for, before its cast to an integer.
abbrev pub accounts_wanted : {F : Type 0} ⦃d : Double F⦄ → Draws F → F → F
accounts_wanted ⦃d⦄ q severity =
    larger q (d.of_int (pos 1)) (q.round (lerp q (d.of_int (pos 2)) (d.of_int (pos 1)) severity))

-- Its cast: what is not below one is at least one, and in the range of int64_t.
pub record IsCast {F : Type 0} ⦃d : Double F⦄ (q : Draws F) (severity : F) : Type 0 where
  pub one :
      d.lt (accounts_wanted q severity) (d.of_int (pos 1)) ≡ false
      → pos 1 ≤ℤ q.truncate (accounts_wanted q severity)
  pub int64 : q.truncate (accounts_wanted q severity) ≤ℤ pos 9_223_372_036_854_775_807

module _ {F : Type 0} ⦃d : Double F⦄ (q : Draws F) (lib : IsDraws q) where
  -- the time before the bound
  abbrev uncut : Closing F → ℕ → ℤ → ℤ
  uncut c i back =
      (c.window_start
        +ℤ q.truncate (d.mul (d.div (d.of_int (pos (i + 1))) (d.of_int c.num_trades)) c.window_ns))
      -ℤ back

  close_trade-Makes :
      (c : Closing F) (i : ℕ)
      → 0 < c.accounts_used
      → c.accounts_used ≤ length c.accounts
      → Makes (IsCloseTrade c.close_time) (close_trade q c i)
  unfolding close_trade
  close_trade-Makes c i some_used few =
      let (a, at) = account_at-length c.accounts i c.accounts_used some_used few in
      Makes-bind Any _ _ (Makes-integer q _ _) λ back _.
        Makes-bind _ _ _ (Makes-element _ a at) λ account _.
          Makes-bind Any _ _ Makes-order_id λ id _. Makes-bind Any _ _ Makes-trade_id λ id' _.
            Makes-bind _ _ _ (Makes-int64 q lib (pos 1_000_000) (pos 20_000_000) (omega arith))
              λ delay h. Makes-returning _ (record {
                of_order = refl;
                before_close = min_le (uncut c i back) (c.close_time -ℤ pos 1_000_000);
                in_full = refl;
                at_once = at_once_lem _ delay h.0 h.1;
              })

  close_trades-Makes :
      (rounds : ℕ) (c : Closing F) (i : ℕ)
      → 0 < c.accounts_used
      → c.accounts_used ≤ length c.accounts
      → Makes (IsClosing c.close_time) (close_trades q rounds c i)
  unfolding close_trades
  close_trades-Makes zero c i some_used few =
      Makes-returning _ (record { backed = tt; before_close = tt })
  close_trades-Makes (suc rounds) c i some_used few =
      Makes-bind _ _ _ (close_trade-Makes c i some_used few) λ one h.
        Makes-bind _ _ _ (close_trades-Makes rounds c (i + 1) some_used few) λ rest k.
          Makes-returning _ (record {
            backed = (
              (one.0, here, h.of_order),
              BackedBy-cons one.0 rest.orders rest.executions k.backed,
            );
            before_close = (h.before_close, k.before_close);
          })

  not-lt_larger : (x : F) → d.lt (larger q (d.of_int (pos 1)) x) (d.of_int (pos 1)) ≡ false
  not-lt_larger x = elim (Bool-cases (d.lt (d.of_int (pos 1)) x)) [
    | inl more ↦ rw more (elim (Bool-cases (d.lt x (d.of_int (pos 1)))) [
      | inl less ↦
          let around = d.lt_trans x (d.of_int (pos 1)) x less more in
          let never = d.lt_irrefl x in cc
      | inr e ↦ e
    ])
    | inr less ↦ rw less (d.lt_irrefl (d.of_int (pos 1)))
  ]

  accounts_used-IsUsed :
      (severity : F)
      → IsCast q severity
      → (accounts : List Account) → 0 < length accounts
      → (0 < accounts_used_for q severity accounts)
        × (accounts_used_for q severity accounts ≤ length accounts)
  accounts_used-IsUsed severity cast accounts some_account =
      used_lem (q.truncate (accounts_wanted q severity)) (length accounts) some_account
        (cast.one (not-lt_larger _)) cast.int64

  -- The scenario with an account ends, and what it makes is for the close.
  pub generate_marking_the_close_scenario-Makes :
      (severity : F)
      → IsCast q severity
      → (scenario_id : Text) (i : Instrument F) (accounts : List Account) (base_price rate : F)
        (instrument_count : ℤ) (venue : Text)
      → Makes (IsClosing i.session_close_ns) (
          generate_marking_the_close_scenario q scenario_id i accounts base_price severity rate
            instrument_count venue)
  unfolding generate_marking_the_close_scenario
  generate_marking_the_close_scenario-Makes severity cast scenario_id i [] base_price rate n venue =
      Makes-returning _ (record { backed = tt; before_close = tt })
  generate_marking_the_close_scenario-Makes severity cast scenario_id i (a ∷ others) base_price rate
        n venue =
      let (some_used, few) = accounts_used-IsUsed severity cast (a ∷ others) (omega arith) in
      Makes-bind Any _ _ (Makes-double q _ _) λ u _. close_trades-Makes _ _ 0 some_used few
