-- ===== src/Simulator/Baseline/Ends.antt =====
-- The end of the loop over the arrivals in cpp/simulator/baseline_generator.cpp.
use trade_surveillance_engin.Prelude.{
  ℕ, zero, suc, ◌+◌, ◌<◌, ◌≡◌, refl, ℤ, pos, ◌+ℤ◌, ◌≤ℤ◌, leb_ℤ, true, false, Bool-cases, inl, inr,
  List, [], ◌∷◌, none, some, length, Double, if◌then◌else◌, subst, int_laws, arith,
}
use trade_surveillance_engin.Simulator.{Instrument, Account}
use trade_surveillance_engin.Simulator.Draws.{
  Gen, Draws, IsDraws, M, ◌>>=◌, returning, poisson_interarrival_ns,
}
use trade_surveillance_engin.Simulator.Scenario.{BackedBy-append}
use trade_surveillance_engin.Simulator.Baseline.{
  Mids, initial_mids, arrive, arrivals, BaselineConfig, BaselineOutput, generate_baseline_flow,
}
use trade_surveillance_engin.Simulator.Baseline.Backed.{IsBaseline, arrive-Makes}

-- A round takes from the fuel what it adds to the time, or is one of the stalls.
room :
    (end t gap : ℤ) (s fuel : ℕ)
    → pos 0 ≤ℤ gap
    → leb_ℤ end (t +ℤ gap) ≡ false
    → end +ℤ pos ((if leb_ℤ gap (pos 0) then 1 else 0) + s) ≤ℤ t +ℤ pos (suc fuel)
    → (0 < fuel) × (end +ℤ pos s ≤ℤ (t +ℤ gap) +ℤ pos fuel)
room end t gap s fuel ahead early enough = elim (Bool-cases (leb_ℤ gap (pos 0))) [
  | inl still ↦ let least = rw still at enough in (grind (int_laws), grind (int_laws))
  | inr moves ↦ let least = rw moves at enough in (grind (int_laws), grind (int_laws))
]

module _ {F : Type 0} ⦃d : Double F⦄ (q : Draws F) where
  -- The gap that a state draws at a rate, and the state after it.
  abbrev pub gap_from : F → Gen q.Rng → ℤ
  gap_from rate g = q.llround (d.mul (q.exponential rate g.rng).0 (d.of_int (pos 1_000_000_000)))

  abbrev after_gap : F → Gen q.Rng → Gen q.Rng
  after_gap rate g = record g { rng = (q.exponential rate g.rng).1 }

  -- std::exponential_distribution draws no negative number, and std::llround makes none of it.
  pub record IsForward (rate : F) : Type 0 where
    pub forward : (g : Gen q.Rng) → pos 0 ≤ℤ gap_from rate g

  gap_drawn :
      (rate : F) (g : Gen q.Rng)
      → poisson_interarrival_ns q rate g ≡ some (gap_from rate g, after_gap rate g)
  unfolding poisson_interarrival_ns ◌>>=◌ returning
  gap_drawn rate g = refl

  -- How many of the first rounds of the loop draw a gap that is rounded to zero nanoseconds, from a time, the
  -- prices and a state on.
  unfoldable pub stalls :
      ℕ → BaselineConfig F → List (Instrument F) → List Account → ℤ → Mids q → Gen q.Rng → ℕ
  stalls zero config instruments accounts t mids g = 0
  stalls (suc fuel) config instruments accounts t mids g =
      let gap = gap_from config.orders_per_second g in
      elim (leb_ℤ config.end_time_ns (t +ℤ gap)) [
        | true ↦ 0
        | false ↦
            let rest : ℕ =
              elim (arrive q instruments accounts (t +ℤ gap) mids
                (after_gap config.orders_per_second g)) [
                  | none ↦ 0
                  | some (one, g') ↦ stalls fuel config instruments accounts (t +ℤ gap) one.0 g'
                ] in
            (if leb_ℤ gap (pos 0) then 1 else 0) + rest
      ]

  -- From a state `m` ends, with executions on its orders.
  pub record Ends (g : Gen q.Rng) (m : M q.Rng (BaselineOutput F)) : Type 0 where
    pub ended :
        (out : BaselineOutput F) × (g' : Gen q.Rng) × (m g ≡ some (out, g')) × IsBaseline out

  Ends-bind :
      {A : Type 0} (g g' : Gen q.Rng) (m : M q.Rng A) (f : A → M q.Rng (BaselineOutput F)) (a : A)
      → m g ≡ some (a, g')
      → Ends g' (f a)
      → Ends g (m >>= f)
  unfolding ◌>>=◌
  Ends-bind g g' m f a e h =
      let (out, g'', e', k) = h.ended in record { ended = (out, g'', rw (e, ◌>>=◌) e', k) }

  Ends-returning :
      (g : Gen q.Rng) (out : BaselineOutput F) → IsBaseline out → Ends g (returning out)
  unfolding returning
  Ends-returning g out h = record { ended = (out, g, refl, h) }

  stalls-step :
      (fuel : ℕ) (config : BaselineConfig F) (instruments : List (Instrument F))
      (accounts : List Account) (t : ℤ) (mids : Mids q) (g g' : Gen q.Rng)
      (one : Mids q × BaselineOutput F)
      → let gap = gap_from config.orders_per_second g in
        leb_ℤ config.end_time_ns (t +ℤ gap) ≡ false
        → arrive q instruments accounts (t +ℤ gap) mids (after_gap config.orders_per_second g)
          ≡ some (one, g')
        → stalls (suc fuel) config instruments accounts t mids g
          ≡ (if leb_ℤ gap (pos 0) then 1 else 0)
            + stalls fuel config instruments accounts (t +ℤ gap) one.0 g'
  unfolding stalls
  stalls-step fuel config instruments accounts t mids g g' one early e = rw (early, e, stalls) refl

  module _ (lib : IsDraws q) (accounts : List Account) (some_account : 0 < length accounts)
      (instruments : List (Instrument F)) (some_instrument : 0 < length instruments) where
    arrivals-Ends :
        (config : BaselineConfig F)
        → IsForward config.orders_per_second
        → (fuel : ℕ) (t : ℤ) (mids : Mids q) (g : Gen q.Rng) → 0 < fuel
        → config.end_time_ns +ℤ pos (stalls fuel config instruments accounts t mids g)
          ≤ℤ t +ℤ pos fuel
        → Ends g (arrivals q fuel config instruments accounts t mids)
    unfolding arrivals
    arrivals-Ends config ahead zero t mids g some_fuel enough = absurd (omega arith)
    arrivals-Ends config ahead (suc fuel) t mids g some_fuel enough =
        let gap = gap_from config.orders_per_second g in
        let drawn = after_gap config.orders_per_second g in
        Ends-bind g drawn (poisson_interarrival_ns q config.orders_per_second) _ gap
          (gap_drawn config.orders_per_second g)
          (elim (Bool-cases (leb_ℤ config.end_time_ns (t +ℤ gap))) [
            | inl over ↦ rw over (Ends-returning drawn _ (record { backed = tt }))
            | inr early ↦
                let (one, g', e, h) =
                  (arrive-Makes q lib accounts some_account instruments some_instrument (t +ℤ gap)
                      mids).made
                    drawn in
                let count = stalls-step fuel config instruments accounts t mids g g' one early e in
                let (some_left, left) =
                  room config.end_time_ns t gap _ fuel (ahead.forward g) early (
                    subst (λ n. config.end_time_ns +ℤ pos n ≤ℤ t +ℤ pos (suc fuel)) count enough) in
                let (rest, g'', e', k) =
                  (arrivals-Ends config ahead fuel (t +ℤ gap) one.0 g' some_left left).ended in
                rw early (
                  Ends-bind drawn g' (arrive q instruments accounts (t +ℤ gap) mids) _ one e (
                    Ends-bind g' g'' (arrivals q fuel config instruments accounts (t +ℤ gap) one.0)
                      _ rest e'
                      (Ends-returning g'' _ (record {
                        backed =
                            BackedBy-append one.1.orders rest.orders one.1.executions
                              rest.executions h.backed k.backed;
                      }))))
          ])

-- As many rounds as the flow has nanoseconds are enough, with one more for each gap that is rounded to zero.
pub generate_baseline_flow-Ends :
    {F : Type 0} ⦃d : Double F⦄ (q : Draws F)
    → IsDraws q
    → (config : BaselineConfig F) → IsForward q config.orders_per_second
    → (fuel : ℕ) (instruments : List (Instrument F)) (accounts : List Account) (g : Gen q.Rng)
    → 0 < fuel
    → config.end_time_ns
        +ℤ pos (
            stalls q fuel config instruments accounts config.start_time_ns
              (initial_mids q [] instruments)
              g)
      ≤ℤ config.start_time_ns +ℤ pos fuel
    → Ends q g (generate_baseline_flow q fuel config instruments accounts)
unfolding generate_baseline_flow
generate_baseline_flow-Ends q lib config ahead fuel [] accounts g some_fuel enough =
    Ends-returning q g _ (record { backed = tt })
generate_baseline_flow-Ends q lib config ahead fuel (i ∷ more) [] g some_fuel enough =
    Ends-returning q g _ (record { backed = tt })
generate_baseline_flow-Ends q lib config ahead fuel (i ∷ more) (a ∷ others) g some_fuel enough =
    arrivals-Ends q lib (a ∷ others) (omega arith) (i ∷ more) (omega arith) config ahead fuel
      config.start_time_ns _ g some_fuel enough
