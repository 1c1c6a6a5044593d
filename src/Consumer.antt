-- ===== src/Consumer.antt =====
-- cpp/pipeline/live_consumer.hpp and .cpp: the loop that takes events from the ring buffer to the pipeline.
-- Latency samples are not modelled, since they are clock readings. The alert sink is a parameter: a type of
-- its states and `on_alert`.
pub mod Drain
pub mod Interleaving
mod Tests
use trade_surveillance_engin.Prelude.{
  ℕ, zero, suc, ◌+◌, ◌%◌, ◌^◌, Bool, true, false, List, [], ◌∷◌, Option, none, some, ◌>>=◌,
  if◌then◌else◌, Double,
}
use trade_surveillance_engin.Fix.{Event}
use trade_surveillance_engin.RingBuffer.{Ring, pop}
use trade_surveillance_engin.Detectors.{Alert}
use trade_surveillance_engin.Pipeline.{Evaluate, LivePipeline, ProcessResult, process}

-- `run` while `producer_done` has one value, with the body of the loop's turn as `process_one`. `none` is a
-- loop that has not ended, or undefined behaviour of a call.
unfoldable pub run {ℓ} :
    {A : Type 0} {C : Type ℓ} → (C → A → Option C) → ℕ → Ring A → C → Bool → Option (C × Ring A)
run process_one zero queue c producer_done = none
run process_one (suc fuel) queue c producer_done = elim (pop (suc fuel) queue) [
  | none ↦ none
  | some (some e, queue') ↦ process_one c e >>= λ c'. run process_one fuel queue' c' producer_done
  | some (none, queue') ↦ elim producer_done [
    | false ↦ run process_one fuel queue' c false
    | true ↦ elim (pop (suc fuel) queue') [
      | none ↦ none
      | some (some e, queue'') ↦ process_one c e >>= λ c'. run process_one fuel queue'' c' true
      | some (none, queue'') ↦ some (c, queue'')
    ]
  ]
]

-- IAlertSink, for a type of sinks
abbrev pub OnAlert : Type 0 → Type 0 → Type 0
OnAlert F T = T → Alert F → T

unfoldable pub deliver_all : {F T : Type 0} → OnAlert F T → T → List (Alert F) → T
deliver_all on_alert sink [] = sink
deliver_all on_alert sink (a ∷ alerts) = deliver_all on_alert (on_alert sink a) alerts

-- With the null pointer for no sink.
unfoldable pub deliver : {F T : Type 0} → OnAlert F T → Option T → List (Alert F) → Option T
unfolding deliver_all
deliver on_alert none alerts = none
deliver on_alert (some sink) alerts = some (deliver_all on_alert sink alerts)

pub record LiveConsumer (F S T : Type 0) : Type 0 where
  pub pipeline : LivePipeline F S
  pub alert_sink : Option T
  pub events_processed : ℕ
  pub events_skipped_inconsistent : ℕ

-- The counters and the alerts after an event.
unfoldable pub account :
    {F S T : Type 0}
    → OnAlert F T
    → LiveConsumer F S T
    → LivePipeline F S
    → ProcessResult F
    → LiveConsumer F S T
unfolding deliver
account on_alert c p result =
    let c' = record c { pipeline = p; events_processed = (c.events_processed + 1) % 2 ^ 64 } in
    if result.skipped_inconsistent
    then record c' { events_skipped_inconsistent = (c.events_skipped_inconsistent + 1) % 2 ^ 64 }
    else record c' { alert_sink = deliver on_alert c.alert_sink result.alerts }

module _ {F S T : Type 0} ⦃d : Double F⦄ where
  unfoldable pub process_one :
      Evaluate F S → OnAlert F T → LiveConsumer F S T → Event F → Option (LiveConsumer F S T)
  unfolding process account
  process_one evaluate on_alert c e =
      process evaluate c.pipeline e >>= λ (p, result). some (account on_alert c p result)
