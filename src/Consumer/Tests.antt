-- ===== src/Consumer/Tests.antt =====
-- The consumer on a ring of two cells.
use trade_surveillance_engin.Prelude.{
  ℕ, ◌+◌, ◌≡◌, refl, true, false, [], ◌∷◌, none, some, arith, Bool,
}
use trade_surveillance_engin.Fix.{Event, order}
use trade_surveillance_engin.RingBuffer.{Ring, make_ring, vacant_cells, pop, push}
use trade_surveillance_engin.RingBuffer.Invariant.{Represents, make_ring-Represents}
use trade_surveillance_engin.RingBuffer.Queue.{queue_push, push_refines}
use trade_surveillance_engin.Pipeline.{Evaluate}
use trade_surveillance_engin.Pipeline.Books.{KeepsBooks}
use trade_surveillance_engin.Consumer.{run, LiveConsumer, process_one}
use trade_surveillance_engin.Consumer.Drain.{AllFresh, live_run_drains}
use trade_surveillance_engin.Prelude.{false, find, codes}
use trade_surveillance_engin.Ticks.{ticks, ticks_IsTotal, new_order}
use trade_surveillance_engin.RingBuffer.{claim, try_claim_front, make_room}
use trade_surveillance_engin.Consumer.Interleaving.{
  Phase, polling, found_none, saw_done, stopped, System, pushes, finishes, pops, looks, pops_again,
  Reaches, start, more, IsAccounted, reached-IsAccounted,
}

abbrev count_calls : Evaluate ℕ ℕ
count_calls n b e accounts = (n + 1, [])

abbrev fresh_consumer : LiveConsumer ℕ ℕ ℕ
fresh_consumer = record {
  pipeline = record {
    detectors = 0 ∷ [];
    accounts = [];
    books = [];
    inconsistent_events_skipped = 0;
  };
  alert_sink = some 0;
  events_processed = 0;
  events_skipped_inconsistent = 0;
}

abbrev first_event : Event ℕ
first_event = order (new_order (codes "A") 10)

fresh-KeepsBooks : KeepsBooks fresh_consumer.pipeline
unfolding find
fresh-KeepsBooks id b h = cc

fresh-AllFresh : AllFresh count_calls fresh_consumer.pipeline (first_event ∷ [])
unfolding AllFresh
fresh-AllFresh = ((λ h. cc), λ p res e. tt)

abbrev waiting : {A : Type 0} → A → Ring A
waiting x = record {
  capacity = 2;
  cells = record { sequence = 0; item = x } ∷ record { sequence = 1; item = x } ∷ [];
  head = 0;
  tail = 0;
  dropped = 0;
}

waiting-Represents : {A : Type 0} (x : A) → Represents (waiting x) []
unfolding make_ring vacant_cells
waiting-Represents x = (let (_, _, v) = make_ring-Represents x 2 (waiting x) refl in v)

one_waits : (r : Ring (Event ℕ)) × Represents r (first_event ∷ []) × (r.tail ≡ 1) × (r.capacity ≡ 2)
unfolding queue_push
one_waits =
    let (r, _, v, c, t, _) =
      push_refines 0 (waiting first_event) [] first_event (waiting-Represents first_event)
        (omega arith) in
    (r, v, t, c)

live_run_drains_example :
    (c' : LiveConsumer ℕ ℕ ℕ) × (queue' : Ring (Event ℕ)) × (run
        (process_one count_calls (λ n a. n + 1))
        2
        one_waits.0
        fresh_consumer
        true
      ≡ some (c', queue'))
    × Represents queue' []
    × KeepsBooks c'.pipeline
    × (c'.events_processed ≡ 1)
live_run_drains_example =
    let (r, v, t, c) = one_waits in
    live_run_drains count_calls (λ n a. n + 1) 2 r fresh_consumer (first_event ∷ []) v
      (omega (arith, t, c)) (omega arith) fresh-KeepsBooks fresh-AllFresh (omega arith)

abbrev at_phase : Ring ℕ → Bool → Phase → ℕ → System ℕ
at_phase q done phase processed = record {
  queue = q;
  producer_done = done;
  phase = phase;
  processed = processed;
}

abbrev holding : Ring ℕ
holding = record {
  capacity = 2;
  cells = record { sequence = 1; item = 7 } ∷ record { sequence = 1; item = 0 } ∷ [];
  head = 0;
  tail = 1;
  dropped = 0;
}

abbrev emptied : Ring ℕ
emptied = record holding {
  cells = record { sequence = 2; item = 7 } ∷ record { sequence = 1; item = 0 } ∷ [];
  head = 1;
}

holding_lem : push 2 (waiting 0) 7 ≡ some (true, holding)
unfolding push make_room claim
holding_lem = refl

took : pop 1 holding ≡ some (some 7, emptied)
unfolding pop try_claim_front claim
took = refl

took_none : pop 1 emptied ≡ some (none, emptied)
unfolding pop try_claim_front claim
took_none = refl

-- The producer pushes and is done between two looks of the consumer.
to_stop : Reaches (at_phase (waiting 0) false polling 0) (at_phase emptied true stopped 1)
to_stop =
    more _ (at_phase emptied true saw_done 1) _
      (more _ (at_phase emptied true found_none 1) _
        (more _ (at_phase emptied true polling 1) _
          (more _ (at_phase holding true polling 0) _
            (more _ (at_phase holding false polling 0) _
              (more _ (at_phase (waiting 0) false polling 0) _
                (start (at_phase (waiting 0) false polling 0))
                (pushes 0 7 true holding refl (omega arith) holding_lem))
              (finishes refl))
            (pops 0 (some 7, emptied) refl (omega arith) took))
          (pops 0 (none, emptied) refl (omega arith) took_none))
        (looks refl refl))
      (pops_again 0 (none, emptied) refl (omega arith) took_none)

reached-IsAccounted_example :
    IsAccounted (at_phase emptied true stopped 1)
    × (stopped ≡ stopped → (true ≡ true) × Represents emptied [] × (1 ≡ 0 + 1))
reached-IsAccounted_example =
    reached-IsAccounted (at_phase (waiting 0) false polling 0) (at_phase emptied true stopped 1)
      (waiting-Represents 0) (omega arith) (omega arith) refl to_stop
