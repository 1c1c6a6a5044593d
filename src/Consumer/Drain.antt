-- ===== src/Consumer/Drain.antt =====
-- What the loop does with the events that wait when the producer is done.
use trade_surveillance_engin.Prelude.{
  ℕ, zero, suc, ◌+◌, ◌<◌, ◌≡◌, refl, sym, ◌∙◌, subst, inl, inr, true, List, [], ◌∷◌, Option, some,
  ◌>>=◌, Option-cases, Bool-cases, length, arith, Double, IsTotal, ◌%◌, ◌^◌,
}
use trade_surveillance_engin.Fix.{Event}
use trade_surveillance_engin.RingBuffer.{Ring}
use trade_surveillance_engin.RingBuffer.Invariant.{Represents}
use trade_surveillance_engin.RingBuffer.Queue.{HasRoom, queue_pop, pop_refines}
use trade_surveillance_engin.Pipeline.{Evaluate, LivePipeline, ProcessResult, book_of, process}
use trade_surveillance_engin.Pipeline.Books.{KeepsBooks, IsFresh, process_lem}
use trade_surveillance_engin.Consumer.{run, OnAlert, LiveConsumer, account, process_one}

-- The events in their order, one after the other.
unfoldable pub process_all {ℓ} :
    {A : Type 0} {C : Type ℓ} → (C → A → Option C) → C → List A → Option C
process_all process_one c [] = some c
process_all process_one c (e ∷ events) = process_one c e >>= λ c'. process_all process_one c' events

some_inj {ℓ} : {A : Type ℓ} {a b : A} → some a ≡ some b → a ≡ b
some_inj h = cc

module _ {ℓ} {A : Type 0} {C : Type ℓ} (process_one : C → A → Option C) where
  bind-some :
      (c : C) (e : A) (events : List A) (c' : C)
      → process_all process_one c (e ∷ events) ≡ some c'
      → (c1 : C) × (process_one c e ≡ some c1) × (process_all process_one c1 events ≡ some c')
  unfolding process_all
  bind-some c e events c' h = elim (Option-cases (process_one c e)) [
    | inl stuck ↦ cc (rw stuck at h)
    | inr (c1, next) ↦ (c1, next, rw next at h)
  ]

  -- Once the producer is done, the loop ends with a turn for each waiting event and one more. It has
  -- processed exactly those events, in their order, and the queue is empty.
  pub run_drains :
      (fuel : ℕ) (queue : Ring A) (c c' : C) (events : List A)
      → Represents queue events
      → HasRoom queue
      → length events < fuel
      → process_all process_one c events ≡ some c'
      → (queue' : Ring A) × (run process_one fuel queue c true ≡ some (c', queue'))
        × Represents queue' []
        × (queue'.dropped ≡ queue.dropped)
  unfolding run queue_pop process_all
  run_drains zero queue c c' events v room h all = absurd (omega arith)
  run_drains (suc fuel) queue c c' [] v room h all =
      let (q1, popped, v1, cap1, tail1, dropped1) = pop_refines fuel queue [] v room in
      let room1 : HasRoom q1 = omega (arith, cap1, tail1) in
      let (q2, popped2, v2, cap2, tail2, dropped2) = pop_refines fuel q1 [] v1 room1 in
      let same : c ≡ c' = some_inj all in
      (q2, rw (popped, run, popped2, same) refl, v2, dropped2 ∙ dropped1)
  run_drains (suc fuel) queue c c' (e ∷ events) v room h all =
      let (q1, popped, v1, cap1, tail1, dropped1) = pop_refines fuel queue (e ∷ events) v room in
      let room1 : HasRoom q1 = omega (arith, cap1, tail1) in
      let (c1, next, rest) = bind-some c e events c' all in
      let (q2, ran, v2, dropped2) = run_drains fuel q1 c1 c' events v1 room1 (omega arith) rest in
      (q2, rw (popped, run, next) ran, v2, dropped2 ∙ dropped1)

module _ {F S : Type 0} ⦃d : Double F⦄ (evaluate : Evaluate F S) where
  -- No Replace among the events takes the id of another order that rests when it comes.
  unfoldable pub AllFresh : LivePipeline F S → List (Event F) → Type 0
  AllFresh p [] = Unit {0}
  AllFresh p (e ∷ events) =
      IsFresh (book_of p e) e
      × ((p' : LivePipeline F S) (res : ProcessResult F)
          → process evaluate p e ≡ some (p', res)
          → AllFresh p' events)

module _ {F S T : Type 0} ⦃d : Double F⦄ ⦃t : IsTotal F⦄ (evaluate : Evaluate F S)
    (on_alert : OnAlert F T) where
  process_one-KeepsBooks :
      (c : LiveConsumer F S T) (e : Event F)
      → KeepsBooks c.pipeline
      → IsFresh (book_of c.pipeline e) e
      → (p' : LivePipeline F S) × (res : ProcessResult F) × (process evaluate c.pipeline e
          ≡ some (p', res))
        × (process_one evaluate on_alert c e ≡ some (account on_alert c p' res))
        × KeepsBooks p'
  unfolding process_one
  process_one-KeepsBooks c e k fresh =
      let (p', res, ends, k', _, _, _, _) = process_lem evaluate c.pipeline e k fresh in
      (p', res, ends, rw (ends, process_one) refl, k')

  counted_lem :
      (c : LiveConsumer F S T) (p : LivePipeline F S) (res : ProcessResult F)
      → ((account on_alert c p res).pipeline ≡ p)
        × ((account on_alert c p res).events_processed ≡ (c.events_processed + 1) % 2 ^ 64)
  unfolding account
  counted_lem c p res = elim (Bool-cases res.skipped_inconsistent) [
    | inl skipped ↦ rw skipped (refl, refl)
    | inr evaluated ↦ rw evaluated (refl, refl)
  ]

  process_all-KeepsBooks :
      (c : LiveConsumer F S T) (events : List (Event F))
      → KeepsBooks c.pipeline
      → AllFresh evaluate c.pipeline events
      → c.events_processed < 2 ^ 64
      → (c' : LiveConsumer F S T) × (process_all (process_one evaluate on_alert) c events ≡ some c')
        × KeepsBooks c'.pipeline
        × (c'.events_processed ≡ (c.events_processed + length events) % 2 ^ 64)
  unfolding process_all AllFresh
  process_all-KeepsBooks c [] k fresh small = (c, refl, k, omega arith)
  process_all-KeepsBooks c (e ∷ events) k fresh small =
      let (p, res, ends, next, k1) = process_one-KeepsBooks c e k fresh.0 in
      let (same, count) = counted_lem c p res in
      let c1 = account on_alert c p res in
      let (c', all, k', count') =
        process_all-KeepsBooks c1 events (subst KeepsBooks (sym same) k1)
          (subst (λ q. AllFresh evaluate q events) (sym same) (fresh.1 p res ends))
          (omega (arith, count)) in
      (c', rw (next, process_all) all, k', omega (arith, count, count'))

  -- The consumer with its pipeline, once the producer is done: from valid books, and where no Replace takes
  -- the id of another resting order, the loop ends with a turn for each waiting event and one more. The queue
  -- is then empty, every waiting event is counted as processed, and the books are valid.
  pub live_run_drains :
      (fuel : ℕ) (queue : Ring (Event F)) (c : LiveConsumer F S T) (events : List (Event F))
      → Represents queue events
      → HasRoom queue
      → length events < fuel
      → KeepsBooks c.pipeline
      → AllFresh evaluate c.pipeline events
      → c.events_processed < 2 ^ 64
      → (c' : LiveConsumer F S T) × (queue' : Ring (Event F)) × (run
            (process_one evaluate on_alert)
            fuel
            queue
            c
            true
          ≡ some (c', queue'))
        × Represents queue' []
        × KeepsBooks c'.pipeline
        × (c'.events_processed ≡ (c.events_processed + length events) % 2 ^ 64)
  live_run_drains fuel queue c events v room h k fresh small =
      let (c', all, k', count) = process_all-KeepsBooks c events k fresh small in
      let (queue', ran, empty, _) =
        run_drains (process_one evaluate on_alert) fuel queue c c' events v room h all in
      (c', queue', ran, empty, k', count)
