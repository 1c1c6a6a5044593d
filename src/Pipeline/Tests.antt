-- ===== src/Pipeline/Tests.antt =====
-- The pipeline on a first order and an execution that overfills it, with no detector but one that
-- counts its calls.
use trade_surveillance_engin.Prelude.{ℕ, ◌+◌, codes, find, [], ◌∷◌}
use trade_surveillance_engin.Ticks.{ticks, ticks_IsTotal, new_order}
use trade_surveillance_engin.Fix.{Event, order}
use trade_surveillance_engin.Pipeline.{Evaluate, LivePipeline, apply, book_of, process}
use trade_surveillance_engin.Pipeline.Books.{Ends, KeepsBooks, process_lem}

abbrev count_calls : Evaluate ℕ ℕ
count_calls n b e accounts = (n + 1, [])

abbrev started : LivePipeline ℕ ℕ
started = record { detectors = 0 ∷ []; accounts = []; books = []; inconsistent_events_skipped = 0 }

started-KeepsBooks : KeepsBooks started
unfolding find
started-KeepsBooks id b h = cc

abbrev first : Event ℕ
first = order (new_order (codes "A") 10)

process_lem_example :
    Ends count_calls started first
      (apply (book_of started first) first)
      (process count_calls started first)
process_lem_example = process_lem count_calls started first started-KeepsBooks (λ h. cc)
