-- ===== src/Pipeline.antt =====
-- cpp/pipeline/live_pipeline.hpp and .cpp, cpp/pipeline/live_consumer.cpp: each event goes to the book
-- of its instrument and then to every detector. The detectors are a parameter of the pipeline: a type
-- of their states and `evaluate`, the one virtual method. Latencies are not modelled. `none` is
-- undefined behaviour inside the book.
pub mod Books
mod Tests
use trade_surveillance_engin.Prelude.{
  ℕ, ◌+◌, ◌%◌, ◌^◌, Text, text_eq, find, put, or_else, Bool, true, false, Option, none, some, List,
  [], ◌∷◌, ◌++◌, Double,
}
use trade_surveillance_engin.Fix.{Order, Execution, Event, order, execution}
use trade_surveillance_engin.OrderBook.{
  OrderBook, Outcome, applied, threw, undefined, make_book, apply_order, apply_execution,
}
use trade_surveillance_engin.Detectors.{Alert}
use trade_surveillance_engin.Detectors.Accounts.{AccountRegistry}

-- IDetector, for a type of detectors with their states
abbrev pub Evaluate : Type 0 → Type 0 → Type 0
Evaluate F S = S → OrderBook F → Event F → AccountRegistry → S × List (Alert F)

pub record LivePipeline (F S : Type 0) : Type 0 where
  pub detectors : List S
  pub accounts : AccountRegistry
  pub books : List (Text × OrderBook F)
  pub inconsistent_events_skipped : ℕ

pub record ProcessResult (F : Type 0) : Type 0 where
  pub alerts : List (Alert F)
  pub skipped_inconsistent : Bool

abbrev pub instrument_id_of : {F : Type 0} → Event F → Text
instrument_id_of (order o) = o.instrument_id
instrument_id_of (execution x) = x.instrument_id

-- `book_for`: none if the instrument has had no event.
abbrev pub book_for : {F S : Type 0} → LivePipeline F S → Text → Option (OrderBook F)
book_for p id = find text_eq id p.books

module _ {F : Type 0} ⦃d : Double F⦄ where
  abbrev pub apply : OrderBook F → Event F → OrderBook F × Outcome
  apply b (order o) = apply_order b o
  apply b (execution x) = apply_execution b x

module _ {F S : Type 0} ⦃d : Double F⦄ where
  -- The loop over the detectors, in their order.
  unfoldable pub evaluate_all :
      Evaluate F S → OrderBook F → Event F → AccountRegistry → List S → List S × List (Alert F)
  evaluate_all evaluate b e accounts [] = ([], [])
  evaluate_all evaluate b e accounts (s ∷ ss) =
      let (s', found) = evaluate s b e accounts in
      let (ss', rest) = evaluate_all evaluate b e accounts ss in (s' ∷ ss', found ++ rest)

  -- `try_emplace`
  abbrev pub book_of : LivePipeline F S → Event F → OrderBook F
  book_of p e = or_else (book_for p (instrument_id_of e)) (make_book (instrument_id_of e))

  unfoldable pub finish :
      Evaluate F S
      → LivePipeline F S
      → Event F
      → OrderBook F × Outcome
      → Option (LivePipeline F S × ProcessResult F)
  unfolding evaluate_all
  finish evaluate p e (b, undefined) = none
  finish evaluate p e (b, threw error) = some (
    record p {
      books = put text_eq (instrument_id_of e) b p.books;
      inconsistent_events_skipped = (p.inconsistent_events_skipped + 1) % 2 ^ 64;
    },
    record { alerts = []; skipped_inconsistent = true },
  )
  finish evaluate p e (b, applied) =
      let (detectors, alerts) = evaluate_all evaluate b e p.accounts p.detectors in
      some (
        record p { books = put text_eq (instrument_id_of e) b p.books; detectors = detectors },
        record { alerts = alerts; skipped_inconsistent = false },
      )

  unfoldable pub process :
      Evaluate F S → LivePipeline F S → Event F → Option (LivePipeline F S × ProcessResult F)
  unfolding finish
  process evaluate p e = finish evaluate p e (apply (book_of p e) e)
