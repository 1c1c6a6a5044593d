-- ===== src/Pipeline/Books.antt =====
-- The books that the pipeline keeps.
use trade_surveillance_engin.Prelude.{
  ◌+◌, ◌%◌, ◌^◌, ◌≡◌, ◌≢◌, ◌⊎◌, refl, sym, ◌∙◌, ap, Text, text_eq, text_eq_iff, text_eq_refl, find,
  put, find-put, Bool-cases, Option-cases, inl, inr, true, false, Option, some, List, [], arith,
  Double, IsTotal,
}
use trade_surveillance_engin.Fix.{Event, order, execution, replaced}
use trade_surveillance_engin.OrderBook.{
  OrderBook, Outcome, Error, instrument_mismatch, applied, threw, undefined, make_book,
}
use trade_surveillance_engin.OrderBook.Validity.{IsValid, make_book-IsValid}
use trade_surveillance_engin.OrderBook.Soundness.{
  IsSound, IsFreshAmend, apply_order-IsSound, apply_execution-IsSound,
}
use trade_surveillance_engin.OrderBook.Instrument.{
  Counts, counted, refused, Mismatch, apply_order-Counts, apply_execution-Counts,
}
use trade_surveillance_engin.Pipeline.{
  Evaluate, LivePipeline, ProcessResult, instrument_id_of, book_for, apply, evaluate_all, book_of,
  finish, process,
}

module _ {F : Type 0} ⦃d : Double F⦄ where
  -- A Replace of this book does not take the id of another resting order.
  abbrev pub IsFresh : OrderBook F → Event F → Type 0
  IsFresh b (order o) = o.status ≡ replaced → IsFreshAmend b o
  IsFresh b (execution x) = Unit {0}

  apply-Counts : (b : OrderBook F) (e : Event F) → Counts b (instrument_id_of e) (apply b e)
  apply-Counts b (order o) = apply_order-Counts b o
  apply-Counts b (execution x) = apply_execution-Counts b x

  own_event :
      (b : OrderBook F) (e : Event F)
      → b.instrument_id ≡ instrument_id_of e
      → ((apply b e).0.instrument_id ≡ instrument_id_of e) × ¬ (Mismatch (apply b e))
  own_event b e h = elim (apply-Counts b e) [
    | counted at name n ours ↦ (name ∙ h, ours)
    | refused other _ _ ↦ absurd (other (sym h))
  ]

module _ {F : Type 0} ⦃d : Double F⦄ ⦃t : IsTotal F⦄ where
  apply-IsSound : (b : OrderBook F) (e : Event F) → IsValid b → IsFresh b e → IsSound (apply b e)
  apply-IsSound b (order o) v f = apply_order-IsSound b o v f
  apply-IsSound b (execution x) v f = apply_execution-IsSound b x v

module _ {F : Type 0} where
  found_put :
      (id k : Text) (b : OrderBook F) (m : List (Text × OrderBook F))
      → id ≢ k
      → find text_eq id (put text_eq k b m) ≡ find text_eq id m
  found_put id k b m h = ground (arith, find-put text_eq text_eq_iff k id b m, text_eq_iff k id)

  found_self :
      (k : Text) (b : OrderBook F) (m : List (Text × OrderBook F))
      → find text_eq k (put text_eq k b m) ≡ some b
  found_self k b m = ground (arith, find-put text_eq text_eq_iff k k b m, text_eq_refl k)

module _ {F S : Type 0} ⦃d : Double F⦄ ⦃t : IsTotal F⦄ where
  -- Every book is valid, and stands under its own instrument.
  abbrev pub KeepsBooks : LivePipeline F S → Type 0
  KeepsBooks p =
      (id : Text) (b : OrderBook F) → book_for p id ≡ some b → IsValid b × (b.instrument_id ≡ id)

  book_of-IsValid :
      (p : LivePipeline F S) (e : Event F)
      → KeepsBooks p
      → IsValid (book_of p e) × ((book_of p e).instrument_id ≡ instrument_id_of e)
  unfolding make_book
  book_of-IsValid p e k = elim (Option-cases (book_for p (instrument_id_of e))) [
    | inl absent ↦ rw absent (make_book-IsValid (instrument_id_of e), refl)
    | inr (b, there) ↦ rw there (k (instrument_id_of e) b there)
  ]

  -- What an event must do, once `apply` gave its book and outcome. It ends; the books stay valid; the
  -- new book is in its place and every other is as it was. If `apply` threw, no alert is raised, the
  -- detectors are as they were and the event is counted. If not, the alerts are what the detectors
  -- find on the new book.
  abbrev pub Ends :
      Evaluate F S
      → LivePipeline F S
      → Event F
      → OrderBook F × Outcome
      → Option (LivePipeline F S × ProcessResult F)
      → Type 0
  Ends evaluate p e (b, out) result =
      (p' : LivePipeline F S) × (res : ProcessResult F) × (result ≡ some (p', res))
      × KeepsBooks p'
      × (book_for p' (instrument_id_of e) ≡ some b)
      × ((id : Text) → id ≢ instrument_id_of e → book_for p' id ≡ book_for p id)
      × (p'.accounts ≡ p.accounts)
      × (((error : Error) × (out ≡ threw error)
            × (error ≢ instrument_mismatch)
            × (res.skipped_inconsistent ≡ true)
            × (res.alerts ≡ [])
            × (p'.detectors ≡ p.detectors)
            × (p'.inconsistent_events_skipped ≡ (p.inconsistent_events_skipped + 1) % 2 ^ 64))
          ⊎ ((out ≡ applied)
              × (res.skipped_inconsistent ≡ false)
              × ((p'.detectors, res.alerts) ≡ evaluate_all evaluate b e p.accounts p.detectors)
              × (p'.inconsistent_events_skipped ≡ p.inconsistent_events_skipped)))

  put-KeepsBooks :
      (p p' : LivePipeline F S) (k : Text) (b : OrderBook F)
      → KeepsBooks p
      → IsValid b
      → b.instrument_id ≡ k
      → p'.books ≡ put text_eq k b p.books
      → KeepsBooks p'
  put-KeepsBooks p p' k b keeps v name e id c there = elim (Bool-cases (text_eq k id)) [
    | inl same ↦
        let at : k ≡ id = (text_eq_iff k id).0 same in
        let c_b : c ≡ b =
          ground (arith, there, e, find-put text_eq text_eq_iff k id b p.books, same) in
        rw c_b (v, name ∙ at)
    | inr other ↦
        keeps id c (ground (arith, there, e, find-put text_eq text_eq_iff k id b p.books, other))
  ]

  finish_lem :
      (evaluate : Evaluate F S) (p : LivePipeline F S) (e : Event F) (x : OrderBook F × Outcome)
      → KeepsBooks p
      → IsSound x
      → x.0.instrument_id ≡ instrument_id_of e
      → ¬ (Mismatch x)
      → Ends evaluate p e x (finish evaluate p e x)
  unfolding finish
  finish_lem evaluate p e (b, undefined) k s name ours = absurd (s.1 refl)
  finish_lem evaluate p e (b, threw error) k s name ours =
      let p' : LivePipeline F S = record p {
        books = put text_eq (instrument_id_of e) b p.books;
        inconsistent_events_skipped = (p.inconsistent_events_skipped + 1) % 2 ^ 64;
      } in
      (
        p',
        _,
        refl,
        put-KeepsBooks p p' (instrument_id_of e) b k s.0 name refl,
        found_self (instrument_id_of e) b p.books,
        λ id h. found_put id (instrument_id_of e) b p.books h,
        refl,
        inl (error, refl, λ h. ours (ap threw h), refl, refl, refl, refl),
      )
  finish_lem evaluate p e (b, applied) k s name ours =
      let p' : LivePipeline F S = record p {
        books = put text_eq (instrument_id_of e) b p.books;
        detectors = (evaluate_all evaluate b e p.accounts p.detectors).0;
      } in
      (
        p',
        _,
        refl,
        put-KeepsBooks p p' (instrument_id_of e) b k s.0 name refl,
        found_self (instrument_id_of e) b p.books,
        λ id h. found_put id (instrument_id_of e) b p.books h,
        refl,
        inr (refl, refl, refl, refl),
      )

  -- `process` always ends. Where every book is valid under its own instrument and a Replace takes no
  -- other resting order's id, it keeps that so. The event's book becomes what `apply` made of it, and
  -- no other book changes. If `apply` threw, which it never does for the instrument, the event is
  -- counted as skipped, raises no alert and reaches no detector. If not, the alerts and the detectors
  -- are what the detectors in turn answer to the new book.
  pub process_lem :
      (evaluate : Evaluate F S) (p : LivePipeline F S) (e : Event F)
      → KeepsBooks p
      → IsFresh (book_of p e) e
      → Ends evaluate p e (apply (book_of p e) e) (process evaluate p e)
  unfolding process
  process_lem evaluate p e k fresh =
      let v = book_of-IsValid p e k in
      let (name, ours) = own_event (book_of p e) e v.1 in
      finish_lem evaluate p e (apply (book_of p e) e) k (apply-IsSound (book_of p e) e v.0 fresh)
        name ours
