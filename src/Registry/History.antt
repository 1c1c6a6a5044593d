-- ===== src/Registry/History.antt =====
-- What the registry keeps of the events that went through it.
use trade_surveillance_engin.Prelude.{
  ℕ, ◌-◌, ◌≡◌, refl, sym, ◌∙◌, ap, subst, min, Text, text_eq, text_eq_iff, find, find-put, or_else,
  Bool-cases, Option-cases, inl, inr, Bool, true, false, List, [], ◌∷◌, ◌++◌, append_assoc,
  append-nil, map, length, drop, Option, some, if◌then◌else◌, arith, Double, IsTotal,
}
use trade_surveillance_engin.Fix.{Event}
use trade_surveillance_engin.Pipeline.{Evaluate, ProcessResult, book_of, process}
use trade_surveillance_engin.Pipeline.Books.{KeepsBooks, IsFresh, process_lem}
use trade_surveillance_engin.Consumer.{OnAlert}
use trade_surveillance_engin.Consumer.Drain.{process_all, AllFresh}
use trade_surveillance_engin.Registry.{
  BookEvent, to_book_event, max_events_per_instrument, trim, LiveBookRegistry, record_event,
  count_result, recent_events, process_one,
}
use trade_surveillance_engin.Registry.Window.{
  drop-nil, most_recent, most_recent-append, most_recent-most_recent, trim_lem,
}

module _ {F : Type 0} where
  -- The events of one instrument, in their order.
  abbrev pub for_instrument : Text → List (BookEvent F) → List (BookEvent F)
  for_instrument id [] = []
  for_instrument id (e ∷ events) =
      let rest = for_instrument id events in if text_eq e.instrument_id id then e ∷ rest else rest

  for_instrument-append :
      (id : Text) (xs ys : List (BookEvent F))
      → for_instrument id (xs ++ ys) ≡ for_instrument id xs ++ for_instrument id ys
  for_instrument-append id [] ys = refl
  for_instrument-append id (x ∷ xs) ys = elim (Bool-cases (text_eq x.instrument_id id)) [
    | inl same ↦ rw (same, for_instrument-append id xs ys)
    | inr other ↦ rw (other, for_instrument-append id xs ys)
  ]

  for_instrument-same :
      (id : Text) (xs : List (BookEvent F)) (x : BookEvent F)
      → text_eq x.instrument_id id ≡ true
      → for_instrument id (xs ++ (x ∷ [])) ≡ for_instrument id xs ++ (x ∷ [])
  for_instrument-same id xs x same = for_instrument-append id xs (x ∷ []) ∙ rw same refl

  for_instrument-other :
      (id : Text) (xs : List (BookEvent F)) (x : BookEvent F)
      → text_eq x.instrument_id id ≡ false
      → for_instrument id (xs ++ (x ∷ [])) ≡ for_instrument id xs
  for_instrument-other id xs x other =
      for_instrument-append id xs (x ∷ []) ∙ rw other (append-nil (for_instrument id xs))

last_lem : (n limit : ℕ) → n - min limit n ≡ n - limit
last_lem n limit = omega arith

or_else-if :
    {A : Type 0} (b : Bool) (v : List A) (o : Option (List A))
    → or_else (if b then some v else o) [] ≡ (if b then v else or_else o [])
or_else-if true v o = refl
or_else-if false v o = refl

module _ {F S T : Type 0} where
  abbrev kept : LiveBookRegistry F S T → Text → List (BookEvent F)
  kept r id = or_else (find text_eq id r.recent_events_by_instrument) []

  -- The window of each instrument is the end of its part of the history.
  abbrev Keeps : LiveBookRegistry F S T → List (BookEvent F) → Type 0
  Keeps r history =
      (id : Text) → kept r id ≡ most_recent max_events_per_instrument (for_instrument id history)

  kept-record_event :
      (r : LiveBookRegistry F S T) (e : Event F) (id : Text)
      → kept (record_event r e) id ≡ (
          if text_eq (to_book_event e).instrument_id id
          then trim max_events_per_instrument
              (kept r (to_book_event e).instrument_id ++ (to_book_event e ∷ []))
          else kept r id)
  unfolding record_event
  kept-record_event r e id =
      let k = (to_book_event e).instrument_id in
      let v = trim max_events_per_instrument (kept r k ++ (to_book_event e ∷ [])) in
      ap (λ o. or_else o []) (find-put text_eq text_eq_iff k id v r.recent_events_by_instrument)
      ∙ or_else-if (text_eq k id) v (find text_eq id r.recent_events_by_instrument)

  record_event-Keeps :
      (r : LiveBookRegistry F S T) (e : Event F) (history : List (BookEvent F))
      → Keeps r history
      → Keeps (record_event r e) (history ++ (to_book_event e ∷ []))
  record_event-Keeps r e history keeps id =
      let x = to_book_event e in
      let n = max_events_per_instrument in
      kept-record_event r e id ∙ elim (Bool-cases (text_eq x.instrument_id id)) [
        | inl same ↦
            let at = ap (λ i. for_instrument i history) ((text_eq_iff x.instrument_id id).0 same) in
            rw same (
              trim_lem n (kept r x.instrument_id ++ (x ∷ []))
              ∙ ap (λ w. most_recent n (w ++ (x ∷ []))) (keeps x.instrument_id)
              ∙ most_recent-append n (for_instrument x.instrument_id history) (x ∷ [])
              ∙ ap (λ w. most_recent n (w ++ (x ∷ []))) at
              ∙ ap (most_recent n) (sym (for_instrument-same id history x same)))
        | inr other ↦
            rw other (keeps id ∙ ap (most_recent n) (sym (for_instrument-other id history x other)))
      ]

  recent_events-kept :
      (r : LiveBookRegistry F S T) (id : Text) (limit : ℕ)
      → recent_events r id limit ≡ most_recent limit (kept r id)
  unfolding recent_events
  recent_events-kept r id limit =
      elim (Option-cases (find text_eq id r.recent_events_by_instrument)) [
        | inl absent ↦ rw (absent, recent_events) (sym (drop-nil (0 - limit)))
        | inr (events, there) ↦
            rw (there, recent_events) (ap (λ i. drop i events) (last_lem (length events) limit))
      ]

  kept-count_result :
      (on_alert : OnAlert F T) (r : LiveBookRegistry F S T) (res : ProcessResult F)
      → ((count_result on_alert r res).recent_events_by_instrument ≡ r.recent_events_by_instrument)
        × ((count_result on_alert r res).pipeline ≡ r.pipeline)
  unfolding count_result
  kept-count_result on_alert r res = elim (Bool-cases res.skipped_inconsistent) [
    | inl skipped ↦ rw skipped (refl, refl)
    | inr evaluated ↦ rw evaluated (refl, refl)
  ]

module _ {F S T : Type 0} ⦃d : Double F⦄ ⦃t : IsTotal F⦄ (evaluate : Evaluate F S)
    (on_alert : OnAlert F T) where
  process_one-Keeps :
      (r : LiveBookRegistry F S T) (e : Event F) (history : List (BookEvent F))
      → KeepsBooks r.pipeline
      → IsFresh (book_of r.pipeline e) e
      → Keeps r history
      → (r' : LiveBookRegistry F S T) × (res : ProcessResult F) × (process evaluate r.pipeline e
          ≡ some (r'.pipeline, res))
        × (process_one evaluate on_alert r e ≡ some r')
        × KeepsBooks r'.pipeline
        × Keeps r' (history ++ (to_book_event e ∷ []))
  unfolding process_one record_event
  process_one-Keeps r e history k fresh keeps =
      let (p, res, ends, k', _, _, _, _) = process_lem evaluate r.pipeline e k fresh in
      let r1 = record_event (record r { pipeline = p }) e in
      let (same_events, same_books) = kept-count_result on_alert r1 res in
      (
        count_result on_alert r1 res,
        res,
        ends ∙ ap (λ q. some (q, res)) (sym same_books),
        rw (ends, process_one) refl,
        subst KeepsBooks (sym same_books) k',
        λ id.
            ap (λ m. or_else (find text_eq id m) []) same_events
            ∙ record_event-Keeps (record r { pipeline = p }) e history keeps id,
      )

  process_all-Keeps :
      (r : LiveBookRegistry F S T) (events : List (Event F)) (history : List (BookEvent F))
      → KeepsBooks r.pipeline
      → AllFresh evaluate r.pipeline events
      → Keeps r history
      → (r' : LiveBookRegistry F S T) × (process_all (process_one evaluate on_alert) r events
          ≡ some r')
        × KeepsBooks r'.pipeline
        × Keeps r' (history ++ map to_book_event events)
  unfolding process_all AllFresh
  process_all-Keeps r [] history k fresh keeps =
      (r, refl, k, subst (Keeps r) (sym (append-nil history)) keeps)
  process_all-Keeps r (e ∷ events) history k fresh keeps =
      let x = to_book_event e in
      let (r1, res, ends, next, k1, keeps1) = process_one-Keeps r e history k fresh.0 keeps in
      let (r', all, k', keeps') =
        process_all-Keeps r1 events (history ++ (x ∷ [])) k1 (fresh.1 r1.pipeline res ends)
          keeps1 in
      (
        r',
        rw (next, process_all) all,
        k',
        subst (Keeps r') (append_assoc history (x ∷ []) (map to_book_event events)) keeps',
      )

  -- From a registry that has kept no event, with valid books, and where no Replace takes the id of another
  -- resting order: the registry processes all the events, those the book refuses included, and the books stay
  -- valid. A request for the latest events of an instrument then gives the end of that instrument's part of
  -- the history, in its order: as many as asked for, 200 at most.
  pub recent_events-history :
      (r : LiveBookRegistry F S T) (events : List (Event F))
      → r.recent_events_by_instrument ≡ []
      → KeepsBooks r.pipeline
      → AllFresh evaluate r.pipeline events
      → (r' : LiveBookRegistry F S T) × (process_all (process_one evaluate on_alert) r events
          ≡ some r')
        × KeepsBooks r'.pipeline
        × ((id : Text) (limit : ℕ)
            → recent_events r' id limit
              ≡ most_recent
                  (min limit max_events_per_instrument)
                  (for_instrument id (map to_book_event events)))
  unfolding find
  recent_events-history r events none_yet k fresh =
      let (r', all, k', keeps') = process_all-Keeps r events [] k fresh (λ id. rw none_yet refl) in
      (
        r',
        all,
        k',
        λ id limit.
            recent_events-kept r' id limit
            ∙ ap (most_recent limit) (keeps' id)
            ∙ most_recent-most_recent limit max_events_per_instrument
                (for_instrument id (map to_book_event events)),
      )
