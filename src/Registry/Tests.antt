-- ===== src/Registry/Tests.antt =====
-- A registry that sees one order.
use trade_surveillance_engin.Prelude.{
  ℕ, ◌+◌, ◌≡◌, refl, min, List, [], ◌∷◌, map, none, some, codes, find, Text,
}
use trade_surveillance_engin.Ticks.{ticks, ticks_IsTotal, new_order}
use trade_surveillance_engin.Fix.{Event, order}
use trade_surveillance_engin.Pipeline.{Evaluate}
use trade_surveillance_engin.Pipeline.Books.{KeepsBooks}
use trade_surveillance_engin.Consumer.Drain.{process_all, AllFresh}
use trade_surveillance_engin.Registry.{
  LiveBookRegistry, to_book_event, max_events_per_instrument, trim, recent_events, process_one,
}
use trade_surveillance_engin.Registry.Window.{most_recent}
use trade_surveillance_engin.Registry.History.{for_instrument, recent_events-history}

abbrev silent : Evaluate ℕ ℕ
silent n b e accounts = (n + 1, [])

abbrev opened : LiveBookRegistry ℕ ℕ ℕ
opened = record {
  pipeline = record {
    detectors = 0 ∷ [];
    accounts = [];
    books = [];
    inconsistent_events_skipped = 0;
  };
  alert_sink = none;
  events_processed = 0;
  events_skipped_inconsistent = 0;
  recent_events_by_instrument = [];
}

abbrev seen : List (Event ℕ)
seen = order (new_order (codes "A") 10) ∷ []

trimmed_two : trim {A = ℕ} 2 (7 ∷ 8 ∷ 9 ∷ []) ≡ 8 ∷ 9 ∷ []
unfolding trim
trimmed_two = refl

opened-KeepsBooks : KeepsBooks opened.pipeline
unfolding find
opened-KeepsBooks id b h = cc

seen-AllFresh : AllFresh silent opened.pipeline seen
unfolding AllFresh
seen-AllFresh = ((λ h. cc), λ p res e. tt)

recent_events-history_example :
    (r' : LiveBookRegistry ℕ ℕ ℕ) × (process_all (process_one silent (λ n a. n + 1)) opened seen
      ≡ some r')
    × KeepsBooks r'.pipeline
    × ((id : Text) (limit : ℕ)
        → recent_events r' id limit
          ≡ most_recent
              (min limit max_events_per_instrument)
              (for_instrument id (map to_book_event seen)))
recent_events-history_example =
    recent_events-history silent (λ n a. n + 1) opened seen refl opened-KeepsBooks seen-AllFresh
