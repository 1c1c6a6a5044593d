-- ===== src/Registry.antt =====
-- cpp/api/live_book_registry.hpp and .cpp: the consumer of the API server, which also keeps the latest events
-- of each instrument. Its mutex makes each call one step; the map of events is an association list, a deque a
-- list with its front first.
pub mod Window
pub mod History
mod Tests
use trade_surveillance_engin.Prelude.{
  ℕ, zero, suc, ◌+◌, ◌-◌, ◌%◌, ◌^◌, min, ltb, ℤ, Text, codes, text_eq, find, put, or_else, Bool,
  true, false, List, [], ◌∷◌, ◌++◌, length, drop, Option, none, some, ◌>>=◌, if◌then◌else◌, Double,
}
use trade_surveillance_engin.Fix.{
  Side, buy, sell, OrderStatus, new, cancelled, replaced, Event, order, execution,
}
use trade_surveillance_engin.OrderBook.Snapshot.{DepthSnapshot}
use trade_surveillance_engin.OrderBook.Snapshot
use trade_surveillance_engin.RingBuffer.{Ring}
use trade_surveillance_engin.Pipeline.{Evaluate, LivePipeline, ProcessResult, book_for, process}
use trade_surveillance_engin.Consumer.{OnAlert, deliver}
use trade_surveillance_engin.Consumer

pub record BookEvent (F : Type 0) : Type 0 where
  pub timestamp_ns : ℤ
  pub instrument_id : Text
  pub msg_type : Text
  pub side : Text
  pub price : F
  pub qty : ℤ
  pub order_id : Text
  pub account_id : Text

abbrev pub msg_type_of : OrderStatus → Text
msg_type_of cancelled = codes "CANCEL"
msg_type_of replaced = codes "REPLACE"
msg_type_of new = codes "NEW"

abbrev pub side_name : Side → Text
side_name buy = codes "BUY"
side_name sell = codes "SELL"

abbrev pub to_book_event : {F : Type 0} → Event F → BookEvent F
to_book_event (order o) = record {
  timestamp_ns = o.timestamp_ns;
  instrument_id = o.instrument_id;
  msg_type = msg_type_of o.status;
  side = side_name o.side;
  price = o.price;
  qty = o.qty;
  order_id = o.order_id;
  account_id = o.account_id;
}
to_book_event (execution x) = record {
  timestamp_ns = x.timestamp_ns;
  instrument_id = x.instrument_id;
  msg_type = codes "EXECUTION";
  side = side_name x.side;
  price = x.price;
  qty = x.qty;
  order_id = x.order_id;
  account_id = x.account_id;
}

-- kMaxEventsPerInstrument
abbrev pub max_events_per_instrument : ℕ
max_events_per_instrument = 200

-- The loop that pops the front while there are more than `n`.
unfoldable pub trim {ℓ} : {A : Type ℓ} → ℕ → List A → List A
trim n [] = []
trim n (x ∷ xs) = elim (ltb n (length (x ∷ xs))) [ true ↦ trim n xs | false ↦ x ∷ xs ]

pub record LiveBookRegistry (F S T : Type 0) : Type 0 where
  pub pipeline : LivePipeline F S
  pub alert_sink : Option T
  pub events_processed : ℕ
  pub events_skipped_inconsistent : ℕ
  pub recent_events_by_instrument : List (Text × List (BookEvent F))

module _ {F S T : Type 0} where
  unfoldable pub record_event : LiveBookRegistry F S T → Event F → LiveBookRegistry F S T
  unfolding trim
  record_event r e =
      let recorded = to_book_event e in
      let events = or_else (find text_eq recorded.instrument_id r.recent_events_by_instrument) [] in
      record r {
        recent_events_by_instrument =
            put text_eq recorded.instrument_id
              (trim max_events_per_instrument (events ++ (recorded ∷ [])))
              r.recent_events_by_instrument;
      }

  -- The counters and the alerts, behind the mutex.
  unfoldable pub count_result :
      OnAlert F T → LiveBookRegistry F S T → ProcessResult F → LiveBookRegistry F S T
  unfolding deliver
  count_result on_alert r result =
      let r' = record r { events_processed = (r.events_processed + 1) % 2 ^ 64 } in
      if result.skipped_inconsistent
      then record r' { events_skipped_inconsistent = (r.events_skipped_inconsistent + 1) % 2 ^ 64 }
      else record r' { alert_sink = deliver on_alert r.alert_sink result.alerts }

  -- none if this instrument has had no event
  unfoldable pub snapshot : LiveBookRegistry F S T → Text → Option (DepthSnapshot F)
  snapshot r instrument_id =
      book_for r.pipeline instrument_id >>= λ book. some (Snapshot.snapshot book)

  -- The last `limit` of the events kept, or all of them.
  unfoldable pub recent_events : LiveBookRegistry F S T → Text → ℕ → List (BookEvent F)
  recent_events r instrument_id limit =
      elim (find text_eq instrument_id r.recent_events_by_instrument) [
        | none ↦ []
        | some events ↦ drop (length events - min limit (length events)) events
      ]

module _ {F S T : Type 0} ⦃d : Double F⦄ where
  unfoldable pub process_one :
      Evaluate F S
      → OnAlert F T
      → LiveBookRegistry F S T
      → Event F
      → Option (LiveBookRegistry F S T)
  unfolding process count_result record_event
  process_one evaluate on_alert r e = process evaluate r.pipeline e >>= λ (p, result).
      some (count_result on_alert (record_event (record r { pipeline = p }) e) result)

  -- The loop is that of the live consumer, line by line.
  unfoldable pub run :
      Evaluate F S
      → OnAlert F T
      → ℕ
      → Ring (Event F)
      → LiveBookRegistry F S T
      → Bool
      → Option (LiveBookRegistry F S T × Ring (Event F))
  unfolding Consumer.run process_one
  run evaluate on_alert fuel queue r producer_done =
      Consumer.run (process_one evaluate on_alert) fuel queue r producer_done
