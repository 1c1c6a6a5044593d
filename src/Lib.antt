-- ===== src/Lib.antt =====
-- The trade surveillance engine: order events come in over FIX or from a replay, wait in a ring buffer,
-- build up one limit order book per instrument, and are judged by a list of detectors that raise alerts.
--
-- The parts, and the files that model them:
--
-- cpp/orderbook/order_book.{hpp,cpp}, depth_snapshot.hpp: OrderBook.antt. A book has two maps from
-- price to queue and an index from order id to a queue iterator. A list node has a number that stands
-- for its address, so that an iterator can dangle in the model. Each method returns the new book and
-- how the call ended: applied, thrown, or undefined behaviour.
-- OrderBook/Validity.antt has the invariant (OrderBook/Links.antt: index and queues lead to each other;
-- OrderBook/Levels.antt: the levels are in order and none is empty; OrderBook/Queues.antt: no node twice),
-- OrderBook/Priority.antt the abstract book, a queue of orders at each side and price,
-- OrderBook/Refinement.antt what each event does to it, OrderBook/Snapshot.antt the queries and
-- OrderBook/Depth.antt what they answer.
-- cpp/fix/types.{hpp,cpp}: Fix.antt, with the names of the enumerators in Fix/Names.antt.
-- cpp/fix/message_translator.{hpp,cpp}: Fix/Translator.antt, with a message of QuickFIX as a parameter, and
-- its round trips in Fix/Translator/RoundTrip.antt.
-- cpp/ingestion/event_codec.{hpp,cpp}: Codec.antt, with the parser in Codec/Parser.antt. Its loop over the
-- members takes as much fuel as the text has characters, which is enough, since each turn reads one.
-- cpp/ingestion/spsc_ring_buffer.hpp: RingBuffer.antt, against the bounded queue in RingBuffer/Queue.antt.
-- Positions are size_t. `claim` and `make_room` are loops on fuel. Between calls one round of `claim` and
-- two of `make_room` are enough. The theorems hold while the positions have not come to 2^64, and for one
-- call at a time. The steps inside two calls that overlap are not modelled, nor is the spurious failure of
-- compare_exchange_weak, after which `claim` would look again.
-- cpp/detectors/: Detectors.antt (Alert), Detectors/Accounts.antt (AccountRegistry),
-- Detectors/WashTrade.antt, Detectors/FrontRunning.antt, Detectors/Statistical.antt (over a
-- history of events in Detectors/Statistical/History.antt),
-- Detectors/MarkingTheClose.antt with the union-find of Detectors/MarkingTheClose/Groups.antt, which takes
-- fuel: one more than the longest chain of parents is enough; what its calls leave of earlier alerts is in
-- Detectors/MarkingTheClose/Calls.antt. Detectors/Spoofing.antt has the spoofing and
-- layering detector's tables, Detectors/Spoofing/Scoring.antt the score of a cancelled order.
-- cpp/pipeline/live_pipeline.{hpp,cpp}: Pipeline.antt, for any type of detectors with an `evaluate`.
-- cpp/pipeline/live_consumer.{hpp,cpp}, alert_sink.hpp: Consumer.antt. The loop `run` takes fuel: a turn for
-- each waiting event and one more is enough once the producer is done. Consumer/Interleaving.antt has the
-- calls of producer and consumer in any order, as a step relation, and Consumer/Interleaving/NoLoss.antt the
-- runs that lose nothing.
-- cpp/api/live_book_registry.{hpp,cpp}: Registry.antt, the consumer that keeps the latest events.
-- cpp/simulator/: Simulator.antt (types), Simulator/Universe.antt (instrument_universe), Simulator/Accounts.antt
-- (account_registry), Simulator/Draws.antt (random_utils and id_generator, with the generator and the
-- distributions of the library as a parameter), Simulator/Baseline.antt (baseline_generator),
-- Simulator/WashTrade.antt, Simulator/FrontRunning.antt, Simulator/MarkingTheClose.antt and
-- Simulator/Spoofing.antt (abuse/), with what they share in Simulator/Scenario.antt, and Simulator/Session.antt
-- (simulator). A generator passes on the state of the draws; Simulator/Draws/Makes.antt has the rules by which
-- what it makes is shown for all draws. The loop over the arrivals of the baseline flow takes fuel: the
-- nanoseconds of the session and one round more for each gap that is rounded to zero are enough
-- (Simulator/Baseline/Ends.antt).
-- cpp/harness/evaluation.{hpp,cpp}: Harness.antt, and Harness/Anomaly.antt for the anomaly detector.
-- cpp/harness/replay_runner.cpp: Harness/Replay.antt, with the merge by time in Harness/Replay/Merged.antt and
-- the size of the ring buffer in Harness/Replay/Capacity.antt, where 54 rounds of doubling lead from 1024 to
-- 2^63.
--
-- Numbers: std::string is a list of character codes. int64_t is ℤ, for code that relies on no
-- overflow, which would be undefined behaviour; uint64_t and size_t wrap at 2^64 where they count. double
-- is the parameter `Double` of Prelude/Doubles.antt: operations, and the laws that comparisons have without
-- NaN. Where a price is a key of a std::map, `IsTotal` says that two prices of which neither is less are
-- one key. The tests take whole ticks from Ticks.antt.
--
-- Not modelled: the recorded case of cpp/simulator/abuse/sarao_case.cpp; the Kafka transport, QuickFIX
-- sessions, PostgreSQL, HTTP and the dashboard, which are calls of third-party libraries; the client of the
-- Python service and the service; clocks and latencies; the writers of files.
pub mod Prelude
pub mod Ticks
pub mod Fix
pub mod OrderBook
pub mod Detectors
pub mod RingBuffer
pub mod Pipeline
pub mod Codec
pub mod Registry
pub mod Simulator
pub mod Harness
pub mod Consumer
