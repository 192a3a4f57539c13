-- ===== src/Master/Server.antt =====
-- master/src/server.rs: what the connections of producers and consumers, and the ticker of the matcher,
-- do to the state of the master. A connection is the sequence of its frames; handling one frame, the
-- start of a connection and its end are each one step. `send` says whether the socket of a producer
-- takes an ASGN, and `now` is the time. The HTTP server and the sampler of the history only read.

pub mod Frames
pub mod Sessions
pub mod Streams
pub mod Requests
pub mod Events
pub mod Keeps
pub mod Reachable
pub mod Asked
mod Runs
use cupidmq.Common.{
  ltb, leb, ◌==◌, if◌then◌else◌, ltb→lt, ltb→le, lt→ltb, le→ltb, le→leb, lt→leb, ==_iff, Bool-cases,
  Option-cases, length, take, drop, get_elem?, All, length-append, take-append-drop, length-take,
  length-drop, take_all, take-append_length, drop-append_length, length-reverse, length-map,
  All-append, All-map, take-min-length, drop-min-length, take-append_le, take-take,
  drop-take-append, take-map, drop-map, u16_mod, u32_mod, u64_mod, usize_max, saturating_add,
  as_u16, as_u32, add_u32, add_u64, sub_u64, Bytes, ℕ, zero, suc, ◌+◌, ◌-◌, ◌*◌, ◌/◌, ◌%◌, ◌^◌, ◌≤◌,
  ◌<◌, min, max, ◌≡◌, refl, sym, ap, ap₂, subst, ◌∙◌, ◌≢◌, ◌↔◌, ◌⊎◌, inl, inr, Bool, true, false,
  not, ◌&&◌, ◌||◌, Option, none, some, List, [], ◌∷◌, ◌++◌, map, reverse, flatten, append-nil,
  append_assoc, map-append, reverse-append, reverse-reverse, reverse-cons, arith,
}
use cupidmq.Protocol.Wire.{Error}
use cupidmq.Protocol.Control.{ReadyRequest, DeliveryReport, FailureReport, ProducerHeartbeat}
use cupidmq.Master.Producers.{ProducerRegistry, ProducerState, state_of, register}
use cupidmq.Master.Producers.ProducerState.{busy}
use cupidmq.Master.Producers
use cupidmq.Master.Producers.Reports.{
  take_pending_consumer, record_heartbeat, record_delivery, record_failure,
}
use cupidmq.Master.Consumers.{
  Floats, Phase, begin_cycle, finish_batch, set_unacked, set_phase, find_id_by_assigned_producer,
  remove_consumer,
}
use cupidmq.Master.Consumers.Phase.{processing, delivery_failed}
use cupidmq.Master.Consumers
use cupidmq.Master.Metrics.{Transfer, record_transfer_tick}
use cupidmq.Master.Metrics
use cupidmq.Master.Matchmaker.{Matched, Relay, nobody, new_matcher}
use cupidmq.Master.Matchmaker.Matching.{try_match}
use cupidmq.Master.Matchmaker.Events.{
  on_producer_ready, on_producer_done, on_producer_disconnect, wake_producer, cancel_consumer,
  enqueue_consumer, sync_ready_pool, with_producers,
}

-- `unwrap_or(0)`
abbrev pub or_zero : Option ℕ → ℕ
or_zero none = 0
or_zero (some id) = id

-- A frame of a producer behind its magic.
pub data ProducerFrame : Type 0 where
  prdy : ProducerFrame
  hbrp : ProducerHeartbeat → ProducerFrame
  delv : DeliveryReport → ProducerFrame
  failure : FailureReport → ProducerFrame

-- The arguments of `finish_producer_batch` after the report.
pub record Finish : Type 0 where
  pub msg_count : ℕ
  pub batch_bytes : ℕ
  pub ok : Bool
  pub fail_message : Option Bytes

abbrev pub is_ready_state : Option ProducerState → Bool
is_ready_state none = false
is_ready_state (some s) = Producers.is_ready s

abbrev pub transfer_of : ℕ → ℕ → Finish → Transfer
transfer_of producer_id consumer_id f = record {
  producer_id = producer_id;
  consumer_id = consumer_id;
  msg_count = f.msg_count;
  batch_bytes = f.batch_bytes;
  ok = f.ok;
  fail_message = f.fail_message;
  producer_state = busy;
  consumer_state = if f.ok then processing else delivery_failed;
}

module _ {F : Type 0} where
  -- The state in which `run` starts to listen.
  unfoldable pub new : Relay F
  new = record {
    producers = Producers.new;
    consumers = Consumers.new;
    metrics = Metrics.new;
    matcher = new_matcher;
  }

  -- The consumer that a report is about: the one noted with the producer, or else one that is
  -- assigned to it.
  abbrev pub reported_consumer : ℕ → Option ℕ → Relay F → ℕ
  reported_consumer producer_id noted s =
      if or_zero noted == 0
      then or_zero (find_id_by_assigned_producer s.consumers producer_id)
      else or_zero noted

  abbrev pub settle_consumer : Floats F → ℕ → Finish → ℕ → Relay F → Relay F
  settle_consumer fl consumer_id f now s = record s {
    consumers =
        if f.ok
        then finish_batch fl consumer_id f.msg_count f.batch_bytes now (f.msg_count == 0)
            s.consumers
        else set_phase consumer_id delivery_failed (set_unacked consumer_id 0 s.consumers);
  }

  abbrev pub note_transfer : Floats F → ℕ → ℕ → Finish → ℕ → Relay F → Relay F
  note_transfer fl producer_id consumer_id f now s =
      let settled = settle_consumer fl consumer_id f now s in
      if ltb 0 consumer_id
      then record settled {
        metrics = record_transfer_tick (transfer_of producer_id consumer_id f) now settled.metrics;
      }
      else s

  unfoldable pub finish_producer_batch :
      Floats F → (ℕ → Bytes → Bool) → ℕ → ℕ → Finish → Relay F → Relay F
  finish_producer_batch fl send now producer_id f s =
      let (noted, producers) = take_pending_consumer producer_id s.producers in
      let taken = with_producers producers s in
      let told =
        note_transfer fl producer_id (reported_consumer producer_id noted taken) f now taken in
      on_producer_done send now producer_id (
        with_producers
          (if f.ok
            then record_delivery producer_id f.msg_count told.producers
            else record_failure producer_id told.producers)
          told)

  unfoldable pub on_heartbeat : (ℕ → Bytes → Bool) → ℕ → ℕ → ProducerHeartbeat → Relay F → Relay F
  on_heartbeat send now id hb s =
      let (rematch, producers) = record_heartbeat id hb now s.producers in
      let s' = with_producers producers s in
      if rematch
      then wake_producer send now id s'
      else if is_ready_state (state_of producers id) && not (nobody s'.matcher.waiting)
      then (try_match send now s').1
      else s'

  -- The arms of `process_producer_magic`. An error of `try_match` after a PRDY ends the connection.
  abbrev pub went_on : Matched × Relay F → Option Error × Relay F
  went_on (Matched.failed e, s) = (some e, s)
  went_on (Matched.done, s) = (none, s)
  went_on (Matched.out_of_fuel, s) = (none, s)

  unfoldable pub process_producer_frame :
      Floats F → (ℕ → Bytes → Bool) → ℕ → ℕ → ProducerFrame → Relay F → Option Error × Relay F
  process_producer_frame fl send now id prdy s = went_on (on_producer_ready send now id s)
  process_producer_frame fl send now id (hbrp hb) s = (none, on_heartbeat send now id hb s)
  process_producer_frame fl send now id (delv report) s = (
    none,
    finish_producer_batch fl send now id
        (record {
          msg_count = report.msg_count;
          batch_bytes = report.batch_bytes;
          ok = true;
          fail_message = none;
        })
        s,
  )
  process_producer_frame fl send now id (failure report) s = (
    none,
    finish_producer_batch fl send now id
        (record {
          msg_count = report.msg_count;
          batch_bytes = report.batch_bytes;
          ok = false;
          fail_message = some report.message;
        })
        s,
  )

  -- The start of `handle_producer`, in front of its first frame.
  unfoldable pub connect_producer : Bytes → ℕ → Relay F → ℕ × Relay F
  connect_producer addr now s =
      let (id, producers) = register s.producers addr now in (id, with_producers producers s)

  unfoldable pub connect_consumer :
      Floats F → (ℕ → Bytes) → Bytes → Bytes → ℕ → Relay F → ℕ × Relay F
  connect_consumer fl tag addr data_addr now s =
      let (id, consumers) = Consumers.register fl tag addr data_addr now s.consumers in
      (id, record s { consumers = consumers })

  -- One round of the loop of `handle_consumer`; an error of `try_match` is only logged.
  unfoldable pub on_consumer_ready :
      Floats F → (ℕ → Bytes → Bool) → ℕ → ℕ → Bytes → ReadyRequest → Relay F → Relay F
  on_consumer_ready fl send now id data_addr request s =
      let begun : Relay F = record s {
        consumers = begin_cycle fl id request.max_items request.consumer_tag now s.consumers;
      } in
      (try_match send now (enqueue_consumer id request data_addr begun)).1

  -- The end of a consumer's session.
  unfoldable pub disconnect_consumer : (ℕ → Bytes → Bool) → ℕ → ℕ → Relay F → Relay F
  disconnect_consumer send now id s =
      let cancelled = cancel_consumer send now id s in
      record cancelled { consumers = remove_consumer id cancelled.consumers }

  -- One tick of `run_match_loop`.
  unfoldable pub match_tick : (ℕ → Bytes → Bool) → ℕ → Relay F → Relay F
  match_tick send now s =
      if nobody s.matcher.waiting then s else (try_match send now (sync_ready_pool s)).1
