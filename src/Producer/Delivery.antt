-- ===== src/Producer/Delivery.antt =====
-- master/src/producer/client.rs: serving an ASGN, from the drain to the report for the master.
-- What the network answers is an argument, and so is what the producer's other tasks do to its state
-- while the network is awaited.
pub mod Outcome
use cupidmq.Common.{
  ltb, leb, ◌==◌, if◌then◌else◌, ltb→lt, ltb→le, lt→ltb, le→ltb, le→leb, lt→leb, ==_iff, Bool-cases,
  Option-cases, length, take, drop, get_elem?, All, length-append, take-append-drop, length-take,
  length-drop, take_all, take-append_length, drop-append_length, length-reverse, length-map,
  All-append, All-map, take-min-length, drop-min-length, take-append_le, take-take,
  drop-take-append, take-map, drop-map, u16_mod, u32_mod, u64_mod, usize_max, saturating_add,
  as_u16, as_u32, add_u32, add_u64, sub_u64, Bytes, ℕ, zero, suc, ◌+◌, ◌-◌, ◌*◌, ◌/◌, ◌%◌, ◌^◌, ◌≤◌,
  ◌<◌, min, max, ◌≡◌, refl, sym, ap, ap₂, subst, ◌∙◌, ◌≢◌, ◌↔◌, ◌⊎◌, inl, inr, Bool, true, false,
  not, ◌&&◌, ◌||◌, Option, none, some, List, [], ◌∷◌, ◌++◌, map, reverse, flatten, append-nil,
  append_assoc, map-append, reverse-append, reverse-reverse, reverse-cons, arith,
}
use cupidmq.Ring.{QueuedMessage}
use cupidmq.Producer.{
  Readings, LinkState, disconnected, idle, ready, busy, ProducerConfig, ProducerStats, Inner,
  connect, sync_drop_stats, publish_batch, push_batch_to_ring, push_batches, some_batches,
  accumulate, drain_pending, flushed, flush_ingress_to_ring, is_some, accumulator_round,
  collect_heartbeat, keep_loop, push_all_front, drain_for_assign, requeue_items,
}
use cupidmq.Protocol.Batch.{encode_batch_payload}
use cupidmq.Protocol.Control.{AssignRequest, DeliveryReport, FailureReport}

-- What `time::timeout(timeout, tcp_deliver_batch(…))` comes to; an error has its text.
pub data Delivery : Type 0 where
  delivered : Delivery
  refused : Bytes → Delivery
  timed_out : Delivery

pub data Report : Type 0 where
  success : DeliveryReport → Report
  failure : FailureReport → Report

abbrev pub payload_refs : List QueuedMessage → List Bytes
payload_refs [] = []
payload_refs (m ∷ items) = m.payload ∷ payload_refs items

-- The part of `deliver_assign` that holds the lock before the delivery.
unfoldable pub start_delivery : Inner → AssignRequest → Readings → List QueuedMessage × Inner
start_delivery st assign clock =
    let flushed_st = flush_ingress_to_ring st clock in
    let (items, ring) =
      drain_for_assign flushed_st.ring (max assign.max_items 1) st.config.max_batch_bytes
        (clock 0 1) in
    (items, record flushed_st { ring = ring })

-- `"delivery timeout"`
abbrev pub timeout_text : Bytes
timeout_text =
    b'd' ∷ b'e' ∷ b'l' ∷ b'i' ∷ b'v' ∷ b'e' ∷ b'r' ∷ b'y' ∷ b' ' ∷ b't' ∷ b'i' ∷ b'm' ∷ b'e' ∷ b'o'
    ∷ b'u' ∷ b't' ∷ []

abbrev pub failure_of : List QueuedMessage → Bytes → Report
failure_of items text = failure (record {
  msg_count = as_u16 (length items);
  batch_bytes = as_u32 (length (encode_batch_payload (payload_refs items)));
  code = 0;
  message = text;
})

-- The `match` on the delivery.
unfoldable pub finish_delivery : List QueuedMessage → Delivery → Inner → Report × Inner
finish_delivery items delivered st = (
  success (record {
    msg_count = as_u16 (length items);
    batch_bytes = as_u32 (length (encode_batch_payload (payload_refs items)));
  }),
  st,
)
finish_delivery items (refused text) st = (failure_of items text, requeue_items st items)
finish_delivery items timed_out st = (failure_of items timeout_text, requeue_items st items)

unfoldable pub deliver_assign :
    Inner → AssignRequest → Readings → (List Bytes → Delivery) → (Inner → Inner) → Report × Inner
deliver_assign st assign clock network meanwhile =
    let (items, st') = start_delivery st assign clock in
    if as_u16 (length items) == 0
    then (success (record { msg_count = 0; batch_bytes = 0 }), st')
    else finish_delivery items (network (payload_refs items)) (meanwhile st')

unfoldable pub mark_disconnected : Inner → ℕ → Inner
mark_disconnected st now = record st {
  connected = false;
  link_state = disconnected;
  last_connect_fail = some now;
}

-- The counters of a report; the frame that is written for it is `encode_delivered` or
-- `encode_failed` of the report.
unfoldable pub count_report : Inner → ProducerStats → Report → ProducerStats
count_report st stats (success report) =
    if ltb 0 report.msg_count
    then record stats {
      published_items = add_u64 stats.published_items report.msg_count;
      published_bytes = add_u64 stats.published_bytes report.batch_bytes;
      published_batches = add_u64 stats.published_batches 1;
    }
    else stats
count_report st stats (failure report) =
    sync_drop_stats st (record stats { delivery_errors = add_u64 stats.delivery_errors 1 })

-- `wrote` says whether the frame went out.
unfoldable pub handle_delivery_result :
    Inner → ProducerStats → Report → Bool → ℕ → Inner × ProducerStats
handle_delivery_result st stats report wrote now =
    (if wrote then st else mark_disconnected st now, count_report st stats report)
