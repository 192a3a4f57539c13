-- ===== src/Master/Metrics.antt =====
-- master/src/metrics.rs: the counters of the master and the ticks of its transfers. The counters are
-- the source's atomics, which wrap. A reading of a clock is an argument. Not here: `snapshot`, which
-- gathers what the registries say for the dashboard, and its rates in floating-point numbers.
pub mod Totals
mod Runs
use cupidmq.Common.{
  ltb, leb, ◌==◌, if◌then◌else◌, ltb→lt, ltb→le, lt→ltb, le→ltb, le→leb, lt→leb, ==_iff, Bool-cases,
  Option-cases, length, take, drop, get_elem?, All, length-append, take-append-drop, length-take,
  length-drop, take_all, take-append_length, drop-append_length, length-reverse, length-map,
  All-append, All-map, take-min-length, drop-min-length, take-append_le, take-take,
  drop-take-append, take-map, drop-map, u16_mod, u32_mod, u64_mod, usize_max, saturating_add,
  as_u16, as_u32, add_u32, add_u64, sub_u64, Bytes, ℕ, zero, suc, ◌+◌, ◌-◌, ◌*◌, ◌/◌, ◌%◌, ◌^◌, ◌≤◌,
  ◌<◌, min, max, ◌≡◌, refl, sym, ap, ap₂, subst, ◌∙◌, ◌≢◌, ◌↔◌, ◌⊎◌, inl, inr, Bool, true, false,
  not, ◌&&◌, ◌||◌, Option, none, some, List, [], ◌∷◌, ◌++◌, map, reverse, flatten, append-nil,
  append_assoc, map-append, reverse-append, reverse-reverse, reverse-cons, arith,
}
use cupidmq.Master.Producers.{ProducerState}
use cupidmq.Master.Consumers.{Phase}
use cupidmq.Master.Ticks.{
  TickBuffer, TransferTick, TickPhase, assign, deliver, fail, tick_buffer_cap,
}
use cupidmq.Master.Ticks

pub record Metrics : Type 0 where
  pub transfers_total : ℕ
  pub transfer_bytes_total : ℕ
  pub batches_total : ℕ
  pub delivery_failures_total : ℕ
  pub requeue_total : ℕ
  pub ticks : TickBuffer

unfoldable pub new : Metrics
new = record {
  transfers_total = 0;
  transfer_bytes_total = 0;
  batches_total = 0;
  delivery_failures_total = 0;
  requeue_total = 0;
  ticks = Ticks.new tick_buffer_cap;
}

-- Nothing is pushed for the consumer 0, which stands for none.
unfoldable pub push_tick : TransferTick → Metrics → Metrics
push_tick tick m = if tick.consumer_id == 0 then m else record m { ticks = Ticks.push tick m.ticks }

unfoldable pub record_assign_tick : ℕ → ℕ → ProducerState → Phase → ℕ → Metrics → Metrics
record_assign_tick producer_id consumer_id producer_state consumer_state now = push_tick (record {
  ts_ms = now;
  producer_id = producer_id;
  consumer_id = consumer_id;
  msg_count = 0;
  batch_bytes = 0;
  phase = assign;
  ok = true;
  fail_message = none;
  producer_state = producer_state;
  consumer_state = consumer_state;
})

unfoldable pub record_transfer : ℕ → ℕ → Metrics → Metrics
record_transfer msg_count batch_bytes m = record m {
  transfers_total = add_u64 m.transfers_total msg_count;
  transfer_bytes_total = add_u64 m.transfer_bytes_total batch_bytes;
  batches_total = add_u64 m.batches_total 1;
}

unfoldable pub record_delivery_failure : ℕ → Metrics → Metrics
record_delivery_failure msg_count m = record m {
  delivery_failures_total = add_u64 m.delivery_failures_total 1;
  requeue_total = add_u64 m.requeue_total msg_count;
}

-- The arguments of `record_transfer_tick`.
pub record Transfer : Type 0 where
  pub producer_id : ℕ
  pub consumer_id : ℕ
  pub msg_count : ℕ
  pub batch_bytes : ℕ
  pub ok : Bool
  pub fail_message : Option Bytes
  pub producer_state : ProducerState
  pub consumer_state : Phase

abbrev pub tick_of : Transfer → ℕ → TransferTick
tick_of t now = record {
  ts_ms = now;
  producer_id = t.producer_id;
  consumer_id = t.consumer_id;
  msg_count = t.msg_count;
  batch_bytes = t.batch_bytes;
  phase = if t.ok then deliver else fail;
  ok = t.ok;
  fail_message = t.fail_message;
  producer_state = t.producer_state;
  consumer_state = t.consumer_state;
}

-- A delivery of no messages is not a transfer.
unfoldable pub record_transfer_tick : Transfer → ℕ → Metrics → Metrics
record_transfer_tick t now m =
    if (t.consumer_id == 0) || (t.ok && (t.msg_count == 0))
    then m
    else push_tick (tick_of t now) (
        if t.ok
        then record_transfer t.msg_count t.batch_bytes m
        else record_delivery_failure t.msg_count m)

unfoldable pub drain_ticks : Metrics → List TransferTick × Metrics
drain_ticks m = let (ticks, b) = Ticks.drain m.ticks in (ticks, record m { ticks = b })
