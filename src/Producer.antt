-- ===== src/Producer.antt =====
-- master/src/producer/client.rs: the producer's state behind its lock, from `publish_batch` through
-- the accumulator to the ring, and from the ring to the consumer of an ASGN.
-- A reading of a clock is an argument, one for each call: the lock is held over all of a call.
pub mod Ingest
pub mod Drain
pub mod Delivery
pub mod Control
pub mod Pool
pub mod Settings
mod Runs
use cupidmq.Common.{
  ltb, leb, ◌==◌, if◌then◌else◌, ltb→lt, ltb→le, lt→ltb, le→ltb, le→leb, lt→leb, ==_iff, Bool-cases,
  Option-cases, length, take, drop, get_elem?, All, length-append, take-append-drop, length-take,
  length-drop, take_all, take-append_length, drop-append_length, length-reverse, length-map,
  All-append, All-map, take-min-length, drop-min-length, take-append_le, take-take,
  drop-take-append, take-map, drop-map, u16_mod, u32_mod, u64_mod, usize_max, saturating_add,
  as_u16, as_u32, add_u32, add_u64, sub_u64, Bytes, ℕ, zero, suc, ◌+◌, ◌-◌, ◌*◌, ◌/◌, ◌%◌, ◌^◌, ◌≤◌,
  ◌<◌, min, max, ◌≡◌, refl, sym, ap, ap₂, subst, ◌∙◌, ◌≢◌, ◌↔◌, ◌⊎◌, inl, inr, Bool, true, false,
  not, ◌&&◌, ◌||◌, Option, none, some, List, [], ◌∷◌, ◌++◌, map, reverse, flatten, append-nil,
  append_assoc, map-append, reverse-append, reverse-reverse, reverse-cons, arith,
}
use cupidmq.Ring.{ByteRing, QueuedMessage, PushResult}
use cupidmq.Ring
use cupidmq.Accumulator.{BatchAccumulator}
use cupidmq.Accumulator
use cupidmq.Protocol.Control.{AssignRequest, DeliveryReport, FailureReport, ProducerHeartbeat}
use cupidmq.Protocol.Batch.{encode_batch_payload}

pub data LinkState : Type 0 where
  disconnected idle ready busy : LinkState

-- The settings that the functions below read; `master` is an address for the network alone.
pub record ProducerConfig : Type 0 where
  pub max_batch_bytes : ℕ
  pub flush_timeout_ms : ℕ
  pub outbound_max_bytes : ℕ
  pub reconnect_delay_secs : ℕ

pub record ProducerStats : Type 0 where
  pub published_items : ℕ
  pub published_batches : ℕ
  pub published_bytes : ℕ
  pub reconnects : ℕ
  pub queue_dropped_items : ℕ
  pub delivery_errors : ℕ

pub record Inner : Type 0 where
  pub config : ProducerConfig
  pub pending : ByteRing
  pub ring : ByteRing
  pub accumulator : BatchAccumulator
  pub link_state : LinkState
  pub connected : Bool
  pub last_connect_fail : Option ℕ

-- The state that `Producer::connect` hands to its tasks.
unfoldable pub connect : ProducerConfig → Inner
unfolding Ring.new Accumulator.new
connect config = record {
  config = config;
  pending = Ring.new config.outbound_max_bytes;
  ring = Ring.new config.outbound_max_bytes;
  accumulator = Accumulator.new config.max_batch_bytes config.flush_timeout_ms;
  link_state = disconnected;
  connected = false;
  last_connect_fail = none;
}

unfoldable pub sync_drop_stats : Inner → ProducerStats → ProducerStats
sync_drop_stats st stats = record stats {
  queue_dropped_items = add_u64 st.pending.drops_total st.ring.drops_total;
}

unfoldable pub publish_batch : Inner → ProducerStats → Bytes → ℕ → Inner × ProducerStats
publish_batch st stats item now =
    let st' : Inner = record st { pending = (Ring.push st.pending item now).0 } in
    (st', sync_drop_stats st' stats)

unfoldable pub push_batch_to_ring : ByteRing → List Bytes → ℕ → ByteRing
push_batch_to_ring ring [] now = ring
push_batch_to_ring ring (item ∷ batch) now =
    push_batch_to_ring (Ring.push ring item now).0 batch now

-- The readings of the clock while the lock is held: of each round, by the rounds that are left, and
-- within a round in their order.
abbrev pub Readings : Type 0
Readings = ℕ → ℕ → ℕ

-- `for batch in batches { push_batch_to_ring(&mut st.ring, &batch) }`
unfoldable pub push_batches : ByteRing → List (List Bytes) → (ℕ → ℕ) → ByteRing
push_batches ring [] clock = ring
push_batches ring (batch ∷ batches) clock =
    push_batches (push_batch_to_ring ring batch (clock 0)) batches (λ n. clock (suc n))

abbrev pub some_batches : List (List Bytes) → Bool
some_batches [] = false
some_batches (batch ∷ batches) = true

-- One round of `while let Some(msg) = st.pending.pop_front()`, and whether the ring gained by it.
abbrev pub accumulate : Inner → QueuedMessage → ByteRing → (ℕ → ℕ) → Inner × Bool
accumulate st msg pending clock =
    let (batches, accumulator) = Accumulator.push st.accumulator msg.payload (clock 0) in
    (
      record st {
        pending = pending;
        accumulator = accumulator;
        ring = push_batches st.ring batches (λ n. clock (suc n));
      },
      some_batches batches,
    )

-- The loop, with the length of the queue as fuel.
unfoldable pub drain_pending : ℕ → Inner → Bool → Readings → Inner × Bool
drain_pending zero st gained clock = (st, gained)
drain_pending (suc fuel) st gained clock = elim (Ring.pop_front st.pending) [
  | none ↦ (st, gained)
  | some (msg, pending) ↦
      let (st', more) = accumulate st msg pending (clock (suc fuel)) in
      drain_pending fuel st' (gained || more) clock
]

abbrev pub flushed : Inner → Option (List Bytes) × BatchAccumulator → ℕ → Inner
flushed st (none, accumulator) now = st
flushed st (some batch, accumulator) now = record st {
  accumulator = accumulator;
  ring = push_batch_to_ring st.ring batch now;
}

unfoldable pub flush_ingress_to_ring : Inner → Readings → Inner
flush_ingress_to_ring st clock =
    let st' = (drain_pending (Ring.len st.pending) st false clock).0 in
    flushed st' (Accumulator.take_batch st'.accumulator) (clock 0 0)

abbrev pub is_some : Option (List Bytes) → Bool
is_some none = false
is_some (some batch) = true

-- One round of `run_accumulator`, under the lock: the state, the statistics, and whether the ring
-- gained and the control task is to be woken.
unfoldable pub accumulator_round : Inner → ProducerStats → Readings → Inner × ProducerStats × Bool
accumulator_round st stats clock =
    let drained = drain_pending (Ring.len st.pending) st false clock in
    let flush = Accumulator.flush_if_timeout drained.0.accumulator (clock 0 0) in
    let st' = flushed drained.0 flush (clock 0 1) in
    (st', sync_drop_stats st' stats, drained.1 || is_some flush.0)

unfoldable pub collect_heartbeat : Inner → ProducerHeartbeat
collect_heartbeat st = record {
  pending_messages = as_u32 (Ring.len st.pending);
  pending_bytes = as_u32 (Ring.byte_len st.pending);
  ring_messages = as_u32 (Ring.len st.ring);
  ring_bytes = as_u32 (Ring.byte_len st.ring);
  drops_total = add_u64 st.pending.drops_total st.ring.drops_total;
}

-- The `for` loop of `drain_for_assign`: how many of the messages to keep. `usize` sums wrap.
unfoldable pub keep_loop : ℕ → ℕ → ℕ → ℕ → List QueuedMessage → ℕ
keep_loop max_batch_bytes keep i total_bytes [] = keep
keep_loop max_batch_bytes keep i total_bytes (msg ∷ out) =
    let next = add_u64 total_bytes (length msg.payload) in
    let rest = keep_loop max_batch_bytes keep (i + 1) next out in
    if ltb max_batch_bytes next && ltb 0 i then i else rest

-- `for msg in messages { ring.push_front(msg) }`
unfoldable pub push_all_front : ByteRing → List QueuedMessage → ByteRing
push_all_front ring [] = ring
push_all_front ring (msg ∷ messages) = push_all_front (Ring.push_front ring msg).0 messages

-- With nothing popped the loop keeps nothing and nothing goes back, as the early return has it.
unfoldable pub drain_for_assign : ByteRing → ℕ → ℕ → ℕ → List QueuedMessage × ByteRing
drain_for_assign ring max_items max_batch_bytes now =
    let (out, ring') = Ring.pop_up_to ring max_items now in
    let keep = keep_loop max_batch_bytes (length out) 0 0 out in
    if ltb keep (length out)
    then (take keep out, push_all_front ring' (reverse (drop keep out)))
    else (out, ring')

unfoldable pub requeue_items : Inner → List QueuedMessage → Inner
requeue_items st items = record st { ring = push_all_front st.ring (reverse items) }
