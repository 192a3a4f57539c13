-- ===== src/Consumer.antt =====
-- master/src/consumer/client.rs: the consumer. The tasks of the data connections put a batch into
-- `pending`, the control task asks the master for batches and hands them to the channel `out`, and
-- `consume` takes them from there. What a task does between two of its waits is one step; what a wait
-- comes to is an argument, or a step of its own. Not here: the parsing of addresses and the listener.
pub mod Moves
pub mod Steady
pub mod Reached
pub mod Serving
pub mod Settings
mod Runs
use cupidmq.Common.{
  ltb, leb, ◌==◌, if◌then◌else◌, ltb→lt, ltb→le, lt→ltb, le→ltb, le→leb, lt→leb, ==_iff, Bool-cases,
  Option-cases, length, take, drop, get_elem?, All, length-append, take-append-drop, length-take,
  length-drop, take_all, take-append_length, drop-append_length, length-reverse, length-map,
  All-append, All-map, take-min-length, drop-min-length, take-append_le, take-take,
  drop-take-append, take-map, drop-map, u16_mod, u32_mod, u64_mod, usize_max, saturating_add,
  as_u16, as_u32, add_u32, add_u64, sub_u64, Bytes, ℕ, zero, suc, ◌+◌, ◌-◌, ◌*◌, ◌/◌, ◌%◌, ◌^◌, ◌≤◌,
  ◌<◌, min, max, ◌≡◌, refl, sym, ap, ap₂, subst, ◌∙◌, ◌≢◌, ◌↔◌, ◌⊎◌, inl, inr, Bool, true, false,
  not, ◌&&◌, ◌||◌, Option, none, some, List, [], ◌∷◌, ◌++◌, map, reverse, flatten, append-nil,
  append_assoc, map-append, reverse-append, reverse-reverse, reverse-cons, arith,
}
use cupidmq.Protocol.Wire.{Result, ok, err}
use cupidmq.Protocol.Control.{encode_consumer_ready, encode_register}

-- The part of the configuration that the tasks read.
pub record ConsumerConfig : Type 0 where
  pub data_addr : Bytes
  pub consumer_tag : Bytes
  pub max_batch_size_count : ℕ
  pub prefetch_batch_count : ℕ
  pub reconnect : Bool

pub record ConsumerStats : Type 0 where
  pub batches_in : ℕ
  pub msgs_in : ℕ
  pub reconnects : ℕ
  pub drops : ℕ
  pub empty_waits : ℕ
  pub stale_batches : ℕ

-- Where the control task stands: it connects, waits for `prefetch`, waits for a batch, waits for room
-- in the channel, is about to leave a session that is over, or has ended.
pub data Control : Type 0 where
  connecting idle waiting leaving ended : Control
  sending : List Bytes → Control

-- `prefetch` and `batch_ready` are gates that are raised or not; `closed` says that the `None` that
-- ends the channel has been sent, and `handling` that a handler of `consume` runs.
pub record Consumer : Type 0 where
  pub accept_batch : Bool
  pub batch_ready : Bool
  pub pending : Option (List Bytes)
  pub stale_batches : ℕ
  pub stats : ConsumerStats
  pub prefetch : Bool
  pub stop : Bool
  pub out : List (List Bytes)
  pub closed : Bool
  pub control : Control
  pub handling : Bool

unfoldable pub connect : Consumer
connect = record {
  accept_batch = false;
  batch_ready = false;
  pending = none;
  stale_batches = 0;
  stats = record {
    batches_in = 0;
    msgs_in = 0;
    reconnects = 0;
    drops = 0;
    empty_waits = 0;
    stale_batches = 0;
  };
  prefetch = true;
  stop = false;
  out = [];
  closed = false;
  control = connecting;
  handling = false;
}

unfoldable pub store_batch : List Bytes → Consumer → Consumer
store_batch items c = record c { pending = some items; batch_ready = true }

-- What a data connection does with a batch.
unfoldable pub serve_batch : List Bytes → Consumer → Consumer
serve_batch items c =
    if not c.accept_batch
    then record c {
      stale_batches = add_u64 c.stale_batches 1;
      stats = record c.stats { stale_batches = add_u64 c.stale_batches 1 };
    }
    else store_batch items c

abbrev pub drop_one : Consumer → Consumer
drop_one c = record c { stats = record c.stats { drops = add_u64 c.stats.drops 1 } }

abbrev pub reconnect_one : Consumer → Consumer
reconnect_one c = record c { stats = record c.stats { reconnects = add_u64 c.stats.reconnects 1 } }

-- An error of `run_control_session`.
abbrev pub fail_session : Consumer → Consumer
fail_session c = record (drop_one c) { control = leaving }

-- `let _ = shared.out_tx.send(None).await`
abbrev pub finish : Consumer → Consumer
finish c = record c { closed = true; control = ended }

-- A failed attempt to connect.
unfoldable pub connect_failed : ConsumerConfig → Consumer → Consumer
connect_failed cfg c =
    let dropped = drop_one c in if not cfg.reconnect || c.stop then finish dropped else dropped

abbrev pub with_register : ConsumerConfig → Bool → Result Bytes → Consumer → Consumer
with_register cfg written (err e) c =
    let dropped = drop_one c in if not cfg.reconnect || c.stop then finish dropped else dropped
with_register cfg written (ok frame) c =
    if written
    then record c { control = idle }
    else (let dropped = drop_one c in
        if not cfg.reconnect || c.stop then finish dropped else reconnect_one dropped)

-- A connection stands: the REG! is written, or not.
unfoldable pub register : ConsumerConfig → Bool → Consumer → Consumer
register cfg written c = with_register cfg written (encode_register cfg.data_addr) c

-- What `run_control_plane` does after a session.
unfoldable pub leave_session : ConsumerConfig → Consumer → Consumer
leave_session cfg c =
    if not cfg.reconnect || c.stop
    then finish c
    else reconnect_one (record c { prefetch = true; control = connecting })

abbrev pub with_ready : Bool → Result Bytes → Consumer → Consumer
with_ready written (err e) c = fail_session c
with_ready written (ok frame) c =
    if written then record c { accept_batch = true; control = waiting } else fail_session c

-- `prefetch` was raised: it is cleared, and the CRDY is written, or not.
unfoldable pub request : ConsumerConfig → Bool → Consumer → Consumer
request cfg written c =
    let cleared = record c { prefetch = false } in
    if c.stop
    then record cleared { control = leaving }
    else with_ready written (encode_consumer_ready cfg.max_batch_size_count cfg.consumer_tag)
        (record cleared { batch_ready = false; pending = none })

-- The connection to the master is gone.
unfoldable pub disconnect : Consumer → Consumer
disconnect c = fail_session (record c { accept_batch = false })

-- Nothing came: the next request may follow at once.
abbrev pub wait_empty : Consumer → Consumer
wait_empty c = record c {
  stats = record c.stats { empty_waits = add_u64 c.stats.empty_waits 1 };
  prefetch = true;
  control = idle;
}

unfoldable pub time_out : Consumer → Consumer
time_out c = wait_empty (record c { accept_batch = false })

abbrev pub items_of : Option (List Bytes) → List Bytes
items_of none = []
items_of (some items) = items

abbrev pub hand_over : List Bytes → Consumer → Consumer
hand_over [] c = wait_empty c
hand_over (item ∷ items) c = record c {
  stats = record c.stats {
    batches_in = add_u64 c.stats.batches_in 1;
    msgs_in = add_u64 c.stats.msgs_in (length (item ∷ items));
  };
  control = sending (item ∷ items);
}

-- `batch_ready` was raised.
unfoldable pub take_batch : Consumer → Consumer
take_batch c = hand_over (items_of c.pending) (record c {
  accept_batch = false;
  stats = record c.stats { stale_batches = c.stale_batches };
  pending = none;
})

-- The channel has room.
unfoldable pub send : List Bytes → Consumer → Consumer
send batch c = record c { out = c.out ++ (batch ∷ []); control = idle }

-- The consumer is gone.
unfoldable pub send_fails : Consumer → Consumer
send_fails c = record c { control = leaving }

abbrev pub pulled : List (List Bytes) → Consumer → Option (List Bytes) × Consumer
pulled [] c = (none, c)
pulled (batch ∷ rest) c = (some batch, record c { out = rest; handling = true })

-- `consume` takes a batch and starts its handler, and when that is done asks for the next.
unfoldable pub pull_batch : Consumer → Option (List Bytes) × Consumer
pull_batch c = pulled c.out c

unfoldable pub release_prefetch_slot : Consumer → Consumer
release_prefetch_slot c = record c { prefetch = true; handling = false }

-- The handler returns an error: `consume` returns it at once, and does not raise `prefetch`.
unfoldable pub handler_fails : Consumer → Consumer
handler_fails c = record c { handling = false }

unfoldable pub close : Consumer → Consumer
close c = record c { stop = true }
