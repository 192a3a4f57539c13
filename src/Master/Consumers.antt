-- ===== src/Master/Consumers.antt =====
-- master/src/consumers.rs: `ConsumerRegistry`, what the master knows of each connected consumer, and
-- the index of the consumers that await a batch of each producer. Floating-point numbers are a type
-- `F` with the operations of `Floats`. A call takes the locks of the entries and of the index one after
-- the other; it is one step here. Not here: `list` and the rates per second, for the dashboard.
pub mod Index
pub mod Assignments
pub mod Release
pub mod Reachable
pub mod Addressed
pub mod Asking
mod Runs
use cupidmq.Common.{
  ltb, leb, ◌==◌, if◌then◌else◌, ltb→lt, ltb→le, lt→ltb, le→ltb, le→leb, lt→leb, ==_iff, Bool-cases,
  Option-cases, length, take, drop, get_elem?, All, length-append, take-append-drop, length-take,
  length-drop, take_all, take-append_length, drop-append_length, length-reverse, length-map,
  All-append, All-map, take-min-length, drop-min-length, take-append_le, take-take,
  drop-take-append, take-map, drop-map, u16_mod, u32_mod, u64_mod, usize_max, saturating_add,
  as_u16, as_u32, add_u32, add_u64, sub_u64, Bytes, ℕ, zero, suc, ◌+◌, ◌-◌, ◌*◌, ◌/◌, ◌%◌, ◌^◌, ◌≤◌,
  ◌<◌, min, max, ◌≡◌, refl, sym, ap, ap₂, subst, ◌∙◌, ◌≢◌, ◌↔◌, ◌⊎◌, inl, inr, Bool, true, false,
  not, ◌&&◌, ◌||◌, Option, none, some, List, [], ◌∷◌, ◌++◌, map, reverse, flatten, append-nil,
  append_assoc, map-append, reverse-append, reverse-reverse, reverse-cons, arith,
}
use cupidmq.Master.Store.{Store, get, remove, insert, alter, member, without}
use cupidmq.Protocol.Control.{ReadyRequest}

-- `f64`: `x as f64`, `x <= 0.0`, and `ema * 0.8 + sample * 0.2`.
pub record Floats (F : Type 0) : Type 0 where
  pub zero_f64 : F
  pub as_f64 : ℕ → F
  pub at_most_zero : F → Bool
  pub smooth : F → F → F

-- The texts that the source keeps as the state of a consumer.
pub data Phase : Type 0 where
  idle matcher_queue awaiting_batch processing delivery_failed : Phase

abbrev pub is_awaiting : Phase → Bool
is_awaiting awaiting_batch = true
is_awaiting _ = false

pub record ConsumerEntry (F : Type 0) : Type 0 where
  pub consumer_tag : Bytes
  pub addr : Bytes
  pub data_addr : Bytes
  pub connected_at : ℕ
  pub rate_batches : ℕ
  pub rate_bytes : ℕ
  pub unacked : ℕ
  pub last_batch_items : ℕ
  pub last_batch_bytes : ℕ
  pub state : Phase
  pub max_batch_requested : ℕ
  pub batch_items_ema : F
  pub process_time_ema_ms : F
  pub last_batch_delivered_ms : ℕ
  pub assigned_producer_id : Option ℕ

pub record ConsumerRegistry (F : Type 0) : Type 0 where
  pub next_id : ℕ
  pub inner : Store (ConsumerEntry F)
  pub awaiting_by_producer : Store (List ℕ)

abbrev pub null : List ℕ → Bool
null [] = true
null (x ∷ xs) = false

abbrev pub awaiting_of : Option (List ℕ) → List ℕ
awaiting_of none = []
awaiting_of (some set) = set

-- `entry(producer_id).or_default().insert(consumer_id)`
unfoldable pub track_awaiting : ℕ → ℕ → Store (List ℕ) → Store (List ℕ)
track_awaiting producer_id consumer_id awaiting =
    let set = awaiting_of (get producer_id awaiting) in
    insert producer_id (if member consumer_id set then set else consumer_id ∷ set) awaiting

-- What is kept of a set that got smaller: an empty one is removed.
abbrev pub keep_set : ℕ → List ℕ → Store (List ℕ) → Store (List ℕ)
keep_set producer_id set awaiting =
    if null set then remove producer_id awaiting else insert producer_id set awaiting

abbrev pub untrack_in : ℕ → ℕ → Store (List ℕ) → Option (List ℕ) → Store (List ℕ)
untrack_in producer_id consumer_id awaiting none = awaiting
untrack_in producer_id consumer_id awaiting (some set) =
    keep_set producer_id (without consumer_id set) awaiting

unfoldable pub untrack_awaiting : ℕ → ℕ → Store (List ℕ) → Store (List ℕ)
untrack_awaiting producer_id consumer_id awaiting =
    untrack_in producer_id consumer_id awaiting (get producer_id awaiting)

-- `if let Some(pid) = stale_pid { self.untrack_awaiting(pid, id).await }`
abbrev pub untrack_stale : Option ℕ → ℕ → Store (List ℕ) → Store (List ℕ)
untrack_stale none id awaiting = awaiting
untrack_stale (some pid) id awaiting = untrack_awaiting pid id awaiting

abbrev empty_bytes : Bytes → Bool
empty_bytes [] = true
empty_bytes (b ∷ bs) = false

unfoldable pub without_all : List ℕ → List ℕ → List ℕ
without_all [] set = set
without_all (cid ∷ stale) set = without_all stale (without cid set)

module _ {F : Type 0} where
  unfoldable pub new : ConsumerRegistry F
  new = record { next_id = 1; inner = []; awaiting_by_producer = [] }

  abbrev pub assigned_of : Option (ConsumerEntry F) → Option ℕ
  assigned_of none = none
  assigned_of (some e) = e.assigned_producer_id

  abbrev pub fresh_entry : Floats F → Bytes → Bytes → Bytes → ℕ → ConsumerEntry F
  fresh_entry fl tag addr data_addr now = record {
    consumer_tag = tag;
    addr = addr;
    data_addr = data_addr;
    connected_at = now;
    rate_batches = 0;
    rate_bytes = 0;
    unacked = 0;
    last_batch_items = 0;
    last_batch_bytes = 0;
    state = idle;
    max_batch_requested = 0;
    batch_items_ema = fl.zero_f64;
    process_time_ema_ms = fl.zero_f64;
    last_batch_delivered_ms = 0;
    assigned_producer_id = none;
  }

  abbrev pub state_in : Option (ConsumerEntry F) → Option Phase
  state_in none = none
  state_in (some e) = some e.state

  unfoldable pub state_of : ConsumerRegistry F → ℕ → Option Phase
  state_of r id = state_in (get id r.inner)

  -- `tag` is `format!("consumer-{id}")`.
  unfoldable pub register :
      Floats F → (ℕ → Bytes) → Bytes → Bytes → ℕ → ConsumerRegistry F → ℕ × ConsumerRegistry F
  register fl tag addr data_addr now r = (
    r.next_id,
    record r {
      next_id = add_u64 r.next_id 1;
      inner = insert r.next_id (fresh_entry fl (tag r.next_id) addr data_addr now) r.inner;
    },
  )

  unfoldable pub remove_consumer : ℕ → ConsumerRegistry F → ConsumerRegistry F
  remove_consumer id r = record r {
    inner = remove id r.inner;
    awaiting_by_producer = untrack_stale (assigned_of (get id r.inner)) id r.awaiting_by_producer;
  }

  abbrev pub edit :
      (ConsumerEntry F → ConsumerEntry F) → ℕ → ConsumerRegistry F → ConsumerRegistry F
  edit f id r = record r { inner = alter f id r.inner }

  abbrev pub with_tag : Bytes → ConsumerEntry F → ConsumerEntry F
  with_tag tag e = if empty_bytes tag then e else record e { consumer_tag = tag }

  unfoldable pub set_consumer_tag : ℕ → Bytes → ConsumerRegistry F → ConsumerRegistry F
  set_consumer_tag id tag r = if empty_bytes tag then r else edit (with_tag tag) id r

  unfoldable pub set_unacked : ℕ → ℕ → ConsumerRegistry F → ConsumerRegistry F
  set_unacked id unacked r = edit (λ e. record e { unacked = unacked }) id r

  -- The cycle time: from the last delivery to this CRDY.
  abbrev pub sample_cycle : Floats F → ℕ → ConsumerEntry F → ConsumerEntry F
  sample_cycle fl ts_ms e =
      let sample = fl.as_f64 (ts_ms - e.last_batch_delivered_ms) in
      if ltb 0 e.last_batch_delivered_ms && ltb e.last_batch_delivered_ms ts_ms
      then record e {
        process_time_ema_ms =
            if fl.at_most_zero e.process_time_ema_ms
            then sample
            else fl.smooth e.process_time_ema_ms sample;
      }
      else e

  -- `begin_cycle` takes the assignment and untracks it, then enters the queue of the matcher.
  abbrev pub cycle_entry : Floats F → ℕ → Bytes → ℕ → ConsumerEntry F → ConsumerEntry F
  cycle_entry fl max_items tag ts_ms e = with_tag tag (record (sample_cycle fl ts_ms e) {
    assigned_producer_id = none;
    max_batch_requested = max max_items 1;
    unacked = 0;
    state = matcher_queue;
  })

  unfoldable pub begin_cycle :
      Floats F → ℕ → ℕ → Bytes → ℕ → ConsumerRegistry F → ConsumerRegistry F
  begin_cycle fl id max_items tag ts_ms r = record r {
    inner = alter (cycle_entry fl max_items tag ts_ms) id r.inner;
    awaiting_by_producer = untrack_stale (assigned_of (get id r.inner)) id r.awaiting_by_producer;
  }

  unfoldable pub mark_awaiting_batch : ℕ → ℕ → ConsumerRegistry F → ConsumerRegistry F
  mark_awaiting_batch id producer_id r = record r {
    inner =
        alter (λ e. record e { assigned_producer_id = some producer_id; state = awaiting_batch }) id
          r.inner;
    awaiting_by_producer = track_awaiting producer_id id r.awaiting_by_producer;
  }

  abbrev pub release_entry : ConsumerEntry F → ConsumerEntry F
  release_entry e =
      if is_awaiting e.state then record e { assigned_producer_id = none; state = idle } else e

  -- The loop over the stale consumers.
  unfoldable pub release_each : List ℕ → Store (ConsumerEntry F) → Store (ConsumerEntry F)
  release_each [] m = m
  release_each (cid ∷ stale) m = release_each stale (alter release_entry cid m)

  unfoldable pub release_stale_assignments : ℕ → ℕ → ConsumerRegistry F → ConsumerRegistry F
  release_stale_assignments producer_id keep_consumer_id r =
      let set = awaiting_of (get producer_id r.awaiting_by_producer) in
      let stale = without keep_consumer_id set in
      if null stale then r else record r {
        inner = release_each stale r.inner;
        awaiting_by_producer = keep_set producer_id (without_all stale set) r.awaiting_by_producer;
      }

  abbrev pub phase_entry : Phase → ConsumerEntry F → ConsumerEntry F
  phase_entry state e =
      if is_awaiting state
      then record e { state = state }
      else record e { state = state; assigned_producer_id = none }

  unfoldable pub set_phase : ℕ → Phase → ConsumerRegistry F → ConsumerRegistry F
  set_phase id state r = record r {
    inner = alter (phase_entry state) id r.inner;
    awaiting_by_producer =
        if is_awaiting state
        then r.awaiting_by_producer
        else untrack_stale (assigned_of (get id r.inner)) id r.awaiting_by_producer;
  }

  abbrev pub context_of : Option (ConsumerEntry F) → Option (ReadyRequest × Bytes)
  context_of none = none
  context_of (some e) = some (
    record { max_items = max e.max_batch_requested 1; consumer_tag = e.consumer_tag },
    e.data_addr,
  )

  unfoldable pub match_context : ConsumerRegistry F → ℕ → Option (ReadyRequest × Bytes)
  match_context r id = context_of (get id r.inner)

  abbrev pub update_batch_items_ema : Floats F → ℕ → ConsumerEntry F → ConsumerEntry F
  update_batch_items_ema fl msg_count e =
      let sample = fl.as_f64 msg_count in
      if msg_count == 0 then e else record e {
        batch_items_ema =
            if fl.at_most_zero e.batch_items_ema
            then sample
            else fl.smooth e.batch_items_ema sample;
      }

  abbrev pub apply_batch_delivery : Floats F → ℕ → ℕ → ℕ → ConsumerEntry F → ConsumerEntry F
  apply_batch_delivery fl msg_count batch_bytes ts_ms e =
      record (update_batch_items_ema fl msg_count e) {
        rate_batches = add_u64 e.rate_batches 1;
        rate_bytes = add_u64 e.rate_bytes batch_bytes;
        unacked = msg_count;
        last_batch_items = msg_count;
        last_batch_bytes = batch_bytes;
        last_batch_delivered_ms = ts_ms;
        assigned_producer_id = none;
        state = processing;
      }

  abbrev pub finish_entry : Floats F → ℕ → ℕ → ℕ → Bool → ConsumerEntry F → ConsumerEntry F
  finish_entry fl msg_count batch_bytes ts_ms empty e =
      if empty
      then record e { unacked = 0; assigned_producer_id = none; state = idle }
      else apply_batch_delivery fl msg_count batch_bytes ts_ms e

  unfoldable pub finish_batch :
      Floats F → ℕ → ℕ → ℕ → ℕ → Bool → ConsumerRegistry F → ConsumerRegistry F
  finish_batch fl id msg_count batch_bytes ts_ms empty r = record r {
    inner = alter (finish_entry fl msg_count batch_bytes ts_ms empty) id r.inner;
    awaiting_by_producer = untrack_stale (assigned_of (get id r.inner)) id r.awaiting_by_producer;
  }

  -- `iter().find_map(…)`, in the order of iteration.
  unfoldable pub find_assigned : ℕ → Store (ConsumerEntry F) → Option ℕ
  find_assigned producer_id [] = none
  find_assigned producer_id ((id, e) ∷ m) =
      let rest = find_assigned producer_id m in
      elim e.assigned_producer_id [
        | none ↦ rest
        | some p ↦ if p == producer_id then some id else rest
      ]

  unfoldable pub find_id_by_assigned_producer : ConsumerRegistry F → ℕ → Option ℕ
  find_id_by_assigned_producer r producer_id = find_assigned producer_id r.inner
