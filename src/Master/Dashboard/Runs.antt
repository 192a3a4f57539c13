-- ===== src/Master/Dashboard/Runs.antt =====
-- The rows of the dashboard at concrete registries. Natural numbers stand for the floating-point ones.
use cupidmq.Common.{
  ltb, leb, ◌==◌, if◌then◌else◌, ℕ, ◌+◌, ◌-◌, ◌*◌, ◌/◌, ◌^◌, ◌≤◌, min, max, ◌≡◌, refl, false, none,
  some, List, [], ◌∷◌, map, arith,
}
use cupidmq.Master.Producers.{
  ProducerRegistry, fresh_entry, new, register, take_entry, set_state, update, transition_entry,
}
use cupidmq.Master.Producers.Entries.{IsRegistry}
use cupidmq.Master.Producers.Reachable.{
  Operation, registers, apply, apply-IsRegistry, new-IsRegistry,
}
use cupidmq.Master.Producers.Reports.{mark_assigned}
use cupidmq.Master.Metrics
use cupidmq.Master.Dashboard.Snapshot.{Observed, Others, alone, Clock, snapshot}
use cupidmq.Master.Dashboard.Counts.{snapshot_counts}
use cupidmq.Master.Store.{get}
use cupidmq.Master.Consumers.Phase.{matcher_queue}
use cupidmq.Master.Producers.ProducerState.{busy, ready}
use cupidmq.Master.Dashboard.Rows.{sort_by_id, row_at, IsSorted}
use cupidmq.Master.Dashboard.Capacity.{
  Arith, observed_throughput, demand_per_sec, per_consumer_capacity_model, global_capacity_model,
}
use cupidmq.Master.Dashboard.ConsumerRows.{RatedConsumer, ConsumerRow, Shows}
use cupidmq.Master.Dashboard.ConsumerRows
use cupidmq.Master.Dashboard.ProducerRows.{RatedProducer}
use cupidmq.Master.Dashboard.ProducerRows

-- Thousandths.
abbrev naturals : Arith ℕ
naturals = record {
  literal = λ n d. n * 1000 / d;
  as_f64 = λ n. n * 1000;
  at_most = leb;
  above = λ a b. ltb b a;
  greatest = 2 ^ 64;
  plus = λ a b. a + b;
  minus = λ a b. a - b;
  times = λ a b. a * b / 1000;
  divide = λ a b. a * 1000 / b;
  max_f64 = max;
  clamp = λ a low high. min (max a low) high;
}

-- `keeps_up_when_mu_exceeds_lambda`, `idle_demand_is_full`
capacities :
    (per_consumer_capacity_model naturals 32000 256000 50000 1 ≡ 250000)
    × (per_consumer_capacity_model naturals 32000 256000 0 1 ≡ 100000)
    × (global_capacity_model naturals [] 50000 ≡ 0)
    × (demand_per_sec naturals 100000 20000 ≡ 120000)
unfolding per_consumer_capacity_model observed_throughput global_capacity_model demand_per_sec
capacities = (refl, refl, refl, refl)

abbrev consumer : RatedConsumer ℕ
consumer = record {
  entry = record {
    consumer_tag = [];
    addr = [];
    data_addr = b'h' ∷ [];
    connected_at = 1;
    rate_batches = 5;
    rate_bytes = 700;
    unacked = 0;
    last_batch_items = 3;
    last_batch_bytes = 100;
    state = matcher_queue;
    max_batch_requested = 32;
    batch_items_ema = 0;
    process_time_ema_ms = 0;
    last_batch_delivered_ms = 0;
    assigned_producer_id = none;
  };
  rate_sample = record { ts_ms = 1000; batches = 1; bytes = 100 };
  batches_per_sec = 0;
  bytes_per_sec = 0;
}

abbrev consumers : List (ℕ × RatedConsumer ℕ)
consumers = (2, consumer) ∷ (1, consumer) ∷ []

-- Four batches in two seconds.
rates_since :
    map (λ r. r.batches_per_sec) (ConsumerRows.list_with_capacity naturals 9 3000 0 consumers).0.1
    ≡ 2000 ∷ 2000 ∷ []
unfolding ConsumerRows.list_with_capacity ConsumerRows.refresh_all ConsumerRows.refresh_rates
    ConsumerRows.row_of sort_by_id
rates_since = refl

list_with_capacity_example :
    let out = ConsumerRows.list_with_capacity naturals 9 3000 0 consumers in
    IsSorted (λ r. r.id) 0 out.0.1
    × ((r : ConsumerRow ℕ) × (row_at (λ r. r.id) 2 out.0.1 ≡ some r)
        × Shows naturals 9 3000 0 2 consumer r)
    × ((d : RatedConsumer ℕ) × (get 2 out.1 ≡ some d)
        × (d.entry ≡ consumer.entry)
        × (d.rate_sample ≡ record { ts_ms = 3000; batches = 5; bytes = 700 }))
unfolding get
list_with_capacity_example =
    ConsumerRows.list_with_capacity_lem naturals 9 3000 0 2 consumer consumers refl

abbrev producer : RatedProducer ℕ
producer = record {
  entry = record {
    addr = [];
    connected_at = 1;
    state = busy;
    pending_messages = 0;
    pending_bytes = 0;
    ring_messages = 4;
    ring_bytes = 40;
    hb_drops = 0;
    rate_batches = 2;
    rate_msgs = 9;
    rate_errors = 0;
    rate_drops = 0;
    pending_consumer_id = some 2;
    busy_since_ms = 1;
    prdy_pending = false;
  };
  rate_sample = record { ts_ms = 0; batches = 0; msgs = 0; errors = 0; drops = 0 };
  batches_per_sec = 0;
  msgs_per_sec = 0;
  errors_per_sec = 0;
  drops_per_sec = 0;
}

abbrev producers : List (ℕ × RatedProducer ℕ)
producers = (7, producer) ∷ (3, producer) ∷ []

in_order : map (λ r. r.id) (ProducerRows.list naturals 9 3000 producers).0 ≡ 3 ∷ 7 ∷ []
unfolding ProducerRows.list ProducerRows.refresh_all ProducerRows.refresh_producer_rates
    ProducerRows.row_of sort_by_id
in_order = refl

abbrev joining : Operation
joining = registers (b'a' ∷ []) 1

abbrev one_producer : ProducerRegistry
one_producer = apply joining new

one_producer-IsRegistry : IsRegistry one_producer
unfolding new
one_producer-IsRegistry = apply-IsRegistry joining new (omega arith) new-IsRegistry

abbrev observed : Observed ℕ
observed = record {
  metrics = Metrics.new;
  producers = one_producer;
  rated_producers = (1, record producer { entry = fresh_entry (b'a' ∷ []) 1 }) ∷ [];
  rated_consumers = consumers;
  backlog = record { last_backlog_messages = 0; last_backlog_ts_ms = 0 };
}

abbrev noon : Clock
noon = record { now_ms = 3000; now = 3; uptime_secs = 1 }

-- While the snapshot is made, the producer is assigned: between the loads of the two counters.
abbrev assigning : Others ℕ
assigning = record {
  between = λ n s. if n == 4 then record s { producers = mark_assigned 1 2 3 s.producers } else s;
  swaps = λ n b. b;
}

-- The one producer, which was ready, then counts as ready and as busy.
counted_twice :
    let snap =
      (snapshot naturals assigning
        (1, 2, 3)
        noon
        (record observed { producers = set_state 1 ready one_producer })).0 in
    (snap.producers_ready ≡ 1) × (snap.producers_busy ≡ 1) × (snap.producers_connected ≡ 1)
unfolding snapshot mark_assigned set_state register new take_entry update transition_entry
    ProducerRows.list ProducerRows.refresh_all sort_by_id
counted_twice = (refl, refl, refl)

snapshot_counts_example :
    let snap = (snapshot naturals assigning (1, 2, 3) noon observed).0 in
    let undisturbed = (snapshot naturals alone (1, 2, 3) noon observed).0 in
    (snap.consumers_waiting + snap.consumer_inflight ≤ snap.consumers_connected)
    × (snap.consumers_await_batch ≤ snap.consumer_inflight)
    × (undisturbed.producers_ready + undisturbed.producers_busy ≤ undisturbed.producers_connected)
unfolding register new take_entry
snapshot_counts_example =
    snapshot_counts naturals assigning (1, 2, 3) noon observed one_producer-IsRegistry refl
