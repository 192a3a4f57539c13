-- ===== src/Master/Dashboard/Snapshot.antt =====
-- master/src/metrics.rs: `snapshot`, and what server.rs does with it: the sampler, the cache, and the
-- answers to `/metrics` and `/metrics/history`. The clocks are arguments.
use cupidmq.Common.{
  ltb, leb, ◌==◌, if◌then◌else◌, length, add_u64, ℕ, suc, ◌-◌, Bool, true, false, ◌&&◌, ◌||◌, List,
  [], ◌∷◌,
}
use cupidmq.Master.Store.{Store}
use cupidmq.Master.Producers.{ProducerRegistry}
use cupidmq.Master.Producers.Reports.{ProducerBacklogTotals, backlog_totals}
use cupidmq.Master.Consumers.{Phase}
use cupidmq.Master.Consumers.Phase.{matcher_queue, awaiting_batch, processing, delivery_failed}
use cupidmq.Master.Metrics.{Metrics}
use cupidmq.Master.Ticks
use cupidmq.Master.History.{Sample}
use cupidmq.Master.Dashboard.Capacity.{Arith, zero_f64, demand_per_sec}
use cupidmq.Master.Dashboard.ConsumerRows.{RatedConsumer, ConsumerRow, list_with_capacity}
use cupidmq.Master.Dashboard.ProducerRows.{RatedProducer, ProducerRow, list}

pub record MetricsSnapshot (F : Type 0) : Type 0 where
  pub ts_ms : ℕ
  pub uptime_secs : ℕ
  pub transfers_total : ℕ
  pub transfer_bytes_total : ℕ
  pub batches_total : ℕ
  pub delivery_failures_total : ℕ
  pub requeue_total : ℕ
  pub producer_drops_total : ℕ
  pub producer_backlog_messages : ℕ
  pub producer_backlog_bytes : ℕ
  pub producer_pending_messages : ℕ
  pub producer_ring_messages : ℕ
  pub consumer_inflight : ℕ
  pub transfer_per_sec : F
  pub batches_per_sec : F
  pub bytes_per_sec : F
  pub producers_connected : ℕ
  pub consumers_connected : ℕ
  pub consumers_waiting : ℕ
  pub consumers_await_batch : ℕ
  pub producers_ready : ℕ
  pub producers_busy : ℕ
  pub consumers_queued : ℕ
  pub consumer_capacity_pct : F
  pub producers : List (ProducerRow F)
  pub consumers : List (ConsumerRow F)
  pub ticks_buffered : ℕ

-- The two counters of `MetricsInner` that only a snapshot uses.
pub record LastBacklog : Type 0 where
  pub last_backlog_messages : ℕ
  pub last_backlog_ts_ms : ℕ

-- What a snapshot reads and what it leaves: the registries with the rates, and the last backlog.
pub record Observed (F : Type 0) : Type 0 where
  pub metrics : Metrics
  pub producers : ProducerRegistry
  pub rated_producers : List (ℕ × RatedProducer F)
  pub rated_consumers : Store (RatedConsumer F)
  pub backlog : LastBacklog

-- What other tasks do while a snapshot is made: between two of its reads, and between the four accesses
-- of `compute_backlog_growth_per_sec` to the last backlog.
pub record Others (F : Type 0) : Type 0 where
  pub between : ℕ → Observed F → Observed F
  pub swaps : ℕ → LastBacklog → LastBacklog

-- No other task runs.
abbrev pub alone : {F : Type 0} → Others F
alone = record { between = λ n s. s; swaps = λ n b. b }

-- The times of a snapshot: of the day in milliseconds and in seconds, and since the start.
pub record Clock : Type 0 where
  pub now_ms : ℕ
  pub now : ℕ
  pub uptime_secs : ℕ

unfoldable pub backlog_messages : ProducerBacklogTotals → ℕ
backlog_messages t = add_u64 t.pending_messages t.ring_messages

unfoldable pub backlog_bytes : ProducerBacklogTotals → ℕ
backlog_bytes t = add_u64 t.pending_bytes t.ring_bytes

abbrev pub is_waiting : Phase → Bool
is_waiting matcher_queue = true
is_waiting _ = false

abbrev pub is_await_batch : Phase → Bool
is_await_batch awaiting_batch = true
is_await_batch _ = false

abbrev pub is_inflight : Phase → Bool
is_inflight awaiting_batch = true
is_inflight processing = true
is_inflight delivery_failed = true
is_inflight _ = false

module _ {F : Type 0} where
  -- `filter(…).count()` over the states of the rows.
  unfoldable pub count_in : (Phase → Bool) → List (ConsumerRow F) → ℕ
  count_in p [] = 0
  count_in p (r ∷ rows) = let rest = count_in p rows in if p r.state then suc rest else rest

  module _ (ar : Arith F) where
    unfoldable pub compute_backlog_growth_per_sec :
        (ℕ → LastBacklog → LastBacklog) → ℕ → ℕ → LastBacklog → F × LastBacklog
    compute_backlog_growth_per_sec swaps backlog now_ms b =
        let last_ts = b.last_backlog_ts_ms in
        let b = swaps 0 b in
        let last_backlog = b.last_backlog_messages in
        let b = swaps 2 (record (swaps 1 b) { last_backlog_messages = backlog }) in
        let dt = ar.divide (ar.as_f64 (now_ms - last_ts)) (ar.literal 1000 1) in
        (
          (if last_ts == 0 || leb now_ms last_ts
              then zero_f64 ar
              else if ar.at_most dt (zero_f64 ar)
              then zero_f64 ar
              else ar.divide (ar.minus (ar.as_f64 backlog) (ar.as_f64 last_backlog)) dt),
          record b { last_backlog_ts_ms = now_ms },
        )

    -- The demand, which a backlog without a transfer makes as great as can be.
    abbrev pub ingress_per_sec : F → F → ℕ → F
    ingress_per_sec transfer_per_sec growth backlog =
        let demand = demand_per_sec ar transfer_per_sec growth in
        if ar.at_most demand (ar.literal 1 100) && ltb 0 backlog
        then if ar.above transfer_per_sec (ar.literal 1 100) then transfer_per_sec else ar.greatest
        else demand

    -- Every lock is given up before the next is taken, and each counter is loaded for itself.
    unfoldable pub snapshot :
        Others F → F × F × F → Clock → Observed F → MetricsSnapshot F × Observed F
    snapshot others (transfer_per_sec, batches_per_sec, bytes_per_sec) clock s =
        let backlog = backlog_totals s.producers in
        let s = others.between 0 s in
        let (growth, last_backlog) =
          compute_backlog_growth_per_sec others.swaps (backlog_messages backlog) clock.now_ms
            s.backlog in
        let s = others.between 1 (record s { backlog = last_backlog }) in
        let ((capacity, consumers), rated_consumers) =
          list_with_capacity ar clock.now clock.now_ms
            (ingress_per_sec transfer_per_sec growth (backlog_messages backlog))
            s.rated_consumers in
        let s = others.between 2 (record s { rated_consumers = rated_consumers }) in
        let (producers, rated_producers) = list ar clock.now clock.now_ms s.rated_producers in
        let ready_loaded = others.between 3 (record s { rated_producers = rated_producers }) in
        let busy_loaded = others.between 4 ready_loaded in
        let transfers_loaded = others.between 5 busy_loaded in
        let transfer_bytes_loaded = others.between 6 transfers_loaded in
        let batches_loaded = others.between 7 transfer_bytes_loaded in
        let failures_loaded = others.between 8 batches_loaded in
        let requeue_loaded = others.between 9 failures_loaded in
        let ticks_loaded = others.between 10 requeue_loaded in
        (
          record {
            ts_ms = clock.now_ms;
            uptime_secs = clock.uptime_secs;
            transfers_total = transfers_loaded.metrics.transfers_total;
            transfer_bytes_total = transfer_bytes_loaded.metrics.transfer_bytes_total;
            batches_total = batches_loaded.metrics.batches_total;
            delivery_failures_total = failures_loaded.metrics.delivery_failures_total;
            requeue_total = requeue_loaded.metrics.requeue_total;
            producer_drops_total = backlog.drops_total;
            producer_backlog_messages = backlog_messages backlog;
            producer_backlog_bytes = backlog_bytes backlog;
            producer_pending_messages = backlog.pending_messages;
            producer_ring_messages = backlog.ring_messages;
            consumer_inflight = count_in is_inflight consumers;
            transfer_per_sec = transfer_per_sec;
            batches_per_sec = batches_per_sec;
            bytes_per_sec = bytes_per_sec;
            producers_connected = length producers;
            consumers_connected = length consumers;
            consumers_waiting = count_in is_waiting consumers;
            consumers_await_batch = count_in is_await_batch consumers;
            producers_ready = ready_loaded.producers.ready_count;
            producers_busy = busy_loaded.producers.busy_count;
            consumers_queued = count_in is_waiting consumers;
            consumer_capacity_pct = capacity;
            producers = producers;
            consumers = consumers;
            ticks_buffered = Ticks.len ticks_loaded.metrics.ticks;
          },
          ticks_loaded,
        )

    abbrev pub with_queue : ℕ → MetricsSnapshot F → MetricsSnapshot F
    with_queue match_queue snap = record snap {
      consumers_queued = match_queue;
      consumers_waiting = match_queue;
    }

    abbrev pub sample_of : ℕ → ℕ → MetricsSnapshot F → Sample
    sample_of ts match_queue snap = record {
      ts = ts;
      producer_backlog = snap.producer_backlog_messages;
      producer_pending = snap.producer_pending_messages;
      producer_ring = snap.producer_ring_messages;
      consumer_inflight = snap.consumer_inflight;
      transfers_total = snap.transfers_total;
      transfer_bytes_total = snap.transfer_bytes_total;
      batches_total = snap.batches_total;
      delivery_failures_total = snap.delivery_failures_total;
      drops_total = snap.producer_drops_total;
      producers_ready = snap.producers_ready;
      producers_busy = snap.producers_busy;
      consumers_waiting = match_queue;
    }
