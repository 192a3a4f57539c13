-- ===== src/Master/Matchmaker/Methods.antt =====
-- The other methods of the matchmaker keep what `try_match` keeps, and those that end with it leave no
-- consumer waiting beside a producer of the pool.
use cupidmq.Common.{
  ltb, Bool-cases, Bytes, ℕ, ◌≡◌, refl, inl, inr, Bool, Option, none, some, List, [],
}
use cupidmq.Protocol.Control.{ReadyRequest}
use cupidmq.Master.Producers.{ProducerRegistry, ProducerState, state_of}
use cupidmq.Master.Producers.ProducerState.{idle, ready, busy}
use cupidmq.Master.Producers.Reports.{take_pending_consumer, clear_assignments_to_consumer}
use cupidmq.Master.Producers.Reachable.{
  removes, sets, marks_prdy, clears_busy, clears_consumer, takes_consumer, syncs,
}
use cupidmq.Master.Consumers.{Floats, ConsumerRegistry, Phase, match_context}
use cupidmq.Master.Consumers.Phase.{matcher_queue}
use cupidmq.Master.Consumers
use cupidmq.Master.Consumers.Reachable.{phases}
use cupidmq.Master.Matchmaker.{PendingConsumer, MatchmakerInner, Relay}
use cupidmq.Master.Matchmaker.Events.{
  enqueue, position, swap_remove, cancel_at, announce, sync_ready_pool, on_producer_ready,
  enqueue_consumer, on_producer_done, wake_producer, should_requeue, requeue_with, requeue_consumer,
  on_producer_disconnect, cancel_consumer,
}
use cupidmq.Master.Matchmaker.Rounds.{Encodable, Settled}
use cupidmq.Master.Matchmaker.Queue.{push_waiting-IsQueue, cancel_at-IsQueue}
use cupidmq.Master.Matchmaker.Keeps.{Kept, Holds, Calm, try_match-Calm}

module _ {F : Type 0} (fl : Floats F) (tag : ℕ → Bytes) (IsProducers : ProducerRegistry → Type 0)
    (IsConsumers : ConsumerRegistry F → Type 0) where
  abbrev Held : Relay F → Type 0
  Held = Holds fl tag IsProducers IsConsumers

  abbrev Calmed : Relay F → Type 0
  Calmed = Calm fl tag IsProducers IsConsumers

  module _ (kept : Kept fl tag IsProducers IsConsumers) (send : ℕ → Bytes → Bool) (now : ℕ) where
    pub sync_ready_pool-Holds : (s : Relay F) → Held s → Held (sync_ready_pool s)
    unfolding sync_ready_pool
    sync_ready_pool-Holds s v = record {
      producers = kept.producers (syncs s.matcher.ready) s.producers tt v.producers;
      consumers = v.consumers;
      queue = v.queue;
    }

    announce_keeps :
        (o : Option ProducerState) (id : ℕ) (r : ProducerRegistry)
        → IsProducers r
        → IsProducers (announce o id r)
    announce_keeps none id r v =
        kept.producers (sets id ready) _ tt (kept.producers (marks_prdy id) r tt v)
    announce_keeps (some ready) id r v = kept.producers (marks_prdy id) r tt v
    announce_keeps (some idle) id r v =
        kept.producers (sets id ready) _ tt (kept.producers (marks_prdy id) r tt v)
    announce_keeps (some busy) id r v =
        kept.producers (sets id ready) _ tt
          (kept.producers (marks_prdy id) _ tt (kept.producers (clears_busy id) r tt v))

    pub on_producer_ready-Calm :
        (id : ℕ) (s : Relay F) → Held s → Calmed (on_producer_ready send now id s).1
    unfolding on_producer_ready
    on_producer_ready-Calm id s v =
        try_match-Calm fl tag IsProducers IsConsumers kept send now _ (record {
          producers = announce_keeps (state_of s.producers id) id s.producers v.producers;
          consumers = v.consumers;
          queue = v.queue;
        })

    pub enqueue_consumer-Holds :
        (id : ℕ) (request : ReadyRequest) (data_addr : Bytes) (s : Relay F)
        → Encodable (record { consumer_id = id; ready = request; data_addr = data_addr })
        → Held s
        → Held (enqueue_consumer id request data_addr s)
    unfolding enqueue_consumer enqueue
    enqueue_consumer-Holds id request data_addr s made v = record {
      producers = v.producers;
      consumers = v.consumers;
      queue = push_waiting-IsQueue _ s.matcher.waiting made v.queue;
    }

    pub on_producer_done-Calm :
        (id : ℕ) (s : Relay F) → Held s → Calmed (on_producer_done send now id s)
    unfolding on_producer_done
    on_producer_done-Calm id s v =
        try_match-Calm fl tag IsProducers IsConsumers kept send now _ (record {
          producers = kept.producers (sets id idle) s.producers tt v.producers;
          consumers = v.consumers;
          queue = v.queue;
        })

    pub wake_producer-Calm : (id : ℕ) (s : Relay F) → Held s → Calmed (wake_producer send now id s)
    unfolding wake_producer
    wake_producer-Calm id s v =
        try_match-Calm fl tag IsProducers IsConsumers kept send now _
          (record { producers = v.producers; consumers = v.consumers; queue = v.queue })

    requeue_with_keeps :
        (id : ℕ) (o : Option (ReadyRequest × Bytes)) (s : Relay F)
        → match_context s.consumers id ≡ o
        → Held s
        → Held (requeue_with id o s)
    requeue_with_keeps id none s e v = v
    requeue_with_keeps id (some (request, data_addr)) s e v =
        enqueue_consumer-Holds id request data_addr _
          (kept.context s.consumers id request data_addr v.consumers e)
          (record {
            producers = v.producers;
            consumers = kept.consumers (phases id matcher_queue) s.consumers tt v.consumers;
            queue = v.queue;
          })

    requeue_consumer-Holds : (o : Option ℕ) (s : Relay F) → Held s → Held (requeue_consumer o s)
    requeue_consumer-Holds none s v = v
    requeue_consumer-Holds (some id) s v =
        elim (Bool-cases (should_requeue (Consumers.state_of s.consumers id))) [
          | inl again ↦ rw again (requeue_with_keeps id (match_context s.consumers id) s refl v)
          | inr over ↦ rw over v
        ]

    pub on_producer_disconnect-Calm :
        (id : ℕ) (s : Relay F) → Held s → Calmed (on_producer_disconnect send now id s)
    unfolding on_producer_disconnect
    on_producer_disconnect-Calm id s v =
        let left = requeue_consumer-Holds (take_pending_consumer id s.producers).0 _ (record {
          producers = kept.producers (takes_consumer id) s.producers tt v.producers;
          consumers = v.consumers;
          queue = v.queue;
        }) in
        try_match-Calm fl tag IsProducers IsConsumers kept send now _ (record {
          producers = kept.producers (removes id) _ tt left.producers;
          consumers = left.consumers;
          queue = left.queue;
        })

    -- A queue or a pool that is empty is still empty.
    cancel_at-Settled :
        (id : ℕ) (inner : MatchmakerInner)
        → Settled inner
        → Settled (cancel_at (position id inner.waiting) inner)
    unfolding swap_remove
    cancel_at-Settled id inner h = go (position id inner.waiting) h
      where
        none_left : (i : ℕ) (wait : List PendingConsumer) → wait ≡ [] → swap_remove i wait ≡ []
        none_left i wait e = rw e refl

        go : (o : Option ℕ) → Settled inner → Settled (cancel_at o inner)
        go none k = k
        go (some i) (inl e) = inl (none_left i inner.waiting e)
        go (some i) (inr e) = inr e

    pub cancel_consumer-Calm :
        (id : ℕ) (s : Relay F) → Calmed s → Calmed (cancel_consumer send now id s)
    unfolding cancel_consumer
    cancel_consumer-Calm id s v =
        elim (Bool-cases (ltb 0 (clear_assignments_to_consumer id s.producers).0)) [
          | inl some_cleared ↦
              rw some_cleared (try_match-Calm fl tag IsProducers IsConsumers kept send now _ left)
          | inr none_cleared ↦
              rw none_cleared
                (record { holds = left; settled = cancel_at-Settled id s.matcher v.settled })
        ]
      where
        left : Held (record s {
          producers = (clear_assignments_to_consumer id s.producers).1;
          matcher = cancel_at (position id s.matcher.waiting) s.matcher;
        })
        left = record {
          producers = kept.producers (clears_consumer id) s.producers tt v.holds.producers;
          consumers = v.holds.consumers;
          queue = cancel_at-IsQueue id s.matcher v.holds.queue;
        }
