-- ===== src/Master/Matchmaker/Events.antt =====
-- master/src/producers.rs: the other methods of `Matchmaker`, which change the pool and the queue and
-- try a match.
use cupidmq.Common.{
  ltb, ◌==◌, if◌then◌else◌, length, Bytes, ℕ, zero, suc, Bool, true, false, Option, none, some,
  List, [], ◌∷◌, reverse,
}
use cupidmq.Protocol.Control.{ReadyRequest}
use cupidmq.Master.Producers.{ProducerRegistry, ProducerState, get, set_state, state_of}
use cupidmq.Master.Producers.ProducerState.{idle, ready, busy}
use cupidmq.Master.Producers
use cupidmq.Master.Producers.Reports.{
  mark_prdy, clear_stale_busy, clear_assignments_to_consumer, take_pending_consumer,
}
use cupidmq.Master.Producers.Ranking.{sync_matcher_ready_state}
use cupidmq.Master.Consumers.{
  ConsumerRegistry, Phase, mark_awaiting_batch, release_stale_assignments, set_phase, match_context,
  without_all,
}
use cupidmq.Master.Consumers.Phase.{matcher_queue, awaiting_batch}
use cupidmq.Master.Consumers
use cupidmq.Master.Matchmaker.{
  PendingConsumer, MatchmakerInner, Relay, push_waiting, insert_all, ensure_in, leave_pool, Matched,
}
use cupidmq.Master.Matchmaker.Matching.{try_match}

-- The results of `sync_matcher_ready_state`: the ids to add and those to remove.
abbrev pub sync_pool : List ℕ → List ℕ → MatchmakerInner → MatchmakerInner
sync_pool add out inner = record inner { ready = insert_all add (without_all out inner.ready) }

unfoldable pub enqueue : PendingConsumer → MatchmakerInner → MatchmakerInner
enqueue c inner = record inner { waiting = push_waiting c inner.waiting }

-- `Vec::swap_remove` of the first that has the id: the last item takes its place.
unfoldable pub position : ℕ → List PendingConsumer → Option ℕ
position id [] = none
position id (p ∷ wait) =
    let rest = position id wait in
    if p.consumer_id == id then some 0 else elim rest [ none ↦ none | some i ↦ some (suc i) ]

abbrev pub replace_at : ℕ → PendingConsumer → List PendingConsumer → List PendingConsumer
replace_at i c [] = []
replace_at zero c (p ∷ wait) = c ∷ wait
replace_at (suc i) c (p ∷ wait) = p ∷ replace_at i c wait

-- On the list read from its back.
abbrev pub swap_last : ℕ → List PendingConsumer → List PendingConsumer
swap_last i [] = []
swap_last i (last ∷ back) =
    if i == length back then reverse back else replace_at i last (reverse back)

unfoldable pub swap_remove : ℕ → List PendingConsumer → List PendingConsumer
swap_remove i wait = swap_last i (reverse wait)

abbrev pub cancel_at : Option ℕ → MatchmakerInner → MatchmakerInner
cancel_at none inner = inner
cancel_at (some i) inner = record inner { waiting = swap_remove i inner.waiting }

-- The registry after a PRDY, by the state that the producer had.
abbrev pub announce : Option ProducerState → ℕ → ProducerRegistry → ProducerRegistry
announce (some ready) id r = mark_prdy id r
announce (some busy) id r = set_state id ready (mark_prdy id (clear_stale_busy id r).1)
announce (some idle) id r = set_state id ready (mark_prdy id r)
announce none id r = set_state id ready (mark_prdy id r)

-- Whether the consumer of a producer that went away is to be matched again.
abbrev pub should_requeue : Option Phase → Bool
should_requeue (some awaiting_batch) = true
should_requeue (some matcher_queue) = true
should_requeue _ = false

module _ {F : Type 0} where
  abbrev pub with_matcher : MatchmakerInner → Relay F → Relay F
  with_matcher inner s = record s { matcher = inner }

  abbrev pub with_producers : ProducerRegistry → Relay F → Relay F
  with_producers producers s = record s { producers = producers }

  unfoldable pub sync_ready_pool : Relay F → Relay F
  sync_ready_pool s =
      let (add, out, producers) = sync_matcher_ready_state s.matcher.ready s.producers in
      record s { producers = producers; matcher = sync_pool add out s.matcher }

  unfoldable pub on_producer_ready : (ℕ → Bytes → Bool) → ℕ → ℕ → Relay F → Matched × Relay F
  on_producer_ready send now id s = try_match send now (record s {
    producers = announce (state_of s.producers id) id s.producers;
    matcher = ensure_in id s.matcher;
  })

  unfoldable pub enqueue_consumer : ℕ → ReadyRequest → Bytes → Relay F → Relay F
  enqueue_consumer id request data_addr s =
      with_matcher
        (enqueue (record { consumer_id = id; ready = request; data_addr = data_addr }) s.matcher) s

  unfoldable pub on_producer_done : (ℕ → Bytes → Bool) → ℕ → ℕ → Relay F → Relay F
  on_producer_done send now id s =
      (try_match send now (record s {
        producers = set_state id idle s.producers;
        matcher = leave_pool id s.matcher;
      })).1

  unfoldable pub wake_producer : (ℕ → Bytes → Bool) → ℕ → ℕ → Relay F → Relay F
  wake_producer send now id s = (try_match send now (with_matcher (ensure_in id s.matcher) s)).1

  abbrev pub requeue_with : ℕ → Option (ReadyRequest × Bytes) → Relay F → Relay F
  requeue_with id none s = s
  requeue_with id (some (request, data_addr)) s =
      enqueue_consumer id request data_addr
        (record s { consumers = set_phase id matcher_queue s.consumers })

  abbrev pub requeue_consumer : Option ℕ → Relay F → Relay F
  requeue_consumer none s = s
  requeue_consumer (some id) s =
      if should_requeue (Consumers.state_of s.consumers id)
      then requeue_with id (match_context s.consumers id) s
      else s

  unfoldable pub on_producer_disconnect : (ℕ → Bytes → Bool) → ℕ → ℕ → Relay F → Relay F
  on_producer_disconnect send now id s =
      let left = with_matcher (leave_pool id s.matcher) s in
      let (consumer_id, producers) = take_pending_consumer id left.producers in
      let requeued = requeue_consumer consumer_id (with_producers producers left) in
      (try_match send now (with_producers (Producers.remove id requeued.producers) requeued)).1

  unfoldable pub cancel_consumer : (ℕ → Bytes → Bool) → ℕ → ℕ → Relay F → Relay F
  cancel_consumer send now id s =
      let inner = cancel_at (position id s.matcher.waiting) s.matcher in
      let (cleared, producers) = clear_assignments_to_consumer id s.producers in
      let s' : Relay F = record s { producers = producers; matcher = inner } in
      if ltb 0 cleared then (try_match send now s').1 else s'
