-- ===== src/Master/Producers/Runs.antt =====
-- Concrete runs of the registry, and its theorems at concrete inputs.
use cupidmq.Common.{ℕ, some, Bytes, ◌≡◌, refl, [], ◌∷◌, map, arith}
use cupidmq.Protocol.Control.{ProducerHeartbeat}
use cupidmq.Master.Producers.{
  ProducerEntry, ProducerRegistry, new, transition_entry, release_busy_entry, update, fresh_entry,
  take_entry, register, entry_backlog_weight,
}
use cupidmq.Master.Producers.Reports.{mark_assigned, record_heartbeat}
use cupidmq.Master.Producers.Counters.{ready_in, busy_in}
use cupidmq.Master.Producers.Entries.{IsRegistry}
use cupidmq.Master.Producers.Ranking.{rank_ready_candidates, scan}
use cupidmq.Master.Producers.{
  get, update, transition_entry, entry_has_backlog, entry_backlog_weight,
}
use cupidmq.Master.Producers.Reachable.{
  registers, assigns, beats, apply, Reachable, started, stepped, Reachable-counts,
}

abbrev home : Bytes
home = b'h' ∷ []

abbrev beat : ProducerHeartbeat
beat = record {
  pending_messages = 2;
  pending_bytes = 100;
  ring_messages = 3;
  ring_bytes = 500;
  drops_total = 0;
}

abbrev one_producer : ProducerRegistry
one_producer = record {
  next_id = 2;
  ready_count = 0;
  busy_count = 0;
  inner = (1, fresh_entry home 7) ∷ [];
}

registers_one : register new home 7 ≡ (1, one_producer)
unfolding register new take_entry
registers_one = refl

-- The test `backlog_weight_prefers_msgs_then_bytes`.
weight_of_heartbeat :
    map (λ ke. entry_backlog_weight ke.1) (record_heartbeat 1 beat 9 one_producer).1.inner
    ≡ (5, 600) ∷ []
unfolding record_heartbeat update transition_entry release_busy_entry entry_backlog_weight
weight_of_heartbeat = refl

-- A producer registers, reports a backlog, which makes it ready, and is given to consumer 4.
abbrev waiting : ProducerRegistry
waiting = apply (beats 1 beat 9) (apply (registers home 7) new)

abbrev served : ProducerRegistry
served = apply (assigns 1 4 10) waiting

served_counts : (served.ready_count ≡ 0) × (served.busy_count ≡ 1)
unfolding new register take_entry record_heartbeat mark_assigned update transition_entry
    release_busy_entry
served_counts = (refl, refl)

served-Reachable : Reachable served
unfolding new register take_entry record_heartbeat mark_assigned
served-Reachable =
    stepped
      (stepped (stepped started (registers home 7) (omega arith)) (beats 1 beat 9) (omega arith))
      (assigns 1 4 10) (omega arith)

Reachable-counts_example :
    (served.ready_count ≡ ready_in served.inner) × (served.busy_count ≡ busy_in served.inner)
Reachable-counts_example = Reachable-counts served-Reachable

one_producer-IsRegistry : IsRegistry one_producer
one_producer-IsRegistry = omega arith

-- Producer 2 has more bytes than producer 1, with as many messages.
abbrev holding : ℕ → ProducerEntry
holding bytes = record (fresh_entry home 7) { ring_messages = 3; ring_bytes = bytes }

abbrev three_producers : ProducerRegistry
three_producers = record {
  next_id = 4;
  ready_count = 0;
  busy_count = 0;
  inner = (3, fresh_entry home 7) ∷ (1, holding 500) ∷ (2, holding 600) ∷ [];
}

picks_second : (rank_ready_candidates (3 ∷ 1 ∷ 2 ∷ []) 0 three_producers).best ≡ some 2
unfolding rank_ready_candidates scan get update transition_entry entry_has_backlog
    entry_backlog_weight
picks_second = refl
