-- ===== src/Master/Matchmaker/Runs.antt =====
-- Concrete runs of the matchmaker, and its theorems at concrete inputs.
use cupidmq.Common.{◌==◌, All, Bytes, ℕ, ◌≤◌, ◌≡◌, refl, ◌≢◌, Bool, some, [], ◌∷◌, arith}
use cupidmq.Protocol.Control.{encode_assign}
use cupidmq.Master.Producers.{ProducerEntry, ProducerRegistry, fresh_entry}
use cupidmq.Master.Producers.ProducerState.{ready}
use cupidmq.Master.Producers.Ranking.{Ranked}
use cupidmq.Master.Consumers
use cupidmq.Master.Metrics
use cupidmq.Master.Matchmaker.{
  PendingConsumer, MatchmakerInner, Relay, remove_at, take_next_waiting_inner,
}
use cupidmq.Master.Matchmaker.Rounds.{Encodable}
use cupidmq.Master.Matchmaker.Queued.{queued}
use cupidmq.Master.Matchmaker.Race.{claim_twice, claimed_twice}

abbrev waits : ℕ → PendingConsumer
waits id = record {
  consumer_id = id;
  ready = record { max_items = 8; consumer_tag = b'c' ∷ [] };
  data_addr = b'h' ∷ [];
}

-- Three consumers wait; the third is the next in turn.
abbrev inner : MatchmakerInner
inner = record {
  ready = 1 ∷ 2 ∷ [];
  waiting = waits 4 ∷ waits 5 ∷ waits 6 ∷ [];
  consumer_rr = 2;
  producer_rr = 0;
}

third_taken :
    take_next_waiting_inner inner
    ≡ (some (waits 6), record inner { waiting = waits 4 ∷ waits 5 ∷ []; consumer_rr = 0 })
unfolding take_next_waiting_inner remove_at
third_taken = refl

abbrev stocked : ProducerEntry
stocked = record (fresh_entry [] 1) { state = ready; ring_messages = 5; ring_bytes = 50 }

abbrev producers : ProducerRegistry
producers = record {
  next_id = 3;
  ready_count = 2;
  busy_count = 0;
  inner = (1, stocked) ∷ (2, stocked) ∷ [];
}

-- Whole numbers stand for the floating-point ones.
abbrev relay : Relay ℕ
relay = record {
  producers = producers;
  consumers = Consumers.new;
  metrics = Metrics.new;
  matcher = inner;
}

-- The socket of the producer 2 is broken.
abbrev only_first : ℕ → Bytes → Bool
only_first id frame = id == 1

inner_Encodable : All Encodable inner.waiting
unfolding encode_assign
inner_Encodable = ((_, refl), ((_, refl), ((_, refl), tt)))

waits_once : (j : ℕ) → queued j inner.waiting ≤ 1
unfolding queued
waits_once j = ground arith

abbrev ranks_first : Ranked
ranks_first = record { best = some 1; stale = []; producer_rr = 1; registry = producers }

claimed_twice_example :
    (c : PendingConsumer) × (d : PendingConsumer) × ((claim_twice ranks_first ranks_first inner).0
      ≡ some (1, c))
    × ((claim_twice ranks_first ranks_first inner).1 ≡ some (1, d))
    × (c.consumer_id ≢ d.consumer_id)
claimed_twice_example =
    claimed_twice ranks_first ranks_first inner 1 refl refl (omega arith) waits_once
