-- ===== src/Master/Matchmaker/Matching.antt =====
-- master/src/producers.rs: `Matchmaker::try_match`, round by round.
use cupidmq.Common.{
  if◌then◌else◌, length, Bytes, ℕ, zero, suc, Bool, ◌||◌, Option, none, some, [], ◌∷◌, ◌++◌,
}
use cupidmq.Protocol.Wire.{Result, ok, err}
use cupidmq.Protocol.Control.{encode_assign}
use cupidmq.Master.Producers.{set_state}
use cupidmq.Master.Producers.ProducerState.{idle, busy}
use cupidmq.Master.Producers.Reports.{mark_assigned}
use cupidmq.Master.Producers.Ranking.{rank_ready_candidates}
use cupidmq.Master.Consumers.{mark_awaiting_batch, release_stale_assignments}
use cupidmq.Master.Consumers.Phase.{awaiting_batch}
use cupidmq.Master.Metrics.{record_assign_tick}
use cupidmq.Master.Matchmaker.{
  PendingConsumer, Relay, leave_pool, Matched, done, failed, out_of_fuel, nobody, empty, claim,
  assign_of, send_assign,
}

module _ {F : Type 0} where
  -- The ranking and the block after it.
  unfoldable pub choose_pair : Relay F → Option (ℕ × PendingConsumer) × Relay F
  choose_pair s =
      let ranked = rank_ready_candidates s.matcher.ready s.matcher.producer_rr s.producers in
      let (pair, inner) = claim ranked s.matcher in
      (pair, record s { producers = ranked.registry; matcher = inner })

  -- `assign send failed`: the consumer goes to the end of the queue, as it is.
  abbrev pub give_back : ℕ → PendingConsumer → Relay F → Relay F
  give_back producer_id c s =
      let inner = leave_pool producer_id s.matcher in
      record s {
        producers = set_state producer_id idle s.producers;
        matcher = record inner { waiting = inner.waiting ++ (c ∷ []) };
      }

  abbrev pub mark_pair : ℕ → PendingConsumer → ℕ → Relay F → Relay F
  mark_pair producer_id c now s = record s {
    producers = mark_assigned producer_id c.consumer_id now s.producers;
    consumers =
        mark_awaiting_batch c.consumer_id producer_id
          (release_stale_assignments producer_id c.consumer_id s.consumers);
    metrics = record_assign_tick producer_id c.consumer_id busy awaiting_batch now s.metrics;
  }

  -- What follows the encoding of the ASGN. A result ends the loop.
  abbrev pub send_pair :
      (ℕ → Bytes → Bool)
      → ℕ
      → ℕ
      → PendingConsumer
      → Result Bytes
      → Relay F
      → Option Matched × Relay F
  send_pair send now producer_id c (err e) s = (some (failed e), s)
  send_pair send now producer_id c (ok frame) s =
      if send_assign send producer_id frame s.producers
      then (none, mark_pair producer_id c now s)
      else (none, give_back producer_id c s)

  abbrev pub dispatch :
      (ℕ → Bytes → Bool) → ℕ → Option (ℕ × PendingConsumer) × Relay F → Option Matched × Relay F
  dispatch send now (none, s) = (some done, s)
  dispatch send now (some (producer_id, c), s) =
      send_pair send now producer_id c (encode_assign (assign_of c)) s

  unfoldable pub round : (ℕ → Bytes → Bool) → ℕ → Relay F → Option Matched × Relay F
  round send now s =
      if nobody s.matcher.waiting || empty s.matcher.ready
      then (some done, s)
      else dispatch send now (choose_pair s)

  -- The loop ends with a result of the round, or goes on with the rest of its rounds.
  abbrev pub go_on : (Relay F → Matched × Relay F) → Option Matched × Relay F → Matched × Relay F
  go_on rest (none, s) = rest s
  go_on rest (some result, s) = (result, s)

  unfoldable pub match_loop : ℕ → (ℕ → Bytes → Bool) → ℕ → Relay F → Matched × Relay F
  match_loop zero send now s = (out_of_fuel, s)
  match_loop (suc fuel) send now s = go_on (match_loop fuel send now) (round send now s)

  -- One more round than the pool has producers.
  unfoldable pub try_match : (ℕ → Bytes → Bool) → ℕ → Relay F → Matched × Relay F
  try_match send now s = match_loop (suc (length s.matcher.ready)) send now s
