-- ===== src/Master/Matchmaker/Keeps.antt =====
-- The matchmaker changes the two registries through their operations alone, and the queue only as
-- `Queue` allows: what those keep, `try_match` keeps.
use cupidmq.Common.{
  Bool-cases, length, take, drop, Bytes, ℕ, zero, suc, ◌≡◌, refl, sym, subst, ◌⊎◌, inl, inr, Bool,
  false, ◌||◌, Option, none, some, [], ◌∷◌, ◌++◌, arith,
}
use cupidmq.Protocol.Wire.{Result, ok, err}
use cupidmq.Protocol.Control.{ReadyRequest, encode_assign}
use cupidmq.Master.Producers.{ProducerRegistry}
use cupidmq.Master.Producers.ProducerState.{idle}
use cupidmq.Master.Producers.Ranking.{Ranked, rank_ready_candidates}
use cupidmq.Master.Producers.Reachable.{Operation, sets, assigns, ranks, apply, Room}
use cupidmq.Master.Consumers.{Floats, ConsumerRegistry, match_context}
use cupidmq.Master.Consumers.Reachable.{marks, releases, phases, Fits}
use cupidmq.Master.Consumers.Reachable
use cupidmq.Master.Matchmaker.{
  PendingConsumer, Relay, Matched, nobody, empty, claim, assign_of, send_assign,
}
use cupidmq.Master.Matchmaker.Matching.{
  choose_pair, send_pair, dispatch, round, go_on, match_loop, try_match,
}
use cupidmq.Master.Matchmaker.Rounds.{
  Encodable, Settled, Claims, claim_lem, prune, try_match_settles,
}
use cupidmq.Master.Matchmaker.Queue.{IsQueue, take_out-IsQueue, give_back-IsQueue}

module _ {F : Type 0} (fl : Floats F) (tag : ℕ → Bytes) (IsProducers : ProducerRegistry → Type 0)
    (IsConsumers : ConsumerRegistry F → Type 0) where
  -- What the operations of the registries keep, and what the consumers must be like for the matchmaker.
  pub record Kept : Type 0 where
    pub producers :
        (op : Operation) (r : ProducerRegistry)
        → Room op r
        → IsProducers r
        → IsProducers (apply op r)
    pub consumers :
        (op : Reachable.Operation) (r : ConsumerRegistry F)
        → Fits op
        → IsConsumers r
        → IsConsumers (Reachable.apply fl tag op r)
    pub context :
        (r : ConsumerRegistry F) (id : ℕ) (request : ReadyRequest) (data_addr : Bytes)
        → IsConsumers r
        → match_context r id ≡ some (request, data_addr)
        → Encodable (record { consumer_id = id; ready = request; data_addr = data_addr })

  pub record Holds (s : Relay F) : Type 0 where
    pub producers : IsProducers s.producers
    pub consumers : IsConsumers s.consumers
    pub queue : IsQueue s.matcher.waiting

  -- Also, no consumer waits beside a producer of the pool.
  pub record Calm (s : Relay F) : Type 0 where
    pub holds : Holds s
    pub settled : Settled s.matcher

  module _ (kept : Kept) (send : ℕ → Bytes → Bool) (now : ℕ) where
    abbrev ranked : Relay F → Ranked
    ranked s = rank_ready_candidates s.matcher.ready s.matcher.producer_rr s.producers

    ranked_producers : (s : Relay F) → Holds s → IsProducers (ranked s).registry
    ranked_producers s v =
        kept.producers (ranks s.matcher.ready s.matcher.producer_rr) s.producers tt v.producers

    pair_Holds :
        (s t : Relay F) (p i : ℕ) (c : PendingConsumer) (r : Result Bytes)
        → Holds s
        → IsProducers t.producers
        → t.consumers ≡ s.consumers
        → t.matcher.waiting ≡ take i s.matcher.waiting ++ drop (suc i) s.matcher.waiting
        → take i s.matcher.waiting ++ (c ∷ drop (suc i) s.matcher.waiting) ≡ s.matcher.waiting
        → Holds (send_pair send now p c r t).1
    pair_Holds s t p i c (err e) v h same out item = record {
      producers = h;
      consumers = subst IsConsumers (sym same) v.consumers;
      queue = subst IsQueue (sym out) (take_out-IsQueue _ _ _ c item v.queue);
    }
    pair_Holds s t p i c (ok frame) v h same out item =
        elim (Bool-cases (send_assign send p frame t.producers)) [
          | inl sent ↦ rw sent (record {
            producers = kept.producers (assigns p c.consumer_id now) t.producers tt h;
            consumers = kept.consumers (marks c.consumer_id p) _ tt (
                kept.consumers (releases p c.consumer_id) t.consumers tt
                  (subst IsConsumers (sym same) v.consumers));
            queue = subst IsQueue (sym out) (take_out-IsQueue _ _ _ c item v.queue);
          })
          | inr unsent ↦ rw unsent (record {
            producers = kept.producers (sets p idle) t.producers tt h;
            consumers = subst IsConsumers (sym same) v.consumers;
            queue =
                subst (λ wait. IsQueue (wait ++ (c ∷ []))) (sym out)
                  (give_back-IsQueue _ _ _ c item v.queue);
          })
        ]

    round-Holds : (s : Relay F) → Holds s → Holds (round send now s).1
    unfolding round choose_pair
    round-Holds s v = elim (Bool-cases (nobody s.matcher.waiting || empty s.matcher.ready)) [
      | inl over ↦ rw over v
      | inr goes_on ↦ rw goes_on (dispatched (claim_lem (ranked s) s.matcher (waits goes_on)))
    ]
      where
        waits :
            (nobody s.matcher.waiting || empty s.matcher.ready) ≡ false
            → nobody s.matcher.waiting ≡ false
        waits h = ground arith

        dispatched :
            (((ranked s).best ≡ none)
                × (claim (ranked s) s.matcher ≡ (none, prune (ranked s) s.matcher)))
              ⊎ ((p : ℕ) × (i : ℕ) × (c : PendingConsumer) × Claims (ranked s) s.matcher p i c)
            → Holds (dispatch send now (choose_pair s)).1
        dispatched (inl (bare, result)) =
            rw result (record {
              producers = ranked_producers s v;
              consumers = v.consumers;
              queue = v.queue;
            })
        dispatched (inr (p, i, c, one)) = rw (one.result) (
            pair_Holds s _ p i c (encode_assign (assign_of c)) v (ranked_producers s v) refl refl
              one.item)

    go_on-Holds :
        (rest : Relay F → Matched × Relay F) (out : Option Matched × Relay F)
        → ((s : Relay F) → Holds s → Holds (rest s).1)
        → Holds out.1
        → Holds (go_on rest out).1
    go_on-Holds rest (none, s) next v = next s v
    go_on-Holds rest (some result, s) next v = v

    match_loop-Holds : (fuel : ℕ) (s : Relay F) → Holds s → Holds (match_loop fuel send now s).1
    unfolding match_loop
    match_loop-Holds zero s v = v
    match_loop-Holds (suc fuel) s v =
        go_on-Holds (match_loop fuel send now) (round send now s) (match_loop-Holds fuel)
          (round-Holds s v)

    pub try_match-Holds : (s : Relay F) → Holds s → Holds (try_match send now s).1
    unfolding try_match
    try_match-Holds s v = match_loop-Holds (suc (length s.matcher.ready)) s v

    pub try_match-Calm : (s : Relay F) → Holds s → Calm (try_match send now s).1
    try_match-Calm s v = record {
      holds = try_match-Holds s v;
      settled = (try_match_settles send now s v.queue.encodable).1;
    }
