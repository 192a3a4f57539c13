-- ===== src/Master/Server/Keeps.antt =====
-- What the registries keep and the queue allows, each step of the server keeps, and after each no
-- consumer waits beside a producer of the pool.
use cupidmq.Common.{
  ltb, ◌==◌, if◌then◌else◌, le→ltb, Bool-cases, length, Bytes, ℕ, ◌≡◌, refl, sym, subst, inl, inr,
  Bool, false, not, ◌&&◌, [], ◌∷◌, arith,
}
use cupidmq.Protocol.Wire.{Error, ok, err}
use cupidmq.Protocol.Control.{ReadyRequest, ProducerHeartbeat, encode_assign, u16_max}
use cupidmq.Master.Producers.{ProducerRegistry, state_of}
use cupidmq.Master.Producers.Reachable.{registers, beats, delivers, fails, takes_consumer}
use cupidmq.Master.Producers.Reports.{
  record_heartbeat, record_delivery, record_failure, take_pending_consumer,
}
use cupidmq.Master.Consumers.{Floats, ConsumerRegistry}
use cupidmq.Master.Consumers.Phase.{delivery_failed}
use cupidmq.Master.Consumers.Reachable.{
  IsTag, IsDataAddr, begins, removes, finishes, unacks, phases,
}
use cupidmq.Master.Consumers.Reachable
use cupidmq.Master.Matchmaker.{PendingConsumer, Matched, Relay, nobody}
use cupidmq.Master.Matchmaker.Events.{with_producers, on_producer_ready}
use cupidmq.Master.Matchmaker.Rounds.{Encodable}
use cupidmq.Master.Matchmaker.Keeps.{Kept, Holds, Calm, try_match-Calm}
use cupidmq.Master.Matchmaker.Methods.{
  sync_ready_pool-Holds, on_producer_ready-Calm, enqueue_consumer-Holds, on_producer_done-Calm,
  wake_producer-Calm, on_producer_disconnect-Calm, cancel_consumer-Calm,
}
use cupidmq.Master.Server.{
  ProducerFrame, prdy, hbrp, delv, failure, Finish, is_ready_state, reported_consumer,
  settle_consumer, note_transfer, finish_producer_batch, on_heartbeat, went_on,
  process_producer_frame, connect_producer, connect_consumer, on_consumer_ready,
  disconnect_consumer, match_tick,
}
use cupidmq.Master.Server.Events.{
  Event, producer_connects, producer_sends, producer_leaves, consumer_connects, consumer_sends,
  consumer_leaves, ticks, step, Allowed,
}

otherwise {ℓ} :
    {A : Type ℓ} (b : Bool) (e : Error) (a : A)
    → b ≡ false
    → (x : A) × ((if b then err e else ok a) ≡ ok x)
otherwise b e a h = (a, rw h refl)

-- An ASGN can be made of texts that fit.
pub fitting-Encodable :
    (c : PendingConsumer) → IsTag c.ready.consumer_tag → IsDataAddr c.data_addr → Encodable c
unfolding encode_assign
fitting-Encodable c short addr = go c.data_addr addr
  where
    go :
        (data_addr : Bytes)
        → IsDataAddr data_addr
        → (frame : Bytes) × (encode_assign (record {
          max_items = c.ready.max_items;
          consumer_tag = c.ready.consumer_tag;
          data_addr = data_addr;
        })
            ≡ ok frame)
    go [] h = absurd (omega (arith, h))
    go (b ∷ bs) h = otherwise _ _ _ (
        rw
          (le→ltb u16_max (length c.ready.consumer_tag) short, le→ltb u16_max (length (b ∷ bs)) h.1)
          refl)

module _ {F : Type 0} (fl : Floats F) (tag : ℕ → Bytes) (IsProducers : ProducerRegistry → Type 0)
    (IsConsumers : ConsumerRegistry F → Type 0) (kept : Kept fl tag IsProducers IsConsumers) where
  abbrev Held : Relay F → Type 0
  Held = Holds fl tag IsProducers IsConsumers

  abbrev Calmed : Relay F → Type 0
  Calmed = Calm fl tag IsProducers IsConsumers

  settle_consumer_keeps :
      (cid : ℕ) (f : Finish) (now : ℕ) (s : Relay F)
      → IsConsumers s.consumers
      → IsConsumers (settle_consumer fl cid f now s).consumers
  settle_consumer_keeps cid f now s v = elim (Bool-cases f.ok) [
    | inl fine ↦ rw fine (
        kept.consumers (finishes cid f.msg_count f.batch_bytes now (f.msg_count == 0)) s.consumers
          tt v)
    | inr bad ↦ rw bad (
        kept.consumers (phases cid delivery_failed) _ tt
          (kept.consumers (unacks cid 0) s.consumers tt v))
  ]

  note_transfer_keeps :
      (id cid : ℕ) (f : Finish) (now : ℕ) (s : Relay F)
      → Held s
      → Held (note_transfer fl id cid f now s)
  note_transfer_keeps id cid f now s v = elim (Bool-cases (ltb 0 cid)) [
    | inl someone ↦ rw someone (record {
      producers = v.producers;
      consumers = settle_consumer_keeps cid f now s v.consumers;
      queue = v.queue;
    })
    | inr no_one ↦ rw no_one v
  ]

  finish_producer_batch_keeps :
      (send : ℕ → Bytes → Bool) (now id : ℕ) (f : Finish) (s : Relay F)
      → Held s
      → Calmed (finish_producer_batch fl send now id f s)
  unfolding finish_producer_batch
  finish_producer_batch_keeps send now id f s v =
      let told =
        note_transfer_keeps id
          (reported_consumer id (take_pending_consumer id s.producers).0
            (with_producers (take_pending_consumer id s.producers).1 s))
          f now _
          (record {
            producers = kept.producers (takes_consumer id) s.producers tt v.producers;
            consumers = v.consumers;
            queue = v.queue;
          }) in
      on_producer_done-Calm fl tag IsProducers IsConsumers kept send now id _ (record {
        producers = counted told.producers;
        consumers = told.consumers;
        queue = told.queue;
      })
    where
      counted :
          {r : ProducerRegistry}
          → IsProducers r
          → IsProducers (if f.ok then record_delivery id f.msg_count r else record_failure id r)
      counted {r} h = elim (Bool-cases f.ok) [
        | inl fine ↦ rw fine (kept.producers (delivers id f.msg_count) r tt h)
        | inr bad ↦ rw bad (kept.producers (fails id) r tt h)
      ]

  on_heartbeat_keeps :
      (send : ℕ → Bytes → Bool) (now id : ℕ) (hb : ProducerHeartbeat) (s : Relay F)
      → Calmed s
      → Calmed (on_heartbeat send now id hb s)
  unfolding on_heartbeat
  on_heartbeat_keeps send now id hb s v =
      elim (Bool-cases (record_heartbeat id hb now s.producers).0) [
        | inl rematch ↦
            rw rematch (wake_producer-Calm fl tag IsProducers IsConsumers kept send now id _ beaten)
        | inr quiet ↦
            rw quiet
              (elim (Bool-cases (
                is_ready_state (state_of (record_heartbeat id hb now s.producers).1 id)
                && not (nobody s.matcher.waiting))) [
                  | inl again ↦
                      rw again
                        (try_match-Calm fl tag IsProducers IsConsumers kept send now _ beaten)
                  | inr over ↦ rw over (record { holds = beaten; settled = v.settled })
                ])
      ]
    where
      beaten : Held (with_producers (record_heartbeat id hb now s.producers).1 s)
      beaten = record {
        producers = kept.producers (beats id hb now) s.producers tt v.holds.producers;
        consumers = v.holds.consumers;
        queue = v.holds.queue;
      }

  went_on_same : (out : Matched × Relay F) → (went_on out).1 ≡ out.1
  went_on_same (Matched.done, s) = refl
  went_on_same (Matched.failed e, s) = refl
  went_on_same (Matched.out_of_fuel, s) = refl

  process_producer_frame_keeps :
      (send : ℕ → Bytes → Bool) (now id : ℕ) (frame : ProducerFrame) (s : Relay F)
      → Calmed s
      → Calmed (process_producer_frame fl send now id frame s).1
  unfolding process_producer_frame
  process_producer_frame_keeps send now id prdy s v =
      subst Calmed (sym (went_on_same (on_producer_ready send now id s)))
        (on_producer_ready-Calm fl tag IsProducers IsConsumers kept send now id s v.holds)
  process_producer_frame_keeps send now id (hbrp hb) s v = on_heartbeat_keeps send now id hb s v
  process_producer_frame_keeps send now id (delv report) s v =
      finish_producer_batch_keeps send now id _ s v.holds
  process_producer_frame_keeps send now id (failure report) s v =
      finish_producer_batch_keeps send now id _ s v.holds

  on_consumer_ready_keeps :
      (send : ℕ → Bytes → Bool) (now id : ℕ) (data_addr : Bytes) (request : ReadyRequest)
      (s : Relay F)
      → IsDataAddr data_addr
      → IsTag request.consumer_tag
      → Held s
      → Calmed (on_consumer_ready fl send now id data_addr request s)
  unfolding on_consumer_ready
  on_consumer_ready_keeps send now id data_addr request s addr short v =
      try_match-Calm fl tag IsProducers IsConsumers kept send now _ (
        enqueue_consumer-Holds fl tag IsProducers IsConsumers kept send now id request data_addr _
          (fitting-Encodable (record { consumer_id = id; ready = request; data_addr = data_addr })
            short addr)
          (record {
            producers = v.producers;
            consumers =
                kept.consumers (begins id request.max_items request.consumer_tag now) s.consumers
                  short v.consumers;
            queue = v.queue;
          }))

  disconnect_consumer_keeps :
      (send : ℕ → Bytes → Bool) (now id : ℕ) (s : Relay F)
      → Calmed s
      → Calmed (disconnect_consumer send now id s)
  unfolding disconnect_consumer
  disconnect_consumer_keeps send now id s v =
      let left = cancel_consumer-Calm fl tag IsProducers IsConsumers kept send now id s v in
      record {
        holds = record {
          producers = left.holds.producers;
          consumers = kept.consumers (removes id) _ tt left.holds.consumers;
          queue = left.holds.queue;
        };
        settled = left.settled;
      }

  match_tick_keeps :
      (send : ℕ → Bytes → Bool) (now : ℕ) (s : Relay F) → Calmed s → Calmed (match_tick send now s)
  unfolding match_tick
  match_tick_keeps send now s v = elim (Bool-cases (nobody s.matcher.waiting)) [
    | inl none_waits ↦ rw none_waits v
    | inr waits ↦ rw waits (
        try_match-Calm fl tag IsProducers IsConsumers kept send now _
          (sync_ready_pool-Holds fl tag IsProducers IsConsumers kept send now s v.holds))
  ]

  pub step-Calm : (ev : Event) (s : Relay F) → Allowed ev s → Calmed s → Calmed (step fl tag ev s)
  unfolding step connect_producer connect_consumer
  step-Calm (producer_connects addr now) s room v = record {
    holds = record {
      producers = kept.producers (registers addr now) s.producers room v.holds.producers;
      consumers = v.holds.consumers;
      queue = v.holds.queue;
    };
    settled = v.settled;
  }
  step-Calm (producer_sends send now id frame) s h v =
      process_producer_frame_keeps send now id frame s v
  step-Calm (producer_leaves send now id) s h v =
      on_producer_disconnect-Calm fl tag IsProducers IsConsumers kept send now id s v.holds
  step-Calm (consumer_connects addr data_addr now) s h v = record {
    holds = record {
      producers = v.holds.producers;
      consumers =
          kept.consumers (Reachable.registers addr data_addr now) s.consumers h v.holds.consumers;
      queue = v.holds.queue;
    };
    settled = v.settled;
  }
  step-Calm (consumer_sends send now id data_addr request) s h v =
      on_consumer_ready_keeps send now id data_addr request s h.0 h.1 v.holds
  step-Calm (consumer_leaves send now id) s h v = disconnect_consumer_keeps send now id s v
  step-Calm (ticks send now) s h v = match_tick_keeps send now s v
