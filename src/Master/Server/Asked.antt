-- ===== src/Master/Server/Asked.antt =====
-- The requests of the consumers and the queue of the matchmaker, in the states that the master reaches.
use cupidmq.Common.{
  ltb, ◌==◌, if◌then◌else◌, Bool-cases, All, Bytes, ℕ, ◌≤◌, ◌≡◌, refl, sym, ap, subst, ◌∙◌, inl,
  inr, Bool, true, false, not, ◌&&◌, Option, none, some, arith,
}
use cupidmq.Protocol.Control.{ReadyRequest, ProducerHeartbeat}
use cupidmq.Master.Producers.{state_of}
use cupidmq.Master.Producers.Reports.{
  clear_assignments_to_consumer, record_heartbeat, take_pending_consumer,
}
use cupidmq.Master.Store
use cupidmq.Master.Consumers.{Floats, Phase, ConsumerRegistry, match_context}
use cupidmq.Master.Consumers.Phase.{matcher_queue}
use cupidmq.Master.Consumers
use cupidmq.Master.Consumers.Asking.{
  is_queue, is_asking, asks, set_unacked_asks, failed_asks, finish_batch_asks, requeued_asks,
  begin_cycle_asks, remove_consumer_asks, register_asks,
}
use cupidmq.Master.Matchmaker.{
  PendingConsumer, MatchmakerInner, Relay, Matched, nobody, new_matcher, push_waiting,
}
use cupidmq.Master.Matchmaker.Matching.{try_match}
use cupidmq.Master.Matchmaker.Events.{
  position, cancel_at, on_producer_ready, enqueue, enqueue_consumer, on_producer_done,
  wake_producer, should_requeue, requeue_with, requeue_consumer, on_producer_disconnect,
  cancel_consumer, sync_ready_pool,
}
use cupidmq.Master.Matchmaker.Rounds.{Encodable}
use cupidmq.Master.Matchmaker.Queued.{hit, queued, queued-swap_remove}
use cupidmq.Master.Matchmaker.Queue.{IsQueue, push_waiting-IsQueue, cancel_at-IsQueue}
use cupidmq.Master.Matchmaker.Keeps.{Calm}
use cupidmq.Master.Matchmaker.Asked.{IsAsked, try_match-IsAsked, queued-push_waiting}
use cupidmq.Master.Server.{
  ProducerFrame, prdy, hbrp, delv, failure, Finish, is_ready_state, new, settle_consumer,
  note_transfer, finish_producer_batch, on_heartbeat, went_on, process_producer_frame,
  connect_producer, connect_consumer, on_consumer_ready, disconnect_consumer, match_tick,
}
use cupidmq.Master.Server.Events.{
  Event, producer_connects, producer_sends, producer_leaves, consumer_connects, consumer_sends,
  consumer_leaves, ticks, step, Allowed, Reaches, started, stepped,
}
use cupidmq.Master.Server.Keeps.{fitting-Encodable}
use cupidmq.Master.Producers.Entries.{IsRegistry}
use cupidmq.Master.Consumers.Reachable.{IsTag}
use cupidmq.Master.Server.Reachable.{IsConsumers, kept, Reaches-Calm, Reaches-queue}

abbrev nobody_out : ℕ → Bool
nobody_out j = false

module _ {F : Type 0} where
  abbrev Asked : Relay F → Type 0
  Asked s = IsAsked nobody_out s

  -- The producers do not matter.
  matched :
      (send : ℕ → Bytes → Bool) (now : ℕ) (s t : Relay F)
      → t.consumers ≡ s.consumers
      → t.matcher.waiting ≡ s.matcher.waiting
      → Asked s
      → Asked (try_match send now t).1
  matched send now s t same queue v = try_match-IsAsked nobody_out send now t (record {
    encodable = subst (All Encodable) (sym queue) v.encodable;
    waits = λ j kept asked.
        subst (λ w. 1 ≤ queued j w) (sym queue)
          (v.waits j kept (ap (λ r. asks r j) (sym same) ∙ asked));
  })

  -- A consumer enters the queue, and no other asks who did not.
  entered :
      (s t : Relay F) (c : PendingConsumer)
      → Encodable c
      → IsQueue s.matcher.waiting
      → t.matcher.waiting ≡ push_waiting c s.matcher.waiting
      → ((j : ℕ) → (j == c.consumer_id) ≡ false → asks t.consumers j ≡ asks s.consumers j)
      → Asked s
      → Asked t
  entered s t c fits queue out others v = record {
    encodable =
        subst (All Encodable) (sym out)
          (push_waiting-IsQueue c s.matcher.waiting fits queue).encodable;
    waits = λ j kept asked.
        subst (λ w. 1 ≤ queued j w) (sym out)
          (subst (λ n. 1 ≤ n) (sym (queued-push_waiting j c s.matcher.waiting))
            (waiting j kept asked));
  }
    where
      waiting :
          (j : ℕ)
          → false ≡ false
          → asks t.consumers j ≡ true
          → 1 ≤ (if c.consumer_id == j then 1 else queued j s.matcher.waiting)
      waiting j kept asked = elim (Bool-cases (c.consumer_id == j)) [
        | inl same ↦ rw same (omega arith)
        | inr other ↦
            let apart : (j == c.consumer_id) ≡ false = ground arith in
            rw other (v.waits j refl (sym (others j apart) ∙ asked))
      ]

  module _ (fl : Floats F) where
    settle_consumer_asks :
        (cid : ℕ) (f : Finish) (now j : ℕ) (s : Relay F)
        → asks (settle_consumer fl cid f now s).consumers j ≡ true
        → asks s.consumers j ≡ true
    settle_consumer_asks cid f now j s h = by_result f.ok h
      where
        by_result :
            (b : Bool)
            → asks
                (if b
                  then Consumers.finish_batch fl cid f.msg_count f.batch_bytes now
                      (f.msg_count == 0)
                      s.consumers
                  else Consumers.set_phase cid Consumers.Phase.delivery_failed
                      (Consumers.set_unacked cid 0 s.consumers))
                j
              ≡ true
            → asks s.consumers j ≡ true
        by_result true k =
            finish_batch_asks fl cid f.msg_count f.batch_bytes now (f.msg_count == 0) j s.consumers
              k
        by_result false k = set_unacked_asks cid 0 j s.consumers (failed_asks cid j _ k)

    note_transfer-Asked :
        (id cid : ℕ) (f : Finish) (now : ℕ) (s : Relay F)
        → Asked s
        → Asked (note_transfer fl id cid f now s)
    note_transfer-Asked id cid f now s v = elim (Bool-cases (ltb 0 cid)) [
      | inl someone ↦ rw someone (record {
        encodable = v.encodable;
        waits = λ j kept asked. v.waits j kept (settle_consumer_asks cid f now j s asked);
      })
      | inr no_one ↦ rw no_one v
    ]

    finish_producer_batch-Asked :
        (send : ℕ → Bytes → Bool) (now id : ℕ) (f : Finish) (s : Relay F)
        → Asked s
        → Asked (finish_producer_batch fl send now id f s)
    unfolding finish_producer_batch on_producer_done
    finish_producer_batch-Asked send now id f s v =
        matched send now _ _ refl refl
          (note_transfer-Asked id _ f now _ (record { encodable = v.encodable; waits = v.waits }))

    on_heartbeat-Asked :
        (send : ℕ → Bytes → Bool) (now id : ℕ) (hb : ProducerHeartbeat) (s : Relay F)
        → Asked s
        → Asked (on_heartbeat send now id hb s)
    unfolding on_heartbeat wake_producer
    on_heartbeat-Asked send now id hb s v = beaten (record_heartbeat id hb now s.producers).0 (
        is_ready_state (state_of (record_heartbeat id hb now s.producers).1 id)
        && not (nobody s.matcher.waiting))
      where
        s' : Relay F
        s' = record s { producers = (record_heartbeat id hb now s.producers).1 }

        beaten :
            (rematch again : Bool)
            → Asked (
                if rematch
                then wake_producer send now id s'
                else if again
                then (try_match send now s').1
                else s')
        beaten true again = matched send now s _ refl refl v
        beaten false true = matched send now s s' refl refl v
        beaten false false = record { encodable = v.encodable; waits = v.waits }

    went_on_same : (out : Matched × Relay F) → (went_on out).1 ≡ out.1
    went_on_same (Matched.done, s) = refl
    went_on_same (Matched.failed e, s) = refl
    went_on_same (Matched.out_of_fuel, s) = refl

    process_producer_frame-Asked :
        (send : ℕ → Bytes → Bool) (now id : ℕ) (frame : ProducerFrame) (s : Relay F)
        → Asked s
        → Asked (process_producer_frame fl send now id frame s).1
    unfolding process_producer_frame on_producer_ready
    process_producer_frame-Asked send now id prdy s v =
        subst Asked (sym (went_on_same (on_producer_ready send now id s)))
          (matched send now s _ refl refl v)
    process_producer_frame-Asked send now id (hbrp hb) s v = on_heartbeat-Asked send now id hb s v
    process_producer_frame-Asked send now id (delv report) s v =
        finish_producer_batch-Asked send now id _ s v
    process_producer_frame-Asked send now id (failure report) s v =
        finish_producer_batch-Asked send now id _ s v

    on_consumer_ready-Asked :
        (send : ℕ → Bytes → Bool) (now id : ℕ) (data_addr : Bytes) (request : ReadyRequest)
        (s : Relay F)
        → Encodable (record { consumer_id = id; ready = request; data_addr = data_addr })
        → IsQueue s.matcher.waiting
        → Asked s
        → Asked (on_consumer_ready fl send now id data_addr request s)
    unfolding on_consumer_ready enqueue_consumer enqueue
    on_consumer_ready-Asked send now id data_addr request s fits queue v =
        try_match-IsAsked nobody_out send now _ (
          entered s _ (record { consumer_id = id; ready = request; data_addr = data_addr }) fits
            queue refl
            (λ j other.
              begin_cycle_asks fl id request.max_items request.consumer_tag now j s.consumers other)
            v)

  requeue_with-Asked :
      (id : ℕ) (o : Option (ReadyRequest × Bytes)) (s : Relay F)
      → ((request : ReadyRequest) (data_addr : Bytes)
          → o ≡ some (request, data_addr)
          → Encodable (record { consumer_id = id; ready = request; data_addr = data_addr }))
      → IsQueue s.matcher.waiting
      → Asked s
      → Asked (requeue_with id o s)
  unfolding enqueue_consumer enqueue
  requeue_with-Asked id none s context queue v = v
  requeue_with-Asked id (some (request, data_addr)) s context queue v =
      entered s _ (record { consumer_id = id; ready = request; data_addr = data_addr })
        (context request data_addr refl) queue refl
        (λ j other. requeued_asks id j s.consumers other) v

  requeue_consumer-Asked :
      (o : Option ℕ) (s : Relay F)
      → ((id : ℕ) (request : ReadyRequest) (data_addr : Bytes)
          → match_context s.consumers id ≡ some (request, data_addr)
          → Encodable (record { consumer_id = id; ready = request; data_addr = data_addr }))
      → IsQueue s.matcher.waiting
      → Asked s
      → Asked (requeue_consumer o s)
  requeue_consumer-Asked none s context queue v = v
  requeue_consumer-Asked (some id) s context queue v =
      elim (Bool-cases (should_requeue (Consumers.state_of s.consumers id))) [
        | inl again ↦
            rw again (requeue_with-Asked id (match_context s.consumers id) s (context id) queue v)
        | inr over ↦ rw over v
      ]

  on_producer_disconnect-Asked :
      (send : ℕ → Bytes → Bool) (now id : ℕ) (s : Relay F)
      → ((cid : ℕ) (request : ReadyRequest) (data_addr : Bytes)
          → match_context s.consumers cid ≡ some (request, data_addr)
          → Encodable (record { consumer_id = cid; ready = request; data_addr = data_addr }))
      → IsQueue s.matcher.waiting
      → Asked s
      → Asked (on_producer_disconnect send now id s)
  unfolding on_producer_disconnect
  on_producer_disconnect-Asked send now id s context queue v = matched send now _ _ refl refl (
      requeue_consumer-Asked (take_pending_consumer id s.producers).0 _ context queue
        (record { encodable = v.encodable; waits = v.waits }))

  -- The consumer that leaves is still registered while the others are matched.
  cancel_consumer-IsAsked :
      (send : ℕ → Bytes → Bool) (now id : ℕ) (s : Relay F)
      → IsQueue s.matcher.waiting
      → Asked s
      → IsAsked (λ j. j == id) (cancel_consumer send now id s)
  unfolding cancel_consumer
  cancel_consumer-IsAsked send now id s queue v =
      left (ltb 0 (clear_assignments_to_consumer id s.producers).0)
    where
      inner : MatchmakerInner
      inner = cancel_at (position id s.matcher.waiting) s.matcher

      still :
          (j : ℕ) (o : Option ℕ)
          → position id s.matcher.waiting ≡ o
          → (j == id) ≡ false
          → queued j (cancel_at o s.matcher).waiting ≡ queued j s.matcher.waiting
      still j none e other = refl
      still j (some i) e other =
          let apart : hit id j ≡ 0 = ground arith in
          omega (arith, queued-swap_remove j id i s.matcher.waiting e, apart)

      s' : Relay F
      s' = record s {
        producers = (clear_assignments_to_consumer id s.producers).1;
        matcher = inner;
      }

      cancelled : IsAsked (λ j. j == id) s'
      cancelled = record {
        encodable = (cancel_at-IsQueue id s.matcher queue).encodable;
        waits = λ j other asked.
            subst (λ n. 1 ≤ n) (sym (still j (position id s.matcher.waiting) refl other))
              (v.waits j refl asked);
      }

      left : (b : Bool) → IsAsked (λ j. j == id) (if b then (try_match send now s').1 else s')
      left true = try_match-IsAsked (λ j. j == id) send now s' cancelled
      left false = cancelled

  disconnect_consumer-Asked :
      (send : ℕ → Bytes → Bool) (now id : ℕ) (s : Relay F)
      → IsQueue s.matcher.waiting
      → Asked s
      → Asked (disconnect_consumer send now id s)
  unfolding disconnect_consumer
  disconnect_consumer-Asked send now id s queue v =
      let left = cancel_consumer-IsAsked send now id s queue v in
      record {
        encodable = left.encodable;
        waits = λ j kept asked.
            let (other, asked') = remove_consumer_asks id j _ asked in left.waits j other asked';
      }

  match_tick-Asked :
      (send : ℕ → Bytes → Bool) (now : ℕ) (s : Relay F) → Asked s → Asked (match_tick send now s)
  unfolding match_tick sync_ready_pool
  match_tick-Asked send now s v = elim (Bool-cases (nobody s.matcher.waiting)) [
    | inl none_waits ↦ rw none_waits v
    | inr waits ↦ rw waits (matched send now s _ refl refl v)
  ]

module _ {F : Type 0} (fl : Floats F) (tag : ℕ → Bytes) (short : (id : ℕ) → IsTag (tag id)) where
  step-Asked :
      (ev : Event) (s : Relay F)
      → Allowed ev s
      → Calm fl tag IsRegistry (IsConsumers fl tag short) s
      → Asked s
      → Asked (step fl tag ev s)
  unfolding step connect_producer connect_consumer
  step-Asked (producer_connects addr now) s h calm v = record {
    encodable = v.encodable;
    waits = v.waits;
  }
  step-Asked (producer_sends send now id frame) s h calm v =
      process_producer_frame-Asked fl send now id frame s v
  step-Asked (producer_leaves send now id) s h calm v =
      on_producer_disconnect-Asked send now id s
        (λ cid request data_addr.
          (kept fl tag short).context s.consumers cid request data_addr calm.holds.consumers)
        calm.holds.queue v
  step-Asked (consumer_connects addr data_addr now) s h calm v = record {
    encodable = v.encodable;
    waits = λ j kept asked.
        v.waits j kept (register_asks fl tag addr data_addr now j s.consumers asked);
  }
  step-Asked (consumer_sends send now id data_addr request) s h calm v =
      on_consumer_ready-Asked fl send now id data_addr request s
        (fitting-Encodable (record { consumer_id = id; ready = request; data_addr = data_addr }) h.1
          h.0)
        calm.holds.queue v
  step-Asked (consumer_leaves send now id) s h calm v =
      disconnect_consumer-Asked send now id s calm.holds.queue v
  step-Asked (ticks send now) s h calm v = match_tick-Asked send now s v

  Reaches-Asked : {s : Relay F} → Reaches fl tag s → Asked s
  unfolding new Consumers.new new_matcher Store.get
  Reaches-Asked started = record {
    encodable = tt;
    waits = λ j kept asked. absurd (nobody_asks asked);
  }
    where
      nobody_asks : ¬ (false ≡ true)
      nobody_asks h = cc
  Reaches-Asked (stepped {s} before ev allowed) =
      step-Asked ev s allowed (Reaches-Calm fl tag short before) (Reaches-Asked before)

  -- In every state that the master reaches by whole steps of its tasks, in any order and whatever the
  -- sockets do, a consumer whose state is `matcher_queue` waits in the queue of the matchmaker, exactly
  -- once. A producer connects while an id is left, and the names and addresses of consumers fit an
  -- ASGN.
  pub Reaches-asked_once :
      {s : Relay F} (id : ℕ)
      → Reaches fl tag s
      → Consumers.state_of s.consumers id ≡ some matcher_queue
      → queued id s.matcher.waiting ≡ 1
  unfolding Consumers.state_of
  Reaches-asked_once {s} id h state = omega (
    arith,
    (Reaches-queue fl tag short h).0 id,
    (Reaches-Asked h).waits id refl (asking (Store.get id s.consumers.inner) state),
  )
    where
      unsome : {a b : Phase} → some a ≡ some b → a ≡ b
      unsome k = cc

      asking :
          (o : Option (Consumers.ConsumerEntry F))
          → Consumers.state_in o ≡ some matcher_queue
          → is_asking o ≡ true
      asking none k = absurd cc
      asking (some e) k = ap is_queue (unsome k)
