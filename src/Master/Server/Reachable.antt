-- ===== src/Master/Server/Reachable.antt =====
-- What holds in every state that the master reaches.
use cupidmq.Common.{Bytes, ℕ, ◌≤◌, ◌≡◌, refl, inl, Bool}
use cupidmq.Master.Producers.Entries.{IsRegistry}
use cupidmq.Master.Producers.Counters.{ready_in, busy_in}
use cupidmq.Master.Producers.Reachable.{apply-IsRegistry, new-IsRegistry, IsRegistry-counts}
use cupidmq.Master.Consumers.{Floats, ConsumerRegistry, is_awaiting, match_context}
use cupidmq.Master.Consumers
use cupidmq.Master.Consumers.Assignments.{IsIndexed}
use cupidmq.Master.Consumers.Reachable.{IsTag, apply-IsIndexed, new-IsIndexed}
use cupidmq.Master.Consumers.Addressed.{IsAddressed, apply-IsAddressed, match_context-IsAddressed}
use cupidmq.Master.Matchmaker.{done, Relay, new_matcher}
use cupidmq.Master.Matchmaker.Matching.{try_match}
use cupidmq.Master.Matchmaker.Rounds.{Settled, try_match_settles}
use cupidmq.Master.Matchmaker.Queued.{queued}
use cupidmq.Master.Matchmaker.Queue.{empty-IsQueue}
use cupidmq.Master.Matchmaker.Keeps.{Kept, Calm}
use cupidmq.Master.Server.{new}
use cupidmq.Master.Server.Events.{Reaches, started, stepped}
use cupidmq.Master.Server.Keeps.{fitting-Encodable, step-Calm}

module _ {F : Type 0} (fl : Floats F) (tag : ℕ → Bytes) (short : (id : ℕ) → IsTag (tag id)) where
  abbrev pub IsConsumers : ConsumerRegistry F → Type 0
  IsConsumers r = IsIndexed r × IsAddressed r

  pub kept : Kept fl tag IsRegistry IsConsumers
  kept = record {
    producers = λ op r room v. apply-IsRegistry op r room v;
    consumers = λ op r fits v.
        (apply-IsIndexed fl tag op r v.0, apply-IsAddressed fl tag short op r fits v.1);
    context = λ r id request data_addr v found.
        let (texts, addr) = match_context-IsAddressed r id request data_addr v.1 found in
        fitting-Encodable (record { consumer_id = id; ready = request; data_addr = data_addr })
          texts addr;
  }

  new-Calm : Calm fl tag IsRegistry IsConsumers new
  unfolding new Consumers.new new_matcher
  new-Calm = record {
    holds = record {
      producers = new-IsRegistry;
      consumers = (new-IsIndexed, tt);
      queue = empty-IsQueue;
    };
    settled = inl refl;
  }

  pub Reaches-Calm : {s : Relay F} → Reaches fl tag s → Calm fl tag IsRegistry IsConsumers s
  Reaches-Calm started = new-Calm
  Reaches-Calm (stepped {s} before ev allowed) =
      step-Calm fl tag IsRegistry IsConsumers kept ev s allowed (Reaches-Calm before)

  -- In every state that the master reaches, by any whole steps of its tasks in any order and whatever
  -- the sockets of the producers do, no consumer waits beside a producer that is in the pool. A
  -- producer connects while an id is left, and the names and addresses of consumers fit an ASGN.
  pub Reaches-Settled : {s : Relay F} → Reaches fl tag s → Settled s.matcher
  Reaches-Settled h = (Reaches-Calm h).settled

  -- In every state that the master reaches by whole steps of its tasks, no consumer waits in the queue
  -- twice, and `try_match` ends without an error. A producer connects while an id is left, and the
  -- names and addresses of consumers fit an ASGN.
  pub Reaches-queue :
      {s : Relay F}
      → Reaches fl tag s
      → ((id : ℕ) → queued id s.matcher.waiting ≤ 1)
        × ((send : ℕ → Bytes → Bool) (now : ℕ) → (try_match send now s).0 ≡ done)
  Reaches-queue {s} h =
      let queue = (Reaches-Calm h).holds.queue in
      (queue.once, λ send now. (try_match_settles send now s queue.encodable).0)

  -- In every state that the master reaches by whole steps of its tasks, the counters of the producers
  -- are exactly the numbers of the producers that are ready and busy, and every consumer with an
  -- assignment is in the state `awaiting_batch` and stands in the index under its producer. A producer
  -- connects while an id is left, and the names and addresses of consumers fit an ASGN.
  pub Reaches-registries :
      {s : Relay F}
      → Reaches fl tag s
      → (s.producers.ready_count ≡ ready_in s.producers.inner)
        × (s.producers.busy_count ≡ busy_in s.producers.inner)
        × IsIndexed s.consumers
  Reaches-registries h =
      let holds = (Reaches-Calm h).holds in
      let (ready, busy) = IsRegistry-counts holds.producers in (ready, busy, holds.consumers.0)
