-- ===== src/Producer/Runs.antt =====
-- Concrete runs of the producer, and its theorems at concrete inputs.
use cupidmq.Common.{Bytes, ℕ, ◌≤◌, ◌≡◌, refl, true, none, List, [], ◌∷◌, arith}
use cupidmq.Ring.{RingEntry, ByteRing, QueuedMessage}
use cupidmq.Ring
use cupidmq.Ring.Invariant.{IsValid}
use cupidmq.Accumulator
use cupidmq.Protocol.Control.{AssignRequest}
use cupidmq.Producer.{
  Readings, busy, ProducerStats, Inner, push_batch_to_ring, push_batches, drain_pending,
  flush_ingress_to_ring, keep_loop, push_all_front, drain_for_assign,
}
use cupidmq.Producer.LinkState.{busy}
use cupidmq.Producer.Ingest.{Pushes, Shown, flush_ingress_to_ring_lem}
use cupidmq.Producer.Drain.{Drained, drain_for_assign_lem}
use cupidmq.Producer.Delivery.{Delivery, payload_refs, start_delivery, deliver_assign}
use cupidmq.Producer.Delivery.Delivery.{refused}
use cupidmq.Producer.Delivery.Outcome.{failed_delivery_restores}
use cupidmq.Producer.Control.{Event, attempt, assigned, notified}
use cupidmq.Producer.Control.Turns.{Moment, announcements, turns, announcements-turns}

abbrev letter : ℕ → RingEntry
letter b = record { payload = b ∷ b ∷ []; enqueued_ms = 5 }

abbrev three_letters : ByteRing
three_letters = record {
  queue = letter 1 ∷ letter 2 ∷ letter 3 ∷ [];
  bytes = 6;
  max_bytes = 100;
  drops_total = 0;
}

three_letters-IsValid : IsValid three_letters
three_letters-IsValid = omega arith

-- A producer with three messages on its ring and one more that was just published.
abbrev loaded : Inner
loaded = record {
  config = record {
    max_batch_bytes = 4;
    flush_timeout_ms = 20;
    outbound_max_bytes = 100;
    reconnect_delay_secs = 1;
  };
  pending = record { queue = letter 4 ∷ []; bytes = 2; max_bytes = 100; drops_total = 0 };
  ring = three_letters;
  accumulator = record {
    items = [];
    bytes = 0;
    max_bytes = 4;
    flush_timeout = 20;
    opened_at = none;
  };
  link_state = busy;
  connected = true;
  last_connect_fail = none;
}

-- The clock stands still.
abbrev nine : Readings
nine = λ round n. 9

abbrev asgn : AssignRequest
asgn = record { max_items = 3; consumer_tag = 1 ∷ []; data_addr = 2 ∷ [] }

-- The batch limit of four bytes cuts an ASGN of three items to two.
two_delivered : payload_refs (start_delivery loaded asgn nine).0 ≡ (1 ∷ 1 ∷ []) ∷ (2 ∷ 2 ∷ []) ∷ []
unfolding start_delivery flush_ingress_to_ring drain_pending push_batch_to_ring drain_for_assign
    keep_loop push_all_front Ring.push Ring.make_room Ring.pop_front Ring.pop_front_inner
    Ring.pop_up_to Ring.pop_rounds Ring.push_front Ring.drop_newest Ring.len Accumulator.push
    Accumulator.take_batch push_batches
two_delivered = refl

flush_ingress_to_ring_example :
    Pushes (Shown nine) three_letters ((4 ∷ 4 ∷ []) ∷ []) (flush_ingress_to_ring loaded nine).ring
    × ((flush_ingress_to_ring loaded nine).accumulator.items ≡ [])
    × ((flush_ingress_to_ring loaded nine).pending.queue ≡ [])
flush_ingress_to_ring_example = flush_ingress_to_ring_lem loaded nine

drain_for_assign_example :
    (k : ℕ) × Drained three_letters 3 4 k (drain_for_assign three_letters 3 4 9)
drain_for_assign_example = drain_for_assign_lem three_letters 3 4 9 three_letters-IsValid

abbrev refuse : List Bytes → Delivery
refuse items = refused (b'n' ∷ b'o' ∷ [])

abbrev untouched : Inner → Inner
untouched st = st

failed_delivery_restores_example :
    (deliver_assign loaded asgn nine refuse untouched).1.ring
    ≡ (flush_ingress_to_ring loaded nine).ring
failed_delivery_restores_example =
    failed_delivery_restores loaded asgn nine three_letters-IsValid refuse untouched (omega arith)
      (λ e. cc) (λ s. refl)

abbrev at : Event → Moment
at event = record { event = event; wrote_ready = true; wrote_heartbeat = true; now = 9 }

-- A connection, three notifications and an ASGN.
abbrev morning : List Moment
morning =
    at (attempt true)
    ∷ at notified
    ∷ at notified
    ∷ at (assigned asgn nine refuse untouched true)
    ∷ at notified
    ∷ []

abbrev no_stats : ProducerStats
no_stats = record {
  published_items = 0;
  published_batches = 0;
  published_bytes = 0;
  reconnects = 0;
  queue_dropped_items = 0;
  delivery_errors = 0;
}

announcements_example : announcements morning loaded no_stats ≤ 2
unfolding turns
announcements_example = announcements-turns morning loaded no_stats
