-- ===== src/Link/Runs.antt =====
-- Concrete deliveries, and the theorems about them at concrete inputs.
use cupidmq.Common.{
  length, take, drop, Bytes, ℕ, zero, suc, ◌^◌, ◌≤◌, ◌≡◌, refl, ap, true, false, Option, none, some,
  List, [], ◌∷◌, ◌++◌, arith,
}
use cupidmq.Protocol.Wire.{end_of_stream, ok, err, read_exact_async}
use cupidmq.Protocol.Control.{AssignRequest}
use cupidmq.Protocol.Batch.{encode_batch, write_batch_vectored, batch_wire_bytes, read_batch_frame}
use cupidmq.Ring.{RingEntry, ByteRing}
use cupidmq.Ring
use cupidmq.Ring.Invariant.{IsValid}
use cupidmq.Accumulator
use cupidmq.Producer.{Inner, Readings, flush_ingress_to_ring, drain_pending, push_batch_to_ring}
use cupidmq.Producer.LinkState.{busy}
use cupidmq.Producer.Delivery.{payload_refs, start_delivery}
use cupidmq.Consumer.{Consumer, connect, store_batch, serve_batch}
use cupidmq.Consumer.Serving.{Around, serve_connection}
use cupidmq.Link.Payloads.{payloads}
use cupidmq.Link.Delivery.{delivery_served, delivery_too_large}

abbrev entry : Bytes → RingEntry
entry payload = record { payload = payload; enqueued_ms = 5 }

-- A producer with some messages on its ring, and nothing else, of which it sends at most `cap_bytes`
-- payload bytes at a time.
abbrev holding : List RingEntry → ℕ → ℕ → Inner
holding queue bytes cap_bytes = record {
  config = record {
    max_batch_bytes = cap_bytes;
    flush_timeout_ms = 20;
    outbound_max_bytes = 2 ^ 30;
    reconnect_delay_secs = 1;
  };
  pending = record { queue = []; bytes = 0; max_bytes = 100; drops_total = 0 };
  ring = record { queue = queue; bytes = bytes; max_bytes = 2 ^ 30; drops_total = 0 };
  accumulator = record {
    items = [];
    bytes = 0;
    max_bytes = 4;
    flush_timeout = 20;
    opened_at = none;
  };
  link_state = busy;
  connected = true;
  last_connect_fail = none;
}

abbrev asgn : AssignRequest
asgn = record { max_items = 2; consumer_tag = 1 ∷ []; data_addr = 2 ∷ [] }

-- The system takes every write whole.
abbrev takes_all : ℕ → Option ℕ
takes_all n = some n

-- The clock stands still.
abbrev nine : Readings
nine = λ round n. 9

abbrev quiet : Around
quiet = record { others = λ n c. c; meanwhile = λ n c. c; idle = λ n. false }

abbrev two_letters : Inner
two_letters = holding (entry (1 ∷ []) ∷ entry (2 ∷ 3 ∷ []) ∷ []) 3 100

abbrev waiting : Consumer
waiting = record connect { accept_batch = true }

nothing_left : read_batch_frame [] ≡ err end_of_stream
unfolding read_batch_frame read_exact_async
nothing_left = refl

delivery_served_example :
    (k : ℕ) × (k ≤ 2)
    × ((start_delivery two_letters asgn nine).1.ring.queue
        ≡ drop k (flush_ingress_to_ring two_letters nine).ring.queue)
    × (serve_connection quiet
          ((write_batch_vectored takes_all
              (payload_refs (start_delivery two_letters asgn nine).0)).1
            ++ [])
          waiting
        ≡ serve_batch
            (payloads (take k (flush_ingress_to_ring two_letters nine).ring.queue))
            waiting)
unfolding connect serve_batch store_batch flush_ingress_to_ring drain_pending push_batch_to_ring
    Ring.len Accumulator.take_batch
delivery_served_example =
    delivery_served two_letters asgn nine (omega arith) takes_all
      (batch_wire_bytes (payload_refs (start_delivery two_letters asgn nine).0)) quiet []
      end_of_stream waiting ((omega arith, omega arith), ((omega arith, omega arith), tt))
      (omega arith) (omega arith) refl (omega arith) nothing_left

-- A payload of `n` zero bytes.
zeros : ℕ → Bytes
zeros zero = []
zeros (suc n) = 0 ∷ zeros n

length-zeros : (n : ℕ) → length (zeros n) ≡ n
unfolding zeros
length-zeros zero = refl
length-zeros (suc n) = ap suc (length-zeros n)

-- Two messages of 32 MiB, and the byte cap that the source has as its default, 64 MiB.
abbrev two_large : Inner
two_large = holding (entry (zeros 33_554_432) ∷ entry (zeros 33_554_432) ∷ []) 67_108_864 67_108_864

two_large-IsValid : IsValid two_large.ring
two_large-IsValid = omega (arith, length-zeros 33_554_432)

delivery_too_large_example :
    (payload_refs (start_delivery two_large asgn nine).0
      ≡ payloads (take 2 (flush_ingress_to_ring two_large nine).ring.queue))
    × (write_batch_vectored takes_all (payload_refs (start_delivery two_large asgn nine).0) ≡ (
      ok (batch_wire_bytes (payload_refs (start_delivery two_large asgn nine).0)),
      encode_batch (payload_refs (start_delivery two_large asgn nine).0),
    ))
    × (serve_connection quiet
          (encode_batch (payload_refs (start_delivery two_large asgn nine).0) ++ [])
          waiting
        ≡ waiting)
unfolding connect flush_ingress_to_ring drain_pending push_batch_to_ring Ring.len
    Accumulator.take_batch
delivery_too_large_example =
    delivery_too_large two_large asgn nine two_large-IsValid takes_all
      (batch_wire_bytes (payload_refs (start_delivery two_large asgn nine).0)) quiet [] waiting
      (omega (arith, length-zeros 33_554_432)) (omega (arith, length-zeros 33_554_432))
      (omega (arith, length-zeros 33_554_432)) refl (omega arith)
