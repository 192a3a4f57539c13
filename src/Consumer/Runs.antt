-- ===== src/Consumer/Runs.antt =====
-- Concrete runs of the consumer, and its theorems at concrete inputs.
use cupidmq.Common.{length, Bytes, ◌+◌, ◌≤◌, ◌≡◌, refl, true, false, List, [], ◌∷◌, arith}
use cupidmq.Protocol.Wire.{end_of_stream, err, read_exact_async}
use cupidmq.Protocol.Control.{encode_register, encode_consumer_ready}
use cupidmq.Protocol.Batch.{read_batch_frame, inner_batch_payload_len}
use cupidmq.Consumer.{
  ConsumerConfig, Consumer, connect, store_batch, serve_batch, register, request, take_batch, send,
  pull_batch, release_prefetch_slot, handler_fails, idle,
}
use cupidmq.Consumer.Moves.{
  Reaches, started, moved, registers, requests, serves, takes, sends, pulls, releases, bit,
}
use cupidmq.Consumer.Reached.{Reaches-asks, Reaches-few}
use cupidmq.Consumer.Serving.{
  Around, serve_connection, serve_all, batch_stream, IsBatch, serve_connection-batch_stream,
}

abbrev cfg : ConsumerConfig
cfg = record {
  data_addr = b'h' ∷ b':' ∷ b'9' ∷ [];
  consumer_tag = b'c' ∷ [];
  max_batch_size_count = 32;
  prefetch_batch_count = 4;
  reconnect = true;
}

abbrev batch : List Bytes
batch = (1 ∷ 2 ∷ []) ∷ (3 ∷ []) ∷ []

-- The consumer registers, asks, gets a batch, and hands it to its handler.
abbrev c1 : Consumer
c1 = register cfg true connect

abbrev c2 : Consumer
c2 = request cfg true c1

abbrev c3 : Consumer
c3 = serve_batch batch c2

abbrev c4 : Consumer
c4 = take_batch c3

abbrev c5 : Consumer
c5 = send batch c4

abbrev c6 : Consumer
c6 = (pull_batch c5).1

abbrev c7 : Consumer
c7 = release_prefetch_slot c6

c6-Reaches : Reaches cfg 0 0 c6
unfolding connect register request serve_batch store_batch take_batch send encode_register
    encode_consumer_ready
c6-Reaches =
    moved
      (moved
        (moved
          (moved (moved (moved started (registers true refl)) (requests true refl refl))
            (serves batch))
          (takes refl refl))
        (sends batch refl (omega arith)))
      (pulls refl)

c7-Reaches : Reaches cfg 0 0 c7
unfolding connect register request serve_batch store_batch take_batch send pull_batch
    encode_register encode_consumer_ready
c7-Reaches = moved c6-Reaches (releases refl)

Reaches-asks_example : c7.prefetch ≡ true
unfolding connect register request serve_batch store_batch take_batch send pull_batch
    release_prefetch_slot encode_register encode_consumer_ready
Reaches-asks_example = Reaches-asks c7-Reaches refl refl refl

-- A handler that returns an error leaves the consumer with nothing to do, and without the right to ask.
stalled :
    let c = handler_fails c6 in
    (c.control ≡ idle) × (c.out ≡ []) × (c.handling ≡ false) × (c.prefetch ≡ false)
unfolding connect register request serve_batch store_batch take_batch send pull_batch handler_fails
    encode_register encode_consumer_ready
stalled = (refl, refl, refl, refl)

Reaches-few_example : length c6.out + bit c6.handling ≤ 1 + 0
Reaches-few_example = Reaches-few c6-Reaches

abbrev quiet : Around
quiet = record { others = λ n c. c; meanwhile = λ n c. c; idle = λ n. false }

batch-IsBatch : IsBatch batch
unfolding inner_batch_payload_len
batch-IsBatch = record { few = omega arith; items = omega arith; fits = omega arith }

nothing_left : read_batch_frame [] ≡ err end_of_stream
unfolding read_batch_frame read_exact_async
nothing_left = refl

serve_connection-batch_stream_example :
    serve_connection quiet (batch_stream (batch ∷ batch ∷ []) []) c2
    ≡ serve_all quiet 0 (batch ∷ batch ∷ []) c2
serve_connection-batch_stream_example =
    serve_connection-batch_stream quiet (batch ∷ batch ∷ []) [] end_of_stream c2
      (batch-IsBatch, (batch-IsBatch, tt)) nothing_left
