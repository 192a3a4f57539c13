-- ===== src/Link/Delivery.antt =====
-- A delivery over a data connection: what the consumer serves of it.
use cupidmq.Common.{
  ltb, leb, ltb→lt, Bool-cases, length, take, drop, All, length-take, take_all, u16_mod, u32_mod,
  Bytes, ℕ, suc, ◌+◌, ◌*◌, ◌≤◌, ◌<◌, min, max, ◌≡◌, sym, ap, subst, ◌∙◌, ◌⊎◌, inl, inr, Option,
  some, List, ◌++◌, arith,
}
use cupidmq.Protocol.Wire.{Error, ok, err, payload_too_large}
use cupidmq.Protocol.Control.{AssignRequest}
use cupidmq.Protocol.Batch.{
  encode_batch, write_batch_vectored, batch_wire_bytes, inner_batch_payload_len, read_batch_frame,
  max_ingress_batch_frame_bytes,
}
use cupidmq.Protocol.Batch.RoundTrip.{IsItem, FitsFrame}
use cupidmq.Protocol.Batch.Limits.{
  write_batch_vectored_lem, write_batch_vectored_word, length-encode_batch,
}
use cupidmq.Protocol.Batch.Oversized.{read_batch_frame_refuses}
use cupidmq.Ring.{ByteRing}
use cupidmq.Ring.Invariant.{IsValid, total}
use cupidmq.Producer.{Inner, Readings, flush_ingress_to_ring}
use cupidmq.Producer.Drain.{Drained}
use cupidmq.Producer.Delivery.{payload_refs, start_delivery}
use cupidmq.Producer.Delivery.Outcome.{delivery_takes_oldest}
use cupidmq.Consumer.{Consumer, serve_batch}
use cupidmq.Consumer.Serving.{
  Around, reading, serve_connection, IsBatch, serve_connection_one, serve_connection_none,
}
use cupidmq.Link.Payloads.{
  payloads, sum_items-payloads, total-take_mono, Drained-payloads, Drained-IsBatch,
}

module _ (st : Inner) (assign : AssignRequest) (clock : Readings) (v : IsValid st.ring) where
  abbrev full : ByteRing
  full = (flush_ingress_to_ring st clock).ring

  abbrev most : ℕ
  most = max assign.max_items 1

  abbrev sent : List Bytes
  sent = payload_refs (start_delivery st assign clock).0

  -- A delivery whose write the system takes whole is served by the consumer, if the read begins
  -- before the consumer is closed and ends in time, as exactly the payloads of the oldest `k`
  -- messages of the flushed ring, and the others stay on the ring: `k` is at most the ASGN's
  -- `max_items`, or 1. The ring is valid, its payloads have 1 byte to 32 MiB, `max_items` is a
  -- `u16`, the byte cap of the configuration leaves room in a frame of 64 MiB for 4 bytes a message
  -- and 2 more, and what follows on the connection is no frame.
  pub delivery_served :
      (accept : ℕ → Option ℕ) (n : ℕ) (a : Around) (tail : Bytes) (e : Error) (c : Consumer)
      → All (λ entry. IsItem entry.payload) full.queue
      → most < u16_mod
      → 2 + 4 * most + st.config.max_batch_bytes ≤ max_ingress_batch_frame_bytes
      → accept (batch_wire_bytes sent) ≡ some n
      → batch_wire_bytes sent ≤ n
      → read_batch_frame tail ≡ err e
      → (k : ℕ) × (k ≤ most)
        × ((start_delivery st assign clock).1.ring.queue ≡ drop k full.queue)
        × (serve_connection a ((write_batch_vectored accept sent).1 ++ tail) c ≡ (
            reading a 0
              (λ after.
                reading a 1 (λ last. last) (serve_batch (payloads (take k full.queue)) after))
              c))
  delivery_served accept n a tail e c all word room taken whole ends =
      let (k, d) = delivery_takes_oldest st assign clock v in
      let batch : IsBatch (payloads (take k full.queue)) =
        Drained-IsBatch full most st.config.max_batch_bytes k _ _ d word room all in
      let same : sent ≡ payloads (take k full.queue) =
        Drained-payloads full most st.config.max_batch_bytes k _ _ d in
      let written : (write_batch_vectored accept sent).1 ≡ encode_batch sent =
        ap (λ out. out.1)
          (write_batch_vectored_lem accept sent n (subst FitsFrame (sym same) batch.fits) taken)
        ∙ take_all n (encode_batch sent) (omega (arith, length-encode_batch sent)) in
      (
        k,
        d.few,
        ap (λ out. out.1.queue) d.result,
        ap (λ bytes. serve_connection a (bytes ++ tail) c) (written ∙ ap encode_batch same)
            ∙ serve_connection_one a (payloads (take k full.queue)) tail e c batch ends,
      )

  -- How many messages the ASGN allows and the ring has.
  abbrev asked : ℕ
  asked = min most (length full.queue)

  all_asked :
      (k : ℕ)
      → Drained full most st.config.max_batch_bytes k
          ((start_delivery st assign clock).0, (start_delivery st assign clock).1.ring)
      → total (take asked full.queue) ≤ st.config.max_batch_bytes
      → take k full.queue ≡ take asked full.queue
  all_asked k d within = reached d.most
    where
      reached :
          (k ≡ asked) ⊎ (st.config.max_batch_bytes < total (take (suc k) full.queue))
          → take k full.queue ≡ take asked full.queue
      reached (inl e) = ap (λ n. take n full.queue) e
      reached (inr over) = elim (Bool-cases (ltb k asked)) [
        | inl more ↦ absurd (
            omega (
              arith,
              ltb→lt k asked more,
              total-take_mono (suc k) asked full.queue (omega (arith, ltb→lt k asked more)),
            ))
        | inr all ↦ elim (Bool-cases (leb most (length full.queue))) [
          | inl enough ↦ ap (λ n. take n full.queue) (ground (arith, d.few))
          | inr fewer ↦
              take_all k full.queue (ground arith) ∙ sym (take_all asked full.queue (ground arith))
        ]
      ]

  -- A delivery that the byte cap of the configuration lets through whole, and whose batch is above
  -- 64 MiB and below 4 GiB with its 4 bytes a message and 2 more, is written and reported as written,
  -- and the consumer serves nothing of it: its reader refuses the frame, whatever follows it. The ring
  -- is valid, and the system takes the whole write.
  pub delivery_too_large :
      (accept : ℕ → Option ℕ) (n : ℕ) (a : Around) (tail : Bytes) (c : Consumer)
      → total (take asked full.queue) ≤ st.config.max_batch_bytes
      → max_ingress_batch_frame_bytes < 2 + 4 * asked + total (take asked full.queue)
      → 2 + 4 * asked + total (take asked full.queue) < u32_mod
      → accept (batch_wire_bytes sent) ≡ some n
      → batch_wire_bytes sent ≤ n
      → (sent ≡ payloads (take asked full.queue))
        × (write_batch_vectored accept sent ≡ (ok (batch_wire_bytes sent), encode_batch sent))
        × (serve_connection a (encode_batch sent ++ tail) c ≡ reading a 0 (λ after. after) c)
  unfolding inner_batch_payload_len
  delivery_too_large accept n a tail c within over word taken whole =
      let (k, d) = delivery_takes_oldest st assign clock v in
      let same : sent ≡ payloads (take asked full.queue) =
        Drained-payloads full most st.config.max_batch_bytes k _ _ d
        ∙ ap payloads (all_asked k d within) in
      let size : inner_batch_payload_len sent ≡ 2 + 4 * asked + total (take asked full.queue) =
        ap inner_batch_payload_len same
        ∙ omega (arith, sum_items-payloads (take asked full.queue), length-take asked full.queue) in
      (
        same,
        write_batch_vectored_word accept sent n (omega (arith, size)) taken
            ∙ ap (λ bytes. (ok (batch_wire_bytes sent), bytes))
                (take_all n (encode_batch sent) (omega (arith, length-encode_batch sent))),
        serve_connection_none a (encode_batch sent ++ tail) payload_too_large c
            (read_batch_frame_refuses sent tail (omega (arith, size)) (omega (arith, size))),
      )
