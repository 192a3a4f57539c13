-- ===== src/Link/Payloads.antt =====
-- The payloads that a delivery hands out, as a batch for the consumer.
use cupidmq.Common.{
  length, take, All, length-take, u16_mod, Bytes, ℕ, zero, suc, ◌+◌, ◌*◌, ◌≤◌, ◌<◌, ◌≡◌, refl, sym,
  ap, subst, ◌∙◌, ◌⊎◌, inl, inr, List, [], ◌∷◌, map, arith,
}
use cupidmq.Protocol.Batch.{inner_batch_payload_len, max_ingress_batch_frame_bytes, sum_items}
use cupidmq.Protocol.Batch.RoundTrip.{IsItem, FitsFrame}
use cupidmq.Ring.{RingEntry, ByteRing, QueuedMessage, to_message}
use cupidmq.Ring.Invariant.{total}
use cupidmq.Producer.Drain.{Drained}
use cupidmq.Producer.Delivery.{payload_refs}
use cupidmq.Consumer.Serving.{IsBatch}

-- The payloads of some entries of the ring.
abbrev pub payloads : List RingEntry → List Bytes
payloads [] = []
payloads (e ∷ q) = e.payload ∷ payloads q

payload_refs-payloads : (q : List RingEntry) → payload_refs (map to_message q) ≡ payloads q
payload_refs-payloads [] = refl
payload_refs-payloads (e ∷ q) = ap (λ rest. e.payload ∷ rest) (payload_refs-payloads q)

length-payloads : (q : List RingEntry) → length (payloads q) ≡ length q
length-payloads [] = refl
length-payloads (e ∷ q) = ap suc (length-payloads q)

pub sum_items-payloads : (q : List RingEntry) → sum_items (payloads q) ≡ 4 * length q + total q
sum_items-payloads [] = omega arith
sum_items-payloads (e ∷ q) = omega (arith, sum_items-payloads q)

take-IsItem :
    (k : ℕ) (q : List RingEntry) → All (λ e. IsItem e.payload) q → All IsItem (payloads (take k q))
take-IsItem zero q h = tt
take-IsItem (suc k) [] h = tt
take-IsItem (suc k) (e ∷ q) (he, h) = (he, take-IsItem k q h)

-- A single message fits a frame by itself.
total_one :
    (q : List RingEntry) → All (λ e. IsItem e.payload) q → total (take 1 q) ≤ 32 * 1024 * 1024
total_one [] h = omega arith
total_one (e ∷ q) (he, h) = omega (arith, he.1)

total-take_le : (k : ℕ) (q : List RingEntry) → total (take k q) ≤ total (take (suc k) q)
total-take_le zero q = omega arith
total-take_le (suc k) [] = omega arith
total-take_le (suc k) (e ∷ q) = omega (arith, total-take_le k q)

pub total-take_mono : (j k : ℕ) (q : List RingEntry) → j ≤ k → total (take j q) ≤ total (take k q)
total-take_mono zero k q h = omega arith
total-take_mono (suc j) zero q h = absurd (omega arith)
total-take_mono (suc j) (suc k) [] h = omega arith
total-take_mono (suc j) (suc k) (e ∷ q) h = omega (arith, total-take_mono j k q (omega arith))

module _ (ring : ByteRing) (max_items cap k : ℕ) (items : List QueuedMessage)
    (left : ByteRing) where
  pub Drained-payloads :
      Drained ring max_items cap k (items, left) → payload_refs items ≡ payloads (take k ring.queue)
  Drained-payloads d =
      ap (λ out. payload_refs out.0) d.result ∙ payload_refs-payloads (take k ring.queue)

  length-Drained :
      Drained ring max_items cap k (items, left) → length (payloads (take k ring.queue)) ≤ max_items
  length-Drained d =
      omega (arith, length-payloads (take k ring.queue), length-take k ring.queue, d.few)

  pub Drained-IsBatch :
      Drained ring max_items cap k (items, left)
      → max_items < u16_mod
      → 2 + 4 * max_items + cap ≤ max_ingress_batch_frame_bytes
      → All (λ e. IsItem e.payload) ring.queue
      → IsBatch (payloads (take k ring.queue))
  unfolding inner_batch_payload_len
  Drained-IsBatch d word room all = record {
    few = omega (arith, length-Drained d);
    items = take-IsItem k ring.queue all;
    fits = fits d.small;
  }
    where
      counted : length (take k ring.queue) ≤ max_items
      counted = omega (arith, length-take k ring.queue, d.few)

      fits : (total (take k ring.queue) ≤ cap) ⊎ (k ≡ 1) → FitsFrame (payloads (take k ring.queue))
      fits (inl within) = omega (arith, sum_items-payloads (take k ring.queue), counted)
      fits (inr single) =
          let one : total (take k ring.queue) ≤ 32 * 1024 * 1024 =
            subst (λ n. total (take n ring.queue) ≤ 32 * 1024 * 1024) (sym single)
              (total_one ring.queue all) in
          omega (arith, sum_items-payloads (take k ring.queue), counted)
