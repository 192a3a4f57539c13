-- ===== src/Master/Metrics/Totals.antt =====
-- The counters against the transfers that were recorded.
use cupidmq.Common.{
  ◌==◌, if◌then◌else◌, u64_mod, ℕ, ◌+◌, ◌%◌, ◌≡◌, Bool, not, ◌&&◌, List, [], ◌∷◌, arith,
}
use cupidmq.Master.Metrics.{
  Metrics, push_tick, record_transfer, record_delivery_failure, Transfer, record_transfer_tick,
}

abbrev pub counts_as_delivered : Transfer → Bool
counts_as_delivered t = t.ok && (not (t.consumer_id == 0) && not (t.msg_count == 0))

abbrev pub counts_as_failed : Transfer → Bool
counts_as_failed t = not t.ok && not (t.consumer_id == 0)

-- The sum of a quantity over the transfers that pass a test.
abbrev pub sum_over : (Transfer → Bool) → (Transfer → ℕ) → List Transfer → ℕ
sum_over p f [] = 0
sum_over p f (t ∷ ts) = (if p t then f t else 0) + sum_over p f ts

unfoldable pub record_all : List (Transfer × ℕ) → Metrics → Metrics
record_all [] m = m
record_all ((t, now) ∷ ts) m = record_all ts (record_transfer_tick t now m)

abbrev pub transfers : List (Transfer × ℕ) → List Transfer
transfers [] = []
transfers ((t, now) ∷ ts) = t ∷ transfers ts

-- The totals, as sums over what was recorded.
pub record Totals (m : Metrics) (ts : List Transfer) (m' : Metrics) : Type 0 where
  pub delivered :
      m'.transfers_total % u64_mod
      ≡ (m.transfers_total + sum_over counts_as_delivered (λ t. t.msg_count) ts) % u64_mod
  pub bytes :
      m'.transfer_bytes_total % u64_mod
      ≡ (m.transfer_bytes_total + sum_over counts_as_delivered (λ t. t.batch_bytes) ts) % u64_mod
  pub batches :
      m'.batches_total % u64_mod
      ≡ (m.batches_total + sum_over counts_as_delivered (λ t. 1) ts) % u64_mod
  pub failures :
      m'.delivery_failures_total % u64_mod
      ≡ (m.delivery_failures_total + sum_over counts_as_failed (λ t. 1) ts) % u64_mod
  pub requeued :
      m'.requeue_total % u64_mod
      ≡ (m.requeue_total + sum_over counts_as_failed (λ t. t.msg_count) ts) % u64_mod

one-Totals :
    (t : Transfer) (now : ℕ) (m : Metrics) → Totals m (t ∷ []) (record_transfer_tick t now m)
unfolding record_transfer_tick push_tick record_transfer record_delivery_failure
one-Totals t now m = ground arith

-- Whatever transfers are reported, the counters hold, modulo 2^64, the messages, bytes and batches of
-- the deliveries that had any messages, and the number and messages of the failures; reports for the
-- consumer 0 count nowhere.
pub record_all-Totals :
    (ts : List (Transfer × ℕ)) (m : Metrics) → Totals m (transfers ts) (record_all ts m)
unfolding record_all
record_all-Totals [] m = omega arith
record_all-Totals ((t, now) ∷ ts) m =
    omega (arith, one-Totals t now m, record_all-Totals ts (record_transfer_tick t now m))
