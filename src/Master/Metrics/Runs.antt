-- ===== src/Master/Metrics/Runs.antt =====
-- Concrete runs of the metrics, and its theorems at concrete inputs.
use cupidmq.Common.{length, ℕ, ◌*◌, ◌≡◌, refl, true, false, none, some, List, [], ◌∷◌}
use cupidmq.Master.Producers.ProducerState.{busy}
use cupidmq.Master.Consumers.Phase.{processing, delivery_failed}
use cupidmq.Master.Ticks
use cupidmq.Master.Metrics.{
  Metrics, new, push_tick, record_transfer, record_delivery_failure, Transfer, record_transfer_tick,
  drain_ticks,
}
use cupidmq.Master.Metrics.Totals.{record_all}

abbrev sent : ℕ → ℕ → Transfer
sent c n = record {
  producer_id = 1;
  consumer_id = c;
  msg_count = n;
  batch_bytes = 10 * n;
  ok = true;
  fail_message = none;
  producer_state = busy;
  consumer_state = processing;
}

abbrev lost : Transfer
lost = record (sent 2 5) {
  ok = false;
  fail_message = some (b'n' ∷ b'o' ∷ []);
  consumer_state = delivery_failed;
}

-- A delivery, an empty one, one for no consumer, and a failure.
abbrev reports : List (Transfer × ℕ)
reports = (sent 2 3, 7) ∷ (sent 2 0, 8) ∷ (sent 0 4, 9) ∷ (lost, 10) ∷ []

abbrev after : Metrics
after = record_all reports new

counted :
    (after.transfers_total ≡ 3)
    × (after.batches_total ≡ 1)
    × (after.requeue_total ≡ 5)
    × (length (drain_ticks after).0 ≡ 2)
unfolding record_all new record_transfer_tick push_tick record_transfer record_delivery_failure
    drain_ticks Ticks.new Ticks.push Ticks.drain
counted = (refl, refl, refl, refl)
