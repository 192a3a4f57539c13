-- ===== src/Master/History/Runs.antt =====
-- Concrete runs of the history, with natural numbers for the floating-point ones, and its theorem at a
-- concrete input.
use cupidmq.Common.{length, get_elem?, ℕ, ◌-◌, ◌*◌, ◌/◌, max, ◌≡◌, refl, none, List, [], ◌∷◌, map}
use cupidmq.Master.History.{
  Rates, Sample, new, rate, rate_f64, rates_after, point_of, record_sample, rates_of, last_rates,
  since, list_since, list_all,
}
use cupidmq.Master.History.Log.{record_all, all_points, record_all-all_points}
use cupidmq.Master.Ticks.Log.{last}

abbrev naturals : Rates ℕ
naturals = record {
  zero_f64 = 0;
  as_f64 = λ n. n;
  thousandth = λ n. n / 1000;
  minus = λ a b. a - b;
  max_f64 = max;
  divide = λ a b. a / b;
}

abbrev sample_at : ℕ → Sample
sample_at i = record {
  ts = i * 1000;
  producer_backlog = i;
  producer_pending = i / 2;
  producer_ring = i / 2;
  consumer_inflight = 0;
  transfers_total = i * 10;
  transfer_bytes_total = i * 1000;
  batches_total = i;
  delivery_failures_total = 0;
  drops_total = 0;
  producers_ready = 1;
  producers_busy = 0;
  consumers_waiting = 0;
}

abbrev five_samples : List Sample
five_samples = sample_at 0 ∷ sample_at 1 ∷ sample_at 2 ∷ sample_at 3 ∷ sample_at 4 ∷ []

-- `ring_buffer_respects_cap`
ring_buffer_respects_cap :
    map (λ p. p.ts) (list_all (record_all naturals five_samples (new 3))) ≡ 2000 ∷ 3000 ∷ 4000 ∷ []
unfolding record_all record_sample new list_all point_of rates_after
ring_buffer_respects_cap = refl

rates_of_last : last_rates naturals (record_all naturals five_samples (new 3)) ≡ (10, 1, 1000)
unfolding record_all record_sample new last_rates point_of rates_after rate rate_f64
rates_of_last = refl

record_all-all_points_example :
    let log = all_points naturals none five_samples in
    let h = record_all naturals five_samples (new 3) in
    (list_all h ≡ last 3 log)
    × (list_since 3000 h ≡ since 3000 (last 3 log))
    × (last_rates naturals h ≡ rates_of naturals (get_elem? log (length log - 1)))
record_all-all_points_example = record_all-all_points naturals five_samples 3 3000
