-- ===== src/Master/Dashboard/Sampler.antt =====
-- master/src/server.rs and metrics_cache.rs: `run_history_sampler`, the cache of the last snapshot, and
-- the handlers of `/metrics` and `/metrics/history`. The length of the matchmaker's queue is an argument, and
-- so is what other tasks do while a snapshot is made.
use cupidmq.Common.{usize_max, ℕ, ◌-◌, ◌*◌, min, Option, none, some, List}
use cupidmq.Master.History.{
  Rates, HistoryPoint, MetricsHistory, last_rates, record_sample, list_since, list_all,
}
use cupidmq.Master.Dashboard.Capacity.{Arith}
use cupidmq.Master.Dashboard.Snapshot.{
  MetricsSnapshot, Observed, Others, Clock, snapshot, with_queue, sample_of,
}

pub record Shown (F : Type 0) : Type 0 where
  pub observed : Observed F
  pub history : MetricsHistory F
  pub cache : Option (MetricsSnapshot F)

-- `saturating_mul`
abbrev pub saturating_mul : ℕ → ℕ → ℕ
saturating_mul a b = min (a * b) usize_max

abbrev pub since_of : Option ℕ → Option ℕ → ℕ → Option ℕ
since_of (some since) minutes now = some since
since_of none (some m) now = some (now - saturating_mul m 60000)
since_of none none now = none

module _ {F : Type 0} where
  abbrev pub points_since : Option ℕ → MetricsHistory F → List (HistoryPoint F)
  points_since (some since) h = list_since since h
  points_since none h = list_all h

  unfoldable pub history_handler : Option ℕ → Option ℕ → ℕ → Shown F → List (HistoryPoint F)
  history_handler since_ms minutes now s = points_since (since_of since_ms minutes now) s.history

  module _ (fl : Rates F) (ar : Arith F) where
    -- One tick of the sampler.
    unfoldable pub sampler_tick : Others F → ℕ → Clock → ℕ → Shown F → Shown F
    sampler_tick others ts clock match_queue s =
        let (snap, observed) = snapshot ar others (last_rates fl s.history) clock s.observed in
        let shown = with_queue ar match_queue snap in
        record {
          observed = observed;
          history = record_sample fl (sample_of ar ts match_queue shown) s.history;
          cache = some shown;
        }

    abbrev pub answer :
        Others F → Clock → ℕ → Shown F → Option (MetricsSnapshot F) → MetricsSnapshot F × Shown F
    answer others clock queued s (some cached) = (with_queue ar queued cached, s)
    answer others clock queued s none =
        let (snap, observed) = snapshot ar others (last_rates fl s.history) clock s.observed in
        (with_queue ar queued snap, record s { observed = observed })

    unfoldable pub metrics_handler : Others F → Clock → ℕ → Shown F → MetricsSnapshot F × Shown F
    metrics_handler others clock queued s = answer others clock queued s s.cache
