-- ===== src/Master/History.antt =====
-- master/src/metrics_history.rs: the samples that the dashboard's charts show. The arguments of
-- `record` are the fields of a `Sample`; floating-point numbers are a type `F` with the operations of
-- `Rates`. A call takes its locks one after the other; it is one step here.
pub mod Log
mod Runs
use cupidmq.Common.{
  ltb, leb, ◌==◌, if◌then◌else◌, ltb→lt, ltb→le, lt→ltb, le→ltb, le→leb, lt→leb, ==_iff, Bool-cases,
  Option-cases, length, take, drop, get_elem?, All, length-append, take-append-drop, length-take,
  length-drop, take_all, take-append_length, drop-append_length, length-reverse, length-map,
  All-append, All-map, take-min-length, drop-min-length, take-append_le, take-take,
  drop-take-append, take-map, drop-map, u16_mod, u32_mod, u64_mod, usize_max, saturating_add,
  as_u16, as_u32, add_u32, add_u64, sub_u64, Bytes, ℕ, zero, suc, ◌+◌, ◌-◌, ◌*◌, ◌/◌, ◌%◌, ◌^◌, ◌≤◌,
  ◌<◌, min, max, ◌≡◌, refl, sym, ap, ap₂, subst, ◌∙◌, ◌≢◌, ◌↔◌, ◌⊎◌, inl, inr, Bool, true, false,
  not, ◌&&◌, ◌||◌, Option, none, some, List, [], ◌∷◌, ◌++◌, map, reverse, flatten, append-nil,
  append_assoc, map-append, reverse-append, reverse-reverse, reverse-cons, arith,
}

-- `f64`: `0.0`, `x as f64`, and the operations of the rates.
pub record Rates (F : Type 0) : Type 0 where
  pub zero_f64 : F
  pub as_f64 : ℕ → F
  pub thousandth : F → F
  pub minus : F → F → F
  pub max_f64 : F → F → F
  pub divide : F → F → F

pub record HistoryPoint (F : Type 0) : Type 0 where
  pub ts : ℕ
  pub producer_backlog : ℕ
  pub producer_pending : ℕ
  pub producer_ring : ℕ
  pub consumer_inflight : ℕ
  pub transfer_per_sec : F
  pub batches_per_sec : F
  pub bytes_per_sec : F
  pub delivery_failures_per_sec : F
  pub drops_per_sec : F
  pub drops_total : ℕ
  pub producers_ready : ℕ
  pub producers_busy : ℕ
  pub consumers_waiting : ℕ

pub record RateCounters : Type 0 where
  pub ts : ℕ
  pub transfers_total : ℕ
  pub transfer_bytes_total : ℕ
  pub batches_total : ℕ
  pub delivery_failures_total : ℕ
  pub drops_total : ℕ

-- The arguments of `record`.
pub record Sample : Type 0 where
  pub ts : ℕ
  pub producer_backlog : ℕ
  pub producer_pending : ℕ
  pub producer_ring : ℕ
  pub consumer_inflight : ℕ
  pub transfers_total : ℕ
  pub transfer_bytes_total : ℕ
  pub batches_total : ℕ
  pub delivery_failures_total : ℕ
  pub drops_total : ℕ
  pub producers_ready : ℕ
  pub producers_busy : ℕ
  pub consumers_waiting : ℕ

pub record MetricsHistory (F : Type 0) : Type 0 where
  pub points : List (HistoryPoint F)
  pub last : Option RateCounters
  pub cap : ℕ

abbrev pub counters_of : Sample → RateCounters
counters_of s = record {
  ts = s.ts;
  transfers_total = s.transfers_total;
  transfer_bytes_total = s.transfer_bytes_total;
  batches_total = s.batches_total;
  delivery_failures_total = s.delivery_failures_total;
  drops_total = s.drops_total;
}

module _ {F : Type 0} where
  unfoldable pub new : ℕ → MetricsHistory F
  new cap = record { points = []; last = none; cap = max cap 1 }

  module _ (fl : Rates F) where
    unfoldable pub rate : ℕ → ℕ → F → F
    rate now before dt_sec = fl.divide (fl.as_f64 (now - before)) dt_sec

    unfoldable pub rate_f64 : F → F → F → F
    rate_f64 now before dt_sec = fl.divide (fl.max_f64 (fl.minus now before) fl.zero_f64) dt_sec

    abbrev pub no_rates : F × F × F × F × F
    no_rates = (fl.zero_f64, fl.zero_f64, fl.zero_f64, fl.zero_f64, fl.zero_f64)

    -- The rates of a sample after the counters of the one before it.
    unfoldable pub rates_after : Option RateCounters → Sample → F × F × F × F × F
    rates_after none s = no_rates
    rates_after (some p) s =
        let dt_ms = s.ts - p.ts in
        let dt = fl.thousandth (fl.as_f64 dt_ms) in
        if ltb 0 dt_ms
        then (
          rate s.transfers_total p.transfers_total dt,
          rate s.batches_total p.batches_total dt,
          rate_f64 (fl.as_f64 s.transfer_bytes_total) (fl.as_f64 p.transfer_bytes_total) dt,
          rate s.delivery_failures_total p.delivery_failures_total dt,
          rate s.drops_total p.drops_total dt,
        )
        else no_rates

    unfoldable pub point_of : Option RateCounters → Sample → HistoryPoint F
    point_of prev s =
        let (transfer, batches, bytes, failures, drops) = rates_after prev s in
        record {
          ts = s.ts;
          producer_backlog = s.producer_backlog;
          producer_pending = s.producer_pending;
          producer_ring = s.producer_ring;
          consumer_inflight = s.consumer_inflight;
          transfer_per_sec = transfer;
          batches_per_sec = batches;
          bytes_per_sec = bytes;
          delivery_failures_per_sec = failures;
          drops_per_sec = drops;
          drops_total = s.drops_total;
          producers_ready = s.producers_ready;
          producers_busy = s.producers_busy;
          consumers_waiting = s.consumers_waiting;
        }

    unfoldable pub record_sample : Sample → MetricsHistory F → MetricsHistory F
    record_sample s h =
        let points = h.points ++ (point_of h.last s ∷ []) in
        record {
          points =
              if ltb h.cap (length points) then drop (length points - h.cap) points else points;
          last = some (counters_of s);
          cap = h.cap;
        }

    abbrev pub rates_of : Option (HistoryPoint F) → F × F × F
    rates_of none = (fl.zero_f64, fl.zero_f64, fl.zero_f64)
    rates_of (some p) = (p.transfer_per_sec, p.batches_per_sec, p.bytes_per_sec)

    unfoldable pub last_rates : MetricsHistory F → F × F × F
    last_rates h = rates_of (get_elem? h.points (length h.points - 1))

  unfoldable pub since : ℕ → List (HistoryPoint F) → List (HistoryPoint F)
  since ts [] = []
  since ts (p ∷ points) = let rest = since ts points in if leb ts p.ts then p ∷ rest else rest

  unfoldable pub list_since : ℕ → MetricsHistory F → List (HistoryPoint F)
  list_since ts h = since ts h.points

  unfoldable pub list_all : MetricsHistory F → List (HistoryPoint F)
  list_all h = h.points
