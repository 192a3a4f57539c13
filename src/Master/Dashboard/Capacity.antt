-- ===== src/Master/Dashboard/Capacity.antt =====
-- master/src/capacity.rs: the capacity of the consumers, which the dashboard shows. Floating-point
-- numbers are a type `F` with the operations of `Arith`.
use cupidmq.Common.{ltb, ◌==◌, if◌then◌else◌, length, ℕ, Bool, ◌&&◌, List, [], ◌∷◌}

-- `f64`: a literal, written as a fraction, `f64::MAX`, `x as f64`, `a <= b`, `a > b`, and the operations.
pub record Arith (F : Type 0) : Type 0 where
  pub literal : ℕ → ℕ → F
  pub greatest : F
  pub as_f64 : ℕ → F
  pub at_most : F → F → Bool
  pub above : F → F → Bool
  pub plus : F → F → F
  pub minus : F → F → F
  pub times : F → F → F
  pub divide : F → F → F
  pub max_f64 : F → F → F
  pub clamp : F → F → F → F

pub record ConsumerCapacityInput (F : Type 0) : Type 0 where
  pub batch_items : F
  pub cycle_ms : F

module _ {F : Type 0} (ar : Arith F) where
  abbrev pub zero_f64 : F
  zero_f64 = ar.literal 0 1

  abbrev pub hundred : F
  hundred = ar.literal 100 1

  abbrev pub default_cycle_ms : F
  default_cycle_ms = ar.literal 256 1

  abbrev pub default_batch_items : F
  default_batch_items = ar.literal 32 1

  unfoldable pub observed_throughput : F → F → F
  observed_throughput batch_items cycle_ms =
      let items = ar.max_f64 batch_items (ar.literal 1 10) in
      let tau = ar.max_f64 (ar.divide cycle_ms (ar.literal 1000 1)) (ar.literal 1 1000) in
      ar.divide items tau

  unfoldable pub demand_per_sec : F → F → F
  demand_per_sec transfer_per_sec backlog_growth_per_sec =
      if ar.at_most transfer_per_sec (ar.literal 1 100)
        && ar.at_most backlog_growth_per_sec (ar.literal 1 100)
      then zero_f64
      else ar.plus transfer_per_sec (ar.max_f64 backlog_growth_per_sec zero_f64)

  unfoldable pub per_consumer_capacity_model : F → F → F → ℕ → F
  per_consumer_capacity_model batch_items cycle_ms demand consumer_count =
      if consumer_count == 0
      then zero_f64
      else if ar.at_most demand (ar.literal 1 100)
      then hundred
      else let lambda_share = ar.divide demand (ar.as_f64 consumer_count) in
        let mu = observed_throughput batch_items cycle_ms in
        ar.max_f64 (ar.times (ar.divide mu lambda_share) hundred) zero_f64

  -- `sum` of `f64` adds from the left.
  abbrev pub sum_throughput : F → List (ConsumerCapacityInput F) → F
  sum_throughput total [] = total
  sum_throughput total (c ∷ inputs) =
      sum_throughput (ar.plus total (observed_throughput c.batch_items c.cycle_ms)) inputs

  unfoldable pub global_capacity_model : List (ConsumerCapacityInput F) → F → F
  global_capacity_model inputs demand =
      if length inputs == 0
      then zero_f64
      else if ar.at_most demand (ar.literal 1 100)
      then hundred
      else ar.max_f64 (ar.times (ar.divide (sum_throughput zero_f64 inputs) demand) hundred)
          zero_f64

  unfoldable pub effective_cycle_ms : F → F
  effective_cycle_ms ema_ms = if ar.above ema_ms zero_f64 then ema_ms else default_cycle_ms

  unfoldable pub effective_batch_items : F → ℕ → ℕ → F
  effective_batch_items ema_items last_batch_items max_batch =
      if ar.above ema_items zero_f64
      then ema_items
      else if ltb 0 last_batch_items
      then ar.as_f64 last_batch_items
      else if ltb 0 max_batch
      then ar.as_f64 max_batch
      else default_batch_items
