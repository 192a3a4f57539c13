-- ===== src/Master/Dashboard/ProducerRows.antt =====
-- master/src/producers.rs: `list`, the producers as the dashboard shows them. The fields of an entry
-- that only `list` reads stand beside the entry here.
use cupidmq.Common.{
  ltb, ◌==◌, if◌then◌else◌, ==_iff, Bool-cases, Bytes, ℕ, ◌-◌, ◌≡◌, refl, sym, ap, ◌∙◌, inl, inr,
  ◌&&◌, Option, none, some, List, [], ◌∷◌,
}
use cupidmq.Master.Producers.{ProducerState, ProducerEntry, is_busy}
use cupidmq.Master.Dashboard.Capacity.{Arith, zero_f64}
use cupidmq.Master.Dashboard.Rows.{
  sort_by_id, row_at, IsSorted, sort_by_id-IsSorted, row_at-sort_by_id,
}

pub record ProducerRateSample : Type 0 where
  pub ts_ms : ℕ
  pub batches : ℕ
  pub msgs : ℕ
  pub errors : ℕ
  pub drops : ℕ

pub record RatedProducer (F : Type 0) : Type 0 where
  pub entry : ProducerEntry
  pub rate_sample : ProducerRateSample
  pub batches_per_sec : F
  pub msgs_per_sec : F
  pub errors_per_sec : F
  pub drops_per_sec : F

pub record ProducerRow (F : Type 0) : Type 0 where
  pub id : ℕ
  pub addr : Bytes
  pub state : ProducerState
  pub pending_messages : ℕ
  pub pending_bytes : ℕ
  pub ring_messages : ℕ
  pub ring_bytes : ℕ
  pub batches_per_sec : F
  pub msgs_per_sec : F
  pub errors_per_sec : F
  pub drops_per_sec : F
  pub connected_secs : ℕ
  pub assigned_consumer_id : Option ℕ

module _ {F : Type 0} (ar : Arith F) where
  abbrev pub with_rates : ℕ → RatedProducer F → RatedProducer F
  with_rates now_ms e =
      let prev = e.rate_sample in
      let dt = ar.divide (ar.as_f64 (now_ms - prev.ts_ms)) (ar.literal 1000 1) in
      if (ltb 0 prev.ts_ms && ltb prev.ts_ms now_ms) && ar.above dt (zero_f64 ar)
      then record e {
        batches_per_sec = ar.divide (ar.as_f64 (e.entry.rate_batches - prev.batches)) dt;
        msgs_per_sec = ar.divide (ar.as_f64 (e.entry.rate_msgs - prev.msgs)) dt;
        errors_per_sec = ar.divide (ar.as_f64 (e.entry.rate_errors - prev.errors)) dt;
        drops_per_sec = ar.divide (ar.as_f64 (e.entry.rate_drops - prev.drops)) dt;
      }
      else e

  unfoldable pub refresh_producer_rates : ℕ → RatedProducer F → RatedProducer F
  refresh_producer_rates now_ms e = record (with_rates now_ms e) {
    rate_sample = record {
      ts_ms = now_ms;
      batches = e.entry.rate_batches;
      msgs = e.entry.rate_msgs;
      errors = e.entry.rate_errors;
      drops = e.entry.rate_drops;
    };
  }

  unfoldable pub refresh_all : ℕ → List (ℕ × RatedProducer F) → List (ℕ × RatedProducer F)
  refresh_all now_ms [] = []
  refresh_all now_ms ((id, e) ∷ m) = (id, refresh_producer_rates now_ms e) ∷ refresh_all now_ms m

  unfoldable pub row_of : ℕ → ℕ → RatedProducer F → ProducerRow F
  row_of now id e = record {
    id = id;
    addr = e.entry.addr;
    state = e.entry.state;
    pending_messages = e.entry.pending_messages;
    pending_bytes = e.entry.pending_bytes;
    ring_messages = e.entry.ring_messages;
    ring_bytes = e.entry.ring_bytes;
    batches_per_sec = e.batches_per_sec;
    msgs_per_sec = e.msgs_per_sec;
    errors_per_sec = e.errors_per_sec;
    drops_per_sec = e.drops_per_sec;
    connected_secs = now - e.entry.connected_at;
    assigned_consumer_id = if is_busy e.entry.state then e.entry.pending_consumer_id else none;
  }

  abbrev pub rows_of : ℕ → List (ℕ × RatedProducer F) → List (ProducerRow F)
  rows_of now [] = []
  rows_of now ((id, e) ∷ m) = row_of now id e ∷ rows_of now m

  -- The rows, and the entries with their new samples.
  unfoldable pub list :
      ℕ → ℕ → List (ℕ × RatedProducer F) → List (ProducerRow F) × List (ℕ × RatedProducer F)
  list now now_ms m =
      let refreshed = refresh_all now_ms m in
      (sort_by_id (λ r. r.id) (rows_of now refreshed), refreshed)

  -- What stands at an id.
  unfoldable pub found : ℕ → List (ℕ × RatedProducer F) → Option (RatedProducer F)
  found j [] = none
  found j ((id, e) ∷ m) = if j == id then some e else found j m

  abbrev pub mapped : ℕ → ℕ → ℕ → Option (RatedProducer F) → Option (ProducerRow F)
  mapped now now_ms j none = none
  mapped now now_ms j (some e) = some (row_of now j (refresh_producer_rates now_ms e))

  rows_of-refresh_all :
      (now now_ms j : ℕ) (m : List (ℕ × RatedProducer F))
      → row_at (λ r. r.id) j (rows_of now (refresh_all now_ms m)) ≡ mapped now now_ms j (found j m)
  unfolding row_at refresh_all row_of found
  rows_of-refresh_all now now_ms j [] = refl
  rows_of-refresh_all now now_ms j ((id, e) ∷ m) = elim (Bool-cases (j == id)) [
    | inl same ↦ rw same (
        ap (λ k. some (row_of now k (refresh_producer_rates now_ms e)))
          (sym ((==_iff j id).0 same)))
    | inr other ↦ rw (other, rows_of-refresh_all now now_ms j m) refl
  ]

  -- The list of the producers has their ids in order, and the row of an id is the one of its entry,
  -- with the rates as they are now, or none if there is no such producer: the order in which the
  -- entries are visited does not matter. A row has an assigned consumer only if its producer is busy.
  pub list_lem :
      (now now_ms j : ℕ) (m : List (ℕ × RatedProducer F))
      → let rows = (list now now_ms m).0 in
        IsSorted (λ r. r.id) 0 rows × (row_at (λ r. r.id) j rows ≡ mapped now now_ms j (found j m))
  unfolding list
  list_lem now now_ms j m = (
    sort_by_id-IsSorted (λ r. r.id) _,
    row_at-sort_by_id (λ r. r.id) j _ ∙ rows_of-refresh_all now now_ms j m,
  )
