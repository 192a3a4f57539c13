-- ===== src/Master/Dashboard/ConsumerRows.antt =====
-- master/src/consumers.rs: `list`, the consumers as the dashboard shows them. The fields of an entry
-- that only `list` reads stand beside the entry here.
use cupidmq.Common.{
  ltb, ◌==◌, if◌then◌else◌, ==_iff, Bool-cases, length, Bytes, ℕ, suc, ◌-◌, max, ◌≡◌, refl, sym, ap,
  ◌∙◌, inl, inr, Bool, ◌&&◌, Option, none, some, List, [], ◌∷◌,
}
use cupidmq.Master.Store.{Store, get}
use cupidmq.Master.Consumers.{Phase, ConsumerEntry}
use cupidmq.Master.Dashboard.Capacity.{
  Arith, ConsumerCapacityInput, zero_f64, hundred, per_consumer_capacity_model,
  global_capacity_model, effective_cycle_ms, effective_batch_items,
}
use cupidmq.Master.Dashboard.Rows.{
  sort_by_id, row_at, IsSorted, sort_by_id-IsSorted, row_at-sort_by_id,
}

pub record RateSample : Type 0 where
  pub ts_ms : ℕ
  pub batches : ℕ
  pub bytes : ℕ

pub record RatedConsumer (F : Type 0) : Type 0 where
  pub entry : ConsumerEntry F
  pub rate_sample : RateSample
  pub batches_per_sec : F
  pub bytes_per_sec : F

pub record ConsumerRow (F : Type 0) : Type 0 where
  pub id : ℕ
  pub consumer_tag : Bytes
  pub addr : Bytes
  pub data_addr : Bytes
  pub state : Phase
  pub batches_per_sec : F
  pub bytes_per_sec : F
  pub unacked : ℕ
  pub last_batch_items : ℕ
  pub last_batch_bytes : ℕ
  pub connected_secs : ℕ
  pub capacity_pct : F
  pub ready_cycle_ms : F
  pub avg_batch_items : F
  pub max_batch_requested : ℕ
  pub assigned_producer_id : Option ℕ

module _ {F : Type 0} (ar : Arith F) where
  -- The rates since the last sample, if it is not the first and the clock went on.
  abbrev pub with_rates : ℕ → RatedConsumer F → RatedConsumer F
  with_rates now_ms e =
      let prev = e.rate_sample in
      let dt = ar.divide (ar.as_f64 (now_ms - prev.ts_ms)) (ar.literal 1000 1) in
      if (ltb 0 prev.ts_ms && ltb prev.ts_ms now_ms) && ar.above dt (zero_f64 ar)
      then record e {
        batches_per_sec = ar.divide (ar.as_f64 (e.entry.rate_batches - prev.batches)) dt;
        bytes_per_sec = ar.divide (ar.as_f64 (e.entry.rate_bytes - prev.bytes)) dt;
      }
      else e

  unfoldable pub refresh_rates : ℕ → RatedConsumer F → RatedConsumer F
  refresh_rates now_ms e = record (with_rates now_ms e) {
    rate_sample = record {
      ts_ms = now_ms;
      batches = e.entry.rate_batches;
      bytes = e.entry.rate_bytes;
    };
  }

  unfoldable pub refresh_all : ℕ → Store (RatedConsumer F) → Store (RatedConsumer F)
  refresh_all now_ms [] = []
  refresh_all now_ms ((id, e) ∷ m) = (id, refresh_rates now_ms e) ∷ refresh_all now_ms m

  abbrev pub items_of : RatedConsumer F → F
  items_of e =
      effective_batch_items ar e.entry.batch_items_ema e.entry.last_batch_items
        e.entry.max_batch_requested

  abbrev pub input_of : RatedConsumer F → ConsumerCapacityInput F
  input_of e = record {
    batch_items = items_of e;
    cycle_ms = effective_cycle_ms ar e.entry.process_time_ema_ms;
  }

  abbrev pub inputs_of : Store (RatedConsumer F) → List (ConsumerCapacityInput F)
  inputs_of [] = []
  inputs_of ((id, e) ∷ m) = input_of e ∷ inputs_of m

  unfoldable pub row_of : ℕ → F → ℕ → ℕ → RatedConsumer F → ConsumerRow F
  row_of now demand count id e = record {
    id = id;
    consumer_tag = e.entry.consumer_tag;
    addr = e.entry.addr;
    data_addr = e.entry.data_addr;
    state = e.entry.state;
    batches_per_sec = e.batches_per_sec;
    bytes_per_sec = e.bytes_per_sec;
    unacked = e.entry.unacked;
    last_batch_items = e.entry.last_batch_items;
    last_batch_bytes = e.entry.last_batch_bytes;
    connected_secs = now - e.entry.connected_at;
    capacity_pct =
        per_consumer_capacity_model ar (items_of e)
          (effective_cycle_ms ar e.entry.process_time_ema_ms) demand count;
    ready_cycle_ms = e.entry.process_time_ema_ms;
    avg_batch_items = items_of e;
    max_batch_requested = max e.entry.max_batch_requested 1;
    assigned_producer_id = e.entry.assigned_producer_id;
  }

  abbrev pub rows_of : ℕ → F → ℕ → Store (RatedConsumer F) → List (ConsumerRow F)
  rows_of now demand count [] = []
  rows_of now demand count ((id, e) ∷ m) = row_of now demand count id e ∷ rows_of now demand count m

  -- The capacity of all, the rows, and the entries with their new samples.
  unfoldable pub list_with_capacity :
      ℕ → ℕ → F → Store (RatedConsumer F) → (F × List (ConsumerRow F)) × Store (RatedConsumer F)
  list_with_capacity now now_ms demand m =
      let refreshed = refresh_all now_ms m in
      (
        (
          global_capacity_model ar (inputs_of refreshed) demand,
          sort_by_id (λ r. r.id) (rows_of now demand (length refreshed) refreshed),
        ),
        refreshed,
      )

  abbrev pub busy_in : List (ConsumerRow F) → ℕ
  busy_in [] = 0
  busy_in (r ∷ rows) = if ltb 0 r.unacked then suc (busy_in rows) else busy_in rows

  unfoldable pub compute_consumer_capacity_fallback : List (ConsumerRow F) → ℕ → F
  compute_consumer_capacity_fallback consumers ready_count =
      let n = length consumers in
      if n == 0
      then zero_f64 ar
      else if ready_count == 0
      then hundred ar
      else ar.clamp
          (ar.times (ar.divide (ar.as_f64 (n - busy_in consumers)) (ar.as_f64 n)) (hundred ar))
          (zero_f64 ar) (hundred ar)

  abbrev pub mapped : ℕ → F → ℕ → ℕ → ℕ → Option (RatedConsumer F) → Option (ConsumerRow F)
  mapped now demand count now_ms j none = none
  mapped now demand count now_ms j (some e) =
      some (row_of now demand count j (refresh_rates now_ms e))

  rows_of-refresh_all :
      (now : ℕ) (demand : F) (count now_ms j : ℕ) (m : Store (RatedConsumer F))
      → row_at (λ r. r.id) j (rows_of now demand count (refresh_all now_ms m))
        ≡ mapped now demand count now_ms j (get j m)
  unfolding row_at refresh_all row_of get
  rows_of-refresh_all now demand count now_ms j [] = refl
  rows_of-refresh_all now demand count now_ms j ((id, e) ∷ m) = elim (Bool-cases (j == id)) [
    | inl same ↦ rw same (
        ap (λ k. some (row_of now demand count k (refresh_rates now_ms e)))
          (sym ((==_iff j id).0 same)))
    | inr other ↦ rw (other, rows_of-refresh_all now demand count now_ms j m) refl
  ]

  length-refresh_all :
      (now_ms : ℕ) (m : Store (RatedConsumer F)) → length (refresh_all now_ms m) ≡ length m
  unfolding refresh_all
  length-refresh_all now_ms [] = refl
  length-refresh_all now_ms ((id, e) ∷ m) = ap suc (length-refresh_all now_ms m)

  get-refresh_all :
      (now_ms j : ℕ) (e : RatedConsumer F) (m : Store (RatedConsumer F))
      → get j m ≡ some e
      → get j (refresh_all now_ms m) ≡ some (refresh_rates now_ms e)
  unfolding refresh_all get
  get-refresh_all now_ms j e [] h = absurd cc
  get-refresh_all now_ms j e ((id, d) ∷ m) h = elim (Bool-cases (j == id)) [
    | inl same ↦
        rw same (ap (λ o. refreshed o) (ap (λ b. if b then some d else get j m) (sym same) ∙ h))
    | inr other ↦
        rw other
          (get-refresh_all now_ms j e m (ap (λ b. if b then some d else get j m) (sym other) ∙ h))
  ]
    where
      refreshed : Option (RatedConsumer F) → Option (RatedConsumer F)
      refreshed none = none
      refreshed (some d) = some (refresh_rates now_ms d)

  -- What a counter gained in a second since a sample, or the rate of before, if there was no sample or
  -- no time has passed since.
  abbrev pub rate_since : ℕ → ℕ → ℕ → ℕ → F → F
  rate_since now_ms ts_ms count sampled before =
      let seconds = ar.divide (ar.as_f64 (now_ms - ts_ms)) (ar.literal 1000 1) in
      if (ltb 0 ts_ms && ltb ts_ms now_ms) && ar.above seconds (zero_f64 ar)
      then ar.divide (ar.as_f64 (count - sampled)) seconds
      else before

  -- A row shows an entry of the registry as it was before the listing.
  pub record Shows (now now_ms : ℕ) (demand : F) (count : ℕ) (e : RatedConsumer F)
      (r : ConsumerRow F) : Type 0 where
    pub state : r.state ≡ e.entry.state
    pub assigned : r.assigned_producer_id ≡ e.entry.assigned_producer_id
    pub addresses : (r.addr ≡ e.entry.addr) × (r.data_addr ≡ e.entry.data_addr)
    pub tag : r.consumer_tag ≡ e.entry.consumer_tag
    pub unacked : r.unacked ≡ e.entry.unacked
    pub last_batch :
        (r.last_batch_items ≡ e.entry.last_batch_items)
        × (r.last_batch_bytes ≡ e.entry.last_batch_bytes)
    pub requested : r.max_batch_requested ≡ max e.entry.max_batch_requested 1
    pub connected : r.connected_secs ≡ now - e.entry.connected_at
    pub batches :
        r.batches_per_sec
        ≡ rate_since now_ms e.rate_sample.ts_ms e.entry.rate_batches e.rate_sample.batches
            e.batches_per_sec
    pub bytes :
        r.bytes_per_sec
        ≡ rate_since now_ms e.rate_sample.ts_ms e.entry.rate_bytes e.rate_sample.bytes
            e.bytes_per_sec
    pub cycle : r.ready_cycle_ms ≡ e.entry.process_time_ema_ms
    pub items :
        r.avg_batch_items
        ≡ effective_batch_items ar e.entry.batch_items_ema e.entry.last_batch_items
            e.entry.max_batch_requested
    pub capacity :
        r.capacity_pct
        ≡ per_consumer_capacity_model ar r.avg_batch_items
            (effective_cycle_ms ar e.entry.process_time_ema_ms)
            demand
            count

  abbrev passed : ℕ → RatedConsumer F → Bool
  passed now_ms e =
      (ltb 0 e.rate_sample.ts_ms && ltb e.rate_sample.ts_ms now_ms)
      && ar.above (ar.divide (ar.as_f64 (now_ms - e.rate_sample.ts_ms)) (ar.literal 1000 1))
          (zero_f64 ar)

  row_of-Shows :
      (now now_ms : ℕ) (demand : F) (count j : ℕ) (e : RatedConsumer F)
      → Shows now now_ms demand count e (row_of now demand count j (refresh_rates now_ms e))
  unfolding row_of refresh_rates
  row_of-Shows now now_ms demand count j e = elim (Bool-cases (passed now_ms e)) [
    | inl gone_on ↦ rw gone_on (record {
      state = refl;
      assigned = refl;
      addresses = (refl, refl);
      tag = refl;
      unacked = refl;
      last_batch = (refl, refl);
      requested = refl;
      connected = refl;
      batches = rw gone_on refl;
      bytes = rw gone_on refl;
      cycle = refl;
      items = refl;
      capacity = refl;
    })
    | inr stopped ↦ rw stopped (record {
      state = refl;
      assigned = refl;
      addresses = (refl, refl);
      tag = refl;
      unacked = refl;
      last_batch = (refl, refl);
      requested = refl;
      connected = refl;
      batches = rw stopped refl;
      bytes = rw stopped refl;
      cycle = refl;
      items = refl;
      capacity = refl;
    })
  ]

  with_rates-entry : (now_ms : ℕ) (e : RatedConsumer F) → (with_rates now_ms e).entry ≡ e.entry
  with_rates-entry now_ms e = elim (Bool-cases (passed now_ms e)) [
    | inl gone_on ↦ rw gone_on refl
    | inr stopped ↦ rw stopped refl
  ]

  -- The list of the consumers has their ids in order, whatever the order in which the entries are
  -- visited, and the row of a registered consumer shows its entry: its state, the assigned producer, the
  -- addresses, the tag, the batches that are not acknowledged, the last batch, the seconds since it
  -- connected, its capacity at the demand, and what the batches and the bytes gained in a second since
  -- the last listing, or the rates of before, if there was none or no time has passed. For the next
  -- listing the time and the counters are stored with the entry, which is else as it was.
  pub list_with_capacity_lem :
      (now now_ms : ℕ) (demand : F) (j : ℕ) (e : RatedConsumer F) (m : Store (RatedConsumer F))
      → get j m ≡ some e
      → let out = list_with_capacity now now_ms demand m in
        IsSorted (λ r. r.id) 0 out.0.1
        × ((r : ConsumerRow F) × (row_at (λ r. r.id) j out.0.1 ≡ some r)
            × Shows now now_ms demand (length m) e r)
        × ((d : RatedConsumer F) × (get j out.1 ≡ some d)
            × (d.entry ≡ e.entry)
            × (d.rate_sample ≡ record {
              ts_ms = now_ms;
              batches = e.entry.rate_batches;
              bytes = e.entry.rate_bytes;
            }))
  unfolding list_with_capacity refresh_rates
  list_with_capacity_lem now now_ms demand j e m found = (
    sort_by_id-IsSorted (λ r. r.id) _,
    (
      row_of now demand (length m) j (refresh_rates now_ms e),
      row_at-sort_by_id (λ r. r.id) j _
          ∙ rows_of-refresh_all now demand (length (refresh_all now_ms m)) now_ms j m
          ∙ ap (λ n. mapped now demand n now_ms j (get j m)) (length-refresh_all now_ms m)
          ∙ ap (mapped now demand (length m) now_ms j) found,
      row_of-Shows now now_ms demand (length m) j e,
    ),
    (refresh_rates now_ms e, get-refresh_all now_ms j e m found, with_rates-entry now_ms e, refl),
  )
