-- ===== src/Master/Dashboard/Counts.antt =====
-- The numbers of a snapshot fit together.
use cupidmq.Common.{
  leb, if◌then◌else◌, Bool-cases, length, ℕ, suc, ◌+◌, ◌≤◌, ◌≡◌, refl, ap, ◌∙◌, inl, inr, Bool,
  List, [], ◌∷◌, arith,
}
use cupidmq.Master.Producers.{ProducerEntry, ProducerState, is_ready, is_busy}
use cupidmq.Master.Producers.Entries.{IsRegistry}
use cupidmq.Master.Producers.Counters.{one_if, ready_in, busy_in}
use cupidmq.Master.Producers.Reachable.{IsRegistry-counts}
use cupidmq.Master.Consumers.{Phase}
use cupidmq.Master.Dashboard.Rows.{sort_by_id, insert_row}
use cupidmq.Master.Dashboard.Capacity.{Arith}
use cupidmq.Master.Dashboard.ConsumerRows.{ConsumerRow}
use cupidmq.Master.Dashboard.ProducerRows.{RatedProducer, refresh_all, rows_of, list}
use cupidmq.Master.Dashboard.Snapshot.{
  Observed, Others, alone, Clock, is_waiting, is_await_batch, is_inflight, count_in, snapshot,
}

module _ {R : Type 0} (id_of : R → ℕ) where
  length-insert_row : (r : R) (rows : List R) → length (insert_row id_of r rows) ≡ suc (length rows)
  length-insert_row r [] = refl
  length-insert_row r (s ∷ rows) = elim (Bool-cases (leb (id_of r) (id_of s))) [
    | inl before ↦ rw before refl
    | inr after ↦ rw after (ap suc (length-insert_row r rows))
  ]

  length-sort_by_id : (rows : List R) → length (sort_by_id id_of rows) ≡ length rows
  unfolding sort_by_id
  length-sort_by_id [] = refl
  length-sort_by_id (r ∷ rows) =
      length-insert_row r (sort_by_id id_of rows) ∙ ap suc (length-sort_by_id rows)

-- The entries of a registry without their rates.
abbrev pub entries : {F : Type 0} → List (ℕ × RatedProducer F) → List (ℕ × ProducerEntry)
entries [] = []
entries ((id, e) ∷ m) = (id, e.entry) ∷ entries m

module _ {F : Type 0} (ar : Arith F) where
  length-rows_of :
      (now now_ms : ℕ) (m : List (ℕ × RatedProducer F))
      → length (rows_of ar now (refresh_all ar now_ms m)) ≡ length (entries m)
  unfolding refresh_all
  length-rows_of now now_ms [] = refl
  length-rows_of now now_ms ((id, e) ∷ m) = ap suc (length-rows_of now now_ms m)

  length-list :
      (now now_ms : ℕ) (m : List (ℕ × RatedProducer F))
      → length (list ar now now_ms m).0 ≡ length (entries m)
  unfolding list
  length-list now now_ms m =
      length-sort_by_id (λ r. r.id) (rows_of ar now (refresh_all ar now_ms m))
      ∙ length-rows_of now now_ms m

counted_le : (m : List (ℕ × ProducerEntry)) → ready_in m + busy_in m ≤ length m
counted_le [] = omega arith
counted_le ((id, e) ∷ m) = one e.state (counted_le m)
  where
    one :
        (state : ProducerState)
        → ready_in m + busy_in m ≤ length m
        → (one_if (is_ready state) + ready_in m) + (one_if (is_busy state) + busy_in m)
          ≤ suc (length m)
    one ProducerState.idle h = omega arith
    one ProducerState.ready h = omega arith
    one ProducerState.busy h = omega arith

module _ {F : Type 0} where
  counts_apart :
      (rows : List (ConsumerRow F))
      → (count_in is_waiting rows + count_in is_inflight rows ≤ length rows)
        × (count_in is_await_batch rows ≤ count_in is_inflight rows)
  unfolding count_in
  counts_apart [] = (omega arith, omega arith)
  counts_apart (r ∷ rows) = one r.state (counts_apart rows)
    where
      rest : (Phase → Bool) → ℕ
      rest p = count_in p rows

      one :
          (state : Phase)
          → (rest is_waiting + rest is_inflight ≤ length rows)
            × (rest is_await_batch ≤ rest is_inflight)
          → ((if is_waiting state then suc (rest is_waiting) else rest is_waiting)
                + (if is_inflight state then suc (rest is_inflight) else rest is_inflight)
              ≤ suc (length rows))
            × ((if is_await_batch state then suc (rest is_await_batch) else rest is_await_batch)
                ≤ (if is_inflight state then suc (rest is_inflight) else rest is_inflight))
      one Phase.idle (h, k) = (omega arith, omega arith)
      one Phase.matcher_queue (h, k) = (omega arith, omega arith)
      one Phase.awaiting_batch (h, k) = (omega arith, omega arith)
      one Phase.processing (h, k) = (omega arith, omega arith)
      one Phase.delivery_failed (h, k) = (omega arith, omega arith)

  -- In every snapshot, whatever other tasks do while it is made, whatever the rates and the clocks, no
  -- consumer counts both as waiting and as in flight, and those that await a batch are in flight: the
  -- first two numbers are together at most that of the connected. If no other task runs meanwhile, and
  -- the producers are those of a registry that the master reaches, the ready and the busy ones are
  -- together at most the connected. The waiting ones are those that `snapshot` counts, which the server
  -- replaces by the length of the matchmaker's queue.
  pub snapshot_counts :
      (ar : Arith F) (others : Others F) (rates : F × F × F) (clock : Clock) (s : Observed F)
      → IsRegistry s.producers
      → entries s.rated_producers ≡ s.producers.inner
      → let snap = (snapshot ar others rates clock s).0 in
        let undisturbed = (snapshot ar alone rates clock s).0 in
        (snap.consumers_waiting + snap.consumer_inflight ≤ snap.consumers_connected)
        × (snap.consumers_await_batch ≤ snap.consumer_inflight)
        × (undisturbed.producers_ready + undisturbed.producers_busy
            ≤ undisturbed.producers_connected)
  unfolding snapshot
  snapshot_counts ar others rates clock s v same =
      let (ready, busy) = IsRegistry-counts v in
      let (apart, awaiting) = counts_apart (snapshot ar others rates clock s).0.consumers in
      (
        apart,
        awaiting,
        omega (
          arith,
          ready,
          busy,
          counted_le s.producers.inner,
          length-list ar clock.now clock.now_ms s.rated_producers,
          ap length same,
        ),
      )
