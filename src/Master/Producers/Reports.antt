-- ===== src/Master/Producers/Reports.antt =====
-- master/src/producers.rs: what PRDY, ASGN, DELV, FAIL and the heartbeats change in the registry.
use cupidmq.Common.{
  ltb, leb, ◌==◌, if◌then◌else◌, saturating_add, add_u64, ℕ, suc, ◌-◌, Bool, true, false, ◌&&◌,
  ◌||◌, Option, none, some, List, [], ◌∷◌,
}
use cupidmq.Protocol.Control.{ProducerHeartbeat}
use cupidmq.Master.Producers.{
  ProducerState, idle, ready, busy, ProducerEntry, stale_busy_ms, ProducerRegistry, is_busy, Counts,
  transition_entry, release_busy_entry, get, counts, with_counts, modify, state_of,
}
use cupidmq.Master.Producers.ProducerState.{idle, ready, busy}

unfoldable pub mark_prdy : ℕ → ProducerRegistry → ProducerRegistry
mark_prdy id r = modify (λ ce. (ce.0, record ce.1 { prdy_pending = true })) id r

unfoldable pub clear_stale_ready : ℕ → ProducerRegistry → ProducerRegistry
clear_stale_ready id r =
    modify (λ ce. transition_entry idle (ce.0, record ce.1 { prdy_pending = false })) id r

abbrev pub assign_entry : ℕ → ℕ → Counts × ProducerEntry → Counts × ProducerEntry
assign_entry consumer_id now ce =
    let (c, e) = transition_entry busy ce in
    (c, record e { pending_consumer_id = some consumer_id; busy_since_ms = now })

unfoldable pub mark_assigned : ℕ → ℕ → ℕ → ProducerRegistry → ProducerRegistry
mark_assigned id consumer_id now r = modify (assign_entry consumer_id now) id r

abbrev pub is_busy_state : Option ProducerState → Bool
is_busy_state none = false
is_busy_state (some s) = is_busy s

-- The Boolean result is the source's.
unfoldable pub clear_stale_busy : ℕ → ProducerRegistry → Bool × ProducerRegistry
clear_stale_busy id r =
    if is_busy_state (state_of r id) then (true, modify release_busy_entry id r) else (false, r)

-- `e.pending_consumer_id == Some(consumer_id)`
abbrev pub awaits : ℕ → Option ℕ → Bool
awaits consumer_id none = false
awaits consumer_id (some c) = c == consumer_id

abbrev pub release_if : Bool → Counts × ProducerEntry → Counts × ProducerEntry
release_if b ce = if b then release_busy_entry ce else ce

-- The loop over all entries, and its count of those that it cleared.
unfoldable pub clear_all :
    ℕ → Counts → List (ℕ × ProducerEntry) → ℕ × Counts × List (ℕ × ProducerEntry)
clear_all consumer_id c [] = (0, c, [])
clear_all consumer_id c ((k, e) ∷ m) =
    let hit = awaits consumer_id e.pending_consumer_id in
    let (c', e') = release_if hit (c, e) in
    let (cleared, c'', m') = clear_all consumer_id c' m in
    (if hit then suc cleared else cleared, c'', (k, e') ∷ m')

unfoldable pub clear_assignments_to_consumer : ℕ → ProducerRegistry → ℕ × ProducerRegistry
clear_assignments_to_consumer consumer_id r =
    let (cleared, c, m) = clear_all consumer_id (counts r) r.inner in
    (cleared, with_counts r (c, m))

abbrev pub pending_of : Option ProducerEntry → Option ℕ
pending_of none = none
pending_of (some e) = e.pending_consumer_id

unfoldable pub take_pending_consumer : ℕ → ProducerRegistry → Option ℕ × ProducerRegistry
take_pending_consumer id r = (
  pending_of (get id r.inner),
  modify (λ ce. (ce.0, record ce.1 { pending_consumer_id = none })) id r,
)

-- What a heartbeat says is copied to the entry, whatever the state.
abbrev pub copy_heartbeat : ProducerHeartbeat → ProducerEntry → ProducerEntry
copy_heartbeat hb e = record e {
  pending_messages = hb.pending_messages;
  pending_bytes = hb.pending_bytes;
  ring_messages = hb.ring_messages;
  ring_bytes = hb.ring_bytes;
  rate_drops =
      if leb e.hb_drops hb.drops_total
      then add_u64 e.rate_drops (hb.drops_total - e.hb_drops)
      else e.rate_drops;
  hb_drops = hb.drops_total;
}

abbrev pub promote : Counts × ProducerEntry → Counts × ProducerEntry
promote (c, e) = transition_entry ready (c, record e { prdy_pending = true })

abbrev pub ring_backlog : ProducerHeartbeat → Bool
ring_backlog hb = ltb 0 hb.ring_messages

abbrev pub timed_out : ProducerEntry → ℕ → Bool
timed_out e now = ltb 0 e.busy_since_ms && leb stale_busy_ms (now - e.busy_since_ms)

-- The part of `record_heartbeat` after the copy, by the state of the entry.
abbrev pub by_state :
    ProducerState → ProducerHeartbeat → ℕ → Counts × ProducerEntry → Counts × ProducerEntry
by_state busy hb now (c, e) =
    let freed = release_busy_entry (c, e) in
    if ring_backlog hb then promote freed else if timed_out e now then freed else (c, e)
by_state idle hb now (c, e) =
    if ring_backlog hb
    then promote (c, e)
    else if ltb 0 hb.pending_messages
    then (c, e)
    else (c, record e { prdy_pending = false })
by_state ready hb now (c, e) =
    if ring_backlog hb || ltb 0 hb.pending_messages
    then (c, e)
    else (c, record e { prdy_pending = false })

abbrev pub apply_heartbeat : ProducerHeartbeat → ℕ → Counts × ProducerEntry → Counts × ProducerEntry
apply_heartbeat hb now (c, e) = by_state e.state hb now (c, copy_heartbeat hb e)

-- Whether the caller is to try a match again.
abbrev pub rematches : ProducerHeartbeat → Option ProducerState → Bool
rematches hb none = false
rematches hb (some busy) = ring_backlog hb
rematches hb (some idle) = ring_backlog hb
rematches hb (some ready) = false

unfoldable pub record_heartbeat :
    ℕ → ProducerHeartbeat → ℕ → ProducerRegistry → Bool × ProducerRegistry
record_heartbeat id hb now r = (rematches hb (state_of r id), modify (apply_heartbeat hb now) id r)

abbrev pub delivered_entry : ℕ → Counts × ProducerEntry → Counts × ProducerEntry
delivered_entry msg_count (c, e) =
    let counted : ProducerEntry = record e {
      rate_batches = add_u64 e.rate_batches 1;
      rate_msgs = add_u64 e.rate_msgs msg_count;
    } in
    let (c', e') = release_busy_entry (c, counted) in (c', record e' { prdy_pending = false })

unfoldable pub record_delivery : ℕ → ℕ → ProducerRegistry → ProducerRegistry
record_delivery id msg_count r = modify (delivered_entry msg_count) id r

abbrev pub failed_entry : Counts × ProducerEntry → Counts × ProducerEntry
failed_entry (c, e) =
    let (c', e') = release_busy_entry (c, record e { rate_errors = add_u64 e.rate_errors 1 }) in
    (c', record e' { prdy_pending = false })

unfoldable pub record_failure : ℕ → ProducerRegistry → ProducerRegistry
record_failure id r = modify failed_entry id r

pub record ProducerBacklogTotals : Type 0 where
  pub pending_messages : ℕ
  pub pending_bytes : ℕ
  pub ring_messages : ℕ
  pub ring_bytes : ℕ
  pub drops_total : ℕ

abbrev pub add_totals : ProducerEntry → ProducerBacklogTotals → ProducerBacklogTotals
add_totals e t = record {
  pending_messages = add_u64 t.pending_messages e.pending_messages;
  pending_bytes = add_u64 t.pending_bytes e.pending_bytes;
  ring_messages = add_u64 t.ring_messages e.ring_messages;
  ring_bytes = add_u64 t.ring_bytes e.ring_bytes;
  drops_total = saturating_add t.drops_total e.hb_drops;
}

unfoldable pub sum_totals : List (ℕ × ProducerEntry) → ProducerBacklogTotals → ProducerBacklogTotals
sum_totals [] t = t
sum_totals ((k, e) ∷ m) t = sum_totals m (add_totals e t)

unfoldable pub backlog_totals : ProducerRegistry → ProducerBacklogTotals
backlog_totals r = sum_totals r.inner (record {
  pending_messages = 0;
  pending_bytes = 0;
  ring_messages = 0;
  ring_bytes = 0;
  drops_total = 0;
})
