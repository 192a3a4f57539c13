-- ===== src/Master/Producers/Reachable.antt =====
-- Every registry that the master can reach has the counters of its entries.
use cupidmq.Common.{
  Bool-cases, length, u64_mod, Bytes, ℕ, ◌+◌, ◌≤◌, ◌<◌, ◌≡◌, sym, subst, inl, inr, false, not,
  Option, none, some, List, [], ◌∷◌, arith,
}
use cupidmq.Protocol.Control.{ProducerHeartbeat}
use cupidmq.Master.Producers.{
  ProducerState, idle, ProducerEntry, ProducerRegistry, new, transition_entry, release_busy_entry,
  get, counts, register, remove, set_state, state_of, entry_has_backlog, entry_backlog_weight,
}
use cupidmq.Master.Producers.ProducerState.{idle}
use cupidmq.Master.Producers.Reports.{
  mark_prdy, clear_stale_ready, mark_assigned, is_busy_state, clear_stale_busy,
  clear_assignments_to_consumer, take_pending_consumer, record_heartbeat, record_delivery,
  record_failure,
}
use cupidmq.Master.Producers.Ranking.{
  demote, Scan, weigh, consider, scan, scan_start, rank_ready_candidates, prune_one, prune,
  sync_matcher_ready_state,
}
use cupidmq.Master.Producers.Counters.{
  recount, ready_in, busy_in, transition_entry-Keeps, release_busy_entry-Keeps, assign_entry-Keeps,
  apply_heartbeat-Keeps, delivered_entry-Keeps, failed_entry-Keeps, demote-Keeps, clear_all-IsCount,
  restore-IsCount,
}
use cupidmq.Master.Producers.Entries.{
  keys, IsRegistry, clear_all-keys, restore-keys, same_keys, modify-IsRegistry, register-IsRegistry,
  remove-IsRegistry,
}

-- The public operations that change the registry.
pub data Operation : Type 0 where
  registers : Bytes → ℕ → Operation
  removes : ℕ → Operation
  sets : ℕ → ProducerState → Operation
  marks_prdy : ℕ → Operation
  clears_ready : ℕ → Operation
  assigns : ℕ → ℕ → ℕ → Operation
  clears_busy : ℕ → Operation
  clears_consumer : ℕ → Operation
  takes_consumer : ℕ → Operation
  beats : ℕ → ProducerHeartbeat → ℕ → Operation
  delivers : ℕ → ℕ → Operation
  fails : ℕ → Operation
  ranks : List ℕ → ℕ → Operation
  syncs : List ℕ → Operation

abbrev pub apply : Operation → ProducerRegistry → ProducerRegistry
apply (registers addr now) r = (register r addr now).1
apply (removes id) r = remove id r
apply (sets id s) r = set_state id s r
apply (marks_prdy id) r = mark_prdy id r
apply (clears_ready id) r = clear_stale_ready id r
apply (assigns id consumer_id now) r = mark_assigned id consumer_id now r
apply (clears_busy id) r = (clear_stale_busy id r).1
apply (clears_consumer consumer_id) r = (clear_assignments_to_consumer consumer_id r).1
apply (takes_consumer id) r = (take_pending_consumer id r).1
apply (beats id hb now) r = (record_heartbeat id hb now r).1
apply (delivers id msg_count) r = record_delivery id msg_count r
apply (fails id) r = record_failure id r
apply (ranks candidates rr) r = (rank_ready_candidates candidates rr r).registry
apply (syncs current) r = (sync_matcher_ready_state current r).2

-- A registration needs an id that is left.
abbrev pub Room : Operation → ProducerRegistry → Type 0
Room (registers addr now) r = r.next_id + 1 < u64_mod
Room _ r = Unit

-- The registries that the master reaches from the empty one, with at most 2^64 - 2 registrations.
pub data Reachable : ProducerRegistry → Type 0 where
  started : Reachable new
  stepped :
      {r : ProducerRegistry} → Reachable r → (op : Operation) → Room op r → Reachable (apply op r)

weigh_registry : (id : ℕ) (w : ℕ × ℕ) (s : Scan) → (weigh id w s).registry ≡ s.registry
weigh_registry id w s = ground arith

consider-IsRegistry :
    (id : ℕ) (o : Option ProducerEntry) (s : Scan)
    → IsRegistry s.registry
    → IsRegistry (consider id o s).registry
consider-IsRegistry id none s v = v
consider-IsRegistry id (some e) s v = elim (Bool-cases (not (entry_has_backlog e))) [
  | inl bare ↦ rw bare (modify-IsRegistry demote id s.registry demote-Keeps v)
  | inr held ↦ rw held (subst IsRegistry (sym (weigh_registry id (entry_backlog_weight e) s)) v)
]

scan-IsRegistry :
    (ids : List ℕ) (s : Scan) → IsRegistry s.registry → IsRegistry (scan ids s).registry
unfolding scan
scan-IsRegistry [] s v = v
scan-IsRegistry (id ∷ ids) s v =
    scan-IsRegistry ids _ (consider-IsRegistry id (get id s.registry.inner) s v)

prune_one-IsRegistry :
    (id : ℕ) (o : Option ProducerEntry) (s : List ℕ × ProducerRegistry)
    → IsRegistry s.1
    → IsRegistry (prune_one id o s).1
prune_one-IsRegistry id none s v = v
prune_one-IsRegistry id (some e) s v = elim (Bool-cases (not (entry_has_backlog e))) [
  | inl bare ↦ rw bare (modify-IsRegistry demote id s.1 demote-Keeps v)
  | inr held ↦ rw held v
]

prune-IsRegistry :
    (ids : List ℕ) (s : List ℕ × ProducerRegistry) → IsRegistry s.1 → IsRegistry (prune ids s).1
unfolding prune
prune-IsRegistry [] s v = v
prune-IsRegistry (id ∷ ids) s v =
    prune-IsRegistry ids _ (prune_one-IsRegistry id (get id s.1.inner) s v)

sync-IsRegistry :
    (current : List ℕ) (r : ProducerRegistry)
    → IsRegistry r
    → IsRegistry (sync_matcher_ready_state current r).2
unfolding sync_matcher_ready_state
sync-IsRegistry current r v =
    let pruned = (prune current ([], r)).1 in
    let w = prune-IsRegistry current ([], r) v in
    same_keys pruned _ _ w (restore-keys (counts pruned) pruned.inner) (
      recount (omega arith) (omega arith) (
        restore-IsCount (counts pruned) pruned.inner 0 0
          (recount (omega arith) (omega arith) w.counted)))

clear_stale_busy-IsRegistry :
    (id : ℕ) (r : ProducerRegistry) → IsRegistry r → IsRegistry (clear_stale_busy id r).1
unfolding clear_stale_busy
clear_stale_busy-IsRegistry id r v = elim (Bool-cases (is_busy_state (state_of r id))) [
  | inl stuck ↦ rw stuck (modify-IsRegistry release_busy_entry id r release_busy_entry-Keeps v)
  | inr other ↦ rw other v
]

clear_assignments-IsRegistry :
    (consumer_id : ℕ) (r : ProducerRegistry)
    → IsRegistry r
    → IsRegistry (clear_assignments_to_consumer consumer_id r).1
unfolding clear_assignments_to_consumer
clear_assignments-IsRegistry consumer_id r v =
    same_keys r _ _ v (clear_all-keys consumer_id (counts r) r.inner) (
      recount (omega arith) (omega arith) (
        clear_all-IsCount consumer_id (counts r) r.inner 0 0
          (recount (omega arith) (omega arith) v.counted)))

-- Every public operation keeps the counters right: `ready_count` and `busy_count` stay the numbers of
-- the entries that are ready and busy; a registration needs room for one more id.
pub apply-IsRegistry :
    (op : Operation) (r : ProducerRegistry) → Room op r → IsRegistry r → IsRegistry (apply op r)
unfolding set_state mark_prdy clear_stale_ready mark_assigned take_pending_consumer record_heartbeat
    record_delivery record_failure rank_ready_candidates
apply-IsRegistry (registers addr now) r h v = register-IsRegistry r addr now h v
apply-IsRegistry (removes id) r h v = remove-IsRegistry id r v
apply-IsRegistry (sets id s) r h v =
    modify-IsRegistry (transition_entry s) id r (transition_entry-Keeps s) v
apply-IsRegistry (marks_prdy id) r h v = modify-IsRegistry _ id r (λ c e nr nb k. k) v
apply-IsRegistry (clears_ready id) r h v =
    modify-IsRegistry _ id r
      (λ c e nr nb k. transition_entry-Keeps idle c (record e { prdy_pending = false }) nr nb k) v
apply-IsRegistry (assigns id consumer_id now) r h v =
    modify-IsRegistry _ id r (assign_entry-Keeps consumer_id now) v
apply-IsRegistry (clears_busy id) r h v = clear_stale_busy-IsRegistry id r v
apply-IsRegistry (clears_consumer consumer_id) r h v = clear_assignments-IsRegistry consumer_id r v
apply-IsRegistry (takes_consumer id) r h v = modify-IsRegistry _ id r (λ c e nr nb k. k) v
apply-IsRegistry (beats id hb now) r h v = modify-IsRegistry _ id r (apply_heartbeat-Keeps hb now) v
apply-IsRegistry (delivers id msg_count) r h v =
    modify-IsRegistry _ id r (delivered_entry-Keeps msg_count) v
apply-IsRegistry (fails id) r h v = modify-IsRegistry _ id r failed_entry-Keeps v
apply-IsRegistry (ranks candidates rr) r h v = scan-IsRegistry candidates (scan_start r) v
apply-IsRegistry (syncs current) r h v = sync-IsRegistry current r v

pub new-IsRegistry : IsRegistry new
unfolding new
new-IsRegistry = omega arith

Reachable-IsRegistry : {r : ProducerRegistry} → Reachable r → IsRegistry r
Reachable-IsRegistry started = new-IsRegistry
Reachable-IsRegistry (stepped {r} before op h) =
    apply-IsRegistry op r h (Reachable-IsRegistry before)

ready_in-le : (m : List (ℕ × ProducerEntry)) → ready_in m ≤ length (keys m)
ready_in-le [] = omega arith
ready_in-le ((k, e) ∷ m) = ground (arith, ready_in-le m)

busy_in-le : (m : List (ℕ × ProducerEntry)) → busy_in m ≤ length (keys m)
busy_in-le [] = omega arith
busy_in-le ((k, e) ∷ m) = ground (arith, busy_in-le m)

pub IsRegistry-counts :
    {r : ProducerRegistry}
    → IsRegistry r
    → (r.ready_count ≡ ready_in r.inner) × (r.busy_count ≡ busy_in r.inner)
IsRegistry-counts {r} v = (
  omega (arith, v.counted.ready_is, ready_in-le r.inner, v.few, v.word),
  omega (arith, v.counted.busy_is, busy_in-le r.inner, v.few, v.word),
)

-- In every registry that the master reaches, the two counters are exactly the numbers of the entries
-- that are ready and busy: no operation counts an entry twice or forgets one, and none wraps.
pub Reachable-counts :
    {r : ProducerRegistry}
    → Reachable r
    → (r.ready_count ≡ ready_in r.inner) × (r.busy_count ≡ busy_in r.inner)
Reachable-counts h = IsRegistry-counts (Reachable-IsRegistry h)
