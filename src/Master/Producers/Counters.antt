-- ===== src/Master/Producers/Counters.antt =====
-- The counters of the registry are the numbers of its entries that are ready and busy.
use cupidmq.Common.{
  ltb, ◌==◌, Bool-cases, u64_mod, add_u64, ℕ, ◌+◌, ◌%◌, ◌≡◌, ap, ◌∙◌, inl, inr, Bool, true, false,
  ◌&&◌, ◌||◌, List, [], ◌∷◌, arith,
}
use cupidmq.Protocol.Control.{ProducerHeartbeat}
use cupidmq.Master.Producers.{
  ProducerState, idle, ready, busy, ProducerEntry, is_ready, is_busy, is_idle, Counts,
  transition_entry, release_busy_entry, update, entry_has_backlog,
}
use cupidmq.Master.Producers.ProducerState.{idle, ready, busy}
use cupidmq.Master.Producers.Reports.{
  assign_entry, awaits, release_if, clear_all, copy_heartbeat, promote, ring_backlog, timed_out,
  by_state, apply_heartbeat, delivered_entry, failed_entry,
}
use cupidmq.Master.Producers.Ranking.{demote, restore_entry, restore}

abbrev pub one_if : Bool → ℕ
one_if true = 1
one_if false = 0

abbrev pub ready_in : List (ℕ × ProducerEntry) → ℕ
ready_in [] = 0
ready_in ((k, e) ∷ m) = one_if (is_ready e.state) + ready_in m

abbrev pub busy_in : List (ℕ × ProducerEntry) → ℕ
busy_in [] = 0
busy_in ((k, e) ∷ m) = one_if (is_busy e.state) + busy_in m

-- The two atomics hold these numbers, up to the wrap of a `u64`.
pub record IsCount (c : Counts) (nr nb : ℕ) : Type 0 where
  pub ready_is : c.ready_count ≡ nr % u64_mod
  pub busy_is : c.busy_count ≡ nb % u64_mod

-- A change of one entry that keeps the count, whatever the other entries add to it.
abbrev pub Keeps : (Counts × ProducerEntry → Counts × ProducerEntry) → Type 0
Keeps f =
    (c : Counts) (e : ProducerEntry) (nr nb : ℕ)
    → IsCount c (nr + one_if (is_ready e.state)) (nb + one_if (is_busy e.state))
    → IsCount (f (c, e)).0 (nr + one_if (is_ready (f (c, e)).1.state))
        (nb + one_if (is_busy (f (c, e)).1.state))

pub transition_entry-Keeps : (s : ProducerState) → Keeps (transition_entry s)
unfolding transition_entry
transition_entry-Keeps s c e nr nb h = ground arith

pub release_busy_entry-Keeps : Keeps release_busy_entry
unfolding release_busy_entry
release_busy_entry-Keeps c e nr nb h = transition_entry-Keeps idle c e nr nb h

pub assign_entry-Keeps : (consumer_id now : ℕ) → Keeps (assign_entry consumer_id now)
assign_entry-Keeps consumer_id now c e nr nb h = transition_entry-Keeps busy c e nr nb h

pub release_if-Keeps : (b : Bool) → Keeps (release_if b)
release_if-Keeps true c e nr nb h = release_busy_entry-Keeps c e nr nb h
release_if-Keeps false c e nr nb h = h

pub promote-Keeps : Keeps promote
promote-Keeps c e nr nb h =
    transition_entry-Keeps ready c (record e { prdy_pending = true }) nr nb h

pub by_state-Keeps :
    (s : ProducerState) (hb : ProducerHeartbeat) (now : ℕ) (c : Counts) (e : ProducerEntry)
    (nr nb : ℕ)
    → IsCount c (nr + one_if (is_ready e.state)) (nb + one_if (is_busy e.state))
    → IsCount
        (by_state s hb now (c, e)).0
        (nr + one_if (is_ready (by_state s hb now (c, e)).1.state))
        (nb + one_if (is_busy (by_state s hb now (c, e)).1.state))
by_state-Keeps busy hb now c e nr nb h = elim (Bool-cases (ring_backlog hb)) [
  | inl backlog ↦ rw backlog (
      promote-Keeps (release_busy_entry (c, e)).0 (release_busy_entry (c, e)).1 nr nb
        (release_busy_entry-Keeps c e nr nb h))
  | inr none_left ↦ rw none_left (elim (Bool-cases (timed_out e now)) [
    | inl late ↦ rw late (release_busy_entry-Keeps c e nr nb h)
    | inr early ↦ rw early h
  ])
]
by_state-Keeps idle hb now c e nr nb h = elim (Bool-cases (ring_backlog hb)) [
  | inl backlog ↦ rw backlog (promote-Keeps c e nr nb h)
  | inr none_left ↦ rw none_left (elim (Bool-cases (ltb 0 hb.pending_messages)) [
    | inl some_left ↦ rw some_left h
    | inr all_gone ↦ rw all_gone h
  ])
]
by_state-Keeps ready hb now c e nr nb h =
    elim (Bool-cases (ring_backlog hb || ltb 0 hb.pending_messages)) [
      | inl some_left ↦ rw some_left h
      | inr all_gone ↦ rw all_gone h
    ]

pub apply_heartbeat-Keeps : (hb : ProducerHeartbeat) (now : ℕ) → Keeps (apply_heartbeat hb now)
apply_heartbeat-Keeps hb now c e nr nb h =
    by_state-Keeps e.state hb now c (copy_heartbeat hb e) nr nb h

pub delivered_entry-Keeps : (msg_count : ℕ) → Keeps (delivered_entry msg_count)
delivered_entry-Keeps msg_count c e nr nb h =
    release_busy_entry-Keeps c
      (record e {
        rate_batches = add_u64 e.rate_batches 1;
        rate_msgs = add_u64 e.rate_msgs msg_count;
      })
      nr nb h

pub failed_entry-Keeps : Keeps failed_entry
failed_entry-Keeps c e nr nb h =
    release_busy_entry-Keeps c (record e { rate_errors = add_u64 e.rate_errors 1 }) nr nb h

pub demote-Keeps : Keeps demote
demote-Keeps c e nr nb h = elim (Bool-cases (is_ready e.state)) [
  | inl was_ready ↦
      let unready : ProducerEntry = record e { prdy_pending = false } in
      rw was_ready (transition_entry-Keeps idle c unready nr nb h)
  | inr other ↦ rw other h
]

pub restore_entry-Keeps : Keeps restore_entry
restore_entry-Keeps c e nr nb h = elim (Bool-cases (entry_has_backlog e && is_idle e.state)) [
  | inl eligible ↦ rw eligible (promote-Keeps c e nr nb h)
  | inr other ↦ rw other h
]

pub recount :
    {c : Counts} {nr nr' nb nb' : ℕ} → nr ≡ nr' → nb ≡ nb' → IsCount c nr nb → IsCount c nr' nb'
recount e f h = record {
  ready_is = h.ready_is ∙ ap (λ n. n % u64_mod) e;
  busy_is = h.busy_is ∙ ap (λ n. n % u64_mod) f;
}

-- The entries that an operation goes over are one entry and the others.
one_and_others :
    (f : Counts × ProducerEntry → Counts × ProducerEntry) (c : Counts) (k : ℕ) (e : ProducerEntry)
    (m : List (ℕ × ProducerEntry)) (nr nb : ℕ)
    → Keeps f
    → IsCount c (nr + ready_in ((k, e) ∷ m)) (nb + busy_in ((k, e) ∷ m))
    → IsCount
        (f (c, e)).0
        ((nr + one_if (is_ready (f (c, e)).1.state)) + ready_in m)
        ((nb + one_if (is_busy (f (c, e)).1.state)) + busy_in m)
one_and_others f c k e m nr nb keeps h =
    recount (omega arith) (omega arith)
      (keeps c e (nr + ready_in m) (nb + busy_in m) (recount (omega arith) (omega arith) h))

pub update-IsCount :
    (f : Counts × ProducerEntry → Counts × ProducerEntry) (id : ℕ) (c : Counts)
    (m : List (ℕ × ProducerEntry)) (nr nb : ℕ)
    → Keeps f
    → IsCount c (nr + ready_in m) (nb + busy_in m)
    → IsCount
        (update f id c m).0
        (nr + ready_in (update f id c m).1)
        (nb + busy_in (update f id c m).1)
unfolding update
update-IsCount f id c [] nr nb keeps h = h
update-IsCount f id c ((k, e) ∷ m) nr nb keeps h = elim (Bool-cases (k == id)) [
  | inl found ↦
      rw found (recount (omega arith) (omega arith) (one_and_others f c k e m nr nb keeps h))
  | inr other ↦ rw other (
      recount (omega arith) (omega arith) (
        update-IsCount f id c m (nr + one_if (is_ready e.state)) (nb + one_if (is_busy e.state))
          keeps (recount (omega arith) (omega arith) h)))
]

pub clear_all-IsCount :
    (consumer_id : ℕ) (c : Counts) (m : List (ℕ × ProducerEntry)) (nr nb : ℕ)
    → IsCount c (nr + ready_in m) (nb + busy_in m)
    → IsCount
        (clear_all consumer_id c m).1
        (nr + ready_in (clear_all consumer_id c m).2)
        (nb + busy_in (clear_all consumer_id c m).2)
unfolding clear_all
clear_all-IsCount consumer_id c [] nr nb h = h
clear_all-IsCount consumer_id c ((k, e) ∷ m) nr nb h =
    let hit = awaits consumer_id e.pending_consumer_id in
    let ce = release_if hit (c, e) in
    recount (omega arith) (omega arith) (
      clear_all-IsCount consumer_id ce.0 m (nr + one_if (is_ready ce.1.state))
        (nb + one_if (is_busy ce.1.state))
        (one_and_others (release_if hit) c k e m nr nb (release_if-Keeps hit) h))

pub restore-IsCount :
    (c : Counts) (m : List (ℕ × ProducerEntry)) (nr nb : ℕ)
    → IsCount c (nr + ready_in m) (nb + busy_in m)
    → IsCount (restore c m).1 (nr + ready_in (restore c m).2) (nb + busy_in (restore c m).2)
unfolding restore
restore-IsCount c [] nr nb h = h
restore-IsCount c ((k, e) ∷ m) nr nb h =
    let ce = restore_entry (c, e) in
    recount (omega arith) (omega arith) (
      restore-IsCount ce.0 m (nr + one_if (is_ready ce.1.state)) (nb + one_if (is_busy ce.1.state))
        (one_and_others restore_entry c k e m nr nb restore_entry-Keeps h))
