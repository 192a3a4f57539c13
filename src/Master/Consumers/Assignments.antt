-- ===== src/Master/Consumers/Assignments.antt =====
-- An assigned consumer awaits its batch, and the index knows it.
use cupidmq.Common.{
  ◌==◌, if◌then◌else◌, ==_iff, Bool-cases, Bytes, ℕ, ◌≡◌, refl, sym, ap, subst, ◌∙◌, inl, inr, Bool,
  true, false, Option, none, some, List, [], ◌∷◌, arith,
}
use cupidmq.Master.Store.{Store, get, alter, map_option, get-alter, get-remove, get-insert}
use cupidmq.Master.Consumers.{
  Floats, Phase, idle, matcher_queue, awaiting_batch, processing, delivery_failed, is_awaiting,
  ConsumerEntry, ConsumerRegistry, track_awaiting, untrack_stale, assigned_of, fresh_entry,
  register, remove_consumer, with_tag, set_unacked, cycle_entry, begin_cycle, mark_awaiting_batch,
  phase_entry, set_phase, finish_entry, finish_batch,
}
use cupidmq.Master.Consumers.Index.{tracked, tracked-track_awaiting, tracked-untrack_awaiting}

untrack_others :
    (o : Option ℕ) (id : ℕ) (awaiting : Store (List ℕ)) (p c : ℕ)
    → (c == id) ≡ false
    → tracked p c awaiting ≡ true
    → tracked p c (untrack_stale o id awaiting) ≡ true
untrack_others none id awaiting p c other h = h
untrack_others (some q) id awaiting p c other h =
    tracked-untrack_awaiting q id p c awaiting ∙ rw (other, h) (ground arith)

module _ {F : Type 0} where
  -- What an assignment of an entry must come with.
  abbrev pub IsAwaiting : Store (List ℕ) → ℕ → ConsumerEntry F → Type 0
  IsAwaiting awaiting c e =
      (p : ℕ)
      → e.assigned_producer_id ≡ some p
      → (is_awaiting e.state ≡ true) × (tracked p c awaiting ≡ true)

  -- Every consumer with an assignment is in the state `awaiting_batch`, and stands in the index under
  -- its producer.
  abbrev pub IsIndexed : ConsumerRegistry F → Type 0
  IsIndexed r =
      (c : ℕ) (e : ConsumerEntry F) → get c r.inner ≡ some e → IsAwaiting r.awaiting_by_producer c e

  unsome : {x y : ConsumerEntry F} → some x ≡ some y → x ≡ y
  unsome h = cc

  unassigned :
      (awaiting : Store (List ℕ)) (c : ℕ) (e : ConsumerEntry F)
      → e.assigned_producer_id ≡ none
      → IsAwaiting awaiting c e
  unassigned awaiting c e h p k = absurd (cc)

  -- A change of one entry and of the index, which keeps what the index says of the others.
  change-IsIndexed :
      (f : ConsumerEntry F → ConsumerEntry F) (id : ℕ) (awaiting : Store (List ℕ))
      (r : ConsumerRegistry F)
      → IsIndexed r
      → ((p c : ℕ)
          → (c == id) ≡ false
          → tracked p c r.awaiting_by_producer ≡ true
          → tracked p c awaiting ≡ true)
      → ((e : ConsumerEntry F) → get id r.inner ≡ some e → IsAwaiting awaiting id (f e))
      → IsIndexed (record r { inner = alter f id r.inner; awaiting_by_producer = awaiting })
  change-IsIndexed f id awaiting r v others this c e found =
      let looked = sym (get-alter f id c r.inner) ∙ found in
      elim (Bool-cases (c == id)) [
        | inl same ↦
            subst (λ k. IsAwaiting awaiting k e) (sym ((==_iff c id).0 same))
              (at_id (get id r.inner) refl e (
                ap (λ k. map_option f (get k r.inner)) (sym ((==_iff c id).0 same))
                ∙ sym (ap (λ b. if b then map_option f (get c r.inner) else get c r.inner) same)
                ∙ looked))
        | inr other ↦ λ p k.
            let before =
              v c e
                (sym (ap (λ b. if b then map_option f (get c r.inner) else get c r.inner) other)
                  ∙ looked)
                p k in
            (before.0, others p c other before.1)
      ]
    where
      at_id :
          (o : Option (ConsumerEntry F))
          → get id r.inner ≡ o
          → (e' : ConsumerEntry F) → map_option f o ≡ some e'
          → IsAwaiting awaiting id e'
      at_id none h e' k = absurd (cc)
      at_id (some e0) h e' k =
          let changed : f e0 ≡ e' = cc in subst (IsAwaiting awaiting id) changed (this e0 h)

  with_tag_assigned :
      (tag : Bytes) (e : ConsumerEntry F)
      → (with_tag tag e).assigned_producer_id ≡ e.assigned_producer_id
  with_tag_assigned [] e = refl
  with_tag_assigned (b ∷ bs) e = refl

  -- A change that leaves the entry without an assignment, with its old assignment untracked.
  drop-IsIndexed :
      (f : ConsumerEntry F → ConsumerEntry F) (id : ℕ) (r : ConsumerRegistry F)
      → ((e : ConsumerEntry F) → (f e).assigned_producer_id ≡ none)
      → IsIndexed r
      → IsIndexed (record r {
        inner = alter f id r.inner;
        awaiting_by_producer =
            untrack_stale (assigned_of (get id r.inner)) id r.awaiting_by_producer;
      })
  drop-IsIndexed f id r drops v =
      change-IsIndexed f id (untrack_stale (assigned_of (get id r.inner)) id r.awaiting_by_producer)
        r v (λ p c. untrack_others (assigned_of (get id r.inner)) id r.awaiting_by_producer p c)
        (λ e found. unassigned _ id (f e) (drops e))

  -- A new cycle drops the assignment of the consumer.
  pub begin_cycle-IsIndexed :
      (fl : Floats F) (id max_items : ℕ) (tag : Bytes) (ts_ms : ℕ) (r : ConsumerRegistry F)
      → IsIndexed r
      → IsIndexed (begin_cycle fl id max_items tag ts_ms r)
  unfolding begin_cycle
  begin_cycle-IsIndexed fl id max_items tag ts_ms r v =
      drop-IsIndexed (cycle_entry fl max_items tag ts_ms) id r (λ e. with_tag_assigned tag _) v

  finish_drops :
      (fl : Floats F) (n b t : ℕ) (empty : Bool) (e : ConsumerEntry F)
      → (finish_entry fl n b t empty e).assigned_producer_id ≡ none
  finish_drops fl n b t true e = refl
  finish_drops fl n b t false e = refl

  pub finish_batch-IsIndexed :
      (fl : Floats F) (id msg_count batch_bytes ts_ms : ℕ) (empty : Bool) (r : ConsumerRegistry F)
      → IsIndexed r
      → IsIndexed (finish_batch fl id msg_count batch_bytes ts_ms empty r)
  unfolding finish_batch
  finish_batch-IsIndexed fl id msg_count batch_bytes ts_ms empty r v =
      drop-IsIndexed (finish_entry fl msg_count batch_bytes ts_ms empty) id r
        (finish_drops fl msg_count batch_bytes ts_ms empty) v

  pub set_phase-IsIndexed :
      (id : ℕ) (state : Phase) (r : ConsumerRegistry F)
      → IsIndexed r
      → IsIndexed (set_phase id state r)
  unfolding set_phase
  set_phase-IsIndexed id awaiting_batch r v =
      change-IsIndexed (phase_entry awaiting_batch) id r.awaiting_by_producer r v (λ p c other h. h)
        (λ e found p k. (refl, (v id e found p k).1))
  set_phase-IsIndexed id idle r v = drop-IsIndexed (phase_entry idle) id r (λ e. refl) v
  set_phase-IsIndexed id matcher_queue r v =
      drop-IsIndexed (phase_entry matcher_queue) id r (λ e. refl) v
  set_phase-IsIndexed id processing r v = drop-IsIndexed (phase_entry processing) id r (λ e. refl) v
  set_phase-IsIndexed id delivery_failed r v =
      drop-IsIndexed (phase_entry delivery_failed) id r (λ e. refl) v

  pub mark_awaiting_batch-IsIndexed :
      (id producer_id : ℕ) (r : ConsumerRegistry F)
      → IsIndexed r
      → IsIndexed (mark_awaiting_batch id producer_id r)
  unfolding mark_awaiting_batch
  mark_awaiting_batch-IsIndexed id producer_id r v =
      change-IsIndexed _ id (track_awaiting producer_id id r.awaiting_by_producer) r v
        (λ p c other h.
          tracked-track_awaiting producer_id id p c r.awaiting_by_producer
          ∙ rw (other, h) (ground arith))
        (λ e found p k. (
          refl,
          tracked-track_awaiting producer_id id p id r.awaiting_by_producer
              ∙ (let same : producer_id ≡ p = cc in ground arith),
        ))

  pub set_unacked-IsIndexed :
      (id unacked : ℕ) (r : ConsumerRegistry F) → IsIndexed r → IsIndexed (set_unacked id unacked r)
  unfolding set_unacked
  set_unacked-IsIndexed id unacked r v =
      change-IsIndexed _ id r.awaiting_by_producer r v (λ p c other h. h)
        (λ e found p k. v id e found p k)

  pub remove_consumer-IsIndexed :
      (id : ℕ) (r : ConsumerRegistry F) → IsIndexed r → IsIndexed (remove_consumer id r)
  unfolding remove_consumer
  remove_consumer-IsIndexed id r v c e found =
      let looked = sym (get-remove id c r.inner) ∙ found in
      elim (Bool-cases (c == id)) [
        | inl same ↦
            absurd (nothing (sym (ap (λ b. if b then none else get c r.inner) same) ∙ looked))
        | inr other ↦ λ p k.
            let before =
              v c e (sym (ap (λ b. if b then none else get c r.inner) other) ∙ looked) p k in
            (
              before.0,
              untrack_others (assigned_of (get id r.inner)) id r.awaiting_by_producer p c other
                  before.1,
            )
      ]
    where
      nothing : ¬ (◌≡◌ {A = Option (ConsumerEntry F)} none (some e))
      nothing h = cc

  pub register-IsIndexed :
      (fl : Floats F) (tag : ℕ → Bytes) (addr data_addr : Bytes) (now : ℕ) (r : ConsumerRegistry F)
      → IsIndexed r
      → IsIndexed (register fl tag addr data_addr now r).1
  unfolding register
  register-IsIndexed fl tag addr data_addr now r v c e found =
      let new_entry = fresh_entry fl (tag r.next_id) addr data_addr now in
      let looked = sym (get-insert r.next_id c new_entry r.inner) ∙ found in
      elim (Bool-cases (c == r.next_id)) [
        | inl same ↦ λ p k.
            let here : new_entry ≡ e =
              unsome (sym (ap (λ b. if b then some new_entry else get c r.inner) same) ∙ looked) in
            absurd (fresh p (ap (λ x. x.assigned_producer_id) here ∙ k))
        | inr other ↦
            v c e (sym (ap (λ b. if b then some new_entry else get c r.inner) other) ∙ looked)
      ]
    where
      fresh : (p : ℕ) → ¬ (◌≡◌ {A = Option ℕ} none (some p))
      fresh p h = cc
