-- ===== src/Master/Consumers/Asking.antt =====
-- Which consumers have the state `matcher_queue`, and what the calls of the registry do to that.
use cupidmq.Common.{
  ◌==◌, if◌then◌else◌, ==_iff, Bool-cases, Bytes, ℕ, ◌≡◌, refl, sym, ap, ◌∙◌, inl, inr, Bool, true,
  false, Option, none, some, List, [], ◌∷◌, arith,
}
use cupidmq.Master.Store.{Store, get, alter, map_option, get-alter, get-remove, get-insert}
use cupidmq.Master.Consumers.{
  Floats, Phase, ConsumerEntry, ConsumerRegistry, is_awaiting, register, remove_consumer,
  set_unacked, begin_cycle, mark_awaiting_batch, release_entry, release_each,
  release_stale_assignments, set_phase, finish_entry, finish_batch,
}
use cupidmq.Master.Consumers.Phase.{matcher_queue, idle, delivery_failed}

abbrev pub is_queue : Phase → Bool
is_queue matcher_queue = true
is_queue _ = false

module _ {F : Type 0} where
  abbrev pub is_asking : Option (ConsumerEntry F) → Bool
  is_asking none = false
  is_asking (some e) = is_queue e.state

  abbrev pub asks : ConsumerRegistry F → ℕ → Bool
  asks r id = is_asking (get id r.inner)

  -- Nobody asks who did not.
  abbrev pub Quieter : Store (ConsumerEntry F) → Store (ConsumerEntry F) → Type 0
  Quieter m m' = (j : ℕ) → is_asking (get j m') ≡ true → is_asking (get j m) ≡ true

  alter-Quieter :
      (f : ConsumerEntry F → ConsumerEntry F) (id : ℕ) (m : Store (ConsumerEntry F))
      → ((e : ConsumerEntry F) → is_queue (f e).state ≡ true → is_queue e.state ≡ true)
      → Quieter m (alter f id m)
  alter-Quieter f id m h j asked =
      pick (j == id) (get j m) (ap is_asking (sym (get-alter f id j m)) ∙ asked)
    where
      pick :
          (b : Bool) (o : Option (ConsumerEntry F))
          → is_asking (if b then map_option f o else o) ≡ true
          → is_asking o ≡ true
      pick false o k = k
      pick true none k = absurd cc
      pick true (some e) k = h e k

  alter_silent :
      (f : ConsumerEntry F → ConsumerEntry F) (id : ℕ) (m : Store (ConsumerEntry F))
      → ((e : ConsumerEntry F) → is_queue (f e).state ≡ false)
      → is_asking (get id (alter f id m)) ≡ false
  alter_silent f id m h =
      let self : (id == id) ≡ true = ground arith in
      ap is_asking (get-alter f id id m) ∙ (rw self (pick (get id m)))
    where
      pick : (o : Option (ConsumerEntry F)) → is_asking (map_option f o) ≡ false
      pick none = refl
      pick (some e) = h e

  pub alter_other :
      (f : ConsumerEntry F → ConsumerEntry F) (id j : ℕ) (m : Store (ConsumerEntry F))
      → (j == id) ≡ false
      → is_asking (get j (alter f id m)) ≡ is_asking (get j m)
  alter_other f id j m other = ap is_asking (get-alter f id j m ∙ (rw other refl))

  release_entry_asks :
      (e : ConsumerEntry F) → is_queue (release_entry e).state ≡ true → is_queue e.state ≡ true
  release_entry_asks e h = elim (Bool-cases (is_awaiting e.state)) [
    | inl waits ↦ absurd (
        not_idle (
          ap
            (λ b.
              is_queue
                (if b then record e { assigned_producer_id = none; state = idle } else e).state)
            (sym waits)
          ∙ h))
    | inr other ↦
        ap
          (λ b.
            is_queue
              (if b then record e { assigned_producer_id = none; state = idle } else e).state)
          (sym other)
        ∙ h
  ]
    where
      not_idle : ¬ (false ≡ true)
      not_idle k = cc

  release_each-Quieter :
      (stale : List ℕ) (m : Store (ConsumerEntry F)) → Quieter m (release_each stale m)
  unfolding release_each
  release_each-Quieter [] m j h = h
  release_each-Quieter (id ∷ stale) m j h =
      alter-Quieter release_entry id m release_entry_asks j
        (release_each-Quieter stale (alter release_entry id m) j h)

  released :
      (b : Bool) (r : ConsumerRegistry F) (m : Store (ConsumerEntry F)) (awaiting : Store (List ℕ))
      → Quieter r.inner m
      → Quieter r.inner
          (if b then r else record r { inner = m; awaiting_by_producer = awaiting }).inner
  released true r m awaiting q j h = h
  released false r m awaiting q j h = q j h

  release-Quieter :
      (p keep : ℕ) (r : ConsumerRegistry F)
      → Quieter r.inner (release_stale_assignments p keep r).inner
  unfolding release_stale_assignments
  release-Quieter p keep r = released _ r _ _ (release_each-Quieter _ r.inner)

  -- Changed so that it does not ask, a consumer does not ask, and nobody else does who did not.
  silenced :
      (f : ConsumerEntry F → ConsumerEntry F) (id j : ℕ) (m : Store (ConsumerEntry F))
      → ((e : ConsumerEntry F) → is_queue (f e).state ≡ false)
      → is_asking (get j (alter f id m)) ≡ true
      → ((j == id) ≡ false) × (is_asking (get j m) ≡ true)
  silenced f id j m h asked = elim (Bool-cases (j == id)) [
    | inl same ↦ absurd (
        clash (
          sym (alter_silent f id m h)
          ∙ ap (λ k. is_asking (get k (alter f id m))) (sym ((==_iff j id).0 same))
          ∙ asked))
    | inr other ↦ (other, sym (alter_other f id j m other) ∙ asked)
  ]
    where
      clash : ¬ (false ≡ true)
      clash k = cc

  -- After an ASGN the consumer that it is for does not ask.
  pub assigned_asks :
      (id p j : ℕ) (r : ConsumerRegistry F)
      → asks (mark_awaiting_batch id p (release_stale_assignments p id r)) j ≡ true
      → ((j == id) ≡ false) × (asks r j ≡ true)
  unfolding mark_awaiting_batch
  assigned_asks id p j r h =
      let (other, asked) = silenced _ id j _ (λ e. refl) h in
      (other, release-Quieter p id r j asked)

  pub set_unacked_asks :
      (id n j : ℕ) (r : ConsumerRegistry F) → asks (set_unacked id n r) j ≡ true → asks r j ≡ true
  unfolding set_unacked
  set_unacked_asks id n j r h = alter-Quieter _ id r.inner (λ e k. k) j h

  pub failed_asks :
      (id j : ℕ) (r : ConsumerRegistry F)
      → asks (set_phase id delivery_failed r) j ≡ true
      → asks r j ≡ true
  unfolding set_phase
  failed_asks id j r h = (silenced _ id j r.inner (λ e. refl) h).1

  finish_entry_silent :
      (fl : Floats F) (msg_count batch_bytes now : ℕ) (b : Bool) (e : ConsumerEntry F)
      → is_queue (finish_entry fl msg_count batch_bytes now b e).state ≡ false
  finish_entry_silent fl msg_count batch_bytes now true e = refl
  finish_entry_silent fl msg_count batch_bytes now false e = refl

  pub finish_batch_asks :
      (fl : Floats F) (id msg_count batch_bytes now : ℕ) (b : Bool) (j : ℕ) (r : ConsumerRegistry F)
      → asks (finish_batch fl id msg_count batch_bytes now b r) j ≡ true
      → asks r j ≡ true
  unfolding finish_batch
  finish_batch_asks fl id msg_count batch_bytes now b j r h =
      (silenced _ id j r.inner (finish_entry_silent fl msg_count batch_bytes now b) h).1

  pub requeued_asks :
      (id j : ℕ) (r : ConsumerRegistry F)
      → (j == id) ≡ false
      → asks (set_phase id matcher_queue r) j ≡ asks r j
  unfolding set_phase
  requeued_asks id j r other = alter_other _ id j r.inner other

  pub begin_cycle_asks :
      (fl : Floats F) (id max_items : ℕ) (tag : Bytes) (now j : ℕ) (r : ConsumerRegistry F)
      → (j == id) ≡ false
      → asks (begin_cycle fl id max_items tag now r) j ≡ asks r j
  unfolding begin_cycle
  begin_cycle_asks fl id max_items tag now j r other = alter_other _ id j r.inner other

  when :
      (b : Bool) (o p : Option (ConsumerEntry F))
      → is_asking o ≡ false
      → is_asking (if b then o else p) ≡ true
      → (b ≡ false) × (is_asking p ≡ true)
  when true o p h k = absurd cc
  when false o p h k = (refl, k)

  pub remove_consumer_asks :
      (id j : ℕ) (r : ConsumerRegistry F)
      → asks (remove_consumer id r) j ≡ true
      → ((j == id) ≡ false) × (asks r j ≡ true)
  unfolding remove_consumer
  remove_consumer_asks id j r h =
      when (j == id) none (get j r.inner) refl (ap is_asking (sym (get-remove id j r.inner)) ∙ h)

  pub register_asks :
      (fl : Floats F) (tag : ℕ → Bytes) (addr data_addr : Bytes) (now j : ℕ)
      (r : ConsumerRegistry F)
      → asks (register fl tag addr data_addr now r).1 j ≡ true
      → asks r j ≡ true
  unfolding register
  register_asks fl tag addr data_addr now j r h =
      (when (j == r.next_id) _ (get j r.inner) refl
        (ap is_asking (sym (get-insert r.next_id j _ r.inner)) ∙ h)).1
