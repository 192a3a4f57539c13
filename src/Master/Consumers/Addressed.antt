-- ===== src/Master/Consumers/Addressed.antt =====
-- The texts of every registered consumer fit an ASGN.
use cupidmq.Common.{
  ltb, ◌==◌, if◌then◌else◌, Bool-cases, All, Bytes, ℕ, ◌≡◌, refl, sym, ap, subst, ◌∙◌, inl, inr,
  Bool, true, false, ◌&&◌, Option, none, some, List, [], ◌∷◌,
}
use cupidmq.Protocol.Control.{ReadyRequest}
use cupidmq.Master.Store.{Store, get, remove, insert, alter, without}
use cupidmq.Master.Consumers.{
  Floats, ConsumerEntry, ConsumerRegistry, null, awaiting_of, fresh_entry, register,
  remove_consumer, edit, with_tag, set_unacked, sample_cycle, cycle_entry, begin_cycle,
  mark_awaiting_batch, release_entry, release_each, release_stale_assignments, phase_entry,
  set_phase, context_of, match_context, finish_entry, finish_batch, is_awaiting, new,
  update_batch_items_ema,
}
use cupidmq.Master.Consumers
use cupidmq.Master.Consumers.Reachable.{
  Operation, registers, removes, begins, marks, releases, phases, finishes, unacks, IsTag,
  IsDataAddr, Fits, apply,
}

module _ {ℓ κ} {V : Type ℓ} (P : V → Type κ) where
  abbrev pub Entries : Store V → Type κ
  Entries m = All (λ x. P x.1) m

  alter-Entries :
      (f : V → V) (id : ℕ) (m : Store V)
      → ((v : V) → P v → P (f v))
      → Entries m
      → Entries (alter f id m)
  unfolding alter
  alter-Entries f id [] h all = tt
  alter-Entries f id ((k, v) ∷ m) h (first, all) = elim (Bool-cases (id == k)) [
    | inl same ↦ rw same (h v first, alter-Entries f id m h all)
    | inr other ↦ rw other (first, alter-Entries f id m h all)
  ]

  remove-Entries : (id : ℕ) (m : Store V) → Entries m → Entries (remove id m)
  unfolding remove
  remove-Entries id [] all = tt
  remove-Entries id ((k, v) ∷ m) (first, all) = elim (Bool-cases (id == k)) [
    | inl same ↦ rw same (remove-Entries id m all)
    | inr other ↦ rw other (first, remove-Entries id m all)
  ]

  get-Entries : (id : ℕ) (m : Store V) (v : V) → Entries m → get id m ≡ some v → P v
  unfolding get
  get-Entries id [] v all h = absurd (cc)
  get-Entries id ((k, w) ∷ m) v (first, all) h = elim (Bool-cases (id == k)) [
    | inl same ↦ subst P (unsome (sym (ap (λ b. if b then some w else get id m) same) ∙ h)) first
    | inr other ↦ get-Entries id m v all (sym (ap (λ b. if b then some w else get id m) other) ∙ h)
  ]
    where
      unsome : {x y : V} → some x ≡ some y → x ≡ y
      unsome e = cc

module _ {F : Type 0} where
  abbrev pub HasTexts : ConsumerEntry F → Type 0
  HasTexts e = IsTag e.consumer_tag × IsDataAddr e.data_addr

  abbrev pub IsAddressed : ConsumerRegistry F → Type 0
  IsAddressed r = Entries HasTexts r.inner

  release_entry-HasTexts : (e : ConsumerEntry F) → HasTexts e → HasTexts (release_entry e)
  release_entry-HasTexts e h = elim (Bool-cases (is_awaiting e.state)) [
    | inl held ↦ rw held h
    | inr other ↦ rw other h
  ]

  release_each-Entries :
      (stale : List ℕ) (m : Store (ConsumerEntry F))
      → Entries HasTexts m
      → Entries HasTexts (release_each stale m)
  unfolding release_each
  release_each-Entries [] m all = all
  release_each-Entries (cid ∷ stale) m all =
      release_each-Entries stale (alter release_entry cid m)
        (alter-Entries HasTexts release_entry cid m release_entry-HasTexts all)

  with_tag-HasTexts :
      (tag : Bytes) (e : ConsumerEntry F) → IsTag tag → HasTexts e → HasTexts (with_tag tag e)
  with_tag-HasTexts [] e short h = h
  with_tag-HasTexts (b ∷ bs) e short h = (short, h.1)

  cycle_entry-HasTexts :
      (fl : Floats F) (n : ℕ) (tag : Bytes) (ts : ℕ) (e : ConsumerEntry F)
      → IsTag tag
      → HasTexts e
      → HasTexts (cycle_entry fl n tag ts e)
  cycle_entry-HasTexts fl n tag ts e short h = with_tag-HasTexts tag _ short sampled
    where
      sampled : HasTexts (sample_cycle fl ts e)
      sampled =
          elim (Bool-cases (ltb 0 e.last_batch_delivered_ms && ltb e.last_batch_delivered_ms ts)) [
            | inl timed ↦ rw timed h
            | inr untimed ↦ rw untimed h
          ]

  phase_entry-HasTexts :
      (state : Consumers.Phase) (e : ConsumerEntry F) → HasTexts e → HasTexts (phase_entry state e)
  phase_entry-HasTexts state e h = elim (Bool-cases (is_awaiting state)) [
    | inl held ↦ rw held h
    | inr other ↦ rw other h
  ]

  finish_entry-HasTexts :
      (fl : Floats F) (n b ts : ℕ) (bare : Bool) (e : ConsumerEntry F)
      → HasTexts e
      → HasTexts (finish_entry fl n b ts bare e)
  finish_entry-HasTexts fl n b ts true e h = h
  finish_entry-HasTexts fl n b ts false e h = elim (Bool-cases (n == 0)) [
    | inl none_sent ↦ rw none_sent h
    | inr sent ↦ rw sent h
  ]

  -- Every call whose texts fit keeps the texts of all consumers fit.
  pub apply-IsAddressed :
      (fl : Floats F) (tag : ℕ → Bytes)
      → ((id : ℕ) → IsTag (tag id))
      → (op : Operation) (r : ConsumerRegistry F) → Fits op
      → IsAddressed r
      → IsAddressed (apply fl tag op r)
  unfolding register insert remove_consumer begin_cycle mark_awaiting_batch
      release_stale_assignments set_phase finish_batch set_unacked
  apply-IsAddressed fl tag short (registers addr data_addr now) r fits all =
      ((short r.next_id, fits), remove-Entries HasTexts r.next_id r.inner all)
  apply-IsAddressed fl tag short (removes id) r fits all = remove-Entries HasTexts id r.inner all
  apply-IsAddressed fl tag short (begins id max_items consumer_tag ts_ms) r fits all =
      alter-Entries HasTexts _ id r.inner
        (λ e. cycle_entry-HasTexts fl max_items consumer_tag ts_ms e fits) all
  apply-IsAddressed fl tag short (marks id producer_id) r fits all =
      alter-Entries HasTexts _ id r.inner (λ e h. h) all
  apply-IsAddressed fl tag short (releases producer_id keep) r fits all =
      elim (Bool-cases
        (null (without keep (awaiting_of (get producer_id r.awaiting_by_producer))))) [
          | inl none_stale ↦ rw none_stale all
          | inr stale ↦ rw stale (release_each-Entries _ r.inner all)
        ]
  apply-IsAddressed fl tag short (phases id state) r fits all =
      alter-Entries HasTexts _ id r.inner (phase_entry-HasTexts state) all
  apply-IsAddressed fl tag short (finishes id msg_count batch_bytes ts_ms bare) r fits all =
      alter-Entries HasTexts _ id r.inner
        (finish_entry-HasTexts fl msg_count batch_bytes ts_ms bare) all
  apply-IsAddressed fl tag short (unacks id unacked) r fits all =
      alter-Entries HasTexts _ id r.inner (λ e h. h) all

  -- The context that a consumer is matched in has texts that fit.
  pub match_context-IsAddressed :
      (r : ConsumerRegistry F) (id : ℕ) (request : ReadyRequest) (data_addr : Bytes)
      → IsAddressed r
      → match_context r id ≡ some (request, data_addr)
      → IsTag request.consumer_tag × IsDataAddr data_addr
  unfolding match_context
  match_context-IsAddressed r id request data_addr all h = go (get id r.inner) refl h
    where
      go :
          (o : Option (ConsumerEntry F))
          → get id r.inner ≡ o
          → context_of o ≡ some (request, data_addr)
          → IsTag request.consumer_tag × IsDataAddr data_addr
      go none e k = absurd (cc)
      go (some entry) e k =
          let texts = get-Entries HasTexts id r.inner entry all e in
          let same = unsome k in
          (
            subst (λ x. IsTag x.0.consumer_tag) same texts.0,
            subst (λ x. IsDataAddr x.1) same texts.1,
          )
        where
          unsome : {x y : ReadyRequest × Bytes} → some x ≡ some y → x ≡ y
          unsome e = cc
