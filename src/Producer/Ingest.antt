-- ===== src/Producer/Ingest.antt =====
-- From `publish_batch` to the ring: what is pushed on the ring is what was published, in order.
use cupidmq.Common.{
  length, Bytes, ℕ, suc, ◌-◌, ◌≡◌, refl, sym, ap, subst, ◌∙◌, Bool, false, ◌||◌, Option, none, some,
  List, [], ◌∷◌, ◌++◌, flatten, append-nil, append_assoc,
}
use cupidmq.Ring.{ByteRing, RingEntry, to_message}
use cupidmq.Ring
use cupidmq.Ring.Drain.{pop_front-cons}
use cupidmq.Accumulator.{BatchAccumulator, to_list}
use cupidmq.Accumulator
use cupidmq.Accumulator.Order.{in_order-push, take_batch_all}
use cupidmq.Producer.{
  Inner, Readings, push_batch_to_ring, push_batches, accumulate, drain_pending, flushed,
  flush_ingress_to_ring,
}

abbrev pub payloads : List RingEntry → List Bytes
payloads [] = []
payloads (e ∷ q) = e.payload ∷ payloads q

-- Payloads are pushed on a ring one by one, each at a time of `Time`.
pub data Pushes (Time : ℕ → Type 0) : ByteRing → List Bytes → ByteRing → Type 0 where
  all_pushed : {r : ByteRing} → Pushes Time r [] r
  pushes :
      {r s : ByteRing} {xs : List Bytes}
      → (x : Bytes) (now : ℕ) → Time now
      → Pushes Time (Ring.push r x now).0 xs s
      → Pushes Time r (x ∷ xs) s

-- The times that the clock showed.
abbrev pub Shown : Readings → ℕ → Type 0
Shown clock now = (i : ℕ) × (j : ℕ) × (clock i j ≡ now)

module _ (Time : ℕ → Type 0) where
  Pushes-append :
      (xs ys : List Bytes) (r s t : ByteRing)
      → Pushes Time r xs s
      → Pushes Time s ys t
      → Pushes Time r (xs ++ ys) t
  Pushes-append _ ys r _ t all_pushed k = k
  Pushes-append _ ys r s t (pushes {xs} x now shown h) k =
      pushes x now shown (Pushes-append xs ys (Ring.push r x now).0 s t h k)

  push_batch_to_ring-Pushes :
      (r : ByteRing) (batch : List Bytes) (now : ℕ)
      → Time now
      → Pushes Time r batch (push_batch_to_ring r batch now)
  unfolding push_batch_to_ring
  push_batch_to_ring-Pushes r [] now shown = all_pushed
  push_batch_to_ring-Pushes r (x ∷ batch) now shown =
      pushes x now shown (push_batch_to_ring-Pushes (Ring.push r x now).0 batch now shown)

  push_batches-Pushes :
      (r : ByteRing) (batches : List (List Bytes)) (clock : ℕ → ℕ)
      → ((n : ℕ) → Time (clock n))
      → Pushes Time r (flatten batches) (push_batches r batches clock)
  unfolding push_batches flatten
  push_batches-Pushes r [] clock shown = all_pushed
  push_batches-Pushes r (batch ∷ batches) clock shown =
      Pushes-append batch (flatten batches) r (push_batch_to_ring r batch (clock 0)) _
        (push_batch_to_ring-Pushes r batch (clock 0) (shown 0))
        (push_batches-Pushes (push_batch_to_ring r batch (clock 0)) batches (λ n. clock (suc n))
          (λ n. shown (suc n)))

  -- What was pushed so far since the ring was `r`, and, with the items of the accumulator, what came in.
  record Ingested (r : ByteRing) (came : List Bytes) (st : Inner) : Type 0 where
    so_far : List Bytes
    pushed : Pushes Time r so_far st.ring
    whole : so_far ++ st.accumulator.items ≡ came

  accumulate-Ingested :
      (r : ByteRing) (came : List Bytes) (st : Inner) (e : RingEntry) (pending : ByteRing)
      (clock : ℕ → ℕ)
      → ((n : ℕ) → Time (clock n))
      → Ingested r came st
      → Ingested r (came ++ (e.payload ∷ [])) (accumulate st (to_message e) pending clock).0
  accumulate-Ingested r came st e pending clock shown v = record {
    so_far = v.so_far ++ flatten out.0;
    pushed =
        Pushes-append v.so_far (flatten out.0) r st.ring _ v.pushed
          (push_batches-Pushes st.ring out.0 (λ n. clock (suc n)) (λ n. shown (suc n)));
    whole =
        append_assoc v.so_far (flatten out.0) out.1.items
        ∙ ap (λ items. v.so_far ++ items) (in_order-push st.accumulator e.payload (clock 0))
        ∙ sym (append_assoc v.so_far st.accumulator.items (e.payload ∷ []))
        ∙ ap (λ items. items ++ (e.payload ∷ [])) v.whole;
  }
    where
      out : List (List Bytes) × BatchAccumulator
      out = Accumulator.push st.accumulator e.payload (clock 0)

module _ (n : ℕ) (st : Inner) (gained : Bool) (clock : Readings) (x : RingEntry)
    (q : List RingEntry) where
  abbrev popped : ByteRing
  popped = record st.pending { queue = q; bytes = st.pending.bytes - Ring.size x }

  abbrev after_one : Inner × Bool
  after_one = accumulate st (to_message x) popped (clock (suc n))

  drain_pending_step :
      st.pending.queue ≡ x ∷ q
      → drain_pending (suc n) st gained clock
        ≡ drain_pending n after_one.0 (gained || after_one.1) clock
  unfolding drain_pending
  drain_pending_step e = rw (pop_front-cons st.pending x q e, drain_pending)

drain_pending_lem :
    (Time : ℕ → Type 0) (r : ByteRing) (came : List Bytes) (q : List RingEntry) (st : Inner)
    (gained : Bool) (clock : Readings)
    → ((i j : ℕ) → Time (clock i j))
    → st.pending.queue ≡ q
    → Ingested Time r came st
    → ((drain_pending (length q) st gained clock).0.pending.queue ≡ [])
      × Ingested Time r (came ++ payloads q) (drain_pending (length q) st gained clock).0
drain_pending_lem Time r came [] st gained clock shown e v =
    unfold drain_pending in (e, subst (λ all. Ingested Time r all st) (sym (append-nil came)) v)
drain_pending_lem Time r came (x ∷ q) st gained clock shown e v =
    let (empty, all) =
      drain_pending_lem Time r (came ++ (x.payload ∷ [])) q next.0 (gained || next.1) clock shown
        refl
        (accumulate-Ingested Time r came st x (popped (length q) st gained clock x q)
          (clock (suc (length q))) (shown (suc (length q))) v) in
    rw (drain_pending_step (length q) st gained clock x q e) (
      empty,
      subst
          (λ all. Ingested Time r all (drain_pending (length q) next.0 (gained || next.1) clock).0)
          (append_assoc came (x.payload ∷ []) (payloads q)) all,
    )
  where
    next : Inner × Bool
    next = after_one (length q) st gained clock x q

flushed_lem :
    (Time : ℕ → Type 0) (r : ByteRing) (came : List Bytes) (st : Inner) (now : ℕ)
    (flush : Option (List Bytes) × BatchAccumulator)
    → Time now
    → flatten (to_list flush.0) ≡ st.accumulator.items
    → flush.1.items ≡ []
    → Ingested Time r came st
    → Pushes Time r came (flushed st flush now).ring
      × ((flushed st flush now).accumulator.items ≡ [])
      × ((flushed st flush now).pending ≡ st.pending)
unfolding flatten
flushed_lem Time r came st now (none, acc) shown e k v = (
  subst (λ all. Pushes Time r all st.ring)
      (sym (append-nil v.so_far) ∙ ap (λ items. v.so_far ++ items) e ∙ v.whole) v.pushed,
  sym e,
  refl,
)
flushed_lem Time r came st now (some batch, acc) shown e k v = (
  subst (λ all. Pushes Time r all (push_batch_to_ring st.ring batch now))
      (ap (λ items. v.so_far ++ items) (sym (append-nil batch) ∙ e) ∙ v.whole)
      (Pushes-append Time v.so_far batch r st.ring _ v.pushed
        (push_batch_to_ring-Pushes Time st.ring batch now shown)),
  k,
  refl,
)

-- Before an ASGN is served everything that was published is on the ring: the items of the
-- accumulator and then those of the pending queue are pushed one by one, oldest first, each at a time
-- that the clock showed, and neither the queue nor the accumulator keeps any.
pub flush_ingress_to_ring_lem :
    (st : Inner) (clock : Readings)
    → Pushes
        (Shown clock)
        st.ring
        (st.accumulator.items ++ payloads st.pending.queue)
        (flush_ingress_to_ring st clock).ring
      × ((flush_ingress_to_ring st clock).accumulator.items ≡ [])
      × ((flush_ingress_to_ring st clock).pending.queue ≡ [])
unfolding flush_ingress_to_ring Ring.len
flush_ingress_to_ring_lem st clock =
    let (empty, all) =
      drain_pending_lem (Shown clock) st.ring st.accumulator.items st.pending.queue st false clock
        (λ i j. (i, j, refl)) refl (record { so_far = []; pushed = all_pushed; whole = refl }) in
    let st' = (drain_pending (length st.pending.queue) st false clock).0 in
    let (same, none_left) = take_batch_all st'.accumulator in
    let (on_ring, cleared, kept) =
      flushed_lem (Shown clock) st.ring _ st' (clock 0 0) (Accumulator.take_batch st'.accumulator)
        (0, 0, refl) same none_left all in
    (on_ring, cleared, ap (λ r. r.queue) kept ∙ empty)
