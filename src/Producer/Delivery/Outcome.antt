-- ===== src/Producer/Delivery/Outcome.antt =====
-- What a delivery does to the ring.
use cupidmq.Common.{
  ◌==◌, Bool-cases, length, take, length-take, length-map, u16_mod, as_u16, Bytes, ℕ, ◌≤◌, ◌<◌, max,
  ◌≡◌, refl, sym, ap, ◌∙◌, ◌≢◌, inl, inr, List, [], ◌∷◌, reverse, arith,
}
use cupidmq.Ring.{ByteRing, QueuedMessage, to_message}
use cupidmq.Ring
use cupidmq.Ring.Invariant.{IsValid, push-IsValid}
use cupidmq.Producer.{Inner, Readings, flush_ingress_to_ring, push_all_front, requeue_items}
use cupidmq.Producer.Ingest.{Pushes, all_pushed, pushes, flush_ingress_to_ring_lem}
use cupidmq.Producer.Drain.{Drained, drain_for_assign_lem, requeue-drain}
use cupidmq.Protocol.Control.{AssignRequest}
use cupidmq.Producer.Delivery.{
  Delivery, delivered, refused, timed_out, payload_refs, start_delivery, finish_delivery,
  deliver_assign,
}

Pushes-IsValid :
    (Time : ℕ → Type 0) (r s : ByteRing) (xs : List Bytes)
    → Pushes Time r xs s
    → IsValid r
    → IsValid s
Pushes-IsValid Time r _ _ all_pushed v = v
Pushes-IsValid Time r s _ (pushes {xs} x now shown h) v =
    Pushes-IsValid Time (Ring.push r x now).0 s xs h (push-IsValid r x now v)

-- The flush in front of a delivery keeps the ring valid.
pub flush_ingress_to_ring-IsValid :
    (st : Inner) (clock : Readings)
    → IsValid st.ring
    → IsValid (flush_ingress_to_ring st clock).ring
flush_ingress_to_ring-IsValid st clock v =
    Pushes-IsValid _ st.ring _ _ (flush_ingress_to_ring_lem st clock).0 v

finish_fails :
    (items : List QueuedMessage) (d : Delivery) (st : Inner)
    → d ≢ delivered
    → (finish_delivery items d st).1 ≡ requeue_items st items
unfolding finish_delivery
finish_fails items delivered st h = absurd (h refl)
finish_fails items (refused text) st h = refl
finish_fails items timed_out st h = refl

no_items : (items : List QueuedMessage) → length items ≡ 0 → items ≡ []
no_items [] h = refl
no_items (m ∷ items) h = absurd (omega arith)

module _ (st : Inner) (assign : AssignRequest) (clock : Readings) (v : IsValid st.ring) where
  abbrev full : ByteRing
  full = (flush_ingress_to_ring st clock).ring

  -- If the ring is valid, a delivery takes the oldest `k` messages of the flushed ring, within the
  -- limits of the ASGN and of the configuration, and leaves the others on the ring.
  pub delivery_takes_oldest :
      (k : ℕ) × Drained full
        (max assign.max_items 1)
        st.config.max_batch_bytes
        k
        ((start_delivery st assign clock).0, (start_delivery st assign clock).1.ring)
  unfolding start_delivery
  delivery_takes_oldest =
      drain_for_assign_lem full (max assign.max_items 1) st.config.max_batch_bytes (clock 0 1)
        (flush_ingress_to_ring-IsValid st clock v)

  few : length (start_delivery st assign clock).0 ≤ max assign.max_items 1
  few =
      let (k, d) = delivery_takes_oldest in
      omega (
        arith,
        ap (λ out. length out.0) d.result,
        length-map to_message (take k full.queue),
        length-take k full.queue,
        d.few,
      )

  -- A delivery that fails or times out loses nothing: if the ring is valid, the ASGN's `max_items` is
  -- a `u16` and nobody else touches the ring meanwhile, the ring ends as the flush made it, with the
  -- same entries in the same order.
  pub failed_delivery_restores :
      (network : List Bytes → Delivery) (meanwhile : Inner → Inner)
      → assign.max_items < u16_mod
      → network (payload_refs (start_delivery st assign clock).0) ≢ delivered
      → ((s : Inner) → (meanwhile s).ring ≡ s.ring)
      → (deliver_assign st assign clock network meanwhile).1.ring ≡ full
  unfolding deliver_assign requeue_items
  failed_delivery_restores network meanwhile word fails quiet =
      elim (Bool-cases (as_u16 (length items) == 0)) [
        | inl none_taken ↦ rw none_taken (nothing (no_items items (ground (arith, few))) ∙ restored)
        | inr some_taken ↦ rw some_taken (
            ap (λ s. s.ring)
              (finish_fails items (network (payload_refs items)) (meanwhile st') fails)
            ∙ unfold requeue_items in
              ap (λ r. push_all_front r (reverse items)) (quiet st') ∙ restored)
      ]
    where
      items : List QueuedMessage
      items = (start_delivery st assign clock).0

      st' : Inner
      st' = (start_delivery st assign clock).1

      restored : push_all_front st'.ring (reverse items) ≡ full
      restored =
          unfold start_delivery in
          requeue-drain full (max assign.max_items 1) st.config.max_batch_bytes (clock 0 1)
            (flush_ingress_to_ring-IsValid st clock v)

      nothing : items ≡ [] → st'.ring ≡ push_all_front st'.ring (reverse items)
      nothing e =
          sym (ap (λ its. push_all_front st'.ring (reverse its)) e ∙ unfold push_all_front in refl)
