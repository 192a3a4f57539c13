-- ===== src/Ring/Runs.antt =====
-- Concrete runs of the ring, and its theorems at concrete inputs.
use cupidmq.Common.{ℕ, ◌≡◌, refl, true, false, [], ◌∷◌, arith}
use cupidmq.Ring.{RingEntry, ByteRing, new, make_room, push, drop_newest, push_front}
use cupidmq.Ring.Invariant.{IsValid, push-IsValid}
use cupidmq.Ring.Eviction.{Evicts, push-Evicts, push_refuses, GivesUpNewest, push_front_gives_up}

abbrev entry : ℕ → ℕ → RingEntry
entry b t = record { payload = b ∷ []; enqueued_ms = t }

-- The ring of the test `drop_oldest_when_full`, before its third push.
abbrev full_ring : ByteRing
full_ring = record {
  queue = entry 1 100 ∷ entry 2 200 ∷ [];
  bytes = 2;
  max_bytes = 2;
  drops_total = 0;
}

full_ring_runs : (push (push (new 2) (1 ∷ []) 100).0 (2 ∷ []) 200).0 ≡ full_ring
unfolding push make_room new
full_ring_runs = refl

drop_oldest_when_full : (push full_ring (3 ∷ []) 300) ≡ (
  record { queue = entry 2 200 ∷ entry 3 300 ∷ []; bytes = 2; max_bytes = 2; drops_total = 1 },
  record { dropped = 1; accepted = true },
)
unfolding push make_room
drop_oldest_when_full = refl

requeue_drops_newest :
    (push_front full_ring (record { payload = 9 ∷ []; enqueued_ms = 5 })).0.queue
    ≡ entry 9 5 ∷ entry 1 100 ∷ []
unfolding push_front drop_newest
requeue_drops_newest = refl

full_ring-IsValid : IsValid full_ring
full_ring-IsValid = omega arith

push-IsValid_example : IsValid (push full_ring (3 ∷ []) 300).0
push-IsValid_example = push-IsValid full_ring (3 ∷ []) 300 full_ring-IsValid

push-Evicts_example : (k : ℕ) × Evicts full_ring (3 ∷ []) 300 k (push full_ring (3 ∷ []) 300)
push-Evicts_example = push-Evicts full_ring (3 ∷ []) 300 full_ring-IsValid (λ e. cc) (omega arith)

push_refuses_example :
    push full_ring (1 ∷ 2 ∷ 3 ∷ []) 300
    ≡ (record full_ring { drops_total = 1 }, record { dropped = 1; accepted = false })
push_refuses_example = push_refuses full_ring (1 ∷ 2 ∷ 3 ∷ []) 300 (omega arith)

push_front_gives_up_example :
    (k : ℕ) × GivesUpNewest full_ring
      (record { payload = 9 ∷ []; enqueued_ms = 5 })
      k
      (push_front full_ring (record { payload = 9 ∷ []; enqueued_ms = 5 }))
push_front_gives_up_example =
    push_front_gives_up full_ring (record { payload = 9 ∷ []; enqueued_ms = 5 }) (omega arith)
      full_ring-IsValid
