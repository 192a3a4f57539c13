-- ===== src/Ring/Drain.antt =====
-- `pop_up_to` takes the oldest messages in order.
use cupidmq.Common.{
  length, take, drop, take-append-drop, take-min-length, drop-min-length, ℕ, zero, suc, ◌+◌, ◌-◌,
  ◌≤◌, min, ◌≡◌, refl, sym, ap, ◌∙◌, none, some, List, [], ◌∷◌, ◌++◌, map, append-nil, append_assoc,
  arith,
}
use cupidmq.Ring.{
  RingEntry, QueuedMessage, ByteRing, size, to_message, pop_front, pop_rounds, pop_up_to,
}
use cupidmq.Ring.Invariant.{total, total-append, IsValid}

pop_rounds_lem :
    (n : ℕ) (q : List RingEntry) (r : ByteRing) (out : List QueuedMessage)
    → r.queue ≡ q
    → n ≤ length q
    → pop_rounds n r out ≡ (
      out ++ map to_message (take n q),
      record r { queue = drop n q; bytes = r.bytes - total (take n q) },
    )
unfolding pop_rounds
pop_rounds_lem zero q r out e h = ground (arith, append-nil out)
pop_rounds_lem (suc n) [] r out e h = absurd (omega arith)
pop_rounds_lem (suc n) (x ∷ q) r out e h = rw e (
    ground (
      arith,
      pop_rounds_lem n q (record r { queue = q; bytes = r.bytes - size x })
          (out ++ to_message x ∷ []) refl,
      append_assoc out (to_message x ∷ []) (map to_message (take n q)),
    ))

pub total-split : (n : ℕ) (q : List RingEntry) → total (take n q) + total (drop n q) ≡ total q
total-split n q = sym (total-append (take n q) (drop n q)) ∙ ap total (take-append-drop n q)

-- On a valid ring a drain returns the oldest messages, at most `max_items` of them, in the order of
-- their arrival, and leaves the others with their exact byte count.
pub pop_up_to_lem :
    (r : ByteRing) (max_items now_ms : ℕ)
    → IsValid r
    → pop_up_to r max_items now_ms ≡ (
      map to_message (take max_items r.queue),
      record r { queue = drop max_items r.queue; bytes = total (drop max_items r.queue) },
    )
unfolding pop_up_to
pop_up_to_lem r n t v =
    pop_rounds_lem (min n (length r.queue)) r.queue r [] refl (omega arith)
    ∙ rw (take-min-length n r.queue, drop-min-length n r.queue, left) refl
  where
    left : r.bytes - total (take n r.queue) ≡ total (drop n r.queue)
    left = omega (arith, total-split n r.queue)

pub pop_front-nil : (r : ByteRing) → r.queue ≡ [] → pop_front r ≡ none
unfolding pop_front
pop_front-nil r e = rw (e, pop_front)

pub pop_front-cons :
    (r : ByteRing) (x : RingEntry) (q : List RingEntry)
    → r.queue ≡ x ∷ q
    → pop_front r ≡ some (to_message x, record r { queue = q; bytes = r.bytes - size x })
unfolding pop_front
pop_front-cons r x q e = rw (e, pop_front)
