-- ===== src/Producer/Drain.antt =====
-- What `drain_for_assign` hands out, what it leaves on the ring, and what a requeue brings back.
use cupidmq.Common.{
  ltb, if◌then◌else◌, ltb→le, Bool-cases, length, take, drop, take-append-drop, length-take,
  length-map, take-min-length, drop-min-length, take-take, drop-take-append, take-map, drop-map,
  u64_mod, add_u64, ℕ, suc, ◌+◌, ◌≤◌, ◌<◌, min, ◌≡◌, refl, sym, ap, ap₂, subst, ◌∙◌, ◌⊎◌, inl, inr,
  ◌&&◌, List, [], ◌∷◌, ◌++◌, map, reverse, append_assoc, map-append, reverse-reverse, reverse-cons,
  arith,
}
use native.Mathlib.Decide.{dec_lt}
use cupidmq.Ring.{ByteRing, RingEntry, QueuedMessage, to_message, to_entry}
use cupidmq.Ring.Invariant.{IsValid, total, total-append}
use cupidmq.Ring.Eviction.{push_front_fits}
use cupidmq.Ring.Drain.{pop_up_to_lem, total-split}
use cupidmq.Producer.{keep_loop, push_all_front, drain_for_assign}

-- The payload bytes of some messages.
abbrev pub load : List QueuedMessage → ℕ
load [] = 0
load (m ∷ ms) = length m.payload + load ms

pub load-entries : (q : List RingEntry) → load (map to_message q) ≡ total q
load-entries [] = refl
load-entries (e ∷ q) = omega (arith, load-entries q)

entries-messages : (q : List RingEntry) → map to_entry (map to_message q) ≡ q
entries-messages [] = refl
entries-messages (e ∷ q) = rw (entries-messages q)

load-append : (xs ys : List QueuedMessage) → load (xs ++ ys) ≡ load xs + load ys
load-append [] ys = omega arith
load-append (x ∷ xs) ys = omega (arith, load-append xs ys)

load-reverse : (ms : List QueuedMessage) → load (reverse ms) ≡ load ms
load-reverse [] = refl
load-reverse (m ∷ ms) =
    ap load (reverse-cons m ms) ∙ omega (arith, load-append (reverse ms) (m ∷ []), load-reverse ms)

front_cons :
    (m : QueuedMessage) (ms : List QueuedMessage) (q : List RingEntry)
    → map to_entry (reverse (m ∷ ms)) ++ q ≡ map to_entry (reverse ms) ++ (to_entry m ∷ q)
front_cons m ms q =
    ap (λ l. map to_entry l ++ q) (reverse-cons m ms)
    ∙ ap (λ l. l ++ q) (map-append to_entry (reverse ms) (m ∷ []))
    ∙ append_assoc (map to_entry (reverse ms)) (to_entry m ∷ []) q

-- Messages pushed to the front of a ring that has room for all of them.
push_all_front_fits :
    (ms : List QueuedMessage) (r : ByteRing)
    → IsValid r
    → r.bytes + load ms ≤ r.max_bytes
    → push_all_front r ms
      ≡ record r { queue = map to_entry (reverse ms) ++ r.queue; bytes = r.bytes + load ms }
unfolding push_all_front
push_all_front_fits [] r v h = ground arith
push_all_front_fits (m ∷ ms) r v h =
    ap (λ out. push_all_front out.0 ms) (push_front_fits r m v (omega arith))
    ∙ push_all_front_fits ms
        (record r { queue = to_entry m ∷ r.queue; bytes = r.bytes + length m.payload })
        (ground arith) (omega arith)
    ∙ ap₂ (λ q b. record r { queue = q; bytes = b }) (sym (front_cons m ms r.queue)) (omega arith)

-- A requeue puts the messages back in front of the ring, in their order, if the ring has room.
pub requeue_lem :
    (ms : List QueuedMessage) (r : ByteRing)
    → IsValid r
    → r.bytes + load ms ≤ r.max_bytes
    → push_all_front r (reverse ms)
      ≡ record r { queue = map to_entry ms ++ r.queue; bytes = r.bytes + load ms }
requeue_lem ms r v h =
    push_all_front_fits (reverse ms) r v (omega (arith, load-reverse ms))
    ∙ rw (reverse-reverse ms, load-reverse ms)

-- How many of the messages fit under the cap, where the first always does.
abbrev fitting : ℕ → ℕ → ℕ → List QueuedMessage → ℕ
fitting cap i t [] = 0
fitting cap i t (m ∷ ms) =
    let rest = fitting cap (i + 1) (t + length m.payload) ms in
    if ltb cap (t + length m.payload) && ltb 0 i then 0 else suc rest

keep_loop_lem :
    (cap keep i t : ℕ) (ms : List QueuedMessage)
    → keep ≡ i + length ms
    → t + load ms < u64_mod
    → keep_loop cap keep i t ms ≡ i + fitting cap i t ms
unfolding keep_loop
keep_loop_lem cap keep i t [] e h = e
keep_loop_lem cap keep i t (m ∷ ms) e h =
    let sum : add_u64 t (length m.payload) ≡ t + length m.payload = omega arith in
    rw sum (ground (arith, keep_loop_lem cap keep (i + 1) (t + length m.payload) ms))

fitting-le : (cap i t : ℕ) (ms : List QueuedMessage) → fitting cap i t ms ≤ length ms
fitting-le cap i t [] = omega arith
fitting-le cap i t (m ∷ ms) = ground (arith, fitting-le cap (i + 1) (t + length m.payload) ms)

-- Past the first, what is taken stays within the cap.
fitting_within :
    (cap i t : ℕ) (ms : List QueuedMessage)
    → 1 ≤ i
    → (t + load (take (fitting cap i t ms) ms) ≤ cap) ⊎ (fitting cap i t ms ≡ 0)
fitting_within cap i t [] h = inr refl
fitting_within cap i t (m ∷ ms) h =
    ground (arith, fitting_within cap (i + 1) (t + length m.payload) ms)

-- And nothing that would fit is left.
fitting_most :
    (cap i t : ℕ) (ms : List QueuedMessage)
    → (fitting cap i t ms ≡ length ms) ⊎ (cap < t + load (take (suc (fitting cap i t ms)) ms))
fitting_most cap i t [] = inl refl
fitting_most cap i t (m ∷ ms) = ground (arith, fitting_most cap (i + 1) (t + length m.payload) ms)

-- The first message is taken whatever its size.
fitting_first :
    (cap : ℕ) (ms : List QueuedMessage)
    → ((load (take (fitting cap 0 0 ms) ms) ≤ cap) ⊎ (fitting cap 0 0 ms ≡ 1))
      × ((ms ≡ []) ⊎ (1 ≤ fitting cap 0 0 ms))
fitting_first cap [] = (inl (omega arith), inl refl)
fitting_first cap (m ∷ ms) =
    ground
      (arith, fitting_within cap 1 (length m.payload) ms, fitting_most cap 1 (length m.payload) ms)

-- A drain for an ASGN takes the `k` oldest messages, in order, and leaves the rest.
pub record Drained (ring : ByteRing) (max_items cap k : ℕ) (out : List QueuedMessage × ByteRing)
    : Type 0 where
  pub result : out ≡ (
    map to_message (take k ring.queue),
    record ring { queue = drop k ring.queue; bytes = total (drop k ring.queue) },
  )
  pub few : k ≤ max_items
  pub small : (total (take k ring.queue) ≤ cap) ⊎ (k ≡ 1)
  pub progress : (min max_items (length ring.queue) ≡ 0) ⊎ (1 ≤ k)
  pub most : (k ≡ min max_items (length ring.queue)) ⊎ (cap < total (take (suc k) ring.queue))

module _ (ring : ByteRing) (max_items cap now : ℕ) (v : IsValid ring) where
  abbrev out : List QueuedMessage
  out = map to_message (take max_items ring.queue)

  abbrev kept : ℕ
  kept = fitting cap 0 0 out

  length-out : length out ≡ min max_items (length ring.queue)
  length-out = length-map to_message (take max_items ring.queue) ∙ length-take max_items ring.queue

  abbrev after_pop : ByteRing
  after_pop = record ring {
    queue = drop max_items ring.queue;
    bytes = total (drop max_items ring.queue);
  }

  keep : keep_loop cap (length out) 0 0 out ≡ kept
  keep =
      keep_loop_lem cap (length out) 0 0 out (omega arith)
        (omega (arith, load-entries (take max_items ring.queue), total-split max_items ring.queue))
      ∙ omega arith

  after_pop-IsValid : IsValid after_pop
  after_pop-IsValid = record {
    counted = refl;
    capped = omega (arith, total-split max_items ring.queue);
    positive = v.positive;
    bounded = v.bounded;
    word = v.word;
  }

  kept-le : (kept ≤ max_items) × (kept ≤ length out)
  kept-le = (omega (arith, fitting-le cap 0 0 out, length-out), fitting-le cap 0 0 out)

  back : map to_entry (drop kept out) ≡ drop kept (take max_items ring.queue)
  back =
      ap (map to_entry) (drop-map to_message kept (take max_items ring.queue))
      ∙ entries-messages (drop kept (take max_items ring.queue))

  whole : map to_entry (drop kept out) ++ drop max_items ring.queue ≡ drop kept ring.queue
  whole =
      ap (λ l. l ++ drop max_items ring.queue) back
      ∙ drop-take-append kept max_items ring.queue kept-le.0

  sum : total (drop max_items ring.queue) + load (drop kept out) ≡ total (drop kept ring.queue)
  sum = omega (
    arith,
    ap total whole,
    total-append (map to_entry (drop kept out)) (drop max_items ring.queue),
    load-entries (drop kept (take max_items ring.queue)),
    ap load (drop-map to_message kept (take max_items ring.queue)),
    ap total back,
  )

  total-drop : total (drop kept ring.queue) ≤ total ring.queue
  total-drop = omega (arith, total-split kept ring.queue)

  put_back :
      push_all_front after_pop (reverse (drop kept out))
      ≡ record ring { queue = drop kept ring.queue; bytes = total (drop kept ring.queue) }
  put_back =
      requeue_lem (drop kept out) after_pop after_pop-IsValid (omega (arith, sum, total-drop))
      ∙ ap₂ (λ q b. record ring { queue = q; bytes = b }) whole (omega (arith, sum))

  everything :
      kept ≡ min max_items (length ring.queue)
      → ◌≡◌ {A = List QueuedMessage × ByteRing}
          (out, after_pop)
          (
            map to_message (take kept ring.queue),
            record ring { queue = drop kept ring.queue; bytes = total (drop kept ring.queue) },
          )
  everything e =
      ap₂ (λ front rest. (map to_message front, record ring { queue = rest; bytes = total rest }))
        (sym (take-min-length max_items ring.queue) ∙ ap (λ k. take k ring.queue) (sym e))
        (sym (drop-min-length max_items ring.queue) ∙ ap (λ k. drop k ring.queue) (sym e))

  drained_result : drain_for_assign ring max_items cap now ≡ (
    map to_message (take kept ring.queue),
    record ring { queue = drop kept ring.queue; bytes = total (drop kept ring.queue) },
  )
  unfolding drain_for_assign
  drained_result =
      rw (pop_up_to_lem ring max_items now v, keep)
        (elim (Bool-cases (ltb kept (length out))) [
          | inl less ↦ rw less (
              ap₂ (λ taken r. (taken, r))
                (take-map to_message kept (take max_items ring.queue)
                  ∙ ap (map to_message) (take-take kept max_items ring.queue kept-le.0))
                put_back)
          | inr all ↦ rw all (everything (omega (arith, length-out, kept-le.1, ltb→le _ _ all)))
        ])

  prefix_load : (k : ℕ) → k ≤ max_items → load (take k out) ≡ total (take k ring.queue)
  prefix_load k h =
      ap load (
        take-map to_message k (take max_items ring.queue)
        ∙ ap (map to_message) (take-take k max_items ring.queue h))
      ∙ load-entries (take k ring.queue)

  most_small : (total (take kept ring.queue) ≤ cap) ⊎ (kept ≡ 1)
  most_small = rw (← prefix_load kept kept-le.0) ((fitting_first cap out).0)

  moves : (min max_items (length ring.queue) ≡ 0) ⊎ (1 ≤ kept)
  moves = elim ((fitting_first cap out).1) [
    | inl e ↦ inl (sym length-out ∙ ap length e)
    | inr h ↦ inr h
  ]

  greedy : (kept ≡ min max_items (length ring.queue)) ⊎ (cap < total (take (suc kept) ring.queue))
  greedy = elim (fitting_most cap 0 0 out) [
    | inl e ↦ inl (e ∙ length-out)
    | inr h ↦ elim (dec_lt kept (length out)) [
      | yes less ↦ inr (omega (arith, h, prefix_load (suc kept) (omega (arith, less, length-out))))
      | no all ↦ inl (omega (arith, all, length-out, kept-le.1))
    ]
  ]

  -- On a valid ring the drain for an ASGN hands out the `k` oldest messages and leaves the rest: at
  -- most `max_items`, within the byte cap unless it is a single message, and as many as both limits
  -- allow.
  pub drain_for_assign_lem :
      (k : ℕ) × Drained ring max_items cap k (drain_for_assign ring max_items cap now)
  drain_for_assign_lem = (
    kept,
    record {
      result = drained_result;
      few = kept-le.0;
      small = most_small;
      progress = moves;
      most = greedy;
    },
  )

  left-IsValid :
      IsValid (record ring { queue = drop kept ring.queue; bytes = total (drop kept ring.queue) })
  left-IsValid = record {
    counted = refl;
    capped = omega (arith, total-split kept ring.queue);
    positive = v.positive;
    bounded = v.bounded;
    word = v.word;
  }

  -- A drain keeps a ring valid.
  pub drain_for_assign-IsValid : IsValid (drain_for_assign ring max_items cap now).1
  drain_for_assign-IsValid = subst (λ out. IsValid out.1) (sym drained_result) left-IsValid

  -- On a valid ring a requeue of what a drain took, with nothing pushed in between, restores the
  -- ring: its queue, its byte count and its drop counter.
  pub requeue-drain :
      push_all_front
        (drain_for_assign ring max_items cap now).1
        (reverse (drain_for_assign ring max_items cap now).0)
      ≡ ring
  requeue-drain =
      ap (λ out. push_all_front out.1 (reverse out.0)) drained_result
      ∙ requeue_lem (map to_message (take kept ring.queue)) _ left-IsValid
          (omega (arith, load-entries (take kept ring.queue), total-split kept ring.queue))
      ∙ ap₂ (λ q b. record ring { queue = q; bytes = b })
          (ap (λ l. l ++ drop kept ring.queue) (entries-messages (take kept ring.queue))
            ∙ take-append-drop kept ring.queue)
          (omega (arith, load-entries (take kept ring.queue), total-split kept ring.queue))
