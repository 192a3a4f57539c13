-- ===== src/Ring/Eviction.antt =====
-- Which entries a full ring gives up: `push` the oldest, `push_front` the newest, and no more than
-- it has to.
use cupidmq.Common.{
  ltb, ltb→lt, lt→ltb, le→ltb, le→leb, Bool-cases, length, drop, u32_mod, u64_mod, usize_max,
  add_u32, add_u64, Bytes, ℕ, zero, suc, ◌+◌, ◌-◌, ◌%◌, ◌≤◌, ◌<◌, ◌≡◌, refl, ◌∙◌, ◌≢◌, ◌⊎◌, inl,
  inr, true, false, List, [], ◌∷◌, ◌++◌, reverse, reverse-reverse, arith,
}
use cupidmq.Ring.{
  RingEntry, QueuedMessage, PushResult, ByteRing, size, to_entry, make_room, push, drop_newest,
  put_front, push_front, push_back,
}
use cupidmq.Ring.Invariant.{total, IsValid, excess, MadeRoom, make_room_lem, total-reverse}

excess-le : (n cap : ℕ) (q : List RingEntry) → excess n cap q ≤ length q
excess-le n cap [] = omega arith
excess-le n cap (e ∷ q) = ground (arith, excess-le n cap q)

-- What `excess` takes away is enough,
excess_fits : (n cap : ℕ) (q : List RingEntry) → n ≤ cap → total (drop (excess n cap q) q) + n ≤ cap
excess_fits n cap [] h = omega arith
excess_fits n cap (e ∷ q) h = ground (arith, excess_fits n cap q)

drop-pred :
    (k : ℕ) (e : RingEntry) (q : List RingEntry)
    → drop (suc (suc k) - 1) (e ∷ q) ≡ drop (suc k - 1) q
drop-pred k e q =
    let outer : suc (suc k) - 1 ≡ suc k = omega arith in
    let inner : suc k - 1 ≡ k = omega arith in rw (outer, inner)

-- and one entry less is not.
excess_least :
    (n cap : ℕ) (q : List RingEntry)
    → (excess n cap q ≡ 0) ⊎ (cap < total (drop (excess n cap q - 1) q) + n)
excess_least n cap [] = inl refl
excess_least n cap (e ∷ q) = elim (Bool-cases (ltb cap (size e + total q + n))) [
  | inr small ↦ inl (rw small)
  | inl big ↦ inr (rw big (go (excess n cap q) (ltb→lt _ _ big) (excess_least n cap q)))
]
  where
    go :
        (k : ℕ)
        → cap < size e + total q + n
        → (k ≡ 0) ⊎ (cap < total (drop (k - 1) q) + n)
        → cap < total (drop (suc k - 1) (e ∷ q)) + n
    go zero big h = big
    go (suc k) big (inl h) = absurd (omega arith)
    go (suc k) big (inr h) = rw (drop-pred k e q) h

-- A payload that fits is queued last, and `push` drops the `k` oldest entries: enough to make room,
-- and no more.
pub record Evicts (r : ByteRing) (p : Bytes) (t k : ℕ) (out : ByteRing × PushResult) : Type 0 where
  pub queue : out.0.queue ≡ drop k r.queue ++ (record { payload = p; enqueued_ms = t } ∷ [])
  pub within : k ≤ length r.queue
  pub enough : total (drop k r.queue) + length p ≤ r.max_bytes
  pub least : (k ≡ 0) ⊎ (r.max_bytes < total (drop (k - 1) r.queue) + length p)
  pub result : out.1 ≡ record { dropped = k % u32_mod; accepted = true }
  pub drops : out.0.drops_total ≡ (r.drops_total + k) % u64_mod

-- On a valid ring a non-empty payload that fits the cap is queued last, and `push` drops the `k`
-- oldest entries for it: enough to make room and no more, counted in its result and in the counter.
pub push-Evicts :
    (r : ByteRing) (p : Bytes) (t : ℕ)
    → IsValid r
    → p ≢ []
    → length p ≤ r.max_bytes
    → (k : ℕ) × Evicts r p t k (push r p t)
unfolding push
push-Evicts r [] t v nonempty h = absurd (nonempty refl)
push-Evicts r (b ∷ bs) t v nonempty h = rw (le→ltb r.max_bytes (length (b ∷ bs)) h) (k, evicts)
  where
    n : ℕ
    n = length (b ∷ bs)

    k : ℕ
    k = excess n r.max_bytes r.queue

    room : MadeRoom n r.queue r 0 (make_room n r.queue r 0)
    room = make_room_lem n r.queue r 0 v.counted h v.bounded v.word (omega arith)

    evicts : Evicts r (b ∷ bs) t k (
      push_back (make_room n r.queue r 0).0 (b ∷ bs) t,
      record { dropped = (make_room n r.queue r 0).1; accepted = true },
    )
    evicts = record {
      queue = rw room.kept;
      within = excess-le n r.max_bytes r.queue;
      enough = excess_fits n r.max_bytes r.queue h;
      least = excess_least n r.max_bytes r.queue;
      result = ground (arith, room);
      drops = ground (arith, room);
    }

-- A payload above the cap is refused and counted, and the queue is left alone.
pub push_refuses :
    (r : ByteRing) (p : Bytes) (t : ℕ)
    → r.max_bytes < length p
    → push r p t ≡ (
      record r { drops_total = add_u64 r.drops_total 1 },
      record { dropped = 1; accepted = false },
    )
unfolding push
push_refuses r [] t h = absurd (omega arith)
push_refuses r (b ∷ bs) t h = rw (lt→ltb r.max_bytes (length (b ∷ bs)) h)

drop_newest_lem :
    (q : List RingEntry) (r : ByteRing) (d : ℕ)
    → r.bytes ≡ total q
    → ((drop_newest q r d).0.queue ≡ reverse (drop (excess 0 r.max_bytes q) q))
      × ((drop_newest q r d).1 % u32_mod ≡ (d + excess 0 r.max_bytes q) % u32_mod)
unfolding drop_newest
drop_newest_lem [] r d e = ground arith
drop_newest_lem (x ∷ q) r d e = ground (
  arith,
  drop_newest_lem q (record r { bytes = r.bytes - size x; drops_total = add_u64 r.drops_total 1 })
      (add_u32 d 1),
)

-- Requeueing at the head of a ring gives up the `k` newest entries, read from the back, until the
-- rest fits, and no more.
pub record GivesUpNewest (r : ByteRing) (m : QueuedMessage) (k : ℕ) (out : ByteRing × ℕ)
    : Type 0 where
  pub queue : reverse out.0.queue ≡ drop k (reverse (to_entry m ∷ r.queue))
  pub enough : total out.0.queue ≤ r.max_bytes
  pub least : (k ≡ 0) ⊎ (r.max_bytes < total (drop (k - 1) (reverse (to_entry m ∷ r.queue))))
  pub result : out.1 % u32_mod ≡ k % u32_mod

-- `push_front` on a valid ring, where the byte sum does not saturate, puts the message first and
-- then gives up the `k` newest entries, until the rest fits the cap, and no more; it returns how
-- many (modulo 2^32).
pub push_front_gives_up :
    (r : ByteRing) (m : QueuedMessage)
    → r.bytes + length m.payload ≤ usize_max
    → IsValid r
    → (k : ℕ) × GivesUpNewest r m k (push_front r m)
unfolding push_front
push_front_gives_up r m h v = (
  k,
  record {
    queue = rw (shape.0) (reverse-reverse (drop k back));
    enough =
        rw (shape.0) (omega (arith, total-reverse (drop k back), excess_fits 0 r.max_bytes back));
    least = ground (arith, excess_least 0 r.max_bytes back);
    result = omega (arith, shape.1);
  },
)
  where
    back : List RingEntry
    back = reverse (to_entry m ∷ r.queue)

    k : ℕ
    k = excess 0 r.max_bytes back

    shape :
        ((drop_newest back (put_front r m) 0).0.queue ≡ reverse (drop k back))
        × ((drop_newest back (put_front r m) 0).1 % u32_mod ≡ (0 + k) % u32_mod)
    shape =
        drop_newest_lem back (put_front r m) 0
          (ground (arith, total-reverse (to_entry m ∷ r.queue)))

pub drop_newest_fits :
    (q : List RingEntry) (r : ByteRing) (d : ℕ)
    → r.bytes ≤ r.max_bytes
    → drop_newest q r d ≡ (record r { queue = reverse q }, d)
unfolding drop_newest
drop_newest_fits [] r d h = refl
drop_newest_fits (x ∷ q) r d h = rw (le→ltb r.max_bytes r.bytes h)

-- A requeue with room for the message drops nothing.
pub push_front_fits :
    (r : ByteRing) (m : QueuedMessage)
    → IsValid r
    → r.bytes + length m.payload ≤ r.max_bytes
    → push_front r m
      ≡ (record r { queue = to_entry m ∷ r.queue; bytes = r.bytes + length m.payload }, 0)
unfolding push_front
push_front_fits r m v h = rw (le→leb (r.bytes + length m.payload) usize_max (omega arith)) (
    drop_newest_fits (reverse (to_entry m ∷ r.queue)) _ 0 h
    ∙ rw (reverse-reverse (to_entry m ∷ r.queue)))
