-- ===== src/Ring/Invariant.antt =====
-- What holds of every ring that `new` made: `bytes` is the sum of the queued payloads, and stays
-- within `max_bytes`.
use cupidmq.Common.{
  ltb, if◌then◌else◌, ltb→le, Bool-cases, Option-cases, length, drop, u32_mod, u64_mod, usize_max,
  add_u32, add_u64, Bytes, ℕ, zero, suc, ◌+◌, ◌-◌, ◌%◌, ◌≤◌, ◌<◌, min, ◌≡◌, refl, ap, ◌∙◌, inl, inr,
  some, List, [], ◌∷◌, ◌++◌, reverse, reverse-cons, arith,
}
use cupidmq.Ring.{
  RingEntry, QueuedMessage, ByteRing, size, to_message, to_entry, new, pop_front_inner, make_room,
  push, pop_rounds, pop_up_to, drop_newest, put_front, push_front, push_sized, pop_from, push_back,
}

-- The payload bytes of a queue.
abbrev pub total : List RingEntry → ℕ
total [] = 0
total (e ∷ q) = size e + total q

pub total-append : (p q : List RingEntry) → total (p ++ q) ≡ total p + total q
total-append [] q = omega arith
total-append (e ∷ p) q = omega (arith, total-append p q)

pub total-reverse : (q : List RingEntry) → total (reverse q) ≡ total q
total-reverse [] = refl
total-reverse (e ∷ q) =
    ap total (reverse-cons e q) ∙ omega (arith, total-append (reverse q) (e ∷ []), total-reverse q)

-- `max_bytes` below `usize::MAX` is what keeps the saturating sum exact.
pub record IsValid (r : ByteRing) : Type 0 where
  pub counted : r.bytes ≡ total r.queue
  pub capped : r.bytes ≤ r.max_bytes
  pub positive : 1 ≤ r.max_bytes
  pub bounded : r.max_bytes < usize_max
  pub word : r.drops_total < u64_mod

pub new-IsValid : (n : ℕ) → n < usize_max → IsValid (new n)
unfolding new
new-IsValid n h = omega arith

-- How many of the oldest entries have to go before `n` more bytes fit under `cap`.
abbrev pub excess : ℕ → ℕ → List RingEntry → ℕ
excess n cap [] = 0
excess n cap (e ∷ q) = if ltb cap (size e + total q + n) then suc (excess n cap q) else 0

pub record MadeRoom (n : ℕ) (q : List RingEntry) (r : ByteRing) (d : ℕ) (out : ByteRing × ℕ)
    : Type 0 where
  pub kept : out.0.queue ≡ drop (excess n r.max_bytes q) q
  pub counted : out.0.bytes ≡ total (drop (excess n r.max_bytes q) q)
  pub same_max : out.0.max_bytes ≡ r.max_bytes
  pub drops : out.0.drops_total % u64_mod ≡ (r.drops_total + excess n r.max_bytes q) % u64_mod
  pub word : out.0.drops_total < u64_mod
  pub dropped : out.1 % u32_mod ≡ (d + excess n r.max_bytes q) % u32_mod
  pub word32 : out.1 < u32_mod
  pub fits : out.0.bytes + n ≤ r.max_bytes

pub make_room_lem :
    (n : ℕ) (q : List RingEntry) (r : ByteRing) (d : ℕ)
    → r.bytes ≡ total q
    → n ≤ r.max_bytes
    → r.max_bytes < usize_max
    → r.drops_total < u64_mod
    → d < u32_mod
    → MadeRoom n q r d (make_room n q r d)
unfolding make_room
make_room_lem n [] r d e h b w w' = ground arith
make_room_lem n (x ∷ q) r d e h b w w' = ground (
  arith,
  make_room_lem n q
      (record {
        queue = q;
        bytes = r.bytes - size x;
        max_bytes = r.max_bytes;
        drops_total = add_u64 r.drops_total 1;
      })
      (add_u32 d 1),
)

-- An accepted payload, whatever its bytes.
pub push_sized-IsValid :
    (r : ByteRing) (p : Bytes) (t : ℕ) → IsValid r → IsValid (push_sized r p t).0
push_sized-IsValid r p t v = elim (Bool-cases (ltb r.max_bytes (length p))) [
  | inl big ↦ rw big (ground arith)
  | inr fits ↦ rw fits (fitted (ltb→le _ _ fits))
]
  where
    fitted : length p ≤ r.max_bytes → IsValid (push_back (make_room (length p) r.queue r 0).0 p t)
    fitted h =
        let m = make_room_lem (length p) r.queue r 0 v.counted h v.bounded v.word (omega arith) in
        let sum =
          total-append (make_room (length p) r.queue r 0).0.queue
            (record { payload = p; enqueued_ms = t } ∷ []) in
        ground (arith, m, sum)

-- `push` keeps a valid ring valid, whatever the payload: the byte count stays the exact sum of the
-- queue and within the cap.
pub push-IsValid : (r : ByteRing) (p : Bytes) (t : ℕ) → IsValid r → IsValid (push r p t).0
unfolding push
push-IsValid r [] t v = v
push-IsValid r (b ∷ bs) t v = push_sized-IsValid r (b ∷ bs) t v

pop_from-IsValid :
    (r : ByteRing) (q : List RingEntry) {e : RingEntry} {s : ByteRing}
    → r.queue ≡ q
    → pop_from r q ≡ some (e, s)
    → IsValid r
    → IsValid s
pop_from-IsValid r [] same h v = cc
pop_from-IsValid r (x ∷ q) same h v = ground arith

pub pop_front_inner-IsValid :
    (r : ByteRing) {e : RingEntry} {s : ByteRing}
    → pop_front_inner r ≡ some (e, s)
    → IsValid r
    → IsValid s
unfolding pop_front_inner
pop_front_inner-IsValid r h v = pop_from-IsValid r r.queue refl h v

pub pop_rounds-IsValid :
    (n : ℕ) (r : ByteRing) (out : List QueuedMessage) → IsValid r → IsValid (pop_rounds n r out).1
unfolding pop_rounds
pop_rounds-IsValid zero r out v = v
pop_rounds-IsValid (suc n) r out v = elim (Option-cases (pop_front_inner r)) [
  | inl e ↦ rw (e, pop_rounds) (pop_rounds-IsValid n r out v)
  | inr ((x, s), e) ↦
      rw (e, pop_rounds)
        (pop_rounds-IsValid n s (out ++ (to_message x ∷ [])) (pop_front_inner-IsValid r e v))
]

pub pop_up_to-IsValid : (r : ByteRing) (n t : ℕ) → IsValid r → IsValid (pop_up_to r n t).1
unfolding pop_up_to
pop_up_to-IsValid r n t v = pop_rounds-IsValid (min n (length r.queue)) r [] v

-- The loop of `push_front` on a ring whose count may exceed the cap.
drop_newest-IsValid :
    (q : List RingEntry) (r : ByteRing) (d : ℕ)
    → r.bytes ≡ total q
    → 1 ≤ r.max_bytes
    → r.max_bytes < usize_max
    → r.drops_total < u64_mod
    → IsValid (drop_newest q r d).0
unfolding drop_newest
drop_newest-IsValid [] r d e h b w = ground arith
drop_newest-IsValid (x ∷ q) r d e h b w = ground (
  arith,
  total-reverse (x ∷ q),
  drop_newest-IsValid q
      (record r { bytes = r.bytes - size x; drops_total = add_u64 r.drops_total 1 }) (add_u32 d 1),
)

-- `push_front` keeps a valid ring valid if the byte sum does not saturate.
pub push_front-IsValid :
    (r : ByteRing) (m : QueuedMessage)
    → r.bytes + length m.payload ≤ usize_max
    → IsValid r
    → IsValid (push_front r m).0
unfolding push_front
push_front-IsValid r m h v =
    drop_newest-IsValid (reverse (to_entry m ∷ r.queue)) (put_front r m) 0
      (ground (arith, total-reverse (to_entry m ∷ r.queue))) v.positive v.bounded v.word
