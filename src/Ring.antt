-- ===== src/Ring.antt =====
-- master/src/ring/byte_ring.rs: the byte-capped queue with drop-oldest, base of every producer ring.
-- A method with `&mut self` returns the new ring beside its result; a `VecDeque` is a list, oldest
-- first; `Bytes` is the list of its bytes.
pub mod Invariant
pub mod Eviction
pub mod Drain
mod Runs
use cupidmq.Common.{
  Bytes, ℕ, zero, suc, ◌+◌, ◌-◌, min, max, List, [], ◌∷◌, ◌++◌, reverse, Bool, true, false, Option,
  none, some, ltb, if◌then◌else◌, length, saturating_add, add_u32, add_u64,
}

pub record RingEntry : Type 0 where
  pub payload : Bytes
  pub enqueued_ms : ℕ

-- `QueuedMessage` of master/src/ring.rs has the fields of `RingEntry`.
pub record QueuedMessage : Type 0 where
  pub payload : Bytes
  pub enqueued_ms : ℕ

pub record PushResult : Type 0 where
  pub dropped : ℕ
  pub accepted : Bool

pub record ByteRing : Type 0 where
  pub queue : List RingEntry
  pub bytes : ℕ
  pub max_bytes : ℕ
  pub drops_total : ℕ

abbrev pub size : RingEntry → ℕ
size e = length e.payload

abbrev pub to_message : RingEntry → QueuedMessage
to_message e = record { payload = e.payload; enqueued_ms = e.enqueued_ms }

abbrev pub to_entry : QueuedMessage → RingEntry
to_entry m = record { payload = m.payload; enqueued_ms = m.enqueued_ms }

unfoldable pub new : ℕ → ByteRing
new max_bytes = record { queue = []; bytes = 0; max_bytes = max max_bytes 1; drops_total = 0 }

unfoldable pub len : ByteRing → ℕ
len r = length r.queue

abbrev null : List RingEntry → Bool
null [] = true
null (e ∷ q) = false

unfoldable pub is_empty : ByteRing → Bool
is_empty r = null r.queue

unfoldable pub byte_len : ByteRing → ℕ
byte_len r = r.bytes

-- `saturating_sub` is the subtraction of ℕ, which stops at 0.
abbrev age : ℕ → List RingEntry → ℕ
age now_ms [] = 0
age now_ms (e ∷ q) = now_ms - e.enqueued_ms

unfoldable pub head_age_ms : ByteRing → ℕ → ℕ
head_age_ms r now_ms = age now_ms r.queue

abbrev pop_from : ByteRing → List RingEntry → Option (RingEntry × ByteRing)
pop_from r [] = none
pop_from r (e ∷ q) = some (e, record r { queue = q; bytes = r.bytes - size e })

unfoldable pub pop_front_inner : ByteRing → Option (RingEntry × ByteRing)
pop_front_inner r = pop_from r r.queue

-- The `while` loop of `push`, on the queue that it pops: what it leaves, and its count of drops.
unfoldable pub make_room : ℕ → List RingEntry → ByteRing → ℕ → ByteRing × ℕ
make_room n [] r dropped = (record r { queue = [] }, dropped)
make_room n (e ∷ q) r dropped =
    let popped : ByteRing = record r {
      queue = q;
      bytes = r.bytes - size e;
      drops_total = add_u64 r.drops_total 1;
    } in
    let rest = make_room n q popped (add_u32 dropped 1) in
    if ltb r.max_bytes (saturating_add r.bytes n)
    then rest
    else (record r { queue = e ∷ q }, dropped)

abbrev push_back : ByteRing → Bytes → ℕ → ByteRing
push_back r payload enqueued_ms = record r {
  queue = r.queue ++ (record { payload = payload; enqueued_ms = enqueued_ms } ∷ []);
  bytes = saturating_add r.bytes (length payload);
}

abbrev pub push_sized : ByteRing → Bytes → ℕ → ByteRing × PushResult
push_sized r payload enqueued_ms =
    if ltb r.max_bytes (length payload)
    then (
      record r { drops_total = add_u64 r.drops_total 1 },
      record { dropped = 1; accepted = false },
    )
    else let (room, dropped) = make_room (length payload) r.queue r 0 in
      (push_back room payload enqueued_ms, record { dropped = dropped; accepted = true })

-- The first `if` is `payload.is_empty()`.
unfoldable pub push : ByteRing → Bytes → ℕ → ByteRing × PushResult
push r [] enqueued_ms = (r, record { dropped = 0; accepted = true })
push r (b ∷ bs) enqueued_ms = push_sized r (b ∷ bs) enqueued_ms

unfoldable pub pop_front : ByteRing → Option (QueuedMessage × ByteRing)
unfolding pop_front_inner
pop_front r = elim (pop_front_inner r) [ none ↦ none | some (e, r') ↦ some (to_message e, r') ]

-- The `for` loop of `pop_up_to`, over the rounds left.
unfoldable pub pop_rounds : ℕ → ByteRing → List QueuedMessage → List QueuedMessage × ByteRing
unfolding pop_front_inner
pop_rounds zero r out = (out, r)
pop_rounds (suc n) r out = elim (pop_front_inner r) [
  | none ↦ pop_rounds n r out
  | some (e, r') ↦ pop_rounds n r' (out ++ (to_message e ∷ []))
]

-- `now_ms` is read and thrown away.
unfoldable pub pop_up_to : ByteRing → ℕ → ℕ → List QueuedMessage × ByteRing
pop_up_to r max_items now_ms = pop_rounds (min max_items (length r.queue)) r []

-- The `while` loop of `push_front`, on the queue read from its back.
unfoldable pub drop_newest : List RingEntry → ByteRing → ℕ → ByteRing × ℕ
drop_newest [] r dropped = (record r { queue = [] }, dropped)
drop_newest (e ∷ back) r dropped =
    let popped : ByteRing = record r {
      bytes = r.bytes - size e;
      drops_total = add_u64 r.drops_total 1;
    } in
    let rest = drop_newest back popped (add_u32 dropped 1) in
    if ltb r.max_bytes r.bytes then rest else (record r { queue = reverse (e ∷ back) }, dropped)

abbrev pub put_front : ByteRing → QueuedMessage → ByteRing
put_front r msg = record r {
  queue = to_entry msg ∷ r.queue;
  bytes = saturating_add r.bytes (length msg.payload);
}

unfoldable pub push_front : ByteRing → QueuedMessage → ByteRing × ℕ
push_front r msg = let r' = put_front r msg in drop_newest (reverse r'.queue) r' 0
