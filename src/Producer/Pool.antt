-- ===== src/Producer/Pool.antt =====
-- master/src/producer/delivery_pool.rs: `DeliveryPool`, the idle connections of the producer by their
-- address, and `tcp_deliver_batch` of master/src/producer/client.rs. A connection is a value of a type `S`; the readings of the clock and the outcomes of the
-- attempts to connect are arguments.
pub mod Reuse
mod Runs
use cupidmq.Common.{
  ltb, leb, ◌==◌, if◌then◌else◌, ltb→lt, ltb→le, lt→ltb, le→ltb, le→leb, lt→leb, ==_iff, Bool-cases,
  Option-cases, length, take, drop, get_elem?, All, length-append, take-append-drop, length-take,
  length-drop, take_all, take-append_length, drop-append_length, length-reverse, length-map,
  All-append, All-map, take-min-length, drop-min-length, take-append_le, take-take,
  drop-take-append, take-map, drop-map, u16_mod, u32_mod, u64_mod, usize_max, saturating_add,
  as_u16, as_u32, add_u32, add_u64, sub_u64, Bytes, ℕ, zero, suc, ◌+◌, ◌-◌, ◌*◌, ◌/◌, ◌%◌, ◌^◌, ◌≤◌,
  ◌<◌, min, max, ◌≡◌, refl, sym, ap, ap₂, subst, ◌∙◌, ◌≢◌, ◌↔◌, ◌⊎◌, inl, inr, Bool, true, false,
  not, ◌&&◌, ◌||◌, Option, none, some, List, [], ◌∷◌, ◌++◌, map, reverse, flatten, append-nil,
  append_assoc, map-append, reverse-append, reverse-reverse, reverse-cons, arith,
}
use cupidmq.Protocol.Wire.{bytes_eq}

abbrev pub connect_attempts : ℕ
connect_attempts = 4

abbrev pub connect_backoff_ms : ℕ
connect_backoff_ms = 5

pub record PooledConn (S : Type 0) : Type 0 where
  pub stream : S
  pub idle_since : ℕ

pub record DeliveryPool (S : Type 0) : Type 0 where
  pub conns : List (Bytes × PooledConn S)
  pub idle_timeout : ℕ

-- An attempt to connect: an error may be of the kind that is tried again.
pub data Attempt (S : Type 0) : Type 0 where
  connected : S → Attempt S
  refused : Bool → Attempt S

-- The pause behind a failed attempt.
abbrev pub backoff_ms : ℕ → ℕ
backoff_ms attempt = connect_backoff_ms * 2 ^ min attempt 3

module _ {S : Type 0} where
  unfoldable pub new : ℕ → DeliveryPool S
  new idle_timeout = record { conns = []; idle_timeout = idle_timeout }

  -- `idle_since.elapsed() < idle_timeout`
  abbrev pub fresh : ℕ → ℕ → PooledConn S → Bool
  fresh now idle_timeout c = ltb (now - c.idle_since) idle_timeout

  unfoldable pub retain_fresh : ℕ → ℕ → List (Bytes × PooledConn S) → List (Bytes × PooledConn S)
  retain_fresh now idle_timeout [] = []
  retain_fresh now idle_timeout ((addr, c) ∷ conns) =
      let rest = retain_fresh now idle_timeout conns in
      if fresh now idle_timeout c then (addr, c) ∷ rest else rest

  -- `HashMap::get` and `HashMap::remove`
  unfoldable pub find : Bytes → List (Bytes × PooledConn S) → Option (PooledConn S)
  find addr [] = none
  find addr ((k, c) ∷ conns) =
      let rest = find addr conns in if bytes_eq addr k then some c else rest

  unfoldable pub without_addr : Bytes → List (Bytes × PooledConn S) → List (Bytes × PooledConn S)
  without_addr addr [] = []
  without_addr addr ((k, c) ∷ conns) =
      let rest = without_addr addr conns in if bytes_eq addr k then rest else (k, c) ∷ rest

  unfoldable pub evict_stale : ℕ → DeliveryPool S → DeliveryPool S
  evict_stale now p = record p { conns = retain_fresh now p.idle_timeout p.conns }

  unfoldable pub invalidate : Bytes → DeliveryPool S → DeliveryPool S
  invalidate addr p = record p { conns = without_addr addr p.conns }

  abbrev pub if_fresh : ℕ → ℕ → Option (PooledConn S) → Option S
  if_fresh now idle_timeout none = none
  if_fresh now idle_timeout (some c) =
      if leb idle_timeout (now - c.idle_since) then none else some c.stream

  unfoldable pub take_conn : Bytes → ℕ → DeliveryPool S → Option S × DeliveryPool S
  take_conn addr now p =
      let evicted = evict_stale now p in
      (
        if_fresh now evicted.idle_timeout (find addr evicted.conns),
        record evicted { conns = without_addr addr evicted.conns },
      )

  unfoldable pub put : Bytes → S → ℕ → DeliveryPool S → DeliveryPool S
  put addr stream now p =
      let evicted = evict_stale now p in
      record evicted {
        conns =
            (addr, record { stream = stream; idle_since = now }) ∷ without_addr addr evicted.conns;
      }

  -- From an attempt on, with as many attempts left: the connection, and for how long it slept.
  abbrev pub after_attempt : ℕ → ℕ → Option S × ℕ → Attempt S → Option S × ℕ
  after_attempt left attempt rest (connected s) = (some s, 0)
  after_attempt left attempt rest (refused false) = (none, 0)
  after_attempt left attempt rest (refused true) =
      if left == 0 then (none, 0) else (rest.0, backoff_ms attempt + rest.1)

  unfoldable pub attempts : (ℕ → Attempt S) → ℕ → ℕ → Option S × ℕ
  attempts dial zero attempt = (none, 0)
  attempts dial (suc left) attempt =
      after_attempt left attempt (attempts dial left (suc attempt)) (dial attempt)

  unfoldable pub connect_fresh : (ℕ → Attempt S) → Option S × ℕ
  connect_fresh dial = attempts dial connect_attempts 0

  abbrev pub or_connect : (ℕ → Attempt S) → Option S → Option S
  or_connect dial none = (connect_fresh dial).0
  or_connect dial (some s) = some s

  unfoldable pub get_or_connect :
      (ℕ → Attempt S) → Bytes → ℕ → DeliveryPool S → Option S × DeliveryPool S
  get_or_connect dial addr now p =
      let (pooled, p') = take_conn addr now p in (or_connect dial pooled, p')

-- master/src/producer/client.rs: what `tcp_deliver_batch` meets: the outcomes of the connects of each of
-- its attempts, whether the write of an attempt succeeds, and the clock when a
-- connection is taken and when it is put back.
pub record Network (S : Type 0) : Type 0 where
  pub dial : ℕ → ℕ → Attempt S
  pub wrote : ℕ → S → Bool
  pub clock : ℕ → ℕ
  pub clock_after : ℕ → ℕ

module _ {S : Type 0} where
  abbrev pub written :
      Network S
      → Bytes
      → ℕ
      → (DeliveryPool S → Bool × DeliveryPool S)
      → Option S × DeliveryPool S
      → Bool × DeliveryPool S
  written w addr attempt rest (none, p) = (false, p)
  written w addr attempt rest (some s, p) =
      if w.wrote attempt s
      then (true, put addr s (w.clock_after attempt) p)
      else rest (invalidate addr p)

  unfoldable pub deliver_attempts :
      Network S → Bytes → ℕ → ℕ → DeliveryPool S → Bool × DeliveryPool S
  deliver_attempts w addr zero attempt p = (false, p)
  deliver_attempts w addr (suc left) attempt p =
      written w addr attempt (deliver_attempts w addr left (suc attempt))
        (get_or_connect (w.dial attempt) addr (w.clock attempt) p)

  unfoldable pub tcp_deliver_batch : Network S → Bytes → DeliveryPool S → Bool × DeliveryPool S
  tcp_deliver_batch w addr p = deliver_attempts w addr 2 0 p
