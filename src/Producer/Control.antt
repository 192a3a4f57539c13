-- ===== src/Producer/Control.antt =====
-- master/src/producer/client.rs: `run_control`, the task that talks to the master. One event is one
-- arm of its `select!`, or one pass of the outer loop that connects. Whether a socket took a frame, and
-- whether a connection was made, are inputs.
pub mod Turns
use cupidmq.Common.{
  ltb, leb, ◌==◌, if◌then◌else◌, ltb→lt, ltb→le, lt→ltb, le→ltb, le→leb, lt→leb, ==_iff, Bool-cases,
  Option-cases, length, take, drop, get_elem?, All, length-append, take-append-drop, length-take,
  length-drop, take_all, take-append_length, drop-append_length, length-reverse, length-map,
  All-append, All-map, take-min-length, drop-min-length, take-append_le, take-take,
  drop-take-append, take-map, drop-map, u16_mod, u32_mod, u64_mod, usize_max, saturating_add,
  as_u16, as_u32, add_u32, add_u64, sub_u64, Bytes, ℕ, zero, suc, ◌+◌, ◌-◌, ◌*◌, ◌/◌, ◌%◌, ◌^◌, ◌≤◌,
  ◌<◌, min, max, ◌≡◌, refl, sym, ap, ap₂, subst, ◌∙◌, ◌≢◌, ◌↔◌, ◌⊎◌, inl, inr, Bool, true, false,
  not, ◌&&◌, ◌||◌, Option, none, some, List, [], ◌∷◌, ◌++◌, map, reverse, flatten, append-nil,
  append_assoc, map-append, reverse-append, reverse-reverse, reverse-cons, arith,
}
use cupidmq.Ring
use cupidmq.Protocol.Control.{AssignRequest}
use cupidmq.Producer.{Inner, Readings, ProducerStats, LinkState}
use cupidmq.Producer.LinkState.{idle, ready, busy}
use cupidmq.Producer.Delivery.{
  Delivery, Report, deliver_assign, handle_delivery_result, mark_disconnected,
}

-- `t.elapsed() < Duration::from_secs(…)`, on a clock in milliseconds.
abbrev waited : Inner → ℕ → Option ℕ → Bool
waited st now none = true
waited st now (some t) = not (ltb (now - t) (st.config.reconnect_delay_secs * 1000))

unfoldable pub may_try_connect : Inner → ℕ → Bool
may_try_connect st now = st.connected || waited st now st.last_connect_fail

abbrev count_reconnect : ProducerStats → ProducerStats
count_reconnect stats = record stats { reconnects = add_u64 stats.reconnects 1 }

-- `reached` is the outcome of `TcpStream::connect`; the Boolean result says that there is a stream.
unfoldable pub connect_if_needed : Inner → ProducerStats → Bool → ℕ → Bool × Inner × ProducerStats
connect_if_needed st stats reached now =
    if not (may_try_connect st now)
    then (false, st, stats)
    else if reached
    then (true, record st { connected = true; link_state = idle; last_connect_fail = none }, stats)
    else (false, record st { last_connect_fail = some now }, count_reconnect stats)

abbrev pub is_idle : LinkState → Bool
is_idle idle = true
is_idle _ = false

abbrev pub should_send : Inner → Bool
should_send st = not (Ring.is_empty st.ring) && is_idle st.link_state && st.connected

-- The Boolean result says that a PRDY was handed to the socket, which `wrote` says it took. The
-- second test under the lock repeats the first, with nothing between them that changes the state.
unfoldable pub maybe_send_ready : Inner → ProducerStats → Bool → ℕ → Bool × Inner × ProducerStats
maybe_send_ready st stats wrote now =
    let announced : Inner = record st { link_state = ready } in
    if should_send st
    then (
      true,
      if wrote then announced else mark_disconnected announced now,
      if wrote then stats else count_reconnect stats,
    )
    else (false, st, stats)

unfoldable pub maybe_send_heartbeat : Inner → Bool → ℕ → Inner
maybe_send_heartbeat st wrote now =
    if st.connected && not wrote then mark_disconnected st now else st

-- What the task meets next: the outcome of a connection attempt, an ASGN with the readings of the clock
-- while it is served, the outcome of its delivery, what the program did to the state meanwhile and whether the report went out, a failed
-- read, a notification, a tick of the heartbeat.
pub data Event : Type 0 where
  attempt : Bool → Event
  assigned : AssignRequest → Readings → (List Bytes → Delivery) → (Inner → Inner) → Bool → Event
  read_failed : Event
  notified : Event
  ticked : Event

-- `maybe_send_ready` and then `maybe_send_heartbeat`.
abbrev pub announce : Inner → ProducerStats → Bool → Bool → ℕ → Bool × Inner × ProducerStats
announce st stats wrote_ready wrote_heartbeat now =
    let (sent, st', stats') = maybe_send_ready st stats wrote_ready now in
    (sent, maybe_send_heartbeat st' wrote_heartbeat now, stats')

abbrev pub greet : Bool × Inner × ProducerStats → Bool → Bool → ℕ → Bool × Inner × ProducerStats
greet (stream, st, stats) wrote_ready wrote_heartbeat now =
    if stream then announce st stats wrote_ready wrote_heartbeat now else (false, st, stats)

-- One event. The Boolean result says that a PRDY was handed to the socket.
unfoldable pub run_control :
    Event → Inner → ProducerStats → Bool → Bool → ℕ → Bool × Inner × ProducerStats
run_control (attempt reached) st stats wrote_ready wrote_heartbeat now =
    greet (connect_if_needed st stats reached now) wrote_ready wrote_heartbeat now
run_control (assigned assign clock network meanwhile wrote) st stats wrote_ready wrote_heartbeat
      now =
    let (report, served) =
      deliver_assign (record st { link_state = busy }) assign clock network meanwhile in
    let (reported, stats') = handle_delivery_result served stats report wrote now in
    announce (record reported { link_state = idle }) stats' wrote_ready wrote_heartbeat now
run_control read_failed st stats wrote_ready wrote_heartbeat now =
    (false, mark_disconnected st now, stats)
run_control notified st stats wrote_ready wrote_heartbeat now =
    maybe_send_ready st stats wrote_ready now
run_control ticked st stats wrote_ready wrote_heartbeat now =
    (false, maybe_send_heartbeat st wrote_heartbeat now, stats)
