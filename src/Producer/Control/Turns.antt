-- ===== src/Producer/Control/Turns.antt =====
-- The turns of the control task: a producer announces itself once for each turn it is given.
use cupidmq.Common.{
  Bool-cases, ℕ, ◌+◌, ◌≤◌, inl, inr, Bool, true, false, not, none, List, [], ◌∷◌, arith,
}
use cupidmq.Producer.{Inner, ProducerStats}
use cupidmq.Producer.LinkState.{idle, busy}
use cupidmq.Producer.Delivery.{mark_disconnected, deliver_assign, handle_delivery_result}
use cupidmq.Producer.Control.{
  announce, greet, may_try_connect, connect_if_needed, is_idle, maybe_send_ready,
  maybe_send_heartbeat, Event, attempt, assigned, read_failed, notified, ticked, run_control,
}

abbrev pub one_if : Bool → ℕ
one_if true = 1
one_if false = 0

-- An event opens a turn if it may leave the link idle: a connection, or an ASGN that was served.
abbrev pub opens : Event → ℕ
opens (attempt reached) = one_if reached
opens (assigned assign clock network meanwhile wrote) = 1
opens _ = 0

abbrev pub turn : Inner → ℕ
turn st = one_if (is_idle st.link_state)

-- An announcement uses the turn up, whether the socket takes it or not.
maybe_send_ready-turn :
    (st : Inner) (stats : ProducerStats) (wrote : Bool) (now : ℕ)
    → one_if (maybe_send_ready st stats wrote now).0 + turn (maybe_send_ready st stats wrote now).1
      ≤ turn st
unfolding maybe_send_ready mark_disconnected
maybe_send_ready-turn st stats wrote now = ground arith

turn-maybe_send_heartbeat :
    (st : Inner) (wrote : Bool) (now : ℕ) → turn (maybe_send_heartbeat st wrote now) ≤ turn st
unfolding maybe_send_heartbeat mark_disconnected
turn-maybe_send_heartbeat st wrote now = ground arith

one_turn : (st : Inner) → turn st ≤ 1
one_turn st = ground arith

announce-turn :
    (st : Inner) (stats : ProducerStats) (wr wh : Bool) (now : ℕ)
    → one_if (announce st stats wr wh now).0 + turn (announce st stats wr wh now).1 ≤ turn st
announce-turn st stats wr wh now = omega (
  arith,
  maybe_send_ready-turn st stats wr now,
  turn-maybe_send_heartbeat (maybe_send_ready st stats wr now).1 wh now,
)

abbrev joined : Inner → Inner
joined st = record st { connected = true; link_state = idle; last_connect_fail = none }

greet-turn :
    (st : Inner) (stats : ProducerStats) (reached wr wh : Bool) (now : ℕ)
    → one_if (greet (connect_if_needed st stats reached now) wr wh now).0
        + turn (greet (connect_if_needed st stats reached now) wr wh now).1
      ≤ turn st + one_if reached
unfolding connect_if_needed
greet-turn st stats true wr wh now = elim (Bool-cases (not (may_try_connect st now))) [
  | inl early ↦ rw early (omega arith)
  | inr due ↦ rw due (omega (arith, announce-turn (joined st) stats wr wh now))
]
greet-turn st stats false wr wh now = elim (Bool-cases (not (may_try_connect st now))) [
  | inl early ↦ rw early (omega arith)
  | inr due ↦ rw due (omega arith)
]

run_control-turn :
    (event : Event) (st : Inner) (stats : ProducerStats) (wr wh : Bool) (now : ℕ)
    → one_if (run_control event st stats wr wh now).0
        + turn (run_control event st stats wr wh now).1
      ≤ turn st + opens event
unfolding run_control
run_control-turn (attempt reached) st stats wr wh now = greet-turn st stats reached wr wh now
run_control-turn (assigned assign clock network meanwhile wrote) st stats wr wh now =
    let (report, served) =
      deliver_assign (record st { link_state = busy }) assign clock network meanwhile in
    let (reported, stats') = handle_delivery_result served stats report wrote now in
    omega (arith, announce-turn (record reported { link_state = idle }) stats' wr wh now)
run_control-turn read_failed st stats wr wh now = unfold mark_disconnected in omega arith
run_control-turn notified st stats wr wh now = omega (arith, maybe_send_ready-turn st stats wr now)
run_control-turn ticked st stats wr wh now = omega (arith, turn-maybe_send_heartbeat st wh now)

-- An event with whether the socket takes the frames that it sends, and its time.
pub record Moment : Type 0 where
  pub event : Event
  pub wrote_ready : Bool
  pub wrote_heartbeat : Bool
  pub now : ℕ

-- The PRDYs handed to the socket over a sequence of events, and the turns that the events open.
unfoldable pub announcements : List Moment → Inner → ProducerStats → ℕ
announcements [] st stats = 0
announcements (m ∷ ms) st stats =
    let (sent, st', stats') = run_control m.event st stats m.wrote_ready m.wrote_heartbeat m.now in
    one_if sent + announcements ms st' stats'

unfoldable pub turns : List Moment → ℕ
turns [] = 0
turns (m ∷ ms) = opens m.event + turns ms

-- Over every sequence of events the control task sends at most one PRDY for each connection that it
-- reached and each ASGN that it served, and one more if the link was idle at the start: however
-- often the accumulator notifies it, it never announces itself twice for one turn.
pub announcements-turns :
    (ms : List Moment) (st : Inner) (stats : ProducerStats)
    → announcements ms st stats ≤ turn st + turns ms
unfolding announcements turns
announcements-turns [] st stats = omega arith
announcements-turns (m ∷ ms) st stats =
    let step = run_control m.event st stats m.wrote_ready m.wrote_heartbeat m.now in
    omega (
      arith,
      run_control-turn m.event st stats m.wrote_ready m.wrote_heartbeat m.now,
      announcements-turns ms step.1 step.2,
    )
