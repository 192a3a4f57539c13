-- ===== src/Consumer/Reached.antt =====
-- What holds in every state that the tasks of a consumer reach.
use cupidmq.Common.{
  if◌then◌else◌, length, ℕ, suc, ◌+◌, ◌≤◌, ◌≡◌, refl, ap, Bool, true, false, not, ◌||◌, [], arith,
}
use cupidmq.Consumer.{
  ConsumerConfig, connecting, idle, leaving, sending, Consumer, connect, fail_session, finish,
  leave_session, reconnect_one, disconnect, wait_empty, time_out, send_fails, release_prefetch_slot,
  handler_fails, close,
}
use cupidmq.Consumer.Moves.{
  Moves, serves, fails_to_connect, registers, requests, stops, loses_idle, loses, times_out, takes,
  sends, fails_to_send, pulls, releases, closes, Reaches, started, moved, left, failed, is_waiting,
  asking, at_rest, bit,
}
use cupidmq.Consumer.Steady.{
  IsConsumer, serve-IsConsumer, settled_down, at_rest_again, shut_in, connect_failed-IsConsumer,
  register-IsConsumer, request-IsConsumer, take_batch-IsConsumer, send-IsConsumer, pull-IsConsumer,
}

module _ (cfg : ConsumerConfig) (n m : ℕ) where
  leave_session-IsConsumer :
      (c : Consumer)
      → c.control ≡ leaving
      → IsConsumer n m c
      → IsConsumer (suc n) m (leave_session cfg c)
  unfolding leave_session
  leave_session-IsConsumer c h v = go (not cfg.reconnect || c.stop)
    where
      shut : c.accept_batch ≡ false
      shut = shut_in cfg n m c leaving h refl v

      go :
          (b : Bool)
          → IsConsumer (suc n) m (
              if b
              then finish c
              else reconnect_one (record c { prefetch = true; control = connecting }))
      go true = record {
        accepts = shut;
        asks = λ none_failed k out free. absurd (cc);
        few = omega (arith, ap asking h, v.few);
      }
      go false = record {
        accepts = shut;
        asks = λ none_failed k out free. refl;
        few = omega (arith, ap asking h, v.few);
      }

  moved-IsConsumer : (c d : Consumer) → Moves cfg c d → IsConsumer n m c → IsConsumer n m d
  unfolding disconnect time_out send_fails release_prefetch_slot close
  moved-IsConsumer c _ (serves items) v = serve-IsConsumer cfg n m items c v
  moved-IsConsumer c _ (fails_to_connect h) v = connect_failed-IsConsumer cfg n m c h v
  moved-IsConsumer c _ (registers written h) v = register-IsConsumer cfg n m written c h v
  moved-IsConsumer c _ (requests written h raised) v =
      request-IsConsumer cfg n m written c h raised v
  moved-IsConsumer c _ (stops h over) v =
      settled_down cfg n m c (record c { control = leaving }) (shut_in cfg n m c idle h refl v) refl
        refl refl (omega arith) refl refl v
  moved-IsConsumer c _ (loses_idle h) v =
      settled_down cfg n m c (fail_session c) (shut_in cfg n m c idle h refl v) refl refl refl
        (omega arith) refl refl v
  moved-IsConsumer c _ (loses h) v =
      settled_down cfg n m c (fail_session (record c { accept_batch = false })) refl refl refl refl
        (omega arith) refl refl v
  moved-IsConsumer c _ (times_out h) v =
      at_rest_again cfg n m c (wait_empty (record c { accept_batch = false })) refl refl refl
        (refl, omega (arith, ap asking h)) refl refl v
  moved-IsConsumer c _ (takes h ready) v = take_batch-IsConsumer cfg n m c h v
  moved-IsConsumer c _ (sends batch h room) v = send-IsConsumer cfg n m batch c h v
  moved-IsConsumer c _ (fails_to_send batch h) v =
      settled_down cfg n m c (record c { control = leaving })
        (shut_in cfg n m c (sending batch) h refl v) refl refl refl (omega arith) refl refl v
  moved-IsConsumer c _ (pulls free) v = pull-IsConsumer cfg n m c free v
  moved-IsConsumer c _ (releases busy) v = record {
    accepts = v.accepts;
    asks = λ none_failed k out free. refl;
    few = omega (arith, ap bit busy, v.few);
  }
  moved-IsConsumer c _ closes v = record { accepts = v.accepts; asks = v.asks; few = v.few }

connect-IsConsumer : IsConsumer 0 0 connect
unfolding connect
connect-IsConsumer = record {
  accepts = refl;
  asks = λ none_failed k out free. refl;
  few = omega arith;
}

handler_fails-IsConsumer :
    (n m : ℕ) (c : Consumer)
    → c.handling ≡ true
    → IsConsumer n m c
    → IsConsumer n (suc m) (handler_fails c)
unfolding handler_fails
handler_fails-IsConsumer n m c busy v = record {
  accepts = v.accepts;
  asks = λ none_failed rest out free. absurd (omega (arith, none_failed));
  few = omega (arith, ap bit busy, v.few);
}

Reaches-IsConsumer :
    {cfg : ConsumerConfig} {n m : ℕ} {c : Consumer} → Reaches cfg n m c → IsConsumer n m c
Reaches-IsConsumer started = connect-IsConsumer
Reaches-IsConsumer {cfg} {n} {m} {c = d} (moved {c = c} before move) =
    moved-IsConsumer cfg n m c d move (Reaches-IsConsumer before)
Reaches-IsConsumer {cfg} (left {n} {m} {c} before h) =
    leave_session-IsConsumer cfg n m c h (Reaches-IsConsumer before)
Reaches-IsConsumer (failed {n} {m} {c} before busy) =
    handler_fails-IsConsumer n m c busy (Reaches-IsConsumer before)

-- In every state that the tasks of a consumer reach, in any order, a batch is accepted exactly while
-- the control task waits for one.
pub Reaches-accepts :
    {cfg : ConsumerConfig} {n m : ℕ} {c : Consumer}
    → Reaches cfg n m c
    → c.accept_batch ≡ is_waiting c.control
Reaches-accepts reached = (Reaches-IsConsumer reached).accepts

-- In every state that the tasks of a consumer reach, in any order, while no handler has returned an
-- error, the consumer does not stall: where the control task could ask for a batch, no batch is in the
-- channel and no handler runs, `prefetch` is raised, so that it asks.
pub Reaches-asks :
    {cfg : ConsumerConfig} {n : ℕ} {c : Consumer}
    → Reaches cfg n 0 c
    → c.control ≡ idle
    → c.out ≡ []
    → c.handling ≡ false
    → c.prefetch ≡ true
Reaches-asks reached h = (Reaches-IsConsumer reached).asks refl (ap at_rest h)

-- In every state that the tasks of a consumer reach, in any order, the batches in the channel and with
-- the handler are at most one more than the sessions that it has left, whatever `prefetch_batch_count`
-- is, and whichever handlers returned an error.
pub Reaches-few :
    {cfg : ConsumerConfig} {n m : ℕ} {c : Consumer}
    → Reaches cfg n m c
    → length c.out + bit c.handling ≤ 1 + n
Reaches-few reached = omega (arith, (Reaches-IsConsumer reached).few)
