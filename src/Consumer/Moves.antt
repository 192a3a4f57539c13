-- ===== src/Consumer/Moves.antt =====
-- The tasks of the consumer, move by move, and the states that they reach.
use cupidmq.Common.{length, Bytes, ℕ, suc, ◌<◌, max, ◌≡◌, Bool, true, false, List}
use cupidmq.Consumer.{
  ConsumerConfig, Control, connecting, idle, waiting, leaving, sending, Consumer, connect,
  serve_batch, fail_session, connect_failed, register, leave_session, request, disconnect, time_out,
  take_batch, send, send_fails, pull_batch, release_prefetch_slot, handler_fails, close,
}

-- A move of one task. The conditions are what the task waits for.
pub data Moves (cfg : ConsumerConfig) : Consumer → Consumer → Type 0 where
  serves : {c : Consumer} → (items : List Bytes) → Moves cfg c (serve_batch items c)
  fails_to_connect : {c : Consumer} → c.control ≡ connecting → Moves cfg c (connect_failed cfg c)
  registers :
      {c : Consumer}
      → (written : Bool) → c.control ≡ connecting
      → Moves cfg c (register cfg written c)
  requests :
      {c : Consumer}
      → (written : Bool) → c.control ≡ idle
      → c.prefetch ≡ true
      → Moves cfg c (request cfg written c)
  stops :
      {c : Consumer}
      → c.control ≡ idle
      → c.stop ≡ true
      → Moves cfg c (record c { control = leaving })
  loses_idle : {c : Consumer} → c.control ≡ idle → Moves cfg c (fail_session c)
  loses : {c : Consumer} → c.control ≡ waiting → Moves cfg c (disconnect c)
  times_out : {c : Consumer} → c.control ≡ waiting → Moves cfg c (time_out c)
  takes : {c : Consumer} → c.control ≡ waiting → c.batch_ready ≡ true → Moves cfg c (take_batch c)
  sends :
      {c : Consumer}
      → (batch : List Bytes) → c.control ≡ sending batch
      → length c.out < max cfg.prefetch_batch_count 1
      → Moves cfg c (send batch c)
  fails_to_send :
      {c : Consumer} → (batch : List Bytes) → c.control ≡ sending batch → Moves cfg c (send_fails c)
  pulls : {c : Consumer} → c.handling ≡ false → Moves cfg c (pull_batch c).1
  releases : {c : Consumer} → c.handling ≡ true → Moves cfg c (release_prefetch_slot c)
  closes : {c : Consumer} → Moves cfg c (close c)

-- The states that are reached, with the number of the sessions that have been left and of the handlers
-- that have returned an error. After an error `consume` may be called again.
pub data Reaches (cfg : ConsumerConfig) : ℕ → ℕ → Consumer → Type 0 where
  started : Reaches cfg 0 0 connect
  moved : {n m : ℕ} {c d : Consumer} → Reaches cfg n m c → Moves cfg c d → Reaches cfg n m d
  left :
      {n m : ℕ} {c : Consumer}
      → Reaches cfg n m c
      → c.control ≡ leaving
      → Reaches cfg (suc n) m (leave_session cfg c)
  failed :
      {n m : ℕ} {c : Consumer}
      → Reaches cfg n m c
      → c.handling ≡ true
      → Reaches cfg n (suc m) (handler_fails c)

abbrev pub is_waiting : Control → Bool
is_waiting waiting = true
is_waiting _ = false

abbrev pub asking : Control → ℕ
asking waiting = 1
asking (sending batch) = 1
asking _ = 0

abbrev pub at_rest : Control → Bool
at_rest connecting = true
at_rest idle = true
at_rest _ = false

abbrev pub bit : Bool → ℕ
bit true = 1
bit false = 0
