-- ===== src/Master/Server/Sessions.antt =====
-- master/src/server.rs: a whole control connection, `handle_control`, from its bytes. The task of the
-- connection works on the state that the other tasks leave, and those come in between its frames as
-- `others`.
use cupidmq.Common.{if◌then◌else◌, length, Bytes, ℕ, zero, suc, Bool, Option, none, some}
use cupidmq.Protocol.Wire.{bytes_eq, Error, unexpected_magic, Result, ok, err, read_exact_async}
use cupidmq.Protocol.Control.{
  ReadyRequest, magic_register, read_register_payload, read_consumer_ready_request,
}
use cupidmq.Master.Consumers.{Floats}
use cupidmq.Master.Matchmaker.{Relay}
use cupidmq.Master.Matchmaker.Events.{on_producer_disconnect}
use cupidmq.Master.Server.{
  ProducerFrame, process_producer_frame, connect_producer, connect_consumer, on_consumer_ready,
  disconnect_consumer,
}
use cupidmq.Master.Server.Frames.{is_producer_magic, read_payload, read_producer_frame}

-- What is around a connection: the floating-point numbers, the lossy conversion, which sockets of
-- producers take a frame, the clock and the other tasks at each of its steps and at its end, and the name that
-- a consumer starts with.
pub record World (F : Type 0) : Type 0 where
  pub floats : Floats F
  pub from_utf8_lossy : Bytes → Bytes
  pub send : ℕ → Bytes → Bool
  pub clock : ℕ → ℕ
  pub closing : ℕ
  pub others : ℕ → Relay F → Relay F
  pub tag : ℕ → Bytes

-- What ends a task, or `none` if its fuel does, and the state that it leaves.
abbrev pub Ended : Type 0 → Type 0
Ended F = Option Error × Relay F

module _ {F : Type 0} where
  abbrev pub or_next : (Relay F → Ended F) → Ended F → Ended F
  or_next rest (none, s) = rest s
  or_next rest (some e, s) = (some e, s)

  abbrev pub handle_frame : World F → ℕ → ℕ → ProducerFrame → Relay F → Ended F
  handle_frame w id n frame s =
      process_producer_frame w.floats w.send (w.clock n) id frame (w.others n s)

  abbrev pub with_frame :
      World F
      → ℕ
      → ℕ
      → (Bytes → Relay F → Ended F)
      → Result (ProducerFrame × Bytes)
      → Relay F
      → Ended F
  with_frame w id n rest (err e) s = (some e, w.others n s)
  with_frame w id n rest (ok (frame, bytes)) s = or_next (rest bytes) (handle_frame w id n frame s)

  unfoldable pub producer_read_loop : ℕ → World F → ℕ → ℕ → Bytes → Relay F → Ended F
  producer_read_loop zero w id n bytes s = (none, s)
  producer_read_loop (suc fuel) w id n bytes s =
      with_frame w id n (producer_read_loop fuel w id (suc n))
        (read_producer_frame w.from_utf8_lossy bytes) s

  -- The first frame, of which the magic has been read, the others, and the cleanup.
  unfoldable pub handle_producer : World F → Bytes → Bytes → Bytes → Relay F → Ended F
  handle_producer w addr magic bytes s =
      let (id, registered) = connect_producer addr (w.clock 0) (w.others 0 s) in
      let (reason, left) =
        with_frame w id 1 (producer_read_loop (suc (length bytes)) w id 2)
          (read_payload w.from_utf8_lossy magic bytes) registered in
      (reason, on_producer_disconnect w.send w.closing id left)

  abbrev pub with_request :
      World F
      → ℕ
      → ℕ
      → Bytes
      → (Bytes → Relay F → Ended F)
      → Result (ReadyRequest × Bytes)
      → Relay F
      → Ended F
  with_request w id n data_addr rest (err e) s = (some e, w.others n s)
  with_request w id n data_addr rest (ok (request, bytes)) s =
      rest bytes (on_consumer_ready w.floats w.send (w.clock n) id data_addr request (w.others n s))

  unfoldable pub consumer_read_loop : ℕ → World F → ℕ → ℕ → Bytes → Bytes → Relay F → Ended F
  consumer_read_loop zero w id n data_addr bytes s = (none, s)
  consumer_read_loop (suc fuel) w id n data_addr bytes s =
      with_request w id n data_addr (consumer_read_loop fuel w id (suc n) data_addr)
        (read_consumer_ready_request w.from_utf8_lossy bytes) s

  abbrev pub with_data_addr : World F → Bytes → Result (Bytes × Bytes) → Relay F → Ended F
  with_data_addr w addr (err e) s = (some e, s)
  with_data_addr w addr (ok (data_addr, bytes)) s =
      let (id, registered) =
        connect_consumer w.floats w.tag addr data_addr (w.clock 0) (w.others 0 s) in
      let (reason, left) =
        consumer_read_loop (suc (length bytes)) w id 1 data_addr bytes registered in
      (reason, disconnect_consumer w.send w.closing id left)

  -- The rest of a connection that starts with REG!.
  unfoldable pub handle_consumer : World F → Bytes → Bytes → Relay F → Ended F
  handle_consumer w addr bytes s =
      with_data_addr w addr (read_register_payload w.from_utf8_lossy bytes) s

  abbrev pub handle_magic : World F → Bytes → Result (Bytes × Bytes) → Relay F → Ended F
  handle_magic w addr (err e) s = (some e, s)
  handle_magic w addr (ok (magic, bytes)) s =
      if bytes_eq magic magic_register
      then handle_consumer w addr bytes s
      else if is_producer_magic magic
      then handle_producer w addr magic bytes s
      else (some unexpected_magic, s)

  unfoldable pub handle_control : World F → Bytes → Bytes → Relay F → Ended F
  handle_control w addr bytes s = handle_magic w addr (read_exact_async 4 bytes) s
