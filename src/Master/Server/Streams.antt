-- ===== src/Master/Server/Streams.antt =====
-- The connection of a producer, whose bytes are its frames one after the other, does what its frames do
-- in their order.
use cupidmq.Common.{
  length, All, length-append, Bytes, ℕ, zero, suc, ◌≤◌, ◌<◌, ◌≡◌, refl, ap, none, some, List, [],
  ◌∷◌, ◌++◌, arith,
}
use cupidmq.Protocol.Wire.{Error, err}
use cupidmq.Master.Matchmaker.{Relay}
use cupidmq.Master.Matchmaker.Events.{on_producer_disconnect}
use cupidmq.Master.Server.{ProducerFrame, connect_producer}
use cupidmq.Master.Server.Frames.{
  read_producer_frame, encode_frame, IsFrame, magic_of, fields_of, magic_of-fields_of,
  length-magic_of, magic_of-is_producer_magic, read_payload-fields_of, read_exact-magic_of,
  read_producer_frame-encode,
}
use cupidmq.Master.Server.Sessions.{
  World, Ended, or_next, handle_frame, producer_read_loop, handle_producer, handle_control,
}

-- The bytes of a connection: its frames, and what stands behind them.
pub stream : List ProducerFrame → Bytes → Bytes
stream [] tail = tail
stream (frame ∷ frames) tail = encode_frame frame ++ stream frames tail

module _ {F : Type 0} (w : World F) where
  -- The frames handled in their order, to the first that ends the connection; behind the last, the
  -- reader ends it.
  pub handle_frames : ℕ → ℕ → List ProducerFrame → Error → Relay F → Ended F
  handle_frames id n [] e s = (some e, w.others n s)
  handle_frames id n (frame ∷ frames) e s =
      or_next (handle_frames id (suc n) frames e) (handle_frame w id n frame s)

  pub producer_session : Bytes → List ProducerFrame → Error → Relay F → Ended F
  producer_session addr frames e s =
      let (id, registered) = connect_producer addr (w.clock 0) (w.others 0 s) in
      let (reason, left) = handle_frames id 1 frames e registered in
      (reason, on_producer_disconnect w.send w.closing id left)

  or_next_same :
      (f g : Relay F → Ended F) (out : Ended F)
      → ((s : Relay F) → f s ≡ g s)
      → or_next f out ≡ or_next g out
  or_next_same f g (none, s) h = h s
  or_next_same f g (some e, s) h = refl

  -- The frames are handled if there is fuel for one more than them.
  producer_read_loop_lem :
      (fuel id n : ℕ) (frames : List ProducerFrame) (tail : Bytes) (e : Error) (s : Relay F)
      → All (IsFrame w.from_utf8_lossy) frames
      → read_producer_frame w.from_utf8_lossy tail ≡ err e
      → length frames < fuel
      → producer_read_loop fuel w id n (stream frames tail) s ≡ handle_frames id n frames e s
  unfolding producer_read_loop stream handle_frames
  producer_read_loop_lem zero id n frames tail e s all ends h = absurd (omega arith)
  producer_read_loop_lem (suc fuel) id n [] tail e s all ends h = rw ends refl
  producer_read_loop_lem (suc fuel) id n (frame ∷ frames) tail e s (fits, all) ends h =
      rw (read_producer_frame-encode w.from_utf8_lossy frame (stream frames tail) fits) (
        or_next_same (producer_read_loop fuel w id (suc n) (stream frames tail))
          (handle_frames id (suc n) frames e) (handle_frame w id n frame s)
          (λ s'. producer_read_loop_lem fuel id (suc n) frames tail e s' all ends (omega arith)))

  length-stream :
      (frames : List ProducerFrame) (tail : Bytes) → length frames ≤ length (stream frames tail)
  unfolding stream
  length-stream [] tail = omega arith
  length-stream (frame ∷ frames) tail = omega (
    arith,
    length-append (encode_frame frame) (stream frames tail),
    ap length (magic_of-fields_of frame),
    length-append (magic_of frame) (fields_of frame),
    length-magic_of frame,
    length-stream frames tail,
  )

  -- A connection that sends at least one frame of a producer, each of which fits, and then bytes that
  -- the reader refuses: the master registers a producer, handles all the frames in their order up to
  -- the first that ends the connection, and cleans up.
  pub handle_control-stream :
      (addr : Bytes) (frame : ProducerFrame) (frames : List ProducerFrame) (tail : Bytes)
      (e : Error) (s : Relay F)
      → All (IsFrame w.from_utf8_lossy) (frame ∷ frames)
      → read_producer_frame w.from_utf8_lossy tail ≡ err e
      → handle_control w addr (stream (frame ∷ frames) tail) s
        ≡ producer_session addr (frame ∷ frames) e s
  unfolding handle_control handle_producer stream producer_session handle_frames
  handle_control-stream addr frame frames tail e s (fits, all) ends =
      let (other, known) = magic_of-is_producer_magic frame in
      rw
        (
          read_exact-magic_of frame (stream frames tail),
          other,
          known,
          read_payload-fields_of w.from_utf8_lossy frame (stream frames tail) fits,
          or_next_same
              (producer_read_loop (suc (length (fields_of frame ++ stream frames tail))) w id 2
                (stream frames tail))
              (handle_frames id 2 frames e) (handle_frame w id 1 frame registered)
              (λ s'.
                producer_read_loop_lem (suc (length (fields_of frame ++ stream frames tail))) id 2
                  frames tail e s' all ends
                  (omega (
                    arith,
                    length-append (fields_of frame) (stream frames tail),
                    length-stream frames tail,
                  ))),
        )
        refl
    where
      id : ℕ
      id = (connect_producer addr (w.clock 0) (w.others 0 s)).0

      registered : Relay F
      registered = (connect_producer addr (w.clock 0) (w.others 0 s)).1
