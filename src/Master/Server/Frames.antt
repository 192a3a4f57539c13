-- ===== src/Master/Server/Frames.antt =====
-- master/src/server.rs: how the bytes of a producer's connection become the frames that the master
-- handles.
use cupidmq.Common.{
  if◌then◌else◌, length, drop, u16_mod, u32_mod, Bytes, ◌<◌, ◌≡◌, refl, Bool, true, false, ◌||◌,
  ◌++◌, append_assoc,
}
use cupidmq.Protocol.Wire.{
  bytes_eq, unexpected_magic, ok, Reader, ◌>>=◌, return, fail, read_exact_async, read_exact_lem,
  follow,
}
use cupidmq.Protocol.Control.{
  magic_producer_ready, magic_heartbeat, magic_delivered, magic_failed, encode_producer_ready,
  encode_heartbeat, magic_register, encode_delivered, encode_failed, read_heartbeat_payload,
  read_delivery_report_payload, read_failure_report_payload,
}
use cupidmq.Protocol.Control.Reports.{
  IsHeartbeat, IsFailure, heartbeat_fields, delivery_fields, failure_fields,
}
use cupidmq.Master.Server.{ProducerFrame, prdy, hbrp, delv, failure}

unfoldable pub is_producer_magic : Bytes → Bool
is_producer_magic magic =
    bytes_eq magic magic_producer_ready
    || (bytes_eq magic magic_heartbeat
        || (bytes_eq magic magic_delivered || bytes_eq magic magic_failed))

-- The payload behind a magic, in the order of the arms of `process_producer_magic`.
unfoldable pub read_payload : (Bytes → Bytes) → Bytes → Reader ProducerFrame
read_payload lossy magic =
    if bytes_eq magic magic_producer_ready
    then return prdy
    else if bytes_eq magic magic_heartbeat
    then (read_heartbeat_payload >>= λ hb. return (hbrp hb))
    else if bytes_eq magic magic_delivered
    then (read_delivery_report_payload >>= λ report. return (delv report))
    else if bytes_eq magic magic_failed
    then (read_failure_report_payload lossy >>= λ report. return (failure report))
    else fail unexpected_magic

unfoldable pub read_producer_frame : (Bytes → Bytes) → Reader ProducerFrame
read_producer_frame lossy = read_exact_async 4 >>= read_payload lossy

-- What the producer writes.
unfoldable pub encode_frame : ProducerFrame → Bytes
encode_frame prdy = encode_producer_ready
encode_frame (hbrp hb) = encode_heartbeat hb
encode_frame (delv report) = encode_delivered report
encode_frame (failure report) = encode_failed report

-- The numbers of the frame fit their integer widths, and the text of a failure is valid and not above
-- 256 bytes.
abbrev pub IsFrame : (Bytes → Bytes) → ProducerFrame → Type 0
IsFrame lossy prdy = Unit
IsFrame lossy (hbrp hb) = IsHeartbeat hb
IsFrame lossy (delv report) = (report.msg_count < u16_mod) × (report.batch_bytes < u32_mod)
IsFrame lossy (failure report) = IsFailure lossy report

pub magic_of : ProducerFrame → Bytes
magic_of prdy = magic_producer_ready
magic_of (hbrp hb) = magic_heartbeat
magic_of (delv report) = magic_delivered
magic_of (failure report) = magic_failed

pub fields_of : ProducerFrame → Bytes
fields_of frame = drop 4 (encode_frame frame)

pub magic_of-fields_of :
    (frame : ProducerFrame) → encode_frame frame ≡ magic_of frame ++ fields_of frame
unfolding encode_frame magic_of fields_of encode_producer_ready encode_heartbeat encode_delivered
    encode_failed
magic_of-fields_of prdy = refl
magic_of-fields_of (hbrp hb) = refl
magic_of-fields_of (delv report) = refl
magic_of-fields_of (failure report) = refl

pub length-magic_of : (frame : ProducerFrame) → 4 ≡ length (magic_of frame)
unfolding magic_of
length-magic_of prdy = refl
length-magic_of (hbrp hb) = refl
length-magic_of (delv report) = refl
length-magic_of (failure report) = refl

-- The master takes a connection that starts with a frame of a producer for a producer's.
pub magic_of-is_producer_magic :
    (frame : ProducerFrame)
    → (bytes_eq (magic_of frame) magic_register ≡ false)
      × (is_producer_magic (magic_of frame) ≡ true)
unfolding magic_of is_producer_magic
magic_of-is_producer_magic prdy = (refl, refl)
magic_of-is_producer_magic (hbrp hb) = (refl, refl)
magic_of-is_producer_magic (delv report) = (refl, refl)
magic_of-is_producer_magic (failure report) = (refl, refl)

pub read_payload-fields_of :
    (lossy : Bytes → Bytes) (frame : ProducerFrame) (rest : Bytes)
    → IsFrame lossy frame
    → read_payload lossy (magic_of frame) (fields_of frame ++ rest) ≡ ok (frame, rest)
unfolding read_payload encode_frame encode_producer_ready magic_of fields_of
read_payload-fields_of lossy prdy rest h = refl
read_payload-fields_of lossy (hbrp hb) rest h =
    follow read_heartbeat_payload _ _ (heartbeat_fields hb rest h) refl
read_payload-fields_of lossy (delv report) rest h =
    follow read_delivery_report_payload _ _ (delivery_fields report rest h.0 h.1) refl
read_payload-fields_of lossy (failure report) rest h =
    follow (read_failure_report_payload lossy) _ _ (failure_fields lossy report rest h) refl

-- A read of four bytes takes the magic.
pub read_exact-magic_of :
    (frame : ProducerFrame) (rest : Bytes)
    → read_exact_async 4 (encode_frame frame ++ rest) ≡ ok (magic_of frame, fields_of frame ++ rest)
read_exact-magic_of frame rest =
    rw (magic_of-fields_of frame, append_assoc (magic_of frame) (fields_of frame) rest)
      (read_exact_lem 4 (magic_of frame) (fields_of frame ++ rest) (length-magic_of frame))

-- Every frame of a producer that fits is read back by the master, and the bytes behind it are left.
pub read_producer_frame-encode :
    (lossy : Bytes → Bytes) (frame : ProducerFrame) (rest : Bytes)
    → IsFrame lossy frame
    → read_producer_frame lossy (encode_frame frame ++ rest) ≡ ok (frame, rest)
unfolding read_producer_frame
read_producer_frame-encode lossy frame rest h =
    follow (read_exact_async 4) _ _ (read_exact-magic_of frame rest)
      (read_payload-fields_of lossy frame rest h)
