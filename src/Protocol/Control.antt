-- ===== src/Protocol/Control.antt =====
-- master/src/protocol.rs: the frames of the control connection.
-- A `str` is the list of its UTF-8 bytes. `String::from_utf8_lossy` is the standard library's: the
-- readers take it as an argument.
pub mod RoundTrip
pub mod Reports
pub mod Limits
mod Runs
use cupidmq.Common.{
  ltb, leb, ◌==◌, if◌then◌else◌, ltb→lt, ltb→le, lt→ltb, le→ltb, le→leb, lt→leb, ==_iff, Bool-cases,
  Option-cases, length, take, drop, get_elem?, All, length-append, take-append-drop, length-take,
  length-drop, take_all, take-append_length, drop-append_length, length-reverse, length-map,
  All-append, All-map, take-min-length, drop-min-length, take-append_le, take-take,
  drop-take-append, take-map, drop-map, u16_mod, u32_mod, u64_mod, usize_max, saturating_add,
  as_u16, as_u32, add_u32, add_u64, sub_u64, Bytes, ℕ, zero, suc, ◌+◌, ◌-◌, ◌*◌, ◌/◌, ◌%◌, ◌^◌, ◌≤◌,
  ◌<◌, min, max, ◌≡◌, refl, sym, ap, ap₂, subst, ◌∙◌, ◌≢◌, ◌↔◌, ◌⊎◌, inl, inr, Bool, true, false,
  not, ◌&&◌, ◌||◌, Option, none, some, List, [], ◌∷◌, ◌++◌, map, reverse, flatten, append-nil,
  append_assoc, map-append, reverse-append, reverse-reverse, reverse-cons, arith,
}
use cupidmq.Protocol.Wire.{
  to_le_bytes, from_le_bytes, slice, bytes_eq, Error, end_of_stream, write_failed, unexpected_magic,
  unknown_ingress_magic, header_too_short, frame_too_short, field_too_long, tag_too_long,
  payload_too_large, payload_too_short, invalid_payload_len, truncated_item_len,
  truncated_item_body, invalid_item_len, count_mismatch, not_single_item, no_items, too_many_items,
  invalid_data_addr_len, invalid_assign_field_len, empty_data_addr, Result, ok, err, Reader, ◌>>=◌,
  ◌>>◌, return, fail, ensure, lift, read_exact_async, read_exact_lem, read_exact_short, u16_round,
  u32_round, u64_round, length-to_le_bytes, slice_middle, follow, passes, stops, refuses,
}

abbrev pub magic_consumer_ready : Bytes
magic_consumer_ready = b'C' ∷ b'R' ∷ b'D' ∷ b'Y' ∷ []

abbrev pub magic_err : Bytes
magic_err = b'E' ∷ b'R' ∷ b'R' ∷ b'!' ∷ []

abbrev pub magic_producer_ready : Bytes
magic_producer_ready = b'P' ∷ b'R' ∷ b'D' ∷ b'Y' ∷ []

abbrev pub magic_register : Bytes
magic_register = b'R' ∷ b'E' ∷ b'G' ∷ b'!' ∷ []

abbrev pub magic_assign : Bytes
magic_assign = b'A' ∷ b'S' ∷ b'G' ∷ b'N' ∷ []

abbrev pub magic_delivered : Bytes
magic_delivered = b'D' ∷ b'E' ∷ b'L' ∷ b'V' ∷ []

abbrev pub magic_failed : Bytes
magic_failed = b'F' ∷ b'A' ∷ b'I' ∷ b'L' ∷ []

abbrev pub magic_heartbeat : Bytes
magic_heartbeat = b'H' ∷ b'B' ∷ b'R' ∷ b'P' ∷ []

abbrev pub u16_max : ℕ
u16_max = 65535

pub record ReadyRequest : Type 0 where
  pub max_items : ℕ
  pub consumer_tag : Bytes

pub record AssignRequest : Type 0 where
  pub max_items : ℕ
  pub consumer_tag : Bytes
  pub data_addr : Bytes

pub record DeliveryReport : Type 0 where
  pub msg_count : ℕ
  pub batch_bytes : ℕ

pub record FailureReport : Type 0 where
  pub msg_count : ℕ
  pub batch_bytes : ℕ
  pub code : ℕ
  pub message : Bytes

pub record ProducerHeartbeat : Type 0 where
  pub pending_messages : ℕ
  pub pending_bytes : ℕ
  pub ring_messages : ℕ
  pub ring_bytes : ℕ
  pub drops_total : ℕ

unfoldable pub encode_error : ℕ → Bytes → Bytes
encode_error code message =
    let msg_len = as_u16 (min (length message) u16_max) in
    magic_err ++ (to_le_bytes 2 code ++ (to_le_bytes 2 msg_len ++ take msg_len message))

unfoldable pub parse_ready_header : Bytes → Result (ℕ × ℕ)
parse_ready_header body =
    if ltb (length body) 4
    then err header_too_short
    else ok (from_le_bytes (slice 0 2 body), from_le_bytes (slice 2 2 body))

-- `body.len() < 8 + tag_len`, then the tag.
abbrev pub ready_tag : (Bytes → Bytes) → Bytes → Result (ℕ × ℕ) → Result ReadyRequest
ready_tag from_utf8_lossy body (err e) = err e
ready_tag from_utf8_lossy body (ok (max_items, tag_len)) =
    if ltb (length body) (8 + tag_len)
    then err frame_too_short
    else ok (record {
      max_items = max_items;
      consumer_tag = if tag_len == 0 then [] else from_utf8_lossy (slice 8 tag_len body);
    })

unfoldable pub encode_consumer_ready : ℕ → Bytes → Result Bytes
encode_consumer_ready max_items tag =
    if ltb u16_max (length tag)
    then err tag_too_long
    else ok (
        magic_consumer_ready
        ++ (to_le_bytes 2 max_items ++ (to_le_bytes 2 (as_u16 (length tag)) ++ tag)))

abbrev pub null : Bytes → Bool
null [] = true
null (b ∷ bs) = false

unfoldable pub encode_register : Bytes → Result Bytes
encode_register addr =
    if null addr || ltb u16_max (length addr)
    then err invalid_data_addr_len
    else ok (magic_register ++ (to_le_bytes 2 (as_u16 (length addr)) ++ addr))

unfoldable pub encode_assign : AssignRequest → Result Bytes
encode_assign req =
    let tag = req.consumer_tag in
    let addr = req.data_addr in
    if ltb u16_max (length tag) || (null addr || ltb u16_max (length addr))
    then err invalid_assign_field_len
    else ok (
        magic_assign
        ++ (to_le_bytes 2 req.max_items
            ++ (to_le_bytes 2 (as_u16 (length tag))
                ++ (tag ++ (to_le_bytes 2 (as_u16 (length addr)) ++ addr)))))

unfoldable pub encode_producer_ready : Bytes
encode_producer_ready = magic_producer_ready

unfoldable pub encode_heartbeat : ProducerHeartbeat → Bytes
encode_heartbeat report =
    magic_heartbeat
    ++ (to_le_bytes 4 report.pending_messages
        ++ (to_le_bytes 4 report.pending_bytes
            ++ (to_le_bytes 4 report.ring_messages
                ++ (to_le_bytes 4 report.ring_bytes ++ to_le_bytes 8 report.drops_total))))

unfoldable pub encode_delivered : DeliveryReport → Bytes
encode_delivered report =
    magic_delivered ++ (to_le_bytes 2 report.msg_count ++ to_le_bytes 4 report.batch_bytes)

unfoldable pub encode_failed : FailureReport → Bytes
encode_failed report =
    let msg_len = as_u16 (min (length report.message) u16_max) in
    magic_failed
    ++ (to_le_bytes 2 report.msg_count
        ++ (to_le_bytes 4 report.batch_bytes
            ++ (to_le_bytes 2 report.code
                ++ (to_le_bytes 2 msg_len ++ take msg_len report.message))))

unfoldable pub read_heartbeat_payload : Reader ProducerHeartbeat
read_heartbeat_payload = do
  body ← read_exact_async 24
  return (record {
    pending_messages = from_le_bytes (slice 0 4 body);
    pending_bytes = from_le_bytes (slice 4 4 body);
    ring_messages = from_le_bytes (slice 8 4 body);
    ring_bytes = from_le_bytes (slice 12 4 body);
    drops_total = from_le_bytes (slice 16 8 body);
  })

unfoldable pub read_heartbeat : Reader ProducerHeartbeat
read_heartbeat = do
  magic ← read_exact_async 4
  ensure (bytes_eq magic magic_heartbeat) unexpected_magic
  read_heartbeat_payload

unfoldable pub read_producer_ready : Reader (Unit {0})
read_producer_ready = do
  magic ← read_exact_async 4
  ensure (bytes_eq magic magic_producer_ready) unexpected_magic

unfoldable pub read_delivery_report_payload : Reader DeliveryReport
read_delivery_report_payload = do
  body ← read_exact_async 6
  return (record {
    msg_count = from_le_bytes (slice 0 2 body);
    batch_bytes = from_le_bytes (slice 2 4 body);
  })

unfoldable pub read_delivered : Reader DeliveryReport
read_delivered = do
  magic ← read_exact_async 4
  ensure (bytes_eq magic magic_delivered) unexpected_magic
  read_delivery_report_payload

module _ (from_utf8_lossy : Bytes → Bytes) where
  -- The name of the field is only in the text of the error.
  unfoldable pub read_utf8_field : ℕ → Reader Bytes
  read_utf8_field len =
      if len == 0
      then return []
      else if ltb 256 len
      then fail field_too_long
      else read_exact_async len >>= λ buf. return (from_utf8_lossy buf)

  unfoldable pub read_consumer_ready_request : Reader ReadyRequest
  read_consumer_ready_request = do
    prefix ← read_exact_async 8
    ensure (bytes_eq (take 4 prefix) magic_consumer_ready) unexpected_magic
    header ← lift (parse_ready_header (slice 4 4 prefix))
    consumer_tag ← read_utf8_field header.1
    return (record { max_items = header.0; consumer_tag = consumer_tag })

  unfoldable pub parse_ready : Bytes → Result ReadyRequest
  parse_ready body =
      if ltb (length body) 8
      then err frame_too_short
      else if bytes_eq (take 4 body) magic_consumer_ready
      then ready_tag from_utf8_lossy body (parse_ready_header (slice 4 4 body))
      else err unexpected_magic

  unfoldable pub read_register_payload : Reader Bytes
  read_register_payload = do
    len_buf ← read_exact_async 2
    let len = from_le_bytes len_buf
    ensure (ltb 0 len && leb len 256) invalid_data_addr_len
    buf ← read_exact_async len
    return (from_utf8_lossy buf)

  unfoldable pub read_register : Reader Bytes
  read_register = do
    magic ← read_exact_async 4
    ensure (bytes_eq magic magic_register) unexpected_magic
    read_register_payload

  unfoldable pub read_assign_payload : Reader AssignRequest
  read_assign_payload = do
    hdr ← read_exact_async 4
    consumer_tag ← read_utf8_field (from_le_bytes (slice 2 2 hdr))
    data_len_buf ← read_exact_async 2
    data_addr ← read_utf8_field (from_le_bytes data_len_buf)
    ensure (not (null data_addr)) empty_data_addr
    return (record {
      max_items = from_le_bytes (slice 0 2 hdr);
      consumer_tag = consumer_tag;
      data_addr = data_addr;
    })

  unfoldable pub read_assign : Reader AssignRequest
  read_assign = do
    magic ← read_exact_async 4
    ensure (bytes_eq magic magic_assign) unexpected_magic
    read_assign_payload

  unfoldable pub read_failure_report_payload : Reader FailureReport
  read_failure_report_payload = do
    hdr ← read_exact_async 10
    message ← read_utf8_field (from_le_bytes (slice 8 2 hdr))
    return (record {
      msg_count = from_le_bytes (slice 0 2 hdr);
      batch_bytes = from_le_bytes (slice 2 4 hdr);
      code = from_le_bytes (slice 6 2 hdr);
      message = message;
    })

  unfoldable pub read_failed : Reader FailureReport
  read_failed = do
    magic ← read_exact_async 4
    ensure (bytes_eq magic magic_failed) unexpected_magic
    read_failure_report_payload
