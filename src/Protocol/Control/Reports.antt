-- ===== src/Protocol/Control/Reports.antt =====
-- The frames of a producer are read back as they were written.
use cupidmq.Common.{
  length, take, drop, take_all, u16_mod, u32_mod, u64_mod, as_u16, Bytes, ℕ, ◌<◌, min, ◌≡◌, refl,
  ◌++◌, arith,
}
use cupidmq.Protocol.Wire.{
  to_le_bytes, field_too_long, ok, err, read_exact_async, read_exact_lem, u16_round, u32_round,
  u64_round, follow, stops,
}
use cupidmq.Protocol.Control.{
  magic_delivered, magic_failed, magic_heartbeat, u16_max, DeliveryReport, FailureReport,
  ProducerHeartbeat, encode_heartbeat, encode_delivered, encode_failed, read_heartbeat_payload,
  read_heartbeat, read_delivery_report_payload, read_delivered, read_utf8_field,
  read_failure_report_payload, read_failed,
}
use cupidmq.Protocol.Control.RoundTrip.{IsText, read_utf8_field_lem, read_utf8_field_long}

-- The counters of a heartbeat have 32 bits, and its drops have 64.
pub record IsHeartbeat (hb : ProducerHeartbeat) : Type 0 where
  pub pending_messages : hb.pending_messages < u32_mod
  pub pending_bytes : hb.pending_bytes < u32_mod
  pub ring_messages : hb.ring_messages < u32_mod
  pub ring_bytes : hb.ring_bytes < u32_mod
  pub drops_total : hb.drops_total < u64_mod

pub heartbeat_fields :
    (hb : ProducerHeartbeat) (rest : Bytes)
    → IsHeartbeat hb
    → read_heartbeat_payload (drop 4 (encode_heartbeat hb) ++ rest) ≡ ok (hb, rest)
unfolding read_heartbeat_payload encode_heartbeat
heartbeat_fields hb rest w = follow (read_exact_async 24) _ _ (read_exact_lem 24 body rest refl) (
    rw (
      u32_round hb.pending_messages w.pending_messages,
      u32_round hb.pending_bytes w.pending_bytes,
      u32_round hb.ring_messages w.ring_messages,
      u32_round hb.ring_bytes w.ring_bytes,
      u64_round hb.drops_total w.drops_total,
    ))
  where
    body : Bytes
    body = drop 4 (encode_heartbeat hb)

-- HBRP: every heartbeat within its integer widths is read back, and the bytes behind it are left.
pub read_heartbeat-encode :
    (hb : ProducerHeartbeat) (rest : Bytes)
    → IsHeartbeat hb
    → read_heartbeat (encode_heartbeat hb ++ rest) ≡ ok (hb, rest)
unfolding read_heartbeat encode_heartbeat
read_heartbeat-encode hb rest w =
    follow (read_exact_async 4) _ _
      (read_exact_lem 4 magic_heartbeat (drop 4 (encode_heartbeat hb) ++ rest) refl)
      (heartbeat_fields hb rest w)

pub delivery_fields :
    (report : DeliveryReport) (rest : Bytes)
    → report.msg_count < u16_mod
    → report.batch_bytes < u32_mod
    → read_delivery_report_payload (drop 4 (encode_delivered report) ++ rest) ≡ ok (report, rest)
unfolding read_delivery_report_payload encode_delivered
delivery_fields report rest w w' =
    follow (read_exact_async 6) _ _ (read_exact_lem 6 body rest refl)
      (rw (u16_round report.msg_count w, u32_round report.batch_bytes w'))
  where
    body : Bytes
    body = drop 4 (encode_delivered report)

-- DELV: every delivery report within its integer widths is read back, and the bytes behind it are
-- left.
pub read_delivered-encode :
    (report : DeliveryReport) (rest : Bytes)
    → report.msg_count < u16_mod
    → report.batch_bytes < u32_mod
    → read_delivered (encode_delivered report ++ rest) ≡ ok (report, rest)
unfolding read_delivered encode_delivered
read_delivered-encode report rest w w' =
    follow (read_exact_async 4) _ _
      (read_exact_lem 4 magic_delivered (drop 4 (encode_delivered report) ++ rest) refl)
      (delivery_fields report rest w w')

-- The part of a FAIL frame in front of its message.
abbrev fail_header : FailureReport → ℕ → Bytes
fail_header report n =
    to_le_bytes 2 report.msg_count
    ++ (to_le_bytes 4 report.batch_bytes ++ (to_le_bytes 2 report.code ++ to_le_bytes 2 n))

-- A failure report within its integer widths, with a valid message of at most 256 bytes.
pub record IsFailure (lossy : Bytes → Bytes) (report : FailureReport) : Type 0 where
  pub msg_count : report.msg_count < u16_mod
  pub batch_bytes : report.batch_bytes < u32_mod
  pub code : report.code < u16_mod
  pub message : IsText lossy report.message

module _ (lossy : Bytes → Bytes) (report : FailureReport) (rest : Bytes) where
  pub failure_fields :
      IsFailure lossy report
      → read_failure_report_payload lossy (drop 4 (encode_failed report) ++ rest)
        ≡ ok (report, rest)
  unfolding read_failure_report_payload encode_failed
  failure_fields w =
      rw (len, take_all (length msg) msg (omega (arith, w.message)))
        (follow (read_exact_async 10) _ _
          (read_exact_lem 10 (fail_header report (length msg)) (msg ++ rest) refl)
          (rw
            (
              u16_round report.msg_count w.msg_count,
              u32_round report.batch_bytes w.batch_bytes,
              u16_round report.code w.code,
              u16_round (length msg) (omega (arith, w.message)),
            )
            (follow (read_utf8_field lossy (length msg)) _ _
              (read_utf8_field_lem lossy msg rest w.message) refl)))
    where
      msg : Bytes
      msg = report.message

      len : as_u16 (min (length msg) u16_max) ≡ length msg
      len = omega (arith, w.message)

  -- FAIL: a failure report within its integer widths, with a valid message of at most 256 bytes, is
  -- read back, and the bytes behind it are left.
  pub read_failed-encode :
      IsFailure lossy report → read_failed lossy (encode_failed report ++ rest) ≡ ok (report, rest)
  unfolding read_failed encode_failed
  read_failed-encode w =
      follow (read_exact_async 4) _ _
        (read_exact_lem 4 magic_failed (drop 4 (encode_failed report) ++ rest) refl)
        (failure_fields w)

  -- FAIL: a report with a message above 256 bytes is written all the same, and then the reader
  -- refuses the whole report.
  pub read_failed_long :
      256 < length report.message
      → read_failed lossy (encode_failed report ++ rest) ≡ err field_too_long
  unfolding read_failed read_failure_report_payload encode_failed
  read_failed_long long =
      follow (read_exact_async 4) _ _
        (read_exact_lem 4 magic_failed (fail_header report n ++ (take n msg ++ rest)) refl)
        (follow (read_exact_async 10) _ _
          (read_exact_lem 10 (fail_header report n) (take n msg ++ rest) refl)
          (rw (u16_round n (omega arith)) (
            stops (read_utf8_field lossy n) _ _
              (read_utf8_field_long lossy n (take n msg ++ rest) (omega arith)))))
    where
      msg : Bytes
      msg = report.message

      n : ℕ
      n = as_u16 (min (length msg) u16_max)
