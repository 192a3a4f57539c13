-- ===== src/Protocol/Control/Runs.antt =====
-- Concrete control frames, and the theorems about them at concrete inputs.
use cupidmq.Common.{length, Bytes, ℕ, zero, suc, ◌+◌, ◌≡◌, refl, ap, [], ◌∷◌, ◌++◌, arith}
use cupidmq.Protocol.Wire.{field_too_long, ok, err}
use cupidmq.Protocol.Control.{
  AssignRequest, DeliveryReport, FailureReport, ProducerHeartbeat, encode_consumer_ready,
  encode_register, encode_assign, encode_heartbeat, encode_failed, read_assign, read_failed,
}
use cupidmq.Protocol.Control.RoundTrip.{read_assign-encode}
use cupidmq.Protocol.Control.Reports.{read_failed_long}

-- The conversion on texts that are valid UTF-8.
abbrev keep : Bytes → Bytes
keep s = s

abbrev tag_c1 : Bytes
tag_c1 = b'c' ∷ b'1' ∷ []

abbrev addr_h9 : Bytes
addr_h9 = b'h' ∷ b':' ∷ b'9' ∷ []

abbrev ready_frame : Bytes
ready_frame = b'C' ∷ b'R' ∷ b'D' ∷ b'Y' ∷ 32 ∷ 0 ∷ 2 ∷ 0 ∷ b'c' ∷ b'1' ∷ []

ready_frame_runs : encode_consumer_ready 32 tag_c1 ≡ ok ready_frame
unfolding encode_consumer_ready
ready_frame_runs = refl

abbrev register_frame : Bytes
register_frame = b'R' ∷ b'E' ∷ b'G' ∷ b'!' ∷ 3 ∷ 0 ∷ b'h' ∷ b':' ∷ b'9' ∷ []

register_frame_runs : encode_register addr_h9 ≡ ok register_frame
unfolding encode_register
register_frame_runs = refl

abbrev assign_c1 : AssignRequest
assign_c1 = record { max_items = 32; consumer_tag = tag_c1; data_addr = addr_h9 }

abbrev assign_frame : Bytes
assign_frame =
    b'A' ∷ b'S' ∷ b'G' ∷ b'N' ∷ 32 ∷ 0 ∷ 2 ∷ 0 ∷ b'c' ∷ b'1' ∷ 3 ∷ 0 ∷ b'h' ∷ b':' ∷ b'9' ∷ []

assign_frame_runs : encode_assign assign_c1 ≡ ok assign_frame
unfolding encode_assign
assign_frame_runs = refl

read_assign_example : read_assign keep (assign_frame ++ (5 ∷ [])) ≡ ok (assign_c1, 5 ∷ [])
read_assign_example =
    read_assign-encode keep assign_c1 assign_frame (5 ∷ []) (omega arith) (omega arith, refl)
      (omega arith, refl) assign_frame_runs

abbrev backlog : ProducerHeartbeat
backlog = record {
  pending_messages = 10;
  pending_bytes = 1024;
  ring_messages = 5;
  ring_bytes = 512;
  drops_total = 3;
}

heartbeat_payload_size : length (encode_heartbeat backlog) ≡ 4 + 24
unfolding encode_heartbeat
heartbeat_payload_size = refl

abbrev delivered : DeliveryReport
delivered = record { msg_count = 3; batch_bytes = 70_000 }

abbrev failure : Bytes → FailureReport
failure message = record { msg_count = 3; batch_bytes = 70_000; code = 0; message = message }

-- A text of `n` letters.
letters : ℕ → Bytes
letters zero = []
letters (suc n) = b'x' ∷ letters n

length-letters : (n : ℕ) → length (letters n) ≡ n
unfolding letters
length-letters zero = refl
length-letters (suc n) = ap suc (length-letters n)

read_failed_long_example :
    read_failed keep (encode_failed (failure (letters 300)) ++ []) ≡ err field_too_long
read_failed_long_example =
    read_failed_long keep (failure (letters 300)) [] (omega (arith, length-letters 300))
