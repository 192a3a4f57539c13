-- ===== src/Protocol/Batch/Oversized.antt =====
-- A batch that the writer takes and that no reader accepts.
use cupidmq.Common.{leb, lt→leb, u32_mod, Bytes, ◌<◌, ◌≡◌, refl, false, List, ◌++◌, arith}
use cupidmq.Protocol.Wire.{
  err, payload_too_large, read_exact_async, read_exact_lem, from_le_bytes, slice, follow, refuses,
}
use cupidmq.Protocol.Batch.{
  magic_batch, encode_batch, encode_batch_payload, inner_batch_payload_len, read_batch_frame,
  max_ingress_batch_frame_bytes,
}
use cupidmq.Protocol.Batch.RoundTrip.{frame_header, framed_shape, length-encode_batch_payload}

-- A frame whose inner batch is above 64 MiB, and below 4 GiB, is refused, whatever follows it.
pub read_batch_frame_refuses :
    (items : List Bytes) (rest : Bytes)
    → max_ingress_batch_frame_bytes < inner_batch_payload_len items
    → inner_batch_payload_len items < u32_mod
    → read_batch_frame (encode_batch items ++ rest) ≡ err payload_too_large
unfolding read_batch_frame encode_batch
read_batch_frame_refuses items rest over word = rw (framed_shape magic_batch items rest) (
    follow (read_exact_async 4) _ _
      (read_exact_lem 4 magic_batch (frame_header items ++ (encode_batch_payload items ++ rest))
        refl)
      (follow (read_exact_async 6) _ _
        (read_exact_lem 6 (frame_header items) (encode_batch_payload items ++ rest) refl)
        (refuses
          (leb (from_le_bytes (slice 2 4 (frame_header items))) max_ingress_batch_frame_bytes) _ _ _
          too_long)))
  where
    too_long :
        leb (from_le_bytes (slice 2 4 (frame_header items))) max_ingress_batch_frame_bytes ≡ false
    too_long =
        let announced : from_le_bytes (slice 2 4 (frame_header items))
            ≡ inner_batch_payload_len items =
          omega (arith, length-encode_batch_payload items) in
        rw announced (lt→leb (inner_batch_payload_len items) max_ingress_batch_frame_bytes over)
