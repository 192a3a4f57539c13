-- ===== src/Protocol/Batch.antt =====
-- master/src/protocol.rs: BATC and PUBB frames, their inner batch, and the writes that send them.
pub mod RoundTrip
pub mod Limits
pub mod Oversized
mod Runs
use cupidmq.Common.{
  ltb, leb, ◌==◌, if◌then◌else◌, ltb→lt, ltb→le, lt→ltb, le→ltb, le→leb, lt→leb, ==_iff, Bool-cases,
  Option-cases, length, take, drop, get_elem?, All, length-append, take-append-drop, length-take,
  length-drop, take_all, take-append_length, drop-append_length, length-reverse, length-map,
  All-append, All-map, take-min-length, drop-min-length, take-append_le, take-take,
  drop-take-append, take-map, drop-map, u16_mod, u32_mod, u64_mod, usize_max, saturating_add,
  as_u16, as_u32, add_u32, add_u64, sub_u64, Bytes, ℕ, zero, suc, ◌+◌, ◌-◌, ◌*◌, ◌/◌, ◌%◌, ◌^◌, ◌≤◌,
  ◌<◌, min, max, ◌≡◌, refl, sym, ap, ap₂, subst, ◌∙◌, ◌≢◌, ◌↔◌, ◌⊎◌, inl, inr, Bool, true, false,
  not, ◌&&◌, ◌||◌, Option, none, some, List, [], ◌∷◌, ◌++◌, map, reverse, flatten, append-nil,
  append_assoc, map-append, reverse-append, reverse-reverse, reverse-cons, arith,
}
use cupidmq.Protocol.Wire.{
  to_le_bytes, from_le_bytes, slice, bytes_eq, Error, end_of_stream, write_failed, unexpected_magic,
  unknown_ingress_magic, header_too_short, frame_too_short, field_too_long, tag_too_long,
  payload_too_large, payload_too_short, invalid_payload_len, truncated_item_len,
  truncated_item_body, invalid_item_len, count_mismatch, not_single_item, no_items, too_many_items,
  invalid_data_addr_len, invalid_assign_field_len, empty_data_addr, Result, ok, err, Reader, ◌>>=◌,
  ◌>>◌, return, fail, ensure, lift, read_exact_async, read_exact_lem, read_exact_short, u16_round,
  u32_round, u64_round, length-to_le_bytes, slice_middle, follow, passes, stops, refuses,
}

abbrev pub magic_pub : Bytes
magic_pub = b'P' ∷ b'U' ∷ b'B' ∷ b'!' ∷ []

abbrev pub magic_pub_batch : Bytes
magic_pub_batch = b'P' ∷ b'U' ∷ b'B' ∷ b'B' ∷ []

abbrev pub magic_batch : Bytes
magic_batch = b'B' ∷ b'A' ∷ b'T' ∷ b'C' ∷ []

abbrev pub max_ingress_item_bytes : ℕ
max_ingress_item_bytes = 32 * 1024 * 1024

abbrev pub max_ingress_batch_frame_bytes : ℕ
max_ingress_batch_frame_bytes = 64 * 1024 * 1024

abbrev pub sum_items : List Bytes → ℕ
sum_items [] = 0
sum_items (item ∷ items) = 4 + length item + sum_items items

unfoldable pub inner_batch_payload_len : List Bytes → ℕ
inner_batch_payload_len items = 2 + sum_items items

-- The `for` loop of `encode_batch_payload`.
unfoldable pub encode_items : List Bytes → Bytes
encode_items [] = []
encode_items (item ∷ items) = to_le_bytes 4 (as_u32 (length item)) ++ (item ++ encode_items items)

unfoldable pub encode_batch_payload : List Bytes → Bytes
encode_batch_payload items = to_le_bytes 2 (as_u16 (length items)) ++ encode_items items

unfoldable pub encode_framed_batch : Bytes → List Bytes → Bytes
encode_framed_batch magic items =
    let payload = encode_batch_payload items in
    magic
    ++ (to_le_bytes 2 (as_u16 (length items))
        ++ (to_le_bytes 4 (as_u32 (length payload)) ++ payload))

unfoldable pub encode_batch : List Bytes → Bytes
encode_batch items = encode_framed_batch magic_batch items

unfoldable pub encode_pub_batch : List Bytes → Bytes
encode_pub_batch items = encode_framed_batch magic_pub_batch items

-- The slices that `write_framed_batch_vectored` hands to the system, in order.
unfoldable pub item_slices : List Bytes → List Bytes
item_slices [] = []
item_slices (item ∷ items) = to_le_bytes 4 (as_u32 (length item)) ∷ item ∷ item_slices items

unfoldable pub batch_slices : Bytes → List Bytes → List Bytes
batch_slices magic items =
    magic
    ∷ to_le_bytes 2 (as_u16 (length items))
    ∷ to_le_bytes 4 (as_u32 (inner_batch_payload_len items))
    ∷ to_le_bytes 2 (as_u16 (length items))
    ∷ item_slices items

-- `writer.write_vectored(&slices)` is tokio's: `accept` says how many of the offered bytes it takes,
-- or that it fails. The result is what the caller sees, and the bytes that went out.
abbrev pub offer : (ℕ → Option ℕ) → ℕ → Bytes → Result ℕ × Bytes
offer accept payload_len offered = elim (accept (length offered)) [
  | none ↦ (err write_failed, [])
  | some n ↦ (ok (10 + payload_len), take n offered)
]

unfoldable pub write_framed_batch_vectored : (ℕ → Option ℕ) → Bytes → List Bytes → Result ℕ × Bytes
write_framed_batch_vectored accept magic items =
    offer accept (as_u32 (inner_batch_payload_len items)) (flatten (batch_slices magic items))

unfoldable pub write_batch_vectored : (ℕ → Option ℕ) → List Bytes → Result ℕ × Bytes
write_batch_vectored accept items = write_framed_batch_vectored accept magic_batch items

abbrev null : List Bytes → Bool
null [] = true
null (x ∷ xs) = false

unfoldable pub write_pub_batch_vectored : (ℕ → Option ℕ) → List Bytes → Result ℕ × Bytes
write_pub_batch_vectored accept items =
    if null items
    then (err no_items, [])
    else if ltb 65535 (length items)
    then (err too_many_items, [])
    else write_framed_batch_vectored accept magic_pub_batch items

unfoldable pub batch_wire_bytes : List Bytes → ℕ
batch_wire_bytes items = 10 + inner_batch_payload_len items

unfoldable pub pub_batch_wire_bytes : List Bytes → ℕ
pub_batch_wire_bytes items = batch_wire_bytes items

unfoldable pub read_batch_frame : Reader Bytes
read_batch_frame = do
  magic ← read_exact_async 4
  ensure (bytes_eq magic magic_batch) unexpected_magic
  hdr ← read_exact_async 6
  let payload_len = from_le_bytes (slice 2 4 hdr)
  ensure (leb payload_len max_ingress_batch_frame_bytes) payload_too_large
  if ltb 0 payload_len then read_exact_async payload_len else return []

unfoldable pub batch_item_count : Bytes → Result ℕ
batch_item_count payload =
    if ltb (length payload) 2 then err payload_too_short else ok (from_le_bytes (slice 0 2 payload))

-- The `for` loop of `parse_batch_payload_items`. A slice's length is at most `isize::MAX`, so that
-- the sums of offsets do not overflow.
unfoldable pub parse_items : ℕ → Bytes → ℕ → List Bytes → Result (List Bytes)
parse_items zero payload offset out = ok out
parse_items (suc n) payload offset out =
    let item_len = from_le_bytes (slice offset 4 payload) in
    let rest =
      parse_items n payload (offset + 4 + item_len)
        (out ++ (slice (offset + 4) item_len payload ∷ [])) in
    if ltb (length payload) (offset + 4)
    then err truncated_item_len
    else if (item_len == 0) || ltb max_ingress_item_bytes item_len
    then err invalid_item_len
    else if ltb (length payload) (offset + 4 + item_len)
    then err truncated_item_body
    else rest

abbrev with_count : Result ℕ → Bytes → Result (List Bytes)
with_count (ok count) payload = parse_items count payload 2 []
with_count (err e) payload = err e

unfoldable pub parse_batch_payload_items : Bytes → Result (List Bytes)
unfolding batch_item_count
parse_batch_payload_items payload = with_count (batch_item_count payload) payload

unfoldable pub read_pub_batch_body : Reader (List Bytes)
read_pub_batch_body = do
  hdr ← read_exact_async 6
  let outer_count = from_le_bytes (slice 0 2 hdr)
  let payload_len = from_le_bytes (slice 2 4 hdr)
  ensure (ltb 0 payload_len && leb payload_len max_ingress_batch_frame_bytes) invalid_payload_len
  payload ← read_exact_async payload_len
  items ← lift (parse_batch_payload_items payload)
  ensure (length items == outer_count) count_mismatch
  return items

read_pub_body : Reader (List Bytes)
read_pub_body = do
  len_buf ← read_exact_async 4
  let len = from_le_bytes len_buf
  ensure (ltb 0 len && leb len max_ingress_item_bytes) invalid_payload_len
  payload ← read_exact_async len
  return (payload ∷ [])

unfoldable pub read_ingress_items : Reader (List Bytes)
unfolding read_pub_body
read_ingress_items = do
  magic ← read_exact_async 4
  if bytes_eq magic magic_pub
      then read_pub_body
      else if bytes_eq magic magic_pub_batch
      then read_pub_batch_body
      else fail unknown_ingress_magic

abbrev single : List Bytes → Reader Bytes
single (item ∷ []) = return item
single other = fail not_single_item

unfoldable pub read_pub_item : Reader Bytes
read_pub_item = do items ← read_ingress_items; single items
