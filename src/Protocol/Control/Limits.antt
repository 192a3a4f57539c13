-- ===== src/Protocol/Control/Limits.antt =====
-- Frames that the encoders write and the readers of a connection refuse.
use cupidmq.Common.{
  ltb, leb, ◌==◌, if◌then◌else◌, le→ltb, length, take, take_all, u16_mod, as_u16, Bytes, ℕ, ◌+◌,
  ◌≤◌, ◌<◌, ◌≡◌, refl, ap, false, ◌&&◌, [], ◌∷◌, ◌++◌, arith,
}
use cupidmq.Protocol.Wire.{
  to_le_bytes, from_le_bytes, field_too_long, invalid_data_addr_len, ok, err, read_exact_async,
  read_exact_lem, follow, stops, refuses,
}
use cupidmq.Protocol.Control.{
  magic_consumer_ready, magic_register, u16_max, parse_ready_header, encode_consumer_ready,
  encode_register, read_utf8_field, read_consumer_ready_request, parse_ready, read_register_payload,
  read_register,
}
use cupidmq.Protocol.Control.RoundTrip.{read_utf8_field_long}

abbrev ready_prefix : ℕ → Bytes → Bytes
ready_prefix max_items tag =
    magic_consumer_ready ++ (to_le_bytes 2 max_items ++ to_le_bytes 2 (as_u16 (length tag)))

ready_shape :
    (max_items : ℕ) (tag frame : Bytes)
    → encode_consumer_ready max_items tag ≡ ok frame
    → (frame ≡ ready_prefix max_items tag ++ tag) × (length tag ≤ u16_max)
unfolding encode_consumer_ready
ready_shape max_items tag frame made = ground arith

tag_field :
    (lossy : Bytes → Bytes) (tag : Bytes)
    → lossy tag ≡ tag
    → (if length tag == 0 then [] else lossy (take (length tag) tag)) ≡ tag
tag_field lossy [] kept = refl
tag_field lossy (b ∷ bs) kept =
    let whole = take_all (length (b ∷ bs)) (b ∷ bs) (omega arith) in
    ground (arith, ap lossy whole, kept)

module _ (lossy : Bytes → Bytes) (max_items : ℕ) (tag frame : Bytes) where
  -- `encode_consumer_ready` writes a tag of up to 65535 bytes, and the master refuses any above 256.
  pub read_consumer_ready_request_long :
      (rest : Bytes)
      → 256 < length tag
      → encode_consumer_ready max_items tag ≡ ok frame
      → read_consumer_ready_request lossy (frame ++ rest) ≡ err field_too_long
  unfolding read_consumer_ready_request parse_ready_header
  read_consumer_ready_request_long rest long made = rw (ready_shape max_items tag frame made).0 (
      follow (read_exact_async 8) _ _
        (read_exact_lem 8 (ready_prefix max_items tag) (tag ++ rest) refl)
        (rw size (
          stops (read_utf8_field lossy (length tag)) _ _
            (read_utf8_field_long lossy (length tag) (tag ++ rest) long))))
    where
      size : from_le_bytes (to_le_bytes 2 (as_u16 (length tag))) ≡ length tag
      size = omega (arith, (ready_shape max_items tag frame made).1)

  -- `parse_ready`, which has the whole frame at hand, takes back a tag of any length that was written.
  pub parse_ready-encode :
      max_items < u16_mod
      → (lossy tag ≡ tag)
      → encode_consumer_ready max_items tag ≡ ok frame
      → parse_ready lossy frame ≡ ok (record { max_items = max_items; consumer_tag = tag })
  unfolding parse_ready parse_ready_header
  parse_ready-encode word kept made = rw (ready_shape max_items tag frame made).0 (
      rw
        (
          size,
          items,
          le→ltb (length (ready_prefix max_items tag ++ tag)) 8 (omega arith),
          le→ltb (length (ready_prefix max_items tag ++ tag)) (8 + length tag) (omega arith),
          field,
        )
        refl)
    where
      items : from_le_bytes (to_le_bytes 2 max_items) ≡ max_items
      items = omega arith

      size : from_le_bytes (to_le_bytes 2 (as_u16 (length tag))) ≡ length tag
      size = omega (arith, (ready_shape max_items tag frame made).1)

      field : (if length tag == 0 then [] else lossy (take (length tag) tag)) ≡ tag
      field = tag_field lossy tag kept

-- `encode_register` writes an address of up to 65535 bytes, and the master refuses any above 256.
pub read_register_long :
    (lossy : Bytes → Bytes) (addr frame rest : Bytes)
    → 256 < length addr
    → encode_register addr ≡ ok frame
    → read_register lossy (frame ++ rest) ≡ err invalid_data_addr_len
unfolding read_register read_register_payload encode_register
read_register_long lossy addr frame rest long made = rw made_it.0 (
    follow (read_exact_async 4) _ _ (read_exact_lem 4 magic_register (width ++ (addr ++ rest)) refl)
      (follow (read_exact_async 2) _ _ (read_exact_lem 2 width (addr ++ rest) refl)
        (rw size (refuses (ltb 0 (length addr) && leb (length addr) 256) _ _ _ made_it.1))))
  where
    width : Bytes
    width = to_le_bytes 2 (as_u16 (length addr))

    made_it :
        (frame ++ rest ≡ magic_register ++ (width ++ (addr ++ rest)))
        × ((ltb 0 (length addr) && leb (length addr) 256) ≡ false)
        × (length addr ≤ u16_max)
    made_it = ground arith

    size : from_le_bytes width ≡ length addr
    size = omega (arith, made_it.2)
