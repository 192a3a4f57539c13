-- ===== src/Protocol/Control/RoundTrip.antt =====
-- The frames of a consumer and of the matcher are read back as they were written. What a frame is
-- followed by is left on the connection.
use cupidmq.Common.{
  ltb, leb, ◌==◌, le→ltb, length, u16_mod, as_u16, Bytes, ℕ, ◌≤◌, ◌<◌, ◌≡◌, refl, true, false, not,
  ◌&&◌, [], ◌∷◌, ◌++◌, append_assoc, arith,
}
use cupidmq.Protocol.Wire.{
  to_le_bytes, from_le_bytes, field_too_long, ok, err, read_exact_async, read_exact_lem, follow,
  passes,
}
use cupidmq.Protocol.Control.{
  magic_consumer_ready, magic_register, magic_assign, ReadyRequest, AssignRequest,
  parse_ready_header, encode_consumer_ready, null, encode_register, encode_assign, read_utf8_field,
  read_consumer_ready_request, read_register_payload, read_register, read_assign_payload,
  read_assign,
}

-- A text that the readers accept: short enough, and valid UTF-8, which the lossy conversion keeps.
abbrev pub IsText : (Bytes → Bytes) → Bytes → Type 0
IsText from_utf8_lossy s = (length s ≤ 256) × (from_utf8_lossy s ≡ s)

module _ (lossy : Bytes → Bytes) where
  pub read_utf8_field_lem :
      (s rest : Bytes)
      → IsText lossy s
      → read_utf8_field lossy (length s) (s ++ rest) ≡ ok (s, rest)
  unfolding read_utf8_field
  read_utf8_field_lem [] rest h = refl
  read_utf8_field_lem (b ∷ bs) rest (short, kept) =
      rw (test, le→ltb 256 (length (b ∷ bs)) short)
        (follow (read_exact_async (length (b ∷ bs))) _ _
          (read_exact_lem (length (b ∷ bs)) (b ∷ bs) rest refl) (rw kept))
    where
      test : (length (b ∷ bs) == 0) ≡ false
      test = ground arith

  -- A field above 256 bytes is refused before it is read.
  pub read_utf8_field_long :
      (n : ℕ) (s : Bytes) → 256 < n → read_utf8_field lossy n s ≡ err field_too_long
  unfolding read_utf8_field
  read_utf8_field_long n s h = ground arith

  -- CRDY: what `encode_consumer_ready` writes, for a valid tag of at most 256 bytes, is read back
  -- as the request, and the bytes behind it are left.
  pub read_consumer_ready_request-encode :
      (req : ReadyRequest) (frame rest : Bytes)
      → req.max_items < u16_mod
      → IsText lossy req.consumer_tag
      → encode_consumer_ready req.max_items req.consumer_tag ≡ ok frame
      → read_consumer_ready_request lossy (frame ++ rest) ≡ ok (req, rest)
  unfolding read_consumer_ready_request encode_consumer_ready parse_ready_header
  read_consumer_ready_request-encode req frame rest word text made = rw shape (
      follow (read_exact_async 8) _ _ (read_exact_lem 8 prefix (tag ++ rest) refl) (
        rw (items, size)
          (follow (read_utf8_field lossy (length tag)) _ _ (read_utf8_field_lem tag rest text)
            refl)))
    where
      tag : Bytes
      tag = req.consumer_tag

      prefix : Bytes
      prefix =
          magic_consumer_ready
          ++ (to_le_bytes 2 req.max_items ++ to_le_bytes 2 (as_u16 (length tag)))

      shape : frame ++ rest ≡ prefix ++ (tag ++ rest)
      shape = ground arith

      items : from_le_bytes (to_le_bytes 2 req.max_items) ≡ req.max_items
      items = omega arith

      size : from_le_bytes (to_le_bytes 2 (as_u16 (length tag))) ≡ length tag
      size = omega arith

  -- A REG! frame: its magic, and the fields that `read_register_payload` reads back.
  pub register_fields :
      (addr frame rest : Bytes)
      → IsText lossy addr
      → encode_register addr ≡ ok frame
      → (fields : Bytes) × (frame ++ rest ≡ magic_register ++ (fields ++ rest))
        × (read_register_payload lossy (fields ++ rest) ≡ ok (addr, rest))
  unfolding read_register_payload encode_register
  register_fields addr frame rest text made = (
    width ++ addr,
    shape.0,
    rw (append_assoc width addr rest) (
        follow (read_exact_async 2) _ _ (read_exact_lem 2 width (addr ++ rest) refl) (
          rw size (
            passes (ltb 0 (length addr) && leb (length addr) 256) _ _ _ shape.1 (
              follow (read_exact_async (length addr)) _ _
                (read_exact_lem (length addr) addr rest refl) (rw text.1))))),
  )
    where
      width : Bytes
      width = to_le_bytes 2 (as_u16 (length addr))

      shape :
          (frame ++ rest ≡ magic_register ++ ((width ++ addr) ++ rest))
          × ((ltb 0 (length addr) && leb (length addr) 256) ≡ true)
      shape = ground arith

      size : from_le_bytes width ≡ length addr
      size = omega arith

  -- REG!: what `encode_register` writes, for a valid data address of 1 to 256 bytes, is read back,
  -- and the bytes behind it are left.
  pub read_register-encode :
      (addr frame rest : Bytes)
      → IsText lossy addr
      → encode_register addr ≡ ok frame
      → read_register lossy (frame ++ rest) ≡ ok (addr, rest)
  unfolding read_register
  read_register-encode addr frame rest text made =
      let (fields, shape, known) = register_fields addr frame rest text made in
      rw shape (
        follow (read_exact_async 4) _ _ (read_exact_lem 4 magic_register (fields ++ rest) refl)
          known)

  -- ASGN: what `encode_assign` writes, for a valid tag and a valid data address of at most 256
  -- bytes each, is read back as the assignment, and the bytes behind it are left.
  pub read_assign-encode :
      (req : AssignRequest) (frame rest : Bytes)
      → req.max_items < u16_mod
      → IsText lossy req.consumer_tag
      → IsText lossy req.data_addr
      → encode_assign req ≡ ok frame
      → read_assign lossy (frame ++ rest) ≡ ok (req, rest)
  unfolding read_assign read_assign_payload encode_assign
  read_assign-encode req frame rest word tag_text addr_text made = rw (made_it.0) (
      follow (read_exact_async 4) _ _
        (read_exact_lem 4 magic_assign (hdr ++ (tag ++ (width ++ (addr ++ rest)))) refl)
        (follow (read_exact_async 4) _ _
          (read_exact_lem 4 hdr (tag ++ (width ++ (addr ++ rest))) refl)
          (rw (items, tag_size)
            (follow (read_utf8_field lossy (length tag)) _ _
              (read_utf8_field_lem tag (width ++ (addr ++ rest)) tag_text)
              (follow (read_exact_async 2) _ _ (read_exact_lem 2 width (addr ++ rest) refl) (
                rw size (
                  follow (read_utf8_field lossy (length addr)) _ _
                    (read_utf8_field_lem addr rest addr_text)
                    (passes (not (null addr)) _ _ _ made_it.1 refl))))))))
    where
      tag : Bytes
      tag = req.consumer_tag

      addr : Bytes
      addr = req.data_addr

      hdr : Bytes
      hdr = to_le_bytes 2 req.max_items ++ to_le_bytes 2 (as_u16 (length tag))

      width : Bytes
      width = to_le_bytes 2 (as_u16 (length addr))

      made_it :
          (frame ++ rest ≡ magic_assign ++ (hdr ++ (tag ++ (width ++ (addr ++ rest)))))
          × (not (null addr) ≡ true)
      made_it = ground (arith, append_assoc tag (width ++ addr) rest, append_assoc width addr rest)

      items : from_le_bytes (to_le_bytes 2 req.max_items) ≡ req.max_items
      items = omega arith

      tag_size : from_le_bytes (to_le_bytes 2 (as_u16 (length tag))) ≡ length tag
      tag_size = omega arith

      size : from_le_bytes width ≡ length addr
      size = omega arith
