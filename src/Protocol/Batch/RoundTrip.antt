-- ===== src/Protocol/Batch/RoundTrip.antt =====
-- What is written as a batch is read back as the same batch.
use cupidmq.Common.{
  ltb, leb, ◌==◌, lt→ltb, le→leb, ==_iff, length, All, length-append, u16_mod, as_u16, as_u32,
  Bytes, ℕ, suc, ◌+◌, ◌≤◌, ◌<◌, ◌≡◌, refl, sym, ap, ap₂, subst, ◌∙◌, true, ◌&&◌, List, [], ◌∷◌,
  ◌++◌, flatten, append-nil, append_assoc, arith,
}
use cupidmq.Protocol.Wire.{
  to_le_bytes, from_le_bytes, slice, ok, lift, read_exact_async, read_exact_lem, slice_middle,
  follow, passes,
}
use cupidmq.Protocol.Batch.{
  magic_pub_batch, magic_batch, max_ingress_item_bytes, max_ingress_batch_frame_bytes,
  inner_batch_payload_len, encode_items, encode_batch_payload, encode_framed_batch, encode_batch,
  encode_pub_batch, item_slices, batch_slices, read_batch_frame, batch_item_count, parse_items,
  parse_batch_payload_items, read_pub_batch_body, read_ingress_items, sum_items,
}

-- An item that the readers accept.
abbrev pub IsItem : Bytes → Type 0
IsItem item = (1 ≤ length item) × (length item ≤ max_ingress_item_bytes)

pub length-encode_items : (items : List Bytes) → length (encode_items items) ≡ sum_items items
unfolding encode_items
length-encode_items [] = refl
length-encode_items (item ∷ items) =
    omega (arith, length-append item (encode_items items), length-encode_items items)

-- The length that the frame header announces is the length of the encoded inner batch.
pub length-encode_batch_payload :
    (items : List Bytes) → length (encode_batch_payload items) ≡ inner_batch_payload_len items
unfolding encode_batch_payload inner_batch_payload_len
length-encode_batch_payload items = omega (arith, length-encode_items items)

flatten-item_slices : (items : List Bytes) → flatten (item_slices items) ≡ encode_items items
unfolding item_slices encode_items flatten
flatten-item_slices [] = refl
flatten-item_slices (item ∷ items) = rw (flatten-item_slices items)

pub flatten-batch_slices :
    (magic : Bytes) (items : List Bytes)
    → flatten (batch_slices magic items) ≡ encode_framed_batch magic items
unfolding batch_slices encode_framed_batch encode_batch_payload flatten
flatten-batch_slices magic items =
    rw (length-encode_batch_payload items, flatten-item_slices items) refl

pub encode_items-append :
    (xs ys : List Bytes) → encode_items (xs ++ ys) ≡ encode_items xs ++ encode_items ys
unfolding encode_items
encode_items-append [] ys = refl
encode_items-append (item ∷ xs) ys = ap (◌++◌ (to_le_bytes 4 (as_u32 (length item)))) (
    ap (◌++◌ item) (encode_items-append xs ys)
    ∙ sym (append_assoc item (encode_items xs) (encode_items ys)))

-- One round of the parser's loop, at an item that is there in full.
parse_items_step :
    (n : ℕ) (payload : Bytes) (offset : ℕ) (out : List Bytes) (item : Bytes)
    → IsItem item
    → from_le_bytes (slice offset 4 payload) ≡ length item
    → slice (offset + 4) (length item) payload ≡ item
    → offset + 4 + length item ≤ length payload
    → parse_items (suc n) payload offset out
      ≡ parse_items n payload (offset + 4 + length item) (out ++ (item ∷ []))
unfolding parse_items
parse_items_step n payload offset out item valid len body fits = rw (len, body) (ground arith)

-- The loop reads the items that the payload holds at its offset, and goes on behind them.
pub parse_items_skip :
    (items more : List Bytes) (pre post payload : Bytes) (offset : ℕ) (out : List Bytes)
    → payload ≡ pre ++ (encode_items items ++ post)
    → offset ≡ length pre
    → All IsItem items
    → parse_items (length (items ++ more)) payload offset out
      ≡ parse_items (length more) payload (offset + sum_items items) (out ++ items)
parse_items_skip [] more pre post payload offset out e k h =
    let zero_sum : offset + 0 ≡ offset = omega arith in rw (zero_sum, append-nil)
parse_items_skip (item ∷ items) more pre post payload offset out e k (valid, h) =
    parse_items_step (length (items ++ more)) payload offset out item valid len body fits
    ∙ parse_items_skip items more (pre ++ (width ++ item)) post payload (offset + 4 + length item)
        (out ++ (item ∷ [])) (whole ∙ sym regroup)
        (omega (arith, length-append pre (width ++ item), length-append width item)) h
    ∙ ap₂ (parse_items (length more) payload) (omega arith) (append_assoc out (item ∷ []) items)
  where
    width : Bytes
    width = to_le_bytes 4 (as_u32 (length item))

    rest : Bytes
    rest = encode_items items ++ post

    whole : payload ≡ pre ++ (width ++ (item ++ rest))
    whole =
        e
        ∙ ap (◌++◌ pre)
            (unfold encode_items in ap (◌++◌ width) (append_assoc item (encode_items items) post))

    regroup : (pre ++ (width ++ item)) ++ rest ≡ pre ++ (width ++ (item ++ rest))
    regroup = append_assoc pre (width ++ item) rest

    len : from_le_bytes (slice offset 4 payload) ≡ length item
    len =
        ap (λ s. from_le_bytes (slice offset 4 s)) whole
        ∙ ap from_le_bytes (slice_middle offset 4 pre width (item ++ rest) k refl)
        ∙ omega arith

    body : slice (offset + 4) (length item) payload ≡ item
    body =
        ap (slice (offset + 4) (length item)) (whole ∙ sym (append_assoc pre width (item ++ rest)))
        ∙ slice_middle (offset + 4) (length item) (pre ++ width) item rest
            (omega (arith, length-append pre width)) refl

    fits : offset + 4 + length item ≤ length payload
    fits = omega (
      arith,
      ap length whole,
      length-append pre (width ++ (item ++ rest)),
      length-append item rest,
    )

-- The two bytes in front of the items.
abbrev pub count_header : List Bytes → Bytes
count_header items = to_le_bytes 2 (as_u16 (length items))

pub batch_item_count-encode :
    (items : List Bytes)
    → length items < u16_mod
    → batch_item_count (encode_batch_payload items) ≡ ok (length items)
unfolding batch_item_count encode_batch_payload
batch_item_count-encode items few = ground arith

-- The loop over a whole encoded batch that begins with valid items.
pub parse-skip :
    (items more : List Bytes)
    → length (items ++ more) < u16_mod
    → All IsItem items
    → parse_batch_payload_items (encode_batch_payload (items ++ more))
      ≡ parse_items (length more) (encode_batch_payload (items ++ more)) (2 + sum_items items) items
unfolding parse_batch_payload_items
parse-skip items more few valid = rw (batch_item_count-encode (items ++ more) few) (
    parse_items_skip items more (count_header (items ++ more)) (encode_items more) _ 2 []
      (unfold encode_batch_payload in
        ap (◌++◌ (count_header (items ++ more))) (encode_items-append items more))
      refl valid)

-- An inner batch of at most 65535 items, each of 1 byte to 32 MiB, is parsed back to its items.
pub parse-encode :
    (items : List Bytes)
    → length items < u16_mod
    → All IsItem items
    → parse_batch_payload_items (encode_batch_payload items) ≡ ok items
unfolding parse_items
parse-encode items few valid =
    subst (λ all. parse_batch_payload_items (encode_batch_payload all) ≡ ok items)
      (append-nil items) (parse-skip items [] (rw append-nil few) valid)

-- Frames announce the length of their inner batch in 32 bits.
abbrev pub FitsFrame : List Bytes → Type 0
FitsFrame items = inner_batch_payload_len items ≤ max_ingress_batch_frame_bytes

-- The count and the length behind the magic.
abbrev pub frame_header : List Bytes → Bytes
frame_header items =
    to_le_bytes 2 (as_u16 (length items))
    ++ to_le_bytes 4 (as_u32 (length (encode_batch_payload items)))

pub frame_header-length :
    (items : List Bytes)
    → FitsFrame items
    → (0 < length (encode_batch_payload items))
      × (length (encode_batch_payload items) ≤ max_ingress_batch_frame_bytes)
      × (from_le_bytes (slice 2 4 (frame_header items)) ≡ length (encode_batch_payload items))
unfolding inner_batch_payload_len
frame_header-length items fits =
    let sum = length-encode_batch_payload items in
    (omega (arith, sum), omega (arith, sum), omega (arith, sum))

pub framed_shape :
    (magic : Bytes) (items : List Bytes) (rest : Bytes)
    → encode_framed_batch magic items ++ rest
      ≡ magic
        ++ ((to_le_bytes 2 (as_u16 (length items))
              ++ to_le_bytes 4 (as_u32 (length (encode_batch_payload items))))
            ++ (encode_batch_payload items ++ rest))
unfolding encode_framed_batch
framed_shape magic items rest =
    append_assoc magic
      (to_le_bytes 2 (as_u16 (length items))
        ++ (to_le_bytes 4 (as_u32 (length (encode_batch_payload items)))
            ++ encode_batch_payload items))
      rest

-- A BATC frame of a batch that fits a frame is read back as its inner batch, and what follows it is
-- left on the connection.
pub read_batch_frame-encode :
    (items : List Bytes) (rest : Bytes)
    → FitsFrame items
    → read_batch_frame (encode_batch items ++ rest) ≡ ok (encode_batch_payload items, rest)
unfolding read_batch_frame encode_batch
read_batch_frame-encode items rest fits = rw (framed_shape magic_batch items rest) (
    follow (read_exact_async 4) _ _
      (read_exact_lem 4 magic_batch (frame_header items ++ (encode_batch_payload items ++ rest))
        refl)
      (follow (read_exact_async 6) _ _
        (read_exact_lem 6 (frame_header items) (encode_batch_payload items ++ rest) refl)
        (rw facts.2 (
          passes (leb n max_ingress_batch_frame_bytes) _ _ _ (le→leb _ _ facts.1)
            (rw (lt→ltb 0 n facts.0) (read_exact_lem n (encode_batch_payload items) rest refl))))))
  where
    n : ℕ
    n = length (encode_batch_payload items)

    facts :
        (0 < n)
        × (n ≤ max_ingress_batch_frame_bytes)
        × (from_le_bytes (slice 2 4 (frame_header items)) ≡ n)
    facts = frame_header-length items fits

-- A PUBB frame of at least one item, of which none is empty or above 32 MiB, is read back as its
-- items, and what follows it is left on the connection.
pub read_ingress_items-encode :
    (items : List Bytes) (rest : Bytes)
    → length items < u16_mod
    → FitsFrame items
    → All IsItem items
    → read_ingress_items (encode_pub_batch items ++ rest) ≡ ok (items, rest)
unfolding read_ingress_items read_pub_batch_body encode_pub_batch
read_ingress_items-encode items rest few fits valid = rw (framed_shape magic_pub_batch items rest) (
    follow (read_exact_async 4) _ _
      (read_exact_lem 4 magic_pub_batch (frame_header items ++ (encode_batch_payload items ++ rest))
        refl)
      (follow (read_exact_async 6) _ _
        (read_exact_lem 6 (frame_header items) (encode_batch_payload items ++ rest) refl)
        (rw (facts.2, count)
          (passes (ltb 0 n && leb n max_ingress_batch_frame_bytes) _ _ _ sized (
            follow (read_exact_async n) _ _
              (read_exact_lem n (encode_batch_payload items) rest refl)
              (follow (lift (parse_batch_payload_items (encode_batch_payload items))) _ _ parsed
                (passes (length items == length items) _ _ _ same refl)))))))
  where
    n : ℕ
    n = length (encode_batch_payload items)

    facts :
        (0 < n)
        × (n ≤ max_ingress_batch_frame_bytes)
        × (from_le_bytes (slice 2 4 (frame_header items)) ≡ n)
    facts = frame_header-length items fits

    count : from_le_bytes (slice 0 2 (frame_header items)) ≡ length items
    count = omega arith

    sized : (ltb 0 n && leb n max_ingress_batch_frame_bytes) ≡ true
    sized = rw (lt→ltb 0 n facts.0) (le→leb n max_ingress_batch_frame_bytes facts.1)

    parsed : lift (parse_batch_payload_items (encode_batch_payload items)) rest ≡ ok (items, rest)
    parsed = rw (parse-encode items few valid)

    same : (length items == length items) ≡ true
    same = (==_iff (length items) (length items)).1 refl
