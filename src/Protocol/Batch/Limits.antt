-- ===== src/Protocol/Batch/Limits.antt =====
-- What the parser accepts and refuses, and what a vectored write sends.
use cupidmq.Common.{
  leb, lt→ltb, le→leb, length, take, drop, All, length-append, length-take, length-drop,
  take-append_le, u16_mod, u32_mod, as_u32, Bytes, ℕ, zero, suc, ◌+◌, ◌-◌, ◌≤◌, ◌<◌, ◌≡◌, refl, sym,
  ap, ap₂, ◌∙◌, Option, some, List, [], ◌∷◌, ◌++◌, flatten, append-nil, append_assoc, arith,
}
use native.Mathlib.Decide.{dec_lt}
use cupidmq.Protocol.Wire.{
  to_le_bytes, from_le_bytes, slice, end_of_stream, invalid_item_len, Result, ok, err,
  read_exact_async, read_exact_lem, read_exact_short, slice_middle, follow, passes, stops,
}
use cupidmq.Protocol.Batch.{
  magic_batch, max_ingress_item_bytes, max_ingress_batch_frame_bytes, inner_batch_payload_len,
  encode_items, encode_batch_payload, encode_framed_batch, encode_batch, batch_slices, offer,
  write_framed_batch_vectored, write_batch_vectored, batch_wire_bytes, read_batch_frame,
  batch_item_count, parse_items, parse_batch_payload_items, sum_items, with_count,
}
use cupidmq.Protocol.Batch.RoundTrip.{
  IsItem, length-encode_items, length-encode_batch_payload, flatten-batch_slices,
  encode_items-append, count_header, parse-skip, FitsFrame, frame_header, frame_header-length,
}

-- Whatever bytes arrive, what the loop parses lies inside the payload, item by item.
pub record Parsed (n offset : ℕ) (payload : Bytes) (out items : List Bytes) (new : List Bytes)
    : Type 0 where
  pub extends : items ≡ out ++ new
  pub count : length new ≡ n
  pub valid : All IsItem new
  pub inside : offset + sum_items new ≤ length payload

module _ (n : ℕ) (payload : Bytes) (offset : ℕ) (out items : List Bytes) where
  abbrev item_len : ℕ
  item_len = from_le_bytes (slice offset 4 payload)

  -- A round that does not fail.
  parse_items_inv :
      parse_items (suc n) payload offset out ≡ ok items
      → (1 ≤ item_len)
        × (item_len ≤ max_ingress_item_bytes)
        × (offset + 4 + item_len ≤ length payload)
        × (parse_items n payload
              (offset + 4 + item_len)
              (out ++ (slice (offset + 4) item_len payload ∷ []))
            ≡ ok items)
  unfolding parse_items
  parse_items_inv e = ground arith

length-slice : (from n : ℕ) (s : Bytes) → from + n ≤ length s → length (slice from n s) ≡ n
length-slice from n s h = omega (arith, length-take n (drop from s), length-drop from s)

parse_items_sound :
    (n : ℕ) (payload : Bytes) (offset : ℕ) (out items : List Bytes)
    → offset ≤ length payload
    → parse_items n payload offset out ≡ ok items
    → (new : List Bytes) × Parsed n offset payload out items new
parse_items_sound zero payload offset out items h e = (
  [],
  record {
    extends = unfold parse_items in ground (arith, append-nil out);
    count = refl;
    valid = tt;
    inside = omega arith;
  },
)
parse_items_sound (suc n) payload offset out items h e =
    let (least, most, fits, rest) = parse_items_inv n payload offset out items e in
    let item : Bytes = slice (offset + 4) (item_len n payload offset out items) payload in
    let (new, p) = parse_items_sound n payload _ (out ++ (item ∷ [])) items fits rest in
    let size = length-slice (offset + 4) (item_len n payload offset out items) payload fits in
    (
      item ∷ new,
      record {
        extends = p.extends ∙ append_assoc out (item ∷ []) new;
        count = ap suc p.count;
        valid = ((omega (arith, size), omega (arith, size)), p.valid);
        inside = omega (arith, size, p.inside);
      },
    )

-- A batch payload that parses, whoever sent it, holds as many items as its header says, each of 1
-- byte to 32 MiB, and all of them lie inside the payload.
pub parse_sound :
    (payload : Bytes) (items : List Bytes)
    → parse_batch_payload_items payload ≡ ok items
    → (batch_item_count payload ≡ ok (length items))
      × All IsItem items
      × (inner_batch_payload_len items ≤ length payload)
unfolding parse_batch_payload_items inner_batch_payload_len
parse_sound payload items e = go (batch_item_count payload) refl e
  where
    go :
        (c : Result ℕ)
        → batch_item_count payload ≡ c
        → with_count c payload ≡ ok items
        → (batch_item_count payload ≡ ok (length items))
          × All IsItem items
          × (inner_batch_payload_len items ≤ length payload)
    go (err x) c h = cc
    go (ok n) c h =
        let long : 2 ≤ length payload = unfold batch_item_count in ground arith in
        let (new, p) = parse_items_sound n payload 2 [] items long h in
        (rw p.extends (c ∙ ap ok (sym p.count)), rw p.extends p.valid, rw p.extends p.inside)

-- In a batch of fewer than 65536 items, one item above 32 MiB and below 4 GiB, with items of 1 byte to
-- 32 MiB before it and any items behind it, makes a reader refuse the whole batch with the error on the
-- length of an item, though `encode_batch_payload` writes it.
pub parse_refuses_large :
    (before after : List Bytes) (item : Bytes)
    → length (before ++ (item ∷ after)) < u16_mod
    → All IsItem before
    → max_ingress_item_bytes < length item
    → length item < u32_mod
    → parse_batch_payload_items (encode_batch_payload (before ++ (item ∷ after)))
      ≡ err invalid_item_len
unfolding parse_items
parse_refuses_large before after item few valid large word =
    parse-skip before (item ∷ after) few valid ∙ ground (arith, len, room)
  where
    width : Bytes
    width = to_le_bytes 4 (as_u32 (length item))

    rest : Bytes
    rest = encode_items after

    header : Bytes
    header = count_header (before ++ (item ∷ after))

    payload : Bytes
    payload = encode_batch_payload (before ++ (item ∷ after))

    whole : payload ≡ (header ++ encode_items before) ++ (width ++ (item ++ rest))
    whole =
        unfold encode_batch_payload encode_items in
        ap (◌++◌ header) (encode_items-append before (item ∷ after))
        ∙ sym (append_assoc header (encode_items before) (width ++ (item ++ rest)))

    front : length (header ++ encode_items before) ≡ 2 + sum_items before
    front = omega (arith, length-append header (encode_items before), length-encode_items before)

    len : from_le_bytes (slice (2 + sum_items before) 4 payload) ≡ length item
    len =
        ap (λ s. from_le_bytes (slice (2 + sum_items before) 4 s)) whole
        ∙ ap from_le_bytes (
            slice_middle (2 + sum_items before) 4 (header ++ encode_items before) width
              (item ++ rest) (sym front) refl)
        ∙ omega arith

    room : 2 + sum_items before + 4 ≤ length payload
    room = omega (
      arith,
      ap length whole,
      front,
      length-append (header ++ encode_items before) (width ++ (item ++ rest)),
    )

offer_lem :
    (accept : ℕ → Option ℕ) (payload_len n : ℕ) (s : Bytes)
    → accept (length s) ≡ some n
    → offer accept payload_len s ≡ (ok (10 + payload_len), take n s)
offer_lem accept payload_len n s h = rw (h, offer)

encode_batch_shape :
    (items : List Bytes)
    → encode_batch items ≡ magic_batch ++ (frame_header items ++ encode_batch_payload items)
unfolding encode_batch encode_framed_batch
encode_batch_shape items = refl

pub length-encode_batch :
    (items : List Bytes) → length (encode_batch items) ≡ batch_wire_bytes items
unfolding batch_wire_bytes
length-encode_batch items =
    ap length (encode_batch_shape items) ∙ omega (arith, length-encode_batch_payload items)

-- The same below 4 GiB, also for a batch that no reader takes.
pub write_batch_vectored_word :
    (accept : ℕ → Option ℕ) (items : List Bytes) (n : ℕ)
    → inner_batch_payload_len items < u32_mod
    → accept (batch_wire_bytes items) ≡ some n
    → write_batch_vectored accept items ≡ (ok (batch_wire_bytes items), take n (encode_batch items))
unfolding write_batch_vectored write_framed_batch_vectored encode_batch batch_wire_bytes
    inner_batch_payload_len
write_batch_vectored_word accept items n word taken =
    offer_lem accept (as_u32 (inner_batch_payload_len items)) n
      (flatten (batch_slices magic_batch items))
      (ap accept (ap length (flatten-batch_slices magic_batch items) ∙ length-encode_batch items)
        ∙ taken)
    ∙ ap₂ (λ w s. (ok w, take n s)) (omega arith) (flatten-batch_slices magic_batch items)

-- For a batch that fits a frame, a vectored write of which the system takes `n` bytes sends the
-- first `n` bytes of the contiguous frame of `encode_batch`, and reports the whole frame as
-- written, whatever `n` is.
pub write_batch_vectored_lem :
    (accept : ℕ → Option ℕ) (items : List Bytes) (n : ℕ)
    → FitsFrame items
    → accept (batch_wire_bytes items) ≡ some n
    → write_batch_vectored accept items ≡ (ok (batch_wire_bytes items), take n (encode_batch items))
write_batch_vectored_lem accept items n fits taken =
    write_batch_vectored_word accept items n (omega arith) taken

cut_frame :
    (items : List Bytes) (n : ℕ)
    → FitsFrame items
    → n < batch_wire_bytes items
    → read_batch_frame (take n (encode_batch items)) ≡ err end_of_stream
unfolding read_batch_frame
cut_frame items n fits short = rw (encode_batch_shape items) (elim (dec_lt n 4) [
  | yes h ↦
      stops (read_exact_async 4) _ _
        (read_exact_short 4 _ (omega (arith, length-take n (magic_batch ++ body))))
  | no h ↦ rw (take-append_le n magic_batch body (omega arith)) (
      follow (read_exact_async 4) _ _ (read_exact_lem 4 magic_batch (take (n - 4) body) refl)
        (elim (dec_lt n 10) [
          | yes k ↦
              stops (read_exact_async 6) _ _
                (read_exact_short 6 _ (omega (arith, length-take (n - 4) body)))
          | no k ↦ rw (take-append_le (n - 4) (frame_header items) payload (omega arith)) (
              follow (read_exact_async 6) _ _
                (read_exact_lem 6 (frame_header items) (take (n - 4 - 6) payload) refl)
                (rw facts.2 (
                  passes (leb (length payload) max_ingress_batch_frame_bytes) _ _ _
                    (le→leb _ _ facts.1)
                    (rw (lt→ltb 0 (length payload) facts.0) (
                      read_exact_short (length payload) _ (
                        omega (
                          arith,
                          length-take (n - 4 - 6) payload,
                          length-encode_batch_payload items,
                          total,
                        )))))))
        ]))
])
  where
    payload : Bytes
    payload = encode_batch_payload items

    body : Bytes
    body = frame_header items ++ payload

    facts :
        (0 < length payload)
        × (length payload ≤ max_ingress_batch_frame_bytes)
        × (from_le_bytes (slice 2 4 (frame_header items)) ≡ length payload)
    facts = frame_header-length items fits

    total : n < 10 + inner_batch_payload_len items
    total = unfold batch_wire_bytes in short

-- For a batch that fits a frame, a write of which the system takes only `n` bytes, fewer than the
-- frame has, is reported as a write of the whole frame, and the reader of what was sent meets the
-- end of the stream.
pub short_write_cuts :
    (accept : ℕ → Option ℕ) (items : List Bytes) (n : ℕ)
    → FitsFrame items
    → accept (batch_wire_bytes items) ≡ some n
    → n < batch_wire_bytes items
    → ((write_batch_vectored accept items).0 ≡ ok (batch_wire_bytes items))
      × (read_batch_frame (write_batch_vectored accept items).1 ≡ err end_of_stream)
short_write_cuts accept items n fits taken short =
    let sent = write_batch_vectored_lem accept items n fits taken in
    (ap (λ out. out.0) sent, ap (λ out. read_batch_frame out.1) sent ∙ cut_frame items n fits short)
