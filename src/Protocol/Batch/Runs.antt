-- ===== src/Protocol/Batch/Runs.antt =====
-- Concrete frames, and the theorems about batches at concrete inputs.
use cupidmq.Common.{
  length, All, Bytes, ℕ, zero, suc, ◌≤◌, min, ◌≡◌, refl, ap, Option, some, List, [], ◌∷◌, arith,
}
use cupidmq.Protocol.Wire.{end_of_stream, truncated_item_body, invalid_item_len, ok, err}
use cupidmq.Protocol.Batch.{
  inner_batch_payload_len, encode_items, encode_batch_payload, write_batch_vectored,
  batch_wire_bytes, read_batch_frame, batch_item_count, parse_items, parse_batch_payload_items,
}
use cupidmq.Protocol.Batch.RoundTrip.{IsItem, parse-encode, FitsFrame}
use cupidmq.Protocol.Batch.Limits.{parse_sound, parse_refuses_large, short_write_cuts}

abbrev two_items : List Bytes
two_items = (1 ∷ 2 ∷ 3 ∷ []) ∷ (4 ∷ 5 ∷ []) ∷ []

abbrev two_items_payload : Bytes
two_items_payload = 2 ∷ 0 ∷ 3 ∷ 0 ∷ 0 ∷ 0 ∷ 1 ∷ 2 ∷ 3 ∷ 2 ∷ 0 ∷ 0 ∷ 0 ∷ 4 ∷ 5 ∷ []

two_items_runs : encode_batch_payload two_items ≡ two_items_payload
unfolding encode_batch_payload encode_items
two_items_runs = refl

two_items_parse : parse_batch_payload_items two_items_payload ≡ ok two_items
unfolding parse_batch_payload_items parse_items
two_items_parse = refl

cut_item_body : parse_batch_payload_items (1 ∷ 0 ∷ 3 ∷ 0 ∷ 0 ∷ 0 ∷ 1 ∷ []) ≡ err truncated_item_body
unfolding parse_batch_payload_items parse_items
cut_item_body = refl

-- A system that takes everything, and one that takes twelve bytes.
abbrev take_all_bytes : ℕ → Option ℕ
take_all_bytes offered = some offered

abbrev take_twelve : ℕ → Option ℕ
take_twelve offered = some (min 12 offered)

two_items_fit : FitsFrame two_items
unfolding inner_batch_payload_len
two_items_fit = omega arith

parse-encode_example : parse_batch_payload_items (encode_batch_payload two_items) ≡ ok two_items
parse-encode_example = parse-encode two_items (omega arith) (omega arith)

parse_sound_example :
    (batch_item_count two_items_payload ≡ ok 2)
    × All IsItem two_items
    × (inner_batch_payload_len two_items ≤ 15)
parse_sound_example = parse_sound two_items_payload two_items two_items_parse

short_write_cuts_example :
    ((write_batch_vectored take_twelve two_items).0 ≡ ok 25)
    × (read_batch_frame (write_batch_vectored take_twelve two_items).1 ≡ err end_of_stream)
unfolding batch_wire_bytes inner_batch_payload_len
short_write_cuts_example =
    short_write_cuts take_twelve two_items 12 two_items_fit refl (omega arith)

-- A payload of `n` zero bytes.
zeros : ℕ → Bytes
zeros zero = []
zeros (suc n) = 0 ∷ zeros n

length-zeros : (n : ℕ) → length (zeros n) ≡ n
unfolding zeros
length-zeros zero = refl
length-zeros (suc n) = ap suc (length-zeros n)

parse_refuses_large_example :
    parse_batch_payload_items (encode_batch_payload ((1 ∷ []) ∷ zeros 33_554_433 ∷ (2 ∷ []) ∷ []))
    ≡ err invalid_item_len
parse_refuses_large_example =
    parse_refuses_large ((1 ∷ []) ∷ []) ((2 ∷ []) ∷ []) (zeros 33_554_433) (omega arith)
      (omega arith) (omega (arith, length-zeros 33_554_433))
      (omega (arith, length-zeros 33_554_433))
