-- ===== src/Accumulator.antt =====
-- master/src/producer/accumulator.rs: payloads gathered into batches by size, or by time.
-- `Instant` is a reading in milliseconds of a monotonic clock, and the reading is an argument.
pub mod Order
pub mod Bounds
mod Runs
use cupidmq.Common.{
  ltb, leb, ◌==◌, if◌then◌else◌, ltb→lt, ltb→le, lt→ltb, le→ltb, le→leb, lt→leb, ==_iff, Bool-cases,
  Option-cases, length, take, drop, get_elem?, All, length-append, take-append-drop, length-take,
  length-drop, take_all, take-append_length, drop-append_length, length-reverse, length-map,
  All-append, All-map, take-min-length, drop-min-length, take-append_le, take-take,
  drop-take-append, take-map, drop-map, u16_mod, u32_mod, u64_mod, usize_max, saturating_add,
  as_u16, as_u32, add_u32, add_u64, sub_u64, Bytes, ℕ, zero, suc, ◌+◌, ◌-◌, ◌*◌, ◌/◌, ◌%◌, ◌^◌, ◌≤◌,
  ◌<◌, min, max, ◌≡◌, refl, sym, ap, ap₂, subst, ◌∙◌, ◌≢◌, ◌↔◌, ◌⊎◌, inl, inr, Bool, true, false,
  not, ◌&&◌, ◌||◌, Option, none, some, List, [], ◌∷◌, ◌++◌, map, reverse, flatten, append-nil,
  append_assoc, map-append, reverse-append, reverse-reverse, reverse-cons, arith,
}

pub record BatchAccumulator : Type 0 where
  pub items : List Bytes
  pub bytes : ℕ
  pub max_bytes : ℕ
  pub flush_timeout : ℕ
  pub opened_at : Option ℕ

unfoldable pub new : ℕ → ℕ → BatchAccumulator
new max_bytes flush_timeout = record {
  items = [];
  bytes = 0;
  max_bytes = max max_bytes 1;
  flush_timeout = flush_timeout;
  opened_at = none;
}

abbrev pub null : List Bytes → Bool
null [] = true
null (x ∷ xs) = false

unfoldable pub is_empty : BatchAccumulator → Bool
is_empty a = null a.items

unfoldable pub pending_bytes : BatchAccumulator → ℕ
pending_bytes a = a.bytes

unfoldable pub pending_items : BatchAccumulator → ℕ
pending_items a = length a.items

unfoldable pub take_batch : BatchAccumulator → Option (List Bytes) × BatchAccumulator
take_batch a =
    if null a.items
    then (none, a)
    else (some a.items, record a { items = []; bytes = 0; opened_at = none })

-- `if let Some(batch) = self.take_batch() { out.push(batch) }` on an empty `out`.
abbrev pub to_list : Option (List Bytes) → List (List Bytes)
to_list none = []
to_list (some batch) = batch ∷ []

abbrev pub open_at : Option ℕ → ℕ → Option ℕ
open_at none now = some now
open_at (some t) now = some t

abbrev pub append_item : BatchAccumulator → Bytes → ℕ → BatchAccumulator
append_item a item now = record a {
  items = a.items ++ (item ∷ []);
  bytes = saturating_add a.bytes (length item);
  opened_at = open_at a.opened_at now;
}

-- The batches that are ready to send, and the accumulator after the push.
unfoldable pub push : BatchAccumulator → Bytes → ℕ → List (List Bytes) × BatchAccumulator
unfolding take_batch
push a item now =
    if ltb a.max_bytes (length item)
    then (to_list (take_batch a).0 ++ ((item ∷ []) ∷ []), (take_batch a).1)
    else if ltb a.max_bytes (saturating_add a.bytes (length item))
    then (to_list (take_batch a).0, append_item (take_batch a).1 item now)
    else ([], append_item a item now)

-- `opened.elapsed()` is `now` less the opening, and 0 if the clock reads less.
abbrev pub expired : BatchAccumulator → ℕ → ℕ → Option (List Bytes) × BatchAccumulator
expired a now opened = if ltb (now - opened) a.flush_timeout then (none, a) else take_batch a

abbrev pub flush_opened : BatchAccumulator → ℕ → Option ℕ → Option (List Bytes) × BatchAccumulator
flush_opened a now none = (none, a)
flush_opened a now (some opened) = expired a now opened

unfoldable pub flush_if_timeout : BatchAccumulator → ℕ → Option (List Bytes) × BatchAccumulator
unfolding take_batch
flush_if_timeout a now = if null a.items then (none, a) else flush_opened a now a.opened_at
