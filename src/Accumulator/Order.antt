-- ===== src/Accumulator/Order.antt =====
-- The accumulator neither loses, repeats nor reorders a payload.
use cupidmq.Common.{
  ltb, Bool-cases, length, saturating_add, Bytes, ℕ, ◌≡◌, refl, ◌⊎◌, inl, inr, false, Option, none,
  some, List, [], ◌∷◌, ◌++◌, flatten, append-nil, arith,
}
use cupidmq.Accumulator.{BatchAccumulator, null, take_batch, to_list, push}

-- The payloads in an accumulator's hands after an operation: those handed out, then those kept.
abbrev pub in_order : List (List Bytes) × BatchAccumulator → List Bytes
in_order out = flatten out.0 ++ out.1.items

null_cases : (xs : List Bytes) → (xs ≡ []) ⊎ (null xs ≡ false)
null_cases [] = inl refl
null_cases (x ∷ xs) = inr refl

-- A flush hands out all the items in order, and keeps none.
pub take_batch_all :
    (a : BatchAccumulator)
    → (flatten (to_list (take_batch a).0) ≡ a.items) × ((take_batch a).1.items ≡ [])
unfolding take_batch flatten
take_batch_all a = elim (null_cases a.items) [
  | inl e ↦ (ground arith, ground arith)
  | inr e ↦ rw e (append-nil a.items, refl)
]

flatten_snoc :
    (o : Option (List Bytes)) (item : Bytes)
    → flatten (to_list o ++ ((item ∷ []) ∷ [])) ≡ flatten (to_list o) ++ (item ∷ [])
unfolding flatten
flatten_snoc none item = refl
flatten_snoc (some batch) item = simp append-nil

-- The batches that `push` hands out and the items that it keeps are, one after the other, exactly
-- the items it had and the new payload: nothing is lost, doubled or reordered.
pub in_order-push :
    (a : BatchAccumulator) (item : Bytes) (now : ℕ)
    → in_order (push a item now) ≡ a.items ++ (item ∷ [])
unfolding push flatten
in_order-push a item now = elim (Bool-cases (ltb a.max_bytes (length item))) [
  | inl big ↦
      rw big (
        ground
          (arith, flatten_snoc (take_batch a).0 item, append-nil (a.items ++ (item ∷ [])), all))
  | inr small ↦
      rw small (elim (Bool-cases (ltb a.max_bytes (saturating_add a.bytes (length item)))) [
        | inl full ↦ rw full (ground (arith, all))
        | inr room ↦ rw room refl
      ])
]
  where
    all : (flatten (to_list (take_batch a).0) ≡ a.items) × ((take_batch a).1.items ≡ [])
    all = take_batch_all a
