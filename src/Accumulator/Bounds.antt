-- ===== src/Accumulator/Bounds.antt =====
-- How large a batch can be, and when the accumulator is open.
use cupidmq.Common.{
  ltb, Bool-cases, length, All, usize_max, saturating_add, Bytes, ℕ, ◌+◌, ◌≤◌, ◌<◌, ◌≡◌, ◌⊎◌, inl,
  inr, Option, none, some, List, [], ◌∷◌, ◌++◌, arith,
}
use cupidmq.Accumulator.{BatchAccumulator, new, take_batch, to_list, open_at, append_item, push}

-- The payload bytes of a batch.
abbrev pub weight : List Bytes → ℕ
weight [] = 0
weight (x ∷ xs) = length x + weight xs

pub weight-append : (xs ys : List Bytes) → weight (xs ++ ys) ≡ weight xs + weight ys
weight-append [] ys = omega arith
weight-append (x ∷ xs) ys = omega (arith, weight-append xs ys)

abbrev pub IsOpen : List Bytes → Option ℕ → Type 0
IsOpen [] none = Unit {0}
IsOpen [] (some t) = ⊥
IsOpen (x ∷ xs) none = ⊥
IsOpen (x ∷ xs) (some t) = Unit {0}

-- The byte count is exact and within the cap, and a time of opening is there exactly when an item is.
pub record IsBounded (a : BatchAccumulator) : Type 0 where
  pub counted : a.bytes ≡ weight a.items
  pub capped : a.bytes ≤ a.max_bytes
  pub bounded : a.max_bytes < usize_max
  pub positive : 1 ≤ a.max_bytes
  pub opened : IsOpen a.items a.opened_at

pub new-IsBounded : (n t : ℕ) → n < usize_max → IsBounded (new n t)
unfolding new
new-IsBounded n t h = ground arith

pub take_batch-IsBounded : (a : BatchAccumulator) → IsBounded a → IsBounded (take_batch a).1
unfolding take_batch
take_batch-IsBounded a v = ground arith

IsOpen-append :
    (xs : List Bytes) (x : Bytes) (o : Option ℕ) (now : ℕ)
    → IsOpen xs o
    → IsOpen (xs ++ (x ∷ [])) (open_at o now)
IsOpen-append [] x none now h = tt
IsOpen-append [] x (some t) now h = tt
IsOpen-append (y ∷ ys) x none now h = tt
IsOpen-append (y ∷ ys) x (some t) now h = tt

append_item-IsBounded :
    (a : BatchAccumulator) (item : Bytes) (now : ℕ)
    → a.bytes + length item ≤ a.max_bytes
    → IsBounded a
    → IsBounded (append_item a item now)
append_item-IsBounded a item now h v = record {
  counted = ground (arith, weight-append a.items (item ∷ []));
  capped = ground arith;
  bounded = v.bounded;
  positive = v.positive;
  opened = IsOpen-append a.items item a.opened_at now v.opened;
}

take_batch_empty :
    (a : BatchAccumulator)
    → IsBounded a
    → ((take_batch a).1.bytes ≡ 0) × ((take_batch a).1.max_bytes ≡ a.max_bytes)
unfolding take_batch
take_batch_empty a v = ground arith

-- `push` keeps the byte count of the accumulator exact and within its cap, and the time of opening
-- set exactly when an item waits.
pub push-IsBounded :
    (a : BatchAccumulator) (item : Bytes) (now : ℕ) → IsBounded a → IsBounded (push a item now).1
unfolding push
push-IsBounded a item now v = elim (Bool-cases (ltb a.max_bytes (length item))) [
  | inl big ↦ rw big (take_batch-IsBounded a v)
  | inr small ↦
      rw small (elim (Bool-cases (ltb a.max_bytes (saturating_add a.bytes (length item)))) [
        | inl full ↦ rw full (
            append_item-IsBounded (take_batch a).1 item now (ground (arith, take_batch_empty a v))
              (take_batch-IsBounded a v))
        | inr room ↦ rw room (append_item-IsBounded a item now (ground arith) v)
      ])
]

-- A batch that `push` hands out is within the cap, or it is the pushed payload alone.
abbrev pub Fits : ℕ → Bytes → List Bytes → Type 0
Fits cap item batch = (weight batch ≤ cap) ⊎ (batch ≡ item ∷ [])

taken-Fits :
    (a : BatchAccumulator) (item : Bytes)
    → IsBounded a
    → All (Fits a.max_bytes item) (to_list (take_batch a).0)
unfolding take_batch
taken-Fits a item v = ground arith

-- Every batch that `push` hands out is within the byte cap, or it is the pushed payload alone, and
-- there are at most two of them.
pub push_batches_fit :
    (a : BatchAccumulator) (item : Bytes) (now : ℕ)
    → IsBounded a
    → All (Fits a.max_bytes item) (push a item now).0 × (length (push a item now).0 ≤ 2)
unfolding push
push_batches_fit a item now v = ground (arith, taken-Fits a item v)
