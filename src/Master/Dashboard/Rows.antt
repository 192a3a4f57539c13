-- ===== src/Master/Dashboard/Rows.antt =====
-- `rows.sort_by_key(|r| r.id)`, which is stable, and what it does to a list of rows.
use cupidmq.Common.{
  leb, ◌==◌, if◌then◌else◌, Bool-cases, ℕ, ◌≤◌, ◌≡◌, refl, ◌∙◌, inl, inr, Bool, true, false, Option,
  none, some, List, [], ◌∷◌, arith,
}

module _ {R : Type 0} (id_of : R → ℕ) where
  abbrev pub insert_row : R → List R → List R
  insert_row r [] = r ∷ []
  insert_row r (s ∷ rows) =
      let rest = insert_row r rows in if leb (id_of r) (id_of s) then r ∷ s ∷ rows else s ∷ rest

  unfoldable pub sort_by_id : List R → List R
  sort_by_id [] = []
  sort_by_id (r ∷ rows) = insert_row r (sort_by_id rows)

  -- The first row of an id.
  unfoldable pub row_at : ℕ → List R → Option R
  row_at j [] = none
  row_at j (r ∷ rows) = if j == id_of r then some r else row_at j rows

  -- No row has an id below `low`, and the ids do not decrease.
  abbrev pub IsSorted : ℕ → List R → Type 0
  IsSorted low [] = Unit
  IsSorted low (r ∷ rows) = (low ≤ id_of r) × IsSorted (id_of r) rows

  lower : (low low' : ℕ) (rows : List R) → low' ≤ low → IsSorted low rows → IsSorted low' rows
  lower low low' [] h v = tt
  lower low low' (r ∷ rows) h (first, v) = (omega arith, v)

  insert_row-IsSorted :
      (low : ℕ) (r : R) (rows : List R)
      → low ≤ id_of r
      → IsSorted low rows
      → IsSorted low (insert_row r rows)
  insert_row-IsSorted low r [] h v = (h, tt)
  insert_row-IsSorted low r (s ∷ rows) h (first, v) = elim (Bool-cases (leb (id_of r) (id_of s))) [
    | inl before ↦ rw before (h, (ground arith, v))
    | inr after ↦ rw after (first, insert_row-IsSorted (id_of s) r rows (ground arith) v)
  ]

  pub sort_by_id-IsSorted : (rows : List R) → IsSorted 0 (sort_by_id rows)
  unfolding sort_by_id
  sort_by_id-IsSorted [] = tt
  sort_by_id-IsSorted (r ∷ rows) =
      insert_row-IsSorted 0 r (sort_by_id rows) (omega arith) (sort_by_id-IsSorted rows)

  row_at-insert_row :
      (j : ℕ) (r : R) (rows : List R)
      → row_at j (insert_row r rows) ≡ (if j == id_of r then some r else row_at j rows)
  unfolding row_at
  row_at-insert_row j r [] = refl
  row_at-insert_row j r (s ∷ rows) = elim (Bool-cases (leb (id_of r) (id_of s))) [
    | inl before ↦ rw before refl
    | inr after ↦
        rw (after, row_at-insert_row j r rows) (swapped (j == id_of s) (j == id_of r) (apart after))
  ]
    where
      apart : leb (id_of r) (id_of s) ≡ false → (j == id_of s) ≡ true → (j == id_of r) ≡ true → ⊥
      apart a h k = ground arith

      swapped :
          (b c : Bool)
          → (b ≡ true → c ≡ true → ⊥)
          → (if b then some s else (if c then some r else row_at j rows))
            ≡ (if c then some r else (if b then some s else row_at j rows))
      swapped true true k = absurd (k refl refl)
      swapped true false k = refl
      swapped false c k = refl

  pub row_at-sort_by_id : (j : ℕ) (rows : List R) → row_at j (sort_by_id rows) ≡ row_at j rows
  unfolding sort_by_id row_at
  row_at-sort_by_id j [] = refl
  row_at-sort_by_id j (r ∷ rows) =
      row_at-insert_row j r (sort_by_id rows) ∙ (rw (row_at-sort_by_id j rows) refl)
