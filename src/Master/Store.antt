-- ===== src/Master/Store.antt =====
-- `HashMap<u64, V>` as a list of entries by id, and `HashSet<u64>` as a list of ids.
use cupidmq.Common.{
  ◌==◌, if◌then◌else◌, ℕ, ◌≡◌, Bool, false, not, ◌&&◌, ◌||◌, Option, none, some, List, [], ◌∷◌,
  arith,
}

abbrev pub Store {ℓ} : Type ℓ → Type ℓ
Store V = List (ℕ × V)

module _ {ℓ} {V : Type ℓ} where
  unfoldable pub get : ℕ → Store V → Option V
  get id [] = none
  get id ((k, v) ∷ m) = if id == k then some v else get id m

  unfoldable pub remove : ℕ → Store V → Store V
  remove id [] = []
  remove id ((k, v) ∷ m) = let rest = remove id m in if id == k then rest else (k, v) ∷ rest

  unfoldable pub insert : ℕ → V → Store V → Store V
  insert id v m = (id, v) ∷ remove id m

  -- `if let Some(v) = m.get_mut(&id) { … }`
  unfoldable pub alter : (V → V) → ℕ → Store V → Store V
  alter f id [] = []
  alter f id ((k, v) ∷ m) = let rest = alter f id m in (k, if id == k then f v else v) ∷ rest

  abbrev pub map_option : (V → V) → Option V → Option V
  map_option f none = none
  map_option f (some v) = some (f v)

  pub get-alter :
      (f : V → V) (id j : ℕ) (m : Store V)
      → get j (alter f id m) ≡ (if j == id then map_option f (get j m) else get j m)
  unfolding get alter
  get-alter f id j [] = ground arith
  get-alter f id j ((k, v) ∷ m) = ground (arith, get-alter f id j m)

  pub get-remove :
      (id j : ℕ) (m : Store V) → get j (remove id m) ≡ (if j == id then none else get j m)
  unfolding get remove
  get-remove id j [] = ground arith
  get-remove id j ((k, v) ∷ m) = ground (arith, get-remove id j m)

  pub get-insert :
      (id j : ℕ) (v : V) (m : Store V)
      → get j (insert id v m) ≡ (if j == id then some v else get j m)
  unfolding get insert
  get-insert id j v m = ground (arith, get-remove id j m)

unfoldable pub member : ℕ → List ℕ → Bool
member x [] = false
member x (y ∷ ys) = (x == y) || member x ys

unfoldable pub without : ℕ → List ℕ → List ℕ
without x [] = []
without x (y ∷ ys) = let rest = without x ys in if x == y then rest else y ∷ rest

pub member-without :
    (x y : ℕ) (ys : List ℕ) → member x (without y ys) ≡ (not (x == y) && member x ys)
unfolding member without
member-without x y [] = ground arith
member-without x y (z ∷ ys) = ground (arith, member-without x y ys)
