-- ===== src/Master/Matchmaker/Pool.antt =====
-- What leaves the pool of ready producers, and what `take_next_waiting_inner` takes from the queue.
use cupidmq.Common.{
  ◌==◌, ==_iff, Bool-cases, length, take, drop, All, ℕ, zero, suc, ◌+◌, ◌%◌, ◌≤◌, ◌<◌, ◌≡◌, refl,
  sym, ap, subst, ◌∙◌, inl, inr, true, false, not, ◌&&◌, ◌||◌, some, List, [], ◌∷◌, ◌++◌, arith,
}
use cupidmq.Master.Store.{member, without, member-without}
use cupidmq.Master.Consumers.{without_all}
use cupidmq.Master.Consumers.Release.{member-without_all}
use cupidmq.Master.Matchmaker.{
  PendingConsumer, MatchmakerInner, remove_at, pick_of, take_next_waiting_inner,
}

pub length-without : (x : ℕ) (xs : List ℕ) → length (without x xs) ≤ length xs
unfolding without
length-without x [] = omega arith
length-without x (y ∷ xs) = ground (arith, length-without x xs)

-- Taking out an id that is there makes the pool smaller.
pub length-without_lt :
    (x : ℕ) (xs : List ℕ) → member x xs ≡ true → length (without x xs) < length xs
unfolding without member
length-without_lt x [] h = cc
length-without_lt x (y ∷ xs) h = elim (Bool-cases (x == y)) [
  | inl same ↦ rw same (omega (arith, length-without x xs))
  | inr other ↦
      rw other (omega (arith, length-without_lt x xs (ap (λ b. b || member x xs) (sym other) ∙ h)))
]

length-without_all : (stale xs : List ℕ) → length (without_all stale xs) ≤ length xs
unfolding without_all
length-without_all [] xs = omega arith
length-without_all (y ∷ stale) xs =
    omega (arith, length-without_all stale (without y xs), length-without y xs)

length-without_all_lt :
    (x : ℕ) (stale xs : List ℕ)
    → member x stale ≡ true
    → member x xs ≡ true
    → length (without_all stale xs) < length xs
unfolding without_all member
length-without_all_lt x [] xs h k = cc
length-without_all_lt x (y ∷ stale) xs h k = elim (Bool-cases (x == y)) [
  | inl same ↦ omega (
    arith,
    length-without_all stale (without y xs),
    length-without_lt y xs (subst (λ z. member z xs ≡ true) ((==_iff x y).0 same) k),
  )
  | inr other ↦ omega (
    arith,
    length-without_all_lt x stale (without y xs) (ap (λ b. b || member x stale) (sym other) ∙ h)
        (member-without x y xs ∙ rw (other, k) refl),
    length-without y xs,
  )
]

-- So a round that claims a producer of the pool leaves a smaller pool, stale or not.
pub pool_shrinks :
    (x : ℕ) (stale xs : List ℕ)
    → member x xs ≡ true
    → length (without x (without_all stale xs)) < length xs
pool_shrinks x stale xs h = elim (Bool-cases (member x stale)) [
  | inl dropped ↦
      omega
        (arith, length-without x (without_all stale xs), length-without_all_lt x stale xs dropped h)
  | inr kept ↦ omega (
    arith,
    length-without_lt x (without_all stale xs) (member-without_all x stale xs ∙ rw (kept, h) refl),
    length-without_all stale xs,
  )
]

no_members : (xs : List ℕ) → ((x : ℕ) → member x xs ≡ false) → xs ≡ []
unfolding member
no_members [] h = refl
no_members (x ∷ xs) h = absurd (clash (h x))
  where
    clash : ¬ ((x == x) || member x xs ≡ false)
    clash k = let same : (x == x) ≡ true = (==_iff x x).1 refl in cc

member-All : (P : ℕ → Type 0) (x : ℕ) (xs : List ℕ) → All P xs → member x xs ≡ true → P x
unfolding member
member-All P x [] h k = cc
member-All P x (y ∷ xs) (p, h) k = elim (Bool-cases (x == y)) [
  | inl same ↦ subst P (sym ((==_iff x y).0 same)) p
  | inr other ↦ member-All P x xs h (ap (λ b. b || member x xs) (sym other) ∙ k)
]

-- A pool of which every id is stale is emptied.
pub without_all_covers :
    (stale xs : List ℕ) → All (λ x. member x stale ≡ true) xs → without_all stale xs ≡ []
without_all_covers stale xs h =
    no_members (without_all stale xs) (λ x. member-without_all x stale xs ∙ gone x)
  where
    gone : (x : ℕ) → (not (member x stale) && member x xs) ≡ false
    gone x = elim (Bool-cases (member x xs)) [
      | inl inside ↦ rw (inside, member-All (λ y. member y stale ≡ true) x xs h inside) refl
      | inr outside ↦ rw outside (ground arith)
    ]

-- An index within the list takes an item out of its place and leaves the others in order.
pub remove_at_lem {ℓ} :
    {A : Type ℓ} (i : ℕ) (xs : List A)
    → i < length xs
    → (x : A) × (remove_at i xs ≡ some (x, take i xs ++ drop (suc i) xs))
      × (take i xs ++ (x ∷ drop (suc i) xs) ≡ xs)
unfolding remove_at
remove_at_lem i [] h = absurd (omega arith)
remove_at_lem zero (x ∷ xs) h = (x, refl, refl)
remove_at_lem (suc i) (x ∷ xs) h =
    let (y, found, same) = remove_at_lem i xs (omega arith) in
    (y, rw found refl, ap (λ rest. x ∷ rest) same)

-- What taking a consumer comes to.
pub record TakesOne (inner : MatchmakerInner) (i : ℕ) (c : PendingConsumer) : Type 0 where
  pub within : i < length inner.waiting
  pub item : take i inner.waiting ++ (c ∷ drop (suc i) inner.waiting) ≡ inner.waiting
  pub result : take_next_waiting_inner inner ≡ (
    some c,
    record inner {
      waiting = take i inner.waiting ++ drop (suc i) inner.waiting;
      consumer_rr = (i + 1) % length inner.waiting;
    },
  )

-- `take_next_waiting_inner` on a queue that is not empty, with any round-robin position: it takes one
-- consumer out, at an index within the queue, leaves the others in their order, and keeps a position
-- within the old queue.
pub take_next_waiting_inner_lem :
    (inner : MatchmakerInner)
    → 1 ≤ length inner.waiting
    → (c : PendingConsumer) × TakesOne inner (pick_of inner) c
unfolding take_next_waiting_inner
take_next_waiting_inner_lem inner h =
    let within : pick_of inner < length inner.waiting = ground arith in
    let (c, found, same) = remove_at_lem (pick_of inner) inner.waiting within in
    (c, record { within = within; item = same; result = rw (some_waiting, found) refl })
  where
    some_waiting : (length inner.waiting == 0) ≡ false
    some_waiting = ground arith
