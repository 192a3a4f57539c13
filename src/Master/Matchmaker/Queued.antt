-- ===== src/Master/Matchmaker/Queued.antt =====
-- How often a consumer waits, and what the changes of the queue do to that.
use cupidmq.Common.{
  ◌==◌, if◌then◌else◌, ==_iff, Bool-cases, length, length-reverse, ℕ, zero, suc, ◌+◌, ◌<◌, ◌≡◌,
  refl, sym, ap, ◌∙◌, ◌⊎◌, inl, inr, Bool, false, Option, none, some, List, [], ◌∷◌, ◌++◌, reverse,
  reverse-reverse, reverse-cons, arith,
}
use cupidmq.Master.Matchmaker.{PendingConsumer, retain_others}
use cupidmq.Master.Matchmaker.Events.{position, replace_at, swap_last, swap_remove}

abbrev pub hit : ℕ → ℕ → ℕ
hit id j = if id == j then 1 else 0

-- How often a consumer waits.
unfoldable pub queued : ℕ → List PendingConsumer → ℕ
queued j [] = 0
queued j (p ∷ wait) = hit p.consumer_id j + queued j wait

pub queued-append :
    (j : ℕ) (xs ys : List PendingConsumer) → queued j (xs ++ ys) ≡ queued j xs + queued j ys
unfolding queued
queued-append j [] ys = omega arith
queued-append j (x ∷ xs) ys = omega (arith, queued-append j xs ys)

pub queued-retain_others :
    (j id : ℕ) (wait : List PendingConsumer)
    → queued j (retain_others id wait) ≡ (if id == j then 0 else queued j wait)
unfolding queued retain_others
queued-retain_others j id [] = ground arith
queued-retain_others j id (p ∷ wait) = ground (arith, queued-retain_others j id wait)

position-nil : (id i : ℕ) → ¬ (position id [] ≡ some i)
unfolding position
position-nil id i k = cc

-- The first that has the id stands at the start, or in the rest.
abbrev At : ℕ → ℕ → PendingConsumer → List PendingConsumer → Type 0
At id i p wait =
    ((i ≡ 0) × (p.consumer_id ≡ id))
    ⊎ ((k : ℕ) × (i ≡ suc k) × ((p.consumer_id == id) ≡ false) × (position id wait ≡ some k))

position-cons :
    (id i : ℕ) (p : PendingConsumer) (wait : List PendingConsumer)
    → position id (p ∷ wait) ≡ some i
    → At id i p wait
unfolding position
position-cons id i p wait h = elim (Bool-cases (p.consumer_id == id)) [
  | inl same ↦ inl (
    at_start (sym (ap (λ b. found b (position id wait)) same) ∙ h),
    (==_iff p.consumer_id id).0 same,
  )
  | inr other ↦
      inr
        (later other (position id wait) refl (sym (ap (λ b. found b (position id wait)) other) ∙ h))
]
  where
    found : Bool → Option ℕ → Option ℕ
    found b rest = if b then some 0 else elim rest [ none ↦ none | some k ↦ some (suc k) ]

    at_start : some 0 ≡ some i → i ≡ 0
    at_start e = cc

    later :
        (p.consumer_id == id) ≡ false
        → (o : Option ℕ) → position id wait ≡ o
        → found false o ≡ some i
        → (k : ℕ) × (i ≡ suc k) × ((p.consumer_id == id) ≡ false) × (position id wait ≡ some k)
    later other none e k = absurd (cc)
    later other (some j) e k = (j, cc, other, e)

position-At :
    (id i : ℕ) (p : PendingConsumer) (wait : List PendingConsumer)
    → At id i p wait
    → position id (p ∷ wait) ≡ some i
unfolding position
position-At id i p wait (inl (start, same)) = rw (start, (==_iff p.consumer_id id).1 same) refl
position-At id i p wait (inr (k, later, other, rest)) = rw (later, other, rest) refl

queued-replace_at :
    (j id i : ℕ) (c : PendingConsumer) (wait : List PendingConsumer)
    → position id wait ≡ some i
    → queued j (replace_at i c wait) + hit id j ≡ queued j wait + hit c.consumer_id j
unfolding queued
queued-replace_at j id i c [] h = absurd (position-nil id i h)
queued-replace_at j id zero c (p ∷ wait) h = elim (position-cons id zero p wait h) [
  | inl (start, same) ↦ rw (ap (λ x. hit x j) same) (omega arith)
  | inr (k, later, other, rest) ↦ absurd (omega (arith, later))
]
queued-replace_at j id (suc i) c (p ∷ wait) h = elim (position-cons id (suc i) p wait h) [
  | inl (start, same) ↦ absurd (omega (arith, start))
  | inr (k, later, other, rest) ↦
      omega (arith, queued-replace_at j id i c wait (rest ∙ ap some (omega (arith, later))))
]

position-last :
    (id i : ℕ) (c : PendingConsumer) (wait : List PendingConsumer)
    → position id (wait ++ (c ∷ [])) ≡ some i
    → ((i ≡ length wait) × (c.consumer_id ≡ id)) ⊎ ((i < length wait) × (position id wait ≡ some i))
position-last id i c [] h = elim (position-cons id i c [] h) [
  | inl found ↦ inl found
  | inr (k, later, other, rest) ↦ absurd (position-nil id k rest)
]
position-last id i c (p ∷ wait) h = elim (position-cons id i p (wait ++ (c ∷ [])) h) [
  | inl (start, same) ↦ inr (omega (arith, start), position-At id i p wait (inl (start, same)))
  | inr (k, later, other, rest) ↦ elim (position-last id k c wait rest) [
    | inl (back, same) ↦ inl (omega (arith, later, back), same)
    | inr (inside, rest') ↦
        inr (omega (arith, later, inside), position-At id i p wait (inr (k, later, other, rest')))
  ]
]

queued-swap_last :
    (j id i : ℕ) (c : PendingConsumer) (front : List PendingConsumer)
    → position id (front ++ (c ∷ [])) ≡ some i
    → queued j (if i == length front then front else replace_at i c front) + hit id j
      ≡ queued j (front ++ (c ∷ []))
unfolding queued
queued-swap_last j id i c front h =
    rw (queued-append j front (c ∷ [])) (elim (position-last id i c front h) [
      | inl (back, same) ↦
          rw ((==_iff i (length front)).1 back, ap (λ x. hit x j) same) (omega arith)
      | inr (inside, found) ↦
          let before_last : (i == length front) ≡ false = ground arith in
          rw before_last (omega (arith, queued-replace_at j id i c front found))
    ])

-- `swap_remove` at the position of a consumer takes it out once.
pub queued-swap_remove :
    (j id i : ℕ) (wait : List PendingConsumer)
    → position id wait ≡ some i
    → queued j (swap_remove i wait) + hit id j ≡ queued j wait
unfolding swap_remove
queued-swap_remove j id i wait h = go (reverse wait) (reverse-reverse wait)
  where
    go :
        (back : List PendingConsumer)
        → reverse back ≡ wait
        → queued j (swap_last i back) + hit id j ≡ queued j wait
    go [] e = absurd (position-nil id i (ap (position id) e ∙ h))
    go (c ∷ back) e =
        let turned = sym (reverse-cons c back) ∙ e in
        rw (sym (length-reverse back)) (
          queued-swap_last j id i c (reverse back) (ap (position id) turned ∙ h)
          ∙ ap (queued j) turned)
