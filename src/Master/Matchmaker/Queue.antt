-- ===== src/Master/Matchmaker/Queue.antt =====
-- The queue of the consumers that wait: no operation of the matchmaker queues one twice.
use cupidmq.Common.{
  ◌==◌, ==_iff, Bool-cases, length, All, All-append, ℕ, zero, suc, ◌+◌, ◌≤◌, ◌≡◌, refl, sym, ap,
  subst, ◌∙◌, inl, inr, true, Option, none, some, List, [], ◌∷◌, ◌++◌, reverse, append-nil,
  reverse-reverse, reverse-cons, arith,
}
use cupidmq.Master.Matchmaker.{PendingConsumer, MatchmakerInner, retain_others, push_waiting}
use cupidmq.Master.Matchmaker.Events.{position, replace_at, swap_last, swap_remove, cancel_at}
use cupidmq.Master.Matchmaker.Rounds.{Encodable, All-middle}
use cupidmq.Master.Matchmaker.Queued.{
  hit, queued, queued-append, queued-retain_others, queued-swap_remove,
}

All-replace_at {κ} :
    (P : PendingConsumer → Type κ) (i : ℕ) (c : PendingConsumer) (wait : List PendingConsumer)
    → P c
    → All P wait
    → All P (replace_at i c wait)
All-replace_at P i c [] h all = all
All-replace_at P zero c (p ∷ wait) h (first, all) = (h, all)
All-replace_at P (suc i) c (p ∷ wait) h (first, all) = (first, All-replace_at P i c wait h all)

All-swap_remove {κ} :
    (P : PendingConsumer → Type κ) (i : ℕ) (wait : List PendingConsumer)
    → All P wait
    → All P (swap_remove i wait)
unfolding swap_remove
All-swap_remove P i wait all = go (reverse wait) (reverse-reverse wait)
  where
    go : (back : List PendingConsumer) → reverse back ≡ wait → All P (swap_last i back)
    go [] e = tt
    go (c ∷ back) e =
        let turned = sym (sym (reverse-cons c back) ∙ e) in
        let (last, front) = All-middle P (reverse back) [] c (subst (All P) turned all) in
        let kept = subst (All P) (append-nil (reverse back)) front in
        elim (Bool-cases (i == length back)) [
          | inl at_end ↦ rw at_end kept
          | inr inside ↦ rw inside (All-replace_at P i c (reverse back) last kept)
        ]

All-retain_others {κ} :
    (P : PendingConsumer → Type κ) (id : ℕ) (wait : List PendingConsumer)
    → All P wait
    → All P (retain_others id wait)
unfolding retain_others
All-retain_others P id [] all = tt
All-retain_others P id (p ∷ wait) (first, all) = elim (Bool-cases (p.consumer_id == id)) [
  | inl same ↦ rw same (All-retain_others P id wait all)
  | inr other ↦ rw other (first, All-retain_others P id wait all)
]

-- An ASGN can be encoded for each consumer that waits, and none waits twice.
pub record IsQueue (wait : List PendingConsumer) : Type 0 where
  pub encodable : All Encodable wait
  pub once : (id : ℕ) → queued id wait ≤ 1

pub empty-IsQueue : IsQueue []
unfolding queued
empty-IsQueue = record { encodable = tt; once = λ id. omega arith }

module _ (xs ys wait : List PendingConsumer) (c : PendingConsumer) (item : xs ++ (c ∷ ys) ≡ wait)
    (v : IsQueue wait) where
  split : Encodable c × All Encodable (xs ++ ys)
  split = All-middle Encodable xs ys c (subst (All Encodable) (sym item) v.encodable)

  one_less : (j : ℕ) → hit c.consumer_id j + queued j (xs ++ ys) ≡ queued j wait
  unfolding queued
  one_less j = omega (arith, queued-append j xs ys, queued-append j xs (c ∷ ys), ap (queued j) item)

  -- A consumer that is taken out of the queue.
  pub take_out-IsQueue : IsQueue (xs ++ ys)
  take_out-IsQueue = record { encodable = split.1; once = λ j. omega (arith, one_less j, v.once j) }

  -- A consumer that is put back behind the others.
  pub give_back-IsQueue : IsQueue ((xs ++ ys) ++ (c ∷ []))
  unfolding queued
  give_back-IsQueue = record {
    encodable = All-append Encodable (xs ++ ys) (c ∷ []) split.1 (split.0, tt);
    once = λ j. omega (arith, one_less j, v.once j, queued-append j (xs ++ ys) (c ∷ []));
  }

pub push_waiting-IsQueue :
    (c : PendingConsumer) (wait : List PendingConsumer)
    → Encodable c
    → IsQueue wait
    → IsQueue (push_waiting c wait)
unfolding push_waiting queued
push_waiting-IsQueue c wait made v = record {
  encodable =
      All-append Encodable (retain_others c.consumer_id wait) (c ∷ [])
        (All-retain_others Encodable c.consumer_id wait v.encodable) (made, tt);
  once = λ j.
      rw
        (
          queued-append j (retain_others c.consumer_id wait) (c ∷ []),
          queued-retain_others j c.consumer_id wait,
        )
        (ground (arith, v.once j));
}

pub cancel_at-IsQueue :
    (id : ℕ) (inner : MatchmakerInner)
    → IsQueue inner.waiting
    → IsQueue (cancel_at (position id inner.waiting) inner).waiting
cancel_at-IsQueue id inner v = go (position id inner.waiting) refl
  where
    go : (o : Option ℕ) → position id inner.waiting ≡ o → IsQueue (cancel_at o inner).waiting
    go none e = v
    go (some i) e = record {
      encodable = All-swap_remove Encodable i inner.waiting v.encodable;
      once = λ j. omega (arith, queued-swap_remove j id i inner.waiting e, v.once j);
    }

queued-position :
    (id : ℕ) (wait : List PendingConsumer) → position id wait ≡ none → queued id wait ≡ 0
unfolding queued position
queued-position id [] h = refl
queued-position id (p ∷ wait) h = ground (arith, queued-position id wait)

-- A consumer that is cancelled waits no more.
pub cancel_at_lem :
    (id : ℕ) (inner : MatchmakerInner)
    → IsQueue inner.waiting
    → queued id (cancel_at (position id inner.waiting) inner).waiting ≡ 0
cancel_at_lem id inner v = go (position id inner.waiting) refl
  where
    go : (o : Option ℕ) → position id inner.waiting ≡ o → queued id (cancel_at o inner).waiting ≡ 0
    go none e = queued-position id inner.waiting e
    go (some i) e =
        let itself : (id == id) ≡ true = (==_iff id id).1 refl in
        let taken = queued-swap_remove id id i inner.waiting e in ground (arith, v.once id)
