-- ===== src/Master/Matchmaker/Race.antt =====
-- Two tasks in `try_match` at the same time. A round gives the locks up between its ranking and the
-- block that claims a pair, and that block does not ask whether the producer is still in the pool.
use cupidmq.Common.{
  length, take, drop, length-append, ℕ, suc, ◌≤◌, ◌+◌, ◌≡◌, ◌≢◌, refl, sym, ap, subst, ◌∙◌, ◌⊎◌,
  inl, inr, false, Option, none, some, List, [], ◌∷◌, ◌++◌, arith,
}
use cupidmq.Master.Producers.Ranking.{Ranked}
use cupidmq.Master.Matchmaker.{PendingConsumer, MatchmakerInner, nobody, claim}
use cupidmq.Master.Matchmaker.Queued.{hit, queued, queued-append}
use cupidmq.Master.Matchmaker.Rounds.{prune, Claims, claim_lem}

-- Both tasks ranked before either claimed: the second claims on what the first left.
abbrev pub claim_twice :
    Ranked
    → Ranked
    → MatchmakerInner
    → Option (ℕ × PendingConsumer) × Option (ℕ × PendingConsumer) × MatchmakerInner
claim_twice first second inner =
    let (pair, inner') = claim first inner in
    let (pair', inner'') = claim second inner' in (pair, pair', inner'')

one_claim :
    (ranked : Ranked) (inner : MatchmakerInner) (p : ℕ)
    → ranked.best ≡ some p
    → nobody inner.waiting ≡ false
    → (i : ℕ) × (c : PendingConsumer) × Claims ranked inner p i c
one_claim ranked inner p best h = go (claim_lem ranked inner h)
  where
    same : (q : ℕ) → ranked.best ≡ some q → q ≡ p
    same q e = let two : some q ≡ some p = sym e ∙ best in cc

    go :
        ((ranked.best ≡ none) × (claim ranked inner ≡ (none, prune ranked inner)))
          ⊎ ((q : ℕ) × (i : ℕ) × (c : PendingConsumer) × Claims ranked inner q i c)
        → (i : ℕ) × (c : PendingConsumer) × Claims ranked inner p i c
    go (inl (bare, result)) = absurd (clash (sym bare ∙ best))
      where
        clash : ¬ (◌≡◌ {A = Option ℕ} none (some p))
        clash k = cc
    go (inr (q, i, c, one)) = (i, c, subst (λ x. Claims ranked inner x i c) (same q one.best) one)

still_waiting :
    (i : ℕ) (c : PendingConsumer) (wait : List PendingConsumer)
    → take i wait ++ (c ∷ drop (suc i) wait) ≡ wait
    → 2 ≤ length wait
    → nobody (take i wait ++ drop (suc i) wait) ≡ false
still_waiting i c wait e h = go (take i wait ++ drop (suc i) wait) shorter
  where
    shorter : 1 ≤ length (take i wait ++ drop (suc i) wait)
    shorter = omega (
      arith,
      ap length e,
      length-append (take i wait) (c ∷ drop (suc i) wait),
      length-append (take i wait) (drop (suc i) wait),
      h,
    )

    go : (rest : List PendingConsumer) → 1 ≤ length rest → nobody rest ≡ false
    go [] k = absurd (omega arith)
    go (d ∷ rest) k = refl

-- How often one consumer of a queue waits in it, and in the rest of it.
queued-split :
    (j i : ℕ) (c : PendingConsumer) (wait : List PendingConsumer)
    → take i wait ++ (c ∷ drop (suc i) wait) ≡ wait
    → queued j wait ≡ hit c.consumer_id j + queued j (take i wait ++ drop (suc i) wait)
unfolding queued
queued-split j i c wait e = omega (
  arith,
  ap (queued j) e,
  queued-append j (take i wait) (c ∷ drop (suc i) wait),
  queued-append j (take i wait) (drop (suc i) wait),
)

-- Two tasks that ranked the same producer first both claim it, for consumers of different ids, if two
-- consumers or more wait and none of them waits twice.
pub claimed_twice :
    (first second : Ranked) (inner : MatchmakerInner) (p : ℕ)
    → first.best ≡ some p
    → second.best ≡ some p
    → 2 ≤ length inner.waiting
    → ((j : ℕ) → queued j inner.waiting ≤ 1)
    → (c : PendingConsumer) × (d : PendingConsumer) × ((claim_twice first second inner).0
        ≡ some (p, c))
      × ((claim_twice first second inner).1 ≡ some (p, d))
      × (c.consumer_id ≢ d.consumer_id)
claimed_twice first second inner p e f h once =
    let (i, c, one) = one_claim first inner p e (some_wait inner.waiting (omega (arith, h))) in
    let (j, d, two) =
      one_claim second (claim first inner).1 p f (
        ap (λ out. nobody out.1.waiting) one.result ∙ still_waiting i c inner.waiting one.item h) in
    (
      c,
      d,
      ap (λ out. out.0) one.result,
      ap (λ out. out.0) two.result,
      λ same. omega (
        arith,
        ap (λ id. hit id d.consumer_id) same,
        hit_self d.consumer_id,
        once d.consumer_id,
        queued-split d.consumer_id i c inner.waiting one.item,
        queued-split d.consumer_id j d (claim first inner).1.waiting two.item,
        ap (λ out. queued d.consumer_id out.1.waiting) one.result,
      ),
    )
  where
    hit_self : (id : ℕ) → hit id id ≡ 1
    hit_self id = ground arith

    some_wait : (w : List PendingConsumer) → 1 ≤ length w → nobody w ≡ false
    some_wait [] k = absurd (omega arith)
    some_wait (x ∷ w) k = refl
