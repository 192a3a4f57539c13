-- ===== src/Master/Matchmaker/Rounds.antt =====
-- One round of `try_match`, and the loop: it ends, and it leaves no consumer waiting beside a producer
-- of the pool.
use cupidmq.Common.{
  Bool-cases, length, take, drop, All, All-append, Bytes, ℕ, zero, suc, ◌+◌, ◌%◌, ◌≤◌, ◌<◌, ◌≡◌,
  refl, sym, subst, ◌⊎◌, inl, inr, Bool, true, false, ◌||◌, Option, none, some, List, [], ◌∷◌, ◌++◌,
  arith,
}
use cupidmq.Protocol.Wire.{Result, ok, err}
use cupidmq.Protocol.Control.{encode_assign}
use cupidmq.Master.Store.{member, without}
use cupidmq.Master.Producers.Ranking.{Ranked, rank_ready_candidates}
use cupidmq.Master.Producers.Choice.{Picked, rank_ready_candidates_lem}
use cupidmq.Master.Producers.Stale.{rank_ready_candidates_stale}
use cupidmq.Master.Consumers.{without_all}
use cupidmq.Master.Matchmaker.{
  PendingConsumer, MatchmakerInner, Relay, pick_of, leave_pool, Matched, done, failed, out_of_fuel,
  nobody, empty, claim, assign_of, send_assign,
}
use cupidmq.Master.Matchmaker.Matching.{
  go_on, choose_pair, send_pair, dispatch, round, match_loop, try_match,
}
use cupidmq.Master.Matchmaker.Pool.{
  pool_shrinks, length-without, without_all_covers, take_next_waiting_inner_lem,
}

abbrev pub prune : Ranked → MatchmakerInner → MatchmakerInner
prune ranked inner = record inner {
  producer_rr = ranked.producer_rr;
  ready = without_all ranked.stale inner.ready;
}

-- The pair that the block under the lock claims: the best producer, out of the pool, and one consumer,
-- out of the queue, whose others keep their order.
pub record Claims (ranked : Ranked) (inner : MatchmakerInner) (p i : ℕ) (c : PendingConsumer)
    : Type 0 where
  pub best : ranked.best ≡ some p
  pub item : take i inner.waiting ++ (c ∷ drop (suc i) inner.waiting) ≡ inner.waiting
  pub result : claim ranked inner ≡ (
    some (p, c),
    record (leave_pool p (prune ranked inner)) {
      waiting = take i inner.waiting ++ drop (suc i) inner.waiting;
      consumer_rr = (i + 1) % length inner.waiting;
    },
  )

pub claim_lem :
    (ranked : Ranked) (inner : MatchmakerInner)
    → nobody inner.waiting ≡ false
    → ((ranked.best ≡ none) × (claim ranked inner ≡ (none, prune ranked inner)))
      ⊎ ((p : ℕ) × (i : ℕ) × (c : PendingConsumer) × Claims ranked inner p i c)
unfolding claim
claim_lem ranked inner h = go ranked.best refl
  where
    some_waiting : (w : List PendingConsumer) → nobody w ≡ false → 1 ≤ length w
    some_waiting [] k = cc
    some_waiting (c ∷ w) k = omega arith

    go :
        (o : Option ℕ)
        → ranked.best ≡ o
        → ((ranked.best ≡ none) × (claim ranked inner ≡ (none, prune ranked inner)))
          ⊎ ((p : ℕ) × (i : ℕ) × (c : PendingConsumer) × Claims ranked inner p i c)
    go none e = inl (e, rw e refl)
    go (some p) e =
        let (c, one) =
          take_next_waiting_inner_lem (leave_pool p (prune ranked inner))
            (some_waiting inner.waiting h) in
        inr (
          p,
          pick_of inner,
          c,
          record { best = e; item = one.item; result = rw (e, h, one.result) refl },
        )

-- Nobody waits, or no producer is in the pool.
abbrev pub Settled : MatchmakerInner → Type 0
Settled inner = (inner.waiting ≡ []) ⊎ (inner.ready ≡ [])

-- An ASGN can be encoded for the consumer.
abbrev pub Encodable : PendingConsumer → Type 0
Encodable c = (frame : Bytes) × (encode_assign (assign_of c) ≡ ok frame)

pub All-middle {ℓ κ} :
    {A : Type ℓ} (P : A → Type κ) (xs ys : List A) (x : A)
    → All P (xs ++ (x ∷ ys))
    → P x × All P (xs ++ ys)
All-middle P [] ys x h = h
All-middle P (y ∷ xs) ys x (p, h) = let rest = All-middle P xs ys x h in (rest.0, (p, rest.1))

stopped :
    (inner : MatchmakerInner) → (nobody inner.waiting || empty inner.ready) ≡ true → Settled inner
stopped inner h = go inner.waiting inner.ready h
  where
    go :
        (wait : List PendingConsumer) (pool : List ℕ)
        → (nobody wait || empty pool) ≡ true
        → (wait ≡ []) ⊎ (pool ≡ [])
    go [] pool k = inl refl
    go (c ∷ wait) [] k = inr refl
    go (c ∷ wait) (id ∷ pool) k = cc

module _ {F : Type 0} where
  -- What a round that starts in `s` may come to.
  abbrev pub After : Relay F → Option Matched × Relay F → Type 0
  After s (none, s') =
      (length s'.matcher.ready < length s.matcher.ready)
      × (All Encodable s.matcher.waiting → All Encodable s'.matcher.waiting)
  After s (some done, s') = Settled s'.matcher
  After s (some (failed e), s') = ¬ All Encodable s.matcher.waiting
  After s (some out_of_fuel, s') = ⊥

  module _ (send : ℕ → Bytes → Bool) (now : ℕ) (s : Relay F) where
    abbrev ranked : Ranked
    ranked = rank_ready_candidates s.matcher.ready s.matcher.producer_rr s.producers

    abbrev claimed_relay : ℕ → ℕ → Relay F
    claimed_relay p i = record s {
      producers = ranked.registry;
      matcher = record (leave_pool p (prune ranked s.matcher)) {
        waiting = take i s.matcher.waiting ++ drop (suc i) s.matcher.waiting;
        consumer_rr = (i + 1) % length s.matcher.waiting;
      };
    }

    split_item :
        (p i : ℕ) (c : PendingConsumer)
        → Claims ranked s.matcher p i c
        → All Encodable s.matcher.waiting
        → Encodable c × All Encodable (take i s.matcher.waiting ++ drop (suc i) s.matcher.waiting)
    split_item p i c one all =
        All-middle Encodable (take i s.matcher.waiting) (drop (suc i) s.matcher.waiting) c
          (subst (All Encodable) (sym one.item) all)

    pair_After :
        (p i : ℕ) (c : PendingConsumer)
        → Claims ranked s.matcher p i c
        → (r : Result Bytes) → encode_assign (assign_of c) ≡ r
        → After s (send_pair send now p c r (claimed_relay p i))
    pair_After p i c one (err e) h = λ all. clash (split_item p i c one all).0
      where
        clash : ¬ Encodable c
        clash (frame, k) = cc
    pair_After p i c one (ok frame) h =
        elim (Bool-cases (send_assign send p frame ranked.registry)) [
          | inl sent ↦ rw sent (fewer, λ all. (split_item p i c one all).1)
          | inr unsent ↦ rw unsent (
            omega (
              arith,
              length-without p (without p (without_all ranked.stale s.matcher.ready)),
              fewer,
            ),
            λ all.
                All-append Encodable (take i s.matcher.waiting ++ drop (suc i) s.matcher.waiting)
                  (c ∷ []) (split_item p i c one all).1 ((split_item p i c one all).0, tt),
          )
        ]
      where
        inside : member p s.matcher.ready ≡ true
        inside =
            (subst (Picked s.producers s.matcher.ready) one.best
              (rank_ready_candidates_lem s.matcher.ready s.matcher.producer_rr s.producers)).0

        fewer :
            length (without p (without_all ranked.stale s.matcher.ready)) < length s.matcher.ready
        fewer = pool_shrinks p ranked.stale s.matcher.ready inside

    pub round-After : After s (round send now s)
    unfolding round choose_pair
    round-After = elim (Bool-cases (nobody s.matcher.waiting || empty s.matcher.ready)) [
      | inl over ↦ rw over (stopped s.matcher over)
      | inr goes_on ↦ rw goes_on (dispatched (claim_lem ranked s.matcher (waits goes_on)))
    ]
      where
        waits :
            (nobody s.matcher.waiting || empty s.matcher.ready) ≡ false
            → nobody s.matcher.waiting ≡ false
        waits h = ground arith

        dispatched :
            ((ranked.best ≡ none) × (claim ranked s.matcher ≡ (none, prune ranked s.matcher)))
              ⊎ ((p : ℕ) × (i : ℕ) × (c : PendingConsumer) × Claims ranked s.matcher p i c)
            → After s (dispatch send now (choose_pair s))
        dispatched (inl (bare, result)) = rw result (
            inr (
              without_all_covers ranked.stale s.matcher.ready (
                rank_ready_candidates_stale s.matcher.ready s.matcher.producer_rr s.producers
                  bare)))
        dispatched (inr (p, i, c, one)) =
            rw (one.result) (pair_After p i c one (encode_assign (assign_of c)) refl)

  -- What the loop comes to.
  abbrev pub Ends : Relay F → Matched × Relay F → Type 0
  Ends s (done, s') = Settled s'.matcher
  Ends s (failed e, s') = ¬ All Encodable s.matcher.waiting
  Ends s (out_of_fuel, s') = ⊥

  later_Ends :
      (s s' : Relay F) (out : Matched × Relay F)
      → (All Encodable s.matcher.waiting → All Encodable s'.matcher.waiting)
      → Ends s' out
      → Ends s out
  later_Ends s s' (done, t) keep h = h
  later_Ends s s' (failed e, t) keep h = λ all. h (keep all)
  later_Ends s s' (out_of_fuel, t) keep h = h

  go_on-Ends :
      (fuel : ℕ) (s : Relay F) (rest : Relay F → Matched × Relay F) (out : Option Matched × Relay F)
      → length s.matcher.ready < suc fuel
      → ((s' : Relay F) → length s'.matcher.ready < fuel → Ends s' (rest s'))
      → After s out
      → Ends s (go_on rest out)
  go_on-Ends fuel s rest (none, s') h next (fewer, keep) =
      later_Ends s s' (rest s') keep (next s' (omega (arith, fewer, h)))
  go_on-Ends fuel s rest (some done, s') h next a = a
  go_on-Ends fuel s rest (some (failed e), s') h next a = a
  go_on-Ends fuel s rest (some out_of_fuel, s') h next a = a

  match_loop-Ends :
      (fuel : ℕ) (send : ℕ → Bytes → Bool) (now : ℕ) (s : Relay F)
      → length s.matcher.ready < fuel
      → Ends s (match_loop fuel send now s)
  unfolding match_loop
  match_loop-Ends zero send now s h = absurd (omega arith)
  match_loop-Ends (suc fuel) send now s h =
      go_on-Ends fuel s (match_loop fuel send now) (round send now s) h
        (λ s' k. match_loop-Ends fuel send now s' k) (round-After send now s)

  try_match-Ends : (send : ℕ → Bytes → Bool) (now : ℕ) (s : Relay F) → Ends s (try_match send now s)
  unfolding try_match
  try_match-Ends send now s =
      match_loop-Ends (suc (length s.matcher.ready)) send now s (omega arith)

  Ends-Settled :
      (s : Relay F) (out : Matched × Relay F)
      → All Encodable s.matcher.waiting
      → Ends s out
      → (out.0 ≡ done) × Settled out.1.matcher
  Ends-Settled s (done, t) all h = (refl, h)
  Ends-Settled s (failed e, t) all h = absurd (h all)
  Ends-Settled s (out_of_fuel, t) all h = absurd h

  -- `try_match` leaves no consumer waiting while a producer is in the pool, whatever the sockets do, if
  -- an ASGN can be encoded for each consumer that waits.
  pub try_match_settles :
      (send : ℕ → Bytes → Bool) (now : ℕ) (s : Relay F)
      → All Encodable s.matcher.waiting
      → ((try_match send now s).0 ≡ done) × Settled (try_match send now s).1.matcher
  try_match_settles send now s all =
      Ends-Settled s (try_match send now s) all (try_match-Ends send now s)
