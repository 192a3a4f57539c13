-- ===== src/Master/Matchmaker/Asked.antt =====
-- Every consumer that asks for a batch waits in the queue, and `try_match` keeps it so: a consumer that
-- it takes out gets an ASGN, or goes back.
use cupidmq.Common.{
  ◌==◌, if◌then◌else◌, Bool-cases, length, take, drop, All, All-append, Bytes, ℕ, zero, suc, ◌+◌,
  ◌≤◌, ◌≡◌, refl, sym, ap, subst, ◌∙◌, ◌⊎◌, inl, inr, Bool, true, false, ◌||◌, Option, none, some,
  List, [], ◌∷◌, ◌++◌, arith,
}
use cupidmq.Protocol.Wire.{Result, ok, err}
use cupidmq.Protocol.Control.{encode_assign}
use cupidmq.Master.Producers.Ranking.{Ranked, rank_ready_candidates}
use cupidmq.Master.Consumers.Asking.{asks, assigned_asks}
use cupidmq.Master.Matchmaker.{
  PendingConsumer, Relay, Matched, nobody, empty, claim, assign_of, send_assign, retain_others,
  push_waiting,
}
use cupidmq.Master.Matchmaker.Matching.{
  choose_pair, send_pair, dispatch, round, go_on, match_loop, try_match,
}
use cupidmq.Master.Matchmaker.Rounds.{Encodable, Claims, claim_lem, prune, All-middle}
use cupidmq.Master.Matchmaker.Queued.{hit, queued, queued-append, queued-retain_others}

-- How often the others wait without one of the queue.
queued_middle :
    (j : ℕ) (xs ys wait : List PendingConsumer) (c : PendingConsumer)
    → xs ++ (c ∷ ys) ≡ wait
    → queued j (xs ++ ys) + hit c.consumer_id j ≡ queued j wait
unfolding queued
queued_middle j xs ys wait c item =
    omega (arith, queued-append j xs ys, queued-append j xs (c ∷ ys), ap (queued j) item)

-- A consumer that is put in the queue waits, whatever it was before.
pub queued-push_waiting :
    (j : ℕ) (c : PendingConsumer) (wait : List PendingConsumer)
    → queued j (push_waiting c wait) ≡ (if c.consumer_id == j then 1 else queued j wait)
unfolding push_waiting queued
queued-push_waiting j c wait = ground (
  arith,
  queued-append j (retain_others c.consumer_id wait) (c ∷ []),
  queued-retain_others j c.consumer_id wait,
)

module _ {F : Type 0} where
  -- Every consumer that asks waits, but for those that are left out.
  pub record IsAsked (left_out : ℕ → Bool) (s : Relay F) : Type 0 where
    pub encodable : All Encodable s.matcher.waiting
    pub waits :
        (id : ℕ)
        → left_out id ≡ false
        → asks s.consumers id ≡ true
        → 1 ≤ queued id s.matcher.waiting

  module _ (left_out : ℕ → Bool) (send : ℕ → Bytes → Bool) (now : ℕ) where
    abbrev ranked : Relay F → Ranked
    ranked s = rank_ready_candidates s.matcher.ready s.matcher.producer_rr s.producers

    pair-IsAsked :
        (s t : Relay F) (p i : ℕ) (c : PendingConsumer) (r : Result Bytes)
        → encode_assign (assign_of c) ≡ r
        → IsAsked left_out s
        → t.consumers ≡ s.consumers
        → t.matcher.waiting ≡ take i s.matcher.waiting ++ drop (suc i) s.matcher.waiting
        → take i s.matcher.waiting ++ (c ∷ drop (suc i) s.matcher.waiting) ≡ s.matcher.waiting
        → IsAsked left_out (send_pair send now p c r t).1
    pair-IsAsked s t p i c r made v same out item = sent r made (
        All-middle Encodable (take i s.matcher.waiting) (drop (suc i) s.matcher.waiting) c
          (subst (All Encodable) (sym item) v.encodable))
      where
        counted :
            (j : ℕ) → queued j t.matcher.waiting + hit c.consumer_id j ≡ queued j s.matcher.waiting
        counted j =
            ap (λ w. queued j w + hit c.consumer_id j) out
            ∙ queued_middle j (take i s.matcher.waiting) (drop (suc i) s.matcher.waiting)
                s.matcher.waiting c item

        sent :
            (q : Result Bytes)
            → encode_assign (assign_of c) ≡ q
            → Encodable c
              × All Encodable (take i s.matcher.waiting ++ drop (suc i) s.matcher.waiting)
            → IsAsked left_out (send_pair send now p c q t).1
        sent (err e) k ((frame, fits), rest) = absurd cc
        sent (ok frame) k (fits, rest) = elim (Bool-cases (send_assign send p frame t.producers)) [
          | inl went ↦ rw went (record {
            encodable = subst (All Encodable) (sym out) rest;
            waits = λ j kept asked.
                let (other, asked') = assigned_asks c.consumer_id p j t.consumers asked in
                let before : 1 ≤ queued j s.matcher.waiting =
                  v.waits j kept (ap (λ r. asks r j) (sym same) ∙ asked') in
                ground (arith, counted j);
          })
          | inr failed ↦ rw failed (record {
            encodable =
                All-append Encodable t.matcher.waiting (c ∷ [])
                  (subst (All Encodable) (sym out) rest) (fits, tt);
            waits = λ j kept asked.
                let before : 1 ≤ queued j s.matcher.waiting =
                  v.waits j kept (ap (λ r. asks r j) (sym same) ∙ asked) in
                unfold queued in
                omega (arith, counted j, queued-append j t.matcher.waiting (c ∷ []));
          })
        ]

    round-IsAsked : (s : Relay F) → IsAsked left_out s → IsAsked left_out (round send now s).1
    unfolding round choose_pair
    round-IsAsked s v = elim (Bool-cases (nobody s.matcher.waiting || empty s.matcher.ready)) [
      | inl over ↦ rw over v
      | inr goes_on ↦ rw goes_on (dispatched (claim_lem (ranked s) s.matcher (waits goes_on)))
    ]
      where
        waits :
            (nobody s.matcher.waiting || empty s.matcher.ready) ≡ false
            → nobody s.matcher.waiting ≡ false
        waits h = ground arith

        dispatched :
            (((ranked s).best ≡ none)
                × (claim (ranked s) s.matcher ≡ (none, prune (ranked s) s.matcher)))
              ⊎ ((p : ℕ) × (i : ℕ) × (c : PendingConsumer) × Claims (ranked s) s.matcher p i c)
            → IsAsked left_out (dispatch send now (choose_pair s)).1
        dispatched (inl (bare, result)) =
            rw result (record { encodable = v.encodable; waits = v.waits })
        dispatched (inr (p, i, c, one)) =
            rw (one.result)
              (pair-IsAsked s _ p i c (encode_assign (assign_of c)) refl v refl refl one.item)

    go_on-IsAsked :
        (rest : Relay F → Matched × Relay F) (out : Option Matched × Relay F)
        → ((s : Relay F) → IsAsked left_out s → IsAsked left_out (rest s).1)
        → IsAsked left_out out.1
        → IsAsked left_out (go_on rest out).1
    go_on-IsAsked rest (none, s) next v = next s v
    go_on-IsAsked rest (some result, s) next v = v

    match_loop-IsAsked :
        (fuel : ℕ) (s : Relay F)
        → IsAsked left_out s
        → IsAsked left_out (match_loop fuel send now s).1
    unfolding match_loop
    match_loop-IsAsked zero s v = v
    match_loop-IsAsked (suc fuel) s v =
        go_on-IsAsked (match_loop fuel send now) (round send now s) (match_loop-IsAsked fuel)
          (round-IsAsked s v)

    pub try_match-IsAsked :
        (s : Relay F) → IsAsked left_out s → IsAsked left_out (try_match send now s).1
    unfolding try_match
    try_match-IsAsked s v = match_loop-IsAsked (suc (length s.matcher.ready)) s v
