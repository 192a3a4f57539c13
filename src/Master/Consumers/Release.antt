-- ===== src/Master/Consumers/Release.antt =====
-- What an ASGN to a new consumer does to the consumers that still await the producer.
use cupidmq.Common.{
  ◌==◌, if◌then◌else◌, ==_iff, Bool-cases, ℕ, ◌≡◌, refl, sym, ap, ◌∙◌, ◌≢◌, inl, inr, Bool, true,
  false, not, ◌&&◌, Option, none, some, List, [], ◌∷◌, arith,
}
use cupidmq.Master.Store.{Store, get, alter, map_option, get-alter, member, without, member-without}
use cupidmq.Master.Consumers.{
  idle, is_awaiting, ConsumerEntry, ConsumerRegistry, null, awaiting_of, keep_set, without_all,
  release_entry, release_each, release_stale_assignments,
}
use cupidmq.Master.Consumers.Index.{tracked, tracked-keep_set, member-null}
use cupidmq.Master.Consumers.Assignments.{IsIndexed, IsAwaiting}

pub member-without_all :
    (x : ℕ) (stale set : List ℕ)
    → member x (without_all stale set) ≡ (not (member x stale) && member x set)
unfolding without_all member
member-without_all x [] set = refl
member-without_all x (y ∷ stale) set =
    member-without_all x stale (without y set) ∙ rw (member-without x y set) (ground arith)

module _ {F : Type 0} where
  release_twice :
      (o : Option (ConsumerEntry F))
      → map_option release_entry (map_option release_entry o) ≡ map_option release_entry o
  release_twice none = refl
  release_twice (some e) = elim (Bool-cases (is_awaiting e.state)) [
    | inl waits ↦ rw waits refl
    | inr moves ↦ rw (moves, moves) refl
  ]

  get-release_each :
      (c : ℕ) (stale : List ℕ) (m : Store (ConsumerEntry F))
      → get c (release_each stale m)
        ≡ (if member c stale then map_option release_entry (get c m) else get c m)
  unfolding release_each member
  get-release_each c [] m = refl
  get-release_each c (cid ∷ stale) m =
      get-release_each c stale (alter release_entry cid m)
      ∙ rw (get-alter release_entry cid c m) (elim (Bool-cases (c == cid)) [
        | inl same ↦ rw same (elim (Bool-cases (member c stale)) [
          | inl also ↦ rw also (release_twice (get c m))
          | inr once ↦ rw once refl
        ])
        | inr other ↦ rw other refl
      ])

  -- An entry that was released has no assignment, if it awaited its batch when it had one.
  released :
      (awaiting : Store (List ℕ)) (c : ℕ) (o : Option (ConsumerEntry F)) (e : ConsumerEntry F)
      → ((e0 : ConsumerEntry F) → o ≡ some e0 → IsAwaiting awaiting c e0)
      → map_option release_entry o ≡ some e
      → (p : ℕ) → ¬ (e.assigned_producer_id ≡ some p)
  released awaiting c none e before h p k = cc
  released awaiting c (some e0) e before h p k = elim (Bool-cases (is_awaiting e0.state)) [
    | inl waits ↦ freed p (ap (λ x. x.assigned_producer_id) (kept true waits) ∙ k)
    | inr moves ↦ absurd (
        clash ((before e0 refl p (ap (λ x. x.assigned_producer_id) (kept false moves) ∙ k)).0)
          moves)
  ]
    where
      unsome : {x y : ConsumerEntry F} → some x ≡ some y → x ≡ y
      unsome q = cc

      kept :
          (b : Bool)
          → is_awaiting e0.state ≡ b
          → (if b then record e0 { assigned_producer_id = none; state = idle } else e0) ≡ e
      kept b q =
          ap (λ x. if x then record e0 { assigned_producer_id = none; state = idle } else e0)
            (sym q)
          ∙ unsome h

      freed : (q : ℕ) → ¬ (◌≡◌ {A = Option ℕ} none (some q))
      freed q r = cc

      clash : is_awaiting e0.state ≡ true → ¬ (is_awaiting e0.state ≡ false)
      clash a b = cc

  pub release_stale_assignments-IsIndexed :
      (producer_id keep : ℕ) (r : ConsumerRegistry F)
      → IsIndexed r
      → IsIndexed (release_stale_assignments producer_id keep r)
  unfolding release_stale_assignments
  release_stale_assignments-IsIndexed producer_id keep r v = elim (Bool-cases (null stale)) [
    | inl nobody ↦ rw nobody v
    | inr someone ↦ rw someone (λ c e found. go c e found (member c stale) refl)
  ]
    where
      set : List ℕ
      set = awaiting_of (get producer_id r.awaiting_by_producer)

      stale : List ℕ
      stale = without keep set

      go :
          (c : ℕ) (e : ConsumerEntry F)
          → get c (release_each stale r.inner) ≡ some e
          → (b : Bool) → member c stale ≡ b
          → IsAwaiting (keep_set producer_id (without_all stale set) r.awaiting_by_producer) c e
      go c e found true hit p k = absurd (
          released r.awaiting_by_producer c (get c r.inner) e (v c)
            (ap (λ b. if b then map_option release_entry (get c r.inner) else get c r.inner)
                (sym hit)
              ∙ sym (get-release_each c stale r.inner)
              ∙ found)
            p k)
      go c e found false miss p k =
          let before =
            v c e
              (ap (λ b. if b then map_option release_entry (get c r.inner) else get c r.inner)
                  (sym miss)
                ∙ sym (get-release_each c stale r.inner)
                ∙ found)
              p k in
          (
            before.0,
            tracked-keep_set producer_id p c (without_all stale set) r.awaiting_by_producer
                ∙ rw (member-without_all c stale set, miss)
                    (elim (Bool-cases (p == producer_id)) [
                      | inl same ↦ rw same (
                          ap (λ q. tracked q c r.awaiting_by_producer)
                            (sym ((==_iff p producer_id).0 same))
                          ∙ before.1)
                      | inr other ↦ rw other before.1
                    ]),
          )

  -- After the release for a new ASGN, no consumer but the one that the ASGN is for is assigned to its
  -- producer, if the index of the registry knows the assignments.
  pub release_stale_assignments_lem :
      (producer_id keep : ℕ) (r : ConsumerRegistry F)
      → IsIndexed r
      → (c : ℕ) (e : ConsumerEntry F)
      → get c (release_stale_assignments producer_id keep r).inner ≡ some e
      → c ≢ keep
      → e.assigned_producer_id ≢ some producer_id
  release_stale_assignments_lem producer_id keep r v c e found other k = other (
      let after =
        release_stale_assignments-IsIndexed producer_id keep r v c e found producer_id k in
      (==_iff c keep).0 (only c after.1))
    where
      set : List ℕ
      set = awaiting_of (get producer_id r.awaiting_by_producer)

      stale : List ℕ
      stale = without keep set

      left_in :
          (x : ℕ)
          → tracked producer_id x
              (release_stale_assignments producer_id keep r).awaiting_by_producer
            ≡ (not (member x stale) && member x set)
      left_in x =
          unfold release_stale_assignments in
          elim (Bool-cases (null stale)) [
            | inl nobody ↦ rw (nobody, member-null x stale nobody) refl
            | inr someone ↦ rw someone (
                tracked-keep_set producer_id producer_id x (without_all stale set)
                  r.awaiting_by_producer
                ∙ rw ((==_iff producer_id producer_id).1 refl) (member-without_all x stale set))
          ]

      decide : (a m : Bool) → (not (not a && m) && m) ≡ true → a ≡ true
      decide true m q = refl
      decide false true q = q
      decide false false q = q

      only :
          (x : ℕ)
          → tracked producer_id x
              (release_stale_assignments producer_id keep r).awaiting_by_producer
            ≡ true
          → (x == keep) ≡ true
      only x h =
          decide (x == keep) (member x set)
            (sym (left_in x ∙ ap (λ b. not b && member x set) (member-without x keep set)) ∙ h)
