-- ===== src/Master/Producers/Stale.antt =====
-- The ids that `rank_ready_candidates` reports as stale: all candidates without a backlog.
use cupidmq.Common.{
  ==_iff, Bool-cases, All, ℕ, ◌≡◌, refl, ap, subst, ◌∙◌, inl, inr, true, ◌||◌, Option, none, some,
  List, [], ◌∷◌, ◌++◌, arith,
}
use cupidmq.Master.Store.{member}
use cupidmq.Master.Producers.{
  ProducerRegistry, ProducerEntry, get, entry_has_backlog, entry_backlog_weight,
}
use cupidmq.Master.Producers.Ranking.{
  Scan, weigh, consider, scan, scan_start, rank_ready_candidates,
}
use cupidmq.Master.Producers.Best.{weight_of, bare, Leads, consider-Leads}
use cupidmq.Master.Producers.Choice.{Picked, rank_ready_candidates_lem, candidates_members}

pub member-append : (x : ℕ) (xs ys : List ℕ) → member x (xs ++ ys) ≡ (member x xs || member x ys)
unfolding member
member-append x [] ys = refl
member-append x (y ∷ xs) ys = rw (member-append x xs ys) (ground arith)

member_last : (x : ℕ) (xs : List ℕ) → member x (xs ++ (x ∷ [])) ≡ true
unfolding member
member_last x xs = member-append x xs (x ∷ []) ∙ rw ((==_iff x x).1 refl) (ground arith)

member_left : (x y : ℕ) (xs : List ℕ) → member x xs ≡ true → member x (xs ++ (y ∷ [])) ≡ true
member_left x y xs h = member-append x xs (y ∷ []) ∙ rw h refl

weigh_stale : (id : ℕ) (w : ℕ × ℕ) (s : Scan) → (weigh id w s).stale ≡ s.stale
weigh_stale id w s = ground arith

consider_keeps :
    (c id : ℕ) (o : Option ProducerEntry) (s : Scan)
    → member c s.stale ≡ true
    → member c (consider id o s).stale ≡ true
consider_keeps c id none s h = member_left c id s.stale h
consider_keeps c id (some e) s h = elim (Bool-cases (entry_has_backlog e)) [
  | inl held ↦ rw held (ap (member c) (weigh_stale id (entry_backlog_weight e) s) ∙ h)
  | inr bare ↦ rw bare (member_left c id s.stale h)
]

consider_drops :
    (id : ℕ) (o : Option ProducerEntry) (s : Scan)
    → weight_of o ≡ none
    → member id (consider id o s).stale ≡ true
consider_drops id none s h = member_last id s.stale
consider_drops id (some e) s h = rw (bare e h) (member_last id s.stale)

scan_keeps :
    (c : ℕ) (ids : List ℕ) (s : Scan) → member c s.stale ≡ true → member c (scan ids s).stale ≡ true
unfolding scan
scan_keeps c [] s h = h
scan_keeps c (id ∷ ids) s h =
    let o = get id s.registry.inner in
    scan_keeps c ids (consider id o s) (consider_keeps c id o s h)

scan_stale :
    (r : ProducerRegistry) (P : ℕ → Type 0) (ids : List ℕ) (s : Scan)
    → Leads r P s
    → All P ids
    → All (λ c. weight_of (get c r.inner) ≡ none → member c (scan ids s).stale ≡ true) ids
unfolding scan
scan_stale r P [] s v ps = tt
scan_stale r P (id ∷ ids) s v (p, ps) =
    let o = get id s.registry.inner in
    let next = consider id o s in
    (
      λ h. scan_keeps id ids next (consider_drops id o s (v.same id ∙ h)),
      scan_stale r P ids next ((consider-Leads r P s id o v p refl).0.0) ps,
    )

-- If none is chosen, every candidate is stale.
pub rank_ready_candidates_stale :
    (candidates : List ℕ) (rr : ℕ) (r : ProducerRegistry)
    → (rank_ready_candidates candidates rr r).best ≡ none
    → All (λ c. member c (rank_ready_candidates candidates rr r).stale ≡ true) candidates
unfolding rank_ready_candidates
rank_ready_candidates_stale candidates rr r h = both candidates drops weightless
  where
    P : ℕ → Type 0
    P c = member c candidates ≡ true

    drops :
        All
          (λ c.
            weight_of (get c r.inner) ≡ none
            → member c (scan candidates (scan_start r)).stale ≡ true)
          candidates
    drops =
        scan_stale r P candidates (scan_start r)
          (record { same = λ j. refl; tier = tt; empty = λ e. refl })
          (candidates_members candidates)

    weightless : All (λ c. weight_of (get c r.inner) ≡ none) candidates
    weightless = subst (Picked r candidates) h (rank_ready_candidates_lem candidates rr r)

    both :
        (ids : List ℕ)
        → All
            (λ c.
              weight_of (get c r.inner) ≡ none
              → member c (scan candidates (scan_start r)).stale ≡ true)
            ids
        → All (λ c. weight_of (get c r.inner) ≡ none) ids
        → All (λ c. member c (scan candidates (scan_start r)).stale ≡ true) ids
    both [] f w = tt
    both (id ∷ ids) (f, fs) (w, ws) = (f w, both ids fs ws)
