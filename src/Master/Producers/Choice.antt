-- ===== src/Master/Producers/Choice.antt =====
-- The choice that follows the loop of `rank_ready_candidates`, and the theorem on the whole.
use cupidmq.Common.{
  leb, if◌then◌else◌, ==_iff, Bool-cases, length, get_elem?, All, All-map, ℕ, zero, suc, ◌%◌, ◌≤◌,
  ◌<◌, ◌≡◌, refl, ap, subst, ◌∙◌, ◌⊎◌, inl, inr, true, Option, none, some, List, [], ◌∷◌, arith,
}
use cupidmq.Master.Store.{member}
use cupidmq.Master.Producers.{
  ProducerEntry, ProducerRegistry, get, entry_has_backlog, entry_backlog_weight,
}
use cupidmq.Master.Producers.Ranking.{
  Scan, scan, insert_sorted, sort_unstable, choose, scan_start, rank_ready_candidates,
}
use cupidmq.Master.Producers.Best.{weight_of, AtMost, Dominated, best_of, Moves, scan-Leads}

insert_sorted-All :
    (P : ℕ → Type 0) (x : ℕ) (ys : List ℕ) → P x → All P ys → All P (insert_sorted x ys)
insert_sorted-All P x [] p h = (p, tt)
insert_sorted-All P x (y ∷ ys) p (q, h) = elim (Bool-cases (leb x y)) [
  | inl below ↦ rw below (p, (q, h))
  | inr above ↦ rw above (q, insert_sorted-All P x ys p h)
]

sort_unstable-All : (P : ℕ → Type 0) (xs : List ℕ) → All P xs → All P (sort_unstable xs)
unfolding sort_unstable
sort_unstable-All P [] h = tt
sort_unstable-All P (x ∷ xs) (p, h) =
    insert_sorted-All P x (sort_unstable xs) p (sort_unstable-All P xs h)

length-insert_sorted : (x : ℕ) (ys : List ℕ) → length (insert_sorted x ys) ≡ suc (length ys)
length-insert_sorted x [] = refl
length-insert_sorted x (y ∷ ys) = ground (arith, length-insert_sorted x ys)

length-sort_unstable : (xs : List ℕ) → length (sort_unstable xs) ≡ length xs
unfolding sort_unstable
length-sort_unstable [] = refl
length-sort_unstable (x ∷ xs) =
    length-insert_sorted x (sort_unstable xs) ∙ ap suc (length-sort_unstable xs)

get_elem-All :
    (P : ℕ → Type 0) (xs : List ℕ) (i : ℕ)
    → All P xs
    → i < length xs
    → (x : ℕ) × (get_elem? xs i ≡ some x) × P x
get_elem-All P [] i h k = absurd (omega arith)
get_elem-All P (x ∷ xs) zero (p, h) k = (x, refl, p)
get_elem-All P (x ∷ xs) (suc i) (p, h) k = get_elem-All P xs i h (omega arith)

-- Something is chosen from every tier with an id in it.
choose_lem :
    (P : ℕ → Type 0) (tier : List ℕ) (rr : ℕ)
    → All P tier
    → ((tier ≡ []) × ((choose tier rr).0 ≡ none)) ⊎ ((x : ℕ) × ((choose tier rr).0 ≡ some x) × P x)
choose_lem P [] rr h = inl (refl, refl)
choose_lem P (x ∷ []) rr (p, h) = inr (x, refl, p)
choose_lem P (x ∷ y ∷ ids) rr h = inr (
    get_elem-All P tier (rr % length tier) (sort_unstable-All P (x ∷ y ∷ ids) h)
      (omega (arith, length-sort_unstable (x ∷ y ∷ ids))))
  where
    tier : List ℕ
    tier = sort_unstable (x ∷ y ∷ ids)

weight_positive : (e : ProducerEntry) → entry_has_backlog e ≡ true → 1 ≤ (entry_backlog_weight e).0
unfolding entry_has_backlog entry_backlog_weight
weight_positive e h = ground arith

nothing_found :
    (o : Option ProducerEntry) (b : ℕ) → Dominated (weight_of o) (0, b) → weight_of o ≡ none
nothing_found none b h = refl
nothing_found (some e) b h = elim (Bool-cases (entry_has_backlog e)) [
  | inl held ↦
      let heavy : AtMost (entry_backlog_weight e) (0, b) =
        subst (λ o. Dominated o (0, b))
          (ap (λ x. if x then some (entry_backlog_weight e) else none) held) h in
      absurd (ground (arith, weight_positive e held, heavy))
  | inr empty ↦ rw empty refl
]

pub candidates_members : (ids : List ℕ) → All (λ c. member c ids ≡ true) ids
unfolding member
candidates_members [] = tt
candidates_members (id ∷ ids) = (
  rw ((==_iff id id).1 refl) refl,
  All-map (λ c h. rw h (ground arith)) ids (candidates_members ids),
)

-- What the choice is to be: none if no candidate has a backlog, and else a candidate with a backlog
-- that no other candidate with a backlog exceeds.
abbrev pub Picked : ProducerRegistry → List ℕ → Option ℕ → Type 0
Picked r candidates none = All (λ c. weight_of (get c r.inner) ≡ none) candidates
Picked r candidates (some id) =
    (member id candidates ≡ true)
    × ((w : ℕ × ℕ) × (weight_of (get id r.inner) ≡ some w)
        × All (λ c. Dominated (weight_of (get c r.inner)) w) candidates)

pub rank_ready_candidates_lem :
    (candidates : List ℕ) (rr : ℕ) (r : ProducerRegistry)
    → Picked r candidates (rank_ready_candidates candidates rr r).best
unfolding rank_ready_candidates
rank_ready_candidates_lem candidates rr r = elim (choose_lem _ s.tier rr leads.0.0.tier) [
  | inl (untied, nobody) ↦ rw nobody (
      All-map
        (λ c d. nothing_found (get c r.inner) s.best_bytes (
          subst (λ m. Dominated (weight_of (get c r.inner)) (m, s.best_bytes))
            (leads.0.0.empty untied) d))
        candidates leads.1)
  | inr (id, chosen, (found, inside)) ↦ rw chosen (inside, (best_of s, found, leads.1))
]
  where
    P : ℕ → Type 0
    P c = member c candidates ≡ true

    s : Scan
    s = scan candidates (scan_start r)

    leads :
        Moves r P (scan_start r) s
        × All (λ c. Dominated (weight_of (get c r.inner)) (best_of s)) candidates
    leads =
        scan-Leads r P candidates (scan_start r)
          (record { same = λ j. refl; tier = tt; empty = λ e. refl })
          (candidates_members candidates)
