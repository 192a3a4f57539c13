-- ===== src/Master/Consumers/Index.antt =====
-- The index `awaiting_by_producer` knows every consumer that has an assignment.
use cupidmq.Common.{
  ◌==◌, if◌then◌else◌, ==_iff, Bool-cases, ℕ, ◌≡◌, refl, sym, ap, subst, ◌∙◌, inl, inr, Bool, true,
  false, not, ◌&&◌, ◌||◌, Option, none, some, List, [], ◌∷◌,
}
use cupidmq.Master.Store.{Store, get, get-remove, get-insert, member, without, member-without}
use cupidmq.Master.Consumers.{
  null, awaiting_of, track_awaiting, keep_set, untrack_in, untrack_awaiting,
}

-- Whether the index has a consumer under a producer.
abbrev pub tracked : ℕ → ℕ → Store (List ℕ) → Bool
tracked p c awaiting = member c (awaiting_of (get p awaiting))

member-cons :
    (x c : ℕ) (set : List ℕ)
    → member x (if member c set then set else c ∷ set) ≡ ((x == c) || member x set)
unfolding member
member-cons x c set = elim (Bool-cases (member c set)) [
  | inl there ↦ rw there (elim (Bool-cases (x == c)) [
    | inl same ↦ rw same (subst (λ y. member y set ≡ true) (sym ((==_iff x c).0 same)) there)
    | inr other ↦ rw other refl
  ])
  | inr absent ↦ rw absent refl
]

pub tracked-track_awaiting :
    (p c p' c' : ℕ) (awaiting : Store (List ℕ))
    → tracked p' c' (track_awaiting p c awaiting)
      ≡ (((p' == p) && (c' == c)) || tracked p' c' awaiting)
unfolding track_awaiting
tracked-track_awaiting p c p' c' awaiting =
    rw (get-insert p p' new_set awaiting) (elim (Bool-cases (p' == p)) [
      | inl same ↦ rw same (
          member-cons c' c set
          ∙ ap (λ q. (c' == c) || tracked q c' awaiting) (sym ((==_iff p' p).0 same)))
      | inr other ↦ rw other refl
    ])
  where
    set : List ℕ
    set = awaiting_of (get p awaiting)

    new_set : List ℕ
    new_set = if member c set then set else c ∷ set

pub member-null : (x : ℕ) (set : List ℕ) → null set ≡ true → member x set ≡ false
unfolding member
member-null x [] h = refl
member-null x (y ∷ set) h = cc

pub tracked-keep_set :
    (p p' c' : ℕ) (set : List ℕ) (awaiting : Store (List ℕ))
    → tracked p' c' (keep_set p set awaiting)
      ≡ (if p' == p then member c' set else tracked p' c' awaiting)
tracked-keep_set p p' c' set awaiting = elim (Bool-cases (null set)) [
  | inl none_left ↦
      rw (none_left, get-remove p p' awaiting)
        (elim (Bool-cases (p' == p)) [
          | inl same ↦ rw (same, member-null c' set none_left) (unfold member in refl)
          | inr other ↦ rw other refl
        ])
  | inr some_left ↦
      rw (some_left, get-insert p p' set awaiting)
        (elim (Bool-cases (p' == p)) [ inl same ↦ rw same refl | inr other ↦ rw other refl ])
]

pub tracked-untrack_awaiting :
    (p c p' c' : ℕ) (awaiting : Store (List ℕ))
    → tracked p' c' (untrack_awaiting p c awaiting)
      ≡ (not ((p' == p) && (c' == c)) && tracked p' c' awaiting)
unfolding untrack_awaiting
tracked-untrack_awaiting p c p' c' awaiting = go (get p awaiting) refl
  where
    here :
        (o : Option (List ℕ))
        → get p awaiting ≡ o
        → (p' == p) ≡ true
        → tracked p' c' awaiting ≡ member c' (awaiting_of o)
    here o e same =
        ap (λ q. tracked q c' awaiting) ((==_iff p' p).0 same)
        ∙ ap (λ found. member c' (awaiting_of found)) e

    go :
        (o : Option (List ℕ))
        → get p awaiting ≡ o
        → tracked p' c' (untrack_in p c awaiting o)
          ≡ (not ((p' == p) && (c' == c)) && tracked p' c' awaiting)
    go none e = elim (Bool-cases (p' == p)) [
      | inl same ↦
          rw (same, here none e same)
            (elim (Bool-cases (c' == c)) [
              | inl hit ↦ rw hit (unfold member in refl)
              | inr miss ↦ rw miss (unfold member in refl)
            ])
      | inr other ↦ rw other refl
    ]
    go (some set) e =
        rw (tracked-keep_set p p' c' (without c set) awaiting) (elim (Bool-cases (p' == p)) [
          | inl same ↦ rw (same, here (some set) e same) (member-without c' c set)
          | inr other ↦ rw other refl
        ])
