-- ===== src/Master/Producers/Best.antt =====
-- `rank_ready_candidates` chooses a producer with the most backlog.
use cupidmq.Common.{
  ltb, ◌==◌, if◌then◌else◌, Bool-cases, length, All, length-append, All-append, ℕ, ◌≤◌, ◌<◌, ◌≡◌,
  refl, sym, ap, ap₂, subst, ◌∙◌, ◌⊎◌, inl, inr, false, ◌&&◌, ◌||◌, Option, none, some, List, [],
  ◌∷◌, ◌++◌, arith,
}
use cupidmq.Master.Producers.{
  ProducerEntry, ProducerRegistry, Counts, transition_entry, get, update, counts, entry_has_backlog,
  entry_backlog_weight,
}
use cupidmq.Master.Producers.Ranking.{demote, Scan, weigh, consider, scan}

-- The weight by which a producer is ranked, if it is registered and has a backlog.
abbrev pub weight_of : Option ProducerEntry → Option (ℕ × ℕ)
weight_of none = none
weight_of (some e) = if entry_has_backlog e then some (entry_backlog_weight e) else none

-- More messages, or as many and at least as many bytes.
abbrev pub AtMost : ℕ × ℕ → ℕ × ℕ → Type 0
AtMost (m, b) (m', b') = (m < m') ⊎ ((m ≡ m') × (b ≤ b'))

-- A candidate with a backlog weighs at most `best`.
abbrev pub Dominated : Option (ℕ × ℕ) → ℕ × ℕ → Type 0
Dominated none best = Unit {0}
Dominated (some w) best = AtMost w best

demote_weight :
    (c : Counts) (e : ProducerEntry)
    → entry_has_backlog e ≡ false
    → weight_of (some (demote (c, e)).1) ≡ none
unfolding transition_entry entry_has_backlog
demote_weight c e h = ground arith

pub bare : (e : ProducerEntry) → weight_of (some e) ≡ none → entry_has_backlog e ≡ false
bare e h = elim (Bool-cases (entry_has_backlog e)) [
  | inl held ↦
      absurd (clash (ap (λ b. if b then some (entry_backlog_weight e) else none) (sym held) ∙ h))
  | inr empty ↦ empty
]
  where
    clash : ¬ (some (entry_backlog_weight e) ≡ none)
    clash k = cc

-- A demotion of an id without backlog changes no weight.
update_weight :
    (id j : ℕ) (c : Counts) (m : List (ℕ × ProducerEntry))
    → weight_of (get id m) ≡ none
    → weight_of (get j (update demote id c m).1) ≡ weight_of (get j m)
unfolding update get
update_weight id j c [] h = refl
update_weight id j c ((k, e) ∷ m) h = elim (Bool-cases (k == id)) [
  | inl found ↦
      let head : weight_of (some e) ≡ none =
        ap (λ b. weight_of (if b then some e else get id m)) (sym found) ∙ h in
      rw found (elim (Bool-cases (k == j)) [
        | inl same ↦ rw same (demote_weight c e (bare e head) ∙ sym head)
        | inr other ↦ rw other refl
      ])
  | inr miss ↦ rw miss (elim (Bool-cases (k == j)) [
    | inl same ↦ rw same refl
    | inr other ↦ rw other (
        update_weight id j c m
          (ap (λ b. weight_of (if b then some e else get id m)) (sym miss) ∙ h))
  ])
]

AtMost-trans : (u v w : ℕ × ℕ) → AtMost u v → AtMost v w → AtMost u w
AtMost-trans u v w h k = ground arith

Dominated-mono : (o : Option (ℕ × ℕ)) (v w : ℕ × ℕ) → Dominated o v → AtMost v w → Dominated o w
Dominated-mono none v w h k = tt
Dominated-mono (some u) v w h k = AtMost-trans u v w h k

AtMost-refl : (w : ℕ × ℕ) → AtMost w w
AtMost-refl w = inr (refl, omega arith)

abbrev pub best_of : Scan → ℕ × ℕ
best_of s = (s.best_msgs, s.best_bytes)

-- What the loop knows: weights are those of the registry it started from, the ids of the tier have the
-- best weight, and without a tier nothing was found.
pub record Leads (r : ProducerRegistry) (P : ℕ → Type 0) (s : Scan) : Type 0 where
  pub same : (j : ℕ) → weight_of (get j s.registry.inner) ≡ weight_of (get j r.inner)
  pub tier : All (λ id. (weight_of (get id r.inner) ≡ some (best_of s)) × P id) s.tier
  pub empty : s.tier ≡ [] → s.best_msgs ≡ 0

-- What one round of the loop, or all of it, gives.
abbrev pub Moves : ProducerRegistry → (ℕ → Type 0) → Scan → Scan → Type 0
Moves r P s s' = Leads r P s' × AtMost (best_of s) (best_of s')

one_more : (xs : List ℕ) (x : ℕ) → ¬ (xs ++ (x ∷ []) ≡ [])
one_more xs x h = omega (arith, ap length h, length-append xs (x ∷ []))

weigh-Leads :
    (r : ProducerRegistry) (P : ℕ → Type 0) (s : Scan) (id : ℕ) (w : ℕ × ℕ)
    → Leads r P s
    → P id
    → weight_of (get id r.inner) ≡ some w
    → Moves r P s (weigh id w s) × AtMost w (best_of (weigh id w s))
weigh-Leads r P s id (m, b) v p h =
    elim (Bool-cases (ltb s.best_msgs m || ((m == s.best_msgs) && ltb s.best_bytes b))) [
      | inl more ↦ rw more (
        (record { same = v.same; tier = ((h, p), tt); empty = λ e. absurd (cc) }, ground arith),
        AtMost-refl (m, b),
      )
      | inr less ↦ rw less (elim (Bool-cases ((m == s.best_msgs) && (b == s.best_bytes))) [
        | inl equal ↦
            let best : (m, b) ≡ best_of s = ap₂ (λ x y. (x, y)) (ground arith) (ground arith) in
            rw equal (
              (
                record {
                  same = v.same;
                  tier = All-append _ s.tier (id ∷ []) v.tier ((h ∙ ap some best, p), tt);
                  empty = λ e. absurd (one_more s.tier id e);
                },
                AtMost-refl (best_of s),
              ),
              ground arith,
            )
        | inr worse ↦ rw worse ((v, AtMost-refl (best_of s)), ground arith)
      ])
    ]

-- One round: what was found is led by the best, and no weight gets smaller.
pub consider-Leads :
    (r : ProducerRegistry) (P : ℕ → Type 0) (s : Scan) (id : ℕ) (o : Option ProducerEntry)
    → Leads r P s
    → P id
    → get id s.registry.inner ≡ o
    → Moves r P s (consider id o s)
      × Dominated (weight_of (get id r.inner)) (best_of (consider id o s))
consider-Leads r P s id none v p h = (
  (record { same = v.same; tier = v.tier; empty = v.empty }, AtMost-refl (best_of s)),
  subst (λ w. Dominated w (best_of s)) (sym (ap weight_of h) ∙ v.same id) tt,
)
consider-Leads r P s id (some e) v p h = elim (Bool-cases (entry_has_backlog e)) [
  | inl held ↦
      let weighed : weight_of (get id r.inner) ≡ some (entry_backlog_weight e) =
        sym (v.same id)
        ∙ ap weight_of h
        ∙ ap (λ b. if b then some (entry_backlog_weight e) else none) held in
      let (moves, most) = weigh-Leads r P s id (entry_backlog_weight e) v p weighed in
      rw held (
        moves,
        subst (λ w. Dominated w (best_of (weigh id (entry_backlog_weight e) s))) (sym weighed) most,
      )
  | inr empty ↦
      let unweighed : weight_of (some e) ≡ none =
        ap (λ b. if b then some (entry_backlog_weight e) else none) empty in
      rw empty (
        (
          record {
            same = λ j.
                update_weight id j (counts s.registry) s.registry.inner (ap weight_of h ∙ unweighed)
                ∙ v.same j;
            tier = v.tier;
            empty = v.empty;
          },
          AtMost-refl (best_of s),
        ),
        subst (λ w. Dominated w (best_of s)) (sym (ap weight_of h ∙ unweighed) ∙ v.same id) tt,
      )
]

pub scan-Leads :
    (r : ProducerRegistry) (P : ℕ → Type 0) (ids : List ℕ) (s : Scan)
    → Leads r P s
    → All P ids
    → Moves r P s (scan ids s)
      × All (λ c. Dominated (weight_of (get c r.inner)) (best_of (scan ids s))) ids
unfolding scan
scan-Leads r P [] s v ps = ((v, AtMost-refl (best_of s)), tt)
scan-Leads r P (id ∷ ids) s v (p, ps) =
    let next = consider id (get id s.registry.inner) s in
    let (moved, most) = consider-Leads r P s id (get id s.registry.inner) v p refl in
    let (rest, all) = scan-Leads r P ids next moved.0 ps in
    (
      (rest.0, AtMost-trans (best_of s) (best_of next) (best_of (scan ids next)) moved.1 rest.1),
      (
        Dominated-mono (weight_of (get id r.inner)) (best_of next) (best_of (scan ids next)) most
            rest.1,
        all,
      ),
    )
