-- ===== src/Master/Producers/Entries.antt =====
-- The ids of the registry, and what a change of its entries keeps.
use cupidmq.Common.{
  ◌==◌, Bool-cases, length, All, u64_mod, add_u64, Bytes, ℕ, ◌+◌, ◌≤◌, ◌<◌, ◌≡◌, refl, sym, ap,
  subst, inl, inr, Option, none, some, List, [], ◌∷◌, arith,
}
use cupidmq.Master.Producers.{
  ProducerState, ProducerEntry, ProducerRegistry, is_ready, is_busy, Counts, leave, update, counts,
  with_counts, modify, take_entry, register, removed, remove,
}
use cupidmq.Master.Producers.Reports.{awaits, release_if, clear_all}
use cupidmq.Master.Producers.Ranking.{restore_entry, restore}
use cupidmq.Master.Producers.Counters.{
  recount, one_if, ready_in, busy_in, IsCount, Keeps, update-IsCount,
}

abbrev pub keys : List (ℕ × ProducerEntry) → List ℕ
keys [] = []
keys ((k, e) ∷ m) = k ∷ keys m

-- Ids are given out in order, and there are fewer entries than ids given out.
pub record IsRegistry (r : ProducerRegistry) : Type 0 where
  pub counted : IsCount (counts r) (ready_in r.inner) (busy_in r.inner)
  pub below : All (λ id. id < r.next_id) (keys r.inner)
  pub few : length (keys r.inner) < r.next_id
  pub word : r.next_id < u64_mod

pub update-keys :
    (f : Counts × ProducerEntry → Counts × ProducerEntry) (id : ℕ) (c : Counts)
    (m : List (ℕ × ProducerEntry))
    → keys (update f id c m).1 ≡ keys m
unfolding update
update-keys f id c [] = refl
update-keys f id c ((k, e) ∷ m) = elim (Bool-cases (k == id)) [
  | inl found ↦ rw found refl
  | inr other ↦ rw other (ap (λ ks. k ∷ ks) (update-keys f id c m))
]

pub clear_all-keys :
    (consumer_id : ℕ) (c : Counts) (m : List (ℕ × ProducerEntry))
    → keys (clear_all consumer_id c m).2 ≡ keys m
unfolding clear_all
clear_all-keys consumer_id c [] = refl
clear_all-keys consumer_id c ((k, e) ∷ m) =
    let ce = release_if (awaits consumer_id e.pending_consumer_id) (c, e) in
    ap (λ ks. k ∷ ks) (clear_all-keys consumer_id ce.0 m)

pub restore-keys : (c : Counts) (m : List (ℕ × ProducerEntry)) → keys (restore c m).2 ≡ keys m
unfolding restore
restore-keys c [] = refl
restore-keys c ((k, e) ∷ m) = ap (λ ks. k ∷ ks) (restore-keys (restore_entry (c, e)).0 m)

-- A registry whose entries changed, with their counts kept.
pub same_keys :
    (r : ProducerRegistry) (c : Counts) (m : List (ℕ × ProducerEntry))
    → IsRegistry r
    → keys m ≡ keys r.inner
    → IsCount c (ready_in m) (busy_in m)
    → IsRegistry (with_counts r (c, m))
same_keys r c m v e h = record {
  counted = h;
  below = subst (All (λ id. id < r.next_id)) (sym e) v.below;
  few = rw e v.few;
  word = v.word;
}

pub modify-IsRegistry :
    (f : Counts × ProducerEntry → Counts × ProducerEntry) (id : ℕ) (r : ProducerRegistry)
    → Keeps f
    → IsRegistry r
    → IsRegistry (modify f id r)
modify-IsRegistry f id r keeps v = same_keys r _ _ v (update-keys f id (counts r) r.inner) (
    recount (omega arith) (omega arith) (
      update-IsCount f id (counts r) r.inner 0 0 keeps
        (recount (omega arith) (omega arith) v.counted)))

-- What `HashMap::remove` takes out and what it leaves.
abbrev ready_out : Option ProducerEntry → ℕ
ready_out none = 0
ready_out (some e) = one_if (is_ready e.state)

abbrev busy_out : Option ProducerEntry → ℕ
busy_out none = 0
busy_out (some e) = one_if (is_busy e.state)

take_entry_sums :
    (id : ℕ) (m : List (ℕ × ProducerEntry))
    → (ready_in m ≡ ready_out (take_entry id m).0 + ready_in (take_entry id m).1)
      × (busy_in m ≡ busy_out (take_entry id m).0 + busy_in (take_entry id m).1)
      × (length (keys (take_entry id m).1) ≤ length (keys m))
unfolding take_entry
take_entry_sums id [] = (refl, refl, omega arith)
take_entry_sums id ((k, e) ∷ m) =
    let (r, b, l) = take_entry_sums id m in
    elim (Bool-cases (k == id)) [
      | inl found ↦ rw found (refl, refl, omega arith)
      | inr other ↦ rw other (omega (arith, r), omega (arith, b), omega (arith, l))
    ]

take_entry-All :
    (P : ℕ → Type 0) (id : ℕ) (m : List (ℕ × ProducerEntry))
    → All P (keys m)
    → All P (keys (take_entry id m).1)
unfolding take_entry
take_entry-All P id [] h = h
take_entry-All P id ((k, e) ∷ m) (p, h) = elim (Bool-cases (k == id)) [
  | inl found ↦ rw found h
  | inr other ↦ rw other (p, take_entry-All P id m h)
]

take_entry_absent :
    (id : ℕ) (m : List (ℕ × ProducerEntry)) → All (λ k. k < id) (keys m) → (take_entry id m).1 ≡ m
unfolding take_entry
take_entry_absent id [] h = refl
take_entry_absent id ((k, e) ∷ m) (p, h) = elim (Bool-cases (k == id)) [
  | inl found ↦ absurd (ground (arith, found, p))
  | inr other ↦ rw other (ap (λ rest. (k, e) ∷ rest) (take_entry_absent id m h))
]

weaken : (n : ℕ) (ks : List ℕ) → All (λ k. k < n) ks → All (λ k. k < n + 1) ks
weaken n [] h = tt
weaken n (k ∷ ks) (p, h) = (omega (arith, p), weaken n ks h)

pub register-IsRegistry :
    (r : ProducerRegistry) (addr : Bytes) (now : ℕ)
    → r.next_id + 1 < u64_mod
    → IsRegistry r
    → IsRegistry (register r addr now).1
unfolding register
register-IsRegistry r addr now h v =
    rw (take_entry_absent r.next_id r.inner v.below, next)
      (record {
        counted = recount (omega arith) (omega arith) v.counted;
        below = (omega arith, weaken r.next_id (keys r.inner) v.below);
        few = omega (arith, v.few);
        word = h;
      })
  where
    next : add_u64 r.next_id 1 ≡ r.next_id + 1
    next = omega arith

leave-IsCount :
    (s : ProducerState) (c : Counts) (nr nb : ℕ)
    → IsCount c (one_if (is_ready s) + nr) (one_if (is_busy s) + nb)
    → IsCount (leave s c) nr nb
leave-IsCount s c nr nb h = ground arith

removed-IsRegistry :
    (r : ProducerRegistry) (out : Option ProducerEntry × List (ℕ × ProducerEntry))
    → IsRegistry r
    → (ready_in r.inner ≡ ready_out out.0 + ready_in out.1)
    → (busy_in r.inner ≡ busy_out out.0 + busy_in out.1)
    → (length (keys out.1) ≤ length (keys r.inner))
    → All (λ id. id < r.next_id) (keys out.1)
    → IsRegistry (removed r out)
removed-IsRegistry r (none, m) v er eb l h = record {
  counted = recount (omega (arith, er)) (omega (arith, eb)) v.counted;
  below = h;
  few = omega (arith, l, v.few);
  word = v.word;
}
removed-IsRegistry r (some e, m) v er eb l h = record {
  counted = leave-IsCount e.state (counts r) (ready_in m) (busy_in m) (recount er eb v.counted);
  below = h;
  few = omega (arith, l, v.few);
  word = v.word;
}

pub remove-IsRegistry : (id : ℕ) (r : ProducerRegistry) → IsRegistry r → IsRegistry (remove id r)
unfolding remove
remove-IsRegistry id r v =
    let (er, eb, l) = take_entry_sums id r.inner in
    removed-IsRegistry r (take_entry id r.inner) v er eb l
      (take_entry-All (λ k. k < r.next_id) id r.inner v.below)
