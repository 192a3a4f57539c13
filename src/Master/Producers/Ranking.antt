-- ===== src/Master/Producers/Ranking.antt =====
-- master/src/producers.rs: `rank_ready_candidates`, which chooses the producer that is served next, and
-- `sync_matcher_ready_state`. A `HashSet` of ids is a list.
use cupidmq.Common.{
  ltb, leb, ◌==◌, if◌then◌else◌, length, get_elem?, add_u64, ℕ, ◌%◌, max, true, false, not, ◌&&◌,
  ◌||◌, Option, none, some, List, [], ◌∷◌, ◌++◌,
}
use cupidmq.Master.Producers.{
  idle, ready, ProducerEntry, ProducerRegistry, is_ready, is_busy, is_idle, Counts,
  transition_entry, get, counts, with_counts, modify, entry_has_backlog, entry_backlog_weight,
}
use cupidmq.Master.Producers.ProducerState.{idle, ready}

-- An entry without backlog is not to be announced as ready.
abbrev pub demote : Counts × ProducerEntry → Counts × ProducerEntry
demote (c, e) =
    let e' : ProducerEntry = record e { prdy_pending = false } in
    if is_ready e.state then transition_entry idle (c, e') else (c, e')

-- The variables of the `for` loop.
pub record Scan : Type 0 where
  pub best_msgs : ℕ
  pub best_bytes : ℕ
  pub tier : List ℕ
  pub stale : List ℕ
  pub registry : ProducerRegistry

abbrev pub weigh : ℕ → ℕ × ℕ → Scan → Scan
weigh id (msgs, bytes) s =
    if ltb s.best_msgs msgs || ((msgs == s.best_msgs) && ltb s.best_bytes bytes)
    then record s { best_msgs = msgs; best_bytes = bytes; tier = id ∷ [] }
    else if (msgs == s.best_msgs) && (bytes == s.best_bytes)
    then record s { tier = s.tier ++ (id ∷ []) }
    else s

abbrev pub drop_stale : ℕ → Scan → Scan
drop_stale id s = record s { stale = s.stale ++ (id ∷ []); registry = modify demote id s.registry }

abbrev pub consider : ℕ → Option ProducerEntry → Scan → Scan
consider id none s = record s { stale = s.stale ++ (id ∷ []) }
consider id (some e) s =
    if not (entry_has_backlog e) then drop_stale id s else weigh id (entry_backlog_weight e) s

unfoldable pub scan : List ℕ → Scan → Scan
scan [] s = s
scan (id ∷ ids) s = scan ids (consider id (get id s.registry.inner) s)

-- `sort_unstable` on ids, which are numbers.
abbrev pub insert_sorted : ℕ → List ℕ → List ℕ
insert_sorted x [] = x ∷ []
insert_sorted x (y ∷ ys) = let rest = insert_sorted x ys in if leb x y then x ∷ y ∷ ys else y ∷ rest

unfoldable pub sort_unstable : List ℕ → List ℕ
sort_unstable [] = []
sort_unstable (x ∷ xs) = insert_sorted x (sort_unstable xs)

-- What follows the loop: the choice and the new round-robin position.
abbrev pub choose : List ℕ → ℕ → Option ℕ × ℕ
choose [] rr = (none, rr)
choose (id ∷ []) rr = (some id, rr)
choose (id ∷ id' ∷ ids) rr =
    let tier = sort_unstable (id ∷ id' ∷ ids) in
    (get_elem? tier (rr % length tier), add_u64 rr 1 % max (length tier) 1)

pub record Ranked : Type 0 where
  pub best : Option ℕ
  pub stale : List ℕ
  pub producer_rr : ℕ
  pub registry : ProducerRegistry

abbrev pub ranked_by : Option ℕ × ℕ → Scan → Ranked
ranked_by (best, rr) s = record {
  best = best;
  stale = s.stale;
  producer_rr = rr;
  registry = s.registry;
}

abbrev pub scan_start : ProducerRegistry → Scan
scan_start r = record { best_msgs = 0; best_bytes = 0; tier = []; stale = []; registry = r }

unfoldable pub rank_ready_candidates : List ℕ → ℕ → ProducerRegistry → Ranked
rank_ready_candidates candidates producer_rr r =
    let s = scan candidates (scan_start r) in ranked_by (choose s.tier producer_rr) s

abbrev pub prune_one :
    ℕ → Option ProducerEntry → List ℕ × ProducerRegistry → List ℕ × ProducerRegistry
prune_one id none (out, r) = (out ++ (id ∷ []), r)
prune_one id (some e) (out, r) =
    if not (entry_has_backlog e) then (out ++ (id ∷ []), modify demote id r) else (out, r)

-- The first loop of `sync_matcher_ready_state`: the ids to remove from the pool.
unfoldable pub prune : List ℕ → List ℕ × ProducerRegistry → List ℕ × ProducerRegistry
prune [] s = s
prune (id ∷ current) s = prune current (prune_one id (get id s.1.inner) s)

abbrev pub restore_entry : Counts × ProducerEntry → Counts × ProducerEntry
restore_entry (c, e) =
    if entry_has_backlog e && is_idle e.state
    then transition_entry ready (c, record e { prdy_pending = true })
    else (c, e)

-- The second loop: the ids to add to the pool.
unfoldable pub restore :
    Counts → List (ℕ × ProducerEntry) → List ℕ × Counts × List (ℕ × ProducerEntry)
restore c [] = ([], c, [])
restore c ((k, e) ∷ m) =
    let (c', e') = restore_entry (c, e) in
    let (out, c'', m') = restore c' m in
    (if entry_has_backlog e && not (is_busy e.state) then k ∷ out else out, c'', (k, e') ∷ m')

unfoldable pub sync_matcher_ready_state :
    List ℕ → ProducerRegistry → List ℕ × List ℕ × ProducerRegistry
sync_matcher_ready_state current r =
    let (out, pruned) = prune current ([], r) in
    let (add, c, m) = restore (counts pruned) pruned.inner in (add, out, with_counts pruned (c, m))
