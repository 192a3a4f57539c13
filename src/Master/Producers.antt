-- ===== src/Master/Producers.antt =====
-- master/src/producers.rs: `ProducerRegistry`, what the master knows of each connected producer.
-- The `HashMap` is a list of entries by id, in some order of iteration; a method returns the new
-- registry. The two counters are the source's atomics, which wrap. Not here: the write half of the
-- socket, and the rates as floating-point numbers, which the dashboard alone reads.
pub mod Reports
pub mod Ranking
pub mod Best
pub mod Choice
pub mod Stale
pub mod Counters
pub mod Entries
pub mod Reachable
mod Runs
use cupidmq.Common.{
  ltb, leb, ◌==◌, if◌then◌else◌, ltb→lt, ltb→le, lt→ltb, le→ltb, le→leb, lt→leb, ==_iff, Bool-cases,
  Option-cases, length, take, drop, get_elem?, All, length-append, take-append-drop, length-take,
  length-drop, take_all, take-append_length, drop-append_length, length-reverse, length-map,
  All-append, All-map, take-min-length, drop-min-length, take-append_le, take-take,
  drop-take-append, take-map, drop-map, u16_mod, u32_mod, u64_mod, usize_max, saturating_add,
  as_u16, as_u32, add_u32, add_u64, sub_u64, Bytes, ℕ, zero, suc, ◌+◌, ◌-◌, ◌*◌, ◌/◌, ◌%◌, ◌^◌, ◌≤◌,
  ◌<◌, min, max, ◌≡◌, refl, sym, ap, ap₂, subst, ◌∙◌, ◌≢◌, ◌↔◌, ◌⊎◌, inl, inr, Bool, true, false,
  not, ◌&&◌, ◌||◌, Option, none, some, List, [], ◌∷◌, ◌++◌, map, reverse, flatten, append-nil,
  append_assoc, map-append, reverse-append, reverse-reverse, reverse-cons, arith,
}

pub data ProducerState : Type 0 where
  idle ready busy : ProducerState

pub record ProducerEntry : Type 0 where
  pub addr : Bytes
  pub connected_at : ℕ
  pub state : ProducerState
  pub pending_messages : ℕ
  pub pending_bytes : ℕ
  pub ring_messages : ℕ
  pub ring_bytes : ℕ
  pub hb_drops : ℕ
  pub rate_batches : ℕ
  pub rate_msgs : ℕ
  pub rate_errors : ℕ
  pub rate_drops : ℕ
  pub pending_consumer_id : Option ℕ
  pub busy_since_ms : ℕ
  pub prdy_pending : Bool

abbrev pub stale_busy_ms : ℕ
stale_busy_ms = 15000

pub record ProducerRegistry : Type 0 where
  pub next_id : ℕ
  pub ready_count : ℕ
  pub busy_count : ℕ
  pub inner : List (ℕ × ProducerEntry)

unfoldable pub new : ProducerRegistry
new = record { next_id = 1; ready_count = 0; busy_count = 0; inner = [] }

abbrev pub is_ready : ProducerState → Bool
is_ready ready = true
is_ready _ = false

abbrev pub is_busy : ProducerState → Bool
is_busy busy = true
is_busy _ = false

abbrev pub is_idle : ProducerState → Bool
is_idle idle = true
is_idle _ = false

-- `old == new`, as derived.
abbrev pub same_state : ProducerState → ProducerState → Bool
same_state idle s = is_idle s
same_state ready s = is_ready s
same_state busy s = is_busy s

-- The two atomics, which `transition_entry` takes beside the entry.
pub record Counts : Type 0 where
  pub ready_count : ℕ
  pub busy_count : ℕ

abbrev pub leave : ProducerState → Counts → Counts
leave idle c = c
leave ready c = record c { ready_count = sub_u64 c.ready_count 1 }
leave busy c = record c { busy_count = sub_u64 c.busy_count 1 }

abbrev pub enter : ProducerState → Counts → Counts
enter idle c = c
enter ready c = record c { ready_count = add_u64 c.ready_count 1 }
enter busy c = record c { busy_count = add_u64 c.busy_count 1 }

unfoldable pub transition_entry : ProducerState → Counts × ProducerEntry → Counts × ProducerEntry
transition_entry new_state (c, e) =
    if same_state e.state new_state
    then (c, e)
    else (enter new_state (leave e.state c), record e { state = new_state })

unfoldable pub release_busy_entry : Counts × ProducerEntry → Counts × ProducerEntry
release_busy_entry (c, e) =
    let (c', e') = transition_entry idle (c, e) in
    (c', record e' { pending_consumer_id = none; busy_since_ms = 0 })

unfoldable pub get : ℕ → List (ℕ × ProducerEntry) → Option ProducerEntry
get id [] = none
get id ((k, e) ∷ m) = if k == id then some e else get id m

-- `get_mut`, and what the caller does with the entry and the counters.
unfoldable pub update :
    (Counts × ProducerEntry → Counts × ProducerEntry)
    → ℕ
    → Counts
    → List (ℕ × ProducerEntry)
    → Counts × List (ℕ × ProducerEntry)
update f id c [] = (c, [])
update f id c ((k, e) ∷ m) =
    let (c', e') = f (c, e) in
    let (c'', m') = update f id c m in if k == id then (c', (k, e') ∷ m) else (c'', (k, e) ∷ m')

abbrev pub counts : ProducerRegistry → Counts
counts r = record { ready_count = r.ready_count; busy_count = r.busy_count }

abbrev pub with_counts : ProducerRegistry → Counts × List (ℕ × ProducerEntry) → ProducerRegistry
with_counts r (c, m) = record r {
  ready_count = c.ready_count;
  busy_count = c.busy_count;
  inner = m;
}

-- `if let Some(e) = self.inner.lock().await.get_mut(&id) { … }`
abbrev pub modify :
    (Counts × ProducerEntry → Counts × ProducerEntry) → ℕ → ProducerRegistry → ProducerRegistry
modify f id r = with_counts r (update f id (counts r) r.inner)

abbrev pub fresh_entry : Bytes → ℕ → ProducerEntry
fresh_entry addr now = record {
  addr = addr;
  connected_at = now;
  state = idle;
  pending_messages = 0;
  pending_bytes = 0;
  ring_messages = 0;
  ring_bytes = 0;
  hb_drops = 0;
  rate_batches = 0;
  rate_msgs = 0;
  rate_errors = 0;
  rate_drops = 0;
  pending_consumer_id = none;
  busy_since_ms = 0;
  prdy_pending = false;
}

-- `HashMap::remove`, with the entry removed.
unfoldable pub take_entry :
    ℕ → List (ℕ × ProducerEntry) → Option ProducerEntry × List (ℕ × ProducerEntry)
take_entry id [] = (none, [])
take_entry id ((k, e) ∷ m) =
    let (found, rest) = take_entry id m in if k == id then (some e, m) else (found, (k, e) ∷ rest)

-- `HashMap::insert`: an entry of the same id is replaced.
abbrev pub insert : ℕ → ProducerEntry → List (ℕ × ProducerEntry) → List (ℕ × ProducerEntry)
insert id e m = (id, e) ∷ (take_entry id m).1

unfoldable pub register : ProducerRegistry → Bytes → ℕ → ℕ × ProducerRegistry
register r addr now = (
  r.next_id,
  record r {
    next_id = add_u64 r.next_id 1;
    inner = insert r.next_id (fresh_entry addr now) r.inner;
  },
)

abbrev pub removed :
    ProducerRegistry → Option ProducerEntry × List (ℕ × ProducerEntry) → ProducerRegistry
removed r (none, m) = record r { inner = m }
removed r (some e, m) = with_counts r (leave e.state (counts r), m)

unfoldable pub remove : ℕ → ProducerRegistry → ProducerRegistry
remove id r = removed r (take_entry id r.inner)

unfoldable pub set_state : ℕ → ProducerState → ProducerRegistry → ProducerRegistry
set_state id state r = modify (transition_entry state) id r

abbrev pub state_in : Option ProducerEntry → Option ProducerState
state_in none = none
state_in (some e) = some e.state

unfoldable pub state_of : ProducerRegistry → ℕ → Option ProducerState
state_of r id = state_in (get id r.inner)

unfoldable pub entry_has_backlog : ProducerEntry → Bool
entry_has_backlog e = e.prdy_pending || ltb 0 e.ring_messages

-- Two `u32` add up to a `u64` without a wrap.
unfoldable pub entry_backlog_weight : ProducerEntry → ℕ × ℕ
entry_backlog_weight e =
    let msgs = e.pending_messages + e.ring_messages in
    let bytes = e.pending_bytes + e.ring_bytes in
    (if (msgs == 0) && e.prdy_pending then 1 else msgs, bytes)
