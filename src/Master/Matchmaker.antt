-- ===== src/Master/Matchmaker.antt =====
-- master/src/producers.rs: `Matchmaker`, which joins a consumer that waits with a producer that is
-- ready. A call is one step on the state of the master; `Matchmaker/Race` looks at two tasks that run
-- `try_match` at the same time. The `done` channel of a waiting consumer is not here: the server never
-- listens on it.
pub mod Matching
pub mod Events
pub mod Pool
pub mod Rounds
pub mod Race
pub mod Queued
pub mod Queue
pub mod Keeps
pub mod Asked
pub mod Methods
mod Runs
use cupidmq.Common.{
  ltb, leb, ◌==◌, if◌then◌else◌, ltb→lt, ltb→le, lt→ltb, le→ltb, le→leb, lt→leb, ==_iff, Bool-cases,
  Option-cases, length, take, drop, get_elem?, All, length-append, take-append-drop, length-take,
  length-drop, take_all, take-append_length, drop-append_length, length-reverse, length-map,
  All-append, All-map, take-min-length, drop-min-length, take-append_le, take-take,
  drop-take-append, take-map, drop-map, u16_mod, u32_mod, u64_mod, usize_max, saturating_add,
  as_u16, as_u32, add_u32, add_u64, sub_u64, Bytes, ℕ, zero, suc, ◌+◌, ◌-◌, ◌*◌, ◌/◌, ◌%◌, ◌^◌, ◌≤◌,
  ◌<◌, min, max, ◌≡◌, refl, sym, ap, ap₂, subst, ◌∙◌, ◌≢◌, ◌↔◌, ◌⊎◌, inl, inr, Bool, true, false,
  not, ◌&&◌, ◌||◌, Option, none, some, List, [], ◌∷◌, ◌++◌, map, reverse, flatten, append-nil,
  append_assoc, map-append, reverse-append, reverse-reverse, reverse-cons, arith,
}
use cupidmq.Protocol.Wire.{Result, ok, err, Error}
use cupidmq.Protocol.Control.{ReadyRequest, AssignRequest, encode_assign}
use cupidmq.Master.Store.{member, without}
use cupidmq.Master.Producers.{ProducerRegistry, ProducerState, get, set_state, state_of}
use cupidmq.Master.Producers.ProducerState.{idle, ready, busy}
use cupidmq.Master.Producers
use cupidmq.Master.Producers.Reports.{
  mark_prdy, mark_assigned, clear_stale_busy, clear_assignments_to_consumer, take_pending_consumer,
}
use cupidmq.Master.Producers.Ranking.{Ranked, rank_ready_candidates, sync_matcher_ready_state}
use cupidmq.Master.Consumers.{
  ConsumerRegistry, Phase, mark_awaiting_batch, release_stale_assignments, set_phase, match_context,
  without_all, state_in,
}
use cupidmq.Master.Consumers.Phase.{matcher_queue, awaiting_batch}
use cupidmq.Master.Consumers
use cupidmq.Master.Metrics.{Metrics, record_assign_tick}

pub record PendingConsumer : Type 0 where
  pub consumer_id : ℕ
  pub ready : ReadyRequest
  pub data_addr : Bytes

pub record MatchmakerInner : Type 0 where
  pub ready : List ℕ
  pub waiting : List PendingConsumer
  pub consumer_rr : ℕ
  pub producer_rr : ℕ

-- The state that the tasks of the master share.
pub record Relay (F : Type 0) : Type 0 where
  pub producers : ProducerRegistry
  pub consumers : ConsumerRegistry F
  pub metrics : Metrics
  pub matcher : MatchmakerInner

unfoldable pub new_matcher : MatchmakerInner
new_matcher = record { ready = []; waiting = []; consumer_rr = 0; producer_rr = 0 }

-- `wait.retain(|p| p.consumer_id != id)`
unfoldable pub retain_others : ℕ → List PendingConsumer → List PendingConsumer
retain_others id [] = []
retain_others id (p ∷ wait) =
    let rest = retain_others id wait in if p.consumer_id == id then rest else p ∷ rest

unfoldable pub push_waiting : PendingConsumer → List PendingConsumer → List PendingConsumer
push_waiting entry wait = retain_others entry.consumer_id wait ++ (entry ∷ [])

-- `Vec::remove`, with the item removed.
unfoldable pub remove_at {ℓ} : {A : Type ℓ} → ℕ → List A → Option (A × List A)
remove_at i [] = none
remove_at zero (x ∷ xs) = some (x, xs)
remove_at (suc i) (x ∷ xs) = elim (remove_at i xs) [
  | none ↦ none
  | some (y, rest) ↦ some (y, x ∷ rest)
]

abbrev pub taken :
    MatchmakerInner
    → ℕ
    → Option (PendingConsumer × List PendingConsumer)
    → Option PendingConsumer × MatchmakerInner
taken inner rr none = (none, inner)
taken inner rr (some (c, rest)) =
    (some c, record inner { waiting = rest; consumer_rr = (rr + 1) % length inner.waiting })

-- The round-robin position, set back to 0 where the queue has become shorter than it.
abbrev pub pick_of : MatchmakerInner → ℕ
pick_of inner = if leb (length inner.waiting) inner.consumer_rr then 0 else inner.consumer_rr

unfoldable pub take_next_waiting_inner : MatchmakerInner → Option PendingConsumer × MatchmakerInner
take_next_waiting_inner inner =
    if length inner.waiting == 0
    then (none, inner)
    else taken inner (pick_of inner) (remove_at (pick_of inner) inner.waiting)

-- `HashSet::insert`
abbrev pub insert_id : ℕ → List ℕ → List ℕ
insert_id id set = if member id set then set else id ∷ set

abbrev pub insert_all : List ℕ → List ℕ → List ℕ
insert_all [] set = set
insert_all (id ∷ ids) set = insert_all ids (insert_id id set)

abbrev pub ensure_in : ℕ → MatchmakerInner → MatchmakerInner
ensure_in id inner = record inner { ready = insert_id id inner.ready }

abbrev pub leave_pool : ℕ → MatchmakerInner → MatchmakerInner
leave_pool id inner = record inner { ready = without id inner.ready }

-- What `try_match` comes to; `out_of_fuel` is not the source's, and never happens.
pub data Matched : Type 0 where
  done : Matched
  failed : Error → Matched
  out_of_fuel : Matched

abbrev pub nobody : List PendingConsumer → Bool
nobody [] = true
nobody (p ∷ wait) = false

abbrev pub empty : List ℕ → Bool
empty [] = true
empty (id ∷ ids) = false

-- The pair that a round settles on, out of the state behind the matcher's lock.
abbrev pub claimed :
    ℕ → Option PendingConsumer × MatchmakerInner → Option (ℕ × PendingConsumer) × MatchmakerInner
claimed producer_id (none, inner) = (none, ensure_in producer_id inner)
claimed producer_id (some c, inner) = (some (producer_id, c), inner)

abbrev pub claim_best : Option ℕ → MatchmakerInner → Option (ℕ × PendingConsumer) × MatchmakerInner
claim_best none inner = (none, inner)
claim_best (some producer_id) inner =
    if nobody inner.waiting
    then (none, inner)
    else claimed producer_id (take_next_waiting_inner (leave_pool producer_id inner))

-- The block of a round that holds the lock after the ranking.
unfoldable pub claim : Ranked → MatchmakerInner → Option (ℕ × PendingConsumer) × MatchmakerInner
claim ranked inner = claim_best ranked.best (record inner {
  producer_rr = ranked.producer_rr;
  ready = without_all ranked.stale inner.ready;
})

abbrev pub assign_of : PendingConsumer → AssignRequest
assign_of c = record {
  max_items = c.ready.max_items;
  consumer_tag = c.ready.consumer_tag;
  data_addr = c.data_addr;
}

abbrev pub registered : Option Producers.ProducerEntry → Bool
registered none = false
registered (some e) = true

-- `send` says whether the socket of a producer takes a frame.
unfoldable pub send_assign : (ℕ → Bytes → Bool) → ℕ → Bytes → ProducerRegistry → Bool
send_assign send id frame r = registered (get id r.inner) && send id frame
