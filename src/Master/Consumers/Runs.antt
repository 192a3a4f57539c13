-- ===== src/Master/Consumers/Runs.antt =====
-- Concrete runs of the registry of consumers, and its theorems at concrete inputs. Whole numbers stand
-- for the floating-point ones.
use cupidmq.Common.{
  ◌==◌, Bytes, ℕ, ◌+◌, ◌*◌, ◌/◌, ◌≡◌, refl, ◌≢◌, none, some, List, [], ◌∷◌, ◌++◌, arith,
}
use cupidmq.Master.Store.{get, remove, insert, alter, member, without}
use cupidmq.Master.Consumers.{
  Floats, idle, ConsumerEntry, ConsumerRegistry, track_awaiting, without_all, new, assigned_of,
  register, begin_cycle, mark_awaiting_batch, release_each, release_stale_assignments,
}
use cupidmq.Master.Consumers.Release.{release_stale_assignments_lem}
use cupidmq.Master.Consumers.Reachable.{Operation, registers, begins, marks, run, run-IsIndexed}

abbrev whole : Floats ℕ
whole = record {
  zero_f64 = 0;
  as_f64 = λ n. n;
  at_most_zero = λ n. n == 0;
  smooth = λ ema sample. (ema * 4 + sample) / 5;
}

abbrev tag_text : ℕ → Bytes
tag_text id = b'c' ∷ id ∷ []

-- Two consumers ask for a batch, and the producer 7 is assigned to the first.
abbrev calls : List Operation
calls =
    registers (1 ∷ []) (2 ∷ []) 5
    ∷ registers (3 ∷ []) (4 ∷ []) 6
    ∷ begins 1 32 [] 10
    ∷ begins 2 32 [] 11
    ∷ marks 1 7
    ∷ []

assigned_first : assigned_of (get 1 (run whole tag_text calls new).inner) ≡ some 7
unfolding run new register begin_cycle mark_awaiting_batch get insert remove alter
assigned_first = refl

-- The producer 7 goes to the second consumer, so that the first no longer awaits it.
abbrev reassigned : List Operation
reassigned = calls ++ (marks 2 7 ∷ [])

abbrev before : ConsumerRegistry ℕ
before = run whole tag_text reassigned new

released_first : assigned_of (get 1 (release_stale_assignments 7 2 before).inner) ≡ none
unfolding run new register begin_cycle mark_awaiting_batch get insert remove alter
    release_stale_assignments release_each without_all without member track_awaiting
released_first = refl

abbrev first : ConsumerEntry ℕ
first = record {
  consumer_tag = b'c' ∷ 1 ∷ [];
  addr = 1 ∷ [];
  data_addr = 2 ∷ [];
  connected_at = 5;
  rate_batches = 0;
  rate_bytes = 0;
  unacked = 0;
  last_batch_items = 0;
  last_batch_bytes = 0;
  state = idle;
  max_batch_requested = 32;
  batch_items_ema = 0;
  process_time_ema_ms = 0;
  last_batch_delivered_ms = 0;
  assigned_producer_id = none;
}

first_found : get 1 (release_stale_assignments 7 2 before).inner ≡ some first
unfolding run new register begin_cycle mark_awaiting_batch get insert remove alter
    release_stale_assignments release_each without_all without member track_awaiting
first_found = refl

release_stale_assignments_example : first.assigned_producer_id ≢ some 7
release_stale_assignments_example =
    release_stale_assignments_lem 7 2 before (run-IsIndexed whole tag_text reassigned) 1 first
      first_found (λ h. omega (arith, h))
