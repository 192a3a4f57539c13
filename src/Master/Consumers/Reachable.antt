-- ===== src/Master/Consumers/Reachable.antt =====
-- Every registry of consumers that the master can reach has an index that knows the assignments.
use cupidmq.Common.{◌≤◌, length, Bytes, ℕ, Bool, List, [], ◌∷◌}
use cupidmq.Protocol.Control.{u16_max}
use cupidmq.Master.Store.{get}
use cupidmq.Master.Consumers.{
  Floats, Phase, ConsumerRegistry, new, register, remove_consumer, set_unacked, begin_cycle,
  mark_awaiting_batch, release_stale_assignments, set_phase, finish_batch,
}
use cupidmq.Master.Consumers.Assignments.{
  IsIndexed, begin_cycle-IsIndexed, finish_batch-IsIndexed, set_phase-IsIndexed,
  mark_awaiting_batch-IsIndexed, set_unacked-IsIndexed, remove_consumer-IsIndexed,
  register-IsIndexed,
}
use cupidmq.Master.Consumers.Release.{release_stale_assignments-IsIndexed}

-- The operations that the server and the matchmaker call.
pub data Operation : Type 0 where
  registers : Bytes → Bytes → ℕ → Operation
  removes : ℕ → Operation
  begins : ℕ → ℕ → Bytes → ℕ → Operation
  marks : ℕ → ℕ → Operation
  releases : ℕ → ℕ → Operation
  phases : ℕ → Phase → Operation
  finishes : ℕ → ℕ → ℕ → ℕ → Bool → Operation
  unacks : ℕ → ℕ → Operation

-- The texts of an ASGN: at most 65535 bytes, and a data address that is not empty.
abbrev pub IsTag : Bytes → Type 0
IsTag tag = length tag ≤ u16_max

abbrev pub IsDataAddr : Bytes → Type 0
IsDataAddr addr = (1 ≤ length addr) × (length addr ≤ u16_max)

-- The texts that a call brings fit an ASGN.
abbrev pub Fits : Operation → Type 0
Fits (registers addr data_addr now) = IsDataAddr data_addr
Fits (begins id max_items consumer_tag ts_ms) = IsTag consumer_tag
Fits _ = Unit

module _ {F : Type 0} where
  abbrev pub apply : Floats F → (ℕ → Bytes) → Operation → ConsumerRegistry F → ConsumerRegistry F
  apply fl tag (registers addr data_addr now) r = (register fl tag addr data_addr now r).1
  apply fl tag (removes id) r = remove_consumer id r
  apply fl tag (begins id max_items consumer_tag ts_ms) r =
      begin_cycle fl id max_items consumer_tag ts_ms r
  apply fl tag (marks id producer_id) r = mark_awaiting_batch id producer_id r
  apply fl tag (releases producer_id keep) r = release_stale_assignments producer_id keep r
  apply fl tag (phases id state) r = set_phase id state r
  apply fl tag (finishes id msg_count batch_bytes ts_ms empty) r =
      finish_batch fl id msg_count batch_bytes ts_ms empty r
  apply fl tag (unacks id unacked) r = set_unacked id unacked r

  -- The registry after a sequence of calls.
  unfoldable pub run :
      Floats F → (ℕ → Bytes) → List Operation → ConsumerRegistry F → ConsumerRegistry F
  run fl tag [] r = r
  run fl tag (op ∷ ops) r = run fl tag ops (apply fl tag op r)

  pub apply-IsIndexed :
      (fl : Floats F) (tag : ℕ → Bytes) (op : Operation) (r : ConsumerRegistry F)
      → IsIndexed r
      → IsIndexed (apply fl tag op r)
  apply-IsIndexed fl tag (registers addr data_addr now) r v =
      register-IsIndexed fl tag addr data_addr now r v
  apply-IsIndexed fl tag (removes id) r v = remove_consumer-IsIndexed id r v
  apply-IsIndexed fl tag (begins id max_items consumer_tag ts_ms) r v =
      begin_cycle-IsIndexed fl id max_items consumer_tag ts_ms r v
  apply-IsIndexed fl tag (marks id producer_id) r v =
      mark_awaiting_batch-IsIndexed id producer_id r v
  apply-IsIndexed fl tag (releases producer_id keep) r v =
      release_stale_assignments-IsIndexed producer_id keep r v
  apply-IsIndexed fl tag (phases id state) r v = set_phase-IsIndexed id state r v
  apply-IsIndexed fl tag (finishes id msg_count batch_bytes ts_ms empty) r v =
      finish_batch-IsIndexed fl id msg_count batch_bytes ts_ms empty r v
  apply-IsIndexed fl tag (unacks id unacked) r v = set_unacked-IsIndexed id unacked r v

  run_keeps :
      (fl : Floats F) (tag : ℕ → Bytes) (ops : List Operation) (r : ConsumerRegistry F)
      → IsIndexed r
      → IsIndexed (run fl tag ops r)
  unfolding run
  run_keeps fl tag [] r v = v
  run_keeps fl tag (op ∷ ops) r v = run_keeps fl tag ops _ (apply-IsIndexed fl tag op r v)

  pub new-IsIndexed : IsIndexed (new {F = F})
  unfolding new get
  new-IsIndexed c e found p k = cc

  -- After any sequence of the calls that the server and the matchmaker make, every consumer with an
  -- assignment is in the state `awaiting_batch`, and the index has it under its producer.
  pub run-IsIndexed :
      (fl : Floats F) (tag : ℕ → Bytes) (ops : List Operation) → IsIndexed (run fl tag ops new)
  run-IsIndexed fl tag ops = run_keeps fl tag ops new new-IsIndexed
