-- ===== src/Accumulator/Runs.antt =====
-- Concrete runs of the accumulator, and its theorems at concrete inputs.
use cupidmq.Common.{Bytes, ℕ, ◌≡◌, refl, some, [], ◌∷◌, ◌++◌, arith}
use cupidmq.Accumulator.{BatchAccumulator, new, push, flush_if_timeout}
use cupidmq.Accumulator.Order.{in_order, in_order-push}
use cupidmq.Accumulator.Bounds.{IsBounded}

abbrev six : ℕ → Bytes
six b = b ∷ b ∷ b ∷ b ∷ b ∷ b ∷ []

abbrev twelve : ℕ → Bytes
twelve b = six b ++ six b

-- An accumulator of ten bytes that holds an item of six.
abbrev holding : BatchAccumulator
holding = record {
  items = six 1 ∷ [];
  bytes = 6;
  max_bytes = 10;
  flush_timeout = 60000;
  opened_at = some 5;
}

holding_runs : push (new 10 60000) (six 1) 5 ≡ ([], holding)
unfolding push new
holding_runs = refl

flush_on_size :
    push holding (six 2) 7
    ≡ ((six 1 ∷ []) ∷ [], record holding { items = six 2 ∷ []; bytes = 6; opened_at = some 7 })
unfolding push
flush_on_size = refl

oversized_item_own_batch : (push holding (twelve 9) 7).0 ≡ (six 1 ∷ []) ∷ (twelve 9 ∷ []) ∷ []
unfolding push
oversized_item_own_batch = refl

flush_by_time : (flush_if_timeout holding 60005).0 ≡ some (six 1 ∷ [])
unfolding flush_if_timeout
flush_by_time = refl

holding-IsBounded : IsBounded holding
holding-IsBounded = ground arith

in_order-push_example : in_order (push holding (twelve 9) 7) ≡ six 1 ∷ twelve 9 ∷ []
in_order-push_example = in_order-push holding (twelve 9) 7
