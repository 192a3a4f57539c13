-- ===== src/Master/Ticks/Runs.antt =====
-- Concrete runs of the tick buffer, and its theorems at concrete inputs.
use cupidmq.Common.{ℕ, ◌≡◌, refl, true, none, List, [], ◌∷◌}
use cupidmq.Master.Producers.ProducerState.{busy}
use cupidmq.Master.Consumers.Phase.{processing}
use cupidmq.Master.Ticks.{deliver, TransferTick, new, push, drain}
use cupidmq.Master.Ticks.Log.{Call, pushes, drains, run, run_log, run-run_log}

abbrev tick_at : ℕ → TransferTick
tick_at t = record {
  ts_ms = t;
  producer_id = 1;
  consumer_id = 2;
  msg_count = 1;
  batch_bytes = 10;
  phase = deliver;
  ok = true;
  fail_message = none;
  producer_state = busy;
  consumer_state = processing;
}

-- The calls of the test `respects_cap`.
abbrev five_ticks : List Call
five_ticks =
    pushes (tick_at 0)
    ∷ pushes (tick_at 1)
    ∷ pushes (tick_at 2)
    ∷ pushes (tick_at 3)
    ∷ pushes (tick_at 4)
    ∷ drains
    ∷ []

respects_cap : run five_ticks (new 3) ≡ (tick_at 2 ∷ tick_at 3 ∷ tick_at 4 ∷ []) ∷ []
unfolding run new push drain
respects_cap = refl

run-run_log_example : run five_ticks (new 3) ≡ run_log five_ticks 3 []
run-run_log_example = run-run_log five_ticks 3
