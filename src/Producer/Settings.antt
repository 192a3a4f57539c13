-- ===== src/Producer/Settings.antt =====
-- master/src/producer/client.rs: `ProducerConfig` with its builder. `task_config` is the part that the
-- state of the producer is made from.
use cupidmq.Common.{usize_max, ℕ, ◌*◌, ◌≤◌, ◌<◌, max, List, [], ◌∷◌, arith}
use cupidmq.Text.{Text}
use cupidmq.Ring.Invariant.{IsValid, new-IsValid}
use cupidmq.Producer.{ProducerConfig, connect}

abbrev pub default_max_batch_bytes : ℕ
default_max_batch_bytes = 64 * 1024 * 1024

abbrev pub default_flush_timeout_ms : ℕ
default_flush_timeout_ms = 100

abbrev pub default_outbound_max_bytes : ℕ
default_outbound_max_bytes = 4 * 1024 * 1024 * 1024

abbrev pub default_reconnect_delay_secs : ℕ
default_reconnect_delay_secs = 2

abbrev pub default_heartbeat_interval_ms : ℕ
default_heartbeat_interval_ms = 2000

abbrev pub default_delivery_timeout_secs : ℕ
default_delivery_timeout_secs = 8

abbrev pub default_delivery_idle_secs : ℕ
default_delivery_idle_secs = 60

-- `ProducerConfig`
pub record Settings : Type 0 where
  pub master : Text
  pub max_batch_bytes : ℕ
  pub flush_timeout_ms : ℕ
  pub outbound_max_bytes : ℕ
  pub reconnect_delay_secs : ℕ
  pub delivery_timeout_secs : ℕ
  pub delivery_idle_secs : ℕ
  pub heartbeat_interval_ms : ℕ

unfoldable pub new : Text → Settings
new master = record {
  master = master;
  max_batch_bytes = default_max_batch_bytes;
  flush_timeout_ms = default_flush_timeout_ms;
  outbound_max_bytes = default_outbound_max_bytes;
  reconnect_delay_secs = default_reconnect_delay_secs;
  delivery_timeout_secs = default_delivery_timeout_secs;
  delivery_idle_secs = default_delivery_idle_secs;
  heartbeat_interval_ms = default_heartbeat_interval_ms;
}

-- The calls of the builder.
pub data Call : Type 0 where
  batch_bytes flush_timeout outbound_bytes reconnect_delay delivery_timeout delivery_idle
        heartbeat_interval :
      ℕ → Call

unfoldable pub apply : Call → Settings → Settings
apply (batch_bytes bytes) c = record c { max_batch_bytes = max bytes 1 }
apply (flush_timeout ms) c = record c { flush_timeout_ms = max ms 1 }
apply (outbound_bytes bytes) c = record c { outbound_max_bytes = max bytes 1 }
apply (reconnect_delay secs) c = record c { reconnect_delay_secs = max secs 1 }
apply (delivery_timeout secs) c = record c { delivery_timeout_secs = max secs 1 }
apply (delivery_idle secs) c = record c { delivery_idle_secs = max secs 1 }
apply (heartbeat_interval ms) c = record c { heartbeat_interval_ms = max ms 1 }

unfoldable pub build : List Call → Settings → Settings
build [] c = c
build (call ∷ calls) c = build calls (apply call c)

abbrev pub task_config : Settings → ProducerConfig
task_config c = record {
  max_batch_bytes = c.max_batch_bytes;
  flush_timeout_ms = c.flush_timeout_ms;
  outbound_max_bytes = c.outbound_max_bytes;
  reconnect_delay_secs = c.reconnect_delay_secs;
}

-- No wait takes no time, and no limit is 0.
pub record IsPositive (c : Settings) : Type 0 where
  pub max_batch_bytes : 1 ≤ c.max_batch_bytes
  pub flush_timeout_ms : 1 ≤ c.flush_timeout_ms
  pub outbound_max_bytes : 1 ≤ c.outbound_max_bytes
  pub reconnect_delay_secs : 1 ≤ c.reconnect_delay_secs
  pub delivery_timeout_secs : 1 ≤ c.delivery_timeout_secs
  pub delivery_idle_secs : 1 ≤ c.delivery_idle_secs
  pub heartbeat_interval_ms : 1 ≤ c.heartbeat_interval_ms

new-IsPositive : (master : Text) → IsPositive (new master)
unfolding new
new-IsPositive master = omega arith

apply-IsPositive : (call : Call) (c : Settings) → IsPositive c → IsPositive (apply call c)
unfolding apply
apply-IsPositive (batch_bytes n) c v = omega arith
apply-IsPositive (flush_timeout n) c v = omega arith
apply-IsPositive (outbound_bytes n) c v = omega arith
apply-IsPositive (reconnect_delay n) c v = omega arith
apply-IsPositive (delivery_timeout n) c v = omega arith
apply-IsPositive (delivery_idle n) c v = omega arith
apply-IsPositive (heartbeat_interval n) c v = omega arith

build-IsPositive : (calls : List Call) (c : Settings) → IsPositive c → IsPositive (build calls c)
unfolding build
build-IsPositive [] c v = v
build-IsPositive (call ∷ calls) c v =
    build-IsPositive calls (apply call c) (apply-IsPositive call c v)

-- Whatever is called on the builder of a producer, every limit and every wait in its configuration is
-- positive, and the producer that connects with it starts with two valid rings, if the cap of the ring
-- is below the greatest `usize`.
pub build-connect :
    (master : Text) (calls : List Call)
    → (build calls (new master)).outbound_max_bytes < usize_max
    → IsPositive (build calls (new master))
      × IsValid (connect (task_config (build calls (new master)))).pending
      × IsValid (connect (task_config (build calls (new master)))).ring
unfolding connect
build-connect master calls h =
    (build-IsPositive calls (new master) (new-IsPositive master), new-IsValid _ h, new-IsValid _ h)
