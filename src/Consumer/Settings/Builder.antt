-- ===== src/Consumer/Settings/Builder.antt =====
-- Whatever is called on the builder of a consumer's configuration, what comes out can be run.
use cupidmq.Common.{u16_mod, ℕ, ◌≤◌, ◌<◌, ◌≡◌, Bool, false, some, List, [], ◌∷◌}
use cupidmq.Text.{Text, is_empty}
use cupidmq.Consumer.Settings.{
  Checked, accepted, refused, parse_host_port, Settings, with_bind_addr, with_consumer_tag,
  with_max_batch_size_count, with_prefetch_batch_count, with_batch_timeout_secs,
  with_data_idle_secs, with_reconnect, with_reconnect_delay_secs,
}

-- The calls of the builder. One that takes an address may refuse it.
pub data Call : Type 0 where
  bind_to : Text → Call
  tag : Text → Call
  max_batch prefetch batch_timeout data_idle delay : ℕ → Call
  reconnects : Bool → Call

unfoldable pub apply : Call → Settings → Checked Settings
apply (bind_to addr) c = with_bind_addr addr c
apply (tag t) c = accepted (with_consumer_tag t c)
apply (max_batch n) c = accepted (with_max_batch_size_count n c)
apply (prefetch n) c = accepted (with_prefetch_batch_count n c)
apply (batch_timeout n) c = accepted (with_batch_timeout_secs n c)
apply (data_idle n) c = accepted (with_data_idle_secs n c)
apply (delay n) c = accepted (with_reconnect_delay_secs n c)
apply (reconnects on) c = accepted (with_reconnect on c)

-- A chain of calls, each with `?`.
unfoldable pub build : List Call → Checked Settings → Checked Settings
build [] c = c
build (call ∷ calls) (refused e) = refused e
build (call ∷ calls) (accepted c) = build calls (apply call c)

abbrev pub IsAddress : Text → Type 0
IsAddress addr =
    (host : Text) × (port : ℕ) × (parse_host_port addr ≡ accepted (host, port))
    × (is_empty host ≡ false)
    × (port < u16_mod)

-- Every wait takes some time, the channel has room, and the consumer can bind its socket.
pub record IsRunnable (c : Settings) : Type 0 where
  pub prefetch : 1 ≤ c.prefetch_batch_count
  pub timeout : 1 ≤ c.batch_timeout_secs
  pub idle : 1 ≤ c.data_idle_secs
  pub delay : 1 ≤ c.reconnect_delay_secs
  pub address : IsAddress c.data_addr
  pub bound : (addr : Text) → c.bind_addr ≡ some addr → IsAddress addr
