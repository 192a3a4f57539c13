-- ===== src/Consumer/Settings.antt =====
-- master/src/consumer/client.rs: `ConsumerConfig` with its builder, and the addresses in it. The texts
-- are lists of characters.
pub mod Builder
mod Runs
use cupidmq.Common.{
  ltb, leb, ◌==◌, if◌then◌else◌, ltb→lt, ltb→le, lt→ltb, le→ltb, le→leb, lt→leb, ==_iff, Bool-cases,
  Option-cases, length, take, drop, get_elem?, All, length-append, take-append-drop, length-take,
  length-drop, take_all, take-append_length, drop-append_length, length-reverse, length-map,
  All-append, All-map, take-min-length, drop-min-length, take-append_le, take-take,
  drop-take-append, take-map, drop-map, u16_mod, u32_mod, u64_mod, usize_max, saturating_add,
  as_u16, as_u32, add_u32, add_u64, sub_u64, Bytes, ℕ, zero, suc, ◌+◌, ◌-◌, ◌*◌, ◌/◌, ◌%◌, ◌^◌, ◌≤◌,
  ◌<◌, min, max, ◌≡◌, refl, sym, ap, ap₂, subst, ◌∙◌, ◌≢◌, ◌↔◌, ◌⊎◌, inl, inr, Bool, true, false,
  not, ◌&&◌, ◌||◌, Option, none, some, List, [], ◌∷◌, ◌++◌, map, reverse, flatten, append-nil,
  append_assoc, map-append, reverse-append, reverse-reverse, reverse-cons, arith,
}
use cupidmq.Text.{Text, codes, is_empty, rsplit_once, parse_uint}

abbrev pub default_max_batch_size_count : ℕ
default_max_batch_size_count = 32

abbrev pub default_prefetch_batch_count : ℕ
default_prefetch_batch_count = 4

abbrev pub default_batch_timeout_secs : ℕ
default_batch_timeout_secs = 10

abbrev pub default_data_idle_secs : ℕ
default_data_idle_secs = 60

abbrev pub default_reconnect_delay_secs : ℕ
default_reconnect_delay_secs = 2

pub data Refusal : Type 0 where
  no_port no_host bad_port no_master no_data_addr : Refusal

pub data Checked {ℓ} (A : Type ℓ) : Type ℓ where
  accepted : A → Checked A
  refused : Refusal → Checked A

abbrev pub port_of : Text → Option ℕ → Checked (Text × ℕ)
port_of host none = refused bad_port
port_of host (some port) = accepted (host, port)

abbrev pub host_port_of : Option (Text × Text) → Checked (Text × ℕ)
host_port_of none = refused no_port
host_port_of (some (host, port_s)) =
    if is_empty host then refused no_host else port_of host (parse_uint u16_mod port_s)

unfoldable pub parse_host_port : Text → Checked (Text × ℕ)
parse_host_port addr = host_port_of (rsplit_once b':' addr)

abbrev pub or_default_port : Text → Checked (Text × ℕ) → Checked (Text × ℕ)
or_default_port addr (accepted p) = accepted p
or_default_port addr (refused e) = accepted (addr, 9750)

unfoldable pub parse_master_addr : Text → Checked (Text × ℕ)
parse_master_addr addr = or_default_port addr (parse_host_port addr)

-- `ConsumerConfig`
pub record Settings : Type 0 where
  pub master : Text
  pub data_addr : Text
  pub bind_addr : Option Text
  pub consumer_tag : Text
  pub max_batch_size_count : ℕ
  pub prefetch_batch_count : ℕ
  pub batch_timeout_secs : ℕ
  pub data_idle_secs : ℕ
  pub reconnect : Bool
  pub reconnect_delay_secs : ℕ

-- What a checked address lets through.
abbrev pub checked {ℓ κ} : {A : Type ℓ} {B : Type κ} → Checked A → B → Checked B
checked (accepted a) b = accepted b
checked (refused e) b = refused e

unfoldable pub new : Text → Text → Checked Settings
new master data_addr =
    if is_empty master
    then refused no_master
    else if is_empty data_addr
    then refused no_data_addr
    else checked (parse_host_port data_addr) (record {
      master = master;
      data_addr = data_addr;
      bind_addr = none;
      consumer_tag = [];
      max_batch_size_count = default_max_batch_size_count;
      prefetch_batch_count = default_prefetch_batch_count;
      batch_timeout_secs = default_batch_timeout_secs;
      data_idle_secs = default_data_idle_secs;
      reconnect = true;
      reconnect_delay_secs = default_reconnect_delay_secs;
    })

unfoldable pub with_bind_addr : Text → Settings → Checked Settings
with_bind_addr addr c = checked (parse_host_port addr) (record c { bind_addr = some addr })

unfoldable pub with_consumer_tag : Text → Settings → Settings
with_consumer_tag tag c = record c { consumer_tag = tag }

unfoldable pub with_max_batch_size_count : ℕ → Settings → Settings
with_max_batch_size_count max_items c = record c { max_batch_size_count = max_items }

unfoldable pub with_prefetch_batch_count : ℕ → Settings → Settings
with_prefetch_batch_count count c = record c { prefetch_batch_count = max count 1 }

unfoldable pub with_batch_timeout_secs : ℕ → Settings → Settings
with_batch_timeout_secs secs c = record c { batch_timeout_secs = max secs 1 }

unfoldable pub with_data_idle_secs : ℕ → Settings → Settings
with_data_idle_secs secs c = record c { data_idle_secs = max secs 1 }

unfoldable pub with_reconnect : Bool → Settings → Settings
with_reconnect on c = record c { reconnect = on }

unfoldable pub with_reconnect_delay_secs : ℕ → Settings → Settings
with_reconnect_delay_secs secs c = record c { reconnect_delay_secs = max secs 1 }

abbrev pub any_host : Checked (Text × ℕ) → Checked (Text × ℕ)
any_host (accepted (host, port)) = accepted (codes "0.0.0.0", port)
any_host (refused e) = refused e

abbrev pub bind_or : Text → Option Text → Checked (Text × ℕ)
bind_or data_addr (some bind) = parse_host_port bind
bind_or data_addr none = any_host (parse_host_port data_addr)

unfoldable pub resolve_bind : Settings → Checked (Text × ℕ)
resolve_bind c = bind_or c.data_addr c.bind_addr
