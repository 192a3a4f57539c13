-- ===== src/Master/Ticks.antt =====
-- master/src/tick_buffer.rs: the bounded buffer of transfer ticks that the dashboard drains.
pub mod Log
mod Runs
use cupidmq.Common.{
  ltb, leb, ◌==◌, if◌then◌else◌, ltb→lt, ltb→le, lt→ltb, le→ltb, le→leb, lt→leb, ==_iff, Bool-cases,
  Option-cases, length, take, drop, get_elem?, All, length-append, take-append-drop, length-take,
  length-drop, take_all, take-append_length, drop-append_length, length-reverse, length-map,
  All-append, All-map, take-min-length, drop-min-length, take-append_le, take-take,
  drop-take-append, take-map, drop-map, u16_mod, u32_mod, u64_mod, usize_max, saturating_add,
  as_u16, as_u32, add_u32, add_u64, sub_u64, Bytes, ℕ, zero, suc, ◌+◌, ◌-◌, ◌*◌, ◌/◌, ◌%◌, ◌^◌, ◌≤◌,
  ◌<◌, min, max, ◌≡◌, refl, sym, ap, ap₂, subst, ◌∙◌, ◌≢◌, ◌↔◌, ◌⊎◌, inl, inr, Bool, true, false,
  not, ◌&&◌, ◌||◌, Option, none, some, List, [], ◌∷◌, ◌++◌, map, reverse, flatten, append-nil,
  append_assoc, map-append, reverse-append, reverse-reverse, reverse-cons, arith,
}
use cupidmq.Master.Producers.{ProducerState}
use cupidmq.Master.Consumers.{Phase}

abbrev pub tick_buffer_cap : ℕ
tick_buffer_cap = 65536

pub data TickPhase : Type 0 where
  assign deliver fail : TickPhase

pub record TransferTick : Type 0 where
  pub ts_ms : ℕ
  pub producer_id : ℕ
  pub consumer_id : ℕ
  pub msg_count : ℕ
  pub batch_bytes : ℕ
  pub phase : TickPhase
  pub ok : Bool
  pub fail_message : Option Bytes
  pub producer_state : ProducerState
  pub consumer_state : Phase

pub record TickBuffer : Type 0 where
  pub inner : List TransferTick
  pub cap : ℕ

-- `cap.clamp(1, TICK_BUFFER_CAP)`
unfoldable pub new : ℕ → TickBuffer
new cap = record { inner = []; cap = min (max cap 1) tick_buffer_cap }

unfoldable pub push : TransferTick → TickBuffer → TickBuffer
push tick b =
    let q = if leb b.cap (length b.inner) then drop 1 b.inner else b.inner in
    record b { inner = q ++ (tick ∷ []) }

unfoldable pub drain : TickBuffer → List TransferTick × TickBuffer
drain b = (b.inner, record b { inner = [] })

unfoldable pub len : TickBuffer → ℕ
len b = length b.inner
