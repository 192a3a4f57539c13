-- ===== src/Common/Words.antt =====
-- Rust's fixed-width unsigned integers over the native numbers: `usize` and `u64` have 64 bits.
-- `a += b` wraps in a release build; `saturating_add` stops at the greatest value.
use Prim.Native.Nat.{ℕ, ◌+◌, ◌-◌, ◌%◌, ◌^◌}
use mathlib.Core.List.{List}
use cupidmq.Common.Tests.{leb, if◌then◌else◌}

abbrev pub u16_mod : ℕ
u16_mod = 2 ^ 16

abbrev pub u32_mod : ℕ
u32_mod = 2 ^ 32

abbrev pub u64_mod : ℕ
u64_mod = 2 ^ 64

abbrev pub usize_max : ℕ
usize_max = 2 ^ 64 - 1

abbrev pub saturating_add : ℕ → ℕ → ℕ
saturating_add a b = if leb (a + b) usize_max then a + b else usize_max

-- `x as u16`, `x as u32`
abbrev pub as_u16 : ℕ → ℕ
as_u16 x = x % u16_mod

abbrev pub as_u32 : ℕ → ℕ
as_u32 x = x % u32_mod

abbrev pub add_u32 : ℕ → ℕ → ℕ
add_u32 a b = (a + b) % u32_mod

abbrev pub add_u64 : ℕ → ℕ → ℕ
add_u64 a b = (a + b) % u64_mod

-- `fetch_sub`, which wraps below 0.
abbrev pub sub_u64 : ℕ → ℕ → ℕ
sub_u64 a b = (a + u64_mod - b) % u64_mod

-- `bytes::Bytes`, a byte string.
abbrev pub Bytes : Type 0
Bytes = List ℕ
