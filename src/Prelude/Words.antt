-- ===== src/Prelude/Words.antt =====
-- Machine words: `u32`, `u64` and what the source does at their ends.
use Prim.Native.Nat.{ℕ, ◌+◌, ◌*◌, ◌%◌, min}
use mathlib.Core.Option.{Option, none, some}
use i_doris.Prelude.Tests.{leb, if◌then◌else◌}

abbrev pub u64_max : ℕ
u64_max = 18446744073709551615

-- `u32` arithmetic wraps.
abbrev pub u32 : ℕ → ℕ
u32 n = n % 4294967296

-- `u64::saturating_add` and `u64::saturating_mul`.
abbrev pub saturating_add : ℕ → ℕ → ℕ
saturating_add a b = min (a + b) u64_max

abbrev pub saturating_mul : ℕ → ℕ → ℕ
saturating_mul a b = min (a * b) u64_max

abbrev pub u128_max : ℕ
u128_max = 340282366920938463463374607431768211455

-- `u128::checked_add`, `checked_mul` and `saturating_add`.
abbrev pub checked_u128 : ℕ → Option ℕ
checked_u128 n = if leb n u128_max then some n else none

abbrev pub checked_add_u128 : ℕ → ℕ → Option ℕ
checked_add_u128 a b = checked_u128 (a + b)

abbrev pub checked_mul_u128 : ℕ → ℕ → Option ℕ
checked_mul_u128 a b = checked_u128 (a * b)

abbrev pub saturating_add_u128 : ℕ → ℕ → ℕ
saturating_add_u128 a b = min (a + b) u128_max
