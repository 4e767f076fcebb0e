-- ===== src/Common/Words.antt =====
-- Unsigned 64-bit arithmetic as Rust's integer methods do it. A `u64` is a native number; that it
-- stays below the modulus is stated where it matters.
use Prim.Native.Nat.{ℕ, ◌+◌, ◌-◌, ◌%◌}
use mathlib.Core.Option.{Option, none, some}
use nova_protocol.Common.Tests.{ltb, leb, if◌then◌else◌}

-- `u64::MAX`
abbrev pub u64_max : ℕ
u64_max = 18446744073709551615

-- What an unchecked `+` or `*` stores in a release build.
abbrev pub wrap64 : ℕ → ℕ
wrap64 n = n % 18446744073709551616

-- `u64::checked_add`
abbrev pub checked_add : ℕ → ℕ → Option ℕ
checked_add a b = if leb (a + b) u64_max then some (a + b) else none

-- `u64::checked_sub`
abbrev pub checked_sub : ℕ → ℕ → Option ℕ
checked_sub a b = if ltb a b then none else some (a - b)

-- `u64::saturating_sub`: the subtraction of the native numbers stops at 0 too.
abbrev pub saturating_sub : ℕ → ℕ → ℕ
saturating_sub a b = a - b
