-- ===== src/Base/Words.antt =====
-- Machine words. `u8`, `u16`, `u32`, `u64` and the 64-bit `usize` are native numbers with a bound.
use Prim.Native.Nat.{ℕ, ◌+◌, ◌*◌}
use mathlib.Core.Option.{Option, none, some}
use avail_core.Base.Tests.{leb, if◌then◌else◌}

abbrev pub u16_max : ℕ
u16_max = 65535

abbrev pub u32_max : ℕ
u32_max = 4294967295

abbrev pub usize_max : ℕ
usize_max = 18446744073709551615

-- `T::try_from` into an unsigned type with the largest value `m`
abbrev pub try_from : ℕ → ℕ → Option ℕ
try_from m n = if leb n m then some n else none

abbrev pub checked_add : ℕ → ℕ → ℕ → Option ℕ
checked_add m a b = if leb (a + b) m then some (a + b) else none

abbrev pub checked_mul : ℕ → ℕ → ℕ → Option ℕ
checked_mul m a b = if leb (a * b) m then some (a * b) else none

abbrev pub saturating_add : ℕ → ℕ → ℕ → ℕ
saturating_add m a b = if leb (a + b) m then a + b else m

abbrev pub saturating_mul : ℕ → ℕ → ℕ → ℕ
saturating_mul m a b = if leb (a * b) m then a * b else m
