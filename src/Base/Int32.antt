-- ===== src/Base/Int32.antt =====
-- Values of int32_t, by their last 32 bits.
use Prim.Native.Nat.{ℕ, ◌+◌, ◌-◌, ◌%◌, ◌^◌, ◌<◌}
use mathlib.Core.Path.{◌≡◌}
use native.Mathlib.Omega.{arith}
use tkrzw.Base.Tests.{ltb, if◌then◌else◌}

-- An int32_t with these last 32 bits, as the 64 bits of a size_t.
abbrev pub from_int32 : ℕ → ℕ
from_int32 n = let low = n % 2 ^ 32 in if ltb low (2 ^ 31) then low else low + (2 ^ 64 - 2 ^ 32)

pub from_int32_lem : (n : ℕ) → n < 2 ^ 31 → from_int32 n ≡ n
from_int32_lem n h = ground arith
