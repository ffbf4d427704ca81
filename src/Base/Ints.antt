-- ===== src/Base/Ints.antt =====
-- Signed numbers over the native ones, and the machine words that hold them.
use Prim.Native.Nat.{ℕ, ◌-◌, ◌%◌, ◌^◌, ◌<◌}
use mathlib.Core.Path.{◌≡◌}
use mathlib.Core.Bool.{Bool, true, false}
use native.Mathlib.Omega.{arith}
use geoverse_map_server.Base.Tests.{ltb, if◌then◌else◌}

-- `negsuc n` is `- (n + 1)`.
pub data ℤ : Type 0 where
  pos : ℕ → ℤ
  negsuc : ℕ → ℤ

-- `a < b`
abbrev pub ltz : ℤ → ℤ → Bool
ltz (pos a) (pos b) = ltb a b
ltz (pos a) (negsuc b) = false
ltz (negsuc a) (pos b) = true
ltz (negsuc a) (negsuc b) = ltb b a

-- The part of a number above 0: what Go's `n > 0` guards let through.
abbrev pub to_ℕ : ℤ → ℕ
to_ℕ (pos n) = n
to_ℕ (negsuc n) = 0

-- The value of the low 64 bits of a natural number, as `int64` reads them.
abbrev pub int64 : ℕ → ℤ
int64 n =
    let low : ℕ = n % 2 ^ 64 in if ltb low (2 ^ 63) then pos low else negsuc (2 ^ 64 - 1 - low)

pub int64-small : (n : ℕ) → n < 2 ^ 63 → int64 n ≡ pos n
int64-small n h = ground arith
