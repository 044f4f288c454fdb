-- ===== src/Base/Int64.antt =====
-- Go's int64 (and int and time.Duration, which have its width): every operation wraps around.
use Prim.Native.Nat.{◌-◌, ◌%◌, ◌^◌, ◌≤◌, ◌<◌}
use mathlib.Core.Path.{◌≡◌}
use native.Mathlib.Omega.{arith}
use oxy.Base.Tests.{ltb, if◌then◌else◌}
use oxy.Base.Int.{ℤ, pos, negsuc, pos_part, neg_part, ◌+ℤ◌, ◌-ℤ◌, ◌*ℤ◌}

-- The value in -2^63 .. 2^63 - 1 that is equal to `a` modulo 2^64.
unfoldable pub wrap64 : ℤ → ℤ
wrap64 (pos n) = let r = n % 2 ^ 64 in if ltb r (2 ^ 63) then pos r else negsuc (2 ^ 64 - r - 1)
wrap64 (negsuc n) = let r = n % 2 ^ 64 in if ltb r (2 ^ 63) then negsuc r else pos (2 ^ 64 - r - 1)

abbrev pub IsInt64 : ℤ → Type 0
IsInt64 a = (pos_part a < 2 ^ 63) × (neg_part a ≤ 2 ^ 63)

unfoldable pub add64 : ℤ → ℤ → ℤ
add64 a b = wrap64 (a +ℤ b)

unfoldable pub sub64 : ℤ → ℤ → ℤ
sub64 a b = wrap64 (a -ℤ b)

unfoldable pub mul64 : ℤ → ℤ → ℤ
mul64 a b = wrap64 (a *ℤ b)

-- The nearest int64, as `Time.Sub` of the time package gives it.
unfoldable pub clamp64 : ℤ → ℤ
clamp64 (pos n) = if ltb n (2 ^ 63) then pos n else pos (2 ^ 63 - 1)
clamp64 (negsuc n) = if ltb n (2 ^ 63) then negsuc n else negsuc (2 ^ 63 - 1)

-- Wrapping always lands in range.
pub wrap64-IsInt64 : (a : ℤ) → IsInt64 (wrap64 a)
unfolding wrap64
wrap64-IsInt64 (pos n) = ground arith
wrap64-IsInt64 (negsuc n) = ground arith

-- In range it changes nothing.
pub wrap64_exact : (a : ℤ) → IsInt64 a → wrap64 a ≡ a
unfolding wrap64
wrap64_exact (pos n) h = ground arith
wrap64_exact (negsuc n) h = ground arith

pub clamp64-IsInt64 : (a : ℤ) → IsInt64 (clamp64 a)
unfolding clamp64
clamp64-IsInt64 (pos n) = ground arith
clamp64-IsInt64 (negsuc n) = ground arith

pub clamp64_exact : (a : ℤ) → IsInt64 a → clamp64 a ≡ a
unfolding clamp64
clamp64_exact (pos n) h = ground arith
clamp64_exact (negsuc n) h = ground arith

pub clamp64-le : (a : ℤ) → pos_part (clamp64 a) ≤ pos_part a
unfolding clamp64
clamp64-le (pos n) = ground arith
clamp64-le (negsuc n) = ground arith

pub add64_exact : (a b : ℤ) → IsInt64 (a +ℤ b) → add64 a b ≡ a +ℤ b
unfolding add64
add64_exact a b h = wrap64_exact _ h

pub sub64_exact : (a b : ℤ) → IsInt64 (a -ℤ b) → sub64 a b ≡ a -ℤ b
unfolding sub64
sub64_exact a b h = wrap64_exact _ h

pub mul64_exact : (a b : ℤ) → IsInt64 (a *ℤ b) → mul64 a b ≡ a *ℤ b
unfolding mul64
mul64_exact a b h = wrap64_exact _ h
