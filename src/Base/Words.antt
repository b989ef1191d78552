-- ===== src/Base/Words.antt =====
-- uint64_t as numbers below 2 ^ 64, and the casts that the sources make.
use Prim.Native.Nat.{ℕ, ◌+◌, ◌-◌, ◌%◌, ◌^◌}
use mathlib.Core.Bool.{Bool, ◌&&◌, ◌||◌}
use ddbms.Base.Tests.{ltb, leb, if◌then◌else◌}

abbrev pub u64 : ℕ → ℕ
u64 x = x % 2 ^ 64

-- a - b
abbrev pub sub64 : ℕ → ℕ → ℕ
sub64 a b = (a + 2 ^ 64 - b) % 2 ^ 64

-- int64_t(x) > k, for a small k
abbrev pub signed64_gt : ℕ → ℕ → Bool
signed64_gt x k = ltb x (2 ^ 63) && ltb k x

-- int(x) <= k, for a small k: a cast to 32 bits
abbrev pub signed32_le : ℕ → ℕ → Bool
signed32_le x k = leb (2 ^ 31) (x % 2 ^ 32) || leb (x % 2 ^ 32) k

-- x < y for int32_t
abbrev pub signed32_lt : ℕ → ℕ → Bool
signed32_lt x y = ltb ((x + 2 ^ 31) % 2 ^ 32) ((y + 2 ^ 31) % 2 ^ 32)

-- The cast of an int to int64_t.
abbrev pub sign_extend : ℕ → ℕ
sign_extend x = if ltb x (2 ^ 31) then x else x + 2 ^ 64 - 2 ^ 32
