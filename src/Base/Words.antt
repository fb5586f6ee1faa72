-- ===== src/Base/Words.antt =====
-- The machine's unsigned words: `u8` and `u64` arithmetic wraps.
use Prim.Native.Nat.{ℕ, ◌+◌, ◌-◌, ◌%◌, ◌^◌, ◌≤◌, ◌<◌}
use mathlib.Core.Path.{◌≡◌}
use native.Mathlib.Omega.{arith}

abbrev pub u8_size : ℕ
u8_size = 2 ^ 8

abbrev pub u64_size : ℕ
u64_size = 2 ^ 64

unfoldable pub u8 : ℕ → ℕ
u8 n = n % 2 ^ 8

unfoldable pub u64 : ℕ → ℕ
u64 n = n % 2 ^ 64

-- `a + b` and `a - b` on `u64`
unfoldable pub add64 : ℕ → ℕ → ℕ
add64 a b = (a + b) % 2 ^ 64

unfoldable pub sub64 : ℕ → ℕ → ℕ
sub64 a b = (a + 2 ^ 64 - b) % 2 ^ 64

pub u64-lt : (n : ℕ) → u64 n < u64_size
unfolding u64
u64-lt n = omega arith

pub add64-lt : (a b : ℕ) → add64 a b < u64_size
unfolding add64
add64-lt a b = omega arith

-- Without overflow the words add and subtract as numbers.
pub add64-eq : (a b : ℕ) → a + b < u64_size → add64 a b ≡ a + b
unfolding add64
add64-eq a b h = omega arith

pub sub64-eq : (a b : ℕ) → b ≤ a → a < u64_size → sub64 a b ≡ a - b
unfolding sub64
sub64-eq a b h k = omega arith
