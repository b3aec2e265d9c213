-- ===== src/Word.antt =====
-- The 64-bit words of the kernel: a `uint64_t` is a natural number below 2 ^ 64, and an operator of
-- C keeps its wrap-around written out.
pub mod Step
pub mod Laws
pub mod Lowest
pub mod Masks
use rtv.Base.{ℕ, zero, suc, ◌+◌, ◌-◌, ◌*◌, ◌/◌, ◌%◌, ◌^◌, Bool, ◌==◌}

abbrev pub u64 : ℕ → ℕ
u64 n = n % 2 ^ 64

abbrev pub uint64_max : ℕ
uint64_max = 2 ^ 64 - 1

-- `x >> k`
abbrev pub shr : ℕ → ℕ → ℕ
shr x k = x / 2 ^ k

-- `x << k` in a `uint64_t`
abbrev pub shl64 : ℕ → ℕ → ℕ
shl64 x k = u64 (x * 2 ^ k)

-- `~x`
abbrev pub not64 : ℕ → ℕ
not64 x = uint64_max - x

-- `-x`
abbrev pub neg64 : ℕ → ℕ
neg64 x = u64 (2 ^ 64 - x)

-- `a - b` in a `uint64_t`
abbrev pub sub64 : ℕ → ℕ → ℕ
sub64 a b = u64 (a + 2 ^ 64 - b)

-- Digit `i` of the binary numeral, the reading of a word that the theorems speak of.
unfoldable pub bit : ℕ → ℕ → Bool
bit w zero = w % 2 == 1
bit w (suc i) = bit (w / 2) i
