-- ===== src/Word.antt =====
-- Machine words as native numbers: `size_t` and `uint64_t` arithmetic, which wraps at 2 ^ 64, and
-- the laws of `/` and `%` that shifts and masks come down to.
use xallib.Prelude.{ℕ, zero, suc, ◌+◌, ◌-◌, ◌*◌, ◌/◌, ◌%◌, ◌^◌, ◌<◌, ◌≡◌, arith}
use native.Mathlib.Nat.{pow-suc, add-zero, add-suc, mul_assoc}

abbrev pub size_mod : ℕ
size_mod = 2 ^ 64

abbrev pub mul_size : ℕ → ℕ → ℕ
mul_size a b = a * b % size_mod

abbrev pub add_size : ℕ → ℕ → ℕ
add_size a b = (a + b) % size_mod

abbrev pub uint32_max : ℕ
uint32_max = 2 ^ 32 - 1

abbrev pub sub_size : ℕ → ℕ → ℕ
sub_size a b = (a + size_mod - b % size_mod) % size_mod

-- `x >> k`, `x << k` in 64 bits, and `x & ((1 << k) - 1)`
abbrev pub shr : ℕ → ℕ → ℕ
shr x k = x / 2 ^ k

abbrev pub shl : ℕ → ℕ → ℕ
shl x k = x * 2 ^ k % size_mod

abbrev pub low_bits : ℕ → ℕ → ℕ
low_bits x k = x % 2 ^ k

pub two_pow_pos : (k : ℕ) → 0 < 2 ^ k
two_pow_pos zero = omega arith
two_pow_pos (suc k) = rw pow-suc (omega (arith, two_pow_pos k))

pub pow-add : (i k : ℕ) → 2 ^ (i + k) ≡ 2 ^ i * 2 ^ k
pow-add i zero = rw add-zero (omega arith)
pow-add i (suc k) =
    rw (add-suc, pow-suc, pow-suc, pow-add i k) (omega (arith, mul_assoc (2 ^ i) (2 ^ k) 2))

-- Quotient and remainder of a number written in the base `c`.
pub base_div : (q b c : ℕ) → b < c → (q * c + b) / c ≡ q
base_div q b c h = grind arith

pub base_mod : (q b c : ℕ) → b < c → (q * c + b) % c ≡ b
base_mod q b c h = grind arith

pub mul_size_exact : (a b : ℕ) → a * b < size_mod → mul_size a b ≡ a * b
mul_size_exact a b h = omega arith

pub mul-div_cancel : (a b : ℕ) → 0 < b → a * b / b ≡ a
mul-div_cancel a b h = grind arith
