-- ===== src/Prelude/Int.antt =====
-- The values of a C `int` as integers over the native numbers: return codes, descriptors, counts.
use Prim.Native.Nat.{ℕ, ◌-◌, ◌%◌, ◌^◌, ◌<◌}
use mathlib.Core.Bool.{Bool, true, false}
use native.Mathlib.Omega.{arith}
use nvm_rdma_examples.Prelude.Tests.{ltb, ◌==◌}

-- `negsuc n` is -(n + 1).
pub data ℤ : Type 0 where
  pos : ℕ → ℤ
  negsuc : ℕ → ℤ

abbrev pub minus_one : ℤ
minus_one = negsuc 0

-- `x < 0`
abbrev pub is_neg : ℤ → Bool
is_neg (pos n) = false
is_neg (negsuc n) = true

-- `x == 0`, the success code of most calls
abbrev pub is_zero : ℤ → Bool
is_zero (pos n) = n == 0
is_zero (negsuc n) = false

-- `x == -1`
abbrev pub is_minus_one : ℤ → Bool
is_minus_one (pos n) = false
is_minus_one (negsuc n) = n == 0

-- `n < x` and `x == n` for an unsigned value `n` that was promoted to `int`
abbrev pub lt_int : ℕ → ℤ → Bool
lt_int n (pos m) = ltb n m
lt_int n (negsuc m) = false

abbrev pub eq_int : ℤ → ℕ → Bool
eq_int (pos m) n = m == n
eq_int (negsuc m) n = false

-- The low 32 bits of an integer, in two's complement.
abbrev pub to_u32 : ℤ → ℕ
to_u32 (pos n) = n % 2 ^ 32
to_u32 (negsuc n) = 2 ^ 32 - 1 - n % 2 ^ 32

pub to_u32-lt : (x : ℤ) → to_u32 x < 2 ^ 32
to_u32-lt (pos n) = omega arith
to_u32-lt (negsuc n) = omega arith
