-- ===== src/Prelude/Words.antt =====
-- Go's int64 (and int, on the 64-bit targets the program is built for). The value v stands as
-- v + 2^63, a number below 2^64, so that the order of int64 is the order of ℕ; the wrap-around of
-- every operation is written out.
use Prim.Native.Nat.{ℕ, ◌+◌, ◌-◌, ◌%◌, ◌≤◌, ◌<◌}
use mathlib.Core.Path.{◌≡◌, refl}
use native.Mathlib.Omega.{arith}

abbrev pub Int64 : Type 0
Int64 = ℕ

-- 2 ^ 63, the word of the integer 0.
abbrev pub bias : ℕ
bias = 9223372036854775808

-- 2 ^ 64.
abbrev pub modulus : ℕ
modulus = 18446744073709551616

-- math.MaxInt64.
abbrev pub max_int64 : Int64
max_int64 = 18446744073709551615

-- The words of n and of -n.
abbrev pub int : ℕ → Int64
int n = bias + n

abbrev pub neg : ℕ → Int64
neg n = bias - n

unfoldable pub add64 : Int64 → Int64 → Int64
add64 a b = (a + b + bias) % modulus

unfoldable pub sub64 : Int64 → Int64 → Int64
sub64 a b = (a + (modulus - b) + bias) % modulus

abbrev pub IsWord : Int64 → Type 0
IsWord a = a < modulus

-- Within the range a sum is exact.
pub add64_exact : (a b : Int64) → bias ≤ a + b → a + b < bias + modulus → add64 a b + bias ≡ a + b
unfolding add64
add64_exact a b h k = omega arith

pub sub64_exact :
    (a b : Int64) → IsWord a → IsWord b → b ≤ a + bias → a < b + bias → sub64 a b + b ≡ a + bias
unfolding sub64
sub64_exact a b ha hb h k = omega arith

pub add64-IsWord : (a b : Int64) → IsWord (add64 a b)
unfolding add64
add64-IsWord a b = omega arith

pub sub64-IsWord : (a b : Int64) → IsWord (sub64 a b)
unfolding sub64
sub64-IsWord a b = omega arith

add64_below_zero : add64 (neg 1) (int 1) ≡ int 0
unfolding add64
add64_below_zero = refl

add64_wraps : add64 max_int64 (int 1) ≡ neg bias
unfolding add64
add64_wraps = refl
