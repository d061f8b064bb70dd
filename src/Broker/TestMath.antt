-- ===== src/Broker/TestMath.antt =====
-- An arithmetic on small whole numbers, for tests: `fin m k` stands for m - k.
use heisentick_strat.Prelude.{
  Bool, Float, Int64, IsWord, arith, false, fin, if◌then◌else◌, leb, nan, neg_inf, pos_inf, refl,
  true, ◌%◌, ◌&&◌, ◌*◌, ◌+◌, ◌-◌, ◌==◌, ◌≡◌,
}
use heisentick_strat.Broker.Types.{Arithmetic}

unfoldable pub test_plus : Float → Float → Float
test_plus (fin a b) (fin c d) = fin (a + c) (b + d)
test_plus x y = nan

unfoldable pub test_minus : Float → Float → Float
test_minus (fin a b) (fin c d) = fin (a + d) (b + c)
test_minus x y = nan

unfoldable pub test_times : Float → Float → Float
test_times (fin a b) (fin c d) = fin (a * c + b * d) (a * d + b * c)
test_times x y = nan

unfoldable pub test_absolute : Float → Float
test_absolute (fin a b) = if leb b a then fin (a - b) 0 else fin (b - a) 0
test_absolute x = x

-- The quotient is not needed: the dividend stands for it.
unfoldable pub test_over : Float → Float → Float
test_over x y = x

unfoldable pub test_identical : Float → Float → Bool
test_identical nan nan = true
test_identical pos_inf pos_inf = true
test_identical neg_inf neg_inf = true
test_identical (fin a b) (fin c d) = a == c && b == d
test_identical x y = false

unfoldable pub test_to_int64 : Float → Int64
test_to_int64 (fin a b) =
    (9223372036854775808 + a + (18446744073709551616 - b % 18446744073709551616))
    % 18446744073709551616
test_to_int64 x = 0

abbrev pub test_math : Arithmetic
test_math = record {
  plus = test_plus;
  minus = test_minus;
  times = test_times;
  over = test_over;
  absolute = test_absolute;
  whole_float = λ n. fin n 0;
  one_tenth = fin 1 0;
  identical = test_identical;
  to_int64 = test_to_int64;
}

pub test_same : (x : Float) → test_identical x x ≡ true
unfolding test_identical
test_same nan = refl
test_same pos_inf = refl
test_same neg_inf = refl
test_same (fin a b) = ground arith

pub test_to_word : (x : Float) → IsWord (test_to_int64 x)
unfolding test_to_int64
test_to_word nan = omega arith
test_to_word pos_inf = omega arith
test_to_word neg_inf = omega arith
test_to_word (fin a b) = omega arith
