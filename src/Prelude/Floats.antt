-- ===== src/Prelude/Floats.antt =====
-- Go's float64, as far as the program compares values of it: NaN, the infinities, and the finite
-- values. Every finite float64 is a whole multiple of 2^-1074, and `fin m k` is (m - k) * 2^-1074;
-- the two zeros are one value, as for every comparison.
use Prim.Native.Nat.{ℕ, ◌+◌}
use mathlib.Core.Path.{◌≡◌}
use mathlib.Core.Bool.{Bool, true, false, ◌||◌}
use native.Mathlib.Omega.{arith}
use heisentick_strat.Prelude.Tests.{ltb, leb, if◌then◌else◌}

pub data Float : Type 0 where
  nan pos_inf neg_inf : Float
  fin : ℕ → ℕ → Float

-- x < y; false where either is NaN.
unfoldable pub float_lt : Float → Float → Bool
float_lt (fin a b) (fin c d) = ltb (a + d) (c + b)
float_lt (fin a b) pos_inf = true
float_lt neg_inf (fin a b) = true
float_lt neg_inf pos_inf = true
float_lt _ _ = false

-- x <= y; false where either is NaN.
unfoldable pub float_le : Float → Float → Bool
float_le nan y = false
float_le (fin a b) (fin c d) = leb (a + d) (c + b)
float_le (fin a b) pos_inf = true
float_le neg_inf (fin a b) = true
float_le neg_inf pos_inf = true
float_le neg_inf neg_inf = true
float_le pos_inf pos_inf = true
float_le _ _ = false

-- !math.IsNaN(v) && !math.IsInf(v, 0)
unfoldable pub is_finite : Float → Bool
is_finite (fin a b) = true
is_finite _ = false

is_nan : Float → Bool
is_nan nan = true
is_nan _ = false

is_pos_inf : Float → Bool
is_pos_inf pos_inf = true
is_pos_inf _ = false

is_neg_inf : Float → Bool
is_neg_inf neg_inf = true
is_neg_inf _ = false

-- math.Min and math.Max, with their special cases in the documented order.
unfoldable pub float_min : Float → Float → Float
unfolding is_nan is_neg_inf
float_min x y =
    if is_neg_inf x || is_neg_inf y
    then neg_inf
    else if is_nan x || is_nan y
    then nan
    else if float_lt x y
    then x
    else y

unfoldable pub float_max : Float → Float → Float
unfolding is_nan is_pos_inf
float_max x y =
    if is_pos_inf x || is_pos_inf y
    then pos_inf
    else if is_nan x || is_nan y
    then nan
    else if float_lt y x
    then x
    else y

-- A value is not on both sides of another.
pub float_lt_asymm : (x y : Float) → float_lt x y ≡ true → float_lt y x ≡ false
unfolding float_lt
float_lt_asymm x y h = ground arith
