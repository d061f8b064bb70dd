-- ===== src/FrozenLevels/Prices.antt =====
-- engine/frozenlevels/prices.go: exact rational prices. A value of big.Rat is a difference of two
-- numbers over a positive denominator, not reduced; every operation is exact, so that reduction
-- changes no comparison. Reading a float as a decimal and projecting back are the arguments
-- `decimal` and `project` of what uses them.
use Prim.Native.Nat.{compare, Ordering}
use heisentick_strat.Prelude.{
  ℕ, Bool, false, if◌then◌else◌, leb, ltb, refl, suc, true, ◌%◌, ◌&&◌, ◌*◌, ◌+◌, ◌-◌, ◌/◌, ◌≡◌,
}

-- (plus - minus) / (den + 1)
pub record Price : Type 0 where
  pub plus : ℕ
  pub minus : ℕ
  pub den : ℕ

-- big.NewInt(n) as a price.
abbrev pub whole : ℕ → Price
whole n = record { plus = n; minus = 0; den = 0 }

unfoldable pub add : Price → Price → Price
add p q = record {
  plus = p.plus * suc q.den + q.plus * suc p.den;
  minus = p.minus * suc q.den + q.minus * suc p.den;
  den = suc p.den * suc q.den - 1;
}

unfoldable pub sub : Price → Price → Price
sub p q = record {
  plus = p.plus * suc q.den + q.minus * suc p.den;
  minus = p.minus * suc q.den + q.plus * suc p.den;
  den = suc p.den * suc q.den - 1;
}

unfoldable pub mul : Price → Price → Price
mul p q = record {
  plus = p.plus * q.plus + p.minus * q.minus;
  minus = p.plus * q.minus + p.minus * q.plus;
  den = suc p.den * suc q.den - 1;
}

-- p.cmp(q), as the order of p and q.
unfoldable pub cmp : Price → Price → Ordering
cmp p q =
    compare (p.plus * suc q.den + q.minus * suc p.den) (q.plus * suc p.den + p.minus * suc q.den)

-- p.sign(), as the order of p and 0.
unfoldable pub sign : Price → Ordering
sign p = compare p.plus p.minus

abbrev pub is_lt : Ordering → Bool
is_lt Ordering.lt = true
is_lt _ = false

abbrev pub is_gt : Ordering → Bool
is_gt Ordering.gt = true
is_gt _ = false

abbrev pub is_eq : Ordering → Bool
is_eq Ordering.eq = true
is_eq _ = false

pub data Direction : Type 0 where
  long short : Direction

-- (a - b) * side; multiplication by -1 exchanges the two parts.
unfoldable pub directed_difference : Price → Price → Direction → Price
unfolding sub
directed_difference a b long = sub a b
directed_difference a b short = sub b a

-- The quotient by a positive price.
unfoldable pub quo : Price → Price → Price
quo p grid = record {
  plus = p.plus * suc grid.den;
  minus = p.minus * suc grid.den;
  den = suc p.den * (grid.plus - grid.minus) - 1;
}

-- QuoRem rounds towards zero; the grid is positive, and `up` adds one over a positive remainder.
unfoldable pub snap : Price → Price → Bool → Price
unfolding quo mul
snap p grid up =
    let scaled = quo p grid in
    if leb scaled.minus scaled.plus
    then (let n = scaled.plus - scaled.minus in
        let q = n / suc scaled.den in
        mul (whole (if up && ltb 0 (n % suc scaled.den) then q + 1 else q)) grid)
    else mul (record { plus = 0; minus = (scaled.minus - scaled.plus) / suc scaled.den; den = 0 })
        grid

-- Decimals compare as their values: 1.05 is below 1.10, and 7/2 on the grid 1/4 stays.
snap_down :
    cmp
      (snap
        (record { plus = 29; minus = 0; den = 7 })
        (record { plus = 1; minus = 0; den = 1 })
        false)
      (record { plus = 7; minus = 0; den = 1 })
    ≡ Ordering.eq
unfolding cmp snap
snap_down = refl
