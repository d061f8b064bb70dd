-- ===== src/FrozenLevels/Scale.antt =====
-- engine/frozenlevels/scale.go: where the prior open puts a stop. The division of floats, the
-- decimal of a float, the float nearest to a rational and the digest are arguments.
use heisentick_strat.Prelude.{
  Bool, Float, Option, Text, [], bytes, false, if◌then◌else◌, leb, length, ltb, none, not, refl,
  some, suc, text_eq, true, ◌%◌, ◌&&◌, ◌*◌, ◌+◌, ◌-◌, ◌/◌, ◌==◌, ◌||◌, ◌≡◌,
}
use heisentick_strat.FrozenLevels.Prices.{
  Price, whole, add, mul, sign, Direction, directed_difference, is_gt, long, short, snap,
}
use heisentick_strat.FrozenLevels.Calendar.{FrozenOpening, contract_version}
use heisentick_strat.FrozenLevels.Types.{finite_positive}

pub record ScaleLocation : Type 0 where
  pub version : Text
  pub opening_id : Text
  pub divisor : Float
  pub unrounded_distance : Float
  pub cent_distance : Float
  pub stop : Float
  pub grid : Float
  pub rounding : Text

pub data ScaleError : Type 0 where
  invalid_opening_identity invalid_scale_parameters invalid_scale_distance : ScaleError
  nonpositive_scale_stop scale_stop_not_profitable : ScaleError

-- What the primitives call outside this package. `per_3800 x` is x / 3800 and `float_3800` is
-- 3800, as floats.
pub record ScaleLibrary : Type 0 where
  pub decimal : Float → Price
  pub project : Price → Float
  pub opening_identity : FrozenOpening → Text
  pub per_3800 : Float → Float
  pub float_3800 : Float

-- halfEvenInteger(x). QuoRem rounds towards zero, so that a negative x keeps its quotient.
unfoldable pub half_even : Price → Price
half_even x =
    if leb x.minus x.plus
    then (let n = x.plus - x.minus in
        let q = n / suc x.den in
        let r = n % suc x.den in
        whole (if ltb (suc x.den) (2 * r) || (2 * r == suc x.den && q % 2 == 1) then q + 1 else q))
    else record { plus = 0; minus = (x.minus - x.plus) / suc x.den; den = 0 }

-- A number of hundredths.
abbrev pub hundredths : Price → Price
hundredths n = mul n (record { plus = 1; minus = 0; den = 99 })

abbrev pub signed : Price → Direction → Price
signed p long = p
signed p short = record p { plus = p.minus; minus = p.plus }

abbrev pub is_short : Direction → Bool
is_short short = true
is_short long = false

pub data ScaleResult : Type 0 where
  located : ScaleLocation → Price → ScaleResult
  unlocated : ScaleError → ScaleResult

abbrev rounding_name : Text
rounding_name = bytes "decimal-float-quotient-half-even-cents-then-grid-toward-entry"

module _ (lib : ScaleLibrary) where
  -- The distance in cents of an opening price.
  abbrev pub cent_distance : Float → Price
  cent_distance x = hundredths (half_even (mul (lib.decimal (lib.per_3800 x)) (whole 100)))

  abbrev pub raw_stop : FrozenOpening → Float → Direction → Price
  raw_stop f entry side = add (lib.decimal entry) (signed (cent_distance f.opening.price) side)

  -- The last check, on the stop on the grid.
  unfoldable pub place_stop : FrozenOpening → Float → Direction → Float → Price → ScaleResult
  place_stop f entry side grid exact =
      if not (finite_positive (lib.project exact))
        || not (is_gt (sign (directed_difference exact (lib.decimal entry) side)))
      then unlocated scale_stop_not_profitable
      else located
          (record {
            version = contract_version;
            opening_id = f.id;
            divisor = lib.float_3800;
            unrounded_distance = lib.per_3800 f.opening.price;
            cent_distance = lib.project (cent_distance f.opening.price);
            stop = lib.project exact;
            grid = grid;
            rounding = rounding_name;
          })
          exact

  -- priorOpenScaleLocation; no side is a Direction that is neither Long nor Short.
  unfoldable pub prior_open_scale_location :
      FrozenOpening → Float → Option Direction → Float → ScaleResult
  prior_open_scale_location f entry side grid =
      if not (text_eq f.version contract_version)
        || length f.id == 0
        || not (text_eq (lib.opening_identity (record f { id = [] })) f.id)
      then unlocated invalid_opening_identity
      else (elim side [
        | none ↦ unlocated invalid_scale_parameters
        | some side ↦
            if not (finite_positive entry) || not (finite_positive grid)
            then unlocated invalid_scale_parameters
            else if not (finite_positive (lib.per_3800 f.opening.price))
            then unlocated invalid_scale_distance
            else if not (is_gt (sign (raw_stop f entry side)))
            then unlocated nonpositive_scale_stop
            else place_stop f entry side grid
                (snap (raw_stop f entry side) (lib.decimal grid) (is_short side))
      ])

  abbrev without_price : ScaleResult → Option ScaleLocation
  without_price (located l exact) = some l
  without_price (unlocated e) = none

  -- PriorOpenScaleLocation, whose errors are those of priorOpenScaleLocation.
  unfoldable pub public_scale_location :
      FrozenOpening → Float → Option Direction → Float → Option ScaleLocation
  public_scale_location f entry side grid =
      without_price (prior_open_scale_location f entry side grid)

  -- gridSnap
  unfoldable pub grid_snap : Price → Float → Bool → Float
  grid_snap raw grid up = lib.project (snap raw (lib.decimal grid) up)

-- 0.125 * 100 = 12.5 goes to the even 12, and 13.5 to 14.
half_even_down : half_even (record { plus = 25; minus = 0; den = 1 }) ≡ whole 12
unfolding half_even
half_even_down = refl

half_even_up : half_even (record { plus = 27; minus = 0; den = 1 }) ≡ whole 14
unfolding half_even
half_even_up = refl
