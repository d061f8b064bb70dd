-- ===== src/Sequential/Atr.antt =====
-- contextcols/indicators.go, ComputeATR, and engine/family_helpers.go, recentExtreme, on candles.
-- Candles before a bar are listed from the newest.
use heisentick_strat.Prelude.{
  ℕ, Float, List, Option, [], float_lt, float_max, float_min, get_elem?, if◌then◌else◌, leb, nan,
  neg_inf, none, not, pos_inf, some, suc, zero, ◌+◌, ◌-◌, ◌==◌, ◌||◌, ◌∷◌,
}
use heisentick_strat.Broker.Types.{Arithmetic, Candle, Side, long, short, zero_float, float_eq}

-- The built-in max of two floats.
unfoldable pub builtin_max : Float → Float → Float
builtin_max x y =
    if not (float_eq x x) || not (float_eq y y) then nan else if float_lt x y then y else x

module _ (math : Arithmetic) where
  -- The true range after a close.
  unfoldable pub true_range : Float → Candle → Float
  true_range prev_c bar = builtin_max (math.minus bar.h bar.l) (
      builtin_max (math.absolute (math.minus bar.h prev_c))
        (math.absolute (math.minus bar.l prev_c)))

  -- The value that leaves the window: tr[i-length], from the true ranges before i.
  abbrev pub drop_oldest : Float → Option Float → Float
  drop_oldest sum none = sum
  drop_oldest sum (some x) = math.minus sum x

  -- The average at bar i: over `length` bars, or over those there are.
  abbrev pub average : ℕ → ℕ → Float → Float
  average len i sum = math.over sum (math.whole_float (if leb (len - 1) i then len else i + 1))

  -- The loop of ComputeATR from bar i, with the sum and the true ranges so far.
  unfoldable pub atr_from : ℕ → ℕ → Option Candle → Float → List Float → List Candle → List Float
  atr_from len i last sum trs [] = []
  atr_from len i last sum trs (bar ∷ bars) =
      let prev_c : Float = elim last [ none ↦ bar.c | some b ↦ b.c ] in
      let tr = true_range prev_c bar in
      let sum' = drop_oldest (math.plus sum tr) (get_elem? (tr ∷ trs) len) in
      average len i sum' ∷ atr_from len (i + 1) (some bar) sum' (tr ∷ trs) bars

  unfoldable pub compute_atr : List Candle → ℕ → List Float
  compute_atr bars len = atr_from (if len == 0 then 14 else len) 0 none zero_float [] bars

-- The extreme of the last n candles, the current one first.
unfoldable pub recent_low : ℕ → List Candle → Float
recent_low zero past = pos_inf
recent_low (suc n) [] = pos_inf
recent_low (suc n) (bar ∷ older) = float_min (recent_low n older) bar.l

unfoldable pub recent_high : ℕ → List Candle → Float
recent_high zero past = neg_inf
recent_high (suc n) [] = neg_inf
recent_high (suc n) (bar ∷ older) = float_max (recent_high n older) bar.h

unfoldable pub recent_extreme : List Candle → ℕ → Side → Float
recent_extreme past lookback side =
    let n = if lookback == 0 then 1 else lookback in
    elim side [ long ↦ recent_low n past | short ↦ recent_high n past ]
