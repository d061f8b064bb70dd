-- ===== src/Sequential/Fill.antt =====
-- engine/sequential_execution.go, fill: the bracket and the size of an opportunity at the open of a
-- bar, and the position that it opens.
use heisentick_strat.Prelude.{
  ℕ, Bool, Float, List, Option, Text, [], bytes, false, float_le, float_lt, float_min, get_elem?,
  if◌then◌else◌, is_finite, none, not, pos_inf, some, suc, true, zero, ◌++◌, ◌>>=◌, ◌||◌, ◌∷◌,
}
use heisentick_strat.Broker.Types.{
  Arithmetic, Candle, Costs, Order, Side, float_eq, long, number, short, words, zero_float,
}
use heisentick_strat.Broker.Ledger.{side_float}
use heisentick_strat.Broker.Execution.{open_position, slippage_at}
use heisentick_strat.Sequential.Types.{
  Scheduler, ErrorField, ExecutionError, Opportunity, Refusal, Spec, fill_bracket, fill_field,
  filled, invalid_sequential_derived_value, notional_or_entry_fee, rejected, size_bound, size_field,
  stop_breached_at_entry,
}

-- The opportunity at an index is replaced.
unfoldable pub set_at {ℓ} : {A : Type ℓ} → ℕ → A → List A → List A
set_at k y [] = []
set_at zero y (x ∷ xs) = y ∷ xs
set_at (suc k) y (x ∷ xs) = x ∷ set_at k y xs

abbrev pub put : Scheduler → ℕ → Opportunity → Scheduler
put s index o = record s { opportunities = set_at index o s.opportunities }

abbrev pub rejected_as : Refusal → Opportunity → Opportunity
rejected_as reason o = record o { status = rejected; reason = reason }

-- reject; none is an index out of range.
unfoldable pub reject : Scheduler → ℕ → Refusal → Option Scheduler
reject s index reason =
    get_elem? s.opportunities index >>= λ o. some (put s index (rejected_as reason o))

-- derivedError
abbrev pub derived_error : ErrorField → ℕ → Text → ExecutionError
derived_error field i id = record {
  kind = invalid_sequential_derived_value;
  field = field;
  bar_index = some i;
  opportunity_id = id;
}

-- A bracket and a size that were computed.
pub record Bracket : Type 0 where
  pub fill : Float
  pub target : Float
  pub distance : Float
  pub size : Float
  pub cap_binds : Bool

pub data Plan : Type 0 where
  fault : ErrorField → Plan
  wrong_side : Plan
  plan : Bracket → Plan

-- math.IsNaN(x) || x <= 0
abbrev pub not_positive : Float → Bool
not_positive x = not (float_eq x x) || float_le x zero_float

abbrev pub stop_breached : Side → Float → Float → Bool
stop_breached long stop fill = float_le fill stop
stop_breached short stop fill = float_le stop fill

module _ (math : Arithmetic) where
  unfoldable pub slipped : Costs → Side → Float → Float
  slipped costs side base =
      math.plus base (math.times (side_float math side) (slippage_at math costs base))

  -- The target at twice the distance; where that overflows, the distance is added twice.
  unfoldable pub target_at : Side → Float → Float → Float
  target_at side fill distance =
      let twice_risk = math.times (math.whole_float 2) distance in
      let one_risk = math.times (side_float math side) distance in
      if float_eq twice_risk pos_inf
      then math.plus (math.plus fill one_risk) one_risk
      else math.plus fill (math.times (side_float math side) twice_risk)

  unfoldable pub cap_size : Spec → Float → Float
  cap_size spec fill =
      if float_eq fill zero_float
      then pos_inf
      else math.over spec.max_notional_usd (math.absolute fill)

  abbrev pub bracket_of : Spec → Side → Float → Float → Bracket
  bracket_of spec side fill stop =
      let distance = math.absolute (math.minus fill stop) in
      let risk_size = math.over spec.risk_usd distance in
      record {
        fill = fill;
        target = target_at side fill distance;
        distance = distance;
        size = float_min risk_size (cap_size spec fill);
        cap_binds = float_lt (cap_size spec fill) risk_size;
      }

  -- The checks of fill in their order.
  unfoldable pub plan_fill : Spec → Costs → Side → Float → Float → Plan
  plan_fill spec costs side stop base =
      let fill = slipped costs side base in
      let b = bracket_of spec side fill stop in
      if not (is_finite fill)
      then fault fill_field
      else if stop_breached side stop fill
      then wrong_side
      else if not (is_finite b.distance) || float_le b.distance zero_float
      then fault fill_bracket
      else if not (is_finite b.target)
      then fault fill_bracket
      else if not_positive (math.over spec.risk_usd b.distance) || not_positive (cap_size spec fill)
      then fault size_bound
      else if not (is_finite b.size) || float_le b.size zero_float
      then fault size_field
      else if not (is_finite (math.times b.size (math.absolute fill)))
          || not (is_finite (math.times costs.fee_per_unit b.size))
      then fault notional_or_entry_fee
      else plan b

  abbrev pub filled_order : Spec → Opportunity → Bracket → Order
  filled_order spec o b = record {
    side = o.side;
    sl = o.stop;
    tp = b.target;
    size = b.size;
    has_size = true;
    risk_usd = zero_float;
    has_risk = false;
    tag = bytes "SEQUENTIAL-" ++ spec.policy;
    meta =
        (bytes "opportunityId", words o.id)
        ∷ (bytes "episodeId", words o.episode_id)
        ∷ (bytes "profile", words spec.profile)
        ∷ (bytes "policy", words spec.policy)
        ∷ (bytes "signalIndex", number (math.whole_float o.decision_index))
        ∷ (bytes "signalAtr", number o.signal_atr)
        ∷ [];
    index = 0;
    limit = zero_float;
    has_limit = false;
    no_slip = true;
    placed_at = 0;
    expire_at = 0;
    expire_bars = 0;
    stop_distance = zero_float;
    has_stop_distance = false;
    target_distance = zero_float;
    has_target_distance = false;
    gap_aware_stop = true;
    no_target = false;
    no_stop = false;
  }

  abbrev pub filled_at : ℕ → Bracket → Opportunity → Opportunity
  filled_at i b o = record o {
    status = filled;
    fill_index = some i;
    fill = some b.fill;
    target = some b.target;
    risk_distance = some b.distance;
    size = some b.size;
    cap_binds = b.cap_binds;
  }

  -- What fill does with its plan, for the opportunity at `index`.
  unfoldable pub carry_out :
      Scheduler → ℕ → Opportunity → ℕ → Candle → Plan → Scheduler × Option ExecutionError
  carry_out s index o i bar (fault field) = (s, some (derived_error field i o.id))
  carry_out s index o i bar wrong_side = (put s index (rejected_as stop_breached_at_entry o), none)
  carry_out s index o i bar (plan b) = (
    record (put s index (filled_at i b o)) {
      broker = open_position math s.broker o.side b.fill (filled_order s.spec o b) i bar;
    },
    none,
  )

  -- fill; none is an index out of range.
  unfoldable pub fill : Scheduler → ℕ → ℕ → Candle → Option (Scheduler × Option ExecutionError)
  fill s index i bar = get_elem? s.opportunities index >>= λ o.
      some (carry_out s index o i bar (plan_fill s.spec s.broker.costs o.side o.stop bar.o))
