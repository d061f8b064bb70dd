-- ===== src/FrozenLevels/Lock.antt =====
-- engine/frozenlevels/lock.go: one position's stop, and the one amendment of it that a policy
-- asks for: the tracker and its creation.
pub mod Observe
pub mod Invariant
pub mod Stop
pub mod Creation
use heisentick_strat.Prelude.{
  ℕ, Bool, Float, Int64, List, Option, Text, [], false, if◌then◌else◌, int, is_some, leb, length,
  ltb, none, not, some, true, ◌&&◌, ◌==◌, ◌||◌, ◌∷◌,
}
use heisentick_strat.FrozenLevels.Scale.{
  ScaleLibrary, ScaleError, ScaleResult, located, prior_open_scale_location, unlocated,
}
use heisentick_strat.FrozenLevels.Prices.{
  Direction, Price, add, cmp, directed_difference, is_gt, is_lt, long, mul, short, sign, whole,
}
use heisentick_strat.FrozenLevels.Types.{
  EventKey, Quote, ask, bid, finite_positive, valid_millis, valid_quote,
}
use heisentick_strat.FrozenLevels.Calendar.{FrozenOpening}

pub data LockMode : Type 0 where
  no_lock scale_lock pivot_lock : LockMode
  other_lock : Text → LockMode

pub record LockPolicy : Type 0 where
  pub mode : LockMode
  pub activation_r : Float
  pub grid : Float
  pub latency_millis : Int64
  pub assumption_id : Text

pub record LockLevels : Type 0 where
  pub id : Text
  pub source_window_id : Text
  pub known_at_millis : Int64
  pub frozen_at_millis : Int64
  pub prices : List Float

pub record PositionSeed : Type 0 where
  pub side : Option Direction  -- none is a Direction that is neither Long nor Short
  pub entry : Float
  pub initial_stop : Float
  pub entry_quote : Quote

pub data LockEventKind : Type 0 where
  unresolved canceled exit_due accepted rejected activated submitted : LockEventKind

pub data LockReason : Type 0 where
  unexplained unverified_quote_gap stop_reached target_reached : LockReason
  old_order_before_amendment invalid_at_acceptance no_eligible_lock : LockReason

pub record LockEvent : Type 0 where
  pub kind : LockEventKind
  pub reason : LockReason
  pub event : EventKey
  pub available_at_millis : Int64
  pub active_stop : Float
  pub proposed_stop : Float

pub record LockCounters : Type 0 where
  pub activations : Int64
  pub eligible : Int64
  pub submitted : Int64
  pub accepted : Int64
  pub rejected : Int64
  pub canceled : Int64

-- `side` is seed.Side, once it is known to be valid; no scale_stop is a price without a value.
pub record LockTracker : Type 0 where
  pub entry : Price
  pub grid : Price
  pub activation : Price
  pub side : Direction
  pub policy : LockPolicy
  pub target : Price
  pub active_stop : Price
  pub scale_stop : Option Price
  pub levels : List Price
  pub last : Quote
  pub requested : Option Quote
  pub proposed : Price
  pub attempted : Bool
  pub terminal : Bool
  pub counters : LockCounters

pub data LockError : Type 0 where
  seed_quote_invalid invalid_lock_contract unsupported_lock_mode : LockError
  invalid_initial_risk_geometry seed_target_already_due : LockError
  missing_or_future_scale_context unused_scale_context : LockError
  missing_or_future_pivot_context invalid_pivot_price unused_pivot_context : LockError
  lock_tracker_terminal observed_quote_invalid observation_not_later : LockError
  scale_error : ScaleError → LockError

-- q.liquidation(side)
unfoldable pub liquidation : Quote → Direction → Float
liquidation q long = q.bid
liquidation q short = q.ask

abbrev pub is_scale : LockMode → Bool
is_scale scale_lock = true
is_scale _ = false

abbrev pub is_pivot : LockMode → Bool
is_pivot pivot_lock = true
is_pivot _ = false

abbrev pub is_no_lock : LockMode → Bool
is_no_lock no_lock = true
is_no_lock _ = false

abbrev pub is_other : LockMode → Bool
is_other (other_lock s) = true
is_other _ = false

abbrev no_counters : LockCounters
no_counters = record {
  activations = int 0;
  eligible = int 0;
  submitted = int 0;
  accepted = int 0;
  rejected = int 0;
  canceled = int 0;
}

-- 2 * side
abbrev pub two_sides : Direction → Price
two_sides long = whole 2
two_sides short = record { plus = 0; minus = 2; den = 0 }

pub data NewLock : Type 0 where
  tracking : LockTracker → NewLock
  not_tracking : LockError → NewLock

-- The checks of NewLockTracker on the pivots.
abbrev pub pivot_error : LockLevels → Int64 → Bool
pivot_error l at =
    length l.id == 0
    || length l.source_window_id == 0
    || not (valid_millis l.known_at_millis)
    || not (valid_millis l.frozen_at_millis)
    || ltb l.frozen_at_millis l.known_at_millis
    || leb at l.frozen_at_millis

unfoldable pub all_positive : List Float → Bool
all_positive [] = true
all_positive (p ∷ ps) = finite_positive p && all_positive ps

unfoldable pub decimals : (Float → Price) → List Float → List Price
decimals decimal [] = []
decimals decimal (p ∷ ps) = decimal p ∷ decimals decimal ps

module _ (lib : ScaleLibrary) where
  abbrev pub initial_tracker : PositionSeed → LockPolicy → Direction → LockTracker
  initial_tracker seed policy side =
      let entry = lib.decimal seed.entry in
      let stop = lib.decimal seed.initial_stop in
      let risk = directed_difference entry stop side in
      record {
        entry = entry;
        grid = lib.decimal policy.grid;
        activation = mul risk (lib.decimal policy.activation_r);
        side = side;
        policy = policy;
        target = add entry (mul risk (two_sides side));
        active_stop = stop;
        scale_stop = none;
        levels = [];
        last = seed.entry_quote;
        requested = none;
        proposed = whole 0;
        attempted = false;
        terminal = false;
        counters = no_counters;
      }

  unfoldable pub contract_invalid : PositionSeed → LockPolicy → Bool
  contract_invalid seed policy =
      not (is_some seed.side)
      || not (finite_positive seed.entry)
      || not (finite_positive seed.initial_stop)
      || not (finite_positive policy.grid)
      || not (finite_positive policy.activation_r)
      || not (valid_millis policy.latency_millis)
      || length policy.assumption_id == 0

  -- The initial risk, target, activation and distance of the stop.
  unfoldable pub geometry_invalid : LockTracker → Bool
  geometry_invalid t =
      let liq = lib.decimal (liquidation t.last t.side) in
      not (is_gt (sign (directed_difference t.entry t.active_stop t.side)))
      || not (finite_positive (lib.project t.target))
      || not (finite_positive (lib.project t.activation))
      || is_lt (cmp (directed_difference liq t.active_stop t.side) t.grid)

  abbrev pub target_due : LockTracker → Bool
  target_due t =
      not (
        is_lt
          (sign (directed_difference (lib.decimal (liquidation t.last t.side)) t.target t.side)))

  unfoldable pub with_location : LockTracker → ScaleResult → NewLock
  with_location t (unlocated e) = not_tracking (scale_error e)
  with_location t (located _ stop) = tracking (record t { scale_stop = some stop })

  -- The scale context, then the pivot context.
  unfoldable pub with_scale :
      PositionSeed → LockPolicy → Option FrozenOpening → LockTracker → NewLock
  with_scale seed policy opening t =
      if is_scale policy.mode
      then (elim opening [
        | none ↦ not_tracking missing_or_future_scale_context
        | some f ↦
            if leb seed.entry_quote.event.at_millis f.frozen_at_millis
            then not_tracking missing_or_future_scale_context
            else with_location t
                (prior_open_scale_location lib f seed.entry (some t.side) policy.grid)
      ])
      else if is_some opening
      then not_tracking unused_scale_context
      else tracking t

  unfoldable pub with_pivots : PositionSeed → LockPolicy → Option LockLevels → LockTracker → NewLock
  with_pivots seed policy levels t =
      if is_pivot policy.mode
      then (elim levels [
        | none ↦ not_tracking missing_or_future_pivot_context
        | some l ↦
            if pivot_error l seed.entry_quote.event.at_millis
            then not_tracking missing_or_future_pivot_context
            else if not (all_positive l.prices)
            then not_tracking invalid_pivot_price
            else tracking (record t { levels = decimals lib.decimal l.prices })
      ])
      else if is_some levels
      then not_tracking unused_pivot_context
      else tracking t

  unfoldable pub with_pivots_after :
      PositionSeed → LockPolicy → Option LockLevels → NewLock → NewLock
  with_pivots_after seed policy levels (not_tracking e) = not_tracking e
  with_pivots_after seed policy levels (tracking t) = with_pivots seed policy levels t

  -- NewLockTracker after the mode, from the side of the seed.
  unfoldable pub start_lock :
      PositionSeed
      → LockPolicy
      → Option FrozenOpening
      → Option LockLevels
      → Option Direction
      → NewLock
  start_lock seed policy opening levels none = not_tracking invalid_lock_contract
  start_lock seed policy opening levels (some side) =
      let t = initial_tracker seed policy side in
      if geometry_invalid t
      then not_tracking invalid_initial_risk_geometry
      else if target_due t
      then not_tracking seed_target_already_due
      else with_pivots_after seed policy levels (with_scale seed policy opening t)

  -- NewLockTracker
  unfoldable pub new_lock_tracker :
      PositionSeed → LockPolicy → Option FrozenOpening → Option LockLevels → NewLock
  new_lock_tracker seed policy opening levels =
      if not (valid_quote seed.entry_quote)
      then not_tracking seed_quote_invalid
      else if contract_invalid seed policy
      then not_tracking invalid_lock_contract
      else if is_other policy.mode
      then not_tracking unsupported_lock_mode
      else start_lock seed policy opening levels seed.side
