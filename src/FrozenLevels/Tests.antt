-- ===== src/FrozenLevels/Tests.antt =====
-- Concrete levels, positions and windows for the theorems of these components. The decimals of the
-- test library count units, and its digests are constant.
use heisentick_strat.Prelude.{
  ℕ, Float, Option, bytes, fin, int, none, some, ◌+◌, Ensures, List, Text, [], add64, arith, false,
  float_lt, is_finite, refl, sub64, text_eq, true, ◌*◌, ◌↔◌, ◌∷◌, ◌≡◌, format_int, nan,
}
use heisentick_strat.FrozenLevels.Types.{
  EventKey, Quote, Source, QuoteSide, after, all_hex, finite_positive, is_blank, side_eq, source_eq,
  valid_quote, validate_source,
}
use heisentick_strat.FrozenLevels.Prices.{
  Price, long, add, cmp, directed_difference, mul, sign, sub,
}
use heisentick_strat.FrozenLevels.Level.Lifecycle.{
  LevelLibrary, LevelSpec, Level, LevelQuote, made, new_level, LevelEvent, LevelState, Observed,
  contract_error, created_event, initial_level, inside, level_event, level_quote_error,
  observation_error, observe, observe_active, observe_crossing, predecessor_error, rejection,
  resolve_admission, spec_error, success, AdmissionOutcome, still_busy,
}
use heisentick_strat.FrozenLevels.Scale.{ScaleLibrary}
use heisentick_strat.FrozenLevels.Windows.{
  CompletedBar, Window, WindowKind, aligned_end, bar_error, built, empty_window, fill_window,
  freeze_between, freeze_shape, freeze_window, gather, join_bar, join_slots, label_window, no_slots,
  place_bar, place_bars, put_slot, slot_result, window_shape,
}
use heisentick_strat.FrozenLevels.Level.Invariant.{
  LevelValid, SpecValid, new_level_valid, observe_valid, resolve_admission_valid, ◌⟶◌,
}
use heisentick_strat.FrozenLevels.Lock.Invariant.{
  LockDone, LockValid, counts, observe_quote_valid, under_way, untried,
}
use heisentick_strat.FrozenLevels.Lock.{
  LockLevels, LockMode, LockPolicy, LockTracker, PositionSeed, all_positive, contract_invalid,
  decimals, geometry_invalid, initial_tracker, liquidation, new_lock_tracker, start_lock, tracking,
  with_pivots, with_pivots_after, with_scale,
}
use heisentick_strat.FrozenLevels.Lock.Stop.{StopMove, stop_only_tightens}
use heisentick_strat.FrozenLevels.Level.Moves.{
  Submitted, consumed_iff, observe_move, resolved_iff, submission_needs_crossing,
}
use heisentick_strat.FrozenLevels.Level.Calls.{
  Call, ended, ended_once, endings, observing, perform_all, resolving,
}
use heisentick_strat.FrozenLevels.Windows.Causal.{WindowCausal, freeze_window_causal}
use heisentick_strat.FrozenLevels.Lock.Creation.{new_lock_tracker_valid}
use heisentick_strat.FrozenLevels.Lock.Observe.{observe_quote}
use heisentick_strat.FrozenLevels.Pivots.{
  Ladder, PivotLibrary, all_finite, camarilla, laddered, pivots, resistances, spread, supports,
}
use heisentick_strat.FrozenLevels.Calendar.{
  contract_version, Calendar, Digests, FrozenOpening, Opening, date_millis, day_at, day_error,
  days_error, find_day, find_opening, found, freeze_opening, freeze_prior_opening, frozen,
  is_unqualified, month_start, skip_closed, trading_day, validate_calendar,
}
use heisentick_strat.FrozenLevels.Calendar.Prior.{PriorOpening, freeze_prior_opening_sound}

abbrev units : Float → Price
units (fin m k) = record { plus = m; minus = k; den = 0 }
units _ = record { plus = 0; minus = 0; den = 0 }

abbrev as_float : Price → Float
as_float p = fin p.plus p.minus

abbrev level_library : LevelLibrary
level_library = record {
  decimal = units;
  spec_identity = λ spec. bytes "level";
  signal_identity = λ version id at. bytes "signal";
}

abbrev scale_library : ScaleLibrary
scale_library = record {
  decimal = units;
  project = as_float;
  opening_identity = λ f. bytes "opening";
  per_3800 = λ x. x;
  float_3800 = fin 3800 0;
}

abbrev test_source : Source
test_source = record {
  provider = bytes "p";
  dataset = bytes "d";
  sha256 = bytes "0123456789abcdef0123456789abcdef0123456789abcdef0123456789abcdef";
  side = QuoteSide.bid;
}

abbrev key : ℕ → EventKey
key t = record { at_millis = int t; sequence = int 0 }

abbrev quote : ℕ → ℕ → Quote
quote t price = record {
  event = key t;
  available_at_millis = int t;
  bid = fin price 0;
  ask = fin (price + 1) 0;
}

abbrev level_quote : ℕ → ℕ → LevelQuote
level_quote t price = record { quote = quote t price; source = test_source }

abbrev test_spec : LevelSpec
test_spec = record {
  version = bytes "frozen-level-lifecycle-v1";
  provider_id = bytes "x";
  source_window_id = bytes "w";
  context_source = test_source;
  quote_source = test_source;
  ordering_proof = bytes "o";
  known_at = key 5;
  created_at = key 10;
  expires_at_millis = int 1000;
  side = some long;
  price = fin 100 0;
  policy = record {
    assumption_id = bytes "a";
    max_predecessor_age_millis = int 100;
    max_observation_age_millis = int 50;
    submission_latency_millis = int 3;
    use_policy = bytes "one-success-no-retry";
  };
}

-- Created inside the level by the quote at 9.
abbrev armed_level : Level
armed_level = record (initial_level level_library test_spec long) {
  previous = some (quote 9 95);
  armed = true;
}

abbrev creation : LevelEvent
creation = created_event level_library armed_level

level_made : new_level level_library test_spec (some (level_quote 9 95)) ≡ made armed_level creation
unfolding new_level spec_error contract_error validate_source is_blank all_hex text_eq
    finite_positive float_lt is_finite after predecessor_error level_quote_error source_eq side_eq
    valid_quote sub64 inside sign directed_difference sub level_event
level_made = refl

new_level_valid_example :
    LevelValid armed_level × SpecValid test_spec × (LevelState.active ≡ LevelState.active)
new_level_valid_example =
    new_level_valid level_library test_spec (some (level_quote 9 95)) level_made

armed_valid : LevelValid armed_level
armed_valid = record {
  active_empty = λ h. (refl, refl);
  pending_signal = λ h. ground arith;
  pending_unready = λ h. refl;
  pending_early = λ h. ground arith;
  ready_quote = λ h. ground arith;
}

spec_valid : SpecValid test_spec
spec_valid = record {
  latency_low = omega arith;
  latency_high = omega arith;
  expiry_low = omega arith;
  expiry_high = omega arith;
}

observe_valid_example :
    Ensures
      (λ r. LevelValid r.level)
      (observe level_library armed_level (level_quote 20 105) true false)
observe_valid_example =
    observe_valid level_library armed_level (level_quote 20 105) true false spec_valid armed_valid

-- The crossing at 20 may be executed from 23.
abbrev submitted_level : Level
submitted_level = record armed_level {
  previous = some (quote 20 105);
  armed = false;
  state = LevelState.pending;
  signal_id = bytes "signal";
  signal = some (quote 20 105);
  submit_not_before = int 23;
}

abbrev events_of : Option Observed → List LevelEvent
events_of none = []
events_of (some r) = r.events

abbrev crossing : Option Observed
crossing = observe level_library armed_level (level_quote 20 105) true false

crossing_submits :
    crossing ≡ some (record { level = submitted_level; events = events_of crossing; error = none })
unfolding observe observation_error level_quote_error source_eq side_eq text_eq valid_quote
    finite_positive float_lt is_finite after sub64 add64 inside sign directed_difference sub
    observe_active observe_crossing level_event
crossing_submits = refl

submission_needs_crossing_example :
    Submitted level_library armed_level (level_quote 20 105) false submitted_level
submission_needs_crossing_example =
    submission_needs_crossing level_library armed_level (level_quote 20 105) true false
      (record { level = submitted_level; events = events_of crossing; error = none }) spec_valid
      refl crossing_submits refl

observe_move_example : Ensures (λ r. LevelState.active ⟶ r.level.state) crossing
observe_move_example =
    observe_move level_library armed_level (level_quote 20 105) true false armed_valid

-- Ready at 25.
abbrev ready_level : Level
ready_level = record submitted_level {
  previous = some (quote 25 106);
  state = LevelState.ready;
  ready = some (quote 25 106);
}

ready_valid : LevelValid ready_level
ready_valid = record {
  active_empty = λ h. ground arith;
  pending_signal = λ h. refl;
  pending_unready = λ h. ground arith;
  pending_early = λ h. ground arith;
  ready_quote = λ h. refl;
}

resolve_admission_valid_example :
    LevelValid (resolve_admission level_library ready_level (key 25) success).0
resolve_admission_valid_example =
    resolve_admission_valid level_library ready_level (key 25) success ready_valid

abbrev rejected_level : Level
rejected_level = (resolve_admission level_library ready_level (key 25) rejection).0

abbrev AnsweredBy : AdmissionOutcome → Type 0
AnsweredBy outcome =
    (q : Quote) × (some (quote 25 106) ≡ some q) × (q.event ≡ key 25) × (rejection ≡ outcome)

resolved_iff_example :
    ((rejected_level.state ≡ LevelState.invalidated) ↔ AnsweredBy rejection)
    × ((rejected_level.state ≡ LevelState.active) ↔ AnsweredBy still_busy)
    × ((rejected_level.state ≡ LevelState.consumed) ↔ AnsweredBy success)
resolved_iff_example = resolved_iff level_library ready_level (key 25) rejection refl

consumed_iff_example :
    ((resolve_admission level_library ready_level (key 25) success).0.state ≡ LevelState.consumed)
    ↔ ((q : Quote) × (some (quote 25 106) ≡ some q)
        × (q.event ≡ key 25)
        × (LevelState.ready ≡ LevelState.ready)
        × (success ≡ success))
consumed_iff_example = consumed_iff level_library ready_level (key 25) success refl

-- A crossing that is submitted, admitted and answered, and calls after that.
abbrev test_calls : List Call
test_calls =
    observing (level_quote 20 105) true false
    ∷ observing (level_quote 25 106) true false
    ∷ resolving (key 25) success
    ∷ resolving (key 25) success
    ∷ observing (level_quote 30 95) true false
    ∷ []

ended_once_example :
    Ensures
      (λ r. LevelValid r.0 × (endings r.1 + ended armed_level.state ≡ ended r.0.state))
      (perform_all level_library armed_level test_calls)
ended_once_example = ended_once level_library armed_level test_calls spec_valid armed_valid

-- A long position from 100 with its stop at 90, its target at 120 and a pivot at 105.
abbrev test_seed : PositionSeed
test_seed = record {
  side = some long;
  entry = fin 100 0;
  initial_stop = fin 90 0;
  entry_quote = quote 10 100;
}

abbrev test_policy : LockPolicy
test_policy = record {
  mode = LockMode.pivot_lock;
  activation_r = fin 1 0;
  grid = fin 1 0;
  latency_millis = int 0;
  assumption_id = bytes "a";
}

abbrev test_levels : LockLevels
test_levels = record {
  id = bytes "l";
  source_window_id = bytes "w";
  known_at_millis = int 5;
  frozen_at_millis = int 6;
  prices = fin 105 0 ∷ [];
}

abbrev tracker : LockTracker
tracker = record (initial_tracker scale_library test_seed test_policy long) {
  levels = units (fin 105 0) ∷ [];
}

tracker_made :
    new_lock_tracker scale_library test_seed test_policy none (some test_levels) ≡ tracking tracker
unfolding new_lock_tracker start_lock valid_quote finite_positive float_lt is_finite
    contract_invalid geometry_invalid liquidation cmp sign directed_difference sub mul add
    with_scale with_pivots_after with_pivots all_positive decimals
tracker_made = refl

new_lock_tracker_valid_example : LockValid tracker
new_lock_tracker_valid_example =
    new_lock_tracker_valid scale_library test_seed test_policy none (some test_levels) tracker
      tracker_made

tracker_valid : LockValid tracker
tracker_valid = record { scale_known = λ h. ground arith; attempt = untried refl refl refl }

-- The quote at 112 activates the lock.
observe_quote_valid_example :
    Ensures LockDone (observe_quote scale_library tracker (quote 20 112) true)
observe_quote_valid_example =
    observe_quote_valid scale_library tracker (quote 20 112) true tracker_valid

-- A request for 105 is under way, and is accepted at 113.
abbrev asking : LockTracker
asking = record tracker {
  last = quote 20 112;
  requested = some (quote 20 112);
  proposed = units (fin 105 0);
  attempted = true;
  counters = counts 1 1 1 0 0 0;
}

asking_valid : LockValid asking
asking_valid = record { scale_known = λ h. ground arith; attempt = under_way refl refl refl }

stop_only_tightens_example :
    Ensures (StopMove asking) (observe_quote scale_library asking (quote 21 113) true)
stop_only_tightens_example =
    stop_only_tightens scale_library asking (quote 21 113) true asking_valid

-- Three five-minute bars from midnight.
abbrev test_bar : ℕ → CompletedBar
test_bar slot = record {
  start_millis = int (slot * 300000);
  end_millis = int (slot * 300000 + 300000);
  known_at_millis = int (slot * 300000 + 300000);
  complete = true;
  open_price = fin 10 0;
  high = fin 12 0;
  low = fin 9 0;
  close = fin 11 0;
  source = test_source;
}

abbrev no_window_id : Window → Text
no_window_id w = []

abbrev test_window : Window
test_window = record {
  id = [];
  version = bytes "frozen-level-primitives-v1";
  kind = WindowKind.clock_m15;
  start_millis = int 0;
  end_millis = int 900000;
  known_at_millis = int 900000;
  frozen_at_millis = int 900001;
  bar_count = int 3;
  source = test_source;
  open_price = fin 10 0;
  high = fin 12 0;
  low = fin 9 0;
  close = fin 11 0;
}

abbrev test_bars : List CompletedBar
test_bars = test_bar 2 ∷ test_bar 0 ∷ test_bar 7 ∷ test_bar 1 ∷ []

window_built :
    freeze_window no_window_id WindowKind.clock_m15 (int 900001) test_bars ≡ built test_window
unfolding freeze_window freeze_shape window_shape freeze_between label_window gather place_bars
    place_bar slot_result bar_error put_slot no_slots validate_source is_blank all_hex
    finite_positive float_lt is_finite fill_window join_slots join_bar source_eq side_eq text_eq
    empty_window aligned_end sub64 add64
window_built = refl

freeze_window_causal_example : WindowCausal (int 900001) test_window
freeze_window_causal_example =
    freeze_window_causal no_window_id WindowKind.clock_m15 (int 900001) test_bars test_window
      window_built

abbrev float_sum : Float → Float → Float
float_sum (fin a b) (fin c d) = fin (a + c) (b + d)
float_sum _ _ = nan

abbrev float_difference : Float → Float → Float
float_difference (fin a b) (fin c d) = fin (a + d) (b + c)
float_difference _ _ = nan

abbrev pivot_library : PivotLibrary
pivot_library = record {
  plus = float_sum;
  minus = float_difference;
  times = λ x y. y;
  over = λ x y. x;
  eleven_tenths = fin 1 0;
  whole_float = λ n. fin n 0;
  window_identity = λ w. bytes "w";
}

abbrev named_window : Window
named_window = record test_window { id = bytes "w" }

abbrev test_ladder : Ladder
test_ladder = record {
  version = contract_version;
  window_id = bytes "w";
  known_at_millis = int 900000;
  frozen_at_millis = int 900001;
  levels = pivots pivot_library named_window;
}

ladder_made : camarilla pivot_library named_window ≡ laddered test_ladder
unfolding camarilla pivots supports resistances spread all_finite finite_positive float_lt is_finite
    text_eq format_int
ladder_made = refl

-- Two days of UTC, and a decision on the second.
abbrev test_calendar : Calendar
test_calendar = record {
  id = bytes "c";
  version = bytes "1";
  qualification = bytes "q";
  days =
      record {
        date = bytes "1970-01-02";
        start_millis = int 86400000;
        end_millis = int 172800000;
        status = trading_day;
      }
      ∷ record {
        date = bytes "1970-01-03";
        start_millis = int 172800000;
        end_millis = int 259200000;
        status = trading_day;
      }
      ∷ [];
}

abbrev test_opening : Opening
test_opening = record {
  date = bytes "1970-01-02";
  event = key 86400005;
  known_at_millis = int 86400006;
  price = fin 100 0;
  source = test_source;
  calendar_id = bytes "c";
  calendar_version = bytes "1";
  qualification = bytes "first";
}

abbrev test_digests : Digests
test_digests = record {
  calendar_identity = λ c. bytes "calendar";
  opening_identity = λ f. bytes "opening";
}

abbrev frozen_opening : FrozenOpening
frozen_opening = frozen test_digests test_calendar (int 180000000) test_opening

opening_frozen :
    freeze_prior_opening test_digests test_calendar (int 180000000) (test_opening ∷ [])
    ≡ found frozen_opening
unfolding freeze_prior_opening freeze_opening day_at validate_calendar days_error day_error
    date_millis month_start find_day skip_closed find_opening is_unqualified validate_source
    is_blank all_hex text_eq finite_positive float_lt is_finite sub64 add64
opening_frozen = refl

freeze_prior_opening_sound_example :
    PriorOpening test_calendar (int 180000000) (test_opening ∷ []) frozen_opening
freeze_prior_opening_sound_example =
    freeze_prior_opening_sound test_digests test_calendar (int 180000000) (test_opening ∷ [])
      frozen_opening opening_frozen
