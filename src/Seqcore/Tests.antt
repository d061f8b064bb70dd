-- ===== src/Seqcore/Tests.antt =====
-- Concrete streams for the theorems of this component.
use heisentick_strat.Prelude.{
  ℕ, Ensures, List, Option, [], add64, arith, bytes, false, fin, float_le, float_lt, float_max,
  float_min, int, is_finite, neg, none, refl, some, sub64, text_eq, true, ◌*◌, ◌+◌, ◌∷◌, ◌≡◌, Int64,
  cut_prefix, format_int, parse_int, ◌>>=◌, ◌↔◌, ◌≢◌,
}
use heisentick_strat.Seqcore.Types.{
  Identity, Bar, Config, Source, checkpoint_schema, freeze_id, profile_id, valid_bar,
  validate_config, BarOrderError, Event, Snapshot, buy, closure_without_hole, duplicate_bar,
}
use heisentick_strat.Seqcore.Engine.{
  Engine, new, fresh_engine, emit, has_hole, input_error, ok, order_error, perfects,
  validate_identity, bar_order, episode_id, err, unfinished,
}
use heisentick_strat.Seqcore.Invariant.Start.{new-EngineValid}
use heisentick_strat.Seqcore.Invariant.Stream.{EngineValid, Advanced, advance_valid, step_valid}
use heisentick_strat.Seqcore.Run.Total.{AreWords, TraceValid, run_engine-TraceValid}
use heisentick_strat.Seqcore.Step.{
  RunResult, advance, open_bar, run_engine, run_from, run_phases, snapshot_of, step, Outcome,
  empty_trace,
}
use heisentick_strat.Seqcore.Phases.{
  cancel_phase, compare_close, complete_setup, count_phase, countdown_phase, emit_diagnostics,
  next_run, perfect_late, qualifies, recycle_phase, setup_phase, with_run, count_bar,
  count_or_defer, terminal_ok,
}
use heisentick_strat.Seqcore.Checkpoint.{
  Checkpoint, bar8_close_fault, checkpoint, hash_eq, header_fault, history_fault, identity_fault,
  identity_mismatch, next_open_error, references_fault, restore, restored, run_fault, setup_fault,
  side_fault, state_fault, stream_fault, validate_checkpoint,
}
use heisentick_strat.Seqcore.Restore.{HasWords, OpensAfter, restore-EngineValid, restore-checkpoint}
use heisentick_strat.Seqcore.Gap.{Reset, keep_last, closure_as_adjacent, gap_resets}
use heisentick_strat.Seqcore.Closure.{closure_not_restorable}
use heisentick_strat.Seqcore.Run.Steps.{Ran, run_engine-Ran}
use heisentick_strat.Seqcore.Refused.{RefusedAs, refused_iff}
use heisentick_strat.Seqcore.Engine.{err, invalid_input}
use heisentick_strat.Seqcore.Invariant.Start.{new-EngineValid}
use heisentick_strat.Prelude.{◌↔◌}
use heisentick_strat.Seqcore.Refusals.{disorder_is_final}
use heisentick_strat.Seqcore.SetupRun.{flipped, run_after, run_after_iff}

abbrev test_source : Source
test_source = record { symbol = bytes "EURUSD"; timeframe = bytes "1m"; data_hash = none }

abbrev test_identity : Identity
test_identity = record {
  schema_version = bytes "seq-core-checkpoint.v1";
  profile_id = bytes "seq.full.public_approx.v1";
  freeze_id = bytes "seq-core-freeze.v1";
  config_hash = bytes "cfg";
  source = test_source;
  timeframe_ms = int 60000;
}

-- A bar at a minute, around a close.
abbrev bar_at : ℕ → ℕ → Bar
bar_at minute close = record {
  open_ms = int (60000 * minute);
  o = fin close 0;
  h = fin (close + 1) 0;
  l = fin close 1;
  c = fin close 0;
}

abbrev test_config : Config
test_config = record {
  setup_count = int 9;
  setup_lookback = int 4;
  countdown_count = int 13;
  countdown_lookback = int 2;
  recycle_at = int 22;
  deferral13_vs8 = true;
  qualifier8_vs5 = false;
  intersection = false;
  combo = false;
  risk_level = false;
  tdst_cancel = false;
}

abbrev start : Engine
start = fresh_engine test_config test_identity

start_made : new test_config test_identity ≡ ok start
unfolding new validate_config validate_identity text_eq checkpoint_schema profile_id freeze_id
start_made = refl

start_valid : EngineValid start
start_valid = new-EngineValid test_config test_identity (omega arith) start_made

-- A price flip and nine falling closes against the close four bars before: a buy Setup.
abbrev falling : List Bar
falling =
    bar_at 1 20
    ∷ bar_at 2 21
    ∷ bar_at 3 22
    ∷ bar_at 4 23
    ∷ bar_at 5 24
    ∷ bar_at 6 19
    ∷ bar_at 7 18
    ∷ bar_at 8 17
    ∷ bar_at 9 16
    ∷ bar_at 10 15
    ∷ bar_at 11 14
    ∷ bar_at 12 13
    ∷ bar_at 13 12
    ∷ bar_at 14 11
    ∷ []

abbrev engine_of : Option RunResult → Engine
engine_of none = start
engine_of (some r) = r.engine

abbrev warm : Engine
warm = engine_of (run_engine start falling)

engine_of-EngineValid :
    (m : Option RunResult)
    → Ensures (λ r. TraceValid (int 0) (neg 1) r.engine r.trace) m
    → EngineValid (engine_of m)
engine_of-EngineValid none h = absurd h
engine_of-EngineValid (some r) h = h.valid

falling_words : AreWords falling
falling_words = ground arith

warm_valid : EngineValid warm
warm_valid =
    engine_of-EngineValid (run_engine start falling) (
      run_engine-TraceValid test_config test_identity falling (omega arith) falling_words
        start_made)

-- The run of the buy side with its completed Setup, and the Countdown that it starts.
warm_run : (warm.buy_side.setup_run ≡ int 9) × (unfinished warm.buy_side.countdown ≡ true)
unfolding run_engine run_from step advance open_bar has_hole order_error input_error compare_close
    run_phases setup_phase complete_setup next_run perfect_late perfects with_run cancel_phase
    countdown_phase count_phase qualifies recycle_phase emit_diagnostics emit snapshot_of valid_bar
    float_le float_lt is_finite float_min float_max add64 sub64 count_or_defer terminal_ok count_bar
warm_run = (refl, refl)

-- The next bar, and one after a hole.
abbrev next_bar : Bar
next_bar = bar_at 15 10

abbrev late_bar : Bar
late_bar = bar_at 20 10

step_valid_example : Ensures (λ r. EngineValid r.0) (step warm next_bar false)
step_valid_example = step_valid warm next_bar false warm_valid (omega arith)

next_accepted : input_error warm next_bar false ≡ none
unfolding run_engine run_from step advance open_bar has_hole order_error input_error compare_close
    run_phases setup_phase complete_setup next_run perfect_late perfects with_run cancel_phase
    countdown_phase count_phase qualifies recycle_phase emit_diagnostics emit snapshot_of valid_bar
    float_le float_lt is_finite float_min float_max add64 sub64 count_or_defer terminal_ok count_bar
next_accepted = refl

advance_valid_example : Ensures (Advanced warm next_bar) (advance warm next_bar false)
advance_valid_example = advance_valid warm next_bar false warm_valid (omega arith) next_accepted

run_engine-TraceValid_example :
    Ensures (λ r. TraceValid (int 0) (neg 1) r.engine r.trace) (run_engine start falling)
run_engine-TraceValid_example =
    run_engine-TraceValid test_config test_identity falling (omega arith) falling_words start_made

late_hole : has_hole warm late_bar ≡ true
unfolding run_engine run_from step advance open_bar has_hole order_error input_error compare_close
    run_phases setup_phase complete_setup next_run perfect_late perfects with_run cancel_phase
    countdown_phase count_phase qualifies recycle_phase emit_diagnostics emit snapshot_of valid_bar
    float_le float_lt is_finite float_min float_max add64 sub64 count_or_defer terminal_ok count_bar
late_hole = refl

gap_resets_example : Ensures (Reset warm late_bar) (advance warm late_bar false)
gap_resets_example = gap_resets warm late_bar warm_valid late_hole

-- Three comparisons below after one above.
run_after_iff_example :
    (run_after buy (neg 1 ∷ neg 1 ∷ neg 1 ∷ int 1 ∷ []) ≡ int 3)
    ↔ ((rest : List Int64) × ((neg 1 ∷ neg 1 ∷ neg 1 ∷ int 1 ∷ []) ≡ flipped buy 3 rest))
run_after_iff_example = run_after_iff buy 2 (neg 1 ∷ neg 1 ∷ neg 1 ∷ int 1 ∷ []) (omega arith)

-- A bar with the open time of the last one.
disorder_is_final_example :
    (stop : BarOrderError) × ((stop.kind ≡ duplicate_bar) ↔ (int 840000 ≡ int 840000))
    × (stop.previous_open_ms ≡ int 840000)
    × (stop.open_ms ≡ int 840000)
    × (step warm (bar_at 14 9) false
        ≡ some (record warm { terminal = some stop }, err (bar_order stop)))
    × (step (record warm { terminal = some stop }) next_bar true
        ≡ some (record warm { terminal = some stop }, err (bar_order stop)))
unfolding run_engine run_from step advance open_bar has_hole order_error input_error compare_close
    run_phases setup_phase complete_setup next_run perfect_late perfects with_run cancel_phase
    countdown_phase count_phase qualifies recycle_phase emit_diagnostics emit snapshot_of valid_bar
    float_le float_lt is_finite float_min float_max add64 sub64 count_or_defer terminal_ok count_bar
disorder_is_final_example =
    disorder_is_final warm (bar_at 14 9) next_bar false true (int 840000) refl refl (omega arith)

-- A declared closure before an adjacent bar.
refused_iff_example :
    (step warm next_bar true ≡ some (warm, err (invalid_input closure_without_hole)))
    ↔ RefusedAs warm warm next_bar true closure_without_hole
refused_iff_example = refused_iff warm warm next_bar true closure_without_hole warm_valid

declared_refused : step warm next_bar true ≡ some (warm, err (invalid_input closure_without_hole))
unfolding run_engine run_from step advance open_bar has_hole order_error input_error compare_close
    run_phases setup_phase complete_setup next_run perfect_late perfects with_run cancel_phase
    countdown_phase count_phase qualifies recycle_phase emit_diagnostics emit snapshot_of valid_bar
    float_le float_lt is_finite float_min float_max add64 sub64 count_or_defer terminal_ok count_bar
declared_refused = refl

closure_as_adjacent_example : step warm late_bar true ≡ (
    step (record warm { last_open = some (int 1140000) }) late_bar false >>= λ r.
    some (keep_last warm.last_open r))
unfolding run_engine run_from step advance open_bar has_hole order_error input_error compare_close
    run_phases setup_phase complete_setup next_run perfect_late perfects with_run cancel_phase
    countdown_phase count_phase qualifies recycle_phase emit_diagnostics emit snapshot_of valid_bar
    float_le float_lt is_finite float_min float_max add64 sub64 count_or_defer terminal_ok count_bar
closure_as_adjacent_example =
    closure_as_adjacent warm late_bar (int 1140000) warm_valid late_hole (omega arith) refl

-- A run that its fourth bar stops, a duplicate.
abbrev stopping : List Bar
stopping = bar_at 1 20 ∷ bar_at 2 21 ∷ bar_at 3 22 ∷ bar_at 3 22 ∷ bar_at 4 23 ∷ []

stopping_words : AreWords stopping
stopping_words = ground arith

run_engine-Ran_example : Ensures (Ran start empty_trace stopping) (run_engine start stopping)
run_engine-Ran_example = run_engine-Ran start stopping stopping_words start_valid

-- The checkpoint of an engine.
abbrev saved_of : Engine → Checkpoint
saved_of e = record {
  identity = e.identity;
  state_version = int 1;
  config = e.config;
  last_bar_index = e.last_index;
  last_open_ms = e.last_open;
  last_event_seq = e.last_event_seq;
  init_diagnostics_emitted = e.init_diagnostics_emitted;
  previous_comparison = e.previous_comparison;
  history = e.history;
  buy = e.buy_side;
  sell = e.sell_side;
}

warm_restored : restore (saved_of warm) test_identity (int 900000) ≡ ok (restored (saved_of warm))
unfolding run_engine run_from step advance open_bar has_hole order_error input_error compare_close
    run_phases setup_phase complete_setup next_run perfect_late perfects with_run cancel_phase
    countdown_phase count_phase qualifies recycle_phase emit_diagnostics emit snapshot_of valid_bar
    float_le float_lt is_finite float_min float_max add64 sub64 count_or_defer terminal_ok count_bar
    restore identity_mismatch hash_eq next_open_error validate_identity validate_config text_eq
    checkpoint_schema profile_id freeze_id validate_checkpoint header_fault stream_fault
    history_fault side_fault run_fault setup_fault state_fault identity_fault references_fault
    bar8_close_fault episode_id cut_prefix format_int parse_int
warm_restored = refl

restore-checkpoint_example :
    (checkpoint (restored (saved_of warm)) ≡ ok (saved_of warm))
    × ((restored (saved_of warm)).identity ≡ test_identity)
    × OpensAfter (int 900000) (restored (saved_of warm)).last_open
restore-checkpoint_example =
    restore-checkpoint (saved_of warm) test_identity (int 900000) warm_restored

warm_words : HasWords (saved_of warm)
unfolding run_engine run_from step advance open_bar has_hole order_error input_error compare_close
    run_phases setup_phase complete_setup next_run perfect_late perfects with_run cancel_phase
    countdown_phase count_phase qualifies recycle_phase emit_diagnostics emit snapshot_of valid_bar
    float_le float_lt is_finite float_min float_max add64 sub64 count_or_defer terminal_ok count_bar
warm_words = record {
  timeframe = omega arith;
  index = omega arith;
  seq = omega arith;
  last = λ l h. ground arith;
}

restore-EngineValid_example : EngineValid (restored (saved_of warm))
restore-EngineValid_example =
    restore-EngineValid (saved_of warm) test_identity (int 900000) warm_words warm_restored

-- The engine, the snapshot and the events of a bar that is accepted.
abbrev outcome_engine : Outcome → Engine
outcome_engine none = start
outcome_engine (some (e, r)) = e

abbrev no_snapshot : Snapshot
no_snapshot = record {
  bar_index = int 0;
  bar_open_ms = int 0;
  decision_ms = int 0;
  phase_order_version = [];
  buy = start.buy_side.snapshot;
  sell = start.sell_side.snapshot;
}

abbrev outcome_bar : Outcome → Snapshot × List Event
outcome_bar (some (e, ok bar)) = bar
outcome_bar _ = (no_snapshot, [])

abbrev two_bars : Engine
two_bars = engine_of (run_engine start (bar_at 1 20 ∷ bar_at 2 21 ∷ []))

abbrev closed : Engine
closed = outcome_engine (step two_bars late_bar true)

closure_not_restorable_example : restore (saved_of closed) test_identity (int 1260000) ≢ ok start
unfolding run_engine run_from step advance open_bar has_hole order_error input_error compare_close
    run_phases setup_phase complete_setup next_run perfect_late perfects with_run cancel_phase
    countdown_phase count_phase qualifies recycle_phase emit_diagnostics emit snapshot_of valid_bar
    float_le float_lt is_finite float_min float_max add64 sub64 count_or_defer terminal_ok count_bar
    checkpoint
closure_not_restorable_example =
    closure_not_restorable two_bars closed start (bar_at 2 21) late_bar (bar_at 1 20 ∷ [])
      (outcome_bar (step two_bars late_bar true)).0 (outcome_bar (step two_bars late_bar true)).1
      (saved_of closed) test_identity (int 1260000) refl (omega arith) refl refl refl
