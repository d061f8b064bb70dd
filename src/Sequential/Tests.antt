-- ===== src/Sequential/Tests.antt =====
-- A captured run over a series with one setup, on hourly bars.
use heisentick_strat.Prelude.{
  ℕ, Bool, List, Option, [], bytes, fin, inl, inr, is_some, length, none, some, true, ◌*◌, ◌+◌, ◌-◌,
  ◌∷◌, ◌⊎◌, Ensures, false, float_le, float_lt, float_min, is_finite, refl, text_eq, ◌≡◌, add64,
  float_max, format_int, sub64, int,
}
use heisentick_strat.Broker.Types.{Candle, Costs, long}
use heisentick_strat.Broker.Ledger.{new_collector}
use heisentick_strat.Closures.{timeframe_step}
use heisentick_strat.Broker.Execution.{
  slippage_at, reset_broker, normalized, open_position, close_position, resolve_intrabar_exit,
  position_of, fill_price, stop_of, target_of, size_of, trade_of, exit_price, pnl_of, points_of,
  drop_exits, in_window,
}
use heisentick_strat.Broker.Ledger.{
  record_entry, record_exit, mark, mutation, check_continuity, settle, same_trade, all_finite, fail,
  unrealized_of,
}
use heisentick_strat.Broker.Scheduled.{lookup_meta}
use heisentick_strat.Broker.TestMath.{
  test_plus, test_minus, test_times, test_over, test_absolute, test_to_int64, test_identical,
}
use heisentick_strat.Broker.TestMath.{test_math, test_same, test_to_word}
use heisentick_strat.Seqcore.Types.{
  checkpoint_schema, freeze_id, valid_bar, validate_config, profile_id, default_config,
  default_identity,
}
use heisentick_strat.Seqcore.Engine.{
  new, emit, has_hole, input_error, order_error, perfects, validate_identity, episode_id,
}
use heisentick_strat.Seqcore.Step.{advance, open_bar, run_phases, snapshot_of, step}
use heisentick_strat.Seqcore.Phases.{
  cancel_phase, compare_close, complete_setup, count_phase, countdown_phase, emit_diagnostics,
  next_run, perfect_late, qualifies, recycle_phase, setup_phase, with_run, count_bar,
  count_or_defer, terminal_ok,
}
use heisentick_strat.Sequential.MarketChecks.{marked-NoMismatch, NoMismatch}
use heisentick_strat.Sequential.MarketRun.{run_market-NoMismatch}
use heisentick_strat.Sequential.Market.{checked, run_market, MarketRun, MarketError}
use heisentick_strat.Broker.Execution.{hold, no_position}
use heisentick_strat.Seqcore.Engine.{fresh_engine}
use heisentick_strat.Seqcore.Types.{default_config}
use heisentick_strat.Broker.Types.{Broker, Position, Collector}
use heisentick_strat.Sequential.Types.{Scheduler, Spec, ExecutionError}
use heisentick_strat.Sequential.Run.{
  StartError, run_sequential, atr_fault, finalized, new_scheduler, refuse_pending, run_steps,
  identity_for, initial,
}
use heisentick_strat.Sequential.Fill.{
  Bracket, bracket_of, cap_size, carry_out, fill, plan_fill, reject, set_at, slipped, target_at,
}
use heisentick_strat.Sequential.Resolution.{RunDone, run_sequential-RunDone}
use heisentick_strat.Sequential.Scheduler.{
  accept_event, accept_events, admit, after_core, after_fill, any_side, consider, decide,
  exit_by_time, fill_waiting, find_anchor, is_member, numbers_fault, propose, scheduler_step,
  take_candidates, trade_fault, trigger_of,
}
use heisentick_strat.Sequential.Atr.{
  atr_from, builtin_max, compute_atr, recent_extreme, recent_high, recent_low, true_range,
}

abbrev test_costs : Costs
test_costs = record {
  fee_per_unit = fin 1 0;
  fill_on = bytes "close";
  slippage = fin 1 0;
  slippage_bps = fin 0 0;
  start_equity = fin 1000 0;
}

abbrev test_candle : ℕ → ℕ → Candle
test_candle i c = record {
  t = fin (i * 3600000) 0;
  o = fin c 0;
  h = fin (c + 1) 0;
  l = fin (c - 1) 0;
  c = fin c 0;
  v = fin 0 0;
}

-- A rise and then a fall: a buy setup completes at bar 14.
abbrev test_bars : List Candle
test_bars =
    test_candle 0 1000
    ∷ test_candle 1 1002
    ∷ test_candle 2 1004
    ∷ test_candle 3 1006
    ∷ test_candle 4 1008
    ∷ test_candle 5 1010
    ∷ test_candle 6 1000
    ∷ test_candle 7 990
    ∷ test_candle 8 980
    ∷ test_candle 9 970
    ∷ test_candle 10 960
    ∷ test_candle 11 950
    ∷ test_candle 12 940
    ∷ test_candle 13 930
    ∷ test_candle 14 920
    ∷ test_candle 15 910
    ∷ test_candle 16 900
    ∷ test_candle 17 890
    ∷ test_candle 18 880
    ∷ test_candle 19 870
    ∷ test_candle 20 860
    ∷ []

abbrev test_spec : Spec
test_spec = record {
  profile = bytes "seq.full.public_approx.v1";
  policy = bytes "E1";
  symbol = bytes "EURUSD";
  timeframe = bytes "1h";
  risk_usd = fin 5 0;
  max_notional_usd = fin 9 0;
}

abbrev test_result : Option ((Scheduler × Option ExecutionError) ⊎ StartError)
test_result =
    run_sequential test_math test_spec test_costs test_bars true (some (new_collector (fin 1000 0)))

-- The opportunities of a result, and the trades.
abbrev counts : Option ((Scheduler × Option ExecutionError) ⊎ StartError) → Option (ℕ × ℕ × Bool)
counts none = none
counts (some (inr e)) = none
counts (some (inl (s, e))) = some (length s.opportunities, length s.broker.trades, is_some e)

abbrev test_counts : Option (ℕ × ℕ × Bool)
test_counts = counts test_result

-- One opportunity, one trade and no error.
test_counted : test_counts ≡ some (1, 1, false)
unfolding run_sequential new_scheduler compute_atr atr_from true_range builtin_max run_steps
    scheduler_step exit_by_time fill_waiting fill after_fill numbers_fault trade_fault accept_events
    after_core accept_event consider decide propose admit reject set_at take_candidates any_side
    trigger_of is_member find_anchor recent_extreme recent_low recent_high atr_fault refuse_pending
    finalized plan_fill slipped target_at cap_size carry_out text_eq timeframe_step profile_id
    test_plus test_minus test_times test_over test_absolute test_to_int64 float_le float_lt
    float_min float_max is_finite slippage_at reset_broker normalized open_position close_position
    resolve_intrabar_exit position_of fill_price stop_of target_of size_of trade_of exit_price
    pnl_of points_of drop_exits in_window record_entry record_exit mark mutation check_continuity
    settle same_trade test_identical all_finite fail unrealized_of lookup_meta new validate_config
    validate_identity checkpoint_schema freeze_id default_config default_identity step advance
    open_bar has_hole order_error input_error compare_close run_phases setup_phase complete_setup
    next_run perfect_late perfects with_run cancel_phase countdown_phase count_phase qualifies
    recycle_phase emit_diagnostics emit snapshot_of valid_bar add64 sub64 count_or_defer terminal_ok
    count_bar episode_id format_int
test_counted = refl

run_sequential-RunDone_example : Ensures (RunDone test_math test_same test_to_word 21) test_result
run_sequential-RunDone_example =
    run_sequential-RunDone test_math test_same test_to_word test_spec test_costs test_bars
      (some (fin 1000 0))

abbrev test_bracket : Bracket
test_bracket = bracket_of test_math test_spec long (fin 101 0) (fin 90 0)

abbrev test_bar : Candle
test_bar = test_candle 0 100

-- A position of size two that was opened at 100 for a fee of two, and the collector that saw it.
abbrev test_position : Position
test_position = record no_position {
  entry = fin 100 0;
  size = fin 2 0;
  sl = fin 90 0;
  tp = fin 120 0;
}

abbrev test_broker : Broker
test_broker = hold test_math (reset_broker test_math test_costs) test_position

abbrev test_collector : Collector
test_collector = record_entry test_math (new_collector (fin 1000 0)) test_broker (fin 0 0)

abbrev test_scheduler : Scheduler
test_scheduler =
    initial test_spec (fresh_engine default_config (identity_for test_spec (int 3600000)))
      test_broker

marked-NoMismatch_example : Ensures NoMismatch (
    checked test_math
      (test_bar ∷ [])
      test_scheduler
      (some (mark test_math test_collector test_broker 0 test_bar)))
unfolding record_entry mutation check_continuity mark reset_broker normalized all_finite is_finite
    float_lt float_le test_plus test_minus test_times test_identical unrealized_of fail
marked-NoMismatch_example =
    marked-NoMismatch test_math test_same (test_bar ∷ []) test_scheduler test_collector 0 test_bar
      refl (refl, (refl, refl, refl, refl, refl, refl), refl, refl, (refl, refl), refl) refl

abbrev market_counts : Option (MarketRun ⊎ MarketError) → Option (ℕ × ℕ)
market_counts none = none
market_counts (some (inr e)) = none
market_counts (some (inl r)) = some (length r.accounting.marks, length r.accounting.trades)

-- The marks and trades of a market run over the same series.
abbrev test_market : Option (ℕ × ℕ)
test_market = market_counts (run_market test_math test_spec test_costs test_bars none)

run_market-NoMismatch_example :
    Ensures NoMismatch (run_market test_math test_spec test_costs test_bars none)
run_market-NoMismatch_example =
    run_market-NoMismatch test_math test_same test_to_word test_spec test_costs test_bars none tt
