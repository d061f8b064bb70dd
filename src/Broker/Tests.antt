-- ===== src/Broker/Tests.antt =====
-- A run of a captured order over three bars.
use heisentick_strat.Prelude.{
  ℕ, List, [], bytes, false, fin, length, none, refl, some, true, ◌∷◌, ◌≡◌, Float, arith, float_le,
  float_lt, text_eq, ◌≤◌, ◌⊎◌,
}
use heisentick_strat.Broker.Types.{Broker, Candle, Costs, Order, long, Position, stop_loss}
use heisentick_strat.Broker.Execution.{
  no_position, clear_execution_orders, close_position, drop_exits, exit_price, fill_price,
  fills_market_at_next_open, in_window, open_position, pnl_of, points_of, position_of,
  resolve_intrabar_exit, size_of, slippage_at, stop_of, target_of, trade_of,
}
use heisentick_strat.Broker.Run.{run_scheduled-flat, run_scheduled-exposure}
use heisentick_strat.Broker.Chain.{run_scheduled-Chain, Chain}
use heisentick_strat.Broker.Bracket.{resolve_intrabar_exit-stop_loss}
use heisentick_strat.Broker.Accounts.{accounts-Stable}
use heisentick_strat.Broker.Agreement.{Agrees}
use heisentick_strat.Broker.Exposure.{Stable, exposure}
use heisentick_strat.Broker.TestMath.{
  test_math, test_plus, test_minus, test_times, test_over, test_absolute, test_same,
}
use heisentick_strat.Broker.Scheduled.{
  ScheduledEntry, run_scheduled, captured_at, close_expired_window_position, dispatch_all,
  dispatch_captured, fill_limit, fill_limits, fill_limits_from, fill_pending, fill_pending_from,
  liquidate, lookup_meta, numeric_meta_value, order_of_source, queue_market_at_next_open,
  run_scheduled_from, scheduled_bar,
}

abbrev test_candle : ℕ → ℕ → ℕ → ℕ → ℕ → Candle
test_candle t o h l c = record {
  t = fin t 0;
  o = fin o 0;
  h = fin h 0;
  l = fin l 0;
  c = fin c 0;
  v = fin 0 0;
}

abbrev test_costs : Costs
test_costs = record {
  fee_per_unit = fin 1 0;
  fill_on = bytes "open";
  slippage = fin 0 0;
  slippage_bps = fin 0 0;
  start_equity = fin 1000 0;
}

abbrev test_order : Order
test_order = record {
  side = long;
  sl = fin 90 0;
  tp = fin 120 0;
  size = fin 2 0;
  has_size = true;
  risk_usd = fin 0 0;
  has_risk = false;
  tag = [];
  meta = [];
  index = 0;
  limit = fin 0 0;
  has_limit = false;
  no_slip = false;
  placed_at = 0;
  expire_at = 0;
  expire_bars = 0;
  stop_distance = fin 0 0;
  has_stop_distance = false;
  target_distance = fin 0 0;
  has_target_distance = false;
  gap_aware_stop = false;
  no_target = false;
  no_stop = false;
}

abbrev test_entries : List ScheduledEntry
test_entries =
    record { source_index = 0; chart_index = 0; source_close = fin 0 0; entry_time = fin 1 0 } ∷ []

abbrev test_bars : List Candle
test_bars =
    test_candle 0 100 105 95 100 ∷ test_candle 1 100 110 95 108 ∷ test_candle 2 108 110 85 95 ∷ []

abbrev test_broker : Broker
test_broker = record {
  accounting = none;
  costs = test_costs;
  position = no_position;
  has_position = false;
  pending_orders = [];
  pending_exits = [];
  limit_orders = [];
  trades = [];
  realized = fin 0 0;
  last_exit_index = none;
  window = some (record { context_start = 0; trade_start = 0; trade_end = 2 });
}

abbrev test_run : Broker
test_run = run_scheduled test_math test_entries (test_order ∷ []) true test_broker test_bars

-- One trade, stopped out on the last bar.
test_trades : length test_run.trades ≡ 1
unfolding run_scheduled run_scheduled_from scheduled_bar fill_pending fill_pending_from fill_limits
    fill_limits_from fill_limit close_expired_window_position resolve_intrabar_exit dispatch_all
    dispatch_captured captured_at order_of_source open_position close_position liquidate
    clear_execution_orders queue_market_at_next_open fills_market_at_next_open in_window position_of
    fill_price slippage_at stop_of target_of size_of trade_of exit_price pnl_of points_of drop_exits
    lookup_meta numeric_meta_value test_plus test_minus test_times test_over test_absolute float_le
    float_lt text_eq
test_trades = refl

run_scheduled-flat_example : test_run.has_position ≡ false
run_scheduled-flat_example =
    run_scheduled-flat test_math test_entries (test_order ∷ []) test_broker test_bars refl

run_scheduled-exposure_example : exposure test_run ≤ 1
run_scheduled-exposure_example =
    run_scheduled-exposure test_math test_entries (test_order ∷ []) true test_broker test_bars
      (omega arith)

run_scheduled-Chain_example : Chain test_broker.window 0 test_run.trades 2
run_scheduled-Chain_example =
    run_scheduled-Chain test_math test_entries (test_order ∷ []) test_broker test_bars refl refl
      (omega arith)

-- A position that the second bar takes to its stop and to its target.
abbrev test_position : Position
test_position = record no_position {
  entry = fin 100 0;
  size = fin 2 0;
  sl = fin 90 0;
  tp = fin 105 0;
}

abbrev test_held : Broker
test_held = record test_broker { position = test_position; has_position = true }

abbrev test_both : Candle
test_both = test_candle 1 100 110 85 100

resolve_intrabar_exit-stop_loss_example :
    (price : Float) × (resolve_intrabar_exit test_math test_held 1 test_both
      ≡ close_position test_math test_held price 1 test_both stop_loss [])
    × ((price ≡ fin 100 0) ⊎ (price ≡ fin 90 0))
unfolding float_le
resolve_intrabar_exit-stop_loss_example =
    resolve_intrabar_exit-stop_loss test_math test_held 1 test_both refl refl refl refl

accounts-Stable_example : Stable test_math 0 test_both (Agrees 0)
accounts-Stable_example = accounts-Stable test_math test_same 0 0 test_both
