-- ===== src/Scheduling/Tests.antt =====
-- A window over four bars, and source events of two source bars.
use heisentick_strat.Prelude.{
  neg, int, Float, List, Option, Ensures, [], add64, false, fin, float_le, float_lt, int, refl,
  some, ◌∷◌, ◌≡◌,
}
use heisentick_strat.Broker.Types.{Bounds}
use heisentick_strat.Broker.Scheduled.{ScheduledEntry}
use heisentick_strat.Broker.TestMath.{test_math, test_plus, test_minus, test_to_int64}
use heisentick_strat.Scheduling.Causal.{Causal, schedule_source_events-Causal}
use heisentick_strat.Scheduling.Window.{
  ExecutionWindow, index_of, resolve_execution_window, second_last, window_of,
}
use heisentick_strat.Scheduling.Resolve.{Resolved, resolve_execution_window-Resolved}
use heisentick_strat.Scheduling.Schedule.{
  duration_from, has_seen, inferred_duration, schedule_from, schedule_source_events, schedule_turn,
  skip_closed,
}

abbrev test_times_of_bars : List Float
test_times_of_bars = fin 10 0 ∷ fin 20 0 ∷ fin 30 0 ∷ fin 40 0 ∷ []

-- From the second bar to the next bar after the last.
abbrev test_window : Option ExecutionWindow
test_window = some (record {
  context_from = some (int 10);
  trade_from = some (int 20);
  trade_to = some (int 50);
  allow_gapful = false;
})

abbrev test_bounds : Bounds
test_bounds = record { context_start = 0; trade_start = 1; trade_end = 3 }

resolve_execution_window-Resolved_example :
    Resolved test_math test_times_of_bars (window_of test_window) test_bounds
unfolding resolve_execution_window index_of second_last test_minus test_to_int64 add64
resolve_execution_window-Resolved_example =
    resolve_execution_window-Resolved test_math test_times_of_bars test_window test_bounds refl

abbrev test_source : List Float
test_source = fin 0 0 ∷ fin 40 0 ∷ []

abbrev test_chart : List Float
test_chart = fin 30 0 ∷ fin 40 0 ∷ fin 50 0 ∷ fin 80 0 ∷ fin 90 0 ∷ []

abbrev test_entries : Option (List ScheduledEntry)
test_entries =
    schedule_source_events test_math test_source test_chart
      (neg 1 ∷ int 0 ∷ int 1 ∷ int 1 ∷ int 2 ∷ [])

-- The first source bar closes at 40 and the second at 80; the chart bar that opens at 40 closes at 50.
test_dispatched :
    test_entries
    ≡ some (
        record {
          source_index = 0;
          chart_index = 1;
          source_close = fin 40 0;
          entry_time = fin 80 30;
        }
        ∷ record {
          source_index = 1;
          chart_index = 3;
          source_close = fin 80 0;
          entry_time = fin 120 30;
        }
        ∷ [])
unfolding schedule_source_events inferred_duration duration_from schedule_from schedule_turn
    has_seen skip_closed test_plus test_minus float_le float_lt
test_dispatched = refl

schedule_source_events-Causal_example :
    Ensures
      (Causal test_math test_source
        (inferred_duration test_math test_source)
        test_chart
        (inferred_duration test_math test_chart)
        0
        [])
      test_entries
schedule_source_events-Causal_example =
    schedule_source_events-Causal test_math test_source test_chart
      (neg 1 ∷ int 0 ∷ int 1 ∷ int 1 ∷ int 2 ∷ [])
