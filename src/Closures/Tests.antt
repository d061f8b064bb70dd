-- ===== src/Closures/Tests.antt =====
-- A calendar of two closures.
use heisentick_strat.Prelude.{
  [], add64, bytes, int, is_some, none, refl, some, text_eq, true, ◌∷◌, ◌≡◌, Int64, List, false,
  sub64,
}
use heisentick_strat.Closures.{
  CalendarLibrary, SequentialClosureCalendar, calendar_fault, closure_index_for, closures_fault,
  sized_fault, timeframe_step, contains_fault, find_closure, first_from, match_bars, match_holes,
  matched,
}
use heisentick_strat.Closures.Declared.{closure_index_declared, is_declared}

abbrev test_library : CalendarLibrary
test_library = record {
  is_ident = λ s. true;
  is_symbol = λ s. true;
  is_hash = λ s. true;
  calendar_digest = λ c. bytes "digest";
}

abbrev test_calendar : SequentialClosureCalendar
test_calendar = record {
  schema = bytes "sequential-closure-calendar-v1";
  calendar_id = bytes "c";
  provider = bytes "p";
  symbol = bytes "EURUSD";
  timeframe = bytes "1m";
  version = bytes "1";
  closures =
      record { start_ms = int 120000; end_ms = int 300000 }
      ∷ record { start_ms = int 600000; end_ms = int 720000 }
      ∷ [];
  sha256 = bytes "digest";
}

test_accepted : calendar_fault test_library test_calendar ≡ none
unfolding calendar_fault sized_fault closures_fault timeframe_step text_eq
test_accepted = refl

test_step : timeframe_step test_calendar.timeframe ≡ some (int 60000)
unfolding timeframe_step text_eq
test_step = refl

-- The hole between the bars at 540000 and 720000.
closure_index_declared_example :
    is_some (closure_index_for test_calendar (int 540000) (int 720000) (int 60000))
    ≡ is_declared (add64 (int 540000) (int 60000)) (int 720000) test_calendar.closures
closure_index_declared_example =
    closure_index_declared test_library test_calendar (int 540000) (int 720000) (int 60000)
      test_accepted test_step

abbrev test_opens : List Int64
test_opens = int 480000 ∷ int 540000 ∷ int 720000 ∷ int 780000 ∷ []

-- One hole of two bars, explained by the second closure.
test_match :
    match_bars test_calendar test_opens (int 60000)
    ≡ matched (false ∷ false ∷ true ∷ false ∷ []) (
        record {
          closure_index = 1;
          before_index = 2;
          start_ms = int 600000;
          end_ms = int 720000;
          missing_bars = int 2;
        }
        ∷ [])
unfolding match_bars match_holes contains_fault first_from closure_index_for find_closure add64
    sub64
test_match = refl
