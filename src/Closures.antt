-- ===== src/Closures.antt =====
-- engine/sequential_closure_calendar.go and the timeframes of dsl/sequential_full_config.go: the
-- declared closures of a market, and the holes between bars that they explain. The walk over the
-- JSON tokens is not modelled; the regular expressions and the digest are arguments.
use heisentick_strat.Prelude.{
  ℕ, Bool, Int64, List, Option, Text, [], add64, bias, bytes, false, if◌then◌else◌, int, leb,
  length, ltb, none, not, some, text_eq, ◌%◌, ◌&&◌, ◌+◌, ◌-◌, ◌==◌, ◌||◌, ◌∷◌, sub64, true, ◌++◌,
  ◌/◌,
}
pub mod Declared
mod Tests

pub record SequentialClosure : Type 0 where
  pub start_ms : Int64
  pub end_ms : Int64

pub record SequentialClosureCalendar : Type 0 where
  pub schema : Text
  pub calendar_id : Text
  pub provider : Text
  pub symbol : Text
  pub timeframe : Text
  pub version : Text
  pub closures : List SequentialClosure
  pub sha256 : Text

-- The fields that a SequentialCalendarError names, with its index where there is one.
pub data CalendarFault : Type 0 where
  bad_schema bad_calendar_id bad_provider bad_version bad_symbol bad_timeframe : CalendarFault
  too_many_closures bad_sha256 : CalendarFault
  bad_interval bad_grid bad_order contains_bar : ℕ → CalendarFault

-- SequentialFullTimeframeMS
unfoldable pub timeframe_step : Text → Option Int64
timeframe_step t =
    if text_eq t (bytes "1m")
    then some (int 60000)
    else if text_eq t (bytes "5m")
    then some (int 300000)
    else if text_eq t (bytes "15m")
    then some (int 900000)
    else if text_eq t (bytes "30m")
    then some (int 1800000)
    else if text_eq t (bytes "1h")
    then some (int 3600000)
    else if text_eq t (bytes "4h")
    then some (int 14400000)
    else if text_eq t (bytes "1d")
    then some (int 86400000)
    else none

abbrev pub calendar_max_ms : Int64
calendar_max_ms = int 9007199254740991

abbrev pub is_unordered : Option SequentialClosure → SequentialClosure → Bool
is_unordered none c = false
is_unordered (some before) c = leb c.start_ms before.end_ms

-- The loop over the closures, from the index of the next one and the one before it. Both ends are
-- in range where the difference is taken, so that it is a natural number.
unfoldable pub closures_fault :
    Int64 → ℕ → Option SequentialClosure → List SequentialClosure → Option CalendarFault
closures_fault step i before [] = none
closures_fault step i before (c ∷ cs) =
    let rest = closures_fault step (i + 1) (some c) cs in
    if ltb c.start_ms (int 0) || ltb calendar_max_ms c.end_ms || leb c.end_ms c.start_ms
    then some (bad_interval i)
    else if not ((c.end_ms - c.start_ms) % (step - bias) == 0)
    then some (bad_grid i)
    else if is_unordered before c
    then some (bad_order i)
    else rest

-- The regular expressions, and the digest of a calendar.
pub record CalendarLibrary : Type 0 where
  pub is_ident : Text → Bool
  pub is_symbol : Text → Bool
  pub is_hash : Text → Bool
  pub calendar_digest : SequentialClosureCalendar → Text

module _ (lib : CalendarLibrary) where
  unfoldable pub sized_fault : SequentialClosureCalendar → Int64 → Option CalendarFault
  sized_fault c step =
      if ltb 100000 (length c.closures)
      then some too_many_closures
      else (elim (closures_fault step 0 none c.closures) [
        | some fault ↦ some fault
        | none ↦
            if not (lib.is_hash c.sha256) || not (text_eq c.sha256 (lib.calendar_digest c))
            then some bad_sha256
            else none
      ])

  -- DecodeSequentialClosureCalendar of a decoded calendar.
  unfoldable pub calendar_fault : SequentialClosureCalendar → Option CalendarFault
  calendar_fault c =
      if not (text_eq c.schema (bytes "sequential-closure-calendar-v1"))
      then some bad_schema
      else if not (lib.is_ident c.calendar_id)
      then some bad_calendar_id
      else if not (lib.is_ident c.provider)
      then some bad_provider
      else if not (lib.is_ident c.version)
      then some bad_version
      else if not (lib.is_symbol c.symbol)
      then some bad_symbol
      else (elim (timeframe_step c.timeframe) [
        | none ↦ some bad_timeframe
        | some step ↦ sized_fault c step
      ])

-- sort.Search for the first closure that starts at `start` or later, in closures sorted by their
-- start, and the test that it is [start, open).
unfoldable pub find_closure : Int64 → Int64 → ℕ → List SequentialClosure → Option ℕ
find_closure start open_ms i [] = none
find_closure start open_ms i (c ∷ cs) =
    let rest = find_closure start open_ms (i + 1) cs in
    if leb start c.start_ms
    then (if c.start_ms == start && c.end_ms == open_ms then some i else none)
    else rest

-- closureIndexFor; none stands for -1.
unfoldable pub closure_index_for : SequentialClosureCalendar → Int64 → Int64 → Int64 → Option ℕ
closure_index_for c previous_open open_ms step =
    find_closure (add64 previous_open step) open_ms 0 c.closures

pub record AppliedClosure : Type 0 where
  pub closure_index : ℕ
  pub before_index : ℕ
  pub start_ms : Int64
  pub end_ms : Int64
  pub missing_bars : Int64

-- What MatchBars returns: which bars follow a closure, with those closures; the index of the bar
-- after an undeclared gap; or the fault of a closure that contains a bar.
pub data Matched : Type 0 where
  matched : List Bool → List AppliedClosure → Matched
  undeclared_gap : ℕ → Matched
  contradicted : CalendarFault → Matched

abbrev pub prepend : Bool → List AppliedClosure → Matched → Matched
prepend mark applied (matched marks closures) = matched (mark ∷ marks) (applied ++ closures)
prepend mark applied (undeclared_gap i) = undeclared_gap i
prepend mark applied (contradicted fault) = contradicted fault

-- The closure before the bar at `i`. The hole is longer than the step, so that its parts are natural
-- numbers; the closure that find_closure finds starts and ends with the hole.
abbrev pub applied_at : ℕ → Int64 → Int64 → Int64 → ℕ → AppliedClosure
applied_at i previous open_ms step index = record {
  closure_index = index;
  before_index = i;
  start_ms = add64 previous step;
  end_ms = open_ms;
  missing_bars = int ((open_ms - previous) / (step - bias) - 1);
}

-- The loop over the bars after the first, by their opens.
unfoldable pub match_holes : SequentialClosureCalendar → Int64 → ℕ → Int64 → List Int64 → Matched
match_holes c step i previous [] = matched [] []
match_holes c step i previous (open_ms ∷ opens) =
    let rest = match_holes c step (i + 1) open_ms opens in
    if leb (sub64 open_ms previous) step
    then prepend false [] rest
    else (elim (closure_index_for c previous open_ms step) [
      | none ↦ undeclared_gap i
      | some index ↦ prepend true (applied_at i previous open_ms step index ∷ []) rest
    ])

-- sort.Search for the first bar that opens at `start` or later.
unfoldable pub first_from : Int64 → List Int64 → Option Int64
first_from start [] = none
first_from start (open_ms ∷ opens) =
    let rest = first_from start opens in if leb start open_ms then some open_ms else rest

abbrev pub is_inside : Option Int64 → Int64 → Bool
is_inside none end_ms = false
is_inside (some open_ms) end_ms = ltb open_ms end_ms

-- The loop over the closures that looks for a bar inside one.
unfoldable pub contains_fault : List Int64 → ℕ → List SequentialClosure → Option CalendarFault
contains_fault opens k [] = none
contains_fault opens k (c ∷ cs) =
    let rest = contains_fault opens (k + 1) cs in
    if is_inside (first_from c.start_ms opens) c.end_ms then some (contains_bar k) else rest

abbrev pub unless_contradicted : Option CalendarFault → Matched → Matched
unless_contradicted (some fault) (matched marks closures) = contradicted fault
unless_contradicted _ m = m

-- MatchBars, on the opens of the bars.
unfoldable pub match_bars : SequentialClosureCalendar → List Int64 → Int64 → Matched
match_bars c [] step = matched [] []
match_bars c (first ∷ opens) step =
    unless_contradicted (contains_fault (first ∷ opens) 0 c.closures)
      (prepend false [] (match_holes c step 1 first opens))

-- BindRoute, given the symbol and the timeframe of the route.
unfoldable pub bind_route : SequentialClosureCalendar → Text → Text → Option CalendarFault
bind_route c symbol timeframe =
    if not (text_eq c.symbol symbol)
    then some bad_symbol
    else if not (text_eq c.timeframe timeframe)
    then some bad_timeframe
    else none
