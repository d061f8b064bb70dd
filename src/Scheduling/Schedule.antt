-- ===== src/Scheduling/Schedule.antt =====
-- engine/entry_scheduler.go: the duration of a series, the supported routes, and the chart bars on
-- which completed source decisions are dispatched.
use heisentick_strat.Prelude.{
  ℕ, Bool, Float, Int64, bias, int, ltb, ◌-◌, List, Option, Text, [], bytes, false, float_le,
  float_lt, get_elem?, if◌then◌else◌, none, some, text_eq, ◌&&◌, ◌+◌, ◌==◌, ◌||◌, ◌∷◌,
}
use heisentick_strat.Broker.Types.{Arithmetic, zero_float, float_eq}
use heisentick_strat.Broker.Scheduled.{ScheduledEntry}

-- supportedSourceEntryRoutes
abbrev pub supported_routes : List (Text × Text)
supported_routes =
    (bytes "4h", bytes "15m")
    ∷ (bytes "4h", bytes "30m")
    ∷ (bytes "1h", bytes "5m")
    ∷ (bytes "15m", bytes "1m")
    ∷ []

unfoldable pub has_route : Text → Text → List (Text × Text) → Bool
has_route source entry [] = false
has_route source entry ((s, e) ∷ routes) =
    (text_eq s source && text_eq e entry) || has_route source entry routes

-- supportedSourceEntryRoute
unfoldable pub supported_source_entry_route : Text → Text → Text → Bool
supported_source_entry_route symbol source entry = has_route source entry supported_routes

unfoldable pub has_seen : ℕ → List ℕ → Bool
has_seen k [] = false
has_seen k (j ∷ js) = j == k || has_seen k js

module _ (math : Arithmetic) where
  abbrev pub shorter : Float → Float → Float
  shorter duration delta =
      if float_lt zero_float delta && (float_eq duration zero_float || float_lt delta duration)
      then delta
      else duration

  -- The loop of inferredDuration after a first time.
  unfoldable pub duration_from : Float → Float → List Float → Float
  duration_from duration previous [] = duration
  duration_from duration previous (t ∷ ts) =
      duration_from (shorter duration (math.minus t previous)) t ts

  unfoldable pub inferred_duration : List Float → Float
  inferred_duration [] = zero_float
  inferred_duration (t ∷ ts) = duration_from zero_float t ts

  -- The inner loop: the first index from i whose bar closes after a source close, and the opens
  -- from there.
  unfoldable pub skip_closed : Float → Float → ℕ → List Float → ℕ × List Float
  skip_closed duration source_close i [] = (i, [])
  skip_closed duration source_close i (t ∷ ts) =
      let rest = skip_closed duration source_close (i + 1) ts in
      if float_le (math.plus t duration) source_close then rest else (i, t ∷ ts)

  -- A source decision with its chart bar, unless the chart has ended.
  abbrev pub dispatch_at :
      ℕ → Float → Float → ℕ × List Float → List ScheduledEntry → List ScheduledEntry
  dispatch_at source_index source_close duration (i, []) rest = rest
  dispatch_at source_index source_close duration (i, t ∷ ts) rest =
      record {
        source_index = source_index;
        chart_index = i;
        source_close = source_close;
        entry_time = math.plus t duration;
      }
      ∷ rest

  -- A turn of the loop over source indexes, for the index k and the time of its bar, if any. `seen`
  -- are the indexes before, and the chart is given from chartIndex.
  unfoldable pub schedule_turn :
      Float
      → Float
      → Float
      → ℕ
      → Option Float
      → List ℕ
      → ℕ × List Float
      → (List ℕ → ℕ × List Float → List ScheduledEntry)
      → List ScheduledEntry
  schedule_turn source_duration first_open duration k none seen chart continue = continue seen chart
  schedule_turn source_duration first_open duration k (some t) seen (i, chart) continue =
      let source_close = math.plus t source_duration in
      let next = skip_closed duration source_close i chart in
      if has_seen k seen
      then continue seen (i, chart)
      else if float_lt source_close first_open
      then continue (k ∷ seen) (i, chart)
      else dispatch_at k source_close duration next (continue (k ∷ seen) next)

  -- The time of a source bar; an index below 0 or past the end has none.
  abbrev pub source_time : List Float → Int64 → Option Float
  source_time source k = if ltb k (int 0) then none else get_elem? source (k - bias)

  unfoldable pub schedule_from :
      List Float
      → Float
      → Float
      → Float
      → List ℕ
      → ℕ × List Float
      → List Int64
      → List ScheduledEntry
  schedule_from source source_duration first_open duration seen chart [] = []
  schedule_from source source_duration first_open duration seen chart (k ∷ ks) =
      schedule_turn source_duration first_open duration (k - bias) (source_time source k) seen chart
        (λ seen' chart'. schedule_from source source_duration first_open duration seen' chart' ks)

  abbrev pub not_long : Float → Bool
  not_long duration = float_le duration zero_float

  -- The times of the chart are read from its first one.
  abbrev pub schedule_in :
      List Float → Float → Float → List Int64 → List Float → Option (List ScheduledEntry)
  schedule_in source source_duration duration ks [] = none
  schedule_in source source_duration duration ks (first_open ∷ opens) =
      some (schedule_from source source_duration first_open duration [] (0, first_open ∷ opens) ks)

  -- ScheduleSourceEvents; none is a panic.
  unfoldable pub schedule_source_events :
      List Float → List Float → List Int64 → Option (List ScheduledEntry)
  schedule_source_events source chart ks =
      if not_long (inferred_duration source) || not_long (inferred_duration chart)
      then some []
      else schedule_in source (inferred_duration source) (inferred_duration chart) ks chart
