-- ===== src/Sequential/Scheduler.antt =====
-- engine/sequential_execution.go: the step of the scheduler and its run over a series.
use heisentick_strat.Prelude.{
  ℕ, Bool, Float, List, Option, Text, [], bytes, false, if◌then◌else◌, none, some, text_eq, true,
  ◌+◌, ◌-◌, ◌||◌, ◌∷◌, get_elem?, is_finite, length, ltb, not, ◌&&◌, ◌++◌, is_some, last?, leb,
  ◌>>=◌,
}
use heisentick_strat.Broker.Types.{
  Candle, Side, long, short, Arithmetic, MetaValue, Trade, Broker, time_exit,
}
use heisentick_strat.Seqcore.Types.{Event, EventType, EventSide, buy, sell, both, on, Bar, Snapshot}
use heisentick_strat.Broker.Ledger.{side_float}
use heisentick_strat.Broker.Execution.{close_position, resolve_intrabar_exit}
use heisentick_strat.Broker.Scheduled.{lookup_meta}
use heisentick_strat.Seqcore.Engine.{ok, err, Result, Engine}
use heisentick_strat.Seqcore.Step.{step}
use heisentick_strat.Sequential.Types.{
  Scheduler, Anchor, ErrorField, ExecutionError, Opportunity, Spec, invalid_sequential_input,
  pending, unset, event_side, missing_admitting_setup, setup_anchor, signal_expired, stop_field,
  warmup, blocked_in_position, core_message, exit_or_trade_pnl, realized_field, simultaneous_signal,
}
use heisentick_strat.Sequential.Atr.{recent_extreme}
use heisentick_strat.Broker.Types.{words}
use heisentick_strat.Sequential.Fill.{derived_error, fill, reject}

abbrev pub input_error : ErrorField → ℕ → Text → ExecutionError
input_error field i id = record {
  kind = invalid_sequential_input;
  field = field;
  bar_index = some i;
  opportunity_id = id;
}

abbrev pub is_setup : EventType → Bool
is_setup EventType.setup_complete = true
is_setup _ = false

abbrev pub is_e1 : Spec → Bool
is_e1 spec = text_eq spec.policy (bytes "E1")

abbrev pub is_e2 : Spec → Bool
is_e2 spec = text_eq spec.policy (bytes "E2")

-- The trigger of an event under a policy; none is the empty string.
unfoldable pub trigger_of : Spec → EventType → Option Text
trigger_of spec EventType.perfection = if is_e1 spec then some (bytes "perf") else none
trigger_of spec EventType.delayed_perfection = if is_e1 spec then some (bytes "perf") else none
trigger_of spec EventType.countdown_complete = if is_e2 spec then some (bytes "cd13") else none
trigger_of spec _ = none

unfoldable pub is_member : Text → List Text → Bool
is_member x [] = false
is_member x (y ∷ ys) = text_eq y x || is_member x ys

unfoldable pub find_anchor : Text → List (Text × Anchor) → Option Anchor
find_anchor key [] = none
find_anchor key ((k, a) ∷ rest) = if text_eq k key then some a else find_anchor key rest

abbrev pub direction_of : EventSide → Option Side
direction_of both = none
direction_of (on buy) = some long
direction_of (on sell) = some short

-- The bars up to the current one, from the newest, and the ATR of the current one.
pub record View : Type 0 where
  pub past : List Candle
  pub atr : Float

abbrev pub anchor_at : ℕ → View → Anchor
anchor_at i v = record {
  completion = i;
  first = i - 8;
  low = recent_extreme v.past 9 long;
  high = recent_extreme v.past 9 short;
}

abbrev pub anchored : Scheduler → ℕ → View → Event → Scheduler
anchored s i v e =
    if is_setup e.kind then record s { setups = (e.episode_id, anchor_at i v) ∷ s.setups } else s

-- What a turn of the loop over events leaves: a candidate, if any, or an error.
pub data Turn : Type 0 where
  pass : Scheduler → Option ℕ → Turn
  halt : Scheduler → ExecutionError → Turn

abbrev pub opportunity_of : ℕ → View → Event → Text → Text → Anchor → Side → Float → Opportunity
opportunity_of i v e trigger id anchor side stop = record {
  id = id;
  episode_id = e.episode_id;
  trigger = trigger;
  side = side;
  setup_index = anchor.completion;
  setup_first_index = anchor.first;
  decision_index = i;
  decision_open_ms = e.bar_open_ms;
  decision_ms = e.decision_ms;
  next_open_index = i + 1;
  status = pending;
  reason = unset;
  stop = stop;
  signal_atr = v.atr;
  fill_index = none;
  fill = none;
  target = none;
  risk_distance = none;
  size = none;
  cap_binds = false;
}

abbrev pub passed : Option Scheduler → Option Turn
passed none = none
passed (some s) = some (pass s none)

-- A decision whose opportunity is appended: refused at once, or a candidate.
unfoldable pub admit : Scheduler → ℕ → Anchor → Opportunity → Option Turn
admit s i anchor o =
    let s' = record s { opportunities = s.opportunities ++ o ∷ [] } in
    let index = length s.opportunities in
    if ltb i 13
    then passed (reject s' index warmup)
    else if is_e1 s.spec && ltb 4 (i - anchor.completion)
    then passed (reject s' index signal_expired)
    else some (pass s' (some index))

module _ (math : Arithmetic) where
  abbrev pub extreme_of : Spec → ℕ → View → Anchor → Side → Float
  extreme_of spec i v anchor side =
      if is_e2 spec
      then recent_extreme v.past (i - anchor.first + 1) side
      else (elim side [ long ↦ anchor.low | short ↦ anchor.high ])

  unfoldable pub propose : Scheduler → ℕ → View → Event → Text → Text → Anchor → Side → Option Turn
  propose s i v e trigger id anchor side =
      let buffer = math.times (side_float math side) (math.times math.one_tenth v.atr) in
      let stop = math.minus (extreme_of s.spec i v anchor side) buffer in
      if not (is_finite stop)
      then some (halt s (derived_error stop_field i id))
      else admit s i anchor (opportunity_of i v e trigger id anchor side stop)

  -- A trigger that was not seen before, with the setup that admits it and its side.
  unfoldable pub decide :
      Scheduler → ℕ → View → Event → Text → Text → Option Anchor → Option Side → Option Turn
  decide s i v e trigger id none side = some (halt s (input_error missing_admitting_setup i id))
  decide s i v e trigger id (some anchor) none = some (halt s (input_error event_side i id))
  decide s i v e trigger id (some anchor) (some side) = propose s i v e trigger id anchor side

  unfoldable pub consider : Scheduler → ℕ → View → Event → Option Text → Option Turn
  consider s i v e none = some (pass s none)
  consider s i v e (some trigger) =
      let id = e.episode_id ++ bytes ":" ++ trigger in
      if is_member id s.seen
      then some (pass s none)
      else decide (record s { seen = id ∷ s.seen }) i v e trigger id
          (find_anchor e.episode_id s.setups) (direction_of e.side)

  -- A turn of the first loop of acceptEvents.
  unfoldable pub accept_event : Scheduler → ℕ → View → Event → Option Turn
  accept_event s i v e =
      if is_setup e.kind && ltb i 8
      then some (halt s (input_error setup_anchor i e.episode_id))
      else consider (anchored s i v e) i v e (trigger_of s.spec e.kind)

  abbrev pub add_candidate : List ℕ → Option ℕ → List ℕ
  add_candidate candidates none = candidates
  add_candidate candidates (some index) = candidates ++ index ∷ []

abbrev pub is_long : Side → Bool
is_long long = true
is_long short = false

abbrev pub on_side : Side → Option Opportunity → Bool
on_side side none = false
on_side side (some o) = elim side [ long ↦ is_long o.side | short ↦ not (is_long o.side) ]

-- Whether a candidate is on a side.
unfoldable pub any_side : Side → List Opportunity → List ℕ → Bool
any_side side opportunities [] = false
any_side side opportunities (k ∷ ks) =
    on_side side (get_elem? opportunities k) || any_side side opportunities ks

abbrev pub text_value : Option MetaValue → Text
text_value (some (words t)) = t
text_value _ = []

-- checkBrokerNumbers, on the last trade.
unfoldable pub trade_fault : Option Trade → Option (ErrorField × Text)
trade_fault none = none
trade_fault (some t) =
    if not (is_finite t.exit) || not (is_finite t.points) || not (is_finite t.pnl)
    then some (exit_or_trade_pnl, text_value (lookup_meta (bytes "opportunityId") t.meta))
    else none

abbrev pub both_sides : Scheduler → List ℕ → Bool
both_sides s candidates =
    any_side long s.opportunities candidates && any_side short s.opportunities candidates

-- The second loop of acceptEvents, given whether the candidates are on both sides.
unfoldable pub take_candidates : Bool → Scheduler → List ℕ → Option Scheduler
take_candidates two_sided s [] = some s
take_candidates two_sided s (index ∷ candidates) =
    (if s.broker.has_position || is_some s.pending
      then reject s index blocked_in_position
      else if two_sided
      then reject s index simultaneous_signal
      else some (record s { pending = some index }))
    >>= λ s'. take_candidates two_sided s' candidates

abbrev pub Progress : Type 0
Progress = Option (Scheduler × Option ExecutionError)

abbrev pub continued : Option Scheduler → Progress
continued none = none
continued (some s) = some (s, none)

module _ (math : Arithmetic) where
  -- acceptEvents, with the candidates so far.
  unfoldable pub accept_events : Scheduler → ℕ → View → List ℕ → List Event → Progress
  accept_events s i v candidates [] =
      continued (take_candidates (both_sides s candidates) s candidates)
  accept_events s i v candidates (e ∷ events) = accept_event math s i v e >>= λ turn. elim turn [
    | halt s' error ↦ some (s', some error)
    | pass s' candidate ↦ accept_events s' i v (add_candidate math candidates candidate) events
  ]

  unfoldable pub numbers_fault : Broker → Option (ErrorField × Text)
  numbers_fault b =
      if not (is_finite b.realized) then some (realized_field, []) else trade_fault (last? b.trades)

  -- The first action of a step: the exit at the open once the position was held long enough.
  unfoldable pub exit_by_time : Scheduler → ℕ → Candle → Scheduler
  exit_by_time s i bar =
      if s.broker.has_position && leb s.hold (i - s.broker.position.entry_index)
      then record s { broker = close_position math s.broker bar.o i bar time_exit [] }
      else s

  unfoldable pub fill_waiting : Scheduler → ℕ → Candle → Progress
  fill_waiting s i bar = elim s.pending [
    | none ↦ some (s, none)
    | some index ↦ fill math (record s { pending = none }) index i bar
  ]

  abbrev pub core_bar : Candle → Bar
  core_bar bar = record {
    open_ms = math.to_int64 bar.t;
    o = bar.o;
    h = bar.h;
    l = bar.l;
    c = bar.c;
  }

  -- The events of the count engine are accepted, or its error is returned.
  unfoldable pub after_core :
      Scheduler → ℕ → View → Engine × Result (Snapshot × List Event) → Progress
  after_core s i v (core, err e) =
      some (record s { core = core }, some (input_error core_message i []))
  after_core s i v (core, ok (snapshot, events)) =
      accept_events (record s { core = core }) i v [] events

  abbrev pub after_check :
      ℕ → View → Candle → Bool → Scheduler → Option (ErrorField × Text) → Progress
  after_check i v bar after_closure s (some (field, id)) = some (s, some (derived_error field i id))
  after_check i v bar after_closure s none =
      step s.core (core_bar bar) after_closure >>= after_core s i v

  unfoldable pub after_fill :
      ℕ → View → Candle → Bool → Scheduler × Option ExecutionError → Progress
  after_fill i v bar after_closure (s, some e) = some (s, some e)
  after_fill i v bar after_closure (s, none) =
      let s' = record s { broker = resolve_intrabar_exit math s.broker i bar } in
      after_check i v bar after_closure s' (numbers_fault s'.broker)

  -- step, on the candle at i; none is a panic.
  unfoldable pub scheduler_step : Scheduler → ℕ → View → Candle → Bool → Progress
  scheduler_step s i v bar after_closure =
      fill_waiting (exit_by_time s i bar) i bar >>= after_fill i v bar after_closure
