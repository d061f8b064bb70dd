-- ===== src/Seqcore/Engine.antt =====
-- engine/seqcore/core.go: the state of the engine, construction, and the helpers of one bar.
use heisentick_strat.Prelude.{
  Bool, true, false, not, ◌&&◌, Option, none, some, List, [], ◌∷◌, ◌++◌, Int64, int, neg, add64,
  sub64, max_int64, ltb, leb, ◌==◌, Float, float_lt, Text, bytes, text_eq, format_int,
  if◌then◌else◌,
}
use heisentick_strat.Seqcore.Types.{
  Config, Identity, Bar, BarOrderError, out_of_order_bar, duplicate_bar, InvalidInput,
  timeframe_not_positive, bad_ohlc, closure_without_hole, decision_time_overflow,
  event_sequence_exhausted, bar_index_exhausted, Detail, reference_detail, Side, buy, sell,
  EventSide, Phase, EventType, Reason, Event, CompletedSetup, CountdownState, Countdown,
  SideSnapshot, ConfigField, CheckpointIdentityError, schema_version_field, profile_id_field,
  freeze_id_field, valid_bar, validate_config, profile_id, freeze_id, checkpoint_schema,
}

-- The embedded SideSnapshot and the close of the Countdown's bar 8.
pub record SideState : Type 0 where
  pub snapshot : SideSnapshot
  pub open snapshot use *
  pub bar8_close : Option Float

pub record Engine : Type 0 where
  pub config : Config
  pub identity : Identity
  pub last_index : Int64
  pub last_open : Option Int64
  pub last_event_seq : Int64
  pub init_diagnostics_emitted : Bool
  pub history : List Bar
  pub previous_comparison : Int64
  pub buy_side : SideState
  pub sell_side : SideState
  pub terminal : Option BarOrderError

-- The errors of the package's functions, by their types.
pub data CoreError : Type 0 where
  unsupported_config : ConfigField → CoreError
  bar_order : BarOrderError → CoreError
  invalid_input : InvalidInput → CoreError
  checkpoint_identity : CheckpointIdentityError → CoreError
  invalid_checkpoint : CoreError

pub data Result {ℓ} (A : Type ℓ) : Type ℓ where
  ok : A → Result A
  err : CoreError → Result A

abbrev pub idle_countdown : Countdown
idle_countdown = record {
  state = CountdownState.idle;
  count = int 0;
  setup_episode_id = none;
  bar5_index = none;
  bar8_index = none;
  bar13_index = none;
}

-- `e.clearCountdown(i)`
abbrev pub clear_countdown : SideState → SideState
clear_countdown s = record {
  snapshot = record (s.snapshot) { countdown = idle_countdown };
  bar8_close = none;
}

abbrev pub zero_side : SideState
zero_side = clear_countdown (record {
  snapshot = record {
    setup_run = int 0;
    setup_active = false;
    last_completed_setup = none;
    countdown = idle_countdown;
  };
  bar8_close = none;
})

unfoldable pub validate_identity : Identity → Option CoreError
validate_identity id =
    if not (text_eq id.schema_version checkpoint_schema)
    then some (checkpoint_identity (record { field = schema_version_field; kind = none }))
    else if not (text_eq id.profile_id profile_id)
    then some (checkpoint_identity (record { field = profile_id_field; kind = none }))
    else if not (text_eq id.freeze_id freeze_id)
    then some (checkpoint_identity (record { field = freeze_id_field; kind = none }))
    else if leb id.timeframe_ms (int 0)
    then some (invalid_input timeframe_not_positive)
    else none

abbrev pub fresh_engine : Config → Identity → Engine
fresh_engine config identity = record {
  config = config;
  identity = identity;
  last_index = neg 1;
  last_open = none;
  last_event_seq = int 0;
  init_diagnostics_emitted = false;
  history = [];
  previous_comparison = int 0;
  buy_side = zero_side;
  sell_side = zero_side;
  terminal = none;
}

-- New
unfoldable pub new : Config → Identity → Result Engine
new config identity = elim (validate_config config) [
  | some field ↦ err (unsupported_config field)
  | none ↦ elim (validate_identity identity) [
    | some e ↦ err e
    | none ↦ ok (fresh_engine config identity)
  ]
]

-- Identity
unfoldable pub identity_of : Engine → Identity
identity_of e = e.identity

-- What `emit` appends to, and what it reads of the bar.
pub record Log : Type 0 where
  pub seq : Int64
  pub events : List Event

pub record BarContext : Type 0 where
  pub index : Int64
  pub bar_open_ms : Int64
  pub decision_ms : Int64

-- The closure `emit` of `step`.
unfoldable pub emit :
    BarContext → Log → Phase → EventType → EventSide → Reason → Text → Option Detail → Log
emit x log phase kind side reason episode detail = record {
  seq = add64 log.seq (int 1);
  events =
      log.events
      ++ record {
        event_seq = add64 log.seq (int 1);
        bar_index = x.index;
        phase = phase;
        kind = kind;
        side = side;
        reason = reason;
        episode_id = episode;
        detail = detail;
        bar_open_ms = x.bar_open_ms;
        decision_ms = x.decision_ms;
      }
        ∷ [];
}

abbrev pub side_name : Side → Text
side_name buy = bytes "buy"
side_name sell = bytes "sell"

-- "%s:%s:%s:%s:" of the profile, symbol, timeframe and side.
abbrev pub episode_prefix : Identity → Side → Text
episode_prefix id side =
    id.profile_id
    ++ (58 ∷ id.source.symbol ++ (58 ∷ id.source.timeframe ++ (58 ∷ side_name side ++ 58 ∷ [])))

unfoldable pub episode_id : Identity → Side → Int64 → Text
episode_id id side open_ms = episode_prefix id side ++ format_int open_ms

abbrev pub extreme : Bar → Side → Float
extreme b buy = b.l
extreme b sell = b.h

unfoldable pub perfects : Float → CompletedSetup → Side → Bool
perfects v s buy = float_lt v s.bar6_extreme && float_lt v s.bar7_extreme
perfects v s sell = float_lt s.bar6_extreme v && float_lt s.bar7_extreme v

abbrev pub is_unfinished : CountdownState → Bool
is_unfinished CountdownState.active = true
is_unfinished CountdownState.deferred = true
is_unfinished _ = false

abbrev pub unfinished : Countdown → Bool
unfinished c = is_unfinished c.state

abbrev pub references : Countdown → Detail
references c = reference_detail c.count c.bar5_index c.bar8_index c.bar13_index

abbrev pub mark_perfected : BarContext → CompletedSetup → CompletedSetup
mark_perfected x s = record s {
  perfected = true;
  perfected_at_bar_index = some x.index;
  perfected_at_bar_open_ms = some x.bar_open_ms;
  perfected_at_decision_ms = some x.decision_ms;
}

-- b.OpenMS > *e.lastOpen + TimeframeMS, with a last bar.
unfoldable pub has_hole : Engine → Bar → Bool
has_hole e b = elim e.last_open [
  | none ↦ false
  | some last ↦ ltb (add64 last e.identity.timeframe_ms) b.open_ms
]

unfoldable pub order_error : Engine → Bar → Option BarOrderError
order_error e b = elim e.last_open [
  | none ↦ none
  | some last ↦
      if leb b.open_ms last
      then some (record {
        kind = if b.open_ms == last then duplicate_bar else out_of_order_bar;
        bar_index = add64 e.last_index (int 1);
        previous_open_ms = last;
        open_ms = b.open_ms;
      })
      else none
]

-- The checks that refuse a bar and leave the engine as it is, in their order.
unfoldable pub input_error : Engine → Bar → Bool → Option InvalidInput
input_error e b declared_closure =
    if not (valid_bar b)
    then some bad_ohlc
    else if declared_closure && not (has_hole e b)
    then some closure_without_hole
    else if ltb (sub64 max_int64 e.identity.timeframe_ms) b.open_ms
    then some decision_time_overflow
    else if ltb (sub64 max_int64 (int 16)) e.last_event_seq
    then some event_sequence_exhausted
    else if e.last_index == sub64 max_int64 (int 1)
    then some bar_index_exhausted
    else none
