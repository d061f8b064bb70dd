-- ===== src/Seqcore/Types.antt =====
-- engine/seqcore/types.go: configuration, identity, bars, errors, events and snapshots. A nil
-- pointer is `none`, and a string that takes one of a few fixed values is a data type of them.
use heisentick_strat.Prelude.{
  Bool, true, false, not, ◌&&◌, Option, none, some, List, Int64, int, ◌==◌, Float, float_le,
  is_finite, float_min, float_max, Text, bytes, if◌then◌else◌,
}

unfoldable pub profile_id : Text
profile_id = bytes "seq.full.public_approx.v1"

unfoldable pub freeze_id : Text
freeze_id = bytes "seq-core-freeze.v1"

unfoldable pub event_schema : Text
event_schema = bytes "seq-core-events.v1"

unfoldable pub checkpoint_schema : Text
checkpoint_schema = bytes "seq-core-checkpoint.v1"

pub record Config : Type 0 where
  pub setup_count : Int64
  pub setup_lookback : Int64
  pub countdown_count : Int64
  pub countdown_lookback : Int64
  pub recycle_at : Int64
  pub deferral13_vs8 : Bool
  pub qualifier8_vs5 : Bool
  pub intersection : Bool
  pub combo : Bool
  pub risk_level : Bool
  pub tdst_cancel : Bool

unfoldable pub default_config : Config
default_config = record {
  setup_count = int 9;
  setup_lookback = int 4;
  countdown_count = int 13;
  countdown_lookback = int 2;
  recycle_at = int 22;
  deferral13_vs8 = true;
  qualifier8_vs5 = false;
  intersection = false;
  combo = false;
  risk_level = false;
  tdst_cancel = false;
}

pub data ConfigField : Type 0 where
  setup_count setup_lookback countdown_count countdown_lookback recycle_at : ConfigField
  deferral13_vs8 qualifier8_vs5 intersection combo risk_level tdst_cancel : ConfigField

-- The field that an UnsupportedConfigError names, or `none` for a nil error.
unfoldable pub validate_config : Config → Option ConfigField
unfolding default_config
validate_config c =
    if not (c.setup_count == default_config.setup_count)
    then some ConfigField.setup_count
    else if not (c.setup_lookback == default_config.setup_lookback)
    then some ConfigField.setup_lookback
    else if not (c.countdown_count == default_config.countdown_count)
    then some ConfigField.countdown_count
    else if not (c.countdown_lookback == default_config.countdown_lookback)
    then some ConfigField.countdown_lookback
    else if not (c.recycle_at == default_config.recycle_at)
    then some ConfigField.recycle_at
    else if not c.deferral13_vs8
    then some ConfigField.deferral13_vs8
    else if c.qualifier8_vs5
    then some ConfigField.qualifier8_vs5
    else if c.intersection
    then some ConfigField.intersection
    else if c.combo
    then some ConfigField.combo
    else if c.risk_level
    then some ConfigField.risk_level
    else if c.tdst_cancel
    then some ConfigField.tdst_cancel
    else none

pub record Source : Type 0 where
  pub symbol : Text
  pub timeframe : Text
  pub data_hash : Option Text

pub record Identity : Type 0 where
  pub schema_version : Text
  pub profile_id : Text
  pub freeze_id : Text
  pub config_hash : Text
  pub source : Source
  pub timeframe_ms : Int64

unfoldable pub default_identity : Source → Text → Int64 → Identity
default_identity source config_hash timeframe_ms = record {
  schema_version = checkpoint_schema;
  profile_id = profile_id;
  freeze_id = freeze_id;
  config_hash = config_hash;
  source = source;
  timeframe_ms = timeframe_ms;
}

pub record Bar : Type 0 where
  pub open_ms : Int64
  pub o : Float
  pub h : Float
  pub l : Float
  pub c : Float

unfoldable pub valid_bar : Bar → Bool
valid_bar b =
    is_finite b.o
    && is_finite b.h
    && is_finite b.l
    && is_finite b.c
    && float_le b.l (float_min b.o b.c)
    && float_le (float_max b.o b.c) b.h

pub data OrderKind : Type 0 where
  out_of_order_bar duplicate_bar : OrderKind

pub record BarOrderError : Type 0 where
  pub kind : OrderKind
  pub bar_index : Int64
  pub previous_open_ms : Int64
  pub open_ms : Int64

-- The reasons of InvalidInputError.
pub data InvalidInput : Type 0 where
  timeframe_not_positive bad_ohlc closure_without_hole decision_time_overflow : InvalidInput
  event_sequence_exhausted bar_index_exhausted : InvalidInput

pub data IdentityField : Type 0 where
  schema_version_field profile_id_field freeze_id_field config_hash_field : IdentityField
  source_symbol_field source_timeframe_field source_data_hash_field : IdentityField
  open_time_field : IdentityField

pub record CheckpointIdentityError : Type 0 where
  pub field : IdentityField
  pub kind : Option OrderKind

pub data Detail : Type 0 where
  count_detail : Int64 → Detail
  reference_detail : Int64 → Option Int64 → Option Int64 → Option Int64 → Detail
  replacement_detail : Text → Detail
  dropped_episodes_detail : List Text → Detail

pub data Side : Type 0 where
  buy sell : Side

pub data EventSide : Type 0 where
  both : EventSide
  on : Side → EventSide

pub data Phase : Type 0 where
  p0 p1 p2 p3 : Phase

pub data EventType : Type 0 where
  data_gap diagnostic setup_complete perfection delayed_perfection countdown_start : EventType
  countdown_cancel countdown_defer countdown_count countdown_complete countdown_recycle : EventType

-- `no_reason` is the empty string.
pub data Reason : Type 0 where
  no_reason data_gap tdst_cancel_unsupported unsupported_public_formula : Reason
  opposite_setup_complete deferral_13_vs_8 recycle_22 : Reason

pub record Event : Type 0 where
  pub event_seq : Int64
  pub bar_index : Int64
  pub phase : Phase
  pub kind : EventType
  pub side : EventSide
  pub reason : Reason
  pub episode_id : Text
  pub detail : Option Detail
  pub bar_open_ms : Int64
  pub decision_ms : Int64

pub record CompletedSetup : Type 0 where
  pub episode_id : Text
  pub completion_bar_index : Int64
  pub completion_bar_open_ms : Int64
  pub completion_decision_ms : Int64
  pub bar6_extreme : Float
  pub bar7_extreme : Float
  pub perfected : Bool
  pub perfected_at_bar_index : Option Int64
  pub perfected_at_bar_open_ms : Option Int64
  pub perfected_at_decision_ms : Option Int64

-- `unknown` is any other string, which only a decoded checkpoint can hold.
pub data CountdownState : Type 0 where
  idle active deferred completed : CountdownState
  unknown : Text → CountdownState

pub record Countdown : Type 0 where
  pub state : CountdownState
  pub count : Int64
  pub setup_episode_id : Option Text
  pub bar5_index : Option Int64
  pub bar8_index : Option Int64
  pub bar13_index : Option Int64

pub record SideSnapshot : Type 0 where
  pub setup_run : Int64
  pub setup_active : Bool
  pub last_completed_setup : Option CompletedSetup
  pub countdown : Countdown

pub record Snapshot : Type 0 where
  pub bar_index : Int64
  pub bar_open_ms : Int64
  pub decision_ms : Int64
  pub phase_order_version : Text
  pub buy : SideSnapshot
  pub sell : SideSnapshot

pub record Trace : Type 0 where
  pub events : List Event
  pub snapshots : List Snapshot
