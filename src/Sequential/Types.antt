-- ===== src/Sequential/Types.antt =====
-- engine/sequential_types.go and engine/sequential_execution.go: opportunities, errors and the state
-- of the scheduler. The audit is its list of opportunities, and a pending index of -1 is `none`.
use heisentick_strat.Prelude.{ℕ, Bool, Float, Int64, List, Option, Text}
use heisentick_strat.Broker.Types.{Broker, Side}
use heisentick_strat.Seqcore.Engine.{Engine}

-- SequentialFullStatus
pub data Status : Type 0 where
  pending rejected filled : Status

-- SequentialFullReason; `unset` is the empty string.
pub data Refusal : Type 0 where
  unset warmup signal_expired blocked_in_position simultaneous_signal : Refusal
  no_next_bar stop_breached_at_entry : Refusal

-- SequentialFullOpportunity
pub record Opportunity : Type 0 where
  pub id : Text
  pub episode_id : Text
  pub trigger : Text
  pub side : Side
  pub setup_index : ℕ
  pub setup_first_index : ℕ
  pub decision_index : ℕ
  pub decision_open_ms : Int64
  pub decision_ms : Int64
  pub next_open_index : ℕ
  pub status : Status
  pub reason : Refusal
  pub stop : Float
  pub signal_atr : Float
  pub fill_index : Option ℕ
  pub fill : Option Float
  pub target : Option Float
  pub risk_distance : Option Float
  pub size : Option Float
  pub cap_binds : Bool

pub data ErrorKind : Type 0 where
  invalid_sequential_input invalid_sequential_derived_value : ErrorKind
  unsupported_incomplete_terminal_run : ErrorKind

-- The fields that a SequentialFullExecutionError names; `core_message` is the text of an error of
-- the count engine.
pub data ErrorField : Type 0 where
  profile_policy_or_timeframe atr14 setup_anchor missing_admitting_setup event_side : ErrorField
  stop_field fill_field fill_bracket size_bound size_field notional_or_entry_fee : ErrorField
  realized_field exit_or_trade_pnl held_position core_message : ErrorField

-- SequentialFullExecutionError
pub record ExecutionError : Type 0 where
  pub kind : ErrorKind
  pub field : ErrorField
  pub bar_index : Option ℕ
  pub opportunity_id : Text

-- dsl.SequentialFullSpec, as far as the scheduler reads it.
pub record Spec : Type 0 where
  pub profile : Text
  pub policy : Text
  pub symbol : Text
  pub timeframe : Text
  pub risk_usd : Float
  pub max_notional_usd : Float

-- sequentialFullAnchor
pub record Anchor : Type 0 where
  pub completion : ℕ
  pub first : ℕ
  pub low : Float
  pub high : Float

-- sequentialFullScheduler. The series and its ATR are arguments of the operations.
pub record Scheduler : Type 0 where
  pub spec : Spec
  pub broker : Broker
  pub core : Engine
  pub setups : List (Text × Anchor)
  pub seen : List Text
  pub opportunities : List Opportunity
  pub pending : Option ℕ
  pub hold : ℕ
