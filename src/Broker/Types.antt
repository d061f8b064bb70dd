-- ===== src/Broker/Types.antt =====
-- engine/broker.go, types.go and sequential_accounting.go: costs, positions, orders, trades and the
-- accounting records. The state that only strategy families keep, and the collector of paper
-- runs, are left out. Indexes are non-negative, and a missing one (-1 in the source) is `none`.
use heisentick_strat.Prelude.{ℕ, Bool, Float, Int64, List, Option, Text, bytes, fin, float_le, ◌&&◌}

-- The operations of float64 that the program uses, and math.Float64bits(a) == math.Float64bits(b).
pub record Arithmetic : Type 0 where
  pub plus : Float → Float → Float
  pub minus : Float → Float → Float
  pub times : Float → Float → Float
  pub over : Float → Float → Float
  pub absolute : Float → Float
  pub whole_float : ℕ → Float
  pub one_tenth : Float
  pub identical : Float → Float → Bool
  pub to_int64 : Float → Int64

abbrev pub zero_float : Float
zero_float = fin 0 0

-- Float equality, ==.
abbrev pub float_eq : Float → Float → Bool
float_eq x y = float_le x y && float_le y x

pub data Side : Type 0 where
  long short : Side

abbrev pub side_text : Side → Text
side_text long = bytes "long"
side_text short = bytes "short"

-- A value of TradeMeta, as far as the broker reads it.
pub data MetaValue : Type 0 where
  number : Float → MetaValue
  words : Text → MetaValue

abbrev pub Meta : Type 0
Meta = List (Text × MetaValue)

pub record Candle : Type 0 where
  pub t : Float
  pub o : Float
  pub h : Float
  pub l : Float
  pub c : Float
  pub v : Float

pub record Costs : Type 0 where
  pub fee_per_unit : Float
  pub fill_on : Text
  pub slippage : Float
  pub slippage_bps : Float
  pub start_equity : Float

pub record Position : Type 0 where
  pub side : Side
  pub entry : Float
  pub size : Float
  pub sl : Float
  pub tp : Float
  pub initial_sl : Float
  pub initial_tp : Float
  pub meta : Meta
  pub entry_index : ℕ
  pub entry_t : Float
  pub tag : Text
  pub gap_aware_stop : Bool
  pub opening_target_precedence : Bool
  pub no_target : Bool
  pub no_stop : Bool

pub record Order : Type 0 where
  pub side : Side
  pub sl : Float
  pub tp : Float
  pub size : Float
  pub has_size : Bool
  pub risk_usd : Float
  pub has_risk : Bool
  pub tag : Text
  pub meta : Meta
  pub index : ℕ
  pub limit : Float
  pub has_limit : Bool
  pub no_slip : Bool
  pub placed_at : ℕ
  pub expire_at : ℕ
  pub expire_bars : ℕ
  pub stop_distance : Float
  pub has_stop_distance : Bool
  pub target_distance : Float
  pub has_target_distance : Bool
  pub gap_aware_stop : Bool
  pub no_target : Bool
  pub no_stop : Bool

pub record PendingExit : Type 0 where
  pub position_entry_index : ℕ
  pub index : ℕ
  pub rule : Text

-- The reasons of a close.
pub data CloseReason : Type 0 where
  stop_loss take_profit time_exit end_of_test rule_exit : CloseReason

pub record Trade : Type 0 where
  pub entry : Float
  pub entry_index : ℕ
  pub entry_t : Float
  pub exit : Float
  pub exit_index : ℕ
  pub exit_t : Float
  pub initial_sl : Float
  pub initial_tp : Float
  pub meta : Meta
  pub pnl : Float
  pub points : Float
  pub reason : CloseReason
  pub rule : Text
  pub side : Side
  pub size : Float
  pub sl : Float
  pub tag : Text
  pub tp : Float
  pub no_target : Bool
  pub no_stop : Bool

-- SequentialEquityMark
pub record EquityMark : Type 0 where
  pub index : ℕ
  pub t : Float
  pub realized : Float
  pub unrealized : Float
  pub equity : Float

-- SequentialTradeAccounting
pub record TradeAccounting : Type 0 where
  pub trade_index : ℕ
  pub entry_index : ℕ
  pub exit_index : ℕ
  pub entry_t : Float
  pub exit_t : Float
  pub side : Side
  pub entry : Float
  pub exit : Float
  pub size : Float
  pub points : Float
  pub entry_fee : Float
  pub exit_fee : Float
  pub exit_credit : Float
  pub net_pnl : Float

pub data MutationKind : Type 0 where
  entry_mutation exit_mutation : MutationKind

-- SequentialAccountingEvent
pub record AccountingEvent : Type 0 where
  pub kind : MutationKind
  pub trade_index : ℕ
  pub index : ℕ
  pub t : Float
  pub realized_before : Float
  pub realized_after : Float
  pub amount : Float

pub record SequentialAccounting : Type 0 where
  pub start_equity : Float
  pub end_equity : Float
  pub final_realized : Float
  pub marks : List EquityMark
  pub trades : List TradeAccounting
  pub events : List AccountingEvent

-- The fields that a SequentialAccountingError of the collector names.
pub data AccountingField : Type 0 where
  mutation_value realized_continuity entry_identity entry_value entry_size : AccountingField
  exit_identity trade_identity exit_value mark_index mark_realized mark_position : AccountingField
  mark_value terminal_count terminal_equity terminal_unrealized : AccountingField

pub record AccountingError : Type 0 where
  pub field : AccountingField
  pub bar_index : ℕ

-- sequentialAccountingCollector
pub record Collector : Type 0 where
  pub book : SequentialAccounting  -- data
  pub open_trade : Option TradeAccounting
  pub realized : Float
  pub error : Option AccountingError

-- ExecutionBounds
pub record Bounds : Type 0 where
  pub context_start : ℕ
  pub trade_start : ℕ
  pub trade_end : ℕ

pub record Broker : Type 0 where
  pub accounting : Option Collector
  pub costs : Costs
  pub position : Position
  pub has_position : Bool
  pub pending_orders : List Order
  pub pending_exits : List PendingExit
  pub limit_orders : List Order
  pub trades : List Trade
  pub realized : Float
  pub last_exit_index : Option ℕ
  pub window : Option Bounds
