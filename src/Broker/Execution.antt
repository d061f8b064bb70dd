-- ===== src/Broker/Execution.antt =====
-- engine/broker.go, broker_deferred_exits.go, broker_special_setups.go and window_close.go: opening
-- and closing positions, and the orders that do so. An operation on bar i takes the candle at i.
use heisentick_strat.Prelude.{
  ℕ, Bool, Float, List, Option, Text, [], bytes, false, float_le, float_lt, if◌then◌else◌, leb,
  length, ltb, none, not, some, text_eq, true, ◌&&◌, ◌++◌, ◌==◌, ◌||◌, ◌∷◌,
}
use heisentick_strat.Broker.Types.{
  Arithmetic, Broker, Bounds, Candle, CloseReason, Collector, Costs, Order, PendingExit, Position,
  Side, Trade, float_eq, long, short, stop_loss, take_profit, zero_float,
}
use heisentick_strat.Broker.Ledger.{side_float, record_entry, record_exit}

abbrev pub no_position : Position
no_position = record {
  side = long;
  entry = zero_float;
  size = zero_float;
  sl = zero_float;
  tp = zero_float;
  initial_sl = zero_float;
  initial_tp = zero_float;
  meta = [];
  entry_index = 0;
  entry_t = zero_float;
  tag = [];
  gap_aware_stop = false;
  opening_target_precedence = false;
  no_target = false;
  no_stop = false;
}

-- setExecutionWindow, executionIndexAllowed, clearExecutionOrders
unfoldable pub set_execution_window : Broker → Bounds → Broker
set_execution_window b window = record b { window = some window }

unfoldable pub in_window : Option Bounds → ℕ → Bool
in_window none index = true
in_window (some w) index = leb w.trade_start index && leb index w.trade_end

-- Before the first index of the window.
abbrev pub is_early : Option Bounds → ℕ → Bool
is_early none index = false
is_early (some w) index = ltb index w.trade_start

unfoldable pub clear_execution_orders : Broker → Broker
clear_execution_orders b = record b { pending_orders = []; pending_exits = []; limit_orders = [] }

unfoldable pub fills_market_at_next_open : Costs → Bool
fills_market_at_next_open c =
    text_eq c.fill_on (bytes "open") || text_eq c.fill_on (bytes "nextOpen")

-- The exits that wait for another position.
unfoldable pub drop_exits : ℕ → List PendingExit → List PendingExit
drop_exits entry [] = []
drop_exits entry (e ∷ es) =
    let rest = drop_exits entry es in if e.position_entry_index == entry then rest else e ∷ rest

module _ (math : Arithmetic) where
  -- Costs.normalized
  unfoldable pub normalized : Costs → Costs
  normalized c = record c {
    fill_on = if length c.fill_on == 0 then bytes "close" else c.fill_on;
    start_equity =
        if float_eq c.start_equity zero_float then math.whole_float 10000 else c.start_equity;
  }

  -- reset of a new broker, on the fields that every run uses.
  unfoldable pub reset_broker : Costs → Broker
  reset_broker costs = record {
    accounting = none;
    costs = normalized costs;
    position = no_position;
    has_position = false;
    pending_orders = [];
    pending_exits = [];
    limit_orders = [];
    trades = [];
    realized = zero_float;
    last_exit_index = none;
    window = none;
  }

  unfoldable pub slippage_at : Costs → Float → Float
  slippage_at c price =
      math.plus c.slippage
        (math.over (math.times (math.absolute price) c.slippage_bps) (math.whole_float 10000))

  abbrev pub record_opening : Option Collector → Broker → Float → Option Collector
  record_opening none b before = none
  record_opening (some c) b before = some (record_entry math c b before)

  abbrev pub record_closing : Option Collector → Broker → Float → Float → ℕ → Option Collector
  record_closing none b before credit index = none
  record_closing (some c) b before credit index = some (record_exit math c b before credit index)

  unfoldable pub fill_price : Costs → Side → Float → Order → Float
  fill_price costs side price ord =
      if ord.no_slip
      then price
      else math.plus price (math.times (side_float math side) (slippage_at costs price))

  -- The stop and the target of an order at its fill.
  unfoldable pub stop_of : Side → Float → Order → Float
  stop_of side px ord =
      if ord.has_stop_distance
      then math.minus px (math.times (side_float math side) ord.stop_distance)
      else ord.sl

  unfoldable pub target_of : Side → Float → Order → Float
  target_of side px ord =
      if ord.has_target_distance
      then math.plus px (math.times (side_float math side) ord.target_distance)
      else ord.tp

  unfoldable pub size_of : Float → Float → Order → Float
  size_of px sl ord =
      let has_size = ord.has_size || not (float_eq ord.size zero_float) in
      let has_risk = ord.has_risk || not (float_eq ord.risk_usd zero_float) in
      let dist = math.absolute (math.minus px sl) in
      if not has_size && has_risk
      then (if float_lt zero_float dist then math.over ord.risk_usd dist else ord.size)
      else if not has_size && not has_risk
      then math.whole_float 1
      else ord.size

  unfoldable pub position_of : Costs → Side → Float → Order → ℕ → Candle → Position
  position_of costs side price ord index bar =
      let px = fill_price costs side price ord in
      let sl = stop_of side px ord in
      let tp = target_of side px ord in
      record {
        side = side;
        entry = px;
        size = size_of px sl ord;
        sl = sl;
        tp = tp;
        initial_sl = sl;
        initial_tp = tp;
        meta = ord.meta;
        entry_index = index;
        entry_t = bar.t;
        tag = ord.tag;
        gap_aware_stop = ord.gap_aware_stop;
        opening_target_precedence = false;
        no_target = ord.no_target;
        no_stop = ord.no_stop;
      }

  -- The position is held and its fee paid, before the accounting.
  abbrev pub hold : Broker → Position → Broker
  hold b pos = record b {
    position = pos;
    has_position = true;
    realized = math.minus b.realized (math.times b.costs.fee_per_unit pos.size);
  }

  -- openPosition
  unfoldable pub open_position : Broker → Side → Float → Order → ℕ → Candle → Broker
  open_position b side price ord index bar =
      let b' = hold b (position_of b.costs side price ord index bar) in
      if not (in_window b.window index)
      then b
      else record b' { accounting = record_opening b'.accounting b' b.realized }

  unfoldable pub exit_price : Broker → Float → Float
  exit_price b price =
      math.minus price (math.times (side_float math b.position.side) (slippage_at b.costs price))

  unfoldable pub points_of : Broker → Float → Float
  points_of b price =
      math.times (math.minus (exit_price b price) b.position.entry)
        (side_float math b.position.side)

  unfoldable pub pnl_of : Broker → Float → Float
  pnl_of b price =
      math.minus (math.times (points_of b price) b.position.size)
        (math.times b.costs.fee_per_unit b.position.size)

  unfoldable pub trade_of : Broker → Float → ℕ → Candle → CloseReason → Text → Trade
  trade_of b price index bar reason rule =
      let pos = b.position in
      record {
        entry = pos.entry;
        entry_index = pos.entry_index;
        entry_t = pos.entry_t;
        exit = exit_price b price;
        exit_index = index;
        exit_t = bar.t;
        initial_sl = pos.initial_sl;
        initial_tp = pos.initial_tp;
        meta = pos.meta;
        pnl = pnl_of b price;
        points = points_of b price;
        reason = reason;
        rule = rule;
        side = pos.side;
        size = pos.size;
        sl = pos.sl;
        tag = pos.tag;
        tp = pos.tp;
        no_target = pos.no_target;
        no_stop = pos.no_stop;
      }

  -- The trade is appended and the position given up, before the accounting.
  abbrev pub give_up : Broker → Float → ℕ → Candle → CloseReason → Text → Broker
  give_up b price index bar reason rule = record b {
    has_position = false;
    pending_exits = drop_exits b.position.entry_index b.pending_exits;
    trades = b.trades ++ trade_of b price index bar reason rule ∷ [];
    realized = math.plus b.realized (pnl_of b price);
    last_exit_index = some index;
  }

  -- closePosition
  unfoldable pub close_position : Broker → Float → ℕ → Candle → CloseReason → Text → Broker
  close_position b price index bar reason rule =
      let b' = give_up b price index bar reason rule in
      record b' { accounting = record_closing b'.accounting b' b.realized (pnl_of b price) index }

  abbrev pub is_tighter : Side → Float → Float → Bool
  is_tighter long sl price = float_lt sl price
  is_tighter short sl price = float_lt price sl

  -- tightenStop
  unfoldable pub tighten_stop : Broker → Float → Broker
  tighten_stop b price =
      if b.has_position && is_tighter b.position.side b.position.sl price
      then record b { position = record (b.position) { sl = price } }
      else b

  -- A price at or beyond a stop, or a target, of a side.
  abbrev pub beyond_stop : Side → Float → Float → Bool
  beyond_stop long price sl = float_le price sl
  beyond_stop short price sl = float_le sl price

  abbrev pub beyond_target : Side → Float → Float → Bool
  beyond_target long price tp = float_le tp price
  beyond_target short price tp = float_le price tp

  -- The extreme of a candle against, or for, a side.
  abbrev pub adverse : Side → Candle → Float
  adverse long bar = bar.l
  adverse short bar = bar.h

  abbrev pub favourable : Side → Candle → Float
  favourable long bar = bar.h
  favourable short bar = bar.l

  -- resolveIntrabarExit
  unfoldable pub resolve_intrabar_exit : Broker → ℕ → Candle → Broker
  resolve_intrabar_exit b i bar =
      let pos = b.position in
      let gap_fill = pos.gap_aware_stop || ltb pos.entry_index i in
      if not b.has_position
      then b
      else if not pos.no_stop && gap_fill && beyond_stop pos.side bar.o pos.sl
      then close_position b bar.o i bar stop_loss []
      else if pos.opening_target_precedence
          && gap_fill
          && not pos.no_target
          && beyond_target pos.side bar.o pos.tp
      then close_position b pos.tp i bar take_profit []
      else if not pos.no_stop && beyond_stop pos.side (adverse pos.side bar) pos.sl
      then close_position b pos.sl i bar stop_loss []
      else if not pos.no_target && beyond_target pos.side (favourable pos.side bar) pos.tp
      then close_position b pos.tp i bar take_profit []
      else b
