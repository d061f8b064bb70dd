-- ===== src/Broker/Scheduled.antt =====
-- engine/broker.go, broker_deferred_exits.go and window_close.go: the orders that wait, and the run
-- over captured orders (runScheduled).
use heisentick_strat.Prelude.{
  ℕ, Bool, Float, List, Option, Text, [], false, float_le, float_lt, if◌then◌else◌, length, none,
  not, some, text_eq, ◌&&◌, ◌++◌, ◌+◌, ◌==◌, ◌||◌, ◌∷◌, bytes, get_elem?, leb, ltb, suc, true, zero,
  ◌>>=◌,
}
use heisentick_strat.Broker.Types.{
  Broker, Candle, Meta, MetaValue, Order, long, number, short, Arithmetic, Bounds, PendingExit,
  end_of_test, rule_exit,
}
use heisentick_strat.Broker.Execution.{
  clear_execution_orders, close_position, fills_market_at_next_open, is_early, open_position,
  resolve_intrabar_exit,
}

-- ScheduledEntry
pub record ScheduledEntry : Type 0 where
  pub source_index : ℕ
  pub chart_index : ℕ
  pub source_close : Float
  pub entry_time : Float

abbrev pub market_order : Order → ℕ → Order
market_order ord signal_index = record ord {
  index = signal_index + 1;
  gap_aware_stop = ord.gap_aware_stop || not ord.no_stop;
}

-- queueMarketAtNextOpen
unfoldable pub queue_market_at_next_open : Broker → Order → ℕ → Broker
queue_market_at_next_open b ord signal_index = record b {
  pending_orders = b.pending_orders ++ market_order ord signal_index ∷ [];
}

-- Whether nothing is held and nothing waits.
abbrev pub is_free : Broker → Bool
is_free b = not b.has_position && length b.pending_orders == 0 && length b.limit_orders == 0

abbrev pub placed_limit : Order → ℕ → Order
placed_limit ord i = record ord { index = i; placed_at = i; expire_at = i + ord.expire_bars }

unfoldable pub lookup_meta : Text → Meta → Option MetaValue
lookup_meta key [] = none
lookup_meta key ((k, v) ∷ rest) = if text_eq k key then some v else lookup_meta key rest

-- numericMetaValue; integers are stored as floats.
unfoldable pub numeric_meta_value : Option MetaValue → Option Float
numeric_meta_value (some (number x)) = some x
numeric_meta_value _ = none

abbrev pub slot_is_over : Option Float → Float → Bool
slot_is_over none t = false
slot_is_over (some slot_end) t = float_le slot_end t

abbrev pub limit_reached : Order → Candle → Bool
limit_reached ord bar = elim ord.side [
  | long ↦ float_le bar.l ord.limit
  | short ↦ float_le ord.limit bar.h
]

abbrev pub limit_gapped : Order → Candle → Bool
limit_gapped ord bar = elim ord.side [
  | long ↦ float_lt bar.o ord.limit
  | short ↦ float_lt ord.limit bar.o
]

-- The orders captured for a bar: for each entry of the bar, the first order of its source index.
unfoldable pub order_of_source : ℕ → List Order → Option Order
order_of_source source [] = none
order_of_source source (ord ∷ orders) =
    let rest = order_of_source source orders in if ord.index == source then some ord else rest

abbrev pub with_order : Option Order → List Order → List Order
with_order none rest = rest
with_order (some ord) rest = ord ∷ rest

unfoldable pub captured_at : List ScheduledEntry → List Order → ℕ → List Order
captured_at [] orders i = []
captured_at (e ∷ entries) orders i =
    let rest = captured_at entries orders i in
    if e.chart_index == i then with_order (order_of_source e.source_index orders) rest else rest

unfoldable pub remove_at {ℓ} : {A : Type ℓ} → ℕ → List A → List A
remove_at k [] = []
remove_at zero (x ∷ xs) = xs
remove_at (suc k) (x ∷ xs) = x ∷ remove_at k xs

-- Past the last index of the window.
abbrev pub is_past : Option Bounds → ℕ → Bool
is_past none index = false
is_past (some w) index = ltb w.trade_end index

module _ (math : Arithmetic) where
  -- closeExpiredWindowPosition
  unfoldable pub close_expired_window_position : Broker → ℕ → Candle → Broker
  close_expired_window_position b i bar =
      if b.has_position
        && slot_is_over (numeric_meta_value (lookup_meta (bytes "slotEnd") b.position.meta)) bar.t
      then close_position math b bar.o i bar rule_exit (bytes "window-close")
      else b

  -- The loop of fillPending: `kept` are the orders before the next one that stay.
  unfoldable pub fill_pending_from : List Order → Broker → ℕ → Candle → List Order → Broker
  fill_pending_from kept b i bar [] = record b { pending_orders = kept }
  fill_pending_from kept b i bar (ord ∷ rest) =
      let later = ltb i ord.index in
      let opened =
        open_position math (record b { pending_orders = kept ++ rest }) ord.side bar.o ord i bar in
      fill_pending_from (if later then kept ++ ord ∷ [] else kept) (if later then b else opened) i
        bar rest

  unfoldable pub fill_pending : Broker → ℕ → Candle → Broker
  fill_pending b i bar = fill_pending_from [] b i bar b.pending_orders

  abbrev pub limit_fill : Broker → Order → ℕ → Candle → Broker
  limit_fill b ord i bar =
      open_position math b ord.side (if limit_gapped ord bar then bar.o else ord.limit)
        (record ord { no_slip = true }) i bar

  -- One turn of the loop of fillLimits, with the limit orders that stay so far.
  unfoldable pub fill_limit : ℕ → Candle → Order → Broker × List Order → Broker × List Order
  fill_limit i bar ord (b, kept) =
      if leb i ord.placed_at
      then (b, ord ∷ kept)
      else if limit_reached ord bar
      then (limit_fill b ord i bar, kept)
      else if leb ord.expire_at i
      then (b, kept)
      else (b, ord ∷ kept)

  -- The loop runs from the last order to the first.
  unfoldable pub fill_limits_from : Broker → ℕ → Candle → List Order → Broker × List Order
  fill_limits_from b i bar [] = (b, [])
  fill_limits_from b i bar (ord ∷ rest) = fill_limit i bar ord (fill_limits_from b i bar rest)

  abbrev pub with_limits : Broker × List Order → Broker
  with_limits (b, kept) = record b { limit_orders = kept }

  unfoldable pub fill_limits : Broker → ℕ → Candle → Broker
  fill_limits b i bar = with_limits (fill_limits_from b i bar b.limit_orders)

  -- One turn of the loop of fillPendingExits, for the exit at k.
  unfoldable pub exit_at : Broker → ℕ → PendingExit → ℕ → Candle → Broker
  exit_at b k pending i bar =
      let b' = record b { pending_exits = remove_at k b.pending_exits } in
      if ltb i pending.index
      then b
      else if b'.has_position && b'.position.entry_index == pending.position_entry_index
      then close_position math b' bar.o i bar rule_exit pending.rule
      else b'

  -- The loop of fillPendingExits from the exit before k; none is an index out of range.
  unfoldable pub fill_exits_below : ℕ → Broker → ℕ → Candle → Option Broker
  fill_exits_below zero b i bar = some b
  fill_exits_below (suc k) b i bar = get_elem? b.pending_exits k >>= λ pending.
      fill_exits_below k (exit_at b k pending i bar) i bar

  unfoldable pub fill_pending_exits : Broker → ℕ → Candle → Option Broker
  fill_pending_exits b i bar = fill_exits_below (length b.pending_exits) b i bar

  -- dispatchCaptured
  unfoldable pub dispatch_captured : Broker → ℕ → Candle → Order → Broker
  dispatch_captured b i bar captured =
      let ord = record captured { index = i } in
      if not (is_free b)
      then b
      else if captured.has_limit
      then record b { limit_orders = b.limit_orders ++ placed_limit captured i ∷ [] }
      else if fills_market_at_next_open b.costs
      then queue_market_at_next_open b ord i
      else open_position math b captured.side bar.c ord i bar

  unfoldable pub dispatch_all : Broker → ℕ → Candle → List Order → Broker
  dispatch_all b i bar [] = b
  dispatch_all b i bar (ord ∷ orders) = dispatch_all (dispatch_captured b i bar ord) i bar orders

  abbrev pub clear_early : Broker → ℕ → Broker
  clear_early b i = if is_early b.window i then clear_execution_orders b else b

  -- The body of the loop of runScheduled.
  unfoldable pub scheduled_bar : Broker → ℕ → Candle → List Order → Broker
  scheduled_bar b i bar captured =
      let b1 = fill_limits (fill_pending (clear_early b i) i bar) i bar in
      let b2 = resolve_intrabar_exit math (close_expired_window_position b1 i bar) i bar in
      clear_early (dispatch_all b2 i bar captured) i

  -- The position that is held after the last bar is closed there.
  unfoldable pub liquidate : Broker → Option (ℕ × Candle) → Broker
  liquidate b none = b
  liquidate b (some (i, bar)) =
      if b.has_position then close_position math b bar.c i bar end_of_test [] else b

  -- The loop of runScheduled from bar i, given the bar before; `final` liquidates at the end.
  unfoldable pub run_scheduled_from :
      List ScheduledEntry
      → List Order
      → Bool
      → Broker
      → ℕ
      → Option (ℕ × Candle)
      → List Candle
      → Broker
  run_scheduled_from entries orders final b i last [] = if final then liquidate b last else b
  run_scheduled_from entries orders final b i last (bar ∷ bars) =
      let ended = if final then liquidate b last else b in
      let rest =
        run_scheduled_from entries orders final
          (scheduled_bar b i bar (captured_at entries orders i)) (i + 1) (some (i, bar)) bars in
      if is_past b.window i then ended else rest

  -- runScheduledWithFinalization
  unfoldable pub run_scheduled :
      List ScheduledEntry → List Order → Bool → Broker → List Candle → Broker
  run_scheduled entries orders final b bars = run_scheduled_from entries orders final b 0 none bars
