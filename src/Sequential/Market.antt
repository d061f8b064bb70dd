-- ===== src/Sequential/Market.antt =====
-- engine/sequential_market_v3.go: the run of an admitted market fixture, in which a position may stay
-- open, and the checks of its accounting. The marks of MatchBars, if there is a calendar, are an
-- argument; the result envelope of the trades is left out.
use heisentick_strat.Prelude.{
  ℕ, Bool, Float, List, Option, Text, [], bytes, false, get_elem?, if◌then◌else◌, inl, inr, last?,
  length, none, not, some, true, ◌&&◌, ◌*◌, ◌+◌, ◌-◌, ◌==◌, ◌>>=◌, ◌||◌, ◌∷◌, ◌⊎◌,
}
use heisentick_strat.Broker.Types.{
  Arithmetic, Broker, Candle, Collector, Side, AccountingError, SequentialAccounting,
  TradeAccounting, EquityMark, Costs,
}
use heisentick_strat.Broker.Ledger.{all_finite, new_collector}
use heisentick_strat.Broker.Scheduled.{lookup_meta}
use heisentick_strat.Sequential.Types.{ExecutionError, Opportunity, Scheduler, Spec}
use heisentick_strat.Sequential.Run.{StartError, captured, mark_step, new_scheduler, refuse_pending}
use heisentick_strat.Sequential.Scheduler.{text_value, scheduler_step}
use heisentick_strat.Sequential.Atr.{compute_atr}

-- SequentialMarketOpenTrade
pub record MarketOpenTrade : Type 0 where
  pub opportunity_id : Text
  pub side : Side
  pub entry_index : ℕ
  pub entry_t : Float
  pub entry : Float
  pub size : Float
  pub stop : Float
  pub target : Float
  pub bars_held : ℕ
  pub mark_price : Float
  pub unrealized_pnl : Float
  pub entry_fee_paid : Float

pub data MarketError : Type 0 where
  not_started : StartError → MarketError
  not_executed : ExecutionError → MarketError
  not_captured : AccountingError → MarketError
  open_position_identity open_position_value terminal_equity_or_realized terminal_counts :
      MarketError

-- A mark of the next bar: none is an index out of range.
abbrev pub next_flag : Option (List Bool) → Option (Bool × Option (List Bool))
next_flag none = some (false, none)
next_flag (some []) = none
next_flag (some (flag ∷ flags)) = some (flag, some flags)

-- The error of a collector.
abbrev pub capture_error : Option Collector → Option AccountingError
capture_error none = none
capture_error (some c) = c.error

-- The accounting and the open trade of a run.
pub record MarketRun : Type 0 where
  pub accounting : SequentialAccounting
  pub open_trade : Option MarketOpenTrade
  pub opportunities : List Opportunity

abbrev pub open_trade_of : ℕ → Broker → TradeAccounting → EquityMark → Candle → MarketOpenTrade
open_trade_of last b entry m bar = record {
  opportunity_id = text_value (lookup_meta (bytes "opportunityId") b.position.meta);
  side = b.position.side;
  entry_index = b.position.entry_index;
  entry_t = b.position.entry_t;
  entry = b.position.entry;
  size = b.position.size;
  stop = b.position.sl;
  target = b.position.tp;
  bars_held = last - b.position.entry_index + 1;
  mark_price = bar.c;
  unrealized_pnl = m.unrealized;
  entry_fee_paid = entry.entry_fee;
}

abbrev pub open_values : Broker → TradeAccounting → EquityMark → List Float
open_values b entry m =
    b.position.entry ∷ b.position.size ∷ b.position.sl ∷ b.position.tp ∷ m.unrealized
    ∷ entry.entry_fee ∷ []

-- The open trade and the number of its events.
abbrev pub Opened : Type 0
Opened = (Option MarketOpenTrade × ℕ) ⊎ MarketError

-- The position that is open after the last bar, if there is one.
unfoldable pub opened_at : ℕ → Broker → TradeAccounting → EquityMark → Candle → Opened
opened_at last b entry m bar =
    if not (all_finite (open_values b entry m))
    then inr open_position_value
    else inl (some (open_trade_of last b entry m bar), 1)

-- The position that is held after `bars` bars, of which the last is given; none is an index out of
-- range.
unfoldable pub opened_part :
    Broker → Collector → ℕ → Option Candle → Bool → Option TradeAccounting → Option Opened
opened_part b c bars last false none = some (inl (none, 0))
opened_part b c bars last false (some entry) = some (inr open_position_identity)
opened_part b c bars last true none = some (inr open_position_identity)
opened_part b c bars none true (some entry) = some (inr open_position_identity)
opened_part b c bars (some bar) true (some entry) =
    get_elem? c.book.marks (bars - 1) >>= λ m. some (opened_at (bars - 1) b entry m bar)

module _ (math : Arithmetic) where
  -- Whether the last mark differs from the state of the broker.
  abbrev pub mark_differs : Broker → SequentialAccounting → Option EquityMark → Bool
  mark_differs b book none = false
  mark_differs b book (some m) =
      not (math.identical m.realized b.realized) || not (math.identical book.end_equity m.equity)

  -- The last checks, on the number of bars and the open trade.
  unfoldable pub final_checks :
      Broker → Collector → List Opportunity → ℕ → Opened → MarketRun ⊎ MarketError
  final_checks b c opportunities bars (inr e) = inr e
  final_checks b c opportunities bars (inl (open_trade, extra)) =
      if length c.book.marks == bars && mark_differs b c.book (last? c.book.marks)
      then inr terminal_equity_or_realized
      else if not (length c.book.marks == bars)
          || not (length c.book.trades == length b.trades)
          || not (length c.book.events == 2 * length b.trades + extra)
      then inr terminal_counts
      else inl
          (record { accounting = c.book; open_trade = open_trade; opportunities = opportunities })

  -- The end of a turn of the loop: the error of the step, of the capture, or the next bar.
  abbrev pub after_mark :
      Scheduler
      → (Scheduler → Option (Scheduler ⊎ MarketError))
      → Option AccountingError
      → Option (Scheduler ⊎ MarketError)
  after_mark s continue (some e) = some (inr (not_captured e))
  after_mark s continue none = continue s

  abbrev pub next_market_bar :
      ℕ
      → Candle
      → (Scheduler → Option (Scheduler ⊎ MarketError))
      → Scheduler × Option ExecutionError
      → Option (Scheduler ⊎ MarketError)
  next_market_bar i bar continue (s, some e) = some (inr (not_executed e))
  next_market_bar i bar continue (s, none) =
      after_mark (mark_step math i bar s) continue
        (capture_error (mark_step math i bar s).broker.accounting)

  -- The loop of RunSequentialMarketV3 from bar i.
  unfoldable pub market_steps :
      Scheduler
      → ℕ
      → List Candle
      → List Float
      → Option (List Bool)
      → List Candle
      → Option (Scheduler ⊎ MarketError)
  market_steps s i past atrs after [] = some (inl s)
  market_steps s i past [] after (bar ∷ bars) = none
  market_steps s i past (atr ∷ atrs) after (bar ∷ bars) = next_flag after >>= λ flag.
      scheduler_step math s i (record { past = bar ∷ past; atr = atr }) bar flag.0
      >>= next_market_bar i bar (λ s'. market_steps s' (i + 1) (bar ∷ past) atrs flag.1 bars)

  abbrev pub checked : List Candle → Scheduler → Option Collector → Option (MarketRun ⊎ MarketError)
  checked bars s none = none
  checked bars s (some c) =
      opened_part s.broker c (length bars) (last? bars) s.broker.has_position c.open_trade
      >>= λ opened. some (final_checks s.broker c s.opportunities (length bars) opened)

  abbrev pub after_loop : List Candle → Scheduler ⊎ MarketError → Option (MarketRun ⊎ MarketError)
  after_loop bars (inr e) = some (inr e)
  after_loop bars (inl s) = refuse_pending math s >>= λ s'. checked bars s' s'.broker.accounting

  abbrev pub market_started :
      List Candle
      → List Float
      → Option (List Bool)
      → Option Collector
      → Scheduler ⊎ StartError
      → Option (MarketRun ⊎ MarketError)
  market_started bars atr after capture (inr e) = some (inr (not_started e))
  market_started bars atr after capture (inl s) =
      market_steps (captured math s capture) 0 [] atr after bars >>= after_loop bars

  -- RunSequentialMarketV3, once the fixture is admitted and its calendar matched; none is a panic.
  unfoldable pub run_market :
      Spec → Costs → List Candle → Option (List Bool) → Option (MarketRun ⊎ MarketError)
  run_market spec costs bars after =
      let atr = compute_atr math bars 14 in
      market_started bars atr after (some (new_collector costs.start_equity))
        (new_scheduler math spec costs atr)
