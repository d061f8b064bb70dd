-- ===== src/Broker/Ledger.antt =====
-- engine/sequential_accounting.go: the collector that records each change of the realized amount
-- and the equity at each close.
use heisentick_strat.Prelude.{
  ℕ, Bool, Float, List, Option, [], false, float_lt, if◌then◌else◌, inl, inr, is_finite, is_some,
  last?, length, none, not, some, true, ◌&&◌, ◌*◌, ◌++◌, ◌+◌, ◌==◌, ◌||◌, ◌∷◌, ◌⊎◌,
}
use heisentick_strat.Broker.Types.{
  Arithmetic, Collector, AccountingField, Broker, Candle, EquityMark, MutationKind,
  SequentialAccounting, Side, Trade, TradeAccounting, entry_identity, entry_mutation, entry_size,
  entry_value, exit_identity, exit_mutation, exit_value, float_eq, long, mark_index, mark_position,
  mark_realized, mark_value, mutation_value, realized_continuity, short, terminal_count,
  terminal_equity, terminal_unrealized, trade_identity, zero_float,
}

abbrev pub new_collector : Float → Collector
new_collector start = record {
  book = record {
    start_equity = start;
    end_equity = start;
    final_realized = zero_float;
    marks = [];
    trades = [];
    events = [];
  };
  open_trade = none;
  realized = zero_float;
  error = none;
}

-- fail: the first error stays.
unfoldable pub fail : Collector → AccountingField → ℕ → Collector
fail c field index =
    if is_some c.error
    then c
    else record c { error = some (record { field = field; bar_index = index }) }

unfoldable pub all_finite : List Float → Bool
all_finite [] = true
all_finite (x ∷ xs) = is_finite x && all_finite xs

-- len(b.trades) and its last element, as the collector reads them.
abbrev pub counts_match : Broker → Collector → Bool
counts_match b c = length b.trades == length c.book.trades

abbrev pub one_more_trade : Broker → Collector → Bool
one_more_trade b c = length b.trades == length c.book.trades + 1

module _ (math : Arithmetic) where
  -- The check of the amount before, which is recorded and does not stop the record.
  unfoldable pub check_continuity : Collector → ℕ → Float → Collector
  check_continuity c index before =
      if math.identical before c.realized then c else fail c realized_continuity index

  unfoldable pub mutation :
      Collector → MutationKind → ℕ → ℕ → Float → Float → Float → Float → Collector
  mutation c kind trade_index index t before after amount =
      if not (all_finite (t ∷ before ∷ after ∷ amount ∷ []))
      then fail c mutation_value index
      else (let c' = check_continuity c index before in
          record c' {
            book = record (c'.book) {
              events =
                  c'.book.events
                  ++ record {
                    kind = kind;
                    trade_index = trade_index;
                    index = index;
                    t = t;
                    realized_before = before;
                    realized_after = after;
                    amount = amount;
                  }
                    ∷ [];
            };
            realized = after;
          })

  abbrev pub fee_of : Broker → Float → Float
  fee_of b size = math.times b.costs.fee_per_unit size

  abbrev pub opened_trade : Broker → Collector → TradeAccounting
  opened_trade b c = record {
    trade_index = length c.book.trades;
    entry_index = b.position.entry_index;
    exit_index = 0;
    entry_t = b.position.entry_t;
    exit_t = zero_float;
    side = b.position.side;
    entry = b.position.entry;
    exit = zero_float;
    size = b.position.size;
    points = zero_float;
    entry_fee = fee_of b b.position.size;
    exit_fee = zero_float;
    exit_credit = zero_float;
    net_pnl = zero_float;
  }

  abbrev pub entry_values : Broker → List Float
  entry_values b = b.position.entry ∷ b.position.size ∷ fee_of b b.position.size ∷ []

  unfoldable pub record_entry : Collector → Broker → Float → Collector
  record_entry c b before =
      let pos = b.position in
      if is_some c.error
      then c
      else if is_some c.open_trade || not (counts_match b c)
      then fail c entry_identity pos.entry_index
      else if not (all_finite (entry_values b))
      then fail c entry_value pos.entry_index
      else if float_lt pos.size zero_float
      then fail c entry_size pos.entry_index
      else mutation (record c { open_trade = some (opened_trade b c) }) entry_mutation
          (length c.book.trades) pos.entry_index pos.entry_t before b.realized (fee_of b pos.size)

  abbrev pub side_eq : Side → Side → Bool
  side_eq long long = true
  side_eq short short = true
  side_eq _ _ = false

  unfoldable pub same_trade : TradeAccounting → Trade → Bool
  same_trade entry trade =
      entry.entry_index == trade.entry_index
      && math.identical entry.entry_t trade.entry_t
      && side_eq entry.side trade.side
      && math.identical entry.entry trade.entry
      && math.identical entry.size trade.size

  abbrev pub closed_trade : TradeAccounting → Trade → Float → Float → TradeAccounting
  closed_trade entry trade fee credit = record entry {
    exit_index = trade.exit_index;
    exit_t = trade.exit_t;
    exit = trade.exit;
    points = trade.points;
    exit_fee = fee;
    exit_credit = credit;
    net_pnl = math.minus credit entry.entry_fee;
  }

  abbrev pub exit_values : TradeAccounting → Trade → Float → Float → List Float
  exit_values entry trade fee credit =
      trade.exit ∷ trade.points ∷ fee ∷ credit ∷ math.minus credit entry.entry_fee ∷ []

  -- The trade is appended whether or not the mutation was recorded.
  abbrev pub append_trade : Collector → TradeAccounting → Collector
  append_trade c trade = record c {
    book = record (c.book) { trades = c.book.trades ++ trade ∷ [] };
    open_trade = none;
  }

  -- exit, for the open trade and the last trade of the broker.
  unfoldable pub settle :
      Collector → Broker → TradeAccounting → Trade → Float → Float → ℕ → Collector
  settle c b entry trade before credit index =
      let fee = fee_of b trade.size in
      if not (same_trade entry trade)
      then fail c trade_identity index
      else if not (all_finite (exit_values entry trade fee credit))
      then fail c exit_value index
      else append_trade
          (mutation c exit_mutation entry.trade_index index trade.exit_t before b.realized credit)
          (closed_trade entry trade fee credit)

  unfoldable pub record_exit : Collector → Broker → Float → Float → ℕ → Collector
  record_exit c b before credit index = if is_some c.error then c else (elim c.open_trade [
    | none ↦ fail c exit_identity index
    | some entry ↦ elim (last? b.trades) [
      | none ↦ fail c exit_identity index
      | some trade ↦
          if not (one_more_trade b c)
          then fail c exit_identity index
          else settle c b entry trade before credit index
    ]
  ])

  -- The unrealized amount of a position at a close.
  abbrev pub side_float : Side → Float
  side_float long = math.whole_float 1
  side_float short = math.minus zero_float (math.whole_float 1)

  unfoldable pub unrealized_of : Broker → Float → Float
  unrealized_of b close =
      if b.has_position
      then math.times (math.times (math.minus close b.position.entry) (side_float b.position.side))
          b.position.size
      else zero_float

  abbrev pub mark_of : Collector → Broker → ℕ → Candle → EquityMark
  mark_of c b index bar =
      let cash = math.plus c.book.start_equity b.realized in
      record {
        index = index;
        t = bar.t;
        realized = b.realized;
        unrealized = unrealized_of b bar.c;
        equity = math.plus cash (unrealized_of b bar.c);
      }

  abbrev pub put_mark : Collector → EquityMark → List EquityMark → Collector
  put_mark c m marks = record c {
    book = record (c.book) { marks = marks; final_realized = m.realized; end_equity = m.equity };
  }

  abbrev pub mark_values : Collector → Broker → ℕ → Candle → List Float
  mark_values c b index bar =
      bar.t
      ∷ math.plus c.book.start_equity b.realized
      ∷ unrealized_of b bar.c
      ∷ (mark_of c b index bar).equity
      ∷ []

  -- mark, with `replace` false, for the candle at `index`.
  unfoldable pub mark : Collector → Broker → ℕ → Candle → Collector
  mark c b index bar =
      if is_some c.error
      then c
      else if not (index == length c.book.marks)
      then fail c mark_index index
      else if not (math.identical b.realized c.realized)
      then fail c mark_realized index
      else if b.has_position && not (is_some c.open_trade)
      then fail c mark_position index
      else if not (all_finite (mark_values c b index bar))
      then fail c mark_value index
      else put_mark c (mark_of c b index bar) (c.book.marks ++ mark_of c b index bar ∷ [])

  abbrev pub ends_flat : Option EquityMark → Bool
  ends_flat none = true
  ends_flat (some m) = float_eq m.unrealized zero_float

  -- finish; `inr` is the field of the error.
  unfoldable pub finish : Collector → ℕ → ℕ → SequentialAccounting ⊎ AccountingField
  finish c bars trades =
      let end = math.plus c.book.start_equity c.realized in
      elim c.error [
        | some e ↦ inr e.field
        | none ↦
            if is_some c.open_trade
              || not (length c.book.marks == bars)
              || not (length c.book.trades == trades)
              || not (length c.book.events == 2 * trades)
            then inr terminal_count
            else if not (is_finite end)
                || not (math.identical c.realized c.book.final_realized)
                || not (math.identical end c.book.end_equity)
            then inr terminal_equity
            else if not (ends_flat (last? c.book.marks))
            then inr terminal_unrealized
            else inl c.book
      ]
