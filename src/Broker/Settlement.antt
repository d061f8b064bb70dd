-- ===== src/Broker/Settlement.antt =====
-- engine/sequential_accounting.go, exit: the collector after the broker closes what it holds.
use heisentick_strat.Prelude.{
  ℕ, Bool, Float, Option, false, length, none, refl, some, true, ◌*◌, ◌+◌, ◌≡◌, arith, if_rule, not,
  length-snoc, Text,
}
use heisentick_strat.Broker.Types.{
  Arithmetic, Broker, Collector, Position, TradeAccounting, exit_value, mutation_value, zero_float,
  Candle, CloseReason, Side, Trade, exit_mutation, long, short,
}
use heisentick_strat.Broker.Ledger.{
  all_finite, fee_of, append_trade, closed_trade, exit_values, same_trade, settle, side_eq,
}
use heisentick_strat.Broker.Execution.{give_up, pnl_of, trade_of}
use heisentick_strat.Broker.Agreement.{
  AgreesWith, Books, Continuous-snoc, OpenTrade, error-fail, fail-Agrees, mutation_cases, one_more,
  recorded,
}

module _ (math : Arithmetic) (same : (x : Float) → math.identical x x ≡ true) (bars : ℕ) where
  side_eq_refl : (s : Side) → side_eq math s s ≡ true
  side_eq_refl long = refl
  side_eq_refl short = refl

  pub same_trade-held :
      (b : Broker) (t : TradeAccounting) (n : ℕ) (price : Float) (index : ℕ) (bar : Candle)
      (reason : CloseReason) (rule : Text)
      → OpenTrade true b.position n (some t)
      → same_trade math t (trade_of math b price index bar reason rule) ≡ true
  unfolding same_trade trade_of
  same_trade-held b t n price index bar reason rule h =
      let time : math.identical t.entry_t b.position.entry_t ≡ true =
        rw h.2 (same b.position.entry_t) in
      let side : side_eq math t.side b.position.side ≡ true =
        rw h.3 (side_eq_refl b.position.side) in
      let price : math.identical t.entry b.position.entry ≡ true = rw h.4 (same b.position.entry) in
      let size : math.identical t.size b.position.size ≡ true = rw h.5 (same b.position.size) in
      ground arith

  pub open_some :
      (held : Bool) (pos : Position) (n : ℕ) (o : Option TradeAccounting)
      → held ≡ true
      → OpenTrade held pos n o
      → (t : TradeAccounting) × (o ≡ some t) × OpenTrade true pos n (some t)
  open_some true pos n (some t) e h = (t, refl, h)
  open_some true pos n none e h = absurd h
  open_some false pos n o e h = absurd (ground arith)

  module _ (b : Broker) (price : Float) (index : ℕ) (bar : Candle) (reason : CloseReason)
      (rule : Text) where
    abbrev pub left : Broker
    left = give_up math b price index bar reason rule

    abbrev pub trade : Trade
    trade = trade_of math b price index bar reason rule

    abbrev after_exit : Collector → TradeAccounting → Collector
    after_exit c t =
        append_trade math
          (recorded math same bars c exit_mutation t.trade_index index trade.exit_t b.realized
            left.realized (pnl_of math b price))
          (closed_trade math t trade (fee_of math left trade.size) (pnl_of math b price))

    exit-Books :
        (c : Collector) (t : TradeAccounting)
        → b.has_position ≡ true
        → Books bars b c
        → Books bars left (after_exit c t)
    exit-Books c t f h =
        let m : length c.book.events ≡ 2 * length b.trades + 1 = ground arith in
        let l = length-snoc b.trades trade in
        let k =
          length-snoc c.book.trades
            (closed_trade math t trade (fee_of math left trade.size) (pnl_of math b price)) in
        (
          refl,
          tt,
          omega arith,
          one_more c.book.events _ (2 * length b.trades + 1) (2 * length left.trades + 0) m
              (omega arith),
          Continuous-snoc zero_float c.book.events b.realized _ h.4 refl,
          h.5,
        )

    pub settle-Agrees :
        (c : Collector) (t : TradeAccounting)
        → c.error ≡ none
        → b.has_position ≡ true
        → OpenTrade true b.position (length b.trades) (some t)
        → Books bars b c
        → AgreesWith bars left
            (settle math c left t trade b.realized (pnl_of math b price) index)
            (settle math c left t trade b.realized (pnl_of math b price) index).error
    unfolding settle
    settle-Agrees c t e f o h =
        let F : Collector → Type 0 = λ c'. AgreesWith bars left c' c'.error in
        let s = same_trade-held b t (length b.trades) price index bar reason rule o in
        let fee = fee_of math left trade.size in
        let credit = pnl_of math b price in
        if_rule F (not (same_trade math t trade)) _ _ (λ bad. absurd (ground arith))
          (λ _.
            if_rule F (not (all_finite (exit_values math t trade fee credit))) _ _
              (λ _. fail-Agrees math same bars left c exit_value index e refl)
              (λ _.
                mutation_cases math same bars
                  (λ c'. F (append_trade math c' (closed_trade math t trade fee credit))) c
                  exit_mutation t.trade_index index trade.exit_t b.realized left.realized credit h.0
                  (rw (error-fail math same bars c mutation_value index e) refl)
                  (rw e (exit-Books c t f h))))
