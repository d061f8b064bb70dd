-- ===== src/Broker/Accounts.antt =====
-- engine/sequential_accounting.go: the collector against a broker that opens while flat and closes
-- what it holds, on every move and over a whole run.
use mathlib.Core.Path.{subst}
use heisentick_strat.Prelude.{
  ℕ, Bool-cases, Float, List, Option, [], arith, false, inl, inr, is_some, last?, none, refl, some,
  true, ◌++◌, ◌∷◌, ◌≡◌, Text, length, length-snoc, if_rule, not, Bool, suc, ◌&&◌, ◌==◌,
}
use heisentick_strat.Broker.Types.{
  Arithmetic, Broker, AccountingError, Collector, Position, Candle, CloseReason, TradeAccounting,
  Order, Side, EquityMark, mark_value,
}
use heisentick_strat.Broker.Ledger.{mark, put_mark, mark_of}
use heisentick_strat.Broker.Ledger.{mark_values, all_finite, fail}
use heisentick_strat.Broker.Settlement.{open_some, settle-Agrees}
use heisentick_strat.Broker.Agreement.{
  AgreesWith, Books, entry-Agrees, AccountsAgree, Agrees, OpenTrade, fail-Agrees, one_more,
}
use heisentick_strat.Broker.Execution.{
  hold, give_up, pnl_of, trade_of, close_position, in_window, open_position, position_of,
  record_closing, record_opening,
}
use heisentick_strat.Broker.Ledger.{record_entry, one_more_trade, record_exit, settle}
use heisentick_strat.Broker.Exposure.{Stable}

still_wrong :
    (bars : ℕ) (b b' : Broker) (c : Collector) (o : Option AccountingError)
    → is_some o ≡ true
    → AgreesWith bars b c o
    → AgreesWith bars b' c o
still_wrong bars b b' c none e h = absurd (ground arith)
still_wrong bars b b' c (some x) e h = h

still_right :
    (bars : ℕ) (b : Broker) (c : Collector) (o : Option AccountingError)
    → is_some o ≡ false
    → AgreesWith bars b c o
    → (o ≡ none) × Books bars b c
still_right bars b c none e h = (refl, h)
still_right bars b c (some x) e h = absurd (ground arith)

pub last?-snoc {ℓ} : {A : Type ℓ} (xs : List A) (x : A) → last? (xs ++ x ∷ []) ≡ some x
last?-snoc [] x = refl
last?-snoc (y ∷ []) x = refl
last?-snoc (y ∷ z ∷ xs) x = last?-snoc (z ∷ xs) x

module _ (math : Arithmetic) (same : (x : Float) → math.identical x x ≡ true) (bars : ℕ) where
  entry-wrong :
      (c : Collector) (b : Broker) (x : Float)
      → is_some c.error ≡ true
      → c ≡ record_entry math c b x
  unfolding record_entry
  entry-wrong c b x e = rw e refl

  exit-wrong :
      (c : Collector) (b : Broker) (x y : Float) (i : ℕ)
      → is_some c.error ≡ true
      → c ≡ record_exit math c b x y i
  unfolding record_exit
  exit-wrong c b x y i e = rw e refl

  enter-Agrees :
      (b : Broker) (c : Collector) (pos : Position)
      → b.has_position ≡ false
      → AgreesWith bars b c c.error
      → AgreesWith bars
          (hold math b pos)
          (record_entry math c (hold math b pos) b.realized)
          (record_entry math c (hold math b pos) b.realized).error
  enter-Agrees b c pos f h = elim (Bool-cases (is_some c.error)) [
    | inl e ↦
        subst (λ c'. AgreesWith bars (hold math b pos) c' c'.error)
          (entry-wrong c (hold math b pos) b.realized e)
          (still_wrong bars b (hold math b pos) c c.error e h)
    | inr e ↦
        let r = still_right bars b c c.error e h in entry-Agrees math same bars b c pos r.0 f r.1
  ]

  module _ (b : Broker) (price : Float) (index : ℕ) (bar : Candle) (reason : CloseReason)
      (rule : Text) where
    abbrev gone : Broker
    gone = give_up math b price index bar reason rule

    -- The trade of the exit is the last, one more than the collector has.
    exit-settle :
        (c : Collector) (t : TradeAccounting)
        → is_some c.error ≡ false
        → c.open_trade ≡ some t
        → length c.book.trades ≡ length b.trades
        → settle math c gone t
            (trade_of math b price index bar reason rule)
            b.realized
            (pnl_of math b price)
            index
          ≡ record_exit math c gone b.realized (pnl_of math b price) index
    unfolding record_exit
    exit-settle c t e o n =
        let trade = trade_of math b price index bar reason rule in
        let k : one_more_trade gone c ≡ true = let l = length-snoc b.trades trade in ground arith in
        simp (e, o, last?-snoc b.trades trade, k)

    leave-Agrees :
        (c : Collector)
        → b.has_position ≡ true
        → AgreesWith bars b c c.error
        → AgreesWith bars gone
            (record_exit math c gone b.realized (pnl_of math b price) index)
            (record_exit math c gone b.realized (pnl_of math b price) index).error
    leave-Agrees c f h = elim (Bool-cases (is_some c.error)) [
      | inl e ↦
          subst (λ c'. AgreesWith bars gone c' c'.error)
            (exit-wrong c gone b.realized (pnl_of math b price) index e)
            (still_wrong bars b gone c c.error e h)
      | inr e ↦
          let r = still_right bars b c c.error e h in
          let o =
            open_some math same bars b.has_position b.position (length b.trades) c.open_trade f
              (r.1).1 in
          subst (λ c'. AgreesWith bars gone c' c'.error) (exit-settle c o.0 e o.1 (r.1).2)
            (settle-Agrees math same bars b price index bar reason rule c o.0 r.0 f o.2 r.1)
    ]

  opened :
      (b : Broker) (pos : Position) (o : Option Collector)
      → b.has_position ≡ false
      → AccountsAgree bars b o
      → AccountsAgree bars (hold math b pos) (record_opening math o (hold math b pos) b.realized)
  opened b pos none f h = tt
  opened b pos (some c) f h = enter-Agrees b c pos f h

  closed :
      (b : Broker) (price : Float) (i : ℕ) (bar : Candle) (reason : CloseReason) (rule : Text)
      (o : Option Collector)
      → b.has_position ≡ true
      → AccountsAgree bars b o
      → AccountsAgree bars (give_up math b price i bar reason rule) (
          record_closing math o
            (give_up math b price i bar reason rule)
            b.realized
            (pnl_of math b price)
            i)
  closed b price i bar reason rule none f h = tt
  closed b price i bar reason rule (some c) f h = leave-Agrees b price i bar reason rule c f h

  opens-Agrees :
      (i : ℕ) (bar : Candle) (b : Broker) (side : Side) (price : Float) (ord : Order)
      → b.has_position ≡ false
      → Agrees bars b
      → Agrees bars (open_position math b side price ord i bar)
  unfolding open_position
  opens-Agrees i bar b side price ord f h =
      if_rule (Agrees bars) (not (in_window b.window i)) _ _ (λ _. h)
        (λ _. opened b (position_of math b.costs side price ord i bar) b.accounting f h)

  closes-Agrees :
      (i : ℕ) (bar : Candle) (b : Broker) (price : Float) (reason : CloseReason) (rule : Text)
      → b.has_position ≡ true
      → Agrees bars b
      → Agrees bars (close_position math b price i bar reason rule)
  unfolding close_position
  closes-Agrees i bar b price reason rule f h = closed b price i bar reason rule b.accounting f h

  -- With bitwise comparison of floats reflexive, opening a position while flat and closing a held
  -- one keep the collector in agreement with the broker: either it has an error about a value
  -- (never about an identity, a count or continuity), or its realized amount, open trade, number of
  -- trades, and events that continue one another are those of the broker.
  pub accounts-Stable : (i : ℕ) (bar : Candle) → Stable math i bar (Agrees bars)
  accounts-Stable i bar = record {
    keeps = λ b ps es ls h. h;
    opens = opens-Agrees i bar;
    closes = closes-Agrees i bar;
  }

  -- The position of the broker is the open trade of the collector.
  open_held :
      (held : Bool) (pos : Position) (n : ℕ) (o : Option TradeAccounting)
      → OpenTrade held pos n o
      → held && not (is_some o) ≡ false
  open_held false pos n o h = refl
  open_held true pos n (some t) h = refl
  open_held true pos n none h = absurd h

  marked-Books :
      (b : Broker) (c : Collector) (m : EquityMark)
      → Books bars b c
      → Books (suc bars) b (put_mark math c m (c.book.marks ++ m ∷ []))
  marked-Books b c m h = (h.0, h.1, h.2, h.3, h.4, one_more c.book.marks m bars (suc bars) h.5 refl)

  mark-wrong :
      (c : Collector) (b : Broker) (i : ℕ) (bar : Candle)
      → is_some c.error ≡ true
      → c ≡ mark math c b i bar
  unfolding mark
  mark-wrong c b i bar e = rw e refl

  still_wrong_later :
      (c : Collector) (o : Option AccountingError) (b : Broker)
      → is_some o ≡ true
      → AgreesWith bars b c o
      → AgreesWith (suc bars) b c o
  still_wrong_later c none b e h = absurd (ground arith)
  still_wrong_later c (some x) b e h = h

  -- The mark of bar `bars`.
  pub mark-Agrees :
      (b : Broker) (c : Collector) (bar : Candle)
      → AgreesWith bars b c c.error
      → AgreesWith (suc bars) b (mark math c b bars bar) (mark math c b bars bar).error
  unfolding mark
  mark-Agrees b c bar h = elim (Bool-cases (is_some c.error)) [
    | inl e ↦
        subst (λ c'. AgreesWith (suc bars) b c' c'.error) (mark-wrong c b bars bar e)
          (still_wrong_later c c.error b e h)
    | inr e ↦
        let r = still_right bars b c c.error e h in
        let F : Collector → Type 0 = λ c'. AgreesWith (suc bars) b c' c'.error in
        let k : math.identical b.realized c.realized ≡ true = rw (r.1).0 (same b.realized) in
        let o = open_held b.has_position b.position (length b.trades) c.open_trade (r.1).1 in
        let n = (r.1).5 in
        if_rule F (is_some c.error) _ _ (λ bad. absurd (ground arith))
          (λ _.
            if_rule F (not (bars == length c.book.marks)) _ _ (λ bad. absurd (ground arith))
              (λ _.
                if_rule F (not (math.identical b.realized c.realized)) _ _
                  (λ bad. absurd (ground arith))
                  (λ _.
                    if_rule F (b.has_position && not (is_some c.open_trade)) _ _
                      (λ bad. absurd (ground arith))
                      (λ _.
                        if_rule F (not (all_finite (mark_values math c b bars bar)))
                          (fail c mark_value bars)
                          (put_mark math c (mark_of math c b bars bar)
                            (c.book.marks ++ mark_of math c b bars bar ∷ []))
                          (λ _. fail-Agrees math same (suc bars) b c mark_value bars r.0 refl)
                          (λ _. rw r.0 (marked-Books b c (mark_of math c b bars bar) r.1))))))
  ]
