-- ===== src/Sequential/MarketChecks.antt =====
-- engine/sequential_market_v3.go: the last checks of a market run, on accounts that agree with the
-- broker.
use mathlib.Core.Path.{subst}
use heisentick_strat.Prelude.{
  ℕ, Bool, Float, List, Option, Ensures, Option-cases, [], arith, false, get_elem?,
  get_elem?-is_some, if_rule, if◌then◌else◌, inl, inr, is_some, last?, length, none, not, refl,
  some, true, ◌-◌, ◌<◌, ◌∷◌, ◌≡◌, ◌⊎◌, Ensures-bind, ◌&&◌, ◌*◌, ◌+◌, ◌==◌, ◌||◌, Bool-cases, suc,
  sym, ◌++◌,
}
use heisentick_strat.Broker.Types.{
  Arithmetic, Broker, Candle, Collector, SequentialAccounting, TradeAccounting, EquityMark,
}
use heisentick_strat.Broker.Ledger.{all_finite, mark, mark_of, put_mark, mark_values, fail}
use heisentick_strat.Broker.Accounts.{mark-Agrees, last?-snoc}
use heisentick_strat.Broker.Types.{
  mark_index, mark_realized, mark_position, mark_value, AccountingField, AccountingError,
}
use heisentick_strat.Broker.Exposure.{held}
use heisentick_strat.Broker.Agreement.{AgreesWith, Books, OpenTrade}
use heisentick_strat.Sequential.Market.{
  MarketError, MarketRun, Opened, open_position_identity, open_values, opened_at, opened_part,
  terminal_counts, terminal_equity_or_realized, checked, final_checks, mark_differs,
}
use heisentick_strat.Sequential.Types.{Opportunity, Scheduler}

-- The errors about a mismatch of broker and collector.
abbrev pub is_mismatch : MarketError → Bool
is_mismatch open_position_identity = true
is_mismatch terminal_equity_or_realized = true
is_mismatch terminal_counts = true
is_mismatch _ = false

-- The last mark has the realized amount of the broker, and its equity is that of the book.
abbrev pub LastMark : Broker → SequentialAccounting → Option EquityMark → Type 0
LastMark b book none = Unit
LastMark b book (some m) = (m.realized ≡ b.realized) × (book.end_equity ≡ m.equity)

abbrev pub NoMismatch : MarketRun ⊎ MarketError → Type 0
NoMismatch (inl r) = Unit
NoMismatch (inr e) = is_mismatch e ≡ false

-- The events of an open position are those beyond the closed trades.
abbrev OpenedFits : ℕ → Opened → Type 0
OpenedFits n (inl (open_trade, extra)) = extra ≡ n
OpenedFits n (inr e) = is_mismatch e ≡ false

opened_at-OpenedFits :
    (last : ℕ) (b : Broker) (entry : TradeAccounting) (m : EquityMark) (bar : Candle)
    → OpenedFits 1 (opened_at last b entry m bar)
unfolding opened_at
opened_at-OpenedFits last b entry m bar =
    if_rule (OpenedFits 1) (not (all_finite (open_values b entry m))) _ _ (λ _. refl) (λ _. refl)

last_some : (bars : List Candle) → last? bars ≡ none → length bars ≡ 0
last_some [] e = refl
last_some (x ∷ []) e = absurd (ground arith)
last_some (x ∷ y ∷ bars) e = let l = last_some (y ∷ bars) e in absurd (omega (arith, l))

last_positive : (bars : List Candle) → is_some (last? bars) ≡ true → 0 < length bars
last_positive [] e = absurd (ground arith)
last_positive (x ∷ bars) e = omega arith

held_fits :
    (b : Broker) (c : Collector) (bars : ℕ) (last : Option Candle) (held : Bool) (n : ℕ)
    (o : Option TradeAccounting)
    → length c.book.marks ≡ bars
    → (last ≡ none → held ≡ false)
    → (is_some last ≡ true → 0 < bars)
    → OpenTrade held b.position n o
    → Ensures (OpenedFits (if held then 1 else 0)) (opened_part b c bars last held o)
unfolding opened_part
held_fits b c bars last false n none m f p h = refl
held_fits b c bars last false n (some entry) m f p h = absurd h
held_fits b c bars last true n none m f p h = absurd h
held_fits b c bars none true n (some entry) m f p h = let e = f refl in absurd (ground arith)
held_fits b c bars (some bar) true n (some entry) m f p h =
    let pos = p refl in
    let i = get_elem?-is_some c.book.marks (bars - 1) (omega arith) in
    elim (Option-cases (get_elem? c.book.marks (bars - 1))) [
      | inl e ↦ absurd (ground arith)
      | inr (x, e) ↦ rw e (opened_at-OpenedFits (bars - 1) b entry x bar)
    ]

some_error : (o : Option AccountingError) → o ≡ none → is_some o ≡ true → ⊥
some_error none n e = ground arith
some_error (some x) n e = ground arith

no_error : (o : Option AccountingError) → is_some o ≡ false → o ≡ none
no_error none e = refl
no_error (some x) e = absurd (ground arith)

failed_error :
    (c : Collector) (field : AccountingField) (i : ℕ)
    → c.error ≡ none
    → (fail c field i).error ≡ none
    → ⊥
unfolding fail
failed_error c field i right n =
    let h : is_some (fail c field i).error ≡ true = rw right refl in
    some_error (fail c field i).error n h

counts_agree :
    (marks bars trades trades' events extra extra' : ℕ)
    → marks ≡ bars
    → trades ≡ trades'
    → events ≡ 2 * trades' + extra'
    → extra ≡ extra'
    → not (marks == bars) || not (trades == trades') || not (events == 2 * trades' + extra) ≡ true
    → ⊥
counts_agree marks bars trades trades' events extra extra' m t e x bad = ground arith

module _ (math : Arithmetic) (same : (x : Float) → math.identical x x ≡ true) where
  mark_same :
      (b : Broker) (book : SequentialAccounting) (m : Option EquityMark)
      → LastMark b book m
      → mark_differs math b book m ≡ false
  mark_same b book none h = refl
  mark_same b book (some m) h =
      let r : math.identical m.realized b.realized ≡ true = rw h.0 (same b.realized) in
      let e : math.identical book.end_equity m.equity ≡ true = rw h.1 (same m.equity) in
      ground arith

  final_checks-NoMismatch :
      (b : Broker) (c : Collector) (opportunities : List Opportunity) (bars : ℕ) (opened : Opened)
      → Books bars b c
      → LastMark b c.book (last? c.book.marks)
      → OpenedFits (held b) opened
      → NoMismatch (final_checks math b c opportunities bars opened)
  unfolding final_checks
  final_checks-NoMismatch b c opportunities bars (inr e) h l o = o
  final_checks-NoMismatch b c opportunities bars (inl (open_trade, extra)) h l o =
      let d = mark_same b c.book (last? c.book.marks) l in
      let marks = h.5 in
      let trades = h.2 in
      let events = h.3 in
      if_rule NoMismatch
        (length c.book.marks == bars && mark_differs math b c.book (last? c.book.marks)) _ _
        (λ bad. absurd (ground arith))
        (λ _.
          if_rule NoMismatch
            (not (length c.book.marks == bars)
              || not (length c.book.trades == length b.trades)
              || not (length c.book.events == 2 * length b.trades + extra))
            _ _ (λ bad. absurd (counts_agree _ _ _ _ _ _ _ marks trades events o bad)) (λ _. tt))

  pub checked-NoMismatch :
      (bars : List Candle) (s : Scheduler) (c : Collector)
      → (length bars ≡ 0 → s.broker.has_position ≡ false)
      → Books (length bars) s.broker c
      → LastMark s.broker c.book (last? c.book.marks)
      → Ensures NoMismatch (checked math bars s (some c))
  checked-NoMismatch bars s c f h l =
      Ensures-bind (OpenedFits (held s.broker)) NoMismatch
        (opened_part s.broker c (length bars) (last? bars) s.broker.has_position c.open_trade)
        (λ opened. some (final_checks math s.broker c s.opportunities (length bars) opened))
        (held_fits s.broker c (length bars) (last? bars) s.broker.has_position
          (length s.broker.trades) c.open_trade h.5 (λ e. f (last_some bars e))
          (λ e. last_positive bars e) h.1)
        (λ opened o. final_checks-NoMismatch s.broker c s.opportunities (length bars) opened h l o)

  -- A mark without an error is the last mark.
  pub mark-LastMark :
      (c : Collector) (b : Broker) (i : ℕ) (bar : Candle)
      → (mark math c b i bar).error ≡ none
      → LastMark b (mark math c b i bar).book (last? (mark math c b i bar).book.marks)
  unfolding mark
  mark-LastMark c b i bar =
      let F : Collector → Type 0 =
        λ c'. c'.error ≡ none → LastMark b c'.book (last? c'.book.marks) in
      let m = mark_of math c b i bar in
      elim (Bool-cases (is_some c.error)) [
        | inl e ↦
            if_rule F (is_some c.error) _ _ (λ _ n. absurd (some_error c.error n e))
              (λ bad. absurd (ground arith))
        | inr e ↦
            let right : c.error ≡ none = no_error c.error e in
            let failed : (field : AccountingField) → F (fail c field i) =
              λ field n. absurd (failed_error c field i right n) in
            if_rule F (is_some c.error) _ _ (λ bad. absurd (ground arith))
              (λ _.
                if_rule F (not (i == length c.book.marks)) _ _ (λ _. failed mark_index)
                  (λ _.
                    if_rule F (not (math.identical b.realized c.realized)) _ _
                      (λ _. failed mark_realized)
                      (λ _.
                        if_rule F (b.has_position && not (is_some c.open_trade)) _ _
                          (λ _. failed mark_position)
                          (λ _.
                            if_rule F (not (all_finite (mark_values math c b i bar)))
                              (fail c mark_value i) (put_mark math c m (c.book.marks ++ m ∷ []))
                              (λ _. failed mark_value)
                              (λ _ n. rw (last?-snoc c.book.marks m) (refl, refl))))))
      ]

  -- With bitwise comparison of floats reflexive, when a collector that agrees with the broker after
  -- all bars but the last marks the last bar without an error, the last checks of a market run do
  -- not panic and report no mismatch of the open position, of the terminal equity and realized
  -- amount, or of the terminal counts.
  pub marked-NoMismatch :
      (bars : List Candle) (s : Scheduler) (c : Collector) (n : ℕ) (bar : Candle)
      → length bars ≡ suc n
      → AgreesWith n s.broker c c.error
      → (mark math c s.broker n bar).error ≡ none
      → Ensures NoMismatch (checked math bars s (some (mark math c s.broker n bar)))
  marked-NoMismatch bars s c n bar l a e =
      let c' = mark math c s.broker n bar in
      let b : Books (suc n) s.broker c' =
        subst (AgreesWith (suc n) s.broker c') e (mark-Agrees math same n s.broker c bar a) in
      checked-NoMismatch bars s c' (λ z. absurd (omega arith))
        (subst (λ k. Books k s.broker c') (sym l) b) (mark-LastMark c s.broker n bar e)
