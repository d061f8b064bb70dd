-- ===== src/Sequential/MarketRun.antt =====
-- engine/sequential_market_v3.go: the loop of a market run keeps the accounts of broker and collector
-- together, so that the last checks find no mismatch.
use mathlib.Core.Path.{subst}
use heisentick_strat.Prelude.{
  ℕ, Bool, Float, List, Option, Ensures, IsWord, Ensures-bind, [], arith, false, inl, inr, is_some,
  last?, length, none, refl, some, suc, true, ◌+◌, ◌∷◌, ◌≡◌, ◌⊎◌, sym, ◌<◌,
}
use heisentick_strat.Broker.Types.{Arithmetic, Broker, Candle, Collector, AccountingError, Costs}
use heisentick_strat.Broker.Agreement.{Agrees, AccountsAgree, AgreesWith}
use heisentick_strat.Closures.{timeframe_step}
use heisentick_strat.Broker.Ledger.{new_collector}
use heisentick_strat.Sequential.Types.{Scheduler, ExecutionError, Spec, no_next_bar}
use heisentick_strat.Sequential.Market.{
  next_flag, MarketError, after_mark, capture_error, market_steps, next_market_bar, after_loop,
  checked, market_started, run_market,
}
use heisentick_strat.Sequential.MarketChecks.{
  LastMark, is_mismatch, mark-LastMark, NoMismatch, checked-NoMismatch,
}
use heisentick_strat.Sequential.Validity.{Stepped, Valid, scheduler_step-Stepped}
use heisentick_strat.Sequential.Scheduler.{View, scheduler_step}
use heisentick_strat.Sequential.Run.{
  mark_step, marked, StartError, captured, new_scheduler, refuse_pending, refuse_waiting,
  with_timeframe,
}
use heisentick_strat.Sequential.Resolution.{mark_step-Valid}
use heisentick_strat.Sequential.Start.{
  StartValid, length-compute_atr, timeframe-IsWord, with_timeframe-StartValid,
}
use heisentick_strat.Sequential.Atr.{compute_atr}
use heisentick_strat.Sequential.Fill.{reject}
use heisentick_strat.Sequential.Accepting.{reject_rule}

-- A collector without an error, whose last mark is that of the broker.
abbrev CaptureFine : Broker → Option Collector → Type 0
CaptureFine b none = Unit
CaptureFine b (some c) = (c.error ≡ none) × LastMark b c.book (last? c.book.marks)

-- The accounts of a broker after n bars.
abbrev AccountsFine : ℕ → Broker → Type 0
AccountsFine n b =
    Agrees n b
    × (is_some b.accounting ≡ true)
    × CaptureFine b b.accounting
    × (n ≡ 0 → b.has_position ≡ false)

-- The marks of MatchBars, one for each bar.
abbrev pub FlagsFit : Option (List Bool) → ℕ → Type 0
FlagsFit none n = Unit
FlagsFit (some flags) n = length flags ≡ n

abbrev LoopDone : ℕ → Scheduler ⊎ MarketError → Type 0
LoopDone n (inr e) = is_mismatch e ≡ false
LoopDone n (inl s) = Valid true n n s × AccountsFine n s.broker

next_flag-FlagsFit :
    (after : Option (List Bool)) (n : ℕ)
    → FlagsFit after (suc n)
    → Ensures (λ f. FlagsFit f.1 n) (next_flag after)
next_flag-FlagsFit none n h = tt
next_flag-FlagsFit (some []) n h = absurd (omega arith)
next_flag-FlagsFit (some (flag ∷ flags)) n h = omega arith

module _ (math : Arithmetic) (same : (x : Float) → math.identical x x ≡ true)
    (to_word : (x : Float) → IsWord (math.to_int64 x)) where
  marked-CaptureFine :
      (i : ℕ) (bar : Candle) (b : Broker) (o : Option Collector)
      → b.accounting ≡ o
      → capture_error (marked math b i bar o).accounting ≡ none
      → CaptureFine (marked math b i bar o) (marked math b i bar o).accounting
  marked-CaptureFine i bar b none e h = rw e tt
  marked-CaptureFine i bar b (some c) e h = (h, mark-LastMark math same c b i bar h)

  after_mark-LoopDone :
      (i n : ℕ) (s : Scheduler) (continue : Scheduler → Option (Scheduler ⊎ MarketError))
      (error : Option AccountingError)
      → capture_error s.broker.accounting ≡ error
      → Valid true (suc i) (suc i) s
      → (capture_error s.broker.accounting ≡ none → CaptureFine s.broker s.broker.accounting)
      → ((s' : Scheduler)
          → Valid true (suc i) (suc i) s'
          → AccountsFine (suc i) s'.broker
          → Ensures (LoopDone n) (continue s'))
      → Ensures (LoopDone n) (after_mark math s continue error)
  after_mark-LoopDone i n s continue (some e) q v f k = refl
  after_mark-LoopDone i n s continue none q v f k =
      k s v (v.held.0, v.held.2, f q, λ z. absurd (omega arith))

  next_market_bar-LoopDone :
      (i n : ℕ) (bar : Candle) (continue : Scheduler → Option (Scheduler ⊎ MarketError))
      (r : Scheduler × Option ExecutionError)
      → Stepped true i r
      → ((s' : Scheduler)
          → Valid true (suc i) (suc i) s'
          → AccountsFine (suc i) s'.broker
          → Ensures (LoopDone n) (continue s'))
      → Ensures (LoopDone n) (next_market_bar math i bar continue r)
  next_market_bar-LoopDone i n bar continue (s, some e) h k = refl
  next_market_bar-LoopDone i n bar continue (s, none) h k =
      let s1 = mark_step math i bar s in
      after_mark-LoopDone i n s1 continue (capture_error s1.broker.accounting) refl
        (mark_step-Valid math same to_word true i bar s h)
        (λ q. marked-CaptureFine i bar s.broker s.broker.accounting refl q) k

  market_steps-LoopDone :
      (s : Scheduler) (i n : ℕ) (past : List Candle) (atrs : List Float)
      (after : Option (List Bool)) (bars : List Candle)
      → length atrs ≡ length bars
      → FlagsFit after (length bars)
      → n ≡ i + length bars
      → Valid true i i s
      → AccountsFine i s.broker
      → Ensures (LoopDone n) (market_steps math s i past atrs after bars)
  unfolding market_steps
  market_steps-LoopDone s i n past atrs after [] l f e v a =
      subst (λ k. Valid true k k s × AccountsFine k s.broker) (omega arith) (v, a)
  market_steps-LoopDone s i n past [] after (bar ∷ bars) l f e v a = absurd (omega arith)
  market_steps-LoopDone s i n past (atr ∷ atrs) after (bar ∷ bars) l f e v a =
      let view : View = record { past = bar ∷ past; atr = atr } in
      Ensures-bind (λ x. FlagsFit x.1 (length bars)) (LoopDone n) (next_flag after) _
        (next_flag-FlagsFit after (length bars) f)
        (λ flag g.
          Ensures-bind (Stepped true i) (LoopDone n) (scheduler_step math s i view bar flag.0)
            (next_market_bar math i bar
              (λ s'. market_steps math s' (i + 1) (bar ∷ past) atrs flag.1 bars))
            (scheduler_step-Stepped math same to_word true s i view bar flag.0 v)
            (λ r h.
              next_market_bar-LoopDone i n bar
                (λ s'. market_steps math s' (i + 1) (bar ∷ past) atrs flag.1 bars) r h
                (λ s' v' a'.
                  let q : suc i ≡ i + 1 = omega arith in
                  market_steps-LoopDone s' (i + 1) n (bar ∷ past) atrs flag.1 bars (omega arith) g
                    (omega arith) (subst (λ k. Valid true k k s') q v')
                    (subst (λ k. AccountsFine k s'.broker) q a'))))

  refused_broker :
      (s : Scheduler) (waiting : Option ℕ)
      → s.pending ≡ waiting
      → ((k : ℕ) → s.pending ≡ some k → k < length s.opportunities)
      → Ensures (λ s'. s'.broker ≡ s.broker) (refuse_waiting math s waiting)
  refused_broker s none e below = refl
  refused_broker s (some index) e below =
      Ensures-bind (λ s'. s'.broker ≡ s.broker) (λ s'. s'.broker ≡ s.broker)
        (reject s index no_next_bar) (λ s'. some (record s' { pending = none }))
        (reject_rule (λ s'. s'.broker ≡ s.broker) s index no_next_bar (below index e) (λ o. refl))
        (λ s' q. q)

  checked_cases :
      (bars : List Candle) (s : Scheduler) (o : Option Collector)
      → AccountsAgree (length bars) s.broker o
      → is_some o ≡ true
      → CaptureFine s.broker o
      → (length bars ≡ 0 → s.broker.has_position ≡ false)
      → Ensures NoMismatch (checked math bars s o)
  checked_cases bars s none a c f z = absurd (ground arith)
  checked_cases bars s (some c) a x f z =
      checked-NoMismatch math same bars s c z (subst (AgreesWith (length bars) s.broker c) f.0 a)
        f.1

  after_loop-NoMismatch :
      (bars : List Candle) (r : Scheduler ⊎ MarketError)
      → LoopDone (length bars) r
      → Ensures NoMismatch (after_loop math bars r)
  unfolding refuse_pending
  after_loop-NoMismatch bars (inr e) h = h
  after_loop-NoMismatch bars (inl s) h =
      Ensures-bind (λ s'. s'.broker ≡ s.broker) NoMismatch (refuse_waiting math s s.pending)
        (λ s'. checked math bars s' s'.broker.accounting)
        (refused_broker s s.pending refl h.0.below)
        (λ s' q.
          let a = subst (AccountsFine (length bars)) (sym q) h.1 in
          checked_cases bars s' s'.broker.accounting a.0 a.1 a.2 a.3)

  market_started-NoMismatch :
      (bars : List Candle) (after : Option (List Bool)) (start : Float) (r : Scheduler ⊎ StartError)
      → FlagsFit after (length bars)
      → StartValid math (some start) r
      → Ensures NoMismatch
          (market_started math bars (compute_atr math bars 14) after (some (new_collector start)) r)
  market_started-NoMismatch bars after start (inr e) f h = refl
  market_started-NoMismatch bars after start (inl s) f h =
      let s0 = captured math s (some (new_collector start)) in
      Ensures-bind (LoopDone (length bars)) NoMismatch
        (market_steps math s0 0 [] (compute_atr math bars 14) after bars) (after_loop math bars)
        (market_steps-LoopDone s0 0 (length bars) [] (compute_atr math bars 14) after bars
          (length-compute_atr math bars 14) f (omega arith) h.0
          (h.0.held.0, refl, (refl, tt), (λ z. h.1)))
        (λ r d. after_loop-NoMismatch bars r d)

  -- With bitwise comparison of floats reflexive and conversions to int64 in range, a market run
  -- whose marks of MatchBars, if there are any, are one for each bar never panics, and its last
  -- checks report no mismatch of the open position, of the terminal equity and realized amount, or
  -- of the terminal counts.
  pub run_market-NoMismatch :
      (spec : Spec) (costs : Costs) (bars : List Candle) (after : Option (List Bool))
      → FlagsFit after (length bars)
      → Ensures NoMismatch (run_market math spec costs bars after)
  unfolding run_market new_scheduler
  run_market-NoMismatch spec costs bars after f =
      let atr = compute_atr math bars 14 in
      market_started-NoMismatch bars after costs.start_equity
        (with_timeframe math spec costs atr (timeframe_step spec.timeframe)) f
        (with_timeframe-StartValid math spec costs atr (some costs.start_equity)
          (timeframe_step spec.timeframe) (λ x e. timeframe-IsWord math spec.timeframe x e))
