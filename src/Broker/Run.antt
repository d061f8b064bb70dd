-- ===== src/Broker/Run.antt =====
-- engine/broker.go, runScheduledWithFinalization: what holds throughout a run over captured orders
-- and at its end.
use mathlib.Core.Path.{subst}
use heisentick_strat.Prelude.{
  ℕ, Bool, none, some, suc, zero, ◌+◌, ◌≡◌, List, [], arith, false, if_rule, if◌then◌else◌, length,
  true, ◌∷◌, refl, ◌-◌, ◌≤◌,
}
use heisentick_strat.Broker.Types.{Arithmetic, Broker, Candle, Order, end_of_test}
use heisentick_strat.Broker.Exposure.{Safe, Stable, closed-Safe, scheduled_bar-Safe, exposure}
use heisentick_strat.Broker.Scheduled.{
  liquidate, ScheduledEntry, captured_at, is_past, run_scheduled, run_scheduled_from, scheduled_bar,
}
use heisentick_strat.Broker.Execution.{close_position}

-- A predicate, one for each bar, that the moves on the bar preserve and a later bar does not lose.
pub record Lasting (math : Arithmetic) (P : ℕ → Broker → Type 0) : Type 0 where
  pub stable : (i : ℕ) (bar : Candle) → Stable math i bar (P i)
  pub weaken : (i : ℕ) (b : Broker) → P i b → P (suc i) b

module _ {math : Arithmetic} {P : ℕ → Broker → Type 0} (s : Lasting math P) where
  next-Safe : (i : ℕ) (b : Broker) → Safe (P i) b → Safe (P (suc i)) b
  next-Safe i b h = (h.0, s.weaken i b h.1)

  at-Safe : {i j : ℕ} (b : Broker) → i ≡ j → Safe (P i) b → Safe (P j) b
  at-Safe b e h = subst (λ k. Safe (P k) b) e h

  later-Safe : (n i : ℕ) (b : Broker) → Safe (P i) b → Safe (P (i + n)) b
  later-Safe zero i b h = at-Safe b (omega arith) h
  later-Safe (suc n) i b h = at-Safe b (omega arith) (later-Safe n (suc i) b (next-Safe i b h))

  liquidate-Safe :
      (i : ℕ) (bar : Candle) (b : Broker)
      → Safe (P i) b
      → Safe (P i) (liquidate math b (some (i, bar)))
  unfolding liquidate
  liquidate-Safe i bar b h =
      if_rule (Safe (P i)) b.has_position _ _
        (λ e. closed-Safe (s.stable i bar) b bar.c end_of_test [] e h) (λ _. h)

  ended-Safe :
      (final : Bool) (i : ℕ) (bar : Candle) (b : Broker)
      → Safe (P i) b
      → Safe (P i) (if final then liquidate math b (some (i, bar)) else b)
  ended-Safe true i bar b h = liquidate-Safe i bar b h
  ended-Safe false i bar b h = h

  module _ (entries : List ScheduledEntry) (orders : List Order) (final : Bool) where
    run_from-Safe :
        (b : Broker) (i : ℕ) (last : Candle) (bars : List Candle)
        → Safe (P i) b
        → Safe
            (P (i + length bars))
            (run_scheduled_from math entries orders final b (i + 1) (some (i, last)) bars)
    unfolding run_scheduled_from
    run_from-Safe b i last [] h = at-Safe _ (omega arith) (ended-Safe final i last b h)
    run_from-Safe b i last (bar ∷ bars) h =
        let b' = scheduled_bar math b (i + 1) bar (captured_at entries orders (i + 1)) in
        let h' =
          scheduled_bar-Safe (s.stable (i + 1) bar) b (captured_at entries orders (i + 1))
            (at-Safe b (omega arith) (next-Safe i b h)) in
        let rest = run_from-Safe b' (i + 1) bar bars h' in
        if_rule (Safe (P (i + length (bar ∷ bars)))) (is_past b.window (i + 1)) _ _
          (λ _. later-Safe (length (bar ∷ bars)) i _ (ended-Safe final i last b h))
          (λ _. at-Safe _ (omega arith) rest)

    run_none-Safe :
        (b : Broker) → Safe (P 0) b → Safe (P 0) (if final then liquidate math b none else b)
    unfolding liquidate
    run_none-Safe b h = if_rule (Safe (P 0)) final _ _ (λ _. h) (λ _. h)

    -- A predicate that lasts holds at the end of a run.
    pub run_scheduled-Safe :
        (b : Broker) (bars : List Candle)
        → Safe (P 0) b
        → Safe (P (length bars - 1)) (run_scheduled math entries orders final b bars)
    unfolding run_scheduled run_scheduled_from liquidate
    run_scheduled-Safe b [] h = run_none-Safe b h
    run_scheduled-Safe b (bar ∷ bars) h =
        let b' = scheduled_bar math b 0 bar (captured_at entries orders 0) in
        let h' = scheduled_bar-Safe (s.stable 0 bar) b (captured_at entries orders 0) h in
        if_rule (Safe (P (length (bar ∷ bars) - 1))) (is_past b.window 0) _ _
          (λ _. at-Safe _ (omega arith) (later-Safe (length bars) 0 _ (run_none-Safe b h)))
          (λ _. at-Safe _ (omega arith) (run_from-Safe b' 0 bar bars h'))

module _ (math : Arithmetic) (entries : List ScheduledEntry) (orders : List Order) where
  liquidate-flat :
      (b : Broker) (last : ℕ × Candle) → (liquidate math b (some last)).has_position ≡ false
  unfolding liquidate close_position
  liquidate-flat b (i, bar) =
      if_rule (λ (b' : Broker). b'.has_position ≡ false) b.has_position _ _ (λ _. refl) (λ e. e)

  run_from-flat :
      (b : Broker) (i : ℕ) (last : ℕ × Candle) (bars : List Candle)
      → (run_scheduled_from math entries orders true b i (some last) bars).has_position ≡ false
  unfolding run_scheduled_from
  run_from-flat b i last [] = liquidate-flat b last
  run_from-flat b i last (bar ∷ bars) =
      if_rule (λ (b' : Broker). b'.has_position ≡ false) (is_past b.window i) _ _
        (λ _. liquidate-flat b last)
        (λ _.
          run_from-flat (scheduled_bar math b i bar (captured_at entries orders i)) (i + 1) (i, bar)
            bars)

  -- A run over captured orders that liquidates at its end, from a broker without a position, ends
  -- without a position.
  pub run_scheduled-flat :
      (b : Broker) (bars : List Candle)
      → b.has_position ≡ false
      → (run_scheduled math entries orders true b bars).has_position ≡ false
  unfolding run_scheduled run_scheduled_from liquidate
  run_scheduled-flat b [] h = h
  run_scheduled-flat b (bar ∷ bars) h =
      if_rule (λ (b' : Broker). b'.has_position ≡ false) (is_past b.window 0) _ _ (λ _. h)
        (λ _.
          run_from-flat (scheduled_bar math b 0 bar (captured_at entries orders 0)) (0 + 1) (0, bar)
            bars)

any-Lasting : (math : Arithmetic) → Lasting math (λ i b. Unit)
any-Lasting math = record {
  stable = λ i bar. record {
    keeps = λ b ps es ls h. tt;
    opens = λ b side price ord e h. tt;
    closes = λ b price reason rule e h. tt;
  };
  weaken = λ i b h. tt;
}

-- A run over captured orders from at most one position or order leaves at most one position or
-- order.
pub run_scheduled-exposure :
    (math : Arithmetic) (entries : List ScheduledEntry) (orders : List Order) (final : Bool)
    (b : Broker) (bars : List Candle)
    → exposure b ≤ 1
    → exposure (run_scheduled math entries orders final b bars) ≤ 1
run_scheduled-exposure math entries orders final b bars h =
    (run_scheduled-Safe (any-Lasting math) entries orders final b bars (h, tt)).0
