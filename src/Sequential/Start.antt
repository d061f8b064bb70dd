-- ===== src/Sequential/Start.antt =====
-- engine/sequential_execution.go: what holds of a scheduler before its first bar, and the length of
-- its ATR.
use heisentick_strat.Prelude.{
  ℕ, List, Option, IsWord, false, Float, [], ap, arith, length, none, refl, some, suc, ◌+◌, ◌∷◌,
  ◌≡◌, Int64, Text, if_rule, inl, inr, not, text_eq, ◌||◌, ◌⊎◌, is_some,
}
use heisentick_strat.Broker.Types.{Arithmetic, Candle, Costs, zero_float, Collector}
use heisentick_strat.Broker.Ledger.{new_collector}
use heisentick_strat.Broker.Agreement.{AccountsAgree}
use heisentick_strat.Broker.Execution.{reset_broker}
use heisentick_strat.Seqcore.Engine.{Engine, Result, ok, new}
use heisentick_strat.Seqcore.Invariant.Stream.{EngineValid}
use heisentick_strat.Seqcore.Types.{profile_id, default_config}
use heisentick_strat.Seqcore.Engine.{err, ok, Result}
use heisentick_strat.Closures.{timeframe_step}
use heisentick_strat.Seqcore.Invariant.Start.{new-EngineValid}
use heisentick_strat.Seqcore.Types.{default_identity}
use heisentick_strat.Sequential.Types.{Scheduler, Spec}
use heisentick_strat.Sequential.Atr.{compute_atr, atr_from}
use heisentick_strat.Sequential.Scheduler.{is_e1, is_e2}
use heisentick_strat.Sequential.Validity.{Valid}
use heisentick_strat.Sequential.Run.{
  captured, initial, StartError, atr_fault, identity_for, with_atr, with_core, with_timeframe,
}

module _ (math : Arithmetic) where
  length-atr_from :
      (len i : ℕ) (last : Option Candle) (sum : Float) (trs : List Float) (bars : List Candle)
      → length (atr_from math len i last sum trs bars) ≡ length bars
  unfolding atr_from
  length-atr_from len i last sum trs [] = refl
  length-atr_from len i last sum trs (bar ∷ bars) =
      ap suc (length-atr_from len (i + 1) (some bar) _ _ bars)

  pub length-compute_atr :
      (bars : List Candle) (len : ℕ) → length (compute_atr math bars len) ≡ length bars
  unfolding compute_atr
  length-compute_atr bars len = length-atr_from _ 0 none zero_float [] bars

  -- A run starts without a collector, or with a new one.
  abbrev pub capture_of : Option Float → Option Collector
  capture_of none = none
  capture_of (some start) = some (new_collector start)

  start-Agrees :
      (costs : Costs) (start : Option Float)
      → AccountsAgree 0 (reset_broker math costs) (capture_of start)
  unfolding reset_broker
  start-Agrees costs none = tt
  start-Agrees costs (some x) = (refl, tt, refl, refl, refl, refl)

  initial-Valid :
      (spec : Spec) (costs : Costs) (core : Engine) (start : Option Float)
      → EngineValid core
      → Valid
          (is_some (capture_of start))
          0
          0
          (captured math (initial spec core (reset_broker math costs)) (capture_of start))
  unfolding reset_broker
  initial-Valid spec costs core start v = record {
    engine = v;
    held = (start-Agrees costs start, (tt, tt), refl);
    positive = ground arith;
    awaited = λ k o e p. absurd (ground arith);
    free = λ e. refl;
    below = λ k e. absurd (ground arith);
  }

  -- The timeframes are positive words.
  pub timeframe-IsWord : (t : Text) (step : Int64) → timeframe_step t ≡ some step → IsWord step
  unfolding timeframe_step
  timeframe-IsWord t step h = ground arith

  abbrev pub StartValid : Option Float → Scheduler ⊎ StartError → Type 0
  StartValid start (inr e) = Unit
  StartValid start (inl s) =
      Valid (is_some (capture_of start)) 0 0 (captured math s (capture_of start))
      × (s.broker.has_position ≡ false)

  reset_flat : (costs : Costs) → (reset_broker math costs).has_position ≡ false
  unfolding reset_broker
  reset_flat costs = refl

  with_core-StartValid :
      (spec : Spec) (costs : Costs) (atr : List Float) (start : Option Float) (r : Result Engine)
      → ((e : Engine) → r ≡ ok e → EngineValid e)
      → StartValid start (with_core spec (reset_broker math costs) atr r)
  with_core-StartValid spec costs atr start (err e) h = tt
  with_core-StartValid spec costs atr start (ok core) h =
      with_atr-StartValid (atr_fault 0 atr) (h core refl)
    where
      with_atr-StartValid :
          (fault : Option ℕ)
          → EngineValid core
          → StartValid start (with_atr fault (initial spec core (reset_broker math costs)))
      with_atr-StartValid none v = (initial-Valid spec costs core start v, reset_flat costs)
      with_atr-StartValid (some i) v = tt

  pub with_timeframe-StartValid :
      (spec : Spec) (costs : Costs) (atr : List Float) (start : Option Float) (step : Option Int64)
      → ((x : Int64) → step ≡ some x → IsWord x)
      → StartValid start (with_timeframe math spec costs atr step)
  unfolding default_identity
  with_timeframe-StartValid spec costs atr start none h = tt
  with_timeframe-StartValid spec costs atr start (some x) h =
      if_rule (StartValid start)
        (not (text_eq spec.profile profile_id) || not (is_e1 spec || is_e2 spec)) _ _ (λ _. tt)
        (λ _.
          with_core-StartValid spec costs atr start (new default_config (identity_for spec x))
            (λ e q. new-EngineValid default_config (identity_for spec x) (h x refl) q))
