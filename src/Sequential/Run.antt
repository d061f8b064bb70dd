-- ===== src/Sequential/Run.antt =====
-- engine/sequential_execution.go: the start of a scheduler and its run over a series
-- (runSequentialFullWithCapture). The collector of a captured run is the accounting of the broker.
use heisentick_strat.Prelude.{
  ℕ, Bool, Float, List, Option, [], bytes, false, float_lt, if◌then◌else◌, inl, inr, is_finite,
  length, none, not, some, text_eq, ◌+◌, ◌-◌, ◌>>=◌, ◌||◌, ◌∷◌, ◌⊎◌, Int64,
}
use heisentick_strat.Broker.Types.{Arithmetic, Broker, Candle, Collector, Costs, zero_float}
use heisentick_strat.Broker.Ledger.{mark}
use heisentick_strat.Broker.Execution.{reset_broker}
use heisentick_strat.Broker.Scheduled.{lookup_meta}
use heisentick_strat.Closures.{timeframe_step}
use heisentick_strat.Seqcore.Types.{default_config, default_identity, profile_id}
use heisentick_strat.Seqcore.Engine.{CoreError, Result, ok, err, new, Engine}
use heisentick_strat.Seqcore.Types.{default_config, default_identity, profile_id, Identity}
use heisentick_strat.Seqcore.Engine.{new}
use heisentick_strat.Broker.Execution.{reset_broker}
use heisentick_strat.Closures.{timeframe_step}
use heisentick_strat.Sequential.Types.{
  Scheduler, Spec, ExecutionError, atr14, held_position, invalid_sequential_input, no_next_bar,
  profile_policy_or_timeframe, unsupported_incomplete_terminal_run,
}
use heisentick_strat.Sequential.Scheduler.{Progress, is_e1, is_e2, scheduler_step, text_value}
use heisentick_strat.Sequential.Atr.{compute_atr}
use heisentick_strat.Sequential.Fill.{derived_error, reject}

-- Why a scheduler was not made.
pub data StartError : Type 0 where
  execution_error : ExecutionError → StartError
  core_error : CoreError → StartError

abbrev pub initial : Spec → Engine → Broker → Scheduler
initial spec core broker = record {
  spec = spec;
  broker = broker;
  core = core;
  setups = [];
  seen = [];
  opportunities = [];
  pending = none;
  hold = if is_e2 spec then 12 else 4;
}

-- The first ATR that is not finite or is negative.
unfoldable pub atr_fault : ℕ → List Float → Option ℕ
atr_fault i [] = none
atr_fault i (x ∷ xs) =
    let rest = atr_fault (i + 1) xs in
    if not (is_finite x) || float_lt x zero_float then some i else rest

abbrev pub with_atr : Option ℕ → Scheduler → Scheduler ⊎ StartError
with_atr none s = inl s
with_atr (some i) s = inr (execution_error (derived_error atr14 i []))

abbrev pub with_core : Spec → Broker → List Float → Result Engine → Scheduler ⊎ StartError
with_core spec broker atr (err e) = inr (core_error e)
with_core spec broker atr (ok core) = with_atr (atr_fault 0 atr) (initial spec core broker)

abbrev pub bad_spec : StartError
bad_spec = execution_error (record {
  kind = invalid_sequential_input;
  field = profile_policy_or_timeframe;
  bar_index = none;
  opportunity_id = [];
})

abbrev pub identity_for : Spec → Int64 → Identity
identity_for spec timeframe_ms =
    default_identity (record { symbol = spec.symbol; timeframe = spec.timeframe; data_hash = none })
      (bytes "sequential-full-execution.v1") timeframe_ms

module _ (math : Arithmetic) where
  abbrev pub with_timeframe : Spec → Costs → List Float → Option Int64 → Scheduler ⊎ StartError
  with_timeframe spec costs atr none = inr bad_spec
  with_timeframe spec costs atr (some timeframe_ms) =
      if not (text_eq spec.profile profile_id) || not (is_e1 spec || is_e2 spec)
      then inr bad_spec
      else with_core spec (reset_broker math costs) atr
          (new default_config (identity_for spec timeframe_ms))

  -- newSequentialFullScheduler, with the ATR of the series.
  unfoldable pub new_scheduler : Spec → Costs → List Float → Scheduler ⊎ StartError
  new_scheduler spec costs atr = with_timeframe spec costs atr (timeframe_step spec.timeframe)

  abbrev pub marked : Broker → ℕ → Candle → Option Collector → Broker
  marked b i bar none = b
  marked b i bar (some c) = record b { accounting = some (mark math c b i bar) }

  -- A step, and the mark of a captured run.
  abbrev pub mark_step : ℕ → Candle → Scheduler → Scheduler
  mark_step i bar s = record s { broker = marked s.broker i bar s.broker.accounting }

  abbrev pub next_bar :
      ℕ → Candle → (Scheduler → Progress) → Scheduler × Option ExecutionError → Progress
  next_bar i bar continue (s, some e) = some (s, some e)
  next_bar i bar continue (s, none) = continue (mark_step i bar s)

  -- The loop over the series from bar i. An ATR is missing only where the series is longer.
  unfoldable pub run_steps : Scheduler → ℕ → List Candle → List Float → List Candle → Progress
  run_steps s i past atrs [] = some (s, none)
  run_steps s i past [] (bar ∷ bars) = none
  run_steps s i past (atr ∷ atrs) (bar ∷ bars) =
      scheduler_step math s i (record { past = bar ∷ past; atr = atr }) bar false
      >>= next_bar i bar (λ s'. run_steps s' (i + 1) (bar ∷ past) atrs bars)

  abbrev pub refuse_waiting : Scheduler → Option ℕ → Option Scheduler
  refuse_waiting s none = some s
  refuse_waiting s (some index) =
      reject s index no_next_bar >>= λ s'. some (record s' { pending = none })

  -- The pending opportunity of a finalized run has no next bar.
  unfoldable pub refuse_pending : Scheduler → Option Scheduler
  refuse_pending s = refuse_waiting s s.pending

  abbrev pub held_error : ℕ → Broker → ExecutionError
  held_error bars b = record {
    kind = unsupported_incomplete_terminal_run;
    field = held_position;
    bar_index = some (bars - 1);
    opportunity_id = text_value (lookup_meta (bytes "opportunityId") b.position.meta);
  }

  unfoldable pub finalized : ℕ → Scheduler → Progress
  finalized bars s = refuse_pending s >>= λ s'.
      some (s', if s'.broker.has_position then some (held_error bars s'.broker) else none)

  abbrev pub finish_run : Bool → ℕ → Scheduler × Option ExecutionError → Progress
  finish_run finalize bars (s, some e) = some (s, some e)
  finish_run finalize bars (s, none) = if finalize then finalized bars s else some (s, none)

  abbrev pub captured : Scheduler → Option Collector → Scheduler
  captured s capture = record s { broker = record (s.broker) { accounting = capture } }

  abbrev pub run_started :
      List Candle
      → List Float
      → Bool
      → Option Collector
      → Scheduler ⊎ StartError
      → Option ((Scheduler × Option ExecutionError) ⊎ StartError)
  run_started bars atr finalize capture (inr e) = some (inr e)
  run_started bars atr finalize capture (inl s) =
      run_steps (captured s capture) 0 [] atr bars >>= finish_run finalize (length bars) >>= λ r.
      some (inl r)

  -- runSequentialFullWithCapture; none is a panic.
  unfoldable pub run_sequential :
      Spec
      → Costs
      → List Candle
      → Bool
      → Option Collector
      → Option ((Scheduler × Option ExecutionError) ⊎ StartError)
  run_sequential spec costs bars finalize capture =
      let atr = compute_atr math bars 14 in
      run_started bars atr finalize capture (new_scheduler spec costs atr)
