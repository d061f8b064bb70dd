-- ===== src/Sequential/Validity.antt =====
-- engine/sequential_execution.go: what holds of the scheduler between two bars, and that a step
-- keeps it.
use mathlib.Core.Path.{subst}
use heisentick_strat.Prelude.{
  ℕ, Option, Ensures, IsWord, Float, [], false, is_some, length, none, refl, some, suc, true, ◌<◌,
  ◌∷◌, ◌≡◌, Option-cases, arith, get_elem?, get_elem?-is_some, inl, inr, Bool, Ensures-bind,
  Ensures-mono, List, sym, Text,
}
use heisentick_strat.Broker.Exposure.{intrabar_cases}
use heisentick_strat.Seqcore.Engine.{err, ok, Result, Engine, Result}
use heisentick_strat.Seqcore.Step.{step}
use heisentick_strat.Broker.Types.{Arithmetic, Broker, Candle}
use heisentick_strat.Seqcore.Invariant.Stream.{EngineValid, StepDone, step-StepDone}
use heisentick_strat.Seqcore.Types.{Bar, Snapshot, Event}
use heisentick_strat.Broker.Execution.{resolve_intrabar_exit}
use heisentick_strat.Sequential.Types.{
  Scheduler, Opportunity, ExecutionError, stop_breached_at_entry, ErrorField,
}
use heisentick_strat.Sequential.Waiting.{Awaited, set_at-Awaited, released-Awaited}
use heisentick_strat.Sequential.Holding.{Held, held-Stable, exit_by_time_rule}
use heisentick_strat.Sequential.Fill.{
  Plan, carry_out, fault, fill, filled_at, filled_order, plan, rejected_as, wrong_side,
}
use heisentick_strat.Sequential.Scheduler.{
  exit_by_time, fill_waiting, View, accept_events, after_core, after_fill, core_bar, numbers_fault,
  scheduler_step, after_check,
}
use heisentick_strat.Sequential.Taking.{EventsDone, accept_events-EventsDone}
use heisentick_strat.Sequential.Run.{captured}

-- After bar i (n = i + 1), or before it (n = i).
pub record Valid (captured : Bool) (i n : ℕ) (s : Scheduler) : Type 0 where
  pub engine : EngineValid s.core
  pub held : Held captured s.hold i n s.broker
  pub positive : 0 < s.hold
  pub awaited : Awaited s.pending [] s.opportunities
  pub free : is_some s.pending ≡ true → s.broker.has_position ≡ false
  pub below : (k : ℕ) → s.pending ≡ some k → k < length s.opportunities

abbrev pub Stepped : Bool → ℕ → Scheduler × Option ExecutionError → Type 0
Stepped captured i (s, some e) = Unit
Stepped captured i (s, none) = Valid captured i (suc i) s

-- Between the fill and the count engine: nothing waits.
abbrev pub Filled : Bool → ℕ → Scheduler × Option ExecutionError → Type 0
Filled captured i (s, some e) = Unit
Filled captured i (s, none) =
    EngineValid s.core
    × Held captured s.hold i (suc i) s.broker
    × (0 < s.hold)
    × (s.pending ≡ none)
    × Awaited none [] s.opportunities

module _ (math : Arithmetic) (same : (x : Float) → math.identical x x ≡ true)
    (to_word : (x : Float) → IsWord (math.to_int64 x)) (captured : Bool) where
  carry_out-Filled :
      (s : Scheduler) (index : ℕ) (o : Opportunity) (i : ℕ) (bar : Candle) (p : Plan)
      → EngineValid s.core
      → Held captured s.hold i (suc i) s.broker
      → 0 < s.hold
      → s.pending ≡ none
      → s.broker.has_position ≡ false
      → Awaited none (index ∷ []) s.opportunities
      → Filled captured i (carry_out math s index o i bar p)
  unfolding carry_out
  carry_out-Filled s index o i bar (fault field) v h pos n f w = tt
  carry_out-Filled s index o i bar wrong_side v h pos n f w = (
    v,
    h,
    pos,
    n,
    set_at-Awaited none [] s.opportunities index (rejected_as stop_breached_at_entry o) w refl,
  )
  carry_out-Filled s index o i bar (plan b) v h pos n f w = (
    v,
    (held-Stable math same captured s.hold i bar pos).opens s.broker o.side b.fill
        (filled_order math s.spec o b) f h,
    pos,
    n,
    set_at-Awaited none [] s.opportunities index (filled_at math i b o) w refl,
  )

  fill-Filled :
      (s : Scheduler) (index i : ℕ) (bar : Candle)
      → EngineValid s.core
      → Held captured s.hold i (suc i) s.broker
      → 0 < s.hold
      → s.pending ≡ none
      → s.broker.has_position ≡ false
      → Awaited none (index ∷ []) s.opportunities
      → index < length s.opportunities
      → Ensures (Filled captured i) (fill math s index i bar)
  unfolding fill
  fill-Filled s index i bar v h pos n f w le =
      let e = get_elem?-is_some s.opportunities index le in
      elim (Option-cases (get_elem? s.opportunities index)) [
        | inl none_e ↦ absurd (ground arith)
        | inr (o, some_e) ↦ rw some_e (carry_out-Filled s index o i bar _ v h pos n f w)
      ]

  waiting-Filled :
      (i : ℕ) (bar : Candle) (s : Scheduler) (b : Broker) (waiting : Option ℕ)
      → Valid captured i i s
      → s.pending ≡ waiting
      → (s.broker.has_position ≡ false → b.has_position ≡ false)
      → Held captured s.hold i (suc i) b
      → Ensures
          (Filled captured i)
          (fill_waiting math (record s { broker = b; pending = waiting }) i bar)
  unfolding fill_waiting
  waiting-Filled i bar s b none v e f h =
      (v.engine, h, v.positive, refl, subst (λ x. Awaited x [] s.opportunities) e v.awaited)
  waiting-Filled i bar s b (some index) v e f h =
      fill-Filled (record s { broker = b; pending = none }) index i bar v.engine h v.positive refl
        (f (v.free (rw e refl)))
        (released-Awaited s.opportunities index
          (subst (λ x. Awaited x [] s.opportunities) e v.awaited))
        (v.below index e)

  pub fill_waiting-Filled :
      (i : ℕ) (bar : Candle) (s : Scheduler)
      → Valid captured i i s
      → Ensures (Filled captured i) (fill_waiting math (exit_by_time math s i bar) i bar)
  fill_waiting-Filled i bar s v =
      exit_by_time_rule math same captured s.hold
        (λ s'. Ensures (Filled captured i) (fill_waiting math s' i bar)) i bar s refl v.held
        (λ b f h. waiting-Filled i bar s b s.pending v refl f h)

  intrabar-Held :
      (hold i : ℕ) (bar : Candle) (b : Broker)
      → 0 < hold
      → Held captured hold i (suc i) b
      → Held captured hold i (suc i) (resolve_intrabar_exit math b i bar)
  intrabar-Held hold i bar b pos h =
      intrabar_cases math b i bar (Held captured hold i (suc i))
        (λ e price reason.
          (held-Stable math same captured hold i bar pos).closes b price reason [] e h)
        h

  accepted-Valid :
      (view : View) (i : ℕ) (s : Scheduler) (core : Engine) (r : Scheduler × Option ExecutionError)
      → EngineValid core
      → Held captured s.hold i (suc i) s.broker
      → 0 < s.hold
      → EventsDone math (record s { core = core }) i view r
      → Stepped captured i r
  accepted-Valid view i s core (s', some e) v h pos a = tt
  accepted-Valid view i s core (s', none) v h pos a = record {
    engine = subst EngineValid (sym a.core) v;
    held =
        subst (λ b. Held captured s'.hold i (suc i) b) (sym a.broker)
          (subst (λ k. Held captured k i (suc i) s.broker) (sym a.hold) h);
    positive = rw a.hold pos;
    awaited = a.awaited;
    free = a.free;
    below = a.below;
  }

  after_core-Stepped :
      (s : Scheduler) (i : ℕ) (v : View) (b : Bar) (r : Engine × Result (Snapshot × List Event))
      → StepDone s.core b r
      → Held captured s.hold i (suc i) s.broker
      → 0 < s.hold
      → s.pending ≡ none
      → Awaited none [] s.opportunities
      → Ensures (Stepped captured i) (after_core math s i v r)
  unfolding after_core
  after_core-Stepped s i v b (core, err e) d h pos n w = tt
  after_core-Stepped s i v b (core, ok (snapshot, events)) d h pos n w =
      Ensures-mono (EventsDone math (record s { core = core }) i v) (Stepped captured i)
        (accept_events math (record s { core = core }) i v [] events)
        (accept_events-EventsDone math (record s { core = core }) i v (record s { core = core }) []
          events
          (record { core = refl; broker = refl; hold = refl; idle = n; awaited = w; below = tt }))
        (λ r a. accepted-Valid v i s core r d.valid h pos a)

  after_check-Stepped :
      (i : ℕ) (v : View) (bar : Candle) (after_closure : Bool) (s : Scheduler)
      (check : Option (ErrorField × Text))
      → Filled captured i (s, none)
      → Ensures (Stepped captured i) (after_check math i v bar after_closure s check)
  after_check-Stepped i v bar after_closure s (some (field, id)) f = tt
  after_check-Stepped i v bar after_closure s none f =
      Ensures-bind (StepDone s.core (core_bar math bar)) (Stepped captured i)
        (step s.core (core_bar math bar) after_closure) (after_core math s i v)
        (step-StepDone s.core (core_bar math bar) after_closure f.0 (to_word bar.t))
        (λ r d. after_core-Stepped s i v (core_bar math bar) r d f.1 f.2 f.3 f.4)

  after_fill-Stepped :
      (i : ℕ) (v : View) (bar : Candle) (after_closure : Bool)
      (r : Scheduler × Option ExecutionError)
      → Filled captured i r
      → Ensures (Stepped captured i) (after_fill math i v bar after_closure r)
  unfolding after_fill
  after_fill-Stepped i v bar after_closure (s, some e) f = tt
  after_fill-Stepped i v bar after_closure (s, none) f =
      let s' = record s { broker = resolve_intrabar_exit math s.broker i bar } in
      after_check-Stepped i v bar after_closure s' (numbers_fault math s'.broker)
        (f.0, intrabar-Held s.hold i bar s.broker f.2 f.1, f.2, f.3, f.4)

  -- A step does not panic, and without an error keeps what holds between bars.
  pub scheduler_step-Stepped :
      (s : Scheduler) (i : ℕ) (v : View) (bar : Candle) (after_closure : Bool)
      → Valid captured i i s
      → Ensures (Stepped captured i) (scheduler_step math s i v bar after_closure)
  unfolding scheduler_step
  scheduler_step-Stepped s i v bar after_closure h =
      Ensures-bind (Filled captured i) (Stepped captured i) _
        (after_fill math i v bar after_closure) (fill_waiting-Filled i bar s h)
        (λ r f. after_fill-Stepped i v bar after_closure r f)
