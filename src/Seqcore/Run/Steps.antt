-- ===== src/Seqcore/Run/Steps.antt =====
-- Engine.Run as a sequence of accepted steps, up to the first error.
use heisentick_strat.Prelude.{
  Ensures, List, Option, [], false, none, refl, some, ◌++◌, ◌∷◌, ◌≡◌, Ensures-mono, ap,
}
use heisentick_strat.Seqcore.Types.{Bar, Event, Snapshot, Trace}
use heisentick_strat.Seqcore.Engine.{CoreError, Engine, err, ok}
use heisentick_strat.Seqcore.Step.{
  Outcome, RunResult, add_bar, after_step, empty_trace, run_engine, run_from, step,
}
use heisentick_strat.Seqcore.Invariant.Stream.{EngineValid, StepDone, step-StepDone}
use heisentick_strat.Seqcore.Run.Total.{AreWords}

-- Steps that accept every bar, with the trace that they extend.
pub data Accepts : Engine → Trace → List Bar → Engine → Trace → Type 0 where
  done : {e : Engine} {t : Trace} → Accepts e t [] e t
  more :
      {e e' e'' : Engine} {t t'' : Trace} {b : Bar} {bars : List Bar} {snapshot : Snapshot}
      {events : List Event}
      → step e b false ≡ some (e', ok (snapshot, events))
      → Accepts e'
          (record { events = t.events ++ events; snapshots = t.snapshots ++ snapshot ∷ [] })
          bars
          e''
          t''
      → Accepts e t (b ∷ bars) e'' t''

-- A run without an error has accepted all its bars; another one stands where the next bar failed.
abbrev pub Stops : Engine → List Bar → RunResult → Type 0
Stops last [] r = (r.error ≡ none) × (r.engine ≡ last)
Stops last (b ∷ bars) r =
    (error : CoreError) × (r.error ≡ some error) × (step last b false ≡ some (r.engine, err error))

pub record Ran (e : Engine) (t : Trace) (bars : List Bar) (r : RunResult) : Type 0 where
  pub accepted : List Bar
  pub rest : List Bar
  pub last : Engine
  pub split : bars ≡ accepted ++ rest
  pub steps : Accepts e t accepted last r.trace
  pub stops : Stops last rest r

after_step-Ran :
    (e : Engine) (t : Trace) (b : Bar) (bars : List Bar)
    (continue : Engine → Trace → Option RunResult) (m : Outcome)
    → step e b false ≡ m
    → Ensures (StepDone e b) m
    → ((e' : Engine) (t' : Trace) → EngineValid e' → Ensures (Ran e' t' bars) (continue e' t'))
    → Ensures (Ran e t (b ∷ bars)) (after_step t continue m)
after_step-Ran e t b bars continue none q h k = h
after_step-Ran e t b bars continue (some (e', err error)) q h k = record {
  accepted = [];
  rest = b ∷ bars;
  last = e;
  split = refl;
  steps = done;
  stops = (error, refl, q);
}
after_step-Ran e t b bars continue (some (e', ok (snapshot, events))) q h k =
    Ensures-mono (Ran e' (add_bar t (snapshot, events)) bars) (Ran e t (b ∷ bars))
      (continue e' (add_bar t (snapshot, events))) (k e' (add_bar t (snapshot, events)) h.valid)
      (λ r ran. record {
        accepted = b ∷ ran.accepted;
        rest = ran.rest;
        last = ran.last;
        split = ap (λ bs. b ∷ bs) ran.split;
        steps = more q ran.steps;
        stops = ran.stops;
      })

run_from-Ran :
    (e : Engine) (t : Trace) (bars : List Bar)
    → AreWords bars
    → EngineValid e
    → Ensures (Ran e t bars) (run_from e t bars)
unfolding run_from
run_from-Ran e t [] ws v = record {
  accepted = [];
  rest = [];
  last = e;
  split = refl;
  steps = done;
  stops = (refl, refl);
}
run_from-Ran e t (b ∷ bars) ws v =
    after_step-Ran e t b bars (λ e' t'. run_from e' t' bars) (step e b false) refl
      (step-StepDone e b false v ws.0) (λ e' t' v'. run_from-Ran e' t' bars ws.1 v')

-- From an engine in the invariant and over bars with int64 open times, Run returns, and its bars
-- are those that successive calls of Step accepted, whose snapshots and events in order are the
-- trace, followed by none, without an error and with the last engine, or by a bar that Step answers
-- with the error and the engine of the run.
pub run_engine-Ran :
    (e : Engine) (bars : List Bar)
    → AreWords bars
    → EngineValid e
    → Ensures (Ran e empty_trace bars) (run_engine e bars)
unfolding run_engine
run_engine-Ran e bars ws v = run_from-Ran e empty_trace bars ws v
