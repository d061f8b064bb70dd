-- ===== src/Seqcore/Run/Total.antt =====
-- Engine.Run over whole streams: it never panics, and its events are numbered without a hole.
use native.Mathlib.Nat.{add-zero}
use heisentick_strat.Prelude.{
  ℕ, All, Ensures, IsWord, List, [], arith, false, int, length, length-append, length-snoc, neg,
  none, some, suc, ◌++◌, ◌+◌, ◌∙◌, ◌∷◌, ◌≡◌, ap, sym, Option,
}
use heisentick_strat.Seqcore.Invariant.Stream.{Advanced, EngineValid, StepDone, step-StepDone}
use heisentick_strat.Seqcore.Types.{Bar, Config, Event, Identity, Snapshot, Trace}
use heisentick_strat.Seqcore.Engine.{Engine, err, new, ok}
use heisentick_strat.Seqcore.Events.{Numbered}
use heisentick_strat.Seqcore.Step.{
  Outcome, add_bar, run_engine, run_from, step, empty_trace, RunResult, after_step,
}
use heisentick_strat.Seqcore.Invariant.Start.{new-EngineValid, new-step_positive}

abbrev pub AreWords : List Bar → Type 0
AreWords = All (λ b. IsWord b.open_ms)

Numbered-append :
    (start mid : ℕ) (es fs : List Event)
    → mid ≡ start + length es
    → Numbered start es
    → Numbered mid fs
    → Numbered start (es ++ fs)
Numbered-append start mid [] fs e n m = rw (← eq_of_zero start mid e) m
  where
    eq_of_zero : (a b : ℕ) → b ≡ a + 0 → b ≡ a
    eq_of_zero a b h = omega arith
Numbered-append start mid (e ∷ es) fs eq n m =
    (n.0, Numbered-append (suc start) mid es fs (omega arith) n.1 m)

-- What holds of an engine and its trace, `start` and `first` being the last event number and the
-- last bar index before the run.
pub record TraceValid (start first : ℕ) (e : Engine) (t : Trace) : Type 0 where
  pub valid : EngineValid e
  pub numbered : Numbered start t.events
  pub seq : e.last_event_seq ≡ start + length t.events
  pub index : e.last_index ≡ first + length t.snapshots

add_bar-TraceValid :
    (start first : ℕ) (e e' : Engine) (b : Bar) (t : Trace) (snapshot : Snapshot)
    (events : List Event)
    → TraceValid start first e t
    → Advanced e b (e', snapshot, events)
    → TraceValid start first e' (add_bar t (snapshot, events))
add_bar-TraceValid start first e e' b t snapshot events v a = record {
  valid = a.valid;
  numbered = Numbered-append start e.last_event_seq t.events events v.seq v.numbered a.numbered;
  seq = omega (arith, a.seq, v.seq, length-append {0} t.events events);
  index = omega (arith, a.index, v.index, length-snoc {0} t.snapshots snapshot);
}

after_step-TraceValid :
    (start first : ℕ) (e : Engine) (t : Trace) (b : Bar)
    (continue : Engine → Trace → Option RunResult) (m : Outcome)
    → TraceValid start first e t
    → Ensures (StepDone e b) m
    → ((e' : Engine) (t' : Trace)
        → TraceValid start first e' t'
        → Ensures (λ r. TraceValid start first r.engine r.trace) (continue e' t'))
    → Ensures (λ r. TraceValid start first r.engine r.trace) (after_step t continue m)
after_step-TraceValid start first e t b continue none v h k = h
after_step-TraceValid start first e t b continue (some (e', err error)) v h k = record {
  valid = h.0;
  numbered = v.numbered;
  seq = h.1 ∙ v.seq;
  index = h.2 ∙ v.index;
}
after_step-TraceValid start first e t b continue (some (e', ok (snapshot, events))) v h k =
    k e' (add_bar t (snapshot, events))
      (add_bar-TraceValid start first e e' b t snapshot events v h)

run_from-TraceValid :
    (start first : ℕ) (e : Engine) (t : Trace) (bs : List Bar)
    → AreWords bs
    → TraceValid start first e t
    → Ensures (λ r. TraceValid start first r.engine r.trace) (run_from e t bs)
unfolding run_from
run_from-TraceValid start first e t [] ws v = v
run_from-TraceValid start first e t (b ∷ bs) ws v =
    after_step-TraceValid start first e t b (λ e' t'. run_from e' t' bs) (step e b false) v
      (step-StepDone e b false v.valid ws.0) λ e' t'. run_from-TraceValid start first e' t' bs ws.1

-- Run on a new engine returns for every list of bars with int64 open times and an int64 timeframe:
-- it does not panic, and leaves an engine in the invariant, with events numbered from 1 without a
-- hole, the last sequence number being their count and the bar index counting the snapshots.
pub run_engine-TraceValid :
    (config : Config) (identity : Identity) (bars : List Bar) {e : Engine}
    → IsWord identity.timeframe_ms
    → AreWords bars
    → new config identity ≡ ok e
    → Ensures (λ r. TraceValid (int 0) (neg 1) r.engine r.trace) (run_engine e bars)
unfolding run_engine
run_engine-TraceValid config identity bars {e} word ws made =
    let fresh = (new-step_positive config identity made).1 in
    run_from-TraceValid (int 0) (neg 1) e empty_trace bars ws (record {
      valid = new-EngineValid config identity word made;
      numbered = tt;
      seq = ap (λ x. x.last_event_seq) fresh ∙ sym (add-zero (int 0));
      index = ap (λ x. x.last_index) fresh ∙ sym (add-zero (neg 1));
    })
