-- ===== src/Seqcore/Gap.antt =====
-- Holes in the stream: an undeclared one resets, a declared closure is passed over.
use heisentick_strat.Prelude.{
  Int64, false, some, true, ◌≡◌, Ensures, List, Text, [], arith, int, none, Ensures-bind, ◌∷◌, refl,
  ◌⊎◌, Option, ◌<◌, ◌>>=◌, ◌∙◌, ap, sym,
}
use heisentick_strat.Seqcore.Types.{Bar, Identity, Side, buy, sell, Event, Snapshot}
use heisentick_strat.Seqcore.Engine.{
  Result, err, input_error, ok, order_error, Engine, has_hole, BarContext, Log, SideState,
  unfinished,
}
use heisentick_strat.Prelude.{add64}
use heisentick_strat.Seqcore.Refusals.{step-accepted, step-refused, step-stopped, step_cases}
use heisentick_strat.Seqcore.Step.{
  step, stepped, advance, open_bar, Opened, run_phases, context_of, open_gap,
}
use heisentick_strat.Seqcore.Invariant.Countdown.{CountdownValid}
use heisentick_strat.Seqcore.Phases.{
  cancel_phase, count_phase, countdown_phase, gap_side, next_run, perfect_late, qualifies,
  recycle_phase, setup_phase, with_run, compare_close, emit_diagnostics,
}
use heisentick_strat.Seqcore.Invariant.Stream.{EngineValid, LastFits}

advance_adjacent :
    (e : Engine) (b : Bar) (last : Int64)
    → has_hole (record e { last_open = some last }) b ≡ false
    → advance e b true ≡ advance (record e { last_open = some last }) b false
unfolding advance open_bar
advance_adjacent e b last h = rw h

-- A bar after a hole opens after the last one.
hole_ordered : (e : Engine) (b : Bar) → EngineValid e → has_hole e b ≡ true → order_error e b ≡ none
unfolding has_hole order_error add64
hole_ordered e b v h = by_last e.last_open refl v.last_fits
  where
    by_last :
        (last : Option Int64)
        → e.last_open ≡ last
        → LastFits e.identity.timeframe_ms last
        → order_error e b ≡ none
    by_last none q f = rw (q, order_error) refl
    by_last (some last) q f = let p = v.step_positive in ground arith

input_adjacent :
    (e : Engine) (b : Bar) (last : Int64)
    → has_hole e b ≡ true
    → input_error (record e { last_open = some last }) b false ≡ input_error e b true
unfolding input_error
input_adjacent e b last h = rw h refl

later_ordered :
    (e : Engine) (b : Bar) (last : Int64)
    → last < b.open_ms
    → order_error (record e { last_open = some last }) b ≡ none
unfolding order_error
later_ordered e b last h = ground arith

-- A refused bar leaves the last open as it was.
abbrev pub keep_last :
    Option Int64 → Engine × Result (Snapshot × List Event) → Engine × Result (Snapshot × List Event)
keep_last last (e, ok r) = (e, ok r)
keep_last last (e, err error) = (record e { last_open = last }, err error)

keep_last-stepped :
    (last : Option Int64) (m : Option (Engine × Snapshot × List Event))
    → stepped m ≡ (stepped m >>= λ r. some (keep_last last r))
keep_last-stepped last none = refl
keep_last-stepped last (some (e, snapshot, events)) = refl

-- For an engine in the invariant and a bar after a hole, StepAfterClosure gives what Step gives for
-- the same engine with its last open at any time before the bar from which the bar leaves no hole:
-- the same engine, snapshot and events, or the same error, with the last open then as it was.
pub closure_as_adjacent :
    (e : Engine) (b : Bar) (last : Int64)
    → EngineValid e
    → has_hole e b ≡ true
    → last < b.open_ms
    → has_hole (record e { last_open = some last }) b ≡ false
    → step e b true
      ≡ (step (record e { last_open = some last }) b false >>= λ r. some (keep_last e.last_open r))
closure_as_adjacent e b last v hole later adjacent =
    let o = hole_ordered e b v hole in
    let adj = record e { last_open = some last } in
    step_cases (λ m. step e b true ≡ (m >>= λ r. some (keep_last e.last_open r))) adj b false
      (λ stop t. step-stopped e b true stop t)
      (λ stop t d. absurd (let q = later_ordered e b last later in ground arith))
      (λ reason t d i. step-refused e b true reason t o (sym (input_adjacent e b last hole) ∙ i))
      (λ t d i.
        step-accepted e b true t o (sym (input_adjacent e b last hole) ∙ i)
        ∙ ap stepped (advance_adjacent e b last adjacent)
        ∙ keep_last-stepped e.last_open (advance adj b false))

gap_side_cleared :
    (s : SideState) (dropped : List Text)
    → CountdownValid s
    → Ensures
        (λ r.
          (r.0.last_completed_setup ≡ none)
          × (unfinished r.0.countdown ≡ false)
          × ((unfinished s.countdown ≡ true) ⊎ (r.0.countdown ≡ s.countdown)))
        (gap_side s dropped)
unfolding gap_side
gap_side_cleared s dropped v = ground arith

-- With no history and no Setup, P1 only clears the run.
setup_phase_cold :
    (x : BarContext) (id : Identity) (b : Bar) (previous : Int64) (side : Side) (s : SideState)
    (log : Log)
    → s.last_completed_setup ≡ none
    → setup_phase x id [] b (int 0) previous side s log ≡ some (with_run s (int 0), log, false)
unfolding setup_phase next_run perfect_late with_run
setup_phase_cold x id b previous buy s log h = ground arith
setup_phase_cold x id b previous sell s log h = ground arith

countdown_phase_cold :
    (x : BarContext) (b : Bar) (side : Side) (s : SideState) (log : Log)
    → unfinished s.countdown ≡ false
    → countdown_phase x [] b side (with_run s (int 0)) log ≡ some (with_run s (int 0), log)
unfolding countdown_phase count_phase qualifies recycle_phase with_run
countdown_phase_cold x b side s log h = ground arith

run_phases_cold :
    (x : BarContext) (id : Identity) (b : Bar) (o : Opened)
    → o.history ≡ []
    → o.buy_side.last_completed_setup ≡ none
    → o.sell_side.last_completed_setup ≡ none
    → unfinished o.buy_side.countdown ≡ false
    → unfinished o.sell_side.countdown ≡ false
    → run_phases x id b (int 0) o
      ≡ some (with_run o.buy_side (int 0), with_run o.sell_side (int 0), o.log)
unfolding run_phases cancel_phase
run_phases_cold x id b o h lb ls ub us =
    rw (h, run_phases)
      (rw (setup_phase_cold x id b o.previous_comparison buy o.buy_side o.log lb, run_phases)
        (rw (setup_phase_cold x id b o.previous_comparison sell o.sell_side o.log ls, run_phases)
          (rw (countdown_phase_cold x b buy o.buy_side o.log ub)
            (rw (countdown_phase_cold x b sell o.sell_side o.log us)))))

-- What is left of the engine after an undeclared hole.
pub record Reset (e : Engine) (b : Bar) (r : Engine × Snapshot × List Event) : Type 0 where
  pub history : r.0.history ≡ b ∷ []
  pub comparison : r.0.previous_comparison ≡ int 0
  pub buy_run : r.0.buy_side.setup_run ≡ int 0
  pub sell_run : r.0.sell_side.setup_run ≡ int 0
  pub buy_setup : r.0.buy_side.last_completed_setup ≡ none
  pub sell_setup : r.0.sell_side.last_completed_setup ≡ none
  pub buy_stopped : unfinished r.0.buy_side.countdown ≡ false
  pub sell_stopped : unfinished r.0.sell_side.countdown ≡ false
  pub buy_kept :
      (unfinished e.buy_side.countdown ≡ true) ⊎ (r.0.buy_side.countdown ≡ e.buy_side.countdown)
  pub sell_kept :
      (unfinished e.sell_side.countdown ≡ true) ⊎ (r.0.sell_side.countdown ≡ e.sell_side.countdown)

-- What the gap branch leaves of the engine.
record OpenedCold (e : Engine) (o : Opened) : Type 0 where
  history : o.history ≡ []
  buy_setup : o.buy_side.last_completed_setup ≡ none
  sell_setup : o.sell_side.last_completed_setup ≡ none
  buy_stopped : unfinished o.buy_side.countdown ≡ false
  sell_stopped : unfinished o.sell_side.countdown ≡ false
  buy_kept :
      (unfinished e.buy_side.countdown ≡ true) ⊎ (o.buy_side.countdown ≡ e.buy_side.countdown)
  sell_kept :
      (unfinished e.sell_side.countdown ≡ true) ⊎ (o.sell_side.countdown ≡ e.sell_side.countdown)

open_gap_cold :
    (x : BarContext) (e : Engine) (log : Log)
    → EngineValid e
    → Ensures (OpenedCold e) (open_gap x e log)
unfolding open_gap
open_gap_cold x e log v =
    Ensures-bind _ _ (gap_side e.buy_side []) _ (gap_side_cleared e.buy_side [] v.buy_countdown)
      λ r w.
        Ensures-bind _ _ (gap_side e.sell_side r.1) _
          (gap_side_cleared e.sell_side r.1 v.sell_countdown)
          λ q z. record {
            history = refl;
            buy_setup = w.0;
            sell_setup = z.0;
            buy_stopped = w.1;
            sell_stopped = z.1;
            buy_kept = w.2;
            sell_kept = z.2;
          }

-- For an engine in the invariant, a bar after an undeclared hole that is processed does not panic,
-- and leaves one bar of history, no comparison, no Setup, no unfinished Countdown, and keeps a
-- Countdown that was not running.
pub gap_resets :
    (e : Engine) (b : Bar)
    → EngineValid e
    → has_hole e b ≡ true
    → Ensures (Reset e b) (advance e b false)
unfolding advance open_bar compare_close with_run
gap_resets e b v hole =
    let x = context_of e b in
    rw (hole, open_bar)
      (Ensures-bind (OpenedCold e) _ (open_gap x e (record { seq = e.last_event_seq; events = [] }))
        _ (open_gap_cold x e _ v)
        λ o c.
          rw (c.history, compare_close)
            (rw
              (run_phases_cold x e.identity b
                (record o {
                  history = [];
                  log = emit_diagnostics x e.init_diagnostics_emitted o.log;
                })
                refl c.buy_setup c.sell_setup c.buy_stopped c.sell_stopped)
              (record {
                history = refl;
                comparison = refl;
                buy_run = refl;
                sell_run = refl;
                buy_setup = c.buy_setup;
                sell_setup = c.sell_setup;
                buy_stopped = c.buy_stopped;
                sell_stopped = c.sell_stopped;
                buy_kept = c.buy_kept;
                sell_kept = c.sell_kept;
              })))
