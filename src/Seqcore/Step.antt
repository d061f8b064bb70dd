-- ===== src/Seqcore/Step.antt =====
-- engine/seqcore/core.go: Step, StepAfterClosure and Run, and window.go. The outer `none` is a
-- run-time panic; a refused bar gives the engine back with the error.
use heisentick_strat.Prelude.{
  Bool, true, false, not, ◌&&◌, Option, none, some, List, [], ◌∷◌, ◌++◌, Int64, int, add64, ltb,
  leb, ◌==◌, Text, bytes, text_eq, ◌||◌, if◌then◌else◌, length, ◌>>=◌,
}
use heisentick_strat.Seqcore.Types.{
  Config, Identity, Bar, buy, sell, Event, Snapshot, Trace, event_schema,
}
use heisentick_strat.Seqcore.Engine.{
  SideState, Engine, CoreError, bar_order, invalid_input, Result, ok, err, Log, BarContext,
  has_hole, order_error, input_error, new,
}
use heisentick_strat.Seqcore.Phases.{
  gap_side, emit_gap, emit_diagnostics, compare_close, setup_phase, cancel_phase, countdown_phase,
}

-- What the gap branch leaves to the phases after it.
pub record Opened : Type 0 where
  pub history : List Bar
  pub previous_comparison : Int64
  pub buy_side : SideState
  pub sell_side : SideState
  pub log : Log

-- P0 for an undeclared hole.
unfoldable pub open_gap : BarContext → Engine → Log → Option Opened
open_gap x e log = do
  (buy', dropped) ← gap_side e.buy_side []
  (sell', dropped') ← gap_side e.sell_side dropped
  some (record {
    history = [];
    previous_comparison = int 0;
    buy_side = buy';
    sell_side = sell';
    log = emit_gap x dropped' log;
  })

abbrev pub keep_open : Engine → Log → Opened
keep_open e log = record {
  history = e.history;
  previous_comparison = e.previous_comparison;
  buy_side = e.buy_side;
  sell_side = e.sell_side;
  log = log;
}

unfoldable pub open_bar : BarContext → Engine → Bar → Bool → Option Opened
open_bar x e b declared_closure =
    let log : Log = record { seq = e.last_event_seq; events = [] } in
    if not declared_closure && has_hole e b then open_gap x e log else some (keep_open e log)

-- P1 to P3 over both sides; `comparison` is of this bar.
unfoldable pub run_phases :
    BarContext → Identity → Bar → Int64 → Opened → Option (SideState × SideState × Log)
run_phases x identity b comparison o = do
  (buy1, log1, buy_done) ←
      setup_phase x identity o.history b comparison o.previous_comparison buy o.buy_side o.log
  (sell1, log2, sell_done) ←
      setup_phase x identity o.history b comparison o.previous_comparison sell o.sell_side log1
  (buy2, log3) ← cancel_phase x buy sell_done buy1 log2
  (sell2, log4) ← cancel_phase x sell buy_done sell1 log3
  (buy3, log5) ← countdown_phase x o.history b buy buy2 log4
  (sell3, log6) ← countdown_phase x o.history b sell sell2 log5
  some (buy3, sell3, log6)

-- The last four bars.
abbrev pub push_history : List Bar → Bar → List Bar
push_history [] b = b ∷ []
push_history (h ∷ hs) b = if length (h ∷ hs) == 4 then hs ++ b ∷ [] else h ∷ (hs ++ b ∷ [])

abbrev pub context_of : Engine → Bar → BarContext
context_of e b = record {
  index = add64 e.last_index (int 1);
  bar_open_ms = b.open_ms;
  decision_ms = add64 b.open_ms e.identity.timeframe_ms;
}

unfoldable pub snapshot_of : BarContext → SideState → SideState → Snapshot
snapshot_of x buy_side sell_side = record {
  bar_index = x.index;
  bar_open_ms = x.bar_open_ms;
  decision_ms = x.decision_ms;
  phase_order_version = event_schema;
  buy = buy_side.snapshot;
  sell = sell_side.snapshot;
}

-- An accepted bar.
unfoldable pub advance : Engine → Bar → Bool → Option (Engine × Snapshot × List Event)
advance e b declared_closure = do
  let x = context_of e b
  o ← open_bar x e b declared_closure
  comparison ← compare_close o.history b
  let log = emit_diagnostics x e.init_diagnostics_emitted o.log
  (buy', sell', log') ← run_phases x e.identity b comparison (record o { log = log })
  some (
    record e {
      last_index = x.index;
      last_open = some b.open_ms;
      last_event_seq = log'.seq;
      init_diagnostics_emitted = true;
      history = push_history o.history b;
      previous_comparison = comparison;
      buy_side = buy';
      sell_side = sell';
    },
    snapshot_of x buy' sell',
    log'.events,
  )

abbrev pub Outcome : Type 0
Outcome = Option (Engine × Result (Snapshot × List Event))

abbrev pub stepped : Option (Engine × Snapshot × List Event) → Outcome
stepped none = none
stepped (some (e, snapshot, events)) = some (e, ok (snapshot, events))

-- step, which Step calls with `false` and StepAfterClosure with `true`.
unfoldable pub step : Engine → Bar → Bool → Outcome
step e b declared_closure = elim e.terminal [
  | some stop ↦ some (e, err (bar_order stop))
  | none ↦ elim (order_error e b) [
    | some stop ↦ some (record e { terminal = some stop }, err (bar_order stop))
    | none ↦ elim (input_error e b declared_closure) [
      | some reason ↦ some (e, err (invalid_input reason))
      | none ↦ stepped (advance e b declared_closure)
    ]
  ]
]

abbrev pub add_bar : Trace → Snapshot × List Event → Trace
add_bar t (snapshot, events) = record {
  events = t.events ++ events;
  snapshots = t.snapshots ++ snapshot ∷ [];
}

-- The engine after a run, its trace, and the error that stopped it.
pub record RunResult : Type 0 where
  pub engine : Engine
  pub trace : Trace
  pub error : Option CoreError

-- A run goes on after a bar, and stops at an error with the trace before it.
abbrev pub after_step : Trace → (Engine → Trace → Option RunResult) → Outcome → Option RunResult
after_step t continue none = none
after_step t continue (some (e', err error)) =
    some (record { engine = e'; trace = t; error = some error })
after_step t continue (some (e', ok bar)) = continue e' (add_bar t bar)

-- The loop of Engine.Run, on the trace so far.
unfoldable pub run_from : Engine → Trace → List Bar → Option RunResult
run_from e t [] = some (record { engine = e; trace = t; error = none })
run_from e t (b ∷ bs) = after_step t (λ e' t'. run_from e' t' bs) (step e b false)

abbrev pub empty_trace : Trace
empty_trace = record { events = []; snapshots = [] }

unfoldable pub run_engine : Engine → List Bar → Option RunResult
unfolding run_from
run_engine e bars = run_from e empty_trace bars

-- The package's Run; an engine that is not made gives the empty trace.
unfoldable pub run : Config → Identity → List Bar → Option (Trace × Option CoreError)
unfolding run_engine
run config identity bars = elim (new config identity) [
  | err error ↦ some (empty_trace, some error)
  | ok e ↦ do r ← run_engine e bars; some (r.trace, r.error)
]

pub record ResponseWindowPolicy : Type 0 where
  pub setup_bars : Int64
  pub countdown_bars : Int64

abbrev pub default_response_window_policy : ResponseWindowPolicy
default_response_window_policy = record { setup_bars = int 4; countdown_bars = int 12 }

unfoldable pub eligible : ResponseWindowPolicy → Text → Int64 → Bool
eligible p kind age =
    if ltb age (int 0)
    then false
    else if text_eq kind (bytes "setup") || text_eq kind (bytes "setup_complete")
    then leb age p.setup_bars
    else if text_eq kind (bytes "countdown") || text_eq kind (bytes "countdown_complete")
    then leb age p.countdown_bars
    else false
