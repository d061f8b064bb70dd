-- ===== src/Seqcore/Invariant/Setup.antt =====
-- What holds of a side's Setup between two bars, and what the phases do with it.
use heisentick_strat.Prelude.{
  ℕ, Bool, Ensures, Int64, List, add64, arith, false, get_elem?-is_some, int, length, ltb,
  max_int64, neg, true, ◌+◌, ◌-◌, ◌<◌, ◌==◌, ◌≡◌, ◌≢◌, ◌≤◌, ◌⊎◌,
}
use heisentick_strat.Seqcore.Types.{Bar, Identity, Side}
use heisentick_strat.Seqcore.Engine.{BarContext, Log, SideState, unfinished}
use heisentick_strat.Seqcore.Invariant.Countdown.{CountdownValid}
use heisentick_strat.Seqcore.Phases.{
  cancel_phase, compare_close, complete_setup, count_bar, count_or_defer, count_phase, direction,
  next_run, perfect_late, qualifies, recycle_phase, setup_phase, terminal_ok, with_run,
}

-- The Setup run is a count of bars: it is positive only over a full history that moved its way.
pub record RunValid (index : Int64) (bars : ℕ) (comparison : Int64) (side : Side) (s : SideState)
    : Type 0 where
  pub low : int 0 ≤ s.setup_run
  pub high : s.setup_run ≤ index + 1
  pub active : s.setup_active ≡ ltb (int 0) s.setup_run
  pub warm : int 0 < s.setup_run → bars ≡ 4
  pub directed : int 0 < s.setup_run → comparison ≡ direction side

pub record KeepsSetup (s s' : SideState) : Type 0 where
  pub run : s'.setup_run ≡ s.setup_run
  pub active : s'.setup_active ≡ s.setup_active
  pub setup : s'.last_completed_setup ≡ s.last_completed_setup
  pub unfinished_before : unfinished s'.countdown ≡ true → unfinished s.countdown ≡ true

-- The comparison is -1, 0 or 1, and 0 until four bars are there.
pub record ComparisonValid (history : List Bar) (c : Int64) : Type 0 where
  pub value : (c ≡ neg 1) ⊎ (c ≡ int 0) ⊎ (c ≡ int 1)
  pub warm : c ≢ int 0 → length history ≡ 4

pub compare_close_valid :
    (history : List Bar) (b : Bar) → Ensures (ComparisonValid history) (compare_close history b)
unfolding compare_close
compare_close_valid history b = ground (arith, get_elem?-is_some history 0)

pub next_run_valid :
    (side : Side) (comparison previous index run : Int64)
    → int 0 ≤ run
    → run ≤ index + 1
    → index + 1 < max_int64
    → (int 0 ≤ next_run side comparison previous run)
      × (next_run side comparison previous run ≤ index + 2)
      × (int 0 < next_run side comparison previous run → comparison ≡ direction side)
unfolding next_run add64
next_run_valid side comparison previous index run lo hi bound = ground arith

-- What P1 leaves of a side.
pub record SetupDone (side : Side) (run comparison : Int64) (s : SideState)
    (r : SideState × Log × Bool) : Type 0 where
  pub run_set : r.0.setup_run ≡ run
  pub active_set : r.0.setup_active ≡ ltb (int 0) run
  pub done_iff : r.2 ≡ (run == int 9)
  pub countdown_kept : r.2 ≡ false → r.0.countdown ≡ s.countdown

complete_setup_run :
    (x : BarContext) (id : Identity) (history : List Bar) (b : Bar) (side : Side) (s : SideState)
    (log : Log)
    → length history ≡ 4
    → Ensures
        (λ r. (r.0.setup_run ≡ s.setup_run) × (r.0.setup_active ≡ s.setup_active))
        (complete_setup x id history b side s log)
unfolding complete_setup
complete_setup_run x id history b side s log h =
    ground
      (arith, get_elem?-is_some history 1, get_elem?-is_some history 2, get_elem?-is_some history 3)

pub setup_phase_done :
    (x : BarContext) (id : Identity) (history : List Bar) (b : Bar) (comparison previous : Int64)
    (side : Side) (s : SideState) (log : Log)
    → (next_run side comparison previous s.setup_run ≡ int 9 → length history ≡ 4)
    → Ensures
        (SetupDone side (next_run side comparison previous s.setup_run) comparison s)
        (setup_phase x id history b comparison previous side s log)
unfolding setup_phase with_run perfect_late
setup_phase_done x id history b comparison previous side s log four = ground (
  arith,
  complete_setup_run x id history b side
      (with_run s (next_run side comparison previous s.setup_run)) log,
)

pub cancel_phase-KeepsSetup :
    (x : BarContext) (side : Side) (done : Bool) (s : SideState) (log : Log)
    → CountdownValid s
    → Ensures
        (λ r. KeepsSetup s r.0 × (done ≡ true → unfinished r.0.countdown ≡ false))
        (cancel_phase x side done s log)
unfolding cancel_phase
cancel_phase-KeepsSetup x side done s log v = ground arith

pub count_phase-KeepsSetup :
    (x : BarContext) (history : List Bar) (b : Bar) (side : Side) (s : SideState) (log : Log)
    → CountdownValid s
    → Ensures (λ r. KeepsSetup s r.0) (count_phase x history b side s log)
unfolding count_phase count_or_defer count_bar qualifies terminal_ok
count_phase-KeepsSetup x history b side s log v =
    ground (arith, get_elem?-is_some history (length history - 2))

pub recycle_phase-KeepsSetup :
    (x : BarContext) (side : Side) (s : SideState) (log : Log)
    → CountdownValid s
    → Ensures (λ r. KeepsSetup s r.0) (recycle_phase x side s log)
unfolding recycle_phase
recycle_phase-KeepsSetup x side s log v = ground arith
