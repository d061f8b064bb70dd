-- ===== src/Seqcore/Phases.antt =====
-- engine/seqcore/core.go, the phases of `step` for an accepted bar: P0 gap and diagnostics, P1
-- Setup, P2 cancellation, P3 Countdown. Each handles one side; `none` is a run-time panic.
use heisentick_strat.Prelude.{
  ◌-◌, Bool, true, false, not, ◌&&◌, ◌||◌, Option, none, some, List, [], ◌∷◌, Int64, int, neg,
  add64, ltb, leb, ◌==◌, Float, float_lt, float_le, Text, text_eq, if◌then◌else◌, length, get_elem?,
  ◌>>=◌, ◌++◌,
}
use heisentick_strat.Seqcore.Types.{
  Identity, Bar, Detail, count_detail, replacement_detail, dropped_episodes_detail, Side, buy, sell,
  both, on, p0, p1, p2, p3, EventType, Reason, no_reason, tdst_cancel_unsupported,
  unsupported_public_formula, opposite_setup_complete, deferral_13_vs_8, recycle_22, diagnostic,
  setup_complete, perfection, delayed_perfection, countdown_start, countdown_cancel,
  countdown_defer, countdown_count, countdown_complete, countdown_recycle, CompletedSetup,
  CountdownState, Countdown,
}
use heisentick_strat.Seqcore.Engine.{
  SideState, idle_countdown, clear_countdown, Log, BarContext, emit, episode_id, extreme, perfects,
  unfinished, references, mark_perfected,
}

-- The closure `add` of the gap branch: an id is listed once.
contains_text : Text → List Text → Bool
contains_text id [] = false
contains_text id (x ∷ xs) = text_eq x id || contains_text id xs

unfoldable pub add_dropped : Text → List Text → List Text
unfolding contains_text
add_dropped id dropped = if contains_text id dropped then dropped else dropped ++ id ∷ []

abbrev drop_setup : Option CompletedSetup → List Text → List Text
drop_setup none dropped = dropped
drop_setup (some setup) dropped =
    if not setup.perfected then add_dropped setup.episode_id dropped else dropped

abbrev reset_setup : SideState → SideState
reset_setup s = record s {
  snapshot = record (s.snapshot) {
    setup_run = int 0;
    setup_active = false;
    last_completed_setup = none;
  };
}

-- The body of the loop over the sides after an undeclared hole.
unfoldable pub gap_side : SideState → List Text → Option (SideState × List Text)
unfolding add_dropped
gap_side s dropped =
    let listed = drop_setup s.last_completed_setup dropped in
    if unfinished s.countdown
    then (do
      id ← s.countdown.setup_episode_id
      some (reset_setup (clear_countdown s), add_dropped id listed))
    else some (reset_setup s, listed)

unfoldable pub emit_gap : BarContext → List Text → Log → Log
emit_gap x dropped log =
    emit x log p0 EventType.data_gap both Reason.data_gap []
      (some (dropped_episodes_detail dropped))

unfoldable pub emit_diagnostics : BarContext → Bool → Log → Log
emit_diagnostics x emitted log =
    if not emitted
    then emit x (emit x log p0 diagnostic both tdst_cancel_unsupported [] none) p0 diagnostic both
        unsupported_public_formula [] none
    else log

-- b.C against the close four bars before.
unfoldable pub compare_close : List Bar → Bar → Option Int64
compare_close history b =
    if length history == 4
    then (do
      first ← get_elem? history 0
      some (if float_lt b.c first.c then neg 1 else if float_lt first.c b.c then int 1 else int 0))
    else some (int 0)

abbrev pub direction : Side → Int64
direction buy = neg 1
direction sell = int 1

abbrev pub opposite_direction : Side → Int64
opposite_direction buy = int 1
opposite_direction sell = neg 1

unfoldable pub next_run : Side → Int64 → Int64 → Int64 → Int64
next_run side comparison previous run =
    if comparison == direction side
    then (if ltb (int 0) run
        then add64 run (int 1)
        else if previous == opposite_direction side
        then int 1
        else run)
    else int 0

abbrev replaced : Option CompletedSetup → Option Detail
replaced none = none
replaced (some old) = some (replacement_detail old.episode_id)

abbrev pub is_startable : CountdownState → Bool
is_startable CountdownState.idle = true
is_startable CountdownState.completed = true
is_startable _ = false

abbrev start_countdown : Text → Countdown
start_countdown id = record idle_countdown {
  state = CountdownState.active;
  setup_episode_id = some id;
}

-- The ninth bar of a Setup.
unfoldable pub complete_setup :
    BarContext → Identity → List Bar → Bar → Side → SideState → Log → Option (SideState × Log)
complete_setup x identity history b side s log = do
  bar6 ← get_elem? history 1
  bar7 ← get_elem? history 2
  bar8 ← get_elem? history 3
  let id = episode_id identity side b.open_ms
  let setup : CompletedSetup = record {
    episode_id = id;
    completion_bar_index = x.index;
    completion_bar_open_ms = x.bar_open_ms;
    completion_decision_ms = x.decision_ms;
    bar6_extreme = extreme bar6 side;
    bar7_extreme = extreme bar7 side;
    perfected = false;
    perfected_at_bar_index = none;
    perfected_at_bar_open_ms = none;
    perfected_at_decision_ms = none;
  }
  let log1 = emit x log p1 setup_complete (on side) no_reason id (replaced s.last_completed_setup)
  let is_perfect = perfects (extreme bar8 side) setup side || perfects (extreme b side) setup side
  let log2 = if is_perfect then emit x log1 p1 perfection (on side) no_reason id none else log1
  let setup' = if is_perfect then mark_perfected x setup else setup
  let starts = is_startable s.countdown.state
  some (
    record {
      snapshot = record (s.snapshot) {
        last_completed_setup = some setup';
        countdown = if starts then start_countdown id else s.countdown;
      };
      bar8_close = if starts then none else s.bar8_close;
    },
    if starts then emit x log2 p1 countdown_start (on side) no_reason id none else log2,
  )

-- A later bar that perfects the last completed Setup.
unfoldable pub perfect_late : BarContext → Bar → Side → SideState → Log → SideState × Log
perfect_late x b side s log = elim s.last_completed_setup [
  | none ↦ (s, log)
  | some setup ↦
      if not setup.perfected && perfects (extreme b side) setup side
      then (
        record s {
          snapshot = record (s.snapshot) { last_completed_setup = some (mark_perfected x setup) };
        },
        emit x log p1 delayed_perfection (on side) no_reason setup.episode_id none,
      )
      else (s, log)
]

unfoldable pub with_run : SideState → Int64 → SideState
with_run s run = record s {
  snapshot = record (s.snapshot) { setup_run = run; setup_active = ltb (int 0) run };
}

-- P1 for one side; the last part says whether a Setup completed.
unfoldable pub setup_phase :
    BarContext
    → Identity
    → List Bar
    → Bar
    → Int64
    → Int64
    → Side
    → SideState
    → Log
    → Option (SideState × Log × Bool)
setup_phase x identity history b comparison previous side s log =
    let run = next_run side comparison previous s.setup_run in
    if run == int 9
    then (do
      (s', log') ← complete_setup x identity history b side (with_run s run) log
      some (s', log', true))
    else (let (s', log') = perfect_late x b side (with_run s run) log in some (s', log', false))

-- P2 for one side, given that the other side completed a Setup or not.
unfoldable pub cancel_phase : BarContext → Side → Bool → SideState → Log → Option (SideState × Log)
cancel_phase x side opposite_completed s log =
    if opposite_completed && unfinished s.countdown
    then (do
      id ← s.countdown.setup_episode_id
      some (
        clear_countdown s,
        emit x log p2 countdown_cancel (on side) opposite_setup_complete id
            (some (references s.countdown)),
      ))
    else some (s, log)

abbrev past_prior : Side → Bar → Bar → Bool
past_prior buy b prior = float_le b.c prior.l
past_prior sell b prior = float_le prior.h b.c

-- Whether the bar's close passes the extreme of the bar two before.
unfoldable pub qualifies : List Bar → Bar → Side → Countdown → Option Bool
qualifies history b side c =
    if unfinished c && leb 2 (length history)
    then (do prior ← get_elem? history (length history - 2); some (past_prior side b prior))
    else some false

abbrev past_bar8 : Side → Bar → Float → Bool
past_bar8 buy b close = float_le b.l close
past_bar8 sell b close = float_le close b.h

-- The deferral test of bar 13 against the close of bar 8.
unfoldable pub terminal_ok : Bar → Side → SideState → Option Bool
terminal_ok b side s =
    if not (s.countdown.count == int 12)
    then some true
    else (do close ← s.bar8_close; some (past_bar8 side b close))

unfoldable pub count_bar : BarContext → Bar → Side → SideState → Text → Log → SideState × Log
count_bar x b side s id log =
    let count = add64 s.countdown.count (int 1) in
    let log1 = emit x log p3 countdown_count (on side) no_reason id (some (count_detail count)) in
    (
      record {
        snapshot = record (s.snapshot) {
          countdown = record (s.snapshot.countdown) {
            state = if count == int 13 then CountdownState.completed else s.countdown.state;
            count = count;
            bar5_index = if count == int 5 then some x.index else s.countdown.bar5_index;
            bar8_index = if count == int 8 then some x.index else s.countdown.bar8_index;
            bar13_index = if count == int 13 then some x.index else s.countdown.bar13_index;
          };
        };
        bar8_close = if count == int 8 then some b.c else s.bar8_close;
      },
      if count == int 13
          then emit x log1 p3 countdown_complete (on side) no_reason id (some (count_detail count))
          else log1,
    )

abbrev pub defer : SideState → SideState
defer s = record s {
  snapshot = record (s.snapshot) {
    countdown = record (s.snapshot.countdown) { state = CountdownState.deferred };
  };
}

-- A bar that qualifies counts, or is deferred.
unfoldable pub count_or_defer : BarContext → Bar → Side → SideState → Log → Option (SideState × Log)
count_or_defer x b side s log = do
  admitted ← terminal_ok b side s
  id ← s.countdown.setup_episode_id
  some (
      if admitted then count_bar x b side s id log else (
        defer s,
        emit x log p3 countdown_defer (on side) deferral_13_vs_8 id
            (some (count_detail s.countdown.count)),
      ))

-- The count or deferral of P3 for one side.
unfoldable pub count_phase :
    BarContext → List Bar → Bar → Side → SideState → Log → Option (SideState × Log)
count_phase x history b side s log = do
  counts ← qualifies history b side s.countdown
  if counts then count_or_defer x b side s log else some (s, log)

abbrev pub is_idle : CountdownState → Bool
is_idle CountdownState.idle = true
is_idle _ = false

-- The recycling at the end of P3 for one side.
unfoldable pub recycle_phase : BarContext → Side → SideState → Log → Option (SideState × Log)
recycle_phase x side s log =
    if s.setup_run == int 22 && not (is_idle s.countdown.state)
    then (do
      id ← s.countdown.setup_episode_id
      some (
        clear_countdown s,
        emit x log p3 countdown_recycle (on side) recycle_22 id (some (references s.countdown)),
      ))
    else some (s, log)

unfoldable pub countdown_phase :
    BarContext → List Bar → Bar → Side → SideState → Log → Option (SideState × Log)
countdown_phase x history b side s log = do
  (s', log') ← count_phase x history b side s log
  recycle_phase x side s' log'
