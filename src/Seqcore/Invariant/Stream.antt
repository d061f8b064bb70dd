-- ===== src/Seqcore/Invariant/Stream.antt =====
-- The invariant of the engine between two bars, and that every accepted bar keeps it.
use heisentick_strat.Prelude.{
  ℕ, Bool, Ensures, Ensures-and, Ensures-bind, Int64, IsWord, List, Option, Text, [], arith, bias,
  false, if_rule, int, length, length-snoc, max_int64, modulus, neg, none, not, some, true, ◌&&◌,
  ◌+◌, ◌<◌, ◌∷◌, ◌≡◌, ◌≤◌, add64, add64_exact, sub64, sym, ◌∙◌, ◌≢◌, Ensures-mono, refl,
}
use heisentick_strat.Seqcore.Types.{Bar, Side, buy, sell, Event, Snapshot, BarOrderError}
use heisentick_strat.Seqcore.Engine.{
  BarContext, Engine, Log, SideState, has_hole, unfinished, input_error, Result, err, ok,
}
use heisentick_strat.Seqcore.Invariant.Setup.{
  ComparisonValid, RunValid, next_run_valid, compare_close_valid,
}
use heisentick_strat.Seqcore.Invariant.Countdown.{CountdownValid, gap_side-CountdownValid}
use heisentick_strat.Seqcore.Events.{
  Logged, Logged-mono, emit_gap-Logged, Numbered, emit_diagnostics-Logged,
}
use heisentick_strat.Seqcore.Step.{
  Opened, open_bar, open_gap, push_history, advance, context_of, run, run_phases, snapshot_of, step,
  stepped,
}
use heisentick_strat.Seqcore.Invariant.Bar.{SideDone, one_unfinished, run_phases_done, PhasesDone}
use heisentick_strat.Seqcore.Phases.{gap_side, next_run, compare_close, direction, emit_diagnostics}
use heisentick_strat.Seqcore.Refusals.{step_cases}

-- The decision time of the last bar does not overflow.
abbrev pub LastFits : Int64 → Option Int64 → Type 0
LastFits tf none = Unit {0}
LastFits tf (some last) = last + tf ≤ max_int64 + bias

pub record EngineValid (e : Engine) : Type 0 where
  pub step_positive : int 0 < e.identity.timeframe_ms
  pub step_word : IsWord e.identity.timeframe_ms
  pub index_low : neg 1 ≤ e.last_index
  pub index_high : e.last_index < max_int64
  pub seq_low : int 0 ≤ e.last_event_seq
  pub seq_word : IsWord e.last_event_seq
  pub last_fits : LastFits e.identity.timeframe_ms e.last_open
  pub bars : length e.history ≤ 4
  pub comparison : ComparisonValid e.history e.previous_comparison
  pub buy_run : RunValid e.last_index (length e.history) e.previous_comparison buy e.buy_side
  pub sell_run : RunValid e.last_index (length e.history) e.previous_comparison sell e.sell_side
  pub buy_countdown : CountdownValid e.buy_side
  pub sell_countdown : CountdownValid e.sell_side
  pub one : one_unfinished e.buy_side e.sell_side ≡ true

-- What P1 needs of the engine as P0 leaves it.
pub record OpenedValid (start index : ℕ) (o : Opened) : Type 0 where
  pub bars : length o.history ≤ 4
  pub buy_run : (int 0 ≤ o.buy_side.setup_run) × (o.buy_side.setup_run ≤ index + 1)
  pub sell_run : (int 0 ≤ o.sell_side.setup_run) × (o.sell_side.setup_run ≤ index + 1)
  pub buy_countdown : CountdownValid o.buy_side
  pub sell_countdown : CountdownValid o.sell_side
  pub one : one_unfinished o.buy_side o.sell_side ≡ true
  pub logged : Logged start 1 o.log

gap_side_reset :
    (s : SideState) (dropped : List Text)
    → CountdownValid s
    → Ensures
        (λ r. CountdownValid r.0 × ((r.0.setup_run ≡ int 0) × (unfinished r.0.countdown ≡ false)))
        (gap_side s dropped)
gap_side_reset s dropped v =
    Ensures-and _ _ (gap_side s dropped) (gap_side-CountdownValid s dropped v)
      (unfold gap_side in ground arith)

open_bar_valid :
    (x : BarContext) (e : Engine) (b : Bar) (declared : Bool)
    → EngineValid e
    → e.last_event_seq + 1 < modulus
    → Ensures (OpenedValid e.last_event_seq e.last_index) (open_bar x e b declared)
unfolding open_bar open_gap
open_bar_valid x e b declared v room =
    let log : Log = record { seq = e.last_event_seq; events = [] } in
    let logged : Logged e.last_event_seq 0 log = record {
      seq = omega arith;
      short = omega arith;
      numbered = tt;
    } in
    if_rule (Ensures (OpenedValid e.last_event_seq e.last_index)) (not declared && has_hole e b) _ _
      (λ _.
        Ensures-bind _ _ (gap_side e.buy_side []) _ (gap_side_reset e.buy_side [] v.buy_countdown)
          λ r w.
            Ensures-bind _ _ (gap_side e.sell_side r.1) _
              (gap_side_reset e.sell_side r.1 v.sell_countdown)
              λ q z. record {
                bars = omega arith;
                buy_run = omega (arith, w.1.0, v.index_low);
                sell_run = omega (arith, z.1.0, v.index_low);
                buy_countdown = w.0;
                sell_countdown = z.0;
                one = ground (arith, w.1.1);
                logged = emit_gap-Logged e.last_event_seq 0 x q.1 log logged (omega arith);
              })
      (λ _. record {
        bars = v.bars;
        buy_run = (v.buy_run.low, v.buy_run.high);
        sell_run = (v.sell_run.low, v.sell_run.high);
        buy_countdown = v.buy_countdown;
        sell_countdown = v.sell_countdown;
        one = v.one;
        logged = Logged-mono e.last_event_seq 0 1 log logged (omega arith);
      })

pub push_history-length :
    (h : List Bar) (b : Bar)
    → length h ≤ 4
    → (length (push_history h b) ≤ 4)
      × (length h ≡ 4 → length (push_history h b) ≡ 4)
      × (1 ≤ length (push_history h b))
push_history-length [] b le = omega arith
push_history-length (h ∷ hs) b le = ground (arith, length-snoc hs b)

direction-ne-zero : (side : Side) → direction side ≢ int 0
direction-ne-zero buy = omega arith
direction-ne-zero sell = omega arith

-- A run is positive only over the comparison of its side, and so over four bars.
run_valid :
    (side : Side) (comparison previous index : Int64) (history : List Bar) (b : Bar)
    (s t : SideState)
    → length history ≤ 4
    → ComparisonValid history comparison
    → int 0 ≤ s.setup_run
    → s.setup_run ≤ index + 1
    → index + 1 < max_int64
    → SideDone (next_run side comparison previous s.setup_run) t
    → RunValid (index + 1) (length (push_history history b)) comparison side t
run_valid side comparison previous index history b s t le c lo hi room done =
    let n = next_run_valid side comparison previous index s.setup_run lo hi room in
    let moved : int 0 < t.setup_run → comparison ≡ direction side =
      (λ h. n.2 (omega (arith, done.run_set))) in
    record {
      low = omega (arith, done.run_set, n.0);
      high = omega (arith, done.run_set, n.1);
      active = rw done.run_set done.active_set;
      warm = λ h.
          (push_history-length history b le).1
            (c.warm (λ z. direction-ne-zero side (sym (moved h) ∙ z)));
      directed = moved;
    }

-- The guards of `step` leave room for the sums of an accepted bar.
input_room :
    (e : Engine) (b : Bar) (declared : Bool)
    → EngineValid e
    → IsWord b.open_ms
    → input_error e b declared ≡ none
    → (b.open_ms + e.identity.timeframe_ms ≤ max_int64 + bias)
      × (e.last_event_seq + 16 < modulus)
      × (e.last_index + 1 < max_int64)
unfolding input_error sub64
input_room e b declared v word h =
    let low = v.step_positive in
    let high = v.step_word in let index = v.index_high in let seq = v.seq_word in ground arith

-- Every accepted bar keeps the invariant; its events continue the sequence, at most 14 of them.
pub record Advanced (e : Engine) (b : Bar) (r : Engine × Snapshot × List Event) : Type 0 where
  pub valid : EngineValid r.0
  pub numbered : Numbered e.last_event_seq r.2
  pub seq : r.0.last_event_seq ≡ e.last_event_seq + length r.2
  pub short : length r.2 ≤ 14
  pub index : r.0.last_index ≡ e.last_index + 1
  pub decision : r.1.decision_ms + bias ≡ b.open_ms + e.identity.timeframe_ms

not_both_nine :
    (comparison pb ps index rb rs : Int64)
    → int 0 ≤ rb
    → rb ≤ index + 1
    → int 0 ≤ rs
    → rs ≤ index + 1
    → index + 1 < max_int64
    → next_run buy comparison pb rb ≡ int 9
    → next_run sell comparison ps rs ≡ int 9
    → ⊥
not_both_nine comparison pb ps index rb rs lb hb ls hs room e f = omega (
  arith,
  (next_run_valid buy comparison pb index rb lb hb room).2 (omega (arith, e)),
  (next_run_valid sell comparison ps index rs ls hs room).2 (omega (arith, f)),
)

nine_warm :
    (side : Side) (comparison previous index run : Int64) (history : List Bar)
    → ComparisonValid history comparison
    → int 0 ≤ run
    → run ≤ index + 1
    → index + 1 < max_int64
    → next_run side comparison previous run ≡ int 9
    → length history ≡ 4
nine_warm side comparison previous index run history c lo hi room e = c.warm (λ z.
    direction-ne-zero side (
      sym ((next_run_valid side comparison previous index run lo hi room).2 (omega (arith, e)))
      ∙ z))

-- The engine, snapshot and events at the end of `advance`.
abbrev advanced :
    Engine → Bar → List Bar → Int64 → SideState × SideState × Log → Engine × Snapshot × List Event
advanced e b history comparison r = (
  record e {
    last_index = add64 e.last_index (int 1);
    last_open = some b.open_ms;
    last_event_seq = r.2.seq;
    init_diagnostics_emitted = true;
    history = push_history history b;
    previous_comparison = comparison;
    buy_side = r.0;
    sell_side = r.1;
  },
  snapshot_of (context_of e b) r.0 r.1,
  r.2.events,
)

advanced_valid :
    (e : Engine) (b : Bar) (o : Opened) (comparison : Int64) (r : SideState × SideState × Log)
    → EngineValid e
    → OpenedValid e.last_event_seq e.last_index o
    → ComparisonValid o.history comparison
    → b.open_ms + e.identity.timeframe_ms ≤ max_int64 + bias
    → e.last_event_seq + 16 < modulus
    → e.last_index + 1 < max_int64
    → PhasesDone e.last_event_seq 3
        (next_run buy comparison o.previous_comparison o.buy_side.setup_run)
        (next_run sell comparison o.previous_comparison o.sell_side.setup_run)
        r
    → Advanced e b (advanced e b o.history comparison r)
unfolding snapshot_of
advanced_valid e b o c r v w cv fits seq_room index_room d =
    let index : add64 e.last_index (int 1) ≡ e.last_index + 1 =
      omega (arith, add64_exact e.last_index (int 1) (omega (arith, v.index_low)) (omega arith)) in
    let pushed = push_history-length o.history b w.bars in
    let p = o.previous_comparison in
    record {
      valid = record {
        step_positive = v.step_positive;
        step_word = v.step_word;
        index_low = omega (arith, index, v.index_low);
        index_high = omega (arith, index);
        seq_low = omega (arith, d.logged.seq, v.seq_low);
        seq_word = omega (arith, d.logged.seq, d.logged.short);
        last_fits = fits;
        bars = pushed.0;
        comparison = record { value = cv.value; warm = λ z. pushed.1 (cv.warm z) };
        buy_run = rw index (
            run_valid buy c p e.last_index o.history b o.buy_side r.0 w.bars cv w.buy_run.0
              w.buy_run.1 index_room d.buy_done);
        sell_run = rw index (
            run_valid sell c p e.last_index o.history b o.sell_side r.1 w.bars cv w.sell_run.0
              w.sell_run.1 index_room d.sell_done);
        buy_countdown = d.buy_done.countdown;
        sell_countdown = d.sell_done.countdown;
        one = d.one;
      };
      numbered = d.logged.numbered;
      seq = d.logged.seq;
      short = d.logged.short;
      index = index;
      decision =
          add64_exact b.open_ms e.identity.timeframe_ms (omega (arith, v.step_positive))
            (omega arith);
    }

-- A bar with an int64 open time that passes the input checks of an engine in the invariant is
-- processed without a panic: the next bar index, event numbers without a hole after the last one,
-- at most 14 events, and a decision time that is the exact sum of open time and timeframe.
pub advance_valid :
    (e : Engine) (b : Bar) (declared : Bool)
    → EngineValid e
    → IsWord b.open_ms
    → input_error e b declared ≡ none
    → Ensures (Advanced e b) (advance e b declared)
unfolding advance snapshot_of
advance_valid e b declared v word h =
    let room = input_room e b declared v word h in
    let x = context_of e b in
    let index : add64 e.last_index (int 1) ≡ e.last_index + 1 = omega (
      arith,
      add64_exact e.last_index (int 1) (omega (arith, v.index_low)) (omega (arith, room.2)),
    ) in
    Ensures-bind _ _ (open_bar x e b declared) _
      (open_bar_valid x e b declared v (omega (arith, room.1)))
      λ o w.
        Ensures-bind _ _ (compare_close o.history b) _ (compare_close_valid o.history b) λ c cv.
          let p = o.previous_comparison in
          Ensures-bind _ _
            (run_phases x e.identity b c
              (record o { log = emit_diagnostics x e.init_diagnostics_emitted o.log }))
            _
            (run_phases_done e.last_event_seq 3 x e.identity b c
              (record o { log = emit_diagnostics x e.init_diagnostics_emitted o.log })
              (nine_warm buy c p e.last_index o.buy_side.setup_run o.history cv w.buy_run.0
                w.buy_run.1 room.2)
              (nine_warm sell c p e.last_index o.sell_side.setup_run o.history cv w.sell_run.0
                w.sell_run.1 room.2)
              (not_both_nine c p p e.last_index o.buy_side.setup_run o.sell_side.setup_run
                w.buy_run.0 w.buy_run.1 w.sell_run.0 w.sell_run.1 room.2)
              w.buy_countdown w.sell_countdown w.one
              (emit_diagnostics-Logged e.last_event_seq 1 x e.init_diagnostics_emitted o.log
                w.logged (omega (arith, room.1)))
              (omega (arith, room.1)))
            λ r d. advanced_valid e b o c r v w cv room.0 room.1 room.2 d

-- The terminal error is no part of the invariant.
pub terminal_valid :
    (e : Engine) (stop : BarOrderError)
    → EngineValid e
    → EngineValid (record e { terminal = some stop })
terminal_valid e stop v = record {
  step_positive = v.step_positive;
  step_word = v.step_word;
  index_low = v.index_low;
  index_high = v.index_high;
  seq_low = v.seq_low;
  seq_word = v.seq_word;
  last_fits = v.last_fits;
  bars = v.bars;
  comparison = v.comparison;
  buy_run = v.buy_run;
  sell_run = v.sell_run;
  buy_countdown = v.buy_countdown;
  sell_countdown = v.sell_countdown;
  one = v.one;
}

stepped-Ensures :
    (m : Option (Engine × Snapshot × List Event))
    → Ensures (λ r. EngineValid r.0) m
    → Ensures (λ r. EngineValid r.0) (stepped m)
stepped-Ensures none h = h
stepped-Ensures (some (e, snapshot, events)) h = h

-- From an engine that satisfies the invariant, and for a bar whose open time is an int64, Step and
-- StepAfterClosure return on every branch, error or not, without a panic, and leave an engine that
-- satisfies the invariant (Countdown counts and references, Setup runs and comparisons, at most one
-- unfinished Countdown, history of at most four bars, 64-bit bounds).
pub step_valid :
    (e : Engine) (b : Bar) (declared : Bool)
    → EngineValid e
    → IsWord b.open_ms
    → Ensures (λ r. EngineValid r.0) (step e b declared)
step_valid e b declared v word =
    step_cases (Ensures (λ r. EngineValid r.0)) e b declared (λ stop t. v)
      (λ stop t o. terminal_valid e stop v) (λ reason t o i. v)
      λ t o i. stepped-Ensures (advance e b declared) (
        Ensures-mono _ _ (advance e b declared) (advance_valid e b declared v word i)
          λ r a. a.valid)

-- What a step leaves, on every branch: an error appends nothing.
abbrev pub StepDone : Engine → Bar → Engine × Result (Snapshot × List Event) → Type 0
StepDone e b (e', err error) =
    EngineValid e' × (e'.last_event_seq ≡ e.last_event_seq) × (e'.last_index ≡ e.last_index)
StepDone e b (e', ok (snapshot, events)) = Advanced e b (e', snapshot, events)

stepped-StepDone :
    (e : Engine) (b : Bar) (m : Option (Engine × Snapshot × List Event))
    → Ensures (Advanced e b) m
    → Ensures (StepDone e b) (stepped m)
stepped-StepDone e b none h = h
stepped-StepDone e b (some (e', snapshot, events)) h = h

pub step-StepDone :
    (e : Engine) (b : Bar) (declared : Bool)
    → EngineValid e
    → IsWord b.open_ms
    → Ensures (StepDone e b) (step e b declared)
step-StepDone e b declared v word =
    step_cases (Ensures (StepDone e b)) e b declared (λ stop t. (v, refl, refl))
      (λ stop t o. (terminal_valid e stop v, refl, refl)) (λ reason t o i. (v, refl, refl))
      λ t o i. stepped-StepDone e b (advance e b declared) (advance_valid e b declared v word i)
