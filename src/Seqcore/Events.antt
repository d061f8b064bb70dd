-- ===== src/Seqcore/Events.antt =====
-- The event log of one bar: its numbers follow one another, and each phase appends a bounded
-- number of events.
use heisentick_strat.Prelude.{
  ℕ, List, Option, Text, [], add64, arith, length, modulus, suc, ◌++◌, ◌+◌, ◌<◌, ◌∷◌, ◌≡◌, ◌≤◌,
  Bool, Ensures, Ensures-bind, Int64, false, four_cases, if_rule, if◌then◌else◌, int, length-snoc,
  true, ◌==◌, Ensures-and, Ensures-mono, Option-cases, inl, inr, not, ◌&&◌,
}
use heisentick_strat.Seqcore.Engine.{
  BarContext, Log, emit, SideState, extreme, perfects, unfinished,
}
use heisentick_strat.Seqcore.Types.{
  Detail, Event, EventSide, EventType, Phase, Reason, Bar, Identity, Side,
}
use heisentick_strat.Seqcore.Invariant.Countdown.{
  CountdownValid, count_phase-CountdownValid, qualifies-unfinished, terminal_ok_total,
  unfinished_id,
}
use heisentick_strat.Seqcore.Phases.{
  cancel_phase, complete_setup, countdown_phase, emit_diagnostics, emit_gap, next_run, perfect_late,
  setup_phase, with_run, count_bar, count_or_defer, count_phase, is_idle, qualifies, recycle_phase,
  terminal_ok,
}

-- Events numbered start + 1, start + 2, and so on.
abbrev pub Numbered : ℕ → List Event → Type 0
Numbered start [] = Unit
Numbered start (e ∷ es) = (e.event_seq ≡ suc start) × Numbered (suc start) es

Numbered-snoc :
    (start : ℕ) (es : List Event) (e : Event)
    → Numbered start es
    → e.event_seq ≡ suc (start + length es)
    → Numbered start (es ++ e ∷ [])
Numbered-snoc start [] e n h = (omega arith, tt)
Numbered-snoc start (d ∷ es) e n h = (n.0, Numbered-snoc (suc start) es e n.1 (omega arith))

-- At most k events since `start`, numbered without a hole.
pub record Logged (start k : ℕ) (log : Log) : Type 0 where
  pub seq : log.seq ≡ start + length log.events
  pub short : length log.events ≤ k
  pub numbered : Numbered start log.events

pub Logged-mono : (start k n : ℕ) (log : Log) → Logged start k log → k ≤ n → Logged start n log
Logged-mono start k n log h le = record { seq = h.seq; short = omega arith; numbered = h.numbered }

pub emit-Logged :
    (start k n : ℕ) (x : BarContext) (log : Log) (phase : Phase) (kind : EventType)
    (side : EventSide) (why : Reason) (id : Text) (detail : Option Detail)
    → Logged start k log
    → k < n
    → start + n < modulus
    → Logged start n (emit x log phase kind side why id detail)
unfolding emit add64
emit-Logged start k n x log phase kind side why id detail h le room = record {
  seq = omega (arith, length-snoc {0});
  short = omega (arith, length-snoc {0});
  numbered = Numbered-snoc start log.events _ h.numbered (omega arith);
}

pub emit_gap-Logged :
    (start k : ℕ) (x : BarContext) (dropped : List Text) (log : Log)
    → Logged start k log
    → start + (k + 1) < modulus
    → Logged start (k + 1) (emit_gap x dropped log)
unfolding emit_gap
emit_gap-Logged start k x dropped log h room =
    emit-Logged start k (k + 1) x log _ _ _ _ _ _ h (omega arith) room

pub emit_diagnostics-Logged :
    (start k : ℕ) (x : BarContext) (emitted : Bool) (log : Log)
    → Logged start k log
    → start + (k + 2) < modulus
    → Logged start (k + 2) (emit_diagnostics x emitted log)
unfolding emit_diagnostics
emit_diagnostics-Logged start k x true log h room = Logged-mono start k (k + 2) log h (omega arith)
emit_diagnostics-Logged start k x false log h room =
    emit-Logged start (k + 1) (k + 2) x _ _ _ _ _ _ _
      (emit-Logged start k (k + 1) x log _ _ _ _ _ _ h (omega arith) (omega arith)) (omega arith)
      room

-- An event that is emitted under a test.
emit_if-Logged :
    (start k : ℕ) (test : Bool) (x : BarContext) (log : Log) (phase : Phase) (kind : EventType)
    (side : EventSide) (why : Reason) (id : Text) (detail : Option Detail)
    → Logged start k log
    → start + (k + 1) < modulus
    → Logged start (k + 1) (if test then emit x log phase kind side why id detail else log)
emit_if-Logged start k true x log phase kind side why id detail h room =
    emit-Logged start k (k + 1) x log phase kind side why id detail h (omega arith) room
emit_if-Logged start k false x log phase kind side why id detail h room =
    Logged-mono start k (k + 1) log h (omega arith)

-- Three events at most: completion, perfection and the start of a Countdown.
complete_setup-Logged :
    (start k : ℕ) (x : BarContext) (id : Identity) (history : List Bar) (b : Bar) (side : Side)
    (s : SideState) (log : Log)
    → length history ≡ 4
    → Logged start k log
    → start + (k + 3) < modulus
    → Ensures (λ r. Logged start (k + 3) r.1) (complete_setup x id history b side s log)
unfolding complete_setup
complete_setup-Logged start k x id history b side s log four h room =
    four_cases
      (λ bars. Ensures (λ r. Logged start (k + 3) r.1) (complete_setup x id bars b side s log))
      (λ h0 h1 h2 h3.
        Logged-mono start (k + 1 + 1 + 1) (k + 3) _
          (emit_if-Logged start (k + 1 + 1) _ x _ _ _ _ _ _ _
            (emit_if-Logged start (k + 1) _ x _ _ _ _ _ _ _
              (emit-Logged start k (k + 1) x log _ _ _ _ _ _ h (omega arith) (omega arith))
              (omega arith))
            (omega arith))
          (omega arith))
      history four

perfect_late-Logged :
    (start k : ℕ) (x : BarContext) (b : Bar) (side : Side) (s : SideState) (log : Log)
    → Logged start k log
    → start + (k + 1) < modulus
    → Logged start (k + 1) (perfect_late x b side s log).1
unfolding perfect_late
perfect_late-Logged start k x b side s log h room = elim (Option-cases s.last_completed_setup) [
  | inl e ↦ rw (e, perfect_late) (Logged-mono start k (k + 1) log h (omega arith))
  | inr (setup, e) ↦
      rw (e, perfect_late)
        (if_rule (λ (r : SideState × Log). Logged start (k + 1) r.1)
          (not setup.perfected && perfects (extreme b side) setup side) _ _
          (λ _. emit-Logged start k (k + 1) x log _ _ _ _ _ _ h (omega arith) room)
          (λ _. Logged-mono start k (k + 1) log h (omega arith)))
]

abbrev pub setup_events : Bool → ℕ
setup_events true = 3
setup_events false = 1

pub setup_phase-Logged :
    (start k : ℕ) (x : BarContext) (id : Identity) (history : List Bar) (b : Bar)
    (comparison previous : Int64) (side : Side) (s : SideState) (log : Log)
    → (next_run side comparison previous s.setup_run ≡ int 9 → length history ≡ 4)
    → Logged start k log
    → start + (k + 3) < modulus
    → Ensures
        (λ r. Logged start (k + setup_events r.2) r.1)
        (setup_phase x id history b comparison previous side s log)
unfolding setup_phase
setup_phase-Logged start k x id history b comparison previous side s log four h room =
    if_rule (Ensures (λ (r : SideState × Log × Bool). Logged start (k + setup_events r.2) r.1))
      (next_run side comparison previous s.setup_run == int 9) _ _
      (λ nine.
        Ensures-bind (λ r. Logged start (k + 3) r.1) _
          (complete_setup x id history b side
            (with_run s (next_run side comparison previous s.setup_run)) log)
          _ (complete_setup-Logged start k x id history b side _ log (four (ground arith)) h room)
          λ r w. w)
      (λ _. perfect_late-Logged start k x b side _ log h (omega arith))

abbrev pub cancel_events : Bool → ℕ
cancel_events true = 1
cancel_events false = 0

pub cancel_phase-Logged :
    (start k : ℕ) (x : BarContext) (side : Side) (done : Bool) (s : SideState) (log : Log)
    → CountdownValid s
    → Logged start k log
    → start + (k + 1) < modulus
    → Ensures (λ r. Logged start (k + cancel_events done) r.1) (cancel_phase x side done s log)
unfolding cancel_phase
cancel_phase-Logged start k x side false s log v h room =
    Logged-mono start k (k + 0) log h (omega arith)
cancel_phase-Logged start k x side true s log v h room =
    if_rule (Ensures (λ (r : SideState × Log). Logged start (k + 1) r.1)) (unfinished s.countdown) _
      _
      (λ u.
        Ensures-bind _ _ s.countdown.setup_episode_id _ (unfinished_id s v u)
          λ id _. emit-Logged start k (k + 1) x log _ _ _ _ _ _ h (omega arith) room)
      (λ _. Logged-mono start k (k + 1) log h (omega arith))

count_bar-Logged :
    (start k : ℕ) (x : BarContext) (b : Bar) (side : Side) (s : SideState) (id : Text) (log : Log)
    → Logged start k log
    → start + (k + 2) < modulus
    → Logged start (k + 2) (count_bar x b side s id log).1
unfolding count_bar
count_bar-Logged start k x b side s id log h room =
    Logged-mono start (k + 1 + 1) (k + 2) _
      (emit_if-Logged start (k + 1) _ x _ _ _ _ _ _ _
        (emit-Logged start k (k + 1) x log _ _ _ _ _ _ h (omega arith) (omega arith)) (omega arith))
      (omega arith)

count_or_defer-Logged :
    (start k : ℕ) (x : BarContext) (b : Bar) (side : Side) (s : SideState) (log : Log)
    → CountdownValid s
    → unfinished s.countdown ≡ true
    → Logged start k log
    → start + (k + 2) < modulus
    → Ensures (λ r. Logged start (k + 2) r.1) (count_or_defer x b side s log)
unfolding count_or_defer
count_or_defer-Logged start k x b side s log v u h room =
    Ensures-bind _ _ (terminal_ok b side s) _ (terminal_ok_total b side s v) λ admitted _.
      Ensures-bind _ _ s.countdown.setup_episode_id _ (unfinished_id s v u) λ id _.
        if_rule (λ (r : SideState × Log). Logged start (k + 2) r.1) admitted _ _
          (λ _. count_bar-Logged start k x b side s id log h room)
          (λ _. emit-Logged start k (k + 2) x log _ _ _ _ _ _ h (omega arith) room)

count_phase-Logged :
    (start k : ℕ) (x : BarContext) (history : List Bar) (b : Bar) (side : Side) (s : SideState)
    (log : Log)
    → CountdownValid s
    → Logged start k log
    → start + (k + 2) < modulus
    → Ensures (λ r. Logged start (k + 2) r.1) (count_phase x history b side s log)
unfolding count_phase
count_phase-Logged start k x history b side s log v h room =
    Ensures-bind _ _ (qualifies history b side s.countdown) _
      (qualifies-unfinished history b side s.countdown)
      λ counts u.
        if_rule (Ensures (λ (r : SideState × Log). Logged start (k + 2) r.1)) counts _ _
          (λ e. count_or_defer-Logged start k x b side s log v (u e) h room)
          (λ _. Logged-mono start k (k + 2) log h (omega arith))

recycle_id :
    (s : SideState)
    → CountdownValid s
    → not (is_idle s.countdown.state) ≡ true
    → Ensures (λ _. Unit {0}) s.countdown.setup_episode_id
recycle_id s v u = ground arith

recycle_phase-Logged :
    (start k : ℕ) (x : BarContext) (side : Side) (s : SideState) (log : Log)
    → CountdownValid s
    → Logged start k log
    → start + (k + 1) < modulus
    → Ensures (λ r. Logged start (k + 1) r.1) (recycle_phase x side s log)
unfolding recycle_phase
recycle_phase-Logged start k x side s log v h room =
    if_rule (Ensures (λ (r : SideState × Log). Logged start (k + 1) r.1))
      (s.setup_run == int 22 && not (is_idle s.countdown.state)) _ _
      (λ e.
        Ensures-bind _ _ s.countdown.setup_episode_id _ (recycle_id s v (ground arith))
          λ id _. emit-Logged start k (k + 1) x log _ _ _ _ _ _ h (omega arith) room)
      (λ _. Logged-mono start k (k + 1) log h (omega arith))

pub countdown_phase-Logged :
    (start k : ℕ) (x : BarContext) (history : List Bar) (b : Bar) (side : Side) (s : SideState)
    (log : Log)
    → CountdownValid s
    → Logged start k log
    → start + (k + 3) < modulus
    → Ensures (λ r. Logged start (k + 3) r.1) (countdown_phase x history b side s log)
unfolding countdown_phase
countdown_phase-Logged start k x history b side s log v h room =
    Ensures-bind _ _ (count_phase x history b side s log) _
      (Ensures-and _ _ (count_phase x history b side s log)
        (count_phase-CountdownValid x history b side s log v)
        (count_phase-Logged start k x history b side s log v h (omega arith)))
      λ r w.
        Ensures-mono _ _ (recycle_phase x side r.0 r.1)
          (recycle_phase-Logged start (k + 2) x side r.0 r.1 w.0 w.1 (omega arith))
          λ q l. Logged-mono start (k + 2 + 1) (k + 3) _ l (omega arith)
