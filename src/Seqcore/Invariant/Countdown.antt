-- ===== src/Seqcore/Invariant/Countdown.antt =====
-- What holds of a side's Countdown between two bars, and that every phase keeps it.
use heisentick_strat.Prelude.{
  ◌≡◌, Bool, true, false, not, ◌&&◌, List, [], ◌∷◌, Int64, int, leb, Text, arith, length, is_some,
  Ensures-bind, get_elem?-is_some, Ensures, add64, ◌==◌, ◌-◌, if_rule, four_cases,
}
use heisentick_strat.Seqcore.Types.{Identity, Bar, Side, CountdownState, Countdown}
use heisentick_strat.Seqcore.Engine.{SideState, Log, BarContext, clear_countdown, unfinished}
use heisentick_strat.Seqcore.Phases.{
  gap_side, complete_setup, cancel_phase, qualifies, terminal_ok, count_bar, count_phase,
  recycle_phase, countdown_phase, is_idle, defer, count_or_defer, setup_phase, with_run,
  perfect_late, next_run,
}

abbrev pub is_known : CountdownState → Bool
is_known (CountdownState.unknown s) = false
is_known _ = true

abbrev pub is_completed : CountdownState → Bool
is_completed CountdownState.completed = true
is_completed _ = false

-- The count a state allows.
abbrev pub count_fits : CountdownState → Int64 → Bool
count_fits CountdownState.idle n = n == int 0
count_fits CountdownState.active n = leb (int 0) n && leb n (int 12)
count_fits CountdownState.deferred n = n == int 12
count_fits CountdownState.completed n = n == int 13
count_fits (CountdownState.unknown s) n = false

pub record CountdownValid (s : SideState) : Type 0 where
  pub fits : count_fits s.countdown.state s.countdown.count ≡ true
  pub id_set : is_some s.countdown.setup_episode_id ≡ not (is_idle s.countdown.state)
  pub bar5_set : is_some s.countdown.bar5_index ≡ leb (int 5) s.countdown.count
  pub bar8_set : is_some s.countdown.bar8_index ≡ leb (int 8) s.countdown.count
  pub bar13_set : is_some s.countdown.bar13_index ≡ leb (int 13) s.countdown.count
  pub close_set : is_some s.bar8_close ≡ leb (int 8) s.countdown.count

pub clear_countdown-CountdownValid : (s : SideState) → CountdownValid (clear_countdown s)
clear_countdown-CountdownValid s = ground arith

pub gap_side-CountdownValid :
    (s : SideState) (dropped : List Text)
    → CountdownValid s
    → Ensures (λ r. CountdownValid r.0) (gap_side s dropped)
unfolding gap_side
gap_side-CountdownValid s dropped v = ground arith

pub cancel_phase-CountdownValid :
    (x : BarContext) (side : Side) (done : Bool) (s : SideState) (log : Log)
    → CountdownValid s
    → Ensures (λ r. CountdownValid r.0) (cancel_phase x side done s log)
unfolding cancel_phase
cancel_phase-CountdownValid x side done s log v = ground arith

pub recycle_phase-CountdownValid :
    (x : BarContext) (side : Side) (s : SideState) (log : Log)
    → CountdownValid s
    → Ensures (λ r. CountdownValid r.0) (recycle_phase x side s log)
unfolding recycle_phase
recycle_phase-CountdownValid x side s log v = ground arith

count_bar-CountdownValid :
    (x : BarContext) (b : Bar) (side : Side) (s : SideState) (id : Text) (log : Log)
    → CountdownValid s
    → unfinished s.countdown ≡ true
    → CountdownValid (count_bar x b side s id log).0
unfolding count_bar add64
count_bar-CountdownValid x b side s id log v u = ground arith

pub terminal_ok_total :
    (b : Bar) (side : Side) (s : SideState)
    → CountdownValid s
    → Ensures (λ r. Unit {0}) (terminal_ok b side s)
unfolding terminal_ok
terminal_ok_total b side s v = ground arith

-- Only an unfinished Countdown qualifies, and the bar two before is there.
pub qualifies-unfinished :
    (history : List Bar) (b : Bar) (side : Side) (c : Countdown)
    → Ensures (λ q. q ≡ true → unfinished c ≡ true) (qualifies history b side c)
unfolding qualifies
qualifies-unfinished history b side c =
    ground (arith, get_elem?-is_some history (length history - 2))

defer-CountdownValid :
    (b : Bar) (side : Side) (s : SideState)
    → CountdownValid s
    → unfinished s.countdown ≡ true
    → Ensures (λ admitted. admitted ≡ false → CountdownValid (defer s)) (terminal_ok b side s)
unfolding terminal_ok
defer-CountdownValid b side s v u = ground arith

pub unfinished_id :
    (s : SideState)
    → CountdownValid s
    → unfinished s.countdown ≡ true
    → Ensures (λ _. Unit {0}) s.countdown.setup_episode_id
unfinished_id s v u = ground arith

count_or_defer-CountdownValid :
    (x : BarContext) (b : Bar) (side : Side) (s : SideState) (log : Log)
    → CountdownValid s
    → unfinished s.countdown ≡ true
    → Ensures (λ r. CountdownValid r.0) (count_or_defer x b side s log)
unfolding count_or_defer
count_or_defer-CountdownValid x b side s log v u =
    Ensures-bind _ _ (terminal_ok b side s) _ (defer-CountdownValid b side s v u) λ admitted d.
      Ensures-bind _ _ s.countdown.setup_episode_id _ (unfinished_id s v u) λ id _.
        if_rule (λ (r : SideState × Log). CountdownValid r.0) admitted _ _
          (λ _. count_bar-CountdownValid x b side s id log v u) d

pub count_phase-CountdownValid :
    (x : BarContext) (history : List Bar) (b : Bar) (side : Side) (s : SideState) (log : Log)
    → CountdownValid s
    → Ensures (λ r. CountdownValid r.0) (count_phase x history b side s log)
unfolding count_phase
count_phase-CountdownValid x history b side s log v =
    Ensures-bind _ _ (qualifies history b side s.countdown) _
      (qualifies-unfinished history b side s.countdown)
      λ counts u.
        if_rule (Ensures (λ r. CountdownValid r.0)) counts _ _
          (λ e. count_or_defer-CountdownValid x b side s log v (u e)) (λ _. v)

pub countdown_phase-CountdownValid :
    (x : BarContext) (history : List Bar) (b : Bar) (side : Side) (s : SideState) (log : Log)
    → CountdownValid s
    → Ensures (λ r. CountdownValid r.0) (countdown_phase x history b side s log)
unfolding countdown_phase
countdown_phase-CountdownValid x history b side s log v =
    Ensures-bind _ _ (count_phase x history b side s log) _
      (count_phase-CountdownValid x history b side s log v)
      λ r w. recycle_phase-CountdownValid x side r.0 r.1 w

-- A Setup may start a Countdown, and needs the four bars before.
complete_setup-CountdownValid :
    (x : BarContext) (id : Identity) (h0 h1 h2 h3 b : Bar) (side : Side) (s : SideState) (log : Log)
    → CountdownValid s
    → Ensures (λ r. CountdownValid r.0) (complete_setup x id (h0 ∷ h1 ∷ h2 ∷ h3 ∷ []) b side s log)
unfolding complete_setup
complete_setup-CountdownValid x id h0 h1 h2 h3 b side s log v = ground arith

pub setup_phase-CountdownValid :
    (x : BarContext) (id : Identity) (history : List Bar) (b : Bar) (comparison previous : Int64)
    (side : Side) (s : SideState) (log : Log)
    → (next_run side comparison previous s.setup_run ≡ int 9 → length history ≡ 4)
    → CountdownValid s
    → Ensures (λ r. CountdownValid r.0) (setup_phase x id history b comparison previous side s log)
unfolding setup_phase with_run perfect_late
setup_phase-CountdownValid x id history b comparison previous side s log four v =
    if_rule (Ensures (λ (r : SideState × Log × Bool). CountdownValid r.0))
      (next_run side comparison previous s.setup_run == int 9) _ _
      (λ nine.
        Ensures-bind (λ r. CountdownValid r.0) _
          (complete_setup x id history b side
            (with_run s (next_run side comparison previous s.setup_run)) log)
          _
          (four_cases
            (λ h.
              Ensures (λ r. CountdownValid r.0)
                (complete_setup x id h b side
                  (with_run s (next_run side comparison previous s.setup_run)) log))
            (λ h0 h1 h2 h3.
              complete_setup-CountdownValid x id h0 h1 h2 h3 b side _ log (ground arith))
            history (four (ground arith)))
          λ r w. w)
      (λ _. ground arith)
