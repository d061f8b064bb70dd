-- ===== src/Seqcore/Invariant/Bar.antt =====
-- The phases of one accepted bar, together: what they leave of both sides and of the log.
use heisentick_strat.Prelude.{
  ℕ, Bool, Ensures, Ensures-and, Ensures-bind, Ensures-mono, Int64, List, arith, false, int, length,
  ltb, modulus, not, refl, true, ◌&&◌, ◌+◌, ◌<◌, ◌∙◌, ◌≡◌, ◌≤◌, ap,
}
use heisentick_strat.Seqcore.Types.{Bar, Identity, Side, buy, sell}
use heisentick_strat.Seqcore.Engine.{BarContext, Log, SideState, unfinished}
use heisentick_strat.Seqcore.Invariant.Countdown.{
  CountdownValid, cancel_phase-CountdownValid, count_phase-CountdownValid,
  countdown_phase-CountdownValid, setup_phase-CountdownValid,
}
use heisentick_strat.Seqcore.Invariant.Setup.{
  KeepsSetup, SetupDone, cancel_phase-KeepsSetup, count_phase-KeepsSetup, recycle_phase-KeepsSetup,
  setup_phase_done,
}
use heisentick_strat.Seqcore.Events.{
  Logged, cancel_events, cancel_phase-Logged, countdown_phase-Logged, setup_events,
  setup_phase-Logged, Logged-mono,
}
use heisentick_strat.Seqcore.Phases.{
  cancel_phase, count_phase, countdown_phase, next_run, recycle_phase, setup_phase,
}
use heisentick_strat.Seqcore.Step.{run, Opened, run_phases}

-- What P1 leaves of a side and its log.
setup_phase_all :
    (start k : ℕ) (x : BarContext) (id : Identity) (history : List Bar) (b : Bar)
    (comparison previous : Int64) (side : Side) (s : SideState) (log : Log)
    → (next_run side comparison previous s.setup_run ≡ int 9 → length history ≡ 4)
    → CountdownValid s
    → Logged start k log
    → start + (k + 3) < modulus
    → Ensures
        (λ r.
          CountdownValid r.0
          × (SetupDone side (next_run side comparison previous s.setup_run) comparison s r
              × Logged start (k + setup_events r.2) r.1))
        (setup_phase x id history b comparison previous side s log)
setup_phase_all start k x id history b comparison previous side s log four v h room =
    Ensures-and _ _ (setup_phase x id history b comparison previous side s log)
      (setup_phase-CountdownValid x id history b comparison previous side s log four v)
      (Ensures-and _ _ (setup_phase x id history b comparison previous side s log)
        (setup_phase_done x id history b comparison previous side s log four)
        (setup_phase-Logged start k x id history b comparison previous side s log four h room))

cancel_phase_all :
    (start k : ℕ) (x : BarContext) (side : Side) (done : Bool) (s : SideState) (log : Log)
    → CountdownValid s
    → Logged start k log
    → start + (k + 1) < modulus
    → Ensures
        (λ r.
          CountdownValid r.0
          × ((KeepsSetup s r.0 × (done ≡ true → unfinished r.0.countdown ≡ false))
              × Logged start (k + cancel_events done) r.1))
        (cancel_phase x side done s log)
cancel_phase_all start k x side done s log v h room =
    Ensures-and _ _ (cancel_phase x side done s log)
      (cancel_phase-CountdownValid x side done s log v)
      (Ensures-and _ _ (cancel_phase x side done s log)
        (cancel_phase-KeepsSetup x side done s log v)
        (cancel_phase-Logged start k x side done s log v h room))

KeepsSetup-trans : (s t u : SideState) → KeepsSetup s t → KeepsSetup t u → KeepsSetup s u
KeepsSetup-trans s t u h k = record {
  run = k.run ∙ h.run;
  active = k.active ∙ h.active;
  setup = k.setup ∙ h.setup;
  unfinished_before = λ e. h.unfinished_before (k.unfinished_before e);
}

countdown_phase-KeepsSetup :
    (x : BarContext) (history : List Bar) (b : Bar) (side : Side) (s : SideState) (log : Log)
    → CountdownValid s
    → Ensures (λ r. KeepsSetup s r.0) (countdown_phase x history b side s log)
unfolding countdown_phase
countdown_phase-KeepsSetup x history b side s log v =
    Ensures-bind _ _ (count_phase x history b side s log) _
      (Ensures-and _ _ (count_phase x history b side s log)
        (count_phase-CountdownValid x history b side s log v)
        (count_phase-KeepsSetup x history b side s log v))
      λ r w.
        Ensures-mono _ _ (recycle_phase x side r.0 r.1)
          (recycle_phase-KeepsSetup x side r.0 r.1 w.0) λ q k. KeepsSetup-trans s r.0 q.0 w.1 k

countdown_phase_all :
    (start k : ℕ) (x : BarContext) (history : List Bar) (b : Bar) (side : Side) (s : SideState)
    (log : Log)
    → CountdownValid s
    → Logged start k log
    → start + (k + 3) < modulus
    → Ensures
        (λ r. CountdownValid r.0 × (KeepsSetup s r.0 × Logged start (k + 3) r.1))
        (countdown_phase x history b side s log)
countdown_phase_all start k x history b side s log v h room =
    Ensures-and _ _ (countdown_phase x history b side s log)
      (countdown_phase-CountdownValid x history b side s log v)
      (Ensures-and _ _ (countdown_phase x history b side s log)
        (countdown_phase-KeepsSetup x history b side s log v)
        (countdown_phase-Logged start k x history b side s log v h room))

-- A side after the three phases, given the run that P1 computed.
pub record SideDone (run : Int64) (s : SideState) : Type 0 where
  pub countdown : CountdownValid s
  pub run_set : s.setup_run ≡ run
  pub active_set : s.setup_active ≡ ltb (int 0) run

abbrev pub one_unfinished : SideState → SideState → Bool
one_unfinished s t = not (unfinished s.countdown && unfinished t.countdown)

pub record PhasesDone (start k : ℕ) (buy_run sell_run : Int64) (r : SideState × SideState × Log)
    : Type 0 where
  pub buy_done : SideDone buy_run r.0
  pub sell_done : SideDone sell_run r.1
  pub one : one_unfinished r.0 r.1 ≡ true
  pub logged : Logged start (k + 11) r.2

-- At most one side completes a Setup, so P1 and P2 append five events at most.
setup_cancel_events :
    (d e : Bool)
    → (d ≡ true → e ≡ true → ⊥)
    → setup_events d + setup_events e + cancel_events e + cancel_events d ≤ 5
setup_cancel_events true true h = absurd (h refl refl)
setup_cancel_events true false h = omega arith
setup_cancel_events false true h = omega arith
setup_cancel_events false false h = omega arith

setup_events_le : (d : Bool) → (1 ≤ setup_events d) × (setup_events d ≤ 3) × (cancel_events d ≤ 1)
setup_events_le true = omega arith
setup_events_le false = omega arith

finish_side :
    (side : Side) (run comparison : Int64) (s t u w : SideState) (log : Log) (d : Bool)
    → SetupDone side run comparison s (t, log, d)
    → KeepsSetup t u
    → KeepsSetup u w
    → CountdownValid w
    → SideDone run w
finish_side side run comparison s t u w log d done k l v = record {
  countdown = v;
  run_set = l.run ∙ (k.run ∙ done.run_set);
  active_set = l.active ∙ (k.active ∙ done.active_set);
}

-- With one side unfinished before, one is after: a start on one side cancels the other. The
-- numbers follow the unfinished tests of either side through the phases.
one_bool :
    (d e s s1 s2 s3 t t1 t2 t3 : Bool)
    → not (s && t) ≡ true
    → (d ≡ false → s1 ≡ s)
    → (e ≡ false → t1 ≡ t)
    → (d ≡ true → e ≡ true → ⊥)
    → (s2 ≡ true → s1 ≡ true)
    → (t2 ≡ true → t1 ≡ true)
    → (e ≡ true → s2 ≡ false)
    → (d ≡ true → t2 ≡ false)
    → (s3 ≡ true → s2 ≡ true)
    → (t3 ≡ true → t2 ≡ true)
    → not (s3 && t3) ≡ true
one_bool d e s s1 s2 s3 t t1 t2 t3 one hd he ex k l ke ld m n = ground arith

pub run_phases_done :
    (start k : ℕ) (x : BarContext) (id : Identity) (b : Bar) (comparison : Int64) (o : Opened)
    → let rb = next_run buy comparison o.previous_comparison o.buy_side.setup_run in
      let rs = next_run sell comparison o.previous_comparison o.sell_side.setup_run in
      (rb ≡ int 9 → length o.history ≡ 4)
      → (rs ≡ int 9 → length o.history ≡ 4)
      → (rb ≡ int 9 → rs ≡ int 9 → ⊥)
      → CountdownValid o.buy_side
      → CountdownValid o.sell_side
      → one_unfinished o.buy_side o.sell_side ≡ true
      → Logged start k o.log
      → start + (k + 11) < modulus
      → Ensures (PhasesDone start k rb rs) (run_phases x id b comparison o)
unfolding run_phases
run_phases_done start k x id b comparison o buy_four sell_four ex vb vs one h room =
    let p = o.previous_comparison in
    Ensures-bind _ _ (setup_phase x id o.history b comparison p buy o.buy_side o.log) _
      (setup_phase_all start k x id o.history b comparison p buy o.buy_side o.log buy_four vb h
        (omega arith))
      λ r1 w1.
        Ensures-bind _ _ (setup_phase x id o.history b comparison p sell o.sell_side r1.1) _
          (setup_phase_all start (k + setup_events r1.2) x id o.history b comparison p sell
            o.sell_side r1.1 sell_four vs w1.1.1 (omega (arith, setup_events_le r1.2)))
          λ r2 w2.
            let exclusive : r1.2 ≡ true → r2.2 ≡ true → ⊥ =
              (λ d e. ex (ground (arith, w1.1.0.done_iff)) (ground (arith, w2.1.0.done_iff))) in
            let five = setup_cancel_events r1.2 r2.2 exclusive in
            Ensures-bind _ _ (cancel_phase x buy r2.2 r1.0 r2.1) _
              (cancel_phase_all start (k + setup_events r1.2 + setup_events r2.2) x buy r2.2 r1.0
                r2.1 w1.0 w2.1.1 (omega (arith, five)))
              λ r3 w3.
                Ensures-bind _ _ (cancel_phase x sell r1.2 r2.0 r3.1) _
                  (cancel_phase_all start
                    (k + setup_events r1.2 + setup_events r2.2 + cancel_events r2.2) x sell r1.2
                    r2.0 r3.1 w2.0 w3.1.1 (omega (arith, five)))
                  λ r4 w4.
                    Ensures-bind _ _ (countdown_phase x o.history b buy r3.0 r4.1) _
                      (countdown_phase_all start
                        (k
                          + setup_events r1.2
                          + setup_events r2.2
                          + cancel_events r2.2
                          + cancel_events r1.2)
                        x o.history b buy r3.0 r4.1 w3.0 w4.1.1 (omega (arith, five)))
                      λ r5 w5.
                        Ensures-bind _ _ (countdown_phase x o.history b sell r4.0 r5.1) _
                          (countdown_phase_all start
                            (k
                              + setup_events r1.2
                              + setup_events r2.2
                              + cancel_events r2.2
                              + cancel_events r1.2
                              + 3)
                            x o.history b sell r4.0 r5.1 w4.0 w5.1.1 (omega (arith, five)))
                          λ r6 w6. record {
                            buy_done =
                                finish_side buy _ comparison o.buy_side r1.0 r3.0 r5.0 r1.1 r1.2
                                  w1.1.0 w3.1.0.0 w5.1.0 w5.0;
                            sell_done =
                                finish_side sell _ comparison o.sell_side r2.0 r4.0 r6.0 r2.1 r2.2
                                  w2.1.0 w4.1.0.0 w6.1.0 w6.0;
                            one =
                                one_bool r1.2 r2.2 (unfinished o.buy_side.countdown)
                                  (unfinished r1.0.countdown) (unfinished r3.0.countdown)
                                  (unfinished r5.0.countdown) (unfinished o.sell_side.countdown)
                                  (unfinished r2.0.countdown) (unfinished r4.0.countdown)
                                  (unfinished r6.0.countdown) one
                                  (λ d. ap unfinished (w1.1.0.countdown_kept d))
                                  (λ e. ap unfinished (w2.1.0.countdown_kept e)) exclusive
                                  w3.1.0.0.unfinished_before w4.1.0.0.unfinished_before w3.1.0.1
                                  w4.1.0.1 w5.1.0.unfinished_before w6.1.0.unfinished_before;
                            logged = Logged-mono start _ (k + 11) r6.1 w6.1.1 (omega (arith, five));
                          }
