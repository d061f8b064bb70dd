-- ===== src/Sequential/Resolution.antt =====
-- engine/sequential_execution.go: what holds at the end of a run over a series.
use mathlib.Core.Path.{subst}
use heisentick_strat.Prelude.{
  ℕ, List, Option, Ensures, IsWord, Ensures-bind, Float, [], arith, false, length, none, refl, some,
  suc, true, ◌+◌, ◌∷◌, ◌≡◌, All, Bool-cases, get_elem?, inl, inr, ◌⊎◌, Bool, if◌then◌else◌, ◌>>=◌,
  is_some, ◌∙◌,
}
use heisentick_strat.Broker.Types.{Arithmetic, Broker, Candle, Costs, Collector}
use heisentick_strat.Broker.Agreement.{Agrees, AccountsAgree}
use heisentick_strat.Broker.Accounts.{mark-Agrees}
use heisentick_strat.Closures.{timeframe_step}
use heisentick_strat.Sequential.Types.{Scheduler, ExecutionError, Spec, Opportunity, no_next_bar}
use heisentick_strat.Sequential.Atr.{compute_atr}
use heisentick_strat.Sequential.Scheduler.{Progress, scheduler_step}
use heisentick_strat.Sequential.Validity.{Stepped, Valid, scheduler_step-Stepped}
use heisentick_strat.Sequential.Holding.{Timed, next-Timed, Brief, Held}
use heisentick_strat.Sequential.Run.{
  mark_step, marked, next_bar, run_steps, captured, StartError, refuse_waiting, with_timeframe,
  finalized, finish_run, held_error, new_scheduler, refuse_pending, run_sequential, run_started,
}
use heisentick_strat.Sequential.Waiting.{
  Awaited, is_pending, listed, released-Awaited, set_at-Awaited,
}
use heisentick_strat.Sequential.Fill.{reject, rejected_as}
use heisentick_strat.Sequential.Accepting.{reject_rule}
use heisentick_strat.Sequential.Start.{
  StartValid, capture_of, length-compute_atr, timeframe-IsWord, with_timeframe-StartValid,
}

module _ (math : Arithmetic) (same : (x : Float) → math.identical x x ≡ true)
    (to_word : (x : Float) → IsWord (math.to_int64 x)) (is_captured : Bool) where
  marked-Agrees :
      (i : ℕ) (bar : Candle) (b : Broker) (o : Option Collector)
      → b.accounting ≡ o
      → AccountsAgree i b o
      → Agrees (suc i) (marked math b i bar o)
  marked-Agrees i bar b none e h = rw e tt
  marked-Agrees i bar b (some c) e h = mark-Agrees math same i b c bar h

  marked-Timed :
      (hold i : ℕ) (bar : Candle) (b : Broker) (o : Option Collector)
      → Timed hold i (suc i) b
      → Timed hold i (suc i) (marked math b i bar o)
  marked-Timed hold i bar b none h = h
  marked-Timed hold i bar b (some c) h = h

  marked-flat :
      (i : ℕ) (bar : Candle) (b : Broker) (o : Option Collector)
      → b.has_position ≡ false
      → (marked math b i bar o).has_position ≡ false
  marked-flat i bar b none h = h
  marked-flat i bar b (some c) h = h

  marked-captured :
      (i : ℕ) (bar : Candle) (b : Broker) (o : Option Collector)
      → b.accounting ≡ o
      → is_some (marked math b i bar o).accounting ≡ is_some b.accounting
  marked-captured i bar b none e = refl
  marked-captured i bar b (some c) e = rw e refl

  pub mark_step-Valid :
      (i : ℕ) (bar : Candle) (s : Scheduler)
      → Valid is_captured i (suc i) s
      → Valid is_captured (suc i) (suc i) (mark_step math i bar s)
  mark_step-Valid i bar s v = record {
    engine = v.engine;
    held = (
      marked-Agrees i bar s.broker s.broker.accounting refl v.held.0,
      next-Timed s.hold i (marked math s.broker i bar s.broker.accounting)
          (marked-Timed s.hold i bar s.broker s.broker.accounting v.held.1),
      marked-captured i bar s.broker s.broker.accounting refl ∙ v.held.2,
    );
    positive = v.positive;
    awaited = v.awaited;
    free = λ e. marked-flat i bar s.broker s.broker.accounting (v.free e);
    below = v.below;
  }

  -- An error, or what holds after n bars.
  abbrev pub RunValid : ℕ → Scheduler × Option ExecutionError → Type 0
  RunValid n (s, some e) = Unit
  RunValid n (s, none) = Valid is_captured n n s

  next_bar-RunValid :
      (i n : ℕ) (bar : Candle) (continue : Scheduler → Progress)
      (r : Scheduler × Option ExecutionError)
      → Stepped is_captured i r
      → ((s : Scheduler) → Valid is_captured (suc i) (suc i) s → Ensures (RunValid n) (continue s))
      → Ensures (RunValid n) (next_bar math i bar continue r)
  next_bar-RunValid i n bar continue (s, some e) h k = tt
  next_bar-RunValid i n bar continue (s, none) h k =
      k (mark_step math i bar s) (mark_step-Valid i bar s h)

  run_steps-RunValid :
      (s : Scheduler) (i n : ℕ) (past : List Candle) (atrs : List Float) (bars : List Candle)
      → length atrs ≡ length bars
      → n ≡ i + length bars
      → Valid is_captured i i s
      → Ensures (RunValid n) (run_steps math s i past atrs bars)
  unfolding run_steps
  run_steps-RunValid s i n past atrs [] l e v = subst (λ k. Valid is_captured k k s) (omega arith) v
  run_steps-RunValid s i n past [] (bar ∷ bars) l e v = absurd (omega arith)
  run_steps-RunValid s i n past (atr ∷ atrs) (bar ∷ bars) l e v =
      Ensures-bind (Stepped is_captured i) (RunValid n)
        (scheduler_step math s i (record { past = bar ∷ past; atr = atr }) bar false)
        (next_bar math i bar (λ s'. run_steps math s' (i + 1) (bar ∷ past) atrs bars))
        (scheduler_step-Stepped math same to_word is_captured s i
          (record { past = bar ∷ past; atr = atr }) bar false v)
        (λ r h.
          next_bar-RunValid i n bar (λ s'. run_steps math s' (i + 1) (bar ∷ past) atrs bars) r h
            (λ s' v'.
              run_steps-RunValid s' (i + 1) n (bar ∷ past) atrs bars (omega arith) (omega arith)
                (subst (λ k. Valid is_captured k k s') (omega arith) v')))

module _ (math : Arithmetic) (same : (x : Float) → math.identical x x ≡ true)
    (to_word : (x : Float) → IsWord (math.to_int64 x)) where
  -- The end of a finalized run, without an error.
  pub record Finished (n : ℕ) (s : Scheduler) : Type 0 where
    pub accounts : Agrees n s.broker
    pub brief : All (Brief s.hold) s.broker.trades
    pub flat : s.broker.has_position ≡ false
    pub idle : s.pending ≡ none
    pub resolved :
        (k : ℕ) (o : Opportunity)
        → get_elem? s.opportunities k ≡ some o
        → is_pending o.status ≡ false

  abbrev pub RunDone : ℕ → (Scheduler × Option ExecutionError) ⊎ StartError → Type 0
  RunDone n (inr e) = Unit
  RunDone n (inl (s, some e)) = Unit
  RunDone n (inl (s, none)) = Finished n s

  -- After the pending opportunity was refused.
  abbrev pub Refused : Bool → ℕ → Scheduler → Type 0
  Refused is_captured n s =
      Held is_captured s.hold n n s.broker × (s.pending ≡ none) × Awaited none [] s.opportunities

  pub refuse_waiting-Refused :
      (is_captured : Bool) (n : ℕ) (s : Scheduler) (waiting : Option ℕ)
      → s.pending ≡ waiting
      → Valid is_captured n n s
      → Ensures (Refused is_captured n) (refuse_waiting math s waiting)
  refuse_waiting-Refused is_captured n s none e v =
      (v.held, e, subst (λ x. Awaited x [] s.opportunities) e v.awaited)
  refuse_waiting-Refused is_captured n s (some index) e v =
      let w =
        released-Awaited s.opportunities index
          (subst (λ x. Awaited x [] s.opportunities) e v.awaited) in
      let F : Scheduler → Type 0 = λ s'. Refused is_captured n (record s' { pending = none }) in
      Ensures-bind F (Refused is_captured n) (reject s index no_next_bar)
        (λ s'. some (record s' { pending = none }))
        (reject_rule F s index no_next_bar (v.below index e) (λ o. (
          v.held,
          refl,
          set_at-Awaited none [] s.opportunities index (rejected_as no_next_bar o) w refl,
        )))
        (λ s' f. f)

  all_resolved :
      (os : List Opportunity)
      → Awaited none [] os
      → (k : ℕ) (o : Opportunity) → get_elem? os k ≡ some o
      → is_pending o.status ≡ false
  unfolding listed
  all_resolved os h k o e = elim (Bool-cases (is_pending o.status)) [
    | inl p ↦ let a = h k o e p in ground arith
    | inr p ↦ p
  ]

  abbrev Ended : ℕ → Scheduler × Option ExecutionError → Type 0
  Ended n (s, some e) = Unit
  Ended n (s, none) = Finished n s

  finalized-Ended :
      (is_captured : Bool) (n bars : ℕ) (s : Scheduler)
      → Valid is_captured n n s
      → Ensures (Ended n) (finalized math bars s)
  unfolding finalized refuse_pending
  finalized-Ended is_captured n bars s v =
      Ensures-bind (Refused is_captured n) (Ended n) (refuse_waiting math s s.pending)
        (λ s'.
          some (s', if s'.broker.has_position then some (held_error math bars s'.broker) else none))
        (refuse_waiting-Refused is_captured n s s.pending refl v)
        (λ s' r. ended_cases s' r s'.broker.has_position refl)
    where
      ended_cases :
          (s' : Scheduler)
          → Refused is_captured n s'
          → (held : Bool) → s'.broker.has_position ≡ held
          → Ended n (s', if held then some (held_error math bars s'.broker) else none)
      ended_cases s' r true e = tt
      ended_cases s' r false e = record {
        accounts = r.0.0;
        brief = (r.0.1).1;
        flat = e;
        idle = r.1;
        resolved = all_resolved s'.opportunities r.2;
      }

  finish_run-Ended :
      (is_captured : Bool) (n : ℕ) (r : Scheduler × Option ExecutionError)
      → RunValid math same to_word is_captured n r
      → Ensures (Ended n) (finish_run math true n r)
  finish_run-Ended is_captured n (s, some e) h = tt
  finish_run-Ended is_captured n (s, none) h = finalized-Ended is_captured n n s h

  Ended-RunDone : (n : ℕ) (r : Scheduler × Option ExecutionError) → Ended n r → RunDone n (inl r)
  Ended-RunDone n (s, some e) h = tt
  Ended-RunDone n (s, none) h = h

  run_started-RunDone :
      (bars : List Candle) (start : Option Float) (r : Scheduler ⊎ StartError)
      → StartValid math start r
      → Ensures
          (RunDone (length bars))
          (run_started math bars (compute_atr math bars 14) true (capture_of math start) r)
  run_started-RunDone bars start (inr e) h = tt
  run_started-RunDone bars start (inl s) h =
      let n = length bars in
      let is_captured = is_some (capture_of math start) in
      let s0 = captured math s (capture_of math start) in
      Ensures-bind (Ended n) (RunDone n)
        (run_steps math s0 0 [] (compute_atr math bars 14) bars >>= finish_run math true n)
        (λ r. some (inl r))
        (Ensures-bind (RunValid math same to_word is_captured n) (Ended n)
          (run_steps math s0 0 [] (compute_atr math bars 14) bars) (finish_run math true n)
          (run_steps-RunValid math same to_word is_captured s0 0 n [] (compute_atr math bars 14)
            bars (length-compute_atr math bars 14) (omega arith) h.0)
          (λ r v. finish_run-Ended is_captured n r v))
        (λ r e. Ended-RunDone n r e)

  -- With bitwise comparison of floats reflexive and conversions to int64 in range, a finalized run
  -- of the sequential scheduler, with a new collector or none, never panics; when it returns no
  -- error, no opportunity is pending, the broker is flat, no trade lasted longer than the hold of
  -- the policy, and the collector has an error about a value only or the realized amount, trades,
  -- events and one mark for each bar of the broker.
  pub run_sequential-RunDone :
      (spec : Spec) (costs : Costs) (bars : List Candle) (start : Option Float)
      → Ensures
          (RunDone (length bars))
          (run_sequential math spec costs bars true (capture_of math start))
  unfolding run_sequential new_scheduler
  run_sequential-RunDone spec costs bars start =
      let atr = compute_atr math bars 14 in
      run_started-RunDone bars start
        (with_timeframe math spec costs atr (timeframe_step spec.timeframe))
        (with_timeframe-StartValid math spec costs atr start (timeframe_step spec.timeframe)
          (λ x e. timeframe-IsWord math spec.timeframe x e))
