-- ===== src/Sequential/Taking.antt =====
-- engine/sequential_execution.go, acceptEvents: its second loop, in which a candidate is taken.
use mathlib.Core.Path.{subst}
use heisentick_strat.Prelude.{
  ℕ, List, Option, Ensures, [], arith, false, if_rule, is_some, length, none, refl, some, true,
  ◌++◌, ◌<◌, ◌∷◌, ◌≡◌, Bool, Ensures-bind, ◌||◌,
}
use heisentick_strat.Broker.Types.{Arithmetic}
use heisentick_strat.Seqcore.Types.{Event}
use heisentick_strat.Sequential.Types.{
  Scheduler, Refusal, blocked_in_position, simultaneous_signal, ExecutionError,
}
use heisentick_strat.Sequential.Waiting.{Awaited, length-set_at, set_at-Awaited, taken-Awaited}
use heisentick_strat.Sequential.Scheduler.{
  Turn, halt, pass, View, accept_event, take_candidates, accept_events, add_candidate, both_sides,
  continued, Progress,
}
use heisentick_strat.Sequential.Fill.{reject, rejected_as, set_at}
use heisentick_strat.Sequential.Accepting.{
  Accepted, Accepting, Below, Below-weaken, TurnAccepting, accept_event-Accepting, reject_rule,
}

-- The second loop: each candidate is rejected or waits.
abbrev Taking : Scheduler → List ℕ → Scheduler → Type 0
Taking before candidates s =
    (s.core ≡ before.core)
    × (s.broker ≡ before.broker)
    × (s.hold ≡ before.hold)
    × Awaited s.pending candidates s.opportunities
    × (is_some s.pending ≡ true → s.broker.has_position ≡ false)
    × ((k : ℕ) → s.pending ≡ some k → k < length s.opportunities)
    × Below (length s.opportunities) candidates

reject-Taking :
    (before : Scheduler) (index : ℕ) (candidates : List ℕ) (s : Scheduler) (reason : Refusal)
    → Taking before (index ∷ candidates) s
    → Ensures (Taking before candidates) (reject s index reason)
reject-Taking before index candidates s reason t =
    reject_rule (Taking before candidates) s index reason (t.6).0 (λ o.
      let y = rejected_as reason o in
      let l = length-set_at index y s.opportunities in
      (
        t.0,
        t.1,
        t.2,
        set_at-Awaited s.pending candidates s.opportunities index y t.3 refl,
        t.4,
        (λ k e. let b = t.5 k e in omega arith),
        Below-weaken (length s.opportunities) (length (set_at index y s.opportunities)) candidates
            (omega arith) (t.6).1,
      ))

nothing_waits {ℓ} : {A : Type ℓ} (o : Option A) → is_some o ≡ false → o ≡ none
nothing_waits none e = refl
nothing_waits (some x) e = absurd (ground arith)

some_none {ℓ} : {A : Type ℓ} (o : Option A) → o ≡ none → is_some o ≡ true → ⊥
some_none none e h = ground arith
some_none (some x) e h = ground arith

take-Taking :
    (before : Scheduler) (index : ℕ) (candidates : List ℕ) (s : Scheduler)
    → s.broker.has_position || is_some s.pending ≡ false
    → Taking before (index ∷ candidates) s
    → Taking before candidates (record s { pending = some index })
take-Taking before index candidates s e t =
    let idle = nothing_waits s.pending (ground arith) in
    let w = subst (λ x. Awaited x (index ∷ candidates) s.opportunities) idle t.3 in
    let b = (t.6).0 in
    (
      t.0,
      t.1,
      t.2,
      taken-Awaited candidates s.opportunities index w,
      (λ _. ground arith),
      (λ k e'. let q : index ≡ k = ground arith in subst (λ x. x < length s.opportunities) q b),
      (t.6).1,
    )

take_candidates-Accepted :
    (two_sided : Bool) (before s : Scheduler) (candidates : List ℕ)
    → Taking before candidates s
    → Ensures (Accepted before) (take_candidates two_sided s candidates)
unfolding take_candidates
take_candidates-Accepted two_sided before s [] t = record {
  core = t.0;
  broker = t.1;
  hold = t.2;
  awaited = t.3;
  free = t.4;
  below = t.5;
}
take_candidates-Accepted two_sided before s (index ∷ candidates) t =
    Ensures-bind (Taking before candidates) (Accepted before) _
      (λ s'. take_candidates two_sided s' candidates)
      (if_rule (Ensures (Taking before candidates)) (s.broker.has_position || is_some s.pending) _ _
        (λ _. reject-Taking before index candidates s blocked_in_position t)
        (λ e.
          if_rule (Ensures (Taking before candidates)) two_sided _ _
            (λ _. reject-Taking before index candidates s simultaneous_signal t)
            (λ _. take-Taking before index candidates s e t)))
      (λ s' t'. take_candidates-Accepted two_sided before s' candidates t')

module _ (math : Arithmetic) (before : Scheduler) (i : ℕ) (v : View) where
  -- An error, or the events were accepted.
  abbrev pub EventsDone : Scheduler × Option ExecutionError → Type 0
  EventsDone (s, some e) = Unit
  EventsDone (s, none) = Accepted before s

  continued-EventsDone :
      (m : Option Scheduler) → Ensures (Accepted before) m → Ensures EventsDone (continued m)
  continued-EventsDone none h = h
  continued-EventsDone (some s) h = h

  turn_done :
      (candidates : List ℕ) (f : Scheduler → List ℕ → Progress) (turn : Turn)
      → TurnAccepting before candidates turn
      → ((s' : Scheduler) (cs : List ℕ) → Accepting before cs s' → Ensures EventsDone (f s' cs))
      → Ensures EventsDone (elim turn [
        | halt s' error ↦ some (s', some error)
        | pass s' candidate ↦ f s' (add_candidate math candidates candidate)
      ])
  turn_done candidates f (halt s' error) t k = tt
  turn_done candidates f (pass s' none) t k = k s' candidates t
  turn_done candidates f (pass s' (some c)) t k = k s' (candidates ++ c ∷ []) t

  pub accept_events-EventsDone :
      (s : Scheduler) (candidates : List ℕ) (events : List Event)
      → Accepting before candidates s
      → Ensures EventsDone (accept_events math s i v candidates events)
  unfolding accept_events
  accept_events-EventsDone s candidates [] a = continued-EventsDone _ (
      take_candidates-Accepted (both_sides s candidates) before s candidates (
        a.core,
        a.broker,
        a.hold,
        rw a.idle a.awaited,
        (λ e. absurd (some_none s.pending a.idle e)),
        (λ k e. absurd (some_none s.pending a.idle (rw e refl))),
        a.below,
      ))
  accept_events-EventsDone s candidates (e ∷ events) a =
      Ensures-bind (TurnAccepting before candidates) EventsDone (accept_event math s i v e) _
        (accept_event-Accepting math before candidates i v e s a)
        (λ turn t.
          turn_done candidates (λ s' cs. accept_events math s' i v cs events) turn t
            (λ s' cs a'. accept_events-EventsDone s' cs events a'))
