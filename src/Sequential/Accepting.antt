-- ===== src/Sequential/Accepting.antt =====
-- engine/sequential_execution.go, acceptEvents: it never panics, and leaves at most one pending
-- opportunity, which waits for a fill.
use heisentick_strat.Prelude.{
  ℕ, List, Option, All, Ensures, All-append, Option-cases, [], arith, false, get_elem?,
  get_elem?-is_some, if_rule, inl, inr, is_some, length, length-snoc, ltb, none, refl, some, suc,
  true, ◌&&◌, ◌++◌, ◌-◌, ◌<◌, ◌∷◌, ◌≡◌, ◌≤◌, Text, bytes, is_finite, not,
}
use heisentick_strat.Broker.Types.{Arithmetic, Side}
use heisentick_strat.Broker.Ledger.{side_float}
use heisentick_strat.Seqcore.Types.{Event}
use heisentick_strat.Sequential.Types.{
  Scheduler, Opportunity, Anchor, Refusal, signal_expired, warmup, stop_field,
}
use heisentick_strat.Sequential.Waiting.{
  Awaited, last-Awaited, length-set_at, set_at-Awaited, snoc-Awaited,
}
use heisentick_strat.Sequential.Scheduler.{
  Turn, admit, halt, is_e1, pass, passed, View, accept_event, anchored, consider, decide,
  direction_of, find_anchor, is_member, is_setup, propose, trigger_of, extreme_of, opportunity_of,
}
use heisentick_strat.Sequential.Fill.{put, reject, rejected_as, set_at, derived_error}

abbrev pub Below : ℕ → List ℕ → Type 0
Below n = All (λ k. k < n)

-- While events are accepted: the core, broker and hold are those of the start, and nothing waits.
pub record Accepting (before : Scheduler) (candidates : List ℕ) (s : Scheduler) : Type 0 where
  pub core : s.core ≡ before.core
  pub broker : s.broker ≡ before.broker
  pub hold : s.hold ≡ before.hold
  pub idle : s.pending ≡ none
  pub awaited : Awaited none candidates s.opportunities
  pub below : Below (length s.opportunities) candidates

-- After events were accepted.
pub record Accepted (before s : Scheduler) : Type 0 where
  pub core : s.core ≡ before.core
  pub broker : s.broker ≡ before.broker
  pub hold : s.hold ≡ before.hold
  pub awaited : Awaited s.pending [] s.opportunities
  pub free : is_some s.pending ≡ true → s.broker.has_position ≡ false
  pub below : (k : ℕ) → s.pending ≡ some k → k < length s.opportunities

pub Below-weaken : (n m : ℕ) (ks : List ℕ) → n ≤ m → Below n ks → Below m ks
Below-weaken n m [] le h = tt
Below-weaken n m (k ∷ ks) le h = (omega arith, Below-weaken n m ks le h.1)

-- An index that exists is rejected.
pub reject_rule :
    (F : Scheduler → Type 0) (s : Scheduler) (index : ℕ) (reason : Refusal)
    → index < length s.opportunities
    → ((o : Opportunity) → F (put s index (rejected_as reason o)))
    → Ensures F (reject s index reason)
unfolding reject
reject_rule F s index reason h k =
    let i = get_elem?-is_some s.opportunities index h in
    elim (Option-cases (get_elem? s.opportunities index)) [
      | inl e ↦ absurd (ground arith)
      | inr (o, e) ↦ rw e (k o)
    ]

abbrev pub TurnAccepting : Scheduler → List ℕ → Turn → Type 0
TurnAccepting before candidates (pass s none) = Accepting before candidates s
TurnAccepting before candidates (pass s (some k)) = Accepting before (candidates ++ k ∷ []) s
TurnAccepting before candidates (halt s e) = Unit

passed-Accepting :
    (before : Scheduler) (candidates : List ℕ) (m : Option Scheduler)
    → Ensures (Accepting before candidates) m
    → Ensures (TurnAccepting before candidates) (passed m)
passed-Accepting before candidates none h = h
passed-Accepting before candidates (some s) h = h

admit-Accepting :
    (before : Scheduler) (candidates : List ℕ) (s : Scheduler) (i : ℕ) (anchor : Anchor)
    (o : Opportunity)
    → Accepting before candidates s
    → Ensures (TurnAccepting before candidates) (admit s i anchor o)
unfolding admit
admit-Accepting before candidates s i anchor o a =
    let n = length s.opportunities in
    let s' = record s { opportunities = s.opportunities ++ o ∷ [] } in
    let l : length s'.opportunities ≡ suc n = length-snoc s.opportunities o in
    let b : Below (length s'.opportunities) candidates =
      Below-weaken n (length s'.opportunities) candidates (omega arith) a.below in
    let w = snoc-Awaited none candidates s.opportunities o a.awaited in
    let refused : (reason : Refusal)
        → Ensures (TurnAccepting before candidates) (passed (reject s' n reason)) =
      λ reason. passed-Accepting before candidates (reject s' n reason) (
        reject_rule (Accepting before candidates) s' n reason (omega arith) (λ o'. record {
          core = a.core;
          broker = a.broker;
          hold = a.hold;
          idle = a.idle;
          awaited =
              set_at-Awaited none candidates s'.opportunities n (rejected_as reason o') w refl;
          below =
              Below-weaken (length s'.opportunities)
                (length (set_at n (rejected_as reason o') s'.opportunities)) candidates
                (omega (arith, length-set_at n (rejected_as reason o') s'.opportunities)) b;
        })) in
    if_rule (Ensures (TurnAccepting before candidates)) (ltb i 13) _ _ (λ _. refused warmup)
      (λ _.
        if_rule (Ensures (TurnAccepting before candidates))
          (is_e1 s.spec && ltb 4 (i - anchor.completion)) _ _ (λ _. refused signal_expired)
          (λ _. record {
            core = a.core;
            broker = a.broker;
            hold = a.hold;
            idle = a.idle;
            awaited = last-Awaited none candidates s'.opportunities n w;
            below =
                All-append (λ k. k < length s'.opportunities) candidates (n ∷ []) b
                  (omega arith, tt);
          }))

module _ (math : Arithmetic) (before : Scheduler) (candidates : List ℕ) (i : ℕ) (v : View)
    (e : Event) where
  abbrev Fine : Option Turn → Type 0
  Fine = Ensures (TurnAccepting before candidates)

  propose-Accepting :
      (s : Scheduler) (trigger id : Text) (anchor : Anchor) (side : Side)
      → Accepting before candidates s
      → Fine (propose math s i v e trigger id anchor side)
  unfolding propose
  propose-Accepting s trigger id anchor side a =
      let stop =
        math.minus (extreme_of math s.spec i v anchor side)
          (math.times (side_float math side) (math.times math.one_tenth v.atr)) in
      let o = opportunity_of i v e trigger id anchor side stop in
      let h = admit-Accepting before candidates s i anchor o a in
      if_rule Fine (not (is_finite stop)) (some (halt s (derived_error stop_field i id)))
        (admit s i anchor o) (λ _. tt) (λ _. h)

  decide-Accepting :
      (s : Scheduler) (trigger id : Text) (anchor : Option Anchor) (side : Option Side)
      → Accepting before candidates s
      → Fine (decide math s i v e trigger id anchor side)
  unfolding decide
  decide-Accepting s trigger id none side a = tt
  decide-Accepting s trigger id (some anchor) none a = tt
  decide-Accepting s trigger id (some anchor) (some side) a =
      propose-Accepting s trigger id anchor side a

  seen-Accepting :
      (s : Scheduler) (seen : List Text)
      → Accepting before candidates s
      → Accepting before candidates (record s { seen = seen })
  seen-Accepting s seen a = record {
    core = a.core;
    broker = a.broker;
    hold = a.hold;
    idle = a.idle;
    awaited = a.awaited;
    below = a.below;
  }

  consider-Accepting :
      (s : Scheduler) (trigger : Option Text)
      → Accepting before candidates s
      → Fine (consider math s i v e trigger)
  unfolding consider
  consider-Accepting s none a = a
  consider-Accepting s (some trigger) a =
      if_rule Fine (is_member (e.episode_id ++ bytes ":" ++ trigger) s.seen) _ _ (λ _. a)
        (λ _.
          decide-Accepting _ trigger _ (find_anchor e.episode_id s.setups) (direction_of e.side)
            (seen-Accepting s _ a))

  anchored-Accepting :
      (s : Scheduler)
      → Accepting before candidates s
      → Accepting before candidates (anchored s i v e)
  anchored-Accepting s a =
      if_rule (Accepting before candidates) (is_setup e.kind) _ _
        (λ _. record {
          core = a.core;
          broker = a.broker;
          hold = a.hold;
          idle = a.idle;
          awaited = a.awaited;
          below = a.below;
        })
        (λ _. a)

  pub accept_event-Accepting :
      (s : Scheduler) → Accepting before candidates s → Fine (accept_event math s i v e)
  unfolding accept_event
  accept_event-Accepting s a =
      if_rule Fine (is_setup e.kind && ltb i 8) _ _ (λ _. tt)
        (λ _.
          consider-Accepting (anchored s i v e) (trigger_of s.spec e.kind) (anchored-Accepting s a))
