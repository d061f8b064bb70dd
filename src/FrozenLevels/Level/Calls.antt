-- ===== src/FrozenLevels/Level/Calls.antt =====
-- A level over any sequence of calls of Observe and ResolveAdmission.
use mathlib.Core.Path.{subst}
use heisentick_strat.Prelude.{
  ℕ, Bool, Ensures, Ensures-and, Ensures-bind, List, Option, Option-cases, [], arith, false, inl,
  inr, none, refl, some, true, ◌+◌, ◌++◌, ◌>>=◌, ◌∷◌, ◌≡◌, sym, if◌then◌else◌,
}
use heisentick_strat.FrozenLevels.Level.Lifecycle.{
  AdmissionOutcome, Level, LevelEvent, LevelEventKind, LevelLibrary, LevelQuote, LevelState,
  admit_or_skip, invalidate, is_terminal, level_event, observe, observe_active, observe_crossing,
  observe_pending, resolve, resolve_admission,
}
use heisentick_strat.FrozenLevels.Types.{EventKey, Quote}
use heisentick_strat.FrozenLevels.Level.Invariant.{
  LevelValid, SpecValid, is_active_eq, is_pending_eq, observation_passed, observe_cases,
  observe_valid, previous-LevelValid, resolve_admission_valid,
}

-- The arguments of Observe or of ResolveAdmission.
pub data Call : Type 0 where
  observing : LevelQuote → Bool → Bool → Call
  resolving : EventKey → AdmissionOutcome → Call

abbrev pub option_events : Option LevelEvent → List LevelEvent
option_events none = []
option_events (some e) = e ∷ []

abbrev ends_level : LevelEventKind → Bool
ends_level LevelEventKind.expired = true
ends_level LevelEventKind.invalidated = true
ends_level LevelEventKind.consumed = true
ends_level _ = false

-- The events that say that the level ended.
abbrev pub endings : List LevelEvent → ℕ
endings [] = 0
endings (e ∷ es) = (if ends_level e.kind then 1 else 0) + endings es

abbrev pub ended : LevelState → ℕ
ended s = if is_terminal s then 1 else 0

endings-append : (es fs : List LevelEvent) → endings (es ++ fs) ≡ endings es + endings fs
endings-append [] fs = omega arith
endings-append (e ∷ es) fs = let ih = endings-append es fs in omega (arith, ih)

-- Every end is told by one event, and the specification stays.
abbrev Told : Level → Level → List LevelEvent → Type 0
Told m m' events = (m'.spec ≡ m.spec) × (endings events + ended m.state ≡ ended m'.state)

module _ (lib : LevelLibrary) where
  pub perform : Level → Call → Option (Level × List LevelEvent)
  perform m (observing o continuity busy) =
      observe lib m o continuity busy >>= λ r. some (r.level, r.events)
  perform m (resolving at outcome) = some (
    (resolve_admission lib m at outcome).0,
    option_events (resolve_admission lib m at outcome).1.0,
  )

  -- The level after the calls, with all their events.
  pub perform_all : Level → List Call → Option (Level × List LevelEvent)
  unfolding perform
  perform_all m [] = some (m, [])
  perform_all m (call ∷ calls) =
      perform m call >>= λ r. perform_all r.0 calls >>= λ last. some (last.0, r.1 ++ last.1)

  observe_crossing-Told :
      (m : Level) (q : Quote) (busy : Bool)
      → m.state ≡ LevelState.active
      → Told m (observe_crossing lib m q busy).level (observe_crossing lib m q busy).events
  unfolding observe_crossing level_event
  observe_crossing-Told m q busy a = ground arith

  observe_active-Told :
      (m : Level) (before : Option Quote) (q : Quote) (busy : Bool)
      → m.state ≡ LevelState.active
      → Told m
          (observe_active lib m before q busy).level
          (observe_active lib m before q busy).events
  unfolding observe_active level_event
  observe_active-Told m none q busy a = ground arith
  observe_active-Told m (some p) q busy a =
      ground (arith, observe_crossing-Told (record m { armed = false }) q busy a)

  admit_or_skip-Told :
      (m : Level) (pending_signal q : Quote) (busy : Bool)
      → m.state ≡ LevelState.pending
      → Told m
          (admit_or_skip lib m pending_signal q busy).level
          (admit_or_skip lib m pending_signal q busy).events
  unfolding admit_or_skip invalidate level_event
  admit_or_skip-Told m pending_signal q busy p = ground arith

  observe_pending-Told :
      (m : Level) (q : Quote) (busy : Bool)
      → LevelValid m
      → m.state ≡ LevelState.pending
      → Ensures (λ r. Told m r.level r.events) (observe_pending lib m q busy)
  unfolding observe_pending
  observe_pending-Told m q busy v p = elim (Option-cases m.signal) [
    | inl e ↦ absurd (ground (arith, v.pending_signal p))
    | inr (pending_signal, e) ↦
        rw (e, observe_pending) (admit_or_skip-Told m pending_signal q busy p)
  ]

  observe-Told :
      (m : Level) (o : LevelQuote) (continuity busy : Bool)
      → LevelValid m
      → Ensures (λ r. Told m r.level r.events) (observe lib m o continuity busy)
  unfolding invalidate level_event
  observe-Told m o continuity busy v =
      observe_cases lib (Ensures (λ r. Told m r.level r.events)) m o continuity busy
        (λ t. (refl, omega arith)) (λ reason t e. (refl, ground arith))
        (λ t e l. (refl, ground arith))
        (λ t e l p.
          observe_pending-Told (record m { previous = some o.quote }) o.quote busy
            (previous-LevelValid lib m o.quote v) (is_pending_eq lib m.state p))
        (λ t e l p.
          observe_active-Told (record m { previous = some o.quote }) m.previous o.quote busy
            (is_active_eq lib m.state t p (observation_passed lib m o continuity e).5))

  resolve_admission-Told :
      (m : Level) (at : EventKey) (outcome : AdmissionOutcome)
      → Told m
          (resolve_admission lib m at outcome).0
          (option_events (resolve_admission lib m at outcome).1.0)
  unfolding resolve_admission resolve level_event
  resolve_admission-Told m at outcome = ground arith

  -- The level of a result is valid again.
  abbrev Performed : Level → Level × List LevelEvent → Type 0
  Performed m r = LevelValid r.0 × Told m r.0 r.1

  perform-Performed :
      (m : Level) (call : Call)
      → SpecValid m.spec
      → LevelValid m
      → Ensures (Performed m) (perform m call)
  unfolding perform
  perform-Performed m (observing o continuity busy) sp v =
      Ensures-bind _ (Performed m) (observe lib m o continuity busy) (λ r. some (r.level, r.events))
        (Ensures-and (λ r. LevelValid r.level) (λ r. Told m r.level r.events)
          (observe lib m o continuity busy) (observe_valid lib m o continuity busy sp v)
          (observe-Told m o continuity busy v))
        (λ r h. h)
  perform-Performed m (resolving at outcome) sp v =
      (resolve_admission_valid lib m at outcome v, resolve_admission-Told m at outcome)

  -- Any sequence of calls of Observe and ResolveAdmission on a level in its invariant, whose
  -- specification has valid times, does not panic and keeps the invariant, and the number of events
  -- that say that the level expired, was invalidated or was consumed is 1 when the level ended in
  -- these calls, and 0 otherwise.
  pub ended_once :
      (m : Level) (calls : List Call)
      → SpecValid m.spec
      → LevelValid m
      → Ensures
          (λ r. LevelValid r.0 × (endings r.1 + ended m.state ≡ ended r.0.state))
          (perform_all m calls)
  unfolding perform_all
  ended_once m [] sp v = (v, omega arith)
  ended_once m (call ∷ calls) sp v =
      Ensures-bind (Performed m)
        (λ r. LevelValid r.0 × (endings r.1 + ended m.state ≡ ended r.0.state)) (perform m call) _
        (perform-Performed m call sp v)
        (λ r h.
          Ensures-bind (λ z. LevelValid z.0 × (endings z.1 + ended r.0.state ≡ ended z.0.state))
            (λ z. LevelValid z.0 × (endings z.1 + ended m.state ≡ ended z.0.state))
            (perform_all r.0 calls) _ (ended_once r.0 calls (subst SpecValid (sym h.1.0) sp) h.0)
            (λ last k. (
              k.0,
              let a = endings-append r.1 last.1 in
                  let b = h.1.1 in let c = k.1 in omega (arith, a, b, c),
            )))
