-- ===== src/FrozenLevels/Level/Moves.antt =====
-- The moves of a level, and what each of them needs.
use mathlib.Core.Path.{subst}
use heisentick_strat.Prelude.{
  Bool, add64, arith, bias, false, none, some, sub64, true, ◌+◌, ◌<◌, ◌≡◌, Option, leb, refl, ◌||◌,
  ◌≢◌, ◌≤◌, Ensures, ◌↔◌, Option-cases, inl, inr, sym,
}
use heisentick_strat.FrozenLevels.Level.Lifecycle.{
  AdmissionOutcome, Level, LevelLibrary, LevelQuote, LevelState, admit_or_skip, inside, invalidate,
  is_terminal, observe, observe_active, observe_crossing, resolve_admission, Observed, is_stale,
  observation_error, is_ready, resolve, success, observe_pending, rejection, still_busy,
}
use heisentick_strat.FrozenLevels.Types.{EventKey, Quote, after, valid_quote}
use heisentick_strat.FrozenLevels.Level.Invariant.{
  SpecValid, ◌⟶◌, observe_cases, LevelValid, moves, observation_passed, stay, is_active_eq,
  is_pending_eq, previous-LevelValid,
}

module _ (lib : LevelLibrary) where
  admit_or_skip_move :
      (m : Level) (pending_signal q : Quote) (busy : Bool)
      → m.state ≡ LevelState.pending
      → LevelState.pending ⟶ (admit_or_skip lib m pending_signal q busy).level.state
  unfolding admit_or_skip invalidate
  admit_or_skip_move m pending_signal q busy p = grind (arith, moves)

  observe_active_pending :
      (m : Level) (p q : Quote) (busy : Bool)
      → SpecValid m.spec
      → valid_quote q ≡ true
      → q.available_at_millis < m.spec.expires_at_millis
      → m.state ≡ LevelState.active
      → (observe_active lib m (some p) q busy).level.state ≡ LevelState.pending
      → (busy ≡ false)
        × (m.armed ≡ true)
        × (inside lib m p.bid ≡ true)
        × (inside lib m q.bid ≡ false)
        × ((observe_active lib m (some p) q busy).level.submit_not_before
            < m.spec.expires_at_millis)
        × ((observe_active lib m (some p) q busy).level.submit_not_before + bias
            ≡ q.available_at_millis + m.spec.policy.submission_latency_millis)
  unfolding observe_active observe_crossing valid_quote sub64 add64
  observe_active_pending m p q busy sp vq lt a h =
      let lo = sp.latency_low in
      let hi = sp.latency_high in
      let elo = sp.expiry_low in let ehi = sp.expiry_high in ground arith

  observe_active-none :
      (m : Level) (q : Quote) (busy : Bool)
      → m.state ≡ LevelState.active
      → (observe_active lib m none q busy).level.state ≢ LevelState.pending
  unfolding observe_active
  observe_active-none m q busy a h = ground arith

  -- What a submitted crossing had before it, and when it may be executed.
  pub record Submitted (m : Level) (o : LevelQuote) (busy : Bool) (m' : Level) : Type 0 where
    pub predecessor : Quote
    pub known : m.previous ≡ some predecessor
    pub free : busy ≡ false
    pub armed : m.armed ≡ true
    pub was_inside : inside lib m predecessor.bid ≡ true
    pub is_outside : inside lib m o.quote.bid ≡ false
    pub later : after o.quote.event predecessor.event ≡ true
    pub room : m'.submit_not_before < m.spec.expires_at_millis
    pub exact :
        m'.submit_not_before + bias
        ≡ o.quote.available_at_millis + m.spec.policy.submission_latency_millis

  later_than_previous :
      (m : Level) (p q : Quote)
      → m.previous ≡ some p
      → is_stale m q ≡ false
      → after q.event p.event ≡ true
  later_than_previous m p q e h = ground arith

  active_submits :
      (m : Level) (o : LevelQuote) (continuity busy : Bool) (before : Option Quote)
      → SpecValid m.spec
      → m.previous ≡ before
      → m.state ≡ LevelState.active
      → observation_error m o continuity ≡ none
      → (leb m.spec.expires_at_millis o.quote.event.at_millis
          || leb m.spec.expires_at_millis o.quote.available_at_millis)
        ≡ false
      → (observe_active lib (record m { previous = some o.quote }) before o.quote busy).level.state
        ≡ LevelState.pending
      → Submitted m o busy
          (observe_active lib (record m { previous = some o.quote }) before o.quote busy).level
  unfolding inside
  active_submits m o continuity busy none sp known a e l h =
      absurd (observe_active-none (record m { previous = some o.quote }) o.quote busy a h)
  active_submits m o continuity busy (some p) sp known a e l h =
      let passed = observation_passed lib m o continuity e in
      let s =
        observe_active_pending (record m { previous = some o.quote }) p o.quote busy sp passed.0
          (ground arith) a h in
      record {
        predecessor = p;
        known = known;
        free = s.0;
        armed = s.1;
        was_inside = s.2;
        is_outside = s.3;
        later = later_than_previous m p o.quote known passed.4;
        room = s.4;
        exact = s.5;
      }

  -- An active level whose specification has valid times becomes pending only at a crossing from an
  -- earlier observation inside it, armed and not busy, by an observation outside it that is
  -- strictly later, with an execution time that is the exact sum of availability and latency and
  -- before its expiry.
  pub submission_needs_crossing :
      (m : Level) (o : LevelQuote) (continuity busy : Bool) (r : Observed)
      → SpecValid m.spec
      → m.state ≡ LevelState.active
      → observe lib m o continuity busy ≡ some r
      → r.level.state ≡ LevelState.pending
      → Submitted m o busy r.level
  unfolding invalidate
  submission_needs_crossing m o continuity busy r sp a =
      observe_cases lib
        (λ x. x ≡ some r → r.level.state ≡ LevelState.pending → Submitted m o busy r.level) m o
        continuity busy (λ t h p. absurd (ground arith)) (λ reason t e h p. absurd (ground arith))
        (λ t e l h p. absurd (ground arith)) (λ t e l w h p. absurd (ground arith))
        λ t e l w h p.
          let eq : observe_active lib (record m { previous = some o.quote }) m.previous o.quote busy
              ≡ r =
            cc in
          subst (λ (x : Observed). x.level.state ≡ LevelState.pending → Submitted m o busy x.level)
            eq (λ q. active_submits m o continuity busy m.previous sp refl a e l q) p

  admit_or_skip_ready :
      (m : Level) (pending_signal q : Quote) (busy : Bool)
      → m.state ≡ LevelState.pending
      → (admit_or_skip lib m pending_signal q busy).level.state ≡ LevelState.ready
      → (after q.event pending_signal.event ≡ true)
        × (m.submit_not_before ≤ q.event.at_millis)
        × (busy ≡ false)
        × ((admit_or_skip lib m pending_signal q busy).level.ready ≡ some q)
  unfolding admit_or_skip invalidate
  admit_or_skip_ready m pending_signal q busy p h = ground arith

  observe_active_move :
      (m : Level) (before : Option Quote) (q : Quote) (busy : Bool)
      → m.state ≡ LevelState.active
      → LevelState.active ⟶ (observe_active lib m before q busy).level.state
  unfolding observe_active observe_crossing
  observe_active_move m none q busy a = grind (arith, moves)
  observe_active_move m (some p) q busy a = grind (arith, moves)

  invalidate_move : (s : LevelState) → is_terminal s ≡ false → s ⟶ LevelState.invalidated
  invalidate_move s t = grind (arith, moves)

  lapse_move :
      (s : LevelState) → is_terminal s ≡ false → is_ready s ≡ false → s ⟶ LevelState.expired
  lapse_move s t r = grind (arith, moves)

  observe_pending_move :
      (m : Level) (q : Quote) (busy : Bool)
      → LevelValid m
      → m.state ≡ LevelState.pending
      → Ensures (λ r. LevelState.pending ⟶ r.level.state) (observe_pending lib m q busy)
  unfolding observe_pending
  observe_pending_move m q busy v p = elim (Option-cases m.signal) [
    | inl e ↦ absurd (ground (arith, v.pending_signal p))
    | inr (pending_signal, e) ↦
        rw (e, observe_pending) (admit_or_skip_move m pending_signal q busy p)
  ]

  -- Observe moves a level in the invariant only along the moves of its state diagram.
  pub observe_move :
      (m : Level) (o : LevelQuote) (continuity busy : Bool)
      → LevelValid m
      → Ensures (λ r. m.state ⟶ r.level.state) (observe lib m o continuity busy)
  unfolding invalidate
  observe_move m o continuity busy v =
      observe_cases lib (Ensures (λ r. m.state ⟶ r.level.state)) m o continuity busy (λ _. stay)
        (λ reason t e. invalidate_move m.state t)
        (λ t e l. lapse_move m.state t (observation_passed lib m o continuity e).5)
        (λ t e l p.
          subst
            (λ s.
              Ensures (λ r. s ⟶ r.level.state)
                (observe_pending lib (record m { previous = some o.quote }) o.quote busy))
            (sym (is_pending_eq lib m.state p))
            (observe_pending_move (record m { previous = some o.quote }) o.quote busy
              (previous-LevelValid lib m o.quote v) (is_pending_eq lib m.state p)))
        λ t e l p.
          let a = is_active_eq lib m.state t p (observation_passed lib m o continuity e).5 in
          subst
            (λ s.
              s
              ⟶ (observe_active lib (record m { previous = some o.quote }) m.previous o.quote
                  busy).level.state)
            (sym a)
            (observe_active_move (record m { previous = some o.quote }) m.previous o.quote busy a)

  -- ResolveAdmission of a level in the ready state invalidates it exactly at a rejection, makes it
  -- active exactly at a report that it is still busy, and consumes it exactly at a success, each
  -- under the key of its ready quote.
  pub resolved_iff :
      (m : Level) (at : EventKey) (outcome : AdmissionOutcome)
      → m.state ≡ LevelState.ready
      → (((resolve_admission lib m at outcome).0.state ≡ LevelState.invalidated)
          ↔ ((q : Quote) × (m.ready ≡ some q) × (q.event ≡ at) × (outcome ≡ rejection)))
        × (((resolve_admission lib m at outcome).0.state ≡ LevelState.active)
            ↔ ((q : Quote) × (m.ready ≡ some q) × (q.event ≡ at) × (outcome ≡ still_busy)))
        × (((resolve_admission lib m at outcome).0.state ≡ LevelState.consumed)
            ↔ ((q : Quote) × (m.ready ≡ some q) × (q.event ≡ at) × (outcome ≡ success)))
  unfolding resolve_admission resolve
  resolved_iff m at outcome r = elim (Option-cases m.ready) [
    | inl e ↦ (
      (λ h. absurd (ground arith), λ (q, f, k, o). absurd (ground arith)),
      (λ h. absurd (ground arith), λ (q, f, k, o). absurd (ground arith)),
      (λ h. absurd (ground arith), λ (q, f, k, o). absurd (ground arith)),
    )
    | inr (q, e) ↦ (
      (λ h. (q, e, ground arith, ground arith), λ (p, f, k, o). ground arith),
      (λ h. (q, e, ground arith, ground arith), λ (p, f, k, o). ground arith),
      (λ h. (q, e, ground arith, ground arith), λ (p, f, k, o). ground arith),
    )
  ]

  -- A level that has not ended is consumed exactly by a successful resolution, in the ready state,
  -- under the key of the ready quote.
  pub consumed_iff :
      (m : Level) (at : EventKey) (outcome : AdmissionOutcome)
      → is_terminal m.state ≡ false
      → ((resolve_admission lib m at outcome).0.state ≡ LevelState.consumed) ↔ (
          (q : Quote) × (m.ready ≡ some q)
          × (q.event ≡ at)
          × (m.state ≡ LevelState.ready)
          × (outcome ≡ success))
  unfolding resolve_admission resolve
  consumed_iff m at outcome t = (
    λ h. elim (Option-cases m.ready) [
      | inl e ↦ absurd (ground arith)
      | inr (q, e) ↦ (q, e, ground arith, ground arith, ground arith)
    ],
    λ (q, e, k, r, o). ground arith,
  )
