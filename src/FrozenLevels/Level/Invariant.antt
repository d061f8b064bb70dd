-- ===== src/FrozenLevels/Level/Invariant.antt =====
-- What holds of a level between two calls, and that no call dereferences nil.
use heisentick_strat.Prelude.{
  Bool, add64, arith, int, is_some, none, sub64, true, ◌<◌, ◌≡◌, ◌≤◌, Ensures, Option, Option-cases,
  [], false, if_rule, inl, inr, leb, some, ◌||◌, ◌∷◌,
}
use heisentick_strat.FrozenLevels.Level.Lifecycle.{
  Level, LevelLibrary, LevelSpec, LevelState, contract_error, observe_crossing, spec_error,
  LevelEventKind, LevelQuote, LevelReason, Observed, expiry_before_admission, invalidate,
  is_pending, is_ready, is_stale, is_terminal, level_lifecycle_terminal, level_quote_error,
  observation_error, observe, observe_active, observe_pending, quote_event, report, admit_or_skip,
  AdmissionOutcome, LevelEvent, made, new_level, resolve, resolve_admission,
}
use heisentick_strat.FrozenLevels.Types.{Quote, max_exact_millis, valid_quote, after, EventKey}

pub record LevelValid (m : Level) : Type 0 where
  pub active_empty : m.state ≡ LevelState.active → (m.signal ≡ none) × (m.ready ≡ none)
  pub pending_signal : m.state ≡ LevelState.pending → is_some m.signal ≡ true
  pub pending_unready : m.state ≡ LevelState.pending → m.ready ≡ none
  pub pending_early : m.state ≡ LevelState.pending → m.submit_not_before < m.spec.expires_at_millis
  pub ready_quote : m.state ≡ LevelState.ready → is_some m.ready ≡ true

-- The millisecond bounds that NewLevelLifecycle checks.
pub record SpecValid (spec : LevelSpec) : Type 0 where
  pub latency_low : int 0 ≤ spec.policy.submission_latency_millis
  pub latency_high : spec.policy.submission_latency_millis ≤ max_exact_millis
  pub expiry_low : int 0 ≤ spec.expires_at_millis
  pub expiry_high : spec.expires_at_millis ≤ max_exact_millis

pub spec_error-SpecValid : (spec : LevelSpec) → spec_error spec ≡ none → SpecValid spec
unfolding spec_error contract_error
spec_error-SpecValid spec h = ground arith

-- The moves of Observe and ResolveAdmission on the state.
infix 40 ◌⟶◌
pub data ◌⟶◌ : LevelState → LevelState → Type 0 where
  stay : {s : LevelState} → s ⟶ s
  submit : LevelState.active ⟶ LevelState.pending
  lapse : LevelState.active ⟶ LevelState.expired
  refuse : LevelState.active ⟶ LevelState.invalidated
  admit : LevelState.pending ⟶ LevelState.ready
  skip : LevelState.pending ⟶ LevelState.active
  lapse_pending : LevelState.pending ⟶ LevelState.expired
  refuse_pending : LevelState.pending ⟶ LevelState.invalidated
  refuse_ready : LevelState.ready ⟶ LevelState.invalidated
  consume : LevelState.ready ⟶ LevelState.consumed
  skip_ready : LevelState.ready ⟶ LevelState.active

pub ruleset moves = (
  stay, submit, lapse, refuse, admit, skip, lapse_pending, refuse_pending, refuse_ready, consume,
  skip_ready,
)

module _ (lib : LevelLibrary) where
  -- A crossing that is submitted may be executed before the level expires, and the sum that says
  -- when is exact.
  observe_crossing_valid :
      (m : Level) (q : Quote) (busy : Bool)
      → SpecValid m.spec
      → LevelValid m
      → m.state ≡ LevelState.active
      → valid_quote q ≡ true
      → q.available_at_millis < m.spec.expires_at_millis
      → LevelValid (observe_crossing lib m q busy).level
  unfolding observe_crossing valid_quote sub64 add64
  observe_crossing_valid m q busy sp v a vq lt =
      let lo = sp.latency_low in
      let hi = sp.latency_high in
      let elo = sp.expiry_low in let ehi = sp.expiry_high in ground arith

  observe_active_valid :
      (m : Level) (previous : Option Quote) (q : Quote) (busy : Bool)
      → SpecValid m.spec
      → LevelValid m
      → m.state ≡ LevelState.active
      → valid_quote q ≡ true
      → q.available_at_millis < m.spec.expires_at_millis
      → LevelValid (observe_active lib m previous q busy).level
  unfolding observe_active
  observe_active_valid m none q busy sp v a vq lt = ground arith
  observe_active_valid m (some p) q busy sp v a vq lt =
      let disarmed : LevelValid (record m { armed = false }) = ground arith in
      ground (arith, observe_crossing_valid (record m { armed = false }) q busy sp disarmed a vq lt)

  admit_or_skip_valid :
      (m : Level) (pending_signal q : Quote) (busy : Bool)
      → LevelValid m
      → m.state ≡ LevelState.pending
      → LevelValid (admit_or_skip lib m pending_signal q busy).level
  unfolding admit_or_skip invalidate
  admit_or_skip_valid m pending_signal q busy v p = ground arith

  observe_pending_valid :
      (m : Level) (q : Quote) (busy : Bool)
      → LevelValid m
      → m.state ≡ LevelState.pending
      → Ensures (λ r. LevelValid r.level) (observe_pending lib m q busy)
  unfolding observe_pending
  observe_pending_valid m q busy v p = elim (Option-cases m.signal) [
    | inl e ↦ absurd (ground (arith, v.pending_signal p))
    | inr (pending_signal, e) ↦
        rw (e, observe_pending) (admit_or_skip_valid m pending_signal q busy v p)
  ]

  -- The quote of an observation that passes the checks.
  pub observation_passed :
      (m : Level) (o : LevelQuote) (continuity : Bool)
      → observation_error m o continuity ≡ none
      → (valid_quote o.quote ≡ true)
        × (level_quote_error m.spec o ≡ none)
        × (continuity ≡ true)
        × (after o.quote.event m.spec.created_at ≡ true)
        × (is_stale m o.quote ≡ false)
        × (is_ready m.state ≡ false)
  unfolding observation_error level_quote_error
  observation_passed m o continuity h = ground arith

  -- A property of Observe, by its branches.
  pub observe_cases :
      (P : Option Observed → Type 0) (m : Level) (o : LevelQuote) (continuity busy : Bool)
      → (is_terminal m.state ≡ true
          → P (some (record { level = m; events = []; error = some level_lifecycle_terminal })))
      → ((reason : LevelReason)
          → is_terminal m.state ≡ false
          → observation_error m o continuity ≡ some reason
          → P (some (invalidate m o.quote reason)))
      → (is_terminal m.state ≡ false
          → observation_error m o continuity ≡ none
          → (leb m.spec.expires_at_millis o.quote.event.at_millis
              || leb m.spec.expires_at_millis o.quote.available_at_millis)
            ≡ true
          → P (
              some (
                report
                  (record m { state = LevelState.expired })
                  (quote_event
                      (record m { state = LevelState.expired })
                      LevelEventKind.expired
                      expiry_before_admission
                      o.quote
                    ∷ []))))
      → (is_terminal m.state ≡ false
          → observation_error m o continuity ≡ none
          → (leb m.spec.expires_at_millis o.quote.event.at_millis
              || leb m.spec.expires_at_millis o.quote.available_at_millis)
            ≡ false
          → is_pending m.state ≡ true
          → P (observe_pending lib (record m { previous = some o.quote }) o.quote busy))
      → (is_terminal m.state ≡ false
          → observation_error m o continuity ≡ none
          → (leb m.spec.expires_at_millis o.quote.event.at_millis
              || leb m.spec.expires_at_millis o.quote.available_at_millis)
            ≡ false
          → is_pending m.state ≡ false
          → P (
              some (
                observe_active lib (record m { previous = some o.quote }) m.previous o.quote busy)))
      → P (observe lib m o continuity busy)
  unfolding observe
  observe_cases P m o continuity busy ended invalid lapsed waiting watching =
      if_rule P (is_terminal m.state) _ _ ended λ t.
        elim (Option-cases (observation_error m o continuity)) [
          | inr (reason, e) ↦ rw (e) (invalid reason t e)
          | inl e ↦ rw (e) (
              if_rule P
                (leb m.spec.expires_at_millis o.quote.event.at_millis
                  || leb m.spec.expires_at_millis o.quote.available_at_millis)
                _ _ (lapsed t e)
                λ l. if_rule P (is_pending m.state) _ _ (waiting t e l) (watching t e l))
        ]

  pub is_pending_eq : (s : LevelState) → is_pending s ≡ true → s ≡ LevelState.pending
  is_pending_eq s h = ground arith

  pub is_active_eq :
      (s : LevelState)
      → is_terminal s ≡ false
      → is_pending s ≡ false
      → is_ready s ≡ false
      → s ≡ LevelState.active
  is_active_eq s t p r = ground arith

  pub previous-LevelValid :
      (m : Level) (q : Quote) → LevelValid m → LevelValid (record m { previous = some q })
  previous-LevelValid m q v = record {
    active_empty = v.active_empty;
    pending_signal = v.pending_signal;
    pending_unready = v.pending_unready;
    pending_early = v.pending_early;
    ready_quote = v.ready_quote;
  }

  -- For a level in its invariant whose specification has valid times, Observe never dereferences
  -- nil and keeps the invariant.
  pub observe_valid :
      (m : Level) (o : LevelQuote) (continuity busy : Bool)
      → SpecValid m.spec
      → LevelValid m
      → Ensures (λ r. LevelValid r.level) (observe lib m o continuity busy)
  unfolding invalidate
  observe_valid m o continuity busy sp v =
      let with_previous = previous-LevelValid m o.quote v in
      observe_cases (Ensures (λ r. LevelValid r.level)) m o continuity busy (λ _. v)
        (λ reason t e. ground arith) (λ t e l. ground arith)
        (λ t e l p.
          observe_pending_valid (record m { previous = some o.quote }) o.quote busy with_previous
            (is_pending_eq m.state p))
        λ t e l p.
          let passed = observation_passed m o continuity e in
          observe_active_valid (record m { previous = some o.quote }) m.previous o.quote busy sp
            with_previous (is_active_eq m.state t p passed.5) passed.0 (ground arith)

  -- ResolveAdmission keeps the invariant of a level, whatever the key and the outcome.
  pub resolve_admission_valid :
      (m : Level) (at : EventKey) (outcome : AdmissionOutcome)
      → LevelValid m
      → LevelValid (resolve_admission lib m at outcome).0
  unfolding resolve_admission resolve
  resolve_admission_valid m at outcome v = ground arith

  -- A level that NewLevelLifecycle makes is active and satisfies the invariants of levels and
  -- specifications.
  pub new_level_valid :
      (spec : LevelSpec) (previous : Option LevelQuote) {m : Level} {e : LevelEvent}
      → new_level lib spec previous ≡ made m e
      → LevelValid m × SpecValid m.spec × (m.state ≡ LevelState.active)
  unfolding new_level
  new_level_valid spec previous h = ground (arith, spec_error-SpecValid spec)
