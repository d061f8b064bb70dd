-- ===== src/FrozenLevels/Level/Lifecycle.antt =====
-- engine/frozenlevels/level_lifecycle.go and entry_admission.go: one level from its creation to
-- its end. A method returns the new level, its events and its error; the outer `none` is a nil
-- dereference. Reading a price as a decimal and hashing are arguments.
use heisentick_strat.Prelude.{
  Bool, Float, Int64, List, Option, Text, [], add64, bytes, false, if◌then◌else◌, int, is_some, leb,
  length, ltb, none, not, some, sub64, text_eq, true, ◌&&◌, ◌==◌, ◌||◌, ◌∷◌,
}
use heisentick_strat.FrozenLevels.Prices.{Direction, Price, directed_difference, is_lt, sign}
use heisentick_strat.FrozenLevels.Types.{
  EventKey, Quote, Source, SourceError, after, finite_positive, is_bid, source_eq, valid_key,
  valid_millis, valid_quote, validate_source,
}

abbrev pub lifecycle_version : Text
lifecycle_version = bytes "frozen-level-lifecycle-v1"

pub record LevelPolicy : Type 0 where
  pub assumption_id : Text
  pub max_predecessor_age_millis : Int64
  pub max_observation_age_millis : Int64
  pub submission_latency_millis : Int64
  pub use_policy : Text

pub record LevelSpec : Type 0 where
  pub version : Text
  pub provider_id : Text
  pub source_window_id : Text
  pub context_source : Source
  pub quote_source : Source
  pub ordering_proof : Text
  pub known_at : EventKey
  pub created_at : EventKey
  pub expires_at_millis : Int64
  pub side : Option Direction  -- none is a Direction that is neither Long nor Short
  pub price : Float
  pub policy : LevelPolicy

pub record LevelQuote : Type 0 where
  pub quote : Quote
  pub source : Source

pub data LevelState : Type 0 where
  active pending ready expired invalidated consumed : LevelState

pub data LevelEventKind : Type 0 where
  created reset crossed skipped submitted admission_ready : LevelEventKind
  expired invalidated consumed : LevelEventKind

-- Event reasons and errors.
pub data LevelReason : Type 0 where
  no_reason inside_observation already_outside stale_predecessor bid_crossing : LevelReason
  position_busy submission_not_before_expiry admission_pending expiry_before_admission : LevelReason
  position_busy_at_admission strictly_subsequent external_successful_execution : LevelReason
  external_rejected_no_retry position_busy_at_resolution : LevelReason
  invalid_level_contract unsupported_level_signal_side unproved_creation_predecessor : LevelReason
  stale_creation_predecessor level_quote_source_mismatch invalid_quote : LevelReason
  stale_level_observation level_lifecycle_terminal before_level_creation : LevelReason
  non_subsequent_observation unverified_quote_gap unresolved_admission_result : LevelReason
  non_subsequent_pending no_ready_admission admission_key_mismatch : LevelReason
  unsupported_admission_outcome : LevelReason
  source_error : SourceError → LevelReason

pub record LevelEvent : Type 0 where
  pub version : Text
  pub level_id : Text
  pub kind : LevelEventKind
  pub reason : LevelReason
  pub at : EventKey
  pub available_at_millis : Int64
  pub signal_id : Text
  pub expires_at_millis : Int64

pub record Level : Type 0 where
  pub spec : LevelSpec
  pub side : Direction
  pub id : Text
  pub state : LevelState
  pub threshold : Price
  pub previous : Option Quote
  pub armed : Bool
  pub signal_id : Text
  pub signal : Option Quote
  pub ready : Option Quote
  pub submit_not_before : Int64

pub record Observed : Type 0 where
  pub level : Level
  pub events : List LevelEvent
  pub error : Option LevelReason

-- What the primitives call outside this package: the shortest decimal of a float, and the digest
-- of a specification and of a signal.
pub record LevelLibrary : Type 0 where
  pub decimal : Float → Price
  pub spec_identity : LevelSpec → Text
  pub signal_identity : Text → Text → EventKey → Text

abbrev pub is_terminal : LevelState → Bool
is_terminal LevelState.expired = true
is_terminal LevelState.invalidated = true
is_terminal LevelState.consumed = true
is_terminal _ = false

-- ID and State
unfoldable pub id_of : Level → Text
id_of m = m.id

unfoldable pub state_of : Level → LevelState
state_of m = m.state

abbrev pub is_ready : LevelState → Bool
is_ready LevelState.ready = true
is_ready _ = false

abbrev pub is_pending : LevelState → Bool
is_pending LevelState.pending = true
is_pending _ = false

unfoldable pub level_event : Level → LevelEventKind → LevelReason → EventKey → Int64 → LevelEvent
level_event m kind reason key available = record {
  version = lifecycle_version;
  level_id = m.id;
  kind = kind;
  reason = reason;
  at = key;
  available_at_millis = available;
  signal_id = m.signal_id;
  expires_at_millis = m.spec.expires_at_millis;
}

-- m.event(kind, reason, q.Event, q.AvailableAtMillis)
abbrev pub quote_event : Level → LevelEventKind → LevelReason → Quote → LevelEvent
quote_event m kind reason q = level_event m kind reason q.event q.available_at_millis

-- LevelLifecycle.validateQuote
unfoldable pub level_quote_error : LevelSpec → LevelQuote → Option LevelReason
level_quote_error spec q =
    if not (source_eq q.source spec.quote_source)
    then some level_quote_source_mismatch
    else if not (valid_quote q.quote)
    then some invalid_quote
    else if ltb spec.policy.max_observation_age_millis
        (sub64 q.quote.available_at_millis q.quote.event.at_millis)
    then some stale_level_observation
    else none

-- LevelLifecycle.invalidate
unfoldable pub invalidate : Level → Quote → LevelReason → Observed
invalidate m q reason =
    let m' = record m { state = LevelState.invalidated } in
    record {
      level = m';
      events = quote_event m' LevelEventKind.invalidated reason q ∷ [];
      error = some reason;
    }

abbrev pub quiet : Level → Observed
quiet m = record { level = m; events = []; error = none }

abbrev pub report : Level → List LevelEvent → Observed
report m events = record { level = m; events = events; error = none }

unfoldable pub contract_error : LevelSpec → Bool
contract_error spec =
    not (text_eq spec.version lifecycle_version)
    || length spec.provider_id == 0
    || length spec.source_window_id == 0
    || length spec.ordering_proof == 0
    || not (valid_key spec.known_at)
    || not (valid_key spec.created_at)
    || after spec.known_at spec.created_at
    || not (valid_millis spec.expires_at_millis)
    || leb spec.expires_at_millis spec.created_at.at_millis
    || not (is_some spec.side)
    || not (finite_positive spec.price)
    || length spec.policy.assumption_id == 0
    || not (text_eq spec.policy.use_policy (bytes "one-success-no-retry"))
    || leb spec.policy.max_predecessor_age_millis (int 0)
    || not (valid_millis spec.policy.max_predecessor_age_millis)
    || leb spec.policy.max_observation_age_millis (int 0)
    || not (valid_millis spec.policy.max_observation_age_millis)
    || not (valid_millis spec.policy.submission_latency_millis)

abbrev source_fault : Option SourceError → Option LevelReason
source_fault none = none
source_fault (some e) = some (source_error e)

-- The checks of NewLevelLifecycle before the predecessor.
unfoldable pub spec_error : LevelSpec → Option LevelReason
spec_error spec =
    if contract_error spec
    then some invalid_level_contract
    else if is_some (validate_source spec.context_source)
    then source_fault (validate_source spec.context_source)
    else if is_some (validate_source spec.quote_source)
    then source_fault (validate_source spec.quote_source)
    else if not (is_bid spec.context_source.side) || not (is_bid spec.quote_source.side)
    then some unsupported_level_signal_side
    else none

unfoldable pub predecessor_error : LevelSpec → LevelQuote → Option LevelReason
predecessor_error spec previous =
    let q = previous.quote in
    if is_some (level_quote_error spec previous)
    then level_quote_error spec previous
    else if not (after spec.created_at q.event)
        || ltb spec.created_at.at_millis q.available_at_millis
    then some unproved_creation_predecessor
    else if ltb spec.policy.max_predecessor_age_millis
        (sub64 spec.created_at.at_millis q.event.at_millis)
    then some stale_creation_predecessor
    else none

-- The outcomes that ResolveAdmission is told: "consumed", "rejected", "busy", or any other string.
pub data AdmissionOutcome : Type 0 where
  success rejection still_busy : AdmissionOutcome
  unsupported : Text → AdmissionOutcome

pub data NewLevel : Type 0 where
  made : Level → LevelEvent → NewLevel
  refused : LevelReason → NewLevel

abbrev pub is_stale : Level → Quote → Bool
is_stale m q = elim m.previous [
  | none ↦ false
  | some previous ↦
      not (after q.event previous.event) || ltb q.available_at_millis previous.available_at_millis
]

-- The checks of Observe that invalidate the level, in their order.
unfoldable pub observation_error : Level → LevelQuote → Bool → Option LevelReason
observation_error m observation continuity_verified =
    let q = observation.quote in
    if is_some (level_quote_error m.spec observation)
    then level_quote_error m.spec observation
    else if not (after q.event m.spec.created_at)
        || ltb q.available_at_millis m.spec.created_at.at_millis
    then some before_level_creation
    else if is_stale m q
    then some non_subsequent_observation
    else if not continuity_verified
    then some unverified_quote_gap
    else if is_ready m.state
    then some unresolved_admission_result
    else none

module _ (lib : LevelLibrary) where
  -- LevelLifecycle.inside
  unfoldable pub inside : Level → Float → Bool
  inside m quoted = is_lt (sign (directed_difference (lib.decimal quoted) m.threshold m.side))

  abbrev pub initial_level : LevelSpec → Direction → Level
  initial_level spec side = record {
    spec = spec;
    side = side;
    id = lib.spec_identity spec;
    state = LevelState.active;
    threshold = lib.decimal spec.price;
    previous = none;
    armed = false;
    signal_id = [];
    signal = none;
    ready = none;
    submit_not_before = int 0;
  }

  abbrev pub created_event : Level → LevelEvent
  created_event m =
      level_event m LevelEventKind.created no_reason m.spec.created_at m.spec.created_at.at_millis

  -- NewLevelLifecycle
  unfoldable pub new_level : LevelSpec → Option LevelQuote → NewLevel
  new_level spec previous = elim (spec_error spec) [
    | some e ↦ refused e
    | none ↦ elim spec.side [
      | none ↦ refused invalid_level_contract
      | some side ↦
          let m = initial_level spec side in
          elim previous [
            | none ↦ made m (created_event m)
            | some p ↦ elim (predecessor_error spec p) [
              | some e ↦ refused e
              | none ↦
                  let m' = record m { previous = some p.quote; armed = inside m p.quote.bid } in
                  made m' (created_event m')
            ]
          ]
    ]
  ]

  -- observePending, for the signal that is pending.
  unfoldable pub admit_or_skip : Level → Quote → Quote → Bool → Observed
  admit_or_skip m pending_signal q busy =
      if not (after q.event pending_signal.event)
      then invalidate m q non_subsequent_pending
      else if ltb q.event.at_millis m.submit_not_before
      then quiet m
      else if busy
      then (let m' = record m {
        state = LevelState.active;
        signal = none;
        armed = inside m q.bid;
      } in
          report m' (quote_event m' LevelEventKind.skipped position_busy_at_admission q ∷ []))
      else (let m' = record m { ready = some q; state = LevelState.ready } in
          report m' (quote_event m' LevelEventKind.admission_ready strictly_subsequent q ∷ []))

  -- observePending; without a signal it would dereference nil.
  unfoldable pub observe_pending : Level → Quote → Bool → Option Observed
  observe_pending m q busy = elim m.signal [
    | none ↦ none
    | some pending_signal ↦ some (admit_or_skip m pending_signal q busy)
  ]

  -- The end of Observe, at a crossing.
  unfoldable pub observe_crossing : Level → Quote → Bool → Observed
  observe_crossing m q busy =
      let m1 = record m { signal_id = lib.signal_identity lifecycle_version m.id q.event } in
      let crossing = quote_event m1 LevelEventKind.crossed bid_crossing q in
      if busy
      then report m1 (crossing ∷ quote_event m1 LevelEventKind.skipped position_busy q ∷ [])
      else if leb (sub64 m.spec.expires_at_millis q.available_at_millis)
          m.spec.policy.submission_latency_millis
      then (let m2 = record m1 { state = LevelState.expired } in
          report m2
            (crossing ∷ quote_event m2 LevelEventKind.expired submission_not_before_expiry q ∷ []))
      else (let m2 = record m1 {
        submit_not_before = add64 q.available_at_millis m.spec.policy.submission_latency_millis;
        signal = some q;
        state = LevelState.pending;
      } in
          report m2 (crossing ∷ quote_event m2 LevelEventKind.submitted admission_pending q ∷ []))

  -- An active level, given the observation before this one.
  unfoldable pub observe_active : Level → Option Quote → Quote → Bool → Observed
  observe_active m none q busy =
      let m' = record m { armed = inside m q.bid } in
      report m' (
        quote_event m' LevelEventKind.reset
          (if inside m q.bid then inside_observation else already_outside) q
        ∷ [])
  observe_active m (some previous) q busy =
      if ltb m.spec.policy.max_predecessor_age_millis
        (sub64 q.event.at_millis previous.event.at_millis)
      then (let m' = record m { armed = inside m q.bid } in
          report m' (quote_event m' LevelEventKind.reset stale_predecessor q ∷ []))
      else if inside m q.bid
      then (let m' = record m { armed = true } in
          if not m.armed
          then report m' (quote_event m' LevelEventKind.reset inside_observation q ∷ [])
          else quiet m')
      else if m.armed && inside m previous.bid
      then observe_crossing (record m { armed = false }) q busy
      else quiet (record m { armed = false })

  -- Observe
  unfoldable pub observe : Level → LevelQuote → Bool → Bool → Option Observed
  observe m observation continuity_verified busy =
      let q = observation.quote in
      if is_terminal m.state
      then some (record { level = m; events = []; error = some level_lifecycle_terminal })
      else (elim (observation_error m observation continuity_verified) [
        | some reason ↦ some (invalidate m q reason)
        | none ↦
            if leb m.spec.expires_at_millis q.event.at_millis
              || leb m.spec.expires_at_millis q.available_at_millis
            then (let m' = record m { state = LevelState.expired } in
                some (
                  report m' (quote_event m' LevelEventKind.expired expiry_before_admission q ∷ [])))
            else (let m' = record m { previous = some q } in
                if is_pending m.state
                then observe_pending m' q busy
                else some (observe_active m' m.previous q busy))
      ])

  -- The switch of ResolveAdmission, for the quote that is ready.
  unfoldable pub resolve :
      Level → Quote → AdmissionOutcome → Level × (Option LevelEvent × Option LevelReason)
  resolve m q (unsupported s) = (m, (none, some unsupported_admission_outcome))
  resolve m q success =
      let m' = record m { state = LevelState.consumed; ready = none; signal = none } in
      (m', (some (quote_event m' LevelEventKind.consumed external_successful_execution q), none))
  resolve m q rejection =
      let m' = record m { state = LevelState.invalidated; ready = none; signal = none } in
      (m', (some (quote_event m' LevelEventKind.invalidated external_rejected_no_retry q), none))
  resolve m q still_busy =
      let m' = record m {
        state = LevelState.active;
        armed = inside m q.bid;
        ready = none;
        signal = none;
      } in
      (m', (some (quote_event m' LevelEventKind.skipped position_busy_at_resolution q), none))

  -- ResolveAdmission
  unfoldable pub resolve_admission :
      Level → EventKey → AdmissionOutcome → Level × (Option LevelEvent × Option LevelReason)
  resolve_admission m at outcome =
      if is_terminal m.state
      then (m, (none, some level_lifecycle_terminal))
      else if not (is_ready m.state)
      then (m, (none, some no_ready_admission))
      else (elim m.ready [
        | none ↦ (m, (none, some no_ready_admission))
        | some q ↦
            if not (at.at_millis == q.event.at_millis && at.sequence == q.event.sequence)
            then (m, (none, some admission_key_mismatch))
            else resolve m q outcome
      ])
