-- ===== src/FrozenLevels/Lock/Observe.antt =====
-- engine/frozenlevels/lock.go, LockTracker.Observe: one quote at a time. The outer `none` of
-- `observe_quote` is a nil dereference.
use heisentick_strat.Prelude.{
  Bool, Int64, List, Option, [], add64, if◌then◌else◌, int, is_some, ltb, none, not, some, sub64,
  true, ◌&&◌, ◌||◌, ◌∷◌, ◌>>=◌, Float,
}
use heisentick_strat.FrozenLevels.Scale.{ScaleLibrary, is_short}
use heisentick_strat.FrozenLevels.Lock.{
  LockError, LockEvent, LockEventKind, LockReason, LockTracker, accepted, activated, canceled,
  exit_due, invalid_at_acceptance, is_no_lock, is_scale, liquidation, lock_tracker_terminal,
  no_eligible_lock, observation_not_later, observed_quote_invalid, old_order_before_amendment,
  rejected, stop_reached, target_reached, unexplained, unresolved, submitted, unverified_quote_gap,
  LockCounters,
}
use heisentick_strat.FrozenLevels.Prices.{
  Price, cmp, directed_difference, is_eq, is_gt, is_lt, sign, snap, whole,
}
use heisentick_strat.FrozenLevels.Types.{Quote, after, finite_positive, valid_quote}

pub record LockObserved : Type 0 where
  pub tracker : LockTracker
  pub events : List LockEvent
  pub error : Option LockError

abbrev pub one_more : Int64 → Int64
one_more n = add64 n (int 1)

abbrev pub no_change : LockTracker → LockObserved
no_change t = record { tracker = t; events = []; error = none }

abbrev pub fail_with : LockTracker → LockError → LockObserved
fail_with t e = record { tracker = t; events = []; error = some e }

abbrev pub announce : LockTracker → List LockEvent → LockObserved
announce t events = record { tracker = t; events = events; error = none }

-- Counters and Terminal
unfoldable pub counters_of : LockTracker → LockCounters
counters_of t = t.counters

unfoldable pub has_ended : LockTracker → Bool
has_ended t = t.terminal

module _ (lib : ScaleLibrary) where
  -- LockTracker.event
  abbrev pub lock_event : LockTracker → LockEventKind → LockReason → Quote → LockEvent
  lock_event t kind reason q = record {
    kind = kind;
    reason = reason;
    event = q.event;
    available_at_millis = q.available_at_millis;
    active_stop = lib.project t.active_stop;
    proposed_stop = lib.project t.proposed;
  }

  -- ActiveStop and CommonTarget
  unfoldable pub active_stop_of : LockTracker → Float
  active_stop_of t = lib.project t.active_stop

  unfoldable pub common_target : LockTracker → Float
  common_target t = lib.project t.target

  -- LockTracker.admissible
  unfoldable pub admissible : LockTracker → Price → Price → Bool
  admissible t stop liq =
      is_gt (sign stop)
      && finite_positive (lib.project stop)
      && is_gt (sign (directed_difference stop t.entry t.side))
      && is_gt (sign (directed_difference stop t.active_stop t.side))
      && not (is_lt (cmp (directed_difference liq stop t.side) t.grid))

  -- The stop or the target is reached: a request under way is canceled first.
  unfoldable pub exit_due_now : LockTracker → Quote → Price → LockObserved
  exit_due_now t q liq =
      let reason =
        if is_gt (sign (directed_difference liq t.active_stop t.side))
        then target_reached
        else stop_reached in
      if is_some t.requested
      then (let t' = record t {
        counters = record (t.counters) { canceled = one_more t.counters.canceled };
        requested = none;
        terminal = true;
      } in
          announce t' (
            lock_event t canceled old_order_before_amendment q
            ∷ lock_event t' exit_due reason q
            ∷ []))
      else (let t' = record t { terminal = true } in
          announce t' (lock_event t' exit_due reason q ∷ []))

  -- A request waits for the latency, and is then accepted or rejected.
  unfoldable pub settle_request : LockTracker → Quote → Quote → Price → LockObserved
  settle_request t request q liq =
      if ltb (sub64 q.available_at_millis request.available_at_millis) t.policy.latency_millis
      then no_change t
      else if admissible t t.proposed liq
      then (let t' = record t {
        active_stop = t.proposed;
        counters = record (t.counters) { accepted = one_more t.counters.accepted };
      } in
          announce (record t' { requested = none }) (lock_event t' accepted unexplained q ∷ []))
      else (let t' = record t {
        counters = record (t.counters) { rejected = one_more t.counters.rejected };
      } in
          announce (record t' { requested = none })
            (lock_event t' rejected invalid_at_acceptance q ∷ []))

  -- One turn of the loop over the pivots.
  unfoldable pub better_pivot : LockTracker → Price → Price → Price → Price
  better_pivot t liq raw best =
      if not (is_gt (sign (directed_difference raw t.entry t.side)))
        || is_lt (cmp (directed_difference liq raw t.side) t.grid)
      then best
      else (let stop = snap raw t.grid (is_short t.side) in
          if admissible t stop liq
            && (is_eq (sign best) || is_gt (sign (directed_difference stop best t.side)))
          then stop
          else best)

  unfoldable pub best_pivot : LockTracker → Price → List Price → Price → Price
  best_pivot t liq [] best = best
  best_pivot t liq (raw ∷ rest) best = best_pivot t liq rest (better_pivot t liq raw best)

  -- The stop that is proposed; none where the scale stop has no value.
  unfoldable pub proposal : LockTracker → Price → Option Price
  proposal t liq =
      if is_scale t.policy.mode then t.scale_stop else some (best_pivot t liq t.levels (whole 0))

  -- The proposed stop is submitted, or the attempt ends; `before` had the previous proposal.
  unfoldable pub submit_stop : LockTracker → Quote → Price → Price → LockObserved
  submit_stop before q liq stop =
      let u = record before { proposed = stop } in
      if admissible u stop liq
      then announce
          (record u {
            counters = record (u.counters) {
              eligible = one_more u.counters.eligible;
              submitted = one_more u.counters.submitted;
            };
            requested = some q;
          })
          (lock_event before activated unexplained q ∷ lock_event u submitted unexplained q ∷ [])
      else announce
          (record u { counters = record (u.counters) { rejected = one_more u.counters.rejected } })
          (lock_event before activated unexplained q
            ∷ lock_event u rejected no_eligible_lock q
            ∷ [])

  unfoldable pub activate : LockTracker → Quote → Price → Option LockObserved
  activate t q liq =
      let t' = record t {
        attempted = true;
        counters = record (t.counters) { activations = one_more t.counters.activations };
      } in
      proposal t' liq >>= λ stop. some (submit_stop t' q liq stop)

  -- No barrier is reached: a request under way goes on, or the activation is tested.
  -- The second argument is the request of the tracker.
  unfoldable pub pursue : LockTracker → Option Quote → Quote → Price → Option LockObserved
  pursue t (some request) q liq = some (settle_request t request q liq)
  pursue t none q liq =
      if t.attempted || is_no_lock t.policy.mode
      then some (no_change t)
      else if is_lt (cmp (directed_difference liq t.entry t.side) t.activation)
      then some (no_change t)
      else activate t q liq

  -- LockTracker.Observe after the checks.
  unfoldable pub follow : LockTracker → Quote → Option LockObserved
  follow before q =
      let t = record before { last = q } in
      let liq = lib.decimal (liquidation q t.side) in
      if not (is_gt (sign (directed_difference liq t.active_stop t.side)))
        || not (is_lt (sign (directed_difference liq t.target t.side)))
      then some (exit_due_now t q liq)
      else pursue t t.requested q liq

  -- LockTracker.Observe
  unfoldable pub observe_quote : LockTracker → Quote → Bool → Option LockObserved
  observe_quote t q continuity_verified =
      if t.terminal
      then some (fail_with t lock_tracker_terminal)
      else if not (valid_quote q)
      then some (fail_with t observed_quote_invalid)
      else if not (after q.event t.last.event)
          || ltb q.available_at_millis t.last.available_at_millis
      then some (fail_with t observation_not_later)
      else if not continuity_verified
      then (let t' = record t { terminal = true } in
          some (announce t' (lock_event t' unresolved unverified_quote_gap q ∷ [])))
      else follow t q
