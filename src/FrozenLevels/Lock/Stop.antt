-- ===== src/FrozenLevels/Lock/Stop.antt =====
-- engine/frozenlevels/lock.go: the active stop over one observation.
use heisentick_strat.Prelude.{
  arith, is_some, some, true, ◌≡◌, Bool, Ensures, Ensures-bind, Ensures-mono, Option, if_rule, ltb,
  none, not, refl, ◌||◌,
}
use heisentick_strat.FrozenLevels.Scale.{ScaleLibrary}
use heisentick_strat.FrozenLevels.Lock.{LockTracker, is_no_lock, liquidation}
use heisentick_strat.FrozenLevels.Lock.Observe.{
  LockObserved, admissible, exit_due_now, settle_request, submit_stop, activate, follow,
  observe_quote, one_more, proposal, pursue,
}
use heisentick_strat.FrozenLevels.Prices.{Price, directed_difference, is_gt, sign, cmp, is_lt}
use heisentick_strat.FrozenLevels.Types.{Quote, after, valid_quote}
use heisentick_strat.FrozenLevels.Lock.Invariant.{LockValid, last_valid, proposal_total}

-- The stop stays, or it moves towards the target, past the entry, on a request that is under way.
pub data StopMove (t : LockTracker) (o : LockObserved) : Type 0 where
  same_stop : o.tracker.active_stop ≡ t.active_stop → StopMove t o
  tighter :
      is_some t.requested ≡ true
      → is_gt (sign (directed_difference o.tracker.active_stop t.active_stop t.side)) ≡ true
      → is_gt (sign (directed_difference o.tracker.active_stop t.entry t.side)) ≡ true
      → StopMove t o

module _ (lib : ScaleLibrary) where
  exit_due_move :
      (t : LockTracker) (q : Quote) (liq : Price) → StopMove t (exit_due_now lib t q liq)
  unfolding exit_due_now
  exit_due_move t q liq = ground arith

  settle_move :
      (t : LockTracker) (request q : Quote) (liq : Price)
      → t.requested ≡ some request
      → StopMove t (settle_request lib t request q liq)
  unfolding settle_request admissible
  settle_move t request q liq h = ground arith

  submit_stop_move :
      (t : LockTracker) (q : Quote) (liq stop : Price)
      → (submit_stop lib t q liq stop).tracker.active_stop ≡ t.active_stop
  unfolding submit_stop
  submit_stop_move t q liq stop = ground arith

  activate_move :
      (t : LockTracker) (q : Quote) (liq : Price)
      → LockValid t
      → Ensures (StopMove t) (activate lib t q liq)
  unfolding activate
  activate_move t q liq v =
      let t' = record t {
        attempted = true;
        counters = record (t.counters) { activations = one_more t.counters.activations };
      } in
      Ensures-bind (λ stop. Unit) (StopMove t) (proposal lib t' liq) _
        (proposal_total lib t' liq v.scale_known)
        (λ stop u. same_stop (submit_stop_move t' q liq stop))

  pursue_move :
      (t : LockTracker) (request : Option Quote) (q : Quote) (liq : Price)
      → LockValid t
      → t.requested ≡ request
      → Ensures (StopMove t) (pursue lib t request q liq)
  unfolding pursue
  pursue_move t (some request) q liq v e = settle_move t request q liq e
  pursue_move t none q liq v e =
      if_rule (Ensures (StopMove t)) (t.attempted || is_no_lock t.policy.mode) _ _
        (λ y. same_stop refl)
        (λ n.
          if_rule (Ensures (StopMove t))
            (is_lt (cmp (directed_difference liq t.entry t.side) t.activation)) _ _
            (λ y. same_stop refl) (λ m. activate_move t q liq v))

  at_last :
      (t : LockTracker) (q : Quote) (o : LockObserved)
      → StopMove (record t { last = q }) o
      → StopMove t o
  at_last t q o (same_stop e) = same_stop e
  at_last t q o (tighter r a b) = tighter r a b

  follow_move : (t : LockTracker) (q : Quote) → LockValid t → Ensures (StopMove t) (follow lib t q)
  unfolding follow
  follow_move t q v =
      let u = record t { last = q } in
      let liq = lib.decimal (liquidation q t.side) in
      if_rule (Ensures (StopMove t))
        (not (is_gt (sign (directed_difference liq t.active_stop t.side)))
          || not (is_lt (sign (directed_difference liq t.target t.side))))
        (some (exit_due_now lib u q liq)) (pursue lib u t.requested q liq)
        (λ y. at_last t q _ (exit_due_move u q liq))
        (λ n.
          Ensures-mono (StopMove u) (StopMove t) (pursue lib u t.requested q liq)
            (pursue_move u t.requested q liq (last_valid lib t q v) refl) (λ o m. at_last t q o m))

  -- From a tracker in its invariant an observation leaves the active stop, or, with a request under
  -- way, moves it strictly towards the target and strictly past the entry.
  pub stop_only_tightens :
      (t : LockTracker) (q : Quote) (continuity : Bool)
      → LockValid t
      → Ensures (StopMove t) (observe_quote lib t q continuity)
  unfolding observe_quote
  stop_only_tightens t q continuity v =
      if_rule (Ensures (StopMove t)) t.terminal _ _ (λ y. same_stop refl)
        (λ h.
          if_rule (Ensures (StopMove t)) (not (valid_quote q)) _ _ (λ y. same_stop refl)
            (λ k.
              if_rule (Ensures (StopMove t))
                (not (after q.event t.last.event)
                  || ltb q.available_at_millis t.last.available_at_millis)
                _ _ (λ y. same_stop refl)
                (λ m.
                  if_rule (Ensures (StopMove t)) (not continuity) _ _ (λ y. same_stop refl)
                    (λ n. follow_move t q v))))
