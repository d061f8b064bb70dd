-- ===== src/FrozenLevels/Lock/Invariant.antt =====
-- engine/frozenlevels/lock.go: what holds of a tracker after any calls of it.
use heisentick_strat.Prelude.{
  ℕ, add64, false, int, is_some, none, true, ◌≡◌, arith, some, Bool, Ensures, Option-cases, inl,
  inr, Ensures-bind, if_rule, ltb, not, refl, ◌||◌, Option,
}
use heisentick_strat.FrozenLevels.Scale.{ScaleLibrary}
use heisentick_strat.FrozenLevels.Lock.{
  LockCounters, LockTracker, is_scale, is_no_lock, liquidation,
}
use heisentick_strat.FrozenLevels.Lock.Observe.{
  LockObserved, exit_due_now, settle_request, activate, follow, observe_quote, proposal, pursue,
  submit_stop, one_more,
}
use heisentick_strat.FrozenLevels.Prices.{Price, cmp, directed_difference, is_lt, is_gt, sign}
use heisentick_strat.FrozenLevels.Types.{Quote, after, valid_quote}

-- The six counters, in their order.
abbrev pub counts : ℕ → ℕ → ℕ → ℕ → ℕ → ℕ → LockCounters
counts a e s acc rej stopped = record {
  activations = int a;
  eligible = int e;
  submitted = int s;
  accepted = int acc;
  rejected = int rej;
  canceled = int stopped;
}

-- Nothing was tried; one request is under way; or the one attempt ended as ineligible, accepted,
-- rejected or canceled, the last together with the position.
pub data Attempt (t : LockTracker) : Type 0 where
  untried : t.attempted ≡ false → t.requested ≡ none → t.counters ≡ counts 0 0 0 0 0 0 → Attempt t
  under_way :
      t.attempted ≡ true → is_some t.requested ≡ true → t.counters ≡ counts 1 1 1 0 0 0 → Attempt t
  ineligible : t.attempted ≡ true → t.requested ≡ none → t.counters ≡ counts 1 0 0 0 1 0 → Attempt t
  was_accepted :
      t.attempted ≡ true → t.requested ≡ none → t.counters ≡ counts 1 1 1 1 0 0 → Attempt t
  was_rejected :
      t.attempted ≡ true → t.requested ≡ none → t.counters ≡ counts 1 1 1 0 1 0 → Attempt t
  was_canceled :
      t.attempted ≡ true
      → t.requested ≡ none
      → t.terminal ≡ true
      → t.counters ≡ counts 1 1 1 0 0 1
      → Attempt t

-- A tracker that locks by scale has its stop.
pub record LockValid (t : LockTracker) : Type 0 where
  pub scale_known : is_scale t.policy.mode ≡ true → is_some t.scale_stop ≡ true
  pub attempt : Attempt t

abbrev pub LockDone : LockObserved → Type 0
LockDone o = LockValid o.tracker

module _ (lib : ScaleLibrary) where
  exit_due_valid :
      (t : LockTracker) (q : Quote) (liq : Price)
      → LockValid t
      → LockValid (exit_due_now lib t q liq).tracker
  unfolding exit_due_now add64
  exit_due_valid t q liq v = elim v.attempt [
    | untried a r c ↦ ground arith
    | under_way a r c ↦ ground arith
    | ineligible a r c ↦ ground arith
    | was_accepted a r c ↦ ground arith
    | was_rejected a r c ↦ ground arith
    | was_canceled a r s c ↦ ground arith
  ]

  settle_valid :
      (t : LockTracker) (request q : Quote) (liq : Price)
      → LockValid t
      → t.requested ≡ some request
      → LockValid (settle_request lib t request q liq).tracker
  unfolding settle_request add64
  settle_valid t request q liq v h = elim v.attempt [
    | under_way a r c ↦ ground arith
    | _ ↦ ground arith
  ]

  submit_stop_valid :
      (t : LockTracker) (q : Quote) (liq stop : Price)
      → (is_scale t.policy.mode ≡ true → is_some t.scale_stop ≡ true)
      → t.attempted ≡ true
      → t.requested ≡ none
      → t.counters ≡ counts 1 0 0 0 0 0
      → LockValid (submit_stop lib t q liq stop).tracker
  unfolding submit_stop add64
  submit_stop_valid t q liq stop k h r c = ground arith

  pub proposal_total :
      (t : LockTracker) (liq : Price)
      → (is_scale t.policy.mode ≡ true → is_some t.scale_stop ≡ true)
      → Ensures (λ stop. Unit) (proposal lib t liq)
  unfolding proposal
  proposal_total t liq k =
      if_rule (Ensures (λ stop. Unit)) (is_scale t.policy.mode) _ _
        (λ y. elim (Option-cases t.scale_stop) [
          | inl n ↦ let s = k y in ground arith
          | inr (stop, e) ↦ rw e tt
        ])
        (λ n. tt)

  activate_valid :
      (t : LockTracker) (q : Quote) (liq : Price)
      → LockValid t
      → t.attempted ≡ false
      → t.requested ≡ none
      → Ensures LockDone (activate lib t q liq)
  unfolding activate add64
  activate_valid t q liq v h r =
      let a = v.attempt in
      let t' = record t {
        attempted = true;
        counters = record (t.counters) { activations = one_more t.counters.activations };
      } in
      let c : t'.counters ≡ counts 1 0 0 0 0 0 = ground arith in
      Ensures-bind (λ stop. Unit) LockDone (proposal lib t' liq) _
        (proposal_total t' liq v.scale_known)
        (λ stop u. submit_stop_valid t' q liq stop v.scale_known refl r c)

  pursue_valid :
      (t : LockTracker) (request : Option Quote) (q : Quote) (liq : Price)
      → LockValid t
      → t.requested ≡ request
      → Ensures LockDone (pursue lib t request q liq)
  unfolding pursue
  pursue_valid t (some request) q liq v e = settle_valid t request q liq v e
  pursue_valid t none q liq v e =
      if_rule (Ensures LockDone) (t.attempted || is_no_lock t.policy.mode) _ _ (λ y. v)
        (λ n.
          if_rule (Ensures LockDone)
            (is_lt (cmp (directed_difference liq t.entry t.side) t.activation)) _ _ (λ y. v)
            (λ m. activate_valid t q liq v (ground arith) e))

  pub last_valid : (t : LockTracker) (q : Quote) → LockValid t → LockValid (record t { last = q })
  last_valid t q v = record {
    scale_known = v.scale_known;
    attempt = let a = v.attempt in ground arith;
  }

  follow_valid : (t : LockTracker) (q : Quote) → LockValid t → Ensures LockDone (follow lib t q)
  unfolding follow
  follow_valid t q v =
      let u = record t { last = q } in
      let liq = lib.decimal (liquidation q t.side) in
      let w = last_valid t q v in
      if_rule (Ensures LockDone)
        (not (is_gt (sign (directed_difference liq t.active_stop t.side)))
          || not (is_lt (sign (directed_difference liq t.target t.side))))
        (some (exit_due_now lib u q liq)) (pursue lib u t.requested q liq)
        (λ y. exit_due_valid u q liq w) (λ n. pursue_valid u t.requested q liq w refl)

  -- From a tracker in its invariant Observe never dereferences nil, and keeps the invariant: a
  -- tracker that locks by scale has its stop, and the account of the one attempt is untried, under
  -- way, or ended as ineligible, accepted, rejected or canceled with exactly the counters of that
  -- outcome.
  pub observe_quote_valid :
      (t : LockTracker) (q : Quote) (continuity : Bool)
      → LockValid t
      → Ensures LockDone (observe_quote lib t q continuity)
  unfolding observe_quote
  observe_quote_valid t q continuity v =
      if_rule (Ensures LockDone) t.terminal _ _ (λ y. v)
        (λ h.
          if_rule (Ensures LockDone) (not (valid_quote q)) _ _ (λ y. v)
            (λ k.
              if_rule (Ensures LockDone)
                (not (after q.event t.last.event)
                  || ltb q.available_at_millis t.last.available_at_millis)
                _ _ (λ y. v)
                (λ m.
                  if_rule (Ensures LockDone) (not continuity) _ _
                    (λ y. record {
                      scale_known = v.scale_known;
                      attempt = let a = v.attempt in ground arith;
                    })
                    (λ n. follow_valid t q v))))
