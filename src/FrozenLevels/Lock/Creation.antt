-- ===== src/FrozenLevels/Lock/Creation.antt =====
-- engine/frozenlevels/lock.go: a tracker that NewLockTracker makes.
use mathlib.Core.Path.{subst}
use heisentick_strat.Prelude.{Option, arith, if_rule, leb, none, not, refl, some, ◌≡◌}
use heisentick_strat.FrozenLevels.Scale.{ScaleLibrary, ScaleResult, located, unlocated}
use heisentick_strat.FrozenLevels.Lock.Invariant.{Attempt, LockValid, untried}
use heisentick_strat.FrozenLevels.Prices.{Direction}
use heisentick_strat.FrozenLevels.Calendar.{FrozenOpening}
use heisentick_strat.FrozenLevels.Lock.{
  LockLevels, LockPolicy, LockTracker, NewLock, PositionSeed, contract_invalid, geometry_invalid,
  initial_tracker, is_other, is_scale, new_lock_tracker, not_tracking, start_lock, target_due,
  tracking, with_location, with_pivots, with_pivots_after, with_scale,
}
use heisentick_strat.FrozenLevels.Types.{valid_quote}

module _ (lib : ScaleLibrary) where
  -- What NewLockTracker gives.
  abbrev NewLockValid : NewLock → Type 0
  NewLockValid (not_tracking e) = Unit
  NewLockValid (tracking t) = LockValid t

  with_pivots_valid :
      (seed : PositionSeed) (policy : LockPolicy) (levels : Option LockLevels) (t : LockTracker)
      → LockValid t
      → NewLockValid (with_pivots lib seed policy levels t)
  unfolding with_pivots
  with_pivots_valid seed policy none t v = ground arith
  with_pivots_valid seed policy (some l) t v =
      let k = v.scale_known in let a = v.attempt in ground arith

  with_location_valid :
      (t : LockTracker) (r : ScaleResult) → Attempt t → NewLockValid (with_location lib t r)
  unfolding with_location
  with_location_valid t (unlocated e) a = tt
  with_location_valid t (located l stop) a = record {
    scale_known = λ y. refl;
    attempt = ground arith;
  }

  with_scale_valid :
      (seed : PositionSeed) (policy : LockPolicy) (opening : Option FrozenOpening) (t : LockTracker)
      → Attempt t
      → is_scale t.policy.mode ≡ is_scale policy.mode
      → NewLockValid (with_scale lib seed policy opening t)
  unfolding with_scale
  with_scale_valid seed policy none t a e =
      if_rule NewLockValid (is_scale policy.mode) _ _ (λ y. tt)
        (λ n. record { scale_known = ground arith; attempt = a })
  with_scale_valid seed policy (some f) t a e =
      if_rule NewLockValid (is_scale policy.mode) _ _
        (λ y.
          if_rule NewLockValid (leb seed.entry_quote.event.at_millis f.frozen_at_millis) _ _
            (λ y. tt) (λ n. with_location_valid t _ a))
        (λ n. tt)

  with_pivots_after_valid :
      (seed : PositionSeed) (policy : LockPolicy) (levels : Option LockLevels) (r : NewLock)
      → NewLockValid r
      → NewLockValid (with_pivots_after lib seed policy levels r)
  unfolding with_pivots_after
  with_pivots_after_valid seed policy levels (not_tracking e) v = tt
  with_pivots_after_valid seed policy levels (tracking t) v =
      with_pivots_valid seed policy levels t v

  start_lock_valid :
      (seed : PositionSeed) (policy : LockPolicy) (opening : Option FrozenOpening)
      (levels : Option LockLevels) (side : Option Direction)
      → NewLockValid (start_lock lib seed policy opening levels side)
  unfolding start_lock
  start_lock_valid seed policy opening levels none = tt
  start_lock_valid seed policy opening levels (some side) =
      let t = initial_tracker lib seed policy side in
      if_rule NewLockValid (geometry_invalid lib t) _ _ (λ y. tt)
        (λ n.
          if_rule NewLockValid (target_due lib t) _ _ (λ y. tt)
            (λ m.
              with_pivots_after_valid seed policy levels _
                (with_scale_valid seed policy opening t (untried refl refl refl) refl)))

  -- NewLockTracker
  new_lock_all :
      (seed : PositionSeed) (policy : LockPolicy) (opening : Option FrozenOpening)
      (levels : Option LockLevels)
      → NewLockValid (new_lock_tracker lib seed policy opening levels)
  unfolding new_lock_tracker
  new_lock_all seed policy opening levels =
      if_rule NewLockValid (not (valid_quote seed.entry_quote)) _ _ (λ y. tt)
        (λ n.
          if_rule NewLockValid (contract_invalid lib seed policy) _ _ (λ y. tt)
            (λ n.
              if_rule NewLockValid (is_other policy.mode) _ _ (λ y. tt)
                (λ n. start_lock_valid seed policy opening levels seed.side)))

  -- A tracker that NewLockTracker makes satisfies the invariant of trackers.
  pub new_lock_tracker_valid :
      (seed : PositionSeed) (policy : LockPolicy) (opening : Option FrozenOpening)
      (levels : Option LockLevels) (t : LockTracker)
      → new_lock_tracker lib seed policy opening levels ≡ tracking t
      → LockValid t
  new_lock_tracker_valid seed policy opening levels t e =
      subst NewLockValid e (new_lock_all seed policy opening levels)
