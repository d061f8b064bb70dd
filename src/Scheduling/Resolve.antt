-- ===== src/Scheduling/Resolve.antt =====
-- engine/window.go: the bounds of a resolved window.
use mathlib.Core.Path.{subst}
use heisentick_strat.Prelude.{
  ℕ, Bool, Float, Int64, List, Option, Bool-cases, [], arith, get_elem?, inl, inr, length, none,
  refl, some, suc, ◌+◌, ◌<◌, ◌==◌, ◌∷◌, ◌≡◌, if_rule, last?, leb, ltb, not, zero, ◌&&◌, ◌-◌, ◌≤◌,
  ◌⊎◌, All, ◌≢◌, true, add64, int,
}
use heisentick_strat.Broker.Types.{Arithmetic, Bounds}
use heisentick_strat.Scheduling.Window.{
  find, index_of, ExecutionWindow, WindowError, bounds_of, end_at, from_context, from_start,
  is_next, past_series, resolve_execution_window, second_last, trade_end_of, window_of, from_last,
}

module _ (math : Arithmetic) where
  -- The bar at an index has the time.
  abbrev pub TimeAt : List Float → ℕ → Int64 → Type 0
  TimeAt ts k value = (t : Float) × (get_elem? ts k ≡ some t) × (math.to_int64 t ≡ value)

  index_of-TimeAt :
      (value : Int64) (i : ℕ) (ts : List Float) (k : ℕ)
      → index_of math value i ts ≡ some k
      → (j : ℕ) × (k ≡ i + j) × (j < length ts) × TimeAt ts j value
  unfolding index_of
  index_of-TimeAt value i [] k e = absurd (ground arith)
  index_of-TimeAt value i (t ∷ ts) k e = elim (Bool-cases (math.to_int64 t == value)) [
    | inl q ↦ (0, ground arith, omega arith, (t, refl, ground arith))
    | inr q ↦
        let r = index_of-TimeAt value (i + 1) ts k (ground arith) in
        (suc r.0, omega arith, omega arith, r.3)
  ]

  -- A start is the first bar or the bar of its time.
  abbrev pub Starts : List Float → Option Int64 → ℕ → Type 0
  Starts ts none k = k ≡ 0
  Starts ts (some value) k = TimeAt ts k value

  find-Starts :
      (ts : List Float) (value : Option Int64) (k : ℕ)
      → find math ts value ≡ some k
      → Starts ts value k
  find-Starts ts none k e = ground arith
  find-Starts ts (some value) k e =
      let r = index_of-TimeAt value 0 ts k e in
      let q : r.0 ≡ k = omega arith in subst (λ n. TimeAt ts n value) q r.3

  abbrev Absent : List Float → Int64 → Type 0
  Absent ts value = All (λ t. math.to_int64 t ≢ value) ts

  -- A time after the last bar, where gaps are allowed.
  abbrev Later : Bool → List Float → Int64 → Type 0
  Later gapful ts value =
      (gapful ≡ true) × ((l : Float) × (last? ts ≡ some l) × (math.to_int64 l < value))

  -- The time of the next bar: the step of the last two bars after the last one.
  abbrev Next : List Float → Int64 → Type 0
  Next ts value =
      (l p : Float) × (last? ts ≡ some l)
      × (second_last ts ≡ some p)
      × (int 0 < math.to_int64 (math.minus l p))
      × (add64 (math.to_int64 l) (math.to_int64 (math.minus l p)) ≡ value)

  -- An end that is not given is after the last bar. Any other is the time of the bar at the index,
  -- or, for the index after the last bar, the time of no bar but of the next one, or later than the
  -- last where gaps are allowed.
  abbrev pub Ends : Bool → List Float → Option Int64 → ℕ → Type 0
  Ends gapful ts none k = k ≡ length ts
  Ends gapful ts (some value) k =
      TimeAt ts k value
      ⊎ ((k ≡ length ts) × Absent ts value × (Later gapful ts value ⊎ Next ts value))

  abbrev EndFits : Bool → List Float → Option Int64 → ℕ ⊎ WindowError → Type 0
  EndFits gapful ts value (inr e) = Unit
  EndFits gapful ts value (inl k) = (k ≤ length ts) × Ends gapful ts value k

  index_of-Absent :
      (value : Int64) (i : ℕ) (ts : List Float) → index_of math value i ts ≡ none → Absent ts value
  unfolding index_of
  index_of-Absent value i [] e = tt
  index_of-Absent value i (t ∷ ts) e = elim (Bool-cases (math.to_int64 t == value)) [
    | inl q ↦ absurd (ground arith)
    | inr q ↦ (λ h. absurd (ground arith), index_of-Absent value (i + 1) ts (ground arith))
  ]

  past_series-EndFits :
      (ts : List Float) (value : Int64) (gapful : Bool) (last : Float) (previous : Option Float)
      → last? ts ≡ some last
      → second_last ts ≡ previous
      → Absent ts value
      → EndFits gapful ts (some value) (past_series math gapful (length ts) last previous value)
  past_series-EndFits ts value gapful last none l p n =
      if_rule (EndFits gapful ts (some value)) (gapful && ltb (math.to_int64 last) value) _ _
        (λ e. (omega arith, inr (refl, n, inl (ground arith, (last, l, ground arith))))) (λ _. tt)
  past_series-EndFits ts value gapful last (some prior) l p n =
      if_rule (EndFits gapful ts (some value)) (gapful && ltb (math.to_int64 last) value) _ _
        (λ e. (omega arith, inr (refl, n, inl (ground arith, (last, l, ground arith)))))
        (λ _.
          if_rule (EndFits gapful ts (some value)) (is_next math last (some prior) value) _ _
            (λ e. (omega arith, inr (refl, n, inr (last, prior, l, p, ground arith, ground arith))))
            (λ _. tt))

  end_at-EndFits :
      (ts : List Float) (value : Int64) (gapful : Bool) (last : Float) (previous : Option Float)
      (found : Option ℕ)
      → last? ts ≡ some last
      → second_last ts ≡ previous
      → index_of math value 0 ts ≡ found
      → EndFits gapful ts (some value) (end_at math gapful (length ts) last previous value found)
  end_at-EndFits ts value gapful last previous none l p e =
      past_series-EndFits ts value gapful last previous l p (index_of-Absent value 0 ts e)
  end_at-EndFits ts value gapful last previous (some k) l p e =
      let r = index_of-TimeAt value 0 ts k e in
      let q : r.0 ≡ k = omega arith in (omega arith, inl (subst (λ n. TimeAt ts n value) q r.3))

  trade_end-EndFits :
      (w : ExecutionWindow) (ts : List Float) (last : Float) (previous : Option Float)
      (value : Option Int64)
      → last? ts ≡ some last
      → second_last ts ≡ previous
      → w.trade_to ≡ value
      → EndFits w.allow_gapful ts value (trade_end_of math w ts last previous)
  trade_end-EndFits w ts last previous none l p e = rw e (omega arith, refl)
  trade_end-EndFits w ts last previous (some value) l p e =
      rw e
        (end_at-EndFits ts value w.allow_gapful last previous (index_of math value 0 ts) l p refl)

  -- The indexes of resolved bounds.
  pub record Resolved (ts : List Float) (w : ExecutionWindow) (b : Bounds) : Type 0 where
    pub context : b.context_start ≡ 0
    pub ordered : b.trade_start ≤ b.trade_end
    pub inside : b.trade_end < length ts
    pub start : Starts ts w.trade_from b.trade_start
    pub end : Ends w.allow_gapful ts w.trade_to (suc b.trade_end)

  abbrev BoundsFit : List Float → ExecutionWindow → Bounds ⊎ WindowError → Type 0
  BoundsFit ts w (inr e) = Unit
  BoundsFit ts w (inl b) = Resolved ts w b

  bounds_of-BoundsFit :
      (ts : List Float) (w : ExecutionWindow) (start : ℕ) (r : ℕ ⊎ WindowError)
      → Starts ts w.trade_from start
      → EndFits w.allow_gapful ts w.trade_to r
      → BoundsFit ts w (bounds_of math 0 start r)
  bounds_of-BoundsFit ts w start (inr e) s h = tt
  bounds_of-BoundsFit ts w start (inl past_end) s h =
      if_rule (BoundsFit ts w) (ltb start 0) _ _ (λ _. tt)
        (λ _.
          if_rule (BoundsFit ts w) (leb past_end start) _ _ (λ _. tt)
            (λ e. record {
              context = refl;
              ordered = ground arith;
              inside = ground arith;
              start = s;
              end =
                  (let q : past_end ≡ suc (past_end - 1) = ground arith in
                    subst (λ k. Ends w.allow_gapful ts w.trade_to k) q h.1);
            }))

  from_start-BoundsFit :
      (w : ExecutionWindow) (ts : List Float) (last : Float) (previous : Option Float)
      (found : Option ℕ)
      → last? ts ≡ some last
      → second_last ts ≡ previous
      → find math ts w.trade_from ≡ found
      → BoundsFit ts w (from_start math w ts last previous 0 found)
  from_start-BoundsFit w ts last previous none l p e = tt
  from_start-BoundsFit w ts last previous (some k) l p e =
      bounds_of-BoundsFit ts w k (trade_end_of math w ts last previous)
        (find-Starts ts w.trade_from k e) (trade_end-EndFits w ts last previous w.trade_to l p refl)

  from_context-BoundsFit :
      (w : ExecutionWindow) (ts : List Float) (last : Float) (previous : Option Float)
      (found : Option ℕ)
      → last? ts ≡ some last
      → second_last ts ≡ previous
      → BoundsFit ts w (from_context math w ts last previous found)
  from_context-BoundsFit w ts last previous none l p = tt
  from_context-BoundsFit w ts last previous (some zero) l p =
      from_start-BoundsFit w ts last previous (find math ts w.trade_from) l p refl
  from_context-BoundsFit w ts last previous (some (suc k)) l p =
      if_rule (BoundsFit ts w) (not (suc k == 0)) _ _ (λ _. tt) (λ e. absurd (ground arith))

  from_last-BoundsFit :
      (w : ExecutionWindow) (ts : List Float) (last : Option Float)
      → last? ts ≡ last
      → BoundsFit ts w (from_last math w ts last)
  from_last-BoundsFit w ts none l = tt
  from_last-BoundsFit w ts (some last) l =
      from_context-BoundsFit w ts last (second_last ts) (find math ts w.context_from) l refl

  BoundsFit-Resolved :
      (ts : List Float) (w : ExecutionWindow) (r : Bounds ⊎ WindowError) (b : Bounds)
      → BoundsFit ts w r
      → r ≡ inl b
      → Resolved ts w b
  BoundsFit-Resolved ts w r b h e = subst (BoundsFit ts w) e h

  -- Bounds that ResolveExecutionWindow returns start their context at index 0, and their trading
  -- indexes are ordered and inside the series; a requested start is the time of its bar; a
  -- requested end is the time of the bar after the last index, or it is the time of no bar, the
  -- last index is that of the series, and it is the next bar by the step of the last two or, where
  -- gaps are allowed, later than the last bar.
  pub resolve_execution_window-Resolved :
      (ts : List Float) (window : Option ExecutionWindow) (b : Bounds)
      → resolve_execution_window math ts window ≡ inl b
      → Resolved ts (window_of window) b
  unfolding resolve_execution_window
  resolve_execution_window-Resolved ts window b e =
      BoundsFit-Resolved ts (window_of window) _ b
        (from_last-BoundsFit (window_of window) ts (last? ts) refl) e
