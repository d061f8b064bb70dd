-- ===== src/Scheduling/Window.antt =====
-- engine/window.go, ResolveExecutionWindow. The times of the series are given as floats, and an
-- index is a number.
use heisentick_strat.Prelude.{
  ℕ, Bool, Float, Int64, List, Option, [], add64, false, if◌then◌else◌, inl, inr, int, last?, leb,
  length, ltb, none, not, some, ◌&&◌, ◌+◌, ◌-◌, ◌==◌, ◌∷◌, ◌⊎◌,
}
use heisentick_strat.Broker.Types.{Arithmetic, Bounds}

-- ExecutionWindow
pub record ExecutionWindow : Type 0 where
  pub context_from : Option Int64
  pub trade_from : Option Int64
  pub trade_to : Option Int64
  pub allow_gapful : Bool

pub data WindowError : Type 0 where
  empty_series context_absent context_not_first trade_from_absent : WindowError
  trade_to_absent trade_to_not_next trade_before_context window_empty : WindowError

abbrev pub no_window : ExecutionWindow
no_window = record { context_from = none; trade_from = none; trade_to = none; allow_gapful = false }

-- A nil window.
abbrev pub window_of : Option ExecutionWindow → ExecutionWindow
window_of none = no_window
window_of (some w) = w

-- The element before the last.
unfoldable pub second_last : List Float → Option Float
second_last [] = none
second_last (x ∷ []) = none
second_last (x ∷ y ∷ []) = some x
second_last (x ∷ y ∷ z ∷ zs) = second_last (y ∷ z ∷ zs)

module _ (math : Arithmetic) where
  -- The first index from i whose time is the value.
  unfoldable pub index_of : Int64 → ℕ → List Float → Option ℕ
  index_of value i [] = none
  index_of value i (t ∷ ts) =
      let rest = index_of value (i + 1) ts in if math.to_int64 t == value then some i else rest

  -- find
  abbrev pub find : List Float → Option Int64 → Option ℕ
  find ts none = some 0
  find ts (some value) = index_of value 0 ts

  -- Whether an endpoint after the last bar is the next bar: `previous` is the bar before the last.
  abbrev pub is_next : Float → Option Float → Int64 → Bool
  is_next last none endpoint = false
  is_next last (some previous) endpoint =
      let step = math.to_int64 (math.minus last previous) in
      ltb (int 0) step && add64 (math.to_int64 last) step == endpoint

  -- One past the last tradable index for an endpoint that is no bar.
  abbrev pub past_series : Bool → ℕ → Float → Option Float → Int64 → ℕ ⊎ WindowError
  past_series gapful n last previous endpoint =
      if gapful && ltb (math.to_int64 last) endpoint then inl n else (elim previous [
        | none ↦ inr trade_to_absent
        | some p ↦ if is_next last (some p) endpoint then inl n else inr trade_to_not_next
      ])

  abbrev pub end_at : Bool → ℕ → Float → Option Float → Int64 → Option ℕ → ℕ ⊎ WindowError
  end_at gapful n last previous endpoint (some index) = inl index
  end_at gapful n last previous endpoint none = past_series gapful n last previous endpoint

  -- One past the last tradable index, from the last two times.
  abbrev pub trade_end_of : ExecutionWindow → List Float → Float → Option Float → ℕ ⊎ WindowError
  trade_end_of w ts last previous = elim w.trade_to [
    | none ↦ inl (length ts)
    | some endpoint ↦
        end_at w.allow_gapful (length ts) last previous endpoint (index_of endpoint 0 ts)
  ]

  -- The bounds, from the start and one past the end.
  abbrev pub bounds_of : ℕ → ℕ → ℕ ⊎ WindowError → Bounds ⊎ WindowError
  bounds_of context_start trade_start (inr e) = inr e
  bounds_of context_start trade_start (inl past_end) =
      if ltb trade_start context_start
      then inr trade_before_context
      else if leb past_end trade_start
      then inr window_empty
      else inl (record {
        context_start = context_start;
        trade_start = trade_start;
        trade_end = past_end - 1;
      })

  abbrev pub from_start :
      ExecutionWindow → List Float → Float → Option Float → ℕ → Option ℕ → Bounds ⊎ WindowError
  from_start w ts last previous context_start none = inr trade_from_absent
  from_start w ts last previous context_start (some trade_start) =
      bounds_of context_start trade_start (trade_end_of w ts last previous)

  abbrev pub from_context :
      ExecutionWindow → List Float → Float → Option Float → Option ℕ → Bounds ⊎ WindowError
  from_context w ts last previous none = inr context_absent
  from_context w ts last previous (some context_start) =
      if not (context_start == 0)
      then inr context_not_first
      else from_start w ts last previous context_start (find ts w.trade_from)

  abbrev pub from_last : ExecutionWindow → List Float → Option Float → Bounds ⊎ WindowError
  from_last w ts none = inr empty_series
  from_last w ts (some last) = from_context w ts last (second_last ts) (find ts w.context_from)

  -- ResolveExecutionWindow
  unfoldable pub resolve_execution_window :
      List Float → Option ExecutionWindow → Bounds ⊎ WindowError
  resolve_execution_window ts window = from_last (window_of window) ts (last? ts)
