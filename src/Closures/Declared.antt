-- ===== src/Closures/Declared.antt =====
-- engine/sequential_closure_calendar.go: a hole is accepted exactly if a declared interval is it.
use heisentick_strat.Prelude.{
  ℕ, Bool, Int64, List, Option, [], arith, false, is_some, none, refl, some, ◌&&◌, ◌+◌, ◌==◌, ◌||◌,
  ◌∷◌, ◌≡◌, ◌≤◌, Option-cases, add64, inl, inr,
}
use heisentick_strat.Closures.{
  SequentialClosure, closures_fault, find_closure, CalendarLibrary, SequentialClosureCalendar,
  calendar_fault, closure_index_for, sized_fault, timeframe_step,
}

-- Whether some closure is [start, open).
unfoldable pub is_declared : Int64 → Int64 → List SequentialClosure → Bool
is_declared start open_ms [] = false
is_declared start open_ms (c ∷ cs) =
    (c.start_ms == start && c.end_ms == open_ms) || is_declared start open_ms cs

-- After a closure that ends at `start` or later, no closure starts there.
undeclared_after :
    (step : Int64) (i : ℕ) (before : SequentialClosure) (cs : List SequentialClosure)
    (start open_ms : Int64)
    → start ≤ before.end_ms
    → closures_fault step i (some before) cs ≡ none
    → is_declared start open_ms cs ≡ false
unfolding closures_fault is_declared
undeclared_after step i before [] start open_ms le h = refl
undeclared_after step i before (c ∷ cs) start open_ms le h =
    let later = undeclared_after step (i + 1) c cs start open_ms in ground (arith, later)

find_closure_declared :
    (step : Int64) (i j : ℕ) (before : Option SequentialClosure) (cs : List SequentialClosure)
    (start open_ms : Int64)
    → closures_fault step i before cs ≡ none
    → is_some (find_closure start open_ms j cs) ≡ is_declared start open_ms cs
unfolding closures_fault find_closure is_declared
find_closure_declared step i j before [] start open_ms h = refl
find_closure_declared step i j before (c ∷ cs) start open_ms h =
    let after_c = undeclared_after step (i + 1) c cs start open_ms in
    let ih = find_closure_declared step (i + 1) (j + 1) (some c) cs start open_ms in
    ground (arith, after_c, ih)

sized_closures :
    (lib : CalendarLibrary) (c : SequentialClosureCalendar) (step : Int64)
    → sized_fault lib c step ≡ none
    → closures_fault step 0 none c.closures ≡ none
unfolding sized_fault
sized_closures lib c step h = elim (Option-cases (closures_fault step 0 none c.closures)) [
  | inl e ↦ e
  | inr (fault, e) ↦ ground (arith, e, h)
]

calendar_closures :
    (lib : CalendarLibrary) (c : SequentialClosureCalendar) (step : Int64)
    → calendar_fault lib c ≡ none
    → timeframe_step c.timeframe ≡ some step
    → closures_fault step 0 none c.closures ≡ none
unfolding calendar_fault
calendar_closures lib c step h t = sized_closures lib c step (ground arith)

-- In an accepted calendar, with the step of its timeframe, closureIndexFor finds a closure for the
-- hole before a bar exactly if a declared closure starts at the first missing open and ends at the
-- bar.
pub closure_index_declared :
    (lib : CalendarLibrary) (c : SequentialClosureCalendar) (previous_open open_ms step : Int64)
    → calendar_fault lib c ≡ none
    → timeframe_step c.timeframe ≡ some step
    → is_some (closure_index_for c previous_open open_ms step)
      ≡ is_declared (add64 previous_open step) open_ms c.closures
unfolding closure_index_for
closure_index_declared lib c previous_open open_ms step h t =
    find_closure_declared step 0 0 none c.closures (add64 previous_open step) open_ms
      (calendar_closures lib c step h t)
