-- ===== src/FrozenLevels/Windows/Causal.antt =====
-- engine/frozenlevels/windows.go: a window holds only what was known at its decision.
use mathlib.Core.Path.{subst}
use heisentick_strat.Prelude.{
  ℕ, All, Int64, Option, arith, none, some, suc, true, zero, ◌≡◌, ◌≤◌, [], ◌∷◌, List, if_rule, not,
  ◌>>=◌, Text, refl, int, ltb,
}
use heisentick_strat.FrozenLevels.Windows.{
  Slots, WindowResult, CompletedBar, bar_error, built, no_slots, unbuilt, put_slot, Window,
  fill_window, is_relevant, join_bar, join_slots, place_bar, place_bars, WindowError, WindowKind,
  freeze_window, slot_result, aligned_end, empty_window, freeze_shape, gather, label_window,
  start_window, window_shape, freeze_between,
}
use heisentick_strat.FrozenLevels.Types.{source_eq, valid_millis}

-- A bar that may stand in a slot: it is complete, and known at the decision.
pub record BarKnown (at : Int64) (b : CompletedBar) : Type 0 where
  pub is_complete : b.complete ≡ true
  pub known : b.known_at_millis ≤ at
  pub ended : b.end_millis ≤ b.known_at_millis

abbrev SlotKnown : Int64 → Option CompletedBar → Type 0
SlotKnown at none = Unit
SlotKnown at (some b) = BarKnown at b

abbrev Known : Int64 → WindowResult Slots → Type 0
Known at (unbuilt e) = Unit
Known at (built slots) = All (SlotKnown at) slots

bar_error-BarKnown : (at : Int64) (b : CompletedBar) → bar_error at b ≡ none → BarKnown at b
unfolding bar_error
bar_error-BarKnown at b h = ground arith

no_slots_known : (at : Int64) (n : ℕ) → All (SlotKnown at) (no_slots n)
unfolding no_slots
no_slots_known at zero = tt
no_slots_known at (suc n) = (tt, no_slots_known at n)

abbrev KnownIfPut : Int64 → Option Slots → Type 0
KnownIfPut at none = Unit
KnownIfPut at (some slots) = All (SlotKnown at) slots

after_slot :
    (at : Int64) (s : Option CompletedBar) (r : Option Slots)
    → SlotKnown at s
    → KnownIfPut at r
    → KnownIfPut at (r >>= λ rest. some (s ∷ rest))
after_slot at s none k h = tt
after_slot at s (some rest) k h = (k, h)

put_slot_known :
    (at : Int64) (n : ℕ) (b : CompletedBar) (slots : Slots)
    → BarKnown at b
    → All (SlotKnown at) slots
    → KnownIfPut at (put_slot n b slots)
unfolding put_slot
put_slot_known at n b [] k h = tt
put_slot_known at zero b (some old ∷ slots) k h = tt
put_slot_known at zero b (none ∷ slots) k h = (k, h.1)
put_slot_known at (suc n) b (s ∷ slots) k h =
    after_slot at s _ h.0 (put_slot_known at n b slots k h.1)

slot_result-Known :
    (at : Int64) (e : Option WindowError) (r : Option Slots)
    → (e ≡ none → KnownIfPut at r)
    → Known at (slot_result e r)
unfolding slot_result
slot_result-Known at (some e) r h = tt
slot_result-Known at none none h = tt
slot_result-Known at none (some slots) h = h refl

place_bar-Known :
    (at from to : Int64) (b : CompletedBar) (slots : Slots)
    → All (SlotKnown at) slots
    → Known at (place_bar at from to b slots)
unfolding place_bar
place_bar-Known at from to b slots h =
    if_rule (Known at) (not (is_relevant from to b)) _ _ (λ y. h)
      (λ n.
        slot_result-Known at (bar_error at b) _
          (λ e. put_slot_known at _ b slots (bar_error-BarKnown at b e) h))

place_bars-Known :
    (at from to : Int64) (bars : List CompletedBar) (r : WindowResult Slots)
    → Known at r
    → Known at (place_bars at from to bars r)
unfolding place_bars
place_bars-Known at from to bars (unbuilt e) h = tt
place_bars-Known at from to [] (built slots) h = h
place_bars-Known at from to (b ∷ bars) (built slots) h =
    place_bars-Known at from to bars _ (place_bar-Known at from to b slots h)

-- What is known of a window, and when it ended.
pub record WindowCausal (at : Int64) (w : Window) : Type 0 where
  pub nothing_later : w.known_at_millis ≤ at
  pub ended : w.end_millis ≤ at

abbrev Causal : Int64 → WindowResult Window → Type 0
Causal at (unbuilt e) = Unit
Causal at (built w) = WindowCausal at w

join_bar_causal :
    (at : Int64) (b : CompletedBar) (w : Window)
    → BarKnown at b
    → WindowCausal at w
    → WindowCausal at (join_bar b w)
unfolding join_bar
join_bar_causal at b w k v =
    let known = k.known in let later = v.nothing_later in let e = v.ended in ground arith

join_slots-Causal :
    (at : Int64) (slots : Slots) (w : Window)
    → All (SlotKnown at) slots
    → WindowCausal at w
    → Causal at (join_slots slots w)
unfolding join_slots
join_slots-Causal at [] w h v = v
join_slots-Causal at (none ∷ slots) w h v = tt
join_slots-Causal at (some b ∷ slots) w h v =
    if_rule (Causal at) (not (source_eq b.source w.source)) _ _ (λ y. tt)
      (λ n. join_slots-Causal at slots (join_bar b w) h.1 (join_bar_causal at b w h.0 v))

fill_window-Causal :
    (at : Int64) (slots : Slots) (w : Window)
    → All (SlotKnown at) slots
    → WindowCausal at w
    → Causal at (fill_window slots w)
unfolding fill_window
fill_window-Causal at [] w h v = v
fill_window-Causal at (none ∷ slots) w h v = tt
fill_window-Causal at (some b ∷ slots) w h v =
    let first : WindowCausal at (start_window b w) = record {
      nothing_later = v.nothing_later;
      ended = v.ended;
    } in
    join_slots-Causal at slots _ h.1 (join_bar_causal at b _ h.0 first)

gather-Causal :
    (kind : WindowKind) (at from to : Int64) (r : WindowResult Slots)
    → int 0 ≤ at
    → to ≤ at
    → Known at r
    → Causal at (gather kind at from to r)
unfolding gather empty_window
gather-Causal kind at from to (unbuilt e) z t h = tt
gather-Causal kind at from to (built slots) z t h =
    fill_window-Causal at slots _ h (record { nothing_later = z; ended = t })

label_window-Causal :
    (identity : Window → Text) (want : ℕ) (at : Int64) (r : WindowResult Window)
    → Causal at r
    → Causal at (label_window identity want r)
unfolding label_window
label_window-Causal identity want at (unbuilt e) v = tt
label_window-Causal identity want at (built w) v = record {
  nothing_later = v.nothing_later;
  ended = v.ended;
}

between-Causal :
    (identity : Window → Text) (kind : WindowKind) (at : Int64) (bars : List CompletedBar)
    (want : ℕ) (from to : Int64)
    → int 0 ≤ at
    → to ≤ at
    → Causal at (freeze_between identity kind at bars want from to)
unfolding freeze_between
between-Causal identity kind at bars want from to z t =
    if_rule (Causal at) (ltb from (int 0)) _ _ (λ y. tt)
      (λ n. label_window-Causal identity want at _ (
        gather-Causal kind at from to _ z t
          (place_bars-Known at from to bars (built (no_slots want)) (no_slots_known at want))))

shape-Causal :
    (identity : Window → Text) (kind : WindowKind) (at : Int64) (bars : List CompletedBar)
    → int 0 ≤ at
    → Causal at (freeze_shape identity kind at bars (window_shape kind))
unfolding window_shape aligned_end freeze_shape
shape-Causal identity WindowKind.rolling_m30 at bars z =
    between-Causal identity _ at bars 6 _ _ z (omega arith)
shape-Causal identity WindowKind.clock_m30 at bars z =
    between-Causal identity _ at bars 6 _ _ z (omega arith)
shape-Causal identity WindowKind.clock_m15 at bars z =
    between-Causal identity _ at bars 3 _ _ z (omega arith)
shape-Causal identity (WindowKind.other_window s) at bars z = tt

freeze_window_all :
    (identity : Window → Text) (kind : WindowKind) (at : Int64) (bars : List CompletedBar)
    → Causal at (freeze_window identity kind at bars)
unfolding freeze_window
freeze_window_all identity kind at bars =
    if_rule (Causal at) (not (valid_millis at)) _ _ (λ y. tt)
      (λ n. shape-Causal identity kind at bars (ground arith))

-- A frozen window ended and was known at or before its decision.
pub freeze_window_causal :
    (identity : Window → Text) (kind : WindowKind) (at : Int64) (bars : List CompletedBar)
    (w : Window)
    → freeze_window identity kind at bars ≡ built w
    → WindowCausal at w
freeze_window_causal identity kind at bars w e =
    subst (Causal at) e (freeze_window_all identity kind at bars)
