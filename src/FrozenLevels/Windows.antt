-- ===== src/FrozenLevels/Windows.antt =====
-- engine/frozenlevels/windows.go: completed windows of five-minute bars. The
-- digests are an argument; Camarilla and its float arithmetic are not modelled.
use heisentick_strat.Prelude.{
  ℕ, Bool, Float, Int64, List, Option, Text, [], add64, bias, fin, float_lt, if◌then◌else◌, int,
  ltb, neg, none, not, some, sub64, suc, ◌%◌, ◌&&◌, ◌*◌, ◌+◌, ◌-◌, ◌/◌, ◌==◌, ◌>>=◌, ◌||◌, ◌∷◌,
  zero,
}
use heisentick_strat.FrozenLevels.Types.{
  Source, SourceError, finite_positive, m5_millis, other_side, source_eq, valid_millis,
  validate_source,
}
use heisentick_strat.FrozenLevels.Calendar.{contract_version}
pub mod Causal

pub data WindowKind : Type 0 where
  rolling_m30 clock_m30 clock_m15 : WindowKind
  other_window : Text → WindowKind

pub record CompletedBar : Type 0 where
  pub start_millis : Int64
  pub end_millis : Int64
  pub known_at_millis : Int64
  pub complete : Bool
  pub open_price : Float
  pub high : Float
  pub low : Float
  pub close : Float
  pub source : Source

pub record Window : Type 0 where
  pub id : Text
  pub version : Text
  pub kind : WindowKind
  pub start_millis : Int64
  pub end_millis : Int64
  pub known_at_millis : Int64
  pub frozen_at_millis : Int64
  pub bar_count : Int64
  pub source : Source
  pub open_price : Float
  pub high : Float
  pub low : Float
  pub close : Float

pub data WindowError : Type 0 where
  invalid_window_decision_time unsupported_window missing_completed_window : WindowError
  unavailable_window_bar invalid_window_ohlc duplicate_window_slot : WindowError
  missing_window_slot mixed_window_source : WindowError
  window_source : SourceError → WindowError

pub data WindowResult {ℓ} (A : Type ℓ) : Type ℓ where
  built : A → WindowResult A
  unbuilt : WindowError → WindowResult A

abbrev pub Slots : Type 0
Slots = List (Option CompletedBar)

-- The number of slots and the alignment of a kind.
unfoldable pub window_shape : WindowKind → Option (ℕ × ℕ)
window_shape rolling_m30 = some (6, m5_millis)
window_shape clock_m30 = some (6, 6 * m5_millis)
window_shape clock_m15 = some (3, 3 * m5_millis)
window_shape (other_window s) = none

unfoldable pub no_slots : ℕ → Slots
no_slots zero = []
no_slots (suc n) = none ∷ no_slots n

-- The checks of one relevant bar.
unfoldable pub bar_error : Int64 → CompletedBar → Option WindowError
bar_error at b =
    if not ((b.start_millis - bias) % m5_millis == 0)
      || not (b.end_millis == add64 b.start_millis (int m5_millis))
      || not (valid_millis b.known_at_millis)
      || ltb b.known_at_millis b.end_millis
      || ltb at b.known_at_millis
      || not b.complete
    then some unavailable_window_bar
    else (elim (validate_source b.source) [
      | some e ↦ some (window_source e)
      | none ↦
          if not (finite_positive b.open_price)
            || not (finite_positive b.high)
            || not (finite_positive b.low)
            || not (finite_positive b.close)
            || float_lt b.open_price b.low
            || float_lt b.close b.low
            || float_lt b.high b.open_price
            || float_lt b.high b.close
          then some invalid_window_ohlc
          else none
    ])

-- slots[slot] = b, where the slot is free; none where it is taken or out of range.
unfoldable pub put_slot : ℕ → CompletedBar → Slots → Option Slots
put_slot n b [] = none
put_slot zero b (some old ∷ slots) = none
put_slot zero b (none ∷ slots) = some (some b ∷ slots)
put_slot (suc n) b (s ∷ slots) = do rest ← put_slot n b slots; some (s ∷ rest)

abbrev pub is_relevant : Int64 → Int64 → CompletedBar → Bool
is_relevant from to b = not (ltb b.start_millis from) && ltb b.start_millis to

-- What a relevant bar does, from its error and the slots with it.
unfoldable pub slot_result : Option WindowError → Option Slots → WindowResult Slots
slot_result (some e) slots = unbuilt e
slot_result none none = unbuilt duplicate_window_slot
slot_result none (some slots) = built slots

-- One turn of the loop over the bars. The slot of a relevant bar is in range, since the slots cover
-- the times from `from` to `to`.
unfoldable pub place_bar : Int64 → Int64 → Int64 → CompletedBar → Slots → WindowResult Slots
place_bar at from to b slots =
    if not (is_relevant from to b)
    then built slots
    else slot_result (bar_error at b) (put_slot ((b.start_millis - from) / m5_millis) b slots)

unfoldable pub place_bars :
    Int64 → Int64 → Int64 → List CompletedBar → WindowResult Slots → WindowResult Slots
place_bars at from to bars (unbuilt e) = unbuilt e
place_bars at from to [] (built slots) = built slots
place_bars at from to (b ∷ bars) (built slots) =
    place_bars at from to bars (place_bar at from to b slots)

abbrev pub higher : Float → Float → Float
higher x y = if float_lt y x then x else y

abbrev pub lower : Float → Float → Float
lower x y = if float_lt x y then x else y

-- A slot after the first joins the window.
unfoldable pub join_bar : CompletedBar → Window → Window
join_bar b w = record w {
  high = higher b.high w.high;
  low = lower b.low w.low;
  close = b.close;
  known_at_millis =
      if ltb w.known_at_millis b.known_at_millis then b.known_at_millis else w.known_at_millis;
}

abbrev pub start_window : CompletedBar → Window → Window
start_window b w = record w {
  source = b.source;
  open_price = b.open_price;
  high = b.high;
  low = b.low;
}

-- The loop over the slots after the first.
unfoldable pub join_slots : Slots → Window → WindowResult Window
join_slots [] w = built w
join_slots (none ∷ slots) w = unbuilt missing_window_slot
join_slots (some b ∷ slots) w =
    let rest = join_slots slots (join_bar b w) in
    if not (source_eq b.source w.source) then unbuilt mixed_window_source else rest

-- The loop over the slots.
unfoldable pub fill_window : Slots → Window → WindowResult Window
fill_window [] w = built w
fill_window (none ∷ slots) w = unbuilt missing_window_slot
fill_window (some b ∷ slots) w = join_slots slots (join_bar b (start_window b w))

no_source : Source
no_source = record { provider = []; dataset = []; sha256 = []; side = other_side [] }

-- The window before its bars.
unfoldable pub empty_window : WindowKind → Int64 → Int64 → Int64 → Window
unfolding no_source
empty_window kind at from to = record {
  id = [];
  version = contract_version;
  kind = kind;
  start_millis = from;
  end_millis = to;
  known_at_millis = int 0;
  frozen_at_millis = at;
  bar_count = int 0;
  source = no_source;
  open_price = fin 0 0;
  high = fin 0 0;
  low = fin 0 0;
  close = fin 0 0;
}

-- at / alignment * alignment
unfoldable pub aligned_end : Int64 → ℕ → Int64
aligned_end at alignment = bias + (at - bias) / alignment * alignment

unfoldable pub label_window : (Window → Text) → ℕ → WindowResult Window → WindowResult Window
label_window identity want (unbuilt e) = unbuilt e
label_window identity want (built w) =
    let counted = record w { bar_count = int want } in
    built (record counted { id = identity counted })

-- The loops over the bars, then over the slots.
unfoldable pub gather :
    WindowKind → Int64 → Int64 → Int64 → WindowResult Slots → WindowResult Window
gather kind at from to (unbuilt e) = unbuilt e
gather kind at from to (built slots) = fill_window slots (empty_window kind at from to)

-- FreezeWindow between the given ends.
unfoldable pub freeze_between :
    (Window → Text)
    → WindowKind
    → Int64
    → List CompletedBar
    → ℕ
    → Int64
    → Int64
    → WindowResult Window
freeze_between identity kind at bars want from to =
    if ltb from (int 0)
    then unbuilt missing_completed_window
    else label_window identity want
        (gather kind at from to (place_bars at from to bars (built (no_slots want))))

-- FreezeWindow from the shape of the kind.
unfoldable pub freeze_shape :
    (Window → Text) → WindowKind → Int64 → List CompletedBar → Option (ℕ × ℕ) → WindowResult Window
freeze_shape identity kind at bars none = unbuilt unsupported_window
freeze_shape identity kind at bars (some (want, alignment)) =
    let to = aligned_end at alignment in
    freeze_between identity kind at bars want (sub64 to (int (want * m5_millis))) to

-- FreezeWindow
unfoldable pub freeze_window :
    (Window → Text) → WindowKind → Int64 → List CompletedBar → WindowResult Window
freeze_window identity kind at bars =
    if not (valid_millis at)
    then unbuilt invalid_window_decision_time
    else freeze_shape identity kind at bars (window_shape kind)

-- NetDirection
unfoldable pub net_direction : Window → Int64
net_direction w =
    if float_lt w.open_price w.close
    then int 1
    else if float_lt w.close w.open_price
    then neg 1
    else int 0
