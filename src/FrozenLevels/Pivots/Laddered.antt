-- ===== src/FrozenLevels/Pivots/Laddered.antt =====
-- engine/frozenlevels/windows.go: a window that FreezeWindow froze, given to Camarilla.
use heisentick_strat.Prelude.{Int64, Text, [], ◌≡◌, ◌≤◌}
use heisentick_strat.FrozenLevels.Calendar.{contract_version}
use heisentick_strat.FrozenLevels.Windows.{Window, WindowResult, built, unbuilt}
use heisentick_strat.FrozenLevels.Pivots.{LadderResult, invalid_ladder_price, laddered, unladdered}

-- A window before its id.
abbrev Blank : Int64 → Window → Type 0
Blank at w = (w.version ≡ contract_version) × (w.frozen_at_millis ≡ at) × (w.id ≡ [])

abbrev AreBlank : Int64 → WindowResult Window → Type 0
AreBlank at (unbuilt e) = Unit
AreBlank at (built w) = Blank at w

module _ (identity : Window → Text) where
  -- The id of a window is the digest of its content without the id.
  abbrev Labelled : Int64 → WindowResult Window → Type 0
  Labelled at (unbuilt e) = Unit
  Labelled at (built w) =
      (w.version ≡ contract_version)
      × (w.frozen_at_millis ≡ at)
      × (w.id ≡ identity (record w { id = [] }))

-- A ladder of the window that was known at the time, or a price that is not one.
abbrev pub LadderOf : Int64 → Window → LadderResult → Type 0
LadderOf at w (unladdered e) = e ≡ invalid_ladder_price
LadderOf at w (laddered l) =
    (l.window_id ≡ w.id) × (l.frozen_at_millis ≡ at) × (l.known_at_millis ≤ at)
