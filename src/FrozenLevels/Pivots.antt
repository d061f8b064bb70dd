-- ===== src/FrozenLevels/Pivots.antt =====
-- engine/frozenlevels/windows.go, Camarilla: the ladder of a frozen window. The arithmetic of
-- floats and the digest are arguments.
pub mod Laddered
use heisentick_strat.Prelude.{
  ℕ, Bool, Float, Int64, List, Text, [], format_int, if◌then◌else◌, int, length, not, text_eq, true,
  ◌&&◌, ◌++◌, ◌+◌, ◌-◌, ◌==◌, ◌||◌, ◌∷◌,
}
use heisentick_strat.FrozenLevels.Windows.{Window}
use heisentick_strat.FrozenLevels.Calendar.{contract_version}
use heisentick_strat.FrozenLevels.Types.{finite_positive}

pub record Pivot : Type 0 where
  pub name : Text
  pub price : Float

pub record Ladder : Type 0 where
  pub version : Text
  pub window_id : Text
  pub known_at_millis : Int64
  pub frozen_at_millis : Int64
  pub levels : List Pivot

-- Go's +, -, * and / on float64, the constants of the source, and the digest of a window.
pub record PivotLibrary : Type 0 where
  pub plus : Float → Float → Float
  pub minus : Float → Float → Float
  pub times : Float → Float → Float
  pub over : Float → Float → Float
  pub eleven_tenths : Float
  pub whole_float : ℕ → Float
  pub window_identity : Window → Text

pub data LadderError : Type 0 where
  invalid_window_identity invalid_ladder_price : LadderError

pub data LadderResult : Type 0 where
  laddered : Ladder → LadderResult
  unladdered : LadderError → LadderResult

unfoldable pub all_finite : List Pivot → Bool
all_finite [] = true
all_finite (p ∷ ps) = finite_positive p.price && all_finite ps

module _ (lib : PivotLibrary) where
  unfoldable pub spread : Window → Float
  spread w = lib.times lib.eleven_tenths (lib.minus w.high w.low)

  -- S4 to S1, of the divisors 2, 4, 6 and 12.
  unfoldable pub supports : Window → ℕ → List ℕ → List Pivot
  supports w n [] = []
  supports w n (k ∷ ks) =
      record {
        name = 83 ∷ format_int (int n);
        price = lib.minus w.close (lib.over (spread w) (lib.whole_float k));
      }
      ∷ supports w (n - 1) ks

  -- R1 to R4, of the divisors 12, 6, 4 and 2.
  unfoldable pub resistances : Window → ℕ → List ℕ → List Pivot
  resistances w n [] = []
  resistances w n (k ∷ ks) =
      record {
        name = 82 ∷ format_int (int n);
        price = lib.plus w.close (lib.over (spread w) (lib.whole_float k));
      }
      ∷ resistances w (n + 1) ks

  unfoldable pub pivots : Window → List Pivot
  pivots w =
      supports w 4 (2 ∷ 4 ∷ 6 ∷ 12 ∷ [])
      ++ record { name = 67 ∷ []; price = w.close } ∷ resistances w 1 (12 ∷ 6 ∷ 4 ∷ 2 ∷ [])

  -- Camarilla
  unfoldable pub camarilla : Window → LadderResult
  camarilla w =
      if not (text_eq w.version contract_version)
        || length w.id == 0
        || not (text_eq (lib.window_identity (record w { id = [] })) w.id)
      then unladdered invalid_window_identity
      else if not (all_finite (pivots w))
      then unladdered invalid_ladder_price
      else laddered (record {
        version = contract_version;
        window_id = w.id;
        known_at_millis = w.known_at_millis;
        frozen_at_millis = w.frozen_at_millis;
        levels = pivots w;
      })
