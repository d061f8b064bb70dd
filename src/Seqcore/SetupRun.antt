-- ===== src/Seqcore/SetupRun.antt =====
-- The Setup run over a sequence of closes against the close four bars before, described without
-- the counter: a price flip and the bars that follow it in its direction.
use mathlib.Core.Path.{ap₂}
use heisentick_strat.Prelude.{
  ℕ, Int64, List, [], add64, ap, arith, inl, inr, int, length, max_int64, suc, zero, ◌<◌, ◌↔◌, ◌∷◌,
  ◌≡◌, ◌≢◌, ◌≤◌, ◌⊎◌, ◌+◌,
}
use heisentick_strat.Seqcore.Types.{Side, buy, sell}
use heisentick_strat.Seqcore.Phases.{direction, next_run, opposite_direction}
use heisentick_strat.Seqcore.Step.{run}

-- The comparison before the newest of the list.
abbrev pub previous_of : List Int64 → Int64
previous_of [] = int 0
previous_of (c ∷ cs) = c

-- The run of the engine after these comparisons, newest first.
pub run_after : Side → List Int64 → Int64
run_after side [] = int 0
run_after side (c ∷ cs) = next_run side c (previous_of cs) (run_after side cs)

-- k comparisons in the direction of the side after one against it.
abbrev pub flipped : Side → ℕ → List Int64 → List Int64
flipped side zero rest = opposite_direction side ∷ rest
flipped side (suc k) rest = direction side ∷ flipped side k rest

length-flipped :
    (side : Side) (k : ℕ) (rest : List Int64) → length (flipped side k rest) ≡ suc (k + length rest)
length-flipped side zero rest = omega arith
length-flipped side (suc k) rest = omega (arith, length-flipped side k rest)

run_after_range :
    (side : Side) (cs : List Int64)
    → length cs < 9223372036854775807
    → (int 0 ≤ run_after side cs) × (run_after side cs ≤ int (length cs))
unfolding run_after next_run add64
run_after_range side [] h = omega arith
run_after_range side (c ∷ cs) h = let ih = run_after_range side cs (omega arith) in ground arith

sides_differ : (side : Side) → direction side ≢ opposite_direction side
sides_differ buy = omega arith
sides_differ sell = omega arith

run_after-flipped_zero :
    (side : Side) (rest : List Int64) → run_after side (flipped side 0 rest) ≡ int 0
unfolding run_after next_run
run_after-flipped_zero side rest = ground (arith, sides_differ side)

run_after-flipped :
    (side : Side) (k : ℕ) (rest : List Int64)
    → k < 9223372036854775807
    → run_after side (flipped side k rest) ≡ int k
unfolding run_after next_run add64
run_after-flipped side zero rest h = run_after-flipped_zero side rest
run_after-flipped side (suc zero) rest h = ground (arith, run_after-flipped_zero side rest)
run_after-flipped side (suc (suc k)) rest h = ground (arith, run_after-flipped side (suc k) rest)

-- How a positive run came about.
next_run_inv :
    (side : Side) (c previous run : Int64) (k : ℕ)
    → int 0 ≤ run
    → run < max_int64
    → next_run side c previous run ≡ int (suc k)
    → (c ≡ direction side)
      × (((run ≡ int k) × (int 0 < run))
          ⊎ ((k ≡ 0) × (run ≡ int 0) × (previous ≡ opposite_direction side)))
unfolding next_run add64
next_run_inv side c previous run k lo hi h = ground arith

flipped_of_run :
    (side : Side) (k : ℕ) (cs : List Int64)
    → length cs < 9223372036854775807
    → run_after side cs ≡ int (suc k)
    → (rest : List Int64) × (cs ≡ flipped side (suc k) rest)
unfolding run_after
flipped_of_run side k [] h e = absurd (omega arith)
flipped_of_run side k (c ∷ cs) h e =
    let range = run_after_range side cs (omega arith) in
    let inv =
      next_run_inv side c (previous_of cs) (run_after side cs) k range.0 (omega (arith, range)) e in
    grow side k c cs inv (λ j f. flipped_of_run side j cs (omega arith) f)
  where
    grow :
        (side : Side) (k : ℕ) (c : Int64) (cs : List Int64)
        → (c ≡ direction side)
          × (((run_after side cs ≡ int k) × (int 0 < run_after side cs))
              ⊎ ((k ≡ 0)
                  × (run_after side cs ≡ int 0)
                  × (previous_of cs ≡ opposite_direction side)))
        → ((j : ℕ)
            → run_after side cs ≡ int (suc j)
            → (rest : List Int64) × (cs ≡ flipped side (suc j) rest))
        → (rest : List Int64) × (c ∷ cs ≡ flipped side (suc k) rest)
    grow side zero c cs (d, inl (r, p)) ih = absurd (omega arith)
    grow side (suc k) c cs (d, inl (r, p)) ih = let (rest, q) = ih k r in (rest, ap₂ ◌∷◌ d q)
    grow side (suc k) c cs (d, inr (z, r, p)) ih = absurd (omega arith)
    grow side zero c [] (d, inr (z, r, p)) ih = absurd (zero_side side p)
      where
        zero_side : (side : Side) → int 0 ≡ opposite_direction side → ⊥
        zero_side buy q = omega arith
        zero_side sell q = omega arith
    grow side zero c (b ∷ bs) (d, inr (z, r, p)) ih = (bs, ap₂ ◌∷◌ d (ap (λ o. o ∷ bs) p))

-- Over fewer than 2^63 - 1 comparisons, the Setup counter is k + 1 exactly when the newest k + 1
-- comparisons are on its side and the one before them is on the other side.
pub run_after_iff :
    (side : Side) (k : ℕ) (cs : List Int64)
    → length cs < 9223372036854775807
    → (run_after side cs ≡ int (suc k)) ↔ ((rest : List Int64) × (cs ≡ flipped side (suc k) rest))
run_after_iff side k cs h = (
  flipped_of_run side k cs h,
  λ (rest, e). rw e (
      run_after-flipped side (suc k) rest
        (omega (arith, ap length e, length-flipped side (suc k) rest))),
)
