-- ===== src/Seqcore/Refusals.antt =====
-- The branches of Engine.Step: the terminal error, a bar out of order, a refused bar, and an
-- accepted one.
use heisentick_strat.Prelude.{
  ap, Bool, Option-cases, inl, inr, none, some, ◌≡◌, Int64, add64, arith, if◌then◌else◌, int, refl,
  ◌==◌, ◌↔◌, ◌≤◌,
}
use heisentick_strat.Seqcore.Types.{
  Bar, BarOrderError, InvalidInput, duplicate_bar, out_of_order_bar,
}
use heisentick_strat.Seqcore.Engine.{
  Engine, bar_order, err, input_error, invalid_input, order_error,
}
use heisentick_strat.Seqcore.Step.{Outcome, advance, step, stepped}

-- A property of the outcome, by the branch that `step` takes.
pub step_cases :
    (P : Outcome → Type 0) (e : Engine) (b : Bar) (declared : Bool)
    → ((stop : BarOrderError) → e.terminal ≡ some stop → P (some (e, err (bar_order stop))))
    → ((stop : BarOrderError)
        → e.terminal ≡ none
        → order_error e b ≡ some stop
        → P (some (record e { terminal = some stop }, err (bar_order stop))))
    → ((reason : InvalidInput)
        → e.terminal ≡ none
        → order_error e b ≡ none
        → input_error e b declared ≡ some reason
        → P (some (e, err (invalid_input reason))))
    → (e.terminal ≡ none
        → order_error e b ≡ none
        → input_error e b declared ≡ none
        → P (stepped (advance e b declared)))
    → P (step e b declared)
unfolding step
step_cases P e b declared stopped disordered refused accepted = elim (Option-cases e.terminal) [
  | inr (stop, t) ↦ rw (t, step) (stopped stop t)
  | inl t ↦ elim (Option-cases (order_error e b)) [
    | inr (stop, o) ↦ rw (t, o, step) (disordered stop t o)
    | inl o ↦ elim (Option-cases (input_error e b declared)) [
      | inr (reason, i) ↦ rw (t, o, i, step) (refused reason t o i)
      | inl i ↦ rw (t, o, i, step) (accepted t o i)
    ]
  ]
]

pub step-stopped :
    (e : Engine) (b : Bar) (declared : Bool) (stop : BarOrderError)
    → e.terminal ≡ some stop
    → step e b declared ≡ some (e, err (bar_order stop))
step-stopped e b declared stop t =
    step_cases (λ r. r ≡ some (e, err (bar_order stop))) e b declared
      (λ other u. let q : other ≡ stop = ground arith in ap (λ x. some (e, err (bar_order x))) q)
      (λ other u o. absurd (ground arith)) (λ reason u o i. absurd (ground arith))
      (λ u o i. absurd (ground arith))

pub step-refused :
    (e : Engine) (b : Bar) (declared : Bool) (reason : InvalidInput)
    → e.terminal ≡ none
    → order_error e b ≡ none
    → input_error e b declared ≡ some reason
    → step e b declared ≡ some (e, err (invalid_input reason))
step-refused e b declared reason t o i =
    step_cases (λ r. r ≡ some (e, err (invalid_input reason))) e b declared
      (λ stop u. absurd (ground arith)) (λ stop u q. absurd (ground arith))
      (λ other u q j.
        let q : other ≡ reason = ground arith in ap (λ x. some (e, err (invalid_input x))) q)
      (λ u q j. absurd (ground arith))

pub step-accepted :
    (e : Engine) (b : Bar) (declared : Bool)
    → e.terminal ≡ none
    → order_error e b ≡ none
    → input_error e b declared ≡ none
    → step e b declared ≡ stepped (advance e b declared)
step-accepted e b declared t o i =
    step_cases (λ r. r ≡ stepped (advance e b declared)) e b declared
      (λ stop u. absurd (ground arith)) (λ stop u q. absurd (ground arith))
      (λ reason u q j. absurd (ground arith)) (λ u q j. refl)

-- A bar that does not open after the last one stops a running engine for good with an error that
-- tells duplicates from disorder.
pub disorder_is_final :
    (e : Engine) (b later : Bar) (declared closure : Bool) (last : Int64)
    → e.terminal ≡ none
    → e.last_open ≡ some last
    → b.open_ms ≤ last
    → (stop : BarOrderError) × ((stop.kind ≡ duplicate_bar) ↔ (b.open_ms ≡ last))
      × (stop.previous_open_ms ≡ last)
      × (stop.open_ms ≡ b.open_ms)
      × (step e b declared ≡ some (record e { terminal = some stop }, err (bar_order stop)))
      × (step (record e { terminal = some stop }) later closure
          ≡ some (record e { terminal = some stop }, err (bar_order stop)))
unfolding step order_error
disorder_is_final e b later declared closure last t l le = (
  record {
    kind = if b.open_ms == last then duplicate_bar else out_of_order_bar;
    bar_index = add64 e.last_index (int 1);
    previous_open_ms = last;
    open_ms = b.open_ms;
  },
  ground arith,
  refl,
  refl,
  ground arith,
  refl,
)
