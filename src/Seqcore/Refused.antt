-- ===== src/Seqcore/Refused.antt =====
-- The bars that Engine.Step refuses as invalid input, in exact arithmetic.
use heisentick_strat.Prelude.{
  Bool, Int64, List, Option, [], add64, arith, bias, false, if◌then◌else◌, inl, inr, int, max_int64,
  none, refl, some, sub64, true, ◌+◌, ◌<◌, ◌∷◌, ◌≡◌, ◌≢◌, ◌≤◌, ◌↔◌, ◌⊎◌, not, ltb, ◌==◌, ◌&&◌, ◌∙◌,
  ap,
}
use heisentick_strat.Seqcore.Types.{
  Bar, Event, InvalidInput, Snapshot, bad_ohlc, bar_index_exhausted, closure_without_hole,
  decision_time_overflow, event_sequence_exhausted, timeframe_not_positive, valid_bar,
}
use heisentick_strat.Seqcore.Engine.{
  CoreError, Engine, err, has_hole, input_error, invalid_input, order_error,
}
use heisentick_strat.Seqcore.Step.{advance, step, stepped}
use heisentick_strat.Seqcore.Refusals.{step_cases}
use heisentick_strat.Seqcore.Invariant.Stream.{EngineValid, LastFits}

-- The bar opens no later than one timeframe after the last.
abbrev pub NoHole : Int64 → Option Int64 → Int64 → Type 0
NoHole tf none at = Unit
NoHole tf (some last) at = at + bias ≤ last + tf

abbrev pub OpensLater : Option Int64 → Int64 → Type 0
OpensLater none at = Unit
OpensLater (some last) at = last < at

-- What is wrong with the bar; the last numbers of events and bars are kept free.
abbrev pub Fails : Engine → Bar → Bool → InvalidInput → Type 0
Fails e b declared bad_ohlc = valid_bar b ≡ false
Fails e b declared closure_without_hole =
    (declared ≡ true) × NoHole e.identity.timeframe_ms e.last_open b.open_ms
Fails e b declared decision_time_overflow = max_int64 + bias < b.open_ms + e.identity.timeframe_ms
Fails e b declared event_sequence_exhausted = max_int64 < e.last_event_seq + 16
Fails e b declared bar_index_exhausted = max_int64 ≤ e.last_index + 1
Fails e b declared timeframe_not_positive = ⊥

-- The reason is the first of the list that applies.
abbrev pub IsFirst : (InvalidInput → Type 0) → List InvalidInput → InvalidInput → Type 0
IsFirst P [] reason = ⊥
IsFirst P (r ∷ rs) reason = (P r × (reason ≡ r)) ⊎ (¬ P r × IsFirst P rs reason)

abbrev pub input_reasons : List InvalidInput
input_reasons =
    bad_ohlc ∷ closure_without_hole ∷ decision_time_overflow ∷ event_sequence_exhausted
    ∷ bar_index_exhausted ∷ []

-- A guard before the others.
guard-IsFirst :
    (P : InvalidInput → Type 0) (rs : List InvalidInput) (g : Bool) (r reason : InvalidInput)
    (rest : Option InvalidInput)
    → ((g ≡ true) ↔ P r)
    → ((rest ≡ some reason) ↔ IsFirst P rs reason)
    → ((if g then some r else rest) ≡ some reason) ↔ IsFirst P (r ∷ rs) reason
guard-IsFirst P rs true r reason rest (to, from) (k, l) = (
  λ h. inl (to refl, ground arith),
  λ x. elim x [ inl (p, q) ↦ ground arith | inr (n, q) ↦ absurd (n (to refl)) ],
)
guard-IsFirst P rs false r reason rest (to, from) (k, l) = (
  λ h. inr (λ p. absurd (let f = from p in ground arith), k h),
  λ x. elim x [ inl (p, q) ↦ absurd (let f = from p in ground arith) | inr (n, q) ↦ l q ],
)

closure_exact :
    (e : Engine) (b : Bar) (declared : Bool)
    → EngineValid e
    → ((declared && not (has_hole e b)) ≡ true) ↔ Fails e b declared closure_without_hole
unfolding has_hole add64
closure_exact e b declared v = by_last e.last_open refl v.last_fits
  where
    by_last :
        (last : Option Int64)
        → e.last_open ≡ last
        → LastFits e.identity.timeframe_ms last
        → ((declared && not (has_hole e b)) ≡ true)
          ↔ ((declared ≡ true) × NoHole e.identity.timeframe_ms last b.open_ms)
    by_last none q f = rw (q, has_hole) (λ h. (ground arith, tt), λ h. ground arith)
    by_last (some last) q f =
        let p = v.step_positive in
        (λ h. (ground arith, ground arith), λ h. let x = h.1 in ground arith)

pub input_error-IsFirst :
    (e : Engine) (b : Bar) (declared : Bool) (reason : InvalidInput)
    → EngineValid e
    → (input_error e b declared ≡ some reason) ↔ IsFirst (Fails e b declared) input_reasons reason
unfolding input_error sub64
input_error-IsFirst e b declared reason v =
    let p = v.step_positive in
    let w = v.step_word in
    let low = v.index_low in
    let high = v.index_high in
    let seq = v.seq_low in
    guard-IsFirst (Fails e b declared)
      (closure_without_hole ∷ decision_time_overflow ∷ event_sequence_exhausted
        ∷ bar_index_exhausted ∷ [])
      (not (valid_bar b)) bad_ohlc reason _ (λ h. ground arith, λ h. ground arith)
      (guard-IsFirst (Fails e b declared)
        (decision_time_overflow ∷ event_sequence_exhausted ∷ bar_index_exhausted ∷ [])
        (declared && not (has_hole e b)) closure_without_hole reason _
        (closure_exact e b declared v)
        (guard-IsFirst (Fails e b declared) (event_sequence_exhausted ∷ bar_index_exhausted ∷ [])
          (ltb (sub64 max_int64 e.identity.timeframe_ms) b.open_ms) decision_time_overflow reason _
          (λ h. ground arith, λ h. ground arith)
          (guard-IsFirst (Fails e b declared) (bar_index_exhausted ∷ [])
            (ltb (sub64 max_int64 (int 16)) e.last_event_seq) event_sequence_exhausted reason _
            (λ h. ground arith, λ h. ground arith)
            (guard-IsFirst (Fails e b declared) [] (e.last_index == sub64 max_int64 (int 1))
              bar_index_exhausted reason none (λ h. ground arith, λ h. ground arith)
              (λ h. absurd (ground arith), λ h. absurd h)))))

order_error-OpensLater :
    (e : Engine) (b : Bar) → (order_error e b ≡ none) ↔ OpensLater e.last_open b.open_ms
unfolding order_error
order_error-OpensLater e b = by_last e.last_open refl
  where
    by_last :
        (last : Option Int64)
        → e.last_open ≡ last
        → (order_error e b ≡ none) ↔ OpensLater last b.open_ms
    by_last none q = (λ h. tt, λ h. ground arith)
    by_last (some last) q = (λ h. ground arith, λ h. ground arith)

stepped-ne-err :
    (m : Option (Engine × Snapshot × List Event)) {e : Engine} {error : CoreError}
    → stepped m ≢ some (e, err error)
stepped-ne-err none h = cc
stepped-ne-err (some (e', snapshot, events)) h = ground arith

abbrev pub RefusedAs : Engine → Engine → Bar → Bool → InvalidInput → Type 0
RefusedAs e e' b declared reason =
    (e' ≡ e)
    × (e.terminal ≡ none)
    × OpensLater e.last_open b.open_ms
    × IsFirst (Fails e b declared) input_reasons reason

-- For an engine in the invariant, Step and StepAfterClosure refuse a bar as invalid input with a
-- reason, and leave the engine as it was, exactly when the engine has not stopped, the bar opens
-- after the last one, and the reason is the first of these that holds, in exact arithmetic: an
-- invalid bar, a declared closure where the bar opens within one timeframe of the last open or is
-- the first, a decision time past the largest int64, fewer than 16 event numbers left, or no bar
-- index left below the largest int64.
pub refused_iff :
    (e e' : Engine) (b : Bar) (declared : Bool) (reason : InvalidInput)
    → EngineValid e
    → (step e b declared ≡ some (e', err (invalid_input reason))) ↔ RefusedAs e e' b declared reason
refused_iff e e' b declared reason v =
    step_cases (λ r. (r ≡ some (e', err (invalid_input reason))) ↔ RefusedAs e e' b declared reason)
      e b declared
      (λ stop t. (λ h. absurd (ground arith), λ x. absurd (let y = x.1 in ground arith)))
      (λ stop t o. (
        λ h. absurd (ground arith),
        λ x. absurd (let y = (order_error-OpensLater e b).1 x.2 in ground arith),
      ))
      (λ why t o i. (
        λ h.
            let q : why ≡ reason = ground arith in
            (
              ground arith,
              t,
              (order_error-OpensLater e b).0 o,
              (input_error-IsFirst e b declared reason v).0 (i ∙ ap some q),
            ),
        λ x.
            let y = (input_error-IsFirst e b declared reason v).1 x.3 in
            let z = x.0 in ground arith,
      ))
      λ t o i. (
        λ h. absurd (stepped-ne-err (advance e b declared) h),
        λ x. absurd (let y = (input_error-IsFirst e b declared reason v).1 x.3 in ground arith),
      )
