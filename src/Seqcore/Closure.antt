-- ===== src/Seqcore/Closure.antt =====
-- A declared closure inside the four bars of history, and Restore.
use mathlib.Core.Path.{subst}
use heisentick_strat.Prelude.{
  Int64, List, Option, [], add64, arith, length, ltb, none, refl, some, true, ◌++◌, ◌∷◌, ◌≡◌, ◌≢◌,
  ◌≤◌, ap, ◌∙◌,
}
use heisentick_strat.Seqcore.Types.{Bar, Event, Identity, Snapshot}
use heisentick_strat.Seqcore.Checkpoint.{
  Checkpoint, checkpoint, history_fault, restore, validate_checkpoint,
}
use heisentick_strat.Seqcore.Engine.{Engine, has_hole, input_error, ok}
use heisentick_strat.Seqcore.Step.{advance, open_bar, push_history, step, stepped}
use heisentick_strat.Seqcore.Restore.{restore_inv}
use heisentick_strat.Seqcore.Refusals.{step_cases}

-- The engine after a declared closure keeps its history across the hole.
advance_history :
    (e e' : Engine) (b : Bar) (snapshot : Snapshot) (events : List Event)
    → advance e b true ≡ some (e', snapshot, events)
    → (e'.history ≡ push_history e.history b) × (e'.identity ≡ e.identity)
unfolding advance open_bar
advance_history e e' b snapshot events h = ground arith

closure_needs_hole : (e : Engine) (b : Bar) → input_error e b true ≡ none → has_hole e b ≡ true
unfolding input_error
closure_needs_hole e b h = ground arith

-- A history that ends with a hole before its last bar is faulty.
history_fault_hole :
    (tf : Int64) (before : Option Bar) (pre : List Bar) (a b : Bar)
    → ltb (add64 a.open_ms tf) b.open_ms ≡ true
    → history_fault tf before (pre ++ a ∷ b ∷ []) ≢ none
unfolding history_fault
history_fault_hole tf before [] a b h e = ground arith
history_fault_hole tf before (p ∷ ps) a b h e =
    ground (arith, history_fault_hole tf (some p) ps a b h)

push_history_ends :
    (pre : List Bar) (a b : Bar)
    → length pre ≤ 3
    → (rest : List Bar) × (push_history (pre ++ a ∷ []) b ≡ rest ++ a ∷ b ∷ [])
push_history_ends [] a b h = ([], refl)
push_history_ends (p ∷ []) a b h = (p ∷ [], refl)
push_history_ends (p ∷ q ∷ []) a b h = (p ∷ q ∷ [], refl)
push_history_ends (p ∷ q ∷ r ∷ []) a b h = (q ∷ r ∷ [], refl)
push_history_ends (p ∷ q ∷ r ∷ s ∷ t) a b h = absurd (omega arith)

validate_history :
    (c : Checkpoint)
    → validate_checkpoint c ≡ none
    → history_fault c.identity.timeframe_ms none c.history ≡ none
unfolding validate_checkpoint
validate_history c h = ground arith

stepped-eq-ok :
    (m : Option (Engine × Snapshot × List Event)) {e : Engine} {snapshot : Snapshot}
    {events : List Event}
    → stepped m ≡ some (e, ok (snapshot, events))
    → m ≡ some (e, snapshot, events)
stepped-eq-ok none h = cc
stepped-eq-ok (some (e', snapshot', events')) h = ground arith

checkpoint_parts :
    (e : Engine) (c : Checkpoint)
    → checkpoint e ≡ ok c
    → (c.history ≡ e.history) × (c.identity ≡ e.identity)
unfolding checkpoint
checkpoint_parts e c h = ground arith

-- The history of the checkpoint has a hole before its last bar.
closure_fault :
    (e e' : Engine) (a b : Bar) (pre : List Bar) (snapshot : Snapshot) (events : List Event)
    (c : Checkpoint)
    → e.history ≡ pre ++ a ∷ []
    → length pre ≤ 3
    → ltb (add64 a.open_ms e.identity.timeframe_ms) b.open_ms ≡ true
    → advance e b true ≡ some (e', snapshot, events)
    → checkpoint e' ≡ ok c
    → validate_checkpoint c ≢ none
closure_fault e e' a b pre snapshot events c hist short hole done saved valid =
    let (h, id) = advance_history e e' b snapshot events done in
    let (ch, cid) = checkpoint_parts e' c saved in
    let (rest, ends) = push_history_ends pre a b short in
    let whole : c.history ≡ rest ++ a ∷ b ∷ [] =
      ch ∙ (h ∙ (ap (λ l. push_history l b) hist ∙ ends)) in
    let fine : history_fault e.identity.timeframe_ms none (rest ++ a ∷ b ∷ []) ≡ none =
      subst (λ (l : List Bar). history_fault e.identity.timeframe_ms none l ≡ none) whole
        (subst (λ (i : Identity). history_fault i.timeframe_ms none c.history ≡ none) (cid ∙ id)
          (validate_history c valid)) in
    history_fault_hole e.identity.timeframe_ms none rest a b hole fine

hole_after :
    (e : Engine) (b : Bar) (last : Int64)
    → e.last_open ≡ some last
    → has_hole e b ≡ true
    → ltb (add64 last e.identity.timeframe_ms) b.open_ms ≡ true
unfolding has_hole
hole_after e b last l h = ground arith

closure_checkpoint :
    (e e' : Engine) (a b : Bar) (pre : List Bar) (snapshot : Snapshot) (events : List Event)
    (c : Checkpoint)
    → e.history ≡ pre ++ a ∷ []
    → length pre ≤ 3
    → e.last_open ≡ some a.open_ms
    → checkpoint e' ≡ ok c
    → step e b true ≡ some (e', ok (snapshot, events))
    → validate_checkpoint c ≢ none
closure_checkpoint e e' a b pre snapshot events c hist short last saved =
    step_cases (λ r. r ≡ some (e', ok (snapshot, events)) → validate_checkpoint c ≢ none) e b true
      (λ stop t h. absurd (ground arith)) (λ stop t o h. absurd (ground arith))
      (λ reason t o i h. absurd (ground arith))
      λ t o i h.
        closure_fault e e' a b pre snapshot events c hist short
          (hole_after e b a.open_ms last (closure_needs_hole e b i))
          (stepped-eq-ok (advance e b true) h) saved

-- A checkpoint taken right after an accepted declared closure, where the history of at most four
-- bars ended with the last open, is refused by Restore under every identity and next open.
pub closure_not_restorable :
    (e e' r : Engine) (a b : Bar) (pre : List Bar) (snapshot : Snapshot) (events : List Event)
    (c : Checkpoint) (requested : Identity) (next_open_ms : Int64)
    → e.history ≡ pre ++ a ∷ []
    → length pre ≤ 3
    → e.last_open ≡ some a.open_ms
    → step e b true ≡ some (e', ok (snapshot, events))
    → checkpoint e' ≡ ok c
    → restore c requested next_open_ms ≢ ok r
closure_not_restorable e e' r a b pre snapshot events c requested next hist short last done saved
      restored_ok =
    closure_checkpoint e e' a b pre snapshot events c hist short last saved done
      (restore_inv c requested next restored_ok).3
