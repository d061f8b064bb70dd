-- ===== src/Seqcore/Restore.antt =====
-- Restore: what it accepts it gives back unchanged, and the engine it makes is a sound one.
use heisentick_strat.Prelude.{
  Int64, Option, Text, ap, arith, int, none, refl, some, text_eq→eq, true, ◌<◌, ◌≡◌, IsWord, add64,
  false, length, ltb, max_int64, neg, not, sub64, ◌&&◌, ◌==◌, ◌≤◌, ◌⊎◌, ◌≢◌, Option-cases, inl, inr,
}
use heisentick_strat.Seqcore.Checkpoint.{
  Checkpoint, checkpoint, hash_eq, header_fault, identity_mismatch, next_open_error, restore,
  validate_checkpoint, bar8_close_fault, identity_fault, references_fault, restored, run_fault,
  side_fault, state_fault, stream_fault,
}
use heisentick_strat.Seqcore.Engine.{Engine, ok, SideState, unfinished, validate_identity}
use heisentick_strat.Seqcore.Types.{Identity, Side, buy, sell}
use heisentick_strat.Seqcore.Invariant.Countdown.{CountdownValid}
use heisentick_strat.Seqcore.Invariant.Stream.{EngineValid, LastFits}
use heisentick_strat.Seqcore.Invariant.Setup.{RunValid}

hash_eq→eq : (a b : Option Text) → hash_eq a b ≡ true → a ≡ b
unfolding hash_eq
hash_eq→eq none none h = refl
hash_eq→eq (some s) (some t) h = ap some (text_eq→eq s t h)
hash_eq→eq none (some t) h = cc
hash_eq→eq (some s) none h = cc

-- No mismatch means that the identities are equal, field by field.
identity_mismatch-none : (a b : Identity) → identity_mismatch a b ≡ none → a ≡ b
unfolding identity_mismatch
identity_mismatch-none a b h = ground (
  arith,
  text_eq→eq a.schema_version b.schema_version,
  text_eq→eq a.profile_id b.profile_id,
  text_eq→eq a.freeze_id b.freeze_id,
  text_eq→eq a.config_hash b.config_hash,
  text_eq→eq a.source.symbol b.source.symbol,
  text_eq→eq a.source.timeframe b.source.timeframe,
  hash_eq→eq a.source.data_hash b.source.data_hash,
)

state_version_one : (c : Checkpoint) → validate_checkpoint c ≡ none → c.state_version ≡ int 1
unfolding validate_checkpoint header_fault
state_version_one c h = ground arith

pub restore_inv :
    (c : Checkpoint) (requested : Identity) (next_open_ms : Int64) {e : Engine}
    → restore c requested next_open_ms ≡ ok e
    → (identity_mismatch c.identity requested ≡ none)
      × (next_open_error c next_open_ms ≡ none)
      × (validate_identity c.identity ≡ none)
      × (validate_checkpoint c ≡ none)
      × (e ≡ restored c)
unfolding restore
restore_inv c requested next_open_ms h = ground arith

checkpoint-restored : (c : Checkpoint) → c.state_version ≡ int 1 → checkpoint (restored c) ≡ ok c
unfolding checkpoint
checkpoint-restored c h = ground arith

-- A time after the last open, if there is one.
abbrev pub OpensAfter : Int64 → Option Int64 → Type 0
OpensAfter next none = Unit
OpensAfter next (some last) = last < next

next_open_later :
    (c : Checkpoint) (next_open_ms : Int64)
    → next_open_error c next_open_ms ≡ none
    → OpensAfter next_open_ms c.last_open_ms
unfolding next_open_error
next_open_later c next_open_ms h = elim (Option-cases c.last_open_ms) [
  | inl e ↦ rw e tt
  | inr (last, e) ↦ rw e (ground arith)
]

-- When Restore accepts a checkpoint, the engine has that very checkpoint and the requested
-- identity, and the next open is after its last one.
pub restore-checkpoint :
    (c : Checkpoint) (requested : Identity) (next_open_ms : Int64) {e : Engine}
    → restore c requested next_open_ms ≡ ok e
    → (checkpoint e ≡ ok c) × (e.identity ≡ requested) × OpensAfter next_open_ms e.last_open
restore-checkpoint c requested next_open_ms {e} h =
    let inv = restore_inv c requested next_open_ms h in
    rw inv.4 (
      checkpoint-restored c (state_version_one c inv.3),
      identity_mismatch-none c.identity requested inv.0,
      next_open_later c next_open_ms inv.1,
    )

-- The 64-bit fields of a decoded checkpoint.
pub record HasWords (c : Checkpoint) : Type 0 where
  pub timeframe : IsWord c.identity.timeframe_ms
  pub index : IsWord c.last_bar_index
  pub seq : IsWord c.last_event_seq
  pub last : (last : Int64) → c.last_open_ms ≡ some last → IsWord last

-- The faults are tried in order, so none of them means none of each.
validate_parts :
    (c : Checkpoint)
    → validate_checkpoint c ≡ none
    → (header_fault c ≡ none)
      × (stream_fault c ≡ none)
      × ((ltb (length c.history) 4 && not (c.previous_comparison == int 0)) ≡ false)
      × ((unfinished c.buy.countdown && unfinished c.sell.countdown) ≡ false)
      × (side_fault c buy c.buy ≡ none)
      × (side_fault c sell c.sell ≡ none)
unfolding validate_checkpoint
validate_parts c h = ground arith

header_valid :
    (c : Checkpoint)
    → header_fault c ≡ none
    → (neg 1 ≤ c.last_bar_index)
      × (c.last_bar_index < max_int64)
      × (int 0 ≤ c.last_event_seq)
      × (length c.history ≤ 4)
      × ((c.previous_comparison ≡ neg 1)
          ⊎ (c.previous_comparison ≡ int 0)
          ⊎ (c.previous_comparison ≡ int 1))
unfolding header_fault sub64
header_valid c h = ground arith

stream-LastFits :
    (c : Checkpoint)
    → int 0 < c.identity.timeframe_ms
    → IsWord c.identity.timeframe_ms
    → stream_fault c ≡ none
    → LastFits c.identity.timeframe_ms c.last_open_ms
unfolding stream_fault sub64
stream-LastFits c pos word h = ground arith

side_parts :
    (c : Checkpoint) (side : Side) (s : SideState)
    → side_fault c side s ≡ none
    → (run_fault c side s ≡ none)
      × (state_fault s.countdown ≡ none)
      × (identity_fault c side s ≡ none)
      × (references_fault c.last_bar_index s.countdown ≡ none)
      × (bar8_close_fault s ≡ none)
unfolding side_fault
side_parts c side s h = ground arith

run_fault-RunValid :
    (c : Checkpoint) (side : Side) (s : SideState)
    → neg 1 ≤ c.last_bar_index
    → c.last_bar_index < max_int64
    → length c.history ≤ 4
    → run_fault c side s ≡ none
    → RunValid c.last_bar_index (length c.history) c.previous_comparison side s
unfolding run_fault add64
run_fault-RunValid c side s lo hi le h = ground arith

side_fault-CountdownValid :
    (c : Checkpoint) (side : Side) (s : SideState)
    → state_fault s.countdown ≡ none
    → identity_fault c side s ≡ none
    → references_fault c.last_bar_index s.countdown ≡ none
    → bar8_close_fault s ≡ none
    → CountdownValid s
unfolding state_fault identity_fault references_fault bar8_close_fault
side_fault-CountdownValid c side s st id re cl = record {
  fits = ground arith;
  id_set = ground arith;
  bar5_set = ground arith;
  bar8_set = ground arith;
  bar13_set = ground arith;
  close_set = ground arith;
}

identity_step_positive : (id : Identity) → validate_identity id ≡ none → int 0 < id.timeframe_ms
unfolding validate_identity
identity_step_positive id h = ground arith

comparison_warm :
    (c : Checkpoint)
    → length c.history ≤ 4
    → (ltb (length c.history) 4 && not (c.previous_comparison == int 0)) ≡ false
    → c.previous_comparison ≢ int 0
    → length c.history ≡ 4
comparison_warm c le h z = ground arith

side_valid :
    (c : Checkpoint) (side : Side) (s : SideState)
    → header_fault c ≡ none
    → side_fault c side s ≡ none
    → RunValid c.last_bar_index (length c.history) c.previous_comparison side s × CountdownValid s
side_valid c side s h f =
    let head = header_valid c h in
    let p = side_parts c side s f in
    (
      run_fault-RunValid c side s head.0 head.1 head.3 p.0,
      side_fault-CountdownValid c side s p.1 p.2 p.3 p.4,
    )

restored-EngineValid :
    (c : Checkpoint)
    → HasWords c
    → validate_identity c.identity ≡ none
    → validate_checkpoint c ≡ none
    → EngineValid (restored c)
restored-EngineValid c w i h =
    let p = validate_parts c h in
    let head = header_valid c p.0 in
    let (buy_run, buy_countdown) = side_valid c buy c.buy p.0 p.4 in
    let (sell_run, sell_countdown) = side_valid c sell c.sell p.0 p.5 in
    let pos = identity_step_positive c.identity i in
    record {
      step_positive = pos;
      step_word = w.timeframe;
      index_low = head.0;
      index_high = head.1;
      seq_low = head.2;
      seq_word = w.seq;
      last_fits = stream-LastFits c pos w.timeframe p.1;
      bars = head.3;
      comparison = record { value = head.4; warm = λ z. comparison_warm c head.3 p.2 z };
      buy_run = buy_run;
      sell_run = sell_run;
      buy_countdown = buy_countdown;
      sell_countdown = sell_countdown;
      one = ap not p.3;
    }

-- An engine that Restore makes from a checkpoint with 64-bit fields satisfies the invariant of the
-- engine.
pub restore-EngineValid :
    (c : Checkpoint) (requested : Identity) (next_open_ms : Int64) {e : Engine}
    → HasWords c
    → restore c requested next_open_ms ≡ ok e
    → EngineValid e
restore-EngineValid c requested next_open_ms w h =
    let inv = restore_inv c requested next_open_ms h in
    rw inv.4 (restored-EngineValid c w inv.2 inv.3)
