-- ===== src/Seqcore/Checkpoint.antt =====
-- engine/seqcore/checkpoint.go: the content of a checkpoint, its validation, and Restore from a
-- decoded checkpoint. The JSON bytes and the check of their shape are not modelled.
use heisentick_strat.Seqcore.Engine.{
  SideState, Engine, Result, bar_order, checkpoint_identity, episode_id, episode_prefix, err,
  invalid_checkpoint, ok, unfinished, validate_identity,
}
use heisentick_strat.Seqcore.Types.{
  Bar, CheckpointIdentityError, CompletedSetup, Config, Countdown, CountdownState, Identity,
  IdentityField, Side, config_hash_field, duplicate_bar, freeze_id_field, open_time_field,
  out_of_order_bar, profile_id_field, schema_version_field, source_data_hash_field,
  source_symbol_field, source_timeframe_field, valid_bar, validate_config, buy, sell,
}
use heisentick_strat.Prelude.{
  Bool, Int64, List, Option, Text, [], add64, bool_eq, cut_prefix, false, format_int, if◌then◌else◌,
  int, is_finite, is_some, last?, leb, length, ltb, max_int64, neg, none, not, parse_int, some,
  sub64, text_eq, true, ◌&&◌, ◌==◌, ◌||◌, ◌∷◌,
}
use heisentick_strat.Seqcore.Phases.{direction, is_idle}

-- checkpointV1
pub record Checkpoint : Type 0 where
  pub identity : Identity
  pub state_version : Int64
  pub config : Config
  pub last_bar_index : Int64
  pub last_open_ms : Option Int64
  pub last_event_seq : Int64
  pub init_diagnostics_emitted : Bool
  pub previous_comparison : Int64
  pub history : List Bar
  pub buy : SideState
  pub sell : SideState

-- Checkpoint, up to json.Marshal.
unfoldable pub checkpoint : Engine → Result Checkpoint
checkpoint e = elim e.terminal [
  | some stop ↦ err (bar_order stop)
  | none ↦ ok (record {
    identity = e.identity;
    state_version = int 1;
    config = e.config;
    last_bar_index = e.last_index;
    last_open_ms = e.last_open;
    last_event_seq = e.last_event_seq;
    init_diagnostics_emitted = e.init_diagnostics_emitted;
    previous_comparison = e.previous_comparison;
    history = e.history;
    buy = e.buy_side;
    sell = e.sell_side;
  })
]

-- The reasons of validateCheckpoint, in their order.
pub data Fault : Type 0 where
  unsupported_state_version unsupported_saved_config invalid_index invalid_comparison : Fault
  long_history inconsistent_empty_stream inconsistent_header saved_decision_overflow : Fault
  history_end invalid_history_bar noncontiguous_history comparison_before_warmup : Fault
  both_unfinished invalid_run run_contradicts_comparison invalid_setup : Fault
  invalid_setup_identity invalid_perfection_references invalid_perfection_times : Fault
  idle_with_state invalid_active_count invalid_deferred_count invalid_completed_count : Fault
  invalid_state missing_identity countdown_without_setup invalid_admission : Fault
  inconsistent_references invalid_reference_index inconsistent_bar8_close : Fault

unfoldable pub stream_fault : Checkpoint → Option Fault
stream_fault c = elim c.last_open_ms [
  | none ↦
      if not (c.last_bar_index == neg 1)
        || not (c.last_event_seq == int 0)
        || c.init_diagnostics_emitted
        || not (length c.history == 0)
        || not (c.previous_comparison == int 0)
      then some inconsistent_empty_stream
      else none
  | some last ↦
      if ltb c.last_bar_index (int 0)
        || ltb c.last_event_seq (int 2)
        || not c.init_diagnostics_emitted
        || length c.history == 0
        || ltb (add64 c.last_bar_index (int 1)) (int (length c.history))
      then some inconsistent_header
      else if ltb (sub64 max_int64 c.identity.timeframe_ms) last
      then some saved_decision_overflow
      else (elim (last? c.history) [
        | none ↦ some history_end
        | some b ↦ if not (b.open_ms == last) then some history_end else none
      ])
]

abbrev pub is_noncontiguous : Int64 → Option Bar → Bar → Bool
is_noncontiguous tf none b = false
is_noncontiguous tf (some a) b = leb b.open_ms a.open_ms || ltb (add64 a.open_ms tf) b.open_ms

-- The loop over the history, after the bar `before`.
unfoldable pub history_fault : Int64 → Option Bar → List Bar → Option Fault
history_fault tf before [] = none
history_fault tf before (b ∷ bs) =
    let rest = history_fault tf (some b) bs in
    if not (valid_bar b) || ltb (sub64 max_int64 tf) b.open_ms
    then some invalid_history_bar
    else if is_noncontiguous tf before b
    then some noncontiguous_history
    else rest

unfoldable pub run_fault : Checkpoint → Side → SideState → Option Fault
run_fault c side s =
    if ltb s.setup_run (int 0)
      || ltb (add64 c.last_bar_index (int 1)) s.setup_run
      || not (bool_eq s.setup_active (ltb (int 0) s.setup_run))
    then some invalid_run
    else if ltb (int 0) s.setup_run
        && (ltb (length c.history) 4 || not (c.previous_comparison == direction side))
    then some run_contradicts_comparison
    else none

-- The perfection references of a completed Setup, given the last open.
unfoldable pub perfection_fault : Checkpoint → Int64 → CompletedSetup → Option Fault
perfection_fault c last setup = elim setup.perfected_at_bar_index [
  | none ↦
      if setup.perfected
        || is_some setup.perfected_at_bar_open_ms
        || is_some setup.perfected_at_decision_ms
      then some invalid_perfection_references
      else none
  | some index ↦ elim setup.perfected_at_bar_open_ms [
    | none ↦ some invalid_perfection_references
    | some open_ms ↦ elim setup.perfected_at_decision_ms [
      | none ↦ some invalid_perfection_references
      | some decision_ms ↦
          if not setup.perfected
          then some invalid_perfection_references
          else if ltb index setup.completion_bar_index
              || ltb c.last_bar_index index
              || ltb open_ms setup.completion_bar_open_ms
              || ltb last open_ms
              || ltb (sub64 max_int64 c.identity.timeframe_ms) open_ms
              || not (decision_ms == add64 open_ms c.identity.timeframe_ms)
          then some invalid_perfection_times
          else none
    ]
  ]
]

unfoldable pub setup_fault : Checkpoint → Side → Option CompletedSetup → Option Fault
unfolding perfection_fault
setup_fault c side none = none
setup_fault c side (some setup) = elim c.last_open_ms [
  | none ↦ some invalid_setup
  | some last ↦
      if ltb setup.completion_bar_index (int 0)
        || ltb c.last_bar_index setup.completion_bar_index
        || ltb last setup.completion_bar_open_ms
        || ltb (sub64 max_int64 c.identity.timeframe_ms) setup.completion_bar_open_ms
        || not (
            setup.completion_decision_ms
            == add64 setup.completion_bar_open_ms c.identity.timeframe_ms)
        || not (is_finite setup.bar6_extreme)
        || not (is_finite setup.bar7_extreme)
      then some invalid_setup
      else if not
          (text_eq setup.episode_id (episode_id c.identity side setup.completion_bar_open_ms))
      then some invalid_setup_identity
      else perfection_fault c last setup
]

unfoldable pub state_fault : Countdown → Option Fault
state_fault d = elim d.state [
  | CountdownState.idle ↦
      if not (d.count == int 0) || is_some d.setup_episode_id then some idle_with_state else none
  | CountdownState.active ↦
      if ltb d.count (int 0) || ltb (int 12) d.count then some invalid_active_count else none
  | CountdownState.deferred ↦ if not (d.count == int 12) then some invalid_deferred_count else none
  | CountdownState.completed ↦
      if not (d.count == int 13) then some invalid_completed_count else none
  | CountdownState.unknown s ↦ some invalid_state
]

abbrev pub after_setup : Int64 → Option CompletedSetup → Bool
after_setup open_ms none = false
after_setup open_ms (some setup) = ltb setup.completion_bar_open_ms open_ms

-- The admission timestamp at the end of a Countdown's episode id.
unfoldable pub admission_fault : Int64 → Option CompletedSetup → Text → Option Fault
admission_fault last setup suffix = elim (parse_int suffix) [
  | none ↦ some invalid_admission
  | some admitted_open ↦
      if not (text_eq (format_int admitted_open) suffix)
        || ltb last admitted_open
        || after_setup admitted_open setup
      then some invalid_admission
      else none
]

unfoldable pub identity_fault : Checkpoint → Side → SideState → Option Fault
unfolding admission_fault
identity_fault c side s =
    if is_idle s.countdown.state then none else (elim s.countdown.setup_episode_id [
      | none ↦ some missing_identity
      | some id ↦ elim (cut_prefix id (episode_prefix c.identity side)) [
        | none ↦ some missing_identity
        | some suffix ↦ if length suffix == 0 then some missing_identity else (elim c.last_open_ms [
          | none ↦ some countdown_without_setup
          | some last ↦
              if unfinished s.countdown && not (is_some s.last_completed_setup)
              then some countdown_without_setup
              else admission_fault last s.last_completed_setup suffix
        ])
      ]
    ])

-- One step of the loop over the references; `last` is the index before.
unfoldable pub reference_fault : Int64 → Int64 → Int64 → Option Int64 → Int64 → Option Fault
reference_fault last_bar count at reference last =
    if not (bool_eq (leb at count) (is_some reference))
    then some inconsistent_references
    else (elim reference [
      | none ↦ none
      | some p ↦
          if ltb p (int 0) || ltb last_bar p || leb p last
          then some invalid_reference_index
          else none
    ])

abbrev pub reached : Option Int64 → Int64 → Int64
reached none last = last
reached (some p) last = p

infixr 20 ◌or_else◌
abbrev pub ◌or_else◌ : Option Fault → Option Fault → Option Fault
none or_else g = g
some f or_else g = some f

unfoldable pub references_fault : Int64 → Countdown → Option Fault
unfolding reference_fault
references_fault last_bar d =
    reference_fault last_bar d.count (int 5) d.bar5_index (neg 1)
    or_else reference_fault last_bar d.count (int 8) d.bar8_index (reached d.bar5_index (neg 1))
    or_else reference_fault last_bar d.count (int 13) d.bar13_index
        (reached d.bar8_index (reached d.bar5_index (neg 1)))

unfoldable pub bar8_close_fault : SideState → Option Fault
bar8_close_fault s =
    if not (bool_eq (leb (int 8) s.countdown.count) (is_some s.bar8_close))
    then some inconsistent_bar8_close
    else (elim s.bar8_close [
      | none ↦ none
      | some close ↦ if not (is_finite close) then some inconsistent_bar8_close else none
    ])

-- The body of the loop over the sides.
unfoldable pub side_fault : Checkpoint → Side → SideState → Option Fault
side_fault c side s =
    run_fault c side s
    or_else setup_fault c side s.last_completed_setup
    or_else state_fault s.countdown
    or_else identity_fault c side s
    or_else references_fault c.last_bar_index s.countdown
    or_else bar8_close_fault s

abbrev when : Bool → Fault → Option Fault
when true f = some f
when false f = none

unfoldable pub header_fault : Checkpoint → Option Fault
header_fault c =
    if not (c.state_version == int 1)
    then some unsupported_state_version
    else if is_some (validate_config c.config)
    then some unsupported_saved_config
    else if ltb c.last_bar_index (neg 1)
        || ltb (sub64 max_int64 (int 1)) c.last_bar_index
        || ltb c.last_event_seq (int 0)
    then some invalid_index
    else if ltb c.previous_comparison (neg 1) || ltb (int 1) c.previous_comparison
    then some invalid_comparison
    else if ltb 4 (length c.history)
    then some long_history
    else none

-- validateCheckpoint
unfoldable pub validate_checkpoint : Checkpoint → Option Fault
validate_checkpoint c =
    header_fault c
    or_else stream_fault c
    or_else history_fault c.identity.timeframe_ms none c.history
    or_else when (ltb (length c.history) 4 && not (c.previous_comparison == int 0))
        comparison_before_warmup
    or_else when (unfinished c.buy.countdown && unfinished c.sell.countdown) both_unfinished
    or_else side_fault c buy c.buy
    or_else side_fault c sell c.sell

unfoldable pub hash_eq : Option Text → Option Text → Bool
hash_eq none none = true
hash_eq (some a) (some b) = text_eq a b
hash_eq _ _ = false

-- The first field in which the saved identity differs from the requested one.
unfoldable pub identity_mismatch : Identity → Identity → Option IdentityField
identity_mismatch saved requested =
    if not (text_eq saved.schema_version requested.schema_version)
    then some schema_version_field
    else if not (text_eq saved.profile_id requested.profile_id)
    then some profile_id_field
    else if not (text_eq saved.freeze_id requested.freeze_id)
    then some freeze_id_field
    else if not (text_eq saved.config_hash requested.config_hash)
    then some config_hash_field
    else if not (text_eq saved.source.symbol requested.source.symbol)
    then some source_symbol_field
    else if not (
        text_eq saved.source.timeframe requested.source.timeframe
        && saved.timeframe_ms == requested.timeframe_ms)
    then some source_timeframe_field
    else if not (hash_eq saved.source.data_hash requested.source.data_hash)
    then some source_data_hash_field
    else none

unfoldable pub next_open_error : Checkpoint → Int64 → Option CheckpointIdentityError
next_open_error c next_open_ms = elim c.last_open_ms [
  | none ↦ none
  | some last ↦
      if leb next_open_ms last
      then some (record {
        field = open_time_field;
        kind = some (if next_open_ms == last then duplicate_bar else out_of_order_bar);
      })
      else none
]

abbrev pub restored : Checkpoint → Engine
restored c = record {
  config = c.config;
  identity = c.identity;
  last_index = c.last_bar_index;
  last_open = c.last_open_ms;
  last_event_seq = c.last_event_seq;
  init_diagnostics_emitted = c.init_diagnostics_emitted;
  history = c.history;
  previous_comparison = c.previous_comparison;
  buy_side = c.buy;
  sell_side = c.sell;
  terminal = none;
}

-- Restore, of a decoded checkpoint.
unfoldable pub restore : Checkpoint → Identity → Int64 → Result Engine
restore c requested next_open_ms = elim (identity_mismatch c.identity requested) [
  | some field ↦ err (checkpoint_identity (record { field = field; kind = none }))
  | none ↦ elim (next_open_error c next_open_ms) [
    | some e ↦ err (checkpoint_identity e)
    | none ↦ elim (validate_identity c.identity) [
      | some e ↦ err e
      | none ↦ elim (validate_checkpoint c) [
        | some fault ↦ err invalid_checkpoint
        | none ↦ ok (restored c)
      ]
    ]
  ]
]
