-- ===== src/Seqcore/Invariant/Start.antt =====
-- The engines that New makes and that Restore accepts satisfy the invariant.
use heisentick_strat.Prelude.{Int64, IsWord, arith, inl, inr, int, neg, refl, ◌<◌, ◌≡◌}
use heisentick_strat.Seqcore.Types.{Config, Identity, Side, buy, sell}
use heisentick_strat.Seqcore.Engine.{Engine, fresh_engine, new, ok, validate_identity, zero_side}
use heisentick_strat.Seqcore.Invariant.Stream.{EngineValid}
use heisentick_strat.Seqcore.Invariant.Setup.{RunValid}
use heisentick_strat.Seqcore.Invariant.Countdown.{clear_countdown-CountdownValid}

fresh_side-RunValid :
    (comparison : Int64) (side : Side) → RunValid (neg 1) 0 comparison side zero_side
fresh_side-RunValid comparison side = record {
  low = omega arith;
  high = omega arith;
  active = refl;
  warm = λ h. absurd (omega arith);
  directed = λ h. absurd (omega arith);
}

-- New accepts only a positive timeframe.
pub new-step_positive :
    (config : Config) (identity : Identity) {e : Engine}
    → new config identity ≡ ok e
    → (int 0 < identity.timeframe_ms) × (e ≡ fresh_engine config identity)
unfolding new validate_identity
new-step_positive config identity h = ground arith

fresh-EngineValid :
    (config : Config) (identity : Identity)
    → int 0 < identity.timeframe_ms
    → IsWord identity.timeframe_ms
    → EngineValid (fresh_engine config identity)
fresh-EngineValid config identity pos word = record {
  step_positive = pos;
  step_word = word;
  index_low = omega arith;
  index_high = omega arith;
  seq_low = omega arith;
  seq_word = omega arith;
  last_fits = tt;
  bars = omega arith;
  comparison = record { value = inr (inl refl); warm = λ h. absurd (h refl) };
  buy_run = fresh_side-RunValid (int 0) buy;
  sell_run = fresh_side-RunValid (int 0) sell;
  buy_countdown = clear_countdown-CountdownValid zero_side;
  sell_countdown = clear_countdown-CountdownValid zero_side;
  one = refl;
}

pub new-EngineValid :
    (config : Config) (identity : Identity) {e : Engine}
    → IsWord identity.timeframe_ms
    → new config identity ≡ ok e
    → EngineValid e
new-EngineValid config identity word h =
    let n = new-step_positive config identity h in
    rw n.1 (fresh-EngineValid config identity n.0 word)
