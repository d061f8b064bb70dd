-- ===== src/Broker/Bracket.antt =====
-- engine/broker_deferred_exits.go, resolveIntrabarExit: the order of stop and target on one bar.
use heisentick_strat.Prelude.{
  ℕ, Float, Bool-cases, [], arith, false, inl, inr, ltb, refl, true, ◌&&◌, ◌||◌, ◌≡◌, ◌⊎◌,
}
use heisentick_strat.Broker.Types.{Arithmetic, Broker, Candle, stop_loss}
use heisentick_strat.Broker.Execution.{adverse, beyond_stop, close_position, resolve_intrabar_exit}

module _ (math : Arithmetic) where
  -- A bar that reaches the stop of a held position, without precedence of the opening target,
  -- closes it as a stop loss, at the open or at the stop, whether or not it also reaches the
  -- target.
  pub resolve_intrabar_exit-stop_loss :
      (b : Broker) (i : ℕ) (bar : Candle)
      → b.has_position ≡ true
      → b.position.no_stop ≡ false
      → b.position.opening_target_precedence ≡ false
      → beyond_stop math b.position.side (adverse math b.position.side bar) b.position.sl ≡ true
      → (price : Float) × (resolve_intrabar_exit math b i bar
          ≡ close_position math b price i bar stop_loss [])
        × ((price ≡ bar.o) ⊎ (price ≡ b.position.sl))
  unfolding resolve_intrabar_exit
  resolve_intrabar_exit-stop_loss b i bar h n o s =
      elim (Bool-cases (
        (b.position.gap_aware_stop || ltb b.position.entry_index i)
        && beyond_stop math b.position.side bar.o b.position.sl)) [
          | inl e ↦ (bar.o, ground arith, inl refl)
          | inr e ↦ (b.position.sl, ground arith, inr refl)
        ]
