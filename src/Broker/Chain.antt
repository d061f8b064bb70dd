-- ===== src/Broker/Chain.antt =====
-- engine/broker.go: the trades of a run, in the order of time and inside the execution window.
use mathlib.Core.Path.{subst}
use heisentick_strat.Prelude.{
  ℕ, Bool, List, Option, [], arith, false, true, ◌++◌, ◌∷◌, ◌≡◌, ◌≤◌, Float, Text, if_rule, not,
  suc, length, refl, ◌-◌,
}
use heisentick_strat.Broker.Types.{
  Broker, Bounds, Trade, Arithmetic, Candle, CloseReason, Order, Side,
}
use heisentick_strat.Broker.Execution.{
  in_window, close_position, open_position, position_of, trade_of,
}
use heisentick_strat.Broker.Run.{Lasting, run_scheduled-Safe, run_scheduled-flat}
use heisentick_strat.Broker.Scheduled.{ScheduledEntry, run_scheduled}
use heisentick_strat.Broker.Exposure.{exposure}

-- Trades that follow one another between two bars: each is entered inside the window, at or after
-- the exit of the trade before, and left at or after its entry.
abbrev pub Chain : Option Bounds → ℕ → List Trade → ℕ → Type 0
Chain w from [] to = from ≤ to
Chain w from (t ∷ ts) to =
    (from ≤ t.entry_index)
    × (in_window w t.entry_index ≡ true)
    × (t.entry_index ≤ t.exit_index)
    × Chain w t.exit_index ts to

pub Chain-snoc :
    (w : Option Bounds) (from : ℕ) (ts : List Trade) (to : ℕ) (t : Trade)
    → Chain w from ts to
    → to ≤ t.entry_index
    → in_window w t.entry_index ≡ true
    → t.entry_index ≤ t.exit_index
    → Chain w from (ts ++ t ∷ []) t.exit_index
Chain-snoc w from [] to t c h1 h2 h3 = (omega arith, h2, h3, omega arith)
Chain-snoc w from (x ∷ ts) to t c h1 h2 h3 =
    (c.0, c.1, c.2, Chain-snoc w x.exit_index ts to t c.3 h1 h2 h3)

Chain-later :
    (w : Option Bounds) (from : ℕ) (ts : List Trade) (to to' : ℕ)
    → to ≤ to'
    → Chain w from ts to
    → Chain w from ts to'
Chain-later w from [] to to' le c = omega arith
Chain-later w from (x ∷ ts) to to' le c =
    (c.0, c.1, c.2, Chain-later w x.exit_index ts to to' le c.3)

-- The trades of a broker up to bar i, and the position that it holds.
abbrev PositionFits : Option Bounds → Bool → ℕ → List Trade → ℕ → Type 0
PositionFits w false entry ts i = Chain w 0 ts i
PositionFits w true entry ts i = Chain w 0 ts entry × (in_window w entry ≡ true) × (entry ≤ i)

abbrev pub Chained : Option Bounds → ℕ → Broker → Type 0
Chained w i b = (b.window ≡ w) × PositionFits w b.has_position b.position.entry_index b.trades i

module _ (math : Arithmetic) (w : Option Bounds) where
  positions-later :
      (held : Bool) (entry : ℕ) (ts : List Trade) (i : ℕ)
      → PositionFits w held entry ts i
      → PositionFits w held entry ts (suc i)
  positions-later false entry ts i h = Chain-later w 0 ts i (suc i) (omega arith) h
  positions-later true entry ts i h = (h.0, h.1, omega arith)

  opens-Chained :
      (i : ℕ) (bar : Candle) (b : Broker) (side : Side) (price : Float) (ord : Order)
      → b.has_position ≡ false
      → Chained w i b
      → Chained w i (open_position math b side price ord i bar)
  unfolding open_position position_of
  opens-Chained i bar b side price ord e h =
      let c : Chain w 0 b.trades i =
        subst (λ x. PositionFits w x b.position.entry_index b.trades i) e h.1 in
      if_rule (Chained w i) (not (in_window b.window i)) _ _ (λ _. h)
        (λ n.
          let m : in_window b.window i ≡ true = ground arith in
          (h.0, (c, subst (λ v. in_window v i ≡ true) h.0 m, omega arith)))

  closes-Chained :
      (i : ℕ) (bar : Candle) (b : Broker) (price : Float) (reason : CloseReason) (rule : Text)
      → b.has_position ≡ true
      → Chained w i b
      → Chained w i (close_position math b price i bar reason rule)
  unfolding close_position trade_of
  closes-Chained i bar b price reason rule e h =
      let c : PositionFits w true b.position.entry_index b.trades i =
        subst (λ x. PositionFits w x b.position.entry_index b.trades i) e h.1 in
      (
        h.0,
        Chain-snoc w 0 b.trades b.position.entry_index (trade_of math b price i bar reason rule) c.0
            (omega arith) c.1 c.2,
      )

  pub chain-Lasting : Lasting math (Chained w)
  chain-Lasting = record {
    stable = λ i bar. record {
      keeps = λ b ps es ls h. h;
      opens = opens-Chained i bar;
      closes = closes-Chained i bar;
    };
    weaken = λ i b h. (h.0, positions-later b.has_position b.position.entry_index b.trades i h.1);
  }

module _ (math : Arithmetic) (entries : List ScheduledEntry) (orders : List Order) where
  -- A run over captured orders that liquidates at its end, from a broker without a position or
  -- trades and with at most one order, leaves trades in the order of time: each is entered inside
  -- the execution window and at or after the exit of the trade before, and left at or after its
  -- entry, no later than the last bar.
  pub run_scheduled-Chain :
      (b : Broker) (bars : List Candle)
      → b.has_position ≡ false
      → b.trades ≡ []
      → exposure b ≤ 1
      → Chain b.window 0 (run_scheduled math entries orders true b bars).trades (length bars - 1)
  run_scheduled-Chain b bars e t n =
      let r = run_scheduled math entries orders true b bars in
      let start : PositionFits b.window b.has_position b.position.entry_index b.trades 0 =
        rw e (rw t (omega arith)) in
      let h =
        run_scheduled-Safe (chain-Lasting math b.window) entries orders true b bars
          (n, (refl, start)) in
      subst (λ x. PositionFits b.window x r.position.entry_index r.trades (length bars - 1))
        (run_scheduled-flat math entries orders b bars e) h.1.1
