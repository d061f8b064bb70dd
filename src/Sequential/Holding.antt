-- ===== src/Sequential/Holding.antt =====
-- engine/sequential_execution.go: how long a position is held, with the accounts of the broker.
use mathlib.Core.Path.{subst}
use heisentick_strat.Broker.Agreement.{Agrees}
use heisentick_strat.Broker.Accounts.{accounts-Stable}
use heisentick_strat.Broker.Exposure.{Stable}
use heisentick_strat.Broker.Types.{Collector}
use heisentick_strat.Broker.Execution.{
  record_opening, record_closing, close_position, open_position, position_of, trade_of, in_window,
}
use heisentick_strat.Prelude.{
  ℕ, Bool, All, All-append, Float, Text, [], arith, false, if_rule, not, suc, true, ◌+◌, ◌<◌, ◌∷◌,
  ◌≡◌, ◌≤◌, leb, ◌&&◌, ◌-◌, Option, is_some, none, refl, some, ◌∙◌,
}
use heisentick_strat.Broker.Types.{
  Arithmetic, Broker, Trade, Candle, CloseReason, Side, Order, time_exit,
}
use heisentick_strat.Sequential.Types.{Scheduler}
use heisentick_strat.Sequential.Scheduler.{exit_by_time}
use heisentick_strat.Sequential.Run.{captured}

-- A trade of at most `hold` bars.
abbrev pub Brief : ℕ → Trade → Type 0
Brief hold t = (t.entry_index ≤ t.exit_index) × (t.exit_index ≤ t.entry_index + hold)

-- A held position that was entered by bar i, bar n being at most `hold` bars after its entry.
abbrev pub Within : ℕ → ℕ → ℕ → Bool → ℕ → Type 0
Within hold i n false entry = Unit
Within hold i n true entry = (entry ≤ i) × (n ≤ entry + hold)

abbrev pub Timed : ℕ → ℕ → ℕ → Broker → Type 0
Timed hold i n b = Within hold i n b.has_position b.position.entry_index × All (Brief hold) b.trades

-- The accounts agree, the time is kept, and there is a collector exactly if `captured`.
abbrev pub Held : Bool → ℕ → ℕ → ℕ → Broker → Type 0
Held captured hold i n b = Agrees i b × Timed hold i n b × (is_some b.accounting ≡ captured)

Within-next :
    (hold i : ℕ) (held : Bool) (entry : ℕ)
    → Within hold i (suc i) held entry
    → Within hold (suc i) (suc i) held entry
Within-next hold i false entry h = tt
Within-next hold i true entry h = (omega arith, h.1)

-- The next bar.
pub next-Timed : (hold i : ℕ) (b : Broker) → Timed hold i (suc i) b → Timed hold (suc i) (suc i) b
next-Timed hold i b h = (Within-next hold i b.has_position b.position.entry_index h.0, h.1)

Within-still :
    (hold i : ℕ) (held : Bool) (entry : ℕ)
    → held && leb hold (i - entry) ≡ false
    → Within hold i i held entry
    → Within hold i (suc i) held entry
Within-still hold i false entry e h = tt
Within-still hold i true entry e h = (h.0, ground arith)

module _ (math : Arithmetic) (same : (x : Float) → math.identical x x ≡ true) (captured : Bool)
    (hold : ℕ) where
  closes-Timed :
      (i n : ℕ) (bar : Candle) (b : Broker) (price : Float) (reason : CloseReason) (rule : Text)
      → i ≤ n
      → b.has_position ≡ true
      → Timed hold i n b
      → Timed hold i (suc i) (close_position math b price i bar reason rule)
  unfolding close_position trade_of
  closes-Timed i n bar b price reason rule le e h =
      let w : Within hold i n true b.position.entry_index =
        subst (λ x. Within hold i n x b.position.entry_index) e h.0 in
      (
        tt,
        All-append (Brief hold) b.trades (trade_of math b price i bar reason rule ∷ []) h.1
            ((omega arith, omega arith), tt),
      )

  opens-Timed :
      (i : ℕ) (bar : Candle) (b : Broker) (side : Side) (price : Float) (ord : Order)
      → 0 < hold
      → Timed hold i (suc i) b
      → Timed hold i (suc i) (open_position math b side price ord i bar)
  unfolding open_position position_of
  opens-Timed i bar b side price ord pos h =
      if_rule (Timed hold i (suc i)) (not (in_window b.window i)) _ _ (λ _. h)
        (λ _. ((omega arith, omega arith), h.1))

  recorded_opening :
      (o : Option Collector) (b : Broker) (x : Float)
      → is_some (record_opening math o b x) ≡ is_some o
  recorded_opening none b x = refl
  recorded_opening (some c) b x = refl

  recorded_closing :
      (o : Option Collector) (b : Broker) (x y : Float) (i : ℕ)
      → is_some (record_closing math o b x y i) ≡ is_some o
  recorded_closing none b x y i = refl
  recorded_closing (some c) b x y i = refl

  open_position-captured :
      (i : ℕ) (bar : Candle) (b : Broker) (side : Side) (price : Float) (ord : Order)
      → is_some (open_position math b side price ord i bar).accounting ≡ is_some b.accounting
  unfolding open_position
  open_position-captured i bar b side price ord =
      if_rule (λ (b' : Broker). is_some b'.accounting ≡ is_some b.accounting)
        (not (in_window b.window i)) _ _ (λ _. refl) (λ _. recorded_opening b.accounting _ _)

  close_position-captured :
      (i : ℕ) (bar : Candle) (b : Broker) (price : Float) (reason : CloseReason) (rule : Text)
      → is_some (close_position math b price i bar reason rule).accounting ≡ is_some b.accounting
  unfolding close_position
  close_position-captured i bar b price reason rule = recorded_closing b.accounting _ _ _ i

  -- The accounts and the time that a position is held are stable on a bar.
  pub held-Stable :
      (i : ℕ) (bar : Candle) → 0 < hold → Stable math i bar (Held captured hold i (suc i))
  held-Stable i bar pos =
      let a = accounts-Stable math same i i bar in
      record {
        keeps = λ b ps es ls h. h;
        opens = λ b side price ord e h. (
          a.opens b side price ord e h.0,
          opens-Timed i bar b side price ord pos h.1,
          open_position-captured i bar b side price ord ∙ h.2,
        );
        closes = λ b price reason rule e h. (
          a.closes b price reason rule e h.0,
          closes-Timed i (suc i) bar b price reason rule (omega arith) e h.1,
          close_position-captured i bar b price reason rule ∙ h.2,
        );
      }

  -- The exit by time leaves a broker that may hold a position on bar i, or one that is flat.
  pub exit_by_time_rule :
      (F : Scheduler → Type 0) (i : ℕ) (bar : Candle) (s : Scheduler)
      → s.hold ≡ hold
      → Held captured hold i i s.broker
      → ((b : Broker)
          → (s.broker.has_position ≡ false → b.has_position ≡ false)
          → Held captured hold i (suc i) b
          → F (record s { broker = b }))
      → F (exit_by_time math s i bar)
  unfolding exit_by_time
  exit_by_time_rule F i bar s e h k =
      let a = accounts-Stable math same i i bar in
      if_rule F (s.broker.has_position && leb s.hold (i - s.broker.position.entry_index)) _ _
        (λ t.
          let p : s.broker.has_position ≡ true = ground arith in
          k (close_position math s.broker bar.o i bar time_exit []) (λ f. absurd (ground arith))
            (
              a.closes s.broker bar.o time_exit [] p h.0,
              closes-Timed i i bar s.broker bar.o time_exit [] (omega arith) p h.1,
              close_position-captured i bar s.broker bar.o time_exit [] ∙ h.2,
            ))
        (λ f.
          k s.broker (λ f. f)
            (
              h.0,
              (
                Within-still hold i s.broker.has_position s.broker.position.entry_index
                    (subst
                      (λ k.
                        s.broker.has_position && leb k (i - s.broker.position.entry_index) ≡ false)
                      e f)
                    h.1.0,
                h.1.1,
              ),
              h.2,
            ))
