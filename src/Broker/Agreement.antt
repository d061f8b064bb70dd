-- ===== src/Broker/Agreement.antt =====
-- engine/sequential_accounting.go against engine/broker.go: the collector and the broker keep the
-- same accounts.
use mathlib.Core.Path.{subst}
use heisentick_strat.Prelude.{
  ℕ, Bool, Float, List, Option, [], false, length, none, refl, some, sym, true, ◌*◌, ◌++◌, ◌+◌, ◌∷◌,
  ◌≡◌, arith, if_rule, not, float_lt, is_some, ◌||◌, length-snoc, suc,
}
use heisentick_strat.Broker.Types.{
  Arithmetic, Broker, AccountingError, AccountingEvent, AccountingField, Collector, Position,
  TradeAccounting, entry_size, entry_value, exit_value, mark_value, mutation_value, zero_float,
  MutationKind, entry_mutation,
}
use heisentick_strat.Broker.Exposure.{held}
use heisentick_strat.Broker.Ledger.{
  all_finite, check_continuity, fail, mutation, counts_match, entry_values, fee_of, opened_trade,
  record_entry,
}
use heisentick_strat.Broker.Execution.{hold}

-- The errors about a value: those about an identity, a count or the continuity are not among them.
abbrev pub is_value_error : AccountingField → Bool
is_value_error mutation_value = true
is_value_error entry_value = true
is_value_error entry_size = true
is_value_error exit_value = true
is_value_error mark_value = true
is_value_error _ = false

-- Events in which each amount before is the amount after the event that precedes it.
abbrev pub Continuous : Float → List AccountingEvent → Float → Type 0
Continuous from [] to = from ≡ to
Continuous from (e ∷ es) to = (e.realized_before ≡ from) × Continuous e.realized_after es to

pub Continuous-snoc :
    (from : Float) (es : List AccountingEvent) (to : Float) (e : AccountingEvent)
    → Continuous from es to
    → e.realized_before ≡ to
    → Continuous from (es ++ e ∷ []) e.realized_after
Continuous-snoc from [] to e c h = (cc, refl)
Continuous-snoc from (x ∷ es) to e c h = (c.0, Continuous-snoc x.realized_after es to e c.1 h)

-- The open trade is the held position.
abbrev pub OpenTrade : Bool → Position → ℕ → Option TradeAccounting → Type 0
OpenTrade false pos n none = Unit
OpenTrade true pos n (some t) =
    (t.trade_index ≡ n)
    × (t.entry_index ≡ pos.entry_index)
    × (t.entry_t ≡ pos.entry_t)
    × (t.side ≡ pos.side)
    × (t.entry ≡ pos.entry)
    × (t.size ≡ pos.size)
OpenTrade _ pos n _ = ⊥

-- Without an error, the realized amount, the open trade, the number of trades and the events agree.
abbrev pub Books : ℕ → Broker → Collector → Type 0
Books bars b c =
    (c.realized ≡ b.realized)
    × OpenTrade b.has_position b.position (length b.trades) c.open_trade
    × (length c.book.trades ≡ length b.trades)
    × (length c.book.events ≡ 2 * length b.trades + held b)
    × Continuous zero_float c.book.events b.realized
    × (length c.book.marks ≡ bars)

abbrev pub AgreesWith : ℕ → Broker → Collector → Option AccountingError → Type 0
AgreesWith bars b c none = Books bars b c
AgreesWith bars b c (some e) = is_value_error e.field ≡ true

abbrev pub AccountsAgree : ℕ → Broker → Option Collector → Type 0
AccountsAgree bars b none = Unit
AccountsAgree bars b (some c) = AgreesWith bars b c c.error

abbrev pub Agrees : ℕ → Broker → Type 0
Agrees bars b = AccountsAgree bars b b.accounting

none_of :
    (held : Bool) (pos : Position) (n : ℕ) (o : Option TradeAccounting)
    → held ≡ false
    → OpenTrade held pos n o
    → o ≡ none
none_of false pos n none e h = refl
none_of false pos n (some t) e h = absurd h
none_of true pos n o e h = absurd (ground arith)

pub one_more {ℓ} :
    {A : Type ℓ} (xs : List A) (x : A) (n m : ℕ)
    → length xs ≡ n
    → m ≡ suc n
    → length (xs ++ x ∷ []) ≡ m
one_more xs x n m e f = omega (arith, length-snoc xs x)

module _ (math : Arithmetic) (same : (x : Float) → math.identical x x ≡ true) (bars : ℕ) where
  check_continuity-same :
      (c : Collector) (index : ℕ) (before : Float)
      → c.realized ≡ before
      → check_continuity math c index before ≡ c
  unfolding check_continuity
  check_continuity-same c index before e =
      let k : math.identical before c.realized ≡ true = rw e (same before) in ground arith

  abbrev pub recorded : Collector → MutationKind → ℕ → ℕ → Float → Float → Float → Float → Collector
  recorded c kind trade_index index t before after amount = record c {
    book = record (c.book) {
      events =
          c.book.events
          ++ record {
            kind = kind;
            trade_index = trade_index;
            index = index;
            t = t;
            realized_before = before;
            realized_after = after;
            amount = amount;
          }
            ∷ [];
    };
    realized = after;
  }

  -- A mutation from the realized amount is recorded, or has a value that is not finite.
  pub mutation_cases :
      (F : Collector → Type 0) (c : Collector) (kind : MutationKind) (trade_index index : ℕ)
      (t before after amount : Float)
      → c.realized ≡ before
      → F (fail c mutation_value index)
      → F (recorded c kind trade_index index t before after amount)
      → F (mutation math c kind trade_index index t before after amount)
  unfolding mutation
  mutation_cases F c kind trade_index index t before after amount e bad good =
      if_rule F (not (all_finite (t ∷ before ∷ after ∷ amount ∷ []))) _ _ (λ _. bad)
        (λ _.
          subst (λ c'. F (recorded c' kind trade_index index t before after amount))
            (sym (check_continuity-same c index before e)) good)

  pub error-fail :
      (c : Collector) (field : AccountingField) (index : ℕ)
      → c.error ≡ none
      → (fail c field index).error ≡ some (record { field = field; bar_index = index })
  unfolding fail
  error-fail c field index e = rw e refl

  pub fail-Agrees :
      (b : Broker) (c : Collector) (field : AccountingField) (index : ℕ)
      → c.error ≡ none
      → is_value_error field ≡ true
      → AgreesWith bars b (fail c field index) (fail c field index).error
  unfolding fail
  fail-Agrees b c field index e v = rw e v

  open_none :
      (b : Broker) (c : Collector) → b.has_position ≡ false → Books bars b c → c.open_trade ≡ none
  open_none b c e h = none_of b.has_position b.position (length b.trades) c.open_trade e h.1

  abbrev after_entry : Broker → Collector → Position → Collector
  after_entry b c pos =
      recorded (record c { open_trade = some (opened_trade math (hold math b pos) c) })
        entry_mutation (length c.book.trades) pos.entry_index pos.entry_t b.realized
        (hold math b pos).realized (fee_of math (hold math b pos) pos.size)

  entry-Books :
      (b : Broker) (c : Collector) (pos : Position)
      → b.has_position ≡ false
      → Books bars b c
      → Books bars (hold math b pos) (after_entry b c pos)
  entry-Books b c pos f h =
      let n : held b ≡ 0 = ground arith in
      let m : length c.book.events ≡ 2 * length b.trades = omega arith in
      (
        refl,
        (h.2, refl, refl, refl, refl, refl),
        h.2,
        one_more c.book.events _ (2 * length b.trades) (2 * length b.trades + 1) m (omega arith),
        Continuous-snoc zero_float c.book.events b.realized _ h.4 refl,
        h.5,
      )

  pub entry-Agrees :
      (b : Broker) (c : Collector) (pos : Position)
      → c.error ≡ none
      → b.has_position ≡ false
      → Books bars b c
      → AgreesWith bars
          (hold math b pos)
          (record_entry math c (hold math b pos) b.realized)
          (record_entry math c (hold math b pos) b.realized).error
  unfolding record_entry
  entry-Agrees b c pos e f h =
      let F : Collector → Type 0 = λ c'. AgreesWith bars (hold math b pos) c' c'.error in
      let o = open_none b c f h in
      let fee = fee_of math (hold math b pos) pos.size in
      let n = length c.book.trades in
      if_rule F (is_some c.error) _ _ (λ bad. absurd (ground arith))
        (λ _.
          if_rule F (is_some c.open_trade || not (counts_match (hold math b pos) c)) _ _
            (λ bad. absurd (ground arith))
            (λ _.
              if_rule F (not (all_finite (entry_values math (hold math b pos)))) _ _
                (λ _. fail-Agrees (hold math b pos) c entry_value pos.entry_index e refl)
                (λ _.
                  if_rule F (float_lt pos.size zero_float) _ _
                    (λ _. fail-Agrees (hold math b pos) c entry_size pos.entry_index e refl)
                    (λ _.
                      mutation_cases F
                        (record c { open_trade = some (opened_trade math (hold math b pos) c) })
                        entry_mutation n pos.entry_index pos.entry_t b.realized
                        (hold math b pos).realized fee h.0
                        (fail-Agrees (hold math b pos) _ mutation_value pos.entry_index e refl)
                        (rw e (entry-Books b c pos f h))))))
