-- ===== src/Broker/Exposure.antt =====
-- What a broker is exposed to: a held position, or an order that waits to become one. A predicate
-- that opening while flat and closing while held preserve holds throughout a run over captured
-- orders.
use mathlib.Core.Path.{subst}
use heisentick_strat.Prelude.{
  ℕ, Float, List, Text, [], arith, false, if_rule, if◌then◌else◌, length, not, true, ◌+◌, ◌≡◌, ◌≤◌,
  bytes, ◌&&◌, length-append, ◌++◌, ◌∷◌, Bool, length-snoc, ltb, refl, ap, leb,
}
use heisentick_strat.Broker.Types.{
  Arithmetic, Broker, Candle, CloseReason, Order, PendingExit, Side, rule_exit, stop_loss,
  take_profit,
}
use heisentick_strat.Broker.Scheduled.{
  clear_early, close_expired_window_position, lookup_meta, numeric_meta_value, slot_is_over,
  fill_pending_from, fill_limit, limit_gapped, dispatch_all, dispatch_captured, fill_limits,
  fill_limits_from, fill_pending, is_free, limit_reached, market_order, placed_limit,
  queue_market_at_next_open, scheduled_bar,
}
use heisentick_strat.Broker.Execution.{
  clear_execution_orders, close_position, in_window, is_early, open_position,
  fills_market_at_next_open, resolve_intrabar_exit,
}

abbrev pub held : Broker → ℕ
held b = if b.has_position then 1 else 0

-- Positions and orders.
abbrev pub exposure : Broker → ℕ
exposure b = held b + length b.pending_orders + length b.limit_orders

abbrev pub with_orders : Broker → List Order → List PendingExit → List Order → Broker
with_orders b ps es ls = record b { pending_orders = ps; pending_exits = es; limit_orders = ls }

-- A predicate that the moves of a broker on bar i preserve.
pub record Stable (math : Arithmetic) (i : ℕ) (bar : Candle) (P : Broker → Type 0) : Type 0 where
  pub keeps :
      (b : Broker) (ps : List Order) (es : List PendingExit) (ls : List Order)
      → P b
      → P (with_orders b ps es ls)
  pub opens :
      (b : Broker) (side : Side) (price : Float) (ord : Order)
      → b.has_position ≡ false
      → P b
      → P (open_position math b side price ord i bar)
  pub closes :
      (b : Broker) (price : Float) (reason : CloseReason) (rule : Text)
      → b.has_position ≡ true
      → P b
      → P (close_position math b price i bar reason rule)

-- The predicate, and at most one position or order.
abbrev pub Safe : (Broker → Type 0) → Broker → Type 0
Safe P b = (exposure b ≤ 1) × P b

module _ (math : Arithmetic) where
  pub exposure-open_position :
      (b : Broker) (side : Side) (price : Float) (ord : Order) (i : ℕ) (bar : Candle)
      → exposure (open_position math b side price ord i bar)
        ≤ 1 + length b.pending_orders + length b.limit_orders
  unfolding open_position
  exposure-open_position b side price ord i bar =
      if_rule (λ b'. exposure b' ≤ 1 + length b.pending_orders + length b.limit_orders)
        (not (in_window b.window i)) _ _ (λ _. ground arith) (λ _. ground arith)

  open_position-limits :
      (b : Broker) (side : Side) (price : Float) (ord : Order) (i : ℕ) (bar : Candle)
      → (open_position math b side price ord i bar).limit_orders ≡ b.limit_orders
  unfolding open_position
  open_position-limits b side price ord i bar =
      if_rule (λ (b' : Broker). b'.limit_orders ≡ b.limit_orders) (not (in_window b.window i)) _ _
        (λ _. refl) (λ _. refl)

  open_position-pending :
      (b : Broker) (side : Side) (price : Float) (ord : Order) (i : ℕ) (bar : Candle)
      → (open_position math b side price ord i bar).pending_orders ≡ b.pending_orders
  unfolding open_position
  open_position-pending b side price ord i bar =
      if_rule (λ (b' : Broker). b'.pending_orders ≡ b.pending_orders) (not (in_window b.window i)) _
        _ (λ _. refl) (λ _. refl)

  -- The bar closes the held position, without a rule, or leaves the broker.
  pub intrabar_cases :
      (b : Broker) (i : ℕ) (bar : Candle) (F : Broker → Type 0)
      → (b.has_position ≡ true
          → (price : Float) (reason : CloseReason)
          → F (close_position math b price i bar reason []))
      → F b
      → F (resolve_intrabar_exit math b i bar)
  unfolding resolve_intrabar_exit
  intrabar_cases b i bar F close stay =
      if_rule F (not b.has_position) _ _ (λ _. stay)
        (λ n.
          let e : b.has_position ≡ true = ground arith in
          let at_open = close e bar.o stop_loss in
          let at_stop = close e b.position.sl stop_loss in
          let at_target = close e b.position.tp take_profit in ground arith)

two_ways {ℓ} :
    (F : List Order → Broker → Type ℓ) {ks ks' : List Order} {b b' : Broker} (c : Bool)
    → F ks b
    → F ks' b'
    → F (if c then ks else ks') (if c then b else b')
two_ways F true x y = x
two_ways F false x y = y

module _ {math : Arithmetic} {i : ℕ} {bar : Candle} {P : Broker → Type 0}
    (s : Stable math i bar P) where
  clear_early-Safe : (b : Broker) → Safe P b → Safe P (clear_early math b i)
  unfolding clear_execution_orders
  clear_early-Safe b h =
      if_rule (Safe P) (is_early b.window i) _ _ (λ _. (ground arith, s.keeps b [] [] [] h.1))
        (λ _. h)

  pub closed-Safe :
      (b : Broker) (price : Float) (reason : CloseReason) (rule : Text)
      → b.has_position ≡ true
      → Safe P b
      → Safe P (close_position math b price i bar reason rule)
  unfolding close_position
  closed-Safe b price reason rule e h = (ground arith, s.closes b price reason rule e h.1)

  expired-Safe : (b : Broker) → Safe P b → Safe P (close_expired_window_position math b i bar)
  unfolding close_expired_window_position
  expired-Safe b h =
      if_rule (Safe P)
        (b.has_position
          && slot_is_over (numeric_meta_value (lookup_meta (bytes "slotEnd") b.position.meta))
              bar.t)
        _ _ (λ e. closed-Safe b bar.o rule_exit (bytes "window-close") (ground arith) h) (λ _. h)

  -- Opening where nothing is held, with the orders that are left.
  filled-Safe :
      (b : Broker) (ps ls : List Order) (side : Side) (price : Float) (ord : Order)
      → held b ≡ 0
      → length ps + length ls ≡ 0
      → P b
      → Safe P (open_position math (with_orders b ps b.pending_exits ls) side price ord i bar)
  filled-Safe b ps ls side price ord e n h =
      let le =
        exposure-open_position math (with_orders b ps b.pending_exits ls) side price ord i bar in
      (
        ground arith,
        s.opens (with_orders b ps b.pending_exits ls) side price ord (ground arith)
            (s.keeps b ps b.pending_exits ls h),
      )

  -- The loop over the pending orders, with those kept and those left.
  fill_pending_from-Safe :
      (kept : List Order) (b : Broker) (orders : List Order)
      → held b + length kept + length orders + length b.limit_orders ≤ 1
      → P b
      → Safe P (fill_pending_from math kept b i bar orders)
  unfolding fill_pending_from
  fill_pending_from-Safe kept b [] n h =
      (ground arith, s.keeps b kept b.pending_exits b.limit_orders h)
  fill_pending_from-Safe kept b (ord ∷ rest) n h =
      let o =
        open_position math (with_orders b (kept ++ rest) b.pending_exits b.limit_orders) ord.side
          bar.o ord i bar in
      let k = length-append kept rest in
      let k' = length-snoc kept ord in
      let l =
        open_position-limits math (with_orders b (kept ++ rest) b.pending_exits b.limit_orders)
          ord.side bar.o ord i bar in
      let l' = ap length l in
      let n' : held o + length kept + length rest + length o.limit_orders ≤ 1 = ground arith in
      two_ways (λ ks b'. Safe P (fill_pending_from math ks b' i bar rest)) (ltb i ord.index)
        (fill_pending_from-Safe (kept ++ ord ∷ []) b rest (ground arith) h)
        (fill_pending_from-Safe kept o rest n'
          (filled-Safe b (kept ++ rest) b.limit_orders ord.side bar.o ord (ground arith)
            (ground arith) h).1)

  -- The loop over the limit orders. It takes no step from less exposure to more.
  abbrev Limits : ℕ → Broker × List Order → Type 0
  Limits n r = (held (r.0) + length (r.0).pending_orders + length (r.1) ≤ n) × P (r.0)

  limit-Safe :
      (ord : Order) (r : Broker × List Order) → Limits 0 r → Limits 1 (fill_limit math i bar ord r)
  unfolding fill_limit
  limit-Safe ord (b, kept) h =
      let price = if limit_gapped ord bar then bar.o else ord.limit in
      let o = open_position math b ord.side price (record ord { no_slip = true }) i bar in
      let e = open_position-pending math b ord.side price (record ord { no_slip = true }) i bar in
      let l = ap length e in
      let stay : Limits 1 (b, ord ∷ kept) = (ground arith, h.1) in
      if_rule (Limits 1) (leb i ord.placed_at) _ _ (λ _. stay)
        (λ _.
          if_rule (Limits 1) (limit_reached ord bar) _ _
            (λ _. (
              ground arith,
              s.opens b ord.side price (record ord { no_slip = true }) (ground arith) h.1,
            ))
            (λ _.
              if_rule (Limits 1) (leb ord.expire_at i) _ _ (λ _. (ground arith, h.1)) (λ _. stay)))

  fill_limits_from-Safe :
      (n : ℕ) (b : Broker) (orders : List Order)
      → n ≤ 1
      → held b + length b.pending_orders + length orders ≤ n
      → P b
      → Limits n (fill_limits_from math b i bar orders)
  unfolding fill_limits_from
  fill_limits_from-Safe n b [] le m h = (ground arith, h)
  fill_limits_from-Safe n b (ord ∷ rest) le m h =
      let one : 1 ≡ n = ground arith in
      subst (λ k. Limits k (fill_limit math i bar ord (fill_limits_from math b i bar rest))) one
        (limit-Safe ord (fill_limits_from math b i bar rest)
          (fill_limits_from-Safe 0 b rest (omega arith) (ground arith) h))

  orders-Safe :
      (b : Broker) → Safe P b → Safe P (fill_limits math (fill_pending math b i bar) i bar)
  unfolding fill_limits fill_pending
  orders-Safe b h =
      let b' = fill_pending_from math [] b i bar b.pending_orders in
      let p = fill_pending_from-Safe [] b b.pending_orders (ground arith) h.1 in
      let l = fill_limits_from-Safe 1 b' b'.limit_orders (omega arith) (ground arith) p.1 in
      (ground arith, s.keeps (fill_limits_from math b' i bar b'.limit_orders).0 _ _ _ l.1)

  intrabar-Safe : (b : Broker) → Safe P b → Safe P (resolve_intrabar_exit math b i bar)
  intrabar-Safe b h =
      intrabar_cases math b i bar (Safe P) (λ e price reason. closed-Safe b price reason [] e h) h

  dispatch-Safe :
      (b : Broker) (ord : Order) → Safe P b → Safe P (dispatch_captured math b i bar ord)
  unfolding dispatch_captured queue_market_at_next_open
  dispatch-Safe b ord h =
      if_rule (Safe P) (not (is_free b)) _ _ (λ _. h)
        (λ free.
          if_rule (Safe P) ord.has_limit _ _
            (λ _.
              let k = length-snoc b.limit_orders (placed_limit ord i) in
              (ground arith, s.keeps b _ _ _ h.1))
            (λ _.
              if_rule (Safe P) (fills_market_at_next_open b.costs) _ _
                (λ _.
                  let k =
                    length-snoc b.pending_orders (market_order (record ord { index = i }) i) in
                  (ground arith, s.keeps b _ _ _ h.1))
                (λ _.
                  filled-Safe b b.pending_orders b.limit_orders ord.side bar.c
                    (record ord { index = i }) (ground arith) (ground arith) h.1)))

  dispatch_all-Safe :
      (b : Broker) (orders : List Order) → Safe P b → Safe P (dispatch_all math b i bar orders)
  unfolding dispatch_all
  dispatch_all-Safe b [] h = h
  dispatch_all-Safe b (ord ∷ orders) h =
      dispatch_all-Safe (dispatch_captured math b i bar ord) orders (dispatch-Safe b ord h)

  pub scheduled_bar-Safe :
      (b : Broker) (captured : List Order) → Safe P b → Safe P (scheduled_bar math b i bar captured)
  unfolding scheduled_bar
  scheduled_bar-Safe b captured h = clear_early-Safe _ (
      dispatch_all-Safe _ captured
        (intrabar-Safe _ (expired-Safe _ (orders-Safe _ (clear_early-Safe b h)))))
