-- ===== src/Scheduling/Causal.antt =====
-- engine/entry_scheduler.go: source decisions are dispatched after their close, in the order of the
-- chart.
use mathlib.Core.Path.{subst}
use heisentick_strat.Prelude.{
  ℕ, Float, Int64, bias, ◌-◌, List, [], arith, false, float_le, get_elem?, if_rule, some, suc, ◌+◌,
  ◌∷◌, ◌≡◌, ◌≤◌, Ensures, Option, float_lt, none, refl, ◌||◌,
}
use heisentick_strat.Broker.Types.{Arithmetic}
use heisentick_strat.Broker.Scheduled.{ScheduledEntry}
use heisentick_strat.Scheduling.Schedule.{
  source_time, has_seen, skip_closed, dispatch_at, schedule_from, schedule_turn, inferred_duration,
  not_long, schedule_source_events,
}

module _ (math : Arithmetic) (source : List Float) (source_duration : Float) (chart : List Float)
    (duration : Float) where
  -- The opens from index i of the chart.
  abbrev Tail : ℕ → List Float → Type 0
  Tail i ts = (j : ℕ) (t : Float) → get_elem? ts j ≡ some t → get_elem? chart (i + j) ≡ some t

  Tail-next : (i : ℕ) (t : Float) (ts : List Float) → Tail i (t ∷ ts) → Tail (i + 1) ts
  Tail-next i t ts h j u e =
      let q : i + suc j ≡ i + 1 + j = omega arith in
      subst (λ k. get_elem? chart k ≡ some u) q (h (suc j) u e)

  -- An entry closes a chart bar after the close of its source bar.
  abbrev pub After : ScheduledEntry → Type 0
  After e =
      ((t : Float) × (get_elem? source e.source_index ≡ some t)
        × (e.source_close ≡ math.plus t source_duration))
      × ((u : Float) × (get_elem? chart e.chart_index ≡ some u)
          × (e.entry_time ≡ math.plus u duration))
      × (float_le e.entry_time e.source_close ≡ false)

  -- Entries from a chart bar on, in the order of the chart, whose source indexes are new.
  abbrev pub Causal : ℕ → List ℕ → List ScheduledEntry → Type 0
  Causal low seen [] = Unit
  Causal low seen (e ∷ es) =
      (low ≤ e.chart_index)
      × (has_seen e.source_index seen ≡ false)
      × After e
      × Causal e.chart_index (e.source_index ∷ seen) es

  Causal-weaken :
      (low low' : ℕ) (seen seen' : List ℕ) (es : List ScheduledEntry)
      → low ≤ low'
      → ((k : ℕ) → has_seen k seen' ≡ false → has_seen k seen ≡ false)
      → Causal low' seen' es
      → Causal low seen es
  unfolding has_seen
  Causal-weaken low low' seen seen' [] le sub c = tt
  Causal-weaken low low' seen seen' (e ∷ es) le sub c = (
    omega arith,
    sub e.source_index c.1,
    c.2,
    Causal-weaken e.chart_index e.chart_index (e.source_index ∷ seen) (e.source_index ∷ seen') es
        (omega arith) (λ k n. let s = sub k in ground arith) c.3,
  )

  -- The chart after bars that close by the source close.
  abbrev Skipped : ℕ → Float → ℕ × List Float → Type 0
  Skipped low close (i, []) = low ≤ i
  Skipped low close (i, t ∷ ts) =
      (low ≤ i) × Tail i (t ∷ ts) × (float_le (math.plus t duration) close ≡ false)

  skip_closed-Skipped :
      (low : ℕ) (close : Float) (i : ℕ) (ts : List Float)
      → low ≤ i
      → Tail i ts
      → Skipped low close (skip_closed math duration close i ts)
  unfolding skip_closed
  skip_closed-Skipped low close i [] le h = le
  skip_closed-Skipped low close i (t ∷ ts) le h =
      let rest = skip_closed-Skipped low close (i + 1) ts (omega arith) (Tail-next i t ts h) in
      if_rule (Skipped low close) (float_le (math.plus t duration) close) _ _ (λ _. rest)
        (λ e. (le, h, e))

  abbrev TailOf : ℕ → ℕ × List Float → Type 0
  TailOf low (i, ts) = (low ≤ i) × Tail i ts

  Skipped-TailOf :
      (low : ℕ) (close : Float) (c : ℕ × List Float) → Skipped low close c → TailOf low c
  Skipped-TailOf low close (i, []) h = (h, λ j u e. absurd (ground arith))
  Skipped-TailOf low close (i, t ∷ ts) h = (h.0, h.1)

  -- What follows in the loop.
  abbrev Follows : (List ℕ → ℕ × List Float → List ScheduledEntry) → Type 0
  Follows continue =
      (seen : List ℕ) (i : ℕ) (ts : List Float) → Tail i ts → Causal i seen (continue seen (i, ts))

  new_first :
      (k : ℕ) (seen : List ℕ) (j : ℕ) → has_seen j (k ∷ seen) ≡ false → has_seen j seen ≡ false
  unfolding has_seen
  new_first k seen j e = ground arith

  dispatch_at-Causal :
      (low k : ℕ) (t : Float) (seen : List ℕ) (c : ℕ × List Float)
      (continue : List ℕ → ℕ × List Float → List ScheduledEntry)
      → get_elem? source k ≡ some t
      → has_seen k seen ≡ false
      → Skipped low (math.plus t source_duration) c
      → Follows continue
      → Causal low seen
          (dispatch_at math k (math.plus t source_duration) duration c (continue (k ∷ seen) c))
  dispatch_at-Causal low k t seen (i, []) continue e n s f =
      Causal-weaken low i seen (k ∷ seen) _ s (new_first k seen)
        (f (k ∷ seen) i [] (λ j u q. absurd (ground arith)))
  dispatch_at-Causal low k t seen (i, u ∷ us) continue e n s f = (
    s.0,
    n,
    (
      (t, e, refl),
      (
        u,
        let q : i + 0 ≡ i = omega arith in subst (λ k. get_elem? chart k ≡ some u) q (s.1 0 u refl),
        refl,
      ),
      s.2,
    ),
    f (k ∷ seen) i (u ∷ us) s.1,
  )

  schedule_turn-Causal :
      (first_open : Float) (k : ℕ) (o : Option Float) (seen : List ℕ) (i : ℕ) (ts : List Float)
      (continue : List ℕ → ℕ × List Float → List ScheduledEntry)
      → ((t : Float) → o ≡ some t → get_elem? source k ≡ some t)
      → Tail i ts
      → Follows continue
      → Causal i seen
          (schedule_turn math source_duration first_open duration k o seen (i, ts) continue)
  unfolding schedule_turn
  schedule_turn-Causal first_open k none seen i ts continue e h f = f seen i ts h
  schedule_turn-Causal first_open k (some t) seen i ts continue e h f =
      let close = math.plus t source_duration in
      if_rule (Causal i seen) (has_seen k seen) _ _ (λ _. f seen i ts h)
        (λ n.
          if_rule (Causal i seen) (float_lt close first_open) _ _
            (λ _.
              Causal-weaken i i seen (k ∷ seen) _ (omega arith) (new_first k seen)
                (f (k ∷ seen) i ts h))
            (λ _.
              dispatch_at-Causal i k t seen (skip_closed math duration close i ts) continue
                (e t refl) n (skip_closed-Skipped i close i ts (omega arith) h) f))

  source_time-get_elem? :
      (k : Int64) (t : Float)
      → source_time math source k ≡ some t
      → get_elem? source (k - bias) ≡ some t
  source_time-get_elem? k t e = ground arith

  pub schedule_from-Causal :
      (first_open : Float) (seen : List ℕ) (i : ℕ) (ts : List Float) (ks : List Int64)
      → Tail i ts
      → Causal i seen
          (schedule_from math source source_duration first_open duration seen (i, ts) ks)
  unfolding schedule_from
  schedule_from-Causal first_open seen i ts [] h = tt
  schedule_from-Causal first_open seen i ts (k ∷ ks) h =
      schedule_turn-Causal first_open (k - bias) (source_time math source k) seen i ts _
        (source_time-get_elem? k) h
        (λ seen' i' ts' h'. schedule_from-Causal first_open seen' i' ts' ks h')

-- ScheduleSourceEvents does not panic, and gives distinct source indexes, in the order of the
-- chart, each dispatched on a bar of the chart whose close is not at or before the close of its
-- source bar.
pub schedule_source_events-Causal :
    (math : Arithmetic) (source chart : List Float) (ks : List Int64)
    → Ensures
        (Causal math source
          (inferred_duration math source)
          chart
          (inferred_duration math chart)
          0
          [])
        (schedule_source_events math source chart ks)
unfolding schedule_source_events inferred_duration float_le
schedule_source_events-Causal math source [] ks =
    if_rule
      (Ensures
        (Causal math source (inferred_duration math source) [] (inferred_duration math []) 0 []))
      (not_long math (inferred_duration math source) || not_long math (inferred_duration math [])) _
      _ (λ _. tt) (λ e. absurd (ground arith))
schedule_source_events-Causal math source (t ∷ ts) ks =
    if_rule
      (Ensures (
        Causal math source (inferred_duration math source) (t ∷ ts)
          (inferred_duration math (t ∷ ts)) 0 []))
      (not_long math (inferred_duration math source)
        || not_long math (inferred_duration math (t ∷ ts)))
      _ _ (λ _. tt)
      (λ e.
        schedule_from-Causal math source (inferred_duration math source) (t ∷ ts)
          (inferred_duration math (t ∷ ts)) t [] 0 (t ∷ ts) ks
          (λ j u q.
            let p : j ≡ 0 + j = omega arith in subst (λ k. get_elem? (t ∷ ts) k ≡ some u) p q))
