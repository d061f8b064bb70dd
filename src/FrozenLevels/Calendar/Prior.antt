-- ===== src/FrozenLevels/Calendar/Prior.antt =====
-- engine/frozenlevels/calendar.go: the opening that FreezePriorOpening freezes.
use mathlib.Core.Path.{subst}
use heisentick_strat.Prelude.{
  Option-cases, Int64, List, [], arith, inl, inr, none, refl, some, true, ◌<◌, ◌∷◌, ◌≡◌, ◌≤◌, ◌⊎◌,
  All, sym, ◌++◌, false, ap, ◌∙◌,
}
use heisentick_strat.FrozenLevels.Calendar.{
  BrokerDay, days_error, Calendar, Digests, FrozenOpening, Opening, day_at, find_day, found,
  freeze_opening, freeze_prior_opening, is_trading, is_unqualified, skip_closed, validate_calendar,
  CalendarError, CalendarResult, failed, find_opening, is_closed,
}
use heisentick_strat.FrozenLevels.Calendar.Before.{find_day_before, Ended, FoundDay}
use heisentick_strat.FrozenLevels.Types.{validate_source}
use heisentick_strat.FrozenLevels.Calendar.Order.{
  OnlyOpening, find_day-days, find_opening-OnlyOpening, skip_closed_split, turn, turned-All,
  turn-middle, All-trivial,
}

-- The latest day that is not closed, and the only opening with its date; the opening happened on
-- that day and was known at the decision.
pub record PriorOpening (c : Calendar) (at : Int64) (openings : List Opening) (f : FrozenOpening)
    : Type 0 where
  pub earlier : List BrokerDay
  pub day : BrokerDay
  pub closed : List BrokerDay
  pub today : BrokerDay
  pub later : List BrokerDay
  pub days : c.days ≡ earlier ++ day ∷ (closed ++ today ∷ later)
  pub trades : is_trading today.status ≡ true
  pub begun : today.start_millis ≤ at
  pub not_over : at < today.end_millis
  pub all_closed : All (λ d. is_closed d.status ≡ true) closed
  pub open_day : is_closed day.status ≡ false
  pub before_today : day.end_millis ≤ today.start_millis
  pub only : OnlyOpening day.date f.opening openings
  pub from : day.start_millis ≤ f.opening.event.at_millis
  pub until : f.opening.event.at_millis < day.end_millis
  pub known : f.opening.known_at_millis ≤ at
  pub frozen_now : f.frozen_at_millis ≡ at

skip_closed-Ended :
    (t : Int64) (ds : List BrokerDay) (day : BrokerDay)
    → Ended t ds
    → skip_closed ds ≡ some day
    → day.end_millis ≤ t
unfolding skip_closed
skip_closed-Ended t [] day h e = absurd (ground arith)
skip_closed-Ended t (d ∷ ds) day h e =
    let x = h.0 in let ih = skip_closed-Ended t ds day h.1 in ground (arith, ih)

day_at_found :
    (c : Calendar) (at : Int64) (day : BrokerDay) (before : List BrokerDay)
    → day_at c at ≡ found (day, before)
    → FoundDay at (some (day, before))
      × ((later : List BrokerDay) × (c.days ≡ turn before (day ∷ later)))
unfolding day_at validate_calendar
day_at_found c at day before h = elim (Option-cases (find_day at [] c.days)) [
  | inl e ↦ absurd (ground arith)
  | inr (r, e) ↦
      let valid : days_error none c.days ≡ none = ground arith in
      let same : find_day at [] c.days ≡ some (day, before) = ground arith in
      (
        subst (FoundDay at) same (find_day_before at none [] c.days valid refl),
        find_day-days at c.days day before same,
      )
]

result_cases {ℓ} :
    {A : Type ℓ} (r : CalendarResult A)
    → ((a : A) × (r ≡ found a)) ⊎ ((e : CalendarError) × (r ≡ failed e))
result_cases (found a) = inl (a, refl)
result_cases (failed e) = inr (e, refl)

module _ (digests : Digests) where
  freeze_opening_inv :
      (c : Calendar) (at : Int64) (day : BrokerDay) (o : Opening) (f : FrozenOpening)
      → freeze_opening digests c at day o ≡ found f
      → (f.opening.event.at_millis < day.end_millis)
        × (day.start_millis ≤ f.opening.event.at_millis)
        × (f.opening.known_at_millis ≤ at)
        × (f.frozen_at_millis ≡ at)
        × (f.opening ≡ o)
  unfolding freeze_opening is_unqualified
  freeze_opening_inv c at day o f h = elim (Option-cases (validate_source o.source)) [
    | inl e ↦ (ground arith, ground arith, ground arith, ground arith, ground arith)
    | inr (s, e) ↦ absurd (ground arith)
  ]

  -- The day and the opening that were found on the way.
  record Found (c : Calendar) (at : Int64) (openings : List Opening) (f : FrozenOpening)
      : Type 0 where
    today : BrokerDay
    before : List BrokerDay
    day : BrokerDay
    opening : Opening
    at_day : day_at c at ≡ found (today, before)
    trades : is_trading today.status ≡ true
    skipped : skip_closed before ≡ some day
    only : find_opening day.date none openings ≡ found (some opening)
    froze : freeze_opening digests c at day opening ≡ found f

  prior_found :
      (c : Calendar) (at : Int64) (openings : List Opening) (f : FrozenOpening)
      → freeze_prior_opening digests c at openings ≡ found f
      → Found c at openings f
  unfolding freeze_prior_opening
  prior_found c at openings f h = elim (result_cases (day_at c at)) [
    | inr (e, d) ↦ absurd (ground arith)
    | inl ((today, before), d) ↦ elim (Option-cases (skip_closed before)) [
      | inl n ↦ absurd (ground arith)
      | inr (day, k) ↦ elim (result_cases (find_opening day.date none openings)) [
        | inr (e, o) ↦ absurd (ground arith)
        | inl (none, o) ↦ absurd (ground arith)
        | inl (some opening, o) ↦ record {
          today = today;
          before = before;
          day = day;
          opening = opening;
          at_day = d;
          trades = ground arith;
          skipped = k;
          only = o;
          froze = ground arith;
        }
      ]
    ]
  ]

  -- An opening that FreezePriorOpening freezes is the only one given with the date of a day of the
  -- calendar, happened on that day, was known at the decision and is frozen at its time; the
  -- calendar continues after that day, which is not marked closed and ended before, with closed
  -- days only up to the trading day that contains the decision.
  pub freeze_prior_opening_sound :
      (c : Calendar) (at : Int64) (openings : List Opening) (f : FrozenOpening)
      → freeze_prior_opening digests c at openings ≡ found f
      → PriorOpening c at openings f
  freeze_prior_opening_sound c at openings f h =
      let w = prior_found c at openings f h in
      let (there, (later, days)) = day_at_found c at w.today w.before w.at_day in
      let o = freeze_opening_inv c at w.day w.opening f w.froze in
      let (closed, earlier, split, shut, open_day) = skip_closed_split w.before w.day w.skipped in
      let (xs, past, turned) = turned-All (λ d. Unit) earlier (All-trivial earlier) in
      let (ys, between, turned') = turned-All (λ d. is_closed d.status ≡ true) closed shut in
      record {
        earlier = xs;
        day = w.day;
        closed = ys;
        today = w.today;
        later = later;
        days =
            days
            ∙ turn-middle w.before closed earlier (w.today ∷ later) w.day split
            ∙ turned (w.day ∷ turn closed (w.today ∷ later))
            ∙ ap (λ z. xs ++ w.day ∷ z) (turned' (w.today ∷ later));
        trades = w.trades;
        begun = there.0;
        not_over = there.1;
        all_closed = between;
        open_day = open_day;
        before_today = skip_closed-Ended w.today.start_millis w.before w.day there.2 w.skipped;
        only =
            subst (λ x. OnlyOpening w.day.date x openings) (sym o.4)
              (find_opening-OnlyOpening w.day.date openings w.opening w.only);
        from = o.1;
        until = o.0;
        known = o.2;
        frozen_now = o.3;
      }
