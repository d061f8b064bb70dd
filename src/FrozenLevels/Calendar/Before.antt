-- ===== src/FrozenLevels/Calendar/Before.antt =====
-- engine/frozenlevels/calendar.go: the day of a time, and the days before it.
use heisentick_strat.Prelude.{
  All, Option-cases, Int64, List, Option, [], arith, false, if_rule, inl, inr, leb, ltb, none, some,
  sub64, ◌&&◌, ◌<◌, ◌∷◌, ◌≡◌, ◌≤◌,
}
use heisentick_strat.FrozenLevels.Calendar.{
  BrokerDay, days_error, day_error, is_gap, date_millis, find_day,
}

abbrev pub Ended : Int64 → List BrokerDay → Type 0
Ended t = All (λ d. d.end_millis ≤ t)

Ended-mono : (s t : Int64) (ds : List BrokerDay) → s ≤ t → Ended s ds → Ended t ds
Ended-mono s t [] le h = tt
Ended-mono s t (d ∷ ds) le h = (let x = h.0 in omega arith, Ended-mono s t ds le h.1)

-- The days before the next one end when the last of them does.
abbrev pub Linked : Option (BrokerDay × Int64) → List BrokerDay → Type 0
Linked none before = before ≡ []
Linked (some (last, date)) before = Ended last.end_millis before

record DayChecked (prev : Option (BrokerDay × Int64)) (d : BrokerDay) (ds : List BrokerDay)
    : Type 0 where
  date : Int64
  linked : is_gap prev d date ≡ false
  long_enough : day_error d date ≡ none
  rest : days_error (some (d, date)) ds ≡ none

days_checked :
    (prev : Option (BrokerDay × Int64)) (d : BrokerDay) (ds : List BrokerDay)
    → days_error prev (d ∷ ds) ≡ none
    → DayChecked prev d ds
unfolding days_error
days_checked prev d ds h = elim (Option-cases (date_millis d.date)) [
  | inl e ↦ absurd (ground arith)
  | inr (date, e) ↦ elim (Option-cases (day_error d date)) [
    | inr (fault, k) ↦ absurd (ground arith)
    | inl k ↦ record { date = date; linked = ground arith; long_enough = k; rest = ground arith }
  ]
]

day_error-positive :
    (d : BrokerDay) (date : Int64) → day_error d date ≡ none → d.start_millis < d.end_millis
unfolding day_error sub64
day_error-positive d date h = ground arith

Linked-Ended :
    (prev : Option (BrokerDay × Int64)) (d : BrokerDay) (date : Int64) (before : List BrokerDay)
    → is_gap prev d date ≡ false
    → Linked prev before
    → Ended d.start_millis before
Linked-Ended none d date before g l = rw l tt
Linked-Ended (some (last, x)) d date before g l =
    Ended-mono last.end_millis d.start_millis before (ground arith) l

abbrev pub FoundDay : Int64 → Option (BrokerDay × List BrokerDay) → Type 0
FoundDay at none = Unit
FoundDay at (some (d, before)) =
    (d.start_millis ≤ at) × (at < d.end_millis) × Ended d.start_millis before

pub find_day_before :
    (at : Int64) (prev : Option (BrokerDay × Int64)) (before ds : List BrokerDay)
    → days_error prev ds ≡ none
    → Linked prev before
    → FoundDay at (find_day at before ds)
unfolding find_day
find_day_before at prev before [] h l = tt
find_day_before at prev before (d ∷ ds) h l =
    let c = days_checked prev d ds h in
    let ended = Linked-Ended prev d c.date before c.linked l in
    let pos = day_error-positive d c.date c.long_enough in
    if_rule (FoundDay at) (leb d.start_millis at && ltb at d.end_millis) _ _
      (λ y. (ground arith, ground arith, ended))
      (λ n.
        find_day_before at (some (d, c.date)) (d ∷ before) ds c.rest
          (omega arith, Ended-mono d.start_millis d.end_millis before (omega arith) ended))
