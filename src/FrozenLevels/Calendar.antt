-- ===== src/FrozenLevels/Calendar.antt =====
-- engine/frozenlevels/calendar.go: the qualified day ledger and the opening before a decision.
-- Digests of JSON values are arguments.
pub mod Before
pub mod Order
pub mod Prior
use heisentick_strat.Prelude.{
  ℕ, Bool, Float, Int64, List, Option, Text, [], add64, bias, bytes, false, if◌then◌else◌, int,
  is_some, leb, length, ltb, neg, none, not, refl, some, sub64, text_eq, true, ◌%◌, ◌&&◌, ◌*◌, ◌+◌,
  ◌-◌, ◌/◌, ◌==◌, ◌||◌, ◌∷◌, ◌≡◌,
}
use heisentick_strat.FrozenLevels.Types.{
  EventKey, Source, SourceError, finite_positive, is_bid, valid_key, valid_millis, validate_source,
}

-- A status other than the two is kept as it is written.
pub data DayStatus : Type 0 where
  trading_day closed_day : DayStatus
  unknown_day : Text → DayStatus

pub record BrokerDay : Type 0 where
  pub date : Text
  pub start_millis : Int64
  pub end_millis : Int64
  pub status : DayStatus

pub record Calendar : Type 0 where
  pub id : Text
  pub version : Text
  pub qualification : Text
  pub days : List BrokerDay

pub data CalendarError : Type 0 where
  unqualified_calendar invalid_calendar_day invalid_calendar_day_duration : CalendarError
  invalid_calendar_offset unknown_calendar_day_status calendar_gap_or_overlap : CalendarError
  invalid_decision_time calendar_outside_qualified_coverage decision_on_closed_day : CalendarError
  missing_prior_trading_day duplicate_prior_opening missing_prior_opening : CalendarError
  unqualified_prior_opening : CalendarError
  opening_source : SourceError → CalendarError

abbrev is_digit : ℕ → Bool
is_digit c = leb b'0' c && leb c b'9'

abbrev pub is_leap : ℕ → Bool
is_leap y = (y % 4 == 0 && not (y % 100 == 0)) || y % 400 == 0

-- The days of a year before a month, and the days of the month.
unfoldable pub month_start : ℕ → ℕ → ℕ
month_start y m =
    let feb = if is_leap y then 29 else 28 in
    if leb m 1
    then 0
    else if m == 2
    then 31
    else if m == 3
    then 31 + feb
    else if m == 4
    then 62 + feb
    else if m == 5
    then 92 + feb
    else if m == 6
    then 123 + feb
    else if m == 7
    then 153 + feb
    else if m == 8
    then 184 + feb
    else if m == 9
    then 215 + feb
    else if m == 10
    then 245 + feb
    else if m == 11
    then 276 + feb
    else if m == 12
    then 306 + feb
    else 337 + feb

-- time.Parse("2006-01-02", s) with date.Format giving s back: midnight UTC in Unix milliseconds.
-- The year 0 begins 719528 days before 1970.
unfoldable pub date_millis : Text → Option Int64
unfolding month_start
date_millis (a ∷ b ∷ c ∷ d ∷ h ∷ e ∷ f ∷ i ∷ j ∷ k ∷ []) =
    let y = (a - 48) * 1000 + (b - 48) * 100 + (c - 48) * 10 + (d - 48) in
    let m = (e - 48) * 10 + (f - 48) in
    let day = (j - 48) * 10 + (k - 48) in
    let days =
      365 * y + (y + 3) / 4 - (y + 99) / 100 + (y + 399) / 400 + month_start y m + (day - 1) in
    if is_digit a
      && is_digit b
      && is_digit c
      && is_digit d
      && h == 45
      && is_digit e
      && is_digit f
      && i == 45
      && is_digit j
      && is_digit k
      && leb 1 m
      && leb m 12
      && leb 1 day
      && leb day (month_start y (m + 1) - month_start y m)
    then some (bias + days * 86400000 - 62167219200000)
    else none
date_millis _ = none

abbrev hour_millis : ℕ
hour_millis = 3600000

abbrev whole_minutes : Int64 → Bool
whole_minutes v = if leb bias v then (v - bias) % 60000 == 0 else (bias - v) % 60000 == 0

abbrev valid_offset : Int64 → Bool
valid_offset v =
    not (ltb v (neg (12 * hour_millis))) && not (ltb (int (14 * hour_millis)) v) && whole_minutes v

abbrev valid_duration : Int64 → Bool
valid_duration v =
    v == int (23 * hour_millis) || v == int (24 * hour_millis) || v == int (25 * hour_millis)

abbrev is_known_status : DayStatus → Bool
is_known_status (unknown_day s) = false
is_known_status _ = true

-- The checks of one day, whose date is at the given millisecond.
unfoldable pub day_error : BrokerDay → Int64 → Option CalendarError
day_error d date =
    if not (valid_millis d.start_millis) || not (valid_millis d.end_millis)
    then some invalid_calendar_day
    else if not (valid_duration (sub64 d.end_millis d.start_millis))
    then some invalid_calendar_day_duration
    else if not (valid_offset (sub64 date d.start_millis))
        || not (valid_offset (sub64 (add64 date (int 86400000)) d.end_millis))
    then some invalid_calendar_offset
    else if not (is_known_status d.status)
    then some unknown_calendar_day_status
    else none

-- Whether a day does not follow the one before, given with its date.
abbrev is_gap : Option (BrokerDay × Int64) → BrokerDay → Int64 → Bool
is_gap none d date = false
is_gap (some (before, before_date)) d date =
    not (before.end_millis == d.start_millis) || not (date == add64 before_date (int 86400000))

-- The loop of Validate, after the given day.
unfoldable pub days_error : Option (BrokerDay × Int64) → List BrokerDay → Option CalendarError
days_error before [] = none
days_error before (d ∷ ds) = elim (date_millis d.date) [
  | none ↦ some invalid_calendar_day
  | some date ↦ elim (day_error d date) [
    | some e ↦ some e
    | none ↦
        let rest = days_error (some (d, date)) ds in
        if is_gap before d date then some calendar_gap_or_overlap else rest
  ]
]

-- Calendar.Validate
unfoldable pub validate_calendar : Calendar → Option CalendarError
validate_calendar c =
    if length c.id == 0
      || length c.version == 0
      || length c.qualification == 0
      || length c.days == 0
    then some unqualified_calendar
    else days_error none c.days

-- The loop of dayIndex: the day of a time, with the days before it, the latest first.
unfoldable pub find_day :
    Int64 → List BrokerDay → List BrokerDay → Option (BrokerDay × List BrokerDay)
find_day at before [] = none
find_day at before (d ∷ ds) =
    let rest = find_day at (d ∷ before) ds in
    if leb d.start_millis at && ltb at d.end_millis then some (d, before) else rest

pub data CalendarResult {ℓ} (A : Type ℓ) : Type ℓ where
  found : A → CalendarResult A
  failed : CalendarError → CalendarResult A

-- dayIndex, and so DayAt.
unfoldable pub day_at : Calendar → Int64 → CalendarResult (BrokerDay × List BrokerDay)
day_at c at = elim (validate_calendar c) [
  | some e ↦ failed e
  | none ↦
      if not (valid_millis at)
      then failed invalid_decision_time
      else (elim (find_day at [] c.days) [
        | none ↦ failed calendar_outside_qualified_coverage
        | some day ↦ found day
      ])
]

pub record Opening : Type 0 where
  pub date : Text
  pub event : EventKey
  pub known_at_millis : Int64
  pub price : Float
  pub source : Source
  pub calendar_id : Text
  pub calendar_version : Text
  pub qualification : Text

pub record FrozenOpening : Type 0 where
  pub id : Text
  pub version : Text
  pub frozen_at_millis : Int64
  pub calendar_digest : Text
  pub opening : Opening

abbrev pub is_trading : DayStatus → Bool
is_trading trading_day = true
is_trading _ = false

abbrev pub is_closed : DayStatus → Bool
is_closed closed_day = true
is_closed _ = false

-- The loop that skips closed days backwards.
unfoldable pub skip_closed : List BrokerDay → Option BrokerDay
skip_closed [] = none
skip_closed (d ∷ ds) = let rest = skip_closed ds in if is_closed d.status then rest else some d

-- The loop over the openings, with the one found so far.
unfoldable pub find_opening : Text → Option Opening → List Opening → CalendarResult (Option Opening)
find_opening date so_far [] = found so_far
find_opening date so_far (o ∷ os) =
    let skipped = find_opening date so_far os in
    let taken = find_opening date (some o) os in
    if not (text_eq o.date date)
    then skipped
    else if is_some so_far
    then failed duplicate_prior_opening
    else taken

unfoldable pub is_unqualified : Calendar → Int64 → BrokerDay → Opening → Bool
is_unqualified c at day o =
    not (is_bid o.source.side)
    || not (valid_key o.event)
    || ltb o.event.at_millis day.start_millis
    || leb day.end_millis o.event.at_millis
    || not (valid_millis o.known_at_millis)
    || ltb o.known_at_millis o.event.at_millis
    || ltb at o.known_at_millis
    || not (finite_positive o.price)
    || not (text_eq o.calendar_id c.id)
    || not (text_eq o.calendar_version c.version)
    || length o.qualification == 0

abbrev pub contract_version : Text
contract_version = bytes "frozen-level-primitives-v1"

-- The digests of a calendar and of a frozen opening.
pub record Digests : Type 0 where
  pub calendar_identity : Calendar → Text
  pub opening_identity : FrozenOpening → Text

module _ (digests : Digests) where
  abbrev pub frozen : Calendar → Int64 → Opening → FrozenOpening
  frozen c at o =
      let f : FrozenOpening = record {
        id = [];
        version = contract_version;
        frozen_at_millis = at;
        calendar_digest = digests.calendar_identity c;
        opening = o;
      } in
      record f { id = digests.opening_identity f }

  -- The checks of FreezePriorOpening on the opening that it found.
  unfoldable pub freeze_opening :
      Calendar → Int64 → BrokerDay → Opening → CalendarResult FrozenOpening
  freeze_opening c at day o = elim (validate_source o.source) [
    | some e ↦ failed (opening_source e)
    | none ↦
        if is_unqualified c at day o
        then failed unqualified_prior_opening
        else found (frozen c at o)
  ]

  -- FreezePriorOpening
  unfoldable pub freeze_prior_opening :
      Calendar → Int64 → List Opening → CalendarResult FrozenOpening
  freeze_prior_opening c at openings = elim (day_at c at) [
    | failed e ↦ failed e
    | found (today, before) ↦
        if not (is_trading today.status)
        then failed decision_on_closed_day
        else (elim (skip_closed before) [
          | none ↦ failed missing_prior_trading_day
          | some day ↦ elim (find_opening day.date none openings) [
            | failed e ↦ failed e
            | found o ↦ elim o [
              | none ↦ failed missing_prior_opening
              | some opening ↦ freeze_opening c at day opening
            ]
          ]
        ])
  ]

epoch : date_millis (bytes "1970-01-01") ≡ some (int 0)
unfolding date_millis
epoch = refl

leap_day : date_millis (bytes "2024-02-29") ≡ some (int 1709164800000)
unfolding date_millis
leap_day = refl

no_leap_day : date_millis (bytes "2023-02-29") ≡ none
unfolding date_millis
no_leap_day = refl
