-- ===== src/FrozenLevels/Calendar/Order.antt =====
-- engine/frozenlevels/calendar.go: where the days and the opening stand in their lists.
use heisentick_strat.Prelude.{
  All, Bool-cases, Int64, List, Text, [], arith, false, inl, inr, leb, ltb, none, refl, some,
  text_eq, true, ◌&&◌, ◌++◌, ◌∷◌, ◌≡◌, ◌∙◌, ap, sym,
}
use heisentick_strat.FrozenLevels.Calendar.{
  BrokerDay, Opening, find_day, find_opening, found, is_closed, skip_closed,
}

-- The first list backwards, then the second.
pub turn {ℓ} : {A : Type ℓ} → List A → List A → List A
turn [] ys = ys
turn (x ∷ xs) ys = turn xs (x ∷ ys)

append_snoc {ℓ} : {A : Type ℓ} (xs ys : List A) (x : A) → xs ++ x ∷ ys ≡ (xs ++ x ∷ []) ++ ys
append_snoc [] ys x = refl
append_snoc (z ∷ xs) ys x = ap (λ r. z ∷ r) (append_snoc xs ys x)

All-snoc {ℓ κ} :
    {A : Type ℓ} (P : A → Type κ) (xs : List A) (x : A) → All P xs → P x → All P (xs ++ x ∷ [])
All-snoc P [] x h p = (p, tt)
All-snoc P (z ∷ xs) x h p = (h.0, All-snoc P xs x h.1 p)

pub turned-All {ℓ κ} :
    {A : Type ℓ} (P : A → Type κ) (xs : List A)
    → All P xs
    → (zs : List A) × All P zs × ((ys : List A) → turn xs ys ≡ zs ++ ys)
unfolding turn
turned-All P [] h = ([], tt, λ ys. refl)
turned-All P (x ∷ xs) h =
    let (zs, a, e) = turned-All P xs h.1 in
    (zs ++ x ∷ [], All-snoc P zs x a h.0, λ ys. e (x ∷ ys) ∙ append_snoc zs ys x)

turn-append {ℓ} : {A : Type ℓ} (xs ys zs : List A) → turn (xs ++ ys) zs ≡ turn ys (turn xs zs)
unfolding turn
turn-append [] ys zs = refl
turn-append (x ∷ xs) ys zs = turn-append xs ys (x ∷ zs)

-- A turned list with a sublist in its place.
pub turn-middle {ℓ} :
    {A : Type ℓ} (before between earlier rest : List A) (x : A)
    → before ≡ between ++ x ∷ earlier
    → turn before rest ≡ turn earlier (x ∷ turn between rest)
unfolding turn
turn-middle before between earlier rest x e = rw e (turn-append between (x ∷ earlier) rest)

pub All-trivial {ℓ} : {A : Type ℓ} (xs : List A) → All {ℓ, 0} (λ x. Unit) xs
All-trivial [] = tt
All-trivial (x ∷ xs) = (tt, All-trivial xs)

find_day_split :
    (at : Int64) (before ds : List BrokerDay) (day : BrokerDay) (before' : List BrokerDay)
    → find_day at before ds ≡ some (day, before')
    → (later : List BrokerDay) × (turn before ds ≡ turn before' (day ∷ later))
unfolding find_day turn
find_day_split at before [] day before' h = absurd (ground arith)
find_day_split at before (d ∷ ds) day before' h =
    elim (Bool-cases (leb d.start_millis at && ltb at d.end_millis)) [
      | inl y ↦
          let p : d ≡ day = ground arith in
          let q : before ≡ before' = ground arith in (ds, rw (p, q) refl)
      | inr n ↦ find_day_split at (d ∷ before) ds day before' (ground arith)
    ]

pub find_day-days :
    (at : Int64) (ds : List BrokerDay) (day : BrokerDay) (before : List BrokerDay)
    → find_day at [] ds ≡ some (day, before)
    → (later : List BrokerDay) × (ds ≡ turn before (day ∷ later))
unfolding turn
find_day-days at ds day before h = find_day_split at [] ds day before h

-- The days before, the latest first, are closed days, then the one that is not.
pub skip_closed_split :
    (ds : List BrokerDay) (day : BrokerDay)
    → skip_closed ds ≡ some day
    → (closed earlier : List BrokerDay) × (ds ≡ closed ++ day ∷ earlier)
      × All (λ d. is_closed d.status ≡ true) closed
      × (is_closed day.status ≡ false)
unfolding skip_closed
skip_closed_split [] day h = absurd (ground arith)
skip_closed_split (d ∷ ds) day h = elim (Bool-cases (is_closed d.status)) [
  | inl y ↦
      let (closed, earlier, e, a, n) = skip_closed_split ds day (ground arith) in
      (d ∷ closed, earlier, ap (λ r. d ∷ r) e, (y, a), n)
  | inr n ↦ ([], ds, ground arith, tt, ground arith)
]

-- The opening is the only one of its date.
pub record OnlyOpening (date : Text) (o : Opening) (os : List Opening) : Type 0 where
  pub ahead : List Opening
  pub behind : List Opening
  pub split : os ≡ ahead ++ o ∷ behind
  pub dated : text_eq o.date date ≡ true
  pub none_ahead : All (λ p. text_eq p.date date ≡ false) ahead
  pub none_behind : All (λ p. text_eq p.date date ≡ false) behind

rest_other :
    (date : Text) (o p : Opening) (os : List Opening)
    → find_opening date (some o) os ≡ found (some p)
    → (p ≡ o) × All (λ q. text_eq q.date date ≡ false) os
unfolding find_opening
rest_other date o p [] h = (ground arith, tt)
rest_other date o p (q ∷ os) h = elim (Bool-cases (text_eq q.date date)) [
  | inl y ↦ absurd (ground arith)
  | inr n ↦ let r = rest_other date o p os (ground arith) in (r.0, (n, r.1))
]

pub find_opening-OnlyOpening :
    (date : Text) (os : List Opening) (o : Opening)
    → find_opening date none os ≡ found (some o)
    → OnlyOpening date o os
unfolding find_opening
find_opening-OnlyOpening date [] o h = absurd (ground arith)
find_opening-OnlyOpening date (q ∷ os) o h = elim (Bool-cases (text_eq q.date date)) [
  | inl y ↦
      let r = rest_other date q o os (ground arith) in
      record {
        ahead = [];
        behind = os;
        split = ap (λ x. x ∷ os) (sym r.0);
        dated = rw (r.0) y;
        none_ahead = tt;
        none_behind = r.1;
      }
  | inr n ↦
      let r = find_opening-OnlyOpening date os o (ground arith) in
      record {
        ahead = q ∷ r.ahead;
        behind = r.behind;
        split = ap (λ x. q ∷ x) r.split;
        dated = r.dated;
        none_ahead = (n, r.none_ahead);
        none_behind = r.none_behind;
      }
]
