-- ===== src/Workcal/Holidays.antt =====
-- The holidays of `HolidaysBetween` and those that `HolidayName` knows, of internal/workcal/pl.go.
use external_gateway.Prelude.{
  ℕ, zero, suc, ◌+◌, ◌-◌, ◌≤◌, ◌<◌, Bool, true, false, not, ◌&&◌, List, [], ◌∷◌, is_some, ltb, leb,
  ◌==◌, if◌then◌else◌, ◌≡◌, ◌⊎◌, ◌↔◌, inl, inr, refl, sym, subst, arith, Bool-cases, All, Some,
  All-append, utf8, Some-append, Some-left, Some-right,
}
use external_gateway.Workcal.{
  Date, Holiday, date, year_of, days_in_year, days_before_year, days_before_month,
  common_days_before, easter, polish_holidays, christmas_eve, on, find_holiday, holiday_name,
  keep_between, holidays_in_years, holidays_between,
}
use external_gateway.Workcal.Easter.{easter_lem, easter_code_bounds}
use external_gateway.Workcal.Years.{year_of_day, year_of_span}

-- In the first 365 days of the year.
abbrev StandsIn : ℕ → Holiday → Type 0
StandsIn y h = (days_before_year y ≤ h.date) × (h.date < days_before_year y + 365)

easter_stands :
    (y k : ℕ)
    → k ≤ 60
    → (days_before_year y ≤ easter y + k) × (easter y + k < days_before_year y + 365)
easter_stands y k h =
    let (lo, hi) = easter_code_bounds y in let e = easter_lem y in (ground arith, ground arith)

fixed_stands :
    (y m d : ℕ)
    → common_days_before m + d ≤ 364
    → (days_before_year y ≤ date y m d) × (date y m d < days_before_year y + 365)
unfolding date days_before_month
fixed_stands y m d h = (omega arith, ground arith)

christmas_eve-StandsIn : (y : ℕ) → All (StandsIn y) (christmas_eve y)
christmas_eve-StandsIn y = elim (Bool-cases (leb 2025 y)) [
  | inl e ↦ rw (e) (fixed_stands y 12 24 (omega arith), tt)
  | inr e ↦ rw (e) tt
]

-- All the holidays of a year stand in it.
polish_holidays-StandsIn : (y : ℕ) → All (StandsIn y) (polish_holidays y)
unfolding polish_holidays
polish_holidays-StandsIn y =
    let zero_days : easter y + 0 ≡ easter y = omega arith in
    (
      fixed_stands y 1 1 (omega arith),
      (
        fixed_stands y 1 6 (omega arith),
        (
          subst (λ x. (days_before_year y ≤ x) × (x < days_before_year y + 365)) zero_days
              (easter_stands y 0 (omega arith)),
          (
            easter_stands y 1 (omega arith),
            (
              fixed_stands y 5 1 (omega arith),
              (
                fixed_stands y 5 3 (omega arith),
                (
                  easter_stands y 49 (omega arith),
                  (
                    easter_stands y 60 (omega arith),
                    (
                      fixed_stands y 8 15 (omega arith),
                      (
                        fixed_stands y 11 1 (omega arith),
                        (
                          fixed_stands y 11 11 (omega arith),
                          All-append (StandsIn y) (christmas_eve y)
                              (on (date y 12 25) (utf8 "Boże Narodzenie")
                                ∷ on (date y 12 26) (utf8 "Drugi dzień Bożego Narodzenia")
                                ∷ [])
                              (christmas_eve-StandsIn y)
                              (
                                fixed_stands y 12 25 (omega arith),
                                (fixed_stands y 12 26 (omega arith), tt),
                              ),
                        ),
                      ),
                    ),
                  ),
                ),
              ),
            ),
          ),
        ),
      ),
    )

abbrev pub IsOn : Date → Holiday → Type 0
IsOn d h = h.date ≡ d

find_holiday_iff :
    (d : Date) (hs : List Holiday) → (is_some (find_holiday d hs) ≡ true) ↔ Some (IsOn d) hs
unfolding find_holiday
find_holiday_iff d [] = (λ h. absurd (ground arith), λ h. absurd h)
find_holiday_iff d (h ∷ hs) = elim (Bool-cases (h.date == d)) [
  | inl e ↦ (λ x. inl (ground arith), λ x. rw (e) refl)
  | inr e ↦
      let (to_some, of_some) = find_holiday_iff d hs in
      (
        λ x. inr (to_some (ground arith)),
        λ x. elim x [ inl k ↦ absurd (ground arith) | inr k ↦ rw (e) (of_some k) ],
      )
]

kept :
    (d : Date) (b : Bool) (h : Holiday) (hs : List Holiday)
    → Some (IsOn d) (if b then h ∷ hs else hs)
    → ((b ≡ true) × IsOn d h) ⊎ Some (IsOn d) hs
kept d true h hs (inl e) = inl (refl, e)
kept d true h hs (inr x) = inr x
kept d false h hs x = inr x

keep_between_sound :
    (from to d : Date) (hs : List Holiday)
    → Some (IsOn d) (keep_between from to hs)
    → Some (IsOn d) hs × (from ≤ d) × (d ≤ to)
unfolding keep_between
keep_between_sound from to d [] x = absurd x
keep_between_sound from to d (h ∷ hs) x =
    elim (kept d (not (ltb h.date from) && not (ltb to h.date)) h (keep_between from to hs) x) [
      | inl (b, e) ↦ (inl e, ground arith, ground arith)
      | inr k ↦ let (found, lo, hi) = keep_between_sound from to d hs k in (inr found, lo, hi)
    ]

keep_between_complete :
    (from to d : Date) (hs : List Holiday)
    → from ≤ d
    → d ≤ to
    → Some (IsOn d) hs
    → Some (IsOn d) (keep_between from to hs)
unfolding keep_between
keep_between_complete from to d [] lo hi x = x
keep_between_complete from to d (h ∷ hs) lo hi (inl e) =
    let test : (not (ltb h.date from) && not (ltb to h.date)) ≡ true = ground arith in
    rw (test) (inl e)
keep_between_complete from to d (h ∷ hs) lo hi (inr x) =
    elim (Bool-cases (not (ltb h.date from) && not (ltb to h.date))) [
      | inl e ↦ rw (e) (inr (keep_between_complete from to d hs lo hi x))
      | inr e ↦ rw (e) (keep_between_complete from to d hs lo hi x)
    ]

in_bounds :
    (y d : Date) (hs : List Holiday)
    → All (StandsIn y) hs
    → Some (IsOn d) hs
    → (days_before_year y ≤ d) × (d < days_before_year y + 365)
in_bounds y d [] a x = absurd x
in_bounds y d (h ∷ hs) ((lo, hi), a) (inl e) = (omega arith, omega arith)
in_bounds y d (h ∷ hs) (k, a) (inr x) = in_bounds y d hs a x

days_in_year_least : (y : ℕ) → 365 ≤ days_in_year y
unfolding days_in_year
days_in_year_least y = ground arith

-- A day with a holiday of a year is in this year.
year_of_holiday : (y d : ℕ) → 1 ≤ y → Some (IsOn d) (polish_holidays y) → year_of d ≡ y
year_of_holiday y d y1 h =
    let (lo, hi) = in_bounds y d (polish_holidays y) (polish_holidays-StandsIn y) h in
    let day : days_before_year y + (d - days_before_year y) ≡ d = omega arith in
    subst (λ x. year_of x ≡ y) day
      (year_of_day y (d - days_before_year y) y1 (omega (arith, days_in_year_least y)))

holiday_name_iff :
    (d : Date) → (is_some (holiday_name d) ≡ true) ↔ Some (IsOn d) (polish_holidays (year_of d))
unfolding holiday_name
holiday_name_iff d = find_holiday_iff d (polish_holidays (year_of d))

holidays_in_years_sound :
    (n y : ℕ) (from to d : Date)
    → 1 ≤ y
    → Some (IsOn d) (holidays_in_years n y from to)
    → (from ≤ d) × (d ≤ to) × (is_some (holiday_name d) ≡ true)
unfolding holidays_in_years
holidays_in_years_sound zero y from to d y1 x = absurd x
holidays_in_years_sound (suc n) y from to d y1 x =
    elim (Some-append (IsOn d) (keep_between from to (polish_holidays y))
      (holidays_in_years n (y + 1) from to) x) [
        | inl k ↦
            let (h, lo, hi) = keep_between_sound from to d (polish_holidays y) k in
            (
              lo,
              hi,
              (holiday_name_iff d).1 (
                  subst (λ z. Some (IsOn d) (polish_holidays z)) (sym (year_of_holiday y d y1 h))
                    h),
            )
        | inr k ↦ holidays_in_years_sound n (y + 1) from to d (omega arith) k
      ]

holidays_in_years_complete :
    (n y : ℕ) (from to d : Date)
    → y ≤ year_of d
    → year_of d < y + n
    → from ≤ d
    → d ≤ to
    → Some (IsOn d) (polish_holidays (year_of d))
    → Some (IsOn d) (holidays_in_years n y from to)
unfolding holidays_in_years
holidays_in_years_complete zero y from to d a b lo hi h = absurd (omega arith)
holidays_in_years_complete (suc n) y from to d a b lo hi h = elim (Bool-cases (year_of d == y)) [
  | inl e ↦
      let same : year_of d ≡ y = ground arith in
      Some-left (IsOn d) (keep_between from to (polish_holidays y))
        (holidays_in_years n (y + 1) from to)
        (keep_between_complete from to d (polish_holidays y) lo hi
          (subst (λ z. Some (IsOn d) (polish_holidays z)) same h))
  | inr e ↦
      Some-right (IsOn d) (keep_between from to (polish_holidays y))
        (holidays_in_years n (y + 1) from to)
        (holidays_in_years_complete n (y + 1) from to d (ground arith) (omega arith) lo hi h)
]

-- Later days are in no earlier year.
year_of_monotone : (a b : Date) → 366 ≤ a → a ≤ b → year_of a ≤ year_of b
year_of_monotone a b h le =
    let (_, lo, _) = year_of_span a h in
    let (_, _, hi) = year_of_span b (omega arith) in omega arith

-- From the year 1 on, a day is the day of one of the holidays that `HolidaysBetween` lists exactly
-- when it lies between the two days, both included, and `HolidayName` knows it for a holiday.
pub holidays_between_iff :
    (from to d : Date)
    → 366 ≤ from
    → Some (IsOn d) (holidays_between from to)
      ↔ ((from ≤ d) × (d ≤ to) × (is_some (holiday_name d) ≡ true))
unfolding holidays_between
holidays_between_iff from to d h =
    let (y1, _, _) = year_of_span from h in
    (
      holidays_in_years_sound (year_of to + 1 - year_of from) (year_of from) from to d y1,
      λ (lo, hi, n).
          let below = year_of_monotone from d h lo in
          let above = year_of_monotone d to (omega arith) hi in
          holidays_in_years_complete (year_of to + 1 - year_of from) (year_of from) from to d below
            (omega arith) lo hi ((holiday_name_iff d).0 n),
    )
