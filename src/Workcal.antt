-- ===== src/Workcal.antt =====
-- internal/workcal/pl.go: the Polish working-day calendar. A calendar date, midnight UTC of the
-- package `time`, is the number of its days since 1 January of the year 0 (a Saturday), so that dates
-- are compared, and days added, as numbers.
use external_gateway.Prelude.{
  ℕ, zero, suc, ◌+◌, ◌-◌, ◌*◌, ◌/◌, ◌%◌, min, Bool, true, false, not, ◌&&◌, ◌||◌, Bytes, List, [],
  ◌∷◌, ◌++◌, Option, none, some, utf8, is_some, ltb, leb, if◌then◌else◌, ◌==◌, ◌≡◌, refl,
}
pub mod Easter
pub mod Years
pub mod Counting
pub mod Holidays

abbrev pub Date : Type 0
Date = ℕ

unfoldable pub is_leap : ℕ → Bool
is_leap y = y % 4 == 0 && (not (y % 100 == 0) || y % 400 == 0)

unfoldable pub days_in_year : ℕ → ℕ
unfolding is_leap
days_in_year y = if is_leap y then 366 else 365

-- The days before 1 January of a year.
abbrev pub days_before_year : ℕ → ℕ
days_before_year y = (365 * y + (y + 3) / 4 + (y + 399) / 400) - (y + 99) / 100

-- The days of a common year before its months; 13 stands for the end.
abbrev pub common_days_before : ℕ → ℕ
common_days_before m =
    if leb m 1
    then 0
    else if m == 2
    then 31
    else if m == 3
    then 59
    else if m == 4
    then 90
    else if m == 5
    then 120
    else if m == 6
    then 151
    else if m == 7
    then 181
    else if m == 8
    then 212
    else if m == 9
    then 243
    else if m == 10
    then 273
    else if m == 11
    then 304
    else if m == 12
    then 334
    else 365

unfoldable pub days_before_month : ℕ → ℕ → ℕ
unfolding is_leap
days_before_month y m = common_days_before m + (if is_leap y && ltb 2 m then 1 else 0)

unfoldable pub days_in_month : ℕ → ℕ → ℕ
unfolding days_before_month
days_in_month y m = days_before_month y (m + 1) - days_before_month y m

-- `Date(year, month, day)`, for a month from 1 to 12 and a day from 1 on.
unfoldable pub date : ℕ → ℕ → ℕ → Date
unfolding days_before_month
date y m d = days_before_year y + days_before_month y m + (d - 1)

-- `d.Weekday()`: Sunday is 0.
unfoldable pub weekday : Date → ℕ
weekday d = (d + 6) % 7

-- The year of a day that many days after 1 January of the year 1, by the cycles of the calendar.
unfoldable pub year_after : ℕ → ℕ
year_after n =
    let r = n % 146097 in
    let c = min 3 (r / 36524) in
    let s = r - c * 36524 in
    let t = s % 1461 in 400 * (n / 146097) + 100 * c + 4 * (s / 1461) + min 3 (t / 365) + 1

-- `d.Year()`
unfoldable pub year_of : Date → ℕ
unfolding year_after
year_of d = if ltb d 366 then 0 else year_after (d - 366)

-- The last of the months from `m` down that does not begin after the day of the year.
unfoldable pub find_month : ℕ → ℕ → ℕ → ℕ
unfolding days_before_month
find_month y zero day = 1
find_month y (suc m) day =
    let sooner = find_month y m day in
    if leb (days_before_month y (suc m)) day then suc m else sooner

-- `d.Month()`
unfoldable pub month_of : Date → ℕ
unfolding find_month year_of
month_of d = find_month (year_of d) 12 (d - days_before_year (year_of d))

abbrev pub hours_per_day : ℕ
hours_per_day = 8

pub record Holiday : Type 0 where
  pub date : Date
  pub name : Bytes

-- `h + l - 7 * m + 114` of the anonymous Gregorian algorithm: the month and the day in one.
unfoldable pub easter_code : ℕ → ℕ
easter_code year =
    let a = year % 19 in
    let b = year / 100 in
    let c = year % 100 in
    let d = b / 4 in
    let e = b % 4 in
    let f = (b + 8) / 25 in
    let g = (b + 1 - f) / 3 in
    let h = (19 * a + b + 15 - d - g) % 30 in
    let i = c / 4 in
    let k = c % 4 in
    let l = (32 + 2 * e + 2 * i - h - k) % 7 in
    let m = (a + 11 * h + 22 * l) / 451 in h + l + 114 - 7 * m

unfoldable pub easter : ℕ → Date
unfolding date easter_code
easter year = date year (easter_code year / 31) (easter_code year % 31 + 1)

abbrev pub on : Date → Bytes → Holiday
on d name = record { date = d; name = name }

-- Christmas Eve is a holiday from 2025 on.
abbrev pub christmas_eve : ℕ → List Holiday
christmas_eve year = if leb 2025 year then on (date year 12 24) (utf8 "Wigilia") ∷ [] else []

unfoldable pub polish_holidays : ℕ → List Holiday
unfolding date easter
polish_holidays year =
    on (date year 1 1) (utf8 "Nowy Rok")
    ∷ on (date year 1 6) (utf8 "Trzech Króli")
    ∷ on (easter year) (utf8 "Wielkanoc")
    ∷ on (easter year + 1) (utf8 "Poniedziałek Wielkanocny")
    ∷ on (date year 5 1) (utf8 "Święto Pracy")
    ∷ on (date year 5 3) (utf8 "Święto Konstytucji 3 Maja")
    ∷ on (easter year + 49) (utf8 "Zielone Świątki")
    ∷ on (easter year + 60) (utf8 "Boże Ciało")
    ∷ on (date year 8 15) (utf8 "Wniebowzięcie NMP")
    ∷ on (date year 11 1) (utf8 "Wszystkich Świętych")
    ∷ on (date year 11 11) (utf8 "Narodowe Święto Niepodległości")
    ∷ (christmas_eve year
        ++ (on (date year 12 25) (utf8 "Boże Narodzenie")
            ∷ on (date year 12 26) (utf8 "Drugi dzień Bożego Narodzenia")
            ∷ []))

unfoldable pub find_holiday : Date → List Holiday → Option Bytes
find_holiday d [] = none
find_holiday d (h ∷ hs) = let rest = find_holiday d hs in if h.date == d then some h.name else rest

unfoldable pub holiday_name : Date → Option Bytes
unfolding find_holiday polish_holidays year_of
holiday_name d = find_holiday d (polish_holidays (year_of d))

unfoldable pub is_working_day : Date → Bool
unfolding weekday holiday_name
is_working_day d =
    if weekday d == 6 || weekday d == 0 then false else not (is_some (holiday_name d))

-- The loop of `WorkingDays`, on fuel; `none` means that the fuel ran out.
unfoldable pub count_working : ℕ → Date → Date → ℕ → Option ℕ
count_working zero d to n = none
count_working (suc fuel) d to n =
    let more = count_working fuel (d + 1) to (if is_working_day d then n + 1 else n) in
    if ltb to d then some n else more

unfoldable pub working_days : Date → Date → Option ℕ
working_days from to = count_working (to + 1 - from + 1) from to 0

unfoldable pub keep_between : Date → Date → List Holiday → List Holiday
keep_between from to [] = []
keep_between from to (h ∷ hs) =
    let rest = keep_between from to hs in
    if not (ltb h.date from) && not (ltb to h.date) then h ∷ rest else rest

-- The loop of `HolidaysBetween` over the years from `y`, so many of them.
unfoldable pub holidays_in_years : ℕ → ℕ → Date → Date → List Holiday
unfolding keep_between polish_holidays
holidays_in_years zero y from to = []
holidays_in_years (suc n) y from to =
    keep_between from to (polish_holidays y) ++ holidays_in_years n (y + 1) from to

unfoldable pub holidays_between : Date → Date → List Holiday
unfolding holidays_in_years year_of
holidays_between from to = holidays_in_years (year_of to + 1 - year_of from) (year_of from) from to

easters :
    (easter 2024 ≡ date 2024 3 31) × (easter 2025 ≡ date 2025 4 20) × (easter 1818 ≡ date 1818 3 22)
unfolding easter
easters = (refl, refl, refl)

days :
    (weekday (date 2026 11 26) ≡ 4)
    × (year_of (date 2024 12 31) ≡ 2024)
    × (month_of (date 2024 12 31) ≡ 12)
    × (month_of (date 2023 3 1) ≡ 3)
    × (working_days (date 2025 4 14) (date 2025 4 25) ≡ some 9)
unfolding weekday month_of working_days count_working is_working_day
days = (refl, refl, refl, refl, refl)
