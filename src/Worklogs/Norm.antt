-- ===== src/Worklogs/Norm.antt =====
-- The periods and the norm of the worklog report of internal/server/jira_worklog.go. Hours are in
-- hundredths.
use external_gateway.Prelude.{
  ℕ, zero, suc, ℤ, pos, negsuc, ◌+◌, ◌-◌, ◌*◌, ◌/◌, ◌%◌, ◌≤◌, ◌<◌, Bool, true, false, not, Bytes,
  List, [], ◌∷◌, Option, none, some, codes, str_eq, ltb, leb, if◌then◌else◌, ◌≡◌, ◌⊎◌, inl, inr,
  refl, sym, subst, ap, ◌∙◌, arith, Bool-cases,
}
use external_gateway.Workcal.{
  Date, Holiday, weekday, year_of, month_of, days_before_year, days_before_month, days_in_year,
  date, working_days, holidays_between, hours_per_day, find_month,
}
use external_gateway.Workcal.Counting.{
  working_in, working_in-add, working_in-none, working_days_lem,
}
use external_gateway.Worklogs.Entries.{hours_of}
pub mod Periods

-- `periodRange`; the day before the first of the next month ends a month.
unfoldable pub period_range : Bytes → Date → Date × Date
unfolding weekday str_eq date days_before_month
period_range period d =
    if str_eq period (codes "week")
    then (d - (weekday d + 6) % 7, d - (weekday d + 6) % 7 + 6)
    else if str_eq period (codes "month")
    then (
      date (year_of d) (month_of d) 1,
      days_before_year (year_of d) + days_before_month (year_of d) (month_of d + 1) - 1,
    )
    else (d, d)

unfoldable pub min_date : Date → List Date → Date
min_date m [] = m
min_date m (d ∷ ds) = min_date (if ltb d m then d else m) ds

unfoldable pub max_date : Date → List Date → Date
max_date m [] = m
max_date m (d ∷ ds) = max_date (if ltb m d then d else m) ds

-- The days whose worklogs a report asks for.
unfoldable pub report_range : Bytes → Date → Date × Date
unfolding period_range min_date max_date
report_range period as_of =
    let p = period_range period as_of in
    let w = period_range (codes "week") as_of in
    let m = period_range (codes "month") as_of in
    (min_date p.0 (w.0 ∷ m.0 ∷ []), max_date p.1 (w.1 ∷ m.1 ∷ []))

pub record Norm : Type 0 where
  pub from : Date
  pub to : Date
  pub working_days : ℕ
  pub norm_hours : ℕ
  pub norm_to_date_hours : ℕ
  pub logged_hours : ℕ
  pub left_hours : ℕ
  pub overtime_hours : ℕ
  pub balance_to_date : ℤ
  pub holidays : List Holiday

-- `a - b`
abbrev pub difference : ℕ → ℕ → ℤ
difference a b = if ltb a b then negsuc (b - a - 1) else pos (a - b)

-- The working days counted to date: none before the period.
unfoldable pub days_to_date : Date → Date → Date → Option ℕ
unfolding working_days
days_to_date from to as_of =
    if ltb as_of from then some 0 else working_days from (if ltb as_of to then as_of else to)

unfoldable pub norm_of : Date → Date → ℕ → ℕ → ℕ → Norm
unfolding hours_of holidays_between
norm_of from to logged days to_date = record {
  from = from;
  to = to;
  working_days = days;
  norm_hours = 100 * (days * hours_per_day);
  norm_to_date_hours = 100 * (to_date * hours_per_day);
  logged_hours = hours_of logged;
  left_hours = 100 * (days * hours_per_day) - hours_of logged;
  overtime_hours = hours_of logged - 100 * (days * hours_per_day);
  balance_to_date = difference (hours_of logged) (100 * (to_date * hours_per_day));
  holidays = holidays_between from to;
}

-- `norm`; `none` would mean that a count of days does not end.
unfoldable pub norm : Date → Date → Date → ℕ → Option Norm
unfolding norm_of days_to_date
norm from to as_of logged = elim (working_days from to) [
  | none ↦ none
  | some days ↦ elim (days_to_date from to as_of) [
    | none ↦ none
    | some to_date ↦ some (norm_of from to logged days to_date)
  ]
]

-- Fewer days have no more working days.
working_in_mono : (m n : ℕ) (d : Date) → m ≤ n → working_in m d ≤ working_in n d
working_in_mono m n d h =
    let all_days : m + (n - m) ≡ n = omega arith in
    subst (λ k. working_in m d ≤ working_in k d) all_days
      (omega (arith, working_in-add m (n - m) d))

-- How many days of a period are over.
abbrev elapsed : Date → Date → Date → ℕ
elapsed from to as_of =
    if ltb as_of from then 0 else (if ltb as_of to then as_of else to) + 1 - from

days_to_date_lem :
    (from to as_of : Date)
    → days_to_date from to as_of ≡ some (working_in (elapsed from to as_of) from)
unfolding days_to_date
days_to_date_lem from to as_of = elim (Bool-cases (ltb as_of from)) [
  | inl e ↦ rw (e) (ap some (sym (working_in-none from)))
  | inr e ↦ rw (e) (working_days_lem from (if ltb as_of to then as_of else to))
]

-- What the hours of a norm are to each other.
pub record IsBalanced (n : Norm) (seconds : ℕ) : Type 0 where
  -- the norm is met and exceeded by what is logged, or missed
  pub split : n.norm_hours + n.overtime_hours ≡ n.logged_hours + n.left_hours
  pub one : (n.left_hours ≡ 0) ⊎ (n.overtime_hours ≡ 0)
  pub to_date : n.norm_to_date_hours ≤ n.norm_hours
  pub balance : n.balance_to_date ≡ difference n.logged_hours n.norm_to_date_hours
  pub rounded : (36 * n.logged_hours ≤ seconds + 18) × (seconds < 36 * n.logged_hours + 18)

norm_of-IsBalanced :
    (from to : Date) (logged days to_date : ℕ)
    → to_date ≤ days
    → IsBalanced (norm_of from to logged days to_date) logged
unfolding norm_of hours_of
norm_of-IsBalanced from to logged days to_date h = record {
  split = omega arith;
  one = ground arith;
  to_date = omega arith;
  balance = refl;
  rounded = (omega arith, omega arith);
}

norm_counted :
    (from to as_of : Date) (logged days to_date : ℕ)
    → working_days from to ≡ some days
    → days_to_date from to as_of ≡ some to_date
    → norm from to as_of logged ≡ some (norm_of from to logged days to_date)
unfolding norm
norm_counted from to as_of logged days to_date e f = rw (e, f, norm) refl

-- `norm` always has a result; its norm is eight hours for each working day of the period, the part
-- of it to date is no more, at most one of the hours left and the overtime is there and they are
-- the difference to what is logged, the balance is that to the norm to date, and the logged hours
-- are the seconds rounded to hundredths of an hour.
pub norm-IsBalanced :
    (from to as_of : Date) (logged : ℕ)
    → (n : Norm) × (norm from to as_of logged ≡ some n)
      × (n.norm_hours ≡ 800 * working_in (to + 1 - from) from)
      × IsBalanced n logged
unfolding norm_of
norm-IsBalanced from to as_of logged =
    let days = working_in (to + 1 - from) from in
    let past = working_in (elapsed from to as_of) from in
    let h : past ≤ days =
      working_in_mono (elapsed from to as_of) (to + 1 - from) from (ground arith) in
    (
      norm_of from to logged days past,
      norm_counted from to as_of logged days past (working_days_lem from to)
          (days_to_date_lem from to as_of),
      omega arith,
      norm_of-IsBalanced from to logged days past h,
    )
