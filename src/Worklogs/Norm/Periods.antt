-- ===== src/Worklogs/Norm/Periods.antt =====
-- The days that `report` of internal/server/jira_worklog.go asks for.
use external_gateway.Prelude.{
  ℕ, zero, suc, ◌+◌, ◌-◌, ◌%◌, ◌≤◌, ◌<◌, Bytes, [], ◌∷◌, codes, str_eq, leb, ◌≡◌, inl, inr, subst,
  arith, Bool-cases, All,
}
use external_gateway.Workcal.{
  Date, weekday, year_of, month_of, days_before_year, days_before_month, is_leap, date, find_month,
}
use external_gateway.Workcal.Years.{year_of_span}
use external_gateway.Worklogs.Norm.{period_range, min_date, max_date, report_range}

-- The day stands in the range.
abbrev pub Within : Date → Date × Date → Type 0
Within d r = (r.0 ≤ d) × (d ≤ r.1)

-- The one range stands in the other.
abbrev pub Covers : Date × Date → Date × Date → Type 0
Covers r s = (r.0 ≤ s.0) × (s.1 ≤ r.1)

january : (y k : ℕ) → days_before_month y 1 ≤ k
unfolding days_before_month
january y k = ground arith

find_month_span :
    (y n k : ℕ)
    → k < days_before_month y (suc n)
    → (days_before_month y (find_month y n k) ≤ k)
      × (k < days_before_month y (find_month y n k + 1))
unfolding find_month
find_month_span y zero k h = absurd (omega (arith, january y k, h))
find_month_span y (suc n) k h = elim (Bool-cases (leb (days_before_month y (suc n)) k)) [
  | inl e ↦
      let next : suc (suc n) ≡ suc n + 1 = omega arith in
      rw (e) (ground arith, subst (λ x. k < days_before_month y x) next h)
  | inr e ↦ rw (e) (find_month_span y n k (ground arith))
]

year_length : (y : ℕ) → days_before_year (y + 1) ≡ days_before_year y + days_before_month y 13
unfolding days_before_month is_leap
year_length y = ground arith

month_span :
    (d : Date)
    → 366 ≤ d
    → (days_before_year (year_of d) + days_before_month (year_of d) (month_of d) ≤ d)
      × (d < days_before_year (year_of d) + days_before_month (year_of d) (month_of d + 1))
unfolding month_of
month_span d h =
    let (_, lo, hi) = year_of_span d h in
    let len = year_length (year_of d) in
    let (a, b) = find_month_span (year_of d) 12 (d - days_before_year (year_of d)) (omega arith) in
    (omega arith, omega arith)

week_holds : (d : Date) → 6 ≤ d → Within d (d - (weekday d + 6) % 7, d - (weekday d + 6) % 7 + 6)
unfolding weekday
week_holds d h = (omega arith, omega arith)

period_range-Within : (period : Bytes) (d : Date) → 366 ≤ d → Within d (period_range period d)
unfolding period_range date
period_range-Within period d h = elim (Bool-cases (str_eq period (codes "week"))) [
  | inl e ↦ rw (e) (week_holds d (omega arith))
  | inr e ↦ elim (Bool-cases (str_eq period (codes "month"))) [
    | inl f ↦ let (lo, hi) = month_span d h in rw (e, f) (omega arith, omega arith)
    | inr f ↦ rw (e, f) (omega arith, omega arith)
  ]
]

min_date_le :
    (a b c : Date)
    → (min_date a (b ∷ c ∷ []) ≤ a) × (min_date a (b ∷ c ∷ []) ≤ b) × (min_date a (b ∷ c ∷ []) ≤ c)
unfolding min_date
min_date_le a b c = (ground arith, ground arith, ground arith)

max_date_le :
    (a b c : Date)
    → (a ≤ max_date a (b ∷ c ∷ [])) × (b ≤ max_date a (b ∷ c ∷ [])) × (c ≤ max_date a (b ∷ c ∷ []))
unfolding max_date
max_date_le a b c = (ground arith, ground arith, ground arith)

-- From the year 1 on, the range of a report covers its period and the week and the month around
-- the report's day, and each of these holds that day.
pub report_range-Covers :
    (period : Bytes) (as_of : Date)
    → 366 ≤ as_of
    → All
        (λ p.
          Within as_of (period_range p as_of)
          × Covers (report_range period as_of) (period_range p as_of))
        (period ∷ codes "week" ∷ codes "month" ∷ [])
unfolding report_range
report_range-Covers period as_of h =
    let p = period_range period as_of in
    let w = period_range (codes "week") as_of in
    let m = period_range (codes "month") as_of in
    let (p0, w0, m0) = min_date_le p.0 w.0 m.0 in
    let (p1, w1, m1) = max_date_le p.1 w.1 m.1 in
    (
      (period_range-Within period as_of h, (p0, p1)),
      (
        (period_range-Within (codes "week") as_of h, (w0, w1)),
        ((period_range-Within (codes "month") as_of h, (m0, m1)), tt),
      ),
    )
