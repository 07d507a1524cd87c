-- ===== src/Workcal/Easter.antt =====
-- Where Easter falls, by `easter` of internal/workcal/pl.go.
use external_gateway.Prelude.{
  ℕ, ◌+◌, ◌-◌, ◌*◌, ◌/◌, ◌%◌, ◌≤◌, ◌<◌, ltb, if◌then◌else◌, ◌≡◌, inl, inr, arith, Bool-cases,
}
use external_gateway.Workcal.{
  date, easter, easter_code, weekday, is_leap, days_before_month, days_before_year,
}

pub easter_code_bounds : (year : ℕ) → (114 ≤ easter_code year) × (easter_code year ≤ 148)
unfolding easter_code
easter_code_bounds year = omega arith

in_march :
    (y c : ℕ)
    → 114 ≤ c
    → c < 124
    → date y (c / 31) (c % 31 + 1) + 34 ≡ days_before_year y + (if is_leap y then 1 else 0) + c
unfolding date days_before_month
in_march y c lo hi =
    let m : c / 31 ≡ 3 = omega arith in
    let d : c % 31 ≡ c - 93 = omega arith in rw (m, d) (ground arith)

in_april :
    (y c : ℕ)
    → 124 ≤ c
    → c ≤ 148
    → date y (c / 31) (c % 31 + 1) + 34 ≡ days_before_year y + (if is_leap y then 1 else 0) + c
unfolding date days_before_month
in_april y c lo hi =
    let m : c / 31 ≡ 4 = omega arith in
    let d : c % 31 ≡ c - 124 = omega arith in rw (m, d) (ground arith)

-- The day of Easter, by its code.
pub easter_lem :
    (year : ℕ)
    → easter year + 34 ≡ days_before_year year + (if is_leap year then 1 else 0) + easter_code year
unfolding easter
easter_lem year =
    let (lo, hi) = easter_code_bounds year in
    elim (Bool-cases (ltb (easter_code year) 124)) [
      | inl e ↦ in_march year (easter_code year) lo (ground arith)
      | inr e ↦ in_april year (easter_code year) (ground arith) hi
    ]

leap_days :
    (y : ℕ)
    → days_before_year y + (if is_leap y then 1 else 0) + y / 100 ≡ 365 * y + y / 4 + y / 400 + 1
unfolding is_leap
leap_days y = ground arith

-- The day number of Easter and the code, by the year's parts.
sunday : (y : ℕ) → (365 * y + y / 4 + y / 400 + 1 + easter_code y + 6 - 34 - y / 100) % 7 ≡ 0
unfolding easter_code
sunday y = omega arith

-- Of every year from 0 on, Easter is a Sunday from 22 March to 25 April.
pub easter_bounds :
    (year : ℕ)
    → (weekday (easter year) ≡ 0) × (date year 3 22 ≤ easter year) × (easter year ≤ date year 4 25)
unfolding weekday date days_before_month
easter_bounds year =
    let (lo, hi) = easter_code_bounds year in
    let l = leap_days year in
    let s = sunday year in let e = easter_lem year in (omega arith, ground arith, ground arith)
