-- ===== src/Workcal/Counting.antt =====
-- The count of `WorkingDays` of internal/workcal/pl.go.
use external_gateway.Prelude.{
  ℕ, zero, suc, ◌+◌, ◌-◌, ◌≤◌, ◌<◌, Bool, true, false, some, ltb, if◌then◌else◌, ◌≡◌, ◌⊎◌, inl, inr,
  refl, ap, ◌∙◌, arith, Bool-cases,
}
use external_gateway.Workcal.{Date, weekday, is_working_day, count_working, working_days}

-- The working days among so many days from a date on.
pub working_in : ℕ → Date → ℕ
working_in zero d = 0
working_in (suc n) d = (if is_working_day d then 1 else 0) + working_in n (d + 1)

pub working_in-none : (d : Date) → working_in 0 d ≡ 0
unfolding working_in
working_in-none d = refl

step : (n : ℕ) (b : Bool) (m : ℕ) → (if b then n + 1 else n) + m ≡ n + ((if b then 1 else 0) + m)
step n true m = omega arith
step n false m = omega arith

over : (d to : ℕ) → to < d → (to + 1 - d ≡ 0) × (ltb to d ≡ true)
over d to h = (omega arith, ground arith)

count_working_lem :
    (fuel d to n : ℕ)
    → to < d + fuel
    → count_working (suc fuel) d to n ≡ some (n + working_in (to + 1 - d) d)
unfolding count_working working_in
count_working_lem zero d to n h =
    let (none_left, test) = over d to (omega arith) in rw (test, none_left) (ap some (omega arith))
count_working_lem (suc fuel) d to n h = elim (Bool-cases (ltb to d)) [
  | inl e ↦
      let (none_left, test) = over d to (ground arith) in
      rw (test, none_left) (ap some (omega arith))
  | inr e ↦
      let left : to + 1 - d ≡ suc (to - d) = ground arith in
      let next : to + 1 - (d + 1) ≡ to - d = omega arith in
      let rest =
        count_working_lem fuel (d + 1) to (if is_working_day d then n + 1 else n) (omega arith) in
      rw (e, left)
        (rest ∙ ap some (rw (next) (step n (is_working_day d) (working_in (to - d) (d + 1)))))
]

-- `WorkingDays` ends, and counts exactly the working days from one date to the other, both
-- included: none where the second comes before the first.
pub working_days_lem :
    (from to : Date) → working_days from to ≡ some (working_in (to + 1 - from) from)
unfolding working_days
working_days_lem from to =
    let fuel : to + 1 - from + 1 ≡ suc (to + 1 - from) = omega arith in
    rw (fuel) (count_working_lem (to + 1 - from) from to 0 (omega arith) ∙ ap some (omega arith))

weekend : (d : Date) → weekday d ≡ 6 ⊎ weekday d ≡ 0 → is_working_day d ≡ false
unfolding is_working_day
weekend d h = ground arith

-- The working days of two stretches one after the other.
pub working_in-add :
    (m n : ℕ) (d : Date) → working_in (m + n) d ≡ working_in m d + working_in n (d + m)
unfolding working_in
working_in-add zero n d =
    let e : d + 0 ≡ d = omega arith in let f : 0 + n ≡ n = omega arith in rw (e, f) (omega arith)
working_in-add (suc m) n d =
    let e : d + suc m ≡ d + 1 + m = omega arith in
    let f : suc m + n ≡ suc (m + n) = omega arith in
    rw (e, f) (omega (arith, working_in-add m n (d + 1)))

abbrev counted : Date → ℕ
counted d = if is_working_day d then 1 else 0

day_bound : (d : Date) → counted d ≤ 1
day_bound d = elim (Bool-cases (is_working_day d)) [
  | inl e ↦ rw (e) (omega arith)
  | inr e ↦ rw (e) (omega arith)
]

free : (d : Date) → (weekday d ≡ 6) ⊎ (weekday d ≡ 0) → counted d ≡ 0
free d h = rw (weekend d h) refl

from_monday :
    (d : Date)
    → weekday d ≡ 1
    → (weekday (d + 1 + 1 + 1 + 1 + 1) ≡ 6) × (weekday (d + 1 + 1 + 1 + 1 + 1 + 1) ≡ 0)
unfolding weekday
from_monday d h = omega arith

-- From a Monday on, seven days have at most five working days.
pub week_bound : (d : Date) → weekday d ≡ 1 → working_in 7 d ≤ 5
unfolding working_in
week_bound d h =
    let (saturday, sunday) = from_monday d h in
    omega (
      arith,
      day_bound d,
      day_bound (d + 1),
      day_bound (d + 1 + 1),
      day_bound (d + 1 + 1 + 1),
      day_bound (d + 1 + 1 + 1 + 1),
      free (d + 1 + 1 + 1 + 1 + 1) (inl saturday),
      free (d + 1 + 1 + 1 + 1 + 1 + 1) (inr sunday),
    )
