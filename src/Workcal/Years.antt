-- ===== src/Workcal/Years.antt =====
-- The year of a day, by `Year` of the package `time`.
use external_gateway.Prelude.{
  ℕ, ◌+◌, ◌-◌, ◌*◌, ◌/◌, ◌%◌, ◌≤◌, ◌<◌, true, false, ltb, ◌==◌, ◌≡◌, ◌⊎◌, inl, inr, refl, arith,
  Bool-cases, ◌≢◌, sym, subst,
}
use external_gateway.Workcal.{year_of, year_after, is_leap, days_in_year, days_before_year}

-- The last day of a leap year, or an earlier one.
abbrev InYear : ℕ → ℕ → ℕ → ℕ → Type 0
InYear b c e k = (k < 365) ⊎ ((k ≡ 365) × (e ≡ 3) × ((c < 24) ⊎ (b ≡ 3)))

year_after_parts :
    (q b c e k : ℕ)
    → b ≤ 3
    → c ≤ 24
    → e ≤ 3
    → InYear b c e k
    → year_after (146097 * q + 36524 * b + 1461 * c + 365 * e + k)
      ≡ 400 * q + 100 * b + 4 * c + e + 1
unfolding year_after
year_after_parts q b c e k hb hc he (inl h) = omega arith
year_after_parts q b c e k hb hc he (inr (x, y, inl z)) = omega arith
year_after_parts q b c e k hb hc he (inr (x, y, inr z)) = omega arith

-- The days before a year, by the parts of the year.
before_parts :
    (q b c e : ℕ)
    → b ≤ 3
    → c ≤ 24
    → e ≤ 3
    → days_before_year (400 * q + 100 * b + 4 * c + e + 1)
      ≡ 366 + (146097 * q + 36524 * b + 1461 * c + 365 * e)
before_parts q b c e hb hc he = omega arith

-- A year of 366 days is the fourth of its four years, which end no common century.
leap_parts :
    (q b c e : ℕ)
    → b ≤ 3
    → c ≤ 24
    → e ≤ 3
    → is_leap (400 * q + 100 * b + 4 * c + e + 1) ≡ true
    → (e ≡ 3) × ((c < 24) ⊎ (b ≡ 3))
unfolding is_leap
leap_parts q b c e hb hc he h =
    let y : ℕ = 400 * q + 100 * b + 4 * c + e + 1 in
    let four : (400 * q + 100 * b + 4 * c + e + 1) % 4 ≡ 0 = ground arith in
    let century : ((400 * q + 100 * b + 4 * c + e + 1) % 100 ≢ 0)
        ⊎ ((400 * q + 100 * b + 4 * c + e + 1) % 400 ≡ 0) =
      ground arith in
    let last : e ≡ 3 = omega arith in
    let common : (c < 24) ⊎ (b ≡ 3) = elim century [ inl x ↦ omega arith | inr x ↦ omega arith ] in
    (last, common)

length_of :
    (y : ℕ) → (is_leap y ≡ true × days_in_year y ≡ 366) ⊎ (is_leap y ≡ false × days_in_year y ≡ 365)
unfolding days_in_year
length_of y = elim (Bool-cases (is_leap y)) [
  | inl e ↦ inl (e, rw (e) refl)
  | inr e ↦ inr (e, rw (e) refl)
]

InYear-is_leap :
    (q b c e k : ℕ)
    → b ≤ 3
    → c ≤ 24
    → e ≤ 3
    → k < days_in_year (400 * q + 100 * b + 4 * c + e + 1)
    → InYear b c e k
InYear-is_leap q b c e k hb hc he h = elim (length_of (400 * q + 100 * b + 4 * c + e + 1)) [
  | inl (x, n) ↦
      let parts = leap_parts q b c e hb hc he x in
      elim (Bool-cases (k == 365)) [
        | inl z ↦ inr (ground arith, parts.0, parts.1)
        | inr z ↦ inl (ground arith)
      ]
  | inr (x, n) ↦ inl (omega arith)
]

year_of_parts :
    (q b c e k : ℕ)
    → b ≤ 3
    → c ≤ 24
    → e ≤ 3
    → k < days_in_year (400 * q + 100 * b + 4 * c + e + 1)
    → year_of (days_before_year (400 * q + 100 * b + 4 * c + e + 1) + k)
      ≡ 400 * q + 100 * b + 4 * c + e + 1
unfolding year_of
year_of_parts q b c e k hb hc he h =
    let split = before_parts q b c e hb hc he in
    let late : ltb (366 + (146097 * q + 36524 * b + 1461 * c + 365 * e) + k) 366 ≡ false =
      ground arith in
    let rest : 366 + (146097 * q + 36524 * b + 1461 * c + 365 * e) + k - 366
        ≡ 146097 * q + 36524 * b + 1461 * c + 365 * e + k =
      omega arith in
    rw (split, late, rest)
      (year_after_parts q b c e k hb hc he (InYear-is_leap q b c e k hb hc he h))

-- The days of a year, from the year 1 on, are in this year.
pub year_of_day : (y k : ℕ) → 1 ≤ y → k < days_in_year y → year_of (days_before_year y + k) ≡ y
year_of_day y k y1 inside =
    let parts : 400 * ((y - 1) / 400)
          + 100 * ((y - 1) % 400 / 100)
          + 4 * ((y - 1) % 100 / 4)
          + (y - 1) % 4
          + 1
        ≡ y =
      omega arith in
    let read =
      year_of_parts ((y - 1) / 400) ((y - 1) % 400 / 100) ((y - 1) % 100 / 4) ((y - 1) % 4) k
        (omega arith) (omega arith) (omega arith)
        (subst (λ x. k < days_in_year x) (sym parts) inside) in
    subst (λ x. year_of (days_before_year x + k) ≡ x) parts read

year_after_span :
    (n : ℕ)
    → (days_before_year (year_after n) ≤ n + 366) × (n + 366 < days_before_year (year_after n + 1))
unfolding year_after
year_after_span n = (omega arith, omega arith)

year_after_pos : (n : ℕ) → 1 ≤ year_after n
unfolding year_after
year_after_pos n = omega arith

-- A day of the year 1 or later is a day of its year.
pub year_of_span :
    (d : ℕ)
    → 366 ≤ d
    → (1 ≤ year_of d) × (days_before_year (year_of d) ≤ d) × (d < days_before_year (year_of d + 1))
unfolding year_of
year_of_span d h =
    let late : ltb d 366 ≡ false = ground arith in
    let (lo, hi) = year_after_span (d - 366) in
    let back : d - 366 + 366 ≡ d = omega arith in
    rw (late) (year_after_pos (d - 366), omega arith, omega arith)
